-- ===== src/Gather/Canonical.antt =====
-- What an accepted plan is: displacements that are prefix sums, and slots that are a permutation.
use dmg_md.Base.{
  ℕ, zero, suc, ◌+◌, ◌≤◌, ◌<◌, ◌≡◌, refl, sym, ap, ◌∙◌, false, not, List, [], ◌∷◌, map, ok, ◌>>=◌,
  ◌>>◌, throw_if, >>=-eq-ok, throw_if-eq-ok, arith, length, length-map, get_or, set, replicate,
  length-replicate, flag, get_or-set, get_or-replicate, count, count_full, AllBelow, total,
  total_first, ◌==◌, length-set,
}
use dmg_md.Base.Int.{ℤ, pos, negsuc, pos_part}
use dmg_md.Base.Machine.{size_of_int}
use dmg_md.Gather.{
  IndexedOwnershipPlan, check_prefix, check_scatter, bad_rank, bad_shape, bad_sizes, invalid_rank,
  exceeds_shape, not_world_sized, not_covering, send_disagrees,
  validate_indexed_ownership_plan_host,
}

-- The number of atoms of rank `r`, and those of the ranks in front of it.
abbrev pub atoms_of : List ℤ → ℕ → ℕ
atoms_of counts r = pos_part (get_or counts r (pos 0))

abbrev pub atoms_before : List ℤ → ℕ → ℕ
atoms_before counts r = total (atoms_of counts) r

prefix_step :
    (global : ℕ) (c : ℤ) (cs : List ℤ) (d : ℤ) (ds : List ℤ) (expected : ℕ) {reached : ℕ}
    → check_prefix global (c ∷ cs) (d ∷ ds) expected ≡ ok reached
    → (d ≡ pos expected) × (check_prefix global cs ds (expected + pos_part c) ≡ ok reached)
unfolding check_prefix size_of_int
prefix_step global (pos c) cs (pos d) ds expected e = (ground arith, ground arith)
prefix_step global (pos c) cs (negsuc d) ds expected e = (ground arith, ground arith)
prefix_step global (negsuc c) cs d ds expected e = (ground arith, ground arith)

before_cons :
    (c : ℤ) (cs : List ℤ) (r : ℕ) → atoms_before (c ∷ cs) (suc r) ≡ pos_part c + atoms_before cs r
before_cons c cs r = total_first (atoms_of (c ∷ cs)) r

sums_cons :
    (c : ℤ) (cs : List ℤ) (d : ℤ) (ds : List ℤ) (expected : ℕ)
    → d ≡ pos expected
    → ((r : ℕ)
        → r < length cs
        → get_or ds r (pos 0) ≡ pos (expected + pos_part c + atoms_before cs r))
    → (r : ℕ) → r < suc (length cs)
    → get_or (d ∷ ds) r (pos 0) ≡ pos (expected + atoms_before (c ∷ cs) r)
sums_cons c cs d ds expected first rest zero lt = first ∙ ap pos (omega arith)
sums_cons c cs d ds expected first rest (suc r) lt =
    rest r (omega arith) ∙ ap pos (omega (arith, before_cons c cs r))

prefix_sums :
    (global : ℕ) (cs ds : List ℤ) (expected : ℕ) {reached : ℕ}
    → length cs ≡ length ds
    → check_prefix global cs ds expected ≡ ok reached
    → ((r : ℕ) → r < length cs → get_or ds r (pos 0) ≡ pos (expected + atoms_before cs r))
      × (reached ≡ expected + atoms_before cs (length cs))
unfolding check_prefix
prefix_sums global [] [] expected len e = (λ r lt. absurd (omega arith), ground arith)
prefix_sums global [] (d ∷ ds) expected len e = absurd (omega arith)
prefix_sums global (c ∷ cs) [] expected len e = absurd (omega arith)
prefix_sums global (c ∷ cs) (d ∷ ds) expected len e =
    let (first, e1) = prefix_step global c cs d ds expected e in
    let (sums, end) = prefix_sums global cs ds (expected + pos_part c) (omega arith) e1 in
    (sums_cons c cs d ds expected first sums, omega (arith, end, before_cons c cs (length cs)))

scatter_step :
    (global : ℕ) (slot : ℤ) (slots : List ℤ) (seen : List ℕ)
    → check_scatter global (slot ∷ slots) seen ≡ ok tt
    → (pos_part slot < global)
      × (slot ≡ pos (pos_part slot))
      × (flag seen (pos_part slot) ≡ 0)
      × (check_scatter global slots (set seen (pos_part slot) 1) ≡ ok tt)
unfolding check_scatter size_of_int
scatter_step global (pos s) slots seen e = (ground arith, refl, ground arith, ground arith)
scatter_step global (negsuc s) slots seen e = absurd (ground arith)

scatter_once :
    (global : ℕ) (slots : List ℤ) (seen : List ℕ)
    → length seen ≡ global
    → check_scatter global slots seen ≡ ok tt
    → AllBelow global (map pos_part slots)
      × ((k : ℕ) → flag seen k ≤ 1 → flag seen k + count k (map pos_part slots) ≤ 1)
scatter_once global [] seen len e = (tt, λ k h. omega arith)
scatter_once global (slot ∷ slots) seen len e =
    let s = pos_part slot in
    let (below, _, fresh, e1) = scatter_step global slot slots seen e in
    let (rest, once) = scatter_once global slots (set seen s 1) (length-set seen s 1 ∙ len) e1 in
    ((below, rest), λ k h. ground (arith, once k, get_or-set seen s 1 k (omega arith)))

guards :
    (plan : IndexedOwnershipPlan) (rank world : ℤ)
    → bad_rank rank world ≡ false
    → bad_sizes plan world ≡ false
    → (length plan.atom_counts ≡ pos_part world)
      × (length plan.atom_counts ≡ length plan.atom_displacements)
      × (length plan.host_scatter_slots ≡ plan.global_count)
unfolding bad_rank bad_sizes size_of_int
guards plan (pos r) (pos n) a b = (ground arith, ground arith, ground arith)
guards plan (negsuc r) world a b = absurd (ground arith)
guards plan (pos r) (negsuc n) a b = absurd (ground arith)

-- In an accepted plan the displacement of each rank is the number of atoms of the ranks in front of
-- it, all the ranks together have the global count, and the scatter list names each slot exactly once.
pub validate-IsCanonical :
    (plan : IndexedOwnershipPlan) (rank world : ℤ) (stride : ℕ)
    → validate_indexed_ownership_plan_host plan rank world stride ≡ ok tt
    → (r slot : ℕ) → r < pos_part world
    → slot < plan.global_count
    → (get_or plan.atom_displacements r (pos 0) ≡ pos (atoms_before plan.atom_counts r))
      × (atoms_before plan.atom_counts (pos_part world) ≡ plan.global_count)
      × (count slot (map pos_part plan.host_scatter_slots) ≡ 1)
unfolding validate_indexed_ownership_plan_host
validate-IsCanonical plan rank world stride e r slot lt lt' =
    let n = plan.global_count in
    let scatter = check_scatter n plan.host_scatter_slots (replicate n 0) in
    let own = size_of_int (get_or plan.atom_counts (pos_part rank) (pos 0)) in
    let last = throw_if (not (plan.owned_count == own)) send_disagrees >> scatter in
    let cover = λ (reached : ℕ). throw_if (not (reached == n)) not_covering >> last in
    let prefix = check_prefix n plan.atom_counts plan.atom_displacements 0 in
    let (a, e1) =
      throw_if-eq-ok (bad_rank rank world) invalid_rank
        (throw_if (bad_shape plan stride) exceeds_shape
          >> (throw_if (bad_sizes plan world) not_world_sized >> (prefix >>= cover)))
        e in
    let (_, e2) =
      throw_if-eq-ok (bad_shape plan stride) exceeds_shape
        (throw_if (bad_sizes plan world) not_world_sized >> (prefix >>= cover)) e1 in
    let (b, e3) = throw_if-eq-ok (bad_sizes plan world) not_world_sized (prefix >>= cover) e2 in
    let (reached, sums, e4) = >>=-eq-ok prefix cover e3 in
    let (covers, e5) = throw_if-eq-ok (not (reached == n)) not_covering last e4 in
    let (_, e6) = throw_if-eq-ok (not (plan.owned_count == own)) send_disagrees scatter e5 in
    let (sized, same, slots) = guards plan rank world a b in
    let (at, end) = prefix_sums n plan.atom_counts plan.atom_displacements 0 same sums in
    let (below, once) =
      scatter_once n plan.host_scatter_slots (replicate n 0) (length-replicate n 0) e6 in
    let all : reached ≡ n = ground arith in
    (
      at r (omega arith) ∙ ap pos (omega arith),
      ap (atoms_before plan.atom_counts) (sym sized) ∙ omega arith,
      count_full n (map pos_part plan.host_scatter_slots) below
          (length-map plan.host_scatter_slots pos_part ∙ slots)
          (λ k. omega (arith, once k (omega (arith, get_or-replicate n k)), get_or-replicate n k))
          slot lt',
    )
