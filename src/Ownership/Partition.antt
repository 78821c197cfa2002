-- ===== src/Ownership/Partition.antt =====
-- `owned_indices`, `owned_mask` and the counts, over one rank and over all of them.
use dmg_md.Base.{
  ℕ, suc, ◌+◌, ◌<◌, ◌≡◌, refl, List, [], ◌∷◌, map, ok, arith, length, some, get_elem?, get_or, flag,
  get_or-replicate, Bool-cases, inl, inr, sum, ◌==◌, if◌then◌else◌, count, total, total_cong,
  total_first, total-count, AllBelow, total_indicator, get_elem?-lt, flag_of_get_elem?, zero, false,
  ◌∙◌, AscendingFrom, AscendingFrom-weaken,
}
use dmg_md.Base.Int.{ℤ, pos, pos_part, eqb_ℤ}
use dmg_md.Ownership.{
  SpatialOwnership, assemble, construct, collect_owned, owned_count, outside_world,
}
use dmg_md.Ownership.Derived.{construct-Built, counts_cover}
use dmg_md.Ownership.Permutation.{slots_len, slots_below, Built-IsInverse, slot_once}
use dmg_md.Ownership.Scan.{InWorld}

-- 1 if `rank` owns the slot.
abbrev pub owns : ℤ → List ℤ → ℕ → ℕ
owns rank owners slot = if eqb_ℤ (get_or owners slot (pos 0)) rank then 1 else 0

count-collect_owned :
    (rank : ℤ) (owners : List ℤ) (slots : List ℕ) (k : ℕ)
    → count k (collect_owned rank owners slots)
      ≡ (if eqb_ℤ (get_or owners k (pos 0)) rank then count k slots else 0)
unfolding collect_owned
count-collect_owned rank owners [] k = ground arith
count-collect_owned rank owners (s ∷ ss) k = elim (Bool-cases (s == k)) [
  | inl same ↦
      let e : s ≡ k = ground arith in rw e (ground (arith, count-collect_owned rank owners ss k))
  | inr other ↦ ground (arith, count-collect_owned rank owners ss k)
]

collect_owned-ascending :
    (rank : ℤ) (owners : List ℤ) (ids slots : List ℕ) (j : ℕ)
    → ((k s : ℕ) → get_elem? slots k ≡ some s → flag ids s ≡ j + k)
    → AscendingFrom j (map (flag ids) (collect_owned rank owners slots))
unfolding collect_owned
collect_owned-ascending rank owners ids [] j h = tt
collect_owned-ascending rank owners ids (s ∷ ss) j h =
    let rest =
      collect_owned-ascending rank owners ids ss (suc j)
        (λ k s' e. omega (arith, h (suc k) s' e)) in
    ground (
      arith,
      h 0 s refl,
      rest,
      AscendingFrom-weaken {lo = j} {hi = suc j} (map (flag ids) (collect_owned rank owners ss)),
    )

-- After a successful construction a slot is listed in `owned_indices` once if the owner map gives
-- it to the rank, and not at all otherwise; the mask marks the same slots.
pub construct-owned :
    (owners : List ℤ) (ids : List ℕ) (rank world : ℤ) {o : SpatialOwnership}
    → construct owners ids rank world ≡ ok o
    → (slot : ℕ) → slot < length owners
    → (count slot o.owned_indices ≡ owns rank owners slot)
      × (flag o.owned_mask slot ≡ owns rank owners slot)
unfolding assemble
construct-owned owners ids rank world e slot lt =
    let b = construct-Built owners ids rank world e in
    rw b.result (
      ground (
        arith,
        count-collect_owned rank owners b.id_scan.slot_of slot,
        slot_once b slot (omega (arith, b.valid.sized)),
      ),
      ground (
        arith,
        b.scanned.mask_at slot slot (omega arith) lt,
        get_or-replicate (length owners) slot,
      ),
    )

-- After a successful construction `owned_indices` lists the slots by rising global id.
pub construct-ascending :
    (owners : List ℤ) (ids : List ℕ) (rank world : ℤ) {o : SpatialOwnership}
    → construct owners ids rank world ≡ ok o
    → AscendingFrom 0 (map (flag ids) o.owned_indices)
unfolding assemble
construct-ascending owners ids rank world e =
    let b = construct-Built owners ids rank world e in
    rw b.result (
      collect_owned-ascending rank owners ids b.id_scan.slot_of 0 λ k s at.
        let same : flag b.id_scan.slot_of k ≡ s = flag_of_get_elem? b.id_scan.slot_of k s at in
        let lt = get_elem?-lt b.id_scan.slot_of k s at in
        let id = (Built-IsInverse b).id_at_slot k (omega (arith, slots_len b)) in
        let id_lt = get_elem?-lt ids (flag b.id_scan.slot_of k) k id in
        let read = flag_of_get_elem? ids (flag b.id_scan.slot_of k) k id in
        rw (← same) (omega (arith, read)))

InWorld-at :
    (world : ℤ) (owners : List ℤ) (k : ℕ)
    → InWorld world owners
    → k < length owners
    → outside_world (get_or owners k (pos 0)) world ≡ false
InWorld-at world [] k w lt = absurd (omega arith)
InWorld-at world (o ∷ os) zero w lt = w.0
InWorld-at world (o ∷ os) (suc k) w lt = InWorld-at world os k w.1 (omega arith)

-- A rank is compared as a signed number, and counted as an index.
owns-index :
    (rank world : ℤ) (owners : List ℤ) (slot : ℕ)
    → outside_world (get_or owners slot (pos 0)) world ≡ false
    → outside_world rank world ≡ false
    → owns rank owners slot
      ≡ (if pos_part (get_or owners slot (pos 0)) == pos_part rank then 1 else 0)
owns-index rank world owners slot h k = ground arith

-- If the constructor accepts the map on every rank of a world that is not empty, then over all the
-- ranks each slot is listed exactly once.
pub owned_exactly_once :
    (owners : List ℤ) (ids : List ℕ) (world : ℕ) (os : ℕ → SpatialOwnership)
    → 0 < world
    → ((r : ℕ) → r < world → construct owners ids (pos r) (pos world) ≡ ok (os r))
    → (slot : ℕ) → slot < length owners
    → total (λ r. count slot (os r).owned_indices) world ≡ 1
owned_exactly_once owners ids world os positive built slot lt =
    let b = construct-Built owners ids (pos 0) (pos world) (built 0 positive) in
    let inside = InWorld-at (pos world) owners slot b.valid.in_world lt in
    let owner = pos_part (get_or owners slot (pos 0)) in
    total_cong (λ r. count slot (os r).owned_indices) (λ r. if owner == r then 1 else 0) world
      (λ r below.
        (construct-owned owners ids (pos r) (pos world) (built r below) slot lt).0
        ∙ owns-index (pos r) (pos world) owners slot inside (ground arith))
    ∙ total_indicator owner world
    ∙ ground arith

AllBelow-collect_owned :
    (n : ℕ) (rank : ℤ) (owners : List ℤ) (slots : List ℕ)
    → AllBelow n slots
    → AllBelow n (collect_owned rank owners slots)
unfolding collect_owned
AllBelow-collect_owned n rank owners [] b = tt
AllBelow-collect_owned n rank owners (s ∷ ss) b =
    ground (arith, AllBelow-collect_owned n rank owners ss b.1)

total-owns :
    (rank world : ℤ) (owners : List ℤ)
    → InWorld world owners
    → outside_world rank world ≡ false
    → total (owns rank owners) (length owners) ≡ count (pos_part rank) (map pos_part owners)
total-owns rank world [] w h = refl
total-owns rank world (o ∷ os) w h =
    total_first (owns rank (o ∷ os)) (length os)
    ∙ omega (arith, total-owns rank world os w.1 h, owns-index rank world (o ∷ os) 0 w.0 h)

-- After a successful construction the rank's own count is the number of slots that it lists, and
-- the counts of all ranks add up to the number of slots.
pub construct-counts :
    (owners : List ℤ) (ids : List ℕ) (rank world : ℤ) {o : SpatialOwnership}
    → construct owners ids rank world ≡ ok o
    → (owned_count o ≡ flag o.owned_counts_by_rank (pos_part rank))
      × (sum o.owned_counts_by_rank ≡ o.global_count)
unfolding assemble owned_count
construct-counts owners ids rank world e =
    let b = construct-Built owners ids rank world e in
    let n = length owners in
    let owned = collect_owned rank owners b.id_scan.slot_of in
    let below = AllBelow-collect_owned (length ids) rank owners b.id_scan.slot_of (slots_below b) in
    let listed =
      total_cong (λ k. count k owned) (owns rank owners) n
        (λ k lt. rw b.result at (construct-owned owners ids rank world e k lt).0) in
    rw b.result (
      omega (
        arith,
        total-count n owned (rw b.valid.sized at below),
        listed,
        total-owns rank world owners b.valid.in_world b.valid.rank_inside,
        b.scanned.counted (pos_part rank),
        get_or-replicate (pos_part world) (pos_part rank),
      ),
      counts_cover rank world owners b.owner_scan b.scanned,
    )
