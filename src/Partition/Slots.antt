-- ===== src/Partition/Slots.antt =====
-- What the loops of `partition_graph` write, slot by slot.
use dmg_md.Base.{
  ℕ, zero, suc, ◌≤◌, ◌<◌, ◌≡◌, refl, sym, ap, ◌∙◌, subst, Bool, true, false, not, ◌&&◌, ◌||◌, List,
  [], ◌∷◌, ok, length, set, replicate, flag, ◌==◌, if◌then◌else◌, ltb, arith, All, length-set,
  length-replicate, get_or-set, get_or-replicate, >>-eq-ok, inl, inr, Bool-cases,
}
use dmg_md.Base.Int.{ℤ, pos, pos_part, ltb_ℤ}
use dmg_md.Partition.Graph.{
  HostDomainPartition, row_of, has_bad_neighbor, check_rows, settle, find_safe, closes, mark,
  find_interior,
}

unfoldable pub all_below : ℕ → List ℤ → Bool
all_below n [] = true
all_below n (j ∷ js) = ltb_ℤ j (pos n) && all_below n js

length-settle : (owned c : ℕ) (row : List ℤ) (s : List ℕ) → length (settle owned c row s) ≡ length s
unfolding settle
length-settle owned c [] s = refl
length-settle owned c (j ∷ js) s = ground (
  arith,
  length-settle owned c js (if ltb_ℤ j (pos owned) then s else set s c 0),
  length-set s c 0,
)

flag-settle :
    (owned c : ℕ) (row : List ℤ) (s : List ℕ) (k : ℕ)
    → c < length s
    → flag (settle owned c row s) k
      ≡ (if (k == c) && not (all_below owned row) then 0 else flag s k)
unfolding settle all_below
flag-settle owned c [] s k h = ground arith
flag-settle owned c (j ∷ js) s k h = ground (
  arith,
  flag-settle owned c js s k h,
  flag-settle owned c js (set s c 0) k,
  length-set s c 0,
  get_or-set s c 0 k h,
)

length-find_safe :
    (rows : List (List ℤ)) (owned n : ℕ) (s : List ℕ) → length (find_safe rows owned n s) ≡ length s
unfolding find_safe
length-find_safe rows owned zero s = refl
length-find_safe rows owned (suc c) s = omega (
  arith,
  length-settle owned c (row_of rows c) (set (find_safe rows owned c s) c 1),
  length-set (find_safe rows owned c s) c 1,
  length-find_safe rows owned c s,
)

pub flag-find_safe :
    (rows : List (List ℤ)) (owned n local k : ℕ)
    → n ≤ local
    → flag (find_safe rows owned n (replicate local 0)) k
      ≡ (if ltb k n && all_below owned (row_of rows k) then 1 else 0)
unfolding find_safe
flag-find_safe rows owned zero local k h = ground (arith, get_or-replicate local k)
flag-find_safe rows owned (suc c) local k h =
    let s = find_safe rows owned c (replicate local 0) in
    let long : c < length s = omega (
      arith,
      length-find_safe rows owned c (replicate local 0),
      length-replicate {A = ℕ} local 0,
    ) in
    let here =
      flag-settle owned c (row_of rows c) (set s c 1) k (omega (arith, length-set s c 1)) in
    let old = flag-find_safe rows owned c local k (omega arith) in
    elim (Bool-cases (k == c)) [
      | inl same ↦
          let eq : k ≡ c = ground arith in
          ground
            (arith, here, get_or-set s c 1 k long, ap (λ i. all_below owned (row_of rows i)) eq)
      | inr other ↦ ground (arith, here, get_or-set s c 1 k long, old)
    ]

-- Slot k is a neighbour.
unfoldable pub has : ℕ → List ℤ → Bool
has k [] = false
has k (j ∷ js) = pos_part j == k || has k js

abbrev pub InRange : ℕ → List ℤ → Type 0
InRange n row = All (λ j. pos_part j < n) row

flag-mark :
    (row : List ℤ) (early : List ℕ) (k : ℕ)
    → InRange (length early) row
    → flag (mark row early) k ≡ (if has k row then 1 else flag early k)
unfolding mark has
flag-mark [] early k h = refl
flag-mark (j ∷ js) early k (here, rest) =
    let same = length-set early (pos_part j) 1 in
    ground (
      arith,
      flag-mark js (set early (pos_part j) 1) k
          (subst (λ n. All (λ j. pos_part j < n) js) (sym same) rest),
      get_or-set early (pos_part j) 1 k here,
    )

length-mark : (row : List ℤ) (early : List ℕ) → length (mark row early) ≡ length early
unfolding mark
length-mark [] early = refl
length-mark (j ∷ js) early =
    length-mark js (set early (pos_part j) 1) ∙ length-set early (pos_part j) 1

no_bad_neighbor-InRange :
    (local c : ℕ) (row : List ℤ) → has_bad_neighbor local c row ≡ false → InRange local row
unfolding has_bad_neighbor
no_bad_neighbor-InRange local c [] h = tt
no_bad_neighbor-InRange local c (j ∷ js) h =
    (ground arith, no_bad_neighbor-InRange local c js (ground arith))

pub check_rows-InRange :
    (rows : List (List ℤ)) (local n c : ℕ)
    → check_rows rows local n ≡ ok tt
    → c < n
    → InRange local (row_of rows c)
unfolding check_rows
check_rows-InRange rows local zero c h lt = absurd (omega arith)
check_rows-InRange rows local (suc n) c h lt =
    let (before, here) = >>-eq-ok (check_rows rows local n) _ h in
    elim (Bool-cases (c == n)) [
      | inl same ↦
          let eq : n ≡ c = ground arith in
          let fine : has_bad_neighbor local n (row_of rows n) ≡ false = ground arith in
          subst (λ c. InRange local (row_of rows c)) eq
            (no_bad_neighbor-InRange local n (row_of rows n) fine)
      | inr other ↦ check_rows-InRange rows local n c before (ground arith)
    ]

-- The test of an interior atom.
unfoldable pub inner : List (List ℤ) → List ℕ → ℕ → Bool
inner rows safe k = closes safe (not (flag safe k == 0)) (row_of rows k)

-- One of the first n atoms is interior, and k is that atom or one of its neighbours.
unfoldable pub touched : List (List ℤ) → List ℕ → ℕ → ℕ → Bool
touched rows safe zero k = false
touched rows safe (suc c) k =
    inner rows safe c && (c == k || has k (row_of rows c)) || touched rows safe c k

-- The state of the loop after n atoms.
pub record Found (rows : List (List ℤ)) (n local : ℕ) (p q : HostDomainPartition) : Type 0 where
  pub same : q.safe ≡ p.safe
  pub wide : (length q.interior ≡ local) × (length q.early ≡ local)
  pub inside :
      (k : ℕ)
      → flag q.interior k ≡ (if ltb k n && inner rows p.safe k then 1 else flag p.interior k)
  pub reach : (k : ℕ) → flag q.early k ≡ (if touched rows p.safe n k then 1 else flag p.early k)

-- The body of the loop, when the test comes out as `t`.
add_inner : List (List ℤ) → ℕ → HostDomainPartition → Bool → HostDomainPartition
add_inner rows c q t =
    if t
    then record {
      safe = q.safe;
      interior = set q.interior c 1;
      early = mark (row_of rows c) (set q.early c 1);
    }
    else q

add_inner-Found :
    (rows : List (List ℤ)) (c local : ℕ) (p q : HostDomainPartition) (t : Bool)
    → c < local
    → InRange local (row_of rows c)
    → inner rows p.safe c ≡ t
    → Found rows c local p q
    → Found rows (suc c) local p (add_inner rows c q t)
unfolding add_inner touched
add_inner-Found rows c local p q false h r t f = record {
  same = f.same;
  wide = f.wide;
  inside = λ k. elim (Bool-cases (k == c)) [
    | inl eq ↦
        let is : c ≡ k = ground arith in
        let not_in : inner rows p.safe k ≡ false = subst (λ i. inner rows p.safe i ≡ false) is t in
        ground (arith, f.inside k)
    | inr ne ↦ ground (arith, f.inside k)
  ];
  reach = λ k. ground (arith, f.reach k);
}
add_inner-Found rows c local p q true h r t f =
    let long : c < length q.interior = omega (arith, f.wide) in
    let long' : c < length q.early = omega (arith, f.wide) in
    let e1 = set q.early c 1 in
    let room : local ≡ length e1 = sym (f.wide).1 ∙ sym (length-set q.early c 1) in
    let fits = subst (λ n. InRange n (row_of rows c)) room r in
    record {
      same = f.same;
      wide = (length-set q.interior c 1 ∙ (f.wide).0, length-mark (row_of rows c) e1 ∙ sym room);
      inside = λ k. elim (Bool-cases (k == c)) [
        | inl eq ↦
            let is : c ≡ k = ground arith in
            let in_it : inner rows p.safe k ≡ true = subst (λ i. inner rows p.safe i ≡ true) is t in
            ground (arith, get_or-set q.interior c 1 k long)
        | inr ne ↦ ground (arith, f.inside k, get_or-set q.interior c 1 k long)
      ];
      reach = λ k.
          ground
            (arith, f.reach k, flag-mark (row_of rows c) e1 k fits, get_or-set q.early c 1 k long');
    }

pub find_interior-Found :
    (rows : List (List ℤ)) (n local : ℕ) (p : HostDomainPartition)
    → n ≤ local
    → length p.interior ≡ local
    → length p.early ≡ local
    → ((c : ℕ) → c < n → InRange local (row_of rows c))
    → Found rows n local p (find_interior rows n p)
unfolding find_interior touched inner add_inner
find_interior-Found rows zero local p h a b r = record {
  same = refl;
  wide = (a, b);
  inside = λ k. ground arith;
  reach = λ k. refl;
}
find_interior-Found rows (suc c) local p h a b r =
    let q = find_interior rows c p in
    let f = find_interior-Found rows c local p (omega arith) a b (λ i lt. r i (omega arith)) in
    let test : inner rows q.safe c ≡ inner rows p.safe c = ap (λ s. inner rows s c) f.same in
    add_inner-Found rows c local p q (inner rows q.safe c) (omega arith) (r c (omega arith))
      (sym test) f
