-- ===== src/Partition/Closed.antt =====
-- What the partition of a graph promises.
use dmg_md.Base.{
  ℕ, zero, suc, ◌≤◌, ◌<◌, ◌≡◌, refl, ap, ◌∙◌, subst, Bool, true, false, not, ◌&&◌, ◌||◌, List, [],
  ◌∷◌, ok, length, replicate, flag, ◌==◌, if◌then◌else◌, ltb, arith, All, length-replicate,
  get_or-replicate, >>-eq-ok, throw_if-eq-ok, ok-injective, ◌⊎◌, inl, inr, ◌↔◌, Bool-cases,
}
use dmg_md.Base.Int.{ℤ, pos, pos_part, ltb_ℤ}
use dmg_md.Partition.Graph.{
  HostDomainPartition, row_of, check_rows, find_safe, closes, partition_graph,
}
use dmg_md.Partition.Slots.{
  all_below, has, touched, inner, flag-find_safe, check_rows-InRange, find_interior-Found,
}

-- An owned atom with owned neighbours only.
abbrev pub IsLocal : List (List ℤ) → ℕ → ℕ → Type 0
IsLocal rows owned k = (k < owned) × All (λ j. ltb_ℤ j (pos owned) ≡ true) (row_of rows k)

all_below-All :
    (n : ℕ) (row : List ℤ) → all_below n row ≡ true → All (λ j. ltb_ℤ j (pos n) ≡ true) row
unfolding all_below
all_below-All n [] h = tt
all_below-All n (j ∷ js) h = (ground arith, all_below-All n js (ground arith))

All-all_below :
    (n : ℕ) (row : List ℤ) → All (λ j. ltb_ℤ j (pos n) ≡ true) row → all_below n row ≡ true
unfolding all_below
All-all_below n [] h = refl
All-all_below n (j ∷ js) (here, rest) = ground (arith, All-all_below n js rest)

closes-All :
    (safe : List ℕ) (b : Bool) (row : List ℤ)
    → closes safe b row ≡ true
    → (b ≡ true) × All (λ j. (flag safe (pos_part j) == 0) ≡ false) row
unfolding closes
closes-All safe b [] h = (h, tt)
closes-All safe b (j ∷ js) h =
    let (now, rest) = closes-All safe (b && not (flag safe (pos_part j) == 0)) js h in
    (ground arith, (ground arith, rest))

All-closes :
    (safe : List ℕ) (b : Bool) (row : List ℤ)
    → b ≡ true
    → All (λ j. (flag safe (pos_part j) == 0) ≡ false) row
    → closes safe b row ≡ true
unfolding closes
All-closes safe b [] t h = t
All-closes safe b (j ∷ js) t (here, rest) =
    All-closes safe (b && not (flag safe (pos_part j) == 0)) js (ground arith) rest

All-mono : {P Q : ℤ → Type 0} (row : List ℤ) → ((j : ℤ) → P j → Q j) → All P row → All Q row
All-mono [] f h = tt
All-mono (j ∷ js) f (here, rest) = (f j here, All-mono js f rest)

-- A neighbour of an all-P row is in P.
has-All :
    (P : ℕ → Type 0) (k : ℕ) (row : List ℤ) → has k row ≡ true → All (λ j. P (pos_part j)) row → P k
unfolding has
has-All P k [] e h = absurd (cc)
has-All P k (j ∷ js) e (here, rest) = elim (Bool-cases (pos_part j == k)) [
  | inl same ↦ let is : pos_part j ≡ k = ground arith in subst P is here
  | inr other ↦ has-All P k js (ground arith) rest
]

module _ (rows : List (List ℤ)) (owned local : ℕ) (fits : owned ≤ local) where
  -- The marks of the loop over the safe atoms.
  marks : List ℕ
  marks = find_safe rows owned owned (replicate local 0)

  marks-IsLocal : (k : ℕ) → (flag marks k == 0) ≡ false → IsLocal rows owned k
  unfolding marks
  marks-IsLocal k h =
      let is = flag-find_safe rows owned owned local k fits in
      (ground (arith, is), all_below-All owned (row_of rows k) (ground (arith, is)))

  IsLocal-marks : (k : ℕ) → IsLocal rows owned k → flag marks k ≡ 1
  unfolding marks
  IsLocal-marks k (lt, h) =
      ground
        (arith, flag-find_safe rows owned owned local k fits, All-all_below owned (row_of rows k) h)

  -- The atoms of two hops.
  inner-IsLocal :
      (k : ℕ)
      → inner rows marks k ≡ true
      → IsLocal rows owned k × All (λ j. IsLocal rows owned (pos_part j)) (row_of rows k)
  unfolding inner
  inner-IsLocal k h =
      let (first, rest) = closes-All marks (not (flag marks k == 0)) (row_of rows k) h in
      (
        marks-IsLocal k (ground arith),
        All-mono (row_of rows k) (λ j. marks-IsLocal (pos_part j)) rest,
      )

  IsLocal-inner :
      (k : ℕ)
      → IsLocal rows owned k
      → All (λ j. IsLocal rows owned (pos_part j)) (row_of rows k)
      → inner rows marks k ≡ true
  unfolding inner
  IsLocal-inner k h all =
      let one = IsLocal-marks k h in
      let each : (j : ℤ)
          → IsLocal rows owned (pos_part j)
          → (flag marks (pos_part j) == 0) ≡ false =
        λ j l. let is = IsLocal-marks (pos_part j) l in ground arith in
      All-closes marks (not (flag marks k == 0)) (row_of rows k) (ground arith)
        (All-mono (row_of rows k) each all)

  -- An atom that the loop touched comes from an interior atom.
  touched-inner :
      (n k : ℕ)
      → touched rows marks n k ≡ true
      → (c : ℕ) × (c < n) × (inner rows marks c ≡ true) × ((c ≡ k) ⊎ (has k (row_of rows c) ≡ true))
  unfolding touched
  touched-inner zero k h = absurd (cc)
  touched-inner (suc n) k h = elim (Bool-cases (touched rows marks n k)) [
    | inl old ↦ let (c, lt, i, near) = touched-inner n k old in (c, omega arith, i, near)
    | inr fresh ↦ elim (Bool-cases (n == k)) [
      | inl same ↦ (n, omega arith, ground arith, inl (ground arith))
      | inr other ↦ (n, omega arith, ground arith, inr (ground arith))
    ]
  ]

  inner-touched :
      (n c k : ℕ)
      → c < n
      → inner rows marks c ≡ true
      → (c ≡ k) ⊎ (has k (row_of rows c) ≡ true)
      → touched rows marks n k ≡ true
  unfolding touched
  inner-touched zero c k lt i near = absurd (omega arith)
  inner-touched (suc n) c k lt i near = elim (Bool-cases (c == n)) [
    | inl same ↦
        let is : c ≡ n = ground arith in
        let i' = subst (λ c. inner rows marks c ≡ true) is i in
        let near' = subst (λ c. (c ≡ k) ⊎ (has k (row_of rows c) ≡ true)) is near in ground arith
    | inr other ↦ let old = inner-touched n c k (ground arith) i near in ground arith
  ]

  has_self : (row : List ℤ) → All (λ j. has (pos_part j) row ≡ true) row
  unfolding has
  has_self [] = tt
  has_self (j ∷ js) =
      (ground arith, All-mono js (λ i (e : has (pos_part i) js ≡ true). ground arith) (has_self js))

near-IsLocal :
    (rows : List (List ℤ)) (owned c k : ℕ)
    → IsLocal rows owned c
    → All (λ j. IsLocal rows owned (pos_part j)) (row_of rows c)
    → (c ≡ k) ⊎ (has k (row_of rows c) ≡ true)
    → IsLocal rows owned k
near-IsLocal rows owned c k here around (inl same) = subst (IsLocal rows owned) same here
near-IsLocal rows owned c k here around (inr e) =
    has-All (IsLocal rows owned) k (row_of rows c) e around

-- What is accepted went through the guards and is the result of the loops.
record Accepted (rows : List (List ℤ)) (owned local : ℤ) (p : HostDomainPartition) : Type 0 where
  pub fits : pos_part owned ≤ pos_part local
  pub safe : p.safe ≡ marks rows (pos_part owned) (pos_part local) fits
  pub inside :
      (k : ℕ)
      → flag p.interior k ≡ (
          if ltb k (pos_part owned)
            && inner rows (marks rows (pos_part owned) (pos_part local) fits) k
          then 1
          else 0)
  pub reach :
      (k : ℕ)
      → flag p.early k ≡ (
          if touched rows (marks rows (pos_part owned) (pos_part local) fits) (pos_part owned) k
          then 1
          else 0)

start : List (List ℤ) → ℕ → ℕ → HostDomainPartition
start rows owned local = record {
  safe = find_safe rows owned owned (replicate local 0);
  interior = replicate local 0;
  early = replicate local 0;
}

partition_graph-Accepted :
    (rows : List (List ℤ)) (owned dependency local : ℤ) {p : HostDomainPartition}
    → partition_graph rows owned dependency local ≡ ok p
    → Accepted rows owned local p
unfolding partition_graph start marks
partition_graph-Accepted rows owned dependency local {p} h =
    let (shape, h1) =
      throw_if-eq-ok
        (ltb_ℤ owned (pos 0)
          || ltb_ℤ dependency owned
          || ltb_ℤ local dependency
          || not (length rows == pos_part dependency))
        _ _ h in
    let (checked, h2) = >>-eq-ok (check_rows rows (pos_part local) (pos_part dependency)) _ h1 in
    let n = pos_part owned in
    let m = pos_part local in
    let fits : n ≤ m = ground arith in
    let below : n ≤ pos_part dependency = ground arith in
    let wide = length-replicate {A = ℕ} m 0 in
    let f =
      find_interior-Found rows n m (start rows n m) fits wide wide
        (λ c lt. check_rows-InRange rows m (pos_part dependency) c checked (omega arith)) in
    subst (Accepted rows owned local) (ok-injective h2) (record {
      fits = fits;
      safe = f.same;
      inside = λ k.
          f.inside k
          ∙ ap (λ z. if ltb k n && inner rows (marks rows n m fits) k then 1 else z)
              (get_or-replicate m k);
      reach = λ k.
          f.reach k
          ∙ ap (λ z. if touched rows (marks rows n m fits) n k then 1 else z)
              (get_or-replicate m k);
    })

interior-inner :
    (rows : List (List ℤ)) (owned local : ℤ) {p : HostDomainPartition}
    (a : Accepted rows owned local p) (k : ℕ)
    → flag p.interior k ≡ 1
    → inner rows (marks rows (pos_part owned) (pos_part local) a.fits) k ≡ true
interior-inner rows owned local a k h = ground (arith, a.inside k)

inner-interior :
    (rows : List (List ℤ)) (owned local : ℤ) {p : HostDomainPartition}
    (a : Accepted rows owned local p) (k : ℕ)
    → k < pos_part owned
    → inner rows (marks rows (pos_part owned) (pos_part local) a.fits) k ≡ true
    → flag p.interior k ≡ 1
inner-interior rows owned local a k lt h = ground (arith, a.inside k)

-- In a partition that was made, an atom is safe when it is owned and its neighbours are, and interior
-- when in addition this holds of each of its neighbours: two hops from an interior atom no ghost is
-- met.
pub partition_graph-IsLocal :
    (rows : List (List ℤ)) (owned dependency local : ℤ) {p : HostDomainPartition} (k : ℕ)
    → partition_graph rows owned dependency local ≡ ok p
    → ((flag p.safe k ≡ 1) ↔ IsLocal rows (pos_part owned) k)
      × ((flag p.interior k ≡ 1) ↔ (
          IsLocal rows (pos_part owned) k
          × All (λ j. IsLocal rows (pos_part owned) (pos_part j)) (row_of rows k)))
partition_graph-IsLocal rows owned dependency local {p} k h =
    let a = partition_graph-Accepted rows owned dependency local h in
    let n = pos_part owned in
    let m = pos_part local in
    let same : flag p.safe k ≡ flag (marks rows n m a.fits) k = ap (λ s. flag s k) a.safe in
    (
      (
        (λ e. marks-IsLocal rows n m a.fits k (ground (arith, same))),
        (λ l. same ∙ IsLocal-marks rows n m a.fits k l),
      ),
      (
        (λ e. inner-IsLocal rows n m a.fits k (interior-inner rows owned local a k e)),
        (λ l.
            inner-interior rows owned local a k (l.0).0 (IsLocal-inner rows n m a.fits k l.0 l.1)),
      ),
    )

-- In a partition that was made, the early atoms are the interior atoms and their neighbours, and every
-- early atom is safe: what is computed before the ghosts arrive reads owned atoms only.
pub partition_graph-early :
    (rows : List (List ℤ)) (owned dependency local : ℤ) {p : HostDomainPartition} (k : ℕ)
    → partition_graph rows owned dependency local ≡ ok p
    → ((flag p.early k ≡ 1)
        ↔ ((c : ℕ) × (flag p.interior c ≡ 1) × ((c ≡ k) ⊎ (has k (row_of rows c) ≡ true))))
      × (flag p.early k ≡ 1 → flag p.safe k ≡ 1)
partition_graph-early rows owned dependency local {p} k h =
    let a = partition_graph-Accepted rows owned dependency local h in
    let n = pos_part owned in
    let m = pos_part local in
    let s = marks rows n m a.fits in
    let from : flag p.early k ≡ 1
        → (c : ℕ) × (c < n) × (inner rows s c ≡ true) × ((c ≡ k) ⊎ (has k (row_of rows c) ≡ true)) =
      λ e. touched-inner rows n m a.fits n k (ground (arith, a.reach k)) in
    (
      (
        (λ e. let (c, lt, i, near) = from e in (c, inner-interior rows owned local a c lt i, near)),
        (λ w.
            let i = interior-inner rows owned local a w.0 w.1 in
            let lt = ((inner-IsLocal rows n m a.fits w.0 i).0).0 in
            let t = inner-touched rows n m a.fits n w.0 k lt i w.2 in ground (arith, a.reach k)),
      ),
      (λ e.
          let (c, lt, i, near) = from e in
          let (here, around) = inner-IsLocal rows n m a.fits c i in
          let l : IsLocal rows n k = near-IsLocal rows n c k here around near in
          ap (λ s. flag s k) a.safe ∙ IsLocal-marks rows n m a.fits k l),
    )
