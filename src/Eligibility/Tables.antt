-- ===== src/Eligibility/Tables.antt =====
-- The tables of `compute_domain_radii`, read back by row and column.
use dmg_md.Base.{
  ℕ, zero, suc, ◌+◌, ◌-◌, ◌*◌, ◌≤◌, ◌<◌, ◌≡◌, refl, ap, ◌∙◌, List, [], ◌∷◌, ◌++◌, length,
  length-append, get_or, if◌then◌else◌, arith, Bool-cases, inl, inr, ltb,
}
use dmg_md.Base.Floats.{Floats}
use dmg_md.Base.Int.{pos}
use dmg_md.Eligibility.Radii.{row_values, pair_table, value_of}

get_or-append :
    {A : Type 0} (xs ys : List A) (i : ℕ) (d : A)
    → get_or (xs ++ ys) i d
      ≡ (if ltb i (length xs) then get_or xs i d else get_or ys (i - length xs) d)
get_or-append [] ys i d = ground arith
get_or-append (x ∷ xs) ys zero d = ground arith
get_or-append (x ∷ xs) ys (suc i) d = ground (arith, get_or-append xs ys i d)

rows_before : (t n k : ℕ) → t < k → t * n + n ≤ k * n
rows_before t n zero h = absurd (omega arith)
rows_before t n (suc k) h = grind (arith, rows_before t n k)

-- The index of a pair lies in the rows in front of row k.
pair_before : (t u n k : ℕ) → t < k → u < n → t * n + u < k * n
pair_before t u n k h l = let row : t * n + n ≤ k * n = rows_before t n k h in omega arith

module _ (F : Floats) where
  open F use {Double, add, mul, led, ltd, eqd, is_finite, of_int}

  length-row_values : (f : ℕ → Double) (n : ℕ) → length (row_values F f n) ≡ n
  unfolding row_values
  length-row_values f zero = refl
  length-row_values f (suc k) =
      length-append (row_values F f k) (f k ∷ []) ∙ omega (arith, length-row_values f k)

  value_of-row_values : (f : ℕ → Double) (n k : ℕ) → k < n → value_of F (row_values F f n) k ≡ f k
  unfolding row_values
  value_of-row_values f zero k h = absurd (omega arith)
  value_of-row_values f (suc n) k h =
      let at = get_or-append (row_values F f n) (f n ∷ []) k (of_int (pos 0)) in
      let long = length-row_values f n in
      elim (Bool-cases (ltb k n)) [
        | inl below ↦ ground (arith, at, value_of-row_values f n k (ground arith))
        | inr last ↦
            let is : n ≡ k = ground arith in
            let zero_at : k - length (row_values F f n) ≡ 0 = omega (arith, long) in
            ground (arith, at, ap f is, ap (λ i. get_or (f n ∷ []) i (of_int (pos 0))) zero_at)
      ]

  length-pair_table : (f : ℕ → ℕ → Double) (n k : ℕ) → length (pair_table F f n k) ≡ k * n
  unfolding pair_table
  length-pair_table f n zero = omega arith
  length-pair_table f n (suc k) =
      length-append (pair_table F f n k) (row_values F (f k) n)
      ∙ grind (arith, length-pair_table f n k, length-row_values (f k) n)

  pub value_of-pair_table :
      (f : ℕ → ℕ → Double) (n k t u : ℕ)
      → t < k
      → u < n
      → value_of F (pair_table F f n k) (t * n + u) ≡ f t u
  unfolding pair_table
  value_of-pair_table f n zero t u h l = absurd (omega arith)
  value_of-pair_table f n (suc k) t u h l =
      let at =
        get_or-append (pair_table F f n k) (row_values F (f k) n) (t * n + u) (of_int (pos 0)) in
      let long = length-pair_table f n k in
      elim (Bool-cases (ltb t k)) [
        | inl below ↦
            let lt : t < k = ground arith in
            let inside : t * n + u < length (pair_table F f n k) =
              omega (arith, long, pair_before t u n k lt l) in
            ground (arith, at, value_of-pair_table f n k t u lt l)
        | inr last ↦
            let is : k ≡ t = ground arith in
            let same : k * n ≡ t * n = ap (λ k. k * n) is in
            let left : t * n + u - length (pair_table F f n k) ≡ u = omega (arith, long) in
            let row = value_of-row_values (f k) n u l in
            ground (
              arith,
              at,
              ap (λ i. get_or (row_values F (f k) n) i (of_int (pos 0))) left,
              ap (λ i. f i u) is,
            )
      ]
