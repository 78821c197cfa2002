-- ===== src/Eligibility/Chain.antt =====
-- The maxima of `compute_domain_radii` as bounds.
use dmg_md.Base.{
  ℕ, zero, suc, ◌<◌, ◌≡◌, sym, subst, true, false, if◌then◌else◌, arith, Bool-cases, inl, inr, ltb,
}
use dmg_md.Base.Floats.{Floats, max_d}
use dmg_md.Eligibility.Radii.{max_over, max_pairs, max_chains}

module _ (F : Floats) where
  open F use {Double, led, ltd, eqd}

  -- What the comparisons do on numbers that are not a NaN, as IEEE 754 has it.
  pub record OrderLaws : Type 0 where
    pub lt_le : (a b : Double) → ltd a b ≡ true → led a b ≡ true
    pub not_lt : (a b : Double) → eqd a a ≡ true → eqd b b ≡ true → ltd a b ≡ false → led b a ≡ true
    pub le_refl : (a : Double) → eqd a a ≡ true → led a a ≡ true
    pub le_trans : (a b c : Double) → led a b ≡ true → led b c ≡ true → led a c ≡ true

  module _ (L : OrderLaws) where
    -- `std::max` of two numbers.
    max_d-le :
        (a b : Double)
        → eqd a a ≡ true
        → eqd b b ≡ true
        → (eqd (max_d F a b) (max_d F a b) ≡ true)
          × (led a (max_d F a b) ≡ true)
          × (led b (max_d F a b) ≡ true)
    unfolding max_d
    max_d-le a b p q = elim (Bool-cases (ltd a b)) [
      | inl less ↦
          let below = L.lt_le a b less in
          let self = L.le_refl b q in
          let is : (if ltd a b then b else a) ≡ b = ground arith in
          subst (λ m. (eqd m m ≡ true) × (led a m ≡ true) × (led b m ≡ true)) (sym is)
            (q, below, self)
      | inr not_less ↦
          let below = L.not_lt a b p q not_less in
          let self = L.le_refl a p in
          let is : (if ltd a b then b else a) ≡ a = ground arith in
          subst (λ m. (eqd m m ≡ true) × (led a m ≡ true) × (led b m ≡ true)) (sym is)
            (p, self, below)
    ]

    -- A loop whose values are numbers gives a number, not below where it started.
    record Grows (m r : Double) : Type 0 where
      pub number : eqd r r ≡ true
      pub from : led m r ≡ true

    then-Grows : (a b c : Double) → Grows a b → Grows b c → Grows a c
    then-Grows a b c g h = record { number = h.number; from = L.le_trans a b c g.from h.from }

    max_over-Grows :
        (f : ℕ → Double) (n : ℕ) (m : Double)
        → ((k : ℕ) → k < n → eqd (f k) (f k) ≡ true)
        → eqd m m ≡ true
        → Grows m (max_over F f n m)
    unfolding max_over
    max_over-Grows f zero m v p = record { number = p; from = L.le_refl m p }
    max_over-Grows f (suc n) m v p =
        let before = max_over-Grows f n m (λ k h. v k (omega arith)) p in
        let r = max_over F f n m in
        let (ok_r, up, _) = max_d-le r (f n) before.number (v n (omega arith)) in
        then-Grows m r (max_d F r (f n)) before (record { number = ok_r; from = up })

    max_over-le :
        (f : ℕ → Double) (n : ℕ) (m : Double)
        → ((k : ℕ) → k < n → eqd (f k) (f k) ≡ true)
        → eqd m m ≡ true
        → (k : ℕ) → k < n
        → led (f k) (max_over F f n m) ≡ true
    unfolding max_over
    max_over-le f zero m v p k h = absurd (omega arith)
    max_over-le f (suc n) m v p k h =
        let r = max_over F f n m in
        let before = max_over-Grows f n m (λ i l. v i (omega arith)) p in
        let (_, up, here) = max_d-le r (f n) before.number (v n (omega arith)) in
        elim (Bool-cases (ltb k n)) [
          | inl below ↦
              L.le_trans (f k) r (max_d F r (f n))
                (max_over-le f n m (λ i l. v i (omega arith)) p k (ground arith)) up
          | inr last ↦
              let is : n ≡ k = ground arith in
              subst (λ i. led (f i) (max_d F r (f n)) ≡ true) is here
        ]

    max_pairs-Grows :
        (f : ℕ → ℕ → Double) (n k : ℕ) (m : Double)
        → ((a b : ℕ) → a < k → b < n → eqd (f a b) (f a b) ≡ true)
        → eqd m m ≡ true
        → Grows m (max_pairs F f n k m)
    unfolding max_pairs
    max_pairs-Grows f n zero m v p = record { number = p; from = L.le_refl m p }
    max_pairs-Grows f n (suc k) m v p =
        let before = max_pairs-Grows f n k m (λ a b h l. v a b (omega arith) l) p in
        let r = max_pairs F f n k m in
        then-Grows m r (max_over F (f k) n r) before
          (max_over-Grows (f k) n r (λ b l. v k b (omega arith) l) before.number)

    max_pairs-le :
        (f : ℕ → ℕ → Double) (n k : ℕ) (m : Double)
        → ((a b : ℕ) → a < k → b < n → eqd (f a b) (f a b) ≡ true)
        → eqd m m ≡ true
        → (a b : ℕ) → a < k
        → b < n
        → led (f a b) (max_pairs F f n k m) ≡ true
    unfolding max_pairs
    max_pairs-le f n zero m v p a b h l = absurd (omega arith)
    max_pairs-le f n (suc k) m v p a b h l =
        let r = max_pairs F f n k m in
        let before = max_pairs-Grows f n k m (λ a b h l. v a b (omega arith) l) p in
        let last : (b : ℕ) → b < n → eqd (f k b) (f k b) ≡ true = λ b l. v k b (omega arith) l in
        elim (Bool-cases (ltb a k)) [
          | inl below ↦
              let old =
                max_pairs-le f n k m (λ a b h l. v a b (omega arith) l) p a b (ground arith) l in
              L.le_trans (f a b) r (max_over F (f k) n r) old
                (max_over-Grows (f k) n r last before.number).from
          | inr at ↦
              let is : k ≡ a = ground arith in
              subst (λ i. led (f i b) (max_over F (f k) n r) ≡ true) is
                (max_over-le (f k) n r last before.number b l)
        ]

    max_chains-Grows :
        (f : ℕ → ℕ → ℕ → Double) (n k : ℕ) (m : Double)
        → ((a b c : ℕ) → a < k → b < n → c < n → eqd (f a b c) (f a b c) ≡ true)
        → eqd m m ≡ true
        → Grows m (max_chains F f n k m)
    unfolding max_chains
    max_chains-Grows f n zero m v p = record { number = p; from = L.le_refl m p }
    max_chains-Grows f n (suc k) m v p =
        let before = max_chains-Grows f n k m (λ a b c h l j. v a b c (omega arith) l j) p in
        let r = max_chains F f n k m in
        then-Grows m r (max_pairs F (f k) n n r) before
          (max_pairs-Grows (f k) n n r (λ b c l j. v k b c (omega arith) l j) before.number)

    pub max_chains-le :
        (f : ℕ → ℕ → ℕ → Double) (n k : ℕ) (m : Double)
        → ((a b c : ℕ) → a < k → b < n → c < n → eqd (f a b c) (f a b c) ≡ true)
        → eqd m m ≡ true
        → (a b c : ℕ) → a < k
        → b < n
        → c < n
        → led (f a b c) (max_chains F f n k m) ≡ true
    unfolding max_chains
    max_chains-le f n zero m v p a b c h l j = absurd (omega arith)
    max_chains-le f n (suc k) m v p a b c h l j =
        let r = max_chains F f n k m in
        let before = max_chains-Grows f n k m (λ a b c h l j. v a b c (omega arith) l j) p in
        let last : (b c : ℕ) → b < n → c < n → eqd (f k b c) (f k b c) ≡ true =
          λ b c l j. v k b c (omega arith) l j in
        elim (Bool-cases (ltb a k)) [
          | inl below ↦
              let old =
                max_chains-le f n k m (λ a b c h l j. v a b c (omega arith) l j) p a b c
                  (ground arith) l j in
              L.le_trans (f a b c) r (max_pairs F (f k) n n r) old
                (max_pairs-Grows (f k) n n r last before.number).from
          | inr at ↦
              let is : k ≡ a = ground arith in
              subst (λ i. led (f i b c) (max_pairs F (f k) n n r) ≡ true) is
                (max_pairs-le (f k) n n r last before.number b c l j)
        ]
