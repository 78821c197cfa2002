-- ===== src/Eligibility/Proven.antt =====
-- What proven radii promise: the cutoffs were sound, and no chain of two hops is longer than the bound.
use dmg_md.Base.{
  ℕ, zero, suc, ◌+◌, ◌*◌, ◌<◌, ◌≡◌, sym, ap, ◌∙◌, subst, true, false, List, [], ◌∷◌, length, arith,
  Bool-cases, inl, inr,
}
use dmg_md.Base.Floats.{Floats}
use dmg_md.Base.Int.{pos, pos_part, ltb_ℤ}
use dmg_md.Eligibility.Radii.{
  CutoffSet, DomainRadii, skin, max_chains, pair_table, value_of, pair_reach, bad_cutoff, malformed,
  radii_from, any_bad, chain_max, compute_domain_radii,
}
use dmg_md.Eligibility.Tables.{value_of-pair_table}
use dmg_md.Eligibility.Chain.{OrderLaws, max_chains-le}

module _ (F : Floats) (to_float next_up : F.Double → F.Double) where
  open F use {Double, add, mul, led, ltd, eqd, is_finite, of_int}

  abbrev radii_of : CutoffSet F → DomainRadii F
  radii_of = compute_domain_radii F to_float next_up

  -- A cutoff that the loops can use.
  pub record GoodCutoff (r : Double) : Type 0 where
    pub finite : is_finite r ≡ true
    pub positive : led r (of_int (pos 0)) ≡ false
    pub small : is_finite (to_float r) ≡ true

  any_bad-GoodCutoff :
      (rs as' : List Double) (k : ℕ)
      → any_bad F to_float next_up rs as' ≡ false
      → length rs ≡ length as'
      → k < length rs
      → GoodCutoff (value_of F rs k) × GoodCutoff (value_of F as' k)
  unfolding any_bad bad_cutoff
  any_bad-GoodCutoff [] as' k h e lt = absurd (omega arith)
  any_bad-GoodCutoff (r ∷ rs) [] k h e lt = absurd (omega arith)
  any_bad-GoodCutoff (r ∷ rs) (a ∷ as') zero h e lt = (
    record { finite = ground arith; positive = ground arith; small = ground arith },
    record { finite = ground arith; positive = ground arith; small = ground arith },
  )
  any_bad-GoodCutoff (r ∷ rs) (a ∷ as') (suc k) h e lt =
      any_bad-GoodCutoff rs as' k (ground arith) (omega arith) (omega arith)

  -- The end of a chain of two hops over the types i, j and k.
  abbrev pub chain_of : CutoffSet F → ℕ → ℕ → ℕ → Double
  chain_of c i j k = add (pair_reach F to_float next_up c i j) (pair_reach F to_float next_up c j k)

  computed :
      (c : CutoffSet F)
      → (radii_of c).proven ≡ true
      → (malformed F to_float next_up c ≡ false)
        × (any_bad F to_float next_up c.rc_radial c.rc_angular ≡ false)
        × (radii_of c ≡ radii_from F to_float next_up c (pos_part c.num_types))
  unfolding compute_domain_radii
  computed c h = elim (Bool-cases (malformed F to_float next_up c)) [
    | inl bad ↦ ground arith
    | inr shaped ↦ elim (Bool-cases (any_bad F to_float next_up c.rc_radial c.rc_angular)) [
      | inl bad ↦ ground arith
      | inr good ↦ (shaped, good, ground arith)
    ]
  ]

  -- Radii are proven only when there is at least one type, each list of cutoffs has one entry for each
  -- type, and all cutoffs are finite, above 0, and finite as `float`.
  pub compute_domain_radii-GoodCutoff :
      (c : CutoffSet F)
      → (radii_of c).proven ≡ true
      → (ltb_ℤ (pos 0) c.num_types ≡ true)
        × (length c.rc_radial ≡ pos_part c.num_types)
        × (length c.rc_angular ≡ pos_part c.num_types)
        × ((t : ℕ)
            → t < pos_part c.num_types
            → GoodCutoff (value_of F c.rc_radial t) × GoodCutoff (value_of F c.rc_angular t))
  unfolding malformed
  compute_domain_radii-GoodCutoff c h =
      let (shaped, good, _) = computed c h in
      let some_types : ltb_ℤ (pos 0) c.num_types ≡ true = ground arith in
      let radial : length c.rc_radial ≡ pos_part c.num_types = ground arith in
      let angular : length c.rc_angular ≡ pos_part c.num_types = ground arith in
      (
        some_types,
        radial,
        angular,
        λ t lt.
            any_bad-GoodCutoff c.rc_radial c.rc_angular t good (radial ∙ sym angular) (omega arith),
      )

  table_chain :
      (c : CutoffSet F) (n i j k : ℕ)
      → i < n
      → j < n
      → k < n
      → add
          (value_of F (pair_table F (pair_reach F to_float next_up c) n n) (i * n + j))
          (value_of F (pair_table F (pair_reach F to_float next_up c) n n) (j * n + k))
        ≡ chain_of c i j k
  table_chain c n i j k hi hj hk =
      let f = pair_reach F to_float next_up c in
      ap (λ x. add x (value_of F (pair_table F f n n) (j * n + k)))
        (value_of-pair_table F f n n i j hi hj)
      ∙ ap (add (f i j)) (value_of-pair_table F f n n j k hj hk)

  -- When radii are proven and no chain sum is a NaN, d_coord is two skins above a number that no chain
  -- of two hops exceeds, over all triples of types; so an owned atom reaches nothing further away.
  pub compute_domain_radii-chain :
      (L : OrderLaws F) (c : CutoffSet F)
      → (radii_of c).proven ≡ true
      → eqd (of_int (pos 0)) (of_int (pos 0)) ≡ true
      → ((i j k : ℕ)
          → i < pos_part c.num_types
          → j < pos_part c.num_types
          → k < pos_part c.num_types
          → eqd (chain_of c i j k) (chain_of c i j k) ≡ true)
      → (m : Double) × ((radii_of c).d_coord ≡ add m (mul (of_int (pos 2)) (skin F)))
        × ((i j k : ℕ)
            → i < pos_part c.num_types
            → j < pos_part c.num_types
            → k < pos_part c.num_types
            → led (chain_of c i j k) m ≡ true)
  unfolding radii_from chain_max
  compute_domain_radii-chain L c h z v =
      let (_, _, is) = computed c h in
      let n = pos_part c.num_types in
      let table = pair_table F (pair_reach F to_float next_up c) n n in
      let hop : ℕ → ℕ → ℕ → Double =
        λ i j k. add (value_of F table (i * n + j)) (value_of F table (j * n + k)) in
      let numbers : (i j k : ℕ) → i < n → j < n → k < n → eqd (hop i j k) (hop i j k) ≡ true =
        λ i j k a b d.
          subst (λ x. eqd x x ≡ true) (sym (table_chain c n i j k a b d)) (v i j k a b d) in
      (
        chain_max F to_float next_up table table n,
        ap (λ (r : DomainRadii F). r.d_coord) is,
        λ i j k a b d.
            subst (λ x. led x (max_chains F hop n n (of_int (pos 0))) ≡ true)
              (table_chain c n i j k a b d)
              (max_chains-le F L hop n n (of_int (pos 0)) numbers z i j k a b d),
      )
