-- ===== src/Eligibility/Radii.antt =====
-- `compute_domain_radii`: how far an owned atom reaches into its neighbour slabs.
use dmg_md.Base.{
  ℕ, zero, suc, ◌+◌, ◌*◌, Bool, false, not, ◌&&◌, ◌||◌, List, [], ◌∷◌, ◌++◌, length, get_or, ◌==◌,
  if◌then◌else◌,
}
use dmg_md.Base.Floats.{Floats, min_d, max_d}
use dmg_md.Base.Int.{ℤ, pos, pos_part, ltb_ℤ}

module _ (F : Floats) where
  open F use {Double, add, mul, div, ltd, led, is_finite, of_int}

  pub record CutoffSet : Type 0 where
    pub num_types : ℤ
    pub rc_radial : List Double
    pub rc_angular : List Double
    pub zbl_enabled : Bool
    pub zbl_flexible : Bool
    pub zbl_rc_outer : Double
    pub zbl_typewise : Bool

  pub record DomainRadii : Type 0 where
    pub r_force_pair : List Double
    pub r_dep_pair : List Double
    pub r_force_max : Double
    pub r_dep_max : Double
    pub d_dep : Double
    pub d_coord : Double
    pub proven : Bool

  -- As declared, with nothing computed.
  abbrev pub unproven : DomainRadii
  unproven = record {
    r_force_pair = [];
    r_dep_pair = [];
    r_force_max = of_int (pos 0);
    r_dep_max = of_int (pos 0);
    d_dep = of_int (pos 0);
    d_coord = of_int (pos 0);
    proven = false;
  }

  abbrev pub skin : Double
  skin = of_int (pos 1)

  -- The largest of m and the first n values of f, in the order of the loop.
  unfoldable pub max_over : (ℕ → Double) → ℕ → Double → Double
  max_over f zero m = m
  max_over f (suc k) m = max_d F (max_over f k m) (f k)

  -- The loop over pairs.
  unfoldable pub max_pairs : (ℕ → ℕ → Double) → ℕ → ℕ → Double → Double
  max_pairs f n zero m = m
  max_pairs f n (suc k) m = max_over (f k) n (max_pairs f n k m)

  -- The loop over chains of three types.
  unfoldable pub max_chains : (ℕ → ℕ → ℕ → Double) → ℕ → ℕ → Double → Double
  max_chains f n zero m = m
  max_chains f n (suc k) m = max_pairs (f k) n n (max_chains f n k m)

  unfoldable pub row_values : (ℕ → Double) → ℕ → List Double
  row_values f zero = []
  row_values f (suc k) = row_values f k ++ f k ∷ []

  -- A table of n columns, by rows.
  unfoldable pub pair_table : (ℕ → ℕ → Double) → ℕ → ℕ → List Double
  pair_table f n zero = []
  pair_table f n (suc k) = pair_table f n k ++ row_values (f k) n

  abbrev pub value_of : List Double → ℕ → Double
  value_of rc t = get_or rc t (of_int (pos 0))

  -- `to_float` rounds to `float`, `next_up` is `std::nextafter` towards infinity.
  module _ (to_float next_up : Double → Double) where
    -- A sum of two `float` is the `double` sum, rounded.
    unfoldable pub kernel_pair_upper : Double → Double → Double
    kernel_pair_upper first second =
        let half = div (of_int (pos 1)) (of_int (pos 2)) in
        let kernel_average =
          to_float (mul (to_float (add (to_float first) (to_float second))) half) in
        let exact_average = mul half (add first second) in
        let upper = max_d F exact_average kernel_average in
        if ltd exact_average kernel_average then next_up upper else upper

    unfoldable pub radial_reach : CutoffSet → ℕ → ℕ → Double
    radial_reach c t1 t2 = kernel_pair_upper (value_of c.rc_radial t1) (value_of c.rc_radial t2)

    unfoldable pub angular_reach : CutoffSet → ℕ → ℕ → Double
    angular_reach c t1 t2 =
        min_d F (radial_reach c t1 t2)
          (kernel_pair_upper (value_of c.rc_angular t1) (value_of c.rc_angular t2))

    unfoldable pub pair_reach : CutoffSet → ℕ → ℕ → Double
    pair_reach c t1 t2 = max_d F (radial_reach c t1 t2) (angular_reach c t1 t2)

    unfoldable pub bad_cutoff : Double → Double → Bool
    bad_cutoff radial angular =
        not (is_finite radial)
        || not (is_finite angular)
        || led radial (of_int (pos 0))
        || led angular (of_int (pos 0))
        || not (is_finite (to_float radial))
        || not (is_finite (to_float angular))

    -- The loop over the types, side by side in the two lists.
    unfoldable pub any_bad : List Double → List Double → Bool
    any_bad (r ∷ rs) (a ∷ as') = bad_cutoff r a || any_bad rs as'
    any_bad _ _ = false

    -- The hops are read back from the tables.
    unfoldable pub chain_max : List Double → List Double → ℕ → Double
    chain_max force dep n =
        max_chains (λ ti tj tk. add (value_of force (ti * n + tj)) (value_of dep (tj * n + tk))) n n
          (of_int (pos 0))

    -- The loops over pairs and chains, for sound cutoffs.
    unfoldable pub radii_from : CutoffSet → ℕ → DomainRadii
    radii_from c n =
        let table = pair_table (pair_reach c) n n in
        let widest = max_pairs (pair_reach c) n n (of_int (pos 0)) in
        let d_dep = add widest skin in
        let d_coord = add (chain_max table table n) (mul (of_int (pos 2)) skin) in
        record {
          r_force_pair = table;
          r_dep_pair = table;
          r_force_max = widest;
          r_dep_max = widest;
          d_dep = d_dep;
          d_coord = d_coord;
          proven =
              is_finite d_dep
              && is_finite d_coord
              && ltd (of_int (pos 0)) d_dep
              && led d_dep d_coord;
        }

    unfoldable pub malformed : CutoffSet → Bool
    malformed c =
        not (ltb_ℤ (pos 0) c.num_types)
        || not (length c.rc_radial == pos_part c.num_types)
        || not (length c.rc_angular == pos_part c.num_types)

    unfoldable pub compute_domain_radii : CutoffSet → DomainRadii
    compute_domain_radii c =
        if malformed c
        then unproven
        else if any_bad c.rc_radial c.rc_angular
        then unproven
        else radii_from c (pos_part c.num_types)
