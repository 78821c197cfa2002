-- ===== src/Tests/Slabs.antt =====
-- A cubic box of edge 40 on two ranks, and the radii of one type.
use dmg_md.Eligibility.Cell.{thickness_along, area, extent, IsLongest}
use dmg_md.Base.{
  ℕ, ◌<◌, ◌+◌, ◌≡◌, refl, true, false, List, [], ◌∷◌, ok, arith, ◌↔◌, ◌==◌, if◌then◌else◌, ltb,
}
use dmg_md.Base.Floats.{milli, max_d, min_d}
use dmg_md.Base.Int.{pos, ltb_ℤ}
use dmg_md.Eligibility.Radii.{
  CutoffSet, compute_domain_radii, malformed, any_bad, bad_cutoff, radii_from, pair_table,
  row_values, pair_reach, radial_reach, angular_reach, kernel_pair_upper, max_over, max_pairs,
  max_chains, chain_max, DomainRadii,
}
use dmg_md.Eligibility.Chain.{OrderLaws}
use dmg_md.Eligibility.Proven.{chain_of, compute_domain_radii-chain}
use dmg_md.Eligibility.Decision.{DomainEligibility, evaluate_domain_eligibility, evaluate-eligible}

abbrev same : ℕ → ℕ
same x = x

abbrev next : ℕ → ℕ
next x = x + 1

abbrev one_type : CutoffSet milli
one_type = record {
  num_types = pos 1;
  rc_radial = 4000 ∷ [];
  rc_angular = 3000 ∷ [];
  zbl_enabled = false;
  zbl_flexible = false;
  zbl_rc_outer = 0;
  zbl_typewise = false;
}

one_type_proven : (compute_domain_radii milli same next one_type).proven ≡ true
unfolding compute_domain_radii malformed any_bad bad_cutoff radii_from pair_table row_values
    pair_reach radial_reach angular_reach kernel_pair_upper max_over max_pairs max_chains chain_max
    max_d min_d
one_type_proven = refl

milli_order : OrderLaws milli
milli_order = record {
  lt_le = λ a b h. ground arith;
  not_lt = λ a b p q h. ground arith;
  le_refl = λ a h. ground arith;
  le_trans = λ a b c h k. ground arith;
}

self_equal : (x : ℕ) → (x == x) ≡ true
self_equal x = ground arith

compute_domain_radii-chain_example :
    (m : ℕ) × ((compute_domain_radii milli same next one_type).d_coord ≡ m + 2000)
    × ((i j k : ℕ)
        → i < 1
        → j < 1
        → k < 1
        → milli.led (chain_of milli same next one_type i j k) m ≡ true)
compute_domain_radii-chain_example =
    compute_domain_radii-chain milli same next milli_order one_type one_type_proven refl
      (λ i j k _ _ _. self_equal (chain_of milli same next one_type i j k))

abbrev cube : List ℕ
cube = 40000 ∷ 0 ∷ 0 ∷ 0 ∷ 40000 ∷ 0 ∷ 0 ∷ 0 ∷ 40000 ∷ []

-- The root of the one number that the faces of the cube need.
abbrev root : ℕ → ℕ
root x = if x == 2560000000 then 1600000 else 0

abbrev one_type_radii : DomainRadii milli
one_type_radii = compute_domain_radii milli same next one_type

-- All extents are equal, so the axis is y.
evaluate-eligible_example :
    ((d : DomainEligibility milli root) × (evaluate_domain_eligibility milli root
          (pos 2)
          cube
          one_type_radii
          4000
        ≡ ok d)
      × (d.eligible ≡ true)
      × (d.axis ≡ pos 1))
    ↔ ((ltb_ℤ (pos 1) (pos 2) ≡ true)
        × (one_type_radii.proven ≡ true)
        × ((i : ℕ) → i < 3 → ltb 0 (area milli root cube i) ≡ true)
        × ((i : ℕ) → i < 3 → ltb 12500 (thickness_along milli root cube i) ≡ true)
        × IsLongest milli cube 1
        × (ltb (milli.div (thickness_along milli root cube 1) 2000) one_type_radii.d_coord ≡ false))
evaluate-eligible_example =
    evaluate-eligible milli root milli_order (pos 2) cube one_type_radii 4000 1
      (λ i _. self_equal (extent milli cube i))
