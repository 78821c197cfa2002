-- ===== src/Eligibility/Decision.antt =====
-- `evaluate_domain_eligibility`, and when it allows the domain mode.
use dmg_md.Eligibility.Chain.{OrderLaws}
use dmg_md.Eligibility.Cell.{
  three_axes, thicknesses, thickness_along, area, extent, IsLongest, longest_box_axis_iff,
  box_thickness_iff,
}
use dmg_md.Base.{
  ap, ◌∙◌, ◌≡◌, Bool, true, false, not, ◌&&◌, List, Result, ok, ◌>>=◌, if◌then◌else◌, ok-injective,
  >>=-eq-ok, arith, ◌↔◌, Bool-cases, inl, inr, ℕ, ◌<◌, refl, sym,
}
use dmg_md.Base.Floats.{Floats}
use dmg_md.Base.Int.{ℤ, pos, negsuc, ltb_ℤ}
use dmg_md.Eligibility.{BoxError, entry, longest_box_axis, box_thickness}
use dmg_md.Eligibility.Radii.{DomainRadii}

-- The tokens of the field `reason`.
pub data Reason : Type 0 where
  p1 unproven_radii small_box slab_width_below_d_coord eligible_reason : Reason

module _ (F : Floats) (sqrt : F.Double → F.Double) where
  open F use {Double, add, mul, div, ltd, eqd, of_int}

  pub record DomainEligibility : Type 0 where
    pub eligible : Bool
    pub axis : ℤ
    pub d_dep : Double
    pub d_coord : Double
    pub axis_thickness : Double
    pub slab_width : Double
    pub reason : Reason

  unfoldable pub box_is_large_box : List Double → Double → Bool
  box_is_large_box thickness rc_radial_max =
      let limit =
        mul (div (of_int (pos 5)) (of_int (pos 2))) (add rc_radial_max (of_int (pos 1))) in
      ltd limit (entry F thickness 0)
      && ltd limit (entry F thickness 1)
      && ltd limit (entry F thickness 2)

  -- A decision before the axis is chosen.
  unfoldable pub refused : DomainRadii F → Reason → DomainEligibility
  refused radii reason = record {
    eligible = false;
    axis = negsuc 0;
    d_dep = radii.d_dep;
    d_coord = radii.d_coord;
    axis_thickness = of_int (pos 0);
    slab_width = of_int (pos 0);
    reason = reason;
  }

  unfoldable pub decide_width : ℤ → List Double → DomainRadii F → List Double → DomainEligibility
  decide_width world_size h radii thickness =
      let axis = longest_box_axis F h in
      let along = entry F thickness axis in
      let width = div along (of_int world_size) in
      let wide = not (ltd width radii.d_coord) in
      record {
        eligible = wide;
        axis = pos axis;
        d_dep = radii.d_dep;
        d_coord = radii.d_coord;
        axis_thickness = along;
        slab_width = width;
        reason = if wide then eligible_reason else slab_width_below_d_coord;
      }

  unfoldable pub decide_box :
      ℤ → List Double → DomainRadii F → Double → List Double → DomainEligibility
  decide_box world_size h radii rc_radial_max thickness =
      if not (box_is_large_box thickness rc_radial_max)
      then refused radii small_box
      else decide_width world_size h radii thickness

  unfoldable pub evaluate_domain_eligibility :
      ℤ → List Double → DomainRadii F → Double → Result BoxError DomainEligibility
  evaluate_domain_eligibility world_size h radii rc_radial_max =
      if not (ltb_ℤ (pos 1) world_size)
      then ok (refused radii p1)
      else if not radii.proven
      then ok (refused radii unproven_radii)
      else do
        thickness ← box_thickness F sqrt h
        ok (decide_box world_size h radii rc_radial_max thickness)

  -- 2.5 times the sum of the radial cutoff and 1.
  abbrev pub least_thickness : Double → Double
  least_thickness rc = mul (div (of_int (pos 5)) (of_int (pos 2))) (add rc (of_int (pos 1)))

  -- What is left of the code when there are several ranks and the radii are proven.
  several :
      (world_size : ℤ) (h : List Double) (radii : DomainRadii F) (rc : Double)
      {d : DomainEligibility}
      → evaluate_domain_eligibility world_size h radii rc ≡ ok d
      → d.eligible ≡ true
      → (ltb_ℤ (pos 1) world_size ≡ true)
        × (radii.proven ≡ true)
        × ((box_thickness F sqrt h >>= λ t. ok (decide_box world_size h radii rc t)) ≡ ok d)
  unfolding evaluate_domain_eligibility refused
  several world_size h radii rc {d} e el = elim (Bool-cases (ltb_ℤ (pos 1) world_size)) [
    | inr few ↦ ground arith
    | inl more ↦ elim (Bool-cases radii.proven) [
      | inr not_proven ↦ ground arith
      | inl proven ↦ (more, proven, ground arith)
    ]
  ]

  decide_box-eligible :
      (world_size : ℤ) (h : List Double) (radii : DomainRadii F) (rc : Double) (t : List Double)
      (a : ℕ)
      → let d = decide_box world_size h radii rc t in
        ((d.eligible ≡ true) × (d.axis ≡ pos a)) ↔ (
          (box_is_large_box t rc ≡ true)
          × (longest_box_axis F h ≡ a)
          × (ltd (div (entry F t a) (of_int world_size)) radii.d_coord ≡ false))
  unfolding decide_box decide_width refused
  decide_box-eligible world_size h radii rc t a = ground arith

  -- The tests of the code in their order.
  evaluate-eligible_tests :
      (world_size : ℤ) (h : List Double) (radii : DomainRadii F) (rc : Double) (a : ℕ)
      → ((d : DomainEligibility) × (evaluate_domain_eligibility world_size h radii rc ≡ ok d)
          × (d.eligible ≡ true)
          × (d.axis ≡ pos a))
        ↔ ((ltb_ℤ (pos 1) world_size ≡ true)
            × (radii.proven ≡ true)
            × (thickness : List Double) × (box_thickness F sqrt h ≡ ok thickness)
            × (box_is_large_box thickness rc ≡ true)
            × (longest_box_axis F h ≡ a)
            × (ltd (div (entry F thickness a) (of_int world_size)) radii.d_coord ≡ false))
  unfolding evaluate_domain_eligibility
  evaluate-eligible_tests world_size h radii rc a = (
    (λ (d, e, el, along).
        let (more, proven, e0) = several world_size h radii rc e el in
        let (t, thick, e1) = >>=-eq-ok (box_thickness F sqrt h) _ e0 in
        let is : decide_box world_size h radii rc t ≡ d = ok-injective e1 in
        let (large, axis, wide) = (decide_box-eligible world_size h radii rc t a).0 (
          ap (λ (d : DomainEligibility). d.eligible) is ∙ el,
          ap (λ (d : DomainEligibility). d.axis) is ∙ along,
        ) in
        (more, proven, t, thick, large, axis, wide)),
    (λ (more, proven, t, thick, large, axis, wide).
        let go = ap (λ r. r >>= λ t. ok (decide_box world_size h radii rc t)) thick in
        let (el, along) = (decide_box-eligible world_size h radii rc t a).1 (large, axis, wide) in
        (decide_box world_size h radii rc t, ground arith, el, along)),
  )

  -- The test of the large box, axis by axis.
  box_is_large_box_iff :
      (h : List Double) (rc : Double)
      → (box_is_large_box (thicknesses F sqrt h) rc ≡ true)
        ↔ ((i : ℕ) → i < 3 → ltd (least_thickness rc) (thickness_along F sqrt h i) ≡ true)
  unfolding box_is_large_box
  box_is_large_box_iff h rc = (
    (λ large.
        three_axes (λ i. ltd (least_thickness rc) (thickness_along F sqrt h i) ≡ true)
          (ground arith) (ground arith) (ground arith)),
    (λ all.
        let x = all 0 (omega arith) in
        let y = all 1 (omega arith) in let z = all 2 (omega arith) in ground arith),
  )

  entry-thicknesses :
      (h : List Double) (a : ℕ)
      → a < 3
      → entry F (thicknesses F sqrt h) a ≡ thickness_along F sqrt h a
  entry-thicknesses h =
      three_axes (λ i. entry F (thicknesses F sqrt h) i ≡ thickness_along F sqrt h i) refl refl refl

  -- Under `OrderLaws`, and where no extent of the box is a NaN: the decision is to use domains along
  -- an axis exactly when there are several ranks, the radii are proven, each face of the box, the cross
  -- product of two columns, has an area above 0, the volume over each area is above 2.5 times the sum
  -- of the radial cutoff and 1, the axis is that of the longest extent, of equal ones y before x before
  -- z, and the volume over the area across it, divided by the number of ranks, is not below d_coord.
  pub evaluate-eligible :
      (L : OrderLaws F) (world_size : ℤ) (h : List Double) (radii : DomainRadii F) (rc : Double)
      (a : ℕ)
      → ((i : ℕ) → i < 3 → eqd (extent F h i) (extent F h i) ≡ true)
      → ((d : DomainEligibility) × (evaluate_domain_eligibility world_size h radii rc ≡ ok d)
          × (d.eligible ≡ true)
          × (d.axis ≡ pos a))
        ↔ ((ltb_ℤ (pos 1) world_size ≡ true)
            × (radii.proven ≡ true)
            × ((i : ℕ) → i < 3 → ltd (of_int (pos 0)) (area F sqrt h i) ≡ true)
            × ((i : ℕ) → i < 3 → ltd (least_thickness rc) (thickness_along F sqrt h i) ≡ true)
            × IsLongest F h a
            × (ltd (div (thickness_along F sqrt h a) (of_int world_size)) radii.d_coord ≡ false))
  evaluate-eligible L world_size h radii rc a numbers =
      let tests = evaluate-eligible_tests world_size h radii rc a in
      let longest = longest_box_axis_iff F L h a numbers in
      (
        (λ w.
            let (more, proven, t, thick, large, axis, wide) = tests.0 w in
            let (faces, is) = (box_thickness_iff F sqrt h t).0 thick in
            let inside = longest.0 axis in
            let along = entry-thicknesses h a inside.0 in
            (
              more,
              proven,
              faces,
              (box_is_large_box_iff h rc).0 (ap (λ t. box_is_large_box t rc) is ∙ large),
              inside,
              ap (λ x. ltd (div x (of_int world_size)) radii.d_coord)
                    (sym along ∙ ap (λ t. entry F t a) is)
                  ∙ wide,
            )),
        (λ (more, proven, faces, large, inside, wide).
            let along = entry-thicknesses h a inside.0 in
            tests.1 (
              more,
              proven,
              thicknesses F sqrt h,
              (box_thickness_iff F sqrt h _).1 (faces, refl),
              (box_is_large_box_iff h rc).1 large,
              longest.1 inside,
              ap (λ x. ltd (div x (of_int world_size)) radii.d_coord) along ∙ wide,
            )),
      )
