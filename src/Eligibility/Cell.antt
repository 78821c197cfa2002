-- ===== src/Eligibility/Cell.antt =====
-- The geometry of a box of nine numbers, row by row, in terms of its rows and columns: what
-- `box_thickness` and `longest_box_axis` compute.
use dmg_md.Base.{
  ℕ, zero, suc, ◌+◌, ◌*◌, ◌%◌, ◌<◌, ◌≤◌, ◌≡◌, refl, ap, ◌∙◌, true, false, List, [], ◌∷◌, ok, arith,
  Bool-cases, inl, inr, ◌↔◌, if_holds, subst, ok-injective, >>=-eq-ok, ◌&&◌,
}
use dmg_md.Base.Floats.{Floats}
use dmg_md.Base.Int.{pos}
use dmg_md.Eligibility.{
  entry, longest_box_axis, box_thickness, face_thickness, box_volume, cross_norm,
}
use dmg_md.Eligibility.Chain.{OrderLaws}

-- A statement about the three axes.
pub three_axes : (P : ℕ → Type 0) → P 0 → P 1 → P 2 → (i : ℕ) → i < 3 → P i
three_axes P p q r zero h = p
three_axes P p q r (suc zero) h = q
three_axes P p q r (suc (suc zero)) h = r
three_axes P p q r (suc (suc (suc i))) h = absurd (omega arith)

-- The order in which the axes win a tie: y, then x, then z.
abbrev pub place_in_tie : ℕ → ℕ
place_in_tie zero = 1
place_in_tie (suc zero) = 0
place_in_tie (suc (suc i)) = 2 + i

place_in_tie-injective : (a b : ℕ) → a < 3 → b < 3 → place_in_tie a ≡ place_in_tie b → a ≡ b
place_in_tie-injective zero zero ha hb same = refl
place_in_tie-injective zero (suc zero) ha hb same = absurd (omega arith)
place_in_tie-injective zero (suc (suc b)) ha hb same = absurd (omega arith)
place_in_tie-injective (suc zero) zero ha hb same = absurd (omega arith)
place_in_tie-injective (suc zero) (suc zero) ha hb same = refl
place_in_tie-injective (suc zero) (suc (suc b)) ha hb same = absurd (omega arith)
place_in_tie-injective (suc (suc a)) zero ha hb same = absurd (omega arith)
place_in_tie-injective (suc (suc a)) (suc zero) ha hb same = absurd (omega arith)
place_in_tie-injective (suc (suc a)) (suc (suc b)) ha hb same = omega arith

module _ (F : Floats) where
  open F use {Double, add, sub, mul, div, abs, led, ltd, eqd, of_int}

  abbrev pub row : List Double → ℕ → ℕ → Double
  row h i j = entry F h (3 * i + j)

  abbrev pub column : List Double → ℕ → ℕ → Double
  column h j i = entry F h (3 * i + j)

  abbrev pub cross : (ℕ → Double) → (ℕ → Double) → ℕ → Double
  cross u v i =
      sub (mul (u ((i + 1) % 3)) (v ((i + 2) % 3))) (mul (u ((i + 2) % 3)) (v ((i + 1) % 3)))

  abbrev pub dot : (ℕ → Double) → (ℕ → Double) → Double
  dot u v = add (add (mul (u 0) (v 0)) (mul (u 1) (v 1))) (mul (u 2) (v 2))

  -- The length of the box along its own axis.
  abbrev pub extent : List Double → ℕ → Double
  extent h i = abs (row h i i)

  -- The axis of the longest extent; of equal ones y, else x.
  abbrev pub IsLongest : List Double → ℕ → Type 0
  IsLongest h a =
      (a < 3)
      × ((i : ℕ) → i < 3 → led (extent h i) (extent h a) ≡ true)
      × ((i : ℕ) → i < 3 → led (extent h a) (extent h i) ≡ true → place_in_tie a ≤ place_in_tie i)

  module _ (L : OrderLaws F) where
    le_total : (a b : Double) → eqd a a ≡ true → eqd b b ≡ true → led a b ≡ false → led b a ≡ true
    le_total a b p q h = elim (Bool-cases (ltd a b)) [
      | inl less ↦ let below = L.lt_le a b less in absurd (cc)
      | inr not_less ↦ L.not_lt a b p q not_less
    ]

    -- When neither y nor x is at least the two others, z is above both.
    beaten :
        (x y z : Double)
        → eqd x x ≡ true
        → eqd y y ≡ true
        → eqd z z ≡ true
        → led x y && led z y ≡ false
        → led y x && led z x ≡ false
        → (led z x ≡ false) × (led x z ≡ true)
    beaten x y z p q r not_y not_x = elim (Bool-cases (led z x)) [
      | inr above ↦ (above, le_total z x r p above)
      | inl under ↦
          let apart : led y x ≡ false = ground arith in
          let up = le_total y x q p apart in
          let over = L.le_trans z x y under up in absurd (ground arith)
    ]

    longest_box_axis-IsLongest :
        (h : List Double)
        → ((i : ℕ) → i < 3 → eqd (extent h i) (extent h i) ≡ true)
        → IsLongest h (longest_box_axis F h)
    unfolding longest_box_axis
    longest_box_axis-IsLongest h numbers =
        let x = extent h 0 in
        let y = extent h 1 in
        let z = extent h 2 in
        let p : eqd x x ≡ true = numbers 0 (omega arith) in
        let q : eqd y y ≡ true = numbers 1 (omega arith) in
        let r : eqd z z ≡ true = numbers 2 (omega arith) in
        if_holds (IsLongest h) (led x y && led z y) _ _
          (λ by_y. (
            omega arith,
            three_axes (λ i. led (extent h i) y ≡ true) (ground arith) (L.le_refl y q)
                (ground arith),
            λ i _ _. omega arith,
          ))
          (λ not_y.
            if_holds (IsLongest h) (led y x && led z x) _ _
              (λ by_x. (
                omega arith,
                three_axes (λ i. led (extent h i) x ≡ true) (L.le_refl x p) (ground arith)
                    (ground arith),
                three_axes (λ i. led x (extent h i) ≡ true → 1 ≤ place_in_tie i) (λ _. omega arith)
                    (λ under.
                      let low : led z x ≡ true = ground arith in
                      let over = L.le_trans z x y low under in absurd (ground arith))
                    (λ _. omega arith),
              ))
              (λ not_x.
                let (above_x, over_x) = beaten x y z p q r not_y not_x in
                let (above_y, over_y) = beaten y x z q p r not_x not_y in
                (
                  omega arith,
                  three_axes (λ i. led (extent h i) z ≡ true) over_x over_y (L.le_refl z r),
                  three_axes (λ i. led z (extent h i) ≡ true → 2 ≤ place_in_tie i)
                      (λ under. absurd (cc)) (λ under. absurd (cc)) (λ _. omega arith),
                )))

    IsLongest-unique : (h : List Double) (a b : ℕ) → IsLongest h a → IsLongest h b → a ≡ b
    IsLongest-unique h a b (ha, la, ta) (hb, lb, tb) =
        place_in_tie-injective a b ha hb (omega (arith, ta b hb (lb a ha), tb a ha (la b hb)))

    pub longest_box_axis_iff :
        (h : List Double) (a : ℕ)
        → ((i : ℕ) → i < 3 → eqd (extent h i) (extent h i) ≡ true)
        → (longest_box_axis F h ≡ a) ↔ IsLongest h a
    longest_box_axis_iff h a numbers =
        let found = longest_box_axis-IsLongest h numbers in
        (
          (λ is. subst (IsLongest h) is found),
          (λ longest. IsLongest-unique h (longest_box_axis F h) a found longest),
        )

  face_thickness_iff :
      (sqrt : Double → Double) (volume area t : Double)
      → (face_thickness F sqrt volume area ≡ ok t)
        ↔ ((ltd (of_int (pos 0)) area ≡ true) × (div volume area ≡ t))
  unfolding face_thickness
  face_thickness_iff sqrt volume area t = ground arith

  module _ (sqrt : Double → Double) where
    -- The volume |r0 · (r1 × r2)|, the area of the face across an axis, and the distance between the
    -- two faces.
    abbrev pub volume : List Double → Double
    volume h = abs (dot (row h 0) (cross (row h 1) (row h 2)))

    abbrev pub area : List Double → ℕ → Double
    area h i =
        let normal = cross (column h ((i + 1) % 3)) (column h ((i + 2) % 3)) in
        sqrt (dot normal normal)

    abbrev pub thickness_along : List Double → ℕ → Double
    thickness_along h i = div (volume h) (area h i)

    abbrev pub thicknesses : List Double → List Double
    thicknesses h = thickness_along h 0 ∷ thickness_along h 1 ∷ thickness_along h 2 ∷ []

    pub box_thickness_iff :
        (h t : List Double)
        → (box_thickness F sqrt h ≡ ok t)
          ↔ (((i : ℕ) → i < 3 → ltd (of_int (pos 0)) (area h i) ≡ true) × (thicknesses h ≡ t))
    unfolding box_thickness box_volume cross_norm
    box_thickness_iff h t = (
      (λ e.
          let (x, ex, e1) = >>=-eq-ok (face_thickness F sqrt (volume h) (area h 0)) _ e in
          let (y, ey, e2) = >>=-eq-ok (face_thickness F sqrt (volume h) (area h 1)) _ e1 in
          let (z, ez, e3) = >>=-eq-ok (face_thickness F sqrt (volume h) (area h 2)) _ e2 in
          let (px, ix) = (face_thickness_iff sqrt (volume h) (area h 0) x).0 ex in
          let (py, iy) = (face_thickness_iff sqrt (volume h) (area h 1) y).0 ey in
          let (pz, iz) = (face_thickness_iff sqrt (volume h) (area h 2) z).0 ez in
          let is : x ∷ y ∷ z ∷ [] ≡ t = ok-injective e3 in
          let all : thicknesses h ≡ x ∷ y ∷ z ∷ [] = cc in
          (three_axes (λ i. ltd (of_int (pos 0)) (area h i) ≡ true) px py pz, all ∙ is)),
      (λ (faces, is).
          let px =
            (face_thickness_iff sqrt (volume h) (area h 0) _).1 (faces 0 (omega arith), refl) in
          let py =
            (face_thickness_iff sqrt (volume h) (area h 1) _).1 (faces 1 (omega arith), refl) in
          let pz =
            (face_thickness_iff sqrt (volume h) (area h 2) _).1 (faces 2 (omega arith), refl) in
          rw (px, py, pz) (ap ok is)),
    )
