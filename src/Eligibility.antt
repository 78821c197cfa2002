-- ===== src/Eligibility.antt =====
-- include/dmgmd/domain_layout.hpp: the radii of the ghosts, and whether the box is wide enough for the
-- domain mode. include/dmgmd/spatial_ownership.hpp: the axis of the slabs.
pub mod Radii
pub mod Tables
pub mod Chain
pub mod Proven
pub mod Cell
pub mod Decision
use dmg_md.Base.{
  ℕ, ◌+◌, ◌*◌, true, false, ◌&&◌, ◌||◌, not, List, [], ◌∷◌, Result, ok, err, ◌>>◌, ◌>>=◌, throw_if,
  get_or, if◌then◌else◌,
}
use dmg_md.Base.Floats.{Floats}
use dmg_md.Base.Int.{ℤ, pos, pos_part, ltb_ℤ}

pub data BoxError : Type 0 where
  bad_axis degenerate_face : BoxError

module _ (F : Floats) where
  open F use {Double, add, sub, mul, div, abs, led, ltd, of_int}

  -- `h[i]` of an array of nine.
  abbrev pub entry : List Double → ℕ → Double
  entry h i = get_or h i (of_int (pos 0))

  -- The row of the inverse box times the position.
  unfoldable pub fractional_along_axis :
      List Double → ℤ → Double → Double → Double → Result BoxError Double
  fractional_along_axis inverse_box axis x y z = do
    throw_if (ltb_ℤ axis (pos 0) || ltb_ℤ (pos 2) axis) bad_axis
    let row = 3 * pos_part axis
    ok (
        add (add (mul (entry inverse_box row) x) (mul (entry inverse_box (row + 1)) y))
          (mul (entry inverse_box (row + 2)) z))

  unfoldable pub longest_box_axis : List Double → ℕ
  longest_box_axis h =
      let x = abs (entry h 0) in
      let y = abs (entry h 4) in
      let z = abs (entry h 8) in
      let first = if led y x && led z x then 0 else 2 in if led x y && led z y then 1 else first

  module _ (sqrt : Double → Double) where
    -- The norm of the cross product of two columns.
    unfoldable pub cross_norm : Double → Double → Double → Double → Double → Double → Double
    cross_norm u0 u1 u2 v0 v1 v2 =
        let s1 = sub (mul u1 v2) (mul u2 v1) in
        let s2 = sub (mul u2 v0) (mul u0 v2) in
        let s3 = sub (mul u0 v1) (mul u1 v0) in sqrt (add (add (mul s1 s1) (mul s2 s2)) (mul s3 s3))

    unfoldable pub box_volume : List Double → Double
    box_volume h =
        let minor : ℕ → ℕ → ℕ → ℕ → Double =
          λ i j k l. sub (mul (entry h i) (entry h j)) (mul (entry h k) (entry h l)) in
        abs (
          add (add (mul (entry h 0) (minor 4 8 5 7)) (mul (entry h 1) (minor 5 6 3 8)))
            (mul (entry h 2) (minor 3 7 4 6)))

    unfoldable pub face_thickness : Double → Double → Result BoxError Double
    face_thickness volume area = do
      throw_if (not (ltd (of_int (pos 0)) area)) degenerate_face
      ok (div volume area)

    -- The thickness along each axis.
    unfoldable pub box_thickness : List Double → Result BoxError (List Double)
    box_thickness h = do
      let column : ℕ → ℕ → ℕ → ℕ → ℕ → ℕ → Double = λ i j k l m n.
          cross_norm (entry h i) (entry h j) (entry h k) (entry h l) (entry h m) (entry h n)
      x ← face_thickness (box_volume h) (column 1 4 7 2 5 8)
      y ← face_thickness (box_volume h) (column 2 5 8 0 3 6)
      z ← face_thickness (box_volume h) (column 0 3 6 1 4 7)
      ok (x ∷ y ∷ z ∷ [])
