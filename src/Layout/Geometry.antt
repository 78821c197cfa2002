-- ===== src/Layout/Geometry.antt =====
-- include/dmgmd/domain_layout.hpp: faces, peers and the distance to a slab.
use native.Mathlib.Nat.{mod-eq_of_lt, mod-eq-sub-mod}
use dmg_md.Base.{
  ℕ, ◌&&◌, ◌==◌, if◌then◌else◌, ◌≡◌, ◌<◌, ◌≢◌, ◌%◌, ◌+◌, arith, ◌-◌, ◌≤◌, ◌∙◌, Bool-cases, inl, inr,
}
use dmg_md.Base.Floats.{Floats, min_d}
use dmg_md.Base.Int.{ℤ, pos, pos_part, eqb_ℤ, ◌+ℤ◌, ◌-ℤ◌}

-- `%` of C++ on a dividend that is not negative and a positive divisor.
abbrev mod_int : ℤ → ℤ → ℤ
mod_int a b = pos (pos_part a % pos_part b)

-- Face 0 is left, face 1 is right.
unfoldable pub face_peer : ℕ → ℤ → ℤ → ℤ
face_peer face rank world =
    if face == 0 then mod_int (rank -ℤ pos 1 +ℤ world) world else mod_int (rank +ℤ pos 1) world

-- `std::array<double, 3>`
pub record Vec3 (A : Type 0) : Type 0 where
  pub x : A
  pub y : A
  pub z : A

-- `v[axis]`, for an axis 0, 1 or 2.
unfoldable pub component : {A : Type 0} → Vec3 A → ℤ → A
component v axis = if eqb_ℤ axis (pos 0) then v.x else if eqb_ℤ axis (pos 1) then v.y else v.z

module _ (F : Floats) where
  open F use {Double, add, sub, ltd, led, of_int}

  unfoldable pub distance_to_slab : Double → Double → Double → Double → Double
  distance_to_slab x slab_lo slab_hi axis_length =
      if led slab_lo x && led x slab_hi
      then of_int (pos 0)
      else if ltd x slab_lo
      then min_d F (sub slab_lo x) (sub (add x axis_length) slab_hi)
      else min_d F (sub x slab_hi) (sub (add slab_lo axis_length) x)

mod_wrap : (a n : ℕ) → n ≤ a → a < n + n → a % n ≡ a - n
mod_wrap a n h lt = mod-eq-sub-mod h ∙ mod-eq_of_lt (omega arith)

left_index : (r n : ℕ) → r < n → (r + n - 1) % n ≡ (if r == 0 then n - 1 else r - 1)
left_index r n lt = elim (Bool-cases (r == 0)) [
  | inl zero ↦
      let is : r + n - 1 ≡ n - 1 = ground arith in rw (zero, is) (mod-eq_of_lt (omega arith))
  | inr more ↦
      let positive : 1 ≤ r = ground arith in
      rw more (mod_wrap (r + n - 1) n (omega arith) (omega arith) ∙ omega arith)
]

right_index : (r n : ℕ) → r < n → (r + 1) % n ≡ (if r + 1 == n then 0 else r + 1)
right_index r n lt = elim (Bool-cases (r + 1 == n)) [
  | inl last ↦
      let is : r + 1 ≡ n = ground arith in
      rw last (mod_wrap (r + 1) n (omega arith) (omega arith) ∙ omega arith)
  | inr inside ↦ let ne : r + 1 ≢ n = λ e. ground arith in rw inside (mod-eq_of_lt (omega arith))
]

-- The left peer is the rank before, the right peer the rank after, with a wrap at both ends.
pub left_peer_lem :
    (r n : ℕ) → r < n → face_peer 0 (pos r) (pos n) ≡ pos (if r == 0 then n - 1 else r - 1)
unfolding face_peer ◌+ℤ◌ ◌-ℤ◌
left_peer_lem r n lt = ground (arith, left_index r n lt)

pub right_peer_lem :
    (r n : ℕ) → r < n → face_peer 1 (pos r) (pos n) ≡ pos (if r + 1 == n then 0 else r + 1)
unfolding face_peer ◌+ℤ◌ ◌-ℤ◌
right_peer_lem r n lt = ground (arith, right_index r n lt)
