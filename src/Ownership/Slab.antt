-- ===== src/Ownership/Slab.antt =====
-- `slab_owner_of_fractional`: the owner of a fractional coordinate among equal slabs.
use dmg_md.Base.{
  ℕ, ◌+◌, ◌<◌, ◌≡◌, ◌⊎◌, true, false, not, ◌&&◌, Result, ok, ◌>>◌, throw_if, arith, if◌then◌else◌,
}
use dmg_md.Base.Floats.{Floats}
use dmg_md.Base.Int.{ℤ, pos, pos_part, ltb_ℤ, eqb_ℤ, ◌-ℤ◌}

pub data SlabError : Type 0 where
  world_not_positive outside_period : SlabError

-- `if (slab >= world_size) slab = world_size - 1; if (slab < 0) slab = 0;`
unfoldable pub clamp : ℤ → ℤ → ℤ
clamp slab world =
    let top = if not (ltb_ℤ slab world) then world -ℤ pos 1 else slab in
    if ltb_ℤ top (pos 0) then pos 0 else top

clamp_bounds :
    (slab world : ℤ)
    → ltb_ℤ world (pos 1) ≡ false
    → (k : ℕ) × (clamp slab world ≡ pos k) × (k < pos_part world)
unfolding clamp ◌-ℤ◌
clamp_bounds slab world h = (pos_part (clamp slab world), ground arith, ground arith)

module _ (F : Floats) where
  open F use {Double, add, sub, mul, ltd, led, of_int, to_int}

  -- The adjustment of `wrap_positions`: one period at most.
  unfoldable pub wrap : Double → Double
  wrap s =
      if ltd s (of_int (pos 0))
      then add s (of_int (pos 1))
      else if ltd (of_int (pos 1)) s
      then sub s (of_int (pos 1))
      else s

  unfoldable pub slab_owner_of_fractional : Double → ℤ → Result SlabError ℤ
  unfolding wrap clamp
  slab_owner_of_fractional fractional world = do
    throw_if (ltb_ℤ world (pos 1)) world_not_positive
    let s = wrap fractional
    throw_if (not (led (of_int (pos 0)) s && led s (of_int (pos 1)))) outside_period
    ok (if eqb_ℤ world (pos 1) then pos 0 else clamp (to_int (mul s (of_int world))) world)

  -- A successful call, taken apart.
  slab_owner-eq-ok :
      (fractional : Double) (world : ℤ) {owner : ℤ}
      → slab_owner_of_fractional fractional world ≡ ok owner
      → let s = wrap fractional in
        (ltb_ℤ world (pos 1) ≡ false)
        × (led (of_int (pos 0)) s ≡ true)
        × (led s (of_int (pos 1)) ≡ true)
        × (owner
            ≡ (if eqb_ℤ world (pos 1) then pos 0 else clamp (to_int (mul s (of_int world))) world))
  unfolding slab_owner_of_fractional
  slab_owner-eq-ok fractional world e = (ground arith, ground arith, ground arith, ground arith)

  -- If `slab_owner_of_fractional` returns an owner, it is a rank of the world, whatever the
  -- arithmetic does.
  pub slab_owner_bounds :
      (fractional : Double) (world : ℤ) {owner : ℤ}
      → slab_owner_of_fractional fractional world ≡ ok owner
      → (k : ℕ) × (owner ≡ pos k) × (k < pos_part world)
  slab_owner_bounds fractional world e =
      let (w, _, _, is) = slab_owner-eq-ok fractional world e in
      let (k, at, lt) = clamp_bounds (to_int (mul (wrap fractional) (of_int world))) world w in
      (if eqb_ℤ world (pos 1) then 0 else k, ground arith, ground arith)

  -- The slab [k / P, (k + 1) / P) of a fraction, as a statement about its product with P; the last
  -- slab also takes the upper edge.
  abbrev pub InSlab : Double → ℕ → ℕ → Type 0
  InSlab s n k =
      (led (of_int (pos k)) (mul s (of_int (pos n))) ≡ true)
      × ((ltd (mul s (of_int (pos n))) (of_int (pos (k + 1))) ≡ true) ⊎ (k + 1 ≡ n))
