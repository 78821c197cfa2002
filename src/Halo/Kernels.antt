-- ===== src/Halo/Kernels.antt =====
-- The kernels that pack the atoms of a face into a stream and unpack it, `pack_indexed_soa`,
-- `unpack_indexed_soa` and the two for a prefix of the slots. An array on the device is a function of
-- an `int` index, and the products and sums of the kernels wrap around at 32 bits. The threads of a
-- launch run in the order of their numbers: each writes one place, and no two the same where the slots
-- are distinct and no product wraps.

use dmg_md.Base.{ℕ, zero, suc, ◌+◌, ◌-◌, ◌*◌, ◌/◌, Bool, not, if◌then◌else◌}
use dmg_md.Base.Int.{ℤ, pos, ltb_ℤ, eqb_ℤ}
use dmg_md.Base.Machine.{int_of_size}

-- The threads of a launch that covers n items by blocks of 128.
unfoldable pub launched : ℕ → ℕ
launched n = (n + 127) / 128 * 128

-- The place of an item in an array of components, `component * stride + slot` on `int`s.
unfoldable pub place_of : (ℕ → ℕ) → ℕ → ℕ → ℕ → ℤ
place_of slots stride components item =
    int_of_size ((item - item / components * components) * stride + slots (item / components))

-- `item >= count * components` on `int`s.
unfoldable pub is_idle : ℕ → ℕ → ℕ → Bool
is_idle count components item = not (ltb_ℤ (pos item) (int_of_size (count * components)))

module _ {V : Type 0} where
  -- `array[place] = value`.
  unfoldable pub store : (ℤ → V) → ℤ → V → ℤ → V
  store array place value k = if eqb_ℤ k place then value else array k

  -- What a thread of the pack writes, and the kernel.
  unfoldable pub pack_thread : (ℕ → ℕ) → ℕ → ℕ → ℕ → (ℤ → V) → ℕ → (ℤ → V) → ℤ → V
  pack_thread indices count stride components soa item packed =
      if is_idle count components item
      then packed
      else store packed (pos item) (soa (place_of indices stride components item))

  unfoldable pub unpack_thread : (ℕ → ℕ) → ℕ → ℕ → ℕ → (ℤ → V) → ℕ → (ℤ → V) → ℤ → V
  unpack_thread slots count stride components packed item soa =
      if is_idle count components item
      then soa
      else store soa (place_of slots stride components item) (packed (pos item))

  -- The first n threads.
  unfoldable pub run_threads : (ℕ → (ℤ → V) → ℤ → V) → ℕ → (ℤ → V) → ℤ → V
  run_threads thread zero array = array
  run_threads thread (suc n) array = thread n (run_threads thread n array)

  unfoldable pub pack_indexed_soa : (ℕ → ℕ) → ℕ → ℕ → ℕ → (ℤ → V) → (ℤ → V) → ℤ → V
  pack_indexed_soa indices count stride components soa packed =
      run_threads (pack_thread indices count stride components soa) (launched (count * components))
        packed

  unfoldable pub unpack_indexed_soa : (ℕ → ℕ) → ℕ → ℕ → ℕ → (ℤ → V) → (ℤ → V) → ℤ → V
  unpack_indexed_soa slots count stride components packed soa =
      run_threads (unpack_thread slots count stride components packed)
        (launched (count * components)) soa

  -- The kernels of a prefix, whose atom a is in slot a.
  unfoldable pub pack_prefix_soa : ℕ → ℕ → ℕ → (ℤ → V) → (ℤ → V) → ℤ → V
  pack_prefix_soa count stride components soa packed =
      pack_indexed_soa (λ a. a) count stride components soa packed

  unfoldable pub unpack_prefix_soa : ℕ → ℕ → ℕ → (ℤ → V) → (ℤ → V) → ℤ → V
  unpack_prefix_soa count stride components packed soa =
      unpack_indexed_soa (λ a. a) count stride components packed soa
