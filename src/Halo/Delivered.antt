-- ===== src/Halo/Delivered.antt =====
-- The atoms of a face arrive in the slots of the peer.
use dmg_md.Base.Int.{ℤ, pos, pos_part, eqb_ℤ}
use native.Mathlib.Nat.{div-lt_iff_lt-mul, div-mul-le_self, lt-div-mul-add}
use dmg_md.Base.{
  ℕ, zero, suc, ◌+◌, ◌-◌, ◌*◌, ◌/◌, ◌<◌, ◌≤◌, false, if◌then◌else◌, ◌≡◌, arith, ap, sym, ◌∙◌, ◌≢◌,
  ◌^◌, Bool-cases, inl, inr, true,
}
use dmg_md.Halo.Kernels.{
  launched, store, run_threads, place_of, pack_thread, unpack_thread, pack_indexed_soa,
  unpack_indexed_soa, is_idle,
}
use dmg_md.Halo.Threads.{
  run_threads-other, run_threads-place, item_below, launched_covers, place_of-eq, split_place,
  is_idle-eq, place_below,
}

module _ {V : Type 0} where
  pack_thread-writes :
      (indices : ℕ → ℕ) (count stride components : ℕ) (soa : ℤ → V) (j : ℕ) (packed : ℤ → V)
      → count * components < 2 ^ 31
      → j < count * components
      → pack_thread indices count stride components soa j packed
        ≡ store packed (pos j) (soa (place_of indices stride components j))
  unfolding pack_thread
  pack_thread-writes indices count stride components soa j packed fits h =
      let t : is_idle count components j ≡ false =
        is_idle-eq count components j fits ∙ (ground arith) in
      ap
        (λ b.
          if b then packed else store packed (pos j) (soa (place_of indices stride components j)))
        t

  pack_thread-idles :
      (indices : ℕ → ℕ) (count stride components : ℕ) (soa : ℤ → V) (j : ℕ) (packed : ℤ → V)
      → count * components < 2 ^ 31
      → count * components ≤ j
      → pack_thread indices count stride components soa j packed ≡ packed
  unfolding pack_thread
  pack_thread-idles indices count stride components soa j packed fits h =
      let t : is_idle count components j ≡ true =
        is_idle-eq count components j fits ∙ (ground arith) in
      ap
        (λ b.
          if b then packed else store packed (pos j) (soa (place_of indices stride components j)))
        t

  unpack_thread-idles :
      (slots : ℕ → ℕ) (count stride components : ℕ) (packed : ℤ → V) (j : ℕ) (soa : ℤ → V)
      → count * components < 2 ^ 31
      → count * components ≤ j
      → unpack_thread slots count stride components packed j soa ≡ soa
  unfolding unpack_thread
  unpack_thread-idles slots count stride components packed j soa fits h =
      let t : is_idle count components j ≡ true =
        is_idle-eq count components j fits ∙ (ground arith) in
      ap (λ b. if b then soa else store soa (place_of slots stride components j) (packed (pos j))) t

  unpack_thread-writes :
      (slots : ℕ → ℕ) (count stride components : ℕ) (packed : ℤ → V) (j : ℕ) (soa : ℤ → V)
      → count * components < 2 ^ 31
      → j < count * components
      → unpack_thread slots count stride components packed j soa
        ≡ store soa (place_of slots stride components j) (packed (pos j))
  unfolding unpack_thread
  unpack_thread-writes slots count stride components packed j soa fits h =
      let t : is_idle count components j ≡ false =
        is_idle-eq count components j fits ∙ (ground arith) in
      ap (λ b. if b then soa else store soa (place_of slots stride components j) (packed (pos j))) t

  -- The packed stream holds component c of atom a at item a * components + c.
  pub pack_indexed_soa-item :
      (indices : ℕ → ℕ) (count stride components : ℕ) (soa packed : ℤ → V) (a c : ℕ)
      → count * components < 2 ^ 31
      → components * stride ≤ 2 ^ 31
      → indices a < stride
      → a < count
      → c < components
      → pack_indexed_soa indices count stride components soa packed (pos (a * components + c))
        ≡ soa (pos (c * stride + indices a))
  unfolding pack_indexed_soa
  pack_indexed_soa-item indices count stride components soa packed a c fits rows below ha hc =
      let inside : a * components + c < count * components =
        item_below count components a c ha hc in
      run_threads-place (pack_thread indices count stride components soa) (count * components) pos
        (λ j. soa (place_of indices stride components j))
        (λ j array. λ h. pack_thread-writes indices count stride components soa j array fits h)
        (λ j array. λ h. pack_thread-idles indices count stride components soa j array fits h)
        (launched (count * components)) packed (a * components + c) (launched_covers inside) inside
        (λ j. λ _. λ same. ground arith)
      ∙ ap soa (place_of-eq indices stride components a c rows below hc)

positive_factor : (count components : ℕ) {j : ℕ} → j < count * components → 0 < components
positive_factor count zero h = absurd (omega arith)
positive_factor count (suc c) h = omega arith

differs : (k p : ℤ) → k ≢ p → eqb_ℤ k p ≡ false
differs k p h = elim (Bool-cases (eqb_ℤ k p)) [
  | inl same ↦ absurd (h (ground arith))
  | inr other ↦ other
]

pos-injective : (m n : ℕ) → pos m ≡ pos n → m ≡ n
pos-injective m n h = ap pos_part h

eqb_ℤ-eq : (a b : ℤ) → eqb_ℤ a b ≡ true → a ≡ b
eqb_ℤ-eq a b h = ground arith

-- The atom of an item below the bound, and its component.
item_atom :
    (count components j : ℕ)
    → j < count * components
    → (j / components < count)
      × (j - j / components * components < components)
      × (j / components * components + (j - j / components * components) ≡ j)
item_atom count components j h =
    let some_component : 0 < components = positive_factor count components h in
    let atom : j / components < count = (div-lt_iff_lt-mul some_component).1 h in
    let at_most : j / components * components ≤ j = div-mul-le_self j components in
    let next : j < j / components * components + components = lt-div-mul-add some_component in
    (atom, omega arith, omega arith)

-- The slots of the atoms are below the stride and differ.
AreDistinct : (ℕ → ℕ) → ℕ → ℕ → Type 0
AreDistinct slots count stride =
    ((a : ℕ) → a < count → slots a < stride)
    × ((a b : ℕ) → a < count → b < count → slots a ≡ slots b → a ≡ b)

-- The place of an item below the bound, in an array that fits an `int`.
place_of-item :
    (slots : ℕ → ℕ) (count stride components j : ℕ)
    → components * stride ≤ 2 ^ 31
    → ((a : ℕ) → a < count → slots a < stride)
    → j < count * components
    → place_of slots stride components j
      ≡ pos ((j - j / components * components) * stride + slots (j / components))
unfolding place_of
place_of-item slots count stride components j rows inside h =
    let (atom, component, _) = item_atom count components j h in
    place_below stride components _ _ rows component (inside (j / components) atom)

place_of-injective :
    (slots : ℕ → ℕ) (count stride components i j : ℕ)
    → components * stride ≤ 2 ^ 31
    → AreDistinct slots count stride
    → i < count * components
    → j < count * components
    → place_of slots stride components i ≡ place_of slots stride components j
    → j ≡ i
unfolding AreDistinct
place_of-injective slots count stride components i j rows (inside, distinct) hi hj same =
    let (ai, ci, ri) = item_atom count components i hi in
    let (aj, cj, rj) = item_atom count components j hj in
    let exact = pos-injective _ _ (
      sym (place_of-item slots count stride components i rows inside hi)
      ∙ same
      ∙ place_of-item slots count stride components j rows inside hj) in
    let (row, slot) =
      split_place stride _ _ _ _ (inside (i / components) ai) (inside (j / components) aj) exact in
    let atom : i / components ≡ j / components = distinct _ _ ai aj slot in
    let start : i / components * components ≡ j / components * components =
      ap (λ q. q * components) atom in
    omega arith

module _ {V : Type 0} where
  -- Unpacking puts the item of each atom and component into the slot of the atom, and leaves every
  -- other place alone.
  unpack_indexed_soa-place :
      (slots : ℕ → ℕ) (count stride components : ℕ) (packed soa : ℤ → V) (a c : ℕ)
      → count * components < 2 ^ 31
      → components * stride ≤ 2 ^ 31
      → AreDistinct slots count stride
      → a < count
      → c < components
      → unpack_indexed_soa slots count stride components packed soa (pos (c * stride + slots a))
        ≡ packed (pos (a * components + c))
  unfolding unpack_indexed_soa AreDistinct
  unpack_indexed_soa-place slots count stride components packed soa a c fits rows apart ha hc =
      let inside = item_below count components a c ha hc in
      let thread = unpack_thread slots count stride components packed in
      let last = run_threads thread (launched (count * components)) soa in
      ap last (sym (place_of-eq slots stride components a c rows (apart.0 a ha) hc))
      ∙ run_threads-place thread (count * components) (place_of slots stride components)
          (λ j. packed (pos j))
          (λ j array. λ h. unpack_thread-writes slots count stride components packed j array fits h)
          (λ j array. λ h. unpack_thread-idles slots count stride components packed j array fits h)
          (launched (count * components)) soa (a * components + c) (launched_covers inside) inside
          (λ j. λ below. λ same.
            place_of-injective slots count stride components (a * components + c) j rows apart
              inside below (eqb_ℤ-eq _ _ same))

  unpack_indexed_soa-other :
      (slots : ℕ → ℕ) (count stride components : ℕ) (packed soa : ℤ → V) (k : ℤ)
      → count * components < 2 ^ 31
      → components * stride ≤ 2 ^ 31
      → ((a : ℕ) → a < count → slots a < stride)
      → ((a c : ℕ) → a < count → c < components → k ≢ pos (c * stride + slots a))
      → unpack_indexed_soa slots count stride components packed soa k ≡ soa k
  unfolding unpack_indexed_soa
  unpack_indexed_soa-other slots count stride components packed soa k fits rows inside apart =
      run_threads-other (unpack_thread slots count stride components packed) (count * components)
        (place_of slots stride components) (λ j. packed (pos j))
        (λ j array. λ h. unpack_thread-writes slots count stride components packed j array fits h)
        (λ j array. λ h. unpack_thread-idles slots count stride components packed j array fits h)
        (launched (count * components)) soa k
        (λ j. λ below.
          let (atom, component, whole) = item_atom count components j below in
          let exact = place_of-item slots count stride components j rows inside below in
          differs k _ (λ h. apart (j / components) _ atom component (h ∙ exact)))

  -- The atoms that a rank packs for a face arrive in the slots of its peer: when the peer receives the
  -- items that were packed, the atoms that are sent stand below the stride of the rank and their slots
  -- below the stride of the peer and apart, the items are fewer than 2^31 and the two arrays have at
  -- most 2^31 numbers, then each component of each atom is in the slot of the atom, and every other
  -- place is as before.
  pub unpack_indexed_soa-pack_indexed_soa :
      (indices slots : ℕ → ℕ) (count components stride peer_stride : ℕ) (sent stream : ℤ → V)
      (received soa : ℤ → V)
      → count * components < 2 ^ 31
      → components * stride ≤ 2 ^ 31
      → components * peer_stride ≤ 2 ^ 31
      → ((a : ℕ) → a < count → indices a < stride)
      → ((a : ℕ) → a < count → slots a < peer_stride)
      → ((a b : ℕ) → a < count → b < count → slots a ≡ slots b → a ≡ b)
      → ((i : ℕ)
          → i < count * components
          → received (pos i) ≡ pack_indexed_soa indices count stride components sent stream (pos i))
      → ((a c : ℕ)
          → a < count
          → c < components
          → unpack_indexed_soa slots count peer_stride components received soa
              (pos (c * peer_stride + slots a))
            ≡ sent (pos (c * stride + indices a)))
        × ((k : ℤ)
            → ((a c : ℕ) → a < count → c < components → k ≢ pos (c * peer_stride + slots a))
            → unpack_indexed_soa slots count peer_stride components received soa k ≡ soa k)
  unfolding AreDistinct
  unpack_indexed_soa-pack_indexed_soa indices slots count components stride peer_stride sent stream
        received soa fits rows peer_rows from inside distinct arrives =
      (
        λ a c. λ ha hc.
            unpack_indexed_soa-place slots count peer_stride components received soa a c fits
              peer_rows (inside, distinct) ha hc
            ∙ arrives (a * components + c) (item_below count components a c ha hc)
            ∙ pack_indexed_soa-item indices count stride components sent stream a c fits rows
                (from a ha) ha hc,
        λ k. λ apart.
            unpack_indexed_soa-other slots count peer_stride components received soa k fits
              peer_rows inside apart,
      )
