-- ===== src/Exchange/Recv.antt =====
-- What the receive maps of a built plan hold: each ghost slot once.
use dmg_md.Base.{
  ℕ, zero, suc, ◌+◌, ◌-◌, ◌^◌, ◌<◌, ◌≤◌, ◌≡◌, refl, sym, ap, ◌∙◌, true, false, List, [], ◌∷◌, ◌++◌,
  map, ok, ◌>>=◌, >>=-eq-ok, throw_if-eq-ok, ok-injective, arith, length, length-append,
  length-replicate, get_or, set, replicate, leb, ltb, ◌==◌, if◌then◌else◌, Bool-cases, inl, inr,
  count, AllBelow, total, length-map, total-count, total_cong,
}
use dmg_md.Base.Floats.{Floats}
use dmg_md.Base.Int.{ℤ, pos, negsuc, pos_part, eqb_ℤ, ltb_ℤ}
use dmg_md.Base.Machine.{int_of_size, int_of_size-small, size_of_int}
use dmg_md.Exchange.{
  Streams, grow, put_slot, drain, map_ghosts, stream_has_holes, put_at, no_such_size,
}
use dmg_md.Layout.{GhostSlotInfo}

-- How often slot `k` stands in a list of `int`s.
abbrev pub occurs : ℕ → List ℤ → ℕ
occurs k [] = 0
occurs k (x ∷ xs) = (if eqb_ℤ x (pos k) then 1 else 0) + occurs k xs

pub occurs-append : (k : ℕ) (xs ys : List ℤ) → occurs k (xs ++ ys) ≡ occurs k xs + occurs k ys
occurs-append k [] ys = omega arith
occurs-append k (x ∷ xs) ys = omega (arith, occurs-append k xs ys)

occurs_holes : (k n : ℕ) → occurs k (replicate n (negsuc 0)) ≡ 0
occurs_holes k zero = refl
occurs_holes k (suc n) = ground (arith, occurs_holes k n)

occurs-grow : (k : ℕ) (xs : List ℤ) (i : ℕ) → occurs k (grow xs i) ≡ occurs k xs
occurs-grow k xs i = ground (
  arith,
  occurs-append k xs (replicate (suc i - length xs) (negsuc 0)),
  occurs_holes k (suc i - length xs),
)

length-grow : (xs : List ℤ) (i : ℕ) → i < length (grow xs i)
length-grow xs i = ground (
  arith,
  length-append xs (replicate (suc i - length xs) (negsuc 0)),
  length-replicate (suc i - length xs) (negsuc 0),
)

-- A write over a hole adds one occurrence.
occurs-set :
    (k t : ℕ) (xs : List ℤ) (i : ℕ)
    → i < length xs
    → eqb_ℤ (get_or xs i (negsuc 0)) (negsuc 0) ≡ true
    → occurs k (set xs i (pos t)) ≡ occurs k xs + (if t == k then 1 else 0)
occurs-set k t [] i lt h = absurd (omega arith)
occurs-set k t (x ∷ xs) zero lt h = ground arith
occurs-set k t (x ∷ xs) (suc i) lt h = omega (arith, occurs-set k t xs i (omega arith) h)

pub occurs-put_slot :
    (k t : ℕ) (xs ys : List ℤ) (i : ℕ)
    → put_slot xs i (pos t) ≡ ok ys
    → occurs k ys ≡ occurs k xs + (if t == k then 1 else 0)
unfolding put_slot
occurs-put_slot k t xs ys i e =
    let grown = grow xs i in
    let hole : eqb_ℤ (get_or grown i (negsuc 0)) (negsuc 0) ≡ true = ground arith in
    let is : set grown i (pos t) ≡ ys = ground arith in
    rw (← is) (omega (arith, occurs-set k t grown i (length-grow xs i) hole, occurs-grow k xs i))

put_at-put_slot :
    (stream : List ℤ) (index slot : ℤ) {grown : List ℤ}
    → put_at stream index slot ≡ ok grown
    → put_slot stream (size_of_int index) slot ≡ ok grown
unfolding put_at
put_at-put_slot stream index slot e =
    (throw_if-eq-ok (ltb_ℤ index (pos 0)) no_such_size (put_slot stream (size_of_int index) slot)
      e).1

-- 1 for the slots from `slot` on, as many as there are ghosts.
abbrev pub within : ℕ → ℕ → ℕ → ℕ
within slot n k = if leb slot k then (if ltb k (slot + n) then 1 else 0) else 0

module _ (F : Floats) where
  -- The round of one ghost.
  map_step :
      (k : ℕ) (g : GhostSlotInfo F) (gs : List (GhostSlotInfo F)) (slot : ℕ) (st st' : Streams)
      → slot < 2 ^ 31
      → map_ghosts F (g ∷ gs) slot st ≡ ok st'
      → (st1 : Streams) × (occurs k st1.left + occurs k st1.right
          ≡ occurs k st.left + occurs k st.right + (if slot == k then 1 else 0))
        × (map_ghosts F gs (suc slot) st1 ≡ ok st')
  unfolding map_ghosts
  map_step k g gs slot st st' small e = elim (Bool-cases (eqb_ℤ g.face (pos 0))) [
    | inl is ↦
        let put = put_at st.left g.stream_index (int_of_size slot) in
        let next = λ (s : List ℤ). map_ghosts F gs (suc slot) (record st { left = s }) in
        let (s, done, rest) = >>=-eq-ok put next (rw is at e) in
        let done' = put_at-put_slot _ _ _ (rw (int_of_size-small slot small) at done) in
        (
          record st { left = s },
          omega (arith, occurs-put_slot k slot st.left s (size_of_int g.stream_index) done'),
          rest,
        )
    | inr is ↦
        let put = put_at st.right g.stream_index (int_of_size slot) in
        let next = λ (s : List ℤ). map_ghosts F gs (suc slot) (record st { right = s }) in
        let (s, done, rest) = >>=-eq-ok put next (rw is at e) in
        let done' = put_at-put_slot _ _ _ (rw (int_of_size-small slot small) at done) in
        (
          record st { right = s },
          omega (arith, occurs-put_slot k slot st.right s (size_of_int g.stream_index) done'),
          rest,
        )
  ]

  pub occurs-map_ghosts :
      (k : ℕ) (gs : List (GhostSlotInfo F)) (slot : ℕ) (st st' : Streams)
      → slot + length gs < 2 ^ 31
      → map_ghosts F gs slot st ≡ ok st'
      → occurs k st'.left + occurs k st'.right
        ≡ occurs k st.left + occurs k st.right + within slot (length gs) k
  unfolding map_ghosts
  occurs-map_ghosts k [] slot st st' small e =
      let same : st ≡ st' = ok-injective e in rw (← same) (ground arith)
  occurs-map_ghosts k (g ∷ gs) slot st st' small e =
      let (st1, one, rest) = map_step k g gs slot st st' (omega arith) e in
      ground (arith, one, occurs-map_ghosts k gs (suc slot) st1 st' (omega arith) rest)

-- No hole is left.
abbrev pub Filled : List ℤ → Type 0
Filled [] = Unit {0}
Filled (x ∷ xs) = (ltb_ℤ x (pos 0) ≡ false) × Filled xs

pub drain_lem : (xs ys : List ℤ) → drain xs ≡ ok ys → (xs ≡ ys) × Filled xs
unfolding drain
drain_lem [] ys e = (ok-injective e, tt)
drain_lem (x ∷ xs) ys e =
    let (fine, e1) =
      throw_if-eq-ok (ltb_ℤ x (pos 0)) stream_has_holes (drain xs >>= λ rest. ok (x ∷ rest)) e in
    let (rest, done, last) = >>=-eq-ok (drain xs) (λ rest. ok (x ∷ rest)) e1 in
    let (same, filled) = drain_lem xs rest done in
    (ap (◌∷◌ x) same ∙ ok-injective last, (fine, filled))

pub Filled-append : (xs ys : List ℤ) → Filled xs → Filled ys → Filled (xs ++ ys)
Filled-append [] ys f g = g
Filled-append (x ∷ xs) ys f g = (f.0, Filled-append xs ys f.1 g)

-- A list with no hole, read as slots.
pub occurs-count : (k : ℕ) (xs : List ℤ) → Filled xs → occurs k xs ≡ count k (map pos_part xs)
occurs-count k [] f = refl
occurs-count k (x ∷ xs) f = ground (arith, occurs-count k xs f.1)

pub below_of_occurs :
    (n : ℕ) (xs : List ℤ)
    → Filled xs
    → ((k : ℕ) → 1 ≤ occurs k xs → k < n)
    → AllBelow n (map pos_part xs)
below_of_occurs n [] f h = tt
below_of_occurs n (x ∷ xs) f h =
    (h (pos_part x) (ground arith), below_of_occurs n xs f.1 (λ k le. h k (omega arith)))

total-within :
    (a m n : ℕ) → total (within a m) n ≡ (if leb n a then 0 else if leb n (a + m) then n - a else m)
total-within a m zero = ground arith
total-within a m (suc n) = ground (arith, total-within a m n)

pub covered_total : (a m n : ℕ) → a + m ≡ n → total (within a m) n ≡ m
covered_total a m n e = ground (arith, total-within a m n)

-- The number of slots of a list that holds those of [owned, local) once each, and no others.
pub length_of_cover :
    (owned local : ℕ) (xs : List ℤ)
    → owned ≤ local
    → Filled xs
    → ((k : ℕ) → occurs k xs ≡ within owned (local - owned) k)
    → length xs ≡ local - owned
length_of_cover owned local xs le f h =
    let slots = map pos_part xs in
    let below = below_of_occurs local xs f (λ k some_of. ground (arith, h k)) in
    omega (
      arith,
      length-map xs pos_part,
      total-count local slots below,
      total_cong (λ k. count k slots) (within owned (local - owned)) local
          (λ k _. sym (occurs-count k xs f) ∙ h k),
      covered_total owned (local - owned) local (omega arith),
    )
