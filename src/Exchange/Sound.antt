-- ===== src/Exchange/Sound.antt =====
-- What an accepted plan guarantees, whatever made it.
use dmg_md.Base.{
  ℕ, ◌+◌, ◌-◌, ◌<◌, ◌≤◌, ◌≡◌, refl, sym, ◌∙◌, true, false, List, [], ◌∷◌, ◌++◌, map, ok, arith,
  length, length-map, ltb, count, total-count, total_squeeze, total_cong, Bool-cases, inl, inr,
}
use dmg_md.Base.Int.{ℤ, pos, negsuc, pos_part, ltb_ℤ, eqb_ℤ}
use dmg_md.Base.Machine.{size_of_int}
use dmg_md.Exchange.Recv.{
  occurs, occurs-append, occurs-count, within, Filled, below_of_occurs, covered_total,
}
use dmg_md.Exchange.Valid.{occurs-sort_slots}
use dmg_md.Exchange.{
  ExchangePlan, FaceExchangePlan, check_sends, check_recvs, check_side, sort_slots, insert_slot,
  has_adjacent, validate_exchange_plan, peers_share_rank,
}

-- The numbers rise, from above `previous`.
abbrev pub Rises : ℤ → List ℤ → Type 0
Rises previous [] = Unit {0}
Rises previous (x ∷ xs) = (ltb_ℤ previous x ≡ true) × Rises x xs

-- Every slot lies in [lo, hi).
abbrev pub Inside : ℕ → ℕ → List ℤ → Type 0
Inside lo hi [] = Unit {0}
Inside lo hi (x ∷ xs) =
    ((ltb_ℤ x (pos 0) ≡ false) × (lo ≤ pos_part x) × (pos_part x < hi)) × Inside lo hi xs

sends-Inside :
    (owned : ℕ) (previous : ℤ) (xs : List ℤ)
    → check_sends owned previous xs ≡ ok tt
    → Rises previous xs × Inside 0 owned xs
unfolding check_sends size_of_int
sends-Inside owned previous [] e = (tt, tt)
sends-Inside owned previous (x ∷ xs) e =
    let rest : check_sends owned x xs ≡ ok tt = ground arith in
    let (rises, inside) = sends-Inside owned x xs rest in
    ((ground arith, rises), ((ground arith, omega arith, ground arith), inside))

recvs-Inside :
    (owned local : ℕ) (xs : List ℤ) → check_recvs owned local xs ≡ ok tt → Inside owned local xs
unfolding check_recvs size_of_int
recvs-Inside owned local [] e = tt
recvs-Inside owned local (x ∷ xs) e =
    let rest : check_recvs owned local xs ≡ ok tt = ground arith in
    ((ground arith, ground arith, ground arith), recvs-Inside owned local xs rest)

-- Sorted: no neighbour is smaller.
abbrev Sorted : List ℤ → Type 0
Sorted [] = Unit {0}
Sorted (x ∷ []) = Unit {0}
Sorted (x ∷ y ∷ ys) = (ltb_ℤ y x ≡ false) × Sorted (y ∷ ys)

Sorted-insert_slot : (x : ℤ) (ys : List ℤ) → Sorted ys → Sorted (insert_slot x ys)
unfolding insert_slot
Sorted-insert_slot x [] s = tt
Sorted-insert_slot x (y ∷ []) s = ground arith
Sorted-insert_slot x (y ∷ z ∷ zs) s = ground (arith, Sorted-insert_slot x (z ∷ zs) s.1)

Sorted-sort_slots : (xs : List ℤ) → Sorted (sort_slots xs)
unfolding sort_slots
Sorted-sort_slots [] = tt
Sorted-sort_slots (x ∷ xs) = Sorted-insert_slot x (sort_slots xs) (Sorted-sort_slots xs)

Rises-of_Sorted :
    (x : ℤ) (xs : List ℤ) → Sorted (x ∷ xs) → has_adjacent (x ∷ xs) ≡ false → Rises x xs
unfolding has_adjacent
Rises-of_Sorted x [] s h = tt
Rises-of_Sorted x (y ∷ ys) s h = (ground arith, Rises-of_Sorted y ys s.1 (ground arith))

not_above : (k : ℕ) (x : ℤ) (xs : List ℤ) → Rises x xs → ltb_ℤ x (pos k) ≡ false → occurs k xs ≡ 0
not_above k x [] r h = refl
not_above k x (y ∷ ys) r h = ground (arith, not_above k y ys r.1)

once_of_Rises : (k : ℕ) (x : ℤ) (xs : List ℤ) → Rises x xs → occurs k (x ∷ xs) ≤ 1
once_of_Rises k x [] r = ground arith
once_of_Rises k x (y ∷ ys) r = ground (arith, once_of_Rises k y ys r.1, not_above k x (y ∷ ys) r)

once_of_Sorted : (k : ℕ) (xs : List ℤ) → Sorted xs → has_adjacent xs ≡ false → occurs k xs ≤ 1
once_of_Sorted k [] s h = omega arith
once_of_Sorted k (x ∷ xs) s h = once_of_Rises k x xs (Rises-of_Sorted x xs s h)

-- What the validation is for.
pub record IsExchange (plan : ExchangePlan) (owned local : ℕ) (rank world : ℤ) : Type 0 where
  pub left_sends : Rises (negsuc 0) plan.left.send_slots × Inside 0 owned plan.left.send_slots
  pub right_sends : Rises (negsuc 0) plan.right.send_slots × Inside 0 owned plan.right.send_slots
  pub refreshed_once :
      (k : ℕ)
      → occurs k plan.left.recv_slots + occurs k plan.right.recv_slots
        ≡ within owned (local - owned) k
  pub peers :
      (eqb_ℤ plan.left.peer rank ≡ false)
      × (eqb_ℤ plan.right.peer rank ≡ false)
      × (eqb_ℤ plan.left.peer plan.right.peer ≡ eqb_ℤ world (pos 2))

validate-guards :
    (p : ExchangePlan) (owned local : ℕ) (rank world : ℤ)
    → validate_exchange_plan p owned local rank world ≡ ok tt
    → let seen = p.left.recv_slots ++ p.right.recv_slots in
      (owned ≤ local)
      × (check_side owned local rank world p.left ≡ ok tt)
      × (check_side owned local rank world p.right ≡ ok tt)
      × (eqb_ℤ p.left.peer p.right.peer ≡ eqb_ℤ world (pos 2))
      × (has_adjacent (sort_slots seen) ≡ false)
      × (length seen ≡ local - owned)
unfolding validate_exchange_plan peers_share_rank
validate-guards p owned local rank world e =
    (ground arith, ground arith, ground arith, ground arith, ground arith, ground arith)

side-parts :
    (owned local : ℕ) (rank world : ℤ) (side : FaceExchangePlan)
    → check_side owned local rank world side ≡ ok tt
    → (eqb_ℤ side.peer rank ≡ false)
      × (Rises (negsuc 0) side.send_slots × Inside 0 owned side.send_slots)
      × Inside owned local side.recv_slots
unfolding check_side
side-parts owned local rank world side e =
    let sends : check_sends owned (negsuc 0) side.send_slots ≡ ok tt = ground arith in
    let recvs : check_recvs owned local side.recv_slots ≡ ok tt = ground arith in
    (
      ground arith,
      sends-Inside owned (negsuc 0) side.send_slots sends,
      recvs-Inside owned local side.recv_slots recvs,
    )

Inside-append :
    (lo hi : ℕ) (xs ys : List ℤ) → Inside lo hi xs → Inside lo hi ys → Inside lo hi (xs ++ ys)
Inside-append lo hi [] ys f g = g
Inside-append lo hi (x ∷ xs) ys f g = (f.0, Inside-append lo hi xs ys f.1 g)

Inside-Filled : (lo hi : ℕ) (xs : List ℤ) → Inside lo hi xs → Filled xs
Inside-Filled lo hi [] i = tt
Inside-Filled lo hi (x ∷ xs) i = (i.0.0, Inside-Filled lo hi xs i.1)

Inside-occurs :
    (lo hi k : ℕ) (xs : List ℤ) → Inside lo hi xs → 1 ≤ occurs k xs → (lo ≤ k) × (k < hi)
Inside-occurs lo hi k [] i h = absurd (omega arith)
Inside-occurs lo hi k (x ∷ xs) i h = ground (arith, Inside-occurs lo hi k xs i.1)

-- A list of as many slots of [owned, local) as there are, none twice, holds each once.
covers_all :
    (owned local : ℕ) (xs : List ℤ)
    → owned ≤ local
    → Inside owned local xs
    → ((k : ℕ) → occurs k xs ≤ 1)
    → length xs ≡ local - owned
    → (k : ℕ) → occurs k xs ≡ within owned (local - owned) k
covers_all owned local xs le inside once len k =
    let filled = Inside-Filled owned local xs inside in
    let bounded = λ (j : ℕ). Inside-occurs owned local j xs inside in
    let squeeze =
      total_squeeze (λ j. occurs j xs) (within owned (local - owned)) local
        (λ j lt. ground (arith, once j, bounded j))
        (omega (
          arith,
          total_cong (λ j. occurs j xs) (λ j. count j (map pos_part xs)) local
              (λ j _. occurs-count j xs filled),
          total-count local (map pos_part xs)
              (below_of_occurs local xs filled (λ j some_of. (bounded j some_of).1)),
          length-map xs pos_part,
          covered_total owned (local - owned) local (omega arith),
        )) in
    elim (Bool-cases (ltb k local)) [
      | inl low ↦ squeeze k (ground arith)
      | inr high ↦ ground (arith, bounded k)
    ]

-- A plan that the validation accepts refreshes each ghost slot once, over both faces together, and
-- no other slot; its send lists rise and name owned slots; its peers are other ranks, and are one
-- rank exactly in a world of two.
pub validate_exchange_plan-IsExchange :
    (p : ExchangePlan) (owned local : ℕ) (rank world : ℤ)
    → validate_exchange_plan p owned local rank world ≡ ok tt
    → IsExchange p owned local rank world
validate_exchange_plan-IsExchange p owned local rank world e =
    let seen = p.left.recv_slots ++ p.right.recv_slots in
    let (le, left, right, shared, adjacent, len) = validate-guards p owned local rank world e in
    let (lp, ls, lr) = side-parts owned local rank world p.left left in
    let (rp, rs, rr) = side-parts owned local rank world p.right right in
    let once : (k : ℕ) → occurs k seen ≤ 1 = λ k. omega (
      arith,
      once_of_Sorted k (sort_slots seen) (Sorted-sort_slots seen) adjacent,
      occurs-sort_slots k seen,
    ) in
    let all =
      covers_all owned local seen le
        (Inside-append owned local p.left.recv_slots p.right.recv_slots lr rr) once len in
    record {
      left_sends = ls;
      right_sends = rs;
      refreshed_once = λ k. sym (occurs-append k p.left.recv_slots p.right.recv_slots) ∙ all k;
      peers = (lp, rp, shared);
    }
