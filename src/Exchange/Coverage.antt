-- ===== src/Exchange/Coverage.antt =====
-- Whom the send lists of a built plan reach.
use dmg_md.Base.{
  ℕ, zero, suc, ◌^◌, ◌<◌, ◌≡◌, ap, ◌∙◌, Bool, true, false, List, [], ◌∷◌, map, ok, arith,
  length-map, get_elem?, some, if◌then◌else◌, Bool-cases, inl, inr,
}
use dmg_md.Base.Floats.{Floats}
use dmg_md.Base.Int.{ℤ, eqb_ℤ}
use dmg_md.Exchange.Recv.{occurs}
use dmg_md.Exchange.Sends.{flag_at, occurs-flagged}
use dmg_md.Exchange.Valid.{build_exchange_plan-BuiltPlan}
use dmg_md.Exchange.{
  ExchangePlan, flagged, peer_of, near_peer, in_left, in_right, build_exchange_plan,
}
use dmg_md.Layout.{DomainAtomRecord, LocalLayout, owned_count, local_count}

flag_at-map :
    {A : Type 0} (f : A → Bool) (xs : List A) (k : ℕ) (a : A)
    → get_elem? xs k ≡ some a
    → flag_at (map f xs) k ≡ f a
flag_at-map f [] k a e = cc
flag_at-map f (x ∷ xs) zero a e = ground arith
flag_at-map f (x ∷ xs) (suc k) a e = flag_at-map f xs k a e

occurs-send :
    (F : Floats) (l : LocalLayout F) (f : DomainAtomRecord F → Bool) (k : ℕ)
    (a : DomainAtomRecord F)
    → owned_count F l < 2 ^ 31
    → get_elem? l.owned k ≡ some a
    → occurs k (flagged 0 (map f l.owned)) ≡ (if f a then 1 else 0)
unfolding owned_count
occurs-send F l f k a small e =
    occurs-flagged (map f l.owned) 0 k k (omega (arith, length-map l.owned f)) (omega arith)
    ∙ ap (λ (b : Bool). if b then 1 else 0) (flag_at-map f l.owned k a e)

abbrev pub bit : Bool → ℕ
bit b = if b then 1 else 0

near_same :
    (F : Floats) (l : LocalLayout F) (p q : ℤ) (a : DomainAtomRecord F)
    → eqb_ℤ p q ≡ true
    → near_peer F l p a ≡ near_peer F l q a
near_same F l p q a e = let same : p ≡ q = ground arith in ap (λ k. near_peer F l k a) same

in_right_lem :
    (F : Floats) (l : LocalLayout F) (a : DomainAtomRecord F)
    → in_right F l a
      ≡ (if eqb_ℤ (peer_of F l 0) (peer_of F l 1) then false else near_peer F l (peer_of F l 1) a)
unfolding in_right in_left
in_right_lem F l a = elim (Bool-cases (eqb_ℤ (peer_of F l 0) (peer_of F l 1))) [
  | inl same ↦ let e = near_same F l (peer_of F l 0) (peer_of F l 1) a same in ground arith
  | inr other ↦ ground arith
]

-- In a plan that was built, on fewer than 2^31 local slots, the owned atom of slot `k` is on the
-- left send list once if it lies within `d_coord` of the left peer's slab, and not at all
-- otherwise; on the right list the same holds of the right peer, save that the right list is left
-- empty where both faces have one peer.
pub build_exchange_plan-reaches :
    (F : Floats) (l : LocalLayout F) {p : ExchangePlan} (k : ℕ) (a : DomainAtomRecord F)
    → local_count F l < 2 ^ 31
    → build_exchange_plan F l ≡ ok p
    → get_elem? l.owned k ≡ some a
    → (occurs k p.left.send_slots ≡ bit (near_peer F l (peer_of F l 0) a))
      × (occurs k p.right.send_slots ≡ (
          if eqb_ℤ (peer_of F l 0) (peer_of F l 1)
          then 0
          else bit (near_peer F l (peer_of F l 1) a)))
unfolding in_left owned_count local_count
build_exchange_plan-reaches F l {p} k a small e at =
    let b = build_exchange_plan-BuiltPlan F l small e in
    let lefts = ap (occurs k) b.left_sends ∙ occurs-send F l (in_left F l) k a (omega arith) at in
    let rights =
      ap (occurs k) b.right_sends
      ∙ occurs-send F l (in_right F l) k a (omega arith) at
      ∙ ap bit (in_right_lem F l a) in
    (lefts, ground (arith, rights))
