-- ===== src/Exchange/Valid.antt =====
-- A plan that `build_exchange_plan` returns passes `validate_exchange_plan`.
use mathlib.Core.Path.{ap₂}
use dmg_md.Base.{
  ℕ, ◌+◌, ◌-◌, ◌^◌, ◌<◌, ◌≤◌, ◌≡◌, refl, ap, ◌∙◌, Bool, false, List, [], ◌∷◌, ◌++◌, map, ok, arith,
  length, length-map, ◌==◌, if◌then◌else◌, >>=-eq-ok, ok-injective, subst, ◌≢◌,
}
use dmg_md.Base.Floats.{Floats}
use dmg_md.Base.Int.{ℤ, pos, negsuc, pos_part, ltb_ℤ}
use dmg_md.Base.Machine.{size_of_int}
use dmg_md.Exchange.Recv.{
  occurs, occurs-append, within, occurs-map_ghosts, Filled, Filled-append, drain_lem,
  length_of_cover,
}
use dmg_md.Exchange.Sends.{check_sends-flagged}
use dmg_md.Exchange.{
  ExchangePlan, FaceExchangePlan, Streams, check_recvs, check_side, sort_slots, insert_slot,
  has_adjacent, map_ghosts, drain, peer_of, in_left, in_right, flagged, build_exchange_plan,
  validate_exchange_plan, peers_share_rank, check_sends,
}
use dmg_md.Layout.Geometry.{face_peer, left_peer_lem, right_peer_lem}
use dmg_md.Layout.{LocalLayout, owned_count, local_count, dependency_end, DomainAtomRecord}

recv_step :
    (owned local : ℕ) (x : ℤ) (xs : List ℤ)
    → ltb_ℤ x (pos 0) ≡ false
    → owned ≤ pos_part x
    → pos_part x < local
    → check_recvs owned local (x ∷ xs) ≡ check_recvs owned local xs
unfolding check_recvs size_of_int
recv_step owned local x xs h low high = ground arith

check_recvs_of_occurs :
    (owned local : ℕ) (xs : List ℤ)
    → Filled xs
    → ((k : ℕ) → 1 ≤ occurs k xs → (owned ≤ k) × (k < local))
    → check_recvs owned local xs ≡ ok tt
unfolding check_recvs
check_recvs_of_occurs owned local [] f h = refl
check_recvs_of_occurs owned local (x ∷ xs) f h =
    let (low, high) = h (pos_part x) (ground arith) in
    recv_step owned local x xs f.0 low high
    ∙ check_recvs_of_occurs owned local xs f.1 (λ k le. h k (omega arith))

-- Sorting keeps the occurrences, and equal neighbours occur twice.
occurs-insert_slot : (k : ℕ) (x : ℤ) (ys : List ℤ) → occurs k (insert_slot x ys) ≡ occurs k (x ∷ ys)
unfolding insert_slot
occurs-insert_slot k x [] = refl
occurs-insert_slot k x (y ∷ ys) = ground (arith, occurs-insert_slot k x ys)

pub occurs-sort_slots : (k : ℕ) (xs : List ℤ) → occurs k (sort_slots xs) ≡ occurs k xs
unfolding sort_slots
occurs-sort_slots k [] = refl
occurs-sort_slots k (x ∷ xs) =
    omega (arith, occurs-insert_slot k x (sort_slots xs), occurs-sort_slots k xs)

Filled-insert_slot :
    (x : ℤ) (ys : List ℤ) → ltb_ℤ x (pos 0) ≡ false → Filled ys → Filled (insert_slot x ys)
unfolding insert_slot
Filled-insert_slot x [] h f = (h, tt)
Filled-insert_slot x (y ∷ ys) h f = ground (arith, Filled-insert_slot x ys h f.1)

pub Filled-sort_slots : (xs : List ℤ) → Filled xs → Filled (sort_slots xs)
unfolding sort_slots
Filled-sort_slots [] f = tt
Filled-sort_slots (x ∷ xs) f = Filled-insert_slot x (sort_slots xs) f.0 (Filled-sort_slots xs f.1)

no_adjacent : (xs : List ℤ) → Filled xs → ((k : ℕ) → occurs k xs ≤ 1) → has_adjacent xs ≡ false
unfolding has_adjacent
no_adjacent [] f h = refl
no_adjacent (x ∷ []) f h = refl
no_adjacent (x ∷ y ∷ ys) f h =
    ground (arith, h (pos_part x), no_adjacent (y ∷ ys) f.1 (λ k. omega (arith, h k)))

within_join : (o d c k : ℕ) → within o d k + within (o + d) c k ≡ within o (o + d + c - o) k
within_join o d c k = ground arith

-- What a built plan consists of.
pub record BuiltPlan (F : Floats) (l : LocalLayout F) (p : ExchangePlan) : Type 0 where
  pub left_peer : p.left.peer ≡ peer_of F l 0
  pub right_peer : p.right.peer ≡ peer_of F l 1
  pub left_sends : p.left.send_slots ≡ flagged 0 (map (in_left F l) l.owned)
  pub right_sends : p.right.send_slots ≡ flagged 0 (map (in_right F l) l.owned)
  pub filled : Filled p.left.recv_slots × Filled p.right.recv_slots
  pub covers :
      (k : ℕ)
      → occurs k p.left.recv_slots + occurs k p.right.recv_slots
        ≡ within (owned_count F l) (local_count F l - owned_count F l) k

pub build_exchange_plan-BuiltPlan :
    (F : Floats) (l : LocalLayout F) {p : ExchangePlan}
    → local_count F l < 2 ^ 31
    → build_exchange_plan F l ≡ ok p
    → BuiltPlan F l p
unfolding build_exchange_plan owned_count local_count dependency_end
build_exchange_plan-BuiltPlan F l {p} small e =
    let o = length l.owned in
    let start : Streams = record { left = []; right = [] } in
    let (a, ea, e1) = >>=-eq-ok (map_ghosts F l.dependency_ghosts (owned_count F l) start) _ e in
    let (b, eb, e2) = >>=-eq-ok (map_ghosts F l.coordinate_ghosts (dependency_end F l) a) _ e1 in
    let (rl, el, e3) = >>=-eq-ok (drain b.left) _ e2 in
    let (rr, er, e4) = >>=-eq-ok (drain b.right) _ e3 in
    let is = ok-injective e4 in
    let (sl, fl) = drain_lem b.left rl el in
    let (sr, fr) = drain_lem b.right rr er in
    rw (← is) (record {
      left_peer = refl;
      right_peer = refl;
      left_sends = refl;
      right_sends = refl;
      filled = (subst Filled sl fl, subst Filled sr fr);
      covers = λ k. omega (
        arith,
        ap (occurs k) sl,
        ap (occurs k) sr,
        occurs-map_ghosts F k l.dependency_ghosts (owned_count F l) start a (omega arith) ea,
        occurs-map_ghosts F k l.coordinate_ghosts (dependency_end F l) a b (omega arith) eb,
        within_join o (length l.dependency_ghosts) (length l.coordinate_ghosts) k,
      );
    })

-- The peers of a rank: within the world, not the rank itself, and one and the same rank exactly in
-- a world of two.
pub peers_lem :
    (r n : ℕ)
    → r < n
    → 1 < n
    → (left right : ℕ) × (face_peer 0 (pos r) (pos n) ≡ pos left)
      × (face_peer 1 (pos r) (pos n) ≡ pos right)
      × (left < n)
      × (right < n)
      × (left ≢ r)
      × (right ≢ r)
      × ((left == right) ≡ (n == 2))
peers_lem r n lt several = (
  if r == 0 then n - 1 else r - 1,
  if r + 1 == n then 0 else r + 1,
  left_peer_lem r n lt,
  right_peer_lem r n lt,
  ground arith,
  ground arith,
  ground arith,
  ground arith,
  ground arith,
)

sides_ok :
    (owned local r n : ℕ) (side : FaceExchangePlan) (peer : ℕ) (bs : List Bool)
    → owned < 2 ^ 31
    → side.peer ≡ pos peer
    → peer < n
    → peer ≢ r
    → side.send_slots ≡ flagged 0 bs
    → length bs ≡ owned
    → Filled side.recv_slots
    → ((k : ℕ) → 1 ≤ occurs k side.recv_slots → (owned ≤ k) × (k < local))
    → check_side owned local (pos r) (pos n) side ≡ ok tt
unfolding check_side
sides_ok owned local r n side peer bs small is lt ne sends len filled range =
    let sent =
      ap (check_sends owned (negsuc 0)) sends
      ∙ check_sends-flagged owned 0 (negsuc 0) bs small (omega arith) refl in
    ground (arith, sent, check_recvs_of_occurs owned local side.recv_slots filled range)

all_checks :
    (p : ExchangePlan) (owned local r n a b : ℕ)
    → r < n
    → 1 < n
    → owned ≤ local
    → check_side owned local (pos r) (pos n) p.left ≡ ok tt
    → check_side owned local (pos r) (pos n) p.right ≡ ok tt
    → p.left.peer ≡ pos a
    → p.right.peer ≡ pos b
    → (a == b) ≡ (n == 2)
    → has_adjacent (sort_slots (p.left.recv_slots ++ p.right.recv_slots)) ≡ false
    → length (p.left.recv_slots ++ p.right.recv_slots) ≡ local - owned
    → validate_exchange_plan p owned local (pos r) (pos n) ≡ ok tt
unfolding validate_exchange_plan peers_share_rank
all_checks p owned local r n a b lt several le left right pa pb shared adjacent len =
    rw left (rw right (ground arith))

module _ (F : Floats) (l : LocalLayout F) (p : ExchangePlan) (b : BuiltPlan F l p) where
  local_split : owned_count F l ≤ local_count F l
  unfolding owned_count local_count
  local_split = omega arith

  all-Filled : Filled (p.left.recv_slots ++ p.right.recv_slots)
  all-Filled = Filled-append p.left.recv_slots p.right.recv_slots b.filled.0 b.filled.1

  all_covers :
      (k : ℕ)
      → occurs k (p.left.recv_slots ++ p.right.recv_slots)
        ≡ within (owned_count F l) (local_count F l - owned_count F l) k
  all_covers k = occurs-append k p.left.recv_slots p.right.recv_slots ∙ b.covers k

  in_ghosts :
      (k : ℕ)
      → 1 ≤ occurs k p.left.recv_slots + occurs k p.right.recv_slots
      → (owned_count F l ≤ k) × (k < local_count F l)
  in_ghosts k h = let c = b.covers k in let s = local_split in (ground arith, ground arith)

  flags_len : (f : DomainAtomRecord F → Bool) → length (map f l.owned) ≡ owned_count F l
  unfolding owned_count
  flags_len f = length-map l.owned f

  unshared : has_adjacent (sort_slots (p.left.recv_slots ++ p.right.recv_slots)) ≡ false
  unshared =
      let seen = p.left.recv_slots ++ p.right.recv_slots in
      no_adjacent (sort_slots seen) (Filled-sort_slots seen all-Filled)
        (λ k. ground (arith, occurs-sort_slots k seen, all_covers k))

-- For a layout of fewer than 2^31 local slots, whose rank lies in a world of more than one rank,
-- what `build_exchange_plan` returns passes `validate_exchange_plan`.
pub build_exchange_plan-validates :
    (F : Floats) (l : LocalLayout F) (r n : ℕ) {p : ExchangePlan}
    → l.rank ≡ pos r
    → l.world_size ≡ pos n
    → r < n
    → 1 < n
    → local_count F l < 2 ^ 31
    → build_exchange_plan F l ≡ ok p
    → validate_exchange_plan p (owned_count F l) (local_count F l) (pos r) (pos n) ≡ ok tt
build_exchange_plan-validates F l r n {p} rank_is world_is lt several small e =
    let b = build_exchange_plan-BuiltPlan F l small e in
    let (a, c, pa, pc, la, lc, na, nc, shared) = peers_lem r n lt several in
    let same = ap₂ (face_peer 0) rank_is world_is in
    let same' = ap₂ (face_peer 1) rank_is world_is in
    all_checks p (owned_count F l) (local_count F l) r n a c lt several (local_split F l p b)
      (sides_ok (owned_count F l) (local_count F l) r n p.left a (map (in_left F l) l.owned)
        (omega (arith, local_split F l p b)) (b.left_peer ∙ same ∙ pa) la na b.left_sends
        (flags_len F l p b (in_left F l)) b.filled.0 (λ k h. in_ghosts F l p b k (omega arith)))
      (sides_ok (owned_count F l) (local_count F l) r n p.right c (map (in_right F l) l.owned)
        (omega (arith, local_split F l p b)) (b.right_peer ∙ same' ∙ pc) lc nc b.right_sends
        (flags_len F l p b (in_right F l)) b.filled.1 (λ k h. in_ghosts F l p b k (omega arith)))
      (b.left_peer ∙ same ∙ pa) (b.right_peer ∙ same' ∙ pc) shared (unshared F l p b)
      (length_of_cover (owned_count F l) (local_count F l) (p.left.recv_slots ++ p.right.recv_slots)
        (local_split F l p b) (all-Filled F l p b) (all_covers F l p b))
