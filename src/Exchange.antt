-- ===== src/Exchange.antt =====
-- include/dmgmd/domain_layout.hpp, `ExchangePlan`: which owned slots go to the two peers at each
-- step, and which ghost slot each received position refreshes. `validate_exchange_plan` checks
-- such a plan whatever made it.
pub mod Recv
pub mod Sends
pub mod Valid
pub mod Sound
pub mod Coverage
use dmg_md.Base.{
  ℕ, zero, suc, ◌+◌, ◌-◌, Bool, true, false, not, ◌||◌, ◌&&◌, List, [], ◌∷◌, ◌++◌, map, Result, ok,
  err, ◌>>=◌, ◌>>◌, throw_if, length, get_or, set, replicate, leb, ltb, ◌==◌, if◌then◌else◌,
}
use dmg_md.Base.Floats.{Floats}
use dmg_md.Base.Int.{ℤ, pos, negsuc, ltb_ℤ, eqb_ℤ, ◌+ℤ◌, ◌-ℤ◌}
use dmg_md.Base.Machine.{int_of_size, size_of_int}
use dmg_md.Layout.Geometry.{component, distance_to_slab, face_peer}
use dmg_md.Layout.{DomainAtomRecord, GhostSlotInfo, LocalLayout, owned_count, dependency_end}

pub data ExchangeError : Type 0 where
  duplicate_stream_index stream_has_holes : ExchangeError
  -- `stream.resize` to a size that no vector has.
  no_such_size : ExchangeError
  world_too_small rank_outside local_below_owned invalid_peer : ExchangeError
  sends_not_ascending send_outside recv_outside : ExchangeError
  peers_differ peers_shared refreshed_twice not_covered : ExchangeError

pub record FaceExchangePlan : Type 0 where
  pub peer : ℤ
  pub send_slots : List ℤ
  pub recv_slots : List ℤ

-- face[0] and face[1].
pub record ExchangePlan : Type 0 where
  pub left : FaceExchangePlan
  pub right : FaceExchangePlan

unfoldable pub peers_share_rank : ExchangePlan → Bool
peers_share_rank p = eqb_ℤ p.left.peer p.right.peer

-- The slots, from `slot` on, whose flag is set.
unfoldable pub flagged : ℕ → List Bool → List ℤ
flagged slot [] = []
flagged slot (b ∷ bs) =
    if b then int_of_size slot ∷ flagged (suc slot) bs else flagged (suc slot) bs

-- The receive streams of the two faces; -1 marks a position that no ghost has taken.
pub record Streams : Type 0 where
  pub left : List ℤ
  pub right : List ℤ

-- `stream.resize(index + 1, -1)`, if the stream is shorter.
abbrev pub grow : List ℤ → ℕ → List ℤ
grow stream index =
    if leb (length stream) index
    then stream ++ replicate (suc index - length stream) (negsuc 0)
    else stream

unfoldable pub put_slot : List ℤ → ℕ → ℤ → Result ExchangeError (List ℤ)
put_slot stream index slot = do
  let grown = grow stream index
  throw_if (not (eqb_ℤ (get_or grown index (negsuc 0)) (negsuc 0))) duplicate_stream_index
  ok (set grown index slot)

-- As a `std::size_t` a negative index is at least 2^64 - 2^31, to which `resize` refuses to grow a
-- vector. (For -1, whose successor is 0, the access that follows has no defined result.)
unfoldable pub put_at : List ℤ → ℤ → ℤ → Result ExchangeError (List ℤ)
put_at stream index slot = do
  throw_if (ltb_ℤ index (pos 0)) no_such_size
  put_slot stream (size_of_int index) slot

-- The refusal of a hole.
unfoldable pub drain : List ℤ → Result ExchangeError (List ℤ)
drain [] = ok []
drain (slot ∷ slots) = do
  throw_if (ltb_ℤ slot (pos 0)) stream_has_holes
  rest ← drain slots
  ok (slot ∷ rest)

module _ (F : Floats) where
  open F use {Double, add, ltd, mul, div, of_int}

  -- The face of a ghost of a built layout is 0 or 1.
  unfoldable pub map_ghosts : List (GhostSlotInfo F) → ℕ → Streams → Result ExchangeError Streams
  map_ghosts [] slot st = ok st
  map_ghosts (g ∷ gs) slot st =
      if eqb_ℤ g.face (pos 0)
      then (put_at st.left g.stream_index (int_of_size slot) >>= λ s.
          map_ghosts gs (suc slot) (record st { left = s }))
      else (put_at st.right g.stream_index (int_of_size slot) >>= λ s.
          map_ghosts gs (suc slot) (record st { right = s }))

  -- Whether the peer needs the atom.
  unfoldable pub near_peer : LocalLayout F → ℤ → DomainAtomRecord F → Bool
  near_peer l peer a =
      let lo = mul (div (of_int peer) (of_int l.world_size)) l.axis_length in
      let hi = add lo (div l.axis_length (of_int l.world_size)) in
      ltd (distance_to_slab F (component a.position l.axis) lo hi l.axis_length) l.d_coord

  abbrev pub peer_of : LocalLayout F → ℕ → ℤ
  peer_of l face = face_peer face l.rank l.world_size

  unfoldable pub in_left : LocalLayout F → DomainAtomRecord F → Bool
  unfolding near_peer
  in_left l a = near_peer l (peer_of l 0) a

  unfoldable pub in_right : LocalLayout F → DomainAtomRecord F → Bool
  unfolding near_peer in_left
  in_right l a =
      near_peer l (peer_of l 1) a && not (eqb_ℤ (peer_of l 0) (peer_of l 1) && in_left l a)

  unfoldable pub build_exchange_plan : LocalLayout F → Result ExchangeError ExchangePlan
  unfolding in_left in_right
  build_exchange_plan l = do
    deps ← map_ghosts l.dependency_ghosts (owned_count F l) (record { left = []; right = [] })
    all ← map_ghosts l.coordinate_ghosts (dependency_end F l) deps
    recv_left ← drain all.left
    recv_right ← drain all.right
    ok (record {
      left = record {
        peer = peer_of l 0;
        send_slots = flagged 0 (map (in_left l) l.owned);
        recv_slots = recv_left;
      };
      right = record {
        peer = peer_of l 1;
        send_slots = flagged 0 (map (in_right l) l.owned);
        recv_slots = recv_right;
      };
    })

pub check_sends : ℕ → ℤ → List ℤ → Result ExchangeError (Unit {0})
check_sends owned previous [] = ok tt
check_sends owned previous (slot ∷ slots) = do
  throw_if (not (ltb_ℤ previous slot)) sends_not_ascending
  throw_if (ltb_ℤ slot (pos 0) || leb owned (size_of_int slot)) send_outside
  check_sends owned slot slots

pub check_recvs : ℕ → ℕ → List ℤ → Result ExchangeError (Unit {0})
check_recvs owned local [] = ok tt
check_recvs owned local (slot ∷ slots) = do
  throw_if (ltb_ℤ slot (pos 0) || leb local (size_of_int slot) || ltb (size_of_int slot) owned)
      recv_outside
  check_recvs owned local slots

pub check_side : ℕ → ℕ → ℤ → ℤ → FaceExchangePlan → Result ExchangeError (Unit {0})
check_side owned local rank world side = do
  throw_if (ltb_ℤ side.peer (pos 0) || not (ltb_ℤ side.peer world) || eqb_ℤ side.peer rank)
      invalid_peer
  check_sends owned (negsuc 0) side.send_slots
  check_recvs owned local side.recv_slots

-- `std::sort`.
pub insert_slot : ℤ → List ℤ → List ℤ
insert_slot x [] = x ∷ []
insert_slot x (y ∷ ys) = if ltb_ℤ y x then y ∷ insert_slot x ys else x ∷ y ∷ ys

pub sort_slots : List ℤ → List ℤ
sort_slots [] = []
sort_slots (x ∷ xs) = insert_slot x (sort_slots xs)

-- `std::adjacent_find(…) != end`.
pub has_adjacent : List ℤ → Bool
has_adjacent [] = false
has_adjacent (x ∷ []) = false
has_adjacent (x ∷ y ∷ ys) = eqb_ℤ x y || has_adjacent (y ∷ ys)

pub validate_exchange_plan : ExchangePlan → ℕ → ℕ → ℤ → ℤ → Result ExchangeError (Unit {0})
validate_exchange_plan plan owned local rank world = do
  throw_if (not (ltb_ℤ (pos 1) world)) world_too_small
  throw_if (ltb_ℤ rank (pos 0) || not (ltb_ℤ rank world)) rank_outside
  throw_if (ltb local owned) local_below_owned
  check_side owned local rank world plan.left
  check_side owned local rank world plan.right
  throw_if (eqb_ℤ world (pos 2) && not (peers_share_rank plan)) peers_differ
  throw_if (ltb_ℤ (pos 2) world && peers_share_rank plan) peers_shared
  let seen = plan.left.recv_slots ++ plan.right.recv_slots
  throw_if (has_adjacent (sort_slots seen)) refreshed_twice
  throw_if (not (length seen == local - owned)) not_covered
  ok tt
