-- ===== src/Halo/Begin.antt =====
-- `begin_p2p_indexed_device_soa`: the checks, the buffers, the pack and the posting of the messages.
use dmg_md.Base.{
  ℕ, ◌+◌, ◌-◌, ◌*◌, ◌%◌, ◌^◌, ltb, ◌==◌, Bool, true, false, ◌&&◌, ◌||◌, not, Result, ok, ◌>>=◌,
  ◌>>◌, throw_if, if◌then◌else◌,
}
use dmg_md.Base.Int.{ℤ, pos, ltb_ℤ}
use dmg_md.Base.Machine.{size_of_int}
use dmg_md.Halo.{
  HaloError, Backend, host_staged, cuda_aware, HaloExchangeState, idle_state, Buffers, HaloSlot,
  Driver, not_reusable, generation_exhausted, bad_counts, exceeds_shape, create_event, pack_face,
  record_event, synchronize_event, stage_down, synchronize_device, post_send, post_receive,
}
use dmg_md.Halo.Volume.{checked_mpi_count, checked_bytes, reserve, lease_halo, validate_peers}

-- The arguments: for each of the two sends and the two receives the count and whether its list of
-- indices is null, and whether the values are.
pub record HaloFace : Type 0 where
  pub count : ℤ
  pub null_indices : Bool

pub record HaloRequest : Type 0 where
  pub components : ℤ
  pub stride : ℕ
  pub null_values : Bool
  pub send_left : HaloFace
  pub send_right : HaloFace
  pub recv_left : HaloFace
  pub recv_right : HaloFace
  pub left_peer : ℤ
  pub right_peer : ℤ

-- The rank, the world and the backend of the runtime.
pub record World : Type 0 where
  pub rank : ℤ
  pub size : ℤ
  pub backend : Backend

unfoldable pub negative_shape : HaloRequest → Bool
negative_shape q =
    not (ltb_ℤ (pos 0) q.components)
    || ltb_ℤ q.send_left.count (pos 0)
    || ltb_ℤ q.send_right.count (pos 0)
    || ltb_ℤ q.recv_left.count (pos 0)
    || ltb_ℤ q.recv_right.count (pos 0)

unfoldable pub face_exceeds : HaloRequest → HaloFace → Bool
face_exceeds q f =
    ltb q.stride (size_of_int f.count)
    || not (size_of_int f.count == 0) && (f.null_indices || q.null_values)

unfoldable pub shape_exceeds : HaloRequest → Bool
shape_exceeds q =
    face_exceeds q q.send_left
    || face_exceeds q q.send_right
    || face_exceeds q q.recv_left
    || face_exceeds q q.recv_right

-- `std::size_t(count) * components`.
unfoldable pub elements_of : HaloRequest → HaloFace → ℕ
elements_of q f = size_of_int f.count * size_of_int q.components % 2 ^ 64

-- The bytes of one message.
unfoldable pub message_bytes : ℕ → Result HaloError ℕ
message_bytes elements = do
  count ← checked_mpi_count elements
  bytes ← checked_bytes elements
  checked_mpi_count bytes

abbrev pub at_least_one : ℕ → ℕ
at_least_one n = if n == 0 then 1 else n

unfoldable pub reserve_host : Backend → Driver → ℕ → ℕ → Buffers → Result HaloError Buffers
reserve_host cuda_aware d ns nr b = ok b
reserve_host host_staged d ns nr b = do
  send ← reserve d (at_least_one ns) b.host_send
  receive ← reserve d (at_least_one nr) b.host_receive
  ok (record b { host_send = send; host_receive = receive })

unfoldable pub reserve_all : Backend → Driver → ℕ → ℕ → Buffers → Result HaloError Buffers
reserve_all backend d ns nr b = do
  send ← reserve d (at_least_one ns) b.device_send
  receive ← reserve d (at_least_one nr) b.device_receive
  reserve_host backend d ns nr (record b { device_send = send; device_receive = receive })

-- The kernel of a face, which is left out for no elements.
unfoldable pub pack : Driver → ℕ → ℕ → Result HaloError (Unit {0})
pack d face n = if n == 0 then ok tt else d.call (pack_face face n)

-- The copy of the packed values to the host, which is left out for no elements.
unfoldable pub stage_sends : Driver → ℕ → Result HaloError (Unit {0})
stage_sends d n = if n == 0 then ok tt else checked_bytes n >>= λ bytes. d.call (stage_down bytes)

-- What makes the packed values visible to MPI.
unfoldable pub ready_source : Backend → Driver → ℕ → Result HaloError (Unit {0})
ready_source cuda_aware d ns = d.call synchronize_device
ready_source host_staged d ns = do
  stage_sends d ns
  d.call (record_event 1)
  d.call (synchronize_event 1)

unfoldable pub post_all : Driver → HaloRequest → (ℕ × ℕ) × (ℕ × ℕ) → Result HaloError (Unit {0})
post_all d q ((sl, sr), (rl, rr)) = do
  d.call (post_send 0 sl q.left_peer)
  d.call (post_send 1 sr q.right_peer)
  d.call (post_receive 0 rl q.left_peer)
  d.call (post_receive 1 rr q.right_peer)

-- The slot once the shape is known and the sizes are checked.
unfoldable pub fresh_slot : ℕ → HaloRequest → HaloSlot → HaloSlot
fresh_slot generation q s = record s {
  state = record idle_state { generation = generation; reusable = false };
  unpack_queued = false;
  send_elements = (elements_of q q.send_left, elements_of q q.send_right);
  recv_elements = (elements_of q q.recv_left, elements_of q q.recv_right);
}

abbrev pub element_sum : ℕ × ℕ → ℕ
element_sum (a, b) = (a + b) % 2 ^ 64

unfoldable pub in_flight : Buffers → HaloSlot → HaloSlot
in_flight b s = record s {
  state = record s.state { pack_ready = true; send_source_ready = true };
  requests = record {
    send_left = true;
    send_right = true;
    receive_left = true;
    receive_right = true;
  };
  events = true;
  buffers = lease_halo true b;
}

-- The bytes of the four messages.
unfoldable pub message_lengths : HaloSlot → Result HaloError ((ℕ × ℕ) × (ℕ × ℕ))
message_lengths s = do
  sl ← message_bytes s.send_elements.0
  sr ← message_bytes s.send_elements.1
  rl ← message_bytes s.recv_elements.0
  rr ← message_bytes s.recv_elements.1
  ok ((sl, sr), (rl, rr))

-- The events, which a slot creates at its first exchange and keeps.
unfoldable pub create_events : Driver → Bool → Result HaloError (Unit {0})
create_events d true = ok tt
create_events d false = do
  d.call (create_event 0)
  d.call (create_event 1)
  d.call (create_event 2)
  d.call (create_event 3)

-- The events and the kernels that pack the two faces.
unfoldable pub launch_pack : Driver → Bool → ℕ × ℕ → Result HaloError (Unit {0})
launch_pack d created elements = do
  create_events d created
  pack d 0 elements.0
  pack d 1 elements.1
  d.call (record_event 0)

-- From the reservation on.
unfoldable pub post_messages : World → Driver → HaloRequest → HaloSlot → Result HaloError HaloSlot
post_messages w d q s = do
  lengths ← message_lengths s
  buffers ←
      reserve_all w.backend d (element_sum s.send_elements) (element_sum s.recv_elements) s.buffers
  launch_pack d s.events s.send_elements
  ready_source w.backend d (element_sum s.send_elements)
  post_all d q lengths
  ok (in_flight buffers s)

unfoldable pub check_request : World → HaloRequest → Result HaloError (Unit {0})
check_request w q = do
  validate_peers w.size w.rank q.left_peer q.right_peer
  throw_if (negative_shape q) bad_counts
  throw_if (shape_exceeds q) exceeds_shape
  stride ← checked_mpi_count q.stride
  ok tt

unfoldable pub exhausted : ℕ → Bool
exhausted generation = generation == 2 ^ 64 - 1

-- With one rank there is nothing to exchange.
unfoldable pub alone_state : ℕ → HaloExchangeState
alone_state generation = record {
  generation = generation;
  pack_ready = true;
  send_source_ready = true;
  sends_complete = true;
  receives_complete = true;
  receive_gpu_ready = true;
  unpack_complete = true;
  reusable = true;
}

abbrev pub alone : World → Bool
alone w = not (ltb_ℤ (pos 1) w.size)

unfoldable pub begin_calls : World → Driver → HaloRequest → HaloSlot → Result HaloError HaloSlot
begin_calls w d q s = do
  check_request w q
  post_messages w d q (fresh_slot (s.state.generation + 1) q s)

unfoldable pub begin_alone : HaloSlot → HaloSlot
begin_alone s = record s { state = alone_state (s.state.generation + 1); unpack_queued = false }

-- The slot after the call; the token it returns is the generation of the slot.
unfoldable pub begin_halo : World → Driver → HaloRequest → HaloSlot → Result HaloError HaloSlot
begin_halo w d q s = do
  throw_if (not s.state.reusable) not_reusable
  throw_if (exhausted s.state.generation) generation_exhausted
  if alone w then ok (begin_alone s) else begin_calls w d q s
