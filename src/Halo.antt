-- ===== src/Halo.antt =====
-- src/mpi_runtime.cu, the asynchronous exchange of the two faces: `begin_p2p_indexed_device_soa`,
-- `progress_halo` and `finish_halo`. Here its state and the calls it makes of MPI and CUDA.
pub mod Volume
pub mod Begin
pub mod Advance
pub mod Flags
pub mod Begun
pub mod Framed
pub mod Ended
pub mod Finish
pub mod Exchanged
pub mod Kernels
pub mod Threads
pub mod Delivered
use dmg_md.Base.{ℕ, Bool, true, false, Result}
use dmg_md.Base.Int.{ℤ}

-- What the functions throw. The public ones end the run with the message.
pub data HaloError : Type 0 where
  stale_token not_reusable generation_exhausted bad_counts exceeds_shape : HaloError
  not_p2p bad_peer coinciding_peers count_range byte_overflow : HaloError
  buffer_in_flight retains_request : HaloError
  call_failed : ℕ → HaloError

pub data Backend : Type 0 where
  host_staged cuda_aware : Backend

pub record HaloExchangeState : Type 0 where
  pub generation : ℕ
  pub pack_ready : Bool
  pub send_source_ready : Bool
  pub sends_complete : Bool
  pub receives_complete : Bool
  pub receive_gpu_ready : Bool
  pub unpack_complete : Bool
  pub reusable : Bool

-- `HaloExchangeState{}`.
abbrev pub idle_state : HaloExchangeState
idle_state = record {
  generation = 0;
  pack_ready = false;
  send_source_ready = false;
  sends_complete = false;
  receives_complete = false;
  receive_gpu_ready = false;
  unpack_complete = false;
  reusable = true;
}

-- The counters of `CommunicationVolume`, of 64 bits each.
pub record P2pVolume : Type 0 where
  pub p2p_calls : ℕ
  pub halo_send_bytes_local : ℕ
  pub halo_recv_bytes_local : ℕ
  pub migration_send_bytes_local : ℕ
  pub migration_recv_bytes_local : ℕ
  pub control_send_bytes_local : ℕ
  pub control_recv_bytes_local : ℕ

-- `DeviceBuffer` and `PinnedBuffer`: a capacity in doubles, and whether an exchange is using it.
pub record Buffer : Type 0 where
  pub capacity : ℕ
  pub leased : Bool

pub record Buffers : Type 0 where
  pub device_send : Buffer
  pub device_receive : Buffer
  pub host_send : Buffer
  pub host_receive : Buffer

-- Which of the four requests is a handle other than MPI_REQUEST_NULL.
pub record Requests : Type 0 where
  pub send_left : Bool
  pub send_right : Bool
  pub receive_left : Bool
  pub receive_right : Bool

abbrev pub no_requests : Requests
no_requests = record {
  send_left = false;
  send_right = false;
  receive_left = false;
  receive_right = false;
}

-- The slot of the exchange, with what the later calls read of it, and the volume that it counts in.
pub record HaloSlot : Type 0 where
  pub state : HaloExchangeState
  pub requests : Requests
  pub unpack_queued : Bool
  pub send_elements : ℕ × ℕ
  pub recv_elements : ℕ × ℕ
  -- The four events exist.
  pub events : Bool
  pub buffers : Buffers
  pub volume : P2pVolume

-- The calls of MPI and CUDA in an exchange; the counts are doubles or bytes.
pub data Call : Type 0 where
  free_buffer allocate_buffer : ℕ → Call
  create_event : ℕ → Call
  pack_face unpack_face : ℕ → ℕ → Call
  record_event synchronize_event : ℕ → Call
  stage_down stage_up : ℕ → Call
  synchronize_device : Call
  post_send post_receive : ℕ → ℕ → ℤ → Call
  wait_all test_sends test_receives : Call
  query_event : ℕ → Call

-- The answer of a query of an event.
pub data EventStatus : Type 0 where
  reached not_ready : EventStatus
  broken : HaloError → EventStatus

-- What the libraries answer during one call of the runtime: whether each call succeeds, the flags of
-- the two tests for the handles they are given, the handles they leave, and the events.
pub record Driver : Type 0 where
  pub call : Call → Result HaloError (Unit {0})
  pub sends_done : Requests → Bool
  pub receives_done : Requests → Bool
  pub after_wait : Requests → Requests
  pub after_test_sends : Requests → Requests
  pub after_test_receives : Requests → Requests
  pub receive_event : EventStatus
  pub unpack_event : EventStatus
