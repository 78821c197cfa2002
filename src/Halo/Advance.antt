-- ===== src/Halo/Advance.antt =====
-- `advance_halo`, which `progress_halo` and `finish_halo` call, and `halo_state`.
use dmg_md.Base.{
  ℕ, ◌==◌, Bool, true, false, ◌&&◌, ◌||◌, not, Result, ok, err, ◌>>=◌, ◌>>◌, throw_if,
  if◌then◌else◌,
}
use dmg_md.Halo.{
  HaloError, Backend, host_staged, cuda_aware, HaloExchangeState, P2pVolume, Requests, HaloSlot,
  Driver, EventStatus, reached, not_ready, broken, stale_token, retains_request, record_event,
  synchronize_event, stage_up, synchronize_device, wait_all, test_sends, test_receives, unpack_face,
}
use dmg_md.Halo.Volume.{checked_bytes, add_p2p_bytes, add_calls, lease_halo, halo}
use dmg_md.Halo.Begin.{element_sum}

abbrev set_state : HaloExchangeState → HaloSlot → HaloSlot
set_state state s = record s { state = state }

abbrev completed : Bool → Bool → HaloExchangeState → HaloExchangeState
completed sends receives state = record state {
  sends_complete = sends;
  receives_complete = receives;
}

unfoldable pub wait_messages : Driver → HaloSlot → Result HaloError HaloSlot
wait_messages d s = do
  d.call wait_all
  ok (record s { state = completed true true s.state; requests = d.after_wait s.requests })

unfoldable pub test_messages : Driver → HaloSlot → Result HaloError HaloSlot
test_messages d s = do
  d.call test_sends
  d.call test_receives
  let tested = d.after_test_sends s.requests in
      ok (record s {
        state = completed (d.sends_done s.requests) (d.receives_done tested) s.state;
        requests = d.after_test_receives tested;
      })

abbrev pub messages_complete : HaloExchangeState → Bool
messages_complete state = state.sends_complete && state.receives_complete

unfoldable pub complete_messages : Bool → Driver → HaloSlot → Result HaloError HaloSlot
complete_messages wait d s =
    if messages_complete s.state
    then ok s
    else if wait
    then wait_messages d s
    else test_messages d s

abbrev pub gpu_ready : HaloExchangeState → HaloExchangeState
gpu_ready state = record state { receive_gpu_ready = true }

-- The copy of the received values to the device, which is left out for no elements.
unfoldable pub stage_received : Driver → ℕ → Result HaloError (Unit {0})
stage_received d n = if n == 0 then ok tt else checked_bytes n >>= λ bytes. d.call (stage_up bytes)

-- What brings the received values to the device.
unfoldable pub ready_target : Backend → Driver → HaloSlot → Result HaloError HaloSlot
ready_target cuda_aware d s = do d.call synchronize_device; ok (set_state (gpu_ready s.state) s)
ready_target host_staged d s = do stage_received d (element_sum s.recv_elements); ok s

unfoldable pub unpack : Driver → ℕ → ℕ → Result HaloError (Unit {0})
unpack d face n = if n == 0 then ok tt else d.call (unpack_face face n)

-- The events around the kernels of the two faces.
unfoldable pub launch_unpack : Driver → ℕ × ℕ → Result HaloError (Unit {0})
launch_unpack d elements = do
  d.call (record_event 2)
  unpack d 0 elements.0
  unpack d 1 elements.1
  d.call (record_event 3)

unfoldable pub queue_calls : Backend → Driver → HaloSlot → Result HaloError HaloSlot
queue_calls backend d s = do
  ready ← ready_target backend d s
  launch_unpack d ready.recv_elements
  ok (record ready { unpack_queued = true })

unfoldable pub queue_unpack : Backend → Driver → HaloSlot → Result HaloError HaloSlot
queue_unpack backend d s =
    if s.state.receives_complete && not s.unpack_queued then queue_calls backend d s else ok s

abbrev pub unpacked : HaloExchangeState → HaloExchangeState
unpacked state = record state { receive_gpu_ready = true; unpack_complete = true }

unfoldable pub see_receive : EventStatus → HaloExchangeState → Result HaloError HaloExchangeState
see_receive reached state = ok (gpu_ready state)
see_receive not_ready state = ok state
see_receive (broken e) state = err e

unfoldable pub see_unpack : EventStatus → HaloExchangeState → Result HaloError HaloExchangeState
see_unpack reached state = ok (unpacked state)
see_unpack not_ready state = ok state
see_unpack (broken e) state = err e

unfoldable pub query_unpack : Driver → HaloSlot → Result HaloError HaloSlot
query_unpack d s = do
  ready ← see_receive d.receive_event s.state
  state ← see_unpack d.unpack_event ready
  ok (set_state state s)

unfoldable pub wait_unpack : Driver → HaloSlot → Result HaloError HaloSlot
wait_unpack d s = do d.call (synchronize_event 3); ok (set_state (unpacked s.state) s)

unfoldable pub observe_unpack : Bool → Driver → HaloSlot → Result HaloError HaloSlot
observe_unpack wait d s =
    if s.unpack_queued && not s.state.unpack_complete
    then (if wait then wait_unpack d s else query_unpack d s)
    else ok s

abbrev pub any_request : Requests → Bool
any_request r = r.send_left || r.send_right || r.receive_left || r.receive_right

-- The volume with the exchange counted.
unfoldable pub count_exchange : HaloSlot → ℕ → ℕ → P2pVolume
count_exchange s send recv = add_p2p_bytes halo send recv (add_calls 4 s.volume)

unfoldable pub released : ℕ → ℕ → HaloSlot → HaloSlot
released send recv s = record s {
  state = record s.state { reusable = true };
  buffers = lease_halo false s.buffers;
  volume = count_exchange s send recv;
}

-- The bytes of the sends and of the receives.
unfoldable pub exchanged_bytes : HaloSlot → Result HaloError (ℕ × ℕ)
exchanged_bytes s = do
  send ← checked_bytes (element_sum s.send_elements)
  recv ← checked_bytes (element_sum s.recv_elements)
  ok (send, recv)

unfoldable pub release_calls : HaloSlot → Result HaloError HaloSlot
release_calls s = do
  throw_if (any_request s.requests) retains_request
  bytes ← exchanged_bytes s
  ok (released bytes.0 bytes.1 s)

unfoldable pub release : HaloSlot → Result HaloError HaloSlot
release s = if messages_complete s.state && s.state.unpack_complete then release_calls s else ok s

unfoldable pub is_stale : ℕ → HaloSlot → Bool
is_stale token s = token == 0 || not (token == s.state.generation)

-- The part of `advance_halo` for an exchange that is not finished.
unfoldable pub advance_calls : Backend → Bool → Driver → HaloSlot → Result HaloError HaloSlot
advance_calls backend wait d s = do
  arrived ← complete_messages wait d s
  queued ← queue_unpack backend d arrived
  observed ← observe_unpack wait d queued
  release observed

-- The slot after the call; the state it returns is the slot's.
unfoldable pub advance_halo : Backend → Bool → ℕ → Driver → HaloSlot → Result HaloError HaloSlot
advance_halo backend wait token d s = do
  throw_if (is_stale token s) stale_token
  if s.state.reusable then ok s else advance_calls backend wait d s

unfoldable pub halo_state : ℕ → HaloSlot → Result HaloError HaloExchangeState
halo_state token s = do throw_if (is_stale token s) stale_token; ok s.state

abbrev pub progress_halo : Backend → ℕ → Driver → HaloSlot → Result HaloError HaloSlot
progress_halo backend token d s = advance_halo backend false token d s

abbrev pub finish_halo : Backend → ℕ → Driver → HaloSlot → Result HaloError HaloSlot
finish_halo backend token d s = advance_halo backend true token d s
