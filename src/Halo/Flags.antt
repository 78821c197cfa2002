-- ===== src/Halo/Flags.antt =====
-- The flags of the slot, before and after each call.
use dmg_md.Halo.Begin.{element_sum}
use dmg_md.Base.{
  ℕ, Bool, true, false, ◌&&◌, ◌||◌, not, throw_if, ◌≡◌, arith, Holds, >>=-Holds, >>-Holds, ok-Holds,
  err-Holds, any-Holds, if_holds,
}
use dmg_md.Halo.{
  HaloError, Backend, host_staged, cuda_aware, HaloExchangeState, Requests, HaloSlot, Buffers,
  Driver, reached, not_ready, broken, EventStatus, retains_request, stale_token,
}
use dmg_md.Halo.Volume.{lease_halo}
use dmg_md.Halo.Advance.{
  advance_halo, advance_calls, complete_messages, wait_messages, test_messages, queue_unpack,
  queue_calls, ready_target, observe_unpack, query_unpack, wait_unpack, see_receive, see_unpack,
  release, release_calls, released, any_request, messages_complete, unpacked, is_stale,
  stage_received, launch_unpack, exchanged_bytes,
}

abbrev pub open_sends : Requests → Bool
open_sends r = r.send_left || r.send_right

abbrev pub open_receives : Requests → Bool
open_receives r = r.receive_left || r.receive_right

-- What MPI documents of its handles: a wait for all leaves none; a test that is done leaves none of the
-- handles it was given, changes no other, and is done where it was given none.
pub record MpiLaws (d : Driver) : Type 0 where
  pub wait_clears : (r : Requests) → any_request (d.after_wait r) ≡ false
  pub sends_clear :
      (r : Requests) → d.sends_done r ≡ true → open_sends (d.after_test_sends r) ≡ false
  pub sends_apart : (r : Requests) → open_receives (d.after_test_sends r) ≡ open_receives r
  pub receives_clear :
      (r : Requests) → d.receives_done r ≡ true → open_receives (d.after_test_receives r) ≡ false
  pub receives_apart : (r : Requests) → open_sends (d.after_test_receives r) ≡ open_sends r
  pub no_sends : (r : Requests) → open_sends r ≡ false → d.sends_done r ≡ true
  pub no_receives : (r : Requests) → open_receives r ≡ false → d.receives_done r ≡ true

abbrev pub implies : Bool → Bool → Bool
implies a b = not a || b

abbrev pub all_leased : Buffers → Bool
all_leased b =
    b.device_send.leased && b.device_receive.leased && b.host_send.leased && b.host_receive.leased

abbrev pub any_leased : Buffers → Bool
any_leased b =
    b.device_send.leased || b.device_receive.leased || b.host_send.leased || b.host_receive.leased

-- An exchange that has been posted and not released: its buffers are leased; a side of the messages is
-- complete only without its requests; the unpack is queued only after the receives, and has only run
-- where it was queued and the values were on the device.
unfoldable pub in_progress : HaloSlot → Bool
in_progress s =
    not s.state.reusable
    && s.state.pack_ready
    && s.state.send_source_ready
    && all_leased s.buffers
    && implies s.state.sends_complete (not (open_sends s.requests))
    && implies s.state.receives_complete (not (open_receives s.requests))
    && implies s.unpack_queued s.state.receives_complete
    && implies s.state.receive_gpu_ready s.unpack_queued
    && implies s.state.unpack_complete (s.unpack_queued && s.state.receive_gpu_ready)

-- A slot that may begin an exchange: no buffer is leased, and no request is open.
unfoldable pub is_free : HaloSlot → Bool
is_free s = s.state.reusable && not (any_leased s.buffers) && not (any_request s.requests)

unfoldable pub IsInProgress : HaloSlot → Type 0
IsInProgress s = in_progress s ≡ true

wait_messages-IsInProgress :
    (d : Driver) (s : HaloSlot)
    → MpiLaws d
    → in_progress s ≡ true
    → Holds IsInProgress (wait_messages d s)
unfolding wait_messages in_progress IsInProgress
wait_messages-IsInProgress d s mpi h =
    let clear = mpi.wait_clears s.requests in
    >>-Holds IsInProgress _ _ (ok-Holds HaloError IsInProgress _ (ground arith))

test_messages-IsInProgress :
    (d : Driver) (s : HaloSlot)
    → MpiLaws d
    → in_progress s ≡ true
    → Holds IsInProgress (test_messages d s)
unfolding test_messages in_progress IsInProgress
test_messages-IsInProgress d s mpi h =
    let tested = d.after_test_sends s.requests in
    let a = mpi.sends_clear s.requests in
    let b = mpi.sends_apart s.requests in
    let c = mpi.receives_clear tested in
    let e = mpi.receives_apart tested in
    let f = mpi.no_receives tested in
    >>-Holds IsInProgress _ _
      (>>-Holds IsInProgress _ _ (ok-Holds HaloError IsInProgress _ (ground arith)))

pub complete_messages-IsInProgress :
    (wait : Bool) (d : Driver) (s : HaloSlot)
    → MpiLaws d
    → IsInProgress s
    → Holds IsInProgress (complete_messages wait d s)
unfolding complete_messages IsInProgress
complete_messages-IsInProgress wait d s mpi h =
    if_holds (Holds IsInProgress) (messages_complete s.state) _ _
      (λ c. ok-Holds HaloError IsInProgress s h)
      (λ c.
        if_holds (Holds IsInProgress) wait _ _ (λ w. wait_messages-IsInProgress d s mpi h)
          (λ w. test_messages-IsInProgress d s mpi h))

-- The slot with some more values on the device, while the unpack is being queued.
IsReceived : HaloSlot → Type 0
IsReceived s = (in_progress (record s { unpack_queued = true }) ≡ true)

ready_target-IsReceived :
    (backend : Backend) (d : Driver) (s : HaloSlot)
    → (s.state.receives_complete && not s.unpack_queued) ≡ true
    → IsInProgress s
    → Holds IsReceived (ready_target backend d s)
unfolding ready_target IsReceived IsInProgress in_progress
ready_target-IsReceived cuda_aware d s due h =
    >>-Holds IsReceived _ _ (ok-Holds HaloError IsReceived _ (ground arith))
ready_target-IsReceived host_staged d s due h =
    >>-Holds IsReceived (stage_received d (element_sum s.recv_elements)) _
      (ok-Holds HaloError IsReceived _ (ground arith))

pub queue_unpack-IsInProgress :
    (backend : Backend) (d : Driver) (s : HaloSlot)
    → IsInProgress s
    → Holds IsInProgress (queue_unpack backend d s)
unfolding queue_unpack queue_calls IsReceived IsInProgress
queue_unpack-IsInProgress backend d s h =
    if_holds (Holds IsInProgress) (s.state.receives_complete && not s.unpack_queued) _ _
      (λ due.
        >>=-Holds IsReceived IsInProgress (ready_target backend d s) _
          (ready_target-IsReceived backend d s due h)
          (λ ready. λ r.
            >>-Holds IsInProgress (launch_unpack d ready.recv_elements) _
              (ok-Holds HaloError IsInProgress _ r)))
      (λ later. ok-Holds HaloError IsInProgress s h)

-- The slot with another state.
IsQueuedState : HaloSlot → HaloExchangeState → Type 0
IsQueuedState s state = (in_progress (record s { state = state }) ≡ true)

see_receive-IsQueuedState :
    (status : EventStatus) (s : HaloSlot)
    → s.unpack_queued ≡ true
    → IsInProgress s
    → Holds (IsQueuedState s) (see_receive status s.state)
unfolding see_receive IsQueuedState IsInProgress in_progress
see_receive-IsQueuedState reached s q h = ok-Holds HaloError (IsQueuedState s) _ (ground arith)
see_receive-IsQueuedState not_ready s q h = ok-Holds HaloError (IsQueuedState s) _ (ground arith)
see_receive-IsQueuedState (broken e) s q h = err-Holds (IsQueuedState s) e

see_unpack-IsQueuedState :
    (status : EventStatus) (s : HaloSlot) (state : HaloExchangeState)
    → s.unpack_queued ≡ true
    → IsQueuedState s state
    → Holds (IsQueuedState s) (see_unpack status state)
unfolding see_unpack IsQueuedState in_progress
see_unpack-IsQueuedState reached s state q h = ok-Holds HaloError (IsQueuedState s) _ (ground arith)
see_unpack-IsQueuedState not_ready s state q h =
    ok-Holds HaloError (IsQueuedState s) _ (ground arith)
see_unpack-IsQueuedState (broken e) s state q h = err-Holds (IsQueuedState s) e

unpacked-IsInProgress :
    (s : HaloSlot)
    → s.unpack_queued ≡ true
    → IsInProgress s
    → IsInProgress (record s { state = unpacked s.state })
unfolding IsInProgress in_progress
unpacked-IsInProgress s q h = ground arith

pub observe_unpack-IsInProgress :
    (wait : Bool) (d : Driver) (s : HaloSlot)
    → IsInProgress s
    → Holds IsInProgress (observe_unpack wait d s)
unfolding observe_unpack wait_unpack query_unpack IsQueuedState IsInProgress
observe_unpack-IsInProgress wait d s h =
    if_holds (Holds IsInProgress) (s.unpack_queued && not s.state.unpack_complete) _ _
      (λ due.
        let queued : s.unpack_queued ≡ true = ground arith in
        if_holds (Holds IsInProgress) wait _ _
          (λ w.
            >>-Holds IsInProgress _ _
              (ok-Holds HaloError IsInProgress _ (unpacked-IsInProgress s queued h)))
          (λ w.
            >>=-Holds (IsQueuedState s) IsInProgress _ _
              (see_receive-IsQueuedState d.receive_event s queued h)
              (λ ready. λ r.
                >>=-Holds (IsQueuedState s) IsInProgress _ _
                  (see_unpack-IsQueuedState d.unpack_event s ready queued r)
                  (λ state. λ t. ok-Holds HaloError IsInProgress _ t))))
      (λ later. ok-Holds HaloError IsInProgress s h)

-- A slot between the calls of the runtime.
unfoldable pub is_sound : HaloSlot → Bool
is_sound s = is_free s || in_progress s

unfoldable pub IsSound : HaloSlot → Type 0
IsSound s = is_sound s ≡ true

pub released-IsSound :
    (send recv : ℕ) (s : HaloSlot)
    → (messages_complete s.state && s.state.unpack_complete) ≡ true
    → IsInProgress s
    → IsSound (released send recv s)
unfolding IsSound is_sound is_free released lease_halo IsInProgress in_progress
released-IsSound send recv s all h = ground arith

pub in_progress-IsSound : (s : HaloSlot) → IsInProgress s → IsSound s
unfolding IsSound is_sound IsInProgress
in_progress-IsSound s h = ground arith

release-IsSound : (s : HaloSlot) → IsInProgress s → Holds IsSound (release s)
unfolding release release_calls
release-IsSound s h =
    if_holds (Holds IsSound) (messages_complete s.state && s.state.unpack_complete) _ _
      (λ all. >>-Holds IsSound (throw_if (any_request s.requests) retains_request) _ (
        >>=-Holds (λ n. Unit {0}) IsSound (exchanged_bytes s) _ (any-Holds (exchanged_bytes s))
          (λ bytes. λ _. ok-Holds HaloError IsSound _ (released-IsSound bytes.0 bytes.1 s all h))))
      (λ not_all. ok-Holds HaloError IsSound s (in_progress-IsSound s h))

advance_calls-IsSound :
    (backend : Backend) (wait : Bool) (d : Driver) (s : HaloSlot)
    → MpiLaws d
    → IsInProgress s
    → Holds IsSound (advance_calls backend wait d s)
unfolding advance_calls
advance_calls-IsSound backend wait d s mpi h =
    >>=-Holds IsInProgress IsSound (complete_messages wait d s) _
      (complete_messages-IsInProgress wait d s mpi h)
      (λ arrived. λ a.
        >>=-Holds IsInProgress IsSound (queue_unpack backend d arrived) _
          (queue_unpack-IsInProgress backend d arrived a)
          (λ queued. λ q.
            >>=-Holds IsInProgress IsSound (observe_unpack wait d queued) _
              (observe_unpack-IsInProgress wait d queued q)
              (λ observed. λ o. release-IsSound observed o)))

pub busy-IsInProgress : (s : HaloSlot) → s.state.reusable ≡ false → IsSound s → IsInProgress s
unfolding IsSound is_sound is_free IsInProgress
busy-IsInProgress s busy h = ground arith

pub advance_halo-IsSound :
    (backend : Backend) (wait : Bool) (token : ℕ) (d : Driver) (s : HaloSlot)
    → MpiLaws d
    → IsSound s
    → Holds IsSound (advance_halo backend wait token d s)
unfolding advance_halo
advance_halo-IsSound backend wait token d s mpi h =
    >>-Holds IsSound (throw_if (is_stale token s) stale_token) _ (
      if_holds (Holds IsSound) s.state.reusable _ _ (λ free. ok-Holds HaloError IsSound s h)
        (λ busy. advance_calls-IsSound backend wait d s mpi (busy-IsInProgress s busy h)))
