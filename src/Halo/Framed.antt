-- ===== src/Halo/Framed.antt =====
-- What the steps of `advance_halo` leave alone until the slot is released, and what is counted then.
use dmg_md.Base.{
  ℕ, ◌*◌, ◌-◌, ◌/◌, ◌^◌, Bool, true, false, ◌&&◌, not, throw_if, ◌≡◌, refl, arith, Holds, >>=-Holds,
  >>-Holds, ok-Holds, err-Holds, if_holds, ◌⊎◌, inl, inr, ltb,
}
use dmg_md.Halo.{
  HaloError, Backend, host_staged, cuda_aware, HaloExchangeState, HaloSlot, Driver, reached,
  not_ready, broken, EventStatus, P2pVolume, stale_token, retains_request, wait_all, test_sends,
  test_receives, synchronize_device, synchronize_event, byte_overflow,
}
use dmg_md.Halo.Volume.{checked_bytes}
use dmg_md.Halo.Begin.{element_sum}
use dmg_md.Halo.Advance.{
  advance_halo, advance_calls, complete_messages, wait_messages, test_messages, queue_unpack,
  queue_calls, ready_target, observe_unpack, query_unpack, wait_unpack, see_receive, see_unpack,
  release, release_calls, released, any_request, messages_complete, is_stale, exchanged_bytes,
  launch_unpack, stage_received, count_exchange,
}

-- The exchange of a generation, not released.
unfoldable pub StaysBusy : ℕ → HaloExchangeState → Type 0
StaysBusy generation state = (state.reusable ≡ false) × (state.generation ≡ generation)

-- A slot that is not released and has what another had to count.
unfoldable pub Frame : HaloSlot → HaloSlot → Type 0
Frame s t =
    (t.volume ≡ s.volume)
    × (t.send_elements ≡ s.send_elements)
    × (t.recv_elements ≡ s.recv_elements)
    × StaysBusy s.state.generation t.state

pub complete_messages-Frame :
    (s : HaloSlot) (wait : Bool) (d : Driver) (t : HaloSlot)
    → Frame s t
    → Holds (Frame s) (complete_messages wait d t)
unfolding Frame StaysBusy complete_messages wait_messages test_messages
complete_messages-Frame s wait d t f =
    if_holds (Holds (Frame s)) (messages_complete t.state) _ _
      (λ c. ok-Holds HaloError (Frame s) t f)
      (λ c.
        if_holds (Holds (Frame s)) wait _ _
          (λ w. >>-Holds (Frame s) (d.call wait_all) _ (ok-Holds HaloError (Frame s) _ f))
          (λ w.
            >>-Holds (Frame s) (d.call test_sends) _
              (>>-Holds (Frame s) (d.call test_receives) _ (ok-Holds HaloError (Frame s) _ f))))

ready_target-Frame :
    (s : HaloSlot) (backend : Backend) (d : Driver) (t : HaloSlot)
    → Frame s t
    → Holds (Frame s) (ready_target backend d t)
unfolding Frame StaysBusy ready_target
ready_target-Frame s cuda_aware d t f =
    >>-Holds (Frame s) (d.call synchronize_device) _ (ok-Holds HaloError (Frame s) _ f)
ready_target-Frame s host_staged d t f =
    >>-Holds (Frame s) (stage_received d (element_sum t.recv_elements)) _
      (ok-Holds HaloError (Frame s) _ f)

pub queue_unpack-Frame :
    (s : HaloSlot) (backend : Backend) (d : Driver) (t : HaloSlot)
    → Frame s t
    → Holds (Frame s) (queue_unpack backend d t)
unfolding Frame StaysBusy queue_unpack queue_calls
queue_unpack-Frame s backend d t f =
    if_holds (Holds (Frame s)) (t.state.receives_complete && not t.unpack_queued) _ _
      (λ due.
        >>=-Holds (Frame s) (Frame s) (ready_target backend d t) _
          (ready_target-Frame s backend d t f)
          (λ ready. λ r.
            >>-Holds (Frame s) (launch_unpack d ready.recv_elements) _
              (ok-Holds HaloError (Frame s) _ r)))
      (λ later. ok-Holds HaloError (Frame s) t f)

see_receive-StaysBusy :
    (generation : ℕ) (status : EventStatus) (state : HaloExchangeState)
    → StaysBusy generation state
    → Holds (StaysBusy generation) (see_receive status state)
unfolding StaysBusy see_receive
see_receive-StaysBusy generation reached state b = ok-Holds HaloError (StaysBusy generation) _ b
see_receive-StaysBusy generation not_ready state b = ok-Holds HaloError (StaysBusy generation) _ b
see_receive-StaysBusy generation (broken e) state b = err-Holds (StaysBusy generation) e

see_unpack-StaysBusy :
    (generation : ℕ) (status : EventStatus) (state : HaloExchangeState)
    → StaysBusy generation state
    → Holds (StaysBusy generation) (see_unpack status state)
unfolding StaysBusy see_unpack
see_unpack-StaysBusy generation reached state b = ok-Holds HaloError (StaysBusy generation) _ b
see_unpack-StaysBusy generation not_ready state b = ok-Holds HaloError (StaysBusy generation) _ b
see_unpack-StaysBusy generation (broken e) state b = err-Holds (StaysBusy generation) e

pub observe_unpack-Frame :
    (s : HaloSlot) (wait : Bool) (d : Driver) (t : HaloSlot)
    → Frame s t
    → Holds (Frame s) (observe_unpack wait d t)
unfolding Frame observe_unpack wait_unpack query_unpack StaysBusy
observe_unpack-Frame s wait d t (v, se, re, (b, g)) =
    if_holds (Holds (Frame s)) (t.unpack_queued && not t.state.unpack_complete) _ _
      (λ due.
        if_holds (Holds (Frame s)) wait _ _
          (λ w.
            >>-Holds (Frame s) (d.call (synchronize_event 3)) _
              (ok-Holds HaloError (Frame s) _ (v, se, re, (b, g))))
          (λ w.
            >>=-Holds (StaysBusy s.state.generation) (Frame s) (see_receive d.receive_event t.state)
              _ (see_receive-StaysBusy s.state.generation d.receive_event t.state (b, g))
              (λ ready. λ r.
                >>=-Holds (StaysBusy s.state.generation) (Frame s) (see_unpack d.unpack_event ready)
                  _ (see_unpack-StaysBusy s.state.generation d.unpack_event ready r)
                  (λ state. λ k. ok-Holds HaloError (Frame s) _ (v, se, re, k)))))
      (λ later. ok-Holds HaloError (Frame s) t (v, se, re, (b, g)))

-- The bytes of an exchange, and the volume after it.
unfoldable pub counted : HaloSlot → P2pVolume
counted s = count_exchange s (element_sum s.send_elements * 8) (element_sum s.recv_elements * 8)

-- Not released and not counted yet, or released and counted once.
unfoldable pub IsCounted : HaloSlot → HaloSlot → Type 0
IsCounted s t =
    Frame s t
    ⊎ ((t.state.reusable ≡ true)
        × (t.volume ≡ counted s)
        × (t.state.generation ≡ s.state.generation))

checked_bytes-value : (n : ℕ) → Holds (λ b. b ≡ n * 8) (checked_bytes n)
unfolding checked_bytes
checked_bytes-value n =
    >>-Holds (λ b. b ≡ n * 8) (throw_if (ltb ((2 ^ 64 - 1) / 8) n) byte_overflow) _
      (ok-Holds HaloError (λ b. b ≡ n * 8) _ refl)

exchanged_bytes-value :
    (t : HaloSlot)
    → Holds
        (λ b. b ≡ (element_sum t.send_elements * 8, element_sum t.recv_elements * 8))
        (exchanged_bytes t)
unfolding exchanged_bytes
exchanged_bytes-value t =
    let P : ℕ × ℕ → Type 0 =
      λ b. b ≡ (element_sum t.send_elements * 8, element_sum t.recv_elements * 8) in
    >>=-Holds (λ b. b ≡ element_sum t.send_elements * 8) P
      (checked_bytes (element_sum t.send_elements)) _
      (checked_bytes-value (element_sum t.send_elements))
      (λ send. λ a.
        >>=-Holds (λ b. b ≡ element_sum t.recv_elements * 8) P
          (checked_bytes (element_sum t.recv_elements)) _
          (checked_bytes-value (element_sum t.recv_elements))
          (λ recv. λ b. ok-Holds HaloError P (send, recv) (cc)))

released-IsCounted :
    (s t : HaloSlot) (bytes : ℕ × ℕ)
    → Frame s t
    → bytes ≡ (element_sum t.send_elements * 8, element_sum t.recv_elements * 8)
    → IsCounted s (released bytes.0 bytes.1 t)
unfolding IsCounted Frame StaysBusy released counted count_exchange
released-IsCounted s t bytes (v, se, re, (b, g)) same = inr (refl, cc, g)

pub framed-IsCounted : (s t : HaloSlot) → Frame s t → IsCounted s t
unfolding IsCounted
framed-IsCounted s t f = inl f

release-IsCounted : (s t : HaloSlot) → Frame s t → Holds (IsCounted s) (release t)
unfolding release release_calls
release-IsCounted s t f =
    if_holds (Holds (IsCounted s)) (messages_complete t.state && t.state.unpack_complete) _ _
      (λ all. >>-Holds (IsCounted s) (throw_if (any_request t.requests) retains_request) _ (
        >>=-Holds _ (IsCounted s) (exchanged_bytes t) _ (exchanged_bytes-value t) (λ bytes.
          λ same. ok-Holds HaloError (IsCounted s) _ (released-IsCounted s t bytes f same))))
      (λ not_all. ok-Holds HaloError (IsCounted s) t (framed-IsCounted s t f))

pub advance_calls-IsCounted :
    (s : HaloSlot) (backend : Backend) (wait : Bool) (d : Driver) (t : HaloSlot)
    → Frame s t
    → Holds (IsCounted s) (advance_calls backend wait d t)
unfolding advance_calls
advance_calls-IsCounted s backend wait d t f =
    >>=-Holds (Frame s) (IsCounted s) (complete_messages wait d t) _
      (complete_messages-Frame s wait d t f)
      (λ arrived. λ a.
        >>=-Holds (Frame s) (IsCounted s) (queue_unpack backend d arrived) _
          (queue_unpack-Frame s backend d arrived a)
          (λ queued. λ q.
            >>=-Holds (Frame s) (IsCounted s) (observe_unpack wait d queued) _
              (observe_unpack-Frame s wait d queued q)
              (λ observed. λ o. release-IsCounted s observed o)))

pub advance_halo-IsCounted :
    (s : HaloSlot) (backend : Backend) (wait : Bool) (token : ℕ) (d : Driver) (t : HaloSlot)
    → IsCounted s t
    → Holds (IsCounted s) (advance_halo backend wait token d t)
unfolding advance_halo IsCounted
advance_halo-IsCounted s backend wait token d t (inl f) =
    >>-Holds (IsCounted s) (throw_if (is_stale token t) stale_token) _ (
      if_holds (Holds (IsCounted s)) t.state.reusable _ _
        (λ free. ok-Holds HaloError (IsCounted s) t (inl f))
        (λ busy. advance_calls-IsCounted s backend wait d t f))
advance_halo-IsCounted s backend wait token d t (inr done) =
    >>-Holds (IsCounted s) (throw_if (is_stale token t) stale_token) _ (
      if_holds (Holds (IsCounted s)) t.state.reusable _ _
        (λ free. ok-Holds HaloError (IsCounted s) t (inr done)) (λ busy. absurd (ground arith)))
