-- ===== src/Halo/Ended.antt =====
-- When the calls of MPI and CUDA succeed, a wait carries an exchange through its phases to the release.
use dmg_md.Base.{
  ℕ, ◌*◌, ◌-◌, ◌/◌, ◌^◌, ◌==◌, Bool, true, false, ◌&&◌, not, Result, ok, ◌>>=◌, ◌>>◌, throw_if, ◌≡◌,
  refl, arith, if_holds, Returns, >>=-Returns, >>-Returns, ok-Returns, Returns-Holds, ap, ◌∙◌,
  Holds-both, the-Returns, leb,
}
use dmg_md.Halo.{
  HaloError, Backend, host_staged, cuda_aware, HaloSlot, Driver, Call, retains_request, wait_all,
  synchronize_event, synchronize_device, record_event, stage_up,
}
use dmg_md.Halo.Volume.{checked_bytes}
use dmg_md.Halo.Begin.{element_sum}
use dmg_md.Halo.Advance.{
  advance_calls, complete_messages, wait_messages, queue_unpack, queue_calls, ready_target,
  observe_unpack, wait_unpack, release, release_calls, released, any_request, messages_complete,
  unpack, exchanged_bytes, launch_unpack, stage_received,
}
use dmg_md.Halo.Flags.{
  MpiLaws, IsInProgress, in_progress, complete_messages-IsInProgress, queue_unpack-IsInProgress,
  observe_unpack-IsInProgress,
}
use dmg_md.Halo.Framed.{
  Frame, StaysBusy, complete_messages-Frame, queue_unpack-Frame, observe_unpack-Frame,
}

Arrived : HaloSlot → Type 0
Arrived t = messages_complete t.state ≡ true

Queued : HaloSlot → Type 0
Queued t = Arrived t × (t.unpack_queued ≡ true)

Done : HaloSlot → Type 0
Done t = Arrived t × (t.state.unpack_complete ≡ true)

unfoldable pub IsFreed : HaloSlot → Type 0
IsFreed t = t.state.reusable ≡ true

-- The bytes of so many doubles are a `std::uint64_t`.
unfoldable pub fits : ℕ → Bool
fits n = leb n ((2 ^ 64 - 1) / 8)

pub fits_same :
    (s t : HaloSlot)
    → Frame s t
    → fits (element_sum s.recv_elements) ≡ true
    → fits (element_sum t.recv_elements) ≡ true
unfolding Frame
fits_same s t (v, se, re, b) h = ap (λ e. fits (element_sum e)) re ∙ h

pub fits_same_sends :
    (s t : HaloSlot)
    → Frame s t
    → fits (element_sum s.send_elements) ≡ true
    → fits (element_sum t.send_elements) ≡ true
unfolding Frame
fits_same_sends s t (v, se, re, b) h = ap (λ e. fits (element_sum e)) se ∙ h

then_ok : {m k : Result HaloError (Unit {0})} → m ≡ ok tt → k ≡ ok tt → (m >> k) ≡ ok tt
then_ok {m} {k} a b = ap (λ r. r >> k) a ∙ b

module _ (d : Driver) (works : (c : Call) → d.call c ≡ ok tt) where
  complete_messages-Arrived : (t : HaloSlot) → Returns Arrived (complete_messages true d t)
  unfolding complete_messages wait_messages Arrived
  complete_messages-Arrived t =
      if_holds (Returns Arrived) (messages_complete t.state) _ _
        (λ c. ok-Returns HaloError Arrived t c)
        (λ c.
          >>-Returns Arrived (d.call wait_all) _ (works wait_all)
            (ok-Returns HaloError Arrived _ refl))

  unpack_returns : (face n : ℕ) → unpack d face n ≡ ok tt
  unfolding unpack
  unpack_returns face n = if_holds (λ r. r ≡ ok tt) (n == 0) _ _ (λ e. refl) (λ e. works _)

  checked_bytes_returns : (n : ℕ) → fits n ≡ true → checked_bytes n ≡ ok (n * 8)
  unfolding checked_bytes fits
  checked_bytes_returns n h = ground arith

  stage_received_returns : (n : ℕ) → fits n ≡ true → stage_received d n ≡ ok tt
  unfolding stage_received
  stage_received_returns n h =
      if_holds (λ r. r ≡ ok tt) (n == 0) _ _ (λ e. refl)
        (λ e.
          ap (λ m. m >>= λ bytes. d.call (stage_up bytes)) (checked_bytes_returns n h)
          ∙ works (stage_up (n * 8)))

  launch_unpack_returns : (elements : ℕ × ℕ) → launch_unpack d elements ≡ ok tt
  unfolding launch_unpack
  launch_unpack_returns elements =
      let a = works (record_event 2) in
      let b = unpack_returns 0 elements.0 in
      let c = unpack_returns 1 elements.1 in
      let e = works (record_event 3) in then_ok a (then_ok b (then_ok c e))

  ready_target-Arrived :
      (backend : Backend) (t : HaloSlot)
      → fits (element_sum t.recv_elements) ≡ true
      → Arrived t
      → Returns Arrived (ready_target backend d t)
  unfolding ready_target Arrived
  ready_target-Arrived cuda_aware t h a =
      >>-Returns Arrived (d.call synchronize_device) _ (works synchronize_device)
        (ok-Returns HaloError Arrived _ a)
  ready_target-Arrived host_staged t h a =
      >>-Returns Arrived (stage_received d (element_sum t.recv_elements)) _
        (stage_received_returns (element_sum t.recv_elements) h) (ok-Returns HaloError Arrived _ a)

  queue_unpack-Queued :
      (backend : Backend) (t : HaloSlot)
      → fits (element_sum t.recv_elements) ≡ true
      → Arrived t
      → Returns Queued (queue_unpack backend d t)
  unfolding queue_unpack queue_calls Queued Arrived
  queue_unpack-Queued backend t h a =
      if_holds (Returns Queued) (t.state.receives_complete && not t.unpack_queued) _ _
        (λ due.
          >>=-Returns Arrived Queued (ready_target backend d t) _
            (ready_target-Arrived backend t h a)
            (λ ready. λ r.
              >>-Returns Queued (launch_unpack d ready.recv_elements) _
                (launch_unpack_returns ready.recv_elements)
                (ok-Returns HaloError Queued _ (r, refl))))
        (λ later. ok-Returns HaloError Queued t (a, ground arith))

  observe_unpack-Done : (t : HaloSlot) → Queued t → Returns Done (observe_unpack true d t)
  unfolding observe_unpack wait_unpack Queued Done Arrived
  observe_unpack-Done t (a, q) =
      if_holds (Returns Done) (t.unpack_queued && not t.state.unpack_complete) _ _
        (λ due.
          >>-Returns Done (d.call (synchronize_event 3)) _ (works (synchronize_event 3))
            (ok-Returns HaloError Done _ (a, refl)))
        (λ later. ok-Returns HaloError Done t (a, ground arith))

  no_request_left : (t : HaloSlot) → IsInProgress t → Arrived t → any_request t.requests ≡ false
  unfolding IsInProgress in_progress Arrived
  no_request_left t p a = ground arith

  exchanged_bytes_returns :
      (t : HaloSlot)
      → fits (element_sum t.send_elements) ≡ true
      → fits (element_sum t.recv_elements) ≡ true
      → exchanged_bytes t ≡ ok (element_sum t.send_elements * 8, element_sum t.recv_elements * 8)
  unfolding exchanged_bytes
  exchanged_bytes_returns t hs hr =
      let send = checked_bytes_returns (element_sum t.send_elements) hs in
      let recv = checked_bytes_returns (element_sum t.recv_elements) hr in cc

  release-IsFreed :
      (t : HaloSlot)
      → fits (element_sum t.send_elements) ≡ true
      → fits (element_sum t.recv_elements) ≡ true
      → IsInProgress t
      → Done t
      → Returns IsFreed (release t)
  unfolding release release_calls Done Arrived IsFreed released
  release-IsFreed t hs hr p (a, u) =
      let no_request : throw_if (any_request t.requests) retains_request ≡ ok tt =
        ap (λ b. throw_if b retains_request) (no_request_left t p a) in
      if_holds (Returns IsFreed) (messages_complete t.state && t.state.unpack_complete) _ _
        (λ all.
          >>-Returns IsFreed (throw_if (any_request t.requests) retains_request) _ no_request (
            >>=-Returns (λ b. Unit {0}) IsFreed (exchanged_bytes t) _
              (the-Returns (exchanged_bytes_returns t hs hr))
              (λ bytes. λ _. ok-Returns HaloError IsFreed _ refl)))
        (λ not_all. absurd (ground arith))

  pub advance_calls-IsFreed :
      (backend : Backend) (t : HaloSlot)
      → MpiLaws d
      → fits (element_sum t.send_elements) ≡ true
      → fits (element_sum t.recv_elements) ≡ true
      → t.state.reusable ≡ false
      → IsInProgress t
      → Returns IsFreed (advance_calls backend true d t)
  unfolding advance_calls Frame StaysBusy Queued Arrived
  advance_calls-IsFreed backend t mpi hs hr busy p =
      let still : Frame t t = (refl, refl, refl, (busy, refl)) in
      let Kept : HaloSlot → Type 0 = λ u. IsInProgress u × Frame t u in
      >>=-Returns (λ u. Arrived u × Kept u) IsFreed (complete_messages true d t) _
        (Returns-Holds Arrived Kept _ (complete_messages-Arrived t) (
          Holds-both IsInProgress (Frame t) _ (complete_messages-IsInProgress true d t mpi p)
            (complete_messages-Frame t true d t still)))
        (λ arrived. λ (a, (pa, fa)).
          >>=-Returns (λ u. Queued u × Kept u) IsFreed (queue_unpack backend d arrived) _
            (Returns-Holds Queued Kept _
              (queue_unpack-Queued backend arrived (fits_same t arrived fa hr) a)
              (Holds-both IsInProgress (Frame t) _ (queue_unpack-IsInProgress backend d arrived pa)
                (queue_unpack-Frame t backend d arrived fa)))
            (λ queued. λ (q, (pq, fq)).
              >>=-Returns (λ u. Done u × Kept u) IsFreed (observe_unpack true d queued) _
                (Returns-Holds Done Kept _ (observe_unpack-Done queued q) (
                  Holds-both IsInProgress (Frame t) _ (observe_unpack-IsInProgress true d queued pq)
                    (observe_unpack-Frame t true d queued fq)))
                (λ observed. λ (o, (po, fo)).
                  release-IsFreed observed (fits_same_sends t observed fo hs)
                    (fits_same t observed fo hr) po o)))
