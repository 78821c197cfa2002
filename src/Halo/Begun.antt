-- ===== src/Halo/Begun.antt =====
-- A call of `begin_p2p_indexed_device_soa` that returns leaves an exchange in progress, or a free slot.
use dmg_md.Halo.Begin.{
  element_sum, begin_halo, begin_calls, begin_alone, post_messages, fresh_slot, in_flight,
  message_lengths, reserve_all, launch_pack, ready_source, post_all, exhausted, alone, alone_state,
  check_request, World, HaloRequest,
}
use dmg_md.Base.{
  ℕ, ◌+◌, Bool, true, false, not, Result, ◌>>◌, throw_if, ◌≡◌, refl, arith, Holds, >>=-Holds,
  >>-Holds, ok-Holds, err-Holds, any-Holds, if_holds,
}
use dmg_md.Halo.{HaloError, HaloSlot, Buffers, Driver, generation_exhausted}
use dmg_md.Halo.Volume.{lease_halo}
use dmg_md.Halo.Flags.{in_progress, is_free, is_sound, IsSound}

-- The slot that posting leaves, from a slot that begins.
in_flight-IsSound :
    (b : Buffers) (generation : ℕ) (q : HaloRequest) (s : HaloSlot)
    → IsSound (in_flight b (fresh_slot generation q s))
unfolding IsSound is_sound in_progress in_flight fresh_slot lease_halo
in_flight-IsSound b generation q s = ground arith

post_messages-IsSound :
    (w : World) (d : Driver) (q : HaloRequest) (generation : ℕ) (s : HaloSlot)
    → Holds IsSound (post_messages w d q (fresh_slot generation q s))
unfolding post_messages
post_messages-IsSound w d q generation s =
    let begun = fresh_slot generation q s in
    let ns = element_sum begun.send_elements in
    let nr = element_sum begun.recv_elements in
    >>=-Holds (λ n. Unit {0}) IsSound (message_lengths begun) _ (any-Holds (message_lengths begun))
      (λ lengths. λ _.
        >>=-Holds (λ n. Unit {0}) IsSound (reserve_all w.backend d ns nr begun.buffers) _
          (any-Holds (reserve_all w.backend d ns nr begun.buffers))
          (λ buffers. λ _. >>-Holds IsSound (launch_pack d begun.events begun.send_elements) _ (
            >>-Holds IsSound (ready_source w.backend d ns) _ (
              >>-Holds IsSound (post_all d q lengths) _
                (ok-Holds HaloError IsSound _ (in_flight-IsSound buffers generation q s))))))

begin_alone-IsSound :
    (s : HaloSlot) → not s.state.reusable ≡ false → IsSound s → IsSound (begin_alone s)
unfolding begin_alone IsSound is_sound is_free in_progress alone_state
begin_alone-IsSound s free h = ground arith

pub throw_if-Holds :
    {A : Type 0} (P : A → Type 0) (bad : Bool) (e : HaloError) (rest : Result HaloError A)
    → (bad ≡ false → Holds P rest)
    → Holds P (throw_if bad e >> rest)
throw_if-Holds P true e rest h = err-Holds P e
throw_if-Holds P false e rest h = h refl

pub begin_halo-IsSound :
    (w : World) (d : Driver) (q : HaloRequest) (s : HaloSlot)
    → IsSound s
    → Holds IsSound (begin_halo w d q s)
unfolding begin_halo begin_calls
begin_halo-IsSound w d q s h = throw_if-Holds IsSound (not s.state.reusable) _ _ (λ free.
    >>-Holds IsSound (throw_if (exhausted s.state.generation) generation_exhausted) _ (
      if_holds (Holds IsSound) (alone w) _ _
        (λ one. ok-Holds HaloError IsSound _ (begin_alone-IsSound s free h))
        (λ many.
          >>-Holds IsSound (check_request w q) _
            (post_messages-IsSound w d q (s.state.generation + 1) s))))
