-- ===== src/Halo/Finish.antt =====
-- What the calls promise: the order of the phases, and the end of an exchange.
use dmg_md.Base.{
  ℕ, true, false, List, [], ◌∷◌, Result, ok, ◌>>=◌, throw_if, ◌≡◌, refl, arith, Holds, >>=-Holds,
  ok-Holds, if_holds, Returns, >>-Returns, ok-Returns, Returns-Holds, Holds-ok, inl, inr, ap, ◌∙◌,
  Holds-both, Returns-map,
}
use dmg_md.Halo.{HaloError, Backend, HaloSlot, Driver, Call, stale_token}
use dmg_md.Halo.Begin.{element_sum, World, HaloRequest, begin_halo}
use dmg_md.Halo.Advance.{advance_halo, is_stale, finish_halo, progress_halo}
use dmg_md.Halo.Flags.{
  MpiLaws, IsSound, IsInProgress, is_free, in_progress, busy-IsInProgress, advance_halo-IsSound,
  is_sound, in_progress-IsSound,
}
use dmg_md.Halo.Framed.{Frame, IsCounted, counted, StaysBusy, advance_halo-IsCounted}
use dmg_md.Halo.Ended.{IsFreed, fits, fits_same, fits_same_sends, advance_calls-IsFreed}
use dmg_md.Halo.Begun.{begin_halo-IsSound}

-- A driver that keeps to the documentation of MPI.
abbrev pub LawfulDriver : Type 0
LawfulDriver = (d : Driver) × MpiLaws d

-- The public calls on the slot.
pub data HaloOp : Type 0 where
  begin_op : World → HaloRequest → HaloOp
  progress_op finish_op : Backend → ℕ → HaloOp

unfoldable pub run_op : HaloOp → Driver → HaloSlot → Result HaloError HaloSlot
run_op (begin_op w q) d s = begin_halo w d q s
run_op (progress_op backend token) d s = progress_halo backend token d s
run_op (finish_op backend token) d s = finish_halo backend token d s

-- The calls in their order, each with what the libraries answer.
unfoldable pub run_ops : List (HaloOp × LawfulDriver) → HaloSlot → Result HaloError HaloSlot
run_ops [] s = ok s
run_ops ((op, d) ∷ ops) s = do next ← run_op op d.0 s; run_ops ops next

run_op-IsSound :
    (op : HaloOp) (d : LawfulDriver) (s : HaloSlot) → IsSound s → Holds IsSound (run_op op d.0 s)
unfolding run_op
run_op-IsSound (begin_op w q) d s h = begin_halo-IsSound w d.0 q s h
run_op-IsSound (progress_op backend token) d s h =
    advance_halo-IsSound backend false token d.0 s d.1 h
run_op-IsSound (finish_op backend token) d s h = advance_halo-IsSound backend true token d.0 s d.1 h

-- Whatever calls are made in whatever order, with answers of MPI that keep to its documentation, a slot
-- that is free or in progress at first is so after every call that returns: in progress, its buffers
-- are leased, and the flags come in the order of the phases; free, no buffer is leased and no request
-- is open.
pub run_ops-IsSound :
    (ops : List (HaloOp × LawfulDriver)) (s : HaloSlot) → IsSound s → Holds IsSound (run_ops ops s)
unfolding run_ops
run_ops-IsSound [] s h = ok-Holds HaloError IsSound s h
run_ops-IsSound ((op, d) ∷ ops) s h =
    >>=-Holds IsSound IsSound (run_op op d.0 s) (run_ops ops) (run_op-IsSound op d s h)
      (λ next. λ n. run_ops-IsSound ops next n)

-- The calls of `progress_halo` while other work is done.
unfoldable pub poll_all : Backend → ℕ → List LawfulDriver → HaloSlot → Result HaloError HaloSlot
poll_all backend token [] s = ok s
poll_all backend token (d ∷ ds) s = do
  next ← progress_halo backend token d.0 s
  poll_all backend token ds next

IsPolled : HaloSlot → HaloSlot → Type 0
IsPolled s t = IsSound t × IsCounted s t

poll_all-IsPolled :
    (s : HaloSlot) (backend : Backend) (token : ℕ) (ds : List LawfulDriver) (t : HaloSlot)
    → IsPolled s t
    → Holds (IsPolled s) (poll_all backend token ds t)
unfolding poll_all IsPolled
poll_all-IsPolled s backend token [] t h = ok-Holds HaloError (IsPolled s) t h
poll_all-IsPolled s backend token (d ∷ ds) t (sound, once) =
    >>=-Holds (IsPolled s) (IsPolled s) (progress_halo backend token d.0 t)
      (poll_all backend token ds)
      (Holds-both IsSound (IsCounted s) _ (advance_halo-IsSound backend false token d.0 t d.1 sound)
        (advance_halo-IsCounted s backend false token d.0 t once))
      (λ next. λ n. poll_all-IsPolled s backend token ds next n)

busy_framed : (s t : HaloSlot) → t.state.reusable ≡ false → IsCounted s t → Frame s t
unfolding IsCounted
busy_framed s t busy (inl f) = f
busy_framed s t busy (inr (free, c, g)) = absurd (ground arith)

same_stale : (s t : HaloSlot) (token : ℕ) → IsCounted s t → is_stale token t ≡ is_stale token s
unfolding IsCounted Frame StaysBusy is_stale
same_stale s t token (inl (v, se, re, (b, g))) = cc
same_stale s t token (inr (free, c, g)) = cc

freed_counted :
    (s u : HaloSlot)
    → IsFreed u × (IsSound u × IsCounted s u)
    → (is_free u ≡ true) × (u.volume ≡ counted s)
unfolding IsFreed IsSound is_sound is_free in_progress IsCounted Frame StaysBusy
freed_counted s u (free, (sound, inl (v, se, re, (b, g)))) = absurd (ground arith)
freed_counted s u (free, (sound, inr (f, c, g))) = (ground arith, c)

still_framed : (s : HaloSlot) → IsInProgress s → Frame s s
unfolding Frame StaysBusy IsInProgress in_progress
still_framed s p = (refl, refl, refl, (ground arith, refl))

module _ (d : Driver) (works : (c : Call) → d.call c ≡ ok tt) where
  advance_halo-IsFreed :
      (backend : Backend) (token : ℕ) (s t : HaloSlot)
      → MpiLaws d
      → is_stale token s ≡ false
      → fits (element_sum s.send_elements) ≡ true
      → fits (element_sum s.recv_elements) ≡ true
      → IsSound t
      → IsCounted s t
      → Returns IsFreed (finish_halo backend token d t)
  unfolding advance_halo IsFreed
  advance_halo-IsFreed backend token s t mpi live hs hr sound once =
      let fresh : throw_if (is_stale token t) stale_token ≡ ok tt =
        ap (λ b. throw_if b stale_token) (same_stale s t token once ∙ live) in
      >>-Returns IsFreed (throw_if (is_stale token t) stale_token) _ fresh (
        if_holds (Returns IsFreed) t.state.reusable _ _
          (λ free. ok-Returns HaloError IsFreed t free)
          (λ busy.
            let f = busy_framed s t busy once in
            advance_calls-IsFreed d works backend t mpi (fits_same_sends s t f hs)
              (fits_same s t f hr) busy (busy-IsInProgress t busy sound)))

  -- An exchange that is in progress and whose bytes fit in 64 bits ends at `finish_halo`, after any
  -- number of `progress_halo` with its token, when MPI keeps to its documentation and the calls of
  -- `finish_halo` succeed: the call returns, no buffer is leased and no request open then, and the
  -- messages and bytes of the exchange are counted once.
  pub finish_halo-counted :
      (mpi : MpiLaws d) (backend : Backend) (token : ℕ) (ds : List LawfulDriver) (s t : HaloSlot)
      → IsInProgress s
      → is_stale token s ≡ false
      → fits (element_sum s.send_elements) ≡ true
      → fits (element_sum s.recv_elements) ≡ true
      → poll_all backend token ds s ≡ ok t
      → Returns (λ u. (is_free u ≡ true) × (u.volume ≡ counted s)) (finish_halo backend token d t)
  unfolding IsPolled IsCounted
  finish_halo-counted mpi backend token ds s t p live hs hr polled =
      let start : IsPolled s s = (in_progress-IsSound s p, inl (still_framed s p)) in
      let (sound, once) =
        Holds-ok (IsPolled s) _ polled (poll_all-IsPolled s backend token ds s start) in
      let both =
        Holds-both IsSound (IsCounted s) _ (advance_halo-IsSound backend true token d t mpi sound)
          (advance_halo-IsCounted s backend true token d t once) in
      Returns-map (λ u. IsFreed u × (IsSound u × IsCounted s u)) _ _ (λ u. freed_counted s u)
        (Returns-Holds IsFreed (λ u. IsSound u × IsCounted s u) _
          (advance_halo-IsFreed backend token s t mpi live hs hr sound once) both)
