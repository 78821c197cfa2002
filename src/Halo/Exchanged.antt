-- ===== src/Halo/Exchanged.antt =====
-- An exchange from `begin_p2p_indexed_device_soa` to `finish_halo`.
use dmg_md.Base.{
  ℕ, ◌+◌, ◌*◌, ◌-◌, ◌^◌, ltb, true, false, not, List, ok, ◌>>=◌, throw_if, ◌≡◌, refl, arith, ◌∙◌,
  Holds, >>=-Holds, >>-Holds, ok-Holds, any-Holds, Holds-ok, if_holds, Returns, Returns-map,
  Holds-const, ◌%◌,
}
use dmg_md.Halo.{
  HaloError, HaloSlot, Driver, Call, Buffers, generation_exhausted, not_reusable, count_range,
  P2pVolume,
}
use dmg_md.Halo.Volume.{
  checked_mpi_count, checked_bytes, add_p2p_bytes, add_calls, lease_halo, add_64,
}
use dmg_md.Halo.Begin.{
  World, HaloRequest, begin_halo, begin_calls, post_messages, message_bytes, message_lengths,
  element_sum, elements_of, fresh_slot, in_flight, reserve_all, launch_pack, ready_source, post_all,
  check_request, exhausted, alone,
}
use dmg_md.Halo.Advance.{finish_halo, is_stale, count_exchange}
use dmg_md.Halo.Flags.{MpiLaws, IsInProgress, in_progress, is_free}
use dmg_md.Halo.Begun.{throw_if-Holds}
use dmg_md.Halo.Framed.{counted}
use dmg_md.Halo.Ended.{fits}
use dmg_md.Halo.Finish.{LawfulDriver, poll_all, finish_halo-counted}

-- The doubles that a request sends and receives.
unfoldable pub sent_doubles : HaloRequest → ℕ
sent_doubles q = element_sum (elements_of q q.send_left, elements_of q q.send_right)

unfoldable pub received_doubles : HaloRequest → ℕ
received_doubles q = element_sum (elements_of q q.recv_left, elements_of q q.recv_right)

abbrev IsSmall : ℕ → Type 0
IsSmall n = ltb (2 ^ 31 - 1) n ≡ false

message_bytes-IsSmall : (n : ℕ) → Holds (λ b. IsSmall n) (message_bytes n)
unfolding message_bytes checked_mpi_count
message_bytes-IsSmall n =
    let P : ℕ → Type 0 = λ b. IsSmall n in
    >>=-Holds P P (checked_mpi_count n) _
      (throw_if-Holds P (ltb (2 ^ 31 - 1) n) count_range (ok n) (λ h. ok-Holds HaloError P n h))
      (λ count.
        λ h. Holds-const (IsSmall n) (checked_bytes n >>= λ bytes. checked_mpi_count bytes) h)

-- All four messages are small.
FourSmall : HaloSlot → Type 0
FourSmall s =
    IsSmall s.send_elements.0
    × IsSmall s.send_elements.1
    × IsSmall s.recv_elements.0
    × IsSmall s.recv_elements.1

message_lengths-FourSmall : (s : HaloSlot) → Holds (λ l. FourSmall s) (message_lengths s)
unfolding message_lengths FourSmall
message_lengths-FourSmall s =
    let P : (ℕ × ℕ) × (ℕ × ℕ) → Type 0 = λ l. FourSmall s in
    let (sl, sr) = s.send_elements in
    let (rl, rr) = s.recv_elements in
    >>=-Holds (λ b. IsSmall sl) P (message_bytes sl) _ (message_bytes-IsSmall sl)
      (λ b. λ one.
        >>=-Holds (λ b'. IsSmall sr) P (message_bytes sr) _ (message_bytes-IsSmall sr)
          (λ b'. λ two.
            >>=-Holds (λ c. IsSmall rl) P (message_bytes rl) _ (message_bytes-IsSmall rl)
              (λ c. λ three.
                >>=-Holds (λ c'. IsSmall rr) P (message_bytes rr) _ (message_bytes-IsSmall rr)
                  (λ c'. λ four. ok-Holds HaloError P _ (one, two, three, four)))))

small_fits : (n m : ℕ) → IsSmall n → IsSmall m → fits (element_sum (n, m)) ≡ true
unfolding fits
small_fits n m a b = ground arith

-- The counters after an exchange that is counted once.
abbrev pub counted_once : HaloRequest → P2pVolume → P2pVolume
counted_once q v = record v {
  p2p_calls = (v.p2p_calls + 4) % 2 ^ 64;
  halo_send_bytes_local = (v.halo_send_bytes_local + sent_doubles q * 8) % 2 ^ 64;
  halo_recv_bytes_local = (v.halo_recv_bytes_local + received_doubles q * 8) % 2 ^ 64;
}

-- The exchange that a request begins on a slot.
unfoldable pub Posted : HaloSlot → HaloRequest → HaloSlot → Type 0
Posted s q t =
    IsInProgress t
    × (fits (element_sum t.send_elements) ≡ true)
    × (fits (element_sum t.recv_elements) ≡ true)
    × (counted t ≡ counted_once q s.volume)
    × (t.state.generation ≡ s.state.generation + 1)

in_flight-Posted :
    (b : Buffers) (s : HaloSlot) (q : HaloRequest)
    → FourSmall (fresh_slot (s.state.generation + 1) q s)
    → Posted s q (in_flight b (fresh_slot (s.state.generation + 1) q s))
unfolding Posted FourSmall IsInProgress in_progress in_flight fresh_slot lease_halo counted
    count_exchange sent_doubles received_doubles add_p2p_bytes add_calls add_64
in_flight-Posted b s q (sl, sr, rl, rr) =
    (refl, small_fits _ _ sl sr, small_fits _ _ rl rr, refl, refl)

post_messages-Posted :
    (w : World) (d : Driver) (q : HaloRequest) (s : HaloSlot)
    → Holds (Posted s q) (post_messages w d q (fresh_slot (s.state.generation + 1) q s))
unfolding post_messages
post_messages-Posted w d q s =
    let begun = fresh_slot (s.state.generation + 1) q s in
    let ns = element_sum begun.send_elements in
    let nr = element_sum begun.recv_elements in
    >>=-Holds (λ l. FourSmall begun) (Posted s q) (message_lengths begun) _
      (message_lengths-FourSmall begun)
      (λ lengths. λ small.
        >>=-Holds (λ n. Unit {0}) (Posted s q) (reserve_all w.backend d ns nr begun.buffers) _
          (any-Holds (reserve_all w.backend d ns nr begun.buffers))
          (λ buffers. λ _.
            >>-Holds (Posted s q) (launch_pack d begun.events begun.send_elements) _ (
              >>-Holds (Posted s q) (ready_source w.backend d ns) _ (
                >>-Holds (Posted s q) (post_all d q lengths) _
                  (ok-Holds HaloError (Posted s q) _ (in_flight-Posted buffers s q small))))))

begin_halo-Posted :
    (w : World) (d : Driver) (q : HaloRequest) (s : HaloSlot)
    → alone w ≡ false
    → Holds (Posted s q) (begin_halo w d q s)
unfolding begin_halo begin_calls
begin_halo-Posted w d q s several =
    >>-Holds (Posted s q) (throw_if (not s.state.reusable) not_reusable) _ (
      >>-Holds (Posted s q) (throw_if (exhausted s.state.generation) generation_exhausted) _ (
        if_holds (Holds (Posted s q)) (alone w) _ _ (λ one. absurd (cc))
          (λ many. >>-Holds (Posted s q) (check_request w q) _ (post_messages-Posted w d q s))))

new_token-fresh :
    (s t : HaloSlot)
    → t.state.generation ≡ s.state.generation + 1
    → is_stale t.state.generation t ≡ false
unfolding is_stale
new_token-fresh s t same = ground arith

-- On several ranks, when a begin returns, then any number of `progress_halo` with its token return, MPI
-- keeps to its documentation and the calls of `finish_halo` succeed, then `finish_halo` returns: no
-- buffer is leased and no request open then, and to the counters of the volume before the begin are
-- added four calls and 8 bytes for each double of the request, once, modulo 2 ^ 64.
pub exchange-counted :
    (w : World) (b d : Driver) (q : HaloRequest) (ds : List LawfulDriver)
    (s posted polled : HaloSlot)
    → ((c : Call) → d.call c ≡ ok tt)
    → MpiLaws d
    → alone w ≡ false
    → begin_halo w b q s ≡ ok posted
    → poll_all w.backend posted.state.generation ds posted ≡ ok polled
    → Returns
        (λ u. (is_free u ≡ true) × (u.volume ≡ counted_once q s.volume))
        (finish_halo w.backend posted.state.generation d polled)
unfolding Posted
exchange-counted w b d q ds s posted polled works mpi several begun polls =
    let (live, fs, fr, sum, token) =
      Holds-ok (Posted s q) _ begun (begin_halo-Posted w b q s several) in
    let ended =
      finish_halo-counted d works mpi w.backend posted.state.generation ds posted polled live
        (new_token-fresh s posted token) fs fr polls in
    Returns-map _ _ _ (λ u. λ (free, volume). (free, volume ∙ sum)) ended
