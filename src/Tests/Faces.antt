-- ===== src/Tests/Faces.antt =====
-- An exchange of two faces with a library that answers at the second call.
use dmg_md.Halo.Exchanged.{exchange-counted, sent_doubles, received_doubles}
use dmg_md.Halo.Delivered.{unpack_indexed_soa-pack_indexed_soa}
use dmg_md.Halo.Kernels.{pack_indexed_soa, unpack_indexed_soa}
use dmg_md.Base.Machine.{size_of_int}
use dmg_md.Halo.Volume.{
  lease_halo, validate_peers, bad_peer_of, checked_mpi_count, checked_bytes, grown, reserve,
}
use dmg_md.Base.{
  ℕ, true, false, not, List, [], ◌∷◌, ok, ◌≡◌, refl, arith, Holds, Returns, ◌*◌, ◌<◌, ◌≢◌, ◌+◌,
}
use dmg_md.Base.Int.{pos, ℤ}
use dmg_md.Halo.{HaloSlot, Driver, no_requests, idle_state, not_ready, host_staged, Buffer, Buffers}
use dmg_md.Halo.Begin.{
  World, HaloRequest, HaloFace, begin_halo, in_flight, fresh_slot, elements_of, exhausted,
  begin_calls, check_request, negative_shape, shape_exceeds, face_exceeds, post_messages,
  message_lengths, message_bytes, alone_state, begin_alone, launch_pack, pack, post_all,
  ready_source, reserve_all, reserve_host, stage_sends, create_events,
}
use dmg_md.Halo.Advance.{
  finish_halo, is_stale, advance_halo, advance_calls, complete_messages, test_messages,
  queue_unpack, observe_unpack, release,
}
use dmg_md.Halo.Flags.{MpiLaws, IsSound, is_free, open_sends, open_receives, is_sound}
use dmg_md.Halo.Finish.{
  LawfulDriver, run_ops, begin_op, progress_op, finish_op, run_ops-IsSound, poll_all, HaloOp,
}

-- The tests find nothing done, the wait ends.
abbrev slow : Driver
slow = record {
  call = λ c. ok tt;
  sends_done = λ r. not (open_sends r);
  receives_done = λ r. not (open_receives r);
  after_wait = λ r. no_requests;
  after_test_sends = λ r. r;
  after_test_receives = λ r. r;
  receive_event = not_ready;
  unpack_event = not_ready;
}

slow_laws : MpiLaws slow
slow_laws = record {
  wait_clears = λ r. refl;
  sends_clear = λ r. λ h. ground arith;
  sends_apart = λ r. refl;
  receives_clear = λ r. λ h. ground arith;
  receives_apart = λ r. refl;
  no_sends = λ r. λ h. ground arith;
  no_receives = λ r. λ h. ground arith;
}

abbrev lawful : LawfulDriver
lawful = (slow, slow_laws)

abbrev no_buffer : Buffer
no_buffer = record { capacity = 0; leased = false }

abbrev idle_slot : HaloSlot
idle_slot = record {
  state = idle_state;
  requests = no_requests;
  unpack_queued = false;
  send_elements = (0, 0);
  recv_elements = (0, 0);
  events = false;
  buffers = record {
    device_send = no_buffer;
    device_receive = no_buffer;
    host_send = no_buffer;
    host_receive = no_buffer;
  };
  volume = record {
    p2p_calls = 0;
    halo_send_bytes_local = 0;
    halo_recv_bytes_local = 0;
    migration_send_bytes_local = 0;
    migration_recv_bytes_local = 0;
    control_send_bytes_local = 0;
    control_recv_bytes_local = 0;
  };
}

abbrev face : ℕ → HaloFace
face n = record { count = pos n; null_indices = false }

abbrev world : World
world = record { rank = pos 0; size = pos 3; backend = host_staged }

abbrev two_faces : HaloRequest
two_faces = record {
  components = pos 3;
  stride = 10;
  null_values = false;
  send_left = face 2;
  send_right = face 1;
  recv_left = face 1;
  recv_right = face 4;
  left_peer = pos 2;
  right_peer = pos 1;
}

abbrev all_ops : List (HaloOp × LawfulDriver)
all_ops =
    (begin_op world two_faces, lawful)
    ∷ (progress_op host_staged 1, lawful)
    ∷ (finish_op host_staged 1, lawful)
    ∷ (begin_op world two_faces, lawful)
    ∷ []

idle-IsSound : IsSound idle_slot
unfolding IsSound is_sound is_free
idle-IsSound = refl

run_ops-IsSound_example : Holds IsSound (run_ops all_ops idle_slot)
run_ops-IsSound_example = run_ops-IsSound all_ops idle_slot idle-IsSound

abbrev reserved : Buffers
reserved = record {
  device_send = record { capacity = 9; leased = false };
  device_receive = record { capacity = 15; leased = false };
  host_send = record { capacity = 9; leased = false };
  host_receive = record { capacity = 15; leased = false };
}

abbrev posted_slot : HaloSlot
posted_slot = in_flight reserved (fresh_slot 1 two_faces idle_slot)

begin_test : begin_halo world slow two_faces idle_slot ≡ ok posted_slot
unfolding begin_halo exhausted begin_calls check_request validate_peers bad_peer_of negative_shape
    shape_exceeds face_exceeds size_of_int checked_mpi_count post_messages message_lengths
    message_bytes fresh_slot elements_of checked_bytes alone_state begin_alone in_flight launch_pack
    create_events pack post_all ready_source reserve_all reserve_host stage_sends grown lease_halo
    reserve
begin_test = refl

still_posted : poll_all host_staged 1 (lawful ∷ []) posted_slot ≡ ok posted_slot
unfolding poll_all advance_halo is_stale in_flight fresh_slot advance_calls complete_messages
    test_messages queue_unpack observe_unpack release
still_posted = refl

exchange-counted_example :
    Returns
      (λ u.
        (is_free u ≡ true)
        × (u.volume ≡ record idle_slot.volume {
          p2p_calls = 4;
          halo_send_bytes_local = 9 * 8;
          halo_recv_bytes_local = 15 * 8;
        }))
      (finish_halo host_staged 1 slow posted_slot)
unfolding in_flight fresh_slot sent_doubles received_doubles elements_of size_of_int
exchange-counted_example =
    exchange-counted world slow slow two_faces (lawful ∷ []) idle_slot posted_slot posted_slot
      (λ c. refl) slow_laws refl begin_test still_posted

-- Two atoms of three components, from the slots 1 and 2 of five to the slots 4 and 5 of seven. A device
-- array is its index here, and the others are 0.
abbrev own_values : ℤ → ℤ
own_values k = k

abbrev no_values : ℤ → ℤ
no_values k = pos 0

abbrev two_packed : ℤ → ℤ
two_packed = pack_indexed_soa (λ a. a + 1) 2 5 3 own_values no_values

unpack_indexed_soa-pack_indexed_soa_example :
    ((a c : ℕ)
      → a < 2
      → c < 3
      → unpack_indexed_soa (λ a. a + 4) 2 7 3 two_packed no_values (pos (c * 7 + (a + 4)))
        ≡ pos (c * 5 + (a + 1)))
    × ((k : ℤ)
        → ((a c : ℕ) → a < 2 → c < 3 → k ≢ pos (c * 7 + (a + 4)))
        → unpack_indexed_soa (λ a. a + 4) 2 7 3 two_packed no_values k ≡ pos 0)
unpack_indexed_soa-pack_indexed_soa_example =
    unpack_indexed_soa-pack_indexed_soa (λ a. a + 1) (λ a. a + 4) 2 3 5 7 own_values no_values
      two_packed no_values (omega arith) (omega arith) (omega arith) (λ a. λ h. omega arith)
      (λ a. λ h. omega arith) (λ a b. λ ha hb same. omega arith) (λ i. λ h. refl)
