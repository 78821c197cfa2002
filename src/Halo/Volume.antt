-- ===== src/Halo/Volume.antt =====
-- The counters, the checks of the counts, and the buffers.
use dmg_md.Base.{
  ℕ, ◌+◌, ◌-◌, ◌*◌, ◌/◌, ◌%◌, ◌^◌, ltb, leb, ◌==◌, Bool, true, false, ◌||◌, not, Result, ok, ◌>>◌,
  throw_if, if◌then◌else◌,
}
use dmg_md.Base.Int.{ℤ, pos, ltb_ℤ}
use dmg_md.Halo.{
  HaloError, P2pVolume, Buffer, Buffers, Driver, free_buffer, allocate_buffer, count_range,
  byte_overflow, buffer_in_flight, not_p2p, bad_peer, coinciding_peers,
}

pub data ByteClass : Type 0 where
  halo migration control : ByteClass

-- `a += b` of a `std::uint64_t`.
unfoldable pub add_64 : ℕ → ℕ → ℕ
add_64 a b = (a + b) % 2 ^ 64

unfoldable pub add_p2p_bytes : ByteClass → ℕ → ℕ → P2pVolume → P2pVolume
add_p2p_bytes halo send recv v = record v {
  halo_send_bytes_local = add_64 v.halo_send_bytes_local send;
  halo_recv_bytes_local = add_64 v.halo_recv_bytes_local recv;
}
add_p2p_bytes migration send recv v = record v {
  migration_send_bytes_local = add_64 v.migration_send_bytes_local send;
  migration_recv_bytes_local = add_64 v.migration_recv_bytes_local recv;
}
add_p2p_bytes control send recv v = record v {
  control_send_bytes_local = add_64 v.control_send_bytes_local send;
  control_recv_bytes_local = add_64 v.control_recv_bytes_local recv;
}

-- `volume.p2p_calls += n`.
unfoldable pub add_calls : ℕ → P2pVolume → P2pVolume
add_calls n v = record v { p2p_calls = add_64 v.p2p_calls n }

unfoldable pub checked_mpi_count : ℕ → Result HaloError ℕ
checked_mpi_count count = do throw_if (ltb (2 ^ 31 - 1) count) count_range; ok count

unfoldable pub checked_bytes : ℕ → Result HaloError ℕ
checked_bytes elements = do
  throw_if (ltb ((2 ^ 64 - 1) / 8) elements) byte_overflow
  ok (elements * 8)

unfoldable pub grown : Driver → ℕ → Buffer → Result HaloError Buffer
grown d size b = do
  if b.capacity == 0 then ok tt else d.call (free_buffer b.capacity)
  d.call (allocate_buffer size)
  ok (record { capacity = size; leased = false })

-- `reserve` of a buffer, whose old memory is freed first.
unfoldable pub reserve : Driver → ℕ → Buffer → Result HaloError Buffer
reserve d size b = do
  throw_if b.leased buffer_in_flight
  if leb size b.capacity then ok b else grown d size b

abbrev pub lease : Bool → Buffer → Buffer
lease value b = record b { leased = value }

unfoldable pub lease_halo : Bool → Buffers → Buffers
lease_halo value b = record {
  device_send = lease value b.device_send;
  device_receive = lease value b.device_receive;
  host_send = lease value b.host_send;
  host_receive = lease value b.host_receive;
}

abbrev pub eq_ℤ : ℤ → ℤ → Bool
eq_ℤ a b = not (ltb_ℤ a b || ltb_ℤ b a)

abbrev pub same_test : Bool → Bool → Bool
same_test true b = b
same_test false b = not b

-- A peer of a rank: another rank of the world.
unfoldable pub bad_peer_of : ℤ → ℤ → ℤ → Bool
bad_peer_of size rank peer = ltb_ℤ peer (pos 0) || not (ltb_ℤ peer size) || eq_ℤ peer rank

unfoldable pub validate_peers : ℤ → ℤ → ℤ → ℤ → Result HaloError (Unit {0})
validate_peers size rank left_peer right_peer = do
  throw_if (not (ltb_ℤ (pos 1) size)) not_p2p
  throw_if (bad_peer_of size rank left_peer || bad_peer_of size rank right_peer) bad_peer
  throw_if (not (same_test (eq_ℤ size (pos 2)) (eq_ℤ left_peer right_peer))) coinciding_peers
