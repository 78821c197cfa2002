-- ===== src/Ownership/Hash.antt =====
-- `map_hash`: the ownership map in 63 bits.
use Prim.Native.Nat.{bit_xor}
use dmg_md.Base.{ℕ, zero, suc, ◌*◌, ◌/◌, ◌%◌, ◌^◌, ◌<◌, List, [], ◌∷◌, arith}
use dmg_md.Base.Int.{ℤ}
use dmg_md.Base.Machine.{size_of_int}
use dmg_md.Ownership.{SpatialOwnership}

-- The step for one byte of a value, from the lowest.
unfoldable pub mix_byte : ℕ → ℕ → ℕ → ℕ
mix_byte value byte hash = bit_xor hash (value / 2 ^ (8 * byte) % 256) * 1099511628211 % 2 ^ 64

unfoldable pub mix_bytes : ℕ → ℕ → ℕ → ℕ
mix_bytes value zero hash = hash
mix_bytes value (suc byte) hash = mix_byte value byte (mix_bytes value byte hash)

-- `mix(value)` of a `std::uint64_t`.
unfoldable pub mix : ℕ → ℕ → ℕ
mix value hash = mix_bytes value 8 hash

unfoldable pub mix_owners : List ℤ → ℕ → ℕ
mix_owners [] hash = hash
mix_owners (owner ∷ owners) hash = mix_owners owners (mix (size_of_int owner) hash)

unfoldable pub mix_ids : List ℕ → ℕ → ℕ
mix_ids [] hash = hash
mix_ids (id ∷ ids) hash = mix_ids ids (mix id hash)

-- The mask of the code keeps the low 63 bits.
unfoldable pub map_hash : SpatialOwnership → ℕ
map_hash o = mix_ids o.global_id (mix_owners o.owner_by_slot 1469598103934665603) % 2 ^ 63

pub map_hash_bound : (o : SpatialOwnership) → map_hash o < 2 ^ 63
unfolding map_hash
map_hash_bound o = omega arith
