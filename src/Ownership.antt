-- ===== src/Ownership.antt =====
-- include/dmgmd/spatial_ownership.hpp: which rank is authoritative for each replicated slot.
-- A slot and a global id are `std::size_t`, and stay below the number of slots; a rank and a
-- number of ranks are `int`. The arrays of the constructor are written entry by entry, as there.
pub mod Slab
pub mod Scan
pub mod Derived
pub mod Permutation
pub mod Partition
pub mod Hash
use dmg_md.Base.{
  ℕ, suc, ◌+◌, Bool, true, false, not, ◌||◌, List, [], ◌∷◌, Result, ok, ◌>>=◌, ◌>>◌, throw_if,
  length, get_or, set, replicate, leb, ◌==◌, if◌then◌else◌, flag, sum,
}
use dmg_md.Base.Int.{ℤ, pos, pos_part, ltb_ℤ, eqb_ℤ}

-- What the constructor and `owner_of_slot` throw.
pub data OwnershipError : Type 0 where
  invalid_world id_size_mismatch owner_outside not_partition id_exceeds : OwnershipError
  id_not_unique id_not_covering slot_outside : OwnershipError

pub record SpatialOwnership : Type 0 where
  pub rank : ℤ
  pub world_size : ℤ
  pub global_count : ℕ
  pub global_id : List ℕ
  pub owner_by_slot : List ℤ
  pub owned_indices : List ℕ
  pub owned_mask : List ℕ
  pub slot_of_global_id : List ℕ
  pub owned_counts_by_rank : List ℕ

-- The two arrays that the first loop writes.
pub record OwnerScan : Type 0 where
  pub per_rank_counts : List ℕ
  pub mask : List ℕ

-- ++counts[i];
abbrev pub bump : List ℕ → ℕ → List ℕ
bump counts i = set counts i (flag counts i + 1)

abbrev pub outside_world : ℤ → ℤ → Bool
outside_world owner world = ltb_ℤ owner (pos 0) || not (ltb_ℤ owner world)

unfoldable pub scan_owners : ℤ → ℤ → List ℤ → ℕ → OwnerScan → Result OwnershipError OwnerScan
scan_owners rank world [] slot s = ok s
scan_owners rank world (owner ∷ owners) slot s = do
  throw_if (outside_world owner world) owner_outside
  scan_owners rank world owners (suc slot) (record {
    per_rank_counts = bump s.per_rank_counts (pos_part owner);
    mask = if eqb_ℤ owner rank then set s.mask slot 1 else s.mask;
  })

-- The two arrays that the second loop writes.
pub record IdScan : Type 0 where
  pub seen : List ℕ
  pub slot_of : List ℕ

unfoldable pub scan_ids : ℕ → List ℕ → ℕ → IdScan → Result OwnershipError IdScan
scan_ids n [] slot s = ok s
scan_ids n (id ∷ ids) slot s = do
  throw_if (leb n id) id_exceeds
  throw_if (not (flag s.seen id == 0)) id_not_unique
  scan_ids n ids (suc slot) (record { seen = set s.seen id 1; slot_of = set s.slot_of id slot })

-- `for (int flag : seen) if (flag == 0) throw`
unfoldable pub check_covered : List ℕ → Result OwnershipError (Unit {0})
check_covered [] = ok tt
check_covered (f ∷ fs) = do throw_if (f == 0) id_not_covering; check_covered fs

-- The slots of `rank`, in the order in which the ids list them.
unfoldable pub collect_owned : ℤ → List ℤ → List ℕ → List ℕ
collect_owned rank owners [] = []
collect_owned rank owners (slot ∷ slots) =
    if eqb_ℤ (get_or owners slot (pos 0)) rank
    then slot ∷ collect_owned rank owners slots
    else collect_owned rank owners slots

-- The last loop and the fields, once the checks have passed.
unfoldable pub assemble : List ℤ → List ℕ → ℤ → ℤ → OwnerScan → IdScan → SpatialOwnership
assemble owners ids rank world o s = record {
  rank = rank;
  world_size = world;
  global_count = length owners;
  global_id = ids;
  owner_by_slot = owners;
  owned_indices = collect_owned rank owners s.slot_of;
  owned_mask = o.mask;
  slot_of_global_id = s.slot_of;
  owned_counts_by_rank = o.per_rank_counts;
}

-- The constructor.
unfoldable pub construct : List ℤ → List ℕ → ℤ → ℤ → Result OwnershipError SpatialOwnership
construct owners ids rank world = do
  let n = length owners
  throw_if (ltb_ℤ world (pos 1) || outside_world rank world) invalid_world
  throw_if (not (length ids == n)) id_size_mismatch
  o ←
      scan_owners rank world owners 0
        (record { per_rank_counts = replicate (pos_part world) 0; mask = replicate n 0 })
  throw_if (not (sum o.per_rank_counts == n)) not_partition
  s ← scan_ids n ids 0 (record { seen = replicate n 0; slot_of = replicate n 0 })
  check_covered s.seen
  ok (assemble owners ids rank world o s)

-- `SpatialOwnership::trivial`: every slot belongs to rank 0.
pub trivial : ℕ → List ℕ → ℤ → Result OwnershipError SpatialOwnership
trivial n ids world = construct (replicate n (pos 0)) ids (pos 0) world

pub owned_count : SpatialOwnership → ℕ
owned_count s = length s.owned_indices

pub owner_of_slot : SpatialOwnership → ℕ → Result OwnershipError ℤ
owner_of_slot s slot = do
  throw_if (leb s.global_count slot) slot_outside
  ok (get_or s.owner_by_slot slot (pos 0))

-- `std::vector<int>::operator==`
pub same_owners : List ℤ → List ℤ → Bool
same_owners [] [] = true
same_owners (a ∷ as') (b ∷ bs) = if eqb_ℤ a b then same_owners as' bs else false
same_owners _ _ = false

pub same_partition : SpatialOwnership → SpatialOwnership → Bool
same_partition s t =
    if s.global_count == t.global_count then same_owners s.owner_by_slot t.owner_by_slot else false
