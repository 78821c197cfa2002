-- ===== src/Gather.antt =====
-- include/dmgmd/mpi_runtime.hpp, the plan of the indexed collectives: rank r contributes its owned
-- atoms, and `host_scatter_slots` maps each gathered atom back to its slot. The device pointers and
-- the epoch of the plan take no part in the validation.
pub mod Canonical
pub mod Agreement
use dmg_md.Base.{
  ℕ, zero, suc, ◌+◌, Bool, true, false, not, ◌||◌, List, [], ◌∷◌, Result, ok, err, ◌>>=◌, ◌>>◌,
  throw_if, length, get_or, set, replicate, leb, ltb, ◌==◌, flag,
}
use dmg_md.Base.Int.{ℤ, pos, pos_part, ltb_ℤ}
use dmg_md.Base.Machine.{size_of_int}

pub data GatherError : Type 0 where
  invalid_rank exceeds_shape not_world_sized not_prefix_sum counts_exceed : GatherError
  not_covering send_disagrees slot_outside slot_repeated : GatherError

pub record IndexedOwnershipPlan : Type 0 where
  pub atom_counts : List ℤ
  pub atom_displacements : List ℤ
  pub host_scatter_slots : List ℤ
  pub global_count : ℕ
  pub owned_count : ℕ

-- The loop over the source ranks; it returns the displacement after the last one.
unfoldable pub check_prefix : ℕ → List ℤ → List ℤ → ℕ → Result GatherError ℕ
check_prefix global (c ∷ cs) (d ∷ ds) expected = do
  throw_if (ltb_ℤ c (pos 0) || ltb_ℤ d (pos 0) || not (size_of_int d == expected)) not_prefix_sum
  throw_if (ltb global (expected + size_of_int c)) counts_exceed
  check_prefix global cs ds (expected + size_of_int c)
check_prefix global _ _ expected = ok expected

-- The loop over the gathered atoms.
unfoldable pub check_scatter : ℕ → List ℤ → List ℕ → Result GatherError (Unit {0})
check_scatter global [] seen = ok tt
check_scatter global (slot ∷ slots) seen = do
  throw_if (ltb_ℤ slot (pos 0) || leb global (size_of_int slot)) slot_outside
  throw_if (not (flag seen (pos_part slot) == 0)) slot_repeated
  check_scatter global slots (set seen (pos_part slot) 1)

-- The checks that come before the loops.
unfoldable pub bad_rank : ℤ → ℤ → Bool
bad_rank rank world = ltb_ℤ world (pos 1) || ltb_ℤ rank (pos 0) || not (ltb_ℤ rank world)

unfoldable pub bad_shape : IndexedOwnershipPlan → ℕ → Bool
bad_shape plan stride =
    stride == 0
    || plan.global_count == 0
    || ltb stride plan.global_count
    || ltb plan.global_count plan.owned_count

unfoldable pub bad_sizes : IndexedOwnershipPlan → ℤ → Bool
bad_sizes plan world =
    not (length plan.atom_counts == size_of_int world)
    || not (length plan.atom_displacements == size_of_int world)
    || not (length plan.host_scatter_slots == plan.global_count)

unfoldable pub validate_indexed_ownership_plan_host :
    IndexedOwnershipPlan → ℤ → ℤ → ℕ → Result GatherError (Unit {0})
validate_indexed_ownership_plan_host plan rank world stride = do
  throw_if (bad_rank rank world) invalid_rank
  throw_if (bad_shape plan stride) exceeds_shape
  throw_if (bad_sizes plan world) not_world_sized
  reached ← check_prefix plan.global_count plan.atom_counts plan.atom_displacements 0
  throw_if (not (reached == plan.global_count)) not_covering
  throw_if (not (plan.owned_count == size_of_int (get_or plan.atom_counts (pos_part rank) (pos 0))))
      send_disagrees
  check_scatter plan.global_count plan.host_scatter_slots (replicate plan.global_count 0)
