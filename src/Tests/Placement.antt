-- ===== src/Tests/Placement.antt =====
-- Ownership and migration on two ranks, with the fixed-point numbers `milli`.
use dmg_md.Gather.Agreement.{assert_same_ownership_map, assert_same_ownership_map-agrees, MapVolume}
use dmg_md.Ownership.Hash.{map_hash}
use dmg_md.Gather.Canonical.{atoms_before, validate-IsCanonical}
use dmg_md.Gather.{
  IndexedOwnershipPlan, validate_indexed_ownership_plan_host, check_prefix, check_scatter, bad_rank,
  bad_shape, bad_sizes,
}
use dmg_md.Migration.Route.{Owners}
use dmg_md.Base.Machine.{int_of_size, size_of_int, int_succ}
use dmg_md.Migration.Valid.{plan_migration-validates, plan_migration-routes}
use dmg_md.Migration.Checks.{sent_to}
use dmg_md.Ownership.Derived.{IsOwnerMap, construct-total}
use dmg_md.Ownership.Permutation.{construct-inverse}
use dmg_md.Ownership.Partition.{owned_exactly_once, owns, construct-owned}
use dmg_md.Base.{
  ℕ, suc, ◌≤◌, ◌<◌, ◌≡◌, refl, List, [], ◌∷◌, ok, arith, count, total, get_elem?, flag, map, some,
  ◌==◌, if◌then◌else◌, zero, get_or, length, ◌+◌, Bool-cases, inl, inr, ap, ltb, true, ◌↔◌,
}
use dmg_md.Base.Floats.{milli}
use dmg_md.Base.Int.{ℤ, pos, pos_part, ◌+ℤ◌}
use dmg_md.Ownership.{
  SpatialOwnership, construct, scan_owners, scan_ids, check_covered, assemble, collect_owned,
}
use dmg_md.Ownership.Slab.{slab_owner_of_fractional, wrap, clamp}
use dmg_md.Migration.{
  MigrationPlan, plan_migration, validate_migration_plan, route_all, route, migration_owner,
}

-- Three slots of two ranks, with the ids 2, 0 and 1.
abbrev owner_map : List ℤ
owner_map = pos 0 ∷ pos 1 ∷ pos 0 ∷ []

abbrev three_ids : List ℕ
three_ids = 2 ∷ 0 ∷ 1 ∷ []

-- What the constructor returns on rank `r`.
abbrev owned_by : ℕ → SpatialOwnership
owned_by r = record {
  rank = pos r;
  world_size = pos 2;
  global_count = 3;
  global_id = three_ids;
  owner_by_slot = owner_map;
  owned_indices = if r == 0 then 2 ∷ 0 ∷ [] else 1 ∷ [];
  owned_mask = if r == 0 then 1 ∷ 0 ∷ 1 ∷ [] else 0 ∷ 1 ∷ 0 ∷ [];
  slot_of_global_id = 1 ∷ 2 ∷ 0 ∷ [];
  owned_counts_by_rank = 2 ∷ 1 ∷ [];
}

constructs_0 : construct owner_map three_ids (pos 0) (pos 2) ≡ ok (owned_by 0)
unfolding construct scan_owners scan_ids check_covered assemble collect_owned
constructs_0 = refl

constructs_1 : construct owner_map three_ids (pos 1) (pos 2) ≡ ok (owned_by 1)
unfolding construct scan_owners scan_ids check_covered assemble collect_owned
constructs_1 = refl

constructs : (r : ℕ) → r < 2 → construct owner_map three_ids (pos r) (pos 2) ≡ ok (owned_by r)
constructs zero h = constructs_0
constructs (suc zero) h = constructs_1
constructs (suc (suc r)) h = absurd (omega arith)

owned_exactly_once_example : total (λ r. count 1 (owned_by r).owned_indices) 2 ≡ 1
owned_exactly_once_example =
    owned_exactly_once owner_map three_ids 2 owned_by (omega arith) constructs 1 (omega arith)

construct-owned_example :
    (count 2 (owned_by 0).owned_indices ≡ owns (pos 0) owner_map 2)
    × (flag (owned_by 0).owned_mask 2 ≡ owns (pos 0) owner_map 2)
construct-owned_example =
    construct-owned owner_map three_ids (pos 0) (pos 2) constructs_0 2 (omega arith)

-- The reduction of two ranks.
abbrev larger : (ℕ → ℕ) → ℕ
larger f = if ltb (f 0) (f 1) then f 1 else f 0

larger_above : (f : ℕ → ℕ) (k : ℕ) → k < 2 → f k ≤ larger f
larger_above f zero h = ground arith
larger_above f (suc zero) h = ground arith
larger_above f (suc (suc k)) h = absurd (omega arith)

larger_attained : (f : ℕ → ℕ) → (k : ℕ) × (k < 2) × (larger f ≡ f k)
larger_attained f = elim (Bool-cases (ltb (f 0) (f 1))) [
  | inl below ↦ (1, omega arith, ap (λ t. if t then f 1 else f 0) below)
  | inr above ↦ (0, omega arith, ap (λ t. if t then f 1 else f 0) above)
]

abbrev no_calls_yet : MapVolume
no_calls_yet = record { map_calls = 0; map_input_bytes = 0; map_output_bytes = 0 }

assert_same_ownership_map-agrees_example :
    ((assert_same_ownership_map larger 2 (λ k. true) (λ k. map_hash (owned_by k)) 1 no_calls_yet).0
      ≡ ok tt)
    ↔ ((k : ℕ) → k < 2 → (true ≡ true) × (map_hash (owned_by k) ≡ map_hash (owned_by 1)))
assert_same_ownership_map-agrees_example =
    assert_same_ownership_map-agrees larger 2 (λ k. true) owned_by 1 no_calls_yet larger_above
      larger_attained (omega arith) (omega arith)

construct-inverse_example :
    (get_elem? three_ids (flag (owned_by 0).slot_of_global_id 2) ≡ some 2)
    × (get_elem? (owned_by 0).slot_of_global_id (flag three_ids 2) ≡ some 2)
construct-inverse_example =
    construct-inverse owner_map three_ids (pos 0) (pos 2) constructs_0 2 (omega arith)

ids_once : (k : ℕ) → count k three_ids ≤ 1
ids_once k = ground arith

three-IsOwnerMap : IsOwnerMap owner_map three_ids (pos 0) (pos 2)
three-IsOwnerMap = record {
  world_positive = omega arith;
  rank_inside = refl;
  sized = refl;
  in_world = (refl, (refl, (refl, tt)));
  ids_below = (omega arith, (omega arith, (omega arith, tt)));
  ids_once = ids_once;
}

construct-total_example :
    (o : SpatialOwnership) × (construct owner_map three_ids (pos 0) (pos 2) ≡ ok o)
construct-total_example = construct-total owner_map three_ids (pos 0) (pos 2) three-IsOwnerMap

-- Rank 0 of two keeps its first atom and sends the second to rank 1.
abbrev two_fractions : List ℕ
two_fractions = 100 ∷ 700 ∷ []

abbrev two_rank_migration : MigrationPlan
two_rank_migration = record {
  send_counts = pos 0 ∷ pos 1 ∷ [];
  recv_counts = pos 0 ∷ pos 0 ∷ [];
  outgoing_slots = [] ∷ (pos 1 ∷ []) ∷ [];
  staying_count = pos 1;
}

plans_migration : plan_migration milli two_fractions (pos 0) (pos 2) ≡ ok two_rank_migration
unfolding plan_migration route_all route slab_owner_of_fractional wrap clamp migration_owner ◌+ℤ◌
    int_of_size int_succ
plans_migration = refl

plan_migration-validates_example :
    validate_migration_plan two_rank_migration 2 (pos 0) (pos 2) ≡ ok tt
plan_migration-validates_example =
    plan_migration-validates milli two_fractions (pos 0) (pos 2) (omega arith) plans_migration

plan_migration-routes_example :
    (owners : List ℕ) × Owners milli 2 two_fractions owners
    × ((d : ℕ) → get_or two_rank_migration.outgoing_slots d [] ≡ sent_to 0 d owners)
    × ((d : ℕ)
        → get_or two_rank_migration.send_counts d (pos 0)
          ≡ pos (length (get_or two_rank_migration.outgoing_slots d [])))
    × (two_rank_migration.staying_count ≡ pos (count 0 owners))
    × (total (λ d. length (get_or two_rank_migration.outgoing_slots d [])) 2 + count 0 owners ≡ 2)
plan_migration-routes_example =
    plan_migration-routes milli two_fractions 0 2 (omega arith) plans_migration

-- The gather of the three slots: rank 0 sends the slots 2 and 0, rank 1 the slot 1.
abbrev gather_plan : IndexedOwnershipPlan
gather_plan = record {
  atom_counts = pos 2 ∷ pos 1 ∷ [];
  atom_displacements = pos 0 ∷ pos 2 ∷ [];
  host_scatter_slots = pos 2 ∷ pos 0 ∷ pos 1 ∷ [];
  global_count = 3;
  owned_count = 2;
}

accepts_gather : validate_indexed_ownership_plan_host gather_plan (pos 0) (pos 2) 4 ≡ ok tt
unfolding validate_indexed_ownership_plan_host check_prefix check_scatter bad_rank bad_shape
    bad_sizes size_of_int
accepts_gather = refl

validate-IsCanonical_example :
    (get_or gather_plan.atom_displacements 1 (pos 0) ≡ pos (atoms_before gather_plan.atom_counts 1))
    × (atoms_before gather_plan.atom_counts (pos_part (pos 2)) ≡ gather_plan.global_count)
    × (count 2 (map pos_part gather_plan.host_scatter_slots) ≡ 1)
validate-IsCanonical_example =
    validate-IsCanonical gather_plan (pos 0) (pos 2) 4 accepts_gather 1 2 (omega arith)
      (omega arith)
