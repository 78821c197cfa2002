-- ===== src/Tests/Halo.antt =====
-- The layout and the exchange of rank 0 of two, one owned atom and one ghost on each face, with the
-- fixed-point numbers `milli`.
use dmg_md.Base.Machine.{int_of_size, size_of_int}
use dmg_md.Base.{
  ℕ, ◌+◌, ◌≤◌, ◌≡◌, refl, List, [], ◌∷◌, ok, arith, true, false, All, count, if◌then◌else◌,
}
use dmg_md.Base.Floats.{milli, min_d}
use dmg_md.Base.Int.{pos, negsuc, eqb_ℤ, ◌+ℤ◌, ◌-ℤ◌}
use dmg_md.Layout.{
  DomainAtomRecord, GhostCandidate, LocalLayout, build_local_layout, local_count, owned_count,
  check_ascending, check_faces, stable_sort, insert_stable, before, add_candidates, noted,
  slab_distance, ghost_of, image_shift_of, add_ghost, start_layout, bad_geometry, dependency_end,
}
use dmg_md.Layout.Geometry.{Vec3, distance_to_slab, component, face_peer}
use dmg_md.Layout.Unique.{local_ids, ghost_ids, candidate_ids, build-once}
use dmg_md.Layout.Classified.{IsNear, IsOuter, frame, build-classifies}
use dmg_md.Exchange.{
  ExchangePlan, build_exchange_plan, validate_exchange_plan, near_peer, peer_of, map_ghosts,
  put_slot, drain, flagged, in_left, in_right, put_at,
}
use dmg_md.Exchange.Recv.{occurs}
use dmg_md.Exchange.Valid.{build_exchange_plan-validates}
use dmg_md.Exchange.Sound.{IsExchange, validate_exchange_plan-IsExchange}
use dmg_md.Exchange.Coverage.{bit, build_exchange_plan-reaches}

abbrev at : ℕ → Vec3 ℕ
at x = record { x = x; y = 0; z = 0 }

abbrev own_atom : DomainAtomRecord milli
own_atom = record {
  global_id = 4;
  type = pos 0;
  mass = 1000;
  charge = 0;
  position = at 4600;
  velocity = at 0;
  unwrapped = at 4600;
  group_labels = [];
}

-- The axis is 10 long, so that rank 0 has the slab [0, 5].
abbrev from_left : List (GhostCandidate milli)
from_left =
    record {
      global_id = 7;
      type = pos 0;
      position = at 9800;
      face = pos 0;
      source_rank = pos 1;
      stream_index = pos 0;
    }
    ∷ []

abbrev from_right : List (GhostCandidate milli)
from_right =
    record {
      global_id = 9;
      type = pos 0;
      position = at 5900;
      face = pos 1;
      source_rank = pos 1;
      stream_index = pos 0;
    }
    ∷ []

abbrev halo : LocalLayout milli
halo = record {
  rank = pos 0;
  world_size = pos 2;
  axis = pos 0;
  axis_length = 10000;
  slab_lo = 0;
  slab_hi = 5000;
  d_dep = 500;
  d_coord = 1000;
  owned = own_atom ∷ [];
  dependency_ghosts =
      record {
        global_id = 7;
        type = pos 0;
        face = pos 0;
        source_rank = pos 1;
        image_shift = negsuc 0;
        dependency = true;
        position = at 9800;
        stream_index = pos 0;
      }
      ∷ [];
  coordinate_ghosts =
      record {
        global_id = 9;
        type = pos 0;
        face = pos 1;
        source_rank = pos 1;
        image_shift = pos 0;
        dependency = false;
        position = at 5900;
        stream_index = pos 0;
      }
      ∷ [];
}

builds_halo :
    build_local_layout milli
      (own_atom ∷ [])
      from_left
      from_right
      (pos 0)
      (pos 2)
      (pos 0)
      10000
      500
      1000
    ≡ ok halo
unfolding build_local_layout check_ascending check_faces stable_sort insert_stable before
    add_candidates noted slab_distance ghost_of image_shift_of add_ghost start_layout bad_geometry
    distance_to_slab component ◌+ℤ◌ ◌-ℤ◌ min_d
builds_halo = refl

abbrev halo_plan : ExchangePlan
halo_plan = record {
  left = record { peer = pos 1; send_slots = pos 0 ∷ []; recv_slots = pos 1 ∷ [] };
  right = record { peer = pos 1; send_slots = []; recv_slots = pos 2 ∷ [] };
}

plans_halo : build_exchange_plan milli halo ≡ ok halo_plan
unfolding build_exchange_plan map_ghosts put_at put_slot size_of_int drain flagged in_left in_right
    near_peer face_peer owned_count dependency_end distance_to_slab component ◌+ℤ◌ ◌-ℤ◌ min_d
    int_of_size
plans_halo = refl

build-once_example :
    (count 7 (local_ids milli halo) ≤ 1)
    × (count 7 (ghost_ids milli halo.dependency_ghosts)
          + count 7 (ghost_ids milli halo.coordinate_ghosts)
        ≡ count 7 (candidate_ids milli from_left) + count 7 (candidate_ids milli from_right))
    × (halo.owned ≡ own_atom ∷ [])
build-once_example =
    build-once milli (own_atom ∷ []) from_left from_right (pos 0) (pos 2) (pos 0) 10000 500 1000
      builds_halo 7

build-classifies_example :
    All (IsNear milli (frame milli halo)) halo.dependency_ghosts
    × All (IsOuter milli (frame milli halo)) halo.coordinate_ghosts
build-classifies_example =
    build-classifies milli (own_atom ∷ []) from_left from_right (pos 0) (pos 2) (pos 0) 10000 500
      1000 builds_halo

build_exchange_plan-validates_example :
    validate_exchange_plan halo_plan
      (owned_count milli halo)
      (local_count milli halo)
      (pos 0)
      (pos 2)
    ≡ ok tt
unfolding local_count
build_exchange_plan-validates_example =
    build_exchange_plan-validates milli halo 0 2 refl refl (omega arith) (omega arith) (omega arith)
      plans_halo

validate_exchange_plan-IsExchange_example :
    IsExchange halo_plan (owned_count milli halo) (local_count milli halo) (pos 0) (pos 2)
validate_exchange_plan-IsExchange_example =
    validate_exchange_plan-IsExchange halo_plan (owned_count milli halo) (local_count milli halo)
      (pos 0) (pos 2) build_exchange_plan-validates_example

build_exchange_plan-reaches_example :
    (occurs 0 halo_plan.left.send_slots
      ≡ bit (near_peer milli halo (peer_of milli halo 0) own_atom))
    × (occurs 0 halo_plan.right.send_slots ≡ (
        if eqb_ℤ (peer_of milli halo 0) (peer_of milli halo 1)
        then 0
        else bit (near_peer milli halo (peer_of milli halo 1) own_atom)))
unfolding local_count
build_exchange_plan-reaches_example =
    build_exchange_plan-reaches milli halo 0 own_atom (omega arith) plans_halo refl
