-- ===== src/Layout.antt =====
-- include/dmgmd/domain_layout.hpp, the local layout of a rank: its owned atoms, then the ghosts
-- that its atoms depend on, then the ghosts whose coordinates alone are needed.
pub mod Geometry
pub mod Unique
pub mod Classified
use dmg_md.Base.{
  ℕ, zero, suc, ◌+◌, Bool, true, false, not, ◌||◌, ◌&&◌, List, [], ◌∷◌, ◌++◌, map, Result, ok, err,
  ◌>>=◌, ◌>>◌, throw_if, length, leb, ltb, ◌==◌, if◌then◌else◌,
}
use dmg_md.Base.Floats.{Floats}
use dmg_md.Base.Int.{ℤ, pos, negsuc, pos_part, ltb_ℤ, eqb_ℤ, ◌+ℤ◌, ◌-ℤ◌}
use Geometry.{Vec3, component, distance_to_slab}

pub data LayoutError : Type 0 where
  invalid_geometry owned_not_ascending wrong_left_face wrong_right_face : LayoutError
  outside_band repeated_id : LayoutError

module _ (F : Floats) where
  open F use {Double, ltd, led, mul, div, of_int}

  pub record DomainAtomRecord : Type 0 where
    pub global_id : ℕ
    pub type : ℤ
    pub mass : Double
    pub charge : Double
    pub position : Vec3 Double
    pub velocity : Vec3 Double
    pub unwrapped : Vec3 Double
    pub group_labels : List ℤ

  -- A stream index counts the atoms of a receive stream; face 0 is left, face 1 is right.
  pub record GhostCandidate : Type 0 where
    pub global_id : ℕ
    pub type : ℤ
    pub position : Vec3 Double
    pub face : ℤ
    pub source_rank : ℤ
    pub stream_index : ℤ

  pub record GhostSlotInfo : Type 0 where
    pub global_id : ℕ
    pub type : ℤ
    pub face : ℤ
    pub source_rank : ℤ
    pub image_shift : ℤ
    pub dependency : Bool
    pub position : Vec3 Double
    pub stream_index : ℤ

  pub record LocalLayout : Type 0 where
    pub rank : ℤ
    pub world_size : ℤ
    pub axis : ℤ
    pub axis_length : Double
    pub slab_lo : Double
    pub slab_hi : Double
    pub d_dep : Double
    pub d_coord : Double
    pub owned : List DomainAtomRecord
    pub dependency_ghosts : List GhostSlotInfo
    pub coordinate_ghosts : List GhostSlotInfo

  unfoldable pub owned_count : LocalLayout → ℕ
  owned_count l = length l.owned

  unfoldable pub local_count : LocalLayout → ℕ
  local_count l = length l.owned + length l.dependency_ghosts + length l.coordinate_ghosts

  unfoldable pub dependency_end : LocalLayout → ℕ
  unfolding owned_count
  dependency_end l = owned_count l + length l.dependency_ghosts

  -- `owned[index - 1].global_id >= owned[index].global_id` is an error.
  unfoldable pub check_ascending : List DomainAtomRecord → Result LayoutError (Unit {0})
  check_ascending [] = ok tt
  check_ascending (a ∷ []) = ok tt
  check_ascending (a ∷ b ∷ rest) = do
    throw_if (leb b.global_id a.global_id) owned_not_ascending
    check_ascending (b ∷ rest)

  unfoldable pub check_faces : ℕ → LayoutError → List GhostCandidate → Result LayoutError (Unit {0})
  check_faces face e [] = ok tt
  check_faces face e (c ∷ cs) = do throw_if (not (eqb_ℤ c.face (pos face))) e; check_faces face e cs

  -- The order (face, source_rank, global_id).
  unfoldable pub before : GhostCandidate → GhostCandidate → Bool
  before a b =
      if not (eqb_ℤ a.face b.face)
      then ltb_ℤ a.face b.face
      else if not (eqb_ℤ a.source_rank b.source_rank)
      then ltb_ℤ a.source_rank b.source_rank
      else ltb a.global_id b.global_id

  -- `std::stable_sort`: a candidate stays in front of its equals.
  unfoldable pub insert_stable : GhostCandidate → List GhostCandidate → List GhostCandidate
  insert_stable c [] = c ∷ []
  insert_stable c (d ∷ ds) = if before d c then d ∷ insert_stable c ds else c ∷ d ∷ ds

  unfoldable pub stable_sort : List GhostCandidate → List GhostCandidate
  stable_sort [] = []
  stable_sort (c ∷ cs) = insert_stable c (stable_sort cs)

  -- The search over the ids noted so far: over the owned ids it is a binary search of an ascending
  -- range, over the ghosts' a linear one.
  unfoldable pub noted : ℕ → List ℕ → Bool
  noted id [] = false
  noted id (x ∷ xs) = x == id || noted id xs

  unfoldable pub image_shift_of : LocalLayout → GhostCandidate → ℤ
  image_shift_of l c =
      if eqb_ℤ c.face (pos 1) && eqb_ℤ l.rank (l.world_size -ℤ pos 1)
      then pos 1
      else if eqb_ℤ c.face (pos 0) && eqb_ℤ l.rank (pos 0)
      then negsuc 0
      else pos 0

  unfoldable pub slab_distance : LocalLayout → GhostCandidate → Double
  slab_distance l c =
      distance_to_slab F (component c.position l.axis) l.slab_lo l.slab_hi l.axis_length

  unfoldable pub ghost_of : LocalLayout → GhostCandidate → GhostSlotInfo
  unfolding image_shift_of
  ghost_of l c = record {
    global_id = c.global_id;
    type = c.type;
    face = c.face;
    source_rank = c.source_rank;
    image_shift = image_shift_of l c;
    dependency = led (slab_distance l c) l.d_dep;
    position = c.position;
    stream_index = c.stream_index;
  }

  unfoldable pub add_ghost : LocalLayout → GhostSlotInfo → LocalLayout
  add_ghost l g =
      if g.dependency
      then record l { dependency_ghosts = l.dependency_ghosts ++ g ∷ [] }
      else record l { coordinate_ghosts = l.coordinate_ghosts ++ g ∷ [] }

  unfoldable pub add_candidates :
      List GhostCandidate → List ℕ → LocalLayout → Result LayoutError LocalLayout
  add_candidates [] seen l = ok l
  add_candidates (c ∷ cs) seen l = do
    throw_if (ltd l.d_coord (slab_distance l c)) outside_band
    throw_if (noted c.global_id seen) repeated_id
    add_candidates cs (seen ++ c.global_id ∷ []) (add_ghost l (ghost_of l c))

  abbrev pub owned_ids : List DomainAtomRecord → List ℕ
  owned_ids = map λ a. a.global_id

  -- The layout before any ghost is added; slab k runs from (k / P) L to ((k + 1) / P) L.
  unfoldable pub start_layout :
      List DomainAtomRecord → ℤ → ℤ → ℤ → Double → Double → Double → LocalLayout
  start_layout owned rank world axis axis_length d_dep d_coord = record {
    rank = rank;
    world_size = world;
    axis = axis;
    axis_length = axis_length;
    slab_lo = mul (div (of_int rank) (of_int world)) axis_length;
    slab_hi = mul (div (of_int (rank +ℤ pos 1)) (of_int world)) axis_length;
    d_dep = d_dep;
    d_coord = d_coord;
    owned = owned;
    dependency_ghosts = [];
    coordinate_ghosts = [];
  }

  unfoldable pub bad_geometry : ℤ → ℤ → ℤ → Bool
  bad_geometry rank world axis =
      ltb_ℤ world (pos 1)
      || ltb_ℤ rank (pos 0)
      || not (ltb_ℤ rank world)
      || ltb_ℤ axis (pos 0)
      || ltb_ℤ (pos 2) axis

  unfoldable pub build_local_layout :
      List DomainAtomRecord
      → List GhostCandidate
      → List GhostCandidate
      → ℤ
      → ℤ
      → ℤ
      → Double
      → Double
      → Double
      → Result LayoutError LocalLayout
  build_local_layout owned left right rank world axis axis_length d_dep d_coord = do
    throw_if (bad_geometry rank world axis) invalid_geometry
    check_ascending owned
    check_faces 0 wrong_left_face left
    check_faces 1 wrong_right_face right
    add_candidates (stable_sort (left ++ right)) (owned_ids owned)
        (start_layout owned rank world axis axis_length d_dep d_coord)
