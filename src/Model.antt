-- ===== src/Model.antt =====
-- include/dmgmd/model.hpp and src/model_parser.cpp: the model file, an extended XYZ text of a box and
-- its atoms, and the header of the potential file.
pub mod Fields
pub mod Masses
pub mod Atoms
pub mod Reader
pub mod Shape
pub mod Sound
pub mod Placed
pub mod Bounds
use dmg_md.Base.{
  ℕ, suc, ◌+◌, ◌-◌, ◌*◌, ◌^◌, Bool, true, false, not, ◌||◌, List, [], ◌∷◌, Result, ok, err, ◌>>=◌,
  ◌>>◌, throw_if, length, ltb, ◌==◌,
}
use dmg_md.Base.Floats.{Floats}
use dmg_md.Base.Int.{ℤ}
use dmg_md.RunFile.{Bytes, SourceLocation}

-- What the readers throw, by the kind of message. `past_end` stands for a read of the token list
-- past its end, which the source does not refuse.
pub data ModelError : Type 0 where
  cannot_read few_lines not_one_count few_atoms unterminated_quote : ModelError
  pbc_not_three pbc_not_flags lattice_not_nine not_triples bad_width missing_property : ModelError
  few_atom_lines wrong_columns unknown_species no_default_mass mass_not_positive : ModelError
  group_out_of_range short_header unsupported_model symbol_mismatch : ModelError
  not_an_integer not_a_real past_end : ModelError

pub record ModelFailure : Type 0 where
  pub location : SourceLocation
  pub message : ModelError

pub record AtomCounts : Type 0 where
  pub global_count : ℕ
  pub owned_count : ℕ
  pub ghost_count : ℕ

unfoldable pub local_count : AtomCounts → ℕ
local_count c = c.owned_count + c.ghost_count

pub record PotentialMetadata : Type 0 where
  pub version : Bytes
  pub symbols : List Bytes

-- What `HostAtoms::validate` throws.
pub data ShapeError : Type 0 where
  count_overflow owned_exceeds_global array_size label_size : ShapeError

module _ (F : Floats) where
  -- The lists of h are in row-major order.
  pub record BoxData : Type 0 where
    pub periodic : List ℕ
    pub h : List F.Double

  -- The arrays are indexed by axis first, then by atom.
  pub record HostAtoms : Type 0 where
    pub counts : AtomCounts
    pub has_input_velocity : Bool
    pub global_id : List ℕ
    pub species : List Bytes
    pub type : List ℕ
    pub mass : List F.Double
    pub charge : List F.Double
    pub position : List F.Double
    pub velocity : List F.Double
    pub group_labels : List (List ℤ)

  pub record Model : Type 0 where
    pub box : BoxData
    pub atoms : HostAtoms

  unfoldable pub check_labels : ℕ → List (List ℤ) → Result ShapeError (Unit {0})
  check_labels local [] = ok tt
  check_labels local (labels ∷ rest) = do
    throw_if (not (length labels == local)) label_size
    check_labels local rest

  -- `HostAtoms::validate`.
  unfoldable pub validate : HostAtoms → Result ShapeError (Unit {0})
  unfolding local_count
  validate a = do
    throw_if (ltb (2 ^ 64 - 1 - a.counts.owned_count) a.counts.ghost_count) count_overflow
    let local = local_count a.counts
    throw_if (ltb a.counts.global_count a.counts.owned_count) owned_exceeds_global
    throw_if
        (not (length a.global_id == local)
          || not (length a.species == local)
          || not (length a.type == local)
          || not (length a.mass == local)
          || not (length a.charge == local)
          || not (length a.position == 3 * local)
          || not (length a.velocity == 3 * local))
        array_size
    check_labels local a.group_labels
