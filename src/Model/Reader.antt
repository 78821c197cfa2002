-- ===== src/Model/Reader.antt =====
-- `load_potential_metadata` and `parse_model_file`. The lines of a file are given, if it opens.

use dmg_md.Base.{
  ℕ, zero, suc, ◌+◌, true, false, not, ◌&&◌, ◌||◌, List, [], ◌∷◌, ◌++◌, map, Option, none, some,
  Result, ok, err, ◌>>=◌, ◌>>◌, length, get_or, ◌==◌, if◌then◌else◌,
}
use dmg_md.Base.Floats.{Floats}
use dmg_md.Base.Int.{ℤ, pos, pos_part, ltb_ℤ}
use dmg_md.RunFile.{Bytes, SourceLocation}
use dmg_md.RunFile.Text.{is_word}
use dmg_md.RunFile.Numbers.{Strtod}
use dmg_md.RunFile.Tokens.{get_tokens}
use dmg_md.Model.{
  ModelFailure, PotentialMetadata, HostAtoms, Model, validate, cannot_read, few_lines,
  not_one_count, few_atoms, pbc_not_three, pbc_not_flags, lattice_not_nine, missing_property,
  few_atom_lines, short_header, unsupported_model, symbol_mismatch, ShapeError,
}
use dmg_md.Model.Fields.{
  fail, fail_if, read_int, lowercase, assignment, Property, parse_properties, find_property,
}
use dmg_md.Model.Atoms.{Columns, AtomLine, read_atom, read_real, group_width}

-- The header: the version, the number of types, and one symbol for each.
unfoldable pub read_header : List Bytes → SourceLocation → Result ModelFailure PotentialMetadata
read_header (version ∷ count ∷ symbol ∷ symbols) at = do
  fail_if
      (not (is_word version "nep4")
        && not (is_word version "nep5")
        && not (is_word version "nep4_zbl")
        && not (is_word version "nep5_zbl"))
      at unsupported_model
  types ← read_int count at
  fail_if
      (not (ltb_ℤ (pos 0) types)
        || not (length (version ∷ count ∷ symbol ∷ symbols) == pos_part types + 2))
      at symbol_mismatch
  ok (record { version = version; symbols = symbol ∷ symbols })
read_header _ at = fail at short_header

-- The first line of the potential file, if it opens and has one.
unfoldable pub load_potential_metadata :
    Bytes → Option Bytes → Result ModelFailure PotentialMetadata
load_potential_metadata file none = fail (record { file = file; line = 1; text = [] }) cannot_read
load_potential_metadata file (some line) =
    read_header (get_tokens line) (record { file = file; line = 1; text = line })

unfoldable pub read_flag : Bytes → SourceLocation → Result ModelFailure ℕ
read_flag flag at = do
  fail_if (not (is_word (lowercase flag) "t") && not (is_word (lowercase flag) "f")) at
      pbc_not_flags
  ok (if is_word (lowercase flag) "t" then 1 else 0)

unfoldable pub read_flags : List Bytes → SourceLocation → Result ModelFailure (List ℕ)
read_flags (x ∷ y ∷ z ∷ []) at = do
  a ← read_flag x at
  b ← read_flag y at
  c ← read_flag z at
  ok (a ∷ b ∷ c ∷ [])
read_flags _ at = fail at pbc_not_three

-- No value leaves the box periodic.
unfoldable pub read_pbc : Bytes → SourceLocation → Result ModelFailure (List ℕ)
read_pbc [] at = ok (1 ∷ 1 ∷ 1 ∷ [])
read_pbc (c ∷ cs) at = read_flags (get_tokens (c ∷ cs)) at

unfoldable pub read_count : List Bytes → SourceLocation → Result ModelFailure ℕ
read_count (token ∷ []) at = do
  atoms ← read_int token at
  fail_if (ltb_ℤ atoms (pos 2)) at few_atoms
  ok (pos_part atoms)
read_count _ at = fail at not_one_count

unfoldable pub total_width : List Property → ℕ
total_width [] = 0
total_width (p ∷ ps) = p.width + total_width ps

-- The columns, when species and pos are found.
unfoldable pub columns_of :
    Option Property → Option Property → List Property → SourceLocation → Result ModelFailure Columns
columns_of none position properties at = fail at missing_property
columns_of (some species) none properties at = fail at missing_property
columns_of (some species) (some position) properties at = ok (record {
  species = species;
  position = position;
  mass = find_property properties "mass";
  charge = find_property properties "charge";
  velocity = find_property properties "vel";
  group = find_property properties "group";
  total = total_width properties;
})

unfoldable pub find_columns : List Property → SourceLocation → Result ModelFailure Columns
find_columns properties at =
    columns_of (find_property properties "species") (find_property properties "pos") properties at

abbrev at_line : Bytes → ℕ → Bytes → SourceLocation
at_line file line text = record { file = file; line = line; text = text }

-- What the reader of a model throws.
pub data ReadFailure : Type 0 where
  input : ModelFailure → ReadFailure
  shape : ShapeError → ReadFailure

abbrev pub upto : ℕ → ℕ → List ℕ
upto k zero = []
upto k (suc n) = k ∷ upto (suc k) n

module _ (F : Floats) (strtod : Bytes → Strtod F.Double) (to_float : F.Double → F.Double) where
  open F use {Double}

  abbrev pub Line : Type 0
  Line = AtomLine F strtod to_float

  -- The values stand in columns, the rows of h in its list.
  unfoldable pub read_lattice : List Bytes → SourceLocation → Result ModelFailure (List Double)
  read_lattice (a ∷ b ∷ c ∷ d ∷ e ∷ f ∷ g ∷ h ∷ i ∷ []) at = do
    ax ← read_real F strtod to_float a at
    ay ← read_real F strtod to_float b at
    az ← read_real F strtod to_float c at
    bx ← read_real F strtod to_float d at
    by ← read_real F strtod to_float e at
    bz ← read_real F strtod to_float f at
    cx ← read_real F strtod to_float g at
    cy ← read_real F strtod to_float h at
    cz ← read_real F strtod to_float i at
    ok (ax ∷ bx ∷ cx ∷ ay ∷ by ∷ cy ∷ az ∷ bz ∷ cz ∷ [])
  read_lattice _ at = fail at lattice_not_nine

  -- The loop over the atoms; atom k stands on line k + 3. Lines past the last atom are not read.
  unfoldable pub read_atoms :
      Bytes → Columns → List Bytes → ℕ → ℕ → ℕ → List Bytes → Result ModelFailure (List Line)
  read_atoms file columns symbols atoms k zero lines = ok []
  read_atoms file columns symbols atoms k (suc left) [] =
      fail (record { file = file; line = k + 3; text = [] }) few_atom_lines
  read_atoms file columns symbols atoms k (suc left) (line ∷ lines) = do
    atom ←
        read_atom F strtod to_float columns symbols atoms line
          (record { file = file; line = k + 3; text = line })
    rest ← read_atoms file columns symbols atoms (suc k) left lines
    ok (atom ∷ rest)

  -- The labels of one method, and of each of the methods.
  abbrev pub labels_of : ℕ → List Line → List ℤ
  labels_of method = map λ a. get_or a.labels method (pos 0)

  -- The arrays, with the atoms of the first axis in front.
  unfoldable pub arrays_of : Columns → ℕ → List Line → HostAtoms F
  arrays_of columns n atoms = record {
    counts = record { global_count = n; owned_count = n; ghost_count = 0 };
    has_input_velocity = elim columns.velocity [ none ↦ false | some p ↦ true ];
    global_id = upto 0 n;
    species = map (λ (a : Line). a.species) atoms;
    type = map (λ (a : Line). a.type) atoms;
    mass = map (λ (a : Line). a.mass) atoms;
    charge = map (λ (a : Line). a.charge) atoms;
    position =
        map (λ (a : Line). a.position.x) atoms
        ++ map (λ (a : Line). a.position.y) atoms
        ++ map (λ (a : Line). a.position.z) atoms;
    velocity =
        map (λ (a : Line). a.velocity.x) atoms
        ++ map (λ (a : Line). a.velocity.y) atoms
        ++ map (λ (a : Line). a.velocity.z) atoms;
    group_labels = map (λ m. labels_of m atoms) (upto 0 (group_width columns.group));
  }

  -- Everything but the last call, of `validate`.
  unfoldable pub read_model :
      Bytes → Bytes → Bytes → List Bytes → PotentialMetadata → Result ModelFailure (Model F)
  read_model file line1 line2 lines potential = do
    let at1 : SourceLocation = record { file = file; line = 1; text = line1 }
    let at2 : SourceLocation = record { file = file; line = 2; text = line2 }
    n ← read_count (get_tokens line1) at1
    pbc ← assignment line2 "pbc" at2
    periodic ← read_pbc pbc at2
    lattice ← assignment line2 "lattice" at2
    h ← read_lattice (get_tokens lattice) at2
    schema ← assignment line2 "properties" at2
    properties ← parse_properties (lowercase schema) at2
    columns ← find_columns properties at2
    atoms ← read_atoms file columns potential.symbols n 0 n lines
    ok (record { box = record { periodic = periodic; h = h }; atoms = arrays_of columns n atoms })

  -- What `validate` throws is another exception.
  unfoldable pub validated : Model F → Result ReadFailure (Model F)
  validated m = elim (validate F m.atoms) [ ok t ↦ ok m | err e ↦ err (shape e) ]

  unfoldable pub finish : Result ModelFailure (Model F) → Result ReadFailure (Model F)
  finish (ok m) = validated m
  finish (err e) = err (input e)

  unfoldable pub parse_model_file :
      Bytes → Option (List Bytes) → PotentialMetadata → Result ReadFailure (Model F)
  parse_model_file file none potential =
      err (input (record { location = at_line file 0 []; message = cannot_read }))
  parse_model_file file (some []) potential =
      err (input (record { location = at_line file 1 []; message = few_lines }))
  parse_model_file file (some (line ∷ [])) potential =
      err (input (record { location = at_line file 1 line; message = few_lines }))
  parse_model_file file (some (line1 ∷ line2 ∷ lines)) potential =
      finish (read_model file line1 line2 lines potential)
