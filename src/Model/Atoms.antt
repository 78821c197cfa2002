-- ===== src/Model/Atoms.antt =====
-- One atom line of the model file, by the columns that `Properties` gives.
use dmg_md.Base.{
  ℕ, zero, suc, ◌+◌, not, ◌||◌, List, [], ◌∷◌, Option, none, some, Result, ok, err, ◌>>=◌, ◌>>◌,
  length, get_elem?, ◌==◌, if◌then◌else◌,
}
use dmg_md.Base.Floats.{Floats}
use dmg_md.Base.Int.{ℤ, pos, ltb_ℤ}
use dmg_md.Layout.Geometry.{Vec3}
use dmg_md.RunFile.{Bytes, SourceLocation}
use dmg_md.RunFile.Text.{same_bytes}
use dmg_md.RunFile.Numbers.{Strtod, parse_real}
use dmg_md.RunFile.Tokens.{get_tokens}
use dmg_md.Model.{
  ModelFailure, wrong_columns, unknown_species, no_default_mass, mass_not_positive,
  group_out_of_range, not_a_real, past_end,
}
use dmg_md.Model.Fields.{fail, fail_if, read_int, Property}
use dmg_md.Model.Masses.{default_mass}

-- The columns: the six properties that the reader looks up.
pub record Columns : Type 0 where
  pub species : Property
  pub position : Property
  pub mass : Option Property
  pub charge : Option Property
  pub velocity : Option Property
  pub group : Option Property
  pub total : ℕ

-- `tokens[index]`: past the end the source reads memory that is not the list's.
unfoldable pub token_at : List Bytes → ℕ → SourceLocation → Result ModelFailure Bytes
token_at tokens index at = elim (get_elem? tokens index) [ none ↦ fail at past_end | some t ↦ ok t ]

-- `std::find` over the symbols, as an index.
unfoldable pub symbol_index : Bytes → List Bytes → Option ℕ
symbol_index name [] = none
symbol_index name (s ∷ ss) =
    if same_bytes s name
    then some 0
    else elim (symbol_index name ss) [ none ↦ none | some k ↦ some (suc k) ]

unfoldable pub group_width : Option Property → ℕ
group_width none = 0
group_width (some p) = p.width

-- The labels of the atom, for each method from `method` on.
unfoldable pub read_labels : List Bytes → ℕ → ℕ → ℕ → SourceLocation → Result ModelFailure (List ℤ)
read_labels tokens offset zero atoms at = ok []
read_labels tokens offset (suc width) atoms at = do
  token ← token_at tokens offset at
  label ← read_int token at
  fail_if (ltb_ℤ label (pos 0) || not (ltb_ℤ label (pos atoms))) at group_out_of_range
  rest ← read_labels tokens (suc offset) width atoms at
  ok (label ∷ rest)

module _ (F : Floats) (strtod : Bytes → Strtod F.Double) (to_float : F.Double → F.Double) where
  open F use {Double, led, of_int, mul, div}

  pub record AtomLine : Type 0 where
    pub species : Bytes
    pub type : ℕ
    pub position : Vec3 Double
    pub mass : Double
    pub charge : Double
    pub velocity : Vec3 Double
    pub labels : List ℤ

  unfoldable pub read_real : Bytes → SourceLocation → Result ModelFailure Double
  read_real token at = elim (parse_real F strtod token at) [
    | ok x ↦ ok x
    | err e ↦ fail at not_a_real
  ]

  unfoldable pub real_at : List Bytes → ℕ → SourceLocation → Result ModelFailure Double
  unfolding token_at read_real
  real_at tokens index at = do token ← token_at tokens index at; read_real token at

  -- Three columns from `offset` on.
  unfoldable pub vector_at : List Bytes → ℕ → SourceLocation → Result ModelFailure (Vec3 Double)
  vector_at tokens offset at = do
    x ← real_at tokens offset at
    y ← real_at tokens (offset + 1) at
    z ← real_at tokens (offset + 2) at
    ok (record { x = x; y = y; z = z })

  unfoldable pub read_mass :
      Option Property → Bytes → List Bytes → SourceLocation → Result ModelFailure Double
  read_mass none species tokens at = elim (default_mass F species) [
    | none ↦ fail at no_default_mass
    | some m ↦ ok m
  ]
  read_mass (some p) species tokens at = real_at tokens p.offset at

  unfoldable pub read_charge :
      Option Property → List Bytes → SourceLocation → Result ModelFailure Double
  read_charge none tokens at = ok (of_int (pos 0))
  read_charge (some p) tokens at = do x ← real_at tokens p.offset at; ok (to_float x)

  -- 10.18051, from natural units to fs.
  abbrev pub time_unit : Double
  time_unit = div (of_int (pos 1018051)) (of_int (pos 100000))

  unfoldable pub read_velocity :
      Option Property → List Bytes → SourceLocation → Result ModelFailure (Vec3 Double)
  read_velocity none tokens at =
      ok (record { x = of_int (pos 0); y = of_int (pos 0); z = of_int (pos 0) })
  read_velocity (some p) tokens at = do
    v ← vector_at tokens p.offset at
    ok (record { x = mul v.x time_unit; y = mul v.y time_unit; z = mul v.z time_unit })

  unfoldable pub read_groups :
      Option Property → List Bytes → ℕ → SourceLocation → Result ModelFailure (List ℤ)
  read_groups none tokens atoms at = ok []
  read_groups (some p) tokens atoms at = read_labels tokens p.offset p.width atoms at

  unfoldable pub species_index : Bytes → List Bytes → SourceLocation → Result ModelFailure ℕ
  species_index name symbols at = elim (symbol_index name symbols) [
    | none ↦ fail at unknown_species
    | some k ↦ ok k
  ]

  -- The body of the loop over the atoms.
  unfoldable pub read_atom :
      Columns → List Bytes → ℕ → Bytes → SourceLocation → Result ModelFailure AtomLine
  read_atom columns symbols atoms line at = do
    let tokens = get_tokens line
    fail_if (not (length tokens == columns.total)) at wrong_columns
    species ← token_at tokens columns.species.offset at
    type ← species_index species symbols at
    position ← vector_at tokens columns.position.offset at
    mass ← read_mass columns.mass species tokens at
    fail_if (led mass (of_int (pos 0))) at mass_not_positive
    charge ← read_charge columns.charge tokens at
    velocity ← read_velocity columns.velocity tokens at
    labels ← read_groups columns.group tokens atoms at
    ok (record {
      species = species;
      type = type;
      position = position;
      mass = mass;
      charge = charge;
      velocity = velocity;
      labels = labels;
    })
