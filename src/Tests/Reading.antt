-- ===== src/Tests/Reading.antt =====
-- A model file of two atoms, read with a reader of whole numbers in place of `strtod`.
use dmg_md.Model.Bounds.{read_atom-in_bounds, OptionWide}
use dmg_md.Model.Placed.{runs_past}
use dmg_md.Model.Atoms.{
  token_at, species_index, symbol_index, vector_at, real_at, read_mass, read_charge, read_velocity,
  read_groups, read_labels, group_width, read_atom, read_real, Columns,
}
use dmg_md.Model.Masses.{default_mass, mass_in}
use dmg_md.Model.Fields.{
  read_int, assignment, find, starts_with, lowercase, lower, value_at, quoted, until_blank,
  after_spaces, parse_properties, split_colons, read_triples, find_property, Property,
}
use dmg_md.RunFile.Numbers.{
  parse_int, c_str, strtol, skip_spaces, read_magnitude, read_digits, digit_of, is_nil, parse_real,
}
use dmg_md.Model.Sound.{ReadModel, parse_model_file-ReadModel}
use dmg_md.Model.Reader.{
  parse_model_file, ReadFailure, read_model, finish, validated, read_count, read_pbc, read_lattice,
  find_columns, columns_of, total_width, read_atoms, arrays_of, input,
}
use dmg_md.Model.{
  Model, PotentialMetadata, validate, local_count, check_labels, ModelFailure, past_end,
}
use dmg_md.RunFile.Text.{codes, same_bytes, is_word, is_space}
use dmg_md.RunFile.{Bytes}
use dmg_md.Base.Floats.{milli}
use dmg_md.Base.{◌≡◌, refl, ok, err, List, [], ◌∷◌, some, Result, false, arith, none, ◌≤◌, ◌>>=◌}
use dmg_md.RunFile.Tokens.{get_tokens, words_from, flush}
use dmg_md.Tests.Input.{reads_one, here}

abbrev lead : PotentialMetadata
lead = record { version = codes "nep4"; symbols = codes "Te" ∷ codes "Pb" ∷ [] }

abbrev fields : Bytes
fields = codes "Lattice=\"8 0 0 0 8 0 0 0 8\" Properties=species:S:1:pos:R:3:group:I:1"

abbrev two_atoms : List Bytes
two_atoms = codes "Pb 0 0 0 1" ∷ codes "Te 1 1 1 0" ∷ []

abbrev read_two : Result ReadFailure (Model milli)
read_two =
    parse_model_file milli reads_one (λ x. x) (codes "model.xyz")
      (some (codes "2" ∷ fields ∷ two_atoms)) lead

-- The model, or one with no atoms.
abbrev of_read : Result ReadFailure (Model milli) → Model milli
of_read (ok m) = m
of_read (err e) = record {
  box = record { periodic = []; h = [] };
  atoms = record {
    counts = record { global_count = 0; owned_count = 0; ghost_count = 0 };
    has_input_velocity = false;
    global_id = [];
    species = [];
    type = [];
    mass = [];
    charge = [];
    position = [];
    velocity = [];
    group_labels = [];
  };
}

reads_two : read_two ≡ ok (of_read read_two)
unfolding parse_model_file finish validated validate local_count check_labels read_model read_count
    get_tokens words_from flush is_space read_int parse_int c_str strtol skip_spaces read_magnitude
    read_digits digit_of is_nil assignment find starts_with lowercase lower value_at quoted
    until_blank after_spaces read_pbc read_lattice read_real parse_real parse_properties
    split_colons read_triples find_columns columns_of find_property is_word same_bytes total_width
    read_atoms read_atom token_at species_index symbol_index vector_at real_at read_mass
    default_mass mass_in read_charge read_velocity read_groups read_labels arrays_of group_width
reads_two = refl

parse_model_file-ReadModel_example :
    ReadModel milli reads_one (λ x. x) lead.symbols (of_read read_two)
    × (validate milli (of_read read_two).atoms ≡ ok tt)
parse_model_file-ReadModel_example =
    parse_model_file-ReadModel milli reads_one (λ x. x) (codes "model.xyz") (codes "2") fields
      two_atoms lead reads_two

abbrev schema : Bytes
schema = codes "species:s:1:pos:r:3:vel:r:3"

abbrev found : Result ModelFailure (List Property)
found = parse_properties schema (here 2 [])

abbrev columns_found : Result ModelFailure Columns
columns_found = do ps ← found; find_columns ps (here 2 [])

abbrev the : {A : Type 0} → A → Result ModelFailure A → A
the other (ok a) = a
the other (err e) = other

abbrev none_found : Columns
none_found =
    let p : Property = record { name = []; type = 0; width = 0; offset = 0 } in
    record {
      species = p;
      position = p;
      mass = none;
      charge = none;
      velocity = none;
      group = none;
      total = 0;
    }

finds_properties : found ≡ ok (the [] found)
unfolding parse_properties split_colons read_triples read_int parse_int c_str strtol skip_spaces
    is_space read_magnitude read_digits digit_of is_nil lowercase lower
finds_properties = refl

finds_columns : find_columns (the [] found) (here 2 []) ≡ ok (the none_found columns_found)
unfolding parse_properties split_colons read_triples read_int parse_int c_str strtol skip_spaces
    is_space read_magnitude read_digits digit_of is_nil lowercase lower find_columns columns_of
    find_property is_word same_bytes total_width
finds_columns = refl

three_wide :
    (3 ≤ (the none_found columns_found).position.width)
    × OptionWide (the none_found columns_found).velocity
unfolding parse_properties split_colons read_triples read_int parse_int c_str strtol skip_spaces
    is_space read_magnitude read_digits digit_of is_nil lowercase lower find_columns columns_of
    find_property is_word same_bytes total_width
three_wide = (omega arith, omega arith)

read_atom-in_bounds_example :
    runs_past (
      read_atom milli reads_one
        (λ x. x)
        (the none_found columns_found)
        lead.symbols
        2
        (codes "Pb 0 0 0 1 1 1")
        (here 3 []))
    ≡ false
read_atom-in_bounds_example =
    read_atom-in_bounds milli reads_one (λ x. x) schema (here 2 []) (here 3 []) lead.symbols 2
      (codes "Pb 0 0 0 1 1 1") finds_properties finds_columns three_wide.0 three_wide.1

abbrev one_coordinate : Bytes
one_coordinate = codes "Lattice=\"8 0 0 0 8 0 0 0 8\" Properties=species:S:1:pos:R:1"

-- A width of 1 for pos is accepted, and the second coordinate is read past the end.
abbrev read_short : Result ReadFailure (Model milli)
read_short =
    parse_model_file milli reads_one (λ x. x) (codes "model.xyz")
      (some (codes "2" ∷ one_coordinate ∷ codes "Pb 0" ∷ codes "Pb 0" ∷ [])) lead

reads_past :
    read_short
    ≡ err (
        input (record {
          location = record { file = codes "model.xyz"; line = 3; text = codes "Pb 0" };
          message = past_end;
        }))
unfolding parse_model_file finish validated validate local_count check_labels read_model read_count
    get_tokens words_from flush is_space read_int parse_int c_str strtol skip_spaces read_magnitude
    read_digits digit_of is_nil assignment find starts_with lowercase lower value_at quoted
    until_blank after_spaces read_pbc read_lattice read_real parse_real parse_properties
    split_colons read_triples find_columns columns_of find_property is_word same_bytes total_width
    read_atoms read_atom token_at species_index symbol_index vector_at real_at read_mass
    default_mass mass_in read_charge read_velocity read_groups read_labels arrays_of group_width
reads_past = refl
