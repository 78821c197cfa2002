-- ===== src/Model/Sound.antt =====
-- What holds of a model that was read.
use dmg_md.RunFile.Tokens.{get_tokens}
use dmg_md.Base.{
  ℕ, zero, suc, ◌+◌, ◌^◌, ◌≤◌, ◌<◌, ◌≡◌, ◌≢◌, refl, sym, ap, ◌∙◌, subst, true, false, not, ◌||◌,
  List, [], ◌∷◌, Option, none, some, Option-cases, Result, ok, err, >>=-eq-ok, throw_if-eq-ok,
  ok-injective, arith, length, get_elem?, All, inl, inr, Bool-cases, ◌==◌,
}
use dmg_md.Base.Floats.{Floats}
use dmg_md.Base.Int.{ℤ, pos, pos_part, ltb_ℤ}
use dmg_md.RunFile.{Bytes, SourceLocation, InputError}
use dmg_md.RunFile.Text.{same_bytes, same_bytes-eq}
use dmg_md.RunFile.Numbers.{Strtod, parse_int, parse_int-fits, fits_int}
use dmg_md.Model.{ModelFailure, Model, PotentialMetadata, ShapeError, validate, not_an_integer}
use dmg_md.Model.Fields.{read_int, fail, Property, assignment, lowercase, parse_properties}
use dmg_md.Model.Atoms.{
  Columns, symbol_index, species_index, read_labels, read_groups, read_atom, token_at, vector_at,
  read_mass, read_charge, read_velocity,
}
use dmg_md.Model.Reader.{
  Line, read_count, read_atoms, arrays_of, read_model, validated, parse_model_file, ReadFailure,
  shape, read_pbc, read_lattice, find_columns, finish,
}
use dmg_md.Model.Shape.{length-read_atoms, validate-arrays_of}

-- The index that was found is that of the name.
symbol_index-found :
    (name : Bytes) (symbols : List Bytes) {k : ℕ}
    → symbol_index name symbols ≡ some k
    → get_elem? symbols k ≡ some name
unfolding symbol_index
symbol_index-found name [] e = cc
symbol_index-found name (s ∷ ss) {k} e = elim (Bool-cases (same_bytes s name)) [
  | inl same ↦
      let is = same_bytes-eq s name same in
      let first : 0 ≡ k = ground arith in
      subst (λ i. get_elem? (s ∷ ss) i ≡ some name) first (ap some is)
  | inr other ↦ elim (Option-cases (symbol_index name ss)) [
    | inl none_found ↦ ground arith
    | inr (j, found) ↦
        let next : suc j ≡ k = ground arith in
        subst (λ i. get_elem? (s ∷ ss) i ≡ some name) next (symbol_index-found name ss found)
  ]
]

-- A label of one of `atoms` groups.
abbrev pub IsLabel : ℕ → ℤ → Type 0
IsLabel atoms l = (ltb_ℤ l (pos 0) ≡ false) × (ltb_ℤ l (pos atoms) ≡ true)

read_labels-IsLabel :
    (tokens : List Bytes) (offset width atoms : ℕ) (at : SourceLocation) {ls : List ℤ}
    → read_labels tokens offset width atoms at ≡ ok ls
    → All (IsLabel atoms) ls
unfolding read_labels
read_labels-IsLabel tokens offset zero atoms at e = subst (All (IsLabel atoms)) (ok-injective e) tt
read_labels-IsLabel tokens offset (suc width) atoms at e =
    let (token, _, e1) = >>=-eq-ok (token_at tokens offset at) _ e in
    let (label, _, e2) = >>=-eq-ok (read_int token at) _ e1 in
    let (bounded, e3) =
      throw_if-eq-ok (ltb_ℤ label (pos 0) || not (ltb_ℤ label (pos atoms))) _ _ e2 in
    let (rest, more, e4) = >>=-eq-ok (read_labels tokens (suc offset) width atoms at) _ e3 in
    let low : ltb_ℤ label (pos 0) ≡ false = ground arith in
    let high : ltb_ℤ label (pos atoms) ≡ true = ground arith in
    subst (All (IsLabel atoms)) (ok-injective e4)
      ((low, high), read_labels-IsLabel tokens (suc offset) width atoms at more)

from_parse_int :
    (r : Result InputError ℤ) (at : SourceLocation) {n : ℤ}
    → ◌≡◌ {A = Result ModelFailure ℤ}
        (elim r [ ok z ↦ ok z | err e ↦ fail at not_an_integer ])
        (ok n)
    → r ≡ ok n
from_parse_int (ok z) at e = ap ok (ok-injective e)
from_parse_int (err x) at e = absurd (cc)

read_int-fits :
    (token : Bytes) (at : SourceLocation) {n : ℤ} → read_int token at ≡ ok n → fits_int n ≡ true
unfolding read_int
read_int-fits token at e = parse_int-fits token at (from_parse_int (parse_int token at) at e)

read_count-bounds :
    (tokens : List Bytes) (at : SourceLocation) {n : ℕ}
    → read_count tokens at ≡ ok n
    → (2 ≤ n) × (n < 2 ^ 31)
unfolding read_count
read_count-bounds [] at e = absurd (cc)
read_count-bounds (token ∷ []) at {n} e =
    let (z, read, e1) = >>=-eq-ok (read_int token at) _ e in
    let (several, e2) = throw_if-eq-ok (ltb_ℤ z (pos 2)) _ _ e1 in
    let same : pos_part z ≡ n = ok-injective e2 in
    let fits = read_int-fits token at read in
    let low : 2 ≤ pos_part z = ground arith in
    let high : pos_part z < 2 ^ 31 = ground arith in (omega arith, omega arith)
read_count-bounds (token ∷ b ∷ rest) at e = absurd (cc)

module _ (F : Floats) (strtod : Bytes → Strtod F.Double) (to_float : F.Double → F.Double) where
  species_index-found :
      (name : Bytes) (symbols : List Bytes) (at : SourceLocation) {k : ℕ}
      → species_index F strtod to_float name symbols at ≡ ok k
      → get_elem? symbols k ≡ some name
  unfolding species_index
  species_index-found name symbols at {k} e = elim (Option-cases (symbol_index name symbols)) [
    | inl none_found ↦ ground arith
    | inr (j, found) ↦
        let same : j ≡ k = ground arith in
        subst (λ i. get_elem? symbols i ≡ some name) same (symbol_index-found name symbols found)
  ]

  -- An atom that was read: its type is the place of its species among the symbols, its mass is above
  -- 0, and each of its labels is a group.
  pub record GoodAtom (symbols : List Bytes) (atoms : ℕ) (a : Line F strtod to_float) : Type 0 where
    pub typed : get_elem? symbols a.type ≡ some a.species
    pub heavy : F.led a.mass (F.of_int (pos 0)) ≡ false
    pub grouped : All (IsLabel atoms) a.labels

  read_groups-IsLabel :
      (p : Option Property) (tokens : List Bytes) (atoms : ℕ) (at : SourceLocation) {ls : List ℤ}
      → read_groups F strtod to_float p tokens atoms at ≡ ok ls
      → All (IsLabel atoms) ls
  unfolding read_groups
  read_groups-IsLabel none tokens atoms at e = subst (All (IsLabel atoms)) (ok-injective e) tt
  read_groups-IsLabel (some p) tokens atoms at e =
      read_labels-IsLabel tokens p.offset p.width atoms at e

  read_atom-GoodAtom :
      (columns : Columns) (symbols : List Bytes) (atoms : ℕ) (line : Bytes) (at : SourceLocation)
      {a : Line F strtod to_float}
      → read_atom F strtod to_float columns symbols atoms line at ≡ ok a
      → GoodAtom symbols atoms a
  unfolding read_atom
  read_atom-GoodAtom columns symbols atoms line at e =
      let tokens = get_tokens line in
      let (_, e1) = throw_if-eq-ok (not (length tokens == columns.total)) _ _ e in
      let (species, _, e2) = >>=-eq-ok (token_at tokens columns.species.offset at) _ e1 in
      let (type, found, e3) = >>=-eq-ok (species_index F strtod to_float species symbols at) _ e2 in
      let (position, _, e4) =
        >>=-eq-ok (vector_at F strtod to_float tokens columns.position.offset at) _ e3 in
      let (mass, _, e5) =
        >>=-eq-ok (read_mass F strtod to_float columns.mass species tokens at) _ e4 in
      let (heavy, e6) = throw_if-eq-ok (F.led mass (F.of_int (pos 0))) _ _ e5 in
      let (charge, _, e7) =
        >>=-eq-ok (read_charge F strtod to_float columns.charge tokens at) _ e6 in
      let (velocity, _, e8) =
        >>=-eq-ok (read_velocity F strtod to_float columns.velocity tokens at) _ e7 in
      let (labels, grouped, e9) =
        >>=-eq-ok (read_groups F strtod to_float columns.group tokens atoms at) _ e8 in
      subst (GoodAtom symbols atoms) (ok-injective e9) (record {
        typed = species_index-found species symbols at found;
        heavy = heavy;
        grouped = read_groups-IsLabel columns.group tokens atoms at grouped;
      })

  read_atoms-GoodAtom :
      (file : Bytes) (columns : Columns) (symbols : List Bytes) (atoms k left : ℕ)
      (lines : List Bytes) {as' : List (Line F strtod to_float)}
      → read_atoms F strtod to_float file columns symbols atoms k left lines ≡ ok as'
      → All (GoodAtom symbols atoms) as'
  unfolding read_atoms
  read_atoms-GoodAtom file columns symbols atoms k zero lines e =
      subst (All (GoodAtom symbols atoms)) (ok-injective e) tt
  read_atoms-GoodAtom file columns symbols atoms k (suc left) [] e = cc
  read_atoms-GoodAtom file columns symbols atoms k (suc left) (line ∷ lines) e =
      let at : SourceLocation = record { file = file; line = k + 3; text = line } in
      let (a, one, e1) =
        >>=-eq-ok (read_atom F strtod to_float columns symbols atoms line at) _ e in
      let (rest, more, e2) =
        >>=-eq-ok (read_atoms F strtod to_float file columns symbols atoms (suc k) left lines) _
          e1 in
      subst (All (GoodAtom symbols atoms)) (ok-injective e2) (
        read_atom-GoodAtom columns symbols atoms line at one,
        read_atoms-GoodAtom file columns symbols atoms (suc k) left lines more,
      )

  -- What a model that was read consists of.
  pub record ReadModel (symbols : List Bytes) (m : Model F) : Type 0 where
    pub columns : Columns
    pub count : ℕ
    pub atoms : List (Line F strtod to_float)
    pub several : 2 ≤ count
    pub small : count < 2 ^ 31
    pub sized : length atoms ≡ count
    pub good : All (GoodAtom symbols count) atoms
    pub stored : m.atoms ≡ arrays_of F strtod to_float columns count atoms

  read_model-ReadModel :
      (file line1 line2 : Bytes) (lines : List Bytes) (p : PotentialMetadata) {m : Model F}
      → read_model F strtod to_float file line1 line2 lines p ≡ ok m
      → ReadModel p.symbols m
  unfolding read_model
  read_model-ReadModel file line1 line2 lines p e =
      let at1 : SourceLocation = record { file = file; line = 1; text = line1 } in
      let at2 : SourceLocation = record { file = file; line = 2; text = line2 } in
      let (n, counted, e1) = >>=-eq-ok (read_count (get_tokens line1) at1) _ e in
      let (pbc, _, e2) = >>=-eq-ok (assignment line2 "pbc" at2) _ e1 in
      let (periodic, _, e3) = >>=-eq-ok (read_pbc pbc at2) _ e2 in
      let (lattice, _, e4) = >>=-eq-ok (assignment line2 "lattice" at2) _ e3 in
      let (h, _, e5) = >>=-eq-ok (read_lattice F strtod to_float (get_tokens lattice) at2) _ e4 in
      let (schema, _, e6) = >>=-eq-ok (assignment line2 "properties" at2) _ e5 in
      let (properties, _, e7) = >>=-eq-ok (parse_properties (lowercase schema) at2) _ e6 in
      let (columns, _, e8) = >>=-eq-ok (find_columns properties at2) _ e7 in
      let (atoms, read, e9) =
        >>=-eq-ok (read_atoms F strtod to_float file columns p.symbols n 0 n lines) _ e8 in
      let bounds = read_count-bounds (get_tokens line1) at1 counted in
      subst (ReadModel p.symbols) (ok-injective e9) (record {
        columns = columns;
        count = n;
        atoms = atoms;
        several = bounds.0;
        small = bounds.1;
        sized = length-read_atoms F strtod to_float file columns p.symbols n 0 n lines read;
        good = read_atoms-GoodAtom file columns p.symbols n 0 n lines read;
        stored = refl;
      })

  validated-ok :
      (m : Model F) (valid : validate F m.atoms ≡ ok tt) → validated F strtod to_float m ≡ ok m
  unfolding validated
  validated-ok m valid =
      ap
        (λ (r : Result ShapeError (Unit {0})). elim r as (λ _. Result ReadFailure (Model F)) [
          | ok t ↦ ok m
          | err e ↦ err (shape e)
        ])
        valid

  ReadModel-valid :
      (symbols : List Bytes) (m : Model F) → ReadModel symbols m → validate F m.atoms ≡ ok tt
  ReadModel-valid symbols m r =
      ap (validate F) r.stored
      ∙ validate-arrays_of F strtod to_float r.columns r.count r.atoms r.sized r.small

  Valid : Result ModelFailure (Model F) → Type 0
  Valid r = (m : Model F) → r ≡ ok m → validate F m.atoms ≡ ok tt

  finish-no_shape_error :
      (r : Result ModelFailure (Model F)) (e : ShapeError)
      → Valid r
      → finish F strtod to_float r ≢ err (shape e)
  unfolding finish Valid
  finish-no_shape_error (ok m) e v =
      λ h. let is = sym (validated-ok m (v m refl)) ∙ h in absurd (cc)
  finish-no_shape_error (err x) e v = λ h. absurd (cc)

  finish-ok :
      (r : Result ModelFailure (Model F)) {m : Model F}
      → Valid r
      → finish F strtod to_float r ≡ ok m
      → r ≡ ok m
  unfolding finish Valid
  finish-ok (ok m) v h = ap ok (ok-injective (sym (validated-ok m (v m refl)) ∙ h))
  finish-ok (err x) v h = absurd (cc)

  read_model-Valid :
      (file line1 line2 : Bytes) (lines : List Bytes) (p : PotentialMetadata)
      → Valid (read_model F strtod to_float file line1 line2 lines p)
  unfolding Valid
  read_model-Valid file line1 line2 lines p =
      λ m e. ReadModel-valid p.symbols m (read_model-ReadModel file line1 line2 lines p e)

  -- The last call of the reader, of `validate`, never throws: whatever the lines are, the reader gives
  -- a model or an input error.
  pub parse_model_file-no_shape_error :
      (file : Bytes) (lines : Option (List Bytes)) (p : PotentialMetadata) (e : ShapeError)
      → parse_model_file F strtod to_float file lines p ≢ err (shape e)
  unfolding parse_model_file
  parse_model_file-no_shape_error file none p e = λ h. cc
  parse_model_file-no_shape_error file (some []) p e = λ h. cc
  parse_model_file-no_shape_error file (some (a ∷ [])) p e = λ h. cc
  parse_model_file-no_shape_error file (some (a ∷ b ∷ lines)) p e =
      finish-no_shape_error (read_model F strtod to_float file a b lines p) e
        (read_model-Valid file a b lines p)

  -- A model that was read has at least two atoms, in arrays that `validate` accepts; the type of each
  -- atom is the place of its species among the symbols of the potential, its mass is above 0, and
  -- its labels are groups below the number of atoms.
  pub parse_model_file-ReadModel :
      (file line1 line2 : Bytes) (lines : List Bytes) (p : PotentialMetadata) {m : Model F}
      → parse_model_file F strtod to_float file (some (line1 ∷ line2 ∷ lines)) p ≡ ok m
      → ReadModel p.symbols m × (validate F m.atoms ≡ ok tt)
  unfolding parse_model_file
  parse_model_file-ReadModel file line1 line2 lines p {m} e =
      let valid = read_model-Valid file line1 line2 lines p in
      let read = finish-ok (read_model F strtod to_float file line1 line2 lines p) valid e in
      let r = read_model-ReadModel file line1 line2 lines p read in
      (r, ReadModel-valid p.symbols m r)
