-- ===== src/Model/Bounds.antt =====
-- The reads of the token list of an atom line stay inside it.

use dmg_md.Base.{
  ℕ, ◌+◌, ◌≤◌, ◌<◌, ◌≡◌, refl, subst, false, not, List, [], Option, none, some, ok, ok-injective,
  arith, length, All, ◌==◌,
}
use dmg_md.Base.Floats.{Floats}
use dmg_md.Base.Int.{pos}
use dmg_md.RunFile.{Bytes, SourceLocation}
use dmg_md.RunFile.Numbers.{Strtod, parse_real}
use dmg_md.RunFile.Tokens.{get_tokens}
use dmg_md.Model.{not_a_real, no_default_mass, unknown_species}
use dmg_md.Model.Fields.{Property, parse_properties, find_property}
use dmg_md.Model.Masses.{default_mass}
use dmg_md.Model.Atoms.{
  symbol_index, Columns, token_at, real_at, read_real, vector_at, read_mass, read_charge,
  read_velocity, read_groups, species_index, read_atom,
}
use dmg_md.Model.Reader.{total_width, find_columns, columns_of}
use dmg_md.Model.Placed.{
  runs_past, runs_past_ok, bind-runs_past, token_at-runs_past, caught-runs_past,
  caught_option-runs_past, guarded-runs_past, throw-runs_past, read_labels-runs_past, InLine,
  parse_properties-InLine, OptionInLine, find_property-InLine, Placed,
}

columns_of-Placed :
    (species position : Option Property) (ps : List Property) (at : SourceLocation) {c : Columns}
    → All (InLine (total_width ps)) ps
    → OptionInLine (total_width ps) species
    → OptionInLine (total_width ps) position
    → columns_of species position ps at ≡ ok c
    → Placed c
unfolding columns_of
columns_of-Placed none position ps at h s p e = absurd (cc)
columns_of-Placed (some species) none ps at h s p e = absurd (cc)
columns_of-Placed (some species) (some position) ps at h s p e =
    let n = total_width ps in
    subst Placed (ok-injective e) (record {
      species = s;
      position = p;
      mass = find_property-InLine n ps "mass" h;
      charge = find_property-InLine n ps "charge" h;
      velocity = find_property-InLine n ps "vel" h;
      group = find_property-InLine n ps "group" h;
    })

find_columns-Placed :
    (ps : List Property) (at : SourceLocation) {c : Columns}
    → All (InLine (total_width ps)) ps
    → find_columns ps at ≡ ok c
    → Placed c
unfolding find_columns
find_columns-Placed ps at h e =
    let n = total_width ps in
    columns_of-Placed (find_property ps "species") (find_property ps "pos") ps at h
      (find_property-InLine n ps "species" h) (find_property-InLine n ps "pos" h) e

-- Wide enough for three axes, where it is there.
abbrev pub OptionWide : Option Property → Type 0
OptionWide none = Unit {0}
OptionWide (some p) = 3 ≤ p.width

module _ (F : Floats) (strtod : Bytes → Strtod F.Double) (to_float : F.Double → F.Double) where
  real_at-runs_past :
      (tokens : List Bytes) (index : ℕ) (at : SourceLocation)
      → index < length tokens
      → runs_past (real_at F strtod to_float tokens index at) ≡ false
  unfolding real_at read_real
  real_at-runs_past tokens index at h =
      bind-runs_past (token_at tokens index at) _ (token_at-runs_past tokens index at h)
        λ token. caught-runs_past (parse_real F strtod token at) at not_a_real refl

  vector_at-runs_past :
      (tokens : List Bytes) (offset : ℕ) (at : SourceLocation)
      → offset + 3 ≤ length tokens
      → runs_past (vector_at F strtod to_float tokens offset at) ≡ false
  unfolding vector_at
  vector_at-runs_past tokens offset at h =
      bind-runs_past (real_at F strtod to_float tokens offset at) _
        (real_at-runs_past tokens offset at (omega arith))
        λ x.
          bind-runs_past (real_at F strtod to_float tokens (offset + 1) at) _
            (real_at-runs_past tokens (offset + 1) at (omega arith))
            λ y.
              bind-runs_past (real_at F strtod to_float tokens (offset + 2) at) _
                (real_at-runs_past tokens (offset + 2) at (omega arith))
                λ z. runs_past_ok (record { x = x; y = y; z = z })

  read_mass-runs_past :
      (p : Option Property) (species : Bytes) (tokens : List Bytes) (at : SourceLocation)
      → OptionInLine (length tokens) p
      → runs_past (read_mass F strtod to_float p species tokens at) ≡ false
  unfolding read_mass
  read_mass-runs_past none species tokens at h =
      caught_option-runs_past (default_mass F species) at no_default_mass refl
  read_mass-runs_past (some p) species tokens at (wide, ends) =
      real_at-runs_past tokens p.offset at (omega arith)

  read_charge-runs_past :
      (p : Option Property) (tokens : List Bytes) (at : SourceLocation)
      → OptionInLine (length tokens) p
      → runs_past (read_charge F strtod to_float p tokens at) ≡ false
  unfolding read_charge
  read_charge-runs_past none tokens at h = runs_past_ok (F.of_int (pos 0))
  read_charge-runs_past (some p) tokens at (wide, ends) =
      bind-runs_past (real_at F strtod to_float tokens p.offset at) _
        (real_at-runs_past tokens p.offset at (omega arith)) λ x. runs_past_ok (to_float x)

  read_velocity-runs_past :
      (p : Option Property) (tokens : List Bytes) (at : SourceLocation)
      → OptionInLine (length tokens) p
      → OptionWide p
      → runs_past (read_velocity F strtod to_float p tokens at) ≡ false
  unfolding read_velocity
  read_velocity-runs_past none tokens at h w = runs_past_ok _
  read_velocity-runs_past (some p) tokens at (wide, ends) w =
      bind-runs_past (vector_at F strtod to_float tokens p.offset at) _
        (vector_at-runs_past tokens p.offset at (omega arith)) λ v. runs_past_ok _

  read_groups-runs_past :
      (p : Option Property) (tokens : List Bytes) (atoms : ℕ) (at : SourceLocation)
      → OptionInLine (length tokens) p
      → runs_past (read_groups F strtod to_float p tokens atoms at) ≡ false
  unfolding read_groups
  read_groups-runs_past none tokens atoms at h = runs_past_ok []
  read_groups-runs_past (some p) tokens atoms at (wide, ends) =
      read_labels-runs_past tokens p.offset p.width atoms at ends

  species_index-runs_past :
      (name : Bytes) (symbols : List Bytes) (at : SourceLocation)
      → runs_past (species_index F strtod to_float name symbols at) ≡ false
  unfolding species_index
  species_index-runs_past name symbols at =
      caught_option-runs_past (symbol_index name symbols) at unknown_species refl

  -- When the width of pos is at least 3, and that of vel where it is given, the reads of an atom line
  -- stay inside its tokens, whatever the line is: the only guard of the code is the number of its
  -- columns.
  pub read_atom-in_bounds :
      (schema : Bytes) (header at : SourceLocation) {ps : List Property} {c : Columns}
      (symbols : List Bytes) (atoms : ℕ) (line : Bytes)
      → parse_properties schema header ≡ ok ps
      → find_columns ps header ≡ ok c
      → 3 ≤ c.position.width
      → OptionWide c.velocity
      → runs_past (read_atom F strtod to_float c symbols atoms line at) ≡ false
  unfolding read_atom
  read_atom-in_bounds schema header at {ps} {c} symbols atoms line e f wide w =
      let h = find_columns-Placed ps header (parse_properties-InLine schema header e) f in
      let tokens = get_tokens line in
      guarded-runs_past (not (length tokens == c.total)) _ _ refl λ counted.
        let same : c.total ≡ length tokens = ground arith in
        let fits = λ (p : Property) (i : InLine c.total p). subst (λ n. InLine n p) same i in
        let fits? : (p : Option Property)
            → OptionInLine c.total p
            → OptionInLine (length tokens) p =
          λ p i. subst (λ n. OptionInLine n p) same i in
        bind-runs_past (token_at tokens c.species.offset at) _
          (token_at-runs_past tokens c.species.offset at (omega (arith, fits c.species h.species)))
          λ species.
            bind-runs_past (species_index F strtod to_float species symbols at) _
              (species_index-runs_past species symbols at)
              λ type.
                bind-runs_past (vector_at F strtod to_float tokens c.position.offset at) _
                  (vector_at-runs_past tokens c.position.offset at
                    (omega (arith, fits c.position h.position)))
                  λ position.
                    bind-runs_past (read_mass F strtod to_float c.mass species tokens at) _
                      (read_mass-runs_past c.mass species tokens at (fits? c.mass h.mass))
                      λ mass. throw-runs_past (F.led mass (F.of_int (pos 0))) _ _ refl (
                        bind-runs_past (read_charge F strtod to_float c.charge tokens at) _
                          (read_charge-runs_past c.charge tokens at (fits? c.charge h.charge))
                          λ charge.
                            bind-runs_past (read_velocity F strtod to_float c.velocity tokens at) _
                              (read_velocity-runs_past c.velocity tokens at
                                (fits? c.velocity h.velocity) w)
                              λ velocity.
                                bind-runs_past
                                  (read_groups F strtod to_float c.group tokens atoms at) _
                                  (read_groups-runs_past c.group tokens atoms at
                                    (fits? c.group h.group))
                                  λ labels. runs_past_ok _)
