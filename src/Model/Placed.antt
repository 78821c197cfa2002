-- ===== src/Model/Placed.antt =====
-- The columns of the properties stay inside a line, and reads that stay inside them.
use dmg_md.RunFile.Text.{is_word}
use Prim.Native.String.{String}
use dmg_md.Base.{
  ℕ, zero, suc, ◌+◌, ◌≤◌, ◌<◌, ◌≡◌, refl, subst, Bool, true, false, not, ◌||◌, List, [], ◌∷◌,
  Option, none, some, Result, ok, err, ◌>>=◌, ◌>>◌, throw_if, >>=-eq-ok, throw_if-eq-ok,
  ok-injective, arith, length, All, ◌==◌, if◌then◌else◌, ◌%◌,
}
use dmg_md.Base.Int.{pos, pos_part, ltb_ℤ}
use dmg_md.RunFile.{Bytes, SourceLocation, InputError}
use dmg_md.RunFile.Numbers.{parse_int}
use dmg_md.Model.{ModelFailure, ModelError, past_end, not_an_integer}
use dmg_md.Model.Fields.{
  fail, Property, parse_properties, read_triples, find_property, read_int, split_colons,
}
use dmg_md.Model.Atoms.{Columns, token_at, read_labels}
use dmg_md.Model.Reader.{total_width}

abbrev is_past : ModelError → Bool
is_past past_end = true
is_past _ = false

-- The result stands for a read past the end.
unfoldable pub runs_past : {A : Type 0} → Result ModelFailure A → Bool
runs_past (ok a) = false
runs_past (err f) = is_past f.message

pub runs_past_ok : {A : Type 0} (a : A) → ◌≡◌ {A = Bool} (runs_past {A = A} (ok a)) false
unfolding runs_past
runs_past_ok a = refl

pub bind-runs_past :
    {A B : Type 0} (r : Result ModelFailure A) (k : A → Result ModelFailure B)
    → runs_past r ≡ false
    → ((a : A) → runs_past (k a) ≡ false)
    → runs_past (r >>= k) ≡ false
unfolding runs_past
bind-runs_past (ok a) k h f = f a
bind-runs_past (err e) k h f = h

pub token_at-runs_past :
    (tokens : List Bytes) (index : ℕ) (at : SourceLocation)
    → index < length tokens
    → runs_past (token_at tokens index at) ≡ false
unfolding token_at runs_past
token_at-runs_past [] index at h = absurd (omega arith)
token_at-runs_past (t ∷ ts) zero at h = refl
token_at-runs_past (t ∷ ts) (suc index) at h = token_at-runs_past ts index at (omega arith)

pub caught-runs_past :
    {A : Type 0} (r : Result InputError A) (at : SourceLocation) (message : ModelError)
    → is_past message ≡ false
    → runs_past (elim r as (λ _. Result ModelFailure A) [ ok a ↦ ok a | err e ↦ fail at message ])
      ≡ false
unfolding runs_past
caught-runs_past (ok a) at message h = refl
caught-runs_past (err e) at message h = h

pub caught_option-runs_past :
    {A : Type 0} (r : Option A) (at : SourceLocation) (message : ModelError)
    → is_past message ≡ false
    → runs_past (elim r as (λ _. Result ModelFailure A) [ none ↦ fail at message | some a ↦ ok a ])
      ≡ false
unfolding runs_past
caught_option-runs_past (some a) at message h = refl
caught_option-runs_past none at message h = h

pub guarded-runs_past :
    {B : Type 0} (bad : Bool) (e : ModelFailure) (k : Result ModelFailure B)
    → is_past e.message ≡ false
    → (bad ≡ false → runs_past k ≡ false)
    → runs_past (throw_if bad e >> k) ≡ false
unfolding runs_past
guarded-runs_past true e k h f = h
guarded-runs_past false e k h f = f refl

pub throw-runs_past :
    {B : Type 0} (bad : Bool) (e : ModelFailure) (k : Result ModelFailure B)
    → is_past e.message ≡ false
    → runs_past k ≡ false
    → runs_past (throw_if bad e >> k) ≡ false
unfolding runs_past
throw-runs_past true e k h f = h
throw-runs_past false e k h f = f

read_int-runs_past : (token : Bytes) (at : SourceLocation) → runs_past (read_int token at) ≡ false
unfolding read_int
read_int-runs_past token at = caught-runs_past (parse_int token at) at not_an_integer refl

pub read_labels-runs_past :
    (tokens : List Bytes) (offset width atoms : ℕ) (at : SourceLocation)
    → offset + width ≤ length tokens
    → runs_past (read_labels tokens offset width atoms at) ≡ false
unfolding read_labels
read_labels-runs_past tokens offset zero atoms at h = runs_past_ok []
read_labels-runs_past tokens offset (suc width) atoms at h =
    bind-runs_past (token_at tokens offset at) _ (token_at-runs_past tokens offset at (omega arith))
      λ token. bind-runs_past (read_int token at) _ (read_int-runs_past token at) λ label.
        throw-runs_past (ltb_ℤ label (pos 0) || not (ltb_ℤ label (pos atoms))) _ _ refl (
          bind-runs_past (read_labels tokens (suc offset) width atoms at) _
            (read_labels-runs_past tokens (suc offset) width atoms at (omega arith))
            λ rest. runs_past_ok (label ∷ rest))

-- The columns of a property are some, and they lie in a line of `total` tokens.
abbrev pub InLine : ℕ → Property → Type 0
InLine total p = (1 ≤ p.width) × (p.offset + p.width ≤ total)

InLine-shift : (a b : ℕ) (ps : List Property) → a ≤ b → All (InLine a) ps → All (InLine b) ps
InLine-shift a b [] le h = tt
InLine-shift a b (p ∷ ps) le ((some_width, ends), rest) =
    ((some_width, omega arith), InLine-shift a b ps le rest)

read_triples-InLine :
    (words : List Bytes) (offset : ℕ) (at : SourceLocation) {ps : List Property}
    → read_triples words offset at ≡ ok ps
    → All (InLine (offset + total_width ps)) ps
unfolding read_triples total_width
read_triples-InLine [] offset at e =
    subst (λ ps. All (InLine (offset + total_width ps)) ps) (ok-injective e) tt
read_triples-InLine (a ∷ []) offset at e =
    subst (λ ps. All (InLine (offset + total_width ps)) ps) (ok-injective e) tt
read_triples-InLine (a ∷ [] ∷ []) offset at e =
    subst (λ ps. All (InLine (offset + total_width ps)) ps) (ok-injective e) tt
read_triples-InLine (a ∷ (b ∷ bs) ∷ []) offset at e =
    subst (λ ps. All (InLine (offset + total_width ps)) ps) (ok-injective e) tt
read_triples-InLine (a ∷ [] ∷ w ∷ rest) offset at e =
    let (width, _, e1) = >>=-eq-ok (read_int w at) _ e in absurd (cc)
read_triples-InLine (name ∷ (t ∷ ts) ∷ w ∷ rest) offset at e =
    let (width, _, e1) = >>=-eq-ok (read_int w at) _ e in
    let (positive, e2) = throw_if-eq-ok (not (ltb_ℤ (pos 0) width)) _ _ e1 in
    let (more, read, e3) = >>=-eq-ok (read_triples rest (offset + pos_part width) at) _ e2 in
    let later = read_triples-InLine rest (offset + pos_part width) at read in
    subst (λ ps. All (InLine (offset + total_width ps)) ps) (ok-injective e3)
      (
        (ground arith, omega arith),
        InLine-shift (offset + pos_part width + total_width more)
            (offset + (pos_part width + total_width more)) more (omega arith) later,
      )

pub parse_properties-InLine :
    (schema : Bytes) (at : SourceLocation) {ps : List Property}
    → parse_properties schema at ≡ ok ps
    → All (InLine (total_width ps)) ps
unfolding parse_properties
parse_properties-InLine schema at {ps} e =
    let (_, e1) = throw_if-eq-ok (not (length (split_colons [] schema) % 3 == 0)) _ _ e in
    InLine-shift (0 + total_width ps) (total_width ps) ps (omega arith)
      (read_triples-InLine (split_colons [] schema) 0 at e1)

-- The property that a column was found as, if it was.
abbrev pub OptionInLine : ℕ → Option Property → Type 0
OptionInLine total none = Unit {0}
OptionInLine total (some p) = InLine total p

OptionInLine-if :
    (total : ℕ) (t : Bool) (p : Property) (rest : Option Property)
    → InLine total p
    → OptionInLine total rest
    → OptionInLine total (if t then some p else rest)
OptionInLine-if total true p rest h k = h
OptionInLine-if total false p rest h k = k

pub find_property-InLine :
    (total : ℕ) (ps : List Property) (name : String)
    → All (InLine total) ps
    → OptionInLine total (find_property ps name)
unfolding find_property
find_property-InLine total [] name h = tt
find_property-InLine total (p ∷ ps) name (here, rest) =
    OptionInLine-if total (is_word p.name name) p (find_property ps name) here
      (find_property-InLine total ps name rest)

-- The columns lie in a line of `total` tokens.
pub record Placed (c : Columns) : Type 0 where
  pub species : InLine c.total c.species
  pub position : InLine c.total c.position
  pub mass : OptionInLine c.total c.mass
  pub charge : OptionInLine c.total c.charge
  pub velocity : OptionInLine c.total c.velocity
  pub group : OptionInLine c.total c.group
