-- ===== src/Model/Fields.antt =====
-- `assignment` and `parse_properties`: the fields of the second line of a model file.
use Prim.Native.String.{String}
use dmg_md.Base.{
  ℕ, suc, ◌+◌, ◌%◌, Bool, true, false, not, ◌&&◌, ◌||◌, List, [], ◌∷◌, ◌++◌, map, Option, none,
  some, Result, ok, err, ◌>>=◌, ◌>>◌, throw_if, length, drop, leb, ◌==◌, if◌then◌else◌,
}
use dmg_md.Base.Int.{ℤ, pos, pos_part, ltb_ℤ}
use dmg_md.RunFile.{Bytes, SourceLocation}
use dmg_md.RunFile.Text.{codes, is_word}
use dmg_md.RunFile.Numbers.{skip_spaces, parse_int}
use dmg_md.Model.{
  ModelError, ModelFailure, unterminated_quote, not_triples, bad_width, not_an_integer,
}

abbrev pub fail : {A : Type 0} → SourceLocation → ModelError → Result ModelFailure A
fail at message = err (record { location = at; message = message })

abbrev pub fail_if : Bool → SourceLocation → ModelError → Result ModelFailure (Unit {0})
fail_if bad at message = throw_if bad (record { location = at; message = message })

-- The `parse_int` of this file is that of the run file, with a message of its own.
unfoldable pub read_int : Bytes → SourceLocation → Result ModelFailure ℤ
read_int token at = elim (parse_int token at) [ ok n ↦ ok n | err e ↦ fail at not_an_integer ]

-- `std::tolower` in the C locale.
unfoldable pub lower : ℕ → ℕ
lower c = if leb b'A' c && leb c b'Z' then c + 32 else c

unfoldable pub lowercase : Bytes → Bytes
unfolding lower
lowercase = map lower

unfoldable pub starts_with : Bytes → Bytes → Bool
starts_with [] text = true
starts_with (n ∷ ns) [] = false
starts_with (n ∷ ns) (c ∷ cs) = n == c && starts_with ns cs

abbrev add_one : Option ℕ → Option ℕ
add_one none = none
add_one (some k) = some (suc k)

-- `text.find(needle)`
unfoldable pub find : Bytes → Bytes → Option ℕ
find needle [] = if starts_with needle [] then some 0 else none
find needle (c ∷ cs) = if starts_with needle (c ∷ cs) then some 0 else add_one (find needle cs)

-- The rest of a quoted value, up to the closing quote.
unfoldable pub quoted : Bytes → Option Bytes
quoted [] = none
quoted (c ∷ cs) =
    let rest = quoted cs in
    if c == b'"' then some [] else elim rest [ none ↦ none | some v ↦ some (c ∷ v) ]

is_blank : ℕ → Bool
is_blank c = c == b' ' || c == 9 || c == 13 || c == 10

unfoldable pub until_blank : Bytes → Bytes
unfolding is_blank
until_blank [] = []
until_blank (c ∷ cs) = if is_blank c then [] else c ∷ until_blank cs

-- The value after `=`.
unfoldable pub value_at : Bytes → SourceLocation → Result ModelFailure Bytes
value_at text at = elim (skip_spaces text) [
  | [] ↦ ok []
  | c ∷ cs ↦
      if c == b'"'
      then elim (quoted cs) [ some v ↦ ok v | none ↦ fail at unterminated_quote ]
      else ok (until_blank (c ∷ cs))
]

-- Whitespace may stand in front of `=`.
unfoldable pub after_spaces : Bytes → SourceLocation → Result ModelFailure Bytes
after_spaces text at = elim (skip_spaces text) [
  | [] ↦ ok []
  | c ∷ cs ↦ if c == b'=' then value_at cs at else ok []
]

-- The key is in lower case where the code calls this.
unfoldable pub assignment : Bytes → String → SourceLocation → Result ModelFailure Bytes
assignment line name at =
    let key = lowercase (codes name) in
    elim (find (key ++ b'=' ∷ []) (lowercase line)) [
      | some p ↦ value_at (drop (p + length key + 1) line) at
      | none ↦ elim (find key (lowercase line)) [
        | some p ↦ after_spaces (drop (p + length key) line) at
        | none ↦ ok []
      ]
    ]

pub record Property : Type 0 where
  pub name : Bytes
  pub type : ℕ
  pub width : ℕ
  pub offset : ℕ

-- `schema` cut at each colon; the last piece is `word`.
unfoldable pub split_colons : Bytes → Bytes → List Bytes
split_colons word [] = word ∷ []
split_colons word (c ∷ cs) =
    if c == b':' then word ∷ split_colons [] cs else split_colons (word ++ c ∷ []) cs

-- The loop over the triples; an empty type is an error.
unfoldable pub read_triples : List Bytes → ℕ → SourceLocation → Result ModelFailure (List Property)
read_triples (name ∷ [] ∷ w ∷ rest) offset at = do width ← read_int w at; fail at bad_width
read_triples (name ∷ (t ∷ ts) ∷ w ∷ rest) offset at = do
  width ← read_int w at
  fail_if (not (ltb_ℤ (pos 0) width)) at bad_width
  more ← read_triples rest (offset + pos_part width) at
  ok (record { name = lowercase name; type = t; width = pos_part width; offset = offset } ∷ more)
read_triples _ offset at = ok []

unfoldable pub parse_properties : Bytes → SourceLocation → Result ModelFailure (List Property)
parse_properties schema at = do
  let tokens = split_colons [] schema
  fail_if (not (length tokens % 3 == 0)) at not_triples
  read_triples tokens 0 at

unfoldable pub find_property : List Property → String → Option Property
find_property [] name = none
find_property (p ∷ ps) name = if is_word p.name name then some p else find_property ps name
