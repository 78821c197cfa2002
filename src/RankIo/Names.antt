-- ===== src/RankIo/Names.antt =====
-- The paths, names and texts that the isolation works with.
use Prim.Native.String.{String}
use dmg_md.Base.{
  ℕ, zero, suc, ◌+◌, ◌/◌, ◌%◌, ◌==◌, leb, ltb, Bool, true, false, ◌&&◌, ◌||◌, not, List, [], ◌∷◌,
  ◌++◌, Option, none, some, if◌then◌else◌,
}
use dmg_md.RunFile.{Bytes}
use dmg_md.RunFile.Text.{codes, same_bytes}
use dmg_md.RankIo.{FilePath, Place, is_empty_text, no_parts, is_no_path}

-- `std::to_string` of a number below 10 to the power of the fuel.
unfoldable pub decimal : ℕ → ℕ → Bytes
decimal zero n = []
decimal (suc fuel) n =
    let front = decimal fuel (n / 10) in (if ltb n 10 then [] else front) ++ ((b'0' + n % 10) ∷ [])

-- The text of an `int`, which has at most 10 digits.
unfoldable pub to_string : ℕ → Bytes
to_string n = decimal 10 n

abbrev pub extended : ℕ → Option (Bytes × Bytes) → Option (Bytes × Bytes)
extended c none = none
extended c (some (before, after)) = some (c ∷ before, after)

-- The text before the first colon and the text after it.
unfoldable pub split_colon : Bytes → Option (Bytes × Bytes)
split_colon [] = none
split_colon (c ∷ cs) =
    let rest = split_colon cs in if c == b':' then some ([], cs) else extended c rest

unfoldable pub names_step : Option (Bytes × Bytes) → String → ℕ → Bool
names_step none operation rank = false
names_step (some (before, after)) operation rank =
    same_bytes before (to_string rank) && same_bytes after (codes operation)

unfoldable pub fault_in : Option Bytes → String → ℕ → Bool
fault_in none operation rank = false
fault_in (some value) operation rank = names_step (split_colon value) operation rank

unfoldable pub rank_io_fault_requested : Place → String → Bool
rank_io_fault_requested at operation = fault_in at.fault operation at.rank

-- The components of a path, the last one first.
unfoldable pub backwards : List Bytes → List Bytes → List Bytes
backwards [] done = done
backwards (p ∷ ps) done = backwards ps (p ∷ done)

abbrev pub first_part : List Bytes → Bytes
first_part [] = []
first_part (p ∷ ps) = p

abbrev pub other_parts : List Bytes → List Bytes
other_parts [] = []
other_parts (p ∷ ps) = ps

unfoldable pub file_name : FilePath → Bytes
file_name p = first_part (backwards p.parts [])

unfoldable pub parent_path : FilePath → FilePath
parent_path p = record {
  absolute = p.absolute;
  parts = backwards (other_parts (backwards p.parts [])) [];
}

-- The loop of `strip_trailing_separators`, on the components with the last one first.
unfoldable pub drop_empty : List Bytes → List Bytes
drop_empty [] = []
drop_empty (p ∷ ps) = let rest = drop_empty ps in if is_empty_text p then rest else p ∷ ps

unfoldable pub strip_trailing_separators : FilePath → FilePath
strip_trailing_separators p = record {
  absolute = p.absolute;
  parts = backwards (drop_empty (backwards p.parts [])) [];
}

abbrev pub without_separator : List Bytes → List Bytes
without_separator [] = []
without_separator (p ∷ ps) = if is_empty_text p then ps else p ∷ ps

-- `a / b` of two paths.
unfoldable pub join : FilePath → FilePath → FilePath
join a b = if b.absolute then b else record {
  absolute = a.absolute;
  parts = backwards (without_separator (backwards a.parts [])) b.parts;
}

-- `a / name`.
unfoldable pub child : FilePath → Bytes → FilePath
child a name = join a (record { absolute = false; parts = name ∷ [] })

abbrev pub is_up : Bytes → Bool
is_up p = same_bytes p (codes "..")

-- One component of `lexically_normal`: the components kept, the last one first, and whether the text
-- so far ends in a separator.
unfoldable pub normal_step : Bool → List Bytes × Bool → Bytes → List Bytes × Bool
normal_step rooted (kept, ended) p =
    if is_empty_text p || same_bytes p (codes ".")
    then (kept, true)
    else if not (is_up p)
    then (p ∷ kept, false)
    else if no_parts kept
    then (if rooted then (kept, true) else (p ∷ kept, false))
    else if is_up (first_part kept)
    then (p ∷ kept, false)
    else (other_parts kept, true)

unfoldable pub normal_parts : Bool → List Bytes × Bool → List Bytes → List Bytes × Bool
normal_parts rooted state [] = state
normal_parts rooted state (p ∷ ps) = normal_parts rooted (normal_step rooted state p) ps

unfoldable pub closed_parts : Bool → List Bytes × Bool → List Bytes
closed_parts rooted ([], ended) = if rooted then [] else codes "." ∷ []
closed_parts rooted (p ∷ ps, ended) =
    if ended && not (is_up p) then backwards ([] ∷ p ∷ ps) [] else backwards (p ∷ ps) []

unfoldable pub lexically_normal : FilePath → FilePath
lexically_normal p = if is_no_path p then p else record {
  absolute = p.absolute;
  parts = closed_parts p.absolute (normal_parts p.absolute ([], false) p.parts);
}

-- The components with a separator between them.
unfoldable pub separated : List Bytes → Bytes
separated [] = []
separated (p ∷ []) = p
separated (p ∷ q ∷ ps) = p ++ (b'/' ∷ separated (q ∷ ps))

unfoldable pub path_string : FilePath → Bytes
path_string p = if p.absolute then b'/' ∷ separated p.parts else separated p.parts

unfoldable pub same_parts : List Bytes → List Bytes → Bool
same_parts [] [] = true
same_parts (p ∷ ps) (q ∷ qs) = same_bytes p q && same_parts ps qs
same_parts _ _ = false

abbrev pub same_bool : Bool → Bool → Bool
same_bool true b = b
same_bool false b = not b

unfoldable pub same_path : FilePath → FilePath → Bool
same_path p q = same_bool p.absolute q.absolute && same_parts p.parts q.parts

unfoldable pub is_hex_digit : ℕ → Bool
is_hex_digit c = leb b'0' c && leb c b'9' || leb b'a' c && leb c b'f'

unfoldable pub all_hex : Bytes → Bool
all_hex [] = true
all_hex (c ∷ cs) = is_hex_digit c && all_hex cs

unfoldable pub count_bytes : Bytes → ℕ
count_bytes [] = 0
count_bytes (b ∷ bs) = suc (count_bytes bs)

unfoldable pub is_hex_token : Bytes → Bool
is_hex_token text = count_bytes text == 16 && all_hex text

-- `name.compare(0, prefix.size(), prefix) == 0`.
unfoldable pub has_prefix : Bytes → Bytes → Bool
has_prefix [] name = true
has_prefix (b ∷ bs) [] = false
has_prefix (b ∷ bs) (c ∷ cs) = b == c && has_prefix bs cs

-- The name of a scratch directory: the prefix and the six characters of mkdtemp.
unfoldable pub name_matches : Bytes → Bytes → Bool
name_matches prefix name = count_bytes name == count_bytes prefix + 6 && has_prefix prefix name

unfoldable pub rank_io_diagnostic : Place → String → FilePath → Bytes → Bytes
rank_io_diagnostic at operation target reason =
    codes "rank="
    ++ to_string at.rank
    ++ codes " hostname="
    ++ at.hostname
    ++ codes " "
    ++ codes operation
    ++ codes " "
    ++ path_string target
    ++ codes ": "
    ++ reason

-- `error += error.empty() ? note : "; " + note`.
unfoldable pub append_note : Bytes → Bytes → Bytes
append_note error note =
    if is_empty_text note
    then error
    else if is_empty_text error
    then note
    else error ++ codes "; " ++ note

abbrev pub relative_path : String → FilePath
relative_path name = record { absolute = false; parts = codes name ∷ [] }
