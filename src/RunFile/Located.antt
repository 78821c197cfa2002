-- ===== src/RunFile/Located.antt =====
-- The commands of a run file, each with the line that it was read from.
use dmg_md.Base.{
  ℕ, suc, ◌+◌, ◌≡◌, refl, true, List, [], ◌∷◌, ◌++◌, some, ok, ◌>>=◌, arith, >>=-eq-ok,
  throw_if-eq-ok, ok-injective, subst, sym, ap, ◌∙◌, All, All-append, All-map, get_elem?, length,
  ltb,
}
use dmg_md.Base.Floats.{Floats}
use dmg_md.RunFile.Numbers.{Strtod}
use dmg_md.RunFile.Tokens.{tokenize_run_line}
use dmg_md.RunFile.Parse.{parse_command, parse_line, parse_lines, parse_run_file}
use dmg_md.RunFile.Accepted.{good_command, parse_command-good}
use dmg_md.RunFile.{Bytes, SourceLocation, CommandData, Command, too_many_tokens}

module _ (F : Floats) (strtod : Bytes → Strtod F.Double) where
  -- The command is good and carries the text of a line past line `number`.
  abbrev pub IsLocated : Bytes → List Bytes → ℕ → Command F → Type 0
  IsLocated file lines number c =
      (good_command F strtod c.data_of ≡ true)
      × (c.source.file ≡ file)
      × ((k : ℕ) × (c.source.line ≡ suc (number + k)) × (get_elem? lines k ≡ some c.source.text))

  abbrev IsAt : SourceLocation → Command F → Type 0
  IsAt at c = (good_command F strtod c.data_of ≡ true) × (c.source ≡ at)

  parse_line-IsAt :
      (tokens : List Bytes) (at : SourceLocation) {cs : List (Command F)}
      → parse_line F strtod tokens at ≡ ok cs
      → All (IsAt at) cs
  unfolding parse_line
  parse_line-IsAt [] at e = subst (All (IsAt at)) (ok-injective e) tt
  parse_line-IsAt (keyword ∷ args) at e =
      let one = λ (d : CommandData F). record { source = at; data_of = d } ∷ [] in
      let parsed = parse_command F strtod keyword args at >>= λ d. ok (one d) in
      let (_, e1) =
        throw_if-eq-ok (ltb 32 (length (keyword ∷ args)))
          (record { location = at; message = too_many_tokens }) parsed e in
      let (d, read, e2) = >>=-eq-ok (parse_command F strtod keyword args at) (λ d. ok (one d)) e1 in
      subst (All (IsAt at)) (ok-injective e2)
        ((parse_command-good F strtod keyword args at read, refl), tt)

  IsLocated-at :
      (file line : Bytes) (lines : List Bytes) (number : ℕ) (c : Command F)
      → IsAt (record { file = file; line = suc number; text = line }) c
      → IsLocated file (line ∷ lines) number c
  IsLocated-at file line lines number c (good, at) = (
    good,
    ap (λ s. s.file) at,
    (0, ap (λ s. s.line) at ∙ omega arith, ap (λ s. some s.text) (sym at)),
  )

  IsLocated-later :
      (file line : Bytes) (lines : List Bytes) (number : ℕ) (c : Command F)
      → IsLocated file lines (suc number) c
      → IsLocated file (line ∷ lines) number c
  IsLocated-later file line lines number c (good, in_file, (k, at, text)) =
      (good, in_file, (suc k, at ∙ omega arith, text))

  parse_lines-IsLocated :
      (file : Bytes) (lines : List Bytes) (number : ℕ) {program : List (Command F)}
      → parse_lines F strtod file lines number ≡ ok program
      → All (IsLocated file lines number) program
  unfolding parse_lines
  parse_lines-IsLocated file [] number e =
      subst (All (IsLocated file [] number)) (ok-injective e) tt
  parse_lines-IsLocated file (line ∷ lines) number e =
      let at : SourceLocation = record { file = file; line = suc number; text = line } in
      let here = parse_line F strtod (tokenize_run_line line) at in
      let later = parse_lines F strtod file lines (suc number) in
      let (cs, one, e1) = >>=-eq-ok here (λ cs. later >>= λ rest. ok (cs ++ rest)) e in
      let (rest, more, e2) = >>=-eq-ok later (λ rest. ok (cs ++ rest)) e1 in
      let first = parse_line-IsAt (tokenize_run_line line) at one in
      let others = parse_lines-IsLocated file lines (suc number) more in
      let P = IsLocated file (line ∷ lines) number in
      subst (All P) (ok-injective e2) (
        All-append P cs rest
          (All-map (IsAt at) P cs (λ c h. IsLocated-at file line lines number c h) first)
          (All-map (IsLocated file lines (suc number)) P rest
            (λ c h. IsLocated-later file line lines number c h) others))

  -- Each command of a file that is accepted keeps what it promises, names the file, and carries the
  -- number, counted from 1, and the text of a line of the file.
  pub parse_run_file-IsLocated :
      (file : Bytes) (lines : List Bytes) {program : List (Command F)}
      → parse_run_file F strtod file (some lines) ≡ ok program
      → All (IsLocated file lines 0) program
  unfolding parse_run_file
  parse_run_file-IsLocated file lines e = parse_lines-IsLocated file lines 0 e
