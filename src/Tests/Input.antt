-- ===== src/Tests/Input.antt =====
-- A run file of two commands, read with a reader of whole numbers in place of `strtod`.
use dmg_md.Base.{ℕ, ◌≡◌, refl, true, false, List, [], ◌∷◌, none, some, ok, err, arith, All}
use dmg_md.Base.Floats.{milli}
use dmg_md.Base.Int.{pos, negsuc}
use dmg_md.RunFile.Text.{codes, same_bytes, is_word, is_space}
use dmg_md.RunFile.Numbers.{
  c_str, skip_spaces, digit_of, read_digits, read_magnitude, strtol, is_nil, parse_int, Strtod,
}
use dmg_md.RunFile.Decimal.{numeral, parse_int-numeral}
use dmg_md.RunFile.Tokens.{
  tokenize_run_line, get_tokens, words_from, flush, before_comment, is_comment, IsToken,
  tokenize-IsToken,
}
use dmg_md.RunFile.Parse.{
  parse_interval, parse_run, parse_command, parse_line, parse_lines, parse_run_file,
}
use dmg_md.RunFile.Accepted.{good_command, parse_command-good}
use dmg_md.RunFile.Located.{IsLocated, parse_run_file-IsLocated}
use dmg_md.RunFile.Preflight.{
  scanned, check_run, bad_step, scan_commands, validate_runtime_ensembles, program_uses_npt,
}
use dmg_md.RunFile.Supported.{is_supported, validate-supports, validate-refuses, Refused}
use dmg_md.RunFile.{
  Bytes, SourceLocation, InputError, npt_ber, Command, ensemble_command, correct_velocity_command,
  run_command, no_correct_velocity, dump_thermo_command,
}

-- A reader that takes a text as the number 1.
abbrev pub reads_one : Bytes → Strtod ℕ
reads_one text = record { value = 1000; converted = true; rest = []; range_error = false }

abbrev pub here : ℕ → Bytes → SourceLocation
here n text = record { file = codes "run.in"; line = n; text = text }

-- 42 and -42.
parse_int-numeral_example :
    (parse_int (numeral (4 ∷ 2 ∷ [])) (here 1 []) ≡ ok (pos 42))
    × (parse_int (b'-' ∷ numeral (4 ∷ 2 ∷ [])) (here 1 []) ≡ ok (negsuc 41))
parse_int-numeral_example =
    parse_int-numeral 4 (2 ∷ []) 41 (here 1 []) (omega arith) (omega arith, (omega arith, tt)) refl
      (omega arith)

reads_interval :
    parse_command milli reads_one (codes "dump_thermo") (codes "100" ∷ []) (here 3 [])
    ≡ ok (dump_thermo_command (pos 100))
unfolding parse_command is_word same_bytes parse_interval parse_int c_str strtol skip_spaces
    is_space read_magnitude read_digits digit_of is_nil
reads_interval = refl

parse_command-good_example : good_command milli reads_one (dump_thermo_command (pos 100)) ≡ true
parse_command-good_example =
    parse_command-good milli reads_one (codes "dump_thermo") (codes "100" ∷ []) (here 3 [])
      reads_interval

abbrev two_lines : List Bytes
two_lines = codes "# NVE" ∷ codes "run 10 # steps" ∷ []

abbrev run_ten : Command milli
run_ten = record { source = here 2 (codes "run 10 # steps"); data_of = run_command (pos 10) }

reads_two_lines :
    parse_run_file milli reads_one (codes "run.in") (some two_lines) ≡ ok (run_ten ∷ [])
unfolding parse_run_file parse_lines parse_line tokenize_run_line get_tokens words_from flush
    before_comment is_comment parse_command is_word same_bytes parse_run parse_int c_str strtol
    skip_spaces is_space read_magnitude read_digits digit_of is_nil
reads_two_lines = refl

parse_run_file-IsLocated_example :
    All (IsLocated milli reads_one (codes "run.in") two_lines 0) (run_ten ∷ [])
parse_run_file-IsLocated_example =
    parse_run_file-IsLocated milli reads_one (codes "run.in") two_lines reads_two_lines

abbrev berendsen : Command milli
berendsen = record {
  source = here 1 [];
  data_of = ensemble_command (record {
    kind = npt_ber;
    initial_temperature = 300000;
    final_temperature = 300000;
    temperature_coupling = 100000;
    target_pressure_gpa = 0;
    bulk_modulus_gpa = 50000;
    pressure_coupling = 1000000;
  });
}

abbrev corrected : Command milli
corrected = record { source = here 2 []; data_of = correct_velocity_command (pos 10) none }

accepts_npt : validate_runtime_ensembles milli (berendsen ∷ run_ten ∷ []) ≡ ok tt
unfolding validate_runtime_ensembles scan_commands scanned check_run bad_step
accepts_npt = refl

validate-supports_example : is_supported milli (berendsen ∷ []) ≡ true
validate-supports_example = validate-supports milli (berendsen ∷ []) [] run_ten refl accepts_npt

abbrev refusal : InputError
refusal = record { location = run_ten.source; message = no_correct_velocity }

refuses_npt : validate_runtime_ensembles milli (berendsen ∷ corrected ∷ run_ten ∷ []) ≡ err refusal
unfolding validate_runtime_ensembles scan_commands scanned check_run bad_step
refuses_npt = refl

validate-refuses_example : Refused milli (berendsen ∷ corrected ∷ run_ten ∷ []) [] refusal
validate-refuses_example =
    validate-refuses milli (berendsen ∷ corrected ∷ run_ten ∷ []) refusal refuses_npt

uses_no_npt : program_uses_npt milli (corrected ∷ run_ten ∷ []) ≡ false
unfolding program_uses_npt
uses_no_npt = refl

tokenize-IsToken_example : All IsToken (tokenize_run_line (codes "run 10 # steps"))
tokenize-IsToken_example = tokenize-IsToken (codes "run 10 # steps")
