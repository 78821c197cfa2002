-- ===== src/RunFile/Parse.antt =====
-- `parse_command` and `parse_run_file`. The reader of numbers is the C library's.
use Prim.Native.String.{String}
use dmg_md.Base.{
  ℕ, suc, Bool, false, not, ◌||◌, List, [], ◌∷◌, ◌++◌, Option, none, some, Result, ok, ◌>>=◌, ◌>>◌,
  if◌then◌else◌, ltb, length,
}
use dmg_md.Base.Floats.{Floats}
use dmg_md.Base.Int.{ℤ, pos, ltb_ℤ}
use dmg_md.RunFile.Text.{is_word, codes}
use dmg_md.RunFile.Numbers.{parse_int, parse_real, Strtod}
use dmg_md.RunFile.Tokens.{tokenize_run_line}
use dmg_md.RunFile.Commands.{fail, fail_if, parse_dump_xyz}
use dmg_md.RunFile.{
  Bytes, SourceLocation, InputError, EnsembleKind, nve, nvt_ber, nvt_nhc, nvt_bdp, npt_ber, npt_scr,
  CommandData, Command, potential_command, velocity_command, time_step_command, ensemble_command,
  correct_velocity_command, dump_thermo_command, dump_xyz_command, dump_restart_command,
  run_command, wrong_size, missing_type, not_positive, negative, too_small, unsupported,
  too_many_tokens, cannot_open,
}

-- An interval of dump_thermo or dump_restart.
unfoldable pub parse_interval : List Bytes → SourceLocation → Result InputError ℤ
parse_interval (token ∷ []) at = do
  interval ← parse_int token at
  fail_if (not (ltb_ℤ (pos 0) interval)) at not_positive
  ok interval
parse_interval _ at = fail at wrong_size

unfoldable pub parse_run : List Bytes → SourceLocation → Result InputError ℤ
parse_run (token ∷ []) at = parse_int token at
parse_run _ at = fail at wrong_size

pub any_word : Bytes → List String → Bool
any_word token [] = false
any_word token (w ∷ ws) = is_word token w || any_word token ws

abbrev pub known_unsupported : List String
known_unsupported =
    "active" ∷ "add_efield" ∷ "add_force" ∷ "add_random_force" ∷ "add_spring" ∷ "change_box"
    ∷ "compute" ∷ "compute_adf" ∷ "compute_angular_rdf" ∷ "compute_chunk" ∷ "compute_cohesive"
    ∷ "compute_dos" ∷ "compute_dpdt" ∷ "compute_elastic" ∷ "compute_es" ∷ "compute_extrapolation"
    ∷ "compute_gkma" ∷ "compute_hac" ∷ "compute_hnema" ∷ "compute_hnemd" ∷ "compute_hnemdec"
    ∷ "compute_ic" ∷ "compute_lsqt" ∷ "compute_msd" ∷ "compute_orientorder" ∷ "compute_phonon"
    ∷ "compute_rdf" ∷ "compute_sdc" ∷ "compute_shc" ∷ "compute_viscosity" ∷ "deform" ∷ "dftd3"
    ∷ "dump_beads" ∷ "dump_cg" ∷ "dump_dipole" ∷ "dump_exyz" ∷ "dump_force" ∷ "dump_netcdf"
    ∷ "dump_observer" ∷ "dump_polarizability" ∷ "dump_position" ∷ "dump_shock_nemd"
    ∷ "dump_velocity" ∷ "electron_stop" ∷ "fix" ∷ "kspace" ∷ "mc" ∷ "minimize" ∷ "move" ∷ "neighbor"
    ∷ "plumed" ∷ "replicate" ∷ []

module _ (F : Floats) (strtod : Bytes → Strtod F.Double) where
  open F use {Double, led, ltd, of_int}

  unfoldable pub parse_potential : List Bytes → SourceLocation → Result InputError (CommandData F)
  parse_potential (filename ∷ []) at = ok (potential_command filename)
  parse_potential (filename ∷ direction ∷ []) at =
      fail at (unsupported (codes "potential partition direction"))
  parse_potential _ at = fail at wrong_size

  unfoldable pub parse_temperature : Bytes → SourceLocation → Result InputError Double
  parse_temperature token at = do
    temperature ← parse_real F strtod token at
    fail_if (led temperature (of_int (pos 0))) at not_positive
    ok temperature

  unfoldable pub parse_velocity : List Bytes → SourceLocation → Result InputError (CommandData F)
  unfolding parse_temperature
  parse_velocity (token ∷ []) at = do
    temperature ← parse_temperature token at
    ok (velocity_command (record { temperature = temperature; seed = none }))
  parse_velocity (token ∷ word ∷ seed_token ∷ []) at = do
    temperature ← parse_temperature token at
    seed ← parse_int seed_token at
    ok (velocity_command (record { temperature = temperature; seed = some seed }))
  parse_velocity _ at = fail at wrong_size

  unfoldable pub parse_time_step : List Bytes → SourceLocation → Result InputError (CommandData F)
  parse_time_step (token ∷ []) at = do
    dt ← parse_real F strtod token at
    ok (time_step_command (record { femtoseconds = dt; maximum_distance_angstrom = none }))
  parse_time_step (token ∷ distance_token ∷ []) at = do
    dt ← parse_real F strtod token at
    value ← parse_real F strtod distance_token at
    fail_if (led value (of_int (pos 0))) at not_positive
    ok (time_step_command (record { femtoseconds = dt; maximum_distance_angstrom = some value }))
  parse_time_step _ at = fail at wrong_size

  unfoldable pub parse_npt :
      EnsembleKind → List Bytes → SourceLocation → Result InputError (CommandData F)
  parse_npt kind (t1 ∷ t2 ∷ tc ∷ p ∷ b ∷ pc ∷ []) at = do
    initial ← parse_real F strtod t1 at
    final ← parse_real F strtod t2 at
    coupling ← parse_real F strtod tc at
    pressure ← parse_real F strtod p at
    modulus ← parse_real F strtod b at
    pressure_coupling ← parse_real F strtod pc at
    fail_if (led initial (of_int (pos 0)) || led final (of_int (pos 0))) at not_positive
    fail_if (ltd coupling (of_int (pos 1))) at too_small
    fail_if (led modulus (of_int (pos 0))) at not_positive
    fail_if (ltd pressure_coupling (of_int (pos 1))) at too_small
    ok (
        ensemble_command (record {
          kind = kind;
          initial_temperature = initial;
          final_temperature = final;
          temperature_coupling = coupling;
          target_pressure_gpa = pressure;
          bulk_modulus_gpa = modulus;
          pressure_coupling = pressure_coupling;
        }))
  parse_npt kind _ at = fail at wrong_size

  unfoldable pub parse_nvt :
      EnsembleKind → List Bytes → SourceLocation → Result InputError (CommandData F)
  parse_nvt kind (t1 ∷ t2 ∷ tc ∷ []) at = do
    initial ← parse_real F strtod t1 at
    final ← parse_real F strtod t2 at
    coupling ← parse_real F strtod tc at
    fail_if (led initial (of_int (pos 0)) || led final (of_int (pos 0))) at not_positive
    fail_if (ltd coupling (of_int (pos 1))) at too_small
    ok (
        ensemble_command (record {
          kind = kind;
          initial_temperature = initial;
          final_temperature = final;
          temperature_coupling = coupling;
          target_pressure_gpa = of_int (pos 0);
          bulk_modulus_gpa = of_int (pos 0);
          pressure_coupling = of_int (pos 0);
        }))
  parse_nvt kind _ at = fail at wrong_size

  unfoldable pub parse_nve : List Bytes → SourceLocation → Result InputError (CommandData F)
  parse_nve [] at = ok (
      ensemble_command (record {
        kind = nve;
        initial_temperature = of_int (pos 0);
        final_temperature = of_int (pos 0);
        temperature_coupling = of_int (pos 0);
        target_pressure_gpa = of_int (pos 0);
        bulk_modulus_gpa = of_int (pos 0);
        pressure_coupling = of_int (pos 0);
      }))
  parse_nve _ at = fail at wrong_size

  unfoldable pub parse_ensemble : List Bytes → SourceLocation → Result InputError (CommandData F)
  parse_ensemble [] at = fail at missing_type
  parse_ensemble (name ∷ args) at =
      if is_word name "nve"
      then parse_nve args at
      else if is_word name "npt_ber"
      then parse_npt npt_ber args at
      else if is_word name "npt_scr"
      then parse_npt npt_scr args at
      else if is_word name "nvt_ber"
      then parse_nvt nvt_ber args at
      else if is_word name "nvt_nhc"
      then parse_nvt nvt_nhc args at
      else if is_word name "nvt_bdp"
      then parse_nvt nvt_bdp args at
      else fail at (unsupported (codes "ensemble " ++ name))

  unfoldable pub parse_correct_velocity :
      List Bytes → SourceLocation → Result InputError (CommandData F)
  parse_correct_velocity (token ∷ []) at = do
    interval ← parse_int token at
    fail_if (ltb_ℤ interval (pos 10)) at too_small
    ok (correct_velocity_command interval none)
  parse_correct_velocity (token ∷ method_token ∷ []) at = do
    interval ← parse_int token at
    fail_if (ltb_ℤ interval (pos 10)) at too_small
    method ← parse_int method_token at
    fail_if (ltb_ℤ method (pos 0)) at negative
    ok (correct_velocity_command interval (some method))
  parse_correct_velocity _ at = fail at wrong_size

  -- The tokens are the keyword and what follows it.
  unfoldable pub parse_command :
      Bytes → List Bytes → SourceLocation → Result InputError (CommandData F)
  parse_command keyword args at =
      if is_word keyword "potential"
      then parse_potential args at
      else if is_word keyword "velocity"
      then parse_velocity args at
      else if is_word keyword "time_step"
      then parse_time_step args at
      else if is_word keyword "ensemble"
      then parse_ensemble args at
      else if is_word keyword "correct_velocity"
      then parse_correct_velocity args at
      else if is_word keyword "dump_thermo"
      then (do interval ← parse_interval args at; ok (dump_thermo_command interval))
      else if is_word keyword "dump_xyz"
      then (do command ← parse_dump_xyz args at; ok (dump_xyz_command command))
      else if is_word keyword "dump_restart"
      then (do interval ← parse_interval args at; ok (dump_restart_command interval))
      else if is_word keyword "run"
      then (do steps ← parse_run args at; ok (run_command steps))
      else if any_word keyword known_unsupported
      then fail at (unsupported keyword)
      else fail at (unsupported (keyword ++ codes " (unknown)"))

  -- The tokens of one line: nothing for a blank line or a comment.
  unfoldable pub parse_line : List Bytes → SourceLocation → Result InputError (List (Command F))
  parse_line [] at = ok []
  parse_line (keyword ∷ args) at = do
    fail_if (ltb 32 (length (keyword ∷ args))) at too_many_tokens
    data_of ← parse_command keyword args at
    ok (record { source = at; data_of = data_of } ∷ [])

  -- The loop over the lines; `number` is that of the line before.
  unfoldable pub parse_lines : Bytes → List Bytes → ℕ → Result InputError (List (Command F))
  parse_lines file [] number = ok []
  parse_lines file (line ∷ lines) number = do
    commands ←
        parse_line (tokenize_run_line line) (record { file = file; line = suc number; text = line })
    rest ← parse_lines file lines (suc number)
    ok (commands ++ rest)

  -- The lines are those that `std::getline` reads, if the file can be opened.
  unfoldable pub parse_run_file : Bytes → Option (List Bytes) → Result InputError (List (Command F))
  parse_run_file file none = fail (record { file = file; line = 0; text = [] }) cannot_open
  parse_run_file file (some lines) = parse_lines file lines 0
