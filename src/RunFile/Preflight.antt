-- ===== src/RunFile/Preflight.antt =====
-- `validate_runtime_ensembles` and `program_uses_npt`: the scan of a whole program before it runs.
use dmg_md.Base.{
  Bool, true, false, not, ◌&&◌, ◌||◌, List, [], ◌∷◌, Option, none, some, Result, ok, ◌>>◌, throw_if,
  if◌then◌else◌,
}
use dmg_md.Base.Floats.{Floats}
use dmg_md.Base.Int.{pos}
use dmg_md.RunFile.{
  InputError, SourceLocation, no_correct_velocity, no_adaptive_step, needs_time_step, EnsembleKind,
  nve, nvt_nhc, nvt_bdp, npt_ber, npt_scr, CommandData, Command, time_step_command,
  ensemble_command, correct_velocity_command, run_command,
}

abbrev pub is_npt : EnsembleKind → Bool
is_npt npt_ber = true
is_npt npt_scr = true
is_npt _ = false

-- The two thermostats that keep their state on the host.
abbrev pub is_hosted : EnsembleKind → Bool
is_hosted nvt_nhc = true
is_hosted nvt_bdp = true
is_hosted _ = false

abbrev pub has_value : {A : Type 0} → Option A → Bool
has_value none = false
has_value (some a) = true

module _ (F : Floats) where
  open F use {Double, led, of_int, is_finite}

  -- The variables of the scan.
  pub record Scan : Type 0 where
    pub selected : EnsembleKind
    pub adaptive : Bool
    pub correction : Bool
    pub base_time_step : Double

  abbrev pub start_scan : Scan
  start_scan = record {
    selected = nve;
    adaptive = false;
    correction = false;
    base_time_step = of_int (pos 1);
  }

  -- `!std::isfinite(base_time_step) || base_time_step <= 0.0`
  unfoldable pub bad_step : Double → Bool
  bad_step dt = not (is_finite dt) || led dt (of_int (pos 0))

  -- The two groups of checks at a run, each for its own kinds.
  unfoldable pub check_run : SourceLocation → Scan → Result InputError (Unit {0})
  unfolding bad_step
  check_run at s = do
    let npt = is_npt s.selected
    throw_if (npt && s.correction) (record { location = at; message = no_correct_velocity })
    throw_if (npt && s.adaptive) (record { location = at; message = no_adaptive_step })
    throw_if (npt && bad_step s.base_time_step)
        (record { location = at; message = needs_time_step })
    let hosted = is_hosted s.selected
    throw_if (hosted && s.correction) (record { location = at; message = no_correct_velocity })
    throw_if (hosted && s.adaptive) (record { location = at; message = no_adaptive_step })
    throw_if (hosted && bad_step s.base_time_step)
        (record { location = at; message = needs_time_step })

  -- What a command leaves in the variables, a run's checks aside.
  unfoldable pub scanned : CommandData F → Scan → Scan
  scanned (time_step_command dt) s = record s {
    adaptive = has_value dt.maximum_distance_angstrom;
    base_time_step = dt.femtoseconds;
  }
  scanned (correct_velocity_command interval method) s = record s { correction = true }
  scanned (run_command steps) s = record s { correction = false; adaptive = false }
  scanned (ensemble_command e) s = record s { selected = e.kind }
  scanned _ s = s

  abbrev pub check_command : SourceLocation → CommandData F → Scan → Result InputError (Unit {0})
  check_command at (run_command steps) s = check_run at s
  check_command at _ s = ok tt

  unfoldable pub scan_commands : List (Command F) → Scan → Result InputError (Unit {0})
  scan_commands [] s = ok tt
  scan_commands (c ∷ cs) s = do
    check_command c.source c.data_of s
    scan_commands cs (scanned c.data_of s)

  unfoldable pub validate_runtime_ensembles : List (Command F) → Result InputError (Unit {0})
  validate_runtime_ensembles program = scan_commands program start_scan

  abbrev pub is_npt_command : CommandData F → Bool
  is_npt_command (ensemble_command e) = is_npt e.kind
  is_npt_command _ = false

  unfoldable pub program_uses_npt : List (Command F) → Bool
  program_uses_npt [] = false
  program_uses_npt (c ∷ cs) = if is_npt_command c.data_of then true else program_uses_npt cs
