-- ===== src/RunFile/Supported.antt =====
-- Which runs the scan of a program lets pass, told by the commands in front of a run.
use dmg_md.Base.{
  ◌≡◌, refl, sym, ap, ◌∙◌, Bool, true, false, not, ◌&&◌, ◌||◌, List, [], ◌∷◌, ◌++◌, Result, ok, err,
  ◌>>◌, >>-eq-ok, arith, if◌then◌else◌, ◌⊎◌, inl, inr,
}
use dmg_md.Base.Floats.{Floats}
use dmg_md.Base.Int.{ℤ, pos}
use dmg_md.RunFile.{
  InputError, SourceLocation, EnsembleKind, nve, CommandData, Command, time_step_command,
  ensemble_command, correct_velocity_command, run_command, potential_command, velocity_command,
  dump_thermo_command, dump_xyz_command, dump_restart_command,
}
use dmg_md.RunFile.Preflight.{
  is_npt, is_hosted, has_value, Scan, bad_step, check_run, scanned, check_command, scan_commands,
  validate_runtime_ensembles, is_npt_command, program_uses_npt,
}

module _ (F : Floats) where
  open F use {Double, of_int}

  -- What one command does to each of the four facts below.
  abbrev kind_of : CommandData F → EnsembleKind → EnsembleKind
  kind_of (ensemble_command e) k = e.kind
  kind_of _ k = k

  abbrev step_of : CommandData F → Double → Double
  step_of (time_step_command dt) s = dt.femtoseconds
  step_of _ s = s

  abbrev corrects : CommandData F → Bool → Bool
  corrects (correct_velocity_command interval method) b = true
  corrects (run_command steps) b = false
  corrects _ b = b

  abbrev adapts : CommandData F → Bool → Bool
  adapts (time_step_command dt) b = has_value dt.maximum_distance_angstrom
  adapts (run_command steps) b = false
  adapts _ b = b

  -- A history lists commands from the latest to the first. The ensemble in force after it.
  abbrev pub last_kind : List (Command F) → EnsembleKind
  last_kind [] = nve
  last_kind (c ∷ h) = kind_of c.data_of (last_kind h)

  -- The time step in force.
  abbrev pub last_step : List (Command F) → Double
  last_step [] = of_int (pos 1)
  last_step (c ∷ h) = step_of c.data_of (last_step h)

  -- Since the last run, a velocity correction was asked for.
  abbrev pub is_corrected : List (Command F) → Bool
  is_corrected [] = false
  is_corrected (c ∷ h) = corrects c.data_of (is_corrected h)

  -- Since the last run, the latest time step came with a maximum distance.
  abbrev pub is_adaptive : List (Command F) → Bool
  is_adaptive [] = false
  is_adaptive (c ∷ h) = adapts c.data_of (is_adaptive h)

  -- A run after the history `h` is one that the runtimes carry out.
  abbrev pub is_supported : List (Command F) → Bool
  is_supported h =
      if is_npt (last_kind h) || is_hosted (last_kind h)
      then not (is_corrected h) && not (is_adaptive h) && not (bad_step F (last_step h))
      else true

  abbrev pub history_onto : List (Command F) → List (Command F) → List (Command F)
  history_onto [] h = h
  history_onto (c ∷ cs) h = history_onto cs (c ∷ h)

  abbrev described : List (Command F) → Scan F
  described h = record {
    selected = last_kind h;
    adaptive = is_adaptive h;
    correction = is_corrected h;
    base_time_step = last_step h;
  }

  scanned_parts :
      (d : CommandData F) (s : Scan F)
      → scanned F d s ≡ record {
        selected = kind_of d s.selected;
        adaptive = adapts d s.adaptive;
        correction = corrects d s.correction;
        base_time_step = step_of d s.base_time_step;
      }
  unfolding scanned
  scanned_parts (potential_command name) s = refl
  scanned_parts (velocity_command v) s = refl
  scanned_parts (time_step_command dt) s = refl
  scanned_parts (ensemble_command e) s = refl
  scanned_parts (correct_velocity_command interval method) s = refl
  scanned_parts (dump_thermo_command interval) s = refl
  scanned_parts (dump_xyz_command x) s = refl
  scanned_parts (dump_restart_command interval) s = refl
  scanned_parts (run_command steps) s = refl

  scan_step :
      (c : Command F) (cs h : List (Command F))
      → scan_commands F (c ∷ cs) (described h) ≡ (
          check_command F c.source c.data_of (described h)
          >> scan_commands F cs (described (c ∷ h)))
  unfolding scan_commands
  scan_step c cs h =
      ap (λ s. check_command F c.source c.data_of (described h) >> scan_commands F cs s)
        (scanned_parts c.data_of (described h))

  check_run-supported :
      (at : SourceLocation) (h : List (Command F))
      → check_run F at (described h) ≡ ok tt
      → is_supported h ≡ true
  unfolding check_run
  check_run-supported at h e = ground arith

  check_run-refused :
      (at : SourceLocation) (h : List (Command F)) (e : InputError)
      → check_run F at (described h) ≡ err e
      → (is_supported h ≡ false) × (e.location ≡ at)
  unfolding check_run
  check_run-refused at h e same = (ground arith, ground arith)

  check_run_command :
      (at : SourceLocation) (d : CommandData F) (s : Scan F) {steps : ℤ}
      → d ≡ run_command steps
      → check_command F at d s ≡ check_run F at s
  check_run_command at d s is = ap (λ k. check_command F at k s) is

  scan-supports :
      (before after h : List (Command F)) (c : Command F) {steps : ℤ}
      → c.data_of ≡ run_command steps
      → scan_commands F (before ++ c ∷ after) (described h) ≡ ok tt
      → is_supported (history_onto before h) ≡ true
  scan-supports [] after h c is e =
      let (checked, _) =
        >>-eq-ok (check_command F c.source c.data_of (described h))
          (scan_commands F after (described (c ∷ h))) (sym (scan_step c after h) ∙ e) in
      check_run-supported c.source h
        (sym (check_run_command c.source c.data_of (described h) is) ∙ checked)
  scan-supports (b ∷ bs) after h c is e =
      let (_, rest) =
        >>-eq-ok (check_command F b.source b.data_of (described h))
          (scan_commands F (bs ++ c ∷ after) (described (b ∷ h)))
          (sym (scan_step b (bs ++ c ∷ after) h) ∙ e) in
      scan-supports bs after (b ∷ h) c is rest

  -- If the scan accepts a program, then each run of it, with the commands `before` in front, is
  -- supported: if the ensemble in force there is of pressure control, or a Nosé-Hoover chain or
  -- stochastic velocity rescaling, then no velocity correction was asked for since the run before
  -- it, the latest time step since that run, if there is one, has no maximum distance, and the time
  -- step in force is finite and positive.
  pub validate-supports :
      (before after : List (Command F)) (c : Command F) {steps : ℤ}
      → c.data_of ≡ run_command steps
      → validate_runtime_ensembles F (before ++ c ∷ after) ≡ ok tt
      → is_supported (history_onto before []) ≡ true
  unfolding validate_runtime_ensembles
  validate-supports before after c is e = scan-supports before after [] c is e

  -- Where a scan stops.
  pub record Refused (program h : List (Command F)) (e : InputError) : Type 0 where
    before : List (Command F)
    after : List (Command F)
    culprit : Command F
    steps : ℤ
    split : program ≡ before ++ culprit ∷ after
    is_run : culprit.data_of ≡ run_command steps
    unsupported : is_supported (history_onto before h) ≡ false
    located : e.location ≡ culprit.source

  refused_run :
      (at : SourceLocation) (d : CommandData F) (h : List (Command F)) (e : InputError)
      → check_command F at d (described h) ≡ err e
      → (steps : ℤ) × (d ≡ run_command steps) × (is_supported h ≡ false) × (e.location ≡ at)
  refused_run at (run_command steps) h e same =
      let (bad, here) = check_run-refused at h e same in (steps, refl, bad, here)
  refused_run at (potential_command name) h e same = cc
  refused_run at (velocity_command v) h e same = cc
  refused_run at (time_step_command dt) h e same = cc
  refused_run at (ensemble_command k) h e same = cc
  refused_run at (correct_velocity_command interval method) h e same = cc
  refused_run at (dump_thermo_command interval) h e same = cc
  refused_run at (dump_xyz_command x) h e same = cc
  refused_run at (dump_restart_command interval) h e same = cc

  >>-eq-err :
      {E : Type 0} (first second : Result E (Unit {0})) {e : E}
      → (first >> second) ≡ err e
      → (first ≡ err e) ⊎ (second ≡ err e)
  >>-eq-err (ok tt) second same = inr same
  >>-eq-err (err e) second same = inl same

  scan-refuses :
      (cs h : List (Command F)) (e : InputError)
      → scan_commands F cs (described h) ≡ err e
      → Refused cs h e
  unfolding scan_commands
  scan-refuses [] h e same = cc
  scan-refuses (c ∷ cs) h e same =
      elim (>>-eq-err (check_command F c.source c.data_of (described h))
        (scan_commands F cs (described (c ∷ h))) (sym (scan_step c cs h) ∙ same)) [
          | inl here ↦
              let (steps, is, bad, at) = refused_run c.source c.data_of h e here in
              record {
                before = [];
                after = cs;
                culprit = c;
                steps = steps;
                split = refl;
                is_run = is;
                unsupported = bad;
                located = at;
              }
          | inr later ↦
              let r = scan-refuses cs (c ∷ h) e later in
              record {
                before = c ∷ r.before;
                after = r.after;
                culprit = r.culprit;
                steps = r.steps;
                split = ap (λ xs. c ∷ xs) r.split;
                is_run = r.is_run;
                unsupported = r.unsupported;
                located = r.located;
              }
        ]

  -- If the scan refuses a program, then the error names the location of a run of the program that
  -- is not supported after the commands in front of it.
  pub validate-refuses :
      (program : List (Command F)) (e : InputError)
      → validate_runtime_ensembles F program ≡ err e
      → Refused program [] e
  unfolding validate_runtime_ensembles
  validate-refuses program e same = scan-refuses program [] e same

  npt_kept :
      (d : CommandData F) (k : EnsembleKind)
      → is_npt_command F d ≡ false
      → is_npt k ≡ false
      → is_npt (kind_of d k) ≡ false
  npt_kept (ensemble_command e) k unused same = unused
  npt_kept (potential_command name) k unused same = same
  npt_kept (velocity_command v) k unused same = same
  npt_kept (time_step_command dt) k unused same = same
  npt_kept (correct_velocity_command interval method) k unused same = same
  npt_kept (dump_thermo_command interval) k unused same = same
  npt_kept (dump_xyz_command x) k unused same = same
  npt_kept (dump_restart_command interval) k unused same = same
  npt_kept (run_command steps) k unused same = same

  no_npt_onto :
      (before after h : List (Command F))
      → program_uses_npt F (before ++ after) ≡ false
      → is_npt (last_kind h) ≡ false
      → is_npt (last_kind (history_onto before h)) ≡ false
  unfolding program_uses_npt
  no_npt_onto [] after h unused same = same
  no_npt_onto (c ∷ cs) after h unused same =
      let here : is_npt_command F c.data_of ≡ false = ground arith in
      let there : program_uses_npt F (cs ++ after) ≡ false = ground arith in
      no_npt_onto cs after (c ∷ h) there (npt_kept c.data_of (last_kind h) here same)

  -- A program of which `program_uses_npt` is false has no ensemble of pressure control in force
  -- anywhere, whichever commands `before` are in front.
  pub no_npt-anywhere :
      (before after : List (Command F))
      → program_uses_npt F (before ++ after) ≡ false
      → is_npt (last_kind (history_onto before [])) ≡ false
  no_npt-anywhere before after unused = no_npt_onto before after [] unused refl
