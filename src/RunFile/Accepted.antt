-- ===== src/RunFile/Accepted.antt =====
-- What holds of the commands that the parser accepts.
use dmg_md.Base.{
  ◌≡◌, refl, Bool, true, false, not, ◌&&◌, List, [], ◌∷◌, Option, none, some, Result, ok, err,
  ◌>>=◌, arith, >>=-eq-ok, ok-injective, subst, throw_if-eq-ok,
}
use dmg_md.Base.Floats.{Floats}
use dmg_md.Base.Int.{ℤ, pos, ltb_ℤ}
use dmg_md.RunFile.Numbers.{parse_int, parse_real, Strtod, fits_int, parse_int-fits}
use dmg_md.RunFile.Commands.{parse_dump_xyz}
use dmg_md.RunFile.Preflight.{is_npt}
use dmg_md.RunFile.Parse.{
  parse_interval, parse_run, parse_potential, parse_temperature, parse_velocity, parse_time_step,
  parse_npt, parse_nvt, parse_nve, parse_ensemble, parse_correct_velocity, parse_command,
}
use dmg_md.RunFile.{
  Bytes, SourceLocation, InputError, EnsembleKind, nve, nvt_ber, nvt_nhc, nvt_bdp, npt_ber, npt_scr,
  EnsembleCommand, CommandData, potential_command, velocity_command, time_step_command,
  ensemble_command, correct_velocity_command, dump_thermo_command, dump_xyz_command,
  dump_restart_command, run_command,
}
use dmg_md.RunFile.Dump.{
  is_interval, is_index, good_dump, parse_interval-good, parse_run-good, parse_dump_xyz-good,
}

module _ (F : Floats) (strtod : Bytes → Strtod F.Double) where
  open F use {Double, led, ltd, of_int, is_finite}

  -- A finite number above 0, and a finite one of at least 1.
  abbrev pub is_positive : Double → Bool
  is_positive x = is_finite x && not (led x (of_int (pos 0)))

  abbrev pub is_coupling : Double → Bool
  is_coupling x = is_finite x && not (ltd x (of_int (pos 1)))

  abbrev pub good_thermostat : EnsembleCommand F → Bool
  good_thermostat e =
      is_positive e.initial_temperature
      && is_positive e.final_temperature
      && is_coupling e.temperature_coupling

  abbrev pub good_barostat : EnsembleCommand F → Bool
  good_barostat e =
      is_finite e.target_pressure_gpa
      && is_positive e.bulk_modulus_gpa
      && is_coupling e.pressure_coupling

  abbrev pub good_ensemble : EnsembleKind → EnsembleCommand F → Bool
  good_ensemble nve e = true
  good_ensemble npt_ber e = good_thermostat e && good_barostat e
  good_ensemble npt_scr e = good_thermostat e && good_barostat e
  good_ensemble _ e = good_thermostat e

  abbrev pub option_all : {A : Type 0} → (A → Bool) → Option A → Bool
  option_all f none = true
  option_all f (some a) = f a

  -- What each command promises.
  abbrev pub good_command : CommandData F → Bool
  good_command (potential_command name) = true
  good_command (velocity_command v) = is_positive v.temperature && option_all fits_int v.seed
  good_command (time_step_command dt) =
      is_finite dt.femtoseconds && option_all is_positive dt.maximum_distance_angstrom
  good_command (ensemble_command e) = good_ensemble e.kind e
  good_command (correct_velocity_command interval method) =
      fits_int interval && not (ltb_ℤ interval (pos 10)) && option_all is_index method
  good_command (dump_thermo_command interval) = is_interval interval
  good_command (dump_xyz_command x) = good_dump x
  good_command (dump_restart_command interval) = is_interval interval
  good_command (run_command steps) = fits_int steps

  parse_real-finite :
      (token : Bytes) (at : SourceLocation) {x : Double}
      → parse_real F strtod token at ≡ ok x
      → is_finite x ≡ true
  unfolding parse_real
  parse_real-finite token at e = ground arith

  -- To prove of a command that was read what holds once the next number `a` is read.
  after_real :
      (token : Bytes) (at : SourceLocation) (next : Double → Result InputError (CommandData F))
      (d : CommandData F)
      → (parse_real F strtod token at >>= next) ≡ ok d
      → ((a : Double) → is_finite a ≡ true → next a ≡ ok d → good_command d ≡ true)
      → good_command d ≡ true
  after_real token at next d e rest =
      let (a, read, e1) = >>=-eq-ok (parse_real F strtod token at) next e in
      rest a (parse_real-finite token at read) e1

  after_int :
      (token : Bytes) (at : SourceLocation) (next : ℤ → Result InputError (CommandData F))
      (d : CommandData F)
      → (parse_int token at >>= next) ≡ ok d
      → ((n : ℤ) → fits_int n ≡ true → next n ≡ ok d → good_command d ≡ true)
      → good_command d ≡ true
  after_int token at next d e rest =
      let (n, read, e1) = >>=-eq-ok (parse_int token at) next e in
      rest n (parse_int-fits token at read) e1

  parse_potential-good :
      (args : List Bytes) (at : SourceLocation) {d : CommandData F}
      → parse_potential F strtod args at ≡ ok d
      → good_command d ≡ true
  unfolding parse_potential
  parse_potential-good [] at e = cc
  parse_potential-good (a ∷ []) at e = ground arith
  parse_potential-good (a ∷ b ∷ []) at e = cc
  parse_potential-good (a ∷ b ∷ c ∷ rest) at e = cc

  parse_temperature-positive :
      (token : Bytes) (at : SourceLocation) {x : Double}
      → parse_temperature F strtod token at ≡ ok x
      → is_positive x ≡ true
  unfolding parse_temperature parse_real
  parse_temperature-positive token at e = ground arith

  parse_velocity-good :
      (args : List Bytes) (at : SourceLocation) {d : CommandData F}
      → parse_velocity F strtod args at ≡ ok d
      → good_command d ≡ true
  unfolding parse_velocity
  parse_velocity-good [] at e = cc
  parse_velocity-good (a ∷ []) at {d} e =
      let (t, read, e1) = >>=-eq-ok (parse_temperature F strtod a at) _ e in
      let warm = parse_temperature-positive a at read in ground arith
  parse_velocity-good (a ∷ b ∷ []) at e = cc
  parse_velocity-good (a ∷ b ∷ c ∷ []) at {d} e =
      let (t, read, e1) = >>=-eq-ok (parse_temperature F strtod a at) _ e in
      let warm = parse_temperature-positive a at read in
      after_int c at _ d e1 λ n fits e2. ground arith
  parse_velocity-good (a ∷ b ∷ c ∷ d ∷ rest) at e = cc

  parse_time_step-good :
      (args : List Bytes) (at : SourceLocation) {d : CommandData F}
      → parse_time_step F strtod args at ≡ ok d
      → good_command d ≡ true
  unfolding parse_time_step parse_real
  parse_time_step-good [] at e = cc
  parse_time_step-good (a ∷ []) at e = ground arith
  parse_time_step-good (a ∷ b ∷ []) at e = ground arith
  parse_time_step-good (a ∷ b ∷ c ∷ rest) at e = cc

  parse_nvt-good :
      (kind : EnsembleKind) (args : List Bytes) (at : SourceLocation) {d : CommandData F}
      → is_npt kind ≡ false
      → parse_nvt F strtod kind args at ≡ ok d
      → good_command d ≡ true
  unfolding parse_nvt parse_real
  parse_nvt-good kind [] at k e = cc
  parse_nvt-good kind (a ∷ []) at k e = cc
  parse_nvt-good kind (a ∷ b ∷ []) at k e = cc
  parse_nvt-good kind (a ∷ b ∷ c ∷ []) at k e = ground arith
  parse_nvt-good kind (a ∷ b ∷ c ∷ d ∷ rest) at k e = cc

  parse_npt-good :
      (kind : EnsembleKind) (args : List Bytes) (at : SourceLocation) {d : CommandData F}
      → parse_npt F strtod kind args at ≡ ok d
      → good_command d ≡ true
  unfolding parse_npt
  parse_npt-good kind [] at e = cc
  parse_npt-good kind (a ∷ []) at e = cc
  parse_npt-good kind (a ∷ b ∷ []) at e = cc
  parse_npt-good kind (a ∷ b ∷ c ∷ []) at e = cc
  parse_npt-good kind (a ∷ b ∷ c ∷ p ∷ []) at e = cc
  parse_npt-good kind (a ∷ b ∷ c ∷ p ∷ m ∷ []) at e = cc
  parse_npt-good kind (a ∷ b ∷ c ∷ p ∷ m ∷ q ∷ []) at {d} e = after_real a at _ d e λ t1 f1 e1.
      after_real b at _ d e1 λ t2 f2 e2. after_real c at _ d e2 λ t3 f3 e3.
        after_real p at _ d e3 λ t4 f4 e4.
          after_real m at _ d e4 λ t5 f5 e5. after_real q at _ d e5 λ t6 f6 e6. ground arith
  parse_npt-good kind (a ∷ b ∷ c ∷ p ∷ m ∷ q ∷ r ∷ rest) at e = cc

  parse_nve-good :
      (args : List Bytes) (at : SourceLocation) {d : CommandData F}
      → parse_nve F strtod args at ≡ ok d
      → good_command d ≡ true
  unfolding parse_nve
  parse_nve-good [] at e = ground arith
  parse_nve-good (a ∷ rest) at e = cc

  parse_correct_velocity-good :
      (args : List Bytes) (at : SourceLocation) {d : CommandData F}
      → parse_correct_velocity F strtod args at ≡ ok d
      → good_command d ≡ true
  unfolding parse_correct_velocity
  parse_correct_velocity-good [] at e = cc
  parse_correct_velocity-good (a ∷ []) at {d} e = after_int a at _ d e λ n fits e1. ground arith
  parse_correct_velocity-good (a ∷ b ∷ []) at {d} e = after_int a at _ d e λ n fits e1.
      let (big, e2) = throw_if-eq-ok (ltb_ℤ n (pos 10)) _ _ e1 in
      after_int b at _ d e2 λ k fits' e3. ground arith
  parse_correct_velocity-good (a ∷ b ∷ c ∷ rest) at e = cc

  parse_ensemble-good :
      (args : List Bytes) (at : SourceLocation) {d : CommandData F}
      → parse_ensemble F strtod args at ≡ ok d
      → good_command d ≡ true
  unfolding parse_ensemble
  parse_ensemble-good [] at e = cc
  parse_ensemble-good (name ∷ args) at {d} e = ground (
    arith,
    parse_nve-good args at {d = d},
    parse_npt-good npt_ber args at {d = d},
    parse_npt-good npt_scr args at {d = d},
    parse_nvt-good nvt_ber args at {d = d} refl,
    parse_nvt-good nvt_nhc args at {d = d} refl,
    parse_nvt-good nvt_bdp args at {d = d} refl,
  )

  -- A value that was read and wrapped in a command.
  wrapped_good :
      {A : Type 0} (m : Result InputError A) (wrap : A → CommandData F) {d : CommandData F}
      → ((a : A) → m ≡ ok a → good_command (wrap a) ≡ true)
      → (m >>= λ a. ok (wrap a)) ≡ ok d
      → good_command d ≡ true
  wrapped_good (ok a) wrap h e = subst (λ k. good_command k ≡ true) (ok-injective e) (h a refl)
  wrapped_good (err x) wrap h e = cc

  -- A command that is accepted keeps what it promises: intervals are positive and in the range of
  -- `int`, and that of a velocity correction is at least 10; numbers are finite; in a velocity
  -- command and in each ensemble but nve, temperatures are above 0, and so is the distance of an
  -- adaptive time step and a bulk modulus; couplings are at least 1; groups are not negative; the
  -- filename of dump_xyz is not empty.
  pub parse_command-good :
      (keyword : Bytes) (args : List Bytes) (at : SourceLocation) {d : CommandData F}
      → parse_command F strtod keyword args at ≡ ok d
      → good_command d ≡ true
  unfolding parse_command
  parse_command-good keyword args at {d} e = ground (
    arith,
    parse_potential-good args at {d = d},
    parse_velocity-good args at {d = d},
    parse_time_step-good args at {d = d},
    parse_ensemble-good args at {d = d},
    parse_correct_velocity-good args at {d = d},
    wrapped_good (parse_interval args at) dump_thermo_command {d = d}
        (λ n r. parse_interval-good args at r),
    wrapped_good (parse_interval args at) dump_restart_command {d = d}
        (λ n r. parse_interval-good args at r),
    wrapped_good (parse_dump_xyz args at) dump_xyz_command {d = d}
        (λ x r. parse_dump_xyz-good args at r),
    wrapped_good (parse_run args at) run_command {d = d} (λ n r. parse_run-good args at r),
  )
