-- ===== src/Ensemble/Control.antt =====
-- The constructor of the controller and its hooks. What a throwing hook did to the state before is not
-- kept: an exception ends the run.
use dmg_md.Base.{
  ℕ, ◌-◌, ◌/◌, ◌^◌, Bool, true, false, not, ◌||◌, List, [], ◌∷◌, Option, none, some, Result, ok,
  ◌>>=◌, ◌>>◌, throw_if, if◌then◌else◌,
}
use dmg_md.Base.Floats.{Floats}
use dmg_md.Base.Int.{ℤ, pos, ltb_ℤ}
use dmg_md.RunFile.{EnsembleKind, nve, nvt_ber, nvt_nhc, nvt_bdp, npt_ber, npt_scr, EnsembleCommand}
use dmg_md.Ensemble.{
  EnsembleError, Replicas, State, EnsembleController, require_positive, bad_npt, bad_conversion,
  bad_scr_count, bad_nhc, bad_bdp,
}

module _ (F : Floats) (R : Replicas F) where
  open F use {Double, add, sub, mul, div, ltd, led, is_finite, of_int}

  abbrev Controller : Type 0
  Controller = EnsembleController F R

  abbrev pub k_b : Double
  k_b = div (of_int (pos 8617343)) (of_int (pos (10 ^ 11)))

  abbrev pub pressure_unit : Double
  pressure_unit = div (of_int (pos 1602177)) (of_int (pos 10000))

  abbrev pub half : Double
  half = div (of_int (pos 1)) (of_int (pos 2))

  abbrev below_one : Double → Bool
  below_one x = ltd x (of_int (pos 1))

  abbrev controller_of : EnsembleCommand F → Option (State F R) → Double → Double → Controller
  controller_of config state target coupling = record {
    configuration = config;
    state = state;
    target_pressure_internal = target;
    pressure_coupling_internal = coupling;
    last_barostat_gaussian = of_int (pos 0);
  }

  abbrev plain : EnsembleCommand F → Option (State F R) → Controller
  plain config state = controller_of config state (of_int (pos 0)) (of_int (pos 0))

  unfoldable pub require_target_temperatures : EnsembleCommand F → Result EnsembleError (Unit {0})
  require_target_temperatures config = do
    require_positive F config.initial_temperature
    require_positive F config.final_temperature

  -- `bulk_modulus_gpa > 2000.0` is the box that keeps its size.
  unfoldable pub coupling_of : EnsembleCommand F → Double
  coupling_of config =
      if ltd (of_int (pos 2000)) config.bulk_modulus_gpa
      then of_int (pos 0)
      else mul
          (div (of_int (pos 1))
            (mul (mul (of_int (pos 3)) config.pressure_coupling) config.bulk_modulus_gpa))
          pressure_unit

  unfoldable pub bad_count : ℤ → Bool
  bad_count count = not (ltb_ℤ (pos 0) count) || ltb_ℤ (pos ((2 ^ 31 - 1) / 3)) count

  -- Rank 0 owns the generator.
  unfoldable pub rng_state : Bool → ℤ → ℕ → Option (State F R)
  rng_state true count seed = some (record {
    chain = none;
    svr = some (R.seeded seed);
    global_count = count;
    time_step = of_int (pos 0);
  })
  rng_state false count seed = none

  unfoldable pub check_npt : EnsembleCommand F → Result EnsembleError (Unit {0})
  check_npt config =
      throw_if
        (not (is_finite config.temperature_coupling)
          || below_one config.temperature_coupling
          || not (is_finite config.target_pressure_gpa)
          || not (is_finite config.bulk_modulus_gpa)
          || led config.bulk_modulus_gpa (of_int (pos 0))
          || not (is_finite config.pressure_coupling)
          || below_one config.pressure_coupling)
        bad_npt

  unfoldable pub check_conversion : Double → Double → Result EnsembleError (Unit {0})
  check_conversion target coupling =
      throw_if (not (is_finite target) || not (is_finite coupling) || ltd coupling (of_int (pos 0)))
        bad_conversion

  -- The two barostats up to their conversions.
  unfoldable pub construct_npt :
      EnsembleCommand F → Option (State F R) → Result EnsembleError Controller
  construct_npt config state = do
    require_target_temperatures config
    check_npt config
    let target = div config.target_pressure_gpa pressure_unit
    let coupling = coupling_of config
    check_conversion target coupling
    ok (controller_of config state target coupling)

  unfoldable pub check_scr : ℤ → Result EnsembleError (Unit {0})
  check_scr count = throw_if (bad_count count) bad_scr_count

  unfoldable pub construct_scr : EnsembleCommand F → ℤ → Bool → ℕ → Result EnsembleError Controller
  construct_scr config count owns seed = do
    c ← construct_npt config (rng_state owns count seed)
    check_scr count
    ok c

  unfoldable pub check_masses : List Double → Result EnsembleError (Unit {0})
  check_masses [] = ok tt
  check_masses (m ∷ ms) = do require_positive F m; check_masses ms

  unfoldable pub own_chain :
      EnsembleCommand F → ℤ → Double → Bool → Result EnsembleError (Option (State F R))
  own_chain config count dt false = ok none
  own_chain config count dt true = do
    let chain = R.make_nhc_state count config.initial_temperature config.temperature_coupling dt
    check_masses (R.masses chain)
    ok (some (record { chain = some chain; svr = none; global_count = count; time_step = dt }))

  unfoldable pub check_nhc : EnsembleCommand F → ℤ → Double → Result EnsembleError (Unit {0})
  check_nhc config count dt =
      throw_if
        (not (is_finite config.temperature_coupling)
          || below_one config.temperature_coupling
          || not (ltb_ℤ (pos 0) count)
          || not (is_finite dt)
          || led dt (of_int (pos 0)))
        bad_nhc

  unfoldable pub construct_nhc :
      EnsembleCommand F → ℤ → Double → Bool → Result EnsembleError Controller
  construct_nhc config count dt owns = do
    require_target_temperatures config
    check_nhc config count dt
    state ← own_chain config count dt owns
    ok (plain config state)

  unfoldable pub check_bdp : EnsembleCommand F → ℤ → Double → Result EnsembleError (Unit {0})
  check_bdp config count dt =
      throw_if
        (bad_count count
          || not (is_finite config.temperature_coupling)
          || below_one config.temperature_coupling
          || not (is_finite dt)
          || led dt (of_int (pos 0)))
        bad_bdp

  unfoldable pub construct_bdp :
      EnsembleCommand F → ℤ → Double → Bool → ℕ → Result EnsembleError Controller
  construct_bdp config count dt owns seed = do
    require_target_temperatures config
    check_bdp config count dt
    ok (plain config (rng_state owns count seed))

  unfoldable pub construct_kind :
      EnsembleKind → EnsembleCommand F → ℤ → Double → Bool → ℕ → Result EnsembleError Controller
  construct_kind nve config count dt owns seed = ok (plain config none)
  construct_kind nvt_ber config count dt owns seed = ok (plain config none)
  construct_kind npt_ber config count dt owns seed = construct_npt config none
  construct_kind npt_scr config count dt owns seed = construct_scr config count owns seed
  construct_kind nvt_nhc config count dt owns seed = construct_nhc config count dt owns
  construct_kind nvt_bdp config count dt owns seed = construct_bdp config count dt owns seed

  -- The constructor of `EnsembleController`.
  unfoldable pub construct_controller :
      EnsembleCommand F → ℤ → Double → Bool → ℕ → Result EnsembleError Controller
  construct_controller config = construct_kind config.kind config
