-- ===== src/Tests/Thermostat.antt =====
-- A seed, and a thermostat over a generator that draws nothing.
use dmg_md.Ensemble.Shared.{
  FactorVolume, ensemble_velocity_factor, ensemble_velocity_factor-root_outcome, invalid_factor,
  thrown,
}
use dmg_md.Base.{
  ℕ, ◌+◌, ◌^◌, ◌<◌, ◌≡◌, ◌≢◌, refl, true, false, List, [], ◌∷◌, none, some, ok, ◌↔◌, zero, suc,
  Result, Option, err, leb, ◌⊎◌,
}
use dmg_md.Base.Floats.{milli}
use dmg_md.Base.Int.{pos}
use dmg_md.RunFile.{nvt_bdp, nvt_ber, EnsembleCommand, Bytes}
use dmg_md.Ensemble.{
  Replicas, EnsembleController, require_positive, uses_root_state, no_rng_state, EnsembleError,
}
use dmg_md.Ensemble.Seed.{parse_ensemble_seed, number_of, all_digits, parse_ensemble_seed-number}
use dmg_md.Ensemble.Control.{
  construct_controller, construct_kind, construct_bdp, check_bdp, bad_count, rng_state,
  require_target_temperatures,
}
use dmg_md.Ensemble.Factors.{before_force, after_force, barostat_scale}
use dmg_md.Ensemble.Positive.{GoodFactor, hooks-GoodFactor}
use dmg_md.Ensemble.Missing.{lacks_state}
use dmg_md.Ensemble.Hooks.{Hook, before, after, run_hooks}
use dmg_md.Ensemble.Sequences.{construct_controller-lacks_state}

abbrev two_digits : Bytes
two_digits = b'4' ∷ b'2' ∷ []

parse_ensemble_seed-number_example : (parse_ensemble_seed (some two_digits) ≡ ok 42) ↔ (
    (two_digits ≢ [])
    × (all_digits two_digits ≡ true)
    × (number_of 0 two_digits ≡ 42)
    × (42 < 2 ^ 32))
parse_ensemble_seed-number_example = parse_ensemble_seed-number two_digits 42

abbrev dull : Replicas milli
dull = record {
  Chain = ℕ;
  Rng = ℕ;
  make_nhc_state = λ n t d dt. t;
  masses = λ c. c ∷ [];
  momenta = λ c. c ∷ [];
  nhc_half_step = λ c ek2 kt dn dt. (c, 1000);
  seeded = λ s. s;
  gasdev = λ g. (g + 1, 0);
  resamplekin = λ kk sigma ndeg taut g. (g + 1, kk);
  npt_scr_isotropic_scale = λ p0 pc p t v g. 1000;
  sqrt = λ x. x;
}

abbrev bdp : EnsembleCommand milli
bdp = record {
  kind = nvt_bdp;
  initial_temperature = 300000;
  final_temperature = 300000;
  temperature_coupling = 100000;
  target_pressure_gpa = 0;
  bulk_modulus_gpa = 0;
  pressure_coupling = 0;
}

abbrev seeded_bdp : EnsembleController milli dull
seeded_bdp = record {
  configuration = bdp;
  state = some (record { chain = none; svr = some 42; global_count = pos 8; time_step = 0 });
  target_pressure_internal = 0;
  pressure_coupling_internal = 0;
  last_barostat_gaussian = 0;
}

makes_bdp : construct_controller milli dull bdp (pos 8) 1000 true 42 ≡ ok seeded_bdp
unfolding construct_controller construct_kind construct_bdp check_bdp bad_count rng_state
    require_target_temperatures require_positive
makes_bdp = refl

abbrev one_step : List (Hook milli dull)
one_step = before 1000 (some 500) (pos 0) (pos 1) ∷ after (some (300000 ∷ [])) (pos 0) (pos 1) ∷ []

construct_controller-lacks_state_example :
    lacks_state (run_hooks milli dull seeded_bdp one_step) ≡ false
construct_controller-lacks_state_example =
    construct_controller-lacks_state milli dull bdp (pos 8) 1000 42 one_step makes_bdp

hooks-GoodFactor_example :
    GoodFactor milli dull (before_force milli dull seeded_bdp 1000 (some 500) (pos 0) (pos 1))
    × (nvt_bdp ≢ nvt_ber
        → GoodFactor milli dull
            (after_force milli dull seeded_bdp (some (300000 ∷ [])) (pos 0) (pos 1)))
    × GoodFactor milli dull
        (barostat_scale milli dull seeded_bdp (some (300000 ∷ [])) 1000 (pos 0) (pos 1))
hooks-GoodFactor_example =
    hooks-GoodFactor milli dull seeded_bdp (some (300000 ∷ [])) (some 500) 1000 1000 (pos 0) (pos 1)

abbrev no_volume : FactorVolume
no_volume = record { collective_calls = 0; mpi_input_bytes_global = 0; mpi_output_bytes_global = 0 }

-- Rank 0 evaluates a factor of 1.5, rank 1 would fail.
abbrev evaluations : ℕ → Result EnsembleError (Option ℕ)
evaluations zero = ok (some 1500)
evaluations (suc k) = err no_rng_state

ensemble_velocity_factor-root_outcome_example :
    let outcome =
      (ensemble_velocity_factor milli
        (λ buffers k. buffers 0)
        (λ buffers k. buffers 0)
        nvt_bdp
        2
        evaluations
        1
        no_volume).0 in
    ((f : ℕ)
      → (outcome ≡ ok (some f))
        ↔ ((evaluations 0 ≡ ok (some f)) × (true ≡ true) × (leb f 0 ≡ false)))
    × ((e : EnsembleError) → evaluations 0 ≡ err e → outcome ≡ err (some (thrown e)))
    × (evaluations 0 ≡ ok none → outcome ≡ err (some invalid_factor))
    × ((f : ℕ)
        → evaluations 0 ≡ ok (some f)
        → (true ≡ false) ⊎ (leb f 0 ≡ true)
        → outcome ≡ err (some invalid_factor))
unfolding uses_root_state
ensemble_velocity_factor-root_outcome_example =
    ensemble_velocity_factor-root_outcome milli (λ buffers k. buffers 0) (λ buffers k. buffers 0)
      nvt_bdp 2 evaluations 1 no_volume (λ buffers k. refl) (λ buffers k. refl) refl refl refl
