-- ===== src/Ensemble/Factors.antt =====
-- The hooks of the controller: the factors before and after the forces, and of the box.
use dmg_md.Base.{
  ℕ, ◌^◌, Bool, not, ◌||◌, List, [], ◌∷◌, Option, none, some, Result, ok, err, ◌>>=◌, ◌>>◌,
  throw_if, get_or, if◌then◌else◌,
}
use dmg_md.Base.Floats.{Floats}
use dmg_md.Base.Int.{ℤ, pos, ◌*ℤ◌}
use dmg_md.RunFile.{EnsembleKind, nve, nvt_ber, nvt_nhc, nvt_bdp, npt_ber, npt_scr}
use dmg_md.Ensemble.{
  EnsembleError, Replicas, State, EnsembleController, require_positive, no_chain_state,
  no_rng_state, no_energy, no_thermo, momentum_not_finite, bad_sample, not_npt, bad_box_factor,
}
use dmg_md.Ensemble.Control.{k_b, half}

module _ (F : Floats) (R : Replicas F) where
  open F use {Double, add, sub, mul, div, ltd, led, is_finite, of_int}

  abbrev Controller : Type 0
  Controller = EnsembleController F R

  -- What a hook gives: the controller after it, and the factor if there is one.
  abbrev pub Scaled : Type 0
  Scaled = Result EnsembleError (Controller × Option Double)

  unfoldable pub target_temperature : Controller → ℤ → ℤ → Double
  target_temperature c step steps =
      let fraction = div (of_int step) (of_int steps) in
      let first = c.configuration.initial_temperature in
      add first (mul (sub c.configuration.final_temperature first) fraction)

  abbrev pub from_option : {A : Type 0} → EnsembleError → Option A → Result EnsembleError A
  from_option e none = err e
  from_option e (some a) = ok a

  -- `!state_ || !state_->chain`
  unfoldable pub root_chain : Option (State F R) → Result EnsembleError (State F R × R.Chain)
  root_chain state = do
    s ← from_option no_chain_state state
    chain ← from_option no_chain_state s.chain
    ok (s, chain)

  unfoldable pub root_rng : Option (State F R) → Result EnsembleError (State F R × R.Rng)
  root_rng state = do
    s ← from_option no_rng_state state
    rng ← from_option no_rng_state s.svr
    ok (s, rng)

  unfoldable pub check_momenta : List Double → Result EnsembleError (Unit {0})
  check_momenta [] = ok tt
  check_momenta (p ∷ ps) = do throw_if (not (is_finite p)) momentum_not_finite; check_momenta ps

  abbrev pub degrees : State F R → Double
  degrees s = mul (of_int (pos 3)) (of_int s.global_count)

  -- The call of the chain, shared by both hooks: its factor and momenta are checked.
  unfoldable pub scale_by_chain :
      Controller → State F R → R.Chain → Double → Double → Double → Scaled
  scale_by_chain c s chain ek2 target time_step = do
    let (moved, factor) =
        R.nhc_half_step chain ek2 (mul (k_b F R) target) (degrees s) (mul time_step (half F R))
    require_positive F factor
    check_momenta (R.momenta moved)
    ok (
      record c { state = some (record s { chain = some moved; time_step = time_step }) },
      some factor,
    )

  -- Only the chain takes part before the forces.
  unfoldable pub nhc_before : Controller → Double → Option Double → ℤ → ℤ → Scaled
  nhc_before c time_step energy step steps = do
    (s, chain) ← root_chain c.state
    ke ← from_option no_energy energy
    require_positive F ke
    require_positive F time_step
    scale_by_chain c s chain (mul ke (of_int (pos 2))) (target_temperature c step steps) time_step

  unfoldable pub before_kind : EnsembleKind → Controller → Double → Option Double → ℤ → ℤ → Scaled
  before_kind nvt_nhc c time_step energy step steps = nhc_before c time_step energy step steps
  before_kind _ c time_step energy step steps = ok (c, none)

  unfoldable pub before_force : Controller → Double → Option Double → ℤ → ℤ → Scaled
  before_force c = before_kind c.configuration.kind c

  abbrev pub element : List Double → ℕ → Double
  element thermo i = get_or thermo i (of_int (pos 0))

  unfoldable pub nhc_after : Controller → Option (List Double) → ℤ → ℤ → Scaled
  nhc_after c thermo step steps = do
    let target = target_temperature c step steps
    require_positive F target
    (s, chain) ← root_chain c.state
    values ← from_option no_thermo thermo
    require_positive F (element values 0)
    scale_by_chain c s chain (mul (element values 0) (mul (degrees s) (k_b F R))) target s.time_step

  unfoldable pub with_rng : State F R → R.Rng → State F R
  with_rng s rng = record s { svr = some rng }

  unfoldable pub check_sample : Double → Result EnsembleError (Unit {0})
  check_sample new_ke = throw_if (not (is_finite new_ke) || ltd new_ke (of_int (pos 0))) bad_sample

  -- BDP, and the thermostat of SCR.
  unfoldable pub bdp_after : Controller → Option (List Double) → ℤ → ℤ → Scaled
  bdp_after c thermo step steps = do
    let target = target_temperature c step steps
    require_positive F target
    (s, rng) ← root_rng c.state
    values ← from_option no_thermo thermo
    require_positive F (element values 0)
    let ndeg = pos 3 *ℤ s.global_count
    let per_degree = mul (of_int ndeg) (k_b F R)
    let old_ke = mul (element values 0) (mul per_degree (half F R))
    require_positive F old_ke
    let sigma = mul (mul per_degree target) (half F R)
    require_positive F sigma
    let (drawn, new_ke) = R.resamplekin old_ke sigma ndeg c.configuration.temperature_coupling rng
    check_sample new_ke
    let factor = R.sqrt (div new_ke old_ke)
    require_positive F factor
    ok (record c { state = some (with_rng s drawn) }, some factor)

  unfoldable pub ber_factor : Controller → Double → Double → List Double → Double
  ber_factor c coupling target values =
      R.sqrt
        (add (of_int (pos 1)) (mul coupling (sub (div target (element values 0)) (of_int (pos 1)))))

  -- Weak coupling launches nothing.
  unfoldable pub is_coupled : Controller → Bool
  is_coupled c =
      ltd (div (of_int (pos 1)) (of_int (pos (10 ^ 5))))
        (div (of_int (pos 1)) c.configuration.temperature_coupling)

  unfoldable pub nvt_ber_coupled : Controller → Option (List Double) → Double → Scaled
  nvt_ber_coupled c thermo target = do
    values ← from_option no_thermo thermo
    ok (
      c,
      some (ber_factor c (div (of_int (pos 1)) c.configuration.temperature_coupling) target values),
    )

  unfoldable pub nvt_ber_after : Controller → Option (List Double) → ℤ → ℤ → Scaled
  nvt_ber_after c thermo step steps =
      if is_coupled c
      then nvt_ber_coupled c thermo (target_temperature c step steps)
      else ok (c, none)

  unfoldable pub check_temperature : Option (List Double) → Result EnsembleError (Unit {0})
  check_temperature none = ok tt
  check_temperature (some values) = require_positive F (element values 0)

  unfoldable pub npt_ber_coupled : Controller → Option (List Double) → Double → Scaled
  npt_ber_coupled c thermo target = do
    values ← from_option no_thermo thermo
    let factor =
        ber_factor c (div (of_int (pos 1)) c.configuration.temperature_coupling) target values
    require_positive F factor
    ok (c, some factor)

  unfoldable pub npt_ber_after : Controller → Option (List Double) → ℤ → ℤ → Scaled
  npt_ber_after c thermo step steps =
      check_temperature thermo
      >> (if is_coupled c
          then npt_ber_coupled c thermo (target_temperature c step steps)
          else ok (c, none))

  unfoldable pub after_kind : EnsembleKind → Controller → Option (List Double) → ℤ → ℤ → Scaled
  after_kind nve c thermo step steps = ok (c, none)
  after_kind nvt_ber c thermo step steps = nvt_ber_after c thermo step steps
  after_kind npt_ber c thermo step steps = npt_ber_after c thermo step steps
  after_kind nvt_nhc c thermo step steps = nhc_after c thermo step steps
  after_kind nvt_bdp c thermo step steps = bdp_after c thermo step steps
  after_kind npt_scr c thermo step steps = bdp_after c thermo step steps

  unfoldable pub after_force : Controller → Option (List Double) → ℤ → ℤ → Scaled
  after_force c = after_kind c.configuration.kind c

  abbrev third : Double
  third = div (of_int (pos 3333333333333333)) (of_int (pos (10 ^ 16)))

  -- With no thermo the pressure is a NaN, which no finite test passes.
  unfoldable pub instant_pressure : Option (List Double) → Option Double
  instant_pressure none = none
  instant_pressure (some values) =
      some (mul (add (add (element values 2) (element values 3)) (element values 4)) third)

  unfoldable pub check_scale : Double → Double → Result EnsembleError (Unit {0})
  check_scale p scale =
      throw_if (not (is_finite p) || not (is_finite scale) || led scale (of_int (pos 0)))
        bad_box_factor

  -- The last test, with the pressure and the scale; no pressure fails it.
  unfoldable pub checked_scale : Controller → Option Double → (Double → Double) → Scaled
  checked_scale c none scale = err bad_box_factor
  checked_scale c (some p) scale = do check_scale p (scale p); ok (c, some (scale p))

  unfoldable pub scr_scale : Controller → Option Double → Double → Double → Scaled
  scr_scale c pressure volume target = do
    require_positive F target
    require_positive F volume
    (s, rng) ← root_rng c.state
    let (drawn, gaussian) = R.gasdev rng
    checked_scale (record c { state = some (with_rng s drawn); last_barostat_gaussian = gaussian })
        pressure
        λ p.
          R.npt_scr_isotropic_scale c.target_pressure_internal c.pressure_coupling_internal p target
            volume gaussian

  unfoldable pub barostat_kind :
      EnsembleKind → Controller → Option (List Double) → Double → ℤ → ℤ → Scaled
  barostat_kind npt_scr c thermo volume step steps =
      scr_scale c (instant_pressure thermo) volume (target_temperature c step steps)
  barostat_kind npt_ber c thermo volume step steps = checked_scale c (instant_pressure thermo) λ p.
      sub (of_int (pos 1)) (mul c.pressure_coupling_internal (sub c.target_pressure_internal p))
  barostat_kind _ c thermo volume step steps = err not_npt

  unfoldable pub barostat_scale : Controller → Option (List Double) → Double → ℤ → ℤ → Scaled
  barostat_scale c = barostat_kind c.configuration.kind c
