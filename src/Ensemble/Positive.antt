-- ===== src/Ensemble/Positive.antt =====
-- The factors that the hooks hand out.
use dmg_md.Base.{
  ◌≡◌, ◌≢◌, refl, Bool, true, false, not, ◌||◌, List, Option, none, some, Result, ok, err, ◌>>=◌,
  throw_if, arith, if◌then◌else◌,
}
use dmg_md.Base.Floats.{Floats}
use dmg_md.Base.Int.{ℤ, pos}
use dmg_md.RunFile.{EnsembleKind, nve, nvt_ber, nvt_nhc, nvt_bdp, npt_ber, npt_scr}
use dmg_md.Ensemble.{
  EnsembleError, Replicas, State, EnsembleController, require_positive, not_positive,
  bad_box_factor, no_thermo, no_energy,
}
use dmg_md.Ensemble.Factors.{
  Scaled, target_temperature, root_chain, root_rng, check_momenta, scale_by_chain, nhc_before,
  before_force, nhc_after, bdp_after, is_coupled, npt_ber_coupled, npt_ber_after, check_temperature,
  after_force, instant_pressure, checked_scale, scr_scale, barostat_scale, from_option, element,
  check_scale, check_sample, before_kind, after_kind, barostat_kind,
}

module _ (F : Floats) (R : Replicas F) where
  open F use {Double, led, ltd, is_finite, of_int}

  -- A number above 0.
  pub record IsFactor (x : Double) : Type 0 where
    pub finite : is_finite x ≡ true
    pub positive : led x (of_int (pos 0)) ≡ false

  -- The factor of a result, where there is one.
  abbrev pub GoodFactor : Scaled F R → Type 0
  GoodFactor (ok (c, some f)) = IsFactor f
  GoodFactor _ = Unit {0}

  bind-GoodFactor :
      {A : Type 0} (r : Result EnsembleError A) (k : A → Scaled F R)
      → ((a : A) → r ≡ ok a → GoodFactor (k a))
      → GoodFactor (r >>= k)
  bind-GoodFactor (err e) k h = tt
  bind-GoodFactor (ok a) k h = h a refl

  passed : (b : Bool) (e : EnsembleError) → throw_if b e ≡ ok tt → b ≡ false
  passed true e h = absurd (cc)
  passed false e h = refl

  require-IsFactor : (x : Double) → require_positive F x ≡ ok tt → IsFactor x
  unfolding require_positive
  require-IsFactor x h =
      let both = passed (not (is_finite x) || led x (of_int (pos 0))) not_positive h in
      record { finite = ground arith; positive = ground arith }

  scale_by_chain-GoodFactor :
      (c : EnsembleController F R) (s : State F R) (chain : R.Chain) (ek2 target dt : Double)
      → GoodFactor (scale_by_chain F R c s chain ek2 target dt)
  unfolding scale_by_chain
  scale_by_chain-GoodFactor c s chain ek2 target dt =
      bind-GoodFactor (require_positive F _) _
        λ u h. bind-GoodFactor (check_momenta F R _) _ λ v _. require-IsFactor _ h

  nhc_before-GoodFactor :
      (c : EnsembleController F R) (dt : Double) (energy : Option Double) (step steps : ℤ)
      → GoodFactor (nhc_before F R c dt energy step steps)
  unfolding nhc_before
  nhc_before-GoodFactor c dt energy step steps = bind-GoodFactor (root_chain F R c.state) _ λ own _.
      bind-GoodFactor (from_option F R no_energy energy) _ λ ke _.
        bind-GoodFactor (require_positive F ke) _ λ u _.
          bind-GoodFactor (require_positive F dt) _
            λ v _. scale_by_chain-GoodFactor c own.0 own.1 _ _ _

  nhc_after-GoodFactor :
      (c : EnsembleController F R) (thermo : Option (List Double)) (step steps : ℤ)
      → GoodFactor (nhc_after F R c thermo step steps)
  unfolding nhc_after
  nhc_after-GoodFactor c thermo step steps =
      bind-GoodFactor (require_positive F (target_temperature F R c step steps)) _ λ u _.
        bind-GoodFactor (root_chain F R c.state) _ λ own _.
          bind-GoodFactor (from_option F R no_thermo thermo) _ λ values _.
            bind-GoodFactor (require_positive F (element F R values 0)) _
              λ v _. scale_by_chain-GoodFactor c own.0 own.1 _ _ _

  bdp_after-GoodFactor :
      (c : EnsembleController F R) (thermo : Option (List Double)) (step steps : ℤ)
      → GoodFactor (bdp_after F R c thermo step steps)
  unfolding bdp_after
  bdp_after-GoodFactor c thermo step steps =
      bind-GoodFactor (require_positive F (target_temperature F R c step steps)) _ λ u _.
        bind-GoodFactor (root_rng F R c.state) _ λ own _.
          bind-GoodFactor (from_option F R no_thermo thermo) _ λ values _.
            bind-GoodFactor (require_positive F (element F R values 0)) _ λ v _.
              bind-GoodFactor (require_positive F _) _ λ v _.
                bind-GoodFactor (require_positive F _) _ λ v _.
                  bind-GoodFactor (check_sample F R _) _
                    λ v _. bind-GoodFactor (require_positive F _) _ λ v h. require-IsFactor _ h

  npt_ber_coupled-GoodFactor :
      (c : EnsembleController F R) (thermo : Option (List Double)) (target : Double)
      → GoodFactor (npt_ber_coupled F R c thermo target)
  unfolding npt_ber_coupled
  npt_ber_coupled-GoodFactor c thermo target =
      bind-GoodFactor (from_option F R no_thermo thermo) _
        λ values _. bind-GoodFactor (require_positive F _) _ λ v h. require-IsFactor _ h

  GoodFactor-if :
      (b : Bool) (x y : Scaled F R) → GoodFactor x → GoodFactor y → GoodFactor (if b then x else y)
  GoodFactor-if true x y g h = g
  GoodFactor-if false x y g h = h

  npt_ber_after-GoodFactor :
      (c : EnsembleController F R) (thermo : Option (List Double)) (step steps : ℤ)
      → GoodFactor (npt_ber_after F R c thermo step steps)
  unfolding npt_ber_after
  npt_ber_after-GoodFactor c thermo step steps =
      bind-GoodFactor (check_temperature F R thermo) _ λ u _.
        GoodFactor-if (is_coupled F R c) _ _
          (npt_ber_coupled-GoodFactor c thermo (target_temperature F R c step steps)) tt

  check_scale-IsFactor : (p x : Double) → check_scale F R p x ≡ ok tt → IsFactor x
  unfolding check_scale
  check_scale-IsFactor p x h =
      let both =
        passed (not (is_finite p) || not (is_finite x) || led x (of_int (pos 0))) bad_box_factor
          h in
      record { finite = ground arith; positive = ground arith }

  checked_scale-GoodFactor :
      (c : EnsembleController F R) (p : Option Double) (scale : Double → Double)
      → GoodFactor (checked_scale F R c p scale)
  unfolding checked_scale
  checked_scale-GoodFactor c none scale = tt
  checked_scale-GoodFactor c (some p) scale =
      bind-GoodFactor (check_scale F R p (scale p)) _ λ u h. check_scale-IsFactor p (scale p) h

  scr_scale-GoodFactor :
      (c : EnsembleController F R) (p : Option Double) (volume target : Double)
      → GoodFactor (scr_scale F R c p volume target)
  unfolding scr_scale
  scr_scale-GoodFactor c p volume target = bind-GoodFactor (require_positive F target) _ λ u _.
      bind-GoodFactor (require_positive F volume) _
        λ v _. bind-GoodFactor (root_rng F R c.state) _ λ own _. checked_scale-GoodFactor _ p _

  before_force-GoodFactor :
      (kind : EnsembleKind) (c : EnsembleController F R) (dt : Double) (energy : Option Double)
      (step steps : ℤ)
      → GoodFactor (before_kind F R kind c dt energy step steps)
  unfolding before_kind
  before_force-GoodFactor nvt_nhc c dt energy step steps =
      nhc_before-GoodFactor c dt energy step steps
  before_force-GoodFactor nve c dt energy step steps = tt
  before_force-GoodFactor nvt_ber c dt energy step steps = tt
  before_force-GoodFactor nvt_bdp c dt energy step steps = tt
  before_force-GoodFactor npt_ber c dt energy step steps = tt
  before_force-GoodFactor npt_scr c dt energy step steps = tt

  after_force-GoodFactor :
      (kind : EnsembleKind) (c : EnsembleController F R) (thermo : Option (List Double))
      (step steps : ℤ)
      → kind ≢ nvt_ber
      → GoodFactor (after_kind F R kind c thermo step steps)
  unfolding after_kind
  after_force-GoodFactor nve c thermo step steps h = tt
  after_force-GoodFactor nvt_ber c thermo step steps h = absurd (h refl)
  after_force-GoodFactor npt_ber c thermo step steps h =
      npt_ber_after-GoodFactor c thermo step steps
  after_force-GoodFactor nvt_nhc c thermo step steps h = nhc_after-GoodFactor c thermo step steps
  after_force-GoodFactor nvt_bdp c thermo step steps h = bdp_after-GoodFactor c thermo step steps
  after_force-GoodFactor npt_scr c thermo step steps h = bdp_after-GoodFactor c thermo step steps

  barostat_scale-GoodFactor :
      (kind : EnsembleKind) (c : EnsembleController F R) (thermo : Option (List Double))
      (volume : Double) (step steps : ℤ)
      → GoodFactor (barostat_kind F R kind c thermo volume step steps)
  unfolding barostat_kind
  barostat_scale-GoodFactor npt_scr c thermo volume step steps =
      scr_scale-GoodFactor c (instant_pressure F R thermo) volume
        (target_temperature F R c step steps)
  barostat_scale-GoodFactor npt_ber c thermo volume step steps =
      checked_scale-GoodFactor c (instant_pressure F R thermo) _
  barostat_scale-GoodFactor nve c thermo volume step steps = tt
  barostat_scale-GoodFactor nvt_ber c thermo volume step steps = tt
  barostat_scale-GoodFactor nvt_nhc c thermo volume step steps = tt
  barostat_scale-GoodFactor nvt_bdp c thermo volume step steps = tt

  -- Whatever the controller and the inputs are, the factors that the three hooks hand out are finite and
  -- above 0, those of `nvt_ber` after the forces excepted, which the code does not check.
  pub hooks-GoodFactor :
      (c : EnsembleController F R) (thermo : Option (List Double)) (energy : Option Double)
      (dt volume : Double) (step steps : ℤ)
      → GoodFactor (before_force F R c dt energy step steps)
        × (c.configuration.kind ≢ nvt_ber → GoodFactor (after_force F R c thermo step steps))
        × GoodFactor (barostat_scale F R c thermo volume step steps)
  unfolding before_force after_force barostat_scale
  hooks-GoodFactor c thermo energy dt volume step steps = (
    before_force-GoodFactor c.configuration.kind c dt energy step steps,
    (λ h. after_force-GoodFactor c.configuration.kind c thermo step steps h),
    barostat_scale-GoodFactor c.configuration.kind c thermo volume step steps,
  )
