-- ===== src/Ensemble/Hooks.antt =====
-- The hooks keep the state that they need, in any sequence.
use dmg_md.Base.{
  ◌≡◌, refl, sym, subst, Bool, true, false, List, [], ◌∷◌, Option, none, some, Result, ok, err,
  ◌>>=◌, if◌then◌else◌,
}
use dmg_md.Base.Floats.{Floats}
use dmg_md.Base.Int.{ℤ}
use dmg_md.RunFile.{EnsembleKind, nve, nvt_ber, nvt_nhc, nvt_bdp, npt_ber, npt_scr}
use dmg_md.Ensemble.{EnsembleError, Replicas, EnsembleController, require_positive, no_thermo}
use dmg_md.Ensemble.Factors.{
  Scaled, from_option, element, target_temperature, before_kind, before_force, is_coupled,
  nvt_ber_coupled, nvt_ber_after, npt_ber_coupled, npt_ber_after, check_temperature, after_kind,
  after_force, instant_pressure, barostat_kind, barostat_scale,
}
use dmg_md.Ensemble.Missing.{lacks_state}
use dmg_md.Ensemble.Rooted.{
  Rooted, Kept, bind-Kept, nhc_before-Kept, nhc_after-Kept, bdp_after-Kept, checked_scale-Kept,
  scr_scale-Kept, require-lacks_state, option-lacks_state,
}

module _ (F : Floats) (R : Replicas F) where
  open F use {Double, led, ltd, is_finite, of_int}

  -- A call of a hook, with its arguments.
  pub data Hook : Type 0 where
    before : Double → Option Double → ℤ → ℤ → Hook
    after : Option (List Double) → ℤ → ℤ → Hook
    box_scale : Option (List Double) → Double → ℤ → ℤ → Hook

  unfoldable pub run_hook : EnsembleController F R → Hook → Scaled F R
  run_hook c (before dt energy step steps) = before_force F R c dt energy step steps
  run_hook c (after thermo step steps) = after_force F R c thermo step steps
  run_hook c (box_scale thermo volume step steps) = barostat_scale F R c thermo volume step steps

  -- The factors are left to the caller.
  unfoldable pub run_hooks :
      EnsembleController F R → List Hook → Result EnsembleError (EnsembleController F R)
  run_hooks c [] = ok c
  run_hooks c (h ∷ hs) = do (next, factor) ← run_hook c h; run_hooks next hs

  nvt_ber_coupled-Kept :
      (c : EnsembleController F R) (thermo : Option (List Double)) (target : Double)
      → Rooted F R nvt_ber c
      → Kept F R nvt_ber (nvt_ber_coupled F R c thermo target)
  unfolding nvt_ber_coupled
  nvt_ber_coupled-Kept c thermo target r =
      bind-Kept F R nvt_ber (from_option F R no_thermo thermo) _
        (option-lacks_state F R no_thermo thermo refl) λ values. r

  npt_ber_coupled-Kept :
      (c : EnsembleController F R) (thermo : Option (List Double)) (target : Double)
      → Rooted F R npt_ber c
      → Kept F R npt_ber (npt_ber_coupled F R c thermo target)
  unfolding npt_ber_coupled
  npt_ber_coupled-Kept c thermo target r =
      bind-Kept F R npt_ber (from_option F R no_thermo thermo) _
        (option-lacks_state F R no_thermo thermo refl)
        λ values. bind-Kept F R npt_ber (require_positive F _) _ (require-lacks_state F R _) λ u. r

  Kept-if :
      (kind : EnsembleKind) (b : Bool) (x y : Scaled F R)
      → Kept F R kind x
      → Kept F R kind y
      → Kept F R kind (if b then x else y)
  Kept-if kind true x y g h = g
  Kept-if kind false x y g h = h

  temperature-lacks_state :
      (thermo : Option (List Double)) → lacks_state (check_temperature F R thermo) ≡ false
  unfolding check_temperature lacks_state
  temperature-lacks_state none = refl
  temperature-lacks_state (some values) = require-lacks_state F R (element F R values 0)

  before_kind-Kept :
      (kind : EnsembleKind) (c : EnsembleController F R) (dt : Double) (energy : Option Double)
      (step steps : ℤ)
      → Rooted F R kind c
      → Kept F R kind (before_kind F R kind c dt energy step steps)
  unfolding before_kind
  before_kind-Kept nvt_nhc c dt energy step steps r = nhc_before-Kept F R c dt energy step steps r
  before_kind-Kept nve c dt energy step steps r = r
  before_kind-Kept nvt_ber c dt energy step steps r = r
  before_kind-Kept nvt_bdp c dt energy step steps r = r
  before_kind-Kept npt_ber c dt energy step steps r = r
  before_kind-Kept npt_scr c dt energy step steps r = r

  after_kind-Kept :
      (kind : EnsembleKind) (c : EnsembleController F R) (thermo : Option (List Double))
      (step steps : ℤ)
      → Rooted F R kind c
      → Kept F R kind (after_kind F R kind c thermo step steps)
  unfolding after_kind nvt_ber_after npt_ber_after
  after_kind-Kept nve c thermo step steps r = r
  after_kind-Kept nvt_ber c thermo step steps r =
      Kept-if nvt_ber (is_coupled F R c) _ _
        (nvt_ber_coupled-Kept c thermo (target_temperature F R c step steps) r) r
  after_kind-Kept npt_ber c thermo step steps r =
      bind-Kept F R npt_ber (check_temperature F R thermo) _ (temperature-lacks_state thermo) λ u.
        Kept-if npt_ber (is_coupled F R c) _ _
          (npt_ber_coupled-Kept c thermo (target_temperature F R c step steps) r) r
  after_kind-Kept nvt_nhc c thermo step steps r = nhc_after-Kept F R c thermo step steps r
  after_kind-Kept nvt_bdp c thermo step steps r =
      bdp_after-Kept F R nvt_bdp c thermo step steps refl r
  after_kind-Kept npt_scr c thermo step steps r =
      bdp_after-Kept F R npt_scr c thermo step steps refl r

  barostat_kind-Kept :
      (kind : EnsembleKind) (c : EnsembleController F R) (thermo : Option (List Double))
      (volume : Double) (step steps : ℤ)
      → Rooted F R kind c
      → Kept F R kind (barostat_kind F R kind c thermo volume step steps)
  unfolding barostat_kind
  barostat_kind-Kept npt_scr c thermo volume step steps r =
      scr_scale-Kept F R c (instant_pressure F R thermo) volume
        (target_temperature F R c step steps) r
  barostat_kind-Kept npt_ber c thermo volume step steps r =
      checked_scale-Kept F R npt_ber c (instant_pressure F R thermo) _ r
  barostat_kind-Kept nve c thermo volume step steps r = refl
  barostat_kind-Kept nvt_ber c thermo volume step steps r = refl
  barostat_kind-Kept nvt_nhc c thermo volume step steps r = refl
  barostat_kind-Kept nvt_bdp c thermo volume step steps r = refl

  run_hook-Kept :
      (kind : EnsembleKind) (c : EnsembleController F R) (h : Hook)
      → Rooted F R kind c
      → Kept F R kind (run_hook c h)
  unfolding run_hook before_force after_force barostat_scale
  run_hook-Kept kind c (before dt energy step steps) r =
      subst (λ k. Kept F R kind (before_kind F R k c dt energy step steps)) (sym r.same_kind)
        (before_kind-Kept kind c dt energy step steps r)
  run_hook-Kept kind c (after thermo step steps) r =
      subst (λ k. Kept F R kind (after_kind F R k c thermo step steps)) (sym r.same_kind)
        (after_kind-Kept kind c thermo step steps r)
  run_hook-Kept kind c (box_scale thermo volume step steps) r =
      subst (λ k. Kept F R kind (barostat_kind F R k c thermo volume step steps)) (sym r.same_kind)
        (barostat_kind-Kept kind c thermo volume step steps r)

  run_rest :
      (kind : EnsembleKind) (hs : List Hook) (r : Scaled F R)
      → ((c : EnsembleController F R) → Rooted F R kind c → lacks_state (run_hooks c hs) ≡ false)
      → Kept F R kind r
      → lacks_state (r >>= λ next. run_hooks next.0 hs) ≡ false
  unfolding lacks_state
  run_rest kind hs (ok (c, f)) go k = go c k
  run_rest kind hs (err e) go k = k

  pub run_hooks-lacks_state :
      (kind : EnsembleKind) (c : EnsembleController F R) (hs : List Hook)
      → Rooted F R kind c
      → lacks_state (run_hooks c hs) ≡ false
  unfolding run_hooks lacks_state
  run_hooks-lacks_state kind c [] r = refl
  run_hooks-lacks_state kind c (h ∷ hs) r =
      run_rest kind hs (run_hook c h) (λ c' r'. run_hooks-lacks_state kind c' hs r')
        (run_hook-Kept kind c h r)
