-- ===== src/Ensemble/Rooted.antt =====
-- On rank 0 the hooks find the state that they need.
use dmg_md.Base.{
  ◌≡◌, refl, Bool, true, false, not, ◌||◌, List, [], ◌∷◌, Option, none, some, Result, ok, err,
  ◌>>=◌, throw_if,
}
use dmg_md.Base.Floats.{Floats}
use dmg_md.Base.Int.{ℤ, pos}
use dmg_md.RunFile.{EnsembleKind, nve, nvt_ber, nvt_nhc, nvt_bdp, npt_ber, npt_scr}
use dmg_md.Ensemble.{
  EnsembleError, Replicas, State, EnsembleController, require_positive, not_positive,
  momentum_not_finite, bad_sample, bad_box_factor, no_chain_state, no_rng_state, no_thermo,
  no_energy, needs_pre_force_kinetic_energy,
}
use dmg_md.Ensemble.Factors.{
  Scaled, from_option, element, target_temperature, root_chain, root_rng, check_momenta,
  check_sample, check_scale, scale_by_chain, nhc_before, nhc_after, with_rng, bdp_after,
  checked_scale, scr_scale,
}
use dmg_md.Ensemble.Missing.{
  draws, is_missing, lacks_state, is_some, bind-lacks_state, thrown, has_chain, has_rng,
}

module _ (F : Floats) (R : Replicas F) where
  open F use {Double, led, ltd, is_finite, of_int}

  -- The state holds what the kind needs.
  pub record Rooted (kind : EnsembleKind) (c : EnsembleController F R) : Type 0 where
    pub same_kind : c.configuration.kind ≡ kind
    pub chained : needs_pre_force_kinetic_energy kind ≡ true → has_chain F R c.state ≡ true
    pub seeded : draws kind ≡ true → has_rng F R c.state ≡ true

  abbrev pub Kept : EnsembleKind → Scaled F R → Type 0
  Kept kind (ok (c, f)) = Rooted kind c
  Kept kind (err e) = is_missing e ≡ false

  pub bind-Kept :
      {A : Type 0} (kind : EnsembleKind) (r : Result EnsembleError A) (k : A → Scaled F R)
      → lacks_state r ≡ false
      → ((a : A) → Kept kind (k a))
      → Kept kind (r >>= k)
  unfolding lacks_state
  bind-Kept kind (err e) k l h = l
  bind-Kept kind (ok a) k l h = h a

  pub require-lacks_state : (x : Double) → lacks_state (require_positive F x) ≡ false
  unfolding require_positive lacks_state
  require-lacks_state x = thrown (not (is_finite x) || led x (of_int (pos 0))) not_positive refl

  pub option-lacks_state :
      {A : Type 0} (e : EnsembleError) (o : Option A)
      → is_missing e ≡ false
      → lacks_state (from_option F R e o) ≡ false
  unfolding lacks_state
  option-lacks_state e none h = h
  option-lacks_state e (some a) h = refl

  found-lacks_state :
      {A : Type 0} (e : EnsembleError) (o : Option A)
      → is_some o ≡ true
      → lacks_state (from_option F R e o) ≡ false
  unfolding lacks_state
  found-lacks_state e none h = absurd (cc)
  found-lacks_state e (some a) h = refl

  lacks_nothing : {A : Type 0} (a : A) → ◌≡◌ {A = Bool} (lacks_state {A = A} (ok a)) false
  unfolding lacks_state
  lacks_nothing a = refl

  root_chain-lacks_state :
      (s : Option (State F R)) → has_chain F R s ≡ true → lacks_state (root_chain F R s) ≡ false
  unfolding root_chain
  root_chain-lacks_state none h = absurd (cc)
  root_chain-lacks_state (some s) h =
      bind-lacks_state (from_option F R no_chain_state s.chain) _
        (found-lacks_state no_chain_state s.chain h) λ chain. lacks_nothing (s, chain)

  root_rng-lacks_state :
      (s : Option (State F R)) → has_rng F R s ≡ true → lacks_state (root_rng F R s) ≡ false
  unfolding root_rng
  root_rng-lacks_state none h = absurd (cc)
  root_rng-lacks_state (some s) h =
      bind-lacks_state (from_option F R no_rng_state s.svr) _
        (found-lacks_state no_rng_state s.svr h) λ rng. lacks_nothing (s, rng)

  momenta-lacks_state : (ps : List Double) → lacks_state (check_momenta F R ps) ≡ false
  unfolding check_momenta
  momenta-lacks_state [] = lacks_nothing tt
  momenta-lacks_state (p ∷ ps) =
      bind-lacks_state (throw_if (not (is_finite p)) momentum_not_finite) _
        (thrown (not (is_finite p)) momentum_not_finite refl) λ u. momenta-lacks_state ps

  sample-lacks_state : (x : Double) → lacks_state (check_sample F R x) ≡ false
  unfolding check_sample
  sample-lacks_state x = thrown (not (is_finite x) || ltd x (of_int (pos 0))) bad_sample refl

  scale-lacks_state : (p x : Double) → lacks_state (check_scale F R p x) ≡ false
  unfolding check_scale
  scale-lacks_state p x =
      thrown (not (is_finite p) || not (is_finite x) || led x (of_int (pos 0))) bad_box_factor refl

  -- A new chain or generator keeps the state rooted.
  chain-Rooted :
      (kind : EnsembleKind) (c : EnsembleController F R) (s : State F R) (chain : R.Chain)
      (dt : Double)
      → needs_pre_force_kinetic_energy kind ≡ true
      → Rooted kind c
      → Rooted kind (record c { state = some (record s { chain = some chain; time_step = dt }) })
  unfolding needs_pre_force_kinetic_energy
  chain-Rooted nvt_nhc c s chain dt h r = record {
    same_kind = r.same_kind;
    chained = λ _. refl;
    seeded = λ d. absurd (cc);
  }
  chain-Rooted nve c s chain dt h r = absurd (cc)
  chain-Rooted nvt_ber c s chain dt h r = absurd (cc)
  chain-Rooted nvt_bdp c s chain dt h r = absurd (cc)
  chain-Rooted npt_ber c s chain dt h r = absurd (cc)
  chain-Rooted npt_scr c s chain dt h r = absurd (cc)

  rng-Rooted :
      (kind : EnsembleKind) (c : EnsembleController F R) (s : State F R) (rng : R.Rng) (g : Double)
      → draws kind ≡ true
      → Rooted kind c
      → Rooted kind (record c { state = some (with_rng F R s rng); last_barostat_gaussian = g })
  unfolding with_rng needs_pre_force_kinetic_energy
  rng-Rooted nvt_bdp c s rng g h r = record {
    same_kind = r.same_kind;
    chained = λ d. absurd (cc);
    seeded = λ _. refl;
  }
  rng-Rooted npt_scr c s rng g h r = record {
    same_kind = r.same_kind;
    chained = λ d. absurd (cc);
    seeded = λ _. refl;
  }
  rng-Rooted nve c s rng g h r = absurd (cc)
  rng-Rooted nvt_ber c s rng g h r = absurd (cc)
  rng-Rooted nvt_nhc c s rng g h r = absurd (cc)
  rng-Rooted npt_ber c s rng g h r = absurd (cc)

  scale_by_chain-Kept :
      (c : EnsembleController F R) (s : State F R) (chain : R.Chain) (ek2 target dt : Double)
      → Rooted nvt_nhc c
      → Kept nvt_nhc (scale_by_chain F R c s chain ek2 target dt)
  unfolding scale_by_chain needs_pre_force_kinetic_energy
  scale_by_chain-Kept c s chain ek2 target dt r =
      bind-Kept nvt_nhc (require_positive F _) _ (require-lacks_state _) λ u.
        bind-Kept nvt_nhc (check_momenta F R _) _ (momenta-lacks_state _)
          λ v. chain-Rooted nvt_nhc c s _ dt refl r

  pub nhc_before-Kept :
      (c : EnsembleController F R) (dt : Double) (energy : Option Double) (step steps : ℤ)
      → Rooted nvt_nhc c
      → Kept nvt_nhc (nhc_before F R c dt energy step steps)
  unfolding nhc_before needs_pre_force_kinetic_energy
  nhc_before-Kept c dt energy step steps r =
      bind-Kept nvt_nhc (root_chain F R c.state) _ (root_chain-lacks_state c.state (r.chained refl))
        λ own.
          bind-Kept nvt_nhc (from_option F R no_energy energy) _
            (option-lacks_state no_energy energy refl)
            λ ke. bind-Kept nvt_nhc (require_positive F ke) _ (require-lacks_state ke) λ u.
              bind-Kept nvt_nhc (require_positive F dt) _ (require-lacks_state dt)
                λ v. scale_by_chain-Kept c own.0 own.1 _ _ _ r

  pub nhc_after-Kept :
      (c : EnsembleController F R) (thermo : Option (List Double)) (step steps : ℤ)
      → Rooted nvt_nhc c
      → Kept nvt_nhc (nhc_after F R c thermo step steps)
  unfolding nhc_after needs_pre_force_kinetic_energy
  nhc_after-Kept c thermo step steps r =
      bind-Kept nvt_nhc (require_positive F (target_temperature F R c step steps)) _
        (require-lacks_state _)
        λ u.
          bind-Kept nvt_nhc (root_chain F R c.state) _
            (root_chain-lacks_state c.state (r.chained refl))
            λ own.
              bind-Kept nvt_nhc (from_option F R no_thermo thermo) _
                (option-lacks_state no_thermo thermo refl)
                λ values.
                  bind-Kept nvt_nhc (require_positive F (element F R values 0)) _
                    (require-lacks_state _) λ v. scale_by_chain-Kept c own.0 own.1 _ _ _ r

  pub bdp_after-Kept :
      (kind : EnsembleKind) (c : EnsembleController F R) (thermo : Option (List Double))
      (step steps : ℤ)
      → draws kind ≡ true
      → Rooted kind c
      → Kept kind (bdp_after F R c thermo step steps)
  unfolding bdp_after
  bdp_after-Kept kind c thermo step steps d r =
      bind-Kept kind (require_positive F (target_temperature F R c step steps)) _
        (require-lacks_state _)
        λ u.
          bind-Kept kind (root_rng F R c.state) _ (root_rng-lacks_state c.state (r.seeded d)) λ own.
            bind-Kept kind (from_option F R no_thermo thermo) _
              (option-lacks_state no_thermo thermo refl)
              λ values.
                bind-Kept kind (require_positive F (element F R values 0)) _ (require-lacks_state _)
                  λ v. bind-Kept kind (require_positive F _) _ (require-lacks_state _) λ v.
                    bind-Kept kind (require_positive F _) _ (require-lacks_state _) λ v.
                      bind-Kept kind (check_sample F R _) _ (sample-lacks_state _) λ v.
                        bind-Kept kind (require_positive F _) _ (require-lacks_state _)
                          λ v. rng-Rooted kind c own.0 _ c.last_barostat_gaussian d r

  pub checked_scale-Kept :
      (kind : EnsembleKind) (c : EnsembleController F R) (p : Option Double)
      (scale : Double → Double)
      → Rooted kind c
      → Kept kind (checked_scale F R c p scale)
  unfolding checked_scale
  checked_scale-Kept kind c none scale r = refl
  checked_scale-Kept kind c (some p) scale r =
      bind-Kept kind (check_scale F R p (scale p)) _ (scale-lacks_state p (scale p)) λ u. r

  pub scr_scale-Kept :
      (c : EnsembleController F R) (p : Option Double) (volume target : Double)
      → Rooted npt_scr c
      → Kept npt_scr (scr_scale F R c p volume target)
  unfolding scr_scale
  scr_scale-Kept c p volume target r =
      bind-Kept npt_scr (require_positive F target) _ (require-lacks_state target) λ u.
        bind-Kept npt_scr (require_positive F volume) _ (require-lacks_state volume) λ v.
          bind-Kept npt_scr (root_rng F R c.state) _ (root_rng-lacks_state c.state (r.seeded refl))
            λ own. checked_scale-Kept npt_scr _ p _ (rng-Rooted npt_scr c own.0 _ _ refl r)
