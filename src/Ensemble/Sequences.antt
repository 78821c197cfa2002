-- ===== src/Ensemble/Sequences.antt =====
-- Any sequence of calls of the hooks, on rank 0.
use dmg_md.Base.{
  ◌≡◌, refl, subst, true, false, List, Option, none, Result, ok, err, ◌>>=◌, ℕ, >>-eq-ok,
  ok-injective,
}
use dmg_md.Base.Floats.{Floats}
use dmg_md.Base.Int.{ℤ}
use dmg_md.RunFile.{EnsembleKind, nve, nvt_ber, nvt_nhc, nvt_bdp, npt_ber, npt_scr, EnsembleCommand}
use dmg_md.Ensemble.{
  EnsembleError, Replicas, State, EnsembleController, needs_pre_force_kinetic_energy,
}
use dmg_md.Ensemble.Control.{
  construct_controller, construct_kind, construct_npt, construct_scr, construct_nhc, construct_bdp,
  rng_state, own_chain, check_masses, require_target_temperatures, check_npt, check_conversion,
  check_nhc, check_bdp, check_scr,
}
use dmg_md.Ensemble.Missing.{draws, lacks_state, has_chain, has_rng}
use dmg_md.Ensemble.Rooted.{Rooted}
use dmg_md.Ensemble.Hooks.{Hook, run_hooks, run_hooks-lacks_state}

module _ (F : Floats) (R : Replicas F) where
  open F use {Double, led, ltd, is_finite, of_int}

  -- What a constructor that returned gives.
  Starts : EnsembleKind → Result EnsembleError (EnsembleController F R) → Type 0
  Starts kind (ok c) = Rooted F R kind c
  Starts kind (err e) = Unit {0}

  bind-Starts :
      {A : Type 0} (kind : EnsembleKind) (r : Result EnsembleError A)
      (k : A → Result EnsembleError (EnsembleController F R))
      → ((a : A) → r ≡ ok a → Starts kind (k a))
      → Starts kind (r >>= k)
  unfolding Starts
  bind-Starts kind (err e) k h = tt
  bind-Starts kind (ok a) k h = h a refl

  -- The state that a kind has on rank 0.
  HasState : EnsembleKind → Option (State F R) → Type 0
  HasState kind state =
      (needs_pre_force_kinetic_energy kind ≡ true → has_chain F R state ≡ true)
      × (draws kind ≡ true → has_rng F R state ≡ true)

  construct_npt-Starts :
      (kind : EnsembleKind) (config : EnsembleCommand F) (state : Option (State F R))
      → config.kind ≡ kind
      → HasState kind state
      → Starts kind (construct_npt F R config state)
  unfolding construct_npt HasState Starts
  construct_npt-Starts kind config state is h =
      bind-Starts kind (require_target_temperatures F R config) _ λ u _.
        bind-Starts kind (check_npt F R config) _ λ v _.
          bind-Starts kind (check_conversion F R _ _) _
            λ w _. record { same_kind = is; chained = h.0; seeded = h.1 }

  own_chain-has_chain :
      (config : EnsembleCommand F) (count : ℤ) (dt : Double) {state : Option (State F R)}
      → own_chain F R config count dt true ≡ ok state
      → has_chain F R state ≡ true
  unfolding own_chain
  own_chain-has_chain config count dt e =
      let (_, e1) = >>-eq-ok (check_masses F R _) _ e in
      subst (λ st. has_chain F R st ≡ true) (ok-injective e1) refl

  construct_kind-Starts :
      (kind : EnsembleKind) (config : EnsembleCommand F) (count : ℤ) (dt : Double) (seed : ℕ)
      → config.kind ≡ kind
      → Starts kind (construct_kind F R kind config count dt true seed)
  unfolding construct_kind Starts HasState construct_scr construct_nhc construct_bdp rng_state
      needs_pre_force_kinetic_energy
  construct_kind-Starts nve config count dt seed is = record {
    same_kind = is;
    chained = λ h. absurd (cc);
    seeded = λ h. absurd (cc);
  }
  construct_kind-Starts nvt_ber config count dt seed is = record {
    same_kind = is;
    chained = λ h. absurd (cc);
    seeded = λ h. absurd (cc);
  }
  construct_kind-Starts npt_ber config count dt seed is =
      construct_npt-Starts npt_ber config none is ((λ h. absurd (cc)), (λ h. absurd (cc)))
  construct_kind-Starts npt_scr config count dt seed is =
      let begun =
        construct_npt-Starts npt_scr config (rng_state F R true count seed) is
          ((λ h. absurd (cc)), (λ h. refl)) in
      bind-Starts npt_scr (construct_npt F R config (rng_state F R true count seed)) _
        λ c e. bind-Starts npt_scr (check_scr F R count) _ λ u _. subst (Starts npt_scr) e begun
  construct_kind-Starts nvt_nhc config count dt seed is =
      bind-Starts nvt_nhc (require_target_temperatures F R config) _ λ u _.
        bind-Starts nvt_nhc (check_nhc F R config count dt) _ λ v _.
          bind-Starts nvt_nhc (own_chain F R config count dt true) _ λ state e. record {
            same_kind = is;
            chained = λ h. own_chain-has_chain config count dt e;
            seeded = λ h. absurd (cc);
          }
  construct_kind-Starts nvt_bdp config count dt seed is =
      bind-Starts nvt_bdp (require_target_temperatures F R config) _ λ u _.
        bind-Starts nvt_bdp (check_bdp F R config count dt) _
          λ v _. record { same_kind = is; chained = λ h. absurd (cc); seeded = λ h. refl }

  Starts-Rooted :
      (kind : EnsembleKind) (r : Result EnsembleError (EnsembleController F R))
      {c : EnsembleController F R}
      → r ≡ ok c
      → Starts kind r
      → Rooted F R kind c
  unfolding Starts
  Starts-Rooted kind r e h = subst (Starts kind) e h

  -- A controller that was made on rank 0 holds the state that its hooks ask for, through every sequence
  -- of calls: no call throws that the chain or the generator is missing.
  pub construct_controller-lacks_state :
      (config : EnsembleCommand F) (count : ℤ) (dt : Double) (seed : ℕ) (hs : List (Hook F R))
      {c : EnsembleController F R}
      → construct_controller F R config count dt true seed ≡ ok c
      → lacks_state (run_hooks F R c hs) ≡ false
  unfolding construct_controller
  construct_controller-lacks_state config count dt seed hs {c} e =
      run_hooks-lacks_state F R config.kind c hs (
        Starts-Rooted config.kind (construct_kind F R config.kind config count dt true seed) e
          (construct_kind-Starts config.kind config count dt seed refl))
