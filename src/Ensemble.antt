-- ===== src/Ensemble.antt =====
-- src/ensemble_control.cpp and include/dmgmd/ensemble_control.hpp: the controller of one run segment,
-- which turns the global thermo into factors of the velocities and of the box.
pub mod Seed
pub mod Control
pub mod Factors
pub mod Positive
pub mod Missing
pub mod Rooted
pub mod Shared
pub mod Environment
pub mod Hooks
pub mod Sequences
use dmg_md.Base.{ℕ, Bool, true, false, not, ◌||◌, List, Option, none, some, Result, ok, throw_if}
use dmg_md.Base.Floats.{Floats}
use dmg_md.Base.Int.{ℤ, pos}
use dmg_md.RunFile.{EnsembleKind, nve, nvt_nhc, nvt_bdp, npt_ber, npt_scr, EnsembleCommand}

-- What the controller throws, by the kind of message.
pub data EnsembleError : Type 0 where
  not_positive bad_npt bad_conversion bad_scr_count bad_nhc bad_bdp : EnsembleError
  no_chain_state no_rng_state no_energy no_thermo momentum_not_finite bad_sample : EnsembleError
  not_npt bad_box_factor : EnsembleError

-- The integrators and draws of src/gpumd_compat, which are another program's: the state of a chain and
-- of a generator, with the calls that the controller makes.
pub record Replicas (F : Floats) : Type 1 where
  pub Chain : Type 0
  pub Rng : Type 0
  pub make_nhc_state : ℤ → F.Double → F.Double → F.Double → Chain
  pub masses : Chain → List F.Double
  pub momenta : Chain → List F.Double
  pub nhc_half_step : Chain → F.Double → F.Double → F.Double → F.Double → Chain × F.Double
  pub seeded : ℕ → Rng
  pub gasdev : Rng → Rng × F.Double
  pub resamplekin : F.Double → F.Double → ℤ → F.Double → Rng → Rng × F.Double
  pub npt_scr_isotropic_scale :
      F.Double → F.Double → F.Double → F.Double → F.Double → F.Double → F.Double
  pub sqrt : F.Double → F.Double

unfoldable pub needs_pre_force_kinetic_energy : EnsembleKind → Bool
needs_pre_force_kinetic_energy nvt_nhc = true
needs_pre_force_kinetic_energy _ = false

unfoldable pub uses_root_state : EnsembleKind → Bool
uses_root_state nvt_nhc = true
uses_root_state nvt_bdp = true
uses_root_state npt_scr = true
uses_root_state _ = false

unfoldable pub has_barostat : EnsembleKind → Bool
has_barostat npt_ber = true
has_barostat npt_scr = true
has_barostat _ = false

unfoldable pub needs_post_force_thermo : EnsembleKind → Bool
needs_post_force_thermo nve = false
needs_post_force_thermo _ = true

module _ (F : Floats) where
  unfoldable pub require_positive : F.Double → Result EnsembleError (Unit {0})
  require_positive value =
      throw_if (not (F.is_finite value) || F.led value (F.of_int (pos 0))) not_positive

  module _ (R : Replicas F) where
    -- What rank 0 owns.
    pub record State : Type 0 where
      pub chain : Option R.Chain
      pub svr : Option R.Rng
      pub global_count : ℤ
      pub time_step : F.Double

    pub record EnsembleController : Type 0 where
      pub configuration : EnsembleCommand F
      pub state : Option State
      pub target_pressure_internal : F.Double
      pub pressure_coupling_internal : F.Double
      pub last_barostat_gaussian : F.Double
