-- ===== src/Ensemble/Missing.antt =====
-- Calls that never complain about a missing state.
use dmg_md.Base.{◌≡◌, refl, Bool, true, false, Option, none, some, Result, ok, err, ◌>>=◌, throw_if}
use dmg_md.Base.Floats.{Floats}
use dmg_md.RunFile.{EnsembleKind, nvt_bdp, npt_scr}
use dmg_md.Ensemble.{EnsembleError, Replicas, State, no_chain_state, no_rng_state}

-- The kinds with a generator.
abbrev pub draws : EnsembleKind → Bool
draws nvt_bdp = true
draws npt_scr = true
draws _ = false

-- The errors that speak of a missing state.
abbrev pub is_missing : EnsembleError → Bool
is_missing no_chain_state = true
is_missing no_rng_state = true
is_missing _ = false

unfoldable pub lacks_state : {A : Type 0} → Result EnsembleError A → Bool
lacks_state (ok a) = false
lacks_state (err e) = is_missing e

abbrev pub is_some : {A : Type 0} → Option A → Bool
is_some none = false
is_some (some a) = true

pub bind-lacks_state :
    {A B : Type 0} (r : Result EnsembleError A) (k : A → Result EnsembleError B)
    → lacks_state r ≡ false
    → ((a : A) → lacks_state (k a) ≡ false)
    → lacks_state (r >>= k) ≡ false
unfolding lacks_state
bind-lacks_state (ok a) k h f = f a
bind-lacks_state (err e) k h f = h

pub thrown :
    (b : Bool) (e : EnsembleError) → is_missing e ≡ false → lacks_state (throw_if b e) ≡ false
unfolding lacks_state
thrown true e h = h
thrown false e h = refl

module _ (F : Floats) (R : Replicas F) where
  open F use {Double, led, ltd, is_finite, of_int}

  abbrev pub has_chain : Option (State F R) → Bool
  has_chain none = false
  has_chain (some s) = is_some s.chain

  abbrev pub has_rng : Option (State F R) → Bool
  has_rng none = false
  has_rng (some s) = is_some s.svr
