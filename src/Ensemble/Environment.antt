-- ===== src/Ensemble/Environment.antt =====
-- src/runtime_internal.hpp, `validate_ensemble_environment`: the variables that a run with a stateful
-- thermostat or a barostat asks for; src/mpi_runtime.cu, `assert_same_fingerprint`.
use Prim.Native.Nat.{bit_xor}
use Prim.Native.String.{String}
use dmg_md.Base.{
  ℕ, ◌*◌, ◌%◌, ◌^◌, ◌<◌, ◌==◌, Bool, true, false, ◌||◌, not, List, [], ◌∷◌, ◌++◌, Option, none,
  some, Result, ok, err, ◌>>◌, throw_if, ◌≡◌, ◌↔◌, arith, if◌then◌else◌, throw_if-eq-ok, >>-eq-ok,
  sym, ap, ◌∙◌,
}
use dmg_md.Base.Floats.{Floats}
use dmg_md.RunFile.{
  Bytes, Command, CommandData, EnsembleKind, nvt_nhc, nvt_bdp, npt_scr, ensemble_command,
}
use dmg_md.RunFile.Text.{codes, same_bytes, same_bytes-eq}
use dmg_md.RunFile.Preflight.{program_uses_npt}
use dmg_md.Ensemble.Seed.{parse_ensemble_seed, SeedError}

pub data EnvironmentError : Type 0 where
  differs npt_requires nvt_requires : String → EnvironmentError
  seed_differs : EnvironmentError
  bad_seed : SeedError → EnvironmentError

unfoldable pub is_stateful : EnsembleKind → Bool
is_stateful nvt_nhc = true
is_stateful nvt_bdp = true
is_stateful npt_scr = true
is_stateful _ = false

unfoldable pub is_stochastic : EnsembleKind → Bool
is_stochastic nvt_bdp = true
is_stochastic npt_scr = true
is_stochastic _ = false

-- The variable with its presence.
unfoldable pub spelling : Option Bytes → Bytes
spelling none = codes "unset"
spelling (some value) = codes "set:" ++ value

-- The bytes mixed into a hash of 64 bits.
unfoldable pub fingerprint : Bytes → ℕ → ℕ
fingerprint [] hash = hash
fingerprint (byte ∷ bytes) hash = fingerprint bytes (bit_xor hash byte * 1099511628211 % 2 ^ 64)

-- The variables, each with the text that a run asks for.
unfoldable pub options : List (String × String)
options =
    ("DMGMD_DOMAIN_PARTITION", "off")
    ∷ ("DMGMD_DOMAIN_OVERLAP", "off")
    ∷ ("DMGMD_DOMAIN_SCHEDULE", "split")
    ∷ ("DMGMD_OVERLAP_TRACE", "0")
    ∷ []

unfoldable pub is_other : Option Bytes → String → Bool
is_other none wanted = false
is_other (some value) wanted = not (same_bytes value (codes wanted))

unfoldable pub requires : Bool → String → EnvironmentError
requires npt name = if npt then npt_requires name else nvt_requires name

unfoldable pub seed_result : Result SeedError ℕ → Result EnvironmentError (Unit {0})
seed_result (err e) = err (bad_seed e)
seed_result (ok seed) = ok tt

module _ {F : Floats} where
  abbrev pub kind_tests : (EnsembleKind → Bool) → CommandData F → Bool
  kind_tests test (ensemble_command e) = test e.kind
  kind_tests test _ = false

abbrev pub seed_text : (ℕ → String → Option Bytes) → ℕ → Bytes
seed_text environment k = spelling (environment k "DMGMD_ENSEMBLE_SEED")

-- No variable of the list has another text than the one asked for.
unfoldable pub AreAllowed : (String → Option Bytes) → List (String × String) → Type 0
AreAllowed variable [] = Unit {0}
AreAllowed variable ((name, wanted) ∷ rest) =
    (is_other (variable name) wanted ≡ false) × AreAllowed variable rest

module _ (F : Floats) where
  -- `any_of` over the ensembles of a program.
  unfoldable pub any_kind : (EnsembleKind → Bool) → List (Command F) → Bool
  any_kind test [] = false
  any_kind test (c ∷ cs) = kind_tests test c.data_of || any_kind test cs

  unfoldable pub needs_check : List (Command F) → Bool
  needs_check program = any_kind is_stateful program || program_uses_npt F program

-- What the check uses of `MpiRuntime`, over what the ranks bring.
module _ (smallest largest : (ℕ → ℕ) → ℕ) (broadcast_string : (ℕ → Bytes) → ℕ → Bytes)
    (allreduce_all_passed : (ℕ → Bool) → ℕ → Bool) where
  unfoldable pub disagrees : (ℕ → ℕ) → Bool
  disagrees values = not (smallest values == largest values)

  unfoldable pub assert_same_fingerprint : (ℕ → ℕ) → String → Result EnvironmentError (Unit {0})
  assert_same_fingerprint values name = throw_if (disagrees values) (differs name)

  unfoldable pub same_option :
      Bool → (ℕ → String → Option Bytes) → String → Result EnvironmentError (Unit {0})
  same_option npt environment name =
      if npt
      then assert_same_fingerprint
          (λ k. fingerprint (spelling (environment k name)) 1469598103934665603) name
      else ok tt

  -- The loop over the variables, on rank r.
  unfoldable pub check_options :
      Bool
      → (ℕ → String → Option Bytes)
      → ℕ
      → List (String × String)
      → Result EnvironmentError (Unit {0})
  check_options npt environment r [] = ok tt
  check_options npt environment r ((name, wanted) ∷ rest) = do
    same_option npt environment name
    throw_if (is_other (environment r name) wanted) (requires npt name)
    check_options npt environment r rest

  -- Whether rank k has the seed of rank 0.
  unfoldable pub seed_agrees : (ℕ → String → Option Bytes) → ℕ → Bool
  seed_agrees environment k =
      same_bytes (seed_text environment k)
        (broadcast_string (λ j. if j == 0 then seed_text environment j else []) k)

  unfoldable pub check_seed : (ℕ → String → Option Bytes) → ℕ → Result EnvironmentError (Unit {0})
  check_seed environment r = do
    throw_if (not (allreduce_all_passed (λ k. seed_agrees environment k) r)) seed_differs
    seed_result (parse_ensemble_seed (environment r "DMGMD_ENSEMBLE_SEED"))

  module _ (F : Floats) where
    unfoldable pub seed_if_stochastic :
        List (Command F) → (ℕ → String → Option Bytes) → ℕ → Result EnvironmentError (Unit {0})
    seed_if_stochastic program environment r =
        if any_kind F is_stochastic program then check_seed environment r else ok tt

    unfoldable pub check_environment :
        List (Command F) → (ℕ → String → Option Bytes) → ℕ → Result EnvironmentError (Unit {0})
    check_environment program environment r = do
      check_options (program_uses_npt F program) environment r options
      seed_if_stochastic program environment r

    -- The outcome on rank r, from the variables of every rank.
    unfoldable pub validate_ensemble_environment :
        List (Command F) → (ℕ → String → Option Bytes) → ℕ → Result EnvironmentError (Unit {0})
    validate_ensemble_environment program environment r =
        if needs_check F program then check_environment program environment r else ok tt

    check_options-AreAllowed :
        (npt : Bool) (environment : ℕ → String → Option Bytes) (r : ℕ)
        (names : List (String × String))
        → check_options npt environment r names ≡ ok tt
        → AreAllowed (environment r) names
    unfolding check_options AreAllowed
    check_options-AreAllowed npt environment r [] h = tt
    check_options-AreAllowed npt environment r ((name, wanted) ∷ rest) h =
        let (same, after) = >>-eq-ok (same_option npt environment name) _ h in
        let (allowed, others) =
          throw_if-eq-ok (is_other (environment r name) wanted) (requires npt name) _ after in
        (allowed, check_options-AreAllowed npt environment r rest others)

    -- When a broadcast gives the text of rank 0 and a reduction is true exactly if all ranks passed, the
    -- check returns on a rank for a program with a stateful thermostat or pressure control only if each
    -- of the four variables is unset there or has the text asked for, and, with a stochastic ensemble
    -- in the program, the seed has the same spelling on every rank as on rank 0.
    pub validate_ensemble_environment-AreAllowed :
        (world : ℕ) (program : List (Command F)) (environment : ℕ → String → Option Bytes) (r : ℕ)
        → ((texts : ℕ → Bytes) (k : ℕ) → broadcast_string texts k ≡ texts 0)
        → ((flags : ℕ → Bool) (k : ℕ)
            → (allreduce_all_passed flags k ≡ true) ↔ ((j : ℕ) → j < world → flags j ≡ true))
        → needs_check F program ≡ true
        → validate_ensemble_environment program environment r ≡ ok tt
        → AreAllowed (environment r) options
          × (any_kind F is_stochastic program ≡ true
              → (k : ℕ) → k < world
              → seed_text environment k ≡ seed_text environment 0)
    unfolding validate_ensemble_environment check_environment seed_if_stochastic check_seed
        seed_agrees
    validate_ensemble_environment-AreAllowed world program environment r broadcasts reduces needed
          h =
        let npt = program_uses_npt F program in
        let whole : check_environment program environment r ≡ ok tt =
          sym (ap (λ t. if t then check_environment program environment r else ok tt) needed) ∙ h in
        let (options_pass, seed_passes) =
          >>-eq-ok (check_options npt environment r options) _ whole in
        (
          check_options-AreAllowed npt environment r options options_pass,
          λ stochastic. λ k. λ below.
              let flags : ℕ → Bool = λ j. seed_agrees environment j in
              let checks : check_seed environment r ≡ ok tt =
                sym (ap (λ t. if t then check_seed environment r else ok tt) stochastic)
                ∙ seed_passes in
              let (passed, parsed) =
                throw_if-eq-ok (not (allreduce_all_passed flags r)) seed_differs _ checks in
              let all : allreduce_all_passed flags r ≡ true = ground arith in
              let mine : seed_agrees environment k ≡ true = (reduces flags r).0 all k below in
              same_bytes-eq (seed_text environment k) _ mine
              ∙ broadcasts (λ j. if j == 0 then seed_text environment j else []) k,
        )
