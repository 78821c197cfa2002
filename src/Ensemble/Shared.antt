-- ===== src/Ensemble/Shared.antt =====
-- src/runtime_internal.hpp, `ensemble_velocity_factor`: the factor of rank 0 on every rank.
use dmg_md.Base.{
  ℕ, ◌+◌, ◌*◌, ◌==◌, ◌≡◌, refl, ap, ◌∙◌, Bool, true, false, not, ◌||◌, Option, none, some, Result,
  ok, err, arith, if◌then◌else◌, ◌%◌, ◌^◌, ◌↔◌, ◌⊎◌, sym,
}
use dmg_md.Base.Floats.{Floats}
use dmg_md.Base.Int.{pos}
use dmg_md.RunFile.{EnsembleKind}
use dmg_md.Ensemble.{EnsembleError, uses_root_state}

-- What the evaluation throws, or the refusal of its factor.
pub data FactorError : Type 0 where
  thrown : EnsembleError → FactorError
  invalid_factor : FactorError

-- The counters of the communication that the call changes, of 64 bits each.
pub record FactorVolume : Type 0 where
  pub collective_calls : ℕ
  pub mpi_input_bytes_global : ℕ
  pub mpi_output_bytes_global : ℕ

if_shared :
    {A B : Type 0} (t : Bool) (x y : A) (v w : B)
    → t ≡ true
    → (if◌then◌else◌ {A = A × B} (not t) (x, v) (y, w)).0 ≡ y
if_shared true x y v w h = refl
if_shared false x y v w h = absurd (cc)

module _ (F : Floats) where
  open F use {Double, led, eqd, is_finite, of_int}

  -- The status and the factor, the two doubles of the broadcast.
  pub record FactorMessage : Type 0 where
    pub status : Double
    pub factor : Double

  abbrev fresh : FactorMessage
  fresh = record { status = of_int (pos 1); factor = of_int (pos 1) }

  abbrev failed : FactorMessage
  failed = record { status = of_int (pos 0); factor = of_int (pos 1) }

  unfoldable pub bad_factor : Double → Bool
  bad_factor f = not (is_finite f) || led f (of_int (pos 0))

  -- `evaluate` under its `catch`, with the checks of the factor.
  unfoldable pub checked : Result EnsembleError (Option Double) → Result FactorError Double
  checked (err e) = err (thrown e)
  checked (ok none) = err invalid_factor
  checked (ok (some f)) = if bad_factor f then err invalid_factor else ok f

  unfoldable pub message_of : Result FactorError Double → FactorMessage
  message_of (ok f) = record { status = of_int (pos 1); factor = f }
  message_of (err e) = failed

  -- The text of the error, empty where there is none.
  unfoldable pub error_of : Result FactorError Double → Option FactorError
  error_of (ok f) = none
  error_of (err e) = some e

  -- The buffers that rank r brings to the broadcasts; only rank 0 evaluates.
  unfoldable pub local_message : (ℕ → Result EnsembleError (Option Double)) → ℕ → FactorMessage
  local_message evaluate r = if r == 0 then message_of (checked (evaluate r)) else fresh

  unfoldable pub local_error : (ℕ → Result EnsembleError (Option Double)) → ℕ → Option FactorError
  local_error evaluate r = if r == 0 then error_of (checked (evaluate r)) else none

  -- What a rank does with the buffers that it received.
  unfoldable pub received :
      FactorMessage → Option FactorError → Result (Option FactorError) (Option Double)
  received message error =
      if not (eqd message.status (of_int (pos 1))) then err error else ok (some message.factor)

  unfoldable pub count_broadcast : ℕ → FactorVolume → FactorVolume
  count_broadcast world v = record {
    collective_calls = (v.collective_calls + 1) % 2 ^ 64;
    mpi_input_bytes_global = (v.mpi_input_bytes_global + 8 * 2) % 2 ^ 64;
    mpi_output_bytes_global = (v.mpi_output_bytes_global + 8 * 2 * world) % 2 ^ 64;
  }

  unfoldable pub own_outcome :
      Result EnsembleError (Option Double) → Result (Option FactorError) (Option Double)
  own_outcome (ok f) = ok f
  own_outcome (err e) = err (some (thrown e))

  -- The outcome of rank 0, as every rank should see it.
  unfoldable pub root_outcome :
      Result FactorError Double → Result (Option FactorError) (Option Double)
  root_outcome (ok f) = ok (some f)
  root_outcome (err e) = err (some e)

  received-root_outcome :
      (r : Result FactorError Double)
      → eqd (of_int (pos 1)) (of_int (pos 1)) ≡ true
      → eqd (of_int (pos 0)) (of_int (pos 1)) ≡ false
      → received (message_of r) (error_of r) ≡ root_outcome r
  unfolding received message_of error_of root_outcome
  received-root_outcome (ok f) a b = ground arith
  received-root_outcome (err e) a b = ground arith

  -- The outcome of rank 0 by what it evaluates to.
  root_outcome-cases :
      (evaluated : Result EnsembleError (Option Double))
      → let outcome = root_outcome (checked evaluated) in
        ((f : Double)
          → (outcome ≡ ok (some f))
            ↔ ((evaluated ≡ ok (some f)) × (is_finite f ≡ true) × (led f (of_int (pos 0)) ≡ false)))
        × ((e : EnsembleError) → evaluated ≡ err e → outcome ≡ err (some (thrown e)))
        × (evaluated ≡ ok none → outcome ≡ err (some invalid_factor))
        × ((f : Double)
            → evaluated ≡ ok (some f)
            → (is_finite f ≡ false) ⊎ (led f (of_int (pos 0)) ≡ true)
            → outcome ≡ err (some invalid_factor))
  unfolding root_outcome checked bad_factor
  root_outcome-cases (err e) = (
    λ f. ((λ g. absurd (cc)), (λ g. absurd (cc))),
    λ x. λ g. ground arith,
    λ g. absurd (cc),
    λ f. λ g. absurd (cc),
  )
  root_outcome-cases (ok none) = (
    λ f. ((λ g. absurd (cc)), (λ g. absurd (cc))),
    λ x. λ g. absurd (cc),
    λ g. refl,
    λ f. λ g. absurd (cc),
  )
  root_outcome-cases (ok (some d)) = (
    λ f. ((λ g. ground arith), (λ g. ground arith)),
    λ x. λ g. absurd (cc),
    λ g. absurd (cc),
    λ f. λ g. λ bad. ground arith,
  )

  -- The broadcasts of the runtime take the buffers of all ranks and give the buffer of a rank after the
  -- call.
  module _ (broadcast_doubles : (ℕ → FactorMessage) → ℕ → FactorMessage)
      (broadcast_string : (ℕ → Option FactorError) → ℕ → Option FactorError) where
    -- The outcome on rank r and its counters.
    unfoldable pub ensemble_velocity_factor :
        EnsembleKind
        → ℕ
        → (ℕ → Result EnsembleError (Option Double))
        → ℕ
        → FactorVolume
        → Result (Option FactorError) (Option Double) × FactorVolume
    ensemble_velocity_factor kind world evaluate r v =
        if not (uses_root_state kind) then (own_outcome (evaluate r), v) else (
          received (broadcast_doubles (local_message evaluate) r)
              (broadcast_string (local_error evaluate) r),
          count_broadcast world v,
        )

    ensemble_velocity_factor-checked :
        (kind : EnsembleKind) (world : ℕ) (evaluate : ℕ → Result EnsembleError (Option Double))
        (r : ℕ) (v : FactorVolume)
        → ((buffers : ℕ → FactorMessage) (k : ℕ) → broadcast_doubles buffers k ≡ buffers 0)
        → ((buffers : ℕ → Option FactorError) (k : ℕ) → broadcast_string buffers k ≡ buffers 0)
        → eqd (of_int (pos 1)) (of_int (pos 1)) ≡ true
        → eqd (of_int (pos 0)) (of_int (pos 1)) ≡ false
        → uses_root_state kind ≡ true
        → (ensemble_velocity_factor kind world evaluate r v).0 ≡ root_outcome (checked (evaluate 0))
    unfolding ensemble_velocity_factor local_message local_error
    ensemble_velocity_factor-checked kind world evaluate r v law law' a b h =
        let root = checked (evaluate 0) in
        let one : broadcast_doubles (local_message evaluate) r ≡ message_of root =
          law (local_message evaluate) r in
        let two : broadcast_string (local_error evaluate) r ≡ error_of root =
          law' (local_error evaluate) r in
        let shared =
          ap (λ m. received m (broadcast_string (local_error evaluate) r)) one
          ∙ ap (received (message_of root)) two
          ∙ received-root_outcome root a b in
        if_shared (uses_root_state kind) (own_outcome (evaluate r)) _ v (count_broadcast world v) h
        ∙ shared

    -- When a broadcast gives every rank the buffer of rank 0, and the numbers 0 and 1 compare as they
    -- do, the kinds with state on rank 0 end alike on every rank, whatever the other ranks would
    -- evaluate: with a factor exactly when rank 0 evaluates to it and it is finite and not at most 0,
    -- with the error of rank 0 if its evaluation throws, and with the error of an invalid factor if it
    -- gives none, or one that is not finite or is at most 0.
    pub ensemble_velocity_factor-root_outcome :
        (kind : EnsembleKind) (world : ℕ) (evaluate : ℕ → Result EnsembleError (Option Double))
        (r : ℕ) (v : FactorVolume)
        → ((buffers : ℕ → FactorMessage) (k : ℕ) → broadcast_doubles buffers k ≡ buffers 0)
        → ((buffers : ℕ → Option FactorError) (k : ℕ) → broadcast_string buffers k ≡ buffers 0)
        → eqd (of_int (pos 1)) (of_int (pos 1)) ≡ true
        → eqd (of_int (pos 0)) (of_int (pos 1)) ≡ false
        → uses_root_state kind ≡ true
        → let outcome = (ensemble_velocity_factor kind world evaluate r v).0 in
          ((f : Double)
            → (outcome ≡ ok (some f)) ↔ (
                (evaluate 0 ≡ ok (some f))
                × (is_finite f ≡ true)
                × (led f (of_int (pos 0)) ≡ false)))
          × ((e : EnsembleError) → evaluate 0 ≡ err e → outcome ≡ err (some (thrown e)))
          × (evaluate 0 ≡ ok none → outcome ≡ err (some invalid_factor))
          × ((f : Double)
              → evaluate 0 ≡ ok (some f)
              → (is_finite f ≡ false) ⊎ (led f (of_int (pos 0)) ≡ true)
              → outcome ≡ err (some invalid_factor))
    ensemble_velocity_factor-root_outcome kind world evaluate r v law law' a b h =
        let same = ensemble_velocity_factor-checked kind world evaluate r v law law' a b h in
        let (accepts, throws, misses, refuses) = root_outcome-cases (evaluate 0) in
        (
          λ f. ((λ e. (accepts f).0 (sym same ∙ e)), (λ g. same ∙ (accepts f).1 g)),
          λ e. λ g. same ∙ throws e g,
          λ g. same ∙ misses g,
          λ f. λ g. λ bad. same ∙ refuses f g bad,
        )
