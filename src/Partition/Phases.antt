-- ===== src/Partition/Phases.antt =====
-- The protocol that the flags of a ticket encode, as a machine of its own, and the ticket against it.
use dmg_md.Base.{
  ℕ, suc, ◌≡◌, refl, ap, ◌∙◌, Bool, true, false, List, [], ◌∷◌, Result, ok, err, ◌>>=◌, ◌==◌,
  if◌then◌else◌, arith, ok-injective,
}
use dmg_md.Base.Floats.{Floats}
use dmg_md.Base.Int.{ℤ}
use dmg_md.Partition.Ticket.{
  TicketError, bad_generation, bad_token, duplicate_early, invalid_late, invalid_finalize,
  DomainPartitionKey, DomainForceTicket, Outcome, posted, halo_ready, early, late, finalize, Event,
  halo_posted, halo_arrived, early_forces, late_forces, finished, apply, apply_all,
}

-- How far the ghosts are: not asked for, on the way with generation g + 1, or there.
pub data Halo : Type 0 where
  idle : Halo
  coming : ℕ → Halo
  arrived : ℕ → Halo

-- What the late forces found: no ghosts were asked for, or they were there.
pub data Settled : Type 0 where
  local_only : Settled
  with_ghosts : ℕ → Settled

-- How far the forces are. The late forces wait for ghosts that are on the way.
pub data Phase : Type 0 where
  before_early : Halo → Phase
  after_early : Halo → Phase
  after_late : Settled → Phase
  closed : Settled → Phase

unfoldable pub arrive : Halo → ℕ → Result TicketError Halo
arrive (coming h) g = if g == suc h then ok (arrived h) else err bad_token
arrive _ g = err bad_token

unfoldable pub enter : (Halo → Phase) → Result TicketError Halo → Result TicketError Phase
enter phase (ok h) = ok (phase h)
enter phase (err e) = err e

-- The protocol.
unfoldable pub follow : Phase → Event → Result TicketError Phase
unfolding arrive enter
follow (before_early idle) (halo_posted (suc g)) = ok (before_early (coming g))
follow _ (halo_posted g) = err bad_generation
follow (before_early h) (halo_arrived g) = enter before_early (arrive h g)
follow (after_early h) (halo_arrived g) = enter after_early (arrive h g)
follow _ (halo_arrived g) = err bad_token
follow (before_early h) early_forces = ok (after_early h)
follow _ early_forces = err duplicate_early
follow (after_early (coming h)) late_forces = err invalid_late
follow (after_early idle) late_forces = ok (after_late local_only)
follow (after_early (arrived g)) late_forces = ok (after_late (with_ghosts g))
follow _ late_forces = err invalid_late
follow (after_late h) finished = ok (closed h)
follow _ finished = err invalid_finalize

unfoldable pub follow_all : Phase → List Event → Result TicketError Phase
follow_all p [] = ok p
follow_all p (e ∷ es) = do next ← follow p e; follow_all next es

abbrev pub generation : Halo → ℕ
generation idle = 0
generation (coming g) = suc g
generation (arrived g) = suc g

abbrev pub has_arrived : Halo → Bool
has_arrived (arrived g) = true
has_arrived _ = false

abbrev pub halo_of : Settled → Halo
halo_of local_only = idle
halo_of (with_ghosts g) = arrived g

module _ (F : Floats) where
  abbrev pub flags : ℕ → ℤ → DomainPartitionKey F → Halo → Bool → Bool → Bool → DomainForceTicket F
  flags step call key h early_done late_done finalized = record {
    step = step;
    call = call;
    early_done = early_done;
    late_done = late_done;
    key = key;
    halo = generation h;
    ready = has_arrived h;
    finalized = finalized;
  }

  -- The ticket of a phase.
  abbrev pub ticket_of : ℕ → ℤ → DomainPartitionKey F → Phase → DomainForceTicket F
  ticket_of step call key (before_early h) = flags step call key h false false false
  ticket_of step call key (after_early h) = flags step call key h true false false
  ticket_of step call key (after_late s) = flags step call key (halo_of s) true true false
  ticket_of step call key (closed s) = flags step call key (halo_of s) true true true

  -- As the source makes one.
  abbrev pub new_ticket : ℕ → ℤ → DomainPartitionKey F → DomainForceTicket F
  new_ticket step call key = ticket_of step call key (before_early idle)

  abbrev pub outcome_of : ℕ → ℤ → DomainPartitionKey F → Result TicketError Phase → Outcome F
  outcome_of step call key (ok p) = ok (ticket_of step call key p)
  outcome_of step call key (err e) = err e

  apply-follow :
      (step : ℕ) (call : ℤ) (key : DomainPartitionKey F) (p : Phase) (e : Event)
      → apply F (ticket_of step call key p) e ≡ outcome_of step call key (follow p e)
  unfolding apply posted halo_ready early late finalize follow arrive enter
  apply-follow step call key p e = ground arith

  bind-outcome_of :
      (step : ℕ) (call : ℤ) (key : DomainPartitionKey F) (r : Result TicketError Phase)
      (es : List Event)
      → ((p : Phase)
          → apply_all F (ticket_of step call key p) es ≡ outcome_of step call key (follow_all p es))
      → (outcome_of step call key r >>= λ t. apply_all F t es)
        ≡ outcome_of step call key (r >>= λ p. follow_all p es)
  bind-outcome_of step call key (ok p) es h = h p
  bind-outcome_of step call key (err e) es h = refl

  -- For every list of calls, a ticket in the state of a phase gives the outcome that the protocol gives
  -- from that phase: the same exception, or the ticket of the phase that the protocol ends in.
  pub apply_all-follow_all :
      (step : ℕ) (call : ℤ) (key : DomainPartitionKey F) (p : Phase) (es : List Event)
      → apply_all F (ticket_of step call key p) es ≡ outcome_of step call key (follow_all p es)
  unfolding apply_all follow_all
  apply_all-follow_all step call key p [] = refl
  apply_all-follow_all step call key p (e ∷ es) =
      ap (λ (r : Outcome F). r >>= λ t. apply_all F t es) (apply-follow step call key p e)
      ∙ bind-outcome_of step call key (follow p e) es (λ q. apply_all-follow_all step call key q es)

  -- What the calls reached, as a phase.
  pub reached :
      (step : ℕ) (call : ℤ) (key : DomainPartitionKey F) (r : Result TicketError Phase)
      {t : DomainForceTicket F}
      → outcome_of step call key r ≡ ok t
      → (p : Phase) × (r ≡ ok p) × (ticket_of step call key p ≡ t)
  reached step call key (ok p) e = (p, refl, ok-injective e)
  reached step call key (err x) e = absurd (cc)
