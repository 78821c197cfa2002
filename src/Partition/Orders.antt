-- ===== src/Partition/Orders.antt =====
-- The orders of calls that a ticket accepts.
use dmg_md.Base.{
  ℕ, zero, suc, ◌≡◌, refl, sym, ap, ◌∙◌, subst, Bool, true, false, List, [], ◌∷◌, ok, err,
  if◌then◌else◌, arith, inl, inr, ◌⊎◌, >>=-eq-ok, ok-injective,
}
use dmg_md.Base.Floats.{Floats}
use dmg_md.Base.Int.{ℤ}
use dmg_md.Partition.Ticket.{
  stale, DomainPartitionKey, DomainForceTicket, check_ticket, Event, halo_posted, halo_arrived,
  early_forces, late_forces, finished, apply_all,
}
use dmg_md.Partition.Phases.{
  idle, coming, arrived, Settled, local_only, with_ghosts, Phase, before_early, after_early,
  after_late, closed, arrive, enter, follow, follow_all, ticket_of, new_ticket, outcome_of,
  apply_all-follow_all, reached,
}

-- The calls that are left in a phase, when the ticket is finalized at their end.
abbrev pub ClosingCalls : Phase → List Event → Type 0
ClosingCalls (closed s) es = es ≡ []
ClosingCalls (after_late s) es = es ≡ finished ∷ []
ClosingCalls (after_early (coming g)) es = es ≡ halo_arrived (suc g) ∷ late_forces ∷ finished ∷ []
ClosingCalls (after_early _) es = es ≡ late_forces ∷ finished ∷ []
ClosingCalls (before_early (coming g)) es =
    (es ≡ halo_arrived (suc g) ∷ early_forces ∷ late_forces ∷ finished ∷ [])
    ⊎ (es ≡ early_forces ∷ halo_arrived (suc g) ∷ late_forces ∷ finished ∷ [])
ClosingCalls (before_early (arrived g)) es = es ≡ early_forces ∷ late_forces ∷ finished ∷ []
ClosingCalls (before_early idle) es =
    (es ≡ early_forces ∷ late_forces ∷ finished ∷ [])
    ⊎ ((g : ℕ) × (rest : List Event) × (es ≡ halo_posted (suc g) ∷ rest)
        × ((rest ≡ halo_arrived (suc g) ∷ early_forces ∷ late_forces ∷ finished ∷ [])
            ⊎ (rest ≡ early_forces ∷ halo_arrived (suc g) ∷ late_forces ∷ finished ∷ [])))

abbrev is_closed : Phase → Bool
is_closed (closed s) = true
is_closed _ = false

ClosingCalls-follow :
    (p : Phase) (e : Event) (es : List Event) {q : Phase}
    → follow p e ≡ ok q
    → ClosingCalls q es
    → ClosingCalls p (e ∷ es)
unfolding follow arrive enter
ClosingCalls-follow (closed local_only) e es same c = ground arith
ClosingCalls-follow (closed (with_ghosts g)) e es same c = ground arith
ClosingCalls-follow (after_late local_only) e es same c = ground arith
ClosingCalls-follow (after_late (with_ghosts g)) e es same c = ground arith
ClosingCalls-follow (after_early idle) e es same c = ground arith
ClosingCalls-follow (after_early (arrived g)) e es same c = ground arith
ClosingCalls-follow (after_early (coming g)) e es same c = ground arith
ClosingCalls-follow (before_early (arrived g)) e es same c = ground arith
ClosingCalls-follow (before_early (coming g)) e es same c = ground arith
ClosingCalls-follow (before_early idle) (halo_posted zero) es same c = absurd (cc)
ClosingCalls-follow (before_early idle) (halo_posted (suc g)) es same c =
    let later = subst (λ q. ClosingCalls q es) (sym (ok-injective same)) c in
    inr (g, es, refl, later)
ClosingCalls-follow (before_early idle) early_forces es same c =
    let later = subst (λ q. ClosingCalls q es) (sym (ok-injective same)) c in
    inl (ap (λ rest. early_forces ∷ rest) later)
ClosingCalls-follow (before_early idle) (halo_arrived g) es same c = absurd (cc)
ClosingCalls-follow (before_early idle) late_forces es same c = absurd (cc)
ClosingCalls-follow (before_early idle) finished es same c = absurd (cc)

nothing_left : (p : Phase) → is_closed p ≡ true → ClosingCalls p []
nothing_left (closed s) h = refl
nothing_left (after_late s) h = absurd (cc)
nothing_left (after_early h) e = absurd (cc)
nothing_left (before_early h) e = absurd (cc)

follow_all-ClosingCalls :
    (p : Phase) (es : List Event) {q : Phase}
    → follow_all p es ≡ ok q
    → is_closed q ≡ true
    → ClosingCalls p es
unfolding follow_all
follow_all-ClosingCalls p [] e c =
    let now : is_closed p ≡ true = ap is_closed (ok-injective e) ∙ c in nothing_left p now
follow_all-ClosingCalls p (e ∷ es) h c =
    let (next, one, more) = >>=-eq-ok (follow p e) _ h in
    ClosingCalls-follow p e es one (follow_all-ClosingCalls next es more c)

-- Calls that close the ticket from a phase.
closing : Phase → List Event
closing (before_early idle) = early_forces ∷ late_forces ∷ finished ∷ []
closing (before_early (coming g)) =
    halo_arrived (suc g) ∷ early_forces ∷ late_forces ∷ finished ∷ []
closing (before_early (arrived g)) = early_forces ∷ late_forces ∷ finished ∷ []
closing (after_early (coming g)) = halo_arrived (suc g) ∷ late_forces ∷ finished ∷ []
closing (after_early idle) = late_forces ∷ finished ∷ []
closing (after_early (arrived g)) = late_forces ∷ finished ∷ []
closing (after_late s) = finished ∷ []
closing (closed s) = []

follow_all-closing : (p : Phase) → (s : Settled) × (follow_all p (closing p) ≡ ok (closed s))
unfolding follow_all follow closing arrive enter
follow_all-closing (before_early idle) = (local_only, refl)
follow_all-closing (before_early (coming g)) = (with_ghosts g, ground arith)
follow_all-closing (before_early (arrived g)) = (with_ghosts g, refl)
follow_all-closing (after_early (coming g)) = (with_ghosts g, ground arith)
follow_all-closing (after_early idle) = (local_only, refl)
follow_all-closing (after_early (arrived g)) = (with_ghosts g, refl)
follow_all-closing (after_late s) = (s, refl)
follow_all-closing (closed s) = (s, refl)

module _ (F : Floats) where
  finalized-is_closed :
      (step : ℕ) (call : ℤ) (key : DomainPartitionKey F) (p : Phase)
      → (ticket_of F step call key p).finalized ≡ is_closed p
  finalized-is_closed step call key (before_early h) = refl
  finalized-is_closed step call key (after_early h) = refl
  finalized-is_closed step call key (after_late s) = refl
  finalized-is_closed step call key (closed s) = refl

  -- The orders of the calls that take a new ticket to its end are these: early, late and finalize, with
  -- no ghosts asked for; or ghosts posted first, with a generation above 0, and then early and late with
  -- the arrival of that generation before the late forces, on either side of the early ones.
  pub apply_all-orders :
      (step : ℕ) (call : ℤ) (key : DomainPartitionKey F) (es : List Event) {t : DomainForceTicket F}
      → apply_all F (new_ticket F step call key) es ≡ ok t
      → t.finalized ≡ true
      → ClosingCalls (before_early idle) es
  apply_all-orders step call key es {t} h f =
      let same = sym (apply_all-follow_all F step call key (before_early idle) es) ∙ h in
      let (p, is, at) = reached F step call key (follow_all (before_early idle) es) same in
      follow_all-ClosingCalls (before_early idle) es is (
        sym (finalized-is_closed step call key p)
        ∙ ap (λ (t : DomainForceTicket F). t.finalized) at
        ∙ f)

  -- A ticket that calls reached from a new one is never stuck: further calls are accepted up to its end.
  pub apply_all-closes :
      (step : ℕ) (call : ℤ) (key : DomainPartitionKey F) (es : List Event) {t : DomainForceTicket F}
      → apply_all F (new_ticket F step call key) es ≡ ok t
      → (rest : List Event) × (u : DomainForceTicket F) × (apply_all F t rest ≡ ok u)
        × (u.finalized ≡ true)
  apply_all-closes step call key es {t} h =
      let same = sym (apply_all-follow_all F step call key (before_early idle) es) ∙ h in
      let (p, is, at) = reached F step call key (follow_all (before_early idle) es) same in
      let (s, closes) = follow_all-closing p in
      let go =
        apply_all-follow_all F step call key p (closing p)
        ∙ ap (outcome_of F step call key) closes in
      subst
        (λ t.
          (rest : List Event) × (u : DomainForceTicket F) × (apply_all F t rest ≡ ok u)
          × (u.finalized ≡ true))
        at (closing p, ticket_of F step call key (closed s), go, refl)

  check_ticket-phase :
      (step : ℕ) (call : ℤ) (key : DomainPartitionKey F) (p : Phase) (current_step : ℕ)
      (current : DomainPartitionKey F)
      → check_ticket F (ticket_of F step call key p) current_step current ≡ (
          if is_closed p
          then err stale
          else check_ticket F (new_ticket F step call key) current_step current)
  unfolding check_ticket
  check_ticket-phase step call key (before_early h) s k = refl
  check_ticket-phase step call key (after_early h) s k = refl
  check_ticket-phase step call key (after_late h) s k = refl
  check_ticket-phase step call key (closed h) s k = refl

  -- No call changes the step and the key that a ticket is for: `validate` of a ticket that calls reached
  -- throws if the ticket is finalized, and else accepts the steps and keys that the new ticket accepts.
  pub check_ticket-frozen :
      (step : ℕ) (call : ℤ) (key : DomainPartitionKey F) (es : List Event) {t : DomainForceTicket F}
      (current_step : ℕ) (current : DomainPartitionKey F)
      → apply_all F (new_ticket F step call key) es ≡ ok t
      → check_ticket F t current_step current ≡ (
          if t.finalized
          then err stale
          else check_ticket F (new_ticket F step call key) current_step current)
  check_ticket-frozen step call key es s k h =
      let same = sym (apply_all-follow_all F step call key (before_early idle) es) ∙ h in
      let (p, is, at) = reached F step call key (follow_all (before_early idle) es) same in
      subst
        (λ t.
          check_ticket F t s k
          ≡ (if t.finalized then err stale else check_ticket F (new_ticket F step call key) s k))
        at
        (check_ticket-phase step call key p s k
          ∙ ap (λ b. if b then err stale else check_ticket F (new_ticket F step call key) s k)
              (sym (finalized-is_closed step call key p)))
