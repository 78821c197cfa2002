-- ===== src/Partition/Ticket.antt =====
-- The ticket of a force evaluation, and its events.
use dmg_md.Base.{
  ℕ, Bool, true, false, not, ◌&&◌, ◌||◌, List, [], ◌∷◌, Result, ok, ◌>>=◌, ◌>>◌, throw_if, ◌==◌,
}
use dmg_md.Base.Floats.{Floats}
use dmg_md.Base.Int.{ℤ, eqb_ℤ}
use dmg_md.Partition.Modes.{DomainSchedule, split, producer, producer_compact, producer_geometry}

-- What a member of the ticket throws, by its message.
pub data TicketError : Type 0 where
  stale bad_generation bad_token duplicate_early invalid_late invalid_finalize : TicketError

unfoldable pub same_rule : DomainSchedule → DomainSchedule → Bool
same_rule split split = true
same_rule producer producer = true
same_rule producer_compact producer_compact = true
same_rule producer_geometry producer_geometry = true
same_rule _ _ = false

module _ (F : Floats) where
  pub record DomainPartitionKey : Type 0 where
    pub layout : ℕ
    pub neighbor : ℕ
    pub storage : ℕ
    pub owned : ℤ
    pub dependency : ℤ
    pub local : ℤ
    pub rule : DomainSchedule
    pub slab_axis : ℤ
    pub slab_lo : F.Double
    pub slab_hi : F.Double
    pub inset : F.Double
    pub box : List F.Double

  unfoldable pub same_doubles : List F.Double → List F.Double → Bool
  same_doubles [] [] = true
  same_doubles (a ∷ as') (b ∷ bs) = F.eqd a b && same_doubles as' bs
  same_doubles _ _ = false

  -- `operator==`
  unfoldable pub same_key : DomainPartitionKey → DomainPartitionKey → Bool
  same_key a b =
      a.layout == b.layout
      && a.neighbor == b.neighbor
      && a.storage == b.storage
      && eqb_ℤ a.owned b.owned
      && eqb_ℤ a.dependency b.dependency
      && eqb_ℤ a.local b.local
      && same_doubles a.box b.box
      && same_rule a.rule b.rule
      && eqb_ℤ a.slab_axis b.slab_axis
      && F.eqd a.slab_lo b.slab_lo
      && F.eqd a.slab_hi b.slab_hi
      && F.eqd a.inset b.inset

  pub record DomainForceTicket : Type 0 where
    pub step : ℕ
    pub call : ℤ
    pub early_done : Bool
    pub late_done : Bool
    pub key : DomainPartitionKey
    pub halo : ℕ
    pub ready : Bool
    pub finalized : Bool

  abbrev pub Outcome : Type 0
  Outcome = Result TicketError DomainForceTicket

  unfoldable pub check_ticket :
      DomainForceTicket → ℕ → DomainPartitionKey → Result TicketError (Unit {0})
  check_ticket t current_step current =
      throw_if (t.finalized || not (current_step == t.step) || not (same_key t.key current)) stale

  unfoldable pub posted : DomainForceTicket → ℕ → Outcome
  posted t generation = do
    throw_if (generation == 0 || not (t.halo == 0) || t.early_done || t.late_done || t.finalized)
        bad_generation
    ok (record t { halo = generation })

  unfoldable pub halo_ready : DomainForceTicket → ℕ → Outcome
  halo_ready t generation = do
    throw_if (t.halo == 0 || not (generation == t.halo) || t.ready || t.finalized) bad_token
    ok (record t { ready = true })

  unfoldable pub early : DomainForceTicket → Outcome
  early t = do
    throw_if (t.early_done || t.late_done || t.finalized) duplicate_early
    ok (record t { early_done = true })

  unfoldable pub late : DomainForceTicket → Outcome
  late t = do
    throw_if (not t.early_done || t.late_done || t.finalized || not (t.halo == 0) && not t.ready)
        invalid_late
    ok (record t { late_done = true })

  unfoldable pub finalize : DomainForceTicket → Outcome
  finalize t = do
    throw_if (not t.late_done || t.finalized) invalid_finalize
    ok (record t { finalized = true })

-- The calls that change a ticket.
pub data Event : Type 0 where
  halo_posted : ℕ → Event
  halo_arrived : ℕ → Event
  early_forces late_forces finished : Event

module _ (F : Floats) where
  unfoldable pub apply : DomainForceTicket F → Event → Outcome F
  apply t (halo_posted g) = posted F t g
  apply t (halo_arrived g) = halo_ready F t g
  apply t early_forces = early F t
  apply t late_forces = late F t
  apply t finished = finalize F t

  unfoldable pub apply_all : DomainForceTicket F → List Event → Outcome F
  apply_all t [] = ok t
  apply_all t (e ∷ es) = do next ← apply t e; apply_all next es
