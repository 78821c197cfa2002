-- ===== src/Tests/Forces.antt =====
-- A ticket and a partition at concrete inputs.
use dmg_md.Base.{ℕ, ◌≡◌, refl, true, false, List, [], ◌∷◌, ok, ◌↔◌, ◌⊎◌, flag, All}
use dmg_md.Base.Floats.{milli}
use dmg_md.Base.Int.{ℤ, pos, pos_part}
use dmg_md.Partition.Modes.{split}
use dmg_md.Partition.Ticket.{
  DomainPartitionKey, DomainForceTicket, Event, halo_posted, halo_arrived, early_forces,
  late_forces, finished, apply, apply_all, posted, halo_ready, early, late, finalize,
}
use dmg_md.Partition.Phases.{
  new_ticket, outcome_of, follow_all, before_early, idle, apply_all-follow_all,
}
use dmg_md.Partition.Orders.{ClosingCalls, apply_all-orders, apply_all-closes}
use dmg_md.Partition.Graph.{
  HostDomainPartition, partition_graph, check_rows, has_bad_neighbor, find_safe, settle,
  find_interior, closes, mark, row_of,
}
use dmg_md.Partition.Closed.{IsLocal, partition_graph-IsLocal, partition_graph-early}
use dmg_md.Partition.Slots.{has}

abbrev some_key : DomainPartitionKey milli
some_key = record {
  layout = 4;
  neighbor = 2;
  storage = 7;
  owned = pos 3;
  dependency = pos 3;
  local = pos 4;
  rule = split;
  slab_axis = pos 0;
  slab_lo = 0;
  slab_hi = 500;
  inset = 10;
  box = [];
}

abbrev calls : List Event
calls = halo_posted 6 ∷ early_forces ∷ halo_arrived 6 ∷ late_forces ∷ finished ∷ []

abbrev ended : DomainForceTicket milli
ended = record {
  step = 9;
  call = pos 1;
  early_done = true;
  late_done = true;
  key = some_key;
  halo = 6;
  ready = true;
  finalized = true;
}

runs_calls : apply_all milli (new_ticket milli 9 (pos 1) some_key) calls ≡ ok ended
unfolding apply_all apply posted halo_ready early late finalize
runs_calls = refl

apply_all-follow_all_example :
    apply_all milli (new_ticket milli 9 (pos 1) some_key) calls
    ≡ outcome_of milli 9 (pos 1) some_key (follow_all (before_early idle) calls)
apply_all-follow_all_example =
    apply_all-follow_all milli 9 (pos 1) some_key (before_early idle) calls

apply_all-orders_example : ClosingCalls (before_early idle) calls
apply_all-orders_example = apply_all-orders milli 9 (pos 1) some_key calls runs_calls refl

abbrev two_calls : List Event
two_calls = halo_posted 6 ∷ early_forces ∷ []

abbrev waiting : DomainForceTicket milli
waiting = record {
  step = 9;
  call = pos 1;
  early_done = true;
  late_done = false;
  key = some_key;
  halo = 6;
  ready = false;
  finalized = false;
}

runs_two : apply_all milli (new_ticket milli 9 (pos 1) some_key) two_calls ≡ ok waiting
unfolding apply_all apply posted halo_ready early late finalize
runs_two = refl

apply_all-closes_example :
    (rest : List Event) × (u : DomainForceTicket milli) × (apply_all milli waiting rest ≡ ok u)
    × (u.finalized ≡ true)
apply_all-closes_example = apply_all-closes milli 9 (pos 1) some_key two_calls runs_two

-- A chain of five owned atoms and a ghost, the last.
abbrev chain : List (List ℤ)
chain =
    (pos 1 ∷ [])
    ∷ (pos 0 ∷ pos 2 ∷ [])
    ∷ (pos 1 ∷ pos 3 ∷ [])
    ∷ (pos 2 ∷ pos 4 ∷ [])
    ∷ (pos 3 ∷ pos 5 ∷ [])
    ∷ []

abbrev chain_parts : HostDomainPartition
chain_parts = record {
  safe = 1 ∷ 1 ∷ 1 ∷ 1 ∷ 0 ∷ 0 ∷ [];
  interior = 1 ∷ 1 ∷ 1 ∷ 0 ∷ 0 ∷ 0 ∷ [];
  early = 1 ∷ 1 ∷ 1 ∷ 1 ∷ 0 ∷ 0 ∷ [];
}

parts_chain : partition_graph chain (pos 5) (pos 5) (pos 6) ≡ ok chain_parts
unfolding partition_graph check_rows has_bad_neighbor find_safe settle find_interior closes mark
parts_chain = refl

partition_graph-IsLocal_example :
    ((flag chain_parts.safe 3 ≡ 1) ↔ IsLocal chain 5 3)
    × ((flag chain_parts.interior 3 ≡ 1)
        ↔ (IsLocal chain 5 3 × All (λ j. IsLocal chain 5 (pos_part j)) (row_of chain 3)))
partition_graph-IsLocal_example =
    partition_graph-IsLocal chain (pos 5) (pos 5) (pos 6) 3 parts_chain

partition_graph-early_example :
    ((flag chain_parts.early 3 ≡ 1)
      ↔ ((c : ℕ) × (flag chain_parts.interior c ≡ 1) × ((c ≡ 3) ⊎ (has 3 (row_of chain c) ≡ true))))
    × (flag chain_parts.early 3 ≡ 1 → flag chain_parts.safe 3 ≡ 1)
partition_graph-early_example = partition_graph-early chain (pos 5) (pos 5) (pos 6) 3 parts_chain
