-- ===== src/Migration.antt =====
-- include/dmgmd/domain_layout.hpp, `MigrationPlan`: every owned atom goes to the rank whose slab
-- holds it, or stays. A slot is an `int` in the lists, and the counts are `int`s, which wrap around.
pub mod Room
pub mod Route
pub mod Checks
pub mod Valid
use dmg_md.Base.{
  ℕ, suc, ◌+◌, ◌%◌, ◌^◌, Bool, true, false, not, ◌||◌, ◌&&◌, List, [], ◌∷◌, ◌++◌, Result, ok, err,
  ◌>>=◌, ◌>>◌, throw_if, length, get_or, set, replicate, leb, ◌==◌, if◌then◌else◌, flag, sum,
}
use dmg_md.Base.Floats.{Floats}
use dmg_md.Base.Int.{ℤ, pos, negsuc, pos_part, ltb_ℤ, eqb_ℤ, ◌+ℤ◌}
use dmg_md.Base.Machine.{int_of_size, int_succ, size_of_int}
use dmg_md.Ownership.Slab.{SlabError, slab_owner_of_fractional}

pub data MigrationError : Type 0 where
  invalid_rank : MigrationError
  no_owner : SlabError → MigrationError
  not_world_sized count_disagrees routes_to_self not_ascending : MigrationError
  outside_owned routed_twice not_accounted : MigrationError

pub record MigrationPlan : Type 0 where
  pub send_counts : List ℤ
  pub recv_counts : List ℤ
  pub outgoing_slots : List (List ℤ)
  pub staying_count : ℤ

-- An atom of slot `slot` that belongs to `owner`.
unfoldable pub route : ℤ → ℤ → ℕ → MigrationPlan → MigrationPlan
route rank owner slot p =
    let d = pos_part owner in
    if eqb_ℤ owner rank then record p { staying_count = int_succ p.staying_count } else record p {
      send_counts = set p.send_counts d (int_succ (get_or p.send_counts d (pos 0)));
      outgoing_slots =
          set p.outgoing_slots d (get_or p.outgoing_slots d [] ++ int_of_size slot ∷ []);
    }

abbrev pub owner_or_error : Result SlabError ℤ → Result MigrationError ℤ
owner_or_error (ok owner) = ok owner
owner_or_error (err e) = err (no_owner e)

abbrev pub empty_plan : ℕ → MigrationPlan
empty_plan n = record {
  send_counts = replicate n (pos 0);
  recv_counts = replicate n (pos 0);
  outgoing_slots = replicate n [];
  staying_count = pos 0;
}

abbrev pub invalid_world : ℤ → ℤ → Bool
invalid_world rank world = ltb_ℤ world (pos 1) || ltb_ℤ rank (pos 0) || not (ltb_ℤ rank world)

module _ (F : Floats) where
  open F use {Double}

  unfoldable pub migration_owner : Double → ℤ → Result SlabError ℤ
  migration_owner fractional world = slab_owner_of_fractional F fractional world

  unfoldable pub route_all :
      ℤ → ℤ → List Double → ℕ → MigrationPlan → Result MigrationError MigrationPlan
  route_all rank world [] slot p = ok p
  route_all rank world (f ∷ fs) slot p = do
    owner ← owner_or_error (migration_owner f world)
    route_all rank world fs (suc slot) (route rank owner slot p)

  unfoldable pub plan_migration : List Double → ℤ → ℤ → Result MigrationError MigrationPlan
  plan_migration fs rank world = do
    throw_if (invalid_world rank world) invalid_rank
    route_all rank world fs 0 (empty_plan (pos_part world))

-- The inner loop of the validation, over one destination's slots.
pub check_slots : ℕ → ℤ → List ℤ → List ℕ → Result MigrationError (List ℕ)
check_slots owned previous [] seen = ok seen
check_slots owned previous (slot ∷ slots) seen = do
  throw_if (not (ltb_ℤ previous slot)) not_ascending
  throw_if (ltb_ℤ slot (pos 0) || leb owned (size_of_int slot)) outside_owned
  throw_if (not (flag seen (pos_part slot) == 0)) routed_twice
  check_slots owned slot slots (set seen (pos_part slot) 1)

pub is_empty : List ℤ → Bool
is_empty [] = true
is_empty (x ∷ xs) = false

-- The outer loop; it returns the number of slots that it saw.
pub check_destinations : ℕ → ℤ → ℕ → List ℤ → List (List ℤ) → List ℕ → ℕ → Result MigrationError ℕ
check_destinations owned rank d (c ∷ cs) (out ∷ outs) seen total_out = do
  throw_if (not (size_of_int c == length out)) count_disagrees
  throw_if (eqb_ℤ (pos d) rank && not (is_empty out)) routes_to_self
  seen' ← check_slots owned (negsuc 0) out seen
  check_destinations owned rank (suc d) cs outs seen' (total_out + length out)
check_destinations owned rank d _ _ seen total_out = ok total_out

pub validate_migration_plan : MigrationPlan → ℕ → ℤ → ℤ → Result MigrationError (Unit {0})
validate_migration_plan plan owned rank world = do
  throw_if
      (not (length plan.send_counts == size_of_int world)
        || not (length plan.outgoing_slots == size_of_int world))
      not_world_sized
  total_out ←
      check_destinations owned rank 0 plan.send_counts plan.outgoing_slots (replicate owned 0) 0
  throw_if (not ((total_out + size_of_int plan.staying_count) % 2 ^ 64 == owned)) not_accounted
  ok tt
