-- ===== src/Ownership/Permutation.antt =====
-- `slot_of_global_id` against `global_id`.
use dmg_md.Base.{
  ℕ, ◌<◌, ◌≡◌, ◌∙◌, ap, List, ok, arith, length, length-replicate, some, get_elem?, get_elem?-flag,
  flag, position, count, count_full, pigeonhole_ge, total-count-le, count_of_get_elem?,
  flag_of_get_elem?, AllBelow-get_elem?, AllBelow-of_get_elem?, AllBelow, get_elem?-lt,
}
use dmg_md.Base.Int.{ℤ}
use dmg_md.Ownership.{SpatialOwnership, assemble, construct}
use dmg_md.Ownership.Derived.{Built, construct-Built}

-- The two arrays are inverse to one another.
pub record IsInverse (ids slots : List ℕ) : Type 0 where
  pub id_at_slot : (id : ℕ) → id < length ids → get_elem? ids (flag slots id) ≡ some id
  pub slot_at_id : (slot id : ℕ) → get_elem? ids slot ≡ some id → get_elem? slots id ≡ some slot

module _ {owners : List ℤ} {ids : List ℕ} {rank world : ℤ} {o : SpatialOwnership}
    (b : Built owners ids rank world o) where
  pub once : (id : ℕ) → id < length ids → count id ids ≡ 1
  once id lt =
      count_full (length owners) ids b.valid.ids_below b.valid.sized b.valid.ids_once id
        (omega (arith, b.valid.sized))

  pub slots_len : length b.id_scan.slot_of ≡ length ids
  slots_len =
      omega
        (arith, b.placed.slot_len, length-replicate {0} {A = ℕ} (length owners) 0, b.valid.sized)

  id_lt : (slot id : ℕ) → get_elem? ids slot ≡ some id → id < length ids
  id_lt slot id e =
      omega
        (arith, AllBelow-get_elem? (length owners) ids slot id b.valid.ids_below e, b.valid.sized)

  pub Built-IsInverse : IsInverse ids b.id_scan.slot_of
  Built-IsInverse = record {
    id_at_slot = λ id lt.
        let (k, at, _) = position id ids (omega (arith, once id lt)) in
        rw (b.placed.placed k k id (omega arith) at) at;
    slot_at_id = λ slot id e.
        get_elem?-flag b.id_scan.slot_of id (omega (arith, slots_len, id_lt slot id e))
        ∙ ap some (b.placed.placed slot slot id (omega arith) e);
  }

  pub slots_below : AllBelow (length ids) b.id_scan.slot_of
  slots_below = AllBelow-of_get_elem? (length ids) b.id_scan.slot_of λ k a e.
      let lt = get_elem?-lt b.id_scan.slot_of k a e in
      let same : flag b.id_scan.slot_of k ≡ a = flag_of_get_elem? b.id_scan.slot_of k a e in
      let at = Built-IsInverse.id_at_slot k (omega (arith, slots_len)) in
      let bound = get_elem?-lt ids (flag b.id_scan.slot_of k) k at in omega arith

  -- Each slot is listed once.
  pub slot_once : (slot : ℕ) → slot < length ids → count slot b.id_scan.slot_of ≡ 1
  slot_once slot lt =
      pigeonhole_ge (λ k. count k b.id_scan.slot_of) (length ids)
        (λ k l.
          count_of_get_elem? b.id_scan.slot_of (flag ids k) k
            (Built-IsInverse.slot_at_id k (flag ids k) (get_elem?-flag ids k l)))
        (omega (arith, total-count-le (length ids) b.id_scan.slot_of, slots_len)) slot lt

-- After a successful construction, slot `slot_of_global_id[k]` carries the global id `k`, and
-- `slot_of_global_id` maps the id of slot `k` back to `k`.
pub construct-inverse :
    (owners : List ℤ) (ids : List ℕ) (rank world : ℤ) {o : SpatialOwnership}
    → construct owners ids rank world ≡ ok o
    → (k : ℕ) → k < length owners
    → (get_elem? ids (flag o.slot_of_global_id k) ≡ some k)
      × (get_elem? o.slot_of_global_id (flag ids k) ≡ some k)
unfolding assemble
construct-inverse owners ids rank world e k lt =
    let b = construct-Built owners ids rank world e in
    let lt' : k < length ids = omega (arith, b.valid.sized) in
    rw b.result (
      (Built-IsInverse b).id_at_slot k lt',
      (Built-IsInverse b).slot_at_id k (flag ids k) (get_elem?-flag ids k lt'),
    )
