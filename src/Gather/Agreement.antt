-- ===== src/Gather/Agreement.antt =====
-- src/mpi_runtime.cu, `assert_same_ownership_map`: the ranks agree on the ownership map.
use dmg_md.Base.{
  ℕ, ◌+◌, ◌-◌, ◌*◌, ◌%◌, ◌^◌, ◌<◌, ◌≤◌, ◌==◌, Bool, true, false, not, ◌||◌, Result, ok, err, ◌≡◌,
  refl, ◌↔◌, arith, if◌then◌else◌, if_holds, Bool-cases, inl, inr, ap, sym, ◌∙◌,
}
use dmg_md.Ownership.{SpatialOwnership}
use dmg_md.Ownership.Hash.{map_hash, map_hash_bound}

pub data MapError : Type 0 where
  map_disagrees : MapError

-- The counters that the call changes, of 64 bits each.
pub record MapVolume : Type 0 where
  pub map_calls : ℕ
  pub map_input_bytes : ℕ
  pub map_output_bytes : ℕ

unfoldable pub count_map : ℕ → MapVolume → MapVolume
count_map world v = record {
  map_calls = (v.map_calls + 1) % 2 ^ 64;
  map_input_bytes = (v.map_input_bytes + 16 * world) % 2 ^ 64;
  map_output_bytes = (v.map_output_bytes + 16 * world) % 2 ^ 64;
}

-- What a rank brings: its hash, or all ones where its map is not valid.
unfoldable pub map_value : Bool → ℕ → ℕ
map_value valid hash = if valid then hash else 2 ^ 64 - 1

-- `~value` of 64 bits.
unfoldable pub complement : ℕ → ℕ
complement value = 2 ^ 64 - 1 - value

unfoldable pub agreed : Bool → ℕ → ℕ → Result MapError (Unit {0})
agreed valid maximum maximum_complement =
    if not valid || not (maximum == complement maximum_complement) then err map_disagrees else ok tt

agreed-eq-ok :
    (valid : Bool) (m n : ℕ) → (agreed valid m n ≡ ok tt) ↔ ((valid ≡ true) × (m ≡ complement n))
unfolding agreed
agreed-eq-ok true m n = elim (Bool-cases (m == complement n)) [
  | inl same ↦ (λ h. (refl, ground arith), λ h. ground arith)
  | inr other ↦ (λ h. ground arith, λ h. ground arith)
]
agreed-eq-ok false m n = (λ h. absurd (cc), λ h. absurd (cc))

map_value_bound : (valid : Bool) (hash : ℕ) → hash < 2 ^ 63 → map_value valid hash < 2 ^ 64
unfolding map_value
map_value_bound true hash h = omega arith
map_value_bound false hash h = omega arith

read_value :
    (valid valid' : Bool) (hash hash' : ℕ)
    → hash < 2 ^ 63
    → hash' < 2 ^ 63
    → valid' ≡ true
    → map_value valid hash ≡ map_value valid' hash'
    → (valid ≡ true) × (hash ≡ hash')
unfolding map_value
read_value true true hash hash' h h' good same = (refl, same)
read_value false true hash hash' h h' good same = absurd (omega arith)
read_value valid false hash hash' h h' good same = absurd (cc)

written :
    (valid : Bool) (hash common : ℕ)
    → (valid ≡ true) × (hash ≡ common)
    → map_value valid hash ≡ common
unfolding map_value
written true hash common (good, same) = same
written false hash common (good, same) = absurd (cc)

twice : (hash : ℕ) → hash < 2 ^ 63 → hash ≡ complement (complement hash)
unfolding complement
twice hash h = omega arith

-- The reduction of the maximum takes what the ranks bring.
module _ (allreduce_max : (ℕ → ℕ) → ℕ) where
  -- The outcome on rank r and its counters, from the validity and the hash on each rank.
  unfoldable pub assert_same_ownership_map :
      ℕ → (ℕ → Bool) → (ℕ → ℕ) → ℕ → MapVolume → Result MapError (Unit {0}) × MapVolume
  assert_same_ownership_map world valid hash r v = if world == 1 then (ok tt, v) else (
    agreed (valid r) (allreduce_max (λ k. map_value (valid k) (hash k)))
        (allreduce_max (λ k. complement (map_value (valid k) (hash k)))),
    count_map world v,
  )

  same_values :
      (world : ℕ) (values : ℕ → ℕ)
      → ((f : ℕ → ℕ) (k : ℕ) → k < world → f k ≤ allreduce_max f)
      → allreduce_max values ≡ complement (allreduce_max (λ k. complement (values k)))
      → (k r : ℕ) → k < world
      → r < world
      → values k < 2 ^ 64
      → values r < 2 ^ 64
      → values k ≡ values r
  unfolding complement
  same_values world values above same k r hk hr small small' =
      let a = above values k hk in
      let b = above values r hr in
      let c = above (λ j. complement (values j)) k hk in
      let e = above (λ j. complement (values j)) r hr in omega arith

  outcome_is :
      (world : ℕ) (valid : ℕ → Bool) (hash : ℕ → ℕ) (r : ℕ) (v : MapVolume)
      → 1 < world
      → (assert_same_ownership_map world valid hash r v).0
        ≡ agreed
            (valid r)
            (allreduce_max (λ k. map_value (valid k) (hash k)))
            (allreduce_max (λ k. complement (map_value (valid k) (hash k))))
  unfolding assert_same_ownership_map
  outcome_is world valid hash r v many =
      let wanted =
        agreed (valid r) (allreduce_max (λ k. map_value (valid k) (hash k)))
          (allreduce_max (λ k. complement (map_value (valid k) (hash k)))) in
      if_holds {A = Result MapError (Unit {0}) × MapVolume} (λ p. p.0 ≡ wanted) (world == 1) _ _
        (λ one. absurd (ground arith)) (λ several. refl)

  -- When the reduction gives the largest of what the ranks bring, then on several ranks the call returns
  -- on a rank exactly if the maps of all ranks are valid and have the hash that the rank's map has.
  pub assert_same_ownership_map-agrees :
      (world : ℕ) (valid : ℕ → Bool) (maps : ℕ → SpatialOwnership) (r : ℕ) (v : MapVolume)
      → ((f : ℕ → ℕ) (k : ℕ) → k < world → f k ≤ allreduce_max f)
      → ((f : ℕ → ℕ) → (k : ℕ) × (k < world) × (allreduce_max f ≡ f k))
      → 1 < world
      → r < world
      → ((assert_same_ownership_map world valid (λ k. map_hash (maps k)) r v).0 ≡ ok tt)
        ↔ ((k : ℕ) → k < world → (valid k ≡ true) × (map_hash (maps k) ≡ map_hash (maps r)))
  assert_same_ownership_map-agrees world valid maps r v above attained many hr =
      let hash : ℕ → ℕ = λ k. map_hash (maps k) in
      let values : ℕ → ℕ = λ k. map_value (valid k) (hash k) in
      let is = outcome_is world valid hash r v many in
      let test =
        agreed-eq-ok (valid r) (allreduce_max values)
          (allreduce_max (λ k. complement (values k))) in
      (
        λ h. λ k. λ hk.
            let (good, same) = test.0 (sym is ∙ h) in
            read_value (valid k) (valid r) (hash k) (hash r) (map_hash_bound (maps k))
              (map_hash_bound (maps r)) good
              (same_values world values above same k r hk hr
                (map_value_bound (valid k) (hash k) (map_hash_bound (maps k)))
                (map_value_bound (valid r) (hash r) (map_hash_bound (maps r)))),
        λ all.
            let (k, hk, top) = attained values in
            let (j, hj, bottom) = attained (λ i. complement (values i)) in
            let one = written (valid k) (hash k) (hash r) (all k hk) in
            let other = written (valid j) (hash j) (hash r) (all j hj) in
            is
            ∙ test.1 (
              (all r hr).0,
              top
                  ∙ one
                  ∙ twice (hash r) (map_hash_bound (maps r))
                  ∙ sym (ap complement (bottom ∙ ap complement other)),
            ),
      )
