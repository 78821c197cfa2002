-- ===== src/Migration/Valid.antt =====
-- The validation accepts every plan that the routing makes.
use dmg_md.Migration.Room.{empty-HasRoom}
use dmg_md.Base.{
  ℕ, suc, ◌+◌, ◌^◌, ◌<◌, ◌≡◌, ap, ◌∙◌, List, [], ◌∷◌, ok, arith, length, get_or, count, total,
  total_cong, replicate, throw_if-eq-ok, read-replicate, get_or-replicate, length-replicate,
}
use dmg_md.Base.Floats.{Floats}
use dmg_md.Base.Int.{ℤ, pos, ◌+ℤ◌}
use dmg_md.Base.Machine.{size_of_int}
use dmg_md.Migration.{
  MigrationPlan, empty_plan, plan_migration, validate_migration_plan, route_all, invalid_world,
  invalid_rank,
}
use dmg_md.Migration.Route.{Routed, route_all-Routed, length-Owners, Owners, plan_migration-Planned}
use dmg_md.Migration.Checks.{
  Fresh, sent_to, sent_count, leaving, length-sent_to, check_destinations-routed, leaving_all,
}

module _ (r n : ℕ) (owned : ℕ) (os : List ℕ) (q : MigrationPlan) (small : owned < 2 ^ 31)
    (l : length os ≡ owned) (lt : r < n) (g : Routed r n os 0 (empty_plan n) q) where
  sends_at :
      (i j : ℕ)
      → j ≡ 0 + i
      → i < length q.outgoing_slots
      → get_or q.send_counts i (pos 0) ≡ pos (sent_count r os j)
  unfolding ◌+ℤ◌
  sends_at i j e below =
      let same : i ≡ j = omega arith in
      ground (arith, same, g.sends j, g.sends_self, read-replicate n (pos 0) j)

  outs_at :
      (i j : ℕ)
      → j ≡ 0 + i
      → i < length q.outgoing_slots
      → get_or q.outgoing_slots i [] ≡ sent_to r j os
  outs_at i j e below =
      let same : i ≡ j = omega arith in
      ground (arith, same, g.outs j, g.outs_self, read-replicate {0} {A = List ℤ} n [] j)

  unflagged : (e slot : ℕ) (xs : List ℕ) → Fresh e slot xs (replicate owned 0)
  unflagged e slot [] = tt
  unflagged e slot (x ∷ xs) = (λ _. get_or-replicate owned slot, unflagged e (suc slot) xs)

  checked_total : ℕ
  checked_total = leaving r os 0 (length q.outgoing_slots)

  check_plan : validate_migration_plan q owned (pos r) (pos n) ≡ ok tt
  unfolding validate_migration_plan size_of_int checked_total ◌+ℤ◌
  check_plan =
      let outs = g.outs_len ∙ length-replicate n [] in
      ground (
        arith,
        g.sends_len,
        outs,
        length-replicate n (pos 0),
        g.stays,
        leaving_all r n os g.below lt,
        check_destinations-routed owned r os q.send_counts q.outgoing_slots 0 0 (replicate owned 0)
            small l (length-replicate owned 0)
            (omega (arith, g.sends_len, length-replicate {0} {A = ℤ} n (pos 0), outs)) sends_at
            outs_at (λ e _. unflagged e 0 os),
      )

-- Whatever the fractions, a plan that `plan_migration` returns passes `validate_migration_plan`, on
-- fewer than 2^31 owned atoms.
pub plan_migration-validates :
    (F : Floats) (fs : List F.Double) (rank world : ℤ) {plan : MigrationPlan}
    → length fs < 2 ^ 31
    → plan_migration F fs rank world ≡ ok plan
    → validate_migration_plan plan (length fs) rank world ≡ ok tt
plan_migration-validates F fs rank world small e =
    let p = plan_migration-Planned F fs rank world small e in
    rw (p.rank_is, p.world_is)
      (check_plan p.r p.n (length fs) p.owners _ small (length-Owners F p.n fs p.owners p.owned)
        p.rank_lt p.result)

outs_everywhere :
    (r n : ℕ) (os : List ℕ) (q : MigrationPlan)
    → Routed r n os 0 (empty_plan n) q
    → (d : ℕ) → get_or q.outgoing_slots d [] ≡ sent_to r d os
outs_everywhere r n os q g d =
    ground (arith, g.outs d, g.outs_self, read-replicate {0} {A = List ℤ} n [] d)

routes_parts :
    (F : Floats) (r n : ℕ) (fs : List F.Double) (os : List ℕ) (q : MigrationPlan)
    → Owners F n fs os
    → Routed r n os 0 (empty_plan n) q
    → r < n
    → ((d : ℕ) → get_or q.outgoing_slots d [] ≡ sent_to r d os)
      × ((d : ℕ) → get_or q.send_counts d (pos 0) ≡ pos (length (get_or q.outgoing_slots d [])))
      × (q.staying_count ≡ pos (count r os))
      × (total (λ d. length (get_or q.outgoing_slots d [])) n + count r os ≡ length fs)
unfolding ◌+ℤ◌
routes_parts F r n fs os q owned g lt =
    let outs = outs_everywhere r n os q g in
    let sizes = λ (d : ℕ). ap length (outs d) ∙ length-sent_to r d os in
    (
      outs,
      λ d. ground (arith, sizes d, g.sends d, g.sends_self, read-replicate n (pos 0) d),
      ground (arith, g.stays),
      omega (
        arith,
        total_cong (λ d. length (get_or q.outgoing_slots d [])) (sent_count r os) n
            (λ d _. sizes d),
        total_cong (λ i. sent_count r os (0 + i)) (sent_count r os) n
            (λ i _. ap (sent_count r os) (omega arith)),
        leaving_all r n os g.below lt,
        length-Owners F n fs os owned,
      ),
    )

-- In a plan that was returned, on fewer than 2^31 owned atoms, the list of another rank holds the
-- slots of the atoms that the rank owns, in order and nothing else, and the list of the rank itself is
-- empty; each count is the length of its list; the atoms that stay are as many as those that the rank
-- itself owns; together with the lists they are as many as all the atoms.
pub plan_migration-routes :
    (F : Floats) (fs : List F.Double) (r n : ℕ) {plan : MigrationPlan}
    → length fs < 2 ^ 31
    → plan_migration F fs (pos r) (pos n) ≡ ok plan
    → (owners : List ℕ) × Owners F n fs owners
      × ((d : ℕ) → get_or plan.outgoing_slots d [] ≡ sent_to r d owners)
      × ((d : ℕ)
          → get_or plan.send_counts d (pos 0) ≡ pos (length (get_or plan.outgoing_slots d [])))
      × (plan.staying_count ≡ pos (count r owners))
      × (total (λ d. length (get_or plan.outgoing_slots d [])) n + count r owners ≡ length fs)
unfolding plan_migration
plan_migration-routes F fs r n {plan} small e =
    let start = route_all F (pos r) (pos n) fs 0 (empty_plan n) in
    let (valid, e1) = throw_if-eq-ok (invalid_world (pos r) (pos n)) invalid_rank start e in
    let (os, owned, g) =
      route_all-Routed F r n fs 0 (empty_plan n) e1 (length-replicate n (pos 0))
        (length-replicate n []) (omega arith) (empty-HasRoom n) in
    let (outs, sizes, stays, all) = routes_parts F r n fs os plan owned g (ground arith) in
    (os, owned, outs, sizes, stays, all)
