-- ===== src/Migration/Route.antt =====
-- What the routing loop leaves in a plan, in terms of the owners of the atoms.
use dmg_md.Migration.Room.{HasRoom, route-HasRoom, empty-HasRoom, int_succ-IsUpTo}
use mathlib.Core.List.{append-nil, append_assoc}
use dmg_md.Base.{
  ℕ, suc, ◌+◌, ◌<◌, ◌≡◌, ◌≢◌, refl, sym, ap, ◌∙◌, false, List, [], ◌∷◌, ◌++◌, Result, err, ok,
  ok-injective, ◌>>=◌, arith, length, length-set, get_or, read-set, ◌==◌, if◌then◌else◌, count,
  AllBelow, throw_if-eq-ok, subst, length-replicate, ◌^◌,
}
use dmg_md.Base.Floats.{Floats}
use dmg_md.Base.Int.{ℤ, pos, pos_part, ◌+ℤ◌, int_laws}
use dmg_md.Base.Machine.{int_of_size, int_succ}
use dmg_md.Migration.{
  MigrationPlan, MigrationError, owner_or_error, route, route_all, migration_owner, invalid_world,
  empty_plan, plan_migration, invalid_rank,
}
use dmg_md.Ownership.Slab.{SlabError, slab_owner_bounds}

-- The slots whose atoms belong to `d`, where the first atom stands at `slot`.
abbrev pub routed : ℕ → ℕ → List ℕ → List ℤ
routed d slot [] = []
routed d slot (o ∷ os) =
    if o == d then int_of_size slot ∷ routed d (suc slot) os else routed d (suc slot) os

-- `q` is what `p` becomes over the atoms of `owners`, from `slot` on, on rank `r` of `n`.
pub record Routed (r n : ℕ) (owners : List ℕ) (slot : ℕ) (p q : MigrationPlan) : Type 0 where
  pub below : AllBelow n owners
  pub sends_len : length q.send_counts ≡ length p.send_counts
  pub outs_len : length q.outgoing_slots ≡ length p.outgoing_slots
  pub outs :
      (d : ℕ)
      → d ≢ r
      → get_or q.outgoing_slots d [] ≡ get_or p.outgoing_slots d [] ++ routed d slot owners
  pub outs_self : get_or q.outgoing_slots r [] ≡ get_or p.outgoing_slots r []
  pub sends :
      (d : ℕ)
      → d ≢ r
      → get_or q.send_counts d (pos 0) ≡ get_or p.send_counts d (pos 0) +ℤ pos (count d owners)
  pub sends_self : get_or q.send_counts r (pos 0) ≡ get_or p.send_counts r (pos 0)
  pub stays : q.staying_count ≡ p.staying_count +ℤ pos (count r owners)

+ℤ_one : (a : ℤ) (k : ℕ) → a +ℤ pos 1 +ℤ pos k ≡ a +ℤ pos (1 + k)
+ℤ_one a k = omega int_laws

+ℤ_none : (a : ℤ) → a +ℤ pos 0 ≡ a
+ℤ_none a = omega int_laws

route_sends :
    (r o slot : ℕ) (p : MigrationPlan)
    → length (route (pos r) (pos o) slot p).send_counts ≡ length p.send_counts
unfolding route
route_sends r o slot p =
    ground (arith, length-set p.send_counts o (int_succ (get_or p.send_counts o (pos 0))))

route_outs :
    (r o slot : ℕ) (p : MigrationPlan)
    → length (route (pos r) (pos o) slot p).outgoing_slots ≡ length p.outgoing_slots
unfolding route
route_outs r o slot p =
    ground
      (arith, length-set p.outgoing_slots o (get_or p.outgoing_slots o [] ++ int_of_size slot ∷ []))

module _ (r n : ℕ) (o : ℕ) (os : List ℕ) (slot : ℕ) (p q : MigrationPlan)
    (c : length p.send_counts ≡ n) (l : length p.outgoing_slots ≡ n) (lt : o < n)
    (one_more : int_succ (get_or p.send_counts o (pos 0)) ≡ get_or p.send_counts o (pos 0) +ℤ pos 1)
    (one_stays : int_succ p.staying_count ≡ p.staying_count +ℤ pos 1)
    (rest : Routed r n os (suc slot) (route (pos r) (pos o) slot p) q) where
  outs_cons :
      (d : ℕ)
      → d ≢ r
      → get_or q.outgoing_slots d [] ≡ get_or p.outgoing_slots d [] ++ routed d slot (o ∷ os)
  unfolding route
  outs_cons d ne =
      let grown = get_or p.outgoing_slots o [] ++ int_of_size slot ∷ [] in
      ground (
        arith,
        rest.outs d ne,
        read-set p.outgoing_slots o grown d [],
        append_assoc (get_or p.outgoing_slots d []) (int_of_size slot ∷ [])
            (routed d (suc slot) os),
      )

  sends_cons :
      (d : ℕ)
      → d ≢ r
      → get_or q.send_counts d (pos 0) ≡ get_or p.send_counts d (pos 0) +ℤ pos (count d (o ∷ os))
  unfolding route
  sends_cons d ne = ground (
    arith,
    rest.sends d ne,
    one_more,
    read-set p.send_counts o (int_succ (get_or p.send_counts o (pos 0))) d (pos 0),
    +ℤ_one (get_or p.send_counts d (pos 0)) (count d os),
  )

  Routed-cons : Routed r n (o ∷ os) slot p q
  unfolding route
  Routed-cons = record {
    below = (lt, rest.below);
    sends_len = ground (
      arith,
      rest.sends_len,
      length-set p.send_counts o (int_succ (get_or p.send_counts o (pos 0))),
    );
    outs_len = ground (
      arith,
      rest.outs_len,
      length-set p.outgoing_slots o (get_or p.outgoing_slots o [] ++ int_of_size slot ∷ []),
    );
    outs = outs_cons;
    outs_self = ground (
      arith,
      rest.outs_self,
      read-set p.outgoing_slots o (get_or p.outgoing_slots o [] ++ int_of_size slot ∷ []) r [],
    );
    sends = sends_cons;
    sends_self = ground (
      arith,
      rest.sends_self,
      read-set p.send_counts o (int_succ (get_or p.send_counts o (pos 0))) r (pos 0),
    );
    stays = ground (arith, rest.stays, one_stays, +ℤ_one p.staying_count (count r os));
  }

-- `owners` are the owners of the fractions, in order.
module _ (F : Floats) where
  open F use {Double}

  abbrev pub Owners : ℕ → List Double → List ℕ → Type 0
  Owners n [] [] = Unit {0}
  Owners n (f ∷ fs) (o ∷ os) = (migration_owner F f (pos n) ≡ ok (pos o)) × Owners n fs os
  Owners n _ _ = ⊥

  pub length-Owners :
      (n : ℕ) (fs : List Double) (os : List ℕ) → Owners n fs os → length os ≡ length fs
  length-Owners n [] [] h = refl
  length-Owners n (f ∷ fs) (o ∷ os) h = ap suc (length-Owners n fs os h.1)
  length-Owners n [] (o ∷ os) h = absurd h
  length-Owners n (f ∷ fs) [] h = absurd h

  owner_bounds :
      (f : Double) (n : ℕ) (z : ℤ)
      → migration_owner F f (pos n) ≡ ok z
      → (o : ℕ) × (z ≡ pos o) × (o < n)
  unfolding migration_owner
  owner_bounds f n z e = slab_owner_bounds F f (pos n) e

  owner_step :
      (f : Double) (n : ℕ) (k : ℤ → Result MigrationError MigrationPlan) (q : MigrationPlan)
      (m : Result SlabError ℤ)
      → migration_owner F f (pos n) ≡ m
      → (owner_or_error m >>= k) ≡ ok q
      → (o : ℕ) × (m ≡ ok (pos o)) × (o < n) × (k (pos o) ≡ ok q)
  owner_step f n k q (ok z) is e =
      let (o, at, lt) = owner_bounds f n z is in (o, ap ok at, lt, rw (← at) e)
  owner_step f n k q (err x) is e = cc

  pub route_all-Routed :
      (r n : ℕ) (fs : List Double) (slot : ℕ) (p : MigrationPlan) {q : MigrationPlan}
      → route_all F (pos r) (pos n) fs slot p ≡ ok q
      → length p.send_counts ≡ n
      → length p.outgoing_slots ≡ n
      → slot + length fs < 2 ^ 31
      → HasRoom slot p
      → (os : List ℕ) × Owners n fs os × Routed r n os slot p q
  unfolding route_all HasRoom
  route_all-Routed r n [] slot p {q} e c l small room =
      let same : p ≡ q = ok-injective e in
      (
        [],
        tt,
        rw (← same) (record {
          below = tt;
          sends_len = refl;
          outs_len = refl;
          outs = λ d ne. sym (append-nil _);
          outs_self = refl;
          sends = λ d ne. sym (+ℤ_none _);
          sends_self = refl;
          stays = sym (+ℤ_none _);
        }),
      )
  route_all-Routed r n (f ∷ fs) slot p {q} e c l small room =
      let (o, owned, lt, next) =
        owner_step f n (λ d. route_all F (pos r) (pos n) fs (suc slot) (route (pos r) d slot p)) q _
          refl e in
      let p' = route (pos r) (pos o) slot p in
      let (os, all, rest) =
        route_all-Routed r n fs (suc slot) p' next (route_sends r o slot p ∙ c)
          (route_outs r o slot p ∙ l) (omega arith)
          (route-HasRoom r o slot p (omega arith) (omega arith) room) in
      let one_more = (int_succ-IsUpTo slot _ (omega arith) (room.0 o)).0 in
      let one_stays = (int_succ-IsUpTo slot _ (omega arith) room.1).0 in
      (o ∷ os, (owned, all), Routed-cons r n o os slot p q c l lt one_more one_stays rest)

valid_world :
    (rank world : ℤ)
    → invalid_world rank world ≡ false
    → (rank ≡ pos (pos_part rank))
      × (world ≡ pos (pos_part world))
      × (pos_part rank < pos_part world)
valid_world rank world h = (ground arith, ground arith, ground arith)

-- A plan that was returned: the ranks are valid, and it is the empty plan after all the atoms.
pub record Planned (F : Floats) (fs : List F.Double) (rank world : ℤ) (plan : MigrationPlan)
    : Type 0 where
  pub r : ℕ
  pub n : ℕ
  pub rank_is : rank ≡ pos r
  pub world_is : world ≡ pos n
  pub rank_lt : r < n
  pub owners : List ℕ
  pub owned : Owners F n fs owners
  pub result : Routed r n owners 0 (empty_plan n) plan

pub plan_migration-Planned :
    (F : Floats) (fs : List F.Double) (rank world : ℤ) {plan : MigrationPlan}
    → length fs < 2 ^ 31
    → plan_migration F fs rank world ≡ ok plan
    → Planned F fs rank world plan
unfolding plan_migration
plan_migration-Planned F fs rank world {plan} small e =
    let (valid, e1) =
      throw_if-eq-ok (invalid_world rank world) invalid_rank
        (route_all F rank world fs 0 (empty_plan (pos_part world))) e in
    let (rank_is, world_is, lt) = valid_world rank world valid in
    let n = pos_part world in
    let e2 = subst (λ k. route_all F k world fs 0 (empty_plan n) ≡ ok plan) rank_is e1 in
    let e3 =
      subst (λ k. route_all F (pos (pos_part rank)) k fs 0 (empty_plan n) ≡ ok plan) world_is e2 in
    let (os, owned, g) =
      route_all-Routed F (pos_part rank) n fs 0 (empty_plan n) e3 (length-replicate n (pos 0))
        (length-replicate n []) (omega arith) (empty-HasRoom n) in
    record {
      r = pos_part rank;
      n = n;
      rank_is = rank_is;
      world_is = world_is;
      rank_lt = lt;
      owners = os;
      owned = owned;
      result = g;
    }
