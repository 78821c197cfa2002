-- ===== src/Ownership/Derived.antt =====
-- When the constructor succeeds, and what its arrays then are.
use dmg_md.Base.{
  ℕ, ◌≤◌, ◌<◌, ◌≡◌, ap, sym, ◌∙◌, false, not, ◌||◌, List, [], ◌∷◌, map, ok, arith, length,
  length-replicate, length-map, replicate, get_or-replicate, ◌==◌, flag, sum, sum-total, total,
  total_cong, total-count, count, count_full, AllBelow, throw_if-eq-ok, >>=-eq-ok, >>-eq-ok,
  ok-injective, ◌>>=◌, ◌>>◌, throw_if,
}
use dmg_md.Base.Int.{ℤ, pos, pos_part, ltb_ℤ}
use dmg_md.Ownership.{
  SpatialOwnership, OwnerScan, IdScan, outside_world, scan_owners, scan_ids, check_covered,
  assemble, construct, not_partition, id_size_mismatch, invalid_world,
}
use dmg_md.Ownership.Scan.{
  InWorld, Scanned, Placed, scan_owners-Scanned, scan_owners-total, scan_ids-Placed, scan_ids-total,
  check_covered-total,
}

abbrev first_scan : ℤ → ℕ → OwnerScan
first_scan world n = record { per_rank_counts = replicate (pos_part world) 0; mask = replicate n 0 }

abbrev first_ids : ℕ → IdScan
first_ids n = record { seen = replicate n 0; slot_of = replicate n 0 }

-- The arguments that the constructor is meant for: a rank of the world, an owner in the world for
-- each slot, and a permutation of the slots as ids.
pub record IsOwnerMap (owners : List ℤ) (ids : List ℕ) (rank world : ℤ) : Type 0 where
  pub world_positive : 0 < pos_part world
  pub rank_inside : outside_world rank world ≡ false
  pub sized : length ids ≡ length owners
  pub in_world : InWorld world owners
  pub ids_below : AllBelow (length owners) ids
  pub ids_once : (k : ℕ) → count k ids ≤ 1

-- What a successful construction went through.
pub record Built (owners : List ℤ) (ids : List ℕ) (rank world : ℤ) (o : SpatialOwnership)
    : Type 0 where
  pub valid : IsOwnerMap owners ids rank world
  pub owner_scan : OwnerScan
  pub id_scan : IdScan
  pub scanned : Scanned rank world owners 0 (first_scan world (length owners)) owner_scan
  pub placed : Placed (length owners) ids 0 (first_ids (length owners)) id_scan
  pub result : o ≡ assemble owners ids rank world owner_scan id_scan

world_check :
    (rank world : ℤ)
    → (ltb_ℤ world (pos 1) || outside_world rank world) ≡ false
    → (0 < pos_part world) × (outside_world rank world ≡ false)
world_check rank world h = ground arith

size_check : (a b : ℕ) → not (a == b) ≡ false → a ≡ b
size_check a b h = ground arith

pub construct-Built :
    (owners : List ℤ) (ids : List ℕ) (rank world : ℤ) {o : SpatialOwnership}
    → construct owners ids rank world ≡ ok o
    → Built owners ids rank world o
unfolding construct
construct-Built owners ids rank world {o} e =
    let n = length owners in
    let final = λ (a : OwnerScan) (b : IdScan). ok (assemble owners ids rank world a b) in
    let covered = λ (a : OwnerScan) (b : IdScan). check_covered b.seen >> final a b in
    let place = λ (a : OwnerScan). scan_ids n ids 0 (first_ids n) >>= covered a in
    let partition =
      λ (a : OwnerScan). throw_if (not (sum a.per_rank_counts == n)) not_partition >> place a in
    let scan = scan_owners rank world owners 0 (first_scan world n) in
    let sizes = throw_if (not (length ids == n)) id_size_mismatch in
    let (w, e1) =
      throw_if-eq-ok (ltb_ℤ world (pos 1) || outside_world rank world) invalid_world
        (sizes >> (scan >>= partition)) e in
    let (l, e2) = throw_if-eq-ok (not (length ids == n)) id_size_mismatch (scan >>= partition) e1 in
    let (a, sa, e3) = >>=-eq-ok scan partition e2 in
    let (p, e4) = throw_if-eq-ok (not (sum a.per_rank_counts == n)) not_partition (place a) e3 in
    let (b, sb, e5) = >>=-eq-ok (scan_ids n ids 0 (first_ids n)) (covered a) e4 in
    let (su, e6) = >>-eq-ok (check_covered b.seen) (final a b) e5 in
    let scanned =
      scan_owners-Scanned rank world owners 0 (first_scan world n) a sa
        (length-replicate (pos_part world) 0) (omega (arith, length-replicate {0} {A = ℕ} n 0)) in
    let placed =
      scan_ids-Placed n ids 0 (first_ids n) b sb (length-replicate n 0) (length-replicate n 0) in
    record {
      valid = record {
        world_positive = (world_check rank world w).0;
        rank_inside = (world_check rank world w).1;
        sized = size_check (length ids) n l;
        in_world = scanned.in_world;
        ids_below = placed.below;
        ids_once = λ k. omega (arith, placed.marked k, placed.at_most k, get_or-replicate n k);
      };
      owner_scan = a;
      id_scan = b;
      scanned = scanned;
      placed = placed;
      result = sym (ok-injective e6);
    }

owners_below :
    (world : ℤ) (owners : List ℤ)
    → InWorld world owners
    → AllBelow (pos_part world) (map pos_part owners)
owners_below world [] w = tt
owners_below world (o ∷ os) w = (ground arith, owners_below world os w.1)

-- The counts add up, so that `not_partition` is not thrown.
pub counts_cover :
    (rank world : ℤ) (owners : List ℤ) (t : OwnerScan)
    → Scanned rank world owners 0 (first_scan world (length owners)) t
    → sum t.per_rank_counts ≡ length owners
counts_cover rank world owners t q =
    let size : length t.per_rank_counts ≡ pos_part world =
      q.counts_len ∙ length-replicate (pos_part world) 0 in
    let same =
      total_cong (flag t.per_rank_counts) (λ r. count r (map pos_part owners)) (pos_part world)
        (λ r lt. omega (arith, q.counted r, get_or-replicate (pos_part world) r)) in
    sum-total t.per_rank_counts
    ∙ ap (total (flag t.per_rank_counts)) size
    ∙ same
    ∙ total-count (pos_part world) (map pos_part owners) (owners_below world owners q.in_world)
    ∙ length-map owners pos_part

-- The ids cover the slots, so that `id_not_covering` is not thrown.
covered :
    (n : ℕ) (ids : List ℕ) (t : IdScan)
    → Placed n ids 0 (first_ids n) t
    → length ids ≡ n
    → ((k : ℕ) → count k ids ≤ 1)
    → check_covered t.seen ≡ ok tt
covered n ids t q l once = check_covered-total t.seen λ k lt. omega (
  arith,
  q.marked k,
  get_or-replicate n k,
  count_full n ids q.below l once k (omega (arith, q.seen_len, length-replicate {0} {A = ℕ} n 0)),
)

-- The constructor accepts each map of slots to ranks of the world on a rank of it, with as many
-- ids as slots, each below their number and none twice: its two internal checks never throw.
pub construct-total :
    (owners : List ℤ) (ids : List ℕ) (rank world : ℤ)
    → IsOwnerMap owners ids rank world
    → (o : SpatialOwnership) × (construct owners ids rank world ≡ ok o)
unfolding construct
construct-total owners ids rank world v =
    let n = length owners in
    let (a, ea) = scan_owners-total rank world owners 0 (first_scan world n) v.in_world in
    let (b, eb) =
      scan_ids-total n ids 0 (first_ids n) v.ids_below (length-replicate n 0)
        (λ k. omega (arith, v.ids_once k, get_or-replicate n k)) in
    let scanned =
      scan_owners-Scanned rank world owners 0 (first_scan world n) a ea
        (length-replicate (pos_part world) 0) (omega (arith, length-replicate {0} {A = ℕ} n 0)) in
    let placed =
      scan_ids-Placed n ids 0 (first_ids n) b eb (length-replicate n 0) (length-replicate n 0) in
    (
      assemble owners ids rank world a b,
      ground (
        arith,
        v.world_positive,
        v.rank_inside,
        v.sized,
        ea,
        eb,
        counts_cover rank world owners a scanned,
        covered n ids b placed v.sized v.ids_once,
      ),
    )
