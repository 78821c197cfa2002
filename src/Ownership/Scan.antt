-- ===== src/Ownership/Scan.antt =====
-- The first two loops of the constructor: what they accept, and the arrays that they leave.
use dmg_md.Base.{
  ℕ, zero, suc, ◌+◌, ◌≤◌, ◌<◌, ◌≡◌, refl, false, not, List, [], ◌∷◌, ok, arith, length, length-set,
  get_or, get_elem?, some, ◌≢◌, set, leb, ◌==◌, if◌then◌else◌, flag, count, get_or-set,
  throw_if-eq-ok, map, AllBelow,
}
use dmg_md.Base.Int.{ℤ, pos, pos_part, eqb_ℤ}
use dmg_md.Ownership.{OwnerScan, IdScan, outside_world, bump, scan_owners, scan_ids, check_covered}

-- Every owner is a rank of the world.
abbrev pub InWorld : ℤ → List ℤ → Type 0
InWorld world [] = Unit {0}
InWorld world (o ∷ os) = (outside_world o world ≡ false) × InWorld world os

-- What one pass over the owners leaves in the arrays of the scan.
pub record Scanned (rank world : ℤ) (owners : List ℤ) (slot : ℕ) (s t : OwnerScan) : Type 0 where
  pub in_world : InWorld world owners
  pub counts_len : length t.per_rank_counts ≡ length s.per_rank_counts
  pub mask_len : length t.mask ≡ length s.mask
  pub counted :
      (r : ℕ) → flag t.per_rank_counts r ≡ flag s.per_rank_counts r + count r (map pos_part owners)
  pub mask_below : (k : ℕ) → k < slot → flag t.mask k ≡ flag s.mask k
  pub mask_at :
      (j k : ℕ)
      → j ≡ slot + k
      → k < length owners
      → flag t.mask j ≡ (if eqb_ℤ (get_or owners k (pos 0)) rank then 1 else flag s.mask j)

abbrev next_scan : ℤ → ℤ → ℕ → OwnerScan → OwnerScan
next_scan rank owner slot s = record {
  per_rank_counts = bump s.per_rank_counts (pos_part owner);
  mask = if eqb_ℤ owner rank then set s.mask slot 1 else s.mask;
}

mask_at_cons :
    (rank world owner : ℤ) (owners : List ℤ) (slot : ℕ) (s t : OwnerScan)
    → slot < length s.mask
    → Scanned rank world owners (suc slot) (next_scan rank owner slot s) t
    → (k j : ℕ) → j ≡ slot + k
    → k < suc (length owners)
    → flag t.mask j ≡ (if eqb_ℤ (get_or (owner ∷ owners) k (pos 0)) rank then 1 else flag s.mask j)
mask_at_cons rank world owner owners slot s t m q zero j e lt =
    ground (arith, q.mask_below j, get_or-set s.mask slot 1 j)
mask_at_cons rank world owner owners slot s t m q (suc k) j e lt =
    ground (arith, q.mask_at j k, get_or-set s.mask slot 1 j)

Scanned-cons :
    (rank world owner : ℤ) (owners : List ℤ) (slot : ℕ) (s t : OwnerScan)
    → length s.per_rank_counts ≡ pos_part world
    → slot < length s.mask
    → outside_world owner world ≡ false
    → Scanned rank world owners (suc slot) (next_scan rank owner slot s) t
    → Scanned rank world (owner ∷ owners) slot s t
Scanned-cons rank world owner owners slot s t c m inside q = record {
  in_world = (inside, q.in_world);
  counts_len = ground (
    arith,
    q.counts_len,
    length-set s.per_rank_counts (pos_part owner) (flag s.per_rank_counts (pos_part owner) + 1),
  );
  mask_len = ground (arith, q.mask_len, length-set s.mask slot 1);
  counted = λ r. ground (
    arith,
    q.counted r,
    get_or-set s.per_rank_counts (pos_part owner) (flag s.per_rank_counts (pos_part owner) + 1) r,
  );
  mask_below = λ k lt. ground (arith, q.mask_below k, get_or-set s.mask slot 1 k);
  mask_at = λ j k e lt. mask_at_cons rank world owner owners slot s t m q k j e lt;
}

pub scan_owners-Scanned :
    (rank world : ℤ) (owners : List ℤ) (slot : ℕ) (s t : OwnerScan)
    → scan_owners rank world owners slot s ≡ ok t
    → length s.per_rank_counts ≡ pos_part world
    → slot + length owners ≤ length s.mask
    → Scanned rank world owners slot s t
unfolding scan_owners
scan_owners-Scanned rank world [] slot s t e c m =
    let same : s ≡ t = cc in
    rw (← same) (record {
      in_world = tt;
      counts_len = refl;
      mask_len = refl;
      counted = λ r. omega arith;
      mask_below = λ k lt. refl;
      mask_at = λ j k e' lt. absurd (omega arith);
    })
scan_owners-Scanned rank world (o ∷ os) slot s t e c m =
    let (inside, rest) = throw_if-eq-ok _ _ _ e in
    let next = next_scan rank o slot s in
    Scanned-cons rank world o os slot s t c (omega arith) inside (
      scan_owners-Scanned rank world os (suc slot) next t rest
        (omega (
          arith,
          c,
          length-set s.per_rank_counts (pos_part o) (flag s.per_rank_counts (pos_part o) + 1),
        ))
        (ground (arith, length-set s.mask slot 1)))

-- The first loop throws on no world of valid ranks.
pub scan_owners-total :
    (rank world : ℤ) (owners : List ℤ) (slot : ℕ) (s : OwnerScan)
    → InWorld world owners
    → (t : OwnerScan) × (scan_owners rank world owners slot s ≡ ok t)
unfolding scan_owners
scan_owners-total rank world [] slot s w = (s, refl)
scan_owners-total rank world (o ∷ os) slot s w =
    let (t, e) = scan_owners-total rank world os (suc slot) (next_scan rank o slot s) w.1 in
    (t, rw w.0 e)

-- What one pass over the ids leaves.
pub record Placed (n : ℕ) (ids : List ℕ) (slot : ℕ) (s t : IdScan) : Type 0 where
  pub below : AllBelow n ids
  pub seen_len : length t.seen ≡ length s.seen
  pub slot_len : length t.slot_of ≡ length s.slot_of
  pub marked : (k : ℕ) → flag t.seen k ≡ flag s.seen k + count k ids
  pub at_most : (k : ℕ) → flag s.seen k ≤ 1 → flag t.seen k ≤ 1
  pub kept : (k : ℕ) → count k ids ≡ 0 → flag t.slot_of k ≡ flag s.slot_of k
  pub placed : (j k id : ℕ) → j ≡ slot + k → get_elem? ids k ≡ some id → flag t.slot_of id ≡ j

abbrev next_ids : ℕ → ℕ → IdScan → IdScan
next_ids id slot s = record { seen = set s.seen id 1; slot_of = set s.slot_of id slot }

Placed-push :
    (n id : ℕ) (ids : List ℕ) (slot : ℕ) (s t : IdScan)
    → length s.seen ≡ n
    → length s.slot_of ≡ n
    → id < n
    → Placed n ids (suc slot) (next_ids id slot s) t
    → (k j a : ℕ) → j ≡ slot + k
    → get_elem? (id ∷ ids) k ≡ some a
    → flag t.slot_of a ≡ j
Placed-push n id ids slot s t ls lo lt q zero j a e h = ground (
  arith,
  q.marked id,
  q.at_most id,
  q.kept id,
  get_or-set s.slot_of id slot id,
  get_or-set s.seen id 1 id,
)
Placed-push n id ids slot s t ls lo lt q (suc k) j a e h = q.placed j k a (omega arith) h

Placed-cons :
    (n id : ℕ) (ids : List ℕ) (slot : ℕ) (s t : IdScan)
    → length s.seen ≡ n
    → length s.slot_of ≡ n
    → leb n id ≡ false
    → not (flag s.seen id == 0) ≡ false
    → Placed n ids (suc slot) (next_ids id slot s) t
    → Placed n (id ∷ ids) slot s t
Placed-cons n id ids slot s t ls lo inside fresh q = record {
  below = (ground arith, q.below);
  seen_len = omega (arith, q.seen_len, length-set s.seen id 1);
  slot_len = omega (arith, q.slot_len, length-set s.slot_of id slot);
  marked = λ k. ground (arith, q.marked k, get_or-set s.seen id 1 k);
  at_most = λ k h. ground (arith, q.at_most k, get_or-set s.seen id 1 k);
  kept = λ k h. ground (arith, q.kept k, get_or-set s.slot_of id slot k);
  placed = λ j k a e h. Placed-push n id ids slot s t ls lo (ground arith) q k j a e h;
}

pub scan_ids-Placed :
    (n : ℕ) (ids : List ℕ) (slot : ℕ) (s t : IdScan)
    → scan_ids n ids slot s ≡ ok t
    → length s.seen ≡ n
    → length s.slot_of ≡ n
    → Placed n ids slot s t
unfolding scan_ids
scan_ids-Placed n [] slot s t e ls lo =
    let same : s ≡ t = cc in
    rw (← same) (record {
      below = tt;
      seen_len = refl;
      slot_len = refl;
      marked = λ k. omega arith;
      at_most = λ k h. h;
      kept = λ k h. refl;
      placed = λ j k id e' h. absurd (cc);
    })
scan_ids-Placed n (id ∷ ids) slot s t e ls lo =
    let (inside, more) = throw_if-eq-ok _ _ _ e in
    let (fresh, rest) = throw_if-eq-ok _ _ _ more in
    Placed-cons n id ids slot s t ls lo inside fresh (
      scan_ids-Placed n ids (suc slot) (next_ids id slot s) t rest
        (omega (arith, length-set s.seen id 1)) (omega (arith, length-set s.slot_of id slot)))

-- The second loop throws on no list of distinct numbers below `n`.
pub scan_ids-total :
    (n : ℕ) (ids : List ℕ) (slot : ℕ) (s : IdScan)
    → AllBelow n ids
    → length s.seen ≡ n
    → ((k : ℕ) → flag s.seen k + count k ids ≤ 1)
    → (t : IdScan) × (scan_ids n ids slot s ≡ ok t)
unfolding scan_ids
scan_ids-total n [] slot s b ls h = (s, refl)
scan_ids-total n (id ∷ ids) slot s b ls h =
    let (t, e) =
      scan_ids-total n ids (suc slot) (next_ids id slot s) b.1
        (omega (arith, length-set s.seen id 1))
        (λ k. ground (arith, h k, get_or-set s.seen id 1 k)) in
    (t, ground (arith, h id))

pub check_covered-total :
    (fs : List ℕ) → ((k : ℕ) → k < length fs → flag fs k ≢ 0) → check_covered fs ≡ ok tt
unfolding check_covered
check_covered-total [] h = refl
check_covered-total (f ∷ fs) h =
    ground (arith, h 0, check_covered-total fs (λ k lt. h (suc k) (omega arith)))
