-- ===== src/Layout/Unique.antt =====
-- A layout holds each global atom at most once, and every candidate in exactly one ghost section.
use dmg_md.Base.{
  ℕ, suc, ◌+◌, ◌≤◌, ◌≡◌, refl, false, List, [], ◌∷◌, ◌++◌, map, ok, arith, count, count-append,
  AscendingFrom, count-AscendingFrom, throw_if-eq-ok, >>-eq-ok, ok-injective, ap, ◌∙◌, ◌>>◌, leb,
}
use dmg_md.Base.Floats.{Floats}
use dmg_md.Base.Int.{ℤ}
use mathlib.Core.List.{map-append}
use dmg_md.Layout.{
  DomainAtomRecord, GhostCandidate, GhostSlotInfo, LocalLayout, check_ascending, insert_stable,
  stable_sort, noted, ghost_of, add_ghost, add_candidates, owned_ids, build_local_layout,
  start_layout, bad_geometry, check_faces, wrong_left_face, wrong_right_face, invalid_geometry,
  slab_distance, owned_not_ascending,
}

noted-count : (F : Floats) (id : ℕ) (xs : List ℕ) → noted F id xs ≡ false → count id xs ≡ 0
unfolding noted
noted-count F id [] h = refl
noted-count F id (x ∷ xs) h = ground (arith, noted-count F id xs)

module _ (F : Floats) where
  abbrev pub ghost_ids : List (GhostSlotInfo F) → List ℕ
  ghost_ids = map λ g. g.global_id

  abbrev pub candidate_ids : List (GhostCandidate F) → List ℕ
  candidate_ids = map λ c. c.global_id

  -- The ids of the local slots, in slot order.
  abbrev pub local_ids : LocalLayout F → List ℕ
  local_ids l =
      owned_ids F l.owned ++ (ghost_ids l.dependency_ghosts ++ ghost_ids l.coordinate_ghosts)

  check_ascending-ok :
      (a : DomainAtomRecord F) (rest : List (DomainAtomRecord F))
      → check_ascending F (a ∷ rest) ≡ ok tt
      → AscendingFrom a.global_id (owned_ids F (a ∷ rest))
  unfolding check_ascending
  check_ascending-ok a [] e = (omega arith, tt)
  check_ascending-ok a (b ∷ rest) e =
      let (lt, e1) =
        throw_if-eq-ok (leb b.global_id a.global_id) owned_not_ascending
          (check_ascending F (b ∷ rest)) e in
      let (_, more) = check_ascending-ok b rest e1 in
      let above : suc a.global_id ≤ b.global_id = ground arith in (omega arith, (above, more))

  pub owned_once :
      (owned : List (DomainAtomRecord F)) (id : ℕ)
      → check_ascending F owned ≡ ok tt
      → count id (owned_ids F owned) ≤ 1
  owned_once [] id e = omega arith
  owned_once (a ∷ rest) id e =
      count-AscendingFrom id a.global_id (owned_ids F (a ∷ rest)) (check_ascending-ok a rest e)

  count-insert_stable :
      (id : ℕ) (c : GhostCandidate F) (cs : List (GhostCandidate F))
      → count id (candidate_ids (insert_stable F c cs)) ≡ count id (candidate_ids (c ∷ cs))
  unfolding insert_stable
  count-insert_stable id c [] = refl
  count-insert_stable id c (d ∷ ds) = ground (arith, count-insert_stable id c ds)

  pub count-stable_sort :
      (id : ℕ) (cs : List (GhostCandidate F))
      → count id (candidate_ids (stable_sort F cs)) ≡ count id (candidate_ids cs)
  unfolding stable_sort
  count-stable_sort id [] = refl
  count-stable_sort id (c ∷ cs) =
      omega (arith, count-insert_stable id c (stable_sort F cs), count-stable_sort id cs)

  -- What adding the candidates `cs` does to a layout.
  pub record Added (cs : List (GhostCandidate F)) (seen : List ℕ) (l m : LocalLayout F)
      : Type 0 where
    pub owned_kept : m.owned ≡ l.owned
    pub once : (id : ℕ) → count id seen ≤ 1 → count id seen + count id (candidate_ids cs) ≤ 1
    pub shared :
        (id : ℕ)
        → count id (ghost_ids m.dependency_ghosts) + count id (ghost_ids m.coordinate_ghosts)
          ≡ count id (ghost_ids l.dependency_ghosts)
            + count id (ghost_ids l.coordinate_ghosts)
            + count id (candidate_ids cs)

  add_ghost-count :
      (l : LocalLayout F) (g : GhostSlotInfo F) (id : ℕ)
      → count id (ghost_ids (add_ghost F l g).dependency_ghosts)
          + count id (ghost_ids (add_ghost F l g).coordinate_ghosts)
        ≡ count id (ghost_ids l.dependency_ghosts)
          + count id (ghost_ids l.coordinate_ghosts)
          + count id (g.global_id ∷ [])
  unfolding add_ghost
  add_ghost-count l g id = ground (
    arith,
    map-append (λ (k : GhostSlotInfo F). k.global_id) l.dependency_ghosts (g ∷ []),
    map-append (λ (k : GhostSlotInfo F). k.global_id) l.coordinate_ghosts (g ∷ []),
    count-append id (ghost_ids l.dependency_ghosts) (g.global_id ∷ []),
    count-append id (ghost_ids l.coordinate_ghosts) (g.global_id ∷ []),
  )

  add_ghost-owned : (l : LocalLayout F) (g : GhostSlotInfo F) → (add_ghost F l g).owned ≡ l.owned
  unfolding add_ghost
  add_ghost-owned l g = ground arith

  -- One round of the loop, where it did not throw.
  pub add_step :
      (c : GhostCandidate F) (cs : List (GhostCandidate F)) (seen : List ℕ) (l m : LocalLayout F)
      → add_candidates F (c ∷ cs) seen l ≡ ok m
      → (F.ltd l.d_coord (slab_distance F l c) ≡ false)
        × (noted F c.global_id seen ≡ false)
        × (add_candidates F cs (seen ++ c.global_id ∷ []) (add_ghost F l (ghost_of F l c)) ≡ ok m)
  unfolding add_candidates
  add_step c cs seen l m e = (ground arith, ground arith, ground arith)

  ghost_of-id :
      (l : LocalLayout F) (c : GhostCandidate F) → (ghost_of F l c).global_id ≡ c.global_id
  unfolding ghost_of
  ghost_of-id l c = refl

  add_candidates-Added :
      (cs : List (GhostCandidate F)) (seen : List ℕ) (l m : LocalLayout F)
      → add_candidates F cs seen l ≡ ok m
      → Added cs seen l m
  unfolding add_candidates
  add_candidates-Added [] seen l m e =
      let same : l ≡ m = ok-injective e in
      rw (← same)
        (record { owned_kept = refl; once = λ id h. omega arith; shared = λ id. omega arith })
  add_candidates-Added (c ∷ cs) seen l m e =
      let (_, new, e2) = add_step c cs seen l m e in
      let g = ghost_of F l c in
      let rest = add_candidates-Added cs (seen ++ c.global_id ∷ []) (add_ghost F l g) m e2 in
      record {
        owned_kept = rest.owned_kept ∙ add_ghost-owned l g;
        once = λ id h. ground (
          arith,
          rest.once id,
          noted-count F c.global_id seen new,
          count-append id seen (c.global_id ∷ []),
        );
        shared = λ id. omega (
          arith,
          rest.shared id,
          add_ghost-count l g id,
          ap (λ (k : ℕ). count id (k ∷ [])) (ghost_of-id l c),
        );
      }

  -- A successful build, taken apart.
  pub build-eq-ok :
      (owned : List (DomainAtomRecord F)) (left right : List (GhostCandidate F))
      (rank world axis : ℤ) (len d_dep d_coord : F.Double) {l : LocalLayout F}
      → build_local_layout F owned left right rank world axis len d_dep d_coord ≡ ok l
      → (check_ascending F owned ≡ ok tt)
        × (bad_geometry F rank world axis ≡ false)
        × (add_candidates F
              (stable_sort F (left ++ right))
              (owned_ids F owned)
              (start_layout F owned rank world axis len d_dep d_coord)
            ≡ ok l)
  unfolding build_local_layout
  build-eq-ok owned left right rank world axis len d_dep d_coord {l} e =
      let start = start_layout F owned rank world axis len d_dep d_coord in
      let last = add_candidates F (stable_sort F (left ++ right)) (owned_ids F owned) start in
      let rights = check_faces F 1 wrong_right_face right in
      let lefts = check_faces F 0 wrong_left_face left in
      let (geometry, e1) =
        throw_if-eq-ok (bad_geometry F rank world axis) invalid_geometry
          (check_ascending F owned >> (lefts >> (rights >> last))) e in
      let (ascending, e2) = >>-eq-ok (check_ascending F owned) (lefts >> (rights >> last)) e1 in
      let (_, e3) = >>-eq-ok lefts (rights >> last) e2 in
      let (_, e4) = >>-eq-ok rights last e3 in (ascending, geometry, e4)

  -- In a layout that was built, no global atom has two local slots, and each candidate of either
  -- face has a slot in one of the two ghost sections, as often as it was received.
  pub build-once :
      (owned : List (DomainAtomRecord F)) (left right : List (GhostCandidate F))
      (rank world axis : ℤ) (len d_dep d_coord : F.Double) {l : LocalLayout F}
      → build_local_layout F owned left right rank world axis len d_dep d_coord ≡ ok l
      → (id : ℕ)
      → (count id (local_ids l) ≤ 1)
        × (count id (ghost_ids l.dependency_ghosts) + count id (ghost_ids l.coordinate_ghosts)
            ≡ count id (candidate_ids left) + count id (candidate_ids right))
        × (l.owned ≡ owned)
  unfolding start_layout
  build-once owned left right rank world axis len d_dep d_coord {l} e id =
      let (ascending, _, e1) = build-eq-ok owned left right rank world axis len d_dep d_coord e in
      let start = start_layout F owned rank world axis len d_dep d_coord in
      let added =
        add_candidates-Added (stable_sort F (left ++ right)) (owned_ids F owned) start l e1 in
      let sorted = count-stable_sort id (left ++ right) in
      let both =
        ap (count id) (map-append (λ (k : GhostCandidate F). k.global_id) left right)
        ∙ count-append id (candidate_ids left) (candidate_ids right) in
      let split =
        count-append id (owned_ids F l.owned)
          (ghost_ids l.dependency_ghosts ++ ghost_ids l.coordinate_ghosts) in
      let ghosts =
        count-append id (ghost_ids l.dependency_ghosts) (ghost_ids l.coordinate_ghosts) in
      let kept = ap (λ xs. count id (owned_ids F xs)) added.owned_kept in
      (
        omega (
          arith,
          added.once id (owned_once owned id ascending),
          added.shared id,
          sorted,
          both,
          split,
          ghosts,
          kept,
        ),
        omega (arith, added.shared id, sorted, both),
        added.owned_kept,
      )
