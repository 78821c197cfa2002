-- ===== src/Layout/Classified.antt =====
-- The ghost sections of a layout by distance and by order.
use dmg_md.Base.{
  ℕ, ◌≡◌, refl, ap, ◌∙◌, sym, subst, true, false, List, [], ◌∷◌, ◌++◌, ok, ok-injective,
  if◌then◌else◌, Bool-cases, inl, inr, All, All-append,
}
use dmg_md.Base.Floats.{Floats}
use dmg_md.Base.Int.{ℤ}
use dmg_md.Layout.Geometry.{component, distance_to_slab}
use dmg_md.Layout.Unique.{add_step, build-eq-ok}
use dmg_md.Layout.{
  DomainAtomRecord, GhostCandidate, GhostSlotInfo, LocalLayout, stable_sort, ghost_of, add_ghost,
  add_candidates, owned_ids, start_layout, slab_distance, build_local_layout, Vec3,
}

module _ (F : Floats) where
  -- The slab and the bands that a layout measures its ghosts by.
  pub record Frame : Type 0 where
    axis : ℤ
    lo : F.Double
    hi : F.Double
    len : F.Double
    dep : F.Double
    coord : F.Double

  abbrev pub frame : LocalLayout F → Frame
  frame l = record {
    axis = l.axis;
    lo = l.slab_lo;
    hi = l.slab_hi;
    len = l.axis_length;
    dep = l.d_dep;
    coord = l.d_coord;
  }

  abbrev pub far : Frame → Vec3 F.Double → F.Double
  far f p = distance_to_slab F (component p f.axis) f.lo f.hi f.len

  -- Within the dependency distance, and past it but within the coordinate distance.
  abbrev pub IsNear : Frame → GhostSlotInfo F → Type 0
  IsNear f g = (F.led (far f g.position) f.dep ≡ true) × (F.ltd f.coord (far f g.position) ≡ false)

  abbrev pub IsOuter : Frame → GhostSlotInfo F → Type 0
  IsOuter f g =
      (F.led (far f g.position) f.dep ≡ false) × (F.ltd f.coord (far f g.position) ≡ false)

  abbrev Sorted : Frame → LocalLayout F → Type 0
  Sorted f l = All (IsNear f) l.dependency_ghosts × All (IsOuter f) l.coordinate_ghosts

  frame-add_ghost : (l : LocalLayout F) (g : GhostSlotInfo F) → frame (add_ghost F l g) ≡ frame l
  unfolding add_ghost
  frame-add_ghost l g = elim (Bool-cases g.dependency) [ inl e ↦ rw (e) refl | inr e ↦ rw (e) refl ]

  abbrev with_near : LocalLayout F → GhostSlotInfo F → LocalLayout F
  with_near l g = record l { dependency_ghosts = l.dependency_ghosts ++ g ∷ [] }

  abbrev with_outer : LocalLayout F → GhostSlotInfo F → LocalLayout F
  with_outer l g = record l { coordinate_ghosts = l.coordinate_ghosts ++ g ∷ [] }

  add_near :
      (l : LocalLayout F) (g : GhostSlotInfo F) (f : Frame)
      → g.dependency ≡ true
      → Sorted f l
      → IsNear f g
      → Sorted f (add_ghost F l g)
  unfolding add_ghost
  add_near l g f e s d =
      subst (λ b. Sorted f (if b then with_near l g else with_outer l g)) (sym e)
        (All-append (IsNear f) l.dependency_ghosts (g ∷ []) s.0 (d, tt), s.1)

  add_outer :
      (l : LocalLayout F) (g : GhostSlotInfo F) (f : Frame)
      → g.dependency ≡ false
      → Sorted f l
      → IsOuter f g
      → Sorted f (add_ghost F l g)
  unfolding add_ghost
  add_outer l g f e s d =
      subst (λ b. Sorted f (if b then with_near l g else with_outer l g)) (sym e)
        (s.0, All-append (IsOuter f) l.coordinate_ghosts (g ∷ []) s.1 (d, tt))

  add-Sorted :
      (l : LocalLayout F) (c : GhostCandidate F)
      → Sorted (frame l) l
      → F.ltd l.d_coord (slab_distance F l c) ≡ false
      → Sorted (frame l) (add_ghost F l (ghost_of F l c))
  unfolding ghost_of slab_distance
  add-Sorted l c s near = elim (Bool-cases (F.led (slab_distance F l c) l.d_dep)) [
    | inl e ↦ add_near l (ghost_of F l c) (frame l) e s (e, near)
    | inr e ↦ add_outer l (ghost_of F l c) (frame l) e s (e, near)
  ]

  add_candidates-Sorted :
      (cs : List (GhostCandidate F)) (seen : List ℕ) (l m : LocalLayout F) (f : Frame)
      → frame l ≡ f
      → Sorted f l
      → add_candidates F cs seen l ≡ ok m
      → (frame m ≡ f) × Sorted f m
  unfolding add_candidates
  add_candidates-Sorted [] seen l m f same s e =
      let is : l ≡ m = ok-injective e in (ap frame (sym is) ∙ same, subst (Sorted f) is s)
  add_candidates-Sorted (c ∷ cs) seen l m f same s e =
      let (near, _, e2) = add_step F c cs seen l m e in
      let g = ghost_of F l c in
      add_candidates-Sorted cs (seen ++ c.global_id ∷ []) (add_ghost F l g) m f
        (frame-add_ghost l g ∙ same)
        (subst (λ k. Sorted k (add_ghost F l g)) same
          (add-Sorted l c (subst (λ k. Sorted k l) (sym same) s) near))
        e2

  -- In a layout that was built, every atom of the dependency section is at most the dependency
  -- distance from the slab, every atom of the coordinate section is past it, and no ghost is past
  -- the coordinate distance.
  pub build-classifies :
      (owned : List (DomainAtomRecord F)) (left right : List (GhostCandidate F))
      (rank world axis : ℤ) (len d_dep d_coord : F.Double) {l : LocalLayout F}
      → build_local_layout F owned left right rank world axis len d_dep d_coord ≡ ok l
      → All (IsNear (frame l)) l.dependency_ghosts × All (IsOuter (frame l)) l.coordinate_ghosts
  unfolding start_layout
  build-classifies owned left right rank world axis len d_dep d_coord {l} e =
      let (_, _, e1) = build-eq-ok F owned left right rank world axis len d_dep d_coord e in
      let start = start_layout F owned rank world axis len d_dep d_coord in
      let (same, sorted) =
        add_candidates-Sorted (stable_sort F (left ++ right)) (owned_ids F owned) start l
          (frame start) refl (tt, tt) e1 in
      subst (λ k. Sorted k l) (sym same) sorted
