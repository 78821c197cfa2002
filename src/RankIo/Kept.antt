-- ===== src/RankIo/Kept.antt =====
-- Each step of a process keeps the agreement of its calls and members, and the safety of its removals.
use dmg_md.RankIo.Local.{
  after_return, restore_cwd, deletable, after_remove, try_delete_scratch, after_enter,
  enter_scratch, after_open, create_file, after_mkdtemp, make_scratch, after_resolve,
  prepare_local_scratch, faulty, parent_matches, pattern, neighbor_file, scratch_named,
}
use Prim.Native.String.{String}
use dmg_md.Base.{
  true, false, not, Option, Result, ok, err, ◌≡◌, refl, inl, inr, arith, ◌∙◌, if_holds,
}
use dmg_md.RunFile.{Bytes}
use dmg_md.RankIo.{FilePath, System, Place, Process, is_no_path}
use dmg_md.RankIo.Names.{same_path, parent_path, file_name, name_matches, rank_io_fault_requested}
use dmg_md.RankIo.Safe.{
  AreSafe, IsFresh, IsKept, IsSafeRemoval, Kept, KeptAfter, MayRemove, fresh-Kept, inside,
  known_path, last_made, name_matches-IsScratchName, same_path-eq,
}

module _ {Fs : Type 0} (os : System Fs) (at : Place) where
  after_return-Kept :
      (answer : Result Bytes (Unit {0}) × Fs) (s : Process Fs)
      → Kept s
      → KeptAfter (after_return os at answer s)
  unfolding after_return Kept IsKept inside last_made AreSafe
  after_return-Kept (err e, fs) s k = k
  after_return-Kept (ok done, fs) s (here, known, safe) = (refl, known, safe)

  pub restore_cwd-Kept :
      (operation : Option String) (s : Process Fs)
      → Kept s
      → KeptAfter (restore_cwd os at operation s)
  unfolding restore_cwd
  restore_cwd-Kept operation s k =
      let answer = os.change_directory s.fs s.isolation.original in
      if_holds KeptAfter (not s.isolation.in_scratch) _ _ (λ h. k)
        (λ h.
          if_holds KeptAfter (faulty os at operation) _ _ (λ f. k)
            (λ f. after_return-Kept answer s k))

  deletable-MayRemove :
      (s : Process Fs)
      → is_no_path s.isolation.scratch ≡ false
      → s.isolation.in_scratch ≡ false
      → deletable os at s ≡ true
      → Kept s
      → MayRemove s
  unfolding Kept IsKept MayRemove IsSafeRemoval deletable parent_matches scratch_named
  deletable-MayRemove s some_path out h (here, known, safe) =
      let i = s.isolation in
      let parent : same_path (parent_path i.scratch) i.temp_root ≡ true = ground arith in
      let name : name_matches i.name_prefix (file_name i.scratch) ≡ true = ground arith in
      (
        same_path-eq (parent_path i.scratch) i.temp_root parent,
        name_matches-IsScratchName i.name_prefix (file_name i.scratch) name,
        known_path some_path known,
        here ∙ out,
      )

  after_remove-Kept :
      (answer : Result Bytes (Unit {0}) × Fs) (s : Process Fs)
      → MayRemove s
      → Kept s
      → KeptAfter (after_remove os at answer s)
  unfolding after_remove Kept IsKept inside last_made AreSafe MayRemove
  after_remove-Kept (err e, fs) s may (here, known, safe) = (here, known, (may, safe))
  after_remove-Kept (ok done, fs) s may (here, known, safe) = (here, inl refl, (may, safe))

  pub try_delete_scratch-Kept : (s : Process Fs) → Kept s → KeptAfter (try_delete_scratch os at s)
  unfolding try_delete_scratch
  try_delete_scratch-Kept s k =
      let answer = os.remove_all s.fs s.isolation.scratch in
      if_holds KeptAfter (is_no_path s.isolation.scratch) _ _ (λ h. k)
        (λ h.
          if_holds KeptAfter s.isolation.in_scratch _ _ (λ f. k)
            (λ f.
              if_holds KeptAfter (deletable os at s) _ _
                (λ d. after_remove-Kept answer s (deletable-MayRemove s h f d k) k) (λ d. k)))

  after_enter-Kept :
      (answer : Result Bytes (Unit {0}) × Fs) (s : Process Fs)
      → Kept s
      → KeptAfter (after_enter os at answer s)
  unfolding after_enter Kept IsKept inside last_made AreSafe
  after_enter-Kept (err e, fs) s k = k
  after_enter-Kept (ok done, fs) s (here, known, safe) = (refl, known, safe)

  enter_scratch-Kept : (s : Process Fs) → Kept s → KeptAfter (enter_scratch os at s)
  unfolding enter_scratch
  enter_scratch-Kept s k =
      let answer = os.change_directory s.fs s.isolation.scratch in
      if_holds KeptAfter (rank_io_fault_requested at "chdir") _ _ (λ h. k)
        (λ h. after_enter-Kept answer s k)

  after_open-Kept :
      (answer : Result Bytes (Unit {0}) × Fs) (s : Process Fs)
      → Kept s
      → KeptAfter (after_open os at answer s)
  unfolding after_open Kept IsKept inside last_made AreSafe
  after_open-Kept (err e, fs) s k = k
  after_open-Kept (ok done, fs) s k = enter_scratch-Kept _ k

  create_file-Kept : (s : Process Fs) → Kept s → KeptAfter (create_file os at s)
  unfolding create_file
  create_file-Kept s k =
      let answer = os.open_append s.fs (neighbor_file s.isolation.scratch) in
      if_holds KeptAfter (rank_io_fault_requested at "file") _ _ (λ h. k)
        (λ h. after_open-Kept answer s k)

  after_mkdtemp-Kept :
      (answer : Result Bytes FilePath × Fs) (s : Process Fs)
      → Kept s
      → KeptAfter (after_mkdtemp os at answer s)
  unfolding after_mkdtemp Kept IsKept inside last_made AreSafe
  after_mkdtemp-Kept (err e, fs) s k = k
  after_mkdtemp-Kept (ok path, fs) s (here, known, safe) = create_file-Kept _ (here, inr refl, safe)

  make_scratch-Kept : (s : Process Fs) → Kept s → KeptAfter (make_scratch os at s)
  unfolding make_scratch
  make_scratch-Kept s k =
      let answer = os.mkdtemp s.fs (pattern s.isolation) in
      if_holds KeptAfter (rank_io_fault_requested at "mkdir") _ _ (λ h. k)
        (λ h. after_mkdtemp-Kept answer s k)

  after_resolve-Kept :
      (answer : Result Bytes FilePath) (s : Process Fs)
      → IsFresh s
      → KeptAfter (after_resolve os at answer s)
  unfolding after_resolve IsFresh
  after_resolve-Kept (err e) s f = fresh-Kept s f
  after_resolve-Kept (ok path) s f = make_scratch-Kept _ (fresh-Kept _ f)

  pub prepare_local_scratch-Kept :
      (s : Process Fs) → IsFresh s → KeptAfter (prepare_local_scratch os at s)
  unfolding prepare_local_scratch
  prepare_local_scratch-Kept s f = after_resolve-Kept (os.temp_directory_path s.fs) s f
