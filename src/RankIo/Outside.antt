-- ===== src/RankIo/Outside.antt =====
-- Where `finish` leaves the ranks.
use Prim.Native.String.{String}
use dmg_md.Base.{
  ℕ, zero, suc, ◌<◌, ◌==◌, Bool, true, false, ◌&&◌, not, List, [], ◌++◌, Result, ok, err, ◌≡◌, refl,
  ◌↔◌, ◌⊎◌, inl, inr, arith, ap, sym, ◌∙◌, if_holds, Bool-cases, get_or, Option, some, subst,
}
use dmg_md.RunFile.{Bytes}
use dmg_md.RunFile.Text.{codes}
use dmg_md.RankIo.{FilePath, System, Place, Process, is_empty_text, is_no_path}
use dmg_md.RankIo.Names.{rank_io_diagnostic, rank_io_fault_requested}
use dmg_md.RankIo.Local.{
  after_return, restore_cwd, after_remove, deletable, try_delete_scratch, set_isolation, faulty,
}
use dmg_md.RankIo.Safe.{inside, Kept, IsKept}
use dmg_md.RankIo.World.{
  Collectives, leave, clean, left_scratch, cleaned, finish_isolation, reported, warnings, activated,
  Failure,
}
use dmg_md.RankIo.Lives.{leave-Kept, clean-Kept}

rank_io_diagnostic_text :
    (at : Place) (operation : String) (target : FilePath) (reason : Bytes)
    → is_empty_text (rank_io_diagnostic at operation target reason) ≡ false
unfolding rank_io_diagnostic
rank_io_diagnostic_text at operation target reason = refl

never : {A : Type 0} (t : Bool) → t ≡ false → t ≡ true → A
never t e h = absurd (cc)

module _ {Fs : Type 0} where
  -- A step that ends without an error ends outside, or with no directory; and a step that ends outside.
  abbrev pub IsOutUnless : Bytes × Process Fs → Type 0
  IsOutUnless r = is_empty_text r.0 ≡ true → r.1.isolation.in_scratch ≡ false

  abbrev pub IsGoneUnless : Bytes × Process Fs → Type 0
  IsGoneUnless r = is_empty_text r.0 ≡ true → is_no_path r.1.isolation.scratch ≡ true

  abbrev pub IsOut : Bytes × Process Fs → Type 0
  IsOut r = r.1.isolation.in_scratch ≡ false

module _ {Fs : Type 0} (os : System Fs) (at : Place) where
  after_return-IsOutUnless :
      (answer : Result Bytes (Unit {0}) × Fs) (s : Process Fs)
      → IsOutUnless (after_return os at answer s)
  unfolding after_return
  after_return-IsOutUnless (err e, fs) s =
      never _ (rank_io_diagnostic_text at "restore cwd" s.isolation.original e)
  after_return-IsOutUnless (ok done, fs) s = λ h. refl

  restore_cwd-IsOutUnless :
      (operation : Option String) (s : Process Fs) → IsOutUnless (restore_cwd os at operation s)
  unfolding restore_cwd
  restore_cwd-IsOutUnless operation s =
      let answer = os.change_directory s.fs s.isolation.original in
      let injected =
        rank_io_diagnostic_text at "restore cwd" s.isolation.original (codes "injected") in
      if_holds IsOutUnless (not s.isolation.in_scratch) _ _ (λ h. λ e. ground arith)
        (λ h.
          if_holds IsOutUnless (faulty os at operation) _ _ (λ f. never _ injected)
            (λ f. after_return-IsOutUnless answer s))

  pub leave-IsOutUnless : (s : Process Fs) → (at.rank == 0) ≡ false → IsOutUnless (leave os at s)
  unfolding leave
  leave-IsOutUnless s other =
      if_holds IsOutUnless (not (at.rank == 0) && s.isolation.in_scratch) _ _
        (λ h. restore_cwd-IsOutUnless (some "restore") s) (λ h. λ e. ground arith)

  after_remove-IsGoneUnless :
      (answer : Result Bytes (Unit {0}) × Fs) (s : Process Fs)
      → IsGoneUnless (after_remove os at answer s)
        × (s.isolation.in_scratch ≡ false → IsOut (after_remove os at answer s))
  unfolding after_remove
  after_remove-IsGoneUnless (err e, fs) s = (
    never _ (rank_io_diagnostic_text at "remove scratch directory" s.isolation.scratch e),
    λ h. h,
  )
  after_remove-IsGoneUnless (ok done, fs) s = (λ h. refl, λ h. h)

  try_delete_scratch-IsGoneUnless : (s : Process Fs) → IsGoneUnless (try_delete_scratch os at s)
  unfolding try_delete_scratch
  try_delete_scratch-IsGoneUnless s =
      let kept =
        rank_io_diagnostic_text at "scratch safety check failed; directory kept"
          s.isolation.scratch in
      let answer = os.remove_all s.fs s.isolation.scratch in
      if_holds IsGoneUnless (is_no_path s.isolation.scratch) _ _ (λ h. λ e. h)
        (λ h.
          if_holds IsGoneUnless s.isolation.in_scratch _ _ (λ f. never _ (kept _))
            (λ f.
              if_holds IsGoneUnless (deletable os at s) _ _
                (λ d. (after_remove-IsGoneUnless answer s).0) (λ d. never _ (kept _))))

  try_delete_scratch-IsOut :
      (s : Process Fs) → s.isolation.in_scratch ≡ false → IsOut (try_delete_scratch os at s)
  unfolding try_delete_scratch
  try_delete_scratch-IsOut s out =
      let answer = os.remove_all s.fs s.isolation.scratch in
      if_holds IsOut (is_no_path s.isolation.scratch) _ _ (λ h. out)
        (λ h.
          if_holds IsOut s.isolation.in_scratch _ _ (λ f. out)
            (λ f.
              if_holds IsOut (deletable os at s) _ _
                (λ d. (after_remove-IsGoneUnless answer s).1 out) (λ d. out)))

  pub clean-IsGoneUnless : (s : Process Fs) → (at.rank == 0) ≡ false → IsGoneUnless (clean os at s)
  unfolding clean
  clean-IsGoneUnless s other =
      let injected = rank_io_diagnostic_text at "remove scratch directory" s.isolation.scratch in
      if_holds IsGoneUnless (at.rank == 0) _ _ (λ h. never _ other h)
        (λ h.
          if_holds IsGoneUnless (rank_io_fault_requested at "cleanup") _ _
            (λ f. never _ (injected _)) (λ f. try_delete_scratch-IsGoneUnless s))

  pub clean-IsOut : (s : Process Fs) → s.isolation.in_scratch ≡ false → IsOut (clean os at s)
  unfolding clean
  clean-IsOut s out =
      if_holds IsOut (at.rank == 0) _ _ (λ h. out)
        (λ h.
          if_holds IsOut (rank_io_fault_requested at "cleanup") _ _ (λ f. out)
            (λ f. try_delete_scratch-IsOut s out))

-- The line that rank 0 prints for a diagnostic.
unfoldable pub warning_line : Bytes → Bytes
warning_line entry = codes "DMGMD_RANK_IO_CLEANUP status=warning " ++ entry

abbrev pub IsPrinted : Bytes → List Bytes → Type 0
IsPrinted line lines = (i : ℕ) × (get_or lines i [] ≡ line)

warnings-IsPrinted :
    (diagnostics : List Bytes) (world k : ℕ)
    → k < world
    → is_empty_text (get_or diagnostics k []) ≡ false
    → IsPrinted (warning_line (get_or diagnostics k [])) (warnings diagnostics world)
unfolding warnings warning_line
warnings-IsPrinted diagnostics zero k below some_text = absurd (omega arith)
warnings-IsPrinted diagnostics (suc n) k below some_text =
    let rest = warnings diagnostics n in
    elim (Bool-cases (k == n)) [
      | inl same ↦
          let at_n : k ≡ n = ground arith in
          if_holds (IsPrinted (warning_line (get_or diagnostics k [])))
            (is_empty_text (get_or diagnostics n [])) _ _
            (λ h.
              never _ (ap (λ i. is_empty_text (get_or diagnostics i [])) (sym at_n) ∙ some_text) h)
            (λ h. (0, ap (λ i. warning_line (get_or diagnostics i [])) (sym at_n)))
      | inr other ↦
          let (i, found) = warnings-IsPrinted diagnostics n k (ground arith) some_text in
          if_holds (IsPrinted (warning_line (get_or diagnostics k [])))
            (is_empty_text (get_or diagnostics n [])) _ _ (λ h. (i, found)) (λ h. (suc i, found))
    ]

module _ {Fs : Type 0} (os : System Fs) (mpi : Collectives) (world : ℕ) (place : ℕ → Place)
    (gathers : (texts : ℕ → Bytes) (k : ℕ)
      → k < world
      → get_or (mpi.gather_strings texts 0) k [] ≡ texts k)
    (reduces : (flags : ℕ → Bool) (r : ℕ)
      → (mpi.allreduce_all_passed flags r ≡ true) ↔ ((k : ℕ) → k < world → flags k ≡ true)) where
  reported-IsPrinted :
      (errors : ℕ → Bytes) (k : ℕ)
      → k < world
      → is_empty_text (errors k) ≡ false
      → IsPrinted (warning_line (errors k)) (reported mpi world errors 0)
  unfolding reported
  reported-IsPrinted errors k below some_text =
      let flags : ℕ → Bool = λ j. is_empty_text (errors j) in
      let same = gathers errors k below in
      let line =
        warnings-IsPrinted (mpi.gather_strings errors 0) world k below
          (ap is_empty_text same ∙ some_text) in
      if_holds (IsPrinted (warning_line (errors k))) (mpi.allreduce_all_passed flags 0) _ _
        (λ h. never _ some_text ((reduces flags 0).0 h k below))
        (λ h.
          subst (λ e. IsPrinted (warning_line e) (warnings (mpi.gather_strings errors 0) world))
            same line)

  -- `finish` of an active rank whose outcome is a return went through the three phases.
  IsFinished : (ℕ → Process Fs) → ℕ → Result Failure (Unit {0}) × List Bytes × Process Fs → Type 0
  IsFinished s r (result, lines, last) =
      result ≡ ok tt
      → (mpi.allreduce_all_passed (λ k. is_empty_text (left_scratch os place s k).0) r ≡ true)
        × (lines ≡ reported mpi world (λ k. (cleaned os place s k).0) r)
        × (last ≡ set_isolation (activated false) (cleaned os place s r).1)

  finish_isolation-IsFinished :
      (s : ℕ → Process Fs) (r : ℕ)
      → (s r).isolation.active ≡ true
      → IsFinished s r (finish_isolation os mpi world place s r)
  unfolding finish_isolation IsFinished
  finish_isolation-IsFinished s r busy =
      if_holds (IsFinished s r) (not (s r).isolation.active) _ _ (λ idle. absurd (ground arith))
        (λ _.
          if_holds (IsFinished s r)
            (mpi.allreduce_all_passed (λ k. is_empty_text (left_scratch os place s k).0) r) _ _
            (λ passed. λ h. (passed, refl, refl)) (λ _. λ h. absurd (cc)))

  -- When place j is that of rank j, the state of each process agrees with its calls, the gather gives
  -- rank 0 the text of each rank, a reduction is true on a rank exactly if all ranks passed, and
  -- `finish` of an active object returns on all ranks, then each rank but the first stands outside its scratch directory, and either has no such directory any more or has its
  -- diagnostic in a warning that rank 0 prints.
  pub finish_isolation-outside :
      (s : ℕ → Process Fs) (k : ℕ)
      → 0 < k
      → k < world
      → ((j : ℕ) → (place j).rank ≡ j)
      → ((j : ℕ) → Kept (s j))
      → ((j : ℕ) → (s j).isolation.active ≡ true)
      → ((j : ℕ) → (finish_isolation os mpi world place s j).0 ≡ ok tt)
      → (inside (finish_isolation os mpi world place s k).2.calls ≡ false)
        × ((is_no_path (finish_isolation os mpi world place s k).2.isolation.scratch ≡ true)
            ⊎ IsPrinted
                (warning_line (cleaned os place s k).0)
                (finish_isolation os mpi world place s 0).1)
  unfolding Kept IsKept IsFinished
  finish_isolation-outside s k some_rank below ranks kept busy returns =
      let (passed, _, last) = finish_isolation-IsFinished s k (busy k) (returns k) in
      let (_, lines, _) = finish_isolation-IsFinished s 0 (busy 0) (returns 0) in
      let own = ranks k in
      let other : ((place k).rank == 0) ≡ false = ground arith in
      let clear = (reduces (λ j. is_empty_text (left_scratch os place s j).0) k).0 passed k below in
      let out =
        clean-IsOut os (place k) (left_scratch os place s k).1
          (leave-IsOutUnless os (place k) (s k) other clear) in
      let (here, known, safe) =
        clean-Kept os (place k) _ (leave-Kept os (place k) (s k) (kept k)) in
      (
        ap (λ p. inside p.calls) last ∙ here ∙ out,
        elim (Bool-cases (is_empty_text (cleaned os place s k).0)) [
          | inl gone ↦ inl (
              ap (λ p. is_no_path p.isolation.scratch) last
              ∙ clean-IsGoneUnless os (place k) (left_scratch os place s k).1 other gone)
          | inr warned ↦ inr (
              subst (IsPrinted (warning_line (cleaned os place s k).0)) (sym lines)
                (reported-IsPrinted (λ j. (cleaned os place s j).0) k below warned))
        ],
      )
