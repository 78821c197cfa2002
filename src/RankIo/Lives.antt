-- ===== src/RankIo/Lives.antt =====
-- The calls of a process over the life of the object.
use dmg_md.Base.{
  ℕ, Bool, ◌&&◌, not, List, [], Result, ok, err, if◌then◌else◌, if_holds, ◌==◌, some, none,
}
use dmg_md.RunFile.{Bytes}
use dmg_md.RankIo.{FilePath, System, Place, Process, is_empty_text, is_no_path}
use dmg_md.RankIo.Names.{rank_io_fault_requested, is_hex_token}
use dmg_md.RankIo.Local.{restore_cwd, try_delete_scratch, set_isolation}
use dmg_md.RankIo.Kept.{restore_cwd-Kept, try_delete_scratch-Kept, prepare_local_scratch-Kept}
use dmg_md.RankIo.Safe.{AreSafe, Kept, KeptAfter, IsFresh, IsKept, fresh-Kept}
use dmg_md.RankIo.World.{
  Collectives, captured, capture_cwd, prepared, local_setup, after_setup_restore, abandon, leave,
  clean, after_unwind, destroy, conclude, nonce_at, construct_isolation, finish_isolation,
  prefix_of, prefixed, noting, Failure,
}

module _ {Fs : Type 0} where
  abbrev pub IsFreshAfter : Bytes × Process Fs → Type 0
  IsFreshAfter result = IsFresh result.1

  captured-IsFresh :
      (at : Place) (answer : Result Bytes FilePath) (s : Process Fs)
      → IsFresh s
      → IsFreshAfter (captured at answer s)
  unfolding captured IsFresh
  captured-IsFresh at (err e) s f = f
  captured-IsFresh at (ok path) s f = f

  noting-Kept :
      (error : Bytes) (result : Bytes × Process Fs)
      → KeptAfter result
      → KeptAfter (noting error result)
  noting-Kept error (note, s) k = k

module _ {Fs : Type 0} (os : System Fs) (at : Place) where
  pub capture_cwd-IsFresh : (s : Process Fs) → IsFresh s → IsFreshAfter (capture_cwd os at s)
  unfolding capture_cwd
  capture_cwd-IsFresh s f =
      if_holds IsFreshAfter (at.rank == 0) _ _ (λ h. f)
        (λ h. captured-IsFresh at (os.current_path s.fs) s f)

  prepared-Kept :
      (nonce : Bytes) (result : Bytes × Process Fs)
      → IsFreshAfter result
      → KeptAfter (prepared os at nonce result)
  unfolding prepared IsFresh
  prepared-Kept nonce (error, s) f =
      let named = set_isolation (prefixed (prefix_of nonce at.rank)) s in
      if_holds KeptAfter (not (at.rank == 0) && is_empty_text error) _ _
        (λ h. prepare_local_scratch-Kept os at named f) (λ h. fresh-Kept named f)

  pub local_setup-Kept :
      (nonce : Bytes) (s : Process Fs) → IsFresh s → KeptAfter (local_setup os at nonce s)
  unfolding local_setup
  local_setup-Kept nonce s f = prepared-Kept nonce (capture_cwd os at s) (capture_cwd-IsFresh s f)

  after_setup_restore-Kept :
      (error : Bytes) (result : Bytes × Process Fs)
      → KeptAfter result
      → KeptAfter (after_setup_restore os at error result)
  unfolding after_setup_restore
  after_setup_restore-Kept error (restore, s) k =
      if_holds KeptAfter (is_empty_text restore) _ _
        (λ h. noting-Kept error (try_delete_scratch os at s) (try_delete_scratch-Kept os at s k))
        (λ h. if_holds KeptAfter (is_no_path s.isolation.scratch) _ _ (λ e. k) (λ e. k))

  pub abandon-Kept :
      (result : Bytes × Process Fs) → KeptAfter result → KeptAfter (abandon os at result)
  unfolding abandon
  abandon-Kept (error, s) k =
      after_setup_restore-Kept error (restore_cwd os at (some "setup_restore") s)
        (restore_cwd-Kept os at (some "setup_restore") s k)

  pub leave-Kept : (s : Process Fs) → Kept s → KeptAfter (leave os at s)
  unfolding leave
  leave-Kept s k =
      if_holds KeptAfter (not (at.rank == 0) && s.isolation.in_scratch) _ _
        (λ h. restore_cwd-Kept os at (some "restore") s k) (λ h. k)

  pub clean-Kept : (s : Process Fs) → Kept s → KeptAfter (clean os at s)
  unfolding clean
  clean-Kept s k =
      if_holds KeptAfter (at.rank == 0) _ _ (λ h. k)
        (λ h.
          if_holds KeptAfter (rank_io_fault_requested at "cleanup") _ _ (λ f. k)
            (λ f. try_delete_scratch-Kept os at s k))

  after_unwind-Kept :
      (result : Bytes × Process Fs) → KeptAfter result → Kept (after_unwind os at result)
  unfolding after_unwind
  after_unwind-Kept (restore, s) k =
      if_holds Kept (not (is_empty_text restore)) _ _ (λ h. k)
        (λ h.
          if_holds Kept (is_no_path s.isolation.scratch) _ _ (λ e. k)
            (λ e. try_delete_scratch-Kept os at s k))

  pub destroy-Kept : (s : Process Fs) → Kept s → Kept (destroy os at s)
  unfolding destroy
  destroy-Kept s k =
      if_holds Kept (not s.isolation.active) _ _ (λ h. k)
        (λ h.
          if_holds Kept s.isolation.in_scratch _ _
            (λ e. after_unwind-Kept (restore_cwd os at none s) (restore_cwd-Kept os at none s k))
            (λ e. after_unwind-Kept ([], s) k))

module _ {Fs : Type 0} (os : System Fs) (mpi : Collectives) (world : ℕ) (place : ℕ → Place) where
  KeptOf : Result Failure (Unit {0}) × Process Fs → Type 0
  KeptOf result = Kept result.1

  conclude-Kept :
      (setup : ℕ → Bytes × Process Fs) (r : ℕ)
      → KeptAfter (setup r)
      → KeptOf (conclude os mpi world place setup r)
  unfolding conclude KeptOf Kept IsKept
  conclude-Kept setup r k =
      if_holds KeptOf (mpi.allreduce_all_passed (λ j. is_empty_text (setup j).0) r) _ _ (λ h. k)
        (λ h. abandon-Kept os (place r) (setup r) k)

  pub construct_isolation-Kept :
      (clocks : ℕ → ℕ × ℕ) (s : ℕ → Process Fs) (r : ℕ)
      → IsFresh (s r)
      → Kept (construct_isolation os mpi world place clocks s r).1
  unfolding construct_isolation KeptOf
  construct_isolation-Kept clocks s r f =
      let kept : Kept (capture_cwd os (place r) (s r)).1 =
        fresh-Kept _ (capture_cwd-IsFresh os (place r) (s r) f) in
      if_holds KeptOf (world == 1) _ _ (λ h. fresh-Kept (s r) f)
        (λ h.
          if_holds KeptOf (not (is_hex_token (nonce_at mpi clocks r))) _ _ (λ e. kept)
            (λ e.
              conclude-Kept (λ k. local_setup os (place k) (nonce_at mpi clocks k) (s k)) r
                (local_setup-Kept os (place r) (nonce_at mpi clocks r) (s r) f)))

  KeptLast : Result Failure (Unit {0}) × List Bytes × Process Fs → Type 0
  KeptLast result = Kept result.2

  pub finish_isolation-Kept :
      (s : ℕ → Process Fs) (r : ℕ) → Kept (s r) → Kept (finish_isolation os mpi world place s r).2
  unfolding finish_isolation KeptLast Kept IsKept
  finish_isolation-Kept s r k =
      let out = leave-Kept os (place r) (s r) k in
      if_holds KeptLast (not (s r).isolation.active) _ _ (λ h. k)
        (λ h.
          if_holds KeptLast
            (mpi.allreduce_all_passed (λ j. is_empty_text (leave os (place j) (s j)).0) r) _ _
            (λ e. clean-Kept os (place r) _ out) (λ e. out))

  -- The state of rank r at the end of the object's life; `finish` is reached unless something between
  -- throws.
  unfoldable pub life : Bool → (ℕ → ℕ × ℕ) → (ℕ → Process Fs) → ℕ → Process Fs
  life finishes clocks s r =
      let built : ℕ → Process Fs = λ k. (construct_isolation os mpi world place clocks s k).1 in
      if finishes
      then destroy os (place r) (finish_isolation os mpi world place built r).2
      else destroy os (place r) (built r)

  -- Over the life of the object, whatever the system answers and the ranks exchange, a process that had
  -- made no call removes no path but the directory that it made last, which stands in the temporary
  -- directory, is named by the prefix of the job and six characters, and is not where the process
  -- stands at that time.
  pub life-AreSafe :
      (finishes : Bool) (clocks : ℕ → ℕ × ℕ) (s : ℕ → Process Fs) (r : ℕ)
      → ((k : ℕ) → IsFresh (s k))
      → let i = (life finishes clocks s r).isolation in
        AreSafe i.temp_root i.name_prefix (life finishes clocks s r).calls
  unfolding life Kept IsKept
  life-AreSafe finishes clocks s r fresh =
      let built : ℕ → Process Fs = λ k. (construct_isolation os mpi world place clocks s k).1 in
      let kept : (k : ℕ) → Kept (built k) = λ k. construct_isolation-Kept clocks s k (fresh k) in
      let (here, known, safe) =
        if_holds Kept finishes _ _
          (λ h. destroy-Kept os (place r) _ (finish_isolation-Kept built r (kept r)))
          (λ h. destroy-Kept os (place r) (built r) (kept r)) in
      safe
