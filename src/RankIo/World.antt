-- ===== src/RankIo/World.antt =====
-- The constructor, `finish` and the destructor on all ranks. A collective of the MPI runtime takes what
-- each rank brings and gives what a rank gets; the ranks call it in the same order.
use Prim.Native.Nat.{bit_xor}
use Prim.Native.String.{String}
use dmg_md.Base.{
  ℕ, zero, suc, ◌+◌, ◌*◌, ◌-◌, ◌/◌, ◌%◌, ◌^◌, ◌==◌, ltb, Bool, true, false, ◌&&◌, not, List, [],
  ◌∷◌, ◌++◌, none, some, Result, ok, err, if◌then◌else◌, get_or,
}
use dmg_md.RunFile.{Bytes}
use dmg_md.RunFile.Text.{codes}
use dmg_md.RankIo.{FilePath, System, Place, Process, Isolation, is_no_path, is_empty_text}
use dmg_md.RankIo.Names.{
  rank_io_fault_requested, rank_io_diagnostic, to_string, is_hex_token, append_note, relative_path,
}
use dmg_md.RankIo.Local.{set_isolation, prepare_local_scratch, restore_cwd, try_delete_scratch}

-- What `RankIoIsolation` uses of `MpiRuntime`.
pub record Collectives : Type 0 where
  pub broadcast_string : (ℕ → Bytes) → ℕ → Bytes
  pub gather_strings : (ℕ → Bytes) → ℕ → List Bytes
  pub allreduce_all_passed : (ℕ → Bool) → ℕ → Bool

pub data Failure : Type 0 where
  malformed_nonce : Failure
  failed : Bytes → Failure

unfoldable pub hexadecimal : ℕ → ℕ
hexadecimal d = if ltb d 10 then b'0' + d else b'a' + (d - 10)

-- The last `count` hexadecimal digits of a number.
unfoldable pub hex_digits : ℕ → ℕ → Bytes
hex_digits zero value = []
hex_digits (suc count) value = hex_digits count (value / 16) ++ (hexadecimal (value % 16) ∷ [])

-- From the times of the two clocks, of 64 bits.
unfoldable pub make_job_nonce : ℕ → ℕ → Bytes
make_job_nonce high steady = hex_digits 16 (bit_xor (high % 2 ^ 64) (steady * 2 % 2 ^ 64))

unfoldable pub prefix_of : Bytes → ℕ → Bytes
prefix_of nonce rank = codes "dmgmd-rank-io-" ++ nonce ++ codes "-r" ++ to_string rank ++ codes "-"

abbrev pub originally : FilePath → Isolation → Isolation
originally p i = record i { original = p }

abbrev pub prefixed : Bytes → Isolation → Isolation
prefixed name i = record i { name_prefix = name }

abbrev pub activated : Bool → Isolation → Isolation
activated flag i = record i { active = flag }

unfoldable pub add_entry : Bytes → Bytes → Bytes
add_entry message entry = if is_empty_text entry then message else message ++ codes "; " ++ entry

-- The loop of `fail_together` over the first n ranks.
unfoldable pub add_entries : Bytes → List Bytes → ℕ → Bytes
add_entries message diagnostics zero = message
add_entries message diagnostics (suc n) =
    add_entry (add_entries message diagnostics n) (get_or diagnostics n [])

unfoldable pub failure_text : String → Bytes
failure_text phase = codes "rank I/O isolation " ++ codes phase ++ codes " failed"

-- The loop of `finish` that prints the warnings of the first n ranks, the last one first.
unfoldable pub warnings : List Bytes → ℕ → List Bytes
warnings diagnostics zero = []
warnings diagnostics (suc n) =
    let before = warnings diagnostics n in
    let entry = get_or diagnostics n [] in
    if is_empty_text entry
    then before
    else (codes "DMGMD_RANK_IO_CLEANUP status=warning " ++ entry) ∷ before

module _ (mpi : Collectives) where
  -- The nonce that rank r receives; only rank 0 makes one.
  unfoldable pub nonce_at : (ℕ → ℕ × ℕ) → ℕ → Bytes
  nonce_at clocks r =
      mpi.broadcast_string (λ k. if k == 0 then make_job_nonce (clocks k).0 (clocks k).1 else []) r

  module _ (world : ℕ) where
    -- The text that rank r throws, from what each rank has to say.
    unfoldable pub joint_message : String → (ℕ → Bytes) → ℕ → Bytes
    joint_message phase errors r =
        if r == 0
        then add_entries (failure_text phase) (mpi.gather_strings errors 0) world
        else failure_text phase

    unfoldable pub fail_together : String → (ℕ → Bytes) → ℕ → Bytes
    fail_together phase errors r = mpi.broadcast_string (joint_message phase errors) r

    -- What rank r prints at the end.
    unfoldable pub reported : (ℕ → Bytes) → ℕ → List Bytes
    reported errors r =
        if mpi.allreduce_all_passed (λ k. is_empty_text (errors k)) r
        then []
        else if r == 0
        then warnings (mpi.gather_strings errors 0) world
        else []

module _ {Fs : Type 0} where
  unfoldable pub captured : Place → Result Bytes FilePath → Process Fs → Bytes × Process Fs
  captured at (err e) s =
      (rank_io_diagnostic at "resolve original cwd" (relative_path "<cwd>") e, s)
  captured at (ok path) s = ([], set_isolation (originally path) s)

  abbrev pub noting : Bytes → Bytes × Process Fs → Bytes × Process Fs
  noting error (note, s) = (append_note error note, s)

module _ {Fs : Type 0} (os : System Fs) where
  unfoldable pub capture_cwd : Place → Process Fs → Bytes × Process Fs
  capture_cwd at s = if at.rank == 0 then ([], s) else captured at (os.current_path s.fs) s

  -- Phase 1, once the nonce is known: the prefix, and the preparation of a rank that has no error.
  unfoldable pub prepared : Place → Bytes → Bytes × Process Fs → Bytes × Process Fs
  prepared at nonce (error, s) =
      let named = set_isolation (prefixed (prefix_of nonce at.rank)) s in
      if not (at.rank == 0) && is_empty_text error
      then prepare_local_scratch os at named
      else (error, named)

  unfoldable pub local_setup : Place → Bytes → Process Fs → Bytes × Process Fs
  local_setup at nonce s = prepared at nonce (capture_cwd at s)

  -- After the restore of a failed setup.
  unfoldable pub after_setup_restore : Place → Bytes → Bytes × Process Fs → Bytes × Process Fs
  after_setup_restore at error (restore, s) =
      if is_empty_text restore
      then noting error (try_delete_scratch os at s)
      else if is_no_path s.isolation.scratch
      then (append_note error restore, s)
      else (
        append_note (append_note error restore) (
            rank_io_diagnostic at "keep scratch after failed cwd restore" s.isolation.scratch
              (codes "cleanup skipped")),
        s,
      )

  -- What a rank does when the setup of some rank failed.
  unfoldable pub abandon : Place → Bytes × Process Fs → Bytes × Process Fs
  abandon at (error, s) = after_setup_restore at error (restore_cwd os at (some "setup_restore") s)

  -- Phase 1 of `finish`.
  unfoldable pub leave : Place → Process Fs → Bytes × Process Fs
  leave at s =
      if not (at.rank == 0) && s.isolation.in_scratch
      then restore_cwd os at (some "restore") s
      else ([], s)

  -- Phase 2 of `finish`.
  unfoldable pub clean : Place → Process Fs → Bytes × Process Fs
  clean at s =
      if at.rank == 0
      then ([], s)
      else if rank_io_fault_requested at "cleanup"
      then (
        rank_io_diagnostic at "remove scratch directory" s.isolation.scratch (codes "injected"),
        s,
      )
      else try_delete_scratch os at s

  unfoldable pub after_unwind : Place → Bytes × Process Fs → Process Fs
  after_unwind at (restore, s) =
      if not (is_empty_text restore)
      then s
      else if is_no_path s.isolation.scratch
      then s
      else (try_delete_scratch os at s).1

  -- The destructor.
  unfoldable pub destroy : Place → Process Fs → Process Fs
  destroy at s =
      if not s.isolation.active
      then s
      else if s.isolation.in_scratch
      then after_unwind at (restore_cwd os at none s)
      else after_unwind at ([], s)

  module _ (place : ℕ → Place) where
    abbrev pub left_scratch : (ℕ → Process Fs) → ℕ → Bytes × Process Fs
    left_scratch s k = leave (place k) (s k)

    abbrev pub cleaned : (ℕ → Process Fs) → ℕ → Bytes × Process Fs
    cleaned s k = clean (place k) (left_scratch s k).1

  module _ (mpi : Collectives) (world : ℕ) where
    module _ (place : ℕ → Place) where
      -- The setup of rank r after the status of all ranks is known.
      unfoldable pub conclude :
          (ℕ → Bytes × Process Fs) → ℕ → Result Failure (Unit {0}) × Process Fs
      conclude setup r =
          let abandoned : ℕ → Bytes × Process Fs = λ k. abandon (place k) (setup k) in
          if mpi.allreduce_all_passed (λ k. is_empty_text (setup k).0) r
          then (ok tt, set_isolation (activated true) (setup r).1)
          else (
            err (failed (fail_together mpi world "setup" (λ k. (abandoned k).0) r)),
            (abandoned r).1,
          )

      -- The constructor on rank r, from the states of all ranks.
      unfoldable pub construct_isolation :
          (ℕ → ℕ × ℕ) → (ℕ → Process Fs) → ℕ → Result Failure (Unit {0}) × Process Fs
      construct_isolation clocks s r =
          if world == 1
          then (ok tt, s r)
          else if not (is_hex_token (nonce_at mpi clocks r))
          then (err malformed_nonce, (capture_cwd (place r) (s r)).1)
          else conclude (λ k. local_setup (place k) (nonce_at mpi clocks k) (s k)) r

      -- `finish` on rank r: the outcome, the warnings printed, and the state. The isolation is active
      -- on all ranks or on none.
      unfoldable pub finish_isolation :
          (ℕ → Process Fs) → ℕ → Result Failure (Unit {0}) × List Bytes × Process Fs
      finish_isolation s r =
          if not (s r).isolation.active
          then (ok tt, [], s r)
          else if mpi.allreduce_all_passed (λ k. is_empty_text (left_scratch place s k).0) r
          then (
            ok tt,
            reported mpi world (λ k. (cleaned place s k).0) r,
            set_isolation (activated false) (cleaned place s r).1,
          )
          else (
            err (failed (fail_together mpi world "restore" (λ k. (left_scratch place s k).0) r)),
            [],
            (left_scratch place s r).1,
          )
