-- ===== src/RankIo/Local.antt =====
-- `prepare_local_scratch`, `restore_cwd` and `try_delete_scratch`: the steps of one process.
use Prim.Native.String.{String}
use dmg_md.Base.{
  Bool, true, false, ◌&&◌, not, [], ◌∷◌, ◌++◌, Option, none, some, Result, ok, err, if◌then◌else◌,
}
use dmg_md.RunFile.{Bytes}
use dmg_md.RunFile.Text.{codes}
use dmg_md.RankIo.{
  FilePath, System, Place, Process, Isolation, SystemCall, made, opened, entered, returned,
  removing, no_path, is_no_path,
}
use dmg_md.RankIo.Names.{
  rank_io_fault_requested, rank_io_diagnostic, strip_trailing_separators, lexically_normal, join,
  child, same_path, parent_path, file_name, name_matches, relative_path,
}

abbrev pub entering : Isolation → Isolation
entering i = record i { in_scratch = true }

abbrev pub outside_again : Isolation → Isolation
outside_again i = record i { in_scratch = false }

abbrev pub forgetting : Isolation → Isolation
forgetting i = record i { scratch = no_path }

abbrev pub scratch_set : FilePath → Isolation → Isolation
scratch_set p i = record i { scratch = p }

abbrev pub root_set : FilePath → Isolation → Isolation
root_set p i = record i { temp_root = p }

unfoldable pub neighbor_file : FilePath → FilePath
neighbor_file scratch = child scratch (codes "neighbor.out")

unfoldable pub pattern : Isolation → FilePath
pattern i = child i.temp_root (i.name_prefix ++ codes "XXXXXX")

unfoldable pub parent_matches : Isolation → Bool
parent_matches i = same_path (parent_path i.scratch) i.temp_root

unfoldable pub scratch_named : Isolation → Bool
scratch_named i = name_matches i.name_prefix (file_name i.scratch)

-- The temporary directory without a separator at its end, from the original directory.
unfoldable pub rooted : FilePath → FilePath → FilePath
rooted original path =
    let root = strip_trailing_separators path in
    if root.absolute then root else lexically_normal (join original root)

-- Why a directory is kept.
unfoldable pub keep_reason : Isolation → String
keep_reason i =
    if not (parent_matches i)
    then "parent is not the recorded temp root"
    else if not (scratch_named i)
    then "basename does not match this rank's scratch prefix"
    else "target is not a plain directory"

module _ {Fs : Type 0} where
  abbrev pub set_fs : Fs → Process Fs → Process Fs
  set_fs fs s = record s { fs = fs }

  -- The state after a call that the system carried out.
  abbrev pub did : SystemCall → Fs → Process Fs → Process Fs
  did event fs s = record s { fs = fs; calls = event ∷ s.calls }

  abbrev pub set_isolation : (Isolation → Isolation) → Process Fs → Process Fs
  set_isolation change s = record s { isolation = change s.isolation }

module _ {Fs : Type 0} (os : System Fs) (at : Place) where
  -- After `current_path(scratch_, error)`.
  unfoldable pub after_enter : Result Bytes (Unit {0}) × Fs → Process Fs → Bytes × Process Fs
  after_enter (err e, fs) s =
      (rank_io_diagnostic at "enter scratch directory" s.isolation.scratch e, set_fs fs s)
  after_enter (ok done, fs) s =
      ([], set_isolation entering (did (entered s.isolation.scratch) fs s))

  unfoldable pub enter_scratch : Process Fs → Bytes × Process Fs
  enter_scratch s =
      if rank_io_fault_requested at "chdir"
      then (
        rank_io_diagnostic at "enter scratch directory" s.isolation.scratch (codes "injected"),
        s,
      )
      else after_enter (os.change_directory s.fs s.isolation.scratch) s

  -- After `fopen(neighbor.c_str(), "a")`, whose file is closed at once.
  unfoldable pub after_open : Result Bytes (Unit {0}) × Fs → Process Fs → Bytes × Process Fs
  after_open (err e, fs) s = (
    rank_io_diagnostic at "create scratch neighbor.out" (neighbor_file s.isolation.scratch) e,
    set_fs fs s,
  )
  after_open (ok done, fs) s = enter_scratch (did (opened (neighbor_file s.isolation.scratch)) fs s)

  unfoldable pub create_file : Process Fs → Bytes × Process Fs
  create_file s =
      if rank_io_fault_requested at "file"
      then (
        rank_io_diagnostic at "create scratch neighbor.out" (neighbor_file s.isolation.scratch)
            (codes "injected"),
        s,
      )
      else after_open (os.open_append s.fs (neighbor_file s.isolation.scratch)) s

  -- After `mkdtemp`.
  unfoldable pub after_mkdtemp : Result Bytes FilePath × Fs → Process Fs → Bytes × Process Fs
  after_mkdtemp (err e, fs) s =
      (rank_io_diagnostic at "create scratch directory" s.isolation.temp_root e, set_fs fs s)
  after_mkdtemp (ok path, fs) s =
      create_file (set_isolation (scratch_set path) (did (made path) fs s))

  unfoldable pub make_scratch : Process Fs → Bytes × Process Fs
  make_scratch s =
      if rank_io_fault_requested at "mkdir"
      then (
        rank_io_diagnostic at "create scratch directory" (pattern s.isolation) (codes "injected"),
        s,
      )
      else after_mkdtemp (os.mkdtemp s.fs (pattern s.isolation)) s

  unfoldable pub after_resolve : Result Bytes FilePath → Process Fs → Bytes × Process Fs
  after_resolve (err e) s =
      (rank_io_diagnostic at "resolve temporary directory" (relative_path "<TMPDIR>") e, s)
  after_resolve (ok path) s =
      make_scratch (set_isolation (root_set (rooted s.isolation.original path)) s)

  -- The text of the failure, empty where there is none, and the state.
  unfoldable pub prepare_local_scratch : Process Fs → Bytes × Process Fs
  prepare_local_scratch s = after_resolve (os.temp_directory_path s.fs) s

  unfoldable pub after_return : Result Bytes (Unit {0}) × Fs → Process Fs → Bytes × Process Fs
  after_return (err e, fs) s =
      (rank_io_diagnostic at "restore cwd" s.isolation.original e, set_fs fs s)
  after_return (ok done, fs) s =
      ([], set_isolation outside_again (did (returned s.isolation.original) fs s))

  unfoldable pub faulty : Option String → Bool
  faulty none = false
  faulty (some operation) = rank_io_fault_requested at operation

  unfoldable pub restore_cwd : Option String → Process Fs → Bytes × Process Fs
  restore_cwd operation s =
      if not s.isolation.in_scratch
      then ([], s)
      else if faulty operation
      then (rank_io_diagnostic at "restore cwd" s.isolation.original (codes "injected"), s)
      else after_return (os.change_directory s.fs s.isolation.original) s

  unfoldable pub deletable : Process Fs → Bool
  deletable s =
      parent_matches s.isolation
      && scratch_named s.isolation
      && os.is_plain_directory s.fs s.isolation.scratch

  -- After `remove_all(scratch_, error)`.
  unfoldable pub after_remove : Result Bytes (Unit {0}) × Fs → Process Fs → Bytes × Process Fs
  after_remove (err e, fs) s = (
    rank_io_diagnostic at "remove scratch directory" s.isolation.scratch e,
    did (removing s.isolation.scratch) fs s,
  )
  after_remove (ok done, fs) s =
      ([], set_isolation forgetting (did (removing s.isolation.scratch) fs s))

  -- The diagnostic, empty where the function returns true, and the state.
  unfoldable pub try_delete_scratch : Process Fs → Bytes × Process Fs
  try_delete_scratch s =
      if is_no_path s.isolation.scratch
      then ([], s)
      else if s.isolation.in_scratch
      then (
        rank_io_diagnostic at "scratch safety check failed; directory kept" s.isolation.scratch
            (codes "process cwd is still inside scratch"),
        s,
      )
      else if deletable s
      then after_remove (os.remove_all s.fs s.isolation.scratch) s
      else (
        rank_io_diagnostic at "scratch safety check failed; directory kept" s.isolation.scratch
            (codes (keep_reason s.isolation)),
        s,
      )
