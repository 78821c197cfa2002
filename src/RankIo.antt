-- ===== src/RankIo.antt =====
-- src/runtime_internal.hpp, `RankIoIsolation`: each rank but the first works inside a private
-- directory, which it leaves and deletes at the end. Here its state, and the calls it makes of the
-- operating system.
pub mod Names
pub mod Local
pub mod Safe
pub mod Kept
pub mod World
pub mod Agree
pub mod Lives
pub mod Outside
pub mod Decimal
use dmg_md.Base.{ℕ, Bool, true, false, ◌&&◌, not, List, [], ◌∷◌, Option, none, some, Result}
use dmg_md.RunFile.{Bytes}

-- `std::filesystem::path` by its components; an empty last one is a separator at the end.
pub record FilePath : Type 0 where
  pub absolute : Bool
  pub parts : List Bytes

abbrev pub no_path : FilePath
no_path = record { absolute = false; parts = [] }

abbrev pub no_parts : List Bytes → Bool
no_parts [] = true
no_parts (p ∷ ps) = false

-- `path.empty()`.
abbrev pub is_no_path : FilePath → Bool
is_no_path p = not p.absolute && no_parts p.parts

-- `text.empty()`.
abbrev pub is_empty_text : Bytes → Bool
is_empty_text [] = true
is_empty_text (b ∷ bs) = false

-- The members of the class, without the communicator.
pub record Isolation : Type 0 where
  pub original : FilePath
  pub temp_root : FilePath
  pub scratch : FilePath
  pub name_prefix : Bytes
  pub in_scratch : Bool
  pub active : Bool

abbrev pub new_isolation : Isolation
new_isolation = record {
  original = no_path;
  temp_root = no_path;
  scratch = no_path;
  name_prefix = [];
  in_scratch = false;
  active = false;
}

-- The calls of a process that changed the file system or its directory; a removal also when it fails.
pub data SystemCall : Type 0 where
  made : FilePath → SystemCall
  opened : FilePath → SystemCall
  entered : FilePath → SystemCall
  returned : FilePath → SystemCall
  removing : FilePath → SystemCall

-- What the class uses of the operating system, on a state `Fs` of the file system and the process;
-- an error is its text.
pub record System (Fs : Type 0) : Type 1 where
  pub current_path : Fs → Result Bytes FilePath
  pub temp_directory_path : Fs → Result Bytes FilePath
  pub mkdtemp : Fs → FilePath → Result Bytes FilePath × Fs
  pub open_append : Fs → FilePath → Result Bytes (Unit {0}) × Fs
  pub change_directory : Fs → FilePath → Result Bytes (Unit {0}) × Fs
  pub is_plain_directory : Fs → FilePath → Bool
  pub remove_all : Fs → FilePath → Result Bytes (Unit {0}) × Fs

-- Where a process runs: its rank, its host, and the variable DMGMD_RANK_IO_FAULT.
pub record Place : Type 0 where
  pub rank : ℕ
  pub hostname : Bytes
  pub fault : Option Bytes

-- A process: the state of the system, its isolation, and its calls, the last one first.
pub record Process (Fs : Type 0) : Type 0 where
  pub fs : Fs
  pub calls : List SystemCall
  pub isolation : Isolation
