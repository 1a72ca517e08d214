-- ===== src/Storage.antt =====
-- app/storage: the private directories and what is done in them. The operating system's calls are
-- no code of this repository: they are the record Os, over any state S.
pub mod Texts
pub mod Paths
pub mod Move
pub mod Lifecycle
pub mod Hashing
pub mod Lawful
pub mod Located
pub mod Alone
pub mod Memory
pub mod Moves
pub mod Faults
pub mod Tests
use software_hub.Prelude.{
  ℕ, Bool, true, false, Option, none, some, List, Text, ◌≡◌, if◌then◌else◌, list_beq, list_eq,
  nat_eq,
}

-- An absolute path, by its components below the anchor.
abbrev pub FilePath : Type 0
FilePath = List Text

pub data Kind : Type 0 where
  regular directory symlink special : Kind

-- What `lstat` gives.
pub record Metadata : Type 0 where
  pub kind : Kind
  pub size : ℕ
  pub device : ℕ

abbrev pub Bytes : Type 0
Bytes = List ℕ

-- The calls of `os` and `pathlib`. `none` and, for a call that gives no value, `false` stand for an
-- `OSError`. `contents` is no call: it says which regular file stands at a path.
pub record Os (S : Type 0) : Type 0 where
  pub resolve_strict : FilePath → S → Option FilePath × S
  pub resolve : FilePath → S → Option FilePath × S
  pub is_symlink : FilePath → S → Bool × S
  pub exists : FilePath → S → Bool × S
  pub is_dir : FilePath → S → Bool × S
  pub lstat : FilePath → S → Option Metadata × S
  pub device_of : FilePath → S → Option ℕ × S
  pub mkdir : ℕ → FilePath → S → Bool × S
  pub chmod : ℕ → FilePath → S → Bool × S
  pub fsync_file : FilePath → S → Bool × S
  pub fsync_directory : FilePath → S → Bool × S
  pub read_bytes : FilePath → S → Option Bytes × S
  pub replace : FilePath → FilePath → S → Bool × S
  pub unlink : FilePath → S → Bool × S
  pub contents : S → FilePath → Option Bytes

-- The configured roots, `StoragePaths`.
pub record StoragePaths : Type 0 where
  pub root : FilePath
  pub software : FilePath
  pub icons : FilePath
  pub imports : FilePath
  pub temporary : FilePath
  pub quarantine : FilePath
  pub backups : FilePath
