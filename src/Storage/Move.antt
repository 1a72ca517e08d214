-- ===== src/Storage/Move.antt =====
-- storage/move.py: the atomic move of one regular file.
use software_hub.Prelude.{ℕ, Bool, true, false, not, Text, nat_beq, if◌then◌else◌}
use software_hub.Errors.{ApplicationError}
use software_hub.Io.{Raised, Io, ◌>>=◌, ◌>>◌, return, raise_when, call, ask}
use software_hub.Storage.{FilePath, Os, Metadata, Kind}
use software_hub.Storage.Paths.{storage_error, perform, safe_resolve, ensure_private_parent}

abbrev pub storage_file_mode : ℕ
storage_file_mode = 416

pub record MoveResult : Type 0 where
  pub destination : FilePath
  pub size_bytes : ℕ

-- `not stat.S_ISREG(mode)`, which a symbolic link fails too
abbrev pub is_irregular : Metadata → Bool
is_irregular m = elim m.kind [ Kind.regular ↦ false | _ ↦ true ]

-- What a move works on, once every check has passed.
pub record MovePlan : Type 0 where
  pub source : FilePath
  pub destination : FilePath
  pub parent : FilePath
  pub size_bytes : ℕ

abbrev pub unsynchronized : Raised
unsynchronized = storage_error "The storage directory could not be synchronized."

module _ {S : Type 0} (os : Os S) where
  unfoldable pub harden_file_permissions : FilePath → Io S (Unit {0})
  harden_file_permissions path = do
    metadata ← call (os.lstat path) (storage_error "Stored file permissions could not be secured.")
    raise_when (is_irregular metadata)
        (ApplicationError.storage_error "Only regular files can be stored.")
    perform (os.chmod storage_file_mode path)
        (storage_error "Stored file permissions could not be secured.")

  -- `atomic_move` up to `_fsync_file`
  unfoldable pub prepare_move : FilePath → Text → FilePath → Text → Io S MovePlan
  prepare_move source_root source_relative_path destination_root destination_relative_path = do
    source ← safe_resolve os source_root source_relative_path true true
    destination ← safe_resolve os destination_root destination_relative_path false false
    parent ← ensure_private_parent os destination_root destination_relative_path
    metadata ← call (os.lstat source) (storage_error "The source file is unavailable.")
    raise_when (is_irregular metadata)
        (ApplicationError.storage_error "Only regular files can be moved into storage.")
    here ← ask (os.exists destination)
    taken ← if here then return true else ask (os.is_symlink destination)
    raise_when taken
        (ApplicationError.storage_error "The destination storage filename already exists.")
    device ←
        call (os.device_of parent)
          (storage_error "The destination storage directory is unavailable.")
    raise_when (not (nat_beq metadata.device device))
        (ApplicationError.storage_error "Atomic storage moves require the same filesystem.")
    harden_file_permissions source
    perform (os.fsync_file source)
        (storage_error "The file could not be synchronized before moving.")
    return (record {
      source = source;
      destination = destination;
      parent = parent;
      size_bytes = metadata.size;
    })

  unfoldable pub atomic_move : FilePath → Text → FilePath → Text → Io S MoveResult
  atomic_move source_root source_relative_path destination_root destination_relative_path = do
    plan ← prepare_move source_root source_relative_path destination_root destination_relative_path
    perform (os.replace plan.source plan.destination)
        (storage_error "The file could not be moved atomically.")
    perform (os.fsync_directory plan.parent) unsynchronized
    return (record { destination = plan.destination; size_bytes = plan.size_bytes })
