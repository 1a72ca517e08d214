-- ===== src/Storage/Lifecycle.antt =====
-- storage/lifecycle.py: where the file of a row stands, and the staging of a deletion.
use software_hub.Prelude.{ℕ, true, false, List, [], ◌∷◌, ◌++◌, Text, codes, if◌then◌else◌}
use software_hub.Errors.{ApplicationError}
use software_hub.Io.{Io, ◌>>=◌, ◌>>◌, return, raise, raise_when, call, ask}
use software_hub.Storage.{FilePath, Os, StoragePaths}
use software_hub.Storage.Texts.{PosixPath, posix_path, as_posix}
use software_hub.Storage.Paths.{storage_error, perform, safe_resolve, all_but_last}
use software_hub.Storage.Move.{is_irregular, atomic_move}

pub data StorageArea : Type 0 where
  quarantine software : StorageArea

-- `str(area)`
abbrev pub area_value : StorageArea → Text
area_value StorageArea.quarantine = codes "quarantine"
area_value StorageArea.software = codes "software"

pub record StoredFile : Type 0 where
  pub area : StorageArea
  pub root : FilePath
  pub relative_path : PosixPath
  pub path : FilePath
  pub size_bytes : ℕ

pub record StagedDeletion : Type 0 where
  pub original : StoredFile
  pub staged_relative_path : Text
  pub staged_path : FilePath

abbrev pub root_of : StoragePaths → StorageArea → FilePath
root_of paths StorageArea.quarantine = paths.quarantine
root_of paths StorageArea.software = paths.software

module _ {S : Type 0} (os : Os S) where
  -- The body of the loop of `inspect_stored_files` at a path that exists, and at any.
  unfoldable pub inspect_candidate :
      StoragePaths → StorageArea → PosixPath → FilePath → Io S (List StoredFile)
  inspect_candidate paths area relative candidate = do
    metadata ← call (os.lstat candidate) (storage_error "The stored file is unavailable.")
    raise_when (is_irregular metadata)
        (ApplicationError.storage_error "Stored release content must be a regular file.")
    return (
        record {
          area = area;
          root = root_of paths area;
          relative_path = relative;
          path = candidate;
          size_bytes = metadata.size;
        }
        ∷ [])

  unfoldable pub inspect_area : StoragePaths → StorageArea → PosixPath → Io S (List StoredFile)
  inspect_area paths area relative = do
    candidate ← safe_resolve os (root_of paths area) (as_posix relative) false true
    here ← ask (os.exists candidate)
    if here then inspect_candidate paths area relative candidate else return []

  unfoldable pub inspect_stored_files : StoragePaths → Text → Io S (List StoredFile)
  inspect_stored_files paths relative_path = do
    quarantined ← inspect_area paths StorageArea.quarantine (posix_path relative_path)
    permanent ← inspect_area paths StorageArea.software (posix_path relative_path)
    return (quarantined ++ permanent)

  -- The choice of `locate_stored_file` among the matches.
  abbrev pub only_match : List StoredFile → Io S StoredFile
  only_match [] = raise (storage_error "The physical file is missing from private storage.")
  only_match (stored ∷ []) = return stored
  only_match (stored ∷ other ∷ rest) =
      raise (storage_error "The physical file exists in multiple storage locations.")

  unfoldable pub locate_stored_file : StoragePaths → Text → Io S StoredFile
  locate_stored_file paths relative_path = do
    matches ← inspect_stored_files paths relative_path
    only_match matches

  -- `staged_name` is the drawn name below `deletions`.
  unfoldable pub stage_for_permanent_deletion :
      StoragePaths → Text → StoredFile → Io S StagedDeletion
  stage_for_permanent_deletion paths staged_name stored = do
    let staged_relative = codes "deletions/" ++ staged_name ++ codes ".delete"
    moved ←
        atomic_move os stored.root (as_posix stored.relative_path) paths.temporary staged_relative
    return (record {
      original = stored;
      staged_relative_path = staged_relative;
      staged_path = moved.destination;
    })

  unfoldable pub restore_staged_deletion : StoragePaths → StagedDeletion → Io S StoredFile
  restore_staged_deletion paths staged = do
    atomic_move os paths.temporary staged.staged_relative_path staged.original.root
        (as_posix staged.original.relative_path)
    locate_stored_file paths (as_posix staged.original.relative_path)

  unfoldable pub unlink_staged_deletion : StoragePaths → StagedDeletion → Io S (Unit {0})
  unlink_staged_deletion paths staged = do
    path ← safe_resolve os paths.temporary staged.staged_relative_path true true
    metadata ← call (os.lstat path) (storage_error "The staged file is unavailable.")
    raise_when (is_irregular metadata)
        (ApplicationError.storage_error "Only a staged regular file can be permanently deleted.")
    perform (os.unlink path) (storage_error "The staged file could not be permanently deleted.")
    perform (os.fsync_directory (all_but_last path))
        (storage_error "The staged file could not be permanently deleted.")
