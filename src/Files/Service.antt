-- ===== src/Files/Service.antt =====
-- services/file_service.py: the methods, over the rows and the disk.
use software_hub.Prelude.{
  ℕ, Bool, true, false, ◌||◌, not, Option, none, some, List, [], ◌∷◌, Text, codes, nat_beq,
  list_beq, nat_eq, contains, if◌then◌else◌, is_some, String,
}
use software_hub.Errors.{ApplicationError, Result, ok, err}
use software_hub.Unicode.{Unicode}
use software_hub.Models.{ReleaseFile, FileGraph, FileStatus, Visibility, file_status_eq}
use software_hub.Audit.{AuditAction, AuditContext}
use software_hub.Database.{Database, Transaction}
use software_hub.Io.{
  Raised, Outcome, returned, raised, Io, ◌>>=◌, ◌>>◌, return, raise, lift, raise_when, try,
}
use software_hub.Storage.{Os, StoragePaths}
use software_hub.Storage.Texts.{PosixPath, as_posix}
use software_hub.Storage.Paths.{storage_error}
use software_hub.Storage.Move.{atomic_move}
use software_hub.Storage.Hashing.{Hasher, sha256_file}
use software_hub.Storage.Lifecycle.{
  StorageArea, area_value, root_of, StoredFile, StagedDeletion, inspect_stored_files,
  locate_stored_file, stage_for_permanent_deletion, restore_staged_deletion, unlink_staged_deletion,
}
use software_hub.Files.{
  FileStorageState, FileDeletionResult, get_file_graph, file_not_found, ensure_publish_ready,
  ensure_deletable, publish_row, transition_row, verified_row, metadata_deleted,
  permanently_deleted, transitioned, visibility_set, text_value,
}

-- The rows and the disk.
pub record World (S : Type 0) : Type 0 where
  pub database : Database
  pub disk : S

-- What happens to one transaction from outside: what others have committed since the service read
-- the rows, and whether the database carries it out.
pub record Meanwhile : Type 0 where
  pub others : Database → Database
  pub commits : Bool

-- A block of storage calls acts on the disk alone.
unfoldable pub on_disk : {S A : Type 0} → Io S A → Io (World S) A
on_disk m w = let (outcome, disk) = m w.disk in (outcome, record w { disk = disk })

-- How a transaction ends: an error of its block, or of the database, rolls back.
abbrev pub settle :
    {S A : Type 0} → Bool → Database → S → Result (A × Database) → Outcome A × World S
settle commits db disk (err e) =
    (raised (Raised.application e), record { database = db; disk = disk })
settle true db disk (ok (a, db')) = (returned a, record { database = db'; disk = disk })
settle false db disk (ok (a, db')) =
    (raised Raised.database_error, record { database = db; disk = disk })

-- `with self.database.transaction()`
unfoldable pub transaction : {S A : Type 0} → Meanwhile → Transaction A → Io (World S) A
transaction meanwhile block w =
    let db = meanwhile.others w.database in settle meanwhile.commits db w.disk (block db)

-- `except Exception`: an `ApplicationError` goes on, anything else becomes a storage error.
abbrev pub translate : String → Raised → Raised
translate message (Raised.application e) = Raised.application e
translate message Raised.os_error = storage_error message
translate message Raised.database_error = storage_error message

abbrev pub incomplete : Raised
incomplete =
    storage_error "The file lifecycle action failed and storage compensation was incomplete."

abbrev pub duplicated : ApplicationError
duplicated =
    ApplicationError.storage_error "The physical file exists in multiple storage locations."

abbrev pub found_or_raise : {S : Type 0} → Option FileGraph → Io S FileGraph
found_or_raise none = raise (Raised.application file_not_found)
found_or_raise (some g) = return g

-- `except StorageError`
abbrev pub catch_storage : {S A : Type 0} → (Raised → Io S A) → Raised → Io S A
catch_storage handler (Raised.application (ApplicationError.storage_error m)) =
    handler (storage_error m)
catch_storage handler e = raise e

abbrev pub is_software : StorageArea → Bool
is_software StorageArea.quarantine = false
is_software StorageArea.software = true

module _ {S H : Type 0} (u : Unicode) (os : Os S) (hasher : Hasher H) (paths : StoragePaths) where
  -- `get`
  unfoldable pub get_file : ℕ → Io (World S) FileGraph
  get_file file_id w = found_or_raise (get_file_graph file_id w.database) w

  -- The digest of `_verified_physical_file`.
  unfoldable pub check_hash : ReleaseFile → StoredFile → Io S (Unit {0})
  check_hash f stored = do
    (digest, size_bytes) ← sha256_file hasher os stored.path
    raise_when (not (nat_beq size_bytes f.file_size_bytes) || not (list_beq digest f.sha256)) (
        ApplicationError.file_validation_error
          "The stored file checksum no longer matches its metadata.")

  -- `_verified_physical_file`
  unfoldable pub verified_physical_file : ReleaseFile → Bool → Io S StoredFile
  verified_physical_file f verify_hash = do
    stored ← locate_stored_file os paths f.relative_storage_path
    raise_when (not (nat_beq stored.size_bytes f.file_size_bytes)) (
        ApplicationError.file_validation_error
          "The stored file size no longer matches its metadata.")
    if verify_hash then check_hash f stored else return tt
    return stored

  unfoldable pub storage_state : ℕ → Io (World S) FileStorageState
  storage_state file_id = do
    g ← get_file file_id
    matches ← on_disk (inspect_stored_files os paths g.file.relative_storage_path)
    lift (elim matches [
      | [] ↦ ok (record { exists = false; area = none; size_bytes = none; size_matches = false })
      | stored ∷ rest ↦ elim rest [
        | [] ↦ ok (record {
          exists = true;
          area = some stored.area;
          size_bytes = some stored.size_bytes;
          size_matches = nat_beq stored.size_bytes g.file.file_size_bytes;
        })
        | other ∷ more ↦ err duplicated
      ]
    ])

  unfoldable pub verify_integrity : ℕ → Meanwhile → Option AuditContext → Io (World S) ReleaseFile
  verify_integrity file_id meanwhile audit = do
    g ← get_file file_id
    stored ← on_disk (verified_physical_file g.file true)
    transaction meanwhile (verified_row u file_id stored.area audit)
    return g.file

  -- `_restore_move_after_failure`
  unfoldable pub restore_move_after_failure :
      StorageArea → StorageArea → PosixPath → Io S (Unit {0})
  restore_move_after_failure source_area destination_area relative_path =
      try
        (do
          atomic_move os (root_of paths source_area) (as_posix relative_path)
              (root_of paths destination_area) (as_posix relative_path)
          return tt)
        (catch_storage (λ e. raise incomplete))

  -- The handler of `publish` and `restore_ready`: the move is undone, then the error goes on.
  unfoldable pub undo_move :
      StorageArea → StorageArea → PosixPath → String → Raised → Io (World S) ReleaseFile
  undo_move source_area destination_area relative_path message e = do
    on_disk (restore_move_after_failure source_area destination_area relative_path)
    raise (translate message e)

  unfoldable pub publish : ℕ → Meanwhile → ℕ → Option AuditContext → Io (World S) FileGraph
  publish file_id meanwhile now audit = do
    g ← get_file file_id
    lift (ensure_publish_ready u g)
    stored ← on_disk (verified_physical_file g.file true)
    raise_when (is_software stored.area) (
        ApplicationError.storage_error
          "A ready file must be located in quarantine before publication.")
    on_disk (
        atomic_move os paths.quarantine (as_posix stored.relative_path) paths.software
          (as_posix stored.relative_path))
    try (transaction meanwhile (publish_row u file_id stored.relative_path now audit)) (
        undo_move StorageArea.software StorageArea.quarantine stored.relative_path
          "File publication metadata could not be saved.")
    get_file file_id

  -- `_transition_with_storage_check`
  unfoldable pub transition_with_storage_check :
      ℕ → FileStatus → Meanwhile → ℕ → Option AuditContext → AuditAction → Io (World S) FileGraph
  transition_with_storage_check file_id target meanwhile now audit action = do
    g ← get_file file_id
    stored ← on_disk (verified_physical_file g.file false)
    transaction meanwhile (
        transition_row u file_id target now audit action
          ((codes "storage_area", text_value (area_value stored.area)) ∷ []))
    get_file file_id

  unfoldable pub disable : ℕ → Meanwhile → ℕ → Option AuditContext → Io (World S) FileGraph
  disable file_id meanwhile now audit =
      transition_with_storage_check file_id FileStatus.disabled meanwhile now audit
        AuditAction.file_disabled

  unfoldable pub archive : ℕ → Meanwhile → ℕ → Option AuditContext → Io (World S) FileGraph
  archive file_id meanwhile now audit =
      transition_with_storage_check file_id FileStatus.archived meanwhile now audit
        AuditAction.file_archived

  unfoldable pub review_status :
      ℕ → FileStatus → Meanwhile → ℕ → Option AuditContext → Io (World S) FileGraph
  review_status file_id target meanwhile now audit = do
    raise_when
        (not
          (contains (FileStatus.ready ∷ FileStatus.rejected ∷ FileStatus.quarantine ∷ []) target))
        (ApplicationError.invalid_state_transition "This status is not a manual review decision.")
    g ← get_file file_id
    stored ← on_disk (verified_physical_file g.file false)
    raise_when (is_software stored.area)
        (ApplicationError.storage_error "Files under review must remain in quarantine storage.")
    transaction meanwhile (transition_row u file_id target now audit AuditAction.file_reviewed [])
    get_file file_id

  -- The move that `restore_ready` makes of a file in permanent storage.
  unfoldable pub move_back : StoredFile → Io (World S) (Unit {0})
  move_back stored = do
    on_disk (
        atomic_move os paths.software (as_posix stored.relative_path) paths.quarantine
          (as_posix stored.relative_path))
    return tt

  unfoldable pub restore_ready : ℕ → Meanwhile → ℕ → Option AuditContext → Io (World S) FileGraph
  restore_ready file_id meanwhile now audit = do
    g ← get_file file_id
    stored ← on_disk (verified_physical_file g.file false)
    if is_software stored.area then move_back stored else return tt
    try
        (transaction meanwhile
          (transition_row u file_id FileStatus.ready now audit AuditAction.file_restored []))
        (λ e.
          if is_software stored.area
          then undo_move StorageArea.quarantine StorageArea.software stored.relative_path
              "File restore metadata could not be saved." e
          else raise (translate "File restore metadata could not be saved." e))
    get_file file_id

  -- The match that `delete_metadata` goes by: none, one, or an error.
  abbrev at_most_one : List StoredFile → Result (Option StorageArea)
  at_most_one [] = ok none
  at_most_one (stored ∷ []) = ok (some stored.area)
  at_most_one (stored ∷ other ∷ rest) = err duplicated

  unfoldable pub delete_metadata :
      ℕ → Meanwhile → Option AuditContext → Io (World S) FileDeletionResult
  delete_metadata file_id meanwhile audit = do
    g ← get_file file_id
    lift (ensure_deletable g)
    matches ← on_disk (inspect_stored_files os paths g.file.relative_storage_path)
    area ← lift (at_most_one matches)
    release_id ← transaction meanwhile (metadata_deleted u file_id area audit)
    return (record {
      file_id = file_id;
      release_id = release_id;
      physical_file_preserved = is_some area;
      storage_area = area;
    })

  -- The handler of `permanently_delete`.
  unfoldable pub undo_staging : StagedDeletion → Raised → Io (World S) ℕ
  undo_staging staged e = do
    on_disk (
        try (restore_staged_deletion os paths staged) (
          catch_storage (λ _. raise (
            storage_error
              "Permanent deletion failed and the physical file could not be restored."))))
    raise (translate "File metadata could not be permanently deleted." e)

  -- `staged_name` is the drawn name of the staged file.
  unfoldable pub permanently_delete :
      ℕ → Text → Meanwhile → Option AuditContext → Io (World S) FileDeletionResult
  permanently_delete file_id staged_name meanwhile audit = do
    g ← get_file file_id
    lift (ensure_deletable g)
    stored ← on_disk (verified_physical_file g.file false)
    staged ← on_disk (stage_for_permanent_deletion os paths staged_name stored)
    release_id ←
        try (transaction meanwhile (permanently_deleted u file_id stored audit))
          (undo_staging staged)
    on_disk (
        try (unlink_staged_deletion os paths staged) (
          catch_storage (λ _. raise (
            storage_error
              "Metadata was removed, but staged file cleanup requires operator attention."))))
    return (record {
      file_id = file_id;
      release_id = release_id;
      physical_file_preserved = false;
      storage_area = some stored.area;
    })

  -- `FileService.transition_status`
  unfoldable pub transition_file_status : ℕ → FileStatus → Meanwhile → ℕ → Io (World S) ReleaseFile
  transition_file_status file_id target meanwhile now =
      transaction meanwhile (transitioned file_id target now)

  -- `FileService.set_visibility`
  unfoldable pub set_file_visibility : ℕ → Visibility → Meanwhile → Io (World S) ReleaseFile
  set_file_visibility file_id visibility meanwhile =
      transaction meanwhile (visibility_set file_id visibility)
