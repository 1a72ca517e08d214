-- ===== src/Files.antt =====
-- services/file_service.py over repositories/release_file_repository.py: the metadata of a release
-- file and what happens to its bytes. A read of the rows does not fail here; a transaction may.
pub mod Service
pub mod Graphs
pub mod Effects
pub mod Verified
pub mod Compensation
pub mod Publish
pub mod Restore
pub mod Staging
pub mod DeletedRows
pub mod Delete
pub mod Tests
use software_hub.Prelude.{
  ℕ, Bool, true, false, ◌&&◌, ◌||◌, not, Option, none, some, List, [], ◌∷◌, ◌++◌, Text, codes,
  nat_beq, list_beq, nat_eq, ◌==◌, ◌!=◌, contains, get_row, set_row, delete_row, filter_rows,
  if◌then◌else◌, is_some, String,
}
use software_hub.Errors.{ApplicationError, Result, ok, err, ◌>>=◌, ◌>>◌, raise_if, or_raise}
use software_hub.Unicode.{Unicode}
use software_hub.Models.{
  ReleaseFile, Release, Software, FileGraph, DownloadStat, FileStatus, ReleaseStatus,
  SoftwareStatus, ScannerStatus, Visibility, file_status_eq, release_status_eq, software_status_eq,
  scanner_status_eq, file_status_value,
}
use software_hub.Policies.{apply_file_transition, published_or_hidden}
use software_hub.Signatures.{SignatureAssessment, assess_stored_signature}
use software_hub.Audit.{
  AuditAction, AuditContext, Metadata, Scalar, Value, append_context_audit_event,
}
use software_hub.Database.{Database, Transaction}
use software_hub.Storage.Texts.{PosixPath, as_posix}
use software_hub.Storage.Lifecycle.{StorageArea, area_value, StoredFile}

pub record FileStorageState : Type 0 where
  pub exists : Bool
  pub area : Option StorageArea
  pub size_bytes : Option ℕ
  pub size_matches : Bool

pub record FileDeletionResult : Type 0 where
  pub file_id : ℕ
  pub release_id : ℕ
  pub physical_file_preserved : Bool
  pub storage_area : Option StorageArea

abbrev pub file_id_of : ReleaseFile → ℕ
file_id_of f = f.id

-- `get_with_graph`: the file with its parents, which the foreign keys make present.
unfoldable pub get_file_graph : ℕ → Database → Option FileGraph
get_file_graph i db = elim (get_row file_id_of i db.files) [
  | none ↦ none
  | some f ↦ elim (get_row (λ (r : Release). r.id) f.release_id db.releases) [
    | none ↦ none
    | some r ↦ elim (get_row (λ (s : Software). s.id) r.software_id db.software) [
      | none ↦ none
      | some s ↦ some (record { file = f; release = r; software = s })
    ]
  ]
]

abbrev pub file_not_found : ApplicationError
file_not_found = ApplicationError.entity_not_found "Release file not found."

abbrev pub put_file : ReleaseFile → Database → Database
put_file f db = record db { files = set_row file_id_of f.id f db.files }

-- `repository.delete`: the counters of the file go with it, `ON DELETE CASCADE`.
abbrev pub remove_file : ℕ → Database → Database
remove_file i db = record db {
  files = delete_row file_id_of i db.files;
  download_stats =
      filter_rows (λ (d : DownloadStat). not (nat_beq d.release_file_id i)) db.download_stats;
}

abbrev pub log_file :
    Unicode → Option AuditContext → AuditAction → ℕ → Metadata → Database → Database
log_file u audit action i metadata db = record db {
  audit_log =
      append_context_audit_event u audit action (codes "release_file") i metadata db.audit_log;
}

abbrev text_value : Text → Value
text_value t = Value.scalar (Scalar.text t)

abbrev status_text : FileStatus → Value
status_text s = text_value (codes (file_status_value s))

-- `_ensure_publish_ready`
unfoldable pub ensure_publish_ready : Unicode → FileGraph → Result (Unit {0})
ensure_publish_ready u g =
    if g.file.status != FileStatus.ready
    then err (ApplicationError.invalid_state_transition "Only a ready file can be published.")
    else elim (assess_stored_signature u g.file.file_extension g.file.detected_mime_type) [
      | SignatureAssessment.matching ↦
          if g.release.status != ReleaseStatus.published
          then err (
              ApplicationError.invalid_state_transition
                "The parent release must be published first.")
          else if not (contains published_or_hidden g.software.status)
          then err (
              ApplicationError.invalid_state_transition
                "The parent software must be published or hidden first.")
          else if not (
              contains (ScannerStatus.clean ∷ ScannerStatus.unavailable ∷ []) g.file.scanner_status)
          then err (
              ApplicationError.invalid_state_transition
                "The scanner result must be clean or unavailable before publication.")
          else ok tt
      | _ ↦ err (
          ApplicationError.file_validation_error
            "The stored file signature is not approved for publication.")
    ]

-- `_ensure_deletable`
unfoldable pub ensure_deletable : FileGraph → Result (Unit {0})
ensure_deletable g =
    if g.file.status == FileStatus.published
    then err (
        ApplicationError.invalid_state_transition
          "Disable or archive a published file before deletion.")
    else ok tt

-- The block of `publish` under the transaction.
unfoldable pub publish_row :
    Unicode → ℕ → PosixPath → ℕ → Option AuditContext → Transaction ReleaseFile
publish_row u file_id relative_path now audit db = do
  current ← or_raise (get_file_graph file_id db) file_not_found
  ensure_publish_ready u current
  raise_if (not (list_beq current.file.relative_storage_path (as_posix relative_path)))
      (ApplicationError.storage_error "File metadata changed during publication.")
  published ← apply_file_transition current FileStatus.published now
  let row = record published { relative_storage_path = as_posix relative_path }
  ok (
    row,
    log_file u audit AuditAction.file_published current.file.id
        ((codes "release_id", Value.scalar (Scalar.int current.file.release_id))
          ∷ (codes "storage_area", text_value (area_value StorageArea.software))
          ∷ [])
        (put_file row db),
  )

-- The block of `review_status`, `restore_ready` and `_transition_with_storage_check`; `more` is what
-- the last adds to the metadata.
unfoldable pub transition_row :
    Unicode
    → ℕ
    → FileStatus
    → ℕ
    → Option AuditContext
    → AuditAction
    → Metadata
    → Transaction ReleaseFile
transition_row u file_id target now audit action more db = do
  current ← or_raise (get_file_graph file_id db) file_not_found
  row ← apply_file_transition current target now
  ok (
    row,
    log_file u audit action current.file.id
        ((codes "from", status_text current.file.status) ∷ (codes "to", status_text target) ∷ more)
        (put_file row db),
  )

-- The block of `verify_integrity`.
unfoldable pub verified_row :
    Unicode → ℕ → StorageArea → Option AuditContext → Transaction (Unit {0})
verified_row u file_id area audit db = do
  current ← or_raise (get_file_graph file_id db) file_not_found
  ok (
    tt,
    log_file u audit AuditAction.file_verified current.file.id
        ((codes "storage_area", text_value (area_value area)) ∷ []) db,
  )

abbrev area_or_null : Option StorageArea → Value
area_or_null none = Value.scalar Scalar.null
area_or_null (some area) = text_value (area_value area)

-- The block of `delete_metadata`, which gives the release of the deleted row.
unfoldable pub metadata_deleted :
    Unicode → ℕ → Option StorageArea → Option AuditContext → Transaction ℕ
metadata_deleted u file_id area audit db = do
  current ← or_raise (get_file_graph file_id db) file_not_found
  ensure_deletable current
  ok (
    current.file.release_id,
    log_file u audit AuditAction.file_metadata_deleted file_id
        ((codes "release_id", Value.scalar (Scalar.int current.file.release_id))
          ∷ (codes "physical_file_preserved", Value.scalar (Scalar.bool (is_some area)))
          ∷ (codes "storage_area", area_or_null area)
          ∷ [])
        (remove_file current.file.id db),
  )

-- The block of `permanently_delete`.
unfoldable pub permanently_deleted : Unicode → ℕ → StoredFile → Option AuditContext → Transaction ℕ
permanently_deleted u file_id stored audit db = do
  current ← or_raise (get_file_graph file_id db) file_not_found
  ensure_deletable current
  raise_if (not (list_beq current.file.relative_storage_path (as_posix stored.relative_path)))
      (ApplicationError.storage_error "File metadata changed during permanent deletion.")
  ok (
    current.file.release_id,
    log_file u audit AuditAction.file_permanently_deleted file_id
        ((codes "release_id", Value.scalar (Scalar.int current.file.release_id))
          ∷ (codes "storage_area", text_value (area_value stored.area))
          ∷ (codes "file_size_bytes", Value.scalar (Scalar.int stored.size_bytes))
          ∷ [])
        (remove_file current.file.id db),
  )

-- The block of `FileService.transition_status`.
unfoldable pub transitioned : ℕ → FileStatus → ℕ → Transaction ReleaseFile
transitioned file_id target now db = do
  current ← or_raise (get_file_graph file_id db) file_not_found
  row ← apply_file_transition current target now
  ok (row, put_file row db)

-- The block of `set_visibility`.
unfoldable pub visibility_set : ℕ → Visibility → Transaction ReleaseFile
visibility_set file_id visibility db = do
  f ← or_raise (get_row file_id_of file_id db.files) file_not_found
  let row = record f { visibility = visibility }
  ok (row, put_file row db)
