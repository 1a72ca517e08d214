-- ===== src/Downloads/Service.antt =====
-- services/download_service.py: the authorization of a download, over the rows and the disk.
use software_hub.Prelude.{
  ℕ, Bool, true, false, not, Option, none, some, [], ◌∷◌, ◌++◌, Text, codes, nat_beq, list_beq,
  nat_eq, find, if◌then◌else◌, ◌==◌,
}
use software_hub.Errors.{ApplicationError, ok}
use software_hub.Unicode.{Unicode}
use software_hub.Models.{ReleaseFile, FileGraph, Visibility, visibility_eq}
use software_hub.Policies.{can_download_file}
use software_hub.Database.{Database}
use software_hub.Io.{Raised, Io, ◌>>=◌, ◌>>◌, return, raise, raise_when, try}
use software_hub.Storage.{Os, StoragePaths}
use software_hub.Storage.Texts.{as_posix}
use software_hub.Storage.Lifecycle.{StoredFile, locate_stored_file}
use software_hub.Files.{get_file_graph}
use software_hub.Files.Service.{World, Meanwhile, on_disk, transaction, catch_storage, is_software}
use software_hub.Downloads.{record_authorized_start, record_blocked}
use software_hub.Downloads.Headers.{Quote, safe_media_type, build_content_disposition}

pub record DownloadGrant : Type 0 where
  pub internal_redirect_uri : Text
  pub content_disposition : Text
  pub content_type : Text
  pub etag : Text
  pub cache_control : Text
  pub is_private : Bool

-- What a request asks for, and who asks.
pub record DownloadRequest : Type 0 where
  pub public_uuid : ℕ
  pub requested_filename : Text
  pub is_admin : Bool
  pub count_download : Bool

-- `EntityNotFound()`
abbrev pub not_found : ApplicationError
not_found = ApplicationError.entity_not_found "The requested resource was not found."

-- A row by its public id, with its parents.
unfoldable pub get_by_public_uuid : ℕ → Database → Option FileGraph
get_by_public_uuid public_uuid db =
    elim (find (λ (f : ReleaseFile). nat_beq f.public_uuid public_uuid) db.files) [
      | none ↦ none
      | some f ↦ get_file_graph f.id db
    ]

-- `_record_blocked` goes on where the database fails; nothing else is raised there.
abbrev pub unless_database_error : {S : Type 0} → Raised → Io S (Unit {0})
unless_database_error Raised.database_error = return tt
unless_database_error Raised.os_error = raise Raised.os_error
unless_database_error (Raised.application e) = raise (Raised.application e)

abbrev pub quoted : Text → Text
quoted t = (34 ∷ []) ++ codes "sha256-" ++ t ++ (34 ∷ [])

module _ {S : Type 0} (u : Unicode) (quote : Quote) (os : Os S) (paths : StoragePaths)
    (internal_download_prefix : Text) where
  unfoldable pub count_start : ℕ → ℕ → Meanwhile → Io (World S) (Unit {0})
  count_start release_file_id day meanwhile =
      transaction meanwhile (λ db. ok (tt, record_authorized_start release_file_id day db))

  unfoldable pub count_blocked : ℕ → ℕ → Meanwhile → Io (World S) (Unit {0})
  count_blocked release_file_id day meanwhile =
      try (transaction meanwhile (λ db. ok (tt, record_blocked release_file_id day db)))
        unless_database_error

  unfoldable pub grant_of : FileGraph → StoredFile → DownloadGrant
  grant_of g stored =
      let is_private = g.file.visibility == Visibility.private in
      record {
        internal_redirect_uri =
            internal_download_prefix ++ quote (codes "/") (as_posix stored.relative_path);
        content_disposition = build_content_disposition u quote g.file.display_filename;
        content_type = safe_media_type u g.file.detected_mime_type;
        etag = quoted g.file.sha256;
        cache_control = if is_private then codes "private, no-store" else codes "no-store";
        is_private = is_private;
      }

  -- A request that is blocked: it is counted, then refused.
  unfoldable pub block_when : Bool → ℕ → ℕ → Meanwhile → Io (World S) (Unit {0})
  block_when false release_file_id day meanwhile = return tt
  block_when true release_file_id day meanwhile = do
    count_blocked release_file_id day meanwhile
    raise (Raised.application not_found)

  -- `authorize` for a row that was found.
  unfoldable pub authorize_file :
      DownloadRequest → ℕ → Meanwhile → FileGraph → Io (World S) DownloadGrant
  authorize_file request day meanwhile g = do
    block_when (not (list_beq request.requested_filename g.file.display_filename)) g.file.id day
        meanwhile
    block_when (not (can_download_file g request.is_admin)) g.file.id day meanwhile
    stored ← on_disk (
        try (locate_stored_file os paths g.file.relative_storage_path)
          (catch_storage (λ _. raise (Raised.application not_found))))
    raise_when (not (is_software stored.area)) not_found
    raise_when (not (nat_beq stored.size_bytes g.file.file_size_bytes)) not_found
    if request.count_download then count_start g.file.id day meanwhile else return tt
    return (grant_of g stored)

  -- `if release_file is None: raise EntityNotFound()`, and the rest.
  abbrev pub authorize_found :
      DownloadRequest → ℕ → Meanwhile → Option FileGraph → Io (World S) DownloadGrant
  authorize_found request day meanwhile none = raise (Raised.application not_found)
  authorize_found request day meanwhile (some g) = authorize_file request day meanwhile g

  unfoldable pub authorize : DownloadRequest → ℕ → Meanwhile → Io (World S) DownloadGrant
  authorize request day meanwhile w =
      authorize_found request day meanwhile (get_by_public_uuid request.public_uuid w.database) w
