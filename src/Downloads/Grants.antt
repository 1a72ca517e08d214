-- ===== src/Downloads/Grants.antt =====
-- services/download_service.py, authorize: what a grant stands on, and what a refusal gives away.
use software_hub.Prelude.{
  ◌++◌, codes, ℕ, true, some, Text, nat_eq, list_eq, ◌≡◌, ◌⊎◌, if◌then◌else◌,
}
use software_hub.Unicode.{Unicode}
use software_hub.Models.{FileGraph}
use software_hub.Policies.{can_download_file}
use software_hub.Database.{Database}
use software_hub.Io.{Raised}
use software_hub.Storage.{Os, StoragePaths}
use software_hub.Storage.Texts.{posix_path, as_posix}
use software_hub.Storage.Lifecycle.{StorageArea, StoredFile}
use software_hub.Storage.Lawful.{IsLawful, IsPlain, IsTruthful}
use software_hub.Storage.Alone.{IsAlone}
use software_hub.Files.Service.{World, Meanwhile}
use software_hub.Files.Effects.{IsInstead}
use software_hub.Downloads.{record_authorized_start, record_blocked}
use software_hub.Downloads.Headers.{Quote}
use software_hub.Downloads.Service.{
  DownloadGrant, DownloadRequest, not_found, get_by_public_uuid, grant_of,
}

module _ {S : Type 0} (u : Unicode) (quote : Quote) (os : Os S) (paths : StoragePaths)
    (internal_download_prefix : Text) where
  -- What a grant stands on, and what it has left.
  pub record IsGranted (request : DownloadRequest) (day : ℕ) (meanwhile : Meanwhile) (w : World S)
      (grant : DownloadGrant) (t : World S) : Type 0 where
    pub row : FileGraph
    pub stored : StoredFile
    pub found : get_by_public_uuid request.public_uuid w.database ≡ some row
    pub named : request.requested_filename ≡ row.file.display_filename
    pub allowed : can_download_file row request.is_admin ≡ true
    pub located :
        IsAlone paths (posix_path row.file.relative_storage_path) (os.contents w.disk) stored
    pub permanent : stored.area ≡ StorageArea.software
    pub size : stored.size_bytes ≡ row.file.file_size_bytes
    pub redirect :
        grant.internal_redirect_uri
        ≡ internal_download_prefix
          ++ quote (codes "/") (as_posix (posix_path row.file.relative_storage_path))
    pub headers : grant ≡ grant_of u quote os paths internal_download_prefix row stored
    pub counted : t.database ≡ (
        if request.count_download
        then record_authorized_start row.file.id day (meanwhile.others w.database)
        else w.database)
    pub untouched : os.contents t.disk ≡ os.contents w.disk

  -- What a refusal shows, and what it has left: at most one more count of a blocked download.
  abbrev pub IsRefused : ℕ → Meanwhile → World S → Raised → World S → Type 0
  IsRefused day meanwhile w e t =
      (IsInstead (Raised.application not_found) e ⊎ (e ≡ Raised.database_error))
      × (os.contents t.disk ≡ os.contents w.disk)
      × ((t.database ≡ w.database)
          ⊎ (t.database ≡ meanwhile.others w.database)
          ⊎ ((id : ℕ) × (t.database ≡ record_blocked id day (meanwhile.others w.database))))

  module _ (lawful : IsLawful os) (plain : IsPlain os) (truthful : IsTruthful os)
      (request : DownloadRequest) (day : ℕ) (meanwhile : Meanwhile) (w : World S) where
    abbrev Refused : Raised → World S → Type 0
    Refused e t = IsRefused day meanwhile w e t
