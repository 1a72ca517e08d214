-- ===== src/Downloads/Tests.antt =====
-- Counters of the sample file, and of another file beside it.
use software_hub.Prelude.{
  Option, none, some, ◌++◌, Text, codes, list_beq, list_eq, nat_eq, if◌then◌else◌, true,
}
use software_hub.Unicode.{ascii}
use software_hub.Models.{FileStatus}
use software_hub.Policies.{can_download_file}
use software_hub.Io.{Raised, Outcome, returned, raised, lift, raise_when, call, ask}
use software_hub.Storage.{FilePath, StoragePaths}
use software_hub.Storage.Texts.{posix_path, split, split_from, join, as_posix}
use software_hub.Storage.Paths.{reject_unsafe_relative_path, reject_links, safe_resolve}
use software_hub.Storage.Lifecycle.{
  inspect_candidate, inspect_area, inspect_stored_files, locate_stored_file,
}
use software_hub.Storage.Memory.{Disk, memory}
use software_hub.Files.{get_file_graph}
use software_hub.Files.Service.{World, Meanwhile, on_disk, transaction}
use software_hub.Downloads.Headers.{Quote}
use software_hub.Downloads.Service.{
  DownloadGrant, DownloadRequest, not_found, get_by_public_uuid, count_start, count_blocked,
  grant_of, block_when, authorize_file, authorize,
}
use software_hub.Prelude.{◌+◌, ◌≡◌, refl, some, [], ◌∷◌, arith, get_row}
use software_hub.Models.{ReleaseFile, DownloadStat}
use software_hub.Database.{Database}
use software_hub.Samples.{database, release_file}
use software_hub.Downloads.{
  totals_for_date, sum_for_date, upsert_daily, record_authorized_start, record_blocked,
}
use software_hub.Downloads.Totals.{file_id_of, record_authorized_start-totals_for_date}

abbrev other_file : ReleaseFile
other_file = record release_file { id = 77 }

abbrev stat : DownloadStat
stat = record {
  release_file_id = release_file.id;
  date = 20;
  download_count = 4;
  successful_download_count = 4;
  blocked_download_count = 1;
}

abbrev counted : Database
counted = record database { files = release_file ∷ other_file ∷ []; download_stats = stat ∷ [] }

two_days :
    totals_for_date 20
      (record_blocked release_file.id 21
        (record_authorized_start release_file.id 20 counted)).download_stats
    ≡ record { authorized = 5; successful = 5; blocked = 1 }
unfolding totals_for_date sum_for_date upsert_daily record_authorized_start record_blocked
two_days = refl

record_authorized_start-totals_for_date_example :
    (totals_for_date 20 (record_authorized_start release_file.id 20 counted).download_stats
      ≡ record {
        authorized = (totals_for_date 20 counted.download_stats).authorized + 1;
        successful = (totals_for_date 20 counted.download_stats).successful + 1;
        blocked = (totals_for_date 20 counted.download_stats).blocked;
      })
    × (totals_for_date 21 (record_authorized_start release_file.id 20 counted).download_stats
        ≡ totals_for_date 21 counted.download_stats)
    × (get_row file_id_of release_file.id (record_authorized_start release_file.id 20 counted).files
        ≡ some (record release_file { download_count = release_file.download_count + 1 }))
    × (get_row file_id_of 77 (record_authorized_start release_file.id 20 counted).files
        ≡ some other_file)
record_authorized_start-totals_for_date_example =
    record_authorized_start-totals_for_date release_file.id 20 21 counted release_file other_file
      (λ e. absurd (omega (arith, e))) refl refl (λ e. absurd (omega (arith, e)))

abbrev root : Text → FilePath
root area = codes "srv" ∷ area ∷ []

abbrev paths : StoragePaths
paths = record {
  root = codes "srv" ∷ [];
  software = root (codes "software");
  icons = root (codes "icons");
  imports = root (codes "import");
  temporary = root (codes "tmp");
  quarantine = root (codes "quarantine");
  backups = root (codes "backups");
}

abbrev published_file : ReleaseFile
published_file = record release_file { file_size_bytes = 2; status = FileStatus.published }

abbrev disk : Disk
disk p =
    if list_beq p
      (root (codes "software") ++ (posix_path published_file.relative_storage_path).parts)
    then some (80 ∷ 75 ∷ [])
    else none

abbrev world : World Disk
world = record { database = record database { files = published_file ∷ [] }; disk = disk }

abbrev alone : Meanwhile
alone = record { others = λ db. db; commits = true }

-- A text without characters to encode.
abbrev plain_quote : Quote
plain_quote safe text = text

abbrev request : DownloadRequest
request = record {
  public_uuid = published_file.public_uuid;
  requested_filename = codes "editor.zip";
  is_admin = true;
  count_download = true;
}

abbrev uri : Outcome DownloadGrant → Option Text
uri (returned grant) = some grant.internal_redirect_uri
uri (raised e) = none

grants :
    uri (authorize ascii plain_quote memory paths (codes "/x/") request 20 alone world).0
    ≡ some (codes "/x/a/b/ab.zip")
unfolding authorize get_by_public_uuid get_file_graph authorize_file block_when can_download_file
    on_disk locate_stored_file inspect_stored_files inspect_area inspect_candidate safe_resolve
    reject_links reject_unsafe_relative_path posix_path split split_from join as_posix lift
    raise_when call ask count_start transaction grant_of
grants = refl

refuses_name :
    (authorize ascii plain_quote memory paths
      (codes "/x/")
      (record request { requested_filename = [] })
      20
      alone
      world).0
    ≡ raised (Raised.application not_found)
unfolding authorize get_by_public_uuid get_file_graph authorize_file block_when count_blocked
    transaction
refuses_name = refl
