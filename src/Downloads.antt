-- ===== src/Downloads.antt =====
-- repositories/download_stat_repository.py: the daily counters of downloads. A row's key is its
-- file and its day, which the table's unique constraint keeps.
pub mod Headers
pub mod Service
pub mod Grants
pub mod Totals
pub mod Tests
use software_hub.Prelude.{
  ℕ, ◌+◌, Bool, ◌&&◌, Option, List, [], ◌∷◌, nat_beq, find, map, if◌then◌else◌,
}
use software_hub.Models.{ReleaseFile, DownloadStat}
use software_hub.Database.{Database}

pub record DailyDownloadTotals : Type 0 where
  pub authorized : ℕ
  pub successful : ℕ
  pub blocked : ℕ

abbrev pub is_daily : ℕ → ℕ → DownloadStat → Bool
is_daily release_file_id day row =
    nat_beq row.release_file_id release_file_id && nat_beq row.date day

unfoldable pub get_for_date : ℕ → ℕ → List DownloadStat → Option DownloadStat
get_for_date release_file_id day rows = find (is_daily release_file_id day) rows

-- `func.coalesce(func.sum(column), 0)` over the rows of one day
unfoldable pub sum_for_date : (DownloadStat → ℕ) → ℕ → List DownloadStat → ℕ
sum_for_date column day [] = 0
sum_for_date column day (row ∷ rows) =
    let rest = sum_for_date column day rows in
    if nat_beq row.date day then column row + rest else rest

unfoldable pub totals_for_date : ℕ → List DownloadStat → DailyDownloadTotals
totals_for_date day rows = record {
  authorized = sum_for_date (λ row. row.download_count) day rows;
  successful = sum_for_date (λ row. row.successful_download_count) day rows;
  blocked = sum_for_date (λ row. row.blocked_download_count) day rows;
}

-- `INSERT ... ON CONFLICT (release_file_id, date) DO UPDATE`
unfoldable pub upsert_daily : ℕ → ℕ → ℕ → ℕ → ℕ → List DownloadStat → List DownloadStat
upsert_daily release_file_id day download_increment successful_increment blocked_increment [] =
    record {
      release_file_id = release_file_id;
      date = day;
      download_count = download_increment;
      successful_download_count = successful_increment;
      blocked_download_count = blocked_increment;
    }
    ∷ []
upsert_daily release_file_id day download_increment successful_increment blocked_increment
      (row ∷ rows) =
    let rest =
      upsert_daily release_file_id day download_increment successful_increment blocked_increment
        rows in
    if is_daily release_file_id day row
    then record row {
      download_count = row.download_count + download_increment;
      successful_download_count = row.successful_download_count + successful_increment;
      blocked_download_count = row.blocked_download_count + blocked_increment;
    }
      ∷ rows
    else row ∷ rest

-- `UPDATE release_files SET download_count = download_count + 1 WHERE id = ...`
abbrev pub count_download : ℕ → ReleaseFile → ReleaseFile
count_download release_file_id f =
    if nat_beq f.id release_file_id then record f { download_count = f.download_count + 1 } else f

unfoldable pub record_authorized_start : ℕ → ℕ → Database → Database
record_authorized_start release_file_id day db = record db {
  files = map (count_download release_file_id) db.files;
  download_stats = upsert_daily release_file_id day 1 1 0 db.download_stats;
}

unfoldable pub record_blocked : ℕ → ℕ → Database → Database
record_blocked release_file_id day db = record db {
  download_stats = upsert_daily release_file_id day 0 0 1 db.download_stats;
}
