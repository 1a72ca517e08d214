-- ===== src/Downloads/Totals.antt =====
-- repositories/download_stat_repository.py: what one event adds to the totals of each day.
use mathlib.Core.Option
use software_hub.Prelude.{
  ℕ, ◌+◌, ◌≡◌, ◌≢◌, refl, ap, some, List, [], ◌∷◌, nat_beq, nat_beq_iff, get_row, get_row-map,
  get_row-id, Bool-cases, inl, inr, arith, ◌∙◌, map,
}
use software_hub.Models.{ReleaseFile, DownloadStat}
use software_hub.Database.{Database}
use software_hub.Downloads.{
  sum_for_date, totals_for_date, upsert_daily, count_download, record_authorized_start,
  record_blocked,
}

module _ (i day a s b : ℕ) where
  upsert_daily-totals_same :
      (rows : List DownloadStat)
      → totals_for_date day (upsert_daily i day a s b rows) ≡ record {
        authorized = (totals_for_date day rows).authorized + a;
        successful = (totals_for_date day rows).successful + s;
        blocked = (totals_for_date day rows).blocked + b;
      }
  unfolding totals_for_date upsert_daily sum_for_date
  upsert_daily-totals_same [] = ground arith
  upsert_daily-totals_same (row ∷ rows) = ground (arith, upsert_daily-totals_same rows)

  upsert_daily-totals_other :
      (other : ℕ) (rows : List DownloadStat)
      → other ≢ day
      → totals_for_date other (upsert_daily i day a s b rows) ≡ totals_for_date other rows
  unfolding totals_for_date upsert_daily sum_for_date
  upsert_daily-totals_other other [] ne = ground arith
  upsert_daily-totals_other other (row ∷ rows) ne =
      ground (arith, upsert_daily-totals_other other rows ne)

abbrev pub file_id_of : ReleaseFile → ℕ
file_id_of x = x.id

count_download-id : (i : ℕ) (f : ReleaseFile) → file_id_of (count_download i f) ≡ f.id
count_download-id i f = ground arith

get_row-count_download :
    (i j : ℕ) (files : List ReleaseFile) (f : ReleaseFile)
    → get_row file_id_of j files ≡ some f
    → get_row file_id_of j (map (count_download i) files) ≡ some (count_download i f)
get_row-count_download i j files f h =
    get_row-map file_id_of (count_download i) (count_download-id i) j files
    ∙ ap (Option.map (count_download i)) h

count_download_own :
    (i : ℕ) (f : ReleaseFile)
    → f.id ≡ i
    → count_download i f ≡ record f { download_count = f.download_count + 1 }
count_download_own i f h = rw ((nat_beq_iff f.id i).1 h) refl

count_download_other : (i : ℕ) (f : ReleaseFile) → f.id ≢ i → count_download i f ≡ f
count_download_other i f ne = elim (Bool-cases (nat_beq f.id i)) [
  | inl same ↦ absurd (ne ((nat_beq_iff f.id i).0 same))
  | inr different ↦ rw different refl
]

-- An authorized start adds one to the authorized and the successful downloads of its day, and one
-- to the counter of its file; the blocked attempts, the totals of every other day and the counters
-- of the other files stay.
pub record_authorized_start-totals_for_date :
    (i day other : ℕ) (db : Database) (f g : ReleaseFile)
    → other ≢ day
    → get_row file_id_of i db.files ≡ some f
    → get_row file_id_of g.id db.files ≡ some g
    → g.id ≢ i
    → (totals_for_date day (record_authorized_start i day db).download_stats ≡ record {
      authorized = (totals_for_date day db.download_stats).authorized + 1;
      successful = (totals_for_date day db.download_stats).successful + 1;
      blocked = (totals_for_date day db.download_stats).blocked;
    })
      × (totals_for_date other (record_authorized_start i day db).download_stats
          ≡ totals_for_date other db.download_stats)
      × (get_row file_id_of i (record_authorized_start i day db).files
          ≡ some (record f { download_count = f.download_count + 1 }))
      × (get_row file_id_of g.id (record_authorized_start i day db).files ≡ some g)
unfolding record_authorized_start
record_authorized_start-totals_for_date i day other db f g ne found found_other distinct = (
  ground (arith, upsert_daily-totals_same i day 1 1 0 db.download_stats),
  upsert_daily-totals_other i day 1 1 0 other db.download_stats ne,
  get_row-count_download i i db.files f found
      ∙ ap some (count_download_own i f (get_row-id file_id_of i db.files f found)),
  get_row-count_download i g.id db.files g found_other
      ∙ ap some (count_download_other i g distinct),
)

-- A blocked attempt adds one to the blocked attempts of its day and nothing else: no other count,
-- no other day, no file.
pub record_blocked-totals_for_date :
    (i day other : ℕ) (db : Database)
    → other ≢ day
    → (totals_for_date day (record_blocked i day db).download_stats ≡ record {
      authorized = (totals_for_date day db.download_stats).authorized;
      successful = (totals_for_date day db.download_stats).successful;
      blocked = (totals_for_date day db.download_stats).blocked + 1;
    })
      × (totals_for_date other (record_blocked i day db).download_stats
          ≡ totals_for_date other db.download_stats)
      × ((record_blocked i day db).files ≡ db.files)
unfolding record_blocked
record_blocked-totals_for_date i day other db ne = (
  ground (arith, upsert_daily-totals_same i day 0 0 1 db.download_stats),
  upsert_daily-totals_other i day 0 0 1 other db.download_stats ne,
  refl,
)
