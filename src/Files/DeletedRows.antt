-- ===== src/Files/DeletedRows.antt =====
-- services/file_service.py, permanently_delete: what its transaction does to the rows.
use software_hub.Prelude.{
  ℕ, Option, some, ◌≡◌, ◌≢◌, inl, inr, list_eq, nat_eq, nat_beq, not, Option-cases, arith,
  delete_row, filter_rows,
}
use software_hub.Errors.{ok, Result-cases}
use software_hub.Unicode.{Unicode}
use software_hub.Models.{DownloadStat, FileGraph, FileStatus, file_status_eq}
use software_hub.Audit.{AuditContext}
use software_hub.Database.{Database}
use software_hub.Storage.Lifecycle.{StoredFile}
use software_hub.Files.{get_file_graph, permanently_deleted, ensure_deletable, file_id_of}

-- The rows after a deletion that the rules allow.
pub record IsRowDeleted (file_id : ℕ) (db db' : Database) : Type 0 where
  pub row : FileGraph
  pub found : get_file_graph file_id db ≡ some row
  pub unpublished : row.file.status ≢ FileStatus.published
  pub gone : db'.files ≡ delete_row file_id_of row.file.id db.files
  pub counters_gone :
      db'.download_stats
      ≡ filter_rows
          (λ (d : DownloadStat). not (nat_beq d.release_file_id row.file.id))
          db.download_stats

deletable_status :
    (g : FileGraph) → ensure_deletable g ≡ ok tt → g.file.status ≢ FileStatus.published
unfolding ensure_deletable
deletable_status g h = ground arith

pub permanently_deleted-IsRowDeleted :
    (u : Unicode) (file_id : ℕ) (stored : StoredFile) (audit : Option AuditContext)
    (db db' : Database) (release_id : ℕ)
    → permanently_deleted u file_id stored audit db ≡ ok (release_id, db')
    → IsRowDeleted file_id db db'
unfolding permanently_deleted
permanently_deleted-IsRowDeleted u file_id stored audit db db' release_id h =
    elim (Option-cases (get_file_graph file_id db)) [
      | inl missing ↦ absurd (ground arith)
      | inr (g, found) ↦ elim (Result-cases (ensure_deletable g)) [
        | inr (e, refused) ↦ absurd (ground arith)
        | inl (done, allowed) ↦ record {
          row = g;
          found = found;
          unpublished = deletable_status g allowed;
          gone = ground arith;
          counters_gone = ground arith;
        }
      ]
    ]
