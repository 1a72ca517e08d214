-- ===== src/Database.antt =====
-- database/session.py: `transaction` commits what its block returns and rolls back when it raises.
-- A block is a function from the rows to a `Result` with the new rows, and an error carries none.
use software_hub.Prelude.{List}
use software_hub.Errors.{Result, ok, err}
use software_hub.Models.{Software, Release, ReleaseFile, User, UserSession, DownloadStat}
use software_hub.Audit.{AuditEvent}

pub record Database : Type 0 where
  pub software : List Software
  pub releases : List Release
  pub files : List ReleaseFile
  pub users : List User
  pub sessions : List UserSession
  pub download_stats : List DownloadStat
  pub audit_log : List AuditEvent

abbrev pub Transaction : Type 0 → Type 0
Transaction A = Database → Result (A × Database)

-- The rows after the transaction: those that its block returned, or the old ones.
abbrev pub committed : {A : Type 0} → Database → Result (A × Database) → Database
committed db (ok (a, db')) = db'
committed db (err e) = db
