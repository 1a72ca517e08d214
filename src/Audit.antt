-- ===== src/Audit.antt =====
-- services/audit_service.py: the rows that the services append inside their transactions.
pub mod Items
pub mod Laws
pub mod Tests
pub use Items.*
use software_hub.Prelude.{ℕ, Option, none, some, List, [], ◌∷◌, ◌++◌, Text}
use software_hub.Unicode.{Unicode}

pub data AuditAction : Type 0 where
  admin_created admin_login_success admin_login_failed admin_logout : AuditAction
  admin_password_changed admin_sessions_revoked expired_sessions_cleaned : AuditAction
  category_created category_updated category_deleted : AuditAction
  tag_created tag_updated tag_deleted : AuditAction
  software_created software_updated software_status_changed : AuditAction
  software_visibility_changed release_created release_updated : AuditAction
  release_status_changed release_current_changed file_uploaded : AuditAction
  file_upload_failed file_reviewed file_published file_disabled file_archived : AuditAction
  file_restored file_verified file_checksum_recalculated file_metadata_deleted : AuditAction
  file_permanently_deleted backup_created backup_failed backup_restored : AuditAction

pub data AuditResult : Type 0 where
  success failure : AuditResult

pub record AuditContext : Type 0 where
  pub user_id : ℕ
  pub request_id : Option Text
  pub ip_hash : Option Text

pub record AuditEvent : Type 0 where
  pub user_id : Option ℕ
  pub action : AuditAction
  pub result : AuditResult
  pub entity_type : Option Text
  pub entity_id : Option ℕ
  pub request_id : Option Text
  pub ip_hash : Option Text
  pub safe_metadata : Metadata

-- The new row goes behind the others.
unfoldable pub append_audit_event : Unicode → AuditEvent → List AuditEvent → List AuditEvent
append_audit_event u event rows =
    rows ++ record event { safe_metadata = sanitize_audit_metadata u event.safe_metadata } ∷ []

-- Only a request with an authenticated context leaves a row.
unfoldable pub append_context_audit_event :
    Unicode
    → Option AuditContext
    → AuditAction
    → Text
    → ℕ
    → Metadata
    → List AuditEvent
    → List AuditEvent
append_context_audit_event u none action entity_type entity_id metadata rows = rows
append_context_audit_event u (some context) action entity_type entity_id metadata rows =
    append_audit_event u
      (record {
        user_id = some context.user_id;
        action = action;
        result = AuditResult.success;
        entity_type = some entity_type;
        entity_id = some entity_id;
        request_id = context.request_id;
        ip_hash = context.ip_hash;
        safe_metadata = metadata;
      })
      rows
