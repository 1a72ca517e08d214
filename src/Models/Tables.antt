-- ===== src/Models/Tables.antt =====
-- models/software.py, release.py, release_file.py, user.py, session.py and download_stat.py: one record for each table. Foreign keys are
-- the numbers of the rows they point at, times are seconds, and the columns `created_at` and
-- `updated_at`, which the database fills in and no rule reads, are left out.
use software_hub.Prelude.{ℕ, Bool, Option, List, Text}
use software_hub.Models.Enums.{
  SoftwareStatus, Visibility, ReleaseChannel, ReleaseStatus, FileStatus, Architecture, PackageType,
  SignatureStatus, ScannerStatus,
}

pub record Software : Type 0 where
  pub id : ℕ
  pub name : Text
  pub slug : Text
  pub short_description : Text
  pub full_description : Option Text
  pub developer_name : Option Text
  pub official_website_url : Option Text
  pub source_url : Option Text
  pub license_name : Option Text
  pub category_id : Option ℕ
  pub icon_path : Option Text
  pub supported_os : Option Text
  pub system_requirements : Option Text
  pub tags : List ℕ
  pub status : SoftwareStatus
  pub visibility : Visibility
  pub is_featured : Bool
  pub published_at : Option ℕ
  pub archived_at : Option ℕ

pub record Release : Type 0 where
  pub id : ℕ
  pub software_id : ℕ
  pub version : Text
  pub release_channel : ReleaseChannel
  pub release_date : Option ℕ
  pub changelog : Option Text
  pub is_current : Bool
  pub status : ReleaseStatus
  pub published_at : Option ℕ

pub record ReleaseFile : Type 0 where
  pub id : ℕ
  pub public_uuid : ℕ
  pub release_id : ℕ
  pub original_filename : Text
  pub display_filename : Text
  pub storage_filename : Text
  pub relative_storage_path : Text
  pub file_extension : Text
  pub detected_mime_type : Text
  pub file_size_bytes : ℕ
  pub sha256 : Text
  pub architecture : Architecture
  pub package_type : PackageType
  pub platform : Text
  pub edition : Option Text
  pub download_count : ℕ
  pub status : FileStatus
  pub visibility : Visibility
  pub uploaded_at : ℕ
  pub published_at : Option ℕ
  pub disabled_at : Option ℕ
  pub source_url : Option Text
  pub signature_status : SignatureStatus
  pub scanner_status : ScannerStatus
  pub scanner_details : Option Text
  pub admin_note : Option Text

-- A row with the parents that the `release` and `software` relationships load.
pub record FileGraph : Type 0 where
  pub file : ReleaseFile
  pub release : Release
  pub software : Software

pub record User : Type 0 where
  pub id : ℕ
  pub username : Text
  pub password_hash : Text
  pub is_active : Bool
  pub is_superuser : Bool
  pub failed_login_attempts : ℕ
  pub locked_until : Option ℕ
  pub password_changed_at : Option ℕ
  pub last_login_at : Option ℕ

pub record UserSession : Type 0 where
  pub id : ℕ
  pub session_token_hash : Text
  pub user_id : ℕ
  pub created_at : ℕ
  pub last_activity_at : ℕ
  pub expires_at : ℕ
  pub absolute_expires_at : ℕ
  pub revoked_at : Option ℕ
  pub user_agent_hash : Option Text
  pub ip_hash : Option Text
  pub csrf_secret_hash : Text

-- The counters of one file on one UTC day.
pub record DownloadStat : Type 0 where
  pub release_file_id : ℕ
  pub date : ℕ
  pub download_count : ℕ
  pub successful_download_count : ℕ
  pub blocked_download_count : ℕ
