-- ===== src/Samples.antt =====
-- Concrete rows for the tests: one software entry with a release and a file.
use software_hub.Prelude.{true, false, none, some, [], ◌∷◌, codes, list_beq, nat_eq}
use software_hub.Security.{Crypto, Settings}
use software_hub.Database.{Database}
use software_hub.Models.{
  Software, Release, ReleaseFile, FileGraph, SoftwareStatus, Visibility, ReleaseStatus,
  ReleaseChannel, FileStatus, Architecture, PackageType, SignatureStatus, ScannerStatus, User,
  UserSession,
}

abbrev pub software : Software
software = record {
  id = 1;
  name = codes "Editor";
  slug = codes "editor";
  short_description = codes "A text editor";
  full_description = none;
  developer_name = none;
  official_website_url = none;
  source_url = none;
  license_name = none;
  category_id = none;
  icon_path = none;
  supported_os = none;
  system_requirements = none;
  tags = [];
  status = SoftwareStatus.published;
  visibility = Visibility.public;
  is_featured = false;
  published_at = some 50;
  archived_at = none;
}

abbrev pub release : Release
release = record {
  id = 7;
  software_id = 1;
  version = codes "1.0";
  release_channel = ReleaseChannel.stable;
  release_date = none;
  changelog = none;
  is_current = false;
  status = ReleaseStatus.published;
  published_at = some 60;
}

abbrev pub release_file : ReleaseFile
release_file = record {
  id = 4;
  public_uuid = 1234;
  release_id = 7;
  original_filename = codes "editor.zip";
  display_filename = codes "editor.zip";
  storage_filename = codes "ab.zip";
  relative_storage_path = codes "a/b/ab.zip";
  file_extension = codes ".zip";
  detected_mime_type = codes "application/zip";
  file_size_bytes = 10;
  sha256 = codes "00";
  architecture = Architecture.x64;
  package_type = PackageType.archive;
  platform = codes "Windows";
  edition = none;
  download_count = 0;
  status = FileStatus.ready;
  visibility = Visibility.public;
  uploaded_at = 40;
  published_at = none;
  disabled_at = none;
  source_url = none;
  signature_status = SignatureStatus.not_checked;
  scanner_status = ScannerStatus.clean;
  scanner_details = none;
  admin_note = none;
}

abbrev pub graph : FileGraph
graph = record { file = release_file; release = release; software = software }

abbrev pub published_file : ReleaseFile
published_file = record release_file { status = FileStatus.published; published_at = some 70 }

abbrev pub published_graph : FileGraph
published_graph = record { file = published_file; release = release; software = software }

abbrev pub database : Database
database = record {
  software = software ∷ [];
  releases = release ∷ [];
  files = release_file ∷ [];
  users = [];
  sessions = [];
  download_stats = [];
  audit_log = [];
}

-- Stand-ins for the cryptographic libraries.
abbrev pub crypto : Crypto
crypto = record {
  sha256_hex = λ t. t;
  hmac_sha256_hex = λ k m. m;
  argon2_verify = list_beq;
  argon2_hash = λ salt password. password;
  argon2_needs_rehash = λ h. false;
}

abbrev pub settings : Settings
settings = record {
  app_secret_key = codes "app";
  csrf_secret = codes "csrf";
  session_absolute_timeout_seconds = 43200;
  session_idle_timeout_seconds = 1800;
  session_touch_interval_seconds = 60;
  login_max_failed_attempts = 2;
  login_lockout_seconds = 900;
  password_min_length = 3;
  password_max_length = 1024;
}

abbrev pub user : User
user = record {
  id = 3;
  username = codes "ann";
  password_hash = codes "secret";
  is_active = true;
  is_superuser = true;
  failed_login_attempts = 0;
  locked_until = none;
  password_changed_at = none;
  last_login_at = none;
}

abbrev pub user_session : UserSession
user_session = record {
  id = 9;
  session_token_hash = codes "tok";
  user_id = 3;
  created_at = 1000;
  last_activity_at = 1000;
  expires_at = 2800;
  absolute_expires_at = 44200;
  revoked_at = none;
  user_agent_hash = none;
  ip_hash = none;
  csrf_secret_hash = [];
}

abbrev pub user_database : Database
user_database = record database { users = user ∷ []; sessions = user_session ∷ [] }
