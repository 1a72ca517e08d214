-- ===== src/Models/Enums.antt =====
-- models/enums.py: each StrEnum with the text of its values, and its equality.
use software_hub.Prelude.{ℕ, String, ◌≡◌, arith, Eq, nat_beq, eq_by_code}

pub data SoftwareStatus : Type 0 where
  draft published hidden archived disabled : SoftwareStatus

pub data Visibility : Type 0 where
  public unlisted private : Visibility

pub data ReleaseChannel : Type 0 where
  stable beta alpha nightly legacy : ReleaseChannel

pub data ReleaseStatus : Type 0 where
  draft published archived disabled : ReleaseStatus

pub data FileStatus : Type 0 where
  quarantine ready published disabled archived rejected : FileStatus

pub data Architecture : Type 0 where
  x64 x86 arm64 universal other : Architecture

pub data PackageType : Type 0 where
  installer portable archive msi other : PackageType

pub data SignatureStatus : Type 0 where
  unknown valid invalid unsigned not_checked : SignatureStatus

pub data ScannerStatus : Type 0 where
  not_scanned clean infected error unavailable : ScannerStatus

abbrev pub software_status_code : SoftwareStatus → ℕ
software_status_code SoftwareStatus.draft = 0
software_status_code SoftwareStatus.published = 1
software_status_code SoftwareStatus.hidden = 2
software_status_code SoftwareStatus.archived = 3
software_status_code SoftwareStatus.disabled = 4

pub software_status_code-injective :
    (a b : SoftwareStatus) → software_status_code a ≡ software_status_code b → a ≡ b
software_status_code-injective a b h = ground arith

instance abbrev pub software_status_eq : Eq SoftwareStatus
software_status_eq = record {
  eqb = λ a b. nat_beq (software_status_code a) (software_status_code b);
  eqb_iff = eq_by_code software_status_code software_status_code-injective;
}

-- `str(status)`
unfoldable pub software_status_value : SoftwareStatus → String
software_status_value SoftwareStatus.draft = "draft"
software_status_value SoftwareStatus.published = "published"
software_status_value SoftwareStatus.hidden = "hidden"
software_status_value SoftwareStatus.archived = "archived"
software_status_value SoftwareStatus.disabled = "disabled"

abbrev pub visibility_code : Visibility → ℕ
visibility_code Visibility.public = 0
visibility_code Visibility.unlisted = 1
visibility_code Visibility.private = 2

pub visibility_code-injective : (a b : Visibility) → visibility_code a ≡ visibility_code b → a ≡ b
visibility_code-injective a b h = ground arith

instance abbrev pub visibility_eq : Eq Visibility
visibility_eq = record {
  eqb = λ a b. nat_beq (visibility_code a) (visibility_code b);
  eqb_iff = eq_by_code visibility_code visibility_code-injective;
}

abbrev pub release_channel_code : ReleaseChannel → ℕ
release_channel_code ReleaseChannel.stable = 0
release_channel_code ReleaseChannel.beta = 1
release_channel_code ReleaseChannel.alpha = 2
release_channel_code ReleaseChannel.nightly = 3
release_channel_code ReleaseChannel.legacy = 4

pub release_channel_code-injective :
    (a b : ReleaseChannel) → release_channel_code a ≡ release_channel_code b → a ≡ b
release_channel_code-injective a b h = ground arith

instance abbrev pub release_channel_eq : Eq ReleaseChannel
release_channel_eq = record {
  eqb = λ a b. nat_beq (release_channel_code a) (release_channel_code b);
  eqb_iff = eq_by_code release_channel_code release_channel_code-injective;
}

abbrev pub release_status_code : ReleaseStatus → ℕ
release_status_code ReleaseStatus.draft = 0
release_status_code ReleaseStatus.published = 1
release_status_code ReleaseStatus.archived = 2
release_status_code ReleaseStatus.disabled = 3

pub release_status_code-injective :
    (a b : ReleaseStatus) → release_status_code a ≡ release_status_code b → a ≡ b
release_status_code-injective a b h = ground arith

instance abbrev pub release_status_eq : Eq ReleaseStatus
release_status_eq = record {
  eqb = λ a b. nat_beq (release_status_code a) (release_status_code b);
  eqb_iff = eq_by_code release_status_code release_status_code-injective;
}

-- `str(status)`
unfoldable pub release_status_value : ReleaseStatus → String
release_status_value ReleaseStatus.draft = "draft"
release_status_value ReleaseStatus.published = "published"
release_status_value ReleaseStatus.archived = "archived"
release_status_value ReleaseStatus.disabled = "disabled"

abbrev pub file_status_code : FileStatus → ℕ
file_status_code FileStatus.quarantine = 0
file_status_code FileStatus.ready = 1
file_status_code FileStatus.published = 2
file_status_code FileStatus.disabled = 3
file_status_code FileStatus.archived = 4
file_status_code FileStatus.rejected = 5

pub file_status_code-injective :
    (a b : FileStatus) → file_status_code a ≡ file_status_code b → a ≡ b
file_status_code-injective a b h = ground arith

instance abbrev pub file_status_eq : Eq FileStatus
file_status_eq = record {
  eqb = λ a b. nat_beq (file_status_code a) (file_status_code b);
  eqb_iff = eq_by_code file_status_code file_status_code-injective;
}

-- `str(status)`
unfoldable pub file_status_value : FileStatus → String
file_status_value FileStatus.quarantine = "quarantine"
file_status_value FileStatus.ready = "ready"
file_status_value FileStatus.published = "published"
file_status_value FileStatus.disabled = "disabled"
file_status_value FileStatus.archived = "archived"
file_status_value FileStatus.rejected = "rejected"

abbrev pub scanner_status_code : ScannerStatus → ℕ
scanner_status_code ScannerStatus.not_scanned = 0
scanner_status_code ScannerStatus.clean = 1
scanner_status_code ScannerStatus.infected = 2
scanner_status_code ScannerStatus.error = 3
scanner_status_code ScannerStatus.unavailable = 4

pub scanner_status_code-injective :
    (a b : ScannerStatus) → scanner_status_code a ≡ scanner_status_code b → a ≡ b
scanner_status_code-injective a b h = ground arith

instance abbrev pub scanner_status_eq : Eq ScannerStatus
scanner_status_eq = record {
  eqb = λ a b. nat_beq (scanner_status_code a) (scanner_status_code b);
  eqb_iff = eq_by_code scanner_status_code scanner_status_code-injective;
}
