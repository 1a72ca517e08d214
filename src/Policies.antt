-- ===== src/Policies.antt =====
-- services/policies.py: the lifecycle tables, the transitions, and who may see or download.
pub mod Files
pub mod Releases
pub mod Access
pub mod Tests
use Prim.Native.String.{◌++◌}
use software_hub.Prelude.{
  ℕ, String, Bool, true, false, ◌&&◌, Option, none, some, List, [], ◌∷◌, Eq, ◌==◌, ◌!=◌, contains,
  not, if◌then◌else◌,
}
use software_hub.Errors.{ApplicationError, Result, ok, ◌>>◌, raise_if}
use software_hub.Models.{
  SoftwareStatus, Visibility, ReleaseChannel, ReleaseStatus, FileStatus, ScannerStatus,
  software_status_eq, visibility_eq, release_channel_eq, release_status_eq, file_status_eq,
  scanner_status_eq, software_status_value, release_status_value, file_status_value, Software,
  Release, ReleaseFile, FileGraph,
}

unfoldable pub software_transitions : SoftwareStatus → List SoftwareStatus
software_transitions SoftwareStatus.draft =
    SoftwareStatus.published ∷ SoftwareStatus.hidden ∷ SoftwareStatus.disabled ∷ []
software_transitions SoftwareStatus.published =
    SoftwareStatus.hidden ∷ SoftwareStatus.archived ∷ SoftwareStatus.disabled ∷ []
software_transitions SoftwareStatus.hidden =
    SoftwareStatus.draft ∷ SoftwareStatus.published ∷ SoftwareStatus.archived
    ∷ SoftwareStatus.disabled ∷ []
software_transitions SoftwareStatus.archived =
    SoftwareStatus.published ∷ SoftwareStatus.hidden ∷ SoftwareStatus.disabled ∷ []
software_transitions SoftwareStatus.disabled = SoftwareStatus.draft ∷ []

unfoldable pub release_transitions : ReleaseStatus → List ReleaseStatus
release_transitions ReleaseStatus.draft =
    ReleaseStatus.published ∷ ReleaseStatus.archived ∷ ReleaseStatus.disabled ∷ []
release_transitions ReleaseStatus.published = ReleaseStatus.archived ∷ ReleaseStatus.disabled ∷ []
release_transitions ReleaseStatus.archived = ReleaseStatus.published ∷ ReleaseStatus.disabled ∷ []
release_transitions ReleaseStatus.disabled = ReleaseStatus.draft ∷ []

unfoldable pub file_transitions : FileStatus → List FileStatus
file_transitions FileStatus.quarantine =
    FileStatus.ready ∷ FileStatus.rejected ∷ FileStatus.disabled ∷ []
file_transitions FileStatus.ready =
    FileStatus.published ∷ FileStatus.rejected ∷ FileStatus.disabled ∷ FileStatus.archived ∷ []
file_transitions FileStatus.published = FileStatus.disabled ∷ FileStatus.archived ∷ []
file_transitions FileStatus.disabled = FileStatus.ready ∷ FileStatus.archived ∷ []
file_transitions FileStatus.archived = FileStatus.ready ∷ FileStatus.disabled ∷ []
file_transitions FileStatus.rejected = FileStatus.quarantine ∷ []

-- `_ensure_transition`; `show` gives the text of a status for the message.
unfoldable pub ensure_transition {ℓ} :
    {S : Type ℓ} ⦃e : Eq S⦄ → S → S → (S → List S) → (S → String) → String → Result (Unit {0})
ensure_transition current target transitions show entity_name =
    if target == current
    then ok tt
    else raise_if (not (contains (transitions current) target)) (
        ApplicationError.invalid_state_transition (
          "Cannot transition "
          ++ entity_name
          ++ " from "
          ++ show current
          ++ " to "
          ++ show target
          ++ "."))

-- `value or now`
abbrev pub or_now : Option ℕ → ℕ → Option ℕ
or_now none now = some now
or_now (some t) now = some t

abbrev pub published_or_hidden : List SoftwareStatus
published_or_hidden = SoftwareStatus.published ∷ SoftwareStatus.hidden ∷ []

-- The writes of `apply_software_transition` once the table has allowed the target.
unfoldable pub move_software : Software → SoftwareStatus → ℕ → Software
move_software software SoftwareStatus.published now = record software {
  status = SoftwareStatus.published;
  published_at = or_now software.published_at now;
  archived_at = none;
}
move_software software SoftwareStatus.archived now = record software {
  status = SoftwareStatus.archived;
  archived_at = some now;
}
move_software software target now = record software { status = target; archived_at = none }

unfoldable pub apply_software_transition : Software → SoftwareStatus → ℕ → Result Software
unfolding ensure_transition software_transitions move_software
apply_software_transition software target now = do
  ensure_transition software.status target software_transitions software_status_value "software"
  ok (if target == software.status then software else move_software software target now)

unfoldable pub move_release : Release → ReleaseStatus → ℕ → Release
move_release release target now =
    if target == ReleaseStatus.published
    then record release { status = target; published_at = or_now release.published_at now }
    else record release { status = target; is_current = false }

-- The software is the row that `release.software` loads.
unfoldable pub apply_release_transition : Software → Release → ReleaseStatus → ℕ → Result Release
unfolding ensure_transition release_transitions move_release
apply_release_transition software release target now = do
  ensure_transition release.status target release_transitions release_status_value "release"
  if target == release.status then ok release else do
    raise_if
        (target == ReleaseStatus.published && not (contains published_or_hidden software.status))
        (ApplicationError.invalid_state_transition
          "A release can be published only while its software is published or hidden.")
    ok (move_release release target now)

unfoldable pub ensure_current_stable_candidate : Software → Release → Result (Unit {0})
ensure_current_stable_candidate software release = do
  raise_if (release.release_channel != ReleaseChannel.stable)
      (ApplicationError.invalid_state_transition "Only a stable release can be marked as current.")
  raise_if (release.status != ReleaseStatus.published) (
      ApplicationError.invalid_state_transition
        "Only a published release can be marked as current.")
  raise_if (not (contains published_or_hidden software.status)) (
      ApplicationError.invalid_state_transition
        "Current release selection requires published or hidden software.")

-- The last part of `apply_file_transition`: the guards and writes that depend on the target.
unfoldable pub move_file : FileGraph → FileStatus → ℕ → Result ReleaseFile
move_file g FileStatus.published now = do
  raise_if (g.release.status != ReleaseStatus.published) (
      ApplicationError.invalid_state_transition
        "A file requires a published release before publication.")
  raise_if (not (contains published_or_hidden g.software.status)) (
      ApplicationError.invalid_state_transition
        "A file requires published or hidden software before publication.")
  raise_if (g.file.scanner_status == ScannerStatus.infected)
      (ApplicationError.invalid_state_transition "An infected file cannot be published.")
  ok (record (g.file) {
    published_at = or_now g.file.published_at now;
    disabled_at = none;
    status = FileStatus.published;
  })
move_file g FileStatus.disabled now =
    ok (record (g.file) { disabled_at = some now; status = FileStatus.disabled })
move_file g target now = ok (record (g.file) { disabled_at = none; status = target })

unfoldable pub apply_file_transition : FileGraph → FileStatus → ℕ → Result ReleaseFile
unfolding ensure_transition file_transitions move_file
apply_file_transition g target now = do
  ensure_transition g.file.status target file_transitions file_status_value "file"
  if target == g.file.status then ok g.file else do
    raise_if (target == FileStatus.ready && (g.file.scanner_status == ScannerStatus.infected))
        (ApplicationError.invalid_state_transition "An infected file cannot be approved as ready.")
    move_file g target now

unfoldable pub is_software_publicly_listed : Software → Bool
is_software_publicly_listed software =
    (software.status == SoftwareStatus.published) && (software.visibility == Visibility.public)

abbrev pub public_or_unlisted : List Visibility
public_or_unlisted = Visibility.public ∷ Visibility.unlisted ∷ []

abbrev pub published_or_archived : List SoftwareStatus
published_or_archived = SoftwareStatus.published ∷ SoftwareStatus.archived ∷ []

unfoldable pub can_view_software : Software → Bool → Bool
can_view_software software is_admin =
    if is_admin
    then software.status != SoftwareStatus.disabled
    else contains published_or_archived software.status
      && contains public_or_unlisted software.visibility

unfoldable pub can_download_file : FileGraph → Bool → Bool
can_download_file g is_admin =
    if g.file.status != FileStatus.published
    then false
    else if not (contains (ReleaseStatus.published ∷ ReleaseStatus.archived ∷ []) g.release.status)
    then false
    else if not (contains published_or_archived g.software.status)
    then false
    else if is_admin
    then true
    else contains public_or_unlisted g.software.visibility
      && contains public_or_unlisted g.file.visibility
