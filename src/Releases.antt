-- ===== src/Releases.antt =====
-- services/release_service.py over repositories/release_repository.py. Queries are searches of the
-- table; the id of a new row, which the database chooses, is an argument.
pub mod Consistent
pub mod Effects
pub mod Keeps
pub mod History
pub mod Tests
use software_hub.Prelude.{
  ℕ, Bool, true, false, ◌&&◌, not, Option, none, some, List, [], ◌∷◌, ◌++◌, map, Text, codes, ltb,
  nat_beq, list_beq, nat_eq, ◌==◌, ◌!=◌, find, get_row, set_row, filter_rows, length, if◌then◌else◌,
  is_some, ◌||◌,
}
use software_hub.Errors.{ApplicationError, Result, ok, err, ◌>>=◌, ◌>>◌, raise_if, or_raise}
use software_hub.Unicode.{Unicode}
use software_hub.Models.{
  Software, Release, ReleaseChannel, ReleaseStatus, release_channel_eq, release_status_value,
}
use software_hub.Policies.{apply_release_transition, ensure_current_stable_candidate}
use software_hub.Normalization.{
  Checked, valid, invalid, collapse_whitespace, normalize_optional_text, or_validation_error,
}
use software_hub.Audit.{AuditAction, AuditContext, Scalar, Value, append_context_audit_event}
use software_hub.Database.{Database, Transaction}

abbrev pub get_release : ℕ → Database → Option Release
get_release i db = get_row (λ (r : Release). r.id) i db.releases

abbrev pub get_software : ℕ → Database → Option Software
get_software i db = get_row (λ (s : Software). s.id) i db.software

-- `get_with_graph`: the release with its software, which the foreign key makes present.
abbrev pub get_with_graph : ℕ → Database → Option (Software × Release)
get_with_graph i db = elim (get_release i db) [
  | none ↦ none
  | some r ↦ elim (get_software r.software_id db) [ none ↦ none | some s ↦ some (s, r) ]
]

abbrev pub has_identity : ℕ → Text → ReleaseChannel → Release → Bool
has_identity software_id version channel r =
    nat_beq r.software_id software_id
    && list_beq r.version version
    && (r.release_channel == channel)

unfoldable pub get_by_identity : ℕ → Text → ReleaseChannel → Database → Option Release
get_by_identity software_id version channel db =
    find (has_identity software_id version channel) db.releases

-- The rows that the bulk UPDATE of `clear_current_stable` selects.
abbrev pub is_other_current : ℕ → ℕ → Release → Bool
is_other_current software_id except_release_id r =
    nat_beq r.software_id software_id
    && (r.release_channel == ReleaseChannel.stable)
    && not (nat_beq r.id except_release_id)
    && r.is_current

unfoldable pub clear_current_stable : ℕ → ℕ → List Release → List Release
clear_current_stable software_id except_release_id rows =
    map
      (λ r.
        if is_other_current software_id except_release_id r
        then record r { is_current = false }
        else r)
      rows

-- `result.rowcount`
unfoldable pub cleared_count : ℕ → ℕ → List Release → ℕ
cleared_count software_id except_release_id rows =
    length (filter_rows (is_other_current software_id except_release_id) rows)

abbrev pub put_release : Release → Database → Database
put_release r db = record db { releases = set_row (λ (x : Release). x.id) r.id r db.releases }

unfoldable pub normalize_fields : Unicode → Text → Option Text → Result (Text × Option Text)
normalize_fields u version changelog =
    let normalized_version = collapse_whitespace u version in
    raise_if (nat_beq (length normalized_version) 0 || ltb 100 (length normalized_version))
      (ApplicationError.validation_error "Version must contain 1 to 100 characters.")
    >> or_validation_error (normalize_optional_text u changelog 20000)
        (λ normalized_changelog. ok (normalized_version, normalized_changelog))

abbrev number : ℕ → Value
number n = Value.scalar (Scalar.int n)

abbrev text : Text → Value
text t = Value.scalar (Scalar.text t)

-- An event about one release.
abbrev log_release :
    Unicode → Option AuditContext → AuditAction → ℕ → List (Text × Value) → Database → Database
log_release u audit action i metadata db = record db {
  audit_log = append_context_audit_event u audit action (codes "release") i metadata db.audit_log;
}

unfoldable pub create :
    Unicode
    → ℕ
    → ℕ
    → Text
    → ReleaseChannel
    → Option ℕ
    → Option Text
    → Option AuditContext
    → Transaction Release
unfolding get_by_identity
create u new_id software_id version channel release_date changelog audit db = do
  (normalized_version, normalized_changelog) ← normalize_fields u version changelog
  parent ←
      or_raise (get_software software_id db)
        (ApplicationError.entity_not_found "Software not found.")
  raise_if (is_some (get_by_identity software_id normalized_version channel db))
      (ApplicationError.entity_conflict "This version and release channel already exist.")
  let release : Release = record {
    id = new_id;
    software_id = software_id;
    version = normalized_version;
    release_channel = channel;
    release_date = release_date;
    changelog = normalized_changelog;
    is_current = false;
    status = ReleaseStatus.draft;
    published_at = none;
  }
  ok (
    release,
    log_release u audit AuditAction.release_created new_id
        ((codes "software_id", number software_id)
          ∷ (codes "version", text normalized_version)
          ∷ [])
        (record db { releases = db.releases ++ release ∷ [] }),
  )

-- The row after `update` has written the editable fields.
abbrev edited : Release → Text → ReleaseChannel → Option ℕ → Option Text → Release
edited release version channel release_date changelog = record release {
  version = version;
  release_channel = channel;
  release_date = release_date;
  changelog = changelog;
}

-- `duplicate is not None and duplicate.id != release.id`
abbrev pub is_other : Option Release → ℕ → Bool
is_other none i = false
is_other (some r) i = not (nat_beq r.id i)

unfoldable pub update :
    Unicode
    → ℕ
    → Text
    → ReleaseChannel
    → Option ℕ
    → Option Text
    → Option AuditContext
    → Transaction Release
unfolding get_by_identity
update u release_id version channel release_date changelog audit db = do
  (normalized_version, normalized_changelog) ← normalize_fields u version changelog
  (software, release) ←
      or_raise (get_with_graph release_id db)
        (ApplicationError.entity_not_found "Release not found.")
  raise_if (release.is_current && (channel != ReleaseChannel.stable)) (
      ApplicationError.invalid_state_transition
        "A current stable release must be unset before changing its channel.")
  raise_if (is_other (get_by_identity release.software_id normalized_version channel db) release.id)
      (ApplicationError.entity_conflict "This version and release channel already exist.")
  let release' = edited release normalized_version channel release_date normalized_changelog
  ok (
    release',
    log_release u audit AuditAction.release_updated release.id
        ((codes "software_id", number release.software_id)
          ∷ (codes "version", text normalized_version)
          ∷ [])
        (put_release release' db),
  )

abbrev status_text : ReleaseStatus → Value
status_text s = text (codes (release_status_value s))

unfoldable pub transition_status :
    Unicode → ℕ → ReleaseStatus → ℕ → Option AuditContext → Transaction Release
transition_status u release_id target now audit db = do
  (software, release) ←
      or_raise (get_with_graph release_id db)
        (ApplicationError.entity_not_found "Release not found.")
  release' ← apply_release_transition software release target now
  ok (
    release',
    log_release u audit AuditAction.release_status_changed release.id
        ((codes "from", status_text release.status) ∷ (codes "to", status_text target) ∷ [])
        (put_release release' db),
  )

unfoldable pub set_current_stable : Unicode → ℕ → Option AuditContext → Transaction Release
unfolding clear_current_stable cleared_count
set_current_stable u release_id audit db = do
  (software, release) ←
      or_raise (get_with_graph release_id db)
        (ApplicationError.entity_not_found "Release not found.")
  ensure_current_stable_candidate software release
  let cleared = cleared_count release.software_id release.id db.releases
  let release' = record release { is_current = true }
  ok (
    release',
    log_release u audit AuditAction.release_current_changed release.id
        ((codes "software_id", number release.software_id)
          ∷ (codes "cleared_count", number cleared)
          ∷ [])
        (put_release release' (record db {
          releases = clear_current_stable release.software_id release.id db.releases;
        })),
  )

unfoldable pub clear_current : Unicode → ℕ → Option AuditContext → Transaction Release
clear_current u release_id audit db = do
  (software, release) ←
      or_raise (get_with_graph release_id db)
        (ApplicationError.entity_not_found "Release not found.")
  let release' = record release { is_current = false }
  ok (
    release',
    log_release u audit AuditAction.release_current_changed release.id
        ((codes "software_id", number release.software_id)
          ∷ (codes "current", Value.scalar (Scalar.bool false))
          ∷ [])
        (put_release release' db),
  )
