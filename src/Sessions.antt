-- ===== src/Sessions.antt =====
-- services/session_service.py over repositories/session_repository.py.
pub mod Created
pub mod Lifetime
pub mod Revocation
pub mod Tests
pub mod Touch
use Prim.Native.Nat.{min}
use software_hub.Prelude.{
  ℕ, ◌+◌, Bool, true, false, ◌&&◌, ◌||◌, not, Option, none, some, List, [], ◌∷◌, ◌++◌, map, Text,
  codes, leb, nat_beq, nat_eq, list_beq, length, is_some, find, get_row, set_row, filter_rows,
  if◌then◌else◌,
}
use software_hub.Unicode.{Unicode}
use software_hub.Models.{User, UserSession}
use software_hub.Audit.{AuditAction, AuditResult, AuditEvent, Scalar, Value, append_audit_event}
use software_hub.Security.{
  Crypto, Settings, hash_session_token, hmac_identifier, derive_csrf_secret_hash,
}
use software_hub.Database.{Database}

pub record SessionCredentials : Type 0 where
  pub token : Text
  pub user : User
  pub expires_at : ℕ
  pub absolute_expires_at : ℕ

pub record AuthenticatedSession : Type 0 where
  pub session_id : ℕ
  pub user : User
  pub expires_at : ℕ
  pub absolute_expires_at : ℕ
  pub ip_changed : Bool
  pub user_agent_changed : Bool
  pub csrf_secret_hash : Text

unfoldable pub client_hashes :
    Unicode → Crypto → Settings → Option Text → Option Text → Option Text × Option Text
unfolding hmac_identifier
client_hashes u crypto settings ip_address user_agent = (
  hmac_identifier u crypto settings.app_secret_key (codes "client-ip") ip_address,
  hmac_identifier u crypto settings.app_secret_key (codes "user-agent") user_agent,
)

abbrev pub has_hash : Text → UserSession → Bool
has_hash h s = list_beq s.session_token_hash h

unfoldable pub get_by_token_hash : Text → List UserSession → Option UserSession
get_by_token_hash h rows = find (has_hash h) rows

abbrev pub session_id_of : UserSession → ℕ
session_id_of s = s.id

abbrev pub put_session : UserSession → Database → Database
put_session s db = record db { sessions = set_row session_id_of s.id s db.sessions }

-- The row that `create_record` adds. The raw token is drawn by `secrets`, the id by the database.
unfoldable pub new_session :
    Unicode → Crypto → Settings → ℕ → Text → User → Option Text → Option Text → ℕ → UserSession
unfolding client_hashes hash_session_token derive_csrf_secret_hash
new_session u crypto settings new_id raw_token user ip_address user_agent now =
    let token_hash = hash_session_token crypto raw_token in
    let (ip_hash, user_agent_hash) = client_hashes u crypto settings ip_address user_agent in
    let absolute_expires_at = now + settings.session_absolute_timeout_seconds in
    record {
      id = new_id;
      session_token_hash = token_hash;
      user_id = user.id;
      created_at = now;
      last_activity_at = now;
      expires_at = min (now + settings.session_idle_timeout_seconds) absolute_expires_at;
      absolute_expires_at = absolute_expires_at;
      revoked_at = none;
      user_agent_hash = user_agent_hash;
      ip_hash = ip_hash;
      csrf_secret_hash = derive_csrf_secret_hash u crypto settings.csrf_secret token_hash;
    }

unfoldable pub create_record :
    Unicode
    → Crypto
    → Settings
    → ℕ
    → Text
    → User
    → Option Text
    → Option Text
    → ℕ
    → Database
    → SessionCredentials × Database
create_record u crypto settings new_id raw_token user ip_address user_agent now db =
    let s = new_session u crypto settings new_id raw_token user ip_address user_agent now in
    (
      record {
        token = raw_token;
        user = user;
        expires_at = s.expires_at;
        absolute_expires_at = s.absolute_expires_at;
      },
      record db { sessions = db.sessions ++ s ∷ [] },
    )

-- The periodic advance of the idle deadline.
unfoldable pub touch : Settings → ℕ → UserSession → UserSession
touch settings now s =
    if leb (s.last_activity_at + settings.session_touch_interval_seconds) now
    then record s {
      last_activity_at = now;
      expires_at = min (now + settings.session_idle_timeout_seconds) s.absolute_expires_at;
    }
    else s

-- `a is not None and b is not None and not compare_digest(a, b)`
abbrev pub hash_changed : Option Text → Option Text → Bool
hash_changed (some a) (some b) = not (list_beq a b)
hash_changed (some a) none = false
hash_changed none b = false

-- The tests that end `authenticate` with `None`.
unfoldable pub is_live : ℕ → UserSession → User → Bool
is_live now s user =
    not (is_some s.revoked_at)
    && not (leb s.expires_at now || leb s.absolute_expires_at now)
    && user.is_active

abbrev pub get_user : ℕ → Database → Option User
get_user i db = get_row (λ (x : User). x.id) i db.users

unfoldable pub describe :
    Unicode
    → Crypto
    → Settings
    → Option Text
    → Option Text
    → User
    → UserSession
    → AuthenticatedSession
unfolding client_hashes
describe u crypto settings ip_address user_agent user s =
    let (ip_hash, user_agent_hash) = client_hashes u crypto settings ip_address user_agent in
    record {
      session_id = s.id;
      user = user;
      expires_at = s.expires_at;
      absolute_expires_at = s.absolute_expires_at;
      ip_changed = hash_changed s.ip_hash ip_hash;
      user_agent_changed = hash_changed s.user_agent_hash user_agent_hash;
      csrf_secret_hash = s.csrf_secret_hash;
    }

-- `authenticate` once the row and its user are loaded.
unfoldable pub accept :
    Unicode
    → Crypto
    → Settings
    → Option Text
    → Option Text
    → ℕ
    → User
    → UserSession
    → Database
    → Option AuthenticatedSession × Database
unfolding is_live touch
accept u crypto settings ip_address user_agent now user s db =
    if is_live now s user
    then (
      some (describe u crypto settings ip_address user_agent user (touch settings now s)),
      put_session (touch settings now s) db,
    )
    else (none, db)

unfoldable pub authenticate :
    Unicode
    → Crypto
    → Settings
    → Option Text
    → Option Text
    → Option Text
    → ℕ
    → Database
    → Option AuthenticatedSession × Database
unfolding accept get_by_token_hash hash_session_token
authenticate u crypto settings none ip_address user_agent now db = (none, db)
authenticate u crypto settings (some []) ip_address user_agent now db = (none, db)
authenticate u crypto settings (some (c ∷ token)) ip_address user_agent now db =
    elim (get_by_token_hash (hash_session_token crypto (c ∷ token)) db.sessions) [
      | none ↦ (none, db)
      | some s ↦ elim (get_user s.user_id db) [
        | none ↦ (none, db)
        | some user ↦ accept u crypto settings ip_address user_agent now user s db
      ]
    ]

abbrev pub session_event :
    AuditAction
    → Option ℕ
    → Option Text
    → Option ℕ
    → Option Text
    → Option Text
    → List (Text × Value)
    → AuditEvent
session_event action user_id entity_type entity_id request_id ip_hash metadata = record {
  user_id = user_id;
  action = action;
  result = AuditResult.success;
  entity_type = entity_type;
  entity_id = entity_id;
  request_id = request_id;
  ip_hash = ip_hash;
  safe_metadata = metadata;
}

unfoldable pub revoke :
    Unicode
    → Crypto
    → Settings
    → Option Text
    → Option Text
    → Option Text
    → ℕ
    → Database
    → Bool × Database
unfolding get_by_token_hash hash_session_token client_hashes
revoke u crypto settings none request_id ip_address now db = (false, db)
revoke u crypto settings (some []) request_id ip_address now db = (false, db)
revoke u crypto settings (some (c ∷ token)) request_id ip_address now db =
    elim (get_by_token_hash (hash_session_token crypto (c ∷ token)) db.sessions) [
      | none ↦ (false, db)
      | some s ↦ if is_some s.revoked_at then (false, db) else (
        true,
        record (put_session (record s { revoked_at = some now }) db) {
          audit_log =
              append_audit_event u
                (session_event AuditAction.admin_logout (some s.user_id) (some (codes "session"))
                  (some s.id) request_id (client_hashes u crypto settings ip_address none).0 [])
                db.audit_log;
        },
      )
    ]

-- The rows that the bulk UPDATE of `revoke_all_for_user` selects.
abbrev pub is_except : Option ℕ → ℕ → Bool
is_except none i = false
is_except (some e) i = nat_beq i e

abbrev pub revocable : ℕ → Option ℕ → UserSession → Bool
revocable user_id except_session_id s =
    nat_beq s.user_id user_id
    && not (is_some s.revoked_at)
    && not (is_except except_session_id s.id)

unfoldable pub revoke_rows : ℕ → ℕ → Option ℕ → UserSession → UserSession
revoke_rows user_id now except_session_id s =
    if revocable user_id except_session_id s then record s { revoked_at = some now } else s

unfoldable pub revoke_all_rows : ℕ → ℕ → Option ℕ → List UserSession → ℕ × List UserSession
unfolding revoke_rows
revoke_all_rows user_id now except_session_id rows = (
  length (filter_rows (revocable user_id except_session_id) rows),
  map (revoke_rows user_id now except_session_id) rows,
)

unfoldable pub revoke_all_for_user :
    Unicode → ℕ → Option ℕ → Option Text → ℕ → Database → ℕ × Database
unfolding revoke_all_rows
revoke_all_for_user u user_id except_session_id request_id now db =
    let (count, rows) = revoke_all_rows user_id now except_session_id db.sessions in
    (
      count,
      record db {
        sessions = rows;
        audit_log =
            append_audit_event u
              (session_event AuditAction.admin_sessions_revoked (some user_id) (some (codes "user"))
                (some user_id) request_id none
                ((codes "revoked_count", Value.scalar (Scalar.int count)) ∷ []))
              db.audit_log;
      },
    )

abbrev pub is_expired : ℕ → UserSession → Bool
is_expired now s = leb s.expires_at now || leb s.absolute_expires_at now

abbrev pub is_unexpired : ℕ → UserSession → Bool
is_unexpired now s = not (is_expired now s)

unfoldable pub delete_expired : ℕ → List UserSession → ℕ × List UserSession
delete_expired now rows =
    (length (filter_rows (is_expired now) rows), filter_rows (is_unexpired now) rows)

unfoldable pub cleanup_expired : Unicode → Option Text → ℕ → Database → ℕ × Database
unfolding delete_expired
cleanup_expired u request_id now db =
    let (count, rows) = delete_expired now db.sessions in
    (
      count,
      record db {
        sessions = rows;
        audit_log =
            append_audit_event u
              (session_event AuditAction.expired_sessions_cleaned none none none request_id none
                ((codes "deleted_count", Value.scalar (Scalar.int count)) ∷ []))
              db.audit_log;
      },
    )
