-- ===== src/Auth.antt =====
-- services/auth_service.py: login with its lockout, and the change of a password; Accounts holds the
-- creation of administrators.
pub mod Accounts
pub mod Lockout
pub mod Passwords
pub mod Tests
use software_hub.Prelude.{
  ℕ, ◌+◌, Bool, true, false, ◌&&◌, ◌||◌, not, Option, none, some, List, [], ◌∷◌, ◌++◌, Text, codes,
  leb, ltb, nat_eq, list_beq, is_some, find, set_row, get_row, if◌then◌else◌,
}
use software_hub.Errors.{ApplicationError, Result, ok, err, ◌>>=◌, ◌>>◌, raise_if, or_raise}
use software_hub.Unicode.{Unicode, strip}
use software_hub.Models.{User, UserSession}
use software_hub.Audit.{AuditAction, AuditResult, AuditEvent, Scalar, Value, append_audit_event}
use software_hub.Security.{
  Crypto, Settings, hash_session_token, hash_password, hmac_identifier, normalize_username,
}
use software_hub.Database.{Database, Transaction}
use software_hub.Sessions.{
  SessionCredentials, client_hashes, create_record, get_by_token_hash, put_session, revoke_all_rows,
}

pub record LoginContext : Type 0 where
  pub ip_address : Option Text
  pub user_agent : Option Text
  pub request_id : Option Text
  pub previous_session_token : Option Text

-- What the libraries draw during one login: the salt, the token, the id of the new row.
pub record Draws : Type 0 where
  pub salt : Text
  pub raw_token : Text
  pub new_id : ℕ

-- `UserRepository.get_by_username`
unfoldable pub get_by_username : Unicode → Text → List User → Option User
get_by_username u username rows =
    find (λ x. list_beq (u.lower x.username) (u.casefold (strip u username))) rows

abbrev pub user_id_of : User → ℕ
user_id_of x = x.id

abbrev pub put_user : User → Database → Database
put_user x db = record db { users = set_row user_id_of x.id x db.users }

-- `user.locked_until is not None and user.locked_until > now`
unfoldable pub is_locked : ℕ → User → Bool
is_locked now x = elim x.locked_until [ none ↦ false | some t ↦ ltb now t ]

-- A lock that has run out is lifted, with its counter.
unfoldable pub lift_lock : ℕ → User → User
lift_lock now x = elim x.locked_until [
  | none ↦ x
  | some t ↦ if leb t now then record x { locked_until = none; failed_login_attempts = 0 } else x
]

-- A wrong password is counted, and at the limit it locks the account.
unfoldable pub count_failure : Settings → ℕ → User → User
count_failure settings now x =
    let attempts = x.failed_login_attempts + 1 in
    if leb settings.login_max_failed_attempts attempts
    then record x {
      failed_login_attempts = attempts;
      locked_until = some (now + settings.login_lockout_seconds);
    }
    else record x { failed_login_attempts = attempts }

-- The row of a user whose password was right, before the session is made.
unfoldable pub rehashed : Unicode → Crypto → Settings → Text → Text → User → Result User
rehashed u crypto settings salt password x =
    if crypto.argon2_needs_rehash x.password_hash
    then (do
      h ← hash_password u crypto settings salt password x.username
      ok (record x { password_hash = h }))
    else ok x

abbrev logged_in : ℕ → User → User
logged_in now x = record x {
  failed_login_attempts = 0;
  locked_until = none;
  last_login_at = some now;
}

-- The session of the previous cookie, if it is live, is revoked.
unfoldable pub revoke_previous : Crypto → Option Text → ℕ → Database → Database
revoke_previous crypto none now db = db
revoke_previous crypto (some []) now db = db
revoke_previous crypto (some (c ∷ token)) now db =
    elim (get_by_token_hash (hash_session_token crypto (c ∷ token)) db.sessions) [
      | none ↦ db
      | some s ↦
          if is_some s.revoked_at then db else put_session (record s { revoked_at = some now }) db
    ]

-- A login event; `reason` is its metadata.
unfoldable pub login_event :
    Unicode
    → AuditAction
    → AuditResult
    → Option ℕ
    → LoginContext
    → Option Text
    → List (Text × Value)
    → Database
    → Database
login_event u action result user_id context ip_hash metadata db = record db {
  audit_log =
      append_audit_event u
        (record {
          user_id = user_id;
          action = action;
          result = result;
          entity_type = elim user_id [ none ↦ none | some i ↦ some (codes "user") ];
          entity_id = user_id;
          request_id = context.request_id;
          ip_hash = ip_hash;
          safe_metadata = metadata;
        })
        db.audit_log;
}

abbrev pub reason : Text → List (Text × Value)
reason t = (codes "reason", Value.scalar (Scalar.text t)) ∷ []

abbrev optional_text : Option Text → Value
optional_text none = Value.scalar Scalar.null
optional_text (some t) = Value.scalar (Scalar.text t)

-- The failure branch behind the password check; the reason names what happened.
unfoldable pub refuse :
    Unicode → Settings → LoginContext → Option Text → ℕ → Bool → User → Database → Database
unfolding count_failure login_event
refuse u settings context ip_hash now true x db =
    login_event u AuditAction.admin_login_failed AuditResult.failure (some x.id) context ip_hash
      (reason (codes "inactive")) (put_user x db)
refuse u settings context ip_hash now false x db =
    login_event u AuditAction.admin_login_failed AuditResult.failure (some x.id) context ip_hash
      (reason (
        if leb settings.login_max_failed_attempts (x.failed_login_attempts + 1)
        then codes "lockout_started"
        else codes "invalid_credentials"))
      (put_user (count_failure settings now x) db)

-- The success branch: the row is written, the session rotated, the event appended.
unfoldable pub admit :
    Unicode
    → Crypto
    → Settings
    → Draws
    → LoginContext
    → Option Text
    → ℕ
    → Text
    → User
    → Transaction (Option SessionCredentials)
unfolding rehashed revoke_previous login_event
admit u crypto settings draws context ip_hash now password x db = do
  x' ← rehashed u crypto settings draws.salt password x
  let db1 =
      revoke_previous crypto context.previous_session_token now (put_user (logged_in now x') db)
  let (credentials, db2) =
      create_record u crypto settings draws.new_id draws.raw_token (logged_in now x')
        context.ip_address context.user_agent now db1
  ok (
    some credentials,
    login_event u AuditAction.admin_login_success AuditResult.success (some x.id) context ip_hash []
        db2,
  )

-- `login` once the user is known.
unfoldable pub login_user :
    Unicode
    → Crypto
    → Settings
    → Draws
    → LoginContext
    → ℕ
    → Text
    → User
    → Transaction (Option SessionCredentials)
unfolding is_locked lift_lock refuse admit
login_user u crypto settings draws context now password x db =
    let (ip_hash, agent_hash) =
      client_hashes u crypto settings context.ip_address context.user_agent in
    if is_locked now x
    then ok (
      none,
      login_event u AuditAction.admin_login_failed AuditResult.failure (some x.id) context ip_hash
          (reason (codes "temporarily_locked")) db,
    )
    else (let x' = lift_lock now x in
        let valid_password = crypto.argon2_verify x'.password_hash password in
        if not valid_password || not x'.is_active
        then ok (none, refuse u settings context ip_hash now valid_password x' db)
        else admit u crypto settings draws context ip_hash now password x' db)

-- `normalize_username`, or the folded text where that raises
unfoldable pub login_name : Unicode → Text → Text
login_name u username = elim (normalize_username u username) [
  | ok n ↦ n
  | err e ↦ u.casefold (strip u username)
]

unfoldable pub login :
    Unicode
    → Crypto
    → Settings
    → Draws
    → LoginContext
    → ℕ
    → Text
    → Text
    → Transaction (Option SessionCredentials)
unfolding login_user login_name get_by_username
login u crypto settings draws context now username password db =
    elim (get_by_username u (login_name u username) db.users) [
      | none ↦ ok (
        none,
        login_event u AuditAction.admin_login_failed AuditResult.failure none context
            (client_hashes u crypto settings context.ip_address context.user_agent).0
            ((codes "reason", Value.scalar (Scalar.text (codes "invalid_credentials")))
              ∷ (
                codes "username_hash",
                optional_text (
                    hmac_identifier u crypto settings.app_secret_key (codes "login-username")
                      (some (login_name u username))),
              )
              ∷ [])
            db,
      )
      | some x ↦ login_user u crypto settings draws context now password x db
    ]

unfoldable pub change_password :
    Unicode → Crypto → Settings → Text → Text → Text → Option Text → ℕ → Transaction User
unfolding get_by_username
change_password u crypto settings salt username new_password request_id now db = do
  normalized ← normalize_username u username
  new_hash ← hash_password u crypto settings salt new_password normalized
  x ←
      or_raise (get_by_username u normalized db.users)
        (ApplicationError.entity_not_found "Administrator was not found.")
  let x' : User = record x {
    password_hash = new_hash;
    password_changed_at = some now;
    failed_login_attempts = 0;
    locked_until = none;
  }
  let (revoked, rows) = revoke_all_rows x.id now none db.sessions
  ok (
    x',
    record (put_user x' db) {
      sessions = rows;
      audit_log =
          append_audit_event u
            (record {
              user_id = some x.id;
              action = AuditAction.admin_password_changed;
              result = AuditResult.success;
              entity_type = some (codes "user");
              entity_id = some x.id;
              request_id = request_id;
              ip_hash = none;
              safe_metadata = (codes "revoked_count", Value.scalar (Scalar.int revoked)) ∷ [];
            })
            db.audit_log;
    },
  )
