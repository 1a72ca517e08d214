-- ===== src/Auth/Accounts.antt =====
-- services/auth_service.py: creating an administrator, and revoking one's sessions by name. The
-- table's unique constraint is the search that `create_admin` makes first: no other transaction
-- runs between them.
use software_hub.Prelude.{
  ℕ, ◌≡◌, ◌∙◌, ap, Bool, true, Option, none, some, [], ◌∷◌, ◌++◌, Text, codes, is_some, list_beq,
  list_beq_iff, nat_eq, arith, inl, inr, Option-cases, find-append,
}
use software_hub.Errors.{
  ApplicationError, Result, ok, err, ◌>>=◌, ◌>>◌, raise_if, or_raise, Result-cases,
}
use software_hub.Unicode.{Unicode, strip}
use software_hub.Models.{User}
use software_hub.Audit.{AuditAction, AuditResult, append_audit_event}
use software_hub.Security.{Crypto, Settings, validate_password, hash_password, normalize_username}
use software_hub.Database.{Database, Transaction}
use software_hub.Sessions.{revoke_all_for_user}
use software_hub.Auth.{get_by_username}

abbrev pub already_exists : ApplicationError
already_exists = ApplicationError.entity_conflict "Administrator username already exists."

unfoldable pub create_admin :
    Unicode → Crypto → Settings → Text → ℕ → Text → Text → Bool → Option Text → ℕ → Transaction User
create_admin u crypto settings salt new_id username password is_superuser request_id now db = do
  normalized ← normalize_username u username
  password_hash ← hash_password u crypto settings salt password normalized
  raise_if (is_some (get_by_username u normalized db.users)) already_exists
  let user : User = record {
    id = new_id;
    username = normalized;
    password_hash = password_hash;
    is_active = true;
    is_superuser = is_superuser;
    failed_login_attempts = 0;
    locked_until = none;
    password_changed_at = some now;
    last_login_at = none;
  }
  ok (
    user,
    record db {
      users = db.users ++ user ∷ [];
      audit_log =
          append_audit_event u
            (record {
              user_id = some new_id;
              action = AuditAction.admin_created;
              result = AuditResult.success;
              entity_type = some (codes "user");
              entity_id = some new_id;
              request_id = request_id;
              ip_hash = none;
              safe_metadata = [];
            })
            db.audit_log;
    },
  )

-- `get_user`
unfoldable pub find_admin : Unicode → Text → Database → Result User
find_admin u username db = do
  normalized ← normalize_username u username
  or_raise (get_by_username u normalized db.users)
      (ApplicationError.entity_not_found "Administrator was not found.")

unfoldable pub revoke_sessions : Unicode → Text → Option Text → ℕ → Transaction ℕ
revoke_sessions u username request_id now db = do
  user ← find_admin u username db
  ok (revoke_all_for_user u user.id none request_id now db)

find_admin_found :
    (u : Unicode) (username name : Text) (db : Database) (x : User)
    → normalize_username u username ≡ ok name
    → get_by_username u name db.users ≡ some x
    → find_admin u username db ≡ ok x
unfolding find_admin
find_admin_found u username name db x good found = ground arith

module _ (u : Unicode) (crypto : Crypto) (settings : Settings) (salt : Text) (new_id : ℕ)
    (username password : Text) (is_superuser : Bool) (request_id : Option Text) (now : ℕ)
    (db : Database) (x : User) where
  create_admin_taken :
      (name hash : Text)
      → normalize_username u username ≡ ok name
      → hash_password u crypto settings salt password name ≡ ok hash
      → get_by_username u name db.users ≡ some x
      → create_admin u crypto settings salt new_id username password is_superuser request_id now db
        ≡ err already_exists
  unfolding create_admin
  create_admin_taken name hash good strong found = ground arith

module _ (u : Unicode) (crypto : Crypto) (settings : Settings) (salt : Text) (new_id : ℕ)
    (username password : Text) (is_superuser : Bool) (request_id : Option Text) (now : ℕ)
    (db db' : Database) (x : User) where
  create_admin-written :
      create_admin u crypto settings salt new_id username password is_superuser request_id now db
        ≡ ok (x, db')
      → (normalize_username u username ≡ ok x.username)
        × (hash_password u crypto settings salt password x.username ≡ ok x.password_hash)
        × (x.password_hash ≡ crypto.argon2_hash salt password)
        × (get_by_username u x.username db.users ≡ none)
        × (x.is_active ≡ true)
        × (x.locked_until ≡ none)
        × (db'.users ≡ db.users ++ x ∷ [])
  unfolding create_admin hash_password
  create_admin-written h = elim (Result-cases (normalize_username u username)) [
    | inr (e, bad) ↦ absurd (ground arith)
    | inl (name, good) ↦ elim (Result-cases (validate_password u settings password name)) [
      | inr (e, weak) ↦ absurd (ground arith)
      | inl (done, strong) ↦ elim (Option-cases (get_by_username u name db.users)) [
        | inr (old, taken) ↦ absurd (ground arith)
        | inl free ↦ ground arith
      ]
    ]
  ]

  -- A created account is active and unlocked, holds the hash of its password, takes a name that no
  -- account had, and is found under it afterwards; creating it again raises a conflict. The name is
  -- one that lower-casing and folding treat alike.
  pub create_admin-find_admin :
      create_admin u crypto settings salt new_id username password is_superuser request_id now db
        ≡ ok (x, db')
      → u.lower x.username ≡ u.casefold (strip u x.username)
      → (get_by_username u x.username db.users ≡ none)
        × (x.is_active ≡ true)
        × (x.locked_until ≡ none)
        × (x.password_hash ≡ crypto.argon2_hash salt password)
        × (find_admin u username db' ≡ ok x)
        × (create_admin u crypto settings salt new_id username password is_superuser request_id now
              db'
            ≡ err already_exists)
  unfolding get_by_username
  create_admin-find_admin h plain =
      let w = create_admin-written h in
      let found : get_by_username u x.username db'.users ≡ some x =
        ap (get_by_username u x.username) w.6
        ∙ find-append
            (λ (y : User). list_beq (u.lower y.username) (u.casefold (strip u x.username))) db.users
            x w.3 ((list_beq_iff _ _).1 plain) in
      (
        w.3,
        w.4,
        w.5,
        w.2,
        find_admin_found u username x.username db' x w.0 found,
        create_admin_taken u crypto settings salt new_id username password is_superuser request_id
            now db' x x.username x.password_hash w.0 w.1 found,
      )
