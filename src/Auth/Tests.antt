-- ===== src/Auth/Tests.antt =====
-- The theorems on logins at one account.
use software_hub.Prelude.{
  ℕ, ◌≢◌, get_row, ◌≡◌, refl, true, false, none, some, [], ◌∷◌, codes, arith,
}
use software_hub.Errors.{ok, err, is_ok}
use software_hub.Unicode.{ascii, strip}
use software_hub.Models.{User}
use software_hub.Samples.{crypto, settings, user, user_session, user_database}
use software_hub.Database.{Database, committed}
use software_hub.Security.{Crypto, Settings, hash_session_token, normalize_username, hash_password}
use software_hub.Sessions.{
  authenticate, get_by_token_hash, SessionCredentials, create_record, new_session,
}
use software_hub.Auth.{
  Draws, LoginContext, is_locked, login_user, user_id_of, change_password, get_by_username,
}
use software_hub.Auth.Lockout.{
  locked_refuses, wrong_password_counted, failures, failures-below_limit, failures-lock,
  login_user_sound, rehash_enforces_policy, BreaksPolicy,
}
use software_hub.Auth.Accounts.{create_admin, find_admin, already_exists, create_admin-find_admin}
use software_hub.Auth.Passwords.{change_password_ends_sessions}

abbrev draws : Draws
draws = record { salt = codes "salt"; raw_token = codes "new"; new_id = 10 }

abbrev context : LoginContext
context = record {
  ip_address = none;
  user_agent = none;
  request_id = none;
  previous_session_token = some (codes "tok");
}

abbrev locked_user : User
locked_user = record user { locked_until = some 5000; failed_login_attempts = 2 }

locked_refuses_example :
    (db' : Database) × (login_user ascii crypto settings draws context 4000
        (codes "secret")
        locked_user
        user_database
      ≡ ok (none, db'))
    × (db'.users ≡ user_database.users)
    × (db'.sessions ≡ user_database.sessions)
unfolding is_locked
locked_refuses_example =
    locked_refuses ascii crypto settings draws context 4000 (codes "secret") locked_user
      user_database refl

wrong_password_counted_example :
    (db' : Database) × (y : User) × (login_user ascii crypto settings draws context 4000
        (codes "guess")
        user
        user_database
      ≡ ok (none, db'))
    × (get_row user_id_of 3 db'.users ≡ some y)
    × (y.failed_login_attempts ≡ 1)
    × (y.locked_until ≡ none)
    × (y.password_hash ≡ codes "secret")
    × (y.is_active ≡ true)
    × ((j : ℕ) → 3 ≢ j → get_row user_id_of j db'.users ≡ get_row user_id_of j user_database.users)
    × (db'.sessions ≡ user_database.sessions)
unfolding is_locked
wrong_password_counted_example =
    wrong_password_counted ascii crypto settings draws context 4000 (codes "guess") user
      user_database refl refl refl

failures-below_limit_example :
    ((failures settings (10 ∷ []) user).locked_until ≡ none)
    × ((failures settings (10 ∷ []) user).failed_login_attempts ≡ 1)
failures-below_limit_example = failures-below_limit settings (10 ∷ []) user refl (omega arith)

failures-lock_example : (failures settings (10 ∷ 20 ∷ []) user).locked_until ≡ some 920
failures-lock_example = failures-lock settings 10 (20 ∷ []) user refl refl

abbrev logged : Database
logged =
    committed user_database
      (login_user ascii crypto settings draws context 1500 (codes "secret") user user_database)

abbrev issued : SessionCredentials
issued = record {
  token = codes "new";
  user = record user { last_login_at = some 1500 };
  expires_at = 3300;
  absolute_expires_at = 44700;
}

logs_in :
    login_user ascii crypto settings draws context 1500 (codes "secret") user user_database
    ≡ ok (some issued, logged)
unfolding login_user create_record new_session
logs_in = refl

login_user_sound_example :
    (is_locked 1500 user ≡ false)
    × (crypto.argon2_verify (codes "secret") (codes "secret") ≡ true)
    × (true ≡ true)
login_user_sound_example =
    login_user_sound ascii crypto settings draws context 1500 (codes "secret") user user_database
      logged issued logs_in

-- The policy has become stricter, and the hash is of older parameters.
abbrev stricter : Settings
stricter = record settings { password_min_length = 12 }

abbrev newer_crypto : Crypto
newer_crypto = record crypto { argon2_needs_rehash = λ h. true }

rehash_enforces_policy_example :
    is_ok (
      login_user ascii newer_crypto stricter draws context 1500 (codes "secret") user user_database)
    ≡ false
unfolding is_locked
rehash_enforces_policy_example =
    rehash_enforces_policy ascii newer_crypto stricter draws context 1500 (codes "secret") user
      user_database refl refl refl refl (BreaksPolicy.too_short (omega arith))

abbrev changed_user : User
changed_user = record user { password_hash = codes "better"; password_changed_at = some 1600 }

abbrev changed : Database
changed = committed user_database (
    change_password ascii crypto settings (codes "salt") (codes "ann") (codes "better") none 1600
      user_database)

changes :
    change_password ascii crypto settings
      (codes "salt")
      (codes "ann")
      (codes "better")
      none
      1600
      user_database
    ≡ ok (changed_user, changed)
unfolding change_password normalize_username strip hash_password
changes = refl

change_password_ends_sessions_example :
    ((authenticate ascii crypto settings (some (codes "tok")) none none 1700 changed).0 ≡ none)
    × (changed_user.locked_until ≡ none)
    × (changed_user.failed_login_attempts ≡ 0)
    × (changed_user.password_hash ≡ codes "better")
    × (find_admin ascii (codes "ann") changed ≡ ok changed_user)
unfolding get_by_token_hash hash_session_token
change_password_ends_sessions_example =
    change_password_ends_sessions ascii crypto settings (codes "salt") (codes "ann")
      (codes "better") none 1600 user_database changed changed_user (codes "tok") user_session none
      none 1700 changes refl refl

abbrev created_user : User
created_user = record {
  id = 12;
  username = codes "eve1";
  password_hash = codes "better";
  is_active = true;
  is_superuser = true;
  failed_login_attempts = 0;
  locked_until = none;
  password_changed_at = some 1600;
  last_login_at = none;
}

abbrev with_created : Database
with_created = committed user_database (
    create_admin ascii crypto settings (codes "salt") 12 (codes " EVE1") (codes "better") true none
      1600 user_database)

creates :
    create_admin ascii crypto settings
      (codes "salt")
      12
      (codes " EVE1")
      (codes "better")
      true
      none
      1600
      user_database
    ≡ ok (created_user, with_created)
unfolding create_admin normalize_username strip hash_password get_by_username
creates = refl

create_admin-find_admin_example :
    (get_by_username ascii (codes "eve1") user_database.users ≡ none)
    × (created_user.is_active ≡ true)
    × (created_user.locked_until ≡ none)
    × (created_user.password_hash ≡ crypto.argon2_hash (codes "salt") (codes "better"))
    × (find_admin ascii (codes " EVE1") with_created ≡ ok created_user)
    × (create_admin ascii crypto settings
          (codes "salt")
          12
          (codes " EVE1")
          (codes "better")
          true
          none
          1600
          with_created
        ≡ err already_exists)
unfolding strip
create_admin-find_admin_example =
    create_admin-find_admin ascii crypto settings (codes "salt") 12 (codes " EVE1") (codes "better")
      true none 1600 user_database with_created created_user creates refl
