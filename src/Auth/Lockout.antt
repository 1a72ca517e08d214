-- ===== src/Auth/Lockout.antt =====
-- Who can log in, and how wrong passwords lock an account.
use software_hub.Prelude.{
  leb, list_eq, nat_eq, list_beq_iff, list_beq_unequal, Option-cases, inl, inr, ◌≢◌, ◌∙◌, ap,
  get_row, get_row-set_row_self, get_row-set_row_ne, if◌then◌else◌, ℕ, ◌+◌, ◌<◌, ◌≡◌, true, false,
  none, some, List, [], ◌∷◌, Text, arith, length, set_row,
}
use software_hub.Errors.{ok, is_ok}
use software_hub.Unicode.{Unicode, strip}
use software_hub.Models.{User}
use software_hub.Security.{Crypto, Settings, validate_password, hash_password}
use software_hub.Database.{Database, committed}
use software_hub.Sessions.{SessionCredentials}
use software_hub.Auth.{
  LoginContext, Draws, is_locked, lift_lock, count_failure, login_user, user_id_of,
}

-- While an account is locked, no password gets in, and neither its row nor any session changes.
pub locked_refuses :
    (u : Unicode) (crypto : Crypto) (settings : Settings) (draws : Draws) (context : LoginContext)
    (now : ℕ) (password : Text) (x : User) (db : Database)
    → is_locked now x ≡ true
    → (db' : Database) × (login_user u crypto settings draws context now password x db
        ≡ ok (none, db'))
      × (db'.users ≡ db.users)
      × (db'.sessions ≡ db.sessions)
unfolding login_user
locked_refuses u crypto settings draws context now password x db h = (
  committed db (login_user u crypto settings draws context now password x db),
  ground arith,
  ground arith,
  ground arith,
)

-- The failures that count for an account that is not locked: a lock that has run out has wiped
-- them.
abbrev pub failures_before : User → ℕ
failures_before x = elim x.locked_until [ none ↦ x.failed_login_attempts | some t ↦ 0 ]

-- How a wrong password leaves an account that was not locked.
counted_row :
    (settings : Settings) (now : ℕ) (x : User)
    → is_locked now x ≡ false
    → let y = count_failure settings now (lift_lock now x) in
      (y.id ≡ x.id)
      × (y.failed_login_attempts ≡ failures_before x + 1)
      × (y.locked_until ≡ (
          if leb settings.login_max_failed_attempts (failures_before x + 1)
          then some (now + settings.login_lockout_seconds)
          else none))
      × (y.password_hash ≡ x.password_hash)
      × (y.is_active ≡ x.is_active)
unfolding count_failure lift_lock is_locked
counted_row settings now x h = elim (Option-cases x.locked_until) [
  | inl never ↦ ground arith
  | inr (t, expired) ↦ ground arith
]

refused_users :
    (u : Unicode) (crypto : Crypto) (settings : Settings) (draws : Draws) (context : LoginContext)
    (now : ℕ) (password : Text) (x : User) (db : Database)
    → is_locked now x ≡ false
    → crypto.argon2_verify x.password_hash password ≡ false
    → (db' : Database) × (login_user u crypto settings draws context now password x db
        ≡ ok (none, db'))
      × (db'.users
          ≡ set_row user_id_of x.id (count_failure settings now (lift_lock now x)) db.users)
      × (db'.sessions ≡ db.sessions)
unfolding login_user
refused_users u crypto settings draws context now password x db h w = (
  committed db (login_user u crypto settings draws context now password x db),
  ground arith,
  ground arith,
  ground arith,
)

-- A wrong password for a stored account that is not locked is refused and makes no session. The
-- account's row then counts one failure more than before, none having counted before where a lock
-- has run out; it is locked for the configured time from now where the count has reached the limit,
-- and open otherwise; its password and its state are those of before, and so are all other rows.
pub wrong_password_counted :
    (u : Unicode) (crypto : Crypto) (settings : Settings) (draws : Draws) (context : LoginContext)
    (now : ℕ) (password : Text) (x : User) (db : Database)
    → get_row user_id_of x.id db.users ≡ some x
    → is_locked now x ≡ false
    → crypto.argon2_verify x.password_hash password ≡ false
    → (db' : Database) × (y : User) × (login_user u crypto settings draws context now password x db
        ≡ ok (none, db'))
      × (get_row user_id_of x.id db'.users ≡ some y)
      × (y.failed_login_attempts ≡ failures_before x + 1)
      × (y.locked_until ≡ (
          if leb settings.login_max_failed_attempts (failures_before x + 1)
          then some (now + settings.login_lockout_seconds)
          else none))
      × (y.password_hash ≡ x.password_hash)
      × (y.is_active ≡ x.is_active)
      × ((j : ℕ) → x.id ≢ j → get_row user_id_of j db'.users ≡ get_row user_id_of j db.users)
      × (db'.sessions ≡ db.sessions)
wrong_password_counted u crypto settings draws context now password x db stored h w =
    let y = count_failure settings now (lift_lock now x) in
    let (id, attempts, locked, hash, active) = counted_row settings now x h in
    let (db', refused, users, sessions) =
      refused_users u crypto settings draws context now password x db h w in
    (
      db',
      y,
      refused,
      ap (get_row user_id_of x.id) users
          ∙ get_row-set_row_self user_id_of x.id y db.users x id stored,
      attempts,
      locked,
      hash,
      active,
      λ j other.
          ap (get_row user_id_of j) users
          ∙ get_row-set_row_ne user_id_of x.id j y db.users id other,
      sessions,
    )

-- Failures at the given times, one after the other, none of them under a lock.
unfoldable pub failures : Settings → List ℕ → User → User
failures settings [] x = x
failures settings (t ∷ ts) x = failures settings ts (count_failure settings t (lift_lock t x))

abbrev pub last_time : ℕ → List ℕ → ℕ
last_time t [] = t
last_time t (s ∷ ts) = last_time s ts

-- Fewer failures than the limit leave the account open with all of them counted.
pub failures-below_limit :
    (settings : Settings) (ts : List ℕ) (x : User)
    → x.locked_until ≡ none
    → x.failed_login_attempts + length ts < settings.login_max_failed_attempts
    → ((failures settings ts x).locked_until ≡ none)
      × ((failures settings ts x).failed_login_attempts ≡ x.failed_login_attempts + length ts)
unfolding failures count_failure lift_lock
failures-below_limit settings [] x unlocked below = (unlocked, omega arith)
failures-below_limit settings (t ∷ ts) x unlocked below =
    let x' = count_failure settings t (lift_lock t x) in
    let step : (x'.locked_until ≡ none) × (x'.failed_login_attempts ≡ x.failed_login_attempts + 1) =
      ground arith in
    let (o, n) = failures-below_limit settings ts x' step.0 (omega arith) in (o, omega arith)

-- The failure that reaches the limit locks the account for the configured time.
pub failures-lock :
    (settings : Settings) (t : ℕ) (ts : List ℕ) (x : User)
    → x.locked_until ≡ none
    → x.failed_login_attempts + length (t ∷ ts) ≡ settings.login_max_failed_attempts
    → (failures settings (t ∷ ts) x).locked_until
      ≡ some (last_time t ts + settings.login_lockout_seconds)
unfolding failures count_failure lift_lock
failures-lock settings t [] x unlocked reached = ground arith
failures-lock settings t (s ∷ ts) x unlocked reached =
    let x' = count_failure settings t (lift_lock t x) in
    let step : (x'.locked_until ≡ none) × (x'.failed_login_attempts ≡ x.failed_login_attempts + 1) =
      ground arith in
    failures-lock settings s ts x' step.0 (omega arith)

lift_lock-fields :
    (now : ℕ) (x : User)
    → ((lift_lock now x).password_hash ≡ x.password_hash)
      × ((lift_lock now x).is_active ≡ x.is_active)
      × ((lift_lock now x).username ≡ x.username)
unfolding lift_lock
lift_lock-fields now x = ground arith

-- Who gets a session was not locked, gave the right password, and is active.
pub login_user_sound :
    (u : Unicode) (crypto : Crypto) (settings : Settings) (draws : Draws) (context : LoginContext)
    (now : ℕ) (password : Text) (x : User) (db db' : Database) (credentials : SessionCredentials)
    → login_user u crypto settings draws context now password x db ≡ ok (some credentials, db')
    → (is_locked now x ≡ false)
      × (crypto.argon2_verify x.password_hash password ≡ true)
      × (x.is_active ≡ true)
unfolding login_user
login_user_sound u crypto settings draws context now password x db db' credentials h =
    ground (arith, lift_lock-fields now x)

-- The four ways in which a password breaks the policy for a user of this name.
pub data BreaksPolicy (u : Unicode) (settings : Settings) (password username : Text) : Type 0 where
  too_short :
      length password < settings.password_min_length → BreaksPolicy u settings password username
  too_long :
      settings.password_max_length < length password → BreaksPolicy u settings password username
  padded : password ≢ strip u password → BreaksPolicy u settings password username
  same_as_username :
      u.casefold password ≡ u.casefold username → BreaksPolicy u settings password username

validate_password-BreaksPolicy :
    (u : Unicode) (settings : Settings) (password username : Text)
    → BreaksPolicy u settings password username
    → is_ok (validate_password u settings password username) ≡ false
unfolding validate_password
validate_password-BreaksPolicy u settings password username (too_short h) = ground (arith, h)
validate_password-BreaksPolicy u settings password username (too_long h) = ground (arith, h)
validate_password-BreaksPolicy u settings password username (padded h) =
    ground (arith, list_beq_unequal password (strip u password) h)
validate_password-BreaksPolicy u settings password username (same_as_username h) =
    ground (arith, (list_beq_iff (u.casefold password) (u.casefold username)).1 h)

-- A user who is not locked, is active and gives the right password is refused by an error after
-- all, where the stored hash is to be replaced and the password breaks the policy of today in one of
-- its four ways (shorter than the minimum, longer than the maximum, with white space at an end, or
-- the username but for case): the replacement checks the policy again.
pub rehash_enforces_policy :
    (u : Unicode) (crypto : Crypto) (settings : Settings) (draws : Draws) (context : LoginContext)
    (now : ℕ) (password : Text) (x : User) (db : Database)
    → is_locked now x ≡ false
    → crypto.argon2_verify x.password_hash password ≡ true
    → x.is_active ≡ true
    → crypto.argon2_needs_rehash x.password_hash ≡ true
    → BreaksPolicy u settings password x.username
    → is_ok (login_user u crypto settings draws context now password x db) ≡ false
unfolding login_user hash_password
rehash_enforces_policy u crypto settings draws context now password x db h v a r broken =
    let refused = validate_password-BreaksPolicy u settings password x.username broken in
    ground (arith, lift_lock-fields now x, refused)
