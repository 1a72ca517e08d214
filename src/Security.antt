-- ===== src/Security.antt =====
-- core/security.py: the password policy, usernames and keyed identifiers. SHA-256, HMAC and
-- Argon2id are libraries: they are the fields of `Crypto`.
use Prim.Native.String
use software_hub.Prelude.{
  ℕ, Bool, false, ◌&&◌, ◌||◌, not, Option, none, some, [], ◌∷◌, ◌++◌, Text, codes, ltb, leb,
  nat_beq, nat_eq, list_beq, length, if◌then◌else◌,
}
use software_hub.Errors.{ApplicationError, Result, ok, err, ◌>>◌, raise_if}
use software_hub.Unicode.{Unicode, strip}
use software_hub.Normalization.{decimal}

pub record Crypto : Type 0 where
  pub sha256_hex : Text → Text
  -- key, message
  pub hmac_sha256_hex : Text → Text → Text
  -- hash, password; a malformed hash counts as a failure
  pub argon2_verify : Text → Text → Bool
  -- salt, password
  pub argon2_hash : Text → Text → Text
  pub argon2_needs_rehash : Text → Bool

-- The fields of core/config.py that the services below read. The two secrets are set: without
-- them the services raise a `RuntimeError` and do nothing.
pub record Settings : Type 0 where
  pub app_secret_key : Text
  pub csrf_secret : Text
  pub session_absolute_timeout_seconds : ℕ
  pub session_idle_timeout_seconds : ℕ
  pub session_touch_interval_seconds : ℕ
  pub login_max_failed_attempts : ℕ
  pub login_lockout_seconds : ℕ
  pub password_min_length : ℕ
  pub password_max_length : ℕ

abbrev pub is_lower_or_digit : ℕ → Bool
is_lower_or_digit c = (leb b'a' c && leb c b'z') || (leb b'0' c && leb c b'9')

abbrev is_username_char : ℕ → Bool
is_username_char c = is_lower_or_digit c || nat_beq c b'.' || nat_beq c b'_' || nat_beq c b'-'

-- `[a-z0-9._-]*[a-z0-9]`, of any length
abbrev ends_in_word : Text → Bool
ends_in_word [] = false
ends_in_word (c ∷ []) = is_lower_or_digit c
ends_in_word (c ∷ d ∷ s) = is_username_char c && ends_in_word (d ∷ s)

-- `_USERNAME_PATTERN.fullmatch`: one word character, or 3 to 100 that begin and end in one.
unfoldable pub is_username : Text → Bool
is_username [] = false
is_username (c ∷ []) = is_lower_or_digit c
is_username (c ∷ d ∷ s) =
    is_lower_or_digit c && leb 2 (length (d ∷ s)) && leb (length (d ∷ s)) 99 && ends_in_word (d ∷ s)

unfoldable pub normalize_username : Unicode → Text → Result Text
unfolding is_username
normalize_username u username =
    let normalized = u.casefold (strip u username) in
    if is_username normalized
    then ok normalized
    else err (
        ApplicationError.validation_error
          "Username must contain 3 to 100 lowercase letters, digits, dots, underscores or hyphens.")

-- `PasswordService.validate`
unfoldable pub validate_password : Unicode → Settings → Text → Text → Result (Unit {0})
validate_password u settings password username = do
  raise_if (ltb (length password) settings.password_min_length) (
      ApplicationError.validation_error (
        String.◌++◌ "Password must contain at least "
          (String.◌++◌ (decimal 10 settings.password_min_length) " characters.")))
  raise_if (ltb settings.password_max_length (length password)) (
      ApplicationError.validation_error (
        String.◌++◌ "Password must contain at most "
          (String.◌++◌ (decimal 10 settings.password_max_length) " characters.")))
  raise_if (not (list_beq password (strip u password)))
      (ApplicationError.validation_error "Password cannot start or end with whitespace.")
  raise_if (list_beq (u.casefold password) (u.casefold username))
      (ApplicationError.validation_error "Password cannot be identical to the username.")

-- `PasswordService.hash_password`; the salt is drawn by the library.
unfoldable pub hash_password : Unicode → Crypto → Settings → Text → Text → Text → Result Text
unfolding validate_password
hash_password u crypto settings salt password username = do
  validate_password u settings password username
  ok (crypto.argon2_hash salt password)

unfoldable pub hash_session_token : Crypto → Text → Text
hash_session_token crypto token = crypto.sha256_hex token

unfoldable pub hmac_identifier : Unicode → Crypto → Text → Text → Option Text → Option Text
hmac_identifier u crypto secret purpose none = none
hmac_identifier u crypto secret purpose (some value) =
    let stripped = strip u value in
    if nat_beq (length stripped) 0
    then none
    else some (crypto.hmac_sha256_hex secret (purpose ++ 0 ∷ stripped))

-- `hmac_identifier(...) or ""`
unfoldable pub derive_csrf_secret_hash : Unicode → Crypto → Text → Text → Text
unfolding hmac_identifier
derive_csrf_secret_hash u crypto csrf_secret session_token_hash =
    elim (hmac_identifier u crypto csrf_secret (codes "csrf-session") (some session_token_hash)) [
      | none ↦ []
      | some h ↦ h
    ]
