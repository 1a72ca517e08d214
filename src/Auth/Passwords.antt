-- ===== src/Auth/Passwords.antt =====
-- A changed password: it ends every session of its user and lifts the lockout.
use mathlib.Core.Option
use software_hub.Prelude.{
  Bool, refl, list_beq, list_eq, nat_eq, find-holds, find-set_row, ℕ, ◌≡◌, ◌∙◌, sym, subst, ap, inl,
  inr, true, Option, none, some, Text, arith, map, find-map, is_some, set_row, Option-cases,
}
use software_hub.Errors.{ok, Result-cases}
use software_hub.Unicode.{Unicode, strip}
use software_hub.Models.{User, UserSession}
use software_hub.Security.{Crypto, Settings, hash_password, validate_password, normalize_username}
use software_hub.Database.{Database}
use software_hub.Sessions.{authenticate, get_by_token_hash, has_hash, revoke_rows, revoke_all_rows}
use software_hub.Security.{hash_session_token}
use software_hub.Sessions.Revocation.{revoked_refused, revoke_rows-cases, revoke_rows-has_hash}
use software_hub.Auth.Accounts.{find_admin}
use software_hub.Auth.{change_password, get_by_username, user_id_of}

module _ (u : Unicode) (crypto : Crypto) (settings : Settings) (salt username new_password : Text)
    (request_id : Option Text) (now : ℕ) (db db' : Database) (x' : User) where
  pub change_password-written :
      change_password u crypto settings salt username new_password request_id now db ≡ ok (x', db')
      → (db'.sessions ≡ map (revoke_rows x'.id now none) db.sessions)
        × (db'.users ≡ set_row user_id_of x'.id x' db.users)
        × (x'.password_hash ≡ crypto.argon2_hash salt new_password)
        × (x'.failed_login_attempts ≡ 0)
        × (x'.locked_until ≡ none)
        × ((name : Text) × (x : User) × (normalize_username u username ≡ ok name)
            × (get_by_username u name db.users ≡ some x)
            × (x'.id ≡ x.id)
            × (x'.username ≡ x.username))
  unfolding change_password hash_password revoke_all_rows
  change_password-written h = elim (Result-cases (normalize_username u username)) [
    | inr (e, bad) ↦ absurd (ground arith)
    | inl (name, good) ↦ elim (Result-cases (validate_password u settings new_password name)) [
      | inr (e, weak) ↦ absurd (ground arith)
      | inl (done, strong) ↦ elim (Option-cases (get_by_username u name db.users)) [
        | inl missing ↦ absurd (ground arith)
        | inr (x, found) ↦ (
          ground arith,
          ground arith,
          ground arith,
          ground arith,
          ground arith,
          (name, x, good, found, ground arith, ground arith),
        )
      ]
    ]
  ]

  -- The row that is read back under the name is the one that was written.
  pub change_password-find_admin :
      change_password u crypto settings salt username new_password request_id now db ≡ ok (x', db')
      → find_admin u username db' ≡ ok x'
  unfolding find_admin get_by_username
  change_password-find_admin h =
      let w = change_password-written h in
      let (name, x, good, found, id, kept) = w.5 in
      let named : User → Bool = λ y. list_beq (u.lower y.username) (u.casefold (strip u name)) in
      let still : named x' ≡ true =
        ap (λ (n : Text). list_beq (u.lower n) (u.casefold (strip u name))) kept
        ∙ find-holds named db.users x found in
      let found' : get_by_username u name db'.users ≡ some x' =
        ap (get_by_username u name) w.1
        ∙ find-set_row user_id_of named x'.id x' db.users x still found (sym id) in
      rw (good) (rw (found') refl)

  -- After a change of the password, every token that named a session of this user is refused, at
  -- any time and from anywhere; the row that is found under the user's name in the new table is
  -- the returned one: its account is open, and it holds the new password's hash.
  pub change_password_ends_sessions :
      (token : Text) (s : UserSession) (ip agent : Option Text) (later : ℕ)
      → change_password u crypto settings salt username new_password request_id now db
        ≡ ok (x', db')
      → get_by_token_hash (hash_session_token crypto token) db.sessions ≡ some s
      → s.user_id ≡ x'.id
      → ((authenticate u crypto settings (some token) ip agent later db').0 ≡ none)
        × (x'.locked_until ≡ none)
        × (x'.failed_login_attempts ≡ 0)
        × (x'.password_hash ≡ crypto.argon2_hash salt new_password)
        × (find_admin u username db' ≡ ok x')
  unfolding get_by_token_hash
  change_password_ends_sessions token s ip agent later h found own =
      let w = change_password-written h in
      let key = hash_session_token crypto token in
      let s' = revoke_rows x'.id now none s in
      let found' : get_by_token_hash key db'.sessions ≡ some s' =
        subst (λ rows. get_by_token_hash key rows ≡ some s') (sym w.0)
          (find-map (has_hash key) (revoke_rows x'.id now none)
              (revoke_rows-has_hash key x'.id now none) db.sessions
            ∙ ap (Option.map (revoke_rows x'.id now none)) found) in
      let revoked : is_some s'.revoked_at ≡ true =
        ground (arith, revoke_rows-cases x'.id now none s) in
      (
        ap (λ p. p.0)
            (revoked_refused u crypto settings token ip agent later db' s' found' revoked),
        w.4,
        w.3,
        w.2,
        change_password-find_admin h,
      )
