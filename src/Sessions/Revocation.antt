-- ===== src/Sessions/Revocation.antt =====
-- What ends a session: logout, a revocation of all sessions of a user, and the clean-up.
use mathlib.Core.Option
use software_hub.Prelude.{
  ℕ, ◌≤◌, ◌≡◌, ◌≢◌, ◌⊎◌, ◌∙◌, inl, inr, refl, true, false, Option, none, some, [], ◌∷◌, Text, arith,
  is_some, find-set_row, find-map, find-filter_rows, find-holds, Option-cases, Bool-cases, nat_eq,
  ap, nat_beq, nat_beq_iff,
}
use software_hub.Unicode.{Unicode}
use software_hub.Models.{User, UserSession}
use software_hub.Security.{Crypto, Settings, hash_session_token}
use software_hub.Database.{Database}
use software_hub.Sessions.{
  authenticate, get_by_token_hash, get_user, has_hash, session_id_of, revoke, revoke_all_for_user,
  revoke_rows, is_except, cleanup_expired, is_unexpired,
}
use software_hub.Sessions.Lifetime.{Admits}

-- A row that is revoked admits no one, whenever it is used.
pub revoked_refused :
    (u : Unicode) (crypto : Crypto) (settings : Settings) (token : Text) (ip agent : Option Text)
    (later : ℕ) (db : Database) (s : UserSession)
    → get_by_token_hash (hash_session_token crypto token) db.sessions ≡ some s
    → is_some s.revoked_at ≡ true
    → authenticate u crypto settings (some token) ip agent later db ≡ (none, db)
unfolding authenticate
revoked_refused u crypto settings [] ip agent later db s found revoked = refl
revoked_refused u crypto settings (c ∷ token) ip agent later db s found revoked =
    elim (Option-cases (get_user s.user_id db)) [
      | inl gone ↦ ground arith
      | inr (user, owner) ↦ ground arith
    ]

revoke-written :
    (u : Unicode) (crypto : Crypto) (settings : Settings) (token : Text)
    (request_id ip : Option Text) (now : ℕ) (db : Database)
    → (revoke u crypto settings (some token) request_id ip now db).0 ≡ true
    → (s : UserSession) × (get_by_token_hash
          (hash_session_token crypto token)
          (revoke u crypto settings (some token) request_id ip now db).1.sessions
        ≡ some s)
      × (is_some s.revoked_at ≡ true)
unfolding revoke
revoke-written u crypto settings [] request_id ip now db h = absurd (ground arith)
revoke-written u crypto settings (c ∷ token) request_id ip now db h =
    let key = hash_session_token crypto (c ∷ token) in
    elim (Option-cases (get_by_token_hash key db.sessions)) [
      | inl missing ↦ absurd (ground arith)
      | inr (s, found) ↦
          let s' : UserSession = record s { revoked_at = some now } in
          (
            s',
            ground (
              arith,
              find-set_row session_id_of (has_hash key) s.id s' db.sessions s
                  (find-holds (has_hash key) db.sessions s found) found refl,
            ),
            refl,
          )
    ]

-- Once a logout has succeeded, its token is refused at any later time and from anywhere.
pub revoke-authenticate :
    (u : Unicode) (crypto : Crypto) (settings : Settings) (token : Text)
    (request_id ip : Option Text) (now : ℕ) (db : Database) (ip' agent' : Option Text) (later : ℕ)
    → (revoke u crypto settings (some token) request_id ip now db).0 ≡ true
    → (authenticate u crypto settings
        (some token)
        ip'
        agent'
        later
        (revoke u crypto settings (some token) request_id ip now db).1).0
      ≡ none
revoke-authenticate u crypto settings token request_id ip now db ip' agent' later h =
    let db' = (revoke u crypto settings (some token) request_id ip now db).1 in
    let (s, found, revoked) = revoke-written u crypto settings token request_id ip now db h in
    ap (λ p. p.0) (revoked_refused u crypto settings token ip' agent' later db' s found revoked)

pub revoke_rows-has_hash :
    (h : Text) (user_id now : ℕ) (except : Option ℕ) (s : UserSession)
    → has_hash h (revoke_rows user_id now except s) ≡ has_hash h s
unfolding revoke_rows
revoke_rows-has_hash h user_id now except s = ground arith

-- A row of the user is revoked afterwards, unless it is spared; any other row is unchanged.
pub revoke_rows-cases :
    (user_id now : ℕ) (except : Option ℕ) (s : UserSession)
    → (((s.user_id ≡ user_id) × (is_except except s.id ≡ false))
        × (is_some (revoke_rows user_id now except s).revoked_at ≡ true))
      ⊎ (((s.user_id ≢ user_id) ⊎ (is_except except s.id ≡ true))
          × (revoke_rows user_id now except s ≡ s))
unfolding revoke_rows
revoke_rows-cases user_id now except s = elim (Bool-cases (nat_beq s.user_id user_id)) [
  | inl own ↦ elim (Bool-cases (is_except except s.id)) [
    | inl spared ↦ inr (inr spared, ground arith)
    | inr taken ↦ inl (((nat_beq_iff s.user_id user_id).0 own, taken), ground arith)
  ]
  | inr other ↦ inr (inl (λ e. ground (arith, (nat_beq_iff s.user_id user_id).1 e)), ground arith)
]

find-revoke_all :
    (u : Unicode) (h : Text) (user_id : ℕ) (except : Option ℕ) (request_id : Option Text) (now : ℕ)
    (db : Database) (s : UserSession)
    → get_by_token_hash h db.sessions ≡ some s
    → get_by_token_hash h (revoke_all_for_user u user_id except request_id now db).1.sessions
      ≡ some (revoke_rows user_id now except s)
unfolding revoke_all_for_user get_by_token_hash
find-revoke_all u h user_id except request_id now db s found =
    find-map (has_hash h) (revoke_rows user_id now except)
      (revoke_rows-has_hash h user_id now except) db.sessions
    ∙ ap (Option.map (revoke_rows user_id now except)) found

-- Revoking all sessions of a user, but one that may be spared, ends each of them at once; the rows
-- of other users, and the spared one, stay as they were.
pub revoke_all_for_user-authenticate :
    (u : Unicode) (crypto : Crypto) (settings : Settings) (token : Text) (user_id : ℕ)
    (except : Option ℕ) (request : Option Text) (now : ℕ) (db : Database) (s : UserSession)
    (ip agent : Option Text) (later : ℕ)
    → get_by_token_hash (hash_session_token crypto token) db.sessions ≡ some s
    → ((s.user_id ≡ user_id)
        × (is_except except s.id ≡ false)
        × ((authenticate u crypto settings
              (some token)
              ip
              agent
              later
              (revoke_all_for_user u user_id except request now db).1).0
            ≡ none))
      ⊎ (((s.user_id ≢ user_id) ⊎ (is_except except s.id ≡ true))
          × (get_by_token_hash
                (hash_session_token crypto token)
                (revoke_all_for_user u user_id except request now db).1.sessions
              ≡ some s))
revoke_all_for_user-authenticate u crypto settings token user_id except request now db s ip agent
      later found =
    let db' = (revoke_all_for_user u user_id except request now db).1 in
    let found' =
      find-revoke_all u (hash_session_token crypto token) user_id except request now db s found in
    elim (revoke_rows-cases user_id now except s) [
      | inl (own, revoked) ↦ inl (
        own.0,
        own.1,
        ap (λ p. p.0)
            (revoked_refused u crypto settings token ip agent later db'
              (revoke_rows user_id now except s) found' revoked),
      )
      | inr (other, same) ↦ inr (other, found' ∙ ap some same)
    ]

-- The clean-up never deletes a session that could still be used: what admits a token now or later
-- is found as before.
pub cleanup_expired-keeps_live :
    (u : Unicode) (crypto : Crypto) (settings : Settings) (token : Text) (request : Option Text)
    (now later : ℕ) (db : Database) (s : UserSession) (user : User)
    → now ≤ later
    → Admits crypto token later db s user
    → Admits crypto token later (cleanup_expired u request now db).1 s user
unfolding cleanup_expired get_by_token_hash
cleanup_expired-keeps_live u crypto settings token request now later db s user le a = (
  find-filter_rows (has_hash (hash_session_token crypto token)) (is_unexpired now) db.sessions s a.0
      (ground arith),
  a.1,
  a.2,
  a.3,
  a.4,
  a.5,
)
