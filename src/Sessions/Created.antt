-- ===== src/Sessions/Created.antt =====
-- What `create_record` adds to the table and hands out.
use software_hub.Prelude.{
  ℕ, ◌+◌, ◌≡◌, refl, Option, none, some, Text, arith, nat_eq, list_beq_iff, find-append, list_eq,
}
use software_hub.Unicode.{Unicode}
use software_hub.Models.{User}
use software_hub.Security.{Crypto, Settings, hash_session_token}
use software_hub.Database.{Database}
use software_hub.Sessions.Touch.{IsEarlier}
use software_hub.Sessions.{get_by_token_hash, new_session, has_hash, create_record}

pub new_session-fields :
    (u : Unicode) (crypto : Crypto) (settings : Settings) (i : ℕ) (token : Text) (user : User)
    (ip agent : Option Text) (now : ℕ)
    → let s = new_session u crypto settings i token user ip agent now in
      (s.user_id ≡ user.id)
      × (s.revoked_at ≡ none)
      × (s.session_token_hash ≡ hash_session_token crypto token)
      × (s.absolute_expires_at ≡ now + settings.session_absolute_timeout_seconds)
      × IsEarlier s.expires_at
          (now + settings.session_idle_timeout_seconds)
          (now + settings.session_absolute_timeout_seconds)
unfolding new_session
new_session-fields u crypto settings i token user ip agent now =
    (refl, refl, refl, refl, ground arith)

-- The row that `create_record` adds is the one that the token names.
pub create_record-found :
    (u : Unicode) (crypto : Crypto) (settings : Settings) (i : ℕ) (token : Text) (user : User)
    (ip agent : Option Text) (now : ℕ) (db : Database)
    → get_by_token_hash (hash_session_token crypto token) db.sessions ≡ none
    → get_by_token_hash
        (hash_session_token crypto token)
        (create_record u crypto settings i token user ip agent now db).1.sessions
      ≡ some (new_session u crypto settings i token user ip agent now)
unfolding create_record get_by_token_hash
create_record-found u crypto settings i token user ip agent now db fresh =
    let s = new_session u crypto settings i token user ip agent now in
    let key = hash_session_token crypto token in
    find-append (has_hash key) db.sessions s fresh (
      (list_beq_iff s.session_token_hash key).1
        (new_session-fields u crypto settings i token user ip agent now).2)

pub create_record-fields :
    (u : Unicode) (crypto : Crypto) (settings : Settings) (i : ℕ) (token : Text) (user : User)
    (ip agent : Option Text) (now : ℕ) (db : Database)
    → let s = new_session u crypto settings i token user ip agent now in
      let created = create_record u crypto settings i token user ip agent now db in
      (created.0.token ≡ token)
      × (created.0.user ≡ user)
      × (created.0.expires_at ≡ s.expires_at)
      × (created.0.absolute_expires_at ≡ s.absolute_expires_at)
      × (created.1.users ≡ db.users)
unfolding create_record
create_record-fields u crypto settings i token user ip agent now db = (refl, refl, refl, refl, refl)
