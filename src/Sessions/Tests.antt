-- ===== src/Sessions/Tests.antt =====
-- Runs of the session service, and its theorems at one session.
use software_hub.Prelude.{
  ◌+◌, ◌≤◌, ◌<◌, ◌≡◌, ◌≢◌, ◌⊎◌, ◌↔◌, ℕ, get_row, refl, true, false, none, some, [], codes, arith,
  is_some,
}
use software_hub.Unicode.{ascii}
use software_hub.Models.{UserSession, User}
use software_hub.Samples.{crypto, settings, user, user_session, user_database}
use software_hub.Security.{hash_session_token}
use software_hub.Sessions.Touch.{IsEarlier, IsTouched, Describes}
use software_hub.Database.{Database}
use software_hub.Sessions.{
  session_id_of, AuthenticatedSession, SessionCredentials, authenticate, touch, revoke,
  revoke_all_for_user, cleanup_expired, get_by_token_hash, create_record, is_except,
}
use software_hub.Sessions.Lifetime.{
  IsTimed, Admits, touch-IsTimed, authenticate_sound, authenticate_complete,
  create_record-authenticate,
}
use software_hub.Sessions.Revocation.{
  revoke-authenticate, revoke_all_for_user-authenticate, cleanup_expired-keeps_live,
}

user_session-IsTimed : IsTimed settings user_session
user_session-IsTimed = omega arith

touch-IsTimed_example :
    IsTimed settings (touch settings 2000 user_session)
    × ((touch settings 2000 user_session).absolute_expires_at ≡ 44200)
    × (2800 ≤ (touch settings 2000 user_session).expires_at)
    × (((touch settings 2000 user_session).last_activity_at ≡ 2000)
        ⊎ (2000 < (touch settings 2000 user_session).last_activity_at + 60))
touch-IsTimed_example = touch-IsTimed settings 2000 user_session user_session-IsTimed (omega arith)

session_found :
    get_by_token_hash (hash_session_token crypto (codes "tok")) user_database.sessions
    ≡ some user_session
unfolding get_by_token_hash hash_session_token
session_found = refl

session-Admits : Admits crypto (codes "tok") 2000 user_database user_session user
session-Admits = (session_found, refl, refl, omega arith, omega arith, refl)

authenticate_complete_example :
    (a : AuthenticatedSession) × (s' : UserSession) × (db' : Database) × (authenticate ascii crypto
        settings
        (some (codes "tok"))
        none
        none
        2000
        user_database
      ≡ (some a, db'))
    × Describes ascii crypto settings none none user s' a
    × IsTouched settings 2000 user_session s'
    × (get_by_token_hash (hash_session_token crypto (codes "tok")) db'.sessions ≡ some s')
    × (db'.users ≡ user_database.users)
    × ((j : ℕ)
        → user_session.id ≢ j
        → get_row session_id_of j db'.sessions ≡ get_row session_id_of j user_database.sessions)
authenticate_complete_example =
    authenticate_complete ascii crypto settings (codes "tok") none none 2000 user_database
      user_session user (λ e. cc) session-Admits

authenticate_sound_example :
    (codes "tok" ≢ [])
    × (s : UserSession) × (x : User) × Admits crypto (codes "tok") 2000 user_database s x
unfolding authenticate
authenticate_sound_example =
    authenticate_sound ascii crypto settings (codes "tok") none none 2000 user_database refl

create_record-authenticate_example :
    (credentials : SessionCredentials) × (db' : Database) × (create_record ascii crypto settings 10
        (codes "new")
        user
        none
        none
        2000
        user_database
      ≡ (credentials, db'))
    × (credentials.token ≡ codes "new")
    × (credentials.user ≡ user)
    × (credentials.absolute_expires_at ≡ 45200)
    × IsEarlier credentials.expires_at 3800 45200
    × ((is_some (authenticate ascii crypto settings (some (codes "new")) none none 2500 db').0
          ≡ true)
        ↔ ((2500 < 3800) × (2500 < 45200)))
unfolding get_by_token_hash hash_session_token
create_record-authenticate_example =
    create_record-authenticate ascii crypto settings 10 (codes "new") user none none none none 2000
      2500 user_database (λ e. cc) refl refl refl

revoke-authenticate_example :
    (authenticate ascii crypto settings
      (some (codes "tok"))
      none
      none
      2600
      (revoke ascii crypto settings (some (codes "tok")) none none 2500 user_database).1).0
    ≡ none
unfolding revoke
revoke-authenticate_example =
    revoke-authenticate ascii crypto settings (codes "tok") none none 2500 user_database none none
      2600 refl

revoke_all_for_user-authenticate_example :
    ((user_session.user_id ≡ 3)
      × (is_except none user_session.id ≡ false)
      × ((authenticate ascii crypto settings
            (some (codes "tok"))
            none
            none
            2600
            (revoke_all_for_user ascii 3 none none 2500 user_database).1).0
          ≡ none))
    ⊎ (((user_session.user_id ≢ 3) ⊎ (is_except none user_session.id ≡ true))
        × (get_by_token_hash
              (hash_session_token crypto (codes "tok"))
              (revoke_all_for_user ascii 3 none none 2500 user_database).1.sessions
            ≡ some user_session))
revoke_all_for_user-authenticate_example =
    revoke_all_for_user-authenticate ascii crypto settings (codes "tok") 3 none none 2500
      user_database user_session none none 2600 session_found

cleanup_expired-keeps_live_example :
    Admits crypto
      (codes "tok")
      2000
      (cleanup_expired ascii none 1500 user_database).1
      user_session
      user
cleanup_expired-keeps_live_example =
    cleanup_expired-keeps_live ascii crypto settings (codes "tok") none 1500 2000 user_database
      user_session user (omega arith) session-Admits
