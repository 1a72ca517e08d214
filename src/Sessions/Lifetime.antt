-- ===== src/Sessions/Lifetime.antt =====
-- Who is let in, and for how long: authentication against its conditions, and the bound that no
-- activity can move.
use native.Mathlib.Nat.{le_trans}
use software_hub.Prelude.{
  ℕ, ◌+◌, ◌≤◌, ◌<◌, ◌≡◌, ◌≢◌, refl, inl, inr, true, Option, none, some, [], ◌∷◌, Text, arith,
  is_some, nat_eq, ◌⊎◌, ◌↔◌, find-set_row, find-holds, get_row-set_row_ne, get_row, subst, sym, ◌∙◌,
  list_eq, Option-cases,
}
use software_hub.Unicode.{Unicode}
use software_hub.Models.{User, UserSession}
use software_hub.Security.{Crypto, Settings, hash_session_token}
use software_hub.Database.{Database}
use software_hub.Sessions.Created.{new_session-fields, create_record-found, create_record-fields}
use software_hub.Sessions.Touch.{
  IsEarlier, IsTouched, Describes, touch-IsTouched, touch-fields, describe-Describes,
}
use software_hub.Sessions.{
  SessionCredentials, authenticate, accept, describe, touch, get_by_token_hash, get_user,
  new_session, has_hash, put_session, create_record, AuthenticatedSession, session_id_of,
}

-- A session row in time: the absolute deadline is fixed at creation, and the idle deadline and the
-- last activity stay before it.
pub record IsTimed (settings : Settings) (s : UserSession) : Type 0 where
  pub absolute : s.absolute_expires_at ≡ s.created_at + settings.session_absolute_timeout_seconds
  pub bounded : s.expires_at ≤ s.absolute_expires_at
  pub idle : s.expires_at ≤ s.last_activity_at + settings.session_idle_timeout_seconds

-- A new session is timed.
new_session-IsTimed :
    (u : Unicode) (crypto : Crypto) (settings : Settings) (i : ℕ) (token : Text) (user : User)
    (ip agent : Option Text) (now : ℕ)
    → IsTimed settings (new_session u crypto settings i token user ip agent now)
unfolding new_session
new_session-IsTimed u crypto settings i token user ip agent now = omega arith

-- The touch that an authentication performs keeps a row timed (its idle deadline at most the idle
-- lifetime after its last activity and never past its absolute one), leaves the absolute deadline,
-- never moves the idle deadline back, and leaves a last activity of now or one less than the interval
-- old, given that the row was timed and its last activity is not in the future.
pub touch-IsTimed :
    (settings : Settings) (now : ℕ) (s : UserSession)
    → IsTimed settings s
    → s.last_activity_at ≤ now
    → IsTimed settings (touch settings now s)
      × ((touch settings now s).absolute_expires_at ≡ s.absolute_expires_at)
      × (s.expires_at ≤ (touch settings now s).expires_at)
      × (((touch settings now s).last_activity_at ≡ now)
          ⊎ (now
              < (touch settings now s).last_activity_at + settings.session_touch_interval_seconds))
unfolding touch
touch-IsTimed settings now s t later = ground arith

-- The row that a token names is live: not revoked, neither deadline reached, its user active.
abbrev pub Admits : Crypto → Text → ℕ → Database → UserSession → User → Type 0
Admits crypto token now db s user =
    (get_by_token_hash (hash_session_token crypto token) db.sessions ≡ some s)
    × (get_user s.user_id db ≡ some user)
    × (s.revoked_at ≡ none)
    × (now < s.expires_at)
    × (now < s.absolute_expires_at)
    × (user.is_active ≡ true)

accept-some :
    (u : Unicode) (crypto : Crypto) (settings : Settings) (ip agent : Option Text) (now : ℕ)
    (user : User) (s : UserSession) (db : Database)
    → is_some (accept u crypto settings ip agent now user s db).0 ≡ true
    → (s.revoked_at ≡ none)
      × (now < s.expires_at)
      × (now < s.absolute_expires_at)
      × (user.is_active ≡ true)
unfolding accept
accept-some u crypto settings ip agent now user s db h = ground arith

-- A token is accepted only while the row it names admits it.
pub authenticate_sound :
    (u : Unicode) (crypto : Crypto) (settings : Settings) (token : Text) (ip agent : Option Text)
    (now : ℕ) (db : Database)
    → is_some (authenticate u crypto settings (some token) ip agent now db).0 ≡ true
    → (token ≢ []) × (s : UserSession) × (user : User) × Admits crypto token now db s user
unfolding authenticate
authenticate_sound u crypto settings [] ip agent now db h = absurd (ground arith)
authenticate_sound u crypto settings (c ∷ token) ip agent now db h =
    elim (Option-cases (get_by_token_hash (hash_session_token crypto (c ∷ token)) db.sessions)) [
      | inl missing ↦ absurd (ground arith)
      | inr (s, found) ↦ elim (Option-cases (get_user s.user_id db)) [
        | inl gone ↦ absurd (ground arith)
        | inr (user, owner) ↦
            let live = accept-some u crypto settings ip agent now user s db (ground arith) in
            (λ e. cc, s, user, (found, owner, live.0, live.1, live.2, live.3))
      ]
    ]

-- An accepted token's answer and table, as `authenticate` computes them.
authenticate-Admits :
    (u : Unicode) (crypto : Crypto) (settings : Settings) (token : Text) (ip agent : Option Text)
    (now : ℕ) (db : Database) (s : UserSession) (user : User)
    → token ≢ []
    → Admits crypto token now db s user
    → authenticate u crypto settings (some token) ip agent now db ≡ (
      some (describe u crypto settings ip agent user (touch settings now s)),
      put_session (touch settings now s) db,
    )
unfolding authenticate
authenticate-Admits u crypto settings [] ip agent now db s user ne a = absurd (ne refl)
authenticate-Admits u crypto settings (c ∷ token) ip agent now db s user ne a = ground arith

-- A token whose row admits it is accepted. The answer describes the row as it then stands, which is
-- the row as it was, touched where the interval has passed; the token finds that row in the table
-- afterwards, and the users and the rows of other ids are as before.
pub authenticate_complete :
    (u : Unicode) (crypto : Crypto) (settings : Settings) (token : Text) (ip agent : Option Text)
    (now : ℕ) (db : Database) (s : UserSession) (user : User)
    → token ≢ []
    → Admits crypto token now db s user
    → (a : AuthenticatedSession) × (s' : UserSession) × (db' : Database) × (authenticate u crypto
          settings
          (some token)
          ip
          agent
          now
          db
        ≡ (some a, db'))
      × Describes u crypto settings ip agent user s' a
      × IsTouched settings now s s'
      × (get_by_token_hash (hash_session_token crypto token) db'.sessions ≡ some s')
      × (db'.users ≡ db.users)
      × ((j : ℕ)
          → s.id ≢ j
          → get_row session_id_of j db'.sessions ≡ get_row session_id_of j db.sessions)
authenticate_complete u crypto settings token ip agent now db s user ne a =
    let s' = touch settings now s in
    let key = hash_session_token crypto token in
    let (id, token_hash) = touch-fields settings now s in
    let holds : has_hash key s ≡ true =
      unfold get_by_token_hash in find-holds (has_hash key) db.sessions s a.0 in
    let has : has_hash key s' ≡ true = rw token_hash holds in
    (
      describe u crypto settings ip agent user s',
      s',
      put_session s' db,
      authenticate-Admits u crypto settings token ip agent now db s user ne a,
      describe-Describes u crypto settings ip agent user s',
      touch-IsTouched settings now s,
      unfold get_by_token_hash in
          find-set_row session_id_of (has_hash key) s'.id s' db.sessions s has a.0 (sym id),
      refl,
      λ j other.
          get_row-set_row_ne session_id_of s'.id j s' db.sessions refl (λ e. other (sym id ∙ e)),
    )

-- A session is created for an active user with a token whose hash no session has. Its credentials
-- are the token and the user with two deadlines: the absolute lifetime from now, and that or the idle
-- lifetime from now, whichever is earlier. With the table so written, a client anywhere gets in with
-- the token at just those times at which neither lifetime, counted from now, has run out.
pub create_record-authenticate :
    (u : Unicode) (crypto : Crypto) (settings : Settings) (i : ℕ) (token : Text) (user : User)
    (ip agent ip' agent' : Option Text) (now later : ℕ) (db : Database)
    → token ≢ []
    → get_by_token_hash (hash_session_token crypto token) db.sessions ≡ none
    → get_user user.id db ≡ some user
    → user.is_active ≡ true
    → (credentials : SessionCredentials) × (db' : Database) × (create_record u crypto settings i
          token user ip agent now db
        ≡ (credentials, db'))
      × (credentials.token ≡ token)
      × (credentials.user ≡ user)
      × (credentials.absolute_expires_at ≡ now + settings.session_absolute_timeout_seconds)
      × IsEarlier credentials.expires_at
          (now + settings.session_idle_timeout_seconds)
          (now + settings.session_absolute_timeout_seconds)
      × ((is_some (authenticate u crypto settings (some token) ip' agent' later db').0 ≡ true) ↔ (
          (later < now + settings.session_idle_timeout_seconds)
          × (later < now + settings.session_absolute_timeout_seconds)))
create_record-authenticate u crypto settings i token user ip agent ip' agent' now later db ne fresh
      owner active =
    let s = new_session u crypto settings i token user ip agent now in
    let created = create_record u crypto settings i token user ip agent now db in
    let found = create_record-found u crypto settings i token user ip agent now db fresh in
    let (of_user, live, hashed, absolute, idle) =
      new_session-fields u crypto settings i token user ip agent now in
    let (same_token, same_user, expires, ends, users) =
      create_record-fields u crypto settings i token user ip agent now db in
    let owner' : get_user s.user_id created.1 ≡ some user = rw (of_user, users) owner in
    (
      created.0,
      created.1,
      refl,
      same_token,
      same_user,
      ends ∙ absolute,
      rw expires idle,
      (
        λ h.
            let (_, t, x, (named, _, _, before, _, _)) =
              authenticate_sound u crypto settings token ip' agent' later created.1 h in
            let same : s ≡ t = cc in
            let sooner = subst (λ z. later < z.expires_at) (sym same) before in
            (le_trans sooner idle.0, le_trans sooner idle.1),
        λ early.
            rw
              (authenticate-Admits u crypto settings token ip' agent' later created.1 s user ne
                (found, owner', live, omega arith, omega arith, active))
              refl,
      ),
    )
