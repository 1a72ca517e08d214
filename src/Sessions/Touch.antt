-- ===== src/Sessions/Touch.antt =====
-- What a touch does to a session row and what a caller learns of the row, told without the code's
-- own functions.
use Prim.Native.Nat.{min}
use software_hub.Prelude.{
  ℕ, ◌+◌, ◌≤◌, ◌<◌, ◌≡◌, ◌≢◌, ◌⊎◌, ◌↔◌, refl, inl, inr, true, Option, none, some, Text, arith,
  list_beq_iff, list_beq_unequal, list_eq, nat_eq, Bool-cases, leb,
}
use software_hub.Unicode.{Unicode}
use software_hub.Models.{User, UserSession}
use software_hub.Security.{Crypto, Settings}
use software_hub.Sessions.{describe, touch, hash_changed, client_hashes, AuthenticatedSession}

-- The earlier of two times.
abbrev pub IsEarlier : ℕ → ℕ → ℕ → Type 0
IsEarlier d a b = (d ≤ a) × (d ≤ b) × ((d ≡ a) ⊎ (d ≡ b))

-- A row before and after a touch: the same until the interval has passed, and from then on active
-- now, with an idle deadline one idle lifetime ahead or, if that is earlier, the absolute one.
abbrev pub IsTouched : Settings → ℕ → UserSession → UserSession → Type 0
IsTouched settings now s s' =
    ((now < s.last_activity_at + settings.session_touch_interval_seconds) × (s' ≡ s))
    ⊎ ((s.last_activity_at + settings.session_touch_interval_seconds ≤ now)
        × (d : ℕ) × IsEarlier d (now + settings.session_idle_timeout_seconds) s.absolute_expires_at
        × (s' ≡ record s { last_activity_at = now; expires_at = d }))

pub touch-IsTouched :
    (settings : Settings) (now : ℕ) (s : UserSession)
    → IsTouched settings now s (touch settings now s)
unfolding touch
touch-IsTouched settings now s =
    elim (Bool-cases (leb (s.last_activity_at + settings.session_touch_interval_seconds) now)) [
      | inl due ↦ inr (
        ground arith,
        min (now + settings.session_idle_timeout_seconds) s.absolute_expires_at,
        ground arith,
        ground arith,
      )
      | inr recent ↦ inl (ground arith, ground arith)
    ]

pub touch-fields :
    (settings : Settings) (now : ℕ) (s : UserSession)
    → let s' = touch settings now s in
      (s'.id ≡ s.id) × (s'.session_token_hash ≡ s.session_token_hash)
unfolding touch
touch-fields settings now s = ground arith

-- Two hashes are there and differ.
abbrev pub Differ : Option Text → Option Text → Type 0
Differ a b = (p : Text) × (q : Text) × (a ≡ some p) × (b ≡ some q) × (p ≢ q)

-- What a caller learns about a session from the row, its user and the client at hand.
pub record Describes (u : Unicode) (crypto : Crypto) (settings : Settings) (ip agent : Option Text)
    (x : User) (s : UserSession) (a : AuthenticatedSession) : Type 0 where
  pub session_id : a.session_id ≡ s.id
  pub user : a.user ≡ x
  pub expires_at : a.expires_at ≡ s.expires_at
  pub absolute_expires_at : a.absolute_expires_at ≡ s.absolute_expires_at
  pub csrf_secret_hash : a.csrf_secret_hash ≡ s.csrf_secret_hash
  pub ip_changed :
      (a.ip_changed ≡ true) ↔ Differ s.ip_hash (client_hashes u crypto settings ip agent).0
  pub user_agent_changed :
      (a.user_agent_changed ≡ true)
      ↔ Differ s.user_agent_hash (client_hashes u crypto settings ip agent).1

hash_changed_iff : (a b : Option Text) → (hash_changed a b ≡ true) ↔ Differ a b
hash_changed_iff none b = (λ h. absurd (ground arith), λ d. absurd (ground arith))
hash_changed_iff (some p) none = (λ h. absurd (ground arith), λ d. absurd (ground arith))
hash_changed_iff (some p) (some q) = (
  λ h. (p, q, refl, refl, λ e. absurd (ground (arith, (list_beq_iff p q).1 e))),
  λ (p', q', e, e', differ). rw (list_beq_unequal p q (λ same. differ cc)) refl,
)

pub describe-Describes :
    (u : Unicode) (crypto : Crypto) (settings : Settings) (ip agent : Option Text) (x : User)
    (s : UserSession)
    → Describes u crypto settings ip agent x s (describe u crypto settings ip agent x s)
unfolding describe
describe-Describes u crypto settings ip agent x s = record {
  session_id = refl;
  user = refl;
  expires_at = refl;
  absolute_expires_at = refl;
  csrf_secret_hash = refl;
  ip_changed = hash_changed_iff s.ip_hash (client_hashes u crypto settings ip agent).0;
  user_agent_changed =
      hash_changed_iff s.user_agent_hash (client_hashes u crypto settings ip agent).1;
}
