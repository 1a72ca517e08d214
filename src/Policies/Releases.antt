-- ===== src/Policies/Releases.antt =====
-- The lifecycles of software and releases: their dates, and the current-release marker.
use software_hub.Prelude.{ℕ, ◌≡◌, ◌≢◌, ◌↔◌, ◌⊎◌, true, false, none, arith, is_some}
use software_hub.Errors.{ok, is_ok}
use software_hub.Models.{ReleaseStatus, ReleaseChannel, SoftwareStatus, Software, Release}
use software_hub.Policies.{
  apply_software_transition, apply_release_transition, ensure_current_stable_candidate,
}

-- Archived software carries the date of its archiving, published software that of its first
-- publication.
pub record IsDated (s : Software) : Type 0 where
  pub published_dated : s.status ≡ SoftwareStatus.published → is_some s.published_at ≡ true
  pub archived_dated : s.status ≡ SoftwareStatus.archived → is_some s.archived_at ≡ true
  pub archived_only : s.status ≢ SoftwareStatus.archived → is_some s.archived_at ≡ false

-- An accepted software transition reaches its target, keeps the dates in step with the status,
-- never changes the date of the first publication, and touches neither slug nor visibility.
pub apply_software_transition-IsDated :
    (s : Software) (target : SoftwareStatus) (now : ℕ) (s' : Software)
    → IsDated s
    → apply_software_transition s target now ≡ ok s'
    → IsDated s'
      × (s'.status ≡ target)
      × ((s.published_at ≡ none) ⊎ (s'.published_at ≡ s.published_at))
      × (s'.slug ≡ s.slug)
      × (s'.visibility ≡ s.visibility)
unfolding apply_software_transition
apply_software_transition-IsDated s target now s' d h =
    (ground arith, ground arith, ground arith, ground arith, ground arith)

-- A marked release is a published one of the stable channel.
pub record IsMarkedSoundly (r : Release) : Type 0 where
  pub current_stable : r.is_current ≡ true → r.release_channel ≡ ReleaseChannel.stable
  pub current_published : r.is_current ≡ true → r.status ≡ ReleaseStatus.published

-- Disabled software can only stay or go back to draft.
pub software_exits :
    (s : Software) (target : SoftwareStatus) (now : ℕ)
    → s.status ≡ SoftwareStatus.disabled
    → is_ok (apply_software_transition s target now) ≡ true
    → (target ≡ SoftwareStatus.draft) ⊎ (target ≡ SoftwareStatus.disabled)
unfolding apply_software_transition
software_exits s target now d h = ground arith

-- An accepted release transition keeps the marker sound, reaches its target, marks no release, and
-- publishes a release anew only under software that is published or hidden.
pub apply_release_transition-IsMarkedSoundly :
    (s : Software) (r : Release) (target : ReleaseStatus) (now : ℕ) (r' : Release)
    → IsMarkedSoundly r
    → apply_release_transition s r target now ≡ ok r'
    → IsMarkedSoundly r'
      × (r'.status ≡ target)
      × ((r'.is_current ≡ false) ⊎ (r'.is_current ≡ r.is_current))
      × ((r'.status ≢ ReleaseStatus.published)
          ⊎ (r.status ≡ ReleaseStatus.published)
          ⊎ (s.status ≡ SoftwareStatus.published)
          ⊎ (s.status ≡ SoftwareStatus.hidden))
unfolding apply_release_transition
apply_release_transition-IsMarkedSoundly s r target now r' m h =
    (ground arith, ground arith, ground arith, ground arith)

pub apply_release_transition-identity :
    (s : Software) (r : Release) (target : ReleaseStatus) (now : ℕ) (r' : Release)
    → apply_release_transition s r target now ≡ ok r'
    → (r'.id ≡ r.id)
      × (r'.software_id ≡ r.software_id)
      × (r'.version ≡ r.version)
      × (r'.release_channel ≡ r.release_channel)
unfolding apply_release_transition
apply_release_transition-identity s r target now r' h = ground arith

-- Exactly the published releases of the stable channel, under software that is published or
-- hidden, can be marked as current.
pub ensure_current_stable_candidate_iff :
    (s : Software) (r : Release)
    → (is_ok (ensure_current_stable_candidate s r) ≡ true) ↔ (
        (r.release_channel ≡ ReleaseChannel.stable)
        × (r.status ≡ ReleaseStatus.published)
        × ((s.status ≡ SoftwareStatus.published) ⊎ (s.status ≡ SoftwareStatus.hidden)))
unfolding ensure_current_stable_candidate
ensure_current_stable_candidate_iff s r = (λ h. ground arith, λ h. ground arith)
