-- ===== src/Policies/Files.antt =====
-- The lifecycle of a release file: when a transition is allowed, what it keeps, and which way a
-- file can reach publication.
use software_hub.Prelude.{
  ℕ, ◌≡◌, ◌≢◌, ◌↔◌, ◌⊎◌, Bool, true, false, none, List, [], ◌∷◌, arith, ◌==◌, any, is_some,
}
use software_hub.Errors.{Result, ok, ◌>>=◌, is_ok, >>=-eq-ok}
use software_hub.Models.{
  FileStatus, ReleaseStatus, SoftwareStatus, ScannerStatus, Software, Release, ReleaseFile,
  FileGraph, file_status_eq,
}
use software_hub.Policies.{apply_file_transition}

-- What holds of every stored file, whatever its past.
pub record IsSound (f : ReleaseFile) : Type 0 where
  pub ready_clean : f.status ≡ FileStatus.ready → f.scanner_status ≢ ScannerStatus.infected
  pub published_clean : f.status ≡ FileStatus.published → f.scanner_status ≢ ScannerStatus.infected
  pub published_dated : f.status ≡ FileStatus.published → is_some f.published_at ≡ true
  pub disabled_dated : f.status ≡ FileStatus.disabled → is_some f.disabled_at ≡ true
  pub disabled_only : f.status ≢ FileStatus.disabled → is_some f.disabled_at ≡ false

-- The lifecycle read by its targets: from where, and under which conditions, a target is reached.
abbrev pub Enters : FileGraph → FileStatus → Type 0
Enters g FileStatus.published =
    (g.file.status ≡ FileStatus.ready)
    × (g.release.status ≡ ReleaseStatus.published)
    × ((g.software.status ≡ SoftwareStatus.published) ⊎ (g.software.status ≡ SoftwareStatus.hidden))
    × (g.file.scanner_status ≢ ScannerStatus.infected)
Enters g FileStatus.ready =
    ((g.file.status ≡ FileStatus.quarantine)
      ⊎ (g.file.status ≡ FileStatus.disabled)
      ⊎ (g.file.status ≡ FileStatus.archived))
    × (g.file.scanner_status ≢ ScannerStatus.infected)
Enters g FileStatus.rejected =
    (g.file.status ≡ FileStatus.quarantine) ⊎ (g.file.status ≡ FileStatus.ready)
Enters g FileStatus.quarantine = g.file.status ≡ FileStatus.rejected
Enters g FileStatus.disabled =
    (g.file.status ≢ FileStatus.disabled) × (g.file.status ≢ FileStatus.rejected)
Enters g FileStatus.archived =
    (g.file.status ≡ FileStatus.ready)
    ⊎ (g.file.status ≡ FileStatus.published)
    ⊎ (g.file.status ≡ FileStatus.disabled)

-- A transition is accepted exactly when the file is in the target already or may enter it.
pub apply_file_transition_iff :
    (g : FileGraph) (target : FileStatus) (now : ℕ)
    → (is_ok (apply_file_transition g target now) ≡ true)
      ↔ ((g.file.status ≡ target) ⊎ Enters g target)
unfolding apply_file_transition
apply_file_transition_iff g FileStatus.quarantine now = (λ h. ground arith, λ h. ground arith)
apply_file_transition_iff g FileStatus.ready now = (λ h. ground arith, λ h. ground arith)
apply_file_transition_iff g FileStatus.published now = (λ h. ground arith, λ h. ground arith)
apply_file_transition_iff g FileStatus.disabled now = (λ h. ground arith, λ h. ground arith)
apply_file_transition_iff g FileStatus.archived now = (λ h. ground arith, λ h. ground arith)
apply_file_transition_iff g FileStatus.rejected now = (λ h. ground arith, λ h. ground arith)

-- An accepted transition keeps the invariant of stored files.
pub apply_file_transition-IsSound :
    (g : FileGraph) (target : FileStatus) (now : ℕ) (f : ReleaseFile)
    → IsSound g.file
    → apply_file_transition g target now ≡ ok f
    → IsSound f
unfolding apply_file_transition
apply_file_transition-IsSound g FileStatus.quarantine now f s h = ground arith
apply_file_transition-IsSound g FileStatus.ready now f s h = ground arith
apply_file_transition-IsSound g FileStatus.published now f s h = ground arith
apply_file_transition-IsSound g FileStatus.disabled now f s h = ground arith
apply_file_transition-IsSound g FileStatus.archived now f s h = ground arith
apply_file_transition-IsSound g FileStatus.rejected now f s h = ground arith

-- A transition that is tried while the release and the software are in some state.
pub record Attempt : Type 0 where
  pub software : Software
  pub release : Release
  pub target : FileStatus
  pub now : ℕ

abbrev pub attempt : ReleaseFile → Attempt → Result ReleaseFile
attempt f a =
    apply_file_transition (record { file = f; release = a.release; software = a.software }) a.target
      a.now

-- Transitions applied one after the other, while the parents change in any way between them.
unfoldable pub attempts : ReleaseFile → List Attempt → Result ReleaseFile
attempts f [] = ok f
attempts f (a ∷ rest) = attempt f a >>= λ f'. attempts f' rest

-- One transition neither changes the scanner's verdict nor what identifies the content, sets the
-- date of the first publication once, and publishes only from `ready`.
attempt-keeps :
    (f : ReleaseFile) (a : Attempt) (f' : ReleaseFile)
    → attempt f a ≡ ok f'
    → (f'.scanner_status ≡ f.scanner_status)
      × (f'.sha256 ≡ f.sha256)
      × (f'.relative_storage_path ≡ f.relative_storage_path)
      × (f.published_at ≡ none ⊎ (f'.published_at ≡ f.published_at))
unfolding apply_file_transition
attempt-keeps f a f' h = ground arith

-- A published file is either unchanged, or came there from `ready`.
attempt-published :
    (f : ReleaseFile) (a : Attempt) (f' : ReleaseFile)
    → attempt f a ≡ ok f'
    → f'.status ≡ FileStatus.published
    → (f.status ≡ FileStatus.published) ⊎ (f.status ≡ FileStatus.ready)
unfolding apply_file_transition
attempt-published f a f' h p = ground arith

attempt-ready :
    (f : ReleaseFile) (a : Attempt) (f' : ReleaseFile)
    → attempt f a ≡ ok f'
    → f'.status ≡ FileStatus.ready
    → (f.status ≡ FileStatus.ready)
      ⊎ ((a.target ≡ FileStatus.ready) × (f.scanner_status ≢ ScannerStatus.infected))
unfolding apply_file_transition
attempt-ready f a f' h p = ground arith

-- Some attempt of the list is an approval as `ready`.
abbrev pub approved : List Attempt → Bool
approved tries = any (λ a. a.target == FileStatus.ready) tries

abbrev ViaReady : ReleaseFile → List Attempt → Type 0
ViaReady f tries =
    (f.status ≡ FileStatus.published)
    ⊎ (f.status ≡ FileStatus.ready)
    ⊎ ((approved tries ≡ true) × (f.scanner_status ≢ ScannerStatus.infected))

attempts-ViaReady :
    (f : ReleaseFile) (tries : List Attempt) (f' : ReleaseFile)
    → attempts f tries ≡ ok f'
    → f'.status ≡ FileStatus.published
    → ViaReady f tries
unfolding attempts
attempts-ViaReady f [] f' h p = ground arith
attempts-ViaReady f (a ∷ tries) f' h p =
    let (f1, first, rest) = >>=-eq-ok (attempt f a) (λ f1. attempts f1 tries) h in
    ground (
      arith,
      attempts-ViaReady f1 tries f' rest p,
      attempt-published f a f1 first,
      attempt-ready f a f1 first,
      attempt-keeps f a f1 first,
    )

-- However the parents change in between, a file that is neither ready nor published becomes
-- published only through an approval as ready, and never if its scan found it infected.
pub publication_needs_approval :
    (f : ReleaseFile) (tries : List Attempt) (f' : ReleaseFile)
    → f.status ≢ FileStatus.ready
    → f.status ≢ FileStatus.published
    → attempts f tries ≡ ok f'
    → f'.status ≡ FileStatus.published
    → (approved tries ≡ true) × (f.scanner_status ≢ ScannerStatus.infected)
publication_needs_approval f tries f' not_ready not_published h p =
    ground (arith, attempts-ViaReady f tries f' h p)

-- No sequence of transitions changes the digest, the storage path, the scanner's verdict, or the
-- date of the first publication once it is set.
pub attempts-keeps :
    (f : ReleaseFile) (tries : List Attempt) (f' : ReleaseFile)
    → attempts f tries ≡ ok f'
    → (f'.scanner_status ≡ f.scanner_status)
      × (f'.sha256 ≡ f.sha256)
      × (f'.relative_storage_path ≡ f.relative_storage_path)
      × ((f.published_at ≡ none) ⊎ (f'.published_at ≡ f.published_at))
unfolding attempts
attempts-keeps f [] f' h = ground arith
attempts-keeps f (a ∷ tries) f' h =
    let (f1, first, rest) = >>=-eq-ok (attempt f a) (λ f1. attempts f1 tries) h in
    ground (arith, attempts-keeps f1 tries f' rest, attempt-keeps f a f1 first)
