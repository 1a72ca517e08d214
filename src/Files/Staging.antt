-- ===== src/Files/Staging.antt =====
-- storage/lifecycle.py: what the staging of a deletion, its undoing and its end do to the files.
use software_hub.Prelude.{
  ℕ, Bool, true, false, Option, none, ◌++◌, Text, codes, ◌≡◌, ◌⊎◌, inl, inr, refl, ap, ◌∙◌, list_eq,
  nat_eq, if◌then◌else◌,
}
use software_hub.Errors.{ApplicationError}
use software_hub.Unicode.{Unicode}
use software_hub.Models.{file_status_eq}
use software_hub.Io.{Raised, raise}
use software_hub.Io.Rules.{
  Ends, returns, raises, Ends-continue, Ends-handle, Ends-weaken, Ends-raise_when, Ends-Keeps,
  Keeps-Ends, Ends-call,
}
use software_hub.Storage.{FilePath, Bytes, Os, StoragePaths}
use software_hub.Storage.Texts.{as_posix}
use software_hub.Storage.Paths.{storage_error}
use software_hub.Storage.Move.{unsynchronized}
use software_hub.Storage.Hashing.{Hasher}
use software_hub.Storage.Lifecycle.{
  StoredFile, StagedDeletion, stage_for_permanent_deletion, restore_staged_deletion,
  unlink_staged_deletion,
}
use software_hub.Storage.Lawful.{
  IsLawful, IsPlain, moved, removed, safe_resolve-KeepsFiles, locate_stored_file-KeepsFiles,
}
use software_hub.Storage.Moves.{below, atomic_move-Ends, safe_resolve-below, Ends-perform}
use software_hub.Files.Service.{World, catch_storage, undo_staging}
use software_hub.Files.Effects.{on_disk-Ends, moved_back, Ends-RaisesFaults, catch-Ends, IsInstead}
use software_hub.Storage.Faults.{IsFault, atomic_move-RaisesFaults}

pub catch_keeps :
    {S A : Type 0} {P : A → S → Type 0} {V : S → Type 0} (instead e : Raised) (s : S)
    → V s
    → Ends P (λ _ t. V t) (catch_storage {S = S} {A = A} (λ _. raise instead) e s)
catch_keeps instead Raised.os_error s v = raises _ s v
catch_keeps instead Raised.database_error s v = raises _ s v
catch_keeps {S = S} {A = A} {P = P} {V = V} instead (Raised.application e) s v =
    elim e
      as (λ k.
        Ends P (λ _ t. V t)
          (catch_storage {S = S} {A = A} (λ _. raise instead) (Raised.application k) s)) [
            | ApplicationError.storage_error m ↦ raises _ s v
            | _ ↦ raises _ s v
          ]

module _ {S H : Type 0} (u : Unicode) (os : Os S) (hasher : Hasher H) (paths : StoragePaths)
    (lawful : IsLawful os) (plain : IsPlain os) where
  -- The staged place of a deletion, and where its bytes stood.
  abbrev pub staged_place : Text → FilePath
  staged_place staged_name =
      below paths.temporary (codes "deletions/" ++ staged_name ++ codes ".delete")

  pub stage-Ends :
      (staged_name : Text) (stored : StoredFile) (s : S)
      → Ends
          (λ (staged : StagedDeletion) t.
            (staged.original ≡ stored)
            × (staged.staged_relative_path ≡ codes "deletions/" ++ staged_name ++ codes ".delete")
            × (os.contents t
                ≡ moved
                    (below stored.root (as_posix stored.relative_path))
                    (staged_place staged_name)
                    (os.contents s))
            × (os.contents s (staged_place staged_name) ≡ none))
          (λ e t.
            (os.contents t ≡ os.contents s)
            ⊎ ((e ≡ unsynchronized)
                × (os.contents t
                    ≡ moved
                        (below stored.root (as_posix stored.relative_path))
                        (staged_place staged_name)
                        (os.contents s))
                × (os.contents s (staged_place staged_name) ≡ none)))
          (stage_for_permanent_deletion os paths staged_name stored s)
  unfolding stage_for_permanent_deletion
  stage-Ends staged_name stored s =
      Ends-continue
        (atomic_move-Ends os lawful plain stored.root (as_posix stored.relative_path)
          paths.temporary (codes "deletions/" ++ staged_name ++ codes ".delete") s)
        (λ m t h. returns _ t (refl, refl, h.0, h.1))

  unlinked :
      (p : FilePath) (s : S) (done : Bool)
      → (os.unlink p s).0 ≡ done
      → os.contents (os.unlink p s).1 ≡ (if done then removed p (os.contents s) else os.contents s)
  unlinked p s done h =
      lawful.unlink_lem p s
      ∙ ap (λ (b : Bool). if b then removed p (os.contents s) else os.contents s) h

  -- The removal of a staged file: the file is gone; or it stands, or it is gone and the directory
  -- was not synchronized.
  pub unlink_staged-Ends :
      (staged : StagedDeletion) (s : S)
      → Ends
          (λ _ t.
            os.contents t
            ≡ removed (below paths.temporary staged.staged_relative_path) (os.contents s))
          (λ e t.
            (os.contents t ≡ os.contents s)
            ⊎ (os.contents t
                ≡ removed (below paths.temporary staged.staged_relative_path) (os.contents s)))
          (unlink_staged_deletion os paths staged s)
  unfolding unlink_staged_deletion
  unlink_staged-Ends staged s =
      let place = below paths.temporary staged.staged_relative_path in
      Ends-continue
        (Ends-weaken
          (Ends-Keeps os.contents s _
            (safe_resolve-below os lawful plain paths.temporary staged.staged_relative_path true
              true s)
            (safe_resolve-KeepsFiles os lawful paths.temporary staged.staged_relative_path true true
              s))
          (λ p t h. h) (λ e t h. inl h.1))
        (λ p t h.
          Ends-continue {P' = λ _ t'. os.contents t' ≡ os.contents s}
            (Ends-call _ _ t (λ _ _. lawful.lstat_quiet p t ∙ h.1)
              (λ _. inl (lawful.lstat_quiet p t ∙ h.1)))
            (λ metadata t1 k1.
              Ends-continue {P' = λ _ t'. os.contents t' ≡ os.contents s}
                (Ends-raise_when _ _ t1 (λ _. k1) (λ _. inl k1))
                (λ _ t2 k2.
                  Ends-continue {P' = λ _ t'. os.contents t' ≡ removed place (os.contents s)}
                    (Ends-perform _ _ t2
                      (λ done. unlinked p t2 true done ∙ (λ i. removed (h.0 i) (k2 i)))
                      (λ failed. inl (unlinked p t2 false failed ∙ k2)))
                    (λ _ t3 k3.
                      Ends-perform _ _ t3 (λ _. lawful.fsync_directory_quiet _ t3 ∙ k3)
                        (λ _. inr (lawful.fsync_directory_quiet _ t3 ∙ k3))))))

  -- The return of a staged file: every file is back, or the file is still staged.
  restore_staged-Ends :
      (staged : StagedDeletion) (files : FilePath → Option Bytes) (s : S)
      → os.contents s
        ≡ moved
            (below staged.original.root (as_posix staged.original.relative_path))
            (below paths.temporary staged.staged_relative_path)
            files
      → files (below paths.temporary staged.staged_relative_path) ≡ none
      → Ends
          (λ _ t. os.contents t ≡ files)
          (λ e t. (os.contents t ≡ files) ⊎ ((os.contents t ≡ os.contents s) × IsFault e))
          (restore_staged_deletion os paths staged s)
  unfolding restore_staged_deletion
  restore_staged-Ends staged files s h free =
      let from = below staged.original.root (as_posix staged.original.relative_path) in
      let to = below paths.temporary staged.staged_relative_path in
      let back = moved_back from to files free in
      Ends-continue
        (Ends-weaken
          (Ends-RaisesFaults
            (atomic_move-Ends os lawful plain paths.temporary staged.staged_relative_path
              staged.original.root (as_posix staged.original.relative_path) s)
            (atomic_move-RaisesFaults os paths.temporary staged.staged_relative_path
              staged.original.root (as_posix staged.original.relative_path) s))
          (λ m t p. p.0 ∙ ap (moved to from) h ∙ back)
          (λ e t q. elim q.0 [
            | inl kept ↦ inr (kept, q.1)
            | inr (unsynced, away, free') ↦ inl (away ∙ ap (moved to from) h ∙ back)
          ]))
        (λ m t p.
          Ends-weaken
            (Keeps-Ends os.contents t _ (
              locate_stored_file-KeepsFiles os lawful paths (as_posix staged.original.relative_path)
                t))
            (λ stored t' k. k ∙ p) (λ e t' k. inl (k ∙ p)))

  -- The error that says that a staged file was not returned.
  abbrev pub not_restored : Raised
  not_restored =
      storage_error "Permanent deletion failed and the physical file could not be restored."

  compensated :
      {A : Type 0} {P : A → S → Type 0} (before files : FilePath → Option Bytes) (e : Raised)
      (s : S)
      → (os.contents s ≡ files) ⊎ ((os.contents s ≡ before) × IsFault e)
      → Ends P
          (λ e' t. (os.contents t ≡ files) ⊎ (IsInstead not_restored e' × (os.contents t ≡ before)))
          (catch_storage {S = S} {A = A} (λ _. raise not_restored) e s)
  compensated before files e s (inl back) =
      Ends-weaken (catch_keeps {V = λ t. os.contents t ≡ files} not_restored e s back) (λ a t p. p)
        (λ e' t q. inl q)
  compensated before files e s (inr (still, fault)) =
      Ends-weaken (catch-Ends {V = λ t. os.contents t ≡ before} not_restored e s fault still)
        (λ a t p. p) (λ e' t q. inr q)

  -- Whatever the handler raises: the rows stay, and every file is back, or the error says that the
  -- file is still staged.
  pub undo_staging-Ends :
      {P : ℕ → World S → Type 0} (staged : StagedDeletion) (files : FilePath → Option Bytes)
      (e : Raised) (w : World S)
      → os.contents w.disk
        ≡ moved
            (below staged.original.root (as_posix staged.original.relative_path))
            (below paths.temporary staged.staged_relative_path)
            files
      → files (below paths.temporary staged.staged_relative_path) ≡ none
      → Ends P
          (λ e' t.
            ((os.contents t.disk ≡ files)
              ⊎ (IsInstead not_restored e' × (os.contents t.disk ≡ os.contents w.disk)))
            × (t.database ≡ w.database))
          (undo_staging u os hasher paths staged e w)
  unfolding undo_staging
  undo_staging-Ends staged files e w h free =
      Ends-continue
        (on_disk-Ends _ w (
          Ends-handle (restore_staged-Ends staged files w.disk h free)
            (λ e' t q. compensated (os.contents w.disk) files e' t q)))
        (λ _ t p. raises _ t (inl p.0, p.1))
