-- ===== src/Files/Effects.antt =====
-- services/file_service.py: what the steps of a method do to the rows and the disk, the undoing of
-- a move included.
use software_hub.Prelude.{
  ℕ, Bool, true, false, Option, none, some, ◌≡◌, ◌⊎◌, inl, inr, refl, sym, ap, ◌∙◌, list_beq,
  list_eq, nat_eq, list_beq_iff, Bool-cases, String,
}
use software_hub.Errors.{Result, ok, err}
use software_hub.Unicode.{Unicode}
use software_hub.Models.{ReleaseFile, FileGraph}
use software_hub.Database.{Database, Transaction}
use software_hub.Io.{Raised, Outcome, Io, raise}
use software_hub.Io.Rules.{
  Ends, returns, raises, Ends-continue, Ends-handle, Ends-weaken, Keeps-refl, Keeps-continue,
  Keeps-call, Keeps-raise_when,
}
use software_hub.Storage.{FilePath, Bytes, Os, StoragePaths}
use software_hub.Storage.Texts.{PosixPath, as_posix}
use software_hub.Storage.Hashing.{Hasher, sha256_file}
use software_hub.Storage.Lifecycle.{StorageArea, StoredFile, root_of}
use software_hub.Storage.Lawful.{
  IsLawful, IsPlain, moved, KeepsFiles, keeps_if, locate_stored_file-KeepsFiles,
}
use software_hub.Storage.Moves.{below, atomic_move-Ends}
use software_hub.Storage.Faults.{
  IsFault, os_fault, storage_fault, RaisesFaults, faulty, atomic_move-RaisesFaults,
}
use software_hub.Files.{get_file_graph}
use software_hub.Files.Service.{
  World, Meanwhile, on_disk, settle, transaction, incomplete, get_file, catch_storage,
  restore_move_after_failure, undo_move, verified_physical_file, found_or_raise, check_hash,
}

-- A move to a free place, undone.
moved_back_at :
    (p q x : FilePath) (files : FilePath → Option Bytes)
    → files q ≡ none
    → moved q p (moved p q files) x ≡ files x
moved_back_at p q x files free =
    let same : list_beq q q ≡ true = (list_beq_iff q q).1 refl in
    elim (Bool-cases (list_beq x p)) [
      | inl at_p ↦ rw (at_p, same) (ap files (sym ((list_beq_iff x p).0 at_p)))
      | inr off_p ↦ elim (Bool-cases (list_beq x q)) [
        | inl at_q ↦ rw (off_p, at_q) (sym free ∙ ap files (sym ((list_beq_iff x q).0 at_q)))
        | inr off_q ↦ rw (off_p, off_q) refl
      ]
    ]

pub moved_back :
    (p q : FilePath) (files : FilePath → Option Bytes)
    → files q ≡ none
    → moved q p (moved p q files) ≡ files
moved_back p q files free = λ i x. moved_back_at p q x files free i

-- What a state of the disk says of the world.
module _ {S A : Type 0} {P : A → S → Type 0} {Q : Raised → S → Type 0} where
  Ends-with_disk :
      (r : Outcome A × S) (w : World S)
      → Ends P Q r
      → Ends
          (λ a t. P a t.disk × (t.database ≡ w.database))
          (λ e t. Q e t.disk × (t.database ≡ w.database))
          (r.0, record w { disk = r.1 })
  Ends-with_disk _ w (returns a s p) = returns a _ (p, refl)
  Ends-with_disk _ w (raises e s q) = raises e _ (q, refl)

  pub on_disk-Ends :
      (m : Io S A) (w : World S)
      → Ends P Q (m w.disk)
      → Ends
          (λ a t. P a t.disk × (t.database ≡ w.database))
          (λ e t. Q e t.disk × (t.database ≡ w.database))
          (on_disk m w)
  unfolding on_disk
  on_disk-Ends m w h = Ends-with_disk (m w.disk) w h

settle-Ends :
    {S A : Type 0} (commits : Bool) (db : Database) (disk : S) (r : Result (A × Database))
    → Ends
        (λ a t. (t.disk ≡ disk) × (r ≡ ok (a, t.database)))
        (λ e t. (t.disk ≡ disk) × (t.database ≡ db))
        (settle commits db disk r)
settle-Ends true db disk (ok (a, db')) = returns a _ (refl, refl)
settle-Ends false db disk (ok (a, db')) = raises _ _ (refl, refl)
settle-Ends commits db disk (err e) = raises _ _ (refl, refl)

-- A transaction leaves the disk alone; it commits what its block gives, or nothing.
pub transaction-Ends :
    {S A : Type 0} (meanwhile : Meanwhile) (block : Transaction A) (w : World S)
    → Ends
        (λ a t. (t.disk ≡ w.disk) × (block (meanwhile.others w.database) ≡ ok (a, t.database)))
        (λ e t. (t.disk ≡ w.disk) × (t.database ≡ meanwhile.others w.database))
        (transaction meanwhile block w)
unfolding transaction
transaction-Ends meanwhile block w =
    let db = meanwhile.others w.database in settle-Ends meanwhile.commits db w.disk (block db)

found-Ends :
    {S : Type 0} (o : Option FileGraph) (w : S)
    → Ends (λ g t. (t ≡ w) × (o ≡ some g)) (λ e t. (t ≡ w) × (o ≡ none)) (found_or_raise o w)
found-Ends none w = raises _ w (refl, refl)
found-Ends (some g) w = returns g w (refl, refl)

module _ {S H : Type 0} (u : Unicode) (os : Os S) (hasher : Hasher H) (paths : StoragePaths) where
  pub get_file-Ends :
      (file_id : ℕ) (w : World S)
      → Ends
          (λ g t. (t ≡ w) × (get_file_graph file_id w.database ≡ some g))
          (λ e t. (t ≡ w) × (get_file_graph file_id w.database ≡ none))
          (get_file u os hasher paths file_id w)
  unfolding get_file
  get_file-Ends file_id w = found-Ends (get_file_graph file_id w.database) w

  module _ (lawful : IsLawful os) where
    check_hash-KeepsFiles :
        (f : ReleaseFile) (stored : StoredFile) (s : S)
        → KeepsFiles os lawful s (check_hash u os hasher paths f stored s)
    unfolding check_hash sha256_file
    check_hash-KeepsFiles f stored s =
        search (Keeps-refl, Keeps-continue, Keeps-call, Keeps-raise_when, lawful.read_bytes_quiet)
          depth 9

    pub verified_physical_file-KeepsFiles :
        (f : ReleaseFile) (verify_hash : Bool) (s : S)
        → KeepsFiles os lawful s (verified_physical_file u os hasher paths f verify_hash s)
    unfolding verified_physical_file
    verified_physical_file-KeepsFiles f verify_hash s =
        search
          (
            Keeps-refl, Keeps-continue, Keeps-raise_when, keeps_if, locate_stored_file-KeepsFiles,
            check_hash-KeepsFiles,
          )
          depth 12

pub Ends-RaisesFaults :
    {S A : Type 0} {P : A → S → Type 0} {Q : Raised → S → Type 0} {r : Outcome A × S}
    → Ends P Q r
    → RaisesFaults r
    → Ends P (λ e t. Q e t × IsFault e) r
Ends-RaisesFaults (returns a s p) f = returns a s p
Ends-RaisesFaults (raises e s q) (faulty _ _ f) = raises e s (q, f)

-- What is raised in place of a fault: a storage error is replaced, an `OSError` goes on.
abbrev pub IsInstead : Raised → Raised → Type 0
IsInstead instead e = (e ≡ instead) ⊎ (e ≡ Raised.os_error)

-- The error of a compensation that did not return.
abbrev pub IsUndone : Raised → Type 0
IsUndone e = IsInstead incomplete e

pub catch-Ends :
    {S A : Type 0} {P : A → S → Type 0} {V : S → Type 0} (instead e : Raised) (s : S)
    → IsFault e
    → V s
    → Ends P
        (λ e' t. IsInstead instead e' × V t)
        (catch_storage {S = S} {A = A} (λ _. raise instead) e s)
catch-Ends instead e s os_fault v = raises _ s (inr refl, v)
catch-Ends instead e s (storage_fault m) v = raises _ s (inl refl, v)

module _ {S H : Type 0} (u : Unicode) (os : Os S) (hasher : Hasher H) (paths : StoragePaths)
    (lawful : IsLawful os) (plain : IsPlain os) (here there : StorageArea) (relative : PosixPath)
    (files : FilePath → Option Bytes) where
  abbrev place : StorageArea → FilePath
  place area = below (root_of paths area) (as_posix relative)

  -- After a move from `there` to `here`, which was free, the compensation brings every file back, or
  -- raises and leaves the files back or as they are.
  restore-Ends :
      (s : S)
      → os.contents s ≡ moved (place there) (place here) files
      → files (place here) ≡ none
      → Ends
          (λ _ t. os.contents t ≡ files)
          (λ e t.
            IsUndone e
            × ((os.contents t ≡ files) ⊎ (os.contents t ≡ moved (place there) (place here) files)))
          (restore_move_after_failure u os hasher paths here there relative s)
  unfolding restore_move_after_failure
  restore-Ends s h free =
      let back = moved_back (place there) (place here) files free in
      Ends-handle
        (Ends-continue
          (Ends-RaisesFaults
            (atomic_move-Ends os lawful plain (root_of paths here) (as_posix relative)
              (root_of paths there) (as_posix relative) s)
            (atomic_move-RaisesFaults os (root_of paths here) (as_posix relative)
              (root_of paths there) (as_posix relative) s))
          (λ m t p. returns tt t (p.0 ∙ ap (moved (place here) (place there)) h ∙ back)))
        (λ e t q.
          catch-Ends
            {V = λ t'.
              (os.contents t' ≡ files) ⊎ (os.contents t' ≡ moved (place there) (place here) files)}
            incomplete e t q.1
            (elim q.0 [
              | inl same ↦ inr (same ∙ h)
              | inr (unsynced, back_there, free') ↦
                  inl (back_there ∙ ap (moved (place here) (place there)) h ∙ back)
            ]))

  -- What the handler raises: the files are back, or the error says that they may not be.
  pub undo_move-Ends :
      {P : ReleaseFile → World S → Type 0} (message : String) (e : Raised) (w : World S)
      → os.contents w.disk ≡ moved (place there) (place here) files
      → files (place here) ≡ none
      → Ends P
          (λ e' t.
            (t.database ≡ w.database)
            × ((os.contents t.disk ≡ files)
                ⊎ (IsUndone e' × (os.contents t.disk ≡ moved (place there) (place here) files))))
          (undo_move u os hasher paths here there relative message e w)
  unfolding undo_move
  undo_move-Ends message e w h free =
      Ends-continue
        (Ends-weaken (on_disk-Ends _ w (restore-Ends w.disk h free)) (λ _ t p. p)
          (λ e' t q. (q.1, undone e' (os.contents t.disk) q.0)))
        (λ _ t p. raises _ t (p.1, inl p.0))
    where
      undone :
          (e' : Raised) (now : FilePath → Option Bytes)
          → IsUndone e' × ((now ≡ files) ⊎ (now ≡ moved (place there) (place here) files))
          → (now ≡ files) ⊎ (IsUndone e' × (now ≡ moved (place there) (place here) files))
      undone e' now (why, inl back) = inl back
      undone e' now (why, inr away) = inr (why, away)
