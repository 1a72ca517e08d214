-- ===== src/Files/Compensation.antt =====
-- services/file_service.py: a method that moves a file and then writes its row, and that moves the
-- file back where the rows are not written.
use software_hub.Prelude.{
  Option, none, Text, ◌≡◌, ◌⊎◌, inl, inr, sym, ap, ◌∙◌, list_eq, nat_eq, String,
}
use software_hub.Unicode.{Unicode}
use software_hub.Models.{ReleaseFile}
use software_hub.Io.{Raised}
use software_hub.Io.Rules.{Ends, Ends-weaken}
use software_hub.Storage.{FilePath, Bytes, Os, StoragePaths}
use software_hub.Storage.Texts.{PosixPath, as_posix}
use software_hub.Storage.Move.{unsynchronized, atomic_move}
use software_hub.Storage.Hashing.{Hasher}
use software_hub.Storage.Lifecycle.{StorageArea, root_of}
use software_hub.Storage.Lawful.{IsLawful, IsPlain, moved}
use software_hub.Storage.Moves.{below, atomic_move-Ends}
use software_hub.Files.Service.{World, Meanwhile, on_disk, undo_move}
use software_hub.Files.Effects.{IsUndone, on_disk-Ends, undo_move-Ends}

-- The rows and files of a method that raised: no row of it is written, and every file stands where it
-- stood, unless the error tells of a compensation that did not return, or of a directory that was
-- not synchronized; then the file stands whole at its path below the other root.
module _ {S H : Type 0} (u : Unicode) (os : Os S) (hasher : Hasher H) (paths : StoragePaths)
    (source target : StorageArea) where
  abbrev pub IsUnharmed : Meanwhile → World S → Raised → World S → Type 0
  IsUnharmed meanwhile w e t =
      ((t.database ≡ w.database) ⊎ (t.database ≡ meanwhile.others w.database))
      × ((os.contents t.disk ≡ os.contents w.disk)
          ⊎ ((path : Text) × (IsUndone e ⊎ (e ≡ unsynchronized))
              × (os.contents t.disk
                  ≡ moved (below (root_of paths source) path) (below (root_of paths target) path)
                      (os.contents w.disk))
              × (os.contents w.disk (below (root_of paths target) path) ≡ none)))

  module _ (lawful : IsLawful os) (plain : IsPlain os) (meanwhile : Meanwhile) (w : World S) where
    -- Neither the rows nor a file have changed.
    abbrev pub IsSame : World S → Type 0
    IsSame t = (t.database ≡ w.database) × (os.contents t.disk ≡ os.contents w.disk)

    pub same : {t : World S} → t ≡ w → IsSame t
    same e = (ap (λ (x : World S). x.database) e, ap (λ (x : World S). os.contents x.disk) e)

    pub unharmed : {e : Raised} {t : World S} → IsSame t → IsUnharmed meanwhile w e t
    unharmed p = (inl p.0, inl p.1)

    module _ (relative : PosixPath) where
      abbrev path : Text
      path = as_posix relative

      abbrev from : FilePath
      from = below (root_of paths source) path

      abbrev to : FilePath
      to = below (root_of paths target) path

      -- The rows are those of before, and the file has moved.
      abbrev pub IsMoved : World S → Type 0
      IsMoved t =
          (t.database ≡ w.database)
          × (os.contents t.disk ≡ moved from to (os.contents w.disk))
          × (os.contents w.disk to ≡ none)

      pub move_step :
          (t : World S)
          → IsSame t
          → Ends
              (λ m t'. IsMoved t')
              (IsUnharmed meanwhile w)
              (on_disk (atomic_move os (root_of paths source) path (root_of paths target) path) t)
      move_step t p =
          let files = ap (moved from to) p.1 in
          let free = sym (ap (λ (f : FilePath → Option Bytes). f to) p.1) in
          Ends-weaken
            (on_disk-Ends _ t (
              atomic_move-Ends os lawful plain (root_of paths source) path (root_of paths target)
                path t.disk))
            (λ m t' h. (h.1 ∙ p.0, h.0.0 ∙ files, free ∙ h.0.1))
            (λ e t' h. (
              inl (h.1 ∙ p.0),
              elim h.0 [
                | inl kept ↦ inl (kept ∙ p.1)
                | inr (unsynced, away, was_free) ↦
                    inr (path, inr unsynced, away ∙ files, free ∙ was_free)
              ],
            ))

      pub undo_step :
          {P : ReleaseFile → World S → Type 0} (message : String) (e : Raised) (t4 t : World S)
          → IsMoved t4
          → t.disk ≡ t4.disk
          → t.database ≡ meanwhile.others t4.database
          → Ends P
              (IsUnharmed meanwhile w)
              (undo_move u os hasher paths target source relative message e t)
      undo_step message e t4 t p disk rows =
          Ends-weaken
            (undo_move-Ends u os hasher paths lawful plain target source relative
              (os.contents w.disk) message e t (ap os.contents disk ∙ p.1) p.2)
            (λ row t' h. h)
            (λ e' t' h. (
              inr (h.0 ∙ rows ∙ ap meanwhile.others p.0),
              elim h.1 [
                | inl back ↦ inl back
                | inr (undone, away) ↦ inr (path, inl undone, away, p.2)
              ],
            ))
