-- ===== src/Files/Delete.antt =====
-- services/file_service.py, permanently_delete: bytes go only after the rows have.
use software_hub.Prelude.{ℕ, Option, none, some, ◌++◌, Text, codes, ◌≡◌, ◌⊎◌, list_eq, nat_eq}
use software_hub.Unicode.{Unicode}
use software_hub.Models.{FileGraph, file_status_eq}
use software_hub.Database.{Database}
use software_hub.Io.{Raised}
use software_hub.Storage.{FilePath, Bytes, Os, StoragePaths}
use software_hub.Storage.Texts.{posix_path, as_posix}
use software_hub.Storage.Move.{unsynchronized}
use software_hub.Storage.Hashing.{Hasher}
use software_hub.Storage.Lifecycle.{StorageArea, StoredFile, StagedDeletion, root_of}
use software_hub.Storage.Lawful.{IsLawful, IsPlain, moved, removed}
use software_hub.Storage.Moves.{below}
use software_hub.Files.{get_file_graph, FileDeletionResult}
use software_hub.Files.Service.{World, Meanwhile}
use software_hub.Files.Effects.{IsInstead}
use software_hub.Files.Staging.{not_restored, staged_place}
use software_hub.Files.DeletedRows.{IsRowDeleted}

module _ {S H : Type 0} (u : Unicode) (os : Os S) (hasher : Hasher H) (paths : StoragePaths)
    (lawful : IsLawful os) (plain : IsPlain os) where
  abbrev place_of : Text → FilePath
  place_of staged_name = staged_place u os hasher paths lawful plain staged_name

  module _ (file_id : ℕ) (staged_name : Text) (meanwhile : Meanwhile) (w : World S) where
    abbrev Files : Type 0
    Files = FilePath → Option Bytes

    abbrev files : Files
    files = os.contents w.disk

    -- The files while the one of the row is staged at a path that was free.
    abbrev pub IsStaged : Files → Type 0
    IsStaged now =
        (g : FileGraph) × (area : StorageArea) × (get_file_graph file_id w.database ≡ some g)
        × (now
            ≡ moved
                (below (root_of paths area) (as_posix (posix_path g.file.relative_storage_path)))
                (place_of staged_name) files)
        × (files (place_of staged_name) ≡ none)

    -- The files once the staged one is removed.
    abbrev pub IsErased : Files → Type 0
    IsErased now =
        (before : Files) × IsStaged before × (now ≡ removed (place_of staged_name) before)

    abbrev pub IsDeleted : Database → Type 0
    IsDeleted db = IsRowDeleted file_id (meanwhile.others w.database) db

    abbrev pub AreRowsKept : Database → Type 0
    AreRowsKept db = (db ≡ w.database) ⊎ (db ≡ meanwhile.others w.database)

    -- The errors that say that the file may have been left in its staged place.
    abbrev pub IsStuck : Raised → Type 0
    IsStuck e = (e ≡ unsynchronized) ⊎ IsInstead (not_restored u os hasher paths lawful plain) e

    -- How a deletion that raised leaves the rows and the files.
    abbrev pub IsHalted : Raised → World S → Type 0
    IsHalted e t =
        (AreRowsKept t.database
          × ((os.contents t.disk ≡ files) ⊎ (IsStuck e × IsStaged (os.contents t.disk))))
        ⊎ (IsDeleted t.database × (IsStaged (os.contents t.disk) ⊎ IsErased (os.contents t.disk)))

    -- How one that returned leaves them.
    abbrev pub IsGone : FileDeletionResult → World S → Type 0
    IsGone r t = IsDeleted t.database × IsErased (os.contents t.disk)

    abbrev IsSame : World S → Type 0
    IsSame t = (t.database ≡ w.database) × (os.contents t.disk ≡ files)

    -- The state before the transaction: the rows of before, and the file staged.
    abbrev IsHeld : StagedDeletion → World S → Type 0
    IsHeld staged t =
        (t.database ≡ w.database)
        × (staged.staged_relative_path ≡ codes "deletions/" ++ staged_name ++ codes ".delete")
        × (os.contents t.disk
            ≡ moved (below staged.original.root (as_posix staged.original.relative_path))
                (below paths.temporary staged.staged_relative_path) files)
        × (files (below paths.temporary staged.staged_relative_path) ≡ none)
        × IsStaged (os.contents t.disk)

    abbrev origin : StoredFile → FilePath
    origin stored = below stored.root (as_posix stored.relative_path)
