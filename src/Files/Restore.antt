-- ===== src/Files/Restore.antt =====
-- services/file_service.py, restore_ready: the file is ready in quarantine, or every file stands where
-- it stood, or the error says that one may not.
use software_hub.Prelude.{
  ℕ, Bool, true, false, Option, none, some, [], ◌≡◌, ◌⊎◌, inl, inr, sym, ap, ◌∙◌, list_eq, nat_eq,
  subst, Option-cases, if◌then◌else◌, arith, String,
}
use software_hub.Errors.{Result, ok, Result-cases}
use software_hub.Unicode.{Unicode}
use software_hub.Models.{ReleaseFile, FileGraph, FileStatus}
use software_hub.Audit.{AuditContext, AuditAction, Metadata}
use software_hub.Database.{Database}
use software_hub.Policies.{apply_file_transition, move_file, file_transitions, ensure_transition}
use software_hub.Io.{Raised, raise, return}
use software_hub.Io.Rules.{Ends, returns, raises, Ends-continue, Ends-handle, Ends-weaken}
use software_hub.Storage.{FilePath, Bytes, Os, StoragePaths}
use software_hub.Storage.Texts.{PosixPath, posix_path}
use software_hub.Storage.Hashing.{Hasher}
use software_hub.Storage.Lifecycle.{StorageArea, StoredFile}
use software_hub.Storage.Lawful.{IsLawful, IsPlain, IsTruthful, moved}
use software_hub.Storage.Alone.{IsAlone, other_area, place_in}
use software_hub.Files.Verified.{verified_physical_file-IsAlone}
use software_hub.Files.{get_file_graph, transition_row}
use software_hub.Files.Service.{
  World, Meanwhile, get_file, restore_ready, move_back, is_software, translate, undo_move,
}
use software_hub.Files.Graphs.{get_file_graph-put_file, only, lost}
use software_hub.Files.Compensation.{
  IsUnharmed, IsSame, same, unharmed, IsMoved, move_step, undo_step,
}
use software_hub.Files.Effects.{get_file-Ends, on_disk-Ends, transaction-Ends}

transitioned_row :
    (g : FileGraph) (target : FileStatus) (now : ℕ) (row : ReleaseFile)
    → apply_file_transition g target now ≡ ok row
    → (row.id ≡ g.file.id) × (row.release_id ≡ g.file.release_id) × (row.status ≡ target)
unfolding apply_file_transition move_file ensure_transition file_transitions
transitioned_row g target now row h = ground arith

module _ (u : Unicode) (file_id : ℕ) (target : FileStatus) (now : ℕ) (audit : Option AuditContext)
    (action : AuditAction) (more : Metadata) (db db' : Database) (row : ReleaseFile) where
  -- The row that the block has written is found afterwards, with the target's status.
  pub transition_row-found :
      transition_row u file_id target now audit action more db ≡ ok (row, db')
      → (g : FileGraph) × (get_file_graph file_id db' ≡ some g)
        × (g.file ≡ row)
        × (row.status ≡ target)
  unfolding transition_row
  transition_row-found h = elim (Option-cases (get_file_graph file_id db)) [
    | inl missing ↦ absurd (ground arith)
    | inr (g, found) ↦ elim (Result-cases (apply_file_transition g target now)) [
      | inr (e, refused) ↦ absurd (ground arith)
      | inl (f, moved_on) ↦
          let kept = transitioned_row g target now f moved_on in
          let (g', found', is_row) =
            get_file_graph-put_file file_id db db' g row found (ground arith) (ground arith)
              (ground arith) (ground arith) (ground arith) in
          (g', found', is_row, ground arith)
    ]
  ]

module _ {S H : Type 0} (u : Unicode) (os : Os S) (hasher : Hasher H) (paths : StoragePaths) where
  -- The files of a restoration that returned, for the row's path: the file stands in quarantine, or
  -- has gone there from the permanent area.
  abbrev pub IsBack : PosixPath → (FilePath → Option Bytes) → (FilePath → Option Bytes) → Type 0
  IsBack path before after =
      (bytes : Bytes) × (((before (place_in paths path StorageArea.quarantine) ≡ some bytes)
          × (before (place_in paths path StorageArea.software) ≡ none)
          × (after ≡ before))
        ⊎ ((before (place_in paths path StorageArea.software) ≡ some bytes)
            × (before (place_in paths path StorageArea.quarantine) ≡ none)
            × (after
                ≡ moved (place_in paths path StorageArea.software)
                    (place_in paths path StorageArea.quarantine) before)))

  -- A restoration that returned: the row is ready, and the file of the row is in quarantine.
  pub record IsRestored (file_id : ℕ) (w : World S) (g : FileGraph) (t : World S) : Type 0 where
    pub found : get_file_graph file_id t.database ≡ some g
    pub status : g.file.status ≡ FileStatus.ready
    pub row : FileGraph
    pub was : get_file_graph file_id w.database ≡ some row
    pub files :
        IsBack (posix_path row.file.relative_storage_path) (os.contents w.disk) (os.contents t.disk)

  abbrev quarantine : StorageArea
  quarantine = StorageArea.quarantine

  abbrev software : StorageArea
  software = StorageArea.software

  module _ (lawful : IsLawful os) (plain : IsPlain os) (truthful : IsTruthful os) (file_id : ℕ)
      (meanwhile : Meanwhile) (now : ℕ) (audit : Option AuditContext) (w : World S) where
    abbrev Same : World S → Type 0
    Same = IsSame u os hasher paths software quarantine lawful plain meanwhile w

    abbrev Unharmed : Raised → World S → Type 0
    Unharmed = IsUnharmed u os hasher paths software quarantine meanwhile w

    abbrev Moved : StoredFile → World S → Type 0
    Moved stored =
        IsMoved u os hasher paths software quarantine lawful plain meanwhile w stored.relative_path

    abbrev unharmed_if_same : {e : Raised} {t : World S} → Same t → Unharmed e t
    unharmed_if_same = unharmed u os hasher paths software quarantine lawful plain meanwhile w

    -- The state before the transaction, by the area in which the file was found.
    abbrev Ready : StoredFile → Bool → World S → Type 0
    Ready stored true t = Moved stored t
    Ready stored false t = Same t

    abbrev message : String
    message = "File restore metadata could not be saved."

    back_step :
        (stored : StoredFile) (b : Bool) (t : World S)
        → Same t
        → Ends
            (λ _ t'. Ready stored b t')
            Unharmed
            ((if b then move_back u os hasher paths stored else return tt) t)
    unfolding move_back
    back_step stored true t p =
        Ends-continue
          (move_step u os hasher paths software quarantine lawful plain meanwhile w
            stored.relative_path t p)
          (λ m t' p'. returns tt t' p')
    back_step stored false t p = returns tt t p

    compensate_step :
        {P : ReleaseFile → World S → Type 0} (stored : StoredFile) (b : Bool) (e : Raised)
        (t4 t : World S)
        → Ready stored b t4
        → t.disk ≡ t4.disk
        → t.database ≡ meanwhile.others t4.database
        → Ends P Unharmed (
            (if b
                then undo_move u os hasher paths quarantine software stored.relative_path message e
                else raise (translate message e))
              t)
    compensate_step stored true e t4 t p disk rows =
        undo_step u os hasher paths software quarantine lawful plain meanwhile w
          stored.relative_path message e t4 t p disk rows
    compensate_step stored false e t4 t p disk rows =
        raises _ t (inr (rows ∙ ap meanwhile.others p.0), inl (ap os.contents disk ∙ p.1))

    files_step :
        (path : PosixPath) (stored : StoredFile) (area : StorageArea) (bytes : Bytes)
        (t4 t : World S)
        → stored.relative_path ≡ path
        → os.contents w.disk (place_in paths path area) ≡ some bytes
        → os.contents w.disk (place_in paths path (other_area area)) ≡ none
        → Ready stored (is_software area) t4
        → t.disk ≡ t4.disk
        → IsBack path (os.contents w.disk) (os.contents t.disk)
    files_step path stored StorageArea.software bytes t4 t said stands alone p disk = (
      bytes,
      inr (
        stands,
        alone,
        ap os.contents disk ∙ p.1 ∙ (λ i.
            moved (place_in paths (said i) StorageArea.software)
              (place_in paths (said i) StorageArea.quarantine) (os.contents w.disk)),
      ),
    )
    files_step path stored StorageArea.quarantine bytes t4 t said stands alone p disk =
        (bytes, inl (stands, alone, ap os.contents disk ∙ p.1))

    block : Database → Result (ReleaseFile × Database)
    block = transition_row u file_id FileStatus.ready now audit AuditAction.file_restored []

    read_step :
        (before : FileGraph) (stored : StoredFile) (row : ReleaseFile) (t4 t : World S)
        → get_file_graph file_id w.database ≡ some before
        → IsAlone paths (posix_path before.file.relative_storage_path) (os.contents w.disk) stored
        → Ready stored (is_software stored.area) t4
        → t.disk ≡ t4.disk
        → block (meanwhile.others t4.database) ≡ ok (row, t.database)
        → Ends (IsRestored file_id w) Unharmed (get_file u os hasher paths file_id t)
    unfolding block
    read_step before stored row t4 t was alone p disk written =
        let (g0, found0, is_row, status) =
          transition_row-found u file_id FileStatus.ready now audit AuditAction.file_restored []
            (meanwhile.others t4.database) t.database row written in
        Ends-weaken (get_file-Ends u os hasher paths file_id t)
          (λ g t' h.
            let same_graph : g0 ≡ g = only g0 g (get_file_graph file_id t.database) found0 h.1 in
            let file : g.file ≡ row = ap (λ (x : FileGraph). x.file) (sym same_graph) ∙ is_row in
            subst (λ x. IsRestored file_id w g x) (sym h.0)
              (record {
                found = h.1;
                status = ap (λ (f : ReleaseFile). f.status) file ∙ status;
                row = before;
                was = was;
                files =
                    files_step (posix_path before.file.relative_storage_path) stored stored.area
                      alone.bytes t4 t alone.said.relative_path alone.stands alone.alone p disk;
              }))
          (λ e t' h. absurd (lost g0 (get_file_graph file_id t.database) found0 h.1))

    -- Over a lawful and truthful operating system and a storage without symbolic links, whatever
    -- others commit before the transaction and whether or not the database carries it out: where
    -- `restore_ready` returns, the row is ready, and the file at the path of the row that was read,
    -- which stood in one of the two areas alone, is in quarantine: no file has moved where it stood
    -- there, and where it stood in the permanent area it has moved to the free place in quarantine,
    -- unchanged, and no other file has changed. Where it raises, no row has been written by it, and
    -- every file stands where it stood, unless the error is that of a compensation that failed or of
    -- a directory that was not synchronized: then at most one file has been moved so.
    pub restore_ready-Ends :
        Ends
          (IsRestored file_id w)
          (IsUnharmed u os hasher paths StorageArea.software StorageArea.quarantine meanwhile w)
          (restore_ready u os hasher paths file_id meanwhile now audit w)
    unfolding restore_ready block
    restore_ready-Ends =
        Ends-continue {P' = λ g t. (get_file_graph file_id w.database ≡ some g) × Same t}
          (Ends-weaken (get_file-Ends u os hasher paths file_id w)
            (λ g t p.
              (p.1, same u os hasher paths software quarantine lawful plain meanwhile w p.0))
            (λ e t q.
              unharmed_if_same
                (same u os hasher paths software quarantine lawful plain meanwhile w q.0)))
          (λ g t (was, p).
            Ends-continue
              {P' = λ stored t'.
                IsAlone paths (posix_path g.file.relative_storage_path) (os.contents w.disk) stored
                × Same t'}
              (Ends-weaken
                (on_disk-Ends _ t (
                  verified_physical_file-IsAlone u os hasher paths lawful plain truthful g.file
                    t.disk))
                (λ stored t1 p1. (
                  subst (λ x. IsAlone paths (posix_path g.file.relative_storage_path) x stored) p.1
                      p1.0.0,
                  (p1.1 ∙ p.0, p1.0.1 ∙ p.1),
                ))
                (λ e t1 p1. unharmed_if_same (p1.1 ∙ p.0, p1.0 ∙ p.1)))
              (λ stored t1 (alone, p1).
                Ends-continue (back_step stored (is_software stored.area) t1 p1) (λ _ t4 p4.
                  Ends-continue
                    (Ends-handle (transaction-Ends meanwhile block t4) (λ e t5 q.
                      compensate_step stored (is_software stored.area) e t4 t5 p4 q.0 q.1))
                    (λ row t5 p5. read_step g stored row t4 t5 was alone p4 p5.0 p5.1))))
