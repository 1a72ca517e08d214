-- ===== src/Files/Publish.antt =====
-- services/file_service.py, publish: the file is published, or every file stands where it stood, or
-- the error says that one may not.
use software_hub.Prelude.{
  ℕ, true, Option, none, some, Text, ◌≡◌, inl, inr, sym, ap, ◌∙◌, list_beq, list_eq, nat_eq, subst,
  Bool-cases, Option-cases, arith, set_row,
}
use software_hub.Errors.{ok, Result-cases}
use software_hub.Unicode.{Unicode}
use software_hub.Models.{ReleaseFile, FileGraph, FileStatus}
use software_hub.Audit.{AuditContext}
use software_hub.Database.{Database}
use software_hub.Policies.{apply_file_transition, move_file, file_transitions, ensure_transition}
use software_hub.Io.{Raised}
use software_hub.Io.Rules.{
  Ends, Ends-continue, Ends-handle, Ends-weaken, Ends-lift, Ends-raise_when, Keeps-Ends,
}
use software_hub.Storage.{Os, StoragePaths}
use software_hub.Storage.Texts.{PosixPath, as_posix}
use software_hub.Storage.Hashing.{Hasher}
use software_hub.Storage.Lifecycle.{StorageArea, StoredFile}
use software_hub.Storage.Lawful.{IsLawful, IsPlain, moved}
use software_hub.Storage.Moves.{below}
use software_hub.Files.{get_file_graph, publish_row, ensure_publish_ready, file_id_of}
use software_hub.Files.Service.{World, Meanwhile, get_file, publish}
use software_hub.Files.Graphs.{get_file_graph-put_file, only, lost}
use software_hub.Files.Compensation.{
  IsUnharmed, IsSame, same, unharmed, IsMoved, move_step, undo_step,
}
use software_hub.Files.Effects.{
  get_file-Ends, verified_physical_file-KeepsFiles, on_disk-Ends, transaction-Ends,
}

published_row :
    (g : FileGraph) (now : ℕ) (row : ReleaseFile)
    → apply_file_transition g FileStatus.published now ≡ ok row
    → (row.id ≡ g.file.id)
      × (row.release_id ≡ g.file.release_id)
      × (row.status ≡ FileStatus.published)
unfolding apply_file_transition move_file ensure_transition file_transitions
published_row g now row h = ground arith

module _ (u : Unicode) (file_id : ℕ) (relative : PosixPath) (now : ℕ) (audit : Option AuditContext)
    (db db' : Database) (row : ReleaseFile) where
  -- What the block has read, and what it has written.
  publish_row-ok :
      publish_row u file_id relative now audit db ≡ ok (row, db')
      → (g : FileGraph) × (get_file_graph file_id db ≡ some g)
        × (ensure_publish_ready u g ≡ ok tt)
        × (db'.files ≡ set_row file_id_of row.id row db.files)
        × (db'.releases ≡ db.releases)
        × (db'.software ≡ db.software)
        × (row.id ≡ g.file.id)
        × (row.release_id ≡ g.file.release_id)
        × (row.status ≡ FileStatus.published)
        × (row.relative_storage_path ≡ as_posix relative)
  unfolding publish_row
  publish_row-ok h = elim (Option-cases (get_file_graph file_id db)) [
    | inl missing ↦ absurd (ground arith)
    | inr (g, found) ↦ elim (Result-cases (ensure_publish_ready u g)) [
      | inr (e, unready) ↦ absurd (ground arith)
      | inl (done, ready) ↦
          elim (Bool-cases (list_beq g.file.relative_storage_path (as_posix relative))) [
            | inr changed ↦ absurd (ground arith)
            | inl same ↦ elim (Result-cases (apply_file_transition g FileStatus.published now)) [
              | inr (e, refused) ↦ absurd (ground arith)
              | inl (f, moved_on) ↦
                  let kept = published_row g now f moved_on in
                  (
                    g,
                    found,
                    ground arith,
                    ground arith,
                    ground arith,
                    ground arith,
                    ground arith,
                    ground arith,
                    ground arith,
                    ground arith,
                  )
            ]
          ]
    ]
  ]

  publish_row-found :
      publish_row u file_id relative now audit db ≡ ok (row, db')
      → (g : FileGraph) × (get_file_graph file_id db' ≡ some g) × (g.file ≡ row)
  publish_row-found h =
      let (g, found, ready, files, releases, software, same_id, same_release, status, path) =
        publish_row-ok h in
      get_file_graph-put_file file_id db db' g row found files releases software same_id
        same_release

module _ {S H : Type 0} (u : Unicode) (os : Os S) (hasher : Hasher H) (paths : StoragePaths) where
  -- A publication that returned: the row is published at its path, and its file has gone from
  -- quarantine to that path of the permanent area, where nothing stood.
  pub record IsPublished (file_id : ℕ) (w : World S) (g : FileGraph) (t : World S) : Type 0 where
    pub found : get_file_graph file_id t.database ≡ some g
    pub status : g.file.status ≡ FileStatus.published
    pub moved_there :
        os.contents t.disk
        ≡ moved
            (below paths.quarantine g.file.relative_storage_path)
            (below paths.software g.file.relative_storage_path)
            (os.contents w.disk)
    pub was_free : os.contents w.disk (below paths.software g.file.relative_storage_path) ≡ none

  abbrev quarantine : StorageArea
  quarantine = StorageArea.quarantine

  abbrev software : StorageArea
  software = StorageArea.software

  module _ (lawful : IsLawful os) (plain : IsPlain os) (file_id : ℕ) (meanwhile : Meanwhile)
      (now : ℕ) (audit : Option AuditContext) (w : World S) where
    abbrev Same : World S → Type 0
    Same = IsSame u os hasher paths quarantine software lawful plain meanwhile w

    abbrev Unharmed : Raised → World S → Type 0
    Unharmed = IsUnharmed u os hasher paths quarantine software meanwhile w

    abbrev unharmed_if_same : {e : Raised} {t : World S} → Same t → Unharmed e t
    unharmed_if_same = unharmed u os hasher paths quarantine software lawful plain meanwhile w

    module _ (stored : StoredFile) where
      abbrev path : Text
      path = as_posix stored.relative_path

      abbrev Moved : World S → Type 0
      Moved =
          IsMoved u os hasher paths quarantine software lawful plain meanwhile w
            stored.relative_path

      read_step :
          (row : ReleaseFile) (t4 t : World S)
          → Moved t4
          → t.disk ≡ t4.disk
          → publish_row u file_id stored.relative_path now audit (meanwhile.others t4.database)
            ≡ ok (row, t.database)
          → Ends
              (IsPublished file_id w)
              (IsUnharmed u os hasher paths StorageArea.quarantine StorageArea.software meanwhile w)
              (get_file u os hasher paths file_id t)
      read_step row t4 t p disk written =
          let rows = meanwhile.others t4.database in
          let (g0, found0, is_row) =
            publish_row-found u file_id stored.relative_path now audit rows t.database row
              written in
          let facts =
            publish_row-ok u file_id stored.relative_path now audit rows t.database row written in
          let status : row.status ≡ FileStatus.published = facts.8 in
          let at_path : row.relative_storage_path ≡ path = facts.9 in
          Ends-weaken (get_file-Ends u os hasher paths file_id t)
            (λ g t' h.
              let same_graph : g0 ≡ g = only g0 g (get_file_graph file_id t.database) found0 h.1 in
              let file : g.file ≡ row = ap (λ (x : FileGraph). x.file) (sym same_graph) ∙ is_row in
              let at_file : g.file.relative_storage_path ≡ path =
                ap (λ (f : ReleaseFile). f.relative_storage_path) file ∙ at_path in
              subst (λ x. IsPublished file_id w g x) (sym h.0)
                (record {
                  found = h.1;
                  status = ap (λ (f : ReleaseFile). f.status) file ∙ status;
                  moved_there =
                      ap os.contents disk
                      ∙ p.1
                      ∙ ap
                          (λ (k : Text).
                            moved (below paths.quarantine k) (below paths.software k)
                              (os.contents w.disk))
                          (sym at_file);
                  was_free =
                      ap (λ (k : Text). os.contents w.disk (below paths.software k)) at_file ∙ p.2;
                }))
            (λ e t' h. absurd (lost g0 (get_file_graph file_id t.database) found0 h.1))

    -- Over a lawful operating system and a storage without symbolic links, whatever others commit
    -- before the transaction and whether or not the database carries it out: where `publish` returns,
    -- the row is published at its path and its file, unchanged, has moved from quarantine to a place of the
    -- permanent area that was free, and no other file has changed; where it raises, no row has been written by it, and every file
    -- stands where it stood, unless the error is that of a compensation that failed or of a
    -- directory that was not synchronized: then at most the file has been moved so.
    pub publish-Ends :
        Ends
          (IsPublished file_id w)
          (IsUnharmed u os hasher paths StorageArea.quarantine StorageArea.software meanwhile w)
          (publish u os hasher paths file_id meanwhile now audit w)
    unfolding publish
    publish-Ends =
        Ends-continue
          (Ends-weaken (get_file-Ends u os hasher paths file_id w)
            (λ g t p. same u os hasher paths quarantine software lawful plain meanwhile w p.0)
            (λ e t q.
              unharmed_if_same
                (same u os hasher paths quarantine software lawful plain meanwhile w q.0)))
          (λ g t p.
            Ends-continue {P' = λ _ t'. Same t'}
              (Ends-lift _ t (λ _ _. p) (λ _ _. unharmed_if_same p))
              (λ _ t1 p1.
                Ends-continue
                  (Ends-weaken
                    (on_disk-Ends _ t1 (
                      Keeps-Ends os.contents t1.disk _ (
                        verified_physical_file-KeepsFiles u os hasher paths lawful g.file true
                          t1.disk)))
                    (λ stored t2 p2. (p2.1 ∙ p1.0, p2.0 ∙ p1.1))
                    (λ e t2 p2. unharmed_if_same (p2.1 ∙ p1.0, p2.0 ∙ p1.1)))
                  (λ stored t2 p2.
                    Ends-continue {P' = λ _ t'. Same t'}
                      (Ends-raise_when _ _ t2 (λ _. p2) (λ _. unharmed_if_same p2))
                      (λ _ t3 p3.
                        Ends-continue
                          (move_step u os hasher paths quarantine software lawful plain meanwhile w
                            stored.relative_path t3 p3)
                          (λ m t4 p4.
                            Ends-continue
                              (Ends-handle
                                (transaction-Ends meanwhile
                                  (publish_row u file_id stored.relative_path now audit) t4)
                                (λ e t q.
                                  undo_step u os hasher paths quarantine software lawful plain
                                    meanwhile w stored.relative_path
                                    "File publication metadata could not be saved." e t4 t p4 q.0
                                    q.1))
                              (λ row t5 p5. read_step stored row t4 t5 p4 p5.0 p5.1))))))
