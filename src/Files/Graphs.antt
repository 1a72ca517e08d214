-- ===== src/Files/Graphs.antt =====
-- repositories/release_file_repository.py, get_with_graph: a file with its parents, before and after
-- its row is written.
use software_hub.Prelude.{
  ℕ, Option, none, some, ◌≡◌, ◌≢◌, inl, inr, refl, sym, ap, ◌∙◌, list_eq, nat_eq, subst,
  Option-cases, arith, get_row, set_row, get_row-id, get_row-set_row_self,
}
use software_hub.Models.{ReleaseFile, Release, Software, FileGraph}
use software_hub.Database.{Database}
use software_hub.Files.{get_file_graph, file_id_of}

abbrev release_id_of : Release → ℕ
release_id_of r = r.id

abbrev software_id_of : Software → ℕ
software_id_of s = s.id

graph_parts :
    (i : ℕ) (db : Database) (g : FileGraph)
    → get_file_graph i db ≡ some g
    → (get_row file_id_of i db.files ≡ some g.file)
      × (get_row release_id_of g.file.release_id db.releases ≡ some g.release)
      × (get_row software_id_of g.release.software_id db.software ≡ some g.software)
unfolding get_file_graph
graph_parts i db g h = elim (Option-cases (get_row file_id_of i db.files)) [
  | inl none_found ↦ absurd (ground arith)
  | inr (f, found) ↦ elim (Option-cases (get_row release_id_of f.release_id db.releases)) [
    | inl no_release ↦ absurd (ground arith)
    | inr (r, parent) ↦ elim (Option-cases (get_row software_id_of r.software_id db.software)) [
      | inl no_software ↦ absurd (ground arith)
      | inr (s, root) ↦ ground arith
    ]
  ]
]

graph_whole :
    (i : ℕ) (db : Database) (f : ReleaseFile) (r : Release) (s : Software)
    → get_row file_id_of i db.files ≡ some f
    → get_row release_id_of f.release_id db.releases ≡ some r
    → get_row software_id_of r.software_id db.software ≡ some s
    → get_file_graph i db ≡ some (record { file = f; release = r; software = s })
unfolding get_file_graph
graph_whole i db f r s h k l = ground arith

pub get_file_graph-put_file :
    (i : ℕ) (db db' : Database) (g : FileGraph) (row : ReleaseFile)
    → get_file_graph i db ≡ some g
    → db'.files ≡ set_row file_id_of row.id row db.files
    → db'.releases ≡ db.releases
    → db'.software ≡ db.software
    → row.id ≡ g.file.id
    → row.release_id ≡ g.file.release_id
    → (g' : FileGraph) × (get_file_graph i db' ≡ some g') × (g'.file ≡ row)
get_file_graph-put_file i db db' g row found files releases software same_id same_release =
    let parts = graph_parts i db g found in
    let id : row.id ≡ i = same_id ∙ get_row-id file_id_of i db.files g.file parts.0 in
    let at_id : get_row file_id_of i (set_row file_id_of row.id row db.files) ≡ some row =
      subst (λ k. get_row file_id_of i (set_row file_id_of k row db.files) ≡ some row) (sym id)
        (get_row-set_row_self file_id_of i row db.files g.file id parts.0) in
    (
      record { file = row; release = g.release; software = g.software },
      graph_whole i db' row g.release g.software (ap (get_row file_id_of i) files ∙ at_id)
          (ap (get_row release_id_of row.release_id) releases
            ∙ ap (λ (k : ℕ). get_row release_id_of k db.releases) same_release
            ∙ parts.1)
          (ap (get_row software_id_of g.release.software_id) software ∙ parts.2),
      refl,
    )

pub only : (g g' : FileGraph) (o : Option FileGraph) → o ≡ some g → o ≡ some g' → g ≡ g'
only g g' o h k = cc

pub lost : (g : FileGraph) (o : Option FileGraph) → o ≡ some g → o ≢ none
lost g o h k = cc
