-- ===== src/Storage/Alone.antt =====
-- storage/lifecycle.py: a file that is located stands in its area, with the size that is told, and
-- nothing stands at its path in the other area.
use software_hub.Prelude.{
  subst, ℕ, Bool, true, false, Option, none, some, List, [], ◌∷◌, ◌++◌, Text, ◌≡◌, refl, sym, ap,
  ◌∙◌, length, if◌then◌else◌,
}
use software_hub.Io.{ask, return}
use software_hub.Io.Rules.{
  Ends, returns, raises, Ends-continue, Ends-weaken, Ends-Keeps, Ends-call, Ends-ask,
  Ends-raise_when, Anything,
}
use software_hub.Storage.{FilePath, Bytes, Os, Metadata, Kind, StoragePaths}
use software_hub.Storage.Texts.{PosixPath, posix_path, as_posix}
use software_hub.Storage.Move.{is_irregular}
use software_hub.Storage.Lifecycle.{
  StorageArea, StoredFile, root_of, inspect_candidate, inspect_area, inspect_stored_files,
  only_match, locate_stored_file,
}
use software_hub.Storage.Lawful.{
  IsLawful, IsPlain, IsTruthful, safe_resolve-KeepsFiles, inspect_area-KeepsFiles,
}
use software_hub.Storage.Moves.{below, safe_resolve-below}
use software_hub.Storage.Located.{IsAt}

abbrev pub other_area : StorageArea → StorageArea
other_area StorageArea.quarantine = StorageArea.software
other_area StorageArea.software = StorageArea.quarantine

-- The place of a relative path in an area.
abbrev pub place_in : StoragePaths → PosixPath → StorageArea → FilePath
place_in paths relative area = below (root_of paths area) (as_posix relative)

-- The only file at a relative path, over both areas, and what is said of it.
pub record IsAlone (paths : StoragePaths) (relative : PosixPath) (files : FilePath → Option Bytes)
    (stored : StoredFile) : Type 0 where
  pub said : IsAt paths relative stored
  pub bytes : Bytes
  pub stands : files (place_in paths relative stored.area) ≡ some bytes
  pub size : stored.size_bytes ≡ length bytes
  pub alone : files (place_in paths relative (other_area stored.area)) ≡ none

-- What the inspection of one area has found there.
data HasFound (paths : StoragePaths) (relative : PosixPath) (area : StorageArea)
    (files : FilePath → Option Bytes) : List StoredFile → Type 0 where
  absent : files (place_in paths relative area) ≡ none → HasFound paths relative area files []
  present :
      (path : FilePath) (bytes : Bytes) (size : ℕ)
      → files (place_in paths relative area) ≡ some bytes
      → size ≡ length bytes
      → HasFound paths relative area files (
          record {
            area = area;
            root = root_of paths area;
            relative_path = relative;
            path = path;
            size_bytes = size;
          }
          ∷ [])

regular : (m : Metadata) → is_irregular m ≡ false → m.kind ≡ Kind.regular
regular m h = go m.kind h
  where
    go : (k : Kind) → is_irregular (record m { kind = k }) ≡ false → k ≡ Kind.regular
    go Kind.regular h = refl
    go Kind.directory h = absurd (cc)
    go Kind.symlink h = absurd (cc)
    go Kind.special h = absurd (cc)

module _ {S : Type 0} (os : Os S) (lawful : IsLawful os) (plain : IsPlain os)
    (truthful : IsTruthful os) (paths : StoragePaths) (relative : PosixPath) where
  candidate_step :
      (here : Bool) (area : StorageArea) (candidate : FilePath) (files : FilePath → Option Bytes)
      (s : S)
      → candidate ≡ place_in paths relative area
      → os.contents s ≡ files
      → (here ≡ false → files candidate ≡ none)
      → Ends
          (λ matches t. HasFound paths relative area files matches)
          Anything
          ((if here then inspect_candidate os paths area relative candidate else return []) s)
  unfolding inspect_candidate
  candidate_step false area candidate files s at same gone =
      returns [] s (absent (ap files (sym at) ∙ gone refl))
  candidate_step true area candidate files s at same gone =
      Ends-continue {P' = λ m t. (os.lstat candidate s).0 ≡ some m}
        (Ends-call _ _ s (λ m told. told) (λ _. tt))
        (λ m t told.
          Ends-continue {P' = λ _ t'. is_irregular m ≡ false}
            (Ends-raise_when _ _ t (λ h. h) (λ _. tt))
            (λ _ t1 h.
              let (bytes, stands, size) = truthful.lstat_lem candidate s m told (regular m h) in
              returns _ t1 (
                present candidate bytes m.size
                  (ap files (sym at) ∙ (λ i. sym same i candidate) ∙ stands) size)))

  ask_step :
      (p : FilePath) (files : FilePath → Option Bytes) (s : S)
      → os.contents s ≡ files
      → Ends
          (λ here t. (os.contents t ≡ files) × (here ≡ false → files p ≡ none))
          Anything
          (ask (os.exists p) s)
  ask_step p files s same =
      Ends-ask _ s
        (lawful.exists_quiet p s ∙ same, λ gone. (λ i. sym same i p) ∙ lawful.exists_lem p s gone)

  area_step :
      (area : StorageArea) (files : FilePath → Option Bytes) (s : S)
      → os.contents s ≡ files
      → Ends
          (λ matches t. HasFound paths relative area files matches)
          Anything
          (inspect_area os paths area relative s)
  unfolding inspect_area
  area_step area files s same =
      Ends-continue
        (Ends-weaken {Q' = Anything}
          (Ends-Keeps os.contents s _
            (safe_resolve-below os lawful plain (root_of paths area) (as_posix relative) false true
              s)
            (safe_resolve-KeepsFiles os lawful (root_of paths area) (as_posix relative) false true
              s))
          (λ candidate t h. h) (λ e t h. tt))
        (λ candidate t at.
          Ends-continue (ask_step candidate files t (at.1 ∙ same))
            (λ here t1 gone. candidate_step here area candidate files t1 at.0 gone.0 gone.1))

  inspect_area-HasFound :
      (area : StorageArea) (files : FilePath → Option Bytes) (s : S)
      → os.contents s ≡ files
      → Ends
          (λ matches t. HasFound paths relative area files matches × (os.contents t ≡ files))
          Anything
          (inspect_area os paths area relative s)
  inspect_area-HasFound area files s same =
      Ends-weaken
        (Ends-Keeps os.contents s _ (area_step area files s same)
          (inspect_area-KeepsFiles os lawful paths area relative s))
        (λ matches t h. (h.0, h.1 ∙ same)) (λ e t h. tt)

  only_match-IsAlone :
      (a b : List StoredFile) (files : FilePath → Option Bytes) (s : S)
      → HasFound paths relative StorageArea.quarantine files a
      → HasFound paths relative StorageArea.software files b
      → Ends (λ stored t. IsAlone paths relative files stored) Anything (only_match os (a ++ b) s)
  only_match-IsAlone _ _ files s (absent q) (absent r) = raises _ s tt
  only_match-IsAlone _ _ files s (absent q) (present path bytes size stands told) =
      returns _ s (record {
        said = record { root = refl; relative_path = refl };
        bytes = bytes;
        stands = stands;
        size = told;
        alone = q;
      })
  only_match-IsAlone _ _ files s (present path bytes size stands told) (absent r) =
      returns _ s (record {
        said = record { root = refl; relative_path = refl };
        bytes = bytes;
        stands = stands;
        size = told;
        alone = r;
      })
  only_match-IsAlone _ _ files s (present p b n h k) (present p' b' n' h' k') = raises _ s tt

-- A file that is located is the only one at its relative path, with the size that is told.
pub locate_stored_file-IsAlone :
    {S : Type 0} (os : Os S) (lawful : IsLawful os) (plain : IsPlain os) (truthful : IsTruthful os)
    (paths : StoragePaths) (raw : Text) (s : S)
    → Ends
        (λ stored t. IsAlone paths (posix_path raw) (os.contents s) stored)
        Anything
        (locate_stored_file os paths raw s)
unfolding locate_stored_file inspect_stored_files
locate_stored_file-IsAlone os lawful plain truthful paths raw s =
    let path = posix_path raw in
    let files = os.contents s in
    let found = inspect_area-HasFound os lawful plain truthful paths path in
    Ends-continue
      {P' = λ matches t.
        (a : List StoredFile) × (b : List StoredFile) × (a ++ b ≡ matches)
        × HasFound paths path StorageArea.quarantine files a
        × HasFound paths path StorageArea.software files b}
      (Ends-continue (found StorageArea.quarantine files s refl) (λ a t p.
        Ends-continue (found StorageArea.software files t p.1)
          (λ b t1 q. returns (a ++ b) t1 (a, b, refl, p.0, q.0))))
      (λ matches t (a, b, same, p, q).
        subst
          (λ m. Ends (λ stored t'. IsAlone paths path files stored) Anything (only_match os m t))
          same (only_match-IsAlone os lawful plain truthful paths path a b files t p q))
