-- ===== src/Storage/Located.antt =====
-- storage/lifecycle.py: a file is located at the path of its row, below the root of its area.
use software_hub.Prelude.{
  Bool, true, false, List, [], ◌∷◌, ◌++◌, Text, ◌≡◌, refl, if◌then◌else◌, All,
}
use software_hub.Io.{call, ask, return, raise_when}
use software_hub.Io.Rules.{Ends, returns, raises, Ends-continue, Anything, Ends-Anything}
use software_hub.Storage.{FilePath, Os, StoragePaths}
use software_hub.Storage.Texts.{PosixPath, posix_path, as_posix}
use software_hub.Storage.Paths.{safe_resolve}
use software_hub.Storage.Lifecycle.{
  StorageArea, StoredFile, root_of, inspect_candidate, inspect_area, inspect_stored_files,
  only_match, locate_stored_file,
}

-- What every stored file says of itself.
pub record IsAt (paths : StoragePaths) (relative : PosixPath) (stored : StoredFile) : Type 0 where
  pub root : stored.root ≡ root_of paths stored.area
  pub relative_path : stored.relative_path ≡ relative

abbrev AllAt : StoragePaths → PosixPath → List StoredFile → Type 0
AllAt paths relative matches = All (IsAt paths relative) matches

module _ {S : Type 0} (os : Os S) (paths : StoragePaths) (relative : PosixPath) where
  allat_append :
      (a b : List StoredFile)
      → AllAt paths relative a
      → AllAt paths relative b
      → AllAt paths relative (a ++ b)
  allat_append [] b p q = q
  allat_append (f ∷ a) b (h, p) q = (h, allat_append a b p q)

  inspect_candidate-AllAt :
      (area : StorageArea) (candidate : FilePath) (s : S)
      → Ends
          (λ matches t. AllAt paths relative matches)
          Anything
          (inspect_candidate os paths area relative candidate s)
  unfolding inspect_candidate
  inspect_candidate-AllAt area candidate s =
      Ends-continue (Ends-Anything (call (os.lstat candidate) _ s)) (λ metadata t _.
        Ends-continue (Ends-Anything (raise_when _ _ t))
          (λ _ t1 _. returns _ t1 (record { root = refl; relative_path = refl }, tt)))

  candidate_step :
      (here : Bool) (area : StorageArea) (candidate : FilePath) (s : S)
      → Ends
          (λ matches t. AllAt paths relative matches)
          Anything
          ((if here then inspect_candidate os paths area relative candidate else return []) s)
  candidate_step true area candidate s = inspect_candidate-AllAt area candidate s
  candidate_step false area candidate s = returns [] s tt

  inspect_area-AllAt :
      (area : StorageArea) (s : S)
      → Ends
          (λ matches t. AllAt paths relative matches)
          Anything
          (inspect_area os paths area relative s)
  unfolding inspect_area
  inspect_area-AllAt area s =
      Ends-continue
        (Ends-Anything (safe_resolve os (root_of paths area) (as_posix relative) false true s))
        (λ candidate t _.
          Ends-continue (Ends-Anything (ask (os.exists candidate) t))
            (λ here t1 _. candidate_step here area candidate t1))

  only_match-IsAt :
      (matches : List StoredFile) (s : S)
      → AllAt paths relative matches
      → Ends (λ stored t. IsAt paths relative stored) Anything (only_match os matches s)
  only_match-IsAt [] s p = raises _ s tt
  only_match-IsAt (f ∷ []) s (h, p) = returns f s h
  only_match-IsAt (f ∷ g ∷ rest) s p = raises _ s tt

pub locate_stored_file-IsAt :
    {S : Type 0} (os : Os S) (paths : StoragePaths) (raw : Text) (s : S)
    → Ends
        (λ stored t. IsAt paths (posix_path raw) stored)
        Anything
        (locate_stored_file os paths raw s)
unfolding locate_stored_file inspect_stored_files
locate_stored_file-IsAt os paths raw s =
    let path = posix_path raw in
    Ends-continue
      (Ends-continue (inspect_area-AllAt os paths path StorageArea.quarantine s) (λ a t p.
        Ends-continue (inspect_area-AllAt os paths path StorageArea.software t)
          (λ b t1 q. returns (a ++ b) t1 (allat_append os paths path a b p q))))
      (λ matches t h. only_match-IsAt os paths path matches t h)
