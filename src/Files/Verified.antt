-- ===== src/Files/Verified.antt =====
-- services/file_service.py, _verified_physical_file: what is said of the file on the disk.
use software_hub.Prelude.{false, ◌≡◌, nat_eq}
use software_hub.Unicode.{Unicode}
use software_hub.Models.{ReleaseFile}
use software_hub.Io.Rules.{Ends, returns, Ends-continue, Ends-weaken, Ends-Keeps, Ends-raise_when}
use software_hub.Storage.{Os, StoragePaths}
use software_hub.Storage.Texts.{posix_path}
use software_hub.Storage.Hashing.{Hasher}
use software_hub.Storage.Lawful.{IsLawful, IsPlain, IsTruthful}
use software_hub.Storage.Alone.{IsAlone, locate_stored_file-IsAlone}
use software_hub.Files.Service.{verified_physical_file}
use software_hub.Files.Effects.{verified_physical_file-KeepsFiles}

-- The file that is returned is the only one at its row's path, and no file is touched.
pub verified_physical_file-IsAlone :
    {S H : Type 0} (u : Unicode) (os : Os S) (hasher : Hasher H) (paths : StoragePaths)
    (lawful : IsLawful os) (plain : IsPlain os) (truthful : IsTruthful os) (f : ReleaseFile) (s : S)
    → Ends
        (λ stored t.
          IsAlone paths (posix_path f.relative_storage_path) (os.contents s) stored
          × (os.contents t ≡ os.contents s))
        (λ e t. os.contents t ≡ os.contents s)
        (verified_physical_file u os hasher paths f false s)
unfolding verified_physical_file
verified_physical_file-IsAlone u os hasher paths lawful plain truthful f s =
    Ends-weaken
      (Ends-Keeps os.contents s _
        (Ends-continue
          (locate_stored_file-IsAlone os lawful plain truthful paths f.relative_storage_path s)
          (λ stored t h.
            Ends-continue {P' = λ _ t'. Unit {0}} (Ends-raise_when _ _ t (λ _. tt) (λ _. tt))
              (λ _ t1 _. returns stored t1 h)))
        (verified_physical_file-KeepsFiles u os hasher paths lawful f false s))
      (λ stored t h. h) (λ e t h. h.1)
