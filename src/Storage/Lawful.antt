-- ===== src/Storage/Lawful.antt =====
-- What app/storage relies on of the operating system, and which routines leave every file alone.
use software_hub.Prelude.{
  ℕ, Bool, true, false, Option, none, some, List, [], ◌∷◌, ◌++◌, Text, ◌≡◌, list_beq, list_eq,
  nat_eq, length, if◌then◌else◌,
}
use software_hub.Io.{Raised, Outcome, Io}
use software_hub.Io.Rules.{
  Keeps, Keeps-refl, Keeps-continue, Keeps-lift, Keeps-raise_when, Keeps-call, Keeps-ask,
}
use software_hub.Storage.{FilePath, Bytes, Os, StoragePaths, Metadata, Kind}
use software_hub.Storage.Texts.{PosixPath}
use software_hub.Storage.Paths.{
  perform, safe_resolve, reject_links, ensure_component, ensure_components, ensure_private_parent,
}
use software_hub.Storage.Move.{harden_file_permissions, prepare_move}
use software_hub.Storage.Lifecycle.{
  StorageArea, inspect_candidate, inspect_area, inspect_stored_files, locate_stored_file,
  only_match, StoredFile,
}

-- The files after the one at `p` has taken the place `q`, and after the one at `p` has gone.
abbrev pub moved : FilePath → FilePath → (FilePath → Option Bytes) → FilePath → Option Bytes
moved p q files x = if list_beq x q then files p else if list_beq x p then none else files x

abbrev pub removed : FilePath → (FilePath → Option Bytes) → FilePath → Option Bytes
removed p files x = if list_beq x p then none else files x

-- The documented behaviour of the calls, where nothing else writes to the private storage: only
-- `replace` and `unlink` touch a file, and only where they succeed; what exists not, stands
-- nowhere; a read gives the bytes of the file that stands there.
pub record IsLawful {S : Type 0} (os : Os S) : Type 0 where
  pub resolve_strict_quiet :
      (p : FilePath) (s : S) → os.contents (os.resolve_strict p s).1 ≡ os.contents s
  pub resolve_quiet : (p : FilePath) (s : S) → os.contents (os.resolve p s).1 ≡ os.contents s
  pub is_symlink_quiet : (p : FilePath) (s : S) → os.contents (os.is_symlink p s).1 ≡ os.contents s
  pub exists_quiet : (p : FilePath) (s : S) → os.contents (os.exists p s).1 ≡ os.contents s
  pub is_dir_quiet : (p : FilePath) (s : S) → os.contents (os.is_dir p s).1 ≡ os.contents s
  pub lstat_quiet : (p : FilePath) (s : S) → os.contents (os.lstat p s).1 ≡ os.contents s
  pub device_of_quiet : (p : FilePath) (s : S) → os.contents (os.device_of p s).1 ≡ os.contents s
  pub mkdir_quiet : (m : ℕ) (p : FilePath) (s : S) → os.contents (os.mkdir m p s).1 ≡ os.contents s
  pub chmod_quiet : (m : ℕ) (p : FilePath) (s : S) → os.contents (os.chmod m p s).1 ≡ os.contents s
  pub fsync_file_quiet : (p : FilePath) (s : S) → os.contents (os.fsync_file p s).1 ≡ os.contents s
  pub fsync_directory_quiet :
      (p : FilePath) (s : S) → os.contents (os.fsync_directory p s).1 ≡ os.contents s
  pub read_bytes_quiet : (p : FilePath) (s : S) → os.contents (os.read_bytes p s).1 ≡ os.contents s
  pub replace_lem :
      (p q : FilePath) (s : S)
      → os.contents (os.replace p q s).1
        ≡ (if (os.replace p q s).0 then moved p q (os.contents s) else os.contents s)
  pub unlink_lem :
      (p : FilePath) (s : S)
      → os.contents (os.unlink p s).1
        ≡ (if (os.unlink p s).0 then removed p (os.contents s) else os.contents s)
  pub exists_lem : (p : FilePath) (s : S) → (os.exists p s).0 ≡ false → os.contents s p ≡ none
  pub read_bytes_lem :
      (p : FilePath) (s : S) (b : Bytes) → (os.read_bytes p s).0 ≡ some b → os.contents s p ≡ some b

-- A storage without symbolic links, whose roots are configured as absolute paths without dots:
-- there `Path.resolve` gives the path itself, or fails.
pub record IsPlain {S : Type 0} (os : Os S) : Type 0 where
  pub resolve_strict_plain :
      (p : FilePath) (s : S) (q : FilePath) → (os.resolve_strict p s).0 ≡ some q → q ≡ p
  pub resolve_plain : (p : FilePath) (s : S) (q : FilePath) → (os.resolve p s).0 ≡ some q → q ≡ p

-- `lstat` tells of the file that stands there: where it says that the file is regular, one does, and
-- the size is the number of its bytes.
pub record IsTruthful {S : Type 0} (os : Os S) : Type 0 where
  pub lstat_lem :
      (p : FilePath) (s : S) (m : Metadata)
      → (os.lstat p s).0 ≡ some m
      → m.kind ≡ Kind.regular
      → (b : Bytes) × (os.contents s p ≡ some b) × (m.size ≡ length b)

module _ {S : Type 0} (os : Os S) (lawful : IsLawful os) where
  abbrev pub KeepsFiles : {A : Type 0} → S → Outcome A × S → Type 0
  KeepsFiles s r = Keeps os.contents s r

  pub keeps_perform :
      (op : S → Bool × S) (e : Raised) (s : S)
      → os.contents (op s).1 ≡ os.contents s
      → KeepsFiles s (perform op e s)
  unfolding perform
  keeps_perform op e s h = Keeps-call os.contents _ e s h

  pub keeps_if :
      {A : Type 0} (b : Bool) (m n : Io S A) (s : S)
      → KeepsFiles s (m s)
      → KeepsFiles s (n s)
      → KeepsFiles s ((if b then m else n) s)
  keeps_if true m n s h k = h
  keeps_if false m n s h k = k

  reject_links-KeepsFiles :
      (current : FilePath) (parts : List Text) (s : S)
      → KeepsFiles s (reject_links os current parts s)
  unfolding reject_links
  reject_links-KeepsFiles current [] s = Keeps-refl os.contents s _
  reject_links-KeepsFiles current (part ∷ parts) s = search (
    Keeps-continue,
    Keeps-raise_when,
    Keeps-ask,
    lawful.is_symlink_quiet,
    λ (t : S). reject_links-KeepsFiles (current ++ part ∷ []) parts t,
  )

  pub safe_resolve-KeepsFiles :
      (root : FilePath) (raw : Text) (strict no_links : Bool) (s : S)
      → KeepsFiles s (safe_resolve os root raw strict no_links s)
  unfolding safe_resolve
  safe_resolve-KeepsFiles root raw true true s =
      search
        (
          Keeps-refl, Keeps-continue, Keeps-raise_when, Keeps-call, Keeps-lift,
          lawful.resolve_strict_quiet, reject_links-KeepsFiles,
        )
        depth 14 fits 3000
  safe_resolve-KeepsFiles root raw true false s =
      search
        (
          Keeps-refl, Keeps-continue, Keeps-raise_when, Keeps-call, Keeps-lift,
          lawful.resolve_strict_quiet,
        )
        depth 14 fits 3000
  safe_resolve-KeepsFiles root raw false true s =
      search
        (
          Keeps-refl, Keeps-continue, Keeps-raise_when, Keeps-call, Keeps-lift,
          lawful.resolve_strict_quiet, lawful.resolve_quiet, reject_links-KeepsFiles,
        )
        depth 14 fits 3000
  safe_resolve-KeepsFiles root raw false false s =
      search
        (
          Keeps-refl, Keeps-continue, Keeps-raise_when, Keeps-call, Keeps-lift,
          lawful.resolve_strict_quiet, lawful.resolve_quiet,
        )
        depth 14 fits 3000

  ensure_component-KeepsFiles :
      (root : FilePath) (raw : Text) (s : S) → KeepsFiles s (ensure_component os root raw s)
  unfolding ensure_component
  ensure_component-KeepsFiles root raw s =
      search
        (
          Keeps-refl, Keeps-continue, Keeps-raise_when, Keeps-ask, keeps_perform,
          safe_resolve-KeepsFiles, lawful.exists_quiet, lawful.is_symlink_quiet,
          lawful.is_dir_quiet, lawful.mkdir_quiet, lawful.chmod_quiet, keeps_if,
        )
        depth 20 fits 3000

  ensure_components-KeepsFiles :
      (root : FilePath) (above parts : List Text) (current : FilePath) (s : S)
      → KeepsFiles s (ensure_components os root above parts current s)
  unfolding ensure_components
  ensure_components-KeepsFiles root above [] current s = Keeps-refl os.contents s _
  ensure_components-KeepsFiles root above (part ∷ parts) current s = search (
    Keeps-continue,
    ensure_component-KeepsFiles,
    λ (next : FilePath) (t : S).
        ensure_components-KeepsFiles root (above ++ part ∷ []) parts next t,
  )

  pub ensure_private_parent-KeepsFiles :
      (root : FilePath) (raw : Text) (s : S) → KeepsFiles s (ensure_private_parent os root raw s)
  unfolding ensure_private_parent
  ensure_private_parent-KeepsFiles root raw s =
      search
        (
          Keeps-continue, Keeps-call, Keeps-lift, lawful.resolve_strict_quiet,
          ensure_components-KeepsFiles,
        )
        depth 9

  pub harden_file_permissions-KeepsFiles :
      (p : FilePath) (s : S) → KeepsFiles s (harden_file_permissions os p s)
  unfolding harden_file_permissions
  harden_file_permissions-KeepsFiles p s =
      search
        (
          Keeps-continue, Keeps-raise_when, Keeps-call, keeps_perform, lawful.lstat_quiet,
          lawful.chmod_quiet,
        )
        depth 9

  pub prepare_move-KeepsFiles :
      (source_root : FilePath) (source : Text) (destination_root : FilePath) (destination : Text)
      (s : S)
      → KeepsFiles s (prepare_move os source_root source destination_root destination s)
  unfolding prepare_move
  prepare_move-KeepsFiles source_root source destination_root destination s =
      search
        (
          Keeps-refl, Keeps-continue, Keeps-raise_when, Keeps-ask, Keeps-call, keeps_perform,
          keeps_if, safe_resolve-KeepsFiles, ensure_private_parent-KeepsFiles,
          harden_file_permissions-KeepsFiles, lawful.lstat_quiet, lawful.exists_quiet,
          lawful.is_symlink_quiet, lawful.device_of_quiet, lawful.fsync_file_quiet,
        )
        depth 24 fits 4000

  inspect_candidate-KeepsFiles :
      (paths : StoragePaths) (area : StorageArea) (p : PosixPath) (candidate : FilePath) (s : S)
      → KeepsFiles s (inspect_candidate os paths area p candidate s)
  unfolding inspect_candidate
  inspect_candidate-KeepsFiles paths area p candidate s =
      search (Keeps-refl, Keeps-continue, Keeps-raise_when, Keeps-call, lawful.lstat_quiet) depth 9

  pub inspect_area-KeepsFiles :
      (paths : StoragePaths) (area : StorageArea) (p : PosixPath) (s : S)
      → KeepsFiles s (inspect_area os paths area p s)
  unfolding inspect_area
  inspect_area-KeepsFiles paths area p s =
      search
        (
          Keeps-refl, Keeps-continue, Keeps-ask, keeps_if, safe_resolve-KeepsFiles,
          lawful.exists_quiet, inspect_candidate-KeepsFiles,
        )
        depth 9

  only_match-KeepsFiles :
      (matches : List StoredFile) (s : S) → KeepsFiles s (only_match os matches s)
  only_match-KeepsFiles [] s = Keeps-refl os.contents s _
  only_match-KeepsFiles (f ∷ []) s = Keeps-refl os.contents s _
  only_match-KeepsFiles (f ∷ g ∷ rest) s = Keeps-refl os.contents s _

  pub inspect_stored_files-KeepsFiles :
      (paths : StoragePaths) (raw : Text) (s : S)
      → KeepsFiles s (inspect_stored_files os paths raw s)
  unfolding inspect_stored_files
  inspect_stored_files-KeepsFiles paths raw s =
      search (Keeps-refl, Keeps-continue, inspect_area-KeepsFiles) depth 9

  pub locate_stored_file-KeepsFiles :
      (paths : StoragePaths) (raw : Text) (s : S) → KeepsFiles s (locate_stored_file os paths raw s)
  unfolding locate_stored_file
  locate_stored_file-KeepsFiles paths raw s =
      search (Keeps-continue, only_match-KeepsFiles, inspect_stored_files-KeepsFiles) depth 9
