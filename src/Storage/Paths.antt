-- ===== src/Storage/Paths.antt =====
-- storage/paths.py: relative paths, their resolution below a root, and private directories.
use software_hub.Prelude.{
  ℕ, Bool, true, false, ◌||◌, not, none, some, List, [], ◌∷◌, ◌++◌, Text, nat_eq, list_beq, list_eq,
  any, if◌then◌else◌, String, contains,
}
use software_hub.Errors.{ApplicationError, Result, ok, err}
use software_hub.Io.{Raised, Io, ◌>>=◌, ◌>>◌, return, lift, raise_when, call, ask}
use software_hub.Storage.{FilePath, Os}
use software_hub.Storage.Texts.{PosixPath, posix_path, split, join, is_bad}

abbrev pub storage_error : String → Raised
storage_error message = Raised.application (ApplicationError.storage_error message)

-- A call that only succeeds or raises an `OSError`.
unfoldable pub perform : {S : Type 0} → (S → Bool × S) → Raised → Io S (Unit {0})
perform op e s = call (λ t. let (done, t') = op t in (if done then some tt else none, t')) e s

abbrev invalid_path : ApplicationError
invalid_path = ApplicationError.storage_error "The storage path is invalid."

-- `_reject_unsafe_relative_path`
unfoldable pub reject_unsafe_relative_path : Text → Result PosixPath
unfolding split posix_path
reject_unsafe_relative_path raw =
    if list_beq raw [] || contains raw 0 || contains raw b'\\'
    then err invalid_path
    else if any is_bad (split raw)
    then err invalid_path
    else if (posix_path raw).absolute || any is_bad (posix_path raw).parts
    then err invalid_path
    else ok (posix_path raw)

abbrev pub is_prefix : FilePath → FilePath → Bool
is_prefix [] q = true
is_prefix (x ∷ p) [] = false
is_prefix (x ∷ p) (y ∷ q) = if list_beq x y then is_prefix p q else false

-- `path.parent.parts`
unfoldable pub all_but_last : List Text → List Text
all_but_last [] = []
all_but_last (part ∷ []) = []
all_but_last (part ∷ p ∷ parts) = part ∷ all_but_last (p ∷ parts)

abbrev pub storage_directory_mode : ℕ
storage_directory_mode = 488

module _ {S : Type 0} (os : Os S) where
  -- The loop that looks for a symbolic link on the way down.
  unfoldable pub reject_links : FilePath → List Text → Io S (Unit {0})
  reject_links current [] = return tt
  reject_links current (part ∷ parts) = do
    let next = current ++ part ∷ []
    link ← ask (os.is_symlink next)
    raise_when link
        (ApplicationError.storage_error "Symbolic links are not allowed in this storage path.")
    reject_links next parts

  unfoldable pub safe_resolve : FilePath → Text → Bool → Bool → Io S FilePath
  safe_resolve root relative_path require_exists reject_symlinks = do
    resolved_root ← call (os.resolve_strict root) (storage_error "The storage root is unavailable.")
    relative ← lift (reject_unsafe_relative_path relative_path)
    if reject_symlinks then reject_links resolved_root relative.parts else return tt
    let unresolved_candidate = resolved_root ++ relative.parts
    resolved_candidate ←
        call
          (if require_exists
            then os.resolve_strict unresolved_candidate
            else os.resolve unresolved_candidate)
          (storage_error "The storage path is unavailable.")
    raise_when
        (list_beq resolved_candidate resolved_root
          || not (is_prefix resolved_root resolved_candidate))
        (ApplicationError.storage_error "The storage path escapes its configured root.")
    return resolved_candidate

  -- The body of the loop of `ensure_private_parent`, for one component.
  unfoldable pub ensure_component : FilePath → Text → Io S FilePath
  ensure_component root current_relative = do
    current ← safe_resolve root current_relative false true
    here ← ask (os.exists current)
    link ← if here then ask (os.is_symlink current) else return false
    raise_when link
        (ApplicationError.storage_error "A storage directory cannot be a symbolic link.")
    perform (os.mkdir storage_directory_mode current)
        (storage_error "A storage directory could not be created securely.")
    perform (os.chmod storage_directory_mode current)
        (storage_error "A storage directory could not be created securely.")
    directory ← ask (os.is_dir current)
    bad ← if directory then ask (os.is_symlink current) else return true
    raise_when bad
        (ApplicationError.storage_error "A storage path component is not a safe directory.")
    return current

  -- The loop, with the components above as `above` and the last directory as `current`.
  unfoldable pub ensure_components : FilePath → List Text → List Text → FilePath → Io S FilePath
  ensure_components root above [] current = return current
  ensure_components root above (part ∷ parts) current = do
    next ← ensure_component root (join (above ++ part ∷ []))
    ensure_components root (above ++ part ∷ []) parts next

  -- `ensure_private_parent`; its calls of `root.resolve` let an `OSError` through.
  unfoldable pub ensure_private_parent : FilePath → Text → Io S FilePath
  ensure_private_parent root relative_path = do
    relative ← lift (reject_unsafe_relative_path relative_path)
    current ← call (os.resolve_strict root) Raised.os_error
    ensure_components root [] (all_but_last relative.parts) current
