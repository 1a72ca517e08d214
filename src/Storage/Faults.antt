-- ===== src/Storage/Faults.antt =====
-- storage/move.py raises storage errors, and lets an `OSError` of two calls of `resolve` through.
use software_hub.Prelude.{
  Bool, true, false, Option, none, some, List, [], ◌∷◌, ◌++◌, Text, String, if◌then◌else◌, list_beq,
  nat_eq, contains, any, ◌||◌,
}
use software_hub.Errors.{ApplicationError, ok, err}
use software_hub.Io.{
  Raised, Outcome, returned, raised, Io, continue, or_else_raise, lift, raise_when, call, ask,
}
use software_hub.Storage.{StoragePaths, FilePath, Os}
use software_hub.Storage.Texts.{PosixPath, posix_path, split, is_bad}
use software_hub.Storage.Paths.{
  storage_error, perform, safe_resolve, reject_links, ensure_component, ensure_components,
  ensure_private_parent, reject_unsafe_relative_path,
}
use software_hub.Storage.Lifecycle.{
  StorageArea, StoredFile, inspect_candidate, inspect_area, inspect_stored_files, only_match,
  locate_stored_file,
}
use software_hub.Storage.Move.{harden_file_permissions, prepare_move, atomic_move}

pub data IsFault : Raised → Type 0 where
  os_fault : IsFault Raised.os_error
  storage_fault : (m : String) → IsFault (storage_error m)

-- A method that raises nothing but faults.
pub data RaisesFaults {S A : Type 0} : Outcome A × S → Type 0 where
  fine : (a : A) (s : S) → RaisesFaults (returned a, s)
  faulty : (e : Raised) (s : S) → IsFault e → RaisesFaults (raised e, s)

module _ {S A : Type 0} where
  faults-continue :
      {B : Type 0} (r : Outcome A × S) (next : A → Io S B)
      → RaisesFaults r
      → ((a : A) (s : S) → RaisesFaults (next a s))
      → RaisesFaults (continue r next)
  faults-continue _ next (fine a s) k = k a s
  faults-continue _ next (faulty e s f) k = faulty e s f

  faults-or_else_raise :
      (r : Option A × S) (e : Raised) → IsFault e → RaisesFaults (or_else_raise r e)
  faults-or_else_raise (some a, s) e f = fine a s
  faults-or_else_raise (none, s) e f = faulty e s f

  faults-call :
      (op : S → Option A × S) (e : Raised) (s : S) → IsFault e → RaisesFaults (call op e s)
  unfolding call
  faults-call op e s f = faults-or_else_raise (op s) e f

  faults-ask : (op : S → A × S) (s : S) → RaisesFaults (ask op s)
  unfolding ask
  faults-ask op s = fine _ _

  faults-if :
      (b : Bool) (m n : Io S A) (s : S)
      → RaisesFaults (m s)
      → RaisesFaults (n s)
      → RaisesFaults ((if b then m else n) s)
  faults-if true m n s h k = h
  faults-if false m n s h k = k

module _ {S : Type 0} where
  faults-perform :
      (op : S → Bool × S) (e : Raised) (s : S) → IsFault e → RaisesFaults (perform op e s)
  unfolding perform
  faults-perform op e s f = faults-call _ e s f

  faults-raise_when :
      (b : Bool) (m : String) (s : S)
      → RaisesFaults (raise_when b (ApplicationError.storage_error m) s)
  unfolding raise_when
  faults-raise_when true m s = faulty _ s (storage_fault m)
  faults-raise_when false m s = fine tt s

  faults_lift :
      {A : Type 0} (a b c : Bool) (m : String) (p : A) (s : S)
      → RaisesFaults (
          lift
            (if a
              then err (ApplicationError.storage_error m)
              else if b
              then err (ApplicationError.storage_error m)
              else if c
              then err (ApplicationError.storage_error m)
              else ok p)
            s)
  unfolding lift
  faults_lift true b c m p s = faulty _ s (storage_fault m)
  faults_lift false true c m p s = faulty _ s (storage_fault m)
  faults_lift false false true m p s = faulty _ s (storage_fault m)
  faults_lift false false false m p s = fine p s

  faults_reject : (raw : Text) (s : S) → RaisesFaults (lift (reject_unsafe_relative_path raw) s)
  unfolding reject_unsafe_relative_path
  faults_reject raw s =
      faults_lift (list_beq raw [] || contains raw 0 || contains raw b'\\') (any is_bad (split raw))
        ((posix_path raw).absolute || any is_bad (posix_path raw).parts)
        "The storage path is invalid." (posix_path raw) s

  faults_links :
      (os : Os S) (current : FilePath) (parts : List Text) (s : S)
      → RaisesFaults (reject_links os current parts s)
  unfolding reject_links
  faults_links os current [] s = fine tt s
  faults_links os current (part ∷ parts) s = search (
    faults-continue,
    faults-raise_when,
    faults-ask,
    λ (t : S). faults_links os (current ++ part ∷ []) parts t,
  )

  faults_resolve :
      (os : Os S) (root : FilePath) (raw : Text) (strict no_links : Bool) (s : S)
      → RaisesFaults (safe_resolve os root raw strict no_links s)
  unfolding safe_resolve
  faults_resolve os root raw strict no_links s =
      search
        (
          fine, faults-continue, faults-raise_when, faults-call, faults-if, faults_reject,
          faults_links, storage_fault,
        )
        depth 16 fits 3000

  faults_component :
      (os : Os S) (root : FilePath) (raw : Text) (s : S)
      → RaisesFaults (ensure_component os root raw s)
  unfolding ensure_component
  faults_component os root raw s =
      search
        (
          fine, faults-continue, faults-raise_when, faults-ask, faults-perform, faults-if,
          faults_resolve, storage_fault,
        )
        depth 20 fits 3000

  faults_components :
      (os : Os S) (root : FilePath) (above parts : List Text) (current : FilePath) (s : S)
      → RaisesFaults (ensure_components os root above parts current s)
  unfolding ensure_components
  faults_components os root above [] current s = fine current s
  faults_components os root above (part ∷ parts) current s = search (
    faults-continue,
    faults_component,
    λ (next : FilePath) (t : S). faults_components os root (above ++ part ∷ []) parts next t,
  )

  faults_parent :
      (os : Os S) (root : FilePath) (raw : Text) (s : S)
      → RaisesFaults (ensure_private_parent os root raw s)
  unfolding ensure_private_parent
  faults_parent os root raw s =
      search (faults-continue, faults-call, faults_reject, faults_components, os_fault) depth 9

  faults_harden : (os : Os S) (p : FilePath) (s : S) → RaisesFaults (harden_file_permissions os p s)
  unfolding harden_file_permissions
  faults_harden os p s =
      search (faults-continue, faults-call, faults-perform, faults-raise_when, storage_fault) depth
        9

  pub atomic_move-RaisesFaults :
      (os : Os S) (source_root : FilePath) (source : Text) (destination_root : FilePath)
      (destination : Text) (s : S)
      → RaisesFaults (atomic_move os source_root source destination_root destination s)
  unfolding atomic_move prepare_move
  atomic_move-RaisesFaults os source_root source destination_root destination s =
      search
        (
          fine, faults-continue, faults-raise_when, faults-ask, faults-call, faults-perform,
          faults-if, faults_resolve, faults_parent, faults_harden, storage_fault,
        )
        depth 30 fits 5000

  faults_candidate :
      (os : Os S) (paths : StoragePaths) (area : StorageArea) (relative : PosixPath)
      (candidate : FilePath) (s : S)
      → RaisesFaults (inspect_candidate os paths area relative candidate s)
  unfolding inspect_candidate
  faults_candidate os paths area relative candidate s =
      search (fine, faults-continue, faults-raise_when, faults-call, storage_fault) depth 12

  faults_area :
      (os : Os S) (paths : StoragePaths) (area : StorageArea) (relative : PosixPath) (s : S)
      → RaisesFaults (inspect_area os paths area relative s)
  unfolding inspect_area
  faults_area os paths area relative s =
      search (fine, faults-continue, faults-ask, faults-if, faults_resolve, faults_candidate) depth
        12

  faults_match :
      (os : Os S) (matches : List StoredFile) (s : S) → RaisesFaults (only_match os matches s)
  faults_match os [] s = faulty _ s (storage_fault _)
  faults_match os (f ∷ []) s = fine f s
  faults_match os (f ∷ g ∷ rest) s = faulty _ s (storage_fault _)

  pub locate_stored_file-RaisesFaults :
      (os : Os S) (paths : StoragePaths) (raw : Text) (s : S)
      → RaisesFaults (locate_stored_file os paths raw s)
  unfolding locate_stored_file inspect_stored_files
  locate_stored_file-RaisesFaults os paths raw s =
      search (fine, faults-continue, faults_area, faults_match) depth 12
