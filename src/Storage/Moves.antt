-- ===== src/Storage/Moves.antt =====
-- storage/move.py: what an atomic move does to the files, however it ends.
use software_hub.Prelude.{
  Bool, true, false, none, ◌++◌, Text, ◌≡◌, ◌⊎◌, inl, inr, refl, sym, ap, ◌∙◌, list_eq, nat_eq,
  if◌then◌else◌, Bool-cases, arith,
}
use software_hub.Errors.{ok}
use software_hub.Io.{Raised, Outcome, returned, raised, call, ask, return, raise_when}
use software_hub.Io.Rules.{
  Ends, Ends-continue, Ends-call, Ends-ask, Ends-lift, Ends-raise_when, Ends-Keeps, Anything,
  Ends-Anything, Ends-weaken, returns, raises, Keeps-call,
}
use software_hub.Storage.{FilePath, Os}
use software_hub.Storage.Texts.{PosixPath, posix_path}
use software_hub.Storage.Paths.{
  perform, safe_resolve, reject_unsafe_relative_path, ensure_private_parent, reject_links,
}
use software_hub.Storage.Move.{
  MovePlan, MoveResult, is_irregular, unsynchronized, prepare_move, atomic_move,
}
use software_hub.Storage.Lawful.{
  IsLawful, IsPlain, KeepsFiles, moved, harden_file_permissions-KeepsFiles, prepare_move-KeepsFiles,
  keeps_perform,
}

reject-posix_path :
    (raw : Text) (p : PosixPath) → reject_unsafe_relative_path raw ≡ ok p → p ≡ posix_path raw
unfolding reject_unsafe_relative_path
reject-posix_path raw p h = ground arith

-- The path below a root that a raw relative path names.
abbrev pub below : FilePath → Text → FilePath
below root raw = root ++ (posix_path raw).parts

pub Ends-perform {κ} :
    {S : Type 0} {P : Unit {0} → S → Type κ} {Q : Raised → S → Type κ} (op : S → Bool × S)
    (e : Raised) (s : S)
    → ((op s).0 ≡ true → P tt (op s).1)
    → ((op s).0 ≡ false → Q e (op s).1)
    → Ends P Q (perform op e s)
unfolding perform
Ends-perform op e s h k = elim (Bool-cases (op s).0) [
  | inl t ↦ Ends-call _ e s (λ a same. h t) (λ gone. absurd (ground arith))
  | inr f ↦ Ends-call _ e s (λ a same. absurd (ground arith)) (λ gone. k f)
]

module _ {S : Type 0} (os : Os S) (lawful : IsLawful os) (plain : IsPlain os) where
  resolve-below :
      (strict : Bool) (q : FilePath) (e : Raised) (s : S)
      → Ends
          (λ p t. p ≡ q)
          Anything
          (call (if strict then os.resolve_strict q else os.resolve q) e s)
  resolve-below true q e s =
      Ends-call _ _ s (λ p found. plain.resolve_strict_plain q s p found) (λ _. tt)
  resolve-below false q e s = Ends-call _ _ s (λ p found. plain.resolve_plain q s p found) (λ _. tt)

  pub safe_resolve-below :
      (root : FilePath) (raw : Text) (strict no_links : Bool) (s : S)
      → Ends (λ p t. p ≡ below root raw) Anything (safe_resolve os root raw strict no_links s)
  unfolding safe_resolve
  safe_resolve-below root raw strict no_links s =
      Ends-continue (resolve-below true root _ s) (λ resolved t at_root.
        Ends-continue {P' = λ p t. p ≡ posix_path raw}
          (Ends-lift _ t (λ p e. reject-posix_path raw p e) (λ e _. tt))
          (λ relative t1 is_path.
            Ends-continue
              (Ends-Anything
                ((if no_links then reject_links os resolved relative.parts else return tt) t1))
              (λ _ t2 _.
                Ends-continue (resolve-below strict (resolved ++ relative.parts) _ t2)
                  (λ p t3 found.
                    Ends-continue {P' = λ _ t. Unit} (Ends-raise_when _ _ t3 (λ _. tt) (λ _. tt))
                      (λ _ t4 _. returns p t4 (rw (found, at_root, is_path) refl))))))

  still_free :
      {A : Type 0} (p : FilePath) (s : S) (r : Outcome A × S)
      → os.contents s p ≡ none
      → KeepsFiles os lawful s r
      → Ends (λ a t. os.contents t p ≡ none) Anything r
  still_free p s (returned a, t) free keep = returns a t (ap (λ files. files p) keep.same ∙ free)
  still_free p s (raised e, t) free keep = raises e t tt

  -- The two questions that find the destination free.
  free_lem :
      (to : FilePath) (s : S)
      → Ends (λ here t. here ≡ false → os.contents t to ≡ none) Anything (ask (os.exists to) s)
  free_lem to s =
      Ends-ask _ s
        (λ gone. ap (λ files. files to) (lawful.exists_quiet to s) ∙ lawful.exists_lem to s gone)

  taken_lem :
      (here : Bool) (to : FilePath) (s : S)
      → (here ≡ false → os.contents s to ≡ none)
      → Ends
          (λ taken t. taken ≡ false → os.contents t to ≡ none)
          Anything
          ((if here then return true else ask (os.is_symlink to)) s)
  taken_lem true to s h = returns true s (λ e. cc)
  taken_lem false to s h =
      Ends-ask _ s (λ e. ap (λ files. files to) (lawful.is_symlink_quiet to s) ∙ h refl)

  private_steps :
      (source_root : FilePath) (source : Text) (destination_root : FilePath) (destination : Text)
      (s : S)
      → Ends
          (λ (plan : MovePlan) t.
            (plan.source ≡ below source_root source)
            × (plan.destination ≡ below destination_root destination)
            × (os.contents t (below destination_root destination) ≡ none))
          Anything
          (prepare_move os source_root source destination_root destination s)
  unfolding prepare_move
  private_steps source_root source destination_root destination s =
      Ends-continue (safe_resolve-below source_root source true true s) (λ from t at_source.
        Ends-continue (safe_resolve-below destination_root destination false false t)
          (λ to t1 at_destination.
            Ends-continue (Ends-Anything (ensure_private_parent os destination_root destination t1))
              (λ parent t2 _.
                Ends-continue (Ends-Anything (call (os.lstat from) _ t2)) (λ metadata t3 _.
                  Ends-continue (Ends-Anything (raise_when (is_irregular metadata) _ t3)) (λ _ t4 _.
                    Ends-continue (free_lem to t4) (λ here t5 gone.
                      Ends-continue (taken_lem here to t5 gone) (λ taken t6 free.
                        Ends-continue {P' = λ _ t. os.contents t to ≡ none}
                          (Ends-raise_when taken _ t6 free (λ _. tt))
                          (λ _ t7 f7.
                            Ends-continue
                              (still_free to t7 _ f7 (
                                Keeps-call os.contents (os.device_of parent) _ t7
                                  (lawful.device_of_quiet parent t7)))
                              (λ device t8 f8.
                                Ends-continue {P' = λ _ t. os.contents t to ≡ none}
                                  (Ends-raise_when _ _ t8 (λ _. f8) (λ _. tt))
                                  (λ _ t9 f9.
                                    Ends-continue
                                      (still_free to t9 _ f9
                                        (harden_file_permissions-KeepsFiles os lawful from t9))
                                      (λ _ t10 f10.
                                        Ends-continue
                                          (still_free to t10 _ f10 (
                                            keeps_perform os lawful (os.fsync_file from) _ t10
                                              (lawful.fsync_file_quiet from t10)))
                                          (λ _ t11 f11. returns _ t11 (
                                            at_source,
                                            at_destination,
                                            rw (← at_destination) f11,
                                          )))))))))))))

  replace_done :
      (p q : FilePath) (s : S)
      → (os.replace p q s).0 ≡ true
      → os.contents (os.replace p q s).1 ≡ moved p q (os.contents s)
  replace_done p q s done =
      lawful.replace_lem p q s
      ∙ ap (λ (b : Bool). if b then moved p q (os.contents s) else os.contents s) done

  replace_not_done :
      (p q : FilePath) (s : S)
      → (os.replace p q s).0 ≡ false
      → os.contents (os.replace p q s).1 ≡ os.contents s
  replace_not_done p q s failed =
      lawful.replace_lem p q s
      ∙ ap (λ (b : Bool). if b then moved p q (os.contents s) else os.contents s) failed

  -- A move that returns has put the file in its new place, which was free, and nothing else; one
  -- that raises has left every file alone, or has moved the file and then failed to synchronize the
  -- directory.
  pub atomic_move-Ends :
      (source_root : FilePath) (source : Text) (destination_root : FilePath) (destination : Text)
      (s : S)
      → Ends
          (λ (m : MoveResult) t.
            (os.contents t
              ≡ moved
                  (below source_root source)
                  (below destination_root destination)
                  (os.contents s))
            × (os.contents s (below destination_root destination) ≡ none))
          (λ e t.
            (os.contents t ≡ os.contents s)
            ⊎ ((e ≡ unsynchronized)
                × (os.contents t
                    ≡ moved
                        (below source_root source)
                        (below destination_root destination)
                        (os.contents s))
                × (os.contents s (below destination_root destination) ≡ none)))
          (atomic_move os source_root source destination_root destination s)
  unfolding atomic_move
  atomic_move-Ends source_root source destination_root destination s =
      Ends-continue
        (Ends-weaken
          (Ends-Keeps os.contents s _
            (private_steps source_root source destination_root destination s)
            (prepare_move-KeepsFiles os lawful source_root source destination_root destination s))
          (λ plan t h. h) (λ e t h. inl h.1))
        (λ plan t h.
          let free : os.contents s (below destination_root destination) ≡ none =
            sym (ap (λ files. files (below destination_root destination)) h.1) ∙ h.0.2 in
          let target = λ (t' : S).
            os.contents t'
            ≡ moved (below source_root source) (below destination_root destination)
                (os.contents s) in
          Ends-continue {P' = λ _ t'. target t'}
            (Ends-perform _ _ t
              (λ done.
                replace_done plan.source plan.destination t done
                ∙ (λ i. moved (h.0.0 i) (h.0.1 i) (h.1 i)))
              (λ failed. inl (replace_not_done plan.source plan.destination t failed ∙ h.1)))
            (λ _ t1 at_target.
              Ends-continue {P' = λ _ t'. target t'}
                (Ends-perform _ _ t1 (λ _. lawful.fsync_directory_quiet plan.parent t1 ∙ at_target)
                  (λ _. inr (refl, lawful.fsync_directory_quiet plan.parent t1 ∙ at_target, free)))
                (λ _ t2 at_target'. returns _ t2 (at_target', free))))
