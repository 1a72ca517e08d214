-- ===== src/Storage/Tests.antt =====
-- Moves and digests on a disk in memory.
use software_hub.Prelude.{
  none, some, [], ◌∷◌, ◌++◌, Text, codes, ◌≡◌, ◌⊎◌, refl, list_beq, list_eq, nat_eq, if◌then◌else◌,
  arith,
}
use software_hub.Io.{returned, raised, lift, raise_when, call, ask}
use software_hub.Io.Rules.{Ends}
use software_hub.Storage.{FilePath}
use software_hub.Storage.Texts.{posix_path, split, split_from, join}
use software_hub.Storage.Paths.{
  storage_error, perform, reject_unsafe_relative_path, reject_links, safe_resolve, ensure_component,
  ensure_components, ensure_private_parent, all_but_last,
}
use software_hub.Storage.Move.{
  MoveResult, unsynchronized, harden_file_permissions, prepare_move, atomic_move,
}
use software_hub.Storage.Hashing.{sha256_stream, consume, update_streaming, sha256_stream_lem}
use software_hub.Storage.Lawful.{moved}
use software_hub.Storage.Memory.{
  Disk, memory, memory-IsLawful, memory-IsPlain, recorder, recorder-IsIncremental,
}
use software_hub.Storage.Moves.{below, atomic_move-Ends}

abbrev quarantine : FilePath
quarantine = codes "srv" ∷ codes "quarantine" ∷ []

abbrev software : FilePath
software = codes "srv" ∷ codes "software" ∷ []

abbrev name : Text
name = codes "ab/f.zip"

abbrev disk : Disk
disk p =
    if list_beq p (quarantine ++ codes "ab" ∷ codes "f.zip" ∷ []) then some (80 ∷ 75 ∷ []) else none

moves :
    (atomic_move memory quarantine name software name disk).0
    ≡ returned
        (record { destination = software ++ codes "ab" ∷ codes "f.zip" ∷ []; size_bytes = 2 })
unfolding atomic_move prepare_move safe_resolve reject_links ensure_private_parent ensure_components
    ensure_component all_but_last harden_file_permissions reject_unsafe_relative_path posix_path
    split split_from join perform lift raise_when call ask
moves = refl

escape_refused :
    (atomic_move memory quarantine (codes "../f.zip") software name disk).0
    ≡ raised (storage_error "The storage path is invalid.")
unfolding atomic_move prepare_move safe_resolve reject_unsafe_relative_path posix_path split
    split_from lift raise_when call ask
escape_refused = refl

atomic_move-Ends_example :
    Ends
      (λ (m : MoveResult) (t : Disk).
        (t ≡ moved (below quarantine name) (below software name) disk)
        × (disk (below software name) ≡ none))
      (λ e (t : Disk).
        (t ≡ disk)
        ⊎ ((e ≡ unsynchronized)
            × (t ≡ moved (below quarantine name) (below software name) disk)
            × (disk (below software name) ≡ none)))
      (atomic_move memory quarantine name software name disk)
atomic_move-Ends_example =
    atomic_move-Ends memory memory-IsLawful memory-IsPlain quarantine name software name disk

digested : sha256_stream recorder 2 (1 ∷ 2 ∷ 3 ∷ 4 ∷ 5 ∷ []) ≡ (1 ∷ 2 ∷ 3 ∷ 4 ∷ 5 ∷ [], 5)
unfolding sha256_stream consume update_streaming
digested = refl

sha256_stream_lem_example :
    sha256_stream recorder 2 (1 ∷ 2 ∷ 3 ∷ 4 ∷ 5 ∷ []) ≡ (1 ∷ 2 ∷ 3 ∷ 4 ∷ 5 ∷ [], 5)
sha256_stream_lem_example =
    sha256_stream_lem recorder recorder-IsIncremental 2 (1 ∷ 2 ∷ 3 ∷ 4 ∷ 5 ∷ []) (omega arith)
