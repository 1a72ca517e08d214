-- ===== src/Files/Tests.antt =====
-- Publication of the sample file on a disk in memory.
use software_hub.Prelude.{
  ℕ, true, false, Option, none, some, List, [], ◌∷◌, ◌++◌, Text, codes, ◌≡◌, refl, list_beq,
  list_eq, nat_eq, if◌then◌else◌,
}
use software_hub.Unicode.{ascii, strip, strip_by, drop_while, drop_while_end}
use software_hub.Models.{ReleaseFile, FileGraph, FileStatus}
use software_hub.Samples.{database, release_file}
use software_hub.Policies.{apply_file_transition, move_file, file_transitions, ensure_transition}
use software_hub.Signatures.{assess_stored_signature, expected_mime}
use software_hub.Io.{Outcome, returned, raised, lift, raise_when, call, ask}
use software_hub.Io.Rules.{Ends}
use software_hub.Storage.{Os, FilePath, StoragePaths}
use software_hub.Storage.Texts.{posix_path, split, split_from, join, as_posix}
use software_hub.Storage.Paths.{
  storage_error, perform, reject_unsafe_relative_path, reject_links, safe_resolve, ensure_component,
  ensure_components, ensure_private_parent, all_but_last,
}
use software_hub.Storage.Move.{unsynchronized, harden_file_permissions, prepare_move, atomic_move}
use software_hub.Storage.Hashing.{sha256_stream, consume, update_streaming, sha256_file}
use software_hub.Storage.Lifecycle.{
  StorageArea, inspect_candidate, inspect_area, inspect_stored_files, locate_stored_file,
}
use software_hub.Storage.Memory.{
  Disk, memory, memory-IsLawful, memory-IsPlain, memory-IsTruthful, recorder,
}
use software_hub.Files.{get_file_graph, ensure_publish_ready, publish_row}
use software_hub.Files.Service.{
  World, Meanwhile, on_disk, transaction, get_file, publish, restore_ready, verified_physical_file,
  check_hash, undo_move, restore_move_after_failure,
}
use software_hub.Files.Compensation.{IsUnharmed}
use software_hub.Files.Restore.{IsRestored, restore_ready-Ends}
use software_hub.Files.Publish.{IsPublished, publish-Ends}

abbrev root : Text → FilePath
root area = codes "srv" ∷ area ∷ []

abbrev paths : StoragePaths
paths = record {
  root = codes "srv" ∷ [];
  software = root (codes "software");
  icons = root (codes "icons");
  imports = root (codes "import");
  temporary = root (codes "tmp");
  quarantine = root (codes "quarantine");
  backups = root (codes "backups");
}

abbrev bytes : List ℕ
bytes = 80 ∷ 75 ∷ 3 ∷ 4 ∷ []

abbrev ready_file : ReleaseFile
ready_file = record release_file { sha256 = bytes; file_size_bytes = 4 }

abbrev disk : Disk
disk p =
    if list_beq p (root (codes "quarantine") ++ (posix_path ready_file.relative_storage_path).parts)
    then some bytes
    else none

abbrev world : World Disk
world = record { database = record database { files = ready_file ∷ [] }; disk = disk }

abbrev alone : Meanwhile
alone = record { others = λ db. db; commits = true }

abbrev failing : Meanwhile
failing = record { others = λ db. db; commits = false }

abbrev status_of : Outcome FileGraph → Option FileStatus
status_of (returned g) = some g.file.status
status_of (raised e) = none

publishes :
    status_of (publish ascii memory recorder paths 4 alone 90 none world).0
    ≡ some FileStatus.published
unfolding publish get_file get_file_graph ensure_publish_ready assess_stored_signature expected_mime
    verified_physical_file check_hash sha256_file sha256_stream consume update_streaming
    locate_stored_file inspect_stored_files inspect_area inspect_candidate on_disk transaction
    publish_row apply_file_transition move_file file_transitions ensure_transition atomic_move
    prepare_move safe_resolve reject_links ensure_private_parent ensure_components ensure_component
    all_but_last harden_file_permissions reject_unsafe_relative_path posix_path split split_from
    join as_posix perform lift raise_when call ask strip strip_by drop_while drop_while_end
publishes = refl

-- A disk whose directories cannot be synchronized.
abbrev unsynchronizable : Os Disk
unsynchronizable = record memory { fsync_directory = λ p d. (false, d) }

-- There a publication raises after its move, and the file of a ready row stands in the permanent
-- area.
strands :
    ((publish ascii unsynchronizable recorder paths 4 alone 90 none world).0
      ≡ raised unsynchronized)
    × ((publish ascii unsynchronizable recorder paths 4 alone 90 none world).1.disk
          (root (codes "software") ++ (posix_path ready_file.relative_storage_path).parts)
        ≡ some bytes)
unfolding publish get_file get_file_graph ensure_publish_ready assess_stored_signature expected_mime
    verified_physical_file check_hash sha256_file sha256_stream consume update_streaming
    locate_stored_file inspect_stored_files inspect_area inspect_candidate on_disk transaction
    publish_row apply_file_transition move_file file_transitions ensure_transition atomic_move
    prepare_move safe_resolve reject_links ensure_private_parent ensure_components ensure_component
    all_but_last harden_file_permissions reject_unsafe_relative_path posix_path split split_from
    join as_posix perform lift raise_when call ask strip strip_by drop_while drop_while_end
strands = (refl, refl)

rolls_back :
    ((publish ascii memory recorder paths 4 failing 90 none world).0
      ≡ raised (storage_error "File publication metadata could not be saved."))
    × ((publish ascii memory recorder paths 4 failing 90 none world).1.disk
          (root (codes "quarantine") ++ (posix_path ready_file.relative_storage_path).parts)
        ≡ some bytes)
unfolding publish get_file get_file_graph ensure_publish_ready assess_stored_signature expected_mime
    verified_physical_file check_hash sha256_file sha256_stream consume update_streaming
    locate_stored_file inspect_stored_files inspect_area inspect_candidate on_disk transaction
    publish_row apply_file_transition move_file file_transitions ensure_transition atomic_move
    prepare_move safe_resolve reject_links ensure_private_parent ensure_components ensure_component
    all_but_last harden_file_permissions reject_unsafe_relative_path posix_path split split_from
    join as_posix perform lift raise_when call ask strip strip_by drop_while drop_while_end
    undo_move restore_move_after_failure
rolls_back = (refl, refl)

publish-Ends_example :
    Ends
      (IsPublished ascii memory recorder paths 4 world)
      (IsUnharmed ascii memory recorder paths StorageArea.quarantine StorageArea.software failing
        world)
      (publish ascii memory recorder paths 4 failing 90 none world)
publish-Ends_example =
    publish-Ends ascii memory recorder paths memory-IsLawful memory-IsPlain 4 failing 90 none world

restore_ready-Ends_example :
    Ends
      (IsRestored ascii memory recorder paths 4 world)
      (IsUnharmed ascii memory recorder paths StorageArea.software StorageArea.quarantine failing
        world)
      (restore_ready ascii memory recorder paths 4 failing 90 none world)
restore_ready-Ends_example =
    restore_ready-Ends ascii memory recorder paths memory-IsLawful memory-IsPlain memory-IsTruthful
      4 failing 90 none world
