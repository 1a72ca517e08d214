-- ===== src/Policies/Tests.antt =====
-- Runs of the lifecycle and access rules, and the theorems at concrete rows.
use software_hub.Prelude.{◌≡◌, ◌≢◌, ◌↔◌, ◌⊎◌, refl, true, false, none, List, [], ◌∷◌, arith}
use software_hub.Errors.{ok, is_ok}
use software_hub.Models.{
  SoftwareStatus, ReleaseStatus, FileStatus, Visibility, ScannerStatus, Software, Release,
  ReleaseFile,
}
use software_hub.Samples.{software, release, release_file, graph, published_file, published_graph}
use software_hub.Policies.{
  apply_software_transition, apply_release_transition, apply_file_transition, can_download_file,
  can_view_software,
}
use software_hub.Policies.Files.{
  Attempt, attempts, approved, IsSound, Enters, apply_file_transition_iff,
  apply_file_transition-IsSound, publication_needs_approval, attempts-keeps,
}
use software_hub.Policies.Releases.{
  IsDated, IsMarkedSoundly, apply_software_transition-IsDated,
  apply_release_transition-IsMarkedSoundly,
}
use software_hub.Policies.Access.{
  ChainIsLive, can_download_file_iff, visitor_download-allows, software_withdrawal_stops_download,
}

file_published : apply_file_transition graph FileStatus.published 70 ≡ ok published_file
unfolding apply_file_transition
file_published = refl

abbrev uploaded : ReleaseFile
uploaded = record release_file { status = FileStatus.quarantine }

abbrev review : List Attempt
review =
    record { software = software; release = release; target = FileStatus.ready; now = 65 }
    ∷ record { software = software; release = release; target = FileStatus.published; now = 70 }
    ∷ []

review_publishes : attempts uploaded review ≡ ok published_file
unfolding attempts apply_file_transition
review_publishes = refl

release_file-IsSound : IsSound release_file
release_file-IsSound = ground arith

apply_file_transition_iff_example :
    (is_ok (apply_file_transition graph FileStatus.published 70) ≡ true)
    ↔ ((FileStatus.ready ≡ FileStatus.published) ⊎ Enters graph FileStatus.published)
apply_file_transition_iff_example = apply_file_transition_iff graph FileStatus.published 70

apply_file_transition-IsSound_example : IsSound published_file
apply_file_transition-IsSound_example =
    apply_file_transition-IsSound graph FileStatus.published 70 published_file release_file-IsSound
      file_published

publication_needs_approval_example :
    (approved review ≡ true) × (uploaded.scanner_status ≢ ScannerStatus.infected)
publication_needs_approval_example =
    publication_needs_approval uploaded review published_file (λ e. cc) (λ e. cc) review_publishes
      refl

attempts-keeps_example :
    (published_file.scanner_status ≡ uploaded.scanner_status)
    × (published_file.sha256 ≡ uploaded.sha256)
    × (published_file.relative_storage_path ≡ uploaded.relative_storage_path)
    × ((uploaded.published_at ≡ none) ⊎ (published_file.published_at ≡ uploaded.published_at))
attempts-keeps_example = attempts-keeps uploaded review published_file review_publishes

software-IsDated : IsDated software
software-IsDated = ground arith

abbrev hidden_software : Software
hidden_software = record software { status = SoftwareStatus.hidden }

software_hidden : apply_software_transition software SoftwareStatus.hidden 80 ≡ ok hidden_software
unfolding apply_software_transition
software_hidden = refl

apply_software_transition-IsDated_example :
    IsDated hidden_software
    × (hidden_software.status ≡ SoftwareStatus.hidden)
    × ((software.published_at ≡ none) ⊎ (hidden_software.published_at ≡ software.published_at))
    × (hidden_software.slug ≡ software.slug)
    × (hidden_software.visibility ≡ software.visibility)
apply_software_transition-IsDated_example =
    apply_software_transition-IsDated software SoftwareStatus.hidden 80 hidden_software
      software-IsDated software_hidden

abbrev archived_release : Release
archived_release = record release { status = ReleaseStatus.archived }

release_archived :
    apply_release_transition software release ReleaseStatus.archived 80 ≡ ok archived_release
unfolding apply_release_transition
release_archived = refl

release-IsMarkedSoundly : IsMarkedSoundly release
release-IsMarkedSoundly = ground arith

apply_release_transition-IsMarkedSoundly_example :
    IsMarkedSoundly archived_release
    × (archived_release.status ≡ ReleaseStatus.archived)
    × ((archived_release.is_current ≡ false) ⊎ (archived_release.is_current ≡ release.is_current))
    × ((archived_release.status ≢ ReleaseStatus.published)
        ⊎ (release.status ≡ ReleaseStatus.published)
        ⊎ (software.status ≡ SoftwareStatus.published)
        ⊎ (software.status ≡ SoftwareStatus.hidden))
apply_release_transition-IsMarkedSoundly_example =
    apply_release_transition-IsMarkedSoundly software release ReleaseStatus.archived 80
      archived_release release-IsMarkedSoundly release_archived

can_download_file_iff_example :
    ((can_download_file published_graph true ≡ true) ↔ ChainIsLive published_graph)
    × ((can_download_file published_graph false ≡ true) ↔ (
        ChainIsLive published_graph
        × (Visibility.public ≢ Visibility.private)
        × (Visibility.public ≢ Visibility.private)))
can_download_file_iff_example = can_download_file_iff published_graph

visitor_download-allows_example :
    (can_download_file published_graph true ≡ true)
    × (can_view_software software false ≡ true)
    × (can_view_software software true ≡ true)
unfolding can_download_file
visitor_download-allows_example = visitor_download-allows published_graph refl

software_withdrawal_stops_download_example :
    can_download_file (record published_graph { software = hidden_software }) true ≡ false
software_withdrawal_stops_download_example =
    software_withdrawal_stops_download published_graph SoftwareStatus.hidden 80 hidden_software true
      (λ e. cc) (λ e. cc) software_hidden
