-- ===== src/Policies/Access.antt =====
-- Who may see software and download a file, and that withdrawing any link of the chain stops
-- downloads at once.
use software_hub.Prelude.{ℕ, ◌≡◌, ◌≢◌, ◌↔◌, ◌⊎◌, Bool, true, false, arith}
use software_hub.Errors.{ok}
use software_hub.Models.{
  FileStatus, ReleaseStatus, SoftwareStatus, Visibility, Software, Release, ReleaseFile, FileGraph,
}
use software_hub.Policies.{
  can_download_file, can_view_software, is_software_publicly_listed, apply_software_transition,
  apply_release_transition, apply_file_transition,
}

-- The chain that a download needs: each link is live, and for a visitor nothing is private.
abbrev pub ChainIsLive : FileGraph → Type 0
ChainIsLive g =
    (g.file.status ≡ FileStatus.published)
    × ((g.release.status ≡ ReleaseStatus.published) ⊎ (g.release.status ≡ ReleaseStatus.archived))
    × ((g.software.status ≡ SoftwareStatus.published)
        ⊎ (g.software.status ≡ SoftwareStatus.archived))

-- An administrator may download exactly what has a live chain, a visitor only what moreover is
-- private neither as software nor as a file.
pub can_download_file_iff :
    (g : FileGraph)
    → ((can_download_file g true ≡ true) ↔ ChainIsLive g)
      × ((can_download_file g false ≡ true) ↔ (
          ChainIsLive g
          × (g.software.visibility ≢ Visibility.private)
          × (g.file.visibility ≢ Visibility.private)))
unfolding can_download_file
can_download_file_iff g =
    ((λ h. ground arith, λ h. ground arith), (λ h. ground arith, λ h. ground arith))

-- What a visitor may download an administrator may too, and the visitor may see its page.
pub visitor_download-allows :
    (g : FileGraph)
    → can_download_file g false ≡ true
    → (can_download_file g true ≡ true)
      × (can_view_software g.software false ≡ true)
      × (can_view_software g.software true ≡ true)
unfolding can_download_file can_view_software
visitor_download-allows g h = ground arith

-- What is listed publicly may be seen by a visitor.
pub listed_can_be_viewed :
    (s : Software) → is_software_publicly_listed s ≡ true → can_view_software s false ≡ true
unfolding can_view_software is_software_publicly_listed
listed_can_be_viewed s h = ground arith

-- Software that goes to draft, hidden or disabled stops every download of its files, also an
-- administrator's.
pub software_withdrawal_stops_download :
    (g : FileGraph) (target : SoftwareStatus) (now : ℕ) (s : Software) (is_admin : Bool)
    → target ≢ SoftwareStatus.published
    → target ≢ SoftwareStatus.archived
    → apply_software_transition g.software target now ≡ ok s
    → can_download_file (record g { software = s }) is_admin ≡ false
unfolding can_download_file apply_software_transition
software_withdrawal_stops_download g target now s is_admin p a h = ground arith

-- A file that any transition takes to another status than published can be downloaded by no one.
pub file_withdrawal_stops_download :
    (g : FileGraph) (target : FileStatus) (now : ℕ) (f : ReleaseFile) (is_admin : Bool)
    → target ≢ FileStatus.published
    → apply_file_transition g target now ≡ ok f
    → can_download_file (record g { file = f }) is_admin ≡ false
unfolding can_download_file apply_file_transition
file_withdrawal_stops_download g target now f is_admin p h = ground arith

-- A release that goes to draft or disabled stops every download of its files.
pub release_withdrawal_stops_download :
    (g : FileGraph) (target : ReleaseStatus) (now : ℕ) (r : Release) (is_admin : Bool)
    → target ≢ ReleaseStatus.published
    → target ≢ ReleaseStatus.archived
    → apply_release_transition g.software g.release target now ≡ ok r
    → can_download_file (record g { release = r }) is_admin ≡ false
unfolding can_download_file apply_release_transition
release_withdrawal_stops_download g target now r is_admin p a h = ground arith
