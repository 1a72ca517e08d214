-- ===== src/Releases/Tests.antt =====
-- Runs of the release service, and its theorems at a small table.
use software_hub.Prelude.{◌≡◌, refl, true, false, none, some, [], ◌∷◌, codes, arith}
use software_hub.Errors.{ok}
use software_hub.Unicode.{ascii}
use software_hub.Models.{Release}
use software_hub.Audit.{append_context_audit_event}
use software_hub.Policies.{ensure_current_stable_candidate}
use software_hub.Samples.{release, database}
use software_hub.Database.{Database}
use software_hub.Releases.{set_current_stable, get_release}
use software_hub.Releases.Consistent.{IsConsistent, NoOtherCurrent}
use software_hub.Releases.History.{
  here, next, marked, Reach-IsConsistent, set_current_stable-replaces,
}

abbrev old_release : Release
old_release = record release { id = 6; version = codes "0.9"; is_current = true }

abbrev marked_release : Release
marked_release = record release { is_current = true }

abbrev before : Database
before = record database { releases = old_release ∷ release ∷ [] }

abbrev after : Database
after = record database {
  releases = record old_release { is_current = false } ∷ marked_release ∷ [];
}

marks : set_current_stable ascii 7 none before ≡ ok (marked_release, after)
unfolding set_current_stable ensure_current_stable_candidate append_context_audit_event
marks = refl

before-IsConsistent : IsConsistent before.releases
before-IsConsistent = record {
  keys = (refl, (refl, tt));
  sound = λ i a h. ground arith;
  one_current = λ i j a b h k ca cb e. ground arith;
  unique = λ i j a b h k e. ground arith;
}

Reach-IsConsistent_example : IsConsistent after.releases
Reach-IsConsistent_example =
    Reach-IsConsistent ascii before after (next here (marked 7 none marked_release marks))
      before-IsConsistent

set_current_stable-replaces_example :
    (get_release 7 after ≡ some marked_release) × (true ≡ true) × NoOtherCurrent 1 7 after.releases
set_current_stable-replaces_example =
    set_current_stable-replaces ascii 7 none before marked_release after before-IsConsistent marks
