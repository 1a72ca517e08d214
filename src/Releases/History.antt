-- ===== src/Releases/History.antt =====
-- Histories of the release service: its successful calls in any order and number.
use software_hub.Prelude.{
  ℕ, ◌≡◌, refl, sym, subst, true, none, some, Option, Text, arith, get_row, get_row-set_row_self,
}
use software_hub.Errors.{ok}
use software_hub.Unicode.{Unicode}
use software_hub.Audit.{AuditContext}
use software_hub.Models.{Release, ReleaseChannel, ReleaseStatus}
use software_hub.Database.{Database}
use software_hub.Releases.{
  create, update, transition_status, set_current_stable, clear_current, get_release,
  clear_current_stable,
}
use software_hub.Releases.Consistent.{
  id_of, IsConsistent, NoOtherCurrent, clear_current_stable-kept,
}
use software_hub.Releases.Effects.{get_with_graph-release, set_current_stable-effect}
use software_hub.Releases.Keeps.{
  create-IsConsistent, update-IsConsistent, transition_status-IsConsistent,
  set_current_stable-IsConsistent, clear_current-IsConsistent,
}

-- One committed call. A call that raises leaves the rows alone and is no step.
pub data Step (u : Unicode) (db db' : Database) : Type 0 where
  created :
      (new_id software_id : ℕ) (version : Text) (channel : ReleaseChannel) (date : Option ℕ)
      (changelog : Option Text) (audit : Option AuditContext) (r : Release)
      → get_row id_of new_id db.releases ≡ none
      → create u new_id software_id version channel date changelog audit db ≡ ok (r, db')
      → Step u db db'
  updated :
      (i : ℕ) (version : Text) (channel : ReleaseChannel) (date : Option ℕ)
      (changelog : Option Text) (audit : Option AuditContext) (r : Release)
      → update u i version channel date changelog audit db ≡ ok (r, db')
      → Step u db db'
  moved :
      (i : ℕ) (target : ReleaseStatus) (now : ℕ) (audit : Option AuditContext) (r : Release)
      → transition_status u i target now audit db ≡ ok (r, db')
      → Step u db db'
  marked :
      (i : ℕ) (audit : Option AuditContext) (r : Release)
      → set_current_stable u i audit db ≡ ok (r, db')
      → Step u db db'
  unmarked :
      (i : ℕ) (audit : Option AuditContext) (r : Release)
      → clear_current u i audit db ≡ ok (r, db')
      → Step u db db'

pub data Reach (u : Unicode) (db : Database) : Database → Type 0 where
  here : Reach u db db
  next : {db1 db2 : Database} → Reach u db db1 → Step u db1 db2 → Reach u db db2

Step-IsConsistent :
    (u : Unicode) (db db' : Database)
    → Step u db db'
    → IsConsistent db.releases
    → IsConsistent db'.releases
Step-IsConsistent u db db' (created i sid version channel date log audit r free h) c =
    create-IsConsistent u i audit db r db' c sid version channel date log free h
Step-IsConsistent u db db' (updated i version channel date log audit r h) c =
    update-IsConsistent u i audit db r db' c version channel date log h
Step-IsConsistent u db db' (moved i target now audit r h) c =
    transition_status-IsConsistent u i audit db r db' c target now h
Step-IsConsistent u db db' (marked i audit r h) c =
    (set_current_stable-IsConsistent u i audit db r db' c h).0
Step-IsConsistent u db db' (unmarked i audit r h) c =
    clear_current-IsConsistent u i audit db r db' c h

-- After any history of the release service that began with a consistent table, current releases
-- are published stable ones, a software entry has one at most, and no two releases share software,
-- version and channel.
pub Reach-IsConsistent :
    (u : Unicode) (db db' : Database)
    → Reach u db db'
    → IsConsistent db.releases
    → IsConsistent db'.releases
Reach-IsConsistent u db db' here c = c
Reach-IsConsistent u db db' (next {db1 = db1} r s) c =
    Step-IsConsistent u db1 db' s (Reach-IsConsistent u db db1 r c)

-- Marking a release replaces the marker: in a consistent table the release that was asked for is
-- afterwards the current one, and no other release of its software is.
pub set_current_stable-replaces :
    (u : Unicode) (i : ℕ) (audit : Option AuditContext) (db : Database) (r' : Release)
    (db' : Database)
    → IsConsistent db.releases
    → set_current_stable u i audit db ≡ ok (r', db')
    → (get_release i db' ≡ some r')
      × (r'.is_current ≡ true)
      × NoOtherCurrent r'.software_id i db'.releases
set_current_stable-replaces u i audit db r' db' c h =
    let (s, r, found, candidate, e, written) = set_current_stable-effect u i audit db r' db' h in
    let (row, key) = get_with_graph-release i db s r found in
    let id : r'.id ≡ i = ground arith in
    let row' = clear_current_stable-kept db.releases r.software_id r.id r (ground arith) in
    (
      subst (λ k. get_row id_of k db'.releases ≡ some r') id
          (subst (λ l. get_row id_of r'.id l ≡ some r') (sym written)
            (get_row-set_row_self id_of r'.id r'
              (clear_current_stable r.software_id r.id db.releases) r refl (ground arith))),
      ground arith,
      subst (λ k. NoOtherCurrent r'.software_id k db'.releases) id
          (set_current_stable-IsConsistent u i audit db r' db' c h).1,
    )
