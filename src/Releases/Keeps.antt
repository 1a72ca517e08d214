-- ===== src/Releases/Keeps.antt =====
-- Every operation of the release service keeps the invariant of the table, so any history does.
use software_hub.Prelude.{
  ℕ, ◌≡◌, sym, ap, subst, inl, inr, none, some, Option, Text, arith, get_row, nat_eq,
}
use software_hub.Errors.{ok, is_ok}
use software_hub.Unicode.{Unicode}
use software_hub.Audit.{AuditContext}
use software_hub.Models.{Release, ReleaseChannel, ReleaseStatus, release_channel_eq}
use software_hub.Policies.Releases.{
  apply_release_transition-IsMarkedSoundly, apply_release_transition-identity,
  ensure_current_stable_candidate_iff,
}
use software_hub.Database.{Database}
use software_hub.Releases.{
  create, update, transition_status, set_current_stable, clear_current, clear_current_stable,
  get_by_identity,
}
use software_hub.Releases.Consistent.{
  id_of, IsConsistent, NoOtherCurrent, set_row-IsConsistent, duplicate_search-NoOtherIdentity,
  clear_current_stable-kept, get_row-set_row-cases, NoOtherIdentity-kept, marker_kept,
  clear_current_stable-IsConsistent, append-IsConsistent,
}
use software_hub.Releases.Effects.{
  get_with_graph-release, transition_status-Wrote, clear_current-Wrote, update-Wrote,
  set_current_stable-effect, create-effect,
}

module _ (u : Unicode) (i : ℕ) (audit : Option AuditContext) (db : Database) (r' : Release)
    (db' : Database) (c : IsConsistent db.releases) where
  pub transition_status-IsConsistent :
      (target : ReleaseStatus) (now : ℕ)
      → transition_status u i target now audit db ≡ ok (r', db')
      → IsConsistent db'.releases
  transition_status-IsConsistent target now h =
      let (s, r, found, moved, written) =
        transition_status-Wrote u i audit db r' db' target now h in
      let (row, key) = get_with_graph-release i db s r found in
      let (id, software_id, version, channel) =
        apply_release_transition-identity s r target now r' moved in
      let facts =
        apply_release_transition-IsMarkedSoundly s r target now r' (c.sound i r row) moved in
      let row' : get_row id_of r'.id db.releases ≡ some r = ground arith in
      subst IsConsistent (sym written) (
        set_row-IsConsistent r' db.releases c facts.0
          (marker_kept r' db.releases r c row' software_id facts.2)
          (NoOtherIdentity-kept r' db.releases r c row' (software_id, version, channel)))

  pub clear_current-IsConsistent :
      clear_current u i audit db ≡ ok (r', db') → IsConsistent db'.releases
  clear_current-IsConsistent h =
      let (s, r, found, e, written) = clear_current-Wrote u i audit db r' db' h in
      let (row, key) = get_with_graph-release i db s r found in
      let row' : get_row id_of r'.id db.releases ≡ some r = ground arith in
      subst IsConsistent (sym written) (
        set_row-IsConsistent r' db.releases c (ground arith) (inl (ground arith))
          (NoOtherIdentity-kept r' db.releases r c row' (ground arith, ground arith, ground arith)))

  pub update-IsConsistent :
      (version : Text) (channel : ReleaseChannel) (date : Option ℕ) (changelog : Option Text)
      → update u i version channel date changelog audit db ≡ ok (r', db')
      → IsConsistent db'.releases
  update-IsConsistent version channel date changelog h =
      let (s, r, found, facts, written) =
        update-Wrote u i audit db r' db' version channel date changelog h in
      let (row, key) = get_with_graph-release i db s r found in
      let row' : get_row id_of r'.id db.releases ≡ some r = ground arith in
      subst IsConsistent (sym written) (
        set_row-IsConsistent r' db.releases c (ground (arith, c.sound i r row))
          (marker_kept r' db.releases r c row' (ground arith) (inr (ground arith)))
          (duplicate_search-NoOtherIdentity r' db c (ground arith)))

  pub set_current_stable-IsConsistent :
      set_current_stable u i audit db ≡ ok (r', db')
      → IsConsistent db'.releases × NoOtherCurrent r'.software_id r'.id db'.releases
  set_current_stable-IsConsistent h =
      let (s, r, found, candidate, e, written) = set_current_stable-effect u i audit db r' db' h in
      let (row, key) = get_with_graph-release i db s r found in
      let rows = clear_current_stable r.software_id r.id db.releases in
      let (c', others) = clear_current_stable-IsConsistent db.releases r.software_id r.id c in
      let row' : get_row id_of r.id rows ≡ some r =
        clear_current_stable-kept db.releases r.software_id r.id r (ground arith) in
      let others' : NoOtherCurrent r'.software_id r'.id rows =
        λ j b g on same. ground (arith, others j b g) in
      let live = (ensure_current_stable_candidate_iff s r).0 (ap is_ok candidate) in
      (
        subst IsConsistent (sym written) (
            set_row-IsConsistent r' rows c' (ground arith) (inr others') (
              NoOtherIdentity-kept r' rows r c' (ground arith)
                (ground arith, ground arith, ground arith))),
        λ j b g on same. ground (
          arith,
          get_row-set_row-cases r' rows j b (subst (λ l. get_row id_of j l ≡ some b) written g),
          others' j b,
        ),
      )

  pub create-IsConsistent :
      (software_id : ℕ) (version : Text) (channel : ReleaseChannel) (date : Option ℕ)
      (changelog : Option Text)
      → get_row id_of i db.releases ≡ none
      → create u i software_id version channel date changelog audit db ≡ ok (r', db')
      → IsConsistent db'.releases
  create-IsConsistent software_id version channel date changelog free h =
      let (id, parent, ch, off, draft, new, written) =
        create-effect u i audit db r' db' software_id version channel date changelog h in
      subst IsConsistent (sym written) (
        append-IsConsistent db.releases r' c (ground arith) off
          (unfold get_by_identity in ground arith))
