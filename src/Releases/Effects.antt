-- ===== src/Releases/Effects.antt =====
-- What each operation of the release service read and wrote when it succeeded.
use software_hub.Prelude.{
  ℕ, ◌≡◌, ◌⊎◌, inl, inr, true, false, Option, none, some, [], ◌∷◌, ◌++◌, Text, arith, get_row,
  set_row, get_row-id, Option-cases,
}
use software_hub.Errors.{ok, Result-cases}
use software_hub.Models.{Software, Release, ReleaseChannel, ReleaseStatus, release_channel_eq}
use software_hub.Policies.{apply_release_transition, ensure_current_stable_candidate}
use software_hub.Unicode.{Unicode}
use software_hub.Audit.{AuditContext}
use software_hub.Database.{Database}
use software_hub.Releases.{
  transition_status, clear_current, update, set_current_stable, create, is_other, normalize_fields,
  get_software, get_with_graph, clear_current_stable, get_by_identity,
}
use software_hub.Releases.Consistent.{id_of}

pub get_with_graph-release :
    (i : ℕ) (db : Database) (s : Software) (r : Release)
    → get_with_graph i db ≡ some (s, r)
    → (get_row id_of i db.releases ≡ some r) × (r.id ≡ i)
get_with_graph-release i db s r h =
    let e : get_row id_of i db.releases ≡ some r = ground arith in
    (e, get_row-id id_of i db.releases r e)

module _ (u : Unicode) (i : ℕ) (audit : Option AuditContext) (db : Database) (r' : Release)
    (db' : Database) where
  -- The graph that an operation read, and the row that it wrote.
  abbrev pub Wrote : (Software → Release → Type 0) → Type 0
  Wrote P =
      (s : Software) × (r : Release) × (get_with_graph i db ≡ some (s, r))
      × P s r
      × (db'.releases ≡ set_row id_of r'.id r' db.releases)

  pub transition_status-Wrote :
      (target : ReleaseStatus) (now : ℕ)
      → transition_status u i target now audit db ≡ ok (r', db')
      → Wrote (λ s r. apply_release_transition s r target now ≡ ok r')
  unfolding transition_status
  transition_status-Wrote target now h = elim (Option-cases (get_with_graph i db)) [
    | inl missing ↦ absurd (ground arith)
    | inr ((s, r), found) ↦ elim (Result-cases (apply_release_transition s r target now)) [
      | inr (e, refused) ↦ absurd (ground arith)
      | inl (moved, accepted) ↦ (s, r, found, ground arith, ground arith)
    ]
  ]

  pub clear_current-Wrote :
      clear_current u i audit db ≡ ok (r', db')
      → Wrote (λ s r. r' ≡ record r { is_current = false })
  unfolding clear_current
  clear_current-Wrote h = elim (Option-cases (get_with_graph i db)) [
    | inl missing ↦ absurd (ground arith)
    | inr ((s, r), found) ↦ (s, r, found, ground arith, ground arith)
  ]

  pub update-Wrote :
      (version : Text) (channel : ReleaseChannel) (date : Option ℕ) (changelog : Option Text)
      → update u i version channel date changelog audit db ≡ ok (r', db')
      → Wrote (λ s r.
        (r'.id ≡ r.id)
        × (r'.software_id ≡ r.software_id)
        × (r'.release_channel ≡ channel)
        × (r'.status ≡ r.status)
        × (r'.is_current ≡ r.is_current)
        × ((r.is_current ≡ false) ⊎ (channel ≡ ReleaseChannel.stable))
        × (is_other (get_by_identity r.software_id r'.version channel db) r.id ≡ false))
  unfolding update
  update-Wrote version channel date changelog h =
      elim (Result-cases (normalize_fields u version changelog)) [
        | inr (e, bad) ↦ absurd (ground arith)
        | inl ((v, log), good) ↦ elim (Option-cases (get_with_graph i db)) [
          | inl missing ↦ absurd (ground arith)
          | inr ((s, r), found) ↦ (
            s,
            r,
            found,
            (
              ground arith,
              ground arith,
              ground arith,
              ground arith,
              ground arith,
              ground arith,
              ground arith,
            ),
            ground arith,
          )
        ]
      ]

  pub set_current_stable-effect :
      set_current_stable u i audit db ≡ ok (r', db')
      → (s : Software) × (r : Release) × (get_with_graph i db ≡ some (s, r))
        × (ensure_current_stable_candidate s r ≡ ok tt)
        × (r' ≡ record r { is_current = true })
        × (db'.releases
            ≡ set_row id_of r'.id r' (clear_current_stable r.software_id r.id db.releases))
  unfolding set_current_stable
  set_current_stable-effect h = elim (Option-cases (get_with_graph i db)) [
    | inl missing ↦ absurd (ground arith)
    | inr ((s, r), found) ↦ elim (Result-cases (ensure_current_stable_candidate s r)) [
      | inr (e, refused) ↦ absurd (ground arith)
      | inl (done, accepted) ↦ (s, r, found, accepted, ground arith, ground arith)
    ]
  ]

  pub create-effect :
      (software_id : ℕ) (version : Text) (channel : ReleaseChannel) (date : Option ℕ)
      (changelog : Option Text)
      → create u i software_id version channel date changelog audit db ≡ ok (r', db')
      → (r'.id ≡ i)
        × (r'.software_id ≡ software_id)
        × (r'.release_channel ≡ channel)
        × (r'.is_current ≡ false)
        × (r'.status ≡ ReleaseStatus.draft)
        × (get_by_identity software_id r'.version channel db ≡ none)
        × (db'.releases ≡ db.releases ++ r' ∷ [])
  unfolding create
  create-effect software_id version channel date changelog h =
      elim (Result-cases (normalize_fields u version changelog)) [
        | inr (e, bad) ↦ absurd (ground arith)
        | inl ((v, log), good) ↦ elim (Option-cases (get_software software_id db)) [
          | inl missing ↦ absurd (ground arith)
          | inr (s, found) ↦ elim (Option-cases (get_by_identity software_id v channel db)) [
            | inr (other, taken) ↦ absurd (ground arith)
            | inl free ↦ (
              ground arith,
              ground arith,
              ground arith,
              ground arith,
              ground arith,
              ground arith,
              ground arith,
            )
          ]
        ]
      ]
