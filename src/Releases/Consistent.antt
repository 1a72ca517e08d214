-- ===== src/Releases/Consistent.antt =====
-- The invariant of the releases table, which every operation of the service keeps: markers are
-- sound, a software entry has one current release at most, and no two rows share their identity.
use software_hub.Prelude.{
  ℕ, ◌≡◌, ◌≢◌, refl, sym, ◌↔◌, ◌⊎◌, inl, inr, true, false, none, some, List, [], ◌∷◌, ◌++◌, subst,
  ◌∙◌, map, Text, arith, nat_beq_iff, nat_eq, list_beq_iff, get_row, set_row, get_row-id,
  get_row-set_row, get_row-map, get_row-append, find, DistinctKeys, set_row-DistinctKeys,
  map-DistinctKeys, append-DistinctKeys, find-eq-none, get_row-find, Bool-cases, Option-cases,
  if◌then◌else◌,
}
use software_hub.Models.{Release, ReleaseChannel, release_channel_eq}
use software_hub.Policies.Releases.{IsMarkedSoundly}
use software_hub.Database.{Database}
use software_hub.Releases.{
  is_other, clear_current_stable, is_other_current, get_by_identity, has_identity,
}

abbrev pub id_of : Release → ℕ
id_of r = r.id

abbrev pub SameIdentity : Release → Release → Type 0
SameIdentity a b =
    (a.software_id ≡ b.software_id)
    × (a.version ≡ b.version)
    × (a.release_channel ≡ b.release_channel)

-- Over all rows of the table, by their keys.
pub record IsConsistent (rows : List Release) : Type 0 where
  pub keys : DistinctKeys id_of rows
  pub sound : (i : ℕ) (a : Release) → get_row id_of i rows ≡ some a → IsMarkedSoundly a
  pub one_current :
      (i j : ℕ) (a b : Release)
      → get_row id_of i rows ≡ some a
      → get_row id_of j rows ≡ some b
      → a.is_current ≡ true
      → b.is_current ≡ true
      → a.software_id ≡ b.software_id
      → i ≡ j
  pub unique :
      (i j : ℕ) (a b : Release)
      → get_row id_of i rows ≡ some a
      → get_row id_of j rows ≡ some b
      → SameIdentity a b
      → i ≡ j

-- No row under another key is current for this software.
abbrev pub NoOtherCurrent : ℕ → ℕ → List Release → Type 0
NoOtherCurrent software_id i rows =
    (j : ℕ) (b : Release)
    → get_row id_of j rows ≡ some b
    → b.is_current ≡ true
    → b.software_id ≡ software_id
    → j ≡ i

abbrev pub NoOtherIdentity : Release → List Release → Type 0
NoOtherIdentity r rows =
    (j : ℕ) (b : Release) → get_row id_of j rows ≡ some b → SameIdentity r b → j ≡ r.id

-- What a row that is read after an UPDATE can be.
pub get_row-set_row-cases :
    (r : Release) (rows : List Release) (j : ℕ) (b : Release)
    → get_row id_of j (set_row id_of r.id r rows) ≡ some b
    → ((j ≡ r.id) × (b ≡ r)) ⊎ ((j ≢ r.id) × (get_row id_of j rows ≡ some b))
get_row-set_row-cases r rows j b h =
    ground (arith, get_row-set_row id_of r.id j r rows refl, Option-cases (get_row id_of j rows))

module _ (r : Release) (rows : List Release) where
  pub set_row-IsConsistent :
      IsConsistent rows
      → IsMarkedSoundly r
      → ((r.is_current ≡ false) ⊎ NoOtherCurrent r.software_id r.id rows)
      → NoOtherIdentity r rows
      → IsConsistent (set_row id_of r.id r rows)
  set_row-IsConsistent c m current identity = record {
    keys = set_row-DistinctKeys id_of r.id r rows refl c.keys;
    sound = λ i a h. grind (arith, get_row-set_row-cases r rows i a h, c.sound i a);
    one_current = λ i j a b h k ca cb e. grind (
      arith,
      get_row-set_row-cases r rows i a h,
      get_row-set_row-cases r rows j b k,
      c.one_current i j a b,
    );
    unique = λ i j a b h k e. grind (
      arith,
      get_row-set_row-cases r rows i a h,
      get_row-set_row-cases r rows j b k,
      c.unique i j a b,
      identity j b,
      identity i a,
    );
  }

module _ (r : Release) (rows : List Release) (old : Release) where
  -- A row that keeps its identity is still the only one with it.
  pub NoOtherIdentity-kept :
      IsConsistent rows
      → get_row id_of r.id rows ≡ some old
      → SameIdentity r old
      → NoOtherIdentity r rows
  NoOtherIdentity-kept c found same j b h e = ground (arith, c.unique j r.id b old h found)

  -- A row that gains no marker leaves no other row current beside it.
  pub marker_kept :
      IsConsistent rows
      → get_row id_of r.id rows ≡ some old
      → r.software_id ≡ old.software_id
      → (r.is_current ≡ false) ⊎ (r.is_current ≡ old.is_current)
      → (r.is_current ≡ false) ⊎ NoOtherCurrent r.software_id r.id rows
  marker_kept c found same (inl off) = inl off
  marker_kept c found same (inr kept) = elim (Bool-cases old.is_current) [
    | inl on ↦ inr λ j b h cb e. ground (arith, c.one_current j r.id b old h found)
    | inr off ↦ inl (kept ∙ off)
  ]

module _ (rows : List Release) (software_id keep : ℕ) where
  clear : Release → Release
  clear r = if is_other_current software_id keep r then record r { is_current = false } else r

  clear_current_stable-eq-map : clear_current_stable software_id keep rows ≡ map clear rows
  unfolding clear_current_stable clear
  clear_current_stable-eq-map = refl

  clear-id : (a : Release) → id_of (clear a) ≡ id_of a
  unfolding clear
  clear-id a = ground arith

  -- What a row that is read after the bulk UPDATE can be.
  get_row-clear :
      (j : ℕ) (b : Release)
      → get_row id_of j (map clear rows) ≡ some b
      → (a : Release) × (get_row id_of j rows ≡ some a) × (b ≡ clear a)
  unfolding clear
  get_row-clear j b h = elim (Option-cases (get_row id_of j rows)) [
    | inl gone ↦ absurd (ground (arith, get_row-map id_of clear clear-id j rows))
    | inr (a, found) ↦ (a, found, ground (arith, get_row-map id_of clear clear-id j rows))
  ]

  clear_facts :
      (a : Release)
      → IsMarkedSoundly a
      → IsMarkedSoundly (clear a)
        × SameIdentity (clear a) a
        × ((clear a).is_current ≡ true → a.is_current ≡ true)
        × ((clear a).is_current ≡ true → a.software_id ≡ software_id → a.id ≡ keep)
  unfolding clear
  clear_facts a m = (ground arith, ground arith, λ h. ground arith, λ h e. ground arith)

  -- The bulk UPDATE keeps the invariant, and leaves no other release of this software current.
  pub clear_current_stable-IsConsistent :
      IsConsistent rows
      → IsConsistent (clear_current_stable software_id keep rows)
        × NoOtherCurrent software_id keep (clear_current_stable software_id keep rows)
  clear_current_stable-IsConsistent c = rw clear_current_stable-eq-map (
    record {
      keys = map-DistinctKeys id_of clear clear-id rows c.keys;
      sound = λ i b h.
          let (a, g, e) = get_row-clear i b h in
          subst IsMarkedSoundly (sym e) (clear_facts a (c.sound i a g)).0;
      one_current = λ i j b b' h h' on on' same.
          let (a, g, e) = get_row-clear i b h in
          let (a', g', e') = get_row-clear j b' h' in
          ground (
            arith,
            clear_facts a (c.sound i a g),
            clear_facts a' (c.sound j a' g'),
            c.one_current i j a a' g g',
          );
      unique = λ i j b b' h h' same.
          let (a, g, e) = get_row-clear i b h in
          let (a', g', e') = get_row-clear j b' h' in
          ground (
            arith,
            clear_facts a (c.sound i a g),
            clear_facts a' (c.sound j a' g'),
            c.unique i j a a' g g',
          );
    },
    λ j b h on same.
        let (a, g, e) = get_row-clear j b h in
        ground (arith, clear_facts a (c.sound j a g), get_row-id id_of j rows a g),
  )

  pub clear_current_stable-kept :
      (a : Release)
      → get_row id_of keep rows ≡ some a
      → get_row id_of keep (clear_current_stable software_id keep rows) ≡ some a
  unfolding clear
  clear_current_stable-kept a g =
      rw clear_current_stable-eq-map
        (ground (arith, get_row-map id_of clear clear-id keep rows, get_row-id id_of keep rows a g))

-- `has_identity` decides equality of the identity.
has_identity_iff :
    (software_id : ℕ) (version : Text) (channel : ReleaseChannel) (b : Release)
    → (has_identity software_id version channel b ≡ true)
      ↔ ((b.software_id ≡ software_id) × (b.version ≡ version) × (b.release_channel ≡ channel))
has_identity_iff software_id version channel b = (
  λ h. ground (
    arith,
    nat_beq_iff b.software_id software_id,
    list_beq_iff b.version version,
    release_channel_eq.eqb_iff b.release_channel channel,
  ),
  λ h. ground (
    arith,
    nat_beq_iff b.software_id software_id,
    list_beq_iff b.version version,
    release_channel_eq.eqb_iff b.release_channel channel,
  ),
)

-- Where the only row that the duplicate search can find is the row itself, no other has its
-- identity.
pub duplicate_search-NoOtherIdentity :
    (r : Release) (db : Database)
    → IsConsistent db.releases
    → is_other (get_by_identity r.software_id r.version r.release_channel db) r.id ≡ false
    → NoOtherIdentity r db.releases
unfolding get_by_identity
duplicate_search-NoOtherIdentity r db c alone j b g same =
    let test = has_identity r.software_id r.version r.release_channel in
    let b_has : test b ≡ true =
      (has_identity_iff r.software_id r.version r.release_channel b).1
        (sym same.0, sym same.1, sym same.2) in
    elim (Option-cases (find test db.releases)) [
      | inl missing ↦ absurd (ground (arith, find-eq-none id_of test j db.releases b missing g))
      | inr (x, found) ↦
          let (x_has, at) = get_row-find id_of test db.releases x c.keys found in
          let x_same = (has_identity_iff r.software_id r.version r.release_channel x).0 x_has in
          let id : x.id ≡ r.id = ground (arith, nat_beq_iff x.id r.id) in
          c.unique j x.id b x g at (ground arith) ∙ id
    ]

module _ (rows : List Release) (r : Release) where
  get_row-append-cases :
      (j : ℕ) (b : Release)
      → get_row id_of j (rows ++ r ∷ []) ≡ some b
      → (get_row id_of j rows ≡ some b) ⊎ ((j ≡ r.id) × (b ≡ r))
  get_row-append-cases j b h = ground (arith, get_row-append id_of j rows r)

  -- A new draft under a free key and a free identity.
  pub append-IsConsistent :
      IsConsistent rows
      → get_row id_of r.id rows ≡ none
      → r.is_current ≡ false
      → find (has_identity r.software_id r.version r.release_channel) rows ≡ none
      → IsConsistent (rows ++ r ∷ [])
  append-IsConsistent c free off new = record {
    keys = append-DistinctKeys id_of rows r free c.keys;
    sound = λ i b h. grind (arith, get_row-append-cases i b h, c.sound i b);
    one_current = λ i j a b h k ca cb e.
        ground
          (arith, get_row-append-cases i a h, get_row-append-cases j b k, c.one_current i j a b);
    unique = λ i j a b h k e. ground (
      arith,
      get_row-append-cases i a h,
      get_row-append-cases j b k,
      c.unique i j a b,
      identity_is_new i a,
      identity_is_new j b,
    );
  }
    where
      identity_is_new : (j : ℕ) (b : Release) → get_row id_of j rows ≡ some b → ¬ SameIdentity r b
      identity_is_new j b g same = ground (
        arith,
        find-eq-none id_of (has_identity r.software_id r.version r.release_channel) j rows b new g,
        has_identity_iff r.software_id r.version r.release_channel b,
      )
