-- ===== src/Normalization/Joined.antt =====
-- services/normalization.py: a generated slug is a slug.
use software_hub.Prelude.{
  ℕ, zero, suc, ◌≤◌, Bool, true, false, ◌&&◌, not, [], ◌∷◌, Text, ltb, nat_beq, length, take,
  filter_rows, nat_eq, if◌then◌else◌, ◌≡◌, ◌⊎◌, inl, inr, refl, ap, ◌∙◌, subst, arith, Bool-cases,
  length-take,
}
use software_hub.Unicode.{Unicode, strip, strip_by, drop_while, drop_while_end}
use software_hub.Normalization.{valid, invalid, ValueError}
use software_hub.Security.{is_lower_or_digit}
use software_hub.Normalization.Slugs.{
  transliterate, is_hyphen, hyphenate, squeeze, is_slug, generate_slug,
}

-- Words and hyphens, no two hyphens in a row; `hyphen` tells that one stands before the text.
is_joined : Bool → Text → Bool
is_joined hyphen [] = true
is_joined hyphen (c ∷ s) =
    let word = is_joined false s in
    let next = is_joined true s in
    if is_lower_or_digit c then word else is_hyphen c && not hyphen && next

-- What a joined text begins with.
step :
    (b : Bool) (c : ℕ) (s : Text)
    → is_joined b (c ∷ s) ≡ true
    → ((is_lower_or_digit c ≡ true) × (is_hyphen c ≡ false) × (is_joined false s ≡ true))
      ⊎ ((is_lower_or_digit c ≡ false)
          × (is_hyphen c ≡ true)
          × (b ≡ false)
          × (is_joined true s ≡ true))
unfolding is_joined
step b c s h = ground arith

weaken : (s : Text) → is_joined true s ≡ true → is_joined false s ≡ true
unfolding is_joined
weaken [] h = refl
weaken (c ∷ s) h = ground arith

hyphenate-is_joined : (b : Bool) (s : Text) → is_joined b (hyphenate b s) ≡ true
unfolding is_joined hyphenate
hyphenate-is_joined b [] = refl
hyphenate-is_joined b (c ∷ s) =
    ground (arith, hyphenate-is_joined false s, hyphenate-is_joined true s)

no_hyphen : (c : ℕ) (s : Text) → is_hyphen c ≡ false → drop_while is_hyphen (c ∷ s) ≡ c ∷ s
unfolding drop_while
no_hyphen c s h = ground arith

hyphen_dropped :
    (c : ℕ) (s : Text) → is_hyphen c ≡ true → drop_while is_hyphen (c ∷ s) ≡ drop_while is_hyphen s
unfolding drop_while
hyphen_dropped c s h = ground arith

drop_while-kept : (s : Text) → is_joined true s ≡ true → drop_while is_hyphen s ≡ s
unfolding drop_while
drop_while-kept [] h = refl
drop_while-kept (c ∷ s) h = elim (step true c s h) [
  | inl (word, plain, rest) ↦ no_hyphen c s plain
  | inr (plain, hyphen, start, rest) ↦ absurd (cc)
]

word_joined :
    (b : Bool) (c : ℕ) (s : Text)
    → is_lower_or_digit c ≡ true
    → is_joined false s ≡ true
    → is_joined b (c ∷ s) ≡ true
unfolding is_joined
word_joined b c s h k = ground arith

drop_while-is_joined :
    (s : Text) → is_joined false s ≡ true → is_joined true (drop_while is_hyphen s) ≡ true
unfolding is_joined drop_while
drop_while-is_joined [] h = refl
drop_while-is_joined (c ∷ s) h = elim (step false c s h) [
  | inl (word, plain, rest) ↦
      ap (is_joined true) (no_hyphen c s plain) ∙ word_joined true c s word rest
  | inr (plain, hyphen, start, rest) ↦
      ap (is_joined true) (hyphen_dropped c s hyphen ∙ drop_while-kept s rest) ∙ rest
]

take-is_joined :
    (n : ℕ) (b : Bool) (s : Text) → is_joined b s ≡ true → is_joined b (take n s) ≡ true
unfolding is_joined
take-is_joined zero b s h = refl
take-is_joined (suc n) b [] h = refl
take-is_joined (suc n) b (c ∷ s) h =
    ground (arith, take-is_joined n false s, take-is_joined n true s)

squeeze-is_joined : (b : Bool) (s : Text) → is_joined b s ≡ true → squeeze b s ≡ s
unfolding is_joined squeeze
squeeze-is_joined b [] h = refl
squeeze-is_joined b (c ∷ s) h = elim (step b c s h) [
  | inl (word, plain, rest) ↦ ground (arith, plain, squeeze-is_joined false s rest)
  | inr (plain, hyphen, start, rest) ↦ ground (arith, hyphen, start, squeeze-is_joined true s rest)
]

-- The end of a text with its last hyphens dropped: the end of a slug, or nothing.
drop_while_end-is_slug :
    (s : Text)
    → ((is_joined false s ≡ true) → is_slug true (drop_while_end is_hyphen s) ≡ true)
      × ((is_joined true s ≡ true)
          → (drop_while_end is_hyphen s ≡ []) ⊎ (is_slug false (drop_while_end is_hyphen s) ≡ true))
unfolding drop_while_end is_slug
drop_while_end-is_slug [] = (λ h. refl, λ h. inl refl)
drop_while_end-is_slug (c ∷ s) =
    let (ends, begins) = drop_while_end-is_slug s in
    (
      λ h. elim (step false c s h) [
        | inl (word, plain, rest) ↦
            word_kept true c (drop_while_end is_hyphen s) word plain (ends rest)
        | inr (plain, hyphen, start, rest) ↦
            hyphen_kept c (drop_while_end is_hyphen s) plain hyphen (begins rest)
      ],
      λ h. elim (step true c s h) [
        | inl (word, plain, rest) ↦
            inr (word_kept false c (drop_while_end is_hyphen s) word plain (ends rest))
        | inr (plain, hyphen, start, rest) ↦ absurd (cc)
      ],
    )
  where
    word_kept :
        (b : Bool) (c : ℕ) (t : Text)
        → is_lower_or_digit c ≡ true
        → is_hyphen c ≡ false
        → is_slug true t ≡ true
        → is_slug b (elim t [ [] ↦ if is_hyphen c then [] else c ∷ [] | d ∷ r ↦ c ∷ d ∷ r ]) ≡ true
    word_kept b c [] word plain h = rw (plain) (rw (word) refl)
    word_kept b c (d ∷ r) word plain h = rw (word) h

    hyphen_kept :
        (c : ℕ) (t : Text)
        → is_lower_or_digit c ≡ false
        → is_hyphen c ≡ true
        → (t ≡ []) ⊎ (is_slug false t ≡ true)
        → is_slug true (elim t [ [] ↦ if is_hyphen c then [] else c ∷ [] | d ∷ r ↦ c ∷ d ∷ r ])
          ≡ true
    hyphen_kept c [] plain hyphen h = rw (hyphen) refl
    hyphen_kept c (d ∷ r) plain hyphen (inl none_left) = absurd (cc)
    hyphen_kept c (d ∷ r) plain hyphen (inr h) = rw (plain, hyphen) h

length-drop_while : (s : Text) → length (drop_while is_hyphen s) ≤ length s
unfolding drop_while
length-drop_while [] = omega arith
length-drop_while (c ∷ s) = elim (Bool-cases (is_hyphen c)) [
  | inl hyphen ↦ omega (arith, ap length (hyphen_dropped c s hyphen), length-drop_while s)
  | inr plain ↦ omega (arith, ap length (no_hyphen c s plain))
]

length-drop_while_end : (s : Text) → length (drop_while_end is_hyphen s) ≤ length s
unfolding drop_while_end
length-drop_while_end [] = omega arith
length-drop_while_end (c ∷ s) = bound (drop_while_end is_hyphen s) (length-drop_while_end s)
  where
    bound :
        (t : Text)
        → length t ≤ length s
        → length {A = ℕ} (elim t [ [] ↦ if is_hyphen c then [] else c ∷ [] | d ∷ r ↦ c ∷ d ∷ r ])
          ≤ suc (length s)
    bound [] h = elim (Bool-cases (is_hyphen c)) [
      | inl hyphen ↦ rw (hyphen) (omega arith)
      | inr plain ↦ rw (plain) (omega arith)
    ]
    bound (d ∷ r) h = omega (arith, h)

hyphen_joined :
    (b : Bool) (c : ℕ) (s : Text)
    → is_lower_or_digit c ≡ false
    → is_hyphen c ≡ true
    → b ≡ false
    → is_joined true s ≡ true
    → is_joined b (c ∷ s) ≡ true
unfolding is_joined
hyphen_joined b c s g h k l = ground arith

drop_while_end-is_joined :
    (b : Bool) (s : Text) → is_joined b s ≡ true → is_joined b (drop_while_end is_hyphen s) ≡ true
unfolding is_joined drop_while_end
drop_while_end-is_joined b [] h = refl
drop_while_end-is_joined b (c ∷ s) h =
    kept (drop_while_end is_hyphen s) (drop_while_end-is_joined false s)
      (drop_while_end-is_joined true s)
  where
    kept :
        (t : Text)
        → (is_joined false s ≡ true → is_joined false t ≡ true)
        → (is_joined true s ≡ true → is_joined true t ≡ true)
        → is_joined b (elim t [ [] ↦ if is_hyphen c then [] else c ∷ [] | d ∷ r ↦ c ∷ d ∷ r ])
          ≡ true
    kept [] after_word after_hyphen = elim (step b c s h) [
      | inl (word, plain, rest) ↦ rw (plain) (word_joined b c [] word refl)
      | inr (plain, hyphen, start, rest) ↦ rw (hyphen) refl
    ]
    kept (d ∷ r) after_word after_hyphen = elim (step b c s h) [
      | inl (word, plain, rest) ↦ word_joined b c (d ∷ r) word (after_word rest)
      | inr (plain, hyphen, start, rest) ↦
          hyphen_joined b c (d ∷ r) plain hyphen start (after_hyphen rest)
    ]

-- What both ends are stripped of hyphens is a slug, or nothing.
stripped :
    (s : Text)
    → is_joined false s ≡ true
    → (strip_by is_hyphen s ≡ []) ⊎ (is_slug false (strip_by is_hyphen s) ≡ true)
unfolding strip_by
stripped s h = (drop_while_end-is_slug (drop_while is_hyphen s)).1 (drop_while-is_joined s h)

stripped-is_joined :
    (s : Text) → is_joined false s ≡ true → is_joined false (strip_by is_hyphen s) ≡ true
unfolding strip_by
stripped-is_joined s h =
    weaken (drop_while_end is_hyphen (drop_while is_hyphen s))
      (drop_while_end-is_joined true (drop_while is_hyphen s) (drop_while-is_joined s h))

length-strip_by : (s : Text) → length (strip_by is_hyphen s) ≤ length s
unfolding strip_by
length-strip_by s =
    omega (arith, length-drop_while_end (drop_while is_hyphen s), length-drop_while s)

ended :
    (cut slug : Text)
    → (cut ≡ []) ⊎ (is_slug false cut ≡ true)
    → (if nat_beq (length cut) 0 then invalid ValueError.slug_not_generated else valid cut)
      ≡ valid slug
    → (is_slug false slug ≡ true) × (cut ≡ slug)
ended [] slug h k = absurd (cc)
ended (c ∷ s) slug (inl nothing) k = absurd (cc)
ended (c ∷ s) slug (inr h) k =
    let same : c ∷ s ≡ slug = ground (arith, k) in
    (subst (λ (x : Text). is_slug false x ≡ true) same h, same)

-- For any name and any table of characters, a slug that is generated matches the pattern of slugs
-- (words of small letters and digits, joined by single hyphens) and is at most `max_length` long.
pub generate_slug-is_slug :
    (u : Unicode) (value : Text) (max_length : ℕ) (slug : Text)
    → generate_slug u value max_length ≡ valid slug
    → (is_slug false slug ≡ true) × (length slug ≤ max_length)
unfolding generate_slug
generate_slug-is_slug u value max_length slug h =
    let ascii_value =
      filter_rows (λ c. ltb c 128) (u.nfkd (transliterate (u.casefold (strip u value)))) in
    let generated = strip_by is_hyphen (hyphenate false ascii_value) in
    let cut = take max_length (squeeze false generated) in
    let joined : is_joined false generated ≡ true =
      stripped-is_joined (hyphenate false ascii_value) (hyphenate-is_joined false ascii_value) in
    let cut_joined : is_joined false cut ≡ true =
      take-is_joined max_length false (squeeze false generated)
        (ap (is_joined false) (squeeze-is_joined false generated joined) ∙ joined) in
    let (is_one, same) = ended (strip_by is_hyphen cut) slug (stripped cut cut_joined) h in
    let lengths : length (strip_by is_hyphen cut) ≡ length slug = ap length same in
    (
      is_one,
      omega (arith, lengths, length-strip_by cut, length-take max_length (squeeze false generated)),
    )
