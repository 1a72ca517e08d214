-- ===== src/Normalization/Slugs.antt =====
-- services/normalization.py: slugs, written by hand or generated from a name.
use software_hub.Prelude.{
  ℕ, Bool, true, false, ◌&&◌, ◌||◌, not, Option, none, some, List, [], ◌∷◌, ◌++◌, Text, codes, ltb,
  nat_beq, length, take, filter_rows, nat_eq, if◌then◌else◌,
}
use software_hub.Unicode.{Unicode, strip, strip_by, replace_char}
use software_hub.Normalization.{Checked, valid, invalid, ValueError}
use software_hub.Security.{is_lower_or_digit}

-- `_TRANSLITERATION`, by code point
abbrev transliteration : List (ℕ × Text)
transliteration =
    (1072, codes "a")
    ∷ (1073, codes "b")
    ∷ (1074, codes "v")
    ∷ (1075, codes "h")
    ∷ (1169, codes "g")
    ∷ (1076, codes "d")
    ∷ (1077, codes "e")
    ∷ (1108, codes "ie")
    ∷ (1078, codes "zh")
    ∷ (1079, codes "z")
    ∷ (1080, codes "y")
    ∷ (1110, codes "i")
    ∷ (1111, codes "i")
    ∷ (1081, codes "i")
    ∷ (1082, codes "k")
    ∷ (1083, codes "l")
    ∷ (1084, codes "m")
    ∷ (1085, codes "n")
    ∷ (1086, codes "o")
    ∷ (1087, codes "p")
    ∷ (1088, codes "r")
    ∷ (1089, codes "s")
    ∷ (1090, codes "t")
    ∷ (1091, codes "u")
    ∷ (1092, codes "f")
    ∷ (1093, codes "kh")
    ∷ (1094, codes "ts")
    ∷ (1095, codes "ch")
    ∷ (1096, codes "sh")
    ∷ (1097, codes "shch")
    ∷ (1100, codes "")
    ∷ (1102, codes "iu")
    ∷ (1103, codes "ia")
    ∷ (1098, codes "")
    ∷ (1099, codes "y")
    ∷ (1101, codes "e")
    ∷ (1105, codes "yo")
    ∷ []

abbrev replacement : List (ℕ × Text) → ℕ → Text
replacement [] c = c ∷ []
replacement ((d, t) ∷ rows) c = let rest = replacement rows c in if nat_beq d c then t else rest

-- `text.translate(_TRANSLITERATION)`
unfoldable pub transliterate : Text → Text
transliterate [] = []
transliterate (c ∷ s) = replacement transliteration c ++ transliterate s

abbrev pub is_hyphen : ℕ → Bool
is_hyphen c = nat_beq c b'-'

-- `_NON_SLUG_PATTERN.sub("-", text)`; `in_run` tells that a run has its hyphen already.
unfoldable pub hyphenate : Bool → Text → Text
hyphenate in_run [] = []
hyphenate in_run (c ∷ s) =
    let word = hyphenate false s in
    let run = hyphenate true s in
    if is_lower_or_digit c then c ∷ word else if in_run then run else b'-' ∷ run

-- `re.sub(r"-+", "-", text)`
unfoldable pub squeeze : Bool → Text → Text
squeeze in_run [] = []
squeeze in_run (c ∷ s) =
    let word = squeeze false s in
    let run = squeeze true s in if is_hyphen c then if in_run then run else c ∷ run else c ∷ word

-- `_SLUG_PATTERN.fullmatch`; `in_word` tells that a word has begun.
unfoldable pub is_slug : Bool → Text → Bool
is_slug in_word [] = in_word
is_slug in_word (c ∷ s) =
    let word = is_slug true s in
    let next = is_slug false s in
    if is_lower_or_digit c then word else is_hyphen c && in_word && next

unfoldable pub generate_slug : Unicode → Text → ℕ → Checked Text
unfolding strip_by
generate_slug u value max_length =
    let lowered = transliterate (u.casefold (strip u value)) in
    let ascii_value = filter_rows (λ c. ltb c 128) (u.nfkd lowered) in
    let generated = strip_by is_hyphen (hyphenate false ascii_value) in
    let cut = strip_by is_hyphen (take max_length (squeeze false generated)) in
    if nat_beq (length cut) 0 then invalid ValueError.slug_not_generated else valid cut

-- The candidate of `normalize_slug`.
abbrev slug_candidate : Unicode → Text → ℕ → Option Text → Checked Text
slug_candidate u candidate max_length none = valid candidate
slug_candidate u candidate max_length (some fallback) =
    if nat_beq (length candidate) 0 then generate_slug u fallback max_length else valid candidate

-- `normalize_slug` of a candidate.
unfoldable pub checked_slug : Unicode → Text → ℕ → Checked Text
unfolding strip_by
checked_slug u candidate max_length =
    let replaced = replace_char b'_' b'-' (u.casefold candidate) in
    let normalized = strip_by is_hyphen (squeeze false replaced) in
    if nat_beq (length normalized) 0 || not (is_slug false normalized)
    then invalid ValueError.slug_malformed
    else if ltb max_length (length normalized)
    then invalid (ValueError.slug_too_long max_length)
    else valid normalized

unfoldable pub normalize_slug : Unicode → Text → ℕ → Option Text → Checked Text
normalize_slug u value max_length fallback =
    elim (slug_candidate u (strip u value) max_length fallback) [
      | invalid e ↦ invalid e
      | valid candidate ↦ checked_slug u candidate max_length
    ]
