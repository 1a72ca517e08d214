-- ===== src/Downloads/Headers.antt =====
-- services/download_service.py: the headers of a download. Percent-encoding (urllib.parse.quote) is
-- a parameter.
use software_hub.Prelude.{
  ℕ, Bool, true, false, ◌&&◌, ◌||◌, [], ◌∷◌, ◌++◌, List, Text, codes, nat_beq, nat_eq, leb, ltb,
  contains, length, if◌then◌else◌, map, ◌-◌, take, filter_rows,
}
use software_hub.Unicode.{Unicode, strip, strip_by, replace_char}
use software_hub.Storage.Texts.{posix_path}

-- `quote(text, safe=...)`: first the characters left alone, then the text.
abbrev pub Quote : Type 0
Quote = Text → Text → Text

abbrev is_letter_or_digit : ℕ → Bool
is_letter_or_digit c =
    (leb b'0' c && leb c b'9') || (leb b'A' c && leb c b'Z') || (leb b'a' c && leb c b'z')

abbrev pub is_token_char : ℕ → Bool
is_token_char c = is_letter_or_digit c || contains (codes "!#$&^_.+-") c

-- `_MEDIA_TYPE_PATTERN.fullmatch`: a token, a slash, a token; `seen` tells that the token at hand has
-- begun.
unfoldable pub is_subtype : Bool → Text → Bool
is_subtype seen [] = seen
is_subtype seen (c ∷ s) = is_token_char c && is_subtype true s

unfoldable pub is_media_type : Bool → Text → Bool
is_media_type seen [] = false
is_media_type seen (c ∷ s) =
    let rest = is_media_type true s in
    if nat_beq c b'/' then seen && is_subtype false s else is_token_char c && rest

unfoldable pub safe_media_type : Unicode → Text → Text
safe_media_type u value =
    let candidate = u.casefold (strip u value) in
    if is_media_type false candidate then candidate else codes "application/octet-stream"

-- `parts[-1]`, or the empty text
abbrev last_part : List Text → Text
last_part [] = []
last_part (part ∷ []) = part
last_part (part ∷ p ∷ parts) = last_part (p ∷ parts)

-- The text from its last dot on, or none of it.
abbrev from_last_dot : Text → Text
from_last_dot [] = []
from_last_dot (c ∷ s) =
    let rest = from_last_dot s in
    if contains s b'.' then rest else if nat_beq c b'.' then c ∷ s else []

abbrev skip_dots : Text → Text
skip_dots [] = []
skip_dots (c ∷ s) = let rest = skip_dots s in if nat_beq c b'.' then rest else c ∷ s

-- `PurePosixPath(filename).suffix`: from the last dot of the name that is not one of its leading
-- dots.
unfoldable pub suffix : Text → Text
unfolding posix_path
suffix filename = from_last_dot (skip_dots (last_part (posix_path filename).parts))

-- The characters that the fallback keeps.
abbrev keep_safe : ℕ → ℕ
keep_safe c = if is_letter_or_digit c || contains (codes " ._-") c then c else b'_'

unfoldable pub build_content_disposition : Unicode → Quote → Text → Text
unfolding suffix strip_by
build_content_disposition u quote filename =
    let extension = suffix filename in
    let source_stem = take (length filename - length extension) filename in
    let ascii_stem = filter_rows (λ c. ltb c 128) (u.nfkd source_stem) in
    let safe_stem = strip_by (contains (codes " ._")) (map keep_safe ascii_stem) in
    let fallback =
      if nat_beq (length safe_stem) 0
      then codes "download" ++ u.casefold extension
      else safe_stem ++ u.casefold extension in
    let bounded =
      if ltb 150 (length fallback) then codes "download" ++ u.casefold extension else fallback in
    let clean = replace_char b'\\' b'_' (replace_char 34 b'_' bounded) in
    codes "attachment; filename=\"" ++ clean ++ codes "\"; filename*=UTF-8''" ++ quote [] filename
