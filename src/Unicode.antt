-- ===== src/Unicode.antt =====
-- The Unicode tables of Python's `str` and `unicodedata`, which are no code of this repository, as
-- a parameter; and the string methods that the program builds on them.
use software_hub.Prelude.{
  ℕ, Bool, true, false, ◌||◌, [], ◌∷◌, Text, nat_beq, nat_eq, if◌then◌else◌, ltb, leb, ◌&&◌, ◌+◌,
  map,
}

pub record Unicode : Type 0 where
  pub is_space : ℕ → Bool
  pub is_control : ℕ → Bool
  pub casefold : Text → Text
  pub lower : Text → Text
  pub nfkc : Text → Text
  pub nfkd : Text → Text

-- Drops what passes the test from the left.
unfoldable pub drop_while : (ℕ → Bool) → Text → Text
drop_while p [] = []
drop_while p (c ∷ s) = elim (p c) [ true ↦ drop_while p s | false ↦ c ∷ s ]

-- Drops what passes the test from the right.
unfoldable pub drop_while_end : (ℕ → Bool) → Text → Text
drop_while_end p [] = []
drop_while_end p (c ∷ s) =
    let rest = drop_while_end p s in
    elim rest [ [] ↦ if p c then [] else c ∷ [] | d ∷ r ↦ c ∷ d ∷ r ]

-- `text.strip(chars)`
unfoldable pub strip_by : (ℕ → Bool) → Text → Text
unfolding drop_while drop_while_end
strip_by p s = drop_while_end p (drop_while p s)

-- `text.strip()`
unfoldable pub strip : Unicode → Text → Text
unfolding strip_by
strip u s = strip_by u.is_space s

-- `text.startswith(prefix)`
unfoldable pub starts_with : Text → Text → Bool
starts_with [] s = true
starts_with (c ∷ p) [] = false
starts_with (c ∷ p) (d ∷ s) = nat_beq c d && starts_with p s

-- `fragment in text`
unfoldable pub is_infix : Text → Text → Bool
unfolding starts_with
is_infix p [] = starts_with p []
is_infix p (d ∷ s) = starts_with p (d ∷ s) || is_infix p s

-- `text.replace(c, d)` for single characters.
unfoldable pub replace_char : ℕ → ℕ → Text → Text
replace_char c d s = map (λ x. if nat_beq x c then d else x) s

-- The tables cut down to ASCII, for tests.
abbrev pub ascii_lower : ℕ → ℕ
ascii_lower c = if leb b'A' c && leb c b'Z' then c + 32 else c

abbrev pub ascii : Unicode
ascii = record {
  is_space = λ c. nat_beq c 32 || (leb 9 c && leb c 13);
  is_control = λ c. ltb c 32 || nat_beq c 127;
  casefold = map ascii_lower;
  lower = map ascii_lower;
  nfkc = λ s. s;
  nfkd = λ s. s;
}
