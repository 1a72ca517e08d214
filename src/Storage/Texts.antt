-- ===== src/Storage/Texts.antt =====
-- Raw relative paths and their components, as `str.split` and `PurePosixPath` read them.
use software_hub.Prelude.{
  ℕ, Bool, true, false, ◌||◌, not, List, [], ◌∷◌, ◌++◌, Text, nat_beq, nat_eq, list_beq,
  filter_rows, if◌then◌else◌,
}

abbrev pub slash : ℕ
slash = b'/'

-- `raw.split("/")`: the components, of which there is at least one.
unfoldable pub split_from : Text → List Text × Text
split_from [] = ([], [])
split_from (c ∷ s) =
    let (parts, part) = split_from s in
    if nat_beq c slash then (part ∷ parts, []) else (parts, c ∷ part)

unfoldable pub split : Text → List Text
split raw = let (parts, part) = split_from raw in part ∷ parts

-- `"/".join(parts)`
unfoldable pub join : List Text → Text
join [] = []
join (part ∷ []) = part
join (part ∷ p ∷ parts) = part ++ slash ∷ join (p ∷ parts)

abbrev pub is_empty_or_dot : Text → Bool
is_empty_or_dot part = list_beq part [] || list_beq part (b'.' ∷ [])

-- `part in {"", ".", ".."}`
abbrev pub is_bad : Text → Bool
is_bad part = is_empty_or_dot part || list_beq part (b'.' ∷ b'.' ∷ [])

-- `PurePosixPath(raw)`: empty components and single dots fall away.
pub record PosixPath : Type 0 where
  pub absolute : Bool
  pub parts : List Text

abbrev starts_with_slash : Text → Bool
starts_with_slash [] = false
starts_with_slash (c ∷ s) = nat_beq c slash

unfoldable pub posix_path : Text → PosixPath
posix_path raw = record {
  absolute = starts_with_slash raw;
  parts = filter_rows (λ part. not (is_empty_or_dot part)) (split raw);
}

-- `str(path)`
unfoldable pub as_posix : PosixPath → Text
as_posix p = elim p.absolute [
  | true ↦ slash ∷ join p.parts
  | false ↦ elim p.parts [ [] ↦ b'.' ∷ [] | first ∷ rest ↦ join p.parts ]
]
