-- ===== src/Audit/Items.antt =====
-- The metadata of an audit row: which keys and values are kept. `sensitive_key_fragments` stands in
-- core/constants.py, `is_sensitive_key` in core/logging.py.
use software_hub.Prelude.{
  ℕ, Bool, true, false, ◌||◌, Option, none, some, List, [], ◌∷◌, Text, codes, nat_eq, list_eq,
  contains, leb, length, take, any, not, if◌then◌else◌, map, list_beq,
}
use software_hub.Unicode.{Unicode, strip, replace_char, is_infix}

-- The values that callers put into metadata. A float is finite or not; `unsupported` is a value of
-- any other type.
pub data Scalar : Type 0 where
  null : Scalar
  bool : Bool → Scalar
  int : ℕ → Scalar
  float : Bool → Scalar
  text : Text → Scalar
  unsupported : Scalar

pub data Value : Type 0 where
  scalar : Scalar → Value
  sequence : List Scalar → Value
  mapping : Value

abbrev pub Metadata : Type 0
Metadata = List (Text × Value)

abbrev pub max_metadata_items : ℕ
max_metadata_items = 24

abbrev pub max_metadata_string_length : ℕ
max_metadata_string_length = 256

abbrev pub max_metadata_sequence_length : ℕ
max_metadata_sequence_length = 20

abbrev pub allowed_metadata_keys : List Text
allowed_metadata_keys = map codes (
    "backup_id" ∷ "changed" ∷ "checksum_verified" ∷ "cleared_count" ∷ "current" ∷ "deleted_count"
    ∷ "duplicate_count" ∷ "file_count" ∷ "total_bytes" ∷ "retention_deleted_count" ∷ "orphan_count"
    ∷ "mismatch_count" ∷ "verified_count" ∷ "dry_run" ∷ "file_extension" ∷ "file_size_bytes"
    ∷ "from" ∷ "initial_status" ∷ "physical_file_preserved" ∷ "reason" ∷ "release_id"
    ∷ "revoked_count" ∷ "scanner_status" ∷ "signature_assessment" ∷ "slug" ∷ "software_id"
    ∷ "storage_area" ∷ "to" ∷ "username_hash" ∷ "version" ∷ [])

abbrev pub sensitive_key_fragments : List Text
sensitive_key_fragments =
    map codes
      ("authorization" ∷ "cookie" ∷ "csrf" ∷ "password" ∷ "secret" ∷ "session" ∷ "token" ∷ [])

unfoldable pub is_sensitive_key : Unicode → Text → Bool
is_sensitive_key u key =
    let normalized = replace_char b'-' b'_' (u.lower key) in
    any (λ fragment. is_infix fragment normalized) sensitive_key_fragments

-- `none` is the marker for a value that is left out.
unfoldable pub safe_scalar : Scalar → Option Scalar
safe_scalar (Scalar.float false) = none
safe_scalar (Scalar.text t) = some (Scalar.text (take max_metadata_string_length t))
safe_scalar Scalar.unsupported = none
safe_scalar s = some s

abbrev pub keep_some : Option Scalar → List Scalar → List Scalar
keep_some none l = l
keep_some (some s) l = s ∷ l

unfoldable pub safe_scalars : List Scalar → List Scalar
unfolding safe_scalar
safe_scalars [] = []
safe_scalars (s ∷ l) = keep_some (safe_scalar s) (safe_scalars l)

unfoldable pub safe_value : Value → Option Value
unfolding safe_scalars
safe_value Value.mapping = none
safe_value (Value.sequence l) =
    some (Value.sequence (safe_scalars (take max_metadata_sequence_length l)))
safe_value (Value.scalar s) = elim (safe_scalar s) [ none ↦ none | some t ↦ some (Value.scalar t) ]

-- `cleaned[key] = value`
unfoldable pub put_item : Text → Value → Metadata → Metadata
put_item k v [] = (k, v) ∷ []
put_item k v ((j, w) ∷ m) = if list_beq j k then (j, v) ∷ m else (j, w) ∷ put_item k v m

-- One round of the loop, once the limit is not reached.
unfoldable pub keep_item : Unicode → Text → Value → Metadata → Metadata
unfolding is_sensitive_key safe_value put_item
keep_item u key value cleaned =
    let normalized = u.casefold (strip u key) in
    if not (contains allowed_metadata_keys normalized) || is_sensitive_key u normalized
    then cleaned
    else elim (safe_value value) [ none ↦ cleaned | some v ↦ put_item normalized v cleaned ]

unfoldable pub sanitize_from : Unicode → Metadata → Metadata → Metadata
unfolding keep_item
sanitize_from u [] cleaned = cleaned
sanitize_from u ((key, value) ∷ items) cleaned = elim (leb max_metadata_items (length cleaned)) [
  | true ↦ cleaned
  | false ↦ sanitize_from u items (keep_item u key value cleaned)
]

unfoldable pub sanitize_audit_metadata : Unicode → Metadata → Metadata
unfolding sanitize_from
sanitize_audit_metadata u metadata = sanitize_from u metadata []
