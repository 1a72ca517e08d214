-- ===== src/Audit/Laws.antt =====
-- What the sanitizing leaves: few items, approved keys, bounded values.
use software_hub.Prelude.{
  ◌≡◌, ◌≤◌, true, false, Option, none, some, Text, length, contains, nat_eq, list_eq, All,
}
use software_hub.Unicode.{Unicode}
use software_hub.Audit.Items.{
  Scalar, Value, allowed_metadata_keys, max_metadata_string_length, max_metadata_sequence_length,
  is_sensitive_key,
}

-- A JSON scalar with a bounded text.
abbrev pub IsSafeScalar : Scalar → Type 0
IsSafeScalar (Scalar.text t) = length t ≤ max_metadata_string_length
IsSafeScalar (Scalar.float finite) = finite ≡ true
IsSafeScalar Scalar.unsupported = ⊥
IsSafeScalar _ = Unit

abbrev pub IsSafeValue : Value → Type 0
IsSafeValue (Value.scalar s) = IsSafeScalar s
IsSafeValue (Value.sequence l) = (length l ≤ max_metadata_sequence_length) × All IsSafeScalar l
IsSafeValue Value.mapping = ⊥

abbrev IfSome : {A : Type 0} → (A → Type 0) → Option A → Type 0
IfSome P none = Unit
IfSome P (some a) = P a

module _ (u : Unicode) where
  abbrev pub IsSafeItem : Text × Value → Type 0
  IsSafeItem (k, v) =
      (contains allowed_metadata_keys k ≡ true) × (is_sensitive_key u k ≡ false) × IsSafeValue v
