-- ===== src/Audit/Tests.antt =====
-- The sanitizing of metadata at concrete items.
use software_hub.Prelude.{◌≡◌, refl, [], ◌∷◌, codes}
use software_hub.Unicode.{ascii, strip, is_infix, replace_char}
use software_hub.Audit.Items.{Scalar, Value, Metadata, sanitize_audit_metadata}

abbrev items : Metadata
items =
    (codes " Version ", Value.scalar (Scalar.text (codes "1.0")))
    ∷ (codes "session_token", Value.scalar (Scalar.text (codes "hidden")))
    ∷ (codes "reason", Value.mapping)
    ∷ []

items_sanitized :
    sanitize_audit_metadata ascii items
    ≡ (codes "version", Value.scalar (Scalar.text (codes "1.0"))) ∷ []
unfolding sanitize_audit_metadata strip is_infix replace_char
items_sanitized = refl
