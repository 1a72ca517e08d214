-- ===== src/Signatures/Stored.antt =====
-- storage/signatures.py, assess_stored_signature.
use software_hub.Prelude.{
  ◌≡◌, ◌∙◌, sym, ap, subst, Option, refl, if◌then◌else◌, not, ◌⊎◌, inl, inr, none, some, false,
  List, ℕ, Text, codes, arith, nat_eq, list_beq_iff, list_beq, Bool-cases,
}
use software_hub.Unicode.{Unicode, strip}
use software_hub.Signatures.{
  DetectedFileType, validation, SignatureAssessment, pe, msi, zip, seven_zip, detect_file_type,
  validate_file_signature, assess_stored_signature, expected_mime, stored_mime,
}

-- Trimming and folding leave the media types of the program as they are.
pub record KeepsMediaTypes (u : Unicode) : Type 0 where
  pub keeps_octets :
      u.casefold (strip u (codes "application/octet-stream")) ≡ codes "application/octet-stream"
  pub keeps_pe : u.casefold (strip u pe.mime_type) ≡ pe.mime_type
  pub keeps_msi : u.casefold (strip u msi.mime_type) ≡ msi.mime_type
  pub keeps_zip : u.casefold (strip u zip.mime_type) ≡ zip.mime_type
  pub keeps_seven_zip : u.casefold (strip u seven_zip.mime_type) ≡ seven_zip.mime_type

detect_file_type-cases :
    (sample : List ℕ)
    → (detect_file_type sample ≡ none)
      ⊎ (detect_file_type sample ≡ some pe)
      ⊎ (detect_file_type sample ≡ some msi)
      ⊎ (detect_file_type sample ≡ some zip)
      ⊎ (detect_file_type sample ≡ some seven_zip)
unfolding detect_file_type
detect_file_type-cases sample = ground arith

extension-cases :
    (e : Text)
    → (pe.extension ≡ e)
      ⊎ (msi.extension ≡ e)
      ⊎ (zip.extension ≡ e)
      ⊎ (seven_zip.extension ≡ e)
      ⊎ ((list_beq pe.extension e ≡ false)
          × (list_beq msi.extension e ≡ false)
          × (list_beq zip.extension e ≡ false)
          × (list_beq seven_zip.extension e ≡ false))
extension-cases e = elim (Bool-cases (list_beq pe.extension e)) [
  | inl h ↦ inl ((list_beq_iff _ _).0 h)
  | inr not_pe ↦ elim (Bool-cases (list_beq msi.extension e)) [
    | inl h ↦ inr (inl ((list_beq_iff _ _).0 h))
    | inr not_msi ↦ elim (Bool-cases (list_beq zip.extension e)) [
      | inl h ↦ inr (inr (inl ((list_beq_iff _ _).0 h)))
      | inr not_zip ↦ elim (Bool-cases (list_beq seven_zip.extension e)) [
        | inl h ↦ inr (inr (inr (inl ((list_beq_iff _ _).0 h))))
        | inr not_seven ↦ inr (inr (inr (inr (not_pe, not_msi, not_zip, not_seven))))
      ]
    ]
  ]
]

-- The two verdicts on a detected type, for a folded extension.
abbrev by_mime : Text → Text → SignatureAssessment
by_mime e mime = elim (expected_mime e) [
  | none ↦ SignatureAssessment.mismatch
  | some m ↦
      if not (list_beq mime m) then SignatureAssessment.mismatch else SignatureAssessment.matching
]

abbrev by_extension : Text → Text → SignatureAssessment
by_extension e extension =
    if not (list_beq extension e)
    then SignatureAssessment.mismatch
    else SignatureAssessment.matching

by_mime-eq-by_extension :
    (e : Text)
    → (by_mime e pe.mime_type ≡ by_extension e pe.extension)
      × (by_mime e msi.mime_type ≡ by_extension e msi.extension)
      × (by_mime e zip.mime_type ≡ by_extension e zip.extension)
      × (by_mime e seven_zip.mime_type ≡ by_extension e seven_zip.extension)
unfolding expected_mime
by_mime-eq-by_extension e = elim (extension-cases e) [
  | inl h ↦ rw (← h) (refl, refl, refl, refl)
  | inr (inl h) ↦ rw (← h) (refl, refl, refl, refl)
  | inr (inr (inl h)) ↦ rw (← h) (refl, refl, refl, refl)
  | inr (inr (inr (inl h))) ↦ rw (← h) (refl, refl, refl, refl)
  | inr (inr (inr (inr (f, g, h, k)))) ↦ rw (f, g, h, k) (refl, refl, refl, refl)
]

stored_mime-validation :
    (e : Text) (d : DetectedFileType) → stored_mime (validation e (some d)) ≡ d.mime_type
unfolding stored_mime validation
stored_mime-validation e d = elim (Bool-cases (list_beq d.extension e)) [
  | inl t ↦ rw t refl
  | inr t ↦ rw t refl
]

assessment-validation :
    (e : Text) (d : DetectedFileType)
    → (validation e (some d)).assessment ≡ by_extension e d.extension
unfolding validation
assessment-validation e d = elim (Bool-cases (list_beq d.extension e)) [
  | inl t ↦ rw t refl
  | inr t ↦ rw t refl
]

abbrev assess_folded : Text → Text → SignatureAssessment
assess_folded e mime =
    if list_beq mime (codes "application/octet-stream")
    then SignatureAssessment.unknown
    else by_mime e mime

module _ (u : Unicode) (extension : Text) (d : DetectedFileType) where
  known :
      u.casefold (strip u d.mime_type) ≡ d.mime_type
      → assess_folded (u.casefold (strip u extension)) d.mime_type
        ≡ by_extension (u.casefold (strip u extension)) d.extension
      → assess_stored_signature u extension
          (stored_mime (validation (u.casefold (strip u extension)) (some d)))
        ≡ (validation (u.casefold (strip u extension)) (some d)).assessment
  unfolding assess_stored_signature
  known keeps same =
      let e = u.casefold (strip u extension) in
      ap (λ (m : Text). assess_folded e (u.casefold (strip u m))) (stored_mime-validation e d)
      ∙ ap (λ (m : Text). assess_folded e m) keeps
      ∙ same
      ∙ sym (assessment-validation e d)

unidentified :
    (u : Unicode) (extension : Text)
    → KeepsMediaTypes u
    → assess_stored_signature u extension
        (stored_mime (validation (u.casefold (strip u extension)) none))
      ≡ (validation (u.casefold (strip u extension)) none).assessment
unfolding assess_stored_signature stored_mime validation
unidentified u extension k =
    ap (λ (m : Text). assess_folded (u.casefold (strip u extension)) m) k.keeps_octets

-- What the upload stores is enough to find its assessment again, for every extension and sample,
-- where trimming and folding leave the program's media types as they are.
pub assess_stored_signature-stored_mime :
    (u : Unicode) (extension : Text) (sample : List ℕ)
    → KeepsMediaTypes u
    → assess_stored_signature u extension (stored_mime (validate_file_signature u extension sample))
      ≡ (validate_file_signature u extension sample).assessment
unfolding validate_file_signature
assess_stored_signature-stored_mime u extension sample k =
    let e = u.casefold (strip u extension) in
    let agree = λ (o : Option DetectedFileType).
      assess_stored_signature u extension (stored_mime (validation e o))
      ≡ (validation e o).assessment in
    let verdicts = by_mime-eq-by_extension e in
    elim (detect_file_type-cases sample) [
      | inl d ↦ subst agree (sym d) (unidentified u extension k)
      | inr (inl d) ↦ subst agree (sym d) (known u extension pe k.keeps_pe verdicts.0)
      | inr (inr (inl d)) ↦ subst agree (sym d) (known u extension msi k.keeps_msi verdicts.1)
      | inr (inr (inr (inl d))) ↦ subst agree (sym d) (known u extension zip k.keeps_zip verdicts.2)
      | inr (inr (inr (inr d))) ↦
          subst agree (sym d) (known u extension seven_zip k.keeps_seven_zip verdicts.3)
    ]
