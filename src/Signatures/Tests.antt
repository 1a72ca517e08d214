-- ===== src/Signatures/Tests.antt =====
-- Runs of the detection on small samples, and the theorems of Signatures on them.
use software_hub.Prelude.{
  ℕ, zero, suc, ◌≡◌, refl, ◌↔◌, true, some, none, List, [], ◌∷◌, ◌++◌, codes, any,
}
use software_hub.Unicode.{starts_with, ascii, strip, strip_by, drop_while, drop_while_end}
use software_hub.Signatures.{
  SignatureAssessment, pe, msi, zip, seven_zip, compound_file_signature, seven_zip_signature,
  zip_signatures, looks_like_pe, has_pe_header, from_bytes_little, detect_file_type, validation,
  validate_file_signature, assess_stored_signature, stored_mime,
}
use software_hub.Signatures.Detection.{detect_file_type_iff}
use software_hub.Signatures.Stored.{KeepsMediaTypes, assess_stored_signature-stored_mime}

abbrev zip_sample : List ℕ
zip_sample = 80 ∷ 75 ∷ 3 ∷ 4 ∷ 20 ∷ []

abbrev zeros : ℕ → List ℕ
zeros zero = []
zeros (suc n) = 0 ∷ zeros n

-- A header at offset 64, named at offset 60.
abbrev pe_sample : List ℕ
pe_sample = codes "MZ" ++ zeros 58 ++ (64 ∷ 0 ∷ 0 ∷ 0 ∷ 80 ∷ 69 ∷ 0 ∷ 0 ∷ [])

pe_found : detect_file_type pe_sample ≡ some pe
unfolding detect_file_type looks_like_pe has_pe_header from_bytes_little
pe_found = refl

short_refused : detect_file_type (codes "MZ") ≡ none
unfolding detect_file_type looks_like_pe starts_with
short_refused = refl

renamed :
    (validate_file_signature ascii (codes ".EXE ") zip_sample).assessment
    ≡ SignatureAssessment.mismatch
unfolding validate_file_signature validation detect_file_type looks_like_pe starts_with strip
    strip_by drop_while drop_while_end
renamed = refl

detect_file_type_iff_example :
    ((detect_file_type zip_sample ≡ some pe) ↔ (looks_like_pe zip_sample ≡ true))
    × ((detect_file_type zip_sample ≡ some msi)
        ↔ (starts_with compound_file_signature zip_sample ≡ true))
    × ((detect_file_type zip_sample ≡ some seven_zip)
        ↔ (starts_with seven_zip_signature zip_sample ≡ true))
    × ((detect_file_type zip_sample ≡ some zip)
        ↔ (any (λ signature. starts_with signature zip_sample) zip_signatures ≡ true))
detect_file_type_iff_example = detect_file_type_iff zip_sample

ascii-KeepsMediaTypes : KeepsMediaTypes ascii
unfolding strip strip_by drop_while drop_while_end
ascii-KeepsMediaTypes = record {
  keeps_octets = refl;
  keeps_pe = refl;
  keeps_msi = refl;
  keeps_zip = refl;
  keeps_seven_zip = refl;
}

assess_stored_signature-stored_mime_example :
    assess_stored_signature ascii
      (codes ".exe")
      (stored_mime (validate_file_signature ascii (codes ".exe") zip_sample))
    ≡ (validate_file_signature ascii (codes ".exe") zip_sample).assessment
assess_stored_signature-stored_mime_example =
    assess_stored_signature-stored_mime ascii (codes ".exe") zip_sample ascii-KeepsMediaTypes
