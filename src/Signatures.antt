-- ===== src/Signatures.antt =====
-- storage/signatures.py: the file types that magic bytes show, and how they compare with a
-- filename's extension. A sample is a list of bytes.
pub mod Detection
pub mod Stored
pub mod Tests
use software_hub.Prelude.{
  ℕ, ◌+◌, ◌-◌, ◌*◌, Bool, true, false, ◌||◌, not, Option, none, some, List, [], ◌∷◌, ◌++◌, Text,
  codes, ltb, length, take, drop, list_beq, nat_eq, any, if◌then◌else◌, String,
}
use software_hub.Unicode.{Unicode, strip, starts_with}

pub data SignatureAssessment : Type 0 where
  matching mismatch unknown : SignatureAssessment

pub record DetectedFileType : Type 0 where
  pub extension : Text
  pub mime_type : Text
  pub label : String

pub record SignatureValidation : Type 0 where
  pub assessment : SignatureAssessment
  pub expected_extension : Text
  pub detected : Option DetectedFileType
  pub reason : String

abbrev pub pe : DetectedFileType
pe = record {
  extension = codes ".exe";
  mime_type = codes "application/vnd.microsoft.portable-executable";
  label = "Windows PE executable";
}

abbrev pub msi : DetectedFileType
msi = record {
  extension = codes ".msi";
  mime_type = codes "application/x-msi";
  label = "Microsoft Compound File Binary";
}

abbrev pub zip : DetectedFileType
zip = record {
  extension = codes ".zip";
  mime_type = codes "application/zip";
  label = "ZIP archive";
}

abbrev pub seven_zip : DetectedFileType
seven_zip = record {
  extension = codes ".7z";
  mime_type = codes "application/x-7z-compressed";
  label = "7-Zip archive";
}

abbrev pub compound_file_signature : List ℕ
compound_file_signature = 208 ∷ 207 ∷ 17 ∷ 224 ∷ 161 ∷ 177 ∷ 26 ∷ 225 ∷ []

abbrev pub seven_zip_signature : List ℕ
seven_zip_signature = 55 ∷ 122 ∷ 188 ∷ 175 ∷ 39 ∷ 28 ∷ []

abbrev pub zip_signatures : List (List ℕ)
zip_signatures = (80 ∷ 75 ∷ 3 ∷ 4 ∷ []) ∷ (80 ∷ 75 ∷ 5 ∷ 6 ∷ []) ∷ (80 ∷ 75 ∷ 7 ∷ 8 ∷ []) ∷ []

-- `data[start:end]`
abbrev pub slice : ℕ → ℕ → List ℕ → List ℕ
slice start end data_bytes = take (end - start) (drop start data_bytes)

-- `int.from_bytes(data, "little")`
unfoldable pub from_bytes_little : List ℕ → ℕ
from_bytes_little [] = 0
from_bytes_little (b ∷ rest) = b + 256 * from_bytes_little rest

-- `_looks_like_pe` once the offset is read
unfoldable pub has_pe_header : List ℕ → ℕ → Bool
has_pe_header sample pe_offset =
    if ltb pe_offset 64 || ltb (length sample) (pe_offset + 4)
    then false
    else list_beq (slice pe_offset (pe_offset + 4) sample) (80 ∷ 69 ∷ 0 ∷ 0 ∷ [])

unfoldable pub looks_like_pe : List ℕ → Bool
looks_like_pe sample =
    if ltb (length sample) 64 || not (list_beq (take 2 sample) (codes "MZ"))
    then false
    else has_pe_header sample (from_bytes_little (slice 60 64 sample))

unfoldable pub detect_file_type : List ℕ → Option DetectedFileType
detect_file_type sample =
    if looks_like_pe sample
    then some pe
    else if starts_with compound_file_signature sample
    then some msi
    else if starts_with seven_zip_signature sample
    then some seven_zip
    else if any (λ signature. starts_with signature sample) zip_signatures
    then some zip
    else none

-- `validate_file_signature` behind the detection
unfoldable pub validation : Text → Option DetectedFileType → SignatureValidation
validation expected none = record {
  assessment = SignatureAssessment.unknown;
  expected_extension = expected;
  detected = none;
  reason = "The file type could not be identified confidently from its signature.";
}
validation expected (some d) =
    if not (list_beq d.extension expected)
    then record {
      assessment = SignatureAssessment.mismatch;
      expected_extension = expected;
      detected = some d;
      reason = "The detected file type does not match the filename extension.";
    }
    else record {
      assessment = SignatureAssessment.matching;
      expected_extension = expected;
      detected = some d;
      reason = "The file signature matches the normalized extension.";
    }

unfoldable pub validate_file_signature : Unicode → Text → List ℕ → SignatureValidation
validate_file_signature u extension sample =
    validation (u.casefold (strip u extension)) (detect_file_type sample)

-- The dictionary of `assess_stored_signature`
unfoldable pub expected_mime : Text → Option Text
expected_mime extension =
    if list_beq pe.extension extension
    then some pe.mime_type
    else if list_beq msi.extension extension
    then some msi.mime_type
    else if list_beq zip.extension extension
    then some zip.mime_type
    else if list_beq seven_zip.extension extension
    then some seven_zip.mime_type
    else none

unfoldable pub assess_stored_signature : Unicode → Text → Text → SignatureAssessment
assess_stored_signature u extension mime_type =
    let expected = u.casefold (strip u extension) in
    let normalized_mime = u.casefold (strip u mime_type) in
    if list_beq normalized_mime (codes "application/octet-stream")
    then SignatureAssessment.unknown
    else elim (expected_mime expected) [
      | none ↦ SignatureAssessment.mismatch
      | some mime ↦
          if not (list_beq normalized_mime mime)
          then SignatureAssessment.mismatch
          else SignatureAssessment.matching
    ]

-- The column `detected_mime_type` that the upload service writes (services/upload_service.py)
unfoldable pub stored_mime : SignatureValidation → Text
stored_mime v = elim v.detected [ none ↦ codes "application/octet-stream" | some d ↦ d.mime_type ]
