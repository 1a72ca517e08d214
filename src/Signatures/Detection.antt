-- ===== src/Signatures/Detection.antt =====
-- storage/signatures.py, detect_file_type: what each answer means.
use software_hub.Prelude.{
  ℕ, ◌≡◌, refl, ◌↔◌, ◌≢◌, Bool, false, Option, none, if◌then◌else◌, ap, true, false, some, none,
  List, [], ◌∷◌, length, any, nat_eq, arith,
}
use software_hub.Unicode.{starts_with}
use software_hub.Signatures.{
  DetectedFileType, pe, msi, zip, seven_zip, compound_file_signature, seven_zip_signature,
  zip_signatures, looks_like_pe, detect_file_type,
}

first_byte : List ℕ → Option ℕ
first_byte [] = none
first_byte (b ∷ rest) = some b

starts_with-first_byte :
    (c : ℕ) (p s : List ℕ) → starts_with (c ∷ p) s ≡ true → first_byte s ≡ some c
unfolding starts_with first_byte
starts_with-first_byte c p [] h = ground arith
starts_with-first_byte c p (d ∷ s) h = ground arith

looks_like_pe-first_byte : (s : List ℕ) → looks_like_pe s ≡ true → first_byte s ≡ some 77
unfolding looks_like_pe first_byte
looks_like_pe-first_byte [] h = ground arith
looks_like_pe-first_byte (b ∷ rest) h = ground arith

-- The first test that holds chooses; where no two hold, each test decides its own answer.
module _ {A : Type 0} (w x y z : A) where
  abbrev first_of : Bool → Bool → Bool → Bool → Option A
  first_of a b c d =
      if a then some w else if b then some x else if c then some y else if d then some z else none

  first_of_iff :
      (a b c d : Bool)
      → w ≢ x
      → w ≢ y
      → w ≢ z
      → x ≢ y
      → x ≢ z
      → y ≢ z
      → (a ≡ true → (b ≡ false) × (c ≡ false) × (d ≡ false))
      → (b ≡ true → (c ≡ false) × (d ≡ false))
      → (c ≡ true → d ≡ false)
      → ((first_of a b c d ≡ some w) ↔ (a ≡ true))
        × ((first_of a b c d ≡ some x) ↔ (b ≡ true))
        × ((first_of a b c d ≡ some y) ↔ (c ≡ true))
        × ((first_of a b c d ≡ some z) ↔ (d ≡ true))
  first_of_iff a b c d wx wy wz xy xz yz f g h = (
    (λ e. ground arith, λ e. ground arith),
    (λ e. ground arith, λ e. ground arith),
    (λ e. ground arith, λ e. ground arith),
    (λ e. ground arith, λ e. ground arith),
  )

other_first :
    (c : ℕ) (p s : List ℕ) (b : ℕ) → first_byte s ≡ some b → b ≢ c → starts_with (c ∷ p) s ≡ false
unfolding starts_with first_byte
other_first c p [] b h ne = refl
other_first c p (d ∷ s) b h ne = ground arith

other_zip :
    (s : List ℕ) (b : ℕ)
    → first_byte s ≡ some b
    → b ≢ 80
    → any (λ signature. starts_with signature s) zip_signatures ≡ false
other_zip s b h ne =
    rw
      (
        other_first 80 (75 ∷ 3 ∷ 4 ∷ []) s b h ne,
        other_first 80 (75 ∷ 5 ∷ 6 ∷ []) s b h ne,
        other_first 80 (75 ∷ 7 ∷ 8 ∷ []) s b h ne,
      )
      refl

differ : (d e : DetectedFileType) → length d.mime_type ≢ length e.mime_type → d ≢ e
differ d e ne h = ne (ap (λ (t : DetectedFileType). length t.mime_type) h)

-- The tests exclude each other, so that the order in which the code tries them does not matter:
-- each type is the answer exactly where its own test holds.
pub detect_file_type_iff :
    (sample : List ℕ)
    → ((detect_file_type sample ≡ some pe) ↔ (looks_like_pe sample ≡ true))
      × ((detect_file_type sample ≡ some msi) ↔ (starts_with compound_file_signature sample ≡ true))
      × ((detect_file_type sample ≡ some seven_zip)
          ↔ (starts_with seven_zip_signature sample ≡ true))
      × ((detect_file_type sample ≡ some zip)
          ↔ (any (λ signature. starts_with signature sample) zip_signatures ≡ true))
unfolding detect_file_type
detect_file_type_iff sample =
    first_of_iff pe msi seven_zip zip (looks_like_pe sample)
      (starts_with compound_file_signature sample) (starts_with seven_zip_signature sample)
      (any (λ signature. starts_with signature sample) zip_signatures)
      (λ e. differ _ _ (omega arith) e) (λ e. differ _ _ (omega arith) e)
      (λ e. differ _ _ (omega arith) e) (λ e. differ _ _ (omega arith) e)
      (λ e. differ _ _ (omega arith) e) (λ e. differ _ _ (omega arith) e)
      (λ h.
        let byte = looks_like_pe-first_byte sample h in
        (
          other_first _ _ _ 77 byte (omega arith),
          other_first _ _ _ 77 byte (omega arith),
          other_zip sample 77 byte (omega arith),
        ))
      (λ h.
        let byte = starts_with-first_byte _ _ sample h in
        (other_first _ _ _ 208 byte (omega arith), other_zip sample 208 byte (omega arith)))
      (λ h. other_zip sample 55 (starts_with-first_byte _ _ sample h) (omega arith))
