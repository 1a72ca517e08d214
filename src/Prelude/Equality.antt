-- ===== src/Prelude/Equality.antt =====
-- Decidable equality as an instance, for keys, texts and enumerations.
use Prim.Native.Nat.{ℕ}
use mathlib.Core.Path.{◌≡◌, refl, ap}
use mathlib.Core.Logic.{◌↔◌, ◌≢◌, inl, inr}
use mathlib.Core.Bool.{Bool, true, false, ◌&&◌, ◌||◌}
use mathlib.Core.List.{List, [], ◌∷◌}
use native.Mathlib.Omega.{arith}
use software_hub.Prelude.Tests.{nat_beq, nat_beq_iff, Bool-cases}

pub record Eq {ℓ} (Value : Type ℓ) : Type ℓ where
  pub eqb : Value → Value → Bool
  pub eqb_iff : (x y : Value) → (eqb x y ≡ true) ↔ (x ≡ y)

instance abbrev pub nat_eq : Eq ℕ
nat_eq = record { eqb = nat_beq; eqb_iff = nat_beq_iff }

module _ {ℓ} {Value : Type ℓ} ⦃instance_eq : Eq Value⦄ where
  infix 50 ◌==◌ ◌!=◌
  abbrev pub ◌==◌ : Value → Value → Bool
  x == y = instance_eq.eqb x y

  abbrev pub ◌!=◌ : Value → Value → Bool
  x != y = elim (x == y) [ true ↦ false | false ↦ true ]

module _ {ℓ} {A : Type ℓ} ⦃e : Eq A⦄ where
  abbrev pub list_beq : List A → List A → Bool
  list_beq [] [] = true
  list_beq [] (y ∷ ys) = false
  list_beq (x ∷ xs) [] = false
  list_beq (x ∷ xs) (y ∷ ys) = e.eqb x y && list_beq xs ys

  list_beq_sound : (xs ys : List A) → list_beq xs ys ≡ true → xs ≡ ys
  list_beq_sound [] [] h = refl
  list_beq_sound [] (y ∷ ys) h = cc
  list_beq_sound (x ∷ xs) [] h = cc
  list_beq_sound (x ∷ xs) (y ∷ ys) h = ground (arith, (e.eqb_iff x y).0, list_beq_sound xs ys)

  list_beq_refl : (xs : List A) → list_beq xs xs ≡ true
  list_beq_refl [] = refl
  list_beq_refl (x ∷ xs) = ground (arith, (e.eqb_iff x x).1 refl, list_beq_refl xs)

  pub list_beq_iff : (xs ys : List A) → (list_beq xs ys ≡ true) ↔ (xs ≡ ys)
  list_beq_iff xs ys = (list_beq_sound xs ys, λ h. rw h (list_beq_refl ys))

  pub list_beq_unequal : (xs ys : List A) → (xs ≢ ys) → list_beq xs ys ≡ false
  list_beq_unequal xs ys h = elim (Bool-cases (list_beq xs ys)) [
    | inl same ↦ absurd (h (list_beq_sound xs ys same))
    | inr differ ↦ differ
  ]

  abbrev pub contains : List A → A → Bool
  contains [] value = false
  contains (first ∷ rest) value = e.eqb value first || contains rest value

instance abbrev pub list_eq {ℓ} : {A : Type ℓ} ⦃e : Eq A⦄ → Eq (List A)
list_eq = record { eqb = list_beq; eqb_iff = list_beq_iff }

module _ {ℓ} {A : Type ℓ} ⦃e : Eq A⦄ where
  pub eqb_refl : (a : A) → (a == a) ≡ true
  eqb_refl a = (e.eqb_iff a a).1 refl

-- A type with a code for each value.
pub eq_by_code {ℓ} :
    {A : Type ℓ} (rank : A → ℕ)
    → ((a b : A) → rank a ≡ rank b → a ≡ b)
    → (a b : A) → (nat_beq (rank a) (rank b) ≡ true) ↔ (a ≡ b)
eq_by_code rank inj a b =
    (λ h. inj a b ((nat_beq_iff _ _).0 h), λ h. (nat_beq_iff _ _).1 (ap rank h))
