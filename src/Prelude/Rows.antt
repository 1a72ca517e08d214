-- ===== src/Prelude/Rows.antt =====
-- A table is the list of its rows; each row has a numeric primary key.
use Prim.Native.Nat.{ℕ}
use mathlib.Core.Path.{◌≡◌, refl}
use mathlib.Core.Logic.{◌≢◌}
use mathlib.Core.Bool.{Bool, true, false}
use mathlib.Core.Option.{Option, none, some}
use mathlib.Core.List.{List, [], ◌∷◌, ◌++◌, map}
use mathlib.Core.Option
use native.Mathlib.Omega.{arith}
use software_hub.Prelude.Tests.{if◌then◌else◌, nat_beq}

module _ {ℓ} {A : Type ℓ} where
  -- The first row that passes the test.
  abbrev pub find : (A → Bool) → List A → Option A
  find p [] = none
  find p (x ∷ xs) = if p x then some x else find p xs

  abbrev pub filter_rows : (A → Bool) → List A → List A
  filter_rows p [] = []
  filter_rows p (x ∷ xs) = let rest = filter_rows p xs in if p x then x ∷ rest else rest

module _ {ℓ} {A : Type ℓ} (id_of : A → ℕ) where
  abbrev pub get_row : ℕ → List A → Option A
  get_row i [] = none
  get_row i (x ∷ xs) = if nat_beq (id_of x) i then some x else get_row i xs

  -- An UPDATE of the row with this key.
  abbrev pub set_row : ℕ → A → List A → List A
  set_row i a [] = []
  set_row i a (x ∷ xs) = (if nat_beq (id_of x) i then a else x) ∷ set_row i a xs

  abbrev pub delete_row : ℕ → List A → List A
  delete_row i [] = []
  delete_row i (x ∷ xs) =
      let rest = delete_row i xs in if nat_beq (id_of x) i then rest else x ∷ rest

  pub get_row-id : (i : ℕ) (xs : List A) (a : A) → get_row i xs ≡ some a → id_of a ≡ i
  get_row-id i [] a h = cc
  get_row-id i (x ∷ xs) a h = ground (arith, get_row-id i xs a)

  pub get_row-set_row_self :
      (i : ℕ) (a : A) (xs : List A) (old : A)
      → id_of a ≡ i
      → get_row i xs ≡ some old
      → get_row i (set_row i a xs) ≡ some a
  get_row-set_row_self i a [] old e h = cc
  get_row-set_row_self i a (x ∷ xs) old e h = ground (arith, get_row-set_row_self i a xs old)

  pub get_row-set_row_ne :
      (i j : ℕ) (a : A) (xs : List A)
      → id_of a ≡ i
      → i ≢ j
      → get_row j (set_row i a xs) ≡ get_row j xs
  get_row-set_row_ne i j a [] e h = refl
  get_row-set_row_ne i j a (x ∷ xs) e h = ground (arith, get_row-set_row_ne i j a xs)

  pub get_row-delete_row_self : (i : ℕ) (xs : List A) → get_row i (delete_row i xs) ≡ none
  get_row-delete_row_self i [] = refl
  get_row-delete_row_self i (x ∷ xs) = ground (arith, get_row-delete_row_self i xs)

  pub get_row-delete_row_ne :
      (i j : ℕ) (xs : List A) → i ≢ j → get_row j (delete_row i xs) ≡ get_row j xs
  get_row-delete_row_ne i j [] h = refl
  get_row-delete_row_ne i j (x ∷ xs) h = ground (arith, get_row-delete_row_ne i j xs)

  abbrev replaced : A → Option A → Option A
  replaced a none = none
  replaced a (some _) = some a

  pub get_row-set_row :
      (i j : ℕ) (a : A) (xs : List A)
      → id_of a ≡ i
      → get_row j (set_row i a xs)
        ≡ (if nat_beq i j then replaced a (get_row j xs) else get_row j xs)
  get_row-set_row i j a [] e = ground arith
  get_row-set_row i j a (x ∷ xs) e = ground (arith, get_row-set_row i j a xs)

  -- A bulk UPDATE that leaves the keys alone.
  pub get_row-map :
      (f : A → A)
      → ((a : A) → id_of (f a) ≡ id_of a)
      → (i : ℕ) (xs : List A) → get_row i (map f xs) ≡ Option.map f (get_row i xs)
  get_row-map f keeps i [] = refl
  get_row-map f keeps i (x ∷ xs) = ground (arith, keeps x, get_row-map f keeps i xs)

  pub get_row-append :
      (i : ℕ) (xs : List A) (a : A)
      → get_row i (xs ++ a ∷ []) ≡ elim (get_row i xs) [
        | some x ↦ some x
        | none ↦ if nat_beq (id_of a) i then some a else none
      ]
  get_row-append i [] a = ground arith
  get_row-append i (x ∷ xs) a = ground (arith, get_row-append i xs a)

  -- No two rows share their key.
  abbrev pub DistinctKeys : List A → Type ℓ
  DistinctKeys [] = Unit
  DistinctKeys (x ∷ xs) = (get_row (id_of x) xs ≡ none) × DistinctKeys xs

  pub set_row-DistinctKeys :
      (i : ℕ) (a : A) (xs : List A) → id_of a ≡ i → DistinctKeys xs → DistinctKeys (set_row i a xs)
  set_row-DistinctKeys i a [] e d = tt
  set_row-DistinctKeys i a (x ∷ xs) e d = ground (
    arith,
    set_row-DistinctKeys i a xs e d.1,
    get_row-set_row i (id_of x) a xs e,
    get_row-set_row i i a xs e,
  )

  pub map-DistinctKeys :
      (f : A → A)
      → ((a : A) → id_of (f a) ≡ id_of a)
      → (xs : List A) → DistinctKeys xs
      → DistinctKeys (map f xs)
  map-DistinctKeys f keeps [] d = tt
  map-DistinctKeys f keeps (x ∷ xs) d =
      ground (arith, keeps x, get_row-map f keeps (id_of x) xs, map-DistinctKeys f keeps xs d.1)

  pub append-DistinctKeys :
      (xs : List A) (a : A)
      → get_row (id_of a) xs ≡ none
      → DistinctKeys xs
      → DistinctKeys (xs ++ a ∷ [])
  append-DistinctKeys [] a free d = (refl, tt)
  append-DistinctKeys (x ∷ xs) a free d =
      ground (arith, get_row-append (id_of x) xs a, append-DistinctKeys xs a)

  pub find-eq-none :
      (p : A → Bool) (j : ℕ) (xs : List A) (b : A)
      → find p xs ≡ none
      → get_row j xs ≡ some b
      → p b ≡ false
  find-eq-none p j [] b h g = cc
  find-eq-none p j (x ∷ xs) b h g = ground (arith, find-eq-none p j xs b)

  get_row-find_ne :
      (p : A → Bool) (x : A) (xs : List A) (a : A)
      → find p xs ≡ some a
      → get_row (id_of x) xs ≡ none
      → id_of x ≢ id_of a
  get_row-find_ne p x [] a h g = cc
  get_row-find_ne p x (y ∷ ys) a h g = ground (arith, get_row-find_ne p x ys a)

  -- With distinct keys, what a search finds is what its key finds.
  pub get_row-find :
      (p : A → Bool) (xs : List A) (a : A)
      → DistinctKeys xs
      → find p xs ≡ some a
      → (p a ≡ true) × (get_row (id_of a) xs ≡ some a)
  get_row-find p [] a d h = cc
  get_row-find p (x ∷ xs) a d h = ground (arith, get_row-find p xs a d.1, get_row-find_ne p x xs a)

  -- A search that finds the old row by a test that its new content passes finds that content.
  pub find-set_row :
      (p : A → Bool) (i : ℕ) (a : A) (xs : List A) (old : A)
      → p a ≡ true
      → find p xs ≡ some old
      → id_of old ≡ i
      → find p (set_row i a xs) ≡ some a
  find-set_row p i a [] old h f e = cc
  find-set_row p i a (x ∷ xs) old h f e = ground (arith, find-set_row p i a xs old)

module _ {ℓ} {A : Type ℓ} where
  pub find-map :
      (p : A → Bool) (f : A → A)
      → ((a : A) → p (f a) ≡ p a)
      → (xs : List A) → find p (map f xs) ≡ Option.map f (find p xs)
  find-map p f same [] = refl
  find-map p f same (x ∷ xs) = ground (arith, same x, find-map p f same xs)

  pub find-filter_rows :
      (p q : A → Bool) (xs : List A) (a : A)
      → find p xs ≡ some a
      → q a ≡ true
      → find p (filter_rows q xs) ≡ some a
  find-filter_rows p q [] a h k = cc
  find-filter_rows p q (x ∷ xs) a h k = ground (arith, find-filter_rows p q xs a)

  pub find-append :
      (p : A → Bool) (xs : List A) (a : A)
      → find p xs ≡ none
      → p a ≡ true
      → find p (xs ++ a ∷ []) ≡ some a
  find-append p [] a h k = ground arith
  find-append p (x ∷ xs) a h k = ground (arith, find-append p xs a)

  pub find-holds : (p : A → Bool) (xs : List A) (a : A) → find p xs ≡ some a → p a ≡ true
  find-holds p [] a h = cc
  find-holds p (x ∷ xs) a h = ground (arith, find-holds p xs a)
