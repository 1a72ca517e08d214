-- ===== src/Io/Rules.antt =====
-- Rules on how a method ends: a postcondition for a returned value, one for what is raised.
use software_hub.Prelude.{◌≡◌, refl, ◌∙◌, Bool, true, false, Option, none, some}
use software_hub.Errors.{ApplicationError, Result, ok, err}
use software_hub.Io.{
  Raised, Outcome, returned, raised, Io, continue, handle, or_else_raise, lift, raise_when, call,
  ask,
}

pub data Ends {ℓ κ} {S A : Type ℓ} (P : A → S → Type κ) (Q : Raised → S → Type κ)
    : Outcome A × S → Type (ℓ ⊔ κ) where
  returns : (a : A) (s : S) → P a s → Ends P Q (returned a, s)
  raises : (e : Raised) (s : S) → Q e s → Ends P Q (raised e, s)

module _ {ℓ κ} {S A : Type ℓ} where
  pub Ends-continue :
      {B : Type ℓ} {P' : A → S → Type κ} {P : B → S → Type κ} {Q : Raised → S → Type κ}
      {r : Outcome A × S} {next : A → Io S B}
      → Ends P' Q r
      → ((a : A) (s : S) → P' a s → Ends P Q (next a s))
      → Ends P Q (continue r next)
  Ends-continue (returns a s p) k = k a s p
  Ends-continue (raises e s q) k = raises e s q

  pub Ends-handle :
      {P : A → S → Type κ} {Q' Q : Raised → S → Type κ} {r : Outcome A × S}
      {handler : Raised → Io S A}
      → Ends P Q' r
      → ((e : Raised) (s : S) → Q' e s → Ends P Q (handler e s))
      → Ends P Q (handle r handler)
  Ends-handle (returns a s p) k = returns a s p
  Ends-handle (raises e s q) k = k e s q

  pub Ends-weaken :
      {P P' : A → S → Type κ} {Q Q' : Raised → S → Type κ} {r : Outcome A × S}
      → Ends P Q r
      → ((a : A) (s : S) → P a s → P' a s)
      → ((e : Raised) (s : S) → Q e s → Q' e s)
      → Ends P' Q' r
  Ends-weaken (returns a s p) f g = returns a s (f a s p)
  Ends-weaken (raises e s q) f g = raises e s (g e s q)

module _ {κ} {S A : Type 0} {P : A → S → Type κ} {Q : Raised → S → Type κ} where
  Ends-or_else_raise :
      (r : Option A × S) (e : Raised)
      → ((a : A) → r.0 ≡ some a → P a r.1)
      → (r.0 ≡ none → Q e r.1)
      → Ends P Q (or_else_raise r e)
  Ends-or_else_raise (some a, t) e h k = returns a t (h a refl)
  Ends-or_else_raise (none, t) e h k = raises e t (k refl)

  pub Ends-call :
      (op : S → Option A × S) (e : Raised) (s : S)
      → ((a : A) → (op s).0 ≡ some a → P a (op s).1)
      → ((op s).0 ≡ none → Q e (op s).1)
      → Ends P Q (call op e s)
  unfolding call
  Ends-call op e s h k = Ends-or_else_raise (op s) e h k

  pub Ends-ask : (op : S → A × S) (s : S) → P (op s).0 (op s).1 → Ends P Q (ask op s)
  unfolding ask
  Ends-ask op s h = returns _ _ h

  pub Ends-lift :
      (m : Result A) (s : S)
      → ((a : A) → m ≡ ok a → P a s)
      → ((e : ApplicationError) → m ≡ err e → Q (Raised.application e) s)
      → Ends P Q (lift m s)
  unfolding lift
  Ends-lift (ok a) s h k = returns a s (h a refl)
  Ends-lift (err e) s h k = raises _ s (k e refl)

pub Ends-raise_when {κ} :
    {S : Type 0} {P : Unit {0} → S → Type κ} {Q : Raised → S → Type κ} (b : Bool)
    (e : ApplicationError) (s : S)
    → (b ≡ false → P tt s)
    → (b ≡ true → Q (Raised.application e) s)
    → Ends P Q (raise_when b e s)
unfolding raise_when
Ends-raise_when true e s h k = raises _ s (k refl)
Ends-raise_when false e s h k = returns tt s (h refl)

abbrev pub Anything {ℓ} : {S : Type ℓ} → Raised → S → Type 0
Anything e s = Unit

pub Ends-Anything : {S A : Type 0} (r : Outcome A × S) → Ends (λ a s. Unit {0}) Anything r
Ends-Anything (returned a, s) = returns a s tt
Ends-Anything (raised e, s) = raises e s tt

-- A view of the state that a method leaves alone, however it ends.
pub record Keeps {ℓ κ} {S A : Type ℓ} {V : Type κ} (view : S → V) (s : S) (r : Outcome A × S)
    : Type (κ) where
  pub same : view r.1 ≡ view s

module _ {ℓ κ} {S : Type ℓ} {V : Type κ} (view : S → V) where
  pub Keeps-refl : {A : Type ℓ} (s : S) (o : Outcome A) → Keeps view s (o, s)
  Keeps-refl s o = record { same = refl }

  pub Keeps-continue :
      {A B : Type ℓ} (s : S) (r : Outcome A × S) (next : A → Io S B)
      → Keeps view s r
      → ((a : A) (t : S) → Keeps view t (next a t))
      → Keeps view s (continue r next)
  Keeps-continue s (returned a, t) next h k = record { same = (k a t).same ∙ h.same }
  Keeps-continue s (raised e, t) next h k = record { same = h.same }

  pub Keeps-handle :
      {A : Type ℓ} (s : S) (r : Outcome A × S) (handler : Raised → Io S A)
      → Keeps view s r
      → ((e : Raised) (t : S) → Keeps view t (handler e t))
      → Keeps view s (handle r handler)
  Keeps-handle s (returned a, t) handler h k = record { same = h.same }
  Keeps-handle s (raised e, t) handler h k = record { same = (k e t).same ∙ h.same }

module _ {κ} {S : Type 0} {V : Type κ} (view : S → V) where
  pub Keeps-lift : {A : Type 0} (m : Result A) (s : S) → Keeps view s (lift m s)
  unfolding lift
  Keeps-lift (ok a) s = record { same = refl }
  Keeps-lift (err e) s = record { same = refl }

  pub Keeps-raise_when : (b : Bool) (e : ApplicationError) (s : S) → Keeps view s (raise_when b e s)
  unfolding raise_when
  Keeps-raise_when true e s = record { same = refl }
  Keeps-raise_when false e s = record { same = refl }

  pub Keeps-ask :
      {A : Type 0} (op : S → A × S) (s : S) → view (op s).1 ≡ view s → Keeps view s (ask op s)
  unfolding ask
  Keeps-ask op s h = record { same = h }

  Keeps-or_else_raise :
      {A : Type 0} (s : S) (r : Option A × S) (e : Raised)
      → view r.1 ≡ view s
      → Keeps view s (or_else_raise r e)
  Keeps-or_else_raise s (some a, t) e h = record { same = h }
  Keeps-or_else_raise s (none, t) e h = record { same = h }

  pub Keeps-call :
      {A : Type 0} (op : S → Option A × S) (e : Raised) (s : S)
      → view (op s).1 ≡ view s
      → Keeps view s (call op e s)
  unfolding call
  Keeps-call op e s h = Keeps-or_else_raise s (op s) e h

-- What a kept view adds to a postcondition.
pub Ends-Keeps {ℓ κ} :
    {S A : Type ℓ} {V : Type κ} {P : A → S → Type κ} {Q : Raised → S → Type κ} (view : S → V)
    (s : S) (r : Outcome A × S)
    → Ends P Q r
    → Keeps view s r
    → Ends (λ a t. P a t × (view t ≡ view s)) (λ e t. Q e t × (view t ≡ view s)) r
Ends-Keeps view s _ (returns a t p) k = returns a t (p, k.same)
Ends-Keeps view s _ (raises e t q) k = raises e t (q, k.same)

pub Keeps-Ends {ℓ κ} :
    {S A : Type ℓ} {V : Type κ} (view : S → V) (s : S) (r : Outcome A × S)
    → Keeps view s r
    → Ends (λ a t. view t ≡ view s) (λ e t. view t ≡ view s) r
Keeps-Ends view s (returned a, t) k = returns a t k.same
Keeps-Ends view s (raised e, t) k = raises e t k.same
