-- ===== src/Io.antt =====
-- Code that acts on the outside: a method takes the state that it acts on and gives how it ended
-- with the state that it left, also where it raises, since nothing undoes what it did before.
pub mod Rules
use software_hub.Prelude.{Bool, true, false, Option, none, some}
use software_hub.Errors.{ApplicationError, Result, ok, err}

-- An `ApplicationError`, or an exception of a library that nothing has translated yet.
pub data Raised : Type 0 where
  application : ApplicationError → Raised
  os_error database_error : Raised

pub data Outcome {ℓ} (A : Type ℓ) : Type ℓ where
  returned : A → Outcome A
  raised : Raised → Outcome A

abbrev pub Io {ℓ} : Type ℓ → Type ℓ → Type ℓ
Io S A = S → Outcome A × S

-- What follows a statement: the next one where it returned, nothing where it raised.
abbrev pub continue {ℓ} : {S A B : Type ℓ} → Outcome A × S → (A → Io S B) → Outcome B × S
continue (returned a, s) next = next a s
continue (raised e, s) next = (raised e, s)

infixl 5 ◌>>=◌
abbrev pub ◌>>=◌ {ℓ} : {S A B : Type ℓ} → Io S A → (A → Io S B) → Io S B
(m >>= next) s = continue (m s) next

infixl 5 ◌>>◌
abbrev pub ◌>>◌ {ℓ} : {S A B : Type ℓ} → Io S A → Io S B → Io S B
(m >> next) s = continue (m s) (λ _. next)

abbrev pub return {ℓ} : {S A : Type ℓ} → A → Io S A
return a s = (returned a, s)

abbrev pub raise {ℓ} : {S A : Type ℓ} → Raised → Io S A
raise e s = (raised e, s)

-- `except Exception as exc: handler`
abbrev pub handle {ℓ} : {S A : Type ℓ} → Outcome A × S → (Raised → Io S A) → Outcome A × S
handle (returned a, s) handler = (returned a, s)
handle (raised e, s) handler = handler e s

abbrev pub try {ℓ} : {S A : Type ℓ} → Io S A → (Raised → Io S A) → Io S A
try m handler s = handle (m s) handler

-- A check that raises an application error.
unfoldable pub lift : {S A : Type 0} → Result A → Io S A
lift (ok a) s = (returned a, s)
lift (err e) s = (raised (Raised.application e), s)

unfoldable pub raise_when : {S : Type 0} → Bool → ApplicationError → Io S (Unit {0})
raise_when true e s = (raised (Raised.application e), s)
raise_when false e s = (returned tt, s)

-- A library call that returns a value, or `none` for an `OSError`, and what becomes of that.
abbrev pub or_else_raise : {S A : Type 0} → Option A × S → Raised → Outcome A × S
or_else_raise (some a, s) e = (returned a, s)
or_else_raise (none, s) e = (raised e, s)

unfoldable pub call : {S A : Type 0} → (S → Option A × S) → Raised → Io S A
call op e s = or_else_raise (op s) e

-- A library call that never raises.
unfoldable pub ask : {S A : Type 0} → (S → A × S) → Io S A
ask op s = let (a, s') = op s in (returned a, s')
