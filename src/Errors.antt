-- ===== src/Errors.antt =====
-- core/exceptions.py: the typed application errors and their HTTP meaning. A function that may
-- raise returns a `Result`; `Raised` adds the exceptions that are no application errors.
use software_hub.Prelude.{
  ℕ, String, ◌≡◌, refl, ◌⊎◌, inl, inr, Bool, true, false, Option, none, some, arith,
}

-- Each subclass of `ApplicationError`, with its public message.
pub data ApplicationError : Type 0 where
  entity_not_found permission_denied entity_conflict payload_too_large : String → ApplicationError
  validation_error invalid_state_transition file_validation_error : String → ApplicationError
  storage_error duplicate_file authentication_error csrf_error : String → ApplicationError
  service_unavailable rate_limit_error : String → ApplicationError

pub data ErrorCode : Type 0 where
  bad_request authentication_required permission_denied not_found conflict : ErrorCode
  payload_too_large validation_error rate_limited internal_error : ErrorCode
  service_unavailable invalid_state_transition file_validation_error storage_error : ErrorCode
  duplicate_file authentication_error csrf_error : ErrorCode

unfoldable pub status_code : ApplicationError → ℕ
status_code (ApplicationError.entity_not_found _) = 404
status_code (ApplicationError.permission_denied _) = 403
status_code (ApplicationError.entity_conflict _) = 409
status_code (ApplicationError.payload_too_large _) = 413
status_code (ApplicationError.validation_error _) = 422
status_code (ApplicationError.invalid_state_transition _) = 409
status_code (ApplicationError.file_validation_error _) = 422
status_code (ApplicationError.storage_error _) = 503
status_code (ApplicationError.duplicate_file _) = 409
status_code (ApplicationError.authentication_error _) = 401
status_code (ApplicationError.csrf_error _) = 403
status_code (ApplicationError.service_unavailable _) = 503
status_code (ApplicationError.rate_limit_error _) = 429

unfoldable pub error_code : ApplicationError → ErrorCode
error_code (ApplicationError.entity_not_found _) = ErrorCode.not_found
error_code (ApplicationError.permission_denied _) = ErrorCode.permission_denied
error_code (ApplicationError.entity_conflict _) = ErrorCode.conflict
error_code (ApplicationError.payload_too_large _) = ErrorCode.payload_too_large
error_code (ApplicationError.validation_error _) = ErrorCode.validation_error
error_code (ApplicationError.invalid_state_transition _) = ErrorCode.invalid_state_transition
error_code (ApplicationError.file_validation_error _) = ErrorCode.file_validation_error
error_code (ApplicationError.storage_error _) = ErrorCode.storage_error
error_code (ApplicationError.duplicate_file _) = ErrorCode.duplicate_file
error_code (ApplicationError.authentication_error _) = ErrorCode.authentication_error
error_code (ApplicationError.csrf_error _) = ErrorCode.csrf_error
error_code (ApplicationError.service_unavailable _) = ErrorCode.service_unavailable
error_code (ApplicationError.rate_limit_error _) = ErrorCode.rate_limited

-- What a method returns or raises.
pub data Result {ℓ} (Value : Type ℓ) : Type ℓ where
  err : ApplicationError → Result Value
  ok : Value → Result Value

infixl 5 ◌>>=◌
abbrev pub ◌>>=◌ {ℓ κ} :
    {Value : Type ℓ} {Next : Type κ} → Result Value → (Value → Result Next) → Result Next
err raised >>= next = err raised
ok value >>= next = next value

infixl 5 ◌>>◌
abbrev pub ◌>>◌ {ℓ} : {Next : Type ℓ} → Result (Unit {0}) → Result Next → Result Next
err raised >> next = err raised
ok _ >> next = next

-- `if condition: raise error`
abbrev pub raise_if : Bool → ApplicationError → Result (Unit {0})
raise_if true e = err e
raise_if false e = ok tt

-- `if value is None: raise error`
abbrev pub or_raise {ℓ} : {A : Type ℓ} → Option A → ApplicationError → Result A
or_raise none e = err e
or_raise (some a) e = ok a

abbrev pub is_ok {ℓ} : {A : Type ℓ} → Result A → Bool
is_ok (ok a) = true
is_ok (err e) = false

pub >>=-eq-ok {ℓ κ} :
    {Value : Type ℓ} {Next : Type κ} (r : Result Value) (next : Value → Result Next) {final : Next}
    → (r >>= next) ≡ ok final
    → (value : Value) × (r ≡ ok value) × (next value ≡ ok final)
>>=-eq-ok (err raised) next h = cc
>>=-eq-ok (ok value) next h = (value, refl, h)

pub raise_if-eq-ok :
    (b : Bool) (e : ApplicationError) {u : Unit {0}} → raise_if b e ≡ ok u → b ≡ false
raise_if-eq-ok b e h = ground arith

pub or_raise-eq-ok {ℓ} :
    {A : Type ℓ} (o : Option A) (e : ApplicationError) {a : A} → or_raise o e ≡ ok a → o ≡ some a
or_raise-eq-ok none e h = cc
or_raise-eq-ok (some x) e h = cc

pub Result-cases {ℓ} :
    {A : Type ℓ} (r : Result A) → ((a : A) × (r ≡ ok a)) ⊎ ((e : ApplicationError) × (r ≡ err e))
Result-cases (ok a) = inl (a, refl)
Result-cases (err e) = inr (e, refl)
