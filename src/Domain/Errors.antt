-- ===== src/Domain/Errors.antt =====
-- Errors of the domain and of the use cases: src/evenkeel/domain/errors.py and
-- src/evenkeel/application/errors.py. A raised exception is the `err` of a result; `driver` is
-- what a library raises past these two classes, by the name of its class.
use Prim.Native.String.{String}
use evenkeel.Prelude.{ℕ, Bool, true, not, ◌||◌, List, if◌then◌else◌}
use evenkeel.Prelude.Text.{Text, codes, text_beq}
use evenkeel.Domain.Decimal.{Decimal}

pub data DomainErrorCode : Type 0 where
  base_class_instantiation identity_is_immutable empty_value_object : DomainErrorCode
  currency_code_invalid money_currency_mismatch money_amount_not_positive : DomainErrorCode
  money_scale_exceeded money_amount_not_finite money_amount_out_of_range : DomainErrorCode
  wallet_insufficient_funds wallet_closed wallet_not_empty wallet_balance_negative : DomainErrorCode

-- What an error's context and details hold. A value that the source prints stands unprinted.
pub data Value : Type 0 where
  decimal : Decimal → Value
  text : Text → Value
  uuid : ℕ → Value
  number : ℕ → Value
  label : String → Value

abbrev pub Context : Type 0
Context = List (String × Value)

pub record DomainError : Type 0 where
  pub code : DomainErrorCode
  pub context : Context

pub data ApplicationErrorCode : Type 0 where
  validation_failed unauthenticated wallet_not_found wallet_version_conflict : ApplicationErrorCode
  wallet_busy idempotency_key_reused movement_refused movement_in_progress : ApplicationErrorCode
  rate_limited dependency_unavailable internal_error : ApplicationErrorCode

-- `APPLICATION_ERROR_MESSAGES`
unfoldable pub error_message : ApplicationErrorCode → String
error_message validation_failed = "Request failed validation"
error_message unauthenticated = "Authentication required"
error_message wallet_not_found = "Wallet not found"
error_message wallet_version_conflict = "Wallet was modified concurrently"
error_message wallet_busy = "Wallet is being modified, retry shortly"
error_message idempotency_key_reused = "Idempotency key was already used with a different payload"
error_message movement_refused = "The movement was refused by risk assessment"
error_message movement_in_progress =
    "A movement with this idempotency key is still running, retry shortly"
error_message rate_limited = "Too many requests"
error_message dependency_unavailable = "A required dependency is unavailable, retry shortly"
error_message internal_error = "Internal server error"

-- The subclasses of `ApplicationError`.
pub data ErrorClass : Type 0 where
  application_error unauthenticated_error validation_error not_found_error : ErrorClass
  forbidden_error conflict_error rate_limited_error dependency_unavailable_error : ErrorClass
  internal_server_error : ErrorClass

-- `default_status_code`
unfoldable pub default_status_code : ErrorClass → ℕ
default_status_code application_error = 422
default_status_code unauthenticated_error = 401
default_status_code validation_error = 422
default_status_code not_found_error = 404
default_status_code forbidden_error = 403
default_status_code conflict_error = 409
default_status_code rate_limited_error = 429
default_status_code dependency_unavailable_error = 503
default_status_code internal_server_error = 500

-- No caller of the program passes a `status_code` of its own, so the class decides it.
pub record ApplicationError : Type 0 where
  pub kind : ErrorClass
  pub code : ApplicationErrorCode
  pub details : Context

pub data Error : Type 0 where
  domain : DomainError → Error
  application : ApplicationError → Error
  driver : String → Error

-- What `except Exception` catches. The classes of Python and of asyncio that it does not catch are
-- those that derive from `BaseException` alone.
unfoldable pub is_exception : Error → Bool
is_exception (domain e) = true
is_exception (application e) = true
is_exception (driver name) = not (
    text_beq (codes name) (codes "CancelledError")
    || text_beq (codes name) (codes "KeyboardInterrupt")
    || text_beq (codes name) (codes "SystemExit")
    || text_beq (codes name) (codes "GeneratorExit")
    || text_beq (codes name) (codes "BaseExceptionGroup"))

pub data Result {ℓ} (A : Type ℓ) : Type ℓ where
  err : Error → Result A
  ok : A → Result A

abbrev pub raise_domain {ℓ} : {A : Type ℓ} → DomainErrorCode → Context → Result A
raise_domain code context = err (domain (record { code = code; context = context }))

abbrev pub raise_application {ℓ} :
    {A : Type ℓ} → ErrorClass → ApplicationErrorCode → Context → Result A
raise_application kind code details =
    err (application (record { kind = kind; code = code; details = details }))

-- `if condition: raise ...`
abbrev pub raise_if : Bool → Result (Unit {0}) → Result (Unit {0})
raise_if condition failure = if condition then failure else ok tt

-- The statements after one that may raise.
module _ {ℓ κ} {A : Type ℓ} {B : Type κ} where
  infixl 5 ◌>>=◌ ◌>>◌
  abbrev pub ◌>>=◌ : Result A → (A → Result B) → Result B
  err e >>= rest = err e
  ok a >>= rest = rest a

  abbrev pub ◌>>◌ : Result A → Result B → Result B
  m >> rest = m >>= λ _. rest
