-- ===== src/Presentation/Problem.antt =====
-- src/evenkeel/presentation/http/errors.py: the problem document that an error is answered with.
-- Log lines are left out.
pub mod Disclosed
use Prim.Native.String.{String}
use evenkeel.Prelude.{
  ℕ, Bool, true, false, ◌||◌, Option, none, some, List, [], ◌∷◌, ◌++◌, ◌==◌, leb, ltb, ◌+◌, ◌-◌,
  ◌&&◌, map, filter, if◌then◌else◌,
}
use evenkeel.Prelude.Text.{Text, codes, text_beq}
use evenkeel.Prelude.Dict.{Dict}
use evenkeel.Domain.Errors
use evenkeel.Domain.Errors.{
  Error, Value, Context, DomainError, DomainErrorCode, ApplicationError, ApplicationErrorCode,
  domain, application, driver, error_message, default_status_code,
}
use evenkeel.Logging.{Shown, is_in, allowlisted}

-- The values of `ApplicationErrorCode`.
unfoldable pub code_value : ApplicationErrorCode → String
code_value Errors.validation_failed = "VALIDATION_FAILED"
code_value Errors.unauthenticated = "UNAUTHENTICATED"
code_value Errors.wallet_not_found = "WALLET_NOT_FOUND"
code_value Errors.wallet_version_conflict = "WALLET_VERSION_CONFLICT"
code_value Errors.wallet_busy = "WALLET_BUSY"
code_value Errors.idempotency_key_reused = "IDEMPOTENCY_KEY_REUSED"
code_value Errors.movement_refused = "MOVEMENT_REFUSED"
code_value Errors.movement_in_progress = "MOVEMENT_IN_PROGRESS"
code_value Errors.rate_limited = "RATE_LIMITED"
code_value Errors.dependency_unavailable = "DEPENDENCY_UNAVAILABLE"
code_value Errors.internal_error = "INTERNAL_ERROR"

-- The values of `DomainErrorCode`.
unfoldable pub domain_code_value : DomainErrorCode → String
domain_code_value Errors.base_class_instantiation = "BASE_CLASS_INSTANTIATION"
domain_code_value Errors.identity_is_immutable = "IDENTITY_IS_IMMUTABLE"
domain_code_value Errors.empty_value_object = "EMPTY_VALUE_OBJECT"
domain_code_value Errors.currency_code_invalid = "CURRENCY_CODE_INVALID"
domain_code_value Errors.money_currency_mismatch = "MONEY_CURRENCY_MISMATCH"
domain_code_value Errors.money_amount_not_positive = "MONEY_AMOUNT_NOT_POSITIVE"
domain_code_value Errors.money_scale_exceeded = "MONEY_SCALE_EXCEEDED"
domain_code_value Errors.money_amount_not_finite = "MONEY_AMOUNT_NOT_FINITE"
domain_code_value Errors.money_amount_out_of_range = "MONEY_AMOUNT_OUT_OF_RANGE"
domain_code_value Errors.wallet_insufficient_funds = "WALLET_INSUFFICIENT_FUNDS"
domain_code_value Errors.wallet_closed = "WALLET_CLOSED"
domain_code_value Errors.wallet_not_empty = "WALLET_NOT_EMPTY"
domain_code_value Errors.wallet_balance_negative = "WALLET_BALANCE_NEGATIVE"

-- `str.lower` and `str.upper` of a character of a code.
abbrev pub lower : ℕ → ℕ
lower c = if leb 65 c && leb c 90 then c + 32 else c

abbrev upper : ℕ → ℕ
upper c = if leb 97 c && leb c 122 then c - 32 else c

abbrev spaced : ℕ → ℕ
spaced c = if c == b'_' then b' ' else c

-- `str.capitalize`, of such a text.
capitalize : Text → Text
capitalize [] = []
capitalize (c ∷ s) = upper c ∷ map lower s

-- `code.value.replace("_", " ").capitalize()`
unfoldable pub sentence : Text → Text
unfolding capitalize
sentence code = capitalize (map spaced code)

-- What `problem` reads of a request: its path, the id on its scope and the one of the context.
pub record Request : Type 0 where
  pub path : Text
  pub scope_id : Option Text
  pub context_id : Option Text

-- The details of a problem: those of an error, or of a validation.
pub data Details (V : Type 0) : Type 0 where
  of_error : Context → Details V
  of_validation : List (Dict Text (Shown V)) → Details V

pub record Body (V : Type 0) : Type 0 where
  pub type_uri : Text
  pub title : Text
  pub status : ℕ
  pub code : Text
  pub instance_path : Text
  pub correlation_id : Option Text
  pub details : Option (Details V)

-- The response, with the header that it carries the correlation id in.
pub record Response (V : Type 0) : Type 0 where
  pub status_code : ℕ
  pub content : Body V
  pub correlation_header : Option Text

-- `_correlation_id`
correlation_of : Option Text → Option Text → Option Text
correlation_of none from_context = from_context
correlation_of (some s) from_context = some s

-- `if correlation_id`
truthy : Option Text → Option Text
truthy none = none
truthy (some []) = none
truthy (some (c ∷ s)) = some (c ∷ s)

unfoldable pub correlation_id : Request → Option Text
unfolding correlation_of
correlation_id request = correlation_of request.scope_id request.context_id

-- `if details`
unfoldable pub given : {V : Type 0} → Context → Option (Details V)
given [] = none
given (kv ∷ details) = some (of_error (kv ∷ details))

-- `problem`
unfoldable pub problem : {V : Type 0} → ℕ → Text → Text → Request → Option (Details V) → Response V
unfolding correlation_id truthy
problem status code title request details = record {
  status_code = status;
  content = record {
    type_uri = codes "about:blank#" ++ map lower code;
    title = title;
    status = status;
    code = code;
    instance_path = request.path;
    correlation_id = truthy (correlation_id request);
    details = details;
  };
  correlation_header = truthy (correlation_id request);
}

-- `DOMAIN_CONTEXT_FIELDS`
abbrev pub domain_context_fields : List Text
domain_context_fields =
    codes "wallet_id"
    ∷ codes "balance"
    ∷ codes "requested"
    ∷ codes "left"
    ∷ codes "right"
    ∷ codes "max"
    ∷ codes "max_scale"
    ∷ []

abbrev is_published : String × Value → Bool
is_published (key, value) = is_in (codes key) domain_context_fields

-- `DOMAIN_STATUS_OVERRIDES.get(code, 422)`
unfoldable pub domain_status : DomainErrorCode → ℕ
domain_status Errors.wallet_insufficient_funds = 409
domain_status Errors.wallet_closed = 409
domain_status Errors.wallet_not_empty = 409
domain_status _ = 422

-- `handle_application_error`, `handle_domain_error` and `handle_unexpected`, the last for what a
-- library raises.
unfoldable pub handle_error : {V : Type 0} → Error → Request → Response V
unfolding code_value domain_code_value sentence problem given domain_status
handle_error (application e) request =
    problem (default_status_code e.kind) (codes (code_value e.code)) (codes (error_message e.code))
      request (given e.details)
handle_error (domain e) request =
    problem (domain_status e.code) (codes (domain_code_value e.code))
      (sentence (codes (domain_code_value e.code))) request (given (filter is_published e.context))
handle_error (driver name) request =
    problem 500 (codes "INTERNAL_ERROR") (codes "Internal server error") request none

-- `VALIDATION_ERROR_FIELDS`
abbrev pub validation_error_fields : List Text
validation_error_fields = codes "loc" ∷ codes "msg" ∷ codes "type" ∷ []

-- `handle_request_validation`, of the errors that the validation library reports.
unfoldable pub handle_request_validation : {V : Type 0} → List (Dict Text V) → Request → Response V
unfolding problem
handle_request_validation errors request =
    problem 422 (codes "VALIDATION_FAILED") (codes "Request failed validation") request (
      some (
        of_validation (
          map (λ error. allowlisted (λ key. is_in key validation_error_fields) (some error) 20)
            errors)))
