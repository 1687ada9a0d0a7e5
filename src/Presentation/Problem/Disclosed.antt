-- ===== src/Presentation/Problem/Disclosed.antt =====
-- What the answers of src/evenkeel/presentation/http/errors.py disclose.
use Prim.Native.String.{String}
use evenkeel.Prelude.{
  ◌≤◌, ◌≡◌, refl, true, Option, none, some, [], ◌∷◌, filter, All, Bool-cases, inl, inr, arith,
}
use evenkeel.Prelude.Text.{Text, codes}
use evenkeel.Domain.Errors.{
  Error, Value, Context, DomainError, DomainErrorCode, ErrorClass, domain, application, driver,
  default_status_code,
}
use evenkeel.Logging.{is_in}
use evenkeel.Presentation.Problem.{
  Request, Details, of_error, of_validation, problem, given, handle_error, domain_status,
  domain_context_fields, is_published, correlation_id, correlation_of, truthy,
}

abbrev pub IsPublished : String × Value → Type 0
IsPublished (key, value) = is_in (codes key) domain_context_fields ≡ true

filter-IsPublished : (context : Context) → All IsPublished (filter is_published context)
filter-IsPublished [] = tt
filter-IsPublished ((key, value) ∷ context) =
    let rest = filter-IsPublished context in
    elim (Bool-cases (is_in (codes key) domain_context_fields)) [
      | inl published ↦ rw published (published, rest)
      | inr other ↦ rw other rest
    ]

-- The details that an error is answered with: a use case's own, the published ones of a domain
-- error, and none of anything else.
abbrev pub Discloses : {V : Type 0} → Error → Option (Details V) → Type 0
Discloses (application e) d = d ≡ given e.details
Discloses (domain e) none = Unit {0}
Discloses (domain e) (some (of_error context)) = All IsPublished context
Discloses (domain e) (some (of_validation errors)) = ⊥
Discloses (driver name) d = d ≡ none

domain-Discloses :
    (V : Type 0) (e : DomainError) (context : Context)
    → All IsPublished context
    → Discloses {V = V} (domain e) (given context)
unfolding given
domain-Discloses V e [] h = tt
domain-Discloses V e (kv ∷ context) h = h

class_bounds : (c : ErrorClass) → (400 ≤ default_status_code c) × (default_status_code c ≤ 503)
unfolding default_status_code
class_bounds c = ground arith

domain_bounds : (c : DomainErrorCode) → (400 ≤ domain_status c) × (domain_status c ≤ 503)
unfolding domain_status
domain_bounds c = ground arith

-- The id that a request is known by, if it is not empty: the one of its scope, or else the one of
-- the context.
abbrev pub Names : Option Text → Option Text → Option Text → Type 0
Names (some (c ∷ s)) context_id shown = shown ≡ some (c ∷ s)
Names (some []) context_id shown = shown ≡ none
Names none (some (c ∷ s)) shown = shown ≡ some (c ∷ s)
Names none (some []) shown = shown ≡ none
Names none none shown = shown ≡ none

truthy-Names :
    (scope_id context_id : Option Text)
    → Names scope_id context_id (truthy (correlation_of scope_id context_id))
unfolding truthy correlation_of
truthy-Names (some (c ∷ s)) context_id = refl
truthy-Names (some []) context_id = refl
truthy-Names none (some (c ∷ s)) = refl
truthy-Names none (some []) = refl
truthy-Names none none = refl

-- Every error is answered with an error status, the same in the status line and in the document,
-- for the request's path, and with the request's correlation id, where it has one, in both the
-- header and the document; of a domain error's
-- context only the published fields are shown, and of an error that no handler knows, nothing.
pub handle_error-Discloses :
    (V : Type 0) (e : Error) (request : Request)
    → let response = handle_error {V = V} e request in
      ((400 ≤ response.status_code) × (response.status_code ≤ 503))
      × (response.content.status ≡ response.status_code)
      × (response.content.instance_path ≡ request.path)
      × Names request.scope_id request.context_id response.correlation_header
      × Names request.scope_id request.context_id response.content.correlation_id
      × Discloses e response.content.details
unfolding handle_error problem correlation_id
handle_error-Discloses V (application e) request = (
  class_bounds e.kind,
  refl,
  refl,
  truthy-Names request.scope_id request.context_id,
  truthy-Names request.scope_id request.context_id,
  refl,
)
handle_error-Discloses V (domain e) request = (
  domain_bounds e.code,
  refl,
  refl,
  truthy-Names request.scope_id request.context_id,
  truthy-Names request.scope_id request.context_id,
  domain-Discloses V e (filter is_published e.context) (filter-IsPublished e.context),
)
handle_error-Discloses V (driver name) request = (
  (ground arith, ground arith),
  refl,
  refl,
  truthy-Names request.scope_id request.context_id,
  truthy-Names request.scope_id request.context_id,
  refl,
)
