-- ===== src/Http/Call.antt =====
-- `post_json` of src/evenkeel/infrastructure/adapters/http/transport.py around the attempts, and
-- `HttpRiskAssessment.assess` of risk.py. The bulkhead, the session and the metrics are given. How
-- long a call took is left out of the metric, and log lines are left out.
pub mod Leased
use evenkeel.Prelude.{
  ℕ, Bool, true, false, Option, none, some, List, [], ◌∷◌, ◌++◌, ◌==◌, if◌then◌else◌,
}
use evenkeel.Prelude.Int.{ℤ}
use evenkeel.Prelude.Text.{Text, codes, text_eq}
use evenkeel.Prelude.Dict.{Dict, insert}
use evenkeel.Domain.Errors.{Result, ok, err}
use evenkeel.Domain.Decimal.{Number}
use evenkeel.Domain.Uuid.{uuid_text}
use evenkeel.Domain.Ledger.{LedgerDirection, credit, debit, strip_left, strip_right}
use evenkeel.Ports.{BulkheadPolicy, RiskCheck, RiskDecision}
use evenkeel.Application.Action.{Action, pure, tell, finally, ◌>>=◌, ◌>>◌}
use evenkeel.Http.Transport.{
  TransportPolicy, Session, JsonResponse, Failure, no_failure, bulkhead_full, failed, attempt_loop,
}
use evenkeel.Http.Risk.{Body, failure_value, assess_response}

-- The rest of `TransportPolicy`.
pub record CallPolicy : Type 0 where
  pub service : Text
  pub bulkhead_limit : ℕ
  pub bulkhead_wait : ℕ
  pub bulkhead_lease_ttl : ℕ
  pub transport : TransportPolicy

-- `BulkheadPort`: entering a lease says whether it was acquired, and leaving is told.
pub record BulkheadPort (W : Type 0) : Type 0 where
  pub enter : BulkheadPolicy → Action W Bool
  pub exit : BulkheadPolicy → Bool → Action W (Unit {0})

-- A JSON object of texts, where `none` is null.
abbrev pub Payload : Type 0
Payload = List (Text × Option Text)

abbrev is_slash : ℕ → Bool
is_slash c = c == 47

-- `base_url.rstrip("/")`, a slash and `path.lstrip("/")`.
unfoldable pub url_of : Text → Text → Text
url_of base path = strip_right is_slash base ++ (47 ∷ strip_left is_slash path)

-- `_headers`, by the correlation id in the context.
unfoldable pub headers : Dict Text Text → Option Text → Dict Text Text
headers default none = default
headers default (some []) = default
headers default (some (c ∷ id)) = insert (codes "X-Correlation-ID") (c ∷ id) default

-- `_outcome_label`
unfoldable pub outcome_label : {B : Type 0} → JsonResponse B → Text
outcome_label r = label r.failure
  where
    label : Failure → Text
    label no_failure = codes "success"
    label failure = failure_value failure

unfoldable pub bulkhead_policy : CallPolicy → BulkheadPolicy
bulkhead_policy policy = record {
  name = codes "outbound:" ++ policy.service;
  limit = policy.bulkhead_limit;
  lease_ttl = policy.bulkhead_lease_ttl;
  wait_timeout = policy.bulkhead_wait;
  retry_interval = 50;
}

module _ {W B : Type 0} (bulkhead : BulkheadPort W)
    (session : Text → Dict Text Text → Payload → Session W)
    (observe_external_call : Text → Text → Text → W → W) (policy : CallPolicy) (base_url : Text)
    (default_headers : Dict Text Text) (correlation_id : Option Text) (parse : Text → Option ℤ)
    (decode : Text → Option B) where
  -- `_attempt_loop`, at the address of the path.
  unfoldable pub attempted : Text → Payload → Action W (JsonResponse B)
  unfolding url_of headers
  attempted path payload w =
      let to = session (url_of base_url path) (headers default_headers correlation_id) payload in
      let (r, w') = attempt_loop to policy.transport parse decode w in (ok r, w')

  -- Inside the `async with` of a lease.
  unfoldable pub under_lease : Text → Payload → Bool → Action W (JsonResponse B)
  unfolding attempted
  under_lease path payload false = pure (failed none bulkhead_full)
  under_lease path payload true = attempted path payload

  -- `_guarded_post`
  unfoldable pub guarded_post : Text → Payload → Action W (JsonResponse B)
  unfolding bulkhead_policy under_lease
  guarded_post path payload = do
    acquired ← bulkhead.enter (bulkhead_policy policy)
    finally (under_lease path payload acquired) (bulkhead.exit (bulkhead_policy policy) acquired)

  -- `post_json`
  unfoldable pub post_json : Text → Text → Payload → Action W (JsonResponse B)
  unfolding guarded_post outcome_label
  post_json operation path payload = do
    response ← guarded_post path payload
    tell (observe_external_call policy.service operation (outcome_label response))
    pure response

direction_value : LedgerDirection → Text
direction_value credit = codes "credit"
direction_value debit = codes "debit"

-- What is asked of the provider; `print` is `str` of a decimal.
unfoldable pub risk_payload : (Number → Text) → RiskCheck → Payload
unfolding direction_value
risk_payload print check =
    (codes "wallet_id", some (uuid_text check.wallet_id))
    ∷ (codes "owner_id", some (uuid_text check.owner_id))
    ∷ (codes "amount", some (print check.amount.amount))
    ∷ (codes "currency", some check.amount.currency.value)
    ∷ (codes "direction", some (direction_value check.direction))
    ∷ (codes "idempotency_key", check.idempotency_key)
    ∷ []

module _ {W : Type 0} (post : Text → Text → Payload → Action W (JsonResponse Body))
    (print : Number → Text) (path : Text) where
  -- `HttpRiskAssessment.assess`
  unfoldable pub assess : RiskCheck → Action W RiskDecision
  unfolding risk_payload
  assess check = do
    response ← post (codes "assess") path (risk_payload print check)
    pure (assess_response response)
