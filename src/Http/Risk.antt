-- ===== src/Http/Risk.antt =====
-- `HttpRiskAssessment.assess` of src/evenkeel/infrastructure/adapters/http/risk.py, after the call.
pub mod Closed
use evenkeel.Prelude.{
  ℕ, Bool, true, false, not, ◌||◌, Option, none, some, List, [], take, if◌then◌else◌,
}
use evenkeel.Prelude.Text.{Text, codes, text_beq, text_eq}
use evenkeel.Prelude.Dict.{Dict, lookup}
use evenkeel.Ports.{RiskDecision, RiskOutcome, allowed, refused, unavailable}
use evenkeel.Http.Transport.{
  JsonResponse, Failure, is_ok, no_failure, timeout, connection, server_error, client_error,
  oversized, malformed, redirected, bulkhead_full, budget_exhausted,
}

-- A value of a JSON object, as far as the mapping tells values apart.
pub data Json : Type 0 where
  string : Text → Json
  other : Json

abbrev pub Body : Type 0
Body = Dict Text Json

-- `Failure`'s values.
unfoldable pub failure_value : Failure → Text
failure_value no_failure = codes "none"
failure_value timeout = codes "timeout"
failure_value connection = codes "connection"
failure_value server_error = codes "server_error"
failure_value client_error = codes "client_error"
failure_value oversized = codes "oversized"
failure_value malformed = codes "malformed"
failure_value redirected = codes "redirected"
failure_value bulkhead_full = codes "bulkhead_full"
failure_value budget_exhausted = codes "budget_exhausted"

-- `_text`
unfoldable pub prose : Option Json → Text
prose none = []
prose (some other) = []
prose (some (string s)) = take 200 s

-- `decision == "..."`
unfoldable pub says : Text → Option Json → Bool
says word none = false
says word (some other) = false
says word (some (string s)) = text_beq s word

unfoldable pub mapped : RiskOutcome → Body → RiskDecision
unfolding prose
mapped outcome body = record {
  outcome = outcome;
  reason = prose (lookup (codes "reason") body);
  reference = prose (lookup (codes "reference") body);
}

unfoldable pub unassessed_for : Text → RiskDecision
unassessed_for reason = record { outcome = unavailable; reason = reason; reference = [] }

-- The decision of a body.
unfoldable pub decide : Body → RiskDecision
unfolding says mapped unassessed_for
decide body =
    let decision = lookup (codes "decision") body in
    if says (codes "allow") decision
    then mapped allowed body
    else if says (codes "refuse") decision
    then mapped refused body
    else unassessed_for (codes "unrecognised")

unfoldable pub assessed_body : JsonResponse Body → Option Body → RiskDecision
unfolding decide unassessed_for
assessed_body r none = unassessed_for (failure_value r.failure)
assessed_body r (some body) =
    if is_ok r then decide body else unassessed_for (failure_value r.failure)

-- `assess`
unfoldable pub assess_response : JsonResponse Body → RiskDecision
unfolding assessed_body
assess_response r = assessed_body r r.body
