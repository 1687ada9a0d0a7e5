-- ===== src/Application/MoveMoney.antt =====
-- `_MovementInteractor` of src/evenkeel/application/interactors/wallets/move_money.py, over the
-- limiter, the risk provider and the movement service.
pub mod Laws
use evenkeel.Prelude.{
  ℕ, ◌*◌, Bool, true, false, not, ◌&&◌, Option, none, some, List, [], ◌∷◌, ◌++◌, if◌then◌else◌,
}
use evenkeel.Prelude.Text.{Text, codes}
use evenkeel.Domain.Uuid.{uuid_text}
use evenkeel.Domain.Errors.{
  Error, Context, Result, ok, err, application, domain, driver, ApplicationError,
  rate_limited_error, forbidden_error, dependency_unavailable_error, rate_limited, movement_refused,
  dependency_unavailable, number, text, label,
}
use evenkeel.Domain.Money.{Money}
use evenkeel.Domain.Wallet.{WalletId, OwnerId, LedgerEntryId}
use evenkeel.Domain.Ledger.{LedgerDirection, credit, debit}
use evenkeel.Ports.{
  RateLimitPolicy, RateLimitDecision, RiskCheck, RiskDecision, RiskOutcome, is_refused,
  is_available,
}
use evenkeel.Application.Action.{Action, pure, raise, continue, ◌>>=◌, ◌>>◌}
use evenkeel.Application.Movement.{
  MovementRequest, MovementOutcome, Metric, rate_limit_observed, interactor_observed, RunOutcome,
  unlabelled, limited, refused_by_risk, unassessed, was_replayed, success, success_unassessed,
  failed_with,
}

-- The window is in milliseconds.
pub record MoveMoneySettings : Type 0 where
  pub rate_limit_enabled : Bool
  pub rate_limit_limit : ℕ
  pub rate_limit_window : ℕ
  pub risk_fail_open : Bool

-- The defaults of the source.
abbrev pub default_move_settings : MoveMoneySettings
default_move_settings = record {
  rate_limit_enabled = true;
  rate_limit_limit = 30;
  rate_limit_window = 60000;
  risk_fail_open = false;
}

pub record MovementResult : Type 0 where
  pub entry_id : LedgerEntryId
  pub wallet_id : WalletId
  pub balance : Money
  pub replayed : Bool

-- `DepositCommand` and `WithdrawCommand`
pub record MoveCommand : Type 0 where
  pub wallet_id : WalletId
  pub owner_id : OwnerId
  pub amount : Money
  pub description : Text
  pub idempotency_key : Option Text

pub record RunPorts (W : Type 0) : Type 0 where
  pub consume : Text → RateLimitPolicy → Action W RateLimitDecision
  pub assess : RiskCheck → Action W RiskDecision
  pub apply : MovementRequest → Action W MovementOutcome
  pub observe : Metric → W → W

-- `_metric_name`
abbrev pub metric_name : LedgerDirection → Text
metric_name credit = codes "deposit_to_wallet"
metric_name debit = codes "withdraw_from_wallet"

-- `command.description or "deposit"`
unfoldable pub described : LedgerDirection → Text → Text
described credit [] = codes "deposit"
described debit [] = codes "withdrawal"
described d (c ∷ cs) = c ∷ cs

abbrev pub request_of : LedgerDirection → MoveCommand → MovementRequest
request_of d c = record {
  wallet_id = c.wallet_id;
  owner_id = c.owner_id;
  amount = c.amount;
  direction = d;
  description = c.description;
  idempotency_key = c.idempotency_key;
}

abbrev pub check_of : LedgerDirection → MoveCommand → RiskCheck
check_of d c = record {
  wallet_id = c.wallet_id;
  owner_id = c.owner_id;
  amount = c.amount;
  direction = d;
  idempotency_key = c.idempotency_key;
}

-- The outcome, once the service has returned.
unfoldable pub outcome_label : Bool → Bool → RunOutcome
outcome_label available true = if available then was_replayed else success_unassessed
outcome_label available false = if available then success else success_unassessed

-- The label of an error, which is its code unless a step has set one.
unfoldable pub relabel : RunOutcome → Error → RunOutcome
relabel unlabelled (application e) = failed_with e.code
relabel o _ = o

module _ {W : Type 0} (ports : RunPorts W) (settings : MoveMoneySettings) where
  -- The step of the run, and the local variable `outcome` after it.
  abbrev Step : Type 0
  Step = W → (Result MovementResult × RunOutcome) × W

  abbrev raise_step : RunOutcome → Error → Step
  raise_step o e w = ((err e, o), w)

  unfoldable pub result_of : MovementOutcome → MovementResult
  result_of o = record {
    entry_id = o.entry.id;
    wallet_id = o.wallet.id;
    balance = o.balance;
    replayed = o.replayed;
  }

  unfoldable pub applied :
      Bool → Result MovementOutcome × W → (Result MovementResult × RunOutcome) × W
  unfolding result_of
  applied available (ok o, w) = ((ok (result_of o), outcome_label available o.replayed), w)
  applied available (err e, w) = ((err e, unlabelled), w)

  -- `_refusal_details`
  unfoldable pub refusal_details : RiskDecision → Context
  refusal_details d = refusal d.reference
    where
      refusal : Text → Context
      refusal [] = []
      refusal (c ∷ cs) = ("reference", text (c ∷ cs)) ∷ []

  unfoldable pub assessed : MovementRequest → RiskDecision → Step
  unfolding applied refusal_details
  assessed r d w =
      if is_refused d.outcome
      then raise_step refused_by_risk
          (application (record {
            kind = forbidden_error;
            code = movement_refused;
            details = refusal_details d;
          }))
          w
      else if not (is_available d.outcome) && not settings.risk_fail_open
      then raise_step unassessed
          (application (record {
            kind = dependency_unavailable_error;
            code = dependency_unavailable;
            details = ("dependency", label "risk") ∷ [];
          }))
          w
      else applied (is_available d.outcome) (ports.apply r w)

  unfoldable pub risk_answered :
      MovementRequest → Result RiskDecision × W → (Result MovementResult × RunOutcome) × W
  unfolding assessed
  risk_answered r (ok d, w) = assessed r d w
  risk_answered r (err e, w) = raise_step unlabelled e w

  -- From the risk assessment on.
  unfoldable pub assess_and_move : LedgerDirection → MoveCommand → Step
  unfolding risk_answered
  assess_and_move d c w = risk_answered (request_of d c) (ports.assess (check_of d c) w)

  -- `f"{self._metric_name}:{owner_id.value}"`
  unfoldable pub limit_key : LedgerDirection → OwnerId → Text
  limit_key d owner_id = metric_name d ++ b':' ∷ uuid_text owner_id

  unfoldable pub limit_policy : LedgerDirection → RateLimitPolicy
  limit_policy d = record {
    name = metric_name d;
    limit = settings.rate_limit_limit;
    window = settings.rate_limit_window;
  }

  unfoldable pub limit_answered :
      LedgerDirection
      → MoveCommand
      → Result RateLimitDecision × W
      → (Result MovementResult × RunOutcome) × W
  unfolding assess_and_move
  limit_answered d c (ok x, w) =
      let w' = ports.observe (rate_limit_observed (metric_name d) x.allowed) w in
      if x.allowed
      then assess_and_move d c w'
      else raise_step limited
          (application (record {
            kind = rate_limited_error;
            code = rate_limited;
            details = ("retry_after_seconds", number x.retry_after) ∷ [];
          }))
          w'
  limit_answered d c (err e, w) = raise_step unlabelled e w

  -- The body of the `try`.
  unfoldable pub body : LedgerDirection → MoveCommand → Step
  unfolding limit_answered assess_and_move limit_key limit_policy
  body d c w =
      if settings.rate_limit_enabled
      then limit_answered d c (ports.consume (limit_key d c.owner_id) (limit_policy d) w)
      else assess_and_move d c w

  -- The label that is observed.
  abbrev final_label : Result MovementResult → RunOutcome → RunOutcome
  final_label (ok x) o = o
  final_label (err e) o = relabel o e

  -- `_run`
  unfoldable pub run : LedgerDirection → MoveCommand → Action W MovementResult
  unfolding body relabel
  run d c w =
      let ((result, o), w') = body d c w in
      (result, ports.observe (interactor_observed (metric_name d) (final_label result o)) w')

  -- `DepositToWalletInteractor.__call__` and `WithdrawFromWalletInteractor.__call__`
  unfoldable pub move_money : LedgerDirection → MoveCommand → Action W MovementResult
  unfolding run described
  move_money d c = run d (record c { description = described d c.description })
