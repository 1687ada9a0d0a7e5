-- ===== src/Ports.antt =====
-- The values that cross the ports: src/evenkeel/application/ports/. Durations and instants of the
-- monotonic clock are in milliseconds.
pub mod Polling
use evenkeel.Prelude.{ℕ, Bool, true, false, Option, none, List}
use evenkeel.Prelude.Text.{Text}
use evenkeel.Domain.Wallet.{Uuid, OwnerId, WalletId}
use evenkeel.Domain.Money.{Money}
use evenkeel.Domain.Ledger.{LedgerDirection}

-- The response that a movement stores with its key, the only one the program stores.
pub record Receipt : Type 0 where
  pub entry_id : Uuid
  pub wallet_id : Uuid

pub record IdempotencyRecord : Type 0 where
  pub key : Text
  pub fingerprint : Text
  pub response : Receipt

pub data IdempotencyOutcome : Type 0 where
  reserved in_progress completed conflict : IdempotencyOutcome

pub record IdempotencyReservation : Type 0 where
  pub outcome : IdempotencyOutcome
  pub stored : Option IdempotencyRecord

abbrev pub reservation : IdempotencyOutcome → IdempotencyReservation
reservation outcome = record { outcome = outcome; stored = none }

abbrev pub is_reserved : IdempotencyOutcome → Bool
is_reserved reserved = true
is_reserved _ = false

abbrev pub may_proceed : IdempotencyReservation → Bool
may_proceed r = is_reserved r.outcome

pub record RateLimitPolicy : Type 0 where
  pub name : Text
  pub limit : ℕ
  pub window : ℕ

pub record RateLimitDecision : Type 0 where
  pub allowed : Bool
  pub remaining : ℕ
  pub retry_after : ℕ

pub record BulkheadPolicy : Type 0 where
  pub name : Text
  pub limit : ℕ
  pub lease_ttl : ℕ
  pub wait_timeout : ℕ
  pub retry_interval : ℕ

pub data RiskOutcome : Type 0 where
  allowed refused unavailable : RiskOutcome

pub record RiskCheck : Type 0 where
  pub wallet_id : WalletId
  pub owner_id : OwnerId
  pub amount : Money
  pub direction : LedgerDirection
  pub idempotency_key : Option Text

pub record RiskDecision : Type 0 where
  pub outcome : RiskOutcome
  pub reason : Text
  pub reference : Text

abbrev pub is_refused : RiskOutcome → Bool
is_refused refused = true
is_refused _ = false

-- `RiskDecision.available`
abbrev pub is_available : RiskOutcome → Bool
is_available unavailable = false
is_available _ = true

-- One slice of a cursor-paginated result.
pub record Page {ℓ} (A : Type ℓ) : Type ℓ where
  pub items : List A
  pub next_cursor : Option Text
