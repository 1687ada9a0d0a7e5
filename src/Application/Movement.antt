-- ===== src/Application/Movement.antt =====
-- `WalletMovementService` of src/evenkeel/application/services/wallet_movement.py, over the ports
-- that it is constructed with.
pub mod Wired
pub mod Frames
pub mod Done
pub mod Atomic
pub mod Claims
pub mod Outcome
pub mod Books
pub mod Preserved
pub mod Keys
use Prim.Native.String.{String}
use evenkeel.Prelude.{
  ℕ, ◌+◌, ◌*◌, Bool, true, false, not, Option, none, some, List, [], ◌∷◌, ◌++◌, if◌then◌else◌,
}
use evenkeel.Prelude.Text.{Text, codes}
use evenkeel.Domain.Uuid.{uuid_text}
use evenkeel.Domain.Decimal.{Number}
use evenkeel.Domain.Errors.{
  Error, Result, ok, err, is_exception, Context, uuid, text, application, ErrorClass,
  ApplicationErrorCode, conflict_error, not_found_error, wallet_busy, wallet_not_found,
  wallet_version_conflict, idempotency_key_reused, movement_in_progress,
}
use evenkeel.Domain.Money.{Money}
use evenkeel.Domain.Wallet.{
  Uuid, Wallet, WalletId, OwnerId, LedgerEntryId, Instant, deposit, withdraw,
}
use evenkeel.Domain.Ledger.{LedgerDirection, credit, debit, LedgerEntry, record_entry}
use evenkeel.Ports.{
  Receipt, IdempotencyReservation, IdempotencyRecord, IdempotencyOutcome, reserved, in_progress,
  completed, conflict, may_proceed,
}
use evenkeel.Application.Action.{Action, pure, raise, lift, continue, ◌>>=◌, ◌>>◌, finally, tell}

pub record MovementSettings : Type 0 where
  pub lock_ttl : ℕ
  pub lock_wait : ℕ
  pub idempotency_ttl : ℕ

-- The defaults of `WalletMovementSettings`.
abbrev pub default_settings : MovementSettings
default_settings = record { lock_ttl = 5000; lock_wait = 2000; idempotency_ttl = 24 * 3600 }

pub record MovementOutcome : Type 0 where
  pub wallet : Wallet
  pub entry : LedgerEntry
  pub replayed : Bool
  pub balance : Money

pub record MovementRequest : Type 0 where
  pub wallet_id : WalletId
  pub owner_id : OwnerId
  pub amount : Money
  pub direction : LedgerDirection
  pub description : Text
  pub idempotency_key : Option Text

-- The payload that is fingerprinted: the keys of the JSON object, sorted.
pub record Payload : Type 0 where
  pub amount : Number
  pub currency : Text
  pub description : Text
  pub direction : LedgerDirection
  pub owner_id : OwnerId
  pub wallet_id : WalletId

-- The label of a run: the words of `_run`, or the code of the error, in lower case.
pub data RunOutcome : Type 0 where
  unlabelled limited refused_by_risk unassessed was_replayed success success_unassessed : RunOutcome
  failed_with : ApplicationErrorCode → RunOutcome

-- The outcome of a receipt, as it is told.
pub data ConfirmOutcome : Type 0 where
  confirm_success confirm_unavailable confirm_error : ConfirmOutcome

-- What the service observes through the metrics port, whose adapters do not raise; durations are
-- left out.
pub data Metric : Type 0 where
  lock_observed : Bool → Metric
  confirm_observed : ConfirmOutcome → Metric
  rate_limit_observed : Text → Bool → Metric
  interactor_observed : Text → RunOutcome → Metric

-- The ports, over the state of all that lies behind them.
pub record MovementPorts (W : Type 0) : Type 0 where
  pub read_wallet : WalletId → OwnerId → Action W (Option Wallet)
  pub update_wallet : Wallet → ℕ → Action W Bool
  pub add_entry : LedgerEntry → Action W (Unit {0})
  pub read_entry : LedgerEntryId → OwnerId → Action W (Option LedgerEntry)
  pub commit : Action W (Unit {0})
  pub rollback : Action W (Unit {0})
  pub enter_lock : Text → ℕ → ℕ → Action W Bool
  pub exit_lock : Text → Bool → Action W (Unit {0})
  pub reserve : Text → Text → ℕ → Action W IdempotencyReservation
  pub confirm : Text → Receipt → ℕ → Action W (Unit {0})
  pub release : Text → Action W (Unit {0})
  pub now : Action W Instant
  pub generate : Action W Uuid
  pub observe : Metric → W → W

-- `_scoped_key`
unfoldable pub scoped_key : OwnerId → Text → Text
scoped_key owner_id key = uuid_text owner_id ++ b':' ∷ key

-- `f"wallet:{request.wallet_id.value}"`
unfoldable pub lock_key : WalletId → Text
lock_key wallet_id = codes "wallet:" ++ uuid_text wallet_id

unfoldable pub payload : MovementRequest → Payload
payload r = record {
  amount = r.amount.amount;
  currency = r.amount.currency.value;
  description = r.description;
  direction = r.direction;
  owner_id = r.owner_id;
  wallet_id = r.wallet_id;
}

abbrev raise_conflict : {W A : Type 0} → ApplicationErrorCode → Context → Action W A
raise_conflict code details =
    raise (application (record { kind = conflict_error; code = code; details = details }))

-- The balance change of a direction.
unfoldable pub move : LedgerDirection → Wallet → Money → Instant → Result (Wallet × Money)
move credit w amount now = deposit w amount now
move debit w amount now = withdraw w amount now

abbrev pub outcome_of : Wallet → LedgerEntry → Bool → Money → MovementOutcome
outcome_of wallet entry replayed balance = record {
  wallet = wallet;
  entry = entry;
  replayed = replayed;
  balance = balance;
}

-- `digest` is `sha256(json.dumps(...)).hexdigest()`, and `is_space` what `str.strip` takes off.
module _ {W : Type 0} (ports : MovementPorts W) (settings : MovementSettings)
    (digest : Payload → Text) (is_space : ℕ → Bool) where
  -- `_fingerprint`
  unfoldable pub fingerprint : MovementRequest → Text
  unfolding payload
  fingerprint r = digest (payload r)

  release_key : OwnerId → Option Text → Action W (Unit {0})
  release_key owner_id none = pure tt
  release_key owner_id (some key) = ports.release (scoped_key owner_id key)

  -- `_release`
  unfoldable pub release_request : MovementRequest → Action W (Unit {0})
  unfolding release_key
  release_request r = release_key r.owner_id r.idempotency_key

  -- The original receipt, if both of its rows are still there.
  replay_rows : Option LedgerEntry → Option Wallet → Action W (Option MovementOutcome)
  replay_rows none wallet = pure none
  replay_rows (some entry) none = pure none
  replay_rows (some entry) (some wallet) = do
    ports.rollback
    pure (some (outcome_of wallet entry true entry.balance_after))

  replay : MovementRequest → Option IdempotencyRecord → Action W (Option MovementOutcome)
  unfolding replay_rows
  replay r none = pure none
  replay r (some stored) = do
    entry ← ports.read_entry stored.response.entry_id r.owner_id
    wallet ← ports.read_wallet r.wallet_id r.owner_id
    replay_rows entry wallet

  -- The answer to a reservation, by what it found under the key.
  answer_claim :
      MovementRequest
      → Text
      → IdempotencyOutcome
      → Option IdempotencyRecord
      → Action W (Option MovementOutcome)
  unfolding replay
  answer_claim r key reserved stored = pure none
  answer_claim r key conflict stored =
      raise_conflict idempotency_key_reused (("idempotency_key", text key) ∷ [])
  answer_claim r key in_progress stored =
      raise_conflict movement_in_progress (("idempotency_key", text key) ∷ [])
  answer_claim r key completed stored = replay r stored

  claim_key : MovementRequest → Option Text → Action W (Option MovementOutcome)
  unfolding answer_claim fingerprint
  claim_key r none = pure none
  claim_key r (some key) = do
    found ← ports.reserve (scoped_key r.owner_id key) (fingerprint r) settings.idempotency_ttl
    answer_claim r key found.outcome found.stored

  -- `_claim`
  unfoldable pub claim : MovementRequest → Action W (Option MovementOutcome)
  unfolding claim_key
  claim r = claim_key r r.idempotency_key

  -- The outcome of a receipt: an `Exception` of the store is counted and swallowed, and anything else
  -- that it raises, such as a cancellation, is counted and goes on.
  confirm_settled : Result (Unit {0}) → Action W (Unit {0})
  confirm_settled (ok u) w = (ok tt, ports.observe (confirm_observed confirm_success) w)
  confirm_settled (err e) w =
      if is_exception e
      then (ok tt, ports.observe (confirm_observed confirm_unavailable) w)
      else (err e, ports.observe (confirm_observed confirm_error) w)

  -- `_confirm`
  unfoldable pub confirm_key : OwnerId → Wallet → LedgerEntry → Option Text → Action W (Unit {0})
  unfolding confirm_settled
  confirm_key owner_id wallet entry none = pure tt
  confirm_key owner_id wallet entry (some key) = λ w.
      let receipt : Receipt = record { entry_id = entry.id; wallet_id = wallet.id } in
      let (r, w') = ports.confirm (scoped_key owner_id key) receipt settings.idempotency_ttl w in
      confirm_settled r w'

  -- `raise ConflictError` or `raise NotFoundError`, after the transaction and the key are given back.
  pub abandon : {A : Type 0} → MovementRequest → Error → Action W A
  unfolding release_request
  abandon r e = do ports.rollback; release_request r; raise e

  not_found : MovementRequest → Error
  not_found r = application (record {
    kind = not_found_error;
    code = wallet_not_found;
    details = ("wallet_id", uuid r.wallet_id) ∷ [];
  })

  conflicting : ApplicationErrorCode → WalletId → Error
  conflicting code id =
      application
        (record { kind = conflict_error; code = code; details = ("wallet_id", uuid id) ∷ [] })

  -- After the guarded update: the commit and the receipt, or the lost race.
  unfoldable pub conclude : MovementRequest → Wallet → LedgerEntry → Bool → Action W MovementOutcome
  unfolding abandon confirm_key conflicting
  conclude r wallet entry false = abandon r (conflicting wallet_version_conflict wallet.id)
  conclude r wallet entry true = do
    ports.commit
    confirm_key r.owner_id wallet entry r.idempotency_key
    pure (outcome_of wallet entry false wallet.balance)

  -- From the changed wallet on: the entry, then the guarded update.
  unfoldable pub write : MovementRequest → ℕ → Wallet → Money → Instant → Action W MovementOutcome
  unfolding conclude
  write r expected_version wallet balance_after now = do
    id ← ports.generate
    let entry =
        record_entry is_space id wallet.id r.direction r.amount balance_after r.description now
    ports.add_entry entry
    updated ← ports.update_wallet wallet expected_version
    conclude r wallet entry updated

  -- After the balance change, or the domain error that refused it.
  unfoldable pub moved :
      MovementRequest → ℕ → Instant → Result (Wallet × Money) → Action W MovementOutcome
  unfolding write abandon
  moved r expected_version now (ok (wallet, balance_after)) =
      write r expected_version wallet balance_after now
  moved r expected_version now (err e) = abandon r e

  unfoldable pub locked : MovementRequest → Option Wallet → Action W MovementOutcome
  unfolding moved abandon not_found
  locked r none = abandon r (not_found r)
  locked r (some wallet) = do
    now ← ports.now
    moved r wallet.version now (move r.direction wallet r.amount now)

  -- `_apply_locked`
  unfoldable pub apply_locked : MovementRequest → Action W MovementOutcome
  unfolding locked
  apply_locked r = do wallet ← ports.read_wallet r.wallet_id r.owner_id; locked r wallet

  unfoldable pub when_acquired : MovementRequest → Bool → Action W MovementOutcome
  unfolding apply_locked abandon conflicting
  when_acquired r false = abandon r (conflicting wallet_busy r.wallet_id)
  when_acquired r true = apply_locked r

  -- The body of the lock's `async with`.
  unfoldable pub under_lock : MovementRequest → Bool → Action W MovementOutcome
  unfolding when_acquired
  under_lock r acquired = do tell (ports.observe (lock_observed acquired)); when_acquired r acquired

  unfoldable pub with_lock : MovementRequest → Action W MovementOutcome
  unfolding under_lock
  with_lock r = do
    acquired ← ports.enter_lock (lock_key r.wallet_id) settings.lock_ttl settings.lock_wait
    finally (under_lock r acquired) (ports.exit_lock (lock_key r.wallet_id) acquired)

  apply_claimed : MovementRequest → Option MovementOutcome → Action W MovementOutcome
  unfolding with_lock
  apply_claimed r (some outcome) = pure outcome
  apply_claimed r none = with_lock r

  -- `apply`
  unfoldable pub apply : MovementRequest → Action W MovementOutcome
  unfolding claim apply_claimed
  apply r = do replayed ← claim r; apply_claimed r replayed
