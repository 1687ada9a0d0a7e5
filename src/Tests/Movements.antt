-- ===== src/Tests/Movements.antt =====
-- The movement service of src/evenkeel/application over the adapters of
-- src/evenkeel/infrastructure/adapters, at concrete inputs.
use evenkeel.Prelude.{◌≡◌, refl, true, false, some, [], ◌∷◌, arith, if◌then◌else◌, ◌==◌}
use evenkeel.Prelude.Int.{pos, negsuc, ◌+ℤ◌, ◌-ℤ◌, scale}
use evenkeel.Prelude.Text.{Text, codes, text_eq}
use evenkeel.Prelude.Dict.{lookup}
use evenkeel.Domain.Decimal.{add, sub, less, common_exponent, aligned}
use evenkeel.Domain.Decimal.Cents.{cents}
use evenkeel.Domain.Errors.{ok, err, driver}
use evenkeel.Domain.Money.{
  Money, money, money_max, money_add, require_positive, assert_same_currency, currency_code,
  is_alpha, is_upper_from,
}
use evenkeel.Domain.Money.Laws.{IsMoney, value}
use evenkeel.Domain.Wallet.{Wallet, OwnerId, opened, deposit, require_open, touch, new_wallet}
use evenkeel.Domain.Ledger.{
  credit, record_entry, strip, strip_left, strip_right, strip_keep, LedgerEntry,
}
use evenkeel.Sqla.Tables.{EntryRow, Tables, one_or_none, commit}
use evenkeel.Sqla.Reconciled.{IsReconciled, total, signed}
use evenkeel.Sqla.Wallets
use evenkeel.Sqla.Wallets.{is_owned_row}
use evenkeel.Sqla.Entries
use evenkeel.Memory.Idempotency
use evenkeel.Memory.Idempotency.{Entries}
use evenkeel.Memory.Locking
use evenkeel.Memory.Locking.{Holder}
use evenkeel.Application.Triple.{Triple}
use evenkeel.Application.Movement.{
  Payload, MovementOutcome, default_settings, apply, move, with_lock, under_lock, when_acquired,
  apply_locked, locked, moved, write, conclude, confirm_key, confirm_observed, confirm_success,
  lock_observed,
}
use evenkeel.Application.Movement.Wired.{World, outside, statement, session, ran, wired}
use evenkeel.Application.Movement.Frames.{Pending, Committed}
use evenkeel.Application.Movement.Outcome.{
  Returned, Raised, no_raise, apply_triple, apply_quiet_triple, with_lock_raises,
}
use evenkeel.Application.Movement.Done.{Written}
use evenkeel.Application.Movement.Books.{written-total}
use evenkeel.Application.Movement.Preserved.{apply-IsReconciled}
use evenkeel.Application.OpenWallet.{OpenWalletCommand, open_new}
use evenkeel.Application.OpenWallet.Opened.{wired_open, Opens, open_new_triple}
use evenkeel.Application.Movement.Keys.{scoped_key-injective}
use evenkeel.Tests.Worlds.{
  ascii, space, Stores, adapters, failing, start, eur, row, first_entry, tables, world, request,
}

-- A digest of a payload, for the tests.
abbrev digest : Payload → Text
digest p = p.description

request-IsMoney : IsMoney request.amount
unfolding cents scale ◌+ℤ◌
request-IsMoney = record { scaled = omega arith; bounded = omega arith }

tables-IsReconciled : IsReconciled tables
unfolding total ◌+ℤ◌
tables-IsReconciled = record { unique = (tt, tt); balances = (refl, tt) }

apply_triple_example :
    Triple
      (Pending tables tables)
      (apply (wired ascii adapters) default_settings digest space request)
      (Returned ascii space request tables)
      (Raised ascii adapters default_settings digest space request tables)
apply_triple_example = apply_triple ascii adapters default_settings digest space tables request

apply_quiet_triple_example :
    Triple
      (Pending tables tables)
      (apply (wired ascii adapters) default_settings digest space request)
      (Returned ascii space request tables)
      (Committed tables)
apply_quiet_triple_example =
    apply_quiet_triple ascii adapters default_settings digest space tables request
      (λ key acquired s. refl) (λ key receipt ttl s e raised. absurd (no_raise e _ refl raised))

apply-IsReconciled_example :
    IsReconciled
      (apply
        (wired ascii adapters)
        default_settings
        digest
        space
        request
        world).1.database.committed
apply-IsReconciled_example =
    apply-IsReconciled ascii adapters default_settings digest space request world request-IsMoney
      refl tables-IsReconciled

abbrev owner : OwnerId
owner = 3

scoped_key-injective_example : (owner ≡ owner) × (codes "k" ≡ codes "k")
scoped_key-injective_example =
    scoped_key-injective owner owner (codes "k") (codes "k") (omega arith) (omega arith) refl

-- The wallet of the row, as it is loaded, and after the deposit.
abbrev loaded : Wallet
loaded = record {
  id = 7;
  owner_id = 3;
  balance = record {
    amount = record { coefficient = pos 1000; exponent = negsuc 1 };
    currency = eur;
  };
  status = opened;
  version = 4;
  created_at = 100;
  updated_at = 200;
}

abbrev funded : Money
funded = record { amount = record { coefficient = pos 1250; exponent = negsuc 1 }; currency = eur }

abbrev wallet : Wallet
wallet = record loaded { balance = funded; version = 5; updated_at = 1000 }

abbrev entry : LedgerEntry
entry = record {
  id = 99;
  wallet_id = 7;
  direction = credit;
  amount = request.amount;
  balance_after = funded;
  description = codes "rent";
  occurred_at = 1000;
}

abbrev outcome : MovementOutcome
outcome = record { wallet = wallet; entry = entry; replayed = false; balance = funded }

abbrev new_entry : EntryRow
new_entry = record {
  id = 99;
  wallet_id = 7;
  direction = credit;
  amount = pos 250;
  currency = codes "EUR";
  balance_after = pos 1250;
  description = codes "rent";
  occurred_at = 1000;
}

abbrev moved_tables : Tables
moved_tables = record {
  wallets = record row { balance_amount = pos 1250; version = 5; updated_at = 1000 } ∷ [];
  entries = first_entry ∷ new_entry ∷ [];
}

read_run : Wallets.read ascii 7 3 tables ≡ ok (some loaded)
unfolding Wallets.read Wallets.load_one Wallets.to_entity one_or_none currency_code is_alpha
    is_upper_from money new_wallet less money_max sub common_exponent aligned scale ◌+ℤ◌ ◌-ℤ◌
read_run = refl

move_run : move credit loaded request.amount 1000 ≡ ok (wallet, funded)
unfolding move deposit touch require_open require_positive money_add money assert_same_currency less
    money_max add sub common_exponent aligned scale ◌+ℤ◌ ◌-ℤ◌
move_run = refl

abbrev recorded : Tables
recorded = record tables { entries = first_entry ∷ new_entry ∷ [] }

add_run : Entries.add entry tables ≡ ok recorded
unfolding Entries.add Entries.to_row cents scale ◌+ℤ◌
add_run = refl

update_run : Wallets.update wallet 4 recorded ≡ ok (true, moved_tables)
unfolding Wallets.update Wallets.update_rows Wallets.to_row cents scale ◌+ℤ◌
update_run = refl

written : Written ascii space request tables outcome moved_tables
unfolding record_entry strip strip_right strip_left strip_keep
written = record {
  loaded = loaded;
  stamp = 1000;
  balance_after = funded;
  entry_id = 99;
  between = recorded;
  read = read_run;
  changed = move_run;
  entry = refl;
  added = add_run;
  updated = update_run;
  fresh = refl;
  balance = refl;
}

written-total_example : total 7 moved_tables.entries ≡ (
    if 7 == 7
    then total 7 tables.entries +ℤ signed credit (value request.amount)
    else total 7 tables.entries)
written-total_example =
    written-total ascii space request tables moved_tables outcome written request-IsMoney 7

abbrev entered : World Stores
entered = record world {
  outside = record start { holder = record { locked = true; expires_at = 5050 } };
}

abbrev left : World Stores
left = record {
  database = record { committed = moved_tables; working = moved_tables };
  outside = record {
    entries = [];
    holder = record { locked = true; expires_at = 5050 };
    metrics = confirm_observed confirm_success ∷ lock_observed true ∷ [];
  };
}

under_lock_run :
    under_lock (wired ascii failing) default_settings digest space request true entered
    ≡ (ok outcome, left)
unfolding under_lock when_acquired apply_locked locked moved write conclude confirm_key wired
    outside statement session ran commit Idempotency.confirm Idempotency.live Idempotency.unexpired
    Idempotency.drop_expired lookup Wallets.read Wallets.load_one Wallets.to_entity one_or_none
    currency_code is_alpha is_upper_from money new_wallet less money_max sub common_exponent aligned
    scale ◌+ℤ◌ ◌-ℤ◌ move deposit touch require_open require_positive money_add assert_same_currency
    add Entries.add Entries.to_row cents Wallets.update Wallets.update_rows Wallets.to_row
    record_entry strip strip_right strip_left strip_keep
under_lock_run = refl

with_lock_raises_example :
    ((with_lock (wired ascii failing) default_settings digest space request world).0
      ≡ err (driver "ConnectionError"))
    × Written ascii space request tables outcome
        (with_lock
          (wired ascii failing)
          default_settings
          digest
          space
          request
          world).1.database.committed
with_lock_raises_example =
    with_lock_raises ascii failing default_settings digest space tables request true outcome
      (driver "ConnectionError") world entered left left refl
      (unfold outside Locking.enter Locking.reclaim Locking.lease_expired in refl) under_lock_run
      (unfold outside in refl)

abbrev opening : OpenWalletCommand
opening = record { owner_id = 3; currency = eur }

open_new_triple_example :
    Triple
      (Pending tables tables)
      (open_new (wired_open adapters (λ b s. s)) opening)
      (λ x w. Opens opening tables x w.database.committed)
      (Committed tables)
open_new_triple_example = open_new_triple adapters (λ b s. s) tables opening
