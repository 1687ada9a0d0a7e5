-- ===== src/Tests/Interactor.antt =====
-- The interactor of src/evenkeel/application/interactors/wallets/move_money.py at concrete inputs.
use evenkeel.Prelude.{◌≡◌, refl, Bool, true, false, none, some, List, [], ◌∷◌}
use evenkeel.Prelude.Int.{pos, negsuc}
use evenkeel.Prelude.Text.{codes}
use evenkeel.Domain.Errors.{ok}
use evenkeel.Domain.Money.{Money}
use evenkeel.Domain.Wallet.{Wallet, opened}
use evenkeel.Domain.Ledger.{credit, LedgerEntry}
use evenkeel.Ports.{RiskOutcome, allowed, Page}
use evenkeel.Application.Movement.{Metric, MovementOutcome}
use evenkeel.Application.MoveMoney.{
  MoveMoneySettings, default_move_settings, MovementResult, MoveCommand, RunPorts, run, body,
  limit_answered, assess_and_move, risk_answered, assessed, applied, result_of,
}
use evenkeel.Application.ReadWallets.{
  ListLedgerQuery, ReadPorts, list_ledger_entries, list_answered, listed,
}
use evenkeel.Application.ReadWallets.Scoped.{list_ledger_entries-ok}
use evenkeel.Application.MoveMoney.Laws.{Limited, Assessed, run-ok}

abbrev ten_euros : Money
ten_euros = record {
  amount = record { coefficient = pos 1000; exponent = negsuc 1 };
  currency = record { value = codes "EUR" };
}

abbrev wallet : Wallet
wallet = record {
  id = 7;
  owner_id = 3;
  balance = ten_euros;
  status = opened;
  version = 1;
  created_at = 100;
  updated_at = 200;
}

abbrev entry : LedgerEntry
entry = record {
  id = 99;
  wallet_id = 7;
  direction = credit;
  amount = ten_euros;
  balance_after = ten_euros;
  description = codes "deposit";
  occurred_at = 200;
}

abbrev outcome : MovementOutcome
outcome = record { wallet = wallet; entry = entry; replayed = false; balance = ten_euros }

-- What a limiter answers, and what a risk provider answers, with the metrics as the world.
abbrev pub ports : Bool → RiskOutcome → RunPorts (List Metric)
ports allows risk = record {
  consume =
      λ key policy w. (ok (record { allowed = allows; remaining = 0; retry_after = 4000 }), w);
  assess = λ c w. (ok (record { outcome = risk; reason = []; reference = [] }), w);
  apply = λ r w. (ok outcome, w);
  observe = λ m w. m ∷ w;
}

abbrev command : MoveCommand
command = record {
  wallet_id = 7;
  owner_id = 3;
  amount = ten_euros;
  description = codes "deposit";
  idempotency_key = none;
}

abbrev result : MovementResult
result = record { entry_id = 99; wallet_id = 7; balance = ten_euros; replayed = false }

abbrev unlimited : MoveMoneySettings
unlimited = record default_move_settings { rate_limit_enabled = false }

run-ok_example :
    (w : List Metric) × Limited (ports true allowed) default_move_settings credit command [] w
    × Assessed (ports true allowed) default_move_settings credit command w result
run-ok_example = run-ok (ports true allowed) default_move_settings credit command [] result (
    unfold run body limit_answered assess_and_move risk_answered assessed applied result_of in refl)

abbrev page_query : ListLedgerQuery
page_query = record { wallet_id = 7; owner_id = 3; limit = 20; cursor = none }

-- The wallet is there, and its page has one entry.
abbrev readable : ReadPorts (Unit {0})
readable = record {
  read_wallet = λ id owner_id w. (ok (some wallet), w);
  list_entries =
      λ id owner_id limit cursor w. (ok (record { items = entry ∷ []; next_cursor = none }), w);
  observe = λ name o w. w;
}

abbrev page : Page LedgerEntry
page = record { items = entry ∷ []; next_cursor = none }

list_ledger_entries-ok_example :
    (found : Wallet) × (w : Unit {0}) × (readable.read_wallet 7 3 tt ≡ (ok (some found), w))
    × ((readable.list_entries 7 3 20 none w).0 ≡ ok page)
list_ledger_entries-ok_example =
    list_ledger_entries-ok readable page_query tt page
      (unfold list_ledger_entries list_answered listed in refl)
