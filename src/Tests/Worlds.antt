-- ===== src/Tests/Worlds.antt =====
-- Small worlds for the movement service of src/evenkeel/application and its adapters.
use evenkeel.Prelude.{ℕ, Bool, false, some, List, [], ◌∷◌, ◌==◌, ◌&&◌, leb}
use evenkeel.Prelude.Int.{pos, negsuc}
use evenkeel.Prelude.Text.{codes, text_eq}
use evenkeel.Domain.Errors.{ok, err, driver}
use evenkeel.Domain.Money.{Unicode, CurrencyCode}
use evenkeel.Domain.Wallet.{opened}
use evenkeel.Domain.Ledger.{credit}
use evenkeel.Sqla.Tables.{WalletRow, EntryRow, Tables}
use evenkeel.Memory.Idempotency
use evenkeel.Memory.Idempotency.{Entries}
use evenkeel.Memory.Locking
use evenkeel.Memory.Locking.{Holder}
use evenkeel.Application.Movement.{Metric, MovementRequest}
use evenkeel.Application.Movement.Wired.{World, Outside}

-- The ASCII letters.
abbrev pub ascii : Unicode
ascii = record {
  alphabetic = λ c. leb 65 c && leb c 90;
  uppercase = λ c. leb 65 c && leb c 90;
  lowercase = λ c. leb 97 c && leb c 122;
  titlecase = λ c. false;
}

abbrev pub space : ℕ → Bool
space c = c == 32

-- The memory stores behind the ports, at one instant.
pub record Stores : Type 0 where
  pub entries : Entries
  pub holder : Holder
  pub metrics : List Metric

-- One wallet's lock, a clock that stands at 50 and one identifier.
abbrev pub adapters : Outside Stores
adapters = record {
  enter_lock = λ key ttl wait s.
      let (acquired, h) = Locking.enter 50 ttl s.holder in (ok acquired, record s { holder = h });
  exit_lock = λ key acquired s. (ok tt, record s { holder = Locking.exit acquired s.holder });
  reserve = λ key fingerprint ttl s.
      let (answer, d) = Idempotency.reserve 50 key fingerprint ttl s.entries in
      (ok answer, record s { entries = d });
  confirm = λ key response ttl s.
      (ok tt, record s { entries = Idempotency.confirm 50 key response ttl s.entries });
  release = λ key s. (ok tt, record s { entries = Idempotency.release 50 key s.entries });
  now = λ s. (ok 1000, s);
  generate = λ s. (ok 99, s);
  observe = λ m s. record s { metrics = m ∷ s.metrics };
  fault = λ s. (ok tt, s);
}

-- The same, with a lock whose exit fails.
abbrev pub failing : Outside Stores
failing = record adapters { exit_lock = λ key acquired s. (err (driver "ConnectionError"), s) }

abbrev pub start : Stores
start = record { entries = []; holder = record { locked = false; expires_at = 0 }; metrics = [] }

abbrev pub eur : CurrencyCode
eur = record { value = codes "EUR" }

abbrev pub row : WalletRow
row = record {
  id = 7;
  owner_id = 3;
  balance_amount = pos 1000;
  currency = codes "EUR";
  status = opened;
  version = 4;
  created_at = 100;
  updated_at = 200;
}

abbrev pub first_entry : EntryRow
first_entry = record {
  id = 1;
  wallet_id = 7;
  direction = credit;
  amount = pos 1000;
  currency = codes "EUR";
  balance_after = pos 1000;
  description = [];
  occurred_at = 200;
}

abbrev pub tables : Tables
tables = record { wallets = row ∷ []; entries = first_entry ∷ [] }

abbrev pub world : World Stores
world = record { database = record { committed = tables; working = tables }; outside = start }

abbrev pub request : MovementRequest
request = record {
  wallet_id = 7;
  owner_id = 3;
  amount = record {
    amount = record { coefficient = pos 250; exponent = negsuc 1 };
    currency = eur;
  };
  direction = credit;
  description = codes "rent";
  idempotency_key = some (codes "k");
}
