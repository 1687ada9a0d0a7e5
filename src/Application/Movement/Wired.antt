-- ===== src/Application/Movement/Wired.antt =====
-- The movement service as it is wired: the SQL repositories and the session behind the ports, over
-- whatever adapters serve the lock, the idempotency store, the clock, the identifiers and the
-- metrics. `fault` is what the database's driver may raise before any statement.
use evenkeel.Prelude.{ℕ, Bool}
use evenkeel.Prelude.Text.{Text}
use evenkeel.Domain.Errors.{Result, ok, err, ◌>>=◌ as bind_result}
use evenkeel.Domain.Money.{Unicode}
use evenkeel.Domain.Wallet.{Uuid, Instant}
use evenkeel.Ports.{Receipt, IdempotencyReservation}
use evenkeel.Sqla.Tables.{Tables, Database, commit, rollback}
use evenkeel.Sqla.Wallets
use evenkeel.Sqla.Entries
use evenkeel.Application.Action.{Action, ◌>>◌}
use evenkeel.Application.Movement.{MovementPorts, Metric}

-- The adapters besides the database, over a state of their own.
pub record Outside (X : Type 0) : Type 0 where
  pub enter_lock : Text → ℕ → ℕ → Action X Bool
  pub exit_lock : Text → Bool → Action X (Unit {0})
  pub reserve : Text → Text → ℕ → Action X IdempotencyReservation
  pub confirm : Text → Receipt → ℕ → Action X (Unit {0})
  pub release : Text → Action X (Unit {0})
  pub now : Action X Instant
  pub generate : Action X Uuid
  pub observe : Metric → X → X
  pub fault : Action X (Unit {0})

pub record World (X : Type 0) : Type 0 where
  pub database : Database
  pub outside : X

module _ {X : Type 0} where
  -- An adapter outside the database leaves it as it is.
  unfoldable pub outside : {A : Type 0} → Action X A → Action (World X) A
  outside m w = let (r, x) = m w.outside in (r, record { database = w.database; outside = x })

  -- The outcome of a statement: the tables that it leaves, or its error.
  unfoldable pub ran : {A : Type 0} → Result (A × Tables) → Action (World X) A
  ran (ok (a, t)) w = (
    ok a,
    record {
      database = record { committed = w.database.committed; working = t };
      outside = w.outside;
    },
  )
  ran (err e) w = (err e, w)

  -- One statement in the open transaction.
  unfoldable pub statement :
      {A : Type 0} → Action X (Unit {0}) → (Tables → Result (A × Tables)) → Action (World X) A
  unfolding ran
  statement fault run = outside fault >> λ w. ran (run w.database.working) w

  -- A call of the session itself.
  unfoldable pub session : Action X (Unit {0}) → (Database → Database) → Action (World X) (Unit {0})
  session fault f =
      outside fault >> λ w. (ok tt, record { database = f w.database; outside = w.outside })

-- A query changes no table.
abbrev pub query : {A : Type 0} → (Tables → Result A) → Tables → Result (A × Tables)
query run t = bind_result (run t) (λ a. ok (a, t))

-- A command returns nothing.
abbrev pub command : (Tables → Result Tables) → Tables → Result (Unit {0} × Tables)
command run t = bind_result (run t) (λ t'. ok (tt, t'))

unfoldable pub wired : {X : Type 0} → Unicode → Outside X → MovementPorts (World X)
wired u out = record {
  read_wallet = λ id owner_id. statement out.fault (query (Wallets.read u id owner_id));
  update_wallet = λ wallet expected. statement out.fault (Wallets.update wallet expected);
  add_entry = λ entry. statement out.fault (command (Entries.add entry));
  read_entry = λ id owner_id. statement out.fault (query (Entries.read u id owner_id));
  commit = session out.fault commit;
  rollback = session out.fault rollback;
  enter_lock = λ key ttl wait. outside (out.enter_lock key ttl wait);
  exit_lock = λ key acquired. outside (out.exit_lock key acquired);
  reserve = λ key fingerprint ttl. outside (out.reserve key fingerprint ttl);
  confirm = λ key response ttl. outside (out.confirm key response ttl);
  release = λ key. outside (out.release key);
  now = outside out.now;
  generate = outside out.generate;
  observe = λ m w. record { database = w.database; outside = out.observe m w.outside };
}
