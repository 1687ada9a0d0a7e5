-- ===== src/Application/ReadWallets/Scoped.antt =====
-- What a caller may read by src/evenkeel/application/interactors/wallets/read_wallets.py.
use evenkeel.Prelude.{◌≤◌, ◌≡◌, refl, Option, none, some, ◌↔◌, arith}
use evenkeel.Domain.Errors.{Result, ok, err}
use evenkeel.Domain.Wallet.{Wallet}
use evenkeel.Domain.Ledger.{LedgerEntry}
use evenkeel.Ports.{Page}
use evenkeel.Application.ReadWallets.{
  ListLedgerQuery, list_query, ReadPorts, not_found, no_wallet, list_ledger_entries, list_answered,
  listed,
}

-- A query is accepted exactly if its limit is from 1 to 100.
pub list_query-ok :
    (q q' : ListLedgerQuery) → (list_query q ≡ ok q') ↔ ((q' ≡ q) × (1 ≤ q.limit) × (q.limit ≤ 100))
unfolding list_query
list_query-ok q q' = (λ h. ground arith, λ h. ground arith)

module _ {W : Type 0} (ports : ReadPorts W) where
  -- Entries of a wallet that the owner cannot read are not listed: the call says that there is no
  -- such wallet, and the ledger is not asked.
  pub list_ledger_entries-absent :
      (q : ListLedgerQuery) (w w' : W)
      → ports.read_wallet q.wallet_id q.owner_id w ≡ (ok none, w')
      → list_ledger_entries ports q w
        ≡ (err (no_wallet q.wallet_id), ports.observe "list_ledger_entries" not_found w')
  unfolding list_ledger_entries list_answered
  list_ledger_entries-absent q w w' absent = rw absent refl

  answered-ok :
      (q : ListLedgerQuery) (a : Result (Option Wallet) × W) (p : Page LedgerEntry)
      → (list_answered ports q a).0 ≡ ok p
      → (wallet : Wallet) × (w : W) × (a ≡ (ok (some wallet), w))
        × ((ports.list_entries q.wallet_id q.owner_id q.limit q.cursor w).0 ≡ ok p)
  unfolding list_answered listed
  answered-ok q (ok none, w) p h = cc h
  answered-ok q (ok (some wallet), w) p h = (wallet, w, refl, h)
  answered-ok q (err e, w) p h = cc h

  -- A page that is returned is of a wallet that the owner has read, and was asked for with the same
  -- wallet and owner.
  pub list_ledger_entries-ok :
      (q : ListLedgerQuery) (w : W) (p : Page LedgerEntry)
      → (list_ledger_entries ports q w).0 ≡ ok p
      → (wallet : Wallet) × (w' : W) × (ports.read_wallet q.wallet_id q.owner_id w
          ≡ (ok (some wallet), w'))
        × ((ports.list_entries q.wallet_id q.owner_id q.limit q.cursor w').0 ≡ ok p)
  unfolding list_ledger_entries
  list_ledger_entries-ok q w p h = answered-ok q (ports.read_wallet q.wallet_id q.owner_id w) p h
