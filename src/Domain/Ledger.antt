-- ===== src/Domain/Ledger.antt =====
-- Ledger entries: src/evenkeel/domain/entities/ledger_entry.py.
use evenkeel.Prelude.{ℕ, Bool, [], ◌∷◌, if◌then◌else◌}
use evenkeel.Prelude.Text.{Text}
use evenkeel.Domain.Money.{Money}
use evenkeel.Domain.Wallet.{LedgerEntryId, WalletId, Instant}

pub data LedgerDirection : Type 0 where
  credit debit : LedgerDirection

pub record LedgerEntry : Type 0 where
  pub id : LedgerEntryId
  pub wallet_id : WalletId
  pub direction : LedgerDirection
  pub amount : Money
  pub balance_after : Money
  pub description : Text
  pub occurred_at : Instant

module _ (is_space : ℕ → Bool) where
  -- `str.lstrip`
  unfoldable pub strip_left : Text → Text
  strip_left [] = []
  strip_left (c ∷ s) = let rest = strip_left s in if is_space c then rest else c ∷ s

  -- A character before a stripped rest.
  unfoldable pub strip_keep : ℕ → Text → Text
  strip_keep c [] = if is_space c then [] else c ∷ []
  strip_keep c (d ∷ t) = c ∷ d ∷ t

  -- `str.rstrip`
  unfoldable pub strip_right : Text → Text
  unfolding strip_keep
  strip_right [] = []
  strip_right (c ∷ s) = strip_keep c (strip_right s)

  -- `str.strip`
  unfoldable pub strip : Text → Text
  unfolding strip_left strip_right
  strip s = strip_right (strip_left s)

  -- `LedgerEntry.record`
  unfoldable pub record_entry :
      LedgerEntryId → WalletId → LedgerDirection → Money → Money → Text → Instant → LedgerEntry
  unfolding strip
  record_entry id wallet_id direction amount balance_after description now = record {
    id = id;
    wallet_id = wallet_id;
    direction = direction;
    amount = amount;
    balance_after = balance_after;
    description = strip description;
    occurred_at = now;
  }
