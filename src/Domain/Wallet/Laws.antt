-- ===== src/Domain/Wallet/Laws.antt =====
-- What each method of a wallet does to it, on every outcome.
use evenkeel.Prelude.{◌+◌, ◌≡◌, refl, ◌↔◌, Bool, true, false, [], ◌∷◌, arith}
use evenkeel.Prelude.Int.{pos, ◌+ℤ◌, ◌-ℤ◌, ◌≤ℤ◌, int_laws}
use evenkeel.Domain.Decimal.Cents.{cents_sign}
use evenkeel.Domain.Errors.{
  Result, ok, err, Error, ◌>>=◌, raise_if, raise_domain, uuid, wallet_closed,
}
use evenkeel.Domain.Money.{Money, CurrencyCode, money_add, money_sub, money_less, require_positive}
use evenkeel.Domain.Money.Laws.{
  value, IsMoney, money_add-ok, money_sub-ok, money_less-ok, require_positive-ok, is_zero_lem,
  money_zero_lem,
}
use evenkeel.Domain.Wallet.{
  Wallet, WalletId, OwnerId, Instant, opened, closed, new_wallet, open_wallet, require_open,
  deposit, withdraw, close,
}

-- The balance is validated money, and not below zero.
pub record IsValid (w : Wallet) : Type 0 where
  pub balance : IsMoney w.balance
  pub nonnegative : pos 0 ≤ℤ value w.balance

-- What a block that returned says of its first statement and of the rest.
module _ {ℓ κ} {A : Type ℓ} {B : Type κ} where
  pub >>=-eq-ok :
      (first : Result A) (rest : A → Result B) {returned : B}
      → (first >>= rest) ≡ ok returned
      → (x : A) × (first ≡ ok x) × (rest x ≡ ok returned)
  >>=-eq-ok (err e) rest h = cc h
  >>=-eq-ok (ok x) rest h = (x, refl, h)

-- A guard that let the code through.
pub raise_if-ok {ℓ} :
    {B : Type ℓ} (c : Bool) (e : Error) (k : Result B) {b : B}
    → (raise_if c (err e) >>= λ _. k) ≡ ok b
    → (c ≡ false) × (k ≡ ok b)
raise_if-ok true e k h = cc
raise_if-ok false e k h = (refl, h)

-- What a movement by an amount changes: the balance, the version by one, and the time stamp.
abbrev pub MovesTo : Wallet → Money → Instant → Wallet → Type 0
MovesTo w balance now w' =
    w' ≡ record w { balance = balance; version = w.version + 1; updated_at = now }

require_open-ok : (w : Wallet) (u : Unit {0}) → require_open w ≡ ok u → w.status ≡ opened
unfolding require_open
require_open-ok w u h = ground arith

-- Of a valid wallet and a validated amount: a deposit that succeeds was of a positive amount, into
-- an open wallet and in its currency; it adds exactly that amount, counts the version up by one,
-- and changes nothing else but the time stamp.
pub deposit-ok :
    (w w' : Wallet) (amount balance : Money) (now : Instant)
    → IsValid w
    → IsMoney amount
    → deposit w amount now ≡ ok (w', balance)
    → (w.status ≡ opened)
      × (pos 1 ≤ℤ value amount)
      × (w.balance.currency ≡ amount.currency)
      × MovesTo w balance now w'
      × IsMoney balance
      × (balance.currency ≡ w.balance.currency)
      × (value balance ≡ value w.balance +ℤ value amount)
unfolding deposit
deposit-ok w w' amount balance now v m h =
    let (u, e₁, h₁) = >>=-eq-ok (require_open w) _ h in
    let (p, e₂, h₂) = >>=-eq-ok (require_positive amount) _ h₁ in
    let (b, e₃, h₃) = >>=-eq-ok (money_add w.balance amount) _ h₂ in
    let same : b ≡ balance = cc h₃ in
    let (c, c', b-money, sum) = money_add-ok w.balance amount balance v.balance m (cc (e₃, same)) in
    (
      require_open-ok w u e₁,
      (require_positive-ok amount p e₂).1,
      c,
      cc (h₃, same),
      b-money,
      c',
      sum,
    )

-- Of a valid wallet and a validated amount: a withdrawal that succeeds was of a positive amount,
-- from an open wallet, in its currency and covered by its balance; it subtracts exactly that
-- amount, counts the version up by one, and changes nothing else but the time stamp.
pub withdraw-ok :
    (w w' : Wallet) (amount balance : Money) (now : Instant)
    → IsValid w
    → IsMoney amount
    → withdraw w amount now ≡ ok (w', balance)
    → (w.status ≡ opened)
      × (pos 1 ≤ℤ value amount)
      × (w.balance.currency ≡ amount.currency)
      × MovesTo w balance now w'
      × IsMoney balance
      × (balance.currency ≡ w.balance.currency)
      × (value balance ≡ value w.balance -ℤ value amount)
      × (value amount ≤ℤ value w.balance)
unfolding withdraw
withdraw-ok w w' amount balance now v m h =
    let (u, e₁, h₁) = >>=-eq-ok (require_open w) _ h in
    let (p, e₂, h₂) = >>=-eq-ok (require_positive amount) _ h₁ in
    let (short, e₃, h₃) = >>=-eq-ok (money_less w.balance amount) _ h₂ in
    let (covered, h₄) = raise_if-ok short _ _ h₃ in
    let (b, e₅, h₅) = >>=-eq-ok (money_sub w.balance amount) _ h₄ in
    let same : b ≡ balance = cc h₅ in
    let (c, c', b-money, sum) = money_sub-ok w.balance amount balance v.balance m (cc (e₅, same)) in
    (
      require_open-ok w u e₁,
      (require_positive-ok amount p e₂).1,
      c,
      cc (h₅, same),
      b-money,
      c',
      sum,
      ground (arith, (money_less-ok w.balance amount short v.balance m e₃).1, covered),
    )

-- A wallet that a method returns is valid again.
pub deposit-IsValid :
    (w w' : Wallet) (amount balance : Money) (now : Instant)
    → IsValid w
    → IsMoney amount
    → deposit w amount now ≡ ok (w', balance)
    → IsValid w'
deposit-IsValid w w' amount balance now v m h =
    let (_, positive, _, moved, money, _, sum) = deposit-ok w w' amount balance now v m h in
    rw moved (record { balance = money; nonnegative = rw sum (omega int_laws) })

pub withdraw-IsValid :
    (w w' : Wallet) (amount balance : Money) (now : Instant)
    → IsValid w
    → IsMoney amount
    → withdraw w amount now ≡ ok (w', balance)
    → IsValid w'
withdraw-IsValid w w' amount balance now v m h =
    let (_, _, _, moved, money, _, sum, covered) = withdraw-ok w w' amount balance now v m h in
    rw moved (record { balance = money; nonnegative = rw sum (omega int_laws) })

-- A wallet closes exactly when it is open and holds nothing.
pub close-ok :
    (w w' : Wallet) (now : Instant)
    → (close w now ≡ ok w') ↔ (
        (w.status ≡ opened)
        × (value w.balance ≡ pos 0)
        × (w' ≡ record w { status = closed; version = w.version + 1; updated_at = now }))
unfolding close require_open
close-ok w w' now = ground (arith, is_zero_lem w.balance)

-- A closed wallet refuses a deposit, a withdrawal and a second closing, each with the error that
-- says so.
pub closed_refuses :
    (w : Wallet) (amount : Money) (now : Instant)
    → w.status ≡ closed
    → (deposit w amount now ≡ raise_domain wallet_closed (("wallet_id", uuid w.id) ∷ []))
      × (withdraw w amount now ≡ raise_domain wallet_closed (("wallet_id", uuid w.id) ∷ []))
      × (close w now ≡ raise_domain wallet_closed (("wallet_id", uuid w.id) ∷ []))
unfolding deposit withdraw close require_open
closed_refuses w amount now h = (rw h refl, rw h refl, rw h refl)

-- A row loads exactly when its balance is not below zero.
pub new_wallet-ok :
    (w w' : Wallet) → (new_wallet w ≡ ok w') ↔ ((w' ≡ w) × (pos 0 ≤ℤ value w.balance))
unfolding new_wallet
new_wallet-ok w w' = ground (arith, cents_sign w.balance.amount)

-- A new wallet is open, valid, empty and at version 0.
pub open_wallet_lem :
    (id : WalletId) (owner : OwnerId) (c : CurrencyCode) (now : Instant)
    → (w : Wallet) × (open_wallet id owner c now ≡ ok w)
      × IsValid w
      × (w.id ≡ id)
      × (w.owner_id ≡ owner)
      × (w.balance.currency ≡ c)
      × (value w.balance ≡ pos 0)
      × (w.status ≡ opened)
      × (w.version ≡ 0)
unfolding open_wallet new_wallet
open_wallet_lem id owner c now =
    let (z, e, money, cur, empty) = money_zero_lem c in
    (
      record {
        id = id;
        owner_id = owner;
        balance = z;
        status = opened;
        version = 0;
        created_at = now;
        updated_at = now;
      },
      rw e (ground (arith, cents_sign z.amount)),
      record { balance = money; nonnegative = rw empty (omega arith) },
      refl,
      refl,
      cur,
      empty,
      refl,
      refl,
    )
