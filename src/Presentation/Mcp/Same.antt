-- ===== src/Presentation/Mcp/Same.antt =====
-- The movement tools of src/evenkeel/presentation/mcp/server.py beside the handlers of
-- src/evenkeel/presentation/http/routers/v1/wallets.py.
use evenkeel.Prelude.{◌≡◌, refl, Option, some, [], ◌∷◌}
use evenkeel.Prelude.Text.{Text}
use evenkeel.Domain.Decimal.{Number, finite}
use evenkeel.Domain.Errors.{Result, ok, err}
use evenkeel.Domain.Money.{Unicode, Money, CurrencyCode, currency_code, money}
use evenkeel.Domain.Wallet.{OwnerId, WalletId}
use evenkeel.Domain.Ledger.{LedgerDirection, credit, debit}
use evenkeel.Application.Action
use evenkeel.Application.Action.{Action, pure, continue}
use evenkeel.Application.MoveMoney.{
  MoveCommand, MovementResult, RunPorts, MoveMoneySettings, described, move_money,
}
use evenkeel.Presentation.Wallets.{MoneyRequest, movement_response, request_money, post_movement}
use evenkeel.Presentation.Tools
use evenkeel.Presentation.Tools.{
  settled, Told, told, Tool, of_result, call, resume, Container, use_case, enter_use_case,
}
use evenkeel.Presentation.Mcp.{
  Python, tool_currency, money_in, money_parsed, tool_money, tool_wallet_id, movement_tool,
}

described_twice : (d : LedgerDirection) (s : Text) → described d (described d s) ≡ described d s
unfolding described
described_twice credit [] = refl
described_twice debit [] = refl
described_twice credit (c ∷ s) = refl
described_twice debit (c ∷ s) = refl

module _ {W : Type 0} (u : Unicode) (python : Python) (owner : OwnerId) (ports : RunPorts W)
    (settings : MoveMoneySettings) (d : LedgerDirection) where
  -- A container that only resolves the interactor.
  abbrev pub resolving : Container W (MoveCommand → Action W MovementResult)
  resolving = record {
    enter_scope = λ w. (ok tt, w);
    get = λ w. (ok (move_money ports settings d), w);
    exit_scope = λ w. w;
  }

  abbrev command : WalletId → Option Text → Text → Money → MoveCommand
  command id key description sum = record {
    wallet_id = id;
    owner_id = owner;
    amount = sum;
    description = description;
    idempotency_key = key;
  }

  moved_same :
      (id : WalletId) (key : Option Text) (description : Text) (sum : Money) (w : W)
      → move_money ports settings d (command id key (described d description) sum) w
        ≡ move_money ports settings d (command id key description sum) w
  unfolding move_money
  moved_same id key description sum w = rw (described_twice d description) refl

  wallet_read :
      (wallet : Text) (id : WalletId)
      → python.uuid wallet ≡ some id
      → tool_wallet_id u python wallet ≡ told id
  unfolding tool_wallet_id
  wallet_read wallet id read = rw read refl

  money_read :
      (amount currency : Text) (n : Number) (code : CurrencyCode)
      → python.decimal amount ≡ some (finite n)
      → currency_code u (python.upper currency) ≡ ok code
      → tool_money u python amount currency ≡ of_result (money (finite n) code)
  unfolding tool_money money_parsed tool_currency money_in
  money_read amount currency n code parsed coded = rw (parsed, coded) refl

  money_requested :
      (currency : Text) (n : Number) (code : CurrencyCode)
      → currency_code u (python.upper currency) ≡ ok code
      → request_money u python.upper (finite n) currency ≡ money (finite n) code
  unfolding request_money
  money_requested currency n code coded = rw (request_money, coded) refl

  -- The rest of both, from what the money came to.
  answered_same :
      (r : Result MovementResult) (w : W)
      → resume (of_result r) (λ result. settled (told (movement_response result))) w
        ≡ call (continue r (λ result. pure (movement_response result))) w
  answered_same (ok result) w = refl
  answered_same (err e) w = refl

  after_money :
      (sum : Result Money) (id : WalletId) (key : Option Text) (description : Text) (w : W)
      → resume
          (of_result sum)
          (λ m.
            Tools.◌>>=◌
              (call (move_money ports settings d (command id key (described d description) m)))
              (λ result. settled (told (movement_response result))))
          w
        ≡ call
            (continue sum (λ m.
              Action.◌>>=◌
                (move_money ports settings d (command id key description m))
                (λ result. pure (movement_response result))))
            w
  after_money (err e) id key description w = refl
  after_money (ok m) id key description w = rw (moved_same id key description m w) (
      answered_same (move_money ports settings d (command id key description m) w).0
        (move_money ports settings d (command id key description m) w).1)

  -- Where the texts that a tool is called with are read as an amount, a currency and a wallet, the
  -- tool comes to what the HTTP handler comes to with those, the state after it and every error
  -- included: the interactor's default description is the one that the tool puts in.
  pub movement_tool_same :
      (amount currency wallet description : Text) (n : Number) (code : CurrencyCode) (id : WalletId)
      → (key : Option Text) → (w : W) → python.decimal amount ≡ some (finite n)
      → currency_code u (python.upper currency) ≡ ok code
      → python.uuid wallet ≡ some id
      → let payload : MoneyRequest = record {
        amount = finite n;
        currency = currency;
        description = description;
      } in
        movement_tool u python owner resolving d wallet amount currency description key w
        ≡ call (post_movement u python.upper owner (move_money ports settings d) id payload key) w
  unfolding movement_tool use_case enter_use_case post_movement
  movement_tool_same amount currency wallet description n code id key w parsed coded read =
      rw
        (
          wallet_read wallet id read,
          money_read amount currency n code parsed coded,
          money_requested currency n code coded,
        )
        (after_money (money (finite n) code) id key description w)
