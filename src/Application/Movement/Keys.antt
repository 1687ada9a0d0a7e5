-- ===== src/Application/Movement/Keys.antt =====
-- The keys that the movement service of src/evenkeel/application/services/wallet_movement.py
-- asks its stores about.
use evenkeel.Prelude.{◌^◌, ◌<◌, ◌≡◌, ◌∙◌, sym, ◌∷◌, append_split}
use evenkeel.Prelude.Text.{Text}
use evenkeel.Domain.Uuid.{uuid_text}
use evenkeel.Domain.Uuid.Laws.{uuid_text-injective, length-uuid_text}
use evenkeel.Domain.Wallet.{OwnerId}
use evenkeel.Application.Movement.{scoped_key}

-- Two owners, whose identifiers have 128 bits, never share a key, whatever keys they choose, and
-- one owner's keys stay apart.
pub scoped_key-injective :
    (o o' : OwnerId) (key key' : Text)
    → o < 2 ^ 128
    → o' < 2 ^ 128
    → scoped_key o key ≡ scoped_key o' key'
    → (o ≡ o') × (key ≡ key')
unfolding scoped_key
scoped_key-injective o o' key key' h h' e =
    let (same, rest) =
      append_split (uuid_text o) (uuid_text o') (b':' ∷ key) (b':' ∷ key')
        (length-uuid_text o ∙ sym (length-uuid_text o')) e in
    (uuid_text-injective o o' h h' same, cc rest)
