-- ===== src/Redis/Locking/Exclusive.antt =====
-- Who holds the lock of src/evenkeel/infrastructure/adapters/redis/locking.py.
use evenkeel.Prelude.{
  ℕ, ◌+◌, ◌<◌, ◌≤◌, ◌≡◌, refl, true, false, Option, none, some, List, [], ◌∷◌, leb, arith,
}
use evenkeel.Prelude.Text.{Text, text_beq, text_beq_iff}
use evenkeel.Redis.Keyspace.{Keyspace, IsKeyspace}
use evenkeel.Redis.Locking.{acquire, claim_found, release_token, release_held}

-- What entries and exits do with the key, by the token of the entry.
pub data Use : Type 0 where
  acquiring : Text → ℕ → Use
  releasing : Text → Use

-- The calls are in the order of the clock, between two instants, and none is of the token.
abbrev pub Others : Text → ℕ → ℕ → List (ℕ × Use) → Type 0
Others token s t [] = s ≤ t
Others token s t ((now, acquiring other ttl) ∷ uses) =
    (s ≤ now) × (text_beq other token ≡ false) × Others token now t uses
Others token s t ((now, releasing other) ∷ uses) =
    (s ≤ now) × (text_beq other token ≡ false) × Others token now t uses

Others-le : (token : Text) (s t : ℕ) (uses : List (ℕ × Use)) → Others token s t uses → s ≤ t
Others-le token s t [] order = order
Others-le token s t ((now, acquiring other ttl) ∷ uses) (h, _, order) =
    let rest = Others-le token now t uses order in omega arith
Others-le token s t ((now, releasing other) ∷ uses) (h, _, order) =
    let rest = Others-le token now t uses order in omega arith

module _ {R : Type 0} (server : Keyspace R) where
  unfoldable pub use_key : Text → List (ℕ × Use) → R → R
  use_key k [] r = r
  use_key k ((now, acquiring token ttl) ∷ uses) r =
      use_key k uses (acquire server now k token ttl r).1
  use_key k ((now, releasing token) ∷ uses) r = use_key k uses (release_token server now k token r)

  module _ (keyspace : IsKeyspace server) where
    acquire_held :
        (now : ℕ) (k token other : Text) (ttl : ℕ) (r : R)
        → server.get now k r ≡ some token
        → acquire server now k other ttl r ≡ (false, r)
    unfolding acquire claim_found
    acquire_held now k token other ttl r held = rw held refl

    release_other :
        (now : ℕ) (k token other : Text) (r : R)
        → server.get now k r ≡ some token
        → text_beq other token ≡ false
        → release_token server now k other r ≡ r
    unfolding release_token release_held
    release_other now k token other r held apart =
        let apart' : text_beq token other ≡ false =
          ground (arith, text_beq_iff other token, text_beq_iff token other, apart) in
        rw (held, apart') refl

    -- What others do with a key that is held, when it is before the end of the entry's time.
    unmoved :
        (token k : Text) (s t : ℕ) (uses : List (ℕ × Use)) (r : R)
        → Others token s t uses
        → server.get t k r ≡ some token
        → use_key k uses r ≡ r
    unfolding use_key
    unmoved token k s t [] r order held = refl
    unmoved token k s t ((now, acquiring other ttl) ∷ uses) r (_, apart, order) held =
        let held_now = keyspace.later now t k token r (Others-le token now t uses order) held in
        rw (acquire_held now k token other ttl r held_now) (unmoved token k now t uses r order held)
    unmoved token k s t ((now, releasing other) ∷ uses) r (_, apart, order) held =
        let held_now = keyspace.later now t k token r (Others-le token now t uses order) held in
        rw (release_other now k token other r held_now apart)
          (unmoved token k now t uses r order held)

    granted_free :
        (now : ℕ) (k token : Text) (ttl : ℕ) (r : R) (found : Option Text)
        → (claim_found server now k token ttl found r).0 ≡ true
        → claim_found server now k token ttl found r ≡ (true, server.set now k token ttl r)
    unfolding claim_found
    granted_free now k token ttl r none granted = refl
    granted_free now k token ttl r (some held) granted = ground (arith, granted)

    -- What is there of the grant while its time has not passed.
    granted_there :
        (now t : ℕ) (k token : Text) (ttl : ℕ) (r : R)
        → now ≤ t
        → t < now + ttl
        → server.get t k (server.set now k token ttl r) ≡ some token
    granted_there now t k token ttl r after early =
        let same : text_beq k k ≡ true = (text_beq_iff k k).1 refl in
        let live : leb (now + ttl) t ≡ false = ground (arith, early) in
        rw (keyspace.get-set now t k k token ttl r after, same, live) refl

    freed :
        (t : ℕ) (k token : Text) (r : R)
        → server.get t k r ≡ some token
        → server.get t k (release_token server t k token r) ≡ none
    unfolding release_token release_held
    freed t k token r held =
        let same : text_beq token token ≡ true = (text_beq_iff token token).1 refl in
        let same_key : text_beq k k ≡ true = (text_beq_iff k k).1 refl in
        let after : t ≤ t = omega arith in
        rw (held, same, keyspace.get-del t t k k r after, same_key) refl

    -- A grant of the lock outlasts whatever others do with its key before the grant's time has
    -- passed, releases of a token that is no longer there included: at each instant before that
    -- the key is still the holder's, another entry is refused and changes nothing, and the holder's
    -- own release frees the key.
    pub granted_exclusive :
        (now t : ℕ) (k token : Text) (ttl : ℕ) (r : R) (uses : List (ℕ × Use))
        → (other : Text) → (other_ttl : ℕ) → (acquire server now k token ttl r).0 ≡ true
        → Others token now t uses
        → t < now + ttl
        → let r' = use_key k uses (acquire server now k token ttl r).1 in
          (server.get t k r' ≡ some token)
          × (acquire server t k other other_ttl r' ≡ (false, r'))
          × (server.get t k (release_token server t k token r') ≡ none)
    unfolding acquire
    granted_exclusive now t k token ttl r uses other other_ttl granted order early =
        let there = granted_there now t k token ttl r (Others-le token now t uses order) early in
        let held : server.get t k (use_key k uses (acquire server now k token ttl r).1)
            ≡ some token =
          rw (granted_free now k token ttl r (server.get now k r) granted)
            (rw (unmoved token k now t uses (server.set now k token ttl r) order there) there) in
        (held, acquire_held t k token other other_ttl _ held, freed t k token _ held)
