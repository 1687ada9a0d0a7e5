-- ===== src/Redis/Keyspace.antt =====
-- What the adapters of src/evenkeel/infrastructure/adapters/redis ask of the server's string keys:
-- the commands, each at an instant of the server's clock in milliseconds, and what Redis documents
-- of them.
use evenkeel.Prelude.{ℕ, ◌+◌, ◌≤◌, ◌≡◌, Option, none, some, leb, if◌then◌else◌}
use evenkeel.Prelude.Text.{Text, text_beq}

-- `GET`, `SET` with an expiry, and `DEL`.
pub record Keyspace (R : Type 0) : Type 0 where
  pub get : ℕ → Text → R → Option Text
  pub set : ℕ → Text → Text → ℕ → R → R
  pub del : ℕ → Text → R → R

-- A key that was set is there until its time has passed, and a key that is not there does not come
-- back by itself.
pub record IsKeyspace {R : Type 0} (server : Keyspace R) : Type 0 where
  pub get-set :
      (now t : ℕ) (j k v : Text) (ttl : ℕ) (r : R)
      → now ≤ t
      → server.get t k (server.set now j v ttl r)
        ≡ (if text_beq j k then (if leb (now + ttl) t then none else some v) else server.get t k r)
  pub get-del :
      (now t : ℕ) (j k : Text) (r : R)
      → now ≤ t
      → server.get t k (server.del now j r) ≡ (if text_beq j k then none else server.get t k r)
  pub later :
      (s t : ℕ) (k v : Text) (r : R) → s ≤ t → server.get t k r ≡ some v → server.get s k r ≡ some v
