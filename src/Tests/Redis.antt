-- ===== src/Tests/Redis.antt =====
-- The stores of src/evenkeel/infrastructure/adapters/redis over small servers.
use evenkeel.Prelude.{
  ◌≢◌, ℕ, ◌+◌, ◌*◌, ◌≤◌, ◌≡◌, refl, Bool, true, false, Option, none, some, List, [], ◌∷◌, ◌++◌,
  drop, leb, ◌==◌, arith, if◌then◌else◌, ap, ◌∙◌,
}
use evenkeel.Prelude.Text.{Text, codes, text_beq, text_eq}
use evenkeel.Prelude.Dict.{Dict, lookup, insert, erase, lookup-insert, lookup-erase}
use evenkeel.Domain.Errors.{Result}
use evenkeel.Ports.{Receipt}
use evenkeel.Memory.Idempotency.Runs.{Call, reserving, confirming}
use evenkeel.Memory.Idempotency.Runs
use evenkeel.Redis.Keyspace.{Keyspace, IsKeyspace}
use evenkeel.Redis.Idempotency.{Payload, Json, finds, is_prefix}
use evenkeel.Redis.Idempotency.Stored.{IsJson, IsDigest, is_hex}
use evenkeel.Memory.Idempotency.{Entry, unexpired}
use evenkeel.Memory.Idempotency.Laws.{view}
use evenkeel.Ports.Polling.{wait_entry}
use evenkeel.Ports.Polling.Ended.{Over, wait_entry-Over}
use evenkeel.Redis.Locking.{acquire, release_token, try_claim}
use evenkeel.Redis.Locking.Exclusive.{Use, acquiring, releasing, use_key, granted_exclusive}
use evenkeel.Redis.Idempotency.Replies.{replies_agree, redis_replies, memory_replies}

-- Texts with the instants at which they expire.
abbrev Store : Type 0
Store = Dict Text (Text × ℕ)

abbrev live : ℕ → Option (Text × ℕ) → Option Text
live now none = none
live now (some (v, e)) = if leb e now then none else some v

abbrev server : Keyspace Store
server = record {
  get = λ now k r. live now (lookup k r);
  set = λ now k v ttl r. insert k (v, now + ttl) r;
  del = λ now k r. erase k r;
}

live_set :
    (b : Bool) (t e : ℕ) (v : Text) (o : Option (Text × ℕ))
    → live t (if b then some (v, e) else o)
      ≡ (if b then (if leb e t then none else some v) else live t o)
live_set true t e v o = refl
live_set false t e v o = refl

live_del :
    (b : Bool) (t : ℕ) (o : Option (Text × ℕ))
    → live t (if b then none else o) ≡ (if b then none else live t o)
live_del true t o = refl
live_del false t o = refl

live_later :
    (s t : ℕ) (v : Text) (o : Option (Text × ℕ)) → s ≤ t → live t o ≡ some v → live s o ≡ some v
live_later s t v none h e = e
live_later s t v (some (w, x)) h e = ground (arith, h, e)

server-IsKeyspace : IsKeyspace server
server-IsKeyspace = record {
  get-set = λ now t j k v ttl r h.
      ap (live t) (lookup-insert j k (v, now + ttl) r)
      ∙ live_set (text_beq j k) t (now + ttl) v (lookup k r);
  get-del =
      λ now t j k r h. ap (live t) (lookup-erase j k r) ∙ live_del (text_beq j k) t (lookup k r);
  later = λ s t k v r h e. live_later s t v (lookup k r) h e;
}

-- A codec that writes an object as JSON does, but for the two ids of a response, which stand as one
-- code each.
abbrev word : Text
word = codes "\"response\""

abbrev tail_of : Option Receipt → Text
tail_of none = codes "\"}"
tail_of (some r) = codes "\", \"response\": {" ++ r.entry_id ∷ r.wallet_id ∷ codes "}}"

abbrev dumped : Text → Option Receipt → Text
dumped fingerprint o = codes "{\"fingerprint\": \"" ++ fingerprint ++ tail_of o

-- Up to a quotation mark, and after it.
abbrev until : Text → Text × Text
until [] = ([], [])
until (c ∷ s) = let (before, after) = until s in if c == 34 then ([], s) else (c ∷ before, after)

abbrev with_ids : Text → Text → Option Payload
with_ids fingerprint (e ∷ w ∷ s) =
    some (record {
      fingerprint = fingerprint;
      response = some (record { entry_id = e; wallet_id = w });
    })
with_ids fingerprint _ = none

abbrev fields : Text → Text → Option Payload
fields fingerprint [] = none
fields fingerprint (c ∷ s) =
    if c == 125
    then some (record { fingerprint = fingerprint; response = none })
    else with_ids fingerprint (drop 14 s)

abbrev loaded : Text → Option Payload
loaded t = let (fingerprint, rest) = until (drop 17 t) in fields fingerprint rest

abbrev codec : Json
codec = record { dumps = λ p. dumped p.fingerprint p.response; loads = loaded }

until-digest : (s t : Text) → IsDigest s → until (s ++ 34 ∷ t) ≡ (s, t)
until-digest [] t h = refl
until-digest (c ∷ s) t (hex, h) =
    let rest = until-digest s t h in
    let other : (c == 34) ≡ false = (unfold is_hex in ground (arith, hex)) in rw (rest, other) refl

loaded-dumped :
    (s : Text) (o : Option Receipt)
    → IsDigest s
    → loaded (dumped s o) ≡ some (record { fingerprint = s; response = o })
loaded-dumped s none h = rw (until-digest s (codes "}") h) refl
loaded-dumped s (some r) h =
    rw (until-digest s (codes ", \"response\": {" ++ r.entry_id ∷ r.wallet_id ∷ codes "}}") h) refl

finds-digest : (s t : Text) → IsDigest s → finds word (s ++ t) ≡ finds word t
unfolding finds is_prefix
finds-digest [] t h = refl
finds-digest (c ∷ s) t (hex, h) =
    let rest = finds-digest s t h in
    let other : (34 == c) ≡ false = (unfold is_hex in ground (arith, hex)) in rw (other, rest) refl

-- A digest does not go on as the word does after its first mark.
quoted-digest : (s t : Text) → IsDigest s → is_prefix (codes "response\"") (s ++ 34 ∷ t) ≡ false
unfolding is_prefix
quoted-digest [] t h = refl
quoted-digest (c ∷ s) t (hex, h) =
    let other : (114 == c) ≡ false = (unfold is_hex in ground (arith, hex)) in rw other refl

finds-dumped :
    (s : Text) (o : Option Receipt)
    → IsDigest s
    → finds word (dumped s o) ≡ elim o [ none ↦ false | some r ↦ true ]
unfolding finds is_prefix
finds-dumped s none h =
    let quoted = quoted-digest s (codes "}") h in
    let rest = finds-digest s (codes "\"}") h in rw (quoted, rest) refl
finds-dumped s (some r) h =
    let t = codes ", \"response\": {" ++ r.entry_id ∷ r.wallet_id ∷ codes "}}" in
    let quoted = quoted-digest s t h in
    let rest = finds-digest s (34 ∷ t) h in rw (quoted, rest) refl

dumped_object : (s : Text) (o : Option Receipt) → text_beq (dumped s o) (codes "reserved") ≡ false
dumped_object s o = refl

codec-IsJson : IsJson codec
codec-IsJson = record {
  loads-dumps = λ p h. loaded-dumped p.fingerprint p.response h;
  finds-dumps = λ p h. finds-dumped p.fingerprint p.response h;
  dumps_object = λ p h. dumped_object p.fingerprint p.response;
}

abbrev requests : List (ℕ × Call)
requests =
    (10, reserving (codes "k") (codes "f") 60)
    ∷ (20, reserving (codes "k") (codes "f") 60)
    ∷ (30, confirming (codes "k") (record { entry_id = 1; wallet_id = 2 }) 60)
    ∷ (40, Runs.releasing (codes "k"))
    ∷ (50, reserving (codes "k") (codes "f") 60)
    ∷ []

none_live : (t : ℕ) (k : Text) (e : Entry) → view t k [] ≢ some e
unfolding view unexpired lookup
none_live t k e live = cc live

replies_agree_example :
    redis_replies server codec (λ name. true) requests [] ≡ memory_replies requests []
replies_agree_example =
    replies_agree server codec (λ name. true) server-IsKeyspace codec-IsJson 5 60 requests [] []
      (omega arith, (omega arith, (omega arith, (omega arith, (omega arith, omega arith)))))
      (unfold is_hex in ((refl, tt), ((refl, tt), (tt, (tt, ((refl, tt), tt))))))
      (record {
        at = λ t k h. unfold lookup view unexpired in refl;
        digests = λ t k e h live. absurd (none_live t k e live);
      })

-- The lock is asked for and given back by others while the entry at 100 has it.
abbrev others : List (ℕ × Use)
others =
    (200, acquiring (codes "u") 50)
    ∷ (300, releasing (codes "u"))
    ∷ (400, acquiring (codes "v") 50)
    ∷ []

granted_exclusive_example :
    let r =
      use_key server
        (codes "lock:k")
        others
        (acquire server 100 (codes "lock:k") (codes "t") 5000 []).1 in
    (server.get 4000 (codes "lock:k") r ≡ some (codes "t"))
    × (acquire server 4000 (codes "lock:k") (codes "w") 60 r ≡ (false, r))
    × (server.get 4000 (codes "lock:k") (release_token server 4000 (codes "lock:k") (codes "t") r)
        ≡ none)
granted_exclusive_example =
    granted_exclusive server server-IsKeyspace 100 4000 (codes "lock:k") (codes "t") 5000 [] others
      (codes "w") 60 (unfold acquire lookup in refl)
      (omega arith, refl, (omega arith, refl, (omega arith, refl, omega arith))) (omega arith)

-- The lock is held by another until long after the entry's deadline.
abbrev waiting : ℕ → Store → Result Bool × Store
waiting = try_claim server (λ name. true) (λ n. 25 * n) (λ n. none) (codes "lock:k") (codes "t") 50

abbrev held_store : Store
held_store = (codes "lock:k", (codes "u", 9000)) ∷ []

wait_entry-Over_example :
    Over
      (λ n. 25 * n)
      waiting
      (λ n r. r)
      100
      0
      held_store
      (wait_entry (λ n. 25 * n) waiting (λ n r. r) 100 200 held_store)
wait_entry-Over_example =
    wait_entry-Over (λ n. 25 * n) waiting (λ n r. r) 100 200 held_store (λ n. omega arith)
      (omega arith)
