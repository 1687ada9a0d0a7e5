-- ===== src/Redis/Idempotency/Stored.antt =====
-- What the server of src/evenkeel/infrastructure/adapters/redis/idempotency.py stores for an entry of
-- the memory store, and what a release leaves of the entries.
use evenkeel.Prelude.{
  ℕ, ◌≤◌, ◌≡◌, refl, ap, sym, ◌∙◌, inl, inr, Bool, true, false, Option, none, some, arith,
  Option-cases, Bool-cases, leb, ◌&&◌, ◌||◌, All, if◌then◌else◌,
}
use evenkeel.Prelude.Text.{Text, codes, text_beq, text_beq_iff, text_eq}
use evenkeel.Prelude.Dict.{lookup}
use evenkeel.Ports.{Receipt}
use evenkeel.Memory.Idempotency
use evenkeel.Memory.Idempotency.{Entry, Entries, seconds, unexpired, answer, is_completed}
use evenkeel.Memory.Idempotency.Laws.{view, view-release}
use evenkeel.Redis.Idempotency.{Payload, Json, finds, idem_key}

abbrev pub has_response : Option Receipt → Bool
has_response none = false
has_response (some r) = true

-- A lower-case hexadecimal digit, and a text of them, as `hexdigest` gives it.
unfoldable pub is_hex : ℕ → Bool
is_hex c = (leb 48 c && leb c 57) || (leb 97 c && leb c 102)

abbrev pub IsDigest : Text → Type 0
IsDigest s = All (λ c. is_hex c ≡ true) s

-- What is relied on of the JSON library, for a payload whose fingerprint is a digest: what was dumped
-- loads, it has the word "response" in quotes exactly if it has one, and it is not the script's
-- word.
pub record IsJson (json : Json) : Type 0 where
  pub loads-dumps : (p : Payload) → IsDigest p.fingerprint → json.loads (json.dumps p) ≡ some p
  pub finds-dumps :
      (p : Payload)
      → IsDigest p.fingerprint
      → finds (codes "\"response\"") (json.dumps p) ≡ has_response p.response
  pub dumps_object :
      (p : Payload) → IsDigest p.fingerprint → text_beq (json.dumps p) (codes "reserved") ≡ false

pub idem_key_beq : (a b : Text) → text_beq (idem_key a) (idem_key b) ≡ text_beq a b
unfolding idem_key
idem_key_beq a b = refl

-- The payload of an entry.
abbrev pub payload_of : Entry → Payload
payload_of e = record { fingerprint = e.fingerprint; response = e.response }

abbrev pub stored_text : Json → Option Entry → Option Text
stored_text json none = none
stored_text json (some e) = some (json.dumps (payload_of e))

-- The views after a release, by what was live under the key.
view_gone :
    (now t : ℕ) (key : Text) (d : Entries) → now ≤ t → view now key d ≡ none → view t key d ≡ none
unfolding view unexpired
view_gone now t key d h free = elim (Option-cases (lookup key d)) [
  | inl missing ↦ ground (arith, missing)
  | inr (e, there) ↦ ground (arith, there)
]

module _ (now t : ℕ) (key k : Text) (d : Entries) (h : now ≤ t) where
  pub release_none : view now key d ≡ none → view t k (Idempotency.release now key d) ≡ view t k d
  release_none free = elim (Bool-cases (text_beq key k)) [
    | inl y ↦
        let same : view t k d ≡ none =
          ap (λ (x : Text). view t x d) (sym ((text_beq_iff key k).0 y))
          ∙ view_gone now t key d h free in
        view-release now t key k d h ∙ rw (y, free, same) refl
    | inr n ↦ view-release now t key k d h ∙ rw n refl
  ]

  pub release_completed :
      (e : Entry)
      → view now key d ≡ some e
      → is_completed e ≡ true
      → view t k (Idempotency.release now key d) ≡ view t k d
  release_completed e held done = elim (Bool-cases (text_beq key k)) [
    | inl y ↦ view-release now t key k d h ∙ rw (y, held, done) refl
    | inr n ↦ view-release now t key k d h ∙ rw n refl
  ]

  pub release_reserved :
      (e : Entry)
      → view now key d ≡ some e
      → is_completed e ≡ false
      → view t k (Idempotency.release now key d) ≡ (if text_beq key k then none else view t k d)
  release_reserved e held running = view-release now t key k d h ∙ rw (held, running) refl

pub has_response_lem : (e : Entry) → has_response e.response ≡ is_completed e
has_response_lem e = go e.response
  where
    go : (x : Option Receipt) → has_response x ≡ elim x [ none ↦ false | some _ ↦ true ]
    go none = refl
    go (some x) = refl
