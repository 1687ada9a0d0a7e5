-- ===== src/Memory/Idempotency/Laws.antt =====
-- The store as its port describes it: what is live under each key, and how each method changes it.
use evenkeel.Prelude.{ℕ, ◌+◌, ◌<◌, ◌≤◌, ◌≡◌, Option, none, some, arith, if◌then◌else◌}
use evenkeel.Prelude.Text.{Text, text_beq, text_eq, text_beq_iff}
use evenkeel.Prelude.Dict.{lookup, erase, lookup-insert, lookup-erase}
use evenkeel.Ports.{Receipt, reserved, reservation}
use evenkeel.Memory.Idempotency.{
  Entry, Entries, seconds, unexpired, drop_expired, live, answer, reserve, confirm, release,
  is_completed,
}

-- What a caller finds under a key at an instant.
unfoldable pub view : ℕ → Text → Entries → Option Entry
view now key d = unexpired now (lookup key d)

-- `_live` changes no view, at this instant or later.
pub view-live :
    (now t : ℕ) (key k : Text) (d : Entries) → now ≤ t → view t k (live now key d).1 ≡ view t k d
unfolding live view unexpired drop_expired
view-live now t key k d le = ground (arith, lookup-erase key k d, text_beq_iff key k)

-- What a claim stores.
abbrev pub fresh : ℕ → Text → ℕ → Entry
fresh now fingerprint ttl = record {
  fingerprint = fingerprint;
  expires_at = now + seconds ttl;
  response = none;
}

-- A key with nothing live under it is claimed until its ttl has passed, and no other key changes.
pub reserve_claims :
    (now t : ℕ) (key k fingerprint : Text) (ttl : ℕ) (d : Entries)
    → now ≤ t
    → 0 < ttl
    → view now key d ≡ none
    → ((reserve now key fingerprint ttl d).0 ≡ reservation reserved)
      × (view t k (reserve now key fingerprint ttl d).1
          ≡ (if text_beq key k then unexpired t (some (fresh now fingerprint ttl)) else view t k d))
unfolding reserve view unexpired drop_expired
reserve_claims now t key k fingerprint ttl d le positive free = ground (
  arith,
  lookup-erase key k d,
  lookup-insert key k (fresh now fingerprint ttl) d,
  lookup-insert key k (fresh now fingerprint ttl) (erase key d),
  text_beq_iff key k,
)

-- A key with a live entry is answered by it, and no view changes.
pub reserve_held :
    (now t : ℕ) (key k fingerprint : Text) (ttl : ℕ) (d : Entries) (e : Entry)
    → now ≤ t
    → 0 < ttl
    → view now key d ≡ some e
    → ((reserve now key fingerprint ttl d).0 ≡ answer key fingerprint e e.response)
      × (view t k (reserve now key fingerprint ttl d).1 ≡ view t k d)
unfolding reserve view unexpired drop_expired
reserve_held now t key k fingerprint ttl d e le positive held = ground arith

abbrev pub confirmed : ℕ → Receipt → ℕ → Entry → Entry
confirmed now response ttl e = record e { response = some response; expires_at = now + seconds ttl }

-- A live entry is completed, with a fresh ttl.
pub confirm_held :
    (now t : ℕ) (key k : Text) (response : Receipt) (ttl : ℕ) (d : Entries) (e : Entry)
    → now ≤ t
    → 0 < ttl
    → view now key d ≡ some e
    → view t k (confirm now key response ttl d)
      ≡ (if text_beq key k then unexpired t (some (confirmed now response ttl e)) else view t k d)
unfolding confirm view unexpired drop_expired
confirm_held now t key k response ttl d e le positive held =
    ground (arith, lookup-insert key k (confirmed now response ttl e) d, text_beq_iff key k)

-- Nothing is resurrected: without a live entry, or without a ttl, no view changes.
pub confirm_absent :
    (now t : ℕ) (key k : Text) (response : Receipt) (ttl : ℕ) (d : Entries)
    → now ≤ t
    → view now key d ≡ none
    → view t k (confirm now key response ttl d) ≡ view t k d
unfolding confirm view unexpired drop_expired
confirm_absent now t key k response ttl d le free =
    ground (arith, lookup-erase key k d, text_beq_iff key k)

-- Releasing a key changes what is live, at this instant or later, only under that key: there a
-- reservation is forgotten, and a completed record stays.
pub view-release :
    (now t : ℕ) (key k : Text) (d : Entries)
    → now ≤ t
    → view t k (release now key d) ≡ (
        if text_beq key k
        then elim (view now key d) [
          | none ↦ none
          | some e ↦ if is_completed e then view t k d else none
        ]
        else view t k d)
unfolding release view unexpired drop_expired
view-release now t key k d le = ground (arith, lookup-erase key k d, text_beq_iff key k)
