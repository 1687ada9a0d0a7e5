-- ===== src/Redis/Idempotency/Refines.antt =====
-- The store of src/evenkeel/infrastructure/adapters/redis/idempotency.py against the one in memory:
-- what it answers and what it keeps.
use Prim.Native.String.{String}
use mathlib.Core.Path.{subst}
use evenkeel.Prelude.{
  leb, true, false, Option, ℕ, ◌+◌, ◌<◌, ◌≤◌, ◌≡◌, refl, ap, sym, ◌∙◌, inl, inr, Bool, none, some,
  arith, ◌==◌, Option-cases, Bool-cases, if◌then◌else◌,
}
use evenkeel.Prelude.Text.{Text, text_beq, text_eq}
use evenkeel.Domain.Errors.{Result, ok}
use evenkeel.Ports.{Receipt, reservation, reserved}
use evenkeel.Memory.Idempotency
use evenkeel.Memory.Idempotency.{Entry, Entries, seconds, unexpired, answer, is_completed}
use evenkeel.Memory.Idempotency.Laws.{
  view, fresh, confirmed, reserve_claims, reserve_held, confirm_held, confirm_absent,
}
use evenkeel.Redis.Keyspace.{Keyspace, IsKeyspace}
use evenkeel.Redis.Translated.{translated}
use evenkeel.Redis.Idempotency.{
  Json, idem_key, reserve_script, reserve_found, release_script, release_found, answered,
  loaded_answer, payload_answer, confirm_found, confirm_loaded, reserve_reached, reserve, confirm,
  release, claim_of,
}
use evenkeel.Redis.Idempotency.Stored.{
  IsJson, IsDigest, idem_key_beq, has_response_lem, payload_of, stored_text, release_none,
  release_completed, release_reserved,
}

abbrev Fingerprinted : Option Entry → Type 0
Fingerprinted none = Unit {0}
Fingerprinted (some e) = IsDigest e.fingerprint

module _ {R : Type 0} (server : Keyspace R) (keyspace : IsKeyspace server) (json : Json)
    (codec : IsJson json) (is_redis : String → Bool) where
  -- From an instant on, every key of the server holds the text of what the memory store has live
  -- under it, and the fingerprint of that is a digest.
  pub record Agrees (now : ℕ) (d : Entries) (r : R) : Type 0 where
    pub at :
        (t : ℕ) (k : Text) → now ≤ t → server.get t (idem_key k) r ≡ stored_text json (view t k d)
    pub digests :
        (t : ℕ) (k : Text) (e : Entry) → now ≤ t → view t k d ≡ some e → IsDigest e.fingerprint

  pub Agrees-later : (now t : ℕ) (d : Entries) (r : R) → now ≤ t → Agrees now d r → Agrees t d r
  Agrees-later now t d r le a = record {
    at = λ u k h. a.at u k (omega (arith, le, h));
    digests = λ u k e h. a.digests u k e (omega (arith, le, h));
  }

  -- Entries of which the same is live agree with the same server.
  Agrees-same :
      (now : ℕ) (d d' : Entries) (r : R)
      → Agrees now d r
      → ((t : ℕ) (k : Text) → now ≤ t → view t k d' ≡ view t k d)
      → Agrees now d' r
  Agrees-same now d d' r a views = record {
    at = λ t k h. a.at t k h ∙ ap (stored_text json) (sym (views t k h));
    digests = λ t k e h live. a.digests t k e h (sym (views t k h) ∙ live);
  }

  written-IsDigest :
      (t : ℕ) (b : Bool) (e e' : Entry) (other : Option Entry)
      → IsDigest e.fingerprint
      → (other ≡ some e' → IsDigest e'.fingerprint)
      → (if b then unexpired t (some e) else other) ≡ some e'
      → IsDigest e'.fingerprint
  unfolding unexpired
  written-IsDigest t false e e' other digest rest live = rest live
  written-IsDigest t true e e' other digest rest live = elim (Bool-cases (leb e.expires_at t)) [
    | inl gone ↦ absurd (ground (arith, gone, live))
    | inr there ↦
        let same : some e ≡ some e' = rw there at live in
        subst (λ (x : Option Entry). Fingerprinted x) same digest
  ]

  -- A server whose keys change as the memory store's views do agrees again.
  Agrees-written :
      (now : ℕ) (key v : Text) (ttl : ℕ) (d d' : Entries) (r : R) (e : Entry)
      → Agrees now d r
      → IsDigest e.fingerprint
      → v ≡ json.dumps (payload_of e)
      → e.expires_at ≡ now + ttl
      → ((t : ℕ) (k : Text)
          → now ≤ t
          → view t k d' ≡ (if text_beq key k then unexpired t (some e) else view t k d))
      → Agrees now d' (server.set now (idem_key key) v ttl r)
  unfolding unexpired
  Agrees-written now key v ttl d d' r e a digest text expiry views = record {
    at = λ t k h.
        keyspace.get-set now t (idem_key key) (idem_key k) v ttl r h
        ∙ rw (idem_key_beq key k, a.at t k h, views t k h, text, expiry) (ground arith);
    digests = λ t k e' h live.
        written-IsDigest t (text_beq key k) e e' (view t k d) digest (a.digests t k e' h)
          (sym (views t k h) ∙ live);
  }

  deleted-IsDigest :
      (b : Bool) (e : Entry) (other : Option Entry)
      → (other ≡ some e → IsDigest e.fingerprint)
      → (if b then none else other) ≡ some e
      → IsDigest e.fingerprint
  deleted-IsDigest true e other rest live = absurd (ground (arith, live))
  deleted-IsDigest false e other rest live = rest live

  module _ (now : ℕ) (d : Entries) (r : R) (a : Agrees now d r) where
    absent : (key : Text) → view now key d ≡ none → server.get now (idem_key key) r ≡ none
    absent key free = a.at now key (omega arith) ∙ ap (stored_text json) free

    present :
        (key : Text) (e : Entry)
        → view now key d ≡ some e
        → server.get now (idem_key key) r ≡ some (json.dumps (payload_of e))
    present key e held = a.at now key (omega arith) ∙ ap (stored_text json) held

    -- What is answered about a live entry.
    answered-dumps :
        (key fingerprint : Text) (e : Entry)
        → IsDigest e.fingerprint
        → answered server json key fingerprint (json.dumps (payload_of e))
          ≡ ok (answer key fingerprint e e.response)
    unfolding answered loaded_answer payload_answer answer
    answered-dumps key fingerprint e digest =
        rw (codec.dumps_object (payload_of e) digest, codec.loads-dumps (payload_of e) digest) refl

    live-IsDigest : (key : Text) (e : Entry) → view now key d ≡ some e → IsDigest e.fingerprint
    live-IsDigest key e held = a.digests now key e (omega arith) held

    -- A step of the server store does as one of the memory store.
    abbrev pub Simulates : {A : Type 0} → A × Entries → Result A × R → Type 0
    Simulates (b, d') (c, r') = (c ≡ ok b) × Agrees now d' r'

    reached_free :
        (key fingerprint : Text) (ttl : ℕ)
        → server.get now (idem_key key) r ≡ none
        → reserve_reached server json now key fingerprint ttl r ≡ (
          ok (reservation reserved),
          server.set now
              (idem_key key)
              (json.dumps (claim_of server json fingerprint))
              (seconds ttl)
              r,
        )
    unfolding reserve_reached reserve_script reserve_found answered
    reached_free key fingerprint ttl free = rw free refl

    reached_held :
        (key fingerprint : Text) (ttl : ℕ) (raw : Text)
        → server.get now (idem_key key) r ≡ some raw
        → reserve_reached server json now key fingerprint ttl r
          ≡ (answered server json key fingerprint raw, r)
    unfolding reserve_reached reserve_script reserve_found
    reached_held key fingerprint ttl raw held = rw held refl

    reserve_reached_refines :
        (key fingerprint : Text) (ttl : ℕ)
        → IsDigest fingerprint
        → 0 < ttl
        → Simulates
            (Idempotency.reserve now key fingerprint ttl d)
            (reserve_reached server json now key fingerprint ttl r)
    reserve_reached_refines key fingerprint ttl digest p = elim (Option-cases (view now key d)) [
      | inl free ↦
          let claims = λ (t : ℕ) (k : Text) (h : now ≤ t).
            reserve_claims now t key k fingerprint ttl d h p free in
          subst (Simulates (Idempotency.reserve now key fingerprint ttl d))
            (sym (reached_free key fingerprint ttl (absent key free)))
            (
              ap ok (sym (claims now key (omega arith)).0),
              Agrees-written now key _ (seconds ttl) d _ r (fresh now fingerprint ttl) a digest refl
                  refl (λ t k h. (claims t k h).1),
            )
      | inr (e, held) ↦
          let holds = λ (t : ℕ) (k : Text) (h : now ≤ t).
            reserve_held now t key k fingerprint ttl d e h p held in
          subst (Simulates (Idempotency.reserve now key fingerprint ttl d))
            (sym (reached_held key fingerprint ttl _ (present key e held)))
            (
              answered-dumps key fingerprint e (live-IsDigest key e held)
                  ∙ ap ok (sym (holds now key (omega arith)).0),
              Agrees-same now d _ r a (λ t k h. (holds t k h).1),
            )
    ]

    -- `reserve` answers as the memory store does, and keeps the agreement.
    pub reserve_refines :
        (key fingerprint : Text) (ttl : ℕ)
        → IsDigest fingerprint
        → Simulates
            (Idempotency.reserve now key fingerprint ttl d)
            (reserve server json is_redis now none key fingerprint ttl r)
    unfolding reserve translated Idempotency.reserve
    reserve_refines key fingerprint ttl digest = elim (Bool-cases (ttl == 0)) [
      | inl y ↦ rw y (refl, a)
      | inr n ↦
          let reached = reserve_reached_refines key fingerprint ttl digest (ground (arith, n)) in
          rw n (unfold Idempotency.reserve in rw n at reached)
    ]

    confirm_reached_refines :
        (key : Text) (response : Receipt) (ttl : ℕ)
        → 0 < ttl
        → Simulates
            (tt, Idempotency.confirm now key response ttl d)
            (confirm_found server json now
              (idem_key key)
              response
              ttl
              (server.get now (idem_key key) r)
              r)
    unfolding confirm_found confirm_loaded
    confirm_reached_refines key response ttl p = elim (Option-cases (view now key d)) [
      | inl free ↦ rw (absent key free) (
        refl,
        Agrees-same now d _ r a (λ t k h. confirm_absent now t key k response ttl d h free),
      )
      | inr (e, held) ↦
          rw (present key e held, codec.loads-dumps (payload_of e) (live-IsDigest key e held))
            (
              refl,
              Agrees-written now key _ (seconds ttl) d _ r (confirmed now response ttl e) a
                  (live-IsDigest key e held) refl refl
                  (λ t k h. confirm_held now t key k response ttl d e h p held),
            )
    ]

    pub confirm_refines :
        (key : Text) (response : Receipt) (ttl : ℕ)
        → Simulates
            (tt, Idempotency.confirm now key response ttl d)
            (confirm server json is_redis now none key response ttl r)
    unfolding confirm translated Idempotency.confirm
    confirm_refines key response ttl = elim (Bool-cases (ttl == 0)) [
      | inl y ↦ rw y (refl, a)
      | inr n ↦
          let reached = confirm_reached_refines key response ttl (ground (arith, n)) in
          rw n (unfold Idempotency.confirm in rw n at reached)
    ]

    pub release_refines :
        (key : Text)
        → Simulates
            (tt, Idempotency.release now key d)
            (release server json is_redis now none key r)
    unfolding release translated release_script release_found
    release_refines key = elim (Option-cases (view now key d)) [
      | inl free ↦
          rw (absent key free)
            (refl, Agrees-same now d _ r a (λ t k h. release_none now t key k d h free))
      | inr (e, held) ↦
          let found =
            codec.finds-dumps (payload_of e) (live-IsDigest key e held) ∙ has_response_lem e in
          elim (Bool-cases (is_completed e)) [
            | inl done ↦
                rw (present key e held, found, done)
                  (
                    refl,
                    Agrees-same now d _ r a
                        (λ t k h. release_completed now t key k d h e held done),
                  )
            | inr running ↦
                rw (present key e held, found, running)
                  (
                    refl,
                    record {
                      at = λ t k h.
                          keyspace.get-del now t (idem_key key) (idem_key k) r h
                          ∙ rw
                              (
                                idem_key_beq key k,
                                a.at t k h,
                                release_reserved now t key k d h e held running,
                              )
                              (ground arith);
                      digests = λ t k e' h live.
                          deleted-IsDigest (text_beq key k) e' (view t k d) (a.digests t k e' h)
                            (sym (release_reserved now t key k d h e held running) ∙ live);
                    },
                  )
          ]
    ]
