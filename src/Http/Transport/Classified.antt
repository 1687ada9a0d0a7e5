-- ===== src/Http/Transport/Classified.antt =====
-- What `_single_attempt` of src/evenkeel/infrastructure/adapters/http/transport.py makes of an
-- answer.
use evenkeel.Prelude.{
  ℕ, ◌<◌, ◌≤◌, ◌≡◌, ◌≢◌, refl, ◌⊎◌, inl, inr, true, false, Option-cases, Option, some, length,
  arith,
}
use evenkeel.Prelude.Int.{ℤ}
use evenkeel.Prelude.Text.{Text}
use evenkeel.Http.Transport.{
  TransportPolicy, Posted, responded, timed_out, client_failed, accept, classify, retryable,
}

module _ {B : Type 0} (policy : TransportPolicy) (parse : Text → Option ℤ)
    (decode : Text → Option B) where
  accept-body :
      (status : ℕ) (raw : Text) (b : B)
      → (accept policy decode status raw).body ≡ some b
      → (length raw ≤ policy.max_response_bytes) × (decode raw ≡ some b)
  unfolding accept
  accept-body status raw b h = elim (Option-cases (decode raw)) [
    | inl e ↦ ground (arith, e)
    | inr (x, e) ↦ ground (arith, e)
  ]

  -- A body is handed on only from a response with a status below 300, whole and within the cap,
  -- that decodes to it.
  pub classify-body :
      (p : Posted) (b : B)
      → (classify policy parse decode p).0.body ≡ some b
      → (status : ℕ) × (raw : Text) × (header : Option Text) × (p ≡ responded status raw header)
        × (status < 300)
        × (length raw ≤ policy.max_response_bytes)
        × (decode raw ≡ some b)
  unfolding classify
  classify-body timed_out b h = cc h
  classify-body client_failed b h = cc h
  classify-body (responded status raw header) b h =
      let facts : (status < 300) × ((accept policy decode status raw).body ≡ some b) =
        ground (arith, h) in
      let (size, decoded) = accept-body status raw b facts.1 in
      (status, raw, header, refl, facts.0, size, decoded)

  -- An answer is retried exactly if its status is 429 or from 500 on, whatever its body is.
  pub classify-retryable :
      (status : ℕ) (raw : Text) (header : Option Text)
      → ((retryable (classify policy parse decode (responded status raw header)).0.failure ≡ true)
          × ((status ≡ 429) ⊎ (500 ≤ status)))
        ⊎ ((retryable (classify policy parse decode (responded status raw header)).0.failure
              ≡ false)
            × (status < 500)
            × (status ≢ 429))
  unfolding classify accept retryable
  classify-retryable status raw header = elim (Option-cases (decode raw)) [
    | inl e ↦ ground (arith, e)
    | inr (x, e) ↦ ground (arith, e)
  ]
