-- ===== src/Http/Transport.antt =====
-- `JsonHttpTransport` of src/evenkeel/infrastructure/adapters/http/transport.py, over what lies
-- behind it: the clock, the random numbers and the session. Times are in milliseconds, and an
-- attempt is cancelled by nobody.
pub mod Loop
pub mod Capped
pub mod Classified
use evenkeel.Prelude.{
  ℕ, zero, suc, ◌+◌, ◌-◌, ◌*◌, ◌^◌, min, Bool, true, false, not, ◌&&◌, ◌||◌, Option, none, some,
  List, [], ◌∷◌, ◌++◌, ltb, leb, ◌==◌, length, if◌then◌else◌,
}
use evenkeel.Prelude.Int.{ℤ, pos, negsuc}
use evenkeel.Prelude.Text.{Text}

pub data Failure : Type 0 where
  no_failure timeout connection server_error client_error oversized : Failure
  malformed redirected bulkhead_full budget_exhausted : Failure

-- `_RETRYABLE`
unfoldable pub retryable : Failure → Bool
retryable timeout = true
retryable connection = true
retryable server_error = true
retryable _ = false

pub record TransportPolicy : Type 0 where
  pub total_timeout : ℕ
  pub budget : ℕ
  pub max_attempts : ℕ
  pub backoff_base : ℕ
  pub backoff_max : ℕ
  pub max_response_bytes : ℕ

-- `B` is what `json.loads` makes of an object.
pub record JsonResponse (B : Type 0) : Type 0 where
  pub status : Option ℕ
  pub body : Option B
  pub failure : Failure

abbrev pub failed : {B : Type 0} → Option ℕ → Failure → JsonResponse B
failed status failure = record { status = status; body = none; failure = failure }

abbrev is_none : Failure → Bool
is_none no_failure = true
is_none _ = false

abbrev is_some {ℓ} : {A : Type ℓ} → Option A → Bool
is_some none = false
is_some (some a) = true

-- `JsonResponse.ok`
unfoldable pub is_ok : {B : Type 0} → JsonResponse B → Bool
is_ok r = is_none r.failure && is_some r.body

-- What the session's `post` comes to: a response, whose body has been read up to the cap, a
-- timeout, or an error of the client library.
pub data Posted : Type 0 where
  responded : ℕ → Text → Option Text → Posted
  timed_out : Posted
  client_failed : Posted

-- `_retry_after_ms`; `parse` is Python's `float`, in milliseconds.
unfoldable pub retry_after : (Text → Option ℤ) → Option Text → Option ℕ
retry_after parse none = none
retry_after parse (some []) = none
retry_after parse (some (c ∷ cs)) = elim (parse (c ∷ cs)) [
  | none ↦ none
  | some (pos n) ↦ some n
  | some (negsuc n) ↦ some 0
]

-- A response that is neither a redirect nor an error, by its size and its body.
unfoldable pub accept :
    {B : Type 0} → TransportPolicy → (Text → Option B) → ℕ → Text → JsonResponse B
accept policy decode status raw =
    if ltb policy.max_response_bytes (length raw)
    then failed (some status) oversized
    else elim (decode raw) [
      | none ↦ failed (some status) malformed
      | some body ↦ record { status = some status; body = some body; failure = no_failure }
    ]

-- `_single_attempt`, after the post: `decode` is `decode_object`.
unfoldable pub classify :
    {B : Type 0}
    → TransportPolicy
    → (Text → Option ℤ)
    → (Text → Option B)
    → Posted
    → JsonResponse B × Option ℕ
unfolding accept retry_after
classify policy parse decode timed_out = (failed none timeout, none)
classify policy parse decode client_failed = (failed none connection, none)
classify policy parse decode (responded status raw header) =
    let after = retry_after parse header in
    if leb 300 status && ltb status 400
    then (failed (some status) redirected, after)
    else if leb 500 status || status == 429
    then (failed (some status) server_error, after)
    else if leb 400 status
    then (failed (some status) client_error, after)
    else (accept policy decode status raw, after)

-- What lies behind the transport. The post is given its timeout, and `jitter` draws up to a ceiling.
pub record Session (W : Type 0) : Type 0 where
  pub clock : W → ℕ
  pub post : ℕ → W → Posted × W
  pub jitter : ℕ → W → ℕ × W
  pub sleep : ℕ → W → W

module _ {W B : Type 0} (session : Session W) (policy : TransportPolicy) (parse : Text → Option ℤ)
    (decode : Text → Option B) where
  -- `_single_attempt`: the attempt may not outlive the budget.
  unfoldable pub single_attempt : ℕ → W → (JsonResponse B × Option ℕ) × W
  unfolding classify
  single_attempt remaining w =
      let (p, w') = session.post (min policy.total_timeout remaining) w in
      (classify policy parse decode p, w')

  -- `_backoff_ms`
  unfoldable pub backoff : ℕ → Option ℕ → W → ℕ × W
  backoff attempt (some after) w = (min after policy.backoff_max, w)
  backoff attempt none w =
      session.jitter (min policy.backoff_max (policy.backoff_base * 2 ^ (attempt - 1))) w

  -- The attempts that are left of the loop, and the result so far.
  unfoldable pub attempts : ℕ → ℕ → ℕ → JsonResponse B → W → JsonResponse B × W
  attempts deadline attempt zero result w = (result, w)
  attempts deadline attempt (suc left) result w =
      if leb deadline (session.clock w)
      then (failed none budget_exhausted, w)
      else let ((response, after), w₁) = single_attempt (deadline - session.clock w) w in
        elim (not (retryable response.failure) || left == 0) [
          | true ↦ (response, w₁)
          | false ↦
              let (pause, w₂) = backoff attempt after w₁ in
              elim (leb (deadline - session.clock w₂) pause) [
                | true ↦ (response, w₂)
                | false ↦ attempts deadline (attempt + 1) left response (session.sleep pause w₂)
              ]
        ]

  -- `_attempt_loop`
  unfoldable pub attempt_loop : W → JsonResponse B × W
  unfolding attempts
  attempt_loop w =
      attempts (session.clock w + policy.budget) 1 policy.max_attempts (failed none connection) w

-- A stream: what a read of some bytes returns, and the stream after it.
pub record Stream (S : Type 0) : Type 0 where
  pub read : ℕ → S → Text × S

module _ {S : Type 0} (stream : Stream S) where
  -- The loop of `read_capped`, on fuel: the bytes still wanted, and a read that may be empty.
  unfoldable pub read_left : ℕ → ℕ → S → Text
  read_left zero left s = []
  read_left (suc fuel) left s =
      let (chunk, s') = stream.read left s in
      let rest = read_left fuel (left - length chunk) s' in
      if length chunk == 0 then [] else if leb left (length chunk) then chunk else chunk ++ rest

  -- `read_capped`: every round but the last reads a byte at least.
  unfoldable pub read_capped : ℕ → S → Text
  unfolding read_left
  read_capped limit s = read_left (limit + 1) limit s
