-- ===== src/Http/Call/Leased.antt =====
-- A call of src/evenkeel/infrastructure/adapters/http goes out under a lease alone.
use evenkeel.Prelude.{
  ℕ, zero, suc, ◌+◌, ◌-◌, Bool, true, false, Option, none, some, List, not, ◌||◌, leb, ◌==◌,
  Bool-cases, inl, inr, ◌∷◌, ◌≡◌, refl,
}
use evenkeel.Prelude.Int.{ℤ}
use evenkeel.Prelude.Text.{Text}
use evenkeel.Prelude.Dict.{Dict}
use evenkeel.Domain.Decimal.{Number}
use evenkeel.Ports.{RiskCheck}
use evenkeel.Application.Triple.{Triple, Keeps, triple_bind, triple_finally_into}
use evenkeel.Http.Transport.{
  TransportPolicy, Session, JsonResponse, single_attempt, backoff, attempts, attempt_loop,
  retryable,
}
use evenkeel.Http.Risk.{Body, assess_response}
use evenkeel.Http.Call.{
  CallPolicy, BulkheadPort, Payload, attempted, under_lease, guarded_post, post_json, outcome_label,
  bulkhead_policy, assess,
}

-- What a session is relied on for while a lease is held: to leave it held.
pub record Within {W : Type 0} (P : W → Type 0) (session : Session W) : Type 0 where
  pub post : (n : ℕ) (w : W) → P w → P (session.post n w).1
  pub jitter : (n : ℕ) (w : W) → P w → P (session.jitter n w).1
  pub sleep : (n : ℕ) (w : W) → P w → P (session.sleep n w)

module _ {W B : Type 0} (P : W → Type 0) (session : Session W) (within : Within P session)
    (policy : TransportPolicy) (parse : Text → Option ℤ) (decode : Text → Option B) where
  backoff_within :
      (attempt : ℕ) (after : Option ℕ) (w : W)
      → P w
      → P (backoff session policy parse decode attempt after w).1
  unfolding backoff
  backoff_within attempt none w h = within.jitter _ w h
  backoff_within attempt (some after) w h = h

  attempts_within :
      (deadline attempt left : ℕ) (result : JsonResponse B) (w : W)
      → P w
      → P (attempts session policy parse decode deadline attempt left result w).1
  unfolding attempts single_attempt
  attempts_within deadline attempt zero result w h = h
  attempts_within deadline attempt (suc left) result w h =
      let remaining = deadline - session.clock w in
      let answer = (single_attempt session policy parse decode remaining w).0 in
      let w₁ = (single_attempt session policy parse decode remaining w).1 in
      let pause = (backoff session policy parse decode attempt answer.1 w₁).0 in
      let w₂ = (backoff session policy parse decode attempt answer.1 w₁).1 in
      let h₁ : P w₁ = within.post _ w h in
      let h₂ : P w₂ = backoff_within attempt answer.1 w₁ h₁ in
      elim (Bool-cases (leb deadline (session.clock w))) [
        | inl out ↦ rw out h
        | inr on ↦ elim (Bool-cases (not (retryable answer.0.failure) || left == 0)) [
          | inl done ↦ rw (on, done) h₁
          | inr again ↦ elim (Bool-cases (leb (deadline - session.clock w₂) pause)) [
            | inl short ↦ rw (on, again, short) h₂
            | inr fits ↦
                rw (on, again, fits)
                  (attempts_within deadline (attempt + 1) left answer.0 (session.sleep pause w₂)
                    (within.sleep pause w₂ h₂))
          ]
        ]
      ]

  attempt_loop_within : (w : W) → P w → P (attempt_loop session policy parse decode w).1
  unfolding attempt_loop
  attempt_loop_within w h = attempts_within _ 1 policy.max_attempts _ w h

-- The world in an `async with`, by whether a lease was acquired.
abbrev pub Entered : {W : Type 0} → (W → Type 0) → (W → Type 0) → Bool → W → Type 0
Entered Free Held true = Held
Entered Free Held false = Free

-- What is relied on of the bulkhead and the metrics, `Free` being the world outside a lease after
-- the outcomes that are told, and `Held` the one inside: entering and leaving go from one to the
-- other, a lease that is not acquired changes nothing, and a raise leaves none held.
pub record Leases {W : Type 0} (Free Held : List Text → W → Type 0) (bulkhead : BulkheadPort W)
    (observe_external_call : Text → Text → Text → W → W) (policy : CallPolicy) : Type 0 where
  pub enter :
      (told : List Text)
      → Triple
          (Free told)
          (bulkhead.enter (bulkhead_policy policy))
          (Entered (Free told) (Held told))
          (Free told)
  pub exit :
      (told : List Text) (acquired : Bool)
      → Triple
          (Entered (Free told) (Held told) acquired)
          (bulkhead.exit (bulkhead_policy policy) acquired)
          (λ _. Free told)
          (Free told)
  pub observe :
      (told : List Text) (operation outcome : Text) (w : W)
      → Free told w
      → Free (outcome ∷ told) (observe_external_call policy.service operation outcome w)

module _ {W : Type 0} (Free Held : List Text → W → Type 0) (bulkhead : BulkheadPort W)
    (session : Text → Dict Text Text → Payload → Session W)
    (observe_external_call : Text → Text → Text → W → W) (policy : CallPolicy)
    (leases : Leases Free Held bulkhead observe_external_call policy)
    (within : (told : List Text) (url : Text) (headers : Dict Text Text) (payload : Payload)
      → Within (Held told) (session url headers payload))
    (base_url : Text) (default_headers : Dict Text Text) (correlation_id : Option Text)
    (parse : Text → Option ℤ) (decode : Text → Option Body) where
  leased :
      (told : List Text) (path : Text) (payload : Payload) (acquired : Bool)
      → Keeps (Entered (Free told) (Held told) acquired) (
          under_lease bulkhead session observe_external_call policy base_url default_headers
            correlation_id parse decode path payload acquired)
  unfolding under_lease attempted
  leased told path payload false = record { at = λ w h. h }
  leased told path payload true = record {
    at = λ w h.
        attempt_loop_within (Held told) _ (within told _ _ payload) policy.transport parse decode w
          h;
  }

  guarded :
      (told : List Text) (path : Text) (payload : Payload)
      → Keeps (Free told) (
          guarded_post bulkhead session observe_external_call policy base_url default_headers
            correlation_id parse decode path payload)
  unfolding guarded_post
  guarded told path payload =
      triple_bind (Free told) (bulkhead.enter (bulkhead_policy policy))
        (Entered (Free told) (Held told)) _ _ (Free told) (leases.enter told)
        (λ acquired.
          triple_finally_into (Entered (Free told) (Held told) acquired) _ _
            (λ _. Entered (Free told) (Held told) acquired) (λ _. Free told)
            (Entered (Free told) (Held told) acquired) (Free told)
            (leased told path payload acquired) (λ _. leases.exit told acquired)
            (leases.exit told acquired))

  posted :
      (told : List Text) (operation path : Text) (payload : Payload)
      → Triple
          (Free told)
          (post_json bulkhead session observe_external_call policy base_url default_headers
            correlation_id parse decode operation path payload)
          (λ r. Free (outcome_label r ∷ told))
          (Free told)
  unfolding post_json
  posted told operation path payload =
      triple_bind (Free told) _ (λ _. Free told) _ _ (Free told) (guarded told path payload)
        (λ r. record { at = λ w h. leases.observe told operation (outcome_label r) w h })

  -- Where the session is relied on under a lease alone, an assessment starts and ends without one,
  -- whether it returns or raises; what it returns is read from one response, and of that response
  -- one outcome is told, and of a raise none.
  pub assess_leased :
      (told : List Text) (print : Number → Text) (path : Text) (check : RiskCheck)
      → Triple
          (Free told)
          (assess
            (post_json bulkhead session observe_external_call policy base_url default_headers
              correlation_id parse decode)
            print
            path
            check)
          (λ decision w.
            (r : JsonResponse Body) × (decision ≡ assess_response r)
            × Free (outcome_label r ∷ told) w)
          (Free told)
  unfolding assess
  assess_leased told print path check =
      triple_bind (Free told) _ (λ r. Free (outcome_label r ∷ told)) _ _ (Free told)
        (posted told _ path _) (λ r. record { at = λ w h. (r, refl, h) })
