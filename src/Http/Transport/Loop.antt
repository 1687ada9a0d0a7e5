-- ===== src/Http/Transport/Loop.antt =====
-- The time that the attempts of src/evenkeel/infrastructure/adapters/http/transport.py take, and
-- how many there are.
use evenkeel.Prelude.{
  ℕ, zero, suc, ◌+◌, ◌-◌, ◌≤◌, ◌≡◌, refl, inl, inr, not, ◌||◌, Bool-cases, Option, none, some, leb,
  ◌==◌, arith, min,
}
use evenkeel.Prelude.Int.{ℤ}
use evenkeel.Prelude.Text.{Text}
use evenkeel.Http.Transport.{
  Session, TransportPolicy, JsonResponse, single_attempt, backoff, attempts, attempt_loop,
  retryable,
}

-- What is relied on of the session: a post is over when its timeout is, a sleep takes the time that
-- it was asked to, and drawing a number takes none.
pub record IsTimely {W : Type 0} (session : Session W) : Type 0 where
  pub post : (n : ℕ) (w : W) → session.clock (session.post n w).1 ≤ session.clock w + n
  pub sleep : (n : ℕ) (w : W) → session.clock (session.sleep n w) ≤ session.clock w + n
  pub jitter : (n : ℕ) (w : W) → session.clock (session.jitter n w).1 ≡ session.clock w

module _ {W B : Type 0} (session : Session W) (policy : TransportPolicy) (parse : Text → Option ℤ)
    (decode : Text → Option B) (timely : IsTimely session) where
  backoff_time :
      (attempt : ℕ) (after : Option ℕ) (w : W)
      → session.clock (backoff session policy parse decode attempt after w).1 ≡ session.clock w
  unfolding backoff
  backoff_time attempt none w = timely.jitter _ w
  backoff_time attempt (some after) w = refl

  single_attempt_time :
      (remaining : ℕ) (w : W)
      → session.clock (single_attempt session policy parse decode remaining w).1
        ≤ session.clock w + remaining
  unfolding single_attempt
  single_attempt_time remaining w =
      let h = timely.post (min policy.total_timeout remaining) w in omega (arith, h)

  attempts_time :
      (deadline attempt left : ℕ) (result : JsonResponse B) (w : W)
      → session.clock w ≤ deadline
      → session.clock (attempts session policy parse decode deadline attempt left result w).1
        ≤ deadline
  unfolding attempts
  attempts_time deadline attempt zero result w h = h
  attempts_time deadline attempt (suc left) result w h =
      let remaining = deadline - session.clock w in
      let answer = (single_attempt session policy parse decode remaining w).0 in
      let w₁ = (single_attempt session policy parse decode remaining w).1 in
      let pause = (backoff session policy parse decode attempt answer.1 w₁).0 in
      let w₂ = (backoff session policy parse decode attempt answer.1 w₁).1 in
      let spent : session.clock w₁ ≤ deadline =
        (let t = single_attempt_time remaining w in omega (arith, h, t)) in
      let drawn : session.clock w₂ ≡ session.clock w₁ = backoff_time attempt answer.1 w₁ in
      elim (Bool-cases (leb deadline (session.clock w))) [
        | inl out ↦ rw out h
        | inr on ↦ elim (Bool-cases (not (retryable answer.0.failure) || left == 0)) [
          | inl done ↦ rw (on, done) spent
          | inr again ↦ elim (Bool-cases (leb (deadline - session.clock w₂) pause)) [
            | inl short ↦ rw (on, again, short) (omega (arith, spent, drawn))
            | inr fits ↦
                let slept = timely.sleep pause w₂ in
                rw (on, again, fits)
                  (attempts_time deadline (attempt + 1) left answer.0 (session.sleep pause w₂)
                    (ground (arith, fits, slept)))
          ]
        ]
      ]

  -- Where a post is over when its timeout is and a sleep takes no longer than asked, the call,
  -- with all its attempts and pauses, is over when its budget is.
  pub attempt_loop_time :
      (w : W)
      → session.clock (attempt_loop session policy parse decode w).1
        ≤ session.clock w + policy.budget
  unfolding attempt_loop
  attempt_loop_time w =
      attempts_time (session.clock w + policy.budget) 1 policy.max_attempts _ w (omega arith)
