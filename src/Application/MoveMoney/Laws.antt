-- ===== src/Application/MoveMoney/Laws.antt =====
-- The order of the gates in `_run` of
-- src/evenkeel/application/interactors/wallets/move_money.py: what a movement has passed when it is
-- made, and what a refusal has done.
use evenkeel.Prelude.{◌≡◌, refl, ap, ◌⊎◌, inl, inr, Bool, true, false, Bool-cases, arith, ◌∷◌, []}
use evenkeel.Domain.Errors.{
  Error, Result, ok, err, application, rate_limited_error, rate_limited, number, forbidden_error,
  movement_refused, dependency_unavailable_error, dependency_unavailable, label,
}
use evenkeel.Domain.Ledger.{LedgerDirection}
use evenkeel.Ports.{RateLimitDecision, RiskDecision, is_refused, is_available}
use evenkeel.Application.Movement.{
  MovementRequest, MovementOutcome, RunOutcome, interactor_observed, rate_limit_observed, limited,
  refused_by_risk, unassessed,
}
use evenkeel.Application.MoveMoney.{
  MoveMoneySettings, MovementResult, MoveCommand, RunPorts, request_of, check_of, metric_name, run,
  limit_key, limit_policy, body, limit_answered, assess_and_move, risk_answered, assessed, applied,
  result_of, refusal_details,
}

-- The risk decision lets the movement go on.
abbrev pub Passes : MoveMoneySettings → RiskDecision → Type 0
Passes settings d =
    (is_refused d.outcome ≡ false)
    × ((is_available d.outcome ≡ true) ⊎ (settings.risk_fail_open ≡ true))

module _ {W : Type 0} (ports : RunPorts W) (settings : MoveMoneySettings) where
  -- The movement was assessed, let through and applied, and the result is what the service made.
  pub record Assessed (d : LedgerDirection) (c : MoveCommand) (w : W) (x : MovementResult)
      : Type 0 where
    pub decision : RiskDecision
    pub outcome : MovementOutcome
    pub after : W
    pub asked : ports.assess (check_of d c) w ≡ (ok decision, after)
    pub passes : Passes settings decision
    pub applied : (ports.apply (request_of d c) after).0 ≡ ok outcome
    pub entry_id : x.entry_id ≡ outcome.entry.id
    pub wallet_id : x.wallet_id ≡ outcome.wallet.id
    pub balance : x.balance ≡ outcome.balance
    pub replayed : x.replayed ≡ outcome.replayed

  applied-ok :
      (available : Bool) (a : Result MovementOutcome × W) (x : MovementResult)
      → (applied ports settings available a).0.0 ≡ ok x
      → (o : MovementOutcome) × (a.0 ≡ ok o) × (x ≡ result_of ports settings o)
  unfolding applied
  applied-ok available (ok o, w) x h = (o, refl, cc h)
  applied-ok available (err e, w) x h = cc h

  assessed-ok :
      (r : MovementRequest) (d : RiskDecision) (w : W) (x : MovementResult)
      → (assessed ports settings r d w).0.0 ≡ ok x
      → Passes settings d
        × ((applied ports settings (is_available d.outcome) (ports.apply r w)).0.0 ≡ ok x)
  unfolding assessed
  assessed-ok r d w x h = ground arith

  risk-ok :
      (d : LedgerDirection) (c : MoveCommand) (w : W) (a : Result RiskDecision × W)
      (x : MovementResult)
      → ports.assess (check_of d c) w ≡ a
      → (risk_answered ports settings (request_of d c) a).0.0 ≡ ok x
      → Assessed d c w x
  unfolding risk_answered result_of
  risk-ok d c w (ok decision, w') x asked h =
      let (passes, h') = assessed-ok (request_of d c) decision w' x h in
      let (o, e, same) = applied-ok (is_available decision.outcome) _ x h' in
      record {
        decision = decision;
        outcome = o;
        after = w';
        asked = asked;
        passes = passes;
        applied = e;
        entry_id = ap (λ (y : MovementResult). y.entry_id) same;
        wallet_id = ap (λ (y : MovementResult). y.wallet_id) same;
        balance = ap (λ (y : MovementResult). y.balance) same;
        replayed = ap (λ (y : MovementResult). y.replayed) same;
      }
  risk-ok d c w (err e, w') x asked h = cc h

  -- The limiter was passed: it is off, or it allowed the call; and in what world it left the rest.
  abbrev pub Limited : LedgerDirection → MoveCommand → W → W → Type 0
  Limited d c w w' =
      ((settings.rate_limit_enabled ≡ false) × (w' ≡ w))
      ⊎ ((settings.rate_limit_enabled ≡ true)
          × (x : RateLimitDecision) × ((ports.consume (limit_key ports settings d c.owner_id)
                (limit_policy ports settings d) w).0
              ≡ ok x)
          × (x.allowed ≡ true))

  limit-ok :
      (d : LedgerDirection) (c : MoveCommand) (a : Result RateLimitDecision × W)
      (x : MovementResult)
      → (limit_answered ports settings d c a).0.0 ≡ ok x
      → (y : RateLimitDecision) × (w : W) × (a.0 ≡ ok y) × (y.allowed ≡ true) × Assessed d c w x
  unfolding limit_answered assess_and_move
  limit-ok d c (ok y, w) x h = elim (Bool-cases y.allowed) [
    | inl allowed ↦
        let w' = ports.observe (rate_limit_observed (metric_name d) true) w in
        (
          y,
          w',
          refl,
          allowed,
          risk-ok d c w' (ports.assess (check_of d c) w') x refl (rw allowed at h),
        )
    | inr denied ↦ cc (rw denied at h)
  ]
  limit-ok d c (err e, w) x h = cc h

  -- A run that returns has passed the limiter if that is on, then an assessment that did not refuse
  -- it and that was either made or may be missing, and then the service: the result is the
  -- service's outcome.
  pub run-ok :
      (d : LedgerDirection) (c : MoveCommand) (w : W) (x : MovementResult)
      → (run ports settings d c w).0 ≡ ok x
      → (w' : W) × Limited d c w w' × Assessed d c w' x
  unfolding run body assess_and_move
  run-ok d c w x h = elim (Bool-cases settings.rate_limit_enabled) [
    | inl on ↦
        let (y, w', asked, allowed, rest) =
          limit-ok d c
            (ports.consume (limit_key ports settings d c.owner_id) (limit_policy ports settings d)
              w)
            x (rw on at h) in
        (w', inr (on, y, asked, allowed), rest)
    | inr off ↦
        (w, inl (off, refl), risk-ok d c w (ports.assess (check_of d c) w) x refl (rw off at h))
  ]

  -- With the limiter on, a run that it denies raises with the limiter's time to wait, and has done
  -- nothing but ask it and observe the two metrics.
  pub run_denied :
      (d : LedgerDirection) (c : MoveCommand) (w w' : W) (x : RateLimitDecision)
      → settings.rate_limit_enabled ≡ true
      → ports.consume (limit_key ports settings d c.owner_id) (limit_policy ports settings d) w
        ≡ (ok x, w')
      → x.allowed ≡ false
      → run ports settings d c w ≡ (
        err (
            application (record {
              kind = rate_limited_error;
              code = rate_limited;
              details = ("retry_after_seconds", number x.retry_after) ∷ [];
            })),
        ports.observe
            (interactor_observed (metric_name d) limited)
            (ports.observe (rate_limit_observed (metric_name d) false) w'),
      )
  unfolding run body limit_answered
  run_denied d c w w' x on asked denied = rw (on, asked, denied) refl

  -- With the limiter off, a run whose assessment refuses it, or is missing without the setting to
  -- fail open, raises, and has left the service uncalled: beyond the assessment it has only
  -- observed a metric.
  pub run_stopped :
      (d : LedgerDirection) (c : MoveCommand) (w w' : W) (x : RiskDecision)
      → settings.rate_limit_enabled ≡ false
      → ports.assess (check_of d c) w ≡ (ok x, w')
      → (is_refused x.outcome ≡ true)
        ⊎ ((is_available x.outcome ≡ false) × (settings.risk_fail_open ≡ false))
      → (e : Error) × (o : RunOutcome) × (run ports settings d c w
          ≡ (err e, ports.observe (interactor_observed (metric_name d) o) w'))
  unfolding run body assess_and_move risk_answered assessed
  run_stopped d c w w' x off asked stops = elim (Bool-cases (is_refused x.outcome)) [
    | inl refused ↦ (
      application (record {
        kind = forbidden_error;
        code = movement_refused;
        details = refusal_details ports settings x;
      }),
      refused_by_risk,
      rw (off, asked, refused) refl,
    )
    | inr other ↦ elim stops [
      | inl refused ↦ cc (other, refused)
      | inr (absent, closed) ↦ (
        application (record {
          kind = dependency_unavailable_error;
          code = dependency_unavailable;
          details = ("dependency", label "risk") ∷ [];
        }),
        unassessed,
        rw (off, asked, other, absent, closed) refl,
      )
    ]
  ]
