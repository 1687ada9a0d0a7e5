-- ===== src/Memory/RateLimit/Laws.antt =====
-- What the fixed window of src/evenkeel/infrastructure/adapters/memory/locking.py admits.
use evenkeel.Prelude.{
  ℕ, ◌+◌, ◌*◌, ◌<◌, ◌≤◌, ◌≡◌, refl, ap, sym, ◌∙◌, inl, inr, true, false, Option, some, List, [],
  ◌∷◌, All, All-map, arith, Bool-cases, if◌then◌else◌,
}
use mathlib.Core.Path.{subst}
use evenkeel.Prelude.Text.{Text, text_beq, text_eq, text_beq_iff}
use evenkeel.Prelude.Dict.{lookup, lookup-insert, beq_refl}
use evenkeel.Ports.{RateLimitPolicy, RateLimitDecision}
use evenkeel.Memory.RateLimit.{Window, Windows, composite, current, charge, consume}
use evenkeel.Memory.RateLimit.Counted.{
  IsWithin, current-IsWithin, current_same, charge_step, charge_within, current_cases, used_of,
  used_of-IsWithin, charge_retry, IsPast, current-past,
}

pub record Call : Type 0 where
  pub now : ℕ
  pub key : Text
  pub cost : ℕ

-- What the calls of one key admit, from the windows that they find.
unfoldable pub admitted : RateLimitPolicy → Text → Windows → List Call → ℕ
admitted policy key d [] = 0
admitted policy key d (c ∷ calls) =
    let (decision, d') = consume c.now c.key policy c.cost d in
    let rest = admitted policy key d' calls in
    if text_beq (composite policy c.key) (composite policy key)
    then (if decision.allowed then c.cost + rest else rest)
    else rest

-- The window that a call leaves at its key.
lookup-consume :
    (now : ℕ) (key : Text) (policy : RateLimitPolicy) (cost : ℕ) (d : Windows) (k : Text)
    → lookup k (consume now key policy cost d).1 ≡ (
        if text_beq (composite policy key) k
        then some (charge policy now cost (current policy now (lookup (composite policy key) d))).1
        else lookup k d)
unfolding consume
lookup-consume now key policy cost d k = lookup-insert (composite policy key) k _ d

-- A call under a key is decided by, and counted in, the current window of the key.
consume_own :
    (policy : RateLimitPolicy) (key : Text) (c : Call) (d : Windows)
    → composite policy c.key ≡ composite policy key
    → let w = current policy c.now (lookup (composite policy key) d) in
      ((consume c.now c.key policy c.cost d).0 ≡ (charge policy c.now c.cost w).0)
      × (lookup (composite policy key) (consume c.now c.key policy c.cost d).1
          ≡ some (charge policy c.now c.cost w).1)
unfolding consume
consume_own policy key c d same =
    rw
      (
        same,
        lookup-insert (composite policy key) (composite policy key),
        beq_refl (composite policy key),
      )
      (refl, refl)

consume_other :
    (policy : RateLimitPolicy) (key : Text) (c : Call) (d : Windows)
    → text_beq (composite policy c.key) (composite policy key) ≡ false
    → lookup (composite policy key) (consume c.now c.key policy c.cost d).1
      ≡ lookup (composite policy key) d
consume_other policy key c d other =
    lookup-consume c.now c.key policy c.cost d (composite policy key) ∙ rw other refl

-- Within one window no more than what is left of the limit is admitted.
admitted_window :
    (policy : RateLimitPolicy) (key : Text) (until : ℕ) (calls : List Call) (d : Windows)
    (w : Window)
    → 0 < policy.window
    → lookup (composite policy key) d ≡ some w
    → w.used ≤ policy.limit
    → until ≤ w.started_at + policy.window
    → All (λ (c : Call). c.now < until) calls
    → admitted policy key d calls + w.used ≤ policy.limit
unfolding admitted
admitted_window policy key until [] d w pos found within long before = omega arith
admitted_window policy key until (c ∷ calls) d w pos found within long before =
    let d' = (consume c.now c.key policy c.cost d).1 in
    elim (Bool-cases (text_beq (composite policy c.key) (composite policy key))) [
      | inl y ↦
          let (decided, left) = consume_own policy key c d ((text_beq_iff _ _).0 y) in
          let stays : current policy c.now (lookup (composite policy key) d) ≡ w =
            ap (current policy c.now) found
            ∙ current_same policy c.now w (omega (arith, before.0, long)) pos in
          let (used, started) = charge_within policy c.now c.cost w within in
          let rest =
            admitted_window policy key until calls d' (charge policy c.now c.cost w).1 pos
              (rw stays at left) used (rw started long) before.1 in
          rw (y, decided, stays) (charge_step policy c.now c.cost _ policy.limit w rest)
      | inr n ↦ rw n (
          admitted_window policy key until calls d' w pos (consume_other policy key c d n ∙ found)
            within long before.1)
    ]

admitted_span :
    (policy : RateLimitPolicy) (key : Text) (from : ℕ) (calls : List Call) (d : Windows)
    → 0 < policy.window
    → IsWithin policy (lookup (composite policy key) d)
    → All (λ (c : Call). (from ≤ c.now) × (c.now < from + policy.window)) calls
    → admitted policy key d calls + used_of (lookup (composite policy key) d) ≤ 2 * policy.limit
unfolding admitted
admitted_span policy key from [] d pos within span =
    let h = used_of-IsWithin policy (lookup (composite policy key) d) within in omega (arith, h)
admitted_span policy key from (c ∷ calls) d pos within span =
    let d' = (consume c.now c.key policy c.cost d).1 in
    let found = lookup (composite policy key) d in
    let w = current policy c.now found in
    elim (Bool-cases (text_beq (composite policy c.key) (composite policy key))) [
      | inl y ↦
          let (decided, left) = consume_own policy key c d ((text_beq_iff _ _).0 y) in
          let fits = current-IsWithin policy c.now found within in
          let (used, started) = charge_within policy c.now c.cost w fits in
          rw (y, decided)
            (elim (current_cases policy c.now found) [
              | inl fresh ↦
                  let rest =
                    admitted_window policy key (from + policy.window) calls d'
                      (charge policy c.now c.cost w).1 pos left used
                      (let at : w.started_at ≡ c.now = ap (λ (x : Window). x.started_at) fresh in
                        omega (arith, started, at, span.0.0))
                      (All-map (λ (x : Call). (from ≤ x.now) × (x.now < from + policy.window))
                        (λ (x : Call). x.now < from + policy.window) (λ x h. h.1) calls span.1) in
                  let step =
                    charge_step policy c.now c.cost (admitted policy key d' calls) policy.limit w
                      rest in
                  let before = used_of-IsWithin policy found within in omega (arith, step, before)
              | inr same ↦
                  let rest =
                    admitted_span policy key from calls d' pos
                      (subst (IsWithin policy) (sym left) used) span.1 in
                  let after : used_of (lookup (composite policy key) d')
                      ≡ (charge policy c.now c.cost w).1.used =
                    ap used_of left in
                  let before : used_of found ≡ w.used = ap used_of same in
                  let step =
                    charge_step policy c.now c.cost (admitted policy key d' calls)
                      (2 * policy.limit) w (rw after at rest) in
                  omega (arith, step, before)
            ])
      | inr n ↦
          let other = consume_other policy key c d n in
          let rest =
            admitted_span policy key from calls d' pos (subst (IsWithin policy) (sym other) within)
              span.1 in
          rw n (rw other at rest)
    ]

-- Where the policy's window is not empty and the key's stored window is within the limit, the
-- calls of the key within any stretch of one window's length together admit at most twice the
-- limit.
pub admitted_lem :
    (policy : RateLimitPolicy) (key : Text) (from : ℕ) (calls : List Call) (d : Windows)
    → 0 < policy.window
    → IsWithin policy (lookup (composite policy key) d)
    → All (λ (c : Call). (from ≤ c.now) × (c.now < from + policy.window)) calls
    → admitted policy key d calls ≤ 2 * policy.limit
admitted_lem policy key from calls d pos within span =
    let h = admitted_span policy key from calls d pos within span in omega (arith, h)

-- A call leaves every key's window within the limit.
pub consume-IsWithin :
    (policy : RateLimitPolicy) (key : Text) (c : Call) (d : Windows)
    → IsWithin policy (lookup (composite policy key) d)
    → IsWithin policy (lookup (composite policy key) (consume c.now c.key policy c.cost d).1)
consume-IsWithin policy key c d within =
    elim (Bool-cases (text_beq (composite policy c.key) (composite policy key))) [
      | inl y ↦
          let (_, left) = consume_own policy key c d ((text_beq_iff _ _).0 y) in
          let w = current policy c.now (lookup (composite policy key) d) in
          let fits =
            charge_within policy c.now c.cost w
              (current-IsWithin policy c.now (lookup (composite policy key) d) within) in
          subst (IsWithin policy) (sym left) fits.0
      | inr n ↦ subst (IsWithin policy) (sym (consume_other policy key c d n)) within
    ]

-- Where the clock has not gone back behind the stored window's start, a call that was denied, and
-- whose cost the limit can hold, is admitted when it is made again after the time that it was told
-- to wait, with no call in between.
pub retry_admitted :
    (policy : RateLimitPolicy) (key : Text) (now wait cost : ℕ) (d : Windows)
    → IsPast now (lookup (composite policy key) d)
    → cost ≤ policy.limit
    → (consume now key policy cost d).0.allowed ≡ false
    → (consume now key policy cost d).0.retry_after ≤ wait
    → (consume (now + wait) key policy cost (consume now key policy cost d).1).0.allowed ≡ true
retry_admitted policy key now wait cost d past fits denied waited =
    let first : Call = record { now = now; key = key; cost = cost } in
    let again : Call = record { now = now + wait; key = key; cost = cost } in
    let (decided, left) = consume_own policy key first d refl in
    let (decided', _) = consume_own policy key again (consume now key policy cost d).1 refl in
    let w = current policy now (lookup (composite policy key) d) in
    ap (λ (x : RateLimitDecision). x.allowed)
      (decided'
        ∙ ap
            (λ (f : Option Window).
              (charge policy (now + wait) cost (current policy (now + wait) f)).0)
            left)
    ∙ charge_retry policy now wait cost w
        (current-past policy now (lookup (composite policy key) d) past) fits
        (sym (ap (λ (x : RateLimitDecision). x.allowed) decided) ∙ denied)
        (subst (λ (x : RateLimitDecision). x.retry_after ≤ wait) decided waited)
