-- ===== src/Application/Triple.antt =====
-- What an action guarantees: a triple of a precondition, a postcondition for a return and one for a
-- raise, and a rule for each way to build an action.
use evenkeel.Domain.Errors.{Error, Result, ok, err}
use evenkeel.Application.Action.{Action, pure, raise, continue, ◌>>=◌, finally, finish}

module _ {W : Type 0} where
  -- A predicate of the outcome and of the world that it leaves.
  abbrev pub Post {ℓ} : {A : Type 0} → (A → W → Type ℓ) → (W → Type ℓ) → Result A × W → Type ℓ
  Post Q E (ok a, w) = Q a w
  Post Q E (err e, w) = E w

  pub record Triple {ℓ} {A : Type 0} (P : W → Type ℓ) (m : Action W A) (Q : A → W → Type ℓ)
      (E : W → Type ℓ) : Type ℓ where
    pub at : (w : W) → P w → Post Q E (m w)

  pub triple_pure {ℓ} :
      {A : Type 0} (P : W → Type ℓ) (a : A) (Q : A → W → Type ℓ) (E : W → Type ℓ)
      → ((w : W) → P w → Q a w)
      → Triple P (pure a) Q E
  triple_pure P a Q E h = record { at = h }

  pub triple_raise {ℓ} :
      {A : Type 0} (P : W → Type ℓ) (e : Error) (Q : A → W → Type ℓ) (E : W → Type ℓ)
      → ((w : W) → P w → E w)
      → Triple P (raise e) Q E
  triple_raise P e Q E h = record { at = h }

  continue-Post {ℓ} :
      {A B : Type 0} (R : A → W → Type ℓ) (f : A → Action W B) (Q : B → W → Type ℓ) (E : W → Type ℓ)
      → ((a : A) → Triple (R a) (f a) Q E)
      → (x : Result A × W) → Post R E x
      → Post Q E (continue x.0 f x.1)
  continue-Post R f Q E kf (ok a, w) h = (kf a).at w h
  continue-Post R f Q E kf (err e, w) h = h

  pub triple_bind {ℓ} :
      {A B : Type 0} (P : W → Type ℓ) (m : Action W A) (R : A → W → Type ℓ) (f : A → Action W B)
      (Q : B → W → Type ℓ) (E : W → Type ℓ)
      → Triple P m R E
      → ((a : A) → Triple (R a) (f a) Q E)
      → Triple P (m >>= f) Q E
  triple_bind P m R f Q E km kf = record { at = λ w p. continue-Post R f Q E kf (m w) (km.at w p) }

  Post-weaken {ℓ} :
      {A : Type 0} (Q Q' : A → W → Type ℓ) (E E' : W → Type ℓ)
      → ((a : A) (w : W) → Q a w → Q' a w)
      → ((w : W) → E w → E' w)
      → (x : Result A × W) → Post Q E x
      → Post Q' E' x
  Post-weaken Q Q' E E' hq he (ok a, w) h = hq a w h
  Post-weaken Q Q' E E' hq he (err e, w) h = he w h

  -- Consequence.
  pub triple_weaken {ℓ} :
      {A : Type 0} (P P' : W → Type ℓ) (m : Action W A) (Q Q' : A → W → Type ℓ) (E E' : W → Type ℓ)
      → ((w : W) → P' w → P w)
      → ((a : A) (w : W) → Q a w → Q' a w)
      → ((w : W) → E w → E' w)
      → Triple P m Q E
      → Triple P' m Q' E'
  triple_weaken P P' m Q Q' E E' hp hq he k = record {
    at = λ w p. Post-weaken Q Q' E E' hq he (m w) (k.at w (hp w p));
  }

  -- A world predicate that an action keeps, whether it returns or raises.
  abbrev pub Keeps {ℓ} : {A : Type 0} → (W → Type ℓ) → Action W A → Type ℓ
  Keeps P m = Triple P m (λ _ w. P w) P

  finish-Post {ℓ} :
      {A : Type 0} (Q Q' : A → W → Type ℓ) (E E' : W → Type ℓ) (cleanup : Action W (Unit {0}))
      → ((a : A) → Triple (Q a) cleanup (λ _. Q' a) E')
      → Triple E cleanup (λ _. E') E'
      → (x : Result A × W) → Post Q E x
      → Post Q' E' (finish x.0 (cleanup x.1).0, (cleanup x.1).1)
  finish-Post Q Q' E E' cleanup kq ke (ok a, w) h = returned (cleanup w) ((kq a).at w h)
    where
      returned :
          (y : Result (Unit {0}) × W) → Post (λ _. Q' a) E' y → Post Q' E' (finish (ok a) y.0, y.1)
      returned (ok u, w') g = g
      returned (err e, w') g = g
  finish-Post Q Q' E E' cleanup kq ke (err e, w) h = raised (cleanup w) (ke.at w h)
    where
      raised :
          (y : Result (Unit {0}) × W) → Post (λ _. E') E' y → Post Q' E' (finish (err e) y.0, y.1)
      raised (ok u, w') g = g
      raised (err e', w') g = g

  -- A `finally` block, by what its cleanup makes of what the body returned or raised with.
  pub triple_finally_into {ℓ} :
      {A : Type 0} (P : W → Type ℓ) (body : Action W A) (cleanup : Action W (Unit {0}))
      (Q Q' : A → W → Type ℓ) (E E' : W → Type ℓ)
      → Triple P body Q E
      → ((a : A) → Triple (Q a) cleanup (λ _. Q' a) E')
      → Triple E cleanup (λ _. E') E'
      → Triple P (finally body cleanup) Q' E'
  triple_finally_into P body cleanup Q Q' E E' kb kq ke = record {
    at = λ w p. finish-Post Q Q' E E' cleanup kq ke (body w) (kb.at w p);
  }

  -- A `finally` block that keeps what the body returned with, and what it raised with.
  pub triple_finally {ℓ} :
      {A : Type 0} (P : W → Type ℓ) (body : Action W A) (cleanup : Action W (Unit {0}))
      (Q : A → W → Type ℓ) (E E' : W → Type ℓ)
      → Triple P body Q E
      → ((a : A) → Triple (Q a) cleanup (λ _. Q a) E')
      → Triple E cleanup (λ _. E') E'
      → Triple P (finally body cleanup) Q E'
  triple_finally P body cleanup Q E E' kb kq ke =
      triple_finally_into P body cleanup Q Q E E' kb kq ke
