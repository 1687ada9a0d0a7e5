-- ===== src/Tests/Http.antt =====
-- The outbound calls of src/evenkeel/infrastructure/adapters/http at concrete inputs.
use evenkeel.Prelude.{
  ℕ, ◌+◌, ◌≤◌, ◌≡◌, ◌⊎◌, inl, inr, refl, sym, min, Option, none, some, [], ◌∷◌, arith, length, take,
  drop, length-take, take-append-drop, Bool, true, false, not, ◌||◌, List,
}
use evenkeel.Prelude.Int.{ℤ, pos, negsuc}
use evenkeel.Prelude.Text.{Text, codes}
use evenkeel.Ports.{allowed, refused, unavailable}
use evenkeel.Prelude.Dict.{Dict, lookup}
use evenkeel.Domain.Errors.{ok}
use evenkeel.Domain.Ledger.{credit}
use evenkeel.Ports.{RiskCheck}
use evenkeel.Application.Triple.{Triple}
use evenkeel.Http.Call.{
  CallPolicy, BulkheadPort, Payload, bulkhead_policy, outcome_label, attempted, under_lease,
  guarded_post, post_json, assess,
}
use evenkeel.Http.Call.Leased.{Within, Entered, Leases, assess_leased}
use evenkeel.Http.Transport.{
  single_attempt, classify, accept, retry_after, attempts, retryable, is_ok, Session,
  TransportPolicy, JsonResponse, responded, attempt_loop, Stream, read_capped, no_failure,
}
use evenkeel.Http.Transport.Loop.{IsTimely, attempt_loop_time}
use evenkeel.Http.Transport.Capped.{Reads, read_capped-take}
use evenkeel.Http.Risk.{Body, string, assess_response, assessed_body, decide, says, mapped, prose}
use evenkeel.Http.Risk.Closed.{Says, assess_response_cases}

abbrev policy : TransportPolicy
policy = record {
  total_timeout = 800;
  budget = 1500;
  max_attempts = 2;
  backoff_base = 50;
  backoff_max = 400;
  max_response_bytes = 4;
}

-- A provider that takes all its time and then fails; the world is the clock.
abbrev overloaded : Session ℕ
overloaded = record {
  clock = λ w. w;
  post = λ n w. (responded 503 [] none, w + n);
  jitter = λ n w. (n, w);
  sleep = λ n w. w + n;
}

overloaded-IsTimely : IsTimely overloaded
overloaded-IsTimely = record {
  post = λ n w. omega arith;
  sleep = λ n w. omega arith;
  jitter = λ n w. refl;
}

abbrev no_number : Text → Option ℤ
no_number t = none

abbrev as_body : Text → Option Text
as_body t = some t

attempt_loop_time_example : (attempt_loop overloaded policy no_number as_body 100).1 ≤ 100 + 1500
attempt_loop_time_example =
    attempt_loop_time overloaded policy no_number as_body overloaded-IsTimely 100

-- A stream that hands out two bytes at most.
abbrev pairs : Stream Text
pairs = record { read = λ n s. (take (min n 2) s, drop (min n 2) s) }

pairs_end : (n : ℕ) (s : Text) → length (take (min n 2) s) ≡ 0 → (n ≡ 0) ⊎ (s ≡ [])
pairs_end n [] h = inr refl
pairs_end n (c ∷ s) h = let l = length-take (min n 2) (c ∷ s) in inl (omega (arith, h, l))

pairs-Reads : Reads pairs (λ s. s)
pairs-Reads = record {
  splits = λ n s. sym (take-append-drop (min n 2) s);
  bounded = λ n s. let h = length-take (min n 2) s in omega (arith, h);
  ends = pairs_end;
}

read_capped-take_example : read_capped pairs 3 (codes "abcde") ≡ take 3 (codes "abcde")
read_capped-take_example = read_capped-take pairs (λ s. s) pairs-Reads 3 (codes "abcde")

abbrev too_many : ℕ
too_many = 429

abbrev permission : JsonResponse Body
permission = record {
  status = some 200;
  body = some ((codes "decision", string (codes "allow")) ∷ []);
  failure = no_failure;
}

assess_response_cases_example :
    (((assess_response permission).outcome ≡ allowed) × Says (codes "allow") permission)
    ⊎ (((assess_response permission).outcome ≡ refused) × Says (codes "refuse") permission)
    ⊎ ((assess_response permission).outcome ≡ unavailable)
assess_response_cases_example = assess_response_cases permission

-- Whether a lease is held, the outcomes told, and whether a post was made without a lease.
abbrev World : Type 0
World = Bool × List Text × Bool

abbrev Free : List Text → World → Type 0
Free told w = w ≡ (false, told, false)

abbrev Held : List Text → World → Type 0
Held told w = w ≡ (true, told, false)

abbrev one_lease : BulkheadPort World
one_lease = record {
  enter = λ p w. (ok true, (true, w.1, w.2));
  exit = λ p acquired w. (ok tt, (false, w.1, w.2));
}

abbrev provider : Text → Dict Text Text → Payload → Session World
provider url headers payload = record {
  clock = λ w. 0;
  post = λ n w. (responded 200 [] none, (w.0, w.1, w.2 || not w.0));
  jitter = λ n w. (n, w);
  sleep = λ n w. w;
}

abbrev observed : Text → Text → Text → World → World
observed service operation outcome w = (w.0, outcome ∷ w.1, w.2)

abbrev call_policy : CallPolicy
call_policy = record {
  service = codes "risk";
  bulkhead_limit = 32;
  bulkhead_wait = 0;
  bulkhead_lease_ttl = 5000;
  transport = policy;
}

one_lease_left :
    (told : List Text) (acquired : Bool)
    → Triple
        (Entered (Free told) (Held told) acquired)
        (one_lease.exit (bulkhead_policy call_policy) acquired)
        (λ _. Free told)
        (Free told)
one_lease_left told true = record { at = λ w h. rw h refl }
one_lease_left told false = record { at = λ w h. rw h refl }

one_lease-Leases : Leases Free Held one_lease observed call_policy
one_lease-Leases = record {
  enter = λ told. record { at = λ w h. rw h refl };
  exit = one_lease_left;
  observe = λ told operation outcome w h. rw h refl;
}

provider-Within :
    (told : List Text) (url : Text) (headers : Dict Text Text) (payload : Payload)
    → Within (Held told) (provider url headers payload)
provider-Within told url headers payload = record {
  post = λ n w h. rw h refl;
  jitter = λ n w h. h;
  sleep = λ n w h. h;
}

abbrev check : RiskCheck
check = record {
  wallet_id = 1;
  owner_id = 2;
  amount = record {
    amount = record { coefficient = pos 100; exponent = negsuc 1 };
    currency = record { value = codes "EUR" };
  };
  direction = credit;
  idempotency_key = none;
}

abbrev permitted : Text → Option Body
permitted t = permission.body

assess_leased_example :
    Triple
      (Free [])
      (assess
        (post_json one_lease provider observed call_policy
          (codes "https://r")
          []
          none
          no_number
          permitted)
        (λ n. codes "1.00")
        (codes "/decisions")
        check)
      (λ decision w.
        (r : JsonResponse Body) × (decision ≡ assess_response r) × Free (outcome_label r ∷ []) w)
      (Free [])
assess_leased_example =
    assess_leased Free Held one_lease provider observed call_policy one_lease-Leases provider-Within
      (codes "https://r") [] none no_number permitted [] (λ n. codes "1.00") (codes "/decisions")
      check

-- The run of that assessment: the lease is given back, and one success is told.
assess_run :
    assess
      (post_json one_lease provider observed call_policy
        (codes "https://r")
        []
        none
        no_number
        permitted)
      (λ n. codes "1.00")
      (codes "/decisions")
      check
      (false, [], false)
    ≡ (
      ok (record { outcome = allowed; reason = []; reference = [] }),
      (false, codes "success" ∷ [], false),
    )
unfolding assess post_json guarded_post under_lease attempted attempt_loop attempts single_attempt
    classify accept retry_after assess_response assessed_body decide says mapped prose outcome_label
    retryable is_ok lookup
assess_run = refl
