-- ===== src/Tests/Jwt.antt =====
-- The identity adapters of src/evenkeel/infrastructure/adapters/jwt at concrete inputs.
use evenkeel.Prelude.{ℕ, ◌^◌, ◌<◌, ◌≡◌, refl, true, false, Option, none, some, [], ◌∷◌, arith}
use evenkeel.Prelude.Text.{Text, codes, text_eq}
use evenkeel.Prelude.Dict.{lookup}
use evenkeel.Domain.Errors.{Result, ok, err, driver}
use evenkeel.Domain.Uuid.{uuid_text}
use evenkeel.Domain.Uuid.Laws.{read_from, read_from-uuid_text}
use evenkeel.Jwt.Keys.{
  JwksPolicy, JwksCache, answered, failed, cancelled, jwks_unavailable, get_locked, get_at_once,
}
use evenkeel.Jwt.Keys.Gaps.{in_flight_past_ceiling, cancelled_denies}
use evenkeel.Jwt.Identity.{JwtPolicy, Jwt, kid_text, authenticate}
use evenkeel.Jwt.Identity.Admitted.{Admits, authenticate-Admits}

abbrev policy : JwksPolicy
policy = record { ttl = 600000; min_refresh = 30000; max_stale = 3600000 }

abbrev cache : JwksCache ℕ
cache = record {
  keys = (codes "a", 1) ∷ [];
  fetched_at = some 1000;
  last_attempt = some 990;
  last_attempt_failed = false;
}

in_flight_past_ceiling_example :
    ((get_locked policy 4000000 4000000 failed (codes "a") cache).0 ≡ err jwks_unavailable)
    × (get_at_once policy 4000000 true (codes "a") cache ≡ some 1)
in_flight_past_ceiling_example =
    in_flight_past_ceiling policy 4000000 (codes "a") 1 cache (unfold lookup in refl) refl refl refl

cancelled_denies_example :
    let c = (get_locked policy 50000 50100 cancelled (codes "b") cache).1 in
    ((get_locked policy 50000 50100 cancelled (codes "b") cache).0 ≡ err (driver "CancelledError"))
    × (get_locked policy 60000 60100 (answered ((codes "b", 2) ∷ [])) (codes "b") c ≡ (ok none, c))
cancelled_denies_example =
    cancelled_denies policy 50000 50100 60000 60100 (answered ((codes "b", 2) ∷ [])) (codes "b")
      cache (unfold lookup in refl) refl refl (omega arith) (omega arith)

abbrev parse : Text → Option ℕ
parse s = some (read_from 0 s)

parse_printed : (m : ℕ) → m < 2 ^ 128 → parse (uuid_text m) ≡ some m
parse_printed m h = let e = read_from-uuid_text m h in cc e

-- Tokens are the texts of their owners, signed with the one key.
abbrev jwt : Jwt ℕ Text
jwt = record {
  get_unverified_header = λ s. some (kid_text (codes "a"));
  decode = λ s key options. some (λ claim. some s);
  str_of = λ c. elim c [ none ↦ [] | some s ↦ s ];
}

abbrev jwt_policy : JwtPolicy
jwt_policy = record {
  issuer = codes "i";
  audience = codes "x";
  algorithms = codes "RS256" ∷ [];
  owner_claim = codes "sub";
  leeway = 30;
}

abbrev get_key : Text → JwksCache ℕ → Result (Option ℕ) × JwksCache ℕ
get_key = get_locked policy 2000 2100 failed

authenticate-Admits_example :
    Admits jwt parse get_key jwt_policy
      (uuid_text 7)
      cache
      (authenticate jwt parse get_key jwt_policy (some (uuid_text 7)) cache).0
authenticate-Admits_example = authenticate-Admits jwt parse get_key jwt_policy (uuid_text 7) cache
