-- ===== src/Redis/Translated.antt =====
-- `translating_redis_errors` of src/evenkeel/infrastructure/adapters/redis/_errors.py.
use Prim.Native.String.{String}
use evenkeel.Prelude.{Bool, Option, none, some, [], ◌∷◌, if◌then◌else◌}
use evenkeel.Domain.Errors.{
  Error, Result, err, application, domain, driver, label, dependency_unavailable_error,
  dependency_unavailable,
}

abbrev pub unavailable_error : String → Error
unavailable_error operation = application (record {
  kind = dependency_unavailable_error;
  code = dependency_unavailable;
  details = ("dependency", label "redis") ∷ ("operation", label operation) ∷ [];
})

-- `is_redis` tells the subclasses of `RedisError` from the driver's and the interpreter's others.
unfoldable pub translate : (String → Bool) → String → Error → Error
translate is_redis operation (driver name) =
    if is_redis name then unavailable_error operation else driver name
translate is_redis operation (application e) = application e
translate is_redis operation (domain e) = domain e

-- A command under the context manager: what the client raises instead of running it, if anything.
unfoldable pub translated :
    {A R : Type 0} → (String → Bool) → String → Option Error → Result A × R → R → Result A × R
unfolding translate
translated is_redis operation none ran r = ran
translated is_redis operation (some e) ran r = (err (translate is_redis operation e), r)
