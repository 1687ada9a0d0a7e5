-- ===== src/Presentation/Probes.antt =====
-- The probes of src/evenkeel/presentation/http/routers/health.py, by what the database came to.
use Prim.Native.String.{String}
use evenkeel.Prelude.{
  ℕ, ◌≡◌, refl, ◌⊎◌, inl, inr, Bool, true, false, Option, none, some, if◌then◌else◌,
}

-- A `SELECT 1` under its timeout: a row, the timeout, or an exception by its class.
pub data Probed : Type 0 where
  selected timed_out : Probed
  failed : String → Probed

pub record DependencyStatus : Type 0 where
  pub healthy : Bool
  pub error : Option String

-- `_check_database`
unfoldable pub check_database : Probed → DependencyStatus
check_database selected = record { healthy = true; error = none }
check_database timed_out = record { healthy = false; error = some "timeout" }
check_database (failed class) = record { healthy = false; error = some class }

pub record Readiness : Type 0 where
  pub status_code : ℕ
  pub status : String
  pub database : DependencyStatus

-- `liveness` answers without a look at anything.
unfoldable pub liveness : String
liveness = "alive"

-- `readiness`
unfoldable pub readiness : Probed → Readiness
unfolding check_database
readiness probed =
    let database = check_database probed in
    record {
      status_code = if database.healthy then 200 else 503;
      status = if database.healthy then "ready" else "degraded";
      database = database;
    }

-- The probe is ready exactly on an answer of the database; otherwise it names what went wrong.
readiness_cases :
    (p : Probed)
    → ((p ≡ selected) × ((readiness p).status_code ≡ 200))
      ⊎ ((name : String) × ((readiness p).database.error ≡ some name)
          × ((readiness p).status_code ≡ 503))
unfolding readiness check_database
readiness_cases selected = inl (refl, refl)
readiness_cases timed_out = inr ("timeout", refl, refl)
readiness_cases (failed name) = inr (name, refl, refl)
