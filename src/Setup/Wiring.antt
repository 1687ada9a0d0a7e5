-- ===== src/Setup/Wiring.antt =====
-- What the settings choose: the entry points src/evenkeel/entrypoints/web.py and mcp.py, the
-- providers of src/evenkeel/setup/ioc/providers/core.py and the surface that `create_app` of
-- src/evenkeel/setup/app_factory.py exposes. `lower` is `str.lower` and `parse` Python's `UUID`. The
-- address, the timeouts and the pool sizes are handed on unread and left out.
pub mod Guarded
use evenkeel.Prelude.{
  ℕ, zero, suc, Bool, true, false, not, ◌&&◌, Option, none, some, List, [], ◌∷◌, ◌==◌,
  if◌then◌else◌,
}
use evenkeel.Prelude.Int.{ℤ, pos, negsuc}
use evenkeel.Prelude.Text.{Text, codes, text_beq}
use evenkeel.Domain.Wallet.{OwnerId}
use evenkeel.Jwt.Identity.{JwtPolicy}
use evenkeel.Setup.Config.{Settings, Problem, is_empty, is_jwt, is_dev, production_config_problems}

-- The settings that start-up reads, `checked` being those of the production checks.
pub record AppSettings : Type 0 where
  pub environment : Text
  pub workers : ℤ
  pub reload : Bool
  pub console_pretty_in_debug : Bool
  pub metrics_enabled : Bool
  pub redis_url : Text
  pub owner_claim : Text
  pub mcp_owner_id : Text
  pub checked : Settings

abbrev pub default_secret : Text
default_secret = codes "change-me"

-- `AppConfig.is_local`
abbrev pub is_local : AppSettings → Bool
is_local app = text_beq app.environment (codes "local")

-- `RedisConfig.enabled`
abbrev pub redis_enabled : AppSettings → Bool
redis_enabled app = not (is_empty app.redis_url)

-- The adapter for identities, or the `ValueError` of an unknown name.
pub data IdentityAdapter : Type 0 where
  dev_adapter unknown_identity_provider : IdentityAdapter
  jwt_adapter : JwtPolicy → Text → IdentityAdapter

abbrev pub jwt_policy : AppSettings → JwtPolicy
jwt_policy app = record {
  algorithms = app.checked.algorithms;
  issuer = app.checked.issuer;
  audience = app.checked.audience;
  owner_claim = app.owner_claim;
  leeway = 30;
}

-- `InfrastructureProvider.identity_provider`
unfoldable pub identity_provider : AppSettings → IdentityAdapter
identity_provider app =
    if is_dev app.checked
    then dev_adapter
    else if not (is_jwt app.checked)
    then unknown_identity_provider
    else jwt_adapter (jwt_policy app) app.checked.jwks_url

-- The four providers of a shared store: the lock, the rate limiter, the bulkhead and the
-- idempotency store choose alike.
pub data StoreAdapter : Type 0 where
  in_memory : StoreAdapter
  over_redis : Text → StoreAdapter

unfoldable pub store_adapter : AppSettings → StoreAdapter
store_adapter app = if not (redis_enabled app) then in_memory else over_redis app.redis_url

-- The adapter for risk; the one that allows everything comes with whether a warning is logged.
pub data RiskAdapter : Type 0 where
  allow_all : Bool → RiskAdapter
  http_risk : Text → RiskAdapter

-- `InfrastructureProvider.risk_assessment`
unfoldable pub risk_assessment : AppSettings → RiskAdapter
risk_assessment app =
    if not (text_beq app.checked.risk_provider (codes "http"))
    then allow_all (not (is_local app))
    else http_risk app.checked.risk_base_url

pub data MetricsAdapter : Type 0 where
  noop_metrics prometheus_metrics : MetricsAdapter

-- `_build_metrics`
unfoldable pub build_metrics : AppSettings → MetricsAdapter
build_metrics app = if not app.metrics_enabled then noop_metrics else prometheus_metrics

-- Only the Prometheus adapter has a registry.
unfoldable pub has_registry : MetricsAdapter → Bool
has_registry noop_metrics = false
has_registry prometheus_metrics = true

-- `_mount_metrics_endpoint`: whether the route is added.
unfoldable pub mount_metrics_endpoint : MetricsAdapter → AppSettings → Bool
unfolding has_registry
mount_metrics_endpoint metrics app = has_registry metrics && app.metrics_enabled

-- What an application exposes beside its routes, and how it logs.
pub record Surface : Type 0 where
  pub docs_url : Option Text
  pub redoc_url : Option Text
  pub openapi_url : Option Text
  pub include_docs : Bool
  pub metrics_route : Bool
  pub pretty_console : Bool

-- `None if is_production else url`
abbrev pub unless_production : AppSettings → Text → Option Text
unless_production app url = if not (is_local app) then none else some url

-- `create_app`, of settings alone.
unfoldable pub create_app : AppSettings → Surface
unfolding mount_metrics_endpoint build_metrics
create_app app = record {
  docs_url = unless_production app (codes "/docs");
  redoc_url = unless_production app (codes "/redoc");
  openapi_url = unless_production app (codes "/openapi.json");
  include_docs = is_local app;
  metrics_route = mount_metrics_endpoint (build_metrics app) app;
  pretty_console = is_local app && app.console_pretty_in_debug;
}

-- What `uvicorn.run` is asked.
pub record Uvicorn : Type 0 where
  pub workers : ℕ
  pub reload : Bool

pub data Service : Type 0 where
  web : Uvicorn → Service
  tools : OwnerId → Service

-- How `main` ends: with the exit code 1 and what it prints, or serving.
pub data Exit : Type 0 where
  insecure : List Problem → Exit
  owner_required owner_malformed : Exit
  serves : Service → Exit

-- `max(1, workers)`
unfoldable pub worker_count : ℤ → ℕ
worker_count (pos zero) = 1
worker_count (pos (suc n)) = suc n
worker_count (negsuc n) = 1

module _ (lower : Text → Text) (parse : Text → Option OwnerId) where
  -- The refusal that both entry points begin with.
  unfoldable pub guarded : AppSettings → Exit → Exit
  guarded app rest =
      let problems = production_config_problems lower default_secret app.checked in
      if not (is_empty problems) && not (is_local app) then insecure problems else rest

  -- `main` of web.py.
  unfoldable pub web_main : AppSettings → Exit
  unfolding guarded worker_count
  web_main app =
      let workers = worker_count app.workers in
      guarded app
        (serves (web (record { workers = workers; reload = app.reload && (workers == 1) })))

  owner_of : Option OwnerId → Exit
  owner_of none = owner_malformed
  owner_of (some owner) = serves (tools owner)

  -- `main` of mcp.py.
  unfoldable pub mcp_main : AppSettings → Exit
  unfolding guarded owner_of
  mcp_main app =
      guarded app
        (if is_empty app.mcp_owner_id then owner_required else owner_of (parse app.mcp_owner_id))

-- The two programs of the package.
pub data Program : Type 0 where
  evenkeel_web evenkeel_mcp : Program

unfoldable pub start : (Text → Text) → (Text → Option OwnerId) → Program → AppSettings → Exit
unfolding web_main mcp_main
start lower parse evenkeel_web app = web_main lower parse app
start lower parse evenkeel_mcp app = mcp_main lower parse app
