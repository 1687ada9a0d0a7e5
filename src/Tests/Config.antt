-- ===== src/Tests/Config.antt =====
-- The production checks of src/evenkeel/setup/config.py at a concrete configuration.
use evenkeel.Prelude.{◌≡◌, ◌⊎◌, ◌≤◌, refl, true, false, Option, none, [], ◌∷◌}
use evenkeel.Prelude.Int.{pos}
use evenkeel.Prelude.Text.{Text, codes}
use evenkeel.Domain.Wallet.{OwnerId}
use evenkeel.Setup.Config.{
  Settings, starts_with, only_scheme, weak_password, jwt_problems, common_problems,
  production_config_problems,
}
use evenkeel.Setup.Wiring.{
  AppSettings, is_local, web, owner_required, worker_count, guarded, web_main, mcp_main,
  evenkeel_web, start, create_app, mount_metrics_endpoint, build_metrics, has_registry,
  store_adapter, risk_assessment, over_redis, allow_all,
}
use evenkeel.Setup.Wiring.Guarded.{Verifies, Closed, Undocumented, start_guarded}

abbrev settings : Settings
settings = record {
  identity_provider = codes "jwt";
  issuer = codes "i";
  audience = codes "a";
  jwks_url = codes "https://i";
  algorithms = codes "RS256" ∷ [];
  secret_key = codes "s3cret";
  database_password = codes "hunter2";
  echo = false;
  echo_pool = false;
  risk_provider = codes "none";
  risk_base_url = [];
}

abbrev as_is : Text → Text
as_is t = t

-- Served outside a local run, with four workers.
abbrev app_settings : AppSettings
app_settings = record {
  environment = codes "production";
  workers = pos 4;
  reload = true;
  console_pretty_in_debug = true;
  metrics_enabled = true;
  redis_url = codes "redis://r";
  owner_claim = codes "sub";
  mcp_owner_id = [];
  checked = settings;
}

abbrev no_uuid : Text → Option OwnerId
no_uuid t = none

start_guarded_example :
    ((is_local app_settings ≡ true)
      ⊎ (Closed as_is app_settings × (Verifies as_is app_settings × Undocumented app_settings)))
    × ((1 ≤ 4) × (false ≡ false))
start_guarded_example =
    start_guarded as_is no_uuid app_settings evenkeel_web
      (web (record { workers = 4; reload = false }))
      (unfold start web_main guarded worker_count production_config_problems jwt_problems
          common_problems only_scheme weak_password starts_with in
        refl)

-- Without an owner the tools are not served.
mcp_halts : mcp_main as_is no_uuid app_settings ≡ owner_required
unfolding mcp_main guarded production_config_problems jwt_problems common_problems only_scheme
    weak_password starts_with
mcp_halts = refl

-- A local run keeps its documentation, another shows the metrics alone.
surface_run :
    ((create_app app_settings).docs_url ≡ none) × ((create_app app_settings).metrics_route ≡ true)
unfolding create_app mount_metrics_endpoint build_metrics has_registry
surface_run = (refl, refl)

adapters_run :
    (store_adapter app_settings ≡ over_redis (codes "redis://r"))
    × (risk_assessment app_settings ≡ allow_all true)
unfolding store_adapter risk_assessment
adapters_run = (refl, refl)
