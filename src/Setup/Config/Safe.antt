-- ===== src/Setup/Config/Safe.antt =====
-- What a configuration without problems is: src/evenkeel/setup/config.py
use evenkeel.Prelude.{◌≡◌, true, false, ◌&&◌, ◌||◌, [], arith}
use evenkeel.Prelude.Text.{Text, codes, text_beq}
use evenkeel.Setup.Config.{
  Settings, is_empty, starts_with, is_jwt, only_scheme, weak_password, jwt_problems,
  common_problems, production_config_problems,
}

-- A configuration without problems verifies tokens: its identity provider is JWT, with an issuer,
-- an audience, an algorithm and a key address over https with a host; its secret is not the
-- default one, its password is not a well-known one, the database echoes nothing, and a risk
-- provider over HTTP is not asked in plaintext.
pub production_config_problems-empty :
    (lower : Text → Text) (default_secret : Text) (s : Settings)
    → production_config_problems lower default_secret s ≡ []
    → (is_jwt s ≡ true)
      × (is_empty s.issuer ≡ false)
      × (is_empty s.audience ≡ false)
      × (is_empty s.algorithms ≡ false)
      × (is_empty s.jwks_url ≡ false)
      × (only_scheme (lower s.jwks_url) ≡ false)
      × ((is_empty (lower s.jwks_url) || starts_with (codes "https://") (lower s.jwks_url)) ≡ true)
      × ((is_empty s.secret_key || text_beq s.secret_key default_secret) ≡ false)
      × (weak_password s.database_password ≡ false)
      × ((s.echo || s.echo_pool) ≡ false)
      × ((text_beq s.risk_provider (codes "http")
            && starts_with (codes "http://") (lower s.risk_base_url))
          ≡ false)
unfolding production_config_problems jwt_problems common_problems
production_config_problems-empty lower default_secret s h = ground arith
