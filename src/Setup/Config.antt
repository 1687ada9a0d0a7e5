-- ===== src/Setup/Config.antt =====
-- `production_config_problems` of src/evenkeel/setup/config.py. `lower` is `str.lower`.
pub mod Safe
use evenkeel.Prelude.{Bool, true, false, not, ◌&&◌, ◌||◌, List, [], ◌∷◌, ◌++◌, ◌==◌, if◌then◌else◌}
use evenkeel.Prelude.Text.{Text, codes, text_beq}

-- The settings that the function looks at.
pub record Settings : Type 0 where
  pub identity_provider : Text
  pub issuer : Text
  pub audience : Text
  pub jwks_url : Text
  pub algorithms : List Text
  pub secret_key : Text
  pub database_password : Text
  pub echo : Bool
  pub echo_pool : Bool
  pub risk_provider : Text
  pub risk_base_url : Text

-- The problems, one for each message.
pub data Problem : Type 0 where
  unknown_provider issuer_empty audience_empty jwks_url_empty no_algorithms : Problem
  no_host not_https dev_identity secret_default password_default echo_on risk_plaintext : Problem

-- `not value`
abbrev pub is_empty {ℓ} : {A : Type ℓ} → List A → Bool
is_empty [] = true
is_empty (x ∷ xs) = false

-- `str.startswith`
unfoldable pub starts_with : Text → Text → Bool
starts_with [] s = true
starts_with (c ∷ p) [] = false
starts_with (c ∷ p) (d ∷ s) = c == d && starts_with p s

-- `problems.append(...)` under a condition.
abbrev pub problem_if : Bool → Problem → List Problem → List Problem
problem_if condition problem rest = if condition then problem ∷ rest else rest

abbrev pub is_jwt : Settings → Bool
is_jwt s = text_beq s.identity_provider (codes "jwt")

abbrev pub is_dev : Settings → Bool
is_dev s = text_beq s.identity_provider (codes "dev")

-- `url in ("https://", "http://")`
unfoldable pub only_scheme : Text → Bool
only_scheme url = text_beq url (codes "https://") || text_beq url (codes "http://")

unfoldable pub weak_password : Text → Bool
weak_password p = is_empty p || text_beq p (codes "evenkeel") || text_beq p (codes "postgres")

module _ (lower : Text → Text) (default_secret : Text) where
  -- What is asked of a JWT verifier.
  unfoldable pub jwt_problems : Settings → List Problem → List Problem
  unfolding only_scheme
  jwt_problems s rest = problem_if (is_empty s.issuer) issuer_empty (
      problem_if (is_empty s.audience) audience_empty (
        problem_if (is_empty s.jwks_url) jwks_url_empty (
          problem_if (is_empty s.algorithms) no_algorithms (
            if only_scheme (lower s.jwks_url)
            then no_host ∷ rest
            else problem_if
                (not (is_empty (lower s.jwks_url))
                  && not (starts_with (codes "https://") (lower s.jwks_url)))
                not_https rest))))

  unfoldable pub common_problems : Settings → List Problem
  unfolding weak_password
  common_problems s = problem_if (is_dev s) dev_identity (
      problem_if (is_empty s.secret_key || text_beq s.secret_key default_secret) secret_default (
        problem_if (weak_password s.database_password) password_default (
          problem_if (s.echo || s.echo_pool) echo_on (
            problem_if
              (text_beq s.risk_provider (codes "http")
                && starts_with (codes "http://") (lower s.risk_base_url))
              risk_plaintext []))))

  -- `production_config_problems`
  unfoldable pub production_config_problems : Settings → List Problem
  unfolding jwt_problems common_problems
  production_config_problems s =
      let rest = common_problems s in
      let checked = if is_jwt s then jwt_problems s rest else rest in
      problem_if (not (is_dev s) && not (is_jwt s)) unknown_provider checked
