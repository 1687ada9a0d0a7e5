-- ===== src/Setup/Wiring/Guarded.antt =====
-- What holds of a program that serves: src/evenkeel/entrypoints and src/evenkeel/setup.
use evenkeel.Prelude.{
  ◌≡◌, ◌⊎◌, ◌≤◌, zero, suc, inl, inr, refl, Bool, true, false, not, ◌&&◌, ◌||◌, ◌==◌, Option, none,
  some, List, [], ◌∷◌, arith, if_holds,
}
use evenkeel.Prelude.Int.{ℤ, pos, negsuc}
use mathlib.Core.Path.{subst}
use evenkeel.Prelude.Text.{Text, codes, text_beq, text_beq_iff}
use evenkeel.Domain.Wallet.{OwnerId}
use evenkeel.Setup.Config.{
  is_empty, is_jwt, is_dev, starts_with, weak_password, production_config_problems,
}
use evenkeel.Setup.Config.Safe.{production_config_problems-empty}
use evenkeel.Setup.Wiring.{
  AppSettings, default_secret, is_local, jwt_adapter, jwt_policy, identity_provider, create_app,
  Service, web, tools, Exit, insecure, owner_required, owner_malformed, serves, worker_count,
  guarded, owner_of, web_main, mcp_main, Program, evenkeel_web, evenkeel_mcp, start,
}

-- The identity provider is the one that verifies tokens, against keys that come over https, by the
-- issuer, the audience, the algorithms and the owner claim of the settings, the first three of them
-- not empty.
abbrev pub Verifies : (Text → Text) → AppSettings → Type 0
Verifies lower app =
    (identity_provider app
      ≡ jwt_adapter
          (record {
            algorithms = app.checked.algorithms;
            issuer = app.checked.issuer;
            audience = app.checked.audience;
            owner_claim = app.owner_claim;
            leeway = 30;
          })
          app.checked.jwks_url)
    × (is_empty app.checked.issuer ≡ false)
    × (is_empty app.checked.audience ≡ false)
    × (is_empty app.checked.algorithms ≡ false)
    × (is_empty app.checked.jwks_url ≡ false)
    × ((is_empty (lower app.checked.jwks_url)
          || starts_with (codes "https://") (lower app.checked.jwks_url))
        ≡ true)

-- No secret is left at its default, and none is shown in a log or on the way to the risk provider.
abbrev pub Closed : (Text → Text) → AppSettings → Type 0
Closed lower app =
    ((is_empty app.checked.secret_key || text_beq app.checked.secret_key (codes "change-me"))
      ≡ false)
    × (weak_password app.checked.database_password ≡ false)
    × ((app.checked.echo || app.checked.echo_pool) ≡ false)
    × ((text_beq app.checked.risk_provider (codes "http")
          && starts_with (codes "http://") (lower app.checked.risk_base_url))
        ≡ false)

-- There is no interactive documentation.
abbrev pub Undocumented : AppSettings → Type 0
Undocumented app =
    ((create_app app).docs_url ≡ none)
    × ((create_app app).redoc_url ≡ none)
    × ((create_app app).openapi_url ≡ none)
    × ((create_app app).include_docs ≡ false)

-- The HTTP side verifies its callers and shows them no documentation; the tools have no callers to
-- verify.
abbrev pub Shields : (Text → Text) → AppSettings → Service → Type 0
Shields lower app (web u) = Verifies lower app × Undocumented app
Shields lower app (tools owner) = Unit {0}

-- A service is the one the settings ask for: at least one worker, more than one only without
-- reloading; the tools for the configured owner.
abbrev pub Fits : (Text → Option OwnerId) → AppSettings → Service → Type 0
Fits parse app (web u) = (1 ≤ u.workers) × ((u.reload && not (u.workers == 1)) ≡ false)
Fits parse app (tools owner) = parse app.mcp_owner_id ≡ some owner

-- What is asked of an exit: only serving promises anything.
abbrev Promises : Type 0 → (Service → Type 0) → Exit → Type 0
Promises A P (serves s) = A × P s
Promises A P (insecure problems) = Unit {0}
Promises A P owner_required = Unit {0}
Promises A P owner_malformed = Unit {0}

is_empty_nil {ℓ} : {A : Type ℓ} → (xs : List A) → not (is_empty xs) ≡ false → xs ≡ []
is_empty_nil [] h = refl
is_empty_nil (x ∷ xs) h = ground arith

identity_provider-jwt :
    (app : AppSettings)
    → is_jwt app.checked ≡ true
    → identity_provider app ≡ jwt_adapter (jwt_policy app) app.checked.jwks_url
unfolding identity_provider
identity_provider-jwt app jwt =
    let named : app.checked.identity_provider ≡ codes "jwt" =
      (text_beq_iff app.checked.identity_provider (codes "jwt")).0 jwt in
    let other : is_dev app.checked ≡ false = rw named refl in rw (other, jwt) refl

module _ (lower : Text → Text) (parse : Text → Option OwnerId) (app : AppSettings) where
  abbrev Secured : Type 0
  Secured = (is_local app ≡ true) ⊎ (Verifies lower app × Closed lower app × Undocumented app)

  strict :
      is_local app ≡ false
      → production_config_problems lower default_secret app.checked ≡ []
      → Verifies lower app × Closed lower app × Undocumented app
  unfolding create_app
  strict away none_found =
      let (jwt, issuer, audience, algorithms, url, scheme, https, secret, password, echo, plain) =
        production_config_problems-empty lower default_secret app.checked none_found in
      (
        (identity_provider-jwt app jwt, issuer, audience, algorithms, url, https),
        (secret, password, echo, plain),
        (rw away refl, rw away refl, rw away refl, away),
      )

  secured_at :
      (here : Bool)
      → is_local app ≡ here
      → (not (is_empty (production_config_problems lower default_secret app.checked)) && not here)
        ≡ false
      → Secured
  secured_at true local h = inl local
  secured_at false away h = inr (strict away (is_empty_nil _ (ground arith)))

  guarded-Promises :
      (rest : Exit)
      → (Secured → Promises Secured (Fits parse app) rest)
      → Promises Secured (Fits parse app) (guarded lower parse app rest)
  unfolding guarded
  guarded-Promises rest f =
      if_holds (Promises Secured (Fits parse app))
        (not (is_empty (production_config_problems lower default_secret app.checked))
          && not (is_local app))
        (λ _. tt) (λ passed. f (secured_at (is_local app) refl passed))

  worker_count-Fits :
      (workers : ℤ)
      → Fits parse app (
          web (record {
            workers = worker_count workers;
            reload = app.reload && (worker_count workers == 1);
          }))
  unfolding worker_count
  worker_count-Fits (pos zero) = (omega arith, ground arith)
  worker_count-Fits (pos (suc n)) = (omega arith, ground arith)
  worker_count-Fits (negsuc n) = (omega arith, ground arith)

  owner_of-Promises :
      (found : Option OwnerId)
      → parse app.mcp_owner_id ≡ found
      → Secured
      → Promises Secured (Fits parse app) (owner_of lower parse found)
  unfolding owner_of
  owner_of-Promises none read safe = tt
  owner_of-Promises (some owner) read safe = (safe, read)

  start-Promises :
      (program : Program) → Promises Secured (Fits parse app) (start lower parse program app)
  unfolding start web_main mcp_main
  start-Promises evenkeel_web = guarded-Promises _ (λ safe. (safe, worker_count-Fits app.workers))
  start-Promises evenkeel_mcp = guarded-Promises _ (λ safe.
      if_holds (Promises Secured (Fits parse app)) (is_empty app.mcp_owner_id) (λ _. tt)
        (λ _. owner_of-Promises (parse app.mcp_owner_id) refl safe))

  shielded :
      (service : Service)
      → Secured
      → (is_local app ≡ true) ⊎ (Closed lower app × Shields lower app service)
  shielded service (inl local) = inl local
  shielded (web u) (inr (verifies, closed, undocumented)) = inr (closed, (verifies, undocumented))
  shielded (tools owner) (inr (verifies, closed, undocumented)) = inr (closed, tt)

  -- A program that serves outside a local run has no default secret or password, logs no parameters
  -- and asks no risk provider in plaintext; the HTTP side then verifies its callers' tokens by the
  -- configured issuer, audience and algorithms with keys over https, and shows no interactive
  -- documentation. In any run what is served is, for the HTTP side, at least one worker, with
  -- reloading only for one, and for the tools the configured owner's.
  pub start_guarded :
      (program : Program) (service : Service)
      → start lower parse program app ≡ serves service
      → ((is_local app ≡ true) ⊎ (Closed lower app × Shields lower app service))
        × Fits parse app service
  start_guarded program service served =
      let (safe, fits) =
        subst (Promises Secured (Fits parse app)) served (start-Promises program) in
      (shielded service safe, fits)
