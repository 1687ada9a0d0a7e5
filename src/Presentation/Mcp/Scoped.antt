-- ===== src/Presentation/Mcp/Scoped.antt =====
-- The request scopes that the tools of src/evenkeel/presentation/mcp/server.py open.
use evenkeel.Prelude.{ℕ, ◌+◌, ◌-◌, ◌≡◌, arith}
use evenkeel.Domain.Errors.{Result, ok, err}
use evenkeel.Presentation.Tools.{Tool, Container, of_result, resume, enter_use_case, use_case}

-- How many scopes are open: a container opens one and closes one, and neither resolving a use case
-- nor running it does either.
pub record IsCounted {W I A : Type 0} (container : Container W I) (body : I → Tool W A)
    : Type 0 where
  pub scopes : W → ℕ
  pub entered : (w : W) → scopes (container.enter_scope w).1 ≡ scopes w + 1
  pub resolved : (w : W) → scopes (container.get w).1 ≡ scopes w
  pub run : (i : I) (w : W) → scopes (body i w).1 ≡ scopes w
  pub exited : (w : W) → scopes (container.exit_scope w) ≡ scopes w - 1

-- The scopes that a call leaves open: none, unless resolving the use case raised.
abbrev pub left_open : {I : Type 0} → Result I → ℕ
left_open (ok interactor) = 0
left_open (err e) = 1

module _ {W I A : Type 0} (container : Container W I) (body : I → Tool W A)
    (counted : IsCounted container body) where
  -- The rest of a call, from what resolving the use case came to.
  rest_scopes :
      (r : Result I) (w : W)
      → counted.scopes
          (resume (of_result r) (λ i w'. ((body i w').0, container.exit_scope (body i w').1)) w).1
        ≡ (counted.scopes w + left_open r) - 1
  rest_scopes (ok i) w =
      let ran = counted.run i w in
      let closed = counted.exited (body i w).1 in omega (arith, ran, closed)
  rest_scopes (err e) w = omega arith

  -- A call whose scope was opened leaves as many scopes open as there were, whatever the tool comes
  -- to; but if resolving the use case raises, it leaves one more.
  pub use_case_scopes :
      (w : W)
      → (container.enter_scope w).0 ≡ ok tt
      → counted.scopes (use_case container body w).1
        ≡ counted.scopes w + left_open (container.get (container.enter_scope w).1).0
  unfolding use_case enter_use_case
  use_case_scopes w opened =
      let w₁ = (container.enter_scope w).1 in
      let more = counted.entered w in
      let same = counted.resolved w₁ in
      let rest = rest_scopes (container.get w₁).0 (container.get w₁).1 in
      rw opened (omega (arith, more, same, rest))
