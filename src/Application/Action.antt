-- ===== src/Application/Action.antt =====
-- A coroutine of the application: it reads and changes the world behind the ports, and returns or
-- raises. What it did before a raise stays done.
use evenkeel.Prelude.{Bool, if◌then◌else◌}
use evenkeel.Domain.Errors.{Error, Result, ok, err}

abbrev pub Action : Type 0 → Type 0 → Type 0
Action W A = W → Result A × W

abbrev pub pure : {W A : Type 0} → A → Action W A
pure a w = (ok a, w)

abbrev pub raise : {W A : Type 0} → Error → Action W A
raise e w = (err e, w)

-- A call with no `await` that may raise.
abbrev pub lift : {W A : Type 0} → Result A → Action W A
lift r w = (r, w)

-- A call that cannot raise.
abbrev pub tell : {W : Type 0} → (W → W) → Action W (Unit {0})
tell f w = (ok tt, f w)

-- The rest of a block, after a step that returned or raised.
abbrev pub continue : {W A B : Type 0} → Result A → (A → Action W B) → Action W B
continue (ok a) f w = f a w
continue (err e) f w = (err e, w)

infixl 5 ◌>>=◌ ◌>>◌
abbrev pub ◌>>=◌ : {W A B : Type 0} → Action W A → (A → Action W B) → Action W B
◌>>=◌ m f w = let (r, w') = m w in continue r f w'

abbrev pub ◌>>◌ : {W A B : Type 0} → Action W A → Action W B → Action W B
m >> k = m >>= λ _. k

-- `if condition: body`
abbrev pub when : {W : Type 0} → Bool → Action W (Unit {0}) → Action W (Unit {0})
when condition body = if condition then body else pure tt

-- After a `finally` block: a raise of its own replaces the outcome of the body.
abbrev pub finish : {A : Type 0} → Result A → Result (Unit {0}) → Result A
finish r (ok u) = r
finish r (err e) = err e

-- `try: body finally: cleanup`, and the body of an `async with`.
abbrev pub finally : {W A : Type 0} → Action W A → Action W (Unit {0}) → Action W A
finally body cleanup w = let (r, w') = body w in let (c, w'') = cleanup w' in (finish r c, w'')

-- `try: body except Exception: handler`
abbrev pub handle : {W A : Type 0} → (Error → Action W A) → Result A → Action W A
handle handler (ok a) w = (ok a, w)
handle handler (err e) w = handler e w

abbrev pub catch : {W A : Type 0} → Action W A → (Error → Action W A) → Action W A
catch body handler w = let (r, w') = body w in handle handler r w'
