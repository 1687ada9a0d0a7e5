-- ===== src/Presentation/Correlation/Paired.antt =====
-- What a call of the middleware of src/evenkeel/presentation/http/middleware.py observes and sends.
use evenkeel.Prelude.{
  ℕ, ◌+◌, ◌≡◌, ◌⊎◌, refl, inl, inr, Bool, true, List, [], ◌∷◌, map, All, arith, if_holds,
}
use evenkeel.Prelude.Text.{Text, codes}
use evenkeel.Presentation.Correlation.{
  Headers, has_header, Message, response_start, other_message, send_wrapper, Ending, returned,
  cancelled, escaped, raised, Observation, request_started, request_finished, request_failed,
  handler_label, ended, call, request_correlation_id,
}
use evenkeel.Presentation.Correlation.Echoed.{with_correlation_has}

-- How many requests begin and end in what is observed.
unfoldable pub begun : List Observation → ℕ
begun [] = 0
begun (request_started ∷ xs) = 1 + begun xs
begun (request_finished method label status ∷ xs) = begun xs
begun (request_failed method label name ∷ xs) = begun xs

unfoldable pub over : List Observation → ℕ
over [] = 0
over (request_started ∷ xs) = over xs
over (request_finished method label status ∷ xs) = 1 + over xs
over (request_failed method label name ∷ xs) = 1 + over xs

-- A template of the list, or the one label of what matches none.
unfoldable pub IsLabel : {P : Type 0} → List (P × Text) → Text → Type 0
IsLabel [] s = s ≡ codes "unmatched"
IsLabel ((p, template) ∷ patterns) s = (s ≡ template) ⊎ IsLabel patterns s

-- The label that an observation has.
abbrev pub Labelled : (Text → Type 0) → Observation → Type 0
Labelled L request_started = Unit {0}
Labelled L (request_finished method label status) = L label
Labelled L (request_failed method label name) = L label

abbrev pub Carries : Message → Type 0
Carries (response_start status headers) = has_header headers ≡ true
Carries other_message = Unit {0}

-- How many ends a request has: none where the application leaves with what is neither an `Exception`
-- nor a cancellation.
abbrev pub ends : Ending → ℕ
ends returned = 1
ends cancelled = 1
ends escaped = 0
ends (raised name) = 1

module _ {P : Type 0} (fullmatch : P → Text → Bool) where
  handler_label-IsLabel :
      (patterns : List (P × Text)) (path : Text)
      → IsLabel patterns (handler_label fullmatch patterns path)
  unfolding handler_label IsLabel
  handler_label-IsLabel [] path = refl
  handler_label-IsLabel ((p, template) ∷ patterns) path =
      if_holds (λ s. (s ≡ template) ⊎ IsLabel patterns s) (fullmatch p path) (λ _. inl refl)
        (λ _. inr (handler_label-IsLabel patterns path))

  ended-Labelled :
      (L : Text → Type 0) (method label : Text) (messages : List Message) (ending : Ending)
      → L label
      → All (Labelled L) (ended fullmatch method label messages ending)
        × (over (ended fullmatch method label messages ending) ≡ ends ending)
        × (begun (ended fullmatch method label messages ending) ≡ 0)
  unfolding ended over begun
  ended-Labelled L method label messages returned h = ((h, tt), refl, refl)
  ended-Labelled L method label messages cancelled h = ((h, tt), refl, refl)
  ended-Labelled L method label messages escaped h = (tt, refl, refl)
  ended-Labelled L method label messages (raised name) h = ((h, tt), refl, refl)

  sent-Carries :
      (id : Text) (messages : List Message) → All Carries (map (send_wrapper id) messages)
  unfolding send_wrapper
  sent-Carries id [] = tt
  sent-Carries id (response_start status headers ∷ messages) =
      (with_correlation_has id headers, sent-Carries id messages)
  sent-Carries id (other_message ∷ messages) = (tt, sent-Carries id messages)

  -- Whether the application returns, is cancelled or raises an `Exception`, the metrics see one
  -- request begin and one end, and where it leaves with another `BaseException` they see it begin and
  -- not end; the end is under a label that is a template of the routes or the one of what matches none; and
  -- every response that starts carries a correlation id.
  pub call-Labelled :
      (patterns : List (P × Text)) (method path : Text) (headers : Headers) (fresh : Text)
      → (messages : List Message) → (ending : Ending)
      → let (observed, sent) = call fullmatch patterns method path headers fresh messages ending in
        (begun observed ≡ 1)
        × (over observed ≡ ends ending)
        × All (Labelled (IsLabel patterns)) observed
        × All Carries sent
  unfolding call begun over
  call-Labelled patterns method path headers fresh messages ending =
      let label = handler_label fullmatch patterns path in
      let (labelled, one, none_begun) =
        ended-Labelled (IsLabel patterns) method label messages ending
          (handler_label-IsLabel patterns path) in
      (
        omega (arith, none_begun),
        one,
        (tt, labelled),
        sent-Carries (request_correlation_id fresh headers) messages,
      )
