-- ===== src/Presentation/Correlation.antt =====
-- `ObservabilityMiddleware` of src/evenkeel/presentation/http/middleware.py: the correlation id, the
-- handler's label and the calls of the metrics. Log lines and the context variables are left out.
pub mod Echoed
pub mod Paired
use Prim.Native.String.{String}
use evenkeel.Prelude.{
  ℕ, ◌+◌, Bool, true, false, not, ◌&&◌, ◌||◌, Option, none, some, List, [], ◌∷◌, ◌++◌, ◌==◌, leb,
  length, map, if◌then◌else◌,
}
use evenkeel.Prelude.Text.{Text, codes, text_beq}
use evenkeel.Logging.{is_in}
use evenkeel.Presentation.Problem.{lower}

abbrev pub Headers : Type 0
Headers = List (Text × Text)

-- `_CORRELATION_HEADER_BYTES`
abbrev pub correlation_header : Text
correlation_header = codes "x-correlation-id"

-- A character of `[A-Za-z0-9._:+/=-]`.
unfoldable pub is_id_char : ℕ → Bool
is_id_char c =
    (leb 65 c && leb c 90)
    || (leb 97 c && leb c 122)
    || (leb 48 c && leb c 57)
    || c == 46
    || c == 95
    || c == 58
    || c == 43
    || c == 47
    || c == 61
    || c == 45

unfoldable pub all_id_chars : Text → Bool
all_id_chars [] = true
all_id_chars (c ∷ s) = is_id_char c && all_id_chars s

-- `_CORRELATION_SHAPE.fullmatch`
unfoldable pub fits_shape : Text → Bool
fits_shape s = leb 1 (length s) && leb (length s) 128 && all_id_chars s

-- The loop of `_inbound_correlation_id`, with what it has found.
unfoldable pub inbound_loop : Headers → Option Text → Option Text
inbound_loop [] found = found
inbound_loop ((name, value) ∷ headers) found =
    inbound_loop headers (
      if text_beq (map lower name) correlation_header && fits_shape value
      then some value
      else found)

-- `_inbound_correlation_id`
unfoldable pub inbound_correlation_id : Headers → Option Text
unfolding inbound_loop
inbound_correlation_id headers = inbound_loop headers none

-- `found or fresh`, of an id that is never empty.
or_fresh : Text → Option Text → Text
or_fresh fresh none = fresh
or_fresh fresh (some id) = id

-- The request's id: the inbound one, or a new UUID as it prints.
unfoldable pub request_correlation_id : Text → Headers → Text
unfolding inbound_correlation_id or_fresh
request_correlation_id fresh headers = or_fresh fresh (inbound_correlation_id headers)

unfoldable pub has_header : Headers → Bool
has_header [] = false
has_header ((name, value) ∷ headers) = text_beq name correlation_header || has_header headers

-- `send_wrapper`, of the headers of a response's start.
unfoldable pub with_correlation : Text → Headers → Headers
unfolding has_header
with_correlation id headers =
    if not (has_header headers) then headers ++ (correlation_header, id) ∷ [] else headers

-- What an application sends: the start of a response, or anything else.
pub data Message : Type 0 where
  response_start : ℕ → Headers → Message
  other_message : Message

unfoldable pub send_wrapper : Text → Message → Message
unfolding with_correlation
send_wrapper id (response_start status headers) =
    response_start status (with_correlation id headers)
send_wrapper id other_message = other_message

-- `status_code` after the messages.
unfoldable pub last_status : List Message → ℕ → ℕ
last_status [] status = status
last_status (response_start s headers ∷ messages) status = last_status messages s
last_status (other_message ∷ messages) status = last_status messages status

-- How the application ends: it returns, is cancelled, raises an `Exception` of a class, or leaves
-- with another `BaseException`, such as `SystemExit`, that is not caught.
pub data Ending : Type 0 where
  returned cancelled escaped : Ending
  raised : String → Ending

-- A call of the metrics, without its duration.
pub data Observation : Type 0 where
  request_started : Observation
  request_finished : Text → Text → ℕ → Observation
  request_failed : Text → Text → String → Observation

module _ {P : Type 0} (fullmatch : P → Text → Bool) where
  -- `_handler_label`, from the compiled patterns on.
  unfoldable pub handler_label : List (P × Text) → Text → Text
  handler_label [] path = codes "unmatched"
  handler_label ((pattern_of, template) ∷ patterns) path =
      let rest = handler_label patterns path in if fullmatch pattern_of path then template else rest

  -- The metrics of a call, once the application is over.
  ended : Text → Text → List Message → Ending → List Observation
  ended method label messages returned =
      request_finished method label (last_status messages 500) ∷ []
  ended method label messages cancelled = request_failed method label "CancelledError" ∷ []
  ended method label messages escaped = []
  ended method label messages (raised name) = request_failed method label name ∷ []

  -- `__call__` on HTTP: the calls of the metrics and the messages that go on, for what the
  -- application sends and how it ends.
  unfoldable pub call :
      List (P × Text)
      → Text
      → Text
      → Headers
      → Text
      → List Message
      → Ending
      → List Observation × List Message
  unfolding handler_label ended request_correlation_id send_wrapper
  call patterns method path headers fresh messages ending = (
    request_started ∷ ended method (handler_label patterns path) messages ending,
    map (send_wrapper (request_correlation_id fresh headers)) messages,
  )

-- The routes of an application, as far as they are walked: a router that is included under a prefix,
-- a router that is mounted under a path, and a route of a path.
mutual
  pub data Route : Type 0 where
    included mounted : Text → Routes → Route
    leaf : Text → Route

  pub data Routes : Type 0 where
    no_routes : Routes
    route : Route → Routes → Routes

-- `prefix + path or "/"`
template_of : Text → Text
template_of [] = codes "/"
template_of (c ∷ s) = c ∷ s

-- `_build_route_patterns`, without compiling them.
unfoldable mutual
  unfolding template_of

  pub route_templates : Text → Route → List Text
  route_templates prefix (included path routes) = build_route_patterns (prefix ++ path) routes
  route_templates prefix (mounted path no_routes) = template_of (prefix ++ path) ∷ []
  route_templates prefix (mounted path (route r routes)) =
      build_route_patterns (prefix ++ path) (route r routes)
  route_templates prefix (leaf path) = template_of (prefix ++ path) ∷ []

  pub build_route_patterns : Text → Routes → List Text
  build_route_patterns prefix no_routes = []
  build_route_patterns prefix (route r routes) =
      route_templates prefix r ++ build_route_patterns prefix routes
