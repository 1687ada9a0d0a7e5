-- ===== src/Presentation/Correlation/Echoed.antt =====
-- The id that src/evenkeel/presentation/http/middleware.py carries, and where it stands.
use evenkeel.Prelude.{
  ℕ, ◌+◌, ◌≤◌, ◌≡◌, refl, inl, inr, max, true, not, ◌&&◌, Bool-cases, Option, none, some, [], ◌∷◌,
  ◌++◌, leb, map, arith, if◌then◌else◌, if_holds,
}
use evenkeel.Prelude.Text.{Text, text_beq}
use evenkeel.Presentation.Problem.{lower}
use evenkeel.Presentation.Correlation.{
  Headers, correlation_header, fits_shape, inbound_loop, inbound_correlation_id,
  request_correlation_id, or_fresh, has_header, with_correlation,
}

inbound_loop_two :
    (headers more : Headers) (found : Option Text)
    → inbound_loop (headers ++ more) found ≡ inbound_loop more (inbound_loop headers found)
unfolding inbound_loop
inbound_loop_two [] more found = refl
inbound_loop_two ((name, value) ∷ headers) more found = inbound_loop_two headers more _

-- Nothing, or an id of the shape.
abbrev pub Fits : Option Text → Type 0
Fits none = Unit {0}
Fits (some s) = fits_shape s ≡ true

inbound_loop-Fits :
    (headers : Headers) (found : Option Text) → Fits found → Fits (inbound_loop headers found)
unfolding inbound_loop
inbound_loop-Fits [] found h = h
inbound_loop-Fits ((name, value) ∷ headers) found h = inbound_loop-Fits headers _ (
    if_holds Fits (text_beq (map lower name) correlation_header && fits_shape value)
      (λ both. ground (arith, both)) (λ _. h))

or_fresh-Fits :
    (fresh : Text) (found : Option Text)
    → fits_shape fresh ≡ true
    → Fits found
    → fits_shape (or_fresh fresh found) ≡ true
unfolding or_fresh
or_fresh-Fits fresh none h fits = h
or_fresh-Fits fresh (some id) h fits = fits

-- Where a new id has the shape, so has every id that a request is given, whatever its headers are;
-- and a header of the correlation id that has the shape is taken over all that come before it.
pub request_correlation_id-Fits :
    (fresh : Text) (headers : Headers) (name value : Text)
    → fits_shape fresh ≡ true
    → text_beq (map lower name) correlation_header ≡ true
    → fits_shape value ≡ true
    → (fits_shape (request_correlation_id fresh headers) ≡ true)
      × (request_correlation_id fresh (headers ++ (name, value) ∷ []) ≡ value)
unfolding request_correlation_id inbound_correlation_id or_fresh inbound_loop
request_correlation_id-Fits fresh headers name value new named fits = (
  or_fresh-Fits fresh (inbound_loop headers none) new (inbound_loop-Fits headers none tt),
  rw (inbound_loop_two headers ((name, value) ∷ []) none, named, fits) refl,
)

unfoldable pub count_headers : Headers → ℕ
count_headers [] = 0
count_headers ((name, value) ∷ headers) =
    let rest = count_headers headers in if text_beq name correlation_header then 1 + rest else rest

has_header-count : (headers : Headers) → has_header headers ≡ leb 1 (count_headers headers)
unfolding has_header count_headers
has_header-count [] = ground arith
has_header-count ((name, value) ∷ headers) = ground (arith, has_header-count headers)

count_headers-append :
    (headers more : Headers)
    → count_headers (headers ++ more) ≡ count_headers headers + count_headers more
unfolding count_headers
count_headers-append [] more = ground arith
count_headers-append ((name, value) ∷ headers) more =
    ground (arith, count_headers-append headers more)

pub with_correlation_has :
    (id : Text) (headers : Headers) → has_header (with_correlation id headers) ≡ true
unfolding with_correlation count_headers
with_correlation_has id headers =
    let grown = count_headers-append headers ((correlation_header, id) ∷ []) in
    let one : count_headers ((correlation_header, id) ∷ []) ≡ 1 = refl in
    if_holds (λ hs. has_header hs ≡ true) (not (has_header headers))
      (λ missing.
        ground (arith, has_header-count (headers ++ (correlation_header, id) ∷ []), grown, one))
      (λ there. ground (arith, there))

-- However the headers of a response stand, the wrapper leaves the correlation id among them: once
-- where it was missing, as often as it was there where it was, and a second time changes nothing.
pub with_correlation_once :
    (id other : Text) (headers : Headers)
    → (count_headers (with_correlation id headers) ≡ max 1 (count_headers headers))
      × (with_correlation other (with_correlation id headers) ≡ with_correlation id headers)
unfolding with_correlation count_headers
with_correlation_once id other headers =
    let grown = count_headers-append headers ((correlation_header, id) ∷ []) in
    let one : count_headers ((correlation_header, id) ∷ []) ≡ 1 = refl in
    elim (Bool-cases (has_header headers)) [
      | inl there ↦
          let some_there : 1 ≤ count_headers headers =
            ground (arith, has_header-count headers, there) in
          rw (there, there) (omega (arith, some_there), refl)
      | inr missing ↦
          let none_there : count_headers headers ≡ 0 =
            ground (arith, has_header-count headers, missing) in
          let there : has_header (headers ++ (correlation_header, id) ∷ []) ≡ true =
            ground
              (arith, has_header-count (headers ++ (correlation_header, id) ∷ []), grown, one) in
          rw (missing, there) (omega (arith, none_there, grown, one), refl)
    ]
