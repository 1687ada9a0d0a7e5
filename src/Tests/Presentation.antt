-- ===== src/Tests/Presentation.antt =====
-- The HTTP and MCP sides of the program, its logging and its pages at concrete inputs.
use mathlib.Core.List.{Permᴰ}
use evenkeel.Prelude.{
  ℕ, ◌+◌, ◌-◌, ◌≤◌, ◌≡◌, refl, Bool, true, false, ◌&&◌, none, some, List, [], ◌∷◌, ◌++◌, leb, map,
  filter, All, arith,
}
use evenkeel.Prelude.Int.{pos, negsuc}
use evenkeel.Prelude.Text.{Text, codes, text_beq}
use evenkeel.Domain.Decimal.{Number, finite}
use evenkeel.Domain.Errors.{Error, ok, err, domain, text, wallet_insufficient_funds}
use evenkeel.Domain.Money.{Unicode, CurrencyCode, currency_code, is_alpha, is_upper_from}
use evenkeel.Domain.Ledger.{credit}
use evenkeel.Ports.{allowed}
use evenkeel.Application.MoveMoney.{default_move_settings, move_money}
use evenkeel.Logging
use evenkeel.Logging.{
  Item, atom, mapping, sequence, item, no_items, field, no_fields, redact_sensitive,
}
use evenkeel.Logging.Redacted.{Clean, redact_sensitive-Clean}
use evenkeel.Presentation.Problem.{Request, handle_error}
use evenkeel.Presentation.Problem.Disclosed.{Discloses, handle_error-Discloses}
use evenkeel.Presentation.Correlation.{
  Headers, fits_shape, all_id_chars, is_id_char, request_correlation_id, response_start, cancelled,
  call,
}
use evenkeel.Presentation.Correlation.Echoed.{request_correlation_id-Fits}
use evenkeel.Presentation.Correlation.Paired.{
  begun, over, Labelled, IsLabel, Carries, call-Labelled,
}
use evenkeel.Presentation.Wallets.{post_movement}
use evenkeel.Presentation.Tools
use evenkeel.Presentation.Tools.{Told, told, Tool, Container, use_case}
use evenkeel.Presentation.Mcp.{Python, movement_tool}
use evenkeel.Presentation.Mcp.Scoped.{IsCounted, left_open, use_case_scopes}
use evenkeel.Presentation.Mcp.Same.{resolving, movement_tool_same}
use evenkeel.Sqla.Cursor.{encode_cursor, decode_cursor}
use evenkeel.Sqla.Cursor.Decoded.{decode_cursor-encode_cursor}
use evenkeel.Sqla.Paging.{sort_desc}
use evenkeel.Sqla.Paging.Sorted.{Desc}
use evenkeel.Sqla.Paging.Followed.{follow, follow-All}
use evenkeel.Tests.Interactor.{ports}

abbrev ascii : Logging.Unicode
ascii = record { casefold = λ c. c ∷ []; isalnum = λ c. leb 48 c }

abbrev record_of : Item
record_of = mapping (
    field (codes "user") (atom (codes "ann")) (
      field (codes "calls")
        (sequence (
          item (mapping (field (codes "Access-Token") (atom (codes "s3cret")) no_fields)) no_items))
        no_fields))

redact_sensitive-Clean_example :
    Clean ascii (redact_sensitive ascii record_of)
    × (redact_sensitive ascii (redact_sensitive ascii record_of) ≡ redact_sensitive ascii record_of)
redact_sensitive-Clean_example = redact_sensitive-Clean ascii record_of

abbrev request : Request
request = record { path = codes "/v1/wallets"; scope_id = some (codes "id-1"); context_id = none }

abbrev short_of_funds : Error
short_of_funds = domain (record {
  code = wallet_insufficient_funds;
  context = ("balance", text (codes "1.00")) ∷ ("value", text (codes "card")) ∷ [];
})

handle_error-Discloses_example :
    let response = handle_error {V = Text} short_of_funds request in
    ((400 ≤ response.status_code) × (response.status_code ≤ 503))
    × (response.content.status ≡ response.status_code)
    × (response.content.instance_path ≡ codes "/v1/wallets")
    × (response.correlation_header ≡ some (codes "id-1"))
    × (response.content.correlation_id ≡ some (codes "id-1"))
    × Discloses short_of_funds response.content.details
handle_error-Discloses_example = handle_error-Discloses Text short_of_funds request

abbrev inbound : Headers
inbound = (codes "X-Correlation-ID", codes "bad id") ∷ (codes "Host", codes "h") ∷ []

request_correlation_id-Fits_example :
    (fits_shape (request_correlation_id (codes "fresh") inbound) ≡ true)
    × (request_correlation_id
          (codes "fresh")
          (inbound ++ (codes "x-correlation-ID", codes "abc-1") ∷ [])
        ≡ codes "abc-1")
request_correlation_id-Fits_example =
    request_correlation_id-Fits (codes "fresh") inbound (codes "x-correlation-ID") (codes "abc-1")
      (unfold fits_shape all_id_chars is_id_char in refl) refl
      (unfold fits_shape all_id_chars is_id_char in refl)

call-Labelled_example :
    let (observed, sent) =
      call text_beq
        ((codes "/ready", codes "/ready") ∷ [])
        (codes "GET")
        (codes "/x")
        inbound
        (codes "fresh")
        (response_start 200 [] ∷ [])
        cancelled in
    (begun observed ≡ 1)
    × (over observed ≡ 1)
    × All (Labelled (IsLabel ((codes "/ready", codes "/ready") ∷ []))) observed
    × All Carries sent
call-Labelled_example =
    call-Labelled text_beq ((codes "/ready", codes "/ready") ∷ []) (codes "GET") (codes "/x")
      inbound (codes "fresh") (response_start 200 [] ∷ []) cancelled

-- The world counts the open scopes.
abbrev unresolved : Container ℕ (Unit {0})
unresolved = record {
  enter_scope = λ w. (ok tt, w + 1);
  get = λ w. (err short_of_funds, w);
  exit_scope = λ w. w - 1;
}

abbrev nothing_done : Unit {0} → Tool ℕ ℕ
nothing_done i w = (told 5, w)

unresolved-IsCounted : IsCounted unresolved nothing_done
unresolved-IsCounted = record {
  scopes = λ w. w;
  entered = λ w. refl;
  resolved = λ w. refl;
  run = λ i w. refl;
  exited = λ w. refl;
}

use_case_scopes_example :
    unresolved-IsCounted.scopes (use_case unresolved nothing_done 0).1
    ≡ unresolved-IsCounted.scopes 0 + left_open (unresolved.get (unresolved.enter_scope 0).1).0
use_case_scopes_example = use_case_scopes unresolved nothing_done unresolved-IsCounted 0 refl

abbrev letters : Unicode
letters = record {
  alphabetic = λ c. leb 65 c && leb c 122;
  uppercase = λ c. leb 65 c && leb c 90;
  lowercase = λ c. leb 97 c && leb c 122;
  titlecase = λ c. false;
}

abbrev ten : Number
ten = record { coefficient = pos 1000; exponent = negsuc 1 }

abbrev python : Python
python = record {
  decimal = λ s. some (finite ten);
  uuid = λ s. some 7;
  repr = λ s. s;
  upper = λ s. codes "EUR";
}

abbrev euro : CurrencyCode
euro = record { value = codes "EUR" }

movement_tool_same_example :
    movement_tool letters python 3
      (resolving letters python 3 (ports true allowed) default_move_settings credit)
      credit
      (codes "w")
      (codes "10.00")
      (codes "eur")
      []
      none
      []
    ≡ Tools.call
        (post_movement letters python.upper 3
          (move_money (ports true allowed) default_move_settings credit)
          7
          (record { amount = finite ten; currency = codes "eur"; description = [] })
          none)
        []
movement_tool_same_example =
    movement_tool_same letters python 3 (ports true allowed) default_move_settings credit
      (codes "10.00") (codes "eur") (codes "w") [] ten euro 7 none [] refl
      (unfold currency_code is_alpha is_upper_from in refl) refl

decode_cursor-encode_cursor_example : decode_cursor (some (encode_cursor 7)) ≡ ok (some 7)
decode_cursor-encode_cursor_example = decode_cursor-encode_cursor 7 (omega arith)

-- The rows are their ids, of which those of 9 are another's.
abbrev rows : List ℕ
rows = 4 ∷ 9 ∷ 2 ∷ 6 ∷ []

abbrev not_nine : ℕ → Bool
not_nine row = leb row 8

follow-All_example :
    (follow (λ i. i) not_nine (λ i. ok i) 2 5 none rows
      ≡ ok (map (λ i. i) (sort_desc (λ i. i) (filter not_nine rows))))
    × Desc (λ i. i) (sort_desc (λ i. i) (filter not_nine rows))
    × Permᴰ (sort_desc (λ i. i) (filter not_nine rows)) (filter not_nine rows)
follow-All_example =
    follow-All (λ i. i) not_nine (λ i. ok i) (λ i. i) rows 2 5
      (
        (λ e. ground (arith, e), (λ e. ground (arith, e), (λ e. ground (arith, e), tt))),
        (
          (λ e. ground (arith, e), (λ e. ground (arith, e), tt)),
          ((λ e. ground (arith, e), tt), (tt, tt)),
        ),
      )
      ((refl, omega arith), ((refl, omega arith), ((refl, omega arith), tt))) (omega arith)
      (omega arith)
