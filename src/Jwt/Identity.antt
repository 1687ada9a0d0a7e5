-- ===== src/Jwt/Identity.antt =====
-- `JwtIdentityProvider` of src/evenkeel/infrastructure/adapters/jwt/identity.py, from the caller's
-- key cache, and `DevIdentityProvider` of src/evenkeel/infrastructure/adapters/dev_identity.py. The
-- JWT library's reading of a header and its `decode` are given, `C` being the type of the claims'
-- values, and so is Python's `UUID`, as `parse`. Log lines are left out.
pub mod Admitted
use Prim.Native.String.{String}
use evenkeel.Prelude.{ℕ, Bool, true, false, not, Option, none, some, List, [], ◌∷◌, if◌then◌else◌}
use evenkeel.Prelude.Text.{Text, codes, text_beq}
use evenkeel.Domain.Errors.{
  Error, Result, application, ok, err, raise_application, label, unauthenticated_error,
  unauthenticated,
}
use evenkeel.Domain.Uuid.{uuid_text}
use evenkeel.Domain.Wallet.{OwnerId}

pub record JwtPolicy : Type 0 where
  pub issuer : Text
  pub audience : Text
  pub algorithms : List Text
  pub owner_claim : Text
  pub leeway : ℕ

-- What `jwt.decode` is asked: `verify_signature` is always set.
pub record DecodeOptions : Type 0 where
  pub algorithms : List Text
  pub issuer : Text
  pub audience : Text
  pub leeway : ℕ
  pub verify_signature : Bool
  pub required : List Text

unfoldable pub decode_options : JwtPolicy → DecodeOptions
decode_options policy = record {
  algorithms = policy.algorithms;
  issuer = policy.issuer;
  audience = policy.audience;
  leeway = policy.leeway;
  verify_signature = true;
  required = codes "exp" ∷ codes "iss" ∷ codes "aud" ∷ policy.owner_claim ∷ [];
}

-- The "kid" of a header: not there, a text, or something else.
pub data Kid : Type 0 where
  no_kid odd_kid : Kid
  kid_text : Text → Kid

-- The JWT library, as far as it is called, and `str` of a claim. A header or a token that is refused
-- is `none`: each of the exceptions that the source catches.
pub record Jwt (K C : Type 0) : Type 0 where
  pub get_unverified_header : Text → Option Kid
  pub decode : Text → K → DecodeOptions → Option (Text → Option C)
  pub str_of : Option C → Text

-- `_refused`
abbrev pub refusal : Error
refusal =
    application (record { kind = unauthenticated_error; code = unauthenticated; details = [] })

abbrev refused {ℓ} : {A : Type ℓ} → Result A
refused = err refusal

canonical : Text → ℕ → Result OwnerId
canonical s id = if not (text_beq (uuid_text id) s) then refused else ok id

parsed_owner : Text → Option ℕ → Result OwnerId
unfolding canonical
parsed_owner s none = refused
parsed_owner s (some id) = canonical s id

-- `_owner_id`, of the claim's text.
unfoldable pub owner_id : (Text → Option ℕ) → Text → Result OwnerId
unfolding parsed_owner
owner_id parse s = parsed_owner s (parse s)

module _ {K C R : Type 0} (jwt : Jwt K C) (parse : Text → Option ℕ)
    (get : Text → R → Result (Option K) × R) (policy : JwtPolicy) where
  -- From the claims on.
  principal : Option (Text → Option C) → Result OwnerId
  unfolding owner_id
  principal none = refused
  principal (some claims) = owner_id parse (jwt.str_of (claims policy.owner_claim))

  -- From the key on.
  with_key : Text → Result (Option K) → Result OwnerId
  unfolding principal
  with_key credential (err e) = err e
  with_key credential (ok none) = refused
  with_key credential (ok (some key)) =
      principal (jwt.decode credential key (decode_options policy))

  -- From the header on; a `kid` that is no text, or an empty one, is not looked up.
  with_header : Text → Option Kid → R → Result OwnerId × R
  unfolding with_key
  with_header credential none r = (refused, r)
  with_header credential (some no_kid) r = (refused, r)
  with_header credential (some odd_kid) r = (refused, r)
  with_header credential (some (kid_text [])) r = (refused, r)
  with_header credential (some (kid_text (c ∷ kid))) r =
      let (found, r') = get (c ∷ kid) r in (with_key credential found, r')

  -- `authenticate`
  unfoldable pub authenticate : Option Text → R → Result OwnerId × R
  unfolding with_header
  authenticate none r = (refused, r)
  authenticate (some []) r = (refused, r)
  authenticate (some (c ∷ credential)) r =
      with_header (c ∷ credential) (jwt.get_unverified_header (c ∷ credential)) r

-- `DevIdentityProvider.authenticate`
unfoldable pub authenticate_dev : (Text → Option ℕ) → Option Text → Result OwnerId
authenticate_dev parse none =
    raise_application unauthenticated_error unauthenticated
      (("authorization", label "missing credential") ∷ [])
authenticate_dev parse (some []) =
    raise_application unauthenticated_error unauthenticated
      (("authorization", label "missing credential") ∷ [])
authenticate_dev parse (some (c ∷ credential)) = elim (parse (c ∷ credential)) [
  | none ↦
      raise_application unauthenticated_error unauthenticated
        (("authorization", label "credential must be a UUID owner id") ∷ [])
  | some id ↦ ok id
]
