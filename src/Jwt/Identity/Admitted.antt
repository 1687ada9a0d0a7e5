-- ===== src/Jwt/Identity/Admitted.antt =====
-- Whom the provider of src/evenkeel/infrastructure/adapters/jwt/identity.py lets in.
use evenkeel.Prelude.{
  ℕ, ◌^◌, ◌<◌, ◌≡◌, ◌⊎◌, ◌↔◌, refl, ap, ◌∙◌, inl, inr, true, not, Option, none, some, [], ◌∷◌,
  arith, if_holds,
}
use mathlib.Core.Path.{subst}
use evenkeel.Prelude.Text.{Text, codes, text_beq, text_beq_iff}
use evenkeel.Domain.Errors.{Result, ok, err}
use evenkeel.Domain.Uuid.{uuid_text}
use evenkeel.Domain.Wallet.{OwnerId}
use evenkeel.Jwt.Identity.{
  JwtPolicy, Jwt, Kid, no_kid, odd_kid, kid_text, decode_options, refusal, canonical, parsed_owner,
  owner_id, principal, with_key, with_header, authenticate,
}

-- An owner prints as the text; nothing else than a refusal is raised.
abbrev pub Prints : Text → Result OwnerId → Type 0
Prints s (ok n) = s ≡ uuid_text n
Prints s (err e) = e ≡ refusal

parsed_owner-Prints : (s : Text) (found : Option ℕ) → Prints s (parsed_owner s found)
unfolding parsed_owner canonical
parsed_owner-Prints s none = refl
parsed_owner-Prints s (some id) =
    if_holds (Prints s) (not (text_beq (uuid_text id) s)) (λ _. refl)
      (λ same. ground (arith, text_beq_iff (uuid_text id) s, same))

owner_id-Prints : (parse : Text → Option ℕ) (s : Text) → Prints s (owner_id parse s)
unfolding owner_id
owner_id-Prints parse s = parsed_owner-Prints s (parse s)

owner_id-printed :
    (parse : Text → Option ℕ) (n : ℕ)
    → parse (uuid_text n) ≡ some n
    → owner_id parse (uuid_text n) ≡ ok n
unfolding owner_id parsed_owner canonical
owner_id-printed parse n reads =
    let same : text_beq (uuid_text n) (uuid_text n) ≡ true =
      (text_beq_iff (uuid_text n) (uuid_text n)).1 refl in
    rw (reads, same) refl

-- Where the parser reads what a UUID prints as that UUID, a claim's text is an owner exactly if it
-- is what that owner's UUID prints: so no two texts are one owner, whatever else the parser reads.
pub owner_id_iff :
    (parse : Text → Option ℕ) (s : Text) (n : ℕ)
    → ((m : ℕ) → m < 2 ^ 128 → parse (uuid_text m) ≡ some m)
    → n < 2 ^ 128
    → (owner_id parse s ≡ ok n) ↔ (s ≡ uuid_text n)
owner_id_iff parse s n reads small = (
  λ h. subst (Prints s) h (owner_id-Prints parse s),
  λ e. ap (owner_id parse) e ∙ owner_id-printed parse n (reads n small),
)

module _ {K C R : Type 0} (jwt : Jwt K C) (parse : Text → Option ℕ)
    (get : Text → R → Result (Option K) × R) (policy : JwtPolicy) where
  -- Claims of which the owner's is its UUID printed.
  abbrev Owned : Option (Text → Option C) → Result OwnerId → Type 0
  Owned found (ok n) =
      (claims : Text → Option C) × (found ≡ some claims)
      × (jwt.str_of (claims policy.owner_claim) ≡ uuid_text n)
  Owned found (err e) = e ≡ refusal

  Owned-by :
      (claims : Text → Option C) (a : Result OwnerId)
      → Prints (jwt.str_of (claims policy.owner_claim)) a
      → Owned (some claims) a
  Owned-by claims (ok n) printed = (claims, refl, printed)
  Owned-by claims (err e) same = same

  principal-Owned :
      (found : Option (Text → Option C)) → Owned found (principal jwt parse get policy found)
  unfolding principal
  principal-Owned none = refl
  principal-Owned (some claims) =
      Owned-by claims _ (owner_id-Prints parse (jwt.str_of (claims policy.owner_claim)))

  -- What a token that was let in had, and why another was not.
  abbrev pub Admits : Text → R → Result OwnerId → Type 0
  Admits credential r (ok n) =
      (kid : Text) × (key : K) × (claims : Text → Option C) × (jwt.get_unverified_header credential
        ≡ some (kid_text kid))
      × ((get kid r).0 ≡ ok (some key))
      × (jwt.decode credential key (record {
        algorithms = policy.algorithms;
        issuer = policy.issuer;
        audience = policy.audience;
        leeway = policy.leeway;
        verify_signature = true;
        required = codes "exp" ∷ codes "iss" ∷ codes "aud" ∷ policy.owner_claim ∷ [];
      })
          ≡ some claims)
      × (jwt.str_of (claims policy.owner_claim) ≡ uuid_text n)
  Admits credential r (err e) = (e ≡ refusal) ⊎ ((kid : Text) × ((get kid r).0 ≡ err e))

  Owned-Admits :
      (credential kid : Text) (key : K) (r : R) (a : Result OwnerId)
      → jwt.get_unverified_header credential ≡ some (kid_text kid)
      → (get kid r).0 ≡ ok (some key)
      → Owned (jwt.decode credential key (decode_options policy)) a
      → Admits credential r a
  unfolding decode_options
  Owned-Admits credential kid key r (ok n) header found (claims, decoded, printed) =
      (kid, key, claims, header, found, decoded, printed)
  Owned-Admits credential kid key r (err e) header found same = inl same

  with_key-Admits :
      (credential kid : Text) (r : R) (found : Result (Option K))
      → jwt.get_unverified_header credential ≡ some (kid_text kid)
      → (get kid r).0 ≡ found
      → Admits credential r (with_key jwt parse get policy credential found)
  unfolding with_key
  with_key-Admits credential kid r (err e) header there = inr (kid, there)
  with_key-Admits credential kid r (ok none) header there = inl refl
  with_key-Admits credential kid r (ok (some key)) header there =
      Owned-Admits credential kid key r _ header there
        (principal-Owned (jwt.decode credential key (decode_options policy)))

  with_header-Admits :
      (credential : Text) (r : R) (header : Option Kid)
      → jwt.get_unverified_header credential ≡ header
      → Admits credential r (with_header jwt parse get policy credential header r).0
  unfolding with_header
  with_header-Admits credential r none h = inl refl
  with_header-Admits credential r (some no_kid) h = inl refl
  with_header-Admits credential r (some odd_kid) h = inl refl
  with_header-Admits credential r (some (kid_text [])) h = inl refl
  with_header-Admits credential r (some (kid_text (c ∷ kid))) h =
      with_key-Admits credential (c ∷ kid) r (get (c ∷ kid) r).0 h refl

  -- A credential is let in as an owner only if its header names a key id that the key cache has a
  -- key for, the token decodes under that key with its signature verified, by the policy's algorithms,
  -- issuer, audience and leeway and with "exp", "iss", "aud" and the owner claim required, and the
  -- owner claim is that owner's UUID as it prints. Whatever else is
  -- refused as unauthenticated, but for what the key cache itself raises.
  pub authenticate-Admits :
      (credential : Text) (r : R)
      → Admits credential r (authenticate jwt parse get policy (some credential) r).0
  unfolding authenticate
  authenticate-Admits [] r = inl refl
  authenticate-Admits (c ∷ credential) r =
      with_header-Admits (c ∷ credential) r (jwt.get_unverified_header (c ∷ credential)) refl
