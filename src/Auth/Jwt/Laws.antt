-- ===== src/Auth/Jwt/Laws.antt =====
-- What a bearer token has shown where the middleware lets a request through.
use git_proxy_go.Base.{
  ◌≡◌, refl, sym, ap, ◌∙◌, inl, inr, true, false, not, Option, none, some, List, [], ◌∷◌, Str,
  Unicode, codes, is_empty, if◌then◌else◌, Bool-cases,
}
use git_proxy_go.Api.Context.{Claim, Principal, ApiRequest, refuse, pass, failure}
use git_proxy_go.Api.Review.Laws.{refuse_not_pass, if_refused}
use git_proxy_go.Api.Review.Permitted.{pass-injective}
use git_proxy_go.Auth.Config.{Method, JwtConfig}
use git_proxy_go.Auth.Jwk.{
  RsaKey, Decoded, decoded, invalid, panicked, Network, fetch_jwks, find_key,
}
use git_proxy_go.Auth.Jwt.{
  JwtLibrary, find_claim, key_of, azp_matches, assign_roles, checked_azp, validate_jwt,
  validate_with, find_enabled_jwt, bearer_token, expected_audience, incomplete, principal_of,
  check_token, authenticated, jwt_middleware,
}

-- What golang-jwt documents: a token that parses is signed with the key that the key function gives, and
-- its issuer and audience are those asked for.
pub record JwtLaws (lib : JwtLibrary) : Type 1 where
  -- The token has been signed with the key for the claims, the issuer and the audience.
  pub IsSigned : Str → RsaKey → List (Str × Claim) → Str → Str → Type 0
  pub parsed :
      (token : Str) (keyfunc : Str → Option RsaKey) (issuer audience : Str)
      (claims : List (Str × Claim))
      → lib.parse_with_claims token keyfunc issuer audience ≡ some claims
      → (kid : Str) × (key : RsaKey) × (keyfunc kid ≡ some key)
        × IsSigned token key claims issuer audience

some-injective {ℓ} : {A : Type ℓ} {a b : A} → Option.some a ≡ some b → a ≡ b
some-injective h = cc

decoded-injective {ℓ} : {A : Type ℓ} {a b : A} → Decoded.decoded a ≡ decoded b → a ≡ b
decoded-injective h = cc

invalid_not_decoded {ℓ} : {A : Type ℓ} {a : A} → ¬ (Decoded.invalid ≡ decoded a)
invalid_not_decoded h = cc

panicked_not_decoded {ℓ} : {A : Type ℓ} {a : A} → ¬ (Decoded.panicked ≡ decoded a)
panicked_not_decoded h = cc

key_of_found :
    (keys : List (Str × RsaKey)) (kid : Str) {key : RsaKey}
    → key_of keys kid ≡ some key
    → (is_empty kid ≡ false) × (find_key kid keys ≡ some key)
unfolding key_of
key_of_found keys [] h = cc
key_of_found keys (c ∷ kid) h = (refl, h)

checked_azp-decoded :
    (client_id : Str) (parsed : Option (List (Str × Claim))) {claims : List (Str × Claim)}
    → checked_azp client_id parsed ≡ decoded claims
    → (parsed ≡ some claims) × (azp_matches (find_claim (codes "azp") claims) client_id ≡ true)
unfolding checked_azp
checked_azp-decoded client_id none h = cc
checked_azp-decoded client_id (some claims) h =
    elim (Bool-cases (azp_matches (find_claim (codes "azp") claims) client_id)) [
      | inr other ↦
          absurd
            (invalid_not_decoded (sym (ap (λ b. if b then decoded claims else invalid) other) ∙ h))
      | inl same ↦
          let e =
            decoded-injective (sym (ap (λ b. if b then decoded claims else invalid) same) ∙ h) in
          (ap some e, ap (λ c. azp_matches (find_claim (codes "azp") c) client_id) (sym e) ∙ same)
    ]

module _ (u : Unicode) (lib : JwtLibrary) (net : Network) (laws : JwtLaws lib) where
  open laws use {IsSigned}

  -- The token is signed with a key that the authority publishes under a kid that is not "", for the
  -- authority and the audience, and its authorized party is absent, "" or the client.
  abbrev pub IsVerified : JwtConfig → Str → List (Str × Claim) → Type 0
  IsVerified jc token claims =
      ((keys : List (Str × RsaKey)) × (kid : Str) × (key : RsaKey) × (fetch_jwks net
            jc.authority_url
          ≡ decoded keys)
        × (is_empty kid ≡ false)
        × (find_key kid keys ≡ some key)
        × IsSigned token key claims jc.authority_url (expected_audience u lib net jc))
      × (azp_matches (find_claim (codes "azp") claims) jc.client_id ≡ true)

  validate_with-IsVerified :
      (jc : JwtConfig) (token : Str) (claims : List (Str × Claim))
      (fetched : Decoded (List (Str × RsaKey)))
      → fetch_jwks net jc.authority_url ≡ fetched
      → validate_with u lib net fetched token jc.authority_url
          (expected_audience u lib net jc)
          jc.client_id
        ≡ decoded claims
      → IsVerified jc token claims
  unfolding validate_with
  validate_with-IsVerified jc token claims invalid f h = absurd (invalid_not_decoded h)
  validate_with-IsVerified jc token claims panicked f h = absurd (panicked_not_decoded h)
  validate_with-IsVerified jc token claims (decoded keys) f h =
      let (parsed, azp) = checked_azp-decoded jc.client_id _ h in
      let (kid, key, found, signed) = laws.parsed token (key_of keys) _ _ claims parsed in
      let (named, stored) = key_of_found keys kid found in
      ((keys, kid, key, f, named, stored, signed), azp)

  principal_of-pass :
      (jc : JwtConfig) (d : Decoded (List (Str × Claim))) {p : Option Principal}
      → principal_of u lib net jc d ≡ pass p
      → (claims : List (Str × Claim)) × (d ≡ decoded claims)
        × (p ≡ some (record { claims = claims; admin_role = assign_roles jc.admin_mapping claims }))
  unfolding principal_of
  principal_of-pass jc (decoded claims) h = (claims, refl, sym (pass-injective h))
  principal_of-pass jc invalid h = absurd (refuse_not_pass h)
  principal_of-pass jc panicked h = absurd (refuse_not_pass h)

  check_token-pass :
      (configured : Option JwtConfig) (authz : Str) {p : Option Principal}
      → check_token u lib net configured authz ≡ pass p
      → (jc : JwtConfig) × (claims : List (Str × Claim)) × (configured ≡ some jc)
        × IsVerified jc (bearer_token u lib net authz) claims
        × (p ≡ some (record { claims = claims; admin_role = assign_roles jc.admin_mapping claims }))
  unfolding check_token validate_jwt
  check_token-pass none authz h = absurd (refuse_not_pass h)
  check_token-pass (some jc) authz h =
      let (_, h) = if_refused (incomplete u lib net jc) _ _ h in
      let (claims, d, e) = principal_of-pass jc _ h in
      (jc, claims, refl, validate_with-IsVerified jc _ claims _ refl d, e)

  -- Where the middleware hands on a request of no session while a JWT method is enabled, the request
  -- has an Authorization header with a token that is signed with a key of the configured authority,
  -- for that authority, the expected audience and the client, and the principal on the request has the
  -- token's claims and the admin role that they are mapped to.
  pub jwt_middleware-IsVerified :
      (methods : List Method) (r : ApiRequest) (m : Method) (p : Option Principal)
      → find_enabled_jwt u lib net methods ≡ some m
      → is_empty r.session_user ≡ true
      → jwt_middleware u lib net methods r ≡ pass p
      → (is_empty (r.header (codes "Authorization")) ≡ false)
        × ((jc : JwtConfig) × (claims : List (Str × Claim)) × (m.jwt_config ≡ some jc)
            × IsVerified jc (bearer_token u lib net (r.header (codes "Authorization"))) claims
            × (p
                ≡ some (record {
                  claims = claims;
                  admin_role = assign_roles jc.admin_mapping claims;
                })))
  unfolding jwt_middleware authenticated
  jwt_middleware-IsVerified methods r m p found nobody h =
      let h = sym (ap (λ m. authenticated u lib net m r) found) ∙ h in
      let h =
        sym (
          ap
            (λ b.
              if not b
              then pass none
              else (if is_empty (r.header (codes "Authorization"))
                  then refuse (failure 401 (codes "No token provided"))
                  else check_token u lib net m.jwt_config (r.header (codes "Authorization"))))
            nobody)
        ∙ h in
      let (given, h) = if_refused (is_empty (r.header (codes "Authorization"))) _ _ h in
      (given, check_token-pass m.jwt_config _ h)
