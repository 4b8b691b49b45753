-- ===== src/Auth/Jwt.antt =====
-- internal/auth/jwt.go and jwt_middleware.go: the bearer tokens of the management API. The JWT library
-- is a parameter.
pub mod Laws
use git_proxy_go.Base.{
  ◌≡◌, Bool, true, false, not, ◌&&◌, ◌||◌, Option, none, some, List, [], ◌∷◌, Str, Unicode, codes,
  is_empty, if◌then◌else◌, str_eq, equal_fold, fields, any,
}
use git_proxy_go.Api.Context.{Claim, Principal, ApiRequest, Reply, Guarded, refuse, pass, failure}
use git_proxy_go.Auth.Config.{Method, JwtConfig}
use git_proxy_go.Auth.Jwk.{
  RsaKey, Decoded, decoded, invalid, panicked, Network, fetch_jwks, find_key,
}

-- `jwt.ParseWithClaims(token, claims, keyfunc, RS256, issuer, audience)`: the key function is given the
-- header's kid, "" where it is no string.
pub record JwtLibrary : Type 0 where
  pub parse_with_claims : Str → (Str → Option RsaKey) → Str → Str → Option (List (Str × Claim))

unfoldable pub find_claim : Str → List (Str × Claim) → Option Claim
find_claim name [] = none
find_claim name ((n, c) ∷ claims) = if str_eq n name then some c else find_claim name claims

-- The key function.
unfoldable pub key_of : List (Str × RsaKey) → Str → Option RsaKey
key_of keys [] = none
key_of keys (c ∷ kid) = find_key (c ∷ kid) keys

-- The authorized party, where the claim is a string that is not "".
unfoldable pub azp_matches : Option Claim → Str → Bool
azp_matches (some (Claim.text azp)) client_id = is_empty azp || str_eq azp client_id
azp_matches _ client_id = true

-- `fmt.Sprint` of a claim.
unfoldable pub sprint : Claim → Str
sprint (Claim.text s) = s
sprint (Claim.other printed) = printed

claim_is : Str → Option Claim → Bool
claim_is want none = false
claim_is want (some got) = str_eq (sprint got) want

-- AssignRoles, for the admin role.
unfoldable pub assign_roles : Option (List (Str × Str)) → List (Str × Claim) → Bool
unfolding claim_is
assign_roles none claims = false
assign_roles (some mapping) claims = any (λ m. claim_is m.1 (find_claim m.0 claims)) mapping

unfoldable pub checked_azp : Str → Option (List (Str × Claim)) → Decoded (List (Str × Claim))
checked_azp client_id none = invalid
checked_azp client_id (some claims) =
    if azp_matches (find_claim (codes "azp") claims) client_id then decoded claims else invalid

module _ (u : Unicode) (lib : JwtLibrary) (net : Network) where
  unfoldable pub validate_with :
      Decoded (List (Str × RsaKey)) → Str → Str → Str → Str → Decoded (List (Str × Claim))
  unfolding checked_azp key_of
  validate_with invalid token authority audience client_id = invalid
  validate_with panicked token authority audience client_id = panicked
  validate_with (decoded keys) token authority audience client_id =
      checked_azp client_id (lib.parse_with_claims token (key_of keys) authority audience)

  unfoldable pub validate_jwt : Str → Str → Str → Str → Decoded (List (Str × Claim))
  unfolding validate_with
  validate_jwt token authority audience client_id =
      validate_with (fetch_jwks net authority) token authority audience client_id

  unfoldable pub find_enabled_jwt : List Method → Option Method
  find_enabled_jwt [] = none
  find_enabled_jwt (m ∷ methods) =
      if m.enabled && equal_fold u m.kind (codes "jwt") then some m else find_enabled_jwt methods

  unfoldable pub bearer_token : Str → Str
  bearer_token authz = elim (fields authz) [ scheme ∷ token ∷ [] ↦ token | _ ↦ authz ]

  unfoldable pub expected_audience : JwtConfig → Str
  expected_audience jc = elim jc.expected_audience [ some (c ∷ s) ↦ c ∷ s | _ ↦ jc.client_id ]

  unfoldable pub incomplete : JwtConfig → Bool
  incomplete jc = is_empty jc.authority_url || is_empty jc.client_id

  -- The claims, or the answer; the server turns a panic into a dropped connection, here an answer of
  -- status 0.
  unfoldable pub principal_of :
      JwtConfig → Decoded (List (Str × Claim)) → Guarded (Option Principal)
  principal_of jc (decoded claims) =
      pass (some (record { claims = claims; admin_role = assign_roles jc.admin_mapping claims }))
  principal_of jc invalid = refuse (failure 401 (codes "JWT validation failed"))
  principal_of jc panicked = refuse (failure 0 [])

  unfoldable pub check_token : Option JwtConfig → Str → Guarded (Option Principal)
  unfolding bearer_token expected_audience incomplete principal_of
  check_token none authz = refuse (failure 500 (codes "JWT configuration is incomplete"))
  check_token (some jc) authz =
      if incomplete jc
      then refuse (failure 500 (codes "JWT configuration is incomplete"))
      else principal_of jc
          (validate_jwt (bearer_token authz) jc.authority_url (expected_audience jc) jc.client_id)

  -- What the middleware hands on: the principal that it adds to the request's context, if any.
  unfoldable pub authenticated : Option Method → ApiRequest → Guarded (Option Principal)
  unfolding check_token
  authenticated none r = pass none
  authenticated (some m) r =
      if not (is_empty r.session_user)
      then pass none
      else if is_empty (r.header (codes "Authorization"))
      then refuse (failure 401 (codes "No token provided"))
      else check_token m.jwt_config (r.header (codes "Authorization"))

  unfoldable pub jwt_middleware : List Method → ApiRequest → Guarded (Option Principal)
  unfolding authenticated
  jwt_middleware methods r = authenticated (find_enabled_jwt methods) r
