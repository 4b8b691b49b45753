-- ===== src/Tests/Auth.antt =====
-- What the theorems on logins and tokens say of a store with one user, a session of one key, and an
-- authority with one key.
use git_proxy_go.Base.{
  ◌≡◌, refl, sym, ◌∙◌, ap, ◌⊎◌, true, false, Option, none, some, List, [], ◌∷◌, Str, codes,
  is_empty, str_eq, str_eq_refl, if◌then◌else◌, ok, equal_fold, fields,
}
use git_proxy_go.Model.{User}
use git_proxy_go.Api.Context.{Claim, Principal, ApiRequest, pass}
use git_proxy_go.Auth.Config.{Method, JwtConfig}
use git_proxy_go.Auth.Registry.{Registry, Bcrypt}
use git_proxy_go.Auth.Jwk.{
  RsaKey, pos, negsuc, decoded, Network, rsa_public_key_from_jwk, decode_base64, big_endian,
  letter_values, bytes_of, fetch_jwks, put_key, find_key,
}
use git_proxy_go.Auth.Jwk.Exponent.{rsa_public_key_from_jwk_exponent}
use git_proxy_go.Auth.Jwt.{
  validate_jwt, azp_matches, find_claim, JwtLibrary, find_enabled_jwt, jwt_middleware, assign_roles,
  bearer_token,
}
use git_proxy_go.Auth.Jwt.Laws.{JwtLaws, IsVerified, jwt_middleware-IsVerified}
use git_proxy_go.Auth.Oidc.{Provider, exchange}
use git_proxy_go.Auth.Login.{Sessions, key_oidc_state, login, oidc_callback}
use git_proxy_go.Auth.Login.Laws.{SessionLaws, HasPassword, session_user, login_verified}
use git_proxy_go.Auth.Login.Callback.{oidc_callback_verified}
use git_proxy_go.Auth.Csrf.{is_safe_method}
use git_proxy_go.Tests.Api.{tables, db, store, bo_request}

-- A session is a function from keys to values.
abbrev test_sessions : Sessions
test_sessions = record {
  Session = Str → Str;
  get_string = λ s k. s k;
  put = λ s k v other. if str_eq k other then v else s other;
  remove = λ s k other. if str_eq k other then [] else s other;
  renew_token = λ s. (s, none);
  destroy = λ s. (λ k. [], none);
}

put_read : (s : Str → Str) (k v : Str) → (if str_eq k k then v else s k) ≡ v
put_read s k v = ap (λ b. if b then v else s k) (str_eq_refl k)

test_sessions-laws : SessionLaws test_sessions
test_sessions-laws = record {
  get_put = put_read;
  get_remove = λ s k other h. ap (λ b. if b then [] else s other) h;
  get_renew = λ s k. refl;
}

abbrev test_bcrypt : Bcrypt
test_bcrypt = record { hash_password = λ p. ok p; check_password = str_eq }

abbrev local : Registry
local = record { enabled_types = codes "local" ∷ []; login = true; oidc = true }

abbrev nobody : Str → Str
nobody k = if str_eq k (codes "oidc_state") then codes "s" else []

abbrev test_provider : Provider
test_provider = record {
  Token = Unit {0};
  exchange_code = λ code. ok tt;
  id_token = λ t. some (codes "id");
  verify = λ raw. none;
  user_info = λ t. ok (ok (record { sub = codes "x"; email = codes "cy@b.cc"; emails = [] }), []);
  auth_code_url = λ s. s;
}

post_unsafe : is_safe_method (codes "POST") ≡ false
unfolding is_safe_method str_eq
post_unsafe = refl

modulus_decodes : decode_base64 (codes "AQ") ≡ some (1 ∷ [])
unfolding decode_base64 letter_values bytes_of
modulus_decodes = refl

exponent_decodes : decode_base64 (codes "AQAB") ≡ some (1 ∷ 0 ∷ 1 ∷ [])
unfolding decode_base64 letter_values bytes_of
exponent_decodes = refl

exponent_example :
    rsa_public_key_from_jwk (codes "AQ") (codes "AQAB")
    ≡ decoded
        (record { modulus = big_endian 0 (1 ∷ []); exponent = pos (big_endian 0 (1 ∷ 0 ∷ 1 ∷ [])) })
unfolding big_endian
exponent_example =
    rsa_public_key_from_jwk_exponent (codes "AQ") (codes "AQAB") (1 ∷ []) (1 ∷ 0 ∷ 1 ∷ [])
      modulus_decodes exponent_decodes

-- Eight bytes of ones are -1.
negative_exponent :
    rsa_public_key_from_jwk (codes "AQ") (codes "__________8")
    ≡ decoded (record { modulus = 1; exponent = negsuc 0 })
unfolding rsa_public_key_from_jwk
negative_exponent = refl

abbrev al_credentials : Option (Str × Str)
al_credentials = some (codes "al", codes "pw")

login_verified_example :
    (session_user test_sessions test_sessions-laws
        (login test_sessions store test_bcrypt local db nobody (some (codes "al", codes "pw"))).0
      ≡ session_user test_sessions test_sessions-laws nobody)
    ⊎ ((true ≡ true)
        × ((username : Str) × (password : Str) × (user : User) × (al_credentials
              ≡ some (username, password))
            × HasPassword test_bcrypt store db username password user
            × (session_user test_sessions test_sessions-laws
                  (login test_sessions store test_bcrypt local db nobody
                    (some (codes "al", codes "pw"))).0
                ≡ user.username)))
login_verified_example =
    login_verified test_sessions test_sessions-laws store test_bcrypt local db nobody
      (some (codes "al", codes "pw"))

oidc_callback_verified_example :
    (session_user test_sessions test_sessions-laws
        (oidc_callback test_sessions store test_provider [] db nobody (codes "s") (codes "c")).1
      ≡ session_user test_sessions test_sessions-laws nobody)
    ⊎ ((is_empty (codes "s") ≡ false)
        × (nobody key_oidc_state ≡ codes "s")
        × ((user : User) × ((exchange store test_provider db (codes "c")).1 ≡ ok (some user))
            × (session_user test_sessions test_sessions-laws
                  (oidc_callback test_sessions store test_provider [] db nobody
                    (codes "s")
                    (codes "c")).1
                ≡ user.username)))
oidc_callback_verified_example =
    oidc_callback_verified test_sessions test_sessions-laws store test_provider [] db nobody
      (codes "s") (codes "c")

-- A library that takes a token for signed where it is the name of a key and a dot.
abbrev token_claims : List (Str × Claim)
token_claims = (codes "username", Claim.text (codes "bo")) ∷ []

abbrev parse_token : Option RsaKey → Option (List (Str × Claim))
parse_token none = none
parse_token (some key) = some token_claims

abbrev test_jwt : JwtLibrary
test_jwt = record {
  parse_with_claims = λ token keyfunc issuer audience. parse_token (keyfunc token);
}

parse_token-some :
    (o : Option RsaKey) (claims : List (Str × Claim))
    → parse_token o ≡ some claims
    → (key : RsaKey) × (o ≡ some key)
parse_token-some none claims h = cc
parse_token-some (some key) claims h = (key, refl)

-- A token is signed with a key for the library's claims.
test_jwt-laws : JwtLaws test_jwt
test_jwt-laws = record {
  IsSigned = λ token key claims issuer audience. parse_token (some key) ≡ some claims;
  parsed = λ token keyfunc issuer audience claims h.
      let (key, found) = parse_token-some (keyfunc token) claims h in
      (token, key, found, ap parse_token (sym found) ∙ h);
}

abbrev test_network : Network
test_network = record {
  get_openid_config = λ url. some (codes "keys");
  get_jwks = λ url.
      some (record { kid = codes "k"; kty = codes "RSA"; n = codes "AQ"; e = codes "AQAB" } ∷ []);
}

abbrev test_jwt_config : JwtConfig
test_jwt_config = record {
  authority_url = codes "https://a";
  client_id = codes "c";
  expected_audience = none;
  admin_mapping = none;
}

abbrev jwt_method : Method
jwt_method = record {
  kind = codes "jwt";
  enabled = true;
  jwt_config = some test_jwt_config;
  oidc_config = none;
}

abbrev token_request : ApiRequest
token_request = record bo_request {
  session_user = [];
  header = λ name. if str_eq name (codes "Authorization") then codes "Bearer k" else [];
}

abbrev bo_principal : Option Principal
bo_principal = some (record { claims = token_claims; admin_role = false })

method_found : find_enabled_jwt tables test_jwt test_network (jwt_method ∷ []) ≡ some jwt_method
unfolding find_enabled_jwt equal_fold str_eq
method_found = refl

token_passes :
    jwt_middleware tables test_jwt test_network (jwt_method ∷ []) token_request ≡ pass bo_principal
unfolding jwt_middleware find_enabled_jwt equal_fold str_eq validate_jwt fetch_jwks
    rsa_public_key_from_jwk put_key fields find_key azp_matches find_claim assign_roles
token_passes = refl

jwt_middleware-IsVerified_example :
    (is_empty (token_request.header (codes "Authorization")) ≡ false)
    × ((jc : JwtConfig) × (claims : List (Str × Claim)) × (some test_jwt_config ≡ some jc)
        × IsVerified tables test_jwt test_network test_jwt-laws jc
            (bearer_token tables test_jwt test_network
              (token_request.header (codes "Authorization")))
            claims
        × (bo_principal
            ≡ some (record { claims = claims; admin_role = assign_roles jc.admin_mapping claims })))
jwt_middleware-IsVerified_example =
    jwt_middleware-IsVerified tables test_jwt test_network test_jwt-laws (jwt_method ∷ [])
      token_request jwt_method bo_principal method_found refl token_passes
