-- ===== src/Auth/Config.antt =====
-- The authentication part of the configuration (internal/config/generated): its methods in order.
use git_proxy_go.Base.{Bool, Option, List, Str}

-- The values of the admin role mapping are kept as `fmt.Sprint` prints them.
pub record JwtConfig : Type 0 where
  pub authority_url : Str
  pub client_id : Str
  pub expected_audience : Option Str
  pub admin_mapping : Option (List (Str × Str))

pub record OidcConfig : Type 0 where
  pub issuer : Str
  pub client_id : Str
  pub client_secret : Str
  pub callback_url : Str
  pub scope : Str

pub record Method : Type 0 where
  pub kind : Str
  pub enabled : Bool
  pub jwt_config : Option JwtConfig
  pub oidc_config : Option OidcConfig

pub record AuthConfig : Type 0 where
  pub authentication : List Method
  pub api_authentication : List Method
