-- ===== src/Auth/Oidc.antt =====
-- internal/auth/oidc.go: the OpenID Connect login. The provider's endpoints and the check of the ID
-- token are parameters.
use git_proxy_go.Base.{
  false, not, ◌&&◌, Option, none, some, List, [], ◌∷◌, ◌++◌, Str, Unicode, codes, is_empty,
  if◌then◌else◌, equal_fold, before, fields, member, Result, err, ok,
}
use git_proxy_go.Model.{User}
use git_proxy_go.Db.Interface.{DbStore}
use git_proxy_go.Auth.Config.{Method, OidcConfig}

pub record UserInfo : Type 0 where
  pub sub : Str
  pub email : Str
  pub emails : List Str

-- golang.org/x/oauth2 and go-oidc: the token of a code with its `id_token`, the check of an ID token, the
-- claims of the user-info response and its subject.
pub record Provider : Type 1 where
  pub Token : Type 0
  pub exchange_code : Str → Result Token
  pub id_token : Token → Option Str
  pub verify : Str → Option Str
  pub user_info : Token → Result (Result UserInfo × Str)
  pub auth_code_url : Str → Str

unfoldable pub enabled_oidc_config : Unicode → List Method → Option OidcConfig
enabled_oidc_config u [] = none
enabled_oidc_config u (m ∷ methods) =
    if m.enabled && equal_fold u m.kind (codes "openidconnect")
    then m.oidc_config
    else enabled_oidc_config u methods

unfoldable pub safely_extract_email : UserInfo → Str
safely_extract_email info =
    if not (is_empty info.email) then info.email else elim info.emails [ [] ↦ [] | e ∷ _ ↦ e ]

unfoldable pub get_username : Str → Str
get_username email = if is_empty email then [] else before b'@' email

unfoldable pub parse_scopes : Str → List Str
parse_scopes scope =
    let scopes = fields scope in
    if member scopes (codes "openid") then scopes else codes "openid" ∷ scopes

-- The account of a first login.
unfoldable pub new_account : Str → Str → User
unfolding get_username
new_account sub email = record {
  username = get_username email;
  password = none;
  git_account = codes "Edit me";
  email = email;
  admin = false;
  oidc_id = some sub;
  display_name = none;
  title = none;
  public_keys = [];
}

module _ (store : DbStore) where
  unfoldable pub created_account :
      User → store.State × Option Str → store.State × Result (Option User)
  created_account user (d, some e) = (d, err e)
  created_account user (d, none) = (d, ok (some user))

  unfoldable pub provision_found :
      store.State → UserInfo → Result (Option User) → store.State × Result (Option User)
  unfolding created_account safely_extract_email new_account
  provision_found d info (err e) = (d, err e)
  provision_found d info (ok (some user)) = (d, ok (some user))
  provision_found d info (ok none) =
      let email = safely_extract_email info in
      if is_empty email
      then (d, err (codes "oidc: no email found in OIDC profile"))
      else created_account (new_account info.sub email)
          (store.create_user d (new_account info.sub email))

  unfoldable pub provision : store.State → UserInfo → store.State × Result (Option User)
  unfolding provision_found
  provision d info = provision_found d info (store.find_user_by_oidc d info.sub)

  module _ (p : Provider) where
    unfoldable pub provision_info :
        store.State → Result (Result UserInfo × Str) → store.State × Result (Option User)
    unfolding provision
    provision_info d (err e) = (d, err (codes "oidc: userinfo request failed: " ++ e))
    provision_info d (ok (err e, subject)) =
        (d, err (codes "oidc: decoding userinfo claims: " ++ e))
    provision_info d (ok (ok info, subject)) =
        provision d (if is_empty info.sub then record info { sub = subject } else info)

    unfoldable pub exchange_token :
        store.State → Result p.Token → store.State × Result (Option User)
    unfolding provision_info
    exchange_token d (err e) = (d, err (codes "oidc: token exchange failed: " ++ e))
    exchange_token d (ok token) = elim (p.id_token token) [
      | none ↦ (d, err (codes "oidc: no id_token in token response"))
      | some [] ↦ (d, err (codes "oidc: no id_token in token response"))
      | some (c ∷ raw) ↦ elim (p.verify (c ∷ raw)) [
        | some e ↦ (d, err (codes "oidc: id_token verification failed: " ++ e))
        | none ↦ provision_info d (p.user_info token)
      ]
    ]

    unfoldable pub exchange : store.State → Str → store.State × Result (Option User)
    unfolding exchange_token
    exchange d code = exchange_token d (p.exchange_code code)
