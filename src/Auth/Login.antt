-- ===== src/Auth/Login.antt =====
-- internal/proxy/http/auth_routes.go and csrf.go: the routes of /api/auth over the caller's session, and
-- the double-submit check. The session library (alexedwards/scs) is a parameter, and so is
-- the random state of an OIDC login.
pub mod Laws
pub mod Callback
use git_proxy_go.Base.{
  Bool, true, false, not, ◌&&◌, ◌||◌, Option, none, some, List, [], ◌∷◌, Str, Unicode, codes,
  is_empty, if◌then◌else◌, str_eq, Result, err, ok,
}
use git_proxy_go.Model.{User}
use git_proxy_go.Db.Interface.{DbStore}
use git_proxy_go.Api.Context.{
  Reply, message, failure, success, answered, Guarded, refuse, pass, ◌>>=◌, looked_up, present,
  logged_in_object, logged_out_object, login_methods, user_object, redirect,
}
use git_proxy_go.Api.Users.{to_public_user}
use git_proxy_go.Auth.Registry.{Registry, Bcrypt, login_type, other_methods, authenticate}
use git_proxy_go.Auth.Oidc.{Provider, exchange}

-- A request's session: its values by key, a new token, and its end.
pub record Sessions : Type 1 where
  pub Session : Type 0
  pub get_string : Session → Str → Str
  pub put : Session → Str → Str → Session
  pub remove : Session → Str → Session
  pub renew_token : Session → Session × Option Str
  pub destroy : Session → Session × Option Str

abbrev pub key_username : Str
key_username = codes "username"

abbrev pub key_oidc_state : Str
key_oidc_state = codes "oidc_state"

unfoldable pub auth_config : Registry → Reply
unfolding login_type other_methods
auth_config registry =
    let login = login_type registry in
    success (login_methods (if is_empty login then none else some login) (other_methods registry))

module _ (sessions : Sessions) where
  open sessions use {Session}

  -- RenewToken, then the user's name.
  unfoldable pub renewed : Str → Reply → Session × Option Str → Session × Reply
  renewed username reply (s, some e) = (s, failure 500 (codes "session error"))
  renewed username reply (s, none) = (sessions.put s key_username username, reply)

  unfoldable pub establish : Session → Result (Option User) → Session × Reply
  unfolding renewed
  establish s (err e) = (s, failure 500 (codes "authentication error"))
  establish s (ok none) = (s, message 401 (codes "Incorrect username or password."))
  establish s (ok (some user)) =
      renewed user.username (success (logged_in_object (to_public_user user)))
        (sessions.renew_token s)

  logged_out : Session × Option Str → Session × Reply
  logged_out (s, some e) = (s, failure 500 (codes "session error"))
  logged_out (s, none) = (s, success logged_out_object)

  unfoldable pub logout : Session → Session × Reply
  unfolding logged_out
  logout s = logged_out (sessions.destroy s)

  unfoldable pub oidc_start : Provider → Session → Result Str → Session × Reply
  oidc_start p s (err e) = (s, failure 500 (codes "internal error"))
  oidc_start p s (ok state) = (
    sessions.put s key_oidc_state state,
    record { status = 302; payload = redirect (p.auth_code_url state) },
  )

  -- The state that the browser brings back is that of the session.
  unfoldable pub state_matches : Session → Str → Bool
  state_matches s got =
      let want = sessions.get_string s key_oidc_state in
      not (is_empty want) && not (is_empty got) && str_eq want got

  module _ (store : DbStore) where
    unfoldable pub log_in : Bcrypt → store.State → Session → Option (Str × Str) → Session × Reply
    unfolding establish authenticate
    log_in b d s none = (s, failure 400 (codes "invalid request body"))
    log_in b d s (some (username, password)) =
        establish s (authenticate b store d username password)

    unfoldable pub login :
        Bcrypt → Registry → store.State → Session → Option (Str × Str) → Session × Reply
    unfolding log_in
    login b registry d s credentials = if registry.login then log_in b d s credentials else (
      s,
      failure 403 (codes "Username and Password based Login is not enabled at this time"),
    )

    unfoldable pub profile : store.State → Session → Reply
    profile d s =
        let username = sessions.get_string s key_username in
        if is_empty username
        then message 401 (codes "Not logged in")
        else answered do
          found ← looked_up (store.find_user d username)
          user ← present (message 404 (codes "User not found")) found
          pass (user_object (to_public_user user))

    unfoldable pub oidc_done :
        Str → Session → store.State × Result (Option User) → store.State × Session × Reply
    unfolding renewed
    oidc_done landing s (d, err e) = (d, s, failure 500 (codes "authentication error"))
    oidc_done landing s (d, ok none) = (d, s, failure 401 (codes "no user found"))
    oidc_done landing s (d, ok (some user)) = (
      d,
      (renewed user.username (record { status = 302; payload = redirect landing })
          (sessions.renew_token s)).0,
      (renewed user.username (record { status = 302; payload = redirect landing })
          (sessions.renew_token s)).1,
    )

    -- Behind the check of the state.
    unfoldable pub callback_code :
        Provider → Str → store.State → Session → Str → store.State × Session × Reply
    unfolding oidc_done exchange
    callback_code p landing d s code =
        if is_empty code
        then (d, s, failure 400 (codes "missing authorization code"))
        else oidc_done landing s (exchange store p d code)

    -- The session, the query's state and code, and the page of the UI.
    unfoldable pub oidc_callback :
        Provider → Str → store.State → Session → Str → Str → store.State × Session × Reply
    unfolding state_matches callback_code
    oidc_callback p landing d s got code =
        if state_matches s got
        then callback_code p landing d (sessions.remove s key_oidc_state) code
        else (d, s, failure 400 (codes "invalid OIDC state"))
