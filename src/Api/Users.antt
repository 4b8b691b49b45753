-- ===== src/Api/Users.antt =====
-- The routes of a user and of the configuration: listUsers, getUser, configURLShortener and
-- configContactEmail of api_routes.go, with toPublicUser of auth_routes.go.
use git_proxy_go.Base.{Option, none, some, [], ◌++◌, map, Str, Unicode, codes, to_lower}
use git_proxy_go.Model.{User}
use git_proxy_go.Db.Interface.{DbStore}
use git_proxy_go.Api.Context.{
  ApiRequest, ApiSettings, Reply, PublicUser, pass, ◌>>=◌, looked_up, present, message, answered,
  success, user_object, user_list, html,
}

-- derefString
unfoldable pub deref : Option Str → Str
deref none = []
deref (some s) = s

unfoldable pub to_public_user : User → PublicUser
unfolding deref
to_public_user u = record {
  username = u.username;
  display_name = deref u.display_name;
  email = u.email;
  title = deref u.title;
  git_account = u.git_account;
  admin = u.admin;
}

module _ (u : Unicode) (store : DbStore) (settings : ApiSettings) where
  unfoldable pub list_users : store.State → Reply
  unfolding to_public_user
  list_users d = answered do
    users ← looked_up (store.get_users d (record { username = none; email = none }))
    pass (user_list (map to_public_user users))

  unfoldable pub show_user : store.State → ApiRequest → Reply
  unfolding to_public_user
  show_user d r =
      let username = to_lower u.unicode_lower r.id_param in
      answered do
        found ← looked_up (store.find_user d username)
        user ← present (message 404 (codes "User " ++ (username ++ codes " not found"))) found
        pass (user_object (to_public_user user))

  unfoldable pub config_url_shortener : Reply
  unfolding deref
  config_url_shortener = success (html (deref settings.url_shortener))

  unfoldable pub config_contact_email : Reply
  unfolding deref
  config_contact_email = success (html (deref settings.contact_email))
