-- ===== src/Db/Users.antt =====
-- The users table (CreateUser, FindUser and its variants, GetUsers, DeleteUser, UpdateUser).
use git_proxy_go.Base.{
  Bool, false, ◌&&◌, ◌||◌, not, Option, none, some, List, [], ◌∷◌, ◌++◌, map, Str, codes,
  if◌then◌else◌, str_eq, str_leb, any, to_lower,
}
use git_proxy_go.Model.{User}
use git_proxy_go.Chain.Context.{UserQuery}
use git_proxy_go.Db.Tables.{Database, find, where_rows, update_where, delete_where, order_by}
use git_proxy_go.Db.Pushes.{text_matches}

-- COALESCE(?, column)
abbrev pub coalesce : Option Str → Option Str → Option Str
coalesce none old = old
coalesce (some v) old = some v

abbrev option_eq : Option Str → Str → Bool
option_eq none s = false
option_eq (some t) s = str_eq t s

stripped : User → User
stripped u = record u { password = none }

-- The partial UNIQUE index on oidc_id, which leaves NULL and "" out.
unfoldable pub oidc_taken : Option Str → List User → Bool
oidc_taken none users = false
oidc_taken (some []) users = false
oidc_taken (some (c ∷ s)) users = any (λ u. option_eq u.oidc_id (c ∷ s)) users

unfoldable pub find_user_by_ssh_key : Database → Str → Option User
find_user_by_ssh_key d key = find (λ u. any (λ k. str_eq k.key key) u.public_keys) d.users

unfoldable pub find_user_by_oidc : Database → Str → Option User
find_user_by_oidc d oidc_id = find (λ u. option_eq u.oidc_id oidc_id) d.users

module _ (unicode_lower : Str → Str) where
  lower : Str → Str
  lower s = to_lower unicode_lower s

  unfoldable pub user_row : User → User
  unfolding lower
  user_row u = record u { username = lower u.username; email = lower u.email }

  unfoldable pub create_user : Database → User → Database × Option Str
  unfolding user_row
  create_user d u =
      let row = user_row u in
      if any (λ x. str_eq x.username row.username) d.users
      then (d, some (codes "UNIQUE constraint failed: users.username"))
      else if any (λ x. str_eq x.email row.email) d.users
      then (d, some (codes "UNIQUE constraint failed: users.email"))
      else if oidc_taken row.oidc_id d.users
      then (d, some (codes "UNIQUE constraint failed: users.oidc_id"))
      else (record d { users = d.users ++ row ∷ [] }, none)

  unfoldable pub find_user : Database → Str → Option User
  unfolding lower
  find_user d username = find (λ u. str_eq u.username (lower username)) d.users

  unfoldable pub find_user_by_email : Database → Str → Option User
  unfolding lower
  find_user_by_email d email = find (λ u. str_eq u.email (lower email)) d.users

  lowered : Option Str → Option Str
  lowered none = none
  lowered (some s) = some (lower s)

  -- ORDER BY username; passwords are stripped.
  unfoldable pub get_users : Database → UserQuery → List User
  unfolding lower lowered stripped
  get_users d q = map stripped (
      order_by (λ a b. str_leb a.username b.username)
        (where_rows
          (λ u.
            text_matches (lowered q.username) u.username && text_matches (lowered q.email) u.email)
          d.users))

  unfoldable pub delete_user : Database → Str → Database
  unfolding lower
  delete_user d username = record d {
    users = delete_where (λ u. str_eq u.username (lower username)) d.users;
  }

  updated : User → User → User
  updated u row = record row {
    password = coalesce u.password row.password;
    git_account = u.git_account;
    email = lower u.email;
    admin = u.admin;
    oidc_id = coalesce u.oidc_id row.oidc_id;
    display_name = coalesce u.display_name row.display_name;
    title = coalesce u.title row.title;
  }

  -- The other rows that would break a UNIQUE index.
  update_clash : User → List User → Bool
  update_clash u users =
      any (λ x. not (str_eq x.username (lower u.username)) && str_eq x.email (lower u.email)) users
      || oidc_taken u.oidc_id (where_rows (λ x. not (str_eq x.username (lower u.username))) users)

  unfoldable pub update_user : Database → User → Database × Option Str
  unfolding lower updated update_clash
  update_user d u = elim (find_user d u.username) [
    | none ↦ (d, some (codes "user " ++ (u.username ++ codes " not found")))
    | some _ ↦ if update_clash u d.users then (d, some (codes "UNIQUE constraint failed")) else (
      record d {
        users = update_where (λ x. str_eq x.username (lower u.username)) (updated u) d.users;
      },
      none,
    )
  ]
