-- ===== src/Auth/Registry.antt =====
-- internal/auth/strategy.go, local.go and password.go: the registry of login methods, the local
-- strategy and the default accounts. bcrypt is a parameter.
use git_proxy_go.Base.{
  Bool, true, false, not, ◌&&◌, Option, none, some, List, [], ◌∷◌, ◌++◌, Str, Unicode, codes,
  if◌then◌else◌, str_eq, to_lower, Result, err, ok, ◌>>=◌,
}
use git_proxy_go.Model.{User}
use git_proxy_go.Db.Interface.{DbStore}
use git_proxy_go.Auth.Config.{Method}

-- golang.org/x/crypto/bcrypt, at the cost of the program.
pub record Bcrypt : Type 0 where
  pub hash_password : Str → Result Str
  pub check_password : Str → Str → Bool

-- `login` says whether a local method is enabled, and `oidc` whether the OIDC strategy is set.
pub record Registry : Type 0 where
  pub enabled_types : List Str
  pub login : Bool
  pub oidc : Bool

module _ (u : Unicode) where
  register : Registry → Method → Registry
  register r m =
      let t = to_lower u.unicode_lower m.kind in
      if not m.enabled then r else record r {
        enabled_types = r.enabled_types ++ t ∷ [];
        login = if not r.login && str_eq t (codes "local") then true else r.login;
      }

  register_all : Registry → List Method → Registry
  unfolding register
  register_all r [] = r
  register_all r (m ∷ methods) = register_all (register r m) methods

  unfoldable pub build_registry : List Method → Registry
  unfolding register_all
  build_registry methods =
      register_all (record { enabled_types = []; login = false; oidc = false }) methods

unfoldable pub enable_oidc : Registry → Registry
enable_oidc r = record r { oidc = true }

unfoldable pub login_type : Registry → Str
login_type r = if r.login then codes "local" else []

unfoldable pub types_but : Str → List Str → List Str
types_but login [] = []
types_but login (t ∷ types) =
    let rest = types_but login types in if str_eq t login then rest else t ∷ rest

unfoldable pub other_methods : Registry → List Str
unfolding login_type types_but
other_methods r = types_but (login_type r) r.enabled_types

module _ (b : Bcrypt) (store : DbStore) where
  unfoldable pub verified_by : Str → User → Option Str → Option User
  verified_by password user none = none
  verified_by password user (some hash) = if b.check_password hash password then some user else none

  -- The stored hash is that of the password.
  unfoldable pub verified : Str → Option User → Option User
  unfolding verified_by
  verified password none = none
  verified password (some user) = verified_by password user user.password

  unfoldable pub authenticate : store.State → Str → Str → Result (Option User)
  unfolding verified
  authenticate d username password = do
    found ← store.find_user d username
    ok (verified password found)

  abbrev default_users : List (Str × Str × Str × Bool)
  default_users =
      (codes "admin", codes "admin", codes "admin@place.com", true)
      ∷ (codes "user", codes "user", codes "user@place.com", false)
      ∷ []

  default_account : Str → Str → Str → Bool → User
  default_account username hash email admin = record {
    username = username;
    password = some hash;
    git_account = codes "none";
    email = email;
    admin = admin;
    oidc_id = none;
    display_name = none;
    title = none;
    public_keys = [];
  }

  -- One round of the loop.
  unfoldable pub create_default : store.State → Str × Str × Str × Bool → store.State × Option Str
  unfolding default_account
  create_default d (username, password, email, admin) = elim (store.find_user d username) [
    | err e ↦ (d, some e)
    | ok (some _) ↦ (d, none)
    | ok none ↦ elim (b.hash_password password) [
      | err e ↦ (d, some e)
      | ok hash ↦ store.create_user d (default_account username hash email admin)
    ]
  ]

  go_on :
      (store.State → store.State × Option Str) → store.State × Option Str → store.State × Option Str
  go_on next (d, some e) = (d, some e)
  go_on next (d, none) = next d

  unfoldable pub create_defaults :
      store.State → List (Str × Str × Str × Bool) → store.State × Option Str
  unfolding go_on create_default
  create_defaults d [] = (d, none)
  create_defaults d (a ∷ accounts) = go_on (λ d. create_defaults d accounts) (create_default d a)

  unfoldable pub create_default_admin : store.State → store.State × Option Str
  unfolding create_defaults
  create_default_admin d = create_defaults d default_users
