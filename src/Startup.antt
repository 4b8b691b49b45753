-- ===== src/Startup.antt =====
-- cmd/git-proxy/main.go: what the program does to its store before it listens, the hosts that the
-- git proxy serves, and the values that it reads from its environment.
pub mod Hosts
use git_proxy_go.Base.{
  ◌≡◌, Bool, true, false, not, ◌||◌, Option, none, some, List, [], ◌∷◌, ◌++◌, Str, Unicode, codes,
  is_empty, if◌then◌else◌, str_eq, has_prefix, member, split, trim_space, Result, err, ok, ◌>>=◌,
  map,
}
use git_proxy_go.Model.{Repo}
use git_proxy_go.GitUrl.{GitUrlBreakdown, process_git_url}
use git_proxy_go.Db.Interface.{DbStore}
use git_proxy_go.Db.Repos.{RepoQuery}
use git_proxy_go.Auth.Config.{Method}
use git_proxy_go.Auth.Registry.{Bcrypt, Registry, build_registry, create_default_admin}
use git_proxy_go.Settings.Load.{AppConfig}

pub record AuthorisedRepo : Type 0 where
  pub project : Str
  pub name : Str
  pub url : Str

abbrev pub every_repo : RepoQuery
every_repo = record { name = none; project = none; url = none }

-- The host, unless it was seen.
unfoldable pub add_host : List Str → Option GitUrlBreakdown → List Str
unfolding member
add_host hosts none = hosts
add_host hosts (some b) = if member hosts b.host then hosts else hosts ++ b.host ∷ []

unfoldable pub distinct_hosts : List Str → List Repo → List Str
unfolding add_host process_git_url
distinct_hosts hosts [] = hosts
distinct_hosts hosts (r ∷ repos) = distinct_hosts (add_host hosts (process_git_url r.url)) repos

module _ (store : DbStore) where
  unfoldable pub proxied_hosts : store.State → Result (List Str)
  unfolding distinct_hosts
  proxied_hosts d = do repos ← store.get_repos d every_repo; ok (distinct_hosts [] repos)

  abbrev new_repo : AuthorisedRepo → Repo
  new_repo ar = record {
    id = [];
    project = ar.project;
    name = ar.name;
    url = ar.url;
    users = record { can_push = []; can_authorise = [] };
  }

  unfoldable pub and_then :
      store.State × Option Str → (store.State → store.State × Option Str) → store.State × Option Str
  and_then (d, some e) next = (d, some e)
  and_then (d, none) next = next d

  unfoldable pub granted : store.State × Result Repo → store.State × Option Str
  unfolding and_then
  granted (d, err e) = (d, some e)
  granted (d, ok created) =
      and_then (store.add_user_can_push d created.id (codes "admin"))
        (λ d'. store.add_user_can_authorise d' created.id (codes "admin"))

  -- One round of the loop. `existing` is not extended by what the loop creates.
  unfoldable pub seed : List Str → store.State → AuthorisedRepo → store.State × Option Str
  unfolding granted member
  seed existing d ar =
      if member existing ar.url then (d, none) else granted (store.create_repo d (new_repo ar))

  unfoldable pub seed_all : List Str → store.State → List AuthorisedRepo → store.State × Option Str
  unfolding seed and_then
  seed_all existing d [] = (d, none)
  seed_all existing d (ar ∷ list) = and_then (seed existing d ar) (λ d'. seed_all existing d' list)

  unfoldable pub seed_authorised_repos :
      store.State → List AuthorisedRepo → store.State × Option Str
  unfolding seed_all
  seed_authorised_repos d list = elim (store.get_repos d every_repo) [
    | err e ↦ (d, some e)
    | ok repos ↦ seed_all (map (λ (r : Repo). r.url) repos) d list
  ]

seeded : {S : Type 0} → S × Option Str → S × Option Str
seeded (d, none) = (d, none)
seeded (d, some e) = (d, some (codes "seed default users: " ++ e))

-- The default accounts, where the local method is enabled.
unfoldable pub seed_users :
    (u : Unicode) (b : Bcrypt) (store : DbStore)
    → store.State
    → List Method
    → store.State × Option Str
unfolding build_registry create_default_admin seeded
seed_users u b store d methods =
    if member (build_registry u methods).enabled_types (codes "local")
    then seeded (create_default_admin b store d)
    else (d, none)

unfoldable pub is_postgres_dsn : Str → Bool
is_postgres_dsn dsn = has_prefix dsn (codes "postgres://") || has_prefix dsn (codes "postgresql://")

unfoldable pub is_sqlite_dsn : Str → Bool
is_sqlite_dsn dsn = has_prefix dsn (codes "sqlite:")

unfoldable pub config_source : AppConfig → Str
config_source cfg = if is_empty cfg.source then codes "embedded defaults" else cfg.source

unfoldable pub trimmed_origins : List Str → List Str
unfolding trim_space
trimmed_origins [] = []
trimmed_origins (o ∷ origins) =
    let rest = trimmed_origins origins in
    if is_empty (trim_space o) then rest else trim_space o ∷ rest

-- The nil slice is [].
unfoldable pub parse_allowed_origins : Str → List Str
unfolding trimmed_origins split
parse_allowed_origins v =
    let t = trim_space v in
    if is_empty t
    then []
    else if str_eq t (codes "*")
    then codes "*" ∷ []
    else trimmed_origins (split b',' t)
