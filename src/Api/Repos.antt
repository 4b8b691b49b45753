-- ===== src/Api/Repos.antt =====
-- The routes of a repository: listRepos, getRepo, the four changes of its access lists, deleteRepo and
-- createRepo of api_routes.go, with applyRepoFilters, proxyURL and repoWithProxyURL.
pub mod Laws
use git_proxy_go.Base.{
  Bool, Option, none, some, List, [], ◌∷◌, ◌++◌, map, Str, Unicode, codes, is_empty, if◌then◌else◌,
  str_eq, replace_first, Result, err, ok, not, ◌&&◌,
}
use git_proxy_go.Model.{Repo, User}
use git_proxy_go.Chain.Config.{Domains}
use git_proxy_go.Db.Interface.{DbStore}
use git_proxy_go.Db.Repos.{RepoQuery}
use git_proxy_go.Api.Context.{
  ApiRequest, ApiSettings, Reply, RepoObject, Guarded, refuse, pass, ◌>>=◌, ◌>>◌, looked_up,
  present, require, message, failure, answered, success, repo_list, repo_object, error_object,
}
use git_proxy_go.Api.Caller.{require_admin}
use git_proxy_go.Api.Review.{behind}

unfoldable pub repo_filter : RepoQuery → Str → Str → RepoQuery
repo_filter q key v =
    if str_eq key (codes "name")
    then record q { name = some v }
    else if str_eq key (codes "url")
    then record q { url = some v }
    else if str_eq key (codes "project")
    then record q { project = some v }
    else q

unfoldable pub apply_repo_filters : RepoQuery → List (Str × Str) → RepoQuery
unfolding repo_filter
apply_repo_filters q [] = q
apply_repo_filters q ((key, v) ∷ values) = apply_repo_filters (repo_filter q key v) values

abbrev pub any_repo : RepoQuery
any_repo = record { name = none; url = none; project = none }

-- The configured override, where it is not "".
unfoldable pub proxy_override : Option Domains → Option Str
proxy_override none = none
proxy_override (some d) = elim d.proxy [ some (c ∷ s) ↦ some (c ∷ s) | _ ↦ none ]

request_base : ApiSettings → ApiRequest → Str
request_base settings r =
    let own = if r.has_tls then codes "https" else codes "http" in
    let forwarded = r.header (codes "X-Forwarded-Proto") in
    let scheme = if is_empty forwarded then own else forwarded in
    let base = scheme ++ (codes "://" ++ r.host) in
    if not (is_empty settings.ui_port) && not (is_empty settings.git_proxy_port)
    then replace_first (b':' ∷ settings.ui_port) (b':' ∷ settings.git_proxy_port) base
    else base

unfoldable pub proxy_url : ApiSettings → ApiRequest → Str
unfolding proxy_override request_base
proxy_url settings r = elim (proxy_override settings.config.domains) [
  | some url ↦ url
  | none ↦ request_base settings r
]

unfoldable pub repo_with_proxy_url : Option Repo → Str → RepoObject
repo_with_proxy_url none url = record {
  id = none;
  name = [];
  project = [];
  url = [];
  users = record { can_push = []; can_authorise = [] };
  proxy_url = url;
  message = none;
}
repo_with_proxy_url (some repo) url = record {
  id = if is_empty repo.id then none else some repo.id;
  name = repo.name;
  project = repo.project;
  url = repo.url;
  users = repo.users;
  proxy_url = url;
  message = none;
}

-- `err != nil` behind a change, answered with status 500.
unfoldable pub changed {ℓ} : {S : Type ℓ} → Str → Str → S × Option Str → S × Reply
changed refusal done (s, some e) = (s, failure 500 refusal)
changed refusal done (s, none) = (s, message 200 done)

unfoldable pub created {ℓ} : {S : Type ℓ} → Str → S × Result Repo → S × Reply
unfolding repo_with_proxy_url
created url (s, err e) = (s, message 500 e)
created url (s, ok repo) = (
  s,
  success (
      repo_object
        (record (repo_with_proxy_url (some repo) url) { message = some (codes "created") })),
)

-- An address that is taken is answered with status 409.
unfoldable pub unused_url : Str → Option Repo → Guarded (Unit {0})
unused_url url none = pass tt
unused_url url (some repo) =
    refuse (message 409 (codes "Repository " ++ (url ++ codes " already exists!")))

module _ (u : Unicode) (store : DbStore) (settings : ApiSettings) where
  unfoldable pub list_repos : store.State → ApiRequest → Reply
  unfolding apply_repo_filters
  list_repos d r = answered do
    repos ← looked_up (store.get_repos d (apply_repo_filters any_repo r.query))
    pass (repo_list (map (λ repo. repo_with_proxy_url (some repo) (proxy_url settings r)) repos))

  unfoldable pub show_repo : store.State → ApiRequest → Reply
  show_repo d r = answered do
    repo ← looked_up (store.get_repo_by_id d r.id_param)
    pass (repo_object (repo_with_proxy_url repo (proxy_url settings r)))

  unfoldable pub mutation_checks : store.State → ApiRequest → Str → Guarded (Unit {0})
  unfolding require_admin
  mutation_checks d r name = do
    require_admin u store d r
    found ← looked_up (store.find_user d name)
    user ←
        present (record { status = 400; payload = error_object (codes "User does not exist") })
          found
    pass tt

  unfoldable pub repo_user_mutation :
      store.State
      → ApiRequest
      → Str
      → (store.State → Str → Str → store.State × Option Str)
      → store.State × Reply
  unfolding behind changed mutation_checks
  repo_user_mutation d r name mutate =
      behind d (mutation_checks d r name)
        (λ _. changed (codes "update failed") (codes "created") (mutate d r.id_param name))

  unfoldable pub add_user_can_push : store.State → ApiRequest → store.State × Reply
  unfolding repo_user_mutation
  add_user_can_push d r = repo_user_mutation d r r.body.username store.add_user_can_push

  unfoldable pub add_user_can_authorise : store.State → ApiRequest → store.State × Reply
  unfolding repo_user_mutation
  add_user_can_authorise d r = repo_user_mutation d r r.body.username store.add_user_can_authorise

  unfoldable pub remove_user_can_authorise : store.State → ApiRequest → store.State × Reply
  unfolding repo_user_mutation
  remove_user_can_authorise d r =
      repo_user_mutation d r r.user_param store.remove_user_can_authorise

  unfoldable pub remove_user_can_push : store.State → ApiRequest → store.State × Reply
  unfolding repo_user_mutation
  remove_user_can_push d r = repo_user_mutation d r r.user_param store.remove_user_can_push

  unfoldable pub delete_repo : store.State → ApiRequest → store.State × Reply
  unfolding behind changed require_admin
  delete_repo d r =
      behind d (require_admin u store d r)
        (λ _. changed (codes "delete failed") (codes "deleted") (store.delete_repo d r.id_param))

  unfoldable pub create_checks : store.State → ApiRequest → Guarded Repo
  unfolding require_admin unused_url
  create_checks d r = do
    require_admin u store d r
    repo ← present (failure 400 (codes "invalid request body")) r.body.new_repo
    require (not (is_empty repo.url)) (message 400 (codes "Repository url is required"))
    existing ← looked_up (store.get_repo_by_url d repo.url)
    unused_url repo.url existing
    pass repo

  unfoldable pub create_repo : store.State → ApiRequest → store.State × Reply
  unfolding behind created create_checks
  create_repo d r =
      behind d (create_checks d r)
        (λ repo. created (proxy_url settings r) (store.create_repo d repo))
