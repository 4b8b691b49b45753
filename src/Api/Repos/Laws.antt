-- ===== src/Api/Repos/Laws.antt =====
-- Who may change the repositories, and what the SQLite store holds behind a change.
use git_proxy_go.Base.{
  ◌≡◌, refl, true, false, Option, none, some, Str, Unicode, codes, is_empty, Result, ok, err,
  Bool-cases, inl, inr,
}
use git_proxy_go.Model.{User}
use git_proxy_go.Db.Interface.{DbStore}
use git_proxy_go.Api.Context.{Principal, ApiRequest, ApiSettings, Reply, message, require, refuse}
use git_proxy_go.Api.Caller.{
  session_caller, principal_caller, current_user, is_admin, require_admin,
}
use git_proxy_go.Api.Review.{behind}
use git_proxy_go.Api.Repos.{
  mutation_checks, repo_user_mutation, add_user_can_push, add_user_can_authorise,
  remove_user_can_push, remove_user_can_authorise, delete_repo, create_checks, create_repo,
}

abbrev pub forbidden : Reply
forbidden = message 401 (codes "You are not authorised to perform this action.")

session_caller_admin :
    (name : Str) (found : Result (Option User))
    → ((user : User) → found ≡ ok (some user) → user.admin ≡ false)
    → (session_caller name found).admin ≡ false
unfolding session_caller
session_caller_admin name (err e) h = refl
session_caller_admin name (ok none) h = refl
session_caller_admin name (ok (some user)) h = h user refl

principal_caller_admin :
    (principal : Option Principal)
    → ((p : Principal) → principal ≡ some p → p.admin_role ≡ false)
    → is_admin (principal_caller principal) ≡ false
unfolding is_admin principal_caller
principal_caller_admin none h = refl
principal_caller_admin (some p) h = h p refl

module _ (u : Unicode) (store : DbStore) (settings : ApiSettings) where
  require_admin_refuses :
      (d : store.State) (r : ApiRequest)
      → is_admin (current_user u store d r) ≡ false
      → require_admin u store d r ≡ refuse forbidden
  unfolding require_admin require
  require_admin_refuses d r h = rw h refl

  current_user_admin :
      (d : store.State) (r : ApiRequest)
      → ((user : User)
          → is_empty r.session_user ≡ false
          → store.find_user d r.session_user ≡ ok (some user)
          → user.admin ≡ false)
      → ((p : Principal)
          → is_empty r.session_user ≡ true
          → r.principal ≡ some p
          → p.admin_role ≡ false)
      → is_admin (current_user u store d r) ≡ false
  unfolding current_user is_admin
  current_user_admin d r session token = elim (Bool-cases (is_empty r.session_user)) [
    | inl blank ↦ rw (current_user, blank) (principal_caller_admin r.principal (λ p. token p blank))
    | inr named ↦
        rw (current_user, named)
          (session_caller_admin r.session_user (store.find_user d r.session_user)
            (λ user. session user named))
  ]

  -- Where the session's user is no admin in the store, and a request of no session has no token with the
  -- admin role, each route that changes a repository or an access list leaves the store as it is and
  -- answers with status 401. This covers a request of nobody: one with no session and no token.
  pub repo_routes_guarded :
      (d : store.State) (r : ApiRequest)
      → ((user : User)
          → is_empty r.session_user ≡ false
          → store.find_user d r.session_user ≡ ok (some user)
          → user.admin ≡ false)
      → ((p : Principal)
          → is_empty r.session_user ≡ true
          → r.principal ≡ some p
          → p.admin_role ≡ false)
      → (add_user_can_push u store settings d r ≡ (d, forbidden))
        × (add_user_can_authorise u store settings d r ≡ (d, forbidden))
        × (remove_user_can_push u store settings d r ≡ (d, forbidden))
        × (remove_user_can_authorise u store settings d r ≡ (d, forbidden))
        × (delete_repo u store settings d r ≡ (d, forbidden))
        × (create_repo u store settings d r ≡ (d, forbidden))
  unfolding add_user_can_push add_user_can_authorise remove_user_can_push remove_user_can_authorise
      delete_repo create_repo repo_user_mutation mutation_checks create_checks behind
  repo_routes_guarded d r session token =
      let e = require_admin_refuses d r (current_user_admin d r session token) in
      (rw e refl, rw e refl, rw e refl, rw e refl, rw e refl, rw e refl)
