-- ===== src/Api/Caller.antt =====
-- Who calls the management API and what they may do: currentUser, requireAdmin, committerFor, reviewer,
-- canApproveReject and canCancel of api_routes.go.
use git_proxy_go.Base.{
  Bool, false, not, ◌&&◌, ◌||◌, Option, none, some, List, [], ◌∷◌, ◌++◌, Str, Unicode, codes,
  is_empty, if◌then◌else◌, str_eq, member, to_lower, equal_fold, Result, ok,
}
use git_proxy_go.Model.{Push, Repo, User, Reviewer}
use git_proxy_go.Db.Interface.{DbStore}
use git_proxy_go.Api.Context.{
  Claim, Principal, ApiUser, ApiRequest, Guarded, refuse, pass, ◌>>=◌, looked_up, present, require,
  message,
}

-- `claims["username"].(string)`: "" where the claim is absent or no string.
unfoldable pub username_claim : List (Str × Claim) → Str
username_claim [] = []
username_claim ((name, Claim.text value) ∷ claims) =
    if str_eq name (codes "username") then value else username_claim claims
username_claim ((name, Claim.other _) ∷ claims) =
    if str_eq name (codes "username") then [] else username_claim claims

-- A session's user as the store knows it, or by name alone where it does not.
unfoldable pub session_caller : Str → Result (Option User) → ApiUser
session_caller name (ok (some u)) = record { username = u.username; admin = u.admin }
session_caller name _ = record { username = name; admin = false }

unfoldable pub principal_caller : Option Principal → Option ApiUser
unfolding username_claim
principal_caller none = none
principal_caller (some p) =
    some (record { username = username_claim p.claims; admin = p.admin_role })

unfoldable pub is_admin : Option ApiUser → Bool
is_admin none = false
is_admin (some u) = u.admin

unfoldable pub first_user : Str → List User → Guarded User
first_user email [] =
    refuse (message 404 (codes "No user found with the committer's email address: " ++ email))
first_user email (u ∷ _) = pass u

unfoldable pub reviewer_of : Str → Option User → Guarded Reviewer
reviewer_of name found =
    let unknown =
      refuse
        (message 404 (codes "There was no registered email address for the reviewer: " ++ name)) in
    elim found [
      | none ↦ unknown
      | some u ↦
          if is_empty u.email then unknown else pass (record { username = name; email = u.email })
    ]

unfoldable pub on_authorise_list : Str → Option Repo → Bool
on_authorise_list name none = false
on_authorise_list name (some repo) = member repo.users.can_authorise name

unfoldable pub on_either_list : Str → Option Repo → Bool
on_either_list name none = false
on_either_list name (some repo) =
    member repo.users.can_push name || member repo.users.can_authorise name

module _ (u : Unicode) (store : DbStore) where
  unfoldable pub current_user : store.State → ApiRequest → Option ApiUser
  unfolding session_caller principal_caller
  current_user d r =
      if is_empty r.session_user
      then principal_caller r.principal
      else some (session_caller r.session_user (store.find_user d r.session_user))

  unfoldable pub logged_in : store.State → ApiRequest → Guarded ApiUser
  unfolding current_user
  logged_in d r = present (message 401 (codes "Not logged in")) (current_user d r)

  unfoldable pub require_admin : store.State → ApiRequest → Guarded (Unit {0})
  unfolding is_admin current_user
  require_admin d r =
      require (is_admin (current_user d r))
        (message 401 (codes "You are not authorised to perform this action."))

  unfoldable pub stored_push : store.State → Str → Guarded Push
  stored_push d id = do
    found ← looked_up (store.get_push d id)
    present (message 404 (codes "Push request not found")) found

  unfoldable pub committer_for : store.State → Str → Guarded User
  unfolding first_user
  committer_for d email = do
    users ← looked_up (store.get_users d (record { username = none; email = some email }))
    first_user email users

  -- A committer who is no admin may not decide on the push.
  unfoldable pub not_own : User → ApiUser → Str → Guarded (Unit {0})
  not_own committer user refusal =
      require (not (equal_fold u committer.username user.username && not committer.admin))
        (message 403 refusal)

  unfoldable pub reviewer : store.State → Str → Guarded Reviewer
  unfolding reviewer_of
  reviewer d name = do found ← looked_up (store.find_user d name); reviewer_of name found

  unfoldable pub can_approve_reject : store.State → Push → Str → Guarded Bool
  unfolding on_authorise_list
  can_approve_reject d push name = do
    repo ← looked_up (store.get_repo_by_url d push.url)
    pass (on_authorise_list name repo)

  unfoldable pub can_cancel_found : store.State → Str → Option Push → Guarded Bool
  can_cancel_found d name none = pass false
  can_cancel_found d name (some push) = do
    repo ← looked_up (store.get_repo_by_url d push.url)
    pass (on_either_list (to_lower u.unicode_lower name) repo)

  unfoldable pub can_cancel : store.State → Str → Str → Guarded Bool
  unfolding on_either_list can_cancel_found
  can_cancel d id name = do found ← looked_up (store.get_push d id); can_cancel_found d name found
