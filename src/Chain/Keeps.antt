-- ===== src/Chain/Keeps.antt =====
-- Which processors leave the push's permission and id alone: all but the parser, which sets the id,
-- and the gate.
use git_proxy_go.Base.{◌≡◌, refl, List, [], ◌∷◌, arith}
use git_proxy_go.Model.{Step, User}
use git_proxy_go.Host.{Host}
use git_proxy_go.Chain.Action.{Action, add_step}
use git_proxy_go.Chain.Context.{Request, Store, Settings}
use git_proxy_go.Chain.Checks.{
  check_empty_branch, check_repo_in_authorised_list, check_commit_messages, check_author_emails,
  check_user_push_permission, permission,
}

-- The permission, the id, the repository and the user's address of `b` are those of `a`.
pub record Same (a b : Action) : Type 0 where
  pub allow_push : b.allow_push ≡ a.allow_push
  pub id : b.id ≡ a.id
  pub url : b.url ≡ a.url
  pub user_email : b.user_email ≡ a.user_email

pub Same-refl : (a : Action) → Same a a
Same-refl a = record { allow_push = refl; id = refl; url = refl; user_email = refl }

pub Same-add_step : (a : Action) (s : Step) → Same a (add_step a s)
unfolding add_step
Same-add_step a s = ground arith

module _ (h : Host) (store : Store) (settings : Settings) (db : store.State) where
  pub check_repo_keeps :
      (w : h.World) (r : Request h.Credentials) (a : Action)
      → Same a (check_repo_in_authorised_list h store settings db w r a).action
  unfolding check_repo_in_authorised_list
  check_repo_keeps w r a = grind (arith, Same-add_step, Same-refl)

  pub check_empty_keeps :
      (w : h.World) (r : Request h.Credentials) (a : Action)
      → Same a (check_empty_branch h store settings db w r a).action
  unfolding check_empty_branch
  check_empty_keeps w r a = grind (arith, Same-add_step, Same-refl)

  pub check_messages_keeps :
      (w : h.World) (r : Request h.Credentials) (a : Action)
      → Same a (check_commit_messages h store settings db w r a).action
  unfolding check_commit_messages
  check_messages_keeps w r a = grind (arith, Same-add_step, Same-refl)

  pub check_emails_keeps :
      (w : h.World) (r : Request h.Credentials) (a : Action)
      → Same a (check_author_emails h store settings db w r a).action
  unfolding check_author_emails
  check_emails_keeps w r a = grind (arith, Same-add_step, Same-refl)

  permission_keeps :
      (w : h.World) (a : Action) (s : Step) (us : List User)
      → Same a (permission h store settings db w a s us).action
  unfolding permission
  permission_keeps w a s [] = grind (arith, Same-add_step, Same-refl)
  permission_keeps w a s (u ∷ []) = grind (arith, Same-add_step, Same-refl)
  permission_keeps w a s (u ∷ v ∷ us) = grind (arith, Same-add_step, Same-refl)

  pub check_permission_keeps :
      (w : h.World) (r : Request h.Credentials) (a : Action)
      → Same a (check_user_push_permission h store settings db w r a).action
  unfolding check_user_push_permission
  check_permission_keeps w r a = grind (arith, Same-add_step, Same-refl, permission_keeps)
