-- ===== src/Api/Review.antt =====
-- The routes of a push: listPushes, getPush, rejectPush, authorisePush and cancelPush of api_routes.go,
-- with applyPushFilters and validateAttestation.
pub mod Answers
pub mod Laws
pub mod Permitted
pub mod Stored
use git_proxy_go.Base.{
  Bool, true, false, not, Option, none, some, List, [], ◌∷◌, ◌++◌, Str, Unicode, codes, is_empty,
  if◌then◌else◌, str_eq, trim_space, Result, err, ok,
}
use git_proxy_go.Model.{Push, Attestation, Rejection}
use git_proxy_go.Db.Interface.{DbStore}
use git_proxy_go.Db.Pushes.{PushQuery}
use git_proxy_go.Api.Context.{
  ApiRequest, ApiSettings, Reply, Guarded, refuse, pass, ◌>>=◌, ◌>>◌, looked_up, present, require,
  message, failure, answered, push_list, push_object, message_object, lookup_error,
}
use git_proxy_go.Api.Caller.{
  logged_in, stored_push, committer_for, not_own, reviewer, can_approve_reject, can_cancel,
}
use git_proxy_go.Api.Review.Answers.{validate_attestation}

unfoldable pub bool_filter : Str → Option Bool
bool_filter v =
    if str_eq v (codes "true")
    then some true
    else if str_eq v (codes "false")
    then some false
    else none

unfoldable pub push_filter : PushQuery → Str → Str → PushQuery
unfolding bool_filter
push_filter q key v =
    if str_eq key (codes "error")
    then record q { error = bool_filter v }
    else if str_eq key (codes "blocked")
    then record q { blocked = bool_filter v }
    else if str_eq key (codes "allowPush")
    then record q { allow_push = bool_filter v }
    else if str_eq key (codes "authorised")
    then record q { authorised = bool_filter v }
    else if str_eq key (codes "canceled")
    then record q { canceled = bool_filter v }
    else if str_eq key (codes "rejected")
    then record q { rejected = bool_filter v }
    else q

unfoldable pub apply_push_filters : PushQuery → List (Str × Str) → PushQuery
unfolding push_filter
apply_push_filters q [] = q
apply_push_filters q ((key, v) ∷ values) = apply_push_filters (push_filter q key v) values

abbrev pub any_push : PushQuery
any_push = record {
  kind = some (codes "push");
  error = none;
  blocked = none;
  allow_push = none;
  authorised = none;
  canceled = none;
  rejected = none;
}

-- The store's answer to a decision: the state is what the store left.
unfoldable pub decided {ℓ} : {S : Type ℓ} → Str → S × Result Str → S × Reply
decided refusal (s, err e) = (s, failure 500 refusal)
decided refusal (s, ok result) = (s, message 200 result)

-- A write behind a chain of checks.
unfoldable pub behind {ℓ κ} :
    {S : Type ℓ} {A : Type κ} → S → Guarded A → (A → S × Reply) → S × Reply
behind s (refuse reply) write = (s, reply)
behind s (pass a) write = write a

module _ (u : Unicode) (store : DbStore) (settings : ApiSettings) where
  unfoldable pub list_pushes : store.State → ApiRequest → Reply
  unfolding apply_push_filters
  list_pushes d r = answered do
    pushes ← looked_up (store.get_pushes d (apply_push_filters any_push r.query))
    pass (push_list pushes)

  unfoldable pub show_push : store.State → ApiRequest → Reply
  show_push d r = answered do
    found ← looked_up (store.get_push d r.id_param)
    push ← present (message 404 (codes "not found")) found
    pass (push_object push)

  unfoldable pub reject_checks : store.State → ApiRequest → Guarded Rejection
  unfolding logged_in stored_push committer_for not_own reviewer can_approve_reject
  reject_checks d r = do
    user ← logged_in u store d r
    require (not (is_empty (trim_space r.body.reason)))
        (message 400 (codes "Rejection reason is required"))
    push ← stored_push u store d r.id_param
    require (not (is_empty push.user_email)) (message 400 (codes "Push request has no user email"))
    committer ← committer_for u store d push.user_email
    not_own u store committer user (codes "Cannot reject your own changes")
    allowed ← can_approve_reject u store d push user.username
    require allowed (
        message 403 (
          codes "User "
          ++ (user.username ++ codes " is not authorised to reject changes on this project")))
    judge ← reviewer u store d user.username
    pass (record { reason = r.body.reason; timestamp = r.now; reviewer = judge; automated = false })

  unfoldable pub reject_push : store.State → ApiRequest → store.State × Reply
  unfolding behind decided reject_checks
  reject_push d r =
      behind d (reject_checks d r)
        (λ rejection. decided (codes "reject failed") (store.reject d r.id_param rejection))

  unfoldable pub authorise_checks : store.State → ApiRequest → Guarded Attestation
  unfolding logged_in stored_push committer_for not_own reviewer can_approve_reject
  authorise_checks d r = do
    user ← logged_in u store d r
    require (validate_attestation r.body.answers settings.config)
        (message 400 (codes "Attestation is not complete"))
    push ← stored_push u store d r.id_param
    committer ← committer_for u store d push.user_email
    not_own u store committer user (codes "Cannot approve your own changes")
    allowed ← can_approve_reject u store d push user.username
    require allowed (
        message 403 (
          codes "User "
          ++ (user.username ++ codes " not authorised to approve pushes on this project")))
    judge ← reviewer u store d user.username
    pass (record {
      answers = r.body.answers;
      timestamp = r.now;
      reviewer = judge;
      automated = false;
    })

  unfoldable pub authorise_push : store.State → ApiRequest → store.State × Reply
  unfolding behind decided authorise_checks
  authorise_push d r =
      behind d (authorise_checks d r) (λ attestation.
        decided (codes "authorise failed") (store.authorise d r.id_param attestation))

  unfoldable pub cancel_checks : store.State → ApiRequest → Guarded (Unit {0})
  unfolding logged_in can_cancel
  cancel_checks d r = do
    user ← logged_in u store d r
    allowed ← can_cancel u store d r.id_param user.username
    require allowed (
        message 403 (
          codes "User "
          ++ (user.username ++ codes " not authorised to cancel push requests on this project")))

  unfoldable pub cancel_push : store.State → ApiRequest → store.State × Reply
  unfolding behind decided cancel_checks
  cancel_push d r =
      behind d (cancel_checks d r)
        (λ _. decided (codes "cancel failed") (store.cancel d r.id_param))
