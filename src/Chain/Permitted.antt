-- ===== src/Chain/Permitted.antt =====
-- Whose push the chain lets through.
use git_proxy_go.Base.{
  clash, ◌≡◌, refl, sym, ap, ◌∙◌, Bool, true, false, none, some, List, [], ◌∷◌, Str, arith, codes,
  is_empty, Bool-cases, Result-cases, inl, inr, Result, ok, err, if◌then◌else◌,
}
use mathlib.Core.Path.{subst}
use git_proxy_go.Model.{User}
use git_proxy_go.Host.{Host}
use git_proxy_go.Chain.Action.{Action, add_step, new_step, log, set_error, may_continue}
use git_proxy_go.Chain.Context.{Request, Store, Settings, Processor}
use git_proxy_go.Chain.ParsePush.{parse_push}
use git_proxy_go.Chain.Checks.{
  check_empty_branch, check_repo_in_authorised_list, check_commit_messages, check_author_emails,
  is_user_push_allowed, by_users, check_user_push_permission,
}
use git_proxy_go.Chain.Engine.{run_chain, noted, push_processors, execute, run_checks, parse_action}
use git_proxy_go.Chain.Keeps.{
  check_repo_keeps, check_empty_keeps, check_messages_keeps, check_emails_keeps,
}
use git_proxy_go.Chain.Approval.{is_refused, run_step}
use git_proxy_go.Chain.Outcome.{
  parse_push_keeps_rest, parse_action_fresh, clean_up_keeps, run_checks_failed, run_checks_push,
}
use git_proxy_go.Chain.Verdicts.{permission_error}

module _ (h : Host) where
  -- The first processor of a run that is not refused refuses nothing itself.
  run_head :
      (fn : Processor h) (rest : List (Processor h)) (w : h.World) (r : Request h.Credentials)
      (a : Action)
      → is_refused (noted h (run_chain h (fn ∷ rest) w r a)) ≡ false
      → (is_refused (noted h (fn w r a)) ≡ false) × ((fn w r a).action.error ≡ false)
  unfolding run_chain noted is_refused may_continue
  run_head fn rest w r a pass = ground arith

module _ (h : Host) (store : Store) (settings : Settings) (db : store.State) where
  -- The one user with the address, on a list of the repository.
  Permitted : Str → Str → Type 0
  Permitted email url =
      (u : User) × (store.get_users db (record { username = none; email = some email })
        ≡ ok (u ∷ []))
      × (is_user_push_allowed h store settings db url u.username ≡ ok true)

  along-Permitted :
      {email email' url url' : Str}
      → email ≡ email'
      → url ≡ url'
      → Permitted email url
      → Permitted email' url'
  along-Permitted {email} {email'} {url} {url'} e u p =
      subst (λ t. Permitted t url') e (subst (Permitted email) u p)

  users_Permitted :
      (w : h.World) (a : Action) (found : Result (List User))
      → store.get_users db (record { username = none; email = some a.user_email }) ≡ found
      → a.error ≡ false
      → is_refused (
          noted h
            (by_users h store settings db w a (new_step (codes "checkUserPushPermission")) found))
        ≡ false
      → Permitted a.user_email a.url
  unfolding Permitted noted is_refused new_step by_users
  users_Permitted w a (err e) stored fine pass = absurd (ground (arith, pass))
  users_Permitted w a (ok us) stored fine pass =
      let (u, one, allowed) = permission_error h store settings db w a _ us fine refl pass in
      (u, stored ∙ ap (λ l. ok l) one, allowed)

  nobody_refused :
      (w : h.World) (r : Request h.Credentials) (a : Action)
      → is_empty a.user_email ≡ true
      → is_refused (noted h (check_user_push_permission h store settings db w r a)) ≡ true
  unfolding check_user_push_permission noted is_refused new_step set_error log add_step
  nobody_refused w r a nobody = ground (arith, nobody)

  if_false : {A : Type 0} {b : Bool} (x y : A) → b ≡ false → (if b then x else y) ≡ y
  if_false x y e = rw e refl

  check_permission-Permitted :
      (w : h.World) (r : Request h.Credentials) (a : Action)
      → a.error ≡ false
      → is_refused (noted h (check_user_push_permission h store settings db w r a)) ≡ false
      → Permitted a.user_email a.url
  unfolding check_user_push_permission
  check_permission-Permitted w r a fine pass = elim (Bool-cases (is_empty a.user_email)) [
    | inl nobody ↦ absurd (clash (nobody_refused w r a nobody) pass)
    | inr someone ↦
        users_Permitted w a _ refl fine
          (ap (λ o. is_refused (noted h o)) (sym (if_false _ _ someone)) ∙ pass)
  ]

  -- The chain of a push that is not refused.
  push_chain-Permitted :
      (w : h.World) (r : Request h.Credentials) (a : Action)
      → a.allow_push ≡ false
      → is_refused (noted h (run_chain h (push_processors h store settings db) w r a)) ≡ false
      → Permitted (parse_push h w r a).action.user_email a.url
  unfolding push_processors
  push_chain-Permitted w r a allow pass =
      let (allow0, url) = parse_push_keeps_rest h store settings db w r a in
      let allow1 = allow0 ∙ allow in
      let p1 = run_step h (parse_push h) _ w r a allow1 pass in
      let s2 = check_empty_keeps h store settings db _ r (parse_push h w r a).action in
      let allow2 = s2.allow_push ∙ allow1 in
      let p2 = run_step h (check_empty_branch h store settings db) _ _ r _ allow2 p1 in
      let s3 = check_repo_keeps h store settings db _ r _ in
      let allow3 = s3.allow_push ∙ allow2 in
      let p3 = run_step h (check_repo_in_authorised_list h store settings db) _ _ r _ allow3 p2 in
      let s4 = check_messages_keeps h store settings db _ r _ in
      let allow4 = s4.allow_push ∙ allow3 in
      let p4 = run_step h (check_commit_messages h store settings db) _ _ r _ allow4 p3 in
      let s5 = check_emails_keeps h store settings db _ r _ in
      let p5 =
        run_step h (check_author_emails h store settings db) _ _ r _ (s5.allow_push ∙ allow4) p4 in
      let fine = (run_head h (check_author_emails h store settings db) _ _ r _ p4).1 in
      let permitted =
        check_permission-Permitted _ r _ fine
          (run_head h (check_user_push_permission h store settings db) _ _ r _ p5).0 in
      let email = s5.user_email ∙ (s4.user_email ∙ (s3.user_email ∙ s2.user_email)) in
      let same_url = s5.url ∙ (s4.url ∙ (s3.url ∙ (s2.url ∙ url))) in
      along-Permitted email same_url permitted

  -- A request with the content type of a receive-pack request that Execute does not refuse is by a
  -- permitted user: the store has exactly one user under the committer's address that parsePush
  -- reads from the push, and isUserPushAllowed holds of that user and the address that parseAction
  -- gave the action.
  pub execute_permitted :
      (w : h.World) (r : Request h.Credentials)
      → r.header (codes "Content-Type") ≡ codes "application/x-git-receive-pack-request"
      → is_refused (execute h store settings db w r).action ≡ false
      → (a : Action) × (u : User) × (parse_action h store settings db w r ≡ ok a)
        × (store.get_users db
              (record { username = none; email = some (parse_push h w r a).action.user_email })
            ≡ ok (u ∷ []))
        × (is_user_push_allowed h store settings db a.url u.username ≡ ok true)
  unfolding execute Permitted
  execute_permitted w r push pass =
      let o = run_checks h store settings db w r in
      let passed = clean_up_keeps h store settings db o.world (noted h o) pass in
      elim (Result-cases (parse_action h store settings db w r)) [
        | inr (e, failed) ↦
            absurd (clash (run_checks_failed h store settings db w r e failed) passed)
        | inl (a, parsed) ↦
            let (u, one, allowed) =
              push_chain-Permitted w r a (parse_action_fresh h store settings db w r a parsed).0
                (rw (← run_checks_push h store settings db w r a push parsed) passed) in
            (a, u, parsed, one, allowed)
      ]
