-- ===== src/Chain/Outcome.antt =====
-- What a request that Execute lets through has shown.
use git_proxy_go.Base.{
  clash, ◌≡◌, refl, ◌∙◌, ap, ◌⊎◌, true, false, Option, none, some, List, [], ◌∷◌, ◌++◌, arith, Str,
  codes, ℕ, Result, ok, err, inl, inr, Result-cases, Bool-cases, str_eq, is_empty,
}
use git_proxy_go.Model.{Push, Step, Repo, CommitData}
use git_proxy_go.Host.{Host}
use git_proxy_go.Chain.Action.{
  Action, add_step, new_action, set_names, new_step, set_commit, set_branch, set_error, log,
  may_continue,
}
use git_proxy_go.Chain.Context.{Request, Store, Settings, Processor}
use git_proxy_go.Chain.ParsePush.{
  RefUpdate, read_update, parse_push, parse_push_into, record_update, record_commits, body_of,
  parse_step,
}
use git_proxy_go.Chain.Checks.{check_empty_branch, check_repo_in_authorised_list, repo_step}
use git_proxy_go.Chain.Keeps.{check_empty_keeps}
use git_proxy_go.Chain.Engine.{
  run_chain, noted, push_processors, execute, run_checks, run_parsed, clean_up, clear_bare_clone,
  parse_action, get_chain, pull_chain, push_chain, default_chain, action_type, chain_kind,
  ChainKind,
}
use git_proxy_go.Chain.Approval.{Approved, Guards, rest-Guards, run_step, is_refused}

-- The id that the parser gives a push.
abbrev pub push_id : RefUpdate → Str
push_id u = u.old_commit ++ (codes "__" ++ u.new_commit)

record_commits_keeps :
    (a : Action) (cs : List CommitData)
    → ((record_commits a cs).id ≡ a.id)
      × ((record_commits a cs).allow_push ≡ a.allow_push)
      × ((record_commits a cs).url ≡ a.url)
unfolding record_commits
record_commits_keeps a cs = ground arith

record_update_keeps :
    (a : Action) (u : RefUpdate)
    → ((record_update a u).id ≡ push_id u)
      × ((record_update a u).allow_push ≡ a.allow_push)
      × ((record_update a u).url ≡ a.url)
unfolding record_update set_commit set_branch
record_update_keeps a u = (refl, refl, refl)

add_step_keeps :
    (a : Action) (s : Step)
    → ((add_step a s).id ≡ a.id)
      × ((add_step a s).allow_push ≡ a.allow_push)
      × ((add_step a s).url ≡ a.url)
unfolding add_step
add_step_keeps a s = ground arith

module _ (h : Host) where
  parse_push_unread :
      (w : h.World) (r : Request h.Credentials) (a : Action) (rest : List (Processor h)) (e : Str)
      → (is_empty (body_of h r.raw_body) ≡ true) ⊎ (read_update (body_of h r.raw_body) ≡ err e)
      → is_refused (noted h (run_chain h (parse_push h ∷ rest) w r a)) ≡ true
  unfolding parse_push parse_push_into parse_step run_chain noted is_refused may_continue add_step
      set_error new_step
  parse_push_unread w r a rest e bad = ground arith

  parse_push_read :
      (w : h.World) (r : Request h.Credentials) (a : Action) (n : ℕ) (u : RefUpdate)
      → is_empty (body_of h r.raw_body) ≡ false
      → read_update (body_of h r.raw_body) ≡ ok (n, u)
      → ((parse_push h w r a).action.id ≡ push_id u)
        × ((parse_push h w r a).action.allow_push ≡ a.allow_push)
  unfolding parse_push parse_push_into
  parse_push_read w r a n u some_body read =
      grind (arith, record_commits_keeps, record_update_keeps, add_step_keeps)

module _ (h : Host) (store : Store) (settings : Settings) (db : store.State) where
  -- The chain of a push, from an action that is not allowed yet.
  push_chain-Approved :
      (w : h.World) (r : Request h.Credentials) (a : Action)
      → a.allow_push ≡ false
      → is_refused (noted h (run_chain h (push_processors h store settings db) w r a)) ≡ false
      → (n : ℕ) × (u : RefUpdate) × (read_update (body_of h r.raw_body) ≡ ok (n, u))
        × Approved h store settings db (push_id u)
  unfolding push_processors Guards
  push_chain-Approved w r a allow pass = elim (Bool-cases (is_empty (body_of h r.raw_body))) [
    | inl empty ↦ absurd (clash (parse_push_unread h w r a _ [] (inl empty)) pass)
    | inr full ↦ elim (Result-cases (read_update (body_of h r.raw_body))) [
      | inr (e, failed) ↦ absurd (clash (parse_push_unread h w r a _ e (inr failed)) pass)
      | inl ((n, u), read) ↦
          let (named, same) = parse_push_read h w r a n u full read in
          (
            n,
            u,
            read,
            rest-Guards h store settings db r (push_id u) _ _ named (same ∙ allow)
                (run_step h (parse_push h) _ w r a (same ∙ allow) pass),
          )
    ]
  ]

  pub parse_action_fresh :
      (w : h.World) (r : Request h.Credentials) (a : Action)
      → parse_action h store settings db w r ≡ ok a
      → (a.allow_push ≡ false) × (a.kind ≡ action_type (r.header (codes "Content-Type")))
  unfolding parse_action new_action set_names
  parse_action_fresh w r a parsed = ground arith

  -- The clean-up takes no error and no block back, and leaves the permission alone.
  pub clean_up_keeps :
      (w : h.World) (a : Action) → is_refused (clean_up h w a).1 ≡ false → is_refused a ≡ false
  unfolding clean_up clear_bare_clone is_refused add_step set_error log new_step
  clean_up_keeps w a pass = ground arith

  kind_of_push :
      (t : Str)
      → t ≡ codes "application/x-git-receive-pack-request"
      → chain_kind (action_type t) ≡ push_chain
  unfolding chain_kind action_type str_eq
  kind_of_push t e = rw e refl

  pub run_checks_push :
      (w : h.World) (r : Request h.Credentials) (a : Action)
      → r.header (codes "Content-Type") ≡ codes "application/x-git-receive-pack-request"
      → parse_action h store settings db w r ≡ ok a
      → run_checks h store settings db w r ≡ run_chain h (push_processors h store settings db) w r a
  unfolding run_checks run_parsed get_chain
  run_checks_push w r a push parsed =
      let (_, kind) = parse_action_fresh w r a parsed in
      ap (run_parsed h store settings db w r) parsed
      ∙ ap (λ k. run_chain h (get_chain h store settings db k) w r a)
          (ap chain_kind kind ∙ kind_of_push _ push)

  run_checks_parsed :
      (w : h.World) (r : Request h.Credentials) (a : Action)
      → parse_action h store settings db w r ≡ ok a
      → run_checks h store settings db w r
        ≡ run_chain h (get_chain h store settings db (chain_kind a.kind)) w r a
  unfolding run_checks run_parsed
  run_checks_parsed w r a parsed = ap (run_parsed h store settings db w r) parsed

  pub run_checks_failed :
      (w : h.World) (r : Request h.Credentials) (e : Str)
      → parse_action h store settings db w r ≡ err e
      → is_refused (noted h (run_checks h store settings db w r)) ≡ true
  unfolding run_checks run_parsed noted is_refused may_continue
  run_checks_failed w r e failed = ground arith

  -- A request with the content type of a receive-pack request that Execute does not refuse has a
  -- body from which read_update reads one branch update, and the store holds an authorised record
  -- without error under the id of its two commits.
  pub execute_approved :
      (w : h.World) (r : Request h.Credentials)
      → r.header (codes "Content-Type") ≡ codes "application/x-git-receive-pack-request"
      → is_refused (execute h store settings db w r).action ≡ false
      → (n : ℕ) × (u : RefUpdate) × (e : Push) × (read_update (body_of h r.raw_body) ≡ ok (n, u))
        × (store.get_push db (push_id u) ≡ ok (some e))
        × (e.authorised ≡ true)
        × (e.error ≡ false)
  unfolding execute Approved
  execute_approved w r push pass =
      let o = run_checks h store settings db w r in
      let passed = clean_up_keeps o.world (noted h o) pass in
      elim (Result-cases (parse_action h store settings db w r)) [
        | inr (e, failed) ↦ absurd (clash (run_checks_failed w r e failed) passed)
        | inl (a, parsed) ↦
            let (n, u, read, (e, stored, authorised, fine)) =
              push_chain-Approved w r a (parse_action_fresh w r a parsed).0
                (rw (← run_checks_push w r a push parsed) passed) in
            (n, u, e, read, stored, authorised, fine)
      ]

  Listed : Str → Type 0
  Listed url = (repo : Repo) × (store.get_repo_by_url db url ≡ ok (some repo))

  -- The check of the list, wherever it stands.
  run_chain-Listed :
      (rest : List (Processor h)) (w : h.World) (r : Request h.Credentials) (a : Action)
      (found : Result (Option Repo))
      → store.get_repo_by_url db a.url ≡ found
      → is_refused
          (noted h (run_chain h (check_repo_in_authorised_list h store settings db ∷ rest) w r a))
        ≡ false
      → Listed a.url
  unfolding Listed run_chain noted is_refused may_continue check_repo_in_authorised_list repo_step
      add_step set_error log new_step
  run_chain-Listed rest w r a (err e) stored pass = absurd (ground arith)
  run_chain-Listed rest w r a (ok none) stored pass = absurd (ground arith)
  run_chain-Listed rest w r a (ok (some repo)) stored pass = (repo, stored)

  pub parse_push_keeps_rest :
      (w : h.World) (r : Request h.Credentials) (a : Action)
      → ((parse_push h w r a).action.allow_push ≡ a.allow_push)
        × ((parse_push h w r a).action.url ≡ a.url)
  unfolding parse_push parse_push_into
  parse_push_keeps_rest w r a =
      grind (arith, record_commits_keeps, record_update_keeps, add_step_keeps)

  get_chain-Listed :
      (kind : ChainKind) (w : h.World) (r : Request h.Credentials) (a : Action)
      → a.allow_push ≡ false
      → is_refused (noted h (run_chain h (get_chain h store settings db kind) w r a)) ≡ false
      → Listed a.url
  unfolding get_chain push_processors
  get_chain-Listed pull_chain w r a allow pass = run_chain-Listed [] w r a _ refl pass
  get_chain-Listed default_chain w r a allow pass = run_chain-Listed [] w r a _ refl pass
  get_chain-Listed push_chain w r a allow pass =
      let (allow1, url1) = parse_push_keeps_rest w r a in
      let a1 = (parse_push h w r a).action in
      let pass1 = run_step h (parse_push h) _ w r a (allow1 ∙ allow) pass in
      let s = check_empty_keeps h store settings db (parse_push h w r a).world r a1 in
      let pass2 =
        run_step h (check_empty_branch h store settings db) _ _ r a1
          (s.allow_push ∙ (allow1 ∙ allow)) pass1 in
      rw (← (s.url ∙ url1)) (run_chain-Listed _ _ r _ _ refl pass2)

  -- A request that Execute does not refuse, of any kind, is for a repository of the store: the one
  -- under the address that parseAction gave the action.
  pub execute_listed :
      (w : h.World) (r : Request h.Credentials)
      → is_refused (execute h store settings db w r).action ≡ false
      → (a : Action) × (repo : Repo) × (parse_action h store settings db w r ≡ ok a)
        × (store.get_repo_by_url db a.url ≡ ok (some repo))
  unfolding execute Listed
  execute_listed w r pass =
      let o = run_checks h store settings db w r in
      let passed = clean_up_keeps o.world (noted h o) pass in
      elim (Result-cases (parse_action h store settings db w r)) [
        | inr (e, failed) ↦ absurd (clash (run_checks_failed w r e failed) passed)
        | inl (a, parsed) ↦
            let (repo, stored) =
              get_chain-Listed (chain_kind a.kind) w r a (parse_action_fresh w r a parsed).0
                (rw (← run_checks_parsed w r a parsed) passed) in
            (a, repo, parsed, stored)
      ]
