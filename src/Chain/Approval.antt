-- ===== src/Chain/Approval.antt =====
-- What the chain of a push lets through: only a push whose stored record is authorised.
use git_proxy_go.Base.{
  ◌≡◌, sym, ◌∙◌, ap, Bool, true, false, not, ◌&&◌, ◌||◌, none, some, List, [], ◌∷◌, arith, Str, ok,
  err, inl, inr, Result-cases, Bool-cases,
}
use git_proxy_go.Model.{Push}
use git_proxy_go.Host.{Host}
use git_proxy_go.Chain.Action.{
  Action, add_step, set_async_block, set_allow_push, may_continue, set_error, new_step,
}
use git_proxy_go.Chain.Context.{Request, Store, Settings, Processor}
use git_proxy_go.Chain.Gate.{adopt, check_if_waiting_auth, block_for_auth}
use git_proxy_go.Chain.Checks.{
  check_empty_branch, check_repo_in_authorised_list, check_commit_messages, check_author_emails,
  check_user_push_permission,
}
use git_proxy_go.Chain.Clone.{pull_remote, write_pack}
use git_proxy_go.Chain.Inspect.{check_hidden_commits, pre_receive, get_diff}
use git_proxy_go.Chain.Gitleaks.{gitleaks}
use git_proxy_go.Chain.ScanDiff.{scan_diff}
use git_proxy_go.Chain.Engine.{run_chain, noted}
use git_proxy_go.Chain.Keeps.{
  Same, check_repo_keeps, check_empty_keeps, check_messages_keeps, check_emails_keeps,
  check_permission_keeps,
}
use git_proxy_go.Chain.KeepsClone.{
  pull_remote_keeps, write_pack_keeps, hidden_keeps, get_diff_keeps, pre_receive_keeps,
  gitleaks_keeps, scan_diff_keeps,
}

-- Execute's caller forwards a request whose action has neither an error nor a block.
unfoldable pub is_refused : Action → Bool
is_refused a = a.error || a.blocked

module _ (h : Host) where
  -- The step that stops a run either refuses it or has allowed it.
  pub run_step :
      (fn : Processor h) (rest : List (Processor h)) (w : h.World) (r : Request h.Credentials)
      (a : Action)
      → ((fn w r a).action.allow_push ≡ false)
      → (is_refused (noted h (run_chain h (fn ∷ rest) w r a)) ≡ false)
      → (is_refused (noted h (run_chain h rest (fn w r a).world r (fn w r a).action)) ≡ false)
  unfolding run_chain noted is_refused may_continue
  run_step fn rest w r a allow pass = ground arith

  block_refuses :
      (store : Store) (settings : Settings) (db : store.State) (w : h.World)
      (r : Request h.Credentials) (a : Action)
      → is_refused (noted h (run_chain h (block_for_auth h store settings db ∷ []) w r a)) ≡ true
  unfolding run_chain noted is_refused may_continue block_for_auth add_step set_async_block new_step
  block_refuses store settings db w r a = ground arith

module _ (h : Host) (store : Store) (settings : Settings) (db : store.State) where
  -- The stored push under an id, authorised and without an error.
  unfoldable pub Approved : Str → Type 0
  Approved id =
      (e : Push) × (store.get_push db id ≡ ok (some e)) × (e.authorised ≡ true) × (e.error ≡ false)

  -- Processors that let a push with the id through only if its record is approved.
  unfoldable pub Guards : List (Processor h) → Request h.Credentials → Str → Type 0
  Guards fns r id =
      (w : h.World) (a : Action)
      → a.id ≡ id
      → a.allow_push ≡ false
      → is_refused (noted h (run_chain h fns w r a)) ≡ false
      → Approved id

  behind :
      (fn : Processor h) (rest : List (Processor h)) (r : Request h.Credentials) (id : Str)
      → ((w : h.World) (a : Action) → Same a (fn w r a).action)
      → Guards rest r id
      → Guards (fn ∷ rest) r id
  unfolding Guards
  behind fn rest r id keeps guards w a named allow pass =
      let s = keeps w a in
      guards (fn w r a).world (fn w r a).action (s.id ∙ named) (s.allow_push ∙ allow)
        (run_step h fn rest w r a (s.allow_push ∙ allow) pass)

  waiting_fails :
      (rest : List (Processor h)) (w : h.World) (r : Request h.Credentials) (a : Action) (e : Str)
      → store.get_push db a.id ≡ err e
      → is_refused (noted h (run_chain h (check_if_waiting_auth h store settings db ∷ rest) w r a))
        ≡ true
  unfolding run_chain noted is_refused may_continue check_if_waiting_auth add_step set_error
      new_step
  waiting_fails rest w r a e stored = ground arith

  waiting_unknown :
      (w : h.World) (r : Request h.Credentials) (a : Action)
      → store.get_push db a.id ≡ ok none
      → Same a (check_if_waiting_auth h store settings db w r a).action
  unfolding check_if_waiting_auth adopt add_step
  waiting_unknown w r a stored = ground arith

  waiting_pending :
      (w : h.World) (r : Request h.Credentials) (a : Action) (e : Push)
      → store.get_push db a.id ≡ ok (some e)
      → (not a.error && e.authorised) ≡ false
      → Same a (check_if_waiting_auth h store settings db w r a).action
  unfolding check_if_waiting_auth adopt add_step
  waiting_pending w r a e stored pending = ground arith

  waiting_approved :
      (rest : List (Processor h)) (w : h.World) (r : Request h.Credentials) (a : Action) (e : Push)
      → store.get_push db a.id ≡ ok (some e)
      → (not a.error && e.authorised) ≡ true
      → is_refused (noted h (run_chain h (check_if_waiting_auth h store settings db ∷ rest) w r a))
        ≡ false
      → (e.authorised ≡ true) × (e.error ≡ false)
  unfolding run_chain noted is_refused may_continue check_if_waiting_auth adopt set_allow_push
      add_step new_step
  waiting_approved rest w r a e stored approved pass = ground arith

  -- From the gate on, a push without an error whose stored record is authorised and without an error is
  -- not refused, whatever processors follow the gate.
  pub approved_passes :
      (rest : List (Processor h)) (w : h.World) (r : Request h.Credentials) (a : Action) (e : Push)
      → store.get_push db a.id ≡ ok (some e)
      → e.authorised ≡ true
      → e.error ≡ false
      → a.error ≡ false
      → is_refused (noted h (run_chain h (check_if_waiting_auth h store settings db ∷ rest) w r a))
        ≡ false
  unfolding run_chain noted is_refused may_continue check_if_waiting_auth adopt set_allow_push
      add_step new_step
  approved_passes rest w r a e stored authorised fine clean = ground arith

  -- The gate, by what the store holds.
  gate-Guards :
      (rest : List (Processor h)) (r : Request h.Credentials) (id : Str)
      → Guards rest r id
      → Guards (check_if_waiting_auth h store settings db ∷ rest) r id
  unfolding Guards Approved
  gate-Guards rest r id guards w a named allow pass =
      let gate = check_if_waiting_auth h store settings db in
      let on : Same a (gate w r a).action → Approved id = λ s.
        guards (gate w r a).world (gate w r a).action (s.id ∙ named) (s.allow_push ∙ allow)
          (run_step h gate rest w r a (s.allow_push ∙ allow) pass) in
      elim (Result-cases (store.get_push db a.id)) [
        | inr (e, failed) ↦ ground (arith, waiting_fails rest w r a e failed)
        | inl (none, stored) ↦ on (waiting_unknown w r a stored)
        | inl (some e, stored) ↦ elim (Bool-cases (not a.error && e.authorised)) [
          | inr pending ↦ on (waiting_pending w r a e stored pending)
          | inl approved ↦
              let (authorised, fine) = waiting_approved rest w r a e stored approved pass in
              (e, ap (store.get_push db) (sym named) ∙ stored, authorised, fine)
        ]
      ]

  block-Guards :
      (r : Request h.Credentials) (id : Str) → Guards (block_for_auth h store settings db ∷ []) r id
  unfolding Guards
  block-Guards r id w a named allow pass = ground (arith, block_refuses h store settings db w r a)

  -- The checks between the parser and the end.
  pub rest-Guards :
      (r : Request h.Credentials) (id : Str)
      → Guards
          (check_empty_branch h store settings db
            ∷ check_repo_in_authorised_list h store settings db
            ∷ check_commit_messages h store settings db
            ∷ check_author_emails h store settings db
            ∷ check_user_push_permission h store settings db
            ∷ pull_remote h settings
            ∷ write_pack h
            ∷ check_hidden_commits h
            ∷ check_if_waiting_auth h store settings db
            ∷ pre_receive h settings
            ∷ get_diff h
            ∷ gitleaks h settings
            ∷ scan_diff h settings
            ∷ block_for_auth h store settings db
            ∷ [])
          r
          id
  rest-Guards r id =
      behind _ _ r id (λ w a. check_empty_keeps h store settings db w r a)
        (behind _ _ r id (λ w a. check_repo_keeps h store settings db w r a)
          (behind _ _ r id (λ w a. check_messages_keeps h store settings db w r a)
            (behind _ _ r id (λ w a. check_emails_keeps h store settings db w r a)
              (behind _ _ r id (λ w a. check_permission_keeps h store settings db w r a)
                (behind _ _ r id (λ w a. pull_remote_keeps h settings w r a)
                  (behind _ _ r id (λ w a. write_pack_keeps h w r a)
                    (behind _ _ r id (λ w a. hidden_keeps h w r a)
                      (gate-Guards _ r id (
                        behind _ _ r id (λ w a. pre_receive_keeps h settings w r a)
                          (behind _ _ r id (λ w a. get_diff_keeps h w r a)
                            (behind _ _ r id (λ w a. gitleaks_keeps h settings w r a)
                              (behind _ _ r id (λ w a. scan_diff_keeps h settings w r a)
                                (block-Guards r id)))))))))))))
