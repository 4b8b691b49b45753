-- ===== src/Chain/Engine.antt =====
-- chain.go and autoactions.go: the chains, and Execute.
use git_proxy_go.Base.{
  true, false, ◌||◌, not, Option, none, some, List, [], ◌∷◌, ◌++◌, Str, codes, if◌then◌else◌, show,
  is_empty, str_eq, Result, ok, err,
}
use git_proxy_go.Model.{Reviewer}
use git_proxy_go.GitUrl.{UrlPathBreakdown, process_url_path}
use git_proxy_go.Host.{Host}
use git_proxy_go.Chain.Action.{
  Action, empty_action, new_action, add_step, new_step, set_error, log, may_continue,
}
use git_proxy_go.Chain.Context.{Request, Store, Settings, Outcome, Processor}
use git_proxy_go.Chain.ParsePush.{parse_push}
use git_proxy_go.Chain.Checks.{
  check_empty_branch, check_repo_in_authorised_list, check_commit_messages, check_author_emails,
  check_user_push_permission,
}
use git_proxy_go.Chain.Clone.{pull_remote, write_pack}
use git_proxy_go.Chain.Inspect.{check_hidden_commits, pre_receive, get_diff}
use git_proxy_go.Chain.Gitleaks.{gitleaks}
use git_proxy_go.Chain.ScanDiff.{scan_diff}
use git_proxy_go.Chain.Gate.{check_if_waiting_auth, block_for_auth}

pub data ChainKind : Type 0 where
  pull_chain push_chain default_chain : ChainKind

-- `switch a.Type`.
unfoldable pub chain_kind : Str → ChainKind
chain_kind kind =
    if str_eq kind (codes "pull")
    then pull_chain
    else if str_eq kind (codes "push")
    then push_chain
    else default_chain

-- The type of the action, from the content type of the request.
unfoldable pub action_type : Str → Str
action_type content_type =
    if str_eq content_type (codes "application/x-git-upload-pack-request")
    then codes "pull"
    else if str_eq content_type (codes "application/x-git-receive-pack-request")
    then codes "push"
    else codes "default"

unfoldable pub repo_path_of : Option UrlPathBreakdown → Str
repo_path_of none = codes "NOT-FOUND"
repo_path_of (some b) = b.repo_path

abbrev pub system_reviewer : Reviewer
system_reviewer = record { username = codes "system"; email = codes "system@git-proxy.com" }

-- What Execute leaves: the database, the world and the action.
pub record Executed (S W : Type 0) : Type 0 where
  pub state : S
  pub world : W
  pub action : Action

module _ (h : Host) where
  -- The loop of Execute: a processor's error, a blocked or failed action, or an allowed one ends it.
  unfoldable pub run_chain :
      List (Processor h) → h.World → Request h.Credentials → Action → Outcome h.World
  run_chain [] w r a = record { world = w; action = a; failure = none }
  run_chain (fn ∷ rest) w r a =
      let o = fn w r a in
      elim o.failure [
        | some e ↦ o
        | none ↦ elim (not (may_continue o.action) || o.action.allow_push) [
          | true ↦ o
          | false ↦ run_chain rest o.world r o.action
        ]
      ]

  -- The error of the loop, noted on the action.
  unfoldable pub noted : Outcome h.World → Action
  noted o = elim o.failure [
    | none ↦ o.action
    | some e ↦ record (o.action) {
      push = record (o.action.push) { error = true; error_message = some e };
    }
  ]

  unfoldable pub clear_bare_clone : h.World → Action → h.World × Action
  clear_bare_clone w a =
      let step = new_step (codes "clearBareClone") in
      if is_empty a.proxy_git_path
      then (
        w,
        add_step a (set_error step (codes "action.proxyGitPath was not set and cannot be removed")),
      )
      else let (w', removed) = h.remove_all w a.proxy_git_path in
        (
          w',
          add_step a (elim removed [
            | some e ↦ set_error step e
            | none ↦ log step (codes ".remote is deleted!")
          ]),
        )

  unfoldable pub clean_up : h.World → Action → h.World × Action
  clean_up w a = if a.cleanup_clone then clear_bare_clone w a else (w, a)

module _ (h : Host) (store : Store) (settings : Settings) where
  unfoldable pub push_processors : store.State → List (Processor h)
  push_processors db =
      parse_push h
      ∷ check_empty_branch h store settings db
      ∷ check_repo_in_authorised_list h store settings db
      ∷ check_commit_messages h store settings db
      ∷ check_author_emails h store settings db
      ∷ check_user_push_permission h store settings db
      ∷ pull_remote h settings
      ∷ write_pack h
      ∷ check_hidden_commits h
      ∷ check_if_waiting_auth h store settings db
      ∷ pre_receive h settings
      ∷ get_diff h
      ∷ gitleaks h settings
      ∷ scan_diff h settings
      ∷ block_for_auth h store settings db
      ∷ []

  unfoldable pub get_chain : store.State → ChainKind → List (Processor h)
  get_chain db push_chain = push_processors db
  get_chain db _ = check_repo_in_authorised_list h store settings db ∷ []

  -- The address is on the named host, or on github.com where the store does not know it.
  unfoldable pub parse_action : store.State → h.World → Request h.Credentials → Result Action
  parse_action db w r =
      let id = h.unix_milli w in
      let path = repo_path_of (process_url_path r.request_uri) in
      let url = codes "https:/" ++ path in
      let build = λ (u : Str).
        new_action (show id) (action_type (r.header (codes "Content-Type"))) r.method id u in
      elim (store.get_repo_by_url db url) [
        | err e ↦ err e
        | ok none ↦ ok (build (codes "https://github.com" ++ path))
        | ok (some repo) ↦ ok (build url)
      ]

  -- The chain that the action asks for.
  unfoldable pub run_parsed :
      store.State → h.World → Request h.Credentials → Result Action → Outcome h.World
  run_parsed db w r (err e) = record { world = w; action = empty_action; failure = some e }
  run_parsed db w r (ok a) = run_chain h (get_chain db (chain_kind a.kind)) w r a

  -- The chain, up to the error that it leaves.
  unfoldable pub run_checks : store.State → h.World → Request h.Credentials → Outcome h.World
  unfolding run_parsed
  run_checks db w r = run_parsed db w r (parse_action db w r)

  -- A failed write is logged and not reported.
  unfoldable pub audit : store.State → Action → store.State
  audit db a = if str_eq a.kind (codes "pull") then db else (store.write_audit db a.push).0

  unfoldable pub attempt_auto_approval : store.State → h.World → Action → store.State
  attempt_auto_approval db w a =
      (store.authorise db a.id (record {
        reviewer = system_reviewer;
        timestamp = h.utc_rfc3339 w;
        automated = true;
        answers = [];
      })).0

  unfoldable pub attempt_auto_rejection : store.State → h.World → Action → store.State
  attempt_auto_rejection db w a =
      (store.reject db a.id (record {
        reviewer = system_reviewer;
        timestamp = h.utc_rfc3339 w;
        automated = true;
        reason = codes "Auto-rejected by system";
      })).0

  unfoldable pub auto_action : store.State → h.World → Action → store.State
  auto_action db w a =
      if a.auto_approved
      then attempt_auto_approval db w a
      else if a.auto_rejected
      then attempt_auto_rejection db w a
      else db

  unfoldable pub execute :
      store.State → h.World → Request h.Credentials → Executed store.State h.World
  unfolding run_checks noted
  execute db w r =
      let o = run_checks db w r in
      let (w', a) = clean_up h o.world (noted h o) in
      record { state = auto_action (audit db a) w' a; world = w'; action = a }
