-- ===== src/Ssh/Handler/Laws.antt =====
-- What has been shown where bytes of a client reach the upstream host over SSH.
use git_proxy_go.Base.{
  clash, ◌≡◌, refl, ap, ◌∙◌, arith, ◌⊎◌, inl, inr, ℕ, true, false, ◌||◌, none, some, Str, codes,
  str_eq, str_eq_iff, Bool-cases, Result, err, ok,
}
use git_proxy_go.Model.{Push, Repo}
use git_proxy_go.Host.{Host}
use git_proxy_go.Chain.Action.{Action}
use git_proxy_go.Chain.Context.{Request, Store, Settings}
use git_proxy_go.Chain.ParsePush.{RefUpdate, read_update, body_of}
use git_proxy_go.Chain.Engine.{execute, parse_action}
use git_proxy_go.Chain.Approval.{is_refused}
use git_proxy_go.Chain.Outcome.{push_id, execute_approved, execute_listed}
use git_proxy_go.Ssh.Command.{split_host_repo, remote_command}
use git_proxy_go.Ssh.Request.{Upstream, GitRequest, chain_request, ssh_header, read_pack}
use git_proxy_go.Ssh.Handler.{stop, push_request, handle_push, handle_pull, with_agent, handle}
use git_proxy_go.Ssh.Handler.Checked.{none_not_some, Checked, with_push_session-Checked}

differ : str_eq (codes "receive-pack") (codes "upload-pack") ≡ false
unfolding str_eq
differ = refl

-- The two commands are two.
not_both :
    (op : Str) → str_eq op (codes "receive-pack") ≡ true → str_eq op (codes "upload-pack") ≡ false
not_both op h = ap (λ s. str_eq s (codes "upload-pack")) ((str_eq_iff op _).0 h) ∙ differ

module _ (h : Host) (store : Store) (settings : Settings) where
  -- The request of a command is for a repository of the store.
  abbrev pub Listed : store.State → h.World → Request h.Credentials → Type 0
  Listed db w r =
      (a : Action) × (repo : Repo) × (parse_action h store settings db w r ≡ ok a)
      × (store.get_repo_by_url db a.url ≡ ok (some repo))

  handle_pull-Listed :
      (upstream : Upstream h.Credentials) (db : store.State) (w : h.World)
      (r : GitRequest h.Credentials) (creds : h.Credentials) (b : Str)
      → (handle_pull h store settings upstream db w r creds).upstream_input ≡ some b
      → Listed db w (chain_request r.op r.repo_path none none)
  unfolding handle_pull stop
  handle_pull-Listed upstream db w r creds b e =
      let x = execute h store settings db w (chain_request r.op r.repo_path none none) in
      elim (Bool-cases (x.action.error || x.action.blocked)) [
        | inl refused ↦ absurd (ground arith)
        | inr fine ↦
            execute_listed h store settings db w (chain_request r.op r.repo_path none none)
              (unfold is_refused in fine)
      ]

  with_agent-cases :
      (upstream : Upstream h.Credentials) (db : store.State) (w : h.World)
      (r : GitRequest h.Credentials) (opened : Result h.Credentials) (b : Str)
      → (with_agent h store settings upstream db w r opened).upstream_input ≡ some b
      → ((str_eq r.op (codes "receive-pack") ≡ true) × Checked h store settings db w r b)
        ⊎ ((str_eq r.op (codes "upload-pack") ≡ true)
            × Listed db w (chain_request r.op r.repo_path none none))
  unfolding with_agent stop handle_push
  with_agent-cases upstream db w r (err m) b e = absurd (none_not_some e)
  with_agent-cases upstream db w r (ok creds) b e =
      elim (Bool-cases (str_eq r.op (codes "receive-pack"))) [
        | inl push ↦ inl (
          push,
          with_push_session-Checked h store settings db w r creds b
              (upstream.run (split_host_repo r.repo_path).0
                (remote_command r.op (split_host_repo r.repo_path).1) creds)
              (ground (arith, e, push)),
        )
        | inr other ↦ elim (Bool-cases (str_eq r.op (codes "upload-pack"))) [
          | inl pull ↦
              inr
                (pull, handle_pull-Listed upstream db w r creds b (ground (arith, e, other, pull)))
          | inr neither ↦ absurd (ground arith)
        ]
      ]

  handle-cases :
      (upstream : Upstream h.Credentials) (db : store.State) (w : h.World)
      (r : GitRequest h.Credentials) (b : Str)
      → (handle h store settings upstream db w r).upstream_input ≡ some b
      → ((str_eq r.op (codes "receive-pack") ≡ true) × Checked h store settings db w r b)
        ⊎ ((str_eq r.op (codes "upload-pack") ≡ true)
            × Listed db w (chain_request r.op r.repo_path none none))
  unfolding handle stop
  handle-cases upstream db w r b e = elim (Bool-cases r.agent_forwarding) [
    | inl on ↦ with_agent-cases upstream db w r r.agent b (ground (arith, e, on))
    | inr off ↦ absurd (ground arith)
  ]

  push_header :
      (r : GitRequest h.Credentials) (creds : h.Credentials) (b : Str)
      → str_eq r.op (codes "receive-pack") ≡ true
      → (push_request h store settings r creds b).header (codes "Content-Type")
        ≡ codes "application/x-git-receive-pack-request"
  unfolding push_request chain_request ssh_header str_eq
  push_header r creds b push = ground (arith, push)

  raw_is_body :
      (r : GitRequest h.Credentials) (creds : h.Credentials) (b : Str) {n : ℕ} {u : RefUpdate}
      → read_update (body_of h (push_request h store settings r creds b).raw_body) ≡ ok (n, u)
      → read_update b ≡ ok (n, u)
  unfolding push_request chain_request
  raw_is_body r creds b e = e

  -- Bytes that a receive-pack command writes to the upstream host are the client's, up to the limit;
  -- read_update reads one branch update from them; and the store holds an authorised record without
  -- error under the id of its two commits.
  pub handle_approved :
      (upstream : Upstream h.Credentials) (db : store.State) (w : h.World)
      (r : GitRequest h.Credentials) (b : Str)
      → str_eq r.op (codes "receive-pack") ≡ true
      → (handle h store settings upstream db w r).upstream_input ≡ some b
      → (n : ℕ) × (u : RefUpdate) × (e : Push) × (read_pack r.input ≡ ok b)
        × (read_update b ≡ ok (n, u))
        × (store.get_push db (push_id u) ≡ ok (some e))
        × (e.authorised ≡ true)
        × (e.error ≡ false)
  handle_approved upstream db w r b push sent = elim (handle-cases upstream db w r b sent) [
    | inr (pull, _) ↦ absurd (clash pull (not_both r.op push))
    | inl (_, (creds, read, fine)) ↦
        let (n, u, e, parsed, stored, authorised, good) =
          execute_approved h store settings db w (push_request h store settings r creds b)
            (push_header r creds b push) fine in
        (n, u, e, read, (raw_is_body r creds b parsed), stored, authorised, good)
  ]

  -- Whatever an upload-pack command writes to the upstream host, the repository of the command is in the
  -- store under the address that parseAction gives the action.
  pub handle_listed :
      (upstream : Upstream h.Credentials) (db : store.State) (w : h.World)
      (r : GitRequest h.Credentials) (b : Str)
      → str_eq r.op (codes "upload-pack") ≡ true
      → (handle h store settings upstream db w r).upstream_input ≡ some b
      → (a : Action) × (repo : Repo) × (parse_action h store settings db w
            (chain_request r.op r.repo_path none none)
          ≡ ok a)
        × (store.get_repo_by_url db a.url ≡ ok (some repo))
  handle_listed upstream db w r b pull sent = elim (handle-cases upstream db w r b sent) [
    | inl (push, _) ↦ absurd (clash pull (not_both r.op push))
    | inr (_, listed) ↦ listed
  ]
