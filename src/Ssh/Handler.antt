-- ===== src/Ssh/Handler.antt =====
-- internal/proxy/ssh/githandler.go: the git commands of a client that forwards its agent. The upstream
-- session, the agent and the client's channel are given by what they yield; the copying of the upstream's
-- standard error is left out.
pub mod Checked
pub mod Laws
use git_proxy_go.Base.{
  ℕ, ◌^◌, Bool, true, false, not, ◌&&◌, ◌||◌, Option, none, some, List, [], ◌∷◌, ◌++◌, Str, codes,
  leb, is_empty, if◌then◌else◌, length, take, str_eq, Result, err, ok,
}
use mathlib.Core.List.{reverse}
use git_proxy_go.Host.{Host}
use git_proxy_go.Chain.Action.{Action}
use git_proxy_go.Chain.Context.{Request, Store, Settings, SshCloneAuth}
use git_proxy_go.Chain.Engine.{Executed, execute}
use git_proxy_go.Proxy.{Body}
use git_proxy_go.Ssh.Command.{split_host_repo, remote_command}
use git_proxy_go.Ssh.Request.{
  max_pack_bytes, RemoteSession, Upstream, GitRequest, Ran, client_error, block_message,
  chain_request, read_pack,
}
use git_proxy_go.Ssh.Advertisement.{read_ref_advertisement}

module _ (h : Host) (store : Store) (settings : Settings) where
  -- A refusal: the client is told, and nothing has reached the upstream host.
  unfoldable pub stop : store.State → h.World → Str → Str → Option Str → Ran store.State h.World
  unfolding client_error
  stop db w sent message failure = record {
    state = db;
    world = w;
    sent = sent;
    complaint = client_error message;
    upstream_input = none;
    status = 1;
    failure = failure;
  }

  unfoldable pub relay_end :
      RemoteSession → Str → Str → store.State → h.World → Ran store.State h.World
  relay_end sess sent input db w = record {
    state = db;
    world = w;
    sent = sent ++ sess.report input;
    complaint = [];
    upstream_input = some input;
    status = (sess.wait input).0;
    failure = (sess.wait input).1;
  }

  -- Behind the chain: the pack goes upstream unless the action is refused.
  unfoldable pub after_push_chain :
      RemoteSession → Str → Str → Executed store.State h.World → Ran store.State h.World
  unfolding stop relay_end block_message
  after_push_chain sess caps pack x =
      if x.action.error || x.action.blocked
      then stop x.state x.world caps (block_message x.action) none
      else elim (sess.write_error pack) [
        | none ↦ relay_end sess caps pack x.state x.world
        | some e ↦ record {
          state = x.state;
          world = x.world;
          sent = caps;
          complaint = [];
          upstream_input = some pack;
          status = 1;
          failure = some e;
        }
      ]

  unfoldable pub push_request :
      GitRequest h.Credentials → h.Credentials → Str → Request h.Credentials
  push_request r creds pack =
      chain_request r.op r.repo_path (some pack)
        (some (record { user = codes "git"; credentials = creds }))

  -- The client's pack: nothing of it is an end, and anything else goes through the chain.
  unfoldable pub with_pack :
      store.State
      → h.World
      → GitRequest h.Credentials
      → h.Credentials
      → RemoteSession
      → Str
      → Result Str
      → Ran store.State h.World
  unfolding stop push_request after_push_chain
  with_pack db w r creds sess caps (err e) =
      stop db w caps (codes "failed to read pack data: " ++ e) (some e)
  with_pack db w r creds sess caps (ok []) = record {
    state = db;
    world = w;
    sent = caps;
    complaint = [];
    upstream_input = none;
    status = 0;
    failure = none;
  }
  with_pack db w r creds sess caps (ok (b ∷ pack)) =
      after_push_chain sess caps (b ∷ pack)
        (execute h store settings db w (push_request r creds (b ∷ pack)))

  unfoldable pub with_advertisement :
      store.State
      → h.World
      → GitRequest h.Credentials
      → h.Credentials
      → RemoteSession
      → Result (Str × Str)
      → Ran store.State h.World
  unfolding stop with_pack read_pack
  with_advertisement db w r creds sess (err e) =
      stop db w [] (codes "failed to read upstream capabilities: " ++ e) (some e)
  with_advertisement db w r creds sess (ok (caps, _)) = elim (r.channel_error caps) [
    | some e ↦ record {
      state = db;
      world = w;
      sent = [];
      complaint = [];
      upstream_input = none;
      status = 1;
      failure = some e;
    }
    | none ↦ with_pack db w r creds sess caps (read_pack r.input)
  ]

  unfoldable pub with_push_session :
      store.State
      → h.World
      → GitRequest h.Credentials
      → h.Credentials
      → Result RemoteSession
      → Ran store.State h.World
  unfolding stop with_advertisement read_ref_advertisement
  with_push_session db w r creds (err e) =
      stop db w [] (codes "upstream connection failed: " ++ e) (some e)
  with_push_session db w r creds (ok sess) =
      with_advertisement db w r creds sess (read_ref_advertisement h.quote sess.stdout)

  -- The session of a pull: the client's input goes upstream as it is.
  unfoldable pub with_pull_session :
      store.State
      → h.World
      → GitRequest h.Credentials
      → Result RemoteSession
      → Ran store.State h.World
  unfolding stop relay_end
  with_pull_session db w r (err e) =
      stop db w [] (codes "upstream connection failed: " ++ e) (some e)
  with_pull_session db w r (ok sess) = relay_end sess sess.stdout r.input.content db w

  module _ (upstream : Upstream h.Credentials) where
    unfoldable pub handle_push :
        store.State → h.World → GitRequest h.Credentials → h.Credentials → Ran store.State h.World
    unfolding with_push_session split_host_repo remote_command
    handle_push db w r creds =
        let (host, path) = split_host_repo r.repo_path in
        with_push_session db w r creds (upstream.run host (remote_command r.op path) creds)

    unfoldable pub handle_pull :
        store.State → h.World → GitRequest h.Credentials → h.Credentials → Ran store.State h.World
    unfolding stop with_pull_session block_message chain_request split_host_repo remote_command
    handle_pull db w r creds =
        let (host, path) = split_host_repo r.repo_path in
        let x = execute h store settings db w (chain_request r.op r.repo_path none none) in
        if x.action.error || x.action.blocked
        then stop x.state x.world [] (block_message x.action) none
        else with_pull_session x.state x.world r
            (upstream.run host (remote_command r.op path) creds)

    unfoldable pub with_agent :
        store.State
        → h.World
        → GitRequest h.Credentials
        → Result h.Credentials
        → Ran store.State h.World
    unfolding stop handle_push handle_pull
    with_agent db w r (err e) =
        stop db w [] (codes "failed to access forwarded SSH agent: " ++ e) (some e)
    with_agent db w r (ok creds) =
        if str_eq r.op (codes "receive-pack")
        then handle_push db w r creds
        else if str_eq r.op (codes "upload-pack")
        then handle_pull db w r creds
        else stop db w [] (codes "unsupported operation: " ++ r.op) none

    unfoldable pub handle :
        store.State → h.World → GitRequest h.Credentials → Ran store.State h.World
    unfolding stop with_agent
    handle db w r =
        if r.agent_forwarding
        then with_agent db w r r.agent
        else stop db w []
            (codes
              "SSH agent forwarding is required.\n\nThe proxy authenticates to the upstream git server using your SSH keys via\nagent forwarding; your private keys never reach the proxy. Enable it with\n'ForwardAgent yes' (or 'ssh -A' / a per-host config) and ensure ssh-agent is\nrunning with your key loaded (ssh-add -l).")
            none
