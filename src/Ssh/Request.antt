-- ===== src/Ssh/Request.antt =====
-- internal/proxy/ssh: the upstream session and a client's command as the handler sees them, the messages
-- to the client, and the request that the chain is given (githandler.go, upstream.go).
use git_proxy_go.Base.{
  ℕ, ◌^◌, Bool, true, false, ◌&&◌, Option, none, some, [], ◌∷◌, ◌++◌, Str, codes, leb,
  if◌then◌else◌, length, take, str_eq, Result, err, ok,
}
use mathlib.Core.List.{reverse}
use git_proxy_go.Chain.Action.{Action}
use git_proxy_go.Chain.Context.{Request, SshCloneAuth}
use git_proxy_go.Proxy.{Body}

abbrev pub max_pack_bytes : ℕ
max_pack_bytes = 2 ^ 30

-- A session on the upstream host: its output before it is given any input, the error of writing to it,
-- its output behind the input, and how it ends.
pub record RemoteSession : Type 0 where
  pub stdout : Str
  pub write_error : Str → Option Str
  pub report : Str → Str
  pub wait : Str → ℕ × Option Str

-- `sshUpstream.Run`: the host and the command.
pub record Upstream (C : Type 0) : Type 0 where
  pub run : Str → Str → C → Result RemoteSession

-- `agent` is what opening the forwarded agent yields, `input` what the client sends, and
-- `channel_error` the error of writing to the client.
pub record GitRequest (C : Type 0) : Type 0 where
  pub op : Str
  pub repo_path : Str
  pub agent_forwarding : Bool
  pub agent : Result C
  pub input : Body
  pub channel_error : Str → Option Str

-- What a command comes to: what the client is sent on its two streams, what is written to the
-- upstream host (none where nothing is), the exit status and the error.
pub record Ran (S W : Type 0) : Type 0 where
  pub state : S
  pub world : W
  pub sent : Str
  pub complaint : Str
  pub upstream_input : Option Str
  pub status : ℕ
  pub failure : Option Str

trim_newlines : Str → Str
trim_newlines [] = []
trim_newlines (c ∷ s) = elim (leb 10 c && leb c 10) [ true ↦ trim_newlines s | false ↦ c ∷ s ]

-- `strings.TrimRight(msg, "\n")` in a line of its own.
unfoldable pub client_error : Str → Str
unfolding trim_newlines
client_error m = codes "git-proxy: " ++ (reverse (trim_newlines (reverse m)) ++ codes "\n")

text_or : Option Str → Str → Str
text_or (some (c ∷ s)) other = c ∷ s
text_or _ other = other

unfoldable pub block_message : Action → Str
unfolding text_or
block_message a =
    text_or a.blocked_message (text_or a.error_message (codes "request blocked by git-proxy"))

unfoldable pub ssh_header : Str → Str → Str
ssh_header content_type name =
    if str_eq name (codes "User-Agent")
    then codes "git/ssh-proxy"
    else if str_eq name (codes "Content-Type")
    then content_type
    else if str_eq name (codes "X-Forwarded-Proto")
    then codes "https"
    else []

unfoldable pub chain_request :
    {C : Type 0} → Str → Str → Option Str → Option (SshCloneAuth C) → Request C
unfolding ssh_header
chain_request op path pack auth =
    let push = str_eq op (codes "receive-pack") in
    let target = b'/' ∷ path ++ (codes "/git-" ++ op) in
    record {
      method = if push then codes "POST" else codes "GET";
      request_uri = target;
      path = target;
      host = [];
      has_tls = false;
      header = ssh_header (
          if push
          then codes "application/x-git-receive-pack-request"
          else codes "application/x-git-upload-pack-request");
      basic_auth = none;
      raw_body = pack;
      ssh_auth = auth;
    }

-- The bytes that the limited reader gives: what lies behind the limit is cut off.
unfoldable pub read_pack : Body → Result Str
read_pack b =
    if leb max_pack_bytes (length b.content)
    then ok (take max_pack_bytes b.content)
    else elim b.failure [ none ↦ ok b.content | some e ↦ err e ]
