-- ===== src/Ssh/Session.antt =====
-- internal/proxy/ssh/server.go: authenticate, handleSession and handleExec's parsing. The requests of a
-- session channel are a list, and the connection's agent-forwarding flag is a state.
use git_proxy_go.Base.{
  ◌≡◌, ap, ◌∙◌, arith, Bool, true, false, ◌||◌, Option, none, some, List, [], ◌∷◌, ◌++◌, map, Str,
  codes, any, all, Result, err, ok, trim_space,
}
use git_proxy_go.Model.{User}

-- What finding the user of a key yields.
unfoldable pub key_user : Result (Option User) → Result Str
key_user (err e) = err (codes "authentication error")
key_user (ok none) = err (codes "public key not recognised")
key_user (ok (some user)) = ok user.username

-- `marshal` stands for `ssh.MarshalAuthorizedKey`.
unfoldable pub authenticate :
    {K : Type 0} → (Str → Result (Option User)) → (K → Str) → K → Result Str
unfolding key_user
authenticate find_user_by_ssh_key marshal key =
    key_user (find_user_by_ssh_key (trim_space (marshal key)))

-- A request on the channel; the payload of `exec` is none where it does not decode.
pub data ChannelRequest : Type 0 where
  agent_request unsupported : ChannelRequest
  exec : Option Str → ChannelRequest

-- How a session ends: its requests end, its exec request is malformed, or a command runs.
pub data End : Type 0 where
  closed malformed : End
  runs : Str → End

-- The connection's flag, the replies to the requests, and the end.
pub record Handled : Type 0 where
  pub agent_forwarding : Bool
  pub replies : List Bool
  pub end : End

replied : Bool → Handled → Handled
replied r h = record h { replies = r ∷ h.replies }

unfoldable pub handle_session : Bool → List ChannelRequest → Handled
unfolding replied
handle_session flag [] = record { agent_forwarding = flag; replies = []; end = closed }
handle_session flag (agent_request ∷ reqs) = replied true (handle_session true reqs)
handle_session flag (unsupported ∷ reqs) = replied false (handle_session flag reqs)
handle_session flag (exec none ∷ reqs) = record {
  agent_forwarding = flag;
  replies = false ∷ [];
  end = malformed;
}
handle_session flag (exec (some command) ∷ reqs) = record {
  agent_forwarding = flag;
  replies = true ∷ [];
  end = runs command;
}

-- A request that does not end the session, and whether it asks for an agent.
abbrev pub goes_on : ChannelRequest → Bool
goes_on (exec _) = false
goes_on _ = true

abbrev pub is_agent_request : ChannelRequest → Bool
is_agent_request agent_request = true
is_agent_request _ = false

-- A session runs the command of its first exec request, whatever follows it; agent forwarding is on if
-- it was on before or one of the requests ahead asked for it; and the requests ahead are granted
-- exactly where they ask for it.
pub handle_session_first :
    (flag : Bool) (ahead behind : List ChannelRequest) (command : Str)
    → all goes_on ahead ≡ true
    → handle_session flag (ahead ++ exec (some command) ∷ behind) ≡ record {
      agent_forwarding = flag || any is_agent_request ahead;
      replies = map is_agent_request ahead ++ true ∷ [];
      end = runs command;
    }
unfolding handle_session
handle_session_first flag [] behind command h = ground arith
handle_session_first flag (agent_request ∷ ahead) behind command h =
    ap (replied true) (handle_session_first true ahead behind command h) ∙ ground arith
handle_session_first flag (unsupported ∷ ahead) behind command h =
    ap (replied false) (handle_session_first flag ahead behind command h)
handle_session_first flag (exec o ∷ ahead) behind command h = cc
