-- ===== src/Chain/Context.antt =====
-- What a processor is given and returns: the request with the values on its context, the store
-- (the chain's Store interface), and the outcome (chain.go, rawbody.go, ssh_clone.go).
use git_proxy_go.Base.{Bool, Option, none, some, List, Str, Result}
use git_proxy_go.Model.{Push, Repo, User, Attestation, Rejection, Step}
use git_proxy_go.Host.{Host}
use git_proxy_go.Chain.Action.{Action, add_step}
use git_proxy_go.Chain.Config.{Config}

-- ssh_clone.go: the credentials of a push that came by SSH.
pub record SshCloneAuth (C : Type 0) : Type 0 where
  pub user : Str
  pub credentials : C

-- `header` is `r.Header.Get`, and `raw_body` and `ssh_auth` are the values on the context.
pub record Request (C : Type 0) : Type 0 where
  pub method : Str
  pub request_uri : Str
  pub path : Str
  pub host : Str
  pub has_tls : Bool
  pub header : Str → Str
  pub basic_auth : Option (Str × Str)
  pub raw_body : Option Str
  pub ssh_auth : Option (SshCloneAuth C)

pub record UserQuery : Type 0 where
  pub username : Option Str
  pub email : Option Str

-- The chain's Store interface over the database's state.
pub record Store : Type 1 where
  pub State : Type 0
  pub get_repo_by_url : State → Str → Result (Option Repo)
  pub get_users : State → UserQuery → Result (List User)
  pub get_push : State → Str → Result (Option Push)
  pub write_audit : State → Push → State × Option Str
  pub authorise : State → Str → Attestation → State × Result Str
  pub reject : State → Str → Rejection → State × Result Str

-- The fields of Engine beside the store.
pub record Settings : Type 0 where
  pub config : Option Config
  pub remote_dir : Str
  pub ui_port : Str
  pub proxy_port : Str
  pub pre_receive_hook : Str

-- The world and the action behind a processor, and its error.
pub record Outcome (W : Type 0) : Type 0 where
  pub world : W
  pub action : Action
  pub failure : Option Str

abbrev pub Processor : Host → Type 0
Processor h = h.World → Request h.Credentials → Action → Outcome h.World

-- `a.AddStep(step); return a, nil`
abbrev pub finish : {W : Type 0} → W → Action → Step → Outcome W
finish w a step = record { world = w; action = add_step a step; failure = none }

-- `return a, err`
abbrev pub abort : {W : Type 0} → W → Action → Str → Outcome W
abort w a e = record { world = w; action = a; failure = some e }
