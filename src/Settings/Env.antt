-- ===== src/Settings/Env.antt =====
-- internal/config/env.go: what the program reads from its environment. `getenv` is `os.Getenv`.
use git_proxy_go.Base.{
  Bool, ◌||◌, Option, none, some, List, [], ◌∷◌, Str, codes, is_empty, if◌then◌else◌, str_eq, split,
  cut, trim_space,
}
use git_proxy_go.Ssh.KnownHosts.{put_host}

pub record ServerEnv : Type 0 where
  pub ui_port : Str
  pub https_ui_port : Str
  pub git_server_port : Str
  pub https_git_server_port : Str
  pub ui_host : Str
  pub ssh_enabled : Bool
  pub ssh_port : Str
  pub ssh_host_key_path : Str
  -- A map, with one entry for each host; the nil map is [].
  pub ssh_known_hosts : List (Str × Str)

-- The entry of one part between commas, where it has a host and a fingerprint.
unfoldable pub host_entry : Str → Option (Str × Str)
unfolding cut trim_space
host_entry entry = elim (cut b'=' (trim_space entry)) [
  | none ↦ none
  | some p ↦ if is_empty p.0 || is_empty p.1 then none else some p
]

unfoldable pub put_entry : List (Str × Str) → Option (Str × Str) → List (Str × Str)
unfolding put_host
put_entry hosts none = hosts
put_entry hosts (some (host, fp)) = put_host host fp hosts

unfoldable pub put_entries : List (Str × Str) → List Str → List (Str × Str)
unfolding put_entry host_entry
put_entries hosts [] = hosts
put_entries hosts (entry ∷ entries) = put_entries (put_entry hosts (host_entry entry)) entries

unfoldable pub parse_known_hosts : Str → List (Str × Str)
unfolding put_entries split
parse_known_hosts raw = if is_empty raw then [] else put_entries [] (split b',' raw)

module _ (getenv : Str → Str) where
  unfoldable pub env_or : Str → Str → Str
  env_or key fallback = if is_empty (getenv key) then fallback else getenv key

  unfoldable pub load_server_env : ServerEnv
  unfolding env_or parse_known_hosts
  load_server_env = record {
    ui_port = env_or (codes "GIT_PROXY_UI_PORT") (codes "8080");
    https_ui_port = env_or (codes "GIT_PROXY_HTTPS_UI_PORT") (codes "8444");
    git_server_port = env_or (codes "GIT_PROXY_SERVER_PORT") (codes "8000");
    https_git_server_port = env_or (codes "GIT_PROXY_HTTPS_SERVER_PORT") (codes "8443");
    ui_host = env_or (codes "GIT_PROXY_UI_HOST") (codes "http://localhost");
    ssh_enabled = str_eq (getenv (codes "GIT_PROXY_SSH_ENABLED")) (codes "true");
    ssh_port = env_or (codes "GIT_PROXY_SSH_PORT") (codes "2222");
    ssh_host_key_path = env_or (codes "GIT_PROXY_SSH_HOST_KEY_PATH") (codes ".ssh/proxy_host_key");
    ssh_known_hosts = parse_known_hosts (getenv (codes "GIT_PROXY_SSH_KNOWN_HOSTS"));
  }
