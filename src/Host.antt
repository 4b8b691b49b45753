-- ===== src/Host.antt =====
-- What the chain uses and does not implement: the clock, the file system, processes (git, the
-- pre-receive hook, gitleaks), go-git's clone, compress/zlib and regexp, as operations on an
-- abstract world. Also the tables of Unicode, `%q`, encoding/json on a list of strings, and path/filepath, which depends on the system.
use git_proxy_go.Base.{ℕ, Bool, Option, List, Str, Result}
use git_proxy_go.Pack.Objects.{Stream}

-- A compiled regular expression.
pub record Regexp : Type 0 where
  pub match_string : Str → Bool
  pub find_all : Str → List Str

-- `os.ReadDir`: an absent directory is told apart from other failures.
pub data Listing : Type 0 where
  entries : List Str → Listing
  absent : Listing
  failed : Str → Listing

-- How a child process ended: its exit code, by a signal (Go's code -1), or not started.
pub data Exit : Type 0 where
  exited : ℕ → Exit
  signaled : Exit
  not_started : Str → Exit

pub record Finished : Type 0 where
  pub exit : Exit
  pub stdout : Str
  pub stderr : Str

pub record Host : Type 1 where
  pub World : Type 0
  -- The signers and the host-key callback of a forwarded agent.
  pub Credentials : Type 0
  pub unix_milli : World → ℕ
  pub utc_rfc3339 : World → Str
  pub unicode_lower : Str → Str
  pub quote : Str → Str
  pub join_path : Str → Str → Str
  pub abs_path : Str → Result Str
  pub is_windows : Bool
  pub json_strings : List Str → Str
  -- net/url: the host name and the path of a text that parses.
  pub parse_url : Str → Option (Str × Str)
  pub zlib : Str → Result Stream
  pub compile : Str → Result Regexp
  pub stat : World → Str → Bool
  pub file_readable : World → Str → Bool
  pub read_dir : World → Str → Listing
  pub mkdir_all : World → Str → World × Option Str
  pub remove_all : World → Str → World × Option Str
  -- The directory, the input and the arguments of a git process; its output and its error.
  pub exec_git : World → Str → Option Str → List Str → World × Str × Option Str
  -- The directory, the address, the name and password, and the depth.
  pub plain_clone : World → Str → Str → Option (Str × Str) → ℕ → World × Option Str
  pub plain_clone_ssh : World → Str → Str → Str → Credentials → ℕ → World × Option Str
  -- The program, its directory and its input.
  pub run_hook : World → Str → Str → Str → World × Finished
  -- The directory and the arguments of gitleaks.
  pub run_gitleaks : World → Str → List Str → World × Finished
