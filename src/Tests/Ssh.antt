-- ===== src/Tests/Ssh.antt =====
-- What the theorems on SSH say of a client that pushes to and pulls from the repository of the fixture.
use git_proxy_go.Base.{
  ◌≡◌, refl, ◌⊎◌, true, false, some, [], ◌∷◌, ◌++◌, ℕ, arith, Str, codes, all, contains, has_prefix,
  trim_space, trim_prefix, str_eq, split, ok,
}
use git_proxy_go.Model.{Push}
use git_proxy_go.Chain.ParsePush.{RefUpdate, read_update}
use git_proxy_go.Chain.Outcome.{push_id}
use git_proxy_go.Pack.PktLine.RoundTrip.{encode_lines}
use git_proxy_go.Ssh.Command.{parse_git_command, is_safe_path, is_hostname, split_host_repo}
use git_proxy_go.Ssh.Command.Laws.{is_unquoted, parse_git_command_accepted}
use git_proxy_go.Ssh.Session.{handle_session, handle_session_first, agent_request, exec, runs}
use git_proxy_go.Ssh.Advertisement.{read_ref_advertisement}
use git_proxy_go.Ssh.Advertisement.RoundTrip.{read_ref_advertisement-encode_lines}
use git_proxy_go.Ssh.Request.{read_pack}
use git_proxy_go.Ssh.Handler.Laws.{handle_approved}
use git_proxy_go.Tests.SshRuns.{test_upstream, ssh_push, push_sent}
use git_proxy_go.Tests.Fixture.{test_host, test_store, test_settings, push_body, whole}

fetch_accepted :
    parse_git_command (codes "git-upload-pack '/github.com/o/r.git'")
    ≡ ok (codes "upload-pack", codes "github.com/o/r.git")
unfolding parse_git_command has_prefix trim_space trim_prefix str_eq contains split
fetch_accepted = refl

command_example :
    ((codes "upload-pack" ≡ codes "upload-pack") ⊎ (codes "upload-pack" ≡ codes "receive-pack"))
    × (is_safe_path (codes "github.com/o/r.git") ≡ true)
    × (contains (codes "github.com/o/r.git") (codes "..") ≡ false)
    × (contains (codes "github.com/o/r.git") (codes "//") ≡ false)
    × (all is_unquoted (codes "github.com/o/r.git") ≡ true)
    × ((host : Str) × (rest : Str) × (is_hostname host ≡ true)
        × (split_host_repo (codes "github.com/o/r.git") ≡ (host, b'/' ∷ rest))
        × (codes "github.com/o/r.git" ≡ host ++ b'/' ∷ rest))
command_example =
    parse_git_command_accepted (codes "git-upload-pack '/github.com/o/r.git'") (codes "upload-pack")
      (codes "github.com/o/r.git") fetch_accepted

session_example :
    handle_session false (agent_request ∷ exec (some (codes "c")) ∷ exec (some (codes "d")) ∷ [])
    ≡ record { agent_forwarding = true; replies = true ∷ true ∷ []; end = runs (codes "c") }
session_example =
    handle_session_first false (agent_request ∷ []) (exec (some (codes "d")) ∷ []) (codes "c") refl

advertisement_example :
    read_ref_advertisement
      (λ s. s)
      (encode_lines (codes "a refs/heads/main" ∷ []) ++ (codes "0000" ++ codes "x"))
    ≡ ok (encode_lines (codes "a refs/heads/main" ∷ []) ++ codes "0000", codes "x")
advertisement_example =
    read_ref_advertisement-encode_lines (λ s. s) (codes "a refs/heads/main" ∷ []) (codes "x")
      (omega arith, tt)

is_push : str_eq (codes "receive-pack") (codes "receive-pack") ≡ true
unfolding str_eq
is_push = refl

handle_approved_example :
    (n : ℕ) × (u : RefUpdate) × (e : Push) × (read_pack (whole push_body) ≡ ok push_body)
    × (read_update push_body ≡ ok (n, u))
    × (test_store.get_push tt (push_id u) ≡ ok (some e))
    × (e.authorised ≡ true)
    × (e.error ≡ false)
handle_approved_example =
    handle_approved test_host test_store test_settings test_upstream tt tt ssh_push push_body
      is_push push_sent
