-- ===== src/Startup/Hosts.antt =====
-- The hosts of proxiedHosts (cmd/git-proxy/main.go).
use git_proxy_go.Base.{Bool, false, ◌||◌, Option, none, some, List, [], ◌∷◌, Str, str_eq}
use git_proxy_go.Model.{Repo}
use git_proxy_go.GitUrl.{GitUrlBreakdown, process_git_url}

-- The URL is of that host.
unfoldable pub is_at : Str → Option GitUrlBreakdown → Bool
is_at host none = false
is_at host (some b) = str_eq b.host host

unfoldable pub some_at : Str → List Repo → Bool
unfolding is_at process_git_url
some_at host [] = false
some_at host (r ∷ repos) = is_at host (process_git_url r.url) || some_at host repos
