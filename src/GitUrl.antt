-- ===== src/GitUrl.antt =====
-- internal/giturl/giturl.go. The expressions are matched by hand, for texts with no line feed (a
-- request URI holds none): a greedy group ends at the last place from which the rest matches.
pub mod Parts
use mathlib.Core.Option
use git_proxy_go.Base.{
  ℕ, ◌≡◌, refl, Bool, true, false, ◌&&◌, ◌||◌, Option, none, some, List, [], ◌∷◌, ◌++◌, Str, codes,
  ltb, ◌==◌, str_eq, if◌then◌else◌, is_empty, length, drop, has_prefix, cut, split, join,
}

abbrev pub max_url_length : ℕ
max_url_length = 512

abbrev pub dot_git : Str
dot_git = codes ".git"

-- The text up to the end of its last ".git", and the rest.
unfoldable pub last_dot_git : Str → Option (Str × Str)
last_dot_git [] = none
last_dot_git (c ∷ s) = elim (last_dot_git s) [
  | some p ↦ some (c ∷ p.0, p.1)
  | none ↦ if has_prefix (c ∷ s) dot_git then some (dot_git, drop 4 (c ∷ s)) else none
]

-- `.+\.git`: at least one byte stands before the last ".git".
unfoldable pub repo_part : Str → Option (Str × Str)
unfolding last_dot_git
repo_part [] = none
repo_part (c ∷ s) = elim (last_dot_git s) [ some p ↦ some (c ∷ p.0, p.1) | none ↦ none ]

pub record GitUrlBreakdown : Type 0 where
  pub protocol : Str
  pub host : Str
  pub repo_path : Str

-- `([^/]+)(/.+\.git)(/.+)*`: the host goes up to the first slash.
unfoldable pub match_repo : Str → Option (Str × Str)
unfolding repo_part
match_repo s = elim (cut b'/' s) [
  | none ↦ none
  | some p ↦
      if is_empty p.0
      then none
      else Option.map (λ (q : Str × Str). (p.0, b'/' ∷ q.0)) (repo_part p.1)
]

-- `(.+://)` greedy, before what `match_repo` takes.
unfoldable pub match_protocol : Str → Option (Str × Str × Str)
unfolding match_repo
match_protocol [] = none
match_protocol (c ∷ s) = elim (match_protocol s) [
  | some (protocol, host, path) ↦ some (c ∷ protocol, host, path)
  | none ↦
      if has_prefix s (codes "://")
      then Option.map (λ (r : Str × Str). (c ∷ codes "://", r.0, r.1)) (match_repo (drop 3 s))
      else none
]

unfoldable pub process_git_url : Str → Option GitUrlBreakdown
unfolding match_protocol
process_git_url url =
    if ltb max_url_length (length url)
    then none
    else Option.map
        (λ (m : Str × Str × Str). record { protocol = m.0; host = m.1; repo_path = m.2 })
        (match_protocol url)

pub record UrlPathBreakdown : Type 0 where
  pub repo_path : Str
  pub git_path : Str

-- `(/.*)?` behind the repository, "/" where it is absent.
unfoldable pub git_path_of : Str → Str
git_path_of [] = codes "/"
git_path_of (c ∷ s) = if c == b'/' then c ∷ s else codes "/"

unfoldable pub process_url_path : Str → Option UrlPathBreakdown
unfolding repo_part git_path_of
process_url_path request_path =
    if ltb max_url_length (length request_path) then none else elim (repo_part request_path) [
      | none ↦ none
      | some p ↦ some (record { repo_path = p.0; git_path = git_path_of p.1 })
    ]

pub record GitNameBreakdown : Type 0 where
  pub project : Str
  pub repo_name : Str

-- `(?:(.*)/)?([^/]+\.git)` over the parts between slashes: the last part that fits is the name,
-- and the parts before it are the project.
unfoldable pub pick_name : List Str → Option (List Str × Str)
unfolding repo_part
pick_name [] = none
pick_name (part ∷ parts) = elim (pick_name parts) [
  | some p ↦ some (part ∷ p.0, p.1)
  | none ↦ elim (repo_part part) [ some q ↦ some ([], q.0) | none ↦ none ]
]

-- `([^/]+)/(?:(.*)/)?([^/]+\.git)`
unfoldable pub match_host : Str → Option (List Str × Str)
unfolding pick_name
match_host s = elim (cut b'/' s) [
  | none ↦ none
  | some p ↦ if is_empty p.0 then none else pick_name (split b'/' p.1)
]

-- `(.+://)` greedy, before what `match_host` takes.
unfoldable pub match_scheme : Str → Option (List Str × Str)
unfolding match_host
match_scheme [] = none
match_scheme (c ∷ s) = elim (match_scheme s) [
  | some r ↦ some r
  | none ↦ if has_prefix s (codes "://") then match_host (drop 3 s) else none
]

-- The scheme is optional, and a match may begin anywhere.
unfoldable pub match_name : Str → Option (List Str × Str)
unfolding match_scheme
match_name [] = none
match_name (c ∷ s) =
    let later = match_name s in
    elim (match_scheme (c ∷ s)) [
      | some r ↦ some r
      | none ↦ elim (match_host (c ∷ s)) [ some r ↦ some r | none ↦ later ]
    ]

unfoldable pub process_git_url_for_name_and_org : Str → Option GitNameBreakdown
unfolding match_name
process_git_url_for_name_and_org git_url =
    if ltb max_url_length (length git_url)
    then none
    else Option.map (λ r. record { project = join (codes "/") r.0; repo_name = r.1 })
        (match_name git_url)

-- `header` is `headers.Get`, "" where a header is absent.
unfoldable pub valid_git_request : Str → (Str → Str) → Bool
valid_git_request git_path header =
    let agent = header (codes "User-Agent") in
    let accept = header (codes "Accept") in
    if is_empty agent
    then false
    else if str_eq git_path (codes "/info/refs?service=git-upload-pack")
        || str_eq git_path (codes "/info/refs?service=git-receive-pack")
    then has_prefix agent (codes "git/")
    else if str_eq git_path (codes "/git-upload-pack")
        || str_eq git_path (codes "/git-receive-pack")
    then (if is_empty accept
        then false
        else has_prefix agent (codes "git/") && has_prefix accept (codes "application/x-git-"))
    else false

url_path_test :
    process_url_path (codes "/github.com/o/r.git/git-receive-pack")
    ≡ some
        (record { repo_path = codes "/github.com/o/r.git"; git_path = codes "/git-receive-pack" })
unfolding process_url_path has_prefix
url_path_test = refl

name_test :
    process_git_url_for_name_and_org (codes "https://github.com/o/p/r.git")
    ≡ some (record { project = codes "o/p"; repo_name = codes "r.git" })
unfolding process_git_url_for_name_and_org has_prefix cut split join
name_test = refl

git_url_test :
    process_git_url (codes "https://h.io/o/r.git/info/refs")
    ≡ some
        (record { protocol = codes "https://"; host = codes "h.io"; repo_path = codes "/o/r.git" })
unfolding process_git_url has_prefix cut
git_url_test = refl
