-- ===== src/Ssh/Command.antt =====
-- internal/proxy/ssh/server.go: parseGitCommand and validateRepositoryPath, with the three regular
-- expressions written out, and splitHostRepo of githandler.go.
pub mod Laws
use git_proxy_go.Base.{
  ℕ, zero, suc, ◌==◌, leb, ltb, ◌-◌, Bool, true, false, not, ◌&&◌, ◌||◌, Option, none, some, List,
  [], ◌∷◌, ◌++◌, Str, codes, is_empty, if◌then◌else◌, str_eq, length, drop, all, get_last?,
  has_prefix, contains, split, trim_space, trim_prefix, Result, err, ok,
}
use mathlib.Core.Option

-- `\s` of a regular expression.
unfoldable pub is_re_space : ℕ → Bool
is_re_space c = c == 32 || c == 9 || c == 10 || c == 12 || c == 13

unfoldable pub drop_spaces : Str → Str
unfolding is_re_space
drop_spaces [] = []
drop_spaces (c ∷ s) = if is_re_space c then drop_spaces s else c ∷ s

last_space : ℕ → Str → ℕ
last_space c [] = c
last_space c (d ∷ s) = if is_re_space d then last_space d s else c

-- `[^']+`, greedy.
unfoldable pub until_quote : Str → Str
until_quote [] = []
until_quote (c ∷ s) = if c == b'\'' then [] else c ∷ until_quote s

drop_quote : Str → Str
drop_quote [] = []
drop_quote (c ∷ s) = if c == b'\'' then s else c ∷ s

-- Where nothing stands behind the white space and the quote, the group backs up to the last white-space
-- character, if there are two.
backed_up : ℕ → Str → Option Str
backed_up c [] = none
backed_up c (d ∷ s) = if is_re_space d then some (last_space c (d ∷ s) ∷ []) else none

group_or : Option Str → Str → Option Str
group_or other [] = other
group_or other (p ∷ path) = some (p ∷ path)

-- `\s+'?([^']+)'?` at the head of a text: the group.
unfoldable pub quoted_path : Str → Option Str
unfolding is_re_space drop_spaces last_space until_quote drop_quote backed_up group_or
quoted_path [] = none
quoted_path (c ∷ s) =
    if is_re_space c
    then group_or (backed_up c s) (until_quote (drop_quote (drop_spaces s)))
    else none

-- The operation and the path of `^git-(upload|receive)-pack\s+'?([^']+)'?`.
unfoldable pub match_command : Str → Option (Str × Str)
unfolding quoted_path
match_command s =
    if has_prefix s (codes "git-upload-pack")
    then Option.map (λ p. (codes "upload-pack", p)) (quoted_path (drop 15 s))
    else if has_prefix s (codes "git-receive-pack")
    then Option.map (λ p. (codes "receive-pack", p)) (quoted_path (drop 16 s))
    else none

unfoldable pub is_alnum : ℕ → Bool
is_alnum c = (leb b'a' c && leb c b'z') || (leb b'A' c && leb c b'Z') || (leb b'0' c && leb c b'9')

unfoldable pub is_path_char : ℕ → Bool
unfolding is_alnum
is_path_char c = is_alnum c || c == b'.' || c == b'_' || c == b'-' || c == b'/'

-- `^[a-zA-Z0-9._\-/]+\.git$`
unfoldable pub is_safe_path : Str → Bool
unfolding is_path_char
is_safe_path s =
    all is_path_char s && leb 5 (length s) && str_eq (drop (length s - 4) s) (codes ".git")

ends_alnum : Option ℕ → Bool
ends_alnum none = false
ends_alnum (some c) = is_alnum c

-- `[a-zA-Z0-9]([a-zA-Z0-9-]*[a-zA-Z0-9])?`
unfoldable pub is_label : Str → Bool
unfolding ends_alnum
is_label [] = false
is_label (c ∷ s) =
    is_alnum c && all (λ d. is_alnum d || d == b'-') (c ∷ s) && ends_alnum (get_last? (c ∷ s))

-- The labels between dots.
unfoldable pub is_hostname : Str → Bool
unfolding is_label
is_hostname s = all is_label (split b'.' s)

unfoldable pub three_parts : List Str → Bool
three_parts (a ∷ b ∷ c ∷ _) = true
three_parts _ = false

unfoldable pub first_part : List Str → Str
first_part [] = []
first_part (a ∷ _) = a

-- The error, if any.
unfoldable pub validate_repository_path : Str → Option Str
unfolding is_safe_path is_hostname three_parts first_part
validate_repository_path path =
    if not (is_safe_path path)
    then some (codes "invalid repository path format: " ++ path)
    else if contains path (codes "..") || contains path (codes "//")
    then some (codes "invalid repository path: contains path traversal sequences: " ++ path)
    else if not (three_parts (split b'/' path))
    then some (codes "invalid repository path: must be host/org/repo.git: " ++ path)
    else if not (is_hostname (first_part (split b'/' path)))
    then some (codes "invalid hostname in repository path: " ++ first_part (split b'/' path))
    else none

unfoldable pub checked_path : Str → Str → Option Str → Result (Str × Str)
checked_path op path none = ok (op, path)
checked_path op path (some e) = err e

unfoldable pub parsed_command : Str → Option (Str × Str) → Result (Str × Str)
unfolding checked_path validate_repository_path
parsed_command command none = err (codes "unsupported command: " ++ command)
parsed_command command (some (op, path)) =
    checked_path op (trim_prefix path (codes "/"))
      (validate_repository_path (trim_prefix path (codes "/")))

unfoldable pub parse_git_command : Str → Result (Str × Str)
unfolding match_command parsed_command
parse_git_command command = parsed_command command (match_command (trim_space command))

unfoldable pub split_at_slash : Str → Option (Str × Str)
split_at_slash [] = none
split_at_slash (c ∷ s) =
    let rest = split_at_slash s in
    if c == b'/' then some ([], c ∷ s) else Option.map (λ p. (c ∷ p.0, p.1)) rest

unfoldable pub or_root : Str → Option (Str × Str) → Str × Str
or_root full none = (full, codes "/")
or_root full (some p) = p

unfoldable pub split_host_repo : Str → Str × Str
unfolding split_at_slash or_root
split_host_repo full = or_root full (split_at_slash full)

-- The command that the upstream host is given: `git-%s '%s'`.
unfoldable pub remote_command : Str → Str → Str
remote_command op repo_path = codes "git-" ++ (op ++ (codes " '" ++ (repo_path ++ codes "'")))
