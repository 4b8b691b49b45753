-- ===== src/Ssh/Command/Laws.antt =====
-- What a command that the SSH server accepts looks like.
use git_proxy_go.Base.{
  clash, ◌≡◌, refl, sym, ap, ◌∙◌, arith, ◌⊎◌, inl, inr, ℕ, ◌==◌, ==_iff, Bool, true, false, not,
  ◌&&◌, ◌||◌, Option, none, some, List, [], ◌∷◌, ◌++◌, Str, codes, all, drop, contains, split,
  prepend, trim_space, trim_prefix, has_prefix, if◌then◌else◌, Bool-cases, ok,
}
use mathlib.Core.Option
use git_proxy_go.Ssh.Command.{
  match_command, quoted_path, is_alnum, is_path_char, is_safe_path, is_hostname, three_parts,
  first_part, validate_repository_path, checked_path, parsed_command, parse_git_command,
  split_at_slash, or_root, split_host_repo,
}

none_not_some {ℓ} : {A : Type ℓ} {a : A} → ¬ (Option.none ≡ some a)
none_not_some h = cc

only_none {ℓ} :
    {A : Type ℓ} (b : Bool) (e : A) (m : Option A)
    → (if b then some e else m) ≡ none
    → (b ≡ false) × (m ≡ none)
only_none true e m h = absurd (none_not_some (sym h))
only_none false e m h = (refl, h)

-- The shape of a path that the server accepts: its characters, its end, no `..` and no `//`, and a host
-- name ahead of its first slash.
abbrev pub IsAccepted : Str → Type 0
IsAccepted path =
    (is_safe_path path ≡ true)
    × (contains path (codes "..") ≡ false)
    × (contains path (codes "//") ≡ false)
    × (three_parts (split b'/' path) ≡ true)
    × (is_hostname (first_part (split b'/' path)) ≡ true)

validate-IsAccepted : (path : Str) → validate_repository_path path ≡ none → IsAccepted path
unfolding validate_repository_path
validate-IsAccepted path h =
    let (safe, h) = only_none (not (is_safe_path path)) _ _ h in
    let (still, h) = only_none (contains path (codes "..") || contains path (codes "//")) _ _ h in
    let (parts, h) = only_none (not (three_parts (split b'/' path))) _ _ h in
    let (host, h) = only_none (not (is_hostname (first_part (split b'/' path)))) _ _ h in
    (
      not_false _ safe,
      neither_left _ _ still,
      neither_right _ _ still,
      not_false _ parts,
      not_false _ host,
    )
  where
    not_false : (b : Bool) → not b ≡ false → b ≡ true
    not_false b h = ground arith

    neither_left : (a b : Bool) → (a || b) ≡ false → a ≡ false
    neither_left a b h = ground arith

    neither_right : (a b : Bool) → (a || b) ≡ false → b ≡ false
    neither_right a b h = ground arith

checked_path-ok :
    (op path : Str) (e : Option Str) {op' path' : Str}
    → checked_path op path e ≡ ok (op', path')
    → (e ≡ none) × (op ≡ op') × (path ≡ path')
unfolding checked_path
checked_path-ok op path none h = (refl, cc, cc)
checked_path-ok op path (some e) h = cc

parsed_command-ok :
    (command : Str) (m : Option (Str × Str)) {op path : Str}
    → parsed_command command m ≡ ok (op, path)
    → IsAccepted path × ((p : Str) × (m ≡ some (op, p)))
unfolding parsed_command
parsed_command-ok command none h = cc
parsed_command-ok command (some (o, p)) h =
    let (valid, ops, paths) = checked_path-ok o (trim_prefix p (codes "/")) _ h in
    (
      rw (← paths) (validate-IsAccepted (trim_prefix p (codes "/")) valid),
      (p, ap (λ o. some (o, p)) ops),
    )

map_op :
    (name : Str) (m : Option Str) {op p : Str}
    → Option.map {B = Str × Str} (λ p. (name, p)) m ≡ some (op, p)
    → op ≡ name
map_op name none h = absurd (none_not_some h)
map_op name (some p) h = cc

match_command_op :
    (s : Str) {op p : Str}
    → match_command s ≡ some (op, p)
    → (op ≡ codes "upload-pack") ⊎ (op ≡ codes "receive-pack")
unfolding match_command
match_command_op s h = elim (Bool-cases (has_prefix s (codes "git-upload-pack"))) [
  | inl up ↦ inl (map_op _ (quoted_path (drop 15 s)) (sym (ap (choose s) up) ∙ h))
  | inr other ↦ elim (Bool-cases (has_prefix s (codes "git-receive-pack"))) [
    | inl receive ↦ inr (
        map_op _ (quoted_path (drop 16 s))
          (sym (ap (choose s) other ∙ ap (choose_receive s) receive) ∙ h))
    | inr neither ↦
        absurd (none_not_some (sym (ap (choose s) other ∙ ap (choose_receive s) neither) ∙ h))
  ]
]
  where
    choose_receive : Str → Bool → Option (Str × Str)
    choose_receive s b =
        if b then Option.map (λ p. (codes "receive-pack", p)) (quoted_path (drop 16 s)) else none

    choose : Str → Bool → Option (Str × Str)
    choose s b =
        if b
        then Option.map (λ p. (codes "upload-pack", p)) (quoted_path (drop 15 s))
        else choose_receive s (has_prefix s (codes "git-receive-pack"))

abbrev pub is_unquoted : ℕ → Bool
is_unquoted c = not (c == b'\'')

path_char_unquoted : (c : ℕ) → is_path_char c ≡ true → is_unquoted c ≡ true
unfolding is_path_char is_alnum
path_char_unquoted c h = ground arith

all_unquoted : (s : Str) → all is_path_char s ≡ true → all is_unquoted s ≡ true
all_unquoted [] h = refl
all_unquoted (c ∷ s) h =
    let (first, rest) = both (is_path_char c) (all is_path_char s) h in
    ap (λ b. b && all is_unquoted s) (path_char_unquoted c first) ∙ all_unquoted s rest
  where
    both : (a b : Bool) → (a && b) ≡ true → (a ≡ true) × (b ≡ true)
    both a b h = ground arith

safe_unquoted : (path : Str) → is_safe_path path ≡ true → all is_unquoted path ≡ true
unfolding is_safe_path
safe_unquoted path h = all_unquoted path (first_of _ _ _ h)
  where
    first_of : (a b c : Bool) → (a && b && c) ≡ true → a ≡ true
    first_of a b c h = ground arith

two_parts : List Str → Bool
two_parts (a ∷ b ∷ _) = true
two_parts _ = false

two_parts-prepend : (c : ℕ) (l : List Str) → two_parts (prepend c l) ≡ two_parts l
unfolding two_parts prepend
two_parts-prepend c [] = refl
two_parts-prepend c (p ∷ []) = refl
two_parts-prepend c (p ∷ q ∷ ps) = refl

first_part-prepend :
    (c : ℕ) (l : List Str) → two_parts l ≡ true → first_part (prepend c l) ≡ c ∷ first_part l
unfolding two_parts prepend first_part
first_part-prepend c [] h = cc
first_part-prepend c (p ∷ ps) h = refl

-- A path of more than one part is split ahead of its first slash.
split_at_slash_lem :
    (path : Str)
    → two_parts (split b'/' path) ≡ true
    → (rest : Str) × (split_at_slash path ≡ some (first_part (split b'/' path), b'/' ∷ rest))
      × (path ≡ first_part (split b'/' path) ++ b'/' ∷ rest)
split_at_slash_lem [] h = absurd (clash h empty_one)
  where
    empty_one : two_parts (split b'/' []) ≡ false
    empty_one = unfold split two_parts in refl
split_at_slash_lem (c ∷ s) h = elim (Bool-cases (c == b'/')) [
  | inl slash ↦ (
    s,
    at_slash c s slash
        ∙ ap (λ p. some (p, c ∷ s)) (sym (first_empty c s slash))
        ∙ ap (λ d. some (first_part (split b'/' (c ∷ s)), d ∷ s)) ((==_iff c b'/').0 slash),
    ap (λ d. d ∷ s) ((==_iff c b'/').0 slash)
        ∙ ap (λ p. p ++ b'/' ∷ s) (sym (first_empty c s slash)),
  )
  | inr other ↦
      let two = sym (two_parts-prepend c _) ∙ ap two_parts (sym (split_other c s other)) ∙ h in
      let (rest, e, whole) = split_at_slash_lem s two in
      let first = ap first_part (split_other c s other) ∙ first_part-prepend c _ two in
      (
        rest,
        later_slash c s other
            ∙ ap (Option.map (λ p. (c ∷ p.0, p.1))) e
            ∙ ap (λ p. some (p, b'/' ∷ rest)) (sym first),
        ap (λ t. c ∷ t) whole ∙ ap (λ p. p ++ b'/' ∷ rest) (sym first),
      )
]
  where
    at_slash : (c : ℕ) (s : Str) → (c == b'/') ≡ true → split_at_slash (c ∷ s) ≡ some ([], c ∷ s)
    at_slash c s slash = unfold split_at_slash in rw slash refl

    later_slash :
        (c : ℕ) (s : Str)
        → (c == b'/') ≡ false
        → split_at_slash (c ∷ s) ≡ Option.map (λ p. (c ∷ p.0, p.1)) (split_at_slash s)
    later_slash c s other = unfold split_at_slash in rw other refl

    first_empty : (c : ℕ) (s : Str) → (c == b'/') ≡ true → first_part (split b'/' (c ∷ s)) ≡ []
    first_empty c s slash = unfold split first_part in rw slash refl

    split_other :
        (c : ℕ) (s : Str) → (c == b'/') ≡ false → split b'/' (c ∷ s) ≡ prepend c (split b'/' s)
    split_other c s other = unfold split in rw other refl

two_of_three : (l : List Str) → three_parts l ≡ true → two_parts l ≡ true
unfolding two_parts three_parts
two_of_three [] h = cc
two_of_three (a ∷ []) h = cc
two_of_three (a ∷ b ∷ l) h = refl

-- Of an accepted command, the operation is one of the two of git, and the path has only letters, digits,
-- dots, underscores, dashes and slashes, ends in .git behind at least one character, has no `..`, no
-- `//` and no quote, and is a host name and, from its first slash on, the path that the upstream
-- host is given.
pub parse_git_command_accepted :
    (command op path : Str)
    → parse_git_command command ≡ ok (op, path)
    → ((op ≡ codes "upload-pack") ⊎ (op ≡ codes "receive-pack"))
      × (is_safe_path path ≡ true)
      × (contains path (codes "..") ≡ false)
      × (contains path (codes "//") ≡ false)
      × (all is_unquoted path ≡ true)
      × ((host : Str) × (rest : Str) × (is_hostname host ≡ true)
          × (split_host_repo path ≡ (host, b'/' ∷ rest))
          × (path ≡ host ++ b'/' ∷ rest))
unfolding parse_git_command split_host_repo or_root
parse_git_command_accepted command op path h =
    let (accepted, (p, matched)) = parsed_command-ok command _ h in
    let (rest, e, whole) = split_at_slash_lem path (two_of_three _ accepted.3) in
    (
      match_command_op (trim_space command) matched,
      accepted.0,
      accepted.1,
      accepted.2,
      safe_unquoted path accepted.0,
      (first_part (split b'/' path), rest, accepted.4, ap (or_root path) e, whole),
    )
