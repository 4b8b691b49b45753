-- ===== src/GitUrl/Parts.antt =====
-- The parts of a request path.
use git_proxy_go.Base.{
  ◌≡◌, refl, sym, ap, ◌∙◌, ◌≤◌, true, false, none, some, ℕ, codes, contains, if◌then◌else◌, [], ◌∷◌,
  ◌++◌, Str, arith, length, drop, has_prefix, Option-cases, Bool-cases, inl, inr,
}
use git_proxy_go.GitUrl.{
  UrlPathBreakdown, dot_git, last_dot_git, repo_part, git_path_of, process_url_path,
}

has_prefix_split : (s p : Str) → has_prefix s p ≡ true → p ++ drop (length p) s ≡ s
unfolding has_prefix
has_prefix_split s [] h = refl
has_prefix_split [] (p ∷ ps) h = ground (arith, h)
has_prefix_split (c ∷ s) (p ∷ ps) h = ground (arith, h, has_prefix_split s ps)

-- `a` is a text before ".git" with it, `b` follows it, and no later ".git" begins in what is left.
abbrev IsLast : Str → Str → Str → Type 0
IsLast s a b =
    (stem : Str) × (a ≡ stem ++ dot_git)
    × (a ++ b ≡ s)
    × (contains (codes "git" ++ b) dot_git ≡ false)

last_dot_git-none : (s : Str) → last_dot_git s ≡ none → contains s dot_git ≡ false
unfolding last_dot_git contains has_prefix
last_dot_git-none [] h = refl
last_dot_git-none (c ∷ s) h = elim (Option-cases (last_dot_git s)) [
  | inr (p, later) ↦ ground (arith, h, later)
  | inl last ↦ ground (arith, h, last, last_dot_git-none s last)
]

last_dot_git-IsLast : (s a b : Str) → last_dot_git s ≡ some (a, b) → IsLast s a b
unfolding last_dot_git
last_dot_git-IsLast [] a b h = ground (arith, h)
last_dot_git-IsLast (c ∷ s) a b h = elim (Option-cases (last_dot_git s)) [
  | inr ((p, q), later) ↦
      let left : c ∷ p ≡ a = ground (arith, h, later) in
      let right : q ≡ b = ground (arith, h, later) in
      let (stem, ends, whole, last) = last_dot_git-IsLast s p q later in
      rw (← left, ← right) (c ∷ stem, ap (λ t. c ∷ t) ends, ap (λ t. c ∷ t) whole, last)
  | inl last ↦ elim (Bool-cases (has_prefix (c ∷ s) dot_git)) [
    | inr no_suffix ↦ ground (arith, h, last, no_suffix)
    | inl here ↦
        let left : dot_git ≡ a = ground (arith, h, last, here) in
        let right : drop 4 (c ∷ s) ≡ b = ground (arith, h, last, here) in
        let whole = has_prefix_split (c ∷ s) dot_git here in
        rw (← left, ← right)
          ([], refl, whole, ap (λ t. contains (drop 1 t) dot_git) whole ∙ last_dot_git-none s last)
  ]
]

-- The path ends in ".git" behind one byte or more.
repo_part-IsLast :
    (s a b : Str)
    → repo_part s ≡ some (a, b)
    → (c : ℕ) × (stem : Str) × (a ≡ c ∷ stem ++ dot_git)
      × (a ++ b ≡ s)
      × (contains (codes "git" ++ b) dot_git ≡ false)
unfolding repo_part
repo_part-IsLast [] a b h = ground (arith, h)
repo_part-IsLast (c ∷ s) a b h = elim (Option-cases (last_dot_git s)) [
  | inl missing ↦ ground (arith, h, missing)
  | inr ((p, q), found) ↦
      let left : c ∷ p ≡ a = ground (arith, h, found) in
      let right : q ≡ b = ground (arith, h, found) in
      let (stem, ends, whole, last) = last_dot_git-IsLast s p q found in
      rw (← left, ← right) (c, stem, ap (λ t. c ∷ t) ends, ap (λ t. c ∷ t) whole, last)
]

git_path_of_lem :
    (rest : Str) → git_path_of rest ≡ (if has_prefix rest (codes "/") then rest else codes "/")
unfolding git_path_of has_prefix
git_path_of_lem [] = refl
git_path_of_lem (c ∷ s) = ground arith

-- A request path that splits is at most 512 bytes long and is the repository's path followed by some
-- rest. The repository's path is one byte or more and ".git", and no ".git" begins behind the one that
-- it ends in. The git path is the rest where that begins with a slash, and "/" otherwise.
pub process_url_path_split :
    (path : Str) (u : UrlPathBreakdown)
    → process_url_path path ≡ some u
    → (rest : Str) × (length path ≤ 512)
      × (u.repo_path ++ rest ≡ path)
      × ((c : ℕ) × (stem : Str) × (u.repo_path ≡ c ∷ stem ++ codes ".git"))
      × (contains (codes "git" ++ rest) (codes ".git") ≡ false)
      × (u.git_path ≡ (if has_prefix rest (codes "/") then rest else codes "/"))
unfolding process_url_path
process_url_path_split path u h = elim (Option-cases (repo_part path)) [
  | inl missing ↦ absurd (ground (arith, h, missing))
  | inr ((p, q), found) ↦
      let repo : p ≡ u.repo_path = ground (arith, h, found) in
      let git : git_path_of q ≡ u.git_path = ground (arith, h, found) in
      let (c, stem, ends, whole, last) = repo_part-IsLast path p q found in
      (
        q,
        ground (arith, h),
        ap (λ t. t ++ q) (sym repo) ∙ whole,
        (c, stem, sym repo ∙ ends),
        last,
        sym git ∙ git_path_of_lem q,
      )
]
