-- ===== src/Chain/DiffParser.antt =====
-- scan_diff.go, parseAddedChanges: the added lines of a unified diff. A line number is a natural
-- number: git prints none that a Go int cannot hold.
use git_proxy_go.Base.{
  ℕ, ◌+◌, Bool, true, false, ◌&&◌, ◌||◌, not, Option, none, some, List, [], ◌∷◌, ◌++◌, Str, codes,
  ◌==◌, leb, if◌then◌else◌, is_empty, drop, has_prefix, trim_prefix, trim_space, split, str_eq,
  read_digits,
}

pub record AddedChange : Type 0 where
  pub file : Str
  pub line : ℕ
  pub content : Str

unfoldable pub strip_diff_path : Str → Str
strip_diff_path p =
    let q = trim_space p in
    if str_eq q (codes "/dev/null")
    then []
    else if has_prefix q (codes "a/") || has_prefix q (codes "b/")
    then drop 2 q
    else q

is_digit : ℕ → Bool
is_digit c = leb b'0' c && leb c b'9'

-- The digits at the head, if there is one, and the rest.
unfoldable pub number : Str → Option (ℕ × Str)
unfolding is_digit
number [] = none
number (c ∷ s) = if is_digit c then some (read_digits 0 (c ∷ s)) else none

-- `(?:,\d+)?`: the count is optional.
unfoldable pub skip_count : Str → Str
unfolding number
skip_count [] = []
skip_count (c ∷ s) = if c == b',' then elim (number s) [ none ↦ c ∷ s | some p ↦ p.1 ] else c ∷ s

-- ^@@ -\d+(?:,\d+)? \+(\d+)
unfoldable pub hunk_start : Str → Option ℕ
unfolding skip_count
hunk_start raw =
    if has_prefix raw (codes "@@ -")
    then elim (number (drop 4 raw)) [
      | none ↦ none
      | some p ↦
          let rest = skip_count p.1 in
          if has_prefix rest (codes " +")
          then elim (number (drop 2 rest)) [ none ↦ none | some q ↦ some q.0 ]
          else none
    ]
    else none

-- The variables of the loop.
pub record Cursor : Type 0 where
  pub file : Str
  pub new_line : ℕ
  pub in_hunk : Bool
  pub out : List AddedChange

unfoldable pub diff_line : Cursor → Str → Cursor
unfolding strip_diff_path hunk_start
diff_line c raw =
    if has_prefix raw (codes "diff --git")
    then record c { in_hunk = false; file = [] }
    else if not c.in_hunk && has_prefix raw (codes "+++ ")
    then record c { file = strip_diff_path (trim_prefix raw (codes "+++ ")) }
    else if not c.in_hunk && has_prefix raw (codes "--- ")
    then (if is_empty c.file
        then record c { file = strip_diff_path (trim_prefix raw (codes "--- ")) }
        else c)
    else if has_prefix raw (codes "@@")
    then elim (hunk_start raw) [ none ↦ c | some n ↦ record c { new_line = n; in_hunk = true } ]
    else if c.in_hunk && has_prefix raw (codes "+")
    then record c {
      out = c.out ++ (record { file = c.file; line = c.new_line; content = raw }) ∷ [];
      new_line = c.new_line + 1;
    }
    else if c.in_hunk && has_prefix raw (codes "-")
    then c
    else if c.in_hunk && has_prefix raw (codes "\\")
    then c
    else if c.in_hunk
    then record c { new_line = c.new_line + 1 }
    else c

unfoldable pub diff_lines : Cursor → List Str → Cursor
diff_lines c [] = c
diff_lines c (raw ∷ rest) = diff_lines (diff_line c raw) rest

abbrev pub start : Cursor
start = record { file = []; new_line = 0; in_hunk = false; out = [] }

unfoldable pub parse_added_changes : Str → List AddedChange
unfolding diff_lines
parse_added_changes diff = (diff_lines start (split 10 diff)).out
