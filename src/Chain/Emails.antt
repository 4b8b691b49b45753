-- ===== src/Chain/Emails.antt =====
-- check_author_emails.go, isEmailAllowed: the form of an address and the configured rules.
use git_proxy_go.Base.{
  ℕ, Bool, true, false, ◌&&◌, ◌||◌, not, Option, none, some, List, [], ◌∷◌, Str, codes, leb, ◌==◌,
  if◌then◌else◌, is_empty, length, all, cut, split, get_last?,
}
use git_proxy_go.Host.{Regexp}

-- checkAuthorEmails: `emailRegex`, read as its two halves. A name byte stands before the "@", and
-- the domain is labels of 1 to 63 letters, digits and inner dashes between dots.
unfoldable pub is_alnum : ℕ → Bool
is_alnum c = (leb b'a' c && leb c b'z') || (leb b'A' c && leb c b'Z') || (leb b'0' c && leb c b'9')

has : List ℕ → ℕ → Bool
has [] c = false
has (x ∷ xs) c = c == x || has xs c

is_name_byte : ℕ → Bool
is_name_byte c = is_alnum c || has (codes ".!#$%&'*+/=?^_`{|}~-") c

unfoldable pub is_label : Str → Bool
unfolding is_alnum
is_label [] = false
is_label (c ∷ s) =
    is_alnum c
    && all (λ d. is_alnum d || d == b'-') s
    && leb (length s) 62
    && elim (get_last? s) [ none ↦ true | some d ↦ is_alnum d ]

unfoldable pub is_email : Str → Bool
unfolding is_label is_name_byte has
is_email email = elim (cut b'@' email) [
  | none ↦ false
  | some p ↦ not (is_empty p.0) && all is_name_byte p.0 && all is_label (split b'.' p.1)
]

abbrev pub matches : Option Regexp → Str → Bool
matches none s = false
matches (some re) s = re.match_string s

abbrev pub fails : Option Regexp → Str → Bool
fails none s = false
fails (some re) s = not (re.match_string s)

abbrev pub parts_of : Option (Str × Str) → Str → Str × Str
parts_of none email = (email, [])
parts_of (some p) email = p

unfoldable pub is_email_allowed : Str → Option Regexp → Option Regexp → Bool
is_email_allowed email domain_allow local_block =
    if is_empty email || not (is_email email)
    then false
    else let p = parts_of (cut b'@' email) email in
      if fails domain_allow p.1 then false else if matches local_block p.0 then false else true
