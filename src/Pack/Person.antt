-- ===== src/Pack/Person.antt =====
-- Author and committer lines (personLine, isBlankPersonLine, parsePersonLine). The expression
-- ^(.*?) <(.*?)> (\d+) ([+-]\d+)$ is matched by hand: each lazy group ends at the first place
-- from which the rest of the line matches, and no group crosses a line feed.
use git_proxy_go.Base.{
  ℕ, Bool, true, false, ◌&&◌, ◌||◌, Option, none, some, [], ◌∷◌, ◌++◌, Str, codes, leb, ◌==◌,
  if◌then◌else◌, is_empty, Result, ok, err,
}

pub record PersonLine : Type 0 where
  pub name : Str
  pub email : Str
  pub timestamp : Str

abbrev pub blank : PersonLine
blank = record { name = []; email = []; timestamp = [] }

unfoldable pub is_blank_person_line : PersonLine → Bool
is_blank_person_line p = is_empty p.name && is_empty p.email && is_empty p.timestamp

unfoldable pub is_digit : ℕ → Bool
is_digit c = leb b'0' c && leb c b'9'

all_digits : Str → Bool
all_digits [] = true
all_digits (c ∷ s) = is_digit c && all_digits s

-- `[+-]\d+$`
is_zone : Str → Bool
is_zone (c ∷ d ∷ s) = (c == b'+' || c == b'-') && is_digit d && all_digits s
is_zone _ = false

-- `(\d+) ([+-]\d+)$`, behind the digits of the time stamp seen so far.
stamp_from : Bool → Str → Option Str
stamp_from seen [] = none
stamp_from seen (c ∷ s) =
    let rest = stamp_from true s in
    if is_digit c
    then elim rest [ none ↦ none | some t ↦ some (c ∷ t) ]
    else if seen && (c == b' ') && is_zone s
    then some []
    else none

-- `> (\d+) ([+-]\d+)$`
unfoldable pub match_tail : Str → Option Str
unfolding is_digit all_digits is_zone stamp_from
match_tail (c ∷ d ∷ s) = if c == b'>' && d == b' ' then stamp_from false s else none
match_tail _ = none

extend : ℕ → Option (Str × Str) → Option (Str × Str)
extend c none = none
extend c (some (e, t)) = some (c ∷ e, t)

-- `(.*?)> (\d+) ([+-]\d+)$`
unfoldable pub match_email : Str → Option (Str × Str)
unfolding match_tail extend
match_email [] = none
match_email (c ∷ s) =
    let later = extend c (match_email s) in
    elim (match_tail (c ∷ s)) [ some t ↦ some ([], t) | none ↦ if c == 10 then none else later ]

-- What stands behind " <" at the head, matched on.
unfoldable pub match_open : Str → Option (Str × Str)
unfolding match_email
match_open (c ∷ d ∷ s) = if c == b' ' && d == b'<' then match_email s else none
match_open _ = none

abbrev longer : ℕ → Option PersonLine → Option PersonLine
longer c none = none
longer c (some p) = some (record p { name = c ∷ p.name })

unfoldable pub match_person : Str → Option PersonLine
unfolding match_open
match_person [] = none
match_person (c ∷ s) =
    let later = longer c (match_person s) in
    elim (match_open (c ∷ s)) [
      | some p ↦ some (record { name = []; email = p.0; timestamp = p.1 })
      | none ↦ if c == 10 then none else later
    ]

-- `%q` of the line in the message is `quote`.
unfoldable pub parse_person_line : (Str → Str) → Str → Result PersonLine
unfolding match_person
parse_person_line quote line = elim (match_person line) [
  | some p ↦ ok p
  | none ↦ err (
      codes "failed to parse person line "
      ++ (quote line ++ codes ": include a name, email, timestamp and timezone offset"))
]
