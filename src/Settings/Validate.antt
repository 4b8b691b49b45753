-- ===== src/Settings/Validate.antt =====
-- internal/config/config.go: the checks of a merged configuration: its required keys, and the
-- expressions of the commit policy. A loop or call that returns an error or nil gives an Option.
use git_proxy_go.Base.{
  Option, none, some, List, [], ◌∷◌, ◌++◌, Str, codes, if◌then◌else◌, member, join, Result, err, ok,
}
use git_proxy_go.Chain.Config.{
  CommitConfig, EmailRules, MessageBlock, DiffBlock, DiffPattern, as_text, as_other,
}
use git_proxy_go.Host.{Host, Regexp}

-- The first error of two calls.
unfoldable pub or_else : Option Str → Option Str → Option Str
or_else none second = second
or_else (some e) second = some e

abbrev pub required_top_level_keys : List Str
required_top_level_keys =
    codes "api"
    ∷ codes "apiAuthentication"
    ∷ codes "attestationConfig"
    ∷ codes "authentication"
    ∷ codes "authorisedList"
    ∷ codes "commitConfig"
    ∷ codes "configurationSources"
    ∷ codes "contactEmail"
    ∷ codes "cookieSecret"
    ∷ codes "csrfProtection"
    ∷ codes "domains"
    ∷ codes "plugins"
    ∷ codes "privateOrganizations"
    ∷ codes "rateLimit"
    ∷ codes "sessionMaxAgeHours"
    ∷ codes "sink"
    ∷ codes "tempPassword"
    ∷ codes "tls"
    ∷ codes "uiRouteAuth"
    ∷ codes "upstreamProxy"
    ∷ codes "urlShortener"
    ∷ []

unfoldable pub missing_keys : List Str → List Str → List Str
unfolding member
missing_keys raw [] = []
missing_keys raw (key ∷ keys) =
    let rest = missing_keys raw keys in if member raw key then rest else key ∷ rest

unfoldable pub assert_required_top_level : List Str → Option Str
unfolding missing_keys
assert_required_top_level raw = elim (missing_keys raw required_top_level_keys) [
  | [] ↦ none
  | key ∷ keys ↦
      some (
        codes "missing required top-level configuration values: " ++ join (codes ", ") (key ∷ keys))
]

module _ (h : Host) where
  unfoldable pub judged : Str → Str → Result Regexp → Option Str
  judged context p (ok re) = none
  judged context p (err e) = some (
      codes "invalid regular expression for "
      ++ (context ++ (codes ": " ++ (h.quote p ++ (codes ": " ++ e)))))

  -- `check` of validateCommitConfig.
  unfoldable pub check : Str → Str → Option Str
  unfolding judged
  check context [] = none
  check context (c ∷ s) = judged context (c ∷ s) (h.compile (c ∷ s))

  unfoldable pub check_optional : Str → Option Str → Option Str
  unfolding check
  check_optional context none = none
  check_optional context (some p) = check context p

  unfoldable pub check_emails : Option EmailRules → Option Str
  unfolding or_else check_optional
  check_emails none = none
  check_emails (some rules) =
      or_else (check_optional (codes "commitConfig.author.email.local.block") rules.local_block)
        (check_optional (codes "commitConfig.author.email.domain.allow") rules.domain_allow)

  unfoldable pub check_messages : List Str → Option Str
  unfolding or_else check
  check_messages [] = none
  check_messages (p ∷ ps) =
      or_else (check (codes "commitConfig.message.block.patterns") p) (check_messages ps)

  unfoldable pub check_message_block : Option MessageBlock → Option Str
  unfolding check_messages
  check_message_block none = none
  check_message_block (some block) = check_messages block.patterns

  unfoldable pub check_patterns : List DiffPattern → Option Str
  unfolding or_else check
  check_patterns [] = none
  check_patterns (as_text p ∷ ps) =
      or_else (check (codes "commitConfig.diff.block.patterns") p) (check_patterns ps)
  check_patterns (as_other p ∷ ps) = check_patterns ps

  unfoldable pub check_providers : List (Str × Str) → Option Str
  unfolding or_else check
  check_providers [] = none
  check_providers ((key, value) ∷ rest) =
      or_else (check (codes "commitConfig.diff.block.providers") value) (check_providers rest)

  unfoldable pub check_diff_block : Option DiffBlock → Option Str
  unfolding check_patterns check_providers or_else
  check_diff_block none = none
  check_diff_block (some block) =
      or_else (check_patterns block.patterns) (check_providers block.providers)

  unfoldable pub validate_commit_config : Option CommitConfig → Option Str
  unfolding or_else check_emails check_message_block check_diff_block
  validate_commit_config none = none
  validate_commit_config (some cc) =
      or_else (check_emails cc.author_email)
        (or_else (check_message_block cc.message_block) (check_diff_block cc.diff_block))
