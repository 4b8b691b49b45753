-- ===== src/Settings/Compiled.antt =====
-- What the loader's checks of internal/config/config.go guarantee to the chain, which compiles each
-- expression of the commit policy again, with the flag i before it.
use git_proxy_go.Base.{
  ◌≡◌, refl, Bool, true, false, Option, none, some, List, [], ◌∷◌, ◌++◌, Str, codes, all,
  if◌then◌else◌, is_empty, to_lower, Result, err, ok, inl, inr, Bool-cases,
}
use git_proxy_go.Host.{Host, Regexp}
use git_proxy_go.Model.{Step}
use git_proxy_go.Chain.Action.{log}
use git_proxy_go.Chain.Checks.{
  compile_rule, compiled_rules, try_patterns, has_literal, blocked_line, message_block,
  is_message_allowed,
}
use git_proxy_go.Chain.Config.{EmailRules, MessageBlock, DiffBlock, DiffPattern, as_text, as_other}
use git_proxy_go.Chain.ScanDiff.{
  printed, quote_meta, literal_matchers, pattern_matchers, provider_matchers, diff_block,
  diff_matchers, is_private_organization, DiffMatcher,
}
use git_proxy_go.Chain.Context.{Settings, Store}
use git_proxy_go.Settings.Validate.{
  or_else, judged, check, check_optional, check_emails, check_message_block, check_diff_block,
  check_patterns, check_providers, check_messages,
}

pub or_else-none : (a b : Option Str) → or_else a b ≡ none → (a ≡ none) × (b ≡ none)
unfolding or_else
or_else-none none b h = (refl, h)
or_else-none (some e) b h = cc

is_text : DiffPattern → Bool
is_text (as_text p) = true
is_text (as_other p) = false

abbrev error_of : Bool × Step → Bool
error_of p = p.1.error

either_error :
    (found error : Bool) (blocked rest : Bool × Step)
    → blocked.1.error ≡ error
    → rest.1.error ≡ error
    → error_of (elim found [ true ↦ blocked | false ↦ rest ]) ≡ error
either_error true error blocked rest b r = b
either_error false error blocked rest b r = r

if_error :
    (test error : Bool) (blocked rest : Bool × Step)
    → blocked.1.error ≡ error
    → rest.1.error ≡ error
    → error_of (if test then blocked else rest) ≡ error
if_error true error blocked rest b r = b
if_error false error blocked rest b r = r

-- Every pattern of the block is a string.
unfoldable pub has_text_patterns : Option DiffBlock → Bool
unfolding is_text
has_text_patterns none = true
has_text_patterns (some block) = all is_text block.patterns

-- The expression as the chain compiles it.
abbrev pub Compiles : Host → Str → Type 0
Compiles h p = (re : Regexp) × (h.compile (codes "(?i)" ++ p) ≡ ok re)

-- Of package regexp: a flag at its start leaves an expression valid, also the empty one, and
-- QuoteMeta makes any text one.
pub record Flags (h : Host) : Type 0 where
  pub flagged : (p : Str) (re : Regexp) → h.compile p ≡ ok re → Compiles h p
  pub flagged_empty : Compiles h []
  pub quoted : (l : Str) → Compiles h (quote_meta l)

module _ (h : Host) (flags : Flags h) where
  judged-none :
      (context p : Str) (r : Result Regexp)
      → judged h context p r ≡ none
      → (re : Regexp) × (r ≡ ok re)
  unfolding judged
  judged-none context p (ok re) e = (re, refl)
  judged-none context p (err m) e = cc

  check-none : (context p : Str) → check h context p ≡ none → Compiles h p
  unfolding check
  check-none context [] e = flags.flagged_empty
  check-none context (c ∷ s) e =
      let (re, compiled) = judged-none context (c ∷ s) (h.compile (c ∷ s)) e in
      flags.flagged (c ∷ s) re compiled

  module _ (settings : Settings) where
    literals_compiled :
        (ls : List Str) → (ms : List DiffMatcher) × (literal_matchers h settings ls ≡ ok ms)
    unfolding literal_matchers
    literals_compiled [] = ([], refl)
    literals_compiled (l ∷ ls) =
        let (re, compiled) = flags.quoted l in
        let (ms, rest) = literals_compiled ls in
        (record { kind = codes "Offending Literal"; re = re } ∷ ms, rw (compiled, rest) refl)

    -- Every pattern is a string.
    patterns_compiled :
        (ps : List DiffPattern)
        → all is_text ps ≡ true
        → check_patterns h ps ≡ none
        → (ms : List DiffMatcher) × (pattern_matchers h settings ps ≡ ok ms)
    unfolding pattern_matchers check_patterns is_text printed
    patterns_compiled [] texts passed = ([], refl)
    patterns_compiled (as_text p ∷ ps) texts passed =
        let (first, others) =
          or_else-none (check h (codes "commitConfig.diff.block.patterns") p) (check_patterns h ps)
            passed in
        let (re, compiled) = check-none (codes "commitConfig.diff.block.patterns") p first in
        let (ms, rest) = patterns_compiled ps texts others in
        (
          record { kind = codes "Offending Pattern"; re = re } ∷ ms,
          rw (pattern_matchers, compiled, rest) refl,
        )
    patterns_compiled (as_other p ∷ ps) texts passed = cc

    providers_compiled :
        (ps : List (Str × Str))
        → check_providers h ps ≡ none
        → (ms : List DiffMatcher) × (provider_matchers h settings ps ≡ ok ms)
    unfolding provider_matchers check_providers
    providers_compiled [] passed = ([], refl)
    providers_compiled ((key, value) ∷ ps) passed =
        let (first, others) =
          or_else-none (check h (codes "commitConfig.diff.block.providers") value)
            (check_providers h ps) passed in
        let (re, compiled) = check-none (codes "commitConfig.diff.block.providers") value first in
        let (ms, rest) = providers_compiled ps others in
        (record { kind = key; re = re } ∷ ms, rw (provider_matchers, compiled, rest) refl)

    pub matchers_compiled :
        (organization : Str) (block : Option DiffBlock)
        → has_text_patterns block ≡ true
        → check_diff_block h block ≡ none
        → diff_block h settings ≡ block
        → (ms : List DiffMatcher) × (diff_matchers h settings organization ≡ ok ms)
    unfolding has_text_patterns check_diff_block diff_matchers
    matchers_compiled organization none texts passed given = ([], rw (diff_matchers, given) refl)
    matchers_compiled organization (some b) texts passed given =
        let (first, second) =
          or_else-none (check_patterns h b.patterns) (check_providers h b.providers) passed in
        let (literals, l) = literals_compiled b.literals in
        let (patterns, p) = patterns_compiled b.patterns texts first in
        let (providers, q) = providers_compiled b.providers second in
        elim (Bool-cases (is_private_organization h settings organization)) [
          | inl private ↦
              (literals ++ (patterns ++ []), rw (diff_matchers, given, l, p, private) refl)
          | inr public ↦
              (literals ++ (patterns ++ providers), rw (diff_matchers, given, l, p, public, q) refl)
        ]

    module _ (store : Store) (db : store.State) where
      rule_compiled :
          (context what : Str) (p : Option Str)
          → check_optional h context p ≡ none
          → (r : Option Regexp) × (compile_rule h store settings db what p ≡ ok r)
      unfolding check_optional compile_rule
      rule_compiled context what none passed = (none, refl)
      rule_compiled context what (some []) passed = (none, refl)
      rule_compiled context what (some (c ∷ s)) passed =
          let (re, compiled) = check-none context (c ∷ s) passed in
          (some re, rw (compile_rule, compiled) refl)

      pub rules_compiled :
          (rules : Option EmailRules)
          → check_emails h rules ≡ none
          → (r : Option Regexp × Option Regexp) × (compiled_rules h store settings db rules ≡ ok r)
      unfolding check_emails compiled_rules
      rules_compiled none passed = ((none, none), refl)
      rules_compiled (some rules) passed =
          let block = codes "commitConfig.author.email.local.block" in
          let allow = codes "commitConfig.author.email.domain.allow" in
          let (first, second) =
            or_else-none (check_optional h block rules.local_block)
              (check_optional h allow rules.domain_allow) passed in
          let (loc, l) =
            rule_compiled block (codes "compiling author email local rule: ") _ first in
          let (domain, d) =
            rule_compiled allow (codes "compiling author email domain rule: ") _ second in
          ((domain, loc), rw (compiled_rules, d, l) refl)

      patterns_error :
          (message : Str) (ps : List Str) (step : Step)
          → check_messages h ps ≡ none
          → (try_patterns h store settings db message ps step).1.error ≡ step.error
      unfolding check_messages try_patterns log
      patterns_error message [] step passed = refl
      patterns_error message (p ∷ ps) step passed =
          let context = codes "commitConfig.message.block.patterns" in
          let (first, others) = or_else-none (check h context p) (check_messages h ps) passed in
          let (re, compiled) = check-none context p first in
          rw (try_patterns, compiled)
            (either_error (re.match_string message) step.error _ _ refl
              (patterns_error message ps step others))

      block_error :
          (message : Str) (block : Option MessageBlock) (step : Step)
          → check_message_block h block ≡ none
          → error_of (elim block [
            | none ↦ (true, step)
            | some b ↦
                if has_literal h store settings db (to_lower h.unicode_lower message) b.literals
                then (false, log step (blocked_line h store settings db))
                else try_patterns h store settings db message b.patterns step
          ])
            ≡ step.error
      unfolding check_message_block log
      block_error message none step passed = refl
      block_error message (some b) step passed =
          if_error (has_literal h store settings db (to_lower h.unicode_lower message) b.literals)
            step.error _ _ refl (patterns_error message b.patterns step passed)

      pub message_error :
          (message : Str) (block : Option MessageBlock) (step : Step)
          → message_block h store settings db ≡ block
          → check_message_block h block ≡ none
          → (is_message_allowed h store settings db message step).1.error ≡ step.error
      unfolding is_message_allowed log
      message_error message block step given passed =
          rw (is_message_allowed, given)
            (if_error (is_empty message) step.error _ _ refl
              (block_error message block step passed))
