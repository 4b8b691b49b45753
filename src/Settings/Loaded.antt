-- ===== src/Settings/Loaded.antt =====
-- What a configuration that LoadFile of internal/config/config.go returns gives the chain.
use git_proxy_go.Base.{
  ◌≡◌, refl, ap, sym, ◌∙◌, true, Option, none, some, List, Str, codes, Result, err, ok, ◌>>=◌,
  >>=-eq-ok,
}
use git_proxy_go.Host.{Host, Regexp}
use git_proxy_go.Model.{Step}
use git_proxy_go.Chain.Checks.{compiled_rules, email_rules, is_message_allowed}
use git_proxy_go.Chain.Config.{Config, CommitConfig, DiffBlock}
use git_proxy_go.Chain.ScanDiff.{diff_block, diff_matchers, DiffMatcher}
use git_proxy_go.Chain.Context.{Settings, Store}
use git_proxy_go.Settings.Validate.{
  or_else, check_emails, check_message_block, check_diff_block, validate_commit_config,
}
use git_proxy_go.Settings.Load.{
  Loader, AppConfig, unless, finished, checked, checked_text, merged_with, with_file, required,
  validate_schema, wrapped, load_file, apply_env_overrides,
}
use git_proxy_go.Settings.Compiled.{
  Flags, or_else-none, has_text_patterns, matchers_compiled, rules_compiled, message_error,
}

unless-ok :
    (e : Option Str) (r : Result AppConfig) (a : AppConfig)
    → unless e r ≡ ok a
    → (e ≡ none) × (r ≡ ok a)
unfolding unless
unless-ok none r a h = (refl, h)
unless-ok (some e) r a h = cc

finished-valid :
    (h : Host) (l : Loader) (getenv : Str → Str) (source : Str) (decoded cfg : AppConfig)
    → finished h l getenv source decoded ≡ ok cfg
    → validate_commit_config h cfg.config.commit_config ≡ none
unfolding finished
finished-valid h l getenv source decoded cfg e =
    let c = apply_env_overrides getenv (record decoded { source = source }) in
    let (valid, same) = unless-ok (validate_commit_config h c.config.commit_config) (ok c) cfg e in
    sym (
      ap
        (λ r. elim r as (λ x. Option Str) [
          | ok a ↦ validate_commit_config h a.config.commit_config
          | err m ↦ none
        ])
        same)
    ∙ valid

load_file-valid :
    (h : Host) (l : Loader) (getenv : Str → Str) (path : Str) (cfg : AppConfig)
    → load_file h l getenv path ≡ ok cfg
    → validate_commit_config h cfg.config.commit_config ≡ none
unfolding load_file merged_with checked checked_text
load_file-valid h l getenv path cfg e =
    let (defaults, d, after_defaults) =
      >>=-eq-ok (wrapped (codes "loading default config: ") l.defaults)
        (merged_with h l getenv path) e in
    let ((document, source), b, after_merge) =
      >>=-eq-ok (with_file h l getenv defaults path) (checked h l getenv) after_defaults in
    let (merged, m, after_marshal) =
      >>=-eq-ok (wrapped (codes "marshaling merged config: ") (l.marshal document))
        (checked_text h l getenv document source) after_merge in
    let (valid, v, after_schema) =
      >>=-eq-ok (validate_schema h l getenv merged)
        (λ valid. required h l getenv document >>= finished h l getenv source) after_marshal in
    let (decoded, u, after_decoding) =
      >>=-eq-ok (required h l getenv document) (finished h l getenv source) after_schema in
    finished-valid h l getenv source decoded cfg after_decoding

unfoldable pub diff_block_of : Option CommitConfig → Option DiffBlock
diff_block_of none = none
diff_block_of (some policy) = policy.diff_block

module _ (h : Host) (flags : Flags h) (store : Store) (db : store.State) (settings : Settings)
    (c : Config) (given : settings.config ≡ some c) where
  policy_compiled :
      (policy : Option CommitConfig)
      → c.commit_config ≡ policy
      → has_text_patterns (diff_block_of policy) ≡ true
      → validate_commit_config h policy ≡ none
      → ((r : Option Regexp × Option Regexp) × (compiled_rules h store settings db
              (email_rules h store settings db)
            ≡ ok r))
        × ((organization : Str)
            → (ms : List DiffMatcher) × (diff_matchers h settings organization ≡ ok ms))
        × ((message : Str) (step : Step)
            → (is_message_allowed h store settings db message step).1.error ≡ step.error)
  unfolding validate_commit_config compiled_rules diff_block diff_block_of check_emails
      check_message_block check_diff_block has_text_patterns
  policy_compiled none present texts valid = (
    ((none, none), rw (given, present) refl),
    (λ organization.
        matchers_compiled h flags settings organization none refl refl (rw (given, present) refl)),
    λ message step.
        message_error h flags settings store db message none step (rw (given, present) refl) refl,
  )
  policy_compiled (some policy) present texts valid =
      let (emails, others) =
        or_else-none (check_emails h policy.author_email)
          (or_else (check_message_block h policy.message_block)
            (check_diff_block h policy.diff_block))
          valid in
      let (messages, diff) =
        or_else-none (check_message_block h policy.message_block)
          (check_diff_block h policy.diff_block) others in
      let (rules, compiled) = rules_compiled h flags settings store db policy.author_email emails in
      (
        (rules, ap (compiled_rules h store settings db) (rw (given, present) refl) ∙ compiled),
        (λ organization.
            matchers_compiled h flags settings organization policy.diff_block texts diff
              (rw (given, present) refl)),
        λ message step.
            message_error h flags settings store db message policy.message_block step
              (rw (given, present) refl) messages,
      )

-- Assumed of package regexp: a flag ahead leaves an expression valid, also the empty one, and
-- QuoteMeta makes any text an expression. Where the program runs with a configuration that LoadFile
-- returned and in which every pattern of diff.block is a string, the chain's address rules and, for
-- every organisation, its diff matchers compile, and the check of a message leaves the error flag
-- of its step as it is.
pub load_file_compiled :
    (h : Host) (flags : Flags h) (l : Loader) (getenv : Str → Str) (path : Str) (cfg : AppConfig)
    (store : Store) (db : store.State) (settings : Settings)
    → load_file h l getenv path ≡ ok cfg
    → settings.config ≡ some cfg.config
    → has_text_patterns (diff_block_of cfg.config.commit_config) ≡ true
    → ((r : Option Regexp × Option Regexp) × (compiled_rules h store settings db
            (email_rules h store settings db)
          ≡ ok r))
      × ((organization : Str)
          → (ms : List DiffMatcher) × (diff_matchers h settings organization ≡ ok ms))
      × ((message : Str) (step : Step)
          → (is_message_allowed h store settings db message step).1.error ≡ step.error)
load_file_compiled h flags l getenv path cfg store db settings loaded given texts =
    policy_compiled h flags store db settings cfg.config given cfg.config.commit_config refl texts
      (load_file-valid h l getenv path cfg loaded)
