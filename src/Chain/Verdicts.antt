-- ===== src/Chain/Verdicts.antt =====
-- What decides the verdict of a check: the author addresses, the added lines and the user's rights.
use git_proxy_go.Base.{
  ◌≡◌, refl, ap, ◌∙◌, ℕ, Bool, true, false, not, ◌&&◌, ◌||◌, Option, List, [], ◌∷◌, Str, arith, all,
  codes, member, join, is_empty, str_eq, str_eq_iff, Bool-cases, Result-cases, inl, inr, ok,
}
use git_proxy_go.Model.{Step, User}
use git_proxy_go.Host.{Host, Regexp}
use git_proxy_go.Chain.Action.{Action, add_step, new_step, log, set_error}
use git_proxy_go.Chain.Context.{Request, Store, Settings}
use git_proxy_go.Chain.Checks.{
  unique_strings, unique_from, failing, author_emails, compiled_rules, email_rules, emails_step,
  check_author_emails, judge_emails, is_user_push_allowed, permission, permission_step,
}
use git_proxy_go.Chain.Emails.{is_email_allowed}
use git_proxy_go.Chain.Engine.{noted}
use git_proxy_go.Chain.Approval.{is_refused}
use git_proxy_go.Chain.ScanDiff.{
  DiffMatcher, ScanMatch, add_match, add_found, add_matchers, collect, report, format_matches,
  format_match, scan_diff_violations,
}
use git_proxy_go.Chain.DiffParser.{AddedChange, parse_added_changes}

all-member :
    (ok? : Str → Bool) (seen : List Str) (v : Str)
    → member seen v ≡ true
    → all ok? seen ≡ true
    → ok? v ≡ true
unfolding member
all-member ok? [] v seen passed = ground (arith, seen)
all-member ok? (x ∷ xs) v seen passed = elim (Bool-cases (str_eq x v)) [
  | inl same ↦ ground (arith, passed, ap ok? ((str_eq_iff x v).0 same))
  | inr other ↦ all-member ok? xs v (ground (arith, seen, other)) (ground (arith, passed))
]

-- Leaving out what was seen before changes no test of all entries.
all-unique_from :
    (ok? : Str → Bool) (seen s : List Str)
    → (all ok? seen && all ok? (unique_from seen s)) ≡ (all ok? seen && all ok? s)
unfolding unique_from
all-unique_from ok? seen [] = refl
all-unique_from ok? seen (v ∷ s) = elim (Bool-cases (member seen v)) [
  | inr new ↦ ground (arith, new, all-unique_from ok? (v ∷ seen) s)
  | inl old ↦ ground (arith, old, all-unique_from ok? seen s, all-member ok? seen v old)
]

all-unique_strings : (ok? : Str → Bool) (s : List Str) → all ok? (unique_strings s) ≡ all ok? s
unfolding unique_strings
all-unique_strings ok? s = all-unique_from ok? [] s

failing-all : (ok? : Str → Bool) (s : List Str) → is_empty (failing ok? s) ≡ all ok? s
unfolding failing
failing-all ok? [] = refl
failing-all ok? (x ∷ xs) = ground (arith, failing-all ok? xs)

is_empty-add_match :
    (key : Str) (m : ScanMatch) (line : ℕ) (acc : List (Str × ScanMatch))
    → is_empty (add_match key m line acc) ≡ false
unfolding add_match
is_empty-add_match key m line [] = refl
is_empty-add_match key m line ((k, agg) ∷ rest) = ground arith

is_empty-add_found :
    (kind : Str) (ch : AddedChange) (found : List Str) (acc : List (Str × ScanMatch))
    → is_empty (add_found kind ch found acc) ≡ (is_empty acc && is_empty found)
unfolding add_found
is_empty-add_found kind ch [] acc = ground arith
is_empty-add_found kind ch (f ∷ more) acc =
    is_empty-add_found kind ch more _ ∙ grind (arith, is_empty-add_match)

is_empty-add_matchers :
    (ch : AddedChange) (ms : List DiffMatcher) (acc : List (Str × ScanMatch))
    → is_empty (add_matchers ch ms acc)
      ≡ (is_empty acc && all (λ m. is_empty (m.re.find_all ch.content)) ms)
unfolding add_matchers
is_empty-add_matchers ch [] acc = ground arith
is_empty-add_matchers ch (m ∷ ms) acc =
    is_empty-add_matchers ch ms _
    ∙ ground (arith, is_empty-add_found m.kind ch (m.re.find_all ch.content) acc)

is_empty-collect :
    (chs : List AddedChange) (ms : List DiffMatcher) (acc : List (Str × ScanMatch))
    → is_empty (collect chs ms acc)
      ≡ (is_empty acc && all (λ ch. all (λ m. is_empty (m.re.find_all ch.content)) ms) chs)
unfolding collect
is_empty-collect [] ms acc = ground arith
is_empty-collect (ch ∷ chs) ms acc =
    is_empty-collect chs ms _ ∙ ground (arith, is_empty-add_matchers ch ms acc)

is_empty-report :
    (found : List (Str × ScanMatch)) (step : Step) → is_empty (report found step).0 ≡ is_empty found
unfolding report format_matches format_match join
is_empty-report [] step = refl
is_empty-report (m ∷ []) step = refl
is_empty-report (m ∷ n ∷ ms) step = refl

-- The scan of a diff reports nothing exactly when the diff is empty or no expression finds anything in
-- an added line.
pub is_empty-scan_diff_violations :
    (diff : Str) (matchers : List DiffMatcher) (step : Step)
    → is_empty (scan_diff_violations diff matchers step).0 ≡ (
        is_empty diff
        || all
            (λ ch. all (λ m. is_empty (m.re.find_all ch.content)) matchers)
            (parse_added_changes diff))
unfolding scan_diff_violations
is_empty-scan_diff_violations diff matchers step = elim (Bool-cases (is_empty diff)) [
  | inl blank ↦ ground (arith, blank)
  | inr full ↦ ground (
    arith,
    full,
    is_empty-report (collect (parse_added_changes diff) matchers []) step,
    is_empty-collect (parse_added_changes diff) matchers [],
  )
]

module _ (h : Host) (store : Store) (settings : Settings) (db : store.State) where
  emails_step_error :
      (unique illegal : List Str) (s : Step)
      → (emails_step h store settings db unique illegal s).error
        ≡ (s.error || not (is_empty illegal))
  unfolding emails_step log set_error
  emails_step_error unique [] s = ground arith
  emails_step_error unique (e ∷ es) s = ground arith

  add_step_error : (a : Action) (s : Step) → (add_step a s).error ≡ (a.error || s.error)
  unfolding add_step
  add_step_error a s = ground arith

  -- Where the configured rules compile, the check of the addresses leaves an error exactly when the
  -- action had one or some author address of its commits is not allowed.
  pub check_author_emails_error :
      (w : h.World) (r : Request h.Credentials) (a : Action) (rules : Option Regexp × Option Regexp)
      → compiled_rules h store settings db (email_rules h store settings db) ≡ ok rules
      → (check_author_emails h store settings db w r a).action.error
        ≡ (a.error || not (all (λ e. is_email_allowed e rules.0 rules.1) (author_emails a)))
  unfolding check_author_emails judge_emails new_step
  check_author_emails_error w r a rules compiled =
      let ok? : Str → Bool = λ e. is_email_allowed e rules.0 rules.1 in
      let unique = unique_strings (author_emails a) in
      ap (λ c. (judge_emails h store settings db w a c).action.error) compiled
      ∙ add_step_error a _
      ∙ ap (λ b. a.error || b)
          (emails_step_error unique (failing ok? unique) (new_step (codes "checkAuthorEmails")))
      ∙ ap (λ b. a.error || not b)
          (failing-all ok? unique ∙ all-unique_strings ok? (author_emails a))

  -- The check of the user's rights, on the users that the store has under the address.
  pub permission_error :
      (w : h.World) (a : Action) (s : Step) (us : List User)
      → a.error ≡ false
      → s.error ≡ false
      → is_refused (noted h (permission h store settings db w a s us)) ≡ false
      → (u : User) × (us ≡ u ∷ [])
        × (is_user_push_allowed h store settings db a.url u.username ≡ ok true)
  unfolding permission permission_step add_step log set_error noted is_refused
  permission_error w a s [] fine clean pass = absurd (ground arith)
  permission_error w a s (u ∷ v ∷ us) fine clean pass = absurd (ground arith)
  permission_error w a s (u ∷ []) fine clean pass =
      elim (Result-cases (is_user_push_allowed h store settings db a.url u.username)) [
        | inr (e, failed) ↦ absurd (ground (arith, failed))
        | inl (true, allowed) ↦ (u, refl, allowed)
        | inl (false, denied) ↦ absurd (ground (arith, denied))
      ]
