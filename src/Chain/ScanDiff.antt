-- ===== src/Chain/ScanDiff.antt =====
-- scan_diff.go: the added lines of the diff against the configured literals, patterns and
-- providers. A line number is a natural number: git prints none that a Go int cannot hold.
use git_proxy_go.Base.{
  ℕ, ◌+◌, Bool, false, Option, none, some, List, [], ◌∷◌, ◌++◌, map, Str, codes, if◌then◌else◌,
  is_empty, member, join, str_eq, show, Result, ok, err, ◌>>=◌,
}
use git_proxy_go.Model.{Step, text, pack_meta}
use git_proxy_go.Host.{Host, Regexp}
use git_proxy_go.Chain.Config.{DiffBlock, DiffPattern, as_text, as_other}
use git_proxy_go.Chain.Action.{Action, new_step, set_error, log}
use git_proxy_go.Chain.Context.{Settings, Processor, finish}
use git_proxy_go.Chain.DiffParser.{AddedChange, parse_added_changes}

-- The text content of the first "diff" step that has one.
unfoldable pub diff_step_content : List Step → Str
diff_step_content [] = []
diff_step_content (s ∷ steps) =
    let later = diff_step_content steps in
    if str_eq s.step_name (codes "diff")
    then elim s.content [ none ↦ later | some c ↦ elim c [ text t ↦ t | pack_meta _ ↦ later ] ]
    else later

-- A rule and its compiled expression.
pub record DiffMatcher : Type 0 where
  pub kind : Str
  pub re : Regexp

-- An aggregated violation, under its key.
pub record ScanMatch : Type 0 where
  pub kind : Str
  pub literal : Str
  pub file : Str
  pub lines : List ℕ

-- `byKey` and `ordered` as one list of keys and matches, in the order of first sight.
unfoldable pub add_match : Str → ScanMatch → ℕ → List (Str × ScanMatch) → List (Str × ScanMatch)
add_match key m line [] = (key, record m { lines = line ∷ [] }) ∷ []
add_match key m line ((k, agg) ∷ rest) =
    if str_eq k key
    then (k, record agg { lines = agg.lines ++ line ∷ [] }) ∷ rest
    else (k, agg) ∷ add_match key m line rest

unfoldable pub add_found :
    Str → AddedChange → List Str → List (Str × ScanMatch) → List (Str × ScanMatch)
add_found kind ch [] acc = acc
add_found kind ch (found ∷ more) acc = add_found kind ch more (
    add_match (kind ++ (codes "_" ++ (found ++ (codes "_" ++ ch.file))))
      (record { kind = kind; literal = found; file = ch.file; lines = [] }) ch.line acc)

unfoldable pub add_matchers :
    AddedChange → List DiffMatcher → List (Str × ScanMatch) → List (Str × ScanMatch)
unfolding add_found
add_matchers ch [] acc = acc
add_matchers ch (m ∷ ms) acc =
    add_matchers ch ms (add_found m.kind ch (m.re.find_all ch.content) acc)

unfoldable pub collect :
    List AddedChange → List DiffMatcher → List (Str × ScanMatch) → List (Str × ScanMatch)
unfolding add_matchers
collect [] ms acc = acc
collect (ch ∷ chs) ms acc = collect chs ms (add_matchers ch ms acc)

-- One block of the report; `i` counts from 0.
unfoldable pub format_match : ℕ → ScanMatch → Str
format_match i m =
    codes "---------------------------------- #"
    ++ (show (i + 1)
        ++ (codes " "
            ++ (m.kind
                ++ (codes " ------------------------------\n    Policy Exception Type: "
                    ++ (m.kind
                        ++ (codes "\n    DETECTED: "
                            ++ (m.literal
                                ++ (codes " \n    FILE(S) LOCATED: "
                                    ++ (m.file
                                        ++ (codes "\n    Line(s) of code: "
                                            ++ join (codes ",") (map show m.lines)))))))))))

unfoldable pub format_matches : ℕ → List (Str × ScanMatch) → List Str
format_matches i [] = []
format_matches i ((k, m) ∷ rest) = format_match i m ∷ format_matches (i + 1) rest

unfoldable pub report : List (Str × ScanMatch) → Step → Str × Step
unfolding format_matches
report [] step = ([], step)
report (m ∷ ms) step = (
  join (codes "\n\n") (format_matches 0 (m ∷ ms)),
  log step (codes "Diff is blocked via configured literals/patterns/providers."),
)

-- The report, empty when the diff is clean, and the step.
unfoldable pub scan_diff_violations : Str → List DiffMatcher → Step → Str × Step
unfolding collect report
scan_diff_violations diff matchers step =
    if is_empty diff
    then ([], log step (codes "No commit diff found, but this may be legitimate (empty diff)."))
    else report (collect (parse_added_changes diff) matchers []) step

-- `regexp.QuoteMeta`.
unfoldable pub quote_meta : Str → Str
quote_meta [] = []
quote_meta (c ∷ s) =
    if member (map (λ x. x ∷ []) (codes "\\.+*?()|[]{}^$")) (c ∷ [])
    then b'\\' ∷ c ∷ quote_meta s
    else c ∷ quote_meta s

-- `fmt.Sprint`.
unfoldable pub printed : DiffPattern → Str
printed (as_text s) = s
printed (as_other s) = s

module _ (h : Host) (settings : Settings) where
  unfoldable pub is_private_organization : Str → Bool
  is_private_organization org =
      if is_empty org
      then false
      else elim settings.config [ none ↦ false | some c ↦ member c.private_organizations org ]

  -- A quoted literal always compiles: the source would panic otherwise.
  unfoldable pub literal_matchers : List Str → Result (List DiffMatcher)
  literal_matchers [] = ok []
  literal_matchers (l ∷ ls) = do
    re ← h.compile (codes "(?i)" ++ quote_meta l)
    rest ← literal_matchers ls
    ok ((record { kind = codes "Offending Literal"; re = re }) ∷ rest)

  unfoldable pub pattern_matchers : List DiffPattern → Result (List DiffMatcher)
  unfolding printed
  pattern_matchers [] = ok []
  pattern_matchers (p ∷ ps) = elim (h.compile (codes "(?i)" ++ printed p)) [
    | err e ↦ err (codes "compiling diff pattern " ++ (h.quote (printed p) ++ (codes ": " ++ e)))
    | ok re ↦ pattern_matchers ps >>= λ rest.
        ok ((record { kind = codes "Offending Pattern"; re = re }) ∷ rest)
  ]

  unfoldable pub provider_matchers : List (Str × Str) → Result (List DiffMatcher)
  provider_matchers [] = ok []
  provider_matchers ((key, value) ∷ rest) = elim (h.compile (codes "(?i)" ++ value)) [
    | err e ↦ err (codes "compiling diff provider " ++ (h.quote key ++ (codes ": " ++ e)))
    | ok re ↦ provider_matchers rest >>= λ ms. ok ((record { kind = key; re = re }) ∷ ms)
  ]

  unfoldable pub diff_block : Option DiffBlock
  diff_block = elim settings.config [
    | none ↦ none
    | some c ↦ elim c.commit_config [ none ↦ none | some cc ↦ cc.diff_block ]
  ]

  unfoldable pub diff_matchers : Str → Result (List DiffMatcher)
  unfolding diff_block literal_matchers pattern_matchers provider_matchers is_private_organization
  diff_matchers organization = elim diff_block [
    | none ↦ ok []
    | some block ↦ do
      literals ← literal_matchers block.literals
      patterns ← pattern_matchers block.patterns
      providers ←
          if is_private_organization organization then ok [] else provider_matchers block.providers
      ok (literals ++ (patterns ++ providers))
  ]

  -- The step behind the scan.
  unfoldable pub violation_step : Action → Str × Step → Step
  violation_step a (violations, step) =
      if is_empty violations
      then step
      else set_error
          (log step (
            codes "The following diff is illegal: "
            ++ (a.commit_from ++ (codes ":" ++ a.commit_to))))
          (codes
              "\n\n\n\nYour push has been blocked.\n\nPlease ensure your code does not contain sensitive information or URLs.\n\n\n"
            ++ (violations ++ codes "\n\n"))

  unfoldable pub scan_diff : Processor h
  unfolding diff_step_content violation_step scan_diff_violations
  scan_diff w r a =
      let diff = diff_step_content a.steps in
      let step =
        log
          (log (new_step (codes "scanDiff"))
            (codes "Scanning diff: " ++ (a.commit_from ++ (codes ":" ++ a.commit_to))))
          diff in
      elim (diff_matchers a.project) [
        | err e ↦ finish w a (set_error step e)
        | ok matchers ↦ finish w a (violation_step a (scan_diff_violations diff matchers step))
      ]
