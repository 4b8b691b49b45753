-- ===== src/Chain/Checks.antt =====
-- The checks before the clone: checkEmptyBranch, checkRepoInAuthorisedList, checkCommitMessages,
-- checkAuthorEmails and checkUserPushPermission.
use git_proxy_go.Base.{
  Bool, true, false, ◌||◌, not, Option, none, some, List, [], ◌∷◌, ◌++◌, map, Str, codes,
  if◌then◌else◌, is_empty, contains, member, join, to_lower, str_eq, Result, ok, err,
}
use git_proxy_go.Model.{Step, User, Repo}
use git_proxy_go.Host.{Host, Regexp}
use git_proxy_go.Pack.Commit.{empty_commit_hash}
use git_proxy_go.Chain.Config.{CommitConfig, EmailRules, MessageBlock}
use git_proxy_go.Chain.Action.{Action, new_step, set_error, log}
use git_proxy_go.Chain.Context.{Store, Settings, Outcome, Processor, finish, abort}
use git_proxy_go.Chain.Emails.{is_email_allowed}

-- The switch on the clone stands before the clone exists, so it is false whatever the action.
unfoldable pub is_empty_branch : Action → Bool
is_empty_branch a =
    if not (str_eq a.commit_from empty_commit_hash) || is_empty a.proxy_git_path
    then false
    else false

unfoldable pub unique_from : List Str → List Str → List Str
unique_from seen [] = []
unique_from seen (v ∷ s) = elim (member seen v) [
  | true ↦ unique_from seen s
  | false ↦ v ∷ unique_from (v ∷ seen) s
]

unfoldable pub unique_strings : List Str → List Str
unfolding unique_from
unique_strings s = unique_from [] s

unfoldable pub commit_messages : Action → List Str
commit_messages a = map (λ c. c.message) a.commit_data

unfoldable pub author_emails : Action → List Str
author_emails a = map (λ c. c.author_email) a.commit_data

-- The entries that fail a test, in order.
unfoldable pub failing : (Str → Bool) → List Str → List Str
failing ok? [] = []
failing ok? (x ∷ xs) = let rest = failing ok? xs in if ok? x then rest else x ∷ rest

module _ (h : Host) (store : Store) (settings : Settings) (db : store.State) where
  unfoldable pub check_empty_branch : Processor h
  check_empty_branch w r a = elim a.commit_data [
    | c ∷ cs ↦ record { world = w; action = a; failure = none }
    | [] ↦ finish w a (
        set_error (new_step (codes "checkEmptyBranch")) (
          if is_empty_branch a
          then codes "Push blocked: Empty branch. Please make a commit before pushing a new branch."
          else codes
              "Push blocked: Commit data not found. Please contact an administrator for support."))
  ]

  unfoldable pub repo_step : Str → Option Repo → Step
  repo_step url (some repo) =
      log (new_step (codes "checkRepoInAuthorisedList"))
        (codes "repo " ++ (url ++ codes " is in the authorisedList"))
  repo_step url none =
      set_error
        (log (new_step (codes "checkRepoInAuthorisedList"))
          (codes "repo " ++ (url ++ codes " is not in the authorised whitelist, ending")))
        (codes "Rejecting repo " ++ (url ++ codes " not in the authorised whitelist"))

  unfoldable pub check_repo_in_authorised_list : Processor h
  unfolding repo_step
  check_repo_in_authorised_list w r a = elim (store.get_repo_by_url db a.url) [
    | err e ↦ abort w a e
    | ok repo ↦ finish w a (repo_step a.url repo)
  ]

  -- `e.commitConfig()`
  abbrev pub commit_config : Option CommitConfig
  commit_config = elim settings.config [ none ↦ none | some c ↦ c.commit_config ]

  abbrev pub message_block : Option MessageBlock
  message_block = elim commit_config [ none ↦ none | some c ↦ c.message_block ]

  abbrev pub blocked_line : Str
  blocked_line = codes "Commit message is blocked via configured literals/patterns."

  unfoldable pub has_literal : Str → List Str → Bool
  has_literal lower [] = false
  has_literal lower (l ∷ ls) = contains lower (to_lower h.unicode_lower l) || has_literal lower ls

  unfoldable pub try_patterns : Str → List Str → Step → Bool × Step
  try_patterns message [] step = (true, step)
  try_patterns message (p ∷ ps) step = elim (h.compile (codes "(?i)" ++ p)) [
    | err e ↦ (false, set_error step (codes "Error checking commit messages: " ++ e))
    | ok re ↦ elim (re.match_string message) [
      | true ↦ (false, log step blocked_line)
      | false ↦ try_patterns message ps step
    ]
  ]

  unfoldable pub is_message_allowed : Str → Step → Bool × Step
  unfolding has_literal try_patterns
  is_message_allowed message step =
      if is_empty message
      then (false, log step (codes "No commit message included."))
      else elim message_block [
        | none ↦ (true, step)
        | some block ↦
            if has_literal (to_lower h.unicode_lower message) block.literals
            then (false, log step blocked_line)
            else try_patterns message block.patterns step
      ]

  -- The illegal messages, and the step that logs them.
  unfoldable pub scan_messages : List Str → Step → List Str × Step
  unfolding is_message_allowed
  scan_messages [] step = ([], step)
  scan_messages (m ∷ ms) step =
      let (allowed, step') = is_message_allowed m step in
      let (illegal, last) = scan_messages ms step' in
      (if allowed then illegal else m ∷ illegal, last)

  unfoldable pub check_commit_messages : Processor h
  unfolding scan_messages commit_messages unique_strings
  check_commit_messages w r a =
      let unique = unique_strings (commit_messages a) in
      let (illegal, step) = scan_messages unique (new_step (codes "checkCommitMessages")) in
      if not (is_empty illegal)
      then finish w a (
          set_error
            (log step
              (codes "The following commit messages are illegal: " ++ join (codes ",") illegal))
            (codes
                "\n\n\nYour push has been blocked.\nPlease ensure your commit message(s) does not contain sensitive information or URLs.\n\nThe following commit messages are illegal: "
              ++ (h.json_strings illegal ++ codes "\n\n")))
      else finish w a
          (log step (codes "The following commit messages are legal: " ++ join (codes ",") unique))

  abbrev pub email_rules : Option EmailRules
  email_rules = elim commit_config [ none ↦ none | some c ↦ c.author_email ]

  -- An absent or empty rule compiles to none.
  unfoldable pub compile_rule : Str → Option Str → Result (Option Regexp)
  compile_rule what none = ok none
  compile_rule what (some []) = ok none
  compile_rule what (some (c ∷ s)) = elim (h.compile (codes "(?i)" ++ (c ∷ s))) [
    | err e ↦ err (what ++ e)
    | ok re ↦ ok (some re)
  ]

  unfoldable pub compiled_rules : Option EmailRules → Result (Option Regexp × Option Regexp)
  unfolding compile_rule
  compiled_rules none = ok (none, none)
  compiled_rules (some rules) =
      elim (compile_rule (codes "compiling author email domain rule: ") rules.domain_allow) [
        | err e ↦ err e
        | ok domain ↦
            elim (compile_rule (codes "compiling author email local rule: ") rules.local_block) [
              | err e ↦ err e
              | ok loc ↦ ok (domain, loc)
            ]
      ]

  unfoldable pub emails_step : List Str → List Str → Step → Step
  emails_step unique [] step =
      log step (codes "The following commit author e-mails are legal: " ++ join (codes ",") unique)
  emails_step unique (e ∷ es) step =
      set_error
        (log step
          (codes "The following commit author e-mails are illegal: " ++ join (codes ",") (e ∷ es)))
        (codes
          "Your push has been blocked. Please verify your Git configured e-mail address is valid (e.g. john.smith@example.com)")

  -- Behind the compilation of the rules.
  unfoldable pub judge_emails :
      h.World → Action → Result (Option Regexp × Option Regexp) → Outcome h.World
  unfolding emails_step author_emails unique_strings failing
  judge_emails w a (err e) = abort w a e
  judge_emails w a (ok rules) =
      let unique = unique_strings (author_emails a) in
      let illegal = failing (λ e. is_email_allowed e rules.0 rules.1) unique in
      finish w a (emails_step unique illegal (new_step (codes "checkAuthorEmails")))

  unfoldable pub check_author_emails : Processor h
  unfolding compiled_rules judge_emails
  check_author_emails w r a = judge_emails w a (compiled_rules email_rules)

  unfoldable pub is_user_push_allowed : Str → Str → Result Bool
  is_user_push_allowed url username = elim (store.get_repo_by_url db url) [
    | err e ↦ err e
    | ok none ↦ ok false
    | ok (some repo) ↦
        let user = to_lower h.unicode_lower username in
        ok (member repo.users.can_push user || member repo.users.can_authorise user)
  ]

  abbrev shown : Bool → Str
  shown true = codes "true"
  shown false = codes "false"

  -- The step behind the lookup of the user.
  unfoldable pub permission_step : Str → Str → Bool → Step → Step
  permission_step email url allowed step =
      let asked = log step (
        codes "User "
        ++ (email ++ (codes " permission on Repo " ++ (url ++ (codes ": " ++ shown allowed))))) in
      if not allowed
      then set_error
          (log asked (
            codes "User "
            ++ (email ++ (codes " is not allowed to push on repo " ++ (url ++ codes ", ending")))))
          (codes "Your push has been blocked ("
            ++ (email ++ (codes " is not allowed to push on repo " ++ (url ++ codes ")"))))
      else log asked (codes "User " ++ (email ++ (codes " is allowed to push on repo " ++ url)))

  -- `switch` on the users with the address.
  unfoldable pub permission : h.World → Action → Step → List User → Outcome h.World
  unfolding is_user_push_allowed permission_step
  permission w a step [] = finish w a (
      permission_step a.user_email a.url false
        (log step (codes "No user with email address " ++ (a.user_email ++ codes " found"))))
  permission w a step (u ∷ []) = elim (is_user_push_allowed a.url u.username) [
    | err e ↦ abort w a e
    | ok allowed ↦ finish w a (permission_step a.user_email a.url allowed step)
  ]
  permission w a step (u ∷ v ∷ us) = finish w a (
      set_error
        (log step (
          codes "Multiple Users have email <"
          ++ (a.user_email ++ codes "> so we cannot uniquely identify the user, ending")))
        (codes "Your push has been blocked (there are multiple users with email "
          ++ (a.user_email ++ codes ")")))

  -- Behind the lookup of the users.
  unfoldable pub by_users : h.World → Action → Step → Result (List User) → Outcome h.World
  by_users w a step (err e) = abort w a e
  by_users w a step (ok users) = permission w a step users

  unfoldable pub check_user_push_permission : Processor h
  unfolding permission by_users
  check_user_push_permission w r a =
      let step = new_step (codes "checkUserPushPermission") in
      if is_empty a.user_email
      then finish w a (
          set_error step
            (codes "Push blocked: User not found. Please contact an administrator for support."))
      else by_users w a step
          (store.get_users db (record { username = none; email = some a.user_email }))
