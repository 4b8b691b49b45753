-- ===== src/Chain/Inspect.antt =====
-- The steps that look into the clone: check_hidden_commits.go, pre_receive.go and get_diff.go.
use git_proxy_go.Base.{
  Bool, true, false, ◌||◌, not, Option, none, some, List, [], ◌∷◌, ◌++◌, map, Str, codes, ◌==◌,
  if◌then◌else◌, is_empty, length, member, split, fields, join, trim_space, sort_strings, str_eq,
  show, get_last?, Result, ok, err,
}
use git_proxy_go.Model.{Step, CommitData, text}
use git_proxy_go.Host.{Host, Exit, exited, signaled, not_started, Finished}
use git_proxy_go.Pack.Commit.{empty_commit_hash}
use git_proxy_go.Chain.Git
use git_proxy_go.Chain.Checks.{unique_strings}
use git_proxy_go.Chain.Action.{
  Action, add_step, new_step, set_error, set_content, set_auto_approval, set_auto_rejection, log,
}
use git_proxy_go.Chain.Context.{Settings, Processor, finish}

non_empty : List Str → List Str
non_empty [] = []
non_empty (l ∷ ls) = let rest = non_empty ls in if is_empty l then rest else l ∷ rest

-- A set, as the list of its members.
unfoldable pub line_set : Str → List Str
unfolding non_empty
line_set out = unique_strings (non_empty (map trim_space (split 10 (trim_space out))))

-- The name in a line of `git verify-pack -v` that tells of a commit.
unfoldable pub pack_commit : List Str → List Str
pack_commit (sha ∷ kind ∷ _) = if str_eq kind (codes "commit") then sha ∷ [] else []
pack_commit _ = []

unfoldable pub pack_commits : List Str → List Str
unfolding pack_commit
pack_commits [] = []
pack_commits (line ∷ rest) = pack_commit (fields line) ++ pack_commits rest

-- The members of `pack` that are, or are not, introduced.
unfoldable pub select : Bool → List Str → List Str → List Str
select wanted introduced [] = []
select wanted introduced (sha ∷ rest) =
    let more = select wanted introduced rest in
    if member introduced sha
    then (if wanted then sha ∷ more else more)
    else if wanted
    then more
    else sha ∷ more

abbrev pub slash : Str → Str → Str
slash a b = a ++ (codes ".." ++ b)

-- Commits introduced by this push.
unfoldable pub rev_range : Action → Str
rev_range a =
    if str_eq a.commit_from empty_commit_hash then a.commit_to else slash a.commit_from a.commit_to

-- The verdict over the commits of the pack.
unfoldable pub hidden_verdict : List Str → List Str → Step → Step
unfolding select
hidden_verdict introduced pack step =
    let counted = log step (codes "Total commits in the pack: " ++ show (length pack)) in
    let referenced = select true introduced pack in
    let unreferenced = select false introduced pack in
    if is_empty unreferenced
    then set_content
        (log counted (codes "All pack commits are referenced in the introduced range."))
        (text (
          codes "All "
          ++ (show (length pack) ++ codes " pack commits are within introduced commits.")))
    else set_content
        (set_error
          (log (log counted (codes "Referenced commits: " ++ show (length referenced)))
            (codes "Unreferenced commits: " ++ show (length unreferenced)))
          (codes "Unreferenced commits in pack ("
            ++ (show (length unreferenced)
                ++ (codes "): "
                    ++ (join (codes ", ") (sort_strings unreferenced)
                        ++ codes
                            ".\nThis usually happens when a branch was made from a commit that hasn't been approved and pushed to the remote.\nPlease get approval on the commits, push them and try again.")))))
        (text (
          codes "Referenced: "
          ++ (show (length referenced)
              ++ (codes ", Unreferenced: " ++ show (length unreferenced)))))

-- The first and the last parent that getDiff looks at.
unfoldable pub diff_base : Str → Str → CommitData → List CommitData → Str
diff_base empty_tree commit_from first rest =
    if str_eq commit_from empty_commit_hash
    then (if str_eq first.parent empty_commit_hash
        then empty_tree
        else elim (get_last? (first ∷ rest)) [ none ↦ empty_tree | some c ↦ c.parent ])
    else commit_from

empty_tree_hash : Str
empty_tree_hash = codes "4b825dc642cb6eb9a060e54bf8d69288fbee4904"

-- `exitStatus`, printed.
unfoldable pub status_text : Exit → Str
status_text (exited n) = show n
status_text _ = codes "-1"

-- The switch on the hook's exit status.
unfoldable pub hook_verdict : Action → Step → Finished → Action
hook_verdict a step f =
    let told = log step (codes "Hook exited with status " ++ status_text f.exit) in
    let printed = trim_space f.stdout in
    let failed : Action = add_step a (
      set_error (log told (codes "Unexpected hook status: " ++ status_text f.exit))
        (if is_empty printed then codes "Unknown pre-receive hook error." else printed)) in
    elim f.exit [
      | exited n ↦
          if n == 0
          then set_auto_approval
              (add_step a (log told (codes "Push automatically approved by pre-receive hook.")))
          else if n == 1
          then set_auto_rejection
              (add_step a (log told (codes "Push automatically rejected by pre-receive hook.")))
          else if n == 2
          then add_step a (log told (codes "Push requires manual approval."))
          else failed
      | signaled ↦ failed
      | not_started e ↦ failed
    ]

module _ (h : Host) where
  unfoldable pub repo_path : Action → Str
  repo_path a = h.join_path a.proxy_git_path a.repo_name

  idx_path : Str → Str
  idx_path idx =
      h.join_path (h.join_path (h.join_path (codes ".git") (codes "objects")) (codes "pack")) idx

  -- `git verify-pack` on each new index; the names so far are kept.
  unfoldable pub verify_packs : h.World → Str → List Str → List Str → h.World × Result (List Str)
  unfolding idx_path pack_commits
  verify_packs w dir pack [] = (w, ok pack)
  verify_packs w dir pack (idx ∷ rest) =
      let (w', out) = Git.run h w dir none (codes "verify-pack" ∷ codes "-v" ∷ idx_path idx ∷ []) in
      elim out [
        | err e ↦ (w', err e)
        | ok vp ↦ verify_packs w' dir (pack ++ pack_commits (split 10 (trim_space vp))) rest
      ]

  unfoldable pub run_hidden_commits : h.World → Action → Step → h.World × Step × Option Str
  unfolding repo_path verify_packs hidden_verdict line_set rev_range
  run_hidden_commits w a step =
      if is_empty a.commit_from || is_empty a.commit_to
      then (w, step, some (codes "both action.commitFrom and action.commitTo must be defined"))
      else let (w1, out) = Git.run h w (repo_path a) none (codes "rev-list" ∷ rev_range a ∷ []) in
        elim out [
          | err e ↦ (w1, step, some e)
          | ok revs ↦
              let introduced = line_set revs in
              let told =
                log step (codes "Total introduced commits: " ++ show (length introduced)) in
              let (w2, packs) = verify_packs w1 (repo_path a) [] a.new_idx_files in
              elim packs [
                | err e ↦ (w2, told, some e)
                | ok pack ↦ (w2, hidden_verdict introduced (unique_strings pack) told, none)
              ]
        ]

  unfoldable pub with_failure : Step → Option Str → Step
  with_failure step none = step
  with_failure step (some e) = set_error step e

  unfoldable pub check_hidden_commits : Processor h
  unfolding run_hidden_commits with_failure
  check_hidden_commits w r a =
      let (w', step, failure) = run_hidden_commits w a (new_step (codes "checkHiddenCommits")) in
      finish w' a (with_failure step failure)

  unfoldable pub get_diff : Processor h
  unfolding repo_path diff_base empty_tree_hash
  get_diff w r a =
      let step = new_step (codes "diff") in
      elim a.commit_data [
        | [] ↦ finish w a (
            set_error (log step (codes "No commitData found"))
              (codes "Your push has been blocked because no commit data was found."))
        | first ∷ rest ↦
            let from = diff_base empty_tree_hash a.commit_from first rest in
            let told = log step (
              codes "Executing \"git diff "
              ++ (from ++ (codes " " ++ (a.commit_to ++ (codes "\" in " ++ repo_path a))))) in
            let (w', out) =
              Git.run h w (repo_path a) none (codes "diff" ∷ slash from a.commit_to ∷ []) in
            elim out [
              | err e ↦ finish w' a (set_error told e)
              | ok diff ↦ finish w' a (set_content (log told diff) (text diff))
            ]
      ]

module _ (h : Host) (settings : Settings) where
  -- The path of the hook, "./hooks/pre-receive.sh" where none is set.
  unfoldable pub hook_path : Str
  hook_path =
      if is_empty settings.pre_receive_hook
      then codes "./hooks/pre-receive.sh"
      else settings.pre_receive_hook

  unfoldable pub pre_receive : Processor h
  unfolding hook_path hook_verdict repo_path
  pre_receive w r a =
      let step = new_step (codes "executeExternalPreReceiveHook") in
      if h.is_windows
      then finish w a (
          log step
            (codes "Warning: Pre-receive hooks are not supported on Windows, skipping execution."))
      else elim (h.abs_path hook_path) [
        | err e ↦ finish w a (set_error step (codes "Hook execution error: " ++ e))
        | ok resolved ↦
            if not (h.stat w resolved)
            then finish w a (log step (codes "Pre-receive hook not found, skipping execution."))
            else let (w', f) = h.run_hook w resolved (repo_path h a) (
                a.commit_from
                ++ (codes " " ++ (a.commit_to ++ (codes " " ++ (a.branch ++ codes " \n"))))) in
              record {
                world = w';
                action =
                    hook_verdict a
                      (log step (codes "Executing pre-receive hook from: " ++ resolved)) f;
                failure = none;
              }
      ]
