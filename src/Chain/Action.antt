-- ===== src/Chain/Action.antt =====
-- internal/chain/action.go. A step's line to the process log is not kept.
use git_proxy_go.Base.{
  ℕ, Bool, true, false, not, ◌&&◌, Option, none, some, [], ◌∷◌, ◌++◌, Str, codes, if◌then◌else◌,
}
use git_proxy_go.Model.{Push, Step, Content}
use git_proxy_go.GitUrl.{GitNameBreakdown, process_url_path, process_git_url_for_name_and_org}

pub record Action : Type 0 where
  pub push : Push
  pub open push use *
  pub cleanup_clone : Bool

-- The zero value of db.Push.
abbrev pub empty_push : Push
empty_push = record {
  id = [];
  kind = [];
  method = [];
  timestamp = 0;
  project = [];
  repo_name = [];
  url = [];
  repo = [];
  steps = [];
  error = false;
  error_message = none;
  blocked = false;
  blocked_message = none;
  allow_push = false;
  authorised = false;
  canceled = false;
  rejected = false;
  auto_approved = false;
  auto_rejected = false;
  commit_data = [];
  commit_from = [];
  commit_to = [];
  branch = [];
  message = [];
  author = [];
  user = [];
  user_email = [];
  attestation = none;
  rejection = none;
  last_step = none;
  proxy_git_path = [];
  new_idx_files = [];
}

abbrev pub empty_action : Action
empty_action = record { push = empty_push; cleanup_clone = false }

unfoldable pub set_names : Push → Str → Option GitNameBreakdown → Push
set_names p path none = record p { repo = path }
set_names p path (some n) = record p { repo = path; project = n.project; repo_name = n.repo_name }

unfoldable pub new_action : Str → Str → Str → ℕ → Str → Action
unfolding set_names
new_action id action_type method timestamp url =
    let p : Push = record empty_push {
      id = id;
      kind = action_type;
      method = method;
      timestamp = timestamp;
      url = url;
    } in
    record {
      push = elim (process_url_path url) [
        | some b ↦ set_names p b.repo_path (process_git_url_for_name_and_org b.repo_path)
        | none ↦ record p {
          repo = codes "NOT-FOUND";
          project = codes "UNKNOWN";
          repo_name = codes "UNKNOWN";
        }
      ];
      cleanup_clone = false;
    }

note_blocked : Step → Push → Push
note_blocked s p =
    if s.blocked then record p { blocked = true; blocked_message = s.blocked_message } else p

note_error : Step → Push → Push
note_error s p = if s.error then record p { error = true; error_message = s.error_message } else p

unfoldable pub add_step : Action → Step → Action
unfolding note_blocked note_error
add_step a s = record a {
  push =
      note_error s
        (note_blocked s (record a.push { steps = a.steps ++ s ∷ []; last_step = some s }));
}

unfoldable pub set_commit : Action → Str → Str → Action
set_commit a commit_from commit_to = record a {
  push = record a.push {
    commit_from = commit_from;
    commit_to = commit_to;
    id = commit_from ++ (codes "__" ++ commit_to);
  };
}

unfoldable pub set_branch : Action → Str → Action
set_branch a branch = record a { push = record a.push { branch = branch } }

unfoldable pub set_allow_push : Action → Action
set_allow_push a = record a { push = record a.push { allow_push = true; blocked = false } }

unfoldable pub set_auto_approval : Action → Action
set_auto_approval a = record a { push = record a.push { auto_approved = true } }

unfoldable pub set_auto_rejection : Action → Action
set_auto_rejection a = record a { push = record a.push { auto_rejected = true } }

-- Continue()
unfoldable pub may_continue : Action → Bool
may_continue a = not a.error && not a.blocked

unfoldable pub new_step : Str → Step
new_step name = record {
  step_name = name;
  content = none;
  error = false;
  error_message = none;
  blocked = false;
  blocked_message = none;
  logs = [];
}

unfoldable pub log : Step → Str → Step
log s message = record s { logs = s.logs ++ (s.step_name ++ (codes " - " ++ message)) ∷ [] }

unfoldable pub set_error : Step → Str → Step
unfolding log
set_error s message = log (record s { error = true; error_message = some message }) message

unfoldable pub set_content : Step → Content → Step
set_content s content = record s { content = some content }

unfoldable pub set_async_block : Step → Str → Step
set_async_block s message = record s { blocked = true; blocked_message = some message }
