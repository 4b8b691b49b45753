-- ===== src/Chain/Clone.antt =====
-- pull_remote.go and write_pack.go: the checkout of the upstream repository, and the pushed
-- objects stored into it. The clone functions are the git engine's.
use git_proxy_go.Base.{
  ◌-◌, Bool, true, ◌&&◌, ◌||◌, Option, none, some, List, [], ◌∷◌, ◌++◌, Str, codes, if◌then◌else◌,
  is_empty, trim_prefix, member, sort_strings, join, Result, ok, err, length, drop, str_eq, leb,
}
use git_proxy_go.Model.{Step, text}
use git_proxy_go.Host.{Host, entries, absent, failed}
use git_proxy_go.Chain.Git
use git_proxy_go.Chain.Action.{Action, add_step, new_step, set_error, set_content, log}
use git_proxy_go.Chain.Context.{SshCloneAuth, Request, Settings, Outcome, Processor, finish}

abbrev pub with_path : Action → Str → Action
with_path a path = record a { push = record a.push { proxy_git_path = path } }

unfoldable pub mark_cleanup : Action → Action
mark_cleanup a = record a { cleanup_clone = true }

-- What a clone leaves: the world, the action, its step and its error.
pub record Cloned (W : Type 0) : Type 0 where
  pub world : W
  pub action : Action
  pub step : Step
  pub failure : Option Str

exists_message : Str
exists_message =
    codes
      "The checkout folder already exists - we may be processing a concurrent request for this push. If this issue persists the proxy may need to be restarted."

-- `strings.HasSuffix(name, ".idx")`.
unfoldable pub is_idx : Str → Bool
is_idx name = leb 4 (length name) && str_eq (drop (length name - 4) name) (codes ".idx")

unfoldable pub only_idx : List Str → List Str
only_idx [] = []
only_idx (n ∷ ns) = let rest = only_idx ns in if is_idx n then n ∷ rest else rest

-- The names of `after` that `before` does not hold.
unfoldable pub new_names : List Str → List Str → List Str
new_names old [] = []
new_names old (f ∷ fs) = let rest = new_names old fs in if member old f then rest else f ∷ rest

module _ (h : Host) (settings : Settings) where
  unfoldable pub convert_to_ssh_url : Str → Str
  convert_to_ssh_url https_url = elim (h.parse_url https_url) [
    | none ↦ https_url
    | some p ↦
        if is_empty p.0
        then https_url
        else codes "git@" ++ (p.0 ++ (codes ":" ++ trim_prefix p.1 (codes "/")))
  ]

  -- The end of both clones: the error, or the step's lines and the mark for the clean-up.
  cloned : h.World → Action → Step → Str → Option Str → Cloned h.World
  cloned w a step cmd (some e) = record { world = w; action = a; step = step; failure = some e }
  cloned w a step cmd none = record {
    world = w;
    action = mark_cleanup a;
    step = set_content (log step (codes "Completed " ++ cmd)) (text (codes "Completed " ++ cmd));
    failure = none;
  }

  clone_https_into : h.World → Request h.Credentials → Action → Step → Str → Cloned h.World
  clone_https_into w r a step dest = elim r.basic_auth [
    | none ↦ record {
      world = w;
      action = a;
      step = step;
      failure = some (
          codes
            "authorization header is required for pullRemote. Make sure to provide valid credentials as anonymous pulls are not currently supported");
    }
    | some auth ↦
        let cmd = codes "git clone " ++ a.url in
        let (w', failure) = Git.clone h w a.url dest auth.0 auth.1 1 in
        cloned w' a (log step (codes "Executing " ++ cmd)) cmd failure
  ]

  clone_ssh_into : h.World → Action → Step → Str → SshCloneAuth h.Credentials → Cloned h.World
  clone_ssh_into w a step dest auth =
      let ssh_url = convert_to_ssh_url a.url in
      let (w', failure) = Git.clone_ssh h w ssh_url dest auth.user auth.credentials 1 in
      cloned w' a (log step (codes "Cloning over SSH using agent forwarding: " ++ ssh_url))
        (codes "git clone " ++ ssh_url) failure

  unfoldable pub clone : h.World → Request h.Credentials → Action → Step → Cloned h.World
  unfolding cloned clone_https_into clone_ssh_into mark_cleanup
  clone w r a step =
      let step' = log step (codes "Creating folder " ++ a.proxy_git_path) in
      let (w', made) = h.mkdir_all w a.proxy_git_path in
      let dest = h.join_path a.proxy_git_path a.repo_name in
      elim made [
        | some e ↦ record {
          world = w';
          action = a;
          step = step';
          failure = some (codes "creating checkout folder: " ++ e);
        }
        | none ↦ elim r.ssh_auth [
          | some auth ↦ clone_ssh_into w' a step' dest auth
          | none ↦ clone_https_into w' r a step' dest
        ]
      ]

  -- A failed clone removes the folder, and that failure is ignored.
  unfoldable pub finish_clone : Cloned h.World → Outcome h.World
  finish_clone c = elim c.failure [
    | none ↦ finish c.world c.action c.step
    | some e ↦
        finish (h.remove_all c.world c.action.proxy_git_path).0 c.action
          (log (set_error c.step e) (codes ".remote is deleted!"))
  ]

  unfoldable pub pull_remote : Processor h
  unfolding clone finish_clone exists_message
  pull_remote w r a =
      let step = new_step (codes "pullRemote") in
      let a' = with_path a (h.join_path settings.remote_dir a.id) in
      if h.stat w a'.proxy_git_path
      then finish w a' (set_error step exists_message)
      else finish_clone (clone w r a' step)

module _ (h : Host) where
  unfoldable pub idx_files : h.World → Str → Result (List Str)
  idx_files w dir = elim (h.read_dir w dir) [
    | entries names ↦ ok (only_idx names)
    | absent ↦ ok []
    | failed e ↦ err e
  ]

  -- The world, the new idx files or an error.
  unfoldable pub run_write_pack :
      h.World → Request h.Credentials → Action → h.World × Result (List Str)
  unfolding idx_files
  run_write_pack w r a =
      if is_empty a.proxy_git_path || is_empty a.repo_name
      then (w, err (codes "proxyGitPath and repoName must be defined"))
      else let repo_path = h.join_path a.proxy_git_path a.repo_name in
        let pack_dir =
          h.join_path (h.join_path (h.join_path repo_path (codes ".git")) (codes "objects"))
            (codes "pack") in
        let (w1, configured) =
          Git.run h w repo_path none
            (codes "config" ∷ codes "receive.unpackLimit" ∷ codes "0" ∷ []) in
        elim configured [
          | err e ↦ (w1, err e)
          | ok _ ↦ elim (idx_files w1 pack_dir) [
            | err e ↦ (w1, err e)
            | ok old ↦
                let (w2, _) =
                  Git.run h w1 a.proxy_git_path r.raw_body
                    (codes "receive-pack" ∷ a.repo_name ∷ []) in
                elim (idx_files w2 pack_dir) [
                  | err e ↦ (w2, err e)
                  | ok new ↦ (w2, ok (sort_strings (new_names old new)))
                ]
          ]
        ]

  unfoldable pub written : Action → Step → Result (List Str) → Action
  written a step (err e) = add_step a (set_error step e)
  written a step (ok names) =
      add_step (record a { push = record a.push { new_idx_files = names } })
        (log step (codes "new idx files: " ++ join (codes ",") names))

  unfoldable pub write_pack : Processor h
  unfolding run_write_pack written
  write_pack w r a =
      let (w', names) = run_write_pack w r a in
      record { world = w'; action = written a (new_step (codes "writePack")) names; failure = none }
