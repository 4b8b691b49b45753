-- ===== src/Chain/KeepsClone.antt =====
-- The steps around the clone leave the push's permission and id alone.
use git_proxy_go.Base.{List, arith, Str, Result}
use git_proxy_go.Model.{Step}
use git_proxy_go.Host.{Host, Finished}
use git_proxy_go.Chain.Action.{Action, add_step, set_auto_approval, set_auto_rejection}
use git_proxy_go.Chain.Context.{Request, Settings}
use git_proxy_go.Chain.Keeps.{Same, Same-refl, Same-add_step}
use git_proxy_go.Chain.Clone.{
  pull_remote, clone, mark_cleanup, Cloned, finish_clone, written, write_pack,
}
use git_proxy_go.Chain.Inspect.{hook_verdict, check_hidden_commits, pre_receive, get_diff}
use git_proxy_go.Chain.Gitleaks.{gitleaks, scan_with_gitleaks, GitleaksSettings}
use git_proxy_go.Chain.ScanDiff.{scan_diff}

hook_keeps : (a : Action) (s : Step) (f : Finished) → Same a (hook_verdict a s f)
unfolding hook_verdict set_auto_approval set_auto_rejection add_step
hook_keeps a s f = ground arith

module _ (h : Host) where
  written_keeps : (a : Action) (s : Step) (n : Result (List Str)) → Same a (written h a s n)
  unfolding written add_step
  written_keeps a s n = ground arith

  pub write_pack_keeps :
      (w : h.World) (r : Request h.Credentials) (a : Action) → Same a (write_pack h w r a).action
  unfolding write_pack
  write_pack_keeps w r a = grind (arith, written_keeps)

  pub hidden_keeps :
      (w : h.World) (r : Request h.Credentials) (a : Action)
      → Same a (check_hidden_commits h w r a).action
  unfolding check_hidden_commits
  hidden_keeps w r a = grind (arith, Same-add_step, Same-refl)

  pub get_diff_keeps :
      (w : h.World) (r : Request h.Credentials) (a : Action) → Same a (get_diff h w r a).action
  unfolding get_diff
  get_diff_keeps w r a = grind (arith, Same-add_step, Same-refl)

module _ (h : Host) (settings : Settings) where
  pub pre_receive_keeps :
      (w : h.World) (r : Request h.Credentials) (a : Action)
      → Same a (pre_receive h settings w r a).action
  unfolding pre_receive hook_verdict set_auto_approval set_auto_rejection add_step
  pre_receive_keeps w r a = grind arith

  pub scan_with_keeps :
      (w : h.World) (a : Action) (s : Step) (g : GitleaksSettings)
      → Same a (scan_with_gitleaks h settings w a s g).action
  unfolding scan_with_gitleaks
  scan_with_keeps w a s g = grind (arith, Same-add_step)

  pub gitleaks_keeps :
      (w : h.World) (r : Request h.Credentials) (a : Action)
      → Same a (gitleaks h settings w r a).action
  unfolding gitleaks
  gitleaks_keeps w r a = grind (arith, Same-add_step, Same-refl, scan_with_keeps)

  pub scan_diff_keeps :
      (w : h.World) (r : Request h.Credentials) (a : Action)
      → Same a (scan_diff h settings w r a).action
  unfolding scan_diff
  scan_diff_keeps w r a = grind (arith, Same-add_step, Same-refl)

  clone_keeps :
      (w : h.World) (r : Request h.Credentials) (a : Action) (s : Step)
      → Same a (clone h settings w r a s).action
  unfolding clone mark_cleanup
  clone_keeps w r a s = ground arith

  finish_keeps :
      (a : Action) (c : Cloned h.World)
      → Same a c.action
      → Same a (finish_clone h settings c).action
  unfolding finish_clone add_step
  finish_keeps a c same = grind arith

  pub pull_remote_keeps :
      (w : h.World) (r : Request h.Credentials) (a : Action)
      → Same a (pull_remote h settings w r a).action
  unfolding pull_remote
  pull_remote_keeps w r a = grind (arith, Same-add_step, Same-refl, finish_keeps, clone_keeps)
