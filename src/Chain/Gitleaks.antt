-- ===== src/Chain/Gitleaks.antt =====
-- gitleaks.go: the scan of the pushed range by the gitleaks binary.
use git_proxy_go.Base.{
  ℕ, Bool, true, false, ◌&&◌, not, Option, none, some, List, [], ◌∷◌, ◌++◌, Str, codes, ◌==◌,
  if◌then◌else◌, is_empty, trim_space, str_eq, show, ok, err,
}
use git_proxy_go.Model.{Step}
use git_proxy_go.Host.{Host, exited, signaled, not_started, Finished}
use git_proxy_go.Chain.Git
use git_proxy_go.Chain.Action.{Action, new_step, set_error, log}
use git_proxy_go.Chain.Context.{Settings, Outcome, Processor, finish}
use git_proxy_go.Chain.Inspect.{slash, repo_path}

gitleaks_findings_exit_code : ℕ
gitleaks_findings_exit_code = 99

abbrev pub or_default : Bool → Option Bool → Bool
or_default d none = d
or_default d (some b) = b

abbrev trimmed : Option Str → Str
trimmed none = []
trimmed (some s) = trim_space s

pub record GitleaksSettings : Type 0 where
  pub enabled : Bool
  pub ignore_allow : Bool
  pub no_color : Bool
  pub config_path : Str

unfoldable pub gitleaks_config : Settings → GitleaksSettings
gitleaks_config settings =
    let off : GitleaksSettings = record {
      enabled = false;
      ignore_allow = true;
      no_color = false;
      config_path = [];
    } in
    elim settings.config [
      | none ↦ off
      | some c ↦ elim c.gitleaks [
        | none ↦ off
        | some g ↦ record {
          enabled = or_default false g.enabled;
          ignore_allow = or_default true g.ignore_gitleaks_allow;
          no_color = or_default false g.no_color;
          config_path = trimmed g.config_path;
        }
      ]
    ]

unfoldable pub gitleaks_args : GitleaksSettings → Str → Str → List Str
unfolding gitleaks_findings_exit_code
gitleaks_args g from commit_to =
    (codes "--exit-code=" ++ show gitleaks_findings_exit_code)
    ∷ codes "--platform=none"
    ∷ ((if is_empty g.config_path then [] else (codes "--config=" ++ g.config_path) ∷ [])
        ++ ((if g.ignore_allow then codes "--ignore-gitleaks-allow" ∷ [] else [])
            ++ (codes "--no-banner"
                ∷ ((if g.no_color then codes "--no-color" ∷ [] else [])
                    ++ (codes "--redact"
                        ∷ codes "--verbose"
                        ∷ codes "git"
                        ∷ (codes "--log-opts=--first-parent " ++ slash from commit_to)
                        ∷ [])))))

unfoldable pub gitleaks_verdict : Step → Finished → Step
unfolding gitleaks_findings_exit_code
gitleaks_verdict step f = elim f.exit [
  | not_started e ↦ set_error step (codes "Failed to spawn gitleaks: " ++ e)
  | signaled ↦ set_error step (codes "Failed to run gitleaks, please contact an administrator.")
  | exited code ↦
      if code == 0
      then log (log step (codes "Succeeded.")) (codes "Gitleaks output: " ++ f.stderr)
      else if code == gitleaks_findings_exit_code
      then set_error step (codes "\n" ++ (f.stdout ++ f.stderr))
      else set_error step (codes "Failed to run gitleaks, please contact an administrator.")
]

module _ (h : Host) (settings : Settings) where
  -- The run itself, behind the check of the configuration.
  unfoldable pub scan_with_gitleaks : h.World → Action → Step → GitleaksSettings → Outcome h.World
  unfolding gitleaks_args gitleaks_verdict repo_path
  scan_with_gitleaks w a step g =
      let dir = repo_path h a in
      let told = log step (
        codes "Scanning range with gitleaks: "
        ++ (a.commit_from ++ (codes ":" ++ (a.commit_to ++ (codes " in " ++ dir))))) in
      let (w1, out) =
        Git.run h w dir none (codes "rev-list" ∷ codes "--max-parents=0" ∷ codes "HEAD" ∷ []) in
      elim out [
        | err e ↦ finish w1 a (set_error told (codes "Failed to spawn gitleaks: " ++ e))
        | ok root_out ↦
            let root = trim_space root_out in
            let from = if str_eq root a.commit_from then root else a.commit_from ++ codes "^" in
            let (w2, f) = h.run_gitleaks w1 dir (gitleaks_args g from a.commit_to) in
            finish w2 a (gitleaks_verdict told f)
      ]

  unfoldable pub gitleaks : Processor h
  unfolding scan_with_gitleaks gitleaks_config
  gitleaks w r a =
      let step = new_step (codes "gitleaks") in
      let g = gitleaks_config settings in
      if not g.enabled
      then finish w a (log step (codes "Gitleaks is disabled, skipping."))
      else if not (is_empty g.config_path) && not (h.file_readable w g.config_path)
      then finish w a (
          set_error step (
            codes "Failed to get gitleaks config: unable to read file at the provided config path: "
            ++ g.config_path))
      else scan_with_gitleaks w a step g
