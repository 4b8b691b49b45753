-- ===== src/Chain/Config.antt =====
-- The parts of the configuration (internal/config/generated) that the chain and the management
-- API read. The providers, a map, are listed in the order in which the
-- loop visits them.
use git_proxy_go.Base.{Bool, Option, List, Str}

-- A value of type `any`: a string, or another value as `fmt.Sprint` prints it.
pub data DiffPattern : Type 0 where
  as_text : Str → DiffPattern
  as_other : Str → DiffPattern

pub record DiffBlock : Type 0 where
  pub literals : List Str
  pub patterns : List DiffPattern
  pub providers : List (Str × Str)

pub record MessageBlock : Type 0 where
  pub literals : List Str
  pub patterns : List Str

-- Absent and empty rules are treated alike by the code, which tests for both.
pub record EmailRules : Type 0 where
  pub domain_allow : Option Str
  pub local_block : Option Str

pub record CommitConfig : Type 0 where
  pub author_email : Option EmailRules
  pub message_block : Option MessageBlock
  pub diff_block : Option DiffBlock

pub record Gitleaks : Type 0 where
  pub enabled : Option Bool
  pub ignore_gitleaks_allow : Option Bool
  pub no_color : Option Bool
  pub config_path : Option Str

pub record Domains : Type 0 where
  pub service : Option Str
  pub proxy : Option Str

pub record Config : Type 0 where
  pub commit_config : Option CommitConfig
  pub gitleaks : Option Gitleaks
  pub domains : Option Domains
  pub private_organizations : List Str
  pub attestation_questions : List Str
