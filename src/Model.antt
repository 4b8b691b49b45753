-- ===== src/Model.antt =====
-- internal/db/model.go: the records that the program stores. Step.ID, a random value that nothing
-- reads, is left out. Pointers and `any` values that may be nil are options.
use git_proxy_go.Base.{ℕ, Bool, Option, List, Str}
use git_proxy_go.Pack.Objects.{PackMeta}

pub record PublicKey : Type 0 where
  pub key : Str
  pub fingerprint : Str

pub record User : Type 0 where
  pub username : Str
  pub password : Option Str
  pub git_account : Str
  pub email : Str
  pub admin : Bool
  pub oidc_id : Option Str
  pub display_name : Option Str
  pub title : Option Str
  pub public_keys : List PublicKey

pub record RepoUsers : Type 0 where
  pub can_push : List Str
  pub can_authorise : List Str

pub record Repo : Type 0 where
  pub id : Str
  pub project : Str
  pub name : Str
  pub url : Str
  pub users : RepoUsers

-- The values that the program puts into Step.Content.
pub data Content : Type 0 where
  text : Str → Content
  pack_meta : PackMeta → Content

pub record Step : Type 0 where
  pub step_name : Str
  pub content : Option Content
  pub error : Bool
  pub error_message : Option Str
  pub blocked : Bool
  pub blocked_message : Option Str
  pub logs : List Str

pub record CommitData : Type 0 where
  pub tree : Str
  pub parent : Str
  pub author : Str
  pub committer : Str
  pub author_email : Str
  pub committer_email : Str
  pub commit_timestamp : Str
  pub message : Str

pub record Reviewer : Type 0 where
  pub username : Str
  pub email : Str

pub record AttestationAnswer : Type 0 where
  pub label : Str
  pub checked : Bool

pub record Attestation : Type 0 where
  pub reviewer : Reviewer
  pub timestamp : Str
  pub automated : Bool
  pub answers : List AttestationAnswer

pub record Rejection : Type 0 where
  pub reviewer : Reviewer
  pub timestamp : Str
  pub automated : Bool
  pub reason : Str

pub record Push : Type 0 where
  pub id : Str
  pub kind : Str
  pub method : Str
  pub timestamp : ℕ
  pub project : Str
  pub repo_name : Str
  pub url : Str
  pub repo : Str
  pub steps : List Step
  pub error : Bool
  pub error_message : Option Str
  pub blocked : Bool
  pub blocked_message : Option Str
  pub allow_push : Bool
  pub authorised : Bool
  pub canceled : Bool
  pub rejected : Bool
  pub auto_approved : Bool
  pub auto_rejected : Bool
  pub commit_data : List CommitData
  pub commit_from : Str
  pub commit_to : Str
  pub branch : Str
  pub message : Str
  pub author : Str
  pub user : Str
  pub user_email : Str
  pub attestation : Option Attestation
  pub rejection : Option Rejection
  pub last_step : Option Step
  pub proxy_git_path : Str
  pub new_idx_files : List Str
