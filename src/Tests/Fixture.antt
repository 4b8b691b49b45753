-- ===== src/Tests/Fixture.antt =====
-- A host whose file system is empty and whose processes print nothing, a store with one repository, one
-- user and one approved push, and the requests of a git client.
use git_proxy_go.Base.{
  true, false, Option, none, some, [], ◌∷◌, ◌++◌, Str, codes, ok, err, str_eq, if◌then◌else◌,
  length,
}
use git_proxy_go.Model.{User, Repo, Push}
use git_proxy_go.Host.{Host, absent, exited}
use git_proxy_go.Pack.PktLine.RoundTrip.{encode_line}
use git_proxy_go.Chain.Action.{empty_push}
use git_proxy_go.Chain.Context.{Request, Store, Settings}
use git_proxy_go.Proxy.{Inbound, Body}

abbrev commit_text : Str
commit_text =
    codes "tree 1\nparent a\nauthor Al <al@b.cc> 1 +0000\ncommitter Al <al@b.cc> 1 +0000\n\nfix\n"

abbrev pub test_host : Host
test_host = record {
  World = Unit {0};
  Credentials = Unit {0};
  unix_milli = λ w. 7;
  utc_rfc3339 = λ w. [];
  unicode_lower = λ s. s;
  quote = λ s. s;
  join_path = λ a b. a ++ (codes "/" ++ b);
  abs_path = λ p. ok p;
  is_windows = false;
  json_strings = λ l. [];
  parse_url = λ s. none;
  zlib = λ s.
      ok (record {
        content = commit_text;
        failure = none;
        consumed = length s;
        close_failure = none;
      });
  compile = λ s. err (codes "no expressions");
  stat = λ w p. false;
  file_readable = λ w p. false;
  read_dir = λ w p. absent;
  mkdir_all = λ w p. (w, none);
  remove_all = λ w p. (w, none);
  exec_git = λ w dir input args. (w, [], none);
  plain_clone = λ w dir url auth depth. (w, none);
  plain_clone_ssh = λ w dir url name creds depth. (w, none);
  run_hook = λ w p dir input. (w, record { exit = exited 0; stdout = []; stderr = [] });
  run_gitleaks = λ w dir args. (w, record { exit = exited 0; stdout = []; stderr = [] });
}

abbrev pub test_repo : Repo
test_repo = record {
  id = codes "1";
  project = codes "o";
  name = codes "r.git";
  url = codes "https://github.com/o/r.git";
  users = record { can_push = codes "al" ∷ []; can_authorise = [] };
}

abbrev pub approved : Push
approved = record empty_push {
  id = codes "a__b";
  kind = codes "push";
  authorised = true;
  proxy_git_path = codes ".remote/a__b";
}

abbrev pub test_user : User
test_user = record {
  username = codes "al";
  password = none;
  git_account = [];
  email = codes "al@b.cc";
  admin = false;
  oidc_id = none;
  display_name = none;
  title = none;
  public_keys = [];
}

-- The one repository, user and push.
abbrev pub test_store : Store
test_store = record {
  State = Unit {0};
  get_repo_by_url = λ d url. ok (if str_eq url test_repo.url then some test_repo else none);
  get_users = λ d q. ok (test_user ∷ []);
  get_push = λ d id. ok (if str_eq id approved.id then some approved else none);
  write_audit = λ d p. (d, none);
  authorise = λ d id a. (d, ok id);
  reject = λ d id a. (d, ok id);
}

abbrev pub test_settings : Settings
test_settings = record {
  config = none;
  remote_dir = codes ".remote";
  ui_port = [];
  proxy_port = [];
  pre_receive_hook = [];
}

-- A push of the commit b on top of a, to the branch main.
abbrev pub push_body : Str
push_body =
    encode_line (codes "a b refs/heads/main" ++ 0 ∷ codes "caps")
    ++ (codes "0000PACK" ++ 0 ∷ 0 ∷ 0 ∷ 2 ∷ 0 ∷ 0 ∷ 0 ∷ 1 ∷ 16 ∷ 9 ∷ [])

abbrev git_header : Str → Str → Str
git_header content_type name =
    if str_eq name (codes "User-Agent")
    then codes "git/2.40"
    else if str_eq name (codes "Accept")
    then codes "application/x-git-receive-pack-result"
    else if str_eq name (codes "Content-Type")
    then content_type
    else []

-- A POST to the repository's service.
abbrev pub test_request : Str → Option Str → Request (Unit {0})
test_request service raw_body = record {
  method = codes "POST";
  request_uri = codes "/github.com/o/r.git/git-" ++ service;
  path = codes "/github.com/o/r.git/git-" ++ service;
  host = codes "proxy";
  has_tls = false;
  header = git_header (codes "application/x-git-" ++ (service ++ codes "-request"));
  basic_auth = some (codes "al", codes "pw");
  raw_body = raw_body;
  ssh_auth = none;
}

abbrev pub whole : Str → Body
whole content = record { content = content; failure = none }

abbrev pub inbound : Str → Str → Inbound (Unit {0})
inbound service body = record {
  request = test_request service none;
  url_request_uri = [];
  body = some (whole body);
}
