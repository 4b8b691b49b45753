-- ===== src/Db/Interface.antt =====
-- internal/db/store.go: the Store interface as operations on the database's state, each with the error
-- that it may return, and the SQLite store as an implementation of it.
use git_proxy_go.Base.{Option, none, List, Str, Result, ok}
use git_proxy_go.Model.{Push, Repo, User, Attestation, Rejection}
use git_proxy_go.Chain.Context.{UserQuery, Store}
use git_proxy_go.Db.Tables.{Database}
use git_proxy_go.Db.Pushes
use git_proxy_go.Db.Pushes.{PushQuery}
use git_proxy_go.Db.Repos
use git_proxy_go.Db.Repos.{RepoQuery}
use git_proxy_go.Db.Users

pub record DbStore : Type 1 where
  pub State : Type 0
  pub get_pushes : State → PushQuery → Result (List Push)
  pub write_audit : State → Push → State × Option Str
  pub get_push : State → Str → Result (Option Push)
  pub delete_push : State → Str → State × Option Str
  pub authorise : State → Str → Attestation → State × Result Str
  pub cancel : State → Str → State × Result Str
  pub reject : State → Str → Rejection → State × Result Str
  pub get_repos : State → RepoQuery → Result (List Repo)
  pub get_repo : State → Str → Result (Option Repo)
  pub get_repo_by_url : State → Str → Result (Option Repo)
  pub get_repo_by_id : State → Str → Result (Option Repo)
  pub create_repo : State → Repo → State × Result Repo
  pub add_user_can_push : State → Str → Str → State × Option Str
  pub add_user_can_authorise : State → Str → Str → State × Option Str
  pub remove_user_can_push : State → Str → Str → State × Option Str
  pub remove_user_can_authorise : State → Str → Str → State × Option Str
  pub delete_repo : State → Str → State × Option Str
  pub find_user : State → Str → Result (Option User)
  pub find_user_by_email : State → Str → Result (Option User)
  pub find_user_by_oidc : State → Str → Result (Option User)
  pub find_user_by_ssh_key : State → Str → Result (Option User)
  pub get_users : State → UserQuery → Result (List User)
  pub create_user : State → User → State × Option Str
  pub delete_user : State → Str → State × Option Str
  pub update_user : State → User → State × Option Str

-- What the chain is given of a store.
abbrev pub chain_store : DbStore → Store
chain_store s = record {
  State = s.State;
  get_repo_by_url = s.get_repo_by_url;
  get_users = s.get_users;
  get_push = s.get_push;
  write_audit = s.write_audit;
  authorise = s.authorise;
  reject = s.reject;
}

-- The SQLite store. `new_id` stands for the random id of a new repository.
abbrev pub sqlite : (Str → Str) → (Database → Str) → DbStore
sqlite lower new_id = record {
  State = Database;
  get_pushes = λ d q. ok (Pushes.get_pushes d q);
  write_audit = Pushes.write_audit;
  get_push = λ d id. ok (Pushes.get_push d id);
  delete_push = λ d id. (Pushes.delete_push d id, none);
  authorise = Pushes.authorise;
  cancel = Pushes.cancel;
  reject = Pushes.reject;
  get_repos = λ d q. ok (Repos.get_repos lower d q);
  get_repo = λ d name. ok (Repos.get_repo lower d name);
  get_repo_by_url = λ d url. ok (Repos.get_repo_by_url d url);
  get_repo_by_id = λ d id. ok (Repos.get_repo_by_id d id);
  create_repo = λ d r. Repos.create_repo lower d (new_id d) r;
  add_user_can_push = λ d id u. (Repos.add_user_can_push lower d id u, none);
  add_user_can_authorise = λ d id u. (Repos.add_user_can_authorise lower d id u, none);
  remove_user_can_push = λ d id u. (Repos.remove_user_can_push lower d id u, none);
  remove_user_can_authorise = λ d id u. (Repos.remove_user_can_authorise lower d id u, none);
  delete_repo = λ d id. (Repos.delete_repo d id, none);
  find_user = λ d name. ok (Users.find_user lower d name);
  find_user_by_email = λ d email. ok (Users.find_user_by_email lower d email);
  find_user_by_oidc = λ d id. ok (Users.find_user_by_oidc d id);
  find_user_by_ssh_key = λ d key. ok (Users.find_user_by_ssh_key d key);
  get_users = λ d q. ok (Users.get_users lower d q);
  create_user = Users.create_user lower;
  delete_user = λ d name. (Users.delete_user lower d name, none);
  update_user = Users.update_user lower;
}
