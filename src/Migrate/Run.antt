-- ===== src/Migrate/Run.antt =====
-- internal/migrate/migrate.go: a run of the migration, with its report.
pub mod Laws
use git_proxy_go.Base.{
  ℕ, zero, suc, ◌==◌, ltb, Bool, true, false, not, Option, none, some, List, [], ◌∷◌, ◌++◌, Str,
  codes, if◌then◌else◌, Result, err, ok,
}
use git_proxy_go.Model.{User, Repo, Push}
use git_proxy_go.Db.Interface.{DbStore}
use git_proxy_go.Migrate.Replay.{is_some}

pub data Action : Type 0 where
  would_create would_update created updated skipped failed : Action

abbrev pub code_of : Action → ℕ
code_of would_create = 0
code_of would_update = 1
code_of created = 2
code_of updated = 3
code_of skipped = 4
code_of failed = 5

pub record Record : Type 0 where
  pub collection : Str
  pub key : Str
  pub action : Action
  pub error : Option Str

-- `summary` is the map from actions to counts.
pub record Report : Type 0 where
  pub source : Str
  pub dry_run : Bool
  pub records : List Record
  pub summary : Action → ℕ

unfoldable pub has_errors : Report → Bool
has_errors rep = ltb 0 (rep.summary failed)

-- A record's action where there is an error.
unfoldable pub action_of : Action → Option Str → Action
action_of action none = action
action_of action (some e) = failed

unfoldable pub add : Report → Str → Str → Action → Option Str → Report
unfolding action_of
add rep collection key action error =
    let a = action_of action error in
    record rep {
      records =
          rep.records
          ++ record { collection = collection; key = key; action = a; error = error } ∷ [];
      summary = λ x. if code_of x == code_of a then suc (rep.summary x) else rep.summary x;
    }

-- What the old data is read from: each collection, or the error of reading it.
pub record Source : Type 0 where
  pub kind : Str
  pub users : Result (List User)
  pub repos : Result (List Repo)
  pub pushes : Result (List Push)

module _ (store : DbStore) (dry_run : Bool) where
  -- A write and its error, recorded.
  unfoldable pub recorded :
      Report → Str → Str → Action → store.State × Option Str → store.State × Report
  recorded rep collection key action (d, e) = (d, add rep collection key action e)

  unfoldable pub outcome_of : store.State × Result Repo → store.State × Option Str
  outcome_of (d, err e) = (d, some e)
  outcome_of (d, ok _) = (d, none)

  unfoldable pub user_found :
      store.State → Report → User → Result (Option User) → store.State × Report
  unfolding recorded
  user_found d rep u (err e) = (d, add rep (codes "users") u.username failed (some e))
  user_found d rep u (ok (some _)) = (d, add rep (codes "users") u.username skipped none)
  user_found d rep u (ok none) =
      if dry_run
      then (d, add rep (codes "users") u.username would_create none)
      else recorded rep (codes "users") u.username created (store.create_user d u)

  unfoldable pub migrate_user : store.State → Report → User → store.State × Report
  unfolding user_found
  migrate_user d rep u = user_found d rep u (store.find_user d u.username)

  unfoldable pub repo_found :
      store.State → Report → Repo → Result (Option Repo) → store.State × Report
  unfolding recorded outcome_of
  repo_found d rep r (err e) = (d, add rep (codes "repos") r.url failed (some e))
  repo_found d rep r (ok (some _)) = (d, add rep (codes "repos") r.url skipped none)
  repo_found d rep r (ok none) =
      if dry_run
      then (d, add rep (codes "repos") r.url would_create none)
      else recorded rep (codes "repos") r.url created (outcome_of (store.create_repo d r))

  unfoldable pub migrate_repo : store.State → Report → Repo → store.State × Report
  unfolding repo_found
  migrate_repo d rep r = repo_found d rep r (store.get_repo_by_url d r.url)

  unfoldable pub push_found :
      store.State → Report → Push → Result (Option Push) → store.State × Report
  unfolding recorded
  push_found d rep p (err e) = (d, add rep (codes "pushes") p.id failed (some e))
  push_found d rep p (ok existing) =
      if dry_run
      then (
        d,
        add rep (codes "pushes") p.id (if is_some existing then would_update else would_create)
            none,
      )
      else recorded rep (codes "pushes") p.id (if is_some existing then updated else created)
          (store.write_audit d p)

  unfoldable pub migrate_push : store.State → Report → Push → store.State × Report
  unfolding push_found
  migrate_push d rep p = push_found d rep p (store.get_push d p.id)

  -- The loop of a collection.
  unfoldable pub each :
      {A : Type 0}
      → (store.State → Report → A → store.State × Report)
      → store.State
      → Report
      → List A
      → store.State × Report
  each step d rep [] = (d, rep)
  each step d rep (x ∷ xs) = let (d, rep) = step d rep x in each step d rep xs

  -- A collection that cannot be read ends the run.
  unfoldable pub collection :
      {A : Type 0}
      → (store.State → Report → A → store.State × Report)
      → Str
      → Result (List A)
      → (store.State → Report → store.State × Report × Option Str)
      → store.State
      → Report
      → store.State × Report × Option Str
  unfolding each
  collection step name (err e) next d rep =
      (d, rep, some (codes "read " ++ (name ++ (codes ": " ++ e))))
  collection step name (ok xs) next d rep = let (d, rep) = each step d rep xs in next d rep

  abbrev pub new_report : Source → Report
  new_report src = record { source = src.kind; dry_run = dry_run; records = []; summary = λ _. 0 }

  unfoldable pub run : Source → store.State → store.State × Report × Option Str
  unfolding collection migrate_user migrate_repo migrate_push
  run src d =
      collection migrate_user (codes "users") src.users
        (λ d rep.
          collection migrate_repo (codes "repos") src.repos
            (λ d rep.
              collection migrate_push (codes "pushes") src.pushes (λ d rep. (d, rep, none)) d rep)
            d rep)
        d (new_report src)
