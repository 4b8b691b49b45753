-- ===== src/Migrate/Run/Laws.antt =====
-- What a run of the migration changes, and what its report counts.
use git_proxy_go.Base.{
  ◌≡◌, refl, sym, ap, ◌∙◌, arith, inl, inr, ℕ, suc, ◌+◌, ◌==◌, Bool, true, Option, none, some, List,
  [], ◌∷◌, ◌++◌, Str, codes, if◌then◌else◌, Bool-cases, Result, err, ok,
}
use git_proxy_go.Model.{User, Repo, Push}
use git_proxy_go.Db.Interface.{DbStore}
use git_proxy_go.Migrate.Run.{
  Action, code_of, Record, Report, action_of, add, Source, recorded, user_found, migrate_user,
  repo_found, migrate_repo, push_found, migrate_push, each, collection, new_report, run,
}

-- The records with an action.
abbrev pub count : Action → List Record → ℕ
count a [] = 0
count a (r ∷ records) = (if code_of a == code_of r.action then 1 else 0) + count a records

count-append :
    (a : Action) (records : List Record) (r : Record)
    → count a (records ++ r ∷ [])
      ≡ (if code_of a == code_of r.action then suc (count a records) else count a records)
count-append a [] r = ground arith
count-append a (x ∷ xs) r = ground (arith, count-append a xs r)

-- The summary counts the records of each action.
pub record IsCounted (rep : Report) : Type 0 where
  pub counted : (a : Action) → rep.summary a ≡ count a rep.records

add-IsCounted :
    (rep : Report) (name key : Str) (action : Action) (e : Option Str)
    → IsCounted rep
    → IsCounted (add rep name key action e)
unfolding add
add-IsCounted rep name key action e h = record {
  counted = λ a.
      ap (λ n. if code_of a == code_of (action_of action e) then suc n else n) (h.counted a)
      ∙ sym (
          count-append a rep.records
            (record { collection = name; key = key; action = action_of action e; error = e }));
}

module _ (store : DbStore) (dry_run : Bool) where
  -- A property of the state and the report that each step keeps is kept by the loop.
  each-keeps {ℓ} :
      {A : Type 0} (P : store.State → Report → Type ℓ)
      (step : store.State → Report → A → store.State × Report)
      → ((d : store.State) (rep : Report) (x : A) → P d rep → P (step d rep x).0 (step d rep x).1)
      → (d : store.State) (rep : Report) (xs : List A) → P d rep
      → P (each store dry_run step d rep xs).0 (each store dry_run step d rep xs).1
  unfolding each
  each-keeps P step keeps d rep [] h = h
  each-keeps P step keeps d rep (x ∷ xs) h =
      each-keeps P step keeps (step d rep x).0 (step d rep x).1 xs (keeps d rep x h)

  collection-keeps {ℓ} :
      {A : Type 0} (P : store.State → Report → Type ℓ)
      (step : store.State → Report → A → store.State × Report) (name : Str) (xs : Result (List A))
      (next : store.State → Report → store.State × Report × Option Str)
      → ((d : store.State) (rep : Report) (x : A) → P d rep → P (step d rep x).0 (step d rep x).1)
      → ((d : store.State) (rep : Report) → P d rep → P (next d rep).0 (next d rep).1)
      → (d : store.State) (rep : Report) → P d rep
      → P
          (collection store dry_run step name xs next d rep).0
          (collection store dry_run step name xs next d rep).1
  unfolding collection
  collection-keeps P step name (err e) next keeps later d rep h = h
  collection-keeps P step name (ok xs) next keeps later d rep h =
      later (each store dry_run step d rep xs).0 (each store dry_run step d rep xs).1
        (each-keeps P step keeps d rep xs h)

  -- The same for a whole run.
  run-keeps {ℓ} :
      (P : store.State → Report → Type ℓ) (src : Source) (d : store.State)
      → ((d : store.State) (rep : Report) (u : User)
          → P d rep
          → P (migrate_user store dry_run d rep u).0 (migrate_user store dry_run d rep u).1)
      → ((d : store.State) (rep : Report) (r : Repo)
          → P d rep
          → P (migrate_repo store dry_run d rep r).0 (migrate_repo store dry_run d rep r).1)
      → ((d : store.State) (rep : Report) (p : Push)
          → P d rep
          → P (migrate_push store dry_run d rep p).0 (migrate_push store dry_run d rep p).1)
      → P d (new_report store dry_run src)
      → P (run store dry_run src d).0 (run store dry_run src d).1
  unfolding run
  run-keeps P src d users repos pushes h =
      collection-keeps P (migrate_user store dry_run) (codes "users") src.users _ users
        (collection-keeps P (migrate_repo store dry_run) (codes "repos") src.repos _ repos (
          collection-keeps P (migrate_push store dry_run) (codes "pushes") src.pushes
            (λ d rep. (d, rep, none)) pushes (λ d rep h. h)))
        d (new_report store dry_run src) h

  user_found-IsCounted :
      (d : store.State) (rep : Report) (u : User) (found : Result (Option User))
      → IsCounted rep
      → IsCounted (user_found store dry_run d rep u found).1
  unfolding user_found recorded
  user_found-IsCounted d rep u (err e) h = add-IsCounted rep _ _ _ _ h
  user_found-IsCounted d rep u (ok (some x)) h = add-IsCounted rep _ _ _ _ h
  user_found-IsCounted d rep u (ok none) h = elim (Bool-cases dry_run) [
    | inl dry ↦ rw dry (add-IsCounted rep _ _ _ _ h)
    | inr wet ↦ rw wet (add-IsCounted rep _ _ _ _ h)
  ]

  repo_found-IsCounted :
      (d : store.State) (rep : Report) (r : Repo) (found : Result (Option Repo))
      → IsCounted rep
      → IsCounted (repo_found store dry_run d rep r found).1
  unfolding repo_found recorded
  repo_found-IsCounted d rep r (err e) h = add-IsCounted rep _ _ _ _ h
  repo_found-IsCounted d rep r (ok (some x)) h = add-IsCounted rep _ _ _ _ h
  repo_found-IsCounted d rep r (ok none) h = elim (Bool-cases dry_run) [
    | inl dry ↦ rw dry (add-IsCounted rep _ _ _ _ h)
    | inr wet ↦ rw wet (add-IsCounted rep _ _ _ _ h)
  ]

  push_found-IsCounted :
      (d : store.State) (rep : Report) (p : Push) (found : Result (Option Push))
      → IsCounted rep
      → IsCounted (push_found store dry_run d rep p found).1
  unfolding push_found recorded
  push_found-IsCounted d rep p (err e) h = add-IsCounted rep _ _ _ _ h
  push_found-IsCounted d rep p (ok found) h = elim (Bool-cases dry_run) [
    | inl dry ↦ rw dry (add-IsCounted rep _ _ _ _ h)
    | inr wet ↦ rw wet (add-IsCounted rep _ _ _ _ h)
  ]

  -- However a run ends, the summary of its report has for each action the number of records with it.
  pub run-IsCounted : (src : Source) (d : store.State) → IsCounted (run store dry_run src d).1
  unfolding migrate_user migrate_repo migrate_push
  run-IsCounted src d =
      run-keeps (λ _ rep. IsCounted rep) src d
        (λ d rep u h. user_found-IsCounted d rep u (store.find_user d u.username) h)
        (λ d rep r h. repo_found-IsCounted d rep r (store.get_repo_by_url d r.url) h)
        (λ d rep p h. push_found-IsCounted d rep p (store.get_push d p.id) h)
        (record { counted = λ a. refl })

module _ (store : DbStore) where
  user_found-dry :
      (d : store.State) (rep : Report) (u : User) (found : Result (Option User))
      → (user_found store true d rep u found).0 ≡ d
  unfolding user_found
  user_found-dry d rep u (err e) = refl
  user_found-dry d rep u (ok none) = refl
  user_found-dry d rep u (ok (some x)) = refl

  repo_found-dry :
      (d : store.State) (rep : Report) (r : Repo) (found : Result (Option Repo))
      → (repo_found store true d rep r found).0 ≡ d
  unfolding repo_found
  repo_found-dry d rep r (err e) = refl
  repo_found-dry d rep r (ok none) = refl
  repo_found-dry d rep r (ok (some x)) = refl

  push_found-dry :
      (d : store.State) (rep : Report) (p : Push) (found : Result (Option Push))
      → (push_found store true d rep p found).0 ≡ d
  unfolding push_found
  push_found-dry d rep p (err e) = refl
  push_found-dry d rep p (ok found) = refl

  -- A dry run leaves the store as it is, whatever it reads and however it ends.
  pub run-dry : (src : Source) (d : store.State) → (run store true src d).0 ≡ d
  unfolding migrate_user migrate_repo migrate_push
  run-dry src d =
      run-keeps store true (λ s _. s ≡ d) src d
        (λ s rep u h. user_found-dry s rep u (store.find_user s u.username) ∙ h)
        (λ s rep r h. repo_found-dry s rep r (store.get_repo_by_url s r.url) ∙ h)
        (λ s rep p h. push_found-dry s rep p (store.get_push s p.id) ∙ h) refl
