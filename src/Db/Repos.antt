-- ===== src/Db/Repos.antt =====
-- The repos table (CreateRepo, GetRepos, GetRepo, GetRepoByURL, GetRepoByID, the access lists and
-- DeleteRepo). A new row's random id is an argument, and so is lower case outside ASCII.
pub mod Laws
use git_proxy_go.Base.{
  str_leb, Bool, true, false, ◌&&◌, not, Option, none, some, List, [], ◌∷◌, ◌++◌, Str, codes,
  if◌then◌else◌, str_eq, member, to_lower, Result, ok, err,
}
use git_proxy_go.Model.{Repo, RepoUsers}
use git_proxy_go.Db.Tables.{Database, find, where_rows, update_where, delete_where, order_by}
use git_proxy_go.Db.Pushes.{text_matches}

pub record RepoQuery : Type 0 where
  pub name : Option Str
  pub url : Option Str
  pub project : Option Str

unfoldable pub get_repo_by_url : Database → Str → Option Repo
get_repo_by_url d url = find (λ r. str_eq r.url url) d.repos

unfoldable pub get_repo_by_id : Database → Str → Option Repo
get_repo_by_id d id = find (λ r. str_eq r.id id) d.repos

unfoldable pub delete_repo : Database → Str → Database
delete_repo d id = record d { repos = delete_where (λ r. str_eq r.id id) d.repos }

-- The members that are not `member`, and whether one was.
unfoldable pub without : Str → List Str → List Str
without m [] = []
without m (x ∷ xs) = let rest = without m xs in if str_eq x m then rest else x ∷ rest

pub data Column : Type 0 where
  can_push can_authorise : Column

unfoldable pub column : Column → Repo → List Str
column can_push r = r.users.can_push
column can_authorise r = r.users.can_authorise

unfoldable pub with_column : Column → List Str → Repo → Repo
with_column can_push l r = record r { users = record r.users { can_push = l } }
with_column can_authorise l r = record r { users = record r.users { can_authorise = l } }

unfoldable pub mutate_row :
    Database → Str → Column → (List Str → List Str × Bool) → Option Repo → Database
unfolding column with_column
mutate_row d id col fn none = d
mutate_row d id col fn (some r) =
    let (list, changed) = fn (column col r) in
    if changed
    then record d { repos = update_where (λ x. str_eq x.id id) (with_column col list) d.repos }
    else d

-- `mutateList`: in a transaction, the list of the row with the id is read, changed, and written if it
-- changed. A missing row is no error.
unfoldable pub mutate_list : Database → Str → Column → (List Str → List Str × Bool) → Database
unfolding mutate_row
mutate_list d id col fn = mutate_row d id col fn (get_repo_by_id d id)

unfoldable pub add_member : Str → List Str → List Str × Bool
add_member m list = if member list m then (list, false) else (list ++ m ∷ [], true)

unfoldable pub remove_member : Str → List Str → List Str × Bool
unfolding without
remove_member m list = (without m list, member list m)

module _ (unicode_lower : Str → Str) where
  -- The error is that of the UNIQUE constraints on the id and the address.
  unfoldable pub create_repo : Database → Str → Repo → Database × Result Repo
  create_repo d id repo = elim (get_repo_by_id d id) [
    | some _ ↦ (d, err (codes "UNIQUE constraint failed: repos.id"))
    | none ↦ elim (get_repo_by_url d repo.url) [
      | some _ ↦ (d, err (codes "UNIQUE constraint failed: repos.url"))
      | none ↦
          let row : Repo = record repo { id = id; name = to_lower unicode_lower repo.name } in
          (record d { repos = d.repos ++ row ∷ [] }, ok row)
    ]
  ]

  unfoldable pub get_repo : Database → Str → Option Repo
  get_repo d name = find (λ r. str_eq r.name (to_lower unicode_lower name)) d.repos

  name_of : Option Str → Option Str
  name_of none = none
  name_of (some s) = some (to_lower unicode_lower s)

  -- ORDER BY name.
  unfoldable pub get_repos : Database → RepoQuery → List Repo
  unfolding name_of
  get_repos d q =
      order_by (λ a b. str_leb a.name b.name)
        (where_rows
          (λ r.
            text_matches (name_of q.name) r.name
            && text_matches q.url r.url
            && text_matches q.project r.project)
          d.repos)

  unfoldable pub add_to_list : Database → Str → Str → Column → Database
  unfolding mutate_list add_member
  add_to_list d id m col = mutate_list d id col (add_member (to_lower unicode_lower m))

  unfoldable pub remove_from_list : Database → Str → Str → Column → Database
  unfolding mutate_list remove_member
  remove_from_list d id m col = mutate_list d id col (remove_member (to_lower unicode_lower m))

  abbrev pub add_user_can_push : Database → Str → Str → Database
  add_user_can_push d id user = add_to_list d id user can_push

  abbrev pub add_user_can_authorise : Database → Str → Str → Database
  add_user_can_authorise d id user = add_to_list d id user can_authorise

  abbrev pub remove_user_can_push : Database → Str → Str → Database
  remove_user_can_push d id user = remove_from_list d id user can_push

  abbrev pub remove_user_can_authorise : Database → Str → Str → Database
  remove_user_can_authorise d id user = remove_from_list d id user can_authorise
