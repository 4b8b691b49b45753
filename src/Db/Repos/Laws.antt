-- ===== src/Db/Repos/Laws.antt =====
-- The access lists of a repository.
use mathlib.Core.Option
use git_proxy_go.Base.{
  ◌≡◌, refl, sym, ap, ◌∙◌, inl, inr, Bool, true, false, not, ◌&&◌, ◌||◌, some, List, [], ◌∷◌, ◌++◌,
  Str, arith, member, to_lower, str_eq, str_eq_iff, str_eq_sym, Bool-cases,
}
use git_proxy_go.Model.{Repo}
use git_proxy_go.Db.Tables.{Database, find, update_where}
use git_proxy_go.Db.Repos.{
  get_repo_by_id, Column, column, with_column, can_push, can_authorise, mutate_list, mutate_row,
  add_member, remove_member, without, add_to_list, remove_from_list,
}

pub member-append :
    (xs : List Str) (m x : Str) → member (xs ++ m ∷ []) x ≡ (member xs x || str_eq m x)
unfolding member
member-append [] m x = ground arith
member-append (y ∷ ys) m x = ground (arith, member-append ys m x)

pub member-add_member :
    (m : Str) (list : List Str) (x : Str)
    → member (add_member m list).0 x ≡ (str_eq m x || member list x)
unfolding add_member
member-add_member m list x = elim (Bool-cases (member list m)) [
  | inr new ↦ ground (arith, new, member-append list m x)
  | inl old ↦ elim (Bool-cases (str_eq m x)) [
    | inr other ↦ ground (arith, old, other)
    | inl same ↦ ground (arith, old, same, ap (member list) ((str_eq_iff m x).0 same))
  ]
]

member-without :
    (m x : Str) (list : List Str) → member (without m list) x ≡ (not (str_eq m x) && member list x)
unfolding member without
member-without m x [] = ground arith
member-without m x (y ∷ ys) = elim (Bool-cases (str_eq y m)) [
  | inl same ↦
      ground (arith, same, member-without m x ys, ap (λ s. str_eq s x) ((str_eq_iff y m).0 same))
  | inr other ↦ elim (Bool-cases (str_eq y x)) [
    | inl here ↦ ground (
      arith,
      other,
      here,
      member-without m x ys,
      ap (λ s. str_eq s m) ((str_eq_iff y x).0 here),
      str_eq_sym x m,
    )
    | inr else_where ↦ ground (arith, other, else_where, member-without m x ys)
  ]
]

with_column-id : (col : Column) (l : List Str) (r : Repo) → (with_column col l r).id ≡ r.id
unfolding with_column
with_column-id can_push l r = refl
with_column-id can_authorise l r = refl

column-with_column : (col : Column) (l : List Str) (r : Repo) → column col (with_column col l r) ≡ l
unfolding with_column column
column-with_column can_push l r = refl
column-with_column can_authorise l r = refl

find-update_where :
    (id : Str) (f : Repo → Repo) (rows : List Repo)
    → ((r : Repo) → (f r).id ≡ r.id)
    → find (λ x. str_eq x.id id) (update_where (λ x. str_eq x.id id) f rows)
      ≡ Option.map f (find (λ x. str_eq x.id id) rows)
unfolding find update_where
find-update_where id f [] keeps = refl
find-update_where id f (x ∷ xs) keeps = elim (Bool-cases (str_eq x.id id)) [
  | inl same ↦ rw (same, keeps x, same) refl
  | inr other ↦ rw (other, other) (find-update_where id f xs keeps)
]

mutate_row_kept :
    (d : Database) (id : Str) (col : Column) (fn : List Str → List Str × Bool) (r : Repo)
    → (fn (column col r)).1 ≡ false
    → mutate_row d id col fn (some r) ≡ d
unfolding mutate_row
mutate_row_kept d id col fn r kept = rw kept refl

mutate_row_changed :
    (d : Database) (id : Str) (col : Column) (fn : List Str → List Str × Bool) (r : Repo)
    → (fn (column col r)).1 ≡ true
    → mutate_row d id col fn (some r) ≡ record d {
      repos = update_where (λ x. str_eq x.id id) (with_column col (fn (column col r)).0) d.repos;
    }
unfolding mutate_row
mutate_row_changed d id col fn r changed = rw changed refl

-- The row with the id, behind a change of one of its lists.
mutate_row_lem :
    (d : Database) (id : Str) (col : Column) (fn : List Str → List Str × Bool) (r : Repo)
    → ((l : List Str) → (fn l).1 ≡ false → (fn l).0 ≡ l)
    → get_repo_by_id d id ≡ some r
    → (r' : Repo) × (get_repo_by_id (mutate_list d id col fn) id ≡ some r')
      × (column col r' ≡ (fn (column col r)).0)
unfolding mutate_list get_repo_by_id
mutate_row_lem d id col fn r same found =
    let list = (fn (column col r)).0 in
    let by_row = ap (mutate_row d id col fn) found in
    elim (Bool-cases (fn (column col r)).1) [
      | inr kept ↦ (
        r,
        ap (λ x. get_repo_by_id x id) (by_row ∙ mutate_row_kept d id col fn r kept) ∙ found,
        sym (same (column col r) kept),
      )
      | inl changed ↦ (
        with_column col list r,
        ap (λ x. get_repo_by_id x id) (by_row ∙ mutate_row_changed d id col fn r changed)
            ∙ find-update_where id (with_column col list) d.repos (with_column-id col list)
            ∙ ap (Option.map (with_column col list)) found,
        column-with_column col list r,
      )
    ]

add_member_same : (m : Str) (l : List Str) → (add_member m l).1 ≡ false → (add_member m l).0 ≡ l
unfolding add_member
add_member_same m l same = ground (arith, same)

remove_absent : (m : Str) (l : List Str) → member l m ≡ false → without m l ≡ l
unfolding without member
remove_absent m [] absent = refl
remove_absent m (x ∷ xs) absent = ground (arith, absent, remove_absent m xs)

-- Behind an addition to a list of a stored repository, a name is on that list exactly when it was
-- on it or is the added user's name in lower case.
pub member-add_to_list :
    (lower : Str → Str) (d : Database) (id m x : Str) (col : Column) (r : Repo)
    → get_repo_by_id d id ≡ some r
    → (r' : Repo) × (get_repo_by_id (add_to_list lower d id m col) id ≡ some r')
      × (member (column col r') x ≡ (str_eq (to_lower lower m) x || member (column col r) x))
unfolding add_to_list
member-add_to_list lower d id m x col r found =
    let name = to_lower lower m in
    let (r', stored, list) =
      mutate_row_lem d id col (add_member name) r (add_member_same name) found in
    (r', stored, ap (λ l. member l x) list ∙ member-add_member name (column col r) x)

-- Behind a removal from a list of a stored repository, a name is on that list exactly when it was
-- on it and is not the removed user's name in lower case.
pub member-remove_from_list :
    (lower : Str → Str) (d : Database) (id m x : Str) (col : Column) (r : Repo)
    → get_repo_by_id d id ≡ some r
    → (r' : Repo) × (get_repo_by_id (remove_from_list lower d id m col) id ≡ some r')
      × (member (column col r') x ≡ (not (str_eq (to_lower lower m) x) && member (column col r) x))
unfolding remove_from_list remove_member
member-remove_from_list lower d id m x col r found =
    let name = to_lower lower m in
    let (r', stored, list) =
      mutate_row_lem d id col (remove_member name) r (remove_absent name) found in
    (r', stored, ap (λ l. member l x) list ∙ member-without name x (column col r))
