-- ===== src/Api/Review/Laws.antt =====
-- Who may decide on a push: what stands behind every change of the store by rejectPush,
-- authorisePush and cancelPush of api_routes.go.
use git_proxy_go.Base.{
  ◌≡◌, refl, ap, ◌∙◌, Bool-cases, if◌then◌else◌, inl, inr, arith, Bool, true, false, not, ◌||◌,
  Option, none, some, List, [], ◌∷◌, Str, Unicode, is_empty, member, equal_fold, Result, err, ok,
}
use git_proxy_go.Model.{Push, Repo, User}
use git_proxy_go.Db.Interface.{DbStore}
use git_proxy_go.Api.Context.{
  ApiUser, ApiRequest, Reply, Guarded, refuse, pass, ◌>>=◌, looked_up, present, require, IsRefusing,
  >>=-IsRefusing, looked_up-IsRefusing, present-IsRefusing,
}
use git_proxy_go.Api.Caller.{
  current_user, logged_in, stored_push, committer_for, first_user, reviewer, reviewer_of,
  can_approve_reject, on_authorise_list,
}

pub refuse_not_pass {ℓ} : {A : Type ℓ} {r : Reply} {a : A} → ¬ (refuse r ≡ pass a)
refuse_not_pass h = cc

pub >>=-eq-pass {ℓ₁ ℓ₂} :
    {A : Type ℓ₁} {B : Type ℓ₂} (first : Guarded A) (next : A → Guarded B) {b : B}
    → (first >>= next) ≡ pass b
    → (a : A) × (first ≡ pass a) × (next a ≡ pass b)
>>=-eq-pass (refuse r) next h = cc
>>=-eq-pass (pass a) next h = (a, refl, h)

-- The same for a proof of anything from the parts.
pub passed {ℓ₁ ℓ₂ ℓ₃} :
    {A : Type ℓ₁} {B : Type ℓ₂} {C : Type ℓ₃} (first : Guarded A) {next : A → Guarded B} {b : B}
    → (first >>= next) ≡ pass b
    → ((a : A) → first ≡ pass a → next a ≡ pass b → C)
    → C
passed (refuse r) h k = absurd (refuse_not_pass h)
passed (pass a) h k = k a refl h

pub looked_up-eq-pass {ℓ} : {A : Type ℓ} (m : Result A) {a : A} → looked_up m ≡ pass a → m ≡ ok a
unfolding looked_up
looked_up-eq-pass (err e) h = cc
looked_up-eq-pass (ok a) h = ground arith

pub present-eq-pass {ℓ} :
    {A : Type ℓ} (reply : Reply) (m : Option A) {a : A} → present reply m ≡ pass a → m ≡ some a
unfolding present
present-eq-pass reply none h = cc
present-eq-pass reply (some a) h = ground arith

pub require-eq-pass :
    (b : Bool) (reply : Reply) {x : Unit {0}} → require b reply ≡ pass x → b ≡ true
unfolding require
require-eq-pass false reply h = cc
require-eq-pass true reply h = refl

-- A refusal under a condition that let the request pass.
pub if_refused {ℓ} :
    {A : Type ℓ} (b : Bool) (reply : Reply) (m : Guarded A) {a : A}
    → (if b then refuse reply else m) ≡ pass a
    → (b ≡ false) × (m ≡ pass a)
if_refused true reply m h = absurd (refuse_not_pass h)
if_refused false reply m h = (refl, h)

first_user-eq-pass :
    (email : Str) (users : List User) {u : User}
    → first_user email users ≡ pass u
    → (others : List User) × (users ≡ u ∷ others)
unfolding first_user
first_user-eq-pass email [] h = cc
first_user-eq-pass email (x ∷ xs) h = (xs, ground arith)

on_authorise_list-true :
    (name : Str) (found : Option Repo)
    → on_authorise_list name found ≡ true
    → (repo : Repo) × (found ≡ some repo) × (member repo.users.can_authorise name ≡ true)
unfolding on_authorise_list
on_authorise_list-true name none h = cc
on_authorise_list-true name (some repo) h = (repo, refl, h)

first_user-IsRefusing : (email : Str) (users : List User) → IsRefusing (first_user email users)
unfolding first_user
first_user-IsRefusing email [] = refl
first_user-IsRefusing email (x ∷ xs) = tt

reviewer_of-IsRefusing : (name : Str) (found : Option User) → IsRefusing (reviewer_of name found)
unfolding reviewer_of
reviewer_of-IsRefusing name none = refl
reviewer_of-IsRefusing name (some x) = elim (Bool-cases (is_empty x.email)) [
  | inl blank ↦ rw blank refl
  | inr named ↦ rw named tt
]

module _ (u : Unicode) (store : DbStore) where
  pub logged_in-eq-pass :
      (d : store.State) (r : ApiRequest) {user : ApiUser}
      → logged_in u store d r ≡ pass user
      → current_user u store d r ≡ some user
  unfolding logged_in
  logged_in-eq-pass d r h = present-eq-pass _ _ h

  pub stored_push-eq-pass :
      (d : store.State) (id : Str) {push : Push}
      → stored_push u store d id ≡ pass push
      → store.get_push d id ≡ ok (some push)
  unfolding stored_push
  stored_push-eq-pass d id h =
      let (found, looked, rest) = >>=-eq-pass (looked_up (store.get_push d id)) _ h in
      looked_up-eq-pass _ looked ∙ ap ok (present-eq-pass _ found rest)

  pub committer_for-eq-pass :
      (d : store.State) (email : Str) {committer : User}
      → committer_for u store d email ≡ pass committer
      → (others : List User) × (store.get_users d (record { username = none; email = some email })
          ≡ ok (committer ∷ others))
  unfolding committer_for
  committer_for-eq-pass d email h =
      let (users, looked, rest) = >>=-eq-pass (looked_up (store.get_users d _)) _ h in
      let (others, e) = first_user-eq-pass email users rest in
      (others, looked_up-eq-pass _ looked ∙ ap ok e)

  pub can_approve_reject-true :
      (d : store.State) (push : Push) (name : Str)
      → can_approve_reject u store d push name ≡ pass true
      → (repo : Repo) × (store.get_repo_by_url d push.url ≡ ok (some repo))
        × (member repo.users.can_authorise name ≡ true)
  unfolding can_approve_reject
  can_approve_reject-true d push name h =
      let (found, looked, rest) = >>=-eq-pass (looked_up (store.get_repo_by_url d push.url)) _ h in
      let (repo, e, listed) = on_authorise_list-true name found (ground (arith, rest)) in
      (repo, looked_up-eq-pass _ looked ∙ ap ok e, listed)

  pub stored_push-IsRefusing : (d : store.State) (id : Str) → IsRefusing (stored_push u store d id)
  unfolding stored_push
  stored_push-IsRefusing d id =
      >>=-IsRefusing (looked_up _) _ (looked_up-IsRefusing _)
        λ found. present-IsRefusing _ found refl

  pub committer_for-IsRefusing :
      (d : store.State) (email : Str) → IsRefusing (committer_for u store d email)
  unfolding committer_for
  committer_for-IsRefusing d email =
      >>=-IsRefusing (looked_up _) _ (looked_up-IsRefusing _) (first_user-IsRefusing email)

  pub can_approve_reject-IsRefusing :
      (d : store.State) (push : Push) (name : Str)
      → IsRefusing (can_approve_reject u store d push name)
  unfolding can_approve_reject
  can_approve_reject-IsRefusing d push name =
      >>=-IsRefusing (looked_up _) _ (looked_up-IsRefusing _) λ repo. tt

  pub reviewer-IsRefusing : (d : store.State) (name : Str) → IsRefusing (reviewer u store d name)
  unfolding reviewer
  reviewer-IsRefusing d name =
      >>=-IsRefusing (looked_up _) _ (looked_up-IsRefusing _) (reviewer_of-IsRefusing name)

  -- A logged-in user may decide on the stored push: they are on the authorise list of its repository,
  -- and they are not its committer, unless the committer is an admin.
  abbrev pub Permitted : store.State → ApiRequest → ApiUser → Push → Type 0
  Permitted d r user push =
      (current_user u store d r ≡ some user)
      × (store.get_push d r.id_param ≡ ok (some push))
      × ((committer : User) × (others : List User) × (store.get_users d
              (record { username = none; email = some push.user_email })
            ≡ ok (committer ∷ others))
          × ((not (equal_fold u committer.username user.username) || committer.admin) ≡ true))
      × ((repo : Repo) × (store.get_repo_by_url d push.url ≡ ok (some repo))
          × (member repo.users.can_authorise user.username ≡ true))
