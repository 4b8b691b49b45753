-- ===== src/Api/Review/Stored.antt =====
-- The review of a push over the SQLite store: what a lookup finds behind a request that was answered
-- with success, and who may cancel a push.
use git_proxy_go.Base.{
  clash, ◌≡◌, refl, ap, ◌∙◌, ◌⊎◌, ◌==◌, true, false, ◌||◌, Option, none, some, Str, Unicode, Result,
  ok, codes, str_eq, str_eq_refl, if◌then◌else◌, member, to_lower,
}
use git_proxy_go.Model.{Push, Repo, Attestation}
use git_proxy_go.Db.Tables.{Database}
use git_proxy_go.Db.Json.{json_attestation}
use git_proxy_go.Db.Pushes
use git_proxy_go.Db.Pushes.Laws.{Consistent, get_push-authorise}
use git_proxy_go.Db.Interface.{DbStore, sqlite}
use git_proxy_go.Api.Context.{
  ApiUser, ApiRequest, ApiSettings, Reply, Guarded, refuse, pass, looked_up, require, IsRefusing,
  >>=-IsRefusing, present-IsRefusing, require-IsRefusing,
}
use git_proxy_go.Api.Caller.{
  current_user, logged_in, stored_push, committer_for, not_own, reviewer, can_approve_reject,
  can_cancel, can_cancel_found, on_either_list,
}
use git_proxy_go.Api.Review.{behind, authorise_checks, authorise_push, cancel_checks, cancel_push}
use git_proxy_go.Api.Review.Answers.{validate_attestation}
use git_proxy_go.Api.Review.Laws.{
  passed, looked_up-eq-pass, require-eq-pass, logged_in-eq-pass, stored_push-IsRefusing,
  committer_for-IsRefusing, can_approve_reject-IsRefusing, reviewer-IsRefusing,
}
use git_proxy_go.Api.Review.Permitted.{
  authorise_checks-answers, authorise_checks-Permitted, decided_state, behind_cases, pass-injective,
}

module _ (u : Unicode) (store : DbStore) (settings : ApiSettings) where
  authorise_checks-IsRefusing :
      (d : store.State) (r : ApiRequest) → IsRefusing (authorise_checks u store settings d r)
  unfolding authorise_checks logged_in not_own
  authorise_checks-IsRefusing d r =
      >>=-IsRefusing (logged_in u store d r) _ (present-IsRefusing _ _ refl) λ user.
        >>=-IsRefusing (require _ _) _ (require-IsRefusing _ _ refl) λ _.
          >>=-IsRefusing (stored_push u store d _) _ (stored_push-IsRefusing u store d _) λ push.
            >>=-IsRefusing (committer_for u store d _) _ (committer_for-IsRefusing u store d _)
              λ committer. >>=-IsRefusing (require _ _) _ (require-IsRefusing _ _ refl) λ _.
                >>=-IsRefusing (can_approve_reject u store d push _) _
                  (can_approve_reject-IsRefusing u store d push _)
                  λ allowed. >>=-IsRefusing (require allowed _) _ (require-IsRefusing _ _ refl) λ _.
                    >>=-IsRefusing (reviewer u store d _) _ (reviewer-IsRefusing u store d _)
                      λ judge. tt

pub ok-injective {ℓ} : {A : Type ℓ} {a b : A} → Result.ok a ≡ Result.ok b → a ≡ b
ok-injective h = cc

not_refused {ℓ κ} :
    {S : Type ℓ} {A : Type κ} (s : S) (m : Guarded A) (write : A → S × Reply)
    → IsRefusing m
    → ((behind s m write).1.status == 200) ≡ true
    → (a : A) × (m ≡ pass a) × (behind s m write ≡ write a)
unfolding behind
not_refused s (refuse reply) write h won = absurd (clash won h)
not_refused s (pass a) write h won = (a, refl, refl)

authorised_lookup :
    (d : Database) (id : Str) (attestation : Attestation) (p : Push)
    → Consistent d
    → Pushes.get_push d id ≡ some p
    → Pushes.get_push (Pushes.authorise d id attestation).0 id
      ≡ some (record p {
        authorised = true;
        canceled = false;
        rejected = false;
        attestation = some (json_attestation attestation);
      })
authorised_lookup d id attestation p h stored =
    get_push-authorise d id id attestation h
    ∙ ap
        (λ found. elim found [
          | none ↦ Pushes.get_push d id
          | some p ↦
              if str_eq id id
              then some (record p {
                authorised = true;
                canceled = false;
                rejected = false;
                attestation = some (json_attestation attestation);
              })
              else Pushes.get_push d id
        ])
        stored
    ∙ ap
        (λ b.
          if b
          then some (record p {
            authorised = true;
            canceled = false;
            rejected = false;
            attestation = some (json_attestation attestation);
          })
          else Pushes.get_push d id)
        (str_eq_refl id)

module _ (u : Unicode) (new_id : Database → Str) (settings : ApiSettings) where
  -- Where a request to authorise a push over a consistent SQLite store is answered with status 200, the
  -- push was stored, and a lookup behind the request finds it authorised, neither canceled nor
  -- rejected, with what JSON makes of an attestation that has the answers of the request; and the
  -- answers are valid.
  pub authorise_push-get_push :
      (d : Database) (r : ApiRequest)
      → Consistent d
      → ((authorise_push u (sqlite u.unicode_lower new_id) settings d r).1.status == 200) ≡ true
      → (validate_attestation r.body.answers settings.config ≡ true)
        × ((p : Push) × (attestation : Attestation) × (Pushes.get_push d r.id_param ≡ some p)
            × (attestation.answers ≡ r.body.answers)
            × (Pushes.get_push
                  (authorise_push u (sqlite u.unicode_lower new_id) settings d r).0
                  r.id_param
                ≡ some (record p {
                  authorised = true;
                  canceled = false;
                  rejected = false;
                  attestation = some (json_attestation attestation);
                })))
  unfolding authorise_push
  authorise_push-get_push d r h won =
      let store = sqlite u.unicode_lower new_id in
      let (attestation, checked, done) =
        not_refused d (authorise_checks u store settings d r) _
          (authorise_checks-IsRefusing u store settings d r) won in
      let (user, p, valid, permitted) = authorise_checks-Permitted u store settings d r checked in
      let stored = ok-injective permitted.1 in
      (
        valid,
        (
          p,
          attestation,
          stored,
          authorise_checks-answers u store settings d r checked,
          ap (λ x. Pushes.get_push x.0 r.id_param) done
              ∙ ap (λ d. Pushes.get_push d r.id_param)
                  (decided_state (codes "authorise failed")
                    (Pushes.authorise d r.id_param attestation))
              ∙ authorised_lookup d r.id_param attestation p h stored,
        ),
      )

on_either_list-true :
    (name : Str) (found : Option Repo)
    → on_either_list name found ≡ true
    → (repo : Repo) × (found ≡ some repo)
      × ((member repo.users.can_push name || member repo.users.can_authorise name) ≡ true)
unfolding on_either_list
on_either_list-true name none h = cc
on_either_list-true name (some repo) h = (repo, refl, h)

module _ (u : Unicode) (store : DbStore) (settings : ApiSettings) where
  -- The lower-cased name stands on a list of the repository of a stored push.
  abbrev pub MayCancel : store.State → Str → Str → Type 0
  MayCancel d id name =
      (push : Push) × (repo : Repo) × (store.get_push d id ≡ ok (some push))
      × (store.get_repo_by_url d push.url ≡ ok (some repo))
      × ((member repo.users.can_push (to_lower u.unicode_lower name)
            || member repo.users.can_authorise (to_lower u.unicode_lower name))
          ≡ true)

  can_cancel_found-MayCancel :
      (d : store.State) (id name : Str) (found : Option Push)
      → store.get_push d id ≡ ok found
      → can_cancel_found u store d name found ≡ pass true
      → MayCancel d id name
  unfolding can_cancel_found
  can_cancel_found-MayCancel d id name none e h = absurd (clash (pass-injective h) refl)
  can_cancel_found-MayCancel d id name (some push) e h =
      passed (looked_up (store.get_repo_by_url d push.url)) h λ found q h.
        let (repo, f, listed) = on_either_list-true _ found (pass-injective h) in
        (push, repo, e, looked_up-eq-pass _ q ∙ ap ok f, listed)

  -- Canceling a push leaves the store as it is, or: the caller is logged in, the push and its repository
  -- are stored, the caller's lower-cased name is on one of the repository's lists, and the state is
  -- what the store's cancel of that push makes of it.
  pub cancel_push_permitted :
      (d : store.State) (r : ApiRequest)
      → ((cancel_push u store settings d r).0 ≡ d)
        ⊎ ((user : ApiUser) × (current_user u store d r ≡ some user)
            × MayCancel d r.id_param user.username
            × ((cancel_push u store settings d r).0 ≡ (store.cancel d r.id_param).0))
  unfolding cancel_push cancel_checks can_cancel
  cancel_push_permitted d r = behind_cases d _ _ λ _ h done.
      passed (logged_in u store d r) h λ user l h.
        passed (can_cancel u store d r.id_param user.username) h λ allowed a h.
          passed (looked_up (store.get_push d r.id_param)) a λ found f a. (
            user,
            logged_in-eq-pass u store d r l,
            can_cancel_found-MayCancel d r.id_param user.username found (looked_up-eq-pass _ f)
                (a ∙ ap pass (require-eq-pass _ _ h)),
            ap (λ x. x.0) done ∙ decided_state (codes "cancel failed") (store.cancel d r.id_param),
          )
