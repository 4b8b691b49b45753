-- ===== src/Api/Review/Permitted.antt =====
-- Who may authorise and reject a push: what stands behind every change of the store by rejectPush and
-- authorisePush of api_routes.go.
use git_proxy_go.Base.{
  ◌≡◌, refl, sym, ◌⊎◌, ap, ◌∙◌, some, inl, inr, arith, true, false, not, ◌&&◌, ◌||◌, Bool, Str,
  Unicode, Result, err, ok, codes, is_empty, trim_space,
}
use git_proxy_go.Model.{Push, Attestation, Rejection}
use git_proxy_go.Db.Interface.{DbStore}
use git_proxy_go.Api.Context.{
  ApiUser, ApiRequest, ApiSettings, Reply, Guarded, refuse, pass, ◌>>=◌, ◌>>◌, require,
}
use git_proxy_go.Api.Caller.{
  current_user, logged_in, stored_push, committer_for, not_own, reviewer, can_approve_reject,
}
use git_proxy_go.Api.Review.{
  decided, behind, authorise_checks, authorise_push, reject_checks, reject_push,
}
use git_proxy_go.Api.Review.Answers.{validate_attestation}
use git_proxy_go.Api.Review.Laws.{
  passed, require-eq-pass, logged_in-eq-pass, stored_push-eq-pass, committer_for-eq-pass,
  can_approve_reject-true, Permitted,
}

unless_own : (own admin : Bool) → not (own && not admin) ≡ true → (not own || admin) ≡ true
unless_own false admin h = refl
unless_own true false h = cc
unless_own true true h = refl

unless_true : (b : Bool) → not b ≡ true → b ≡ false
unless_true b h = ground arith

pub pass-injective {ℓ} : {A : Type ℓ} {a b : A} → Guarded.pass a ≡ pass b → a ≡ b
pass-injective h = cc

pub decided_state {ℓ} :
    {S : Type ℓ} (refusal : Str) (x : S × Result Str) → (decided refusal x).0 ≡ x.0
unfolding decided
decided_state refusal (s, err e) = refl
decided_state refusal (s, ok result) = refl

pub behind_cases {ℓ κ μ} :
    {S : Type ℓ} {A : Type κ} {C : Type μ} (s : S) (m : Guarded A) (write : A → S × Reply)
    → ((a : A) → m ≡ pass a → behind s m write ≡ write a → C)
    → ((behind s m write).0 ≡ s) ⊎ C
unfolding behind
behind_cases s (refuse reply) write k = inl refl
behind_cases s (pass a) write k = inr (k a refl refl)

module _ (u : Unicode) (store : DbStore) where
  -- The checks that both decisions make of the stored push.
  decision-eq-pass {ℓ} :
      {A : Type ℓ} (d : store.State) (r : ApiRequest) (user : ApiUser) (push : Push) (own : Str)
      (reply : Reply) (next : Guarded A) {a : A}
      → current_user u store d r ≡ some user
      → store.get_push d r.id_param ≡ ok (some push)
      → (committer_for u store d push.user_email >>= λ committer.
          not_own u store committer user own
          >> (can_approve_reject u store d push user.username >>= λ allowed.
              require allowed reply >> next))
        ≡ pass a
      → Permitted u store d r user push × (next ≡ pass a)
  unfolding not_own
  decision-eq-pass d r user push own reply next l p h =
      passed (committer_for u store d push.user_email) h λ committer c h.
        passed (require _ _) h λ _ o h.
          passed (can_approve_reject u store d push user.username) h λ allowed a h.
            passed (require allowed reply) h λ _ q h. (
              (
                l,
                p,
                (
                  committer,
                  (committer_for-eq-pass u store d push.user_email c).0,
                  (committer_for-eq-pass u store d push.user_email c).1,
                  unless_own _ _ (require-eq-pass _ _ o),
                ),
                can_approve_reject-true u store d push user.username
                    (a ∙ ap pass (require-eq-pass _ _ q)),
              ),
              h,
            )

module _ (u : Unicode) (store : DbStore) (settings : ApiSettings) where
  pub authorise_checks-Permitted :
      (d : store.State) (r : ApiRequest) {attestation : Attestation}
      → authorise_checks u store settings d r ≡ pass attestation
      → (user : ApiUser) × (push : Push) × (validate_attestation r.body.answers settings.config
          ≡ true)
        × Permitted u store d r user push
  unfolding authorise_checks
  authorise_checks-Permitted d r h = passed (logged_in u store d r) h λ user l h.
      passed (require _ _) h λ _ v h. passed (stored_push u store d r.id_param) h λ push p h. (
        user,
        push,
        require-eq-pass _ _ v,
        (decision-eq-pass u store d r user push _ _ _ (logged_in-eq-pass u store d r l)
            (stored_push-eq-pass u store d r.id_param p) h).0,
      )

  pub authorise_checks-answers :
      (d : store.State) (r : ApiRequest) {attestation : Attestation}
      → authorise_checks u store settings d r ≡ pass attestation
      → attestation.answers ≡ r.body.answers
  unfolding authorise_checks not_own
  authorise_checks-answers d r h = passed (logged_in u store d r) h λ user l h.
      passed (require _ _) h λ _ v h. passed (stored_push u store d r.id_param) h λ push p h.
        passed (committer_for u store d push.user_email) h λ committer c h.
          passed (require _ _) h λ _ o h.
            passed (can_approve_reject u store d push user.username) h λ allowed a h.
              passed (require allowed _) h λ _ q h.
                passed (reviewer u store d user.username) h
                  λ judge j h. sym (ap (λ a. a.answers) (pass-injective h))

  reject_checks-Permitted :
      (d : store.State) (r : ApiRequest) {rejection : Rejection}
      → reject_checks u store settings d r ≡ pass rejection
      → (user : ApiUser) × (push : Push) × (is_empty (trim_space r.body.reason) ≡ false)
        × (is_empty push.user_email ≡ false)
        × Permitted u store d r user push
  unfolding reject_checks
  reject_checks-Permitted d r h = passed (logged_in u store d r) h λ user l h.
      passed (require _ _) h λ _ v h. passed (stored_push u store d r.id_param) h λ push p h.
        passed (require _ _) h λ _ e h. (
          user,
          push,
          unless_true _ (require-eq-pass _ _ v),
          unless_true _ (require-eq-pass _ _ e),
          (decision-eq-pass u store d r user push _ _ _ (logged_in-eq-pass u store d r l)
              (stored_push-eq-pass u store d r.id_param p) h).0,
        )

  -- Authorising a push leaves the store as it is, or: the attestation of the request is valid, the
  -- caller is logged in, the push is stored, the caller is on the authorise list of its repository and
  -- is not its committer (unless the committer is an admin), and the state is what the store's
  -- authorise of that push makes of it with the answers of the request.
  pub authorise_push-Permitted :
      (d : store.State) (r : ApiRequest)
      → ((authorise_push u store settings d r).0 ≡ d)
        ⊎ ((validate_attestation r.body.answers settings.config ≡ true)
            × ((user : ApiUser) × (push : Push) × Permitted u store d r user push)
            × ((attestation : Attestation) × (attestation.answers ≡ r.body.answers)
                × ((authorise_push u store settings d r).0
                    ≡ (store.authorise d r.id_param attestation).0)))
  unfolding authorise_push
  authorise_push-Permitted d r = behind_cases d _ _ λ attestation h done.
      let (user, push, v, permitted) = authorise_checks-Permitted d r h in
      (
        v,
        (user, push, permitted),
        (
          attestation,
          authorise_checks-answers d r h,
          ap (λ x. x.0) done
              ∙ decided_state (codes "authorise failed") (store.authorise d r.id_param attestation),
        ),
      )

  -- Rejecting a push leaves the store as it is, or: the request has a reason that is not blank, the
  -- caller is logged in, the push is stored with the email address of a user, the caller is on the
  -- authorise list of its repository and is not its committer (unless the committer is an admin), and
  -- the state is what the store's reject of that push makes of it.
  pub reject_push-Permitted :
      (d : store.State) (r : ApiRequest)
      → ((reject_push u store settings d r).0 ≡ d)
        ⊎ ((is_empty (trim_space r.body.reason) ≡ false)
            × ((user : ApiUser) × (push : Push) × (is_empty push.user_email ≡ false)
                × Permitted u store d r user push)
            × ((rejection : Rejection) × ((reject_push u store settings d r).0
                  ≡ (store.reject d r.id_param rejection).0)))
  unfolding reject_push
  reject_push-Permitted d r = behind_cases d _ _ λ rejection h done.
      let (user, push, v, e, permitted) = reject_checks-Permitted d r h in
      (
        v,
        (user, push, e, permitted),
        (
          rejection,
          ap (λ x. x.0) done
              ∙ decided_state (codes "reject failed") (store.reject d r.id_param rejection),
        ),
      )
