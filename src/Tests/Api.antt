-- ===== src/Tests/Api.antt =====
-- What the theorems on the management API say of a SQLite store with a committer, a reviewer, one
-- repository and one push that waits for a review.
use git_proxy_go.Base.{
  clash, sym, ap, Bool, Option, Result, ok, ◌≡◌, refl, ◌⊎◌, ◌==◌, true, false, none, some, [], ◌∷◌,
  Unicode, codes, is_empty, member, equal_fold, trim_space, to_lower, str_eq,
}
use git_proxy_go.Model.{Push, User, Attestation, Rejection}
use git_proxy_go.Chain.Action.{empty_push}
use git_proxy_go.Db.Tables.{Database, find, order_by, where_rows}
use git_proxy_go.Db.Pushes
use git_proxy_go.Db.Json.{json_text, json_attestation}
use git_proxy_go.Db.Pushes.{row_of}
use git_proxy_go.Db.Pushes.Laws.{Consistent}
use git_proxy_go.Db.Interface.{DbStore, sqlite}
use git_proxy_go.Db.Users.{find_user, get_users}
use git_proxy_go.Db.Repos.{get_repo_by_url}
use git_proxy_go.Api.Context.{
  Principal, ApiUser, ApiRequest, ApiSettings, present, require, looked_up,
}
use git_proxy_go.Api.Caller.{current_user}
use git_proxy_go.Api.Review.{authorise_push, reject_push, cancel_push}
use git_proxy_go.Api.Review.Answers.{validate_attestation, repeated, validate_attestation-repeated}
use git_proxy_go.Api.Review.Laws.{Permitted}
use git_proxy_go.Api.Review.Permitted.{authorise_push-Permitted, reject_push-Permitted}
use git_proxy_go.Api.Review.Stored.{MayCancel, authorise_push-get_push, cancel_push_permitted}
use git_proxy_go.Api.Repos
use git_proxy_go.Api.Repos.Laws.{repo_routes_guarded, forbidden}
use git_proxy_go.Tests.Fixture.{test_user, test_repo}

abbrev pub tables : Unicode
tables = record { unicode_lower = λ s. s; unicode_fold = str_eq }

abbrev waiting : Push
waiting = record empty_push {
  id = codes "a__b";
  kind = codes "push";
  url = test_repo.url;
  user_email = test_user.email;
  blocked = true;
}

abbrev judge : User
judge = record test_user { username = codes "bo"; email = codes "bo@b.cc" }

abbrev pub db : Database
db = record {
  users = test_user ∷ judge ∷ [];
  repos =
      record test_repo {
        users = record { can_push = codes "al" ∷ []; can_authorise = codes "bo" ∷ [] };
      }
      ∷ [];
  pushes = row_of waiting ∷ [];
}

abbrev pub store : DbStore
store = sqlite (λ s. s) (λ d. codes "2")

abbrev pub api_settings : ApiSettings
api_settings = record {
  config = record {
    commit_config = none;
    gitleaks = none;
    domains = none;
    private_organizations = [];
    attestation_questions = codes "q1" ∷ codes "q2" ∷ [];
  };
  ui_port = [];
  git_proxy_port = [];
  url_shortener = none;
  contact_email = none;
}

abbrev pub bo_request : ApiRequest
bo_request = record {
  session_user = codes "bo";
  principal = none;
  id_param = codes "a__b";
  user_param = [];
  query = [];
  host = codes "proxy";
  has_tls = false;
  header = λ name. [];
  now = codes "now";
  body = record {
    reason = codes "bad";
    answers =
        record { label = codes "q1"; checked = true }
        ∷ record { label = codes "q2"; checked = true }
        ∷ [];
    username = [];
    new_repo = none;
    credentials = none;
  };
}

-- The request of bo is answered with success.
bo_authorises : ((authorise_push tables store api_settings db bo_request).1.status == 200) ≡ true
unfolding authorise_push str_eq to_lower equal_fold member trim_space find_user Pushes.authorise
    validate_attestation current_user present require looked_up Pushes.get_push find row_of
    get_users order_by where_rows get_repo_by_url Pushes.write_audit json_text
bo_authorises = refl

db-Consistent : Consistent db
unfolding row_of json_text
db-Consistent = ((waiting, refl, refl, refl), tt)

admin_of : Result (Option User) → Bool
admin_of (ok (some user)) = user.admin
admin_of _ = false

bo_is_no_admin :
    (user : User)
    → is_empty bo_request.session_user ≡ false
    → store.find_user db bo_request.session_user ≡ ok (some user)
    → user.admin ≡ false
unfolding admin_of find_user find str_eq to_lower
bo_is_no_admin user named found = ap admin_of (sym found)

no_token :
    (p : Principal)
    → is_empty bo_request.session_user ≡ true
    → bo_request.principal ≡ some p
    → p.admin_role ≡ false
no_token p blank given = absurd (clash blank refl)

first_question : member api_settings.config.attestation_questions (codes "q1") ≡ true
unfolding member str_eq
first_question = refl

authorise_push-Permitted_example :
    ((authorise_push tables store api_settings db bo_request).0 ≡ db)
    ⊎ ((validate_attestation bo_request.body.answers api_settings.config ≡ true)
        × ((user : ApiUser) × (push : Push) × Permitted tables store db bo_request user push)
        × ((attestation : Attestation) × (attestation.answers ≡ bo_request.body.answers)
            × ((authorise_push tables store api_settings db bo_request).0
                ≡ (store.authorise db (codes "a__b") attestation).0)))
authorise_push-Permitted_example = authorise_push-Permitted tables store api_settings db bo_request

reject_push-Permitted_example :
    ((reject_push tables store api_settings db bo_request).0 ≡ db)
    ⊎ ((is_empty (trim_space (codes "bad")) ≡ false)
        × ((user : ApiUser) × (push : Push) × (is_empty push.user_email ≡ false)
            × Permitted tables store db bo_request user push)
        × ((rejection : Rejection) × ((reject_push tables store api_settings db bo_request).0
              ≡ (store.reject db (codes "a__b") rejection).0)))
reject_push-Permitted_example = reject_push-Permitted tables store api_settings db bo_request

cancel_push_permitted_example :
    ((cancel_push tables store api_settings db bo_request).0 ≡ db)
    ⊎ ((user : ApiUser) × (current_user tables store db bo_request ≡ some user)
        × MayCancel tables store api_settings db (codes "a__b") user.username
        × ((cancel_push tables store api_settings db bo_request).0
            ≡ (store.cancel db (codes "a__b")).0))
cancel_push_permitted_example = cancel_push_permitted tables store api_settings db bo_request

authorise_push-get_push_example :
    (validate_attestation bo_request.body.answers api_settings.config ≡ true)
    × ((p : Push) × (attestation : Attestation) × (Pushes.get_push db (codes "a__b") ≡ some p)
        × (attestation.answers ≡ bo_request.body.answers)
        × (Pushes.get_push (authorise_push tables store api_settings db bo_request).0 (codes "a__b")
            ≡ some (record p {
              authorised = true;
              canceled = false;
              rejected = false;
              attestation = some (json_attestation attestation);
            })))
authorise_push-get_push_example =
    authorise_push-get_push tables (λ d. codes "2") api_settings db bo_request db-Consistent
      bo_authorises

repo_routes_guarded_example :
    (Repos.add_user_can_push tables store api_settings db bo_request ≡ (db, forbidden))
    × (Repos.add_user_can_authorise tables store api_settings db bo_request ≡ (db, forbidden))
    × (Repos.remove_user_can_push tables store api_settings db bo_request ≡ (db, forbidden))
    × (Repos.remove_user_can_authorise tables store api_settings db bo_request ≡ (db, forbidden))
    × (Repos.delete_repo tables store api_settings db bo_request ≡ (db, forbidden))
    × (Repos.create_repo tables store api_settings db bo_request ≡ (db, forbidden))
repo_routes_guarded_example =
    repo_routes_guarded tables store api_settings db bo_request bo_is_no_admin no_token

repeated_example :
    validate_attestation
      (repeated 2 (record { label = codes "q1"; checked = true }))
      api_settings.config
    ≡ true
repeated_example =
    validate_attestation-repeated api_settings.config
      (record { label = codes "q1"; checked = true }) first_question refl
