-- ===== src/Tests/Requests.antt =====
-- What the theorems on requests say of a push and a fetch of the fixture.
use git_proxy_go.Base.{◌≡◌, refl, ℕ, ok, some, none, [], ◌∷◌, true, false, Str, codes}
use git_proxy_go.Model.{Push, Repo, User}
use git_proxy_go.Chain.Action.{Action}
use git_proxy_go.Chain.ParsePush.{RefUpdate, read_update, parse_push}
use git_proxy_go.Chain.Checks.{is_user_push_allowed}
use git_proxy_go.Chain.Engine.{parse_action}
use git_proxy_go.Chain.Outcome.{push_id, execute_approved, execute_listed}
use git_proxy_go.Chain.Permitted.{execute_permitted}
use git_proxy_go.Proxy.{buffer_pack_body, resolve_target}
use git_proxy_go.Proxy.Access.{serve_http_approved, serve_http_listed}
use git_proxy_go.Tests.Fixture.{
  test_host, test_store, test_settings, test_request, inbound, whole, push_body,
}
use git_proxy_go.Tests.Runs.{push_type, execute_push, execute_fetch, serve_push, serve_fetch}

serve_http_approved_example :
    (buf : Str) × (n : ℕ) × (u : RefUpdate) × (e : Push) × (some (whole push_body)
      ≡ some (whole buf))
    × (read_update buf ≡ ok (n, u))
    × (test_store.get_push tt (push_id u) ≡ ok (some e))
    × (e.authorised ≡ true)
    × (e.error ≡ false)
serve_http_approved_example =
    serve_http_approved test_host test_store test_settings [] tt tt
      (inbound (codes "receive-pack") push_body) _ _ _ push_type refl serve_push

serve_http_listed_example :
    (a : Action) × (repo : Repo) × (resolve_target [] (codes "/github.com/o/r.git/git-upload-pack")
      ≡ (codes "github.com", codes "/github.com/o/r.git/git-upload-pack"))
    × (parse_action test_host test_store test_settings tt tt
          (buffer_pack_body (inbound (codes "upload-pack") [])).0.request
        ≡ ok a)
    × (test_store.get_repo_by_url tt a.url ≡ ok (some repo))
serve_http_listed_example =
    serve_http_listed test_host test_store test_settings [] tt tt (inbound (codes "upload-pack") [])
      _ _ _ serve_fetch

execute_approved_example :
    (n : ℕ) × (u : RefUpdate) × (e : Push) × (read_update push_body ≡ ok (n, u))
    × (test_store.get_push tt (push_id u) ≡ ok (some e))
    × (e.authorised ≡ true)
    × (e.error ≡ false)
execute_approved_example =
    execute_approved test_host test_store test_settings tt tt
      (test_request (codes "receive-pack") (some push_body)) push_type execute_push

execute_listed_example :
    (a : Action) × (repo : Repo) × (parse_action test_host test_store test_settings tt tt
        (test_request (codes "upload-pack") none)
      ≡ ok a)
    × (test_store.get_repo_by_url tt a.url ≡ ok (some repo))
execute_listed_example =
    execute_listed test_host test_store test_settings tt tt
      (test_request (codes "upload-pack") none) execute_fetch

execute_permitted_example :
    (a : Action) × (u : User) × (parse_action test_host test_store test_settings tt tt
        (test_request (codes "receive-pack") (some push_body))
      ≡ ok a)
    × (test_store.get_users tt (record {
      username = none;
      email =
          some
            (parse_push test_host tt
              (test_request (codes "receive-pack") (some push_body))
              a).action.user_email;
    })
        ≡ ok (u ∷ []))
    × (is_user_push_allowed test_host test_store test_settings tt a.url u.username ≡ ok true)
execute_permitted_example =
    execute_permitted test_host test_store test_settings tt tt
      (test_request (codes "receive-pack") (some push_body)) push_type execute_push
