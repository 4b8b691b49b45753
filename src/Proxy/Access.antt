-- ===== src/Proxy/Access.antt =====
-- What the proxy sends on.
use git_proxy_go.Base.{
  ◌≡◌, refl, sym, ap, ◌∙◌, ◌⊎◌, inl, inr, ℕ, Bool, true, false, Option, none, some, Str, codes,
  List, [], arith, ok, Bool-cases, if◌then◌else◌,
}
use git_proxy_go.Model.{Push, Repo}
use git_proxy_go.Host.{Host}
use git_proxy_go.Chain.Action.{Action}
use git_proxy_go.Chain.Context.{Store, Settings}
use git_proxy_go.Pack.PktLine.{parse_packet_lines}
use git_proxy_go.Chain.ParsePush.{RefUpdate, ref_update, ref_updates, read_update, body_of}
use git_proxy_go.Chain.Engine.{execute, parse_action}
use git_proxy_go.Chain.Approval.{is_refused}
use git_proxy_go.Chain.Outcome.{push_id, execute_approved, execute_listed}
use git_proxy_go.Proxy.{
  Inbound, Body, forwarded, serve_http, run_request, answer, forward, buffer_pack_body, buffer_body,
  keep_body, read_limited, resolve_target, send_error_response, pkt_response, is_pack_post, healthy,
  refusal_message,
}

module _ (h : Host) (store : Store) (settings : Settings) (origins : List Str) where
  send_error_is_local :
      (method path message host up : Str) (b : Option Body)
      → send_error_response method path message ≡ forwarded host up b
      → ⊥
  unfolding send_error_response
  send_error_is_local method path message host up b e = ground (arith, e)

  -- A forwarded request was buffered, and the chain did not refuse it.
  forwarded_of_serve :
      (db : store.State) (w : h.World) (r : Inbound h.Credentials) (host up : Str) (b : Option Body)
      → (serve_http h store settings origins db w r).reply ≡ forwarded host up b
      → (run_request h store settings origins db w (buffer_pack_body r)).reply ≡ forwarded host up b
  unfolding serve_http healthy pkt_response
  forwarded_of_serve db w r host up b e = ground (arith, e)

  forwarded_of_run :
      (db : store.State) (w : h.World) (r : Inbound h.Credentials) (host up : Str) (b : Option Body)
      → (run_request h store settings origins db w (r, none)).reply ≡ forwarded host up b
      → (is_refused (execute h store settings db w r.request).action ≡ false)
        × (resolve_target origins r.path ≡ (host, up))
        × (r.body ≡ b)
  unfolding run_request answer forward is_refused
  forwarded_of_run db w r host up b e =
      elim (Bool-cases (is_refused (execute h store settings db w r.request).action)) [
        | inl refused ↦ absurd (
            ground (
              arith,
              e,
              refused,
              send_error_is_local r.method r.path
                  (refusal_message (execute h store settings db w r.request).action) host up b,
            ))
        | inr passed ↦ (passed, ground (arith, e, passed), ground (arith, e, passed))
      ]

  failed_run_is_local :
      (db : store.State) (w : h.World) (r : Inbound h.Credentials) (f host up : Str)
      (b : Option Body)
      → (run_request h store settings origins db w (r, some f)).reply ≡ forwarded host up b
      → ⊥
  unfolding run_request
  failed_run_is_local db w r f host up b e = send_error_is_local _ _ _ host up b e

  Buffered : Inbound h.Credentials → Inbound h.Credentials × Option Str → Type 0
  Buffered r p =
      (p.0.header ≡ r.header)
      × (p.0.path ≡ r.path)
      × ((p.0.raw_body ≡ r.raw_body)
          ⊎ ((buf : Str) × (p.0.raw_body ≡ some buf)
              × (p.0.body ≡ some (record { content = buf; failure = none }))))

  keep_body-Buffered :
      (r : Inbound h.Credentials) (p : Str × Option Str) → Buffered r (keep_body r p)
  unfolding Buffered keep_body
  keep_body-Buffered r (buf, some e) = (refl, refl, inl refl)
  keep_body-Buffered r (buf, none) = (refl, refl, inr (buf, refl, refl))

  if-Buffered :
      (r : Inbound h.Credentials) (c : Bool) (p : Str × Option Str)
      → Buffered r (if c then keep_body r p else (r, none))
  unfolding Buffered
  if-Buffered r true p = keep_body-Buffered r p
  if-Buffered r false p = (refl, refl, inl refl)

  -- The buffering of a body: untouched, or the same bytes for the chain and for the upstream host.
  buffer_body-Buffered :
      (r : Inbound h.Credentials) (o : Option Body) → Buffered r (buffer_body r o)
  unfolding buffer_body Buffered
  buffer_body-Buffered r none = (refl, refl, inl refl)
  buffer_body-Buffered r (some b) = if-Buffered r (is_pack_post r.method r.path) (read_limited b)

  -- A forwarded request went through the chain, which did not refuse it.
  passed_of_run :
      (db : store.State) (w : h.World) (r : Inbound h.Credentials)
      (p : Inbound h.Credentials × Option Str) (host up : Str) (b : Option Body)
      → Buffered r p
      → (run_request h store settings origins db w p).reply ≡ forwarded host up b
      → (r' : Inbound h.Credentials) × (p.0 ≡ r')
        × Buffered r (r', none)
        × (is_refused (execute h store settings db w r'.request).action ≡ false)
        × (resolve_target origins r'.path ≡ (host, up))
        × (r'.body ≡ b)
  passed_of_run db w r (r', none) host up b kept e =
      let (passed, target, sent) = forwarded_of_run db w r' host up b e in
      (r', refl, kept, passed, target, sent)
  passed_of_run db w r (r', some f) host up b kept e =
      absurd (failed_run_is_local db w r' f host up b e)

  empty_body_unread : (n : ℕ) (u : RefUpdate) → read_update [] ≡ ok (n, u) → ⊥
  unfolding read_update parse_packet_lines ref_update ref_updates
  empty_body_unread n u e = ground (arith, e)

  -- A request with the content type of a receive-pack request, and with no body kept for the chain
  -- before, is sent on only as follows: what goes upstream is the buffered bytes, read_update reads
  -- one branch update from them, and the store holds an authorised record without error under the
  -- id of its two commits.
  pub serve_http_approved :
      (db : store.State) (w : h.World) (r : Inbound h.Credentials) (host up : Str) (b : Option Body)
      → r.header (codes "Content-Type") ≡ codes "application/x-git-receive-pack-request"
      → r.raw_body ≡ none
      → (serve_http h store settings origins db w r).reply ≡ forwarded host up b
      → (buf : Str) × (n : ℕ) × (u : RefUpdate) × (e : Push) × (b
          ≡ some (record { content = buf; failure = none }))
        × (read_update buf ≡ ok (n, u))
        × (store.get_push db (push_id u) ≡ ok (some e))
        × (e.authorised ≡ true)
        × (e.error ≡ false)
  unfolding buffer_pack_body Buffered
  serve_http_approved db w r host up b push fresh reply =
      let (r', _, (headers, _, bytes), passed, _, sent) =
        passed_of_run db w r _ host up b (buffer_body-Buffered r r.body)
          (forwarded_of_serve db w r host up b reply) in
      let (n, u, e, read, stored, authorised, fine) =
        execute_approved h store settings db w r'.request
          (ap (λ f. f (codes "Content-Type")) headers ∙ push) passed in
      elim bytes [
        | inr (buf, raw, body) ↦ (
          buf,
          n,
          u,
          e,
          sym sent ∙ body,
          ap (λ o. read_update (body_of h o)) (sym raw) ∙ read,
          stored,
          authorised,
          fine,
        )
        | inl untouched ↦ absurd (
            empty_body_unread n u
              (ap (λ o. read_update (body_of h o)) (sym (untouched ∙ fresh)) ∙ read))
      ]

  -- Whatever is sent on goes to the host and the path that resolve_target gives for the request's
  -- path, and its repository is in the store under the address that parseAction gave the action.
  pub serve_http_listed :
      (db : store.State) (w : h.World) (r : Inbound h.Credentials) (host up : Str) (b : Option Body)
      → (serve_http h store settings origins db w r).reply ≡ forwarded host up b
      → (a : Action) × (repo : Repo) × (resolve_target origins r.path ≡ (host, up))
        × (parse_action h store settings db w (buffer_pack_body r).0.request ≡ ok a)
        × (store.get_repo_by_url db a.url ≡ ok (some repo))
  unfolding buffer_pack_body Buffered
  serve_http_listed db w r host up b reply =
      let (r', same, (_, paths, _), passed, target, _) =
        passed_of_run db w r _ host up b (buffer_body-Buffered r r.body)
          (forwarded_of_serve db w r host up b reply) in
      let (a, repo, parsed, stored) = execute_listed h store settings db w r'.request passed in
      (
        a,
        repo,
        ap (resolve_target origins) (sym paths) ∙ target,
        ap (λ i. parse_action h store settings db w i.request) same ∙ parsed,
        stored,
      )
