-- ===== src/Proxy.antt =====
-- internal/proxy/git/proxy.go: the handler in front of the chain. A log line is not kept, and
-- neither is the answer of the upstream host: a forwarded request is a reply of its own here.
pub mod Packets
pub mod Access
use git_proxy_go.Base.{
  ℕ, ◌+◌, ◌-◌, ◌^◌, Bool, true, false, ◌&&◌, ◌||◌, not, Option, none, some, List, [], ◌∷◌, ◌++◌,
  Str, codes, leb, if◌then◌else◌, is_empty, length, take, drop, contains, has_prefix, trim_prefix,
  split, hex4, str_eq,
}
use git_proxy_go.GitUrl.{UrlPathBreakdown, process_url_path, valid_git_request}
use git_proxy_go.Host.{Host}
use git_proxy_go.Chain.Action.{Action}
use git_proxy_go.Chain.Context.{Request, Store, Settings}
use git_proxy_go.Chain.Engine.{Executed, execute}

abbrev pub fallback_host : Str
fallback_host = codes "github.com"

abbrev pub max_pack_body : ℕ
max_pack_body = 2 ^ 30

-- What reading a body yields: its bytes up to the end or to the failure.
pub record Body : Type 0 where
  pub content : Str
  pub failure : Option Str

-- A request with its body. `url_request_uri` is `r.URL.RequestURI()`.
pub record Inbound (C : Type 0) : Type 0 where
  pub request : Request C
  pub open request use *
  pub url_request_uri : Str
  pub body : Option Body

-- What the handler answers: a response of its own, or the request as it is sent on over HTTPS.
pub data Reply : Type 0 where
  respond : List (Str × Str) → Str → Reply
  forwarded : Str → Str → Option Body → Reply

pub record Served (S W : Type 0) : Type 0 where
  pub state : S
  pub world : W
  pub reply : Reply

-- `[^/]+\.git` on a part between slashes.
is_repo_part : Str → Bool
is_repo_part part = leb 5 (length part) && str_eq (drop (length part - 4) part) (codes ".git")

is_service : Str → Bool
is_service s = str_eq s (codes "git-upload-pack") || str_eq s (codes "git-receive-pack")

-- `(?:/[^/]+)*/[^/]+\.git/(?:git-upload-pack|git-receive-pack)` over the parts behind the first slash.
pack_post_parts : List Str → Bool
pack_post_parts [] = false
pack_post_parts (part ∷ []) = false
pack_post_parts (part ∷ service ∷ []) = is_repo_part part && is_service service
pack_post_parts (part ∷ p ∷ q ∷ rest) = not (is_empty part) && pack_post_parts (p ∷ q ∷ rest)

pack_post_path : List Str → Bool
pack_post_path ([] ∷ parts) = pack_post_parts parts
pack_post_path _ = false

unfoldable pub is_pack_post : Str → Str → Bool
unfolding is_repo_part is_service pack_post_parts pack_post_path
is_pack_post method path = str_eq method (codes "POST") && pack_post_path (split b'/' path)

unfoldable pub handle_message : Str → Str
handle_message message =
    let body = b'\t' ∷ message in hex4 (6 + length body) ++ (2 ∷ body ++ codes "\n0000")

unfoldable pub handle_refs_error_message : Str → Str
handle_refs_error_message message =
    let body = codes "ERR " ++ message in hex4 (4 + length body) ++ (body ++ codes "\n0000")

-- writePktResponse: the status is 200 at each of its calls.
unfoldable pub pkt_response : Str → Str → Reply
pkt_response content_type body =
    respond (if is_empty content_type then [] else (codes "Content-Type", content_type) ∷ []) body

unfoldable pub send_error_response : Str → Str → Str → Reply
unfolding pkt_response
send_error_response method path message =
    if str_eq method (codes "GET") && contains path (codes "/info/refs")
    then pkt_response (codes "application/x-git-upload-pack-advertisement")
        (handle_refs_error_message message)
    else respond
        ((codes "Content-Type", codes "application/x-git-receive-pack-result")
          ∷ (codes "Expires", codes "Fri, 01 Jan 1980 00:00:00 GMT")
          ∷ (codes "Pragma", codes "no-cache")
          ∷ (codes "Cache-Control", codes "no-cache, max-age=0, must-revalidate")
          ∷ (codes "Vary", codes "Accept-Encoding")
          ∷ (codes "X-Frame-Options", codes "DENY")
          ∷ (codes "Connection", codes "close")
          ∷ [])
        (handle_message message)

-- The upstream host and path of an inbound path.
unfoldable pub resolve_target : List Str → Str → Str × Str
resolve_target [] path = (fallback_host, path)
resolve_target (o ∷ origins) path =
    if str_eq path (b'/' ∷ o) || has_prefix path (b'/' ∷ o ++ codes "/")
    then (o, trim_prefix path (b'/' ∷ o))
    else resolve_target origins path

or_text : Option Str → Option Str
or_text (some (c ∷ s)) = some (c ∷ s)
or_text _ = none

-- The message of a refused action.
unfoldable pub refusal_message : Action → Str
unfolding or_text
refusal_message a = elim (or_text a.error_message) [
  | some m ↦ m
  | none ↦ elim (or_text a.blocked_message) [ some m ↦ m | none ↦ codes "Unknown error" ]
]

unfoldable pub healthy : Reply
healthy =
    respond
      ((codes "Cache-Control", codes "no-cache, no-store, must-revalidate, proxy-revalidate")
        ∷ (codes "Pragma", codes "no-cache")
        ∷ (codes "Expires", codes "0")
        ∷ (codes "Surrogate-Control", codes "no-store")
        ∷ [])
      (codes "OK")

-- The body as the limited reader gives it: what lies behind the limit is cut off.
unfoldable pub read_limited : Body → Str × Option Str
read_limited b =
    if leb max_pack_body (length b.content)
    then (take max_pack_body b.content, none)
    else (b.content, b.failure)

-- The bytes are kept for the chain and for the upstream host, unless reading them failed.
unfoldable pub keep_body : {C : Type 0} → Inbound C → Str × Option Str → Inbound C × Option Str
keep_body r (buf, some e) = (r, some e)
keep_body r (buf, none) = (
  record r {
    request = record r.request { raw_body = some buf };
    body = some (record { content = buf; failure = none });
  },
  none,
)

unfoldable pub buffer_body : {C : Type 0} → Inbound C → Option Body → Inbound C × Option Str
buffer_body r none = (r, none)
buffer_body r (some b) =
    if is_pack_post r.method r.path then keep_body r (read_limited b) else (r, none)

-- The request with the buffered body, or the error of reading it.
unfoldable pub buffer_pack_body : {C : Type 0} → Inbound C → Inbound C × Option Str
unfolding buffer_body keep_body
buffer_pack_body r = buffer_body r r.body

unfoldable pub forward : {C : Type 0} → List Str → Inbound C → Reply
forward origins r = let (host, path) = resolve_target origins r.path in forwarded host path r.body

unfoldable pub is_valid_request : Option UrlPathBreakdown → (Str → Str) → Bool
is_valid_request none header = false
is_valid_request (some comps) header = valid_git_request comps.git_path header

module _ (h : Host) (store : Store) (settings : Settings) (origins : List Str) where
  -- The answer to an action of the chain.
  unfoldable pub answer : Inbound h.Credentials → Action → Reply
  unfolding refusal_message forward
  answer r a =
      if a.error || a.blocked
      then send_error_response r.method r.path (refusal_message a)
      else forward origins r

  -- Behind the buffering.
  unfoldable pub run_request :
      store.State → h.World → Inbound h.Credentials × Option Str → Served store.State h.World
  run_request db w (r, some e) = record {
    state = db;
    world = w;
    reply = send_error_response r.method r.path (codes "Failed to read request body");
  }
  run_request db w (r, none) =
      let x = execute h store settings db w r.request in
      record { state = x.state; world = x.world; reply = answer r x.action }

  unfoldable pub serve_http :
      store.State → h.World → Inbound h.Credentials → Served store.State h.World
  unfolding healthy is_valid_request pkt_response run_request
  serve_http db w r =
      let uri = if is_empty r.request_uri then r.url_request_uri else r.request_uri in
      if str_eq r.path (codes "/healthcheck")
      then record { state = db; world = w; reply = healthy }
      else if not (is_valid_request (process_url_path uri) r.header)
      then record {
        state = db;
        world = w;
        reply = pkt_response [] (handle_message (codes "Invalid request received"));
      }
      else run_request db w (buffer_pack_body r)
