-- ===== src/Api/Context.antt =====
-- What a handler of the management API is given and answers (internal/proxy/http): the request with the
-- caller's session and principal, and the response. A body is given as encoding/json leaves it in the
-- handler's struct, and a response's JSON as the value behind it.
use git_proxy_go.Base.{
  ℕ, ◌≡◌, refl, ◌==◌, Bool, true, false, Option, none, some, List, Str, codes, Result, err, ok,
}
use git_proxy_go.Model.{Push, RepoUsers, AttestationAnswer, Repo}
use git_proxy_go.Chain.Config.{Config}

-- A value among the claims of a token: a string, or what `fmt.Sprint` prints of another.
pub data Claim : Type 0 where
  text other : Str → Claim

-- auth.Principal, with the one role that the configuration knows.
pub record Principal : Type 0 where
  pub claims : List (Str × Claim)
  pub admin_role : Bool

pub record ApiUser : Type 0 where
  pub username : Str
  pub admin : Bool

-- The fields that the handlers decode. `new_repo` is none where decoding a repository fails, and
-- `credentials` where decoding a name and a password does.
pub record ApiBody : Type 0 where
  pub reason : Str
  pub answers : List AttestationAnswer
  pub username : Str
  pub new_repo : Option Repo
  pub credentials : Option (Str × Str)

-- `session_user` is the session's username, "" where there is none; `id_param` and `user_param` are the
-- parts of the route; `query` has the first value of each key.
pub record ApiRequest : Type 0 where
  pub session_user : Str
  pub principal : Option Principal
  pub id_param : Str
  pub user_param : Str
  pub query : List (Str × Str)
  pub host : Str
  pub has_tls : Bool
  pub header : Str → Str
  pub now : Str
  pub body : ApiBody

-- The handler's configuration.
pub record ApiSettings : Type 0 where
  pub config : Config
  pub ui_port : Str
  pub git_proxy_port : Str
  pub url_shortener : Option Str
  pub contact_email : Option Str

-- publicUser
pub record PublicUser : Type 0 where
  pub username : Str
  pub display_name : Str
  pub email : Str
  pub title : Str
  pub git_account : Str
  pub admin : Bool

-- The object of a repository, with the keys that may be absent.
pub record RepoObject : Type 0 where
  pub id : Option Str
  pub name : Str
  pub project : Str
  pub url : Str
  pub users : RepoUsers
  pub proxy_url : Str
  pub message : Option Str

pub data Payload : Type 0 where
  plain html redirect : Str → Payload
  message_object error_object : Str → Payload
  push_object : Push → Payload
  push_list : List Push → Payload
  repo_object : RepoObject → Payload
  repo_list : List RepoObject → Payload
  user_object logged_in_object : PublicUser → Payload
  user_list : List PublicUser → Payload
  login_methods : Option Str → List Str → Payload
  logged_out_object : Payload

pub record Reply : Type 0 where
  pub status : ℕ
  pub payload : Payload

abbrev pub message : ℕ → Str → Reply
message status m = record { status = status; payload = message_object m }

-- `http.Error`
abbrev pub failure : ℕ → Str → Reply
failure status m = record { status = status; payload = plain m }

abbrev pub lookup_error : Reply
lookup_error = failure 500 (codes "lookup error")

abbrev pub success : Payload → Reply
success p = record { status = 200; payload = p }

-- A check of a handler: it answers the request itself, or passes a value on.
pub data Guarded {ℓ} (A : Type ℓ) : Type ℓ where
  refuse : Reply → Guarded A
  pass : A → Guarded A

infixl 5 ◌>>=◌ ◌>>◌
abbrev pub ◌>>=◌ {ℓ κ} : {A : Type ℓ} {B : Type κ} → Guarded A → (A → Guarded B) → Guarded B
refuse r >>= next = refuse r
pass a >>= next = next a

abbrev pub ◌>>◌ {ℓ} : {B : Type ℓ} → Guarded (Unit {0}) → Guarded B → Guarded B
m >> next = m >>= λ _. next

-- An error of a lookup is answered with status 500.
unfoldable pub looked_up {ℓ} : {A : Type ℓ} → Result A → Guarded A
looked_up (err e) = refuse lookup_error
looked_up (ok a) = pass a

-- A missing value is answered.
unfoldable pub present {ℓ} : {A : Type ℓ} → Reply → Option A → Guarded A
present reply none = refuse reply
present reply (some a) = pass a

unfoldable pub require : Bool → Reply → Guarded (Unit {0})
require false reply = refuse reply
require _ reply = pass tt

-- The reply of a handler that only reads.
abbrev pub answered : Guarded Payload → Reply
answered (refuse reply) = reply
answered (pass p) = success p

-- A check answers with no success.
abbrev pub IsRefusing {ℓ} : {A : Type ℓ} → Guarded A → Type 0
IsRefusing (refuse reply) = (reply.status == 200) ≡ false
IsRefusing (pass a) = Unit

pub >>=-IsRefusing {ℓ κ} :
    {A : Type ℓ} {B : Type κ} (m : Guarded A) (next : A → Guarded B)
    → IsRefusing m
    → ((a : A) → IsRefusing (next a))
    → IsRefusing (m >>= next)
>>=-IsRefusing (refuse reply) next h k = h
>>=-IsRefusing (pass a) next h k = k a

pub looked_up-IsRefusing {ℓ} : {A : Type ℓ} (m : Result A) → IsRefusing (looked_up m)
unfolding looked_up
looked_up-IsRefusing (err e) = refl
looked_up-IsRefusing (ok a) = tt

pub present-IsRefusing {ℓ} :
    {A : Type ℓ} (reply : Reply) (m : Option A)
    → (reply.status == 200) ≡ false
    → IsRefusing (present reply m)
unfolding present
present-IsRefusing reply none h = h
present-IsRefusing reply (some a) h = tt

pub require-IsRefusing :
    (b : Bool) (reply : Reply) → (reply.status == 200) ≡ false → IsRefusing (require b reply)
unfolding require
require-IsRefusing false reply h = h
require-IsRefusing true reply h = tt
