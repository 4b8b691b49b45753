-- ===== src/Db/Pushes.antt =====
-- The pushes table (WriteAudit, GetPush, GetPushes, DeletePush, Authorise, Reject, Cancel).
pub mod Laws
use git_proxy_go.Base.{
  ℕ, Bool, true, false, ◌&&◌, ◌||◌, not, Option, none, some, List, [], ◌∷◌, ◌++◌, map, Str, codes,
  leb, if◌then◌else◌, is_empty, str_eq, Result, ok, err,
}
use git_proxy_go.Model.{Push, Attestation, Rejection}
use git_proxy_go.Db.Json.{json_push}
use git_proxy_go.Db.Tables.{PushRow, Database, find, where_rows, delete_where, order_by}

pub record PushQuery : Type 0 where
  pub kind : Option Str
  pub error : Option Bool
  pub blocked : Option Bool
  pub allow_push : Option Bool
  pub authorised : Option Bool
  pub canceled : Option Bool
  pub rejected : Option Bool

-- DefaultPushQuery: the pushes that wait for a review.
abbrev pub default_push_query : PushQuery
default_push_query = record {
  kind = some (codes "push");
  error = some false;
  blocked = some true;
  allow_push = some false;
  authorised = some false;
  canceled = none;
  rejected = none;
}

-- The columns are bound as they are; `value` is what the text of json.Marshal decodes to.
unfoldable pub row_of : Push → PushRow
unfolding json_push
row_of p = record {
  id = p.id;
  kind = p.kind;
  method = p.method;
  timestamp = p.timestamp;
  project = p.project;
  repo_name = p.repo_name;
  url = p.url;
  repo = p.repo;
  branch = p.branch;
  error = p.error;
  blocked = p.blocked;
  allow_push = p.allow_push;
  authorised = p.authorised;
  canceled = p.canceled;
  rejected = p.rejected;
  auto_approved = p.auto_approved;
  auto_rejected = p.auto_rejected;
  commit_from = p.commit_from;
  commit_to = p.commit_to;
  push_user = p.user;
  value = json_push p;
}

-- INSERT … ON CONFLICT(id) DO UPDATE.
unfoldable pub upsert : PushRow → List PushRow → List PushRow
upsert r [] = r ∷ []
upsert r (x ∷ xs) = if str_eq x.id r.id then r ∷ xs else x ∷ upsert r xs

-- The error is beside the state.
unfoldable pub write_audit : Database → Push → Database × Option Str
unfolding row_of
write_audit d p =
    if is_empty p.id
    then (d, some (codes "invalid id"))
    else (record d { pushes = upsert (row_of p) d.pushes }, none)

unfoldable pub value_of : Option PushRow → Option Push
value_of none = none
value_of (some r) = some r.value

-- json.Unmarshal of the column `data` yields the row's value.
unfoldable pub get_push : Database → Str → Option Push
unfolding value_of
get_push d id = value_of (find (λ r. str_eq r.id id) d.pushes)

abbrev pub bool_matches : Option Bool → Bool → Bool
bool_matches none b = true
bool_matches (some true) b = b
bool_matches (some false) b = not b

abbrev pub text_matches : Option Str → Str → Bool
text_matches none s = true
text_matches (some t) s = str_eq s t

-- The WHERE clause of a query.
unfoldable pub row_matches : PushQuery → PushRow → Bool
row_matches q r =
    text_matches q.kind r.kind
    && bool_matches q.error r.error
    && bool_matches q.blocked r.blocked
    && bool_matches q.allow_push r.allow_push
    && bool_matches q.authorised r.authorised
    && bool_matches q.canceled r.canceled
    && bool_matches q.rejected r.rejected

-- ORDER BY timestamp DESC.
abbrev pub newer : PushRow → PushRow → Bool
newer a b = leb b.timestamp a.timestamp

unfoldable pub get_pushes : Database → PushQuery → List Push
get_pushes d q = map (λ r. r.value) (order_by newer (where_rows (row_matches q) d.pushes))

unfoldable pub delete_push : Database → Str → Database
delete_push d id = record d { pushes = delete_where (λ r. str_eq r.id id) d.pushes }

unfoldable pub change_found :
    Database → Str → (Push → Push) → Str → Option Push → Database × Result Str
change_found d id change verb none = (d, err (codes "push " ++ (id ++ codes " not found")))
change_found d id change verb (some p) =
    let (d', failure) = write_audit d (change p) in
    (d', elim failure [ some e ↦ err e | none ↦ ok (verb ++ id) ])

-- `requirePush`, then the change and its audit; the reply names the push.
unfoldable pub change_push : Database → Str → (Push → Push) → Str → Database × Result Str
unfolding change_found
change_push d id change verb = change_found d id change verb (get_push d id)

unfoldable pub as_authorised : Attestation → Push → Push
as_authorised attestation p = record p {
  authorised = true;
  canceled = false;
  rejected = false;
  attestation = some attestation;
}

unfoldable pub as_rejected : Rejection → Push → Push
as_rejected rejection p = record p {
  authorised = false;
  canceled = false;
  rejected = true;
  rejection = some rejection;
}

unfoldable pub as_canceled : Push → Push
as_canceled p = record p { authorised = false; canceled = true; rejected = false }

unfoldable pub authorise : Database → Str → Attestation → Database × Result Str
unfolding change_push as_authorised
authorise d id attestation = change_push d id (as_authorised attestation) (codes "authorised ")

unfoldable pub reject : Database → Str → Rejection → Database × Result Str
unfolding change_push as_rejected
reject d id rejection = change_push d id (as_rejected rejection) (codes "reject ")

unfoldable pub cancel : Database → Str → Database × Result Str
unfolding change_push as_canceled
cancel d id = change_push d id as_canceled (codes "canceled ")
