-- ===== src/Db/Pushes/Laws.antt =====
-- The pushes table: what a lookup finds behind each write.
use git_proxy_go.Base.{
  ◌≡◌, refl, sym, ap, ◌∙◌, inl, inr, true, false, not, ◌&&◌, Option, none, some, List, [], ◌∷◌, Str,
  codes, arith, All, is_empty, str_eq, str_eq_iff, if◌then◌else◌, Bool-cases,
}
use git_proxy_go.Model.{Push, Attestation, Rejection}
use git_proxy_go.Db.Tables.{PushRow, Database, find}
use git_proxy_go.Db.Json.{json_text, json_attestation, json_rejection, json_pointer, json_push}
use git_proxy_go.Db.Json.Laws.{json_push-Settled}
use git_proxy_go.Db.Pushes.{
  row_of, upsert, write_audit, value_of, get_push, change_push, change_found, as_authorised,
  as_rejected, as_canceled, authorise, reject, cancel,
}

-- The row is that of a push, and its id is UTF-8 and not empty.
abbrev pub Stored : PushRow → Type 0
Stored r = (q : Push) × (r ≡ row_of q) × (is_empty r.id ≡ false) × (json_text r.id ≡ r.id)

-- Every row of the table is stored that way.
abbrev pub Consistent : Database → Type 0
Consistent d = All Stored d.pushes

str_eq_common : (a b c : Str) → str_eq a c ≡ true → str_eq b c ≡ true → str_eq a b ≡ true
str_eq_common a b c p q = (str_eq_iff a b).1 ((str_eq_iff a c).0 p ∙ sym ((str_eq_iff b c).0 q))

find-upsert :
    (r : PushRow) (rows : List PushRow) (id : Str)
    → find (λ x. str_eq x.id id) (upsert r rows)
      ≡ (if str_eq r.id id then some r else find (λ x. str_eq x.id id) rows)
unfolding upsert find
find-upsert r [] id = refl
find-upsert r (x ∷ xs) id = elim (Bool-cases (str_eq x.id r.id)) [
  | inl same ↦ ground (arith, same, ap (λ s. str_eq s id) ((str_eq_iff x.id r.id).0 same))
  | inr other ↦ ground (arith, other, find-upsert r xs id, str_eq_common x.id r.id id)
]

-- Behind a write, a lookup finds under the push's id what JSON makes of the written push, in which
-- each byte of a text that is no UTF-8 is replaced, and under any other id what it found before. A push
-- with an empty id changes no lookup.
pub get_push-write_audit :
    (d : Database) (p : Push) (id : Str)
    → get_push (write_audit d p).0 id
      ≡ (if not (is_empty p.id) && str_eq p.id id then some (json_push p) else get_push d id)
unfolding get_push write_audit value_of row_of
get_push-write_audit d p id = elim (Bool-cases (is_empty p.id)) [
  | inl blank ↦ ground (arith, blank)
  | inr named ↦ ground (arith, named, find-upsert (row_of p) d.pushes id)
]

-- A stored push has the id of its row, which is not empty, and JSON gives it back unchanged.
row_value :
    (x : PushRow)
    → Stored x
    → (x.value.id ≡ x.id) × (is_empty x.value.id ≡ false) × (json_push x.value ≡ x.value)
unfolding row_of json_push
row_value x (q, cols, named, utf8) =
    let value : x.value ≡ json_push q = ap (λ r. r.value) cols in
    let column : x.id ≡ q.id = ap (λ r. r.id) cols in
    let same : x.value.id ≡ x.id = ap (λ v. v.id) value ∙ ap json_text (sym column) ∙ utf8 in
    (same, ap is_empty same ∙ named, ap json_push value ∙ json_push-Settled q ∙ sym value)

find-Stored :
    (id : Str) (rows : List PushRow) (p : Push)
    → All Stored rows
    → value_of (find (λ x. str_eq x.id id) rows) ≡ some p
    → (p.id ≡ id) × (is_empty p.id ≡ false) × (json_push p ≡ p)
unfolding find value_of
find-Stored id [] p h e = ground (arith, e)
find-Stored id (x ∷ xs) p (stored, rest) e = elim (Bool-cases (str_eq x.id id)) [
  | inr other ↦ find-Stored id xs p rest (ground (arith, e, other))
  | inl here ↦
      let found : x.value ≡ p = ground (arith, e, here) in
      let (column, named, settled) = row_value x stored in
      (
        ap (λ q. q.id) (sym found) ∙ column ∙ (str_eq_iff x.id id).0 here,
        ap (λ q. is_empty q.id) (sym found) ∙ named,
        ap json_push (sym found) ∙ settled ∙ found,
      )
]

get_push_value :
    (d : Database) (id : Str) → value_of (find (λ r. str_eq r.id id) d.pushes) ≡ get_push d id
unfolding get_push
get_push_value d id = refl

-- The change keeps the id, and JSON makes `image` of a changed push that it gives back unchanged.
abbrev Keeps : (Push → Push) → (Push → Push) → Type 0
Keeps change image =
    ((p : Push) → (change p).id ≡ p.id)
    × ((p : Push) → json_push p ≡ p → json_push (change p) ≡ image p)

found_lem :
    (d : Database) (id other verb : Str) (change image : Push → Push) (found : Option Push)
    → Consistent d
    → Keeps change image
    → get_push d id ≡ found
    → get_push (change_found d id change verb found).0 other ≡ elim found [
      | none ↦ get_push d other
      | some p ↦ if str_eq id other then some (image p) else get_push d other
    ]
unfolding change_found
found_lem d id other verb change image none h keeps found = refl
found_lem d id other verb change image (some p) h (keeps, becomes) found =
    let (named, full, settled) = find-Stored id d.pushes p h (get_push_value d id ∙ found) in
    let renamed : (change p).id ≡ id = keeps p ∙ named in
    let filled : is_empty (change p).id ≡ false = ap is_empty (keeps p) ∙ full in
    get_push-write_audit d (change p) other
    ∙ ap
        (λ b.
          if not b && str_eq (change p).id other
          then some (json_push (change p))
          else get_push d other)
        filled
    ∙ ap (λ s. if str_eq s other then some (json_push (change p)) else get_push d other) renamed
    ∙ ap (λ q. if str_eq id other then some q else get_push d other) (becomes p settled)

-- A change of a stored push, on every branch.
change_push_lem :
    (d : Database) (id other verb : Str) (change image : Push → Push)
    → Consistent d
    → Keeps change image
    → get_push (change_push d id change verb).0 other ≡ elim (get_push d id) [
      | none ↦ get_push d other
      | some p ↦ if str_eq id other then some (image p) else get_push d other
    ]
unfolding change_push
change_push_lem d id other verb change image h keeps =
    found_lem d id other verb change image (get_push d id) h keeps refl

-- In a consistent table, authorising a stored push makes a lookup find it authorised, neither canceled
-- nor rejected, with what JSON makes of the attestation. Other lookups, and all of them when the push is missing, find
-- what they found before.
pub get_push-authorise :
    (d : Database) (id other : Str) (attestation : Attestation)
    → Consistent d
    → get_push (authorise d id attestation).0 other ≡ elim (get_push d id) [
      | none ↦ get_push d other
      | some p ↦
          if str_eq id other
          then some (record p {
            authorised = true;
            canceled = false;
            rejected = false;
            attestation = some (json_attestation attestation);
          })
          else get_push d other
    ]
unfolding authorise as_authorised json_push json_pointer
get_push-authorise d id other attestation h =
    change_push_lem d id other (codes "authorised ") (as_authorised attestation)
      (as_authorised (json_attestation attestation)) h
      ((λ p. refl), λ p. ap (as_authorised (json_attestation attestation)))

-- In a consistent table, rejecting a stored push makes a lookup find it rejected, neither authorised
-- nor canceled, with what JSON makes of the rejection. Other lookups, and all of them when the push is missing, find what
-- they found before.
pub get_push-reject :
    (d : Database) (id other : Str) (rejection : Rejection)
    → Consistent d
    → get_push (reject d id rejection).0 other ≡ elim (get_push d id) [
      | none ↦ get_push d other
      | some p ↦
          if str_eq id other
          then some (record p {
            authorised = false;
            canceled = false;
            rejected = true;
            rejection = some (json_rejection rejection);
          })
          else get_push d other
    ]
unfolding reject as_rejected json_push json_pointer
get_push-reject d id other rejection h =
    change_push_lem d id other (codes "reject ") (as_rejected rejection)
      (as_rejected (json_rejection rejection)) h
      ((λ p. refl), λ p. ap (as_rejected (json_rejection rejection)))

-- In a consistent table, canceling a stored push makes a lookup find it canceled, neither authorised
-- nor rejected. Other lookups, and all of them when the push is missing, find what they found before.
pub get_push-cancel :
    (d : Database) (id other : Str)
    → Consistent d
    → get_push (cancel d id).0 other ≡ elim (get_push d id) [
      | none ↦ get_push d other
      | some p ↦
          if str_eq id other
          then some (record p { authorised = false; canceled = true; rejected = false })
          else get_push d other
    ]
unfolding cancel as_canceled json_push
get_push-cancel d id other h =
    change_push_lem d id other (codes "canceled ") as_canceled as_canceled h
      ((λ p. refl), λ p. ap as_canceled)
