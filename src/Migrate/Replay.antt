-- ===== src/Migrate/Replay.antt =====
-- internal/migrate/nedb.go: the replay of a neDB log to its live documents.
pub mod Laws
pub mod Refines
use git_proxy_go.Base.{
  ℕ, zero, suc, Bool, true, false, not, ◌&&◌, Option, none, some, List, [], ◌∷◌, ◌++◌, Str, codes,
  is_empty, if◌then◌else◌, str_eq, split, trim_space, Result, err, ok, ◌>>=◌,
}
use git_proxy_go.Proxy.{Body}

-- neDBLine: what a line says of itself. `index` is set by either of the two index fields.
pub record NeDbLine : Type 0 where
  pub id : Str
  pub deleted : Bool
  pub index : Bool

-- The live documents by id, and the ids in the order in which they were first seen.
pub record Live : Type 0 where
  pub live : List (Str × Str)
  pub order : List Str

unfoldable pub document : List (Str × Str) → Str → Option Str
document [] id = none
document ((k, v) ∷ docs) id = if str_eq k id then some v else document docs id

unfoldable pub put_document : Str → Str → List (Str × Str) → List (Str × Str)
put_document id v [] = (id, v) ∷ []
put_document id v ((k, old) ∷ docs) =
    if str_eq k id then (k, v) ∷ docs else (k, old) ∷ put_document id v docs

unfoldable pub delete_document : Str → List (Str × Str) → List (Str × Str)
delete_document id [] = []
delete_document id ((k, v) ∷ docs) =
    let rest = delete_document id docs in if str_eq k id then rest else (k, v) ∷ rest

-- removeString: the first occurrence.
unfoldable pub remove_string : List Str → Str → List Str
remove_string [] target = []
remove_string (v ∷ s) target = if str_eq v target then s else v ∷ remove_string s target

abbrev pub is_some {ℓ} : {A : Type ℓ} → Option A → Bool
is_some none = false
is_some (some _) = true

-- A tombstone.
unfoldable pub drop_id : Str → Live → Live
unfolding document delete_document remove_string
drop_id id s =
    if is_some (document s.live id)
    then record { live = delete_document id s.live; order = remove_string s.order id }
    else s

-- A document.
unfoldable pub keep_document : Str → Str → Live → Live
unfolding document put_document
keep_document id line s = record {
  live = put_document id line s.live;
  order = if is_some (document s.live id) then s.order else s.order ++ id ∷ [];
}

-- The four cases of the switch.
unfoldable pub apply_line : NeDbLine → Str → Live → Live
unfolding drop_id keep_document
apply_line m line s =
    if m.index
    then s
    else if is_empty m.id
    then s
    else if m.deleted
    then drop_id m.id s
    else keep_document m.id line s

module _ (decode : Str → Result NeDbLine) where
  unfoldable pub apply_decoded : Str → Live → Result NeDbLine → Result Live
  apply_decoded line s (err e) = err (codes "parse line: " ++ e)
  apply_decoded line s (ok m) = ok (apply_line m line s)

  unfoldable pub apply_raw : Str → Live → Result Live
  unfolding apply_line apply_decoded
  apply_raw raw s =
      let line = trim_space raw in
      if is_empty line then ok s else apply_decoded line s (decode line)

  unfoldable pub apply_all : List Str → Live → Result Live
  unfolding apply_raw
  apply_all [] s = ok s
  apply_all (raw ∷ lines) s = apply_raw raw s >>= λ s. apply_all lines s

  unfoldable pub read_end : Option Str → Live → Result Live
  read_end none s = ok s
  read_end (some e) s = err e

  -- The lines end in a line feed, but for the last, which the end of the file or a failure ends.
  unfoldable pub replay_nedb : Body → Result Live
  unfolding apply_all read_end
  replay_nedb b = apply_all (split b'\n' b.content) (record { live = []; order = [] }) >>= λ s.
      read_end b.failure s

module _ {A : Type 0} (unmarshal : Str → Result A) (quote : Str → Str) (path : Str) where
  decode_found : Str → Option Str → Result A
  decode_found id none = err (codes "unexpected end of JSON input")
  decode_found id (some doc) = unmarshal doc

  named_error : Str → Result A → Result A
  named_error id (ok v) = ok v
  named_error id (err e) = err (path ++ (codes ": decode doc " ++ (quote id ++ (codes ": " ++ e))))

  unfoldable pub decode_documents : Live → List Str → Result (List A)
  unfolding decode_found named_error
  decode_documents s [] = ok []
  decode_documents s (id ∷ order) = named_error id (decode_found id (document s.live id)) >>= λ v.
      decode_documents s order >>= λ vs. ok (v ∷ vs)

  replayed : Result Live → Result (List A)
  replayed (err e) = err (path ++ (codes ": " ++ e))
  replayed (ok s) = decode_documents s s.order

  -- The file: none where it is missing, or the error of opening it.
  unfoldable pub read_nedb : (Str → Result NeDbLine) → Result (Option Body) → Result (List A)
  unfolding replay_nedb decode_documents replayed
  read_nedb decode (err e) = err e
  read_nedb decode (ok none) = ok []
  read_nedb decode (ok (some b)) = replayed (replay_nedb decode b)
