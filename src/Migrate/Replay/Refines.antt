-- ===== src/Migrate/Replay/Refines.antt =====
-- The replay of a log refines an abstract map, in which the last line about an id decides.
use git_proxy_go.Base.{
  ◌≡◌, refl, sym, ap, ◌∙◌, arith, inl, inr, Bool, true, false, not, ◌&&◌, ◌||◌, Option, none, some,
  List, [], ◌∷◌, Str, is_empty, member, if◌then◌else◌, str_eq, str_eq_iff, split, trim_space,
  Bool-cases, Result, err, ok, >>=-eq-ok,
}
use git_proxy_go.Proxy.{Body}
use git_proxy_go.Migrate.Replay.{
  NeDbLine, Live, document, is_some, drop_id, keep_document, apply_line, apply_decoded, apply_raw,
  apply_all, read_end, replay_nedb,
}
use git_proxy_go.Migrate.Replay.Laws.{
  document-put_document, document-delete_document, member-append, Distinct-append,
  member-remove_string, Distinct-remove_string, IsOrdered, value_after,
}

abbrev empty_live : Live
empty_live = record { live = []; order = [] }

ok-injective : {A : Type 0} {a b : A} → Result.ok a ≡ ok b → a ≡ b
ok-injective h = cc

-- A value that is not there.
is_some-false : {A : Type 0} (o : Option A) → is_some o ≡ false → o ≡ none
is_some-false none h = refl
is_some-false (some a) h = cc

document_same :
    (docs : List (Str × Str)) (t id : Str) → str_eq t id ≡ true → document docs t ≡ document docs id
document_same docs t id h = ap (document docs) ((str_eq_iff t id).0 h)

document-drop_id :
    (t id : Str) (s : Live)
    → document (drop_id t s).live id ≡ (if str_eq t id then none else document s.live id)
unfolding drop_id
document-drop_id t id s = elim (Bool-cases (is_some (document s.live t))) [
  | inl there ↦ rw there (document-delete_document t id s.live)
  | inr absent ↦ elim (Bool-cases (str_eq t id)) [
    | inl same ↦ rw (absent, same) (sym (document_same s.live t id same) ∙ is_some-false _ absent)
    | inr other ↦ rw (absent, other) refl
  ]
]

drop_id-IsOrdered : (t : Str) (s : Live) → IsOrdered s → IsOrdered (drop_id t s)
unfolding drop_id
drop_id-IsOrdered t s (distinct, listed) = elim (Bool-cases (is_some (document s.live t))) [
  | inr absent ↦ rw absent (distinct, listed)
  | inl there ↦ rw there (
    Distinct-remove_string s.order t distinct,
    λ id.
        member-remove_string s.order t id distinct
        ∙ ap (λ b. not (str_eq t id) && b) (listed id)
        ∙ both (str_eq t id) (document s.live id)
        ∙ ap is_some (sym (document-delete_document t id s.live)),
  )
]
  where
    both : (b : Bool) (o : Option Str) → (not b && is_some o) ≡ is_some (if b then none else o)
    both true o = refl
    both false o = refl

keep_document-IsOrdered :
    (t line : Str) (s : Live) → IsOrdered s → IsOrdered (keep_document t line s)
unfolding keep_document
keep_document-IsOrdered t line s (distinct, listed) =
    elim (Bool-cases (is_some (document s.live t))) [
      | inl there ↦ rw there (
        distinct,
        λ id.
            listed id
            ∙ stays t id s there
            ∙ ap is_some (sym (document-put_document t id line s.live)),
      )
      | inr absent ↦ rw absent (
        Distinct-append s.order t (listed t ∙ absent) distinct,
        λ id.
            member-append s.order t id
            ∙ ap (λ b. b || str_eq t id) (listed id)
            ∙ either (str_eq t id) (document s.live id)
            ∙ ap is_some (sym (document-put_document t id line s.live)),
      )
    ]
  where
    either : (b : Bool) (o : Option Str) → (is_some o || b) ≡ is_some (if b then some line else o)
    either true o = ground arith
    either false o = ground arith

    stays :
        (t id : Str) (s : Live)
        → is_some (document s.live t) ≡ true
        → is_some (document s.live id)
          ≡ is_some (if str_eq t id then some line else document s.live id)
    stays t id s there = elim (Bool-cases (str_eq t id)) [
      | inl same ↦ rw same (ap is_some (sym (document_same s.live t id same)) ∙ there)
      | inr other ↦ rw other refl
    ]

-- One line: the order stays as it should, and each id has the value that the line makes of it.
apply_line_refines :
    (m : NeDbLine) (line : Str) (s : Live)
    → IsOrdered s
    → IsOrdered (apply_line m line s)
      × ((id : Str)
          → document (apply_line m line s).live id ≡ value_after m line id (document s.live id))
unfolding apply_line
apply_line_refines m line s h = elim (Bool-cases m.index) [
  | inl index ↦ rw index (h, λ id. refl)
  | inr plain ↦ elim (Bool-cases (is_empty m.id)) [
    | inl blank ↦ rw (plain, blank) (h, λ id. refl)
    | inr named ↦ elim (Bool-cases m.deleted) [
      | inl gone ↦
          rw (plain, named, gone)
            (
              drop_id-IsOrdered m.id s h,
              λ id. document-drop_id m.id id s ∙ swap (str_eq m.id id) _ _,
            )
      | inr written ↦
          rw (plain, named, written)
            (
              keep_document-IsOrdered m.id line s h,
              λ id.
                  (unfold keep_document in document-put_document m.id id line s.live)
                  ∙ swap (str_eq m.id id) _ _,
            )
    ]
  ]
]
  where
    swap : (b : Bool) (x y : Option Str) → (if b then x else y) ≡ (if not b then y else x)
    swap true x y = refl
    swap false x y = refl

-- A line of the log, decoded where it is not blank.
abbrev line_value : Result NeDbLine → Str → Str → Option Str → Option Str
line_value (err e) line id old = old
line_value (ok m) line id old = value_after m line id old

module _ (decode : Str → Result NeDbLine) where
  -- What a log makes of the document of an id, line by line: the abstract map at one id.
  abbrev pub log_value : List Str → Str → Option Str → Option Str
  log_value [] id old = old
  log_value (raw ∷ lines) id old = log_value lines id (
      if is_empty (trim_space raw)
      then old
      else line_value (decode (trim_space raw)) (trim_space raw) id old)

  apply_decoded_refines :
      (line : Str) (s s' : Live) (d : Result NeDbLine)
      → IsOrdered s
      → apply_decoded decode line s d ≡ ok s'
      → IsOrdered s'
        × ((id : Str) → document s'.live id ≡ line_value d line id (document s.live id))
  unfolding apply_decoded
  apply_decoded_refines line s s' (err e) h k = cc
  apply_decoded_refines line s s' (ok m) h k =
      let same = ok-injective k in
      let (ordered, value) = apply_line_refines m line s h in
      (rw (← same) ordered, λ id. ap (λ t. document t.live id) (sym same) ∙ value id)

  apply_raw_refines :
      (raw : Str) (s s' : Live)
      → IsOrdered s
      → apply_raw decode raw s ≡ ok s'
      → IsOrdered s'
        × ((id : Str)
            → document s'.live id ≡ (
                if is_empty (trim_space raw)
                then document s.live id
                else line_value (decode (trim_space raw)) (trim_space raw) id (document s.live id)))
  unfolding apply_raw
  apply_raw_refines raw s s' h k = elim (Bool-cases (is_empty (trim_space raw))) [
    | inl blank ↦
        let same = ok-injective (sym (ap (choose (trim_space raw) s) blank) ∙ k) in
        (rw (← same) h, λ id. ap (λ t. document t.live id) (sym same) ∙ rw blank refl)
    | inr full ↦
        let (ordered, value) =
          apply_decoded_refines (trim_space raw) s s' (decode (trim_space raw)) h
            (sym (ap (choose (trim_space raw) s) full) ∙ k) in
        (ordered, λ id. value id ∙ rw full refl)
  ]
    where
      choose : Str → Live → Bool → Result Live
      choose line s b = if b then ok s else apply_decoded decode line s (decode line)

  apply_all_refines :
      (lines : List Str) (s s' : Live)
      → IsOrdered s
      → apply_all decode lines s ≡ ok s'
      → IsOrdered s' × ((id : Str) → document s'.live id ≡ log_value lines id (document s.live id))
  unfolding apply_all
  apply_all_refines [] s s' h k =
      let same = ok-injective k in (rw (← same) h, λ id. ap (λ t. document t.live id) (sym same))
  apply_all_refines (raw ∷ lines) s s' h k =
      let (mid, first, rest) = >>=-eq-ok (apply_raw decode raw s) _ k in
      let (ordered, value) = apply_raw_refines raw s mid h first in
      let (ordered', value') = apply_all_refines lines mid s' ordered rest in
      (ordered', λ id. value' id ∙ ap (log_value lines id) (value id))

  read_end-ok : (f : Option Str) (last s : Live) → read_end decode f last ≡ ok s → last ≡ s
  unfolding read_end
  read_end-ok none last s h = ok-injective h
  read_end-ok (some e) last s h = cc

  -- A replay that succeeds gives each id the document that the log's lines make of it one after the
  -- other, from no document; and its order lists each id that has a document exactly once, and no
  -- other id.
  pub replay_nedb_refines :
      (b : Body) (s : Live)
      → replay_nedb decode b ≡ ok s
      → IsOrdered s × ((id : Str) → document s.live id ≡ log_value (split b'\n' b.content) id none)
  unfolding replay_nedb
  replay_nedb_refines b s k =
      let (last, all, end) = >>=-eq-ok (apply_all decode (split b'\n' b.content) empty_live) _ k in
      let same = read_end-ok b.failure last s end in
      apply_all_refines (split b'\n' b.content) empty_live s
        (unfold document member in (tt, λ id. refl)) (all ∙ ap ok same)
