-- ===== src/Migrate/Replay/Laws.antt =====
-- The replay of a log as an abstract map: the last line about an id decides.
use git_proxy_go.Base.{
  ◌≡◌, refl, sym, ap, ◌∙◌, arith, inl, inr, Bool, true, false, not, ◌&&◌, ◌||◌, Option, none, some,
  List, [], ◌∷◌, ◌++◌, Str, is_empty, member, if◌then◌else◌, str_eq, str_eq_iff, str_eq_sym,
  Bool-cases,
}
use git_proxy_go.Migrate.Replay.{
  NeDbLine, Live, document, put_document, delete_document, remove_string, is_some,
}

pub same_head : (k a id : Str) → str_eq k a ≡ true → str_eq k id ≡ str_eq a id
same_head k a id h = ap (λ s. str_eq s id) ((str_eq_iff k a).0 h)

-- A text that differs from another is not equal to what the other equals.
pub apart : (k id other : Str) → str_eq k id ≡ false → (str_eq k other && str_eq id other) ≡ false
apart k id other later = elim (Bool-cases (str_eq id other)) [
  | inr differ ↦ ground (arith, differ)
  | inl same ↦
      ap (λ b. str_eq k other && b) same
      ∙ ap (λ b. b && true) (ap (λ s. str_eq k s) (sym ((str_eq_iff id other).0 same)) ∙ later)
]

pub document-put_document :
    (id other v : Str) (docs : List (Str × Str))
    → document (put_document id v docs) other
      ≡ (if str_eq id other then some v else document docs other)
unfolding document put_document
document-put_document id other v [] = refl
document-put_document id other v ((k, old) ∷ docs) = elim (Bool-cases (str_eq k id)) [
  | inl here ↦ ground (arith, here, same_head k id other here)
  | inr later ↦ ground (arith, later, document-put_document id other v docs, apart k id other later)
]

pub document-delete_document :
    (id other : Str) (docs : List (Str × Str))
    → document (delete_document id docs) other
      ≡ (if str_eq id other then none else document docs other)
unfolding document delete_document
document-delete_document id other [] = ground arith
document-delete_document id other ((k, v) ∷ docs) = elim (Bool-cases (str_eq k id)) [
  | inl here ↦
      ground (arith, here, same_head k id other here, document-delete_document id other docs)
  | inr later ↦
      ground (arith, later, document-delete_document id other docs, apart k id other later)
]

-- No text stands in a list twice.
abbrev pub Distinct : List Str → Type 0
Distinct [] = Unit
Distinct (x ∷ xs) = (member xs x ≡ false) × Distinct xs

pub member-append :
    (xs : List Str) (y x : Str) → member (xs ++ y ∷ []) x ≡ (member xs x || str_eq y x)
unfolding member
member-append [] y x = ground arith
member-append (z ∷ zs) y x = ground (arith, member-append zs y x)

pub Distinct-append :
    (xs : List Str) (y : Str) → member xs y ≡ false → Distinct xs → Distinct (xs ++ y ∷ [])
unfolding member
Distinct-append [] y h d = (refl, tt)
Distinct-append (x ∷ xs) y h (fresh, d) = (
  member-append xs y x ∙ ap (λ b. b || str_eq y x) fresh ∙ str_eq_sym y x ∙ (neither _ _ h).0,
  Distinct-append xs y (neither _ _ h).1 d,
)
  where
    neither : (a b : Bool) → (a || b) ≡ false → (a ≡ false) × (b ≡ false)
    neither a b h = ground arith

pub member-remove_string :
    (xs : List Str) (t x : Str)
    → Distinct xs
    → member (remove_string xs t) x ≡ (not (str_eq t x) && member xs x)
unfolding member remove_string
member-remove_string [] t x d = ground arith
member-remove_string (y ∷ ys) t x (fresh, d) = elim (Bool-cases (str_eq y t)) [
  | inl here ↦ elim (Bool-cases (str_eq t x)) [
    | inl same ↦
        let equal : t ≡ x = (str_eq_iff t x).0 same in
        let gone : member ys x ≡ false =
          ap (member ys) (sym ((str_eq_iff y t).0 here ∙ equal)) ∙ fresh in
        ground (arith, here, same, gone)
    | inr other ↦ ground (arith, here, other, same_head y t x here)
  ]
  | inr later ↦ ground (arith, later, member-remove_string ys t x d, apart y t x later)
]

pub Distinct-remove_string : (xs : List Str) (t : Str) → Distinct xs → Distinct (remove_string xs t)
unfolding remove_string
Distinct-remove_string [] t d = tt
Distinct-remove_string (y ∷ ys) t (fresh, d) = elim (Bool-cases (str_eq y t)) [
  | inl here ↦ rw here d
  | inr later ↦ rw later (
    member-remove_string ys t y d ∙ ap (λ b. not (str_eq t y) && b) fresh ∙ and_false _,
    Distinct-remove_string ys t d,
  )
]
  where
    and_false : (b : Bool) → (b && false) ≡ false
    and_false b = ground arith

-- The order lists each live id once, and no other.
abbrev pub IsOrdered : Live → Type 0
IsOrdered s = Distinct s.order × ((id : Str) → member s.order id ≡ is_some (document s.live id))

-- What a line makes of the document of an id.
abbrev pub value_after : NeDbLine → Str → Str → Option Str → Option Str
value_after m line id old =
    if m.index || is_empty m.id || not (str_eq m.id id)
    then old
    else if m.deleted
    then none
    else some line
