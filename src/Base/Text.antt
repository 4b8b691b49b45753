-- ===== src/Base/Text.antt =====
-- Go strings and byte slices as lists of bytes, with the functions of `strings` that the
-- program calls. Unicode white space is recognised in its UTF-8 form; lower case outside ASCII is
-- a parameter.
use Prim.Native.Nat.{ℕ, zero, suc, ◌+◌, ◌*◌, ◌-◌, ◌/◌, ◌%◌}
use Prim.Native.Char.{code}
use Prim.Native.String.{String}
use mathlib.Core.Bool.{Bool, true, false, ◌&&◌, ◌||◌}
use mathlib.Core.List.{List, [], ◌∷◌, ◌++◌, map, reverse}
use mathlib.Core.Option
use mathlib.Core.Option.{Option, none, some}
use git_proxy_go.Base.Tests.{ltb, leb, ◌==◌, if◌then◌else◌}
use git_proxy_go.Base.Lists.{length, drop, all}

abbrev pub Str : Type 0
Str = List ℕ

-- The bytes of an ASCII literal.
abbrev pub codes : String → Str
codes String.[] = []
codes (String.◌∷◌ c s) = code c ∷ codes s

unfoldable pub str_eq : Str → Str → Bool
str_eq [] [] = true
str_eq (a ∷ s) (b ∷ t) = (a == b) && str_eq s t
str_eq _ _ = false

-- s == "", for a test in a condition.
abbrev pub is_empty {ℓ} : {A : Type ℓ} → List A → Bool
is_empty [] = true
is_empty (_ ∷ _) = false

unfoldable pub has_prefix : Str → Str → Bool
has_prefix s [] = true
has_prefix [] (p ∷ ps) = false
has_prefix (c ∷ s) (p ∷ ps) = (c == p) && has_prefix s ps

unfoldable pub trim_prefix : Str → Str → Str
unfolding has_prefix
trim_prefix s p = if has_prefix s p then drop (length p) s else s

-- `strings.Contains(s, sub)`.
unfoldable pub contains : Str → Str → Bool
unfolding has_prefix
contains [] sub = is_empty sub
contains (c ∷ s) sub = has_prefix (c ∷ s) sub || contains s sub

-- `slices.Contains`, and `contains` of the SQLite store.
unfoldable pub member : List Str → Str → Bool
unfolding str_eq
member [] x = false
member (v ∷ list) x = str_eq v x || member list x

-- The bytes before the first `sep`, and those behind it.
unfoldable pub cut : ℕ → Str → Option (Str × Str)
cut sep [] = none
cut sep (c ∷ s) = if c == sep then some ([], s) else Option.map (λ p. (c ∷ p.0, p.1)) (cut sep s)

-- `s[:i]` for `i := strings.IndexByte(s, sep)`, or `s` where there is none: also
-- `strings.SplitN(s, sep, 2)[0]`.
unfoldable pub before : ℕ → Str → Str
before sep [] = []
before sep (c ∷ s) = if c == sep then [] else c ∷ before sep s

unfoldable pub prepend : ℕ → List Str → List Str
prepend c [] = (c ∷ []) ∷ []
prepend c (p ∷ ps) = (c ∷ p) ∷ ps

-- `strings.Split(s, sep)` at a one-byte separator.
unfoldable pub split : ℕ → Str → List Str
unfolding prepend
split sep [] = [] ∷ []
split sep (c ∷ s) = let rest = split sep s in if c == sep then [] ∷ rest else prepend c rest

unfoldable pub join : Str → List Str → Str
join sep [] = []
join sep (p ∷ []) = p
join sep (p ∷ q ∷ ps) = p ++ (sep ++ join sep (q ∷ ps))

is_ascii_space : ℕ → Bool
is_ascii_space c = c == 32 || (leb 9 c && leb c 13)

-- The width in bytes of a white-space rune at the head, or 0.
space_width : Str → ℕ
unfolding is_ascii_space
space_width [] = 0
space_width (a ∷ []) = if is_ascii_space a then 1 else 0
space_width (a ∷ b ∷ []) =
    if is_ascii_space a then 1 else if a == 0xc2 && (b == 0x85 || b == 0xa0) then 2 else 0
space_width (a ∷ b ∷ c ∷ _) =
    if is_ascii_space a
    then 1
    else if a == 0xc2 && (b == 0x85 || b == 0xa0)
    then 2
    else if (a == 0xe1 && b == 0x9a && c == 0x80)
        || (a == 0xe2
            && b == 0x80
            && (leb 0x80 c && leb c 0x8a || c == 0xa8 || c == 0xa9 || c == 0xaf))
        || (a == 0xe2 && b == 0x81 && c == 0x9f)
        || (a == 0xe3 && b == 0x80 && c == 0x80)
    then 3
    else 0

trim_left_fuel : ℕ → Str → Str
trim_left_fuel zero s = s
trim_left_fuel (suc f) s = elim (space_width s) [
  | zero ↦ s
  | suc n ↦ trim_left_fuel f (drop (suc n) s)
]

pub trim_left : Str → Str
trim_left s = trim_left_fuel (length s) s

-- What ends in no white-space rune. The runes are three bytes wide at most.
ends_in_space : Str → ℕ
ends_in_space [] = 0
ends_in_space (a ∷ []) = if is_ascii_space a then 1 else 0
ends_in_space (a ∷ b ∷ []) =
    if is_ascii_space a then 1 else if space_width (b ∷ a ∷ []) == 2 then 2 else 0
ends_in_space (a ∷ b ∷ c ∷ _) =
    if is_ascii_space a
    then 1
    else if space_width (b ∷ a ∷ []) == 2
    then 2
    else if space_width (c ∷ b ∷ a ∷ []) == 3
    then 3
    else 0

trim_right_fuel : ℕ → Str → Str
trim_right_fuel zero s = s
trim_right_fuel (suc f) s = elim (ends_in_space s) [
  | zero ↦ s
  | suc n ↦ trim_right_fuel f (drop (suc n) s)
]

trim_right : Str → Str
trim_right s = reverse (trim_right_fuel (length s) (reverse s))

-- `strings.TrimSpace`.
unfoldable pub trim_space : Str → Str
unfolding space_width is_ascii_space trim_left_fuel trim_left ends_in_space trim_right_fuel
    trim_right
trim_space s = trim_right (trim_left s)

cons_field : Str → List Str → List Str
cons_field [] fs = fs
cons_field w fs = reverse w ∷ fs

-- The word so far, last byte first, and the unread text.
fields_fuel : ℕ → Str → Str → List Str
fields_fuel zero word s = cons_field word []
fields_fuel (suc f) word [] = cons_field word []
fields_fuel (suc f) word (c ∷ s) = elim (space_width (c ∷ s)) [
  | zero ↦ fields_fuel f (c ∷ word) s
  | suc n ↦ cons_field word (fields_fuel f [] (drop n s))
]

-- `strings.Fields`. Each round reads at least one byte.
unfoldable pub fields : Str → List Str
unfolding space_width is_ascii_space cons_field fields_fuel
fields s = fields_fuel (suc (length s)) [] s

ascii_lower : ℕ → ℕ
ascii_lower c = if leb b'A' c && leb c b'Z' then c + 32 else c

-- `strings.ToLower`: an ASCII text has its own path; `unicode_lower` stands for the other.
unfoldable pub to_lower : (Str → Str) → Str → Str
unfolding ascii_lower
to_lower unicode_lower s = if all (λ c. ltb c 128) s then map ascii_lower s else unicode_lower s

digits : ℕ → ℕ → Str → Str
digits zero n out = out
digits (suc f) n out = elim (ltb n 10) [
  | true ↦ (b'0' + n) ∷ out
  | false ↦ digits f (n / 10) ((b'0' + n % 10) ∷ out)
]

-- `%d` of a number that is not negative.
unfoldable pub show : ℕ → Str
unfolding digits
show n = digits (suc n) n []

-- `strings.Replace(s, old, new, 1)` where `old` is not empty.
unfoldable pub replace_first : Str → Str → Str → Str
replace_first old new [] = []
replace_first old new (c ∷ s) =
    if has_prefix (c ∷ s) old then new ++ drop (length old) (c ∷ s) else c ∷ replace_first old new s

-- The order of strings, byte by byte.
unfoldable pub str_leb : Str → Str → Bool
str_leb [] t = true
str_leb (a ∷ s) [] = false
str_leb (a ∷ s) (b ∷ t) = if a == b then str_leb s t else leb a b

insert_sorted : Str → List Str → List Str
insert_sorted x [] = x ∷ []
insert_sorted x (y ∷ ys) = if str_leb x y then x ∷ y ∷ ys else y ∷ insert_sorted x ys

-- `sort.Strings`.
unfoldable pub sort_strings : List Str → List Str
unfolding str_leb insert_sorted
sort_strings [] = []
sort_strings (x ∷ xs) = insert_sorted x (sort_strings xs)

-- The decimal digits `c ∷ s` as a number, and what follows them.
unfoldable pub read_digits : ℕ → Str → ℕ × Str
read_digits n [] = (n, [])
read_digits n (c ∷ s) =
    let more = read_digits (n * 10 + (c - b'0')) s in
    if leb b'0' c && leb c b'9' then more else (n, c ∷ s)

unfoldable pub hex_char : ℕ → ℕ
hex_char d = if ltb d 10 then b'0' + d else b'a' + (d - 10)

hex_digits : ℕ → ℕ → Str → Str
hex_digits zero n out = out
hex_digits (suc f) n out = elim (ltb n 16) [
  | true ↦ hex_char n ∷ out
  | false ↦ hex_digits f (n / 16) (hex_char (n % 16) ∷ out)
]

-- `%04x`: four digits, or more where the number needs them.
unfoldable pub hex4 : ℕ → Str
unfolding hex_char hex_digits
hex4 n =
    if ltb n 65536
    then hex_char (n / 4096)
      ∷ hex_char (n / 256 % 16)
      ∷ hex_char (n / 16 % 16)
      ∷ hex_char (n % 16)
      ∷ []
    else hex_digits (suc n) n []

-- The tables of Unicode behind `unicode.ToLower` and `unicode.SimpleFold`, for texts that are not
-- ASCII.
pub record Unicode : Type 0 where
  pub unicode_lower : Str → Str
  pub unicode_fold : Str → Str → Bool

is_ascii : Str → Bool
is_ascii s = all (λ c. ltb c 128) s

-- `strings.EqualFold`: two ASCII texts have a path of their own.
unfoldable pub equal_fold : Unicode → Str → Str → Bool
unfolding ascii_lower is_ascii
equal_fold u s t =
    if is_ascii s && is_ascii t
    then str_eq (map ascii_lower s) (map ascii_lower t)
    else u.unicode_fold s t
