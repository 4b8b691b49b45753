-- ===== src/Pack/PktLine/RoundTrip.antt =====
-- Packet lines that are written and read again.
use git_proxy_go.Base.{
  ℕ, zero, suc, ◌+◌, ◌<◌, ◌≤◌, ◌≡◌, ap, ◌∙◌, true, List, [], ◌∷◌, ◌++◌, arith, append_assoc,
  append-nil, Str, codes, leb, hex4, length, take, drop, All, length-append, take-length-append,
  drop-length-append, ok,
}
use git_proxy_go.Pack.PktLine.{
  packet_size, parse_hex16, line, judge, classify, packet_lines, parse_packet_lines,
}
use git_proxy_go.Pack.PktLine.Digits.{parse_hex16-hex4, length-hex4}

-- The lines behind their prefixes, as git sends them.
abbrev pub encode_line : Str → Str
encode_line l = hex4 (length l + 4) ++ l

abbrev pub encode_lines : List Str → Str
encode_lines [] = []
encode_lines (l ∷ ls) = encode_line l ++ encode_lines ls

-- A line fits when its length has four digits.
abbrev pub Fits : Str → Type 0
Fits l = length l + 4 < 65536

pub take-append {ℓ} : {A : Type ℓ} (n : ℕ) (xs ys : List A) → length xs ≡ n → take n (xs ++ ys) ≡ xs
take-append n xs ys e = rw (← e) (take-length-append xs ys)

pub drop-append {ℓ} : {A : Type ℓ} (n : ℕ) (xs ys : List A) → length xs ≡ n → drop n (xs ++ ys) ≡ ys
drop-append n xs ys e = rw (← e) (drop-length-append xs ys)

pub length-encode_line : (l : Str) → Fits l → length (encode_line l) ≡ length l + 4
length-encode_line l h =
    length-append (hex4 (length l + 4)) l ∙ omega (arith, length-hex4 (length l + 4) h)

classify-encode_line :
    (l rest : Str) → Fits l → classify (encode_line l ++ rest) ≡ line (length l + 4)
unfolding classify
classify-encode_line l rest h =
    let digits : take packet_size (encode_line l ++ rest) ≡ hex4 (length l + 4) =
      rw append_assoc (take-append 4 (hex4 (length l + 4)) (l ++ rest) (length-hex4 _ h)) in
    let size = length-append (encode_line l) rest in
    ap (λ s. judge (parse_hex16 s) (length (encode_line l ++ rest))) digits
    ∙ (ap (λ o. judge o (length (encode_line l ++ rest))) (parse_hex16-hex4 (length l + 4) h)
        ∙ ground (arith, size, length-encode_line l h))

-- What a line leaves to the loop.
line_body :
    (l rest : Str) → Fits l → drop packet_size (take (length l + 4) (encode_line l ++ rest)) ≡ l
line_body l rest h =
    rw (take-append (length l + 4) (encode_line l) rest (length-encode_line l h))
      (drop-append 4 (hex4 (length l + 4)) l (length-hex4 _ h))

pub long_enough : (l rest : Str) → Fits l → leb packet_size (length (encode_line l ++ rest)) ≡ true
long_enough l rest h = ground (arith, length-append (encode_line l) rest, length-encode_line l h)

-- One round of the loop reads one line.
pub packet_lines-encode_line :
    (fuel offset : ℕ) (l rest : Str) (lines : List Str)
    → Fits l
    → packet_lines (suc fuel) (encode_line l ++ rest) offset lines
      ≡ packet_lines fuel rest (offset + (length l + 4)) (lines ++ l ∷ [])
unfolding packet_lines
packet_lines-encode_line fuel offset l rest lines h = rw (
  long_enough l rest h,
  classify-encode_line l rest h,
  line_body l rest h,
  drop-append (length l + 4) (encode_line l) rest (length-encode_line l h),
  packet_lines,
)

packet_lines-encode_lines :
    (fuel offset : ℕ) (ls lines : List Str) (rest : Str)
    → All Fits ls
    → length ls < fuel
    → packet_lines fuel (encode_lines ls ++ (codes "0000" ++ rest)) offset lines
      ≡ ok (lines ++ ls, offset + length (encode_lines ls) + 4)
packet_lines-encode_lines zero offset ls lines rest h enough = elim enough [ ]
packet_lines-encode_lines (suc fuel) offset [] lines rest h enough =
    unfold packet_lines classify parse_hex16 in ground (arith, append-nil lines)
packet_lines-encode_lines (suc fuel) offset (l ∷ ls) lines rest (h, hs) enough =
    rw
      (
        append_assoc,
        packet_lines-encode_line fuel offset l _ lines h,
        packet_lines-encode_lines fuel _ ls _ rest hs (omega arith),
        append_assoc,
      )
      (ap (λ n. ok (lines ++ l ∷ ls, n))
        (omega (arith, length-append (encode_line l) (encode_lines ls), length-encode_line l h)))

pub length-le-encode_lines : (ls : List Str) → All Fits ls → length ls ≤ length (encode_lines ls)
length-le-encode_lines [] h = omega arith
length-le-encode_lines (l ∷ ls) (h, hs) = omega (
  arith,
  length-le-encode_lines ls hs,
  length-append (encode_line l) (encode_lines ls),
  length-encode_line l h,
)

-- Lines of at most 65531 bytes, a flush packet and any bytes behind it: the parser returns exactly
-- the lines, and the offset of the byte behind the flush packet.
pub parse_packet_lines-encode_lines :
    (ls : List Str) (rest : Str)
    → All Fits ls
    → parse_packet_lines (encode_lines ls ++ (codes "0000" ++ rest))
      ≡ ok (ls, length (encode_lines ls) + 4)
unfolding parse_packet_lines
parse_packet_lines-encode_lines ls rest h =
    let text = encode_lines ls ++ (codes "0000" ++ rest) in
    packet_lines-encode_lines (suc (length text)) 0 ls [] rest h (
      omega (
        arith,
        length-append (encode_lines ls) (codes "0000" ++ rest),
        length-le-encode_lines ls h,
      ))
    ∙ ap (λ n. ok (ls, n)) (omega arith)
