-- ===== src/Pack/PktLine.antt =====
-- Packet lines (parsePacketLines, parseHex16).
pub mod Digits
pub mod RoundTrip
pub mod Framing
use git_proxy_go.Base.{
  ℕ, zero, suc, ◌+◌, ◌-◌, ◌*◌, true, false, ◌&&◌, ◌||◌, Option, none, some, List, [], ◌∷◌, ◌++◌,
  Str, codes, ltb, leb, ◌==◌, if◌then◌else◌, length, take, drop, Result, ok, err, show,
}

abbrev pub packet_size : ℕ
packet_size = 4

unfoldable pub hex_digit : ℕ → Option ℕ
hex_digit c =
    if leb b'0' c && leb c b'9'
    then some (c - b'0')
    else if leb b'a' c && leb c b'f'
    then some (c - b'a' + 10)
    else if leb b'A' c && leb c b'F'
    then some (c - b'A' + 10)
    else none

-- `n<<4 | d` is n * 16 + d, as d is below 16. The caller drops the error's text.
hex_from : ℕ → Str → Option ℕ
hex_from n [] = some n
hex_from n (c ∷ s) = elim (hex_digit c) [ none ↦ none | some d ↦ hex_from (n * 16 + d) s ]

unfoldable pub parse_hex16 : Str → Option ℕ
unfolding hex_from hex_digit
parse_hex16 s = hex_from 0 s

unfoldable pub invalid_length : Str → ℕ → Str
invalid_length length_hex offset =
    codes "invalid packet line length " ++ (length_hex ++ (codes " at offset " ++ show offset))

-- What a length prefix asks of the loop: end behind a flush packet, fail, or take a line.
pub data Prefix : Type 0 where
  flush bad : Prefix
  line : ℕ → Prefix

-- From the number in the prefix and the bytes that are left.
unfoldable pub judge : Option ℕ → ℕ → Prefix
judge none left = Prefix.bad
judge (some n) left =
    if n == 0 then flush else if ltb n packet_size || ltb left n then Prefix.bad else line n

-- `rest` is `buf[offset:]`.
unfoldable pub classify : Str → Prefix
unfolding judge
classify rest = judge (parse_hex16 (take packet_size rest)) (length rest)

-- The loop of `parsePacketLines`, over `rest`, which is `buf[offset:]`.
unfoldable pub packet_lines : ℕ → Str → ℕ → List Str → Result (List Str × ℕ)
unfolding classify
packet_lines zero rest offset lines = err (codes "out of fuel")
packet_lines (suc fuel) rest offset lines = elim (leb packet_size (length rest)) [
  | false ↦ ok (lines, offset)
  | true ↦ elim (classify rest) [
    | flush ↦ ok (lines, offset + packet_size)
    | bad ↦ err (invalid_length (take packet_size rest) offset)
    | line n ↦
        packet_lines fuel (drop n rest) (offset + n) (lines ++ drop packet_size (take n rest) ∷ [])
  ]
]

-- Each round but the last takes four bytes or more.
unfoldable pub parse_packet_lines : Str → Result (List Str × ℕ)
unfolding packet_lines
parse_packet_lines buf = packet_lines (suc (length buf)) buf 0 []
