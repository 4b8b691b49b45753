-- ===== src/Pack/PktLine/Digits.antt =====
-- The four hexadecimal digits of a length prefix read back.
use git_proxy_go.Base.{
  ℕ, ◌+◌, ◌*◌, ◌/◌, ◌%◌, ◌<◌, ◌≡◌, true, some, ◌∷◌, arith, Str, ltb, hex4, hex_char, length, ap,
}
use git_proxy_go.Pack.PktLine.{hex_digit, hex_from, parse_hex16}

hex_digit-hex_char : (d : ℕ) → d < 16 → hex_digit (hex_char d) ≡ some d
unfolding hex_digit hex_char
hex_digit-hex_char d h = ground arith

hex_from-hex_char :
    (n d : ℕ) (s : Str) → d < 16 → hex_from n (hex_char d ∷ s) ≡ hex_from (n * 16 + d) s
unfolding hex_from
hex_from-hex_char n d s h = rw (hex_digit-hex_char d h, hex_from)

pub parse_hex16-hex4 : (n : ℕ) → n < 65536 → parse_hex16 (hex4 n) ≡ some n
unfolding parse_hex16 hex4
parse_hex16-hex4 n h =
    let short : ltb n 65536 ≡ true = ground arith in
    rw
      (
        short,
        hex_from-hex_char 0 (n / 4096) _ (omega arith),
        hex_from-hex_char _ (n / 256 % 16) _ (omega arith),
        hex_from-hex_char _ (n / 16 % 16) _ (omega arith),
        hex_from-hex_char _ (n % 16) _ (omega arith),
      )
      (unfold hex_from in ap some (omega arith))

pub length-hex4 : (n : ℕ) → n < 65536 → length (hex4 n) ≡ 4
unfolding hex4
length-hex4 n h = ground arith
