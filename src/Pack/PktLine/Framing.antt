-- ===== src/Pack/PktLine/Framing.antt =====
-- What an accepted pkt-line stream guarantees, and that the loop's fuel is enough.
use git_proxy_go.Base.{
  ℕ, zero, suc, ◌+◌, ◌<◌, ◌≤◌, ◌≡◌, refl, ◌⊎◌, Option, none, some, List, [], ◌∷◌, ◌++◌, arith, Str,
  length, take, drop, length-drop, inl, inr, Bool-cases, Result, ok, err, leb,
}
use git_proxy_go.Pack.PktLine.{
  packet_size, parse_hex16, invalid_length, Prefix, flush, bad, line, judge, classify, packet_lines,
  parse_packet_lines,
}

judge_line : (o : Option ℕ) (left n : ℕ) → judge o left ≡ line n → (4 ≤ n) × (n ≤ left)
unfolding judge
judge_line none left n h = cc
judge_line (some m) left n h = ground arith

classify_line : (rest : Str) (n : ℕ) → classify rest ≡ line n → (4 ≤ n) × (n ≤ length rest)
unfolding classify
classify_line rest n h = judge_line (parse_hex16 (take packet_size rest)) (length rest) n h

Prefix-cases : (p : Prefix) → (p ≡ flush) ⊎ ((p ≡ bad) ⊎ ((n : ℕ) × (p ≡ line n)))
Prefix-cases flush = inl refl
Prefix-cases bad = inr (inl refl)
Prefix-cases (line n) = inr (inr (n, refl))

-- The end of the parse lies between its start and the end of the buffer.
packet_lines_bounds :
    (fuel : ℕ) (rest : Str) (offset : ℕ) (acc ls : List Str) (n : ℕ)
    → packet_lines fuel rest offset acc ≡ ok (ls, n)
    → (offset ≤ n) × (n ≤ offset + length rest)
unfolding packet_lines
packet_lines_bounds zero rest offset acc ls n h = cc
packet_lines_bounds (suc fuel) rest offset acc ls n h = elim (Prefix-cases (classify rest)) [
  | inl ends ↦ ground arith
  | inr (inl fails) ↦ ground arith
  | inr (inr (k, reads)) ↦ ground (
    arith,
    classify_line rest k reads,
    length-drop k rest,
    packet_lines_bounds fuel (drop k rest) (offset + k) (acc ++ drop packet_size (take k rest) ∷ [])
        ls n,
  )
]

-- Where the parser succeeds, the offset that it returns lies within the buffer.
pub parse_packet_lines_bounds :
    (buf : Str) (ls : List Str) (n : ℕ) → parse_packet_lines buf ≡ ok (ls, n) → n ≤ length buf
unfolding parse_packet_lines
parse_packet_lines_bounds buf ls n h =
    omega (arith, packet_lines_bounds (suc (length buf)) buf 0 [] ls n h)

-- Fuel above the length of the buffer is enough: more of it changes nothing.
packet_lines_fuel :
    (f g : ℕ) (rest : Str) (offset : ℕ) (acc : List Str)
    → length rest < f
    → length rest < g
    → packet_lines f rest offset acc ≡ packet_lines g rest offset acc
unfolding packet_lines
packet_lines_fuel zero g rest offset acc hf hg = elim hf [ ]
packet_lines_fuel (suc f) zero rest offset acc hf hg = elim hg [ ]
packet_lines_fuel (suc f) (suc g) rest offset acc hf hg = elim (Prefix-cases (classify rest)) [
  | inl ends ↦ ground arith
  | inr (inl fails) ↦ ground arith
  | inr (inr (k, reads)) ↦ ground (
    arith,
    classify_line rest k reads,
    length-drop k rest,
    packet_lines_fuel f g (drop k rest) (offset + k) (acc ++ drop packet_size (take k rest) ∷ []),
  )
]

-- The loop ended by one of its own returns: with the lines and an offset, or with the error for a
-- length prefix.
abbrev Ended : Result (List Str × ℕ) → Type 0
Ended r =
    ((ls : List Str) × (n : ℕ) × (r ≡ ok (ls, n)))
    ⊎ ((length_hex : Str) × (offset : ℕ) × (r ≡ err (invalid_length length_hex offset)))

packet_lines-Ended :
    (fuel : ℕ) (rest : Str) (offset : ℕ) (acc : List Str)
    → length rest < fuel
    → Ended (packet_lines fuel rest offset acc)
unfolding packet_lines
packet_lines-Ended zero rest offset acc h = elim h [ ]
packet_lines-Ended (suc fuel) rest offset acc h =
    elim (Bool-cases (leb packet_size (length rest))) [
      | inr short ↦ inl (acc, offset, rw (packet_lines, short) refl)
      | inl long ↦ elim (Prefix-cases (classify rest)) [
        | inl ends ↦ inl (acc, offset + packet_size, rw (packet_lines, long, ends) refl)
        | inr (inl fails) ↦ inr (take packet_size rest, offset, rw (packet_lines, long, fails) refl)
        | inr (inr (k, reads)) ↦
            let fewer : length (drop k rest) < fuel =
              omega (arith, classify_line rest k reads, length-drop k rest, h) in
            rw (packet_lines, long, reads)
              (packet_lines-Ended fuel (drop k rest) (offset + k)
                (acc ++ drop packet_size (take k rest) ∷ []) fewer)
      ]
    ]

-- On any fuel above the length of the buffer the loop ends by one of its own returns, with lines and
-- an offset or with the error for a length prefix, and it gives the parser's result.
pub parse_packet_lines_fuel :
    (buf : Str) (fuel : ℕ)
    → length buf < fuel
    → (packet_lines fuel buf 0 [] ≡ parse_packet_lines buf)
      × (((ls : List Str) × (n : ℕ) × (packet_lines fuel buf 0 [] ≡ ok (ls, n)))
          ⊎ ((length_hex : Str) × (offset : ℕ) × (packet_lines fuel buf 0 []
                ≡ err (invalid_length length_hex offset))))
unfolding parse_packet_lines
parse_packet_lines_fuel buf fuel h = (
  packet_lines_fuel fuel (suc (length buf)) buf 0 [] h (omega arith),
  packet_lines-Ended fuel buf 0 [] h,
)
