-- ===== src/Ssh/Advertisement/RoundTrip.antt =====
-- What is relayed of an upstream host's output.
use git_proxy_go.Base.{
  ◌≡◌, sym, ap, ◌∙◌, arith, ℕ, zero, suc, ◌+◌, ◌<◌, some, List, [], ◌∷◌, ◌++◌, append_assoc, Str,
  codes, length, take, drop, All, length-append, hex4, ok, take-length-append, drop-length-append,
}
use git_proxy_go.Pack.PktLine.{parse_hex16}
use git_proxy_go.Pack.PktLine.Digits.{parse_hex16-hex4, length-hex4}
use git_proxy_go.Pack.PktLine.RoundTrip.{
  encode_line, encode_lines, Fits, take-append, drop-append, long_enough, length-le-encode_lines,
}
use git_proxy_go.Ssh.Advertisement.{
  mark, with_payload, next_line, payload, read_lines, read_ref_advertisement,
}

line_tail : (l rest : Str) → Fits l → drop 4 (encode_line l ++ rest) ≡ l ++ rest
line_tail l rest h =
    rw append_assoc (drop-append 4 (hex4 (length l + 4)) (l ++ rest) (length-hex4 _ h))

line_header : (l rest : Str) → Fits l → take 4 (encode_line l ++ rest) ≡ hex4 (length l + 4)
line_header l rest h =
    rw append_assoc (take-append 4 (hex4 (length l + 4)) (l ++ rest) (length-hex4 _ h))

-- The header and the payload are the line.
line_back :
    (l rest : Str)
    → Fits l
    → take 4 (encode_line l ++ rest) ++ take (length l) (drop 4 (encode_line l ++ rest))
      ≡ encode_line l
line_back l rest h =
    ap (λ t. t ++ take (length l) (drop 4 (encode_line l ++ rest))) (line_header l rest h)
    ∙ ap (λ t. hex4 (length l + 4) ++ take (length l) t) (line_tail l rest h)
    ∙ ap (λ t. hex4 (length l + 4) ++ t) (take-length-append l rest)

module _ (quote : Str → Str) where
  mark-line :
      (l : Str) (header : Str)
      → Fits l
      → mark quote header (some (length l + 4)) ≡ payload (length l)
  unfolding mark
  mark-line l header h = ground arith

  payload_there :
      (l rest : Str) → with_payload quote (payload (length l)) (l ++ rest) ≡ payload (length l)
  unfolding with_payload
  payload_there l rest = ground (arith, length-append l rest)

  next_line-encode_line :
      (l rest : Str)
      → Fits l
      → next_line quote (take 4 (encode_line l ++ rest)) (drop 4 (encode_line l ++ rest))
        ≡ payload (length l)
  unfolding next_line
  next_line-encode_line l rest h =
      ap (λ t. next_line quote t (drop 4 (encode_line l ++ rest))) (line_header l rest h)
      ∙ ap (next_line quote (hex4 (length l + 4))) (line_tail l rest h)
      ∙ ap (λ o. with_payload quote (mark quote (hex4 (length l + 4)) o) (l ++ rest))
          (parse_hex16-hex4 (length l + 4) h)
      ∙ ap (λ m. with_payload quote m (l ++ rest)) (mark-line l (hex4 (length l + 4)) h)
      ∙ payload_there l rest

  -- One round of the loop relays one line.
  read_lines-encode_line :
      (fuel : ℕ) (buf l rest : Str)
      → Fits l
      → read_lines quote (suc fuel) buf (encode_line l ++ rest)
        ≡ read_lines quote fuel (buf ++ encode_line l) rest
  unfolding read_lines
  read_lines-encode_line fuel buf l rest h =
      rw (long_enough l rest h, next_line-encode_line l rest h, read_lines)
        (ap
            (λ t.
              read_lines quote fuel (buf ++ t) (drop (length l) (drop 4 (encode_line l ++ rest))))
            (line_back l rest h)
          ∙ ap (λ t. read_lines quote fuel (buf ++ encode_line l) (drop (length l) t))
              (line_tail l rest h)
          ∙ ap (read_lines quote fuel (buf ++ encode_line l)) (drop-length-append l rest))

  read_lines-encode_lines :
      (fuel : ℕ) (buf : Str) (ls : List Str) (rest : Str)
      → All Fits ls
      → length ls < fuel
      → read_lines quote fuel buf (encode_lines ls ++ (codes "0000" ++ rest))
        ≡ ok (buf ++ (encode_lines ls ++ codes "0000"), rest)
  read_lines-encode_lines zero buf ls rest h enough = elim enough [ ]
  read_lines-encode_lines (suc fuel) buf [] rest h enough =
      unfold read_lines next_line with_payload mark parse_hex16 in ground arith
  read_lines-encode_lines (suc fuel) buf (l ∷ ls) rest (h, hs) enough =
      ap (read_lines quote (suc fuel) buf)
        (append_assoc (encode_line l) (encode_lines ls) (codes "0000" ++ rest))
      ∙ read_lines-encode_line fuel buf l _ h
      ∙ read_lines-encode_lines fuel (buf ++ encode_line l) ls rest hs (omega arith)
      ∙ ap (λ t. ok (t, rest))
          (append_assoc buf (encode_line l) (encode_lines ls ++ codes "0000")
            ∙ ap (λ t. buf ++ t)
                (sym (append_assoc (encode_line l) (encode_lines ls) (codes "0000"))))

  -- Of an upstream host that sends lines of at most 65531 bytes each and a flush packet, exactly these
  -- bytes are relayed, and what follows them is left in the stream.
  pub read_ref_advertisement-encode_lines :
      (ls : List Str) (rest : Str)
      → All Fits ls
      → read_ref_advertisement quote (encode_lines ls ++ (codes "0000" ++ rest))
        ≡ ok (encode_lines ls ++ codes "0000", rest)
  unfolding read_ref_advertisement
  read_ref_advertisement-encode_lines ls rest h =
      read_lines-encode_lines (suc (length (encode_lines ls ++ (codes "0000" ++ rest)))) [] ls rest
        h
        (omega (
          arith,
          length-append (encode_lines ls) (codes "0000" ++ rest),
          length-le-encode_lines ls h,
        ))
