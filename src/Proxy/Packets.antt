-- ===== src/Proxy/Packets.antt =====
-- The packets of the proxy's own answers, read back by the packet-line parser.
use git_proxy_go.Base.{
  ◌≡◌, refl, sym, ap, ◌∙◌, ◌<◌, ℕ, zero, suc, ◌+◌, Str, codes, List, [], ◌∷◌, ◌++◌, length,
  length-append, append_assoc, append-nil, arith, ok, err, hex4,
}
use git_proxy_go.Pack.PktLine.{
  parse_packet_lines, packet_lines, classify, parse_hex16, invalid_length,
}
use git_proxy_go.Pack.PktLine.RoundTrip.{
  encode_line, length-encode_line, Fits, packet_lines-encode_line, parse_packet_lines-encode_lines,
}
use git_proxy_go.Proxy.{handle_message, handle_refs_error_message}

-- The line of a message: the side band, a tab, the text and a line feed.
abbrev pub message_line : Str → Str
message_line m = 2 ∷ b'\t' ∷ m ++ codes "\n"

length-message_line : (m : Str) → length (message_line m) ≡ length m + 3
length-message_line m = omega (arith, length-append m (codes "\n"))

message_packet : (m : Str) → handle_message m ≡ encode_line (message_line m) ++ codes "0000"
unfolding handle_message
message_packet m =
    let l = message_line m in
    let n = length l + 4 in
    ap (λ k. hex4 k ++ (2 ∷ b'\t' ∷ m ++ codes "\n0000")) (omega (arith, length-message_line m))
    ∙ ap (λ t. hex4 n ++ (2 ∷ b'\t' ∷ t)) (sym (append_assoc m (codes "\n") (codes "0000")))
    ∙ sym (append_assoc (hex4 n) l (codes "0000"))

-- The answer with a message of fewer than 65529 bytes is one packet line, the side band 2 with a tab, the
-- message and a line feed, and a flush packet, with nothing behind it.
pub parse-handle_message :
    (m : Str)
    → length m < 65529
    → parse_packet_lines (handle_message m) ≡ ok (message_line m ∷ [], length m + 11)
parse-handle_message m h =
    let line_fits : Fits (message_line m) = omega (arith, length-message_line m) in
    rw message_packet (
      ap parse_packet_lines
        (ap (λ s. s ++ codes "0000") (sym (append-nil (encode_line (message_line m)))))
      ∙ parse_packet_lines-encode_lines (message_line m ∷ []) [] (line_fits, tt)
      ∙ ap (λ n. ok (message_line m ∷ [], n))
          (omega (
            arith,
            length-message_line m,
            length-append (encode_line (message_line m)) [],
            length-encode_line (message_line m) line_fits,
          )))

refs_packet :
    (m : Str) → handle_refs_error_message m ≡ encode_line (codes "ERR " ++ m) ++ codes "\n0000"
unfolding handle_refs_error_message
refs_packet m =
    let l = codes "ERR " ++ m in
    ap (λ k. hex4 k ++ (l ++ codes "\n0000")) (omega arith)
    ∙ sym (append_assoc (hex4 (length l + 4)) l (codes "\n0000"))

-- The loop stops at a line feed behind a packet.
line_feed_fails :
    (fuel offset : ℕ) (lines : List Str)
    → 0 < fuel
    → packet_lines fuel (codes "\n0000") offset lines ≡ err (invalid_length (codes "\n000") offset)
unfolding packet_lines classify parse_hex16
line_feed_fails zero offset lines enough = absurd (omega arith)
line_feed_fails (suc fuel) offset lines enough = refl

-- The answer to a ref advertisement with a message of fewer than 65528 bytes is no sequence of packet
-- lines: the length of its packet leaves the line feed out, and the parser fails on that line feed.
pub parse-handle_refs_error_message :
    (m : Str)
    → length m < 65528
    → parse_packet_lines (handle_refs_error_message m)
      ≡ err (invalid_length (codes "\n000") (length m + 8))
unfolding parse_packet_lines
parse-handle_refs_error_message m h =
    let l = codes "ERR " ++ m in
    ap parse_packet_lines (refs_packet m)
    ∙ packet_lines-encode_line (length (encode_line l ++ codes "\n0000")) 0 l (codes "\n0000") []
        (omega arith)
    ∙ line_feed_fails _ _ _ (omega (arith, length-append (encode_line l) (codes "\n0000")))
    ∙ ap (λ n. err (invalid_length (codes "\n000") n)) (omega arith)
