-- ===== src/Ssh/Advertisement.antt =====
-- readRefAdvertisement of internal/proxy/ssh/githandler.go: the packet lines of an upstream host up to
-- its first flush packet. The stream is what it yields until its end.
pub mod RoundTrip
use git_proxy_go.Base.{
  ℕ, zero, suc, ◌-◌, ◌==◌, ltb, leb, Bool, true, false, Option, none, some, List, [], ◌∷◌, ◌++◌,
  Str, codes, is_empty, if◌then◌else◌, length, take, drop, show, Result, err, ok,
}
use git_proxy_go.Pack.PktLine.{parse_hex16}

-- `io.ReadFull` of a stream that is too short.
unfoldable pub eof : Str → Str
eof s = if is_empty s then codes "EOF" else codes "unexpected EOF"

-- What a header asks of the loop.
pub data Mark : Type 0 where
  flush : Mark
  payload : ℕ → Mark
  bad : Str → Mark

module _ (quote : Str → Str) where
  unfoldable pub mark : Str → Option ℕ → Mark
  mark header none = bad (
      codes "invalid pkt-line length "
      ++ (quote header
          ++ (codes ": strconv.ParseUint: parsing " ++ (quote header ++ codes ": invalid syntax"))))
  mark header (some n) =
      if n == 0
      then flush
      else if ltb n 4
      then bad (codes "invalid pkt-line length " ++ show n)
      else payload (n - 4)

  -- A payload has to be there.
  unfoldable pub with_payload : Mark → Str → Mark
  unfolding eof
  with_payload flush tail = flush
  with_payload (bad e) tail = bad e
  with_payload (payload n) tail =
      if ltb (length tail) n
      then bad (codes "reading pkt-line payload: " ++ eof tail)
      else payload n

  -- From the four bytes of the header and what follows them.
  unfoldable pub next_line : Str → Str → Mark
  unfolding mark with_payload
  next_line header tail = with_payload (mark header (parse_hex16 header)) tail

  -- The bytes in the buffer and those still in the stream; the result is the buffer and the rest.
  unfoldable pub read_lines : ℕ → Str → Str → Result (Str × Str)
  unfolding eof next_line
  read_lines zero buf s = err (codes "out of fuel")
  read_lines (suc fuel) buf s = elim (leb 4 (length s)) [
    | false ↦ err (codes "reading pkt-line header: " ++ eof s)
    | true ↦ elim (next_line (take 4 s) (drop 4 s)) [
      | flush ↦ ok (buf ++ take 4 s, drop 4 s)
      | bad e ↦ err e
      | payload n ↦ read_lines fuel (buf ++ (take 4 s ++ take n (drop 4 s))) (drop n (drop 4 s))
    ]
  ]

  -- Each round but the last reads four bytes or more.
  unfoldable pub read_ref_advertisement : Str → Result (Str × Str)
  unfolding read_lines
  read_ref_advertisement s = read_lines (suc (length s)) [] s
