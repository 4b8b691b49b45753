-- ===== src/Pack/Objects.antt =====
-- The pack header and the packed objects (getPackMeta, parseGitObjectHeader, parseOfsDeltaOffset,
-- gitObjectType, inflateCapped, decompressGitObjects). Inflation is Go's compress/zlib, a parameter.
use mathlib.Core.Option
use git_proxy_go.Base.{
  ℕ, zero, suc, ◌+◌, ◌*◌, ◌/◌, ◌%◌, ◌^◌, Bool, true, false, Option, none, some, List, [], ◌∷◌, ◌++◌,
  Str, codes, ltb, leb, ◌==◌, if◌then◌else◌, length, take, drop, Result, ok, err, ◌>>=◌,
}

abbrev pub max_object_size : ℕ
max_object_size = 2 ^ 28

pub record PackMeta : Type 0 where
  pub sig : Str
  pub version : ℕ
  pub entries : ℕ

-- `binary.BigEndian.Uint32`.
big_endian : ℕ → Str → ℕ
big_endian n [] = n
big_endian n (b ∷ s) = big_endian (n * 256 + b) s

unfoldable pub get_pack_meta : Str → Result (PackMeta × Str)
unfolding big_endian
get_pack_meta buf =
    if ltb (length buf) 12
    then err (codes "PACK header truncated")
    else ok (
      record {
        sig = take 4 buf;
        version = big_endian 0 (take 4 (drop 4 buf));
        entries = big_endian 0 (take 4 (drop 8 buf));
      },
      drop 12 buf,
    )

pub data ObjectType : Type 0 where
  commit tree blob tag ofs_delta ref_delta unknown : ObjectType

-- The type names are a closed set in the source, kept here as an enumeration.
unfoldable pub git_object_type : ℕ → ObjectType
git_object_type code =
    if code == 1
    then commit
    else if code == 2
    then tree
    else if code == 3
    then blob
    else if code == 4
    then tag
    else if code == 6
    then ofs_delta
    else if code == 7
    then ref_delta
    else unknown

pub record GitObject : Type 0 where
  pub type_name : ObjectType
  pub content : Str

pub record GitObjectHeader : Type 0 where
  pub type_name : ObjectType
  pub header_length : ℕ

-- The rounds of the size loop: `b` is the last byte read and `rest` what follows it. A byte has
-- its eighth bit set exactly when it is 128 or more.
unfoldable pub skip_size : ℕ → Str → Option ℕ
skip_size b [] = if leb 128 b then none else some 0
skip_size b (c ∷ rest) =
    let more = Option.map suc (skip_size c rest) in if leb 128 b then more else some 0

-- The rounds of the offset loop; a Go `int` has 64 bits, and `|` adds to the zero bits of a shift.
unfoldable pub ofs_from : ℕ → ℕ → ℕ → Str → Option (ℕ × ℕ)
ofs_from value i b [] = if leb 128 b then none else some (value, i + 1)
ofs_from value i b (c ∷ rest) =
    let more = ofs_from (((value + 1) * 128 + c % 128) % 2 ^ 64) (i + 1) c rest in
    if leb 128 b then more else some (value, i + 1)

-- The value and the number of bytes read, from `buf[offset:]`.
unfoldable pub parse_ofs_delta_offset : Str → Result (ℕ × ℕ)
unfolding ofs_from
parse_ofs_delta_offset [] = err (codes "ofs-delta offset truncated")
parse_ofs_delta_offset (b ∷ rest) = elim (ofs_from (b % 128) 0 b rest) [
  | none ↦ err (codes "ofs-delta offset truncated")
  | some p ↦ ok p
]

-- The bytes of the base reference behind the size; `rest` is what follows the size.
unfoldable pub base_length : ObjectType → Str → Result ℕ
base_length ofs_delta rest = parse_ofs_delta_offset rest >>= λ p. ok p.1
base_length ref_delta rest =
    if ltb (length rest) 20 then err (codes "ref-delta base sha truncated") else ok 20
base_length _ rest = ok 0

-- From `buf[offset:]`.
unfoldable pub parse_git_object_header : Str → Result GitObjectHeader
unfolding git_object_type skip_size base_length
parse_git_object_header [] = err (codes "object header truncated")
parse_git_object_header (b ∷ rest) = elim (skip_size b rest) [
  | none ↦ err (codes "object size header truncated")
  | some n ↦
      let t = git_object_type (b / 16 % 8) in
      base_length t (drop n rest) >>= λ m. ok (record { type_name = t; header_length = 1 + n + m })
]

-- What the zlib reader yields: the inflated bytes up to its end or its failure, the compressed
-- bytes that it read, and what closing it reports.
pub record Stream : Type 0 where
  pub content : Str
  pub failure : Option Str
  pub consumed : ℕ
  pub close_failure : Option Str

-- The copy stops one byte behind the limit, so a failure further on is not seen.
unfoldable pub inflate_capped : Stream → Bool → Result Str
inflate_capped z keep =
    if ltb max_object_size (length z.content)
    then err (codes "pack object exceeds size limit")
    else elim z.failure [
      | some e ↦ err (codes "inflating pack object: " ++ e)
      | none ↦ ok (if keep then z.content else [])
    ]

abbrev pub is_commit : ObjectType → Bool
is_commit commit = true
is_commit _ = false

unfoldable pub closed : Option Str → Result (Unit {0})
closed none = ok tt
closed (some e) = err (codes "closing zlib stream: " ++ e)

module _ (zlib : Str → Result Stream) where
  -- One round of the loop: the object at `offset` and the next offset.
  unfoldable pub next_object : Str → ℕ → Result (GitObject × ℕ)
  unfolding inflate_capped closed parse_git_object_header
  next_object buf offset = do
    hdr ← parse_git_object_header (drop offset buf)
    let start = offset + hdr.header_length
    if ltb (length buf) start then err (codes "object header overruns buffer") else do
      z ← elim (zlib (drop start buf)) [
        | err e ↦ err (codes "opening zlib stream: " ++ e)
        | ok s ↦ ok s
      ]
      text ← inflate_capped z (is_commit hdr.type_name)
      _ ← closed z.close_failure
      if z.consumed == 0
          then err (codes "no progress decoding pack object")
          else ok (record { type_name = hdr.type_name; content = text }, start + z.consumed)

  -- `for i < entries`, with the break at the end of the buffer.
  unfoldable pub decompress : ℕ → Str → ℕ → Result (List GitObject)
  unfolding next_object
  decompress zero buf offset = ok []
  decompress (suc n) buf offset = elim (ltb offset (length buf)) [
    | false ↦ ok []
    | true ↦ next_object buf offset >>= λ p. decompress n buf p.1 >>= λ objects. ok (p.0 ∷ objects)
  ]

  unfoldable pub decompress_git_objects : Str → ℕ → Result (List GitObject)
  unfolding decompress
  decompress_git_objects buf entries = decompress entries buf 0
