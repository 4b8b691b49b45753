-- ===== src/Pack/Bounds.antt =====
-- Bounds of the pack parser: what an object's header and its content take up.
use git_proxy_go.Base.{
  ◌≡◌, ℕ, ◌+◌, ◌≤◌, ◌<◌, ◌^◌, ◌/◌, ◌%◌, ◌*◌, some, [], ◌∷◌, Str, arith, length, drop, length-drop,
  leb, ok, ◌>>=◌, >>=-eq-ok, Option-cases, Bool-cases, inl, inr,
}
use git_proxy_go.Pack.Objects.{
  skip_size, ofs_from, parse_ofs_delta_offset, base_length, parse_git_object_header,
  git_object_type, GitObjectHeader, ObjectType, ofs_delta, ref_delta,
}

skip_size_bound : (b : ℕ) (rest : Str) (n : ℕ) → skip_size b rest ≡ some n → n ≤ length rest
unfolding skip_size
skip_size_bound b [] n h = ground (arith, h)
skip_size_bound b (c ∷ rest) n h = elim (Option-cases (skip_size c rest)) [
  | inl short ↦ ground (arith, h, short)
  | inr (m, more) ↦ ground (arith, h, more, skip_size_bound c rest m more)
]

ofs_from_bound :
    (value i b : ℕ) (rest : Str) (v n : ℕ)
    → value < 2 ^ 64
    → ofs_from value i b rest ≡ some (v, n)
    → (v < 2 ^ 64) × (n ≤ i + 1 + length rest) × (1 ≤ n)
unfolding ofs_from
ofs_from_bound value i b [] v n small h = ground (arith, h, small)
ofs_from_bound value i b (c ∷ rest) v n small h = elim (Bool-cases (leb 128 b)) [
  | inr last ↦ ground (arith, h, small, last)
  | inl more ↦
      let deeper : ofs_from (((value + 1) * 128 + c % 128) % 2 ^ 64) (i + 1) c rest ≡ some (v, n) =
        ground (arith, h, more) in
      let (below, fits, some_bytes) =
        ofs_from_bound (((value + 1) * 128 + c % 128) % 2 ^ 64) (i + 1) c rest v n (omega arith)
          deeper in
      (below, omega (arith, fits), some_bytes)
]

parse_ofs_delta_offset_bound :
    (buf : Str) (v n : ℕ)
    → parse_ofs_delta_offset buf ≡ ok (v, n)
    → (v < 2 ^ 64) × (1 ≤ n) × (n ≤ length buf)
unfolding parse_ofs_delta_offset
parse_ofs_delta_offset_bound [] v n h = ground (arith, h)
parse_ofs_delta_offset_bound (b ∷ rest) v n h =
    let found : ofs_from (b % 128) 0 b rest ≡ some (v, n) = ground (arith, h) in
    let (below, fits, some_bytes) = ofs_from_bound (b % 128) 0 b rest v n (omega arith) found in
    (below, some_bytes, omega (arith, fits))

base_length_bound :
    (t : ObjectType) (rest : Str) (n : ℕ) → base_length t rest ≡ ok n → n ≤ length rest
unfolding base_length
base_length_bound ofs_delta rest n h =
    let ((v, m), read, same) = >>=-eq-ok (parse_ofs_delta_offset rest) _ h in
    let (_, _, fits) = parse_ofs_delta_offset_bound rest v m read in ground (arith, same, fits)
base_length_bound ref_delta rest n h = ground (arith, h)
base_length_bound ObjectType.commit rest n h = ground (arith, h)
base_length_bound ObjectType.tree rest n h = ground (arith, h)
base_length_bound ObjectType.blob rest n h = ground (arith, h)
base_length_bound ObjectType.tag rest n h = ground (arith, h)
base_length_bound ObjectType.unknown rest n h = ground (arith, h)

-- An object header that parses takes up at least one byte and no more than the buffer holds.
pub parse_git_object_header_bounds :
    (buf : Str) (hdr : GitObjectHeader)
    → parse_git_object_header buf ≡ ok hdr
    → (1 ≤ hdr.header_length) × (hdr.header_length ≤ length buf)
unfolding parse_git_object_header
parse_git_object_header_bounds [] hdr h = ground (arith, h)
parse_git_object_header_bounds (b ∷ rest) hdr h = elim (Option-cases (skip_size b rest)) [
  | inl short ↦ ground (arith, h, short)
  | inr (n, size) ↦
      let t = git_object_type (b / 16 % 8) in
      let rest_of : (base_length t (drop n rest) >>= λ m.
      ok (record { type_name = t; header_length = 1 + n + m }))
          ≡ ok hdr =
        ground (arith, h, size) in
      let (m, based, same) = >>=-eq-ok (base_length t (drop n rest)) _ rest_of in
      ground (
        arith,
        same,
        skip_size_bound b rest n size,
        base_length_bound t (drop n rest) m based,
        length-drop n rest,
      )
]
