-- ===== src/Auth/Jwk/Exponent.antt =====
-- The exponent of a key: its bytes as a number.
use git_proxy_go.Base.{
  ◌≡◌, refl, inl, inr, Bool, true, false, Bool-cases, ap, ◌∙◌, arith, ℕ, zero, suc, ◌-◌, ◌^◌, ltb,
  leb, some, ◌++◌, Str, length, if◌then◌else◌,
}
use git_proxy_go.Auth.Jwk.{
  decoded, panicked, decode_base64, big_endian, zeros, padded_exponent, ℤ, pos, negsuc,
  int_of_uint64, with_modulus, key_parts, rsa_public_key_from_jwk,
}

big_endian-zeros : (n : ℕ) (bytes : Str) → big_endian 0 (zeros n ++ bytes) ≡ big_endian 0 bytes
unfolding big_endian zeros
big_endian-zeros zero bytes = refl
big_endian-zeros (suc n) bytes = big_endian-zeros n bytes

padded_exponent_lem :
    (bytes : Str)
    → padded_exponent bytes
      ≡ (if leb (length bytes) 8 then decoded (int_of_uint64 (big_endian 0 bytes)) else panicked)
unfolding padded_exponent
padded_exponent_lem bytes = elim (Bool-cases (leb (length bytes) 8)) [
  | inl short ↦
      let fits : ltb 8 (length bytes) ≡ false = ground arith in
      rw (short, fits)
        (ap (λ v. decoded (int_of_uint64 v)) (big_endian-zeros (8 - length bytes) bytes))
  | inr long ↦ let over : ltb 8 (length bytes) ≡ true = ground arith in rw (long, over) refl
]

with_modulus_if :
    (n : ℕ) (e : ℤ) (b : Bool)
    → with_modulus n (if b then decoded e else panicked)
      ≡ (if b then decoded (record { modulus = n; exponent = e }) else panicked)
unfolding with_modulus
with_modulus_if n e true = refl
with_modulus_if n e false = refl

-- Where the modulus and the exponent of a key decode, the key has the modulus' value as a big-endian
-- number. If the exponent has at most eight bytes, the key's is its value v as such a number, for v
-- below 2^63, and otherwise v - 2^64, which is negative. A longer exponent makes the decoding panic.
pub rsa_public_key_from_jwk_exponent :
    (n e modulus exponent : Str)
    → decode_base64 n ≡ some modulus
    → decode_base64 e ≡ some exponent
    → rsa_public_key_from_jwk n e ≡ (
        if leb (length exponent) 8
        then decoded (record {
          modulus = big_endian 0 modulus;
          exponent =
              if ltb (big_endian 0 exponent) (2 ^ 63)
              then pos (big_endian 0 exponent)
              else negsuc (2 ^ 64 - 1 - big_endian 0 exponent);
        })
        else panicked)
unfolding rsa_public_key_from_jwk key_parts int_of_uint64
rsa_public_key_from_jwk_exponent n e modulus exponent p q =
    ap (λ m. key_parts m (decode_base64 e)) p
    ∙ ap (key_parts (some modulus)) q
    ∙ ap (with_modulus (big_endian 0 modulus)) (padded_exponent_lem exponent)
    ∙ with_modulus_if (big_endian 0 modulus) (int_of_uint64 (big_endian 0 exponent))
        (leb (length exponent) 8)
