-- ===== src/Auth/Jwk.antt =====
-- internal/auth/jwt.go: fetchJWKS and rsaPublicKeyFromJWK, with encoding/base64's RawURLEncoding. The
-- errors are not told apart: no caller reads their text. The HTTP requests are parameters.
pub mod Exponent
use git_proxy_go.Base.{
  ℕ, zero, suc, ◌+◌, ◌*◌, ◌-◌, ◌/◌, ◌%◌, ◌^◌, ◌==◌, leb, ltb, Bool, true, false, not, ◌&&◌, ◌||◌,
  Option, none, some, List, [], ◌∷◌, ◌++◌, Str, codes, is_empty, if◌then◌else◌, str_eq, length,
}
use mathlib.Core.List.{reverse}

-- `negsuc n` is -1 - n.
pub data ℤ : Type 0 where
  pos negsuc : ℕ → ℤ

-- The exponent is a Go int, of 64 bits.
pub record RsaKey : Type 0 where
  pub modulus : ℕ
  pub exponent : ℤ

-- The conversion `int(v)` of a uint64: from 2^63 on the value is negative.
unfoldable pub int_of_uint64 : ℕ → ℤ
int_of_uint64 v = if ltb v (2 ^ 63) then pos v else negsuc (2 ^ 64 - 1 - v)

-- What decoding yields. `panicked` stands for a slice out of range.
pub data Decoded {ℓ} (A : Type ℓ) : Type ℓ where
  decoded : A → Decoded A
  invalid panicked : Decoded A

-- The value of a letter of the URL alphabet.
unfoldable pub letter_value : ℕ → Option ℕ
letter_value c =
    if leb b'A' c && leb c b'Z'
    then some (c - b'A')
    else if leb b'a' c && leb c b'z'
    then some (c - b'a' + 26)
    else if leb b'0' c && leb c b'9'
    then some (c - b'0' + 52)
    else if c == b'-'
    then some 62
    else if c == b'_'
    then some 63
    else none

-- The values of a text's letters; line ends are skipped.
unfoldable pub letter_values : Str → Option (List ℕ)
unfolding letter_value
letter_values [] = some []
letter_values (c ∷ s) =
    let rest = letter_values s in
    if c == 10 || c == 13 then rest else elim (letter_value c) [
      | none ↦ none
      | some v ↦ elim rest [ none ↦ none | some vs ↦ some (v ∷ vs) ]
    ]

-- Four letters are three bytes; two or three letters may end the text.
unfoldable pub bytes_of : List ℕ → Option Str
bytes_of [] = some []
bytes_of (a ∷ []) = none
bytes_of (a ∷ b ∷ []) = some ((a * 4 + b / 16) ∷ [])
bytes_of (a ∷ b ∷ c ∷ []) = some ((a * 4 + b / 16) ∷ (b % 16 * 16 + c / 4) ∷ [])
bytes_of (a ∷ b ∷ c ∷ d ∷ vs) = elim (bytes_of vs) [
  | none ↦ none
  | some bytes ↦ some ((a * 4 + b / 16) ∷ (b % 16 * 16 + c / 4) ∷ (c % 4 * 64 + d) ∷ bytes)
]

values_bytes : Option (List ℕ) → Option Str
values_bytes none = none
values_bytes (some vs) = bytes_of vs

-- base64.RawURLEncoding.DecodeString
unfoldable pub decode_base64 : Str → Option Str
unfolding letter_values bytes_of values_bytes
decode_base64 s = values_bytes (letter_values s)

unfoldable pub big_endian : ℕ → Str → ℕ
big_endian n [] = n
big_endian n (b ∷ bytes) = big_endian (n * 256 + b) bytes

unfoldable pub zeros : ℕ → Str
zeros zero = []
zeros (suc n) = 0 ∷ zeros n

-- The exponent, padded on the left to the eight bytes of a uint64.
unfoldable pub padded_exponent : Str → Decoded ℤ
unfolding zeros big_endian int_of_uint64
padded_exponent bytes =
    if ltb 8 (length bytes)
    then panicked
    else decoded (int_of_uint64 (big_endian 0 (zeros (8 - length bytes) ++ bytes)))

with_modulus : ℕ → Decoded ℤ → Decoded RsaKey
with_modulus n (decoded e) = decoded (record { modulus = n; exponent = e })
with_modulus n invalid = invalid
with_modulus n panicked = panicked

unfoldable pub key_parts : Option Str → Option Str → Decoded RsaKey
unfolding padded_exponent with_modulus big_endian
key_parts (some modulus) (some exponent) =
    with_modulus (big_endian 0 modulus) (padded_exponent exponent)
key_parts _ _ = invalid

unfoldable pub rsa_public_key_from_jwk : Str → Str → Decoded RsaKey
unfolding decode_base64 key_parts
rsa_public_key_from_jwk n e = key_parts (decode_base64 n) (decode_base64 e)

-- A key of the document that the authority publishes.
pub record Jwk : Type 0 where
  pub kid : Str
  pub kty : Str
  pub n : Str
  pub e : Str

-- `keys[k.Kid] = pub`
unfoldable pub put_key : Str → RsaKey → List (Str × RsaKey) → List (Str × RsaKey)
put_key kid key [] = (kid, key) ∷ []
put_key kid key ((k, old) ∷ keys) =
    if str_eq k kid then (kid, key) ∷ keys else (k, old) ∷ put_key kid key keys

unfoldable pub find_key : Str → List (Str × RsaKey) → Option RsaKey
find_key kid [] = none
find_key kid ((k, key) ∷ keys) = if str_eq k kid then some key else find_key kid keys

collect : List (Str × RsaKey) → List Jwk → Decoded (List (Str × RsaKey))
collect keys [] = decoded keys
collect keys (k ∷ doc) = elim (not (str_eq k.kty (codes "RSA")) || is_empty k.kid) [
  | true ↦ collect keys doc
  | false ↦ elim (rsa_public_key_from_jwk k.n k.e) [
    | invalid ↦ invalid
    | panicked ↦ panicked
    | decoded key ↦ collect (put_key k.kid key keys) doc
  ]
]

unfoldable pub collect_keys : List Jwk → Decoded (List (Str × RsaKey))
unfolding collect
collect_keys doc = elim (collect [] doc) [
  | decoded [] ↦ invalid
  | decoded (k ∷ keys) ↦ decoded (k ∷ keys)
  | other ↦ other
]

trim_slashes : Str → Str
trim_slashes [] = []
trim_slashes (c ∷ s) = if c == b'/' then trim_slashes s else c ∷ s

-- `strings.TrimRight(s, "/")`
unfoldable pub trim_right_slashes : Str → Str
unfolding trim_slashes
trim_right_slashes s = reverse (trim_slashes (reverse s))

-- The two documents that are fetched by HTTP: `jwks_uri` of the discovery document, and the keys.
pub record Network : Type 0 where
  pub get_openid_config : Str → Option Str
  pub get_jwks : Str → Option (List Jwk)

document_keys : Option (List Jwk) → Decoded (List (Str × RsaKey))
document_keys none = invalid
document_keys (some doc) = collect_keys doc

unfoldable pub fetch_jwks : Network → Str → Decoded (List (Str × RsaKey))
unfolding trim_right_slashes collect_keys document_keys
fetch_jwks net authority =
    elim (net.get_openid_config
      (trim_right_slashes authority ++ codes "/.well-known/openid-configuration")) [
        | none ↦ invalid
        | some [] ↦ invalid
        | some (c ∷ uri) ↦ document_keys (net.get_jwks (c ∷ uri))
      ]
