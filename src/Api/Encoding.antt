-- ===== src/Api/Encoding.antt =====
-- `encodeURIComponent`, as frontend/src/api.ts uses it for the key of a check.
use tether_ddns.Prelude.{
  ℕ, ◌+◌, ◌-◌, ◌*◌, ◌/◌, ◌%◌, ◌<◌, ◌≡◌, ◌≢◌, refl, String, Str, codes, Bool, true, ◌&&◌, ◌||◌, List,
  [], ◌∷◌, ◌++◌, any, All, All-append, leb, ltb, nat_beq, if◌then◌else◌, arith, Bool-cases, inl,
  inr, ap, ◌∙◌,
}

-- The bytes of a code point in UTF-8.
abbrev pub utf_8 : ℕ → List ℕ
utf_8 c =
    if ltb c 0x80
    then c ∷ []
    else (if ltb c 0x800
        then (0xC0 + c / 64) ∷ (0x80 + c % 64) ∷ []
        else (if ltb c 0x10000
            then (0xE0 + c / 4096) ∷ (0x80 + c / 64 % 64) ∷ (0x80 + c % 64) ∷ []
            else (0xF0 + c / 262144)
              ∷ (0x80 + c / 4096 % 64)
              ∷ (0x80 + c / 64 % 64)
              ∷ (0x80 + c % 64)
              ∷ []))

abbrev pub is_between : ℕ → ℕ → ℕ → Bool
is_between lo hi b = leb lo b && leb b hi

-- Letters, digits, and - _ . ! ~ * ' ( )
unfoldable pub is_unreserved : ℕ → Bool
is_unreserved b =
    is_between b'A' b'Z' b
    || is_between b'a' b'z' b
    || is_between b'0' b'9' b
    || any (λ x. nat_beq x b) (codes "-_.!~*'()")

abbrev pub hex : ℕ → ℕ
hex n = if ltb n 10 then b'0' + n else b'A' + n - 10

unfoldable pub encode_byte : ℕ → Str
encode_byte b = if is_unreserved b then b ∷ [] else b'%' ∷ hex (b / 16) ∷ hex (b % 16) ∷ []

unfoldable pub encode_bytes : List ℕ → Str
encode_bytes [] = []
encode_bytes (b ∷ bs) = encode_byte b ++ encode_bytes bs

abbrev pub bytes_of : Str → List ℕ
bytes_of [] = []
bytes_of (c ∷ cs) = utf_8 c ++ bytes_of cs

unfoldable pub encode_uri_component : String → Str
encode_uri_component s = encode_bytes (bytes_of (codes s))

-- The value of a hexadecimal digit that `encode_byte` writes.
abbrev pub from_hex : ℕ → ℕ
from_hex d = if ltb d b'A' then d - b'0' else d + 10 - b'A'

-- What a server makes of a path segment: `%` and two digits are a byte.
abbrev pub decode : Str → List ℕ
decode [] = []
decode (c ∷ []) = c ∷ []
decode (c ∷ d ∷ []) = c ∷ d ∷ []
decode (c ∷ d ∷ e ∷ cs) =
    let escaped = decode cs in
    let plain = decode (d ∷ e ∷ cs) in
    if nat_beq c b'%' then (from_hex d * 16 + from_hex e) ∷ escaped else c ∷ plain

-- A character that ends or splits a path segment, or starts an escape.
abbrev pub IsPlain : ℕ → Type 0
IsPlain c = (c ≢ b'/') × (c ≢ b'?') × (c ≢ b'#')

decode-plain : (b : ℕ) (cs : Str) → is_unreserved b ≡ true → decode (b ∷ cs) ≡ b ∷ decode cs
unfolding is_unreserved
decode-plain b [] h = refl
decode-plain b (c ∷ []) h = refl
decode-plain b (c ∷ d ∷ cs) h = ground arith

hex_back : (n : ℕ) → n < 16 → from_hex (hex n) ≡ n
hex_back n h = ground arith

decode-escaped :
    (b : ℕ) (cs : Str) → b < 256 → decode (b'%' ∷ hex (b / 16) ∷ hex (b % 16) ∷ cs) ≡ b ∷ decode cs
decode-escaped b cs h =
    ap (λ x. x ∷ decode cs)
      (omega (arith, hex_back (b / 16) (omega arith), hex_back (b % 16) (omega arith)))

decode-encode_byte : (b : ℕ) (cs : Str) → b < 256 → decode (encode_byte b ++ cs) ≡ b ∷ decode cs
unfolding encode_byte
decode-encode_byte b cs h = elim (Bool-cases (is_unreserved b)) [
  | inl same ↦ rw same (decode-plain b cs same)
  | inr other ↦ rw other (decode-escaped b cs h)
]

-- A server that decodes the segment gets back the bytes that were encoded.
pub decode-encode_bytes : (bs : List ℕ) → All (λ b. b < 256) bs → decode (encode_bytes bs) ≡ bs
unfolding encode_bytes
decode-encode_bytes [] h = refl
decode-encode_bytes (b ∷ bs) (small, h) =
    decode-encode_byte b (encode_bytes bs) small ∙ ap (λ x. b ∷ x) (decode-encode_bytes bs h)

encode_byte-IsPlain : (b : ℕ) → b < 256 → All IsPlain (encode_byte b)
unfolding encode_byte is_unreserved
encode_byte-IsPlain b h = ground arith

pub encode_bytes-IsPlain : (bs : List ℕ) → All (λ b. b < 256) bs → All IsPlain (encode_bytes bs)
unfolding encode_bytes
encode_bytes-IsPlain [] h = tt
encode_bytes-IsPlain (b ∷ bs) (small, h) =
    All-append IsPlain (encode_byte b) (encode_bytes bs) (encode_byte-IsPlain b small)
      (encode_bytes-IsPlain bs h)

utf_8-small : (c : ℕ) → c < 0x110000 → All (λ b. b < 256) (utf_8 c)
utf_8-small c h = ground arith

pub bytes_of-small : (s : Str) → All (λ c. c < 0x110000) s → All (λ b. b < 256) (bytes_of s)
bytes_of-small [] h = tt
bytes_of-small (c ∷ cs) (small, h) =
    All-append (λ b. b < 256) (utf_8 c) (bytes_of cs) (utf_8-small c small) (bytes_of-small cs h)
