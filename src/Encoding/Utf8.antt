-- ===== src/Encoding/Utf8.antt =====
-- shared/encoding.ts: `encodeText` and `utf8`, with the platform's `TextEncoder` and fatal
-- `TextDecoder` over UTF-16 code units and bytes.
use erase_to.Prelude.{
  ℕ, ◌+◌, ◌-◌, ◌*◌, ◌/◌, ◌%◌, ◌≡◌, refl, Bool, true, false, ◌&&◌, ◌||◌, Option, none, some, [], ◌∷◌,
  ◌++◌, ltb, leb, ◌==◌, if◌then◌else◌, list_eq,
}
use erase_to.Types.{Text, Bytes, Result, ok, err, invalid_package, ◌>>=◌}

abbrev pub is_high : ℕ → Bool
is_high c = leb 0xd800 c && leb c 0xdbff

abbrev pub is_low : ℕ → Bool
is_low c = leb 0xdc00 c && leb c 0xdfff

-- The bytes of one code unit; a surrogate without its partner becomes U+FFFD.
unfoldable pub encode_unit : ℕ → Bytes
encode_unit c =
    if ltb c 0x80
    then c ∷ []
    else if ltb c 0x800
    then (0xc0 + c / 64) ∷ (0x80 + c % 64) ∷ []
    else if is_high c || is_low c
    then 0xef ∷ 0xbf ∷ 0xbd ∷ []
    else (0xe0 + c / 4096) ∷ (0x80 + c / 64 % 64) ∷ (0x80 + c % 64) ∷ []

abbrev pub code_point : ℕ → ℕ → ℕ
code_point high low = 0x10000 + (high - 0xd800) * 1024 + (low - 0xdc00)

abbrev four_bytes : ℕ → Bytes
four_bytes p =
    (0xf0 + p / 262144) ∷ (0x80 + p / 4096 % 64) ∷ (0x80 + p / 64 % 64) ∷ (0x80 + p % 64) ∷ []

unfoldable pub encode_pair : ℕ → ℕ → Bytes
encode_pair high low = four_bytes (code_point high low)

-- `encoder.encode(value)`.
unfoldable pub encode : Text → Bytes
unfolding encode_unit encode_pair
encode [] = []
encode (c ∷ []) = encode_unit c
encode (c ∷ d ∷ s) = elim (is_high c && is_low d) [
  | true ↦ encode_pair c d ++ encode s
  | false ↦ encode_unit c ++ encode (d ∷ s)
]

-- The decoder's state between two bytes: the bytes still needed of a character, the bits read, and
-- the bounds of the next byte.
pub record Decoder : Type 0 where
  pub needed : ℕ
  pub point : ℕ
  pub lower : ℕ
  pub upper : ℕ

abbrev pub start : Decoder
start = record { needed = 0; point = 0; lower = 0x80; upper = 0xbf }

abbrev units_of : ℕ → Text
units_of p =
    if ltb p 0x10000
    then p ∷ []
    else (0xd800 + (p - 0x10000) / 1024) ∷ (0xdc00 + (p - 0x10000) % 1024) ∷ []

-- The first byte of a character: `none` is an error, else what is emitted and the next state.
unfoldable pub first_byte : ℕ → Option (Text × Decoder)
first_byte b =
    if ltb b 0x80
    then some (b ∷ [], start)
    else if ltb b 0xc2
    then none
    else if ltb b 0xe0
    then some ([], record { needed = 1; point = b - 0xc0; lower = 0x80; upper = 0xbf })
    else if ltb b 0xf0
    then some (
      [],
      record {
        needed = 2;
        point = b - 0xe0;
        lower = if b == 0xe0 then 0xa0 else 0x80;
        upper = if b == 0xed then 0x9f else 0xbf;
      },
    )
    else if ltb b 0xf5
    then some (
      [],
      record {
        needed = 3;
        point = b - 0xf0;
        lower = if b == 0xf0 then 0x90 else 0x80;
        upper = if b == 0xf4 then 0x8f else 0xbf;
      },
    )
    else none

-- A later byte of a character.
unfoldable pub next_byte : Decoder → ℕ → Option (Text × Decoder)
next_byte d b =
    if ltb b d.lower || ltb d.upper b
    then none
    else let p = d.point * 64 + (b - 0x80) in
      if d.needed == 1
      then some (units_of p, start)
      else some ([], record { needed = d.needed - 1; point = p; lower = 0x80; upper = 0xbf })

unfoldable pub decode_byte : Decoder → ℕ → Option (Text × Decoder)
unfolding first_byte next_byte
decode_byte d b = if d.needed == 0 then first_byte b else next_byte d b

unfoldable pub decode_from : Decoder → Bytes → Option Text
unfolding decode_byte
decode_from d [] = if d.needed == 0 then some [] else none
decode_from d (b ∷ bs) = elim (decode_byte d b) [
  | none ↦ none
  | some (out, d') ↦ elim (decode_from d' bs) [ none ↦ none | some s ↦ some (out ++ s) ]
]

-- `utf8(bytes)`.
unfoldable pub utf8 : Bytes → Result Text
unfolding decode_from
utf8 bytes = elim (decode_from start bytes) [ none ↦ err invalid_package | some s ↦ ok s ]

-- `encodeText(value)`: the encoding must decode to the same text.
unfoldable pub encode_text : Text → Result Bytes
unfolding encode utf8
encode_text value = do
  back ← utf8 (encode value)
  if list_eq back value then ok (encode value) else err invalid_package

test_encode :
    encode_text (0x61 ∷ 0xe9 ∷ 0x20ac ∷ 0xd83d ∷ 0xde00 ∷ [])
    ≡ ok (0x61 ∷ 0xc3 ∷ 0xa9 ∷ 0xe2 ∷ 0x82 ∷ 0xac ∷ 0xf0 ∷ 0x9f ∷ 0x98 ∷ 0x80 ∷ [])
unfolding encode_text
test_encode = refl

test_lone : encode_text (0xd800 ∷ 0x61 ∷ []) ≡ err invalid_package
unfolding encode_text
test_lone = refl
