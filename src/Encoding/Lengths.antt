-- ===== src/Encoding/Lengths.antt =====
-- shared/encoding.ts: successful calls of `encodeText`, and the lengths of encodings.
use erase_to.Prelude.{
  ℕ, ◌≤◌, ◌≡◌, inl, inr, refl, ap, ◌∙◌, true, [], ◌∷◌, arith, ltb, Bool-cases, list_eq, list_eq→eq,
  length, all, length-append,
}
use erase_to.Types.{Text, Bytes, ok, err, invalid_package, >>=-eq-ok}
use erase_to.Encoding.Utf8.{encode, encode_unit, encode_pair, utf8, encode_text}

-- `encodeText` returns the encoding of its text, and the decoder gives the text back.
pub encode_text-eq-ok :
    (s : Text) {b : Bytes} → encode_text s ≡ ok b → (b ≡ encode s) × (utf8 b ≡ ok s)
unfolding encode_text
encode_text-eq-ok s {b} e =
    let (back, decoded, rest) = >>=-eq-ok (utf8 (encode s)) _ e in
    elim (Bool-cases (list_eq back s)) [
      | inl same ↦
          let e1 : ok (encode s) ≡ ok b = rw same at rest in
          let e2 : b ≡ encode s = cc in
          let e3 : back ≡ s = list_eq→eq back s same in (e2, rw e2 (decoded ∙ ap ok e3))
      | inr other ↦ let e1 : err invalid_package ≡ ok b = rw other at rest in absurd (cc)
    ]

one-le-length-encode_unit : (c : ℕ) → 1 ≤ length (encode_unit c)
unfolding encode_unit
one-le-length-encode_unit c = ground arith

four-le-length-encode_pair : (c d : ℕ) → 4 ≤ length (encode_pair c d)
unfolding encode_pair
four-le-length-encode_pair c d = omega arith

-- An encoding has a byte for each code unit at least.
pub length-le-length-encode : (s : Text) → length s ≤ length (encode s)
unfolding encode
length-le-length-encode [] = omega arith
length-le-length-encode (c ∷ []) = omega (arith, one-le-length-encode_unit c)
length-le-length-encode (c ∷ d ∷ s) = ground (
  arith,
  length-append (encode_pair c d) (encode s),
  four-le-length-encode_pair c d,
  length-le-length-encode s,
  length-append (encode_unit c) (encode (d ∷ s)),
  one-le-length-encode_unit c,
  length-le-length-encode (d ∷ s),
)

-- An ASCII text has a byte for each code unit.
pub encode-ascii : (s : Text) → all (λ c. ltb c 0x80) s ≡ true → encode s ≡ s
unfolding encode encode_unit
encode-ascii [] h = refl
encode-ascii (c ∷ []) h = ground arith
encode-ascii (c ∷ d ∷ s) h = ground (arith, encode-ascii (d ∷ s))
