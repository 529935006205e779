-- ===== src/Encoding/Ascii.antt =====
-- shared/encoding.ts: ASCII texts through `TextEncoder` and the fatal `TextDecoder`.
use erase_to.Prelude.{
  ℕ, zero, suc, ◌+◌, ◌*◌, ◌/◌, ◌%◌, ◌≤◌, ◌<◌, ◌≡◌, inl, inr, refl, sym, ap, ◌∙◌, Bool, true, Option,
  some, [], ◌∷◌, ◌++◌, arith, ltb, lt→ltb, and-eq-true, Bool-cases, length, all, length-append,
}
use erase_to.Types.{Text, Bytes, ok}
use erase_to.Digits.{decimal, decimal_digits}
use erase_to.Encoding.Utf8.{encode, utf8, decode_from, decode_byte, first_byte, start}
use erase_to.Encoding.Lengths.{encode-ascii}
use erase_to.Encoding.Base64Url.{is_url_char}
use erase_to.Encoding.Base64RoundTrip.{Encodes, length-encoding}
use erase_to.Encoding.Base64Laws.{digits_of, to_base64url_lem, all-is_url_char, digits_of-lt}

abbrev pub IsAscii : Text → Type 0
IsAscii s = all (λ c. ltb c 0x80) s ≡ true

pub all-append :
    (p : ℕ → Bool) (xs ys : Text) → all p xs ≡ true → all p ys ≡ true → all p (xs ++ ys) ≡ true
all-append p [] ys h k = k
all-append p (x ∷ xs) ys h k =
    let (first, rest) = and-eq-true (p x) (all p xs) h in rw (first) (all-append p xs ys rest k)

pub all_mono :
    (p q : ℕ → Bool) (xs : Text)
    → ((c : ℕ) → p c ≡ true → q c ≡ true)
    → all p xs ≡ true
    → all q xs ≡ true
all_mono p q [] f h = refl
all_mono p q (x ∷ xs) f h =
    let (first, rest) = and-eq-true (p x) (all p xs) h in rw (f x first) (all_mono p q xs f rest)

decode_byte-ascii : (c : ℕ) → ltb c 0x80 ≡ true → decode_byte start c ≡ some (c ∷ [], start)
unfolding decode_byte first_byte
decode_byte-ascii c h = rw h

decode_from-ascii : (s : Text) → IsAscii s → decode_from start s ≡ some s
unfolding decode_from
decode_from-ascii [] h = refl
decode_from-ascii (c ∷ s) h =
    let (first, rest) = and-eq-true (ltb c 0x80) (all (λ d. ltb d 0x80) s) h in
    rw (decode_byte-ascii c first, decode_from) (rw (decode_from-ascii s rest, decode_from) refl)

pub utf8-encode-ascii : (s : Text) → IsAscii s → utf8 (encode s) ≡ ok s
unfolding utf8
utf8-encode-ascii s h = rw (encode-ascii s h) (rw (decode_from-ascii s h, utf8) refl)

url_char_ascii : (c : ℕ) → is_url_char c ≡ true → ltb c 0x80 ≡ true
url_char_ascii c h = ground arith

pub url-IsAscii : (s : Text) → all is_url_char s ≡ true → IsAscii s
url-IsAscii s h = all_mono is_url_char (λ c. ltb c 0x80) s url_char_ascii h

-- A text that `fromBase64Url` accepts consists of characters of the alphabet.
pub Encodes-url :
    (value : Text) (expected : Option ℕ) (m : ℕ) (bytes : Bytes)
    → Encodes value expected m bytes
    → all is_url_char value ≡ true
Encodes-url value expected m bytes e =
    ap (all is_url_char) (sym e.encoding ∙ to_base64url_lem bytes)
    ∙ all-is_url_char (digits_of bytes) (digits_of-lt bytes e.are_bytes)

pub length-Encodes :
    (value : Text) (expected : Option ℕ) (m : ℕ) (bytes : Bytes)
    → Encodes value expected m bytes
    → length value ≡ (length bytes * 4 + 2) / 3
length-Encodes value expected m bytes e =
    ap length (sym e.encoding ∙ to_base64url_lem bytes) ∙ length-encoding bytes

decimal_digits-IsAscii : (fuel n : ℕ) → IsAscii (decimal_digits fuel n)
unfolding decimal_digits
decimal_digits-IsAscii zero n = refl
decimal_digits-IsAscii (suc fuel) n = elim (Bool-cases (ltb n 10)) [
  | inl small ↦ rw small (ground arith)
  | inr large ↦ rw large (
      all-append (λ c. ltb c 0x80) (decimal_digits fuel (n / 10)) _
        (decimal_digits-IsAscii fuel (n / 10)) (ground arith))
]

pub decimal-IsAscii : (n : ℕ) → IsAscii (decimal n)
unfolding decimal
decimal-IsAscii n = decimal_digits-IsAscii (n + 1) n

tenth : (n p : ℕ) → n < p * 10 → n / 10 < p
tenth n p h = omega arith

-- Ten to the power of one more.
abbrev pub ten_to : ℕ → ℕ
ten_to zero = 10
ten_to (suc k) = ten_to k * 10

-- A number below a power of ten has as many digits as its exponent at most.
length-decimal_digits : (fuel k n : ℕ) → n < ten_to k → length (decimal_digits fuel n) ≤ k + 1
unfolding decimal_digits
length-decimal_digits zero k n h = omega arith
length-decimal_digits (suc fuel) zero n h =
    let small : ltb n 10 ≡ true = lt→ltb n 10 (omega (arith, h)) in rw small (omega arith)
length-decimal_digits (suc fuel) (suc k) n h = elim (Bool-cases (ltb n 10)) [
  | inl small ↦ rw small (omega arith)
  | inr large ↦
      let less : n / 10 < ten_to k = tenth n (ten_to k) h in
      rw large (
        omega (
          arith,
          length-append (decimal_digits fuel (n / 10)) ((b'0' + n % 10) ∷ []),
          length-decimal_digits fuel k (n / 10) less,
        ))
]

pub length-decimal : (k n : ℕ) → n < ten_to k → length (decimal n) ≤ k + 1
unfolding decimal
length-decimal k n h = length-decimal_digits (n + 1) k n h
