-- ===== src/Encoding/Base64RoundTrip.antt =====
-- shared/encoding.ts: the successful calls of `fromBase64Url`.
use erase_to.Prelude.{
  ℕ, zero, suc, ◌+◌, ◌-◌, ◌*◌, ◌/◌, ◌%◌, ◌≤◌, ◌<◌, ◌≡◌, ◌≢◌, ◌↔◌, inl, inr, refl, sym, ap, ◌∙◌,
  true, false, not, ◌||◌, Option, none, some, List, [], ◌∷◌, ◌++◌, map, append_assoc, append-nil,
  arith, ltb, ◌==◌, ge→ltb, ltb→ge, or-eq-false, not-eq-false, Option-cases, if◌then◌else◌, list_eq,
  list_eq_self, list_eq→eq, length, all, All, replicate, length-map, length-append,
}
use erase_to.Types.{Text, Bytes, ok, invalid_package, refuse_if-eq-ok}
use erase_to.Encoding.Base64Url.{
  to_base64url, sextet_of, join_sextets, sextets_of, strip_one, atob, is_url_char, is_url_text,
  misses, from_base64url, check_decoded,
}
use erase_to.Encoding.Base64Laws.{
  IsByte, url_char, digits_of, from_url, no_equals, to_base64url_lem, sextets_of-from_url,
  all-is_url_char, digits_of-lt, length-digits_of, join_sextets-digits_of, strip_one_none,
  strip_one_last, no_equals-from_url, length-from_url,
}

-- `value` is the encoding of `bytes`, and their number is 1 to `max`, and the expected one.
pub record Encodes (value : Text) (expected : Option ℕ) (max_bytes : ℕ) (bytes : Bytes)
    : Type 0 where
  pub encoding : to_base64url bytes ≡ value
  pub are_bytes : All IsByte bytes
  pub not_empty : 1 ≤ length bytes
  pub fits : length bytes ≤ max_bytes
  pub expected_length : misses expected (length bytes) ≡ false

-- The padding that `fromBase64Url` adds is what `atob` takes away again.
stripped_lem :
    (s : Text) (r : ℕ)
    → no_equals s ≡ true
    → length s % 4 ≡ r
    → r ≢ 1
    → r < 4
    → (if length (s ++ replicate ((4 - r) % 4) b'=') % 4 == 0
        then strip_one (strip_one (s ++ replicate ((4 - r) % 4) b'='))
        else s ++ replicate ((4 - r) % 4) b'=')
      ≡ s
stripped_lem s zero plain e h lt =
    rw (append-nil s, e, strip_one_none s plain, strip_one_none s plain)
stripped_lem s (suc zero) plain e h lt = absurd (h refl)
stripped_lem s (suc (suc zero)) plain e h lt =
    let two : length (s ++ b'=' ∷ b'=' ∷ []) % 4 ≡ 0 =
      omega (arith, length-append s (b'=' ∷ b'=' ∷ [])) in
    rw (
      two,
      ← append_assoc s (b'=' ∷ []) (b'=' ∷ []),
      strip_one_last (s ++ b'=' ∷ []),
      strip_one_last s,
    )
stripped_lem s (suc (suc (suc zero))) plain e h lt =
    let one : length (s ++ b'=' ∷ []) % 4 ≡ 0 = omega (arith, length-append s (b'=' ∷ [])) in
    rw (one, strip_one_last s, strip_one_none s plain)
stripped_lem s (suc (suc (suc (suc r)))) plain e h lt = absurd (omega arith)

pub atob_lem :
    (value : Text)
    → all is_url_char value ≡ true
    → length value % 4 ≢ 1
    → atob (from_url value ++ replicate ((4 - length value % 4) % 4) b'=')
      ≡ elim (sextets_of (from_url value)) [ none ↦ none | some ds ↦ join_sextets ds ]
unfolding atob
atob_lem value url h =
    rw
      (stripped_lem (from_url value) (length value % 4) (no_equals-from_url value url)
        (ap (λ (n : ℕ). n % 4) (length-from_url value)) h (omega arith))
      (ground arith)

is_url_text_lem : (s : Text) → 1 ≤ length s → all is_url_char s ≡ true → is_url_text s ≡ true
is_url_text_lem [] h e = absurd (omega arith)
is_url_text_lem (c ∷ s) h e = e

is_url_text-all : (s : Text) → is_url_text s ≡ true → (1 ≤ length s) × (all is_url_char s ≡ true)
is_url_text-all [] h = absurd (cc)
is_url_text-all (c ∷ s) h = (omega arith, h)

pub length-encoding :
    (bytes : Bytes) → length (map url_char (digits_of bytes)) ≡ (length bytes * 4 + 2) / 3
length-encoding bytes = length-map (digits_of bytes) url_char ∙ length-digits_of bytes

accepts_encoding :
    (expected : Option ℕ) (max_bytes : ℕ) (bytes : Bytes)
    → All IsByte bytes
    → 1 ≤ length bytes
    → length bytes ≤ max_bytes
    → misses expected (length bytes) ≡ false
    → from_base64url (map url_char (digits_of bytes)) expected max_bytes ≡ ok bytes
unfolding from_base64url check_decoded
accepts_encoding expected max_bytes bytes are_bytes not_empty fits expected_length =
    let value = map url_char (digits_of bytes) in
    let small = digits_of-lt bytes are_bytes in
    let size = length-encoding bytes in
    let url = all-is_url_char (digits_of bytes) small in
    let rest : length value % 4 ≢ 1 = omega (arith, size) in
    let rest_false : (length value % 4 == 1) ≡ false = ground (arith, rest) in
    rw (
      is_url_text_lem value (omega (arith, size)) url,
      ge→ltb ((max_bytes * 4 + 2) / 3) (length value) (omega (arith, size)),
      rest_false,
      atob_lem value url rest,
      sextets_of-from_url (digits_of bytes) small,
      join_sextets-digits_of bytes are_bytes,
      ge→ltb max_bytes (length bytes) fits,
      expected_length,
      to_base64url_lem bytes,
      list_eq_self value,
    )

accepts :
    (value : Text) (expected : Option ℕ) (max_bytes : ℕ) (bytes : Bytes)
    → Encodes value expected max_bytes bytes
    → from_base64url value expected max_bytes ≡ ok bytes
accepts value expected max_bytes bytes e =
    let same : map url_char (digits_of bytes) ≡ value = sym (to_base64url_lem bytes) ∙ e.encoding in
    rw (← same)
      (accepts_encoding expected max_bytes bytes e.are_bytes e.not_empty e.fits e.expected_length)

sextet_of-lt : (c n : ℕ) → sextet_of c ≡ some n → n < 64
unfolding sextet_of
sextet_of-lt c n h = ground arith

sextets_of-lt : (s : Text) (ns : List ℕ) → sextets_of s ≡ some ns → All (λ n. n < 64) ns
unfolding sextets_of
sextets_of-lt [] [] h = tt
sextets_of-lt [] (n ∷ ns) h = absurd (cc)
sextets_of-lt (c ∷ s) ns h = elim (Option-cases (sextet_of c)) [
  | inl missing ↦ let x : none ≡ some ns = rw missing at h in absurd (cc)
  | inr (m, found) ↦ elim (Option-cases (sextets_of s)) [
    | inl missing ↦ let x : none ≡ some ns = rw (found, missing) at h in absurd (cc)
    | inr (ms, others) ↦
        let x : some (m ∷ ms) ≡ some ns = rw (found, others) at h in
        let y : m ∷ ms ≡ ns = cc in rw (← y) (sextet_of-lt c m found, sextets_of-lt s ms others)
  ]
]

join_sextets-IsByte :
    (ns : List ℕ) (bytes : Bytes)
    → All (λ n. n < 64) ns
    → join_sextets ns ≡ some bytes
    → All IsByte bytes
unfolding join_sextets
join_sextets-IsByte [] bytes h e = let y : [] ≡ bytes = cc in rw (← y) tt
join_sextets-IsByte (p ∷ []) bytes h e = absurd (cc)
join_sextets-IsByte (p ∷ q ∷ []) bytes h e =
    let y : (p * 4 + q / 16) ∷ [] ≡ bytes = cc in rw (← y) (omega arith)
join_sextets-IsByte (p ∷ q ∷ r ∷ []) bytes h e =
    let y : (p * 4 + q / 16) ∷ (q % 16 * 16 + r / 4) ∷ [] ≡ bytes = cc in rw (← y) (omega arith)
join_sextets-IsByte (p ∷ q ∷ r ∷ s ∷ rest) bytes (hp, (hq, (hr, (hs, h)))) e =
    elim (Option-cases (join_sextets rest)) [
      | inl missing ↦ let x : none ≡ some bytes = rw missing at e in absurd (cc)
      | inr (more, found) ↦
          let x : some ((p * 4 + q / 16) ∷ (q % 16 * 16 + r / 4) ∷ (r % 4 * 64 + s) ∷ more)
              ≡ some bytes =
            rw found at e in
          let y : (p * 4 + q / 16) ∷ (q % 16 * 16 + r / 4) ∷ (r % 4 * 64 + s) ∷ more ≡ bytes = cc in
          rw (← y)
            (omega arith, (omega arith, (omega arith, join_sextets-IsByte rest more h found)))
    ]

check_decoded-eq-ok :
    (value : Text) (expected : Option ℕ) (max_bytes : ℕ) (decoded : Option Bytes) {bytes : Bytes}
    → check_decoded value expected max_bytes decoded ≡ ok bytes
    → (decoded ≡ some bytes)
      × (length bytes ≤ max_bytes)
      × (misses expected (length bytes) ≡ false)
      × (to_base64url bytes ≡ value)
unfolding check_decoded
check_decoded-eq-ok value expected max_bytes none e = absurd (cc)
check_decoded-eq-ok value expected max_bytes (some found) {bytes} e =
    let (tests, x) =
      refuse_if-eq-ok
        (ltb max_bytes (length found)
          || misses expected (length found)
          || not (list_eq (to_base64url found) value))
        invalid_package (ok found) e in
    let y : found ≡ bytes = cc in
    let (sizes, differs) = or-eq-false _ (not (list_eq (to_base64url found) value)) tests in
    let (long, wrong) = or-eq-false _ (misses expected (length found)) sizes in
    rw (← y)
      (refl, ltb→ge _ _ long, wrong, list_eq→eq (to_base64url found) value (not-eq-false _ differs))

decoded-IsByte :
    (value : Text) {bytes : Bytes}
    → elim (sextets_of (from_url value)) [ none ↦ none | some ds ↦ join_sextets ds ] ≡ some bytes
    → All IsByte bytes
decoded-IsByte value {bytes} e = elim (Option-cases (sextets_of (from_url value))) [
  | inl missing ↦ let x : none ≡ some bytes = rw missing at e in absurd (cc)
  | inr (ds, found) ↦
      join_sextets-IsByte ds bytes (sextets_of-lt (from_url value) ds found) (rw found at e)
]

digits_of-nil : map url_char (digits_of []) ≡ []
unfolding digits_of
digits_of-nil = refl

nonempty_of_encoding : (bytes : Bytes) → 1 ≤ length (to_base64url bytes) → 1 ≤ length bytes
nonempty_of_encoding [] h =
    let none_left : to_base64url [] ≡ [] = to_base64url_lem [] ∙ digits_of-nil in
    absurd (omega (arith, ap length none_left))
nonempty_of_encoding (b ∷ bytes) h = omega arith

only_accepts :
    (value : Text) (expected : Option ℕ) (max_bytes : ℕ) (bytes : Bytes)
    → from_base64url value expected max_bytes ≡ ok bytes
    → Encodes value expected max_bytes bytes
unfolding from_base64url
only_accepts value expected max_bytes bytes e =
    let (tests, rest) =
      refuse_if-eq-ok
        (not (is_url_text value)
          || ltb ((max_bytes * 4 + 2) / 3) (length value)
          || length value % 4 == 1)
        invalid_package _ e in
    let (others, group) = or-eq-false _ (length value % 4 == 1) tests in
    let (text, not_long) = or-eq-false (not (is_url_text value)) _ others in
    let (some_text, url) = is_url_text-all value (not-eq-false _ text) in
    let (decoded, fits, expected_length, encoding) =
      check_decoded-eq-ok value expected max_bytes _ rest in
    let whole : length value % 4 ≢ 1 = ground (arith, group) in
    record {
      encoding = encoding;
      are_bytes = decoded-IsByte value (sym (atob_lem value url whole) ∙ decoded);
      not_empty = nonempty_of_encoding bytes (rw encoding some_text);
      fits = fits;
      expected_length = expected_length;
    }

-- `fromBase64Url` returns `bytes` exactly when the text is the encoding that `toBase64Url` gives
-- them, they are bytes, and their number is at least 1, at most `maxBytes` and the expected one. So
-- every text with another spelling of the bytes is refused.
pub from_base64url_iff :
    (value : Text) (expected : Option ℕ) (max_bytes : ℕ) (bytes : Bytes)
    → (from_base64url value expected max_bytes ≡ ok bytes) ↔ Encodes value expected max_bytes bytes
from_base64url_iff value expected max_bytes bytes =
    (only_accepts value expected max_bytes bytes, accepts value expected max_bytes bytes)
