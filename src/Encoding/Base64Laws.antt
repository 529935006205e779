-- ===== src/Encoding/Base64Laws.antt =====
-- shared/encoding.ts: lemmas on the digits of base64url.
use erase_to.Prelude.{
  ℕ, suc, ◌+◌, ◌-◌, ◌*◌, ◌/◌, ◌%◌, ◌<◌, ◌≡◌, refl, ap, ◌∙◌, Bool, true, not, none, some, List, [],
  ◌∷◌, ◌++◌, map, arith, ltb, ◌==◌, and-eq-true, if◌then◌else◌, length, all, All,
}
use erase_to.Types.{Text, Bytes}
use erase_to.Encoding.Base64Url.{
  sextet_char, btoa, replace_all, remove_all, to_base64url, sextet_of, join_sextets, sextets_of,
  strip_one, is_url_char,
}

abbrev pub IsByte : ℕ → Type 0
IsByte b = b < 256

-- The digit in the URL alphabet.
unfoldable pub url_char : ℕ → ℕ
url_char n =
    if ltb n 26
    then b'A' + n
    else if ltb n 52
    then b'a' + (n - 26)
    else if ltb n 62
    then b'0' + (n - 52)
    else if n == 62
    then b'-'
    else b'_'

-- The six-bit digits of a byte sequence.
unfoldable pub digits_of : Bytes → List ℕ
digits_of [] = []
digits_of (a ∷ []) = (a / 4) ∷ (a % 4 * 16) ∷ []
digits_of (a ∷ b ∷ []) = (a / 4) ∷ (a % 4 * 16 + b / 16) ∷ (b % 16 * 4) ∷ []
digits_of (a ∷ b ∷ c ∷ bytes) =
    (a / 4) ∷ (a % 4 * 16 + b / 16) ∷ (b % 16 * 4 + c / 64) ∷ (c % 64) ∷ digits_of bytes

-- The three replacements of `toBase64Url`, digit by digit.
abbrev to_url : Text → Text
to_url s = remove_all b'=' (replace_all b'/' b'_' (replace_all b'+' b'-' s))

to_url_cons : (n : ℕ) (s : Text) → to_url (sextet_char n ∷ s) ≡ url_char n ∷ to_url s
unfolding sextet_char url_char replace_all remove_all
to_url_cons n s = ground arith

to_url-end : (s : Text) → to_url (b'=' ∷ s) ≡ to_url s
unfolding replace_all remove_all
to_url-end s = refl

to_url-nil : to_url [] ≡ []
unfolding replace_all remove_all
to_url-nil = refl

pub to_base64url_lem : (bytes : Bytes) → to_base64url bytes ≡ map url_char (digits_of bytes)
unfolding to_base64url btoa digits_of
to_base64url_lem [] = to_url-nil
to_base64url_lem (a ∷ []) =
    to_url_cons _ _
    ∙ ap (λ (s : Text). url_char (a / 4) ∷ s) (to_url_cons _ _)
    ∙ simp (to_url-end, to_url-nil)
to_base64url_lem (a ∷ b ∷ []) = simp (to_url_cons, to_url-end, to_url-nil)
to_base64url_lem (a ∷ b ∷ c ∷ bytes) = simp (to_url_cons, to_base64url_lem bytes)

-- The two replacements of `fromBase64Url`.
abbrev pub from_url : Text → Text
from_url s = replace_all b'_' b'/' (replace_all b'-' b'+' s)

-- A character of the URL alphabet is translated to one that is not `=`.
url_char_facts :
    (n : ℕ) (s : Text)
    → n < 64
    → (is_url_char (url_char n) ≡ true)
      × (sextets_of (from_url (url_char n ∷ s))
          ≡ elim (sextets_of (from_url s)) [ none ↦ none | some ns ↦ some (n ∷ ns) ])
unfolding url_char sextets_of sextet_of replace_all
url_char_facts n s h = (ground arith, ground arith)

pub sextets_of-from_url :
    (ds : List ℕ) → All (λ d. d < 64) ds → sextets_of (from_url (map url_char ds)) ≡ some ds
sextets_of-from_url [] h = unfold sextets_of replace_all in refl
sextets_of-from_url (d ∷ ds) (h, hs) =
    rw ((url_char_facts d (map url_char ds) h).1, sextets_of-from_url ds hs)

pub all-is_url_char :
    (ds : List ℕ) → All (λ d. d < 64) ds → all is_url_char (map url_char ds) ≡ true
all-is_url_char [] h = refl
all-is_url_char (d ∷ ds) (h, hs) = rw ((url_char_facts d [] h).0, all-is_url_char ds hs)

pub digits_of-lt : (bytes : Bytes) → All IsByte bytes → All (λ d. d < 64) (digits_of bytes)
unfolding digits_of
digits_of-lt [] h = tt
digits_of-lt (a ∷ []) h = omega arith
digits_of-lt (a ∷ b ∷ []) h = omega arith
digits_of-lt (a ∷ b ∷ c ∷ bytes) (ha, (hb, (hc, hs))) =
    (omega arith, (omega arith, (omega arith, (omega arith, digits_of-lt bytes hs))))

pub length-digits_of : (bytes : Bytes) → length (digits_of bytes) ≡ (length bytes * 4 + 2) / 3
unfolding digits_of
length-digits_of [] = refl
length-digits_of (a ∷ []) = refl
length-digits_of (a ∷ b ∷ []) = refl
length-digits_of (a ∷ b ∷ c ∷ bytes) = omega (arith, length-digits_of bytes)

-- Joining the digits of bytes gives the bytes.
pub join_sextets-digits_of :
    (bytes : Bytes) → All IsByte bytes → join_sextets (digits_of bytes) ≡ some bytes
unfolding digits_of join_sextets
join_sextets-digits_of [] h = refl
join_sextets-digits_of (a ∷ []) h = ground arith
join_sextets-digits_of (a ∷ b ∷ []) h = ground arith
join_sextets-digits_of (a ∷ b ∷ c ∷ bytes) (ha, (hb, (hc, hs))) =
    rw (join_sextets-digits_of bytes hs) (ground arith)

abbrev pub no_equals : Text → Bool
no_equals s = all (λ c. not (c == b'=')) s

pub strip_one_none : (s : Text) → no_equals s ≡ true → strip_one s ≡ s
unfolding strip_one
strip_one_none [] h = refl
strip_one_none (c ∷ []) h = ground arith
strip_one_none (c ∷ d ∷ s) h =
    ap (λ (t : Text). c ∷ t) (strip_one_none (d ∷ s) (and-eq-true _ _ h).1)

pub strip_one_last : (s : Text) → strip_one (s ++ b'=' ∷ []) ≡ s
unfolding strip_one
strip_one_last [] = refl
strip_one_last (c ∷ []) = refl
strip_one_last (c ∷ d ∷ s) = ap (λ (t : Text). c ∷ t) (strip_one_last (d ∷ s))

pub no_equals-from_url : (s : Text) → all is_url_char s ≡ true → no_equals (from_url s) ≡ true
unfolding replace_all
no_equals-from_url [] h = refl
no_equals-from_url (c ∷ s) h = ground (arith, no_equals-from_url s)

pub length-from_url : (s : Text) → length (from_url s) ≡ length s
unfolding replace_all
length-from_url [] = refl
length-from_url (c ∷ s) = ap suc (length-from_url s)
