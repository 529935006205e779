-- ===== src/Encoding/Base64Url.antt =====
-- shared/encoding.ts: `toBase64Url` and `fromBase64Url`, with the platform's `btoa` and `atob`.
use erase_to.Prelude.{
  ℕ, ◌+◌, ◌-◌, ◌*◌, ◌/◌, ◌%◌, Bool, false, not, ◌&&◌, ◌||◌, Option, none, some, List, [], ◌∷◌, ◌++◌,
  ltb, leb, ◌==◌, if◌then◌else◌, list_eq, length, all, replicate,
}
use erase_to.Types.{Text, Bytes, Result, ok, err, invalid_package, refuse_if, ◌>>◌}

-- The digit of six bits in the standard alphabet.
unfoldable pub sextet_char : ℕ → ℕ
sextet_char n =
    if ltb n 26
    then b'A' + n
    else if ltb n 52
    then b'a' + (n - 26)
    else if ltb n 62
    then b'0' + (n - 52)
    else if n == 62
    then b'+'
    else b'/'

-- `btoa(binary)`.
unfoldable pub btoa : Bytes → Text
btoa [] = []
btoa (a ∷ []) = sextet_char (a / 4) ∷ sextet_char (a % 4 * 16) ∷ b'=' ∷ b'=' ∷ []
btoa (a ∷ b ∷ []) =
    sextet_char (a / 4) ∷ sextet_char (a % 4 * 16 + b / 16) ∷ sextet_char (b % 16 * 4) ∷ b'=' ∷ []
btoa (a ∷ b ∷ c ∷ bytes) =
    sextet_char (a / 4)
    ∷ sextet_char (a % 4 * 16 + b / 16)
    ∷ sextet_char (b % 16 * 4 + c / 64)
    ∷ sextet_char (c % 64)
    ∷ btoa bytes

-- `s.replaceAll(from, to)` for one character each, and for the empty text.
unfoldable pub replace_all : ℕ → ℕ → Text → Text
replace_all from to [] = []
replace_all from to (c ∷ s) = (if c == from then to else c) ∷ replace_all from to s

unfoldable pub remove_all : ℕ → Text → Text
remove_all from [] = []
remove_all from (c ∷ s) = let rest = remove_all from s in if c == from then rest else c ∷ rest

unfoldable pub to_base64url : Bytes → Text
to_base64url bytes = remove_all b'=' (replace_all b'/' b'_' (replace_all b'+' b'-' (btoa bytes)))

unfoldable pub sextet_of : ℕ → Option ℕ
sextet_of c =
    if leb b'A' c && leb c b'Z'
    then some (c - b'A')
    else if leb b'a' c && leb c b'z'
    then some (c - b'a' + 26)
    else if leb b'0' c && leb c b'9'
    then some (c - b'0' + 52)
    else if c == b'+'
    then some 62
    else if c == b'/'
    then some 63
    else none

infixl 5 ◌>>?◌
abbrev ◌>>?◌ {ℓ κ} : {A : Type ℓ} {B : Type κ} → Option A → (A → Option B) → Option B
none >>? f = none
some a >>? f = f a

-- The six-bit digits, grouped by four; bits that are left over are dropped.
unfoldable pub join_sextets : List ℕ → Option Bytes
join_sextets [] = some []
join_sextets (p ∷ []) = none
join_sextets (p ∷ q ∷ []) = some ((p * 4 + q / 16) ∷ [])
join_sextets (p ∷ q ∷ r ∷ []) = some ((p * 4 + q / 16) ∷ (q % 16 * 16 + r / 4) ∷ [])
join_sextets (p ∷ q ∷ r ∷ s ∷ rest) = join_sextets rest >>? λ bytes.
    some ((p * 4 + q / 16) ∷ (q % 16 * 16 + r / 4) ∷ (r % 4 * 64 + s) ∷ bytes)

unfoldable pub sextets_of : Text → Option (List ℕ)
sextets_of [] = some []
sextets_of (c ∷ s) = sextet_of c >>? λ n. sextets_of s >>? λ ns. some (n ∷ ns)

-- One trailing `=` less, if there is one.
unfoldable pub strip_one : Text → Text
strip_one [] = []
strip_one (c ∷ []) = if c == b'=' then [] else c ∷ []
strip_one (c ∷ d ∷ s) = c ∷ strip_one (d ∷ s)

-- `atob(value)` on a text without white space; `none` is the exception.
unfoldable pub atob : Text → Option Bytes
atob value =
    let stripped = if length value % 4 == 0 then strip_one (strip_one value) else value in
    sextets_of stripped >>? join_sextets

abbrev pub is_url_char : ℕ → Bool
is_url_char c =
    (leb b'A' c && leb c b'Z')
    || (leb b'a' c && leb c b'z')
    || (leb b'0' c && leb c b'9')
    || c == b'_'
    || c == b'-'

-- `/^[A-Za-z0-9_-]+$/`.
abbrev pub is_url_text : Text → Bool
is_url_text [] = false
is_url_text (c ∷ s) = all is_url_char (c ∷ s)

-- `bytes.length !== expectedBytes`, where a length is expected.
abbrev pub misses : Option ℕ → ℕ → Bool
misses none n = false
misses (some m) n = not (n == m)

-- The checks on the decoded bytes: their number, and that they encode to the text again.
unfoldable pub check_decoded : Text → Option ℕ → ℕ → Option Bytes → Result Bytes
check_decoded value expected max_bytes none = err invalid_package
check_decoded value expected max_bytes (some bytes) = do
  refuse_if
      (ltb max_bytes (length bytes)
        || misses expected (length bytes)
        || not (list_eq (to_base64url bytes) value))
      invalid_package
  ok bytes

-- `fromBase64Url(value, expectedBytes, maxBytes)`.
unfoldable pub from_base64url : Text → Option ℕ → ℕ → Result Bytes
from_base64url value expected max_bytes = do
  refuse_if
      (not (is_url_text value)
        || ltb ((max_bytes * 4 + 2) / 3) (length value)
        || length value % 4 == 1)
      invalid_package
  check_decoded value expected max_bytes (
      atob (
        replace_all b'_' b'/' (replace_all b'-' b'+' value)
        ++ replicate ((4 - length value % 4) % 4) b'='))
