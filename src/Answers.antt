-- ===== src/Answers.antt =====
-- web/src/lib/api.ts: the checks of the service's JSON answers, from the value of `JSON.parse` on.
pub mod Accepted
pub mod Packages
mod Tests
use erase_to.Prelude.{
  ℕ, ◌≡◌, Bool, true, false, not, ◌&&◌, ◌||◌, ◌==◌, ltb, leb, Option, none, some, List, [], ◌∷◌,
  if◌then◌else◌, list_eq, codes, length, all,
}
use erase_to.Types.{
  Text, Result, ok, err, refuse_if, ◌>>=◌, ◌>>◌, invalid_response, unsupported_protocol,
  max_content_bytes, max_text_bytes, max_files, max_safe_integer, Challenge,
}
use erase_to.Json.{Json, null, array, fraction, boolean, number, string, object, Members, field}
use erase_to.Encoding.Base64Url.{is_url_char, is_url_text}

-- `object(value)`.
unfoldable pub members_of : Json → Result Members
members_of (object members) = ok members
members_of null = err invalid_response
members_of array = err invalid_response
members_of fraction = err invalid_response
members_of (boolean b) = err invalid_response
members_of (number n) = err invalid_response
members_of (string s) = err invalid_response

-- `integer(value, low, high)`, for bounds that are natural numbers.
unfoldable pub integer : Json → ℕ → ℕ → Result ℕ
integer (number n) low high =
    if not (leb n max_safe_integer) || ltb n low || ltb high n then err invalid_response else ok n
integer null low high = err invalid_response
integer array low high = err invalid_response
integer fraction low high = err invalid_response
integer (boolean b) low high = err invalid_response
integer (string s) low high = err invalid_response
integer (object members) low high = err invalid_response

unfoldable pub unix : Json → Result ℕ
unfolding integer
unix value = integer value 1 max_safe_integer

-- A string that passes a test.
unfoldable pub text_if : (Text → Bool) → Json → Result Text
text_if good (string s) = if good s then ok s else err invalid_response
text_if good null = err invalid_response
text_if good array = err invalid_response
text_if good fraction = err invalid_response
text_if good (boolean b) = err invalid_response
text_if good (number n) = err invalid_response
text_if good (object members) = err invalid_response

-- `v.protocol !== 1`.
abbrev pub is_one : Json → Bool
is_one (number n) = n == 1
is_one null = false
is_one array = false
is_one fraction = false
is_one (boolean b) = false
is_one (string s) = false
is_one (object members) = false

pub record PublicConfig : Type 0 where
  pub max_content_bytes : ℕ
  pub max_text_bytes : ℕ
  pub max_files : ℕ
  pub max_views : ℕ
  pub max_ttl : ℕ
  pub pow_bits : ℕ

pub record Metadata : Type 0 where
  pub header : Text
  pub expires_at : ℕ
  pub remaining : ℕ

pub record Receipt : Type 0 where
  pub id : Text
  pub expires_at : ℕ

-- `api.config` behind the request.
unfoldable pub read_config : Json → Result PublicConfig
unfolding members_of integer
read_config answer = do
  v ← members_of answer
  refuse_if (not (is_one (field (codes "protocol") v))) unsupported_protocol
  content ← integer (field (codes "max_content_bytes") v) 1 max_content_bytes
  text ← integer (field (codes "max_text_bytes") v) 1 max_text_bytes
  files ← integer (field (codes "max_files") v) 1 max_files
  views ← integer (field (codes "max_views") v) 1 100
  ttl ← integer (field (codes "max_ttl") v) 60 604800
  bits ← integer (field (codes "pow_bits") v) 1 24
  ok (record {
    max_content_bytes = content;
    max_text_bytes = text;
    max_files = files;
    max_views = views;
    max_ttl = ttl;
    pow_bits = bits;
  })

abbrev pub is_challenge : Text → Bool
is_challenge s = leb 16 (length s) && leb (length s) 2048

-- `api.challenge` behind the request.
unfoldable pub read_challenge : Json → Result Challenge
unfolding members_of text_if integer unix
read_challenge answer = do
  v ← members_of answer
  challenge ← text_if is_challenge (field (codes "challenge") v)
  bits ← integer (field (codes "bits") v) 1 24
  expires_at ← unix (field (codes "expires_at") v)
  ok (record { challenge = challenge; bits = bits; expires_at = expires_at })

-- `idPattern`.
abbrev pub is_id : Text → Bool
is_id s = length s == 43 && all is_url_char s

-- `api.create` behind the request.
unfoldable pub read_receipt : Json → Result Receipt
unfolding members_of text_if unix
read_receipt answer = do
  v ← members_of answer
  id ← text_if is_id (field (codes "id") v)
  expires_at ← unix (field (codes "expires_at") v)
  ok (record { id = id; expires_at = expires_at })

abbrev pub is_header_text : Text → Bool
is_header_text s = leb (length s) 2800 && is_url_text s

-- `api.meta` behind the request.
unfoldable pub read_metadata : Json → Result Metadata
unfolding members_of text_if integer unix
read_metadata answer = do
  v ← members_of answer
  header ← text_if is_header_text (field (codes "header") v)
  expires_at ← unix (field (codes "expires_at") v)
  remaining ← integer (field (codes "remaining") v) 1 100
  ok (record { header = header; expires_at = expires_at; remaining = remaining })
