-- ===== src/Encoding/Header.antt =====
-- shared/encoding.ts: `validatePolicy`, `serializeHeader` and `parseHeader`. `JSON.parse` is the
-- parameter `json`, which gives nothing where it throws.
use erase_to.Prelude.{
  ℕ, ◌+◌, Bool, true, false, not, ◌&&◌, ◌||◌, Option, none, some, List, [], ◌∷◌, ◌++◌, ltb, leb,
  ◌==◌, if◌then◌else◌, list_eq, length, all, codes,
}
use erase_to.Types.{
  Text, Bytes, Kdf, plain, argon2id, Header, Result, ok, err, refuse_if, ◌>>=◌, ◌>>◌,
  invalid_package, invalid_policy, max_header_bytes,
}
use erase_to.Digits.{decimal}
use erase_to.Json.{
  Json, null, array, fraction, boolean, number, string, object, Members, no_more, member, field,
}
use erase_to.Encoding.Utf8.{encode, utf8}
use erase_to.Encoding.Base64Url.{from_base64url}
use erase_to.Encoding.Links.{validate_id}

-- A number that is a natural number within bounds; these bounds are safe integers.
abbrev pub is_within : ℕ → ℕ → Json → Bool
is_within low high (number n) = not (ltb n low || ltb high n)
is_within low high null = false
is_within low high array = false
is_within low high fraction = false
is_within low high (boolean b) = false
is_within low high (string s) = false
is_within low high (object m) = false

-- `validatePolicy(ttl, views)`.
unfoldable pub validate_policy : Json → Json → Result (Unit {0})
validate_policy ttl views =
    refuse_if (not (is_within 60 604800 ttl) || not (is_within 1 100 views)) invalid_policy

abbrev pub kdf_name : Kdf → Text
kdf_name plain = codes "none"
kdf_name argon2id = codes "argon2id"

-- `JSON.stringify` of a text without characters that it escapes, as all of a header's are.
abbrev pub quoted : Text → Text
quoted s = codes "\"" ++ (s ++ codes "\"")

-- The text of `JSON.stringify` in `serializeHeader`.
unfoldable pub header_text : Header → Text
unfolding decimal
header_text h =
    codes "{\"version\":1,\"id\":"
    ++ (quoted h.id
        ++ (codes ",\"ttl\":"
            ++ (decimal h.ttl
                ++ (codes ",\"views\":"
                    ++ (decimal h.views
                        ++ (codes ",\"peek\":"
                            ++ (quoted h.peek
                                ++ (codes ",\"read\":"
                                    ++ (quoted h.read
                                        ++ (codes ",\"revoke\":"
                                            ++ (quoted h.revoke
                                                ++ (codes ",\"kdf\":"
                                                    ++ (quoted (kdf_name h.kdf)
                                                        ++ (codes ",\"salt\":"
                                                            ++ (quoted h.salt
                                                            ++ (codes ",\"nonce\":"
                                                            ++ (quoted h.nonce
                                                            ++ codes "}")))))))))))))))))

unfoldable pub serialize_header : Header → Bytes
serialize_header h = encode (header_text h)

-- `HEADER_FIELDS`.
abbrev pub header_fields : List Text
header_fields =
    codes "version"
    ∷ codes "id"
    ∷ codes "ttl"
    ∷ codes "views"
    ∷ codes "peek"
    ∷ codes "read"
    ∷ codes "revoke"
    ∷ codes "kdf"
    ∷ codes "salt"
    ∷ codes "nonce"
    ∷ []

-- `Object.keys(obj).length`; an object has each key once.
abbrev pub key_count : Members → ℕ
key_count no_more = 0
key_count (member name value rest) = key_count rest + 1

-- `Object.hasOwn(obj, key)`.
abbrev pub has_own : Text → Members → Bool
has_own key no_more = false
has_own key (member name value rest) = list_eq key name || has_own key rest

abbrev pub is_string : Json → Bool
is_string (string s) = true
is_string null = false
is_string array = false
is_string fraction = false
is_string (boolean b) = false
is_string (number n) = false
is_string (object m) = false

abbrev pub is_number : Json → Bool
is_number (number n) = true
is_number fraction = true
is_number null = false
is_number array = false
is_number (boolean b) = false
is_number (string s) = false
is_number (object m) = false

-- The text of a value that is a string, and the number of one that is a natural number.
abbrev pub text_of : Json → Text
text_of (string s) = s
text_of null = []
text_of array = []
text_of fraction = []
text_of (boolean b) = []
text_of (number n) = []
text_of (object m) = []

abbrev pub number_of : Json → ℕ
number_of (number n) = n
number_of null = 0
number_of array = 0
number_of fraction = 0
number_of (boolean b) = 0
number_of (string s) = 0
number_of (object m) = 0

-- `[a-f0-9]`.
abbrev pub is_hex : ℕ → Bool
is_hex c = (leb b'a' c && leb c b'f') || (leb b'0' c && leb c b'9')

-- `/^[a-f0-9]{64}$/`.
unfoldable pub is_hex64 : Text → Bool
is_hex64 s = length s == 64 && all is_hex s

-- A member that is a digest in hexadecimal.
abbrev pub is_digest : Json → Bool
is_digest v = is_string v && is_hex64 (text_of v)

-- The names of the two derivations.
abbrev pub is_kdf_name : Json → Bool
is_kdf_name v =
    is_string v && (list_eq (text_of v) (codes "none") || list_eq (text_of v) (codes "argon2id"))

abbrev pub kdf_of : Text → Kdf
kdf_of s = if list_eq s (codes "none") then plain else argon2id

abbrev pub is_version_one : Json → Bool
is_version_one v = is_number v && number_of v == 1

-- The fields of the object, and their types.
unfoldable pub is_typed : Members → Bool
is_typed v =
    key_count v == 10
    && all (λ key. has_own key v) header_fields
    && is_version_one (field (codes "version") v)
    && is_string (field (codes "id") v)
    && is_number (field (codes "ttl") v)
    && is_number (field (codes "views") v)
    && is_digest (field (codes "peek") v)
    && is_digest (field (codes "read") v)
    && is_digest (field (codes "revoke") v)
    && is_kdf_name (field (codes "kdf") v)
    && is_string (field (codes "salt") v)
    && is_string (field (codes "nonce") v)

-- The object as a header.
unfoldable pub header_of : Members → Header
header_of v = record {
  id = text_of (field (codes "id") v);
  ttl = number_of (field (codes "ttl") v);
  views = number_of (field (codes "views") v);
  peek = text_of (field (codes "peek") v);
  read = text_of (field (codes "read") v);
  revoke = text_of (field (codes "revoke") v);
  kdf = kdf_of (text_of (field (codes "kdf") v));
  salt = text_of (field (codes "salt") v);
  nonce = text_of (field (codes "nonce") v);
}

-- The salt is empty without a passphrase, and 16 bytes with one.
unfoldable pub check_salt : Kdf → Text → Result (Unit {0})
check_salt plain salt = refuse_if (not (list_eq salt [])) invalid_package
check_salt argon2id salt = do
  refuse_if (list_eq salt []) invalid_package
  bytes ← from_base64url salt (some 16) 16
  ok tt

-- The checks on the fields of a typed object.
unfoldable pub check_header : Members → Header → Result (Unit {0})
unfolding validate_id validate_policy check_salt
check_header v h = do
  id ← validate_id h.id
  validate_policy (field (codes "ttl") v) (field (codes "views") v)
  nonce ← from_base64url h.nonce (some 24) 24
  check_salt h.kdf h.salt

-- The checks of `parseHeader` on an object `v` and the header `h` in it; `text` is what was parsed.
unfoldable pub confirm_header : Text → Members → Header → Result Header
unfolding is_typed check_header serialize_header
confirm_header text v h = do
  refuse_if (not (is_typed v)) invalid_package
  check_header v h
  back ← utf8 (serialize_header h)
  refuse_if (not (list_eq back text)) invalid_package
  ok h

-- `parseHeader` from the parsed value on.
unfoldable pub finish_header : Text → Option Json → Result Header
unfolding confirm_header header_of
finish_header text (some (object v)) = confirm_header text v (header_of v)
finish_header text none = err invalid_package
finish_header text (some null) = err invalid_package
finish_header text (some array) = err invalid_package
finish_header text (some fraction) = err invalid_package
finish_header text (some (boolean b)) = err invalid_package
finish_header text (some (number n)) = err invalid_package
finish_header text (some (string s)) = err invalid_package

module _ (json : Text → Option Json) where
  unfoldable pub parse_header : Bytes → Result Header
  unfolding finish_header
  parse_header bytes = do
    refuse_if (ltb (length bytes) 1 || ltb max_header_bytes (length bytes)) invalid_package
    text ← utf8 bytes
    finish_header text (json text)
