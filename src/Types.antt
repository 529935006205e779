-- ===== src/Types.antt =====
-- shared/types.ts: the limits of the protocol, its values and its errors. A string is the list of its
-- UTF-16 code units, and a byte array is the list of its bytes.
use erase_to.Prelude.{
  ℕ, ◌+◌, ◌-◌, ◌*◌, ◌≡◌, ◌⊎◌, inl, inr, refl, Bool, true, false, List, leb, if◌then◌else◌,
}

abbrev pub Text : Type 0
Text = List ℕ

abbrev pub Bytes : Type 0
Bytes = List ℕ

abbrev pub max_content_bytes : ℕ
max_content_bytes = 64 * 1024 * 1024

abbrev pub max_text_bytes : ℕ
max_text_bytes = 8 * 1024 * 1024

abbrev pub max_files : ℕ
max_files = 8

abbrev pub max_filename_bytes : ℕ
max_filename_bytes = 255

abbrev pub max_mime_bytes : ℕ
max_mime_bytes = 127

abbrev pub max_passphrase_bytes : ℕ
max_passphrase_bytes = 1024

abbrev pub max_header_bytes : ℕ
max_header_bytes = 2048

abbrev pub max_packet_bytes : ℕ
max_packet_bytes = max_content_bytes + 32768

abbrev pub padding_bytes : ℕ
padding_bytes = 4096

-- `Number.MAX_SAFE_INTEGER`.
abbrev pub max_safe_integer : ℕ
max_safe_integer = 9007199254740991

pub record FileInput : Type 0 where
  pub name : Text
  pub mime : Text
  pub content : Bytes

pub record ContentInput : Type 0 where
  pub text : Text
  pub files : List FileInput

pub data Kdf : Type 0 where
  plain argon2id : Kdf

pub record Header : Type 0 where
  pub id : Text
  pub ttl : ℕ
  pub views : ℕ
  pub peek : Text
  pub read : Text
  pub revoke : Text
  pub kdf : Kdf
  pub salt : Text
  pub nonce : Text

pub record ParsedPacket : Type 0 where
  pub header : Header
  pub header_bytes : Bytes
  pub ciphertext : Bytes

pub record Challenge : Type 0 where
  pub challenge : Text
  pub bits : ℕ
  pub expires_at : ℕ

-- The `code` of a `ProtocolError` or a `RequestError`; `range_error` is the `RangeError` that a typed array or a view
-- throws at an access out of its bounds, `type_error` the `TypeError` of `new URL`, and `sodium_error`
-- the `Error` that libsodium throws when Argon2 does not get its memory.
pub data ErrorCode : Type 0 where
  invalid_package invalid_policy too_large empty_content duplicate_filename : ErrorCode
  invalid_filename invalid_passphrase wrong_passphrase invalid_link invalid_challenge : ErrorCode
  cancelled proof_expired proof_exhausted decryption_failed invalid_response : ErrorCode
  range_error type_error sodium_error unsupported_protocol crypto_unavailable : ErrorCode

-- The whole numbers, for a count that the code may take below zero; `negsuc n` is -(n + 1).
pub data ℤ : Type 0 where
  pos : ℕ → ℤ
  negsuc : ℕ → ℤ

abbrev difference : ℕ → ℕ → ℤ
difference a b = if leb b a then pos (a - b) else negsuc (b - a - 1)

infixl 65 ◌-ℤ◌
abbrev pub ◌-ℤ◌ : ℤ → ℤ → ℤ
pos a -ℤ pos b = difference a b
pos a -ℤ negsuc b = pos (a + b + 1)
negsuc a -ℤ pos b = negsuc (a + b)
negsuc a -ℤ negsuc b = difference b a

-- What a function returns or throws.
pub data Result {ℓ} (Value : Type ℓ) : Type ℓ where
  err : (code : ErrorCode) → Result Value
  ok : (value : Value) → Result Value

infixl 5 ◌>>=◌ ◌>>◌
abbrev pub ◌>>=◌ {ℓ κ} :
    {X : Type ℓ} {Y : Type κ} (call : Result X) (next : X → Result Y) → Result Y
err code >>= next = err code
ok value >>= next = next value

-- `if (bad) throw`: the call goes on if the test fails.
abbrev pub refuse_if : Bool → ErrorCode → Result (Unit {0})
refuse_if true code = err code
refuse_if false code = ok tt

abbrev pub ◌>>◌ {ℓ} : {Y : Type ℓ} (test : Result (Unit {0})) (next : Result Y) → Result Y
test >> next = test >>= λ done. next

pub refuse_if-eq-ok {ℓ} :
    {Y : Type ℓ} (t : Bool) (code : ErrorCode) (next : Result Y) {out : Y}
    → (refuse_if t code >> next) ≡ ok out
    → (t ≡ false) × (next ≡ ok out)
refuse_if-eq-ok true code next e = cc
refuse_if-eq-ok false code next e = (refl, e)

pub Result-cases {ℓ} :
    {Y : Type ℓ} (call : Result Y)
    → ((code : ErrorCode) × (call ≡ err code)) ⊎ ((value : Y) × (call ≡ ok value))
Result-cases (err code) = inl (code, refl)
Result-cases (ok value) = inr (value, refl)

count_below_zero : (pos 0 -ℤ pos 1) ≡ negsuc 0
count_below_zero = refl

-- A chain that returns has returned at each link.
pub >>=-eq-ok {ℓ κ} :
    {X : Type ℓ} {Y : Type κ} (call : Result X) (next : X → Result Y) {out : Y}
    → (call >>= next) ≡ ok out
    → (x : X) × (call ≡ ok x) × (next x ≡ ok out)
>>=-eq-ok (err code) next e = cc
>>=-eq-ok (ok x) next e = (x, refl, e)
