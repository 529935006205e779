-- ===== src/Protocol.antt =====
-- shared/index.ts: the encryption protocol. libsodium and HKDF are the parameter `s`, the random bytes
-- of a creation the parameter `r`. The wiping of buffers that are no longer used is left out, since no
-- value that is returned depends on it.
pub mod Laws
pub mod Opening
pub mod Access
pub mod RoundTrip
pub mod Passphrase
pub mod Refusal
pub mod Success
pub mod Toy
pub mod Sample
mod Tests
use erase_to.Prelude.{
  ℕ, zero, suc, ◌+◌, ◌-◌, ◌*◌, ◌/◌, ◌%◌, ◌^◌, ◌≤◌, ◌<◌, min, max, ◌≡◌, ◌≢◌, ◌↔◌, ◌⊎◌, inl, inr,
  refl, sym, ap, ◌∙◌, ◌≡⟨◌⟩◌, ◌∎, subst, Bool, true, false, not, ◌&&◌, ◌||◌, Option, none, some,
  List, [], ◌∷◌, ◌++◌, map, append_assoc, append-nil, arith, ltb, leb, ◌==◌, ge→ltb, lt→ltb, ltb→lt,
  ltb→ge, le→leb, leb→le, ==_iff, ==_self, or-eq-false, not-eq-false, and-eq-true, Bool-cases,
  Option-cases, if◌then◌else◌, list_eq, list_eq_self, list_eq→eq, length, all, any, All, codes,
  replicate, length-replicate, length-take, length-map, length-drop, length-append, take, drop,
  take-append, drop-append, drop-append_add, drop-drop, take_all, drop_all, take-append-drop,
}
use erase_to.Types.{
  Text, Bytes, Kdf, plain, argon2id, Header, ParsedPacket, ContentInput, Result, ok, err, refuse_if,
  ◌>>=◌, ◌>>◌, ErrorCode, invalid_package, invalid_passphrase, wrong_passphrase, invalid_link,
  decryption_failed, sodium_error, max_packet_bytes, max_header_bytes, max_passphrase_bytes,
}
use erase_to.Digits.{to_hex}
use erase_to.Json.{Json, number}
use erase_to.Encoding.Utf8.{encode, encode_text}
use erase_to.Encoding.Base64Url.{to_base64url, from_base64url}
use erase_to.Encoding.Links.{validate_id}
use erase_to.Encoding.Header.{validate_policy, is_hex64, kdf_name, serialize_header, parse_header}
use erase_to.Encoding.Packet.{write_packet, parse_packet}
use erase_to.Content.Names.{Unicode}
use erase_to.Content.Pack.{pack}
use erase_to.Content.Unpack.{unpack}

-- What the code calls of libsodium, and the HKDF function that it is given. `aead_encrypt` takes the
-- message, the additional data, the nonce and the key, `pwhash` the length, the password, the salt,
-- the passes and the memory; it throws if it does not get the memory, which is then a `none`.
pub record Sodium : Type 0 where
  pub sha256 : Bytes → Bytes
  pub from_hex : Text → Bytes
  pub memcmp : Bytes → Bytes → Bool
  pub pwhash : ℕ → Bytes → Bytes → ℕ → ℕ → Option Bytes
  pub aead_encrypt : Bytes → Bytes → Bytes → Bytes → Bytes
  pub aead_decrypt : Bytes → Bytes → Bytes → Bytes → Option Bytes
  pub hkdf : Bytes → Bytes → Bytes → ℕ → Bytes

-- `sodium.randombytes_buf` at its five calls in `create`, and the padding of `pack`.
pub record Randomness : Type 0 where
  pub master : Bytes
  pub revoke : Bytes
  pub id : Bytes
  pub salt : Bytes
  pub nonce : Bytes
  pub padding : ℕ → Bytes

pub record CreateOptions : Type 0 where
  pub ttl : ℕ
  pub views : ℕ
  pub passphrase : Text

pub record CreatedNote : Type 0 where
  pub packet : Bytes
  pub id : Text
  pub secret : Text
  pub revoke_token : Text
  pub header : Header

pub record PreparedOpen : Type 0 where
  pub header : Header
  pub header_bytes : Bytes
  pub read_token : Text
  pub key : Bytes

pub record ContentKeys : Type 0 where
  pub key : Bytes
  pub read : Bytes

abbrev pub argon_opslimit : ℕ
argon_opslimit = 3

abbrev pub argon_memory_bytes : ℕ
argon_memory_bytes = 67108864

-- `passphrase ? 'argon2id' : 'none'`, and the salt that goes with it.
abbrev pub kdf_for : Text → Kdf
kdf_for [] = plain
kdf_for (c ∷ s) = argon2id

abbrev pub salt_for : Text → Bytes → Text
salt_for [] salt = []
salt_for (c ∷ s) salt = to_base64url salt

-- The code of a read token that does not match.
abbrev pub mismatch : Kdf → ErrorCode
mismatch argon2id = wrong_passphrase
mismatch plain = invalid_link

-- `sodium.crypto_pwhash` throws, or returns.
abbrev pub stretched : Option Bytes → Result Bytes
stretched none = err sodium_error
stretched (some key) = ok key

-- `try … catch` around the decryption.
abbrev pub opened : Option Bytes → Result Bytes
opened none = err decryption_failed
opened (some clear) = ok clear

module _ (s : Sodium) where
  unfoldable pub hash : Bytes → Text
  hash bytes = to_hex (s.sha256 bytes)

  unfoldable pub same_hex : Text → Text → Bool
  same_hex left right =
      is_hex64 left && is_hex64 right && s.memcmp (s.from_hex left) (s.from_hex right)

  unfoldable pub peek_bytes : Text → Text → Result Bytes
  peek_bytes secret id = do
    checked_id ← validate_id id
    master ← from_base64url secret (some 32) 32
    ok (
        s.hkdf master (encode (codes "erase.to/v1/peek:" ++ id)) (encode (codes "erase.to/v1/peek"))
          32)

  unfoldable pub derive_peek : Text → Text → Result Text
  derive_peek secret id = do peek ← peek_bytes secret id; ok (to_base64url peek)

  -- The second half of the key material: the stretched passphrase, or zeros.
  unfoldable pub password_key : Kdf → Text → Bytes → Result Bytes
  password_key plain salt password = ok (replicate 32 0)
  password_key argon2id salt password = do
    refuse_if (length password == 0) wrong_passphrase
    salt_bytes ← from_base64url salt (some 16) 16
    stretched (s.pwhash 32 password salt_bytes argon_opslimit argon_memory_bytes)

  -- The two keys that `contentKeys` derives from its material.
  unfoldable pub derived : Header → Bytes → ContentKeys
  derived header material =
      let salt = encode (codes "erase.to/v1/content:" ++ header.id) in
      record {
        key = s.hkdf material salt (encode (codes "erase.to/v1/aead:" ++ kdf_name header.kdf)) 32;
        read = s.hkdf material salt (encode (codes "erase.to/v1/read:" ++ kdf_name header.kdf)) 32;
      }

  unfoldable pub content_keys : Text → Header → Text → Result ContentKeys
  content_keys secret header passphrase = do
    refuse_if (ltb max_passphrase_bytes (length passphrase)) invalid_passphrase
    master ← from_base64url secret (some 32) 32
    password ← encode_text passphrase
    refuse_if (ltb max_passphrase_bytes (length password)) invalid_passphrase
    passphrase_key ← password_key header.kdf header.salt password
    ok (derived header (master ++ passphrase_key))

  -- The end of `create`: the packet around the encrypted content.
  unfoldable pub seal : Randomness → Header → Bytes → Bytes → Result CreatedNote
  seal r header key clear = do
    nonce ← from_base64url header.nonce (some 24) 24
    packet ←
        write_packet (serialize_header header)
          (s.aead_encrypt clear (serialize_header header) nonce key)
    refuse_if (ltb max_packet_bytes (length packet)) invalid_package
    ok (record {
      packet = packet;
      id = header.id;
      secret = to_base64url r.master;
      revoke_token = to_base64url r.revoke;
      header = header;
    })

  -- The header of `create` before its `read` is known.
  unfoldable pub draft_header : Randomness → CreateOptions → Bytes → Header
  draft_header r options peek = record {
    id = to_base64url r.id;
    ttl = options.ttl;
    views = options.views;
    peek = hash peek;
    read = [];
    revoke = hash r.revoke;
    kdf = kdf_for options.passphrase;
    salt = salt_for options.passphrase r.salt;
    nonce = to_base64url r.nonce;
  }

  unfoldable pub create : Unicode → Randomness → ContentInput → CreateOptions → Result CreatedNote
  create u r input options = do
    validate_policy (number options.ttl) (number options.views)
    refuse_if (ltb max_passphrase_bytes (length options.passphrase)) invalid_passphrase
    clear ← pack u r.padding input
    peek ← peek_bytes (to_base64url r.master) (to_base64url r.id)
    keys ← content_keys (to_base64url r.master) (draft_header r options peek) options.passphrase
    seal r (record (draft_header r options peek) { read = hash keys.read }) keys.key clear

  -- The end of `prepareOpen`, for the keys that were derived.
  unfoldable pub confirm_read : Header → Bytes → ContentKeys → Result PreparedOpen
  confirm_read header header_bytes keys = do
    refuse_if (not (same_hex (hash keys.read) header.read)) (mismatch header.kdf)
    ok (record {
      header = header;
      header_bytes = header_bytes;
      read_token = to_base64url keys.read;
      key = keys.key;
    })

  -- `prepareOpen` from the parsed header on.
  unfoldable pub check_access : Text → Text → Text → Bytes → Header → Result PreparedOpen
  check_access secret expected_id passphrase header_bytes header = do
    checked_id ← validate_id expected_id
    refuse_if (not (list_eq header.id expected_id)) invalid_package
    peek ← peek_bytes secret expected_id
    refuse_if (not (same_hex (hash peek) header.peek)) invalid_link
    keys ← content_keys secret header passphrase
    confirm_read header header_bytes keys

  unfoldable pub prepare_open :
      (Text → Option Json) → Text → Text → Text → Text → Result PreparedOpen
  prepare_open json header64 secret expected_id passphrase = do
    header_bytes ← from_base64url header64 none max_header_bytes
    header ← parse_header json header_bytes
    check_access secret expected_id passphrase header_bytes header

  -- The packet is another one than was prepared, or the key is none.
  unfoldable pub is_other_package : ParsedPacket → PreparedOpen → Bool
  is_other_package parsed prepared =
      not (length prepared.key == 32)
      || not (length parsed.header_bytes == length prepared.header_bytes)
      || not (s.memcmp parsed.header_bytes prepared.header_bytes)

  unfoldable pub open_box : ParsedPacket → Bytes → Result Bytes
  open_box parsed key = elim (from_base64url parsed.header.nonce (some 24) 24) [
    | err code ↦ err decryption_failed
    | ok nonce ↦ opened (s.aead_decrypt parsed.ciphertext parsed.header_bytes nonce key)
  ]

  unfoldable pub decrypt :
      (Text → Option Json) → Unicode → Bytes → PreparedOpen → Result ContentInput
  decrypt json u packet prepared = do
    parsed ← parse_packet json packet
    refuse_if (is_other_package parsed prepared) invalid_package
    clear ← open_box parsed prepared.key
    unpack u clear

-- `decodeHeader(headerBase64)`.
unfoldable pub decode_header : (Text → Option Json) → Text → Result Header
decode_header json header64 = do
  bytes ← from_base64url header64 none max_header_bytes
  parse_header json bytes
