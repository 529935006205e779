-- ===== src/Protocol/Laws.antt =====
-- shared/index.ts: what the protocol relies on of libsodium, HKDF and the random source, and the
-- checks that follow from it.
use erase_to.Prelude.{
  ℕ, ◌+◌, ◌*◌, ◌/◌, ◌%◌, ◌≤◌, ◌<◌, ◌≡◌, ◌↔◌, refl, sym, ap, ◌∙◌, true, ◌&&◌, some, [], ◌∷◌, arith,
  ==_self, and-eq-true, length, all, All,
}
use erase_to.Types.{Text, Bytes, ok}
use erase_to.Digits.{hex_char, to_hex}
use erase_to.Encoding.Base64Url.{to_base64url, from_base64url}
use erase_to.Encoding.Base64Laws.{IsByte}
use erase_to.Encoding.Base64RoundTrip.{Encodes, from_base64url_iff}
use erase_to.Encoding.LinkRoundTrip.{IsKey}
use erase_to.Encoding.Headers.{hex64_shape}
use erase_to.Encoding.Header.{is_hex, is_hex64}
use erase_to.Protocol.{Sodium, Randomness, hash, same_hex}

-- Documented behaviour: the sizes of digests, derived keys and ciphertexts, that decoding a hexadecimal
-- text undoes encoding and the other way round, that `memcmp` compares arrays of one length, and that
-- decryption undoes encryption under the same key, nonce and additional data.
pub record SodiumLaws (s : Sodium) : Type 0 where
  pub sha256_size : (b : Bytes) → length (s.sha256 b) ≡ 32
  pub sha256_bytes : (b : Bytes) → All IsByte (s.sha256 b)
  pub from_hex-to_hex : (b : Bytes) → All IsByte b → s.from_hex (to_hex b) ≡ b
  pub to_hex-from_hex : (t : Text) → is_hex64 t ≡ true → to_hex (s.from_hex t) ≡ t
  pub memcmp_iff : (a b : Bytes) → length a ≡ length b → (s.memcmp a b ≡ true) ↔ (a ≡ b)
  pub decrypt-encrypt :
      (m ad n k : Bytes) → s.aead_decrypt (s.aead_encrypt m ad n k) ad n k ≡ some m
  pub length-encrypt : (m ad n k : Bytes) → length (s.aead_encrypt m ad n k) ≡ length m + 16
  pub length-hkdf : (m salt info : Bytes) (n : ℕ) → length (s.hkdf m salt info n) ≡ n

-- The random source gives bytes, as many as it is asked for.
pub record IsRandom (r : Randomness) : Type 0 where
  pub master_size : length r.master ≡ 32
  pub master_bytes : All IsByte r.master
  pub id_size : length r.id ≡ 32
  pub id_bytes : All IsByte r.id
  pub salt_size : length r.salt ≡ 16
  pub salt_bytes : All IsByte r.salt
  pub nonce_size : length r.nonce ≡ 24
  pub nonce_bytes : All IsByte r.nonce
  pub filled : (n : ℕ) → length (r.padding n) ≡ n

-- The encoding of n bytes is read as these.
pub encoded :
    (n : ℕ) (bytes : Bytes)
    → 1 ≤ n
    → length bytes ≡ n
    → All IsByte bytes
    → Encodes (to_base64url bytes) (some n) n bytes
encoded n bytes some_bytes size are_bytes = record {
  encoding = refl;
  are_bytes = are_bytes;
  not_empty = omega arith;
  fits = omega arith;
  expected_length = rw (size, ==_self n);
}

pub encoded-IsKey :
    (bytes : Bytes) → length bytes ≡ 32 → All IsByte bytes → IsKey (to_base64url bytes)
encoded-IsKey bytes size are_bytes = record {
  bytes = bytes;
  encodes = encoded 32 bytes (omega arith) size are_bytes;
}

pub decoded :
    (n : ℕ) (text : Text) (bytes : Bytes)
    → Encodes text (some n) n bytes
    → from_base64url text (some n) n ≡ ok bytes
decoded n text bytes e = (from_base64url_iff text (some n) n bytes).1 e

length-to_hex : (bytes : Bytes) → length (to_hex bytes) ≡ length bytes * 2
unfolding to_hex
length-to_hex [] = refl
length-to_hex (b ∷ bytes) = omega (arith, length-to_hex bytes)

hex_char-hex : (n : ℕ) → n < 16 → is_hex (hex_char n) ≡ true
hex_char-hex n h = ground arith

to_hex_shape :
    (bytes : Bytes)
    → All IsByte bytes
    → (length (to_hex bytes) ≡ length bytes * 2) × (all is_hex (to_hex bytes) ≡ true)
unfolding to_hex
to_hex_shape [] h = (refl, refl)
to_hex_shape (b ∷ bytes) (h, hs) =
    let (size, hex) = to_hex_shape bytes hs in
    (
      omega (arith, size),
      rw (hex_char-hex (b / 16) (omega (arith, h)), hex_char-hex (b % 16) (omega arith), hex),
    )

module _ (s : Sodium) (laws : SodiumLaws s) where
  pub hash-hex64 : (bytes : Bytes) → is_hex64 (hash s bytes) ≡ true
  unfolding hash is_hex64
  hash-hex64 bytes =
      let (size, hex) = to_hex_shape (s.sha256 bytes) (laws.sha256_bytes bytes) in
      let e : length (to_hex (s.sha256 bytes)) ≡ 64 = omega (arith, size, laws.sha256_size bytes) in
      rw (e, hex)

  -- A digest is the same as itself.
  pub same_hex_self : (bytes : Bytes) → same_hex s (hash s bytes) (hash s bytes) ≡ true
  unfolding same_hex
  same_hex_self bytes =
      let d = s.from_hex (hash s bytes) in rw (hash-hex64 bytes, (laws.memcmp_iff d d refl).1 refl)

  -- The digest of some bytes is the same as a text only if it is that text.
  pub same_hex-eq :
      (bytes : Bytes) (t : Text) → same_hex s (hash s bytes) t ≡ true → hash s bytes ≡ t
  unfolding same_hex hash
  same_hex-eq bytes t h =
      let (both, compared) = and-eq-true (is_hex64 (to_hex (s.sha256 bytes)) && is_hex64 t) _ h in
      let (left, right) = and-eq-true (is_hex64 (to_hex (s.sha256 bytes))) (is_hex64 t) both in
      let size : length (s.from_hex t) ≡ 32 = omega (
        arith,
        length-to_hex (s.from_hex t),
        ap length (laws.to_hex-from_hex t right),
        (hex64_shape t right).0,
      ) in
      let back = laws.from_hex-to_hex (s.sha256 bytes) (laws.sha256_bytes bytes) in
      let same =
        (laws.memcmp_iff (s.from_hex (to_hex (s.sha256 bytes))) (s.from_hex t)
            (ap length back ∙ laws.sha256_size bytes ∙ sym size)).0
          compared in
      ap to_hex (sym back ∙ same) ∙ laws.to_hex-from_hex t right
