-- ===== src/Encoding/Headers.antt =====
-- shared/encoding.ts: the successful calls of `parseHeader`.
use erase_to.Prelude.{
  ℕ, ◌+◌, ◌*◌, ◌/◌, ◌≤◌, ◌≡◌, refl, ap, ◌∙◌, true, some, [], ◌++◌, arith, ltb, ◌==◌, ==_iff,
  and-eq-true, length, all, codes, length-append,
}
use erase_to.Types.{Text, Bytes, Kdf, plain, argon2id, Header}
use erase_to.Digits.{decimal}
use erase_to.Encoding.Base64RoundTrip.{Encodes}
use erase_to.Encoding.LinkRoundTrip.{IsKey}
use erase_to.Encoding.Ascii.{
  IsAscii, all-append, all_mono, url-IsAscii, Encodes-url, length-Encodes, decimal-IsAscii,
  length-decimal,
}
use erase_to.Encoding.Header.{kdf_name, quoted, header_text, is_hex, is_hex64}

-- The salt of a derivation.
abbrev pub IsSalt : Kdf → Text → Type 0
IsSalt plain salt = salt ≡ []
IsSalt argon2id salt = (bytes : Bytes) × Encodes salt (some 16) 16 bytes

-- A header whose fields are all in order.
pub record IsHeader (h : Header) : Type 0 where
  pub id_key : IsKey h.id
  pub ttl_from : 60 ≤ h.ttl
  pub ttl_to : h.ttl ≤ 604800
  pub views_from : 1 ≤ h.views
  pub views_to : h.views ≤ 100
  pub peek_hex : is_hex64 h.peek ≡ true
  pub read_hex : is_hex64 h.read ≡ true
  pub revoke_hex : is_hex64 h.revoke ≡ true
  pub salt_right : IsSalt h.kdf h.salt
  pub nonce_bytes : Bytes
  pub nonce_encodes : Encodes h.nonce (some 24) 24 nonce_bytes

hex_ascii : (c : ℕ) → is_hex c ≡ true → ltb c 0x80 ≡ true
hex_ascii c h = ground arith

pub hex64_shape : (s : Text) → is_hex64 s ≡ true → (length s ≡ 64) × IsAscii s
unfolding is_hex64
hex64_shape s h =
    let (size, hex) = and-eq-true (length s == 64) (all is_hex s) h in
    ((==_iff (length s) 64).0 size, all_mono is_hex (λ c. ltb c 0x80) s hex_ascii hex)

key-IsAscii : (s : Text) → IsKey s → (length s ≡ 43) × IsAscii s
key-IsAscii s k =
    let size : length k.bytes ≡ 32 = ground (arith, k.encodes.expected_length) in
    (
      length-Encodes s (some 32) 32 k.bytes k.encodes ∙ ap (λ (n : ℕ). (n * 4 + 2) / 3) size,
      url-IsAscii s (Encodes-url s (some 32) 32 k.bytes k.encodes),
    )

salt-IsAscii : (kdf : Kdf) (s : Text) → IsSalt kdf s → (length s ≤ 22) × IsAscii s
salt-IsAscii plain s e = rw e (omega arith, refl)
salt-IsAscii argon2id s (bytes, e) =
    let size : length bytes ≡ 16 = ground (arith, e.expected_length) in
    (
      omega (arith, length-Encodes s (some 16) 16 bytes e),
      url-IsAscii s (Encodes-url s (some 16) 16 bytes e),
    )

nonce-IsAscii :
    (s : Text) (bytes : Bytes) → Encodes s (some 24) 24 bytes → (length s ≡ 32) × IsAscii s
nonce-IsAscii s bytes e =
    let size : length bytes ≡ 24 = ground (arith, e.expected_length) in
    (
      omega (arith, length-Encodes s (some 24) 24 bytes e),
      url-IsAscii s (Encodes-url s (some 24) 24 bytes e),
    )

kdf_name-IsAscii : (kdf : Kdf) → (length (kdf_name kdf) ≤ 8) × IsAscii (kdf_name kdf)
kdf_name-IsAscii plain = (omega arith, refl)
kdf_name-IsAscii argon2id = (omega arith, refl)

-- Two ASCII texts of bounded length one behind the other.
pub record IsShort (n : ℕ) (s : Text) : Type 0 where
  pub size : length s ≤ n
  pub ascii : IsAscii s

IsShort-append : (m n : ℕ) (xs ys : Text) → IsShort m xs → IsShort n ys → IsShort (m + n) (xs ++ ys)
IsShort-append m n xs ys h k = record {
  size = omega (arith, h.size, k.size, length-append xs ys);
  ascii = all-append (λ c. ltb c 0x80) xs ys h.ascii k.ascii;
}

quoted-IsShort : (n : ℕ) (s : Text) → IsShort n s → IsShort (n + 2) (quoted s)
quoted-IsShort n s h = record {
  size = omega (arith, h.size, length-append s (codes "\""));
  ascii = all-append (λ c. ltb c 0x80) s (codes "\"") h.ascii refl;
}

literal : (n : ℕ) (s : Text) → length s ≤ n → IsAscii s → IsShort n s
literal n s h k = record { size = h; ascii = k }

-- A member with a text for a value, in front of the rest.
part :
    (k m n : ℕ) (key s rest : Text)
    → IsShort k key
    → IsShort m s
    → IsShort n rest
    → IsShort (k + (m + 2 + n)) (key ++ (quoted s ++ rest))
part k m n key s rest h i j =
    IsShort-append k (m + 2 + n) key (quoted s ++ rest) h
      (IsShort-append (m + 2) n (quoted s) rest (quoted-IsShort m s i) j)

-- The header's text is ASCII, and much shorter than the limit.
pub header_text-IsShort : (h : Header) → IsHeader h → IsShort 405 (header_text h)
unfolding header_text
header_text-IsShort h v =
    let (id_size, id) = key-IsAscii h.id v.id_key in
    let (peek_size, peek) = hex64_shape h.peek v.peek_hex in
    let (read_size, read) = hex64_shape h.read v.read_hex in
    let (revoke_size, revoke) = hex64_shape h.revoke v.revoke_hex in
    let (salt_size, salt) = salt-IsAscii h.kdf h.salt v.salt_right in
    let (nonce_size, nonce) = nonce-IsAscii h.nonce v.nonce_bytes v.nonce_encodes in
    let (kdf_size, kdf) = kdf_name-IsAscii h.kdf in
    let last =
      IsShort-append 34 1 (quoted h.nonce) (codes "}")
        (quoted-IsShort 32 h.nonce (record { size = omega arith; ascii = nonce }))
        (literal 1 (codes "}") (omega arith) refl) in
    let nonces =
      IsShort-append 9 35 (codes ",\"nonce\":") _
        (literal 9 (codes ",\"nonce\":") (omega arith) refl) last in
    let salts =
      part 8 22 44 (codes ",\"salt\":") h.salt _ (literal 8 (codes ",\"salt\":") (omega arith) refl)
        (record { size = salt_size; ascii = salt }) nonces in
    let kdfs =
      part 7 8 76 (codes ",\"kdf\":") (kdf_name h.kdf) _
        (literal 7 (codes ",\"kdf\":") (omega arith) refl) (record { size = kdf_size; ascii = kdf })
        salts in
    let revokes =
      part 10 64 93 (codes ",\"revoke\":") h.revoke _
        (literal 10 (codes ",\"revoke\":") (omega arith) refl)
        (record { size = omega arith; ascii = revoke }) kdfs in
    let reads =
      part 8 64 169 (codes ",\"read\":") h.read _
        (literal 8 (codes ",\"read\":") (omega arith) refl)
        (record { size = omega arith; ascii = read }) revokes in
    let peeks =
      part 8 64 243 (codes ",\"peek\":") h.peek _
        (literal 8 (codes ",\"peek\":") (omega arith) refl)
        (record { size = omega arith; ascii = peek }) reads in
    let viewss =
      IsShort-append 3 317 (decimal h.views) _
        (record {
          size = length-decimal 2 h.views (omega (arith, v.views_to));
          ascii = decimal-IsAscii h.views;
        })
        peeks in
    let views_key =
      IsShort-append 9 320 (codes ",\"views\":") _
        (literal 9 (codes ",\"views\":") (omega arith) refl) viewss in
    let ttls =
      IsShort-append 6 329 (decimal h.ttl) _
        (record {
          size = length-decimal 5 h.ttl (omega (arith, v.ttl_to));
          ascii = decimal-IsAscii h.ttl;
        })
        views_key in
    let ttl_key =
      IsShort-append 7 335 (codes ",\"ttl\":") _ (literal 7 (codes ",\"ttl\":") (omega arith) refl)
        ttls in
    let ids =
      IsShort-append 45 342 (quoted h.id) _
        (quoted-IsShort 43 h.id (record { size = omega arith; ascii = id })) ttl_key in
    IsShort-append 18 387 (codes "{\"version\":1,\"id\":") _
      (literal 18 (codes "{\"version\":1,\"id\":") (omega arith) refl) ids
