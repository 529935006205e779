-- ===== src/Protocol/Opening.antt =====
-- shared/index.ts: `create`, and then `prepareOpen` and `decrypt` with its link and passphrase.
use erase_to.Prelude.{
  ◌≤◌, ◌≡◌, refl, Option, none, some, [], ◌∷◌, arith, ltb, and-eq-true, length, all, All,
}
use erase_to.Types.{
  Text, Bytes, Header, ContentInput, ok, refuse_if-eq-ok, >>=-eq-ok, invalid_passphrase,
  max_passphrase_bytes,
}
use erase_to.Json.{Json, number, object}
use erase_to.Encoding.Utf8.{utf8}
use erase_to.Encoding.Lengths.{encode-ascii}
use erase_to.Encoding.Base64Url.{to_base64url, from_base64url}
use erase_to.Encoding.Base64Laws.{IsByte}
use erase_to.Encoding.Base64RoundTrip.{from_base64url_iff}
use erase_to.Encoding.Ascii.{IsAscii, utf8-encode-ascii}
use erase_to.Encoding.Header.{validate_policy, header_text, serialize_header, parse_header}
use erase_to.Encoding.Headers.{IsHeader, header_text-IsShort}
use erase_to.Encoding.HeaderRoundTrip.{header_members, parse_header_iff, validate_policy-eq-ok}
use erase_to.Content.Names.{Unicode}
use erase_to.Content.Pack.{pack}
use erase_to.Protocol.{
  Sodium, Randomness, CreateOptions, CreatedNote, ContentKeys, hash, peek_bytes, content_keys, seal,
  draft_header, create,
}

ascii-IsByte : (s : Text) → IsAscii s → All IsByte s
ascii-IsByte [] h = tt
ascii-IsByte (c ∷ s) h =
    let (first, rest) = and-eq-true (ltb c 0x80) (all (λ d. ltb d 0x80) s) h in
    (ground arith, ascii-IsByte s rest)

nonempty_text : (h : Header) → 1 ≤ length (header_text h)
unfolding header_text
nonempty_text h = omega arith

-- The bytes of a header that is in order: their number, and that they are bytes.
pub record IsSerialized (h : Header) : Type 0 where
  pub low : 1 ≤ length (serialize_header h)
  pub high : length (serialize_header h) ≤ 2048
  pub are_bytes : All IsByte (serialize_header h)
  pub decodes : utf8 (serialize_header h) ≡ ok (header_text h)

pub serialized : (h : Header) → IsHeader h → IsSerialized h
unfolding serialize_header
serialized h v =
    let short = header_text-IsShort h v in
    let same = encode-ascii (header_text h) short.ascii in
    record {
      low = rw same (nonempty_text h);
      high = rw same (omega (arith, short.size));
      are_bytes = rw same (ascii-IsByte (header_text h) short.ascii);
      decodes = utf8-encode-ascii (header_text h) short.ascii;
    }

-- A header that was encoded for a link is read as itself.
pub reads_header :
    (json : Text → Option Json) (h : Header)
    → IsHeader h
    → json (header_text h) ≡ some (object (header_members h))
    → (from_base64url (to_base64url (serialize_header h)) none 2048 ≡ ok (serialize_header h))
      × (parse_header json (serialize_header h) ≡ ok h)
reads_header json h v reads =
    let b = serialized h v in
    (
      (from_base64url_iff _ none 2048 (serialize_header h)).1 (record {
        encoding = refl;
        are_bytes = b.are_bytes;
        not_empty = b.low;
        fits = b.high;
        expected_length = refl;
      }),
      (parse_header_iff json (serialize_header h) h reads).1 (v, b.decodes, b.low, b.high),
    )

-- What a successful `create` has computed.
pub record IsCreated (s : Sodium) (u : Unicode) (r : Randomness) (input : ContentInput)
    (options : CreateOptions) (note : CreatedNote) : Type 0 where
  pub clear : Bytes
  pub packed : pack u r.padding input ≡ ok clear
  pub peek : Bytes
  pub peeked : peek_bytes s (to_base64url r.master) (to_base64url r.id) ≡ ok peek
  pub keys : ContentKeys
  pub keyed :
      content_keys s (to_base64url r.master) (draft_header s r options peek) options.passphrase
      ≡ ok keys
  pub sealed :
      seal s r (record (draft_header s r options peek) { read = hash s keys.read }) keys.key clear
      ≡ ok note
  pub ttl : (60 ≤ options.ttl) × (options.ttl ≤ 604800)
  pub views : (1 ≤ options.views) × (options.views ≤ 100)

pub create-IsCreated :
    (s : Sodium) (u : Unicode) (r : Randomness) (input : ContentInput) (options : CreateOptions)
    (note : CreatedNote)
    → create s u r input options ≡ ok note
    → IsCreated s u r input options note
unfolding create
create-IsCreated s u r input options note e =
    let (done, policy, e1) =
      >>=-eq-ok (validate_policy (number options.ttl) (number options.views)) _ e in
    let (short, e2) =
      refuse_if-eq-ok (ltb max_passphrase_bytes (length options.passphrase)) invalid_passphrase _
        e1 in
    let (clear, packed, e3) = >>=-eq-ok (pack u r.padding input) _ e2 in
    let (peek, peeked, e4) =
      >>=-eq-ok (peek_bytes s (to_base64url r.master) (to_base64url r.id)) _ e3 in
    let (keys, keyed, e5) =
      >>=-eq-ok
        (content_keys s (to_base64url r.master) (draft_header s r options peek) options.passphrase)
        _ e4 in
    let (ttl, views) = validate_policy-eq-ok (number options.ttl) (number options.views) policy in
    record {
      clear = clear;
      packed = packed;
      peek = peek;
      peeked = peeked;
      keys = keys;
      keyed = keyed;
      sealed = e5;
      ttl = ttl;
      views = views;
    }
