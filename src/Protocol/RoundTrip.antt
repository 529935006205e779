-- ===== src/Protocol/RoundTrip.antt =====
-- shared/index.ts: a created package, opened with its own link and passphrase.
use erase_to.Prelude.{
  ◌-◌, ◌%◌, ◌≤◌, ◌≡◌, refl, ap, ◌∙◌, subst, false, Option, some, arith, ltb→ge, ==_iff, ==_self,
  or-eq-false, not-eq-false, length,
}
use erase_to.Types.{
  Text, Bytes, Header, ParsedPacket, ContentInput, Result, ok, refuse_if-eq-ok, ◌>>=◌,
  invalid_package, max_packet_bytes,
}
use erase_to.Json.{Json, object}
use erase_to.Encoding.Base64Url.{to_base64url, from_base64url}
use erase_to.Encoding.Header.{header_text, serialize_header, parse_header}
use erase_to.Encoding.Headers.{IsHeader}
use erase_to.Encoding.HeaderRoundTrip.{header_members}
use erase_to.Encoding.Packet.{parse_parts}
use erase_to.Encoding.Packets.{packet_of, parse_packet-packet_of}
use erase_to.Content.Names.{Unicode, UnicodeLaws}
use erase_to.Content.Unpack.{unpack, is_bad_shape}
use erase_to.Content.Packing.{canonical}
use erase_to.Content.RoundTrip.{unpack-pack}
use erase_to.Protocol.{
  Sodium, Randomness, CreateOptions, CreatedNote, PreparedOpen, ContentKeys, draft_header, create,
  confirm_read, prepare_open, is_other_package, open_box, decrypt,
}
use erase_to.Protocol.Laws.{SodiumLaws, IsRandom, encoded, decoded}
use erase_to.Protocol.Opening.{create-IsCreated, serialized, reads_header}
use erase_to.Protocol.Access.{
  made_header, made-IsHeader, check_access_lem, confirm_read_lem, seal-IsSealed, key_size,
}

-- An envelope that `unpack` takes fills whole blocks.
pub unpack_size :
    (u : Unicode) (clear : Bytes) (content : ContentInput)
    → unpack u clear ≡ ok content
    → (4096 ≤ length clear) × (length clear % 4096 ≡ 0)
unfolding unpack is_bad_shape
unpack_size u clear content e =
    let (shape, rest) = refuse_if-eq-ok (is_bad_shape clear) invalid_package _ e in
    let (a, magic_right) = or-eq-false _ _ shape in
    let (b, whole) = or-eq-false _ _ a in
    let (low, high) = or-eq-false _ _ b in
    (ltb→ge _ _ low, (==_iff (length clear % 4096) 0).0 (not-eq-false _ whole))

module _ (s : Sodium) (laws : SodiumLaws s) (json : Text → Option Json) (u : Unicode)
    (unicode : UnicodeLaws u) (r : Randomness) (random : IsRandom r) where
  parse_parts_lem :
      (hb cipher : Bytes) (h : Header)
      → (length cipher - 16) % 4096 ≡ 0
      → parse_header json hb ≡ ok h
      → parse_parts json hb cipher
        ≡ ok (record { header = h; header_bytes = hb; ciphertext = cipher })
  unfolding parse_parts
  parse_parts_lem hb cipher h blocks parsed = rw (blocks, parsed)

  is_same_package :
      (prepared : PreparedOpen) (parsed : ParsedPacket)
      → length prepared.key ≡ 32
      → prepared.header_bytes ≡ parsed.header_bytes
      → is_other_package s parsed prepared ≡ false
  unfolding is_other_package
  is_same_package prepared parsed size same =
      let equal = (laws.memcmp_iff parsed.header_bytes parsed.header_bytes refl).1 refl in
      rw (size, same, ==_self (length parsed.header_bytes), equal)

  open_box_lem :
      (parsed : ParsedPacket) (nonce clear key : Bytes)
      → from_base64url parsed.header.nonce (some 24) 24 ≡ ok nonce
      → s.aead_decrypt parsed.ciphertext parsed.header_bytes nonce key ≡ some clear
      → open_box s parsed key ≡ ok clear
  unfolding open_box
  open_box_lem parsed nonce clear key known opens = rw (known, open_box) (rw (opens) refl)

  -- The ciphertext of a padded envelope is decrypted to it, and unpacked.
  decrypt_lem :
      (h : Header) (prepared : PreparedOpen) (nonce clear : Bytes) (content : ContentInput)
      → IsHeader h
      → json (header_text h) ≡ some (object (header_members h))
      → from_base64url h.nonce (some 24) 24 ≡ ok nonce
      → length prepared.key ≡ 32
      → prepared.header_bytes ≡ serialize_header h
      → unpack u clear ≡ ok content
      → length (
          packet_of
            (serialize_header h)
            (s.aead_encrypt clear (serialize_header h) nonce prepared.key))
        ≤ max_packet_bytes
      → decrypt s json u
          (packet_of
            (serialize_header h)
            (s.aead_encrypt clear (serialize_header h) nonce prepared.key))
          prepared
        ≡ ok content
  unfolding decrypt
  decrypt_lem h prepared nonce clear content v reads known size same opens fits =
      let hb = serialize_header h in
      let cipher = s.aead_encrypt clear hb nonce prepared.key in
      let b = serialized h v in
      let (blocks, rest) = unpack_size u clear content opens in
      let long = laws.length-encrypt clear hb nonce prepared.key in
      let parsed : ParsedPacket = record { header = h; header_bytes = hb; ciphertext = cipher } in
      rw (
        parse_packet-packet_of json hb cipher b.low b.high (omega (arith, long, blocks)) fits,
        parse_parts_lem hb cipher h (omega (arith, long, rest)) (reads_header json h v reads).1,
        is_same_package prepared parsed size same,
        open_box_lem parsed nonce clear prepared.key known
            (laws.decrypt-encrypt clear hb nonce prepared.key),
        opens,
      )

  -- A package that was created is opened with its link and its passphrase: `prepareOpen` takes the
  -- header, the secret, the identifier and the passphrase, and `decrypt` then returns the content from
  -- the packet, as `unpack` reads it back. This is under the documented behaviour of libsodium and HKDF,
  -- for random bytes of the right sizes, and if `JSON.parse` reads the header's text as it was written.
  pub decrypt-create :
      (input : ContentInput) (options : CreateOptions) (note : CreatedNote)
      → json (header_text note.header) ≡ some (object (header_members note.header))
      → create s u r input options ≡ ok note
      → (p : PreparedOpen) × (prepare_open s json
            (to_base64url (serialize_header note.header))
            note.secret
            note.id
            options.passphrase
          ≡ ok p)
        × (decrypt s json u note.packet p ≡ ok (canonical u input))
  unfolding prepare_open draft_header
  decrypt-create input options note reads e =
      let c = create-IsCreated s u r input options note e in
      let h = made_header s r options c.peek c.keys.read in
      let v = made-IsHeader s laws r random options c.peek c.keys.read c.ttl c.views in
      let n =
        seal-IsSealed s laws r random options c.peek c.keys.read c.keys.key c.clear note c.sealed in
      let reads' : json (header_text h) ≡ some (object (header_members h)) =
        subst (λ (k : Header). json (header_text k) ≡ some (object (header_members k))) n.header
          reads in
      let p : PreparedOpen = record {
        header = h;
        header_bytes = serialize_header h;
        read_token = to_base64url c.keys.read;
        key = c.keys.key;
      } in
      let (taken, parsed) = reads_header json h v reads' in
      let opens = unpack-pack u unicode r.padding random.filled input c.packed in
      (
        p,
        rw (n.header, n.secret, n.id, taken, parsed)
            (check_access_lem s laws r random options c.peek c.keys.read options.passphrase
                (serialize_header h) c.peeked
              ∙ ap
                  (λ (k : Result ContentKeys).
                    k >>= λ keys. confirm_read s h (serialize_header h) keys)
                  c.keyed
              ∙ confirm_read_lem s laws r random options c.peek (serialize_header h) c.keys),
        rw (n.packet) (
            decrypt_lem h p r.nonce c.clear (canonical u input) v reads'
              (decoded 24 (to_base64url r.nonce) r.nonce
                (encoded 24 r.nonce (omega arith) random.nonce_size random.nonce_bytes))
              (key_size s laws r random options c.peek options.passphrase c.keys c.keyed) refl opens
              n.fits),
      )
