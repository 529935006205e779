-- ===== src/Protocol/Access.antt =====
-- shared/index.ts: the header, the keys and the packet of a created note.
use erase_to.Prelude.{
  ◌≤◌, ◌≡◌, refl, sym, ap, ◌∙◌, subst, some, [], ◌∷◌, ◌++◌, arith, ltb, ltb→ge, list_eq_self,
  length,
}
use erase_to.Types.{
  Text, Bytes, Header, Result, ok, refuse_if-eq-ok, ◌>>=◌, >>=-eq-ok, invalid_package,
  invalid_passphrase, max_packet_bytes, max_passphrase_bytes,
}
use erase_to.Encoding.Utf8.{encode_text}
use erase_to.Encoding.Base64Url.{to_base64url, from_base64url}
use erase_to.Encoding.Links.{validate_id}
use erase_to.Encoding.Header.{serialize_header}
use erase_to.Encoding.Headers.{IsHeader, IsSalt}
use erase_to.Encoding.Packet.{write_packet}
use erase_to.Encoding.Packets.{packet_of, write_packet_lem}
use erase_to.Protocol.{
  Sodium, Randomness, CreateOptions, CreatedNote, ContentKeys, hash, peek_bytes, password_key,
  derived, content_keys, seal, draft_header, confirm_read, check_access, kdf_for, salt_for,
}
use erase_to.Protocol.Laws.{
  SodiumLaws, IsRandom, encoded, encoded-IsKey, decoded, hash-hex64, same_hex_self,
}

same_bytes : (a b : Bytes) → ◌≡◌ {A = Result Bytes} (ok a) (ok b) → a ≡ b
same_bytes a b e = cc

same_note : (a b : CreatedNote) → ◌≡◌ {A = Result CreatedNote} (ok a) (ok b) → a ≡ b
same_note a b e = cc

same_keys_record : (a b : ContentKeys) → ◌≡◌ {A = Result ContentKeys} (ok a) (ok b) → a ≡ b
same_keys_record a b e = cc

-- The header of a created note.
abbrev pub made_header : Sodium → Randomness → CreateOptions → Bytes → Bytes → Header
made_header s r options peek read = record (draft_header s r options peek) { read = hash s read }

module _ (s : Sodium) (laws : SodiumLaws s) (r : Randomness) (random : IsRandom r) where
  derived_size :
      (header : Header) (material : Bytes) (keys : ContentKeys)
      → ◌≡◌ {A = Result ContentKeys} (ok (derived s header material)) (ok keys)
      → length keys.key ≡ 32
  unfolding derived
  derived_size header material keys e =
      let same = same_keys_record (derived s header material) keys e in
      rw (← same) (laws.length-hkdf material _ _ 32)

  salt_lem : (passphrase : Text) → IsSalt (kdf_for passphrase) (salt_for passphrase r.salt)
  salt_lem [] = refl
  salt_lem (c ∷ p) = (r.salt, encoded 16 r.salt (omega arith) random.salt_size random.salt_bytes)

  pub made-IsHeader :
      (options : CreateOptions) (peek read : Bytes)
      → (60 ≤ options.ttl) × (options.ttl ≤ 604800)
      → (1 ≤ options.views) × (options.views ≤ 100)
      → IsHeader (made_header s r options peek read)
  unfolding draft_header
  made-IsHeader options peek read ttl views = record {
    id_key = encoded-IsKey r.id random.id_size random.id_bytes;
    ttl_from = ttl.0;
    ttl_to = ttl.1;
    views_from = views.0;
    views_to = views.1;
    peek_hex = hash-hex64 s laws peek;
    read_hex = hash-hex64 s laws read;
    revoke_hex = hash-hex64 s laws r.revoke;
    salt_right = salt_lem options.passphrase;
    nonce_bytes = r.nonce;
    nonce_encodes = encoded 24 r.nonce (omega arith) random.nonce_size random.nonce_bytes;
  }

  -- The keys do not depend on the digests in the header.
  pub same_keys :
      (options : CreateOptions) (peek read : Bytes) (secret passphrase : Text)
      → content_keys s secret (made_header s r options peek read) passphrase
        ≡ content_keys s secret (draft_header s r options peek) passphrase
  unfolding content_keys derived
  same_keys options peek read secret passphrase = refl

  -- `prepareOpen` behind the header, with the identifier, the secret and any passphrase.
  pub check_access_lem :
      (options : CreateOptions) (peek : Bytes) (read : Bytes) (passphrase : Text) (b : Bytes)
      → peek_bytes s (to_base64url r.master) (to_base64url r.id) ≡ ok peek
      → check_access s
          (to_base64url r.master)
          (to_base64url r.id)
          passphrase
          b
          (made_header s r options peek read)
        ≡ (content_keys s (to_base64url r.master) (draft_header s r options peek) passphrase
            >>= λ keys. confirm_read s (made_header s r options peek read) b keys)
  unfolding check_access validate_id draft_header
  check_access_lem options peek read passphrase b peeked =
      rw
        (
          decoded 32 (to_base64url r.id) r.id
              (encoded 32 r.id (omega arith) random.id_size random.id_bytes),
          list_eq_self (to_base64url r.id),
          peeked,
          same_hex_self s laws peek,
        )
        (ap
          (λ (k : Result ContentKeys).
            k >>= λ keys. confirm_read s (made_header s r options peek read) b keys)
          (same_keys options peek read (to_base64url r.master) passphrase))

  pub confirm_read_lem :
      (options : CreateOptions) (peek b : Bytes) (keys : ContentKeys)
      → confirm_read s (made_header s r options peek keys.read) b keys
        ≡ ok (record {
          header = made_header s r options peek keys.read;
          header_bytes = b;
          read_token = to_base64url keys.read;
          key = keys.key;
        })
  unfolding confirm_read
  confirm_read_lem options peek b keys = rw (same_hex_self s laws keys.read)

  -- What a sealed note holds.
  pub record IsSealed (h : Header) (key clear : Bytes) (note : CreatedNote) : Type 0 where
    pub packet :
        note.packet
        ≡ packet_of (serialize_header h) (s.aead_encrypt clear (serialize_header h) r.nonce key)
    pub id : note.id ≡ h.id
    pub secret : note.secret ≡ to_base64url r.master
    pub header : note.header ≡ h
    pub fits :
        length
          (packet_of (serialize_header h) (s.aead_encrypt clear (serialize_header h) r.nonce key))
        ≤ max_packet_bytes

  pub seal-IsSealed :
      (options : CreateOptions) (peek read key clear : Bytes) (note : CreatedNote)
      → seal s r (made_header s r options peek read) key clear ≡ ok note
      → IsSealed (made_header s r options peek read) key clear note
  unfolding seal draft_header
  seal-IsSealed options peek read key clear note e =
      let h = made_header s r options peek read in
      let hb = serialize_header h in
      let (nonce, known, e1) = >>=-eq-ok (from_base64url (to_base64url r.nonce) (some 24) 24) _ e in
      let right =
        decoded 24 (to_base64url r.nonce) r.nonce
          (encoded 24 r.nonce (omega arith) random.nonce_size random.nonce_bytes) in
      let same : nonce ≡ r.nonce = same_bytes nonce r.nonce (sym known ∙ right) in
      let (packet, written, e2) =
        >>=-eq-ok (write_packet hb (s.aead_encrypt clear hb nonce key)) _ e1 in
      let whole : packet ≡ packet_of hb (s.aead_encrypt clear hb r.nonce key) =
        same_bytes packet _ (sym written ∙ write_packet_lem hb (s.aead_encrypt clear hb nonce key))
        ∙ ap (λ (n : Bytes). packet_of hb (s.aead_encrypt clear hb n key)) same in
      let (size, e3) =
        refuse_if-eq-ok (ltb max_packet_bytes (length packet)) invalid_package _ e2 in
      let found = same_note _ note e3 in
      record {
        packet = ap (λ (n : CreatedNote). n.packet) (sym found) ∙ whole;
        id = ap (λ (n : CreatedNote). n.id) (sym found);
        secret = ap (λ (n : CreatedNote). n.secret) (sym found);
        header = ap (λ (n : CreatedNote). n.header) (sym found);
        fits =
            subst (λ (p : Bytes). length p ≤ max_packet_bytes) whole
              (ltb→ge max_packet_bytes (length packet) size);
      }

  pub key_size :
      (options : CreateOptions) (peek : Bytes) (passphrase : Text) (keys : ContentKeys)
      → content_keys s (to_base64url r.master) (draft_header s r options peek) passphrase ≡ ok keys
      → length keys.key ≡ 32
  unfolding content_keys
  key_size options peek passphrase keys e =
      let header = draft_header s r options peek in
      let (short, e1) =
        refuse_if-eq-ok (ltb max_passphrase_bytes (length passphrase)) invalid_passphrase _ e in
      let (master, known, e2) =
        >>=-eq-ok (from_base64url (to_base64url r.master) (some 32) 32) _ e1 in
      let (password, encodes, e3) = >>=-eq-ok (encode_text passphrase) _ e2 in
      let (fits, e4) =
        refuse_if-eq-ok (ltb max_passphrase_bytes (length password)) invalid_passphrase _ e3 in
      let (stretched, made, e5) = >>=-eq-ok (password_key s header.kdf header.salt password) _ e4 in
      derived_size header (master ++ stretched) keys e5
