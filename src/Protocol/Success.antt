-- ===== src/Protocol/Success.antt =====
-- shared/index.ts: the calls of `create` that return, and the sizes of their packets.
use erase_to.Prelude.{
  ℕ, ◌+◌, ◌*◌, ◌/◌, ◌≤◌, ◌≡◌, ◌↔◌, ◌⊎◌, inl, inr, refl, sym, ◌∙◌, subst, Option, none, ap, false,
  some, [], ◌∷◌, ◌++◌, arith, ltb, ◌==◌, ge→ltb, ltb→ge, or-eq-false, length, All, codes, replicate,
}
use erase_to.Types.{
  Text, Bytes, Header, ContentInput, Result, ok, wrong_passphrase, refuse_if-eq-ok, >>=-eq-ok,
  invalid_package, invalid_passphrase, max_packet_bytes, max_passphrase_bytes,
}
use erase_to.Encoding.Utf8.{encode, encode_text}
use erase_to.Encoding.Base64Url.{to_base64url, from_base64url}
use erase_to.Encoding.Base64Laws.{IsByte}
use erase_to.Encoding.Lengths.{encode_text-eq-ok, length-le-length-encode}
use erase_to.Encoding.Links.{validate_id}
use erase_to.Encoding.Header.{serialize_header}
use erase_to.Encoding.HeaderRoundTrip.{validate_policy_ok}
use erase_to.Encoding.Packets.{packet_of, write_packet_lem, length-packet_of}
use erase_to.Content.Names.{Unicode, UnicodeLaws}
use erase_to.Content.Pack.{pack}
use erase_to.Content.Unpack.{unpack, is_bad_shape, max_padded_bytes}
use erase_to.Content.Packing.{canonical}
use erase_to.Content.RoundTrip.{unpack-pack}
use erase_to.Protocol.{
  Sodium, Randomness, CreateOptions, CreatedNote, ContentKeys, argon_opslimit, argon_memory_bytes,
  kdf_for, salt_for, stretched, peek_bytes, password_key, derived, content_keys, draft_header, seal,
  create,
}
use erase_to.Protocol.Laws.{SodiumLaws, IsRandom, encoded, decoded}
use erase_to.Protocol.Opening.{serialized, create-IsCreated}
use erase_to.Protocol.Access.{made_header, made-IsHeader, seal-IsSealed}
use erase_to.Protocol.RoundTrip.{unpack_size}

-- What `unpack` reads is not too long.
unpack_bound :
    (u : Unicode) (clear : Bytes) (content : ContentInput)
    → unpack u clear ≡ ok content
    → length clear ≤ max_padded_bytes
unfolding unpack is_bad_shape
unpack_bound u clear content e =
    let (shape, rest) = refuse_if-eq-ok (is_bad_shape clear) invalid_package _ e in
    let (a, magic_right) = or-eq-false _ _ shape in
    let (b, whole) = or-eq-false _ _ a in let (low, high) = or-eq-false _ _ b in ltb→ge _ _ high

-- No passphrase needs to be stretched, or libsodium has the memory for it.
abbrev pub Stretches : Sodium → Bytes → Text → Bytes → Type 0
Stretches s salt passphrase password =
    (passphrase ≡ [])
    ⊎ ((key : Bytes) × (s.pwhash 32 password salt argon_opslimit argon_memory_bytes ≡ some key))

same_bytes : (a b : Bytes) → ◌≡◌ {A = Result Bytes} (ok a) (ok b) → a ≡ b
same_bytes a b e = cc

stretched-eq-ok : (o : Option Bytes) (key : Bytes) → stretched o ≡ ok key → o ≡ some key
stretched-eq-ok none key e = cc
stretched-eq-ok (some k) key e = ap some (same_bytes k key e)

module _ (s : Sodium) (laws : SodiumLaws s) (r : Randomness) (random : IsRandom r) where
  salt_decodes :
      (c : ℕ) (rest : Text) → from_base64url (salt_for (c ∷ rest) r.salt) (some 16) 16 ≡ ok r.salt
  salt_decodes c rest =
      decoded 16 (to_base64url r.salt) r.salt
        (encoded 16 r.salt (omega arith) random.salt_size random.salt_bytes)

  stretches :
      (passphrase : Text) (password : Bytes)
      → encode_text passphrase ≡ ok password
      → Stretches s r.salt passphrase password
      → (key : Bytes) × (password_key s (kdf_for passphrase) (salt_for passphrase r.salt) password
          ≡ ok key)
  unfolding password_key
  stretches [] password e memory = (replicate 32 0, refl)
  stretches (c ∷ rest) password e (inl empty) = absurd (cc)
  stretches (c ∷ rest) password e (inr (key, made)) =
      let (same, back) = encode_text-eq-ok (c ∷ rest) e in
      let some_bytes : 1 ≤ length password =
        rw same (omega (arith, length-le-length-encode (c ∷ rest))) in
      let present : (length password == 0) ≡ false = ground (arith, some_bytes) in
      (key, rw (present, salt_decodes c rest, made) refl)

  password_key-Stretches :
      (passphrase : Text) (password key : Bytes)
      → password_key s (kdf_for passphrase) (salt_for passphrase r.salt) password ≡ ok key
      → Stretches s r.salt passphrase password
  unfolding password_key
  password_key-Stretches [] password key e = inl refl
  password_key-Stretches (c ∷ rest) password key e =
      let (present, e1) = refuse_if-eq-ok (length password == 0) wrong_passphrase _ e in
      let (salt, known, e2) =
        >>=-eq-ok (from_base64url (salt_for (c ∷ rest) r.salt) (some 16) 16) _ e1 in
      let same : salt ≡ r.salt = same_bytes salt r.salt (sym known ∙ salt_decodes c rest) in
      let made =
        stretched-eq-ok (s.pwhash 32 password salt argon_opslimit argon_memory_bytes) key e2 in
      inr (
        key,
        subst (λ (b : Bytes). s.pwhash 32 password b argon_opslimit argon_memory_bytes ≡ some key)
            same made,
      )

  decodes_key :
      (key : Bytes)
      → length key ≡ 32
      → All IsByte key
      → from_base64url (to_base64url key) (some 32) 32 ≡ ok key
  decodes_key key size are_bytes =
      decoded 32 (to_base64url key) key (encoded 32 key (omega arith) size are_bytes)

  peeks : (peek : Bytes) × (peek_bytes s (to_base64url r.master) (to_base64url r.id) ≡ ok peek)
  unfolding peek_bytes validate_id
  peeks = (
    s.hkdf r.master (encode (codes "erase.to/v1/peek:" ++ to_base64url r.id))
        (encode (codes "erase.to/v1/peek")) 32,
    rw
        (
          decodes_key r.id random.id_size random.id_bytes,
          decodes_key r.master random.master_size random.master_bytes,
        )
        refl,
  )

  keys_of :
      (options : CreateOptions) (peek password : Bytes)
      → length options.passphrase ≤ 1024
      → encode_text options.passphrase ≡ ok password
      → length password ≤ 1024
      → Stretches s r.salt options.passphrase password
      → (keys : ContentKeys) × (content_keys s
            (to_base64url r.master)
            (draft_header s r options peek)
            options.passphrase
          ≡ ok keys)
  unfolding content_keys draft_header
  keys_of options peek password short encodes fits memory =
      let (passphrase_key, e) = stretches options.passphrase password encodes memory in
      (
        derived s (draft_header s r options peek) (r.master ++ passphrase_key),
        rw
            (
              ge→ltb 1024 (length options.passphrase) short,
              decodes_key r.master random.master_size random.master_bytes,
              encodes,
              ge→ltb 1024 (length password) fits,
              e,
            )
            refl,
      )

  -- The packet of an envelope that is not too long fits.
  seals :
      (options : CreateOptions) (peek read key clear : Bytes)
      → (60 ≤ options.ttl) × (options.ttl ≤ 604800)
      → (1 ≤ options.views) × (options.views ≤ 100)
      → length clear ≤ max_padded_bytes
      → (note : CreatedNote) × (seal s r (made_header s r options peek read) key clear ≡ ok note)
        × (length note.packet ≤ 2072 + length clear)
  unfolding seal draft_header
  seals options peek read key clear ttl views bound =
      let h = made_header s r options peek read in
      let b = serialized h (made-IsHeader s laws r random options peek read ttl views) in
      let hb = serialize_header h in
      let c = s.aead_encrypt clear hb r.nonce key in
      let size = laws.length-encrypt clear hb r.nonce key in
      let whole = length-packet_of hb c in
      let fits : length (packet_of hb c) ≤ max_packet_bytes =
        omega (arith, whole, size, bound, b.high) in
      let nonce =
        decoded 24 (to_base64url r.nonce) r.nonce
          (encoded 24 r.nonce (omega arith) random.nonce_size random.nonce_bytes) in
      (
        record {
          packet = packet_of hb c;
          id = h.id;
          secret = to_base64url r.master;
          revoke_token = to_base64url r.revoke;
          header = h;
        },
        rw (nonce, write_packet_lem hb c, ge→ltb max_packet_bytes _ fits) refl,
        omega (arith, whole, size, b.high),
      )

  -- What a successful derivation says of the passphrase.
  keyed_passphrase :
      (secret : Text) (header : Header) (passphrase : Text) (keys : ContentKeys)
      → content_keys s secret header passphrase ≡ ok keys
      → (length passphrase ≤ 1024)
        × (password : Bytes) × (encode_text passphrase ≡ ok password)
        × (length password ≤ 1024)
        × (key : Bytes) × (password_key s header.kdf header.salt password ≡ ok key)
  unfolding content_keys
  keyed_passphrase secret header passphrase keys e =
      let (short, e1) =
        refuse_if-eq-ok (ltb max_passphrase_bytes (length passphrase)) invalid_passphrase _ e in
      let (master, known, e2) = >>=-eq-ok (from_base64url secret (some 32) 32) _ e1 in
      let (password, encodes, e3) = >>=-eq-ok (encode_text passphrase) _ e2 in
      let (fits, e4) =
        refuse_if-eq-ok (ltb max_passphrase_bytes (length password)) invalid_passphrase _ e3 in
      let (key, made, e5) = >>=-eq-ok (password_key s header.kdf header.salt password) _ e4 in
      (ltb→ge _ _ short, password, encodes, ltb→ge _ _ fits, key, made)

  -- `create` returns a note exactly when the lifetime is 60 to 604800 seconds, the retrievals are 1 to 100,
  -- the passphrase is a well-formed text of at most 1024 code units and 1024 bytes, and empty unless
  -- libsodium has the memory to stretch it with the salt that was drawn, and `pack` accepts the content:
  -- its keys are not refused for anything else, and the size of its packet never is.
  pub create_returns_iff :
      (u : Unicode) (unicode : UnicodeLaws u) (input : ContentInput) (options : CreateOptions)
      → ((note : CreatedNote) × (create s u r input options ≡ ok note)) ↔ (
          ((60 ≤ options.ttl) × (options.ttl ≤ 604800))
          × ((1 ≤ options.views) × (options.views ≤ 100))
          × (length options.passphrase ≤ 1024)
          × ((password : Bytes) × (encode_text options.passphrase ≡ ok password)
              × (length password ≤ 1024)
              × Stretches s r.salt options.passphrase password)
          × ((clear : Bytes) × (pack u r.padding input ≡ ok clear)))
  unfolding create draft_header
  create_returns_iff u unicode input options = (
    λ (note, e).
        let c = create-IsCreated s u r input options note e in
        let (short, password, encodes, fits, key, made) =
          keyed_passphrase (to_base64url r.master) (draft_header s r options c.peek)
            options.passphrase c.keys c.keyed in
        (
          c.ttl,
          c.views,
          short,
          (password, encodes, fits, password_key-Stretches options.passphrase password key made),
          (c.clear, c.packed),
        ),
    λ (ttl, views, short, (password, encodes, fits, memory), (clear, packed)).
        let bound =
          unpack_bound u clear (canonical u input)
            (unpack-pack u unicode r.padding random.filled input packed) in
        let (peek, peeked) = peeks in
        let (keys, keyed) = keys_of options peek password short encodes fits memory in
        let (note, sealed, size) = seals options peek keys.read keys.key clear ttl views bound in
        (
          note,
          rw
              (
                validate_policy_ok options.ttl options.views ttl.0 ttl.1 views.0 views.1,
                ge→ltb 1024 (length options.passphrase) short,
                packed,
                peeked,
                keyed,
              )
              sealed,
        ),
  )

  -- The packet of a created note is longer than its header by 24 bytes and a whole number, at least one, of
  -- blocks of 4096 bytes, and so shows the length of the content only to the block; it has at most 2072
  -- bytes more than the longest envelope.
  pub packet_size :
      (u : Unicode) (unicode : UnicodeLaws u) (input : ContentInput) (options : CreateOptions)
      (note : CreatedNote)
      → create s u r input options ≡ ok note
      → (blocks : ℕ) × (1 ≤ blocks)
        × (length note.packet ≡ 24 + length (serialize_header note.header) + 4096 * blocks)
        × (length note.packet ≤ 2072 + max_padded_bytes)
  packet_size u unicode input options note e =
      let c = create-IsCreated s u r input options note e in
      let h = made_header s r options c.peek c.keys.read in
      let n =
        seal-IsSealed s laws r random options c.peek c.keys.read c.keys.key c.clear note c.sealed in
      let b =
        serialized h (made-IsHeader s laws r random options c.peek c.keys.read c.ttl c.views) in
      let opens = unpack-pack u unicode r.padding random.filled input c.packed in
      let (low, whole) = unpack_size u c.clear (canonical u input) opens in
      let high = unpack_bound u c.clear (canonical u input) opens in
      let cipher = s.aead_encrypt c.clear (serialize_header h) r.nonce c.keys.key in
      let size = laws.length-encrypt c.clear (serialize_header h) r.nonce c.keys.key in
      let total = length-packet_of (serialize_header h) cipher in
      let packed = ap length n.packet in
      (
        length c.clear / 4096,
        omega (arith, low),
        rw (n.header) (omega (arith, packed, total, size, whole)),
        omega (arith, packed, total, size, high, b.high),
      )
