-- ===== src/Protocol/Passphrase.antt =====
-- shared/index.ts: a created package, opened with another passphrase.
use erase_to.Prelude.{
  ℕ, ◌≡◌, ◌≢◌, ◌⊎◌, inl, inr, refl, sym, ap, ◌∙◌, subst, Option, none, some, ◌∷◌, ◌++◌, arith, ltb,
  ◌==◌, Bool-cases, Option-cases, if◌then◌else◌, list_eq, length,
}
use erase_to.Types.{
  Text, Bytes, Header, ContentInput, Result, ok, err, ErrorCode, ◌>>=◌, Result-cases, argon2id,
  wrong_passphrase, invalid_passphrase, invalid_package, sodium_error,
}
use erase_to.Json.{Json, object}
use erase_to.Encoding.Utf8.{encode, encode_text, utf8, decode_from, start}
use erase_to.Encoding.Base64Url.{to_base64url, from_base64url}
use erase_to.Encoding.Header.{header_text, serialize_header}
use erase_to.Encoding.HeaderRoundTrip.{header_members}
use erase_to.Content.Names.{Unicode}
use erase_to.Protocol.{
  Sodium, Randomness, CreateOptions, CreatedNote, ContentKeys, hash, content_keys, draft_header,
  create, confirm_read, prepare_open, kdf_for, derived, password_key, argon_opslimit,
  argon_memory_bytes,
}
use erase_to.Protocol.Laws.{SodiumLaws, IsRandom, encoded, decoded}
use erase_to.Protocol.Opening.{create-IsCreated, reads_header}
use erase_to.Protocol.Access.{
  made_header, made-IsHeader, check_access_lem, same_keys, seal-IsSealed,
}
use erase_to.Protocol.Refusal.{wrong_read}

-- The code for a stretched passphrase that does not fit, or that libsodium did not stretch.
abbrev unstretched : Option Bytes → ErrorCode
unstretched none = sodium_error
unstretched (some key) = wrong_passphrase

module _ (s : Sodium) (salt : Bytes) where
  -- The code with which an encoded passphrase is refused that does not fit.
  abbrev refusal_of : Result Bytes → ErrorCode
  refusal_of (err code) = invalid_package
  refusal_of (ok password) =
      if ltb 1024 (length password)
      then invalid_passphrase
      else if length password == 0
      then wrong_passphrase
      else unstretched (s.pwhash 32 password salt argon_opslimit argon_memory_bytes)

  -- The code with which a passphrase is refused that does not fit: `invalid_passphrase` for more than
  -- 1024 code units or bytes, `invalid_package` for a text that is not well-formed, libsodium's error if
  -- it has no memory to stretch it, and `wrong_passphrase` for all others, the empty one too.
  abbrev pub refusal : Text → ErrorCode
  refusal wrong =
      if ltb 1024 (length wrong) then invalid_passphrase else refusal_of (encode_text wrong)

same_code :
    (code : ErrorCode)
    → ◌≡◌ {A = Result Bytes} (err invalid_package) (err code)
    → code ≡ invalid_package
same_code code e = cc

returned : (bytes : Bytes) (code : ErrorCode) → ok bytes ≢ err code
returned bytes code e = cc

ill_formed : (text : Text) (code : ErrorCode) → encode_text text ≡ err code → code ≡ invalid_package
unfolding encode_text utf8
ill_formed text code e = elim (Option-cases (decode_from start (encode text))) [
  | inl broken ↦
      let here : encode_text text ≡ err invalid_package = rw (encode_text, utf8, broken) refl in
      same_code code (sym here ∙ e)
  | inr (back, found) ↦ elim (Bool-cases (list_eq back text)) [
    | inl same ↦
        let here : encode_text text ≡ ok (encode text) = rw (encode_text, utf8, found, same) refl in
        absurd (returned (encode text) code (sym here ∙ e))
    | inr differ ↦
        let here : encode_text text ≡ err invalid_package =
          rw (encode_text, utf8, found, differ) refl in
        same_code code (sym here ∙ e)
  ]
]

module _ (s : Sodium) where
  -- With a salt, the keys of a passphrase are derived, or it is refused.
  keys_or_refusal :
      (secret : Text) (h : Header) (wrong : Text) (master salt : Bytes)
      → from_base64url secret (some 32) 32 ≡ ok master
      → h.kdf ≡ argon2id
      → from_base64url h.salt (some 16) 16 ≡ ok salt
      → (content_keys s secret h wrong ≡ err (refusal s salt wrong))
        ⊎ ((keys : ContentKeys) × (content_keys s secret h wrong ≡ ok keys)
            × (refusal s salt wrong ≡ wrong_passphrase))
  unfolding content_keys password_key
  keys_or_refusal secret h wrong master salt known stretches salted =
      elim (Bool-cases (ltb 1024 (length wrong))) [
        | inl long ↦ inl (rw long refl)
        | inr short ↦ elim (Result-cases (encode_text wrong)) [
          | inl (code, e) ↦ inl (rw (short, known, e) (ap err (ill_formed wrong code e)))
          | inr (password, e) ↦ elim (Bool-cases (ltb 1024 (length password))) [
            | inl long ↦ inl (rw (short, known, e, long) refl)
            | inr fits ↦ elim (Bool-cases (length password == 0)) [
              | inl empty ↦ inl (rw (short, known, e, fits, stretches, empty) refl)
              | inr present ↦
                  elim (Option-cases
                    (s.pwhash 32 password salt argon_opslimit argon_memory_bytes)) [
                      | inl broken ↦
                          inl (rw (short, known, e, fits, stretches, present, salted, broken) refl)
                      | inr (key, made) ↦ inr (
                        derived s h (master ++ key),
                        rw (short, known, e, fits, stretches, present, salted, made) refl,
                        rw (short, e, fits, present, made) refl,
                      )
                    ]
            ]
          ]
        ]
      ]

module _ (s : Sodium) (laws : SodiumLaws s) (json : Text → Option Json) (u : Unicode)
    (r : Randomness) (random : IsRandom r) where
  -- With the secret of a note and its header, the keys of any text are derived, or it is refused.
  made_keys :
      (options : CreateOptions) (peek read : Bytes) (wrong : Text) (c : ℕ) (rest : Text)
      → options.passphrase ≡ c ∷ rest
      → (content_keys s (to_base64url r.master) (made_header s r options peek read) wrong
          ≡ err (refusal s r.salt wrong))
        ⊎ ((keys : ContentKeys) × (content_keys s
                (to_base64url r.master)
                (made_header s r options peek read)
                wrong
              ≡ ok keys)
            × (refusal s r.salt wrong ≡ wrong_passphrase))
  unfolding draft_header
  made_keys options peek read wrong c rest given =
      keys_or_refusal s (to_base64url r.master) (made_header s r options peek read) wrong r.master
        r.salt
        (decoded 32 (to_base64url r.master) r.master
          (encoded 32 r.master (omega arith) random.master_size random.master_bytes))
        (ap kdf_for given)
        (rw given (
          decoded 16 (to_base64url r.salt) r.salt
            (encoded 16 r.salt (omega arith) random.salt_size random.salt_bytes)))

  -- A package that was created with a passphrase is not opened with any text from which no read token
  -- is derived that has the digest in the header: `prepareOpen` gives out no token and fails, with the
  -- code `invalid_passphrase` for a text of more than 1024 code units, else with `invalid_package` for
  -- one that is not well-formed, else with `invalid_passphrase` for one of more than 1024 bytes,
  -- with libsodium's error for one that it has no memory to stretch, and with `wrong_passphrase` for every
  -- other one, the empty text too. JSON.parse is taken to read the header's own text.
  pub prepare_open_wrong :
      (input : ContentInput) (options : CreateOptions) (note : CreatedNote) (c : ℕ) (rest : Text)
      → options.passphrase ≡ c ∷ rest
      → json (header_text note.header) ≡ some (object (header_members note.header))
      → create s u r input options ≡ ok note
      → (wrong : Text)
      → ((keys : ContentKeys)
          → content_keys s note.secret note.header wrong ≡ ok keys
          → hash s keys.read ≢ note.header.read)
      → prepare_open s json (to_base64url (serialize_header note.header)) note.secret note.id wrong
        ≡ err (refusal s r.salt wrong)
  unfolding prepare_open draft_header
  prepare_open_wrong input options note c rest given reads e wrong others =
      let i = create-IsCreated s u r input options note e in
      let h = made_header s r options i.peek i.keys.read in
      let v = made-IsHeader s laws r random options i.peek i.keys.read i.ttl i.views in
      let n =
        seal-IsSealed s laws r random options i.peek i.keys.read i.keys.key i.clear note i.sealed in
      let reads' : json (header_text h) ≡ some (object (header_members h)) =
        subst (λ (k : Header). json (header_text k) ≡ some (object (header_members k))) n.header
          reads in
      let (taken, parsed) = reads_header json h v reads' in
      let others' : (keys : ContentKeys)
          → content_keys s (to_base64url r.master) h wrong ≡ ok keys
          → hash s keys.read ≢ h.read =
        λ keys keyed.
          subst (λ (k : Header). hash s keys.read ≢ k.read) n.header
            (others keys (
              ap (λ (k : Header). content_keys s note.secret k wrong) n.header
              ∙ ap (λ (t : Text). content_keys s t h wrong) n.secret
              ∙ keyed)) in
      let confirm =
        λ (k : Result ContentKeys). k >>= λ found. confirm_read s h (serialize_header h) found in
      rw (n.header, n.secret, n.id, taken, parsed)
        (check_access_lem s laws r random options i.peek i.keys.read wrong (serialize_header h)
            i.peeked
          ∙ ap confirm (
              sym (
                same_keys s laws r random options i.peek i.keys.read (to_base64url r.master) wrong))
          ∙ elim (made_keys options i.peek i.keys.read wrong c rest given) [
            | inl refused ↦ ap confirm refused
            | inr (keys, keyed, code) ↦
                ap confirm keyed
                ∙ wrong_read s laws json h (serialize_header h) keys (ap kdf_for given)
                    (others' keys keyed)
                ∙ ap err (sym code)
          ])
