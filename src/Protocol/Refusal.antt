-- ===== src/Protocol/Refusal.antt =====
-- shared/index.ts: the checks of `prepareOpen` on the header and on the derived keys.
use erase_to.Prelude.{
  ◌≡◌, ◌≢◌, inl, inr, refl, not, Option, none, not-eq-false, Bool-cases, list_eq, list_eq→eq,
}
use erase_to.Types.{
  Text, Bytes, argon2id, Header, Result, ok, err, refuse_if-eq-ok, >>=-eq-ok, invalid_package,
  invalid_link, wrong_passphrase, max_header_bytes,
}
use erase_to.Json.{Json}
use erase_to.Encoding.Utf8.{utf8}
use erase_to.Encoding.Base64Url.{to_base64url, from_base64url}
use erase_to.Encoding.Links.{validate_id}
use erase_to.Encoding.Header.{header_text, parse_header}
use erase_to.Encoding.Headers.{IsHeader}
use erase_to.Protocol.{
  Sodium, PreparedOpen, ContentKeys, hash, same_hex, peek_bytes, content_keys, confirm_read,
  check_access, prepare_open, mismatch,
}
use erase_to.Protocol.Laws.{SodiumLaws}
use erase_to.Encoding.HeaderRoundTrip.{parse_header-IsHeader}
use erase_to.Protocol.Laws.{same_hex-eq}

same_prepared : (a b : PreparedOpen) → ◌≡◌ {A = Result PreparedOpen} (ok a) (ok b) → a ≡ b
same_prepared a b e = cc

-- What was verified before a read token was handed out.
pub record IsVerified (s : Sodium) (json : Text → Option Json)
    (secret expected_id passphrase : Text) (p : PreparedOpen) : Type 0 where
  pub header : IsHeader p.header
  pub header_text_right : utf8 p.header_bytes ≡ ok (header_text p.header)
  pub id : p.header.id ≡ expected_id
  pub peek : Bytes
  pub peeked : peek_bytes s secret expected_id ≡ ok peek
  pub peek_right : hash s peek ≡ p.header.peek
  pub keys : ContentKeys
  pub keyed : content_keys s secret p.header passphrase ≡ ok keys
  pub key : p.key ≡ keys.key
  pub token : p.read_token ≡ to_base64url keys.read
  pub read_right : hash s keys.read ≡ p.header.read

module _ (s : Sodium) (laws : SodiumLaws s) (json : Text → Option Json) where
  -- Whenever `prepareOpen` returns, the header is in order, spelled canonically and of the expected
  -- identifier, the key and the read token that are handed out are those that the secret and the
  -- passphrase give, and the header holds the digests of this token's bytes and of the peek key of the
  -- secret.
  pub prepare_open-IsVerified :
      (header64 secret expected_id passphrase : Text) (p : PreparedOpen)
      → prepare_open s json header64 secret expected_id passphrase ≡ ok p
      → IsVerified s json secret expected_id passphrase p
  unfolding prepare_open check_access confirm_read
  prepare_open-IsVerified header64 secret expected_id passphrase p e =
      let (b, taken, e1) = >>=-eq-ok (from_base64url header64 none max_header_bytes) _ e in
      let (h, parsed, e2) = >>=-eq-ok (parse_header json b) _ e1 in
      let (good, spelled) = parse_header-IsHeader json b h parsed in
      let (known, valid_id, e3) = >>=-eq-ok (validate_id expected_id) _ e2 in
      let (same_id, e4) = refuse_if-eq-ok (not (list_eq h.id expected_id)) invalid_package _ e3 in
      let (peek, peeked, e5) = >>=-eq-ok (peek_bytes s secret expected_id) _ e4 in
      let (matching, e6) =
        refuse_if-eq-ok (not (same_hex s (hash s peek) h.peek)) invalid_link _ e5 in
      let (keys, keyed, e7) = >>=-eq-ok (content_keys s secret h passphrase) _ e6 in
      let (verified, e8) =
        refuse_if-eq-ok (not (same_hex s (hash s keys.read) h.read)) (mismatch h.kdf) _ e7 in
      let found = same_prepared _ p e8 in
      rw (← found) (record {
        header = good;
        header_text_right = spelled;
        id = list_eq→eq h.id expected_id (not-eq-false _ same_id);
        peek = peek;
        peeked = peeked;
        peek_right = same_hex-eq s laws peek h.peek (not-eq-false _ matching);
        keys = keys;
        keyed = keyed;
        key = refl;
        token = refl;
        read_right = same_hex-eq s laws keys.read h.read (not-eq-false _ verified);
      })

  pub wrong_read :
      (h : Header) (b : Bytes) (keys : ContentKeys)
      → h.kdf ≡ argon2id
      → hash s keys.read ≢ h.read
      → confirm_read s h b keys ≡ err wrong_passphrase
  unfolding confirm_read
  wrong_read h b keys stretched other = elim (Bool-cases (same_hex s (hash s keys.read) h.read)) [
    | inl same ↦ absurd (other (same_hex-eq s laws keys.read h.read same))
    | inr differ ↦ rw (differ) (rw stretched refl)
  ]
