-- ===== src/Protocol/Tests.antt =====
-- Runs of the protocol, and its theorems at concrete inputs.
use erase_to.Types.{Bytes}
use erase_to.Prelude.{
  ◌≤◌, ◌≡◌, ◌≢◌, ◌↔◌, sym, ◌∙◌, subst, ◌∷◌, refl, true, false, [], list_eq, length, codes,
}
use erase_to.Types.{Result, ok, err, wrong_passphrase, invalid_package}
use erase_to.Encoding.Utf8.{encode}
use erase_to.Encoding.Base64Url.{to_base64url, from_base64url}
use erase_to.Encoding.Header.{header_text, serialize_header, parse_header}
use erase_to.Encoding.HeaderRoundTrip.{parse_header_iff}
use erase_to.Encoding.Headers.{IsHeader}
use erase_to.Prelude.{list_eq-ne}
use erase_to.Content.AsciiOnly.{ascii_only, ascii_laws}
use erase_to.Content.Packing.{canonical}
use erase_to.Protocol.{PreparedOpen, ContentKeys, create, content_keys, prepare_open, decrypt, hash}
use erase_to.Protocol.{peek_bytes, derived, draft_header, password_key, seal}
use erase_to.Encoding.Links.{validate_id}
use erase_to.Encoding.Base64Url.{
  remove_all, replace_all, btoa, sextet_char, check_decoded, atob, sextets_of, strip_one, sextet_of,
  join_sextets,
}
use erase_to.Encoding.Utf8.{
  decode_byte, decode_from, encode_pair, encode_text, encode_unit, first_byte, next_byte, utf8,
}
use erase_to.Encoding.Header.{validate_policy}
use erase_to.Encoding.Packet.{write_packet}
use erase_to.Digits.{decimal, decimal_digits, to_hex}
use erase_to.Wire.{set_at}
use erase_to.Content.Pack.{pack, pack_files, write_envelope, write_file, write_files, write_parts}
use erase_to.Content.Names.{normalize_filename, normalize_mime}
use erase_to.Protocol.RoundTrip.{decrypt-create}
use erase_to.Protocol.Refusal.{IsVerified, prepare_open-IsVerified}
use erase_to.Protocol.Passphrase.{refusal, prepare_open_wrong}
use erase_to.Protocol.Toy.{toy, toy_laws, steady, steady-IsRandom, json_for}
use erase_to.Protocol.Success.{Stretches, create_returns_iff, packet_size}
use erase_to.Protocol.{CreatedNote, create}
use erase_to.Content.Unpack.{max_padded_bytes}
use erase_to.Encoding.Utf8.{encode_text}
use erase_to.Content.Pack.{pack}
use erase_to.Prelude.{ℕ, ◌+◌, ◌*◌}
use erase_to.Protocol.Sample.{greeting, hour, is_ok, ok_or, is_ok-eq, made, created}

decrypt-create_example :
    (p : PreparedOpen) × (prepare_open toy
        (json_for made.header)
        (to_base64url (serialize_header made.header))
        made.secret
        made.id
        (codes "pass")
      ≡ ok p)
    × (decrypt toy (json_for made.header) ascii_only made.packet p
        ≡ ok (canonical ascii_only greeting))
decrypt-create_example =
    decrypt-create toy toy_laws (json_for made.header) ascii_only ascii_laws steady steady-IsRandom
      greeting hour made refl created

prepare_open-IsVerified_example :
    IsVerified toy
      (json_for made.header)
      made.secret
      made.id
      (codes "pass")
      decrypt-create_example.0
prepare_open-IsVerified_example =
    prepare_open-IsVerified toy toy_laws (json_for made.header)
      (to_base64url (serialize_header made.header)) made.secret made.id (codes "pass")
      (decrypt-create_example.0) (decrypt-create_example.1)

abbrev no_keys : ContentKeys
no_keys = record { key = []; read = [] }

guessed : ContentKeys
guessed = ok_or no_keys (content_keys toy made.secret made.header (codes "no"))

is_guessed : is_ok (content_keys toy made.secret made.header (codes "no")) ≡ true
unfolding made create validate_policy pack peek_bytes validate_id from_base64url to_base64url
    remove_all replace_all btoa sextet_char check_decoded atob sextets_of strip_one sextet_of
    join_sextets content_keys normalize_filename pack_files write_envelope write_file write_files
    write_parts decimal decimal_digits to_hex header_text serialize_header write_packet decode_byte
    decode_from encode encode_pair encode_text encode_unit first_byte next_byte utf8 derived
    draft_header hash password_key seal set_at normalize_mime
is_guessed = refl

guessed_keys : content_keys toy made.secret made.header (codes "no") ≡ ok guessed
unfolding guessed
guessed_keys = is_ok-eq no_keys (content_keys toy made.secret made.header (codes "no")) is_guessed

other_digest : list_eq (hash toy guessed.read) made.header.read ≡ false
unfolding guessed made create validate_policy pack peek_bytes validate_id from_base64url
    to_base64url remove_all replace_all btoa sextet_char check_decoded atob sextets_of strip_one
    sextet_of join_sextets content_keys normalize_filename pack_files write_envelope write_file
    write_files write_parts decimal decimal_digits to_hex header_text serialize_header write_packet
    decode_byte decode_from encode encode_pair encode_text encode_unit first_byte next_byte utf8
    derived draft_header hash password_key seal set_at normalize_mime
other_digest = refl

same_guess :
    (keys : ContentKeys) → ◌≡◌ {A = Result ContentKeys} (ok guessed) (ok keys) → guessed ≡ keys
same_guess keys e = cc

all_others :
    (keys : ContentKeys)
    → content_keys toy made.secret made.header (codes "no") ≡ ok keys
    → hash toy keys.read ≢ made.header.read
all_others keys e =
    subst (λ (k : ContentKeys). hash toy k.read ≢ made.header.read)
      (same_guess keys (sym guessed_keys ∙ e))
      (list_eq-ne (hash toy guessed.read) made.header.read other_digest)

refused_as : refusal toy steady.salt (codes "no") ≡ wrong_passphrase
unfolding encode_text encode encode_unit utf8 decode_from decode_byte first_byte
refused_as = refl

refused_empty : refusal toy steady.salt [] ≡ wrong_passphrase
unfolding encode_text encode utf8 decode_from
refused_empty = refl

refused_surrogate : refusal toy steady.salt (0xd800 ∷ []) ≡ invalid_package
unfolding encode_text encode encode_unit utf8 decode_from decode_byte first_byte next_byte
refused_surrogate = refl

prepare_open_wrong_example :
    prepare_open toy
      (json_for made.header)
      (to_base64url (serialize_header made.header))
      made.secret
      made.id
      (codes "no")
    ≡ err (refusal toy steady.salt (codes "no"))
prepare_open_wrong_example =
    prepare_open_wrong toy toy_laws (json_for made.header) ascii_only steady steady-IsRandom
      greeting hour made b'p' (codes "ass") refl refl created (codes "no") all_others

parse_header_iff_example :
    (parse_header (json_for made.header) (serialize_header made.header) ≡ ok made.header) ↔ (
      IsHeader made.header
      × (utf8 (serialize_header made.header) ≡ ok (header_text made.header))
      × (1 ≤ length (serialize_header made.header))
      × (length (serialize_header made.header) ≤ 2048))
parse_header_iff_example =
    parse_header_iff (json_for made.header) (serialize_header made.header) made.header refl

create_returns_iff_example :
    ((note : CreatedNote) × (create toy ascii_only steady greeting hour ≡ ok note)) ↔ (
      ((60 ≤ hour.ttl) × (hour.ttl ≤ 604800))
      × ((1 ≤ hour.views) × (hour.views ≤ 100))
      × (length hour.passphrase ≤ 1024)
      × ((password : Bytes) × (encode_text hour.passphrase ≡ ok password)
          × (length password ≤ 1024)
          × Stretches toy steady.salt hour.passphrase password)
      × ((clear : Bytes) × (pack ascii_only steady.padding greeting ≡ ok clear)))
create_returns_iff_example =
    create_returns_iff toy toy_laws steady steady-IsRandom ascii_only ascii_laws greeting hour

packet_size_example :
    (blocks : ℕ) × (1 ≤ blocks)
    × (length made.packet ≡ 24 + length (serialize_header made.header) + 4096 * blocks)
    × (length made.packet ≤ 2072 + max_padded_bytes)
packet_size_example =
    packet_size toy toy_laws steady steady-IsRandom ascii_only ascii_laws greeting hour made created
