-- ===== src/Protocol/Sample.antt =====
-- A note that shared/index.ts creates with the primitives of Toy.
use erase_to.Prelude.{◌≡◌, refl, Bool, true, false, [], ◌∷◌, codes}
use erase_to.Types.{Text, Bytes, FileInput, ContentInput, Header, Result, ok, err, wrong_passphrase}
use erase_to.Encoding.Utf8.{encode}
use erase_to.Encoding.Base64Url.{to_base64url, from_base64url}
use erase_to.Encoding.Header.{header_text, serialize_header}
use erase_to.Content.AsciiOnly.{ascii_only}
use erase_to.Protocol.{CreateOptions, CreatedNote, create, content_keys, hash}
use erase_to.Protocol.{peek_bytes, derived, draft_header, password_key, seal}
use erase_to.Encoding.Links.{validate_id}
use erase_to.Encoding.Base64Url.{
  remove_all, replace_all, btoa, sextet_char, check_decoded, atob, sextets_of, strip_one, sextet_of,
  join_sextets,
}
use erase_to.Encoding.Utf8.{
  decode_byte, decode_from, encode_pair, encode_text, encode_unit, first_byte, next_byte, utf8,
}
use erase_to.Encoding.Header.{validate_policy}
use erase_to.Encoding.Packet.{write_packet}
use erase_to.Digits.{decimal, decimal_digits, to_hex}
use erase_to.Wire.{set_at}
use erase_to.Content.Pack.{pack, pack_files, write_envelope, write_file, write_files, write_parts}
use erase_to.Content.Names.{normalize_filename, normalize_mime}
use erase_to.Protocol.Toy.{toy, steady}

abbrev pub greeting : ContentInput
greeting = record {
  text = codes "hi";
  files = record { name = codes "a.txt"; mime = codes "TEXT/plain"; content = 9 ∷ [] } ∷ [];
}

abbrev pub hour : CreateOptions
hour = record { ttl = 3600; views = 1; passphrase = codes "pass" }

abbrev pub is_ok {ℓ} : {A : Type ℓ} → Result A → Bool
is_ok (ok a) = true
is_ok (err e) = false

abbrev pub ok_or {ℓ} : {A : Type ℓ} → A → Result A → A
ok_or d (ok a) = a
ok_or d (err e) = d

pub is_ok-eq {ℓ} : {A : Type ℓ} (d : A) (r : Result A) → is_ok r ≡ true → r ≡ ok (ok_or d r)
is_ok-eq d (ok a) h = refl
is_ok-eq d (err e) h = cc

abbrev pub no_note : CreatedNote
no_note = record {
  packet = [];
  id = [];
  secret = [];
  revoke_token = [];
  header = record {
    id = [];
    ttl = 0;
    views = 0;
    peek = [];
    read = [];
    revoke = [];
    kdf = erase_to.Types.plain;
    salt = [];
    nonce = [];
  };
}

unfoldable pub made : CreatedNote
made = ok_or no_note (create toy ascii_only steady greeting hour)

is_made : is_ok (create toy ascii_only steady greeting hour) ≡ true
unfolding create validate_policy pack peek_bytes validate_id from_base64url to_base64url remove_all
    replace_all btoa sextet_char check_decoded atob sextets_of strip_one sextet_of join_sextets
    content_keys normalize_filename pack_files write_envelope write_file write_files write_parts
    decimal decimal_digits to_hex header_text serialize_header write_packet decode_byte decode_from
    encode encode_pair encode_text encode_unit first_byte next_byte utf8 derived draft_header hash
    password_key seal set_at normalize_mime
is_made = refl

pub created : create toy ascii_only steady greeting hour ≡ ok made
unfolding made
created = is_ok-eq no_note (create toy ascii_only steady greeting hour) is_made
