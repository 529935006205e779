-- ===== src/Jobs/Tests.antt =====
-- Runs of the worker's jobs, and its theorems at concrete inputs.
use erase_to.Prelude.{◌+◌, ◌≡◌, ◌⊎◌, refl, true, false, Option, none, some, [], ◌∷◌, codes, drop}
use erase_to.Types.{Text, ok, err, invalid_package}
use erase_to.Encoding.Links.{Url, parse_share_link}
use erase_to.Origins.{Hkdf, CryptoSupport, worker_hkdf}
use erase_to.Proof.{Surroundings}
use erase_to.Protocol.{Sodium, create}
use erase_to.Jobs.{
  load, inspect, prepare, decrypt_packet, unknown, loaded, inspected, access, content, result,
  new_scope, run_job, run_load,
}
use erase_to.Types.{crypto_unavailable}
use erase_to.Encoding.Base64Url.{
  to_base64url, from_base64url, check_decoded, atob, btoa, sextet_char, replace_all, remove_all,
  sextets_of, sextet_of, strip_one, join_sextets,
}
use erase_to.Encoding.Utf8.{
  encode, encode_pair, encode_text, encode_unit, first_byte, next_byte, utf8, decode_byte,
  decode_from,
}
use erase_to.Encoding.Header.{header_text, serialize_header, validate_policy}
use erase_to.Encoding.Links.{
  make_share_link, link_of, is_bad_site, validate_id, parts_of, check_match, match_fragment,
}
use erase_to.Encoding.LinkRoundTrip.{view_url}
use erase_to.Encoding.Packet.{write_packet}
use erase_to.Digits.{decimal, decimal_digits, to_hex}
use erase_to.Wire.{set_at}
use erase_to.Content.AsciiOnly.{ascii_only, ascii_laws}
use erase_to.Content.Names.{normalize_filename, normalize_mime}
use erase_to.Content.Pack.{pack, pack_files, write_envelope, write_file, write_files, write_parts}
use erase_to.Content.Packing.{canonical}
use erase_to.Origins.{native_hkdf}
use erase_to.Protocol.{
  content_keys, peek_bytes, derived, draft_header, hash, password_key, seal as seal_note,
}
use erase_to.Protocol.Toy.{toy, toy_laws, steady, steady-IsRandom, json_for}
use erase_to.Protocol.Sample.{greeting, hour, is_ok, ok_or, is_ok-eq, made, created}
use erase_to.Jobs.Messages.{message, job_ends, perform, run}
use erase_to.Jobs.Codes.{load_codes}
use erase_to.Jobs.Opening.{jobs_open_note}
use erase_to.Jobs.Serial.{answered, underway, answers_each}

abbrev home : Url
home = record {
  protocol = codes "https:";
  username = [];
  password = [];
  origin = codes "https://erase.to";
  pathname = codes "/";
  search = [];
  hash = [];
}

abbrev url_of : Text → Option Url
url_of text = elim (drop 16 text) [ [] ↦ some home | c ∷ rest ↦ some (view_url home (drop 4 rest)) ]

abbrev site : Text
site = codes "https://erase.to"

abbrev browser : CryptoSupport
browser = record { has_random = true; has_subtle = true; random_works = true }

abbrev libs : Hkdf → Sodium
libs hkdf = toy

abbrev quiet : Surroundings
quiet = record {
  sha256 = λ b. b;
  aborted_before = λ n. false;
  aborted_after = λ n. false;
  now_before = λ n. 0;
  now_after = λ n. 0;
}

allowed : worker_hkdf site none true browser ≡ ok native_hkdf
unfolding worker_hkdf
allowed = refl

-- The share link of the note.
link_of_note : Text
link_of_note = ok_or [] (make_share_link url_of site made.id made.secret)

is_linked : is_ok (make_share_link url_of site made.id made.secret) ≡ true
unfolding make_share_link link_of is_bad_site validate_id made create validate_policy pack
    peek_bytes from_base64url to_base64url remove_all replace_all btoa sextet_char check_decoded
    atob sextets_of strip_one sextet_of join_sextets content_keys normalize_filename pack_files
    write_envelope write_file write_files write_parts decimal decimal_digits to_hex header_text
    serialize_header write_packet decode_byte decode_from encode encode_pair encode_text encode_unit
    first_byte next_byte utf8 derived draft_header hash password_key seal_note set_at normalize_mime
is_linked = refl

linked : make_share_link url_of site made.id made.secret ≡ ok link_of_note
unfolding link_of_note
linked = is_ok-eq [] (make_share_link url_of site made.id made.secret) is_linked

jobs_open_note_example :
    (peek_token : Text) × (read_token : Text) × (run libs
        (json_for made.header)
        url_of
        ascii_only
        quiet
        site
        none
        true
        browser
        (message 1 (load link_of_note)
          ∷ job_ends steady
          ∷ message 2 (inspect (to_base64url (serialize_header made.header)))
          ∷ job_ends steady
          ∷ message 3 (prepare (codes "pass"))
          ∷ job_ends steady
          ∷ message 4 (decrypt_packet made.packet)
          ∷ job_ends steady
          ∷ [])
        new_scope
      ≡ record new_scope {
        posted =
            result 4 (content (canonical ascii_only greeting))
            ∷ result 3 (access read_token)
            ∷ result 2 (inspected made.header)
            ∷ result 1 (loaded made.id peek_token)
            ∷ [];
      })
jobs_open_note_example =
    jobs_open_note libs (json_for made.header) url_of ascii_only quiet site none true browser
      native_hkdf allowed toy_laws ascii_laws steady steady-IsRandom greeting hour made home site
      link_of_note steady steady steady steady refl created refl (λ i t h k. refl) linked

no_link :
    (perform libs
      (json_for made.header)
      url_of
      ascii_only
      quiet
      site
      none
      true
      browser
      steady
      (load site)
      new_scope).1
    ≡ err invalid_package
unfolding perform worker_hkdf run_job run_load parse_share_link parts_of is_bad_site match_fragment
    check_match
no_link = refl

load_codes_example : (invalid_package ≡ invalid_package) ⊎ (invalid_package ≡ crypto_unavailable)
load_codes_example =
    load_codes libs (json_for made.header) url_of ascii_only quiet site none true browser steady
      site new_scope invalid_package no_link

answers_each_example :
    answered 7
        (run libs
          (json_for made.header)
          url_of
          ascii_only
          quiet
          site
          none
          true
          browser
          (message 7 (load site) ∷ message 8 unknown ∷ job_ends steady ∷ message 9 unknown ∷ [])
          new_scope).posted
      + underway 7
          (run libs
            (json_for made.header)
            url_of
            ascii_only
            quiet
            site
            none
            true
            browser
            (message 7 (load site) ∷ message 8 unknown ∷ job_ends steady ∷ message 9 unknown ∷ [])
            new_scope).running
    ≡ 1
answers_each_example =
    answers_each libs (json_for made.header) url_of ascii_only quiet site none true browser 7
      (message 7 (load site) ∷ message 8 unknown ∷ job_ends steady ∷ message 9 unknown ∷ [])
