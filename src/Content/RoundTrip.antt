-- ===== src/Content/RoundTrip.antt =====
-- shared/content.ts: `pack` and `unpack` together.
use erase_to.Prelude.{
  ℕ, ◌+◌, ◌-◌, ◌*◌, ◌%◌, ◌≤◌, ◌≡◌, refl, sym, ◌∙◌, false, ◌&&◌, List, [], map, arith, ◌==◌, ge→ltb,
  ==_iff, ==_self, length, take,
}
use erase_to.Types.{
  Text, Bytes, FileInput, ContentInput, ok, max_content_bytes, max_text_bytes, max_files,
}
use erase_to.Wire.{get_u16_at, get_u32_at, drop-after}
use erase_to.Encoding.Utf8.{utf8}
use erase_to.Content.Names.{Unicode, UnicodeLaws}
use erase_to.Content.Pack.{PackedFile, files_bytes, pack, magic, round_up}
use erase_to.Content.Parts.{logical_length, envelope_then, files_then}
use erase_to.Content.Writing.{write_envelope_lem, length-envelope_then}
use erase_to.Content.Reading.{AllPackTo, take_bytes_at, unpack_files_lem}
use erase_to.Content.Packing.{canonical, canonical_file, AllPackTo-bounds, pack-IsPacked}
use erase_to.Content.Unpack.{
  unpack, unpack_body, max_inner_bytes, max_padded_bytes, is_bad_shape, is_bad_header,
}

unpack_body_lem :
    (u : Unicode) (text : Bytes) (value : Text) (files : List FileInput) (packed : List PackedFile)
    (pad : Bytes)
    → utf8 text ≡ ok value
    → AllPackTo u (length text) [] files packed
    → unpack_body u
        (envelope_then text packed pad)
        (logical_length text packed)
        (length text)
        (length packed)
      ≡ ok (record { text = value; files = files })
unfolding unpack_body
unpack_body_lem u text value files packed pad decodes w = rw (
  take_bytes_at (envelope_then text packed pad) (logical_length text packed) 14 text
      (files_then packed pad) refl (omega arith),
  decodes,
  unpack_files_lem u (envelope_then text packed pad) (logical_length text packed) files packed
      (14 + length text) (length text) [] pad w
      (drop-after (envelope_then text packed pad) text (files_then packed pad) 14 refl)
      (omega arith),
  ==_self (14 + length text + files_bytes packed),
)

shape_lem :
    (padded : Bytes)
    → 4096 ≤ length padded
    → length padded ≤ max_padded_bytes
    → length padded % 4096 ≡ 0
    → take 4 padded ≡ magic
    → is_bad_shape padded ≡ false
unfolding is_bad_shape
shape_lem padded h1 h2 h3 h4 = rw (ge→ltb _ _ h1, ge→ltb max_padded_bytes _ h2, h3, h4)

header_lem :
    (size logical text_length count : ℕ)
    → 14 ≤ logical
    → logical ≤ max_inner_bytes
    → logical ≤ size
    → round_up logical ≡ size
    → text_length ≤ max_text_bytes
    → count ≤ max_files
    → (text_length == 0 && count == 0) ≡ false
    → is_bad_header size logical text_length count ≡ false
unfolding is_bad_header
header_lem size logical text_length count h1 h2 h3 h4 h5 h6 h7 = rw (
  ge→ltb logical 14 h1,
  ge→ltb max_inner_bytes logical h2,
  ge→ltb size logical h3,
  (==_iff (round_up logical) size).1 h4,
  ge→ltb max_text_bytes text_length h5,
  ge→ltb max_files count h6,
  h7,
)

length-padded :
    (text : Bytes) (packed : List PackedFile) (pad : Bytes)
    → length pad ≡ round_up (logical_length text packed) - logical_length text packed
    → length (envelope_then text packed pad) ≡ round_up (logical_length text packed)
length-padded text packed pad h = omega (arith, length-envelope_then text packed pad)

-- The checks of `unpack` on the header that `pack` has written.
unpack_lem :
    (u : Unicode) (text : Bytes) (packed : List PackedFile) (pad : Bytes)
    → length text ≤ max_text_bytes
    → length packed ≤ max_files
    → (length text == 0 && length packed == 0) ≡ false
    → files_bytes packed + length text ≤ max_content_bytes + length packed * 390
    → length pad ≡ round_up (logical_length text packed) - logical_length text packed
    → unpack u (envelope_then text packed pad)
      ≡ unpack_body u
          (envelope_then text packed pad)
          (logical_length text packed)
          (length text)
          (length packed)
unfolding unpack
unpack_lem u text packed pad h1 h2 h3 h4 h5 =
    let whole = envelope_then text packed pad in
    let size = length-padded text packed pad h5 in
    rw (
      shape_lem whole (omega (arith, size)) (omega (arith, size)) (omega (arith, size)) refl,
      get_u32_at whole 4 (logical_length text packed) _ refl (omega arith),
      get_u32_at whole 8 (length text) _ refl (omega arith),
      get_u16_at whole 12 (length packed) _ refl (omega arith),
      header_lem (length whole) (logical_length text packed) (length text) (length packed)
          (omega arith) (omega arith) (omega (arith, size)) (sym size) h1 h2 h3,
    )

-- Whatever `pack` accepts, `unpack` reads back from the padded envelope: the text as it was, and
-- each file with its bytes, its name in NFC and its media type in lower case (or the default one).
-- The random source gives as many bytes as it is asked for.
pub unpack-pack :
    (u : Unicode) (laws : UnicodeLaws u) (random : ℕ → Bytes)
    → ((n : ℕ) → length (random n) ≡ n)
    → (input : ContentInput) {padded : Bytes} → pack u random input ≡ ok padded
    → unpack u padded ≡ ok (canonical u input)
unpack-pack u laws random filled input {padded} e =
    let p = pack-IsPacked u laws random input e in
    let files = map (canonical_file u) input.files in
    let pad = random (round_up (logical_length p.text p.files) - logical_length p.text p.files) in
    let same : ok (envelope_then p.text p.files pad) ≡ ok padded =
      sym (write_envelope_lem random p.text p.files) ∙ p.written in
    let same' : envelope_then p.text p.files pad ≡ padded = cc in
    rw (← same') (
      unpack_lem u p.text p.files pad p.text_fits p.count_fits p.not_empty
        (AllPackTo-bounds u files p.files (length p.text) [] p.all_pack
          (omega (arith, p.text_fits)))
        (filled _)
      ∙ unpack_body_lem u p.text input.text files p.files pad p.text_decodes p.all_pack)
