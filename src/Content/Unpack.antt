-- ===== src/Content/Unpack.antt =====
-- shared/content.ts: `unpack`.
use erase_to.Prelude.{
  ℕ, zero, suc, ◌+◌, ◌*◌, ◌%◌, Bool, not, ◌&&◌, ◌||◌, List, [], ◌∷◌, ltb, ◌==◌, if◌then◌else◌,
  list_eq, length, take,
}
use erase_to.Types.{
  Text, Bytes, FileInput, ContentInput, Result, ok, err, invalid_package, max_content_bytes,
  max_text_bytes, max_files, max_filename_bytes, max_mime_bytes, padding_bytes, refuse_if, ◌>>=◌,
  ◌>>◌,
}
use erase_to.Wire.{slice, get_u16, get_u32}
use erase_to.Encoding.Utf8.{utf8}
use erase_to.Content.Names.{Unicode, member, normalize_filename, normalize_mime}
use erase_to.Content.Pack.{inner_header_bytes, magic, round_up}

abbrev pub max_inner_bytes : ℕ
max_inner_bytes =
    max_content_bytes + inner_header_bytes + max_files * (8 + max_filename_bytes + max_mime_bytes)

abbrev pub max_padded_bytes : ℕ
max_padded_bytes = round_up max_inner_bytes

module _ (padded : Bytes) (logical : ℕ) where
  -- The inner function `take`: the bytes, and the offset behind them.
  unfoldable pub take_bytes : ℕ → ℕ → Result (Bytes × ℕ)
  take_bytes offset count =
      if ltb logical (offset + count)
      then err invalid_package
      else ok (slice offset (offset + count) padded, offset + count)

module _ (u : Unicode) where
  -- The name and the media type of a file must be the ones that `pack` would write, and new.
  unfoldable pub check_canonical : Text → Text → List Text → Result (Unit {0})
  unfolding normalize_filename normalize_mime
  check_canonical name mime names = do
    name' ← normalize_filename u name
    refuse_if (not (list_eq name' name)) invalid_package
    mime' ← normalize_mime u mime
    refuse_if (not (list_eq mime' mime)) invalid_package
    refuse_if (member (u.lower name) names) invalid_package

module _ (u : Unicode) (padded : Bytes) (logical : ℕ) where
  -- One round of the loop, given the three lengths that its header holds: the file and the offset
  -- behind it.
  unfoldable pub unpack_file : ℕ → ℕ → List Text → ℕ → ℕ → ℕ → Result (FileInput × ℕ)
  unfolding take_bytes check_canonical utf8
  unpack_file offset total names name_length mime_length data_length = do
    refuse_if
        (name_length == 0
          || ltb max_filename_bytes name_length
          || mime_length == 0
          || ltb max_mime_bytes mime_length)
        invalid_package
    refuse_if (ltb max_content_bytes (total + data_length)) invalid_package
    (name_bytes, offset1) ← take_bytes padded logical (offset + 8) name_length
    name ← utf8 name_bytes
    (mime_bytes, offset2) ← take_bytes padded logical offset1 mime_length
    mime ← utf8 mime_bytes
    check_canonical u name mime names
    (content, offset3) ← take_bytes padded logical offset2 data_length
    ok (record { name = name; mime = mime; content = content }, offset3)

  -- The loop over the `count` files: the files, and the offset behind the last.
  unfoldable pub unpack_files : ℕ → ℕ → ℕ → List Text → Result (List FileInput × ℕ)
  unfolding unpack_file get_u16 get_u32
  unpack_files zero offset total names = ok ([], offset)
  unpack_files (suc count) offset total names = do
    refuse_if (ltb logical (offset + 8)) invalid_package
    name_length ← get_u16 padded offset
    mime_length ← get_u16 padded (offset + 2)
    data_length ← get_u32 padded (offset + 4)
    (file, offset') ← unpack_file offset total names name_length mime_length data_length
    (files, end) ← unpack_files count offset' (total + data_length) (u.lower file.name ∷ names)
    ok (file ∷ files, end)

  -- What `unpack` does once the header is read and checked.
  unfoldable pub unpack_body : ℕ → ℕ → Result ContentInput
  unfolding unpack_files take_bytes utf8
  unpack_body text_length count = do
    (text_bytes, offset) ← take_bytes padded logical inner_header_bytes text_length
    text ← utf8 text_bytes
    (files, end) ← unpack_files count offset text_length []
    refuse_if (not (end == logical)) invalid_package
    ok (record { text = text; files = files })

-- The checks on the length and the magic number.
unfoldable pub is_bad_shape : Bytes → Bool
is_bad_shape padded =
    ltb (length padded) padding_bytes
    || ltb max_padded_bytes (length padded)
    || not (length padded % padding_bytes == 0)
    || not (list_eq (take 4 padded) magic)

-- The checks on the three lengths in the header, given the length of the whole.
unfoldable pub is_bad_header : ℕ → ℕ → ℕ → ℕ → Bool
is_bad_header size logical text_length count =
    ltb logical inner_header_bytes
    || ltb max_inner_bytes logical
    || ltb size logical
    || not (round_up logical == size)
    || ltb max_text_bytes text_length
    || ltb max_files count
    || (text_length == 0 && count == 0)

unfoldable pub unpack : Unicode → Bytes → Result ContentInput
unpack u padded = do
  refuse_if (is_bad_shape padded) invalid_package
  logical ← get_u32 padded 4
  text_length ← get_u32 padded 8
  count ← get_u16 padded 12
  refuse_if (is_bad_header (length padded) logical text_length count) invalid_package
  unpack_body u padded logical text_length count
