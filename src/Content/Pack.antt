-- ===== src/Content/Pack.antt =====
-- shared/content.ts: `pack`. The bytes of `crypto.getRandomValues` are a parameter.
use erase_to.Prelude.{
  ℕ, ◌+◌, ◌-◌, ◌*◌, ◌/◌, Bool, true, false, ◌&&◌, ◌||◌, List, [], ◌∷◌, ◌++◌, ltb, length, replicate,
}
use erase_to.Types.{
  Text, Bytes, FileInput, ContentInput, Result, ok, invalid_package, too_large, empty_content,
  duplicate_filename, max_content_bytes, max_text_bytes, max_files, padding_bytes, refuse_if, ◌>>=◌,
  ◌>>◌,
}
use erase_to.Wire.{set_at, u16, u32}
use erase_to.Encoding.Utf8.{encode_text}
use erase_to.Content.Names.{Unicode, member, normalize_filename, normalize_mime}

abbrev pub inner_header_bytes : ℕ
inner_header_bytes = 14

-- "ECN1".
abbrev pub magic : Bytes
magic = 69 ∷ 67 ∷ 78 ∷ 49 ∷ []

-- `Math.ceil(n / PADDING_BYTES) * PADDING_BYTES`.
abbrev pub round_up : ℕ → ℕ
round_up n = (n + 4095) / padding_bytes * padding_bytes

-- A file with its name and media type encoded.
pub record PackedFile : Type 0 where
  pub name : Bytes
  pub mime : Bytes
  pub content : Bytes

abbrev pub file_bytes : PackedFile → ℕ
file_bytes f = 8 + length f.name + length f.mime + length f.content

abbrev pub files_bytes : List PackedFile → ℕ
files_bytes [] = 0
files_bytes (f ∷ fs) = file_bytes f + files_bytes fs

abbrev pub is_empty {ℓ} : {A : Type ℓ} → List A → Bool
is_empty [] = true
is_empty (x ∷ xs) = false

module _ (u : Unicode) where
  -- The callback of `input.files.map`: the bytes counted so far, and the folded names seen.
  unfoldable pub pack_files : ℕ → List Text → List FileInput → Result (List PackedFile)
  unfolding normalize_filename normalize_mime encode_text
  pack_files total names [] = ok []
  pack_files total names (file ∷ files) = do
    let total' = total + length file.content
    refuse_if (ltb max_content_bytes total') too_large
    name ← normalize_filename u file.name
    refuse_if (member (u.lower name) names) duplicate_filename
    name_bytes ← encode_text name
    mime ← normalize_mime u file.mime
    mime_bytes ← encode_text mime
    packed ← pack_files total' (u.lower name ∷ names) files
    ok (record { name = name_bytes; mime = mime_bytes; content = file.content } ∷ packed)

-- `for (const part of parts)`: each is set behind the one before.
unfoldable pub write_parts : Bytes → ℕ → List Bytes → Result (Bytes × ℕ)
unfolding set_at
write_parts padded offset [] = ok (padded, offset)
write_parts padded offset (part ∷ parts) = do
  padded' ← set_at padded offset part
  write_parts padded' (offset + length part) parts

-- The body of `for (const file of files)`: the buffer, and the offset behind the file.
unfoldable pub write_file : Bytes → ℕ → PackedFile → Result (Bytes × ℕ)
unfolding write_parts set_at
write_file padded offset file = do
  p1 ← set_at padded offset (u16 (length file.name))
  p2 ← set_at p1 (offset + 2) (u16 (length file.mime))
  p3 ← set_at p2 (offset + 4) (u32 (length file.content))
  write_parts p3 (offset + 8) (file.name ∷ file.mime ∷ file.content ∷ [])

unfoldable pub write_files : Bytes → ℕ → List PackedFile → Result Bytes
unfolding write_file
write_files padded offset [] = ok padded
write_files padded offset (file ∷ files) = do
  (padded', offset') ← write_file padded offset file
  write_files padded' offset' files

-- The allocation, its random padding, and the writes of the envelope. The padding is shorter than
-- 65536 bytes, so one call of the random source fills it.
unfoldable pub write_envelope : (ℕ → Bytes) → Bytes → List PackedFile → Result Bytes
unfolding write_files set_at
write_envelope random text files = do
  let logical = inner_header_bytes + length text + files_bytes files
  let padded = replicate logical 0 ++ random (round_up logical - logical)
  p1 ← set_at padded 0 magic
  p2 ← set_at p1 4 (u32 logical)
  p3 ← set_at p2 8 (u32 (length text))
  p4 ← set_at p3 12 (u16 (length files))
  p5 ← set_at p4 inner_header_bytes text
  write_files p5 (inner_header_bytes + length text) files

-- `random n` stands for `n` bytes of `crypto.getRandomValues`.
unfoldable pub pack : Unicode → (ℕ → Bytes) → ContentInput → Result Bytes
unfolding encode_text pack_files write_envelope
pack u random input = do
  refuse_if (ltb max_text_bytes (length input.text) || ltb max_files (length input.files))
      invalid_package
  text ← encode_text input.text
  refuse_if (ltb max_text_bytes (length text)) too_large
  refuse_if (is_empty text && is_empty input.files) empty_content
  files ← pack_files u (length text) [] input.files
  write_envelope random text files
