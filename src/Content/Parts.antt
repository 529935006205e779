-- ===== src/Content/Parts.antt =====
-- What `write_files`, the file loop of `pack` (shared/content.ts), leaves in the allocation.
use erase_to.Prelude.{
  ℕ, ◌+◌, ◌≤◌, ◌≡◌, refl, sym, ap, ◌∙◌, List, [], ◌∷◌, ◌++◌, append_assoc, arith, length,
  length-drop, length-append, drop, drop-drop,
}
use erase_to.Types.{Bytes, ok}
use erase_to.Wire.{set_at, u16, u32, set_at-append}
use native.Mathlib.Nat.{add_assoc}
use erase_to.Content.Pack.{
  write_file, inner_header_bytes, magic, PackedFile, file_bytes, files_bytes, write_parts,
  write_files,
}

-- The encodings in front of `rest`.
abbrev pub parts_then : List Bytes → Bytes → Bytes
parts_then [] rest = rest
parts_then (p ∷ ps) rest = p ++ parts_then ps rest

abbrev pub parts_bytes : List Bytes → ℕ
parts_bytes [] = 0
parts_bytes (p ∷ ps) = length p + parts_bytes ps

abbrev pub file_parts : PackedFile → List Bytes
file_parts f =
    u16 (length f.name)
    ∷ u16 (length f.mime)
    ∷ u32 (length f.content)
    ∷ f.name
    ∷ f.mime
    ∷ f.content
    ∷ []

abbrev pub files_then : List PackedFile → Bytes → Bytes
files_then [] rest = rest
files_then (f ∷ fs) rest = parts_then (file_parts f) (files_then fs rest)

abbrev pub logical_length : Bytes → List PackedFile → ℕ
logical_length text files = inner_header_bytes + length text + files_bytes files

-- The envelope of a text and files in front of `rest`.
abbrev pub envelope_then : Bytes → List PackedFile → Bytes → Bytes
envelope_then text files rest =
    magic
    ++ (u32 (logical_length text files)
        ++ (u32 (length text) ++ (u16 (length files) ++ (text ++ files_then files rest))))

pub set_next :
    (done part rest : Bytes) (offset : ℕ)
    → offset ≡ length done
    → length part ≤ length rest
    → set_at (done ++ rest) offset part ≡ ok ((done ++ part) ++ drop (length part) rest)
set_next done part rest offset e h =
    set_at-append done part rest offset e h ∙ ap ok (sym (append_assoc done part _))

write_parts_lem :
    (parts : List Bytes) (done rest : Bytes) (offset : ℕ)
    → offset ≡ length done
    → parts_bytes parts ≤ length rest
    → write_parts (done ++ rest) offset parts
      ≡ ok (done ++ parts_then parts (drop (parts_bytes parts) rest), offset + parts_bytes parts)
unfolding write_parts
write_parts_lem [] done rest offset e h = let z : offset + 0 ≡ offset = omega arith in rw z
write_parts_lem (p ∷ ps) done rest offset e h = rw (
  set_next done p rest offset e (omega arith),
  write_parts_lem ps (done ++ p) (drop (length p) rest) (offset + length p)
      (omega (arith, length-append done p)) (omega (arith, length-drop (length p) rest)),
  drop-drop (parts_bytes ps) (length p) rest,
  append_assoc done p (parts_then ps (drop (length p + parts_bytes ps) rest)),
  add_assoc offset (length p) (parts_bytes ps),
)

pub parts_then-append :
    (parts : List Bytes) (rest : Bytes) → parts_then parts rest ≡ parts_then parts [] ++ rest
parts_then-append [] rest = refl
parts_then-append (p ∷ ps) rest =
    ap (λ (r : Bytes). p ++ r) (parts_then-append ps rest)
    ∙ sym (append_assoc p (parts_then ps []) rest)

pub length-parts_then : (parts : List Bytes) → length (parts_then parts []) ≡ parts_bytes parts
length-parts_then [] = refl
length-parts_then (p ∷ ps) =
    length-append p (parts_then ps []) ∙ ap (λ (n : ℕ). length p + n) (length-parts_then ps)

-- Writing a file is writing its six parts one behind the other.
write_file-write_parts :
    (padded : Bytes) (offset : ℕ) (f : PackedFile)
    → write_file padded offset f ≡ write_parts padded offset (file_parts f)
unfolding write_file
write_file-write_parts padded offset f =
    let four : offset + 2 + 2 ≡ offset + 4 = omega arith in
    let eight : offset + 4 + 4 ≡ offset + 8 = omega arith in rw (four, eight)

pub file_bytes_lem : (f : PackedFile) → parts_bytes (file_parts f) ≡ file_bytes f
file_bytes_lem f = omega arith

write_file_lem :
    (f : PackedFile) (done rest : Bytes) (offset : ℕ)
    → offset ≡ length done
    → file_bytes f ≤ length rest
    → write_file (done ++ rest) offset f
      ≡ ok (
        (done ++ parts_then (file_parts f) []) ++ drop (file_bytes f) rest,
        offset + file_bytes f,
      )
write_file_lem f done rest offset e h =
    write_file-write_parts (done ++ rest) offset f
    ∙ write_parts_lem (file_parts f) done rest offset e (omega (arith, file_bytes_lem f))
    ∙ rw (
      file_bytes_lem f,
      append_assoc done (parts_then (file_parts f) []) (drop (file_bytes f) rest),
      parts_then-append (file_parts f) (drop (file_bytes f) rest),
    )

pub write_files_lem :
    (files : List PackedFile) (done rest : Bytes) (offset : ℕ)
    → offset ≡ length done
    → files_bytes files ≤ length rest
    → write_files (done ++ rest) offset files
      ≡ ok (done ++ files_then files (drop (files_bytes files) rest))
unfolding write_files
write_files_lem [] done rest offset e h = refl
write_files_lem (f ∷ fs) done rest offset e h = rw (
  write_file_lem f done rest offset e (omega arith),
  write_files_lem fs (done ++ parts_then (file_parts f) []) (drop (file_bytes f) rest)
      (offset + file_bytes f)
      (omega (
        arith,
        length-append done (parts_then (file_parts f) []),
        length-parts_then (file_parts f),
        file_bytes_lem f,
      ))
      (omega (arith, length-drop (file_bytes f) rest)),
  drop-drop (files_bytes fs) (file_bytes f) rest,
  append_assoc done (parts_then (file_parts f) [])
      (files_then fs (drop (file_bytes f + files_bytes fs) rest)),
  parts_then-append (file_parts f) (files_then fs (drop (file_bytes f + files_bytes fs) rest)),
)
