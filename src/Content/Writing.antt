-- ===== src/Content/Writing.antt =====
-- What the writes of `pack` (shared/content.ts) leave in the allocation: the envelope as one
-- concatenation.
use erase_to.Prelude.{
  ℕ, ◌+◌, ◌-◌, ◌≤◌, ◌≡◌, refl, ap, ◌∙◌, List, [], ◌∷◌, ◌++◌, arith, length, replicate,
  length-replicate, length-drop, length-append, drop, drop-append_add, drop-drop,
}
use erase_to.Types.{Bytes, Result, ok, ◌>>=◌}
use erase_to.Wire.{set_at, u16, u32}
use erase_to.Content.Pack.{
  magic, round_up, PackedFile, file_bytes, files_bytes, write_files, write_envelope,
}
use erase_to.Content.Parts.{
  parts_then, file_parts, files_then, logical_length, envelope_then, set_next, parts_then-append,
  length-parts_then, file_bytes_lem, write_files_lem,
}

-- What is left of the allocation behind the header, the text and the files.
drops_of_allocation :
    (t f : ℕ) (pad : Bytes)
    → drop f (drop t (drop 2 (drop 4 (drop 4 (drop 4 (replicate (14 + t + f) 0 ++ pad)))))) ≡ pad
drops_of_allocation t f pad = rw (
  drop-drop 4 4 (replicate (14 + t + f) 0 ++ pad),
  drop-drop 4 8 (replicate (14 + t + f) 0 ++ pad),
  drop-drop 2 12 (replicate (14 + t + f) 0 ++ pad),
  drop-drop t 14 (replicate (14 + t + f) 0 ++ pad),
  drop-drop f (14 + t) (replicate (14 + t + f) 0 ++ pad),
  drop-append_add (replicate (14 + t + f) 0) pad (14 + t + f) 0
      (omega (arith, length-replicate {A = ℕ} (14 + t + f) 0)),
)

module _ (text : Bytes) (files : List PackedFile) (pad : Bytes) where
  abbrev logical : ℕ
  logical = logical_length text files

  abbrev room : Bytes
  room = replicate logical 0 ++ pad

  length-room : length room ≡ logical + length pad
  length-room =
      length-append (replicate logical 0) pad
      ∙ ap (λ (n : ℕ). n + length pad) (length-replicate logical 0)

  -- The five writes of the header and the text.
  abbrev head4 : Bytes
  head4 = magic ++ (u32 logical ++ (u32 (length text) ++ u16 (length files)))

  write_head :
      (k : Bytes → Result Bytes)
      → (do
        p1 ← set_at room 0 magic
        p2 ← set_at p1 4 (u32 logical)
        p3 ← set_at p2 8 (u32 (length text))
        p4 ← set_at p3 12 (u16 (length files))
        p5 ← set_at p4 14 text
        k p5)
        ≡ k ((head4 ++ text) ++ drop (length text) (drop 2 (drop 4 (drop 4 (drop 4 room)))))
  write_head k = rw (
    set_next [] magic room 0 refl (omega (arith, length-room)),
    set_next magic (u32 logical) (drop 4 room) 4 refl
        (omega (arith, length-room, length-drop 4 room)),
    set_next (magic ++ u32 logical) (u32 (length text)) (drop 4 (drop 4 room)) 8 refl
        (omega (arith, length-room, length-drop 4 room, length-drop 4 (drop 4 room))),
    set_next (magic ++ (u32 logical ++ u32 (length text))) (u16 (length files))
        (drop 4 (drop 4 (drop 4 room))) 12 refl
        (omega (
          arith,
          length-room,
          length-drop 4 room,
          length-drop 4 (drop 4 room),
          length-drop 4 (drop 4 (drop 4 room)),
        )),
    set_next head4 text (drop 2 (drop 4 (drop 4 (drop 4 room)))) 14 refl (
        omega (
          arith,
          length-room,
          length-drop 4 room,
          length-drop 4 (drop 4 room),
          length-drop 4 (drop 4 (drop 4 room)),
          length-drop 2 (drop 4 (drop 4 (drop 4 room))),
        )),
  )

  length-left :
      files_bytes files ≤ length (drop (length text) (drop 2 (drop 4 (drop 4 (drop 4 room)))))
  length-left = omega (
    arith,
    length-room,
    length-drop 4 room,
    length-drop 4 (drop 4 room),
    length-drop 4 (drop 4 (drop 4 room)),
    length-drop 2 (drop 4 (drop 4 (drop 4 room))),
    length-drop (length text) (drop 2 (drop 4 (drop 4 (drop 4 room)))),
  )

-- The writes of `pack` all lie within the allocation, and leave the envelope in front of the padding.
pub write_envelope_lem :
    (random : ℕ → Bytes) (text : Bytes) (files : List PackedFile)
    → write_envelope random text files
      ≡ ok (
          envelope_then text files
            (random (round_up (logical_length text files) - logical_length text files)))
unfolding write_envelope
write_envelope_lem random text files =
    let pad = random (round_up (logical_length text files) - logical_length text files) in
    let left = drop (length text) (drop 2 (drop 4 (drop 4 (drop 4 (room text files pad))))) in
    write_head text files pad (λ p. write_files p (14 + length text) files)
    ∙ write_files_lem files (head4 text files pad ++ text) left (14 + length text)
        (omega (arith, length-append (head4 text files pad) text)) (length-left text files pad)
    ∙ rw (drops_of_allocation (length text) (files_bytes files) pad)

length-file_then :
    (f : PackedFile) (rest : Bytes)
    → length (parts_then (file_parts f) rest) ≡ file_bytes f + length rest
length-file_then f rest =
    ap length (parts_then-append (file_parts f) rest)
    ∙ length-append (parts_then (file_parts f) []) rest
    ∙ ap (λ (n : ℕ). n + length rest) (length-parts_then (file_parts f) ∙ file_bytes_lem f)

length-files_then :
    (files : List PackedFile) (rest : Bytes)
    → length (files_then files rest) ≡ files_bytes files + length rest
length-files_then [] rest = omega arith
length-files_then (f ∷ fs) rest =
    omega (arith, length-file_then f (files_then fs rest), length-files_then fs rest)

pub length-envelope_then :
    (text : Bytes) (files : List PackedFile) (rest : Bytes)
    → length (envelope_then text files rest) ≡ logical_length text files + length rest
length-envelope_then text files rest =
    omega (arith, length-append text (files_then files rest), length-files_then files rest)
