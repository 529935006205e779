-- ===== src/Content/Tests.antt =====
-- Runs of the envelope, and its theorems at concrete inputs.
use erase_to.Prelude.{ℕ, ◌≡◌, refl, [], ◌∷◌, codes, replicate, length-replicate}
use erase_to.Types.{
  Bytes, FileInput, ContentInput, ok, err, empty_content, duplicate_filename, invalid_filename,
}
use erase_to.Content.AsciiOnly.{ascii_only, ascii_laws}
use erase_to.Content.Names.{normalize_filename}
use erase_to.Content.Pack.{PackedFile, pack}
use erase_to.Content.Unpack.{unpack}
use erase_to.Content.Parts.{envelope_then}
use erase_to.Content.Packing.{canonical}
use erase_to.Content.RoundTrip.{unpack-pack}

abbrev sevens : ℕ → Bytes
sevens n = replicate n 7

abbrev note : FileInput
note = record { name = codes "Note.txt"; mime = []; content = 1 ∷ 2 ∷ 3 ∷ [] }

abbrev sample : ContentInput
sample = record { text = codes "hi"; files = note ∷ [] }

abbrev packed_note : PackedFile
packed_note = record {
  name = codes "Note.txt";
  mime = codes "application/octet-stream";
  content = 1 ∷ 2 ∷ 3 ∷ [];
}

abbrev sample_padded : Bytes
sample_padded = envelope_then (codes "hi") (packed_note ∷ []) (sevens 4037)

pack_runs : pack ascii_only sevens sample ≡ ok sample_padded
unfolding pack
pack_runs = refl

unpack-pack_example : unpack ascii_only sample_padded ≡ ok (canonical ascii_only sample)
unpack-pack_example =
    unpack-pack ascii_only ascii_laws sevens (λ n. length-replicate n 7) sample
      {padded = sample_padded} pack_runs

pack_empty : pack ascii_only sevens (record { text = []; files = [] }) ≡ err empty_content
unfolding pack
pack_empty = refl

pack_twice :
    pack ascii_only sevens (record { text = []; files = note ∷ note ∷ [] }) ≡ err duplicate_filename
unfolding pack
pack_twice = refl

device_refused : normalize_filename ascii_only (codes "con.txt") ≡ err invalid_filename
unfolding normalize_filename
device_refused = refl
