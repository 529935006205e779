-- ===== src/Transport/Tests.antt =====
-- Runs of the bounded readers, and their theorems at concrete inputs.
use erase_to.Prelude.{◌≡◌, ◌↔◌, refl, false, none, some, List, [], ◌∷◌, codes}
use erase_to.Transport.{
  Part, chunk, body, Headers, read_bounded, read_bytes, length_header, expected_web, decimal_from,
  read_parts, make_room, finish_web,
}
use erase_to.Transport.Bodies.{IsBody}
use erase_to.Transport.Readers.{IsAllowed, IsGoodHeader, read_bounded_iff, read_bytes_iff}

abbrev five : Headers
five = record { content_encoding = none; content_length = some (codes "5") }

abbrev packed_five : Headers
packed_five = record { content_encoding = some (codes "gzip"); content_length = some (codes "5") }

abbrev parts : List Part
parts = chunk (1 ∷ 2 ∷ []) ∷ chunk [] ∷ chunk (3 ∷ 4 ∷ 5 ∷ []) ∷ []

read_bounded_runs :
    read_bounded five 8 (some parts)
    ≡ record { outcome = body (1 ∷ 2 ∷ 3 ∷ 4 ∷ 5 ∷ []); cancelled = false }
unfolding read_bounded length_header expected_web decimal_from read_parts make_room finish_web
read_bounded_runs = refl

read_bounded_iff_example :
    (read_bounded five 8 (some parts)
      ≡ record { outcome = body (1 ∷ 2 ∷ 3 ∷ 4 ∷ 5 ∷ []); cancelled = false })
    ↔ (IsAllowed 8 (expected_web (length_header five))
        × IsBody 8 (expected_web (length_header five)) parts (1 ∷ 2 ∷ 3 ∷ 4 ∷ 5 ∷ []))
read_bounded_iff_example = read_bounded_iff five 8 parts (1 ∷ 2 ∷ 3 ∷ 4 ∷ 5 ∷ [])

read_bytes_iff_example :
    (read_bytes packed_five 8 (some parts)
      ≡ record { outcome = body (1 ∷ 2 ∷ 3 ∷ 4 ∷ 5 ∷ []); cancelled = false })
    ↔ (IsGoodHeader 8 (length_header packed_five)
        × IsBody 8 (expected_web (length_header packed_five)) parts (1 ∷ 2 ∷ 3 ∷ 4 ∷ 5 ∷ []))
read_bytes_iff_example = read_bytes_iff packed_five 8 parts (1 ∷ 2 ∷ 3 ∷ 4 ∷ 5 ∷ [])
