-- ===== src/Proof/Tests.antt =====
-- Runs of the proof of work, and its theorems at concrete inputs.
use erase_to.Prelude.{◌-◌, ◌≡◌, ◌↔◌, refl, true, false, [], ◌∷◌, map, arith, codes}
use erase_to.Types.{Bytes, Challenge, ok}
use erase_to.Encoding.Utf8.{encode, encode_unit}
use erase_to.Proof.{Surroundings, is_good, search}
use erase_to.Proof.Bits.{BeginsWithZeros, digest_bits, is_good_iff}
use erase_to.Proof.Search.{IsFirst, search_iff}

-- A stand-in for the digest: the bytes backwards, less a bias, so that the last digit counts.
abbrev backwards : Bytes → Bytes
backwards bytes = map (λ b. b - 0x37) (mathlib.Core.List.reverse bytes)

abbrev quiet : Surroundings
quiet = record {
  sha256 = backwards;
  aborted_before = λ n. false;
  aborted_after = λ n. false;
  now_before = λ n. 0;
  now_after = λ n. 0;
}

abbrev eight_bits : Challenge
eight_bits = record { challenge = codes "c"; bits = 8; expires_at = 10 }

search_runs : search quiet 20 eight_bits (codes "8") 8 ≡ ok 10
unfolding search encode encode_unit
search_runs = refl

is_good_iff_example :
    (is_good 12 (0 ∷ 0x0f ∷ 0xff ∷ []) ≡ true)
    ↔ BeginsWithZeros 12 (digest_bits (0 ∷ 0x0f ∷ 0xff ∷ []))
is_good_iff_example = is_good_iff 12 (0 ∷ 0x0f ∷ 0xff ∷ []) (omega arith) (omega arith)

search_iff_example :
    (search quiet 20 eight_bits (codes "8") 8 ≡ ok 10)
    ↔ IsFirst quiet eight_bits (codes "8") 8 20 10
search_iff_example = search_iff quiet eight_bits (codes "8") 8 20 10
