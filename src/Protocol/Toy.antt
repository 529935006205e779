-- ===== src/Protocol/Toy.antt =====
-- An instance of the parameters of shared/index.ts: primitives without any secrecy that satisfy the
-- laws, so that the protocol can be run.
use erase_to.Prelude.{
  ℕ, zero, suc, ◌+◌, ◌-◌, ◌*◌, ◌/◌, ◌%◌, ◌<◌, ◌≡◌, refl, ap, true, Option, some, [], ◌∷◌, ◌++◌,
  arith, leb, ◌==◌, ==_iff, and-eq-true, if◌then◌else◌, list_eq, list_eq_self, list_eq→eq, length,
  all, All, replicate, length-replicate, length-append, take, drop, take-append,
}
use erase_to.Types.{Text, Bytes, Header}
use erase_to.Digits.{hex_char, to_hex}
use erase_to.Json.{Json, object}
use erase_to.Encoding.Base64Laws.{IsByte}
use erase_to.Encoding.Header.{is_hex, is_hex64}
use erase_to.Encoding.HeaderRoundTrip.{header_members}
use erase_to.Protocol.{Sodium, Randomness}
use erase_to.Protocol.Laws.{SodiumLaws, IsRandom}

-- The first n bytes, filled up with zeros.
abbrev first_bytes : ℕ → Bytes → Bytes
first_bytes zero bytes = []
first_bytes (suc n) [] = 0 ∷ first_bytes n []
first_bytes (suc n) (b ∷ bytes) = (b % 256) ∷ first_bytes n bytes

length-first_bytes : (n : ℕ) (bytes : Bytes) → length (first_bytes n bytes) ≡ n
length-first_bytes zero bytes = refl
length-first_bytes (suc n) [] = omega (arith, length-first_bytes n [])
length-first_bytes (suc n) (b ∷ bytes) = omega (arith, length-first_bytes n bytes)

first_bytes-IsByte : (n : ℕ) (bytes : Bytes) → All IsByte (first_bytes n bytes)
first_bytes-IsByte zero bytes = tt
first_bytes-IsByte (suc n) [] = (omega arith, first_bytes-IsByte n [])
first_bytes-IsByte (suc n) (b ∷ bytes) = (omega arith, first_bytes-IsByte n bytes)

abbrev hex_value : ℕ → ℕ
hex_value c = if leb b'a' c then c - b'a' + 10 else c - b'0'

abbrev from_hex : Text → Bytes
from_hex [] = []
from_hex (c ∷ []) = []
from_hex (c ∷ d ∷ s) = (hex_value c * 16 + hex_value d) ∷ from_hex s

value_char : (n : ℕ) → n < 16 → hex_value (hex_char n) ≡ n
value_char n h = ground arith

char_value : (c : ℕ) → is_hex c ≡ true → hex_char (hex_value c) ≡ c
char_value c h = ground arith

value_small : (c : ℕ) → is_hex c ≡ true → hex_value c < 16
value_small c h = ground arith

from_hex-to_hex : (bytes : Bytes) → All IsByte bytes → from_hex (to_hex bytes) ≡ bytes
unfolding to_hex
from_hex-to_hex [] h = refl
from_hex-to_hex (b ∷ bytes) (h, hs) =
    let whole : b / 16 * 16 + b % 16 ≡ b = omega arith in
    rw (
      value_char (b / 16) (omega (arith, h)),
      value_char (b % 16) (omega arith),
      whole,
      from_hex-to_hex bytes hs,
    )

to_hex-from_hex :
    (k : ℕ) (t : Text) → length t ≡ k + k → all is_hex t ≡ true → to_hex (from_hex t) ≡ t
unfolding to_hex
to_hex-from_hex k [] e h = refl
to_hex-from_hex zero (c ∷ []) e h = absurd (omega (arith, e))
to_hex-from_hex (suc k) (c ∷ []) e h = absurd (omega (arith, e))
to_hex-from_hex zero (c ∷ d ∷ t) e h = absurd (omega (arith, e))
to_hex-from_hex (suc k) (c ∷ d ∷ t) e h =
    let (first, more) = and-eq-true (is_hex c) (all is_hex (d ∷ t)) h in
    let (second, rest) = and-eq-true (is_hex d) (all is_hex t) more in
    let small = value_small c first in
    let small' = value_small d second in
    let high : (hex_value c * 16 + hex_value d) / 16 ≡ hex_value c = omega (arith, small, small') in
    let low : (hex_value c * 16 + hex_value d) % 16 ≡ hex_value d = omega (arith, small, small') in
    rw (high, low)
      (rw (char_value c first, char_value d second, to_hex-from_hex k t (omega (arith, e)) rest)
        refl)

back_and_forth : (t : Text) → is_hex64 t ≡ true → to_hex (from_hex t) ≡ t
unfolding is_hex64
back_and_forth t h =
    let (size, hex) = and-eq-true (length t == 64) (all is_hex t) h in
    to_hex-from_hex 32 t ((==_iff (length t) 64).0 size) hex

abbrev sixteen : Bytes
sixteen = replicate 16 0

abbrev without_tag : Bytes → Bytes
without_tag c = take (length c - 16) c

without_tag_lem : (m : Bytes) → without_tag (m ++ sixteen) ≡ m
without_tag_lem m =
    let n : length (m ++ sixteen) - 16 ≡ length m = omega (arith, length-append m sixteen) in
    rw n (take-append m sixteen)

-- The derived keys are the second half of the material, where the passphrase goes in.
abbrev pub toy : Sodium
toy = record {
  sha256 = first_bytes 32;
  from_hex = from_hex;
  memcmp = list_eq;
  pwhash = λ n password salt passes memory. some (first_bytes n password);
  aead_encrypt = λ m ad n k. m ++ sixteen;
  aead_decrypt = λ c ad n k. some (without_tag c);
  hkdf = λ material salt info n. first_bytes n (drop 32 material);
}

pub toy_laws : SodiumLaws toy
toy_laws = record {
  sha256_size = λ b. length-first_bytes 32 b;
  sha256_bytes = λ b. first_bytes-IsByte 32 b;
  from_hex-to_hex = from_hex-to_hex;
  to_hex-from_hex = back_and_forth;
  memcmp_iff = λ a b size. (λ h. list_eq→eq a b h, λ e. rw e (list_eq_self b));
  decrypt-encrypt = λ m ad n k. ap some (without_tag_lem m);
  length-encrypt = λ m ad n k. length-append m sixteen;
  length-hkdf = λ m salt info n. length-first_bytes n (drop 32 m);
}

abbrev pub steady : Randomness
steady = record {
  master = replicate 32 1;
  revoke = replicate 32 2;
  id = replicate 32 3;
  salt = replicate 16 4;
  nonce = replicate 24 5;
  padding = λ n. replicate n 7;
}

replicate-IsByte : (n b : ℕ) → b < 256 → All IsByte (replicate n b)
replicate-IsByte zero b h = tt
replicate-IsByte (suc n) b h = (h, replicate-IsByte n b h)

pub steady-IsRandom : IsRandom steady
steady-IsRandom = record {
  master_size = refl;
  master_bytes = replicate-IsByte 32 1 (omega arith);
  id_size = refl;
  id_bytes = replicate-IsByte 32 3 (omega arith);
  salt_size = refl;
  salt_bytes = replicate-IsByte 16 4 (omega arith);
  nonce_size = refl;
  nonce_bytes = replicate-IsByte 24 5 (omega arith);
  filled = λ n. length-replicate n 7;
}

-- A `JSON.parse` for the text of one header.
abbrev pub json_for : Header → Text → Option Json
json_for h text = some (object (header_members h))
