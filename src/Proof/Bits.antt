-- ===== src/Proof/Bits.antt =====
-- shared/index.ts: the test of a digest in `solveProof`.
use erase_to.Prelude.{
  ℕ, zero, suc, ◌+◌, ◌-◌, ◌*◌, ◌/◌, ◌%◌, ◌^◌, ◌<◌, ◌≡◌, ◌↔◌, refl, true, ◌&&◌, ◌||◌, List, [], ◌∷◌,
  arith, ◌==◌, ==_iff, and-eq-true, length, All,
}
use erase_to.Types.{Bytes}
use erase_to.Encoding.Base64Laws.{IsByte}
use erase_to.Proof.{has_zero_bytes, byte_at, is_good}

-- The bits of a byte, and of a digest, the highest first.
abbrev pub bits_then : ℕ → List ℕ → List ℕ
bits_then b rest =
    (b / 128 % 2)
    ∷ (b / 64 % 2)
    ∷ (b / 32 % 2)
    ∷ (b / 16 % 2)
    ∷ (b / 8 % 2)
    ∷ (b / 4 % 2)
    ∷ (b / 2 % 2)
    ∷ (b % 2)
    ∷ rest

abbrev pub digest_bits : Bytes → List ℕ
digest_bits [] = []
digest_bits (b ∷ digest) = bits_then b (digest_bits digest)

-- The first `n` of these are there, and zero.
abbrev pub BeginsWithZeros : ℕ → List ℕ → Type 0
BeginsWithZeros zero bits = Unit {0}
BeginsWithZeros (suc n) [] = ⊥
BeginsWithZeros (suc n) (bit ∷ bits) = (bit ≡ 0) × BeginsWithZeros n bits

eight_zeros :
    (b n : ℕ) (rest : List ℕ)
    → b < 256
    → BeginsWithZeros (suc (suc (suc (suc (suc (suc (suc (suc n)))))))) (bits_then b rest)
      ↔ ((b ≡ 0) × BeginsWithZeros n rest)
eight_zeros b n rest h = (
  λ (p0, (p1, (p2, (p3, (p4, (p5, (p6, (p7, p)))))))). (omega arith, p),
  λ p. (
    omega arith,
    (
      omega arith,
      (omega arith, (omega arith, (omega arith, (omega arith, (omega arith, (omega arith, p.1)))))),
    ),
  ),
)

few_zeros :
    (r b : ℕ) (rest : List ℕ)
    → b < 256
    → r < 8
    → BeginsWithZeros r (bits_then b rest) ↔ ((r == 0 || b / 2 ^ (8 - r) == 0) ≡ true)
few_zeros zero b rest h lt = (λ p. ground arith, λ e. ground arith)
few_zeros (suc zero) b rest h lt = (λ p. ground arith, λ e. ground arith)
few_zeros (suc (suc zero)) b rest h lt = (λ p. ground arith, λ e. ground arith)
few_zeros (suc (suc (suc zero))) b rest h lt = (λ p. ground arith, λ e. ground arith)
few_zeros (suc (suc (suc (suc zero)))) b rest h lt = (λ p. ground arith, λ e. ground arith)
few_zeros (suc (suc (suc (suc (suc zero))))) b rest h lt = (λ p. ground arith, λ e. ground arith)
few_zeros (suc (suc (suc (suc (suc (suc zero)))))) b rest h lt =
    (λ p. ground arith, λ e. ground arith)
few_zeros (suc (suc (suc (suc (suc (suc (suc zero))))))) b rest h lt =
    (λ p. ground arith, λ e. ground arith)
few_zeros (suc (suc (suc (suc (suc (suc (suc (suc r)))))))) b rest h lt = absurd (omega arith)

good_iff :
    (z r n : ℕ) (digest : Bytes)
    → n ≡ z * 8 + r
    → r < 8
    → z < length digest
    → All IsByte digest
    → ((has_zero_bytes z digest && (r == 0 || byte_at z digest / 2 ^ (8 - r) == 0)) ≡ true)
      ↔ BeginsWithZeros n (digest_bits digest)
unfolding has_zero_bytes
good_iff z r n [] e lt h bytes = absurd (omega arith)
good_iff zero r n (b ∷ digest) e lt h (byte, bytes) =
    let (to, from) = few_zeros r b (digest_bits digest) byte lt in
    let same : n ≡ r = omega arith in rw same (from, to)
good_iff (suc z) r n (b ∷ digest) e lt h (byte, bytes) =
    let m = z * 8 + r in
    let (down, up) = good_iff z r m digest refl lt (omega arith) bytes in
    let (split, join) = eight_zeros b m (digest_bits digest) byte in
    let same : n ≡ suc (suc (suc (suc (suc (suc (suc (suc m))))))) = omega arith in
    rw same (
      λ g.
          let (first, others) = and-eq-true _ _ g in
          let (zero_byte, later) = and-eq-true (b == 0) _ first in
          join ((==_iff b 0).0 zero_byte, down (rw (later) others)),
      λ p. let (zero_byte, others) = split p in rw ((==_iff b 0).1 zero_byte) (up others),
    )

-- A digest passes the test for a number of bits exactly when so many of its first bits are zero.
pub is_good_iff :
    (bits : ℕ) (digest : Bytes)
    → bits / 8 < length digest
    → All IsByte digest
    → (is_good bits digest ≡ true) ↔ BeginsWithZeros bits (digest_bits digest)
unfolding is_good
is_good_iff bits digest h bytes =
    good_iff (bits / 8) (bits % 8) bits digest (omega arith) (omega arith) h bytes
