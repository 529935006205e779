-- ===== src/Proof.antt =====
-- shared/index.ts: `solveProof`, the search for a nonce whose digest begins with zero bits. SHA-256 is a parameter, and so are the answers of `signal.aborted` and of the
-- clock, which the loop asks for at every 2048th nonce, before and after it yields.
pub mod Bits
pub mod Search
mod Tests
use erase_to.Prelude.{
  ℕ, zero, suc, ◌+◌, ◌-◌, ◌*◌, ◌/◌, ◌%◌, ◌^◌, ◌≤◌, ◌<◌, min, max, ◌≡◌, ◌≢◌, ◌↔◌, ◌⊎◌, inl, inr,
  refl, sym, ap, ◌∙◌, ◌≡⟨◌⟩◌, ◌∎, subst, Bool, true, false, not, ◌&&◌, ◌||◌, Option, none, some,
  List, [], ◌∷◌, ◌++◌, map, append_assoc, append-nil, arith, ltb, leb, ◌==◌, ge→ltb, lt→ltb, ltb→lt,
  ltb→ge, le→leb, leb→le, ==_iff, ==_self, or-eq-false, not-eq-false, and-eq-true, Bool-cases,
  Option-cases, if◌then◌else◌, list_eq, list_eq_self, list_eq→eq, length, all, any, All, codes,
  replicate, length-replicate, length-take, length-map, length-drop, length-append, take, drop,
  take-append, drop-append, drop-append_add, drop-drop, take_all, drop_all, take-append-drop,
}
use erase_to.Types.{
  Text, Bytes, Challenge, Result, ok, err, invalid_challenge, cancelled, proof_expired,
  proof_exhausted, max_safe_integer, refuse_if, ◌>>=◌, ◌>>◌,
}
use erase_to.Json.{Json}
use erase_to.Encoding.Packet.{parse_packet}
use erase_to.Encoding.Utf8.{encode}
use erase_to.Digits.{to_hex, decimal}

abbrev is_challenge_char : ℕ → Bool
is_challenge_char c =
    (leb b'A' c && leb c b'Z')
    || (leb b'a' c && leb c b'z')
    || (leb b'0' c && leb c b'9')
    || c == b'.'
    || c == b'_'
    || c == b'-'

-- The checks on the challenge; numbers are taken to be non-negative.
unfoldable pub is_bad_challenge : Challenge → Bool
is_bad_challenge c =
    not (leb 1 (length c.challenge) && leb (length c.challenge) 512)
    || not (all is_challenge_char c.challenge)
    || ltb 24 c.bits
    || ltb max_safe_integer c.expires_at

-- `for (let i = 0; i < zeroBytes; i++) if (digest[i] !== 0) …`.
unfoldable pub has_zero_bytes : ℕ → Bytes → Bool
has_zero_bytes zero digest = true
has_zero_bytes (suc n) [] = false
has_zero_bytes (suc n) (b ∷ digest) = b == 0 && has_zero_bytes n digest

-- `digest[zeroBytes]`, as a number.
abbrev pub byte_at : ℕ → Bytes → ℕ
byte_at i digest = elim (drop i digest) [ [] ↦ 0 | b ∷ _ ↦ b ]

-- The test of a digest against the number of bits that must be zero.
unfoldable pub is_good : ℕ → Bytes → Bool
unfolding has_zero_bytes
is_good bits digest =
    has_zero_bytes (bits / 8) digest
    && (bits % 8 == 0 || byte_at (bits / 8) digest / 2 ^ (8 - bits % 8) == 0)

-- The surroundings of the search: the digest function, and the answers at a nonce, the first before
-- and the second after the loop yields. Times are in milliseconds.
pub record Surroundings : Type 0 where
  pub sha256 : Bytes → Bytes
  pub aborted_before : ℕ → Bool
  pub aborted_after : ℕ → Bool
  pub now_before : ℕ → ℕ
  pub now_after : ℕ → ℕ

module _ (w : Surroundings) where
  -- What the loop does at every 2048th nonce.
  unfoldable pub pause : ℕ → ℕ → Result (Unit {0})
  pause expires_at nonce =
      if nonce % 2048 == 0
      then (do
        refuse_if (w.aborted_before nonce) cancelled
        refuse_if (leb (expires_at * 1000) (w.now_before nonce)) proof_expired
        refuse_if (w.aborted_after nonce) cancelled
        refuse_if (leb (expires_at * 1000) (w.now_after nonce)) proof_expired)
      else ok tt

  -- The digest of an attempt.
  unfoldable pub attempt : Text → ℕ → Bytes
  unfolding decimal
  attempt prefix nonce = w.sha256 (encode (prefix ++ decimal nonce))

  -- The loop from `nonce` on, for as many rounds as the fuel says; the result is the nonce.
  unfoldable pub search : ℕ → Challenge → Text → ℕ → Result ℕ
  unfolding pause attempt is_good
  search zero c prefix nonce = err proof_exhausted
  search (suc rounds) c prefix nonce = pause c.expires_at nonce >>= λ _.
      elim (is_good c.bits (attempt prefix nonce)) [
        | true ↦ ok nonce
        | false ↦ search rounds c prefix (nonce + 1)
      ]

  -- `${challenge.challenge}.${hash(packet)}.`.
  unfoldable pub proof_prefix : Challenge → Bytes → Text
  unfolding to_hex
  proof_prefix c packet = c.challenge ++ (codes "." ++ (to_hex (w.sha256 packet) ++ codes "."))

  -- `solveProof` behind its check of the packet.
  unfoldable pub solve_proof : (Text → Option Json) → Bytes → Challenge → Result Text
  solve_proof json packet c = do
    parsed ← parse_packet json packet
    refuse_if (is_bad_challenge c) invalid_challenge
    nonce ← search (max_safe_integer + 1) c (proof_prefix c packet) 0
    ok (decimal nonce)
