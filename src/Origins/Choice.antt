-- ===== src/Origins/Choice.antt =====
-- web/src/lib/site.ts and web/src/lib/worker-hkdf.ts: the pages on which the worker encrypts.
use erase_to.Prelude.{
  ◌-◌, ◌≡◌, ◌⊎◌, refl, sym, ap, ◌∙◌, Bool, true, false, not, ◌&&◌, ◌||◌, arith, Option, none, some,
  ◌++◌, inl, inr, list_eq, list_eq→eq, codes, length, length-append, take, drop, take-append,
  Bool-cases, Option-cases, and-eq-true,
}
use erase_to.Types.{Text, Result, ok, err, crypto_unavailable}
use erase_to.Origins.{
  i2p_url, is_hash, canonical_i2p_origin, CryptoSupport, Hkdf, native_hkdf, is_pinned, worker_hkdf,
}

-- The origin of a destination hash, without a final slash.
pub record IsDestination (origin : Text) : Type 0 where
  pub hash : Text
  pub good : is_hash hash ≡ true
  pub shape : origin ≡ i2p_url hash

same_text : (a b : Text) → ◌≡◌ {A = Option Text} (some a) (some b) → a ≡ b
same_text a b e = cc

no_text : (b : Text) → ¬ (◌≡◌ {A = Option Text} none (some b))
no_text b e = cc

-- Cutting off the final slash.
without_slash : (s : Text) → take (length (s ++ codes "/") - 1) (s ++ codes "/") ≡ s
without_slash s =
    let n : length (s ++ codes "/") - 1 ≡ length s = omega (arith, length-append s (codes "/")) in
    rw n (take-append s (codes "/"))

canonical-IsDestination : (s o : Text) → canonical_i2p_origin (some s) ≡ some o → IsDestination o
unfolding canonical_i2p_origin
canonical-IsDestination s o e =
    let hash = take 52 (drop 7 s) in
    elim (Bool-cases (is_hash hash)) [
      | inr bad ↦ absurd (no_text o (rw bad at e))
      | inl good ↦ elim (Bool-cases (list_eq s (i2p_url hash))) [
        | inl plain ↦
            let same = same_text s o (rw (good, plain) at e) in
            record { hash = hash; good = good; shape = sym same ∙ list_eq→eq _ _ plain }
        | inr other ↦ elim (Bool-cases (list_eq s (i2p_url hash ++ codes "/"))) [
          | inl slash ↦
              let same = same_text (take (length s - 1) s) o (rw (good, other, slash) at e) in
              let whole = list_eq→eq s (i2p_url hash ++ codes "/") slash in
              record {
                hash = hash;
                good = good;
                shape =
                    sym same
                    ∙ ap (λ (t : Text). take (length t - 1) t) whole
                    ∙ without_slash (i2p_url hash);
              }
          | inr neither ↦ absurd (no_text o (rw (good, other, neither) at e))
        ]
      ]
    ]

not_pinned : (origin : Text) → ¬ (is_pinned origin none ≡ true)
not_pinned origin e = cc

no_origin : canonical_i2p_origin none ≡ none
unfolding canonical_i2p_origin
no_origin = refl

pinned-IsDestination :
    (origin : Text) (configured : Option Text)
    → is_pinned origin (canonical_i2p_origin configured) ≡ true
    → IsDestination origin
pinned-IsDestination origin none h = absurd (not_pinned origin (rw no_origin at h))
pinned-IsDestination origin (some s) h = elim (Option-cases (canonical_i2p_origin (some s))) [
  | inl missing ↦ absurd (not_pinned origin (rw missing at h))
  | inr (o, found) ↦
      let same : origin ≡ o = list_eq→eq origin o (rw found at h) in
      rw same (canonical-IsDestination s o found)
]

or-eq-true : (a b : Bool) → (a || b) ≡ true → (a ≡ true) ⊎ (b ≡ true)
or-eq-true true b h = inl refl
or-eq-true false b h = inr h

no_hkdf : (h : Hkdf) → ¬ (◌≡◌ {A = Result Hkdf} (err crypto_unavailable) (ok h))
no_hkdf h e = cc

same_hkdf : (g h : Hkdf) → ◌≡◌ {A = Result Hkdf} (ok g) (ok h) → g ≡ h
same_hkdf g h e = cc

-- The worker gets a key derivation only where `crypto` has a random source, and only the browser's
-- own in a secure context or, whichever it is, on a page whose origin is `http://`, a destination's
-- hash of 52 base32 digits, and `.b32.i2p`, with nothing behind.
pub worker_hkdf-IsDestination :
    (origin : Text) (configured : Option Text) (secure : Bool) (c : CryptoSupport) (h : Hkdf)
    → worker_hkdf origin configured secure c ≡ ok h
    → (c.has_random ≡ true) × (((secure ≡ true) × (h ≡ native_hkdf)) ⊎ IsDestination origin)
unfolding worker_hkdf
worker_hkdf-IsDestination origin configured secure c h e =
    let pinned = is_pinned origin (canonical_i2p_origin configured) in
    elim (Bool-cases c.has_random) [
      | inr without ↦ absurd (no_hkdf h (rw (without, worker_hkdf) at e))
      | inl random ↦ elim (Bool-cases (c.has_subtle && (secure || pinned))) [
        | inl native ↦
            let same = same_hkdf native_hkdf h (rw (random, native, worker_hkdf) at e) in
            elim (or-eq-true secure pinned (and-eq-true c.has_subtle (secure || pinned) native).1) [
              | inl is_secure ↦ (random, inl (is_secure, sym same))
              | inr is_ours ↦ (random, inr (pinned-IsDestination origin configured is_ours))
            ]
        | inr not_native ↦ elim (Bool-cases (not c.has_subtle && pinned && c.random_works)) [
          | inl noble ↦
              let (both, works) = and-eq-true (not c.has_subtle && pinned) c.random_works noble in
              (random, inr (pinned-IsDestination origin configured (and-eq-true _ pinned both).1))
          | inr refused ↦ absurd (no_hkdf h (rw (random, not_native, refused, worker_hkdf) at e))
        ]
      ]
    ]
