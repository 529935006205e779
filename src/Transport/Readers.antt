-- ===== src/Transport/Readers.antt =====
-- web/src/lib/api.ts and cli/client.ts: the successful calls of `readBounded` and `bytes`.
use erase_to.Prelude.{
  ℕ, ◌≤◌, ◌≡◌, ◌↔◌, inl, inr, refl, ap, true, false, not, ltb, leb, leb→le, le→leb, ltb→ge, ge→ltb,
  or-eq-false, not-eq-false, Option, none, some, List, Bool-cases,
}
use erase_to.Types.{Text, Bytes, max_safe_integer}
use erase_to.Transport.{
  Part, invalid_response, incomplete, oversized, Outcome, body, failed, Headers, Loop, ended, broke,
  Reading, finish_web, finish_cli, has_failed, too_long, read_bounded, read_bytes, length_header,
  expected_web, bad_header, is_digits, decimal_from,
}
use erase_to.Transport.Bodies.{IsBody, fresh_iff, outcome_of}

abbrev returned : Bytes → Reading
returned bytes = record { outcome = body bytes; cancelled = false }

finish_web_iff :
    (expected : Option ℕ) (loop : Loop) (bytes : Bytes)
    → (finish_web expected loop ≡ returned bytes)
      ↔ (outcome_of invalid_response expected loop ≡ body bytes)
unfolding finish_web
finish_web_iff expected (ended f) bytes = (
  λ h. ap (λ (r : Reading). r.outcome) h,
  λ h. ap (λ (o : Outcome). record { outcome = o; cancelled = false }) h,
)
finish_web_iff expected (broke why) bytes =
    (λ h. ap (λ (r : Reading). r.outcome) h, λ h. absurd (cc))

finish_cli_iff :
    (expected : Option ℕ) (loop : Loop) (bytes : Bytes)
    → (finish_cli expected loop ≡ returned bytes)
      ↔ (outcome_of incomplete expected loop ≡ body bytes)
unfolding finish_cli
finish_cli_iff expected (ended f) bytes = (
  λ h. ap (λ (r : Reading). r.outcome) h,
  λ h. ap (λ (o : Outcome). record { outcome = o; cancelled = has_failed o }) h,
)
finish_cli_iff expected (broke why) bytes =
    (λ h. ap (λ (r : Reading). r.outcome) h, λ h. absurd (cc))

-- A length within the limit that is a safe number, where one is announced.
abbrev pub IsAllowed : ℕ → Option ℕ → Type 0
IsAllowed limit none = Unit {0}
IsAllowed limit (some n) = (n ≤ max_safe_integer) × (n ≤ limit)

-- A length header of decimal digits that announces such a length, where there is one.
abbrev pub IsGoodHeader : ℕ → Option Text → Type 0
IsGoodHeader limit none = Unit {0}
IsGoodHeader limit (some text) =
    (is_digits text ≡ true) × IsAllowed limit (some (decimal_from 0 text))

too_long_iff :
    (limit : ℕ) (expected : Option ℕ) → (too_long limit expected ≡ false) ↔ IsAllowed limit expected
too_long_iff limit none = (λ h. tt, λ p. refl)
too_long_iff limit (some n) = (
  λ h.
      let (safe, within) = or-eq-false (not (leb n max_safe_integer)) (ltb limit n) h in
      (leb→le n max_safe_integer (not-eq-false _ safe), ltb→ge limit n within),
  λ p. rw (le→leb n max_safe_integer p.0, ge→ltb limit n p.1),
)

bad_header_iff :
    (limit : ℕ) (header : Option Text)
    → (bad_header limit header ≡ false) ↔ IsGoodHeader limit header
unfolding bad_header
bad_header_iff limit none = (λ h. tt, λ p. refl)
bad_header_iff limit (some text) =
    let (to, from) = too_long_iff limit (some (decimal_from 0 text)) in
    (
      λ h.
          let (digits, short) =
            or-eq-false (not (is_digits text)) (too_long limit (some (decimal_from 0 text))) h in
          (not-eq-false _ digits, to short),
      λ p. let short = from p.1 in rw (p.0, short),
    )

-- `readBounded` of the web client returns `bytes`, without cancelling the stream, exactly when the
-- announced length (if a number is announced for an unencoded body) is safe and within the limit,
-- the stream breaks off nowhere, and the parts one behind the other are `bytes`, within the limit
-- and as many as announced. So the growing allocation loses and adds no byte.
pub read_bounded_iff :
    (headers : Headers) (limit : ℕ) (parts : List Part) (bytes : Bytes)
    → (read_bounded headers limit (some parts) ≡ record { outcome = body bytes; cancelled = false })
      ↔ (IsAllowed limit (expected_web (length_header headers))
          × IsBody limit (expected_web (length_header headers)) parts bytes)
unfolding read_bounded
read_bounded_iff headers limit parts bytes =
    let expected = expected_web (length_header headers) in
    elim (Bool-cases (too_long limit expected)) [
      | inl long ↦ (
        λ h.
            let x : failed invalid_response ≡ body bytes =
              ap (λ (r : Reading). r.outcome) (rw long at h) in
            absurd (cc),
        λ p. let short = (too_long_iff limit expected).1 p.0 in absurd (cc),
      )
      | inr short ↦
          let (to, from) = fresh_iff invalid_response invalid_response limit expected parts bytes in
          let (out, back) = finish_web_iff expected _ bytes in
          (
            λ h. ((too_long_iff limit expected).0 short, to (out (rw short at h))),
            λ p. rw short (back (from p.1)),
          )
    ]

-- `bytes` of the command line client does so exactly when an announced length (for an unencoded
-- body) is a safe number within the limit, and the stream is whole as above.
pub read_bytes_iff :
    (headers : Headers) (limit : ℕ) (parts : List Part) (bytes : Bytes)
    → (read_bytes headers limit (some parts) ≡ record { outcome = body bytes; cancelled = false })
      ↔ (IsGoodHeader limit (length_header headers)
          × IsBody limit (expected_web (length_header headers)) parts bytes)
unfolding read_bytes
read_bytes_iff headers limit parts bytes =
    let expected = expected_web (length_header headers) in
    elim (Bool-cases (bad_header limit (length_header headers))) [
      | inl long ↦ (
        λ h.
            let x : failed oversized ≡ body bytes =
              ap (λ (r : Reading). r.outcome) (rw long at h) in
            absurd (cc),
        λ p. let short = (bad_header_iff limit (length_header headers)).1 p.0 in absurd (cc),
      )
      | inr short ↦
          let (to, from) = fresh_iff incomplete oversized limit expected parts bytes in
          let (out, back) = finish_cli_iff expected _ bytes in
          (
            λ h. ((bad_header_iff limit (length_header headers)).0 short, to (out (rw short at h))),
            λ p. rw short (back (from p.1)),
          )
    ]
