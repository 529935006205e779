-- ===== src/Transport.antt =====
-- The bounded readers of response bodies: `readBounded` of web/src/lib/api.ts and `bytes` of
-- cli/client.ts. What the network delivers is the list of its parts; `lost` is a read that fails.
pub mod Growth
pub mod Bodies
pub mod Readers
mod Tests
use erase_to.Prelude.{
  ℕ, zero, suc, ◌+◌, ◌-◌, ◌*◌, ◌/◌, ◌%◌, ◌^◌, ◌≤◌, ◌<◌, min, max, ◌≡◌, ◌≢◌, ◌↔◌, ◌⊎◌, inl, inr,
  refl, sym, ap, ◌∙◌, ◌≡⟨◌⟩◌, ◌∎, subst, Bool, true, false, not, ◌&&◌, ◌||◌, Option, none, some,
  List, [], ◌∷◌, ◌++◌, map, append_assoc, append-nil, arith, ltb, leb, ◌==◌, ge→ltb, lt→ltb, ltb→lt,
  ltb→ge, le→leb, leb→le, ==_iff, ==_self, or-eq-false, not-eq-false, and-eq-true, Bool-cases,
  Option-cases, if◌then◌else◌, list_eq, list_eq_self, list_eq→eq, length, all, any, All, codes,
  replicate, length-replicate, length-take, length-map, length-drop, length-append, take, drop,
  take-append, drop-append, drop-append_add, drop-drop, take_all, drop_all, take-append-drop,
}
use erase_to.Types.{Text, Bytes, max_safe_integer}

-- What `reader.read()` gives: a part, or an error. The end of the list is `done`.
pub data Part : Type 0 where
  chunk : Bytes → Part
  lost : Part

pub data Failure : Type 0 where
  invalid_response empty_response oversized incomplete network : Failure

pub data Outcome : Type 0 where
  body : Bytes → Outcome
  failed : Failure → Outcome

-- What a reader returns or throws, and whether it has cancelled the stream.
pub record Reading : Type 0 where
  pub outcome : Outcome
  pub cancelled : Bool

-- `response.headers.get(…)` of the two headers.
pub record Headers : Type 0 where
  pub content_encoding : Option Text
  pub content_length : Option Text

abbrev pub is_digit : ℕ → Bool
is_digit c = leb b'0' c && leb c b'9'

-- `/^\d+$/`.
abbrev pub is_digits : Text → Bool
is_digits [] = false
is_digits (c ∷ s) = all is_digit (c ∷ s)

-- `Number(text)` of decimal digits, before it is rounded.
unfoldable pub decimal_from : ℕ → Text → ℕ
decimal_from n [] = n
decimal_from n (c ∷ s) = decimal_from (n * 10 + (c - b'0')) s

-- `Number.isSafeInteger`: above the limit a rounded number is not safe either.
abbrev pub is_safe : ℕ → Bool
is_safe n = leb n max_safe_integer

-- `!encoding || encoding === 'identity' ? headers.get('content-length') : null`.
unfoldable pub length_header : Headers → Option Text
length_header h = elim h.content_encoding [
  | none ↦ h.content_length
  | some encoding ↦
      if list_eq encoding [] || list_eq encoding (codes "identity") then h.content_length else none
]

-- The announced length in api.ts, where a header that is no number counts as absent.
unfoldable pub expected_web : Option Text → Option ℕ
expected_web none = none
expected_web (some text) = if is_digits text then some (decimal_from 0 text) else none

-- `grown.set(target.subarray(0, size))` with zeros behind, for a longer allocation.
abbrev pub grow : ℕ → Bytes → ℕ → Bytes
grow capacity target size = take size target ++ replicate (capacity - size) 0

-- The allocation that has room for `next` bytes.
unfoldable pub make_room : ℕ → Bytes → ℕ → ℕ → Bytes
make_room maximum target size next =
    if ltb (length target) next
    then grow (min maximum (max next (length target * 2))) target size
    else target

-- `target.set(part, size)` within the allocation.
abbrev pub put : Bytes → ℕ → Bytes → Bytes
put target size part = take size target ++ (part ++ drop (size + length part) target)

-- The allocation and the bytes of it in use.
pub record Filled : Type 0 where
  pub target : Bytes
  pub size : ℕ

pub data Loop : Type 0 where
  ended : Filled → Loop
  broke : Failure → Loop

-- `while (true)`: `over` is what a body beyond the maximum throws.
unfoldable pub read_parts : Failure → ℕ → List Part → Filled → Loop
unfolding make_room
read_parts over maximum [] f = ended f
read_parts over maximum (lost ∷ parts) f = broke network
read_parts over maximum (chunk part ∷ parts) f =
    let next = f.size + length part in
    let target = make_room maximum f.target f.size next in
    let rest =
      read_parts over maximum parts (record { target = put target f.size part; size = next }) in
    if ltb maximum next then broke over else rest

-- `size === target.length ? target : target.slice(0, size)`.
abbrev pub trimmed : Filled → Bytes
trimmed f = if f.size == length f.target then f.target else take f.size f.target

-- A body shorter than announced is refused.
abbrev pub check_length : Failure → Option ℕ → Filled → Outcome
check_length short none f = body (trimmed f)
check_length short (some n) f = if f.size == n then body (trimmed f) else failed short

-- The end of `readBounded`: the stream is cancelled unless it was read to its end.
unfoldable pub finish_web : Option ℕ → Loop → Reading
finish_web expected (broke why) = record { outcome = failed why; cancelled = true }
finish_web expected (ended f) = record {
  outcome = check_length invalid_response expected f;
  cancelled = false;
}

abbrev pub has_failed : Outcome → Bool
has_failed (body bytes) = false
has_failed (failed why) = true

-- The end of `bytes`: the stream is cancelled unless the body is returned.
unfoldable pub finish_cli : Option ℕ → Loop → Reading
finish_cli announced (broke why) = record { outcome = failed why; cancelled = true }
finish_cli announced (ended f) =
    let outcome = check_length incomplete announced f in
    record { outcome = outcome; cancelled = has_failed outcome }

abbrev pub ceiling : ℕ → Option ℕ → ℕ
ceiling limit none = limit
ceiling limit (some n) = n

abbrev pub first_allocation : ℕ → Option ℕ → Filled
first_allocation limit none = record { target = replicate (min limit 65536) 0; size = 0 }
first_allocation limit (some n) = record { target = replicate n 0; size = 0 }

-- The announced length is beyond what is allowed.
abbrev pub too_long : ℕ → Option ℕ → Bool
too_long limit none = false
too_long limit (some n) = not (is_safe n) || ltb limit n

-- `readBounded(response, limit)` of web/src/lib/api.ts; `none` is a response without a body.
unfoldable pub read_bounded : Headers → ℕ → Option (List Part) → Reading
read_bounded headers limit none = record { outcome = failed invalid_response; cancelled = false }
read_bounded headers limit (some parts) =
    let expected = expected_web (length_header headers) in
    if too_long limit expected
    then record { outcome = failed invalid_response; cancelled = true }
    else finish_web expected (
        read_parts invalid_response (ceiling limit expected) parts
          (first_allocation limit expected))

-- The announced length in cli/client.ts is refused unless it is a safe number within the limit.
unfoldable pub bad_header : ℕ → Option Text → Bool
bad_header limit none = false
bad_header limit (some text) = not (is_digits text) || too_long limit (some (decimal_from 0 text))

-- `bytes(response, limit)` of cli/client.ts; `none` is a response without a body.
unfoldable pub read_bytes : Headers → ℕ → Option (List Part) → Reading
read_bytes headers limit none = record { outcome = failed empty_response; cancelled = false }
read_bytes headers limit (some parts) =
    let announced = expected_web (length_header headers) in
    if bad_header limit (length_header headers)
    then record { outcome = failed oversized; cancelled = true }
    else finish_cli announced
        (read_parts oversized (ceiling limit announced) parts (first_allocation limit announced))
