-- ===== src/TextMetrics.antt =====
-- web/src/lib/text-metrics.ts: `TextMetrics`, which counts the UTF-8 bytes and the lines of a draft in
-- chunks. A method returns the object and the measurements that it reports, in order.
pub mod Scan
pub mod Reports
pub mod Completion
mod Tests
use erase_to.Prelude.{
  ℕ, zero, suc, ◌+◌, ◌-◌, ◌*◌, ◌/◌, ◌%◌, ◌^◌, ◌≤◌, ◌<◌, min, max, ◌≡◌, ◌≢◌, ◌↔◌, ◌⊎◌, inl, inr,
  refl, sym, ap, ◌∙◌, ◌≡⟨◌⟩◌, ◌∎, subst, Bool, true, false, not, ◌&&◌, ◌||◌, Option, none, some,
  List, [], ◌∷◌, ◌++◌, map, append_assoc, append-nil, arith, ltb, leb, ◌==◌, ge→ltb, lt→ltb, ltb→lt,
  ltb→ge, le→leb, leb→le, ==_iff, ==_self, or-eq-false, not-eq-false, and-eq-true, Bool-cases,
  Option-cases, if◌then◌else◌, list_eq, list_eq_self, list_eq→eq, length, all, any, All, codes,
  replicate, length-replicate, length-take, length-map, length-drop, length-append, take, drop,
  take-append, drop-append, drop-append_add, drop-drop, take_all, drop_all, take-append-drop,
}
use erase_to.Types.{Text}

abbrev pub chunk_units : ℕ
chunk_units = 65536

pub record TextMeasurement : Type 0 where
  pub bytes : ℕ
  pub lines : ℕ
  pub pending : Bool

-- `timer` says whether a next step is scheduled.
pub record Metrics : Type 0 where
  pub text : Text
  pub offset : ℕ
  pub bytes : ℕ
  pub lines : ℕ
  pub timer : Bool

abbrev pub first : Text → Option ℕ
first [] = none
first (c ∷ s) = some c

-- `text.charCodeAt(i)`, if `i` is within the text.
abbrev pub unit_at : Text → ℕ → Option ℕ
unit_at text i = first (drop i text)

-- The unit begins a surrogate pair with the one behind it.
abbrev pub is_pair : ℕ → Option ℕ → Bool
is_pair code none = false
is_pair code (some next) =
    leb 0xd800 code && leb code 0xdbff && (leb 0xdc00 next && leb next 0xdfff)

-- What is added to `bytes`, and to `offset` beyond one.
abbrev pub width : ℕ → Option ℕ → ℕ
width code next =
    if ltb code 0x80 then 1 else if ltb code 0x800 then 2 else if is_pair code next then 4 else 3

abbrev pub extra : ℕ → Option ℕ → ℕ
extra code next = if is_pair code next then 1 else 0

-- One round of the loop at an offset within the text.
unfoldable pub count_unit : Metrics → Metrics
count_unit m = elim (unit_at m.text m.offset) [
  | none ↦ m
  | some code ↦
      let next = unit_at m.text (m.offset + 1) in
      record m {
        offset = m.offset + 1 + extra code next;
        lines = if code == 10 then m.lines + 1 else m.lines;
        bytes = m.bytes + width code next;
      }
]

-- `while (this.offset < end)`; the fuel is the distance to `end`, and each round goes on by one.
unfoldable pub scan : ℕ → ℕ → Metrics → Metrics
unfolding count_unit
scan zero end m = m
scan (suc fuel) end m = elim (ltb m.offset end) [ true ↦ scan fuel end (count_unit m) | false ↦ m ]

-- The end of `step`: schedule the next step, or report.
unfoldable pub after_scan : Metrics → Metrics × List TextMeasurement
after_scan m = if ltb m.offset (length m.text) then (record m { timer = true }, []) else (
  record m { timer = false },
  record { bytes = m.bytes; lines = m.lines; pending = false } ∷ [],
)

-- `step()`.
unfoldable pub step : Metrics → Metrics × List TextMeasurement
unfolding scan after_scan
step m =
    let end = min (length m.text) (m.offset + chunk_units) in
    after_scan (scan (end - m.offset) end m)

abbrev pub pending_report : Text → List TextMeasurement
pending_report text =
    if ltb chunk_units (length text)
    then record { bytes = 0; lines = 1; pending = true } ∷ []
    else []

abbrev pub fresh : Text → Metrics
fresh text = record { text = text; offset = 0; bytes = 0; lines = 1; timer = false }

-- `update(text)`: nothing is done for the same text once its count has begun.
unfoldable pub update : Text → Metrics → Metrics × List TextMeasurement
unfolding step
update text m =
    if list_eq text m.text && (not (m.offset == 0) || length text == 0)
    then (m, [])
    else let (m', reports) = step (fresh text) in (m', pending_report text ++ reports)

-- The scheduled step, if there is one.
unfoldable pub tick : Metrics → Metrics × List TextMeasurement
unfolding step
tick m = if m.timer then step (record m { timer = false }) else (m, [])

-- `clear()`, and `destroy()`.
unfoldable pub clear : Metrics → Metrics × List TextMeasurement
clear m = (fresh [], record { bytes = 0; lines = 1; pending = false } ∷ [])
