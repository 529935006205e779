-- ===== src/TextMetrics/Reports.antt =====
-- What `TextMetrics` (web/src/lib/text-metrics.ts) reports, over any sequence of edits and timer
-- events.
use erase_to.Prelude.{
  ◌+◌, ◌-◌, ◌≤◌, min, ◌≡◌, ◌⊎◌, inl, inr, refl, sym, ap, ◌∙◌, Bool, true, false, not, ◌&&◌, ◌||◌,
  List, [], ◌∷◌, ◌++◌, arith, ltb, ◌==◌, ltb→ge, Bool-cases, if◌then◌else◌, list_eq, length, All,
  drop, drop_all,
}
use erase_to.Types.{Text}
use erase_to.Encoding.Utf8.{encode}
use erase_to.TextMetrics.{
  Metrics, TextMeasurement, chunk_units, scan, step, update, tick, clear, fresh, pending_report,
  after_scan,
}
use erase_to.TextMetrics.Scan.{newlines, IsCounting, Advances, scan-Advances}

-- The true measurement of a text.
abbrev pub exact : Text → TextMeasurement
exact text = record { bytes = length (encode text); lines = newlines text + 1; pending = false }

abbrev waiting : TextMeasurement
waiting = record { bytes = 0; lines = 1; pending = true }

-- A report on a text: the true measurement, or that it is pending.
abbrev pub IsHonest : Text → TextMeasurement → Type 0
IsHonest text r = (r ≡ exact text) ⊎ (r ≡ waiting)

-- Between two events a step is scheduled exactly if units are left to count.
pub record IsValid (m : Metrics) : Type 0 where
  pub counting : IsCounting m
  pub scheduled : m.timer ≡ ltb m.offset (length m.text)

encode-nil : encode [] ≡ []
unfolding encode
encode-nil = refl

pub fresh-IsCounting : (text : Text) → IsCounting (fresh text)
fresh-IsCounting text = record {
  within = omega arith;
  bytes_exact = omega arith;
  lines_exact = omega arith;
}

-- A count that has reached the end is exact.
pub finished :
    (m : Metrics)
    → IsCounting m
    → length m.text ≤ m.offset
    → (m.bytes ≡ length (encode m.text)) × (m.lines ≡ newlines m.text + 1)
finished m v h =
    let at_end : m.offset ≡ length m.text = omega (arith, v.within) in
    let nothing : drop m.offset m.text ≡ [] = rw at_end (drop_all m.text) in
    (
      omega (
        arith,
        v.bytes_exact,
        ap (λ (s : Text). length (encode s)) nothing,
        ap length encode-nil,
      ),
      omega (arith, v.lines_exact, ap newlines nothing),
    )

pub record StepsWell (m : Metrics) (r : Metrics × List TextMeasurement) : Type 0 where
  pub valid : IsValid r.0
  pub same_text : r.0.text ≡ m.text
  pub reached : min (length m.text) (m.offset + chunk_units) ≤ r.0.offset
  pub reported : r.1 ≡ (if r.0.timer then [] else exact m.text ∷ [])

pub retimed : (m : Metrics) (t : Bool) → IsCounting m → IsCounting (record m { timer = t })
retimed m t v = record {
  within = v.within;
  bytes_exact = v.bytes_exact;
  lines_exact = v.lines_exact;
}

after_scan-StepsWell :
    (m m' : Metrics)
    → Advances m m'
    → min (length m.text) (m.offset + chunk_units) ≤ m'.offset
    → StepsWell m (after_scan m')
unfolding after_scan
after_scan-StepsWell m m' adv reached = elim (Bool-cases (ltb m'.offset (length m'.text))) [
  | inl more ↦ rw more (record {
    valid = record { counting = retimed m' true adv.counting; scheduled = sym more };
    same_text = adv.same_text;
    reached = reached;
    reported = refl;
  })
  | inr done ↦
      let (bytes, lines) = finished m' adv.counting (ltb→ge _ _ done) in
      rw done (record {
        valid = record { counting = retimed m' false adv.counting; scheduled = sym done };
        same_text = adv.same_text;
        reached = reached;
        reported = rw (bytes, lines, adv.same_text);
      })
]

pub step-StepsWell : (m : Metrics) → IsCounting m → StepsWell m (step m)
unfolding step
step-StepsWell m v =
    let end = min (length m.text) (m.offset + chunk_units) in
    let (adv, reached) = scan-Advances (end - m.offset) end m v (omega arith) (omega arith) in
    after_scan-StepsWell m (scan (end - m.offset) end m) adv reached

-- The reports of a step are honest, and the final one is made.
step_reports :
    (text : Text) (t : Bool) (reports : List TextMeasurement)
    → reports ≡ (if t then [] else exact text ∷ [])
    → All (IsHonest text) reports
step_reports text true reports e = rw e tt
step_reports text false reports e = rw e (inl refl, tt)

-- Any event keeps the object valid and makes honest reports on the text that it leaves.
pub data Event : Type 0 where
  edit : Text → Event
  fire : Event
  wipe : Event

abbrev pub handle : Event → Metrics → Metrics × List TextMeasurement
handle (edit text) m = update text m
handle fire m = tick m
handle wipe m = clear m

pub record IsSound (r : Metrics × List TextMeasurement) : Type 0 where
  pub valid : IsValid r.0
  pub honest : All (IsHonest r.0.text) r.1

step-IsSound : (m : Metrics) → IsCounting m → IsSound (step m)
step-IsSound m v =
    let s = step-StepsWell m v in
    record {
      valid = s.valid;
      honest = rw (s.same_text) (step_reports m.text (step m).0.timer (step m).1 s.reported);
    }

pending_reports : (text : Text) → All (IsHonest text) (pending_report text)
pending_reports text = elim (Bool-cases (ltb chunk_units (length text))) [
  | inl long ↦ rw long (inr refl, tt)
  | inr short ↦ rw short tt
]

All-append :
    (text : Text) (rs ss : List TextMeasurement)
    → All (IsHonest text) rs
    → All (IsHonest text) ss
    → All (IsHonest text) (rs ++ ss)
All-append text [] ss h k = k
All-append text (r ∷ rs) ss (h, hs) k = (h, All-append text rs ss hs k)

update-IsSound : (text : Text) (m : Metrics) → IsValid m → IsSound (update text m)
unfolding update
update-IsSound text m v =
    let s = step-IsSound (fresh text) (fresh-IsCounting text) in
    let kept : (step (fresh text)).0.text ≡ text =
      (step-StepsWell (fresh text) (fresh-IsCounting text)).same_text in
    elim (Bool-cases (list_eq text m.text && (not (m.offset == 0) || length text == 0))) [
      | inl same ↦ rw same (record { valid = v; honest = tt })
      | inr other ↦ rw other (record {
        valid = s.valid;
        honest =
            All-append (step (fresh text)).0.text (pending_report text) (step (fresh text)).1
              (rw kept (pending_reports text)) s.honest;
      })
    ]

pub tick-IsSound : (m : Metrics) → IsValid m → IsSound (tick m)
unfolding tick
tick-IsSound m v = elim (Bool-cases m.timer) [
  | inl set ↦ rw set (step-IsSound (record m { timer = false }) (retimed m false v.counting))
  | inr unset ↦ rw unset (record {
    valid = record { counting = retimed m false v.counting; scheduled = sym unset ∙ v.scheduled };
    honest = tt;
  })
]

clear-IsSound : (m : Metrics) → IsSound (clear m)
unfolding clear
clear-IsSound m = record {
  valid = record { counting = fresh-IsCounting []; scheduled = refl };
  honest = (inl (rw (encode-nil) refl), tt);
}

handle-IsSound : (event : Event) (m : Metrics) → IsValid m → IsSound (handle event m)
handle-IsSound (edit text) m v = update-IsSound text m v
handle-IsSound fire m v = tick-IsSound m v
handle-IsSound wipe m v = clear-IsSound m

-- A run of events from a new object.
abbrev pub run : List Event → Metrics
run [] = fresh []
run (event ∷ events) = (handle event (run events)).0

pub run-IsValid : (events : List Event) → IsValid (run events)
run-IsValid [] = record { counting = fresh-IsCounting []; scheduled = refl }
run-IsValid (event ∷ events) = (handle-IsSound event (run events) (run-IsValid events)).valid

-- After any events (the latest first), in whatever order edits, timer steps and clears came, each
-- report of the next event is the true measurement of the text that it leaves, its UTF-8 bytes and
-- its lines, or says that the measurement is pending.
pub run-IsHonest :
    (event : Event) (events : List Event)
    → All (IsHonest (handle event (run events)).0.text) (handle event (run events)).1
run-IsHonest event events = (handle-IsSound event (run events) (run-IsValid events)).honest
