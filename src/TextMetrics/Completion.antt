-- ===== src/TextMetrics/Completion.antt =====
-- The count of `TextMetrics` (web/src/lib/text-metrics.ts) comes to its end.
use erase_to.Prelude.{
  ℕ, zero, suc, ◌+◌, ◌*◌, ◌≤◌, min, ◌≡◌, inl, inr, refl, sym, ap, ◌∙◌, false, List, arith, ge→ltb,
  ltb→ge, Bool-cases, list_eq, length,
}
use erase_to.Types.{Text}
use erase_to.Encoding.Utf8.{encode}
use erase_to.TextMetrics.{Metrics, chunk_units, step, update, tick, fresh}
use erase_to.TextMetrics.Scan.{newlines}
use erase_to.TextMetrics.Reports.{
  IsValid, finished, retimed, step-StepsWell, tick-IsSound, Event, fresh-IsCounting, run,
}

-- `k` scheduled steps, one after the other.
unfoldable pub ticks : ℕ → Metrics → Metrics
ticks zero m = m
ticks (suc k) m = ticks k (tick m).0

-- The count of `text` is over, and right.
pub record IsDone (text : Text) (m : Metrics) : Type 0 where
  pub same_text : m.text ≡ text
  pub stopped : m.timer ≡ false
  pub bytes_right : m.bytes ≡ length (encode text)
  pub lines_right : m.lines ≡ newlines text + 1

end-IsDone : (m : Metrics) → IsValid m → length m.text ≤ m.offset → IsDone m.text m
end-IsDone m v h =
    let (bytes, lines) = finished m v.counting h in
    record {
      same_text = refl;
      stopped = v.scheduled ∙ ge→ltb _ _ h;
      bytes_right = bytes;
      lines_right = lines;
    }

tick-reaches :
    (m : Metrics)
    → IsValid m
    → ((tick m).0.text ≡ m.text)
      × (min (length m.text) (m.offset + chunk_units) ≤ (tick m).0.offset)
unfolding tick
tick-reaches m v = elim (Bool-cases m.timer) [
  | inl set ↦
      let s = step-StepsWell (record m { timer = false }) (retimed m false v.counting) in
      rw set (s.same_text, s.reached)
  | inr unset ↦
      let over = ltb→ge m.offset (length m.text) (sym v.scheduled ∙ unset) in
      rw unset (refl, omega arith)
]

ticks-IsDone :
    (k : ℕ) (text : Text) (m : Metrics)
    → IsValid m
    → m.text ≡ text
    → length text ≤ m.offset + k * chunk_units
    → IsDone text (ticks k m)
unfolding ticks
ticks-IsDone zero text m v e h = rw (← e) (end-IsDone m v (rw e (omega arith)))
ticks-IsDone (suc k) text m v e h =
    let (same, reached) = tick-reaches m v in
    let size : length m.text ≡ length text = ap length e in
    ticks-IsDone k text (tick m).0 (tick-IsSound m v).valid (same ∙ e) (omega arith)

-- After an edit to another text, as many scheduled steps as it has further chunks end the count,
-- with the UTF-8 length and the number of lines of the text.
pub update_completes :
    (events : List Event) (text : Text) (k : ℕ)
    → list_eq text (run events).text ≡ false
    → length text ≤ (k + 1) * chunk_units
    → IsDone text (ticks k (update text (run events)).0)
unfolding update
update_completes events text k other h =
    let s = step-StepsWell (fresh text) (fresh-IsCounting text) in
    rw other
      (ticks-IsDone k text (step (fresh text)).0 s.valid s.same_text (omega (arith, s.reached)))
