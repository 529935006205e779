-- ===== src/TextMetrics/Tests.antt =====
-- Runs of the text counter, and its theorems at concrete inputs.
use erase_to.Prelude.{ℕ, ◌≡◌, refl, false, List, [], ◌∷◌, arith, All}
use erase_to.TextMetrics.{update}
use erase_to.TextMetrics.Reports.{edit, wipe, handle, run, IsHonest, run-IsHonest}
use erase_to.TextMetrics.Completion.{ticks, IsDone, update_completes}

-- `é`, a line end and a character outside the basic plane.
abbrev draft : List ℕ
draft = 0xe9 ∷ 10 ∷ 0xd83d ∷ 0xde00 ∷ []

update_runs : (update draft (run [])).1 ≡ record { bytes = 7; lines = 2; pending = false } ∷ []
unfolding update
update_runs = refl

run-IsHonest_example :
    All
      (IsHonest (handle (edit draft) (run (wipe ∷ []))).0.text)
      (handle (edit draft) (run (wipe ∷ []))).1
run-IsHonest_example = run-IsHonest (edit draft) (wipe ∷ [])

update_completes_example : IsDone draft (ticks 0 (update draft (run [])).0)
update_completes_example = update_completes [] draft 0 refl (omega arith)
