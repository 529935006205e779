-- ===== src/Worker/Tests.antt =====
-- The theorems on `CryptoWorker` at concrete inputs.
use erase_to.Prelude.{ℕ, ◌+◌, ◌≡◌, refl, true, false, none, some, List, [], ◌∷◌, codes}
use erase_to.Worker.{
  new_worker, call, receive, fail, dispose, Event, called, received, broke_down, handle, run,
}
use erase_to.Worker.Settling.{count, settlements, made, run-IsTracked, dispose_settles}

abbrev session : List (Event ℕ)
session =
    called true
    ∷ called false
    ∷ received (record { id = 1; result = 7; error = none })
    ∷ received (record { id = 1; result = 8; error = none })
    ∷ called true
    ∷ broke_down
    ∷ called true
    ∷ received (record { id = 9; result = 8; error = some (codes "busy") })
    ∷ []

still_pending : (run session new_worker).pending ≡ 4 ∷ []
unfolding run handle call receive fail
still_pending = refl

run-IsTracked_example :
    count 3 (run session new_worker).pending + settlements 3 (run session new_worker).settled
    ≡ made 3 (run session new_worker).sequence
run-IsTracked_example = run-IsTracked session 3

dispose_settles_example :
    settlements 4 (dispose (run session new_worker)).settled
    ≡ made 4 (run session new_worker).sequence
dispose_settles_example = dispose_settles session 4
