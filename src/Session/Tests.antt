-- ===== src/Session/Tests.antt =====
-- Runs of the session, and its theorems at concrete inputs.
use erase_to.Prelude.{◌+◌, ◌-◌, ◌*◌, ◌≡◌, ◌↔◌, refl, true, false, [], ◌∷◌, arith}
use erase_to.Session.{manual, new_session, clear, ticket, valid, touched, asked_to_clear, run}
use erase_to.Session.Tickets.{clearings}
use erase_to.Session.Validity.{IsRunning, valid_iff}
use erase_to.Session.Idle.{Counting, Expired, punctuals, touched_at, idle_counts_down, idle_expires}

-- A ticket does not outlive a manual clearing.
stale_after_clear :
    (valid (ticket 5 new_session).1 7 (clear manual (ticket 5 new_session).0)).1 ≡ false
unfolding valid ticket
stale_after_clear = refl

valid_iff_example :
    ((valid
        (ticket 5 (run (touched true 1 ∷ []) new_session)).1
        9
        (run (asked_to_clear manual ∷ []) (ticket 5 (run (touched true 1 ∷ []) new_session)).0)).1
      ≡ true)
    ↔ ((clearings
            (run
              (asked_to_clear manual ∷ [])
              (ticket 5 (run (touched true 1 ∷ []) new_session)).0).log
          ≡ clearings (ticket 5 (run (touched true 1 ∷ []) new_session)).0.log)
        × IsRunning 9
            (run (asked_to_clear manual ∷ []) (ticket 5 (run (touched true 1 ∷ []) new_session)).0))
valid_iff_example = valid_iff (touched true 1 ∷ []) (asked_to_clear manual ∷ []) 5 9

idle_counts_down_example :
    Counting (300 - 270) 0 (punctuals 270 (touched_at 1 new_session))
    × ((punctuals 270 (touched_at 1 new_session)).now ≡ 1 + 270 * 1000)
idle_counts_down_example = idle_counts_down 1 270 new_session (omega arith)

idle_expires_example :
    Expired 0 (punctuals 300 (touched_at 1 new_session))
    × ((punctuals 300 (touched_at 1 new_session)).now ≡ 1 + 300000)
idle_expires_example = idle_expires 1 new_session
