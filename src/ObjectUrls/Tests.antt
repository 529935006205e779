-- ===== src/ObjectUrls/Tests.antt =====
-- The theorem on `ObjectUrls` at a concrete input.
use erase_to.Prelude.{◌≡◌, refl, true, List, [], ◌∷◌, arith}
use erase_to.ObjectUrls.{
  no_urls, holds, create, release_later, expire_url, run_out, clear, Event, created, released,
  ran_out, handle, run,
}
use erase_to.ObjectUrls.Revoking.{clear_revokes}

abbrev downloads : List Event
downloads = created ∷ released 0 ∷ created ∷ ran_out 0 ∷ created ∷ []

still_held : (run downloads no_urls).urls ≡ 2 ∷ 1 ∷ []
unfolding run handle create release_later run_out expire_url
still_held = refl

clear_revokes_example :
    (holds 0 (clear (run downloads no_urls)).revoked ≡ true)
    × ((clear (run downloads no_urls)).timers ≡ [])
unfolding run handle create release_later run_out expire_url
clear_revokes_example = clear_revokes downloads 0 (omega arith)
