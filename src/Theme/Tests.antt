-- ===== src/Theme/Tests.antt =====
-- The theorems on `ThemeController` at concrete inputs.
use erase_to.Prelude.{◌≡◌, refl, List, true, false, none, some, [], ◌∷◌, codes}
use erase_to.Theme.{
  handle, cycle, stored_changed, system_changed, theme_preference, new_theme, set, destroy, run,
  Event, chosen, cycled, browser_switched, storage_event, written_elsewhere,
}
use erase_to.Theme.Shown.{IsShown, IsStill, run-IsShown, set_persists, destroy_stops}

abbrev day : List Event
day =
    cycled true
    ∷ written_elsewhere (some (codes "dark"))
    ∷ storage_event (some (codes "erase.theme")) false
    ∷ browser_switched true
    ∷ chosen none true
    ∷ []

last_choice : (run day (new_theme false none false)).item ≡ none
unfolding new_theme run handle set cycle stored_changed system_changed
last_choice = refl

run-IsShown_example : IsShown (run day (new_theme false none false))
run-IsShown_example = run-IsShown false none false day

set_persists_example :
    (new_theme false
      (set (some (codes "dark")) true (new_theme false none false)).item
      true).preference
    ≡ theme_preference (some (codes "dark"))
unfolding new_theme
set_persists_example =
    set_persists (some (codes "dark")) true true (new_theme false none false) refl refl

destroy_stops_example :
    IsStill
      (new_theme false none true).attribute
      (new_theme false none true).color_scheme
      (new_theme false none true).changes
      (run day (destroy (new_theme false none true)))
destroy_stops_example = destroy_stops day (new_theme false none true)
