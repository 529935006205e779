-- ===== src/Theme/Shown.antt =====
-- What the page shows of `ThemeController` (web/src/lib/theme.ts), over any sequence of events.
use erase_to.Prelude.{
  ◌≡◌, inl, inr, refl, ap, ◌∙◌, Bool, true, false, not, ◌&&◌, ◌||◌, Option, none, some, List, [],
  ◌∷◌, if◌then◌else◌, Bool-cases,
}
use erase_to.Types.{Text}
use erase_to.Theme.{
  ThemePreference, system, light, dark, ThemeState, Theme, shown_attribute, shown_scheme, resolved,
  theme_preference, publish, new_theme, set, cycle, system_changed, adopt, or_system,
  read_preference, stored_changed, destroy, handle, run, Event, chosen, cycled, browser_switched,
  storage_event, written_elsewhere, destroyed, keep_preference, is_our_key, follows_system,
  stored_item, next_theme_preference, theme_name,
}

-- The attribute, the color scheme and the last call of `changed` all show the preference, and a
-- preference for light or dark is resolved to itself.
pub record IsShown (t : Theme) : Type 0 where
  pub attribute : t.attribute ≡ shown_attribute t.preference
  pub color_scheme : t.color_scheme ≡ shown_scheme t.preference
  pub is_dark : Bool
  pub earlier : List ThemeState
  pub last :
      t.changes
      ≡ record { preference = t.preference; is_dark = resolved t.preference is_dark } ∷ earlier

publish-IsShown : (d : Bool) (t : Theme) → IsShown (publish d t)
unfolding publish
publish-IsShown d t = record {
  attribute = refl;
  color_scheme = refl;
  is_dark = d;
  earlier = t.changes;
  last = refl;
}

stored-IsShown : (t : Theme) (item : Option Text) → IsShown t → IsShown (record t { item = item })
stored-IsShown t item v = record {
  attribute = v.attribute;
  color_scheme = v.color_scheme;
  is_dark = v.is_dark;
  earlier = v.earlier;
  last = v.last;
}

either-IsShown : (b : Bool) (t s : Theme) → IsShown t → IsShown s → IsShown (if b then t else s)
either-IsShown true t s v w = v
either-IsShown false t s v w = w

set-IsShown : (value : Option Text) (d : Bool) (t : Theme) → IsShown t → IsShown (set value d t)
unfolding set
set-IsShown value d t v =
    let chosen_theme = publish d (record t { preference = theme_preference value }) in
    let w = publish-IsShown d (record t { preference = theme_preference value }) in
    let kept =
      either-IsShown chosen_theme.blocked chosen_theme _ w
        (stored-IsShown chosen_theme (stored_item chosen_theme.preference) w) in
    either-IsShown t.disposed t (keep_preference chosen_theme) v kept

system_changed-IsShown : (d : Bool) (t : Theme) → IsShown t → IsShown (system_changed d t)
unfolding system_changed
system_changed-IsShown d t v =
    either-IsShown (not t.disposed && follows_system t.preference) (publish d t) t
      (publish-IsShown d t) v

adopt-IsShown :
    (p : Option ThemePreference) (d : Bool) (t : Theme) → IsShown t → IsShown (adopt p d t)
unfolding adopt
adopt-IsShown none d t v = v
adopt-IsShown (some p) d t v = publish-IsShown d (record t { preference = p })

stored_changed-IsShown :
    (key : Option Text) (d : Bool) (t : Theme) → IsShown t → IsShown (stored_changed key d t)
unfolding stored_changed
stored_changed-IsShown key d t v =
    either-IsShown (t.disposed || not (is_our_key key)) t (adopt (read_preference t) d t) v
      (adopt-IsShown (read_preference t) d t v)

handle-IsShown : (event : Event) (t : Theme) → IsShown t → IsShown (handle event t)
unfolding handle cycle destroy
handle-IsShown (chosen value d) t v = set-IsShown value d t v
handle-IsShown (cycled d) t v =
    set-IsShown (some (theme_name (next_theme_preference t.preference))) d t v
handle-IsShown (browser_switched d) t v =
    either-IsShown t.listening (system_changed d t) t (system_changed-IsShown d t v) v
handle-IsShown (storage_event key d) t v =
    either-IsShown t.listening (stored_changed key d t) t (stored_changed-IsShown key d t v) v
handle-IsShown (written_elsewhere item) t v = stored-IsShown t item v
handle-IsShown destroyed t v = record {
  attribute = v.attribute;
  color_scheme = v.color_scheme;
  is_dark = v.is_dark;
  earlier = v.earlier;
  last = v.last;
}

run_from-IsShown : (events : List Event) (t : Theme) → IsShown t → IsShown (run events t)
unfolding run
run_from-IsShown [] t v = v
run_from-IsShown (event ∷ events) t v =
    run_from-IsShown events (handle event t) (handle-IsShown event t v)

new_theme-IsShown :
    (blocked : Bool) (item : Option Text) (d : Bool) → IsShown (new_theme blocked item d)
unfolding new_theme
new_theme-IsShown blocked item d =
    let bare : Theme = record {
      preference = system;
      disposed = false;
      listening = true;
      attribute = none;
      color_scheme = [];
      changes = [];
      blocked = blocked;
      item = item;
    } in
    publish-IsShown d (record bare { preference = or_system (read_preference bare) })

-- On a page with a color-scheme element, after any calls, browser switches and storage events, the
-- attribute, the color scheme and the last state reported show the controller's preference, and a
-- preference for light or dark is never resolved to the other.
pub run-IsShown :
    (blocked : Bool) (item : Option Text) (d : Bool) (events : List Event)
    → IsShown (run events (new_theme blocked item d))
run-IsShown blocked item d events =
    run_from-IsShown events (new_theme blocked item d) (new_theme-IsShown blocked item d)

-- A stored preference is read as itself.
stored_preference : (p : ThemePreference) → theme_preference (stored_item p) ≡ p
unfolding theme_preference
stored_preference system = refl
stored_preference light = refl
stored_preference dark = refl

new_theme_reads :
    (item : Option Text) (d : Bool) → (new_theme false item d).preference ≡ theme_preference item
unfolding new_theme
new_theme_reads item d = refl

set_stores :
    (value : Option Text) (d : Bool) (t : Theme)
    → t.disposed ≡ false
    → t.blocked ≡ false
    → (set value d t).item ≡ stored_item (theme_preference value)
unfolding set
set_stores value d t live free = rw live (rw free refl)

-- Unless the storage is blocked, a choice on one page is the preference with which the next page
-- starts, whatever the value that was chosen.
pub set_persists :
    (value : Option Text) (d e : Bool) (t : Theme)
    → t.disposed ≡ false
    → t.blocked ≡ false
    → (new_theme false (set value d t).item e).preference ≡ theme_preference value
set_persists value d e t live free =
    new_theme_reads (set value d t).item e
    ∙ ap theme_preference (set_stores value d t live free)
    ∙ stored_preference (theme_preference value)

-- A disposed controller that has reported `changes` and shows `attribute` and
-- `scheme`.
pub record IsStill (attribute : Option Text) (scheme : Text) (changes : List ThemeState) (t : Theme)
    : Type 0 where
  pub over : t.disposed ≡ true
  pub same_attribute : t.attribute ≡ attribute
  pub same_scheme : t.color_scheme ≡ scheme
  pub same_changes : t.changes ≡ changes

handle-IsStill :
    (event : Event) (a : Option Text) (s : Text) (cs : List ThemeState) (t : Theme)
    → IsStill a s cs t
    → IsStill a s cs (handle event t)
unfolding handle cycle destroy set system_changed stored_changed
handle-IsStill (chosen value d) a s cs t v = simp (v.over, if◌then◌else◌) v
handle-IsStill (cycled d) a s cs t v = simp (v.over, if◌then◌else◌) v
handle-IsStill (browser_switched d) a s cs t v = elim (Bool-cases t.listening) [
  | inl on ↦ simp (on, v.over, if◌then◌else◌) v
  | inr off ↦ simp (off, if◌then◌else◌) v
]
handle-IsStill (storage_event key d) a s cs t v = elim (Bool-cases t.listening) [
  | inl on ↦ simp (on, v.over, if◌then◌else◌) v
  | inr off ↦ simp (off, if◌then◌else◌) v
]
handle-IsStill (written_elsewhere item) a s cs t v = record {
  over = v.over;
  same_attribute = v.same_attribute;
  same_scheme = v.same_scheme;
  same_changes = v.same_changes;
}
handle-IsStill destroyed a s cs t v = record {
  over = refl;
  same_attribute = v.same_attribute;
  same_scheme = v.same_scheme;
  same_changes = v.same_changes;
}

run-IsStill :
    (events : List Event) (a : Option Text) (s : Text) (cs : List ThemeState) (t : Theme)
    → IsStill a s cs t
    → IsStill a s cs (run events t)
unfolding run
run-IsStill [] a s cs t v = v
run-IsStill (event ∷ events) a s cs t v =
    run-IsStill events a s cs (handle event t) (handle-IsStill event a s cs t v)

-- After `destroy`, no call and no event changes the attribute of the page or its color scheme, or
-- reports a theme.
pub destroy_stops :
    (events : List Event) (t : Theme)
    → IsStill t.attribute t.color_scheme t.changes (run events (destroy t))
unfolding destroy
destroy_stops events t =
    run-IsStill events t.attribute t.color_scheme t.changes
      (record t { disposed = true; listening = false })
      (record { over = refl; same_attribute = refl; same_scheme = refl; same_changes = refl })
