-- ===== src/Theme.antt =====
-- web/src/lib/theme.ts: `ThemeController`. `dark` is what the browser's media query answers at that
-- moment, `false` where there is none. What the controller shows is part of its state.
pub mod Shown
mod Tests
use erase_to.Prelude.{
  ℕ, ◌≡◌, refl, Bool, true, false, not, ◌&&◌, ◌||◌, Option, none, some, List, [], ◌∷◌,
  if◌then◌else◌, list_eq, codes,
}
use erase_to.Types.{Text}

pub data ThemePreference : Type 0 where
  system light dark : ThemePreference

-- The attribute values and the stored names.
abbrev pub theme_name : ThemePreference → Text
theme_name system = codes "system"
theme_name light = codes "light"
theme_name dark = codes "dark"

-- `themePreference(value)`, where `none` is a value that is no string.
unfoldable pub theme_preference : Option Text → ThemePreference
theme_preference none = system
theme_preference (some value) =
    if list_eq value (codes "light")
    then light
    else if list_eq value (codes "dark")
    then dark
    else system

unfoldable pub next_theme_preference : ThemePreference → ThemePreference
next_theme_preference system = light
next_theme_preference light = dark
next_theme_preference dark = system

-- The argument of `changed`: `is_dark` says that `resolved` is 'dark'.
pub record ThemeState : Type 0 where
  pub preference : ThemePreference
  pub is_dark : Bool

-- The controller and what it works on: the `data-theme` attribute, the content of the color-scheme
-- element, the calls of `changed`, the latest first, and the stored item; `blocked` says that the
-- storage throws, and `listening` that the listeners are registered.
pub record Theme : Type 0 where
  pub preference : ThemePreference
  pub disposed : Bool
  pub listening : Bool
  pub attribute : Option Text
  pub color_scheme : Text
  pub changes : List ThemeState
  pub blocked : Bool
  pub item : Option Text

abbrev pub shown_attribute : ThemePreference → Option Text
shown_attribute system = none
shown_attribute light = some (theme_name light)
shown_attribute dark = some (theme_name dark)

abbrev pub shown_scheme : ThemePreference → Text
shown_scheme system = codes "light dark"
shown_scheme light = theme_name light
shown_scheme dark = theme_name dark

abbrev pub resolved : ThemePreference → Bool → Bool
resolved system is_dark = is_dark
resolved light is_dark = false
resolved dark is_dark = true

unfoldable pub read_preference : Theme → Option ThemePreference
unfolding theme_preference
read_preference t = if t.blocked then none else some (theme_preference t.item)

unfoldable pub publish : Bool → Theme → Theme
publish is_dark t = record t {
  attribute = shown_attribute t.preference;
  color_scheme = shown_scheme t.preference;
  changes =
      record { preference = t.preference; is_dark = resolved t.preference is_dark } ∷ t.changes;
}

abbrev pub or_system : Option ThemePreference → ThemePreference
or_system none = system
or_system (some p) = p

-- The constructor, on a page with a color-scheme element.
unfoldable pub new_theme : Bool → Option Text → Bool → Theme
unfolding read_preference publish
new_theme blocked item is_dark =
    let bare : Theme = record {
      preference = system;
      disposed = false;
      listening = true;
      attribute = none;
      color_scheme = [];
      changes = [];
      blocked = blocked;
      item = item;
    } in
    publish is_dark (record bare { preference = or_system (read_preference bare) })

-- What is stored for a preference.
abbrev pub stored_item : ThemePreference → Option Text
stored_item system = none
stored_item light = some (theme_name light)
stored_item dark = some (theme_name dark)

-- The end of `set`: blocked storage changes nothing.
abbrev pub keep_preference : Theme → Theme
keep_preference t = if t.blocked then t else record t { item = stored_item t.preference }

unfoldable pub set : Option Text → Bool → Theme → Theme
unfolding theme_preference publish
set value is_dark t =
    if t.disposed
    then t
    else keep_preference (publish is_dark (record t { preference = theme_preference value }))

unfoldable pub cycle : Bool → Theme → Theme
unfolding next_theme_preference set
cycle is_dark t = set (some (theme_name (next_theme_preference t.preference))) is_dark t

abbrev pub follows_system : ThemePreference → Bool
follows_system system = true
follows_system light = false
follows_system dark = false

-- The listener of the media query.
unfoldable pub system_changed : Bool → Theme → Theme
unfolding publish
system_changed is_dark t =
    if not t.disposed && follows_system t.preference then publish is_dark t else t

-- `event.key === STORAGE_KEY || event.key === null`, where `none` is null.
abbrev pub is_our_key : Option Text → Bool
is_our_key none = true
is_our_key (some key) = list_eq key (codes "erase.theme")

-- A preference that could be read is taken over and published.
unfoldable pub adopt : Option ThemePreference → Bool → Theme → Theme
unfolding publish
adopt none is_dark t = t
adopt (some p) is_dark t = publish is_dark (record t { preference = p })

-- The listener of storage events.
unfoldable pub stored_changed : Option Text → Bool → Theme → Theme
unfolding read_preference adopt
stored_changed key is_dark t =
    if t.disposed || not (is_our_key key) then t else adopt (read_preference t) is_dark t

unfoldable pub destroy : Theme → Theme
destroy t = record t { disposed = true; listening = false }

-- A call of a method, an event, or a write to the storage by another page.
pub data Event : Type 0 where
  chosen : Option Text → Bool → Event
  cycled : Bool → Event
  browser_switched : Bool → Event
  storage_event : Option Text → Bool → Event
  written_elsewhere : Option Text → Event
  destroyed : Event

unfoldable pub handle : Event → Theme → Theme
handle (chosen value is_dark) t = set value is_dark t
handle (cycled is_dark) t = cycle is_dark t
handle (browser_switched is_dark) t = if t.listening then system_changed is_dark t else t
handle (storage_event key is_dark) t = if t.listening then stored_changed key is_dark t else t
handle (written_elsewhere item) t = record t { item = item }
handle destroyed t = destroy t

unfoldable pub run : List Event → Theme → Theme
run [] t = t
run (event ∷ events) t = run events (handle event t)
