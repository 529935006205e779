-- ===== src/Json.antt =====
-- What `JSON.parse` gives.
use erase_to.Prelude.{ℕ, Bool, if◌then◌else◌, list_eq}
use erase_to.Types.{Text}

-- A parsed value; a number that is no natural number is a `fraction`, and what an array holds is
-- never looked at.
mutual
  pub data Json : Type 0 where
    null array fraction : Json
    boolean : Bool → Json
    number : ℕ → Json
    string : Text → Json
    object : Members → Json

  pub data Members : Type 0 where
    no_more : Members
    member : Text → Json → Members → Members

-- `value[key]`, with `null` in place of undefined: the checks refuse both.
abbrev pub field : Text → Members → Json
field key no_more = null
field key (member name value rest) =
    let later = field key rest in if list_eq key name then value else later
