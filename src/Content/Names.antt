-- ===== src/Content/Names.antt =====
-- shared/content.ts: `normalizeFilename` and `normalizeMime`. The Unicode tables behind
-- `String.prototype.normalize` and `toLowerCase` are a parameter.
use erase_to.Prelude.{
  ℕ, ◌+◌, ◌≡◌, Bool, true, false, not, ◌&&◌, ◌||◌, List, [], ◌∷◌, ◌++◌, ltb, leb, ◌==◌,
  if◌then◌else◌, list_eq, length, all, any, codes,
}
use erase_to.Types.{
  Text, Result, ok, err, invalid_package, invalid_filename, max_filename_bytes, max_mime_bytes,
  ◌>>=◌,
}
use erase_to.Encoding.Utf8.{encode_text}

-- `value.normalize('NFC')` and `value.toLowerCase()`.
pub record Unicode : Type 0 where
  pub nfc : Text → Text
  pub lower : Text → Text

abbrev pub is_ascii : ℕ → Bool
is_ascii c = ltb c 0x80

abbrev pub is_between : ℕ → ℕ → ℕ → Bool
is_between lo hi c = leb lo c && leb c hi

-- ASCII without the letters A to Z.
abbrev pub is_lower_ascii : ℕ → Bool
is_lower_ascii c = is_ascii c && not (is_between b'A' b'Z' c)

-- What the Unicode standard says of the two: normalisation is idempotent, lower case leaves ASCII
-- without capitals alone, and a text whose lower case is ASCII has as many code units (only A to Z
-- and the Kelvin sign change into ASCII letters).
pub record UnicodeLaws (u : Unicode) : Type 0 where
  pub nfc_idempotent : (s : Text) → u.nfc (u.nfc s) ≡ u.nfc s
  pub lower_fixed : (s : Text) → all is_lower_ascii s ≡ true → u.lower s ≡ s
  pub length-lower : (s : Text) → all is_ascii (u.lower s) ≡ true → length (u.lower s) ≡ length s

abbrev pub member : Text → List Text → Bool
member x [] = false
member x (y ∷ ys) = list_eq x y || member x ys

abbrev pub has_unit : ℕ → Text → Bool
has_unit c s = any (λ d. d == c) s

-- Code points with the property Bidi_Control.
unfoldable pub is_bidi_control : ℕ → Bool
is_bidi_control c =
    c == 0x61c
    || is_between 0x200e 0x200f c
    || is_between 0x202a 0x202e c
    || is_between 0x2066 0x2069 c

-- `/[\x00-\x1f\x7f-\x9f<>:"/\\|?*\p{Bidi_Control}]/u`, of one code unit.
unfoldable pub is_forbidden : ℕ → Bool
unfolding is_bidi_control
is_forbidden c =
    is_between 0 0x1f c
    || is_between 0x7f 0x9f c
    || has_unit c (codes "<>:\"/\\|?*")
    || is_bidi_control c

-- `/[. ]$/`.
unfoldable pub ends_badly : Text → Bool
ends_badly [] = false
ends_badly (c ∷ []) = c == b'.' || c == b' '
ends_badly (c ∷ d ∷ s) = ends_badly (d ∷ s)

abbrev fold_ascii : ℕ → ℕ
fold_ascii c = if is_between b'A' b'Z' c then c + 32 else c

-- The part before the first dot, with ASCII letters folded as the flag `i` does.
unfoldable pub stem : Text → Text
stem [] = []
stem (c ∷ s) = let rest = stem s in if c == b'.' then [] else fold_ascii c ∷ rest

abbrev device_digits : Text
device_digits = codes "123456789" ++ 0xb9 ∷ 0xb2 ∷ 0xb3 ∷ []

-- `con|prn|aux|nul|conin\$|conout\$|com[1-9¹²³]|lpt[1-9¹²³]`, of a whole stem.
unfoldable pub is_device : Text → Bool
is_device (a ∷ b ∷ c ∷ d ∷ []) =
    (list_eq (a ∷ b ∷ c ∷ []) (codes "com") || list_eq (a ∷ b ∷ c ∷ []) (codes "lpt"))
    && has_unit d device_digits
is_device s =
    member s (
      codes "con" ∷ codes "prn" ∷ codes "aux" ∷ codes "nul" ∷ codes "conin$" ∷ codes "conout$" ∷ [])

unfoldable pub is_bad_name : Text → Bool
unfolding is_forbidden ends_badly stem is_device
is_bad_name name =
    list_eq name []
    || list_eq name (codes ".")
    || list_eq name (codes "..")
    || any is_forbidden name
    || ends_badly name
    || is_device (stem name)

unfoldable pub is_mime_char : ℕ → Bool
is_mime_char c = is_between b'a' b'z' c || is_between b'0' b'9' c || has_unit c (codes "!#$&^_.+-")

-- `/^[a-z0-9!#$&^_.+-]+\/[a-z0-9!#$&^_.+-]+$/`: the flag says whether the slash was read, and the
-- number counts the characters since then or since the start.
unfoldable pub is_mime_from : Bool → Bool → Text → Bool
is_mime_from slash some_char [] = slash && some_char
is_mime_from slash some_char (c ∷ s) =
    let after_slash = is_mime_from true false s in
    let after_char = is_mime_from slash true s in
    if c == b'/' then not slash && some_char && after_slash else is_mime_char c && after_char

unfoldable pub is_mime : Text → Bool
unfolding is_mime_from is_mime_char
is_mime s = is_mime_from false false s

abbrev pub default_mime : Text
default_mime = codes "application/octet-stream"

module _ (u : Unicode) where
  unfoldable pub normalize_filename : Text → Result Text
  unfolding is_bad_name encode_text
  normalize_filename value =
      if ltb 1024 (length value)
      then err invalid_package
      else let name = u.nfc value in
        if is_bad_name name then err invalid_filename else do
          bytes ← encode_text name
          if ltb max_filename_bytes (length bytes) then err invalid_filename else ok name

  unfoldable pub lower_mime : Text → Text
  lower_mime [] = default_mime
  lower_mime (c ∷ s) = u.lower (c ∷ s)

  unfoldable pub normalize_mime : Text → Result Text
  unfolding lower_mime is_mime
  normalize_mime value =
      if ltb max_mime_bytes (length value)
      then err invalid_package
      else if is_mime (lower_mime value)
      then ok (lower_mime value)
      else err invalid_package
