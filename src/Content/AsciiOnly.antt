-- ===== src/Content/AsciiOnly.antt =====
-- Unicode's two functions on ASCII texts, as an instance of the parameter of shared/content.ts.
use erase_to.Prelude.{ℕ, ◌+◌, ◌≡◌, refl, true, [], ◌∷◌, map, arith, if◌then◌else◌, all, length-map}
use erase_to.Types.{Text}
use erase_to.Content.Names.{Unicode, UnicodeLaws, is_lower_ascii, is_between}

abbrev pub lower_unit : ℕ → ℕ
lower_unit c = if is_between b'A' b'Z' c then c + 32 else c

-- Unicode's two functions, on ASCII.
abbrev pub ascii_only : Unicode
ascii_only = record { nfc = λ s. s; lower = λ s. map lower_unit s }

lower_fixed : (s : Text) → all is_lower_ascii s ≡ true → map lower_unit s ≡ s
lower_fixed [] h = refl
lower_fixed (c ∷ s) h = ground (arith, lower_fixed s)

pub ascii_laws : UnicodeLaws ascii_only
ascii_laws = record {
  nfc_idempotent = λ s. refl;
  lower_fixed = lower_fixed;
  length-lower = λ s h. length-map s lower_unit;
}
