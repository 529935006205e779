-- ===== src/Content/Canonical.antt =====
-- shared/content.ts: `normalizeFilename` and `normalizeMime` on names and media types that are normalised.
use erase_to.Prelude.{
  ℕ, ◌≤◌, ◌≡◌, inl, inr, refl, sym, ap, ◌∙◌, Bool, true, false, ◌||◌, [], ◌∷◌, arith, ltb, ge→ltb,
  ltb→ge, Bool-cases, length, all, codes,
}
use erase_to.Types.{
  Text, Bytes, ok, err, invalid_package, invalid_filename, max_filename_bytes, max_mime_bytes,
  >>=-eq-ok,
}
use erase_to.Encoding.Utf8.{encode_text}
use erase_to.Encoding.Lengths.{encode_text-eq-ok, length-le-length-encode, encode-ascii}
use erase_to.Content.Names.{
  Unicode, UnicodeLaws, is_ascii, is_lower_ascii, is_bad_name, normalize_filename, normalize_mime,
  lower_mime, is_mime, is_mime_from, is_mime_char, has_unit, is_between,
}

is_bad_name-nil : is_bad_name [] ≡ true
unfolding is_bad_name
is_bad_name-nil = refl

nonempty_of_good : (s : Text) → is_bad_name s ≡ false → 1 ≤ length s
nonempty_of_good [] h = absurd (cc (is_bad_name-nil))
nonempty_of_good (c ∷ s) h = omega arith

module _ (u : Unicode) (laws : UnicodeLaws u) where
  -- What a successful `normalizeFilename` says of its result.
  pub record IsGoodName (value name : Text) : Type 0 where
    pub bytes : Bytes
    pub normal : name ≡ u.nfc value
    pub good : is_bad_name name ≡ false
    pub encodes : encode_text name ≡ ok bytes
    pub within : length bytes ≤ max_filename_bytes

  pub normalize_filename-eq-ok :
      (value : Text) {name : Text} → normalize_filename u value ≡ ok name → IsGoodName value name
  unfolding normalize_filename
  normalize_filename-eq-ok value {name} e = elim (Bool-cases (ltb 1024 (length value))) [
    | inl long ↦ let x : err invalid_package ≡ ok name = rw long at e in absurd (cc)
    | inr short ↦ elim (Bool-cases (is_bad_name (u.nfc value))) [
      | inl bad ↦ let x : err invalid_filename ≡ ok name = rw (short, bad) at e in absurd (cc)
      | inr good ↦
          let (bytes, encoded, rest) =
            >>=-eq-ok (encode_text (u.nfc value)) _ (rw (short, good) at e) in
          elim (Bool-cases (ltb max_filename_bytes (length bytes))) [
            | inl long ↦ let x : err invalid_filename ≡ ok name = rw long at rest in absurd (cc)
            | inr fits ↦
                let x : ok (u.nfc value) ≡ ok name = rw fits at rest in
                let y : u.nfc value ≡ name = cc in
                record {
                  bytes = bytes;
                  normal = sym y;
                  good = rw (← y) good;
                  encodes = rw (← y) encoded;
                  within = ltb→ge _ _ fits;
                }
          ]
    ]
  ]

  pub normalize_filename_fixed :
      (value : Text) {name : Text} → IsGoodName value name → normalize_filename u name ≡ ok name
  unfolding normalize_filename
  normalize_filename_fixed value {name} g =
      let (same, decodes) = encode_text-eq-ok name g.encodes in
      let normal : u.nfc name ≡ name = rw g.normal (laws.nfc_idempotent value) in
      let short : length name ≤ 1024 =
        omega (arith, length-le-length-encode name, g.within, ap length same) in
      rw (ge→ltb 1024 (length name) short, normal, g.good, g.encodes, ge→ltb _ _ g.within)

  -- The encoded name is 1 to 255 bytes long.
  pub name_bounds :
      (value : Text) {name : Text} (g : IsGoodName value name)
      → (1 ≤ length g.bytes) × (length g.bytes ≤ max_filename_bytes)
  name_bounds value {name} g =
      let (same, decodes) = encode_text-eq-ok name g.encodes in
      (
        omega (arith, length-le-length-encode name, nonempty_of_good name g.good, ap length same),
        g.within,
      )

punctuation-plain : (c : ℕ) → has_unit c (codes "!#$&^_.+-") ≡ true → is_lower_ascii c ≡ true
punctuation-plain c h = ground arith

letters-plain :
    (c : ℕ)
    → (is_between b'a' b'z' c || is_between b'0' b'9' c || false) ≡ true
    → is_lower_ascii c ≡ true
letters-plain c h = ground arith

is_mime_char-plain : (c : ℕ) → is_mime_char c ≡ true → is_lower_ascii c ≡ true
unfolding is_mime_char
is_mime_char-plain c h = elim (Bool-cases (has_unit c (codes "!#$&^_.+-"))) [
  | inl mark ↦ punctuation-plain c mark
  | inr other ↦ letters-plain c (rw other at h)
]

is_mime_from-plain :
    (slash some_char : Bool) (s : Text)
    → is_mime_from slash some_char s ≡ true
    → all is_lower_ascii s ≡ true
unfolding is_mime_from
is_mime_from-plain slash some_char [] h = refl
is_mime_from-plain slash some_char (c ∷ s) h =
    ground (
      arith,
      is_mime_char-plain c,
      is_mime_from-plain true false s,
      is_mime_from-plain slash true s,
    )

lower_ascii-ascii : (s : Text) → all is_lower_ascii s ≡ true → all is_ascii s ≡ true
lower_ascii-ascii [] h = refl
lower_ascii-ascii (c ∷ s) h = ground (arith, lower_ascii-ascii s)

is_mime-plain : (s : Text) → is_mime s ≡ true → all is_lower_ascii s ≡ true
unfolding is_mime
is_mime-plain s h = is_mime_from-plain false false s h

one-le-length_of_mime : (s : Text) → is_mime s ≡ true → 1 ≤ length s
unfolding is_mime
one-le-length_of_mime [] h = absurd (cc)
one-le-length_of_mime (c ∷ s) h = omega arith

module _ (u : Unicode) (laws : UnicodeLaws u) where
  normalize_mime-eq-ok :
      (value : Text) {mime : Text}
      → normalize_mime u value ≡ ok mime
      → (mime ≡ lower_mime u value) × (is_mime mime ≡ true) × (length value ≤ max_mime_bytes)
  unfolding normalize_mime
  normalize_mime-eq-ok value {mime} e = elim (Bool-cases (ltb max_mime_bytes (length value))) [
    | inl long ↦ let x : err invalid_package ≡ ok mime = rw long at e in absurd (cc)
    | inr short ↦ elim (Bool-cases (is_mime (lower_mime u value))) [
      | inl good ↦
          let x : ok (lower_mime u value) ≡ ok mime = rw (short, good) at e in
          let y : lower_mime u value ≡ mime = cc in (sym y, rw (← y) good, ltb→ge _ _ short)
      | inr bad ↦ let x : err invalid_package ≡ ok mime = rw (short, bad) at e in absurd (cc)
    ]
  ]

  lower_mime_fixed : (s : Text) → is_mime s ≡ true → lower_mime u s ≡ s
  unfolding lower_mime is_mime
  lower_mime_fixed [] h = absurd (cc)
  lower_mime_fixed (c ∷ s) h = laws.lower_fixed (c ∷ s) (is_mime-plain (c ∷ s) h)

  length-lower_mime :
      (value : Text)
      → all is_ascii (lower_mime u value) ≡ true
      → length value ≤ max_mime_bytes
      → length (lower_mime u value) ≤ max_mime_bytes
  unfolding lower_mime
  length-lower_mime [] a h = omega arith
  length-lower_mime (c ∷ s) a h = omega (arith, laws.length-lower (c ∷ s) a)

  -- A media type that `pack` has normalised is normal, and its encoding 1 to 127 bytes long.
  pub mime_facts :
      (value : Text) {mime : Text} {bytes : Bytes}
      → normalize_mime u value ≡ ok mime
      → encode_text mime ≡ ok bytes
      → (mime ≡ lower_mime u value)
        × (normalize_mime u mime ≡ ok mime)
        × (1 ≤ length bytes)
        × (length bytes ≤ max_mime_bytes)
  unfolding normalize_mime
  mime_facts value {mime} {bytes} e enc =
      let (same, good, short) = normalize_mime-eq-ok value e in
      let (encoded, decodes) = encode_text-eq-ok mime enc in
      let ascii = lower_ascii-ascii mime (is_mime-plain mime good) in
      let bytes_same : bytes ≡ mime = encoded ∙ encode-ascii mime ascii in
      let fits : length mime ≤ max_mime_bytes =
        rw same (length-lower_mime value (rw same at ascii) short) in
      (
        same,
        rw (ge→ltb _ _ fits, lower_mime_fixed mime good, good),
        omega (arith, ap length bytes_same, one-le-length_of_mime mime good),
        omega (arith, ap length bytes_same),
      )
