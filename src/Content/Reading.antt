-- ===== src/Content/Reading.antt =====
-- shared/content.ts: the loop of `unpack` on files that stand where `pack` writes them.
use erase_to.Prelude.{
  ℕ, ◌+◌, ◌≤◌, ◌<◌, ◌≡◌, ap, false, ◌||◌, List, [], ◌∷◌, ◌++◌, arith, ltb, ◌==◌, ge→ltb,
  list_eq_self, length, drop,
}
use erase_to.Content.Parts.{parts_then, file_parts, files_then}
use erase_to.Types.{
  Text, Bytes, FileInput, ok, max_content_bytes, max_filename_bytes, max_mime_bytes,
}
use erase_to.Wire.{slice-at, get_u16, get_u32, u16, u32, get_u16_at, get_u32_at, drop-after}
use erase_to.Encoding.Utf8.{utf8}
use erase_to.Content.Names.{Unicode, member, normalize_filename, normalize_mime}
use erase_to.Content.Pack.{PackedFile, file_bytes, files_bytes}
use erase_to.Content.Unpack.{take_bytes, check_canonical, unpack_file, unpack_files}

module _ (u : Unicode) where
  -- `packed` is what `pack` makes of the canonical `file`, after the files named `names`.
  pub record PacksTo (total : ℕ) (names : List Text) (file : FileInput) (packed : PackedFile)
      : Type 0 where
    pub name_decodes : utf8 packed.name ≡ ok file.name
    pub mime_decodes : utf8 packed.mime ≡ ok file.mime
    pub content_same : packed.content ≡ file.content
    pub name_fixed : normalize_filename u file.name ≡ ok file.name
    pub mime_fixed : normalize_mime u file.mime ≡ ok file.mime
    pub is_new : member (u.lower file.name) names ≡ false
    pub name_lower : 1 ≤ length packed.name
    pub name_upper : length packed.name ≤ max_filename_bytes
    pub mime_lower : 1 ≤ length packed.mime
    pub mime_upper : length packed.mime ≤ max_mime_bytes
    pub fits : total + length file.content ≤ max_content_bytes

  -- The same of all files, in order.
  abbrev pub AllPackTo : ℕ → List Text → List FileInput → List PackedFile → Type 0
  AllPackTo total names [] [] = Unit {0}
  AllPackTo total names [] (p ∷ ps) = ⊥
  AllPackTo total names (f ∷ fs) [] = ⊥
  AllPackTo total names (f ∷ fs) (p ∷ ps) =
      PacksTo total names f p × AllPackTo (total + length p.content) (u.lower f.name ∷ names) fs ps

  check_canonical_lem :
      (name mime : Text) (names : List Text)
      → normalize_filename u name ≡ ok name
      → normalize_mime u mime ≡ ok mime
      → member (u.lower name) names ≡ false
      → check_canonical u name mime names ≡ ok tt
  unfolding check_canonical
  check_canonical_lem name mime names e1 e2 e3 =
      rw (e1, list_eq_self name, e2, list_eq_self mime, e3)

pub take_bytes_at :
    (padded : Bytes) (logical offset : ℕ) (part rest : Bytes)
    → drop offset padded ≡ part ++ rest
    → offset + length part ≤ logical
    → take_bytes padded logical offset (length part) ≡ ok (part, offset + length part)
unfolding take_bytes
take_bytes_at padded logical offset part rest e h =
    rw (ge→ltb _ _ h, slice-at padded part rest offset e)

lengths_fine :
    (n m : ℕ)
    → 1 ≤ n
    → n ≤ max_filename_bytes
    → 1 ≤ m
    → m ≤ max_mime_bytes
    → (n == 0 || ltb max_filename_bytes n || m == 0 || ltb max_mime_bytes m) ≡ false
lengths_fine n m h1 h2 h3 h4 = ground arith

module _ (u : Unicode) (padded : Bytes) (logical : ℕ) where
  unpack_file_lem :
      (offset total : ℕ) (names : List Text) (f : FileInput) (p : PackedFile) (rest : Bytes)
      → PacksTo u total names f p
      → drop (offset + 8) padded ≡ p.name ++ (p.mime ++ (p.content ++ rest))
      → offset + file_bytes p ≤ logical
      → unpack_file u padded logical offset total names
          (length p.name)
          (length p.mime)
          (length p.content)
        ≡ ok (f, offset + file_bytes p)
  unfolding unpack_file
  unpack_file_lem offset total names f p rest w e h =
      rw
        (
          lengths_fine _ _ w.name_lower w.name_upper w.mime_lower w.mime_upper,
          ge→ltb max_content_bytes (total + length p.content) fits,
          take_bytes_at padded logical (offset + 8) p.name _ e (omega arith),
          w.name_decodes,
          take_bytes_at padded logical (offset + 8 + length p.name) p.mime _ at_mime (omega arith),
          w.mime_decodes,
          check_canonical_lem u f.name f.mime names w.name_fixed w.mime_fixed w.is_new,
          take_bytes_at padded logical (offset + 8 + length p.name + length p.mime) p.content rest
              at_content (omega arith),
          same_file,
        )
        (ap (λ (n : ℕ). ok (f, n)) (omega arith))
    where
      fits : total + length p.content ≤ max_content_bytes
      fits = rw (w.content_same) w.fits

      at_mime : drop (offset + 8 + length p.name) padded ≡ p.mime ++ (p.content ++ rest)
      at_mime = drop-after padded p.name _ (offset + 8) e

      at_content : drop (offset + 8 + length p.name + length p.mime) padded ≡ p.content ++ rest
      at_content = drop-after padded p.mime _ (offset + 8 + length p.name) at_mime

      same_file : p.content ≡ f.content
      same_file = w.content_same

  file_reads :
      (offset : ℕ) (f : PackedFile) (rest : Bytes)
      → drop offset padded ≡ parts_then (file_parts f) rest
      → length f.name < 65536
      → length f.mime < 65536
      → length f.content < 4294967296
      → (get_u16 padded offset ≡ ok (length f.name))
        × (get_u16 padded (offset + 2) ≡ ok (length f.mime))
        × (get_u32 padded (offset + 4) ≡ ok (length f.content))
        × (drop (offset + 8) padded ≡ f.name ++ (f.mime ++ (f.content ++ rest)))
  file_reads offset f rest e hn hm hc =
      let two = drop-after padded (u16 (length f.name)) _ offset e in
      let four = drop-after padded (u16 (length f.name) ++ u16 (length f.mime)) _ offset e in
      let eight =
        drop-after padded (u16 (length f.name) ++ (u16 (length f.mime) ++ u32 (length f.content))) _
          offset e in
      (
        get_u16_at padded offset (length f.name) _ e hn,
        get_u16_at padded (offset + 2) (length f.mime) _ two hm,
        get_u32_at padded (offset + 4) (length f.content) _ four hc,
        eight,
      )

  behind_file :
      (offset : ℕ) (p : PackedFile) (rest : Bytes)
      → drop (offset + 8) padded ≡ p.name ++ (p.mime ++ (p.content ++ rest))
      → drop (offset + file_bytes p) padded ≡ rest
  behind_file offset p rest e =
      let at_mime = drop-after padded p.name _ (offset + 8) e in
      let at_content = drop-after padded p.mime _ (offset + 8 + length p.name) at_mime in
      let at_end =
        drop-after padded p.content rest (offset + 8 + length p.name + length p.mime) at_content in
      let same : offset + file_bytes p
          ≡ offset + 8 + length p.name + length p.mime + length p.content =
        omega arith in
      rw same at_end

  pub unpack_files_lem :
      (files : List FileInput) (packed : List PackedFile) (offset total : ℕ) (names : List Text)
      (rest : Bytes)
      → AllPackTo u total names files packed
      → drop offset padded ≡ files_then packed rest
      → offset + files_bytes packed ≤ logical
      → unpack_files u padded logical (length packed) offset total names
        ≡ ok (files, offset + files_bytes packed)
  unfolding unpack_files
  unpack_files_lem [] [] offset total names rest w e h = ap (λ (n : ℕ). ok ([], n)) (omega arith)
  unpack_files_lem [] (p ∷ ps) offset total names rest w e h = absurd w
  unpack_files_lem (f ∷ fs) [] offset total names rest w e h = absurd w
  unpack_files_lem (f ∷ fs) (p ∷ ps) offset total names rest (w, ws) e h =
      let same : length p.content ≡ length f.content = ap length w.content_same in
      let (at0, at2, at4, at8) =
        file_reads offset p (files_then ps rest) e (omega (arith, w.name_upper))
          (omega (arith, w.mime_upper)) (omega (arith, w.fits)) in
      rw
        (
          ge→ltb logical (offset + 8) (omega arith),
          at0,
          at2,
          at4,
          unpack_file_lem offset total names f p (files_then ps rest) w at8 (omega arith),
          unpack_files_lem fs ps (offset + file_bytes p) (total + length p.content)
              (u.lower f.name ∷ names) rest ws (behind_file offset p (files_then ps rest) at8)
              (omega arith),
        )
        (ap (λ (n : ℕ). ok (f ∷ fs, n)) (omega arith))
