-- ===== src/Content/Packing.antt =====
-- shared/content.ts: what a successful `pack` says of its input.
use erase_to.Prelude.{
  ℕ, suc, ◌+◌, ◌*◌, ◌≤◌, ◌≡◌, refl, sym, ap, ◌∙◌, false, ◌&&◌, ◌||◌, List, [], ◌∷◌, map, arith, ltb,
  ◌==◌, ltb→ge, or-eq-false, length,
}
use erase_to.Types.{
  Text, Bytes, FileInput, ContentInput, ok, max_content_bytes, max_text_bytes, max_files, >>=-eq-ok,
  refuse_if-eq-ok,
}
use erase_to.Encoding.Utf8.{utf8, encode_text}
use erase_to.Encoding.Lengths.{encode_text-eq-ok}
use erase_to.Content.Names.{
  Unicode, UnicodeLaws, member, normalize_filename, normalize_mime, lower_mime,
}
use erase_to.Content.Canonical.{
  normalize_filename-eq-ok, normalize_filename_fixed, name_bounds, mime_facts,
}
use erase_to.Content.Pack.{PackedFile, files_bytes, pack_files, pack, is_empty, write_envelope}
use erase_to.Content.Reading.{PacksTo, AllPackTo}

-- What `pack` stores of a file: its name in NFC, its media type in lower case or the default one.
abbrev pub canonical_file : Unicode → FileInput → FileInput
canonical_file u f = record { name = u.nfc f.name; mime = lower_mime u f.mime; content = f.content }

abbrev pub canonical : Unicode → ContentInput → ContentInput
canonical u input = record { text = input.text; files = map (canonical_file u) input.files }

module _ (u : Unicode) (laws : UnicodeLaws u) where
  -- One file of a successful `pack`.
  file_PacksTo :
      (total : ℕ) (names : List Text) (f : FileInput) (name mime : Text)
      (name_bytes mime_bytes : Bytes)
      → ltb max_content_bytes (total + length f.content) ≡ false
      → normalize_filename u f.name ≡ ok name
      → member (u.lower name) names ≡ false
      → encode_text name ≡ ok name_bytes
      → normalize_mime u f.mime ≡ ok mime
      → encode_text mime ≡ ok mime_bytes
      → PacksTo u total names
          (record { name = name; mime = mime; content = f.content })
          (record { name = name_bytes; mime = mime_bytes; content = f.content })
        × (name ≡ u.nfc f.name)
        × (mime ≡ lower_mime u f.mime)
  file_PacksTo total names f name mime name_bytes mime_bytes fits en new bn em bm =
      let g = normalize_filename-eq-ok u laws f.name en in
      let (lo, hi) = name_bounds u laws f.name g in
      let same : g.bytes ≡ name_bytes = cc (g.encodes) in
      let (em1, em2, em3, em4) = mime_facts u laws f.mime em bm in
      (
        record {
          name_decodes = (encode_text-eq-ok name bn).1;
          mime_decodes = (encode_text-eq-ok mime bm).1;
          content_same = refl;
          name_fixed = normalize_filename_fixed u laws f.name g;
          mime_fixed = em2;
          is_new = new;
          name_lower = rw (← same) lo;
          name_upper = rw (← same) hi;
          mime_lower = em3;
          mime_upper = em4;
          fits = ltb→ge _ _ fits;
        },
        g.normal,
        em1,
      )

  canonical_file_eq :
      (f : FileInput) {name mime : Text}
      → name ≡ u.nfc f.name
      → mime ≡ lower_mime u f.mime
      → ◌≡◌ {A = FileInput}
          (record { name = name; mime = mime; content = f.content })
          (canonical_file u f)
  canonical_file_eq f p q = λ i. record { name = p i; mime = q i; content = f.content }

  AllPackTo-cons :
      (fs : List FileInput) (total : ℕ) (names : List Text) {f f' : FileInput} {p : PackedFile}
      {ps packed : List PackedFile}
      → PacksTo u total names f' p
      → f' ≡ f
      → AllPackTo u (total + length p.content) (u.lower f'.name ∷ names) fs ps
      → p ∷ ps ≡ packed
      → AllPackTo u total names (f ∷ fs) packed
  AllPackTo-cons fs total names w same ws e = rw (← e, ← same) (w, ws)

  pack_files-AllPackTo :
      (files : List FileInput) (total : ℕ) (names : List Text) {packed : List PackedFile}
      → pack_files u total names files ≡ ok packed
      → AllPackTo u total names (map (canonical_file u) files) packed
        × (length packed ≡ length files)
  unfolding pack_files
  pack_files-AllPackTo [] total names {packed = []} e = (tt, refl)
  pack_files-AllPackTo [] total names {packed = p ∷ ps} e = absurd (cc)
  pack_files-AllPackTo (f ∷ fs) total names {packed} e =
      let (fits, e1) = refuse_if-eq-ok _ _ _ e in
      let (name, en, e2) = >>=-eq-ok (normalize_filename u f.name) _ e1 in
      let (new, e3) = refuse_if-eq-ok _ _ _ e2 in
      let (name_bytes, bn, e4) = >>=-eq-ok (encode_text name) _ e3 in
      let (mime, em, e5) = >>=-eq-ok (normalize_mime u f.mime) _ e4 in
      let (mime_bytes, bm, e6) = >>=-eq-ok (encode_text mime) _ e5 in
      let (ps, rest, e7) =
        >>=-eq-ok (pack_files u (total + length f.content) (u.lower name ∷ names) fs) _ e6 in
      let packed_file : PackedFile = record {
        name = name_bytes;
        mime = mime_bytes;
        content = f.content;
      } in
      let (w, same_name, same_mime) =
        file_PacksTo total names f name mime name_bytes mime_bytes fits en new bn em bm in
      let (ws, len) =
        pack_files-AllPackTo fs (total + length f.content) (u.lower name ∷ names) rest in
      let e8 : packed_file ∷ ps ≡ packed = cc in
      (
        AllPackTo-cons (map (canonical_file u) fs) total names w
            (canonical_file_eq f same_name same_mime) ws e8,
        ap length (sym e8) ∙ ap suc len,
      )

-- The envelope of acceptable files is within the limits of `unpack`.
pub AllPackTo-bounds :
    (u : Unicode) (files : List FileInput) (packed : List PackedFile) (total : ℕ)
    (names : List Text)
    → AllPackTo u total names files packed
    → total ≤ max_content_bytes
    → files_bytes packed + total ≤ max_content_bytes + length packed * 390
AllPackTo-bounds u [] [] total names w h = omega arith
AllPackTo-bounds u [] (p ∷ ps) total names w h = absurd w
AllPackTo-bounds u (f ∷ fs) [] total names w h = absurd w
AllPackTo-bounds u (f ∷ fs) (p ∷ ps) total names (w, ws) h =
    let same : length p.content ≡ length f.content = ap length w.content_same in
    omega (
      arith,
      w.name_upper,
      w.mime_upper,
      AllPackTo-bounds u fs ps (total + length p.content) (u.lower f.name ∷ names) ws
          (omega (arith, w.fits)),
    )

-- What a successful `pack` has computed before it writes.
pub record IsPacked (u : Unicode) (random : ℕ → Bytes) (input : ContentInput) (padded : Bytes)
    : Type 0 where
  pub text : Bytes
  pub files : List PackedFile
  pub text_decodes : utf8 text ≡ ok input.text
  pub text_fits : length text ≤ max_text_bytes
  pub count_fits : length files ≤ max_files
  pub not_empty : (length text == 0 && length files == 0) ≡ false
  pub all_pack : AllPackTo u (length text) [] (map (canonical_file u) input.files) files
  pub written : write_envelope random text files ≡ ok padded

is_empty-eq {ℓ κ} :
    {A : Type ℓ} {B : Type κ} (xs : List A) (ys : List B)
    → length xs ≡ length ys
    → (is_empty ys ≡ (length xs == 0))
is_empty-eq [] [] h = refl
is_empty-eq [] (y ∷ ys) h = absurd (omega arith)
is_empty-eq (x ∷ xs) [] h = absurd (omega arith)
is_empty-eq (x ∷ xs) (y ∷ ys) h = ground arith

pub pack-IsPacked :
    (u : Unicode) (laws : UnicodeLaws u) (random : ℕ → Bytes) (input : ContentInput)
    {padded : Bytes}
    → pack u random input ≡ ok padded
    → IsPacked u random input padded
unfolding pack
pack-IsPacked u laws random input {padded} e =
    let (limits, e1) =
      refuse_if-eq-ok (ltb max_text_bytes (length input.text) || ltb max_files (length input.files))
        _ _ e in
    let (text, encoded, e2) = >>=-eq-ok (encode_text input.text) _ e1 in
    let (text_fits, e3) = refuse_if-eq-ok _ _ _ e2 in
    let (some_content, e4) = refuse_if-eq-ok _ _ _ e3 in
    let (files, packed, written) = >>=-eq-ok (pack_files u (length text) [] input.files) _ e4 in
    let (all_pack, count) = pack_files-AllPackTo u laws input.files (length text) [] packed in
    record {
      text = text;
      files = files;
      text_decodes = (encode_text-eq-ok input.text encoded).1;
      text_fits = ltb→ge _ _ text_fits;
      count_fits = rw count (ltb→ge _ _ (or-eq-false _ _ limits).1);
      not_empty =
          rw (← (is_empty-eq text text refl), ← (is_empty-eq files input.files count)) some_content;
      all_pack = all_pack;
      written = written;
    }
