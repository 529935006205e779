-- ===== src/TextMetrics/Scan.antt =====
-- One chunk of `TextMetrics` (web/src/lib/text-metrics.ts) against the encoder.
use erase_to.Prelude.{
  ℕ, zero, suc, ◌+◌, ◌≤◌, ◌<◌, ◌≡◌, inl, inr, refl, sym, ap, ◌∙◌, ◌&&◌, [], ◌∷◌, arith, ltb, ◌==◌,
  ltb→lt, ltb→ge, Bool-cases, if◌then◌else◌, length, length-drop, length-append, drop, drop-drop,
}
use erase_to.Types.{Text}
use erase_to.Encoding.Utf8.{encode, encode_unit, encode_pair, is_high, is_low}
use erase_to.TextMetrics.{Metrics, count_unit, scan, first, width, extra}

abbrev pub newlines : Text → ℕ
newlines [] = 0
newlines (c ∷ s) = let rest = newlines s in if c == 10 then rest + 1 else rest

-- What has been counted and what is left make up the whole text.
pub record IsCounting (m : Metrics) : Type 0 where
  pub within : m.offset ≤ length m.text
  pub bytes_exact : m.bytes + length (encode (drop m.offset m.text)) ≡ length (encode m.text)
  pub lines_exact : m.lines + newlines (drop m.offset m.text) ≡ newlines m.text + 1

length-encode_unit :
    (c : ℕ) → length (encode_unit c) ≡ (if ltb c 0x80 then 1 else if ltb c 0x800 then 2 else 3)
unfolding encode_unit
length-encode_unit c = ground arith

length-encode_pair : (c d : ℕ) → length (encode_pair c d) ≡ 4
unfolding encode_pair
length-encode_pair c d = refl

-- The bytes of a text by its first unit, as `count_unit` adds them.
encode-first :
    (c : ℕ) (rest : Text)
    → length (encode (c ∷ rest))
      ≡ width c (first rest) + length (encode (drop (extra c (first rest)) rest))
unfolding encode
encode-first c [] = ground (arith, length-encode_unit c)
encode-first c (d ∷ s) = elim (Bool-cases (is_high c && is_low d)) [
  | inl pair ↦
      rw pair (ground (arith, length-append (encode_pair c d) (encode s), length-encode_pair c d))
  | inr single ↦
      rw single
        (ground (arith, length-append (encode_unit c) (encode (d ∷ s)), length-encode_unit c))
]

newlines-first :
    (c : ℕ) (rest : Text)
    → newlines (c ∷ rest) ≡ (if c == 10 then 1 else 0) + newlines (drop (extra c (first rest)) rest)
newlines-first c [] = ground arith
newlines-first c (d ∷ s) = ground arith

extra-le : (c : ℕ) (rest : Text) → extra c (first rest) ≤ length rest
extra-le c [] = omega arith
extra-le c (d ∷ s) = ground arith

drop-next : (s : Text) (i c : ℕ) (rest : Text) → drop i s ≡ c ∷ rest → drop (i + 1) s ≡ rest
drop-next s i c rest e = sym (drop-drop 1 i s) ∙ rw e

drop-some : (s : Text) (i : ℕ) → i < length s → (c : ℕ) × (rest : Text) × (drop i s ≡ c ∷ rest)
drop-some [] i h = absurd (omega arith)
drop-some (c ∷ s) zero h = (c, s, refl)
drop-some (c ∷ s) (suc i) h = drop-some s i (omega arith)

count_unit_at :
    (m : Metrics) (c : ℕ) (rest : Text)
    → drop m.offset m.text ≡ c ∷ rest
    → count_unit m ≡ record m {
      offset = m.offset + 1 + extra c (first rest);
      lines = if c == 10 then m.lines + 1 else m.lines;
      bytes = m.bytes + width c (first rest);
    }
unfolding count_unit
count_unit_at m c rest e = rw (e, count_unit) (rw (drop-next m.text m.offset c rest e))

-- What one round keeps, and that it goes on.
pub record Advances (m m' : Metrics) : Type 0 where
  pub counting : IsCounting m'
  pub same_text : m'.text ≡ m.text
  pub same_timer : m'.timer ≡ m.timer

count_unit-Advances :
    (m : Metrics)
    → IsCounting m
    → m.offset < length m.text
    → Advances m (count_unit m) × (m.offset < (count_unit m).offset)
count_unit-Advances m v h =
    let (c, rest, e) = drop-some m.text m.offset h in
    let behind : drop (m.offset + 1 + extra c (first rest)) m.text
        ≡ drop (extra c (first rest)) rest =
      sym (drop-drop (extra c (first rest)) (m.offset + 1) m.text)
      ∙ ap (λ (s : Text). drop (extra c (first rest)) s) (drop-next m.text m.offset c rest e) in
    rw (count_unit_at m c rest e) (
      record {
        counting = record {
          within = omega (arith, extra-le c rest, ap length e, length-drop m.offset m.text);
          bytes_exact = rw behind (
              omega (
                arith,
                encode-first c rest,
                ap (λ (s : Text). length (encode s)) e,
                v.bytes_exact,
              ));
          lines_exact =
              rw behind (ground (arith, newlines-first c rest, ap newlines e, v.lines_exact));
        };
        same_text = refl;
        same_timer = refl;
      },
      omega arith,
    )

Advances-trans : {a b c : Metrics} → Advances a b → Advances b c → Advances a c
Advances-trans p q = record {
  counting = q.counting;
  same_text = q.same_text ∙ p.same_text;
  same_timer = q.same_timer ∙ p.same_timer;
}

-- With enough fuel the loop ends at its end or one unit behind it, never behind the text.
pub scan-Advances :
    (fuel : ℕ) (end : ℕ) (m : Metrics)
    → IsCounting m
    → end ≤ length m.text
    → end ≤ m.offset + fuel
    → Advances m (scan fuel end m) × (end ≤ (scan fuel end m).offset)
unfolding scan
scan-Advances zero end m v h f =
    (record { counting = v; same_text = refl; same_timer = refl }, omega arith)
scan-Advances (suc fuel) end m v h f = elim (Bool-cases (ltb m.offset end)) [
  | inl more ↦
      let before = ltb→lt m.offset end more in
      let (now, on) = count_unit-Advances m v (omega arith) in
      let (later, reached) =
        scan-Advances fuel end (count_unit m) now.counting (rw (now.same_text) h) (omega arith) in
      rw (more, scan) (Advances-trans now later, reached)
  | inr done ↦
      rw (done, scan)
        (record { counting = v; same_text = refl; same_timer = refl }, ltb→ge m.offset end done)
]
