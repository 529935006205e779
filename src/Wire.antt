-- ===== src/Wire.antt =====
-- The typed arrays and big-endian views that shared/content.ts and shared/encoding.ts write and read
-- through: `set`, `slice`, `setUint16`, `getUint32` and the like, over lists of bytes.
use erase_to.Prelude.{
  ℕ, ◌+◌, ◌-◌, ◌*◌, ◌/◌, ◌%◌, ◌≤◌, ◌<◌, ◌≡◌, refl, sym, ap, ◌∙◌, [], ◌∷◌, ◌++◌, arith, ltb, ge→ltb,
  if◌then◌else◌, length, length-append, take, drop, take-append, drop-append, drop-append_add,
  drop-drop,
}
use erase_to.Types.{Bytes, Result, ok, err, range_error}

-- `bytes.subarray(from, to)`, and `slice`, for bounds within the array.
abbrev pub slice : ℕ → ℕ → Bytes → Bytes
slice from to bytes = take (to - from) (drop from bytes)

-- `target.set(part, offset)`.
unfoldable pub set_at : Bytes → ℕ → Bytes → Result Bytes
set_at target offset part =
    if ltb (length target) (offset + length part)
    then err range_error
    else ok (take offset target ++ (part ++ drop (offset + length part) target))

-- What `setUint16` and `setUint32` write, with the value reduced to their width.
abbrev pub u16 : ℕ → Bytes
u16 n = (n / 256 % 256) ∷ (n % 256) ∷ []

abbrev pub u32 : ℕ → Bytes
u32 n = (n / 16777216 % 256) ∷ (n / 65536 % 256) ∷ (n / 256 % 256) ∷ (n % 256) ∷ []

abbrev pub be16 : Bytes → Result ℕ
be16 (a ∷ b ∷ _) = ok (a * 256 + b)
be16 _ = err range_error

abbrev pub be32 : Bytes → Result ℕ
be32 (a ∷ b ∷ c ∷ d ∷ _) = ok (((a * 256 + b) * 256 + c) * 256 + d)
be32 _ = err range_error

-- `view.getUint16(offset, false)` and `view.getUint32(offset, false)`.
unfoldable pub get_u16 : Bytes → ℕ → Result ℕ
get_u16 bytes offset = be16 (drop offset bytes)

unfoldable pub get_u32 : Bytes → ℕ → Result ℕ
get_u32 bytes offset = be32 (drop offset bytes)

pub be16-u16 : (n : ℕ) (rest : Bytes) → n < 65536 → be16 (u16 n ++ rest) ≡ ok n
be16-u16 n rest h = ap ok (omega arith)

pub be32-u32 : (n : ℕ) (rest : Bytes) → n < 4294967296 → be32 (u32 n ++ rest) ≡ ok n
be32-u32 n rest h = ap ok (omega arith)

-- Reading behind `done`, when a value was written there.
pub get_u16_at :
    (bytes : Bytes) (offset n : ℕ) (rest : Bytes)
    → drop offset bytes ≡ u16 n ++ rest
    → n < 65536
    → get_u16 bytes offset ≡ ok n
unfolding get_u16
get_u16_at bytes offset n rest e h = rw e (be16-u16 n rest h)

pub get_u32_at :
    (bytes : Bytes) (offset n : ℕ) (rest : Bytes)
    → drop offset bytes ≡ u32 n ++ rest
    → n < 4294967296
    → get_u32 bytes offset ≡ ok n
unfolding get_u32
get_u32_at bytes offset n rest e h = rw e (be32-u32 n rest h)

-- A write behind `done` keeps it, and replaces as much of what follows.
pub set_at-append :
    (done part rest : Bytes) (offset : ℕ)
    → offset ≡ length done
    → length part ≤ length rest
    → set_at (done ++ rest) offset part ≡ ok (done ++ (part ++ drop (length part) rest))
unfolding set_at
set_at-append done part rest offset e h =
    rw (e, ge→ltb _ _ fits, take-append done rest, drop-append_add done rest _ (length part) refl)
  where
    fits : length done + length part ≤ length (done ++ rest)
    fits = omega (arith, length-append done rest)

-- What stands behind an offset, after the part that begins there.
pub drop-after :
    (bytes part rest : Bytes) (offset : ℕ)
    → drop offset bytes ≡ part ++ rest
    → drop (offset + length part) bytes ≡ rest
drop-after bytes part rest offset e =
    sym (drop-drop (length part) offset bytes) ∙ rw e (drop-append part rest)

pub slice-at :
    (bytes part rest : Bytes) (offset : ℕ)
    → drop offset bytes ≡ part ++ rest
    → slice offset (offset + length part) bytes ≡ part
slice-at bytes part rest offset e =
    let n : offset + length part - offset ≡ length part = omega arith in
    rw (n, e) (take-append part rest)
