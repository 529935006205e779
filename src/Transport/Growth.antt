-- ===== src/Transport/Growth.antt =====
-- web/src/lib/api.ts and cli/client.ts: the growing allocation of the readers.
use erase_to.Prelude.{
  ℕ, ◌+◌, ◌-◌, ◌*◌, ◌≤◌, min, max, ◌≡◌, inl, inr, refl, ap, ◌∙◌, false, List, [], ◌∷◌, ◌++◌,
  append_assoc, append-nil, arith, ltb, ◌==◌, ge→ltb, ltb→lt, ltb→ge, ==_iff, Bool-cases,
  if◌then◌else◌, length, replicate, length-replicate, length-drop, length-append, take, drop,
  take-append, drop-append_add,
}
use erase_to.Types.{Bytes}
use erase_to.Transport.{
  Part, chunk, lost, Failure, network, Filled, Loop, ended, broke, make_room, put, read_parts,
  trimmed,
}

-- The allocation holds `done` in front, and is within the maximum.
pub record Holds (maximum : ℕ) (done : Bytes) (f : Filled) : Type 0 where
  pub spare : Bytes
  pub layout : f.target ≡ done ++ spare
  pub used : f.size ≡ length done
  pub bounded : length f.target ≤ maximum

-- What the reader is to return: the parts one behind the other, if they stay within the maximum.
pub data Expected : Type 0 where
  whole : Bytes → Expected
  stopped : Failure → Expected

unfoldable pub concatenate : Failure → ℕ → Bytes → List Part → Expected
concatenate over maximum done [] = whole done
concatenate over maximum done (lost ∷ parts) = stopped network
concatenate over maximum done (chunk part ∷ parts) =
    let rest = concatenate over maximum (done ++ part) parts in
    if ltb maximum (length done + length part) then stopped over else rest

make_room-Holds :
    (maximum next : ℕ) (done : Bytes) (f : Filled)
    → Holds maximum done f
    → length done ≤ next
    → next ≤ maximum
    → Holds maximum done (record { target = make_room maximum f.target f.size next; size = f.size })
      × (next ≤ length (make_room maximum f.target f.size next))
unfolding make_room
make_room-Holds maximum next done f h small fits = elim (Bool-cases (ltb (length f.target) next)) [
  | inl less ↦
      let capacity = min maximum (max next (length f.target * 2)) in
      let short = ltb→lt _ _ less in
      let prefix : take f.size f.target ≡ done = rw (h.used, h.layout) (take-append done h.spare) in
      let size : length (done ++ replicate {A = ℕ} (capacity - f.size) 0) ≡ capacity = omega (
        arith,
        length-append done (replicate {A = ℕ} (capacity - f.size) 0),
        length-replicate {A = ℕ} (capacity - f.size) 0,
        h.used,
      ) in
      rw (less, prefix)
        (
          record {
            spare = replicate (capacity - f.size) 0;
            layout = refl;
            used = h.used;
            bounded = omega (arith, size);
          },
          omega (arith, size),
        )
  | inr enough ↦ rw enough (
    record { spare = h.spare; layout = h.layout; used = h.used; bounded = h.bounded },
    ltb→ge _ _ enough,
  )
]

put-Holds :
    (maximum : ℕ) (done part : Bytes) (f : Filled)
    → Holds maximum done f
    → length done + length part ≤ length f.target
    → Holds maximum
        (done ++ part)
        (record { target = put f.target f.size part; size = f.size + length part })
put-Holds maximum done part f h room =
    let used = h.used in
    let total : length f.target ≡ length done + length h.spare =
      ap length h.layout ∙ length-append done h.spare in
    let kept : put f.target f.size part ≡ (done ++ part) ++ drop (length part) h.spare = rw (
      h.layout,
      used,
      take-append done h.spare,
      drop-append_add done h.spare (length done + length part) (length part) refl,
      append_assoc done part (drop (length part) h.spare),
    ) in
    record {
      spare = drop (length part) h.spare;
      layout = kept;
      used = omega (arith, used, length-append done part);
      bounded = omega (
        arith,
        ap length kept,
        length-append (done ++ part) (drop (length part) h.spare),
        length-append done part,
        length-drop (length part) h.spare,
        h.bounded,
      );
    }

-- The loop ends as the concatenation says, with all bytes in its allocation.
abbrev pub Agrees : ℕ → Loop → Expected → Type 0
Agrees maximum (ended f) (whole done) = Holds maximum done f
Agrees maximum (ended f) (stopped why) = ⊥
Agrees maximum (broke why) (whole done) = ⊥
Agrees maximum (broke why) (stopped why') = why ≡ why'

pub read_parts-Agrees :
    (over : Failure) (maximum : ℕ) (parts : List Part) (done : Bytes) (f : Filled)
    → Holds maximum done f
    → Agrees maximum (read_parts over maximum parts f) (concatenate over maximum done parts)
unfolding read_parts concatenate
read_parts-Agrees over maximum [] done f h = h
read_parts-Agrees over maximum (lost ∷ parts) done f h = refl
read_parts-Agrees over maximum (chunk part ∷ parts) done f h =
    elim (Bool-cases (ltb maximum (length done + length part))) [
      | inl long ↦ rw (h.used, long) refl
      | inr short ↦
          let next = f.size + length part in
          let used = h.used in
          let fits = ltb→ge _ _ short in
          let (roomy, room) =
            make_room-Holds maximum next done f h (omega (arith, used)) (omega (arith, used)) in
          let small : ltb maximum next ≡ false = ge→ltb _ _ (omega (arith, used)) in
          rw (small, short)
            (read_parts-Agrees over maximum parts (done ++ part) _ (
              put-Holds maximum done part
                (record { target = make_room maximum f.target f.size next; size = f.size }) roomy
                (omega (arith, used, room))))
    ]

-- What is used of the allocation is what was read.
pub trimmed_lem :
    (maximum : ℕ) (done : Bytes) (f : Filled) → Holds maximum done f → trimmed f ≡ done
trimmed_lem maximum done f h = elim (Bool-cases (f.size == length f.target)) [
  | inl full ↦
      let size = (==_iff f.size (length f.target)).0 full in
      let none_spare : length h.spare ≡ 0 =
        omega (arith, ap length h.layout, length-append done h.spare, size, h.used) in
      rw full (h.layout ∙ no_spare done h.spare none_spare)
  | inr part ↦ rw part (rw (h.used, h.layout) (take-append done h.spare))
]
  where
    no_spare : (xs ys : Bytes) → length ys ≡ 0 → xs ++ ys ≡ xs
    no_spare xs [] e = append-nil xs
    no_spare xs (y ∷ ys) e = absurd (omega arith)
