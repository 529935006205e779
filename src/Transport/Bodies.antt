-- ===== src/Transport/Bodies.antt =====
-- web/src/lib/api.ts and cli/client.ts: the bodies that the two readers return.
use erase_to.Prelude.{
  ℕ, ◌+◌, ◌≤◌, min, ◌≡◌, ◌↔◌, inl, inr, refl, sym, ap, ◌∙◌, Option, none, some, List, [], ◌∷◌, ◌++◌,
  append_assoc, append-nil, arith, ltb, ◌==◌, ge→ltb, ltb→ge, ==_iff, Bool-cases, Option-cases,
  length, replicate, length-replicate, length-append,
}
use erase_to.Types.{Bytes}
use erase_to.Transport.{
  Part, chunk, lost, Failure, Outcome, body, failed, Filled, Loop, ended, broke, read_parts,
  check_length, ceiling, first_allocation,
}
use erase_to.Transport.Growth.{
  Holds, Expected, whole, stopped, concatenate, Agrees, read_parts-Agrees, trimmed_lem,
}

-- All parts of a stream that breaks off nowhere.
abbrev pub joined : List Part → Option Bytes
joined [] = some []
joined (lost ∷ parts) = none
joined (chunk part ∷ parts) = elim (joined parts) [ none ↦ none | some rest ↦ some (part ++ rest) ]

abbrev pub Matches : Option ℕ → Bytes → Type 0
Matches none bytes = Unit {0}
Matches (some n) bytes = length bytes ≡ n

-- The stream is whole, within the maximum, and as long as announced.
pub record IsBody (limit : ℕ) (expected : Option ℕ) (parts : List Part) (bytes : Bytes)
    : Type 0 where
  pub complete : joined parts ≡ some bytes
  pub within : length bytes ≤ ceiling limit expected
  pub announced : Matches expected bytes

concatenate-joined :
    (over : Failure) (maximum : ℕ) (parts : List Part) (done bytes : Bytes)
    → length done ≤ maximum
    → concatenate over maximum done parts ≡ whole bytes
    → (rest : Bytes) × (joined parts ≡ some rest)
      × (done ++ rest ≡ bytes)
      × (length bytes ≤ maximum)
unfolding concatenate
concatenate-joined over maximum [] done bytes h e =
    let same : done ≡ bytes = cc in ([], refl, append-nil done ∙ same, rw (← same) h)
concatenate-joined over maximum (lost ∷ parts) done bytes h e = absurd (cc)
concatenate-joined over maximum (chunk part ∷ parts) done bytes h e =
    elim (Bool-cases (ltb maximum (length done + length part))) [
      | inl long ↦ let x : stopped over ≡ whole bytes = rw long at e in absurd (cc)
      | inr short ↦
          let fits : length (done ++ part) ≤ maximum =
            omega (arith, ltb→ge _ _ short, length-append done part) in
          let (rest, found, same, within) =
            concatenate-joined over maximum parts (done ++ part) bytes fits (rw short at e) in
          (part ++ rest, rw found, sym (append_assoc done part rest) ∙ same, within)
    ]

joined-concatenate :
    (over : Failure) (maximum : ℕ) (parts : List Part) (done rest : Bytes)
    → joined parts ≡ some rest
    → length (done ++ rest) ≤ maximum
    → concatenate over maximum done parts ≡ whole (done ++ rest)
unfolding concatenate
joined-concatenate over maximum [] done rest e h =
    let same : [] ≡ rest = cc in rw (← same, append-nil done)
joined-concatenate over maximum (lost ∷ parts) done rest e h = absurd (cc)
joined-concatenate over maximum (chunk part ∷ parts) done rest e h =
    elim (Option-cases (joined parts)) [
      | inl missing ↦ let x : none ≡ some rest = rw missing at e in absurd (cc)
      | inr (more, found) ↦
          let x : some (part ++ more) ≡ some rest = rw found at e in
          let same : part ++ more ≡ rest = cc in
          let assoc : (done ++ part) ++ more ≡ done ++ rest =
            append_assoc done part more ∙ ap (λ (s : Bytes). done ++ s) same in
          let fits : length done + length part ≤ maximum = omega (
            arith,
            h,
            ap length assoc,
            length-append (done ++ part) more,
            length-append done part,
          ) in
          rw (ge→ltb _ _ fits, ← assoc)
            (joined-concatenate over maximum parts (done ++ part) more found (rw assoc h))
    ]

-- The loop over a stream that is to fill a fresh allocation.
start-Holds :
    (limit : ℕ) (expected : Option ℕ)
    → Holds (ceiling limit expected) [] (first_allocation limit expected)
start-Holds limit none = record {
  spare = replicate (min limit 65536) 0;
  layout = refl;
  used = refl;
  bounded = omega (arith, length-replicate {A = ℕ} (min limit 65536) 0);
}
start-Holds limit (some n) = record {
  spare = replicate n 0;
  layout = refl;
  used = refl;
  bounded = omega (arith, length-replicate {A = ℕ} n 0);
}

module _ (short : Failure) where
  abbrev pub outcome_of : Option ℕ → Loop → Outcome
  outcome_of expected (broke why) = failed why
  outcome_of expected (ended f) = check_length short expected f

  check_length-body :
      (maximum : ℕ) (expected : Option ℕ) (f : Filled) (done bytes : Bytes)
      → Holds maximum done f
      → check_length short expected f ≡ body bytes
      → (done ≡ bytes) × Matches expected bytes
  check_length-body maximum none f done bytes h e =
      let x : body done ≡ body bytes = rw (trimmed_lem maximum done f h) at e in (cc, tt)
  check_length-body maximum (some n) f done bytes h e = elim (Bool-cases (f.size == n)) [
    | inl all_there ↦
        let x : body done ≡ body bytes = rw (all_there, trimmed_lem maximum done f h) at e in
        let same : done ≡ bytes = cc in
        (same, omega (arith, (==_iff f.size n).0 all_there, h.used, ap length same))
    | inr less ↦ let x : failed short ≡ body bytes = rw less at e in absurd (cc)
  ]

  body-check_length :
      (maximum : ℕ) (expected : Option ℕ) (f : Filled) (done : Bytes)
      → Holds maximum done f
      → Matches expected done
      → check_length short expected f ≡ body done
  body-check_length maximum none f done h m = ap body (trimmed_lem maximum done f h)
  body-check_length maximum (some n) f done h m =
      let same : f.size ≡ n = h.used ∙ m in
      rw ((==_iff f.size n).1 same) (ap body (trimmed_lem maximum done f h))

  loop_sound :
      (maximum : ℕ) (expected : Option ℕ) (loop : Loop) (e : Expected) (bytes : Bytes)
      → Agrees maximum loop e
      → outcome_of expected loop ≡ body bytes
      → (e ≡ whole bytes) × Matches expected bytes
  loop_sound maximum expected (ended f) (whole done) bytes a h =
      let (same, m) = check_length-body maximum expected f done bytes a h in (ap whole same, m)
  loop_sound maximum expected (ended f) (stopped why) bytes a h = absurd a
  loop_sound maximum expected (broke why) e bytes a h = absurd (cc)

  loop_complete :
      (maximum : ℕ) (expected : Option ℕ) (loop : Loop) (e : Expected) (bytes : Bytes)
      → Agrees maximum loop e
      → e ≡ whole bytes
      → Matches expected bytes
      → outcome_of expected loop ≡ body bytes
  loop_complete maximum expected (ended f) (whole done) bytes a h m =
      let same : done ≡ bytes = cc in
      rw (← same) (body-check_length maximum expected f done a (rw same m))
  loop_complete maximum expected (ended f) (stopped why) bytes a h m = absurd a
  loop_complete maximum expected (broke why) (whole done) bytes a h m = absurd a
  loop_complete maximum expected (broke why) (stopped why') bytes a h m = absurd (cc)

  -- What the loop and the check behind it return from a fresh allocation.
  pub fresh_iff :
      (over : Failure) (limit : ℕ) (expected : Option ℕ) (parts : List Part) (bytes : Bytes)
      → (outcome_of expected
            (read_parts over (ceiling limit expected) parts (first_allocation limit expected))
          ≡ body bytes)
        ↔ IsBody limit expected parts bytes
  fresh_iff over limit expected parts bytes =
      let maximum = ceiling limit expected in
      let loop = read_parts over maximum parts (first_allocation limit expected) in
      let agrees = read_parts-Agrees over maximum parts [] _ (start-Holds limit expected) in
      (
        λ h.
            let (same, m) =
              loop_sound maximum expected loop (concatenate over maximum [] parts) bytes agrees h in
            let (rest, found, equal, within) =
              concatenate-joined over maximum parts [] bytes (omega arith) same in
            record { complete = found ∙ ap some equal; within = within; announced = m },
        λ b.
            loop_complete maximum expected loop (concatenate over maximum [] parts) bytes agrees
              (joined-concatenate over maximum parts [] bytes b.complete b.within) b.announced,
      )
