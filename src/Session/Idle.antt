-- ===== src/Session/Idle.antt =====
-- web/src/lib/session.ts: a session without activity, and the checks that it schedules.
use erase_to.Prelude.{
  ℕ, zero, suc, ◌+◌, ◌-◌, ◌*◌, ◌≤◌, ◌<◌, min, ◌≡◌, refl, ap, ◌∙◌, true, false, Option, none, some,
  List, ◌∷◌, arith, leb, ◌==◌, le→leb, if◌then◌else◌,
}
use erase_to.Session.{
  Session, Effect, cleared, warning, clock, expired, clear, check, announce, touch_at, fire,
  seconds,
}

-- A time, and the session then.
pub record Moment : Type 0 where
  pub now : ℕ
  pub session : Session

abbrev wait : ℕ → Option ℕ → ℕ
wait now none = now
wait now (some delay) = now + delay

-- The scheduled check at its time, while the page still holds data.
unfoldable pub punctual : Moment → Moment
punctual m =
    let later = wait m.now m.session.timer in
    record { now = later; session = fire true later m.session }

unfoldable pub punctuals : ℕ → Moment → Moment
unfolding punctual
punctuals zero m = m
punctuals (suc k) m = punctuals k (punctual m)

-- `n` seconds are left and shown, with the warning in the last thirty, and a check is scheduled for a
-- second later; the session is still that of the generation `generation`.
pub record Counting (n generation : ℕ) (m : Moment) : Type 0 where
  pub left : m.session.deadline ≡ m.now + n * 1000
  pub scheduled : m.session.timer ≡ some 1000
  pub same_generation : m.session.generation ≡ generation
  pub older : List Effect
  pub shown : m.session.log ≡ clock n ∷ warning (if leb n 30 then n else 0) ∷ older

-- The session has been cleared once, for inactivity.
pub record Expired (generation : ℕ) (m : Moment) : Type 0 where
  pub new_generation : m.session.generation ≡ generation + 1
  pub older : List Effect
  pub told : m.session.log ≡ cleared expired ∷ clock 0 ∷ warning 0 ∷ older
  pub unscheduled : m.session.timer ≡ none

-- A check before the deadline shows the seconds left, with the warning in the last thirty, and
-- schedules the next.
check_ahead :
    (now : ℕ) (s : Session)
    → now < s.deadline
    → check true now s ≡ announce now (record s { timer = none })
unfolding check
check_ahead now s h =
    let some_deadline : (s.deadline == 0) ≡ false = ground arith in rw (some_deadline, not_yet)
  where
    not_yet : leb s.deadline now ≡ false
    not_yet = ground arith

check_over :
    (now : ℕ) (s : Session)
    → 0 < s.deadline
    → s.deadline ≤ now
    → check true now s ≡ clear expired (record s { timer = none })
unfolding check
check_over now s h k =
    let some_deadline : (s.deadline == 0) ≡ false = ground arith in
    rw (some_deadline, le→leb s.deadline now k)

announce-Counting :
    (n now : ℕ) (s : Session)
    → s.deadline ≡ now + suc n * 1000
    → Counting (suc n) s.generation (record { now = now; session = announce now s })
unfolding announce
announce-Counting n now s h =
    let left : s.deadline - now ≡ suc n * 1000 = omega arith in
    let shown : seconds (s.deadline - now) ≡ suc n = omega arith in
    let delay : min (s.deadline - now) 1000 ≡ 1000 = omega arith in
    record {
      left = h;
      scheduled = ap (λ (d : ℕ). some d) delay;
      same_generation = refl;
      older = s.log;
      shown = rw shown (ground arith);
    }

touch_at-Counting :
    (now : ℕ) (s : Session)
    → Counting 300 s.generation (record { now = now; session = touch_at true now now s })
unfolding touch_at
touch_at-Counting now s =
    rw (check_ahead now (record s { deadline = now + 300000 }) (omega arith))
      (announce-Counting 299 now (record s { deadline = now + 300000; timer = none }) refl)

punctual_at :
    (m : Moment)
    → m.session.timer ≡ some 1000
    → punctual m ≡ record { now = m.now + 1000; session = check true (m.now + 1000) m.session }
unfolding punctual fire
punctual_at m e = rw (e, fire) (rw e refl)

punctual-Counting :
    (n generation : ℕ) (m : Moment)
    → Counting (suc (suc n)) generation m
    → Counting (suc n) generation (punctual m)
punctual-Counting n generation m c =
    rw (punctual_at m c.scheduled, check_ahead (m.now + 1000) m.session (omega (arith, c.left)))
      (let k =
          announce-Counting n (m.now + 1000) (record m.session { timer = none })
            (omega (arith, c.left)) in
        record {
          left = k.left;
          scheduled = k.scheduled;
          same_generation = k.same_generation ∙ c.same_generation;
          older = k.older;
          shown = k.shown;
        })

punctual-Expired :
    (generation : ℕ) (m : Moment) → Counting 1 generation m → Expired generation (punctual m)
punctual-Expired generation m c =
    rw
      (
        punctual_at m c.scheduled,
        check_over (m.now + 1000) m.session (omega (arith, c.left)) (omega (arith, c.left)),
      )
      (unfold clear in
        record {
          new_generation = omega (arith, c.same_generation);
          older = m.session.log;
          told = refl;
          unscheduled = refl;
        })

punctual_now : (m : Moment) → m.session.timer ≡ some 1000 → (punctual m).now ≡ m.now + 1000
punctual_now m e = ap (λ (x : Moment). x.now) (punctual_at m e)

punctuals-Counting :
    (k n total generation : ℕ) (m : Moment)
    → total ≡ suc (k + n)
    → Counting total generation m
    → Counting (suc n) generation (punctuals k m) × ((punctuals k m).now ≡ m.now + k * 1000)
unfolding punctuals
punctuals-Counting zero n total generation m e c =
    let e' : total ≡ suc n = omega arith in (rw e' at c, omega arith)
punctuals-Counting (suc k) n total generation m e c =
    let e' : total ≡ suc (suc (k + n)) = omega arith in
    let c' = rw e' at c in
    let (later, time) =
      punctuals-Counting k n (suc (k + n)) generation (punctual m) refl
        (punctual-Counting (k + n) generation m c') in
    (later, omega (arith, time, punctual_now m c'.scheduled))

punctuals-suc : (k : ℕ) (m : Moment) → punctuals (suc k) m ≡ punctual (punctuals k m)
unfolding punctuals
punctuals-suc zero m = refl
punctuals-suc (suc k) m = punctuals-suc k (punctual m)

-- The moment at which a session that holds data is touched.
abbrev pub touched_at : ℕ → Session → Moment
touched_at now s = record { now = now; session = touch_at true now now s }

-- When a session that holds data is touched and then left alone, its own checks, each at its time,
-- count down the 300 seconds: before the k-th second the session is not cleared, it shows the
-- seconds left, and it warns in the last thirty.
pub idle_counts_down :
    (now k : ℕ) (s : Session)
    → k < 300
    → Counting (300 - k) s.generation (punctuals k (touched_at now s))
      × ((punctuals k (touched_at now s)).now ≡ now + k * 1000)
idle_counts_down now k s h =
    let e : 300 - k ≡ suc (299 - k) = omega arith in
    rw e (
      punctuals-Counting k (299 - k) 300 s.generation (touched_at now s) (omega arith)
        (touch_at-Counting now s))

-- The next of these checks, 300 seconds after the touch and not earlier, clears the session once,
-- as expired, and schedules no other.
pub idle_expires :
    (now : ℕ) (s : Session)
    → Expired s.generation (punctuals 300 (touched_at now s))
      × ((punctuals 300 (touched_at now s)).now ≡ now + 300000)
idle_expires now s =
    let (last, time) = idle_counts_down now 299 s (omega arith) in
    rw (punctuals-suc 299 (touched_at now s)) (
      punctual-Expired s.generation (punctuals 299 (touched_at now s)) last,
      omega (arith, time, punctual_now (punctuals 299 (touched_at now s)) last.scheduled),
    )
