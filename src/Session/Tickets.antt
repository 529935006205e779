-- ===== src/Session/Tickets.antt =====
-- web/src/lib/session.ts: the tickets of `SensitiveSession`, its generations and abort signals.
use erase_to.Prelude.{
  ℕ, zero, suc, ◌+◌, ◌≡◌, inl, inr, refl, Bool, true, false, not, ◌&&◌, ◌||◌, Option, none, some,
  List, [], ◌∷◌, arith, ◌==◌, Bool-cases, if◌then◌else◌,
}
use erase_to.Session.{
  Session, Effect, cleared, warning, clock, ClearReason, Ticket, Microtask, clear, is_over, expire,
  ticket, valid, check, announce, touch_at, keep, activity, settle, run_microtask, visibility,
  restore, fire, destroy, attach, Event, handle, run, when_attached, attach_called, ticketed,
  validated, touched, checked, fired, kept, acted, microtask, visibility_changed, page_hidden,
  destroyed, page_shown, asked_to_clear,
}

-- How often `options.clear` was called.
abbrev pub clearings : List Effect → ℕ
clearings [] = 0
clearings (cleared reason ∷ log) = suc (clearings log)
clearings (warning n ∷ log) = clearings log
clearings (clock n ∷ log) = clearings log

-- The numbers below a bound, the greatest first.
abbrev pub below : ℕ → List ℕ
below zero = []
below (suc n) = n ∷ below n

-- From a generation on, the session has counted its clearings; the controllers of all earlier generations are
-- aborted.
pub record IsValid (base : ℕ) (s : Session) : Type 0 where
  pub counted : base + clearings s.log ≡ s.generation
  pub current : s.controller ≡ s.generation
  pub earlier : s.aborted ≡ below s.generation

module _ {base : ℕ} where
  pub clear-IsValid :
      (reason : ClearReason) (s : Session) → IsValid base s → IsValid base (clear reason s)
  unfolding clear
  clear-IsValid reason s v =
      let next : s.generation + 1 ≡ suc s.generation = omega arith in
      record {
        counted = omega (arith, v.counted);
        current = omega (arith, v.current);
        earlier = rw (next, v.earlier, v.current);
      }

  pub expire-IsValid : (now : ℕ) (s : Session) → IsValid base s → IsValid base (expire now s).0
  unfolding expire
  expire-IsValid now s v = elim (Bool-cases (is_over now s)) [
    | inl over ↦ rw over (clear-IsValid ClearReason.expired s v)
    | inr ahead ↦ rw ahead v
  ]

  -- A change of deadline, timer, queue or listeners, and reports of the time left.
  retimed :
      (s : Session) (deadline : ℕ) (timer : Option ℕ) (a : Bool) (q : List Microtask)
      → IsValid base s
      → IsValid base (record s { deadline = deadline; timer = timer; attached = a; queue = q })
  retimed s deadline timer a q v = record {
    counted = v.counted;
    current = v.current;
    earlier = v.earlier;
  }

  check-IsValid :
      (has_data : Bool) (now : ℕ) (s : Session)
      → IsValid base s
      → IsValid base (check has_data now s)
  unfolding check announce
  check-IsValid has_data now s v =
      let stopped = record s { timer = none } in
      let v' = retimed s s.deadline none s.attached s.queue v in
      elim (Bool-cases (is_over now stopped)) [
        | inl over ↦ rw over (clear-IsValid ClearReason.expired stopped v')
        | inr ahead ↦ elim (Bool-cases (s.deadline == 0 || not has_data)) [
          | inl idle ↦
              rw (ahead, idle)
                (record { counted = v.counted; current = v.current; earlier = v.earlier })
          | inr busy ↦
              rw (ahead, busy)
                (record { counted = v.counted; current = v.current; earlier = v.earlier })
        ]
      ]

  pub touch_at-IsValid :
      (has_data : Bool) (at now : ℕ) (s : Session)
      → IsValid base s
      → IsValid base (touch_at has_data at now s)
  unfolding touch_at
  touch_at-IsValid has_data at now s v =
      check-IsValid has_data now _
        (retimed s (if has_data then at + 300000 else 0) s.timer s.attached s.queue v)

  keep-IsValid :
      (trusted is_hidden has_data : Bool) (now : ℕ) (s : Session)
      → IsValid base s
      → IsValid base (keep trusted is_hidden has_data now s)
  unfolding keep
  keep-IsValid trusted is_hidden has_data now s v = elim (Bool-cases (trusted && not is_hidden)) [
    | inl real ↦ elim (Bool-cases (expire now s).1) [
      | inl over ↦ rw (real, over) (expire-IsValid now s v)
      | inr ahead ↦
          rw (real, ahead)
            (touch_at-IsValid has_data now now (expire now s).0 (expire-IsValid now s v))
    ]
    | inr other ↦ rw other v
  ]

  activity-IsValid :
      (trusted is_hidden has_data : Bool) (now : ℕ) (s : Session)
      → IsValid base s
      → IsValid base (activity trusted is_hidden has_data now s)
  unfolding activity
  activity-IsValid trusted is_hidden has_data now s v =
      let v' = expire-IsValid now s v in
      let touched = touch_at has_data now now (expire now s).0 in
      elim (Bool-cases (not trusted || is_hidden)) [
        | inl other ↦ rw other v
        | inr real ↦ elim (Bool-cases (expire now s).1) [
          | inl over ↦ rw (real, over) v'
          | inr ahead ↦
              rw (real, ahead)
                (retimed touched touched.deadline touched.timer touched.attached _
                  (touch_at-IsValid has_data now now (expire now s).0 v'))
        ]
      ]

  settle-IsValid :
      (is_hidden has_data : Bool) (now : ℕ) (task : Microtask) (s : Session)
      → IsValid base s
      → IsValid base (settle is_hidden has_data now task s)
  unfolding settle
  settle-IsValid is_hidden has_data now task s v =
      let v' = expire-IsValid now s v in
      elim (Bool-cases (not (task.generation == s.generation) || is_hidden)) [
        | inl stale ↦ rw stale v
        | inr fresh ↦ elim (Bool-cases (expire now s).1) [
          | inl over ↦ rw (fresh, over) v'
          | inr ahead ↦
              rw (fresh, ahead) (touch_at-IsValid has_data task.at now (expire now s).0 v')
        ]
      ]

  microtask-IsValid :
      (is_hidden has_data : Bool) (now : ℕ) (s : Session) (queue : List Microtask)
      → s.queue ≡ queue
      → IsValid base s
      → IsValid base (run_microtask is_hidden has_data now s)
  unfolding run_microtask
  microtask-IsValid is_hidden has_data now s [] e v = rw (e, run_microtask) v
  microtask-IsValid is_hidden has_data now s (task ∷ rest) e v =
      rw (e, run_microtask)
        (settle-IsValid is_hidden has_data now task (record s { queue = rest })
          (retimed s s.deadline s.timer s.attached rest v))

  fire-IsValid :
      (has_data : Bool) (now : ℕ) (s : Session) (timer : Option ℕ)
      → s.timer ≡ timer
      → IsValid base s
      → IsValid base (fire has_data now s)
  unfolding fire
  fire-IsValid has_data now s none e v = rw (e, fire) v
  fire-IsValid has_data now s (some delay) e v = rw (e, fire) (check-IsValid has_data now s v)

  pub valid-IsValid :
      (t : Ticket) (now : ℕ) (s : Session) → IsValid base s → IsValid base (valid t now s).0
  unfolding valid
  valid-IsValid t now s v = elim (Bool-cases (t.generation == s.generation)) [
    | inl same ↦ rw same (expire-IsValid now s v)
    | inr stale ↦ rw stale v
  ]

  visibility-IsValid :
      (is_hidden hide_now has_data : Bool) (now : ℕ) (s : Session)
      → IsValid base s
      → IsValid base (visibility is_hidden hide_now has_data now s)
  unfolding visibility
  visibility-IsValid true true has_data now s v = clear-IsValid ClearReason.hidden s v
  visibility-IsValid true false has_data now s v = v
  visibility-IsValid false hide_now has_data now s v = check-IsValid has_data now s v

  restore-IsValid :
      (persisted : Bool) (s : Session) → IsValid base s → IsValid base (restore persisted s)
  unfolding restore
  restore-IsValid true s v = clear-IsValid ClearReason.navigation s v
  restore-IsValid false s v = v

  when_attached-IsValid :
      (s s' : Session) → IsValid base s → IsValid base s' → IsValid base (when_attached s s')
  when_attached-IsValid s s' v v' = elim (Bool-cases s.attached) [
    | inl on ↦ rw on v'
    | inr off ↦ simp off v
  ]

  pub handle-IsValid :
      (event : Event) (s : Session) → IsValid base s → IsValid base (handle event s)
  unfolding handle
  handle-IsValid attach_called s v = unfold attach in retimed s s.deadline s.timer true s.queue v
  handle-IsValid (ticketed now) s v = unfold ticket in expire-IsValid now s v
  handle-IsValid (validated t now) s v = valid-IsValid t now s v
  handle-IsValid (touched has_data now) s v = touch_at-IsValid has_data now now s v
  handle-IsValid (checked has_data now) s v = check-IsValid has_data now s v
  handle-IsValid (fired has_data now) s v = fire-IsValid has_data now s s.timer refl v
  handle-IsValid (kept trusted is_hidden has_data now) s v =
      keep-IsValid trusted is_hidden has_data now s v
  handle-IsValid (acted trusted is_hidden has_data now) s v =
      when_attached-IsValid s _ v (activity-IsValid trusted is_hidden has_data now s v)
  handle-IsValid (microtask is_hidden has_data now) s v =
      microtask-IsValid is_hidden has_data now s s.queue refl v
  handle-IsValid (visibility_changed is_hidden hide_now has_data now) s v =
      when_attached-IsValid s _ v (visibility-IsValid is_hidden hide_now has_data now s v)
  handle-IsValid page_hidden s v =
      when_attached-IsValid s _ v (clear-IsValid ClearReason.navigation s v)
  handle-IsValid destroyed s v =
      unfold destroy in
      clear-IsValid ClearReason.navigation _ (retimed s s.deadline s.timer false s.queue v)
  handle-IsValid (page_shown persisted) s v =
      when_attached-IsValid s _ v (restore-IsValid persisted s v)
  handle-IsValid (asked_to_clear reason) s v = clear-IsValid reason s v

  pub run-IsValid :
      (events : List Event) (s : Session) → IsValid base s → IsValid base (run events s)
  unfolding run
  run-IsValid [] s v = v
  run-IsValid (event ∷ events) s v = run-IsValid events (handle event s) (handle-IsValid event s v)
