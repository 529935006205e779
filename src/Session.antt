-- ===== src/Session.antt =====
-- web/src/lib/session.ts: `SensitiveSession`. Each method is a function of the object; `now` is the
-- reading of the clock in that call, which is one synchronous piece of code, and `has_data` and
-- `hide_now` are what `options.hasData()` and `options.hideImmediately()` answer in it. What the
-- object does to its surroundings is kept in `log`, the latest first.
pub mod Tickets
pub mod Validity
pub mod Idle
mod Tests
use erase_to.Prelude.{
  ℕ, zero, suc, ◌+◌, ◌-◌, ◌*◌, ◌/◌, ◌%◌, ◌^◌, ◌≤◌, ◌<◌, min, max, ◌≡◌, ◌≢◌, ◌↔◌, ◌⊎◌, inl, inr,
  refl, sym, ap, ◌∙◌, ◌≡⟨◌⟩◌, ◌∎, subst, Bool, true, false, not, ◌&&◌, ◌||◌, Option, none, some,
  List, [], ◌∷◌, ◌++◌, map, append_assoc, append-nil, arith, ltb, leb, ◌==◌, ge→ltb, lt→ltb, ltb→lt,
  ltb→ge, le→leb, leb→le, ==_iff, ==_self, or-eq-false, not-eq-false, and-eq-true, Bool-cases,
  Option-cases, if◌then◌else◌, list_eq, list_eq_self, list_eq→eq, length, all, any, All, codes,
  replicate, length-replicate, length-take, length-map, length-drop, length-append, take, drop,
  take-append, drop-append, drop-append_add, drop-drop, take_all, drop_all, take-append-drop,
}

pub data ClearReason : Type 0 where
  manual expired hidden navigation : ClearReason

-- A call of `options.warning`, `options.clock` or `options.clear`.
pub data Effect : Type 0 where
  warning : ℕ → Effect
  clock : ℕ → Effect
  cleared : ClearReason → Effect

-- A microtask that `activity` has queued: the generation and the time of the event.
pub record Microtask : Type 0 where
  pub generation : ℕ
  pub at : ℕ

-- Abort controllers are numbered as they are made; `aborted` lists those that were aborted. `timer` is
-- the delay of the scheduled check. A `deadline` of 0 is none.
pub record Session : Type 0 where
  pub generation : ℕ
  pub controller : ℕ
  pub aborted : List ℕ
  pub deadline : ℕ
  pub timer : Option ℕ
  pub attached : Bool
  pub queue : List Microtask
  pub log : List Effect

pub record Ticket : Type 0 where
  pub generation : ℕ
  pub signal : ℕ

-- The constructor.
abbrev pub new_session : Session
new_session = record {
  generation = 0;
  controller = 0;
  aborted = [];
  deadline = 0;
  timer = none;
  attached = false;
  queue = [];
  log = [];
}

unfoldable pub clear : ClearReason → Session → Session
clear reason s = record s {
  generation = s.generation + 1;
  aborted = s.controller ∷ s.aborted;
  controller = s.controller + 1;
  timer = none;
  deadline = 0;
  log = cleared reason ∷ clock 0 ∷ warning 0 ∷ s.log;
}

-- `this.deadline && this.now() >= this.deadline`.
abbrev pub is_over : ℕ → Session → Bool
is_over now s = not (s.deadline == 0) && leb s.deadline now

unfoldable pub expire : ℕ → Session → Session × Bool
unfolding clear
expire now s = if is_over now s then (clear expired s, true) else (s, false)

unfoldable pub ticket : ℕ → Session → Session × Ticket
unfolding expire
ticket now s =
    let s' = (expire now s).0 in (s', record { generation = s'.generation; signal = s'.controller })

abbrev pub mem : ℕ → List ℕ → Bool
mem x [] = false
mem x (y ∷ ys) = x == y || mem x ys

-- `valid(ticket)`: a ticket of the present generation makes the session expire first, if it has to.
unfoldable pub valid : Ticket → ℕ → Session → Session × Bool
unfolding expire
valid t now s =
    if t.generation == s.generation
    then (let (s', over) = expire now s in (s', not over && not (mem t.signal s'.aborted)))
    else (s, false)

-- `Math.ceil(left / 1000)`.
abbrev pub seconds : ℕ → ℕ
seconds left = (left + 999) / 1000

-- What `check` does when a deadline lies ahead: it shows the time left, and schedules itself.
unfoldable pub announce : ℕ → Session → Session
announce now s =
    let left = s.deadline - now in
    record s {
      timer = some (min left 1000);
      log = clock (seconds left) ∷ warning (if leb left 30000 then seconds left else 0) ∷ s.log;
    }

unfoldable pub check : Bool → ℕ → Session → Session
unfolding clear announce
check has_data now s =
    let stopped = record s { timer = none } in
    if is_over now stopped
    then clear expired stopped
    else if stopped.deadline == 0 || not has_data
    then record stopped { deadline = 0; log = clock 0 ∷ warning 0 ∷ s.log }
    else announce now stopped

-- `touchAt(at)`, and `touch()` for `at` the present time.
unfoldable pub touch_at : Bool → ℕ → ℕ → Session → Session
unfolding check
touch_at has_data at now s =
    check has_data now (record s { deadline = if has_data then at + 300000 else 0 })

-- `keep(event)`.
unfoldable pub keep : Bool → Bool → Bool → ℕ → Session → Session
unfolding touch_at expire
keep trusted is_hidden has_data now s =
    if trusted && not is_hidden
    then (let (s', over) = expire now s in if over then s' else touch_at has_data now now s')
    else s

-- The listener of pointer, key and input events: it touches the session, and queues a microtask.
unfoldable pub activity : Bool → Bool → Bool → ℕ → Session → Session
unfolding touch_at expire
activity trusted is_hidden has_data now s =
    if not trusted || is_hidden
    then s
    else let (s', over) = expire now s in
      let touched = touch_at has_data now now s' in
      if over then s' else record touched {
        queue = touched.queue ++ record { generation = s'.generation; at = now } ∷ [];
      }

-- The microtask: it touches the session again, as of the event, unless it was cleared meanwhile.
unfoldable pub settle : Bool → Bool → ℕ → Microtask → Session → Session
unfolding touch_at expire
settle is_hidden has_data now task s =
    if not (task.generation == s.generation) || is_hidden
    then s
    else let (s', over) = expire now s in if over then s' else touch_at has_data task.at now s'

unfoldable pub run_microtask : Bool → Bool → ℕ → Session → Session
unfolding settle
run_microtask is_hidden has_data now s = elim s.queue [
  | [] ↦ s
  | task ∷ rest ↦ settle is_hidden has_data now task (record s { queue = rest })
]

-- The listener of `visibilitychange`.
unfoldable pub visibility : Bool → Bool → Bool → ℕ → Session → Session
unfolding clear check
visibility is_hidden hide_now has_data now s =
    if is_hidden && hide_now
    then clear hidden s
    else if not is_hidden
    then check has_data now s
    else s

-- The listener of `pageshow`.
unfoldable pub restore : Bool → Session → Session
unfolding clear
restore persisted s = if persisted then clear navigation s else s

-- The scheduled check, if there is one.
unfoldable pub fire : Bool → ℕ → Session → Session
unfolding check
fire has_data now s = elim s.timer [ none ↦ s | some delay ↦ check has_data now s ]

unfoldable pub destroy : Session → Session
unfolding clear
destroy s = clear navigation (record s { attached = false })

-- `attach()`, called once.
unfoldable pub attach : Session → Session
attach s = record s { attached = true }

-- What can happen to a session: a call of a method by its owner, an event of the document or the
-- window, a microtask, or the timer. The numbers are the times.
pub data Event : Type 0 where
  attach_called : Event
  ticketed : ℕ → Event
  validated : Ticket → ℕ → Event
  touched checked fired : Bool → ℕ → Event
  kept acted : Bool → Bool → Bool → ℕ → Event
  microtask : Bool → Bool → ℕ → Event
  visibility_changed : Bool → Bool → Bool → ℕ → Event
  page_hidden destroyed : Event
  page_shown : Bool → Event
  asked_to_clear : ClearReason → Event

abbrev pub when_attached : Session → Session → Session
when_attached s s' = if s.attached then s' else s

unfoldable pub handle : Event → Session → Session
handle attach_called s = attach s
handle (ticketed now) s = (ticket now s).0
handle (validated t now) s = (valid t now s).0
handle (touched has_data now) s = touch_at has_data now now s
handle (checked has_data now) s = check has_data now s
handle (fired has_data now) s = fire has_data now s
handle (kept trusted is_hidden has_data now) s = keep trusted is_hidden has_data now s
handle (acted trusted is_hidden has_data now) s =
    when_attached s (activity trusted is_hidden has_data now s)
handle (microtask is_hidden has_data now) s = run_microtask is_hidden has_data now s
handle (visibility_changed is_hidden hide_now has_data now) s =
    when_attached s (visibility is_hidden hide_now has_data now s)
handle page_hidden s = when_attached s (clear navigation s)
handle destroyed s = destroy s
handle (page_shown persisted) s = when_attached s (restore persisted s)
handle (asked_to_clear reason) s = clear reason s

-- A sequence of events, in order.
unfoldable pub run : List Event → Session → Session
run [] s = s
run (event ∷ events) s = run events (handle event s)
