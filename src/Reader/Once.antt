-- ===== src/Reader/Once.antt =====
-- web/src/lib/controllers.ts: the tickets of the calls of `open` that wait, and the packets asked for.
use erase_to.Prelude.{
  ℕ, zero, suc, ◌+◌, ◌≤◌, ◌<◌, ◌≡◌, ◌⊎◌, inl, inr, refl, Bool, false, List, [], ◌++◌, arith,
  if◌then◌else◌, All,
}
use erase_to.Types.{Text}
use erase_to.Session.{Session, Ticket}
use erase_to.Reader.{Reader, on_session}
use erase_to.Page.{tickets_of}
use erase_to.Session.Tickets.{IsValid, clearings}
use erase_to.Reader.Tickets.{IsIssued, IsIssued-later, tickets_of-later}
use erase_to.Reader.Callbacks.{retrievals, absorb-IsUntouched, absorb-IsKept, absorb-IsWiped}

abbrev pub IsFresh : Session → Type 0
IsFresh s = IsValid s.generation (record s { log = [] })

-- Of the present generation at most one call of `open` waits, exactly if the object is busy; it has asked
-- for the packet at most once, and if it has, then it still waits or there is no link to open.
-- `asked` counts the packets asked for, `before` are the tickets of the calls that have not asked, and
-- `after` of those that have.
pub record IsOnce (s : Session) (busy : Bool) (id : Text) (asked : ℕ) (before after : List Ticket)
    : Type 0 where
  pub silent : s.log ≡ []
  pub fresh : IsFresh s
  pub before_issued : All (IsIssued s.generation) before
  pub after_issued : All (IsIssued s.generation) after
  pub single :
      tickets_of s.generation before + tickets_of s.generation after ≡ (if busy then 1 else 0)
  pub once : asked + tickets_of s.generation before ≤ 1
  pub used : (id ≡ []) ⊎ (asked ≤ tickets_of s.generation after)

-- The object's state, while the calls with the tickets `b` and `a` run.
abbrev pub Holds : List Ticket → List Ticket → Reader → Type 0
Holds b a r =
    IsOnce r.session r.busy r.id (retrievals r.requests) (b ++ r.preparing)
      (a ++ (r.retrieving ++ r.decrypting))

-- A clearing ends the generation of all tickets.
wiped-IsOnce :
    (s s' : Session) (busy : Bool) (id : Text) (asked : ℕ) (before after : List Ticket)
    → IsOnce s busy id asked before after
    → s'.log ≡ []
    → IsFresh s'
    → s.generation < s'.generation
    → IsOnce s' false [] asked before after
wiped-IsOnce s s' busy id asked before after v silent fresh later =
    let none_before = tickets_of-later s.generation s'.generation before later v.before_issued in
    let none_after = tickets_of-later s.generation s'.generation after later v.after_issued in
    record {
      silent = silent;
      fresh = fresh;
      before_issued =
          IsIssued-later s.generation s'.generation before (omega arith) v.before_issued;
      after_issued = IsIssued-later s.generation s'.generation after (omega arith) v.after_issued;
      single = omega (arith, none_before, none_after);
      once = omega (arith, none_before, v.once);
      used = inl refl;
    }

-- The same generation.
kept-IsOnce :
    (s s' : Session) (busy : Bool) (id : Text) (asked : ℕ) (before after : List Ticket)
    → IsOnce s busy id asked before after
    → s'.log ≡ []
    → IsFresh s'
    → s'.generation ≡ s.generation
    → IsOnce s' busy id asked before after
kept-IsOnce s s' busy id asked before after v silent fresh same = record {
  silent = silent;
  fresh = fresh;
  before_issued =
      IsIssued-later s.generation s'.generation before (omega (arith, same)) v.before_issued;
  after_issued =
      IsIssued-later s.generation s'.generation after (omega (arith, same)) v.after_issued;
  single = rw same v.single;
  once = rw same v.once;
  used = rw same v.used;
}

-- `base + 0` is the generation before the call, where no log was.
moved : (g c g' : ℕ) → g + c ≡ g' → (g' ≡ g × c ≡ 0) ⊎ ((n : ℕ) × (c ≡ suc n) × (g < g'))
moved g zero g' e = inl (omega (arith, e), refl)
moved g (suc n) g' e = inr (n, refl, omega (arith, e))

refreshed : (base : ℕ) (s : Session) → IsValid base s → IsFresh s
refreshed base s v = record { counted = omega arith; current = v.current; earlier = v.earlier }

-- Of a call of the session only the reports are left in the log.
pub on_session-Holds {ℓ} :
    {X : Type ℓ} (b a : List Ticket) (call : Session → Session × X) (r : Reader)
    → ((s : Session) → IsValid r.session.generation s → IsValid r.session.generation (call s).0)
    → Holds b a r
    → Holds b a (on_session call r).0
unfolding on_session
on_session-Holds b a call r keeps v =
    let s' = (call r.session).0 in
    let tidy = record r { session = record s' { log = [] } } in
    let started : IsValid r.session.generation r.session = record {
      counted = rw (v.silent) (v.fresh.counted);
      current = v.fresh.current;
      earlier = v.fresh.earlier;
    } in
    let ended = keeps r.session started in
    let u = absorb-IsUntouched s'.log tidy in
    let fresh = refreshed r.session.generation s' ended in
    elim (moved r.session.generation (clearings s'.log) s'.generation ended.counted) [
      | inl (same, quiet) ↦
          let k = absorb-IsKept s'.log tidy quiet in
          rw (u.session, u.retrievals, u.preparing, u.retrieving, u.decrypting, k.idle, k.id)
            (kept-IsOnce r.session (record s' { log = [] }) r.busy r.id (retrievals r.requests)
              (b ++ r.preparing) (a ++ (r.retrieving ++ r.decrypting)) v refl fresh same)
      | inr (n, some_clear, later) ↦
          let w = absorb-IsWiped s'.log tidy n some_clear in
          rw (u.session, u.retrievals, u.preparing, u.retrieving, u.decrypting, w.idle, w.id)
            (wiped-IsOnce r.session (record s' { log = [] }) r.busy r.id (retrievals r.requests)
              (b ++ r.preparing) (a ++ (r.retrieving ++ r.decrypting)) v refl fresh later)
    ]
