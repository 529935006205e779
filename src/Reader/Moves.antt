-- ===== src/Reader/Moves.antt =====
-- web/src/lib/controllers.ts: tickets that are checked, and calls of `open` that start, go on and end.
use erase_to.Prelude.{
  ℕ, suc, ◌≡◌, ◌≢◌, inl, inr, refl, sym, ap, ◌∙◌, Bool, true, false, List, [], ◌∷◌, arith, ◌==◌,
  ge→ltb, ==_iff, Bool-cases, All,
}
use erase_to.Types.{Text}
use erase_to.Session.{Session, Ticket, expire, valid}
use erase_to.Reader.{Reader, on_session, if_valid}
use erase_to.Page.{tickets_of}
use erase_to.Session.{Effect, is_over}
use erase_to.Session.Validity.{mem-below}
use erase_to.Session.{mem, clear}
use erase_to.Reader.{absorb}
use erase_to.Reader.Tickets.{IsIssued}
use erase_to.Reader.Once.{IsFresh, IsOnce}

pub tickets_of-current :
    (g : ℕ) (t : Ticket) (ts : List Ticket)
    → t.generation ≡ g
    → tickets_of g (t ∷ ts) ≡ suc (tickets_of g ts)
unfolding tickets_of
tickets_of-current g t ts e = ground arith

tickets_of-other :
    (g : ℕ) (t : Ticket) (ts : List Ticket)
    → t.generation ≢ g
    → tickets_of g (t ∷ ts) ≡ tickets_of g ts
unfolding tickets_of
tickets_of-other g t ts e = ground arith

-- The object with the same reports in its session.
pub untouched :
    (r : Reader) → r.session.log ≡ [] → record r { session = record r.session { log = [] } } ≡ r
untouched r silent =
    ap (λ (l : List Effect). record r { session = record r.session { log = l } }) (sym silent)

-- A valid ticket is of the present generation, and its check changes nothing.
pub valid_good :
    (t : Ticket) (now : ℕ) (s : Session)
    → (valid t now s).1 ≡ true
    → ((valid t now s).0 ≡ s) × (t.generation ≡ s.generation)
unfolding valid expire
valid_good t now s good = elim (Bool-cases (t.generation == s.generation)) [
  | inl same ↦ elim (Bool-cases (is_over now s)) [
    | inl over ↦ absurd (cc (rw (same, over) at good))
    | inr ahead ↦ rw (same, ahead) (refl, (==_iff t.generation s.generation).0 same)
  ]
  | inr other ↦ absurd (cc (rw other at good))
]

-- A ticket that is not valid is not of the generation that the check leaves.
pub valid_stale :
    (t : Ticket) (now : ℕ) (s : Session)
    → IsIssued s.generation t
    → IsFresh s
    → (valid t now s).1 ≡ false
    → t.generation ≢ (valid t now s).0.generation
unfolding valid expire clear
valid_stale t now s (early, signal) fresh stale = elim (Bool-cases (t.generation == s.generation)) [
  | inl same ↦
      let equal = (==_iff t.generation s.generation).0 same in
      let alive : mem t.signal s.aborted ≡ false =
        rw (signal, fresh.earlier)
          (mem-below t.generation s.generation ∙ ge→ltb _ _ (omega arith)) in
      elim (Bool-cases (is_over now s)) [
        | inl over ↦ rw (same, over) (λ e. omega arith)
        | inr ahead ↦ absurd (cc (rw (same, ahead, alive) at stale))
      ]
  | inr other ↦ rw other (λ e. absurd (cc ((==_iff t.generation s.generation).1 e)))
]

pub if_valid_lem :
    (P : Reader → Type 0) (t : Ticket) (now : ℕ) (body : Reader → Reader) (r : Reader)
    → r.session.log ≡ []
    → ((valid t now r.session).1 ≡ true → P (body r))
    → ((valid t now r.session).1 ≡ false → P (on_session (valid t now) r).0)
    → P (if_valid t now body r)
unfolding if_valid on_session absorb
if_valid_lem P t now body r silent good stale = elim (Bool-cases (valid t now r.session).1) [
  | inl e ↦ rw (e, (valid_good t now r.session e).0, silent) (rw (untouched r silent) (good e))
  | inr e ↦ rw e (stale e)
]

-- A ticket that is no longer of the generation counts for nothing.
pub drop_before :
    (s : Session) (busy : Bool) (id : Text) (n : ℕ) (t : Ticket) (bs ts : List Ticket)
    → IsOnce s busy id n (t ∷ bs) ts
    → t.generation ≢ s.generation
    → IsOnce s busy id n bs ts
drop_before s busy id n t bs ts v other =
    let e = tickets_of-other s.generation t bs other in
    record {
      silent = v.silent;
      fresh = v.fresh;
      before_issued = v.before_issued.1;
      after_issued = v.after_issued;
      single = omega (arith, e, v.single);
      once = omega (arith, e, v.once);
      used = v.used;
    }

pub drop_after :
    (s : Session) (busy : Bool) (id : Text) (n : ℕ) (t : Ticket) (bs ts : List Ticket)
    → IsOnce s busy id n bs (t ∷ ts)
    → t.generation ≢ s.generation
    → IsOnce s busy id n bs ts
drop_after s busy id n t bs ts v other =
    let e = tickets_of-other s.generation t ts other in
    record {
      silent = v.silent;
      fresh = v.fresh;
      before_issued = v.before_issued;
      after_issued = v.after_issued.1;
      single = omega (arith, e, v.single);
      once = v.once;
      used = rw (← e) v.used;
    }

-- The call asks for the packet.
pub ask :
    (s : Session) (busy : Bool) (id : Text) (n : ℕ) (t : Ticket) (bs ts : List Ticket)
    → IsOnce s busy id n (t ∷ bs) ts
    → t.generation ≡ s.generation
    → IsOnce s busy id (suc n) bs (t ∷ ts)
ask s busy id n t bs ts v current =
    let e = tickets_of-current s.generation t bs current in
    let e' = tickets_of-current s.generation t ts current in
    record {
      silent = v.silent;
      fresh = v.fresh;
      before_issued = v.before_issued.1;
      after_issued = (v.before_issued.0, v.after_issued);
      single = omega (arith, e, e', v.single);
      once = omega (arith, e, v.once);
      used = inr (omega (arith, e, e', v.once));
    }

-- The call ends, with or without a request.
pub end_before :
    (s : Session) (busy : Bool) (id : Text) (n : ℕ) (t : Ticket) (bs ts : List Ticket)
    → IsOnce s busy id n (t ∷ bs) ts
    → t.generation ≡ s.generation
    → IsOnce s false id n bs ts
end_before s busy id n t bs ts v current =
    let e = tickets_of-current s.generation t bs current in
    record {
      silent = v.silent;
      fresh = v.fresh;
      before_issued = v.before_issued.1;
      after_issued = v.after_issued;
      single = ground (arith, e, v.single);
      once = omega (arith, e, v.once);
      used = inr (omega (arith, e, v.once));
    }

pub end_after :
    (s : Session) (busy : Bool) (id : Text) (n : ℕ) (t : Ticket) (bs ts : List Ticket)
    → IsOnce s busy id n bs (t ∷ ts)
    → t.generation ≡ s.generation
    → IsOnce s false [] n bs ts
end_after s busy id n t bs ts v current =
    let e = tickets_of-current s.generation t ts current in
    record {
      silent = v.silent;
      fresh = v.fresh;
      before_issued = v.before_issued;
      after_issued = v.after_issued.1;
      single = ground (arith, e, v.single);
      once = v.once;
      used = inl refl;
    }

-- A call starts.
pub begin :
    (s : Session) (id : Text) (n : ℕ) (t : Ticket) (bs ts : List Ticket)
    → IsOnce s false id n bs ts
    → id ≢ []
    → t.generation ≡ s.generation
    → t.signal ≡ s.controller
    → IsOnce s true id n (t ∷ bs) ts
begin s id n t bs ts v linked current signal =
    let e = tickets_of-current s.generation t bs current in
    let unasked : n ≡ 0 = elim v.used [
      | inl empty ↦ absurd (linked empty)
      | inr few ↦ omega (arith, few, v.single)
    ] in
    record {
      silent = v.silent;
      fresh = v.fresh;
      before_issued =
          ((omega (arith, current), signal ∙ v.fresh.current ∙ sym current), v.before_issued);
      after_issued = v.after_issued;
      single = omega (arith, e, v.single);
      once = omega (arith, e, unasked, v.single);
      used = inr (omega (arith, unasked));
    }

-- A link is loaded, or given up.
pub relink :
    (s : Session) (busy : Bool) (id id' : Text) (n : ℕ) (bs ts : List Ticket)
    → IsOnce s busy id n bs ts
    → IsOnce s busy id' 0 bs ts
relink s busy id id' n bs ts v = record {
  silent = v.silent;
  fresh = v.fresh;
  before_issued = v.before_issued;
  after_issued = v.after_issued;
  single = v.single;
  once = omega (arith, v.once);
  used = inr (omega arith);
}

pub unlink :
    (s : Session) (busy : Bool) (id : Text) (n : ℕ) (bs ts : List Ticket)
    → IsOnce s busy id n bs ts
    → IsOnce s busy [] n bs ts
unlink s busy id n bs ts v = record {
  silent = v.silent;
  fresh = v.fresh;
  before_issued = v.before_issued;
  after_issued = v.after_issued;
  single = v.single;
  once = v.once;
  used = inl refl;
}

-- The calls in another order.
pub reorder :
    (s : Session) (busy : Bool) (id : Text) (n : ℕ) (bs ts bs' ts' : List Ticket)
    → IsOnce s busy id n bs ts
    → ((g : ℕ) → tickets_of g bs' ≡ tickets_of g bs)
    → ((g : ℕ) → tickets_of g ts' ≡ tickets_of g ts)
    → All (IsIssued s.generation) bs'
    → All (IsIssued s.generation) ts'
    → IsOnce s busy id n bs' ts'
reorder s busy id n bs ts bs' ts' v eb ea ib ia =
    let e = eb s.generation in
    let e' = ea s.generation in
    record {
      silent = v.silent;
      fresh = v.fresh;
      before_issued = ib;
      after_issued = ia;
      single = omega (arith, e, e', v.single);
      once = omega (arith, e, v.once);
      used = rw e' v.used;
    }
