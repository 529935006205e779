-- ===== src/Session/Validity.antt =====
-- web/src/lib/session.ts: the answers of `valid(ticket)`.
use erase_to.Prelude.{
  ℕ, zero, suc, ◌+◌, ◌≡◌, ◌↔◌, ◌⊎◌, ◌<◌, not, ◌&&◌, leb, inl, inr, refl, sym, ◌∙◌, true, false,
  List, arith, ltb, ◌==◌, ge→ltb, ==_iff, Bool-cases,
}
use erase_to.Session.{Session, Ticket, new_session, is_over, expire, ticket, mem, valid, Event, run}
use erase_to.Session.Tickets.{IsValid, clearings, below, run-IsValid, expire-IsValid}

pub mem-below : (n m : ℕ) → mem n (below m) ≡ ltb n m
mem-below n zero = ground arith
mem-below n (suc m) = ground (arith, mem-below n m)

-- A ticket that `ticket()` issued: its signal is that of its generation.
pub valid_lem :
    {base : ℕ} (t : Ticket) (now : ℕ) (s : Session)
    → t.signal ≡ t.generation
    → IsValid base s
    → ((valid t now s).1 ≡ true) ↔ ((t.generation ≡ s.generation) × (is_over now s ≡ false))
unfolding valid expire
valid_lem t now s e v = elim (Bool-cases (t.generation == s.generation)) [
  | inl same ↦
      let equal = (==_iff t.generation s.generation).0 same in
      let alive : mem t.signal s.aborted ≡ false =
        rw (e, v.earlier) (mem-below t.generation s.generation ∙ ge→ltb _ _ (omega arith)) in
      elim (Bool-cases (is_over now s)) [
        | inl over ↦ rw (same, over) (λ h. absurd (cc), λ p. absurd (cc (p.1)))
        | inr ahead ↦ rw (same, ahead, alive) (λ h. (equal, refl), λ p. refl)
      ]
  | inr other ↦
      rw other (λ h. absurd (cc), λ p. absurd (cc ((==_iff t.generation s.generation).1 p.0)))
]

-- No deadline is set, or it lies ahead.
abbrev pub IsRunning : ℕ → Session → Type 0
IsRunning now s = (s.deadline ≡ 0) ⊎ (now < s.deadline)

not_over : (d now : ℕ) → (not (d == 0) && leb d now) ≡ false → (d ≡ 0) ⊎ (now < d)
not_over d now h = ground arith

running : (d now : ℕ) → (d ≡ 0) ⊎ (now < d) → (not (d == 0) && leb d now) ≡ false
running d now h = ground arith

counted_from_zero : (n g : ℕ) → 0 + n ≡ g → n ≡ g
counted_from_zero n g h = omega arith

-- A ticket issued after any events is valid, after any later events, exactly if `options.clear` was
-- not called since, and no deadline has passed by now: so no answer that arrives after a clearing of
-- the session, for whatever reason, is taken for one of the cleared session.
pub valid_iff :
    (events later : List Event) (issued now : ℕ)
    → ((valid
          (ticket issued (run events new_session)).1
          now
          (run later (ticket issued (run events new_session)).0)).1
        ≡ true)
      ↔ ((clearings (run later (ticket issued (run events new_session)).0).log
            ≡ clearings (ticket issued (run events new_session)).0.log)
          × IsRunning now (run later (ticket issued (run events new_session)).0))
unfolding ticket
valid_iff events later issued now =
    let fresh : IsValid 0 new_session = record { counted = refl; current = refl; earlier = refl } in
    let start = run-IsValid events new_session fresh in
    let s1 = (expire issued (run events new_session)).0 in
    let v1 = expire-IsValid issued (run events new_session) start in
    let s2 = run later s1 in
    let v2 = run-IsValid later s1 v1 in
    let c1 = counted_from_zero _ _ v1.counted in
    let c2 = counted_from_zero _ _ v2.counted in
    let (to, from) =
      valid_lem (record { generation = s1.generation; signal = s1.controller }) now s2 v1.current
        v2 in
    (
      λ h. (c2 ∙ sym (to h).0 ∙ sym c1, not_over s2.deadline now (to h).1),
      λ p. from (sym c1 ∙ sym p.0 ∙ c2, running s2.deadline now p.1),
    )
