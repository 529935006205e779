-- ===== src/Proof/Search.antt =====
-- shared/index.ts: the search of `solveProof`.
use erase_to.Prelude.{
  ℕ, zero, suc, ◌+◌, ◌*◌, ◌%◌, ◌≤◌, ◌<◌, ◌≡◌, ◌↔◌, ◌⊎◌, inl, inr, ap, Bool, true, false, arith, leb,
  refl, sym, ◌∙◌, ◌==◌, ==_iff, Bool-cases,
}
use erase_to.Types.{
  Text, Result, Challenge, ok, >>=-eq-ok, refuse_if, ◌>>◌, cancelled, proof_expired,
}
use erase_to.Proof.{Surroundings, pause, attempt, is_good, search}

start_or_later : (start m : ℕ) → start ≤ m → (start ≡ m) ⊎ (start + 1 ≤ m)
start_or_later start m h = elim (Bool-cases (start == m)) [
  | inl same ↦ inl ((==_iff start m).0 same)
  | inr other ↦ inr (ground (arith, other))
]

-- The tests of a turn, in their order.
abbrev in_turn : Bool → Bool → Bool → Bool → Result (Unit {0})
in_turn a b a' b' = do
  refuse_if a cancelled
  refuse_if b proof_expired
  refuse_if a' cancelled
  refuse_if b' proof_expired

-- Four tests that are made one after the other, and all pass.
four_pass :
    (a b a' b' : Bool)
    → in_turn a b a' b' ≡ ok tt
    → (a ≡ false) × (b ≡ false) × (a' ≡ false) × (b' ≡ false)
four_pass false false false false e = (refl, refl, refl, refl)
four_pass true b a' b' e = cc
four_pass false true a' b' e = cc
four_pass false false true b' e = cc
four_pass false false false true e = cc

module _ (w : Surroundings) (c : Challenge) (prefix : Text) where
  -- A nonce passes the test.
  abbrev pub passes : ℕ → Bool
  passes nonce = is_good c.bits (attempt w prefix nonce)

  -- Before and after the search gives up its turn at a nonce, it is neither cancelled nor late.
  pub record IsQuiet (nonce : ℕ) : Type 0 where
    pub kept_before : w.aborted_before nonce ≡ false
    pub early_before : w.now_before nonce < c.expires_at * 1000
    pub kept_after : w.aborted_after nonce ≡ false
    pub early_after : w.now_after nonce < c.expires_at * 1000

  -- It gives up its turn at every 2048th nonce.
  abbrev pub GoesOn : ℕ → Type 0
  GoesOn nonce = nonce % 2048 ≡ 0 → IsQuiet nonce

  turn_tests :
      (nonce : ℕ)
      → nonce % 2048 ≡ 0
      → pause w c.expires_at nonce
        ≡ in_turn
            (w.aborted_before nonce)
            (leb (c.expires_at * 1000) (w.now_before nonce))
            (w.aborted_after nonce)
            (leb (c.expires_at * 1000) (w.now_after nonce))
  unfolding pause
  turn_tests nonce turn = rw turn refl

  pause-GoesOn : (nonce : ℕ) → pause w c.expires_at nonce ≡ ok tt → GoesOn nonce
  unfolding pause
  pause-GoesOn nonce e turn =
      let a = w.aborted_before nonce in
      let b = leb (c.expires_at * 1000) (w.now_before nonce) in
      let a' = w.aborted_after nonce in
      let b' = leb (c.expires_at * 1000) (w.now_after nonce) in
      let (kept, early, kept', early') = four_pass a b a' b' (sym (turn_tests nonce turn) ∙ e) in
      record {
        kept_before = kept;
        early_before = ground (arith, early);
        kept_after = kept';
        early_after = ground (arith, early');
      }

  GoesOn-pause : (nonce : ℕ) → GoesOn nonce → pause w c.expires_at nonce ≡ ok tt
  unfolding pause
  GoesOn-pause nonce on = elim (Bool-cases (nonce % 2048 == 0)) [
    | inr between ↦ rw between refl
    | inl turn ↦
        let q = on ((==_iff (nonce % 2048) 0).0 turn) in
        let early : leb (c.expires_at * 1000) (w.now_before nonce) ≡ false =
          ground (arith, q.early_before) in
        let early' : leb (c.expires_at * 1000) (w.now_after nonce) ≡ false =
          ground (arith, q.early_after) in
        rw (turn, q.kept_before, early, q.kept_after, early') refl
  ]

  -- `nonce` is the first one from `start` on that passes, and the search went on up to it.
  pub record IsFirst (start rounds nonce : ℕ) : Type 0 where
    pub from : start ≤ nonce
    pub before : nonce < start + rounds
    pub passing : passes nonce ≡ true
    pub none_before : (m : ℕ) → start ≤ m → m < nonce → passes m ≡ false
    pub went_on : (m : ℕ) → start ≤ m → m ≤ nonce → GoesOn m

  -- The first nonce is tested, and then the others.
  first_passes :
      (start rounds n : ℕ)
      → GoesOn start
      → passes start ≡ true
      → (search w (suc rounds) c prefix start ≡ ok n) ↔ (start ≡ n)
  unfolding search
  first_passes start rounds n on good =
      rw (GoesOn-pause start on, good, search) (λ h. cc, λ e. ap ok e)

  first_fails :
      (start rounds n : ℕ)
      → GoesOn start
      → passes start ≡ false
      → (search w (suc rounds) c prefix start ≡ ok n)
        ↔ (search w rounds c prefix (start + 1) ≡ ok n)
  unfolding search
  first_fails start rounds n on bad = rw (GoesOn-pause start on, bad, search) (λ h. h, λ h. h)

  ok-GoesOn : (start rounds n : ℕ) → search w (suc rounds) c prefix start ≡ ok n → GoesOn start
  unfolding search
  ok-GoesOn start rounds n h =
      let (answer, e, rest) = >>=-eq-ok (pause w c.expires_at start) _ h in pause-GoesOn start e

  found-IsFirst :
      (rounds start n : ℕ) → search w rounds c prefix start ≡ ok n → IsFirst start rounds n
  found-IsFirst zero start n h = absurd (unfold search in cc)
  found-IsFirst (suc rounds) start n h =
      let on = ok-GoesOn start rounds n h in
      elim (Bool-cases (passes start)) [
        | inl good ↦
            let e = (first_passes start rounds n on good).0 h in
            record {
              from = omega arith;
              before = omega arith;
              passing = rw (← e) good;
              none_before = λ m p q. absurd (omega arith);
              went_on = λ m p q. let same : m ≡ start = omega arith in rw same on;
            }
        | inr bad ↦
            let later =
              found-IsFirst rounds (start + 1) n ((first_fails start rounds n on bad).0 h) in
            record {
              from = omega (arith, later.from);
              before = omega (arith, later.before);
              passing = later.passing;
              none_before = λ m p q. elim (start_or_later start m p) [
                | inl same ↦ rw (← same) bad
                | inr more ↦ later.none_before m more q
              ];
              went_on = λ m p q. elim (start_or_later start m p) [
                | inl same ↦ rw (← same) on
                | inr more ↦ later.went_on m more q
              ];
            }
      ]

  IsFirst-found :
      (rounds start n : ℕ) → IsFirst start rounds n → search w rounds c prefix start ≡ ok n
  IsFirst-found zero start n f = absurd (omega (arith, f.from, f.before))
  IsFirst-found (suc rounds) start n f =
      let on = f.went_on start (omega arith) f.from in
      elim (start_or_later start n f.from) [
        | inl same ↦ (first_passes start rounds n on (rw same f.passing)).1 same
        | inr more ↦
            (first_fails start rounds n on (f.none_before start (omega arith) (omega arith))).1 (
              IsFirst-found rounds (start + 1) n (record {
                from = omega arith;
                before = omega (arith, f.before);
                passing = f.passing;
                none_before = λ m p q. f.none_before m (omega arith) q;
                went_on = λ m p q. f.went_on m (omega arith) q;
              }))
      ]

  -- The search from `start` with a number of rounds returns a nonce exactly when it is among that many
  -- from `start` on, it is the first one that passes, and at every multiple of 2048 from `start` up to
  -- it the search was not cancelled and the time was before the challenge's expiry, both before and
  -- after it gave up its turn.
  pub search_iff :
      (start rounds n : ℕ) → (search w rounds c prefix start ≡ ok n) ↔ IsFirst start rounds n
  search_iff start rounds n = (found-IsFirst rounds start n, IsFirst-found rounds start n)
