-- ===== src/Worker/Settling.antt =====
-- `CryptoWorker` (web/src/lib/worker.ts): its promises over any sequence of events.
use erase_to.Prelude.{
  ℕ, ◌+◌, ◌≡◌, inl, inr, ◌∙◌, Bool, true, false, ◌&&◌, ◌==◌, ==_self, leb, arith, List, [], ◌∷◌,
  ◌++◌, Bool-cases,
}
use erase_to.Worker.{
  Failure, worker_failed, abort_error, Answer, Message, CryptoWorker, has, delete, new_worker, call,
  receive, all_rejected, fail, dispose, Event, called, received, broke_down, disposed, handle, run,
}

abbrev pub one_if : Bool → ℕ
one_if true = 1
one_if false = 0

-- How often a number occurs.
abbrev pub count : ℕ → List ℕ → ℕ
count id [] = 0
count id (key ∷ keys) = one_if (id == key) + count id keys

-- How often a call was settled.
abbrev pub settlements : {Value : Type 0} → ℕ → List (ℕ × Answer Value) → ℕ
settlements id [] = 0
settlements id (s ∷ rest) = one_if (id == s.0) + settlements id rest

-- 1 for a call that was made, and 0 for any other number.
abbrev pub made : ℕ → ℕ → ℕ
made id sequence = one_if (leb 1 id && leb id sequence)

count-delete :
    (x id : ℕ) (keys : List ℕ)
    → has id keys ≡ true
    → count x (delete id keys) + one_if (x == id) ≡ count x keys
count-delete x id [] h = absurd (cc)
count-delete x id (key ∷ keys) h = elim (Bool-cases (id == key)) [
  | inl same ↦ let e : id ≡ key = ground arith in rw same (rw e (omega arith))
  | inr other ↦
      let later : has id keys ≡ true = rw other at h in
      rw other (omega (arith, count-delete x id keys later))
]

settlements-append :
    {Value : Type 0} (x : ℕ) (why : Failure) (ids : List ℕ) (rest : List (ℕ × Answer Value))
    → settlements x (all_rejected why ids ++ rest) ≡ count x ids + settlements x rest
settlements-append x why [] rest = omega arith
settlements-append x why (id ∷ ids) rest = omega (arith, settlements-append x why ids rest)

made-suc : (x n : ℕ) → made x (n + 1) ≡ one_if (x == n + 1) + made x n
made-suc x n = ground arith

-- Every call made is pending or was settled, once, and no other number is or was.
IsTracked : {Value : Type 0} → CryptoWorker Value → Type 0
IsTracked w = (x : ℕ) → count x w.pending + settlements x w.settled ≡ made x w.sequence

module _ {Value : Type 0} where
  call-IsTracked : (posts : Bool) (w : CryptoWorker Value) → IsTracked w → IsTracked (call posts w)
  unfolding IsTracked call
  call-IsTracked true w v x = omega (arith, v x, made-suc x w.sequence)
  call-IsTracked false w v x =
      rw (==_self (w.sequence + 1)) (omega (arith, v x, made-suc x w.sequence))

  receive-IsTracked :
      (m : Message Value) (w : CryptoWorker Value) → IsTracked w → IsTracked (receive m w)
  unfolding IsTracked receive
  receive-IsTracked m w v x = elim (Bool-cases (has m.id w.pending)) [
    | inl found ↦ rw found (omega (arith, v x, count-delete x m.id w.pending found))
    | inr unknown ↦ rw unknown (v x)
  ]

  fail-IsTracked : (why : Failure) (w : CryptoWorker Value) → IsTracked w → IsTracked (fail why w)
  unfolding IsTracked fail
  fail-IsTracked why w v x = omega (arith, settlements-append x why w.pending w.settled, v x)

  handle-IsTracked :
      (event : Event Value) (w : CryptoWorker Value) → IsTracked w → IsTracked (handle event w)
  unfolding handle dispose
  handle-IsTracked (called posts) w v = call-IsTracked posts w v
  handle-IsTracked (received m) w v = receive-IsTracked m w v
  handle-IsTracked broke_down w v = fail-IsTracked worker_failed w v
  handle-IsTracked disposed w v = fail-IsTracked abort_error w v

  run_from-IsTracked :
      (events : List (Event Value)) (w : CryptoWorker Value)
      → IsTracked w
      → IsTracked (run events w)
  unfolding run
  run_from-IsTracked [] w v = v
  run_from-IsTracked (event ∷ events) w v =
      run_from-IsTracked events (handle event w) (handle-IsTracked event w v)

  -- After any calls, messages, errors and disposals, each call made so far is either still pending or
  -- was settled, and that once; a message with another number settles nothing.
  pub run-IsTracked :
      (events : List (Event Value)) (x : ℕ)
      → count x (run events new_worker).pending + settlements x (run events new_worker).settled
        ≡ made x (run events new_worker).sequence
  unfolding IsTracked
  run-IsTracked events x = run_from-IsTracked events new_worker (λ y. ground arith) x

  -- Disposing of the worker leaves no promise open: every call made so far has been settled once.
  pub dispose_settles :
      (events : List (Event Value)) (x : ℕ)
      → settlements x (dispose (run events new_worker)).settled
        ≡ made x (run events new_worker).sequence
  unfolding dispose fail
  dispose_settles events x =
      settlements-append x abort_error (run events new_worker).pending
        (run events new_worker).settled
      ∙ run-IsTracked events x
