-- ===== src/Worker.antt =====
-- web/src/lib/worker.ts: `CryptoWorker`, the page's end of the worker. A promise of `run` is known by
-- the number of its call; `settled` lists what became of them, the latest first.
pub mod Settling
mod Tests
use erase_to.Prelude.{
  ℕ, ◌+◌, Bool, true, false, ◌||◌, ◌==◌, Option, none, some, List, [], ◌∷◌, ◌++◌, map,
  if◌then◌else◌,
}
use erase_to.Types.{Text}

-- What a promise is rejected with: a `WorkerFailure` with its code, or the `AbortError`.
pub data Failure : Type 0 where
  worker_failure : Text → Failure
  worker_failed abort_error : Failure

pub data Answer (Value : Type 0) : Type 0 where
  resolved : Value → Answer Value
  rejected : Failure → Answer Value

-- The data of a message from the worker.
pub record Message (Value : Type 0) : Type 0 where
  pub id : ℕ
  pub result : Value
  pub error : Option Text

-- `worker` says that a worker runs, `posted` which calls were posted to one. `pending` has the keys
-- of the map, the latest first.
pub record CryptoWorker (Value : Type 0) : Type 0 where
  pub worker : Bool
  pub sequence : ℕ
  pub pending : List ℕ
  pub posted : List ℕ
  pub settled : List (ℕ × Answer Value)

abbrev pub has : ℕ → List ℕ → Bool
has id [] = false
has id (key ∷ keys) = id == key || has id keys

abbrev pub delete : ℕ → List ℕ → List ℕ
delete id [] = []
delete id (key ∷ keys) = if id == key then keys else key ∷ delete id keys

-- `data.error` is tested for being a string that is not empty.
abbrev pub answer_of : {Value : Type 0} → Message Value → Answer Value
answer_of m = elim m.error [
  | none ↦ resolved m.result
  | some [] ↦ resolved m.result
  | some (c ∷ code) ↦ rejected (worker_failure (c ∷ code))
]

module _ {Value : Type 0} where
  abbrev pub new_worker : CryptoWorker Value
  new_worker = record { worker = false; sequence = 0; pending = []; posted = []; settled = [] }

  -- `run(method, input)`, where `posts` says that the message can be posted.
  unfoldable pub call : Bool → CryptoWorker Value → CryptoWorker Value
  call posts w =
      let id = w.sequence + 1 in
      let waiting = record w { worker = true; sequence = id; pending = id ∷ w.pending } in
      if posts then record waiting { posted = id ∷ w.posted } else record waiting {
        pending = delete id waiting.pending;
        settled = (id, rejected worker_failed) ∷ w.settled;
      }

  -- The listener of messages.
  unfoldable pub receive : Message Value → CryptoWorker Value → CryptoWorker Value
  receive m w =
      if has m.id w.pending
      then record w { pending = delete m.id w.pending; settled = (m.id, answer_of m) ∷ w.settled }
      else w

  abbrev pub all_rejected : Failure → List ℕ → List (ℕ × Answer Value)
  all_rejected why [] = []
  all_rejected why (id ∷ ids) = (id, rejected why) ∷ all_rejected why ids

  -- `fail(error)`: the worker is terminated and every pending call rejected.
  unfoldable pub fail : Failure → CryptoWorker Value → CryptoWorker Value
  fail why w = record w {
    worker = false;
    pending = [];
    settled = all_rejected why w.pending ++ w.settled;
  }

  unfoldable pub dispose : CryptoWorker Value → CryptoWorker Value
  unfolding fail
  dispose w = fail abort_error w

-- A call, a message with any number in it, from whatever worker, an error of the worker, or its
-- disposal.
pub data Event (Value : Type 0) : Type 0 where
  called : Bool → Event Value
  received : Message Value → Event Value
  broke_down disposed : Event Value

unfoldable pub handle : {Value : Type 0} → Event Value → CryptoWorker Value → CryptoWorker Value
handle (called posts) w = call posts w
handle (received m) w = receive m w
handle broke_down w = fail worker_failed w
handle disposed w = dispose w

unfoldable pub run : {Value : Type 0} → List (Event Value) → CryptoWorker Value → CryptoWorker Value
run [] w = w
run (event ∷ events) w = run events (handle event w)
