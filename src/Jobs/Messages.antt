-- ===== src/Jobs/Messages.antt =====
-- web/src/lib/crypto.worker.ts: the listener of messages, with the choice of the key derivation for each
-- job. `libs` is libsodium with either HKDF.
use erase_to.Prelude.{ℕ, Bool, Option, none, some, List, [], ◌∷◌}
use erase_to.Types.{Text, Result, ok, err}
use erase_to.Json.{Json}
use erase_to.Encoding.Links.{Url}
use erase_to.Content.Names.{Unicode}
use erase_to.Origins.{Hkdf, CryptoSupport, worker_hkdf}
use erase_to.Proof.{Surroundings}
use erase_to.Protocol.{Sodium, Randomness}
use erase_to.Jobs.{Job, Product, worker_busy, code, Posted, result, failure, Scope, Ending, run_job}

-- A message arrives, or the job that runs ends; the random bytes are those that it draws.
pub data JobEvent : Type 0 where
  message : ℕ → Job → JobEvent
  job_ends : Randomness → JobEvent

abbrev pub reply : ℕ → Result Product → Posted
reply id (ok product) = result id product
reply id (err e) = failure id (code e)

-- The end of the listener: the answer is posted, and nothing runs.
abbrev pub post : ℕ → Ending → Scope
post id e = record e.0 { running = none; posted = reply id e.1 ∷ e.0.posted }

-- The beginning: a message meets a job that runs, or none.
abbrev pub accept : ℕ → Job → Option (ℕ × Job) → Scope → Scope
accept id job none scope = record scope { running = some (id, job) }
accept id job (some other) scope = record scope { posted = failure id worker_busy ∷ scope.posted }

module _ (libs : Hkdf → Sodium) (json : Text → Option Json) (url_of : Text → Option Url)
    (u : Unicode) (w : Surroundings) (origin : Text) (i2p_origin : Option Text) (secure : Bool)
    (support : CryptoSupport) where
  -- A job with the key derivation that the page may use.
  abbrev pub perform_with : Result Hkdf → Randomness → Job → Scope → Ending
  perform_with (err e) r job scope = (scope, err e)
  perform_with (ok hkdf) r job scope = run_job (libs hkdf) json url_of u w r job scope

  unfoldable pub perform : Randomness → Job → Scope → Ending
  perform r job scope = perform_with (worker_hkdf origin i2p_origin secure support) r job scope

  abbrev pub finish : Randomness → Option (ℕ × Job) → Scope → Scope
  finish r none scope = scope
  finish r (some (id, job)) scope = post id (perform r job scope)

  unfoldable pub handle : JobEvent → Scope → Scope
  unfolding perform
  handle (message id job) scope = accept id job scope.running scope
  handle (job_ends r) scope = finish r scope.running scope

  unfoldable pub run : List JobEvent → Scope → Scope
  unfolding handle
  run [] scope = scope
  run (event ∷ events) scope = run events (handle event scope)
