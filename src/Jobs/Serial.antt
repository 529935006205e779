-- ===== src/Jobs/Serial.antt =====
-- web/src/lib/crypto.worker.ts: messages and their answers.
use erase_to.Prelude.{
  ℕ, ◌+◌, ◌≡◌, refl, Bool, Option, none, some, List, [], ◌∷◌, arith, ◌==◌, if◌then◌else◌,
}
use erase_to.Types.{Text, Bytes, Result, ok, err}
use erase_to.Json.{Json}
use erase_to.Encoding.Links.{Url, parse_share_link}
use erase_to.Content.Names.{Unicode}
use erase_to.Origins.{Hkdf, CryptoSupport, worker_hkdf}
use erase_to.Proof.{Surroundings}
use erase_to.Protocol.{Sodium, Randomness, PreparedOpen}
use erase_to.Jobs.{
  Job, seal, proof, load, inspect, prepare, decrypt_packet, unknown, Product, Posted, result,
  failure, Scope, new_scope, run_job, run_load, run_inspect, run_prepare, run_decrypt, keep_access,
  prepare_with, decrypt_with,
}
use erase_to.Jobs.Messages.{
  JobEvent, message, job_ends, accept, reply, perform, perform_with, finish, handle, run,
}

-- How many messages with a number arrive.
abbrev pub asked : ℕ → List JobEvent → ℕ
asked id [] = 0
asked id (message n job ∷ events) = (if n == id then 1 else 0) + asked id events
asked id (job_ends r ∷ events) = asked id events

abbrev pub number_of : Posted → ℕ
number_of (result n product) = n
number_of (failure n e) = n

-- How many answers with a number were posted.
abbrev pub answered : ℕ → List Posted → ℕ
answered id [] = 0
answered id (p ∷ ps) = (if number_of p == id then 1 else 0) + answered id ps

-- Whether the job that runs has the number.
abbrev pub underway : ℕ → Option (ℕ × Job) → ℕ
underway id none = 0
underway id (some (n, job)) = if n == id then 1 else 0

number_of-reply : (n : ℕ) (r : Result Product) → number_of (reply n r) ≡ n
number_of-reply n (ok product) = refl
number_of-reply n (err e) = refl

module _ (s : Sodium) (json : Text → Option Json) (url_of : Text → Option Url) (u : Unicode)
    (w : Surroundings) where
  posted-run_load :
      (url : Text) (scope : Scope) → (run_load s json url_of u w url scope).0.posted ≡ scope.posted
  unfolding run_load
  posted-run_load url scope = load_posted (parse_share_link url_of url) refl
    where
      load_posted :
          (parsed : Result (Text × Text))
          → parse_share_link url_of url ≡ parsed
          → (run_load s json url_of u w url scope).0.posted ≡ scope.posted
      load_posted (err e) p = rw (p, run_load) refl
      load_posted (ok parts) p = rw (p, run_load) refl

  posted-keep_access :
      (scope : Scope) (r : Result PreparedOpen)
      → (keep_access s json url_of u w scope r).0.posted ≡ scope.posted
  posted-keep_access scope (err e) = refl
  posted-keep_access scope (ok p) = refl

  posted-prepare_with :
      (link : Option (Text × Text)) (header64 passphrase : Text) (scope : Scope)
      → (prepare_with s json url_of u w link header64 passphrase scope).0.posted ≡ scope.posted
  posted-prepare_with none header64 passphrase scope = refl
  posted-prepare_with (some (id, secret)) [] passphrase scope = refl
  posted-prepare_with (some (id, secret)) (c ∷ header64) passphrase scope =
      posted-keep_access scope _

  posted-decrypt_with :
      (p : Option PreparedOpen) (packet : Bytes) (scope : Scope)
      → (decrypt_with s json url_of u w p packet scope).0.posted ≡ scope.posted
  posted-decrypt_with none packet scope = refl
  posted-decrypt_with (some p) packet scope = refl

  pub posted-run_job :
      (r : Randomness) (job : Job) (scope : Scope)
      → (run_job s json url_of u w r job scope).0.posted ≡ scope.posted
  unfolding run_job run_inspect run_prepare run_decrypt
  posted-run_job r (seal text files options) scope = refl
  posted-run_job r (proof packet challenge) scope = refl
  posted-run_job r (load url) scope = posted-run_load url scope
  posted-run_job r (inspect header64) scope = refl
  posted-run_job r (prepare passphrase) scope =
      posted-prepare_with scope.link scope.header64 passphrase scope
  posted-run_job r (decrypt_packet packet) scope = posted-decrypt_with scope.prepared packet scope
  posted-run_job r unknown scope = refl

module _ (libs : Hkdf → Sodium) (json : Text → Option Json) (url_of : Text → Option Url)
    (u : Unicode) (w : Surroundings) (origin : Text) (i2p_origin : Option Text) (secure : Bool)
    (support : CryptoSupport) where
  posted-perform_with :
      (k : Result Hkdf) (r : Randomness) (job : Job) (scope : Scope)
      → (perform_with libs json url_of u w origin i2p_origin secure support k r job scope).0.posted
        ≡ scope.posted
  posted-perform_with (err e) r job scope = refl
  posted-perform_with (ok hkdf) r job scope = posted-run_job (libs hkdf) json url_of u w r job scope

  counted-accept :
      (id n : ℕ) (job : Job) (o : Option (ℕ × Job)) (scope : Scope)
      → scope.running ≡ o
      → answered id (accept n job o scope).posted + underway id (accept n job o scope).running
        ≡ answered id scope.posted + underway id o + (if n == id then 1 else 0)
  counted-accept id n job none scope e = omega arith
  counted-accept id n job (some (m, other)) scope e = rw e (omega arith)

  counted-finish :
      (id : ℕ) (r : Randomness) (o : Option (ℕ × Job)) (scope : Scope)
      → scope.running ≡ o
      → answered id (finish libs json url_of u w origin i2p_origin secure support r o scope).posted
          + underway id
              (finish libs json url_of u w origin i2p_origin secure support r o scope).running
        ≡ answered id scope.posted + underway id o
  unfolding perform
  counted-finish id r none scope e = rw e refl
  counted-finish id r (some (n, job)) scope e =
      rw
        (
          number_of-reply n
              (perform_with libs json url_of u w origin i2p_origin secure support
                (worker_hkdf origin i2p_origin secure support) r job scope).1,
          posted-perform_with (worker_hkdf origin i2p_origin secure support) r job scope,
        )
        (omega arith)

  counted-run :
      (id : ℕ) (events : List JobEvent) (scope : Scope)
      → answered id (run libs json url_of u w origin i2p_origin secure support events scope).posted
          + underway id
              (run libs json url_of u w origin i2p_origin secure support events scope).running
        ≡ answered id scope.posted + underway id scope.running + asked id events
  unfolding run handle
  counted-run id [] scope = omega arith
  counted-run id (message n job ∷ events) scope = omega (
    arith,
    counted-run id events (accept n job scope.running scope),
    counted-accept id n job scope.running scope refl,
  )
  counted-run id (job_ends r ∷ events) scope = omega (
    arith,
    counted-run id events
        (finish libs json url_of u w origin i2p_origin secure support r scope.running scope),
    counted-finish id r scope.running scope refl,
  )

  -- After any events each message has been answered, or is the one whose job runs: there are as many
  -- answers with a number as messages with it, but for that one.
  pub answers_each :
      (id : ℕ) (events : List JobEvent)
      → answered id
            (run libs json url_of u w origin i2p_origin secure support events new_scope).posted
          + underway id
              (run libs json url_of u w origin i2p_origin secure support events new_scope).running
        ≡ asked id events
  answers_each id events = omega (arith, counted-run id events new_scope)
