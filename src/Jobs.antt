-- ===== src/Jobs.antt =====
-- web/src/lib/crypto.worker.ts: the worker's own end. A message begins a job, unless one runs; while a
-- job runs, other messages only meet `running`, so a job's changes of the state are made when it ends.
-- `seal` wipes its files and `decrypt` its packet and key, which no later job sees.
pub mod Messages
pub mod Codes
pub mod Opening
pub mod Serial
mod Tests
use erase_to.Prelude.{
  ℕ, zero, suc, ◌+◌, ◌-◌, ◌*◌, ◌/◌, ◌%◌, ◌^◌, ◌≤◌, ◌<◌, min, max, ◌≡◌, ◌≢◌, ◌↔◌, ◌⊎◌, inl, inr,
  refl, sym, ap, ◌∙◌, ◌≡⟨◌⟩◌, ◌∎, subst, Bool, true, false, not, ◌&&◌, ◌||◌, Option, none, some,
  List, [], ◌∷◌, ◌++◌, map, append_assoc, append-nil, arith, ltb, leb, ◌==◌, ge→ltb, lt→ltb, ltb→lt,
  ltb→ge, le→leb, leb→le, ==_iff, ==_self, or-eq-false, not-eq-false, and-eq-true, Bool-cases,
  Option-cases, if◌then◌else◌, list_eq, list_eq_self, list_eq→eq, length, all, any, All, codes,
  replicate, length-replicate, length-take, length-map, length-drop, length-append, take, drop,
  take-append, drop-append, drop-append_add, drop-drop, take_all, drop_all, take-append-drop,
}
use erase_to.Types.{
  Text, Bytes, FileInput, ContentInput, Header, Challenge, Result, ok, err, refuse_if, ◌>>=◌, ◌>>◌,
  ErrorCode, invalid_package, max_files, max_content_bytes,
}
use erase_to.Json.{Json}
use erase_to.Encoding.Links.{Url, parse_share_link}
use erase_to.Content.Names.{Unicode}
use erase_to.Origins.{Hkdf, CryptoSupport, worker_hkdf}
use erase_to.Proof.{Surroundings, solve_proof}
use erase_to.Protocol.{
  Sodium, Randomness, CreateOptions, CreatedNote, PreparedOpen, derive_peek, create, prepare_open,
  decrypt, decode_header,
}

-- A `File`: its bytes, or nothing where it cannot be read.
pub record File : Type 0 where
  pub name : Text
  pub mime : Text
  pub size : ℕ
  pub array_buffer : Option Bytes

-- The methods with their inputs; `unknown` is any other method.
pub data Job : Type 0 where
  seal : Text → List File → CreateOptions → Job
  proof : Bytes → Challenge → Job
  load inspect prepare : Text → Job
  decrypt_packet : Bytes → Job
  unknown : Job

-- What a job gives.
pub data Product : Type 0 where
  sealed : Bytes → Text → Text → Text → Product
  proved : Text → Bytes → Product
  loaded : Text → Text → Product
  inspected : Header → Product
  access : Text → Product
  content : ContentInput → Product

-- The `error` of a message: 'worker_busy', or the code of what was thrown.
pub data JobError : Type 0 where
  worker_busy : JobError
  code : ErrorCode → JobError

-- A message to the page.
pub data Posted : Type 0 where
  result : ℕ → Product → Posted
  failure : ℕ → JobError → Posted

-- The variables of the module; `posted` lists the messages, the latest first.
pub record Scope : Type 0 where
  pub link : Option (Text × Text)
  pub header64 : Text
  pub prepared : Option PreparedOpen
  pub running : Option (ℕ × Job)
  pub posted : List Posted

abbrev pub new_scope : Scope
new_scope = record { link = none; header64 = []; prepared = none; running = none; posted = [] }

abbrev pub total_size : List File → ℕ
total_size [] = 0
total_size (f ∷ fs) = f.size + total_size fs

-- `file.type || 'application/octet-stream'`.
abbrev pub type_of : Text → Text
type_of [] = codes "application/octet-stream"
type_of (c ∷ s) = c ∷ s

-- A file that cannot be read throws an error without a code.
abbrev pub read_file : File → Result FileInput
read_file f = elim f.array_buffer [
  | none ↦ err invalid_package
  | some bytes ↦ ok (record { name = f.name; mime = type_of f.mime; content = bytes })
]

unfoldable pub read_files : List File → Result (List FileInput)
read_files [] = ok []
read_files (f ∷ fs) = do file ← read_file f; rest ← read_files fs; ok (file ∷ rest)

-- Where a job ends: the state, and what it gives or throws. An error without a code counts as
-- 'invalid_package'.
abbrev pub Ending : Type 0
Ending = Scope × Result Product

module _ (s : Sodium) (json : Text → Option Json) (url_of : Text → Option Url) (u : Unicode)
    (w : Surroundings) where
  unfoldable pub run_seal : Randomness → Text → List File → CreateOptions → Result Product
  unfolding read_files
  run_seal r text files options = do
    refuse_if (ltb max_files (length files) || ltb max_content_bytes (total_size files))
        invalid_package
    inputs ← read_files files
    note ← create s u r (record { text = text; files = inputs }) options
    ok (sealed note.packet note.id note.secret note.revoke_token)

  unfoldable pub run_proof : Bytes → Challenge → Result Product
  run_proof packet challenge = do
    nonce ← solve_proof w json packet challenge
    ok (proved nonce packet)

  -- The answer to `load` for the parts of the link.
  unfoldable pub peek_of : Text × Text → Result Product
  peek_of parts = do token ← derive_peek s parts.1 parts.0; ok (loaded parts.0 token)

  unfoldable pub run_load : Text → Scope → Ending
  unfolding peek_of
  run_load url scope = elim (parse_share_link url_of url) [
    | err e ↦ (scope, err e)
    | ok parts ↦ (record scope { link = some parts }, peek_of parts)
  ]

  abbrev pub check_link : Option (Text × Text) → Header → Result Product
  check_link none header = err invalid_package
  check_link (some (id, secret)) header = do
    refuse_if (not (list_eq header.id id)) invalid_package
    ok (inspected header)

  unfoldable pub run_inspect : Text → Scope → Ending
  run_inspect header64 scope = (
    record scope { header64 = header64 },
    decode_header json header64 >>= λ header. check_link scope.link header,
  )

  -- `prepareOpen` ends, and what was prepared is kept.
  abbrev pub keep_access : Scope → Result PreparedOpen → Ending
  keep_access scope (err e) = (record scope { prepared = none }, err e)
  keep_access scope (ok p) = (record scope { prepared = some p }, ok (access p.read_token))

  abbrev pub prepare_with : Option (Text × Text) → Text → Text → Scope → Ending
  prepare_with none header64 passphrase scope = (scope, err invalid_package)
  prepare_with (some (id, secret)) [] passphrase scope = (scope, err invalid_package)
  prepare_with (some (id, secret)) (c ∷ header64) passphrase scope =
      keep_access scope (prepare_open s json (c ∷ header64) secret id passphrase)

  unfoldable pub run_prepare : Text → Scope → Ending
  run_prepare passphrase scope = prepare_with scope.link scope.header64 passphrase scope

  abbrev pub decrypt_with : Option PreparedOpen → Bytes → Scope → Ending
  decrypt_with none packet scope = (scope, err invalid_package)
  decrypt_with (some p) packet scope = (
    record scope { prepared = none; link = none; header64 = [] },
    decrypt s json u packet p >>= λ found. ok (content found),
  )

  unfoldable pub run_decrypt : Bytes → Scope → Ending
  run_decrypt packet scope = decrypt_with scope.prepared packet scope

  unfoldable pub run_job : Randomness → Job → Scope → Ending
  unfolding run_seal run_proof run_load run_inspect run_prepare run_decrypt
  run_job r (seal text files options) scope = (scope, run_seal r text files options)
  run_job r (proof packet challenge) scope = (scope, run_proof packet challenge)
  run_job r (load url) scope = run_load url scope
  run_job r (inspect header64) scope = run_inspect header64 scope
  run_job r (prepare passphrase) scope = run_prepare passphrase scope
  run_job r (decrypt_packet packet) scope = run_decrypt packet scope
  run_job r unknown scope = (scope, err invalid_package)
