-- ===== src/Reader/Retrieval.antt =====
-- web/src/lib/controllers.ts: `Reader.open` and its three waits: the worker's answer to `prepare`, the
-- packet that the service hands out once, and the worker's answer to `decrypt`.
use erase_to.Prelude.{
  ℕ, Bool, true, false, not, ◌&&◌, ◌||◌, Option, none, some, [], ◌∷◌, if◌then◌else◌, codes,
}
use erase_to.Types.{Text, Bytes, ContentInput, pos, ◌-ℤ◌}
use erase_to.Answers.{Metadata}
use erase_to.Page.{Thrown, Outcome, resolved, rejected, is_request_error}
use erase_to.Session.{Ticket, expire, ticket}
use erase_to.Reader.{
  Reader, opened, failed, deriving_access, retrieving_package, decrypting_locally,
  decrypted_locally, opening_failed, verification_failed, Complaint, no_complaint, enter_passphrase,
  transfer_timed_out, retrieval_failed, error_text, worker_prepare, worker_decrypt, service_open,
  worker_disposed, on_session, if_valid, is_ready, is_empty,
}

abbrev pub has_metadata : Option Metadata → Bool
has_metadata none = false
has_metadata (some m) = true

-- The call of the worker that begins an opening.
abbrev pub ask_access : Reader × Ticket → Reader
ask_access p = record p.0 {
  preparing = p.1 ∷ p.0.preparing;
  requests = worker_prepare p.0.passphrase ∷ p.0.requests;
}

-- What `open` does after its tests.
unfoldable pub start_opening : ℕ → Reader → Reader
start_opening now r = ask_access (
    on_session (ticket now)
      (record r { busy = true; error = no_complaint; status = deriving_access }))

-- The session has expired, or there is nothing to open.
abbrev pub cannot_open : Bool → Reader → Bool
cannot_open over r =
    over || r.busy || not (is_ready r.phase) || is_empty r.id || not (has_metadata r.metadata)

unfoldable pub open_package : ℕ → Reader → Reader
unfolding on_session start_opening
open_package now r =
    let (r', over) = on_session (expire now) r in
    if cannot_open over r'
    then r'
    else if r'.required && is_empty r'.passphrase
    then record r' { error = enter_passphrase }
    else start_opening now r'

abbrev pub make_idle : Reader → Reader
make_idle r = record r { busy = false }

-- The `finally` of `open`.
unfoldable pub settle : Ticket → ℕ → Reader → Reader
unfolding if_valid
settle t now r = if_valid t now make_idle r

-- The error after the packet was requested.
abbrev pub complaint_of : Thrown → Complaint
complaint_of e =
    if is_request_error (codes "request_timeout") e then transfer_timed_out else retrieval_failed

-- The body of the `catch` of `open`; the flag says that the packet was requested.
unfoldable pub after_failure : Bool → Thrown → Reader → Reader
after_failure false e r = record r {
  passphrase = [];
  error = error_text e;
  status = verification_failed;
}
after_failure true e r = record r {
  passphrase = [];
  requests = worker_disposed ∷ r.requests;
  id = [];
  metadata = none;
  phase = failed;
  error = complaint_of e;
  status = opening_failed;
}

unfoldable pub open_failed : Bool → Ticket → Thrown → ℕ → Reader → Reader
unfolding if_valid settle after_failure
open_failed requested t e now r =
    if_valid t now (λ r'. settle t now (after_failure requested e r')) r

abbrev pub ask_packet : Ticket → Text → Reader → Reader
ask_packet t read_token r = record r {
  passphrase = [];
  status = retrieving_package;
  retrieving = t ∷ r.retrieving;
  requests = service_open r.id read_token ∷ r.requests;
}

unfoldable pub prepared : Ticket → Outcome Text → ℕ → Reader → Reader
unfolding if_valid open_failed
prepared t (rejected e) now r = open_failed false t e now r
prepared t (resolved read_token) now r = if_valid t now (ask_packet t read_token) r

abbrev pub ask_content : Ticket → Bytes → Reader → Reader
ask_content t packet r = record r {
  status = decrypting_locally;
  decrypting = t ∷ r.decrypting;
  requests = worker_decrypt packet ∷ r.requests;
}

unfoldable pub retrieved : Ticket → Outcome Bytes → ℕ → Reader → Reader
unfolding if_valid open_failed
retrieved t (rejected e) now r = open_failed true t e now r
retrieved t (resolved packet) now r = if_valid t now (ask_content t packet) r

-- The content is shown, and the access is given up.
unfoldable pub show_content : ContentInput → Reader → Reader
show_content content r = record r {
  content = some content;
  remaining = r.remaining -ℤ pos 1;
  phase = opened;
  status = decrypted_locally;
  id = [];
  metadata = none;
  requests = worker_disposed ∷ r.requests;
}

unfoldable pub decrypted : Ticket → Outcome ContentInput → ℕ → Reader → Reader
unfolding if_valid open_failed settle show_content
decrypted t (rejected e) now r = open_failed true t e now r
decrypted t (resolved content) now r =
    if_valid t now (λ r'. settle t now (show_content content r')) r
