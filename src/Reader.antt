-- ===== src/Reader.antt =====
-- web/src/lib/controllers.ts: `Reader`, the controller of the page that opens a package. Each piece of
-- code between two waits is a function of the object; `now` is the reading of the clock in it. Calls
-- that wait for a promise are kept in a list for each wait, with their tickets. What the object asks of
-- the worker, the service, the clipboard and the browser is kept in `requests`, the latest first. The
-- texts that it shows are named, and the addresses of downloads stand for the blobs behind them.
pub mod Tickets
pub mod Callbacks
pub mod Once
pub mod Moves
pub mod Loading
pub mod Retrieval
pub mod Answered
pub mod Copies
pub mod Started
pub mod Resumed
pub mod Retrievals
pub mod Late
pub mod Shown
mod Tests
pub mod Events
use erase_to.Prelude.{
  ℕ, zero, suc, ◌+◌, ◌-◌, ◌*◌, ◌/◌, ◌%◌, ◌^◌, ◌≤◌, ◌<◌, min, max, ◌≡◌, ◌≢◌, ◌↔◌, ◌⊎◌, inl, inr,
  refl, sym, ap, ◌∙◌, ◌≡⟨◌⟩◌, ◌∎, subst, Bool, true, false, not, ◌&&◌, ◌||◌, Option, none, some,
  List, [], ◌∷◌, ◌++◌, map, append_assoc, append-nil, arith, ltb, leb, ◌==◌, ge→ltb, lt→ltb, ltb→lt,
  ltb→ge, le→leb, leb→le, ==_iff, ==_self, or-eq-false, not-eq-false, and-eq-true, Bool-cases,
  Option-cases, if◌then◌else◌, list_eq, list_eq_self, list_eq→eq, length, all, any, All, codes,
  replicate, length-replicate, length-take, length-map, length-drop, length-append, take, drop,
  take-append, drop-append, drop-append_add, drop-drop, take_all, drop_all, take-append-drop,
}
use erase_to.Types.{ℤ, pos, Text, Bytes, ContentInput, FileInput, Header, Kdf, plain, argon2id}
use erase_to.Answers.{Metadata}
use erase_to.Page.{Thrown, request_error, Outcome, resolved, rejected, has_code, is_request_error}
use erase_to.Session.{
  Session, Effect, warning, clock, cleared, ClearReason, manual, Ticket, new_session, expire,
  ticket, valid, touch_at,
}
use erase_to.Session.{clear as clear_session, destroy as destroy_session, attach as attach_session}
use erase_to.ObjectUrls.{ObjectUrls, no_urls, create, release_later}
use erase_to.ObjectUrls.{clear as clear_urls}

-- `phase`: `opened` is 'open', `wiped` is 'cleared', and `failed` is 'error'.
pub data Phase : Type 0 where
  loading ready opened wiped failed : Phase

-- `status`.
pub data Status : Type 0 where
  checking_metadata package_available package_unavailable : Status
  deriving_access retrieving_package decrypting_locally decrypted_locally : Status
  opening_failed verification_failed : Status
  locally_cleared : ClearReason → Status

-- `error`: the texts of this class, or the one of `errorText` for an error.
pub data Complaint : Type 0 where
  no_complaint enter_passphrase needs_original_link : Complaint
  transfer_timed_out retrieval_failed : Complaint
  error_text : Thrown → Complaint

-- `copied`.
pub data Copied : Type 0 where
  not_copied content_copied no_clipboard : Copied

-- The answer of the worker to `load`.
pub record Link : Type 0 where
  pub id : Text
  pub peek_token : Text

-- What the object asks for.
pub data Request : Type 0 where
  worker_load worker_inspect worker_prepare : Text → Request
  worker_decrypt : Bytes → Request
  service_meta service_open : Text → Text → Request
  clipboard_write file_saved : Text → Request
  worker_disposed : Request

-- `state`, the private fields, and the calls that wait.
pub record Reader : Type 0 where
  pub session : Session
  pub session_seconds : ℕ
  pub phase : Phase
  pub passphrase : Text
  pub required : Bool
  pub busy : Bool
  pub status : Status
  pub error : Complaint
  pub warned : ℕ
  pub expires_at : ℕ
  pub remaining : ℤ
  pub content : Option ContentInput
  pub copied : Copied
  pub id : Text
  pub metadata : Option Metadata
  pub urls : ObjectUrls
  pub requests : List Request
  pub linking : List Ticket
  pub fetching : List Ticket
  pub inspecting : List (Ticket × Metadata)
  pub preparing : List Ticket
  pub retrieving : List Ticket
  pub decrypting : List Ticket
  pub copying : List Ticket

-- `readerState()` and the constructor.
abbrev pub new_reader : Reader
new_reader = record {
  session = new_session;
  session_seconds = 0;
  phase = loading;
  passphrase = [];
  required = false;
  busy = false;
  status = checking_metadata;
  error = no_complaint;
  warned = 0;
  expires_at = 0;
  remaining = pos 0;
  content = none;
  copied = not_copied;
  id = [];
  metadata = none;
  urls = no_urls;
  requests = [];
  linking = [];
  fetching = [];
  inspecting = [];
  preparing = [];
  retrieving = [];
  decrypting = [];
  copying = [];
}

abbrev pub is_loading : Phase → Bool
is_loading loading = true
is_loading ready = false
is_loading opened = false
is_loading wiped = false
is_loading failed = false

abbrev pub is_ready : Phase → Bool
is_ready ready = true
is_ready loading = false
is_ready opened = false
is_ready wiped = false
is_ready failed = false

abbrev pub is_opened : Phase → Bool
is_opened opened = true
is_opened loading = false
is_opened ready = false
is_opened wiped = false
is_opened failed = false

abbrev pub is_empty : Text → Bool
is_empty [] = true
is_empty (c ∷ s) = false

abbrev pub has_content : Option ContentInput → Bool
has_content none = false
has_content (some c) = true

-- The option `hasData` of the session.
abbrev pub has_data : Reader → Bool
has_data r =
    not (is_empty r.id)
    || not (is_empty r.passphrase)
    || has_content r.content
    || r.busy
    || is_loading r.phase

-- The option `hideImmediately`.
abbrev pub hides : Reader → Bool
hides r = is_opened r.phase || r.busy

-- `reset(reason)`, the option `clear` of the session.
unfoldable pub reset : ClearReason → Reader → Reader
reset reason r = record r {
  requests = worker_disposed ∷ r.requests;
  id = [];
  metadata = none;
  urls = clear_urls r.urls;
  phase = wiped;
  passphrase = [];
  content = none;
  busy = false;
  copied = not_copied;
  error = no_complaint;
  expires_at = 0;
  remaining = pos 0;
  status = locally_cleared reason;
}

-- The calls that the session makes of its options, the latest first.
unfoldable pub absorb : List Effect → Reader → Reader
unfolding reset
absorb [] r = r
absorb (warning n ∷ log) r = record (absorb log r) { warned = n }
absorb (clock n ∷ log) r = record (absorb log r) { session_seconds = n }
absorb (cleared reason ∷ log) r = reset reason (absorb log r)

-- A call of a method of the session.
unfoldable pub on_session {ℓ} : {X : Type ℓ} → (Session → Session × X) → Reader → Reader × X
unfolding absorb
on_session call r =
    let (s, x) = call r.session in (absorb s.log (record r { session = record s { log = [] } }), x)

unfoldable pub touch : ℕ → Reader → Reader
unfolding on_session
touch now r = (on_session (λ s. (touch_at (has_data r) now now s, tt {0})) r).0

-- `if (this.session.valid(ticket)) …`.
unfoldable pub if_valid : Ticket → ℕ → (Reader → Reader) → Reader → Reader
unfolding on_session
if_valid t now body r = let (r', good) = on_session (valid t now) r in if good then body r' else r'

unfoldable pub clear : Reader → Reader
unfolding on_session
clear r = (on_session (λ s. (clear_session manual s, tt {0})) r).0

unfoldable pub destroy : Reader → Reader
unfolding on_session
destroy r = (on_session (λ s. (destroy_session s, tt {0})) r).0

unfoldable pub attach : Reader → Reader
unfolding on_session
attach r = (on_session (λ s. (attach_session s, tt {0})) r).0
