-- ===== src/Reader/Callbacks.antt =====
-- web/src/lib/controllers.ts: what the calls of a `Reader`'s session do to it.
use erase_to.Prelude.{ℕ, suc, ◌≡◌, refl, false, none, List, [], ◌∷◌, arith}
use erase_to.Reader.{
  Reader, wiped, not_copied, no_complaint, locally_cleared, Request, worker_load, worker_inspect,
  worker_prepare, worker_decrypt, service_meta, service_open, clipboard_write, file_saved,
  worker_disposed,
}
use erase_to.Types.{pos}
use erase_to.Session.{ClearReason, Effect, warning, clock, cleared}
use erase_to.Session.Tickets.{clearings}
use erase_to.Reader.{absorb, reset}
use erase_to.ObjectUrls.{clear as clear_urls}

-- The requests for the packet since the last one for metadata.
unfoldable pub retrievals : List Request → ℕ
retrievals [] = 0
retrievals (service_open id token ∷ log) = suc (retrievals log)
retrievals (service_meta id token ∷ log) = 0
retrievals (worker_load url ∷ log) = retrievals log
retrievals (worker_inspect header ∷ log) = retrievals log
retrievals (worker_prepare passphrase ∷ log) = retrievals log
retrievals (worker_decrypt packet ∷ log) = retrievals log
retrievals (clipboard_write text ∷ log) = retrievals log
retrievals (file_saved name ∷ log) = retrievals log
retrievals (worker_disposed ∷ log) = retrievals log

-- The content, the passphrase, the identifier and the metadata of a package are gone, and what was
-- shown of it, but whether it wants a passphrase; the worker is disposed of, and the status says that
-- the page was cleared.
pub record IsWiped (r : Reader) : Type 0 where
  pub content : r.content ≡ none
  pub passphrase : r.passphrase ≡ []
  pub id : r.id ≡ []
  pub metadata : r.metadata ≡ none
  pub phase : r.phase ≡ wiped
  pub idle : r.busy ≡ false
  pub urls : r.urls.urls ≡ []
  pub timers : r.urls.timers ≡ []
  pub expires_at : r.expires_at ≡ 0
  pub remaining : r.remaining ≡ pos 0
  pub copied : r.copied ≡ not_copied
  pub error : r.error ≡ no_complaint
  pub reason : ClearReason
  pub status : r.status ≡ locally_cleared reason
  pub earlier : List Request
  pub disposed : r.requests ≡ worker_disposed ∷ earlier

-- The lists of calls, the session and the count of retrievals.
pub record IsUntouched (r r' : Reader) : Type 0 where
  pub session : r'.session ≡ r.session
  pub retrievals : retrievals r'.requests ≡ retrievals r.requests
  pub preparing : r'.preparing ≡ r.preparing
  pub retrieving : r'.retrieving ≡ r.retrieving
  pub decrypting : r'.decrypting ≡ r.decrypting

-- The rest of the object.
pub record IsKept (r r' : Reader) : Type 0 where
  pub content : r'.content ≡ r.content
  pub passphrase : r'.passphrase ≡ r.passphrase
  pub id : r'.id ≡ r.id
  pub metadata : r'.metadata ≡ r.metadata
  pub phase : r'.phase ≡ r.phase
  pub idle : r'.busy ≡ r.busy
  pub urls : r'.urls ≡ r.urls

pub absorb-IsUntouched : (log : List Effect) (r : Reader) → IsUntouched r (absorb log r)
unfolding absorb reset retrievals
absorb-IsUntouched [] r = record {
  session = refl;
  retrievals = refl;
  preparing = refl;
  retrieving = refl;
  decrypting = refl;
}
absorb-IsUntouched (warning n ∷ log) r =
    let u = absorb-IsUntouched log r in
    record {
      session = u.session;
      retrievals = u.retrievals;
      preparing = u.preparing;
      retrieving = u.retrieving;
      decrypting = u.decrypting;
    }
absorb-IsUntouched (clock n ∷ log) r =
    let u = absorb-IsUntouched log r in
    record {
      session = u.session;
      retrievals = u.retrievals;
      preparing = u.preparing;
      retrieving = u.retrieving;
      decrypting = u.decrypting;
    }
absorb-IsUntouched (cleared reason ∷ log) r =
    let u = absorb-IsUntouched log r in
    record {
      session = u.session;
      retrievals = u.retrievals;
      preparing = u.preparing;
      retrieving = u.retrieving;
      decrypting = u.decrypting;
    }

pub absorb-IsKept : (log : List Effect) (r : Reader) → clearings log ≡ 0 → IsKept r (absorb log r)
unfolding absorb
absorb-IsKept [] r quiet = record {
  content = refl;
  passphrase = refl;
  id = refl;
  metadata = refl;
  phase = refl;
  idle = refl;
  urls = refl;
}
absorb-IsKept (warning n ∷ log) r quiet =
    let k = absorb-IsKept log r quiet in
    record {
      content = k.content;
      passphrase = k.passphrase;
      id = k.id;
      metadata = k.metadata;
      phase = k.phase;
      idle = k.idle;
      urls = k.urls;
    }
absorb-IsKept (clock n ∷ log) r quiet =
    let k = absorb-IsKept log r quiet in
    record {
      content = k.content;
      passphrase = k.passphrase;
      id = k.id;
      metadata = k.metadata;
      phase = k.phase;
      idle = k.idle;
      urls = k.urls;
    }
absorb-IsKept (cleared reason ∷ log) r quiet = absurd (omega (arith, quiet))

pub absorb-IsWiped :
    (log : List Effect) (r : Reader) (n : ℕ) → clearings log ≡ suc n → IsWiped (absorb log r)
unfolding absorb reset clear_urls
absorb-IsWiped [] r n some_clear = absurd (omega (arith, some_clear))
absorb-IsWiped (warning m ∷ log) r n some_clear =
    let w = absorb-IsWiped log r n some_clear in
    record {
      content = w.content;
      passphrase = w.passphrase;
      id = w.id;
      metadata = w.metadata;
      phase = w.phase;
      idle = w.idle;
      urls = w.urls;
      timers = w.timers;
      expires_at = w.expires_at;
      remaining = w.remaining;
      copied = w.copied;
      error = w.error;
      reason = w.reason;
      status = w.status;
      earlier = w.earlier;
      disposed = w.disposed;
    }
absorb-IsWiped (clock m ∷ log) r n some_clear =
    let w = absorb-IsWiped log r n some_clear in
    record {
      content = w.content;
      passphrase = w.passphrase;
      id = w.id;
      metadata = w.metadata;
      phase = w.phase;
      idle = w.idle;
      urls = w.urls;
      timers = w.timers;
      expires_at = w.expires_at;
      remaining = w.remaining;
      copied = w.copied;
      error = w.error;
      reason = w.reason;
      status = w.status;
      earlier = w.earlier;
      disposed = w.disposed;
    }
absorb-IsWiped (cleared reason ∷ log) r n some_clear = record {
  content = refl;
  passphrase = refl;
  id = refl;
  metadata = refl;
  phase = refl;
  idle = refl;
  urls = refl;
  timers = refl;
  expires_at = refl;
  remaining = refl;
  copied = refl;
  error = refl;
  reason = reason;
  status = refl;
  earlier = (absorb log r).requests;
  disposed = refl;
}
