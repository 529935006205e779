-- ===== src/Reader/Shown.antt =====
-- web/src/lib/controllers.ts: an opening from the call of `open` to the content.
use erase_to.Prelude.{
  ℕ, ◌≡◌, refl, ap, ◌∙◌, Bool, true, false, ◌&&◌, none, some, List, [], ◌∷◌, arith, ge→ltb, ==_self,
  if◌then◌else◌,
}
use erase_to.Types.{Text, Bytes, ContentInput, pos, ◌-ℤ◌}
use erase_to.Page.{Thrown, resolved, rejected, take_out, waiting}
use erase_to.Session.{Session, Ticket, expire, ticket, valid}
use erase_to.Reader.{
  Reader, ready, opened, deriving_access, decrypted_locally, verification_failed, no_complaint,
  enter_passphrase, error_text, worker_prepare, worker_decrypt, service_open, worker_disposed,
  on_session, if_valid, is_empty,
}
use erase_to.Session.{is_over}
use erase_to.Reader.Once.{IsFresh}
use erase_to.Reader.Retrieval.{
  open_package, cannot_open, start_opening, ask_access, has_metadata, prepared, retrieved,
  decrypted,
}
use erase_to.Reader.Events.{
  token_came, packet_came, content_came, resume, answer, opens, answers, handle, run,
}
use erase_to.Session.{mem}
use erase_to.Session.Validity.{mem-below}
use erase_to.Reader.Started.{on_session_same, ticket_ahead}
use erase_to.Reader.Retrieval.{
  open_failed, settle, after_failure, show_content, ask_packet, ask_content, make_idle,
}

-- A session of which only reports were made, at a time before its deadline.
pub record IsAlive (s : Session) (now : ℕ) : Type 0 where
  pub silent : s.log ≡ []
  pub fresh : IsFresh s
  pub ahead : is_over now s ≡ false

-- The ticket of the present generation.
abbrev pub own : Session → Ticket
own s = record { generation = s.generation; signal = s.controller }

own_valid : (now : ℕ) (s : Session) → IsAlive s now → valid (own s) now s ≡ (s, true)
unfolding valid expire
own_valid now s a =
    let alive : mem s.controller s.aborted ≡ false =
      rw (a.fresh.current, a.fresh.earlier)
        (mem-below s.generation s.generation ∙ ge→ltb _ _ (omega arith)) in
    rw (==_self s.generation, a.ahead, alive) refl

own_body :
    (now : ℕ) (body : Reader → Reader) (r : Reader)
    → IsAlive r.session now
    → if_valid (own r.session) now body r ≡ body r
unfolding if_valid
own_body now body r a =
    ap (λ (p : Reader × Bool). if p.1 then body p.0 else p.0)
      (on_session_same (valid (own r.session) now) r true a.silent (own_valid now r.session a))

expire_alive : (now : ℕ) (s : Session) → IsAlive s now → expire now s ≡ (s, false)
unfolding expire
expire_alive now s a = rw (a.ahead) refl

-- The reader has a package to open, and the passphrase if it wants one.
pub record IsOpenable (r : Reader) : Type 0 where
  pub idle : r.busy ≡ false
  pub ready_now : r.phase ≡ ready
  pub linked_to : is_empty r.id ≡ false
  pub described : has_metadata r.metadata ≡ true
  pub passphrase_given : (r.required && is_empty r.passphrase) ≡ false

start_opening-own :
    (now : ℕ) (r : Reader)
    → IsAlive r.session now
    → start_opening now r
      ≡ ask_access
          (record r { busy = true; error = no_complaint; status = deriving_access }, own r.session)
unfolding start_opening
start_opening-own now r a = ap ask_access (
    on_session_same (ticket now)
      (record r { busy = true; error = no_complaint; status = deriving_access }) (own r.session)
      a.silent
      (ticket_ahead now r.session
        (ap (λ (p : Session × Bool). p.1) (expire_alive now r.session a))))

able_body :
    (now : ℕ) (r : Reader) (p : Reader × Bool)
    → p ≡ (r, false)
    → IsOpenable r
    → (if cannot_open p.1 p.0
        then p.0
        else if p.0.required && is_empty p.0.passphrase
        then record p.0 { error = enter_passphrase }
        else start_opening now p.0)
      ≡ start_opening now r
able_body now r p e o =
    rw e (rw (o.idle, o.ready_now, o.linked_to, o.described) (rw (o.passphrase_given) refl))

opens_own :
    (now : ℕ) (r : Reader)
    → IsAlive r.session now
    → IsOpenable r
    → open_package now r
      ≡ ask_access
          (record r { busy = true; error = no_complaint; status = deriving_access }, own r.session)
unfolding open_package
opens_own now r a o =
    able_body now r (on_session (expire now) r)
      (on_session_same (expire now) r false a.silent (expire_alive now r.session a)) o
    ∙ start_opening-own now r a

token_own :
    (now : ℕ) (token : Text) (r : Reader) (others : List Ticket)
    → IsAlive r.session now
    → r.preparing ≡ own r.session ∷ others
    → answer (token_came 0 (resolved token) now) r
      ≡ ask_packet (own r.session) token (record r { preparing = others })
unfolding answer waiting take_out prepared
token_own now token r others a e =
    ap
      (λ (ts : List Ticket).
        resume (waiting 0 ts) (λ t. prepared t (resolved token) now)
          (record r { preparing = take_out 0 ts }))
      e
    ∙ own_body now (ask_packet (own r.session) token) (record r { preparing = others }) a

packet_own :
    (now : ℕ) (packet : Bytes) (r : Reader) (others : List Ticket)
    → IsAlive r.session now
    → r.retrieving ≡ own r.session ∷ others
    → answer (packet_came 0 (resolved packet) now) r
      ≡ ask_content (own r.session) packet (record r { retrieving = others })
unfolding answer waiting take_out retrieved
packet_own now packet r others a e =
    ap
      (λ (ts : List Ticket).
        resume (waiting 0 ts) (λ t. retrieved t (resolved packet) now)
          (record r { retrieving = take_out 0 ts }))
      e
    ∙ own_body now (ask_content (own r.session) packet) (record r { retrieving = others }) a

content_own :
    (now : ℕ) (content : ContentInput) (r : Reader) (others : List Ticket)
    → IsAlive r.session now
    → r.decrypting ≡ own r.session ∷ others
    → answer (content_came 0 (resolved content) now) r
      ≡ make_idle (show_content content (record r { decrypting = others }))
unfolding answer waiting take_out decrypted settle show_content
content_own now content r others a e =
    ap
      (λ (ts : List Ticket).
        resume (waiting 0 ts) (λ t. decrypted t (resolved content) now)
          (record r { decrypting = take_out 0 ts }))
      e
    ∙ own_body now (λ r'. settle (own r.session) now (show_content content r'))
        (record r { decrypting = others }) a
    ∙ own_body now make_idle (show_content content (record r { decrypting = others })) a

-- The object after an opening.
abbrev pub shown_reader : Text → Bytes → ContentInput → Reader → Reader
shown_reader token packet content r = record r {
  busy = false;
  error = no_complaint;
  status = decrypted_locally;
  passphrase = [];
  content = some content;
  remaining = r.remaining -ℤ pos 1;
  phase = opened;
  id = [];
  metadata = none;
  requests =
      worker_disposed
      ∷ worker_decrypt packet
      ∷ service_open r.id token
      ∷ worker_prepare r.passphrase
      ∷ r.requests;
}

-- A package that is ready, with its passphrase if it has one, is opened by one call of `open`, if its
-- three promises resolve before the session is over: the packet is requested once, with the token of the
-- worker, the content is shown, the passphrase and the link are forgotten, one retrieval is counted, and
-- nothing else changes.
pub open_shows_content :
    (r : Reader) (n1 n2 n3 n4 : ℕ) (token : Text) (packet : Bytes) (content : ContentInput)
    → IsOpenable r
    → IsAlive r.session n1
    → IsAlive r.session n2
    → IsAlive r.session n3
    → IsAlive r.session n4
    → run
        (opens n1
          ∷ answers (token_came 0 (resolved token) n2)
          ∷ answers (packet_came 0 (resolved packet) n3)
          ∷ answers (content_came 0 (resolved content) n4)
          ∷ [])
        r
      ≡ shown_reader token packet content r
unfolding run handle show_content
open_shows_content r n1 n2 n3 n4 token packet content o a1 a2 a3 a4 =
    let t = own r.session in
    let r1 =
      ask_access (record r { busy = true; error = no_complaint; status = deriving_access }, t) in
    let r2 = ask_packet t token (record r1 { preparing = r.preparing }) in
    let r3 = ask_content t packet (record r2 { retrieving = r.retrieving }) in
    ap
      (λ (x : Reader).
        answer (content_came 0 (resolved content) n4) (
          answer (packet_came 0 (resolved packet) n3)
            (answer (token_came 0 (resolved token) n2) x)))
      (opens_own n1 r a1 o)
    ∙ ap
        (λ (x : Reader).
          answer (content_came 0 (resolved content) n4)
            (answer (packet_came 0 (resolved packet) n3) x))
        (token_own n2 token r1 r.preparing a2 refl)
    ∙ ap (λ (x : Reader). answer (content_came 0 (resolved content) n4) x)
        (packet_own n3 packet r2 r.retrieving a3 refl)
    ∙ content_own n4 content r3 r.decrypting a4 refl

-- The worker refuses the passphrase.
token_refused :
    (now : ℕ) (e : Thrown) (r : Reader) (others : List Ticket)
    → IsAlive r.session now
    → r.preparing ≡ own r.session ∷ others
    → answer (token_came 0 (rejected e) now) r
      ≡ make_idle (after_failure false e (record r { preparing = others }))
unfolding answer waiting take_out prepared open_failed settle after_failure
token_refused now e r others a at_front =
    ap
      (λ (ts : List Ticket).
        resume (waiting 0 ts) (λ t. prepared t (rejected e) now)
          (record r { preparing = take_out 0 ts }))
      at_front
    ∙ own_body now (λ r'. settle (own r.session) now (after_failure false e r'))
        (record r { preparing = others }) a
    ∙ own_body now make_idle (after_failure false e (record r { preparing = others })) a

-- If the worker refuses the access, for instance for a wrong passphrase, then no packet is requested, the
-- package stays ready with its link and its metadata, the object is no longer busy, the passphrase is
-- forgotten, and the error is shown; nothing else changes.
pub refusal_keeps_package :
    (r : Reader) (n1 n2 : ℕ) (e : Thrown)
    → IsOpenable r
    → IsAlive r.session n1
    → IsAlive r.session n2
    → run (opens n1 ∷ answers (token_came 0 (rejected e) n2) ∷ []) r ≡ record r {
      busy = false;
      error = error_text e;
      status = verification_failed;
      passphrase = [];
      requests = worker_prepare r.passphrase ∷ r.requests;
    }
unfolding run handle after_failure
refusal_keeps_package r n1 n2 e o a1 a2 =
    let t = own r.session in
    let r1 =
      ask_access (record r { busy = true; error = no_complaint; status = deriving_access }, t) in
    ap (λ (x : Reader). answer (token_came 0 (rejected e) n2) x) (opens_own n1 r a1 o)
    ∙ token_refused n2 e r1 r.preparing a2 refl
