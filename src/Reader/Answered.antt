-- ===== src/Reader/Answered.antt =====
-- web/src/lib/controllers.ts: the steps of `open` and `load` after their waits.
use erase_to.Prelude.{
  ℕ, ◌≡◌, inl, inr, refl, true, false, not, ◌||◌, List, [], ◌∷◌, ◌++◌, arith, ltb, Bool-cases,
  list_eq, All, codes,
}
use erase_to.Types.{Text, Bytes, ContentInput, Header}
use erase_to.Answers.{Metadata}
use erase_to.Page.{Thrown, request_error, Outcome, resolved, rejected}
use erase_to.Session.{Ticket, valid}
use erase_to.Reader.{Reader, Link, on_session, if_valid}
use erase_to.Page.{tickets_of}
use erase_to.Session.Tickets.{valid-IsValid}
use erase_to.Reader.Tickets.{IsIssued}
use erase_to.Reader.Callbacks.{retrievals, absorb-IsUntouched}
use erase_to.Reader.Once.{IsOnce, Holds, on_session-Holds}
use erase_to.Reader.Moves.{
  valid_good, valid_stale, if_valid_lem, drop_before, drop_after, ask, end_before, end_after,
  relink, unlink, reorder,
}
use erase_to.Reader.Loading.{
  load_failed, linked, fetched, show_package, inspected, give_up, ask_metadata, ask_inspection,
}
use erase_to.Reader.Retrieval.{
  settle, after_failure, open_failed, prepared, retrieved, show_content, decrypted, make_idle,
  ask_packet, ask_content,
}

-- The check of a ticket leaves the generation that it leaves in the session.
checked_generation :
    (t : Ticket) (now : ℕ) (r : Reader)
    → (on_session (valid t now) r).0.session.generation ≡ (valid t now r.session).0.generation
unfolding on_session
checked_generation t now r =
    rw
      ((absorb-IsUntouched (valid t now r.session).0.log
        (record r { session = record (valid t now r.session).0 { log = [] } })).session)
      refl

-- A call of `open` with this ticket has not asked for the packet, goes on, and is one that has not, or
-- one that has asked, or ends.
pub if_valid-before :
    (t : Ticket) (now : ℕ) (body : Reader → Reader) (r : Reader)
    → Holds (t ∷ []) [] r
    → (t.generation ≡ r.session.generation → Holds [] [] (body r))
    → Holds [] [] (if_valid t now body r)
if_valid-before t now body r v good =
    if_valid_lem (Holds [] []) t now body r v.silent (λ e. good (valid_good t now r.session e).1)
      (λ e.
        let r' = (on_session (valid t now) r).0 in
        drop_before r'.session r'.busy r'.id (retrievals r'.requests) t r'.preparing
          (r'.retrieving ++ r'.decrypting)
          (on_session-Holds (t ∷ []) [] (valid t now) r (λ s w. valid-IsValid t now s w) v)
          (rw (checked_generation t now r)
            (valid_stale t now r.session v.before_issued.0 v.fresh e)))

pub if_valid-after :
    (t : Ticket) (now : ℕ) (body : Reader → Reader) (r : Reader)
    → Holds [] (t ∷ []) r
    → (t.generation ≡ r.session.generation → Holds [] [] (body r))
    → Holds [] [] (if_valid t now body r)
if_valid-after t now body r v good =
    if_valid_lem (Holds [] []) t now body r v.silent (λ e. good (valid_good t now r.session e).1)
      (λ e.
        let r' = (on_session (valid t now) r).0 in
        drop_after r'.session r'.busy r'.id (retrievals r'.requests) t r'.preparing
          (r'.retrieving ++ r'.decrypting)
          (on_session-Holds [] (t ∷ []) (valid t now) r (λ s w. valid-IsValid t now s w) v)
          (rw (checked_generation t now r)
            (valid_stale t now r.session v.after_issued.0 v.fresh e)))

-- A call of `load` goes on.
pub if_valid-Holds :
    (t : Ticket) (now : ℕ) (body : Reader → Reader) (r : Reader)
    → Holds [] [] r
    → Holds [] [] (body r)
    → Holds [] [] (if_valid t now body r)
if_valid-Holds t now body r v good =
    if_valid_lem (Holds [] []) t now body r v.silent (λ e. good)
      (λ e. on_session-Holds [] [] (valid t now) r (λ s w. valid-IsValid t now s w) v)

load_failed-Holds :
    (t : Ticket) (e : Thrown) (now : ℕ) (r : Reader)
    → Holds [] [] r
    → Holds [] [] (load_failed t e now r)
unfolding load_failed retrievals
load_failed-Holds t e now r v = if_valid-Holds t now (give_up e) r v (
    unlink r.session r.busy r.id (retrievals r.requests) r.preparing (r.retrieving ++ r.decrypting)
      v)

pub linked-Holds :
    (t : Ticket) (out : Outcome Link) (now : ℕ) (r : Reader)
    → Holds [] [] r
    → Holds [] [] (linked t out now r)
unfolding linked retrievals
linked-Holds t (rejected e) now r v = load_failed-Holds t e now r v
linked-Holds t (resolved link) now r v = if_valid-Holds t now (ask_metadata t link) r v (
    relink r.session r.busy r.id link.id (retrievals r.requests) r.preparing
      (r.retrieving ++ r.decrypting) v)

pub fetched-Holds :
    (t : Ticket) (out : Outcome Metadata) (now : ℕ) (r : Reader)
    → Holds [] [] r
    → Holds [] [] (fetched t out now r)
unfolding fetched retrievals
fetched-Holds t (rejected e) now r v = load_failed-Holds t e now r v
fetched-Holds t (resolved m) now r v = if_valid-Holds t now (ask_inspection t m) r v v

show_package-Holds :
    (t : Ticket) (m : Metadata) (h : Header) (now : ℕ) (r : Reader)
    → Holds [] [] r
    → Holds [] [] (show_package t m h now r)
unfolding show_package
show_package-Holds t m h now r v =
    elim (Bool-cases (not (list_eq h.id r.id) || ltb h.views m.remaining)) [
      | inl bad ↦ rw bad (load_failed-Holds t (request_error (codes "invalid_response")) now r v)
      | inr good ↦ rw good v
    ]

pub inspected-Holds :
    (t : Ticket) (m : Metadata) (out : Outcome Header) (now : ℕ) (r : Reader)
    → Holds [] [] r
    → Holds [] [] (inspected t m out now r)
unfolding inspected
inspected-Holds t m (rejected e) now r v = load_failed-Holds t e now r v
inspected-Holds t m (resolved h) now r v =
    if_valid-Holds t now (show_package t m h now) r v (show_package-Holds t m h now r v)

open_failed-before :
    (t : Ticket) (e : Thrown) (now : ℕ) (r : Reader)
    → Holds (t ∷ []) [] r
    → Holds [] [] (open_failed false t e now r)
unfolding open_failed settle after_failure
open_failed-before t e now r v =
    if_valid-before t now (λ r'. settle t now (after_failure false e r')) r v
      (λ current. if_valid-before t now make_idle (after_failure false e r) v (λ same.
        end_before r.session r.busy r.id (retrievals r.requests) t r.preparing
          (r.retrieving ++ r.decrypting) v current))

open_failed-after :
    (t : Ticket) (e : Thrown) (now : ℕ) (r : Reader)
    → Holds [] (t ∷ []) r
    → Holds [] [] (open_failed true t e now r)
unfolding open_failed settle after_failure retrievals
open_failed-after t e now r v =
    if_valid-after t now (λ r'. settle t now (after_failure true e r')) r v
      (λ current.
        if_valid-after t now make_idle (after_failure true e r)
          (unlink r.session r.busy r.id (retrievals r.requests) r.preparing
            (t ∷ (r.retrieving ++ r.decrypting)) v)
          (λ same.
            end_after r.session r.busy r.id (retrievals r.requests) t r.preparing
              (r.retrieving ++ r.decrypting) v current))

pub prepared-Holds :
    (t : Ticket) (out : Outcome Text) (now : ℕ) (r : Reader)
    → Holds (t ∷ []) [] r
    → Holds [] [] (prepared t out now r)
unfolding prepared retrievals
prepared-Holds t (rejected e) now r v = open_failed-before t e now r v
prepared-Holds t (resolved token) now r v = if_valid-before t now (ask_packet t token) r v (
    ask r.session r.busy r.id (retrievals r.requests) t r.preparing (r.retrieving ++ r.decrypting)
      v)

pub moved_over :
    (g : ℕ) (t : Ticket) (xs ys : List Ticket)
    → tickets_of g (xs ++ (t ∷ ys)) ≡ tickets_of g (t ∷ (xs ++ ys))
unfolding tickets_of
moved_over g t [] ys = refl
moved_over g t (x ∷ xs) ys = ground (arith, moved_over g t xs ys)

IsIssued-over :
    (g : ℕ) (t : Ticket) (xs ys : List Ticket)
    → All (IsIssued g) (t ∷ (xs ++ ys))
    → All (IsIssued g) (xs ++ (t ∷ ys))
IsIssued-over g t [] ys a = a
IsIssued-over g t (x ∷ xs) ys (i, (j, a)) = (j, IsIssued-over g t xs ys (i, a))

-- The call waits for the worker behind those that wait for the service.
waits_last :
    (r : Reader) (t : Ticket)
    → Holds [] (t ∷ []) r
    → IsOnce r.session r.busy r.id
        (retrievals r.requests)
        r.preparing
        (r.retrieving ++ (t ∷ r.decrypting))
waits_last r t v =
    reorder r.session r.busy r.id (retrievals r.requests) r.preparing
      (t ∷ (r.retrieving ++ r.decrypting)) r.preparing (r.retrieving ++ (t ∷ r.decrypting)) v
      (λ g. refl) (λ g. moved_over g t r.retrieving r.decrypting) v.before_issued
      (IsIssued-over r.session.generation t r.retrieving r.decrypting v.after_issued)

pub retrieved-Holds :
    (t : Ticket) (out : Outcome Bytes) (now : ℕ) (r : Reader)
    → Holds [] (t ∷ []) r
    → Holds [] [] (retrieved t out now r)
unfolding retrieved retrievals
retrieved-Holds t (rejected e) now r v = open_failed-after t e now r v
retrieved-Holds t (resolved packet) now r v =
    if_valid-after t now (ask_content t packet) r v (λ current. waits_last r t v)

pub decrypted-Holds :
    (t : Ticket) (out : Outcome ContentInput) (now : ℕ) (r : Reader)
    → Holds [] (t ∷ []) r
    → Holds [] [] (decrypted t out now r)
unfolding decrypted settle show_content retrievals
decrypted-Holds t (rejected e) now r v = open_failed-after t e now r v
decrypted-Holds t (resolved content) now r v =
    if_valid-after t now (λ r'. settle t now (show_content content r')) r v
      (λ current.
        if_valid-after t now make_idle (show_content content r)
          (unlink r.session r.busy r.id (retrievals r.requests) r.preparing
            (t ∷ (r.retrieving ++ r.decrypting)) v)
          (λ same.
            end_after r.session r.busy r.id (retrievals r.requests) t r.preparing
              (r.retrieving ++ r.decrypting) v current))
