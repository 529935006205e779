-- ===== src/Reader/Retrievals.antt =====
-- web/src/lib/controllers.ts: the requests for the packet over any events of a `Reader`.
use erase_to.Prelude.{
  ℕ, ◌≤◌, ◌≡◌, ◌⊎◌, inl, inr, refl, subst, Bool, true, false, List, [], ◌∷◌, ◌++◌, arith,
  Bool-cases,
}
use erase_to.Types.{Text}
use erase_to.Session.{Session, Ticket}
use erase_to.Reader.{Reader, has_data, hides}
use erase_to.Page.{tickets_of}
use erase_to.Session.{
  handle as handle_session, clear as clear_session, destroy as destroy_session,
  attach as attach_session, manual, destroyed, attach_called,
}
use erase_to.Session.Tickets.{clear-IsValid, handle-IsValid}
use erase_to.Reader.{clear, destroy, attach, new_reader}
use erase_to.Reader.Callbacks.{retrievals}
use erase_to.Reader.Once.{IsOnce, Holds, on_session-Holds}
use erase_to.Reader.Events.{
  ReaderEvent, loads, opens, copies, saves_text, saves, typed, clears, destroys, attaches, answers,
  session_event, download_ran_out, handle, run,
}
use erase_to.Reader.Started.{
  load-Holds, open_package-Holds, copy_text-Holds, download-Holds, download_text-Holds,
}
use erase_to.Reader.Resumed.{answer-Holds}

handle-Holds : (event : ReaderEvent) (r : Reader) → Holds [] [] r → Holds [] [] (handle event r)
unfolding handle clear destroy attach destroy_session attach_session handle_session
handle-Holds (loads url now) r v = load-Holds url now r v
handle-Holds (opens now) r v = open_package-Holds now r v
handle-Holds (copies now) r v = copy_text-Holds now r v
handle-Holds (saves index now) r v = download-Holds index now r v
handle-Holds (saves_text now) r v = download_text-Holds now r v
handle-Holds (typed text) r v = v
handle-Holds clears r v =
    on_session-Holds [] [] (λ s. (clear_session manual s, tt {0})) r
      (λ s w. clear-IsValid manual s w) v
handle-Holds destroys r v =
    on_session-Holds [] [] (λ s. (destroy_session s, tt {0})) r
      (λ s w. handle-IsValid destroyed s w) v
handle-Holds attaches r v =
    on_session-Holds [] [] (λ s. (attach_session s, tt {0})) r
      (λ s w. handle-IsValid attach_called s w) v
handle-Holds (answers a) r v = answer-Holds a r v
handle-Holds (session_event e) r v =
    on_session-Holds [] [] (λ s. (handle_session (e (has_data r) (hides r)) s, tt {0})) r
      (λ s w. handle-IsValid (e (has_data r) (hides r)) s w) v
handle-Holds (download_ran_out id) r v = v

pub run-Holds :
    (events : List ReaderEvent) (r : Reader) → Holds [] [] r → Holds [] [] (run events r)
unfolding run
run-Holds [] r v = v
run-Holds (event ∷ events) r v = run-Holds events (handle event r) (handle-Holds event r v)

pub new_reader-Holds : Holds [] [] new_reader
unfolding tickets_of retrievals
new_reader-Holds = record {
  silent = refl;
  fresh = record { counted = refl; current = refl; earlier = refl };
  before_issued = tt;
  after_issued = tt;
  single = refl;
  once = omega arith;
  used = inl refl;
}

idle_unasked :
    (s : Session) (id : Text) (n : ℕ) (bs ts : List Ticket)
    → IsOnce s false id n bs ts
    → (id ≡ []) ⊎ (n ≡ 0)
idle_unasked s id n bs ts v = elim v.used [
  | inl empty ↦ inl empty
  | inr few ↦ inr (omega (arith, few, v.single))
]

-- After any events the packet was requested at most once since the metadata was last requested; and if
-- it was, then the object is busy or has no link, so that `open` does not begin again before another
-- link is loaded.
pub retrieves_once :
    (events : List ReaderEvent)
    → (retrievals (run events new_reader).requests ≤ 1)
      × (((run events new_reader).busy ≡ true)
          ⊎ (((run events new_reader).id ≡ []) ⊎ (retrievals (run events new_reader).requests ≡ 0)))
retrieves_once events =
    let r = run events new_reader in
    let v = run-Holds events new_reader new_reader-Holds in
    (
      omega (arith, v.once),
      elim (Bool-cases r.busy) [
        | inl busy ↦ inl busy
        | inr idle ↦ inr (
            idle_unasked r.session r.id (retrievals r.requests) r.preparing
              (r.retrieving ++ r.decrypting)
              (subst
                (λ (b : Bool).
                  IsOnce r.session b r.id (retrievals r.requests) r.preparing
                    (r.retrieving ++ r.decrypting))
                idle v))
      ],
    )
