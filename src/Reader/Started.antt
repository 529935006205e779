-- ===== src/Reader/Started.antt =====
-- web/src/lib/controllers.ts: the methods of a `Reader` up to their first wait.
use erase_to.Prelude.{
  ℕ, ◌≡◌, ◌≢◌, inl, inr, refl, sym, ap, ◌∙◌, subst, Bool, true, false, ◌&&◌, List, [], ◌∷◌, ◌++◌,
  or-eq-false, Bool-cases, Option-cases,
}
use erase_to.Types.{Text}
use erase_to.Session.{Session, Ticket, expire, ticket}
use erase_to.Reader.{
  Reader, loading, checking_metadata, deriving_access, no_complaint, on_session, touch, is_empty,
  has_data,
}
use erase_to.Session.{Effect, is_over}
use erase_to.Session.Tickets.{IsValid, expire-IsValid}
use erase_to.Reader.{absorb}
use erase_to.Session.{touch_at}
use erase_to.Session.Tickets.{touch_at-IsValid}
use erase_to.Reader.Callbacks.{retrievals}
use erase_to.Reader.Once.{IsOnce, Holds, on_session-Holds}
use erase_to.Reader.Moves.{untouched, begin}
use erase_to.Reader.Loading.{load}
use erase_to.Reader.Retrieval.{open_package, cannot_open, start_opening, ask_access}
use erase_to.Reader.Copies.{copy_text, text_of, save, file_of, download, download_text}

-- Expiry that does not happen changes nothing.
expire_ahead :
    (now : ℕ) (s : Session)
    → (expire now s).1 ≡ false
    → ((expire now s).0 ≡ s) × (is_over now s ≡ false)
unfolding expire
expire_ahead now s e = elim (Bool-cases (is_over now s)) [
  | inl over ↦ absurd (cc (rw over at e))
  | inr ahead ↦ rw ahead (refl, refl)
]

pub on_session_same {ℓ} :
    {X : Type ℓ} (call : Session → Session × X) (r : Reader) (x : X)
    → r.session.log ≡ []
    → call r.session ≡ (r.session, x)
    → on_session call r ≡ (r, x)
unfolding on_session absorb
on_session_same {X = X} call r x silent e =
    ap (λ (p : Session × X). (absorb p.0.log (record r { session = record p.0 { log = [] } }), p.1))
      e
    ∙ ap (λ (l : List Effect). (absorb l (record r { session = record r.session { log = [] } }), x))
        silent
    ∙ ap (λ (r' : Reader). (r', x)) (untouched r silent)

pub ticket_ahead :
    (now : ℕ) (s : Session)
    → (expire now s).1 ≡ false
    → ticket now s ≡ (s, record { generation = s.generation; signal = s.controller })
unfolding ticket
ticket_ahead now s ahead =
    let issue : Session → Session × Ticket =
      λ s'. (s', record { generation = s'.generation; signal = s'.controller }) in
    ap issue (expire_ahead now s ahead).0

ticket-IsValid : {base : ℕ} (now : ℕ) (s : Session) → IsValid base s → IsValid base (ticket now s).0
unfolding ticket
ticket-IsValid now s v = expire-IsValid now s v

pub load-Holds : (url : Text) (now : ℕ) (r : Reader) → Holds [] [] r → Holds [] [] (load url now r)
unfolding load touch retrievals
load-Holds url now r v =
    let shown = record r { phase = loading; error = no_complaint; status = checking_metadata } in
    on_session-Holds [] [] (ticket now) (touch now shown) (λ s w. ticket-IsValid now s w)
      (on_session-Holds [] [] (λ s. (touch_at (has_data shown) now now s, tt {0})) shown
        (λ s w. touch_at-IsValid (has_data shown) now now s w) v)

start_opening-Holds :
    (now : ℕ) (r : Reader)
    → Holds [] [] r
    → r.busy ≡ false
    → r.id ≢ []
    → (expire now r.session).1 ≡ false
    → Holds [] [] (start_opening now r)
unfolding start_opening retrievals
start_opening-Holds now r v idle has_link ahead =
    let shown = record r { busy = true; error = no_complaint; status = deriving_access } in
    let t : Ticket = record { generation = r.session.generation; signal = r.session.controller } in
    let v' : IsOnce r.session false r.id (retrievals r.requests) r.preparing
        (r.retrieving ++ r.decrypting) =
      subst
        (λ (b : Bool).
          IsOnce r.session b r.id (retrievals r.requests) r.preparing
            (r.retrieving ++ r.decrypting))
        idle v in
    subst (λ (p : Reader × Ticket). Holds [] [] (ask_access p))
      (sym (on_session_same (ticket now) shown t v.silent (ticket_ahead now r.session ahead)))
      (begin r.session r.id (retrievals r.requests) t r.preparing (r.retrieving ++ r.decrypting) v'
        has_link refl refl)

not_empty : (id : Text) → is_empty id ≡ false → id ≢ []
not_empty [] h e = absurd (cc)
not_empty (c ∷ id) h e = absurd (cc)

-- What holds when `open` goes on after its first test.
pub can_open :
    (over : Bool) (r : Reader)
    → cannot_open over r ≡ false
    → (over ≡ false) × (r.busy ≡ false) × (r.id ≢ [])
can_open over r h =
    let (h1, no_metadata) = or-eq-false _ _ h in
    let (h2, has_link) = or-eq-false _ _ h1 in
    let (h3, is_not_ready) = or-eq-false _ _ h2 in
    let (ahead, idle) = or-eq-false _ _ h3 in (ahead, idle, not_empty r.id has_link)

pub expire_same :
    (now : ℕ) (r : Reader)
    → r.session.log ≡ []
    → (on_session (expire now) r).1 ≡ false
    → on_session (expire now) r ≡ (r, false)
unfolding on_session expire
expire_same now r silent ahead =
    on_session_same (expire now) r false silent (elim (Bool-cases (is_over now r.session)) [
      | inl over ↦ absurd (cc (rw over at ahead))
      | inr before ↦ rw before refl
    ])

expire_twice :
    (now : ℕ) (r : Reader)
    → r.session.log ≡ []
    → (on_session (expire now) r).1 ≡ false
    → (expire now (on_session (expire now) r).0.session).1 ≡ false
unfolding on_session
expire_twice now r silent ahead =
    subst (λ (p : Reader × Bool). (expire now p.0.session).1 ≡ false)
      (sym (expire_same now r silent ahead)) ahead

pub open_package-Holds : (now : ℕ) (r : Reader) → Holds [] [] r → Holds [] [] (open_package now r)
unfolding open_package
open_package-Holds now r v =
    let r' = (on_session (expire now) r).0 in
    let v' = on_session-Holds [] [] (expire now) r (λ s w. expire-IsValid now s w) v in
    elim (Bool-cases (cannot_open (on_session (expire now) r).1 r')) [
      | inl blocked ↦ rw blocked v'
      | inr able ↦ elim (Bool-cases (r'.required && is_empty r'.passphrase)) [
        | inl missing ↦ rw (able, missing) v'
        | inr given ↦
            let (ahead, idle, has_link) = can_open (on_session (expire now) r).1 r' able in
            rw (able, given)
              (start_opening-Holds now r' v' idle has_link (expire_twice now r v.silent ahead))
      ]
    ]

pub copy_text-Holds : (now : ℕ) (r : Reader) → Holds [] [] r → Holds [] [] (copy_text now r)
unfolding copy_text retrievals
copy_text-Holds now r v =
    let r' = (on_session (expire now) r).0 in
    let v' = on_session-Holds [] [] (expire now) r (λ s w. expire-IsValid now s w) v in
    elim (Bool-cases (on_session (expire now) r).1) [
      | inl over ↦ rw over v'
      | inr ahead ↦ elim (Option-cases (text_of r'.content)) [
        | inl nothing ↦ rw (ahead, nothing) v'
        | inr (text, e) ↦
            rw (ahead, e)
              (on_session-Holds [] [] (ticket now) r' (λ s w. ticket-IsValid now s w) v')
      ]
    ]

pub download-Holds :
    (index now : ℕ) (r : Reader) → Holds [] [] r → Holds [] [] (download index now r)
unfolding download save retrievals
download-Holds index now r v =
    let r' = (on_session (expire now) r).0 in
    let v' = on_session-Holds [] [] (expire now) r (λ s w. expire-IsValid now s w) v in
    elim (Bool-cases (on_session (expire now) r).1) [
      | inl over ↦ rw over v'
      | inr ahead ↦ elim (Option-cases (file_of index r'.content)) [
        | inl nothing ↦ rw (ahead, nothing) v'
        | inr (file, e) ↦ rw (ahead, e) v'
      ]
    ]

pub download_text-Holds : (now : ℕ) (r : Reader) → Holds [] [] r → Holds [] [] (download_text now r)
unfolding download_text save retrievals
download_text-Holds now r v =
    let r' = (on_session (expire now) r).0 in
    let v' = on_session-Holds [] [] (expire now) r (λ s w. expire-IsValid now s w) v in
    elim (Bool-cases (on_session (expire now) r).1) [
      | inl over ↦ rw over v'
      | inr ahead ↦ elim (Option-cases (text_of r'.content)) [
        | inl nothing ↦ rw (ahead, nothing) v'
        | inr (text, e) ↦ rw (ahead, e) v'
      ]
    ]
