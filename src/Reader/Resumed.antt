-- ===== src/Reader/Resumed.antt =====
-- web/src/lib/controllers.ts: the answers to the calls of a `Reader` that wait.
use erase_to.Prelude.{
  ℕ, zero, suc, ◌+◌, ◌≡◌, inl, inr, refl, sym, ap, ◌∙◌, subst, Option, none, some, List, [], ◌∷◌,
  ◌++◌, Option-cases, All,
}
use erase_to.Types.{Text, Bytes, ContentInput}
use erase_to.Answers.{Metadata}
use erase_to.Page.{Outcome, resolved, rejected, take_out, waiting}
use erase_to.Session.{Ticket}
use erase_to.Reader.{Reader, content_copied, no_clipboard}
use erase_to.Page.{tickets_of}
use erase_to.Reader.Tickets.{
  IsIssued, tickets_of-append, IsIssued-append, IsIssued-parts, take_out-tickets_of,
}
use erase_to.Reader.Callbacks.{retrievals}
use erase_to.Reader.Once.{Holds}
use erase_to.Reader.Moves.{reorder}
use erase_to.Reader.Answered.{
  linked-Holds, fetched-Holds, inspected-Holds, prepared-Holds, retrieved-Holds, decrypted-Holds,
  moved_over, if_valid-Holds,
}
use erase_to.Reader.Loading.{linked, fetched, inspected}
use erase_to.Reader.Copies.{copied_text}
use erase_to.Reader.Events.{
  Answer, link_came, metadata_came, header_came, token_came, packet_came, content_came, copy_ended,
  resume, answer,
}

-- A call that waits is the one that runs on.
resume-Holds :
    {Call : Type 0} (c : Option Call) (go : Call → Reader → Reader) (r : Reader)
    → Holds [] [] r
    → ((x : Call) → Holds [] [] (go x r))
    → Holds [] [] (resume c go r)
resume-Holds none go r v h = v
resume-Holds (some x) go r v h = h x

-- What `waiting` leaves where there is no call.
take_out-none : (n : ℕ) (ts : List Ticket) → waiting n ts ≡ none → take_out n ts ≡ ts
unfolding waiting take_out
take_out-none n [] e = refl
take_out-none zero (t ∷ ts) e = absurd (cc)
take_out-none (suc n) (t ∷ ts) e = ap (λ (l : List Ticket). t ∷ l) (take_out-none n ts e)

same_call : (a b : Ticket) → ◌≡◌ {A = Option Ticket} (some a) (some b) → a ≡ b
same_call a b e = cc

IsIssued-take_out :
    (g n : ℕ) (ts : List Ticket) (t : Ticket)
    → waiting n ts ≡ some t
    → All (IsIssued g) ts
    → All (IsIssued g) (t ∷ take_out n ts)
unfolding waiting take_out
IsIssued-take_out g n [] t e a = absurd (cc)
IsIssued-take_out g zero (x ∷ ts) t e (i, a) =
    subst (λ (y : Ticket). IsIssued g y × All (IsIssued g) ts) (same_call x t e) (i, a)
IsIssued-take_out g (suc n) (x ∷ ts) t e (i, a) =
    let (j, b) = IsIssued-take_out g n ts t e a in (j, (i, b))

token-Holds :
    (n : ℕ) (out : Outcome Text) (now : ℕ) (r : Reader)
    → Holds [] [] r
    → Holds [] [] (answer (token_came n out now) r)
unfolding answer
token-Holds n out now r v = elim (Option-cases (waiting n r.preparing)) [
  | inl nothing ↦ rw (nothing, take_out-none n r.preparing nothing) v
  | inr (t, e) ↦ rw e (
      prepared-Holds t out now (record r { preparing = take_out n r.preparing })
        (reorder r.session r.busy r.id (retrievals r.requests) r.preparing
          (r.retrieving ++ r.decrypting) (t ∷ take_out n r.preparing) (r.retrieving ++ r.decrypting)
          v (λ g. take_out-tickets_of g n r.preparing t e) (λ g. refl)
          (IsIssued-take_out r.session.generation n r.preparing t e v.before_issued)
          v.after_issued))
]

first_taken :
    (g n : ℕ) (t : Ticket) (xs ys : List Ticket)
    → waiting n xs ≡ some t
    → tickets_of g (t ∷ (take_out n xs ++ ys)) ≡ tickets_of g (xs ++ ys)
first_taken g n t xs ys e =
    tickets_of-append g (t ∷ take_out n xs) ys
    ∙ ap (λ (k : ℕ). k + tickets_of g ys) (take_out-tickets_of g n xs t e)
    ∙ sym (tickets_of-append g xs ys)

last_taken :
    (g n : ℕ) (t : Ticket) (xs ys : List Ticket)
    → waiting n ys ≡ some t
    → tickets_of g (t ∷ (xs ++ take_out n ys)) ≡ tickets_of g (xs ++ ys)
last_taken g n t xs ys e =
    sym (moved_over g t xs (take_out n ys))
    ∙ tickets_of-append g xs (t ∷ take_out n ys)
    ∙ ap (λ (k : ℕ). tickets_of g xs + k) (take_out-tickets_of g n ys t e)
    ∙ sym (tickets_of-append g xs ys)

packet-Holds :
    (n : ℕ) (out : Outcome Bytes) (now : ℕ) (r : Reader)
    → Holds [] [] r
    → Holds [] [] (answer (packet_came n out now) r)
unfolding answer
packet-Holds n out now r v = elim (Option-cases (waiting n r.retrieving)) [
  | inl nothing ↦ rw (nothing, take_out-none n r.retrieving nothing) v
  | inr (t, e) ↦ rw e (
      retrieved-Holds t out now (record r { retrieving = take_out n r.retrieving })
        (let (i, j) =
            IsIssued-parts r.session.generation r.retrieving r.decrypting v.after_issued in
          let (k, l) = IsIssued-take_out r.session.generation n r.retrieving t e i in
          reorder r.session r.busy r.id (retrievals r.requests) r.preparing
            (r.retrieving ++ r.decrypting) r.preparing
            (t ∷ (take_out n r.retrieving ++ r.decrypting)) v (λ g. refl)
            (λ g. first_taken g n t r.retrieving r.decrypting e) v.before_issued
            (k, IsIssued-append r.session.generation (take_out n r.retrieving) r.decrypting l j)))
]

content-Holds :
    (n : ℕ) (out : Outcome ContentInput) (now : ℕ) (r : Reader)
    → Holds [] [] r
    → Holds [] [] (answer (content_came n out now) r)
unfolding answer
content-Holds n out now r v = elim (Option-cases (waiting n r.decrypting)) [
  | inl nothing ↦ rw (nothing, take_out-none n r.decrypting nothing) v
  | inr (t, e) ↦ rw e (
      decrypted-Holds t out now (record r { decrypting = take_out n r.decrypting })
        (let (i, j) =
            IsIssued-parts r.session.generation r.retrieving r.decrypting v.after_issued in
          let (k, l) = IsIssued-take_out r.session.generation n r.decrypting t e j in
          reorder r.session r.busy r.id (retrievals r.requests) r.preparing
            (r.retrieving ++ r.decrypting) r.preparing
            (t ∷ (r.retrieving ++ take_out n r.decrypting)) v (λ g. refl)
            (λ g. last_taken g n t r.retrieving r.decrypting e) v.before_issued
            (k, IsIssued-append r.session.generation r.retrieving (take_out n r.decrypting) i l)))
]

copied_text-Holds :
    (t : Ticket) (out : Outcome (Unit {0})) (now : ℕ) (r : Reader)
    → Holds [] [] r
    → Holds [] [] (copied_text t out now r)
unfolding copied_text
copied_text-Holds t (resolved done) now r v =
    if_valid-Holds t now (λ r'. record r' { copied = content_copied }) r v v
copied_text-Holds t (rejected e) now r v =
    if_valid-Holds t now (λ r'. record r' { copied = no_clipboard }) r v v

pub answer-Holds : (a : Answer) (r : Reader) → Holds [] [] r → Holds [] [] (answer a r)
unfolding answer copied_text
answer-Holds (link_came n out now) r v =
    resume-Holds (waiting n r.linking) (λ t. linked t out now)
      (record r { linking = take_out n r.linking }) v
      (λ t. linked-Holds t out now (record r { linking = take_out n r.linking }) v)
answer-Holds (metadata_came n out now) r v =
    resume-Holds (waiting n r.fetching) (λ t. fetched t out now)
      (record r { fetching = take_out n r.fetching }) v
      (λ t. fetched-Holds t out now (record r { fetching = take_out n r.fetching }) v)
answer-Holds (header_came n out now) r v =
    resume-Holds (waiting n r.inspecting) (λ (c : Ticket × Metadata). inspected c.0 c.1 out now)
      (record r { inspecting = take_out n r.inspecting }) v
      (λ c. inspected-Holds c.0 c.1 out now (record r { inspecting = take_out n r.inspecting }) v)
answer-Holds (token_came n out now) r v = token-Holds n out now r v
answer-Holds (packet_came n out now) r v = packet-Holds n out now r v
answer-Holds (content_came n out now) r v = content-Holds n out now r v
answer-Holds (copy_ended n out now) r v =
    resume-Holds (waiting n r.copying) (λ t. copied_text t out now)
      (record r { copying = take_out n r.copying }) v
      (λ t. copied_text-Holds t out now (record r { copying = take_out n r.copying }) v)
