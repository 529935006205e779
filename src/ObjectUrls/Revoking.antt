-- ===== src/ObjectUrls/Revoking.antt =====
-- `ObjectUrls` (web/src/lib/session.ts): its addresses over any sequence of events.
use erase_to.Prelude.{
  ℕ, ◌<◌, ◌≡◌, inl, inr, refl, ◌∙◌, Bool, true, false, ◌||◌, ◌==◌, arith, Option, none, some, List,
  [], ◌∷◌, ◌++◌, Bool-cases,
}
use erase_to.ObjectUrls.{
  ObjectUrls, no_urls, holds, without, url_of_timer, create, release_later, expire_url, run_out,
  clear, Event, created, cleared, released, ran_out, handle, run,
}

holds-without :
    (x y : ℕ) (xs : List ℕ) → holds x xs ≡ true → (x == y) ≡ false → holds x (without y xs) ≡ true
holds-without x y [] h other = absurd (cc)
holds-without x y (z ∷ zs) h other = elim (Bool-cases (x == z)) [
  | inl same ↦ let apart : (y == z) ≡ false = ground arith in rw (apart, same)
  | inr differ ↦
      let later = holds-without x y zs (rw differ at h) other in
      elim (Bool-cases (y == z)) [ inl gone ↦ rw gone later | inr kept ↦ rw (kept, differ) later ]
]

holds-append : (x : ℕ) (xs ys : List ℕ) → holds x (xs ++ ys) ≡ (holds x xs || holds x ys)
holds-append x [] ys = refl
holds-append x (z ∷ zs) ys = elim (Bool-cases (x == z)) [
  | inl same ↦ rw same
  | inr differ ↦ rw (differ, holds-append x zs ys)
]

or-true : (a : Bool) → (a || true) ≡ true
or-true true = refl
or-true false = refl

-- Every address made is held or was revoked.
IsAccounted : ObjectUrls → Type 0
IsAccounted o = (x : ℕ) → x < o.next_url → (holds x o.urls || holds x o.revoked) ≡ true

create-IsAccounted : (o : ObjectUrls) → IsAccounted o → IsAccounted (create o).0
unfolding IsAccounted create
create-IsAccounted o v x h = elim (Bool-cases (x == o.next_url)) [
  | inl new ↦ rw new
  | inr old ↦ let older : x < o.next_url = ground (arith, h, old) in rw old (v x older)
]

expire_url-IsAccounted :
    (id url : ℕ) (o : ObjectUrls) → IsAccounted o → IsAccounted (expire_url id url o)
unfolding IsAccounted expire_url
expire_url-IsAccounted id url o v x h = elim (Bool-cases (x == url)) [
  | inl same ↦ rw same (or-true (holds x (without url o.urls)))
  | inr other ↦ elim (Bool-cases (holds x o.urls)) [
    | inl held ↦ rw (other, holds-without x url o.urls held other)
    | inr not_held ↦
        let earlier : holds x o.revoked ≡ true = rw not_held at (v x h) in
        rw (other, earlier) (or-true (holds x (without url o.urls)))
  ]
]

release_later-IsAccounted :
    (url : ℕ) (o : ObjectUrls) → IsAccounted o → IsAccounted (release_later url o)
unfolding IsAccounted release_later
release_later-IsAccounted url o v x h = v x h

clear-IsAccounted : (o : ObjectUrls) → IsAccounted o → IsAccounted (clear o)
unfolding IsAccounted clear
clear-IsAccounted o v x h = holds-append x o.urls o.revoked ∙ v x h

run_out-IsAccounted :
    (id : ℕ) (url : Option ℕ) (o : ObjectUrls) → IsAccounted o → IsAccounted (run_out id url o)
unfolding run_out
run_out-IsAccounted id none o v = v
run_out-IsAccounted id (some url) o v = expire_url-IsAccounted id url o v

handle-IsAccounted : (event : Event) (o : ObjectUrls) → IsAccounted o → IsAccounted (handle event o)
unfolding handle
handle-IsAccounted created o v = create-IsAccounted o v
handle-IsAccounted cleared o v = clear-IsAccounted o v
handle-IsAccounted (released url) o v = release_later-IsAccounted url o v
handle-IsAccounted (ran_out id) o v = run_out-IsAccounted id (url_of_timer id o.timers) o v

run-IsAccounted :
    (events : List Event) (o : ObjectUrls) → IsAccounted o → IsAccounted (run events o)
unfolding run
run-IsAccounted [] o v = v
run-IsAccounted (event ∷ events) o v =
    run-IsAccounted events (handle event o) (handle-IsAccounted event o v)

-- After any events, a call of `clear` leaves no address behind: each one ever made has been revoked,
-- and no timer is set.
pub clear_revokes :
    (events : List Event) (x : ℕ)
    → x < (run events no_urls).next_url
    → (holds x (clear (run events no_urls)).revoked ≡ true)
      × ((clear (run events no_urls)).timers ≡ [])
unfolding clear IsAccounted
clear_revokes events x h = (
  holds-append x (run events no_urls).urls (run events no_urls).revoked
      ∙ run-IsAccounted events no_urls (λ y less. absurd (omega (arith, less))) x h,
  refl,
)
