-- ===== src/Reader/Tickets.antt =====
-- web/src/lib/controllers.ts: the tickets of the calls of a `Reader` that wait.
use erase_to.Prelude.{ℕ, zero, suc, ◌+◌, ◌≤◌, ◌<◌, ◌≡◌, refl, some, List, [], ◌∷◌, ◌++◌, arith, All}
use erase_to.Page.{take_out, waiting, tickets_of}
use erase_to.Session.{Ticket}

-- A ticket of a generation up to this one, with the signal of its generation.
abbrev pub IsIssued : ℕ → Ticket → Type 0
IsIssued g t = (t.generation ≤ g) × (t.signal ≡ t.generation)

pub IsIssued-later :
    (g g' : ℕ) (ts : List Ticket) → g ≤ g' → All (IsIssued g) ts → All (IsIssued g') ts
IsIssued-later g g' [] le a = tt
IsIssued-later g g' (t ∷ ts) le ((early, signal), a) =
    ((omega arith, signal), IsIssued-later g g' ts le a)

-- No ticket is of a generation that begins later.
pub tickets_of-later :
    (g g' : ℕ) (ts : List Ticket) → g < g' → All (IsIssued g) ts → tickets_of g' ts ≡ 0
unfolding tickets_of
tickets_of-later g g' [] lt a = refl
tickets_of-later g g' (t ∷ ts) lt ((early, signal), a) =
    ground (arith, tickets_of-later g g' ts lt a)

pub tickets_of-append :
    (g : ℕ) (xs ys : List Ticket) → tickets_of g (xs ++ ys) ≡ tickets_of g xs + tickets_of g ys
unfolding tickets_of
tickets_of-append g [] ys = omega arith
tickets_of-append g (x ∷ xs) ys = ground (arith, tickets_of-append g xs ys)

pub IsIssued-append :
    (g : ℕ) (xs ys : List Ticket)
    → All (IsIssued g) xs
    → All (IsIssued g) ys
    → All (IsIssued g) (xs ++ ys)
IsIssued-append g [] ys a b = b
IsIssued-append g (x ∷ xs) ys (i, a) b = (i, IsIssued-append g xs ys a b)

-- The call that an answer resumes is taken out of those that wait.
pub take_out-tickets_of :
    (g n : ℕ) (ts : List Ticket) (t : Ticket)
    → waiting n ts ≡ some t
    → tickets_of g (t ∷ take_out n ts) ≡ tickets_of g ts
unfolding waiting take_out tickets_of
take_out-tickets_of g n [] t e = absurd (cc)
take_out-tickets_of g zero (x ∷ ts) t e = ground arith
take_out-tickets_of g (suc n) (x ∷ ts) t e = ground (arith, take_out-tickets_of g n ts t e)

pub IsIssued-parts :
    (g : ℕ) (xs ys : List Ticket)
    → All (IsIssued g) (xs ++ ys)
    → All (IsIssued g) xs × All (IsIssued g) ys
IsIssued-parts g [] ys a = (tt, a)
IsIssued-parts g (x ∷ xs) ys (i, a) = let (b, c) = IsIssued-parts g xs ys a in ((i, b), c)
