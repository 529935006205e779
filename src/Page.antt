-- ===== src/Page.antt =====
-- web/src/lib/controllers.ts: the promises that a controller awaits, what they are rejected with, and the
-- calls that wait for them.
use erase_to.Prelude.{
  ℕ, zero, suc, Bool, false, Option, none, some, List, [], ◌∷◌, ◌==◌, if◌then◌else◌, list_eq,
}
use erase_to.Types.{Text}
use erase_to.Session.{Ticket}

-- An error that a promise is rejected with: one with a `code`, an `AbortError`, or another one.
pub data Thrown : Type 0 where
  request_error worker_failure : Text → Thrown
  abort_error other_error : Thrown

-- What a promise comes to.
pub data Outcome (Value : Type 0) : Type 0 where
  resolved : Value → Outcome Value
  rejected : Thrown → Outcome Value

-- The error has this code.
abbrev pub has_code : Text → Thrown → Bool
has_code code (request_error c) = list_eq c code
has_code code (worker_failure c) = list_eq c code
has_code code abort_error = false
has_code code other_error = false

-- The error is a `RequestError` with this code.
abbrev pub is_request_error : Text → Thrown → Bool
is_request_error code (request_error c) = list_eq c code
is_request_error code (worker_failure c) = false
is_request_error code abort_error = false
is_request_error code other_error = false

-- The calls that wait for a promise are kept in lists; an answer takes one out.
unfoldable pub take_out : {Call : Type 0} → ℕ → List Call → List Call
take_out n [] = []
take_out zero (c ∷ cs) = cs
take_out (suc n) (c ∷ cs) = c ∷ take_out n cs

unfoldable pub waiting : {Call : Type 0} → ℕ → List Call → Option Call
waiting n [] = none
waiting zero (c ∷ cs) = some c
waiting (suc n) (c ∷ cs) = waiting n cs

-- How many of the tickets are of a generation.
unfoldable pub tickets_of : ℕ → List Ticket → ℕ
tickets_of g [] = 0
tickets_of g (t ∷ ts) = let rest = tickets_of g ts in if t.generation == g then suc rest else rest
