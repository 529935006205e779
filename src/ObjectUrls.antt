-- ===== src/ObjectUrls.antt =====
-- web/src/lib/session.ts: `ObjectUrls`, the download addresses of a page. `URL.createObjectURL` gives
-- a new address each time, so addresses are numbered, and so are timers; `revoked` lists the calls of
-- `URL.revokeObjectURL`, the latest first.
pub mod Revoking
mod Tests
use erase_to.Prelude.{
  ℕ, ◌+◌, Bool, true, false, not, ◌||◌, ◌==◌, Option, none, some, List, [], ◌∷◌, ◌++◌,
  if◌then◌else◌,
}

pub record Timer : Type 0 where
  pub id : ℕ
  pub url : ℕ

pub record ObjectUrls : Type 0 where
  pub urls : List ℕ
  pub timers : List Timer
  pub next_url : ℕ
  pub next_timer : ℕ
  pub revoked : List ℕ

abbrev pub no_urls : ObjectUrls
no_urls = record { urls = []; timers = []; next_url = 0; next_timer = 0; revoked = [] }

abbrev pub holds : ℕ → List ℕ → Bool
holds x [] = false
holds x (y ∷ ys) = x == y || holds x ys

-- `this.urls.delete(url)`.
abbrev pub without : ℕ → List ℕ → List ℕ
without x [] = []
without x (y ∷ ys) = let rest = without x ys in if x == y then rest else y ∷ rest

-- `this.timers.delete(timer)`.
abbrev pub without_timer : ℕ → List Timer → List Timer
without_timer id [] = []
without_timer id (t ∷ ts) = let rest = without_timer id ts in if id == t.id then rest else t ∷ rest

-- The address of a timer that is set.
abbrev pub url_of_timer : ℕ → List Timer → Option ℕ
url_of_timer id [] = none
url_of_timer id (t ∷ ts) = let rest = url_of_timer id ts in if id == t.id then some t.url else rest

-- `create(blob)`: the object, and the address.
unfoldable pub create : ObjectUrls → ObjectUrls × ℕ
create o = (record o { urls = o.next_url ∷ o.urls; next_url = o.next_url + 1 }, o.next_url)

unfoldable pub release_later : ℕ → ObjectUrls → ObjectUrls
release_later url o = record o {
  timers = record { id = o.next_timer; url = url } ∷ o.timers;
  next_timer = o.next_timer + 1;
}

-- The callback of a timer, for its address.
unfoldable pub expire_url : ℕ → ℕ → ObjectUrls → ObjectUrls
expire_url id url o = record o {
  urls = without url o.urls;
  timers = without_timer id o.timers;
  revoked = url ∷ o.revoked;
}

-- A timer that was cleared does not run out.
unfoldable pub run_out : ℕ → Option ℕ → ObjectUrls → ObjectUrls
unfolding expire_url
run_out id none o = o
run_out id (some url) o = expire_url id url o

unfoldable pub clear : ObjectUrls → ObjectUrls
clear o = record o { urls = []; timers = []; revoked = o.urls ++ o.revoked }

-- A call of a method, or a timer that runs out.
pub data Event : Type 0 where
  created cleared : Event
  released ran_out : ℕ → Event

unfoldable pub handle : Event → ObjectUrls → ObjectUrls
handle created o = (create o).0
handle cleared o = clear o
handle (released url) o = release_later url o
handle (ran_out id) o = run_out id (url_of_timer id o.timers) o

unfoldable pub run : List Event → ObjectUrls → ObjectUrls
run [] o = o
run (event ∷ events) o = run events (handle event o)
