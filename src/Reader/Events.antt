-- ===== src/Reader/Events.antt =====
-- web/src/lib/controllers.ts: what can happen to a `Reader`: calls of its methods, answers to what it
-- asked for, input, and the events of its session and of its downloads.
use erase_to.Prelude.{ℕ, Bool, Option, none, some, List, [], ◌∷◌}
use erase_to.Types.{Text, Bytes, ContentInput, Header}
use erase_to.Answers.{Metadata}
use erase_to.Page.{Outcome, take_out, waiting}
use erase_to.Reader.{Reader, Link, on_session, has_data, hides}
use erase_to.Session.{Event, handle as handle_session}
use erase_to.ObjectUrls.{run_out, url_of_timer}
use erase_to.Reader.{clear, destroy, attach}
use erase_to.Reader.Loading.{load, linked, fetched, inspected}
use erase_to.Reader.Retrieval.{open_package, prepared, retrieved, decrypted}
use erase_to.Reader.Copies.{copy_text, copied_text, download, download_text}

-- An answer to a call that waits, which the number picks; the last number is the time.
pub data Answer : Type 0 where
  link_came : ℕ → Outcome Link → ℕ → Answer
  metadata_came : ℕ → Outcome Metadata → ℕ → Answer
  header_came : ℕ → Outcome Header → ℕ → Answer
  token_came : ℕ → Outcome Text → ℕ → Answer
  packet_came : ℕ → Outcome Bytes → ℕ → Answer
  content_came : ℕ → Outcome ContentInput → ℕ → Answer
  copy_ended : ℕ → Outcome (Unit {0}) → ℕ → Answer

-- No call with that number waits.
abbrev pub resume : {Call : Type 0} → Option Call → (Call → Reader → Reader) → Reader → Reader
resume none go r = r
resume (some c) go r = go c r

unfoldable pub answer : Answer → Reader → Reader
unfolding take_out waiting linked fetched inspected prepared retrieved decrypted copied_text
answer (link_came n out now) r =
    resume (waiting n r.linking) (λ t. linked t out now)
      (record r { linking = take_out n r.linking })
answer (metadata_came n out now) r =
    resume (waiting n r.fetching) (λ t. fetched t out now)
      (record r { fetching = take_out n r.fetching })
answer (header_came n out now) r =
    resume (waiting n r.inspecting) (λ c. inspected c.0 c.1 out now)
      (record r { inspecting = take_out n r.inspecting })
answer (token_came n out now) r =
    resume (waiting n r.preparing) (λ t. prepared t out now)
      (record r { preparing = take_out n r.preparing })
answer (packet_came n out now) r =
    resume (waiting n r.retrieving) (λ t. retrieved t out now)
      (record r { retrieving = take_out n r.retrieving })
answer (content_came n out now) r =
    resume (waiting n r.decrypting) (λ t. decrypted t out now)
      (record r { decrypting = take_out n r.decrypting })
answer (copy_ended n out now) r =
    resume (waiting n r.copying) (λ t. copied_text t out now)
      (record r { copying = take_out n r.copying })

-- `typed` is input into the bound passphrase. An event of the session is given for what the reader
-- answers to `hasData` and `hideImmediately`.
pub data ReaderEvent : Type 0 where
  loads : Text → ℕ → ReaderEvent
  opens copies saves_text : ℕ → ReaderEvent
  saves : ℕ → ℕ → ReaderEvent
  typed : Text → ReaderEvent
  clears destroys attaches : ReaderEvent
  answers : Answer → ReaderEvent
  session_event : (Bool → Bool → Event) → ReaderEvent
  download_ran_out : ℕ → ReaderEvent

unfoldable pub handle : ReaderEvent → Reader → Reader
unfolding on_session load open_package copy_text download download_text clear destroy attach answer
handle (loads url now) r = load url now r
handle (opens now) r = open_package now r
handle (copies now) r = copy_text now r
handle (saves index now) r = download index now r
handle (saves_text now) r = download_text now r
handle (typed text) r = record r { passphrase = text }
handle clears r = clear r
handle destroys r = destroy r
handle attaches r = attach r
handle (answers a) r = answer a r
handle (session_event e) r =
    (on_session (λ s. (handle_session (e (has_data r) (hides r)) s, tt {0})) r).0
handle (download_ran_out id) r = record r {
  urls = run_out id (url_of_timer id r.urls.timers) r.urls;
}

unfoldable pub run : List ReaderEvent → Reader → Reader
unfolding handle
run [] r = r
run (event ∷ events) r = run events (handle event r)
