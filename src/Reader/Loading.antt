-- ===== src/Reader/Loading.antt =====
-- web/src/lib/controllers.ts: `Reader.load` and its three waits: the worker's answer to `load`, the
-- service's metadata, and the worker's answer to `inspect`.
use erase_to.Prelude.{
  ℕ, Bool, true, false, not, ◌||◌, some, [], ◌∷◌, ltb, if◌then◌else◌, list_eq, codes,
}
use erase_to.Types.{pos, Text, Header, Kdf, plain, argon2id}
use erase_to.Answers.{Metadata}
use erase_to.Page.{Thrown, request_error, Outcome, resolved, rejected, has_code}
use erase_to.Session.{Ticket, ticket}
use erase_to.Reader.{
  Reader, Link, loading, ready, failed, checking_metadata, package_available, package_unavailable,
  no_complaint, needs_original_link, error_text, worker_load, worker_inspect, service_meta,
  worker_disposed, on_session, touch, if_valid,
}

unfoldable pub load : Text → ℕ → Reader → Reader
unfolding touch on_session
load url now r =
    let shown = record r { phase = loading; error = no_complaint; status = checking_metadata } in
    let (r', t) = on_session (ticket now) (touch now shown) in
    record r' { linking = t ∷ r'.linking; requests = worker_load url ∷ r'.requests }

-- The `catch` of `load`.
abbrev pub give_up : Thrown → Reader → Reader
give_up e r = record r {
  requests = worker_disposed ∷ r.requests;
  id = [];
  phase = failed;
  status = package_unavailable;
  error = if has_code (codes "invalid_link") e then needs_original_link else error_text e;
}

unfoldable pub load_failed : Ticket → Thrown → ℕ → Reader → Reader
unfolding if_valid
load_failed t e now r = if_valid t now (give_up e) r

abbrev pub ask_metadata : Ticket → Link → Reader → Reader
ask_metadata t link r = record r {
  id = link.id;
  fetching = t ∷ r.fetching;
  requests = service_meta link.id link.peek_token ∷ r.requests;
}

unfoldable pub linked : Ticket → Outcome Link → ℕ → Reader → Reader
unfolding if_valid load_failed
linked t (rejected e) now r = load_failed t e now r
linked t (resolved link) now r = if_valid t now (ask_metadata t link) r

abbrev pub ask_inspection : Ticket → Metadata → Reader → Reader
ask_inspection t m r = record r {
  inspecting = (t, m) ∷ r.inspecting;
  requests = worker_inspect m.header ∷ r.requests;
}

unfoldable pub fetched : Ticket → Outcome Metadata → ℕ → Reader → Reader
unfolding if_valid load_failed
fetched t (rejected e) now r = load_failed t e now r
fetched t (resolved m) now r = if_valid t now (ask_inspection t m) r

abbrev pub is_argon2id : Kdf → Bool
is_argon2id argon2id = true
is_argon2id plain = false

-- The header is that of the link, and allows the retrievals that are left.
unfoldable pub show_package : Ticket → Metadata → Header → ℕ → Reader → Reader
unfolding load_failed
show_package t m header now r =
    if not (list_eq header.id r.id) || ltb header.views m.remaining
    then load_failed t (request_error (codes "invalid_response")) now r
    else record r {
      metadata = some m;
      phase = ready;
      required = is_argon2id header.kdf;
      expires_at = m.expires_at;
      remaining = pos m.remaining;
      status = package_available;
    }

unfoldable pub inspected : Ticket → Metadata → Outcome Header → ℕ → Reader → Reader
unfolding if_valid load_failed show_package
inspected t m (rejected e) now r = load_failed t e now r
inspected t m (resolved header) now r = if_valid t now (show_package t m header now) r
