-- ===== src/Reader/Tests.antt =====
-- Runs of `Reader`, and its theorems at concrete inputs.
use erase_to.Prelude.{ℕ, ◌≤◌, ◌≡◌, ◌⊎◌, refl, true, false, some, List, [], ◌∷◌, codes}
use erase_to.Types.{pos, ContentInput, Header, argon2id}
use erase_to.Answers.{Metadata}
use erase_to.Page.{Thrown, request_error, resolved, rejected}
use erase_to.Reader.{Reader, ready, verification_failed, error_text, worker_prepare}
use erase_to.Session.{new_session}
use erase_to.Reader.{new_reader}
use erase_to.Reader.Callbacks.{retrievals}
use erase_to.Reader.Events.{
  link_came, metadata_came, header_came, token_came, packet_came, content_came, ReaderEvent, loads,
  opens, typed, answers, run,
}
use erase_to.Reader.Retrievals.{retrieves_once}
use erase_to.Reader.Shown.{
  IsAlive, IsOpenable, shown_reader, open_shows_content, refusal_keeps_package,
}

abbrev description : Metadata
description = record { header = codes "e30"; expires_at = 1800000000; remaining = 3 }

abbrev header : Header
header = record {
  id = codes "abc";
  ttl = 3600;
  views = 5;
  peek = [];
  read = [];
  revoke = [];
  kdf = argon2id;
  salt = [];
  nonce = [];
}

abbrev note : ContentInput
note = record { text = codes "hi"; files = [] }

abbrev denied : Thrown
denied = request_error (codes "wrong_passphrase")

-- A link is loaded, the passphrase is typed, and the package is asked for.
abbrev asking : List ReaderEvent
asking =
    loads (codes "https://erase.to/view") 1000
    ∷ answers (link_came 0 (resolved (record { id = codes "abc"; peek_token = codes "peek" })) 1001)
    ∷ answers (metadata_came 0 (resolved description) 1002)
    ∷ answers (header_came 0 (resolved header) 1003)
    ∷ typed (codes "pass")
    ∷ opens 1004
    ∷ answers (token_came 0 (resolved (codes "read")) 1005)
    ∷ []

retrieves_once_example :
    (retrievals (run asking new_reader).requests ≤ 1)
    × (((run asking new_reader).busy ≡ true)
        ⊎ (((run asking new_reader).id ≡ []) ⊎ (retrievals (run asking new_reader).requests ≡ 0)))
retrieves_once_example = retrieves_once asking

abbrev ready_reader : Reader
ready_reader = record new_reader {
  phase = ready;
  id = codes "abc";
  metadata = some description;
  required = true;
  passphrase = codes "pass";
  remaining = pos 3;
}

ready_reader-IsOpenable : IsOpenable ready_reader
ready_reader-IsOpenable = record {
  idle = refl;
  ready_now = refl;
  linked_to = refl;
  described = refl;
  passphrase_given = refl;
}

new_session-IsAlive : (now : ℕ) → IsAlive new_session now
new_session-IsAlive now = record {
  silent = refl;
  fresh = record { counted = refl; current = refl; earlier = refl };
  ahead = refl;
}

open_shows_content_example :
    run
      (opens 5
        ∷ answers (token_came 0 (resolved (codes "read")) 6)
        ∷ answers (packet_came 0 (resolved (1 ∷ [])) 7)
        ∷ answers (content_came 0 (resolved note) 8)
        ∷ [])
      ready_reader
    ≡ shown_reader (codes "read") (1 ∷ []) note ready_reader
open_shows_content_example =
    open_shows_content ready_reader 5 6 7 8 (codes "read") (1 ∷ []) note ready_reader-IsOpenable
      (new_session-IsAlive 5) (new_session-IsAlive 6) (new_session-IsAlive 7)
      (new_session-IsAlive 8)

refusal_keeps_package_example :
    run (opens 5 ∷ answers (token_came 0 (rejected denied) 6) ∷ []) ready_reader
    ≡ record ready_reader {
      busy = false;
      error = error_text denied;
      status = verification_failed;
      passphrase = [];
      requests = worker_prepare (codes "pass") ∷ [];
    }
refusal_keeps_package_example =
    refusal_keeps_package ready_reader 5 6 denied ready_reader-IsOpenable (new_session-IsAlive 5)
      (new_session-IsAlive 6)
