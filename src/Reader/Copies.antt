-- ===== src/Reader/Copies.antt =====
-- web/src/lib/controllers.ts: `Reader.copyText`, `Reader.download` and `Reader.downloadText`.
use erase_to.Prelude.{ℕ, zero, suc, Option, none, some, List, [], ◌∷◌, if◌then◌else◌, codes}
use erase_to.Types.{Text, ContentInput, FileInput}
use erase_to.Page.{Outcome, resolved, rejected}
use erase_to.Session.{Ticket, expire, ticket}
use erase_to.ObjectUrls.{create, release_later}
use erase_to.Reader.{
  Reader, content_copied, no_clipboard, clipboard_write, file_saved, on_session, if_valid,
}

-- `this.state.content?.text`, where it is not empty.
abbrev pub text_of : Option ContentInput → Option Text
text_of none = none
text_of (some c) = elim c.text [ [] ↦ none | d ∷ text ↦ some (d ∷ text) ]

abbrev pub start_copying : ℕ → Option Text → Reader → Reader
start_copying now none r = r
start_copying now (some text) r =
    let (r', t) = on_session (ticket now) r in
    record r' { copying = t ∷ r'.copying; requests = clipboard_write text ∷ r'.requests }

unfoldable pub copy_text : ℕ → Reader → Reader
unfolding on_session
copy_text now r =
    let (r', over) = on_session (expire now) r in
    if over then r' else start_copying now (text_of r'.content) r'

unfoldable pub copied_text : Ticket → Outcome (Unit {0}) → ℕ → Reader → Reader
unfolding if_valid
copied_text t (resolved done) now r = if_valid t now (λ r'. record r' { copied = content_copied }) r
copied_text t (rejected e) now r = if_valid t now (λ r'. record r' { copied = no_clipboard }) r

-- An address is made, clicked, and released later.
unfoldable pub save : Text → Reader → Reader
unfolding create release_later
save name r =
    let (urls, url) = create r.urls in
    record r { urls = release_later url urls; requests = file_saved name ∷ r.requests }

-- `files[index]`.
abbrev pub file_at : ℕ → List FileInput → Option FileInput
file_at n [] = none
file_at zero (f ∷ fs) = some f
file_at (suc n) (f ∷ fs) = file_at n fs

abbrev pub file_of : ℕ → Option ContentInput → Option FileInput
file_of index none = none
file_of index (some c) = file_at index c.files

abbrev pub save_file : Option FileInput → Reader → Reader
save_file none r = r
save_file (some f) r = save f.name r

unfoldable pub download : ℕ → ℕ → Reader → Reader
unfolding on_session save
download index now r =
    let (r', over) = on_session (expire now) r in
    if over then r' else save_file (file_of index r'.content) r'

abbrev pub save_text : Option Text → Reader → Reader
save_text none r = r
save_text (some text) r = save (codes "erase-message.txt") r

unfoldable pub download_text : ℕ → Reader → Reader
unfolding on_session save
download_text now r =
    let (r', over) = on_session (expire now) r in
    if over then r' else save_text (text_of r'.content) r'
