-- ===== src/Jobs/Opening.antt =====
-- web/src/lib/crypto.worker.ts: the four jobs of an opening, for a note that `create` made.
use erase_to.Prelude.{
  ℕ, ◌≡◌, refl, ap, ◌∙◌, subst, Bool, true, not, Option, none, some, List, [], ◌∷◌, ◌++◌, list_eq,
  list_eq_self, all, codes,
}
use erase_to.Types.{
  Text, Bytes, ContentInput, Header, Result, ok, refuse_if, ◌>>=◌, ◌>>◌, invalid_package,
}
use erase_to.Json.{Json}
use erase_to.Encoding.Links.{Url, parse_share_link}
use erase_to.Content.Names.{Unicode}
use erase_to.Origins.{Hkdf, CryptoSupport, worker_hkdf}
use erase_to.Proof.{Surroundings}
use erase_to.Protocol.{
  Sodium, Randomness, CreateOptions, CreatedNote, PreparedOpen, derive_peek, create, prepare_open,
  decrypt, decode_header,
}
use erase_to.Jobs.{
  Job, load, inspect, prepare, decrypt_packet, Product, loaded, inspected, access, content, result,
  Scope, new_scope, Ending, run_job, run_load, run_inspect, run_prepare, run_decrypt, peek_of,
  check_link, keep_access, prepare_with, decrypt_with,
}
use erase_to.Json.{object}
use erase_to.Encoding.Base64Url.{is_url_char, to_base64url, from_base64url}
use erase_to.Encoding.Header.{header_text, serialize_header}
use erase_to.Encoding.HeaderRoundTrip.{header_members}
use erase_to.Encoding.Links.{make_share_link, fragment}
use erase_to.Encoding.LinkRoundTrip.{view_url, parse_share_link-make_share_link}
use erase_to.Content.Names.{UnicodeLaws}
use erase_to.Content.Packing.{canonical}
use erase_to.Protocol.{draft_header}
use erase_to.Protocol.Laws.{SodiumLaws, IsRandom}
use erase_to.Protocol.Opening.{create-IsCreated, reads_header}
use erase_to.Protocol.Access.{made_header, made-IsHeader, seal-IsSealed}
use erase_to.Protocol.RoundTrip.{decrypt-create}
use erase_to.Jobs.Messages.{
  JobEvent, message, job_ends, post, accept, perform, perform_with, finish, handle, run,
}

module _ (s : Sodium) (json : Text → Option Json) (url_of : Text → Option Url) (u : Unicode)
    (w : Surroundings) where
  loads_parts :
      (url : Text) (parts : Text × Text) (scope : Scope)
      → parse_share_link url_of url ≡ ok parts
      → run_load s json url_of u w url scope
        ≡ (record scope { link = some parts }, peek_of s json url_of u w parts)
  unfolding run_load
  loads_parts url parts scope e = rw (e, run_load) refl

  prepares :
      (id secret header64 passphrase : Text) (scope : Scope) (p : PreparedOpen)
      → prepare_open s json header64 secret id passphrase ≡ ok p
      → prepare_with s json url_of u w (some (id, secret)) header64 passphrase scope
        ≡ (record scope { prepared = some p }, ok (access p.read_token))
  unfolding prepare_open from_base64url
  prepares id secret [] passphrase scope p e = absurd (cc e)
  prepares id secret (c ∷ header64) passphrase scope p e =
      ap (λ (r : Result PreparedOpen). keep_access s json url_of u w scope r) e

  loads :
      (url id secret token : Text) (scope : Scope)
      → parse_share_link url_of url ≡ ok (id, secret)
      → derive_peek s secret id ≡ ok token
      → run_load s json url_of u w url scope
        ≡ (record scope { link = some (id, secret) }, ok (loaded id token))
  unfolding peek_of
  loads url id secret token scope e peeked =
      let end : Result Text → Ending =
        λ k. (record scope { link = some (id, secret) }, k >>= λ found. ok (loaded id found)) in
      loads_parts url (id, secret) scope e ∙ ap end peeked

  inspects :
      (header64 id secret : Text) (header : Header) (scope : Scope)
      → scope.link ≡ some (id, secret)
      → decode_header json header64 ≡ ok header
      → id ≡ header.id
      → run_inspect s json url_of u w header64 scope
        ≡ (record scope { header64 = header64 }, ok (inspected header))
  unfolding run_inspect
  inspects header64 id secret header scope linked decodes same =
      let end : Result Product → Ending = λ k. (record scope { header64 = header64 }, k) in
      let right : list_eq header.id id ≡ true = rw same (list_eq_self header.id) in
      ap (λ (k : Result Header). end (k >>= λ h. check_link s json url_of u w scope.link h)) decodes
      ∙ ap (λ (l : Option (Text × Text)). end (check_link s json url_of u w l header)) linked
      ∙ ap (λ (b : Bool). end (refuse_if (not b) invalid_package >> ok (inspected header))) right

  decrypts_to :
      (packet : Bytes) (p : PreparedOpen) (found : ContentInput) (scope : Scope)
      → decrypt s json u packet p ≡ ok found
      → decrypt_with s json url_of u w (some p) packet scope
        ≡ (record scope { prepared = none; link = none; header64 = [] }, ok (content found))
  decrypts_to packet p found scope e =
      let end : Result ContentInput → Ending = λ k.
        (record scope { prepared = none; link = none; header64 = [] }, k >>= λ c. ok (content c)) in
      ap end e

-- What the first two jobs compute for a created note.
record IsIssuedNote (s : Sodium) (json : Text → Option Json) (note : CreatedNote) : Type 0 where
  token : Text
  peeked : derive_peek s note.secret note.id ≡ ok token
  decodes : decode_header json (to_base64url (serialize_header note.header)) ≡ ok note.header
  same_id : note.id ≡ note.header.id

create-IsIssuedNote :
    (s : Sodium) (laws : SodiumLaws s) (json : Text → Option Json) (u : Unicode) (r : Randomness)
    (random : IsRandom r) (input : ContentInput) (options : CreateOptions) (note : CreatedNote)
    → json (header_text note.header) ≡ some (object (header_members note.header))
    → create s u r input options ≡ ok note
    → IsIssuedNote s json note
unfolding derive_peek decode_header draft_header
create-IsIssuedNote s laws json u r random input options note reads e =
    let c = create-IsCreated s u r input options note e in
    let h = made_header s r options c.peek c.keys.read in
    let v = made-IsHeader s laws r random options c.peek c.keys.read c.ttl c.views in
    let n =
      seal-IsSealed s laws r random options c.peek c.keys.read c.keys.key c.clear note c.sealed in
    let reads' : json (header_text h) ≡ some (object (header_members h)) =
      subst (λ (k : Header). json (header_text k) ≡ some (object (header_members k))) n.header
        reads in
    let (taken, parsed) = reads_header json h v reads' in
    record {
      token = to_base64url c.peek;
      peeked = rw (n.id, n.secret, c.peeked) refl;
      decodes = rw (n.header, taken) parsed;
      same_id = rw (n.header) (n.id);
    }

module _ (libs : Hkdf → Sodium) (json : Text → Option Json) (url_of : Text → Option Url)
    (u : Unicode) (w : Surroundings) (origin : Text) (i2p_origin : Option Text) (secure : Bool)
    (support : CryptoSupport) (hkdf : Hkdf)
    (chosen : worker_hkdf origin i2p_origin secure support ≡ ok hkdf) where
  -- One job, from its message to its answer.
  one_job :
      (id : ℕ) (job : Job) (r : Randomness) (scope : Scope) (events : List JobEvent)
      (ending : Ending)
      → scope.running ≡ none
      → run_job (libs hkdf) json url_of u w r job (record scope { running = some (id, job) })
        ≡ ending
      → run libs json url_of u w origin i2p_origin secure support
          (message id job ∷ job_ends r ∷ events)
          scope
        ≡ run libs json url_of u w origin i2p_origin secure support events (post id ending)
  unfolding run handle perform
  one_job id job r scope events ending idle e =
      let go : Scope → Scope = run libs json url_of u w origin i2p_origin secure support events in
      let done : Option (ℕ × Job) → Scope → Scope =
        λ o x. finish libs json url_of u w origin i2p_origin secure support r o x in
      ap
        (λ (o : Option (ℕ × Job)).
          go (done (accept id job o scope).running (accept id job o scope)))
        idle
      ∙ ap
          (λ (k : Result Hkdf). go (
            post id (
              perform_with libs json url_of u w origin i2p_origin secure support k r job
                (record scope { running = some (id, job) }))))
          chosen
      ∙ ap (λ (x : Ending). go (post id x)) e

  -- A note that `create` made is opened by four jobs of a fresh worker: `load` with its share link,
  -- `inspect` and `prepare` with its header and passphrase, and `decrypt` with its packet. They answer in
  -- turn with the identifier and a token, the header, a token, and the content, with names in NFC and media
  -- types in lower case; and the worker then keeps nothing of the note.
  pub jobs_open_note :
      (laws : SodiumLaws (libs hkdf)) (unicode : UnicodeLaws u) (r : Randomness)
      (random : IsRandom r) (input : ContentInput) (options : CreateOptions) (note : CreatedNote)
      (base : Url) (site link : Text) (r1 r2 r3 r4 : Randomness)
      → json (header_text note.header) ≡ some (object (header_members note.header))
      → create (libs hkdf) u r input options ≡ ok note
      → url_of site ≡ some base
      → ((i t : Text)
          → all is_url_char i ≡ true
          → all is_url_char t ≡ true
          → url_of (base.origin ++ (codes "/view" ++ fragment i t))
            ≡ some (view_url base (fragment i t)))
      → make_share_link url_of site note.id note.secret ≡ ok link
      → (peek_token : Text) × (read_token : Text) × (run libs json url_of u w origin i2p_origin
            secure support
            (message 1 (load link)
              ∷ job_ends r1
              ∷ message 2 (inspect (to_base64url (serialize_header note.header)))
              ∷ job_ends r2
              ∷ message 3 (prepare options.passphrase)
              ∷ job_ends r3
              ∷ message 4 (decrypt_packet note.packet)
              ∷ job_ends r4
              ∷ [])
            new_scope
          ≡ record new_scope {
            posted =
                result 4 (content (canonical u input))
                ∷ result 3 (access read_token)
                ∷ result 2 (inspected note.header)
                ∷ result 1 (loaded note.id peek_token)
                ∷ [];
          })
  unfolding run_job run_prepare run_decrypt run
  jobs_open_note laws unicode r random input options note base site link r1 r2 r3 r4 reads e found
        views made =
      let s = libs hkdf in
      let i = create-IsIssuedNote s laws json u r random input options note reads e in
      let (p, opens, decrypts) =
        decrypt-create s laws json u unicode r random input options note reads e in
      let parts =
        parse_share_link-make_share_link url_of base site note.id note.secret found views made in
      let h64 = to_base64url (serialize_header note.header) in
      let s1 = post 1 (
        record new_scope { running = some (1, load link); link = some (note.id, note.secret) },
        ok (loaded note.id i.token),
      ) in
      let s2 = post 2 (
        record s1 { running = some (2, inspect h64); header64 = h64 },
        ok (inspected note.header),
      ) in
      let s3 = post 3 (
        record s2 { running = some (3, prepare options.passphrase); prepared = some p },
        ok (access p.read_token),
      ) in
      let last : List JobEvent = message 4 (decrypt_packet note.packet) ∷ job_ends r4 ∷ [] in
      let later : List JobEvent = message 3 (prepare options.passphrase) ∷ job_ends r3 ∷ last in
      (
        i.token,
        p.read_token,
        one_job 1 (load link) r1 new_scope (message 2 (inspect h64) ∷ job_ends r2 ∷ later) _ refl (
              loads s json url_of u w link note.id note.secret i.token
                (record new_scope { running = some (1, load link) }) parts i.peeked)
            ∙ one_job 2 (inspect h64) r2 s1 later _ refl (
                inspects s json url_of u w h64 note.id note.secret note.header
                  (record s1 { running = some (2, inspect h64) }) refl i.decodes i.same_id)
            ∙ one_job 3 (prepare options.passphrase) r3 s2 last _ refl (
                prepares s json url_of u w note.id note.secret h64 options.passphrase
                  (record s2 { running = some (3, prepare options.passphrase) }) p opens)
            ∙ one_job 4 (decrypt_packet note.packet) r4 s3 [] _ refl (
                decrypts_to s json url_of u w note.packet p (canonical u input)
                  (record s3 { running = some (4, decrypt_packet note.packet) }) decrypts),
      )
