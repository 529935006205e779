-- ===== src/Encoding/LinkRoundTrip.antt =====
-- shared/encoding.ts: `makeShareLink` and `parseShareLink` together.
use erase_to.Prelude.{
  ℕ, ◌+◌, ◌*◌, ◌/◌, ◌≡◌, ◌≢◌, ◌↔◌, subst, refl, sym, ap, ◌∙◌, true, false, not, ◌&&◌, ◌||◌, ◌==◌,
  arith, Option, none, some, [], ◌++◌, map, inl, inr, list_eq, list_eq_self, list_eq→eq, codes,
  length, all, take, drop, take-append, drop-append_add, take_all, Bool-cases, Option-cases,
  or-eq-false, and-eq-true, not-eq-false,
}
use erase_to.Types.{Text, Bytes, ok, err, refuse_if-eq-ok, >>=-eq-ok, invalid_package}
use erase_to.Encoding.Base64Url.{from_base64url, is_url_char}
use erase_to.Encoding.Base64RoundTrip.{Encodes, from_base64url_iff, length-encoding}
use erase_to.Encoding.Base64Laws.{
  url_char, digits_of, to_base64url_lem, all-is_url_char, digits_of-lt,
}
use erase_to.Encoding.Links.{
  Url, validate_id, is_bad_site, fragment, link_of, match_fragment, check_match, parts_of,
  make_share_link, parse_share_link,
}

-- A text that spells 32 bytes in base64url.
pub record IsKey (text : Text) : Type 0 where
  pub bytes : Bytes
  pub encodes : Encodes text (some 32) 32 bytes

pub decoded-IsKey :
    (text : Text) {bytes : Bytes} → from_base64url text (some 32) 32 ≡ ok bytes → IsKey text
decoded-IsKey text {bytes} e = record {
  bytes = bytes;
  encodes = (from_base64url_iff text (some 32) 32 bytes).0 e;
}

-- A key has 43 characters of the alphabet.
key_shape : (text : Text) → IsKey text → (length text ≡ 43) × (all is_url_char text ≡ true)
key_shape text k =
    let same : map url_char (digits_of k.bytes) ≡ text =
      sym (to_base64url_lem k.bytes) ∙ k.encodes.encoding in
    let size : length k.bytes ≡ 32 = ground (arith, k.encodes.expected_length) in
    (
      ap length (sym same) ∙ length-encoding k.bytes ∙ ap (λ (n : ℕ). (n * 4 + 2) / 3) size,
      ap (all is_url_char) (sym same)
          ∙ all-is_url_char (digits_of k.bytes) (digits_of-lt k.bytes k.encodes.are_bytes),
    )

match-fragment :
    (id secret : Text)
    → IsKey id
    → IsKey secret
    → match_fragment (fragment id secret) ≡ some (id, secret)
unfolding match_fragment fragment
match-fragment id secret k l =
    let (n, url) = key_shape id k in
    let (m, url') = key_shape secret l in
    let first : take 43 (id ++ (codes "." ++ secret)) ≡ id =
      ap (λ (i : ℕ). take i (id ++ (codes "." ++ secret))) (sym n) ∙ take-append id _ in
    let second : take 43 (drop 44 (id ++ (codes "." ++ secret))) ≡ secret =
      ap (take 43) (drop-append_add id (codes "." ++ secret) 44 1 (omega (arith, n)))
      ∙ ap (λ (i : ℕ). take i secret) (sym m)
      ∙ take_all secret in
    rw (first, second, n, m, list_eq_self (id ++ (codes "." ++ secret)), url, url')

no_pair : (id secret : Text) → ¬ (◌≡◌ {A = Option (Text × Text)} none (some (id, secret)))
no_pair id secret e = cc

some_pair :
    (i s id secret : Text)
    → ◌≡◌ {A = Option (Text × Text)} (some (i, s)) (some (id, secret))
    → (i ≡ id) × (s ≡ secret)
some_pair i s id secret e = (cc, cc)

match_fragment-eq-some :
    (hash id secret : Text) → match_fragment hash ≡ some (id, secret) → hash ≡ fragment id secret
unfolding match_fragment
match_fragment-eq-some hash id secret e =
    let i = take 43 (drop 3 hash) in
    let s = take 43 (drop 47 hash) in
    elim (Bool-cases (
      length i == 43
      && length s == 43
      && list_eq hash (fragment i s)
      && all is_url_char i
      && all is_url_char s)) [
        | inr unmatched ↦ absurd (no_pair id secret (rw unmatched at e))
        | inl matched ↦
            let x : some (i, s) ≡ some (id, secret) = rw matched at e in
            let (up_to_id, url') = and-eq-true _ (all is_url_char s) matched in
            let (up_to_hash, url) = and-eq-true _ (all is_url_char i) up_to_id in
            let (sizes, same) =
              and-eq-true (length i == 43 && length s == 43) (list_eq hash (fragment i s))
                up_to_hash in
            let (left, right) = some_pair i s id secret x in
            rw (← left, ← right) (list_eq→eq hash (fragment i s) same)
      ]

check_match-eq-ok :
    (i s id secret : Text)
    → check_match (some (i, s)) ≡ ok (id, secret)
    → (i ≡ id) × (s ≡ secret) × IsKey i × IsKey s
unfolding check_match validate_id
check_match-eq-ok i s id secret e =
    let (bytes, first, rest) = >>=-eq-ok (from_base64url i (some 32) 32) _ e in
    let (bytes', second, last) = >>=-eq-ok (from_base64url s (some 32) 32) _ rest in
    (cc, cc, decoded-IsKey i first, decoded-IsKey s second)

check_match-none : (id secret : Text) → check_match none ≢ ok (id, secret)
unfolding check_match
check_match-none id secret e = cc

-- What a URL has to be to carry an identifier and a secret: a web address without credentials, with
-- the path of the reader, no query, and both as keys in the fragment.
pub record IsShareLink (url : Url) (id secret : Text) : Type 0 where
  pub site : is_bad_site url ≡ false
  pub pathname : url.pathname ≡ codes "/view"
  pub search : url.search ≡ []
  pub hash : url.hash ≡ fragment id secret
  pub id_key : IsKey id
  pub secret_key : IsKey secret

parts_of-IsShareLink :
    (url : Url) (id secret : Text) → parts_of url ≡ ok (id, secret) → IsShareLink url id secret
unfolding parts_of
parts_of-IsShareLink url id secret e =
    let (tests, rest) =
      refuse_if-eq-ok
        (is_bad_site url
          || not (list_eq url.pathname (codes "/view"))
          || not (list_eq url.search []))
        invalid_package _ e in
    let (others, no_search) = or-eq-false _ (not (list_eq url.search [])) tests in
    let (site, path) =
      or-eq-false (is_bad_site url) (not (list_eq url.pathname (codes "/view"))) others in
    elim (Option-cases (match_fragment url.hash)) [
      | inl unmatched ↦
          let x : check_match none ≡ ok (id, secret) = rw unmatched at rest in
          absurd (check_match-none id secret x)
      | inr ((i, s), matched) ↦
          let x : check_match (some (i, s)) ≡ ok (id, secret) = rw matched at rest in
          let (left, right, k, l) = check_match-eq-ok i s id secret x in
          record {
            site = site;
            pathname = list_eq→eq _ _ (not-eq-false _ path);
            search = list_eq→eq _ _ (not-eq-false _ no_search);
            hash = match_fragment-eq-some url.hash i s matched ∙ rw (left, right);
            id_key = subst IsKey left k;
            secret_key = subst IsKey right l;
          }
    ]

IsShareLink-parts_of :
    (url : Url) (id secret : Text) → IsShareLink url id secret → parts_of url ≡ ok (id, secret)
unfolding parts_of check_match validate_id
IsShareLink-parts_of url id secret v = rw (
  v.site,
  v.pathname,
  v.search,
  v.hash,
  match-fragment id secret v.id_key v.secret_key,
  (from_base64url_iff id (some 32) 32 v.id_key.bytes).1 v.id_key.encodes,
  (from_base64url_iff secret (some 32) 32 v.secret_key.bytes).1 v.secret_key.encodes,
)

-- `parseShareLink` returns an identifier and a secret exactly when the link is the URL of a web
-- address without credentials, with the path `/view`, no query, and the fragment `#1.`, the
-- identifier, a dot and the secret, each the one base64url spelling of 32 bytes.
pub parse_share_link_iff :
    (url_of : Text → Option Url) (link id secret : Text)
    → (parse_share_link url_of link ≡ ok (id, secret))
      ↔ ((url : Url) × (url_of link ≡ some url) × IsShareLink url id secret)
unfolding parse_share_link
parse_share_link_iff url_of link id secret = (
  λ e. elim (Option-cases (url_of link)) [
    | inl broken ↦
        let x : err invalid_package ≡ ok (id, secret) = rw (broken, parse_share_link) at e in
        absurd (cc)
    | inr (url, found) ↦
        (url, found, parts_of-IsShareLink url id secret (rw (found, parse_share_link) at e))
  ],
  λ p.
      let (url, found, v) = p in
      rw (found, parse_share_link) (IsShareLink-parts_of url id secret v),
)

-- The URL of the reader's page on the site of another one.
abbrev pub view_url : Url → Text → Url
view_url url hash = record url { pathname = codes "/view"; search = []; hash = hash }

link_of-eq-ok :
    (url : Url) (origin id secret link : Text)
    → link_of url origin id secret ≡ ok link
    → (is_bad_site url ≡ false)
      × (url.origin ++ (codes "/view" ++ fragment id secret) ≡ link)
      × IsKey id
      × IsKey secret
unfolding link_of validate_id
link_of-eq-ok url origin id secret link e =
    let (tests, rest) =
      refuse_if-eq-ok (is_bad_site url || not (list_eq url.origin origin)) invalid_package _ e in
    let (site, same) = or-eq-false (is_bad_site url) _ tests in
    let (bytes, first, rest') = >>=-eq-ok (from_base64url id (some 32) 32) _ rest in
    let (bytes', second, last) = >>=-eq-ok (from_base64url secret (some 32) 32) _ rest' in
    (site, cc, decoded-IsKey id first, decoded-IsKey secret second)

-- A link that `makeShareLink` makes is read by `parseShareLink` as the identifier and the secret that
-- it was made of. Of `new URL` it is assumed that it reads the path and a fragment of base64url
-- characters and dots behind the origin as they stand, and the rest as it reads the origin alone.
pub parse_share_link-make_share_link :
    (url_of : Text → Option Url) (base : Url) (origin id secret : Text) {link : Text}
    → url_of origin ≡ some base
    → ((i s : Text)
        → all is_url_char i ≡ true
        → all is_url_char s ≡ true
        → url_of (base.origin ++ (codes "/view" ++ fragment i s))
          ≡ some (view_url base (fragment i s)))
    → make_share_link url_of origin id secret ≡ ok link
    → parse_share_link url_of link ≡ ok (id, secret)
unfolding make_share_link is_bad_site
parse_share_link-make_share_link url_of base origin id secret {link} found reads e =
    let made : link_of base origin id secret ≡ ok link = rw (found, make_share_link) at e in
    let (site, same, k, l) = link_of-eq-ok base origin id secret link made in
    (parse_share_link_iff url_of link id secret).1 (
      view_url base (fragment id secret),
      ap url_of (sym same) ∙ reads id secret (key_shape id k).1 (key_shape secret l).1,
      record {
        site = site;
        pathname = refl;
        search = refl;
        hash = refl;
        id_key = k;
        secret_key = l;
      },
    )
