-- ===== src/Encoding/HeaderRoundTrip.antt =====
-- shared/encoding.ts: which bytes `parseHeader` accepts, and as what header.
use erase_to.Prelude.{
  ℕ, ◌≤◌, ◌≡◌, ◌↔◌, inl, inr, refl, sym, ap, ◌∙◌, true, false, not, ◌||◌, Option, none, some, [],
  ◌∷◌, arith, ltb, ge→ltb, ltb→ge, or-eq-false, not-eq-false, and-eq-true, Bool-cases, list_eq,
  list_eq_self, list_eq→eq, length, codes,
}
use erase_to.Types.{
  Text, Bytes, Kdf, plain, argon2id, Header, Result, ok, err, refuse_if-eq-ok, >>=-eq-ok,
  invalid_package, invalid_policy, max_header_bytes,
}
use erase_to.Json.{
  Json, null, array, fraction, boolean, number, string, object, Members, no_more, member, field,
}
use erase_to.Encoding.Utf8.{encode, utf8}
use erase_to.Encoding.Base64Url.{from_base64url}
use erase_to.Encoding.Base64RoundTrip.{from_base64url_iff}
use erase_to.Encoding.Links.{validate_id}
use erase_to.Encoding.LinkRoundTrip.{decoded-IsKey}
use erase_to.Encoding.Ascii.{length-Encodes, utf8-encode-ascii}
use erase_to.Encoding.Header.{
  is_within, validate_policy, kdf_name, kdf_of, header_text, serialize_header, is_hex64, is_typed,
  header_of, check_salt, check_header, confirm_header, finish_header, parse_header, number_of,
  text_of, is_string, is_digest, is_kdf_name,
}
use erase_to.Encoding.Headers.{IsSalt, IsHeader, header_text-IsShort}

same_header : (a b : Header) → ◌≡◌ {A = Result Header} (ok a) (ok b) → a ≡ b
same_header a b e = cc

same_text : (a b : Text) → ◌≡◌ {A = Result Text} (ok a) (ok b) → a ≡ b
same_text a b e = cc

nonempty : (s : Text) → 1 ≤ length s → list_eq s [] ≡ false
nonempty [] h = absurd (omega arith)
nonempty (c ∷ s) h = refl

within_bounds :
    (low high : ℕ) (value : Json)
    → is_within low high value ≡ true
    → (low ≤ number_of value) × (number_of value ≤ high)
within_bounds low high (number n) h = (ground arith, ground arith)
within_bounds low high null h = absurd (cc)
within_bounds low high array h = absurd (cc)
within_bounds low high fraction h = absurd (cc)
within_bounds low high (boolean b) h = absurd (cc)
within_bounds low high (string s) h = absurd (cc)
within_bounds low high (object m) h = absurd (cc)

pub validate_policy-eq-ok :
    (ttl views : Json)
    → validate_policy ttl views ≡ ok tt
    → ((60 ≤ number_of ttl) × (number_of ttl ≤ 604800))
      × ((1 ≤ number_of views) × (number_of views ≤ 100))
unfolding validate_policy
validate_policy-eq-ok ttl views e =
    elim (Bool-cases (not (is_within 60 604800 ttl) || not (is_within 1 100 views))) [
      | inl bad ↦ let x : err invalid_policy ≡ ok tt = rw (bad, validate_policy) at e in absurd (cc)
      | inr good ↦
          let (a, b) =
            or-eq-false (not (is_within 60 604800 ttl)) (not (is_within 1 100 views)) good in
          (
            within_bounds 60 604800 ttl (not-eq-false _ a),
            within_bounds 1 100 views (not-eq-false _ b),
          )
    ]

check_salt-IsSalt : (kdf : Kdf) (salt : Text) → check_salt kdf salt ≡ ok tt → IsSalt kdf salt
unfolding check_salt
check_salt-IsSalt plain salt e = elim (Bool-cases (list_eq salt [])) [
  | inl empty ↦ list_eq→eq salt [] empty
  | inr other ↦ let x : err invalid_package ≡ ok tt = rw (other, check_salt) at e in absurd (cc)
]
check_salt-IsSalt argon2id salt e =
    let (present, e1) = refuse_if-eq-ok (list_eq salt []) invalid_package _ e in
    let (bytes, decoded, e2) = >>=-eq-ok (from_base64url salt (some 16) 16) _ e1 in
    (bytes, (from_base64url_iff salt (some 16) 16 bytes).0 decoded)

is_digest-hex64 : (value : Json) → is_digest value ≡ true → is_hex64 (text_of value) ≡ true
is_digest-hex64 value h = (and-eq-true (is_string value) (is_hex64 (text_of value)) h).1

checked-IsHeader :
    (v : Members)
    → is_typed v ≡ true
    → check_header v (header_of v) ≡ ok tt
    → IsHeader (header_of v)
unfolding is_typed header_of check_header validate_id
checked-IsHeader v typed e =
    let (t11, nonce) = and-eq-true _ (is_string (field (codes "nonce") v)) typed in
    let (t10, salt) = and-eq-true _ (is_string (field (codes "salt") v)) t11 in
    let (t9, kdf) = and-eq-true _ (is_kdf_name (field (codes "kdf") v)) t10 in
    let (t8, revoke) = and-eq-true _ (is_digest (field (codes "revoke") v)) t9 in
    let (t7, read) = and-eq-true _ (is_digest (field (codes "read") v)) t8 in
    let (t6, peek) = and-eq-true _ (is_digest (field (codes "peek") v)) t7 in
    let h = header_of v in
    let (id_bytes, id_ok, e1) = >>=-eq-ok (from_base64url h.id (some 32) 32) _ e in
    let (u, policy, e2) =
      >>=-eq-ok (validate_policy (field (codes "ttl") v) (field (codes "views") v)) _ e1 in
    let (nonce_bytes, nonce_ok, e3) = >>=-eq-ok (from_base64url h.nonce (some 24) 24) _ e2 in
    let (ttl, views) =
      validate_policy-eq-ok (field (codes "ttl") v) (field (codes "views") v) policy in
    record {
      id_key = decoded-IsKey h.id id_ok;
      ttl_from = ttl.0;
      ttl_to = ttl.1;
      views_from = views.0;
      views_to = views.1;
      peek_hex = is_digest-hex64 _ peek;
      read_hex = is_digest-hex64 _ read;
      revoke_hex = is_digest-hex64 _ revoke;
      salt_right = check_salt-IsSalt h.kdf h.salt e3;
      nonce_bytes = nonce_bytes;
      nonce_encodes = (from_base64url_iff h.nonce (some 24) 24 nonce_bytes).0 nonce_ok;
    }

finish_header-IsHeader :
    (text : Text) (value : Option Json) (h : Header)
    → finish_header text value ≡ ok h
    → IsHeader h × (text ≡ header_text h)
unfolding finish_header confirm_header serialize_header
finish_header-IsHeader text (some (object v)) h e =
    let (typed, e1) = refuse_if-eq-ok (not (is_typed v)) invalid_package _ e in
    let (u, checked, e2) = >>=-eq-ok (check_header v (header_of v)) _ e1 in
    let good = checked-IsHeader v (not-eq-false _ typed) checked in
    let (back, decoded, e3) = >>=-eq-ok (utf8 (encode (header_text (header_of v)))) _ e2 in
    let (same, e4) = refuse_if-eq-ok (not (list_eq back text)) invalid_package _ e3 in
    let whole =
      utf8-encode-ascii (header_text (header_of v))
        (header_text-IsShort (header_of v) good).ascii in
    let equal : ok back ≡ ok (header_text (header_of v)) = sym decoded ∙ whole in
    let found : header_of v ≡ h = same_header (header_of v) h e4 in
    rw (← found) (good, sym (list_eq→eq back text (not-eq-false _ same)) ∙ same_text back _ equal)
finish_header-IsHeader text none h e = absurd (cc)
finish_header-IsHeader text (some null) h e = absurd (cc)
finish_header-IsHeader text (some array) h e = absurd (cc)
finish_header-IsHeader text (some fraction) h e = absurd (cc)
finish_header-IsHeader text (some (boolean b)) h e = absurd (cc)
finish_header-IsHeader text (some (number n)) h e = absurd (cc)
finish_header-IsHeader text (some (string s)) h e = absurd (cc)

-- What `parseHeader` returns is in order, and its text is the canonical one.
pub parse_header-IsHeader :
    (json : Text → Option Json) (bytes : Bytes) (h : Header)
    → parse_header json bytes ≡ ok h
    → IsHeader h × (utf8 bytes ≡ ok (header_text h))
unfolding parse_header
parse_header-IsHeader json bytes h e =
    let (size, e1) =
      refuse_if-eq-ok (ltb (length bytes) 1 || ltb max_header_bytes (length bytes)) invalid_package
        _ e in
    let (text, decoded, e2) = >>=-eq-ok (utf8 bytes) _ e1 in
    let (good, same) = finish_header-IsHeader text (json text) h e2 in (good, decoded ∙ ap ok same)

-- What `JSON.parse` makes of the text of a header.
abbrev pub header_members : Header → Members
header_members h = member (codes "version") (number 1) (
    member (codes "id") (string h.id) (
      member (codes "ttl") (number h.ttl) (
        member (codes "views") (number h.views) (
          member (codes "peek") (string h.peek) (
            member (codes "read") (string h.read) (
              member (codes "revoke") (string h.revoke) (
                member (codes "kdf") (string (kdf_name h.kdf)) (
                  member (codes "salt") (string h.salt)
                    (member (codes "nonce") (string h.nonce) no_more)))))))))

kdf_of-kdf_name : (kdf : Kdf) → kdf_of (kdf_name kdf) ≡ kdf
kdf_of-kdf_name plain = refl
kdf_of-kdf_name argon2id = refl

is_kdf_name-kdf_name : (kdf : Kdf) → is_kdf_name (string (kdf_name kdf)) ≡ true
is_kdf_name-kdf_name plain = refl
is_kdf_name-kdf_name argon2id = refl

header_of-header_members : (h : Header) → header_of (header_members h) ≡ h
unfolding header_of
header_of-header_members h = ap (λ (k : Kdf). record h { kdf = k }) (kdf_of-kdf_name h.kdf)

is_typed-header_members : (h : Header) → IsHeader h → is_typed (header_members h) ≡ true
unfolding is_typed
is_typed-header_members h v = rw (v.peek_hex, v.read_hex, v.revoke_hex, is_kdf_name-kdf_name h.kdf)

is_within_lem : (low high n : ℕ) → low ≤ n → n ≤ high → is_within low high (number n) ≡ true
is_within_lem low high n h k = ground arith

pub validate_policy_ok :
    (ttl views : ℕ)
    → 60 ≤ ttl
    → ttl ≤ 604800
    → 1 ≤ views
    → views ≤ 100
    → validate_policy (number ttl) (number views) ≡ ok tt
unfolding validate_policy
validate_policy_ok ttl views a b c d =
    rw (is_within_lem 60 604800 ttl a b, is_within_lem 1 100 views c d)

IsSalt-check_salt : (kdf : Kdf) (salt : Text) → IsSalt kdf salt → check_salt kdf salt ≡ ok tt
unfolding check_salt
IsSalt-check_salt plain salt e = rw e
IsSalt-check_salt argon2id salt (bytes, e) =
    rw (filled, (from_base64url_iff salt (some 16) 16 bytes).1 e)
  where
    filled : list_eq salt [] ≡ false
    filled = nonempty salt (omega (arith, length-Encodes salt (some 16) 16 bytes e, e.not_empty))

check_header-IsHeader : (h : Header) → IsHeader h → check_header (header_members h) h ≡ ok tt
unfolding check_header validate_id
check_header-IsHeader h v = rw (
  (from_base64url_iff h.id (some 32) 32 v.id_key.bytes).1 v.id_key.encodes,
  validate_policy_ok h.ttl h.views v.ttl_from v.ttl_to v.views_from v.views_to,
  (from_base64url_iff h.nonce (some 24) 24 v.nonce_bytes).1 v.nonce_encodes,
  IsSalt-check_salt h.kdf h.salt v.salt_right,
)

confirm_header_ok :
    (h : Header) → IsHeader h → confirm_header (header_text h) (header_members h) h ≡ ok h
unfolding confirm_header serialize_header
confirm_header_ok h v = rw (
  is_typed-header_members h v,
  check_header-IsHeader h v,
  utf8-encode-ascii (header_text h) (header_text-IsShort h v).ascii,
  list_eq_self (header_text h),
)

finish_header-header_members :
    (h : Header)
    → IsHeader h
    → finish_header (header_text h) (some (object (header_members h))) ≡ ok h
unfolding finish_header
finish_header-header_members h v =
    ap (confirm_header (header_text h) (header_members h)) (header_of-header_members h)
    ∙ confirm_header_ok h v

-- `parseHeader` returns a header exactly when its fields are all in order and the bytes, 1 to 2048 of
-- them, decode to the text that `serializeHeader` writes for it. Of `JSON.parse` it is assumed that it
-- reads this text as the object that was written.
pub parse_header_iff :
    (json : Text → Option Json) (bytes : Bytes) (h : Header)
    → json (header_text h) ≡ some (object (header_members h))
    → (parse_header json bytes ≡ ok h) ↔ (
        IsHeader h × (utf8 bytes ≡ ok (header_text h)) × (1 ≤ length bytes) × (length bytes ≤ 2048))
unfolding parse_header
parse_header_iff json bytes h reads = (
  λ e.
      let (size, e1) =
        refuse_if-eq-ok (ltb (length bytes) 1 || ltb max_header_bytes (length bytes))
          invalid_package _ e in
      let (low, high) =
        or-eq-false (ltb (length bytes) 1) (ltb max_header_bytes (length bytes)) size in
      let (good, decoded) = parse_header-IsHeader json bytes h e in
      (good, decoded, ltb→ge _ _ low, ltb→ge _ _ high),
  λ p.
      let (good, decoded, low, high) = p in
      rw (
        ge→ltb (length bytes) 1 low,
        ge→ltb 2048 (length bytes) high,
        decoded,
        reads,
        finish_header-header_members h good,
      ),
)
