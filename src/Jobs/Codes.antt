-- ===== src/Jobs/Codes.antt =====
-- web/src/lib/crypto.worker.ts: the codes that `load` answers with.
use erase_to.Prelude.{
  ℕ, ◌+◌, ◌-◌, ◌*◌, ◌/◌, ◌%◌, ◌≡◌, ◌⊎◌, inl, inr, refl, sym, ap, ◌∙◌, Bool, true, false, not, ◌||◌,
  Option, none, some, [], ◌++◌, arith, ltb, ◌==◌, list_eq, length, codes, replicate,
}
use erase_to.Types.{
  Text, Bytes, Result, ok, err, refuse_if, ◌>>=◌, ◌>>◌, ErrorCode, invalid_package,
}
use erase_to.Json.{Json}
use erase_to.Encoding.Links.{Url, parse_share_link}
use erase_to.Content.Names.{Unicode}
use erase_to.Origins.{Hkdf, CryptoSupport, worker_hkdf}
use erase_to.Proof.{Surroundings}
use erase_to.Protocol.{Sodium, Randomness, derive_peek}
use erase_to.Jobs.{load, Scope, run_job, run_load, peek_of}
use erase_to.Types.{crypto_unavailable}
use erase_to.Encoding.Links.{parts_of, validate_id, check_match, match_fragment, is_bad_site}
use erase_to.Encoding.Base64Url.{
  from_base64url, check_decoded, misses, to_base64url, atob, replace_all, is_url_text,
}
use erase_to.Protocol.{peek_bytes}
use erase_to.Jobs.Messages.{perform, perform_with}

same_code {ℓ} : {A : Type ℓ} (a b : ErrorCode) → ◌≡◌ {A = Result A} (err a) (err b) → a ≡ b
same_code a b e = cc

-- A chain that fails has failed at a link.
>>=-eq-err {ℓ κ} :
    {X : Type ℓ} {Y : Type κ} (call : Result X) (next : X → Result Y) {e : ErrorCode}
    → (call >>= next) ≡ err e
    → (call ≡ err e) ⊎ ((x : X) × (next x ≡ err e))
>>=-eq-err (err c) next h = inl (ap err (same_code c _ h))
>>=-eq-err (ok x) next h = inr (x, h)

refuse_if-eq-err {ℓ} :
    {Y : Type ℓ} (t : Bool) (c : ErrorCode) (next : Result Y) {e : ErrorCode}
    → (refuse_if t c >> next) ≡ err e
    → (e ≡ c) ⊎ (next ≡ err e)
refuse_if-eq-err true c next h = inl (sym (same_code c _ h))
refuse_if-eq-err false c next h = inr h

not_err {ℓ} : {A : Type ℓ} (a : A) (e c : ErrorCode) → ◌≡◌ {A = Result A} (ok a) (err e) → e ≡ c
not_err a e c h = absurd (cc)

check_decoded-eq-err :
    (t : Text) (n : Option ℕ) (m : ℕ) (b : Option Bytes) (e : ErrorCode)
    → check_decoded t n m b ≡ err e
    → e ≡ invalid_package
unfolding check_decoded
check_decoded-eq-err t n m none e h = sym (same_code invalid_package e h)
check_decoded-eq-err t n m (some b) e h =
    elim (refuse_if-eq-err
      (ltb m (length b) || misses n (length b) || not (list_eq (to_base64url b) t)) invalid_package
      (ok b) h) [ inl same ↦ same | inr good ↦ not_err b e invalid_package good ]

from_base64url-eq-err :
    (t : Text) (n : Option ℕ) (m : ℕ) (e : ErrorCode)
    → from_base64url t n m ≡ err e
    → e ≡ invalid_package
unfolding from_base64url
from_base64url-eq-err t n m e h =
    let decoded = atob (
      replace_all b'_' b'/' (replace_all b'-' b'+' t) ++ replicate ((4 - length t % 4) % 4) b'=') in
    elim (refuse_if-eq-err
      (not (is_url_text t) || ltb ((m * 4 + 2) / 3) (length t) || length t % 4 == 1) invalid_package
      (check_decoded t n m decoded) h) [
        | inl same ↦ same
        | inr rest ↦ check_decoded-eq-err t n m decoded e rest
      ]

check_match-eq-err :
    (m : Option (Text × Text)) (e : ErrorCode) → check_match m ≡ err e → e ≡ invalid_package
unfolding check_match
check_match-eq-err none e h = sym (same_code invalid_package e h)
check_match-eq-err (some (id, secret)) e h =
    elim (>>=-eq-err (from_base64url id (some 32) 32) _ h) [
      | inl first ↦ from_base64url-eq-err id (some 32) 32 e first
      | inr (b, rest) ↦ elim (>>=-eq-err (from_base64url secret (some 32) 32) _ rest) [
        | inl second ↦ from_base64url-eq-err secret (some 32) 32 e second
        | inr (c, good) ↦ not_err (id, secret) e invalid_package good
      ]
    ]

none_failed :
    (url_of : Text → Option Url) (link : Text) (e : ErrorCode)
    → url_of link ≡ none
    → parse_share_link url_of link ≡ err e
    → ◌≡◌ {A = Result (Text × Text)} (err invalid_package) (err e)
unfolding parse_share_link
none_failed url_of link e n h = rw (n, parse_share_link) at h

parts_failed :
    (url_of : Text → Option Url) (link : Text) (url : Url) (e : ErrorCode)
    → url_of link ≡ some url
    → parse_share_link url_of link ≡ err e
    → parts_of url ≡ err e
unfolding parse_share_link
parts_failed url_of link url e n h = rw (n, parse_share_link) at h

parse_share_link-eq-err :
    (url_of : Text → Option Url) (link : Text) (found : Option Url) (e : ErrorCode)
    → url_of link ≡ found
    → parse_share_link url_of link ≡ err e
    → e ≡ invalid_package
unfolding parts_of
parse_share_link-eq-err url_of link none e n h =
    sym (same_code invalid_package e (none_failed url_of link e n h))
parse_share_link-eq-err url_of link (some url) e n h =
    elim (refuse_if-eq-err
      (is_bad_site url || not (list_eq url.pathname (codes "/view")) || not (list_eq url.search []))
      invalid_package (check_match (match_fragment url.hash))
      (parts_failed url_of link url e n h)) [
        | inl same ↦ same
        | inr rest ↦ check_match-eq-err (match_fragment url.hash) e rest
      ]

derive_peek-eq-err :
    (s : Sodium) (secret id : Text) (e : ErrorCode)
    → derive_peek s secret id ≡ err e
    → e ≡ invalid_package
unfolding derive_peek peek_bytes validate_id
derive_peek-eq-err s secret id e h = elim (>>=-eq-err (peek_bytes s secret id) _ h) [
  | inl failed ↦ elim (>>=-eq-err (from_base64url id (some 32) 32) _ failed) [
    | inl bad_id ↦ from_base64url-eq-err id (some 32) 32 e bad_id
    | inr (b, rest) ↦ elim (>>=-eq-err (from_base64url secret (some 32) 32) _ rest) [
      | inl bad_secret ↦ from_base64url-eq-err secret (some 32) 32 e bad_secret
      | inr (master, good) ↦ not_err _ e invalid_package good
    ]
  ]
  | inr (peek, good) ↦ not_err _ e invalid_package good
]

worker_hkdf-eq-err :
    (origin : Text) (i2p_origin : Option Text) (secure : Bool) (support : CryptoSupport)
    (e : ErrorCode)
    → worker_hkdf origin i2p_origin secure support ≡ err e
    → e ≡ crypto_unavailable
unfolding worker_hkdf
worker_hkdf-eq-err origin i2p_origin secure support e h = ground arith

module _ (libs : Hkdf → Sodium) (json : Text → Option Json) (url_of : Text → Option Url)
    (u : Unicode) (w : Surroundings) (origin : Text) (i2p_origin : Option Text) (secure : Bool)
    (support : CryptoSupport) where
  run_load-eq-err :
      (s : Sodium) (url : Text) (scope : Scope) (parsed : Result (Text × Text)) (e : ErrorCode)
      → parse_share_link url_of url ≡ parsed
      → (run_load s json url_of u w url scope).1 ≡ err e
      → e ≡ invalid_package
  unfolding run_load peek_of
  run_load-eq-err s url scope (err c) e p h =
      parse_share_link-eq-err url_of url (url_of url) e refl
        (p ∙ ap err (same_code c e (rw (p, run_load) at h)))
  run_load-eq-err s url scope (ok (id, secret)) e p h =
      elim (>>=-eq-err (derive_peek s secret id) _ (rw (p, run_load, peek_of) at h)) [
        | inl failed ↦ derive_peek-eq-err s secret id e failed
        | inr (token, good) ↦ not_err _ e invalid_package good
      ]

  chosen-eq-err :
      (chosen : Result Hkdf) (r : Randomness) (url : Text) (scope : Scope) (e : ErrorCode)
      → ((c : ErrorCode) → chosen ≡ err c → c ≡ crypto_unavailable)
      → (perform_with libs json url_of u w origin i2p_origin secure support chosen r
          (load url)
          scope).1
        ≡ err e
      → (e ≡ invalid_package) ⊎ (e ≡ crypto_unavailable)
  unfolding run_job
  chosen-eq-err (err c) r url scope e only h = inr (only e (ap err (same_code c e h)))
  chosen-eq-err (ok hkdf) r url scope e only h =
      inl (run_load-eq-err (libs hkdf) url scope (parse_share_link url_of url) e refl h)

  -- Whatever the link, `load` fails with the code 'invalid_package' or 'crypto_unavailable' only; so never
  -- with 'invalid_link'.
  pub load_codes :
      (r : Randomness) (url : Text) (scope : Scope) (e : ErrorCode)
      → (perform libs json url_of u w origin i2p_origin secure support r (load url) scope).1 ≡ err e
      → (e ≡ invalid_package) ⊎ (e ≡ crypto_unavailable)
  unfolding perform
  load_codes r url scope e h =
      chosen-eq-err (worker_hkdf origin i2p_origin secure support) r url scope e
        (worker_hkdf-eq-err origin i2p_origin secure support) h
