-- ===== src/Answers/Accepted.antt =====
-- What the checks of web/src/lib/api.ts accept.
use erase_to.Prelude.{
  ℕ, ◌≤◌, ◌≡◌, ◌↔◌, le→leb, ge→ltb, refl, true, not, ◌||◌, ltb, leb, leb→le, ltb→ge, inl, inr,
  Bool-cases, or-eq-false, not-eq-false, codes,
}
use erase_to.Types.{
  Result, ok, err, refuse_if-eq-ok, >>=-eq-ok, invalid_response, unsupported_protocol,
  max_content_bytes, max_text_bytes, max_files, max_safe_integer,
}
use erase_to.Json.{Json, null, array, fraction, boolean, number, string, object, Members, field}
use erase_to.Answers.{members_of, integer, is_one, PublicConfig, read_config}

-- A number of the answer within bounds.
pub record IsInteger (value : Json) (low high n : ℕ) : Type 0 where
  pub is_number : value ≡ number n
  pub from : low ≤ n
  pub to : n ≤ high
  pub is_safe : n ≤ max_safe_integer

number_refused : (n : ℕ) → ¬ (◌≡◌ {A = Result ℕ} (err invalid_response) (ok n))
number_refused n e = cc

same_number : (m n : ℕ) → ◌≡◌ {A = Result ℕ} (ok m) (ok n) → m ≡ n
same_number m n e = cc

same_config : (a c : PublicConfig) → ◌≡◌ {A = Result PublicConfig} (ok a) (ok c) → a ≡ c
same_config a c e = cc

pub integer-IsInteger :
    (value : Json) (low high : ℕ) {n : ℕ}
    → integer value low high ≡ ok n
    → IsInteger value low high n
unfolding integer
integer-IsInteger (number m) low high {n} e =
    elim (Bool-cases (not (leb m max_safe_integer) || ltb m low || ltb high m)) [
      | inl bad ↦ absurd (number_refused n (rw bad at e))
      | inr good ↦
          let same : m ≡ n = same_number m n (rw good at e) in
          let (others, high_enough) = or-eq-false _ (ltb high m) good in
          let (safe, low_enough) = or-eq-false (not (leb m max_safe_integer)) (ltb m low) others in
          rw (← same) (record {
            is_number = refl;
            from = ltb→ge m low low_enough;
            to = ltb→ge high m high_enough;
            is_safe = leb→le m max_safe_integer (not-eq-false _ safe);
          })
    ]
integer-IsInteger null low high e = absurd (cc)
integer-IsInteger array low high e = absurd (cc)
integer-IsInteger fraction low high e = absurd (cc)
integer-IsInteger (boolean b) low high e = absurd (cc)
integer-IsInteger (string s) low high e = absurd (cc)
integer-IsInteger (object members) low high e = absurd (cc)

-- An answer that describes the service within the limits of this client.
pub record DescribesService (answer : Json) (c : PublicConfig) : Type 0 where
  pub members : Members
  pub is_object : answer ≡ object members
  pub version : is_one (field (codes "protocol") members) ≡ true
  pub content :
      IsInteger (field (codes "max_content_bytes") members) 1 max_content_bytes c.max_content_bytes
  pub text : IsInteger (field (codes "max_text_bytes") members) 1 max_text_bytes c.max_text_bytes
  pub files : IsInteger (field (codes "max_files") members) 1 max_files c.max_files
  pub views : IsInteger (field (codes "max_views") members) 1 100 c.max_views
  pub ttl : IsInteger (field (codes "max_ttl") members) 60 604800 c.max_ttl
  pub bits : IsInteger (field (codes "pow_bits") members) 1 24 c.pow_bits

pub IsInteger-integer :
    (value : Json) (low high n : ℕ) → IsInteger value low high n → integer value low high ≡ ok n
unfolding integer
IsInteger-integer value low high n v =
    rw (v.is_number, le→leb n max_safe_integer v.is_safe, ge→ltb n low v.from, ge→ltb high n v.to)

pub members_of-eq-ok : (answer : Json) {v : Members} → members_of answer ≡ ok v → answer ≡ object v
unfolding members_of
members_of-eq-ok (object m) e = cc
members_of-eq-ok null e = absurd (cc)
members_of-eq-ok array e = absurd (cc)
members_of-eq-ok fraction e = absurd (cc)
members_of-eq-ok (boolean b) e = absurd (cc)
members_of-eq-ok (number n) e = absurd (cc)
members_of-eq-ok (string s) e = absurd (cc)

read_config-DescribesService :
    (answer : Json) (c : PublicConfig) → read_config answer ≡ ok c → DescribesService answer c
unfolding read_config
read_config-DescribesService answer c e =
    let (v, is_object, e0) = >>=-eq-ok (members_of answer) _ e in
    let (version, e1) =
      refuse_if-eq-ok (not (is_one (field (codes "protocol") v))) unsupported_protocol _ e0 in
    let (n1, i1, e2) =
      >>=-eq-ok (integer (field (codes "max_content_bytes") v) 1 max_content_bytes) _ e1 in
    let (n2, i2, e3) =
      >>=-eq-ok (integer (field (codes "max_text_bytes") v) 1 max_text_bytes) _ e2 in
    let (n3, i3, e4) = >>=-eq-ok (integer (field (codes "max_files") v) 1 max_files) _ e3 in
    let (n4, i4, e5) = >>=-eq-ok (integer (field (codes "max_views") v) 1 100) _ e4 in
    let (n5, i5, e6) = >>=-eq-ok (integer (field (codes "max_ttl") v) 60 604800) _ e5 in
    let (n6, i6, e7) = >>=-eq-ok (integer (field (codes "pow_bits") v) 1 24) _ e6 in
    let same = same_config _ c e7 in
    rw (← same) (record {
      members = v;
      is_object = members_of-eq-ok answer is_object;
      version = not-eq-false _ version;
      content = integer-IsInteger _ 1 max_content_bytes i1;
      text = integer-IsInteger _ 1 max_text_bytes i2;
      files = integer-IsInteger _ 1 max_files i3;
      views = integer-IsInteger _ 1 100 i4;
      ttl = integer-IsInteger _ 60 604800 i5;
      bits = integer-IsInteger _ 1 24 i6;
    })

DescribesService-read_config :
    (answer : Json) (c : PublicConfig) → DescribesService answer c → read_config answer ≡ ok c
unfolding read_config members_of
DescribesService-read_config answer c d = rw (
  d.is_object,
  d.version,
  IsInteger-integer _ _ _ _ d.content,
  IsInteger-integer _ _ _ _ d.text,
  IsInteger-integer _ _ _ _ d.files,
  IsInteger-integer _ _ _ _ d.views,
  IsInteger-integer _ _ _ _ d.ttl,
  IsInteger-integer _ _ _ _ d.bits,
)

-- `api.config` takes a configuration from an answer exactly when the answer is an object of protocol
-- version 1 whose six numbers are the configuration's, each within the limits of this client.
pub read_config_iff :
    (answer : Json) (c : PublicConfig) → (read_config answer ≡ ok c) ↔ DescribesService answer c
read_config_iff answer c =
    (read_config-DescribesService answer c, DescribesService-read_config answer c)
