-- ===== src/Answers/Packages.antt =====
-- web/src/lib/api.ts: the metadata of a package that `api.meta` takes from an answer.
use erase_to.Prelude.{
  ◌≤◌, ◌≡◌, ◌↔◌, le→leb, leb→le, refl, Bool, true, leb, inl, inr, Bool-cases, and-eq-true, codes,
  length,
}
use erase_to.Types.{Text, Result, ok, err, >>=-eq-ok, invalid_response, max_safe_integer}
use erase_to.Encoding.Base64Url.{is_url_text}
use erase_to.Json.{Json, null, array, fraction, boolean, number, string, object, Members, field}
use erase_to.Answers.{members_of, integer, unix, Metadata, text_if, is_header_text, read_metadata}
use erase_to.Answers.Accepted.{IsInteger, integer-IsInteger, IsInteger-integer, members_of-eq-ok}

text_refused : (s : Text) → ¬ (◌≡◌ {A = Result Text} (err invalid_response) (ok s))
text_refused s e = cc

same_text : (a b : Text) → ◌≡◌ {A = Result Text} (ok a) (ok b) → a ≡ b
same_text a b e = cc

same_metadata : (a b : Metadata) → ◌≡◌ {A = Result Metadata} (ok a) (ok b) → a ≡ b
same_metadata a b e = cc

text_if-eq-ok :
    (good : Text → Bool) (value : Json) {s : Text}
    → text_if good value ≡ ok s
    → (value ≡ string s) × (good s ≡ true)
unfolding text_if
text_if-eq-ok good (string a) {s} e = elim (Bool-cases (good a)) [
  | inl fits ↦ let same : a ≡ s = same_text a s (rw fits at e) in rw (← same) (refl, fits)
  | inr bad ↦ absurd (text_refused s (rw bad at e))
]
text_if-eq-ok good null e = absurd (cc)
text_if-eq-ok good array e = absurd (cc)
text_if-eq-ok good fraction e = absurd (cc)
text_if-eq-ok good (boolean b) e = absurd (cc)
text_if-eq-ok good (number n) e = absurd (cc)
text_if-eq-ok good (object members) e = absurd (cc)

-- An answer that holds the metadata of a package that can still be opened.
pub record DescribesPackage (answer : Json) (m : Metadata) : Type 0 where
  pub members : Members
  pub is_object : answer ≡ object members
  pub is_string : field (codes "header") members ≡ string m.header
  pub is_short : length m.header ≤ 2800
  pub is_url : is_url_text m.header ≡ true
  pub expiry : IsInteger (field (codes "expires_at") members) 1 max_safe_integer m.expires_at
  pub views : IsInteger (field (codes "remaining") members) 1 100 m.remaining

read_metadata-DescribesPackage :
    (answer : Json) (m : Metadata) → read_metadata answer ≡ ok m → DescribesPackage answer m
unfolding read_metadata unix
read_metadata-DescribesPackage answer m e =
    let (v, is_object, e0) = >>=-eq-ok (members_of answer) _ e in
    let (header, text, e1) = >>=-eq-ok (text_if is_header_text (field (codes "header") v)) _ e0 in
    let (expires, i1, e2) =
      >>=-eq-ok (integer (field (codes "expires_at") v) 1 max_safe_integer) _ e1 in
    let (left, i2, e3) = >>=-eq-ok (integer (field (codes "remaining") v) 1 100) _ e2 in
    let (is_string, good) = text_if-eq-ok is_header_text _ text in
    let (short, url) = and-eq-true (leb (length header) 2800) (is_url_text header) good in
    rw (← same_metadata _ m e3) (record {
      members = v;
      is_object = members_of-eq-ok answer is_object;
      is_string = is_string;
      is_short = leb→le (length header) 2800 short;
      is_url = url;
      expiry = integer-IsInteger _ 1 max_safe_integer i1;
      views = integer-IsInteger _ 1 100 i2;
    })

DescribesPackage-read_metadata :
    (answer : Json) (m : Metadata) → DescribesPackage answer m → read_metadata answer ≡ ok m
unfolding read_metadata members_of text_if unix
DescribesPackage-read_metadata answer m d = rw (
  d.is_object,
  d.is_string,
  le→leb (length m.header) 2800 d.is_short,
  d.is_url,
  IsInteger-integer _ _ _ _ d.expiry,
  IsInteger-integer _ _ _ _ d.views,
)

-- `api.meta` takes metadata from an answer exactly when the answer is an object whose header is a
-- base64url text of at most 2800 characters, whose expiry is a positive safe integer, and whose number
-- of openings left is 1 to 100, and they are the metadata.
pub read_metadata_iff :
    (answer : Json) (m : Metadata) → (read_metadata answer ≡ ok m) ↔ DescribesPackage answer m
read_metadata_iff answer m =
    (read_metadata-DescribesPackage answer m, DescribesPackage-read_metadata answer m)
