-- ===== src/Encoding/Links.antt =====
-- shared/encoding.ts: `validateId`, `makeShareLink` and `parseShareLink`. `new URL(text)` is the
-- parameter `url_of`, which gives the parts of the URL, or nothing where it throws.
use erase_to.Prelude.{
  Bool, not, ◌&&◌, ◌||◌, ◌==◌, Option, none, some, [], ◌++◌, if◌then◌else◌, list_eq, codes, length,
  all, take, drop,
}
use erase_to.Types.{
  Text, Bytes, Result, ok, err, refuse_if, ◌>>=◌, ◌>>◌, invalid_package, type_error,
}
use erase_to.Encoding.Base64Url.{from_base64url, is_url_char}

pub record Url : Type 0 where
  pub protocol : Text
  pub username : Text
  pub password : Text
  pub origin : Text
  pub pathname : Text
  pub search : Text
  pub hash : Text

unfoldable pub validate_id : Text → Result Bytes
validate_id id = from_base64url id (some 32) 32

-- `!['https:', 'http:'].includes(url.protocol) || url.username || url.password`.
unfoldable pub is_bad_site : Url → Bool
is_bad_site url =
    not (list_eq url.protocol (codes "https:") || list_eq url.protocol (codes "http:"))
    || not (list_eq url.username [])
    || not (list_eq url.password [])

-- `#1.`, the identifier, a dot and the secret.
unfoldable pub fragment : Text → Text → Text
fragment id secret = codes "#1." ++ (id ++ (codes "." ++ secret))

-- The end of `makeShareLink`, for the URL of the origin.
unfoldable pub link_of : Url → Text → Text → Text → Result Text
unfolding is_bad_site validate_id fragment
link_of url origin id secret = do
  refuse_if (is_bad_site url || not (list_eq url.origin origin)) invalid_package
  checked_id ← validate_id id
  checked_secret ← from_base64url secret (some 32) 32
  ok (url.origin ++ (codes "/view" ++ fragment id secret))

-- The match of `/^#1\.([A-Za-z0-9_-]{43})\.([A-Za-z0-9_-]{43})$/`.
unfoldable pub match_fragment : Text → Option (Text × Text)
unfolding fragment
match_fragment hash =
    let id = take 43 (drop 3 hash) in
    let secret = take 43 (drop 47 hash) in
    if length id == 43
      && length secret == 43
      && list_eq hash (fragment id secret)
      && all is_url_char id
      && all is_url_char secret
    then some (id, secret)
    else none

-- The checks on the two parts of the fragment.
unfoldable pub check_match : Option (Text × Text) → Result (Text × Text)
unfolding validate_id
check_match none = err invalid_package
check_match (some (id, secret)) = do
  checked_id ← validate_id id
  checked_secret ← from_base64url secret (some 32) 32
  ok (id, secret)

-- The end of `parseShareLink`, for the URL of the link.
unfoldable pub parts_of : Url → Result (Text × Text)
unfolding is_bad_site match_fragment check_match
parts_of url = do
  refuse_if
      (is_bad_site url || not (list_eq url.pathname (codes "/view")) || not (list_eq url.search []))
      invalid_package
  check_match (match_fragment url.hash)

module _ (url_of : Text → Option Url) where
  unfoldable pub make_share_link : Text → Text → Text → Result Text
  unfolding link_of
  make_share_link origin id secret = elim (url_of origin) [
    | none ↦ err type_error
    | some url ↦ link_of url origin id secret
  ]

  unfoldable pub parse_share_link : Text → Result (Text × Text)
  unfolding parts_of
  parse_share_link link = elim (url_of link) [
    | none ↦ err invalid_package
    | some url ↦ parts_of url
  ]
