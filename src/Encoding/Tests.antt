-- ===== src/Encoding/Tests.antt =====
-- Runs of base64url and UTF-8, and the theorems at concrete inputs.
use erase_to.Prelude.{◌≡◌, ◌↔◌, refl, Option, none, some, [], ◌∷◌, ◌++◌, codes, drop}
use erase_to.Types.{Text, ok, err, invalid_package}
use erase_to.Encoding.Base64Url.{
  to_base64url, btoa, sextet_char, replace_all, remove_all, from_base64url, check_decoded, atob,
  sextets_of, sextet_of, strip_one, join_sextets,
}
use erase_to.Encoding.Base64RoundTrip.{Encodes, from_base64url_iff}
use erase_to.Encoding.Links.{
  Url, make_share_link, link_of, is_bad_site, validate_id, fragment, parse_share_link,
}
use erase_to.Encoding.LinkRoundTrip.{
  IsShareLink, view_url, parse_share_link-make_share_link, parse_share_link_iff,
}

to_base64url_runs : to_base64url (0xfb ∷ 0xff ∷ 0x01 ∷ 0x68 ∷ []) ≡ codes "-_8BaA"
unfolding to_base64url btoa sextet_char replace_all remove_all
to_base64url_runs = refl

from_base64url_runs :
    from_base64url (codes "-_8BaA") none 2048 ≡ ok (0xfb ∷ 0xff ∷ 0x01 ∷ 0x68 ∷ [])
unfolding from_base64url check_decoded atob sextets_of sextet_of strip_one join_sextets to_base64url
    btoa sextet_char replace_all remove_all
from_base64url_runs = refl

-- A spelling with other bits left over is refused.
from_base64url_other : from_base64url (codes "-_8BaB") none 2048 ≡ err invalid_package
unfolding from_base64url check_decoded atob sextets_of sextet_of strip_one join_sextets to_base64url
    btoa sextet_char replace_all remove_all
from_base64url_other = refl

from_base64url_iff_example :
    (from_base64url (codes "-_8BaA") (some 4) 2048 ≡ ok (0xfb ∷ 0xff ∷ 0x01 ∷ 0x68 ∷ []))
    ↔ Encodes (codes "-_8BaA") (some 4) 2048 (0xfb ∷ 0xff ∷ 0x01 ∷ 0x68 ∷ [])
from_base64url_iff_example =
    from_base64url_iff (codes "-_8BaA") (some 4) 2048 (0xfb ∷ 0xff ∷ 0x01 ∷ 0x68 ∷ [])

-- A reader of URLs on one site, whose origin has 16 characters.
abbrev home : Url
home = record {
  protocol = codes "https:";
  username = [];
  password = [];
  origin = codes "https://erase.to";
  pathname = codes "/";
  search = [];
  hash = [];
}

abbrev url_of : Text → Option Url
url_of text = elim (drop 16 text) [ [] ↦ some home | c ∷ rest ↦ some (view_url home (drop 4 rest)) ]

abbrev key : Text
key = codes "AAECAwQFBgcICQoLDA0ODxAREhMUFRYXGBkaGxwdHh8"

link_made :
    make_share_link url_of (codes "https://erase.to") key key
    ≡ ok (codes "https://erase.to" ++ (codes "/view" ++ fragment key key))
unfolding make_share_link link_of is_bad_site validate_id from_base64url check_decoded atob
    sextets_of sextet_of strip_one join_sextets to_base64url btoa sextet_char replace_all remove_all
link_made = refl

parse_share_link-make_share_link_example :
    parse_share_link url_of (codes "https://erase.to" ++ (codes "/view" ++ fragment key key))
    ≡ ok (key, key)
unfolding fragment
parse_share_link-make_share_link_example =
    parse_share_link-make_share_link url_of home (codes "https://erase.to") key key refl
      (λ i s h k. refl) link_made

parse_share_link_iff_example :
    (parse_share_link url_of (codes "https://erase.to" ++ (codes "/view" ++ fragment key key))
      ≡ ok (key, key))
    ↔ ((url : Url) × (url_of (codes "https://erase.to" ++ (codes "/view" ++ fragment key key))
          ≡ some url)
        × IsShareLink url key key)
parse_share_link_iff_example =
    parse_share_link_iff url_of (codes "https://erase.to" ++ (codes "/view" ++ fragment key key))
      key key
