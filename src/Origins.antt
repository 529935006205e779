-- ===== src/Origins.antt =====
-- web/src/lib/site.ts: `canonicalI2pOrigin`; web/src/lib/worker-hkdf.ts: `workerHkdf`, which chooses
-- the key derivation of the worker, or refuses to encrypt at all.
pub mod Choice
mod Tests
use erase_to.Prelude.{
  ℕ, ◌+◌, ◌-◌, Bool, true, false, not, ◌&&◌, ◌||◌, ◌==◌, leb, Option, none, some, List, [], ◌∷◌,
  ◌++◌, if◌then◌else◌, list_eq, codes, length, all, take, drop,
}
use erase_to.Types.{Text, Result, ok, err, crypto_unavailable}

-- `[a-z2-7]`.
abbrev pub is_base32 : ℕ → Bool
is_base32 c = (leb b'a' c && leb c b'z') || (leb b'2' c && leb c b'7')

-- `[aq]` at the end.
abbrev pub ends_in_a_or_q : Text → Bool
ends_in_a_or_q s = list_eq s (codes "a") || list_eq s (codes "q")

-- The origin of a destination.
unfoldable pub i2p_url : Text → Text
i2p_url hash = codes "http://" ++ (hash ++ codes ".b32.i2p")

abbrev pub is_hash : Text → Bool
is_hash hash = length hash == 52 && all is_base32 (take 51 hash) && ends_in_a_or_q (drop 51 hash)

-- `canonicalI2pOrigin(candidate)`, where `none` is a candidate that is no string. The hash starts
-- behind `http://`, and a final slash is cut off.
unfoldable pub canonical_i2p_origin : Option Text → Option Text
unfolding i2p_url
canonical_i2p_origin none = none
canonical_i2p_origin (some s) =
    let hash = take 52 (drop 7 s) in
    if not (is_hash hash)
    then none
    else if list_eq s (i2p_url hash)
    then some s
    else if list_eq s (i2p_url hash ++ codes "/")
    then some (take (length s - 1) s)
    else none

-- The worker's `crypto`: which of its members there are, and whether its random source works.
pub record CryptoSupport : Type 0 where
  pub has_random : Bool
  pub has_subtle : Bool
  pub random_works : Bool

pub data Hkdf : Type 0 where
  native_hkdf i2p_hkdf : Hkdf

-- `origin === canonicalI2pOrigin(configuredOrigin)`.
abbrev pub is_pinned : Text → Option Text → Bool
is_pinned origin none = false
is_pinned origin (some canonical) = list_eq origin canonical

-- `workerHkdf(origin, configuredOrigin, secureContext, crypto)`; without `crypto` there are no members.
unfoldable pub worker_hkdf : Text → Option Text → Bool → CryptoSupport → Result Hkdf
unfolding canonical_i2p_origin
worker_hkdf origin configured secure c =
    let pinned = is_pinned origin (canonical_i2p_origin configured) in
    if not c.has_random
    then err crypto_unavailable
    else if c.has_subtle && (secure || pinned)
    then ok native_hkdf
    else if not c.has_subtle && pinned && c.random_works
    then ok i2p_hkdf
    else err crypto_unavailable
