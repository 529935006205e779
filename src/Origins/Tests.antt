-- ===== src/Origins/Tests.antt =====
-- The theorem on `workerHkdf` at a concrete input.
use erase_to.Prelude.{◌≡◌, ◌⊎◌, ◌++◌, refl, true, false, some, codes}
use erase_to.Types.{Text, ok, err, crypto_unavailable}
use erase_to.Origins.{
  canonical_i2p_origin, i2p_url, CryptoSupport, native_hkdf, i2p_hkdf, worker_hkdf,
}
use erase_to.Origins.Choice.{IsDestination, worker_hkdf-IsDestination}

abbrev site : Text
site = codes "http://abcdefghijklmnopqrstuvwxyz234567abcdefghijklmnopqrsa.b32.i2p"

abbrev bare : CryptoSupport
bare = record { has_random = true; has_subtle = false; random_works = true }

chosen : worker_hkdf site (some (site ++ codes "/")) false bare ≡ ok i2p_hkdf
unfolding worker_hkdf canonical_i2p_origin i2p_url
chosen = refl

refused : worker_hkdf (codes "http://erase.to") (some site) false bare ≡ err crypto_unavailable
unfolding worker_hkdf canonical_i2p_origin i2p_url
refused = refl

worker_hkdf-IsDestination_example :
    (bare.has_random ≡ true) × (((false ≡ true) × (i2p_hkdf ≡ native_hkdf)) ⊎ IsDestination site)
worker_hkdf-IsDestination_example =
    worker_hkdf-IsDestination site (some (site ++ codes "/")) false bare i2p_hkdf chosen
