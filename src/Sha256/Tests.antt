-- ===== src/Sha256/Tests.antt =====
-- The digest of "abc", from FIPS 180-4.
use qbitx_pool.Base.{◌≡◌, refl, codes, le_bytes}
use qbitx_pool.Hex
use qbitx_pool.Sha256.{sum256}

sum256_abc :
    Hex.encode (sum256 (codes "abc"))
    ≡ codes "ba7816bf8f01cfea414140de5dae2223b00361a396177a9cb410ff61f20015ad"
unfolding sum256 Hex.encode le_bytes
sum256_abc = refl
