-- ===== src/Kdf/Examples.antt =====
-- Key derivation over the sample platform.
use dropout.Prelude.{◌≡◌, arith, [], ◌∷◌, length}
use dropout.Prelude.Exec.{ok}
use dropout.Bytes.{Bytes}
use dropout.Samples.{sample_platform}
use dropout.Kdf.{hkdf_expand}
use dropout.Kdf.Standard.{okm_of, hkdf_expand-okm_of}
use dropout.Kdf.Expand.{length-hkdf_expand}

length-hkdf_expand_example :
    (out : Bytes) × (hkdf_expand sample_platform (1 ∷ []) (2 ∷ []) 100 ≡ ok out)
    × (length out ≡ 100)
length-hkdf_expand_example = length-hkdf_expand sample_platform (1 ∷ []) (2 ∷ []) 100 (omega arith)

hkdf_expand-okm_of_example :
    hkdf_expand sample_platform (1 ∷ []) (2 ∷ []) 100
    ≡ ok (okm_of sample_platform (1 ∷ []) (2 ∷ []) 100)
hkdf_expand-okm_of_example = hkdf_expand-okm_of sample_platform (1 ∷ []) (2 ∷ []) 100 (omega arith)
