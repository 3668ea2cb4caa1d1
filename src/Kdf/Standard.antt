-- ===== src/Kdf/Standard.antt =====
-- HKDF as RFC 5869 defines it, and `hkdf_expand` against it.
use dropout.Prelude.{
  ℕ, zero, suc, ◌+◌, ◌*◌, ◌/◌, ◌≤◌, ◌≡◌, refl, arith, [], ◌∷◌, ◌++◌, length, length-append, take,
  ltb, lt→ltb, Bool-cases, inl, inr, replicate,
}
use dropout.Prelude.Exec.{ok}
use dropout.Bytes.{Bytes, bytes_of}
use dropout.Platform.{Platform}
use dropout.Kdf.{expand_loop, hkdf_expand, hkdf_extract}

module _ (platform : Platform) where
  open platform use {hmac_sha256, length-hmac_sha256}

  -- PRK = HMAC-Hash(salt, IKM), where a salt that is not provided is HashLen zeros.
  unfoldable pub prk_of : Bytes → Bytes → Bytes
  prk_of [] ikm = hmac_sha256 (replicate 32 0) ikm
  prk_of (b ∷ salt) ikm = hmac_sha256 (b ∷ salt) ikm

  -- T(0) = "", T(n + 1) = HMAC-Hash(PRK, T(n) | info | n + 1)
  unfoldable pub block : Bytes → Bytes → ℕ → Bytes
  block prk info zero = []
  block prk info (suc n) = hmac_sha256 prk (block prk info n ++ (info ++ (suc n ∷ [])))

  -- T(1) | ... | T(n)
  unfoldable pub blocks : Bytes → Bytes → ℕ → Bytes
  blocks prk info zero = []
  blocks prk info (suc n) = blocks prk info n ++ block prk info (suc n)

  -- N = ceil(L / HashLen); OKM = the first L octets of T(1) | ... | T(N)
  unfoldable pub okm_of : Bytes → Bytes → ℕ → Bytes
  okm_of prk info len = take len (blocks prk info ((len + 31) / 32))

  length-blocks : (prk info : Bytes) (n : ℕ) → length (blocks prk info n) ≡ 32 * n
  unfolding blocks block
  length-blocks prk info zero = refl
  length-blocks prk info (suc n) =
      let t : Bytes = block prk info n ++ (info ++ (suc n ∷ [])) in
      omega (
        arith,
        length-append (blocks prk info n) (hmac_sha256 prk t),
        length-hmac_sha256 prk t,
        length-blocks prk info n,
      )

  expand_loop-blocks :
      (fuel : ℕ) (prk info : Bytes) (len n total : ℕ)
      → len ≤ 32 * total
      → 32 * total ≤ len + 31
      → n ≤ total
      → total ≤ n + fuel
      → total ≤ 255
      → expand_loop platform fuel prk info len (blocks prk info n) (block prk info n) (suc n)
        ≡ ok (blocks prk info total)
  unfolding expand_loop bytes_of blocks block
  expand_loop-blocks zero prk info len n total full short low high few =
      let same : n ≡ total = omega arith in rw same refl
  expand_loop-blocks (suc fuel) prk info len n total full short low high few =
      let size = length-blocks prk info n in
      elim (Bool-cases (ltb (length (blocks prk info n)) len)) [
        | inr e ↦ let same : n ≡ total = ground (arith, size) in rw (e, same) refl
        | inl e ↦
            rw (e, lt→ltb (suc n) 256 (ground (arith, size)))
              (expand_loop-blocks fuel prk info len (suc n) total full short (ground (arith, size))
                (omega arith) few)
      ]

  -- Up to 8160 bytes, `hkdf_expand` is HKDF-Expand of RFC 5869.
  pub hkdf_expand-okm_of :
      (prk info : Bytes) (len : ℕ)
      → len ≤ 8160
      → hkdf_expand platform prk info len ≡ ok (okm_of prk info len)
  unfolding hkdf_expand blocks block okm_of
  hkdf_expand-okm_of prk info len h =
      rw
        (expand_loop-blocks len prk info len 0 ((len + 31) / 32) (omega arith) (omega arith)
          (omega arith) (omega arith) (omega arith))
        refl

  pub hkdf_extract-prk_of : (salt ikm : Bytes) → hkdf_extract platform salt ikm ≡ prk_of salt ikm
  unfolding hkdf_extract prk_of
  hkdf_extract-prk_of [] ikm = refl
  hkdf_extract-prk_of (b ∷ salt) ikm = refl
