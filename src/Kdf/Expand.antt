-- ===== src/Kdf/Expand.antt =====
-- `hkdf_expand` gives exactly the bytes asked for, up to the limit of 255 blocks.
use dropout.Prelude.{
  ℕ, zero, suc, ◌+◌, ◌*◌, ◌≤◌, ◌≡◌, refl, arith, [], ◌∷◌, ◌++◌, length, length-append, length-take,
  take, ltb, lt→ltb, Bool-cases, inl, inr,
}
use dropout.Prelude.Exec.{ok}
use dropout.Bytes.{Bytes, bytes_of}
use dropout.Platform.{Platform}
use dropout.Kdf.{expand_loop, hkdf_expand}

module _ (platform : Platform) where
  open platform use {hmac_sha256, length-hmac_sha256}

  expand_loop_total :
      (fuel : ℕ) (prk info : Bytes) (len : ℕ) (okm t : Bytes) (ctr : ℕ)
      → len ≤ length okm + fuel
      → length okm + 32 ≡ 32 * ctr
      → len ≤ 8160
      → (out : Bytes) × (expand_loop platform fuel prk info len okm t ctr ≡ ok out)
        × (len ≤ length out)
  unfolding expand_loop bytes_of
  expand_loop_total zero prk info len okm t ctr h c l = (okm, refl, omega arith)
  expand_loop_total (suc fuel) prk info len okm t ctr h c l =
      elim (Bool-cases (ltb (length okm) len)) [
        | inr e ↦ (okm, rw e refl, ground arith)
        | inl e ↦
            let t' : Bytes = hmac_sha256 prk (t ++ (info ++ (ctr ∷ []))) in
            let n : length (okm ++ t') ≡ length okm + 32 =
              omega
                (arith, length-append okm t', length-hmac_sha256 prk (t ++ (info ++ (ctr ∷ [])))) in
            let (out, run, long) =
              expand_loop_total fuel prk info len (okm ++ t') t' (suc ctr) (omega arith)
                (omega arith) l in
            (out, rw (e, lt→ltb ctr 256 (ground arith)) run, long)
      ]

  -- Up to 8160 bytes, `hkdf_expand` raises nothing and returns as many bytes as it is asked for.
  pub length-hkdf_expand :
      (prk info : Bytes) (len : ℕ)
      → len ≤ 8160
      → (out : Bytes) × (hkdf_expand platform prk info len ≡ ok out) × (length out ≡ len)
  unfolding hkdf_expand
  length-hkdf_expand prk info len h =
      let (out, run, long) = expand_loop_total len prk info len [] [] 1 (omega arith) refl h in
      (take len out, rw run refl, length-take len out long)
