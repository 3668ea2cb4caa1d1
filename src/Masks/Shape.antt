-- ===== src/Masks/Shape.antt =====
-- The shape of the masks that the functions return, and the opposite signs of a mask.
use dropout.Prelude.{
  ℕ, zero, suc, ◌*◌, ◌<◌, ◌≡◌, refl, ap, ◌∙◌, arith, Bool, true, false, not, List, [], ◌∷◌,
  if◌then◌else◌, length, replicate, length-replicate, Bool-cases, inl, inr,
}
use dropout.Prelude.Int.{pos, ◌+ℤ◌, ◌-ℤ◌, ◌%ℤ◌}
use dropout.Prelude.Exec.{ok, and_then-eq-ok, ok_injective}
use dropout.Bytes.{Bytes}
use dropout.Field.{residue-lt, residue-+ℤ, residue--ℤ}
use dropout.Field.Shape.{IsField}
use dropout.Platform.{Platform}
use dropout.Kdf.{aes_ctr_stream, bridge_aes_ctr_stream}
use dropout.Masks.{
  mask_from_stream, add_peer_mask, generate_mask_from_seed, bridge_generate_mask_from_seed,
}

pub mask_from_stream_shape :
    (n : ℕ) (stream : Bytes)
    → length stream ≡ n * 2
    → (length (mask_from_stream stream) ≡ n) × IsField (mask_from_stream stream)
unfolding mask_from_stream
mask_from_stream_shape zero [] h = (refl, tt)
mask_from_stream_shape zero (b ∷ stream) h = absurd (omega arith)
mask_from_stream_shape (suc n) [] h = absurd (omega arith)
mask_from_stream_shape (suc n) (b ∷ []) h = absurd (omega arith)
mask_from_stream_shape (suc n) (lo ∷ hi ∷ stream) h =
    let (len, field) = mask_from_stream_shape n stream (omega arith) in
    (ap suc len, (omega arith, field))

pub add_peer_mask_total :
    (positive : Bool) (combined mask : List ℕ)
    → length combined ≡ length mask
    → (out : List ℕ) × (add_peer_mask positive combined mask ≡ ok out)
      × (length out ≡ length combined)
      × IsField out
unfolding add_peer_mask
add_peer_mask_total positive [] mask h = ([], refl, refl, tt)
add_peer_mask_total positive (c ∷ combined) [] h = absurd (omega arith)
add_peer_mask_total positive (c ∷ combined) (m ∷ mask) h =
    let (out, e, l, f) = add_peer_mask_total positive combined mask (omega arith) in
    let v = if positive then pos c +ℤ pos m else pos c -ℤ pos m in
    ((v %ℤ 3329) ∷ out, rw e refl, ap suc l, (residue-lt v, f))

cancel_one :
    (positive : Bool) (c m : ℕ)
    → c < 3329
    → (let v = (if positive then pos c +ℤ pos m else pos c -ℤ pos m) %ℤ 3329 in
        (if not positive then pos v +ℤ pos m else pos v -ℤ pos m) %ℤ 3329)
      ≡ c
cancel_one true c m h =
    omega (arith, residue--ℤ (pos ((pos c +ℤ pos m) %ℤ 3329)) (pos m), residue-+ℤ (pos c) (pos m))
cancel_one false c m h =
    omega (arith, residue-+ℤ (pos ((pos c -ℤ pos m) %ℤ 3329)) (pos m), residue--ℤ (pos c) (pos m))

-- A mask that is added to field elements, or subtracted from them, is undone by the opposite sign.
pub add_peer_mask_cancels :
    (positive : Bool) (combined mask out : List ℕ)
    → IsField combined
    → add_peer_mask positive combined mask ≡ ok out
    → add_peer_mask (not positive) out mask ≡ ok combined
unfolding add_peer_mask
add_peer_mask_cancels positive [] mask out f h = rw (← ok_injective h) refl
add_peer_mask_cancels positive (c ∷ combined) [] out f h = cc
add_peer_mask_cancels positive (c ∷ combined) (m ∷ mask) out f h =
    let (rest, e, h1) = and_then-eq-ok (add_peer_mask positive combined mask) _ h in
    rw (
      ← ok_injective h1,
      add_peer_mask_cancels positive combined mask rest f.1 e,
      cancel_one positive c m f.0,
    )

module _ (platform : Platform) where
  open platform use {aes_ctr, length-aes_ctr, crypto_available}

  -- `_generate_mask_from_seed` of the bridge encrypts no bytes: whenever it returns, for any seed
  -- and any length, the mask is empty.
  pub bridge_generate_mask-empty :
      (seed : Bytes) (len : ℕ) (mask : List ℕ)
      → bridge_generate_mask_from_seed platform seed len ≡ ok mask
      → mask ≡ []
  unfolding bridge_generate_mask_from_seed bridge_aes_ctr_stream mask_from_stream
  bridge_generate_mask-empty seed len mask h = elim (Bool-cases crypto_available) [
    | inr off ↦ let e = rw off at h in cc
    | inl on ↦
        let (stream, e, h1) = and_then-eq-ok (aes_ctr seed (replicate 16 0) []) _ (rw on at h) in
        rw (← ok_injective h1) (of_empty stream (length-aes_ctr seed (replicate 16 0) [] stream e))
  ]
    where
      of_empty : (stream : Bytes) → length stream ≡ 0 → mask_from_stream stream ≡ []
      of_empty [] l = refl
      of_empty (b ∷ stream) l = absurd (omega arith)

  -- Whenever `generate_mask_from_seed` returns for 2 * n bytes, the mask has `n` elements, each below
  -- 3329.
  pub generate_mask_shape :
      (seed : Bytes) (n : ℕ) (mask : List ℕ)
      → generate_mask_from_seed platform seed (n * 2) ≡ ok mask
      → (length mask ≡ n) × IsField mask
  unfolding generate_mask_from_seed aes_ctr_stream
  generate_mask_shape seed n mask h = elim (Bool-cases crypto_available) [
    | inr off ↦ let e = rw off at h in cc
    | inl on ↦
        let (stream, e, h1) =
          and_then-eq-ok (aes_ctr seed (replicate 16 0) (replicate (n * 2) 0)) _ (rw on at h) in
        let long = length-aes_ctr seed (replicate 16 0) (replicate (n * 2) 0) stream e in
        rw (← ok_injective h1) (mask_from_stream_shape n stream (long ∙ length-replicate (n * 2) 0))
  ]
