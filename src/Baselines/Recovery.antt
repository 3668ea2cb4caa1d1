-- ===== src/Baselines/Recovery.antt =====
-- A secret that is shared is reconstructed, from any threshold of its shares.
use dropout.Prelude.{
  ℕ, zero, suc, ◌+◌, ◌%◌, ◌<◌, ◌≤◌, ◌≡◌, refl, sym, ap, ◌∙◌, arith, ◌||◌, Bool, ◌-◌, true, false,
  some, List, [], ◌∷◌, All, length, get_elem?, ltb, ◌==◌,
}
use dropout.Prelude.Int.{ℤ, pos, pos_part}
use dropout.Prelude.Exec.{ok}
use mathlib.Core.Option.{some-injective}
use dropout.Field.{≈_mod, ≈_trans}
use dropout.Shamir.{
  Share, head, member, any_zero, any_duplicate, rejects_indices, reconstruct_secret,
}
use dropout.Shamir.Weights.{Apart}
use dropout.Shamir.Interpolation.{polynomial, Distinct}
use dropout.Shamir.Recovers.{points, LiesOn, interpolate-polynomial}
use dropout.Baselines.{draw_coeffs, coeffs_of, shamir_generate_shares, shamir_reconstruct_secret}
use dropout.Baselines.Polynomial.{shamir_generate_shares_at}
use dropout.Baselines.Agreement.{shamir_reconstruct_secret_agrees}

or_false : (b c : Bool) → (b || c) ≡ false → (b ≡ false) × (c ≡ false)
or_false false c h = (refl, h)
or_false true c h = cc

-- One of the first `n` shares that were generated, its numbers as Python's integers.
abbrev pub IsGenerated : ℕ → List (ℕ × ℕ) → Share → Type 0
IsGenerated n shares share =
    (k : ℕ) × (k < n) × (p : ℕ × ℕ) × (get_elem? shares k ≡ some p) × (share ≡ (pos p.0, pos p.1))

-- A share with an index from 1 to `n`, on the polynomial.
abbrev OnCurve : ℕ → List ℕ → Share → Type 0
OnCurve n cs share = (k : ℕ) × (k < n) × (share ≡ (pos (1 + k), pos (polynomial cs (1 + k) % 3329)))

module _ (n : ℕ) (cs : List ℕ) (small : n < 3329) where
  OnCurve-LiesOn :
      (chosen : List Share) → All (OnCurve n cs) chosen → All (LiesOn (polynomial cs)) chosen
  unfolding LiesOn
  OnCurve-LiesOn [] h = tt
  OnCurve-LiesOn (share ∷ chosen) ((k, below, same), later) =
      let low : (1 + k) % 3329 ≡ 1 + k = omega arith in
      (rw (same, low) (≈_trans ≈_mod ≈_mod), OnCurve-LiesOn chosen later)

  not_zero : (chosen : List Share) → All (OnCurve n cs) chosen → any_zero chosen ≡ false
  unfolding any_zero
  not_zero [] h = refl
  not_zero (share ∷ chosen) ((k, below, same), later) =
      let nonzero : (1 + k == 0) ≡ false = ground arith in
      rw (same, any_zero, nonzero) (not_zero chosen later)

  member-Apart :
      (k : ℕ) (chosen : List Share)
      → k < n
      → All (OnCurve n cs) chosen
      → member (pos (1 + k)) chosen ≡ false
      → All (Apart (1 + k)) (points chosen)
  unfolding member points
  member-Apart k [] below h fresh = tt
  member-Apart k (share ∷ chosen) below ((j, lt, same), later) fresh =
      let (other, rest) = or_false (1 + k == 1 + j) _ (rw (same, member) at fresh) in
      let low : (1 + j) % 3329 ≡ 1 + j = omega arith in
      (rw (same, low) (ground arith), member-Apart k chosen below later rest)

  not_duplicate-Distinct :
      (chosen : List Share)
      → All (OnCurve n cs) chosen
      → any_duplicate chosen ≡ false
      → Distinct (points chosen)
  unfolding any_duplicate points
  not_duplicate-Distinct [] h fresh = tt
  not_duplicate-Distinct (share ∷ chosen) ((k, below, same), later) fresh =
      let (here, rest) =
        or_false (member (pos (1 + k)) chosen) _ (rw (same, any_duplicate) at fresh) in
      let low : (1 + k) % 3329 ≡ 1 + k = omega arith in
      (
        rw (same, low) (member-Apart k chosen below later here),
        not_duplicate-Distinct chosen later rest,
      )

  length-points : (chosen : List Share) → length (points chosen) ≡ length chosen
  unfolding points
  length-points [] = refl
  length-points (share ∷ chosen) = ap suc (length-points chosen)

  reconstruct_secret-OnCurve :
      (chosen : List Share)
      → All (OnCurve n cs) chosen
      → any_duplicate chosen ≡ false
      → length cs ≤ length chosen
      → 2 ≤ length chosen
      → reconstruct_secret head chosen ≡ ok (polynomial cs 0 % 3329)
  unfolding reconstruct_secret rejects_indices
  reconstruct_secret-OnCurve chosen on fresh enough two =
      let several : ltb (length chosen) 2 ≡ false = ground arith in
      let as_many : length cs ≤ length (points chosen) = omega (arith, length-points chosen) in
      rw
        (
          several,
          not_zero chosen on,
          fresh,
          interpolate-polynomial cs chosen (not_duplicate-Distinct chosen on fresh) as_many
              (OnCurve-LiesOn chosen on),
        )
        refl

length-draw_coeffs : (randbelow : ℕ → ℕ → ℕ) (k n : ℕ) → length (draw_coeffs randbelow k n) ≡ n
unfolding draw_coeffs
length-draw_coeffs randbelow k zero = refl
length-draw_coeffs randbelow k (suc n) = ap suc (length-draw_coeffs randbelow (suc k) n)

generated-OnCurve :
    (randbelow : ℕ → ℕ → ℕ) (draw : ℕ) (secret : ℤ) (n t : ℕ) (shares : List (ℕ × ℕ))
    → shamir_generate_shares randbelow draw secret n t ≡ ok shares
    → (chosen : List Share) → All (IsGenerated n shares) chosen
    → All (OnCurve n (coeffs_of randbelow draw secret t)) chosen
generated-OnCurve randbelow draw secret n t shares h [] all = tt
generated-OnCurve randbelow draw secret n t shares h (share ∷ chosen)
      ((k, below, p, at, same), all) =
    let found = shamir_generate_shares_at randbelow draw secret n t shares k h below in
    let here = some-injective _ _ (sym at ∙ found) in
    (
      (k, below, same ∙ ap (λ (q : ℕ × ℕ). (pos q.0, pos q.1)) here),
      generated-OnCurve randbelow draw secret n t shares h chosen all,
    )

secret_in_field :
    (randbelow : ℕ → ℕ → ℕ) (draw : ℕ) (secret : ℤ) (n t : ℕ) (shares : List (ℕ × ℕ))
    → shamir_generate_shares randbelow draw secret n t ≡ ok shares
    → pos_part secret < 3329
unfolding shamir_generate_shares
secret_in_field randbelow draw secret n t shares h = ground arith

-- When shamir_generate_shares returns for fewer than 3329 shares, any of them with different indices,
-- at least two and as many as the threshold, give the secret back: both shamir_reconstruct_secret and
-- reconstruct_secret of shamir_recovery.py, on the upper side of the merge, return it.
pub shamir_shares_reconstruct :
    (randbelow : ℕ → ℕ → ℕ) (draw : ℕ) (secret : ℤ) (n t : ℕ) (shares : List (ℕ × ℕ))
    (chosen : List Share)
    → n < 3329
    → shamir_generate_shares randbelow draw secret n t ≡ ok shares
    → All (IsGenerated n shares) chosen
    → any_duplicate chosen ≡ false
    → t ≤ length chosen
    → 2 ≤ length chosen
    → (shamir_reconstruct_secret chosen ≡ ok (pos_part secret))
      × (reconstruct_secret head chosen ≡ ok (pos_part secret))
shamir_shares_reconstruct randbelow draw secret n t shares chosen small h all fresh enough two =
    let cs = coeffs_of randbelow draw secret t in
    let on = generated-OnCurve randbelow draw secret n t shares h chosen all in
    let as_many : length cs ≤ length chosen =
      omega (arith, length-draw_coeffs randbelow draw (t - 1)) in
    let at_zero : polynomial cs 0 % 3329 ≡ pos_part secret =
      omega (arith, secret_in_field randbelow draw secret n t shares h) in
    let back =
      reconstruct_secret-OnCurve n cs small chosen on fresh as_many two
      ∙ ap (λ (v : ℕ). ok v) at_zero in
    (shamir_reconstruct_secret_agrees chosen (pos_part secret) back, back)
