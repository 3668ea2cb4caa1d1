-- ===== src/Baselines/Polynomial.antt =====
-- The shares that are generated lie on a polynomial whose value at 0 is the secret.
use dropout.Prelude.{
  ℕ, zero, suc, ◌+◌, ◌*◌, ◌%◌, ◌<◌, ◌≡◌, refl, ◌∙◌, arith, ◌||◌, some, List, [], ◌∷◌, ◌++◌, ltb,
  get_elem?, inl, inr, Bool-cases,
}
use dropout.Prelude.Int.{ℤ, pos, ltb_ℤ, leb_ℤ}
use dropout.Prelude.Exec.{ok, ok_injective}
use dropout.Field.{mod-mul_left}
use dropout.Shamir.Interpolation.{polynomial}
use dropout.Baselines.{horner_mod, share_value, shares_from, coeffs_of, shamir_generate_shares}
use native.Mathlib.Nat.{mul_comm}
use mathlib.Core.List.{reverse, reverse-cons}

horner_mod-append :
    (cs : List ℕ) (c x y : ℕ) → horner_mod (cs ++ (c ∷ [])) x y ≡ (horner_mod cs x y * x + c) % 3329
unfolding horner_mod
horner_mod-append [] c x y = refl
horner_mod-append (d ∷ cs) c x y = horner_mod-append cs c x ((y * x + d) % 3329)

step : (y z x c : ℕ) → y ≡ z % 3329 → (y * x + c) % 3329 ≡ (c + x * z) % 3329
step y z x c h = rw h (omega (arith, mod-mul_left z x, mul_comm z x))

share_value-polynomial : (cs : List ℕ) (x : ℕ) → share_value cs x ≡ polynomial cs x % 3329
unfolding share_value
share_value-polynomial [] x = unfold horner_mod in refl
share_value-polynomial (c ∷ cs) x = rw (reverse-cons c cs) (
    horner_mod-append (reverse cs) c x 0
    ∙ step (share_value cs x) (polynomial cs x) x c (share_value-polynomial cs x))

shares_from_at :
    (cs : List ℕ) (i left k : ℕ)
    → k < left
    → get_elem? (shares_from cs i left) k ≡ some (i + k, polynomial cs (i + k) % 3329)
unfolding shares_from
shares_from_at cs i zero k h = absurd (omega arith)
shares_from_at cs i (suc left) zero h =
    let here : i + 0 ≡ i = omega arith in rw (here, share_value-polynomial)
shares_from_at cs i (suc left) (suc k) h =
    let next : i + suc k ≡ suc i + k = omega arith in
    rw next (shares_from_at cs (suc i) left k (omega arith))

-- When the shares are generated, the k-th of them, counted from 0, is k + 1 and the value there, in
-- GF(3329), of the polynomial whose constant coefficient is the secret and whose others are drawn.
pub shamir_generate_shares_at :
    (randbelow : ℕ → ℕ → ℕ) (draw : ℕ) (secret : ℤ) (n t : ℕ) (shares : List (ℕ × ℕ)) (k : ℕ)
    → shamir_generate_shares randbelow draw secret n t ≡ ok shares
    → k < n
    → get_elem? shares k
      ≡ some (1 + k, polynomial (coeffs_of randbelow draw secret t) (1 + k) % 3329)
unfolding shamir_generate_shares
shamir_generate_shares_at randbelow draw secret n t shares k h below = elim (Bool-cases (ltb n t)) [
  | inl few ↦ let e = rw few at h in cc
  | inr enough ↦ elim (Bool-cases (ltb_ℤ secret (pos 0) || leb_ℤ (pos 3329) secret)) [
    | inl bad ↦ let e = rw (enough, bad) at h in cc
    | inr good ↦
        rw (← ok_injective (rw (enough, good) at h))
          (shares_from_at (coeffs_of randbelow draw secret t) 1 n k below)
  ]
]
