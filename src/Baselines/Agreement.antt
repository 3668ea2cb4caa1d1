-- ===== src/Baselines/Agreement.antt =====
-- The reconstruction of baselines.py against that of shamir_recovery.py.
use dropout.Prelude.{
  ℕ, suc, ◌*◌, ◌%◌, ◌≡◌, refl, ◌∙◌, arith, ◌||◌, List, [], ◌∷◌, ◌==◌, ltb, length, inl, inr,
  Bool-cases,
}
use dropout.Prelude.Int.{ℤ, pos, ◌-ℤ◌, ◌*ℤ◌, ◌%ℤ◌}
use dropout.Prelude.Exec.{ok}
use dropout.Field.{residue-*ℤ, residue-lt, mod-mul}
use dropout.Shamir.{
  Share, head, products, lagrange_coeff, interpolate, any_zero, any_duplicate, rejects_indices,
  reconstruct_secret, mod_inv,
}
use dropout.Baselines.{lagrange_products, coeff_at, sum_shares, shamir_reconstruct_secret}

reduced : (d : ℕ) (z : ℤ) → (pos d *ℤ z) %ℤ 3329 ≡ d * (z %ℤ 3329) % 3329
reduced d z =
    let small : z %ℤ 3329 % 3329 ≡ z %ℤ 3329 = omega (arith, residue-lt z) in
    residue-*ℤ (pos d) z ∙ (rw small at (mod-mul d (z %ℤ 3329)))

lagrange_products-eq :
    (i : ℕ) (xi : ℤ) (j : ℕ) (shares : List Share) (a d : ℕ)
    → lagrange_products i xi j shares a d ≡ products head i xi j shares a d
unfolding lagrange_products products
lagrange_products-eq i xi j [] a d = refl
lagrange_products-eq i xi j ((xj, yj) ∷ shares) a d = elim (Bool-cases (i == j)) [
  | inl e ↦ rw (e, lagrange_products, products) (lagrange_products-eq i xi (suc j) shares a d)
  | inr e ↦
      rw (e, lagrange_products, products, reduced d (xi -ℤ xj))
        (lagrange_products-eq i xi (suc j) shares _ _)
]

coeff_at-eq :
    (i : ℕ) (xi : ℤ) (shares : List Share) → coeff_at i xi shares ≡ lagrange_coeff head i xi shares
unfolding coeff_at lagrange_coeff mod_inv
coeff_at-eq i xi shares = rw lagrange_products-eq refl

sum_shares-eq :
    (shares : List Share) (i : ℕ) (rest : List Share) (secret : ℕ)
    → sum_shares shares i rest secret ≡ interpolate head shares i rest secret
unfolding sum_shares interpolate
sum_shares-eq shares i [] secret = refl
sum_shares-eq shares i ((xi, yi) ∷ rest) secret =
    rw coeff_at-eq (sum_shares-eq shares (suc i) rest _)

-- Wherever the reconstruction of shamir_recovery.py, on the upper side of the merge, returns, that of
-- baselines.py returns the same secret.
pub shamir_reconstruct_secret_agrees :
    (shares : List Share) (secret : ℕ)
    → reconstruct_secret head shares ≡ ok secret
    → shamir_reconstruct_secret shares ≡ ok secret
unfolding shamir_reconstruct_secret reconstruct_secret rejects_indices
shamir_reconstruct_secret_agrees shares secret h = elim (Bool-cases (ltb (length shares) 2)) [
  | inl few ↦ let e = rw few at h in cc
  | inr enough ↦ elim (Bool-cases (any_zero shares || any_duplicate shares)) [
    | inl bad ↦ let e = rw (enough, bad) at h in cc
    | inr good ↦ rw (enough, sum_shares-eq) (rw (enough, good) at h)
  ]
]
