-- ===== src/Shamir/Interpolation.antt =====
-- Lagrange's interpolation at 0 in GF(3329): from the values of a polynomial at as many points as it
-- has coefficients, the weights give its value at 0.
use dropout.Prelude.{
  ℕ, ◌+◌, ◌*◌, ◌%◌, ◌<◌, ◌≤◌, ◌≡◌, refl, sym, ap, ◌∙◌, arith, List, [], ◌∷◌, All, length,
}
use native.Mathlib.Nat.{mul_comm}
use dropout.Field.{◌≈◌, ≈_refl, ≈_eq, ≈_sym, ≈_trans, ≈-mul, ≈-add}
use dropout.Shamir.{mod_inv}
use dropout.Shamir.Inverse.{mul-mod_inv_any}
use dropout.Shamir.Weights.{
  negated, gaps, weighted, Apart, weighted_congr, weighted_linear, weighted_zero, weighted_skip,
  cancel, vanish,
}

-- The polynomial with the given coefficients, the constant one first.
abbrev pub polynomial : List ℕ → ℕ → ℕ
polynomial [] x = 0
polynomial (coeff ∷ coeffs) x = coeff + x * polynomial coeffs x

abbrev pub Distinct : List ℕ → Type 0
Distinct [] = Unit
Distinct (x ∷ xs) = All (Apart x) xs × Distinct xs

abbrev pub at_zero : List ℕ → (ℕ → ℕ) → ℕ
at_zero xs f = weighted 1 (λ z. 1) xs f

skip_first :
    (a : ℕ) (xs : List ℕ) (g : ℕ → ℕ)
    → All (Apart a) xs
    → at_zero (a ∷ xs) (λ z. (z + 3328 * a) * g z) ≈ 3328 * a * at_zero xs g
unfolding weighted
skip_first a xs g h =
    let w = 1 * negated xs * mod_inv (1 * gaps a xs) in
    ≈_trans
      (≈-add (≈_trans (≈_eq (omega arith)) (vanish a (g a * w)))
        (weighted_skip xs a 1 (λ z. 1) g h))
      (≈_eq (omega arith))

skip_second :
    (a b : ℕ) (xs : List ℕ) (g : ℕ → ℕ)
    → Apart b a
    → All (Apart b) xs
    → at_zero (a ∷ b ∷ xs) (λ z. (z + 3328 * b) * g z) ≈ 3328 * b * at_zero (a ∷ xs) g
unfolding weighted negated gaps
skip_second a b xs g apart h =
    let first =
      cancel (3328 * b) (a + 3328 * b) (1 * (3328 * b * negated xs)) (1 * negated xs)
        (1 * ((a + 3328 * b) * gaps a xs)) (1 * gaps a xs) (g a) apart (omega arith)
        (omega arith) in
    let w = 1 * (3328 * a) * negated xs * mod_inv (1 * (b + 3328 * a) * gaps b xs) in
    let rest = weighted_skip xs b (1 * (3328 * a)) (λ z. 1 * (z + 3328 * a)) g h in
    ≈_trans (≈-add first (≈-add (≈_trans (≈_eq (omega arith)) (vanish b (g b * w))) rest))
      (≈_eq (omega arith))

divide : (k e : ℕ) → 0 < k % 3329 → k * e ≈ k → e ≈ 1
divide k e nonzero h =
    let i = mod_inv k in
    let unit : k * i ≈ 1 = record { residues = mul-mod_inv_any k nonzero } in
    ≈_trans (≈_eq (omega arith)) (
      ≈_trans (≈-mul (≈_sym unit) (≈_refl {a = e})) (
        ≈_trans (≈_eq (omega arith))
          (≈_trans (≈-mul (≈_refl {a = i}) h) (≈_trans (≈_eq (mul_comm i k)) unit))))

difference : (a b t : ℕ) → 3328 * a + t ≈ 3328 * b → t ≈ a + 3328 * b
difference a b t h = record { residues = omega (arith, h.residues) }

-- The weights add up to 1.
sum_one : (a : ℕ) (xs : List ℕ) → Distinct (a ∷ xs) → at_zero (a ∷ xs) (λ z. 1) ≈ 1
sum_one a [] h = unfold weighted negated gaps mod_inv in record { residues = refl }
sum_one a (b ∷ xs) ((apart, first), (second, rest)) =
    let points = a ∷ b ∷ xs in
    let k = a + 3328 * b in
    let without_a =
      ≈_trans (skip_first a (b ∷ xs) (λ z. 1) (apart, first))
        (≈-mul (≈_refl {a = 3328 * a}) (sum_one b xs (second, rest))) in
    let without_b =
      ≈_trans (skip_second a b xs (λ z. 1) (omega arith) second)
        (≈-mul (≈_refl {a = 3328 * b}) (sum_one a xs (first, rest))) in
    let shifted : at_zero points (λ z. (z + 3328 * a) * 1) + k * at_zero points (λ z. 1)
        ≈ at_zero points (λ z. (z + 3328 * b) * 1) =
      ≈_trans (≈_eq (sym (weighted_linear 1 (λ z. 1) points (λ z. (z + 3328 * a) * 1) (λ z. 1) k)))
        (weighted_congr points ≈_refl (λ z. ≈_refl) (λ z. record { residues = omega arith })) in
    divide k (at_zero points (λ z. 1)) (omega arith) (
      difference a b (k * at_zero points (λ z. 1)) (
        ≈_trans (≈-add (≈_trans (≈_eq (omega arith)) (≈_sym without_a)) ≈_refl)
          (≈_trans shifted (≈_trans without_b (≈_eq (omega arith))))))

-- From distinct points, at least as many as there are coefficients, the value at 0.
pub at_zero-polynomial :
    (cs xs : List ℕ)
    → Distinct xs
    → length cs ≤ length xs
    → at_zero xs (polynomial cs) ≈ polynomial cs 0
at_zero-polynomial [] xs distinct enough = ≈_eq (weighted_zero 1 (λ z. 1) xs)
at_zero-polynomial (c ∷ cs) [] distinct enough = absurd (omega arith)
at_zero-polynomial (c ∷ cs) (a ∷ xs) (apart, distinct) enough =
    let points = a ∷ xs in
    let h = polynomial cs in
    let factored =
      ≈_trans (skip_first a xs h apart)
        (≈-mul (≈_refl {a = 3328 * a}) (at_zero-polynomial cs xs distinct (omega arith))) in
    let scaled =
      ≈-mul (≈_refl {a = a}) (at_zero-polynomial cs points (apart, distinct) (omega arith)) in
    let constant = ≈-mul (≈_refl {a = c}) (sum_one a xs (apart, distinct)) in
    let parts : at_zero points (λ z. (z + 3328 * a) * h z + a * h z + c * 1)
        ≡ at_zero points (λ z. (z + 3328 * a) * h z)
          + a * at_zero points h
          + c * at_zero points (λ z. 1) =
      weighted_linear 1 (λ z. 1) points (λ z. (z + 3328 * a) * h z + a * h z) (λ z. 1) c
      ∙ ap (λ (t : ℕ). t + c * at_zero points (λ z. 1))
          (weighted_linear 1 (λ z. 1) points (λ z. (z + 3328 * a) * h z) h a) in
    ≈_trans (weighted_congr points ≈_refl (λ z. ≈_refl) (λ z. record { residues = omega arith })) (
      ≈_trans (≈_eq parts)
        (≈_trans (≈-add (≈-add factored scaled) constant) (record { residues = omega arith })))
