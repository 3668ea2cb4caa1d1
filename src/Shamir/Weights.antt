-- ===== src/Shamir/Weights.antt =====
-- Sums of values at points, weighted as in Lagrange's interpolation at 0. Negation in GF(3329) is
-- the product with 3328.
use dropout.Prelude.{ℕ, ◌+◌, ◌*◌, ◌%◌, ◌<◌, ◌≡◌, refl, ap, arith, List, [], ◌∷◌, All}
use dropout.Field.{◌≈◌, ≈_refl, ≈_eq, ≈_trans, ≈-mul, ≈-add}
use dropout.Shamir.{mod_inv}
use dropout.Shamir.Inverse.{mod_inv-mul, mod_inv_congr, mul-mod_inv_any}

-- The product of the negated points, and of the distances of `x` from them.
unfoldable pub negated : List ℕ → ℕ
negated [] = 1
negated (x ∷ xs) = 3328 * x * negated xs

unfoldable pub gaps : ℕ → List ℕ → ℕ
gaps x [] = 1
gaps x (y ∷ ys) = (x + 3328 * y) * gaps x ys

-- The points before contribute the factor `a` to every numerator, and `d x` to the denominator at x.
unfoldable pub weighted : ℕ → (ℕ → ℕ) → List ℕ → (ℕ → ℕ) → ℕ
weighted a d [] f = 0
weighted a d (x ∷ xs) f =
    f x * (a * negated xs * mod_inv (d x * gaps x xs))
    + weighted (a * (3328 * x)) (λ z. d z * (z + 3328 * x)) xs f

abbrev pub Apart : ℕ → ℕ → Type 0
Apart a x = 0 < (x + 3328 * a) % 3329

pub weighted_congr :
    (xs : List ℕ) {a b : ℕ} {d e f g : ℕ → ℕ}
    → a ≈ b
    → ((z : ℕ) → d z ≈ e z)
    → ((z : ℕ) → f z ≈ g z)
    → weighted a d xs f ≈ weighted b e xs g
unfolding weighted
weighted_congr [] h k l = ≈_refl
weighted_congr (x ∷ xs) h k l =
    let same = mod_inv_congr (≈-mul (k x) (≈_refl {a = gaps x xs})) in
    ≈-add (≈-mul (l x) (≈-mul (≈-mul h ≈_refl) (≈_eq same)))
      (weighted_congr xs (≈-mul h ≈_refl) (λ z. ≈-mul (k z) ≈_refl) l)

pub weighted_linear :
    (a : ℕ) (d : ℕ → ℕ) (xs : List ℕ) (f g : ℕ → ℕ) (k : ℕ)
    → weighted a d xs (λ z. f z + k * g z) ≡ weighted a d xs f + k * weighted a d xs g
unfolding weighted
weighted_linear a d [] f g k = omega arith
weighted_linear a d (x ∷ xs) f g k =
    let later = weighted_linear (a * (3328 * x)) (λ z. d z * (z + 3328 * x)) xs f g k in omega arith

pub weighted_zero : (a : ℕ) (d : ℕ → ℕ) (xs : List ℕ) → weighted a d xs (λ z. 0) ≡ 0
unfolding weighted
weighted_zero a d [] = refl
weighted_zero a d (x ∷ xs) =
    let later = weighted_zero (a * (3328 * x)) (λ z. d z * (z + 3328 * x)) xs in omega arith

-- A value that carries the distance `u` from a point before cancels that point.
pub cancel :
    (c u n m e d g : ℕ)
    → 0 < u % 3329
    → n ≡ c * m
    → e ≡ d * u
    → u * g * (n * mod_inv e) ≈ c * (g * (m * mod_inv d))
cancel c u n m e d g apart numerator denominator =
    let i = mod_inv d in
    let j = mod_inv u in
    let inverse = ≈_trans (≈_eq (ap mod_inv denominator)) (mod_inv-mul d u) in
    let unit : u * j ≈ 1 = record { residues = mul-mod_inv_any u apart } in
    let regroup : u * g * (n * (i * j)) ≡ u * j * (c * (g * (m * i))) =
      rw numerator (omega arith) in
    let one : 1 * (c * (g * (m * i))) ≡ c * (g * (m * i)) = omega arith in
    ≈_trans (≈-mul (≈_refl {a = u * g}) (≈-mul (≈_refl {a = n}) inverse))
      (≈_trans (≈_eq regroup) (≈_trans (≈-mul unit ≈_refl) (≈_eq one)))

pub weighted_skip :
    (xs : List ℕ) (a m : ℕ) (d g : ℕ → ℕ)
    → All (Apart a) xs
    → weighted (m * (3328 * a)) (λ z. d z * (z + 3328 * a)) xs (λ z. (z + 3328 * a) * g z)
      ≈ 3328 * a * weighted m d xs g
unfolding weighted
weighted_skip [] a m d g h = ≈_eq (omega arith)
weighted_skip (x ∷ xs) a m d g (here, later) =
    let first =
      cancel (3328 * a) (x + 3328 * a) (m * (3328 * a) * negated xs) (m * negated xs)
        (d x * (x + 3328 * a) * gaps x xs) (d x * gaps x xs) (g x) here (omega arith)
        (omega arith) in
    let rest = weighted_skip xs a (m * (3328 * x)) (λ z. d z * (z + 3328 * x)) g later in
    let regroup : 3328 * a * (g x * (m * negated xs * mod_inv (d x * gaps x xs)))
          + 3328 * a * weighted (m * (3328 * x)) (λ z. d z * (z + 3328 * x)) xs g
        ≡ 3328
          * a
          * (g x * (m * negated xs * mod_inv (d x * gaps x xs))
              + weighted (m * (3328 * x)) (λ z. d z * (z + 3328 * x)) xs g) =
      omega arith in
    let swapped = weighted_congr xs (≈_eq (omega arith)) (λ z. ≈_eq (omega arith)) (λ z. ≈_refl) in
    ≈_trans (≈-add first (≈_trans swapped rest)) (≈_eq regroup)

pub vanish : (a w : ℕ) → (a + 3328 * a) * w ≈ 0
vanish a w = record { residues = omega arith }
