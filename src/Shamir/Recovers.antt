-- ===== src/Shamir/Recovers.antt =====
-- The reconstruction of host_server/shamir_recovery.py, on the upper side of the merge, is Lagrange's
-- interpolation at 0.
use dropout.Prelude.{
  ℕ, suc, ◌+◌, ◌*◌, ◌%◌, ◌<◌, ◌≤◌, ◌≡◌, refl, sym, ◌∙◌, arith, List, [], ◌∷◌, ◌++◌, All, length,
  ◌==◌, true, false, append_assoc, length-append,
}
use dropout.Prelude.Int.{ℤ, pos, ◌+ℤ◌, ◌-ℤ◌, ◌*ℤ◌, ◌%ℤ◌}
use native.Mathlib.Nat.{add_assoc}
use dropout.Field.{
  ◌≈◌, ≈_refl, ≈_eq, ≈_trans, ≈_mod, ≈-mul, ≈-add, residue-lt, residue-+ℤ, residue--ℤ, residue-*ℤ,
}
use dropout.Shamir.{Share, head, products, lagrange_coeff, interpolate, mod_inv}
use dropout.Shamir.Inverse.{mod_inv_congr}
use dropout.Shamir.Interpolation.{polynomial, Distinct, at_zero-polynomial}
use dropout.Shamir.Weights.{negated, gaps, weighted, weighted_congr}

-- The indices of the shares, in the field.
unfoldable pub points : List Share → List ℕ
points [] = []
points ((x, y) ∷ shares) = x %ℤ 3329 ∷ points shares

minus_factor : (a : ℕ) (x : ℤ) → (pos a *ℤ (pos 0 -ℤ x)) %ℤ 3329 ≈ a * (3328 * (x %ℤ 3329))
minus_factor a x = ≈_trans (≈_eq (residue-*ℤ (pos a) (pos 0 -ℤ x))) (
    ≈_trans ≈_mod
      (≈-mul ≈_mod (≈_trans (≈_eq (residue--ℤ (pos 0) x)) (≈_trans ≈_mod (≈_eq (omega arith))))))

gap_factor :
    (d : ℕ) (x z : ℤ) → d * ((x -ℤ z) %ℤ 3329) % 3329 ≈ d * (x %ℤ 3329 + 3328 * (z %ℤ 3329))
gap_factor d x z = ≈_trans ≈_mod (≈-mul (≈_refl {a = d}) (≈_trans (≈_eq (residue--ℤ x z)) ≈_mod))

abbrev Products : ℕ × ℕ → ℕ → ℕ → Type 0
Products found a d = (found.0 ≈ a) × (found.1 ≈ d)

-- The products over the shares after the one that is left out.
products_past :
    (i : ℕ) (x : ℤ) (j : ℕ) (shares : List Share) (n m a d : ℕ)
    → i < j
    → n ≈ a
    → m ≈ d
    → Products
        (products head i x j shares n m)
        (a * negated (points shares))
        (d * gaps (x %ℤ 3329) (points shares))
unfolding products points negated gaps
products_past i x j [] n m a d past h k =
    (≈_trans h (≈_eq (omega arith)), ≈_trans k (≈_eq (omega arith)))
products_past i x j ((z, y) ∷ shares) n m a d past h k =
    let other : (i == j) ≡ false = ground arith in
    let (top, bottom) =
      products_past i x (suc j) shares _ _ (a * (3328 * (z %ℤ 3329)))
        (d * (x %ℤ 3329 + 3328 * (z %ℤ 3329))) (omega arith)
        (≈_trans (minus_factor n z) (≈-mul h ≈_refl))
        (≈_trans (gap_factor m x z) (≈-mul k ≈_refl)) in
    rw (other, products) (≈_trans top (≈_eq (omega arith)), ≈_trans bottom (≈_eq (omega arith)))

products_around :
    (i : ℕ) (x y : ℤ) (j : ℕ) (before after : List Share) (n m a d : ℕ)
    → i ≡ j + length before
    → n ≈ a
    → m ≈ d
    → Products
        (products head i x j (before ++ ((x, y) ∷ after)) n m)
        (a * negated (points before) * negated (points after))
        (d * gaps (x %ℤ 3329) (points before) * gaps (x %ℤ 3329) (points after))
unfolding products points negated gaps
products_around i x y j [] after n m a d at h k =
    let here : (i == j) ≡ true = ground arith in
    let (top, bottom) = products_past i x (suc j) after n m a d (omega arith) h k in
    rw (here, products) (≈_trans top (≈_eq (omega arith)), ≈_trans bottom (≈_eq (omega arith)))
products_around i x y j ((z, w) ∷ before) after n m a d at h k =
    let other : (i == j) ≡ false = ground arith in
    let (top, bottom) =
      products_around i x y (suc j) before after _ _ (a * (3328 * (z %ℤ 3329)))
        (d * (x %ℤ 3329 + 3328 * (z %ℤ 3329))) (omega arith)
        (≈_trans (minus_factor n z) (≈-mul h ≈_refl))
        (≈_trans (gap_factor m x z) (≈-mul k ≈_refl)) in
    rw (other, products) (≈_trans top (≈_eq (omega arith)), ≈_trans bottom (≈_eq (omega arith)))

lagrange_coeff-≈ :
    (x y : ℤ) (before after : List Share)
    → lagrange_coeff head (length before) x (before ++ ((x, y) ∷ after))
      ≈ negated (points before)
        * negated (points after)
        * mod_inv (gaps (x %ℤ 3329) (points before) * gaps (x %ℤ 3329) (points after))
unfolding lagrange_coeff
lagrange_coeff-≈ x y before after =
    let (top, bottom) =
      products_around (length before) x y 0 before after 1 1 1 1 (omega arith) ≈_refl ≈_refl in
    ≈_trans ≈_mod (
      ≈-mul (≈_trans top (≈_eq (omega arith)))
        (≈_eq (mod_inv_congr (≈_trans bottom (≈_eq (omega arith))))))

lagrange_coeff_at :
    (shares : List Share) (i : ℕ) (x y : ℤ) (before after : List Share)
    → shares ≡ before ++ ((x, y) ∷ after)
    → i ≡ length before
    → lagrange_coeff head i x shares
      ≈ negated (points before)
        * negated (points after)
        * mod_inv (gaps (x %ℤ 3329) (points before) * gaps (x %ℤ 3329) (points after))
lagrange_coeff_at shares i x y before after split at =
    rw (split, at) (lagrange_coeff-≈ x y before after)

add_term :
    (secret c v : ℕ) (y : ℤ) → y %ℤ 3329 ≈ v → (pos secret +ℤ y *ℤ pos c) %ℤ 3329 ≈ secret + v * c
add_term secret c v y h = ≈_trans (≈_eq (residue-+ℤ (pos secret) (y *ℤ pos c))) (
    ≈_trans ≈_mod
      (≈-add ≈_mod (≈_trans (≈_eq (residue-*ℤ y (pos c))) (≈_trans ≈_mod (≈-mul h ≈_mod)))))

points-last :
    (x y : ℤ) (before : List Share)
    → (negated (points (before ++ ((x, y) ∷ []))) ≡ negated (points before) * (3328 * (x %ℤ 3329)))
      × ((z : ℕ)
          → gaps z (points (before ++ ((x, y) ∷ [])))
            ≡ gaps z (points before) * (z + 3328 * (x %ℤ 3329)))
unfolding points negated gaps
points-last x y [] = (omega arith, λ z. omega arith)
points-last x y ((w, v) ∷ before) =
    let (top, bottom) = points-last x y before in
    (rw top (omega arith), λ z. rw (bottom z) (omega arith))

-- A share whose value is that of `f` at its index.
unfoldable pub LiesOn : (ℕ → ℕ) → Share → Type 0
LiesOn f (x, y) = y %ℤ 3329 ≈ f (x %ℤ 3329)

interpolate-weighted :
    (f : ℕ → ℕ) (shares : List Share) (i : ℕ) (before rest : List Share) (secret : ℕ)
    → shares ≡ before ++ rest
    → i ≡ length before
    → All (LiesOn f) rest
    → interpolate head shares i rest secret
      ≈ secret + weighted (negated (points before)) (λ z. gaps z (points before)) (points rest) f
unfolding interpolate points weighted LiesOn
interpolate-weighted f shares i before [] secret split at h = ≈_eq (omega arith)
interpolate-weighted f shares i before ((x, y) ∷ rest) secret split at (here, later) =
    let moved = split ∙ sym (append_assoc before ((x, y) ∷ []) rest) in
    let next : suc i ≡ length (before ++ ((x, y) ∷ [])) =
      omega (arith, length-append before ((x, y) ∷ [])) in
    let (top, bottom) = points-last x y before in
    let coeff = lagrange_coeff_at shares i x y before rest split at in
    let more =
      weighted_congr (points rest) (≈_eq top) (λ z. ≈_eq (bottom z)) (λ z. ≈_refl {a = f z}) in
    let added =
      ≈_trans (add_term secret (lagrange_coeff head i x shares) (f (x %ℤ 3329)) y here)
        (≈-add (≈_refl {a = secret}) (≈-mul (≈_refl {a = f (x %ℤ 3329)}) coeff)) in
    ≈_trans
      (interpolate-weighted f shares (suc i) (before ++ ((x, y) ∷ [])) rest _ moved next later)
      (≈_trans (≈-add added more) (≈_eq (add_assoc secret _ _)))

interpolate-lt :
    (shares : List Share) (i : ℕ) (rest : List Share) (secret : ℕ)
    → secret < 3329
    → interpolate head shares i rest secret < 3329
unfolding interpolate
interpolate-lt shares i [] secret h = h
interpolate-lt shares i ((x, y) ∷ rest) secret h =
    interpolate-lt shares (suc i) rest _ (residue-lt _)

-- Of shares that lie on a polynomial, with distinct indices and at least as many as there are
-- coefficients, the loops of the reconstruction give its value at 0.
pub interpolate-polynomial :
    (cs : List ℕ) (shares : List Share)
    → Distinct (points shares)
    → length cs ≤ length (points shares)
    → All (LiesOn (polynomial cs)) shares
    → interpolate head shares 0 shares 0 ≡ polynomial cs 0 % 3329
unfolding points negated gaps
interpolate-polynomial cs shares distinct enough on =
    let sum = interpolate-weighted (polynomial cs) shares 0 [] shares 0 refl refl on in
    let value = at_zero-polynomial cs (points shares) distinct enough in
    let same = ≈_trans sum (≈_trans (≈_eq (omega arith)) value) in
    omega (arith, interpolate-lt shares 0 shares 0 (omega arith), same.residues)
