-- ===== src/Shamir/Sides.antt =====
-- The two sides of the merge conflict in `reconstruct_secret`: they differ by a sign in every factor
-- of a numerator.
use dropout.Prelude.{
  ℕ, zero, suc, ◌+◌, ◌*◌, ◌%◌, ◌≤◌, ◌<◌, ◌≡◌, refl, sym, ◌∙◌, arith, Bool, true, false, not, ◌||◌,
  List, [], ◌∷◌, ◌==◌, ltb, if◌then◌else◌, inl, inr, Bool-cases, length,
}
use dropout.Prelude.Int.{ℤ, pos, ◌+ℤ◌, ◌-ℤ◌, ◌*ℤ◌, ◌%ℤ◌}
use dropout.Prelude.Exec.{ok, ok_injective}
use dropout.Field.{mod-mul, residue-lt, residue-+ℤ, residue--ℤ, residue-*ℤ}
use dropout.Shamir.{
  Share, head, incoming, numerator_factor, products, lagrange_coeff, interpolate, any_zero,
  any_duplicate, rejects_indices, reconstruct_secret, mod_inv,
}

abbrev sign : Bool → ℕ
sign false = 1
sign true = 3328

-- In the field, equal for `false` and opposite for `true`.
abbrev pub AgreeUpTo : Bool → ℕ → ℕ → Type 0
AgreeUpTo s a b = a % 3329 ≡ sign s * b % 3329

abbrev xor : Bool → Bool → Bool
xor false t = t
xor true t = not t

signs :
    (s t : Bool) (b d : ℕ) → (sign s * b) * (sign t * d) % 3329 ≡ sign (xor s t) * (b * d) % 3329
signs false false b d = grind arith
signs false true b d = grind arith
signs true false b d = grind arith
signs true true b d = grind arith

AgreeUpTo-mul :
    (s t : Bool) (a b c d : ℕ)
    → AgreeUpTo s a b
    → AgreeUpTo t c d
    → AgreeUpTo (xor s t) (a * c) (b * d)
AgreeUpTo-mul s t a b c d h k =
    sym (mod-mul a c) ∙ rw (h, k, mod-mul (sign s * b) (sign t * d)) (signs s t b d)

AgreeUpTo-add :
    (s : Bool) (a b c d : ℕ) → AgreeUpTo s a b → AgreeUpTo s c d → AgreeUpTo s (a + c) (b + d)
AgreeUpTo-add false a b c d h k = omega arith
AgreeUpTo-add true a b c d h k = omega arith

negated_factor :
    (xj : ℤ)
    → AgreeUpTo true (numerator_factor head xj %ℤ 3329) (numerator_factor incoming xj %ℤ 3329)
negated_factor xj = omega (arith, residue--ℤ (pos 0) xj, residue-lt xj)

AgreeUpTo-mod : (s : Bool) (a b : ℕ) → AgreeUpTo s a b → AgreeUpTo s (a % 3329) (b % 3329)
AgreeUpTo-mod false a b h = omega arith
AgreeUpTo-mod true a b h = omega arith

factor_step :
    (s : Bool) (a b : ℕ) (xj : ℤ)
    → AgreeUpTo s a b
    → AgreeUpTo
        (xor s true)
        ((pos a *ℤ numerator_factor head xj) %ℤ 3329)
        ((pos b *ℤ numerator_factor incoming xj) %ℤ 3329)
factor_step s a b xj h =
    let front = numerator_factor head xj %ℤ 3329 in
    let back = numerator_factor incoming xj %ℤ 3329 in
    rw (residue-*ℤ (pos a) (numerator_factor head xj), residue-*ℤ (pos b) xj)
      (AgreeUpTo-mod (xor s true) (a % 3329 * front) (b % 3329 * back) (
        AgreeUpTo-mul s true (a % 3329) (b % 3329) front back (AgreeUpTo-mod s a b h)
          (negated_factor xj)))

-- The sign after the factors of all shares but the one at index `i`.
abbrev flipped : ℕ → ℕ → List Share → Bool → Bool
flipped i j [] s = s
flipped i j (share ∷ shares) s = flipped i (suc j) shares (if i == j then s else xor s true)

products_sides :
    (i : ℕ) (xi : ℤ) (j : ℕ) (shares : List Share) (s : Bool) (a b d : ℕ)
    → AgreeUpTo s a b
    → AgreeUpTo
        (flipped i j shares s)
        (products head i xi j shares a d).0
        (products incoming i xi j shares b d).0
      × ((products head i xi j shares a d).1 ≡ (products incoming i xi j shares b d).1)
unfolding products
products_sides i xi j [] s a b d h = (h, refl)
products_sides i xi j ((xj, yj) ∷ shares) s a b d h = elim (Bool-cases (i == j)) [
  | inl e ↦ rw (e, products) (products_sides i xi (suc j) shares s a b d h)
  | inr e ↦
      rw (e, products)
        (products_sides i xi (suc j) shares (xor s true)
          ((pos a *ℤ numerator_factor head xj) %ℤ 3329)
          ((pos b *ℤ numerator_factor incoming xj) %ℤ 3329) (d * ((xi -ℤ xj) %ℤ 3329) % 3329)
          (factor_step s a b xj h))
]

abbrev pub is_odd : ℕ → Bool
is_odd zero = false
is_odd (suc n) = not (is_odd n)

xor_step : (s t : Bool) → xor (xor s true) t ≡ xor s (not t)
xor_step false t = refl
xor_step true false = refl
xor_step true true = refl

xor-false : (s : Bool) → xor s false ≡ s
xor-false false = refl
xor-false true = refl

not-not : (s : Bool) → not (not s) ≡ s
not-not false = refl
not-not true = refl

flipped_past :
    (i j : ℕ) (shares : List Share) (s : Bool)
    → i < j
    → flipped i j shares s ≡ xor s (is_odd (length shares))
flipped_past i j [] s h = sym (xor-false s)
flipped_past i j (share ∷ shares) s h =
    let other : (i == j) ≡ false = ground arith in
    rw other (
      flipped_past i (suc j) shares (xor s true) (omega arith)
      ∙ xor_step s (is_odd (length shares)))

flipped_within :
    (i j : ℕ) (shares : List Share) (s : Bool)
    → j ≤ i
    → i < j + length shares
    → flipped i j shares s ≡ xor s (not (is_odd (length shares)))
flipped_within i j [] s h k = absurd (omega arith)
flipped_within i j (share ∷ shares) s h k = elim (Bool-cases (i == j)) [
  | inl e ↦ rw (e, not-not) (flipped_past i (suc j) shares s (ground arith))
  | inr e ↦ rw e (
      flipped_within i (suc j) shares (xor s true) (ground arith) (omega arith)
      ∙ xor_step s (not (is_odd (length shares))))
]

lagrange_coeff_sides :
    (i : ℕ) (xi : ℤ) (shares : List Share)
    → i < length shares
    → AgreeUpTo
        (not (is_odd (length shares)))
        (lagrange_coeff head i xi shares)
        (lagrange_coeff incoming i xi shares)
unfolding lagrange_coeff
lagrange_coeff_sides i xi shares h =
    let sides = products_sides i xi 0 shares false 1 1 1 refl in
    let s = not (is_odd (length shares)) in
    let numerators = rw (flipped_within i 0 shares false (omega arith) (omega arith)) at sides.0 in
    let (a, da) = products head i xi 0 shares 1 1 in
    let (b, db) = products incoming i xi 0 shares 1 1 in
    let m = mod_inv db in
    rw sides.1 (
      AgreeUpTo-mod s (a * m) (b * m)
        (rw xor-false at (AgreeUpTo-mul s false a b m m numerators (omega arith))))

interpolate_step :
    (s : Bool) (a b c d : ℕ) (y : ℤ)
    → AgreeUpTo s a b
    → AgreeUpTo s c d
    → AgreeUpTo s ((pos a +ℤ y *ℤ pos c) %ℤ 3329) ((pos b +ℤ y *ℤ pos d) %ℤ 3329)
interpolate_step s a b c d y h k =
    let r = y %ℤ 3329 in
    let product =
      AgreeUpTo-mul false s r r (c % 3329) (d % 3329) (omega arith) (AgreeUpTo-mod s c d k) in
    rw
      (
        residue-+ℤ (pos a) (y *ℤ pos c),
        residue-+ℤ (pos b) (y *ℤ pos d),
        residue-*ℤ y (pos c),
        residue-*ℤ y (pos d),
      )
      (AgreeUpTo-mod s (a % 3329 + r * (c % 3329) % 3329) (b % 3329 + r * (d % 3329) % 3329) (
        AgreeUpTo-add s (a % 3329) (b % 3329) (r * (c % 3329) % 3329) (r * (d % 3329) % 3329)
          (AgreeUpTo-mod s a b h) (AgreeUpTo-mod s (r * (c % 3329)) (r * (d % 3329)) product)))

interpolate_sides :
    (shares : List Share) (i : ℕ) (rest : List Share) (a b : ℕ)
    → i + length rest ≡ length shares
    → AgreeUpTo (not (is_odd (length shares))) a b
    → AgreeUpTo
        (not (is_odd (length shares)))
        (interpolate head shares i rest a)
        (interpolate incoming shares i rest b)
unfolding interpolate
interpolate_sides shares i [] a b fits h = h
interpolate_sides shares i ((xi, yi) ∷ rest) a b fits h =
    interpolate_sides shares (suc i) rest _ _ (omega arith) (
      interpolate_step (not (is_odd (length shares))) a b (lagrange_coeff head i xi shares)
        (lagrange_coeff incoming i xi shares) yi h (lagrange_coeff_sides i xi shares (omega arith)))

AgreeUpTo-zero : (s : Bool) → AgreeUpTo s 0 0
AgreeUpTo-zero false = refl
AgreeUpTo-zero true = refl

-- Where both sides of the merge conflict return, for an odd number of shares the secrets are equal
-- in GF(3329), and for an even number one is the negative of the other.
pub reconstruct_secret_sides :
    (shares : List Share) (a b : ℕ)
    → reconstruct_secret head shares ≡ ok a
    → reconstruct_secret incoming shares ≡ ok b
    → AgreeUpTo (not (is_odd (length shares))) a b
unfolding reconstruct_secret rejects_indices
reconstruct_secret_sides shares a b h k = elim (Bool-cases (ltb (length shares) 2)) [
  | inl few ↦ let e = rw few at h in cc
  | inr enough ↦ elim (Bool-cases (any_zero shares || any_duplicate shares)) [
    | inl bad ↦ let e = rw (enough, bad) at h in cc
    | inr good ↦
        rw (← ok_injective (rw (enough, good) at h), ← ok_injective (rw enough at k))
          (interpolate_sides shares 0 shares 0 0 (omega arith)
            (AgreeUpTo-zero (not (is_odd (length shares)))))
  ]
]
