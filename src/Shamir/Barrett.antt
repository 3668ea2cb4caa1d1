-- ===== src/Shamir/Barrett.antt =====
-- `barrett_reduce` and `evaluate_polynomial` against plain remainders.
use dropout.Prelude.{ℕ, ◌%◌, ◌<◌, ◌≡◌, ◌∙◌, arith, inl, inr, Bool-cases}
use dropout.Prelude.Int.{ℤ, pos, negsuc, ◌≤ℤ◌, ◌-ℤ◌, ◌*ℤ◌, ◌%ℤ◌, shr_ℤ, leb_ℤ}
use dropout.Field.{residue--ℤ, residue-*ℤ, residue-lt}
use dropout.Shamir.{barrett_reduce}

reduce_pos : (n : ℕ) → n < 153133 → barrett_reduce (pos n) ≡ pos (n % 3329)
unfolding barrett_reduce ◌-ℤ◌ ◌*ℤ◌
reduce_pos n h = ground arith

reduce_negsuc : (n : ℕ) → n < 499789427 → barrett_reduce (negsuc n) ≡ pos (negsuc n %ℤ 3329)
unfolding barrett_reduce ◌-ℤ◌ ◌*ℤ◌
reduce_negsuc n h = ground arith

-- From -499789427 to 153132, the integers around 0 up to the first on each side where it fails,
-- `barrett_reduce` is the remainder of Python's `%`.
pub barrett_reduce-eq-mod :
    (a : ℤ) → negsuc 499789426 ≤ℤ a → a ≤ℤ pos 153132 → barrett_reduce a ≡ pos (a %ℤ 3329)
barrett_reduce-eq-mod (pos n) low high = reduce_pos n (omega arith)
barrett_reduce-eq-mod (negsuc n) low high = reduce_negsuc n (omega arith)

residue_sub_multiple : (a t : ℤ) → (a -ℤ t *ℤ pos 3329) %ℤ 3329 ≡ a %ℤ 3329
residue_sub_multiple a t =
    omega (arith, residue--ℤ a (t *ℤ pos 3329), residue-*ℤ t (pos 3329), residue-lt a)

residue_sub_modulus : (a : ℤ) → (a -ℤ pos 3329) %ℤ 3329 ≡ a %ℤ 3329
residue_sub_modulus a = omega (arith, residue--ℤ a (pos 3329), residue-lt a)

-- At every integer, the result of `barrett_reduce` is congruent to its argument.
pub residue-barrett_reduce : (a : ℤ) → barrett_reduce a %ℤ 3329 ≡ a %ℤ 3329
unfolding barrett_reduce
residue-barrett_reduce a =
    let t = shr_ℤ (a *ℤ pos 20159) 26 in
    let r = a -ℤ t *ℤ pos 3329 in
    elim (Bool-cases (leb_ℤ (pos 3329) r)) [
      | inl e ↦ rw e (residue_sub_modulus r ∙ residue_sub_multiple a t)
      | inr e ↦ rw e (residue_sub_multiple a t)
    ]
