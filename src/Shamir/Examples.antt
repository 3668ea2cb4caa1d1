-- ===== src/Shamir/Examples.antt =====
-- The field routines and the reconstruction at concrete numbers.
use dropout.Prelude.{◌*◌, ◌%◌, ◌≡◌, refl, arith, true, [], ◌∷◌}
use dropout.Prelude.Int.{pos, negsuc, ◌+ℤ◌, ◌-ℤ◌, ◌*ℤ◌, ◌%ℤ◌}
use dropout.Prelude.Exec.{ok}
use dropout.Shamir.{
  head, incoming, barrett_reduce, mod_inv, products, lagrange_coeff, interpolate, any_zero,
  any_duplicate, member, rejects_indices, reconstruct_secret,
}
use dropout.Shamir.Barrett.{barrett_reduce-eq-mod, residue-barrett_reduce}
use dropout.Shamir.Sides.{AgreeUpTo, reconstruct_secret_sides}
use dropout.Shamir.Inverse.{mul-mod_inv_any}

barrett_reduce-eq-mod_example : barrett_reduce (negsuc 499789426) ≡ pos (negsuc 499789426 %ℤ 3329)
barrett_reduce-eq-mod_example = barrett_reduce-eq-mod (negsuc 499789426) (omega arith) (omega arith)

-- The inputs next to the range, at which it leaves the field.
barrett_reduce_fails : barrett_reduce (pos 153133) ≡ negsuc 0
unfolding barrett_reduce ◌-ℤ◌ ◌*ℤ◌
barrett_reduce_fails = refl

barrett_reduce_fails_below : barrett_reduce (negsuc 499789427) ≡ pos 3329
unfolding barrett_reduce ◌-ℤ◌ ◌*ℤ◌
barrett_reduce_fails_below = refl

residue_of_negative : barrett_reduce (negsuc 9999) %ℤ 3329 ≡ negsuc 9999 %ℤ 3329
residue_of_negative = residue-barrett_reduce (negsuc 9999)

mul-mod_inv_any_example : 5000 * mod_inv 5000 % 3329 ≡ 1
mul-mod_inv_any_example = mul-mod_inv_any 5000 (omega arith)

-- The line 7 + 5 * x at 1 and 2, reconstructed by both sides of the merge.
reconstruct_line : reconstruct_secret head ((pos 1, pos 12) ∷ (pos 2, pos 17) ∷ []) ≡ ok 7
unfolding reconstruct_secret rejects_indices any_zero any_duplicate member interpolate
    lagrange_coeff products mod_inv ◌+ℤ◌ ◌-ℤ◌ ◌*ℤ◌
reconstruct_line = refl

reconstruct_line_negated :
    reconstruct_secret incoming ((pos 1, pos 12) ∷ (pos 2, pos 17) ∷ []) ≡ ok 3322
unfolding reconstruct_secret rejects_indices interpolate lagrange_coeff products mod_inv ◌+ℤ◌ ◌-ℤ◌
    ◌*ℤ◌
reconstruct_line_negated = refl

reconstruct_secret_sides_example : AgreeUpTo true 7 3322
reconstruct_secret_sides_example =
    reconstruct_secret_sides ((pos 1, pos 12) ∷ (pos 2, pos 17) ∷ []) 7 3322 reconstruct_line
      reconstruct_line_negated
