-- ===== src/Shamir.antt =====
-- host_server/shamir_recovery.py, lines 12-85: the field routines and the reconstruction of a
-- secret. The file holds both sides of an unresolved merge; `Side` says which one is taken.
pub mod Barrett
pub mod Inverse
pub mod Sides
pub mod Weights
pub mod Interpolation
pub mod Recovers
pub mod Examples
use dropout.Prelude.{
  ℕ, zero, suc, ◌+◌, ◌*◌, ◌/◌, ◌%◌, ◌^◌, Bool, true, false, ◌||◌, Option, none, some, List, [], ◌∷◌,
  ◌++◌, map, ltb, ◌==◌, if◌then◌else◌, length, get_elem?, bit_or,
}
use dropout.Prelude.Int.{ℤ, pos, negsuc, ◌+ℤ◌, ◌-ℤ◌, ◌*ℤ◌, ◌%ℤ◌, shr_ℤ, leb_ℤ}
use dropout.Prelude.Exec.{Error, Result, ok, err, value_error, index_error, and_then}
use dropout.Field.{field_modulus}
use mathlib.Core.List.{reverse}

-- The two sides of the merge conflict: `head` is above the `=======` line, `incoming` below it.
pub data Side : Type 0 where
  head incoming : Side

abbrev pub barrett_multiplier : ℕ
barrett_multiplier = 20159

abbrev pub barrett_shift : ℕ
barrett_shift = 26

unfoldable pub barrett_reduce : ℤ → ℤ
barrett_reduce a =
    let t = shr_ℤ (a *ℤ pos barrett_multiplier) barrett_shift in
    let r = a -ℤ t *ℤ pos field_modulus in
    if leb_ℤ (pos field_modulus) r then r -ℤ pos field_modulus else r

-- pow(a, p - 2, p); every caller passes a remainder, and p keeps its default.
unfoldable pub mod_inv : ℕ → ℕ
mod_inv a = a ^ 3327 % field_modulus

horner : List ℤ → ℤ → ℤ → ℤ
horner [] x result = result
horner (coeff ∷ coeffs) x result = horner coeffs x (barrett_reduce (result *ℤ x +ℤ coeff))

pub evaluate_polynomial : List ℤ → ℤ → ℤ
unfolding horner
evaluate_polynomial coeffs x = horner (reverse coeffs) x (pos 0)

abbrev pub Share : Type 0
Share = ℤ × ℤ

abbrev pub eq_ℤ : ℤ → ℤ → Bool
eq_ℤ (pos m) (pos n) = m == n
eq_ℤ (negsuc m) (negsuc n) = m == n
eq_ℤ (pos m) (negsuc n) = false
eq_ℤ (negsuc m) (pos n) = false

-- any(x == 0 for x in share_indices)
unfoldable pub any_zero : List Share → Bool
any_zero [] = false
any_zero ((x, y) ∷ shares) = eq_ℤ x (pos 0) || any_zero shares

unfoldable pub member : ℤ → List Share → Bool
member x [] = false
member x ((x', y) ∷ shares) = eq_ℤ x x' || member x shares

-- len(set(share_indices)) != len(share_indices)
unfoldable pub any_duplicate : List Share → Bool
unfolding member
any_duplicate [] = false
any_duplicate ((x, y) ∷ shares) = member x shares || any_duplicate shares

abbrev pub numerator_factor : Side → ℤ → ℤ
numerator_factor head xj = pos 0 -ℤ xj
numerator_factor incoming xj = xj

-- The inner loop, from index `j` on: the products over all shares but the one at index `i`.
unfoldable pub products : Side → ℕ → ℤ → ℕ → List Share → ℕ → ℕ → ℕ × ℕ
products side i xi j [] numerator denominator = (numerator, denominator)
products side i xi j ((xj, yj) ∷ shares) numerator denominator =
    products side i xi (suc j) shares
      (if i == j then numerator else (pos numerator *ℤ numerator_factor side xj) %ℤ field_modulus)
      (if i == j then denominator else denominator * ((xi -ℤ xj) %ℤ field_modulus) % field_modulus)

unfoldable pub lagrange_coeff : Side → ℕ → ℤ → List Share → ℕ
unfolding products mod_inv
lagrange_coeff side i xi shares =
    let (numerator, denominator) = products side i xi 0 shares 1 1 in
    numerator * mod_inv denominator % field_modulus

-- The outer loop: `rest` holds the shares from index `i` on.
unfoldable pub interpolate : Side → List Share → ℕ → List Share → ℕ → ℕ
interpolate side shares i [] secret = secret
interpolate side shares i ((xi, yi) ∷ rest) secret =
    interpolate side shares (suc i) rest
      ((pos secret +ℤ yi *ℤ pos (lagrange_coeff side i xi shares)) %ℤ field_modulus)

-- The checks that only the `head` side makes.
unfoldable pub rejects_indices : Side → List Share → Bool
unfolding any_zero any_duplicate
rejects_indices head shares = any_zero shares || any_duplicate shares
rejects_indices incoming shares = false

unfoldable pub reconstruct_secret : Side → List Share → Result ℕ
unfolding rejects_indices interpolate lagrange_coeff
reconstruct_secret side shares =
    if ltb (length shares) 2
    then err value_error
    else if rejects_indices side shares
    then err value_error
    else ok (interpolate side shares 0 shares 0)

-- y[2 * k] | (y[2 * k + 1] << 8); an index past the end raises.
element_at : List ℕ → ℕ → Result ℕ
element_at y k = byte_pair (get_elem? y (k * 2)) (get_elem? y (k * 2 + 1))
  where
    byte_pair : Option ℕ → Option ℕ → Result ℕ
    byte_pair (some lo) (some hi) = ok (bit_or lo (hi * 2 ^ 8))
    byte_pair _ _ = err index_error

-- The list `elem_shares` of one element index.
element_shares : List (ℕ × List ℕ) → ℕ → Result (List Share)
unfolding element_at
element_shares [] k = ok []
element_shares ((x, y) ∷ shares) k = and_then (element_at y k) (λ val.
    and_then (element_shares shares k) (λ rest. ok ((pos x, pos (val % field_modulus)) ∷ rest)))

-- The loop over `elem_idx`, from `k` on, with the elements that are left to do.
secret_elements : Side → List (ℕ × List ℕ) → ℕ → ℕ → Result (List ℕ)
unfolding element_shares
secret_elements side shares k zero = ok []
secret_elements side shares k (suc left) = and_then (element_shares shares k) (λ elem_shares.
    and_then (reconstruct_secret side elem_shares)
      (λ val. and_then (secret_elements side shares (suc k) left) (λ rest. ok (val ∷ rest))))

-- Each element as two bytes, low byte first.
unfoldable pub element_bytes : List ℕ → List ℕ
element_bytes [] = []
element_bytes (val ∷ vals) = (val % 256) ∷ (val / 2 ^ 8 % 256) ∷ element_bytes vals

unfoldable pub reconstruct_secret_bytes : Side → List (ℕ × List ℕ) → Result (List ℕ)
unfolding secret_elements
reconstruct_secret_bytes side [] = err value_error
reconstruct_secret_bytes side ((x, y) ∷ shares) =
    if length y == 64
    then and_then (secret_elements side ((x, y) ∷ shares) 0 32) (λ vals. ok (element_bytes vals))
    else err value_error

unfoldable pub recover_mask_seed_from_shares : Side → List (ℕ × List ℕ) → Result (List ℕ)
recover_mask_seed_from_shares side shares = reconstruct_secret_bytes side shares
