-- ===== src/Shamir/Inverse.antt =====
-- `mod_inv` inverts every non-zero remainder. Its power is taken in steps that reduce as they go,
-- so that a table over the whole field can be evaluated.
use dropout.Prelude.{
  ℕ, zero, suc, ◌+◌, ◌*◌, ◌%◌, ◌^◌, ◌<◌, ◌≡◌, refl, sym, ap, ◌∙◌, arith, true, ◌==◌, ◌||◌,
}
use dropout.Prelude.Table.{holds_below, holds_below_at}
use dropout.Field.{◌≈◌, ≈_eq, ≈_mod, ≈_sym, ≈_trans, ≈-mul, mod-mul, mod-mul_left}
use dropout.Shamir.{mod_inv}
use native.Mathlib.Nat.{pow-suc, pow-zero, one-mul, mul_assoc, mul-one, add-suc, add-zero, mod-mod}

pow-add : (a m n : ℕ) → a ^ (m + n) ≡ a ^ m * a ^ n
pow-add a m zero = rw (add-zero, pow-zero, mul-one)
pow-add a m (suc n) = rw (add-suc, pow-suc, pow-suc, pow-add a m n, mul_assoc)

square : ℕ → ℕ
square r = r * r % 3329

square_times : ℕ → ℕ → ℕ
unfolding square
square_times a r = square r * a % 3329

module _ (a : ℕ) {r : ℕ} (m : ℕ) (h : a ^ m % 3329 ≡ r) where
  pow-double : a ^ (m + m) % 3329 ≡ square r
  unfolding square
  pow-double = rw (pow-add, ← h, mod-mul)

  pow-double_suc : a ^ suc (m + m) % 3329 ≡ square_times a r
  unfolding square_times
  pow-double_suc = rw (pow-suc, ← pow-double, mod-mul_left)

-- a ^ 3327 % 3329, along the binary digits of 3327.
power : ℕ → ℕ
unfolding square_times
power a =
    let high = square_times a (square (square (square_times a (a % 3329)))) in
    let mid = square_times a (square_times a (square_times a high)) in
    square_times a (square_times a (square_times a (square_times a mid)))

power_lem : (a : ℕ) → a ^ 3327 % 3329 ≡ power a
unfolding power
power_lem a = pow-double_suc a 1663 (
    pow-double_suc a 831 (
      pow-double_suc a 415 (
        pow-double_suc a 207 (
          pow-double_suc a 103 (
            pow-double_suc a 51 (
              pow-double_suc a 25 (
                pow-double_suc a 12 (
                  pow-double a 6 (
                    pow-double a 3 (
                      pow-double_suc a 1
                        (ap (λ (t : ℕ). t % 3329) (rw (pow-suc a 0, pow-zero, one-mul)))))))))))))

inverse_table : holds_below (λ a. a == 0 || a * power a % 3329 == 1) 3329 ≡ true
unfolding holds_below power
inverse_table = refl

-- Fermat: a non-zero remainder times its `mod_inv` is 1 in the field.
pub mul-mod_inv : (a : ℕ) → a < 3329 → 0 < a → a * mod_inv a % 3329 ≡ 1
unfolding mod_inv
mul-mod_inv a h p =
    rw power_lem (
      ground
        (arith, holds_below_at (λ a. a == 0 || a * power a % 3329 == 1) 3329 a h inverse_table))

pow-mod : (a n : ℕ) → (a % 3329) ^ n % 3329 ≡ a ^ n % 3329
pow-mod a zero = rw (pow-zero (a % 3329), pow-zero a)
pow-mod a (suc n) = rw (pow-suc, pow-suc a n, ← mod-mul, pow-mod a n, mod-mod, mod-mul)

mod_inv-mod : (a : ℕ) → mod_inv (a % 3329) ≡ mod_inv a
unfolding mod_inv
mod_inv-mod a = pow-mod a 3327

-- At any number that the modulus does not divide, `mod_inv` is the inverse in the field.
pub mul-mod_inv_any : (a : ℕ) → 0 < a % 3329 → a * mod_inv a % 3329 ≡ 1
mul-mod_inv_any a h =
    rw mod_inv-mod at
      (sym (mod-mul_left a (mod_inv (a % 3329))) ∙ mul-mod_inv (a % 3329) (omega arith) h)

-- At a multiple of the modulus it is 0.
pub mod_inv-zero : (a : ℕ) → a % 3329 ≡ 0 → mod_inv a ≡ 0
unfolding mod_inv
mod_inv-zero a h = sym (mod_inv-mod a) ∙ rw h

pow-mul : (a b n : ℕ) → (a * b) ^ n ≡ a ^ n * b ^ n
pow-mul a b zero = rw (pow-zero, pow-zero, pow-zero) refl
pow-mul a b (suc n) = rw (pow-suc, pow-suc, pow-suc, pow-mul a b n) (omega arith)

pub mod_inv-mul : (a b : ℕ) → mod_inv (a * b) ≈ mod_inv a * mod_inv b
unfolding mod_inv
mod_inv-mul a b = ≈_trans ≈_mod (≈_trans (≈_eq (pow-mul a b 3327)) (≈_sym (≈-mul ≈_mod ≈_mod)))

pub mod_inv_congr : {a b : ℕ} → a ≈ b → mod_inv a ≡ mod_inv b
mod_inv_congr {a} {b} h = sym (mod_inv-mod a) ∙ rw h.residues (mod_inv-mod b)
