-- ===== src/Field.antt =====
-- The field GF(3329) as the code computes in it: remainders of Python integers.
pub mod Shape
use dropout.Prelude.{ℕ, zero, suc, ◌+◌, ◌-◌, ◌*◌, ◌/◌, ◌%◌, ◌<◌, ◌≡◌, refl, sym, ap, ◌∙◌, arith}
use dropout.Prelude.Int.{
  ℤ, pos, negsuc, pos_part, neg_part, ◌+ℤ◌, ◌-ℤ◌, ◌*ℤ◌, ◌%ℤ◌, +ℤ_parts, -ℤ_parts,
}
use native.Mathlib.Nat.{div-add-mod, mod-mod}

-- FIELD_MODULUS
abbrev pub field_modulus : ℕ
field_modulus = 3329

-- Equal in GF(3329).
infix 50 ◌≈◌
pub record ◌≈◌ (a b : ℕ) : Type 0 where
  pub residues : a % 3329 ≡ b % 3329

pub mod-mul : (a b : ℕ) → (a % 3329 * (b % 3329)) % 3329 ≡ (a * b) % 3329
mod-mul a b = omega (
  arith,
  ap (λ (t : ℕ). t * b) (div-add-mod a 3329),
  ap (λ (t : ℕ). a % 3329 * t) (div-add-mod b 3329),
)

-- -n and 3328 * n have the same remainder.
pub residue_parts : (a : ℤ) → a %ℤ 3329 ≡ (pos_part a + 3328 * neg_part a) % 3329
residue_parts (pos n) = omega arith
residue_parts (negsuc n) = omega arith

pub residue-lt : (a : ℤ) → a %ℤ 3329 < 3329
residue-lt a = ground arith

pub residue-+ℤ : (a b : ℤ) → (a +ℤ b) %ℤ 3329 ≡ (a %ℤ 3329 + b %ℤ 3329) % 3329
residue-+ℤ a b = omega (arith, residue_parts, +ℤ_parts)

pub residue--ℤ : (a b : ℤ) → (a -ℤ b) %ℤ 3329 ≡ (a %ℤ 3329 + 3328 * (b %ℤ 3329)) % 3329
residue--ℤ a b = omega (arith, residue_parts, -ℤ_parts)

*ℤ_parts :
    (a b : ℤ)
    → pos_part (a *ℤ b) + (pos_part a * neg_part b + neg_part a * pos_part b)
      ≡ neg_part (a *ℤ b) + (pos_part a * pos_part b + neg_part a * neg_part b)
unfolding ◌*ℤ◌
*ℤ_parts a b = ground arith

pub residue-*ℤ : (a b : ℤ) → (a *ℤ b) %ℤ 3329 ≡ (a %ℤ 3329 * (b %ℤ 3329)) % 3329
residue-*ℤ a b =
    rw (residue_parts a, residue_parts b, mod-mul) (omega (arith, residue_parts, *ℤ_parts))

pub mod-mul_left : (a b : ℕ) → (a % 3329 * b) % 3329 ≡ (a * b) % 3329
mod-mul_left a b = sym (mod-mul (a % 3329) b) ∙ rw mod-mod (mod-mul a b)

pub ≈_refl : {a : ℕ} → a ≈ a
≈_refl = record { residues = refl }

pub ≈_eq : {a b : ℕ} → a ≡ b → a ≈ b
≈_eq h = record { residues = ap (λ m. m % 3329) h }

pub ≈_sym : {a b : ℕ} → a ≈ b → b ≈ a
≈_sym h = record { residues = sym h.residues }

pub ≈_trans : {a b c : ℕ} → a ≈ b → b ≈ c → a ≈ c
≈_trans h k = record { residues = h.residues ∙ k.residues }

pub ≈-mul : {a b c d : ℕ} → a ≈ b → c ≈ d → a * c ≈ b * d
≈-mul {a} {b} {c} {d} h k = record {
  residues = sym (mod-mul a c) ∙ rw (h.residues, k.residues) (mod-mul b d);
}

pub ≈-add : {a b c d : ℕ} → a ≈ b → c ≈ d → a + c ≈ b + d
≈-add h k = record { residues = omega (arith, h.residues, k.residues) }

pub ≈_mod : {a : ℕ} → a % 3329 ≈ a
≈_mod {a} = record { residues = mod-mod a 3329 }
