-- ===== src/Bytes/Shift.antt =====
-- Bytes put together by shifts and `|`.
use dropout.Prelude.{ℕ, zero, suc, ◌+◌, ◌*◌, ◌/◌, ◌%◌, ◌^◌, ◌<◌, ◌≤◌, ◌≡◌, refl, ◌∙◌, arith, bit_or}
use Prim.Native.Nat.{digits, bit_or-bitwise, max}
use native.Mathlib.Numerals.{unary_clauses}

digits_or : (n k a c : ℕ) → a ≤ n → a < 2 ^ k → digits (λ b. b) max n a (c * 2 ^ k) ≡ a + c * 2 ^ k
digits_or zero k a c le lt = omega arith
digits_or (suc n) k zero c le lt = omega arith
digits_or (suc n) zero (suc a) c le lt = absurd (omega arith)
digits_or (suc n) (suc k) (suc a) c le lt =
    let twice : c * 2 ^ suc k ≡ 2 * (c * 2 ^ k) = simp unary_clauses (omega arith) in
    let half : c * 2 ^ suc k / 2 ≡ c * 2 ^ k = omega arith in
    let even : c * 2 ^ suc k % 2 ≡ 0 = omega arith in
    let pow : 2 ^ suc k ≡ 2 * 2 ^ k = simp unary_clauses (omega arith) in
    let rest = digits_or n k (suc a / 2) c (omega arith) (omega arith) in
    rw (half, even, rest) (omega arith)

-- A number below 2 ^ k, and one that is shifted by k places.
pub or_shifted : (k a c : ℕ) → a < 2 ^ k → bit_or a (c * 2 ^ k) ≡ a + c * 2 ^ k
or_shifted k a c lt = bit_or-bitwise a (c * 2 ^ k) ∙ digits_or a k a c (omega arith) lt

-- Two and four bytes that are read low byte first.
pub from_low2 : (a b : ℕ) → a < 256 → bit_or a (b * 2 ^ 8) ≡ a + b * 256
from_low2 a b h = or_shifted 8 a b h

pub from_low4 :
    (a b c d : ℕ)
    → a < 256
    → b < 256
    → c < 256
    → bit_or (bit_or (bit_or a (b * 2 ^ 8)) (c * 2 ^ 16)) (d * 2 ^ 24)
      ≡ a + b * 256 + c * 65536 + d * 16777216
from_low4 a b c d ha hb hc =
    rw
      (
        or_shifted 8 a b ha,
        or_shifted 16 (a + b * 2 ^ 8) c (omega arith),
        or_shifted 24 (a + b * 2 ^ 8 + c * 2 ^ 16) d (omega arith),
      )
      refl
