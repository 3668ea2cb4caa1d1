-- ===== src/Baselines.antt =====
-- experiments/baselines.py: Shamir's sharing of a secret in GF(3329), by values and by bytes.
pub mod Polynomial
pub mod Agreement
pub mod Recovery
pub mod Kdf
pub mod Examples
use dropout.Prelude.{
  ℕ, zero, suc, ◌+◌, ◌-◌, ◌*◌, ◌%◌, ◌<◌, Bool, ◌||◌, Option, none, some, List, [], ◌∷◌, ◌++◌, ltb,
  leb, if◌then◌else◌, length, get_elem?, map, ◌==◌, ◌^◌,
}
use dropout.Prelude.Int.{ℤ, pos, ◌+ℤ◌, ◌-ℤ◌, ◌*ℤ◌, ◌%ℤ◌, pos_part, ltb_ℤ, leb_ℤ}
use dropout.Prelude.Exec.{Result, ok, err, value_error, index_error, and_then}
use dropout.Bytes.{Bytes, bytes_of}
use dropout.Shamir.{Share}
use dropout.Field.{field_modulus}
use mathlib.Core.List.{reverse}

-- The inner loop: y = (y * x + coeff) % FIELD_MODULUS.
pub horner_mod : List ℕ → ℕ → ℕ → ℕ
horner_mod [] x y = y
horner_mod (coeff ∷ coeffs) x y = horner_mod coeffs x ((y * x + coeff) % field_modulus)

pub share_value : List ℕ → ℕ → ℕ
share_value coeffs x = horner_mod (reverse coeffs) x 0

-- for i in range(1, n + 1), from `i` on.
pub shares_from : List ℕ → ℕ → ℕ → List (ℕ × ℕ)
shares_from coeffs i zero = []
shares_from coeffs i (suc left) = (i, share_value coeffs i) ∷ shares_from coeffs (suc i) left

-- secrets.randbelow(bound), at the k-th draw of randomness.
module _ (randbelow : ℕ → ℕ → ℕ) where
  pub draw_coeffs : ℕ → ℕ → List ℕ
  draw_coeffs k zero = []
  draw_coeffs k (suc left) = randbelow k field_modulus ∷ draw_coeffs (suc k) left

  -- The coefficients, of which the constant one is the secret.
  abbrev pub coeffs_of : ℕ → ℤ → ℕ → List ℕ
  coeffs_of k secret t = pos_part secret ∷ draw_coeffs k (t - 1)

  pub shamir_generate_shares : ℕ → ℤ → ℕ → ℕ → Result (List (ℕ × ℕ))
  shamir_generate_shares k secret n t =
      if ltb n t
      then err value_error
      else if ltb_ℤ secret (pos 0) || leb_ℤ (pos field_modulus) secret
      then err value_error
      else ok (shares_from (coeffs_of k secret t) 1 n)

  -- The shares of every byte; each byte draws t - 1 coefficients.
  pub shares_by_byte : ℕ → Bytes → ℕ → ℕ → Result (List (List (ℕ × ℕ)))
  shares_by_byte k [] n t = ok []
  shares_by_byte k (b ∷ bytes) n t =
      and_then (shamir_generate_shares k (pos b) n t)
        (λ shares. and_then (shares_by_byte (k + (t - 1)) bytes n t) (λ rest. ok (shares ∷ rest)))

-- shares_by_byte[j][i], for each j.
pub column : ℕ → List (List (ℕ × ℕ)) → Result (List (ℕ × ℕ))
column i [] = ok []
column i (shares ∷ rows) =
    and_then (elim (get_elem? shares i) [ none ↦ err index_error | some share ↦ ok share ])
      (λ share. and_then (column i rows) (λ rest. ok (share ∷ rest)))

-- One share of the bytes: the index of the first row, and a byte of each row.
pub byte_share : List (ℕ × ℕ) → Result (ℕ × Bytes)
byte_share [] = err index_error
byte_share ((x, y) ∷ shares) =
    and_then (bytes_of (map (λ share. share.1) ((x, y) ∷ shares))) (λ bytes. ok (x, bytes))

-- for i in range(n), from `i` on.
pub byte_shares_from : List (List (ℕ × ℕ)) → ℕ → ℕ → Result (List (ℕ × Bytes))
byte_shares_from rows i zero = ok []
byte_shares_from rows i (suc left) = and_then (column i rows) (λ shares.
    and_then (byte_share shares)
      (λ share. and_then (byte_shares_from rows (suc i) left) (λ rest. ok (share ∷ rest))))

pub shamir_generate_shares_bytes : (ℕ → ℕ → ℕ) → ℕ → Bytes → ℕ → ℕ → Result (List (ℕ × Bytes))
shamir_generate_shares_bytes randbelow k secret_bytes n t =
    and_then (shares_by_byte randbelow k secret_bytes n t) (λ rows. byte_shares_from rows 0 n)

-- The inner loop of the reconstruction: the numerator and the denominator.
pub lagrange_products : ℕ → ℤ → ℕ → List Share → ℕ → ℕ → ℕ × ℕ
lagrange_products i xi j [] numerator denominator = (numerator, denominator)
lagrange_products i xi j ((xj, yj) ∷ shares) numerator denominator =
    lagrange_products i xi (suc j) shares
      (if i == j then numerator else (pos numerator *ℤ (pos 0 -ℤ xj)) %ℤ field_modulus)
      (if i == j then denominator else (pos denominator *ℤ (xi -ℤ xj)) %ℤ field_modulus)

pub coeff_at : ℕ → ℤ → List Share → ℕ
coeff_at i xi shares =
    let (numerator, denominator) = lagrange_products i xi 0 shares 1 1 in
    numerator * (denominator ^ 3327 % field_modulus) % field_modulus

-- The outer loop: `rest` holds the shares from index `i` on.
pub sum_shares : List Share → ℕ → List Share → ℕ → ℕ
sum_shares shares i [] secret = secret
sum_shares shares i ((xi, yi) ∷ rest) secret =
    sum_shares shares (suc i) rest
      ((pos secret +ℤ yi *ℤ pos (coeff_at i xi shares)) %ℤ field_modulus)

pub shamir_reconstruct_secret : List Share → Result ℕ
shamir_reconstruct_secret shares =
    if ltb (length shares) 2 then err value_error else ok (sum_shares shares 0 shares 0)

-- [(x, y[byte_idx]) for x, y in shares]
pub byte_values : List (ℕ × Bytes) → ℕ → Result (List Share)
byte_values [] k = ok []
byte_values ((x, y) ∷ shares) k =
    and_then (elim (get_elem? y k) [ none ↦ err index_error | some b ↦ ok b ])
      (λ b. and_then (byte_values shares k) (λ rest. ok ((pos x, pos b) ∷ rest)))

-- for byte_idx in range(num_bytes), from `k` on; a bytearray takes no value above 255.
pub secret_bytes_from : List (ℕ × Bytes) → ℕ → ℕ → Result Bytes
secret_bytes_from shares k zero = ok []
secret_bytes_from shares k (suc left) = and_then (byte_values shares k) (λ values.
    and_then (shamir_reconstruct_secret values) (λ b.
      and_then (bytes_of (b ∷ []))
        (λ byte. and_then (secret_bytes_from shares (suc k) left) (λ rest. ok (byte ++ rest)))))

pub shamir_reconstruct_secret_bytes : List (ℕ × Bytes) → Result Bytes
shamir_reconstruct_secret_bytes [] = err value_error
shamir_reconstruct_secret_bytes ((x, y) ∷ shares) = secret_bytes_from ((x, y) ∷ shares) 0 (length y)
