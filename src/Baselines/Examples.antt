-- ===== src/Baselines/Examples.antt =====
-- A secret shared and reconstructed.
use dropout.Prelude.{All, false, ℕ, ◌≡◌, refl, arith, [], ◌∷◌}
use dropout.Prelude.Int.{pos, pos_part, ◌+ℤ◌, ◌-ℤ◌, ◌*ℤ◌}
use dropout.Prelude.Exec.{ok, err, value_error}
use dropout.Bytes.{bytes_of}
use dropout.Shamir.{
  head, mod_inv, any_zero, any_duplicate, member, rejects_indices, products, lagrange_coeff,
  interpolate, reconstruct_secret,
}
use dropout.Baselines.{
  horner_mod, share_value, shares_from, draw_coeffs, shamir_generate_shares, shares_by_byte, column,
  byte_share, byte_shares_from, shamir_generate_shares_bytes, shamir_reconstruct_secret,
}
use dropout.Baselines.Recovery.{IsGenerated, shamir_shares_reconstruct}
use dropout.Baselines.Agreement.{shamir_reconstruct_secret_agrees}

-- Every coefficient that is drawn is 5.
abbrev randbelow : ℕ → ℕ → ℕ
randbelow draw bound = 5

generated : shamir_generate_shares randbelow 0 (pos 7) 3 2 ≡ ok ((1, 12) ∷ (2, 17) ∷ (3, 22) ∷ [])
unfolding shamir_generate_shares shares_from share_value horner_mod draw_coeffs
generated = refl

-- A drawn coefficient of 1000 makes a share that is no byte.
bytes_refused : shamir_generate_shares_bytes (λ draw bound. 1000) 0 (7 ∷ []) 3 2 ≡ err value_error
unfolding shamir_generate_shares_bytes shares_by_byte byte_shares_from column byte_share
    shamir_generate_shares shares_from share_value horner_mod draw_coeffs bytes_of
bytes_refused = refl

reconstructed : reconstruct_secret head ((pos 1, pos 12) ∷ (pos 3, pos 22) ∷ []) ≡ ok 7
unfolding reconstruct_secret rejects_indices any_zero any_duplicate member interpolate
    lagrange_coeff products mod_inv ◌+ℤ◌ ◌-ℤ◌ ◌*ℤ◌
reconstructed = refl

shamir_reconstruct_secret_agrees_example :
    shamir_reconstruct_secret ((pos 1, pos 12) ∷ (pos 3, pos 22) ∷ []) ≡ ok 7
shamir_reconstruct_secret_agrees_example =
    shamir_reconstruct_secret_agrees ((pos 1, pos 12) ∷ (pos 3, pos 22) ∷ []) 7 reconstructed

-- The first and the last of the shares.
chosen-IsGenerated :
    All (IsGenerated 3 ((1, 12) ∷ (2, 17) ∷ (3, 22) ∷ [])) ((pos 1, pos 12) ∷ (pos 3, pos 22) ∷ [])
chosen-IsGenerated =
    ((0, omega arith, (1, 12), refl, refl), ((2, omega arith, (3, 22), refl, refl), tt))

different : any_duplicate ((pos 1, pos 12) ∷ (pos 3, pos 22) ∷ []) ≡ false
unfolding any_duplicate member
different = refl

shamir_shares_reconstruct_example :
    (shamir_reconstruct_secret ((pos 1, pos 12) ∷ (pos 3, pos 22) ∷ []) ≡ ok (pos_part (pos 7)))
    × (reconstruct_secret head ((pos 1, pos 12) ∷ (pos 3, pos 22) ∷ []) ≡ ok (pos_part (pos 7)))
shamir_shares_reconstruct_example =
    shamir_shares_reconstruct randbelow 0 (pos 7) 3 2 ((1, 12) ∷ (2, 17) ∷ (3, 22) ∷ [])
      ((pos 1, pos 12) ∷ (pos 3, pos 22) ∷ []) (omega arith) generated chosen-IsGenerated different
      (omega arith) (omega arith)
