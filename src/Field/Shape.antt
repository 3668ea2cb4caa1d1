-- ===== src/Field/Shape.antt =====
-- Lists of field elements, and dictionaries of chunks that are such lists.
use dropout.Prelude.{
  ℕ, zero, suc, ◌<◌, ◌≡◌, ◌∙◌, arith, some, List, ◌==◌, inl, inr, Bool-cases, All, length,
  replicate,
}
use dropout.Prelude.Dict.{Dict, lookup, insert, lookup-insert}

abbrev pub IsField : List ℕ → Type 0
IsField = All (λ x. x < 3329)

pub IsField-replicate : (n : ℕ) → IsField (replicate n 0)
IsField-replicate zero = tt
IsField-replicate (suc n) = (omega arith, IsField-replicate n)

-- A list of `ce` field elements for every chunk below `nc`.
abbrev pub IsShaped : ℕ → ℕ → Dict (List ℕ) → Type 0
IsShaped nc ce chunks =
    (k : ℕ) → k < nc → (l : List ℕ) × (lookup k chunks ≡ some l) × (length l ≡ ce) × IsField l

module _ (nc ce : ℕ) where
  pub insert-IsShaped :
      (k : ℕ) (out : List ℕ) (chunks : Dict (List ℕ))
      → length out ≡ ce
      → IsField out
      → IsShaped nc ce chunks
      → IsShaped nc ce (insert k out chunks)
  insert-IsShaped k out chunks l f h j lt = elim (Bool-cases (k == j)) [
    | inl e ↦ (out, lookup-insert k j out chunks ∙ rw e, l, f)
    | inr e ↦ let (m, at, lm, fm) = h j lt in (m, lookup-insert k j out chunks ∙ rw e at, lm, fm)
  ]

  -- The chunk after the last one.
  pub insert_next-IsShaped :
      (out : List ℕ) (chunks : Dict (List ℕ))
      → length out ≡ ce
      → IsField out
      → IsShaped nc ce chunks
      → IsShaped (suc nc) ce (insert nc out chunks)
  insert_next-IsShaped out chunks l f h j lt = elim (Bool-cases (nc == j)) [
    | inl e ↦ (out, lookup-insert nc j out chunks ∙ rw e, l, f)
    | inr e ↦
        let (m, at, lm, fm) = h j (ground arith) in
        (m, lookup-insert nc j out chunks ∙ rw e at, lm, fm)
  ]
