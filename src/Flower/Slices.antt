-- ===== src/Flower/Slices.antt =====
-- The padded slices of a list, put one after the other, are the list and zeros.
use dropout.Prelude.{
  ℕ, zero, suc, ◌+◌, ◌-◌, ◌*◌, ◌≤◌, ◌<◌, ◌≡◌, refl, sym, ap, ◌∙◌, arith, List, [], ◌∷◌, ◌++◌,
  append_assoc, append_nil, length, length-take, get_or, take, drop, replicate, ltb, inl, inr,
  Bool-cases,
}
use dropout.Prelude.Int.{ℤ, pos}
use dropout.Flower.{pad}

module _ {ℓ} {A : Type ℓ} where
  pub drop_all : (n : ℕ) (xs : List A) → length xs ≤ n → drop n xs ≡ []
  drop_all zero [] h = refl
  drop_all zero (x ∷ xs) h = absurd (omega arith)
  drop_all (suc n) [] h = refl
  drop_all (suc n) (x ∷ xs) h = drop_all n xs (omega arith)

  take_all : (n : ℕ) (xs : List A) → length xs ≤ n → take n xs ≡ xs
  take_all zero [] h = refl
  take_all zero (x ∷ xs) h = absurd (omega arith)
  take_all (suc n) [] h = refl
  take_all (suc n) (x ∷ xs) h = ap (λ l. x ∷ l) (take_all n xs (omega arith))

  pub take-drop : (n : ℕ) (xs : List A) → take n xs ++ drop n xs ≡ xs
  take-drop zero xs = refl
  take-drop (suc n) [] = refl
  take-drop (suc n) (x ∷ xs) = ap (λ l. x ∷ l) (take-drop n xs)

  pub drop-drop : (m n : ℕ) (xs : List A) → drop m (drop n xs) ≡ drop (n + m) xs
  drop-drop m zero xs = let e : m ≡ 0 + m = omega arith in ap (λ n. drop n xs) e
  drop-drop zero (suc n) [] = sym (drop_all (suc n + 0) [] (omega arith))
  drop-drop (suc m) (suc n) [] = sym (drop_all (suc n + suc m) [] (omega arith))
  drop-drop m (suc n) (x ∷ xs) =
      let e : suc (n + m) ≡ suc n + m = omega arith in
      drop-drop m n xs ∙ ap (λ k. drop k (x ∷ xs)) e

  replicate_add : (m n : ℕ) (a : A) → replicate m a ++ replicate n a ≡ replicate (m + n) a
  replicate_add zero n a = let e : n ≡ 0 + n = omega arith in ap (λ k. replicate k a) e
  replicate_add (suc m) n a =
      let e : suc (m + n) ≡ suc m + n = omega arith in
      ap (λ l. a ∷ l) (replicate_add m n a) ∙ ap (λ k. replicate k a) e

get_or-drop : (n j : ℕ) (l : List ℤ) → get_or (drop n l) j (pos 0) ≡ get_or l (n + j) (pos 0)
get_or-drop zero j l = let e : j ≡ 0 + j = omega arith in ap (λ k. get_or l k (pos 0)) e
get_or-drop (suc n) j [] = refl
get_or-drop (suc n) j (x ∷ l) =
    let e : suc (n + j) ≡ suc n + j = omega arith in
    get_or-drop n j l ∙ ap (λ k. get_or (x ∷ l) k (pos 0)) e

get_or_zeros : (n j : ℕ) → get_or (replicate n (pos 0)) j (pos 0) ≡ pos 0
get_or_zeros zero j = refl
get_or_zeros (suc n) zero = refl
get_or_zeros (suc n) (suc j) = get_or_zeros n j

get_or-pad :
    (ce j : ℕ) (l : List ℤ) → j < ce → get_or (pad ce (take ce l)) j (pos 0) ≡ get_or l j (pos 0)
get_or-pad zero j l h = absurd (omega arith)
get_or-pad (suc ce) j [] h = get_or_zeros (suc ce - 0) j
get_or-pad (suc ce) zero (x ∷ l) h = refl
get_or-pad (suc ce) (suc j) (x ∷ l) h =
    let e : suc ce - suc (length (take ce l)) ≡ ce - length (take ce l) = omega arith in
    rw e (get_or-pad ce j l (omega arith))

-- The elements of a padded slice are those of the list.
pub get_or_slice :
    (ce n j : ℕ) (l : List ℤ)
    → j < ce
    → get_or (pad ce (take ce (drop n l))) j (pos 0) ≡ get_or l (n + j) (pos 0)
get_or_slice ce n j l h = get_or-pad ce j (drop n l) h ∙ get_or-drop n j l

pub get_or_past : (l : List ℤ) (k : ℕ) → length l ≤ k → get_or l k (pos 0) ≡ pos 0
get_or_past [] k h = refl
get_or_past (x ∷ l) zero h = absurd (omega arith)
get_or_past (x ∷ l) (suc k) h = get_or_past l k (omega arith)

-- The padded slices from the i-th on.
abbrev pub slices : ℕ → List ℤ → ℕ → ℕ → List ℤ
slices ce flat i zero = []
slices ce flat i (suc left) = pad ce (take ce (drop (i * ce) flat)) ++ slices ce flat (suc i) left

-- One padded slice and what follows it.
slice_step :
    (ce : ℕ) (rest later : List ℤ) (z : ℕ)
    → later ≡ drop ce rest ++ replicate z (pos 0)
    → (w : ℕ) × (pad ce (take ce rest) ++ later ≡ rest ++ replicate w (pos 0))
slice_step ce rest later z e = elim (Bool-cases (ltb ce (length rest))) [
  | inl long ↦
      let full = length-take ce rest (ground arith) in
      let none_missing : ce - length (take ce rest) ≡ 0 = omega arith in
      (z, rw (e, none_missing, append_nil, ← append_assoc (take ce rest) (drop ce rest), take-drop))
  | inr short ↦
      let fits : length rest ≤ ce = ground arith in
      (
        (ce - length rest) + z,
        rw (
          e,
          take_all ce rest fits,
          drop_all ce rest fits,
          append_assoc,
          replicate_add (ce - length rest) z (pos 0),
        ),
      )
]

-- Enough slices give all that is left of the list.
pub slices_back :
    (ce : ℕ) (flat : List ℤ) (i left : ℕ)
    → length flat ≤ (i + left) * ce
    → (w : ℕ) × (slices ce flat i left ≡ drop (i * ce) flat ++ replicate w (pos 0))
slices_back ce flat i zero h = (0, rw (drop_all (i * ce) flat (omega arith)))
slices_back ce flat i (suc left) h =
    let (z, e) = slices_back ce flat (suc i) left (omega arith) in
    let same : suc i * ce ≡ i * ce + ce = omega arith in
    let next : drop (suc i * ce) flat ≡ drop ce (drop (i * ce) flat) =
      ap (λ n. drop n flat) same ∙ sym (drop-drop ce (i * ce) flat) in
    slice_step ce (drop (i * ce) flat) (slices ce flat (suc i) left) z
      (e ∙ ap (λ l. l ++ replicate z (pos 0)) next)
