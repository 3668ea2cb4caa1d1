-- ===== src/Flower/Updates.antt =====
-- The bookkeeping of host_server/flower_server.py: the numbers of examples, and the chunks of the
-- clients.
use dropout.Prelude.{
  ℕ, ◌+◌, ◌≡◌, ◌∙◌, ◌||◌, refl, arith, Bool, true, false, List, [], ◌∷◌, ◌++◌, ◌==◌, if◌then◌else◌,
  inl, inr, Bool-cases,
}
use dropout.Prelude.Dict.{Dict, lookup, insert, lookup-insert, contains}
use dropout.Bridge.Aggregate.{elem}
use dropout.Flower.{sum_values, record_samples}

-- Each number of examples stands under itself.
abbrev Diagonal : Dict ℕ → Type 0
Diagonal [] = Unit
Diagonal ((k, n) ∷ d) = (k ≡ n) × Diagonal d

sum-insert :
    (n : ℕ) (d : Dict ℕ)
    → Diagonal d
    → sum_values (insert n n d) ≡ sum_values d + (if contains n d then 0 else n)
unfolding sum_values insert lookup
sum-insert n [] h = omega arith
sum-insert n ((k, v) ∷ d) h = elim (Bool-cases (k == n)) [
  | inl e ↦ let same : k ≡ n = ground arith in rw (contains, e) (omega arith)
  | inr e ↦ rw (contains, e) (omega (arith, sum-insert n d h.1))
]

insert-Diagonal : (n : ℕ) (d : Dict ℕ) → Diagonal d → Diagonal (insert n n d)
unfolding insert
insert-Diagonal n [] h = (refl, tt)
insert-Diagonal n ((k, v) ∷ d) h = elim (Bool-cases (k == n)) [
  | inl e ↦ let same : k ≡ n = ground arith in rw e (same, h.1)
  | inr e ↦ rw e (h.0, insert-Diagonal n d h.1)
]

contains-insert :
    (k n : ℕ) (d : Dict ℕ) → contains k (insert n n d) ≡ (if n == k then true else contains k d)
contains-insert k n d = elim (Bool-cases (n == k)) [
  | inl e ↦ rw (contains, lookup-insert n k n d, e)
  | inr e ↦ rw (contains, lookup-insert n k n d, e)
]

record-last :
    (counts : List ℕ) (n : ℕ) (d : Dict ℕ)
    → record_samples (counts ++ (n ∷ [])) d ≡ insert n n (record_samples counts d)
unfolding record_samples
record-last [] n d = refl
record-last (m ∷ counts) n d = record-last counts n (insert m m d)

record-Diagonal : (counts : List ℕ) (d : Dict ℕ) → Diagonal d → Diagonal (record_samples counts d)
unfolding record_samples
record-Diagonal [] d h = h
record-Diagonal (m ∷ counts) d h = record-Diagonal counts (insert m m d) (insert-Diagonal m d h)

contains-record :
    (n : ℕ) (counts : List ℕ) (d : Dict ℕ)
    → contains n (record_samples counts d) ≡ (elem n counts || contains n d)
unfolding record_samples elem
contains-record n [] d = refl
contains-record n (m ∷ counts) d =
    let rest = contains-record n counts (insert m m d) in
    let step = contains-insert n m d in
    elim (Bool-cases (m == n)) [
      | inl e ↦
          let e' : (n == m) ≡ true = ground arith in
          let here = rw e at step in rw (rest, here, e') (or_true (elem n counts))
      | inr e ↦
          let e' : (n == m) ≡ false = ground arith in let here = rw e at step in rw (rest, here, e')
    ]
  where
    or_true : (b : Bool) → (b || true) ≡ true
    or_true true = refl
    or_true false = refl

-- The total weight counts each number of examples once: a client adds to it only if no other has
-- the same number.
pub total_weight_next :
    (counts : List ℕ) (n : ℕ)
    → sum_values (record_samples (counts ++ (n ∷ [])) [])
      ≡ sum_values (record_samples counts []) + (if elem n counts then 0 else n)
unfolding elem lookup
total_weight_next counts n =
    let samples = record_samples counts [] in
    let known : contains n samples ≡ elem n counts =
      contains-record n counts [] ∙ or_false (elem n counts) in
    rw (record-last counts n [], ← known) (sum-insert n samples (record-Diagonal counts [] tt))
  where
    or_false : (b : Bool) → (b || false) ≡ b
    or_false true = refl
    or_false false = refl
