-- ===== src/Prelude/Dict.antt =====
-- Python's `dict` with integer keys: an association list in insertion order, which is the order of
-- iteration. An assignment to a key that is there keeps its place.
use dropout.Prelude.Tests.{◌==◌, if◌then◌else◌, ==-refl, Bool-cases}
use dropout.Prelude.Lists.{All, All-map}
use mathlib.Core.Logic.{inl, inr}
use Prim.Native.Nat.{ℕ}
use mathlib.Core.Path.{◌≡◌, refl, subst}
use mathlib.Core.Bool.{Bool, true, false}
use mathlib.Core.Option.{Option, none, some}
use mathlib.Core.List.{List, [], ◌∷◌}
use native.Mathlib.Omega.{arith}

abbrev pub Dict {ℓ} : Type ℓ → Type ℓ
Dict V = List (ℕ × V)

module _ {ℓ} {V : Type ℓ} where
  -- d.get(k)
  unfoldable pub lookup : ℕ → Dict V → Option V
  lookup k [] = none
  lookup k ((j, v) ∷ d) = if j == k then some v else lookup k d

  -- d[k] = v
  unfoldable pub insert : ℕ → V → Dict V → Dict V
  insert k v [] = (k, v) ∷ []
  insert k v ((j, w) ∷ d) = if j == k then (j, v) ∷ d else (j, w) ∷ insert k v d

  pub lookup-insert :
      (k j : ℕ) (v : V) (d : Dict V)
      → lookup j (insert k v d) ≡ (if k == j then some v else lookup j d)
  unfolding lookup insert
  lookup-insert k j v [] = refl
  lookup-insert k j v ((i, w) ∷ d) = ground (arith, lookup-insert k j v d)

  -- k in d
  abbrev pub contains : ℕ → Dict V → Bool
  contains k d = elim (lookup k d) [ none ↦ false | some v ↦ true ]

-- d.get(k, default)
abbrev pub get_default {ℓ} : {V : Type ℓ} → ℕ → V → Dict V → V
get_default k default d = elim (lookup k d) [ none ↦ default | some v ↦ v ]

-- list(d.keys())
unfoldable pub keys {ℓ} : {V : Type ℓ} → Dict V → List ℕ
keys [] = []
keys ((k, v) ∷ d) = k ∷ keys d

-- A property of all the values of a dictionary.
module _ {ℓ κ} {V : Type ℓ} (P : V → Type κ) where
  abbrev pub AllValues : Dict V → Type κ
  AllValues [] = Unit {κ}
  AllValues ((k, v) ∷ d) = P v × AllValues d

  pub AllValues-insert : (k : ℕ) (v : V) (d : Dict V) → P v → AllValues d → AllValues (insert k v d)
  unfolding insert
  AllValues-insert k v [] pv h = (pv, tt)
  AllValues-insert k v ((j, w) ∷ d) pv h = elim (Bool-cases (j == k)) [
    | inl e ↦ rw e (pv, h.1)
    | inr e ↦ rw e (h.0, AllValues-insert k v d pv h.1)
  ]

  pub AllValues-lookup : (k : ℕ) (d : Dict V) {v : V} → AllValues d → lookup k d ≡ some v → P v
  unfolding lookup
  AllValues-lookup k [] h e = cc
  AllValues-lookup k ((j, w) ∷ d) {v} h e = elim (Bool-cases (j == k)) [
    | inl t ↦ let same : w ≡ v = ground arith in subst P same h.0
    | inr t ↦ AllValues-lookup k d h.1 (rw t at e)
  ]

module _ {ℓ} {V : Type ℓ} where
  -- Every key of a dictionary has a value.
  pub lookup-keys : (d : Dict V) → All (λ k. (v : V) × (lookup k d ≡ some v)) (keys d)
  unfolding keys lookup
  lookup-keys [] = tt
  lookup-keys ((j, v) ∷ d) = ((v, rw ==-refl), weaken (keys d) (lookup-keys d))
    where
      weaken :
          (ks : List ℕ)
          → All (λ k. (v : V) × (lookup k d ≡ some v)) ks
          → All (λ k. (u : V) × (lookup k ((j, v) ∷ d) ≡ some u)) ks
      weaken [] h = tt
      weaken (k ∷ ks) ((u, e), h) = elim (Bool-cases (j == k)) [
        | inl t ↦ ((v, rw t), weaken ks h)
        | inr t ↦ ((u, rw t e), weaken ks h)
      ]

-- k in list
abbrev pub is_listed : ℕ → List ℕ → Bool
is_listed k [] = false
is_listed k (j ∷ js) = if j == k then true else is_listed k js

pub is_listed_self : (js : List ℕ) → All (λ j. is_listed j js ≡ true) js
is_listed_self [] = tt
is_listed_self (j ∷ js) = (
  rw ==-refl refl,
  All-map (λ k. is_listed k js ≡ true) (λ k. is_listed k (j ∷ js) ≡ true) (later j) js
      (is_listed_self js),
)
  where
    later : (j k : ℕ) → is_listed k js ≡ true → is_listed k (j ∷ js) ≡ true
    later j k h = elim (Bool-cases (j == k)) [ inl t ↦ rw t refl | inr f ↦ rw f h ]

pub All-is_listed {ℓ} :
    (P : ℕ → Type ℓ) (k : ℕ) (js : List ℕ) → All P js → is_listed k js ≡ true → P k
All-is_listed P k [] h e = cc
All-is_listed P k (j ∷ js) h e = elim (Bool-cases (j == k)) [
  | inl t ↦ let same : j ≡ k = ground arith in subst P same h.0
  | inr t ↦ All-is_listed P k js h.1 (rw t at e)
]

module _ {ℓ} {V : Type ℓ} where
  pub is_listed-keys :
      (k : ℕ) (d : Dict V) {v : V} → lookup k d ≡ some v → is_listed k (keys d) ≡ true
  unfolding lookup keys
  is_listed-keys k [] e = cc
  is_listed-keys k ((j, w) ∷ d) e = elim (Bool-cases (j == k)) [
    | inl t ↦ rw t
    | inr t ↦ rw t (is_listed-keys k d (rw t at e))
  ]

  pub keys-insert :
      (k : ℕ) (v : V) (d : Dict V) → is_listed k (keys d) ≡ true → keys (insert k v d) ≡ keys d
  unfolding insert keys
  keys-insert k v [] e = cc
  keys-insert k v ((j, w) ∷ d) e = elim (Bool-cases (j == k)) [
    | inl t ↦ rw t
    | inr t ↦ rw (t, keys-insert k v d (rw t at e))
  ]
