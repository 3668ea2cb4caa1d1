-- ===== src/Prelude/Exec.antt =====
-- Actions on a state that end in a value or an exception. An exception does not undo what came
-- before it: an action gives its last state back in either case.
pub mod Keeps
pub mod Returns
use mathlib.Core.Path.{◌≡◌, refl, ap}
use mathlib.Core.Bool.{Bool, true, false}
use mathlib.Core.Option.{Option, none, some}
use mathlib.Core.List.{List, [], ◌∷◌}

-- The exceptions that the code raises, by their Python classes.
pub data Error : Type 0 where
  index_error value_error key_error name_error attribute_error struct_error : Error
  zero_division overflow_error runtime_error connection_reset incomplete_read os_error : Error

pub data Result {ℓ} (A : Type ℓ) : Type ℓ where
  ok : A → Result A
  err : Error → Result A

-- A pure step after a pure step that may raise.
abbrev pub and_then {ℓ κ} : {A : Type ℓ} {B : Type κ} → Result A → (A → Result B) → Result B
and_then (ok a) f = f a
and_then (err e) f = err e

pub ok_injective {ℓ} : {A : Type ℓ} {a b : A} → ok a ≡ ok b → a ≡ b
ok_injective {a} h = ap (λ r. elim r [ ok x ↦ x | err e ↦ a ]) h

pub and_then-eq-ok {ℓ κ} :
    {A : Type ℓ} {B : Type κ} (r : Result A) (f : A → Result B) {b : B}
    → and_then r f ≡ ok b
    → (a : A) × (r ≡ ok a) × (f a ≡ ok b)
and_then-eq-ok (ok a) f h = (a, refl, h)
and_then-eq-ok (err e) f h = cc

abbrev pub Exec {ℓ} : Type ℓ → Type ℓ → Type ℓ
Exec S A = S → Result A × S

module _ {ℓ} {S A : Type ℓ} where
  abbrev pub raise : Error → Exec S A
  raise e s = (err e, s)

  abbrev pub lift : Result A → Exec S A
  lift r s = (r, s)

  abbrev pub gets : (S → A) → Exec S A
  gets f s = (ok (f s), s)

  abbrev pub pure : A → Exec S A
  pure a s = (ok a, s)

  -- The value of an option, or the exception for a missing one.
  abbrev pub require : Error → Option A → Exec S A
  require e none s = (err e, s)
  require e (some a) s = (ok a, s)

abbrev pub modify : {S : Type 0} → (S → S) → Exec S Unit
modify f s = (ok tt, f s)

module _ {ℓ} {S A B : Type ℓ} where
  abbrev pub continue : Result A → (A → Exec S B) → Exec S B
  continue (ok a) f s = f a s
  continue (err e) f s = (err e, s)

  infixl 10 ◌>>=◌ ◌>>◌
  abbrev pub ◌>>=◌ : Exec S A → (A → Exec S B) → Exec S B
  ◌>>=◌ m f s = let (r, s') = m s in continue r f s'

  abbrev pub ◌>>◌ : Exec S A → Exec S B → Exec S B
  m >> n = m >>= λ _. n

-- A step that returns was a step that returned and then its continuation.
pub bind-eq-ok {ℓ} :
    {S A B : Type ℓ} (m : Exec S A) (f : A → Exec S B) (s s' : S) {b : B}
    → (m >>= f) s ≡ (ok b, s')
    → (a : A) × (((m s).0 ≡ ok a) × (f a (m s).1 ≡ (ok b, s')))
bind-eq-ok {S = S} {A = A} m f s s' {b} h = go (m s).0 refl h
  where
    go :
        (r : Result A)
        → (m s).0 ≡ r
        → continue r f (m s).1 ≡ (ok b, s')
        → (a : A) × (((m s).0 ≡ ok a) × (f a (m s).1 ≡ (ok b, s')))
    go (ok a) e h = (a, (e, h))
    go (err x) e h = cc

-- for x in xs: body(x)
unfoldable pub for_each : {S A : Type 0} → List A → (A → Exec S Unit) → Exec S Unit
for_each [] body = pure tt
for_each (x ∷ xs) body = body x >> for_each xs body

-- try: body, except Exception as e: handler(e)
abbrev pub except : {S A : Type 0} → Exec S A → (Error → Exec S A) → Exec S A
except body handler s =
    let (result, s') = body s in elim result [ ok a ↦ (ok a, s') | err e ↦ handler e s' ]
