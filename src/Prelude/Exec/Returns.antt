-- ===== src/Prelude/Exec/Returns.antt =====
-- Actions that return from every state of a kind, and end in a state of the kind.
use mathlib.Core.Path.{◌≡◌, refl, subst, sym}
use mathlib.Core.Bool.{Bool, true, false}
use mathlib.Core.List.{List, [], ◌∷◌}
use dropout.Prelude.Tests.{if◌then◌else◌}
use dropout.Prelude.Lists.{All}
use dropout.Prelude.Exec.{Result, ok, Exec, pure, lift, gets, modify, continue, for_each, ◌>>=◌}
use dropout.Prelude.Exec.Keeps.{Keeps}

-- A run that returned, and its last state.
abbrev pub Ended : {S A : Type 0} → (S → Type 0) → Result A × S → Type 0
Ended {A = A} P run = (a : A) × (run.0 ≡ ok a) × P run.1

pub record Returns {S A : Type 0} (P : S → Type 0) (m : Exec S A) : Type 0 where
  pub at : (s : S) → P s → Ended P (m s)

module _ {S A : Type 0} {P : S → Type 0} where
  pub Returns-pure : (a : A) → Returns P (pure {S = S} a)
  Returns-pure a = record { at = λ s h. (a, refl, h) }

  pub Returns-if :
      (b : Bool) (m n : Exec S A)
      → (b ≡ true → Returns P m)
      → (b ≡ false → Returns P n)
      → Returns P (if b then m else n)
  Returns-if true m n on_true on_false = on_true refl
  Returns-if false m n on_true on_false = on_false refl

  -- What the action keeps besides.
  pub Returns-Keeps :
      {Q : S → Type 0} (m : Exec S A) → Returns P m → Keeps Q m → Returns (λ s. P s × Q s) m
  Returns-Keeps m returns keeps = record {
    at = λ s h. let (a, e, after) = returns.at s h.0 in (a, e, (after, keeps.at s h.1));
  }

pub Returns-modify :
    {S : Type 0} {P : S → Type 0} (f : S → S) → ((s : S) → P s → P (f s)) → Returns P (modify f)
Returns-modify f keep = record { at = λ s h. (tt, refl, keep s h) }

pub Ended-continue :
    {S A B : Type 0} (P : S → Type 0) (r : Result A) (f : A → Exec S B) (s : S) (a : A)
    → r ≡ ok a
    → Ended P (f a s)
    → Ended P (continue r f s)
Ended-continue P r f s a e h = subst (λ r'. Ended P (continue r' f s)) (sym e) h

module _ {S A B : Type 0} {P : S → Type 0} where
  pub Returns-bind :
      (m : Exec S A) (f : A → Exec S B)
      → Returns P m
      → ((a : A) → Returns P (f a))
      → Returns P (m >>= f)
  Returns-bind m f first next = record {
    at = λ s h.
        let (a, e, after) = first.at s h in
        Ended-continue P (m s).0 f (m s).1 a e ((next a).at (m s).1 after);
  }

  pub Returns-lift :
      (r : Result A) (f : A → Exec S B) (a : A)
      → r ≡ ok a
      → Returns P (f a)
      → Returns P (lift r >>= f)
  Returns-lift r f a e next = record { at = λ s h. Ended-continue P r f s a e (next.at s h) }

  pub Returns-gets :
      (g : S → A) (f : A → Exec S B) (Q : A → Type 0)
      → ((s : S) → P s → Q (g s))
      → ((a : A) → Q a → Returns P (f a))
      → Returns P (gets g >>= f)
  Returns-gets g f Q has next = record { at = λ s h. (next (g s) (has s h)).at s h }

pub Returns-for_each :
    {S A : Type 0} {P : S → Type 0} (xs : List A) (body : A → Exec S Unit)
    → All (λ x. Returns P (body x)) xs
    → Returns P (for_each xs body)
unfolding for_each
Returns-for_each [] body h = Returns-pure tt
Returns-for_each (x ∷ xs) body h =
    Returns-bind (body x) (λ _. for_each xs body) h.0 (λ _. Returns-for_each xs body h.1)
