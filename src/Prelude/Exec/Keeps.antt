-- ===== src/Prelude/Exec/Keeps.antt =====
-- What an action keeps true of the state, by the shape of the action.
use mathlib.Core.Path.{◌≡◌, refl, ap, subst}
use mathlib.Core.Bool.{Bool, true, false}
use mathlib.Core.List.{List, [], ◌∷◌}
use dropout.Prelude.Tests.{if◌then◌else◌}
use dropout.Prelude.Lists.{All}
use dropout.Prelude.Exec.{
  Error, Result, ok, err, Exec, pure, raise, lift, gets, continue, for_each, except, ◌>>=◌,
  bind-eq-ok,
}

-- `m` keeps `P`, whether it returns or raises.
pub record Keeps {S A : Type 0} (P : S → Type 0) (m : Exec S A) : Type 0 where
  pub at : (s : S) → P s → P (m s).1

module _ {S A : Type 0} {P : S → Type 0} where
  pub Keeps-raise : (e : Error) → Keeps P (raise {S = S} {A = A} e)
  Keeps-raise e = record { at = λ s h. h }

  pub Keeps-lift : (r : Result A) → Keeps P (lift {S = S} r)
  Keeps-lift r = record { at = λ s h. h }

  pub Keeps-gets : (f : S → A) → Keeps P (gets f)
  Keeps-gets f = record { at = λ s h. h }

  pub Keeps-pure : (a : A) → Keeps P (pure {S = S} a)
  Keeps-pure a = record { at = λ s h. h }

  pub Keeps-if : (b : Bool) (m n : Exec S A) → Keeps P m → Keeps P n → Keeps P (if b then m else n)
  Keeps-if true m n km kn = km
  Keeps-if false m n km kn = kn

pub Keeps-continue :
    {S A B : Type 0} (P : S → Type 0) (r : Result A) (f : A → Exec S B) (s : S)
    → P s
    → ((a : A) → r ≡ ok a → P (f a s).1)
    → P (continue r f s).1
Keeps-continue P (ok a) f s h k = k a refl
Keeps-continue P (err e) f s h k = h

module _ {S A B : Type 0} {P : S → Type 0} where
  pub Keeps-bind :
      (m : Exec S A) (f : A → Exec S B) → Keeps P m → ((a : A) → Keeps P (f a)) → Keeps P (m >>= f)
  Keeps-bind m f km kf = record {
    at = λ s h.
        Keeps-continue P (m s).0 f (m s).1 (km.at s h) (λ a _. (kf a).at (m s).1 (km.at s h));
  }

pub Keeps-for_each :
    {S A : Type 0} {P : S → Type 0} (xs : List A) (body : A → Exec S Unit)
    → ((x : A) → Keeps P (body x))
    → Keeps P (for_each xs body)
unfolding for_each
Keeps-for_each [] body keep = Keeps-pure tt
Keeps-for_each (x ∷ xs) body keep =
    Keeps-bind (body x) (λ _. for_each xs body) (keep x) (λ _. Keeps-for_each xs body keep)

pub Keeps-All :
    {S A B : Type 0} {Q : A → S → Type 0} (xs : List A) (m : Exec S B)
    → ((x : A) → Keeps (Q x) m)
    → Keeps (λ s. All (λ x. Q x s) xs) m
Keeps-All {S = S} {Q = Q} xs m keep = record { at = λ s h. go s xs h }
  where
    go : (s : S) (ys : List _) → All (λ x. Q x s) ys → All (λ x. Q x (m s).1) ys
    go s [] h = tt
    go s (y ∷ ys) h = ((keep y).at s h.0, go s ys h.1)

-- A loop that returns has established what each turn of it establishes and the others keep.
pub for_each-All :
    {S A : Type 0} (Q : A → S → Type 0) (body : A → Exec S Unit)
    → ((x : A) (s s' : S) → body x s ≡ (ok tt, s') → Q x s')
    → ((x y : A) → Keeps (Q y) (body x))
    → (xs : List A) (s s' : S) → for_each xs body s ≡ (ok tt, s')
    → All (λ x. Q x s') xs
unfolding for_each
for_each-All Q body establishes keep [] s s' e = tt
for_each-All {S = S} Q body establishes keep (x ∷ xs) s s' e = (
  subst (λ r. Q x r.1) run.1.1 ((Keeps-for_each xs body (λ y. keep y x)).at (body x s).1 first),
  for_each-All Q body establishes keep xs (body x s).1 s' run.1.1,
)
  where
    run : (u : Unit) × (((body x s).0 ≡ ok u) × (for_each xs body (body x s).1 ≡ (ok tt, s')))
    run = bind-eq-ok (body x) (λ _. for_each xs body) s s' e

    first : Q x (body x s).1
    first = establishes x s (body x s).1 (ap (λ r. (r, (body x s).1)) run.1.0)

-- Where every handler returns, so does the whole.
pub except-ok :
    {S A : Type 0} (P : S → Type 0) (body : Exec S A) (handler : Error → Exec S A)
    → Keeps P body
    → ((e : Error) (s : S) → P s → (a : A) × ((handler e s).0 ≡ ok a) × P (handler e s).1)
    → (s : S) → P s
    → (a : A) × ((except body handler s).0 ≡ ok a) × P (except body handler s).1
except-ok {S = S} {A = A} P body handler keep kept s h = go (body s).0 (body s).1 (keep.at s h)
  where
    handled : Result A → S → Result A × S
    handled r s = elim r [ ok a ↦ (ok a, s) | err e ↦ handler e s ]

    go : (r : Result A) (s : S) → P s → (a : A) × ((handled r s).0 ≡ ok a) × P (handled r s).1
    go (ok a) s h = (a, refl, h)
    go (err e) s h = kept e s h

pub ruleset keeps_rules =
    (Keeps-pure, Keeps-raise, Keeps-lift, Keeps-gets, Keeps-if, Keeps-bind, Keeps-for_each)
