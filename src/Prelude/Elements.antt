-- ===== src/Prelude/Elements.antt =====
-- Being an element of a list, and what holds of all elements.
use mathlib.Core.Path.{◌≡◌, refl, sym, subst}
use mathlib.Core.Bool.{Bool}
use mathlib.Core.Logic.{◌⊎◌, inl, inr}
use mathlib.Core.List.{List, [], ◌∷◌}
use long_running_coding_agen.Prelude.Tests.{Bool-cases}
use long_running_coding_agen.Prelude.Lists.{All, select}

-- `x` is an element of the list.
abbrev pub In : {A : Type 0} → A → List A → Type 0
In x [] = ⊥
In x (y ∷ ys) = (x ≡ y) ⊎ In x ys

pub In-All : {A : Type 0} (xs ys : List A) → ((x : A) → In x xs → In x ys) → All (λ x. In x ys) xs
In-All [] ys h = tt
In-All (x ∷ xs) ys h = (h x (inl refl), In-All xs ys (λ z k. h z (inr k)))

pub All-In : {A : Type 0} (P : A → Type 0) (x : A) (xs : List A) → All P xs → In x xs → P x
All-In P x (y ∷ ys) h (inl e) = subst P (sym e) h.0
All-In P x (y ∷ ys) h (inr k) = All-In P x ys h.1 k
All-In P x [] h k = absurd k

pub All-map :
    {A : Type 0} (P Q : A → Type 0) (xs : List A) → ((x : A) → P x → Q x) → All P xs → All Q xs
All-map P Q [] f h = tt
All-map P Q (x ∷ xs) f h = (f x h.0, All-map P Q xs f h.1)

pub All-select :
    {A : Type 0} (P : A → Type 0) (p : A → Bool) (xs : List A) → All P xs → All P (select p xs)
unfolding select
All-select P p [] h = tt
All-select P p (x ∷ xs) h = elim (Bool-cases (p x)) [
  | inl e ↦ rw e (h.0, All-select P p xs h.1)
  | inr e ↦ rw e (All-select P p xs h.1)
]
