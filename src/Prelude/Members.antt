-- ===== src/Prelude/Members.antt =====
-- Membership in the lists that Python's sets, `sorted` and comprehensions make.
use Prim.Native.String.{String}
use mathlib.Core.Path.{◌≡◌, refl, ap, ◌∙◌}
use mathlib.Core.Bool.{Bool, true, ◌&&◌, ◌||◌}
use mathlib.Core.List.{List, [], ◌∷◌}
use mathlib.Core.Logic.{inl, inr}
use native.Mathlib.Omega.{arith}
use text.Mathlib.Text.{◌==◌ as str_eq}
use text.Mathlib.TextEquality.{eq_iff as str_eq_iff}
use long_running_coding_agen.Prelude.Tests.{Bool-cases}
use long_running_coding_agen.Prelude.Lists.{select}
use long_running_coding_agen.Prelude.Text.{elem, to_set, sorted, insert_text}

elem-insert_text : (x y : String) (ys : List String) → elem x (insert_text y ys) ≡ elem x (y ∷ ys)
unfolding elem
elem-insert_text x y [] = refl
elem-insert_text x y (z ∷ zs) = ground (arith, elem-insert_text x y zs)

pub elem-sorted : (x : String) (ys : List String) → elem x (sorted ys) ≡ elem x ys
unfolding elem sorted
elem-sorted x [] = refl
elem-sorted x (y ∷ ys) =
    elem-insert_text x y (sorted ys) ∙ ap (λ b. str_eq y x || b) (elem-sorted x ys)

pub elem-set : (x : String) (ys : List String) → elem x (to_set ys) ≡ elem x ys
unfolding elem to_set
elem-set x [] = refl
elem-set x (y ∷ ys) = elim (Bool-cases (elem y ys)) [
  | inr f ↦ rw f (ap (λ b. str_eq y x || b) (elem-set x ys))
  | inl f ↦ rw f (
      elem-set x ys ∙ (elim (Bool-cases (str_eq y x)) [
        | inl e ↦ let q : elem x ys ≡ true = rw (← (str_eq_iff y x).0 e) f in ground (arith, q, e)
        | inr e ↦ rw e refl
      ]))
]

pub elem-selected :
    (p : String → Bool) (x : String) (ys : List String) → elem x (select p ys) ≡ (elem x ys && p x)
unfolding elem select
elem-selected p x [] = refl
elem-selected p x (y ∷ ys) = elim (Bool-cases (str_eq y x)) [
  | inl e ↦
      let q : p y ≡ p x = ap p ((str_eq_iff y x).0 e) in ground (arith, elem-selected p x ys, q, e)
  | inr e ↦ ground (arith, elem-selected p x ys, e)
]
