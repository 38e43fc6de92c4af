-- ===== src/Prelude/Text.antt =====
-- Python strings: membership, `len(set(xs))`, and the order of `sorted`, which is by code points.
use Prim.Native.Nat.{ℕ, ◌≤◌}
use Prim.Native.Char.{code}
use Prim.Native.String.{String}
use mathlib.Core.Path.{subst, ◌≡◌, refl, sym, ◌∙◌}
use mathlib.Core.Bool.{Bool, true, false, not, ◌&&◌, ◌||◌}
use mathlib.Core.List.{List, [], ◌∷◌, ◌++◌}
use mathlib.Core.Option.{Option, none, some}
use Prim.Native.String.{◌++◌ as append}
use mathlib.Core.Logic.{inl, inr}
use native.Mathlib.Omega.{arith}
use text.Mathlib.Text.{◌==◌ as str_eq}
use text.Mathlib.TextEquality.{Char-path, eq_iff, eq_iff as str_eq_iff}
use long_running_coding_agen.Prelude.Tests.{if◌then◌else◌, ltb, ◌==◌, Bool-cases}
use long_running_coding_agen.Prelude.Lists.{All, length}

-- `x in xs`
unfoldable pub elem : String → List String → Bool
elem x [] = false
elem x (y ∷ ys) = str_eq y x || elem x ys

-- `set(xs)`, in order of first insertion from the right
unfoldable pub to_set : List String → List String
to_set [] = []
to_set (x ∷ xs) = let rest = to_set xs in if elem x xs then rest else x ∷ rest

-- No string occurs twice.
unfoldable pub nodup : List String → Bool
nodup [] = true
nodup (x ∷ xs) = not (elem x xs) && nodup xs

-- `len(xs) == len(set(xs))`
unfoldable pub distinct : List String → Bool
unfolding to_set
distinct xs = length xs == length (to_set xs)

abbrev pub codes : String → List ℕ
codes String.[] = []
codes (String.◌∷◌ c s) = code c ∷ codes s

unfoldable pub codes_leb : List ℕ → List ℕ → Bool
codes_leb [] ys = true
codes_leb (x ∷ xs) [] = false
codes_leb (x ∷ xs) (y ∷ ys) = ltb x y || ((x == y) && codes_leb xs ys)

-- `s <= t`
unfoldable pub str_leb : String → String → Bool
unfolding codes_leb
str_leb s t = codes_leb (codes s) (codes t)

-- `str(value or "")`
abbrev pub or_empty : Option String → String
or_empty none = ""
or_empty (some s) = s

abbrev pub insert_text : String → List String → List String
insert_text x [] = x ∷ []
insert_text x (y ∷ ys) = let rest = y ∷ insert_text x ys in if str_leb x y then x ∷ y ∷ ys else rest

unfoldable pub sorted : List String → List String
sorted [] = []
sorted (x ∷ xs) = insert_text x (sorted xs)

abbrev pub is_some {ℓ} : {A : Type ℓ} → Option A → Bool
is_some none = false
is_some (some a) = true

unfoldable pub lists_eq : List String → List String → Bool
lists_eq [] [] = true
lists_eq (x ∷ xs) (y ∷ ys) = str_eq x y && lists_eq xs ys
lists_eq _ _ = false

-- `sep.join(xs)`
unfoldable pub join : String → List String → String
join sep [] = ""
join sep (x ∷ []) = x
join sep (x ∷ y ∷ xs) = append x (append sep (join sep (y ∷ xs)))

abbrev pub is_prefix : List ℕ → List ℕ → Bool
is_prefix [] ys = true
is_prefix (x ∷ xs) [] = false
is_prefix (x ∷ xs) (y ∷ ys) = (x == y) && is_prefix xs ys

unfoldable pub is_infix : List ℕ → List ℕ → Bool
is_infix xs [] = is_prefix xs []
is_infix xs (y ∷ ys) = is_prefix xs (y ∷ ys) || is_infix xs ys

-- `s in t`
unfoldable pub str_contains : (s t : String) → Bool
unfolding is_infix
str_contains s t = is_infix (codes s) (codes t)

-- `t.startswith(s)`
unfoldable pub starts_with : (s t : String) → Bool
starts_with s t = is_prefix (codes s) (codes t)

abbrev pub without : String → List String → List String
without x [] = []
without x (y ∷ ys) = let rest = without x ys in if str_eq y x then rest else y ∷ rest

-- `dedupe_preserving_order` of sequences.py: the first of each value that is not empty
unfoldable pub dedupe_preserving_order : List String → List String
dedupe_preserving_order [] = []
dedupe_preserving_order (x ∷ xs) =
    let rest = dedupe_preserving_order xs in if str_eq x "" then rest else x ∷ without x rest

pub elem_self : (x : String) (xs : List String) → elem x (x ∷ xs) ≡ true
unfolding elem
elem_self x xs = ground (arith, eq_iff x x)

pub length-to_set-le : (xs : List String) → length (to_set xs) ≤ length xs
unfolding to_set
length-to_set-le [] = omega arith
length-to_set-le (x ∷ xs) = ground (arith, length-to_set-le xs)

-- The source's test by lengths is the test that no string occurs twice.
pub distinct-eq-nodup : (xs : List String) → distinct xs ≡ nodup xs
unfolding distinct nodup
distinct-eq-nodup [] = refl
distinct-eq-nodup (x ∷ xs) = ground (arith, distinct-eq-nodup xs, length-to_set-le xs)

pub codes_leb_refl : (xs : List ℕ) → codes_leb xs xs ≡ true
unfolding codes_leb
codes_leb_refl [] = refl
codes_leb_refl (x ∷ xs) = ground (arith, codes_leb_refl xs)

pub codes_leb-total : (xs ys : List ℕ) → codes_leb xs ys ≡ false → codes_leb ys xs ≡ true
unfolding codes_leb
codes_leb-total [] ys h = cc
codes_leb-total (x ∷ xs) [] h = refl
codes_leb-total (x ∷ xs) (y ∷ ys) h = ground (arith, codes_leb-total xs ys)

pub codes_leb_trans :
    (xs ys zs : List ℕ) → codes_leb xs ys ≡ true → codes_leb ys zs ≡ true → codes_leb xs zs ≡ true
unfolding codes_leb
codes_leb_trans [] ys zs h k = refl
codes_leb_trans (x ∷ xs) [] zs h k = cc
codes_leb_trans (x ∷ xs) (y ∷ ys) [] h k = cc
codes_leb_trans (x ∷ xs) (y ∷ ys) (z ∷ zs) h k = ground (arith, codes_leb_trans xs ys zs)

codes_leb_antisymm : (xs ys : List ℕ) → codes_leb xs ys ≡ true → codes_leb ys xs ≡ true → xs ≡ ys
unfolding codes_leb
codes_leb_antisymm [] [] h k = refl
codes_leb_antisymm [] (y ∷ ys) h k = cc
codes_leb_antisymm (x ∷ xs) [] h k = cc
codes_leb_antisymm (x ∷ xs) (y ∷ ys) h k = ground (arith, codes_leb_antisymm xs ys)

codes-injective : (s t : String) → codes s ≡ codes t → s ≡ t
codes-injective String.[] String.[] h = refl
codes-injective String.[] (String.◌∷◌ d t) h = cc
codes-injective (String.◌∷◌ c s) String.[] h = cc
codes-injective (String.◌∷◌ c s) (String.◌∷◌ d t) h =
    ground (arith, Char-path c d, codes-injective s t)

pub str_leb_refl : (s : String) → str_leb s s ≡ true
unfolding str_leb
str_leb_refl s = codes_leb_refl (codes s)

pub str_leb-total : (s t : String) → str_leb s t ≡ false → str_leb t s ≡ true
unfolding str_leb
str_leb-total s t h = codes_leb-total (codes s) (codes t) h

pub str_leb_trans : (s t u : String) → str_leb s t ≡ true → str_leb t u ≡ true → str_leb s u ≡ true
unfolding str_leb
str_leb_trans s t u h k = codes_leb_trans (codes s) (codes t) (codes u) h k

pub str_leb_antisymm : (s t : String) → str_leb s t ≡ true → str_leb t s ≡ true → s ≡ t
unfolding str_leb
str_leb_antisymm s t h k = codes-injective s t (codes_leb_antisymm (codes s) (codes t) h k)

-- What holds of every member of a list holds of a string that is in it.
pub All-elem {ℓ} :
    (P : String → Type ℓ) (x : String) (xs : List String) → All P xs → elem x xs ≡ true → P x
unfolding elem
All-elem P x [] h m = cc
All-elem P x (y ∷ ys) h m = elim (Bool-cases (str_eq y x)) [
  | inl e ↦ subst P ((eq_iff y x).0 e) h.0
  | inr e ↦ All-elem P x ys h.1 (rw e at m)
]

or-true : (b : Bool) → (b || true) ≡ true
or-true true = refl
or-true false = refl

pub elem→All {ℓ} :
    (P : String → Type ℓ) (xs : List String) → ((x : String) → elem x xs ≡ true → P x) → All P xs
unfolding elem
elem→All P [] h = tt
elem→All P (x ∷ xs) h =
    (h x (ground (arith, eq_iff x x)), elem→All P xs (λ y m. h y (rw m (or-true (str_eq x y)))))

pub str_eq_comm : (x y : String) → str_eq x y ≡ str_eq y x
str_eq_comm x y = elim (Bool-cases (str_eq x y)) [
  | inl e ↦ rw ((str_eq_iff x y).0 e) refl
  | inr e ↦ elim (Bool-cases (str_eq y x)) [
    | inl f ↦ rw ((str_eq_iff y x).0 f) refl
    | inr f ↦ e ∙ sym f
  ]
]

pub elem-append : (x : String) (xs ys : List String) → elem x (xs ++ ys) ≡ (elem x xs || elem x ys)
unfolding elem
elem-append x [] ys = refl
elem-append x (y ∷ xs) ys = ground (arith, elem-append x xs ys)

pub nodup-append :
    (x : String) (xs : List String)
    → nodup xs ≡ true
    → elem x xs ≡ false
    → nodup (xs ++ x ∷ []) ≡ true
unfolding nodup elem
nodup-append x [] h k = refl
nodup-append x (y ∷ xs) h k =
    ground (arith, nodup-append x xs, elem-append y xs (x ∷ []), str_eq_comm x y)
