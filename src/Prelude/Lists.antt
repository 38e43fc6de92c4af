-- ===== src/Prelude/Lists.antt =====
-- Lists measured by native numbers, and Python's `any`, `all` and comprehensions with a test.
use Prim.Native.Nat.{ℕ, zero, suc, ◌+◌, ◌≤◌}
use mathlib.Core.Path.{subst, ◌≡◌, refl}
use mathlib.Core.Bool.{Bool, true, false, ◌&&◌, ◌||◌}
use mathlib.Core.Option.{Option, none, some}
use mathlib.Core.List.{List, [], ◌∷◌, ◌++◌}
use native.Mathlib.Omega.{arith}
use long_running_coding_agen.Prelude.Tests.{if◌then◌else◌, Bool-cases}
use mathlib.Core.Logic.{◌⊎◌, inl, inr}

module _ {ℓ} {A : Type ℓ} where
  abbrev pub length : List A → ℕ
  length [] = 0
  length (x ∷ xs) = suc (length xs)

  abbrev pub get_elem? : List A → ℕ → Option A
  get_elem? [] i = none
  get_elem? (x ∷ xs) zero = some x
  get_elem? (x ∷ xs) (suc i) = get_elem? xs i

  -- `any(p(x) for x in xs)`
  unfoldable pub any : (A → Bool) → List A → Bool
  any p [] = false
  any p (x ∷ xs) = p x || any p xs

  -- `all(p(x) for x in xs)`
  unfoldable pub all : (A → Bool) → List A → Bool
  all p [] = true
  all p (x ∷ xs) = p x && all p xs

  -- `[x for x in xs if p(x)]`
  unfoldable pub select : (A → Bool) → List A → List A
  select p [] = []
  select p (x ∷ xs) = let rest = select p xs in if p x then x ∷ rest else rest

  -- `sum(p(x) for x in xs)`
  unfoldable pub count : (A → Bool) → List A → ℕ
  count p [] = 0
  count p (x ∷ xs) = let rest = count p xs in if p x then suc rest else rest

  -- `next((x for x in xs if p(x)), None)`
  unfoldable pub find : (A → Bool) → List A → Option A
  find p [] = none
  find p (x ∷ xs) = let rest = find p xs in if p x then some x else rest

  -- `[x for x in xs if p(x)]` is empty
  abbrev pub is_empty : List A → Bool
  is_empty [] = true
  is_empty (x ∷ xs) = false

-- Every element of a list, in order, has a property.
abbrev pub All {ℓ κ} : {A : Type ℓ} → (A → Type κ) → List A → Type κ
All P [] = Unit
All P (x ∷ xs) = P x × All P xs

module _ {ℓ} {A : Type ℓ} where
  pub length-append : (xs ys : List A) → length (xs ++ ys) ≡ length xs + length ys
  length-append [] ys = omega arith
  length-append (x ∷ xs) ys = omega (arith, length-append xs ys)

  pub count-le-length : (p : A → Bool) (xs : List A) → count p xs ≤ length xs
  unfolding count
  count-le-length p [] = omega arith
  count-le-length p (x ∷ xs) = ground (arith, count-le-length p xs)

  pub length-select : (p : A → Bool) (xs : List A) → length (select p xs) ≡ count p xs
  unfolding select count
  length-select p [] = refl
  length-select p (x ∷ xs) = ground (arith, length-select p xs)

  pub select-All : (p : A → Bool) (xs : List A) → All (λ x. p x ≡ true) (select p xs)
  unfolding select
  select-All p [] = tt
  select-All p (x ∷ xs) = elim (Bool-cases (p x)) [
    | inl e ↦ rw e (e, select-All p xs)
    | inr e ↦ rw e (select-All p xs)
  ]

  pub all→All : (p : A → Bool) (xs : List A) → all p xs ≡ true → All (λ x. p x ≡ true) xs
  unfolding all
  all→All p [] h = tt
  all→All p (x ∷ xs) h = (ground arith, all→All p xs (ground arith))

  pub All→all : (p : A → Bool) (xs : List A) → All (λ x. p x ≡ true) xs → all p xs ≡ true
  unfolding all
  All→all p [] h = refl
  All→all p (x ∷ xs) h = rw h.0 (All→all p xs h.1)

module _ {ℓ} {A : Type ℓ} where
  pub count-append : (p : A → Bool) (xs ys : List A) → count p (xs ++ ys) ≡ count p xs + count p ys
  unfolding count
  count-append p [] ys = omega arith
  count-append p (x ∷ xs) ys = ground (arith, count-append p xs ys)

module _ {ℓ} {A : Type ℓ} where
  -- `{key(x): x for x in xs}.get(k)`, for the test `key(x) == k`: the last one wins.
  unfoldable pub find_last : (A → Bool) → List A → Option A
  find_last p [] = none
  find_last p (x ∷ xs) = elim (find_last p xs) [
    | some y ↦ some y
    | none ↦ if p x then some x else none
  ]

module _ {ℓ} {A : Type ℓ} where
  find_last-cons :
      (p : A → Bool) (x : A) (xs : List A) (t : A)
      → find_last p (x ∷ xs) ≡ some t
      → (find_last p xs ≡ some t) ⊎ ((p x ≡ true) × (x ≡ t))
  unfolding find_last
  find_last-cons p x xs t h = ground arith

module _ {ℓ κ} {A : Type ℓ} where
  -- What is found has what all elements that pass the test have.
  pub find_last-All :
      (Q : A → Type κ) (p : A → Bool) (xs : List A) (t : A)
      → find_last p xs ≡ some t
      → All (λ x. p x ≡ true → Q x) xs
      → Q t
  find_last-All Q p [] t h a = absurd (unfold find_last in cc)
  find_last-All Q p (x ∷ xs) t h a = elim (find_last-cons p x xs t h) [
    | inl e ↦ find_last-All Q p xs t e a.1
    | inr (hit, same) ↦ subst Q same (a.0 hit)
  ]

  find-cons :
      (p : A → Bool) (x : A) (xs : List A) (t : A)
      → find p (x ∷ xs) ≡ some t
      → ((p x ≡ true) × (x ≡ t)) ⊎ (find p xs ≡ some t)
  unfolding find
  find-cons p x xs t h = ground arith

  -- What `find` returns is an element, which passes the test.
  pub find-All :
      (Q : A → Type κ) (p : A → Bool) (xs : List A) (t : A)
      → find p xs ≡ some t
      → All Q xs
      → Q t × (p t ≡ true)
  find-All Q p [] t h a = absurd (unfold find in cc)
  find-All Q p (x ∷ xs) t h a = elim (find-cons p x xs t h) [
    | inl (hit, same) ↦ (subst Q same a.0, subst (λ y. p y ≡ true) same hit)
    | inr e ↦ find-All Q p xs t e a.1
  ]

-- `if b: xs.append(a)`, before what is appended later
unfoldable pub note {ℓ} : {A : Type ℓ} → Bool → A → List A → List A
note b a rest = if b then a ∷ rest else rest

-- The list is empty where its first test fails and the rest is empty.
pub note-quiet {ℓ} :
    {A : Type ℓ} (b : Bool) (a : A) (xs : List A) → note b a xs ≡ [] → (b ≡ false) × (xs ≡ [])
unfolding note
note-quiet true a xs h = cc
note-quiet false a xs h = (refl, h)

pub append-quiet {ℓ} : {A : Type ℓ} (xs ys : List A) → xs ++ ys ≡ [] → (xs ≡ []) × (ys ≡ [])
append-quiet [] ys h = (refl, h)
append-quiet (x ∷ xs) ys h = cc

pub is_empty-nil {ℓ} : {A : Type ℓ} (xs : List A) → is_empty xs ≡ true → xs ≡ []
is_empty-nil [] h = refl
is_empty-nil (x ∷ xs) h = cc
