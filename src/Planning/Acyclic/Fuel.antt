-- ===== src/Planning/Acyclic/Fuel.antt =====
-- The search ends: each call below another has one more key in `visiting`, and all keys are of a
-- list that holds the dependencies of its members.
use long_running_coding_agen.Prelude.{
  ℕ, zero, suc, ◌≤◌, ◌<◌, String, ◌≡◌, ◌≢◌, inl, inr, refl, sym, ◌∙◌, true, false, not, none, some,
  List, [], ◌∷◌, arith, str_eq_iff, elem, All, elem→All, count, count-le-length, length, ok, raise,
  Bool-cases,
}
use long_running_coding_agen.Planning.Acyclic.{
  Dependencies, dependencies_of, Search, and_then, visit_each, visit, assert_acyclic,
}
use long_running_coding_agen.Planning.Acyclic.Order.{visit-cycle, visit-old, visit-new}

-- The keys of `all` that are not being visited.
abbrev waiting : List String → List String → ℕ
waiting all visiting = count (λ u. not (elem u visiting)) all

waiting-le :
    (all visiting : List String) (k : String) → waiting all (k ∷ visiting) ≤ waiting all visiting
unfolding count elem
waiting-le [] visiting k = omega arith
waiting-le (u ∷ us) visiting k = ground (arith, waiting-le us visiting k)

waiting-lt :
    (all visiting : List String) (k : String)
    → elem k all ≡ true
    → elem k visiting ≡ false
    → waiting all (k ∷ visiting) < waiting all visiting
unfolding count elem
waiting-lt [] visiting k m h = cc
waiting-lt (u ∷ us) visiting k m h =
    ground
      (arith, waiting-lt us visiting k, waiting-le us visiting k, str_eq_iff u k, str_eq_iff k u)

module _ (deps : Dependencies) (all : List String)
    (closed : (k d : String)
      → elem k all ≡ true
      → elem d (dependencies_of deps k) ≡ true
      → elem d all ≡ true) where
  and_then-ne-none :
      (m : Search) (f : List String → Search)
      → m ≢ none
      → ((v : List String) → f v ≢ none)
      → and_then m f ≢ none
  and_then-ne-none none f h k p = h refl
  and_then-ne-none (some (raise d)) f h k p = cc
  and_then-ne-none (some (ok v)) f h k p = k v p

  visit_each-ne-none :
      (call : List String → String → Search) (ks : List String)
      → All (λ k. (v : List String) → call v k ≢ none) ks
      → (visited : List String) → visit_each call visited ks ≢ none
  unfolding visit_each
  visit_each-ne-none call [] h visited p = cc
  visit_each-ne-none call (k ∷ ks) h visited p =
      and_then-ne-none (call visited k) (λ v. visit_each call v ks) (h.0 visited)
        (visit_each-ne-none call ks h.1) p

  visit-ne-none :
      (fuel : ℕ) (visiting : List String) (k : String)
      → elem k all ≡ true
      → waiting all visiting < fuel
      → (visited : List String) → visit deps fuel visiting visited k ≢ none
  visit-ne-none zero visiting k m h visited p = absurd (omega arith)
  visit-ne-none (suc fuel) visiting k m h visited p = elim (Bool-cases (elem k visiting)) [
    | inl a ↦ cc (visit-cycle deps fuel visiting visited k a)
    | inr a ↦ elim (Bool-cases (elem k visited)) [
      | inl b ↦ cc (visit-old deps fuel visiting visited k a b)
      | inr b ↦
          let less = waiting-lt all visiting k m a in
          and_then-ne-none
            (visit_each (visit deps fuel (k ∷ visiting)) visited (dependencies_of deps k))
            (λ seen. some (ok (k ∷ seen)))
            (visit_each-ne-none (visit deps fuel (k ∷ visiting)) (dependencies_of deps k)
              (elem→All _ (dependencies_of deps k)
                (λ d e. visit-ne-none fuel (k ∷ visiting) d (closed k d m e) (omega arith)))
              visited)
            (λ v q. cc) (sym (visit-new deps fuel visiting visited k a b) ∙ p)
    ]
  ]

  pub assert_acyclic-ne-none : (fuel : ℕ) → length all < fuel → assert_acyclic deps fuel all ≢ none
  unfolding assert_acyclic
  assert_acyclic-ne-none fuel h =
      let bound = count-le-length (λ u. not (elem u [])) all in
      visit_each-ne-none (visit deps fuel []) all
        (elem→All _ all (λ k m. visit-ne-none fuel [] k m (omega arith))) []
