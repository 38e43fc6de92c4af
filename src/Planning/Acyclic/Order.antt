-- ===== src/Planning/Acyclic/Order.antt =====
-- What the search has visited is in topological order, so an accepted graph has no cycle; and a
-- graph without cycles is not refused.
use long_running_coding_agen.Prelude.{
  subst, ℕ, zero, suc, String, ◌≡◌, inl, inr, refl, sym, ◌∙◌, true, false, none, some, List, [],
  ◌∷◌, arith, str_eq_iff, elem, All, ok, raise, Bool-cases,
}
use long_running_coding_agen.Planning.Acyclic.{
  dependency_cycle, Dependencies, dependencies_of, Search, and_then, visit_each, visit,
  assert_acyclic,
}

module _ (deps : Dependencies) where
  -- Each key stands before the keys that it depends on, and once.
  abbrev pub IsOrdered : List String → Type 0
  IsOrdered [] = Unit
  IsOrdered (k ∷ ks) =
      (elem k ks ≡ false) × All (λ d. elem d ks ≡ true) (dependencies_of deps k) × IsOrdered ks

  -- What a search that returned `after` did to `visited`, the keys `ks` being asked for.
  record Visits (visiting visited ks after : List String) : Type 0 where
    ordered : IsOrdered visited → IsOrdered after
    holds : All (λ k. elem k after ≡ true) ks
    keeps : (x : String) → elem x visited ≡ true → elem x after ≡ true
    untouched : (x : String) → elem x visiting ≡ true → elem x after ≡ elem x visited

  and_then-ok :
      (m : Search) (f : List String → Search) {after : List String}
      → and_then m f ≡ some (ok after)
      → (seen : List String) × (m ≡ some (ok seen)) × (f seen ≡ some (ok after))
  and_then-ok none f h = cc
  and_then-ok (some (raise e)) f h = cc
  and_then-ok (some (ok seen)) f h = (seen, refl, h)

  -- `call` is a call of `visit` that keeps to this contract.
  abbrev Keeps : List String → (List String → String → Search) → Type 0
  Keeps visiting call =
      (visited after : List String) (k : String)
      → call visited k ≡ some (ok after)
      → Visits visiting visited (k ∷ []) after

  visit_each-Visits :
      (visiting : List String) (call : List String → String → Search)
      → Keeps visiting call
      → (ks visited after : List String) → visit_each call visited ks ≡ some (ok after)
      → Visits visiting visited ks after
  unfolding visit_each
  visit_each-Visits visiting call keep [] visited after h =
      let same : visited ≡ after = cc in
      subst (Visits visiting visited []) same
        (record { ordered = λ o. o; holds = tt; keeps = λ x m. m; untouched = λ x m. refl })
  visit_each-Visits visiting call keep (k ∷ ks) visited after h =
      let (seen, first, others) = and_then-ok (call visited k) (λ v. visit_each call v ks) h in
      let a = keep visited seen k first in
      let b = visit_each-Visits visiting call keep ks seen after others in
      record {
        ordered = λ o. b.ordered (a.ordered o);
        holds = (b.keeps k a.holds.0, b.holds);
        keeps = λ x m. b.keeps x (a.keeps x m);
        untouched = λ x m. b.untouched x m ∙ a.untouched x m;
      }

  pub visit-new :
      (fuel : ℕ) (visiting visited : List String) (k : String)
      → elem k visiting ≡ false
      → elem k visited ≡ false
      → visit deps (suc fuel) visiting visited k
        ≡ and_then
            (visit_each (visit deps fuel (k ∷ visiting)) visited (dependencies_of deps k))
            (λ seen. some (ok (k ∷ seen)))
  unfolding visit
  visit-new fuel visiting visited k a b = rw (a, b) refl

  pub visit-old :
      (fuel : ℕ) (visiting visited : List String) (k : String)
      → elem k visiting ≡ false
      → elem k visited ≡ true
      → visit deps (suc fuel) visiting visited k ≡ some (ok visited)
  unfolding visit
  visit-old fuel visiting visited k a b = rw (a, b) refl

  pub visit-cycle :
      (fuel : ℕ) (visiting visited : List String) (k : String)
      → elem k visiting ≡ true
      → visit deps (suc fuel) visiting visited k ≡ some (raise dependency_cycle)
  unfolding visit
  visit-cycle fuel visiting visited k a = rw a refl

  visited-cons :
      (visiting visited seen : List String) (k : String)
      → elem k visiting ≡ false
      → elem k visited ≡ false
      → Visits (k ∷ visiting) visited (dependencies_of deps k) seen
      → Visits visiting visited (k ∷ []) (k ∷ seen)
  unfolding elem
  visited-cons visiting visited seen k a b w = record {
    ordered = λ o. (w.untouched k (ground (arith, str_eq_iff k k)) ∙ b, w.holds, w.ordered o);
    holds = (ground (arith, str_eq_iff k k), tt);
    keeps = λ x m. ground (arith, w.keeps x m);
    untouched = λ x m. ground (arith, w.untouched x, str_eq_iff k x);
  }

  visit-Visits :
      (fuel : ℕ) (visiting visited after : List String) (k : String)
      → visit deps fuel visiting visited k ≡ some (ok after)
      → Visits visiting visited (k ∷ []) after
  visit-Visits zero visiting visited after k h = absurd (unfold visit in cc)
  visit-Visits (suc fuel) visiting visited after k h = elim (Bool-cases (elem k visiting)) [
    | inl a ↦ absurd (cc (visit-cycle fuel visiting visited k a))
    | inr a ↦ elim (Bool-cases (elem k visited)) [
      | inl b ↦
          let same : visited ≡ after = cc (visit-old fuel visiting visited k a b) in
          subst (Visits visiting visited (k ∷ [])) same (record {
            ordered = λ o. o;
            holds = (b, tt);
            keeps = λ x m. m;
            untouched = λ x m. refl;
          })
      | inr b ↦
          let (seen, below, last) =
            and_then-ok _ _ (sym (visit-new fuel visiting visited k a b) ∙ h) in
          let same : k ∷ seen ≡ after = cc in
          subst (Visits visiting visited (k ∷ [])) same (
            visited-cons visiting visited seen k a b (
              visit_each-Visits (k ∷ visiting) (visit deps fuel (k ∷ visiting))
                (visit-Visits fuel (k ∷ visiting)) (dependencies_of deps k) visited seen below))
    ]
  ]

  -- The keys of an accepted graph stand in an order in which each depends on later ones only.
  pub assert_acyclic-IsOrdered :
      (fuel : ℕ) (keys after : List String)
      → assert_acyclic deps fuel keys ≡ some (ok after)
      → IsOrdered after × All (λ k. elem k after ≡ true) keys
  unfolding assert_acyclic
  assert_acyclic-IsOrdered fuel keys after h =
      let w = visit_each-Visits [] (visit deps fuel []) (visit-Visits fuel []) keys [] after h in
      (w.ordered tt, w.holds)
