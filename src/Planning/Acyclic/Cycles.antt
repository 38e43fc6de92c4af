-- ===== src/Planning/Acyclic/Cycles.antt =====
-- The search refuses a graph exactly when it has a cycle: an order as in `IsOrdered` leaves no
-- room for one, and a graph that can be ranked is not refused.
use long_running_coding_agen.Prelude.{
  ℕ, zero, suc, ◌≤◌, ◌<◌, String, ◌≡◌, ◌≢◌, inl, inr, refl, sym, ◌∙◌, true, false, none, some, List,
  [], ◌∷◌, arith, str_eq, str_eq_iff, if◌then◌else◌, elem, All, All-elem, elem→All, length, ok,
  raise, Bool-cases,
}
use long_running_coding_agen.Planning.Acyclic.{
  PlanError, Dependencies, dependencies_of, Search, and_then, visit_each, visit, assert_acyclic,
}
use long_running_coding_agen.Planning.Acyclic.Order.{IsOrdered, visit-old, visit-new}

-- `k` depends on `d`, over one edge or more.
pub data Reaches (deps : Dependencies) (k : String) : String → Type 0 where
  edge : {d : String} → elem d (dependencies_of deps k) ≡ true → Reaches deps k d
  step :
      {j d : String} → Reaches deps k j → elem d (dependencies_of deps j) ≡ true → Reaches deps k d

place : List String → String → ℕ
place [] k = 0
place (v ∷ vs) k = let rest = place vs k in if str_eq v k then suc (length vs) else rest

place-le-length : (vs : List String) (k : String) → place vs k ≤ length vs
unfolding place
place-le-length [] k = omega arith
place-le-length (v ∷ vs) k = ground (arith, place-le-length vs k)

module _ (deps : Dependencies) where
  edge-place :
      (vs : List String) (k d : String)
      → IsOrdered deps vs
      → elem k vs ≡ true
      → elem d (dependencies_of deps k) ≡ true
      → (elem d vs ≡ true) × (place vs d < place vs k)
  unfolding elem place
  edge-place [] k d o m e = cc
  edge-place (v ∷ vs) k d o m e = elim (Bool-cases (str_eq v k)) [
    | inl same ↦
        let v_k = (str_eq_iff v k).0 same in
        let there = All-elem (λ x. elem x vs ≡ true) d (dependencies_of deps v) o.1 (rw v_k e) in
        ground (arith, str_eq_iff v d, place-le-length vs d)
    | inr other ↦
        let (there, less) = edge-place vs k d o.2 (rw other at m) e in
        ground (arith, str_eq_iff v d)
  ]

  Reaches-place :
      (vs : List String) (k d : String)
      → IsOrdered deps vs
      → elem k vs ≡ true
      → Reaches deps k d
      → (elem d vs ≡ true) × (place vs d < place vs k)
  Reaches-place vs k d o m (edge e) = edge-place vs k d o m e
  Reaches-place vs k d o m (step {j = j} r e) =
      let (there, less) = Reaches-place vs k j o m r in
      let (here, lower) = edge-place vs j d o there e in (here, omega arith)

  pub IsOrdered-acyclic :
      (vs : List String) (k : String) → IsOrdered deps vs → elem k vs ≡ true → ¬ Reaches deps k k
  IsOrdered-acyclic vs k o m r = absurd (omega (arith, (Reaches-place vs k k o m r).1))

  -- The search raises nothing where a rank falls along every edge.
  module _ (rank : String → ℕ)
      (falls : (k d : String) → elem d (dependencies_of deps k) ≡ true → rank d < rank k) where
    abbrev Quiet : Search → Type 0
    Quiet r = (e : PlanError) → r ≢ some (raise e)

    and_then-Quiet :
        (m : Search) (f : List String → Search)
        → Quiet m
        → ((v : List String) → Quiet (f v))
        → Quiet (and_then m f)
    and_then-Quiet none f h k e p = cc
    and_then-Quiet (some (raise d)) f h k e p = h d refl
    and_then-Quiet (some (ok v)) f h k e p = k v e p

    visit_each-Quiet :
        (call : List String → String → Search) (ks : List String)
        → All (λ k. (v : List String) → Quiet (call v k)) ks
        → (visited : List String) → Quiet (visit_each call visited ks)
    unfolding visit_each
    visit_each-Quiet call [] h visited e p = cc
    visit_each-Quiet call (k ∷ ks) h visited e p =
        and_then-Quiet (call visited k) (λ v. visit_each call v ks) (h.0 visited)
          (visit_each-Quiet call ks h.1) e p

    above :
        (visiting : List String) (k : String)
        → All (λ x. rank k < rank x) visiting
        → elem k visiting ≡ false
    above visiting k h = elim (Bool-cases (elem k visiting)) [
      | inl m ↦ absurd (omega (arith, All-elem (λ x. rank k < rank x) k visiting h m))
      | inr m ↦ m
    ]

    All-below :
        (visiting : List String) (k d : String)
        → rank d < rank k
        → All (λ x. rank k < rank x) visiting
        → All (λ x. rank d < rank x) visiting
    All-below [] k d h a = tt
    All-below (x ∷ xs) k d h a = (omega arith, All-below xs k d h a.1)

    visit-Quiet :
        (fuel : ℕ) (visiting : List String) (k : String)
        → All (λ x. rank k < rank x) visiting
        → (visited : List String) → Quiet (visit deps fuel visiting visited k)
    visit-Quiet zero visiting k h visited e p = absurd (unfold visit in cc)
    visit-Quiet (suc fuel) visiting k h visited e p = elim (Bool-cases (elem k visited)) [
      | inl b ↦ absurd (cc (visit-old deps fuel visiting visited k (above visiting k h) b))
      | inr b ↦
          and_then-Quiet
            (visit_each (visit deps fuel (k ∷ visiting)) visited (dependencies_of deps k))
            (λ seen. some (ok (k ∷ seen)))
            (visit_each-Quiet (visit deps fuel (k ∷ visiting)) (dependencies_of deps k)
              (elem→All _ (dependencies_of deps k) (λ d m.
                visit-Quiet fuel (k ∷ visiting) d
                  (falls k d m, All-below visiting k d (falls k d m) h)))
              visited)
            (λ v c q. cc) e
            (sym (visit-new deps fuel visiting visited k (above visiting k h) b) ∙ p)
    ]

    -- A graph that can be ranked is not refused, whatever the fuel.
    pub assert_acyclic-ne-raise :
        (fuel : ℕ) (keys : List String) (e : PlanError)
        → assert_acyclic deps fuel keys ≢ some (raise e)
    unfolding assert_acyclic
    assert_acyclic-ne-raise fuel keys e =
        visit_each-Quiet (visit deps fuel []) keys
          (elem→All _ keys (λ k m. visit-Quiet fuel [] k tt)) [] e
