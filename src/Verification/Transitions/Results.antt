-- ===== src/Verification/Transitions/Results.antt =====
-- What the transitions and the names of their states say of the results they were made from.
use long_running_coding_agen.Prelude.{
  find_last-All, String, ◌≡◌, inl, inr, refl, Bool, true, false, Option, none, some, List, [], ◌∷◌,
  arith, str_eq, str_eq_iff, length, any, select, count, count-le-length, All, Bool-cases,
}
use long_running_coding_agen.Verification.Schema.{
  integrity, kind_eq, ExecutionStatus, passed, failed, is_passed, TestTransition, f2p, p2p,
  transition_eq, CheckTransitionResult,
}
use long_running_coding_agen.Verification.Transitions.{
  shows, shows_passed, Floats, compute_transition, result_of, status_or_skipped, build_transition,
  build_transitions, transition_of, Check, Execution,
}

module _ {ℓ} {A : Type ℓ} where
  -- All pass where as many pass as there are.
  pub count-length-All :
      (p : A → Bool) (xs : List A) → count p xs ≡ length xs → All (λ x. p x ≡ true) xs
  unfolding count
  count-length-All p [] h = tt
  count-length-All p (x ∷ xs) h = elim (Bool-cases (p x)) [
    | inl e ↦ (e, count-length-All p xs (ground arith))
    | inr e ↦ absurd (ground (arith, count-le-length p xs))
  ]

  -- A comprehension's elements pass what the list's elements pass that its test lets through.
  pub All-select :
      (P : A → Type 0) (p : A → Bool) (xs : List A)
      → All P (select p xs)
      → All (λ x. p x ≡ true → P x) xs
  unfolding select
  All-select P p [] h = tt
  All-select P p (x ∷ xs) h = elim (Bool-cases (p x)) [
    | inl e ↦ let k : All P (x ∷ select p xs) = rw e at h in (λ _. k.0, All-select P p xs k.1)
    | inr e ↦ (λ q. cc, All-select P p xs (rw e at h))
  ]

  pub All-mono : (P Q : A → Type 0) (xs : List A) → ((x : A) → P x → Q x) → All P xs → All Q xs
  All-mono P Q [] f h = tt
  All-mono P Q (x ∷ xs) f h = (f x h.0, All-mono P Q xs f h.1)

  pub any-false-All : (p : A → Bool) (xs : List A) → any p xs ≡ false → All (λ x. p x ≡ false) xs
  unfolding any
  any-false-All p [] h = tt
  any-false-All p (x ∷ xs) h = (ground arith, any-false-All p xs (ground arith))

pub shows-some :
    (t : TestTransition) (o : Option CheckTransitionResult)
    → shows t o ≡ true
    → (r : CheckTransitionResult) × (o ≡ some r) × (transition_eq r.transition t ≡ true)
shows-some t none h = cc
shows-some t (some r) h = (r, refl, h)

pub shows_passed-some :
    (o : Option CheckTransitionResult)
    → shows_passed o ≡ true
    → (r : CheckTransitionResult) × (o ≡ some r) × (is_passed r.candidate_status ≡ true)
shows_passed-some none h = cc
shows_passed-some (some r) h = (r, refl, h)

module _ (floats : Floats) where
  -- There is a result, and it has the status.
  abbrev pub HasStatus : ExecutionStatus → Option (Execution floats) → Type 0
  HasStatus status o = (r : Execution floats) × (o ≡ some r) × (r.status ≡ status)

  -- The last result for the check has the status.
  abbrev pub Ran : ExecutionStatus → String → List (Execution floats) → Type 0
  Ran status i results =
      (r : Execution floats) × (result_of floats i results ≡ some r) × (r.status ≡ status)

  module _ (before after : List (Execution floats)) where
    pub record OfResults (i : String) (t : CheckTransitionResult) : Type 0 where
      pub transition :
          t.transition
          ≡ compute_transition floats (result_of floats i before) (result_of floats i after)
      pub candidate_status :
          t.candidate_status ≡ status_or_skipped floats (result_of floats i after)

    pub build_transition-OfResults :
        (c : Check floats) (i : String)
        → str_eq c.check_id i ≡ true
        → OfResults i (build_transition floats before after c)
    unfolding build_transition
    build_transition-OfResults c i e =
        rw (← (str_eq_iff c.check_id i).0 e) (record { transition = refl; candidate_status = refl })

    pub build_transitions-OfResults :
        (i : String) (cs : List (Check floats))
        → All
            (λ t. str_eq t.check_id i ≡ true → OfResults i t)
            (build_transitions floats cs before after)
    unfolding build_transitions
    build_transitions-OfResults i [] = tt
    build_transitions-OfResults i (c ∷ cs) = elim (Bool-cases (kind_eq c.kind integrity)) [
      | inl e ↦ rw e (build_transitions-OfResults i cs)
      | inr e ↦ rw e (
        unfold build_transition in λ h. build_transition-OfResults c i h,
        build_transitions-OfResults i cs,
      )
    ]

    pub transition_of-OfResults :
        (i : String) (cs : List (Check floats)) (t : CheckTransitionResult)
        → transition_of floats i (build_transitions floats cs before after) ≡ some t
        → OfResults i t
    transition_of-OfResults i cs t h =
        find_last-All (OfResults i) (λ r. str_eq r.check_id i)
          (build_transitions floats cs before after) t h (build_transitions-OfResults i cs)

  -- What the names of the transitions and the status say of the results.
  pub f2p-HasStatus :
      (a b : Option (Execution floats))
      → transition_eq (compute_transition floats a b) f2p ≡ true
      → HasStatus failed a × HasStatus passed b
  unfolding compute_transition transition_eq
  f2p-HasStatus none none h = cc
  f2p-HasStatus none (some b) h = absurd (ground arith)
  f2p-HasStatus (some a) none h = absurd (ground arith)
  f2p-HasStatus (some a) (some b) h = ((a, refl, ground arith), (b, refl, ground arith))

  pub p2p-HasStatus :
      (a b : Option (Execution floats))
      → transition_eq (compute_transition floats a b) p2p ≡ true
      → HasStatus passed a × HasStatus passed b
  unfolding compute_transition transition_eq
  p2p-HasStatus none none h = cc
  p2p-HasStatus none (some b) h = absurd (ground arith)
  p2p-HasStatus (some a) none h = absurd (ground arith)
  p2p-HasStatus (some a) (some b) h = ((a, refl, ground arith), (b, refl, ground arith))

  pub is_passed-HasStatus :
      (b : Option (Execution floats))
      → is_passed (status_or_skipped floats b) ≡ true
      → HasStatus passed b
  unfolding is_passed
  is_passed-HasStatus none h = cc
  is_passed-HasStatus (some b) h = (b, refl, ground arith)
