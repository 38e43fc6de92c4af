-- ===== src/Planning/Validator/Accepts.antt =====
-- Which plans the validators accept.
use long_running_coding_agen.Prelude.{
  sym, ◌∙◌, ℕ, suc, ◌≤◌, ◌<◌, String, ◌≡◌, ◌≢◌, inl, inr, refl, true, false, none, some, List, [],
  ◌∷◌, arith, str_eq, length, nodup, distinct, distinct-eq-nodup, elem, All, All-elem, all→All,
  All→all, is_empty, Result, ok, raise, Bool-cases,
}
use long_running_coding_agen.Planning.Protocol.{TaskDraft}
use long_running_coding_agen.Planning.Acyclic.{
  PlanError, Dependencies, dependencies_of, Search, assert_acyclic,
}
use long_running_coding_agen.Planning.Acyclic.Order.{assert_acyclic-IsOrdered}
use long_running_coding_agen.Planning.Acyclic.Cycles.{
  Reaches, IsOrdered-acyclic, assert_acyclic-ne-raise,
}
use long_running_coding_agen.Planning.Acyclic.Fuel.{assert_acyclic-ne-none}
use long_running_coding_agen.Planning.Validator.{
  draft_keys, graph, check_draft, check_drafts, accept, checked, validate_initial,
}

-- The lines of a plan that the loop over the drafts accepts.
abbrev pub IsComplete : List String → TaskDraft → Type 0
IsComplete keys d =
    (is_empty d.acceptance_criteria ≡ false) × All (λ k. elem k keys ≡ true) d.depends_on_keys

-- A plan to be accepted, but for cycles.
pub record IsPlan (min_tasks max_tasks : ℕ) (drafts : List TaskDraft) : Type 0 where
  pub enough : min_tasks ≤ length drafts
  pub not_too_many : length drafts ≤ max_tasks
  pub unique : nodup (draft_keys drafts) ≡ true
  pub complete : All (IsComplete (draft_keys drafts)) drafts

check_drafts-IsComplete :
    (keys : List String) (ds : List TaskDraft)
    → check_drafts keys ds ≡ ok tt
    → All (IsComplete keys) ds
unfolding check_drafts check_draft
check_drafts-IsComplete keys [] h = tt
check_drafts-IsComplete keys (d ∷ ds) h = (
  (ground arith, all→All (λ k. elem k keys) d.depends_on_keys (ground arith)),
  check_drafts-IsComplete keys ds (ground arith),
)

check_drafts-ok :
    (keys : List String) (ds : List TaskDraft)
    → All (IsComplete keys) ds
    → check_drafts keys ds ≡ ok tt
unfolding check_drafts check_draft
check_drafts-ok keys [] h = refl
check_drafts-ok keys (d ∷ ds) h =
    rw (h.0.0, All→all (λ k. elem k keys) d.depends_on_keys h.0.1) (check_drafts-ok keys ds h.1)

-- Both validators end like this. The search is reached only behind the checks.
checked-ok {ℓ} :
    {A : Type ℓ} (a b : A) (r : Result PlanError (Unit {0})) (search : Search)
    → checked a r search ≡ some (ok b)
    → (r ≡ ok tt) × ((after : List String) × (search ≡ some (ok after))) × (b ≡ a)
checked-ok a b (raise e) search h = cc
checked-ok a b (ok _) none h = cc
checked-ok a b (ok _) (some (raise e)) h = cc
checked-ok a b (ok _) (some (ok after)) h = (refl, (after, refl), cc)

checked-none {ℓ} :
    {A : Type ℓ} (a : A) (r : Result PlanError (Unit {0})) (search : Search)
    → (r ≡ ok tt → search ≢ none)
    → checked a r search ≢ none
checked-none a (raise e) search h p = cc
checked-none a (ok _) none h p = h refl refl
checked-none a (ok _) (some (raise e)) h p = cc
checked-none a (ok _) (some (ok after)) h p = cc

accepted {ℓ} :
    {A : Type ℓ} (a : A) (search : Search)
    → search ≢ none
    → ((e : PlanError) → search ≢ some (raise e))
    → accept a search ≡ some (ok a)
accepted a none h k = absurd (h refl)
accepted a (some (raise e)) h k = absurd (k e refl)
accepted a (some (ok after)) h k = refl

-- A key that is not a key of the dictionary depends on nothing.
absent_edge :
    (deps : Dependencies) (keys : List String)
    → All (λ (p : String × List String). All (λ x. elem x keys ≡ true) p.1) deps
    → (k d : String) → elem d (dependencies_of deps k) ≡ true
    → elem d keys ≡ true
unfolding dependencies_of elem
absent_edge [] keys h k d m = cc
absent_edge ((j, ds) ∷ rest) keys h k d m = elim (Bool-cases (str_eq j k)) [
  | inl e ↦ All-elem (λ x. elem x keys ≡ true) d ds h.0 (rw e at m)
  | inr e ↦ absent_edge rest keys h.1 k d (rw e at m)
]

graph_closed :
    (keys : List String) (ds : List TaskDraft)
    → All (IsComplete keys) ds
    → All (λ (p : String × List String). All (λ x. elem x keys ≡ true) p.1) (graph ds)
graph_closed keys [] h = tt
graph_closed keys (d ∷ ds) h = (h.0.1, graph_closed keys ds h.1)

length-draft_keys : (ds : List TaskDraft) → length (draft_keys ds) ≡ length ds
length-draft_keys [] = refl
length-draft_keys (d ∷ ds) = omega (arith, length-draft_keys ds)

module _ (min_tasks max_tasks : ℕ) (drafts : List TaskDraft) where
  abbrev search : Search
  search = assert_acyclic (graph drafts) (suc (length drafts)) (draft_keys drafts)

  search-ends : check_drafts (draft_keys drafts) drafts ≡ ok tt → search ≢ none
  search-ends h =
      let complete = check_drafts-IsComplete (draft_keys drafts) drafts h in
      assert_acyclic-ne-none (graph drafts) (draft_keys drafts)
        (λ k d m e.
          absent_edge (graph drafts) (draft_keys drafts)
            (graph_closed (draft_keys drafts) drafts complete) k d e)
        (suc (length drafts)) (omega (arith, length-draft_keys drafts))

  -- The fuel of the search is enough: the validator returns or raises.
  pub validate_initial-ne-none : validate_initial min_tasks max_tasks drafts ≢ none
  unfolding validate_initial
  validate_initial-ne-none p =
      ground
        (arith, checked-none drafts (check_drafts (draft_keys drafts) drafts) search search-ends)

  validate_initial-guards :
      (result : List TaskDraft)
      → validate_initial min_tasks max_tasks drafts ≡ some (ok result)
      → (min_tasks ≤ length drafts)
        × (length drafts ≤ max_tasks)
        × (distinct (draft_keys drafts) ≡ true)
        × (checked drafts (check_drafts (draft_keys drafts) drafts) search ≡ some (ok result))
  unfolding validate_initial
  validate_initial-guards result h = (ground arith, ground arith, ground arith, ground arith)

  -- A plan that is accepted is returned as it is, is within the bounds with distinct keys, acceptance
  -- criteria and known dependencies (`IsPlan`), and no task reaches itself along the dependencies.
  pub validate_initial_sound :
      (result : List TaskDraft)
      → validate_initial min_tasks max_tasks drafts ≡ some (ok result)
      → (result ≡ drafts)
        × IsPlan min_tasks max_tasks drafts
        × ((k : String) → elem k (draft_keys drafts) ≡ true → ¬ Reaches (graph drafts) k k)
  validate_initial_sound result h =
      let (enough, few, unique, ends) = validate_initial-guards result h in
      let (passes, (after, found), same) =
        checked-ok drafts result (check_drafts (draft_keys drafts) drafts) search ends in
      let (ordered, holds) =
        assert_acyclic-IsOrdered (graph drafts) (suc (length drafts)) (draft_keys drafts) after
          found in
      (
        same,
        record {
          enough = enough;
          not_too_many = few;
          unique = sym (distinct-eq-nodup (draft_keys drafts)) ∙ unique;
          complete = check_drafts-IsComplete (draft_keys drafts) drafts passes;
        },
        λ k m.
            IsOrdered-acyclic (graph drafts) after k ordered
              (All-elem (λ x. elem x after ≡ true) k (draft_keys drafts) holds m),
      )

  -- Drafts that form a plan (`IsPlan`) and can be ranked, so that every key ranks above its
  -- dependencies, are accepted.
  pub validate_initial_complete :
      (rank : String → ℕ)
      → IsPlan min_tasks max_tasks drafts
      → ((k d : String) → elem d (dependencies_of (graph drafts) k) ≡ true → rank d < rank k)
      → validate_initial min_tasks max_tasks drafts ≡ some (ok drafts)
  unfolding validate_initial
  validate_initial_complete rank plan falls =
      let passes = check_drafts-ok (draft_keys drafts) drafts plan.complete in
      let accepts = accepted drafts search (search-ends passes) (
        assert_acyclic-ne-raise (graph drafts) rank falls (suc (length drafts))
          (draft_keys drafts)) in
      ground
        (arith, plan.enough, plan.not_too_many, plan.unique, distinct-eq-nodup (draft_keys drafts))
