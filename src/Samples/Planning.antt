-- ===== src/Samples/Planning.antt =====
-- A small plan, the validator on it, and the theorems of `Planning` at it.
use long_running_coding_agen.Prelude.{
  Bool-cases, inl, inr, str_eq_iff, ℕ, String, ◌≡◌, ◌≢◌, refl, true, none, some, List, [], ◌∷◌,
  arith, elem, nodup, distinct, to_set, all, ok, raise, str_eq, if◌then◌else◌, ◌<◌,
}
use long_running_coding_agen.State.Schema.{TaskNode, keys, validate_graph}
use long_running_coding_agen.Planning.Protocol.{TaskDraft}
use long_running_coding_agen.Planning.Acyclic.{
  dependency_cycle, dependencies_of, visit, visit_each, assert_acyclic,
}
use long_running_coding_agen.Planning.Acyclic.Cycles.{Reaches}
use long_running_coding_agen.Planning.Validator.{
  draft_keys, graph, check_draft, check_drafts, validate_initial,
}
use long_running_coding_agen.Planning.Validator.Accepts.{
  IsPlan, validate_initial_sound, validate_initial_complete, validate_initial-ne-none,
}
use long_running_coding_agen.Planning.Nodes.{to_task_nodes}
use long_running_coding_agen.Planning.Nodes.Valid.{to_task_nodes-validate_graph}
use long_running_coding_agen.Samples.State.{project}

abbrev draft : String → List String → TaskDraft
draft key deps = record {
  key = key;
  title = "title";
  objective = "objective";
  acceptance_criteria = "works" ∷ [];
  depends_on_keys = deps;
}

-- `test` waits for `code`.
abbrev plan : List TaskDraft
plan = draft "test" ("code" ∷ []) ∷ draft "code" [] ∷ []

abbrev circle : List TaskDraft
circle = draft "test" ("code" ∷ []) ∷ draft "code" ("test" ∷ []) ∷ []

abbrev clocks : ℕ → ℕ → String
clocks i n = "t"

program : Unit {0}
unfolding elem nodup distinct to_set all visit visit_each assert_acyclic dependencies_of check_draft
    check_drafts validate_initial
program = tt

plan-accepted : validate_initial 1 5 plan ≡ some (ok plan)
unfolding program
plan-accepted = refl

circle-refused : validate_initial 1 5 circle ≡ some (raise dependency_cycle)
unfolding program
circle-refused = refl

validate_initial-ne-none_example : validate_initial 1 5 circle ≢ none
validate_initial-ne-none_example = validate_initial-ne-none 1 5 circle

validate_initial_sound_example :
    (plan ≡ plan)
    × IsPlan 1 5 plan
    × ((k : String) → elem k (draft_keys plan) ≡ true → ¬ Reaches (graph plan) k k)
validate_initial_sound_example = validate_initial_sound 1 5 plan plan plan-accepted

plan-IsPlan : IsPlan 1 5 plan
unfolding program
plan-IsPlan = record {
  enough = omega arith;
  not_too_many = omega arith;
  unique = refl;
  complete = ((refl, (refl, tt)), ((refl, tt), tt));
}

abbrev rank : String → ℕ
rank k = if str_eq k "test" then 1 else 0

plan-falls : (k d : String) → elem d (dependencies_of (graph plan) k) ≡ true → rank d < rank k
unfolding program
plan-falls k d h = elim (Bool-cases (str_eq "test" k)) [
  | inl e ↦ elim (Bool-cases (str_eq "code" d)) [
    | inl c ↦ rw (← (str_eq_iff "test" k).0 e, ← (str_eq_iff "code" d).0 c) (omega arith)
    | inr c ↦ absurd (cc (rw (e, c) at h))
  ]
  | inr e ↦ elim (Bool-cases (str_eq "code" k)) [
    | inl c ↦ absurd (cc (rw (e, c) at h))
    | inr c ↦ absurd (cc (rw (e, c) at h))
  ]
]

validate_initial_complete_example : validate_initial 1 5 plan ≡ some (ok plan)
validate_initial_complete_example = validate_initial_complete 1 5 plan rank plan-IsPlan plan-falls

to_task_nodes-validate_graph_example :
    (nodes : List TaskNode) × (to_task_nodes clocks "p" plan ≡ ok nodes)
    × (keys nodes ≡ draft_keys plan)
    × (validate_graph (record (project [] none) { tasks = nodes }) ≡ ok tt)
to_task_nodes-validate_graph_example =
    to_task_nodes-validate_graph clocks "p" 1 5 plan (project [] none) plan-accepted refl
