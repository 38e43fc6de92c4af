-- ===== src/Planning/Acyclic.antt =====
-- `_assert_acyclic` of src/longrun_agent/planning/validator.py: a depth-first search for a cycle.
pub mod Order
pub mod Cycles
pub mod Fuel
use long_running_coding_agen.Prelude.{
  ℕ, zero, suc, String, Bool, true, false, Option, none, some, List, [], ◌∷◌, str_eq, if◌then◌else◌,
  elem, Result, ok, raise,
}

-- The `ValueError`s of the validator, one for each message.
pub data PlanError : Type 0 where
  task_count duplicate_keys empty_acceptance_criteria unknown_key dependency_cycle : PlanError
  maximum_depth child_count duplicate_child_keys not_more_specific : PlanError
  empty_child_criteria unknown_child_key : PlanError

-- `dict[str, list[str]]`, and `dependencies.get(key, [])`
abbrev pub Dependencies : Type 0
Dependencies = List (String × List String)

unfoldable pub dependencies_of : Dependencies → String → List String
dependencies_of [] k = []
dependencies_of ((j, ds) ∷ rest) k =
    let others = dependencies_of rest k in if str_eq j k then ds else others

-- What a search gives: the new `visited`, the exception, or nothing when its fuel has run out.
abbrev pub Search : Type 0
Search = Option (Result PlanError (List String))

abbrev pub and_then : Search → (List String → Search) → Search
and_then none f = none
and_then (some (raise e)) f = some (raise e)
and_then (some (ok visited)) f = f visited

-- A `for` loop that visits each key; `visit visited key` is the call.
unfoldable pub visit_each : (List String → String → Search) → List String → List String → Search
visit_each visit visited [] = some (ok visited)
visit_each visit visited (k ∷ ks) = and_then (visit visited k) (λ seen. visit_each visit seen ks)

module _ (dependencies : Dependencies) where
  -- `visit(key)`. The set `visiting` is as before when a call returns, since `remove` undoes `add`,
  -- so it is an argument; the set `visited` is returned.
  unfoldable pub visit : ℕ → (visiting visited : List String) → String → Search
  unfolding visit_each
  visit zero visiting visited k = none
  visit (suc fuel) visiting visited k =
      let below = visit_each (visit fuel (k ∷ visiting)) visited (dependencies_of dependencies k) in
      if elem k visiting
      then some (raise dependency_cycle)
      else if elem k visited
      then some (ok visited)
      else and_then below (λ seen. some (ok (k ∷ seen)))

  unfoldable pub assert_acyclic : ℕ → List String → Search
  unfolding visit
  assert_acyclic fuel keys = visit_each (visit fuel []) [] keys
