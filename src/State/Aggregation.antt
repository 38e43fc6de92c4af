-- ===== src/State/Aggregation.antt =====
-- src/longrun_agent/state/aggregation.py: a decomposed task follows its children.
-- `clock` gives the readings of the clock by pass, by position in the task list and in order.
pub mod Evolution
pub mod Loop
pub mod Fixpoint
use long_running_coding_agen.Prelude.{
  ℕ, zero, suc, ◌+◌, String, Bool, true, false, not, ◌&&◌, ◌||◌, Option, none, some, List, [], ◌∷◌,
  ◌++◌, str_eq, if◌then◌else◌, length, get_elem?, all, select, is_empty,
}
use long_running_coding_agen.State.Schema.{
  TaskStatus, candidate_complete, decomposed, verified, TaskNode, ProjectState, has_status,
}

abbrev pub is_child_of : String → TaskNode → Bool
is_child_of i t = elim t.parent_id [ none ↦ false | some p ↦ str_eq p i ]

-- `[candidate for candidate in state.tasks if candidate.parent_id == task.id]`
unfoldable pub children : List TaskNode → TaskNode → List TaskNode
children tasks t = select (is_child_of t.id) tasks

abbrev pub child_done : TaskNode → Bool
child_done t = has_status candidate_complete t || has_status verified t

-- What the two functions of the source differ in: the test on a task, and what is written to it.
pub record Policy : Type 0 where
  pub applies : List TaskNode → TaskNode → Bool
  pub finish : (ℕ → String) → TaskNode → TaskNode

unfoldable pub candidate_policy : Policy
unfolding children
candidate_policy = record {
  applies = λ tasks t.
      let cs = children tasks t in
      has_status decomposed t && (not (is_empty cs) && all child_done cs);
  finish = λ now t. record t {
    status = candidate_complete;
    completion_summary = some "All child tasks are candidate complete.";
    updated_at = now 0;
  };
}

-- `task.verification_contract_id` is true for a string that is not empty.
abbrev pub has_contract : TaskNode → Bool
has_contract t = elim t.verification_contract_id [ none ↦ false | some c ↦ not (str_eq c "") ]

unfoldable pub verified_policy : Policy
unfolding children
verified_policy = record {
  applies = λ tasks t.
      let cs = children tasks t in
      ((has_status decomposed t || has_status candidate_complete t) && not (has_contract t))
      && (not (is_empty cs) && all (has_status verified) cs);
  finish = λ now t. record t {
    status = verified;
    verification_status = some "verified_by_children";
    verified_at = some (now 0);
    updated_at = now 1;
  };
}

-- What a pass over the tasks carries: those behind it, as it left them, and the ids it changed.
pub record Pass : Type 0 where
  pub tasks : List TaskNode
  pub changed : List String
  pub updated : Bool

module _ (p : Policy) where
  -- `for task in state.tasks`: `done` are the tasks before, each as the loop left it.
  unfoldable pub sweep :
      (ℕ → ℕ → String) → List TaskNode → List TaskNode → List String → Bool → Pass
  sweep clock done [] changed updated = record {
    tasks = done;
    changed = changed;
    updated = updated;
  }
  sweep clock done (t ∷ rest) changed updated =
      let hit = p.applies (done ++ t ∷ rest) t in
      sweep clock (done ++ (if hit then p.finish (clock (length done)) t else t) ∷ []) rest
        (if hit then changed ++ t.id ∷ [] else changed) (hit || updated)

  -- `while True`, on fuel; `none` when the fuel ends before the loop does.
  unfoldable pub sweeps :
      (ℕ → ℕ → ℕ → String) → ℕ → List TaskNode → List String → Option (List TaskNode × List String)
  unfolding sweep
  sweeps clock zero tasks changed = none
  sweeps clock (suc fuel) tasks changed =
      let pass = sweep (clock fuel) [] tasks changed false in
      let again = sweeps clock fuel pass.tasks pass.changed in
      if pass.updated then again else some (pass.tasks, pass.changed)

  -- Each pass but the last finishes a task, so there are no more passes than tasks and one.
  unfoldable pub aggregate :
      (ℕ → ℕ → ℕ → String) → (now : String) → ProjectState → Option (List String × ProjectState)
  unfolding sweeps
  aggregate clock now s = elim (sweeps clock (suc (length s.tasks)) s.tasks []) [
    | none ↦ none
    | some (tasks, changed) ↦ some (
      changed,
      record s { tasks = tasks; updated_at = if is_empty changed then s.updated_at else now },
    )
  ]

unfoldable pub aggregate_candidate_complete_parents :
    (ℕ → ℕ → ℕ → String) → (now : String) → ProjectState → Option (List String × ProjectState)
unfolding aggregate candidate_policy
aggregate_candidate_complete_parents = aggregate candidate_policy

unfoldable pub aggregate_verified_parents :
    (ℕ → ℕ → ℕ → String) → (now : String) → ProjectState → Option (List String × ProjectState)
unfolding aggregate verified_policy
aggregate_verified_parents = aggregate verified_policy
