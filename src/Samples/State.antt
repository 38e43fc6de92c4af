-- ===== src/Samples/State.antt =====
-- Small project states, runs on them, and the theorems of `State` at them.
use long_running_coding_agen.Prelude.{
  ◌&&◌, ℕ, String, ◌≡◌, ◌⊎◌, refl, true, false, Option, none, some, List, [], ◌∷◌, All, elem, nodup,
  distinct, to_set, all, any, select, find, str_leb, codes_leb, Result, ok,
}
use long_running_coding_agen.State.Schema.{
  TaskStatus, TaskNode, ProjectState, ProjectStatus, task_node, ids, status_eq, validate_graph,
  validate_tasks, validate_task, validate_parent, task_by_id, parent_ids, leaf_tasks,
}
use long_running_coding_agen.State.Transitions.{
  TransitionRecord, StateError, transition, legal, update_task, targets, status_in,
}
use long_running_coding_agen.State.Transitions.Validity.{transition-validate_graph}
use long_running_coding_agen.State.Transitions.Runs.{Run, MayVerify, Run-verified}
use long_running_coding_agen.State.Selector.{
  update_ready_tasks, ready_loop, ready_step, promotable, completed_ids, satisfies, select_next,
  choose, conclude, sort_tasks, insert_sorted, key_leb,
}
use long_running_coding_agen.State.Selector.Ready.{promote_from, update_ready_tasks_lem}
use long_running_coding_agen.State.Selector.Choice.{IsChosen, select_next-some}
use long_running_coding_agen.State.Aggregation.{
  candidate_policy, verified_policy, aggregate_candidate_complete_parents,
  aggregate_verified_parents, aggregate, sweeps, sweep, children,
}
use long_running_coding_agen.State.Aggregation.Evolution.{EvolvesAll, has_done_children}
use long_running_coding_agen.State.Aggregation.Fixpoint.{
  to_candidate_complete, to_verified, aggregate_candidate_complete_parents_lem,
  aggregate_verified_parents_lem,
}

abbrev clock : ℕ → String
clock n = "t"

abbrev clocks : ℕ → ℕ → String
clocks i n = "t"

abbrev pub node : String → List String → Option String → ℕ → TaskStatus → TaskNode
unfolding task_node
node i deps parent depth status =
    record (task_node clock i i "title" "objective" ("works" ∷ []) deps parent depth) {
      status = status;
    }

abbrev pub project : List TaskNode → Option String → ProjectState
project tasks current = record {
  project_id = "p";
  objective = "o";
  workspace_root = none;
  initial_plan_file = none;
  status = ProjectStatus.active;
  plan_version = 0;
  tasks = tasks;
  active_task_id = current;
  revisions = [];
  session_count = 0;
  project_verification_contract_id = none;
  latest_project_verification_report_id = none;
  project_verification_attempts = 0;
  verified_at = none;
  created_at = "t";
  updated_at = "t";
}

-- What a run of the model computes with.
program : Unit {0}
unfolding task_node elem nodup distinct to_set all any select find str_leb codes_leb status_eq
    validate_graph validate_tasks validate_task validate_parent task_by_id parent_ids leaf_tasks
    transition legal update_task targets status_in update_ready_tasks ready_loop ready_step
    promotable satisfies select_next choose conclude sort_tasks insert_sorted key_leb
    candidate_policy verified_policy aggregate_candidate_complete_parents aggregate_verified_parents
    aggregate sweeps sweep children
program = tt

-- `b` waits for `a`, which is being worked on.
abbrev working : ProjectState
working =
    project
      (node "a" [] none 0 TaskStatus.in_progress
        ∷ node "b" ("a" ∷ []) none 0 TaskStatus.pending
        ∷ [])
      (some "a")

abbrev finished : ProjectState
finished = (transition clock working "a" TaskStatus.candidate_complete "done" "agent").1

-- The record that the call on `working` returns.
abbrev finish_record : Result StateError TransitionRecord
finish_record = (transition clock working "a" TaskStatus.candidate_complete "done" "agent").0

working-valid : validate_graph working ≡ ok tt
unfolding program
working-valid = refl

select_next-working :
    (select_next clocks "t" true finished).0
    ≡ ok (some (node "b" ("a" ∷ []) none 0 TaskStatus.ready))
unfolding program
select_next-working = refl

transition-validate_graph_example : validate_graph finished ≡ ok tt
unfolding program
transition-validate_graph_example =
    transition-validate_graph clock working "a" TaskStatus.candidate_complete "done" "agent"
      (record {
        task_id = "a";
        old_status = TaskStatus.in_progress;
        new_status = TaskStatus.candidate_complete;
        reason = "done";
        source = "agent";
        timestamp = "t";
      })
      refl working-valid (λ h. cc) refl

abbrev claimed : ProjectState
claimed = project (node "a" [] none 0 TaskStatus.candidate_complete ∷ []) none

abbrev checking : ProjectState
checking = (transition clock claimed "a" TaskStatus.verification_pending "check" "gateway").1

abbrev settled : ProjectState
settled = (transition clock checking "a" TaskStatus.verified "passed" "gateway").1

verifying : Run claimed settled
verifying =
    Run.call
      (Run.call Run.here clock "a" TaskStatus.verification_pending "check" "gateway" checking refl)
      clock "a" TaskStatus.verified "passed" "gateway" settled refl

Run-verified_example : (m : ProjectState) × Run claimed m × Run m settled × MayVerify "a" m settled
unfolding program
Run-verified_example = Run-verified "a" TaskStatus.candidate_complete verifying refl (λ e. cc) refl

update_ready_tasks_lem_example :
    ((update_ready_tasks clocks true finished).0
      ≡ ok (ids (select (promotable (completed_ids true finished.tasks)) finished.tasks)))
    × ((update_ready_tasks clocks true finished).1.tasks
        ≡ promote_from clocks (completed_ids true finished.tasks) 0 finished.tasks)
unfolding program
update_ready_tasks_lem_example = update_ready_tasks_lem clocks true finished refl

select_next-some_example :
    ((select (λ t. status_eq t.status TaskStatus.in_progress) finished.tasks
        ≡ node "b" ("a" ∷ []) none 0 TaskStatus.ready ∷ [])
      × ((select_next clocks "t" true finished).1 ≡ record finished { active_task_id = some "b" }))
    ⊎ ((select (λ t. status_eq t.status TaskStatus.in_progress) finished.tasks ≡ [])
        × IsChosen
            (node "b" ("a" ∷ []) none 0 TaskStatus.ready)
            (select_next clocks "t" true finished).1)
unfolding node
select_next-some_example =
    select_next-some clocks "t" true finished (node "b" ("a" ∷ []) none 0 TaskStatus.ready)
      select_next-working

-- A decomposed task, with a child that is done.
abbrev family : ProjectState
family =
    project
      (node "a" [] none 0 TaskStatus.decomposed
        ∷ node "a1" [] (some "a") 1 TaskStatus.verified
        ∷ [])
      none

abbrev passes : ℕ → ℕ → ℕ → String
passes k i n = "t"

aggregate_candidate_complete_parents_lem_example :
    (changed : List String) × (after : ProjectState) × (aggregate_candidate_complete_parents passes
        "t" family
      ≡ some (changed, after))
    × EvolvesAll to_candidate_complete after.tasks family.tasks after.tasks
    × All
        (λ t.
          (to_candidate_complete.is_open t
            && has_done_children to_candidate_complete.is_done t.id after.tasks)
          ≡ false)
        after.tasks
aggregate_candidate_complete_parents_lem_example =
    aggregate_candidate_complete_parents_lem passes "t" family

aggregate_verified_parents_lem_example :
    (changed : List String) × (after : ProjectState) × (aggregate_verified_parents passes "t" family
      ≡ some (changed, after))
    × EvolvesAll to_verified after.tasks family.tasks after.tasks
    × All
        (λ t.
          (to_verified.is_open t && has_done_children to_verified.is_done t.id after.tasks) ≡ false)
        after.tasks
aggregate_verified_parents_lem_example = aggregate_verified_parents_lem passes "t" family
