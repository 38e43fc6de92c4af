-- ===== src/State/Transitions.antt =====
-- src/longrun_agent/state/transitions.py: the task state machine.
-- A call of `transition` reads the clock three times; `clock` gives the three readings. The state
-- comes back beside the error too, since what was assigned before a `raise` stays assigned.
pub mod Frame
pub mod Runs
pub mod Validity
use long_running_coding_agen.Prelude.{
  ℕ, String, Bool, true, false, ◌||◌, Option, none, some, List, [], ◌∷◌, str_eq, if◌then◌else◌,
  Result, ok, raise,
}
use long_running_coding_agen.State.Schema.{
  TaskStatus, pending, ready, in_progress, blocked, candidate_complete, decomposed, failed,
  verification_pending, verified, reopened, TaskNode, ProjectState, status_eq, task_by_id,
  active_is,
}

pub record TransitionRecord : Type 0 where
  pub task_id : String
  pub old_status : TaskStatus
  pub new_status : TaskStatus
  pub reason : String
  pub source : String
  pub timestamp : String

-- The `KeyError` of `task_by_id`, and the `ValueError`s of the controller and of the selector.
pub data StateError : Type 0 where
  key_error : String → StateError
  illegal_transition : TaskStatus → TaskStatus → StateError
  several_in_progress no_reachable_ready_task : StateError

-- The sets of `LEGAL_TRANSITIONS`; a status that is no key of it has the empty set.
unfoldable pub targets : TaskStatus → List TaskStatus
targets pending = ready ∷ []
targets ready = in_progress ∷ failed ∷ []
targets in_progress = ready ∷ blocked ∷ candidate_complete ∷ decomposed ∷ failed ∷ []
targets blocked = ready ∷ decomposed ∷ verification_pending ∷ []
targets candidate_complete = verification_pending ∷ []
targets verification_pending = verified ∷ reopened ∷ blocked ∷ []
targets reopened = ready ∷ blocked ∷ []
targets _ = []

unfoldable pub status_in : TaskStatus → List TaskStatus → Bool
status_in s [] = false
status_in s (t ∷ ts) = status_eq t s || status_in s ts

unfoldable pub legal : TaskStatus → TaskStatus → Bool
unfolding targets status_in status_eq
legal old new = status_in new (targets old)

-- An assignment to fields of the object that `task_by_id` returned: the first task with the id.
unfoldable pub update_task : (TaskNode → TaskNode) → String → List TaskNode → List TaskNode
update_task f i [] = []
update_task f i (t ∷ ts) =
    let rest = t ∷ update_task f i ts in if str_eq t.id i then f t ∷ ts else rest

-- `if new_status == IN_PROGRESS: … elif state.active_task_id == task.id: …`
abbrev pub next_active : TaskStatus → String → Option String → Option String
next_active new i current =
    if status_eq new in_progress then some i else if active_is current i then none else current

abbrev pub apply_status : String → TaskStatus → TaskNode → TaskNode
apply_status now new t = record t { status = new; updated_at = now }

module _ (clock : ℕ → String) where
  -- `StateTransitionController.transition`
  unfoldable pub transition :
      ProjectState
      → String
      → TaskStatus
      → (reason source : String) → Result StateError TransitionRecord × ProjectState
  transition s i new reason source = elim (task_by_id i s.tasks) [
    | none ↦ (raise (key_error i), s)
    | some task ↦
        if legal task.status new
        then (
          ok (record {
            task_id = task.id;
            old_status = task.status;
            new_status = new;
            reason = reason;
            source = source;
            timestamp = clock 2;
          }),
          record s {
            tasks = update_task (apply_status (clock 0) new) i s.tasks;
            active_task_id = next_active new task.id s.active_task_id;
            updated_at = clock 1;
          },
        )
        else (raise (illegal_transition task.status new), s)
  ]
