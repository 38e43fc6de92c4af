-- ===== src/State/Selector.antt =====
-- src/longrun_agent/state/selector.py: which task runs next.
-- `clock i` gives the readings of the transition at position `i` of the task list.
pub mod Ready
pub mod Choice
use long_running_coding_agen.Prelude.{
  ◌++◌, ℕ, zero, suc, ◌+◌, String, Bool, true, false, not, ◌&&◌, ◌||◌, Option, none, some, List, [],
  ◌∷◌, ltb, ◌==◌, str_eq, str_leb, if◌then◌else◌, length, get_elem?, elem, any, all, select,
  is_empty, Result, ok, raise,
}
use long_running_coding_agen.State.Schema.{
  ProjectStatus, TaskStatus, pending, ready, in_progress, blocked, candidate_complete, verified,
  TaskNode, ProjectState, has_status, ids, leaf_tasks,
}
use long_running_coding_agen.State.Transitions.{
  StateError, several_in_progress, no_reachable_ready_task, TransitionRecord, transition,
}

-- `satisfied`: with `dependency_satisfaction == "candidate_complete"` a candidate counts too.
unfoldable pub satisfies : Bool → TaskNode → Bool
satisfies candidates t = has_status verified t || (candidates && has_status candidate_complete t)

abbrev pub completed_ids : Bool → List TaskNode → List String
completed_ids candidates tasks = ids (select (satisfies candidates) tasks)

unfoldable pub promotable : List String → TaskNode → Bool
promotable completed t = has_status pending t && all (λ d. elem d completed) t.dependencies

-- `(task.depth, task.created_at, task.id)`, compared as tuples
unfoldable pub key_leb : TaskNode → TaskNode → Bool
key_leb a b =
    ltb a.depth b.depth
    || ((a.depth == b.depth)
        && (if str_eq a.created_at b.created_at
            then str_leb a.id b.id
            else str_leb a.created_at b.created_at))

-- `sorted` is stable: an element goes before the first one that is larger or equal.
unfoldable pub insert_sorted : TaskNode → List TaskNode → List TaskNode
insert_sorted x [] = x ∷ []
insert_sorted x (y ∷ ys) =
    let rest = y ∷ insert_sorted x ys in if key_leb x y then x ∷ y ∷ ys else rest

unfoldable pub sort_tasks : List TaskNode → List TaskNode
unfolding insert_sorted
sort_tasks [] = []
sort_tasks (x ∷ xs) = insert_sorted x (sort_tasks xs)

abbrev then_ready :
    List String
    → String
    → Result StateError TransitionRecord × ProjectState
    → Result StateError (List String) × ProjectState
then_ready ready_ids i (r, s) = elim r [
  | raise e ↦ (raise e, s)
  | ok _ ↦ (ok (ready_ids ++ i ∷ []), s)
]

module _ (clock : ℕ → ℕ → String) where
  -- One round of the loop of `update_ready_tasks`, at position `i`, with `ready` so far. It reads
  -- the task at the position as the rounds before have left it.
  unfoldable pub ready_step :
      List String → ℕ → List String → ProjectState → Result StateError (List String) × ProjectState
  ready_step completed i ready_ids s = elim (get_elem? s.tasks i) [
    | none ↦ (ok ready_ids, s)
    | some task ↦
        if promotable completed task
        then then_ready ready_ids task.id
            (transition (clock i) s task.id ready "dependencies candidate complete" "selector")
        else (ok ready_ids, s)
  ]

  -- The loop from position `i` on, with `left` positions to go.
  unfoldable pub ready_loop :
      (completed : List String) (left i : ℕ)
      → List String
      → ProjectState
      → Result StateError (List String) × ProjectState
  ready_loop completed zero i ready_ids s = (ok ready_ids, s)
  ready_loop completed (suc left) i ready_ids s =
      let (r, s') = ready_step completed i ready_ids s in
      elim r [ raise e ↦ (raise e, s') | ok more ↦ ready_loop completed left (i + 1) more s' ]

  unfoldable pub update_ready_tasks :
      Bool → ProjectState → Result StateError (List String) × ProjectState
  unfolding ready_loop ready_step
  update_ready_tasks candidates s =
      ready_loop (completed_ids candidates s.tasks) (length s.tasks) 0 [] s

abbrev finished : TaskNode → Bool
finished t = has_status candidate_complete t || has_status verified t

abbrev unfinished : TaskNode → Bool
unfinished t = has_status pending t || has_status ready t || has_status in_progress t

-- The part of `select_next` behind the search for a ready task.
unfoldable pub conclude : String → ProjectState → Result StateError (Option TaskNode) × ProjectState
conclude now s =
    let leaves = leaf_tasks s.tasks in
    if not (is_empty leaves) && all finished leaves
    then (ok none, record s { status = ProjectStatus.candidate_complete; updated_at = now })
    else if any (has_status blocked) s.tasks
    then (ok none, record s { status = ProjectStatus.blocked; updated_at = now })
    else if any unfinished s.tasks
    then (raise no_reachable_ready_task, s)
    else (ok none, s)

-- The part of `select_next` behind the update of the ready tasks.
unfoldable pub choose : String → ProjectState → Result StateError (Option TaskNode) × ProjectState
unfolding conclude
choose now s = elim (sort_tasks (select (has_status ready) s.tasks)) [
  | first ∷ _ ↦ (ok (some first), record s { active_task_id = some first.id })
  | [] ↦ conclude now s
]

abbrev then_choose :
    String
    → Result StateError (List String) × ProjectState
    → Result StateError (Option TaskNode) × ProjectState
then_choose now (r, s) = elim r [ raise e ↦ (raise e, s) | ok _ ↦ choose now s ]

-- `TaskSelector.select_next`. A single task in progress is returned whatever else is ready.
unfoldable pub select_next :
    (ℕ → ℕ → String)
    → (now : String) → Bool
    → ProjectState
    → Result StateError (Option TaskNode) × ProjectState
unfolding update_ready_tasks choose
select_next clock now candidates s = elim (select (has_status in_progress) s.tasks) [
  | [] ↦ then_choose now (update_ready_tasks clock candidates s)
  | task ∷ [] ↦ (ok (some task), record s { active_task_id = some task.id })
  | _ ∷ _ ∷ _ ↦ (raise several_in_progress, s)
]
