-- ===== src/State/Schema.antt =====
-- src/longrun_agent/state/schema.py: the persisted project state and its validator.
use long_running_coding_agen.Prelude.{
  ℕ, ◌+◌, String, Bool, true, false, not, Option, none, some, List, [], ◌∷◌, map, str_eq, ltb, ◌==◌,
  if◌then◌else◌, elem, distinct, all, select, find, is_empty, length, Result, ok, raise, ◌>>◌,
}

pub data ProjectStatus : Type 0 where
  active candidate_complete blocked failed session_limit_reached time_limit_reached : ProjectStatus
  verification_pending verified partially_verified verification_inconclusive : ProjectStatus

pub data TaskStatus : Type 0 where
  pending ready in_progress blocked candidate_complete decomposed failed : TaskStatus
  verification_pending verified reopened : TaskStatus

pub record CompletionCandidate : Type 0 where
  pub task_id : String
  pub evidence : List String
  pub changed_files : List String
  pub successful_tests : List String
  pub verification_commands : List String
  pub timestamp : String

pub record TaskNode : Type 0 where
  pub id : String
  pub key : String
  pub title : String
  pub objective : String
  pub acceptance_criteria : List String
  pub dependencies : List String
  pub parent_id : Option String
  pub depth : ℕ
  pub status : TaskStatus
  pub attempts : ℕ
  pub session_ids : List String
  pub progress_notes : List String
  pub read_files : List String
  pub files_touched : List String
  pub consecutive_no_progress_sessions : ℕ
  pub last_handoff_summary : Option String
  pub latest_context_handoff_id : Option String
  pub context_reset_count : ℕ
  pub context_compaction_count : ℕ
  pub blocker : Option String
  pub completion_summary : Option String
  pub completion_candidate : Option CompletionCandidate
  pub auto_completion_recovered : Bool
  pub verification_contract_id : Option String
  pub verification_status : Option String
  pub latest_verification_report_id : Option String
  pub verification_attempts : ℕ
  pub reopen_count : ℕ
  pub verified_at : Option String
  pub verified_contract_hash : Option String
  pub created_at : String
  pub updated_at : String

pub record PlanRevision : Type 0 where
  pub revision_id : String
  pub timestamp : String
  pub trigger : String
  pub task_id : Option String
  pub reason : String
  pub candidate_ids : List String
  pub selected_candidate_id : Option String
  pub added_task_ids : List String
  pub superseded_task_ids : List String

pub record ProjectState : Type 0 where
  pub project_id : String
  pub objective : String
  pub workspace_root : Option String
  pub initial_plan_file : Option String
  pub status : ProjectStatus
  pub plan_version : ℕ
  pub tasks : List TaskNode
  pub active_task_id : Option String
  pub revisions : List PlanRevision
  pub session_count : ℕ
  pub project_verification_contract_id : Option String
  pub latest_project_verification_report_id : Option String
  pub project_verification_attempts : ℕ
  pub verified_at : Option String
  pub created_at : String
  pub updated_at : String

-- The `ValueError`s of the two model validators, one for each message.
pub data SchemaError : Type 0 where
  empty_acceptance_criteria duplicate_keys several_in_progress unknown_active_task : SchemaError
  active_mismatch unknown_dependency unknown_parent wrong_depth root_depth : SchemaError

-- A test on enum members: `a == b`.
unfoldable pub status_eq : TaskStatus → TaskStatus → Bool
status_eq pending pending = true
status_eq ready ready = true
status_eq in_progress in_progress = true
status_eq blocked blocked = true
status_eq candidate_complete candidate_complete = true
status_eq decomposed decomposed = true
status_eq failed failed = true
status_eq verification_pending verification_pending = true
status_eq verified verified = true
status_eq reopened reopened = true
status_eq _ _ = false

abbrev pub ids : List TaskNode → List String
ids = map (λ t. t.id)

abbrev pub keys : List TaskNode → List String
keys = map (λ t. t.key)

abbrev pub has_status : TaskStatus → TaskNode → Bool
has_status s t = status_eq t.status s

abbrev pub in_progress_ids : List TaskNode → List String
in_progress_ids tasks = ids (select (has_status in_progress) tasks)

abbrev check : Bool → SchemaError → Result SchemaError (Unit {0})
check true e = ok tt
check false e = raise e

-- `if self.active_task_id is not None and self.active_task_id not in ids`
abbrev pub active_known : Option String → List String → Bool
active_known none known = true
active_known (some a) known = elem a known

abbrev pub active_is : Option String → String → Bool
active_is none i = false
active_is (some a) i = str_eq a i

-- `if in_progress and self.active_task_id != in_progress[0]`
abbrev pub active_matches : Option String → List String → Bool
active_matches current [] = true
active_matches current (i ∷ _) = active_is current i

unfoldable pub validate_parent : List TaskNode → TaskNode → Result SchemaError (Unit {0})
validate_parent tasks t = elim t.parent_id [
  | none ↦ check (t.depth == 0) root_depth
  | some p ↦ elim (find (λ c. str_eq c.id p) tasks) [
    | none ↦ raise unknown_parent
    | some parent ↦ check (t.depth == parent.depth + 1) wrong_depth
  ]
]

-- One round of the loop over the tasks.
unfoldable pub validate_task : List TaskNode → TaskNode → Result SchemaError (Unit {0})
unfolding validate_parent
validate_task tasks t = do
  check (all (λ d. elem d (ids tasks)) t.dependencies) unknown_dependency
  validate_parent tasks t

unfoldable pub validate_tasks : List TaskNode → List TaskNode → Result SchemaError (Unit {0})
validate_tasks tasks [] = ok tt
validate_tasks tasks (t ∷ rest) = validate_task tasks t >> validate_tasks tasks rest

-- `ProjectState.validate_graph`
unfoldable pub validate_graph : ProjectState → Result SchemaError (Unit {0})
unfolding validate_tasks validate_task
validate_graph s = do
  check (distinct (keys s.tasks)) duplicate_keys
  check (not (ltb 1 (length (in_progress_ids s.tasks)))) several_in_progress
  check (active_known s.active_task_id (ids s.tasks)) unknown_active_task
  check (active_matches s.active_task_id (in_progress_ids s.tasks)) active_mismatch
  validate_tasks s.tasks s.tasks

-- `TaskNode.validate_acceptance`
unfoldable pub validate_acceptance : TaskNode → Result SchemaError TaskNode
validate_acceptance t =
    if is_empty t.acceptance_criteria then raise empty_acceptance_criteria else ok t

-- `task_by_id`: the first task with the id; `none` stands for the `KeyError`.
unfoldable pub task_by_id : String → List TaskNode → Option TaskNode
task_by_id i tasks = find (λ t. str_eq t.id i) tasks

-- `{task.parent_id for task in self.tasks if task.parent_id is not None}`
unfoldable pub parent_ids : List TaskNode → List String
parent_ids [] = []
parent_ids (t ∷ ts) =
    let rest = parent_ids ts in elim t.parent_id [ none ↦ rest | some p ↦ p ∷ rest ]

unfoldable pub leaf_tasks : List TaskNode → List TaskNode
unfolding parent_ids
leaf_tasks tasks = select (λ t. not (elem t.id (parent_ids tasks))) tasks

-- `TaskNode(...)` with the fields that the planner gives, and the defaults of the others. The two
-- readings of the clock are those of the default factories.
unfoldable pub task_node :
    (clock : ℕ → String)
    → (id key title objective : String) → (acceptance_criteria dependencies : List String)
    → Option String
    → ℕ
    → TaskNode
task_node clock id key title objective criteria dependencies parent depth = record {
  id = id;
  key = key;
  title = title;
  objective = objective;
  acceptance_criteria = criteria;
  dependencies = dependencies;
  parent_id = parent;
  depth = depth;
  status = pending;
  attempts = 0;
  session_ids = [];
  progress_notes = [];
  read_files = [];
  files_touched = [];
  consecutive_no_progress_sessions = 0;
  last_handoff_summary = none;
  latest_context_handoff_id = none;
  context_reset_count = 0;
  context_compaction_count = 0;
  blocker = none;
  completion_summary = none;
  completion_candidate = none;
  auto_completion_recovered = false;
  verification_contract_id = none;
  verification_status = none;
  latest_verification_report_id = none;
  verification_attempts = 0;
  reopen_count = 0;
  verified_at = none;
  verified_contract_hash = none;
  created_at = clock 0;
  updated_at = clock 1;
}

-- The same behind the model's validator.
unfoldable pub new_task :
    (clock : ℕ → String)
    → (id key title objective : String) → (acceptance_criteria dependencies : List String)
    → Option String
    → ℕ
    → Result SchemaError TaskNode
unfolding validate_acceptance task_node
new_task clock id key title objective criteria dependencies parent depth =
    validate_acceptance (task_node clock id key title objective criteria dependencies parent depth)
