-- ===== src/Planning/Nodes.antt =====
-- src/longrun_agent/planning/validator.py: `to_task_nodes` and `children_to_task_nodes`.
-- `clock i` gives the readings of the clock for the node at position `i`.
pub mod Valid
use Prim.Native.String.{◌++◌ as append}
use long_running_coding_agen.Prelude.{
  ℕ, zero, suc, ◌+◌, String, Bool, true, false, Option, none, some, List, [], ◌∷◌, elem,
  if◌then◌else◌, Result, ok, raise, ◌>>=◌,
}
use long_running_coding_agen.State.Schema.{TaskNode, SchemaError, new_task}
use long_running_coding_agen.Planning.Protocol.{TaskDraft, ChildTaskDraft}
use long_running_coding_agen.Planning.Validator.{draft_keys, child_keys}

-- `KeyError` of `id_by_key`, and the `ValueError` of `TaskNode(...)`.
pub data NodeError : Type 0 where
  key_error : String → NodeError
  invalid_task : SchemaError → NodeError

-- f"{prefix}:{key}"
unfoldable pub task_id : String → String → String
task_id prefix key = append prefix (append ":" key)

-- `[id_by_key[key] for key in keys]`; all drafts with one key have one id.
unfoldable pub look_up :
    String → (known : List String) → List String → Result NodeError (List String)
unfolding task_id
look_up prefix known [] = ok []
look_up prefix known (k ∷ ks) =
    if elem k known
    then (do rest ← look_up prefix known ks; ok (task_id prefix k ∷ rest))
    else raise (key_error k)

abbrev pub as_node_error {ℓ} : {A : Type ℓ} → Result SchemaError A → Result NodeError A
as_node_error (ok a) = ok a
as_node_error (raise e) = raise (invalid_task e)

module _ (clock : ℕ → ℕ → String) where
  unfoldable pub draft_nodes :
      String → (known : List String) → ℕ → List TaskDraft → Result NodeError (List TaskNode)
  unfolding look_up new_task
  draft_nodes project known i [] = ok []
  draft_nodes project known i (d ∷ ds) = do
    dependencies ← look_up project known d.depends_on_keys
    node ← as_node_error (
        new_task (clock i) (task_id project d.key) d.key d.title d.objective d.acceptance_criteria
          dependencies none 0)
    rest ← draft_nodes project known (i + 1) ds
    ok (node ∷ rest)

  -- `PlanValidator.to_task_nodes`
  unfoldable pub to_task_nodes : String → List TaskDraft → Result NodeError (List TaskNode)
  unfolding draft_nodes
  to_task_nodes project drafts = draft_nodes project (draft_keys drafts) 0 drafts

  unfoldable pub child_nodes :
      TaskNode → (known : List String) → ℕ → List ChildTaskDraft → Result NodeError (List TaskNode)
  unfolding look_up new_task
  child_nodes parent known i [] = ok []
  child_nodes parent known i (d ∷ ds) = do
    dependencies ← look_up parent.id known d.depends_on_child_keys
    node ← as_node_error (
        new_task (clock i) (task_id parent.id d.key) d.key d.title d.objective d.acceptance_criteria
          dependencies (some parent.id) (parent.depth + 1))
    rest ← child_nodes parent known (i + 1) ds
    ok (node ∷ rest)

  -- `PlanValidator.children_to_task_nodes`
  unfoldable pub children_to_task_nodes :
      TaskNode → List ChildTaskDraft → Result NodeError (List TaskNode)
  unfolding child_nodes
  children_to_task_nodes parent drafts = child_nodes parent (child_keys drafts) 0 drafts
