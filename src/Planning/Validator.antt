-- ===== src/Planning/Validator.antt =====
-- src/longrun_agent/planning/validator.py: `PlanValidator`. Both validators hold the same checks on
-- keys, criteria and dependencies, with messages of their own. The search for a cycle has one unit
-- of fuel more than there are keys, which `Planning.Validator.Accepts` shows to be enough.
pub mod Accepts
use Prim.Native.String.{◌++◌ as append}
use long_running_coding_agen.Prelude.{
  ℕ, zero, suc, ◌+◌, String, Bool, true, false, not, ◌&&◌, ◌||◌, Option, none, some, List, [], ◌∷◌,
  map, leb, ltb, ◌==◌, if◌then◌else◌, codes, length, distinct, elem, all, is_empty, Result, ok,
  raise, ◌>>=◌, ◌>>◌,
}
use long_running_coding_agen.State.Schema.{TaskNode, SchemaError, new_task}
use long_running_coding_agen.Planning.Protocol.{TaskDraft, ChildTaskDraft}
use long_running_coding_agen.Planning.Acyclic.{
  PlanError, task_count, duplicate_keys, empty_acceptance_criteria, unknown_key, maximum_depth,
  child_count, duplicate_child_keys, not_more_specific, empty_child_criteria, unknown_child_key,
  Dependencies, Search, assert_acyclic,
}

abbrev pub draft_keys : List TaskDraft → List String
draft_keys = map (λ d. d.key)

abbrev pub graph : List TaskDraft → Dependencies
graph = map (λ d. (d.key, d.depends_on_keys))

-- One round of the loop over the drafts.
unfoldable pub check_draft : List String → TaskDraft → Result PlanError (Unit {0})
check_draft keys d =
    if is_empty d.acceptance_criteria
    then raise empty_acceptance_criteria
    else if all (λ k. elem k keys) d.depends_on_keys
    then ok tt
    else raise unknown_key

-- The loop; it also fills the dictionary, which is `graph` where the keys are distinct.
unfoldable pub check_drafts : List String → List TaskDraft → Result PlanError (Unit {0})
check_drafts keys [] = ok tt
check_drafts keys (d ∷ ds) = check_draft keys d >> check_drafts keys ds

-- The end of a validator: `_assert_acyclic`, then `return drafts`.
abbrev pub accept {ℓ} : {A : Type ℓ} → A → Search → Option (Result PlanError A)
accept a none = none
accept a (some (raise e)) = some (raise e)
accept a (some (ok _)) = some (ok a)

abbrev pub checked {ℓ} :
    {A : Type ℓ} → A → Result PlanError (Unit {0}) → Search → Option (Result PlanError A)
checked a (raise e) search = some (raise e)
checked a (ok _) search = accept a search

module _ (min_tasks max_tasks : ℕ) where
  unfoldable pub validate_initial : List TaskDraft → Option (Result PlanError (List TaskDraft))
  unfolding check_drafts check_draft
  validate_initial drafts =
      let keys = draft_keys drafts in
      if not (leb min_tasks (length drafts) && leb (length drafts) max_tasks)
      then some (raise task_count)
      else if not (distinct keys)
      then some (raise duplicate_keys)
      else checked drafts (check_drafts keys drafts)
          (assert_acyclic (graph drafts) (suc (length drafts)) keys)

-- `str.strip` takes these code points off both ends.
unfoldable pub is_space : ℕ → Bool
is_space c =
    (leb 9 c && leb c 13)
    || (leb 28 c && leb c 32)
    || (c == 0x85)
    || (c == 0xa0)
    || (c == 0x1680)
    || (leb 0x2000 c && leb c 0x200a)
    || (c == 0x2028)
    || (c == 0x2029)
    || (c == 0x202f)
    || (c == 0x205f)
    || (c == 0x3000)

unfoldable pub strip_left : List ℕ → List ℕ
unfolding is_space
strip_left [] = []
strip_left (c ∷ cs) = let rest = strip_left cs in if is_space c then rest else c ∷ cs

unfoldable pub strip_right : List ℕ → List ℕ
unfolding is_space
strip_right [] = []
strip_right (c ∷ cs) =
    let rest = strip_right cs in if is_space c && is_empty rest then [] else c ∷ rest

unfoldable pub strip : String → List ℕ
unfolding strip_left strip_right
strip s = strip_right (strip_left (codes s))

unfoldable pub codes_eq : List ℕ → List ℕ → Bool
codes_eq [] [] = true
codes_eq (x ∷ xs) (y ∷ ys) = (x == y) && codes_eq xs ys
codes_eq _ _ = false

abbrev pub child_keys : List ChildTaskDraft → List String
child_keys = map (λ d. d.key)

abbrev pub child_graph : List ChildTaskDraft → Dependencies
child_graph = map (λ d. (d.key, d.depends_on_child_keys))

unfoldable pub check_child : TaskNode → List String → ChildTaskDraft → Result PlanError (Unit {0})
unfolding strip codes_eq
check_child parent keys d =
    if codes_eq (strip d.objective) (strip parent.objective)
    then raise not_more_specific
    else if is_empty d.acceptance_criteria
    then raise empty_child_criteria
    else if all (λ k. elem k keys) d.depends_on_child_keys
    then ok tt
    else raise unknown_child_key

unfoldable pub check_children :
    TaskNode → List String → List ChildTaskDraft → Result PlanError (Unit {0})
check_children parent keys [] = ok tt
check_children parent keys (d ∷ ds) = check_child parent keys d >> check_children parent keys ds

module _ (parent : TaskNode) (min_children max_children max_depth : ℕ) where
  unfoldable pub validate_children :
      List ChildTaskDraft → Option (Result PlanError (List ChildTaskDraft))
  unfolding check_children check_child
  validate_children drafts =
      let keys = child_keys drafts in
      if leb max_depth parent.depth
      then some (raise maximum_depth)
      else if not (leb min_children (length drafts) && leb (length drafts) max_children)
      then some (raise child_count)
      else if not (distinct keys)
      then some (raise duplicate_child_keys)
      else checked drafts (check_children parent keys drafts)
          (assert_acyclic (child_graph drafts) (suc (length drafts)) keys)
