-- ===== src/Planning/Nodes/Valid.antt =====
-- The nodes of an accepted plan make a valid project state.
use long_running_coding_agen.Prelude.{
  ℕ, ◌+◌, String, ◌≡◌, refl, ap, true, none, some, List, [], ◌∷◌, map, arith, str_eq, str_eq_iff,
  elem, all, select, All, distinct-eq-nodup, ok, Bool-cases, inl, inr,
}
use long_running_coding_agen.State.Schema.{
  task_node, TaskNode, ProjectState, new_task, ids, keys, status_eq, in_progress_ids,
  validate_parent, validate_task, validate_tasks, validate_graph,
}
use long_running_coding_agen.Planning.Protocol.{TaskDraft}
use long_running_coding_agen.Planning.Validator.{validate_initial, draft_keys}
use long_running_coding_agen.Planning.Validator.Accepts.{validate_initial_sound, IsComplete}
use long_running_coding_agen.Planning.Nodes.{task_id, look_up, draft_nodes, to_task_nodes}

look_up-ok :
    (prefix : String) (known ks : List String)
    → All (λ k. elem k known ≡ true) ks
    → look_up prefix known ks ≡ ok (map (task_id prefix) ks)
unfolding look_up
look_up-ok prefix known [] h = refl
look_up-ok prefix known (k ∷ ks) h = rw (h.0, look_up-ok prefix known ks h.1) refl

elem-map-task_id :
    (prefix k : String) (ks : List String)
    → elem k ks ≡ true
    → elem (task_id prefix k) (map (task_id prefix) ks) ≡ true
unfolding elem
elem-map-task_id prefix k [] h = cc
elem-map-task_id prefix k (j ∷ js) h = elim (Bool-cases (str_eq j k)) [
  | inl e ↦ ground (
    arith,
    ap (task_id prefix) ((str_eq_iff j k).0 e),
    str_eq_iff (task_id prefix j) (task_id prefix k),
  )
  | inr e ↦ ground (arith, elem-map-task_id prefix k js)
]

-- What the planner makes of a list of drafts, whose keys are among `known`.
record Nodes (project : String) (known : List String) (ds : List TaskDraft) (nodes : List TaskNode)
    : Type 0 where
  same_ids : ids nodes ≡ map (task_id project) (draft_keys ds)
  same_keys : keys nodes ≡ draft_keys ds
  all_pending : in_progress_ids nodes ≡ []
  each :
      (tasks : List TaskNode)
      → ids tasks ≡ map (task_id project) known
      → validate_tasks tasks nodes ≡ ok tt

all-map-task_id :
    (project : String) (known ks : List String)
    → All (λ k. elem k known ≡ true) ks
    → all (λ d. elem d (map (task_id project) known)) (map (task_id project) ks) ≡ true
unfolding all
all-map-task_id project known [] h = refl
all-map-task_id project known (k ∷ ks) h =
    rw (elem-map-task_id project k known h.0) (all-map-task_id project known ks h.1)

draft_nodes-Nodes :
    (clock : ℕ → ℕ → String) (project : String) (known : List String) (i : ℕ) (ds : List TaskDraft)
    → All (IsComplete known) ds
    → (nodes : List TaskNode) × (draft_nodes clock project known i ds ≡ ok nodes)
      × Nodes project known ds nodes
unfolding draft_nodes new_task select status_eq validate_tasks validate_task validate_parent
draft_nodes-Nodes clock project known i [] h = (
  [],
  refl,
  record { same_ids = refl; same_keys = refl; all_pending = refl; each = λ tasks e. refl },
)
draft_nodes-Nodes clock project known i (d ∷ ds) h =
    let (nodes, e, rest) = draft_nodes-Nodes clock project known (i + 1) ds h.1 in
    (
      first ∷ nodes,
      rw (look_up-ok project known d.depends_on_keys h.0.1, h.0.0, e) refl,
      record {
        same_ids = ap (λ (l : List String). task_id project d.key ∷ l) rest.same_ids;
        same_keys = ap (λ (l : List String). d.key ∷ l) rest.same_keys;
        all_pending = rest.all_pending;
        each = λ tasks k.
            rw (k, all-map-task_id project known d.depends_on_keys h.0.1) (rest.each tasks k);
      },
    )
  where
    first : TaskNode
    first =
        task_node (clock i) (task_id project d.key) d.key d.title d.objective d.acceptance_criteria
          (map (task_id project) d.depends_on_keys) none 0

-- The nodes made of an accepted plan are a valid project state, with no task active.
pub to_task_nodes-validate_graph :
    (clock : ℕ → ℕ → String) (project : String) (min_tasks max_tasks : ℕ) (drafts : List TaskDraft)
    (s : ProjectState)
    → validate_initial min_tasks max_tasks drafts ≡ some (ok drafts)
    → s.active_task_id ≡ none
    → (nodes : List TaskNode) × (to_task_nodes clock project drafts ≡ ok nodes)
      × (keys nodes ≡ draft_keys drafts)
      × (validate_graph (record s { tasks = nodes }) ≡ ok tt)
unfolding to_task_nodes validate_graph
to_task_nodes-validate_graph clock project min_tasks max_tasks drafts s accepted idle =
    let (_, plan, _) = validate_initial_sound min_tasks max_tasks drafts drafts accepted in
    let (nodes, e, facts) =
      draft_nodes-Nodes clock project (draft_keys drafts) 0 drafts plan.complete in
    (
      nodes,
      e,
      facts.same_keys,
      rw
          (
            facts.same_keys,
            distinct-eq-nodup (draft_keys drafts),
            plan.unique,
            facts.all_pending,
            idle,
          )
          (facts.each nodes facts.same_ids),
    )
