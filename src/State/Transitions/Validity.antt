-- ===== src/State/Transitions/Validity.antt =====
-- A legal transition keeps the state valid for `validate_graph`.
use long_running_coding_agen.Prelude.{
  ◌∙◌, ℕ, String, ◌≡◌, ◌⊎◌, inl, inr, refl, ap, true, false, not, Option, none, some, List, [], ◌∷◌,
  arith, str_eq, str_eq_iff, if◌then◌else◌, ltb, elem, nodup, distinct, find, select, length, ok,
  ◌>>◌, Bool-cases, Option-cases,
}
use long_running_coding_agen.State.Schema.{
  TaskStatus, in_progress, TaskNode, ProjectState, ids, keys, task_by_id, status_eq,
  in_progress_ids, active_is, active_known, active_matches, validate_parent, validate_task,
  validate_tasks, validate_graph,
}
use long_running_coding_agen.State.Transitions.{
  TransitionRecord, update_task, apply_status, transition,
}
use long_running_coding_agen.State.Transitions.Frame.{ids-update_task, moved, transition-ok}

-- What `validate_graph` asks, fact by fact.
record Facts (s : ProjectState) : Type 0 where
  keys_distinct : distinct (keys s.tasks) ≡ true
  single : ltb 1 (length (in_progress_ids s.tasks)) ≡ false
  known : active_known s.active_task_id (ids s.tasks) ≡ true
  matches : active_matches s.active_task_id (in_progress_ids s.tasks) ≡ true
  each : validate_tasks s.tasks s.tasks ≡ ok tt

Facts-make : (s : ProjectState) → validate_graph s ≡ ok tt → Facts s
unfolding validate_graph
Facts-make s h = ground arith

Facts-use : (s : ProjectState) → Facts s → validate_graph s ≡ ok tt
unfolding validate_graph
Facts-use s f = ground arith

-- `validate_task` reads nothing that an assignment of the status changes.
module _ (now : String) (new : TaskStatus) (i : String) where
  abbrev f : TaskNode → TaskNode
  f = apply_status now new

  keys-update_task : (ts : List TaskNode) → keys (update_task f i ts) ≡ keys ts
  unfolding update_task
  keys-update_task [] = refl
  keys-update_task (t ∷ ts) = elim (Bool-cases (str_eq t.id i)) [
    | inl e ↦ rw e
    | inr e ↦ rw e (ap (λ (l : List String). t.key ∷ l) (keys-update_task ts))
  ]

  find_depth :
      (p : String) (ts : List TaskNode)
      → (find (λ c. str_eq c.id p) (update_task f i ts) ≡ none)
          × (find (λ c. str_eq c.id p) ts ≡ none)
        ⊎ ((a : TaskNode) × (b : TaskNode) × (find (λ c. str_eq c.id p) (update_task f i ts)
              ≡ some a)
            × (find (λ c. str_eq c.id p) ts ≡ some b)
            × (a.depth ≡ b.depth))
  unfolding find update_task
  find_depth p [] = inl (refl, refl)
  find_depth p (t ∷ ts) = elim (Bool-cases (str_eq t.id p)) [
    | inl e ↦ elim (Bool-cases (str_eq t.id i)) [
      | inl d ↦ rw (d, e) (inr (f t, t, refl, refl, refl))
      | inr d ↦ rw (d, e) (inr (t, t, refl, refl, refl))
    ]
    | inr e ↦ elim (Bool-cases (str_eq t.id i)) [
      | inl d ↦ elim (Option-cases (find (λ c. str_eq c.id p) ts)) [
        | inl n ↦ rw (d, e, n) (inl (refl, refl))
        | inr (b, n) ↦ rw (d, e, n) (inr (b, b, refl, refl, refl))
      ]
      | inr d ↦ rw (d, e) (find_depth p ts)
    ]
  ]

  validate_parent-update_task :
      (ts : List TaskNode) (t : TaskNode)
      → validate_parent (update_task f i ts) t ≡ validate_parent ts t
  unfolding validate_parent
  validate_parent-update_task ts t = elim (Option-cases t.parent_id) [
    | inl e ↦ ground arith
    | inr (p, e) ↦ ground (arith, find_depth p ts)
  ]

  validate_task-update_task :
      (ts : List TaskNode) (t : TaskNode)
      → validate_task (update_task f i ts) t ≡ validate_task ts t
  unfolding validate_task
  validate_task-update_task ts t =
      rw (ids-update_task f (λ u. refl) i ts, validate_parent-update_task ts t)

  validate_task-f :
      (ts : List TaskNode) (t : TaskNode) → validate_task ts (f t) ≡ validate_task ts t
  unfolding validate_task validate_parent
  validate_task-f ts t = refl

  validate_tasks-same :
      (ts us : List TaskNode) → validate_tasks (update_task f i ts) us ≡ validate_tasks ts us
  unfolding validate_tasks
  validate_tasks-same ts [] = refl
  validate_tasks-same ts (u ∷ us) = rw (validate_task-update_task ts u, validate_tasks-same ts us)

  validate_tasks-update_task :
      (ts us : List TaskNode)
      → validate_tasks (update_task f i ts) (update_task f i us) ≡ validate_tasks ts us
  unfolding validate_tasks update_task
  validate_tasks-update_task ts [] = refl
  validate_tasks-update_task ts (u ∷ us) = elim (Bool-cases (str_eq u.id i)) [
    | inl e ↦
        rw (e, validate_tasks)
          (rw (validate_task-update_task ts (f u), validate_task-f ts u)
            (ap (λ r. validate_task ts u >> r) (validate_tasks-same ts us)))
    | inr e ↦
        rw (e, validate_tasks)
          (rw (validate_task-update_task ts u, validate_tasks-update_task ts us))
  ]

-- `[j for j in js if j != i]`
abbrev without : String → List String → List String
without i js = select (λ j. not (str_eq j i)) js

without-absent : (i : String) (js : List String) → elem i js ≡ false → without i js ≡ js
unfolding select elem
without-absent i [] h = refl
without-absent i (j ∷ js) h = ground (arith, without-absent i js)

elem-in_progress_ids :
    (i : String) (ts : List TaskNode)
    → elem i (ids ts) ≡ false
    → elem i (in_progress_ids ts) ≡ false
unfolding select elem
elem-in_progress_ids i [] h = refl
elem-in_progress_ids i (t ∷ ts) h = ground (arith, elem-in_progress_ids i ts)

module _ (now : String) (new : TaskStatus) (i : String) where
  -- Moving a task to another status than IN_PROGRESS takes its id off the ids in progress.
  in_progress_ids-leave :
      (ts : List TaskNode)
      → status_eq new in_progress ≡ false
      → nodup (ids ts) ≡ true
      → in_progress_ids (update_task (apply_status now new) i ts) ≡ without i (in_progress_ids ts)
  unfolding update_task select nodup
  in_progress_ids-leave [] h u = refl
  in_progress_ids-leave (t ∷ ts) h u = ground (
    arith,
    str_eq_iff t.id i,
    in_progress_ids-leave ts h,
    elem-in_progress_ids i ts,
    without-absent i (in_progress_ids ts),
  )

  -- Where no task is in progress, the task moved there is the only one.
  in_progress_ids-enter :
      (ts : List TaskNode) (t : TaskNode)
      → status_eq new in_progress ≡ true
      → in_progress_ids ts ≡ []
      → task_by_id i ts ≡ some t
      → in_progress_ids (update_task (apply_status now new) i ts) ≡ t.id ∷ []
  unfolding update_task select task_by_id find
  in_progress_ids-enter [] t h e k = cc
  in_progress_ids-enter (u ∷ ts) t h e k = ground (arith, in_progress_ids-enter ts t h)

elem-task_by_id :
    (i : String) (ts : List TaskNode) (t : TaskNode)
    → task_by_id i ts ≡ some t
    → elem t.id (ids ts) ≡ true
unfolding task_by_id find elem
elem-task_by_id i [] t h = cc
elem-task_by_id i (u ∷ ts) t h = ground (arith, str_eq_iff t.id t.id, elem-task_by_id i ts t)

task_by_id-id :
    (i : String) (ts : List TaskNode) (t : TaskNode) → task_by_id i ts ≡ some t → t.id ≡ i
unfolding task_by_id find
task_by_id-id i [] t h = cc
task_by_id-id i (u ∷ ts) t h = ground (arith, str_eq_iff u.id i, task_by_id-id i ts t)

-- The pointer to the active task, for a move away from IN_PROGRESS, where `js` are in progress.
leave_active :
    (i : String) (current : Option String) (js : List String)
    → ltb 1 (length js) ≡ false
    → active_matches current js ≡ true
    → active_matches (if active_is current i then none else current) (without i js) ≡ true
unfolding select
leave_active i current [] h m = refl
leave_active i none (j ∷ js) h m = cc
leave_active i (some a) (j ∷ []) h m =
    ground (arith, str_eq_iff a i, str_eq_iff a j, str_eq_iff j i)
leave_active i (some a) (j ∷ k ∷ js) h m = absurd (ground arith)

leave_known :
    (i : String) (current : Option String) (js : List String)
    → active_known current js ≡ true
    → active_known (if active_is current i then none else current) js ≡ true
leave_known i none js h = refl
leave_known i (some a) js h = ground arith

leave_single :
    (i : String) (js : List String)
    → ltb 1 (length js) ≡ false
    → ltb 1 (length (without i js)) ≡ false
unfolding select
leave_single i [] h = refl
leave_single i (j ∷ []) h = ground arith
leave_single i (j ∷ k ∷ js) h = absurd (ground arith)

module _ (clock : ℕ → String) (s : ProjectState) (i : String) (new : TaskStatus)
    (reason source : String) where
  moved-Facts :
      (t : TaskNode)
      → nodup (ids s.tasks) ≡ true
      → Facts s
      → (status_eq new in_progress ≡ true → in_progress_ids s.tasks ≡ [])
      → task_by_id i s.tasks ≡ some t
      → Facts (moved clock s i new reason source t)
  moved-Facts t unique facts alone found = elim (Bool-cases (status_eq new in_progress)) [
    | inl e ↦ record {
      keys_distinct = rw (keys-update_task (clock 0) new i s.tasks) facts.keys_distinct;
      single = rw (in_progress_ids-enter (clock 0) new i s.tasks t e (alone e) found) refl;
      known =
          rw (e, ids-update_task (apply_status (clock 0) new) (λ u. refl) i s.tasks)
            (elem-task_by_id i s.tasks t found);
      matches =
          rw (e, in_progress_ids-enter (clock 0) new i s.tasks t e (alone e) found)
            ((str_eq_iff t.id t.id).1 refl);
      each = validate_tasks-update_task (clock 0) new i s.tasks s.tasks ∙ facts.each;
    }
    | inr e ↦ record {
      keys_distinct = rw (keys-update_task (clock 0) new i s.tasks) facts.keys_distinct;
      single =
          rw (in_progress_ids-leave (clock 0) new i s.tasks e unique)
            (leave_single i (in_progress_ids s.tasks) facts.single);
      known =
          rw (e, ids-update_task (apply_status (clock 0) new) (λ u. refl) i s.tasks)
            (leave_known t.id s.active_task_id (ids s.tasks) facts.known);
      matches =
          rw
            (
              e,
              in_progress_ids-leave (clock 0) new i s.tasks e unique,
              task_by_id-id i s.tasks t found,
            )
            (leave_active i s.active_task_id (in_progress_ids s.tasks) facts.single facts.matches);
      each = validate_tasks-update_task (clock 0) new i s.tasks s.tasks ∙ facts.each;
    }
  ]

  -- A transition that returns keeps a valid state with unique task ids valid, if it moves a task
  -- to IN_PROGRESS only when no task is in progress.
  pub transition-validate_graph :
      (r : TransitionRecord)
      → nodup (ids s.tasks) ≡ true
      → validate_graph s ≡ ok tt
      → (status_eq new in_progress ≡ true → in_progress_ids s.tasks ≡ [])
      → (transition clock s i new reason source).0 ≡ ok r
      → validate_graph (transition clock s i new reason source).1 ≡ ok tt
  transition-validate_graph r unique valid alone h =
      let (t, found, _, moves, _, _) = transition-ok clock s i new reason source r h in
      rw moves (
        Facts-use (moved clock s i new reason source t)
          (moved-Facts t unique (Facts-make s valid) alone found))
