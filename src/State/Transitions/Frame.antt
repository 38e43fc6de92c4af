-- ===== src/State/Transitions/Frame.antt =====
-- What one call of `transition` changes and what it leaves alone.
use long_running_coding_agen.Prelude.{
  ℕ, String, ◌≡◌, ◌≢◌, inl, inr, refl, ap, true, some, List, [], ◌∷◌, arith, str_eq, str_eq_iff,
  find, ok, raise, Bool-cases, Option-cases,
}
use long_running_coding_agen.State.Schema.{TaskStatus, TaskNode, ProjectState, ids, task_by_id}
use long_running_coding_agen.State.Transitions.{
  next_active, StateError, TransitionRecord, legal, update_task, apply_status, transition,
}

module _ (f : TaskNode → TaskNode) (same : (t : TaskNode) → (f t).id ≡ t.id) where
  pub ids-update_task : (i : String) (ts : List TaskNode) → ids (update_task f i ts) ≡ ids ts
  unfolding update_task
  ids-update_task i [] = refl
  ids-update_task i (t ∷ ts) = elim (Bool-cases (str_eq t.id i)) [
    | inl e ↦ rw e (ap (λ (x : String). x ∷ ids ts) (same t))
    | inr e ↦ rw e (ap (λ (l : List String). t.id ∷ l) (ids-update_task i ts))
  ]

  pub task_by_id-update_self :
      (i : String) (ts : List TaskNode) (t : TaskNode)
      → task_by_id i ts ≡ some t
      → task_by_id i (update_task f i ts) ≡ some (f t)
  unfolding task_by_id find update_task
  task_by_id-update_self i [] t h = cc
  task_by_id-update_self i (u ∷ ts) t h = ground (arith, same u, task_by_id-update_self i ts t)

  pub task_by_id-update_ne :
      (i j : String) (ts : List TaskNode)
      → i ≢ j
      → task_by_id j (update_task f i ts) ≡ task_by_id j ts
  unfolding task_by_id find update_task
  task_by_id-update_ne i j [] h = refl
  task_by_id-update_ne i j (u ∷ ts) h = ground (
    arith,
    same u,
    str_eq_iff u.id i,
    str_eq_iff u.id j,
    str_eq_iff (f u).id j,
    task_by_id-update_ne i j ts h,
  )

module _ (clock : ℕ → String) (s : ProjectState) (i : String) (new : TaskStatus)
    (reason source : String) where
  abbrev after : ProjectState
  after = (transition clock s i new reason source).1

  -- A call that raises leaves the state as it was.
  pub transition-raise :
      (e : StateError) → (transition clock s i new reason source).0 ≡ raise e → after ≡ s
  unfolding transition
  transition-raise e h = ground arith

  -- The state after a call that found `t` and moved it.
  abbrev pub moved : TaskNode → ProjectState
  moved t = record s {
    tasks = update_task (apply_status (clock 0) new) i s.tasks;
    active_task_id = next_active new t.id s.active_task_id;
    updated_at = clock 1;
  }

  -- A call that returns moves the first task with the id along a legal edge, and no other task.
  pub transition-ok :
      (r : TransitionRecord)
      → (transition clock s i new reason source).0 ≡ ok r
      → (t : TaskNode) × (task_by_id i s.tasks ≡ some t)
        × (legal t.status new ≡ true)
        × (after ≡ moved t)
        × (r.old_status ≡ t.status)
        × (r.new_status ≡ new)
  unfolding transition
  transition-ok r h = elim (Option-cases (task_by_id i s.tasks)) [
    | inl e ↦ ground arith
    | inr (t, e) ↦ (t, e, ground arith, ground arith, ground arith, ground arith)
  ]
