-- ===== src/State/Selector/Ready.antt =====
-- `update_ready_tasks` moves exactly the pending tasks whose dependencies are complete.
use mathlib.Core.List.{append-nil, append_assoc}
use long_running_coding_agen.Prelude.{
  inl, inr, ℕ, ◌+◌, String, ◌≡◌, refl, sym, ap, ◌∙◌, Bool, true, some, List, [], ◌∷◌, ◌++◌, arith,
  str_eq_iff, if◌then◌else◌, length, length-append, get_elem?, elem, nodup, select, find, Result,
  ok, Bool-cases,
}
use long_running_coding_agen.State.Schema.{
  pending, ready, TaskNode, ProjectState, ids, task_by_id, status_eq,
}
use long_running_coding_agen.State.Transitions.{
  StateError, update_task, apply_status, legal, transition,
}
use long_running_coding_agen.State.Selector.{
  promotable, completed_ids, ready_step, ready_loop, update_ready_tasks,
}

get_elem?-middle {ℓ} :
    {A : Type ℓ} (xs : List A) (y : A) (zs : List A) → get_elem? (xs ++ y ∷ zs) (length xs) ≡ some y
get_elem?-middle [] y zs = refl
get_elem?-middle (x ∷ xs) y zs = get_elem?-middle xs y zs

elem-middle :
    (xs : List TaskNode) (t : TaskNode) (ys : List TaskNode) → elem t.id (ids (xs ++ t ∷ ys)) ≡ true
unfolding elem
elem-middle [] t ys = ground (arith, str_eq_iff t.id t.id)
elem-middle (x ∷ xs) t ys = ground (arith, elem-middle xs t ys)

-- In a list with unique ids, what the id of an element finds and changes is that element.
task_by_id-middle :
    (xs : List TaskNode) (t : TaskNode) (ys : List TaskNode)
    → nodup (ids (xs ++ t ∷ ys)) ≡ true
    → task_by_id t.id (xs ++ t ∷ ys) ≡ some t
unfolding task_by_id find nodup elem
task_by_id-middle [] t ys h = ground (arith, str_eq_iff t.id t.id)
task_by_id-middle (x ∷ xs) t ys h =
    ground (arith, str_eq_iff x.id t.id, elem-middle xs t ys, task_by_id-middle xs t ys)

update_task-middle :
    (f : TaskNode → TaskNode) (xs : List TaskNode) (t : TaskNode) (ys : List TaskNode)
    → nodup (ids (xs ++ t ∷ ys)) ≡ true
    → update_task f t.id (xs ++ t ∷ ys) ≡ xs ++ f t ∷ ys
unfolding update_task nodup elem
update_task-middle f [] t ys h = ground (arith, str_eq_iff t.id t.id)
update_task-middle f (x ∷ xs) t ys h =
    ground (arith, str_eq_iff x.id t.id, elem-middle xs t ys, update_task-middle f xs t ys)

-- What the loop is to do, without the state: position by position, in one pass over the tasks.
pub promote : (ℕ → ℕ → String) → List String → ℕ → TaskNode → TaskNode
promote clock completed i t = if promotable completed t then apply_status (clock i 0) ready t else t

pub promote_from : (ℕ → ℕ → String) → List String → ℕ → List TaskNode → List TaskNode
promote_from clock completed i [] = []
promote_from clock completed i (t ∷ ts) =
    promote clock completed i t ∷ promote_from clock completed (i + 1) ts

promotable-pending :
    (completed : List String) (t : TaskNode) → promotable completed t ≡ true → t.status ≡ pending
unfolding promotable status_eq
promotable-pending completed t h = ground arith

legal-ready : (t : TaskNode) → t.status ≡ pending → legal t.status ready ≡ true
unfolding legal
legal-ready t h = rw h

module _ (clock : ℕ → ℕ → String) (completed : List String) where
  record StepsTo (acc : List String) (tasks : List TaskNode)
      (r : Result StateError (List String) × ProjectState) : Type 0 where
    returned : r.0 ≡ ok acc
    left_tasks : r.1.tasks ≡ tasks

  ready_step_lem :
      (xs : List TaskNode) (t : TaskNode) (ys : List TaskNode) (acc : List String)
      (s : ProjectState)
      → s.tasks ≡ xs ++ t ∷ ys
      → nodup (ids (xs ++ t ∷ ys)) ≡ true
      → StepsTo
          (if promotable completed t then acc ++ t.id ∷ [] else acc)
          (xs ++ promote clock completed (length xs) t ∷ ys)
          (ready_step clock completed (length xs) acc s)
  unfolding ready_step transition promote
  ready_step_lem xs t ys acc s e unique =
      let at : get_elem? s.tasks (length xs) ≡ some t = rw e (get_elem?-middle xs t ys) in
      let found : task_by_id t.id s.tasks ≡ some t = rw e (task_by_id-middle xs t ys unique) in
      let written : update_task (apply_status (clock (length xs) 0) ready) t.id s.tasks
          ≡ xs ++ apply_status (clock (length xs) 0) ready t ∷ ys =
        rw e (update_task-middle (apply_status (clock (length xs) 0) ready) xs t ys unique) in
      elim (Bool-cases (promotable completed t)) [
        | inr skip ↦ record { returned = ground arith; left_tasks = ground arith }
        | inl go ↦
            let edge = legal-ready t (promotable-pending completed t go) in
            record { returned = ground arith; left_tasks = ground arith }
      ]

  ids-promote :
      (xs : List TaskNode) (t : TaskNode) (ys : List TaskNode) (i : ℕ)
      → ids (xs ++ promote clock completed i t ∷ ys) ≡ ids (xs ++ t ∷ ys)
  unfolding promote
  ids-promote [] t ys i = ground arith
  ids-promote (x ∷ xs) t ys i = ap (λ (l : List String). x.id ∷ l) (ids-promote xs t ys i)

  ids-select-cons :
      (acc : List String) (t : TaskNode) (ys : List TaskNode)
      → (if promotable completed t then acc ++ t.id ∷ [] else acc)
          ++ ids (select (promotable completed) ys)
        ≡ acc ++ ids (select (promotable completed) (t ∷ ys))
  unfolding select
  ids-select-cons acc t ys =
      ground (arith, append_assoc acc (t.id ∷ []) (ids (select (promotable completed) ys)))

  ready_loop_lem :
      (ys xs : List TaskNode) (acc : List String) (s : ProjectState)
      → s.tasks ≡ xs ++ ys
      → nodup (ids (xs ++ ys)) ≡ true
      → StepsTo
          (acc ++ ids (select (promotable completed) ys))
          (xs ++ promote_from clock completed (length xs) ys)
          (ready_loop clock completed (length ys) (length xs) acc s)
  unfolding ready_loop promote_from select
  ready_loop_lem [] xs acc s e unique = record { returned = rw append-nil refl; left_tasks = e }
  ready_loop_lem (t ∷ ys) xs acc s e unique =
      let t' = promote clock completed (length xs) t in
      let step = ready_step_lem xs t ys acc s e unique in
      let s' = (ready_step clock completed (length xs) acc s).1 in
      let acc' = if promotable completed t then acc ++ t.id ∷ [] else acc in
      let rest =
        ready_loop_lem ys (xs ++ t' ∷ []) acc' s'
          (step.left_tasks ∙ sym (append_assoc xs (t' ∷ []) ys))
          (rw (append_assoc xs (t' ∷ []) ys, ids-promote xs t ys (length xs)) unique) in
      let len : length (xs ++ t' ∷ []) ≡ length xs + 1 =
        omega (arith, length-append xs (t' ∷ [])) in
      let more = rw len at rest in
      record {
        returned =
            rw (step.returned, ready_loop)
              (more.returned ∙ ap (λ (l : List String). ok l) (ids-select-cons acc t ys));
        left_tasks =
            rw (step.returned, ready_loop)
              (more.left_tasks
                ∙ append_assoc xs (t' ∷ []) (promote_from clock completed (length xs + 1) ys));
      }

-- With unique task ids, `update_ready_tasks` never raises, returns the ids of the pending tasks
-- whose dependencies are complete, in order, and makes these tasks ready and no others.
pub update_ready_tasks_lem :
    (clock : ℕ → ℕ → String) (candidates : Bool) (s : ProjectState)
    → nodup (ids s.tasks) ≡ true
    → ((update_ready_tasks clock candidates s).0
        ≡ ok (ids (select (promotable (completed_ids candidates s.tasks)) s.tasks)))
      × ((update_ready_tasks clock candidates s).1.tasks
          ≡ promote_from clock (completed_ids candidates s.tasks) 0 s.tasks)
unfolding update_ready_tasks
update_ready_tasks_lem clock candidates s unique =
    let r = ready_loop_lem clock (completed_ids candidates s.tasks) s.tasks [] [] s refl unique in
    (r.returned, r.left_tasks)
