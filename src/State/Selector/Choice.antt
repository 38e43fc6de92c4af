-- ===== src/State/Selector/Choice.antt =====
-- Which task `select_next` returns.
use long_running_coding_agen.State.Transitions.{several_in_progress, StateError}
use mathlib.Core.List.{Memᴰ}
use long_running_coding_agen.Prelude.{
  ◌∙◌, sym, subst, ℕ, String, ◌≡◌, ◌⊎◌, inl, inr, refl, Bool, true, false, some, List, [], ◌∷◌,
  arith, str_eq_iff, str_leb_refl, str_leb-total, str_leb_trans, str_leb_antisymm, select, All,
  Result, ok, raise, Bool-cases,
}
use long_running_coding_agen.State.Schema.{ready, in_progress, TaskNode, ProjectState, has_status}
use long_running_coding_agen.State.Selector.{
  then_choose, key_leb, insert_sorted, sort_tasks, conclude, choose, select_next,
  update_ready_tasks,
}

key_leb_refl : (a : TaskNode) → key_leb a a ≡ true
unfolding key_leb
key_leb_refl a = ground (arith, str_leb_refl a.id, str_leb_refl a.created_at)

key_leb-total : (a b : TaskNode) → key_leb a b ≡ false → key_leb b a ≡ true
unfolding key_leb
key_leb-total a b h = ground (
  arith,
  str_leb-total a.id b.id,
  str_leb-total a.created_at b.created_at,
  str_eq_iff a.created_at b.created_at,
  str_eq_iff b.created_at a.created_at,
)

key_leb_trans : (a b c : TaskNode) → key_leb a b ≡ true → key_leb b c ≡ true → key_leb a c ≡ true
unfolding key_leb
key_leb_trans a b c h k = ground (
  arith,
  str_leb_trans a.id b.id c.id,
  str_leb_trans a.created_at b.created_at c.created_at,
  str_leb_antisymm a.created_at b.created_at,
  str_eq_iff a.created_at b.created_at,
  str_eq_iff b.created_at c.created_at,
  str_eq_iff a.created_at c.created_at,
)

List-cases {ℓ} : {A : Type ℓ} (l : List A) → (l ≡ []) ⊎ ((x : A) × (xs : List A) × (l ≡ x ∷ xs))
List-cases [] = inl refl
List-cases (x ∷ xs) = inr (x, xs, refl)

-- `t` comes first in the order of the sort.
abbrev pub IsLeast : TaskNode → List TaskNode → Type 0
IsLeast t = All (λ u. key_leb t u ≡ true)

IsLeast-trans :
    (t u : TaskNode) (xs : List TaskNode) → key_leb t u ≡ true → IsLeast u xs → IsLeast t xs
IsLeast-trans t u [] h k = tt
IsLeast-trans t u (x ∷ xs) h k = (key_leb_trans t u x h k.0, IsLeast-trans t u xs h k.1)

insert_sorted-ne-nil : (x : TaskNode) (ys : List TaskNode) → insert_sorted x ys ≡ [] → ⊥
unfolding insert_sorted
insert_sorted-ne-nil x [] h = cc
insert_sorted-ne-nil x (y ∷ ys) h = ground arith

sort_tasks-nil : (xs : List TaskNode) → sort_tasks xs ≡ [] → xs ≡ []
unfolding sort_tasks
sort_tasks-nil [] h = refl
sort_tasks-nil (x ∷ xs) h = absurd (insert_sorted-ne-nil x (sort_tasks xs) h)

insert_sorted-head :
    (x y : TaskNode) (ys rest : List TaskNode) (t : TaskNode)
    → insert_sorted x (y ∷ ys) ≡ t ∷ rest
    → ((key_leb x y ≡ true) × (t ≡ x)) ⊎ ((key_leb y x ≡ true) × (t ≡ y))
unfolding insert_sorted
insert_sorted-head x y ys rest t h = ground (arith, key_leb-total x y)

insert_sorted-nil : (x t : TaskNode) (rest : List TaskNode) → insert_sorted x [] ≡ t ∷ rest → t ≡ x
unfolding insert_sorted
insert_sorted-nil x t rest h = ground arith

-- The head of the sorted list is an element that no element comes before.
sort_tasks-head :
    (xs : List TaskNode) (t : TaskNode) (rest : List TaskNode)
    → sort_tasks xs ≡ t ∷ rest
    → Memᴰ t xs × IsLeast t xs
unfolding sort_tasks
sort_tasks-head [] t rest h = absurd (cc)
sort_tasks-head (x ∷ xs) t rest h = elim (List-cases (sort_tasks xs)) [
  | inl e ↦
      let single = insert_sorted-nil x t rest (rw e at h) in
      subst IsHead (sym single) (Memᴰ.head refl, (key_leb_refl x, rw (sort_tasks-nil xs e) tt))
  | inr (y, ys, e) ↦
      let (there, least) = sort_tasks-head xs y ys e in
      elim (insert_sorted-head x y ys rest t (rw e at h)) [
        | inl (le, same) ↦
            subst IsHead (sym same)
              (Memᴰ.head refl, (key_leb_refl x, IsLeast-trans x y xs le least))
        | inr (le, same) ↦ subst IsHead (sym same) (Memᴰ.tail there, (le, least))
      ]
]
  where
    IsHead : TaskNode → Type 0
    IsHead z = Memᴰ z (x ∷ xs) × IsLeast z (x ∷ xs)

Memᴰ-cons {ℓ} : {A : Type ℓ} {a x : A} {xs : List A} → Memᴰ a (x ∷ xs) → (a ≡ x) ⊎ Memᴰ a xs
Memᴰ-cons (Memᴰ.head e) = inl e
Memᴰ-cons (Memᴰ.tail m) = inr m

-- What is in a comprehension is in the list, and passes the test.
Memᴰ-select :
    (p : TaskNode → Bool) (t : TaskNode) (xs : List TaskNode)
    → Memᴰ t (select p xs)
    → Memᴰ t xs × (p t ≡ true)
unfolding select
Memᴰ-select p t [] m = elim m [ ]
Memᴰ-select p t (x ∷ xs) m = elim (Bool-cases (p x)) [
  | inl e ↦ elim (Memᴰ-cons (rw e at m)) [
    | inl same ↦ (Memᴰ.head same, rw same e)
    | inr below ↦ let (there, h) = Memᴰ-select p t xs below in (Memᴰ.tail there, h)
  ]
  | inr e ↦ let (there, h) = Memᴰ-select p t xs (rw e at m) in (Memᴰ.tail there, h)
]

-- A bound on the elements that pass a test.
IsLeast-select :
    (p : TaskNode → Bool) (t : TaskNode) (xs : List TaskNode)
    → IsLeast t (select p xs)
    → All (λ u. p u ≡ true → key_leb t u ≡ true) xs
unfolding select
IsLeast-select p t [] h = tt
IsLeast-select p t (x ∷ xs) h = elim (Bool-cases (p x)) [
  | inl e ↦ let k : IsLeast t (x ∷ select p xs) = rw e at h in (λ _. k.0, IsLeast-select p t xs k.1)
  | inr e ↦ (λ q. cc, IsLeast-select p t xs (rw e at h))
]

-- A ready task that `choose` may return: no ready task comes before it, and it becomes active.
pub record IsChosen (t : TaskNode) (after : ProjectState) : Type 0 where
  pub listed : Memᴰ t after.tasks
  pub is_ready : has_status ready t ≡ true
  pub least : All (λ u. has_status ready u ≡ true → key_leb t u ≡ true) after.tasks
  pub current : after.active_task_id ≡ some t.id

conclude-none :
    (now : String) (s : ProjectState) (t : TaskNode) → (conclude now s).0 ≡ ok (some t) → ⊥
unfolding conclude
conclude-none now s t h = ground arith

choose-cons :
    (now : String) (s : ProjectState) (u : TaskNode) (us : List TaskNode)
    → sort_tasks (select (has_status ready) s.tasks) ≡ u ∷ us
    → choose now s ≡ (ok (some u), record s { active_task_id = some u.id })
unfolding choose
choose-cons now s u us e = rw (e, choose) refl

choose-nil :
    (now : String) (s : ProjectState)
    → sort_tasks (select (has_status ready) s.tasks) ≡ []
    → choose now s ≡ conclude now s
unfolding choose
choose-nil now s e = rw (e, choose) refl

chosen :
    (s : ProjectState) (u : TaskNode) (us : List TaskNode)
    → sort_tasks (select (has_status ready) s.tasks) ≡ u ∷ us
    → IsChosen u (record s { active_task_id = some u.id })
chosen s u us e =
    let (there, least) = sort_tasks-head (select (has_status ready) s.tasks) u us e in
    let (listed, is_ready) = Memᴰ-select (has_status ready) u s.tasks there in
    record {
      listed = listed;
      is_ready = is_ready;
      least = IsLeast-select (has_status ready) u s.tasks least;
      current = refl;
    }

choose-IsChosen :
    (now : String) (s : ProjectState) (t : TaskNode)
    → (choose now s).0 ≡ ok (some t)
    → IsChosen t (choose now s).1
choose-IsChosen now s t h = elim (List-cases (sort_tasks (select (has_status ready) s.tasks))) [
  | inl e ↦ absurd (conclude-none now s t (rw (choose-nil now s e) at h))
  | inr (u, us, e) ↦
      let same : u ≡ t = ground (arith, choose-cons now s u us e) in
      rw (choose-cons now s u us e)
        (subst (λ z. IsChosen z (record s { active_task_id = some u.id })) same (chosen s u us e))
]

then_choose-some :
    (now : String) (r : Result StateError (List String) × ProjectState) (t : TaskNode)
    → (then_choose now r).0 ≡ ok (some t)
    → IsChosen t (then_choose now r).1
then_choose-some now (ok ready_ids, s) t h = choose-IsChosen now s t h
then_choose-some now (raise e, s) t h = cc

module _ (clock : ℕ → ℕ → String) (now : String) (candidates : Bool) (s : ProjectState) where
  select_next-one :
      (u : TaskNode)
      → select (has_status in_progress) s.tasks ≡ u ∷ []
      → select_next clock now candidates s ≡ (ok (some u), record s { active_task_id = some u.id })
  unfolding select_next
  select_next-one u e = rw (e, select_next) refl

  select_next-several :
      (u v : TaskNode) (vs : List TaskNode)
      → select (has_status in_progress) s.tasks ≡ u ∷ v ∷ vs
      → select_next clock now candidates s ≡ (raise several_in_progress, s)
  unfolding select_next
  select_next-several u v vs e = rw (e, select_next) refl

-- A task that `select_next` returns is the only one in progress, or no task is in progress and it
-- is a ready task that no ready task comes before by depth, creation time and id; in both cases
-- it is the active one afterwards.
pub select_next-some :
    (clock : ℕ → ℕ → String) (now : String) (candidates : Bool) (s : ProjectState) (t : TaskNode)
    → (select_next clock now candidates s).0 ≡ ok (some t)
    → ((select (has_status in_progress) s.tasks ≡ t ∷ [])
        × ((select_next clock now candidates s).1 ≡ record s { active_task_id = some t.id }))
      ⊎ ((select (has_status in_progress) s.tasks ≡ [])
          × IsChosen t (select_next clock now candidates s).1)
unfolding select_next
select_next-some clock now candidates s t h =
    elim (List-cases (select (has_status in_progress) s.tasks)) [
      | inl e ↦ inr (
        e,
        rw (e, select_next)
            (then_choose-some now (update_ready_tasks clock candidates s) t
              (rw (e, select_next) at h)),
      )
      | inr (u, us, e) ↦ elim (List-cases us) [
        | inl d ↦
            let one = select_next-one clock now candidates s u (rw d at e) in
            let same : u ≡ t = ground (arith, one) in inl (e ∙ rw (same, d) refl, cc)
        | inr (v, vs, d) ↦
            absurd (ground (arith, select_next-several clock now candidates s u v vs (rw d at e)))
      ]
    ]
