-- ===== src/State/Aggregation/Evolution.antt =====
-- What the aggregations may do to a list of tasks: finish open ones whose children are all done.
use long_running_coding_agen.Prelude.{
  ℕ, String, ◌≡◌, ◌⊎◌, inl, inr, refl, ap, ◌∙◌, Bool, true, false, not, ◌&&◌, ◌||◌, List, [], ◌∷◌,
  ◌++◌, arith, all, any, select, is_empty, find, some, str_eq, str_eq_iff, Bool-cases,
}
use long_running_coding_agen.State.Schema.{TaskNode, task_by_id}
use long_running_coding_agen.State.Aggregation.{is_child_of}

-- Some task has the parent `i`, and all that have it are done.
abbrev pub has_done_children : (TaskNode → Bool) → String → List TaskNode → Bool
has_done_children is_done i ts =
    any (is_child_of i) ts && all (λ c. not (is_child_of i c) || is_done c) ts

-- What the tasks are that a loop may finish, what counts as done, and how a task is finished.
pub record Finishing : Type 0 where
  pub is_open : TaskNode → Bool
  pub is_done : TaskNode → Bool
  pub finish : (ℕ → String) → TaskNode → TaskNode

-- `u` is `t`, or is `t` finished, which was open and whose children are all done among `after`.
abbrev pub Evolves : Finishing → List TaskNode → TaskNode → TaskNode → Type 0
Evolves f after t u =
    (u ≡ t)
    ⊎ ((now : ℕ → String) × (f.is_open t ≡ true)
        × (u ≡ f.finish now t)
        × (has_done_children f.is_done t.id after ≡ true))

abbrev pub EvolvesAll : Finishing → (after : List TaskNode) → List TaskNode → List TaskNode → Type 0
EvolvesAll f after [] [] = Unit
EvolvesAll f after (t ∷ ts) (u ∷ us) = Evolves f after t u × EvolvesAll f after ts us
EvolvesAll f after _ _ = ⊥

-- A finished task is done, no longer open, and keeps its identifier and its parent.
pub record Lawful (f : Finishing) : Type 0 where
  pub closed : (now : ℕ → String) (t : TaskNode) → f.is_open (f.finish now t) ≡ false
  pub done : (now : ℕ → String) (t : TaskNode) → f.is_done (f.finish now t) ≡ true
  pub same_id : (now : ℕ → String) (t : TaskNode) → (f.finish now t).id ≡ t.id
  pub same_parent : (now : ℕ → String) (t : TaskNode) → (f.finish now t).parent_id ≡ t.parent_id

any-select : {A : Type 0} (p : A → Bool) (xs : List A) → not (is_empty (select p xs)) ≡ any p xs
unfolding any select
any-select p [] = refl
any-select p (x ∷ xs) = ground (arith, any-select p xs)

all-select :
    {A : Type 0} (p q : A → Bool) (xs : List A)
    → all q (select p xs) ≡ all (λ x. not (p x) || q x) xs
unfolding all select
all-select p q [] = refl
all-select p q (x ∷ xs) = ground (arith, all-select p q xs)

-- The test of the code on the list of the children.
pub children-has_done_children :
    (is_done : TaskNode → Bool) (i : String) (ts : List TaskNode)
    → (not (is_empty (select (is_child_of i) ts)) && all is_done (select (is_child_of i) ts))
      ≡ has_done_children is_done i ts
children-has_done_children d i ts =
    rw (any-select (is_child_of i) ts, all-select (is_child_of i) d ts) refl

module _ (f : Finishing) (lawful : Lawful f) where
  same_child :
      (after : List TaskNode) (t u : TaskNode) (i : String)
      → Evolves f after t u
      → is_child_of i u ≡ is_child_of i t
  same_child after t u i (inl e) = rw e refl
  same_child after t u i (inr (now, o, e, c)) = rw (e, lawful.same_parent now t) refl

  done_later :
      (after : List TaskNode) (t u : TaskNode)
      → Evolves f after t u
      → f.is_done t ≡ true
      → f.is_done u ≡ true
  done_later after t u (inl e) h = rw e h
  done_later after t u (inr (now, o, e, c)) h = rw e (lawful.done now t)

  any-child :
      (after ts us : List TaskNode) (i : String)
      → EvolvesAll f after ts us
      → any (is_child_of i) us ≡ any (is_child_of i) ts
  unfolding any
  any-child after [] [] i h = refl
  any-child after (t ∷ ts) (u ∷ us) i h =
      rw (same_child after t u i h.0, any-child after ts us i h.1) refl
  any-child after [] (u ∷ us) i h = absurd h
  any-child after (t ∷ ts) [] i h = absurd h

  all-children :
      (after ts us : List TaskNode) (i : String)
      → EvolvesAll f after ts us
      → all (λ c. not (is_child_of i c) || f.is_done c) ts ≡ true
      → all (λ c. not (is_child_of i c) || f.is_done c) us ≡ true
  unfolding all
  all-children after [] [] i h k = refl
  all-children after (t ∷ ts) (u ∷ us) i h k =
      let same = same_child after t u i h.0 in
      let later = done_later after t u h.0 in
      let rest = all-children after ts us i h.1 in rw same (ground (arith, later, rest, k))
  all-children after [] (u ∷ us) i h k = absurd h
  all-children after (t ∷ ts) [] i h k = absurd h

  -- Children that are done stay done.
  has_done_children-later :
      (after ts us : List TaskNode) (i : String)
      → EvolvesAll f after ts us
      → has_done_children f.is_done i ts ≡ true
      → has_done_children f.is_done i us ≡ true
  has_done_children-later after ts us i h k =
      let a = any-child after ts us i h in
      let b = all-children after ts us i h in ground (arith, a, b, k)

  Evolves-trans :
      (us vs : List TaskNode)
      → EvolvesAll f vs us vs
      → (t u v : TaskNode) → Evolves f us t u
      → Evolves f vs u v
      → Evolves f vs t v
  Evolves-trans us vs h t u v (inl e) (inl d) = inl (d ∙ e)
  Evolves-trans us vs h t u v (inl e) (inr (now, o, d, c)) =
      inr (now, rw e at o, d ∙ ap (f.finish now) e, rw e at c)
  Evolves-trans us vs h t u v (inr (now, o, e, c)) (inl d) =
      inr (now, o, d ∙ e, has_done_children-later vs us vs t.id h c)
  Evolves-trans us vs h t u v (inr (now, o, e, c)) (inr (now', o', d, c')) =
      absurd (cc (lawful.closed now t))

  trans :
      (us vs : List TaskNode)
      → EvolvesAll f vs us vs
      → (xs ys zs : List TaskNode) → EvolvesAll f us xs ys
      → EvolvesAll f vs ys zs
      → EvolvesAll f vs xs zs
  trans us vs h [] [] [] k l = tt
  trans us vs h (x ∷ xs) (y ∷ ys) (z ∷ zs) k l =
      (Evolves-trans us vs h x y z k.0 l.0, trans us vs h xs ys zs k.1 l.1)
  trans us vs h [] [] (z ∷ zs) k l = absurd l
  trans us vs h [] (y ∷ ys) zs k l = absurd k
  trans us vs h (x ∷ xs) [] zs k l = absurd k
  trans us vs h (x ∷ xs) (y ∷ ys) [] k l = absurd l

  pub EvolvesAll-trans :
      (ts us vs : List TaskNode)
      → EvolvesAll f us ts us
      → EvolvesAll f vs us vs
      → EvolvesAll f vs ts vs
  EvolvesAll-trans ts us vs h k = trans us vs k ts us vs h k

  pub EvolvesAll-refl : (after ts : List TaskNode) → EvolvesAll f after ts ts
  EvolvesAll-refl after [] = tt
  EvolvesAll-refl after (t ∷ ts) = (inl refl, EvolvesAll-refl after ts)

  middle :
      (after xs : List TaskNode) (t u : TaskNode) (ys : List TaskNode)
      → Evolves f after t u
      → EvolvesAll f after (xs ++ t ∷ ys) (xs ++ u ∷ ys)
  middle after [] t u ys h = (h, EvolvesAll-refl after ys)
  middle after (x ∷ xs) t u ys h = (inl refl, middle after xs t u ys h)

  -- One open task is finished, whose children are all done.
  pub EvolvesAll-finish :
      (now : ℕ → String) (xs : List TaskNode) (t : TaskNode) (ys : List TaskNode)
      → f.is_open t ≡ true
      → has_done_children f.is_done t.id (xs ++ t ∷ ys) ≡ true
      → EvolvesAll f (xs ++ f.finish now t ∷ ys) (xs ++ t ∷ ys) (xs ++ f.finish now t ∷ ys)
  EvolvesAll-finish now xs t ys o c =
      let u = f.finish now t in
      middle (xs ++ u ∷ ys) xs t u ys (
        inr (
          now,
          o,
          refl,
          has_done_children-later (xs ++ t ∷ ys) (xs ++ t ∷ ys) (xs ++ u ∷ ys) t.id
              (middle (xs ++ t ∷ ys) xs t u ys (inr (now, o, refl, c))) c,
        ))

  -- What an identifier finds is as before, or is a finished task.
  pub task_by_id-EvolvesAll :
      (after ts us : List TaskNode) (i : String)
      → EvolvesAll f after ts us
      → (task_by_id i us ≡ task_by_id i ts)
        ⊎ ((t : TaskNode) × (now : ℕ → String) × (task_by_id i ts ≡ some t)
            × (task_by_id i us ≡ some (f.finish now t))
            × (f.is_open t ≡ true)
            × (has_done_children f.is_done i after ≡ true))
  unfolding task_by_id find
  task_by_id-EvolvesAll after [] [] i h = inl refl
  task_by_id-EvolvesAll after (t ∷ ts) (u ∷ us) i (inl e, h) = elim (Bool-cases (str_eq t.id i)) [
    | inl d ↦ inl (rw (e, d) refl)
    | inr d ↦ rw (e, d) (task_by_id-EvolvesAll after ts us i h)
  ]
  task_by_id-EvolvesAll after (t ∷ ts) (u ∷ us) i (inr (now, o, e, c), h) =
      elim (Bool-cases (str_eq t.id i)) [
        | inl d ↦
            let same : t.id ≡ i = (str_eq_iff t.id i).0 d in
            inr (t, now, rw d refl, rw (e, lawful.same_id now t, d) refl, o, rw same at c)
        | inr d ↦ rw (e, lawful.same_id now t, d) (task_by_id-EvolvesAll after ts us i h)
      ]
  task_by_id-EvolvesAll after [] (u ∷ us) i h = absurd h
  task_by_id-EvolvesAll after (t ∷ ts) [] i h = absurd h
