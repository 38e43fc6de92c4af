-- ===== src/State/Aggregation/Loop.antt =====
-- The loop of an aggregation ends, and what it leaves.
use mathlib.Core.List.{append_assoc, append-nil}
use long_running_coding_agen.Prelude.{
  subst, ℕ, zero, suc, ◌≤◌, ◌<◌, String, ◌≡◌, inl, inr, refl, sym, ◌∙◌, Bool, true, false, ◌&&◌,
  some, List, [], ◌∷◌, ◌++◌, arith, if◌then◌else◌, length, count, count-le-length, All, is_empty,
  Bool-cases,
}
use long_running_coding_agen.State.Schema.{TaskNode, ProjectState}
use long_running_coding_agen.State.Aggregation.Evolution.{
  Finishing, Lawful, EvolvesAll, has_done_children, EvolvesAll-refl, EvolvesAll-trans,
  EvolvesAll-finish,
}
use long_running_coding_agen.State.Aggregation.{Policy, Pass, sweep, sweeps, aggregate}

-- The policy finishes, as `f` does, the open tasks whose children are all done.
pub record Follows (p : Policy) (f : Finishing) : Type 0 where
  pub lawful : Lawful f
  pub finishes : (now : ℕ → String) (t : TaskNode) → p.finish now t ≡ f.finish now t
  pub applies :
      (ts : List TaskNode) (t : TaskNode)
      → p.applies ts t ≡ (f.is_open t && has_done_children f.is_done t.id ts)

module _ (p : Policy) (f : Finishing) (follows : Follows p f) where
  -- One pass over `rest`, behind `done`.
  record Swept (done rest : List TaskNode) (changed : List String) (updated : Bool) (r : Pass)
      : Type 0 where
    evolves : EvolvesAll f r.tasks (done ++ rest) r.tasks
    no_more : count f.is_open r.tasks ≤ count f.is_open (done ++ rest)
    progress :
        updated ≡ false
        → r.updated ≡ true
        → count f.is_open r.tasks < count f.is_open (done ++ rest)
    keeps : updated ≡ true → r.updated ≡ true
    idle_tasks : r.updated ≡ false → r.tasks ≡ done ++ rest
    idle_changed : r.updated ≡ false → r.changed ≡ changed
    idle : r.updated ≡ false → All (λ t. p.applies (done ++ rest) t ≡ false) rest

  count-finish :
      (xs : List TaskNode) (t u : TaskNode) (ys : List TaskNode)
      → f.is_open t ≡ true
      → f.is_open u ≡ false
      → count f.is_open (xs ++ u ∷ ys) < count f.is_open (xs ++ t ∷ ys)
  unfolding count
  count-finish [] t u ys h k = ground arith
  count-finish (x ∷ xs) t u ys h k = ground (arith, count-finish xs t u ys)

  sweep-hit :
      (clock : ℕ → ℕ → String) (t : TaskNode) (rest done : List TaskNode) (changed : List String)
      (updated : Bool)
      → p.applies (done ++ t ∷ rest) t ≡ true
      → sweep p clock done (t ∷ rest) changed updated
        ≡ sweep p clock
            (done ++ p.finish (clock (length done)) t ∷ [])
            rest
            (changed ++ t.id ∷ [])
            true
  unfolding sweep
  sweep-hit clock t rest done changed updated hit = rw hit refl

  sweep-miss :
      (clock : ℕ → ℕ → String) (t : TaskNode) (rest done : List TaskNode) (changed : List String)
      (updated : Bool)
      → p.applies (done ++ t ∷ rest) t ≡ false
      → sweep p clock done (t ∷ rest) changed updated
        ≡ sweep p clock (done ++ t ∷ []) rest changed updated
  unfolding sweep
  sweep-miss clock t rest done changed updated miss = rw miss refl

  Swept-hit :
      (now : ℕ → String) (t : TaskNode) (rest done : List TaskNode) (changed changed' : List String)
      (updated : Bool) (r : Pass)
      → p.applies (done ++ t ∷ rest) t ≡ true
      → Swept (done ++ f.finish now t ∷ []) rest changed' true r
      → Swept done (t ∷ rest) changed updated r
  Swept-hit now t rest done changed changed' updated r hit ih =
      let u = f.finish now t in
      let shift = append_assoc done (u ∷ []) rest in
      let applies = follows.applies (done ++ t ∷ rest) t in
      let o : f.is_open t ≡ true = ground (arith, applies, hit) in
      let c : has_done_children f.is_done t.id (done ++ t ∷ rest) ≡ true =
        ground (arith, applies, hit) in
      let less = count-finish done t u rest o (follows.lawful.closed now t) in
      let bound : count f.is_open r.tasks ≤ count f.is_open (done ++ u ∷ rest) =
        rw shift at ih.no_more in
      record {
        evolves =
            EvolvesAll-trans f follows.lawful (done ++ t ∷ rest) (done ++ u ∷ rest) r.tasks
              (EvolvesAll-finish f follows.lawful now done t rest o c) (rw shift at ih.evolves);
        no_more = omega arith;
        progress = λ a b. omega arith;
        keeps = λ a. ih.keeps refl;
        idle_tasks = λ a. cc (ih.keeps refl);
        idle_changed = λ a. cc (ih.keeps refl);
        idle = λ a. cc (ih.keeps refl);
      }

  Swept-miss :
      (t : TaskNode) (rest done : List TaskNode) (changed : List String) (updated : Bool) (r : Pass)
      → p.applies (done ++ t ∷ rest) t ≡ false
      → Swept (done ++ t ∷ []) rest changed updated r
      → Swept done (t ∷ rest) changed updated r
  Swept-miss t rest done changed updated r miss ih =
      let shift = append_assoc done (t ∷ []) rest in
      record {
        evolves = rw shift at ih.evolves;
        no_more = rw shift at ih.no_more;
        progress = λ a b.
            subst (λ (l : List TaskNode). count f.is_open r.tasks < count f.is_open l) shift
              (ih.progress a b);
        keeps = ih.keeps;
        idle_tasks = λ a. ih.idle_tasks a ∙ shift;
        idle_changed = ih.idle_changed;
        idle = λ a. (
          miss,
          subst (λ (l : List TaskNode). All (λ v. p.applies l v ≡ false) rest) shift (ih.idle a),
        );
      }

  sweep-Swept :
      (clock : ℕ → ℕ → String) (rest done : List TaskNode) (changed : List String) (updated : Bool)
      → Swept done rest changed updated (sweep p clock done rest changed updated)
  sweep-Swept clock [] done changed updated =
      unfold sweep in
      record {
        evolves = rw append-nil (EvolvesAll-refl f follows.lawful done done);
        no_more = rw append-nil (omega arith);
        progress = λ a b. cc;
        keeps = λ a. a;
        idle_tasks = λ a. sym (append-nil done);
        idle_changed = λ a. refl;
        idle = λ a. tt;
      }
  sweep-Swept clock (t ∷ rest) done changed updated =
      elim (Bool-cases (p.applies (done ++ t ∷ rest) t)) [
        | inl hit ↦
            let now = clock (length done) in
            rw (sweep-hit clock t rest done changed updated hit, follows.finishes now t)
              (Swept-hit now t rest done changed (changed ++ t.id ∷ []) updated _ hit
                (sweep-Swept clock rest (done ++ f.finish now t ∷ []) (changed ++ t.id ∷ []) true))
        | inr miss ↦ rw (sweep-miss clock t rest done changed updated miss) (
            Swept-miss t rest done changed updated _ miss
              (sweep-Swept clock rest (done ++ t ∷ []) changed updated))
      ]

  -- What the loop ends with: nothing is left to finish, and tasks changed only by being finished.
  pub record Ended (tasks after : List TaskNode) : Type 0 where
    pub settled : All (λ t. (f.is_open t && has_done_children f.is_done t.id after) ≡ false) after
    pub history : EvolvesAll f after tasks after

  sweeps-more :
      (clock : ℕ → ℕ → ℕ → String) (fuel : ℕ) (tasks : List TaskNode) (changed : List String)
      → (sweep p (clock fuel) [] tasks changed false).updated ≡ true
      → sweeps p clock (suc fuel) tasks changed
        ≡ sweeps p clock fuel
            (sweep p (clock fuel) [] tasks changed false).tasks
            (sweep p (clock fuel) [] tasks changed false).changed
  unfolding sweeps
  sweeps-more clock fuel tasks changed e = rw e refl

  sweeps-done :
      (clock : ℕ → ℕ → ℕ → String) (fuel : ℕ) (tasks : List TaskNode) (changed : List String)
      → (sweep p (clock fuel) [] tasks changed false).updated ≡ false
      → sweeps p clock (suc fuel) tasks changed
        ≡ some (
          (sweep p (clock fuel) [] tasks changed false).tasks,
          (sweep p (clock fuel) [] tasks changed false).changed,
        )
  unfolding sweeps
  sweeps-done clock fuel tasks changed e = rw e refl

  settle :
      (tasks ts : List TaskNode)
      → All (λ t. p.applies tasks t ≡ false) ts
      → All (λ t. (f.is_open t && has_done_children f.is_done t.id tasks) ≡ false) ts
  settle tasks [] h = tt
  settle tasks (t ∷ ts) h = (sym (follows.applies tasks t) ∙ h.0, settle tasks ts h.1)

  sweeps-Ended :
      (clock : ℕ → ℕ → ℕ → String) (fuel : ℕ) (tasks : List TaskNode) (changed : List String)
      → count f.is_open tasks < fuel
      → (after : List TaskNode) × (changed' : List String) × (sweeps p clock fuel tasks changed
          ≡ some (after, changed'))
        × Ended tasks after
  sweeps-Ended clock zero tasks changed h = absurd (omega arith)
  sweeps-Ended clock (suc fuel) tasks changed h =
      let pass = sweep p (clock fuel) [] tasks changed false in
      let swept = sweep-Swept (clock fuel) tasks [] changed false in
      elim (Bool-cases pass.updated) [
        | inl e ↦
            let less = swept.progress refl e in
            let (after, changed', ends, ended) =
              sweeps-Ended clock fuel pass.tasks pass.changed (omega arith) in
            (
              after,
              changed',
              sweeps-more clock fuel tasks changed e ∙ ends,
              record {
                settled = ended.settled;
                history =
                    EvolvesAll-trans f follows.lawful tasks pass.tasks after swept.evolves
                      ended.history;
              },
            )
        | inr e ↦ (
          pass.tasks,
          pass.changed,
          sweeps-done clock fuel tasks changed e,
          record {
            settled =
                subst
                  (λ (l : List TaskNode).
                    All (λ t. (f.is_open t && has_done_children f.is_done t.id l) ≡ false) l)
                  (sym (swept.idle_tasks e)) (settle tasks tasks (swept.idle e));
            history = swept.evolves;
          },
        )
      ]

  pub aggregate-Ended :
      (clock : ℕ → ℕ → ℕ → String) (now : String) (s : ProjectState)
      → (changed : List String) × (after : ProjectState) × (aggregate p clock now s
          ≡ some (changed, after))
        × Ended s.tasks after.tasks
  unfolding aggregate
  aggregate-Ended clock now s =
      let bound = count-le-length f.is_open s.tasks in
      let (after, changed, ends, ended) =
        sweeps-Ended clock (suc (length s.tasks)) s.tasks [] (omega arith) in
      (
        changed,
        record s { tasks = after; updated_at = if is_empty changed then s.updated_at else now },
        rw (ends, aggregate) refl,
        ended,
      )
