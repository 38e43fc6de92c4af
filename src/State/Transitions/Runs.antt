-- ===== src/State/Transitions/Runs.antt =====
-- Sequences of transition calls, legal or not, and of aggregations of parents, on any tasks.
use long_running_coding_agen.Prelude.{
  sym, ◌∙◌, List, ◌||◌, ◌&&◌, ap, ℕ, String, ◌≡◌, ◌≢◌, ◌⊎◌, inl, inr, refl, Bool, true, false,
  Option, none, some, arith, str_eq, str_eq_iff, Result, ok, raise, Bool-cases,
}
use long_running_coding_agen.State.Schema.{
  TaskStatus, verified, verification_pending, decomposed, candidate_complete, has_status, status_eq,
  TaskNode, ProjectState, task_by_id,
}
use long_running_coding_agen.State.Transitions.{legal, apply_status, transition}
use long_running_coding_agen.State.Aggregation.{
  aggregate_candidate_complete_parents, aggregate_verified_parents,
}
use long_running_coding_agen.State.Aggregation.Evolution.{
  Finishing, Lawful, EvolvesAll, has_done_children, task_by_id-EvolvesAll,
}
use long_running_coding_agen.State.Aggregation.Fixpoint.{
  to_candidate_complete, to_verified, to_candidate_complete-Lawful, to_verified-Lawful,
  aggregate_candidate_complete_parents_lem, aggregate_verified_parents_lem,
}
use long_running_coding_agen.State.Transitions.Frame.{
  transition-ok, transition-raise, task_by_id-update_self, task_by_id-update_ne,
}

abbrev pub option_status : Option TaskNode → Option TaskStatus
option_status none = none
option_status (some t) = some t.status

abbrev pub status_of : String → ProjectState → Option TaskStatus
status_of i s = option_status (task_by_id i s.tasks)

-- `u` is reached from `s` by calls of `transition`, those that raise included, and by aggregations.
pub data Run (s : ProjectState) : ProjectState → Type 0 where
  here : Run s s
  call :
      {t : ProjectState}
      → Run s t
      → (clock : ℕ → String) (i : String) (new : TaskStatus) (reason source : String)
      → (u : ProjectState) → u ≡ (transition clock t i new reason source).1
      → Run s u
  complete_parents :
      {t : ProjectState}
      → Run s t
      → (clock : ℕ → ℕ → ℕ → String) (now : String) (changed : List String) (u : ProjectState)
      → aggregate_candidate_complete_parents clock now t ≡ some (changed, u)
      → Run s u
  verify_parents :
      {t : ProjectState}
      → Run s t
      → (clock : ℕ → ℕ → ℕ → String) (now : String) (changed : List String) (u : ProjectState)
      → aggregate_verified_parents clock now t ≡ some (changed, u)
      → Run s u

Result-cases {ℓ κ} :
    {E : Type κ} {A : Type ℓ} (r : Result E A) → ((a : A) × (r ≡ ok a)) ⊎ ((e : E) × (r ≡ raise e))
Result-cases (ok a) = inl (a, refl)
Result-cases (raise e) = inr (e, refl)

-- A call leaves the status of a task, or moves it along a legal edge.
status_of-transition :
    (clock : ℕ → String) (s : ProjectState) (j : String) (new : TaskStatus)
    (reason source i : String)
    → (status_of i (transition clock s j new reason source).1 ≡ status_of i s)
      ⊎ ((old : TaskStatus) × (status_of i s ≡ some old)
          × (status_of i (transition clock s j new reason source).1 ≡ some new)
          × (legal old new ≡ true))
status_of-transition clock s j new reason source i =
    elim (Result-cases (transition clock s j new reason source).0) [
      | inr (e, h) ↦ inl (rw (transition-raise clock s j new reason source e h))
      | inl (r, h) ↦
          let (t, found, edge, moves, _, _) = transition-ok clock s j new reason source r h in
          elim (Bool-cases (str_eq j i)) [
            | inl same ↦
                let e : j ≡ i = (str_eq_iff j i).0 same in
                inr (
                  t.status,
                  rw (← e) (ap option_status found),
                  rw (moves, ← e)
                      (ap option_status (
                        task_by_id-update_self (apply_status (clock 0) new) (λ u. refl) j s.tasks t
                          found)),
                  edge,
                )
            | inr other ↦ inl (
                rw
                  (
                    moves,
                    task_by_id-update_ne (apply_status (clock 0) new) (λ u. refl) j i s.tasks
                        (λ e. false≢true_of (other) ((str_eq_iff j i).1 e)),
                  )
                  refl)
          ]
    ]
  where
    false≢true_of : {b : Bool} → b ≡ false → b ≡ true → ⊥
    false≢true_of p q = cc

legal-verified : (old : TaskStatus) → legal old verified ≡ true → old ≡ verification_pending
unfolding legal
legal-verified old h = ground arith

-- What an aggregation makes of the status that an identifier finds.
aggregated :
    (f : Finishing) (lawful : Lawful f) (i : String) (a : TaskStatus)
    (e : (now : ℕ → String) (t : TaskNode) → (f.finish now t).status ≡ a) (ts us : List TaskNode)
    → EvolvesAll f us ts us
    → (option_status (task_by_id i us) ≡ option_status (task_by_id i ts))
      ⊎ ((t : TaskNode) × (task_by_id i ts ≡ some t)
          × (f.is_open t ≡ true)
          × (option_status (task_by_id i us) ≡ some a)
          × (has_done_children f.is_done i us ≡ true))
aggregated f lawful i a e ts us h = elim (task_by_id-EvolvesAll f lawful us ts us i h) [
  | inl same ↦ inl (ap option_status same)
  | inr (t, now, found, finished, o, c) ↦ inr (t, found, o, rw finished (ap some (e now t)), c)
]

some-pair :
    {B C : Type 0} (o : Option (B × C)) (b d : B) (x y : C)
    → o ≡ some (b, x)
    → o ≡ some (d, y)
    → x ≡ y
some-pair o b d x y h k = cc

candidate-step :
    (clock : ℕ → ℕ → ℕ → String) (now : String) (changed : List String) (t u : ProjectState)
    (i : String)
    → aggregate_candidate_complete_parents clock now t ≡ some (changed, u)
    → status_of i u ≡ some verified
    → status_of i t ≡ some verified
candidate-step clock now changed t u i e k =
    let (changed', u', d, evolves, _) = aggregate_candidate_complete_parents_lem clock now t in
    let same = some-pair _ changed changed' u u' e d in
    elim (aggregated to_candidate_complete to_candidate_complete-Lawful i candidate_complete
      (λ w x. refl) t.tasks u'.tasks evolves) [
        | inl s ↦ sym s ∙ rw (← same) k
        | inr (x, found, o, made, c) ↦
            let made' : status_of i u ≡ some candidate_complete = rw same made in absurd (cc)
      ]

open_status :
    (a : TaskStatus) (b : Bool)
    → ((status_eq a decomposed || status_eq a candidate_complete) && b) ≡ true
    → (a ≡ decomposed) ⊎ (a ≡ candidate_complete)
unfolding status_eq
open_status a b h = ground arith

-- The task waits for its verification, or it may be verified with its children, which is when these
-- are all verified.
abbrev pub MayVerify : String → (m u : ProjectState) → Type 0
MayVerify i m u =
    (status_of i m ≡ some verification_pending)
    ⊎ (((status_of i m ≡ some decomposed) ⊎ (status_of i m ≡ some candidate_complete))
        × (m' : ProjectState) × Run m m'
        × Run m' u
        × (has_done_children (has_status verified) i m'.tasks ≡ true))

verify-step :
    (clock : ℕ → ℕ → ℕ → String) (now : String) (changed : List String) (t u : ProjectState)
    (i : String)
    → aggregate_verified_parents clock now t ≡ some (changed, u)
    → status_of i u ≡ some verified
    → (status_of i t ≡ some verified)
      ⊎ (((status_of i t ≡ some decomposed) ⊎ (status_of i t ≡ some candidate_complete))
          × (has_done_children (has_status verified) i u.tasks ≡ true))
verify-step clock now changed t u i e k =
    let (changed', u', d, evolves, _) = aggregate_verified_parents_lem clock now t in
    let same = some-pair _ changed changed' u u' e d in
    elim (aggregated to_verified to_verified-Lawful i verified (λ w x. refl) t.tasks u'.tasks
      evolves) [
        | inl s ↦ inl (sym s ∙ rw (← same) k)
        | inr (x, found, o, made, c) ↦ inr (
          elim (open_status x.status _ o) [
            | inl p ↦ inl (rw found (ap some p))
            | inr p ↦ inr (rw found (ap some p))
          ],
          rw same c,
        )
      ]

Run-trans : {s t u : ProjectState} → Run s t → Run t u → Run s u
Run-trans r here = r
Run-trans r (call q clock i new reason source u e) =
    call (Run-trans r q) clock i new reason source u e
Run-trans r (complete_parents q clock now changed u e) =
    complete_parents (Run-trans r q) clock now changed u e
Run-trans r (verify_parents q clock now changed u e) =
    verify_parents (Run-trans r q) clock now changed u e

MayVerify-later : (i : String) (m t u : ProjectState) → Run t u → MayVerify i m t → MayVerify i m u
MayVerify-later i m t u r (inl w) = inl w
MayVerify-later i m t u r (inr (w, m', q, p, c)) = inr (w, m', q, Run-trans p r, c)

-- In a sequence of transition calls and of aggregations of parents, a task that is not VERIFIED at
-- first and is so at the end is in between in a state in which it is VERIFICATION_PENDING, or in one
-- in which it is DECOMPOSED or CANDIDATE_COMPLETE and behind which it has children that are all
-- VERIFIED.
pub Run-verified :
    (i : String) (a : TaskStatus) {s u : ProjectState}
    → Run s u
    → status_of i s ≡ some a
    → a ≢ verified
    → status_of i u ≡ some verified
    → (m : ProjectState) × Run s m × Run m u × MayVerify i m u
Run-verified i a here h ne k = absurd (ne (cc))
Run-verified i a (call {t = t} run clock j new reason source u e) h ne k =
    let step = call here clock j new reason source u e in
    elim (status_of-transition clock t j new reason source i) [
      | inl same ↦
          let (m, before, behind, may) = Run-verified i a run h ne (cc) in
          (m, before, Run-trans behind step, MayVerify-later i m t u step may)
      | inr (old, was, now, edge) ↦
          let v : new ≡ verified = cc in
          (t, run, step, inl (rw was (rw (legal-verified old (rw v at edge)) refl)))
    ]
Run-verified i a (complete_parents {t = t} run clock now changed u e) h ne k =
    let step = complete_parents here clock now changed u e in
    let (m, before, behind, may) =
      Run-verified i a run h ne (candidate-step clock now changed t u i e k) in
    (m, before, Run-trans behind step, MayVerify-later i m t u step may)
Run-verified i a (verify_parents {t = t} run clock now changed u e) h ne k =
    let step = verify_parents here clock now changed u e in
    elim (verify-step clock now changed t u i e k) [
      | inl same ↦
          let (m, before, behind, may) = Run-verified i a run h ne same in
          (m, before, Run-trans behind step, MayVerify-later i m t u step may)
      | inr (was, c) ↦ (t, run, step, inr (was, u, step, here, c))
    ]
