-- ===== src/State/Aggregation/Fixpoint.antt =====
-- The two aggregations end, with nothing left to aggregate, and change only what they may.
use long_running_coding_agen.Prelude.{
  ℕ, String, ◌≡◌, refl, ap, true, false, not, ◌&&◌, ◌||◌, Option, none, some, str_eq, List, arith,
  All,
}
use long_running_coding_agen.State.Schema.{
  decomposed, candidate_complete, verified, ProjectState, has_status, status_eq,
}
use long_running_coding_agen.State.Aggregation.Evolution.{
  Finishing, Lawful, EvolvesAll, has_done_children, children-has_done_children,
}
use long_running_coding_agen.State.Aggregation.{
  children, candidate_policy, verified_policy, aggregate_candidate_complete_parents,
  aggregate_verified_parents,
}
use long_running_coding_agen.State.Aggregation.Loop.{Follows, aggregate-Ended}

-- A decomposed task is made candidate complete, behind children that are so or verified.
abbrev pub to_candidate_complete : Finishing
to_candidate_complete = record {
  is_open = λ t. has_status decomposed t;
  is_done = λ t. has_status candidate_complete t || has_status verified t;
  finish = λ now t. record t {
    status = candidate_complete;
    completion_summary = some "All child tasks are candidate complete.";
    updated_at = now 0;
  };
}

-- A decomposed or candidate complete task without a contract is verified, behind verified children.
abbrev pub to_verified : Finishing
to_verified = record {
  is_open = λ t.
      (has_status decomposed t || has_status candidate_complete t)
      && (elim t.verification_contract_id [ none ↦ true | some c ↦ str_eq c "" ]);
  is_done = has_status verified;
  finish = λ now t. record t {
    status = verified;
    verification_status = some "verified_by_children";
    verified_at = some (now 0);
    updated_at = now 1;
  };
}

pub to_candidate_complete-Lawful : Lawful to_candidate_complete
unfolding status_eq
to_candidate_complete-Lawful = record {
  closed = λ now t. refl;
  done = λ now t. refl;
  same_id = λ now t. refl;
  same_parent = λ now t. refl;
}

pub to_verified-Lawful : Lawful to_verified
unfolding status_eq
to_verified-Lawful = record {
  closed = λ now t. refl;
  done = λ now t. refl;
  same_id = λ now t. refl;
  same_parent = λ now t. refl;
}

candidate-Follows : Follows candidate_policy to_candidate_complete
unfolding candidate_policy children status_eq
candidate-Follows = record {
  lawful = to_candidate_complete-Lawful;
  finishes = λ now t. refl;
  applies = λ ts t.
      ap (λ b. has_status decomposed t && b)
        (children-has_done_children to_candidate_complete.is_done t.id ts);
}

contract_cases :
    (o : Option String)
    → not (elim o [ none ↦ false | some c ↦ not (str_eq c "") ])
      ≡ (elim o [ none ↦ true | some c ↦ str_eq c "" ])
contract_cases none = refl
contract_cases (some c) = ground arith

verified-Follows : Follows verified_policy to_verified
unfolding verified_policy children status_eq
verified-Follows = record {
  lawful = to_verified-Lawful;
  finishes = λ now t. refl;
  applies = λ ts t.
      rw
        (
          contract_cases t.verification_contract_id,
          children-has_done_children (has_status verified) t.id ts,
        )
        refl;
}

-- The loop of `aggregate_candidate_complete_parents` ends. Each task is then as it was, or it was
-- decomposed, has children, and all of them are candidate complete or verified, and is itself made
-- candidate complete; and no decomposed task with children, all so, is left.
pub aggregate_candidate_complete_parents_lem :
    (clock : ℕ → ℕ → ℕ → String) (now : String) (s : ProjectState)
    → (changed : List String) × (after : ProjectState) × (aggregate_candidate_complete_parents clock
          now s
        ≡ some (changed, after))
      × EvolvesAll to_candidate_complete after.tasks s.tasks after.tasks
      × All
          (λ t.
            (to_candidate_complete.is_open t
              && has_done_children to_candidate_complete.is_done t.id after.tasks)
            ≡ false)
          after.tasks
unfolding aggregate_candidate_complete_parents
aggregate_candidate_complete_parents_lem clock now s =
    let (changed, after, e, ended) =
      aggregate-Ended candidate_policy to_candidate_complete candidate-Follows clock now s in
    (changed, after, e, ended.history, ended.settled)

-- The loop of `aggregate_verified_parents` ends. Each task is then as it was, or it was decomposed
-- or candidate complete without a contract of its own, has children, and all of them are verified,
-- and is itself made verified; and no such task with children, all verified, is left.
pub aggregate_verified_parents_lem :
    (clock : ℕ → ℕ → ℕ → String) (now : String) (s : ProjectState)
    → (changed : List String) × (after : ProjectState) × (aggregate_verified_parents clock now s
        ≡ some (changed, after))
      × EvolvesAll to_verified after.tasks s.tasks after.tasks
      × All
          (λ t.
            (to_verified.is_open t && has_done_children to_verified.is_done t.id after.tasks)
            ≡ false)
          after.tasks
unfolding aggregate_verified_parents
aggregate_verified_parents_lem clock now s =
    let (changed, after, e, ended) =
      aggregate-Ended verified_policy to_verified verified-Follows clock now s in
    (changed, after, e, ended.history, ended.settled)
