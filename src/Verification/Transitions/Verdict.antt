-- ===== src/Verification/Transitions/Verdict.antt =====
-- What a verdict says of the results that it was made from.
use long_running_coding_agen.Prelude.{
  ◌+◌, ◌<◌, ◌≡◌, Bool, true, false, List, ◌++◌, arith, length, any, select, count, count-le-length,
  All,
}
use long_running_coding_agen.Verification.Schema.{
  resolution, regression, passed, failed, f2p, p2p, is_blocking, VerificationVerdict, verified,
  CheckTransitionResult, IntegrityViolation, VerificationSummary,
}
use long_running_coding_agen.Verification.Transitions.{
  Floats, result_of, build_transitions, transition_of, went, candidate_passed, is_required,
  is_candidate_check, has_infrastructure_error, baseline_matches_contract, decide,
  summarize_and_decide, required_total, Check, Execution,
}
use long_running_coding_agen.Verification.Transitions.Results.{
  count-length-All, All-select, All-mono, any-false-All, shows-some, shows_passed-some, Ran,
  transition_of-OfResults, f2p-HasStatus, p2p-HasStatus, is_passed-HasStatus,
}

module _ (floats : Floats) where
  module _ (checks : List (Check floats)) (violations : List IntegrityViolation)
      (before after : List (Execution floats)) where
    abbrev transitions : List CheckTransitionResult
    transitions = build_transitions floats checks before after

    abbrev outcome : VerificationSummary floats.Float × VerificationVerdict
    outcome = summarize_and_decide floats checks transitions violations before after

    went-f2p :
        (c : Check floats)
        → went floats f2p transitions c ≡ true
        → Ran floats failed c.check_id before × Ran floats passed c.check_id after
    went-f2p c h =
        let (t, e, k) = shows-some f2p (transition_of floats c.check_id transitions) h in
        let made = transition_of-OfResults floats before after c.check_id checks t e in
        f2p-HasStatus floats (result_of floats c.check_id before)
          (result_of floats c.check_id after) (rw made.transition at k)

    went-p2p :
        (c : Check floats)
        → went floats p2p transitions c ≡ true
        → Ran floats passed c.check_id before × Ran floats passed c.check_id after
    went-p2p c h =
        let (t, e, k) = shows-some p2p (transition_of floats c.check_id transitions) h in
        let made = transition_of-OfResults floats before after c.check_id checks t e in
        p2p-HasStatus floats (result_of floats c.check_id before)
          (result_of floats c.check_id after) (rw made.transition at k)

    candidate_passed-Ran :
        (c : Check floats)
        → candidate_passed floats transitions c ≡ true
        → Ran floats passed c.check_id after
    candidate_passed-Ran c h =
        let (t, e, k) = shows_passed-some (transition_of floats c.check_id transitions) h in
        let made = transition_of-OfResults floats before after c.check_id checks t e in
        is_passed-HasStatus floats (result_of floats c.check_id after)
          (rw made.candidate_status at k)

    -- The branch of `decide` that says VERIFIED.
    decide-verified :
        outcome.1 ≡ verified
        → (any (has_infrastructure_error floats) (before ++ after) ≡ false)
          × (baseline_matches_contract floats checks before ≡ true)
          × (0 < required_total floats checks)
          × (outcome.0.required_checks_passed ≡ required_total floats checks)
          × (outcome.0.integrity_passed ≡ true)
    unfolding summarize_and_decide decide
    decide-verified h = (ground arith, ground arith, ground arith, ground arith, ground arith)

    no_violation :
        outcome.0.integrity_passed ≡ true → any (λ v. is_blocking v.severity) violations ≡ false
    unfolding summarize_and_decide
    no_violation h = ground arith

    counts_full :
        outcome.1 ≡ verified
        → (count (went floats f2p transitions) (select (is_required floats resolution) checks)
            ≡ length (select (is_required floats resolution) checks))
          × (count (went floats p2p transitions) (select (is_required floats regression) checks)
              ≡ length (select (is_required floats regression) checks))
          × (count (candidate_passed floats transitions) (select (is_candidate_check floats) checks)
              ≡ length (select (is_candidate_check floats) checks))
    counts_full h =
        let (_, _, _, total, _) = decide-verified h in
        let sum : count (went floats f2p transitions)
                (select (is_required floats resolution) checks)
              + count (went floats p2p transitions) (select (is_required floats regression) checks)
              + count (candidate_passed floats transitions)
                  (select (is_candidate_check floats) checks)
            ≡ required_total floats checks =
          unfold summarize_and_decide in total in
        let a =
          count-le-length (went floats f2p transitions)
            (select (is_required floats resolution) checks) in
        let b =
          count-le-length (went floats p2p transitions)
            (select (is_required floats regression) checks) in
        let c =
          count-le-length (candidate_passed floats transitions)
            (select (is_candidate_check floats) checks) in
        (omega arith, omega arith, omega arith)

    -- All checks that satisfy `p` pass the test `q`, and the test means `P`.
    required_pass :
        (P : Check floats → Type 0) (p q : Check floats → Bool)
        → count q (select p checks) ≡ length (select p checks)
        → ((c : Check floats) → q c ≡ true → P c)
        → All (λ c. p c ≡ true → P c) checks
    required_pass P p q full means = All-select P p checks (
        All-mono (λ c. q c ≡ true) P (select p checks) means
          (count-length-All q (select p checks) full))

    -- What a VERIFIED verdict says.
    pub record Proven : Type 0 where
      pub resolutions :
          All
            (λ c.
              is_required floats resolution c ≡ true
              → Ran floats failed c.check_id before × Ran floats passed c.check_id after)
            checks
      pub regressions :
          All
            (λ c.
              is_required floats regression c ≡ true
              → Ran floats passed c.check_id before × Ran floats passed c.check_id after)
            checks
      pub candidate_checks :
          All (λ c. is_candidate_check floats c ≡ true → Ran floats passed c.check_id after) checks
      pub some_required : 0 < required_total floats checks
      pub baseline : baseline_matches_contract floats checks before ≡ true
      pub no_infrastructure_error :
          All (λ r. has_infrastructure_error floats r ≡ false) (before ++ after)
      pub no_blocking_violation :
          All (λ (v : IntegrityViolation). is_blocking v.severity ≡ false) violations

    -- A VERIFIED verdict on the transitions that `build_transitions` makes of the results means that
    -- every required resolution check failed on the baseline and passed on the candidate, every
    -- required regression check passed on both, every required candidate-only or static check passed
    -- on the candidate, at least one check is required, the baseline is as the contract expects, no
    -- result has an infrastructure error, and no violation is an error or critical.
    pub verified-Proven : outcome.1 ≡ verified → Proven
    verified-Proven h =
        let (quiet, matches, some_required, _, clean) = decide-verified h in
        let (r, g, o) = counts_full h in
        record {
          resolutions =
              required_pass
                (λ c. Ran floats failed c.check_id before × Ran floats passed c.check_id after)
                (is_required floats resolution) (went floats f2p transitions) r went-f2p;
          regressions =
              required_pass
                (λ c. Ran floats passed c.check_id before × Ran floats passed c.check_id after)
                (is_required floats regression) (went floats p2p transitions) g went-p2p;
          candidate_checks =
              required_pass (λ c. Ran floats passed c.check_id after) (is_candidate_check floats)
                (candidate_passed floats transitions) o candidate_passed-Ran;
          some_required = some_required;
          baseline = matches;
          no_infrastructure_error =
              any-false-All (has_infrastructure_error floats) (before ++ after) quiet;
          no_blocking_violation =
              any-false-All (λ v. is_blocking v.severity) violations (no_violation clean);
        }
