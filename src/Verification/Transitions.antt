-- ===== src/Verification/Transitions.antt =====
-- src/longrun_agent/verification/transitions.py: from the results of the checks on the baseline
-- and on the candidate to a verdict. `Floats` is the arithmetic of the two rates.
pub mod Results
pub mod Verdict
use long_running_coding_agen.Prelude.{
  ℕ, ◌+◌, ◌-◌, String, Bool, true, false, not, ◌&&◌, ◌||◌, Option, none, some, List, [], ◌∷◌, ◌++◌,
  str_eq, ltb, ◌==◌, if◌then◌else◌, length, any, select, count, find_last, is_empty,
}
use long_running_coding_agen.Verification.Schema.{
  CheckKind, resolution, regression, candidate_only, static, integrity, kind_eq, ExpectedState,
  any_state, not_run, pass, fail, ExecutionStatus, passed, failed, timeout, error, skipped,
  is_passed, TestTransition, f2p, f2f, p2p, p2f, x2p, x2f, p2x, f2x, x2x, transition_eq, is_hidden,
  is_blocking, VerificationVerdict, verified, reopened, partial, inconclusive, infrastructure_error,
  VerificationCheck, CheckExecutionResult, CheckTransitionResult, IntegrityViolation,
  VerificationSummary,
}

pub record Floats : Type 1 where
  pub Float : Type 0
  pub one : Float
  pub divide : ℕ → ℕ → Float

-- The letters of a transition's name.
pub data StateLetter : Type 0 where
  p f x : StateLetter

-- `TestTransition(f"{left}2{right}")`
unfoldable pub from_letters : StateLetter → StateLetter → TestTransition
from_letters p p = p2p
from_letters p f = p2f
from_letters p x = p2x
from_letters f p = f2p
from_letters f f = f2f
from_letters f x = f2x
from_letters x p = x2p
from_letters x f = x2f
from_letters x x = x2x

unfoldable pub status_letter : ExecutionStatus → StateLetter
status_letter passed = p
status_letter failed = f
status_letter _ = x

abbrev pub shows : TestTransition → Option CheckTransitionResult → Bool
shows t none = false
shows t (some r) = transition_eq r.transition t

abbrev pub shows_passed : Option CheckTransitionResult → Bool
shows_passed none = false
shows_passed (some r) = is_passed r.candidate_status

module _ (floats : Floats) where
  open floats use {Float, one, divide}

  abbrev pub Check : Type 0
  Check = VerificationCheck Float

  abbrev pub Execution : Type 0
  Execution = CheckExecutionResult Float

  -- `_state_letter`
  unfoldable pub state_letter : Option Execution → StateLetter
  unfolding status_letter
  state_letter none = x
  state_letter (some r) = status_letter r.status

  unfoldable pub compute_transition : Option Execution → Option Execution → TestTransition
  unfolding from_letters state_letter
  compute_transition before after = from_letters (state_letter before) (state_letter after)

  -- `{result.check_id: result for result in results}.get(check_id)`
  abbrev pub result_of : String → List Execution → Option Execution
  result_of i = find_last (λ r. str_eq r.check_id i)

  abbrev pub status_or_skipped : Option Execution → ExecutionStatus
  status_or_skipped none = skipped
  status_or_skipped (some r) = r.status

  unfoldable pub build_transition :
      (baseline_results candidate_results : List Execution) → Check → CheckTransitionResult
  unfolding compute_transition
  build_transition before after c = record {
    check_id = c.check_id;
    kind = c.kind;
    required = c.required;
    transition = compute_transition (result_of c.check_id before) (result_of c.check_id after);
    baseline_status = status_or_skipped (result_of c.check_id before);
    candidate_status = status_or_skipped (result_of c.check_id after);
  }

  unfoldable pub build_transitions :
      List Check
      → (baseline_results candidate_results : List Execution) → List CheckTransitionResult
  unfolding build_transition
  build_transitions [] before after = []
  build_transitions (c ∷ cs) before after =
      let rest = build_transitions cs before after in
      if not (kind_eq c.kind integrity) then build_transition before after c ∷ rest else rest

  -- `if result.infrastructure_error`
  abbrev pub has_infrastructure_error : Execution → Bool
  has_infrastructure_error r = elim r.infrastructure_error [
    | none ↦ false
    | some e ↦ not (str_eq e "")
  ]

  abbrev pub is_required : CheckKind → Check → Bool
  is_required k c = c.required && kind_eq c.kind k

  -- `check.kind in {CANDIDATE_ONLY, STATIC}`
  abbrev pub is_candidate_check : Check → Bool
  is_candidate_check c = c.required && (kind_eq c.kind candidate_only || kind_eq c.kind static)

  abbrev pub transition_of : String → List CheckTransitionResult → Option CheckTransitionResult
  transition_of i = find_last (λ t. str_eq t.check_id i)

  -- `by_id.get(id) is not None and by_id[id].transition == t`
  abbrev pub went : TestTransition → List CheckTransitionResult → Check → Bool
  went t transitions c = shows t (transition_of c.check_id transitions)

  abbrev pub candidate_passed : List CheckTransitionResult → Check → Bool
  candidate_passed transitions c = shows_passed (transition_of c.check_id transitions)

  -- The tests of `baseline_matches_contract` on one check. An expectation of `None`
  -- is unequal to PASS, so it is read as a failure expected.
  unfoldable pub matches_expectation : Option ExpectedState → Option Execution → Bool
  matches_expectation (some any_state) r = true
  matches_expectation (some not_run) r = true
  matches_expectation (some pass) none = false
  matches_expectation (some pass) (some r) = is_passed r.status
  matches_expectation _ none = false
  matches_expectation _ (some r) = not (is_passed r.status)

  unfoldable pub baseline_matches_contract : List Check → List Execution → Bool
  unfolding matches_expectation
  baseline_matches_contract [] results = true
  baseline_matches_contract (c ∷ cs) results =
      matches_expectation c.baseline_expected (result_of c.check_id results)
      && baseline_matches_contract cs results

  abbrev pub rate : ℕ → ℕ → Float
  rate part total = if total == 0 then one else divide part total

  unfoldable pub summarize :
      List Check
      → List CheckTransitionResult
      → List IntegrityViolation
      → (candidate_results : List Execution) → VerificationSummary Float
  summarize checks transitions violations after =
      let resolutions = select (is_required resolution) checks in
      let regressions = select (is_required regression) checks in
      let others = select is_candidate_check checks in
      let resolved = count (went f2p transitions) resolutions in
      let kept = count (went p2p transitions) regressions in
      let others_passed = count (candidate_passed transitions) others in
      let required_passed = resolved + kept + others_passed in
      record {
        resolution_total = length resolutions;
        resolution_passed = resolved;
        f2p_rate = rate resolved (length resolutions);
        regression_total = length regressions;
        regression_passed = kept;
        p2p_rate = rate kept (length regressions);
        required_checks_passed = required_passed;
        required_checks_failed =
            length resolutions + length regressions + length others - required_passed;
        partial_resolution = ltb 0 resolved && ltb resolved (length resolutions);
        integrity_passed = not (any (λ v. is_blocking v.severity) violations);
        hidden_checks_passed = count (λ r. is_passed r.status && is_hidden r.visibility) after;
        hidden_checks_failed =
            count (λ r. not (is_passed r.status) && is_hidden r.visibility) after;
      }

  -- `required_total`
  abbrev pub required_total : List Check → ℕ
  required_total checks =
      length (select (is_required resolution) checks)
      + length (select (is_required regression) checks)
      + length (select is_candidate_check checks)

  unfoldable pub decide :
      List Check
      → VerificationSummary Float
      → (baseline_results candidate_results : List Execution) → VerificationVerdict
  unfolding baseline_matches_contract
  decide checks s before after =
      if any has_infrastructure_error (before ++ after)
      then infrastructure_error
      else if not (baseline_matches_contract checks before)
      then inconclusive
      else if required_total checks == 0
      then inconclusive
      else if (s.required_checks_passed == required_total checks) && s.integrity_passed
      then verified
      else if s.partial_resolution
          && (s.regression_passed == s.regression_total)
          && s.integrity_passed
      then partial
      else reopened

  unfoldable pub summarize_and_decide :
      List Check
      → List CheckTransitionResult
      → List IntegrityViolation
      → (baseline_results candidate_results : List Execution)
      → VerificationSummary Float × VerificationVerdict
  unfolding summarize decide
  summarize_and_decide checks transitions violations before after =
      let s = summarize checks transitions violations after in (s, decide checks s before after)
