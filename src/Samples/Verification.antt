-- ===== src/Samples/Verification.antt =====
-- A small contract, its results, and the theorems of `Verification` at them.
use long_running_coding_agen.Prelude.{
  ℕ, String, ◌≡◌, refl, true, false, none, some, List, [], ◌∷◌, any, select, count, find_last,
}
use long_running_coding_agen.Verification.Schema.{
  CheckKind, ExecutionStatus, ExpectedState, CheckVisibility, WorkspaceKind, VerificationVerdict,
  kind_eq, is_passed, transition_eq, is_hidden, is_blocking, VerificationCheck,
  CheckExecutionResult,
}
use long_running_coding_agen.Verification.Transitions.{
  Floats, build_transitions, summarize_and_decide,
}
use long_running_coding_agen.Verification.Transitions.Verdict.{Proven, verified-Proven}

abbrev ratios : Floats
ratios = record { Float = ℕ × ℕ; one = (1, 1); divide = λ a b. (a, b) }

abbrev check : String → CheckKind → ExpectedState → VerificationCheck (ℕ × ℕ)
check i k e = record {
  check_id = i;
  title = "check";
  kind = k;
  visibility = CheckVisibility.public;
  argv = "true" ∷ [];
  cwd = ".";
  timeout_seconds = 60;
  required = true;
  weight = (1, 1);
  baseline_expected = some e;
  candidate_expected = some ExpectedState.pass;
  environment = [];
  artifact_patterns = [];
  tags = [];
}

abbrev result : String → CheckKind → WorkspaceKind → ExecutionStatus → CheckExecutionResult (ℕ × ℕ)
result i k w s = record {
  check_id = i;
  kind = k;
  visibility = CheckVisibility.public;
  workspace_kind = w;
  started_at = "t";
  finished_at = "t";
  duration_seconds = (1, 1);
  exit_code = none;
  timed_out = false;
  stdout_excerpt = "";
  stderr_excerpt = "";
  stdout_artifact = none;
  stderr_artifact = none;
  status = s;
  infrastructure_error = none;
  environment_fingerprint = "e";
}

-- One check that the work is to make pass, and one that is to keep passing.
abbrev contract : List (VerificationCheck (ℕ × ℕ))
contract =
    check "new" CheckKind.resolution ExpectedState.fail
    ∷ check "old" CheckKind.regression ExpectedState.pass
    ∷ []

abbrev before : List (CheckExecutionResult (ℕ × ℕ))
before =
    result "new" CheckKind.resolution WorkspaceKind.baseline ExecutionStatus.failed
    ∷ result "old" CheckKind.regression WorkspaceKind.baseline ExecutionStatus.passed
    ∷ []

abbrev after : List (CheckExecutionResult (ℕ × ℕ))
after =
    result "new" CheckKind.resolution WorkspaceKind.candidate ExecutionStatus.passed
    ∷ result "old" CheckKind.regression WorkspaceKind.candidate ExecutionStatus.passed
    ∷ []

program : Unit {0}
unfolding any select count find_last build_transitions kind_eq is_passed transition_eq is_hidden
    is_blocking summarize_and_decide
program = tt

accepted :
    (summarize_and_decide ratios contract
      (build_transitions ratios contract before after)
      []
      before
      after).1
    ≡ VerificationVerdict.verified
unfolding program
accepted = refl

verified-Proven_example : Proven ratios contract [] before after
verified-Proven_example = verified-Proven ratios contract [] before after accepted
