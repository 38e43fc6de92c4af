-- ===== src/Samples/Control.antt =====
-- A small channel, signals and registrations on it, and the theorems of `Control` at them.
use long_running_coding_agen.Prelude.{
  Result, String, ◌≡◌, ◌⊎◌, ℕ, ◌≡◌, ◌≤◌, refl, false, none, some, List, [], ◌∷◌, arith, count, find,
  length, ok,
}
use long_running_coding_agen.Verification.Schema.{TestCandidate}
use long_running_coding_agen.Control.Channel.{
  ControlSignal, ControlSignalType, Channel, terminal_signal, record_signal,
  valid_test_candidate_count, register_test_candidate,
}
use long_running_coding_agen.Control.Channel.Signals.{
  IsSingle, record_signal-IsSingle, record_signal-completion,
}
use long_running_coding_agen.Control.Channel.Candidates.{
  IsBounded, register_test_candidate-IsBounded,
}

abbrev signal : ControlSignalType → ControlSignal
signal t = record {
  type = t;
  summary = some "done";
  files_touched = [];
  reason = none;
  attempted_actions = [];
  decomposition_recommended = false;
  acceptance_criteria_addressed = "works" ∷ [];
}

abbrev blocked : ControlSignal
blocked = signal ControlSignalType.blocker

abbrev done : ControlSignal
done = signal ControlSignalType.completion_request

abbrev candidate : TestCandidate ℕ
candidate = record {
  candidate_id = "c";
  task_id = "t";
  session_id = "s";
  paths = "tests/a.py" ∷ [];
  diff_artifact = "";
  command_argv = "pytest" ∷ [];
  issue_behavior = "";
  expected_failure_reason = "";
  baseline_result = none;
  candidate_result = none;
  transition = none;
  valid = false;
  valid_but_irrelevant = false;
  rejection_reasons = [];
  coverage_summary = [];
  created_at = "t";
}

abbrev channel : List ControlSignal → Channel ℕ
channel signals = record {
  signals = signals;
  workspace = some "w";
  task_id = "t";
  session_id = "s";
  max_test_candidates = 2;
  require_test_candidate_before_completion = false;
  minimum_registered_candidates = 1;
  minimum_valid_candidates = 1;
  max_registration_attempts = 3;
  test_candidates = [];
  new_test_candidates = [];
  registration_attempt_count = 0;
  completion_request_count = 0;
}

program : Unit {0}
unfolding count find record_signal
program = tt

record_signal-IsSingle_example : IsSingle (record_signal done (channel [])).1
unfolding count
record_signal-IsSingle_example = record_signal-IsSingle done (channel []) (omega arith)

record_signal-completion_example :
    (terminal_signal (channel []) ≡ none)
    × (terminal_signal (record_signal done (channel [])).1 ≡ some done)
    × ((false ≡ false)
        ⊎ ((1 ≤ length (channel []).test_candidates)
            × (1 ≤ valid_test_candidate_count (channel []))))
unfolding program
record_signal-completion_example = record_signal-completion done (channel []) refl refl

register_test_candidate-IsBounded_example :
    IsBounded
      (register_test_candidate
        (ok candidate)
        none
        ("tests/a.py" ∷ [])
        ("pytest" ∷ [])
        (channel [])).1
register_test_candidate-IsBounded_example =
    register_test_candidate-IsBounded (ok candidate) none ("tests/a.py" ∷ []) ("pytest" ∷ [])
      (channel []) (record { attempts = omega arith; candidates = omega arith })

-- The candidate as it is built for a second registration.
abbrev rebuilt : TestCandidate ℕ
rebuilt = record candidate { candidate_id = "d" }

abbrev registered_once : Channel ℕ
registered_once = record (channel []) {
  test_candidates = candidate ∷ [];
  registration_attempt_count = 1;
}

abbrev building : Result String (TestCandidate ℕ)
building = ok rebuilt
