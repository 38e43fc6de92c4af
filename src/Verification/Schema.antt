-- ===== src/Verification/Schema.antt =====
-- src/longrun_agent/verification/schema.py: checks, results and verdicts. The floating-point
-- numbers are a parameter `F`: the code divides two counts, and reads no such number back.
use Prim.Native.String.{String}
use long_running_coding_agen.Prelude.{ℕ, Bool, true, false, Option, List}

-- An exit code, which is negative where a signal ended the process.
pub data ℤ : Type 0 where
  pos negsuc : ℕ → ℤ

pub data CheckKind : Type 0 where
  resolution regression candidate_only static integrity generated_test : CheckKind

pub data CheckVisibility : Type 0 where
  public hidden : CheckVisibility

pub data ExpectedState : Type 0 where
  pass fail any_state not_run : ExpectedState

pub data ExecutionStatus : Type 0 where
  passed failed timeout error skipped : ExecutionStatus

pub data TestTransition : Type 0 where
  f2p f2f p2p p2f x2p x2f p2x f2x x2x : TestTransition

pub data VerificationVerdict : Type 0 where
  verified reopened partial inconclusive infrastructure_error contract_invalid : VerificationVerdict

pub data WorkspaceKind : Type 0 where
  baseline candidate gold current : WorkspaceKind

pub data Severity : Type 0 where
  warning error critical : Severity

-- `a == b` on the members of each enumeration.
unfoldable pub kind_eq : CheckKind → CheckKind → Bool
kind_eq resolution resolution = true
kind_eq regression regression = true
kind_eq candidate_only candidate_only = true
kind_eq static static = true
kind_eq integrity integrity = true
kind_eq generated_test generated_test = true
kind_eq _ _ = false

unfoldable pub is_passed : ExecutionStatus → Bool
is_passed passed = true
is_passed _ = false

unfoldable pub transition_eq : TestTransition → TestTransition → Bool
transition_eq f2p f2p = true
transition_eq f2f f2f = true
transition_eq p2p p2p = true
transition_eq p2f p2f = true
transition_eq x2p x2p = true
transition_eq x2f x2f = true
transition_eq p2x p2x = true
transition_eq f2x f2x = true
transition_eq x2x x2x = true
transition_eq _ _ = false

unfoldable pub is_hidden : CheckVisibility → Bool
is_hidden hidden = true
is_hidden public = false

-- `item.severity in {"error", "critical"}`
unfoldable pub is_blocking : Severity → Bool
is_blocking warning = false
is_blocking _ = true

pub record VerificationCheck (F : Type 0) : Type 0 where
  pub check_id : String
  pub title : String
  pub kind : CheckKind
  pub visibility : CheckVisibility
  pub argv : List String
  pub cwd : String
  pub timeout_seconds : ℕ
  pub required : Bool
  pub weight : F
  pub baseline_expected : Option ExpectedState
  pub candidate_expected : Option ExpectedState
  pub environment : List (String × String)
  pub artifact_patterns : List String
  pub tags : List String

pub record CheckExecutionResult (F : Type 0) : Type 0 where
  pub check_id : String
  pub kind : CheckKind
  pub visibility : CheckVisibility
  pub workspace_kind : WorkspaceKind
  pub started_at : String
  pub finished_at : String
  pub duration_seconds : F
  pub exit_code : Option ℤ
  pub timed_out : Bool
  pub stdout_excerpt : String
  pub stderr_excerpt : String
  pub stdout_artifact : Option String
  pub stderr_artifact : Option String
  pub status : ExecutionStatus
  pub infrastructure_error : Option String
  pub environment_fingerprint : String

pub record CheckTransitionResult : Type 0 where
  pub check_id : String
  pub kind : CheckKind
  pub required : Bool
  pub transition : TestTransition
  pub baseline_status : ExecutionStatus
  pub candidate_status : ExecutionStatus

pub record IntegrityViolation : Type 0 where
  pub violation_id : String
  pub category : String
  pub path : String
  pub description : String
  pub severity : Severity
  pub evidence : List String
  pub agent_visible_summary : String

pub record VerificationSummary (F : Type 0) : Type 0 where
  pub resolution_total : ℕ
  pub resolution_passed : ℕ
  pub f2p_rate : F
  pub regression_total : ℕ
  pub regression_passed : ℕ
  pub p2p_rate : F
  pub required_checks_passed : ℕ
  pub required_checks_failed : ℕ
  pub partial_resolution : Bool
  pub integrity_passed : Bool
  pub hidden_checks_passed : ℕ
  pub hidden_checks_failed : ℕ

-- `int | float`
pub data Number (F : Type 0) : Type 0 where
  int : ℤ → Number F
  float : F → Number F

pub record TestCandidate (F : Type 0) : Type 0 where
  pub candidate_id : String
  pub task_id : String
  pub session_id : String
  pub paths : List String
  pub diff_artifact : String
  pub command_argv : List String
  pub issue_behavior : String
  pub expected_failure_reason : String
  pub baseline_result : Option (CheckExecutionResult F)
  pub candidate_result : Option (CheckExecutionResult F)
  pub transition : Option TestTransition
  pub valid : Bool
  pub valid_but_irrelevant : Bool
  pub rejection_reasons : List String
  pub coverage_summary : List (String × Number F)
  pub created_at : String
