-- ===== src/Control/Channel.antt =====
-- src/longrun_agent/control/channel.py: `TaskControlChannel`. `F` is the type of floating-point
-- numbers in the results. What builds a candidate (`register_test_candidate`, which reads the
-- workspace) and what validates it are arguments; each may raise, with a message.
pub mod Signals
pub mod Candidates
pub mod Identity
use long_running_coding_agen.Prelude.{
  lists_eq, is_some, ℕ, ◌+◌, String, Bool, true, false, not, ◌&&◌, ◌||◌, Option, none, some, List,
  [], ◌∷◌, ◌++◌, str_eq, leb, ltb, if◌then◌else◌, length, count, find, select, Result, ok, raise,
}
use long_running_coding_agen.Verification.Schema.{TestCandidate}

pub data ControlSignalType : Type 0 where
  progress blocker completion_request decomposition_request : ControlSignalType

pub record ControlSignal : Type 0 where
  pub type : ControlSignalType
  pub summary : Option String
  pub files_touched : List String
  pub reason : Option String
  pub attempted_actions : List String
  pub decomposition_recommended : Bool
  pub acceptance_criteria_addressed : List String

-- The payload of `GeneratedTestRequirementError`, less its fixed texts.
pub record Requirement : Type 0 where
  pub retryable : Bool
  pub registered_candidates : ℕ
  pub valid_candidates : ℕ
  pub registration_attempts : ℕ
  pub completion_requests : ℕ
  pub required_registered : ℕ
  pub required_valid : ℕ

pub data ChannelError : Type 0 where
  requirement_unmet : Requirement → ChannelError
  terminal_signal_exists not_configured attempts_exhausted candidates_exhausted : ChannelError
  candidate_error : String → ChannelError

pub record Channel (F : Type 0) : Type 0 where
  pub signals : List ControlSignal
  pub workspace : Option String
  pub task_id : String
  pub session_id : String
  pub max_test_candidates : ℕ
  pub require_test_candidate_before_completion : Bool
  pub minimum_registered_candidates : ℕ
  pub minimum_valid_candidates : ℕ
  pub max_registration_attempts : ℕ
  pub test_candidates : List (TestCandidate F)
  pub new_test_candidates : List (TestCandidate F)
  pub registration_attempt_count : ℕ
  pub completion_request_count : ℕ

unfoldable pub is_progress : ControlSignal → Bool
is_progress s = elim s.type [ progress ↦ true | _ ↦ false ]

unfoldable pub is_completion : ControlSignal → Bool
is_completion s = elim s.type [ completion_request ↦ true | _ ↦ false ]

abbrev pub is_terminal : ControlSignal → Bool
is_terminal s = not (is_progress s)

module _ {F : Type 0} where
  unfoldable pub terminal_signal : Channel F → Option ControlSignal
  unfolding is_progress
  terminal_signal c = find is_terminal c.signals

  unfoldable pub progress_signals : Channel F → List ControlSignal
  unfolding is_progress
  progress_signals c = select is_progress c.signals

  abbrev pub is_valid_candidate : TestCandidate F → Bool
  is_valid_candidate t =
      t.valid
      && (not t.valid_but_irrelevant
          && (is_some t.transition && (is_some t.baseline_result && is_some t.candidate_result)))

  unfoldable pub valid_test_candidate_count : Channel F → ℕ
  valid_test_candidate_count c = count is_valid_candidate c.test_candidates

  -- `generated_test_requirement_error`, with what `workflow_state` puts into its payload
  unfoldable pub generated_test_requirement_error : Channel F → Option Requirement
  generated_test_requirement_error c =
      if not c.require_test_candidate_before_completion
      then none
      else if leb c.minimum_registered_candidates (length c.test_candidates)
          && leb c.minimum_valid_candidates (valid_test_candidate_count c)
      then none
      else some (record {
        retryable = ltb c.registration_attempt_count c.max_registration_attempts;
        registered_candidates = length c.test_candidates;
        valid_candidates = valid_test_candidate_count c;
        registration_attempts = c.registration_attempt_count;
        completion_requests = c.completion_request_count;
        required_registered = c.minimum_registered_candidates;
        required_valid = c.minimum_valid_candidates;
      })

module _ {F : Type 0} where
  -- The end of `record`, behind the check of a completion request.
  unfoldable pub append_signal :
      ControlSignal → Channel F → Result ChannelError (Unit {0}) × Channel F
  unfolding terminal_signal
  append_signal s c =
      if is_terminal s && is_some (terminal_signal c)
      then (raise terminal_signal_exists, c)
      else (ok tt, record c { signals = c.signals ++ s ∷ [] })

  abbrev unless_unmet :
      Option Requirement → ControlSignal → Channel F → Result ChannelError (Unit {0}) × Channel F
  unless_unmet none s c = append_signal s c
  unless_unmet (some r) s c = (raise (requirement_unmet r), c)

  -- `TaskControlChannel.record`. A completion request is counted before it is checked.
  unfoldable pub record_signal :
      ControlSignal → Channel F → Result ChannelError (Unit {0}) × Channel F
  unfolding append_signal generated_test_requirement_error is_completion
  record_signal s c =
      if is_completion s
      then (let c' = record c { completion_request_count = c.completion_request_count + 1 } in
          unless_unmet (generated_test_requirement_error c') s c')
      else append_signal s c

  -- The test by which a candidate is registered anew.
  unfoldable pub same_test : (paths command_argv : List String) → TestCandidate F → Bool
  unfolding lists_eq
  same_test paths argv t = lists_eq t.paths paths && lists_eq t.command_argv argv

  -- `self.test_candidates[existing_index] = candidate`, at the first candidate that `p` finds.
  unfoldable pub replace_first :
      (TestCandidate F → Bool) → TestCandidate F → List (TestCandidate F) → List (TestCandidate F)
  replace_first p t [] = []
  replace_first p t (u ∷ us) = let rest = u ∷ replace_first p t us in if p u then t ∷ us else rest

  -- `if existing_index is not None: candidate.candidate_id = …`
  abbrev pub keep_id : Option (TestCandidate F) → TestCandidate F → TestCandidate F
  keep_id none t = t
  keep_id (some old) t = record t { candidate_id = old.candidate_id }

  abbrev pub then_validate :
      Option (TestCandidate F → Result String (TestCandidate F))
      → TestCandidate F
      → Result String (TestCandidate F)
  then_validate none t = ok t
  then_validate (some validate) t = validate t

  abbrev pub store :
      (TestCandidate F → Bool) → Option (TestCandidate F) → TestCandidate F → Channel F → Channel F
  store same none t c = record c {
    test_candidates = c.test_candidates ++ t ∷ [];
    new_test_candidates = c.new_test_candidates ++ t ∷ [];
  }
  store same (some old) t c = record c {
    test_candidates = replace_first same t c.test_candidates;
    new_test_candidates = c.new_test_candidates ++ t ∷ [];
  }

  -- The call of the validator on the candidate that was built, and the store of its result.
  abbrev pub finish :
      (TestCandidate F → Bool)
      → Option (TestCandidate F)
      → Result String (TestCandidate F)
      → Channel F
      → Result ChannelError (TestCandidate F) × Channel F
  finish same existing (raise e) c = (raise (candidate_error e), c)
  finish same existing (ok t) c = (ok t, store same existing t c)

  abbrev pub validated :
      Option (TestCandidate F → Result String (TestCandidate F))
      → Option (TestCandidate F)
      → Result String (TestCandidate F)
      → Result String (TestCandidate F)
  validated validator existing (raise e) = raise e
  validated validator existing (ok t) = then_validate validator (keep_id existing t)

  -- `if self.workspace is None or not self.task_id or not self.session_id`, negated
  abbrev pub is_configured : Channel F → Bool
  is_configured c =
      is_some c.workspace && (not (str_eq c.task_id "") && not (str_eq c.session_id ""))

  -- `TaskControlChannel.register_test_candidate`. `built` is what `register_test_candidate` of
  -- generated_tests.py gives for the arguments.
  unfoldable pub register_test_candidate :
      (built : Result String (TestCandidate F))
      → (validator : Option (TestCandidate F → Result String (TestCandidate F)))
      → (paths command_argv : List String) → Channel F
      → Result ChannelError (TestCandidate F) × Channel F
  unfolding same_test replace_first
  register_test_candidate built validator paths argv c =
      let c' = record c { registration_attempt_count = c.registration_attempt_count + 1 } in
      let existing = find (same_test paths argv) c.test_candidates in
      if not (is_configured c)
      then (raise not_configured, c)
      else if leb c.max_registration_attempts c.registration_attempt_count
      then (raise attempts_exhausted, c)
      else if not (is_some existing) && leb c.max_test_candidates (length c.test_candidates)
      then (raise candidates_exhausted, c')
      else finish (same_test paths argv) existing (validated validator existing built) c'
