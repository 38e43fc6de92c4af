-- ===== src/Samples/Agent.antt =====
-- A model that completes a task at its second request, and the theorems of `Agent` at it.
use long_running_coding_agen.Prelude.{
  select, any, elem, all, ℕ, suc, ◌+◌, String, refl, true, false, none, some, [], ◌∷◌, leb, ◌==◌,
  if◌then◌else◌, Result, ok,
}
use long_running_coding_agen.Context.Turn.{turn_add_result, complete, BufferError}
use long_running_coding_agen.Context.Buffer.{from_task}
use long_running_coding_agen.Agent.Protocol.{
  RunStatus, ToolCall, ToolResult, ModelResponse, AgentConfig, ReminderConfig, responded,
  bad_arguments, Environment,
}
use long_running_coding_agen.Agent.Session.{Session}
use long_running_coding_agen.Agent.Loop.{Reply, replied, generate_with_protocol_retries}
use long_running_coding_agen.Agent.Loop.Retries.{
  IsBounded, generate_with_protocol_retries-IsBounded,
}
use long_running_coding_agen.Agent.Steps.{RunResult, initial, run_with_controls}
use long_running_coding_agen.Agent.Steps.Status.{IsSound, run_with_controls-IsSound}

abbrev completing : ModelResponse String
completing = record {
  tool_calls = record { id = "1"; name = "request_task_completion"; arguments = "" } ∷ [];
  final_answer = none;
  usage = record { input_tokens = some 5; output_tokens = some 2; total_tokens = some 7 };
  provider_request_id = none;
  message = none;
}

abbrev done : ToolCall String → ToolResult String
done c = record {
  tool_call_id = c.id;
  tool_name = c.name;
  success = true;
  summary = "done";
  output = "";
  unsupported_shell_syntax = false;
  metadata = "";
  artifact_path = none;
  error_type = none;
  error_message = none;
  retryable = false;
}

-- The world counts requests, and ten more when the tool has run.
abbrev environment : Environment String
environment = record {
  World = ℕ;
  past_deadline = λ w. (false, w);
  now = λ w. "t";
  registered_candidates = none;
  stop_condition = some (λ w. leb 10 w);
  completion_evidence = none;
  knowledge_decision_pending = λ w. false;
  prepare = λ t step w b.
      (ok (record { exhausted = false; reset_performed = false; messages = [] }), (w, b));
  start_context_segment = λ w. w;
  generate =
      λ t messages w. (if w == 0 then bad_arguments "again" else responded completing, suc w);
  record_protocol_retry = λ w. w;
  record_actual_usage = λ step r w. w;
  execute = λ c w. (done c, 10 + w);
  action_required = λ w. "";
  clear_action_required = λ w. w;
  compactor_tokens = λ w. 0;
  call_payload = λ c. "";
  text_payload = λ t. t;
  result_text = λ r. r.summary;
}

abbrev config : AgentConfig
config = record {
  max_steps = 3;
  max_consecutive_errors = 2;
  max_session_seconds = 60;
  terminal_grace_turns = 1;
  protocol_retries_per_step = 2;
}

abbrev policy : ReminderConfig
policy = record { enabled = false; reminder_after_steps = 6; reminder_interval_steps = 4 }

abbrev start : Session environment
start = initial environment config policy true 0 (from_task "system" "task")

abbrev outcome : Result BufferError RunResult × Session environment
outcome = run_with_controls environment config policy true start

abbrev completed_run : RunResult
completed_run = record {
  status = RunStatus.completed;
  final_answer = none;
  steps = 1;
  consecutive_errors = 0;
  tool_call_count = 1;
  total_tokens = 7;
  input_tokens_total = 5;
  output_tokens_total = 2;
  terminal_grace_turn_count = 0;
  terminal_signal_recovered = false;
  tool_argument_protocol_retry_count = 1;
  protocol_error_count = 0;
  recoverable_protocol_error_count = 1;
  fatal_protocol_error_count = 0;
  provider_error_count = 0;
}

run_with_controls-IsSound_example : IsSound environment config policy true completed_run outcome.1
unfolding run_with_controls from_task select any turn_add_result elem complete all
run_with_controls-IsSound_example =
    run_with_controls-IsSound environment config policy true start outcome.1 completed_run refl

abbrev request : Result BufferError (Reply String × ℕ) × Session environment
request = generate_with_protocol_retries environment config true 1 [] start

generate_with_protocol_retries-IsBounded_example :
    IsBounded environment 2 (replied completing, 1) request.1
unfolding generate_with_protocol_retries from_task
generate_with_protocol_retries-IsBounded_example =
    generate_with_protocol_retries-IsBounded environment config true 1 [] start request.1
      (replied completing, 1) refl
