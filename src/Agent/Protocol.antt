-- ===== src/Agent/Protocol.antt =====
-- src/longrun_agent/protocol.py and the settings of the loop in config.py; and what the loop of
-- src/longrun_agent/agent/loop.py calls. `J` is the type of JSON values.
use long_running_coding_agen.Prelude.{ℕ, String, Bool, Option, List}
use long_running_coding_agen.Context.Turn.{Message, BufferError}
use long_running_coding_agen.Context.Buffer.{ContextBuffer}
use long_running_coding_agen.Prelude.{Result}

pub data RunStatus : Type 0 where
  completed max_steps_reached time_limit_reached final_without_terminal_signal : RunStatus
  terminal_signal_missing aborted provider_error protocol_error context_budget_exhausted : RunStatus

pub data ErrorType : Type 0 where
  provider protocol policy_gate tool invalid_tool_arguments tool_internal environment : ErrorType
  generated_test_requirement_unmet workspace_access_denied private_data_blocked : ErrorType
  sandbox_runtime_error evaluation_sandbox_unavailable : ErrorType
  evaluation_sandbox_runtime_unavailable : ErrorType

pub record ToolCall (J : Type 0) : Type 0 where
  pub id : String
  pub name : String
  pub arguments : J

-- Of the metadata, the entry that the loop reads: `unsupported_shell_syntax`.
pub record ToolResult (J : Type 0) : Type 0 where
  pub tool_call_id : String
  pub tool_name : String
  pub success : Bool
  pub summary : String
  pub output : String
  pub unsupported_shell_syntax : Bool
  pub metadata : J
  pub artifact_path : Option String
  pub error_type : Option ErrorType
  pub error_message : Option String
  pub retryable : Bool

-- The values of the dictionary at the keys that the loop reads.
pub record Usage : Type 0 where
  pub input_tokens : Option ℕ
  pub output_tokens : Option ℕ
  pub total_tokens : Option ℕ

-- Of the raw metadata, the entry that the loop reads: `message`.
pub record ModelResponse (J : Type 0) : Type 0 where
  pub tool_calls : List (ToolCall J)
  pub final_answer : Option String
  pub usage : Usage
  pub provider_request_id : Option String
  pub message : Option (Message J)

pub record AgentConfig : Type 0 where
  pub max_steps : ℕ
  pub max_consecutive_errors : ℕ
  pub max_session_seconds : ℕ
  pub terminal_grace_turns : ℕ
  pub protocol_retries_per_step : ℕ

-- The settings of the reminders of generated tests; `enabled` is `_generated_test_workflow_enabled`.
pub record ReminderConfig : Type 0 where
  pub enabled : Bool
  pub reminder_after_steps : ℕ
  pub reminder_interval_steps : ℕ

-- What `ContextLifecycleManager.prepare` returns, as far as the loop reads it; `exhausted` is its
-- action `BUDGET_EXHAUSTED`.
pub record Preparation (J : Type 0) : Type 0 where
  pub exhausted : Bool
  pub reset_performed : Bool
  pub messages : List (Message J)

-- A call of the model: it returns, it raises `ToolArgumentsProtocolError`, for which
-- `_tool_arguments_retry_message` has a text, or it raises another exception.
pub data Generation (J : Type 0) : Type 0 where
  responded : ModelResponse J → Generation J
  bad_arguments : (retry_message : String) → Generation J
  failed : Generation J

-- What the loop calls: the model, the router of the tools, the clock, the manager of the context and
-- the callbacks of its caller. A `World` is the state of all of these; the callbacks only read it. A
-- callback that may be missing is an option, and a list of tool schemas is the flag
-- `terminal_tools_only` that selects it.
pub record Environment (J : Type 0) : Type 1 where
  pub World : Type 0
  -- `time.monotonic() >= session_deadline`
  pub past_deadline : World → Bool × World
  pub now : World → String
  -- `generated_test_state().get("registered_candidates", 0)`
  pub registered_candidates : Option (World → ℕ)
  pub stop_condition : Option (World → Bool)
  pub completion_evidence : Option (World → Bool)
  pub knowledge_decision_pending : World → Bool
  pub prepare :
      (terminal_tools_only : Bool) (step : ℕ)
      → World
      → ContextBuffer J
      → Result BufferError (Preparation J) × (World × ContextBuffer J)
  pub start_context_segment : World → World
  pub generate : (terminal_tools_only : Bool) → List (Message J) → World → Generation J × World
  pub record_protocol_retry : World → World
  pub record_actual_usage : (step : ℕ) → ModelResponse J → World → World
  pub execute : ToolCall J → World → ToolResult J × World
  -- `action_required_message` of the router, or ""
  pub action_required : World → String
  pub clear_action_required : World → World
  -- the tokens of the compactor in `metrics`
  pub compactor_tokens : World → ℕ
  -- JSON values and texts
  pub call_payload : ToolCall J → J
  pub text_payload : String → J
  pub result_text : ToolResult J → String
