-- ===== src/Agent/Loop.antt =====
-- src/longrun_agent/agent/loop.py: the parts of `AgentLoop.run_with_controls` that its two loops share.
-- The log is not kept.
pub mod Retries
use Prim.Native.Nat.{◌%◌}
use long_running_coding_agen.Prelude.{
  arith, Acc, dite, dec_le, lt_wf, ◌<◌, ◌≤◌, ℕ, zero, suc, ◌+◌, ◌-◌, String, Bool, true, false, not,
  ◌&&◌, ◌||◌, Option, none, some, List, [], ◌∷◌, ◌++◌, map, str_eq, if◌then◌else◌, ltb, leb, ◌==◌,
  is_empty, select, Result, ok, raise,
}
use long_running_coding_agen.Context.Turn.{Message, Call}
use long_running_coding_agen.Context.Buffer.{
  ContextBuffer, add_assistant_tool_turn, add_tool_result, finalize_turn, add_user_reminder,
  add_protocol_correction, add_assistant_final, plain,
}
use long_running_coding_agen.Agent.Protocol.{
  RunStatus, ErrorType, ToolCall, ToolResult, Usage, ModelResponse, AgentConfig, ReminderConfig,
  Preparation, Generation, responded, bad_arguments, failed, Environment,
}
use long_running_coding_agen.Agent.Texts.{
  three_turns_reminder, final_knowledge_reminder, final_evidence_reminder, final_progress_reminder,
  without_signal_correction, invalid_response_correction, terminal_grace_reminder,
  generated_test_workflow_reminder, generated_test_final_checklist,
}
use long_running_coding_agen.Agent.Session.{
  Session, Statement, return, ◌>>=◌, ◌>>◌, assign, when, branch, on_buffer,
}

abbrev or_zero : Option ℕ → ℕ
or_zero none = 0
or_zero (some n) = n

-- `_split_usage`
unfoldable pub split_usage : Usage → ℕ × ℕ
split_usage u =
    if or_zero u.input_tokens == 0
      && (or_zero u.output_tokens == 0 && ltb 0 (or_zero u.total_tokens))
    then (or_zero u.total_tokens, or_zero u.output_tokens)
    else (or_zero u.input_tokens, or_zero u.output_tokens)

abbrev is_knowledge_use : {J : Type 0} → ToolCall J → Bool
is_knowledge_use c = str_eq c.name "report_knowledge_use"

-- `_ordered_tool_calls`: the sort is stable.
unfoldable pub ordered_tool_calls : {J : Type 0} → List (ToolCall J) → List (ToolCall J)
ordered_tool_calls cs = select is_knowledge_use cs ++ select (λ c. not (is_knowledge_use c)) cs

abbrev is_environment : Option ErrorType → Bool
is_environment (some ErrorType.environment) = true
is_environment (some ErrorType.policy_gate) = true
is_environment (some ErrorType.generated_test_requirement_unmet) = true
is_environment _ = false

abbrev is_protocol : Option ErrorType → Bool
is_protocol (some ErrorType.protocol) = true
is_protocol _ = false

abbrev is_provider : Option ErrorType → Bool
is_provider (some ErrorType.provider) = true
is_provider _ = false

-- What `_generate_with_protocol_retries` returns: a response, or none with `protocol_failed`.
pub data Reply (J : Type 0) : Type 0 where
  replied : ModelResponse J → Reply J
  exhausted_retries no_response : Reply J

-- The end of a pass through the loop.
pub data Next : Type 0 where
  continues : Next
  breaks : RunStatus → Next

abbrev pub is_completed : RunStatus → Bool
is_completed RunStatus.completed = true
is_completed _ = false

abbrev pub is_max_steps : RunStatus → Bool
is_max_steps RunStatus.max_steps_reached = true
is_max_steps _ = false

abbrev pub is_protocol_error : RunStatus → Bool
is_protocol_error RunStatus.protocol_error = true
is_protocol_error _ = false

-- `status in {MAX_STEPS_REACHED, FINAL_WITHOUT_TERMINAL_SIGNAL}`
abbrev pub is_unfinished : RunStatus → Bool
is_unfinished RunStatus.max_steps_reached = true
is_unfinished RunStatus.final_without_terminal_signal = true
is_unfinished _ = false

pub fewer_left : (limit n left : ℕ) → limit ≤ left + n → ¬ limit ≤ n → limit - suc n < left
fewer_left limit n left h k = omega arith

pub enough_left : (limit n : ℕ) → ¬ limit ≤ n → limit ≤ limit - suc n + suc n
enough_left limit n k = omega arith

module _ {J : Type 0} (env : Environment J) where
  open env use {World}

  abbrev pub Run : Type 0 → Type 0
  Run A = Statement (Session env) A

  -- `f is not None and f()`
  abbrev pub holds : Option (World → Bool) → Session env → Bool
  holds none s = false
  holds (some f) s = f s.world

  -- `_assistant_tool_message`
  unfoldable pub assistant_tool_message : ModelResponse J → List (ToolCall J) → Message J
  assistant_tool_message r calls = elim r.message [
    | some m ↦ m
    | none ↦ record {
      role = "assistant";
      content = none;
      tool_calls =
          map (λ (c : ToolCall J). record { id = some c.id; payload = env.call_payload c }) calls;
      tool_call_id = none;
      context_kind = none;
      fields = [];
    }
  ]

  abbrev result_message : ToolCall J → ToolResult J → Message J
  result_message c r = record {
    role = "tool";
    content = some (env.result_text r);
    tool_calls = [];
    tool_call_id = some c.id;
    context_kind = none;
    fields = ("name", env.text_payload c.name) ∷ [];
  }

  -- The counters after a tool; a grace turn does not count consecutive errors.
  unfoldable pub count_result : (grace : Bool) → ToolResult J → Session env → Session env
  count_result grace r s = record s {
    consecutive_errors =
        if grace
        then s.consecutive_errors
        else if r.success
        then 0
        else if is_environment r.error_type
        then s.consecutive_errors
        else s.consecutive_errors + 1;
    protocol_error_count =
        if is_protocol r.error_type then s.protocol_error_count + 1 else s.protocol_error_count;
    recoverable_protocol_error_count =
        if is_protocol r.error_type && r.unsupported_shell_syntax
        then s.recoverable_protocol_error_count + 1
        else s.recoverable_protocol_error_count;
    provider_error_count =
        if is_provider r.error_type then s.provider_error_count + 1 else s.provider_error_count;
  }

  unfoldable pub call_tool : (grace : Bool) → ToolCall J → Run (Unit {0})
  unfolding count_result add_tool_result
  call_tool grace c s =
      let (r, w) = env.execute c s.world in
      on_buffer (add_tool_result (result_message c r))
        (count_result grace r (record s { world = w; tool_count = s.tool_count + 1 }))

  unfoldable pub call_tools : (grace : Bool) → List (ToolCall J) → Run (Unit {0})
  unfolding call_tool
  call_tools grace [] = return tt
  call_tools grace (c ∷ cs) = call_tool grace c >> call_tools grace cs

  -- The turn of a response with tool calls, from the message to `finalize_turn`.
  unfoldable pub tool_turn : (grace : Bool) (step : ℕ) → ModelResponse J → Run (Unit {0})
  unfolding ordered_tool_calls call_tools assistant_tool_message add_assistant_tool_turn
      finalize_turn
  tool_turn grace step r =
      let calls = ordered_tool_calls r.tool_calls in
      (λ s.
        on_buffer
          (add_assistant_tool_turn (env.now s.world) (assistant_tool_message r calls) step []) s)
      >> call_tools grace calls
      >> on_buffer finalize_turn

  abbrev pub prepare : (terminal_tools_only : Bool) (step : ℕ) → Run (Preparation J)
  prepare t step s =
      let (r, (w, b)) = env.prepare t step s.world s.buffer in
      (r, record s { world = w; buffer = b })

  -- What is done with the result of a generation; `bad` is what follows malformed arguments.
  abbrev pub received :
      (retries : ℕ) → (bad : String → Run (Reply J × ℕ)) → Generation J × World → Run (Reply J × ℕ)
  received n bad (responded r, w) s = (ok (replied r, n), record s { world = w })
  received n bad (failed, w) s = (ok (no_response, n), record s { world = w })
  received n bad (bad_arguments message, w) s = bad message (record s { world = w })

  -- A retry, behind the correction and a new preparation.
  abbrev pub retry :
      (terminal_tools_only : Bool) (step retries : ℕ)
      → (again : List (Message J) → Run (Reply J × ℕ)) → String
      → Run (Reply J × ℕ)
  retry t step retries again message =
      on_buffer (add_protocol_correction message)
      >> assign (λ s. record s { world = env.record_protocol_retry s.world })
      >> prepare t step
      >>= λ p. branch p.exhausted (return (no_response, retries)) (again p.messages)

  -- The loop from `retries` on; at most `left` more retries are made. `limit` is the settings' number.
  unfoldable pub retry_from :
      (limit : ℕ) (terminal_tools_only : Bool) (step retries left : ℕ)
      → Acc ◌<◌ left
      → limit ≤ left + retries
      → List (Message J)
      → Run (Reply J × ℕ)
  unfolding add_protocol_correction dec_le
  retry_from limit t step n left (Acc.intro _ smaller) h messages s =
      received n
        (λ message.
          dite (dec_le limit n) (λ k. return (exhausted_retries, n))
            (λ k.
              retry t step (suc n)
                (retry_from limit t step (suc n) (limit - suc n)
                  (smaller (limit - suc n) (fewer_left limit n left h k)) (enough_left limit n k))
                message))
        (env.generate t messages s.world) s

  -- `_generate_with_protocol_retries`
  unfoldable pub generate_with_protocol_retries :
      AgentConfig → (terminal_tools_only : Bool) (step : ℕ) → List (Message J) → Run (Reply J × ℕ)
  unfolding retry_from lt_wf
  generate_with_protocol_retries config t step messages =
      let limit = config.protocol_retries_per_step in
      retry_from limit t step 0 limit (lt_wf.apply limit) (omega arith) messages

  -- The counting of a response's tokens.
  unfoldable pub count_usage : ModelResponse J → Session env → Session env
  unfolding split_usage
  count_usage r s = record s {
    input_tokens_total = s.input_tokens_total + (split_usage r.usage).0;
    output_tokens_total = s.output_tokens_total + (split_usage r.usage).1;
  }

  -- `_generated_test_reminder_due`
  unfoldable pub reminder_due : ReminderConfig → (step : ℕ) → Session env → Bool
  reminder_due policy step s = policy.enabled && elim env.registered_candidates [
    | none ↦ false
    | some f ↦
        (f s.world == 0)
        && (leb policy.reminder_after_steps step
            && ((step - policy.reminder_after_steps) % policy.reminder_interval_steps == 0))
  ]

  abbrev pub final_reminder : Session env → String
  final_reminder s =
      if env.knowledge_decision_pending s.world
      then final_knowledge_reminder
      else if holds env.completion_evidence s
      then final_evidence_reminder
      else final_progress_reminder
