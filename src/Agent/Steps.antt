-- ===== src/Agent/Steps.antt =====
-- src/longrun_agent/agent/loop.py: `AgentLoop.run_with_controls`. A pass through a loop ends with the
-- status of its `break`, or goes on. The log is not kept.
pub mod Status
use long_running_coding_agen.Prelude.{
  ℕ, zero, suc, ◌+◌, ◌-◌, String, Bool, true, false, not, ◌&&◌, ◌||◌, Option, none, some, List, [],
  str_eq, if◌then◌else◌, ltb, leb, ◌==◌, is_empty, Result, ok, raise,
}
use long_running_coding_agen.Context.Turn.{Message}
use long_running_coding_agen.Context.Buffer.{
  ContextBuffer, add_user_reminder, add_protocol_correction, add_assistant_final, plain, from_task,
}
use long_running_coding_agen.Agent.Protocol.{
  RunStatus, ModelResponse, AgentConfig, ReminderConfig, Preparation, Environment,
}
use long_running_coding_agen.Agent.Texts.{
  three_turns_reminder, without_signal_correction, invalid_response_correction,
  terminal_grace_reminder, generated_test_workflow_reminder, generated_test_final_checklist,
}
use long_running_coding_agen.Agent.Session.{
  Session, Statement, return, ◌>>=◌, ◌>>◌, assign, when, branch, on_buffer,
}
use long_running_coding_agen.Agent.Loop.{
  Reply, replied, exhausted_retries, no_response, Next, continues, breaks, is_completed,
  is_max_steps, is_protocol_error, is_unfinished, Run, holds, tool_turn, prepare,
  generate_with_protocol_retries, count_usage, reminder_due, final_reminder,
}

-- The fields of `RunResult` that the loop counts.
pub record RunResult : Type 0 where
  pub status : RunStatus
  pub final_answer : Option String
  pub steps : ℕ
  pub consecutive_errors : ℕ
  pub tool_call_count : ℕ
  pub total_tokens : ℕ
  pub input_tokens_total : ℕ
  pub output_tokens_total : ℕ
  pub terminal_grace_turn_count : ℕ
  pub terminal_signal_recovered : Bool
  pub tool_argument_protocol_retry_count : ℕ
  pub protocol_error_count : ℕ
  pub recoverable_protocol_error_count : ℕ
  pub fatal_protocol_error_count : ℕ
  pub provider_error_count : ℕ

module _ {J : Type 0} (env : Environment J) (config : AgentConfig) (policy : ReminderConfig)
    (require_external_terminal : Bool) where
  -- What follows the tool calls of a pass: the router's reminder, and the two ends.
  abbrev pub end_tools : Run env Next
  end_tools s =
      if holds env env.stop_condition s
      then (ok (breaks RunStatus.completed), s)
      else if leb config.max_consecutive_errors s.consecutive_errors
      then (ok (breaks RunStatus.aborted), s)
      else (ok continues, s)

  abbrev pub require_action : Run env (Unit {0})
  require_action s =
      when (not (str_eq (env.action_required s.world) ""))
        (on_buffer (add_user_reminder (env.action_required s.world))
          >> assign (λ x. record x { world = env.clear_action_required x.world }))
        s

  unfoldable pub respond_tools : (step : ℕ) → ModelResponse J → Run env Next
  unfolding tool_turn add_user_reminder
  respond_tools step r = tool_turn env false step r >> require_action >> end_tools

  -- A response without tool calls and without an answer.
  unfoldable pub respond_invalid : Run env Next
  unfolding add_protocol_correction
  respond_invalid =
      assign (λ s. record s {
        consecutive_errors = s.consecutive_errors + 1;
        protocol_error_count = s.protocol_error_count + 1;
      })
      >> λ s.
          branch (leb config.max_consecutive_errors s.consecutive_errors)
            (return (breaks RunStatus.aborted))
            (on_buffer (add_protocol_correction invalid_response_correction) >> return continues) s

  unfoldable pub respond_final : ModelResponse J → String → Run env Next
  unfolding add_assistant_final add_protocol_correction
  respond_final r answer =
      assign (λ s. record s { final_answer = some answer })
      >> on_buffer (
          add_assistant_final
            (elim r.message [ some m ↦ m | none ↦ plain "assistant" answer none ]))
      >> λ s.
          branch (require_external_terminal && not (holds env env.stop_condition s))
            (assign (λ x. record x {
              seen_final_without_signal = true;
              protocol_error_count = x.protocol_error_count + 1;
            })
              >> on_buffer (add_protocol_correction without_signal_correction)
              >> return continues)
            (return (breaks RunStatus.completed)) s

  -- The cases on a response.
  unfoldable pub respond : (step : ℕ) → ModelResponse J → Run env Next
  unfolding respond_final respond_invalid respond_tools
  respond step r =
      branch (is_empty r.tool_calls)
        (elim r.final_answer [ some answer ↦ respond_final r answer | none ↦ respond_invalid ])
        (respond_tools step r)

  -- What a pass does with the reply of the model.
  unfoldable pub react : (step : ℕ) → Reply J → Run env Next
  unfolding count_usage respond
  react step exhausted_retries =
      assign (λ s. record s {
        consecutive_errors = s.consecutive_errors + 1;
        protocol_error_count = s.protocol_error_count + 1;
      })
      >> return (breaks RunStatus.protocol_error)
  react step no_response =
      assign (λ s. record s {
        consecutive_errors = s.consecutive_errors + 1;
        provider_error_count = s.provider_error_count + 1;
      })
      >> return (breaks RunStatus.provider_error)
  react step (replied r) =
      assign (λ s.
        let t = count_usage env r s in record t { world = env.record_actual_usage step r t.world })
      >> respond step r

  abbrev pub counted_retries : ℕ → Session env → Session env
  counted_retries n s = record s {
    tool_argument_protocol_retry_count = s.tool_argument_protocol_retry_count + n;
  }

  abbrev pub counted_react : (step : ℕ) → Reply J × ℕ → Run env Next
  counted_react step r = assign (counted_retries r.1) >> react step r.0

  -- The request to the model with a preparation, and the rest of the pass.
  unfoldable pub request : (terminal_tools_only : Bool) (step : ℕ) → Preparation J → Run env Next
  unfolding generate_with_protocol_retries react
  request t step p =
      when p.reset_performed (assign (λ s. record s { world = env.start_context_segment s.world }))
      >> branch p.exhausted (return (breaks RunStatus.context_budget_exhausted))
          (generate_with_protocol_retries env config t step p.messages >>= counted_react step)

  -- The reminders before a request; `remaining` is the number of steps from this one on.
  unfoldable pub remind : (step remaining : ℕ) → Run env (Unit {0})
  unfolding reminder_due add_user_reminder
  remind step remaining =
      (λ s.
        when (reminder_due env policy step s)
          (on_buffer (add_user_reminder generated_test_workflow_reminder)) s)
      >> when (require_external_terminal && (remaining == 3))
          (on_buffer (add_user_reminder three_turns_reminder))
      >> when (require_external_terminal && (remaining == 1)) (
          when policy.enabled (on_buffer (add_user_reminder generated_test_final_checklist)) >> λ s.
          on_buffer (add_user_reminder (final_reminder env s)) s)

  -- A pass of the loop over the steps.
  unfoldable pub pass : (step : ℕ) → Run env Next
  unfolding remind request
  pass step s =
      let (late, w) = env.past_deadline s.world in
      let remaining = config.max_steps - step + 1 in
      let t = require_external_terminal && (remaining == 1) in
      branch late (return (breaks RunStatus.time_limit_reached))
        (remind step remaining >> prepare env t step >>= request t step) (record s { world = w })

  -- Whether a loop goes on after a pass, which was the one with the number `step`.
  abbrev pub proceed : (step : ℕ) → Run env (RunStatus × ℕ) → Next → Run env (RunStatus × ℕ)
  proceed step rest continues = rest
  proceed step rest (breaks status) = return (status, step)

  -- `for step in range(1, max_steps + 1)`, of which `done` passes are over and `left` are left.
  unfoldable pub run_steps : (left done : ℕ) → Run env (RunStatus × ℕ)
  unfolding pass
  run_steps zero done = return (RunStatus.max_steps_reached, done)
  run_steps (suc left) done = pass (suc done) >>= proceed (suc done) (run_steps left (suc done))

  -- A grace turn behind its reminder and its preparation.
  unfoldable pub grace_react : (step : ℕ) → Reply J → Run env Next
  unfolding count_usage tool_turn
  grace_react step exhausted_retries =
      assign (λ s. record s { protocol_error_count = s.protocol_error_count + 1 })
      >> return (breaks RunStatus.protocol_error)
  grace_react step no_response =
      assign (λ s. record s { provider_error_count = s.provider_error_count + 1 })
      >> return (breaks RunStatus.provider_error)
  grace_react step (replied r) =
      assign (count_usage env r)
      >> when (not (is_empty r.tool_calls)) (tool_turn env true step r)
      >> λ s.
          branch (holds env env.stop_condition s) (return (breaks RunStatus.completed))
            (return continues) s

  abbrev pub counted_grace : (step : ℕ) → Reply J × ℕ → Run env Next
  counted_grace step r = assign (counted_retries r.1) >> grace_react step r.0

  -- The request of a grace turn with a preparation, and the rest of the turn.
  unfoldable pub grace_request : (step : ℕ) → Preparation J → Run env Next
  unfolding grace_react generate_with_protocol_retries
  grace_request step p =
      branch p.exhausted (return (breaks RunStatus.context_budget_exhausted))
        (generate_with_protocol_retries env config true step p.messages >>= counted_grace step)

  unfoldable pub grace_turn : (step : ℕ) → Run env Next
  unfolding grace_request add_user_reminder
  grace_turn step =
      (λ s.
        on_buffer
          (add_user_reminder (terminal_grace_reminder (env.knowledge_decision_pending s.world))) s)
      >> prepare env true step
      >>= grace_request step

  -- The loop over the grace turns; `status` is the one before the next of them.
  unfoldable pub run_grace : (left done : ℕ) → RunStatus → Run env (RunStatus × ℕ)
  unfolding grace_turn
  run_grace zero done status = return (status, done)
  run_grace (suc left) done status =
      grace_turn (config.max_steps + suc done)
      >>= proceed (suc done) (run_grace left (suc done) RunStatus.terminal_signal_missing)

  -- The status after the loop over the steps.
  abbrev pub after_steps : RunStatus → Session env → RunStatus
  after_steps status s =
      if is_max_steps status && s.seen_final_without_signal
      then RunStatus.final_without_terminal_signal
      else status

  -- The condition of the grace turns without their number, which is also the last one on the status.
  abbrev pub lacks_signal : RunStatus → Session env → Bool
  lacks_signal status s =
      require_external_terminal
      && (not (holds env env.stop_condition s)
          && (is_unfinished status && holds env env.completion_evidence s))

  -- The grace turns, where they are due, their number, and the last change of the status.
  unfoldable pub finish_steps : RunStatus → Run env (RunStatus × ℕ)
  unfolding run_grace
  finish_steps status s =
      branch (ltb 0 config.terminal_grace_turns && lacks_signal status s)
        (run_grace config.terminal_grace_turns 0 status) (return (status, 0)) s

  abbrev pub final_status : RunStatus → Session env → RunStatus
  final_status status s =
      if lacks_signal status s then RunStatus.terminal_signal_missing else status

  -- The result of the run. A grace turn that completes it recovers the terminal signal.
  unfoldable pub result : (steps grace : ℕ) (status : RunStatus) → Session env → RunResult
  result steps grace status s =
      let recovered = ltb 0 grace && is_completed status in
      let late = if recovered && s.seen_final_without_signal then 1 else 0 in
      let retried = if is_protocol_error status then 0 else s.tool_argument_protocol_retry_count in
      record {
        status = status;
        final_answer = s.final_answer;
        steps = steps;
        consecutive_errors = s.consecutive_errors;
        tool_call_count = s.tool_count;
        total_tokens = s.input_tokens_total + s.output_tokens_total + env.compactor_tokens s.world;
        input_tokens_total = s.input_tokens_total;
        output_tokens_total = s.output_tokens_total;
        terminal_grace_turn_count = grace;
        terminal_signal_recovered = recovered;
        tool_argument_protocol_retry_count = s.tool_argument_protocol_retry_count;
        protocol_error_count = s.protocol_error_count;
        recoverable_protocol_error_count = s.recoverable_protocol_error_count + late + retried;
        fatal_protocol_error_count = if is_protocol_error status then 1 else 0;
        provider_error_count = s.provider_error_count;
      }

  -- The variables before the first step.
  abbrev pub initial : env.World → ContextBuffer J → Session env
  initial world buffer = record {
    world = world;
    buffer = buffer;
    final_answer = none;
    consecutive_errors = 0;
    tool_count = 0;
    input_tokens_total = 0;
    output_tokens_total = 0;
    seen_final_without_signal = false;
    tool_argument_protocol_retry_count = 0;
    protocol_error_count = 0;
    recoverable_protocol_error_count = 0;
    provider_error_count = 0;
  }

  -- `run_with_controls` from its first step on.
  unfoldable pub run_with_controls : Run env RunResult
  unfolding run_steps finish_steps result
  run_with_controls = run_steps config.max_steps 0 >>= λ (r : RunStatus × ℕ) s.
      (finish_steps (after_steps r.0 s) >>= λ (g : RunStatus × ℕ) x.
      (ok (result r.1 g.1 (final_status g.0 x) x), x))
        s
