-- ===== src/Agent/Steps/Status.antt =====
-- What the status of a run says of the variables that the run leaves.
use long_running_coding_agen.Prelude.{
  Option-cases, ℕ, zero, suc, ◌+◌, ◌≤◌, String, ◌≡◌, refl, Bool, true, false, not, ◌&&◌, ◌||◌,
  arith, inl, inr, ltb, leb, is_empty, Bool-cases, ok,
}
use long_running_coding_agen.Agent.Protocol.{
  RunStatus, completed, final_without_terminal_signal, terminal_signal_missing, aborted,
  ModelResponse, AgentConfig, ReminderConfig, Preparation, Environment,
}
use long_running_coding_agen.Agent.Session.{Session, return}
use long_running_coding_agen.Agent.Session.Ends.{Ends-ok, Ends, after-Ends, then-Ends, branch-Ends}
use long_running_coding_agen.Agent.Loop.{
  Reply, replied, exhausted_retries, no_response, Next, continues, breaks, is_max_steps, Run, holds,
  generate_with_protocol_retries,
}
use long_running_coding_agen.Agent.Steps.{
  counted_react, counted_grace, grace_request, counted_retries, RunResult, end_tools, respond_tools,
  respond_invalid, respond_final, respond, react, request, pass, proceed, run_steps, grace_react,
  grace_turn, run_grace, after_steps, lacks_signal, finish_steps, final_status, result,
  run_with_controls,
}

module _ {J : Type 0} (env : Environment J) (config : AgentConfig) (policy : ReminderConfig)
    (require_external_terminal : Bool) where
  -- What a status says of the variables at the end of the run.
  abbrev pub IsJustified : RunStatus → Session env → Type 0
  IsJustified completed s = (not require_external_terminal || holds env env.stop_condition s) ≡ true
  IsJustified aborted s = config.max_consecutive_errors ≤ s.consecutive_errors
  IsJustified terminal_signal_missing s = holds env env.stop_condition s ≡ false
  IsJustified final_without_terminal_signal s = s.seen_final_without_signal ≡ true
  IsJustified _ s = Unit

  abbrev Justifies : Next → Session env → Type 0
  Justifies continues s = Unit
  Justifies (breaks status) s = IsJustified status s

  end_tools-Justifies :
      (s : Session env) → Ends Justifies (end_tools env config policy require_external_terminal s)
  end_tools-Justifies s = elim (Bool-cases (holds env env.stop_condition s)) [
    | inl e ↦ rw e (ground (arith, e))
    | inr e ↦ elim (Bool-cases (leb config.max_consecutive_errors s.consecutive_errors)) [
      | inl f ↦ rw (e, f) (ground arith)
      | inr f ↦ rw (e, f) tt
    ]
  ]

  respond_tools-Justifies :
      (step : ℕ) (r : ModelResponse J) (s : Session env)
      → Ends Justifies (respond_tools env config policy require_external_terminal step r s)
  unfolding respond_tools
  respond_tools-Justifies step r s =
      then-Ends {A = Unit {0}} Justifies _ _ (λ a x. end_tools-Justifies x)

  respond_invalid-Justifies :
      (s : Session env)
      → Ends Justifies (respond_invalid env config policy require_external_terminal s)
  unfolding respond_invalid
  respond_invalid-Justifies s =
      branch-Ends Justifies (leb config.max_consecutive_errors (s.consecutive_errors + 1)) _ _ _
        (λ e. ground arith)
        (λ e. then-Ends {A = Unit {0}} Justifies _ (λ a. return continues) (λ a x. tt {0}))

  respond_final-Justifies :
      (r : ModelResponse J) (answer : String) (s : Session env)
      → Ends Justifies (respond_final env config policy require_external_terminal r answer s)
  unfolding respond_final
  respond_final-Justifies r answer s = then-Ends {A = Unit {0}} Justifies _ _ (λ a x.
      branch-Ends Justifies (require_external_terminal && not (holds env env.stop_condition x)) _ _
        _ (λ e. then-Ends {A = Unit {0}} Justifies _ (λ b. return continues) (λ b y. tt {0}))
        (λ e. ground arith))

  respond-Justifies :
      (step : ℕ) (r : ModelResponse J) (s : Session env)
      → Ends Justifies (respond env config policy require_external_terminal step r s)
  unfolding respond
  respond-Justifies step r s =
      branch-Ends Justifies (is_empty r.tool_calls) _ _ s
        (λ e. elim (Option-cases r.final_answer) [
          | inl n ↦ rw n (respond_invalid-Justifies s)
          | inr (answer, n) ↦ rw n (respond_final-Justifies r answer s)
        ])
        (λ e. respond_tools-Justifies step r s)

  react-Justifies :
      (step : ℕ) (r : Reply J) (s : Session env)
      → Ends Justifies (react env config policy require_external_terminal step r s)
  unfolding react
  react-Justifies step exhausted_retries s = tt
  react-Justifies step no_response s = tt
  react-Justifies step (replied r) s = respond-Justifies step r _

  request-Justifies :
      (t : Bool) (step : ℕ) (p : Preparation J) (s : Session env)
      → Ends Justifies (request env config policy require_external_terminal t step p s)
  unfolding request
  request-Justifies t step p s = then-Ends {A = Unit {0}} Justifies _ _ (λ a x.
      branch-Ends Justifies p.exhausted _ _ x (λ e. tt)
        (λ e.
          then-Ends Justifies (generate_with_protocol_retries env config t step p.messages x)
            (counted_react env config policy require_external_terminal step)
            (λ r y.
              react-Justifies step r.0
                (counted_retries env config policy require_external_terminal r.1 y))))

  pass-Justifies :
      (step : ℕ) (s : Session env)
      → Ends Justifies (pass env config policy require_external_terminal step s)
  unfolding pass
  pass-Justifies step s =
      branch-Ends Justifies (env.past_deadline s.world).0 _ _ _ (λ e. tt)
        (λ e. then-Ends {A = Preparation J} Justifies _ _ (λ p x. request-Justifies _ step p x))

  proceed-Ends :
      (P : RunStatus × ℕ → Session env → Type 0) (step : ℕ) (rest : Run env (RunStatus × ℕ))
      (n : Next) (s : Session env)
      → Justifies n s
      → ((status : RunStatus) → IsJustified status s → P (status, step) s)
      → Ends P (rest s)
      → Ends P (proceed env config policy require_external_terminal step rest n s)
  proceed-Ends P step rest continues s j k h = h
  proceed-Ends P step rest (breaks status) s j k h = k status j

  -- The status of a loop is justified, and it has made at most `limit` passes.
  abbrev IsDone : (limit : ℕ) → RunStatus × ℕ → Session env → Type 0
  IsDone limit (status, n) s = IsJustified status s × (n ≤ limit)

  run_steps-IsDone :
      (limit left done : ℕ) (s : Session env)
      → left + done ≡ limit
      → Ends (IsDone limit) (run_steps env config policy require_external_terminal left done s)
  unfolding run_steps
  run_steps-IsDone limit zero done s h = (tt, omega arith)
  run_steps-IsDone limit (suc left) done s h =
      after-Ends Justifies (IsDone limit) _ _ (pass-Justifies (suc done) s) (λ n x j.
        proceed-Ends (IsDone limit) (suc done)
          (run_steps env config policy require_external_terminal left (suc done)) n x j
          (λ status q. (q, omega arith)) (run_steps-IsDone limit left (suc done) x (omega arith)))

  -- What a grace turn leaves, where it does not end the run: no signal yet.
  abbrev Lacks : Next → Session env → Type 0
  Lacks continues s = holds env env.stop_condition s ≡ false
  Lacks (breaks status) s = IsJustified status s

  grace_react-Lacks :
      (step : ℕ) (r : Reply J) (s : Session env)
      → Ends Lacks (grace_react env config policy require_external_terminal step r s)
  unfolding grace_react
  grace_react-Lacks step exhausted_retries s = tt
  grace_react-Lacks step no_response s = tt
  grace_react-Lacks step (replied r) s =
      then-Ends {A = Unit {0}} Lacks _ _ (λ a x.
        branch-Ends Lacks (holds env env.stop_condition x) _ _ x (λ e. ground arith) (λ e. e))

  grace_request-Lacks :
      (step : ℕ) (p : Preparation J) (s : Session env)
      → Ends Lacks (grace_request env config policy require_external_terminal step p s)
  unfolding grace_request
  grace_request-Lacks step p s =
      branch-Ends Lacks p.exhausted _ _ s (λ e. tt)
        (λ e.
          then-Ends Lacks (generate_with_protocol_retries env config true step p.messages s)
            (counted_grace env config policy require_external_terminal step)
            (λ r y.
              grace_react-Lacks step r.0
                (counted_retries env config policy require_external_terminal r.1 y)))

  grace_turn-Lacks :
      (step : ℕ) (s : Session env)
      → Ends Lacks (grace_turn env config policy require_external_terminal step s)
  unfolding grace_turn
  grace_turn-Lacks step s =
      then-Ends Lacks _ (grace_request env config policy require_external_terminal step)
        (λ p x. grace_request-Lacks step p x)

  proceed-grace :
      (P : RunStatus × ℕ → Session env → Type 0) (step : ℕ) (rest : Run env (RunStatus × ℕ))
      (n : Next) (s : Session env)
      → Lacks n s
      → ((status : RunStatus) → IsJustified status s → P (status, step) s)
      → (holds env env.stop_condition s ≡ false → Ends P (rest s))
      → Ends P (proceed env config policy require_external_terminal step rest n s)
  proceed-grace P step rest continues s j k h = h j
  proceed-grace P step rest (breaks status) s j k h = k status j

  run_grace-IsDone :
      (limit left done : ℕ) (status : RunStatus) (s : Session env)
      → left + done ≡ limit
      → IsJustified status s
      → Ends
          (IsDone limit)
          (run_grace env config policy require_external_terminal left done status s)
  unfolding run_grace
  run_grace-IsDone limit zero done status s h j = (j, omega arith)
  run_grace-IsDone limit (suc left) done status s h j =
      after-Ends Lacks (IsDone limit) _ _ (grace_turn-Lacks (config.max_steps + suc done) s)
        (λ n x q.
          proceed-grace (IsDone limit) (suc done)
            (run_grace env config policy require_external_terminal left (suc done)
              terminal_signal_missing)
            n x q (λ st w. (w, omega arith))
            (λ e. run_grace-IsDone limit left (suc done) terminal_signal_missing x (omega arith) e))

  after_steps-IsJustified :
      (status : RunStatus) (s : Session env)
      → IsJustified status s
      → IsJustified (after_steps env config policy require_external_terminal status s) s
  after_steps-IsJustified status s j =
      elim (Bool-cases (is_max_steps status && s.seen_final_without_signal)) [
        | inl e ↦ rw e (ground arith)
        | inr e ↦ rw e j
      ]

  final_status-IsJustified :
      (status : RunStatus) (s : Session env)
      → IsJustified status s
      → IsJustified (final_status env config policy require_external_terminal status s) s
  final_status-IsJustified status s j =
      elim (Bool-cases (lacks_signal env config policy require_external_terminal status s)) [
        | inl e ↦ rw e (ground arith)
        | inr e ↦ rw e j
      ]

  finish_steps-IsDone :
      (status : RunStatus) (s : Session env)
      → IsJustified status s
      → Ends
          (IsDone config.terminal_grace_turns)
          (finish_steps env config policy require_external_terminal status s)
  unfolding finish_steps
  finish_steps-IsDone status s j =
      branch-Ends (IsDone config.terminal_grace_turns)
        (ltb 0 config.terminal_grace_turns
          && lacks_signal env config policy require_external_terminal status s)
        _ _ s
        (λ e.
          run_grace-IsDone config.terminal_grace_turns config.terminal_grace_turns 0 status s
            (omega arith) j)
        (λ e. (j, omega arith))

  -- A result of a run that leaves the variables `s`.
  pub record IsSound (r : RunResult) (s : Session env) : Type 0 where
    pub status : IsJustified r.status s
    pub steps : r.steps ≤ config.max_steps
    pub grace : r.terminal_grace_turn_count ≤ config.terminal_grace_turns
    pub errors : r.consecutive_errors ≡ s.consecutive_errors

  result-IsSound :
      (r g : RunStatus × ℕ) (s : Session env)
      → r.1 ≤ config.max_steps
      → IsDone config.terminal_grace_turns g s
      → IsSound
          (result env config policy require_external_terminal r.1 g.1
            (final_status env config policy require_external_terminal g.0 s)
            s)
          s
  unfolding result
  result-IsSound r g s h j = record {
    status = final_status-IsJustified g.0 s j.0;
    steps = h;
    grace = j.1;
    errors = refl;
  }

  -- A run that returns has made at most the steps and grace turns of the settings. Where it is
  -- completed and needs a terminal signal, its stop condition holds at the end, where it is aborted,
  -- the consecutive errors have reached their limit, where the terminal signal is missing, the stop
  -- condition does not hold, and where the status is that of a final answer without a signal, such
  -- an answer was seen.
  pub run_with_controls-IsSound :
      (s t : Session env) (r : RunResult)
      → run_with_controls env config policy require_external_terminal s ≡ (ok r, t)
      → IsSound r t
  unfolding run_with_controls
  run_with_controls-IsSound s t r e =
      Ends-ok IsSound (run_with_controls env config policy require_external_terminal s) r t e (
        after-Ends (IsDone config.max_steps) IsSound _ _
          (run_steps-IsDone config.max_steps config.max_steps 0 s (omega arith))
          (λ a x j.
            after-Ends (IsDone config.terminal_grace_turns) IsSound _ _
              (finish_steps-IsDone (after_steps env config policy require_external_terminal a.0 x) x
                (after_steps-IsJustified a.0 x j.0))
              (λ g y q. result-IsSound a g y j.1 q)))
