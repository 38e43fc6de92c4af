-- ===== src/Agent/Session.antt =====
-- The variables of `run_with_controls` of src/longrun_agent/agent/loop.py, and statements on them.
pub mod Ends
use long_running_coding_agen.Prelude.{
  ℕ, ◌+◌, String, Bool, true, false, Option, none, some, List, Result, ok, raise,
}
use long_running_coding_agen.Context.Turn.{BufferError}
use long_running_coding_agen.Context.Buffer.{ContextBuffer, Step}
use long_running_coding_agen.Agent.Protocol.{Environment}

-- The counters keep the names of the source.
pub record Session {J : Type 0} (env : Environment J) : Type 0 where
  pub world : env.World
  pub buffer : ContextBuffer J
  pub final_answer : Option String
  pub consecutive_errors : ℕ
  pub tool_count : ℕ
  pub input_tokens_total : ℕ
  pub output_tokens_total : ℕ
  pub seen_final_without_signal : Bool
  pub tool_argument_protocol_retry_count : ℕ
  pub protocol_error_count : ℕ
  pub recoverable_protocol_error_count : ℕ
  pub provider_error_count : ℕ

-- A statement may raise an exception of the buffer, and leaves the variables `S` changed either way.
abbrev pub Statement : Type 0 → Type 0 → Type 0
Statement S A = S → Result BufferError A × S

module _ {S : Type 0} where
  abbrev pub return : {A : Type 0} → A → Statement S A
  return a s = (ok a, s)

  -- What follows a statement, unless that raises.
  abbrev pub after :
      {A B : Type 0} → Result BufferError A × S → (A → Statement S B) → Result BufferError B × S
  after (raise e, s) f = (raise e, s)
  after (ok a, s) f = f a s

  infixl 5 ◌>>=◌
  abbrev pub ◌>>=◌ : {A B : Type 0} → Statement S A → (A → Statement S B) → Statement S B
  (m >>= f) s = after (m s) f

  infixl 5 ◌>>◌
  abbrev pub ◌>>◌ : {A B : Type 0} → Statement S A → Statement S B → Statement S B
  (m >> n) s = after (m s) (λ a. n)

  abbrev pub assign : (S → S) → Statement S (Unit {0})
  assign f s = (ok tt, f s)

  -- `if b:` without an `else`
  abbrev pub when : Bool → Statement S (Unit {0}) → Statement S (Unit {0})
  when true m = m
  when false m = return tt

  abbrev pub branch : {A : Type 0} → Bool → Statement S A → Statement S A → Statement S A
  branch true m n = m
  branch false m n = n

-- A call of the buffer.
abbrev pub on_buffer :
    {J : Type 0} {env : Environment J}
    → (ContextBuffer J → Step J)
    → Statement (Session env) (Unit {0})
on_buffer f s = let (r, b) = f s.buffer in (r, record s { buffer = b })
