-- ===== src/Agent/Loop/Retries.antt =====
-- The retries of a step's request.
use long_running_coding_agen.Prelude.{
  lt_wf, dite, Acc, dec_le, ◌-◌, ◌<◌, ℕ, suc, ◌+◌, ◌≤◌, String, ◌≡◌, Bool, List, arith, ok,
}
use long_running_coding_agen.Context.Turn.{Message}
use long_running_coding_agen.Agent.Protocol.{
  AgentConfig, Preparation, Generation, responded, bad_arguments, failed, Environment,
}
use long_running_coding_agen.Agent.Session.{Session, return}
use long_running_coding_agen.Agent.Session.Ends.{dite-Ends, Ends-ok, Ends, then-Ends, branch-Ends}
use long_running_coding_agen.Agent.Loop.{
  Reply, replied, exhausted_retries, no_response, Run, received, retry, retry_from,
  generate_with_protocol_retries, fewer_left, enough_left,
}

module _ {J : Type 0} (env : Environment J) where
  -- A request has made at most `limit` retries, and all of them where it gives up for malformed
  -- arguments.
  abbrev pub IsBounded : (limit : ℕ) → Reply J × ℕ → Session env → Type 0
  IsBounded limit (exhausted_retries, n) s = n ≡ limit
  IsBounded limit (replied r, n) s = n ≤ limit
  IsBounded limit (no_response, n) s = n ≤ limit

  received-IsBounded :
      (limit n : ℕ) (bad : String → Run env (Reply J × ℕ)) (g : Generation J × env.World)
      (s : Session env)
      → n ≤ limit
      → ((text : String) (t : Session env) → Ends (IsBounded limit) (bad text t))
      → Ends (IsBounded limit) (received env n bad g s)
  received-IsBounded limit n bad (responded r, w) s h k = h
  received-IsBounded limit n bad (failed, w) s h k = h
  received-IsBounded limit n bad (bad_arguments text, w) s h k = k text (record s { world = w })

  retry-IsBounded :
      (limit : ℕ) (t : Bool) (step n : ℕ) (again : List (Message J) → Run env (Reply J × ℕ))
      (text : String) (s : Session env)
      → n ≤ limit
      → ((ms : List (Message J)) (x : Session env) → Ends (IsBounded limit) (again ms x))
      → Ends (IsBounded limit) (retry env t step n again text s)
  retry-IsBounded limit t step n again text s h k =
      then-Ends {A = Preparation J} (IsBounded limit) _ _ (λ p x.
        branch-Ends (IsBounded limit) p.exhausted (return (no_response, n)) (again p.messages) x
          (λ e. h) (λ e. k p.messages x))

  retry_from-IsBounded :
      (limit : ℕ) (t : Bool) (step n left : ℕ) (w : Acc ◌<◌ left) (h : limit ≤ left + n)
      (ms : List (Message J)) (s : Session env)
      → n ≤ limit
      → Ends (IsBounded limit) (retry_from env limit t step n left w h ms s)
  unfolding retry_from
  retry_from-IsBounded limit t step n left (Acc.intro _ smaller) h ms s b =
      let again = λ (k : ¬ limit ≤ n).
        retry_from env limit t step (suc n) (limit - suc n)
          (smaller (limit - suc n) (fewer_left limit n left h k)) (enough_left limit n k) in
      received-IsBounded limit n
        (λ message.
          dite (dec_le limit n) (λ k. return (exhausted_retries, n))
            (λ k. retry env t step (suc n) (again k) message))
        (env.generate t ms s.world) s b
        (λ text x.
          dite-Ends (IsBounded limit) (dec_le limit n) (λ k. return (exhausted_retries, n))
            (λ k. retry env t step (suc n) (again k) text) x (λ k. omega arith)
            (λ k. retry-IsBounded limit t step (suc n) (again k) text x (omega arith) (λ ms' y.
              retry_from-IsBounded limit t step (suc n) (limit - suc n)
                (smaller (limit - suc n) (fewer_left limit n left h k)) (enough_left limit n k) ms'
                y (omega arith))))

  -- A request for a step that returns has made at most the retries that the settings allow, and all
  -- of them where the step fails for malformed arguments.
  pub generate_with_protocol_retries-IsBounded :
      (config : AgentConfig) (terminal_tools_only : Bool) (step : ℕ) (messages : List (Message J))
      (s t : Session env) (r : Reply J × ℕ)
      → generate_with_protocol_retries env config terminal_tools_only step messages s ≡ (ok r, t)
      → IsBounded config.protocol_retries_per_step r t
  unfolding generate_with_protocol_retries
  generate_with_protocol_retries-IsBounded config b step ms s t r e =
      let limit = config.protocol_retries_per_step in
      Ends-ok (IsBounded config.protocol_retries_per_step)
        (generate_with_protocol_retries env config b step ms s) r t e
        (retry_from-IsBounded config.protocol_retries_per_step b step 0 limit (lt_wf.apply limit)
          (omega arith) ms s (omega arith))
