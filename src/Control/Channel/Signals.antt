-- ===== src/Control/Channel/Signals.antt =====
-- The signals of a channel: at most one is terminal, and it stays.
use long_running_coding_agen.Prelude.{
  is_some, ◌⊎◌, inl, inr, Option-cases, ◌+◌, ◌≤◌, ◌≡◌, inl, inr, refl, true, false, none, some,
  List, [], ◌∷◌, ◌++◌, arith, if◌then◌else◌, length, count, count-append, find, Result, ok, raise,
  Bool-cases,
}
use long_running_coding_agen.Control.Channel.{
  requirement_unmet, ControlSignal, Channel, ChannelError, Requirement, is_progress, is_completion,
  is_terminal, terminal_signal, valid_test_candidate_count, generated_test_requirement_error,
  append_signal, record_signal,
}

-- The channel holds at most one terminal signal.
abbrev pub IsSingle : {F : Type 0} → Channel F → Type 0
IsSingle c = count is_terminal c.signals ≤ 1

count-find :
    (xs : List ControlSignal) → is_some (find is_terminal xs) ≡ false → count is_terminal xs ≡ 0
unfolding find count
count-find [] h = refl
count-find (x ∷ xs) h = ground (arith, count-find xs)

find-append_new :
    (xs : List ControlSignal) (s : ControlSignal)
    → is_some (find is_terminal xs) ≡ false
    → is_terminal s ≡ true
    → find is_terminal (xs ++ s ∷ []) ≡ some s
unfolding find
find-append_new [] s h k = ground arith
find-append_new (x ∷ xs) s h k = ground (arith, find-append_new xs s)

count-single : (s : ControlSignal) → count is_terminal (s ∷ []) ≡ (if is_terminal s then 1 else 0)
unfolding count
count-single s = ground arith

completion-terminal : (s : ControlSignal) → is_completion s ≡ true → is_terminal s ≡ true
unfolding is_completion is_progress
completion-terminal s h = ground arith

module _ {F : Type 0} where
  append_signal-IsSingle :
      (s : ControlSignal) (c : Channel F) → IsSingle c → IsSingle (append_signal s c).1
  unfolding append_signal terminal_signal
  append_signal-IsSingle s c h =
      ground
        (arith, count-append is_terminal c.signals (s ∷ []), count-single s, count-find c.signals)

  abbrev counted : Channel F → Channel F
  counted c = record c { completion_request_count = c.completion_request_count + 1 }

  record_signal-other :
      (s : ControlSignal) (c : Channel F)
      → is_completion s ≡ false
      → record_signal s c ≡ append_signal s c
  unfolding record_signal
  record_signal-other s c h = rw h refl

  record_signal-unmet :
      (s : ControlSignal) (c : Channel F) (r : Requirement)
      → is_completion s ≡ true
      → generated_test_requirement_error (counted c) ≡ some r
      → record_signal s c ≡ (raise (requirement_unmet r), counted c)
  unfolding record_signal
  record_signal-unmet s c r h e = rw (h, e) refl

  record_signal-met :
      (s : ControlSignal) (c : Channel F)
      → is_completion s ≡ true
      → generated_test_requirement_error (counted c) ≡ none
      → record_signal s c ≡ append_signal s (counted c)
  unfolding record_signal
  record_signal-met s c h e = rw (h, e) refl

  -- What `record` comes down to, on each of its branches.
  record_signal-cases :
      (P : Result ChannelError (Unit {0}) × Channel F → Type 0) (s : ControlSignal) (c : Channel F)
      → P (append_signal s c)
      → P (append_signal s (counted c))
      → ((r : Requirement) → P (raise (requirement_unmet r), counted c))
      → P (record_signal s c)
  record_signal-cases P s c plain met unmet = elim (Bool-cases (is_completion s)) [
    | inr e ↦ rw (record_signal-other s c e) plain
    | inl e ↦ elim (Option-cases (generated_test_requirement_error (counted c))) [
      | inl n ↦ rw (record_signal-met s c e n) met
      | inr (r, n) ↦ rw (record_signal-unmet s c r e n) (unmet r)
    ]
  ]

  -- `record` keeps the terminal signal single, whatever the signal and whether it raises or not.
  pub record_signal-IsSingle :
      (s : ControlSignal) (c : Channel F) → IsSingle c → IsSingle (record_signal s c).1
  record_signal-IsSingle s c h =
      record_signal-cases (λ r. IsSingle r.1) s c (append_signal-IsSingle s c h)
        (append_signal-IsSingle s (counted c) h) (λ r. h)

  append_signal-ok :
      (s : ControlSignal) (c : Channel F)
      → is_terminal s ≡ true
      → (append_signal s c).0 ≡ ok tt
      → (terminal_signal c ≡ none) × (terminal_signal (append_signal s c).1 ≡ some s)
  unfolding append_signal terminal_signal
  append_signal-ok s c h k = (ground arith, ground (arith, find-append_new c.signals s))

  requirement_met :
      (c : Channel F)
      → generated_test_requirement_error c ≡ none
      → (c.require_test_candidate_before_completion ≡ false)
        ⊎ ((c.minimum_registered_candidates ≤ length c.test_candidates)
            × (c.minimum_valid_candidates ≤ valid_test_candidate_count c))
  unfolding generated_test_requirement_error
  requirement_met c h = elim (Bool-cases c.require_test_candidate_before_completion) [
    | inr e ↦ inl e
    | inl e ↦ inr (ground arith, ground arith)
  ]

  -- A completion request that is recorded was the first terminal signal, is the terminal signal from
  -- now on, and either no generated test is required or there are enough registered and valid ones.
  pub record_signal-completion :
      (s : ControlSignal) (c : Channel F)
      → is_completion s ≡ true
      → (record_signal s c).0 ≡ ok tt
      → (terminal_signal c ≡ none)
        × (terminal_signal (record_signal s c).1 ≡ some s)
        × ((c.require_test_candidate_before_completion ≡ false)
            ⊎ ((c.minimum_registered_candidates ≤ length c.test_candidates)
                × (c.minimum_valid_candidates ≤ valid_test_candidate_count c)))
  record_signal-completion s c e h =
      elim (Option-cases (generated_test_requirement_error (counted c))) [
        | inr (r, n) ↦ absurd (cc (record_signal-unmet s c r e n))
        | inl n ↦
            let (first, now) =
              append_signal-ok s (counted c) (completion-terminal s e)
                (rw (record_signal-met s c e n) at h) in
            (
              unfold terminal_signal in first,
              rw (record_signal-met s c e n) now,
              unfold valid_test_candidate_count in requirement_met (counted c) n,
            )
      ]
