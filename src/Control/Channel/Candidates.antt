-- ===== src/Control/Channel/Candidates.antt =====
-- The registration of test candidates: its limits.
use long_running_coding_agen.Prelude.{
  ◌+◌, ◌≤◌, String, ◌≡◌, inl, inr, refl, Bool, false, Option, none, some, List, [], ◌∷◌, arith, leb,
  length, length-append, find, Result, ok, raise, Bool-cases, Option-cases,
}
use long_running_coding_agen.Verification.Schema.{TestCandidate}
use long_running_coding_agen.Control.Channel.{
  Channel, ChannelError, not_configured, attempts_exhausted, candidates_exhausted, is_configured,
  same_test, replace_first, finish, validated, register_test_candidate,
}

-- The limits of a channel on candidates and on attempts.
pub record IsBounded {F : Type 0} (c : Channel F) : Type 0 where
  pub attempts : c.registration_attempt_count ≤ c.max_registration_attempts
  pub candidates : length c.test_candidates ≤ c.max_test_candidates

module _ {F : Type 0} where
  length-replace_first :
      (p : TestCandidate F → Bool) (t : TestCandidate F) (us : List (TestCandidate F))
      → length (replace_first p t us) ≡ length us
  unfolding replace_first
  length-replace_first p t [] = refl
  length-replace_first p t (u ∷ us) = ground (arith, length-replace_first p t us)

  module _ (built : Result String (TestCandidate F))
      (validator : Option (TestCandidate F → Result String (TestCandidate F)))
      (paths argv : List String) (c : Channel F) where
    abbrev pub registered : Result ChannelError (TestCandidate F) × Channel F
    registered = register_test_candidate built validator paths argv c

    abbrev pub existing : Option (TestCandidate F)
    existing = find (same_test paths argv) c.test_candidates

    abbrev pub attempted : Channel F
    attempted = record c { registration_attempt_count = c.registration_attempt_count + 1 }

    -- The three early errors, and the rest of the method behind them.
    pub register_cases :
        (P : Result ChannelError (TestCandidate F) × Channel F → Type 0)
        → ((e : ChannelError) → P (raise e, c))
        → (leb c.max_registration_attempts c.registration_attempt_count ≡ false
            → P (raise candidates_exhausted, attempted))
        → (leb c.max_registration_attempts c.registration_attempt_count ≡ false
            → (o : Option (TestCandidate F)) → existing ≡ o
            → (o ≡ none → leb c.max_test_candidates (length c.test_candidates) ≡ false)
            → P (finish (same_test paths argv) o (validated validator o built) attempted))
        → P registered
    unfolding register_test_candidate
    register_cases P early full rest = elim (Bool-cases (is_configured c)) [
      | inr e ↦ rw e (early not_configured)
      | inl e ↦ elim (Bool-cases (leb c.max_registration_attempts c.registration_attempt_count)) [
        | inl d ↦ rw (e, d) (early attempts_exhausted)
        | inr d ↦ elim (Option-cases existing) [
          | inr (old, h) ↦ rw (e, d, h) (rest d (some old) h (λ q. cc))
          | inl h ↦ elim (Bool-cases (leb c.max_test_candidates (length c.test_candidates))) [
            | inl f ↦ rw (e, d, h, f) (full d)
            | inr f ↦ rw (e, d, h, f) (rest d none h (λ q. f))
          ]
        ]
      ]
    ]

    finish-IsBounded :
        (o : Option (TestCandidate F)) (r : Result String (TestCandidate F))
        → leb c.max_registration_attempts c.registration_attempt_count ≡ false
        → (o ≡ none → leb c.max_test_candidates (length c.test_candidates) ≡ false)
        → IsBounded c
        → IsBounded (finish (same_test paths argv) o r attempted).1
    finish-IsBounded o (raise e) d f h = record {
      attempts = ground arith;
      candidates = h.candidates;
    }
    finish-IsBounded none (ok t) d f h = record {
      attempts = ground arith;
      candidates = ground (arith, f refl, length-append c.test_candidates (t ∷ []));
    }
    finish-IsBounded (some old) (ok t) d f h = record {
      attempts = ground arith;
      candidates =
          rw (length-replace_first (same_test paths argv) t c.test_candidates) h.candidates;
    }

    -- A registration keeps the numbers of candidates and of attempts within their limits, on each
    -- of its branches.
    pub register_test_candidate-IsBounded : IsBounded c → IsBounded registered.1
    register_test_candidate-IsBounded h =
        register_cases (λ r. IsBounded r.1) (λ e. h)
          (λ d. record { attempts = ground arith; candidates = h.candidates })
          (λ d o e f. finish-IsBounded o (validated validator o built) d f h)
