-- ===== src/Control/Channel/Identity.antt =====
-- The identity of a test candidate: its paths and its command.
use long_running_coding_agen.Prelude.{
  ◌≤◌, String, ◌≡◌, Option, none, some, List, find, count, Result, ok, raise,
}
use long_running_coding_agen.Verification.Schema.{TestCandidate}
use long_running_coding_agen.Control.Channel.{Channel, ChannelError, same_test}

module _ {F : Type 0} where
  -- A candidate that stands for an old one has the identifier of that.
  abbrev pub KeepsId : Option (TestCandidate F) → TestCandidate F → Type 0
  KeepsId none t = Unit
  KeepsId (some old) t = t.candidate_id ≡ old.candidate_id

  -- What the validator keeps of a candidate.
  abbrev pub Keeps : TestCandidate F → TestCandidate F → Type 0
  Keeps t u =
      (u.paths ≡ t.paths) × (u.command_argv ≡ t.command_argv) × (u.candidate_id ≡ t.candidate_id)

  -- The candidate is one for the test `paths` and `argv`.
  abbrev pub IsFor : (paths argv : List String) → TestCandidate F → Type 0
  IsFor paths argv t = (t.paths ≡ paths) × (t.command_argv ≡ argv)

  module _ (built : Result String (TestCandidate F))
      (validator : Option (TestCandidate F → Result String (TestCandidate F)))
      (paths argv : List String) (c : Channel F) where
    -- What is found for the test after a registration. Where that raises, the candidates are as
    -- before.
    abbrev pub IsFound : Result ChannelError (TestCandidate F) × Channel F → Type 0
    IsFound (raise e, c') =
        (c'.test_candidates ≡ c.test_candidates) × (c'.new_test_candidates ≡ c.new_test_candidates)
    IsFound (ok t, c') =
        (find (same_test paths argv) c'.test_candidates ≡ some t)
        × (count (same_test paths argv) c'.test_candidates ≤ 1)
        × KeepsId (find (same_test paths argv) c.test_candidates) t
