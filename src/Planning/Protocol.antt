-- ===== src/Planning/Protocol.antt =====
-- src/longrun_agent/planning/protocol.py: the drafts that a model submits.
use long_running_coding_agen.Prelude.{String, List}

pub record TaskDraft : Type 0 where
  pub key : String
  pub title : String
  pub objective : String
  pub acceptance_criteria : List String
  pub depends_on_keys : List String

pub record ChildTaskDraft : Type 0 where
  pub key : String
  pub title : String
  pub objective : String
  pub acceptance_criteria : List String
  pub depends_on_child_keys : List String

pub data RecoveryKind : Type 0 where
  retry_with_guidance decompose mark_blocked : RecoveryKind

pub record RecoveryCandidate : Type 0 where
  pub id : String
  pub kind : RecoveryKind
  pub description : String
  pub rationale : String
  pub expected_benefit : String
  pub risks : String
  pub testability : String
  pub child_tasks : List ChildTaskDraft
