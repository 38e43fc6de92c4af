-- ===== src/Knowledge/Schema.antt =====
-- src/longrun_agent/knowledge/schema.py: evidence, reflections, memories and skills. `F` is the type
-- of the floating-point numbers.
use long_running_coding_agen.Prelude.{
  ℕ, String, Bool, true, false, Option, List, map, str_eq, distinct, find_last,
}
use long_running_coding_agen.Verification.Schema.{ℤ}

pub data MemoryKind : Type 0 where
  failure_reflection successful_lesson repository_constraint tool_usage_lesson : MemoryKind

pub data MemoryScope : Type 0 where
  task project repository portable : MemoryScope

pub data MemoryStatus : Type 0 where
  candidate quarantined active superseded invalidated expired : MemoryStatus

pub data SkillStatus : Type 0 where
  draft validated active deprecated retired : SkillStatus

pub data KnowledgeUseType : Type 0 where
  retrieved exposed referenced helpful harmful neutral : KnowledgeUseType

pub record ExperienceEvidenceItem : Type 0 where
  pub evidence_id : String
  pub project_id : String
  pub task_id : String
  pub session_id : String
  pub run_id : String
  pub context_segment_id : ℕ
  pub step : ℕ
  pub event_type : String
  pub tool_name : Option String
  pub command : Option String
  pub path : Option String
  pub summary : String
  pub success : Option Bool
  pub exit_code : Option ℤ
  pub output_excerpt : Option String
  pub error_type : Option String
  pub artifact_path : Option String
  pub file_sha256 : Option String
  pub code_epoch : Option ℕ
  pub timestamp : String

pub record ExperienceEvidencePack (F : Type 0) : Type 0 where
  pub episode_id : String
  pub project_id : String
  pub task_id : String
  pub task_objective : String
  pub acceptance_criteria : List String
  pub session_id : String
  pub run_id : String
  pub plan_version : ℕ
  pub repository_fingerprint : String
  pub language_tags : List String
  pub framework_tags : List String
  pub tool_tags : List String
  pub starting_task_status : String
  pub ending_task_status : String
  pub terminal_signal : Option String
  pub run_status : String
  pub progress_made : Bool
  pub no_progress : Bool
  pub files_read : List String
  pub files_touched : List String
  pub files_changed : List String
  pub commands : List String
  pub failed_verifications : List String
  pub successful_verifications : List String
  pub repeated_actions : List String
  pub blockers : List String
  pub context_reset_count : ℕ
  pub verification_report_id : Option String
  pub verification_verdict : Option String
  pub failed_check_categories : List String
  pub f2p_rate : F
  pub p2p_rate : F
  pub integrity_violations : List String
  pub infrastructure_error : Option String
  pub evidence_items : List ExperienceEvidenceItem
  pub created_at : String

-- The `Literal` of a reflection's category.
pub data FailureCategory : Type 0 where
  incorrect_repository_assumption stale_state_usage incomplete_verification : FailureCategory
  wrong_tool_usage environment_setup dependency_mismatch repeated_action_loop : FailureCategory
  scope_violation implementation_error planning_error unknown : FailureCategory

pub record ReflectionCandidate (F : Type 0) : Type 0 where
  pub failure_category : FailureCategory
  pub root_cause : String
  pub incorrect_assumptions : List String
  pub recommended_actions : List String
  pub avoid_actions : List String
  pub applicability_conditions : List String
  pub anti_conditions : List String
  pub proposed_scope : MemoryScope
  pub tags : List String
  pub evidence_ids : List String
  pub confidence : F
  pub candidate_id : String
  pub episode_id : String
  pub created_at : String

pub record MemoryRecord (F : Type 0) : Type 0 where
  pub memory_id : String
  pub kind : MemoryKind
  pub scope : MemoryScope
  pub status : MemoryStatus
  pub title : String
  pub lesson : String
  pub recommended_actions : List String
  pub avoid_actions : List String
  pub applicability_conditions : List String
  pub anti_conditions : List String
  pub tags : List String
  pub project_id : Option String
  pub repository_fingerprint : Option String
  pub source_episode_ids : List String
  pub source_task_ids : List String
  pub source_session_ids : List String
  pub evidence_ids : List String
  pub confidence : F
  pub created_at : String
  pub updated_at : String
  pub expires_at : Option String
  pub supersedes_memory_id : Option String
  pub superseded_by_memory_id : Option String
  pub retrieval_count : ℕ
  pub exposure_count : ℕ
  pub reference_count : ℕ
  pub helpful_count : ℕ
  pub harmful_count : ℕ
  pub last_retrieved_at : Option String
  pub last_used_at : Option String

pub record SkillStep : Type 0 where
  pub description : String
  pub tool_name : Option String
  pub command : Option String

pub record SkillRecord (F : Type 0) : Type 0 where
  pub skill_id : String
  pub version : ℕ
  pub status : SkillStatus
  pub scope : MemoryScope
  pub title : String
  pub summary : String
  pub preconditions : List String
  pub anti_conditions : List String
  pub parameters : List String
  pub procedure : List SkillStep
  pub verification : List String
  pub stop_conditions : List String
  pub tags : List String
  pub repository_fingerprint : Option String
  pub source_memory_ids : List String
  pub derivation_key : String
  pub semantic_signature : String
  pub source_episode_ids : List String
  pub source_task_ids : List String
  pub evidence_ids : List String
  pub confidence : F
  pub success_count : ℕ
  pub failure_count : ℕ
  pub distinct_task_ids : List String
  pub distinct_repository_fingerprints : List String
  pub previous_version_id : Option String
  pub next_version_id : Option String
  pub created_at : String
  pub updated_at : String
  pub retrieval_count : ℕ
  pub exposure_count : ℕ
  pub reference_count : ℕ
  pub helpful_count : ℕ
  pub harmful_count : ℕ
  pub last_retrieved_at : Option String
  pub last_used_at : Option String

pub record SkillCandidateDraft (F : Type 0) : Type 0 where
  pub title : String
  pub summary : String
  pub scope : MemoryScope
  pub preconditions : List String
  pub anti_conditions : List String
  pub parameters : List String
  pub procedure : List SkillStep
  pub verification : List String
  pub stop_conditions : List String
  pub tags : List String
  pub evidence_ids : List String
  pub source_memory_ids : List String
  pub confidence : F

pub record KnowledgeUseRecord : Type 0 where
  pub use_id : String
  pub project_id : String
  pub task_id : String
  pub session_id : String
  pub retrieval_id : Option String
  pub memory_id : Option String
  pub skill_id : Option String
  pub use_type : KnowledgeUseType
  pub reason : String
  pub timestamp : String

pub data ConflictSeverity : Type 0 where
  low medium high : ConflictSeverity

pub record KnowledgeConflictRecord : Type 0 where
  pub conflict_id : String
  pub left_id : String
  pub right_id : String
  pub conflict_type : String
  pub severity : ConflictSeverity
  pub reason : String
  pub timestamp : String

-- `==` on the members of the enumerations.
unfoldable pub is_portable : MemoryScope → Bool
is_portable portable = true
is_portable _ = false

unfoldable pub is_active : MemoryStatus → Bool
is_active MemoryStatus.active = true
is_active _ = false

unfoldable pub use_type_eq : KnowledgeUseType → KnowledgeUseType → Bool
use_type_eq retrieved retrieved = true
use_type_eq exposed exposed = true
use_type_eq referenced referenced = true
use_type_eq helpful helpful = true
use_type_eq harmful harmful = true
use_type_eq neutral neutral = true
use_type_eq _ _ = false

-- `evidence_by_id().get(id)`
unfoldable pub evidence_by_id : List ExperienceEvidenceItem → String → Option ExperienceEvidenceItem
evidence_by_id items i = find_last (λ (e : ExperienceEvidenceItem). str_eq e.evidence_id i) items

-- `validate_unique_evidence`: `False` stands for its exception.
unfoldable pub validate_unique_evidence : List ExperienceEvidenceItem → Bool
validate_unique_evidence items =
    distinct (map (λ (e : ExperienceEvidenceItem). e.evidence_id) items)
