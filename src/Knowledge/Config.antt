-- ===== src/Knowledge/Config.antt =====
-- src/longrun_agent/config.py: the settings of the knowledge base. `F` is the type of the
-- floating-point numbers.
use long_running_coding_agen.Prelude.{ℕ, String, Bool, true, false, Option}
use long_running_coding_agen.Knowledge.Schema.{MemoryScope}

pub data KnowledgeMode : Type 0 where
  disabled raw_episode reflection verified_memory memory_skill : KnowledgeMode

pub record KnowledgeEpisodeConfig : Type 0 where
  pub save_all_sessions : Bool
  pub max_evidence_items : ℕ

pub record KnowledgeReflectionConfig (F : Type 0) : Type 0 where
  pub enabled : Bool
  pub trigger_on_blocked : Bool
  pub trigger_on_no_progress : Bool
  pub trigger_on_failed : Bool
  pub trigger_on_decomposition : Bool
  pub trigger_on_provider_error : Bool
  pub trigger_on_context_reset : Bool
  pub max_protocol_retries : ℕ
  pub minimum_evidence_items : ℕ
  pub minimum_confidence : F

pub record KnowledgeMemoryConfig (F : Type 0) : Type 0 where
  pub max_active_records : ℕ
  pub max_retrieved : ℕ
  pub max_context_tokens : ℕ
  pub minimum_retrieval_score : F
  pub default_scope : MemoryScope
  pub expire_after_days : Option ℕ

pub record KnowledgeSkillConfig (F : Type 0) : Type 0 where
  pub enabled : Bool
  pub max_retrieved : ℕ
  pub max_context_tokens : ℕ
  pub promotion_min_successes : ℕ
  pub promotion_min_distinct_tasks : ℕ
  pub promotion_min_distinct_repositories : ℕ
  pub portable_minimum_semantic_score : F
  pub anti_condition_match_threshold : F
  pub minimum_candidate_confidence : F
  pub require_active_helpful_source_for_candidate : Bool
  pub allow_code_template : Bool
  pub auto_execute : Bool

pub record KnowledgeRetrievalConfig (F : Type 0) : Type 0 where
  pub lexical_weight : F
  pub tag_weight : F
  pub scope_weight : F
  pub evidence_weight : F
  pub utility_weight : F
  pub freshness_weight : F
  pub conflict_penalty : F

-- `record_mutation_policy` is "frozen_records" or else "read_write".
pub record KnowledgeConfig (F : Type 0) : Type 0 where
  pub mode : KnowledgeMode
  pub root : String
  pub strict_errors : Bool
  pub frozen_records : Bool
  pub episode : KnowledgeEpisodeConfig
  pub reflection : KnowledgeReflectionConfig F
  pub memory : KnowledgeMemoryConfig F
  pub skill : KnowledgeSkillConfig F
  pub retrieval : KnowledgeRetrievalConfig F

abbrev pub is_memory_skill : KnowledgeMode → Bool
is_memory_skill memory_skill = true
is_memory_skill _ = false

abbrev pub is_reflection : KnowledgeMode → Bool
is_reflection reflection = true
is_reflection _ = false
