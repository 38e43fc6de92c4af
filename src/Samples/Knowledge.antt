-- ===== src/Samples/Knowledge.antt =====
-- A small knowledge base, and the theorems of `Knowledge` at it.
use long_running_coding_agen.Knowledge.Arbitrator.Partition.{is_covered, arbitrate-memory_ids}
use long_running_coding_agen.Knowledge.Arbitrator.{RetrievedKnowledgeBundle, memory_ids, arbitrate}
use long_running_coding_agen.Prelude.{
  str_leb, codes_leb, ◌&&◌, not, note, nodup, elem, any, select, find, find_last, ℕ, String, ◌≡◌,
  refl, ◌⊎◌, inl, inr, Bool, true, false, none, some, [], ◌∷◌, ltb, join,
}
use long_running_coding_agen.Knowledge.Schema.{
  is_portable, repository, portable, MemoryKind, MemoryStatus, SkillStatus, ExperienceEvidenceItem,
  ExperienceEvidencePack, FailureCategory, ReflectionCandidate, MemoryRecord, SkillRecord, helpful,
  is_active,
}
use long_running_coding_agen.Knowledge.Config.{KnowledgeMode, KnowledgeConfig}
use long_running_coding_agen.Knowledge.Library.{Library}
use long_running_coding_agen.Knowledge.Store.{KnowledgeStore, add_memory_usage}
use long_running_coding_agen.Knowledge.Gate.{evaluate}
use long_running_coding_agen.Knowledge.Gate.Accepts.{IsGrounded, evaluate-IsGrounded}
use long_running_coding_agen.Knowledge.Reflection.{persist_candidate, memory_of}
use long_running_coding_agen.Knowledge.Reflection.Admission.{Survives, persist_candidate-IsGrounded}
use long_running_coding_agen.Knowledge.Skills.{validate}
use long_running_coding_agen.Knowledge.Skills.Sound.{IsSound, validate-IsSound}
use long_running_coding_agen.Knowledge.SkillLifecycle.{record_success}
use long_running_coding_agen.Knowledge.SkillLifecycle.Earned.{AreEarned}
use long_running_coding_agen.Knowledge.SkillLifecycle.Runs.{Run, done, next, success, Run-AreEarned}
use long_running_coding_agen.Knowledge.Store.Uses.{add_memory_usage-add_memory_usage}

-- Numbers for the floating-point numbers, and texts without letters in upper case.
abbrev library : Library
library = record {
  Float = ℕ;
  less = ltb;
  lower = λ t. t;
  words = λ t. t ∷ [];
  search = λ p t. false;
  findall = λ p t. [];
  digest_ids = join " ";
  digest_skill = λ t s p v. t;
}

abbrev config : KnowledgeConfig ℕ
config = record {
  mode = KnowledgeMode.memory_skill;
  root = ".";
  strict_errors = false;
  frozen_records = false;
  episode = record { save_all_sessions = true; max_evidence_items = 9 };
  reflection = record {
    enabled = true;
    trigger_on_blocked = true;
    trigger_on_no_progress = true;
    trigger_on_failed = true;
    trigger_on_decomposition = true;
    trigger_on_provider_error = false;
    trigger_on_context_reset = false;
    max_protocol_retries = 2;
    minimum_evidence_items = 1;
    minimum_confidence = 5;
  };
  memory = record {
    max_active_records = 9;
    max_retrieved = 3;
    max_context_tokens = 99;
    minimum_retrieval_score = 1;
    default_scope = repository;
    expire_after_days = none;
  };
  skill = record {
    enabled = true;
    max_retrieved = 3;
    max_context_tokens = 99;
    promotion_min_successes = 2;
    promotion_min_distinct_tasks = 2;
    promotion_min_distinct_repositories = 1;
    portable_minimum_semantic_score = 1;
    anti_condition_match_threshold = 1;
    minimum_candidate_confidence = 5;
    require_active_helpful_source_for_candidate = true;
    allow_code_template = false;
    auto_execute = false;
  };
  retrieval = record {
    lexical_weight = 1;
    tag_weight = 1;
    scope_weight = 1;
    evidence_weight = 1;
    utility_weight = 1;
    freshness_weight = 1;
    conflict_penalty = 1;
  };
}

abbrev evidence : String → Bool → ExperienceEvidenceItem
evidence i b = record {
  evidence_id = i;
  project_id = "p";
  task_id = "a";
  session_id = "s";
  run_id = "r";
  context_segment_id = 0;
  step = 1;
  event_type = "test_command";
  tool_name = some "bash";
  command = some "pytest";
  path = none;
  summary = "the tests";
  success = some b;
  exit_code = none;
  output_excerpt = some "1 test";
  error_type = none;
  artifact_path = none;
  file_sha256 = none;
  code_epoch = none;
  timestamp = "t";
}

-- A session in which the tests failed, and then passed.
abbrev pack : ExperienceEvidencePack ℕ
pack = record {
  episode_id = "e";
  project_id = "p";
  task_id = "a";
  task_objective = "work";
  acceptance_criteria = [];
  session_id = "s";
  run_id = "r";
  plan_version = 1;
  repository_fingerprint = "f";
  language_tags = [];
  framework_tags = [];
  tool_tags = [];
  starting_task_status = "ready";
  ending_task_status = "verified";
  terminal_signal = none;
  run_status = "completed";
  progress_made = true;
  no_progress = false;
  files_read = [];
  files_touched = [];
  files_changed = "m" ∷ [];
  commands = "pytest" ∷ [];
  failed_verifications = [];
  successful_verifications = "pytest" ∷ [];
  repeated_actions = [];
  blockers = [];
  context_reset_count = 0;
  verification_report_id = none;
  verification_verdict = some "verified";
  failed_check_categories = [];
  f2p_rate = 1;
  p2p_rate = 1;
  integrity_violations = [];
  infrastructure_error = none;
  evidence_items = evidence "x" false ∷ evidence "y" true ∷ [];
  created_at = "t";
}

abbrev candidate : ReflectionCandidate ℕ
candidate = record {
  failure_category = FailureCategory.implementation_error;
  root_cause = "an edge case was missed";
  incorrect_assumptions = [];
  recommended_actions = "test the empty input" ∷ [];
  avoid_actions = [];
  applicability_conditions = "parsers" ∷ [];
  anti_conditions = "no parser" ∷ [];
  proposed_scope = portable;
  tags = [];
  evidence_ids = "x" ∷ [];
  confidence = 8;
  candidate_id = "c";
  episode_id = "e";
  created_at = "t";
}

abbrev lesson : MemoryRecord ℕ
lesson = record {
  memory_id = "m";
  kind = MemoryKind.failure_reflection;
  scope = portable;
  status = MemoryStatus.active;
  title = "Planning Error";
  lesson = "plan the tests first";
  recommended_actions = "plan" ∷ [];
  avoid_actions = "guess" ∷ [];
  applicability_conditions = [];
  anti_conditions = [];
  tags = [];
  project_id = none;
  repository_fingerprint = none;
  source_episode_ids = [];
  source_task_ids = [];
  source_session_ids = [];
  evidence_ids = [];
  confidence = 8;
  created_at = "t";
  updated_at = "t";
  expires_at = none;
  supersedes_memory_id = none;
  superseded_by_memory_id = none;
  retrieval_count = 0;
  exposure_count = 0;
  reference_count = 0;
  helpful_count = 0;
  harmful_count = 0;
  last_retrieved_at = none;
  last_used_at = none;
}

-- A portable skill of that memory, which one task has used with success.
abbrev skill : SkillRecord ℕ
skill = record {
  skill_id = "k";
  version = 1;
  status = SkillStatus.validated;
  scope = portable;
  title = "edge cases";
  summary = "test the edge cases";
  preconditions = "a parser" ∷ [];
  anti_conditions = "no parser" ∷ [];
  parameters = [];
  procedure =
      record { description = "run the tests"; tool_name = some "bash"; command = some "pytest" }
      ∷ [];
  verification = [];
  stop_conditions = [];
  tags = [];
  repository_fingerprint = none;
  source_memory_ids = "m" ∷ [];
  derivation_key = "m";
  semantic_signature = "edge cases";
  source_episode_ids = [];
  source_task_ids = [];
  evidence_ids = "y" ∷ [];
  confidence = 8;
  success_count = 1;
  failure_count = 0;
  distinct_task_ids = "a" ∷ [];
  distinct_repository_fingerprints = "f" ∷ [];
  previous_version_id = none;
  next_version_id = none;
  created_at = "t";
  updated_at = "t";
  retrieval_count = 0;
  exposure_count = 0;
  reference_count = 0;
  helpful_count = 0;
  harmful_count = 0;
  last_retrieved_at = none;
  last_used_at = none;
}

abbrev store : KnowledgeStore ℕ
store = record {
  frozen_records = false;
  memories = lesson ∷ [];
  skills = skill ∷ [];
  uses = [];
  conflicts = [];
  rejections = [];
  events = [];
}

abbrev names : ℕ → String
names i = "n"

store_earned : AreEarned library config.skill store
unfolding nodup elem
store_earned = (record { counted = refl; once = refl; earned = refl }, tt)

abbrev promoted : KnowledgeStore ℕ
promoted = (record_success library config.skill "t" "k" "b" "f" store).1

abbrev succeeding : Run library config.skill store promoted
succeeding = next (success "t" "k" "b" "f" store) (done promoted)

evaluate-IsGrounded_example : IsGrounded library config.reflection store candidate pack
unfolding evaluate any note select elem find_last is_portable is_active
evaluate-IsGrounded_example =
    evaluate-IsGrounded library config.reflection names "t" candidate pack store refl

-- The record that the reflection becomes.
abbrev admitted : MemoryRecord ℕ
admitted =
    memory_of library config.mode "new" "t" candidate pack
      (evaluate library config.reflection names "t" candidate pack store).0

persist_candidate-IsGrounded_example :
    Survives library (lesson ∷ []) admitted
    ⊎ (IsGrounded library config.reflection store candidate pack
        × (admitted.lesson ≡ "an edge case was missed"))
unfolding persist_candidate find any note select elem find_last is_portable is_active str_leb
    codes_leb
persist_candidate-IsGrounded_example =
    persist_candidate-IsGrounded library config names "new" "t" (λ r. "") candidate pack store
      admitted (inr (inl refl)) refl

validate-IsSound_example : IsSound library config.skill store skill pack
unfolding validate note select elem any is_portable find is_active
validate-IsSound_example = validate-IsSound library config.skill store skill pack refl

Run-AreEarned_example : AreEarned library config.skill promoted
Run-AreEarned_example = Run-AreEarned library config.skill succeeding store_earned

add_memory_usage-add_memory_usage_example :
    (add_memory_usage "u" names "m" helpful "p" "a" "s" none "again"
      (add_memory_usage "v" names "m" helpful "p" "a" "s" none "" store).1).1
    ≡ (add_memory_usage "v" names "m" helpful "p" "a" "s" none "" store).1
add_memory_usage-add_memory_usage_example =
    add_memory_usage-add_memory_usage "v" "u" names names "m" helpful "p" "a" "s" none none ""
      "again" store refl refl refl

-- The skill, which is of the memory, shadows it.
abbrev bundle : RetrievedKnowledgeBundle ℕ
bundle = record {
  memories = lesson ∷ [];
  skills = skill ∷ [];
  primary_memory_ids = [];
  primary_skill_ids = [];
  shadowed_memory_ids = [];
  provenance_links = [];
  total_estimated_tokens = 9;
  retrieval_id = "q";
  created_at = "t";
}

arbitrate-memory_ids_example :
    (elem "m" (arbitrate bundle true).shadowed_memory_ids
      ≡ (true && (elem "m" (memory_ids bundle) && is_covered "m" (skill ∷ []))))
    × (elem "m" (arbitrate bundle true).primary_memory_ids
        ≡ (elem "m" (memory_ids bundle) && not (true && is_covered "m" (skill ∷ []))))
arbitrate-memory_ids_example = arbitrate-memory_ids bundle true "m"
