-- ===== src/Knowledge/SkillLifecycle.antt =====
-- src/longrun_agent/knowledge/skill_lifecycle.py: `SkillLifecycleManager`.
pub mod Earned
pub mod Operations
pub mod Candidate
pub mod Usage
pub mod Runs
use long_running_coding_agen.Prelude.{
  ℕ, ◌+◌, String, Bool, true, false, not, ◌&&◌, ◌||◌, Option, none, some, List, [], ◌∷◌, ◌++◌, map,
  str_eq, if◌then◌else◌, leb, length, elem, or_empty, is_empty, join, dedupe_preserving_order,
  Result, ok, raise,
}
use long_running_coding_agen.Knowledge.Schema.{
  MemoryStatus, SkillStatus, ExperienceEvidencePack, MemoryRecord, SkillRecord, SkillStep,
  SkillCandidateDraft, is_active, is_portable,
}
use long_running_coding_agen.Knowledge.Config.{
  KnowledgeConfig, KnowledgeSkillConfig, is_memory_skill,
}
use long_running_coding_agen.Knowledge.Library.{Library}
use long_running_coding_agen.Knowledge.Store.{
  KnowledgeStore, StoreError, Value, text, append_event, load_memory, load_skill, skill_status_name,
}
use long_running_coding_agen.Knowledge.Skills.{
  save_skill, find_skill_by_derivation, validate_safe_procedure, contains_source_specific_text,
  skill_status_eq, is_given, SkillReason, validate,
}

module _ (lib : Library) where
  open lib use {Float}

  -- What a method returns or raises, with the store that it leaves.
  abbrev pub Outcome : Type 0 → Type 0
  Outcome A = Result StoreError A × KnowledgeStore Float

  abbrev is_active_source : Result StoreError (MemoryRecord Float) → Bool
  is_active_source (raise e) = false
  is_active_source (ok m) = is_active m.status

  -- The loop of `_active_sources`, and the method.
  unfoldable pub all_active : List String → KnowledgeStore Float → Bool
  unfolding load_memory
  all_active [] s = true
  all_active (i ∷ is) s = is_active_source (load_memory i s) && all_active is s

  unfoldable pub active_sources : List String → KnowledgeStore Float → Bool
  unfolding all_active
  active_sources is s = not (is_empty is) && all_active is s

  abbrev anti_conditions_of : Result StoreError (MemoryRecord Float) → List String
  anti_conditions_of (raise e) = []
  anti_conditions_of (ok m) = m.anti_conditions

  unfoldable pub all_anti_conditions : List String → KnowledgeStore Float → List String
  unfolding load_memory
  all_anti_conditions [] s = []
  all_anti_conditions (i ∷ is) s = anti_conditions_of (load_memory i s) ++ all_anti_conditions is s

  -- `_source_anti_conditions`
  unfoldable pub source_anti_conditions : List String → KnowledgeStore Float → List String
  unfolding all_anti_conditions dedupe_preserving_order
  source_anti_conditions is s = dedupe_preserving_order (all_anti_conditions is s)

  -- The value behind a save, where that returns.
  abbrev pub saved :
      {A : Type 0}
      → A
      → (KnowledgeStore Float → KnowledgeStore Float)
      → Outcome (Unit {0})
      → Outcome A
  saved a events (raise e, s) = (raise e, s)
  saved a events (ok _, s) = (ok a, events s)

  -- The promotion in `record_success`: whether the skill, as counted, is to become active.
  abbrev pub is_promoted : KnowledgeSkillConfig Float → SkillRecord Float → Bool
  is_promoted rules k =
      skill_status_eq k.status SkillStatus.validated
      && (leb rules.promotion_min_successes k.success_count
          && (leb rules.promotion_min_distinct_tasks (length k.distinct_task_ids)
              && leb rules.promotion_min_distinct_repositories
                  (length k.distinct_repository_fingerprints)))

  unfoldable pub count_success :
      (task_id repository_fingerprint : String) → SkillRecord Float → SkillRecord Float
  count_success t r k = record k {
    success_count = k.success_count + 1;
    distinct_task_ids = k.distinct_task_ids ++ t ∷ [];
    distinct_repository_fingerprints =
        if elem r k.distinct_repository_fingerprints
        then k.distinct_repository_fingerprints
        else k.distinct_repository_fingerprints ++ r ∷ [];
  }

  unfoldable pub promote : KnowledgeSkillConfig Float → SkillRecord Float → SkillRecord Float
  promote rules k = if is_promoted rules k then record k { status = SkillStatus.active } else k

  abbrev pub promotion_events :
      KnowledgeSkillConfig Float → SkillRecord Float → KnowledgeStore Float → KnowledgeStore Float
  promotion_events rules k s =
      if is_promoted rules k
      then append_event "skill_promoted"
          (("skill_id", text k.skill_id) ∷ ("status_after", text "active") ∷ []) s
      else s

  -- `record_success` on the skill that was loaded.
  unfoldable pub succeed :
      KnowledgeSkillConfig Float
      → (now : String) → (task_id repository_fingerprint : String) → SkillRecord Float
      → KnowledgeStore Float
      → Outcome (SkillRecord Float)
  unfolding count_success promote append_event save_skill
  succeed rules now t r k s =
      let counted = count_success t r k in
      let k' = record (promote rules counted) { updated_at = now } in
      if elem t k.distinct_task_ids
      then (ok k, s)
      else saved k' (λ x. x) (save_skill lib k' (promotion_events rules counted s))

  abbrev pub succeed_loaded :
      KnowledgeSkillConfig Float
      → (now : String) → (task_id repository_fingerprint : String)
      → Result StoreError (SkillRecord Float)
      → KnowledgeStore Float
      → Outcome (SkillRecord Float)
  succeed_loaded rules now t r (raise e) s = (raise e, s)
  succeed_loaded rules now t r (ok k) s = succeed rules now t r k s

  unfoldable pub record_success :
      KnowledgeSkillConfig Float
      → (now : String) → (skill_id task_id repository_fingerprint : String) → KnowledgeStore Float
      → Outcome (SkillRecord Float)
  unfolding load_skill succeed
  record_success rules now i t r s = succeed_loaded rules now t r (load_skill i s) s

  unfoldable pub count_harm : SkillRecord Float → SkillRecord Float
  count_harm k = record k {
    harmful_count = k.harmful_count + 1;
    failure_count = k.failure_count + 1;
    status =
        if skill_status_eq k.status SkillStatus.active then SkillStatus.deprecated else k.status;
  }

  abbrev pub harm_events :
      (reason : String) → SkillRecord Float → KnowledgeStore Float → KnowledgeStore Float
  harm_events reason k s =
      if skill_status_eq k.status SkillStatus.active
      then append_event "skill_deprecated"
          (("skill_id", text k.skill_id) ∷ ("reason", text reason) ∷ []) s
      else s

  abbrev pub harm_loaded :
      (now reason : String)
      → Result StoreError (SkillRecord Float)
      → KnowledgeStore Float
      → Outcome (SkillRecord Float)
  harm_loaded now reason (raise e) s = (raise e, s)
  harm_loaded now reason (ok k) s =
      let k' = record (count_harm k) { updated_at = now } in
      saved k' (λ x. x) (save_skill lib k' (harm_events reason k s))

  unfoldable pub record_harmful_use :
      (now : String)
      → (skill_id reason : String) → KnowledgeStore Float
      → Outcome (SkillRecord Float)
  unfolding load_skill count_harm append_event save_skill
  record_harmful_use now i reason s = harm_loaded now reason (load_skill i s) s

  abbrev pub skipped :
      (episode_id reason : String) → KnowledgeStore Float → Outcome (Option (SkillRecord Float))
  skipped i reason s = (
    ok none,
    append_event "skill_candidate_skipped" (("episode_id", text i) ∷ ("reason", text reason) ∷ [])
        s,
  )

  abbrev pub failed :
      (episode_id reason : String) → KnowledgeStore Float → Outcome (Option (SkillRecord Float))
  failed i reason s = (
    ok none,
    append_event "skill_validation_failed" (("episode_id", text i) ∷ ("reason", text reason) ∷ [])
        s,
  )

  abbrev pub draft_text : SkillCandidateDraft Float → String
  draft_text k = join " " (
      k.title
      ∷ k.summary
      ∷ (k.preconditions
          ++ (k.anti_conditions
              ++ (k.parameters
                  ++ (map (λ (p : SkillStep). p.description) k.procedure
                      ++ (map (λ (p : SkillStep). or_empty p.command) k.procedure
                          ++ (k.verification ++ k.stop_conditions)))))))

  -- `SkillRecord(...)` with its defaults, before its validator has run.
  abbrev pub skill_of :
      (skill_id now : String)
      → SkillCandidateDraft Float
      → ExperienceEvidencePack Float
      → SkillRecord Float
  skill_of skill_id now d pack = record {
    skill_id = skill_id;
    version = 1;
    status = SkillStatus.draft;
    scope = d.scope;
    title = d.title;
    summary = d.summary;
    preconditions = d.preconditions;
    anti_conditions = d.anti_conditions;
    parameters = d.parameters;
    procedure = d.procedure;
    verification = d.verification;
    stop_conditions = d.stop_conditions;
    tags = d.tags;
    repository_fingerprint = some pack.repository_fingerprint;
    source_memory_ids = d.source_memory_ids;
    derivation_key = "";
    semantic_signature = "";
    source_episode_ids = pack.episode_id ∷ [];
    source_task_ids = pack.task_id ∷ [];
    evidence_ids = d.evidence_ids;
    confidence = d.confidence;
    success_count = 1;
    failure_count = 0;
    distinct_task_ids = pack.task_id ∷ [];
    distinct_repository_fingerprints = pack.repository_fingerprint ∷ [];
    previous_version_id = none;
    next_version_id = none;
    created_at = now;
    updated_at = now;
    retrieval_count = 0;
    exposure_count = 0;
    reference_count = 0;
    helpful_count = 0;
    harmful_count = 0;
    last_retrieved_at = none;
    last_used_at = none;
  }

  -- The draft with its sources, and with the conditions of the sources.
  abbrev pub sourced :
      SkillCandidateDraft Float → List String → KnowledgeStore Float → SkillCandidateDraft Float
  sourced d is s = record d {
    source_memory_ids = if is_empty d.source_memory_ids then is else d.source_memory_ids;
    anti_conditions = dedupe_preserving_order (d.anti_conditions ++ source_anti_conditions is s);
  }

  abbrev pub merge : (now : String) → SkillRecord Float → SkillRecord Float → SkillRecord Float
  merge now k old = record old {
    source_episode_ids = dedupe_preserving_order (old.source_episode_ids ++ k.source_episode_ids);
    source_task_ids = dedupe_preserving_order (old.source_task_ids ++ k.source_task_ids);
    evidence_ids = dedupe_preserving_order (old.evidence_ids ++ k.evidence_ids);
    updated_at = now;
  }

  abbrev pub candidate_events :
      (episode_id skill_id : String) → KnowledgeStore Float → KnowledgeStore Float
  candidate_events i skill_id s =
      append_event "skill_validated" (("episode_id", text i) ∷ ("skill_id", text skill_id) ∷ []) (
        append_event "skill_candidate_created"
          (("episode_id", text i) ∷ ("skill_id", text skill_id) ∷ []) s)

  abbrev pub upsert_events :
      SkillRecord Float → SkillRecord Float → KnowledgeStore Float → KnowledgeStore Float
  upsert_events k' k s =
      append_event "skill_derivation_upserted"
        (("skill_id", text k'.skill_id)
          ∷ ("derivation_key", text k'.derivation_key)
          ∷ ("semantic_signature", text k'.semantic_signature)
          ∷ ("candidate_semantic_signature", text k.semantic_signature)
          ∷ [])
        s

  -- The end of `candidate_from_success`: an old skill of the same sources is updated, or the skill
  -- is saved as validated.
  abbrev pub store_candidate :
      (now : String)
      → (episode_id : String) → SkillRecord Float
      → Option (SkillRecord Float)
      → KnowledgeStore Float
      → Outcome (Option (SkillRecord Float))
  store_candidate now i k (some old) s =
      let k' = merge now k old in saved (some k') (upsert_events k' k) (save_skill lib k' s)
  store_candidate now i k none s =
      let k' = record k { status = SkillStatus.validated } in
      saved (some k') (candidate_events i k.skill_id) (save_skill lib k' s)

  -- `reasons_text` is "; ".join of the reasons.
  abbrev pub validated_candidate :
      KnowledgeConfig Float
      → (now : String) → (reasons_text : List SkillReason → String) → ExperienceEvidencePack Float
      → Result StoreError (SkillRecord Float)
      → KnowledgeStore Float
      → Outcome (Option (SkillRecord Float))
  validated_candidate config now reasons_text pack (raise e) s = (raise e, s)
  validated_candidate config now reasons_text pack (ok k) s =
      let checked = validate lib config.skill (some s) k pack in
      if not checked.0
      then failed pack.episode_id (reasons_text checked.1) s
      else store_candidate now pack.episode_id k
          (find_skill_by_derivation lib k.source_memory_ids s) s

  abbrev pub draft_candidate :
      KnowledgeConfig Float
      → (skill_id now : String) → (reasons_text : List SkillReason → String)
      → ExperienceEvidencePack Float
      → List String
      → Option (SkillCandidateDraft Float)
      → KnowledgeStore Float
      → Outcome (Option (SkillRecord Float))
  draft_candidate config i now reasons_text pack is none s = (ok none, s)
  draft_candidate config i now reasons_text pack is (some draft) s =
      let d = sourced draft is s in
      if is_portable d.scope && contains_source_specific_text lib (draft_text d)
      then failed pack.episode_id
          "portable skill contains source-specific file, function, path, or secret-like text" s
      else validated_candidate config now reasons_text pack
          (validate_safe_procedure lib (skill_of i now d pack)) s

  abbrev pub has_verified_success : ExperienceEvidencePack Float → Bool
  has_verified_success pack =
      not (is_empty pack.successful_verifications)
      && elim pack.verification_verdict [ none ↦ true | some v ↦ str_eq v "verified" ]

  unfoldable pub candidate_from_success :
      KnowledgeConfig Float
      → (skill_id now : String) → (reasons_text : List SkillReason → String)
      → ExperienceEvidencePack Float
      → (draft : Option (SkillCandidateDraft Float)) → (source_memory_ids : List String)
      → KnowledgeStore Float
      → Outcome (Option (SkillRecord Float))
  unfolding active_sources append_event
  candidate_from_success config i now reasons_text pack draft is s =
      if not (is_memory_skill config.mode && config.skill.enabled)
      then (ok none, s)
      else if not (has_verified_success pack)
      then (ok none, s)
      else if config.skill.require_active_helpful_source_for_candidate
      then (if not (active_sources is s)
          then skipped pack.episode_id "source_memory_not_active" s
          else draft_candidate config i now reasons_text pack is draft s)
      else if is_empty pack.files_changed
      then skipped pack.episode_id "no_changed_files" s
      else draft_candidate config i now reasons_text pack is draft s
