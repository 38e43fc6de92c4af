-- ===== src/Knowledge/Reflection.antt =====
-- src/longrun_agent/knowledge/memory_lifecycle.py: `MemoryLifecycleManager`.
pub mod Admission
use long_running_coding_agen.Prelude.{
  ℕ, ◌+◌, ◌<◌, String, Bool, true, false, not, ◌&&◌, ◌||◌, Option, none, some, List, [], ◌∷◌, ◌++◌,
  map, str_eq, if◌then◌else◌, ltb, elem, is_empty, join, dedupe_preserving_order, Result, ok, raise,
}
use long_running_coding_agen.Knowledge.Schema.{
  MemoryKind, MemoryScope, task, project, repository, portable, MemoryStatus, FailureCategory,
  incorrect_repository_assumption, stale_state_usage, incomplete_verification, wrong_tool_usage,
  environment_setup, dependency_mismatch, repeated_action_loop, scope_violation,
  implementation_error, planning_error, unknown, ExperienceEvidencePack, ReflectionCandidate,
  MemoryRecord,
}
use long_running_coding_agen.Knowledge.Config.{KnowledgeConfig, KnowledgeMode, is_reflection}
use long_running_coding_agen.Knowledge.Library.{Library}
use long_running_coding_agen.Knowledge.Store.{
  KnowledgeStore, StoreError, Value, text, texts, append_event, save_memory,
  save_reflection_rejection, find_duplicate_memory,
}
use long_running_coding_agen.Knowledge.Gate.{GateReason, GateDecision, EvidenceGateResult, evaluate}

-- `candidate.failure_category.replace("_", " ").title()`
abbrev pub title_of : FailureCategory → String
title_of incorrect_repository_assumption = "Incorrect Repository Assumption"
title_of stale_state_usage = "Stale State Usage"
title_of incomplete_verification = "Incomplete Verification"
title_of wrong_tool_usage = "Wrong Tool Usage"
title_of environment_setup = "Environment Setup"
title_of dependency_mismatch = "Dependency Mismatch"
title_of repeated_action_loop = "Repeated Action Loop"
title_of scope_violation = "Scope Violation"
title_of implementation_error = "Implementation Error"
title_of planning_error = "Planning Error"
title_of unknown = "Unknown"

abbrev pub decision_name : GateDecision → String
decision_name GateDecision.accepted = "accepted"
decision_name GateDecision.quarantined = "quarantined"
decision_name GateDecision.rejected = "rejected"

abbrev pub is_rejected : GateDecision → Bool
is_rejected GateDecision.rejected = true
is_rejected _ = false

abbrev pub is_quarantined : GateDecision → Bool
is_quarantined GateDecision.quarantined = true
is_quarantined _ = false

abbrev generates_reflection : KnowledgeMode → Bool
generates_reflection KnowledgeMode.disabled = false
generates_reflection KnowledgeMode.raw_episode = false
generates_reflection _ = true

abbrev pub in_project : MemoryScope → Bool
in_project project = true
in_project task = true
in_project _ = false

abbrev pub in_repository : MemoryScope → Bool
in_repository repository = true
in_repository _ = false

abbrev pub or_scope : Option MemoryScope → MemoryScope → MemoryScope
or_scope none b = b
or_scope (some a) b = a

module _ (lib : Library) where
  open lib use {Float}

  -- `_failure_signal`
  unfoldable pub failure_signal : ExperienceEvidencePack Float → Bool
  failure_signal pack =
      pack.no_progress
      || (not (is_empty pack.blockers)
          || (not (is_empty pack.failed_verifications) || not (is_empty pack.repeated_actions)))

  unfoldable pub should_reflect :
      KnowledgeConfig Float → ExperienceEvidencePack Float → Bool × String
  unfolding failure_signal
  should_reflect config pack =
      if not (generates_reflection config.mode)
      then (false, "mode does not generate reflection")
      else if not config.reflection.enabled
      then (false, "reflection disabled")
      else if str_eq pack.run_status "provider_error"
          && not config.reflection.trigger_on_provider_error
      then (false, "provider error does not trigger reflection")
      else if ltb 0 pack.context_reset_count
          && (not config.reflection.trigger_on_context_reset && not (failure_signal pack))
      then (false, "context reset alone does not trigger reflection")
      else if not (is_empty pack.blockers) && config.reflection.trigger_on_blocked
      then (true, "blocked")
      else if pack.no_progress && config.reflection.trigger_on_no_progress
      then (true, "no_progress")
      else if elem pack.run_status
          ("max_steps_reached" ∷ "terminal_signal_missing" ∷ "final_without_terminal_signal" ∷ [])
      then (true, "failed_session")
      else if not (is_empty pack.failed_verifications) && config.reflection.trigger_on_failed
      then (true, "failed_verification")
      else if not (is_empty pack.repeated_actions)
      then (true, "repeated_action")
      else (false, "no reflection trigger")

  -- The status that `persist_candidate` gives to its record.
  unfoldable pub status_for : KnowledgeMode → EvidenceGateResult Float → MemoryStatus
  status_for mode r =
      if is_quarantined r.decision && not (is_reflection mode)
      then MemoryStatus.quarantined
      else if is_reflection mode
      then MemoryStatus.candidate
      else if r.accepted
      then MemoryStatus.active
      else MemoryStatus.quarantined

  -- `MemoryRecord(...)`; the identifier and the time are what its constructor makes.
  abbrev pub memory_of :
      KnowledgeMode
      → (memory_id now : String) → ReflectionCandidate Float
      → ExperienceEvidencePack Float
      → EvidenceGateResult Float
      → MemoryRecord Float
  memory_of mode memory_id now c pack r =
      let scope = or_scope r.final_scope c.proposed_scope in
      record {
        memory_id = memory_id;
        kind = MemoryKind.failure_reflection;
        scope = scope;
        status = status_for mode r;
        title = title_of c.failure_category;
        lesson = c.root_cause;
        recommended_actions = c.recommended_actions;
        avoid_actions = c.avoid_actions;
        applicability_conditions = c.applicability_conditions;
        anti_conditions = c.anti_conditions;
        tags = c.tags;
        project_id = if in_project scope then some pack.project_id else none;
        repository_fingerprint =
            if in_repository scope then some pack.repository_fingerprint else none;
        source_episode_ids = pack.episode_id ∷ [];
        source_task_ids = pack.task_id ∷ [];
        source_session_ids = pack.session_id ∷ [];
        evidence_ids = r.validated_evidence_ids;
        confidence = r.final_confidence;
        created_at = now;
        updated_at = now;
        expires_at = none;
        supersedes_memory_id = none;
        superseded_by_memory_id = none;
        retrieval_count = 0;
        exposure_count = 0;
        reference_count = 0;
        helpful_count = 0;
        harmful_count = 0;
        last_retrieved_at = none;
        last_used_at = none;
      }

  abbrev pub merge_memory :
      (now : String)
      → ExperienceEvidencePack Float
      → MemoryRecord Float
      → MemoryRecord Float
      → MemoryRecord Float
  merge_memory now pack m old = record old {
    source_episode_ids = dedupe_preserving_order (old.source_episode_ids ++ pack.episode_id ∷ []);
    source_task_ids = dedupe_preserving_order (old.source_task_ids ++ pack.task_id ∷ []);
    source_session_ids = dedupe_preserving_order (old.source_session_ids ++ pack.session_id ∷ []);
    evidence_ids = dedupe_preserving_order (old.evidence_ids ++ m.evidence_ids);
    updated_at = now;
  }

  -- The fields that all events of a pack have.
  abbrev of_pack : ExperienceEvidencePack Float → List (String × Value) → List (String × Value)
  of_pack pack rest =
      ("project_id", text pack.project_id)
      ∷ ("task_id", text pack.task_id)
      ∷ ("session_id", text pack.session_id)
      ∷ ("episode_id", text pack.episode_id)
      ∷ rest

  abbrev pub stored :
      MemoryRecord Float
      → Result StoreError (Unit {0}) × KnowledgeStore Float
      → Result StoreError (Option (MemoryRecord Float)) × KnowledgeStore Float
  stored m (raise e, s) = (raise e, s)
  stored m (ok _, s) = (ok (some m), s)

  abbrev pub store_memory :
      (now : String)
      → ExperienceEvidencePack Float
      → MemoryRecord Float
      → Option (MemoryRecord Float)
      → KnowledgeStore Float
      → Result StoreError (Option (MemoryRecord Float)) × KnowledgeStore Float
  store_memory now pack m none s = stored m (save_memory m s)
  store_memory now pack m (some old) s =
      let m' = merge_memory now pack m old in stored m' (save_memory m' s)

  -- What `persist_candidate` does with the gate's result.
  unfoldable pub persist_result :
      KnowledgeConfig Float
      → (memory_id now : String) → (reason_text : GateReason → String) → ReflectionCandidate Float
      → ExperienceEvidencePack Float
      → EvidenceGateResult Float
      → KnowledgeStore Float
      → Result StoreError (Option (MemoryRecord Float)) × KnowledgeStore Float
  unfolding status_for save_memory find_duplicate_memory append_event save_reflection_rejection join
  persist_result config memory_id now reason_text c pack r s =
      let created =
        append_event "reflection_candidate_created"
          (of_pack pack (
            ("evidence_ids", texts c.evidence_ids)
            ∷ ("status_after", text (decision_name r.decision))
            ∷ []))
          s in
      let refused =
        save_reflection_rejection
          (record {
            candidate_id = c.candidate_id;
            project_id = pack.project_id;
            task_id = pack.task_id;
            session_id = pack.session_id;
            cited_evidence_ids = c.evidence_ids;
            rejection_reasons = map reason_text r.rejection_reasons;
            final_scope = r.final_scope;
          })
          (append_event "reflection_evidence_rejected"
            (of_pack pack (("reason", text (join "; " (map reason_text r.rejection_reasons))) ∷ []))
            created) in
      let m = memory_of config.mode memory_id now c pack r in
      if is_rejected r.decision && not (is_reflection config.mode)
      then (ok none, refused)
      else store_memory now pack m (find_duplicate_memory lib m created) created

  unfoldable pub persist_candidate :
      KnowledgeConfig Float
      → (ids : ℕ → String) → (memory_id now : String) → (reason_text : GateReason → String)
      → ReflectionCandidate Float
      → ExperienceEvidencePack Float
      → KnowledgeStore Float
      → Result StoreError (Option (MemoryRecord Float)) × KnowledgeStore Float
  unfolding evaluate persist_result
  persist_candidate config ids memory_id now reason_text c pack s =
      let (r, s') = evaluate lib config.reflection ids now c pack s in
      persist_result config memory_id now reason_text c pack r s'
