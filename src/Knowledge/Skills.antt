-- ===== src/Knowledge/Skills.antt =====
-- src/longrun_agent/knowledge/skill_lifecycle.py: `SkillValidator` and what `SkillLifecycleManager`
-- does with the skills of a store; with the skills of schema.py and store.py.
pub mod Sound
use Prim.Native.String.{◌++◌ as append}
use long_running_coding_agen.Prelude.{
  note, ℕ, ◌+◌, String, Bool, true, false, not, ◌&&◌, ◌||◌, Option, none, some, List, [], ◌∷◌, ◌++◌,
  map, str_eq, if◌then◌else◌, leb, length, any, all, find, select, elem, or_empty, sorted, to_set,
  is_empty, join, str_contains, starts_with, dedupe_preserving_order, Result, ok, raise,
}
use long_running_coding_agen.Knowledge.Schema.{
  KnowledgeUseType, KnowledgeUseRecord, retrieved, exposed, referenced, helpful, harmful, neutral,
  MemoryStatus, SkillStatus, ExperienceEvidenceItem, ExperienceEvidencePack, MemoryRecord,
  SkillRecord, SkillStep, is_active, is_portable, evidence_by_id,
}
use long_running_coding_agen.Knowledge.Config.{KnowledgeSkillConfig}
use long_running_coding_agen.Knowledge.Library.{Library}
use long_running_coding_agen.Knowledge.Store.{
  append_use, use_exists, mutation_violation, KnowledgeStore, StoreError, dangerous_command, Value,
  text, texts, Event, append_event, violated, write_skill, found, find_skill, load_skill,
  find_memory, load_memory, skill_status_name,
}

pub data SkillReason : Type 0 where
  unverified has_integrity_violations has_infrastructure_error no_success stale_success :
      SkillReason
  no_preconditions no_anti_conditions low_confidence no_success_item leaking_command : SkillReason
  unknown_evidence : List String → SkillReason
  unknown_tool unknown_source inactive_source : String → SkillReason
  no_source source_specific : SkillReason

-- `if value` on an optional text
abbrev pub is_given : Option String → Bool
is_given none = false
is_given (some s) = not (str_eq s "")

abbrev pub known_tools : List String
known_tools =
    "read_file" ∷ "write_file" ∷ "bash" ∷ "report_progress" ∷ "report_blocker"
    ∷ "request_task_completion" ∷ "request_decomposition" ∷ []

abbrev pub skill_status_eq : SkillStatus → SkillStatus → Bool
skill_status_eq a b = str_eq (skill_status_name a) (skill_status_name b)

-- The items that `evidence_by_id` keeps: the last one for each identifier.
unfoldable pub evidence_values : List ExperienceEvidenceItem → List ExperienceEvidenceItem
evidence_values [] = []
evidence_values (e ∷ es) =
    let rest = evidence_values es in
    if elem e.evidence_id (map (λ (x : ExperienceEvidenceItem). x.evidence_id) es)
    then rest
    else e ∷ rest

abbrev pub is_known : List ExperienceEvidenceItem → String → Bool
is_known items i = elem i (map (λ (x : ExperienceEvidenceItem). x.evidence_id) items)

-- `item.success and item.event_type in {...}`
abbrev pub is_success_item : ExperienceEvidenceItem → Bool
is_success_item e = elim e.success [
  | some true ↦ elem e.event_type ("successful_verification" ∷ "test_command" ∷ [])
  | _ ↦ false
]

module _ (lib : Library) where
  open lib use {Float, less, lower, words, search, findall, digest_ids, digest_skill}

  unfoldable pub skill_derivation_key : List String → String
  unfolding sorted to_set
  skill_derivation_key ids =
      let source_ids = sorted (to_set ids) in
      if is_empty source_ids then "" else digest_ids source_ids

  -- `command.strip().lower()`, and the first of its words
  abbrev first_word : Option String → String
  first_word c = elim (words (lower (or_empty c))) [ [] ↦ "" | w ∷ ws ↦ w ]

  abbrev pub is_dangerous : SkillStep → Bool
  is_dangerous step =
      elem (first_word step.command) ("rm" ∷ "del" ∷ "format" ∷ "shutdown" ∷ "mkfs" ∷ [])

  -- The derived fields that the validator of a skill sets.
  abbrev pub signed : SkillRecord Float → SkillRecord Float
  signed k = record k {
    derivation_key =
        if str_eq (skill_derivation_key k.source_memory_ids) ""
        then k.derivation_key
        else skill_derivation_key k.source_memory_ids;
    semantic_signature = digest_skill k.title k.summary k.procedure k.verification;
  }

  abbrev pub unless_dangerous :
      Option SkillStep → SkillRecord Float → Result StoreError (SkillRecord Float)
  unless_dangerous none k = ok (signed k)
  unless_dangerous (some step) k = raise (dangerous_command (first_word step.command))

  -- The constructor's `validate_safe_procedure`.
  unfoldable pub validate_safe_procedure : SkillRecord Float → Result StoreError (SkillRecord Float)
  unfolding skill_derivation_key
  validate_safe_procedure k = unless_dangerous (find is_dangerous k.procedure) k

  abbrev pub written :
      Result StoreError (SkillRecord Float)
      → KnowledgeStore Float
      → Result StoreError (Unit {0}) × KnowledgeStore Float
  written (raise e) s = (raise e, s)
  written (ok k) s = (
    ok tt,
    append_event
        (if skill_status_eq k.status SkillStatus.active then "skill_promoted" else "skill_saved")
        (("skill_id", text k.skill_id) ∷ ("status_after", text (skill_status_name k.status)) ∷ [])
        (record s { skills = write_skill k s.skills }),
  )

  unfoldable pub save_skill :
      SkillRecord Float → KnowledgeStore Float → Result StoreError (Unit {0}) × KnowledgeStore Float
  save_skill k s =
      if s.frozen_records
      then violated "save_skill" k.skill_id s
      else written (validate_safe_procedure k) s

  -- `find_skill_by_derivation` with its default statuses
  unfoldable pub find_skill_by_derivation :
      List String → KnowledgeStore Float → Option (SkillRecord Float)
  unfolding skill_derivation_key
  find_skill_by_derivation ids s =
      let key = skill_derivation_key ids in
      if str_eq key ""
      then none
      else find
          (λ (k : SkillRecord Float).
            str_eq k.derivation_key key
            && elem (skill_status_name k.status) ("draft" ∷ "validated" ∷ "active" ∷ []))
          s.skills

  -- `_contains_leak`
  unfoldable pub contains_leak : String → Bool
  unfolding str_contains starts_with
  contains_leak t =
      any (λ w. str_contains w (lower t)) ("api_key" ∷ "token" ∷ "secret" ∷ "password" ∷ [])
      || (str_contains ":\\" t || starts_with "/" t)

  -- `_contains_source_specific_text`
  unfoldable pub contains_source_specific_text : String → Bool
  unfolding contains_leak
  contains_source_specific_text t =
      let generic =
        "strip" ∷ "bool" ∷ "str" ∷ "len" ∷ "lower" ∷ "upper" ∷ "isinstance" ∷ "pytest" ∷ [] in
      contains_leak t
      || (search "\\b[\\w.-]+\\.py\\b" t
          || any (λ n. not (elem n generic)) (findall "\\b([a-zA-Z_][a-zA-Z0-9_]*)\\(\\)" t))

  abbrev pub skill_text : SkillRecord Float → String
  skill_text k = join " " (
      k.title
      ∷ k.summary
      ∷ (k.preconditions
          ++ (k.anti_conditions
              ++ (k.parameters
                  ++ (map (λ (p : SkillStep). p.description) k.procedure
                      ++ (map (λ (p : SkillStep). or_empty p.command) k.procedure
                          ++ (k.verification ++ k.stop_conditions)))))))

  -- The loop over the steps of the procedure.
  unfoldable pub step_reasons : List SkillStep → List SkillReason
  unfolding contains_leak
  step_reasons [] = []
  step_reasons (p ∷ ps) =
      note (is_given p.tool_name && not (elem (or_empty p.tool_name) known_tools))
        (SkillReason.unknown_tool (or_empty p.tool_name))
        (note (contains_leak (or_empty p.command)) SkillReason.leaking_command (step_reasons ps))

  abbrev pub source_reason : String → Result StoreError (MemoryRecord Float) → List SkillReason
  source_reason i (raise e) = SkillReason.unknown_source i ∷ []
  source_reason i (ok m) = note (not (is_active m.status)) (SkillReason.inactive_source i) []

  -- The loop over the sources of a portable skill.
  unfoldable pub source_reasons : List String → KnowledgeStore Float → List SkillReason
  unfolding load_memory
  source_reasons [] s = []
  source_reasons (i ∷ is) s = source_reason i (load_memory i s) ++ source_reasons is s

  abbrev pub store_reasons : List String → Option (KnowledgeStore Float) → List SkillReason
  store_reasons is none = []
  store_reasons is (some s) = source_reasons is s

  unfoldable pub portable_reasons :
      SkillRecord Float → Option (KnowledgeStore Float) → List SkillReason
  unfolding source_reasons contains_source_specific_text join
  portable_reasons k s =
      if is_portable k.scope
      then note (is_empty k.source_memory_ids) SkillReason.no_source (
          store_reasons k.source_memory_ids s
          ++ note (contains_source_specific_text (skill_text k)) SkillReason.source_specific [])
      else []

  -- The reasons of `SkillValidator.validate`, which accepts where there is none.
  unfoldable pub validate_reasons :
      KnowledgeSkillConfig Float
      → Option (KnowledgeStore Float)
      → SkillRecord Float
      → ExperienceEvidencePack Float
      → List SkillReason
  unfolding step_reasons portable_reasons evidence_values
  validate_reasons rules s k pack =
      let missing = select (λ i. not (is_known pack.evidence_items i)) k.evidence_ids in
      note
        (is_given pack.verification_verdict
          && not (str_eq (or_empty pack.verification_verdict) "verified"))
        SkillReason.unverified
        (note (not (is_empty pack.integrity_violations)) SkillReason.has_integrity_violations (
          note (is_given pack.infrastructure_error) SkillReason.has_infrastructure_error (
            note (is_empty pack.successful_verifications) SkillReason.no_success (
              note
                (not (is_empty pack.failed_verifications) && is_empty pack.successful_verifications)
                SkillReason.stale_success
                (note (is_empty k.preconditions) SkillReason.no_preconditions (
                  note (is_empty k.anti_conditions) SkillReason.no_anti_conditions (
                    note (less k.confidence rules.minimum_candidate_confidence)
                      SkillReason.low_confidence
                      (note (not (is_empty missing)) (SkillReason.unknown_evidence missing) (
                        note (not (any is_success_item (evidence_values pack.evidence_items)))
                          SkillReason.no_success_item
                          (step_reasons k.procedure ++ portable_reasons k s))))))))))

  unfoldable pub validate :
      KnowledgeSkillConfig Float
      → Option (KnowledgeStore Float)
      → SkillRecord Float
      → ExperienceEvidencePack Float
      → Bool × List SkillReason
  unfolding validate_reasons
  validate rules s k pack =
      let reasons = validate_reasons rules s k pack in (is_empty reasons, reasons)
