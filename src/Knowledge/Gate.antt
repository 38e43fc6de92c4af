-- ===== src/Knowledge/Gate.antt =====
-- src/longrun_agent/knowledge/conflict.py and, of memory_lifecycle.py, `ReflectionEvidenceGate`.
pub mod Accepts
use long_running_coding_agen.Prelude.{
  note, ℕ, zero, suc, ◌+◌, String, Bool, true, false, not, ◌&&◌, ◌||◌, Option, none, some, List, [],
  ◌∷◌, ◌++◌, map, str_eq, if◌then◌else◌, ltb, ◌==◌, length, any, select, elem, is_empty, join,
  str_contains, or_empty,
}
use long_running_coding_agen.Verification.Schema.{ℤ, pos, negsuc}
use long_running_coding_agen.Knowledge.Schema.{
  MemoryScope, repository, ExperienceEvidenceItem, ExperienceEvidencePack, ReflectionCandidate,
  MemoryRecord, KnowledgeConflictRecord, ConflictSeverity, high, is_portable, evidence_by_id,
}
use long_running_coding_agen.Knowledge.Config.{KnowledgeReflectionConfig}
use long_running_coding_agen.Knowledge.Library.{Library}
use long_running_coding_agen.Knowledge.Store.{KnowledgeStore, append_conflict, active_memories}
use long_running_coding_agen.Knowledge.Skills.{is_given, is_known}

pub data GateReason : Type 0 where
  unknown_evidence : List String → GateReason
  insufficient_evidence low_confidence no_actions no_applicability no_failure_evidence : GateReason
  bare_failed_test : String → GateReason
  no_anti_conditions leak success_as_failure high_conflict : GateReason

pub data GateDecision : Type 0 where
  accepted quarantined rejected : GateDecision

pub record EvidenceGateResult (F : Type 0) : Type 0 where
  pub accepted : Bool
  pub decision : GateDecision
  pub rejection_reasons : List GateReason
  pub conflict_ids : List String
  pub validated_evidence_ids : List String
  pub final_scope : Option MemoryScope
  pub final_confidence : F

abbrev is_nonzero : Option ℤ → Bool
is_nonzero none = false
is_nonzero (some (pos n)) = not (n == 0)
is_nonzero (some (negsuc n)) = true

abbrev is_false : Option Bool → Bool
is_false (some false) = true
is_false _ = false

-- `_is_failure_evidence`
unfoldable pub is_failure_evidence : ExperienceEvidenceItem → Bool
is_failure_evidence e =
    (str_eq e.event_type "test_command" && is_false e.success)
    || (is_nonzero e.exit_code
        || elem e.event_type ("blocker" ∷ "no_progress" ∷ "repeated_tool_call" ∷ []))

abbrev listed : Option ExperienceEvidenceItem → List ExperienceEvidenceItem
listed none = []
listed (some e) = e ∷ []

-- `[evidence[item] for item in candidate.evidence_ids if item in evidence]`
unfoldable pub cited : List ExperienceEvidenceItem → List String → List ExperienceEvidenceItem
unfolding evidence_by_id
cited items [] = []
cited items (i ∷ is) = listed (evidence_by_id items i) ++ cited items is

-- The loop over the failures that are cited.
unfoldable pub bare_failures : List ExperienceEvidenceItem → List GateReason
bare_failures [] = []
bare_failures (e ∷ es) =
    note
      (str_eq e.event_type "test_command"
        && not (is_given e.output_excerpt || is_given e.artifact_path))
      (bare_failed_test e.evidence_id) (bare_failures es)

abbrev is_low_confidence : GateReason → Bool
is_low_confidence low_confidence = true
is_low_confidence _ = false

abbrev pub is_high : KnowledgeConflictRecord → Bool
is_high c = elim c.severity [ high ↦ true | _ ↦ false ]

abbrev intersects : List String → List String → Bool
intersects xs ys = any (λ x. elem x ys) xs

module _ (lib : Library) where
  open lib use {Float, less, lower, search, findall}

  -- The test of `find_conflicts_for_candidate` on an active memory.
  unfoldable pub contradicts : ReflectionCandidate Float → MemoryRecord Float → Bool
  contradicts c m =
      intersects (map lower c.recommended_actions) (map lower m.avoid_actions)
      || intersects (map lower c.avoid_actions) (map lower m.recommended_actions)

  abbrev pub conflict_with :
      (conflict_id now : String)
      → ReflectionCandidate Float
      → MemoryRecord Float
      → KnowledgeConflictRecord
  conflict_with conflict_id now c m = record {
    conflict_id = conflict_id;
    left_id = c.candidate_id;
    right_id = m.memory_id;
    conflict_type = "contradictory_recommendation";
    severity = high;
    reason = "recommended action conflicts with existing avoid action";
    timestamp = now;
  }

  -- `ids i` and `now` are what the constructor of the conflict with the memory at `i` makes.
  unfoldable pub conflicts_with :
      (ids : ℕ → String)
      → (now : String) → ReflectionCandidate Float
      → List (MemoryRecord Float)
      → List KnowledgeConflictRecord
  unfolding contradicts
  conflicts_with ids now c [] = []
  conflicts_with ids now c (m ∷ ms) =
      let rest = conflicts_with (λ i. ids (suc i)) now c ms in
      if contradicts c m then conflict_with (ids 0) now c m ∷ rest else rest

  unfoldable pub append_conflicts :
      List KnowledgeConflictRecord → KnowledgeStore Float → KnowledgeStore Float
  unfolding append_conflict
  append_conflicts [] s = s
  append_conflicts (c ∷ cs) s = append_conflicts cs (append_conflict c s)

  -- `find_conflicts_for_candidate`: the conflicts, and the store with them.
  unfoldable pub find_conflicts_for_candidate :
      (ids : ℕ → String)
      → (now : String) → ReflectionCandidate Float
      → KnowledgeStore Float
      → List KnowledgeConflictRecord × KnowledgeStore Float
  unfolding conflicts_with append_conflicts active_memories
  find_conflicts_for_candidate ids now c s =
      let cs = conflicts_with ids now c (active_memories s) in (cs, append_conflicts cs s)

  abbrev pub candidate_text : ReflectionCandidate Float → String
  candidate_text c = join " " (
      c.root_cause
      ∷ (c.recommended_actions
          ++ (c.avoid_actions ++ (c.applicability_conditions ++ c.anti_conditions))))

  -- `_contains_leak`
  unfoldable pub contains_leak : ReflectionCandidate Float → Bool
  unfolding join
  contains_leak c =
      any (λ p. search p (candidate_text c))
        ("[A-Za-z]:\\\\" ∷ "/(?:Users|home|tmp|var)/" ∷ "\\b[A-Fa-f0-9]{40}\\b"
          ∷ "\\$\\{?[A-Z_][A-Z0-9_]{3,}\\}?" ∷ [])

  -- `_contains_source_specific_text`
  unfoldable pub contains_source_specific_text : ReflectionCandidate Float → Bool
  unfolding join
  contains_source_specific_text c =
      let generic =
        "strip" ∷ "bool" ∷ "str" ∷ "len" ∷ "lower" ∷ "upper" ∷ "isinstance" ∷ "pytest" ∷ [] in
      search "\\b[\\w.-]+\\.py\\b" (candidate_text c)
      || any (λ n. not (elem n generic))
          (findall "\\b([a-zA-Z_][a-zA-Z0-9_]*)\\(\\)" (candidate_text c))

  -- `_successful_verification_as_failure`
  unfoldable pub successful_verification_as_failure :
      ReflectionCandidate Float → ExperienceEvidencePack Float → Bool
  unfolding join str_contains
  successful_verification_as_failure c pack =
      let t = lower (join " " (c.root_cause ∷ c.recommended_actions)) in
      not (is_empty pack.successful_verifications)
      && (str_contains "pytest failed" t || str_contains "verification failed" t)

  abbrev pub missing_ids : ReflectionCandidate Float → ExperienceEvidencePack Float → List String
  missing_ids c pack = select (λ i. not (is_known pack.evidence_items i)) c.evidence_ids

  abbrev pub known_ids : ReflectionCandidate Float → ExperienceEvidencePack Float → List String
  known_ids c pack = select (is_known pack.evidence_items) c.evidence_ids

  abbrev pub failures :
      ReflectionCandidate Float → ExperienceEvidencePack Float → List ExperienceEvidenceItem
  failures c pack = select is_failure_evidence (cited pack.evidence_items c.evidence_ids)

  -- The reasons that `evaluate` collects; `conflicts` are those of the detector.
  unfoldable pub gate_reasons :
      KnowledgeReflectionConfig Float
      → List KnowledgeConflictRecord
      → ReflectionCandidate Float
      → ExperienceEvidencePack Float
      → List GateReason
  unfolding is_failure_evidence cited bare_failures contains_leak successful_verification_as_failure
  gate_reasons rules conflicts c pack =
      note (not (is_empty (missing_ids c pack))) (unknown_evidence (missing_ids c pack)) (
        note (ltb (length c.evidence_ids) rules.minimum_evidence_items) insufficient_evidence (
          note (less c.confidence rules.minimum_confidence) low_confidence (
            note (is_empty c.recommended_actions) no_actions (
              note (is_empty c.applicability_conditions) no_applicability (
                note (is_empty (failures c pack)) no_failure_evidence (
                  bare_failures (failures c pack)
                  ++ note (is_portable c.proposed_scope && is_empty c.anti_conditions)
                      no_anti_conditions
                      (note (is_portable c.proposed_scope && contains_leak c) leak (
                        note (successful_verification_as_failure c pack) success_as_failure
                          (note (any is_high conflicts) high_conflict [])))))))))

  unfoldable pub gate_scope : ReflectionCandidate Float → MemoryScope
  gate_scope c =
      if is_portable c.proposed_scope && contains_source_specific_text c
      then repository
      else c.proposed_scope

  abbrev pub refused :
      GateDecision
      → List GateReason
      → List KnowledgeConflictRecord
      → ReflectionCandidate Float
      → ExperienceEvidencePack Float
      → EvidenceGateResult Float
  refused decision reasons conflicts c pack = record {
    accepted = false;
    decision = decision;
    rejection_reasons = reasons;
    conflict_ids = map (λ (r : KnowledgeConflictRecord). r.conflict_id) conflicts;
    validated_evidence_ids = known_ids c pack;
    final_scope = some (gate_scope c);
    final_confidence = c.confidence;
  }

  -- The end of `evaluate`, which chooses between the three results.
  unfoldable pub conclude :
      List GateReason
      → List KnowledgeConflictRecord
      → ReflectionCandidate Float
      → ExperienceEvidencePack Float
      → EvidenceGateResult Float
  unfolding gate_scope
  conclude reasons conflicts c pack =
      if any is_low_confidence reasons && is_empty (missing_ids c pack)
      then refused GateDecision.quarantined reasons conflicts c pack
      else if not (is_empty reasons)
      then refused GateDecision.rejected reasons conflicts c pack
      else record {
        accepted = true;
        decision = GateDecision.accepted;
        rejection_reasons = [];
        conflict_ids = map (λ (r : KnowledgeConflictRecord). r.conflict_id) conflicts;
        validated_evidence_ids = c.evidence_ids;
        final_scope = some (gate_scope c);
        final_confidence = c.confidence;
      }

  -- `evaluate` of a gate with a store.
  unfoldable pub evaluate :
      KnowledgeReflectionConfig Float
      → (ids : ℕ → String) → (now : String) → ReflectionCandidate Float
      → ExperienceEvidencePack Float
      → KnowledgeStore Float
      → EvidenceGateResult Float × KnowledgeStore Float
  unfolding find_conflicts_for_candidate gate_reasons conclude
  evaluate rules ids now c pack s =
      let (conflicts, s') = find_conflicts_for_candidate ids now c s in
      (conclude (gate_reasons rules conflicts c pack) conflicts c pack, s')
