-- ===== src/Knowledge/Gate/Accepts.antt =====
-- What it means that the gate accepts a reflection.
use long_running_coding_agen.Prelude.{
  note-quiet, append-quiet, is_empty-nil, ℕ, suc, ◌≤◌, String, ◌≡◌, ◌⊎◌, inl, inr, true, false,
  ◌&&◌, List, [], ◌∷◌, arith, length, All, any, is_empty, Bool-cases,
}
use long_running_coding_agen.Knowledge.Schema.{
  ExperienceEvidencePack, ReflectionCandidate, MemoryRecord, KnowledgeConflictRecord, is_portable,
}
use long_running_coding_agen.Knowledge.Config.{KnowledgeReflectionConfig}
use long_running_coding_agen.Knowledge.Library.{Library}
use long_running_coding_agen.Knowledge.Store.{KnowledgeStore, active_memories}
use long_running_coding_agen.Knowledge.Skills.{is_known}
use long_running_coding_agen.Knowledge.Skills.Sound.{select-none}
use long_running_coding_agen.Knowledge.Gate.{
  GateReason, contradicts, conflicts_with, find_conflicts_for_candidate, contains_leak,
  contains_source_specific_text, successful_verification_as_failure, failures, gate_reasons,
  gate_scope, conclude, evaluate, is_high,
}

module _ (lib : Library) where
  open lib use {Float, less}

  conflicts_with-none :
      (ids : ℕ → String) (now : String) (c : ReflectionCandidate Float)
      (ms : List (MemoryRecord Float))
      → any is_high (conflicts_with lib ids now c ms) ≡ false
      → All (λ m. contradicts lib c m ≡ false) ms
  unfolding conflicts_with any
  conflicts_with-none ids now c [] h = tt
  conflicts_with-none ids now c (m ∷ ms) h = elim (Bool-cases (contradicts lib c m)) [
    | inl e ↦ absurd (cc (rw e at h))
    | inr e ↦ (e, conflicts_with-none (λ i. ids (suc i)) now c ms (rw e at h))
  ]

  -- A reflection that may become an active memory.
  pub record IsGrounded (rules : KnowledgeReflectionConfig Float) (s : KnowledgeStore Float)
      (c : ReflectionCandidate Float) (pack : ExperienceEvidencePack Float) : Type 0 where
    pub known : All (λ i. is_known pack.evidence_items i ≡ true) c.evidence_ids
    pub enough : rules.minimum_evidence_items ≤ length c.evidence_ids
    pub confident : less c.confidence rules.minimum_confidence ≡ false
    pub actions : is_empty c.recommended_actions ≡ false
    pub conditions : is_empty c.applicability_conditions ≡ false
    pub failure : is_empty (failures lib c pack) ≡ false
    pub honest : successful_verification_as_failure lib c pack ≡ false
    pub consistent : All (λ m. contradicts lib c m ≡ false) (active_memories s)
    pub scope :
        (is_portable (gate_scope lib c) ≡ false)
        ⊎ ((is_empty c.anti_conditions ≡ false)
            × (contains_leak lib c ≡ false)
            × (contains_source_specific_text lib c ≡ false))

  gate_scope-portable :
      (c : ReflectionCandidate Float)
      → (is_portable c.proposed_scope && is_empty c.anti_conditions) ≡ false
      → (is_portable c.proposed_scope && contains_leak lib c) ≡ false
      → (is_portable (gate_scope lib c) ≡ false)
        ⊎ ((is_empty c.anti_conditions ≡ false)
            × (contains_leak lib c ≡ false)
            × (contains_source_specific_text lib c ≡ false))
  unfolding gate_scope is_portable
  gate_scope-portable c h k = elim (Bool-cases (is_portable c.proposed_scope)) [
    | inr e ↦ inl (ground arith)
    | inl e ↦ elim (Bool-cases (contains_source_specific_text lib c)) [
      | inl f ↦ inl (ground arith)
      | inr f ↦ inr (ground arith, ground arith, f)
    ]
  ]

  conclude-accepted :
      (reasons : List GateReason) (conflicts : List KnowledgeConflictRecord)
      (c : ReflectionCandidate Float) (pack : ExperienceEvidencePack Float)
      → (conclude lib reasons conflicts c pack).accepted ≡ true
      → reasons ≡ []
  unfolding conclude
  conclude-accepted reasons conflicts c pack h = is_empty-nil reasons (ground arith)

  gate_reasons-IsGrounded :
      (rules : KnowledgeReflectionConfig Float) (ids : ℕ → String) (now : String)
      (c : ReflectionCandidate Float) (pack : ExperienceEvidencePack Float)
      (s : KnowledgeStore Float)
      → gate_reasons lib rules (conflicts_with lib ids now c (active_memories s)) c pack ≡ []
      → IsGrounded rules s c pack
  unfolding gate_reasons
  gate_reasons-IsGrounded rules ids now c pack s h =
      let (known, h2) = note-quiet _ _ _ h in
      let (enough, h3) = note-quiet _ _ _ h2 in
      let (confident, h4) = note-quiet _ _ _ h3 in
      let (actions, h5) = note-quiet _ _ _ h4 in
      let (conditions, h6) = note-quiet _ _ _ h5 in
      let (failure, h7) = note-quiet _ _ _ h6 in
      let (_, h8) = append-quiet _ _ h7 in
      let (anti, h9) = note-quiet _ _ _ h8 in
      let (leaks, h10) = note-quiet _ _ _ h9 in
      let (honest, h11) = note-quiet _ _ _ h10 in
      record {
        known = select-none (is_known pack.evidence_items) c.evidence_ids (ground arith);
        enough = ground arith;
        confident = confident;
        actions = actions;
        conditions = conditions;
        failure = failure;
        honest = honest;
        consistent = conflicts_with-none ids now c (active_memories s) ((note-quiet _ _ _ h11).0);
        scope = gate_scope-portable c anti leaks;
      }

  -- A reflection that the gate accepts cites known evidence, enough of it and a failure among it, has
  -- actions, conditions and an admissible confidence, takes no success for a failure, contradicts no
  -- active memory, and where its final scope is portable it has anti-conditions and names neither a
  -- path or secret nor a file or function of a project.
  pub evaluate-IsGrounded :
      (rules : KnowledgeReflectionConfig Float) (ids : ℕ → String) (now : String)
      (c : ReflectionCandidate Float) (pack : ExperienceEvidencePack Float)
      (s : KnowledgeStore Float)
      → (evaluate lib rules ids now c pack s).0.accepted ≡ true
      → IsGrounded rules s c pack
  unfolding evaluate find_conflicts_for_candidate
  evaluate-IsGrounded rules ids now c pack s h =
      gate_reasons-IsGrounded rules ids now c pack s (conclude-accepted _ _ c pack h)
