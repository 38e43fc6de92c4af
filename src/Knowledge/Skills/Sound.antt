-- ===== src/Knowledge/Skills/Sound.antt =====
-- What it means that `SkillValidator.validate` accepts a skill.
use long_running_coding_agen.Prelude.{
  note-quiet, append-quiet, is_empty-nil, String, ◌≡◌, refl, ◌⊎◌, inl, inr, Bool, true, false, not,
  ◌&&◌, some, List, [], ◌∷◌, arith, All, any, select, elem, is_empty, or_empty, Bool-cases, Result,
  ok, raise,
}
use long_running_coding_agen.Knowledge.Schema.{
  ExperienceEvidencePack, MemoryRecord, SkillRecord, SkillStep, is_active, is_portable,
}
use long_running_coding_agen.Knowledge.Config.{KnowledgeSkillConfig}
use long_running_coding_agen.Knowledge.Library.{Library}
use long_running_coding_agen.Knowledge.Store.{KnowledgeStore, StoreError, load_memory}
use long_running_coding_agen.Knowledge.Skills.{
  is_given, is_known, is_success_item, known_tools, evidence_values, contains_leak,
  contains_source_specific_text, skill_text, step_reasons, source_reason, source_reasons,
  portable_reasons, validate_reasons, validate,
}

-- What is not selected by the negation passes the test.
pub select-none :
    (p : String → Bool) (xs : List String)
    → is_empty (select (λ x. not (p x)) xs) ≡ true
    → All (λ x. p x ≡ true) xs
unfolding select
select-none p [] h = tt
select-none p (x ∷ xs) h = elim (Bool-cases (p x)) [
  | inl e ↦ (e, select-none p xs (rw e at h))
  | inr e ↦ absurd (cc (rw e at h))
]

module _ (lib : Library) where
  open lib use {Float, less}

  -- A step of a procedure that is safe to keep.
  abbrev pub IsSafeStep : SkillStep → Type 0
  IsSafeStep p =
      ((is_given p.tool_name && not (elem (or_empty p.tool_name) known_tools)) ≡ false)
      × (contains_leak lib (or_empty p.command) ≡ false)

  -- A source is in the store and is active.
  abbrev pub IsActiveSource : KnowledgeStore Float → String → Type 0
  IsActiveSource s i =
      (m : MemoryRecord Float) × (load_memory i s ≡ ok m) × (is_active m.status ≡ true)

  step_reasons_sound : (ps : List SkillStep) → step_reasons lib ps ≡ [] → All IsSafeStep ps
  unfolding step_reasons
  step_reasons_sound [] h = tt
  step_reasons_sound (p ∷ ps) h =
      let (a, r) = note-quiet _ _ _ h in
      let (b, q) = note-quiet _ _ _ r in ((a, b), step_reasons_sound ps q)

  source_reason_sound :
      (i : String) (s : KnowledgeStore Float) (r : Result StoreError (MemoryRecord Float))
      → load_memory i s ≡ r
      → source_reason lib i r ≡ []
      → IsActiveSource s i
  source_reason_sound i s (raise e) l h = cc
  source_reason_sound i s (ok m) l h = let (b, _) = note-quiet _ _ _ h in (m, l, ground arith)

  source_reasons_sound :
      (is : List String) (s : KnowledgeStore Float)
      → source_reasons lib is s ≡ []
      → All (IsActiveSource s) is
  unfolding source_reasons
  source_reasons_sound [] s h = tt
  source_reasons_sound (i ∷ is) s h =
      let (a, r) =
        append-quiet (source_reason lib i (load_memory i s)) (source_reasons lib is s) h in
      (source_reason_sound i s (load_memory i s) refl a, source_reasons_sound is s r)

  -- What a portable skill has.
  pub record IsPortable (s : KnowledgeStore Float) (k : SkillRecord Float) : Type 0 where
    pub has_source : is_empty k.source_memory_ids ≡ false
    pub sources : All (IsActiveSource s) k.source_memory_ids
    pub general : contains_source_specific_text lib (skill_text lib k) ≡ false

  portable_reasons_sound :
      (s : KnowledgeStore Float) (k : SkillRecord Float)
      → is_portable k.scope ≡ true
      → portable_reasons lib k (some s) ≡ []
      → IsPortable s k
  unfolding portable_reasons
  portable_reasons_sound s k p h =
      let (a, r) = note-quiet _ _ _ (rw p at h) in
      let (b, q) = append-quiet _ _ r in
      record {
        has_source = a;
        sources = source_reasons_sound k.source_memory_ids s b;
        general = (note-quiet _ _ _ q).0;
      }

  -- A skill that may be kept on the evidence of a pack.
  pub record IsSound (rules : KnowledgeSkillConfig Float) (s : KnowledgeStore Float)
      (k : SkillRecord Float) (pack : ExperienceEvidencePack Float) : Type 0 where
    pub clean : is_empty pack.integrity_violations ≡ true
    pub success : is_empty pack.successful_verifications ≡ false
    pub confident : less k.confidence rules.minimum_candidate_confidence ≡ false
    pub evidence : All (λ i. is_known pack.evidence_items i ≡ true) k.evidence_ids
    pub success_item : any is_success_item (evidence_values pack.evidence_items) ≡ true
    pub steps : All IsSafeStep k.procedure
    pub scope : (is_portable k.scope ≡ false) ⊎ IsPortable s k

  IsPortable-or :
      (s : KnowledgeStore Float) (k : SkillRecord Float)
      → portable_reasons lib k (some s) ≡ []
      → (is_portable k.scope ≡ false) ⊎ IsPortable s k
  IsPortable-or s k h = elim (Bool-cases (is_portable k.scope)) [
    | inl e ↦ inr (portable_reasons_sound s k e h)
    | inr e ↦ inl e
  ]

  validate_reasons-IsSound :
      (rules : KnowledgeSkillConfig Float) (s : KnowledgeStore Float) (k : SkillRecord Float)
      (pack : ExperienceEvidencePack Float)
      → validate_reasons lib rules (some s) k pack ≡ []
      → IsSound rules s k pack
  unfolding validate_reasons
  validate_reasons-IsSound rules s k pack h =
      let (_, h2) = note-quiet _ _ _ h in
      let (clean, h3) = note-quiet _ _ _ h2 in
      let (_, h4) = note-quiet _ _ _ h3 in
      let (success, h5) = note-quiet _ _ _ h4 in
      let (_, h6) = note-quiet _ _ _ h5 in
      let (_, h7) = note-quiet _ _ _ h6 in
      let (_, h8) = note-quiet _ _ _ h7 in
      let (confident, h9) = note-quiet _ _ _ h8 in
      let (known, h10) = note-quiet _ _ _ h9 in
      let (item, h11) = note-quiet _ _ _ h10 in
      let (steps, scope) = append-quiet _ _ h11 in
      record {
        clean = ground arith;
        success = success;
        confident = confident;
        evidence = select-none (is_known pack.evidence_items) k.evidence_ids (ground arith);
        success_item = ground arith;
        steps = step_reasons_sound k.procedure steps;
        scope = IsPortable-or s k scope;
      }

  -- A skill that the validator of a store accepts has an admissible confidence, all its evidence is in
  -- the pack, with an item that shows a success, the pack has a successful verification and no
  -- integrity violation, each step uses a known tool and leaks nothing, and where the skill is
  -- portable it has a source, all its sources are active in the store, and its text is general.
  pub validate-IsSound :
      (rules : KnowledgeSkillConfig Float) (s : KnowledgeStore Float) (k : SkillRecord Float)
      (pack : ExperienceEvidencePack Float)
      → (validate lib rules (some s) k pack).0 ≡ true
      → IsSound rules s k pack
  unfolding validate
  validate-IsSound rules s k pack h =
      validate_reasons-IsSound rules s k pack
        (is_empty-nil (validate_reasons lib rules (some s) k pack) h)
