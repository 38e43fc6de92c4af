-- ===== src/Knowledge/SkillLifecycle/Candidate.antt =====
-- A new skill from a success, which keeps the skills of a store earned.
use long_running_coding_agen.Prelude.{
  String, ◌≡◌, refl, inl, inr, Bool, true, false, not, ◌&&◌, Option, none, some, List, [], ◌∷◌,
  if◌then◌else◌, elem, nodup, find, find-All, is_empty, Bool-cases, Result, ok, raise, str_eq,
}
use long_running_coding_agen.Knowledge.Schema.{
  SkillStatus, SkillRecord, SkillCandidateDraft, ExperienceEvidencePack, is_portable,
}
use long_running_coding_agen.Knowledge.Config.{
  is_memory_skill, KnowledgeConfig, KnowledgeSkillConfig,
}
use long_running_coding_agen.Knowledge.Library.{Library}
use long_running_coding_agen.Knowledge.Store.{
  skill_status_name, KnowledgeStore, StoreError, append_event,
}
use long_running_coding_agen.Knowledge.Skills.{
  SkillReason, save_skill, validate, validate_safe_procedure, find_skill_by_derivation,
  is_dangerous, contains_source_specific_text, skill_derivation_key,
}
use long_running_coding_agen.Knowledge.SkillLifecycle.{
  candidate_events, upsert_events, Outcome, skill_of, sourced, merge, store_candidate,
  validated_candidate, draft_candidate, draft_text, candidate_from_success, has_verified_success,
  active_sources, skipped,
}
use long_running_coding_agen.Knowledge.SkillLifecycle.Earned.{
  IsEarned, AreEarned, Skill, save_skill-AreEarned, unless_dangerous-IsEarned,
}
use long_running_coding_agen.Knowledge.SkillLifecycle.Operations.{
  append_event-AreEarned, saved-AreEarned,
}

module _ (lib : Library) (rules : KnowledgeSkillConfig lib.Float) where
  store_candidate-AreEarned :
      (now i : String) (k : Skill lib rules) (o : Option (Skill lib rules))
      (s : KnowledgeStore lib.Float)
      → IsEarned rules k
      → ((old : Skill lib rules) → o ≡ some old → IsEarned rules old)
      → AreEarned lib rules s
      → AreEarned lib rules (store_candidate lib now i k o s).1
  unfolding append_event
  store_candidate-AreEarned now i k (some old) s h g a =
      let q = g old refl in
      let k' = merge lib now k old in
      saved-AreEarned lib rules (some k') (upsert_events lib k' k) (save_skill lib k' s) (λ x b. b)
        (save_skill-AreEarned lib rules k' s
          (record { counted = q.counted; once = q.once; earned = q.earned }) a)
  store_candidate-AreEarned now i k none s h g a =
      let k' = record k { status = SkillStatus.validated } in
      saved-AreEarned lib rules (some k') (candidate_events lib i k.skill_id) (save_skill lib k' s)
        (λ x b. b)
        (save_skill-AreEarned lib rules k' s
          (record { counted = h.counted; once = h.once; earned = refl }) a)

  unless_none :
      {A : Type 0} (b : Bool) (o : Option A) (x : A) → (if b then none else o) ≡ some x → o ≡ some x
  unless_none true o x e = cc
  unless_none false o x e = e

  find_skill_by_derivation-IsEarned :
      (is : List String) (s : KnowledgeStore lib.Float) (k : Skill lib rules)
      → find_skill_by_derivation lib is s ≡ some k
      → AreEarned lib rules s
      → IsEarned rules k
  unfolding find_skill_by_derivation
  find_skill_by_derivation-IsEarned is s k e a =
      let key = skill_derivation_key lib is in
      (find-All (IsEarned rules)
        (λ (n : Skill lib rules).
          str_eq n.derivation_key key
          && elem (skill_status_name n.status) ("draft" ∷ "validated" ∷ "active" ∷ []))
        s.skills k (unless_none (str_eq key "") _ k e) a).0

  validated_candidate-AreEarned :
      (config : KnowledgeConfig lib.Float) (now : String) (reasons_text : List SkillReason → String)
      (pack : ExperienceEvidencePack lib.Float) (r : Result StoreError (Skill lib rules))
      (s : KnowledgeStore lib.Float)
      → ((k : Skill lib rules) → r ≡ ok k → IsEarned rules k)
      → AreEarned lib rules s
      → AreEarned lib rules (validated_candidate lib config now reasons_text pack r s).1
  validated_candidate-AreEarned config now rt pack (raise e) s h a = a
  validated_candidate-AreEarned config now rt pack (ok k) s h a =
      elim (Bool-cases (validate lib config.skill (some s) k pack).0) [
        | inl e ↦ rw e (
            store_candidate-AreEarned now pack.episode_id k _ s (h k refl)
              (λ old q. find_skill_by_derivation-IsEarned k.source_memory_ids s old q a) a)
        | inr e ↦ rw e (append_event-AreEarned lib rules _ _ s a)
      ]

  skill_of-IsEarned :
      (i now : String) (d : SkillCandidateDraft lib.Float) (pack : ExperienceEvidencePack lib.Float)
      → IsEarned rules (skill_of lib i now d pack)
  unfolding nodup elem
  skill_of-IsEarned i now d pack = record { counted = refl; once = refl; earned = refl }

  safe-IsEarned :
      (k k' : Skill lib rules)
      → validate_safe_procedure lib k ≡ ok k'
      → IsEarned rules k
      → IsEarned rules k'
  unfolding validate_safe_procedure
  safe-IsEarned k k' e h =
      unless_dangerous-IsEarned lib rules (find (is_dangerous lib) k.procedure) k k' e h

  draft_candidate-AreEarned :
      (config : KnowledgeConfig lib.Float) (i now : String)
      (reasons_text : List SkillReason → String) (pack : ExperienceEvidencePack lib.Float)
      (is : List String) (o : Option (SkillCandidateDraft lib.Float)) (s : KnowledgeStore lib.Float)
      → AreEarned lib rules s
      → AreEarned lib rules (draft_candidate lib config i now reasons_text pack is o s).1
  draft_candidate-AreEarned config i now rt pack is none s a = a
  draft_candidate-AreEarned config i now rt pack is (some d) s a =
      let d' = sourced lib d is s in
      elim (Bool-cases
        (is_portable d.scope && contains_source_specific_text lib (draft_text lib d'))) [
          | inl e ↦ rw e (append_event-AreEarned lib rules _ _ s a)
          | inr e ↦ rw e (
              validated_candidate-AreEarned config now rt pack
                (validate_safe_procedure lib (skill_of lib i now d' pack)) s
                (λ k q. safe-IsEarned _ k q (skill_of-IsEarned i now d' pack)) a)
        ]

  chosen :
      (b : Bool) (o p : Outcome lib (Option (SkillRecord lib.Float)))
      → AreEarned lib rules o.1
      → AreEarned lib rules p.1
      → AreEarned lib rules (if b then o else p).1
  chosen true o p h k = h
  chosen false o p h k = k

  pub candidate_from_success-AreEarned :
      (config : KnowledgeConfig lib.Float) (i now : String)
      (reasons_text : List SkillReason → String) (pack : ExperienceEvidencePack lib.Float)
      (draft : Option (SkillCandidateDraft lib.Float)) (is : List String)
      (s : KnowledgeStore lib.Float)
      → AreEarned lib rules s
      → AreEarned lib rules (candidate_from_success lib config i now reasons_text pack draft is s).1
  unfolding candidate_from_success append_event
  candidate_from_success-AreEarned config i now rt pack draft is s a =
      let o = draft_candidate lib config i now rt pack is draft s in
      let d = draft_candidate-AreEarned config i now rt pack is draft s a in
      let inactive = not (active_sources lib is s) in
      let unchanged = is_empty pack.files_changed in
      let p = skipped lib pack.episode_id "source_memory_not_active" s in
      let q = skipped lib pack.episode_id "no_changed_files" s in
      elim (Bool-cases (is_memory_skill config.mode && config.skill.enabled)) [
        | inr e ↦ rw e a
        | inl e ↦ elim (Bool-cases (has_verified_success lib pack)) [
          | inr f ↦ rw (e, f) a
          | inl f ↦
              rw (e, f)
                (chosen config.skill.require_active_helpful_source_for_candidate
                  (if inactive then p else o) (if unchanged then q else o) (chosen inactive p o a d)
                  (chosen unchanged q o a d))
        ]
      ]
