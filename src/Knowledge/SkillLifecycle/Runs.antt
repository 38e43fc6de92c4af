-- ===== src/Knowledge/SkillLifecycle/Runs.antt =====
-- The calls of `SkillLifecycleManager` on a store, one after the other.
use long_running_coding_agen.Knowledge.SkillUses.{add_skill_usage}
use long_running_coding_agen.Knowledge.SkillLifecycle.Usage.{add_skill_usage-AreEarned}
use long_running_coding_agen.Prelude.{ℕ, String, Option, List}
use long_running_coding_agen.Knowledge.Schema.{
  KnowledgeUseType, SkillCandidateDraft, ExperienceEvidencePack,
}
use long_running_coding_agen.Knowledge.Config.{KnowledgeConfig, KnowledgeSkillConfig}
use long_running_coding_agen.Knowledge.Library.{Library}
use long_running_coding_agen.Knowledge.Store.{KnowledgeStore}
use long_running_coding_agen.Knowledge.Skills.{SkillReason}
use long_running_coding_agen.Knowledge.SkillLifecycle.{
  record_success, record_harmful_use, candidate_from_success,
}
use long_running_coding_agen.Knowledge.SkillLifecycle.Earned.{AreEarned}
use long_running_coding_agen.Knowledge.SkillLifecycle.Operations.{
  record_success-AreEarned, record_harmful_use-AreEarned,
}
use long_running_coding_agen.Knowledge.SkillLifecycle.Candidate.{candidate_from_success-AreEarned}

module _ (lib : Library) (rules : KnowledgeSkillConfig lib.Float) where
  -- A call of the manager on a store, or the report of a use, with the times, the names and the
  -- texts that it is given.
  pub data Step : KnowledgeStore lib.Float → KnowledgeStore lib.Float → Type 0 where
    success :
        (now skill_id task_id repository_fingerprint : String) (s : KnowledgeStore lib.Float)
        → Step s (record_success lib rules now skill_id task_id repository_fingerprint s).1
    harm :
        (now skill_id reason : String) (s : KnowledgeStore lib.Float)
        → Step s (record_harmful_use lib now skill_id reason s).1
    candidate :
        (config : KnowledgeConfig lib.Float) (skill_id now : String)
        (reasons_text : List SkillReason → String) (pack : ExperienceEvidencePack lib.Float)
        (draft : Option (SkillCandidateDraft lib.Float)) (source_memory_ids : List String)
        (s : KnowledgeStore lib.Float)
        → Step s
            (candidate_from_success lib config skill_id now reasons_text pack draft
              source_memory_ids s).1
    use_of :
        (use_id : String) (clock : ℕ → String) (skill_id : String) (use_type : KnowledgeUseType)
        (project_id task_id session_id : String) (retrieval_id : Option String) (reason : String)
        (s : KnowledgeStore lib.Float)
        → Step s
            (add_skill_usage lib use_id clock skill_id use_type project_id task_id session_id
              retrieval_id reason s).1

  pub data Run : KnowledgeStore lib.Float → KnowledgeStore lib.Float → Type 0 where
    done : (s : KnowledgeStore lib.Float) → Run s s
    next : {s t u : KnowledgeStore lib.Float} → Step s t → Run t u → Run s u

  Step-AreEarned :
      {s t : KnowledgeStore lib.Float} → Step s t → AreEarned lib rules s → AreEarned lib rules t
  Step-AreEarned (success now i t r s) a = record_success-AreEarned lib rules now i t r s a
  Step-AreEarned (harm now i reason s) a = record_harmful_use-AreEarned lib rules now i reason s a
  Step-AreEarned (candidate config i now rt pack draft is s) a =
      candidate_from_success-AreEarned lib rules config i now rt pack draft is s a
  Step-AreEarned (use_of use_id clock i t p q n r reason s) a =
      add_skill_usage-AreEarned lib rules use_id clock i t p q n r reason s a

  -- In a store that calls of the manager and reported uses make, whether they return or raise, from
  -- one whose skills are earned, each skill counts as its successes its tasks, none of them twice, and each active
  -- skill has the successes, the tasks and the repositories that the settings ask for.
  pub Run-AreEarned :
      {s t : KnowledgeStore lib.Float} → Run s t → AreEarned lib rules s → AreEarned lib rules t
  Run-AreEarned (done s) a = a
  Run-AreEarned (next p r) a = Run-AreEarned r (Step-AreEarned p a)
