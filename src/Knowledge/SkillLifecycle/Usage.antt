-- ===== src/Knowledge/SkillLifecycle/Usage.antt =====
-- The uses of skills, which keep the skills of a store earned.
use long_running_coding_agen.Prelude.{
  ℕ, String, ◌≡◌, refl, Bool, true, false, not, Option, if◌then◌else◌, Result, ok, raise,
}
use long_running_coding_agen.Knowledge.Schema.{
  KnowledgeUseType, retrieved, exposed, referenced, helpful, harmful, neutral, KnowledgeUseRecord,
  SkillRecord,
}
use long_running_coding_agen.Knowledge.Config.{KnowledgeSkillConfig}
use long_running_coding_agen.Knowledge.Library.{Library}
use long_running_coding_agen.Knowledge.Store.{
  KnowledgeStore, StoreError, append_use, use_exists, load_skill,
}
use long_running_coding_agen.Knowledge.Skills.{save_skill}
use long_running_coding_agen.Knowledge.SkillUses.{
  apply_skill_usage, then_append_skill, skill_use, write_skill_use, add_skill_usage,
}
use long_running_coding_agen.Knowledge.SkillLifecycle.{Outcome}
use long_running_coding_agen.Knowledge.SkillLifecycle.Earned.{
  IsEarned, AreEarned, Skill, save_skill-AreEarned, load_skill-IsEarned,
}

module _ (lib : Library) (rules : KnowledgeSkillConfig lib.Float) where
  apply_skill_usage-IsEarned :
      (now : String) (t : KnowledgeUseType) (k : Skill lib rules)
      → IsEarned rules k
      → IsEarned rules (apply_skill_usage lib now t k)
  unfolding apply_skill_usage
  apply_skill_usage-IsEarned now retrieved k h = record {
    counted = h.counted;
    once = h.once;
    earned = h.earned;
  }
  apply_skill_usage-IsEarned now exposed k h = record {
    counted = h.counted;
    once = h.once;
    earned = h.earned;
  }
  apply_skill_usage-IsEarned now referenced k h = record {
    counted = h.counted;
    once = h.once;
    earned = h.earned;
  }
  apply_skill_usage-IsEarned now helpful k h = record {
    counted = h.counted;
    once = h.once;
    earned = h.earned;
  }
  apply_skill_usage-IsEarned now harmful k h = record {
    counted = h.counted;
    once = h.once;
    earned = h.earned;
  }
  apply_skill_usage-IsEarned now neutral k h = h

  either :
      {A : Type 0} (b : Bool) (o p : Outcome lib A)
      → AreEarned lib rules o.1
      → AreEarned lib rules p.1
      → AreEarned lib rules (if b then o else p).1
  either true o p h k = h
  either false o p h k = k

  append_use-AreEarned :
      (u : KnowledgeUseRecord) (s : KnowledgeStore lib.Float)
      → AreEarned lib rules s
      → AreEarned lib rules (append_use u s)
  unfolding append_use
  append_use-AreEarned u s a = a

  then_append_skill-AreEarned :
      (u : KnowledgeUseRecord) (k : Skill lib rules) (o : Outcome lib (Unit {0}))
      → AreEarned lib rules o.1
      → AreEarned lib rules (then_append_skill lib u k o).1
  then_append_skill-AreEarned u k (raise e, s) a = a
  then_append_skill-AreEarned u k (ok _, s) a = append_use-AreEarned u s a

  write_skill_use-AreEarned :
      (now : String) (u : KnowledgeUseRecord) (l : Result StoreError (Skill lib rules))
      (s : KnowledgeStore lib.Float)
      → ((k : Skill lib rules) → l ≡ ok k → IsEarned rules k)
      → AreEarned lib rules s
      → AreEarned lib rules (write_skill_use lib now u l s).1
  unfolding write_skill_use
  write_skill_use-AreEarned now u (raise e) s h a = a
  write_skill_use-AreEarned now u (ok k) s h a =
      let k' = apply_skill_usage lib now u.use_type k in
      let kept = then_append_skill lib u k' (save_skill lib k' s) in
      let bare : Outcome lib (KnowledgeUseRecord × SkillRecord lib.Float × Bool) =
        (ok (u, k, true), append_use u s) in
      either (use_exists u s) (ok (u, k, false), s) (if not s.frozen_records then kept else bare) a
        (either (not s.frozen_records) kept bare
          (then_append_skill-AreEarned u k' (save_skill lib k' s) (
            save_skill-AreEarned lib rules k' s
              (apply_skill_usage-IsEarned now u.use_type k (h k refl)) a))
          (append_use-AreEarned u s a))

  pub add_skill_usage-AreEarned :
      (use_id : String) (clock : ℕ → String) (i : String) (t : KnowledgeUseType) (p q n : String)
      (r : Option String) (reason : String) (s : KnowledgeStore lib.Float)
      → AreEarned lib rules s
      → AreEarned lib rules (add_skill_usage lib use_id clock i t p q n r reason s).1
  unfolding add_skill_usage
  add_skill_usage-AreEarned use_id clock i t p q n r reason s a =
      write_skill_use-AreEarned (clock 1) (skill_use lib use_id (clock 0) i t p q n r reason)
        (load_skill i s) s (λ k e. load_skill-IsEarned lib rules i s k e a) a
