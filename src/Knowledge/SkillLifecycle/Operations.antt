-- ===== src/Knowledge/SkillLifecycle/Operations.antt =====
-- The use of skills by `SkillLifecycleManager`, which keeps the skills of a store earned.
use long_running_coding_agen.Prelude.{
  String, ◌≡◌, refl, Bool, true, false, List, if◌then◌else◌, elem, Result, ok, raise,
}
use long_running_coding_agen.Knowledge.Schema.{SkillStatus}
use long_running_coding_agen.Knowledge.Config.{KnowledgeSkillConfig}
use long_running_coding_agen.Knowledge.Library.{Library}
use long_running_coding_agen.Knowledge.Store.{
  KnowledgeStore, StoreError, Value, append_event, load_skill,
}
use long_running_coding_agen.Knowledge.Skills.{skill_status_eq}
use long_running_coding_agen.Knowledge.SkillLifecycle.{
  Outcome, saved, is_promoted, count_success, promote, promotion_events, succeed, succeed_loaded,
  record_success, harm_loaded, record_harmful_use,
}
use long_running_coding_agen.Knowledge.SkillLifecycle.Earned.{
  IsEarned, AreEarned, Skill, save_skill-AreEarned, load_skill-IsEarned, promote-IsEarned,
  count_success-IsEarned, count_harm-IsEarned,
}

module _ (lib : Library) (rules : KnowledgeSkillConfig lib.Float) where
  -- An event leaves the skills as they are.
  pub append_event-AreEarned :
      (n : String) (p : List (String × Value)) (s : KnowledgeStore lib.Float)
      → AreEarned lib rules s
      → AreEarned lib rules (append_event n p s)
  unfolding append_event
  append_event-AreEarned n p s a = a

  pub saved-AreEarned :
      {A : Type 0} (x : A) (events : KnowledgeStore lib.Float → KnowledgeStore lib.Float)
      (o : Outcome lib (Unit {0}))
      → ((s : KnowledgeStore lib.Float) → AreEarned lib rules s → AreEarned lib rules (events s))
      → AreEarned lib rules o.1
      → AreEarned lib rules (saved lib x events o).1
  saved-AreEarned x events (raise e, s) h a = a
  saved-AreEarned x events (ok _, s) h a = h s a

  promotion_events-AreEarned :
      (b : Bool) (n : String) (p : List (String × Value)) (s : KnowledgeStore lib.Float)
      → AreEarned lib rules s
      → AreEarned lib rules (if b then append_event n p s else s)
  promotion_events-AreEarned true n p s a = append_event-AreEarned n p s a
  promotion_events-AreEarned false n p s a = a

  touched :
      (now : String) (k : Skill lib rules)
      → IsEarned rules k
      → IsEarned rules (record k { updated_at = now })
  touched now k h = record { counted = h.counted; once = h.once; earned = h.earned }

  succeed-AreEarned :
      (b : Bool) (now t r : String) (k : Skill lib rules) (s : KnowledgeStore lib.Float)
      → elem t k.distinct_task_ids ≡ b
      → IsEarned rules k
      → AreEarned lib rules s
      → AreEarned lib rules (succeed lib rules now t r k s).1
  unfolding succeed
  succeed-AreEarned true now t r k s e h a = rw e a
  succeed-AreEarned false now t r k s e h a =
      let counted = count_success lib t r k in
      let k' = record (promote lib rules counted) { updated_at = now } in
      rw e (
        saved-AreEarned _ _ _ (λ x b. b)
          (save_skill-AreEarned lib rules k' (promotion_events lib rules counted s)
            (touched now _
              (promote-IsEarned lib rules counted (count_success-IsEarned lib rules t r k e h)))
            (promotion_events-AreEarned (is_promoted lib rules counted) _ _ s a)))

  succeed_loaded-AreEarned :
      (now t r : String) (l : Result StoreError (Skill lib rules)) (s : KnowledgeStore lib.Float)
      → ((k : Skill lib rules) → l ≡ ok k → IsEarned rules k)
      → AreEarned lib rules s
      → AreEarned lib rules (succeed_loaded lib rules now t r l s).1
  succeed_loaded-AreEarned now t r (raise e) s h a = a
  succeed_loaded-AreEarned now t r (ok k) s h a =
      succeed-AreEarned (elem t k.distinct_task_ids) now t r k s refl (h k refl) a

  pub record_success-AreEarned :
      (now i t r : String) (s : KnowledgeStore lib.Float)
      → AreEarned lib rules s
      → AreEarned lib rules (record_success lib rules now i t r s).1
  unfolding record_success
  record_success-AreEarned now i t r s a =
      succeed_loaded-AreEarned now t r (load_skill i s) s
        (λ k e. load_skill-IsEarned lib rules i s k e a) a

  harm_loaded-AreEarned :
      (now reason : String) (l : Result StoreError (Skill lib rules)) (s : KnowledgeStore lib.Float)
      → ((k : Skill lib rules) → l ≡ ok k → IsEarned rules k)
      → AreEarned lib rules s
      → AreEarned lib rules (harm_loaded lib now reason l s).1
  harm_loaded-AreEarned now reason (raise e) s h a = a
  harm_loaded-AreEarned now reason (ok k) s h a =
      saved-AreEarned _ _ _ (λ x b. b)
        (save_skill-AreEarned lib rules _ _
          (touched now _ (count_harm-IsEarned lib rules k (h k refl)))
          (promotion_events-AreEarned (skill_status_eq k.status SkillStatus.active) _ _ s a))

  pub record_harmful_use-AreEarned :
      (now i reason : String) (s : KnowledgeStore lib.Float)
      → AreEarned lib rules s
      → AreEarned lib rules (record_harmful_use lib now i reason s).1
  unfolding record_harmful_use
  record_harmful_use-AreEarned now i reason s a =
      harm_loaded-AreEarned now reason (load_skill i s) s
        (λ k e. load_skill-IsEarned lib rules i s k e a) a
