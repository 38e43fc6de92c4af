-- ===== src/Knowledge/SkillUses.antt =====
-- src/longrun_agent/knowledge/store.py: the uses of a skill and the changes of its status, which are
-- on skills what they are on memories.
use Prim.Native.String.{◌++◌ as append}
use long_running_coding_agen.Prelude.{
  ℕ, ◌+◌, String, Bool, true, false, not, Option, none, some, [], ◌∷◌, if◌then◌else◌, Result, ok,
  raise,
}
use long_running_coding_agen.Knowledge.Schema.{
  KnowledgeUseType, KnowledgeUseRecord, retrieved, exposed, referenced, helpful, harmful, neutral,
  SkillStatus, SkillRecord,
}
use long_running_coding_agen.Knowledge.Library.{Library}
use long_running_coding_agen.Knowledge.Store.{
  append_use, use_exists, mutation_violation, KnowledgeStore, StoreError, text, append_event,
  violated, load_skill, skill_status_name,
}
use long_running_coding_agen.Knowledge.Skills.{save_skill}

module _ (lib : Library) where
  open lib use {Float}

  -- `_apply_usage` on a skill, at the time `now`.
  unfoldable pub apply_skill_usage :
      (now : String) → KnowledgeUseType → SkillRecord Float → SkillRecord Float
  apply_skill_usage now retrieved k = record k {
    retrieval_count = k.retrieval_count + 1;
    last_retrieved_at = some now;
  }
  apply_skill_usage now exposed k = record k { exposure_count = k.exposure_count + 1 }
  apply_skill_usage now referenced k = record k {
    reference_count = k.reference_count + 1;
    last_used_at = some now;
  }
  apply_skill_usage now helpful k = record k {
    helpful_count = k.helpful_count + 1;
    last_used_at = some now;
  }
  apply_skill_usage now harmful k = record k {
    harmful_count = k.harmful_count + 1;
    last_used_at = some now;
  }
  apply_skill_usage now neutral k = k

  abbrev pub then_append_skill :
      KnowledgeUseRecord
      → SkillRecord Float
      → Result StoreError (Unit {0}) × KnowledgeStore Float
      → Result StoreError (KnowledgeUseRecord × SkillRecord Float × Bool) × KnowledgeStore Float
  then_append_skill u k (raise e, s) = (raise e, s)
  then_append_skill u k (ok _, s) = (ok (u, k, true), append_use u s)

  -- The use of a skill, from the arguments of `add_skill_usage`.
  abbrev pub skill_use :
      (use_id now skill_id : String)
      → KnowledgeUseType
      → (project_id task_id session_id : String) → (retrieval_id : Option String)
      → (reason : String) → KnowledgeUseRecord
  skill_use use_id now i t project_id task_id session_id retrieval_id reason = record {
    use_id = use_id;
    project_id = project_id;
    task_id = task_id;
    session_id = session_id;
    retrieval_id = retrieval_id;
    memory_id = none;
    skill_id = some i;
    use_type = t;
    reason = reason;
    timestamp = now;
  }

  -- The end of `add_skill_usage`, behind the loading of the skill.
  unfoldable pub write_skill_use :
      (now : String)
      → KnowledgeUseRecord
      → Result StoreError (SkillRecord Float)
      → KnowledgeStore Float
      → Result StoreError (KnowledgeUseRecord × SkillRecord Float × Bool) × KnowledgeStore Float
  unfolding use_exists append_use apply_skill_usage save_skill
  write_skill_use now u (raise e) s = (raise e, s)
  write_skill_use now u (ok k) s =
      let k' = apply_skill_usage now u.use_type k in
      if use_exists u s
      then (ok (u, k, false), s)
      else if not s.frozen_records
      then then_append_skill u k' (save_skill lib k' s)
      else (ok (u, k, true), append_use u s)

  -- `clock` gives the readings of the clock in order: for the use, and for the skill.
  unfoldable pub add_skill_usage :
      (use_id : String) (clock : ℕ → String) (skill_id : String)
      → KnowledgeUseType
      → (project_id task_id session_id : String) → (retrieval_id : Option String)
      → (reason : String) → KnowledgeStore Float
      → Result StoreError (KnowledgeUseRecord × SkillRecord Float × Bool) × KnowledgeStore Float
  unfolding write_skill_use load_skill
  add_skill_usage use_id clock i t p q n r reason s =
      write_skill_use (clock 1) (skill_use use_id (clock 0) i t p q n r reason) (load_skill i s) s

  abbrev pub skill_status_saved :
      SkillStatus
      → String
      → SkillRecord Float
      → Result StoreError (Unit {0}) × KnowledgeStore Float
      → Result StoreError (SkillRecord Float) × KnowledgeStore Float
  skill_status_saved before reason k (raise e, s) = (raise e, s)
  skill_status_saved before reason k (ok _, s) = (
    ok k,
    append_event (append "skill_" (skill_status_name k.status))
        (("skill_id", text k.skill_id)
          ∷ ("status_before", text (skill_status_name before))
          ∷ ("status_after", text (skill_status_name k.status))
          ∷ ("reason", text reason)
          ∷ [])
        s,
  )

  abbrev pub loaded_skill_status :
      (now : String)
      → SkillStatus
      → (reason : String) → Result StoreError (SkillRecord Float)
      → KnowledgeStore Float
      → Result StoreError (SkillRecord Float) × KnowledgeStore Float
  loaded_skill_status now status reason (raise e) s = (raise e, s)
  loaded_skill_status now status reason (ok k) s =
      let k' = record k { status = status; updated_at = now } in
      skill_status_saved k.status reason k' (save_skill lib k' s)

  unfoldable pub update_skill_status :
      (now : String)
      → String
      → SkillStatus
      → (reason : String) → KnowledgeStore Float
      → Result StoreError (SkillRecord Float) × KnowledgeStore Float
  unfolding save_skill append_event load_skill
  update_skill_status now i status reason s =
      let r = loaded_skill_status now status reason (load_skill i s) s in
      if s.frozen_records
      then (
        raise (mutation_violation "update_skill_status" i),
        (violated "update_skill_status" i s).1,
      )
      else r
