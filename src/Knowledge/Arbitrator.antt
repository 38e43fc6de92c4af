-- ===== src/Knowledge/Arbitrator.antt =====
-- src/longrun_agent/knowledge/arbitrator.py: which of the retrieved records a session is shown first.
pub mod Partition
use long_running_coding_agen.Prelude.{
  ℕ, String, Bool, true, false, not, ◌||◌, List, [], ◌∷◌, ◌++◌, map, str_eq, if◌then◌else◌, elem,
  to_set, sorted, select, is_empty,
}
use long_running_coding_agen.Knowledge.Schema.{MemoryRecord, SkillRecord, SkillStatus}
use long_running_coding_agen.Knowledge.Skills.{skill_status_eq}

pub record RetrievedKnowledgeBundle (F : Type 0) : Type 0 where
  pub memories : List (MemoryRecord F)
  pub skills : List (SkillRecord F)
  pub primary_memory_ids : List String
  pub primary_skill_ids : List String
  pub shadowed_memory_ids : List String
  pub provenance_links : List (String × List String)
  pub total_estimated_tokens : ℕ
  pub retrieval_id : String
  pub created_at : String

module _ {F : Type 0} where
  abbrev pub memory_ids : RetrievedKnowledgeBundle F → List String
  memory_ids b = map (λ (m : MemoryRecord F). m.memory_id) b.memories

  abbrev pub is_usable : SkillRecord F → Bool
  is_usable k =
      skill_status_eq k.status SkillStatus.validated || skill_status_eq k.status SkillStatus.active

  -- `sorted(selected_memory_ids & set(skill.source_memory_ids))`
  unfoldable pub parents : List String → SkillRecord F → List String
  unfolding elem to_set sorted select
  parents selected k = sorted (to_set (select (λ i. elem i selected) k.source_memory_ids))

  -- The loop over the skills: the identifiers, the links and the shadowed memories.
  unfoldable pub usable : List (SkillRecord F) → List (SkillRecord F)
  unfolding select
  usable ks = select is_usable ks

  unfoldable pub links : List String → List (SkillRecord F) → List (String × List String)
  unfolding parents
  links selected [] = []
  links selected (k ∷ ks) =
      let rest = links selected ks in
      if is_empty (parents selected k) then rest else (k.skill_id, parents selected k) ∷ rest

  unfoldable pub shadowed : List String → List (SkillRecord F) → List String
  unfolding parents
  shadowed selected [] = []
  shadowed selected (k ∷ ks) = parents selected k ++ shadowed selected ks

  unfoldable pub arbitrate :
      RetrievedKnowledgeBundle F → (memory_skill_mode : Bool) → RetrievedKnowledgeBundle F
  unfolding usable links shadowed sorted to_set select elem
  arbitrate b memory_skill_mode =
      let ids = memory_ids b in
      let hidden = sorted (to_set (shadowed ids (usable b.skills))) in
      if not memory_skill_mode
      then record b {
        primary_memory_ids = ids;
        primary_skill_ids = [];
        shadowed_memory_ids = [];
        provenance_links = [];
      }
      else record b {
        primary_memory_ids = select (λ i. not (elem i hidden)) ids;
        primary_skill_ids = map (λ (k : SkillRecord F). k.skill_id) (usable b.skills);
        shadowed_memory_ids = hidden;
        provenance_links = links ids (usable b.skills);
      }
