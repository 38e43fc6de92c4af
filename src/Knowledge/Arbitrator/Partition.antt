-- ===== src/Knowledge/Arbitrator/Partition.antt =====
-- The memories that a session is shown first, and those that skills shadow.
use long_running_coding_agen.Prelude.{
  String, ◌≡◌, refl, ◌∙◌, inl, inr, Bool, true, false, not, ◌&&◌, ◌||◌, List, [], ◌∷◌, arith, elem,
  to_set, sorted, select, elem-sorted, elem-set, elem-selected, elem-append, Bool-cases, any,
}
use long_running_coding_agen.Knowledge.Schema.{SkillRecord, SkillStatus}
use long_running_coding_agen.Knowledge.Skills.{skill_status_eq}
use long_running_coding_agen.Knowledge.Arbitrator.{
  RetrievedKnowledgeBundle, memory_ids, is_usable, parents, usable, shadowed, arbitrate,
}

-- A skill that may stand for its memories is validated or active.
abbrev pub stands : SkillStatus → Bool
stands SkillStatus.validated = true
stands SkillStatus.active = true
stands _ = false

usable_status :
    (t : SkillStatus)
    → (skill_status_eq t SkillStatus.validated || skill_status_eq t SkillStatus.active) ≡ stands t
usable_status SkillStatus.draft = refl
usable_status SkillStatus.validated = refl
usable_status SkillStatus.active = refl
usable_status SkillStatus.deprecated = refl
usable_status SkillStatus.retired = refl

module _ {F : Type 0} where
  elem-parents :
      (i : String) (selected : List String) (k : SkillRecord F)
      → elem i (parents selected k) ≡ (elem i k.source_memory_ids && elem i selected)
  unfolding parents
  elem-parents i selected k =
      elem-sorted i (to_set (select (λ j. elem j selected) k.source_memory_ids))
      ∙ elem-set i (select (λ j. elem j selected) k.source_memory_ids)
      ∙ elem-selected (λ j. elem j selected) i k.source_memory_ids

  -- Some skill of the list that stands for its memories has the memory among its sources.
  abbrev pub is_covered : String → List (SkillRecord F) → Bool
  is_covered i ks = any (λ (k : SkillRecord F). stands k.status && elem i k.source_memory_ids) ks

  elem-shadowed :
      (i : String) (selected : List String) (ks : List (SkillRecord F))
      → elem i (shadowed selected (usable ks)) ≡ (elem i selected && is_covered i ks)
  unfolding shadowed usable any select
  elem-shadowed i selected [] = unfold elem in ground arith
  elem-shadowed i selected (k ∷ ks) =
      let ih = elem-shadowed i selected ks in
      let status = usable_status k.status in
      elim (Bool-cases (is_usable k)) [
        | inl e ↦
            rw
              (
                e,
                elem-append i (parents selected k) (shadowed selected (usable ks)),
                elem-parents i selected k,
                ih,
              )
              (ground (arith, status, e))
        | inr e ↦ rw (e, ih) (ground (arith, status, e))
      ]

  -- With skills on, a memory is shadowed exactly where it was retrieved and some retrieved skill
  -- that is validated or active has it among its sources; it is shown first exactly where it was
  -- retrieved and is not shadowed. With skills off none is shadowed, and all are shown first.
  pub arbitrate-memory_ids :
      (b : RetrievedKnowledgeBundle F) (mode : Bool) (i : String)
      → (elem i (arbitrate b mode).shadowed_memory_ids
          ≡ (mode && (elem i (memory_ids b) && is_covered i b.skills)))
        × (elem i (arbitrate b mode).primary_memory_ids
            ≡ (elem i (memory_ids b) && not (mode && is_covered i b.skills)))
  unfolding arbitrate
  arbitrate-memory_ids b false i = unfold elem in (refl, ground arith)
  arbitrate-memory_ids b true i =
      let ids = memory_ids b in
      let s = shadowed ids (usable b.skills) in
      let hidden = sorted (to_set s) in
      let p = elem-selected (λ j. not (elem j hidden)) i ids in
      let q = elem-sorted i (to_set s) ∙ elem-set i s ∙ elem-shadowed i ids b.skills in
      (q, ground (arith, p, q))
