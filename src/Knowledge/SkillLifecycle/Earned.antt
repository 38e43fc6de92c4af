-- ===== src/Knowledge/SkillLifecycle/Earned.antt =====
-- How a skill becomes active: by enough successes, each in a task of its own.
use long_running_coding_agen.Prelude.{
  nodup-append, find-All, String, ◌≡◌, refl, inl, inr, Bool, true, false, not, ◌&&◌, ◌||◌, Option,
  none, some, List, [], ◌∷◌, arith, str_eq, str_leb, if◌then◌else◌, leb, length, length-append, All,
  elem, nodup, find, Bool-cases, Result, ok, raise,
}
use long_running_coding_agen.Knowledge.Schema.{SkillStatus, SkillRecord, SkillStep}
use long_running_coding_agen.Knowledge.Config.{KnowledgeSkillConfig}
use long_running_coding_agen.Knowledge.Library.{Library}
use long_running_coding_agen.Knowledge.Store.{
  KnowledgeStore, StoreError, append_event, write_skill, find_skill, load_skill, found, violated,
}
use long_running_coding_agen.Knowledge.Skills.{
  signed, unless_dangerous, save_skill, written, validate_safe_procedure, skill_status_eq,
  is_dangerous,
}
use long_running_coding_agen.Knowledge.SkillLifecycle.{
  is_promoted, count_success, promote, count_harm,
}

-- The numbers that a skill needs to become active.
abbrev pub has_enough : {F : Type 0} → KnowledgeSkillConfig F → SkillRecord F → Bool
has_enough rules k =
    leb rules.promotion_min_successes k.success_count
    && (leb rules.promotion_min_distinct_tasks (length k.distinct_task_ids)
        && leb rules.promotion_min_distinct_repositories
            (length k.distinct_repository_fingerprints))

-- The successes of a skill are those of its tasks, each of which counts once, and an active skill
-- has the numbers that the settings ask for.
pub record IsEarned {F : Type 0} (rules : KnowledgeSkillConfig F) (k : SkillRecord F) : Type 0 where
  pub counted : k.success_count ≡ length k.distinct_task_ids
  pub once : nodup k.distinct_task_ids ≡ true
  pub earned : (not (skill_status_eq k.status SkillStatus.active) || has_enough rules k) ≡ true

write_skill-All :
    {F : Type 0} (P : SkillRecord F → Type 0) (k : SkillRecord F) (ks : List (SkillRecord F))
    → P k
    → All P ks
    → All P (write_skill k ks)
unfolding write_skill
write_skill-All P k [] p h = (p, tt)
write_skill-All P k (n ∷ ns) p h = elim (Bool-cases (str_eq k.skill_id n.skill_id)) [
  | inl e ↦ rw e (p, h.1)
  | inr e ↦ elim (Bool-cases (str_leb k.skill_id n.skill_id)) [
    | inl f ↦ rw (e, f) (p, h)
    | inr f ↦ rw (e, f) (h.0, write_skill-All P k ns p h.1)
  ]
]

implies : (a b : Bool) → a ≡ true → (not a || b) ≡ true → b ≡ true
implies a b e h = ground arith

from_conclusion : (a b : Bool) → b ≡ true → (not a || b) ≡ true
from_conclusion a b h = ground arith

module _ (lib : Library) (rules : KnowledgeSkillConfig lib.Float) where
  abbrev pub Skill : Type 0
  Skill = SkillRecord lib.Float

  abbrev pub AreEarned : KnowledgeStore lib.Float → Type 0
  AreEarned s = All (IsEarned rules) s.skills

  pub unless_dangerous-IsEarned :
      (o : Option SkillStep) (k k' : Skill)
      → unless_dangerous lib o k ≡ ok k'
      → IsEarned rules k
      → IsEarned rules k'
  unless_dangerous-IsEarned (some p) k k' e h = cc
  unless_dangerous-IsEarned none k k' e h =
      let q : signed lib k ≡ k' = cc in
      rw (← q) (record { counted = h.counted; once = h.once; earned = h.earned })

  written-AreEarned :
      (r : Result StoreError Skill) (s : KnowledgeStore lib.Float)
      → ((k' : Skill) → r ≡ ok k' → IsEarned rules k')
      → AreEarned s
      → AreEarned (written lib r s).1
  unfolding append_event
  written-AreEarned (raise e) s h a = a
  written-AreEarned (ok k) s h a = write_skill-All (IsEarned rules) k s.skills (h k refl) a

  saving-AreEarned :
      (b : Bool) (k : Skill) (s : KnowledgeStore lib.Float)
      → IsEarned rules k
      → AreEarned s
      → AreEarned
          (if b
            then violated "save_skill" k.skill_id s
            else written lib (validate_safe_procedure lib k) s).1
  unfolding append_event validate_safe_procedure
  saving-AreEarned true k s h a = a
  saving-AreEarned false k s h a =
      written-AreEarned (validate_safe_procedure lib k) s
        (λ k' q. unless_dangerous-IsEarned (find (is_dangerous lib) k.procedure) k k' q h) a

  pub save_skill-AreEarned :
      (k : Skill) (s : KnowledgeStore lib.Float)
      → IsEarned rules k
      → AreEarned s
      → AreEarned (save_skill lib k s).1
  unfolding save_skill
  save_skill-AreEarned k s h a = saving-AreEarned s.frozen_records k s h a

  found_ok : (i : String) (o : Option Skill) (k : Skill) → found i o ≡ ok k → o ≡ some k
  found_ok i none k e = cc
  found_ok i (some j) k e = cc

  pub load_skill-IsEarned :
      (i : String) (s : KnowledgeStore lib.Float) (k : Skill)
      → load_skill i s ≡ ok k
      → AreEarned s
      → IsEarned rules k
  unfolding load_skill find_skill
  load_skill-IsEarned i s k e a =
      (find-All (IsEarned rules) (λ (m : Skill). str_eq m.skill_id i) s.skills k (found_ok i _ k e)
        a).0

  count_success-enough :
      (t r : String) (k : Skill)
      → has_enough rules k ≡ true
      → has_enough rules (count_success lib t r k) ≡ true
  unfolding count_success
  count_success-enough t r k h = elim (Bool-cases (elem r k.distinct_repository_fingerprints)) [
    | inl e ↦ rw e (ground (arith, length-append k.distinct_task_ids (t ∷ [])))
    | inr e ↦ rw e (
        ground (
          arith,
          length-append k.distinct_task_ids (t ∷ []),
          length-append k.distinct_repository_fingerprints (r ∷ []),
        ))
  ]

  pub count_success-IsEarned :
      (t r : String) (k : Skill)
      → elem t k.distinct_task_ids ≡ false
      → IsEarned rules k
      → IsEarned rules (count_success lib t r k)
  count_success-IsEarned t r k n h = record {
    counted =
        unfold count_success in
        omega (arith, length-append k.distinct_task_ids (t ∷ []), h.counted);
    once = unfold count_success in nodup-append t k.distinct_task_ids h.once n;
    earned = elim (Bool-cases (skill_status_eq k.status SkillStatus.active)) [
      | inl e ↦ from_conclusion _ _ (count_success-enough t r k (implies _ _ e h.earned))
      | inr e ↦ unfold count_success in rw e refl
    ];
  }

  promoting-IsEarned :
      (b : Bool) (k : Skill)
      → (b ≡ true → has_enough rules k ≡ true)
      → IsEarned rules k
      → IsEarned rules (if b then record k { status = SkillStatus.active } else k)
  promoting-IsEarned true k h a = record {
    counted = a.counted;
    once = a.once;
    earned = rw (h refl) refl;
  }
  promoting-IsEarned false k h a = a

  pub promote-IsEarned : (k : Skill) → IsEarned rules k → IsEarned rules (promote lib rules k)
  unfolding promote
  promote-IsEarned k a = promoting-IsEarned (is_promoted lib rules k) k (λ e. ground arith) a

  pub count_harm-IsEarned : (k : Skill) → IsEarned rules k → IsEarned rules (count_harm lib k)
  unfolding count_harm
  count_harm-IsEarned k h = record {
    counted = h.counted;
    once = h.once;
    earned = elim (Bool-cases (skill_status_eq k.status SkillStatus.active)) [
      | inl e ↦ rw e refl
      | inr e ↦ rw e (rw e refl)
    ];
  }
