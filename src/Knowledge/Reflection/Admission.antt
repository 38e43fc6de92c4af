-- ===== src/Knowledge/Reflection/Admission.antt =====
-- Which memories are active in the store behind `persist_candidate`.
use long_running_coding_agen.Prelude.{
  In, In-All, All-In, All-map, All-select, subst, ℕ, String, ◌≡◌, refl, ◌⊎◌, inl, inr, true, not,
  ◌&&◌, Option, none, some, List, [], ◌∷◌, All, find-All, arith, str_eq, str_leb, Bool-cases,
  Result, ok, raise,
}
use long_running_coding_agen.Knowledge.Schema.{
  ReflectionCandidate, ExperienceEvidencePack, MemoryRecord, KnowledgeConflictRecord, is_active,
}
use long_running_coding_agen.Knowledge.Config.{
  KnowledgeConfig, KnowledgeReflectionConfig, KnowledgeMode, is_reflection,
}
use long_running_coding_agen.Knowledge.Library.{Library}
use long_running_coding_agen.Knowledge.Store.{
  KnowledgeStore, StoreError, append_event, append_conflict, active_memories, save_memory,
  write_memory, memory_file, save_reflection_rejection, find_duplicate_memory,
}
use long_running_coding_agen.Knowledge.Gate.{
  GateReason, EvidenceGateResult, append_conflicts, conflicts_with, find_conflicts_for_candidate,
  evaluate,
}
use long_running_coding_agen.Knowledge.Gate.Accepts.{IsGrounded, evaluate-IsGrounded}
use long_running_coding_agen.Knowledge.Reflection.{
  status_for, memory_of, merge_memory, stored, store_memory, persist_result, persist_candidate,
  is_rejected,
}

write_memory-All :
    {F : Type 0} (P : MemoryRecord F → Type 0) (m : MemoryRecord F) (ns : List (MemoryRecord F))
    → P m
    → All P ns
    → All P (write_memory m ns)
unfolding write_memory
write_memory-All P m [] p h = (p, tt)
write_memory-All P m (n ∷ ns) p h = elim (Bool-cases (str_eq m.memory_id n.memory_id)) [
  | inl e ↦ rw e (p, h.1)
  | inr e ↦ elim (Bool-cases (str_leb (memory_file m.memory_id) (memory_file n.memory_id))) [
    | inl f ↦ rw (e, f) (p, h)
    | inr f ↦ rw (e, f) (h.0, write_memory-All P m ns p h.1)
  ]
]

-- What holds of the memories and of a saved one holds behind the saving, in a frozen store too.
save_memory-All :
    {F : Type 0} (P : MemoryRecord F → Type 0) (m : MemoryRecord F) (s : KnowledgeStore F)
    → P m
    → All P s.memories
    → All P (save_memory m s).1.memories
unfolding save_memory append_event
save_memory-All P m s p h = elim (Bool-cases s.frozen_records) [
  | inl e ↦ rw e h
  | inr e ↦ rw e (write_memory-All P m s.memories p h)
]

module _ (lib : Library) where
  open lib use {Float}

  stored-store :
      (m : MemoryRecord Float) (o : Result StoreError (Unit {0}) × KnowledgeStore Float)
      → (stored lib m o).1 ≡ o.1
  stored-store m (raise e, s) = refl
  stored-store m (ok _, s) = refl

  store_memory-All :
      (P : MemoryRecord Float → Type 0) (now : String) (pack : ExperienceEvidencePack Float)
      (m : MemoryRecord Float) (o : Option (MemoryRecord Float)) (s : KnowledgeStore Float)
      → P m
      → ((old : MemoryRecord Float) → o ≡ some old → P (merge_memory lib now pack m old))
      → All P s.memories
      → All P (store_memory lib now pack m o s).1.memories
  store_memory-All P now pack m none s p q h =
      rw (stored-store m (save_memory m s)) (save_memory-All P m s p h)
  store_memory-All P now pack m (some old) s p q h =
      let n = merge_memory lib now pack m old in
      rw (stored-store n (save_memory n s)) (save_memory-All P n s (q old refl) h)

  append_conflicts-memories :
      (cs : List KnowledgeConflictRecord) (s : KnowledgeStore Float)
      → (append_conflicts lib cs s).memories ≡ s.memories
  unfolding append_conflicts append_conflict append_event
  append_conflicts-memories [] s = refl
  append_conflicts-memories (c ∷ cs) s = append_conflicts-memories cs (append_conflict c s)

  evaluate-memories :
      (rules : KnowledgeReflectionConfig Float) (ids : ℕ → String) (now : String)
      (c : ReflectionCandidate Float) (pack : ExperienceEvidencePack Float)
      (s : KnowledgeStore Float)
      → (evaluate lib rules ids now c pack s).1.memories ≡ s.memories
  unfolding evaluate find_conflicts_for_candidate
  evaluate-memories rules ids now c pack s =
      append_conflicts-memories (conflicts_with lib ids now c (active_memories s)) s

  find_duplicate_memory-In :
      (m old : MemoryRecord Float) (s : KnowledgeStore Float)
      → find_duplicate_memory lib m s ≡ some old
      → In old s.memories
  unfolding find_duplicate_memory active_memories
  find_duplicate_memory-In m old s h =
      (find-All (λ n. In n s.memories) _ (active_memories s) old h
        (All-select (λ n. In n s.memories) _ s.memories
          (In-All s.memories s.memories (λ x k. k)))).0

  -- `n` is a memory of the list, up to where it comes from, its evidence and when it was updated.
  abbrev pub Survives : List (MemoryRecord Float) → MemoryRecord Float → Type 0
  Survives ms n =
      (old : MemoryRecord Float) × In old ms
      × (record n {
        source_episode_ids = old.source_episode_ids;
        source_task_ids = old.source_task_ids;
        source_session_ids = old.source_session_ids;
        evidence_ids = old.evidence_ids;
        updated_at = old.updated_at;
      }
          ≡ old)

  status_for-accepted :
      (mode : KnowledgeMode) (r : EvidenceGateResult Float)
      → is_active (status_for lib mode r) ≡ true
      → r.accepted ≡ true
  unfolding status_for is_active
  status_for-accepted mode r h = ground arith

  -- What the theorem below says of a memory, with the acceptance by the gate.
  abbrev Admitted :
      ReflectionCandidate Float
      → EvidenceGateResult Float
      → List (MemoryRecord Float)
      → MemoryRecord Float
      → Type 0
  Admitted c r ms n =
      is_active n.status ≡ true → Survives ms n ⊎ ((r.accepted ≡ true) × (n.lesson ≡ c.root_cause))

  before :
      (c : ReflectionCandidate Float) (r : EvidenceGateResult Float)
      (ms : List (MemoryRecord Float))
      → All (Admitted c r ms) ms
  before c r ms =
      All-map (λ n. In n ms) (Admitted c r ms) ms (λ n k a. inl (n, k, refl))
        (In-All ms ms (λ x k. k))

  -- A grounded reflection is stored, or a duplicate is merged with it.
  store_memory-Admitted :
      (mode : KnowledgeMode) (memory_id now : String) (c : ReflectionCandidate Float)
      (pack : ExperienceEvidencePack Float) (r : EvidenceGateResult Float)
      (t : KnowledgeStore Float)
      → All
          (Admitted c r t.memories)
          (store_memory lib now pack
            (memory_of lib mode memory_id now c pack r)
            (find_duplicate_memory lib (memory_of lib mode memory_id now c pack r) t)
            t).1.memories
  store_memory-Admitted mode memory_id now c pack r t =
      let m = memory_of lib mode memory_id now c pack r in
      store_memory-All (Admitted c r t.memories) now pack m (find_duplicate_memory lib m t) t
        (λ a. inr (status_for-accepted mode r a, refl))
        (λ old d a. inl (old, find_duplicate_memory-In m old t d, refl)) (before c r t.memories)

  persist_result-Admitted :
      (config : KnowledgeConfig Float) (memory_id now : String) (reason_text : GateReason → String)
      (c : ReflectionCandidate Float) (pack : ExperienceEvidencePack Float)
      (r : EvidenceGateResult Float) (s : KnowledgeStore Float)
      → All
          (Admitted c r s.memories)
          (persist_result lib config memory_id now reason_text c pack r s).1.memories
  unfolding persist_result append_event save_reflection_rejection
  persist_result-Admitted config memory_id now rt c pack r s =
      elim (Bool-cases (is_rejected r.decision && not (is_reflection config.mode))) [
        | inl e ↦ rw e (before c r s.memories)
        | inr e ↦ rw e (store_memory-Admitted config.mode memory_id now c pack r _)
      ]

  -- Each active memory in the store that `persist_candidate` leaves, whether it returns or raises,
  -- was in the store before, up to its sources, its evidence and the time of its update, or it has
  -- the root cause of the reflection as its lesson, and the reflection is grounded.
  pub persist_candidate-IsGrounded :
      (config : KnowledgeConfig Float) (ids : ℕ → String) (memory_id now : String)
      (reason_text : GateReason → String) (c : ReflectionCandidate Float)
      (pack : ExperienceEvidencePack Float) (s : KnowledgeStore Float) (n : MemoryRecord Float)
      → In n (persist_candidate lib config ids memory_id now reason_text c pack s).1.memories
      → is_active n.status ≡ true
      → Survives s.memories n
        ⊎ (IsGrounded lib config.reflection s c pack × (n.lesson ≡ c.root_cause))
  unfolding persist_candidate
  persist_candidate-IsGrounded config ids memory_id now rt c pack s n k a =
      let (r, s') = evaluate lib config.reflection ids now c pack s in
      let same = evaluate-memories config.reflection ids now c pack s in
      elim (All-In (Admitted c r s'.memories) n _
        (persist_result-Admitted config memory_id now rt c pack r s') k a) [
          | inl survives ↦ inl (subst (λ ms. Survives ms n) same survives)
          | inr (accepted, e) ↦
              inr (evaluate-IsGrounded lib config.reflection ids now c pack s accepted, e)
        ]
