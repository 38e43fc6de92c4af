-- ===== src/Knowledge/Store.antt =====
-- src/longrun_agent/knowledge/store.py: `KnowledgeStore`. A directory of JSON files is the list of
-- its records in the order of their file names, and a JSON-lines file the list of its rows. The
-- times and the identifiers that a call makes are its arguments, and events carry no time.
pub mod Lookup
pub mod Uses
use Prim.Native.String.{◌++◌ as append}
use long_running_coding_agen.Prelude.{
  ℕ, ◌+◌, String, Bool, true, false, not, ◌&&◌, ◌||◌, Option, none, some, List, [], ◌∷◌, ◌++◌, map,
  str_eq, str_leb, if◌then◌else◌, any, find, select, elem, lists_eq, or_empty, sorted, to_set,
  is_empty, join, Result, ok, raise,
}
use long_running_coding_agen.Knowledge.Schema.{
  ConflictSeverity, low, medium, high, MemoryScope, MemoryKind, failure_reflection,
  successful_lesson, repository_constraint, tool_usage_lesson, MemoryStatus, SkillStatus,
  KnowledgeUseType, retrieved, exposed, referenced, helpful, harmful, neutral, MemoryRecord,
  SkillRecord, SkillStep, KnowledgeUseRecord, KnowledgeConflictRecord, is_active, use_type_eq,
}
use long_running_coding_agen.Knowledge.Library.{Library}

pub data Value : Type 0 where
  text : String → Value
  texts : List String → Value

-- A row of `events.jsonl`, without its time.
pub record Event : Type 0 where
  pub event_type : String
  pub payload : List (String × Value)

pub data StoreError : Type 0 where
  mutation_violation : (operation record_id : String) → StoreError
  file_not_found : String → StoreError
  dangerous_command : String → StoreError

abbrev pub status_name : MemoryStatus → String
status_name MemoryStatus.candidate = "candidate"
status_name MemoryStatus.quarantined = "quarantined"
status_name MemoryStatus.active = "active"
status_name MemoryStatus.superseded = "superseded"
status_name MemoryStatus.invalidated = "invalidated"
status_name MemoryStatus.expired = "expired"

abbrev pub skill_status_name : SkillStatus → String
skill_status_name SkillStatus.draft = "draft"
skill_status_name SkillStatus.validated = "validated"
skill_status_name SkillStatus.active = "active"
skill_status_name SkillStatus.deprecated = "deprecated"
skill_status_name SkillStatus.retired = "retired"

abbrev severity_name : ConflictSeverity → String
severity_name low = "low"
severity_name medium = "medium"
severity_name high = "high"

unfoldable pub memory_kind_eq : MemoryKind → MemoryKind → Bool
memory_kind_eq failure_reflection failure_reflection = true
memory_kind_eq successful_lesson successful_lesson = true
memory_kind_eq repository_constraint repository_constraint = true
memory_kind_eq tool_usage_lesson tool_usage_lesson = true
memory_kind_eq _ _ = false

-- The name of a record's file or directory; the directories of the skills are sorted with their
-- file below them.
abbrev pub memory_file : String → String
memory_file i = append i ".json"

abbrev pub found {ℓ} : {A : Type ℓ} → String → Option A → Result StoreError A
found i none = raise (file_not_found i)
found i (some a) = ok a

abbrev pub saved_event : MemoryStatus → String
saved_event MemoryStatus.active = "memory_activated"
saved_event MemoryStatus.quarantined = "memory_quarantined"
saved_event _ = "memory_saved"

-- `a or b` on optional texts
abbrev pub or_else : Option String → Option String → Option String
or_else none b = b
or_else (some a) b = if str_eq a "" then b else some a

abbrev pub option_eq : Option String → Option String → Bool
option_eq none none = true
option_eq (some a) (some b) = str_eq a b
option_eq _ _ = false

-- The item that a use is of: `memory_id or skill_id`.
abbrev pub item_of : KnowledgeUseRecord → Option String
item_of u = or_else u.memory_id u.skill_id

-- The test of `_use_exists` on a row.
unfoldable pub same_use : KnowledgeUseRecord → KnowledgeUseRecord → Bool
same_use u row =
    str_eq row.project_id u.project_id
    && (str_eq row.task_id u.task_id
        && (str_eq row.session_id u.session_id
            && (option_eq (item_of row) (item_of u) && use_type_eq row.use_type u.use_type)))

-- `if not (candidate.project_id and candidate.task_id and candidate.session_id)`, negated
abbrev pub is_identified : KnowledgeUseRecord → Bool
is_identified u =
    not (str_eq u.project_id "") && (not (str_eq u.task_id "") && not (str_eq u.session_id ""))

-- A file of `save_reflection_rejection`, less the copies of the candidate and of its evidence.
pub record ReflectionRejection : Type 0 where
  pub candidate_id : String
  pub project_id : String
  pub task_id : String
  pub session_id : String
  pub cited_evidence_ids : List String
  pub rejection_reasons : List String
  pub final_scope : Option MemoryScope

unfoldable pub write_rejection :
    ReflectionRejection → List ReflectionRejection → List ReflectionRejection
write_rejection r [] = r ∷ []
write_rejection r (q ∷ qs) =
    let rest = q ∷ write_rejection r qs in
    if str_eq r.candidate_id q.candidate_id then r ∷ qs else rest

pub record KnowledgeStore (F : Type 0) : Type 0 where
  pub frozen_records : Bool
  pub memories : List (MemoryRecord F)
  pub skills : List (SkillRecord F)
  pub uses : List KnowledgeUseRecord
  pub conflicts : List KnowledgeConflictRecord
  pub rejections : List ReflectionRejection
  pub events : List Event

module _ {F : Type 0} where
  unfoldable pub append_event : String → List (String × Value) → KnowledgeStore F → KnowledgeStore F
  append_event event_type payload s = record s {
    events = s.events ++ record { event_type = event_type; payload = payload } ∷ [];
  }

  unfoldable pub save_reflection_rejection :
      ReflectionRejection → KnowledgeStore F → KnowledgeStore F
  unfolding write_rejection
  save_reflection_rejection r s = record s { rejections = write_rejection r s.rejections }

  unfoldable pub append_use : KnowledgeUseRecord → KnowledgeStore F → KnowledgeStore F
  append_use u s = record s { uses = s.uses ++ u ∷ [] }

  unfoldable pub append_conflict : KnowledgeConflictRecord → KnowledgeStore F → KnowledgeStore F
  unfolding append_event
  append_conflict c s =
      append_event "knowledge_conflict_detected"
        (("conflict_id", text c.conflict_id)
          ∷ ("left_id", text c.left_id)
          ∷ ("right_id", text c.right_id)
          ∷ ("conflict_type", text c.conflict_type)
          ∷ ("severity", text (severity_name c.severity))
          ∷ ("reason", text c.reason)
          ∷ ("timestamp", text c.timestamp)
          ∷ [])
        (record s { conflicts = s.conflicts ++ c ∷ [] })

  -- The write of a record to its file, which is new or replaced.
  unfoldable pub write_memory : MemoryRecord F → List (MemoryRecord F) → List (MemoryRecord F)
  write_memory m [] = m ∷ []
  write_memory m (n ∷ ns) =
      let rest = n ∷ write_memory m ns in
      if str_eq m.memory_id n.memory_id
      then m ∷ ns
      else if str_leb (memory_file m.memory_id) (memory_file n.memory_id)
      then m ∷ n ∷ ns
      else rest

  unfoldable pub write_skill : SkillRecord F → List (SkillRecord F) → List (SkillRecord F)
  write_skill m [] = m ∷ []
  write_skill m (n ∷ ns) =
      let rest = n ∷ write_skill m ns in
      if str_eq m.skill_id n.skill_id
      then m ∷ ns
      else if str_leb m.skill_id n.skill_id
      then m ∷ n ∷ ns
      else rest

  unfoldable pub find_memory : String → List (MemoryRecord F) → Option (MemoryRecord F)
  find_memory i = find (λ (m : MemoryRecord F). str_eq m.memory_id i)

  unfoldable pub find_skill : String → List (SkillRecord F) → Option (SkillRecord F)
  find_skill i = find (λ (m : SkillRecord F). str_eq m.skill_id i)

  unfoldable pub load_memory : String → KnowledgeStore F → Result StoreError (MemoryRecord F)
  unfolding find_memory
  load_memory i s = found i (find_memory i s.memories)

  unfoldable pub load_skill : String → KnowledgeStore F → Result StoreError (SkillRecord F)
  unfolding find_skill
  load_skill i s = found i (find_skill i s.skills)

  abbrev pub violated :
      String → String → KnowledgeStore F → Result StoreError (Unit {0}) × KnowledgeStore F
  violated operation i s = (
    raise (mutation_violation operation i),
    append_event "knowledge_mutation_violation"
        (("operation", text operation) ∷ ("record_id", text i) ∷ []) s,
  )

  -- The validation by pydantic and the conversion to JSON and back are taken to give the record again.
  unfoldable pub save_memory :
      MemoryRecord F → KnowledgeStore F → Result StoreError (Unit {0}) × KnowledgeStore F
  unfolding append_event write_memory
  save_memory m s = if s.frozen_records then violated "save_memory" m.memory_id s else (
    ok tt,
    append_event (saved_event m.status)
        (("memory_id", text m.memory_id)
          ∷ ("status_after", text (status_name m.status))
          ∷ ("evidence_ids", texts m.evidence_ids)
          ∷ [])
        (record s { memories = write_memory m s.memories }),
  )

  -- `_apply_usage` on a memory, at the time `now`.
  unfoldable pub apply_usage : (now : String) → KnowledgeUseType → MemoryRecord F → MemoryRecord F
  apply_usage now retrieved m = record m {
    retrieval_count = m.retrieval_count + 1;
    last_retrieved_at = some now;
  }
  apply_usage now exposed m = record m { exposure_count = m.exposure_count + 1 }
  apply_usage now referenced m = record m {
    reference_count = m.reference_count + 1;
    last_used_at = some now;
  }
  apply_usage now helpful m = record m {
    helpful_count = m.helpful_count + 1;
    last_used_at = some now;
  }
  apply_usage now harmful m = record m {
    harmful_count = m.harmful_count + 1;
    last_used_at = some now;
  }
  apply_usage now neutral m = m

  unfoldable pub use_exists : KnowledgeUseRecord → KnowledgeStore F → Bool
  unfolding same_use
  use_exists u s = is_identified u && any (same_use u) s.uses

  -- The use of a memory, from the arguments of `add_memory_usage`.
  abbrev pub memory_use :
      (use_id now : String)
      → MemoryRecord F
      → String
      → KnowledgeUseType
      → (project_id task_id session_id : String) → (retrieval_id : Option String)
      → (reason : String) → KnowledgeUseRecord
  memory_use use_id now m i t project_id task_id session_id retrieval_id reason = record {
    use_id = use_id;
    project_id = or_empty (or_else (some project_id) m.project_id);
    task_id = task_id;
    session_id = session_id;
    retrieval_id = retrieval_id;
    memory_id = some i;
    skill_id = none;
    use_type = t;
    reason = reason;
    timestamp = now;
  }

  abbrev pub then_append :
      KnowledgeUseRecord
      → MemoryRecord F
      → Result StoreError (Unit {0}) × KnowledgeStore F
      → Result StoreError (KnowledgeUseRecord × MemoryRecord F × Bool) × KnowledgeStore F
  then_append u m (raise e, s) = (raise e, s)
  then_append u m (ok _, s) = (ok (u, m, true), append_use u s)

  -- The end of `add_memory_usage`, behind the construction of the use.
  unfoldable pub write_use :
      (now : String)
      → KnowledgeUseRecord
      → MemoryRecord F
      → KnowledgeStore F
      → Result StoreError (KnowledgeUseRecord × MemoryRecord F × Bool) × KnowledgeStore F
  unfolding use_exists append_use apply_usage save_memory
  write_use now u m s =
      let m' = apply_usage now u.use_type m in
      if use_exists u s
      then (ok (u, m, false), s)
      else if not s.frozen_records
      then then_append u m' (save_memory m' s)
      else (ok (u, m, true), append_use u s)

  -- `clock` gives the readings of the clock in order: for the use, and for the memory.
  abbrev pub loaded_use :
      (use_id : String) (clock : ℕ → String)
      → String
      → KnowledgeUseType
      → (project_id task_id session_id : String) → (retrieval_id : Option String)
      → (reason : String) → Result StoreError (MemoryRecord F)
      → KnowledgeStore F
      → Result StoreError (KnowledgeUseRecord × MemoryRecord F × Bool) × KnowledgeStore F
  loaded_use use_id clock i t p k n r reason (raise e) s = (raise e, s)
  loaded_use use_id clock i t p k n r reason (ok m) s =
      write_use (clock 1) (memory_use use_id (clock 0) m i t p k n r reason) m s

  unfoldable pub add_memory_usage :
      (use_id : String) (clock : ℕ → String)
      → (memory_id : String) → KnowledgeUseType
      → (project_id task_id session_id : String) → (retrieval_id : Option String)
      → (reason : String) → KnowledgeStore F
      → Result StoreError (KnowledgeUseRecord × MemoryRecord F × Bool) × KnowledgeStore F
  unfolding write_use load_memory
  add_memory_usage use_id clock i t p k n r reason s =
      loaded_use use_id clock i t p k n r reason (load_memory i s) s

  -- `list_memories({"status": "active"})`
  unfoldable pub active_memories : KnowledgeStore F → List (MemoryRecord F)
  active_memories s = select (λ (m : MemoryRecord F). is_active m.status) s.memories

  abbrev pub status_saved :
      MemoryStatus
      → String
      → MemoryRecord F
      → Result StoreError (Unit {0}) × KnowledgeStore F
      → Result StoreError (MemoryRecord F) × KnowledgeStore F
  status_saved before reason m (raise e, s) = (raise e, s)
  status_saved before reason m (ok _, s) = (
    ok m,
    append_event (append "memory_" (status_name m.status))
        (("memory_id", text m.memory_id)
          ∷ ("status_before", text (status_name before))
          ∷ ("status_after", text (status_name m.status))
          ∷ ("reason", text reason)
          ∷ [])
        s,
  )

  abbrev pub loaded_status :
      (now : String)
      → MemoryStatus
      → (reason : String) → Result StoreError (MemoryRecord F)
      → KnowledgeStore F
      → Result StoreError (MemoryRecord F) × KnowledgeStore F
  loaded_status now status reason (raise e) s = (raise e, s)
  loaded_status now status reason (ok m) s =
      let m' = record m { status = status; updated_at = now } in
      status_saved m.status reason m' (save_memory m' s)

  unfoldable pub update_memory_status :
      (now : String)
      → String
      → MemoryStatus
      → (reason : String) → KnowledgeStore F
      → Result StoreError (MemoryRecord F) × KnowledgeStore F
  unfolding save_memory append_event load_memory
  update_memory_status now i status reason s =
      let r = loaded_status now status reason (load_memory i s) s in
      if s.frozen_records
      then (
        raise (mutation_violation "update_memory_status" i),
        (violated "update_memory_status" i s).1,
      )
      else r

-- The signature by which `find_duplicate_memory` compares.
module _ (lib : Library) where
  open lib use {Float, lower, words}

  -- `_memory_signature` of the two is equal.
  unfoldable pub same_signature : MemoryRecord Float → MemoryRecord Float → Bool
  unfolding memory_kind_eq join sorted
  same_signature a b =
      memory_kind_eq a.kind b.kind
      && (str_eq (join " " (words (lower a.lesson))) (join " " (words (lower b.lesson)))
          && lists_eq (sorted a.recommended_actions) (sorted b.recommended_actions))

  unfoldable pub find_duplicate_memory :
      MemoryRecord Float → KnowledgeStore Float → Option (MemoryRecord Float)
  unfolding active_memories same_signature
  find_duplicate_memory m s =
      find (λ (n : MemoryRecord Float). same_signature n m) (active_memories s)
