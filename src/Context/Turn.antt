-- ===== src/Context/Turn.antt =====
-- src/longrun_agent/context/buffer.py: messages and `InteractionTurn`. `J` is the type of JSON
-- values: the parts of a message that the buffer copies and does not read.
use long_running_coding_agen.Prelude.{
  or_empty, sorted, ℕ, String, Bool, false, not, ◌&&◌, Option, none, some, List, [], ◌∷◌, ◌++◌, map,
  str_eq, if◌then◌else◌, elem, to_set, all, any, select, Result, ok, raise,
}

-- An entry of `tool_calls`: `call.get("id")`, and what else it holds.
pub record Call (J : Type 0) : Type 0 where
  pub id : Option String
  pub payload : J

-- A message: the values at the keys that the buffer reads, `_context_kind`, which is the key of
-- its own, and the values at all other keys.
pub record Message (J : Type 0) : Type 0 where
  pub role : String
  pub content : Option String
  pub tool_calls : List (Call J)
  pub tool_call_id : Option String
  pub context_kind : Option String
  pub fields : List (String × J)

pub data ContextItemStatus : Type 0 where
  active stale superseded compacted externalized : ContextItemStatus

pub record InteractionTurn (J : Type 0) : Type 0 where
  pub assistant_message : Message J
  pub tool_call_ids : List String
  pub step : ℕ
  pub created_at : String
  pub status : ContextItemStatus
  pub metadata : List (String × J)
  pub tool_result_messages : List (Message J)

pub data BufferError : Type 0 where
  unmatched_result duplicate_result : String → BufferError
  incomplete_turn : (missing : List String) → BufferError
  no_active_turn turn_is_active empty_ids : BufferError

abbrev pub is_subset : List String → List String → Bool
is_subset xs ys = all (λ x. elem x ys) xs

module _ {J : Type 0} where
  abbrev pub call_id : Message J → String
  call_id m = or_empty m.tool_call_id

  -- `existing.get("tool_call_id") == call_id`
  abbrev pub answers : String → Message J → Bool
  answers i m = elim m.tool_call_id [ none ↦ false | some j ↦ str_eq j i ]

  -- `{str(message.get("tool_call_id") or "") for message in self.tool_result_messages}`
  abbrev pub returned_ids : InteractionTurn J → List String
  returned_ids t = map call_id t.tool_result_messages

  -- `InteractionTurn.add_tool_result`
  unfoldable pub turn_add_result :
      Message J → InteractionTurn J → Result BufferError (InteractionTurn J)
  turn_add_result m t =
      if not (elem (call_id m) t.tool_call_ids)
      then raise (unmatched_result (call_id m))
      else if any (answers (call_id m)) t.tool_result_messages
      then raise (duplicate_result (call_id m))
      else ok (record t { tool_result_messages = t.tool_result_messages ++ m ∷ [] })

  -- `complete`: the two sets are equal.
  unfoldable pub complete : InteractionTurn J → Bool
  complete t =
      is_subset t.tool_call_ids (returned_ids t) && is_subset (returned_ids t) t.tool_call_ids

  -- `sorted(set(self.tool_call_ids) - {...})`
  unfoldable pub missing : InteractionTurn J → List String
  unfolding sorted
  missing t = sorted (to_set (select (λ i. not (elem i (returned_ids t))) t.tool_call_ids))

  -- `InteractionTurn.export_messages`
  unfoldable pub turn_export : InteractionTurn J → Result BufferError (List (Message J))
  unfolding complete missing
  turn_export t =
      if not (complete t)
      then raise (incomplete_turn (missing t))
      else ok (t.assistant_message ∷ t.tool_result_messages)
