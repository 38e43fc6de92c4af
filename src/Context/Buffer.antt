-- ===== src/Context/Buffer.antt =====
-- src/longrun_agent/context/buffer.py: `ContextBuffer`.
use long_running_coding_agen.Prelude.{
  or_empty, suc, ℕ, ◌+◌, String, Bool, true, false, not, ◌||◌, Option, none, some, List, [], ◌∷◌,
  ◌++◌, map, str_eq, if◌then◌else◌, leb, any, is_empty, length, Result, ok, raise,
}
use long_running_coding_agen.Context.Turn.{
  Message, Call, InteractionTurn, ContextItemStatus, BufferError, incomplete_turn, no_active_turn,
  turn_is_active, empty_ids, turn_add_result, complete, missing,
}

-- `dict[str, Any] | InteractionTurn`
pub data Item (J : Type 0) : Type 0 where
  message : Message J → Item J
  turn : InteractionTurn J → Item J

pub record ContextBuffer (J : Type 0) : Type 0 where
  pub system_message : Message J
  pub task_anchor_message : Message J
  pub items : List (Item J)
  pub active_turn : Option (InteractionTurn J)
  pub context_segment_id : ℕ
  pub context_reset_count : ℕ

abbrev pub plain : {J : Type 0} → (role content : String) (kind : Option String) → Message J
plain role content kind = record {
  role = role;
  content = some content;
  tool_calls = [];
  tool_call_id = none;
  context_kind = kind;
  fields = [];
}

-- `items[-n:]`, for a positive `n`
unfoldable pub last_items {ℓ} : {A : Type ℓ} → ℕ → List A → List A
last_items n [] = []
last_items n (x ∷ xs) =
    let rest = last_items n xs in if leb (suc (length xs)) n then x ∷ xs else rest

-- What an operation returns or raises, with the buffer that it leaves.
abbrev pub Step : Type 0 → Type 0
Step J = Result BufferError (Unit {0}) × ContextBuffer J

module _ {J : Type 0} where
  abbrev pub is_message : Item J → Bool
  is_message (message m) = true
  is_message (turn t) = false

  -- `[item for item in items if isinstance(item, InteractionTurn)]`
  unfoldable pub turns_of : List (Item J) → List (InteractionTurn J)
  turns_of [] = []
  turns_of (message m ∷ is) = turns_of is
  turns_of (turn t ∷ is) = t ∷ turns_of is

  unfoldable pub messages_of : List (Item J) → List (Message J)
  messages_of [] = []
  messages_of (message m ∷ is) = m ∷ messages_of is
  messages_of (turn t ∷ is) = messages_of is

  -- `__init__`
  unfoldable pub new_buffer : (system_message task_anchor_message : Message J) → ContextBuffer J
  new_buffer s a = record {
    system_message = s;
    task_anchor_message = a;
    items = [];
    active_turn = none;
    context_segment_id = 1;
    context_reset_count = 0;
  }

  unfoldable pub from_task : (system_prompt task : String) → ContextBuffer J
  unfolding new_buffer
  from_task system_prompt task =
      new_buffer (plain "system" system_prompt none) (plain "user" task none)

  -- A change `f` behind `_ensure_no_active_turn()`; the first argument is `_active_turn`.
  abbrev pub changed :
      Option (InteractionTurn J) → (ContextBuffer J → ContextBuffer J) → ContextBuffer J → Step J
  changed none f b = (ok tt, f b)
  changed (some t) f b = (raise turn_is_active, b)

  abbrev pub when_idle : (ContextBuffer J → ContextBuffer J) → ContextBuffer J → Step J
  when_idle f b = changed b.active_turn f b

  abbrev pub append : Item J → ContextBuffer J → ContextBuffer J
  append i b = record b { items = b.items ++ i ∷ [] }

  abbrev pub call_ids : Message J → List String
  call_ids m = map (λ (c : Call J). or_empty c.id) m.tool_calls

  -- `now` is the reading of the clock for `created_at`.
  abbrev pub new_turn : (now : String) → Message J → ℕ → List (String × J) → InteractionTurn J
  new_turn now m step metadata = record {
    assistant_message = m;
    tool_call_ids = call_ids m;
    step = step;
    created_at = now;
    status = ContextItemStatus.active;
    metadata = metadata;
    tool_result_messages = [];
  }

  abbrev pub started :
      Option (InteractionTurn J)
      → (now : String) → Message J
      → (step : ℕ) → (metadata : List (String × J)) → ContextBuffer J
      → Step J
  started (some t) now m step metadata b = (raise turn_is_active, b)
  started none now m step metadata b =
      if is_empty (call_ids m) || any (λ i. str_eq i "") (call_ids m)
      then (raise empty_ids, b)
      else (ok tt, record b { active_turn = some (new_turn now m step metadata) })

  unfoldable pub add_assistant_tool_turn :
      (now : String)
      → Message J
      → (step : ℕ) → (metadata : List (String × J)) → ContextBuffer J
      → Step J
  add_assistant_tool_turn now m step metadata b = started b.active_turn now m step metadata b

  abbrev pub answered : Result BufferError (InteractionTurn J) → ContextBuffer J → Step J
  answered (raise e) b = (raise e, b)
  answered (ok t) b = (ok tt, record b { active_turn = some t })

  abbrev pub answered_turn : Option (InteractionTurn J) → Message J → ContextBuffer J → Step J
  answered_turn none m b = (raise no_active_turn, b)
  answered_turn (some t) m b = answered (turn_add_result m t) b

  unfoldable pub add_tool_result : Message J → ContextBuffer J → Step J
  add_tool_result m b = answered_turn b.active_turn m b

  abbrev pub finalized : Option (InteractionTurn J) → ContextBuffer J → Step J
  finalized none b = (raise no_active_turn, b)
  finalized (some t) b =
      if not (complete t)
      then (raise (incomplete_turn (missing t)), b)
      else (ok tt, record b { items = b.items ++ turn t ∷ []; active_turn = none })

  unfoldable pub finalize_turn : ContextBuffer J → Step J
  finalize_turn b = finalized b.active_turn b

  unfoldable pub add_user_reminder : String → ContextBuffer J → Step J
  add_user_reminder content =
      when_idle (append (message (plain "user" content (some "user_reminder"))))

  unfoldable pub add_protocol_correction : String → ContextBuffer J → Step J
  add_protocol_correction content =
      when_idle (append (message (plain "user" content (some "protocol_correction"))))

  unfoldable pub add_assistant_final : Message J → ContextBuffer J → Step J
  add_assistant_final m = when_idle (append (message m))

  unfoldable pub replace_items : List (Item J) → ContextBuffer J → Step J
  replace_items is = when_idle (λ b. record b { items = is })

  abbrev pub next_segment : ContextBuffer J → ContextBuffer J
  next_segment b = record b {
    context_segment_id = b.context_segment_id + 1;
    context_reset_count = b.context_reset_count + 1;
  }

  -- The value `self.context_segment_id` that a call returns.
  abbrev pub numbered : Step J → Result BufferError ℕ × ContextBuffer J
  numbered (raise e, b) = (raise e, b)
  numbered (ok u, b) = (ok b.context_segment_id, b)

  unfoldable pub start_new_segment : ContextBuffer J → Result BufferError ℕ × ContextBuffer J
  start_new_segment b = numbered (when_idle next_segment b)

  abbrev pub handoff_items : Option (Message J) → List (Item J)
  handoff_items none = []
  handoff_items (some m) = message m ∷ []

  unfoldable pub reset_to :
      (task_anchor_message : Message J)
      → (handoff_message : Option (Message J)) → (instruction_message : Message J) → ContextBuffer J
      → Result BufferError ℕ × ContextBuffer J
  reset_to anchor handoff instruction b = numbered (
      when_idle
        (λ c. next_segment (record c {
          task_anchor_message = anchor;
          items = handoff_items handoff ++ message instruction ∷ [];
        }))
        b)
