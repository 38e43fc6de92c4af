-- ===== src/Context/Window.antt =====
-- src/longrun_agent/context/buffer.py: what `ContextBuffer` exports, whole or as a window on the
-- most recent turns.
pub mod Recent
use long_running_coding_agen.Prelude.{
  select, starts_with, not, ℕ, ◌+◌, ◌-◌, String, Bool, true, false, not, ◌||◌, Option, none, some,
  List, [], ◌∷◌, ◌++◌, map, if◌then◌else◌, ◌==◌, leb, get_elem?, length, Result, ok, raise, ◌>>=◌,
}
use long_running_coding_agen.Context.Turn.{
  Message, InteractionTurn, BufferError, turn_is_active, turn_export,
}
use long_running_coding_agen.Context.Buffer.{
  Item, message, turn, ContextBuffer, is_message, turns_of, messages_of, last_items,
}

module _ {J : Type 0} where
  -- `[index for index, item in enumerate(self._items) if isinstance(item, InteractionTurn)]`, from
  -- the index `j` on
  unfoldable pub turn_indexes : ℕ → List (Item J) → List ℕ
  turn_indexes j [] = []
  turn_indexes j (message m ∷ is) = turn_indexes (j + 1) is
  turn_indexes j (turn t ∷ is) = j ∷ turn_indexes (j + 1) is

  -- `[item for index, item in enumerate(self._items) if index >= keep_from or isinstance(item, dict)]`
  unfoldable pub keep : (keep_from j : ℕ) → List (Item J) → List (Item J)
  keep k j [] = []
  keep k j (i ∷ is) =
      let rest = keep k (j + 1) is in if leb k j || is_message i then i ∷ rest else rest

  unfoldable pub only_messages : List (Item J) → List (Item J)
  only_messages [] = []
  only_messages (message m ∷ is) = message m ∷ only_messages is
  only_messages (turn t ∷ is) = only_messages is

  abbrev pub kept : Option ℕ → List (Item J) → List (Item J)
  kept none is = []
  kept (some k) is = keep k 0 is

  -- `_window_items`. The index `[-recent_turns]` counts from the end, and is in range here.
  unfoldable pub window_items : (recent_turns : ℕ) → List (Item J) → List (Item J)
  unfolding turn_indexes keep only_messages
  window_items n is =
      let indexes = turn_indexes 0 is in
      if n == 0
      then only_messages is
      else if leb (length indexes) n
      then is
      else kept (get_elem? indexes (length indexes - n)) is

  -- `_strip_context_fields`
  unfoldable pub strip_context_fields : Message J → Message J
  unfolding select starts_with
  strip_context_fields m = record m {
    context_kind = none;
    fields = select (λ f. not (starts_with "_context_" f.0)) m.fields;
  }

  -- The loop over the items.
  unfoldable pub export_items :
      (include_messages : Bool) → List (Item J) → Result BufferError (List (Message J))
  unfolding turn_export
  export_items include [] = ok []
  export_items include (message m ∷ is) =
      export_items include is >>= λ ms. ok (if include then m ∷ ms else ms)
  export_items include (turn t ∷ is) =
      turn_export t >>= λ ts. export_items include is >>= λ ms. ok (ts ++ ms)

  abbrev pub windowed : Option ℕ → List (Item J) → List (Item J)
  windowed none is = is
  windowed (some n) is = window_items n is

  abbrev pub exported :
      Option (InteractionTurn J)
      → Option ℕ
      → (include_messages : Bool) → ContextBuffer J
      → Result BufferError (List (Message J))
  exported (some t) recent include b = raise turn_is_active
  exported none recent include b = export_items include (windowed recent b.items) >>= λ ms.
      ok (map strip_context_fields (b.system_message ∷ b.task_anchor_message ∷ ms))

  unfoldable pub export_window :
      (recent_turns : Option ℕ)
      → (include_messages : Bool) → ContextBuffer J
      → Result BufferError (List (Message J))
  export_window recent include b = exported b.active_turn recent include b

  unfoldable pub export_messages : ContextBuffer J → Result BufferError (List (Message J))
  unfolding export_window
  export_messages b = export_window none true b

  unfoldable pub recent_turns : (count : ℕ) → ContextBuffer J → List (InteractionTurn J)
  unfolding last_items turns_of
  recent_turns n b = last_items n (turns_of b.items)
