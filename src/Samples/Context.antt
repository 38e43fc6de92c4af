-- ===== src/Samples/Context.antt =====
-- A small buffer, and the theorems of `Context` at it.
use long_running_coding_agen.Prelude.{
  true, ok, elem, all, any, ℕ, String, ◌≡◌, refl, none, some, List, [], ◌∷◌,
}
use long_running_coding_agen.Context.Turn.{turn_add_result, complete, Message, InteractionTurn}
use long_running_coding_agen.Context.Buffer.{
  add_assistant_tool_turn, add_tool_result, finalize_turn, Item, message, turn, ContextBuffer,
  plain, new_turn, from_task, turns_of, messages_of, last_items,
}
use long_running_coding_agen.Context.Window.{window_items}
use long_running_coding_agen.Context.Window.Recent.{window_items-recent_turns}
use long_running_coding_agen.Context.Pairing.{IsValid}
use long_running_coding_agen.Context.Pairing.Export.{obeys, export_window-obeys}
use long_running_coding_agen.Context.Window.{export_window}
use long_running_coding_agen.Context.Pairing.Operations.{
  finalize, answer, start, after, from_task-IsValid, after-IsValid,
}

abbrev calling : String → Message ℕ
calling i = record {
  role = "assistant";
  content = none;
  tool_calls = record { id = some i; payload = 0 } ∷ [];
  tool_call_id = none;
  context_kind = none;
  fields = [];
}

abbrev answering : String → Message ℕ
answering i = record {
  role = "tool";
  content = some "done";
  tool_calls = [];
  tool_call_id = some i;
  context_kind = none;
  fields = [];
}

abbrev asked : String → InteractionTurn ℕ
asked i = record (new_turn "t" (calling i) 1 []) { tool_result_messages = answering i ∷ [] }

-- Two turns, and a reminder between them.
abbrev history : List (Item ℕ)
history = turn (asked "a") ∷ message (plain "user" "go on" none) ∷ turn (asked "b") ∷ []

abbrev idle : ContextBuffer ℕ
unfolding from_task
idle = from_task "system" "task"

window_items-recent_turns_example :
    (messages_of (window_items 1 history) ≡ messages_of history)
    × (turns_of (window_items 1 history) ≡ last_items 1 (turns_of history))
window_items-recent_turns_example = window_items-recent_turns 1 history

started-IsValid : IsValid (after (start "t" (calling "a") 1 []) idle)
started-IsValid =
    after-IsValid (start "t" (calling "a") 1 []) idle refl
      (unfold from_task in from_task-IsValid "system" "task")

after-IsValid_example : IsValid (after (start "t" (calling "a") 1 []) idle)
after-IsValid_example =
    after-IsValid (start "t" (calling "a") 1 []) idle refl
      (unfold from_task in from_task-IsValid "system" "task")

-- The messages of a turn with one call and its result, behind the anchors.
abbrev finished : ContextBuffer ℕ
finished =
    after finalize (after (answer (answering "a")) (after (start "t" (calling "a") 1 []) idle))

finished-IsValid : IsValid finished
finished-IsValid =
    after-IsValid finalize
      (after (answer (answering "a")) (after (start "t" (calling "a") 1 []) idle)) tt
      (after-IsValid (answer (answering "a")) (after (start "t" (calling "a") 1 []) idle) tt
        started-IsValid)

export_window-obeys_example :
    (ms : List (Message ℕ)) × (export_window (some 1) true finished ≡ ok ms) × (obeys [] ms ≡ true)
unfolding add_assistant_tool_turn add_tool_result finalize_turn turn_add_result complete elem all
    any idle
export_window-obeys_example = export_window-obeys (some 1) true finished finished-IsValid refl
