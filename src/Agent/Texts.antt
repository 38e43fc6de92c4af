-- ===== src/Agent/Texts.antt =====
-- The texts that the loop of src/longrun_agent/agent/loop.py adds to the buffer.
use Prim.Native.String.{◌++◌ as append}
use long_running_coding_agen.Prelude.{String, Bool, if◌then◌else◌}

abbrev pub three_turns_reminder : String
three_turns_reminder =
    "Three model turns remain. Stop exploration, complete verification, and reserve the final turn for a terminal control tool."

abbrev decide_first : String
decide_first =
    "First call report_knowledge_use with referenced IDs, or empty ID lists and a reason if none were used. "

abbrev pub final_knowledge_reminder : String
final_knowledge_reminder =
    append "Final model turn: retrieved knowledge is awaiting a Knowledge Decision. " (
      append decide_first (
        append
          "Then call request_task_completion if the acceptance criteria are satisfied; otherwise call report_progress "
          "with a concise handoff. Use report_blocker only for an external condition that another Session cannot fix."))

abbrev pub final_evidence_reminder : String
final_evidence_reminder =
    append
      "Final model turn: implementation and verification evidence already exists. Call request_task_completion "
      (append
        "if the acceptance criteria are satisfied; otherwise call report_progress with the exact remaining work. "
        "Do not report code defects or remaining edits as blockers.")

abbrev pub final_progress_reminder : String
final_progress_reminder =
    append
      "Final model turn: no completion evidence is recorded. Call report_progress with a concise handoff for the "
      "next Session. Use report_blocker only for a missing external permission, dependency, service, or infrastructure."

abbrev pub without_signal_correction : String
without_signal_correction =
    "FinalAnswer does not change Project Task state. Call exactly one terminal control tool: request_task_completion, report_blocker, or request_decomposition."

abbrev pub invalid_response_correction : String
invalid_response_correction = "Return valid tool calls or a final answer."

-- `_terminal_grace_reminder`, for `_knowledge_decision_pending()`
abbrev pub terminal_grace_reminder : Bool → String
terminal_grace_reminder pending =
    if pending
    then append
        "Verification evidence is complete and retrieved knowledge is still awaiting a Knowledge Decision. "
        (append decide_first
          "Then call request_task_completion if the acceptance criteria are satisfied; otherwise call report_progress.")
    else append "Verification evidence is complete. A completion candidate has been generated. " (
        append
          "Confirm completion by calling request_task_completion. Otherwise call report_progress with the exact remaining work. "
          "Do not perform more exploration.")

abbrev pub generated_test_workflow_reminder : String
generated_test_workflow_reminder =
    append "You have not registered an issue-reproduction test. Stop broad repository exploration. "
      "Create a focused test, run it, and call register_test_candidate before continuing."

abbrev pub generated_test_final_checklist : String
generated_test_final_checklist =
    append
      "Final generated-test checklist: a focused issue-reproduction test must have been run and registered, "
      "and its validation result inspected. A generated test does not replace the frozen verification contract."
