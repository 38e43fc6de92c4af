-- ===== src/Lib.antt =====
-- The long-running coding agent of src/longrun_agent: a program that has a language model work on
-- a software project for many sessions. A planner splits the project into tasks (Planning), the
-- project state holds them and a selector says which one is next (State), a session on a task
-- reports through a channel (Control) and keeps its messages in a buffer (Context), a verdict on the
-- checks that ran before and after the work decides whether a task is done (Verification), and what
-- a session shows is kept for later ones as memories and skills (Knowledge).
--
-- What models what:
--   Prelude                   the names shared by all: tests on numbers, lists, strings, results
--   State.Schema              state/schema.py: tasks, projects and `validate_graph`
--   State.Transitions         state/transitions.py: the table of transitions and the controller
--   State.Selector            state/selector.py: `update_ready_tasks`, `select_next`
--   State.Aggregation         state/aggregation.py: the two loops over decomposed parents
--   Planning.Protocol         planning/protocol.py: drafts
--   Planning.Acyclic          planning/validator.py: `_assert_acyclic`
--   Planning.Validator        planning/validator.py: `validate_initial`, `validate_children`
--   Planning.Nodes            planning/validator.py: `to_task_nodes`, `children_to_task_nodes`
--   Verification.Schema       verification/schema.py: checks, results, verdicts, candidates
--   Verification.Transitions  verification/transitions.py: from results to the verdict
--   Verification.Integrity    verification/integrity.py: `IntegrityValidator`, with `Paths` for
--                             what it takes from Python
--   Control.Channel           control/channel.py: signals and the registration of candidates
--   Context.Turn              context/buffer.py: messages and `InteractionTurn`
--   Context.Buffer            context/buffer.py: `ContextBuffer`
--   Context.Window            context/buffer.py: `export_window` and the windows
--   Context.Pairing           the pairing of tool calls and results, which the buffer keeps
--   Agent.Protocol            protocol.py, and what the agent loop calls (`Environment`)
--   Agent.Session             the variables of the agent loop, and statements on them
--   Agent.Texts               agent/loop.py: reminders and corrections
--   Agent.Loop                agent/loop.py: tool turns, retries, counters
--   Agent.Steps               agent/loop.py: `run_with_controls`
--   Knowledge.Schema          knowledge/schema.py: evidence, reflections, memories, skills, uses
--   Knowledge.Config          config.py: the settings of the knowledge base
--   Knowledge.Library         what the knowledge base takes from Python
--   Knowledge.Store           knowledge/store.py: memories, their uses, conflicts, rejections
--   Knowledge.Gate            knowledge/conflict.py, and the gate of knowledge/memory_lifecycle.py
--   Knowledge.Reflection      knowledge/memory_lifecycle.py: triggers and `persist_candidate`
--   Knowledge.Skills          knowledge/skill_lifecycle.py: the validator, and skills in the store
--   Knowledge.SkillUses       knowledge/store.py: the uses of skills and their status
--   Knowledge.SkillLifecycle  knowledge/skill_lifecycle.py: `SkillLifecycleManager`
--   Knowledge.Arbitrator      knowledge/arbitrator.py: `arbitrate`
--   Samples                   concrete inputs, and the theorems at them
-- (all paths under src/longrun_agent/). The modules below each of these hold the theorems.
--
-- Records stand for the pydantic models, with the fields of the source; an enumeration is a data
-- type. Code that mutates an object takes the state and returns the new one, and code that raises
-- returns a `Result`: where an operation may change the state before it raises, the result stands
-- beside the state that it leaves. A set is a list that is only asked for its elements, and a
-- dictionary is the list of its entries, of which the last one for a key counts. The clock is an
-- argument: a function from the number of a reading to its text, in the order of the readings.
-- Python's integers are never negative in the parts that are modelled, and are natural numbers. The
-- floating-point rates of a summary are built by an arithmetic that is an argument (`Floats`),
-- since the code never reads them back. The knowledge base compares them: their type and its
-- order are in the record `Library`, with the string methods, regular expressions and digests.
-- A store of knowledge is the list of its records by file name: that a record is read back from
-- its JSON file as it was written is taken for granted of pydantic and the file system. Further,
-- the identifiers and times of new records are arguments. An event is kept without its time. The
-- tasks of a state are found by their identifier: the code holds references to them, and the first
-- task with the identifier is the one it means.
-- The agent loop runs between the model, the router of the tools, the clock, the manager of the
-- context and the callbacks of its caller, which are the fields of the record `Environment`, on a
-- state of their own; its buffer is the one of `Context`. A statement of the loop takes and returns
-- the variables of the function, and may raise an exception of the buffer.
--
-- Fuel: the search for cycles gets one unit more than there are drafts, and the loops of the
-- aggregation one more than there are tasks; both are proved to be enough.
-- The loops over steps and grace turns recurse on the number that is left of the settings. The loop
-- over retries has the test of the code, and recurses on the order of the retries that are left.
--
-- Not modelled: the language model and its replies, processes, files, the sandbox, prompts, logs,
-- most settings and the command line, which are input and output; and the constraints on fields
-- that pydantic checks (lengths and lower bounds), which is a library. The retrieval of knowledge
-- scores with floating-point numbers. The orchestrator, the pruning and the lifecycle of the
-- context, and the gateway of the verification are not modelled either.
pub mod Prelude
pub mod Agent
pub mod Context
pub mod Control
pub mod Knowledge
pub mod Planning
pub mod State
pub mod Verification
pub mod Samples
