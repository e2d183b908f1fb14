-- ===== src/Lib.antt =====
-- Cognition: the durable core of a program that runs one executive model for an individual, in
-- bounded cycles over a database.
--
-- The program. An individual sleeps until a wake is due. A cycle claims due wakes
-- (src/cognition/stores/cognition.py: claim_or_resume), asks the executive model for a decision
-- (start_invocation, record_result), checks the decision (src/cognition/policy/cognition.py),
-- applies it (apply_decision), which may schedule further wakes
-- (src/cognition/stores/attention.py), and goes on to another turn or finishes (finish_cycle). An
-- administrator pauses, resumes, quiesces or retires the individual
-- (src/cognition/runtime/lifecycle.py). What the model is asked is compiled within a token budget
-- (src/cognition/runtime/context.py: compile_request) under the active configuration
-- (src/cognition/stores/configuration.py), frozen with its turn (save_context) and read back
-- (load_request). Between cycles heartbeats (src/cognition/stores/autonomy.py) wake the individual.
-- Every operation joins its caller's transaction.
--
-- The files.
--   Prelude: names of the libraries, tests on numbers and texts, lists as tables.
--   Json, Protocol: JSON values and the contracts of src/cognition/protocols, with their validators
--   as Boolean tests; a version 1 decision is one without social operations.
--   Policy: validate_decision, and the lifecycle and authority of
--   src/cognition/policy/governance.py.
--   Store: exceptions as values, the rows of src/cognition/db/models, the database as a record of
--   tables, reads and guarded writes of identity, governance and evidence, and redaction.
--   Admin: apply_admin_operation, what a success did, and what no run of them can do.
--   Wakes: create_or_merge_pending_wake, what it stores, its keys, and what it leaves alone.
--   Cycle: the cycle store. Collaborators is the interface to the other stores; Stages, Invoke,
--   Result, Apply and Claim are the operations, under their names in the source; Finish, Attempts,
--   Outcome, Recorded, Decided, Applied, Rejected, Due, Chosen and Single are what is
--   shown of them.
--   Instances: the observations of runtime processes (src/cognition/stores/runtime.py).
--   Perception: the strict JSON check of observed sources (src/cognition/domain/perception.py).
--   Config: the behaviour that a configuration revision retains, its validators and hash; Revisions
--   is the replacement of the active revision, Revisions.Active what it leaves, Revisions.Supersede
--   that it succeeds on a sound history.
--   Context: the compiler of src/cognition/runtime/context.py. Order and Ranked sort the candidates
--   (_candidate_order) and keep one for each first reference, Pools and Pack say in which order they
--   are offered and how many fit, Events and Birth what an event shows, Attention is _compile_attention,
--   Control and Compile are compile_request; Budget and Prefix are what is shown of the two.
--   Frozen: save_context and load_request, and RoundTrip from a compilation to its reading.
--   Heartbeat: the timing policy over an interface of floats, and its bounds.
--   Autonomy: the heartbeat's bookkeeping (src/cognition/stores/autonomy.py) on the database with the
--   tables that the cycle store does not see. State reads and materializes, Account are the two
--   writers; Account.Leaves and Account.Once are what is shown of record_cycle_outcome.
--   Tests: sample databases, runs of the code on them, and each result applied to one.
--
-- The representation. A transaction that raises is rolled back, so an operation is a function from
-- a database to a result with the next database, and an error carries no state. A table is a list
-- of rows; a row is found by its key and rewritten in place. An identity is a number, the next ones
-- that `new_id` draws are a stream in the database. A moment and a delay are microseconds; adding a
-- delay raises past the last moment (Store.Db.add_delay). A JSON column that the code writes from a
-- validated contract holds the contract. SKIP LOCKED is a parameter of claiming that says which
-- wakes another transaction holds. The digest of a decision is a parameter. The loop
-- that empties the pools of candidates runs on the number of their members, which is enough since a
-- round takes one at least (Context.Pools); every other loop of the modelled code runs over a list or
-- a value, but the retry of create_or_merge_pending_wake, of which the model is the attempt that
-- finds the row or none. The canonical JSON text of a request, a section or a configuration, SHA-256,
-- the texts of moments and the contents of the contracts as JSON are the fields of Context.Rendering
-- and Config.Hashing.
--
-- Not modelled: the inbound and exploration scopes, the accounting of reflection and
-- exploration, and the personal state, which the cycle store calls, are the fields of
-- Collaborators, and the results that need it ask that these keep to their own tables; the loop of
-- src/cognition/runtime/cognition.py; the SQL retrieval of personal and lexical candidates, whose
-- results the compiler takes; the rest of perception, and birth; adapters, the command line and the
-- reports over SQL.
pub mod Prelude
pub mod Json
pub mod Protocol
pub mod Policy
pub mod Store
pub mod Admin
pub mod Wakes
pub mod Cycle
pub mod Tests
pub mod Instances
pub mod Perception
pub mod Config
pub mod Context
pub mod Frozen
pub mod Heartbeat
pub mod Autonomy
