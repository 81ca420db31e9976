-- ===== src/Lib.antt =====
-- The orchestrator of umbraco-mcp-ops: a Worker that moves issues and pull requests through their
-- lifecycle by labels, fires the routines (agent sessions) that work on them, and watches those.
--
-- The program. graph/ is pure: the labels, events and routines, the table of transitions and its
-- lookup `reduce` (graph/graph.ts), the translation of a webhook into an event
-- (graph/github/from-github.ts), the parser of a reported outcome (graph/outcomes.ts), the merge gate
-- (graph/github/merge-gate.ts), and the label operations of a rule (graph/github/to-github.ts).
-- worker/src/coordinate/ handles webhooks and alarms of one item with them: it reads the item's
-- labels as a state (`deriveState`), finds the rule, writes the labels, fires the routine with an alarm
-- for it, logs a row, and keeps in the item's storage what the next event needs
-- (worker/src/issue-coordinator.ts). worker/src/index.ts takes the requests and passes each on to its
-- item; worker/src/scheduler.ts asks every open item, at intervals, whether something is left to do.
--
-- The model.
--   Prelude             names of the libraries passed on, Boolean tests, list functions
--   Graph/Label, Event, Routine   graph/constants/: the enumerations with their spellings
--   Graph/Table, Reduce           graph/graph.ts and graph/github/to-github.ts
--   Graph/Json, Outcome, Signal   graph/outcomes.ts and graph/routines/from-routine.ts
--   Graph/Gate, Translate, ClosingRefs   the files of graph/github/ of these names
--   Graph/Equality, Order, Lifecycle, GateLaws, RoundTrip   theorems on these
--   Coordinate/Types, Steps       worker/src/coordinate/types.ts, and the monad of the handlers
--   Coordinate/Storage            the storage operations of worker/src/issue-coordinator.ts
--   Coordinate/DeriveState, Apply worker/src/coordinate/apply.ts
--   Coordinate/MergeGate, ReviewGate, OutcomeDedupe, Release, Stages   the files of these names
--   Coordinate/Rework, Reviewing, Events, Webhook   worker/src/coordinate/webhook.ts
--   Coordinate/Recovery, Watchdog worker/src/coordinate/watchdog.ts
--   Coordinate/RoutineSignal, Reconcile   the files of these names: a routine's signals, the sweep's question
--   Coordinate/Requests           `fetch` and `alarm` of worker/src/issue-coordinator.ts, one at a time
--   Scheduler                     worker/src/scheduler.ts: the sweep over the repos, and its alarm
--   Overrides                     the JSON overrides of worker/src/coordinate/types.ts (`capsFor`,
--                                 `watchdogOverrideFor`), and `deps` of worker/src/issue-coordinator.ts
--   RoutinesClient                worker/src/routines-client.ts: a routine's target and the attempts to fire it
--   Intake/Signature, Parse       worker/src/webhook-parse.ts
--   Intake/FrontDoor              the handlers of worker/src/index.ts
--   WorkLog, WorkLog/Entries      worker/src/work-log.ts, and the rows of worker/src/db/log-entries.ts
--   StatusTable, StatusTable/Gone `writeStatus` of worker/src/issue-coordinator.ts over the rows of
--                                 worker/src/db/issue-status.ts, and a theorem on them
--   Coordinate/Preserve           a rule for each way to build a step, and for each handler, by which an
--                                 invariant of the calls is one of the handlers
--   Coordinate/LabelEffects, ReadBack, Armed, Shadow, Redelivery, Fires, Expiry, Rounds,
--                                 ReviewRounds, Dedupe, Signals, BlockedOnce, Sweep, Renewal: theorems on the
--                                 coordinator; Coordinate/Yields, statements of a step where it returns
--   Scheduler/Chain, Unfunded, Budget, Paused   theorems on the scheduler
--   RoutinesClient/Attempts, Intake/SignatureExact, Guarded   theorems on the fires and on the front door
--   WorkLog/Codec, Tokens, Capped theorems on the tokens and the entries of the work log
--   Fixtures, Scenarios, SignalScenarios, SweepScenarios, IntakeScenarios, WorkLogScenarios: one issue and one PR, on which the theorems
--                                 are tried
--
-- A handler is a `Step`: it takes the world (the item's storage, the number of calls so far, and the
-- trace of calls that change something) to an answer, which is a value or a thrown failure, and the
-- world after it. What was done before a throw stays done. `await` is sequencing, `try` is `attempt`.
-- The outside (GitHub, the routines API, the database, the clock, the other items) is a record of
-- functions from the number of the call to an answer, so a theorem for every outside is one for every
-- sequence of answers and failures. The regular expressions, `JSON.parse` and string methods of the
-- JavaScript engine are a record of functions (`Engine`). A comment is its kind and the values that it
-- quotes. Numbers in payloads are natural or an unusual number.
--
-- Recursion is structural throughout, and no function has fuel: the re-reads of a PR's facts count down
-- from MERGEABLE_RETRIES, and the replay of comments goes down their list.
--
-- Not modelled: the sign-in of worker/src/auth.ts, the client of GitHub, the dashboard and, but for the
-- rows of the work log and of the status table, the database (worker/src/db/); the texts that a fire
-- sends (`dispatchText`) and that the work log is exported as; `answerInTime` of worker/src/index.ts, a
-- race with a timer; and a watchdog's override that is a fraction of minutes. The requests for one item
-- are serialised by the Durable Object, so a handler runs alone. Those of the work log are not: each is
-- in two steps, with others between them.
pub mod Prelude
pub mod Graph
pub mod Coordinate
pub mod Scheduler
pub mod Intake
pub mod RoutinesClient
pub mod Overrides
pub mod StatusTable
pub mod WorkLog
pub mod Fixtures
pub mod Scenarios
pub mod SignalScenarios
pub mod SweepScenarios
pub mod IntakeScenarios
pub mod WorkLogScenarios
