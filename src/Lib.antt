-- ===== src/Lib.antt =====
-- Risoluto takes issues from a tracker, works on each with an agent in a workspace of its own, and
-- retries the work or finishes it. This library models the core of the server, the code under src/
-- of the repository.
--
-- The parts, and how they meet. A poll reconciles the running and retrying issues with the tracker,
-- and then launches workers for issues that may be dispatched, in the order of dispatch. A launched
-- worker runs until its promise settles; its outcome is finalized, or a retry is queued, whose timer
-- launches it again. All of this works on one state, whose set of claims keeps an issue from being
-- worked on twice. A scan aborts silent workers. What the states of the tracker mean is decided by
-- the state policy, over a state machine. At the start, a recovery decides what becomes of
-- the attempts that were left running. The automations have a schedule and runs of their own, and a
-- notification is held back while it is a duplicate. The rest stands alone: the health of the
-- webhook, the merge policy, the router of repositories and the overrides of the configuration.
--
--   Core/Types         src/core/types: issues, models, the read parts of the configuration
--   State/Machine      src/state/machine.ts and defaults.ts: the class StateMachine as a record
--   State/Policy       src/state/policy.ts: terminal, active, gate and to-do states, columns
--   Orchestrator       src/orchestrator:
--     Runtime          runtime-types.ts and the records of core/types that are kept
--     Dispatch         core/dispatch.ts: the order of dispatch, blockers
--     State            core/lifecycle-state.ts, views.ts: the state and the operations on it
--     Launch           worker-launcher.ts: the dispatch check, the slots, the launch loop
--     Worker           worker-launcher.ts: launchWorker and the handler of the agent's events
--     Outcome          worker-outcome/prepare.ts, types.ts, core/snapshot-projection.ts
--     Finalize         worker-outcome/finalize.ts
--     Ended            worker-outcome/index.ts, worker-failure.ts, handleWorkerPromise
--     Retry            core/retry-policy.ts, retry-coordinator.ts; Retry/Due is the timer's callback
--     Reconcile        planRunningEntryReconciliation and the reconciliation of lifecycle.ts
--     Queue            the views of the queue, the details and the seeding: core/lifecycle-state.ts,
--                      lifecycle.ts
--     Stall, Watchdog  stall-detector.ts, watchdog.ts
--     Recovery         recovery.ts: what becomes of attempts that a stopped process left running
--     Facade           orchestrator.ts, issue-locator.ts, updateIssueModelSelection: the timer of the
--                      poll (Polling), the body of a tick (Tick) and the commands (Commands)
--     Invariant        the invariant of the state, and the runs of the orchestrator as steps
--   Webhook/Health     src/webhook/health-tracker.ts, with its runs in time
--   Git/MergePolicy    src/git/merge-policy.ts: whether a pull request may be merged
--   Git/RepoRouter     src/git/repo-router.ts: the repository of an issue
--   Config/Overlay     src/config/overlay-helpers.ts: paths and patches of the tree of overrides
--   Config/Store       src/config/overlay.ts: the store of overrides and its file
--   Linear/Pagination  src/linear/issue-pagination.ts: the pages and chunks of a query for issues
--   Notification       src/notification/manager.ts: the window of duplicates and the delivery
--   Automation         src/automation: scheduler.ts with the tasks of node-cron, runner.ts with the
--                      store of runs of src/persistence/sqlite/automation-store.ts
--   Persistence        src/persistence/sqlite: mappers.ts, and the store of attempts and checkpoints
--   Prelude            dictionaries for Map, lists without duplicates for Set, texts as code units
--
-- Correspondence. Names are those of the source in snake case. A Map is an association list in the
-- order of insertion, a Set a list, a number that counts or measures a natural number, where `-`
-- stops at zero as `Math.max(0, ..)` does where it stands in the source. A function that mutates the
-- state takes and returns it, and one that may throw also returns whether it did. `markDirty` sets
-- a field. Loops are recursion on the list they run over, except those over the pages of Linear and
-- the chunks of ids: these have fuel, and their theorem says how much is enough.
--
-- Services. The tracker, the attempt store, the workspaces, git, templates and the agent runner are
-- outside; what they answer is a field of `LaunchServices`, `OutcomeServices`, `RecoveryServices` or
-- `RunnerServices`, or a parameter of the component, and any answer is allowed, unless a theorem says
-- otherwise. The host's clock, dates and string collation are parameters too; the laws asked of
-- `localeCompare` are in `Dispatch.Host`, those of the tables of the database in `AttemptTable` and
-- `CheckpointTable`. The stable sort of the language's arrays is an insertion sort.
--
-- Awaits. An await gives way to other handlers in the source, while a handler is one step here, with
-- one exception: the timer of a retry asks the tracker in one state and goes on in a later one
-- (`retry_asked` and `retry_answered`), since what happens to the retry in between matters. That an
-- agent's events, polls and commands come between the launch of a worker and its end is in the steps.
--
-- Not modelled: logs, metrics, the records written to the attempt store and, but for those of the
-- automations, the events on the bus are output.
-- The lower case of a text is that of ASCII. The dashboard, the HTTP server, the clients of remote
-- services but for the pages of Linear, the rest of the database, Docker and the command line are not
-- modelled.
pub mod Automation
pub mod Config
pub mod Core
pub mod Git
pub mod Linear
pub mod Notification
pub mod Orchestrator
pub mod Persistence
pub mod Prelude
pub mod State
pub mod Webhook
