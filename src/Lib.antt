-- ===== src/Lib.antt =====
-- Verification of pici, a self-hosted CI server. What the server does with a workflow: a webhook, a
-- user or a schedule asks for a run (internal/handlers/webhooks.go, internal/app/executions); the
-- runner queues it as a row of the table of executions (internal/ci/runner.go,
-- internal/stores/sqlite.go); a worker claims the oldest row, reads the workflow's ci.yml
-- (internal/ci/config.go), puts its steps in order and runs them in parallel
-- (internal/ci/step.go), with logs behind a writer that hides secrets (internal/mask/mask.go); a
-- collector removes what is no longer needed (internal/gc/gc.go).
--
-- The files, and what they model:
--   Base        names of the libraries, tests on numbers and texts, lists, maps, Go's integers
--   Records     internal/stores/models.go and enums.go: Project, StepResult, Execution, the enums
--   Mask        internal/mask/mask.go: Redact, Writer, NewWriter, Write, Flush. A log is a list of
--               bytes, and the writer's state the list of writes the sink has accepted, the secrets
--               and the buffer; the sink may refuse any write.
--   Config      internal/ci/config.go (Config/Parse: On.UnmarshalYAML, setEvent, Parse), and
--               internal/ci/paths.go and schedule.go (Config/Triggers)
--   Steps       internal/ci/step.go: orderSteps. Its queue loop runs on fuel, twice the number of
--               steps: a round takes one name off the queue, and a name comes into it at the start
--               or when its count of open dependencies gets to zero.
--   Executor    internal/ci/step.go: executeSteps, as a machine whose events are the rounds of the
--               launching loop, the cancellation of the context, and the turns of goroutines. A
--               turn is one critical section, one blocking call, or the part between two of them,
--               so every interleaving is a list of events.
--   StepRun     internal/ci/step.go: runStep, runStepOnce, stepCommand, interpreterCommand
--   Store       internal/stores/sqlite.go: the rows of the table of executions, the sequences of
--               the projects, and one function for each statement on them
--   Runner      internal/ci/runner.go: Enqueue, EnqueueSnapshot, EnqueueRebuild, EnqueueRetry,
--               hasRetryableSteps, carryOverSteps, stepError
--   Run         internal/ci/runner.go: run, materializeSource, finish; internal/ci/sandbox.go:
--               workflowNeedsSandbox, startSandbox, stopSandbox. A stage of run goes on or ends in
--               finish with an error, as its early returns do. What is outside of the program (the
--               clone, the container engine, the decoders) answers by a record of functions, Outside;
--               what it is told is a list of effects. The goroutines of the steps are those of Executor, on
--               a list of events; run has no end while they are still under way.
--   Accounts    internal/stores/sqlite.go: the statements on users, sessions and api_tokens, with the
--               keys and foreign keys that make an insertion fail. The OAuth tokens are stored in
--               the clear: the cipher is left out.
--   Auth        internal/auth/auth.go: Login, CreateSession, AuthenticateSession, CreateAPIToken,
--               AuthenticateToken (Auth), accessToken, Revalidate (Auth/Revalidation). The provider,
--               the hash and the random numbers are parameters. Judged, Everyone and Whole compare a
--               revalidation with a judgement of each user by itself.
--   Archive     internal/archive/archive.go: ExtractTarGz on a disk that is a list of places with
--               their nodes. tar and gzip are a parameter, which says what is in a limited stream, and
--               so is the place where the kernel finds the target of a hard link. The other system
--               calls take a place as its names: in front of them securePath has seen that no parent
--               is a link.
--   Schedules   internal/cron/cron.go: Next; internal/ci/schedule.go: SyncSchedule and
--               SyncProjectSchedules over what they call of stores.Store, a record of operations, with
--               the table of internal/stores/sqlite.go as the store
--   Scheduler   internal/scheduler/scheduler.go: tick. Times are counted from Go's zero time, which is 0.
--   Workspace   internal/workspace/workspace.go: Source, LogSource, the file name of StepLog
--   Executions  internal/app/executions/executions.go: Get, Create, Cancel, Rebuild, Retry
--   Webhooks    internal/handlers/webhooks.go: both providers, from the parsed body on;
--               Webhooks/Wants writes down by itself when a workflow is to run
--   Gc          internal/gc/gc.go: cleanupWorkspaces, cleanupLogs, cleanupSandboxes, expired
--   Examples    runs on small inputs, and the theorems at an input
--
-- How state is written: a table is a list of rows in the order of insertion, and an operation
-- returns the new table. Ids and times are natural numbers, so neither the int64 of an id nor that
-- of a time wraps, and a step's count of retries is an unbounded integer. An operation that can fail
-- returns an Option or a sum of its own; the errors of the database that come from no constraint
-- (a lost connection, a full disk) have no place in it, but for that of WorkspaceRetained in Gc.
--
-- Parameters stand for what the repository does not contain: doublestar.Match, the YAML decoders,
-- robfig/cron, the container engine, functions of Go's standard library on paths and texts, the file
-- system, the parsers and signature checks of the two providers, and the clock.
--
-- Not modelled: in executeSteps the time stamps and timeouts of live progress; of runStep the text
-- of the log; in run the environment, the caches, the copies of logs and artifacts on a retry, and
-- the errors of the notifications, which it only logs; the worker loop; the statements on projects
-- and variables; the requests of the OAuth providers; PostgreSQL; Docker;
-- HTTP and the web pages. The executor keeps statuses by name where the code keeps them by position,
-- which is the same for distinct names. In a revalidation the provider answers by the value of the
-- token it is given, so one answer does not depend on the requests before it; the
-- clock is read anew in each user's round.
pub mod Base
pub mod Mask
pub mod Records
pub mod Config
pub mod Steps
pub mod Executor
pub mod Store
pub mod Runner
pub mod StepRun
pub mod Run
pub mod Webhooks
pub mod Accounts
pub mod Auth
pub mod Archive
pub mod Workspace
pub mod Schedules
pub mod Scheduler
pub mod Executions
pub mod Gc
pub mod Examples
