-- ===== src/Lib.antt =====
-- Semantask turns chat messages into tasks that a worker executes with tools. This library models
-- the part of it that decides and records what an execution may do.
--
-- Execution (packages/types/task/execution-state.ts and task.ts, apps/task-worker/services):
-- - Execution.Kind, State: the kinds of state and event of execution-state.ts as data types with
--   the source's constructors, and the projections `deriveLegacyLifecycleState` and
--   `deriveLegacyTaskStatus`. A constructor that two unions share is written with its type.
-- - Execution.Projection: state-projection.ts and state-divergence-check.ts.
-- - Execution.Transitions: the table `LEGAL_EXECUTION_TRANSITIONS` and the map built from it.
-- - Execution.Machine: `reduceExecutionState` of execution-state-machine.ts, one handler for each
--   event in Machine.Handlers. A thrown error is a value of `Result`. A run of the machine is the
--   indexed type `Run` of Machine.Steps.
-- - Execution.Shadow: execution-state-shadow.ts, the reduction that records every event.
-- - Execution.RetryShadow: retry-shadow.ts; the answer of the database is an argument.
-- - Execution.Cancellation: task-cancellation.ts, from the request to the finished task.
-- Policy (apps/task-worker/services, packages/services/config/execution.ts):
-- - Policy.Mode: the execution mode of a workspace and suggest-only-execution-gate.ts.
-- - Policy.Confidence: execution-confidence.ts and the overlay of the thresholds.
-- - Policy.PromptGuard: prompt-guard.ts, without the fencing of text.
-- - Policy.Decision: execution-policy.ts. Decision.Evaluate follows `evaluateExecutionPolicy` part by
--   part; Decision.Reasons says when a part adds a reason, Decision.Automatic what that makes of the
--   whole. A reason is a value that holds what the code writes into the text.
-- Lease (apps/task-worker/services/task-lease.ts, lease.service.ts):
-- - Lease: the operations, each an atomic function of one document, as `findOneAndUpdate` is.
-- - Lease.Exclusion: sequences of operations of several workers. Lease.Runner:
--   `withExecutionLease`, where the timer's ticks and the operations of others are a list of events.
-- Outbox (packages/db/models/OutboxEvent.ts, packages/services/outbox.helpers.ts, outbox.service.ts):
-- - Outbox: the events and the updates of one event or of all. Outbox.Claim: the filter and the
--   loop of `claimOutboxEvents`; the collection is a list, whose order stands for the choice of the
--   database among events of the same age. Outbox.Partition: the partitions. The database's hash of
--   an id is a parameter, a number that may be negative; its `$mod` keeps the sign.
-- - Outbox.Worker: outbox-processed-marker.ts, and the loop of apps/task-worker/index.ts where a
--   handler failed. A random jitter is an argument with its bounds.
-- Retry (apps/task-worker/services/retry-classifier.ts, retry-manager.ts, schedule-retry.ts,
-- retry-scheduler.ts):
-- - Retry.Classifier: the category of an error by the words of its message, and the backoff, whose
--   random factor is an argument. Retry.Manager: the loop of `RetryManager.execute`, on fuel that is
--   one more than the retries that are left. Retry.Schedule: `scheduleTaskRetry`.
-- - Retry.Scanner: `runRetryScannerOnce`; Retry.Scans and Retry.Drained: what a scan makes of the due
--   tasks. Whether the database has transactions, what becomes of an enqueuing and whether it takes a
--   reversal are parameters.
-- Auth (packages/auth/session/verify-session.ts, services/refresh.service.ts, repositories/session.repo.ts):
-- - Auth.Session: the stored sessions, a function of the id, and `verifySession`. Auth.Refresh:
--   `refreshService`, with the time of the verification apart from that of the write. The type of a
--   token, its signature and the hash are parameters; the hypotheses on them stand in the theorems
--   (a token is as jsonwebtoken documents it: it verifies to what was signed until its life, counted
--   in seconds from its signing, is over; a hash is no empty text; two given hashes differ). The lives
--   of a token and a session are those of packages/auth/config.ts.
-- RateLimit (apps/web/lib/utils/rateLimiter.ts):
-- - RateLimit: the limiters, the blocks and the backoff, over the maps of one process; what the
--   remote store answers is a parameter. RateLimit.Backoff: `enforceAuthRateLimit` at one time.
-- Workspace (packages/services/organization.service.ts, organization-invite.service.ts,
-- organization-quota.service.ts, organization-policy.service.ts):
-- - Workspace: the organizations and their memberships, lists of documents, and the assertions on
--   them; Workspace.Slug: `slugify`; Workspace.Members: the operations on members.
-- - Workspace.Quota, Workspace.Invites, Workspace.Accept: the limits, the invitations and their
--   acceptance. Workspace.Policy: the stored policy and its reading. Workspace.PolicyWrite and
--   Workspace.Grandfather: the versioned writes, of at most five attempts each, by recursion on the
--   attempts that are left; what other writers do between a read and its write is a parameter.
-- Access (packages/services/authorization.service.ts, tool-grant.service.ts):
-- - Access.Conversation and Access.Suggestion: who may read and change what. Access.Grants and
--   Access.GrantStore: the grants of tools; a grant reads one collection and writes to another, which
--   other calls may have changed in between; the theorems take the two to be the same.
-- In both, the id that a text denotes is a parameter, the validity and the writing of the database's
-- ids; it is none for the empty text.
-- Suggestions (packages/services/work-suggestion.service.ts):
-- - Suggestions: `acceptWorkSuggestion` and `dismissWorkSuggestion` on what the database holds of one
--   suggestion, a call cut into its steps at the database; Suggestions.Rules: what holds beside other
--   calls; Suggestions.Outcome and Suggestions.Once: any calls that take turns in any order.
-- Requests (packages/services/task-execution-request.service.ts, task-execution-enqueue.service.ts,
-- apps/task-worker/index.ts, apps/web/app/api/task-approvals/route.ts):
-- - Requests: the actions and events of executions and `enqueueTaskExecutionRequested`.
--   Requests.Service: `requestTaskExecution`, which asks Access for the permission and Policy.Mode for
--   the mode.
-- - Requests.Worker: the worker's gate, which asks Policy.Decision, the pending action, and the decision
--   of a reviewer. Requests.Calls: any sequence of these calls; Requests.Kept, Changes and InFlight: what
--   each keeps; Requests.Pending: what the sequences come to. The early part of
--   `processTaskExecutionRequested` and the execution under the lease are left out.
-- Prelude holds what the parts share: tests, lists and texts over the native numbers, the values of
-- JavaScript that reach the code as `unknown`, and results that may be errors.
--
-- The parts meet in the worker: it claims an event of the outbox, takes the lease of its task, asks
-- the policy, and sends the machine the events that the answers give; Requests follows a request from
-- the manager through the policy to the reviewer and back; a busy lease defers the event,
-- an error goes to the retry, and the cancellation reads the lease and drives the machine. The
-- authentication stands apart; it guards the web application's requests, whose services ask Access
-- what the user may do. Access asks Workspace for the membership, the state and the policy of the
-- organization, whose execution mode is the one that Policy reads.
--
-- Numbers. Times are whole milliseconds after 1970. A confidence is a whole number of ten
-- thousandths, so that 0.7 is 7000, and so is a random factor. The attempts of an event of the
-- outbox and the database's hash are integers (Prelude.Integers), since the code may take them below
-- zero. The loops are recursions on a list or on a count. Only the loop of Retry.Manager runs on
-- fuel, one more than the retries that are left, since each round but the last uses one of them. The
-- history of a task is bounded by the source's limit of entries. A text
-- is a list of code points where the code takes it apart: a slice counts code points, the source's
-- UTF-16 units.
--
-- Not modelled. Logging, metrics and the connection to the database have no result that the code
-- reads. The steps of the agent, the planner and the tools call a language model or a service. The
-- pages and routes of the web and mobile applications, the sockets, the other parts of the
-- authentication and the remaining services have no definitions here.
pub mod Prelude
pub mod Execution
pub mod Policy
pub mod Lease
pub mod Outbox
pub mod Retry
pub mod Auth
pub mod RateLimit
pub mod Workspace
pub mod Access
pub mod Suggestions
pub mod Requests
