-- ===== src/Lib.antt =====
-- get-magnet: the crawler's durable task queue, its workflows and their records, and the queue of
-- its plugins.
--
-- The program crawls pages by workflows. A run of a workflow is a tree of tasks in the tables
-- workflow_runs, crawl_tasks and task_attempts; workers claim tasks under a lease, do the work and
-- complete or fail their attempt; other workers recover what was left behind; users cancel and
-- retry. All of this is internal/repo/task_repo, whose functions are transactions on the database.
-- A run may have a budget (internal/crawlpolicy), which limits its tasks, pages, domains and time.
-- What a task does is in the workflow's document (internal/workflow): nodes that extract values
-- from a page, change and check them, and links of a listing that lead to further pages. A document
-- is checked when it is published. The values become records of a dataset (internal/record), which
-- are normalised, keyed and merged. What has been stored is handed to plugins by a second queue
-- under leases, the table plugin_tasks (internal/repo/plugin_repo and internal/plugin). Two small
-- parts stand by themselves: the lifecycle of a resource and an in-memory queue.
--
-- The files and the code that they model:
--   Common and its children: tests, tables as lists (SELECT, UPDATE and count(*) over a condition),
--     rows that change in place, texts (strings.TrimSpace), and results with an error.
--   CrawlPolicy: internal/crawlpolicy/budget.go (Defaults, Validate, Allows, FromDefinition).
--     CrawlPolicy/Laws and CrawlPolicy/Definitions hold its theorems.
--   Table/Status, Table/Rows: the status words of internal/repo/task_repo/tasks.go and the rows
--     of internal/db/table/resources.go.
--   Table/ResourceStatus: internal/db/table/magnet_status.go (the lifecycle of a resource).
--   Queue: internal/pkg/queue/queue.go, with its producers and consumers as steps in any order.
--   TaskRepo/Store: the state of the database, and the conditions that statements share (the
--     fence of an attempt, the condition of a claim).
--   TaskRepo/Summary: internal/repo/task_repo/run_summary.go (Add, Status).
--   TaskRepo/Backoff: BackoffDelay of tasks.go.
--   TaskRepo/Claims: ClaimNext, ClaimNextType, StartAttempt, RenewLease, CheckAttempt,
--     CheckAttemptID, WithActiveAttempt, WithActiveAttemptID, SaveAttemptDocument.
--   TaskRepo/Outcome: tryFinishRun, and coverage of budgets.go.
--   TaskRepo/Finish: Complete, completeStatus, Fail, CompleteLimited, limitEvent.
--   TaskRepo/Cancel: CancelTask, CancelRun.
--   TaskRepo/Budgets: internal/repo/task_repo/budgets.go (InitializeRunBudget, ReservePage,
--     CheckPageURL, reserveDomain, expireBudgetRun).
--   TaskRepo/Retry: CreateRun, RetryTask, RerunRun, UpdateRunSummary.
--   TaskRepo/Recovery: RecoverExpiredLeases, recoverExpiredTask, ExpireBudgetRuns.
--   TaskRepo/Create: CreateTask, CreateTaskForAttempt, WorkflowTaskByURL, childBudgetReason.
--   TaskRepo/Invariant and its children: the consistency of the tables, by transaction.
--   TaskRepo/Steps: histories of transactions, any of them in any order.
--   TaskRepo/Evolution and its children, TaskRepo/History: the state machine of tasks.
--   TaskRepo/Refusals, Fencing, Claiming, Rivals, Exclusion, Progress, Descent, Subtree, Cancelling,
--     Settling, Finishing, Verdict, Admitting, Answering, Creating, Recovering, Operations, Closing:
--     what the operations promise.
--   PluginTasks/Rows, Adding, Claiming, Ending, Listing: internal/repo/plugin_repo/tasks.go (Enqueue,
--     Cancel, Retry, MarkRunning; ClaimNext; Complete, SchedulePoll, Fail; ListFiltered, Metrics).
--     PluginTasks/Moves and Steps: how calls change the rows, and histories of calls.
--     PluginTasks/Invariant, Once, Delays, Failing, Attempts: what holds after any history, and of
--     attempts that fail.
--   PluginWorker: internal/plugin/worker.go (processSafely, processClaim) and registry.go, on top of
--     PluginTasks. PluginWorker/Settling: the end of a call.
--   Json: the values that encoding/json decodes into `any`; Json/Objects: maps of them.
--   Record: internal/record/model.go (Prepare, normalize, Hash). Record/Merging: Merge.
--     Record/LegacyKeys and Record/Integers: LegacyMagnetKey and strconv.ParseInt. Record/Uniting,
--     Repeating, Stable, Known: their theorems.
--   Workflow: what the parts of internal/workflow share (Node, FieldRule, stringValue, nodeApplies).
--     Workflow/Transform and Checks: ApplyTransform and ValidateValues of transform.go.
--     Workflow/JsonPath and Extract: extract.go. Workflow/Definition, Capabilities, Executable: the
--     checks of definition.go and capabilities.go. Workflow/Names: the field names that the checks
--     of publication compute. Workflow/Records: TraceRecordCandidates of records.go, which runs the
--     nodes and then Prepare. Workflow/Listing: listing.go and the page numbers of expandListing.
--     Workflow/Sound and its children, Accepted, Published, Supported: theorems on published workflows.
--   The modules named Examples: small states, and the theorems at them.
--
-- How the state corresponds: a table is the list of its rows, in the order of their insertion; a
-- transaction is a function on the state that gives an error, which rolls it back, or the new
-- state. What a function reads before its transaction holds its locks is read from a state of its
-- own, `early`, which may be any state; only a retry of a crawl task is taken as a step of a history
-- just when the task that it read has not changed since, because RetryTask uses what it read. The
-- functions on plugin tasks are single statements, but for Fail, whose statements are one step. One
-- clock gives all times of an operation, in nanoseconds. Times, ids and counters are natural
-- numbers; a number below zero is read as 0, where the source treats the two alike. Errors of the
-- database itself, a database that is not there, and cancelled contexts are no steps. JSON texts in
-- the rows are what they decode to, beside their text. A Go map is a list of its entries in the
-- order in which it is iterated.
--
-- Code that is not in the repository is a parameter: the parsing of URLs and the functions on text
-- and addresses that the policy calls are the interface `Urls`; regular expressions, selectors in
-- documents, letter case and printing are the interface `Engine`; parsing, encoding and digests of
-- records are the interface `Codec`; a plugin is any record of functions. Nothing is assumed of
-- them but, where a theorem says so, that strings.ToLower keeps the nine words of the operations.
--
-- The one fuel is that of the recursive query for a task's descendants: one round more than there
-- are tasks, which is enough, since each round but the last finds a task. All other loops are
-- recursions on what they run over.
--
-- Not modelled: MaintainLease (a goroutine that repeats RenewLease), ensureWorkflow (its result is
-- an argument), the lists of crawl tasks for the API; of internal/workflow the snapshots of a dry
-- run, ExtractListing, the fetching of pages, and the body of execute, which puts nodes, fetches
-- and the queue together; the goroutines and counters of the plugin worker; and the other
-- components: the repositories of workflows, datasets, records and resources, deliveries,
-- downloaders, the HTTP API and the web front end.
pub mod Common
pub mod CrawlPolicy
pub mod Table
pub mod Queue
pub mod TaskRepo
pub mod Json
pub mod Record
pub mod Workflow
pub mod PluginTasks
pub mod PluginWorker
