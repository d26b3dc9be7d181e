-- ===== src/TaskRepo/Outcome.antt =====
-- `tryFinishRun` of internal/repo/task_repo/tasks.go and `coverage` of budgets.go: the end of a
-- run whose tasks have all ended.
pub mod Counts
use get_magnet.Common.{
  ℕ, ◌==◌, ltb, leb, max, Bool, true, false, not, ◌&&◌, Option, none, some, str_eq, List, [], ◌∷◌,
  map, if◌then◌else◌, select, exists, count, update,
}
use get_magnet.Table.Status.{is_active_task, is_limited_task, is_succeeded_attempt, RunStatus}
use get_magnet.Table.Rows.{
  WorkflowRun, CrawlTask, TaskAttempt, Snapshot, Coverage, RunSummary, Summary, Observation,
  Decision, LimitRow, Reason,
}
use get_magnet.TaskRepo.Store.{Db, find_task, run_is_active}
use get_magnet.TaskRepo.Summary.{empty_summary, add, status_of, aggregate_run_status}

-- ORDER BY attempt_no DESC LIMIT 1 over the task's succeeded attempts; of equal numbers the first.
unfoldable pub latest_success : ℕ → List TaskAttempt → Option TaskAttempt
latest_success task_id [] = none
latest_success task_id (a ∷ as') =
    let rest = latest_success task_id as' in
    if (a.task_id == task_id) && is_succeeded_attempt a.status
    then (elim rest [
      | none ↦ some a
      | some b ↦ if leb b.attempt_no a.attempt_no then some a else some b
    ])
    else rest

unfoldable pub latest_response : List TaskAttempt → CrawlTask → Option Snapshot
unfolding latest_success
latest_response attempts t = elim (latest_success t.id attempts) [
  | none ↦ none
  | some a ↦ some a.response_snapshot
]

-- The loop over the run's tasks.
unfoldable pub summarize : List TaskAttempt → List CrawlTask → RunSummary → RunSummary
unfolding add latest_response
summarize attempts [] s = s
summarize attempts (t ∷ ts) s = summarize attempts ts (add t.status (latest_response attempts t) s)

abbrev pub in_run : ℕ → CrawlTask → Bool
in_run run_id t = t.run_id == run_id

abbrev is_some {ℓ} : {A : Type ℓ} → Option A → Bool
is_some none = false
is_some (some _) = true

unfoldable pub deepest : List CrawlTask → ℕ
deepest [] = 0
deepest (t ∷ ts) = max t.depth (deepest ts)

abbrev pub same_reason : Reason → Reason → Bool
same_reason Reason.max_duration_seconds Reason.max_duration_seconds = true
same_reason Reason.allowed_domains Reason.allowed_domains = true
same_reason Reason.max_depth Reason.max_depth = true
same_reason Reason.max_tasks Reason.max_tasks = true
same_reason Reason.max_discovered_per_page Reason.max_discovered_per_page = true
same_reason Reason.max_pages Reason.max_pages = true
same_reason Reason.max_domains Reason.max_domains = true
same_reason _ _ = false

abbrev pub all_reasons : List Reason
all_reasons =
    Reason.max_duration_seconds ∷ Reason.allowed_domains ∷ Reason.max_depth ∷ Reason.max_tasks
    ∷ Reason.max_discovered_per_page ∷ Reason.max_pages ∷ Reason.max_domains ∷ []

-- GROUP BY reason: a reason with no event has no entry.
unfoldable pub reason_counts : ℕ → List LimitRow → List (Reason × ℕ)
reason_counts run_id events =
    select (λ e. ltb 0 e.1)
      (map (λ r. (r, count (λ e. (e.run_id == run_id) && same_reason e.reason r) events))
        all_reasons)

-- The order of the hostnames (ORDER BY hostname) is left as the table's.
unfoldable pub coverage : ℕ → Db → Coverage
unfolding deepest reason_counts
coverage run_id db =
    let tasks = select (in_run run_id) db.tasks in
    record {
      tasks = count (in_run run_id) db.tasks;
      pages_reserved = count (λ t. t.page_reserved) tasks;
      pages_with_documents = count (λ t. is_some t.output_document_id) tasks;
      max_depth = deepest tasks;
      domains = map (λ d. d.hostname) (select (λ d. d.run_id == run_id) db.run_domains);
      limited_tasks = count (λ t. is_limited_task t.status) tasks;
      limit_reasons = reason_counts run_id db.limit_events;
    }

abbrev is_decision : Decision → Decision → Bool
is_decision Decision.created Decision.created = true
is_decision Decision.updated Decision.updated = true
is_decision Decision.unchanged Decision.unchanged = true
is_decision _ _ = false

-- The durable observations of the run take the place of the counts, if there are any.
unfoldable pub count_observations : ℕ → List Observation → RunSummary → RunSummary
count_observations run_id observations s =
    let mine = select (λ o. o.run_id == run_id) observations in
    let decided = λ (d : Decision). count (λ o. is_decision o.decision d) mine in
    let records = count (λ o. o.run_id == run_id) observations in
    if records == 0 then s else record s {
      records = records;
      created = decided Decision.created;
      updated = decided Decision.updated;
      unchanged = decided Decision.unchanged;
    }

abbrev pub is_workflow_task : ℕ → CrawlTask → Bool
is_workflow_task run_id t = (t.run_id == run_id) && str_eq t.task_type "workflow"

-- The summary of a run at its end, and whether it is a workflow's.
unfoldable pub run_summary : ℕ → Db → RunSummary
unfolding summarize coverage count_observations
run_summary run_id db =
    let s = summarize db.attempts (select (in_run run_id) db.tasks) empty_summary in
    if exists (is_workflow_task run_id) db.tasks
    then count_observations run_id db.observations (record s { coverage = coverage run_id db })
    else s

unfoldable pub final_status : ℕ → Db → RunStatus
unfolding run_summary
final_status run_id db =
    let s = run_summary run_id db in
    if exists (is_workflow_task run_id) db.tasks
    then status_of s
    else aggregate_run_status (ltb 0 s.failed) (ltb 0 s.cancelled)

-- The columns that are set at the run's end; `summary` for a workflow's run only.
unfoldable pub finish_row : ℕ → ℕ → Db → WorkflowRun → WorkflowRun
unfolding final_status
finish_row now run_id db r = record r {
  status = final_status run_id db;
  finished_at = some now;
  summary =
      if exists (is_workflow_task run_id) db.tasks
      then Summary.of_run (run_summary run_id db)
      else r.summary;
}

abbrev pub is_live_in : ℕ → CrawlTask → Bool
is_live_in run_id t = (t.run_id == run_id) && is_active_task t.status

-- Under the run's lock: nothing changes while the run has a queued or running task.
unfoldable pub finish_run : ℕ → ℕ → Db → Db
unfolding finish_row
finish_run now run_id db =
    if run_is_active run_id db.runs && not (exists (is_live_in run_id) db.tasks)
    then record db { runs = update (λ r. r.id == run_id) (finish_row now run_id db) db.runs }
    else db

-- The task is read before the transaction begins.
unfoldable pub try_finish_run : Db → ℕ → ℕ → Db → Db
unfolding finish_run
try_finish_run early now task_id db = elim (find_task task_id early) [
  | none ↦ db
  | some t ↦ finish_run now t.run_id db
]
