-- ===== src/TaskRepo/Retry.antt =====
-- `RetryTask`, `RerunRun` and `UpdateRunSummary` of internal/repo/task_repo/tasks.go, and
-- `InitializeRunBudget` of budgets.go.
use get_magnet.Common.{
  String, ℕ, suc, ◌+◌, ◌==◌, ltb, leb, Bool, true, false, not, ◌&&◌, Option, none, some, List, [],
  ◌∷◌, ◌++◌, if◌then◌else◌, holds, first, count, update, Result, ok, guard, or_fail, ◌>>=◌, ◌>>◌,
}
use get_magnet.Table.Status.{is_failed_task, is_active_run, is_retryable_run, RunStatus, TaskStatus}
use get_magnet.Table.Rows.{CrawlTask, WorkflowRun, Summary, TaskInput}
use get_magnet.TaskRepo.Budgets.{budget_from_run}
use get_magnet.TaskRepo.Store.{
  Db, Error, task_not_found, run_not_retryable, run_no_longer_retryable, budget_expired,
  only_failed_tasks, run_not_found, root_not_found, run_id_required, find_run, find_task,
  input_or_empty, JsonText, fallback_json,
}

abbrev pub retryable_run : ℕ → Db → Bool
retryable_run id db = holds (λ (r : WorkflowRun). is_retryable_run r.status) (find_run id db)

abbrev pub is_failed_id : ℕ → CrawlTask → Bool
is_failed_id id t = (t.id == id) && is_failed_task t.status

-- A task that has used all its attempts gets five more.
unfoldable pub retry_limit : CrawlTask → ℕ
retry_limit t = if leb t.max_attempts t.attempt_count then t.attempt_count + 5 else t.max_attempts

abbrev pub revive : ℕ → ℕ → CrawlTask → CrawlTask
revive now limit t = record t {
  status = TaskStatus.queued;
  max_attempts = limit;
  next_retry_at = some now;
  finished_at = none;
  error_message = "";
  updated_at = now;
}

abbrev pub revive_run : WorkflowRun → WorkflowRun
revive_run r = record r { status = RunStatus.running; finished_at = none }

abbrev pub revived_runs : ℕ → List WorkflowRun → List WorkflowRun
revived_runs id = update (λ r. (r.id == id) && is_retryable_run r.status) revive_run

-- The task and its run are read before the transaction, from `early`; the limit is that of the
-- task as it was read.
unfoldable pub retry_task : Db → ℕ → ℕ → Db → Result Error Db
unfolding retry_limit budget_from_run
retry_task early now id db = do
  task ← or_fail (find_task id early) task_not_found
  guard (retryable_run task.run_id early) run_not_retryable
  guard (retryable_run task.run_id db) run_no_longer_retryable
  budget ← budget_from_run task.run_id db
  guard (not (holds (λ l. leb l.1 now) budget)) budget_expired
  guard (not (count (is_failed_id id) db.tasks == 0)) only_failed_tasks
  ok (record db {
    tasks = update (is_failed_id id) (revive now (retry_limit task)) db.tasks;
    runs = update (λ r. (r.id == task.run_id) && is_retryable_run r.status) revive_run db.runs;
  })

-- `CreateRun`, with the workflow and version that `ensureWorkflow` gives.
abbrev pub fresh_run : Db → ℕ → ℕ → ℕ → String → TaskInput → WorkflowRun
fresh_run db now workflow version trigger input = record {
  id = db.next_run_id;
  workflow_id = workflow;
  workflow_version_id = version;
  trigger_type = trigger;
  status = RunStatus.queued;
  input = input_or_empty input;
  summary = Summary.blank;
  budget = none;
  started_at = none;
  finished_at = none;
  created_by = none;
  created_at = now;
}

unfoldable pub create_run : ℕ → ℕ → ℕ → String → TaskInput → Db → Db × WorkflowRun
unfolding input_or_empty
create_run now workflow version trigger input db =
    let run = fresh_run db now workflow version trigger input in
    (record db { runs = db.runs ++ run ∷ []; next_run_id = suc db.next_run_id }, run)

abbrev pub is_root_of : ℕ → CrawlTask → Bool
is_root_of run_id t =
    (t.run_id == run_id) && (elim t.parent_task_id [ none ↦ true | some _ ↦ false ])

-- ORDER BY id LIMIT 1: ids grow with the table, so the first row that meets the condition.
abbrev pub root_task : ℕ → List CrawlTask → Option CrawlTask
root_task run_id = first (is_root_of run_id)

abbrev pub new_run : Db → ℕ → WorkflowRun → WorkflowRun
new_run db now original = record {
  id = db.next_run_id;
  workflow_id = original.workflow_id;
  workflow_version_id = original.workflow_version_id;
  trigger_type = "rerun";
  status = RunStatus.queued;
  input = input_or_empty original.input;
  summary = Summary.blank;
  budget = original.budget;
  started_at = none;
  finished_at = none;
  created_by = original.created_by;
  created_at = now;
}

abbrev pub queued_task : Db → ℕ → ℕ → CrawlTask → CrawlTask
queued_task db now run_id root = record {
  id = db.next_task_id;
  run_id = run_id;
  parent_task_id = none;
  step_name = root.step_name;
  task_type = root.task_type;
  input = root.input;
  depth = 0;
  page_reserved = false;
  page_host = "";
  status = TaskStatus.queued;
  attempt_count = 0;
  max_attempts = 5;
  next_retry_at = none;
  lease_owner = "";
  lease_until = none;
  output_document_id = none;
  error_message = "";
  created_at = now;
  updated_at = now;
  finished_at = none;
}

-- The input of a stored run is JSON, so that `fallbackJSON` gives it back.
-- A new run of the same version, with the budget and the root task of the old one.
unfoldable pub rerun_run : Db → ℕ → ℕ → Db → Result Error (Db × WorkflowRun)
unfolding input_or_empty
rerun_run early now id db = do
  original ← or_fail (find_run id early) run_not_found
  let run = new_run db now original
  root ← or_fail (root_task original.id db.tasks) root_not_found
  ok (
    record db {
      runs = db.runs ++ run ∷ [];
      tasks = db.tasks ++ queued_task db now run.id root ∷ [];
      next_run_id = suc db.next_run_id;
      next_task_id = suc db.next_task_id;
    },
    run,
  )

abbrev pub summary_row : JsonText → WorkflowRun → WorkflowRun
summary_row text r = record r { summary = Summary.of_worker (fallback_json text) }

unfoldable pub update_run_summary : ℕ → JsonText → Db → Result Error Db
unfolding fallback_json
update_run_summary run_id summary db = do
  guard (ltb 0 run_id) run_id_required
  ok (record db {
    runs = update (λ r. (r.id == run_id) && is_active_run r.status) (summary_row summary) db.runs;
  })
