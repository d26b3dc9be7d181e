-- ===== src/TaskRepo/Cancel.antt =====
-- `CancelTask` and `CancelRun` of internal/repo/task_repo/tasks.go.
use get_magnet.Common.{
  ℕ, zero, suc, ◌==◌, Bool, true, false, not, ◌&&◌, some, List, [], ◌∷◌, ◌++◌, map, length,
  if◌then◌else◌, holds, exists, select, count, update, Result, ok, guard, or_fail, ◌>>=◌, ◌>>◌,
}
use get_magnet.Table.Status.{is_active_task, is_active_run, RunStatus, TaskStatus, AttemptStatus}
use get_magnet.Table.Rows.{CrawlTask, TaskAttempt, WorkflowRun}
use get_magnet.TaskRepo.Finish.{end_task}
use get_magnet.TaskRepo.Outcome.{try_finish_run, is_live_in}
use get_magnet.TaskRepo.Store.{
  Db, Error, task_not_found, run_not_active_for_cancel, task_not_active, only_active_runs,
  find_task, run_is_active, running_of,
}

unfoldable pub member : ℕ → List ℕ → Bool
member id [] = false
member id (x ∷ xs) = if x == id then true else member id xs

-- A child of a listed task that is not found yet.
abbrev pub is_new_child : List ℕ → List ℕ → CrawlTask → Bool
is_new_child work found t = holds (λ p. member p work) t.parent_task_id && not (member t.id found)

abbrev pub task_id_of : CrawlTask → ℕ
task_id_of t = t.id

-- The recursive query `descendants`: each round joins the tasks to the last round's rows, and
-- UNION drops the rows that it has. It ends when a round gives none.
unfoldable pub descend : ℕ → List CrawlTask → List ℕ → List ℕ → List ℕ
unfolding member
descend zero tasks work found = found
descend (suc fuel) tasks work found =
    elim (map task_id_of (select (is_new_child work found) tasks)) [
      | [] ↦ found
      | id ∷ ids ↦ descend fuel tasks (id ∷ ids) (found ++ id ∷ ids)
    ]

-- Each round but the last finds a task, so that one round more than the tasks are enough.
unfoldable pub descendants : ℕ → List CrawlTask → List ℕ
unfolding descend
descendants id tasks =
    let roots = map task_id_of (select (λ t. t.id == id) tasks) in
    descend (suc (length tasks)) tasks roots roots

abbrev pub cancel_row : ℕ → CrawlTask → CrawlTask
cancel_row now t = record (end_task now TaskStatus.cancelled t) {
  error_message = "cancelled by user with parent task";
}

-- One turn of the loop over the descendants.
unfoldable pub cancel_one : ℕ → Db → ℕ → Db
cancel_one now db id = record db {
  tasks = update (λ t. (t.id == id) && is_active_task t.status) (cancel_row now) db.tasks;
  attempts =
      update (running_of id)
        (λ a. record a {
          status = AttemptStatus.cancelled;
          finished_at = some now;
          error_message = "cancelled by user";
        })
        db.attempts;
}

unfoldable pub cancel_all : ℕ → List ℕ → Db → Db
unfolding cancel_one
cancel_all now [] db = db
cancel_all now (id ∷ ids) db = cancel_all now ids (cancel_one now db id)

-- The transaction of `CancelTask`; its task is read before, from `early`.
unfoldable pub cancel_task_commit : Db → ℕ → ℕ → Db → Result Error Db
unfolding descendants cancel_all
cancel_task_commit early now id db = do
  task ← or_fail (find_task id early) task_not_found
  guard (run_is_active task.run_id db.runs) run_not_active_for_cancel
  guard (holds (λ (t : CrawlTask). is_active_task t.status) (find_task id db)) task_not_active
  ok (cancel_all now (descendants id db.tasks) db)

unfoldable pub cancel_task : Db → ℕ → ℕ → Db → Result Error Db
unfolding cancel_task_commit
cancel_task early now id db = do
  db' ← cancel_task_commit early now id db
  ok (try_finish_run db' now id db')

-- `task_id IN (SELECT id FROM crawl_tasks WHERE run_id = ?) AND status = running`
abbrev pub running_in_run : ℕ → List CrawlTask → TaskAttempt → Bool
running_in_run run_id tasks a =
    exists (λ (t : CrawlTask). (t.run_id == run_id) && (t.id == a.task_id)) tasks
    && running_of a.task_id a

abbrev pub is_active_id : ℕ → WorkflowRun → Bool
is_active_id id r = (r.id == id) && is_active_run r.status

abbrev pub cancel_run_row : ℕ → WorkflowRun → WorkflowRun
cancel_run_row now r = record r { status = RunStatus.cancelled; finished_at = some now }

unfoldable pub cancel_run : ℕ → ℕ → Db → Result Error Db
cancel_run now id db = do
  guard (not (count (is_active_id id) db.runs == 0)) only_active_runs
  ok (record db {
    runs = update (is_active_id id) (cancel_run_row now) db.runs;
    tasks = update (is_live_in id) (end_task now TaskStatus.cancelled) db.tasks;
    attempts =
        update (running_in_run id db.tasks)
          (λ a. record a { status = AttemptStatus.cancelled; finished_at = some now }) db.attempts;
  })
