-- ===== src/TaskRepo/Recovery.antt =====
-- `RecoverExpiredLeases` and `recoverExpiredTask` of internal/repo/task_repo/tasks.go, and
-- `ExpireBudgetRuns` of budgets.go.
use get_magnet.Common.{
  ℕ, ◌+◌, ◌==◌, ltb, leb, Bool, true, false, ◌&&◌, Option, none, some, List, [], ◌∷◌, if◌then◌else◌,
  holds, first, select, update, Result, ok, ◌>>=◌,
}
use get_magnet.Table.Status.{is_running_task, is_active_run, TaskStatus}
use get_magnet.Table.Rows.{CrawlTask, WorkflowRun}
use get_magnet.TaskRepo.Budgets.{deadline_of, expire_budget_run}
use get_magnet.TaskRepo.Claims.{interrupt}
use get_magnet.TaskRepo.Finish.{release}
use get_magnet.TaskRepo.Outcome.{try_finish_run}
use get_magnet.TaskRepo.Store.{Db, Error, running_of}

-- `status = running AND lease_until < NOW()`
abbrev pub lease_expired : ℕ → CrawlTask → Bool
lease_expired now t = is_running_task t.status && holds (λ until. ltb until now) t.lease_until

-- Back to the queue, or to the dead letters after the last attempt.
unfoldable pub recover_row : ℕ → CrawlTask → CrawlTask → CrawlTask
recover_row now task t =
    let last = leb task.max_attempts task.attempt_count in
    record (release t) {
      status = if last then TaskStatus.dead_letter else TaskStatus.queued;
      next_retry_at = some now;
      error_message = if last then "lease expired after maximum attempts" else "";
      updated_at = now;
      finished_at = if last then some now else t.finished_at;
    }

-- `recoverExpiredTask`, for a candidate's id; `none` if the lease is no longer expired.
unfoldable pub recover_expired_task : ℕ → ℕ → Db → Option Db
unfolding recover_row
recover_expired_task now id db = elim (first (λ t. (t.id == id) && lease_expired now t) db.tasks) [
  | none ↦ none
  | some task ↦ some (record db {
    tasks = update (λ t. t.id == task.id) (recover_row now task) db.tasks;
    attempts = update (running_of task.id) (interrupt now "task lease expired") db.attempts;
  })
]

-- One turn of the loop: a recovered task may be the last of its run.
unfoldable pub recover_one : ℕ → ℕ → Db → Db × Bool
unfolding recover_expired_task
recover_one now id db = elim (recover_expired_task now id db) [
  | none ↦ (db, false)
  | some db' ↦ (try_finish_run db' now id db', true)
]

unfoldable pub recover_all : ℕ → List CrawlTask → Db → ℕ → Db × ℕ
unfolding recover_one
recover_all now [] db recovered = (db, recovered)
recover_all now (c ∷ cs) db recovered =
    let (db', changed) = recover_one now c.id db in
    recover_all now cs db' (if changed then recovered + 1 else recovered)

-- The runs that are active with a budget whose time is over.
abbrev pub over_time : ℕ → WorkflowRun → Bool
over_time now r = is_active_run r.status && holds (λ b. leb (deadline_of r b) now) r.budget

unfoldable pub expire_all : ℕ → List WorkflowRun → Db → Result Error Db
unfolding expire_budget_run
expire_all now [] db = ok db
expire_all now (r ∷ rs) db = expire_budget_run now r.id db >>= λ db'. expire_all now rs db'

unfoldable pub expire_budget_runs : ℕ → Db → Result Error Db
unfolding expire_all
expire_budget_runs now db = expire_all now (select (over_time now) db.runs) db

unfoldable pub recover_expired_leases : ℕ → Db → Result Error (Db × ℕ)
unfolding recover_all expire_budget_runs
recover_expired_leases now db = do
  let (db', recovered) = recover_all now (select (lease_expired now) db.tasks) db 0
  db'' ← expire_budget_runs now db'
  ok (db'', recovered)
