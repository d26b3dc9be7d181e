-- ===== src/TaskRepo/Closing.antt =====
-- The operations that end tasks, and the run of such a task (`completeStatus`, `Fail`, `CancelTask`
-- and the turn of `RecoverExpiredLeases` of internal/repo/task_repo/tasks.go, `expireBudgetRun` of
-- budgets.go).
use get_magnet.Common.{ℕ, ◌≡◌, false, not, ◌&&◌, exists}
use get_magnet.TaskRepo.Outcome.{is_live_in}
use get_magnet.TaskRepo.Store.{Db, run_is_active}

-- The run is not active without a task that is queued or running.
abbrev pub IsClosed : ℕ → Db → Type 0
IsClosed run_id db =
    (run_is_active run_id db.runs && not (exists (is_live_in run_id) db.tasks)) ≡ false
