-- ===== src/TaskRepo/Verdict.antt =====
-- The status that a workflow's run ends with (`tryFinishRun`, `RunSummary.Status`, `coverage`), against
-- the rows of its tasks and its limits.
use get_magnet.Common.{ℕ, ◌+◌, ◌<◌, ◌==◌, ◌≡◌, ◌&&◌, List, length, count, select}
use get_magnet.Table.Rows.{LimitRow, Reason, RunSummary}
use get_magnet.TaskRepo.Outcome.{run_summary, coverage, same_reason, in_run}
use get_magnet.TaskRepo.Outcome.Counts.{is_failure, is_cancelled}
use get_magnet.TaskRepo.Store.{Db}

record IsClean (s : RunSummary) : Type 0 where
  cancelled : s.cancelled ≡ 0
  failed : s.failed ≡ 0
  limited : s.limited ≡ 0
  reasons : length s.coverage.limit_reasons ≡ 0
  saved : 0 < s.resources + s.records

-- The events of a run with one reason.
by_reason : ℕ → List LimitRow → Reason → ℕ
by_reason run_id events r = count (λ e. (e.run_id == run_id) && same_reason e.reason r) events

-- Nothing of the run went wrong, in its tasks and its limits, and something was saved.
pub record Succeeds (run_id : ℕ) (db : Db) : Type 0 where
  pub cancelled : count (λ t. is_cancelled t.status) (select (in_run run_id) db.tasks) ≡ 0
  pub failed : count (λ t. is_failure t.status) (select (in_run run_id) db.tasks) ≡ 0
  pub events : count (λ e. e.run_id == run_id) db.limit_events ≡ 0
  pub limited : (run_summary run_id db).limited ≡ 0
  pub saved : 0 < (run_summary run_id db).resources + (run_summary run_id db).records
