-- ===== src/TaskRepo/Invariant/Cancelling.antt =====
-- Cancelling a task with its descendants, cancelling a run, the end of a run and the end of its
-- time keep the tables consistent: a run ends only with all its tasks.
use get_magnet.Common.{
  ℕ, ◌<◌, ◌==◌, ◌≡◌, refl, ◌∙◌, Bool, true, false, ◌&&◌, List, [], ◌∷◌, exists, select, update,
  Ensures, Ensures-guard, Ensures-or_fail, succeeds, arith, All-update, All-update_to,
  All-of_exists-false, All-map_both, inl, inr, Bool-cases, Option-cases,
}
use get_magnet.Table.Status.{is_active_task, TaskStatus}
use get_magnet.Table.Rows.{CrawlTask, WorkflowRun, LimitRow, Reason}
use get_magnet.TaskRepo.Cancel.{
  cancel_one, cancel_all, cancel_row, cancel_task_commit, cancel_run, cancel_run_row, descendants,
  is_active_id,
}
use get_magnet.TaskRepo.Finish.{end_task, limit_event, limit_row, same_limit}
use get_magnet.TaskRepo.Budgets.{record_limits, limit_task, expire_rows}
use get_magnet.TaskRepo.Outcome.{finish_run, finish_row, try_finish_run, is_live_in}
use get_magnet.TaskRepo.Store.{Db, run_is_active, find_task}
use get_magnet.TaskRepo.Invariant.{
  IsConsistent, IsRow, SameNumbers-update, amend_rows-IsConsistent, amend-IsConsistent,
}
use get_magnet.TaskRepo.Invariant.Ending.{end_task-IsRow}
use get_magnet.TaskRepo.Invariant.Runs.{run_is_active-update_ne}

cancel_row-IsRow :
    (runs : List WorkflowRun) (now : ℕ) (t : CrawlTask)
    → IsRow runs t
    → IsRow runs (cancel_row now t)
cancel_row-IsRow runs now t r = record { live = λ h. cc; leased = refl; capped = r.capped }

cancel_one-IsConsistent :
    (now id : ℕ) (db : Db) → IsConsistent db → IsConsistent (cancel_one now db id)
unfolding cancel_one
cancel_one-IsConsistent now id db v =
    amend_rows-IsConsistent db _ (λ t. (t.id == id) && is_active_task t.status) (cancel_row now)
      (λ t. refl) (λ t. refl) refl (SameNumbers-update _ _ (λ a. refl) (λ a. refl) db.attempts) refl
      refl refl (λ t h r. cancel_row-IsRow db.runs now t r) v

cancel_all-IsConsistent :
    (now : ℕ) (ids : List ℕ) (db : Db) → IsConsistent db → IsConsistent (cancel_all now ids db)
unfolding cancel_all
cancel_all-IsConsistent now [] db v = v
cancel_all-IsConsistent now (id ∷ ids) db v =
    cancel_all-IsConsistent now ids _ (cancel_one-IsConsistent now id db v)

pub cancel_task_commit-IsConsistent :
    (early : Db) (now id : ℕ) (db : Db)
    → IsConsistent db
    → Ensures IsConsistent (cancel_task_commit early now id db)
unfolding cancel_task_commit
cancel_task_commit-IsConsistent early now id db v = Ensures-or_fail _ λ task read.
    Ensures-guard _ λ active.
      Ensures-guard _ λ live. succeeds (cancel_all-IsConsistent now (descendants id db.tasks) db v)

-- The rows of a run with no live task left stay rows, whatever becomes of the run.
ended_run-IsRow :
    (run_id : ℕ) (c : WorkflowRun → Bool) (f : WorkflowRun → WorkflowRun)
    → ((r : WorkflowRun) → (f r).id ≡ r.id)
    → ((r : WorkflowRun) → c r ≡ true → r.id ≡ run_id)
    → (runs : List WorkflowRun) (t : CrawlTask) → is_live_in run_id t ≡ false
    → IsRow runs t
    → IsRow (update c f runs) t
ended_run-IsRow run_id c f same only runs t ended r = record {
  live = λ active.
      rw
        (run_is_active-update_ne c f same run_id only t.run_id runs (ground (arith, ended, active)))
        (r.live active);
  leased = r.leased;
  capped = r.capped;
}

finish_row-id :
    (now run_id : ℕ) (db : Db) (r : WorkflowRun) → (finish_row now run_id db r).id ≡ r.id
unfolding finish_row
finish_row-id now run_id db r = refl

pub finish_run-IsConsistent :
    (now run_id : ℕ) (db : Db) → IsConsistent db → IsConsistent (finish_run now run_id db)
unfolding finish_run
finish_run-IsConsistent now run_id db v = elim (Bool-cases (exists (is_live_in run_id) db.tasks)) [
  | inl live ↦ rw live (ground (arith, v))
  | inr ended ↦ elim (Bool-cases (run_is_active run_id db.runs)) [
    | inr over ↦ rw over v
    | inl active ↦
        rw (active, ended)
          (record {
            rows =
                All-map_both
                  (λ t r e.
                    ended_run-IsRow run_id (λ r. r.id == run_id) (finish_row now run_id db)
                      (finish_row-id now run_id db) (λ r h. ground arith) db.runs t e r)
                  db.tasks v.rows (All-of_exists-false (is_live_in run_id) db.tasks ended);
            numbered = v.numbered;
            distinct = v.distinct;
            fresh_tasks = v.fresh_tasks;
            fresh_attempts = v.fresh_attempts;
            fresh_runs =
                All-update (λ r. r.id < db.next_run_id) (λ r. r.id == run_id)
                  (finish_row now run_id db) (λ r _ p. rw (finish_row-id now run_id db r) p) db.runs
                  v.fresh_runs;
          })
  ]
]

pub try_finish_run-IsConsistent :
    (early : Db) (now task_id : ℕ) (db : Db)
    → IsConsistent db
    → IsConsistent (try_finish_run early now task_id db)
unfolding try_finish_run
try_finish_run-IsConsistent early now task_id db v = elim (Option-cases (find_task task_id early)) [
  | inl missing ↦ rw (missing, try_finish_run) v
  | inr (t, found) ↦ rw (found, try_finish_run) (finish_run-IsConsistent now t.run_id db v)
]

pub cancel_run-IsConsistent :
    (now id : ℕ) (db : Db) → IsConsistent db → Ensures IsConsistent (cancel_run now id db)
unfolding cancel_run
cancel_run-IsConsistent now id db v = Ensures-guard _ λ one. succeeds (
    amend-IsConsistent db _ (is_live_in id) (end_task now TaskStatus.cancelled) (λ t. refl)
      (λ t. refl) refl (SameNumbers-update _ _ (λ a. refl) (λ a. refl) db.attempts) refl
      (All-update (λ r. r.id < db.next_run_id) _ _ (λ r _ p. p) db.runs v.fresh_runs)
      (All-update_to {P = IsRow db.runs} (is_live_in id) (end_task now TaskStatus.cancelled)
        (λ t live r. end_task-IsRow _ now TaskStatus.cancelled t refl r)
        (λ t other r.
          ended_run-IsRow id (is_active_id id) (cancel_run_row now) (λ r. refl)
            (λ r h. ground arith) db.runs t other r)
        db.tasks v.rows)
      v)

limit_event-tables :
    (e : LimitRow) (db : Db)
    → ((limit_event e db).runs ≡ db.runs)
      × ((limit_event e db).next_run_id ≡ db.next_run_id)
      × ((limit_event e db).next_task_id ≡ db.next_task_id)
unfolding limit_event
limit_event-tables e db = ground arith

pub limit_event-IsConsistent :
    (e : LimitRow) (db : Db) → IsConsistent db → IsConsistent (limit_event e db)
unfolding limit_event
limit_event-IsConsistent e db v = elim (Bool-cases (exists (same_limit e) db.limit_events)) [
  | inl known ↦ rw known v
  | inr new ↦ rw new (record {
    rows = v.rows;
    numbered = v.numbered;
    distinct = v.distinct;
    fresh_tasks = v.fresh_tasks;
    fresh_attempts = v.fresh_attempts;
    fresh_runs = v.fresh_runs;
  })
]

record_limits-tables :
    (ts : List CrawlTask) (db : Db)
    → ((record_limits ts db).runs ≡ db.runs)
      × ((record_limits ts db).next_run_id ≡ db.next_run_id)
      × ((record_limits ts db).next_task_id ≡ db.next_task_id)
unfolding record_limits
record_limits-tables [] db = (refl, refl, refl)
record_limits-tables (t ∷ ts) db =
    let event = limit_row t t.input.url Reason.max_duration_seconds in
    let rest = record_limits-tables ts (limit_event event db) in
    let head = limit_event-tables event db in (rest.0 ∙ head.0, rest.1 ∙ head.1, rest.2 ∙ head.2)

limit_task-IsRow :
    (runs : List WorkflowRun) (now : ℕ) (t : CrawlTask)
    → IsRow runs t
    → IsRow runs (limit_task now t)
limit_task-IsRow runs now t r = record { live = λ h. cc; leased = refl; capped = r.capped }

pub expire_rows-IsConsistent :
    (now run_id : ℕ) (db : Db) → IsConsistent db → IsConsistent (expire_rows now run_id db)
unfolding expire_rows
expire_rows-IsConsistent now run_id db v =
    let kept = record_limits-tables (select (is_live_in run_id) db.tasks) db in
    amend_rows-IsConsistent db _ (is_live_in run_id) (limit_task now) (λ t. refl) (λ t. refl) refl
      (SameNumbers-update _ _ (λ a. refl) (λ a. refl) db.attempts) kept.2 kept.1 kept.0
      (λ t h r. limit_task-IsRow db.runs now t r) v
