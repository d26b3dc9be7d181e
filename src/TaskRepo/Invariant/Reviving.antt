-- ===== src/TaskRepo/Invariant/Reviving.antt =====
-- A retried task and a stored summary keep the tables consistent.
use mathlib.Core.Path.{subst}
use get_magnet.Common.{
  ℕ, ◌<◌, ◌==◌, ◌≡◌, refl, sym, ◌∙◌, true, ◌&&◌, List, Ensures, Ensures-guard, Ensures-or_fail,
  Ensures->>=, first-update, succeeds, arith, All-map, All-update, All-update_to, All-map_both, inl,
  inr, Option-cases, first_meets,
}
use get_magnet.Table.Status.{is_active_run, is_retryable_run}
use get_magnet.Table.Rows.{CrawlTask, WorkflowRun}
use get_magnet.TaskRepo.Invariant.{IsConsistent, IsRow, SameNumbers-refl, amend-IsConsistent}
use get_magnet.TaskRepo.Invariant.Keys.{keyed_unique}
use get_magnet.TaskRepo.Invariant.Runs.{IsRow-runs, run_is_active-update}
use get_magnet.TaskRepo.Retry.{
  revive_run, revived_runs, summary_row, retryable_run, retry_task, retry_limit, revive,
  is_failed_id, update_run_summary,
}
use get_magnet.TaskRepo.Store.{Db, run_is_active, find_task, find_run, JsonText}

pub update_run_summary-IsConsistent :
    (run_id : ℕ) (summary : JsonText) (db : Db)
    → IsConsistent db
    → Ensures IsConsistent (update_run_summary run_id summary db)
unfolding update_run_summary
update_run_summary-IsConsistent run_id summary db v = Ensures-guard _ λ named. succeeds (record {
  rows =
      All-map
        (λ t r.
          IsRow-runs db.runs _ t
            (run_is_active-update (λ r. (r.id == run_id) && is_active_run r.status)
              (summary_row summary) (λ r. refl) (λ r c h. h) t.run_id db.runs)
            r)
        db.tasks v.rows;
  numbered = v.numbered;
  distinct = v.distinct;
  fresh_tasks = v.fresh_tasks;
  fresh_attempts = v.fresh_attempts;
  fresh_runs =
      All-update (λ r. r.id < db.next_run_id) (λ r. (r.id == run_id) && is_active_run r.status)
        (summary_row summary) (λ r c p. p) db.runs v.fresh_runs;
})

revived-active :
    (id : ℕ) (db : Db)
    → retryable_run id db ≡ true
    → run_is_active id (revived_runs id db.runs) ≡ true
revived-active id db h =
    rw
      (first-update (λ r. r.id == id) (λ r. (r.id == id) && is_retryable_run r.status) revive_run
        (λ r. refl) db.runs)
      (elim (Option-cases (find_run id db)) [
        | inl e ↦ absurd (ground arith)
        | inr (r, e) ↦ rw e (ground (arith, first_meets (λ r. r.id == id) db.runs {x = r} e))
      ])

revive-IsRow :
    (runs runs' : List WorkflowRun) (now id : ℕ) (t : CrawlTask)
    → run_is_active t.run_id runs' ≡ true
    → is_failed_id id t ≡ true
    → IsRow runs t
    → IsRow runs' (revive now (retry_limit t) t)
unfolding retry_limit
revive-IsRow runs runs' now id t active failed r = record {
  live = λ _. active;
  leased = ground (arith, r.leased);
  capped = ground (arith, r.capped);
}

-- The retried task must be the one that was read: the new limit is made from its count.
pub retry_task-IsConsistent :
    (early : Db) (now id : ℕ) (db : Db)
    → find_task id early ≡ find_task id db
    → IsConsistent db
    → Ensures IsConsistent (retry_task early now id db)
unfolding retry_task
retry_task-IsConsistent early now id db current v = Ensures-or_fail _ λ task read.
    Ensures-guard _ λ was. Ensures-guard _ λ retryable. Ensures->>= λ budget known.
      Ensures-guard _ λ in_time. Ensures-guard _ λ failed. succeeds (
        amend-IsConsistent db _ (is_failed_id id) (revive now (retry_limit task)) (λ t. refl)
          (λ t. refl) refl (SameNumbers-refl _) refl
          (All-update (λ r. r.id < db.next_run_id)
            (λ r. (r.id == task.run_id) && is_retryable_run r.status) revive_run (λ r c p. p)
            db.runs v.fresh_runs)
          (All-update_to {P = λ t. IsRow db.runs t × (t.id ≡ id → t ≡ task)} (is_failed_id id)
            (revive now (retry_limit task))
            (λ t hit p.
              let same : t ≡ task = p.1 (ground (arith, hit)) in
              subst (λ u. IsRow (revived_runs task.run_id db.runs) (revive now (retry_limit u) t))
                same
                (revive-IsRow db.runs _ now id t
                  (subst (λ u. run_is_active u.run_id (revived_runs task.run_id db.runs) ≡ true)
                    (sym same) (revived-active task.run_id db retryable))
                  hit p.0))
            (λ t miss p.
              IsRow-runs db.runs _ t
                (run_is_active-update (λ r. (r.id == task.run_id) && is_retryable_run r.status)
                  revive_run (λ r. refl) (λ r c h. refl) t.run_id db.runs)
                p.0)
            db.tasks
            (All-map_both (λ t r u. (r, u)) db.tasks v.rows
              (keyed_unique id (λ t. t.id == id) (λ t h. ground arith) db.tasks v.distinct
                (sym current ∙ read))))
          v)
