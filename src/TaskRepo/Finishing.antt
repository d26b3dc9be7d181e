-- ===== src/TaskRepo/Finishing.antt =====
-- `tryFinishRun`: when a run ends, and what its summary counts.
use get_magnet.Common.{
  ℕ, ◌+◌, ◌==◌, ltb, ◌≡◌, refl, Bool, true, false, ◌&&◌, List, [], ◌∷◌, length, if◌then◌else◌, All,
  All-map, All-select, All-of_exists-false, exists, count, first, first-update, first_meets, select,
  update, inl, inr, Bool-cases, Option-cases, arith,
}
use get_magnet.Table.Status.{is_active_run, is_active_task, is_limited_task}
use get_magnet.Table.Rows.{CrawlTask, WorkflowRun, RunSummary}
use get_magnet.TaskRepo.Outcome.{
  finish_run, finish_row, final_status, run_summary, count_observations, is_workflow_task, in_run,
  is_live_in,
}
use get_magnet.TaskRepo.Outcome.Counts.{
  Tallies, summarize-Tallies, is_succeeded, is_failure, is_cancelled,
}
use get_magnet.TaskRepo.Store.{Db, run_is_active}
use get_magnet.TaskRepo.Summary.{status_of, aggregate_run_status, empty_summary}

status_of-ended : (s : RunSummary) → is_active_run (status_of s) ≡ false
unfolding status_of
status_of-ended s = ground arith

chosen-ended :
    (workflow : Bool) (s : RunSummary)
    → is_active_run (
        if workflow then status_of s else aggregate_run_status (ltb 0 s.failed) (ltb 0 s.cancelled))
      ≡ false
unfolding aggregate_run_status
chosen-ended true s = status_of-ended s
chosen-ended false s = ground arith

final_status-ended : (run_id : ℕ) (db : Db) → is_active_run (final_status run_id db) ≡ false
unfolding final_status
final_status-ended run_id db =
    chosen-ended (exists (is_workflow_task run_id) db.tasks) (run_summary run_id db)

finish_row-ended :
    (now run_id : ℕ) (db : Db) (r : WorkflowRun)
    → is_active_run (finish_row now run_id db r).status ≡ false
unfolding finish_row
finish_row-ended now run_id db r = final_status-ended run_id db

finish_row-id :
    (now run_id : ℕ) (db : Db) (r : WorkflowRun) → (finish_row now run_id db r).id ≡ r.id
unfolding finish_row
finish_row-id now run_id db r = refl

finished-over :
    (now run_id : ℕ) (db : Db) (runs : List WorkflowRun)
    → run_is_active run_id (update (λ r. r.id == run_id) (finish_row now run_id db) runs) ≡ false
finished-over now run_id db runs =
    rw
      (first-update (λ r. r.id == run_id) (λ r. r.id == run_id) (finish_row now run_id db)
        (λ r. rw (finish_row-id now run_id db r) refl) runs)
      (elim (Option-cases (first (λ r. r.id == run_id) runs)) [
        | inl e ↦ rw e refl
        | inr (r, e) ↦
            let hit = first_meets (λ r. r.id == run_id) runs e in
            rw (e, hit) (finish_row-ended now run_id db r)
      ])

-- After the attempt to finish a run it is active exactly if it was active and has a task that is
-- queued or running: no run ends under a live task, and none stays open without one.
pub finish_run-active :
    (now run_id : ℕ) (db : Db)
    → run_is_active run_id (finish_run now run_id db).runs
      ≡ (run_is_active run_id db.runs && exists (is_live_in run_id) db.tasks)
unfolding finish_run
finish_run-active now run_id db = elim (Bool-cases (run_is_active run_id db.runs)) [
  | inr over ↦ rw (over, finish_run) over
  | inl active ↦ elim (Bool-cases (exists (is_live_in run_id) db.tasks)) [
    | inl live ↦ rw (active, live, finish_run) active
    | inr ended ↦ rw (active, ended, finish_run) (finished-over now run_id db db.runs)
  ]
]

count_observations-Tallies :
    (run_id : ℕ) (db : Db) (ts : List CrawlTask) (s s' : RunSummary)
    → Tallies ts s s'
    → Tallies ts s (count_observations run_id db.observations s')
unfolding count_observations
count_observations-Tallies run_id db ts s s' h =
    elim (Bool-cases (count (λ o. o.run_id == run_id) db.observations == 0)) [
      | inl nothing ↦ rw (nothing, count_observations) h
      | inr some_there ↦
          rw (some_there, count_observations)
            (record {
              pages = h.pages;
              succeeded = h.succeeded;
              failed = h.failed;
              cancelled = h.cancelled;
            })
    ]

pub run_summary-Tallies :
    (run_id : ℕ) (db : Db)
    → Tallies (select (in_run run_id) db.tasks) empty_summary (run_summary run_id db)
unfolding run_summary
run_summary-Tallies run_id db =
    let s = summarize-Tallies db.attempts (select (in_run run_id) db.tasks) empty_summary in
    elim (Bool-cases (exists (is_workflow_task run_id) db.tasks)) [
      | inr other ↦ rw (other, run_summary) s
      | inl workflow ↦
          rw (workflow, run_summary)
            (count_observations-Tallies run_id db _ _ _ (record {
              pages = s.pages;
              succeeded = s.succeeded;
              failed = s.failed;
              cancelled = s.cancelled;
            }))
    ]

-- Rows that have ended are of exactly one of four kinds.
kinds :
    (ts : List CrawlTask)
    → All (λ t. is_active_task t.status ≡ false) ts
    → length ts
      ≡ count (λ t. is_succeeded t.status) ts
        + count (λ t. is_failure t.status) ts
        + count (λ t. is_cancelled t.status) ts
        + count (λ t. is_limited_task t.status) ts
unfolding count
kinds [] h = omega arith
kinds (t ∷ ts) h = ground (arith, h.0, kinds ts h.1)

-- The summary of a run without a live task counts each of its tasks once: its pages are the
-- tasks that succeeded, failed (or are dead letters), were cancelled, and the limited ones.
pub run_summary-partition :
    (run_id : ℕ) (db : Db)
    → exists (is_live_in run_id) db.tasks ≡ false
    → (run_summary run_id db).pages
      ≡ (run_summary run_id db).succeeded
        + (run_summary run_id db).failed
        + (run_summary run_id db).cancelled
        + count (λ t. is_limited_task t.status) (select (in_run run_id) db.tasks)
run_summary-partition run_id db ended =
    let s = run_summary-Tallies run_id db in
    let over = kinds (select (in_run run_id) db.tasks) (
      All-map (λ t h. ground (arith, h)) (select (in_run run_id) db.tasks)
        (All-select (λ t. is_live_in run_id t ≡ false) (in_run run_id) db.tasks
          (All-of_exists-false (is_live_in run_id) db.tasks ended))) in
    omega (arith, s.pages, s.succeeded, s.failed, s.cancelled, over)
