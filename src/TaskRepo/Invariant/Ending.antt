-- ===== src/TaskRepo/Invariant/Ending.antt =====
-- The transactions on one running attempt keep the tables consistent.
use mathlib.Core.Path.{subst}
use get_magnet.Common.{
  some-injective, Option-cases, inl, inr, All-update_to, All-map_both, ℕ, ◌==◌, ◌≡◌, refl, sym,
  Bool, true, false, ◌&&◌, some, String, List, first, Ensures, Ensures-guard, Ensures-or_fail,
  succeeds, arith, first_meets,
}
use get_magnet.Table.Status.{is_active_task, is_running_task, TaskStatus}
use get_magnet.Table.Rows.{WorkflowRun, CrawlTask, TaskAttempt}
use get_magnet.TaskRepo.Backoff.{backoff_delay}
use get_magnet.TaskRepo.Claims.{renew_lease, renew_row}
use get_magnet.TaskRepo.Finish.{
  complete_commit, fail_commit, message_of, fail_row, Ending, succeeded, limited, end_task,
  ending_task, Cause, will_retry,
}
use get_magnet.TaskRepo.Invariant.{
  IsConsistent, IsRow, SameNumbers-refl, SameNumbers-update, amend_rows-IsConsistent,
  amend-IsConsistent,
}
use get_magnet.TaskRepo.Invariant.Keys.{keyed_unique}
use get_magnet.TaskRepo.Recovery.{recover_expired_task, recover_row, lease_expired}
use get_magnet.TaskRepo.Store.{Db, fenced, JsonText}

fenced-running :
    (now task_id : ℕ) (attempt : TaskAttempt) (t : CrawlTask)
    → fenced now task_id attempt t ≡ true
    → is_running_task t.status ≡ true
unfolding fenced
fenced-running now task_id attempt t h = ground arith

-- An ended task needs no active run and has no lease.
pub end_task-IsRow :
    {runs : List WorkflowRun} (runs' : List WorkflowRun) (now : ℕ) (status : TaskStatus)
    (t : CrawlTask)
    → is_active_task status ≡ false
    → IsRow runs t
    → IsRow runs' (end_task now status t)
end_task-IsRow runs' now status t ended r = record {
  live = λ h. absurd (ground arith);
  leased = ground arith;
  capped = r.capped;
}

ending-ends : (e : Ending) → is_active_task (ending_task e) ≡ false
ending-ends succeeded = refl
ending-ends limited = refl

pub renew_lease-IsConsistent :
    (now task_id : ℕ) (attempt : TaskAttempt) (lease : ℕ) (db : Db)
    → IsConsistent db
    → Ensures IsConsistent (renew_lease now task_id attempt lease db)
unfolding renew_lease fenced
renew_lease-IsConsistent now task_id attempt lease db v = Ensures-guard _ λ positive.
    Ensures-guard _ λ one. succeeds (
      amend_rows-IsConsistent db _ (fenced now task_id attempt) (renew_row now lease) (λ t. refl)
        (λ t. refl) refl (SameNumbers-refl _) refl refl refl (λ t h r. ground arith) v)

pub complete_commit-IsConsistent :
    (early : Db) (now task_id attempt_id : ℕ) (response : JsonText) (ending : Ending) (db : Db)
    → IsConsistent db
    → Ensures IsConsistent (complete_commit early now task_id attempt_id response ending db)
unfolding complete_commit
complete_commit-IsConsistent early now task_id attempt_id response ending db v =
    Ensures-or_fail _ λ attempt read. Ensures-guard _ λ mine. Ensures-guard _ λ one.
      Ensures-guard _ λ own. succeeds (
        amend_rows-IsConsistent db _ (fenced now task_id attempt)
          (end_task now (ending_task ending)) (λ t. refl) (λ t. refl) refl
          (SameNumbers-update _ _ (λ a. refl) (λ a. refl) db.attempts) refl refl refl
          (λ t h r. end_task-IsRow db.runs now (ending_task ending) t (ending-ends ending) r) v)

fail_row-IsRow :
    (runs : List WorkflowRun) (again : Bool) (now delay : ℕ) (message : String) (t : CrawlTask)
    → is_running_task t.status ≡ true
    → IsRow runs t
    → IsRow runs (fail_row again now delay message t)
fail_row-IsRow runs again now delay message t running r = ground (arith, r)

pub fail_commit-IsConsistent :
    (early : Db) (now : ℕ) (random : ℕ → ℕ) (task_id attempt_id : ℕ) (cause : Cause)
    (retryable : Bool) (db : Db)
    → IsConsistent db
    → Ensures
        (λ r. IsConsistent r.0)
        (fail_commit early now random task_id attempt_id cause retryable db)
unfolding fail_commit
fail_commit-IsConsistent early now random task_id attempt_id cause retryable db v =
    Ensures-or_fail _ λ task known. Ensures-or_fail _ λ attempt read. Ensures-guard _ λ mine.
      Ensures-guard _ λ one. Ensures-guard _ λ own. succeeds (
        amend_rows-IsConsistent db _ (fenced now task_id attempt)
          (fail_row (will_retry retryable task) now (backoff_delay task.attempt_count random)
            (message_of cause))
          (λ t. ground arith) (λ t. ground arith) refl
          (SameNumbers-update _ _ (λ a. refl) (λ a. refl) db.attempts) refl refl refl
          (λ t h r. fail_row-IsRow db.runs _ now _ _ t (fenced-running now task_id attempt t h) r)
          v)

recover_row-IsRow :
    (runs : List WorkflowRun) (now : ℕ) (task : CrawlTask)
    → is_running_task task.status ≡ true
    → IsRow runs task
    → IsRow runs (recover_row now task task)
unfolding recover_row
recover_row-IsRow runs now task running r = ground (arith, r)

recover_row-id : (now : ℕ) (task t : CrawlTask) → (recover_row now task t).id ≡ t.id
unfolding recover_row
recover_row-id now task t = refl

recover_row-attempt_count :
    (now : ℕ) (task t : CrawlTask) → (recover_row now task t).attempt_count ≡ t.attempt_count
unfolding recover_row
recover_row-attempt_count now task t = refl

pub recover_expired_task-IsConsistent :
    (now id : ℕ) (db : Db) {db' : Db}
    → IsConsistent db
    → recover_expired_task now id db ≡ some db'
    → IsConsistent db'
unfolding recover_expired_task
recover_expired_task-IsConsistent now id db {db'} v e =
    elim (Option-cases (first (λ t. (t.id == id) && lease_expired now t) db.tasks)) [
      | inl missing ↦ absurd (ground arith)
      | inr (task, found) ↦
          let meets = first_meets (λ t. (t.id == id) && lease_expired now t) db.tasks found in
          let here : task.id ≡ id = ground (arith, meets) in
          let running : is_running_task task.status ≡ true = ground (arith, meets) in
          subst IsConsistent (some-injective (rw (found, recover_expired_task) at e)) (
            amend-IsConsistent db _ (λ t. t.id == task.id) (recover_row now task)
              (recover_row-id now task) (recover_row-attempt_count now task) refl
              (SameNumbers-update _ _ (λ a. refl) (λ a. refl) db.attempts) refl v.fresh_runs
              (All-update_to {P = λ t. IsRow db.runs t × (t.id ≡ id → t ≡ task)}
                (λ t. t.id == task.id) (recover_row now task)
                (λ t hit p.
                  let same : t ≡ task = p.1 (ground (arith, here)) in
                  subst (λ u. IsRow db.runs (recover_row now task u)) (sym same)
                    (recover_row-IsRow db.runs now task running (subst (IsRow db.runs) same p.0)))
                (λ t miss p. p.0) db.tasks
                (All-map_both (λ t r u. (r, u)) db.tasks v.rows
                  (keyed_unique id (λ t. (t.id == id) && lease_expired now t) (λ t h. ground arith)
                    db.tasks v.distinct found)))
              v)
    ]
