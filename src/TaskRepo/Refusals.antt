-- ===== src/TaskRepo/Refusals.antt =====
-- The calls that an attempt guards, refused when no row of the task lets the attempt through: lease,
-- writes and ends (internal/repo/task_repo/tasks.go); `Pages` has those of budgets.go and createTask.
pub mod Pages
use get_magnet.Common.{
  ok, ◌>>=◌, All-first, errs, first, first_meets, Option-cases, sym, ◌∙◌, ◌&&◌, String, and_left, ℕ,
  suc, ◌≤◌, ◌<◌, ◌==◌, ltb, ◌≡◌, refl, Bool, true, false, some, All, All-map, count-none,
  exists-none, inl, inr, Bool-cases, arith, Result, err, chains,
}
use get_magnet.CrawlPolicy.{Urls}
use get_magnet.Table.Status.{TaskStatus, is_running_task}
use get_magnet.Table.Rows.{CrawlTask, TaskAttempt, TaskInput, Reason}
use get_magnet.TaskRepo.Claims.{
  renew_lease, check_attempt, check_attempt_id, active_attempt, with_active_attempt,
  with_active_attempt_id, save_attempt_document, save_document, task_run_active, Claim,
}
use get_magnet.TaskRepo.Budgets.{reserve_page, check_page_url}
use get_magnet.TaskRepo.Create.{
  Request, Created, create_task_for_attempt, create_task, create_child, running_parent,
  attempt_holds,
}
use get_magnet.TaskRepo.Finish.{Ending, Cause, complete_commit, fail_commit, complete_limited}
use get_magnet.TaskRepo.History.{Begun, HasStatus, is_final, Reach-Begun, Reach-final}
use get_magnet.TaskRepo.Invariant.{IsConsistent}
use get_magnet.TaskRepo.Steps.{Reach}
use get_magnet.TaskRepo.Store.{
  Db, Error, run_is_active, stale_attempt, find_task, find_attempt, fenced, running_of, JsonText,
}

abbrev pub is_error {ℓ} : {A : Type ℓ} → Result Error A → Bool
is_error r = errs (λ e. true) r

-- No row passes the fence.
unfoldable pub Shut : ℕ → ℕ → TaskAttempt → Db → Type 0
Shut now task_id attempt db = All (λ t. fenced now task_id attempt t ≡ false) db.tasks

pub complete_commit-Shut :
    (early : Db) (now task_id attempt_id : ℕ) (attempt : TaskAttempt) (response : JsonText)
    (ending : Ending) (db : Db)
    → find_attempt attempt_id early ≡ some attempt
    → Shut now task_id attempt db
    → complete_commit early now task_id attempt_id response ending db ≡ err stale_attempt
unfolding complete_commit chains Shut
complete_commit-Shut early now task_id attempt_id attempt response ending db read shut =
    rw (complete_commit, read, count-none (fenced now task_id attempt) db.tasks shut)
      (elim (Bool-cases (running_of task_id attempt)) [
        | inl own ↦ rw own refl
        | inr other ↦ rw other refl
      ])

pub fail_commit-Shut :
    (early : Db) (now : ℕ) (random : ℕ → ℕ) (task_id attempt_id : ℕ) (task : CrawlTask)
    (attempt : TaskAttempt) (cause : Cause) (retryable : Bool) (db : Db)
    → find_task task_id early ≡ some task
    → find_attempt attempt_id early ≡ some attempt
    → Shut now task_id attempt db
    → fail_commit early now random task_id attempt_id cause retryable db ≡ err stale_attempt
unfolding fail_commit chains Shut
fail_commit-Shut early now random task_id attempt_id task attempt cause retryable db known read
      shut =
    rw (fail_commit, known, read, count-none (fenced now task_id attempt) db.tasks shut)
      (elim (Bool-cases (running_of task_id attempt)) [
        | inl own ↦ rw own refl
        | inr other ↦ rw other refl
      ])

pub renew_lease-Shut :
    (now task_id : ℕ) (attempt : TaskAttempt) (lease : ℕ) (db : Db)
    → 0 < lease
    → Shut now task_id attempt db
    → renew_lease now task_id attempt lease db ≡ err stale_attempt
unfolding renew_lease chains Shut
renew_lease-Shut now task_id attempt lease db positive shut =
    let positive' : ltb 0 lease ≡ true = ground (arith, positive) in
    rw (renew_lease, positive', count-none (fenced now task_id attempt) db.tasks shut) refl

pub check_attempt-Shut :
    (now task_id : ℕ) (attempt : TaskAttempt) (db : Db)
    → Shut now task_id attempt db
    → check_attempt now task_id attempt db ≡ err stale_attempt
unfolding check_attempt chains Shut
check_attempt-Shut now task_id attempt db shut =
    rw (check_attempt, exists-none (fenced now task_id attempt) db.tasks shut) refl

pub with_active_attempt-Shut :
    {A : Type 0} (now task_id : ℕ) (attempt : TaskAttempt) (write : Db → Result Error (Db × A))
    (db : Db)
    → Shut now task_id attempt db
    → with_active_attempt now task_id attempt write db ≡ err stale_attempt
unfolding with_active_attempt chains Shut
with_active_attempt-Shut now task_id attempt write db shut =
    rw (with_active_attempt, exists-none (fenced now task_id attempt) db.tasks shut)
      (elim (Bool-cases (task_run_active task_id db)) [
        | inl active ↦ rw active refl
        | inr over ↦ rw over refl
      ])

pub check_attempt_id-Shut :
    (early : Db) (now task_id attempt_id : ℕ) (attempt : TaskAttempt) (db : Db)
    → find_attempt attempt_id early ≡ some attempt
    → Shut now task_id attempt db
    → check_attempt_id early now task_id attempt_id db ≡ err stale_attempt
unfolding check_attempt_id chains Shut
check_attempt_id-Shut early now task_id attempt_id attempt db read shut =
    rw (check_attempt_id, active_attempt, read)
      (elim (Bool-cases (running_of task_id attempt)) [
        | inl own ↦ rw (own, check_attempt-Shut now task_id attempt db shut) refl
        | inr other ↦ rw other refl
      ])

pub with_active_attempt_id-Shut :
    {A : Type 0} (early : Db) (now task_id attempt_id : ℕ) (attempt : TaskAttempt)
    (write : Db → Result Error (Db × A)) (db : Db)
    → find_attempt attempt_id early ≡ some attempt
    → Shut now task_id attempt db
    → with_active_attempt_id early now task_id attempt_id write db ≡ err stale_attempt
unfolding with_active_attempt_id chains Shut
with_active_attempt_id-Shut early now task_id attempt_id attempt write db read shut =
    rw (with_active_attempt_id, active_attempt, read)
      (elim (Bool-cases (running_of task_id attempt)) [
        | inl own ↦ rw (own, with_active_attempt-Shut now task_id attempt write db shut) refl
        | inr other ↦ rw other refl
      ])
