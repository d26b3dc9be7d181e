-- ===== src/TaskRepo/Refusals/Pages.antt =====
-- `ReservePage`, `CheckPageURL`, `CompleteLimited` (internal/repo/task_repo/budgets.go),
-- `CreateTaskForAttempt` and `SaveAttemptDocument` (tasks.go) of an attempt that is refused.
use get_magnet.Common.{
  ok, ◌>>=◌, All-first, first, first_meets, Option-cases, sym, ◌∙◌, ◌&&◌, String, and_left, ℕ, ◌<◌,
  ◌==◌, ltb, ◌≡◌, refl, true, false, some, exists-none, inl, inr, Bool-cases, arith, Result, err,
  chains,
}
use get_magnet.CrawlPolicy.{Urls}
use get_magnet.Table.Status.{is_running_task}
use get_magnet.Table.Rows.{CrawlTask, TaskAttempt, TaskInput, Reason}
use get_magnet.TaskRepo.Claims.{save_attempt_document, save_document, Claim}
use get_magnet.TaskRepo.Budgets.{reserve_page, check_page_url}
use get_magnet.TaskRepo.Create.{
  Request, create_task_for_attempt, create_task, create_child, running_parent, attempt_holds,
}
use get_magnet.TaskRepo.Finish.{complete_limited}
use get_magnet.TaskRepo.Store.{Db, Error, run_is_active, stale_attempt, fenced}
use get_magnet.TaskRepo.Refusals.{Shut, check_attempt-Shut, with_active_attempt-Shut, is_error}

module _ (urls : Urls) where
  pub reserve_page-Shut :
      (now : ℕ) (claim : Claim) (page_url : String) (db : Db)
      → Shut now claim.task.id claim.attempt db
      → reserve_page urls now claim page_url db ≡ err stale_attempt
  unfolding reserve_page chains Shut
  reserve_page-Shut now claim page_url db shut =
      rw (reserve_page, exists-none (fenced now claim.task.id claim.attempt) db.tasks shut)
        (elim (Bool-cases (run_is_active claim.task.run_id db.runs)) [
          | inl active ↦ rw active refl
          | inr over ↦ rw over refl
        ])

  pub check_page_url-Shut :
      (now : ℕ) (claim : Claim) (page_url : String) (db : Db)
      → Shut now claim.task.id claim.attempt db
      → check_page_url urls now claim page_url db ≡ err stale_attempt
  unfolding check_page_url chains Shut
  check_page_url-Shut now claim page_url db shut =
      rw (check_page_url, check_attempt-Shut now claim.task.id claim.attempt db shut)
        (elim (Bool-cases (run_is_active claim.task.run_id db.runs)) [
          | inl active ↦ rw active refl
          | inr over ↦ rw over refl
        ])

  holder-fenced :
      (now task_id : ℕ) (attempt : TaskAttempt) (t : CrawlTask)
      → (t.id == task_id) ≡ true
      → is_running_task t.status ≡ true
      → fenced now task_id attempt t ≡ attempt_holds now attempt t
  unfolding fenced
  holder-fenced now task_id attempt t own running = rw (own, running) refl

  -- The parent that a child's creation finds is the task, which the attempt does not hold.
  pub create_child-Shut :
      (now : ℕ) (q : Request) (attempt : TaskAttempt) (db : Db)
      → Shut now q.parent attempt db
      → create_child urls now q (some attempt) db ≡ err stale_attempt
  unfolding create_child running_parent chains Shut
  create_child-Shut now q attempt db shut =
      elim (Option-cases (first (λ t. (t.id == q.parent) && (t.run_id == q.run_id)) db.tasks)) [
        | inl gone ↦ rw (create_child, running_parent, gone) refl
        | inr (t, found) ↦ elim (Bool-cases (is_running_task t.status)) [
          | inr stopped ↦ rw (create_child, running_parent, found, stopped) refl
          | inl running ↦
              let own : (t.id == q.parent) ≡ true =
                and_left (t.id == q.parent) (t.run_id == q.run_id) (
                  first_meets (λ t. (t.id == q.parent) && (t.run_id == q.run_id)) db.tasks found) in
              let closed : fenced now q.parent attempt t ≡ false =
                All-first (λ (t : CrawlTask). fenced now q.parent attempt t ≡ false)
                  (λ t. (t.id == q.parent) && (t.run_id == q.run_id)) db.tasks shut found in
              let lost : attempt_holds now attempt t ≡ false =
                sym (holder-fenced now q.parent attempt t own running) ∙ closed in
              rw (create_child, running_parent, found, running, lost) refl
        ]
      ]

  abbrev child_request : Claim → String → TaskInput → Request
  child_request claim step_name input = record {
    run_id = claim.task.run_id;
    parent = claim.task.id;
    step_name = step_name;
    task_type = "workflow";
    input = input;
    max_attempts = 5;
  }

  pub create_task_for_attempt-Shut :
      (now : ℕ) (claim : Claim) (step_name : String) (input : TaskInput) (db : Db)
      → 0 < claim.task.id
      → Shut now claim.task.id claim.attempt db
      → is_error (create_task_for_attempt urls now claim step_name input db) ≡ true
  unfolding create_task_for_attempt create_task chains
  create_task_for_attempt-Shut now claim step_name input db positive shut =
      let child : ltb 0 claim.task.id ≡ true = ground (arith, positive) in
      elim (Bool-cases (ltb 0 claim.task.run_id)) [
        | inr unnamed ↦ rw (create_task_for_attempt, create_task, unnamed) refl
        | inl named ↦ elim (Bool-cases (run_is_active claim.task.run_id db.runs)) [
          | inr over ↦ rw (create_task_for_attempt, create_task, named, over) refl
          | inl active ↦
              rw
                (
                  create_task_for_attempt,
                  create_task,
                  named,
                  active,
                  child,
                  create_child-Shut now (child_request claim step_name input) claim.attempt db shut,
                )
                refl
        ]
      ]

-- The document's write and its tie to the task.
abbrev pub saved : Claim → (Db → Result Error (Db × ℕ)) → Db → Result Error (Db × ℕ)
saved claim write db = write db >>= (λ (w : Db × ℕ). ok (save_document claim.task.id w.1 w.0, w.1))

pub save_attempt_document-Shut :
    (now : ℕ) (claim : Claim) (write : Db → Result Error (Db × ℕ)) (db : Db)
    → Shut now claim.task.id claim.attempt db
    → save_attempt_document now claim write db ≡ err stale_attempt
unfolding save_attempt_document
save_attempt_document-Shut now claim write db shut =
    with_active_attempt-Shut now claim.task.id claim.attempt (saved claim write) db shut

pub complete_limited-Shut :
    (now : ℕ) (claim : Claim) (page_url : String) (reason : Reason) (encoded : String) (db : Db)
    → Shut now claim.task.id claim.attempt db
    → complete_limited now claim page_url reason encoded db ≡ (db, err stale_attempt)
unfolding complete_limited
complete_limited-Shut now claim page_url reason encoded db shut =
    rw (complete_limited, check_attempt-Shut now claim.task.id claim.attempt db shut) refl
