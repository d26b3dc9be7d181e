-- ===== src/TaskRepo/Cancelling.antt =====
-- What `CancelRun` leaves.
use get_magnet.Common.{
  exists, ℕ, ◌==◌, ◌≡◌, refl, ◌∙◌, Bool, true, false, not, ◌&&◌, List, [], ◌∷◌, All, All-map,
  select, update, exists-update_keep, select-update_apart, inl, inr, Bool-cases, arith, some,
  Ensures, Ensures-guard, succeeds, of_Ensures, ok,
}
use get_magnet.Table.Status.{TaskStatus, AttemptStatus}
use get_magnet.Table.Rows.{CrawlTask, TaskAttempt, WorkflowRun}
use get_magnet.TaskRepo.Cancel.{cancel_run, cancel_run_row, is_active_id, running_in_run}
use get_magnet.TaskRepo.Finish.{end_task}
use get_magnet.TaskRepo.Outcome.{is_live_in, in_run}
use get_magnet.TaskRepo.Store.{Db}

-- An attempt of a task of the run.
abbrev pub tries_in : ℕ → List CrawlTask → TaskAttempt → Bool
tries_in id tasks a = exists (λ t. (t.run_id == id) && (t.id == a.task_id)) tasks

-- No run of the id is active, none of its tasks is queued or running and none of its attempts
-- runs; the rows of other runs, their tasks and the attempts of those are as they were.
pub record IsOver (id : ℕ) (db db' : Db) : Type 0 where
  pub runs : All (λ r. is_active_id id r ≡ false) db'.runs
  pub tasks : All (λ t. is_live_in id t ≡ false) db'.tasks
  pub attempts : All (λ a. running_in_run id db'.tasks a ≡ false) db'.attempts
  pub others : select (λ t. not (in_run id t)) db'.tasks ≡ select (λ t. not (in_run id t)) db.tasks
  pub other_runs : select (λ r. not (r.id == id)) db'.runs ≡ select (λ r. not (r.id == id)) db.runs
  pub other_attempts :
      select (λ a. not (tries_in id db.tasks a)) db'.attempts
      ≡ select (λ a. not (tries_in id db.tasks a)) db.attempts

-- An update whose rows no longer meet its condition leaves none that do.
pub update-clears {ℓ} :
    {A : Type ℓ} (c : A → Bool) (f : A → A)
    → ((x : A) → c (f x) ≡ false)
    → (xs : List A) → All (λ x. c x ≡ false) (update c f xs)
unfolding update
update-clears c f cleared [] = tt
update-clears c f cleared (x ∷ xs) = elim (Bool-cases (c x)) [
  | inl t ↦ rw t (cleared x, update-clears c f cleared xs)
  | inr t ↦ rw t (t, update-clears c f cleared xs)
]

cancelled_id : (now id : ℕ) (r : WorkflowRun) → is_active_id id (cancel_run_row now r) ≡ false
cancelled_id now id r = ground arith

cancelled_live :
    (now id : ℕ) (t : CrawlTask) → is_live_in id (end_task now TaskStatus.cancelled t) ≡ false
cancelled_live now id t = ground arith

live-in_run :
    (now id : ℕ) (t : CrawlTask)
    → is_live_in id t ≡ true
    → (not (in_run id t) ≡ false) × (not (in_run id (end_task now TaskStatus.cancelled t)) ≡ false)
live-in_run now id t h = ground arith

cancelled_attempt :
    (id : ℕ) (tasks : List CrawlTask) (finished : ℕ) (a : TaskAttempt)
    → running_in_run id tasks
        (record a { status = AttemptStatus.cancelled; finished_at = some finished })
      ≡ false
cancelled_attempt id tasks finished a = ground arith

same_run :
    (now id : ℕ) (tasks : List CrawlTask) (a : TaskAttempt)
    → running_in_run id (update (is_live_in id) (end_task now TaskStatus.cancelled) tasks) a
      ≡ running_in_run id tasks a
same_run now id tasks a =
    rw
      (exists-update_keep (λ (t : CrawlTask). (t.run_id == id) && (t.id == a.task_id))
        (is_live_in id) (end_task now TaskStatus.cancelled) (λ t. refl) tasks)
      refl

active-own :
    (now id : ℕ) (r : WorkflowRun)
    → is_active_id id r ≡ true
    → (not (r.id == id) ≡ false) × (not ((cancel_run_row now r).id == id) ≡ false)
active-own now id r h = ground arith

running-own :
    (now id : ℕ) (tasks : List CrawlTask) (a : TaskAttempt)
    → running_in_run id tasks a ≡ true
    → (not (tries_in id tasks a) ≡ false)
      × (not (
            tries_in id tasks
              (record a { status = AttemptStatus.cancelled; finished_at = some now }))
          ≡ false)
running-own now id tasks a h = ground arith

cancel_run-Ensures : (now id : ℕ) (db : Db) → Ensures (IsOver id db) (cancel_run now id db)
unfolding cancel_run
cancel_run-Ensures now id db = Ensures-guard _ λ one. succeeds (record {
  runs = update-clears (is_active_id id) (cancel_run_row now) (cancelled_id now id) db.runs;
  tasks =
      update-clears (is_live_in id) (end_task now TaskStatus.cancelled) (cancelled_live now id)
        db.tasks;
  attempts =
      All-map (λ a over. same_run now id db.tasks a ∙ over) _
        (update-clears (running_in_run id db.tasks) _ (cancelled_attempt id db.tasks now)
          db.attempts);
  others =
      select-update_apart (λ t. not (in_run id t)) (is_live_in id)
        (end_task now TaskStatus.cancelled) (live-in_run now id) db.tasks;
  other_runs =
      select-update_apart (λ r. not (r.id == id)) (is_active_id id) (cancel_run_row now)
        (active-own now id) db.runs;
  other_attempts =
      select-update_apart (λ a. not (tries_in id db.tasks a)) (running_in_run id db.tasks)
        (λ a. record a { status = AttemptStatus.cancelled; finished_at = some now })
        (running-own now id db.tasks) db.attempts;
})

-- A cancelled run is over, with its tasks and attempts: the run is not active, no task of it is
-- queued or running, and no attempt at one of its tasks runs. The rows of other runs, their tasks
-- and the attempts at tasks of other runs are as they were.
pub cancel_run-IsOver :
    (now id : ℕ) (db : Db) {db' : Db} → cancel_run now id db ≡ ok db' → IsOver id db db'
cancel_run-IsOver now id db e = of_Ensures (cancel_run-Ensures now id db) e
