-- ===== src/TaskRepo/Invariant.antt =====
-- What holds of the tables between two transactions, and the rule by which an update of task
-- rows keeps it. The transactions follow in the modules below.
pub mod Runs
pub mod Keys
pub mod Ending
pub mod Taking
pub mod Claiming
pub mod Cancelling
pub mod Adding
pub mod Reviving
pub mod Pages
use get_magnet.Common.{
  ℕ, ◌≤◌, ◌<◌, ◌≡◌, refl, sym, ◌∙◌, ap, ◌≢◌, Bool, true, List, [], ◌∷◌, map, holds, update, All,
  All-update, All-update_to, map-update, arith,
}
use get_magnet.Table.Status.{is_active_task, is_running_task}
use get_magnet.Table.Rows.{CrawlTask, TaskAttempt, WorkflowRun}
use get_magnet.TaskRepo.Cancel.{task_id_of}
use get_magnet.TaskRepo.Store.{Db, run_is_active, max_attempt_no}

abbrev pub is_leased : CrawlTask → Bool
is_leased t = holds (λ (_ : ℕ). true) t.lease_until

-- A task that is queued or running belongs to an active run, exactly the running tasks have a
-- lease, and no task has more attempts than it may have.
pub record IsRow (runs : List WorkflowRun) (t : CrawlTask) : Type 0 where
  pub live : is_active_task t.status ≡ true → run_is_active t.run_id runs ≡ true
  pub leased : is_leased t ≡ is_running_task t.status
  pub capped : t.attempt_count ≤ t.max_attempts

abbrev pub Distinct : List ℕ → Type 0
Distinct [] = Unit {0}
Distinct (n ∷ ns) = All (λ m. m ≢ n) ns × Distinct ns

abbrev pub ids : List CrawlTask → List ℕ
ids tasks = map task_id_of tasks

pub record IsConsistent (db : Db) : Type 0 where
  pub rows : All (IsRow db.runs) db.tasks
  -- A task's count is the number of its latest attempt.
  pub numbered : All (λ t. t.attempt_count ≡ max_attempt_no t.id db.attempts) db.tasks
  pub distinct : Distinct (ids db.tasks)
  pub fresh_tasks : All (λ id. id < db.next_task_id) (ids db.tasks)
  pub fresh_attempts : All (λ a. a.task_id < db.next_task_id) db.attempts
  pub fresh_runs : All (λ r. r.id < db.next_run_id) db.runs

-- Attempts that belong to the same tasks under the same numbers.
pub record SameNumbers (xs ys : List TaskAttempt) : Type 0 where
  pub numbers : (id : ℕ) → max_attempt_no id ys ≡ max_attempt_no id xs
  pub fresh : (n : ℕ) → All (λ a. a.task_id < n) xs → All (λ a. a.task_id < n) ys

pub SameNumbers-refl : (xs : List TaskAttempt) → SameNumbers xs xs
SameNumbers-refl xs = record { numbers = λ id. refl; fresh = λ n h. h }

max_attempt_no-update :
    (d : TaskAttempt → Bool) (g : TaskAttempt → TaskAttempt)
    → ((a : TaskAttempt) → (g a).task_id ≡ a.task_id)
    → ((a : TaskAttempt) → (g a).attempt_no ≡ a.attempt_no)
    → (id : ℕ) (xs : List TaskAttempt) → max_attempt_no id (update d g xs) ≡ max_attempt_no id xs
unfolding max_attempt_no update
max_attempt_no-update d g same number id [] = refl
max_attempt_no-update d g same number id (a ∷ xs) =
    ground (arith, same a, number a, max_attempt_no-update d g same number id xs)

pub SameNumbers-update :
    (d : TaskAttempt → Bool) (g : TaskAttempt → TaskAttempt)
    → ((a : TaskAttempt) → (g a).task_id ≡ a.task_id)
    → ((a : TaskAttempt) → (g a).attempt_no ≡ a.attempt_no)
    → (xs : List TaskAttempt) → SameNumbers xs (update d g xs)
SameNumbers-update d g same number xs = record {
  numbers = λ id. max_attempt_no-update d g same number id xs;
  fresh = λ n h. All-update (λ a. a.task_id < n) d g (λ a _ p. rw (same a) p) xs h;
}

-- Task rows are changed in place, under the same ids and attempt numbers.
pub amend-IsConsistent :
    (db db' : Db) (c : CrawlTask → Bool) (f : CrawlTask → CrawlTask)
    → ((t : CrawlTask) → (f t).id ≡ t.id)
    → ((t : CrawlTask) → (f t).attempt_count ≡ t.attempt_count)
    → db'.tasks ≡ update c f db.tasks
    → SameNumbers db.attempts db'.attempts
    → db'.next_task_id ≡ db.next_task_id
    → All (λ r. r.id < db'.next_run_id) db'.runs
    → All (IsRow db'.runs) (update c f db.tasks)
    → IsConsistent db
    → IsConsistent db'
amend-IsConsistent db db' c f same number tasks attempts next runs rows v = record {
  rows = rw tasks rows;
  numbered = rw tasks (
      All-update_to c f
        (λ t _ p.
          number t
          ∙ p
          ∙ sym (attempts.numbers t.id)
          ∙ ap (λ id. max_attempt_no id db'.attempts) (sym (same t)))
        (λ t _ p. p ∙ sym (attempts.numbers t.id)) db.tasks v.numbered);
  distinct = rw (tasks, map-update task_id_of c f same db.tasks) v.distinct;
  fresh_tasks = rw (tasks, map-update task_id_of c f same db.tasks, next) v.fresh_tasks;
  fresh_attempts = rw next (attempts.fresh _ v.fresh_attempts);
  fresh_runs = runs;
}

-- The same where the runs are left alone: each changed row must stay a row.
pub amend_rows-IsConsistent :
    (db db' : Db) (c : CrawlTask → Bool) (f : CrawlTask → CrawlTask)
    → ((t : CrawlTask) → (f t).id ≡ t.id)
    → ((t : CrawlTask) → (f t).attempt_count ≡ t.attempt_count)
    → db'.tasks ≡ update c f db.tasks
    → SameNumbers db.attempts db'.attempts
    → db'.next_task_id ≡ db.next_task_id
    → db'.next_run_id ≡ db.next_run_id
    → db'.runs ≡ db.runs
    → ((t : CrawlTask) → c t ≡ true → IsRow db.runs t → IsRow db.runs (f t))
    → IsConsistent db
    → IsConsistent db'
amend_rows-IsConsistent db db' c f same number tasks attempts next next_run runs keep v =
    amend-IsConsistent db db' c f same number tasks attempts next (rw (runs, next_run) v.fresh_runs)
      (rw runs (All-update (IsRow db.runs) c f keep db.tasks v.rows)) v
