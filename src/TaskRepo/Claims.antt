-- ===== src/TaskRepo/Claims.antt =====
-- Claiming a task (`claimNext`, `ClaimNext`, `ClaimNextType`, `StartAttempt`) and the lease of a
-- claim (`RenewLease`, `CheckAttempt`, `WithActiveAttempt`, `SaveAttemptDocument`) of
-- internal/repo/task_repo/tasks.go. What a function reads before it holds the locks is read from
-- a state of its own, `early`.
use get_magnet.Common.{
  ℕ, suc, ◌+◌, ◌*◌, ◌==◌, ltb, leb, Bool, false, not, ◌&&◌, Option, none, some, String, List, [],
  ◌∷◌, ◌++◌, if◌then◌else◌, first, select, exists, count, update, Result, ok, guard, or_fail, ◌>>=◌,
  ◌>>◌,
}
use get_magnet.Table.Status.{TaskStatus, AttemptStatus}
use get_magnet.Table.Rows.{CrawlTask, TaskAttempt, RequestSnapshot}
use get_magnet.TaskRepo.Store.{
  Db, Error, stale_attempt, task_id_required, task_not_found, task_unavailable, lease_required,
  second, find_task, find_attempt, run_is_active, claimable, fenced, running_of, max_attempt_no,
  start_run, empty_snapshot, InputText, fallback_input,
}

pub record Claim : Type 0 where
  pub task : CrawlTask
  pub attempt : TaskAttempt

-- ORDER BY created_at LIMIT 1; of equal times the first row.
unfoldable pub oldest : List CrawlTask → Option CrawlTask
oldest [] = none
oldest (t ∷ ts) = elim (oldest ts) [
  | none ↦ some t
  | some u ↦ if leb t.created_at u.created_at then some t else some u
]

-- A lease that is not positive is five minutes; 0 stands for every such duration.
unfoldable pub lease_or_default : ℕ → ℕ
lease_or_default lease = if lease == 0 then 300 * second else lease

-- The columns of `crawl_tasks` that a claim sets.
abbrev pub take_task : ℕ → String → ℕ → ℕ → CrawlTask → CrawlTask
take_task now worker until attempt_no t = record t {
  status = TaskStatus.running;
  attempt_count = attempt_no;
  lease_owner = worker;
  lease_until = some until;
  updated_at = now;
}

abbrev pub new_attempt : Db → ℕ → ℕ → String → ℕ → RequestSnapshot → TaskAttempt
new_attempt db now task_id worker attempt_no request = record {
  id = db.next_attempt_id;
  task_id = task_id;
  attempt_no = attempt_no;
  worker_id = worker;
  status = AttemptStatus.running;
  started_at = some now;
  finished_at = none;
  duration_ms = 0;
  request_snapshot = request;
  response_snapshot = empty_snapshot;
  error_message = "";
}

abbrev pub interrupt : ℕ → String → TaskAttempt → TaskAttempt
interrupt now message a = record a {
  status = AttemptStatus.interrupted;
  finished_at = some now;
  error_message = message;
}

-- The writes of `claimNext`, once the task has been read again under its lock.
unfoldable pub claim_row : ℕ → String → ℕ → String → CrawlTask → Db → Db × Claim
unfolding start_run
claim_row now worker lease task_type task db =
    let until = now + lease in
    let no = task.attempt_count + 1 in
    let attempt = new_attempt db now task.id worker no (RequestSnapshot.of_input task.input) in
    (
      record db {
        tasks =
            update (λ t. (t.id == task.id) && claimable now db.runs task_type t)
              (take_task now worker until no) db.tasks;
        attempts =
            update (running_of task.id) (interrupt now "lease expired before reclaim") db.attempts
            ++ attempt ∷ [];
        runs = start_run now task.run_id db.runs;
        next_attempt_id = suc db.next_attempt_id;
      },
      record {
        task = record task {
          status = TaskStatus.running;
          attempt_count = no;
          lease_owner = worker;
          lease_until = some until;
        };
        attempt = attempt;
      },
    )

-- The second half of `claimNext`: with the run and the task locked, the candidate must still be
-- claimable.
unfoldable pub claim_task : ℕ → String → ℕ → String → CrawlTask → Db → Option (Db × Claim)
unfolding claim_row
claim_task now worker lease task_type candidate db =
    if run_is_active candidate.run_id db.runs
    then (elim (first (λ t. (t.id == candidate.id) && claimable now db.runs task_type t) db.tasks) [
      | none ↦ none
      | some task ↦ some (claim_row now worker lease task_type task db)
    ])
    else none

-- `ClaimNext` passes no type, and `ClaimNextType` the worker's, trimmed.
unfoldable pub claim_next : Db → ℕ → String → ℕ → String → Db → Option (Db × Claim)
unfolding claim_task oldest lease_or_default
claim_next early now worker lease task_type db =
    elim (oldest (select (claimable now early.runs task_type) early.tasks)) [
      | none ↦ none
      | some candidate ↦ claim_task now worker (lease_or_default lease) task_type candidate db
    ]

unfoldable pub start_attempt : ℕ → ℕ → String → InputText → Db → Result Error (Db × TaskAttempt)
start_attempt now task_id worker input db = do
  guard (ltb 0 task_id) task_id_required
  task ← or_fail (find_task task_id db) task_not_found
  let no = max_attempt_no task_id db.attempts + 1
  let attempt = new_attempt db now task_id worker no (fallback_input input)
  let taken = λ (t : CrawlTask). (t.id == task_id) && claimable now db.runs "" t
  guard (not (count taken db.tasks == 0)) task_unavailable
  ok (
    record db {
      tasks = update taken (take_task now worker (now + 300 * second) no) db.tasks;
      attempts = db.attempts ++ attempt ∷ [];
      next_attempt_id = suc db.next_attempt_id;
    },
    attempt,
  )

abbrev pub renew_row : ℕ → ℕ → CrawlTask → CrawlTask
renew_row now lease t = record t { lease_until = some (now + lease); updated_at = now }

unfoldable pub renew_lease : ℕ → ℕ → TaskAttempt → ℕ → Db → Result Error Db
renew_lease now task_id attempt lease db = do
  guard (ltb 0 lease) lease_required
  guard (count (fenced now task_id attempt) db.tasks == 1) stale_attempt
  ok (record db { tasks = update (fenced now task_id attempt) (renew_row now lease) db.tasks })

unfoldable pub check_attempt : ℕ → ℕ → TaskAttempt → Db → Result Error (Unit {0})
check_attempt now task_id attempt db =
    guard (exists (fenced now task_id attempt) db.tasks) stale_attempt

-- `!has || attempt.TaskId != taskID || attempt.Status != TaskRunning` is stale.
unfoldable pub active_attempt : ℕ → ℕ → Db → Result Error TaskAttempt
active_attempt task_id attempt_id db = do
  attempt ← or_fail (find_attempt attempt_id db) stale_attempt
  guard (running_of task_id attempt) stale_attempt
  ok attempt

unfoldable pub check_attempt_id : Db → ℕ → ℕ → ℕ → Db → Result Error (Unit {0})
unfolding active_attempt check_attempt
check_attempt_id early now task_id attempt_id db = do
  attempt ← active_attempt task_id attempt_id early
  check_attempt now task_id attempt db

-- The run of the task, if both rows are there (a JOIN by the task's id).
unfoldable pub task_run_active : ℕ → Db → Bool
task_run_active task_id db = elim (find_task task_id db) [
  | none ↦ false
  | some t ↦ run_is_active t.run_id db.runs
]

module _ {A : Type 0} where
  -- `write` runs while the run and the task are locked; its error rolls all of it back.
  unfoldable pub with_active_attempt :
      ℕ → ℕ → TaskAttempt → (Db → Result Error (Db × A)) → Db → Result Error (Db × A)
  unfolding task_run_active
  with_active_attempt now task_id attempt write db = do
    guard (task_run_active task_id db) stale_attempt
    guard (exists (fenced now task_id attempt) db.tasks) stale_attempt
    write db

  unfoldable pub with_active_attempt_id :
      Db → ℕ → ℕ → ℕ → (Db → Result Error (Db × A)) → Db → Result Error (Db × A)
  unfolding active_attempt with_active_attempt
  with_active_attempt_id early now task_id attempt_id write db = do
    attempt ← active_attempt task_id attempt_id early
    with_active_attempt now task_id attempt write db

-- `output_document_id` of the task.
unfoldable pub save_document : ℕ → ℕ → Db → Db
save_document task_id document_id db = record db {
  tasks =
      update (λ t. t.id == task_id) (λ t. record t { output_document_id = some document_id })
        db.tasks;
}

-- The document is written and tied to the task in one transaction.
unfoldable pub save_attempt_document :
    ℕ → Claim → (Db → Result Error (Db × ℕ)) → Db → Result Error (Db × ℕ)
unfolding with_active_attempt save_document
save_attempt_document now claim write = with_active_attempt now claim.task.id claim.attempt λ db. do
  (db', document_id) ← write db
  ok (save_document claim.task.id document_id db', document_id)
