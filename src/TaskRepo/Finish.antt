-- ===== src/TaskRepo/Finish.antt =====
-- The end of an attempt: `Complete`, `completeStatus`, `Fail` and `CompleteLimited` of
-- internal/repo/task_repo (tasks.go, budgets.go). Each reads its attempt (and `Fail` its task)
-- before the transaction, from the state `early`; the run's end is a transaction of its own.
use get_magnet.Common.{
  ℕ, ◌+◌, ◌-◌, ◌/◌, ◌==◌, ltb, Bool, true, ◌&&◌, Option, none, some, String, str_eq, [], ◌∷◌, ◌++◌,
  if◌then◌else◌, exists, count, update, min, ◌^◌, Result, ok, err, guard, or_fail, ◌>>=◌, ◌>>◌,
}
use get_magnet.Table.Status.{AttemptStatus, TaskStatus}
use get_magnet.Table.Rows.{CrawlTask, TaskAttempt, LimitRow, Reason, Snapshot, Output}
use get_magnet.TaskRepo.Backoff.{backoff_delay}
use get_magnet.TaskRepo.Claims.{Claim, check_attempt}
use get_magnet.TaskRepo.Outcome.{try_finish_run, same_reason}
use get_magnet.TaskRepo.Store.{
  Db, Error, stale_attempt, task_not_found, attempt_not_found, find_task, find_attempt, fenced,
  running_of, running_by_id, JsonText, fallback_json,
}

-- `now.Sub(timeOrZero(started)).Milliseconds()`, at most the largest duration. A clock that runs
-- backwards gives 0 here.
unfoldable pub duration_ms : ℕ → Option ℕ → ℕ
duration_ms now started_at =
    min (now - (elim started_at [ none ↦ 0 | some at ↦ at ])) (2 ^ 63 - 1) / 1_000_000

abbrev pub release : CrawlTask → CrawlTask
release t = record t { lease_owner = ""; lease_until = none }

-- Complete sets a task and its attempt to one word: succeeded or limited.
pub data Ending : Type 0 where
  succeeded limited : Ending

abbrev pub ending_task : Ending → TaskStatus
ending_task succeeded = TaskStatus.succeeded
ending_task limited = TaskStatus.limited

abbrev pub ending_attempt : Ending → AttemptStatus
ending_attempt succeeded = AttemptStatus.succeeded
ending_attempt limited = AttemptStatus.limited

abbrev pub end_task : ℕ → TaskStatus → CrawlTask → CrawlTask
end_task now status t = record (release t) {
  status = status;
  updated_at = now;
  finished_at = some now;
}

abbrev pub end_attempt : ℕ → ℕ → Snapshot → AttemptStatus → TaskAttempt → TaskAttempt
end_attempt now spent response status a = record a {
  status = status;
  finished_at = some now;
  duration_ms = spent;
  response_snapshot = response;
}

-- The transaction of `completeStatus`: it commits only if the fence and the running attempt are
-- each met by one row.
unfoldable pub complete_commit : Db → ℕ → ℕ → ℕ → JsonText → Ending → Db → Result Error Db
unfolding duration_ms
complete_commit early now task_id attempt_id response ending db = do
  attempt ← or_fail (find_attempt attempt_id early) attempt_not_found
  guard (running_of task_id attempt) stale_attempt
  guard (count (fenced now task_id attempt) db.tasks == 1) stale_attempt
  guard (count (running_by_id attempt_id) db.attempts == 1) stale_attempt
  ok (record db {
    tasks = update (fenced now task_id attempt) (end_task now (ending_task ending)) db.tasks;
    attempts =
        update (running_by_id attempt_id)
          (end_attempt now (duration_ms now attempt.started_at) (fallback_json response)
            (ending_attempt ending))
          db.attempts;
  })

-- `completeStatus` with the end of the run, which reads the task from the committed state.
unfoldable pub complete_status : Db → ℕ → ℕ → ℕ → JsonText → Ending → Db → Result Error Db
unfolding complete_commit
complete_status early now task_id attempt_id response ending db = do
  db' ← complete_commit early now task_id attempt_id response ending db
  ok (try_finish_run db' now task_id db')

unfoldable pub complete : Db → ℕ → ℕ → ℕ → JsonText → Db → Result Error Db
unfolding complete_status
complete early now task_id attempt_id response =
    complete_status early now task_id attempt_id response succeeded

-- What failed: the error's text (`none` is a nil error), and the evidence that it carries.
pub record Cause : Type 0 where
  pub message : Option String
  pub evidence : Option Snapshot

unfoldable pub message_of : Cause → String
message_of c = elim c.message [ none ↦ "task failed" | some m ↦ m ]

unfoldable pub will_retry : Bool → CrawlTask → Bool
will_retry retryable t = retryable && ltb t.attempt_count t.max_attempts

-- The task goes back to the queue, not before the delay has passed.
abbrev pub requeue : ℕ → ℕ → String → CrawlTask → CrawlTask
requeue now delay message t = record (release t) {
  status = TaskStatus.queued;
  next_retry_at = some (now + delay);
  error_message = message;
  updated_at = now;
}

abbrev pub bury : ℕ → String → CrawlTask → CrawlTask
bury now message t = record (end_task now TaskStatus.dead_letter t) { error_message = message }

unfoldable pub fail_attempt : ℕ → Cause → TaskAttempt → TaskAttempt
unfolding message_of
fail_attempt now cause a = record a {
  status = AttemptStatus.failed;
  finished_at = some now;
  error_message = message_of cause;
  response_snapshot = elim cause.evidence [ none ↦ a.response_snapshot | some s ↦ s ];
}

abbrev pub fail_row : Bool → ℕ → ℕ → String → CrawlTask → CrawlTask
fail_row again now delay message t =
    if again then requeue now delay message t else bury now message t

-- The transaction of `Fail`; the result says whether the task will be tried again. The number of
-- attempts is that of the task as it was read.
unfoldable pub fail_commit : Db → ℕ → (ℕ → ℕ) → ℕ → ℕ → Cause → Bool → Db → Result Error (Db × Bool)
unfolding will_retry fail_attempt backoff_delay
fail_commit early now random task_id attempt_id cause retryable db = do
  task ← or_fail (find_task task_id early) task_not_found
  attempt ← or_fail (find_attempt attempt_id early) attempt_not_found
  guard (running_of task_id attempt) stale_attempt
  let again = will_retry retryable task
  guard (count (fenced now task_id attempt) db.tasks == 1) stale_attempt
  guard (count (running_by_id attempt_id) db.attempts == 1) stale_attempt
  ok (
    record db {
      tasks =
          update (fenced now task_id attempt)
            (fail_row again now (backoff_delay task.attempt_count random) (message_of cause))
            db.tasks;
      attempts = update (running_by_id attempt_id) (fail_attempt now cause) db.attempts;
    },
    again,
  )

-- `Fail`: the run may end only if the task will not be tried again.
unfoldable pub fail : Db → ℕ → (ℕ → ℕ) → ℕ → ℕ → Cause → Bool → Db → Result Error (Db × Bool)
unfolding fail_commit
fail early now random task_id attempt_id cause retryable db = do
  (db', again) ← fail_commit early now random task_id attempt_id cause retryable db
  ok (if again then db' else try_finish_run db' now task_id db', again)

abbrev pub same_limit : LimitRow → LimitRow → Bool
same_limit e f =
    (e.run_id == f.run_id)
    && (e.task_id == f.task_id)
    && str_eq e.page_role f.page_role
    && str_eq e.url f.url
    && same_reason e.reason f.reason

-- INSERT … ON CONFLICT DO NOTHING, with all the columns for the key.
unfoldable pub limit_event : LimitRow → Db → Db
limit_event e db =
    if exists (same_limit e) db.limit_events
    then db
    else record db { limit_events = db.limit_events ++ e ∷ [] }

abbrev pub limit_row : CrawlTask → String → Reason → LimitRow
limit_row t page_url reason = record {
  run_id = t.run_id;
  task_id = t.id;
  page_role = t.step_name;
  url = page_url;
  reason = reason;
}

abbrev limited_output : Output
limited_output = record {
  discovered_count = 0;
  resource_id = 0;
  limited = true;
  record_results = [];
}

-- `CompleteLimited`: the limit is recorded first, in a statement of its own, so it stays if the
-- attempt turns out to be stale. `encoded` is the JSON text of the output.
unfoldable pub complete_limited : ℕ → Claim → String → Reason → String → Db → Db × Result Error Db
unfolding check_attempt limit_event complete_status
complete_limited now claim page_url reason encoded db =
    let db' = limit_event (limit_row claim.task page_url reason) db in
    elim (check_attempt now claim.task.id claim.attempt db) [
      | err e ↦ (db, err e)
      | ok _ ↦ (
        db',
        complete_status db' now claim.task.id claim.attempt.id
            (JsonText.document encoded (some limited_output)) limited db',
      )
    ]
