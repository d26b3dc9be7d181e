-- ===== src/Table/Status.antt =====
-- The status words of internal/repo/task_repo/tasks.go. Each column takes few words; the
-- types say which.
use get_magnet.Common.{Bool, true, false}

pub data RunStatus : Type 0 where
  queued running succeeded partial limited failed cancelled interrupted : RunStatus

pub data TaskStatus : Type 0 where
  queued running succeeded failed cancelled dead_letter limited : TaskStatus

-- What `task_attempts.status` is set to.
pub data AttemptStatus : Type 0 where
  running succeeded limited failed cancelled interrupted : AttemptStatus

-- `status IN (RunQueued, RunRunning)`
abbrev pub is_active_run : RunStatus → Bool
is_active_run RunStatus.queued = true
is_active_run RunStatus.running = true
is_active_run _ = false

abbrev pub is_queued_run : RunStatus → Bool
is_queued_run RunStatus.queued = true
is_queued_run _ = false

-- `status IN (RunFailed, RunPartial, RunRunning)`
abbrev pub is_retryable_run : RunStatus → Bool
is_retryable_run RunStatus.failed = true
is_retryable_run RunStatus.partial = true
is_retryable_run RunStatus.running = true
is_retryable_run _ = false

abbrev pub is_queued_task : TaskStatus → Bool
is_queued_task TaskStatus.queued = true
is_queued_task _ = false

abbrev pub is_running_task : TaskStatus → Bool
is_running_task TaskStatus.running = true
is_running_task _ = false

-- `status IN (TaskQueued, TaskRunning)`
abbrev pub is_active_task : TaskStatus → Bool
is_active_task TaskStatus.queued = true
is_active_task TaskStatus.running = true
is_active_task _ = false

-- `status IN (TaskDeadLetter, TaskFailed)`
abbrev pub is_failed_task : TaskStatus → Bool
is_failed_task TaskStatus.dead_letter = true
is_failed_task TaskStatus.failed = true
is_failed_task _ = false

abbrev pub is_limited_task : TaskStatus → Bool
is_limited_task TaskStatus.limited = true
is_limited_task _ = false

abbrev pub is_running_attempt : AttemptStatus → Bool
is_running_attempt AttemptStatus.running = true
is_running_attempt _ = false

abbrev pub is_succeeded_attempt : AttemptStatus → Bool
is_succeeded_attempt AttemptStatus.succeeded = true
is_succeeded_attempt _ = false
