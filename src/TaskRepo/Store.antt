-- ===== src/TaskRepo/Store.antt =====
-- The tables behind internal/repo/task_repo, and the conditions that its statements share. A row
-- is found by its primary key; the new id of an insert is the table's next one.
use get_magnet.Common.{
  ℕ, ◌==◌, ltb, leb, max, Bool, true, ◌&&◌, ◌||◌, Option, none, some, String, str_eq, List, [], ◌∷◌,
  if◌then◌else◌, holds, first, update,
}
use get_magnet.CrawlPolicy.{PolicyDefinition}
use get_magnet.Table.Status.{
  is_active_run, is_queued_run, is_queued_task, is_running_task, is_running_attempt, RunStatus,
}
use get_magnet.Table.Rows.{
  WorkflowRun, CrawlTask, TaskAttempt, LimitRow, DomainRow, Observation, TaskInput, RequestSnapshot,
  empty_input, Snapshot, Output,
}
use get_magnet.TaskRepo.Summary.{empty_output}

-- What a run reads of its `workflow_versions` row.
pub record Version : Type 0 where
  pub id : ℕ
  pub definition : PolicyDefinition

pub record Db : Type 0 where
  pub runs : List WorkflowRun
  pub tasks : List CrawlTask
  pub attempts : List TaskAttempt
  pub limit_events : List LimitRow
  pub run_domains : List DomainRow
  pub observations : List Observation
  pub versions : List Version
  pub next_run_id : ℕ
  pub next_task_id : ℕ
  pub next_attempt_id : ℕ

-- The errors that the repository returns. An error rolls its transaction back.
pub data Error : Type 0 where
  stale_attempt run_id_required run_inactive task_id_required task_not_found : Error
  attempt_not_found task_unavailable lease_required run_not_active_for_cancel : Error
  task_not_active only_active_runs run_not_retryable run_no_longer_retryable : Error
  budget_expired only_failed_tasks run_not_found root_not_found budget_missing : Error
  version_not_found invalid_budget invalid_input : Error

abbrev pub second : ℕ
second = 1_000_000_000

abbrev pub find_run : ℕ → Db → Option WorkflowRun
find_run id db = first (λ r. r.id == id) db.runs

abbrev pub find_task : ℕ → Db → Option CrawlTask
find_task id db = first (λ t. t.id == id) db.tasks

abbrev pub find_attempt : ℕ → Db → Option TaskAttempt
find_attempt id db = first (λ a. a.id == id) db.attempts

-- `len(rows) == 0 || status is neither queued nor running`, negated; also the claim's EXISTS.
abbrev pub run_is_active : ℕ → List WorkflowRun → Bool
run_is_active id runs = holds (λ r. is_active_run r.status) (first (λ r. r.id == id) runs)

-- The condition under which `ClaimNext` and `StartAttempt` take a task; no type is "".
unfoldable pub claimable : ℕ → List WorkflowRun → String → CrawlTask → Bool
claimable now runs task_type t =
    ((is_queued_task t.status && (elim t.next_retry_at [ none ↦ true | some at ↦ leb at now ]))
      || (is_running_task t.status && holds (λ until. ltb until now) t.lease_until))
    && ltb t.attempt_count t.max_attempts
    && run_is_active t.run_id runs
    && (str_eq task_type "" || str_eq t.task_type task_type)

-- The fence: the task still runs under exactly this attempt, and the lease has not run out.
unfoldable pub fenced : ℕ → ℕ → TaskAttempt → CrawlTask → Bool
fenced now task_id attempt t =
    (t.id == task_id)
    && is_running_task t.status
    && str_eq t.lease_owner attempt.worker_id
    && (t.attempt_count == attempt.attempt_no)
    && holds (λ until. ltb now until) t.lease_until

-- The running attempts of a task, and a running attempt by its id.
abbrev pub running_of : ℕ → TaskAttempt → Bool
running_of task_id a = (a.task_id == task_id) && is_running_attempt a.status

abbrev pub running_by_id : ℕ → TaskAttempt → Bool
running_by_id id a = (a.id == id) && is_running_attempt a.status

-- COALESCE(MAX(attempt_no), 0) of a task.
unfoldable pub max_attempt_no : ℕ → List TaskAttempt → ℕ
max_attempt_no task_id [] = 0
max_attempt_no task_id (a ∷ as') =
    max (if a.task_id == task_id then a.attempt_no else 0) (max_attempt_no task_id as')

-- UPDATE workflow_runs SET status = running, started_at = now WHERE id = ? AND status = queued.
unfoldable pub start_run : ℕ → ℕ → List WorkflowRun → List WorkflowRun
start_run now id =
    update (λ r. (r.id == id) && is_queued_run r.status)
      (λ r. record r { status = RunStatus.running; started_at = some now })

-- A response that a caller passes as text: blank, no JSON, or a document.
pub data JsonText : Type 0 where
  blank : JsonText
  malformed : String → JsonText
  document : String → Option Output → JsonText

unfoldable pub fallback_json : JsonText → Snapshot
fallback_json JsonText.blank = Snapshot.document "{}" (some empty_output)
fallback_json (JsonText.malformed text) = Snapshot.wrapped text
fallback_json (JsonText.document text output) = Snapshot.document text output

abbrev pub empty_snapshot : Snapshot
empty_snapshot = Snapshot.document "{}" (some empty_output)

-- The same for a text that is a task's input.
pub data InputText : Type 0 where
  blank : InputText
  malformed : String → InputText
  valid : TaskInput → InputText

unfoldable pub fallback_input : InputText → RequestSnapshot
fallback_input InputText.blank = RequestSnapshot.of_input empty_input
fallback_input (InputText.malformed text) = RequestSnapshot.wrapped text
fallback_input (InputText.valid input) = RequestSnapshot.of_input input

-- `if input == "" { input = "{}" }`
unfoldable pub input_or_empty : TaskInput → TaskInput
input_or_empty i = if str_eq i.document "" then empty_input else i
