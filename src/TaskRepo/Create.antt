-- ===== src/TaskRepo/Create.antt =====
-- `createTask` of internal/repo/task_repo/tasks.go (`CreateTask`, `CreateTaskForAttempt`,
-- `WorkflowTaskByURL`) and `childBudgetReason` of budgets.go.
use get_magnet.Common.{
  ◌||◌, ℕ, suc, ◌+◌, ◌==◌, ltb, leb, Bool, false, not, ◌&&◌, Option, none, some, String, str_eq, [],
  ◌∷◌, ◌++◌, if◌then◌else◌, holds, first, count, Result, ok, guard, or_fail, ◌>>=◌, ◌>>◌,
}
use get_magnet.CrawlPolicy.{Budget, Urls, allows}
use get_magnet.Table.Status.{is_running_task, TaskStatus}
use get_magnet.Table.Rows.{CrawlTask, TaskAttempt, TaskInput, Reason}
use get_magnet.TaskRepo.Budgets.{budget_from_run}
use get_magnet.TaskRepo.Claims.{Claim}
use get_magnet.TaskRepo.Finish.{limit_event}
use get_magnet.TaskRepo.Outcome.{in_run}
use get_magnet.TaskRepo.Store.{
  Db, Error, invalid_input, run_id_required, run_inactive, stale_attempt, run_is_active, start_run,
  input_or_empty,
}

-- What a call asks for. `parent` is 0 for a root task.
pub record Request : Type 0 where
  pub run_id : ℕ
  pub parent : ℕ
  pub step_name : String
  pub task_type : String
  pub input : TaskInput
  pub max_attempts : ℕ

-- A new row, the row that was there, or a limit that was recorded instead.
pub data Created : Type 0 where
  made : CrawlTask → Created
  existing : CrawlTask → Created
  over_budget : Reason → Created

unfoldable pub attempts_or_default : ℕ → ℕ
attempts_or_default n = if n == 0 then 5 else n

abbrev pub new_task : Db → ℕ → Request → Option ℕ → ℕ → CrawlTask
new_task db now q parent depth = record {
  id = db.next_task_id;
  run_id = q.run_id;
  parent_task_id = parent;
  step_name = q.step_name;
  task_type = q.task_type;
  input = input_or_empty q.input;
  depth = depth;
  page_reserved = false;
  page_host = "";
  status = TaskStatus.queued;
  attempt_count = 0;
  max_attempts = attempts_or_default q.max_attempts;
  next_retry_at = none;
  lease_owner = "";
  lease_until = none;
  output_document_id = none;
  error_message = "";
  created_at = now;
  updated_at = now;
  finished_at = none;
}

-- The insert, which also starts a queued run.
unfoldable pub insert_task : ℕ → CrawlTask → Db → Db × Created
unfolding start_run attempts_or_default input_or_empty
insert_task now t db = (
  record db {
    tasks = db.tasks ++ t ∷ [];
    runs = start_run now t.run_id db.runs;
    next_task_id = suc db.next_task_id;
  },
  Created.made t,
)

-- The parent must be a running task of the run.
unfoldable pub running_parent : ℕ → ℕ → Db → Result Error CrawlTask
running_parent run_id parent db = do
  t ← or_fail (first (λ t. (t.id == parent) && (t.run_id == run_id)) db.tasks) stale_attempt
  guard (is_running_task t.status) stale_attempt
  ok t

-- A parent that acts for an attempt must still hold its lease.
abbrev pub attempt_holds : ℕ → TaskAttempt → CrawlTask → Bool
attempt_holds now a parent =
    str_eq parent.lease_owner a.worker_id
    && (parent.attempt_count == a.attempt_no)
    && holds (λ until. ltb now until) parent.lease_until

abbrev pub check_holder : ℕ → Option TaskAttempt → CrawlTask → Result Error (Unit {0})
check_holder now none parent = ok tt
check_holder now (some a) parent = guard (attempt_holds now a parent) stale_attempt

-- The same work of the run: by URL where the input has one, else by the whole document.
abbrev pub same_work : Request → CrawlTask → Bool
same_work q t =
    (t.run_id == q.run_id)
    && str_eq t.task_type q.task_type
    && str_eq t.step_name q.step_name
    && (if str_eq (input_or_empty q.input).url ""
        then str_eq t.input.document (input_or_empty q.input).document
        else str_eq t.input.url (input_or_empty q.input).url)

unfoldable pub workflow_task_by_url : ℕ → String → String → Db → Option CrawlTask
workflow_task_by_url run_id step_name page_url db =
    first
      (λ t.
        (t.run_id == run_id)
        && str_eq t.task_type "workflow"
        && str_eq t.step_name step_name
        && str_eq t.input.url page_url)
      db.tasks

abbrev pub detail_of : ℕ → ℕ → CrawlTask → Bool
detail_of run_id parent t =
    (t.run_id == run_id) && holds (λ p. p == parent) t.parent_task_id && str_eq t.step_name "detail"

module _ (urls : Urls) where
  -- The tests of `childBudgetReason` on a run with a budget, in their order.
  unfoldable pub child_limit : ℕ → Budget → ℕ → Request → CrawlTask → Db → Option Reason
  child_limit now b deadline q parent db =
      if ltb deadline now
      then some Reason.max_duration_seconds
      else if not (allows urls b (input_or_empty q.input).url)
      then some Reason.allowed_domains
      else if ltb b.max_depth (parent.depth + 1)
      then some Reason.max_depth
      else if leb b.max_tasks (count (in_run q.run_id) db.tasks)
      then some Reason.max_tasks
      else if str_eq q.step_name "detail"
          && leb b.max_discovered_per_page (count (detail_of q.run_id parent.id) db.tasks)
      then some Reason.max_discovered_per_page
      else none

  -- The limit that a child meets, and the depth that it gets (0 in a run without a budget); before
  -- the run's time is over, its input must decode.
  unfoldable pub child_budget : ℕ → Request → CrawlTask → Db → Result Error (Option Reason × ℕ)
  unfolding child_limit budget_from_run
  child_budget now q parent db = do
    budget ← budget_from_run q.run_id db
    elim budget [
      | none ↦ ok (none, 0)
      | some (b, deadline) ↦ (do
        guard (ltb deadline now || (input_or_empty q.input).decodes) invalid_input
        ok (child_limit now b deadline q parent db, parent.depth + 1))
    ]

  -- A workflow's child: at most one for the same work, and within the budget.
  unfoldable pub create_workflow_child : ℕ → Request → CrawlTask → Db → Result Error (Db × Created)
  unfolding child_budget insert_task limit_event
  create_workflow_child now q parent db = elim (first (same_work q) db.tasks) [
    | some t ↦ ok (db, Created.existing t)
    | none ↦ child_budget now q parent db >>= λ (limit : Option Reason × ℕ). elim limit.0 [
      | some reason ↦ ok (
        limit_event
            (record {
              run_id = q.run_id;
              task_id = q.parent;
              page_role = q.step_name;
              url = (input_or_empty q.input).url;
              reason = reason;
            })
            db,
        Created.over_budget reason,
      )
      | none ↦ ok (insert_task now (new_task db now q (some q.parent) limit.1) db)
    ]
  ]

  unfoldable pub create_child : ℕ → Request → Option TaskAttempt → Db → Result Error (Db × Created)
  unfolding running_parent create_workflow_child
  create_child now q attempt db = do
    parent ← running_parent q.run_id q.parent db
    check_holder now attempt parent
    if str_eq q.task_type "workflow"
        then create_workflow_child now q parent db
        else ok (insert_task now (new_task db now q (some q.parent) 0) db)

  unfoldable pub create_task : ℕ → Request → Option TaskAttempt → Db → Result Error (Db × Created)
  unfolding create_child insert_task
  create_task now q attempt db = do
    guard (ltb 0 q.run_id) run_id_required
    guard (run_is_active q.run_id db.runs) run_inactive
    if ltb 0 q.parent
        then create_child now q attempt db
        else ok (insert_task now (new_task db now q none 0) db)

  unfoldable pub create_task_for_attempt :
      ℕ → Claim → String → TaskInput → Db → Result Error (Db × Created)
  unfolding create_task
  create_task_for_attempt now claim step_name input =
      create_task now
        (record {
          run_id = claim.task.run_id;
          parent = claim.task.id;
          step_name = step_name;
          task_type = "workflow";
          input = input;
          max_attempts = 5;
        })
        (some claim.attempt)
