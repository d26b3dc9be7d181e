-- ===== src/TaskRepo/Steps.antt =====
-- The history of the tables as a sequence of transactions, in any order and by any workers; what
-- an operation reads before its transaction is any state at all.
use get_magnet.Common.{ℕ, ◌≡◌, Bool, Option, some, String, ok, of_Ensures}
use get_magnet.CrawlPolicy.{Urls, Budget}
use get_magnet.Table.Rows.{TaskAttempt, WorkflowRun, LimitRow, TaskInput}
use get_magnet.TaskRepo.Budgets.{
  Admission, reserve_page, check_page_url, initialize_run_budget, expire_rows,
}
use get_magnet.TaskRepo.Cancel.{cancel_task_commit, cancel_run}
use get_magnet.TaskRepo.Claims.{Claim, claim_next, start_attempt, renew_lease, save_document}
use get_magnet.TaskRepo.Create.{Request, Created, create_task}
use get_magnet.TaskRepo.Finish.{complete_commit, fail_commit, Ending, Cause, limit_event}
use get_magnet.TaskRepo.Invariant.{IsConsistent}
use get_magnet.TaskRepo.Invariant.Adding.{
  create_task-IsConsistent, create_run-IsConsistent, rerun_run-IsConsistent,
}
use get_magnet.TaskRepo.Invariant.Cancelling.{
  cancel_task_commit-IsConsistent, cancel_run-IsConsistent, try_finish_run-IsConsistent,
  expire_rows-IsConsistent, limit_event-IsConsistent,
}
use get_magnet.TaskRepo.Invariant.Ending.{
  renew_lease-IsConsistent, complete_commit-IsConsistent, fail_commit-IsConsistent,
  recover_expired_task-IsConsistent,
}
use get_magnet.TaskRepo.Invariant.Pages.{
  save_document-IsConsistent, reserve_page-IsConsistent, check_page_url-IsConsistent,
  initialize_run_budget-IsConsistent,
}
use get_magnet.TaskRepo.Invariant.Reviving.{
  retry_task-IsConsistent, update_run_summary-IsConsistent,
}
use get_magnet.TaskRepo.Invariant.Claiming.{claim_next-IsConsistent, start_attempt-IsConsistent}
use get_magnet.TaskRepo.Outcome.{try_finish_run}
use get_magnet.TaskRepo.Recovery.{recover_expired_task}
use get_magnet.TaskRepo.Retry.{create_run, rerun_run, retry_task, update_run_summary}
use get_magnet.TaskRepo.Store.{Db, JsonText, InputText, find_task}

-- One committed transaction.
pub data Step (urls : Urls) : Db → Db → Type 0 where
  claims :
      (early : Db) (now : ℕ) (worker : String) (lease : ℕ) (task_type : String) {db db' : Db}
      {claim : Claim}
      → claim_next early now worker lease task_type db ≡ some (db', claim)
      → Step urls db db'
  starts :
      (now task_id : ℕ) (worker : String) (input : InputText) {db db' : Db} {attempt : TaskAttempt}
      → start_attempt now task_id worker input db ≡ ok (db', attempt)
      → Step urls db db'
  renews :
      (now task_id : ℕ) (attempt : TaskAttempt) (lease : ℕ) {db db' : Db}
      → renew_lease now task_id attempt lease db ≡ ok db'
      → Step urls db db'
  documents :
      (task_id document_id : ℕ) (db : Db) → Step urls db (save_document task_id document_id db)
  completes :
      (early : Db) (now task_id attempt_id : ℕ) (response : JsonText) (ending : Ending)
      {db db' : Db}
      → complete_commit early now task_id attempt_id response ending db ≡ ok db'
      → Step urls db db'
  fails :
      (early : Db) (now : ℕ) (random : ℕ → ℕ) (task_id attempt_id : ℕ) (cause : Cause)
      (retryable : Bool) {db db' : Db} {again : Bool}
      → fail_commit early now random task_id attempt_id cause retryable db ≡ ok (db', again)
      → Step urls db db'
  finishes :
      (early : Db) (now task_id : ℕ) (db : Db) → Step urls db (try_finish_run early now task_id db)
  recovers :
      (now id : ℕ) {db db' : Db} → recover_expired_task now id db ≡ some db' → Step urls db db'
  cancels_task :
      (early : Db) (now id : ℕ) {db db' : Db}
      → cancel_task_commit early now id db ≡ ok db'
      → Step urls db db'
  cancels_run : (now id : ℕ) {db db' : Db} → cancel_run now id db ≡ ok db' → Step urls db db'
  -- The task that is retried is still as it was read.
  retries :
      (early : Db) (now id : ℕ) {db db' : Db}
      → find_task id early ≡ find_task id db
      → retry_task early now id db ≡ ok db'
      → Step urls db db'
  creates_run :
      (now workflow version : ℕ) (trigger : String) (input : TaskInput) (db : Db)
      → Step urls db (create_run now workflow version trigger input db).0
  reruns :
      (early : Db) (now id : ℕ) {db db' : Db} {run : WorkflowRun}
      → rerun_run early now id db ≡ ok (db', run)
      → Step urls db db'
  summarizes :
      (run_id : ℕ) (summary : JsonText) {db db' : Db}
      → update_run_summary run_id summary db ≡ ok db'
      → Step urls db db'
  creates :
      (now : ℕ) (q : Request) (attempt : Option TaskAttempt) {db db' : Db} {made : Created}
      → create_task urls now q attempt db ≡ ok (db', made)
      → Step urls db db'
  budgets :
      (run_id : ℕ) {db db' : Db} {limits : Budget × ℕ}
      → initialize_run_budget urls run_id db ≡ ok (db', limits.0, limits.1)
      → Step urls db db'
  reserves :
      (now : ℕ) (claim : Claim) (page_url : String) {db db' : Db} {a : Admission}
      → reserve_page urls now claim page_url db ≡ ok (db', a)
      → Step urls db db'
  checks :
      (now : ℕ) (claim : Claim) (page_url : String) {db db' : Db} {a : Admission}
      → check_page_url urls now claim page_url db ≡ ok (db', a)
      → Step urls db db'
  limits : (e : LimitRow) (db : Db) → Step urls db (limit_event e db)
  expires : (now run_id : ℕ) (db : Db) → Step urls db (expire_rows now run_id db)

pub data Reach (urls : Urls) (db : Db) : Db → Type 0 where
  here : Reach urls db db
  extend : {db' db'' : Db} → Reach urls db db' → Step urls db' db'' → Reach urls db db''

module _ {urls : Urls} where
  -- Every transaction keeps the tables consistent.
  pub Step-IsConsistent : {db db' : Db} → Step urls db db' → IsConsistent db → IsConsistent db'
  Step-IsConsistent (claims early now worker lease task_type {db} e) v =
      claim_next-IsConsistent early now worker lease task_type db v e
  Step-IsConsistent (starts now task_id worker input {db} e) v =
      of_Ensures (start_attempt-IsConsistent now task_id worker input db v) e
  Step-IsConsistent (renews now task_id attempt lease {db} e) v =
      of_Ensures (renew_lease-IsConsistent now task_id attempt lease db v) e
  Step-IsConsistent (documents task_id document_id db) v =
      save_document-IsConsistent task_id document_id db v
  Step-IsConsistent (completes early now task_id attempt_id response ending {db} e) v =
      of_Ensures (complete_commit-IsConsistent early now task_id attempt_id response ending db v) e
  Step-IsConsistent (fails early now random task_id attempt_id cause retryable {db} e) v =
      of_Ensures (fail_commit-IsConsistent early now random task_id attempt_id cause retryable db v)
        e
  Step-IsConsistent (finishes early now task_id db) v =
      try_finish_run-IsConsistent early now task_id db v
  Step-IsConsistent (recovers now id {db} e) v = recover_expired_task-IsConsistent now id db v e
  Step-IsConsistent (cancels_task early now id {db} e) v =
      of_Ensures (cancel_task_commit-IsConsistent early now id db v) e
  Step-IsConsistent (cancels_run now id {db} e) v =
      of_Ensures (cancel_run-IsConsistent now id db v) e
  Step-IsConsistent (retries early now id {db} current e) v =
      of_Ensures (retry_task-IsConsistent early now id db current v) e
  Step-IsConsistent (creates_run now workflow version trigger input db) v =
      create_run-IsConsistent now workflow version trigger input db v
  Step-IsConsistent (reruns early now id {db} e) v =
      of_Ensures (rerun_run-IsConsistent early now id db v) e
  Step-IsConsistent (summarizes run_id summary {db} e) v =
      of_Ensures (update_run_summary-IsConsistent run_id summary db v) e
  Step-IsConsistent (creates now q attempt {db} e) v =
      of_Ensures (create_task-IsConsistent urls now q attempt db v) e
  Step-IsConsistent (budgets run_id {db} e) v =
      of_Ensures (initialize_run_budget-IsConsistent urls run_id db v) e
  Step-IsConsistent (reserves now claim page_url {db} e) v =
      of_Ensures (reserve_page-IsConsistent urls now claim page_url db v) e
  Step-IsConsistent (checks now claim page_url {db} e) v =
      of_Ensures (check_page_url-IsConsistent urls now claim page_url db v) e
  Step-IsConsistent (limits e db) v = limit_event-IsConsistent e db v
  Step-IsConsistent (expires now run_id db) v = expire_rows-IsConsistent now run_id db v

  -- Every history, any transactions in any order, leads from a consistent state to a consistent
  -- one: tasks that are queued or running belong to active runs, exactly the running tasks have a
  -- lease, no task has more attempts than it may have, a task's count is the number of its latest
  -- attempt, and ids are distinct and below the next one. A retry is a transaction of a history
  -- only if the task that it read before has not changed since.
  pub Reach-IsConsistent : {db db' : Db} → Reach urls db db' → IsConsistent db → IsConsistent db'
  Reach-IsConsistent here v = v
  Reach-IsConsistent (extend r s) v = Step-IsConsistent s (Reach-IsConsistent r v)

  pub Reach-trans :
      {db db' db'' : Db} → Reach urls db db' → Reach urls db' db'' → Reach urls db db''
  Reach-trans r here = r
  Reach-trans r (extend q s) = extend (Reach-trans r q) s
