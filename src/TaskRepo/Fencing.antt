-- ===== src/TaskRepo/Fencing.antt =====
-- The fence of an attempt: an attempt that was superseded, or whose task has ended, writes
-- nothing.
use get_magnet.Common.{
  String, ℕ, suc, ◌≤◌, ◌<◌, ◌==◌, ◌≡◌, refl, Bool, true, false, some, All-map, inl, inr, Bool-cases,
  arith, Result, err,
}
use get_magnet.CrawlPolicy.{Urls}
use get_magnet.Table.Status.{TaskStatus, is_running_task}
use get_magnet.Table.Rows.{CrawlTask, TaskAttempt, TaskInput, Reason}
use get_magnet.TaskRepo.Claims.{
  renew_lease, check_attempt, check_attempt_id, with_active_attempt, with_active_attempt_id,
  save_attempt_document, Claim,
}
use get_magnet.TaskRepo.Budgets.{reserve_page, check_page_url}
use get_magnet.TaskRepo.Create.{create_task_for_attempt}
use get_magnet.TaskRepo.Finish.{Ending, Cause, complete_commit, fail_commit, complete_limited}
use get_magnet.TaskRepo.History.{Begun, HasStatus, is_final, Reach-Begun, Reach-final}
use get_magnet.TaskRepo.Invariant.{IsConsistent}
use get_magnet.TaskRepo.Steps.{Reach}
use get_magnet.TaskRepo.Store.{Db, Error, stale_attempt, find_task, find_attempt, fenced, JsonText}
use get_magnet.TaskRepo.Refusals.{
  Shut, complete_commit-Shut, fail_commit-Shut, renew_lease-Shut, check_attempt-Shut,
  with_active_attempt-Shut, check_attempt_id-Shut, with_active_attempt_id-Shut, is_error,
}
use get_magnet.TaskRepo.Refusals.Pages.{
  reserve_page-Shut, check_page_url-Shut, create_task_for_attempt-Shut, save_attempt_document-Shut,
  complete_limited-Shut,
}

-- A claim is the task's row, in whatever state a caller holds it, with the attempt.
abbrev pub claim_of : ℕ → TaskAttempt → CrawlTask → Claim
claim_of task_id attempt t = record { task = record t { id = task_id }; attempt = attempt }

-- Every call that an attempt guards is refused as stale: the renewal of its lease, the checks of
-- its lease, any write that it guards, its completion (within a limit too) and its failure, the
-- reservation of a page, the check of a page's URL; and the creation of a child task is an error
-- too.
pub record IsRefused (urls : Urls) (now task_id attempt_id lease : ℕ) (attempt : TaskAttempt)
    (early db : Db) : Type 1 where
  pub renewal : renew_lease now task_id attempt lease db ≡ err stale_attempt
  pub check : check_attempt now task_id attempt db ≡ err stale_attempt
  pub write :
      {A : Type 0} (write : Db → Result Error (Db × A))
      → with_active_attempt now task_id attempt write db ≡ err stale_attempt
  pub completion :
      (response : JsonText) (ending : Ending)
      → complete_commit early now task_id attempt_id response ending db ≡ err stale_attempt
  pub failure :
      (random : ℕ → ℕ) (cause : Cause) (retryable : Bool)
      → fail_commit early now random task_id attempt_id cause retryable db ≡ err stale_attempt
  pub check_id : check_attempt_id early now task_id attempt_id db ≡ err stale_attempt
  pub write_id :
      {A : Type 0} (write : Db → Result Error (Db × A))
      → with_active_attempt_id early now task_id attempt_id write db ≡ err stale_attempt
  pub document :
      (t : CrawlTask) (write : Db → Result Error (Db × ℕ))
      → save_attempt_document now (claim_of task_id attempt t) write db ≡ err stale_attempt
  pub limit :
      (t : CrawlTask) (page_url : String) (reason : Reason) (encoded : String)
      → complete_limited now (claim_of task_id attempt t) page_url reason encoded db
        ≡ (db, err stale_attempt)
  pub page :
      (t : CrawlTask) (page_url : String)
      → reserve_page urls now (claim_of task_id attempt t) page_url db ≡ err stale_attempt
  pub url :
      (t : CrawlTask) (page_url : String)
      → check_page_url urls now (claim_of task_id attempt t) page_url db ≡ err stale_attempt
  pub child :
      (t : CrawlTask) (step_name : String) (input : TaskInput)
      → is_error (create_task_for_attempt urls now (claim_of task_id attempt t) step_name input db)
        ≡ true

Shut-IsRefused :
    (urls : Urls) (now task_id attempt_id lease : ℕ) (task : CrawlTask) (attempt : TaskAttempt)
    (early db : Db)
    → 0 < lease
    → 0 < task_id
    → find_task task_id early ≡ some task
    → find_attempt attempt_id early ≡ some attempt
    → Shut now task_id attempt db
    → IsRefused urls now task_id attempt_id lease attempt early db
Shut-IsRefused urls now task_id attempt_id lease task attempt early db positive there known read
      shut =
    record {
      renewal = renew_lease-Shut now task_id attempt lease db positive shut;
      check = check_attempt-Shut now task_id attempt db shut;
      write = λ write. with_active_attempt-Shut now task_id attempt write db shut;
      completion = λ response ending.
          complete_commit-Shut early now task_id attempt_id attempt response ending db read shut;
      failure = λ random cause retryable.
          fail_commit-Shut early now random task_id attempt_id task attempt cause retryable db known
            read shut;
      check_id = check_attempt_id-Shut early now task_id attempt_id attempt db read shut;
      write_id = λ write.
          with_active_attempt_id-Shut early now task_id attempt_id attempt write db read shut;
      document =
          λ t write. save_attempt_document-Shut now (claim_of task_id attempt t) write db shut;
      limit = λ t page_url reason encoded.
          complete_limited-Shut now (claim_of task_id attempt t) page_url reason encoded db shut;
      page = λ t page_url. reserve_page-Shut urls now (claim_of task_id attempt t) page_url db shut;
      url =
          λ t page_url. check_page_url-Shut urls now (claim_of task_id attempt t) page_url db shut;
      child = λ t step_name input.
          create_task_for_attempt-Shut urls now (claim_of task_id attempt t) step_name input db
            there shut;
    }

later-closed :
    (now task_id : ℕ) (attempt : TaskAttempt) (t : CrawlTask)
    → (t.id ≡ task_id → suc attempt.attempt_no ≤ t.attempt_count)
    → fenced now task_id attempt t ≡ false
unfolding fenced
later-closed now task_id attempt t later = elim (Bool-cases (t.id == task_id)) [
  | inl same ↦
      let more : suc attempt.attempt_no ≤ t.attempt_count = later (ground (arith, same)) in
      ground (arith, same, more)
  | inr other ↦ rw other refl
]

ended-closed :
    (now task_id : ℕ) (attempt : TaskAttempt) (s : TaskStatus) (t : CrawlTask)
    → is_final s ≡ true
    → (t.id ≡ task_id → t.status ≡ s)
    → fenced now task_id attempt t ≡ false
unfolding fenced
ended-closed now task_id attempt s t final ended = elim (Bool-cases (t.id == task_id)) [
  | inl same ↦
      let is : t.status ≡ s = ended (ground (arith, same)) in
      let stopped : is_running_task t.status ≡ false = rw is (ground (arith, final)) in
      ground (arith, same, stopped)
  | inr other ↦ rw other refl
]

-- Once a later attempt of its task has begun, in a consistent state, every call that an attempt
-- guards (`IsRefused` lists them) is refused in every state that transactions lead to, at any time
-- and under whatever state it was read in, if the rows that it reads first are there, the task's id
-- is not 0, and the lease that it asks for is not 0.
pub superseded-IsRefused :
    {urls : Urls} {db db' : Db} (now task_id attempt_id lease : ℕ) (task : CrawlTask)
    (attempt : TaskAttempt) (early : Db)
    → 0 < lease
    → 0 < task_id
    → find_task task_id early ≡ some task
    → find_attempt attempt_id early ≡ some attempt
    → IsConsistent db
    → Begun task_id (suc attempt.attempt_no) db
    → Reach urls db db'
    → IsRefused urls now task_id attempt_id lease attempt early db'
unfolding Shut
superseded-IsRefused {urls} {db' = db'} now task_id attempt_id lease task attempt early positive
      there known read v begun r =
    Shut-IsRefused urls now task_id attempt_id lease task attempt early db' positive there known
      read (shut (Reach-Begun task_id (suc attempt.attempt_no) v r begun))
  where
    shut : Begun task_id (suc attempt.attempt_no) db' → Shut now task_id attempt db'
    shut b = All-map (λ t later. later-closed now task_id attempt t later) db'.tasks b.1

-- Once its task has succeeded, was cancelled or was limited, in a consistent state, every call that
-- an attempt guards (`IsRefused` lists them), with whatever number, is refused in every state that
-- transactions lead to, at any time and under whatever state it was read in, if the rows that it
-- reads first are there, the task's id is not 0, and the lease that it asks for is not 0.
pub ended-IsRefused :
    {urls : Urls} {db db' : Db} (now task_id attempt_id lease : ℕ) (task : CrawlTask)
    (attempt : TaskAttempt) (early : Db) (s : TaskStatus)
    → 0 < lease
    → 0 < task_id
    → find_task task_id early ≡ some task
    → find_attempt attempt_id early ≡ some attempt
    → IsConsistent db
    → is_final s ≡ true
    → HasStatus task_id s db
    → Reach urls db db'
    → IsRefused urls now task_id attempt_id lease attempt early db'
unfolding Shut
ended-IsRefused {urls} {db' = db'} now task_id attempt_id lease task attempt early s positive there
      known read v final ended r =
    Shut-IsRefused urls now task_id attempt_id lease task attempt early db' positive there known
      read (shut (Reach-final task_id s final v r ended))
  where
    shut : HasStatus task_id s db' → Shut now task_id attempt db'
    shut h = All-map (λ t e. ended-closed now task_id attempt s t final e) db'.tasks h.1
