-- ===== src/TaskRepo/Rivals.antt =====
-- What others do while a lease lasts (`claimNext`, `StartAttempt`, `recoverExpiredTask`, `RenewLease`,
-- `completeStatus` and `Fail` of internal/repo/task_repo/tasks.go), and the rows of its task.
pub mod Keeping
use get_magnet.Common.{
  ℕ, ◌+◌, ◌≤◌, ◌<◌, ◌==◌, ltb, ◌≡◌, refl, sym, ap, ◌∙◌, Bool, true, false, ◌&&◌, Option, none, some,
  String, List, All, All-map, All-unselect, All-select, All-first, first_meets, ◌⊎◌, first, select,
  update, first-none, select-update_missed, select-update_apart, ◌≢◌, inl, inr, Bool-cases,
  Option-cases, some-injective, arith, ok, Ensures, Ensures-guard, Ensures-or_fail, succeeds,
  of_Ensures, holds,
}
use mathlib.Core.Path.{subst}
use get_magnet.Table.Status.{is_running_task}
use get_magnet.Table.Rows.{CrawlTask, TaskAttempt}
use get_magnet.TaskRepo.Claiming.{Taken, claim_next-Taken, claimed-only, taking}
use get_magnet.TaskRepo.Claims.{
  Claim, claim_next, claim_task, claim_row, start_attempt, renew_lease, renew_row, lease_or_default,
  take_task,
}
use get_magnet.TaskRepo.Backoff.{backoff_delay}
use get_magnet.TaskRepo.Finish.{
  complete_commit, fail_commit, fail_row, end_task, ending_task, Ending, Cause, will_retry,
  message_of,
}
use get_magnet.TaskRepo.Invariant.{IsConsistent}
use get_magnet.TaskRepo.Recovery.{recover_expired_task, recover_row, lease_expired}
use get_magnet.TaskRepo.Store.{Db, InputText, JsonText, claimable, fenced, run_is_active}

-- What others do while the lease of the task `own` lasts: any number of claims, starts and
-- recoveries, by any worker and for any task, none later than the end of the lease, and renewals,
-- completions and failures of attempts at other tasks, at any time.
pub data Rivals (own until : ℕ) (db : Db) : Db → Type 0 where
  idle : Rivals own until db db
  claims :
      (early : Db) (now : ℕ) (worker : String) (lease : ℕ) (task_type : String) {db' db'' : Db}
      {claim : Claim}
      → Rivals own until db db'
      → now ≤ until
      → claim_next early now worker lease task_type db' ≡ some (db'', claim)
      → Rivals own until db db''
  starts :
      (now task_id : ℕ) (worker : String) (input : InputText) {db' db'' : Db}
      {attempt : TaskAttempt}
      → Rivals own until db db'
      → now ≤ until
      → start_attempt now task_id worker input db' ≡ ok (db'', attempt)
      → Rivals own until db db''
  recovers :
      (now id : ℕ) {db' db'' : Db}
      → Rivals own until db db'
      → now ≤ until
      → recover_expired_task now id db' ≡ some db''
      → Rivals own until db db''
  renews :
      (now task_id : ℕ) (attempt : TaskAttempt) (lease : ℕ) {db' db'' : Db}
      → Rivals own until db db'
      → task_id ≢ own
      → renew_lease now task_id attempt lease db' ≡ ok db''
      → Rivals own until db db''
  completes :
      (early : Db) (now task_id attempt_id : ℕ) (response : JsonText) (ending : Ending)
      {db' db'' : Db}
      → Rivals own until db db'
      → task_id ≢ own
      → complete_commit early now task_id attempt_id response ending db' ≡ ok db''
      → Rivals own until db db''
  gives_up :
      (early : Db) (now : ℕ) (random : ℕ → ℕ) (task_id attempt_id : ℕ) (cause : Cause)
      (retryable : Bool) {db' db'' : Db} {again : Bool}
      → Rivals own until db db'
      → task_id ≢ own
      → fail_commit early now random task_id attempt_id cause retryable db' ≡ ok (db'', again)
      → Rivals own until db db''

abbrev pub of_task : ℕ → CrawlTask → Bool
of_task id t = t.id == id

-- The row is of another task, or holds a lease until then.
abbrev pub Leased : ℕ → ℕ → CrawlTask → Type 0
Leased until id t =
    (of_task id t ≡ false) ⊎ ((is_running_task t.status ≡ true) × (t.lease_until ≡ some until))

pub leased-unclaimable :
    (until now : ℕ) (task_type : String) (db : Db) (t : CrawlTask)
    → now ≤ until
    → is_running_task t.status ≡ true
    → t.lease_until ≡ some until
    → claimable now db.runs task_type t ≡ false
unfolding claimable
leased-unclaimable until now task_type db t h running lease = ground (arith, h, running, lease)

pub leased-unexpired :
    (until now : ℕ) (t : CrawlTask)
    → now ≤ until
    → t.lease_until ≡ some until
    → lease_expired now t ≡ false
leased-unexpired until now t h lease = ground (arith, h, lease)

abbrev pub expired_id : ℕ → ℕ → CrawlTask → Bool
expired_id now c t = (t.id == c) && lease_expired now t

-- Leased rows that are selected unchanged are still leased.
pub still :
    (until id : ℕ) (ts us : List CrawlTask)
    → All (Leased until id) ts
    → select (of_task id) us ≡ select (of_task id) ts
    → (select (of_task id) us ≡ select (of_task id) ts) × All (Leased until id) us
still until id ts us held same = (
  same,
  All-map (λ t l. leased t l) us
      (All-unselect (Leased until id) (of_task id) us (
        rw same (
          All-map (λ (t : CrawlTask) l. l.0) (select (of_task id) ts)
            (All-select (Leased until id) (of_task id) ts held)))),
)
  where
    leased : (t : CrawlTask) → (of_task id t ≡ false) ⊎ Leased until id t → Leased until id t
    leased t (inl other) = inl other
    leased t (inr l) = l
