-- ===== src/TaskRepo/Settling.antt =====
-- What `Complete` and `Fail` leave of the task whose attempt they end.
use get_magnet.Common.{
  ℕ, suc, ◌+◌, ◌*◌, ◌/◌, ◌^◌, ◌≤◌, ◌<◌, ltb, ◌≡◌, refl, sym, ap, ◌∙◌, ◌≢◌, ◌⊎◌, Bool, true, false,
  ◌&&◌, none, some, String, List, [], ◌∷◌, All, All-map, All-update_to, All-first, exists, count,
  first-exists, first_meets, update, inl, inr, Bool-cases, arith, some-injective, zero, Ensures,
  Ensures-guard, Ensures-or_fail, succeeds, of_Ensures, ok,
}
use mathlib.Core.Path.{subst}
use get_magnet.Table.Status.{TaskStatus}
use get_magnet.Table.Rows.{CrawlTask, TaskAttempt}
use get_magnet.TaskRepo.Backoff.{backoff_delay, base_delay, clamp_attempt}
use get_magnet.TaskRepo.Finish.{
  complete_commit, Ending, ending_task, end_task, fail_commit, fail_row, Cause, will_retry,
  message_of,
}
use get_magnet.TaskRepo.History.{HasStatus}
use get_magnet.TaskRepo.Invariant.{IsConsistent}
use get_magnet.TaskRepo.Invariant.Keys.{keyed_unique, All-of_ids}
use get_magnet.TaskRepo.Store.{Db, second, fenced, find_task, JsonText}

-- The delay before the attempt `n` is tried again lies between 2^n seconds (of the number
-- brought between 1 and 8) and half as much again, if `random` keeps to its range.
pub backoff_delay-bounds :
    (attempt : ℕ) (random : ℕ → ℕ)
    → random (base_delay attempt / 2 + 1) < base_delay attempt / 2 + 1
    → (base_delay attempt ≤ backoff_delay attempt random)
      × (2 * backoff_delay attempt random ≤ 3 * base_delay attempt)
unfolding backoff_delay
backoff_delay-bounds attempt random h = (omega arith, omega (arith, h))

clamp-positive : (attempt : ℕ) → (1 ≤ clamp_attempt attempt) × (clamp_attempt attempt ≤ 8)
unfolding clamp_attempt
clamp-positive attempt = ground arith

count-exists : (c : CrawlTask → Bool) (ts : List CrawlTask) → count c ts ≡ 1 → exists c ts ≡ true
unfolding count exists
count-exists c [] h = absurd (omega (arith, h))
count-exists c (t ∷ ts) h = elim (Bool-cases (c t)) [
  | inl hit ↦ rw hit refl
  | inr miss ↦ let rest = count-exists c ts (ground (arith, miss, h)) in ground (arith, miss, rest)
]

fenced-id :
    (now task_id : ℕ) (attempt : TaskAttempt) (t : CrawlTask)
    → fenced now task_id attempt t ≡ true
    → t.id ≡ task_id
unfolding fenced
fenced-id now task_id attempt t h = ground arith

-- If one row passes the fence, then all rows of the task's id do.
fenced-All :
    (now task_id : ℕ) (attempt : TaskAttempt) (db : Db)
    → IsConsistent db
    → count (fenced now task_id attempt) db.tasks ≡ 1
    → All (λ t. t.id ≡ task_id → fenced now task_id attempt t ≡ true) db.tasks
fenced-All now task_id attempt db v one =
    let (x, found) =
      first-exists (fenced now task_id attempt) db.tasks (count-exists _ db.tasks one) in
    let passes = first_meets (fenced now task_id attempt) db.tasks found in
    All-map (λ t same e. subst (λ y. fenced now task_id attempt y ≡ true) (sym (same e)) passes)
      db.tasks
      (keyed_unique task_id (fenced now task_id attempt) (fenced-id now task_id attempt) db.tasks
        v.distinct found)

-- So an update behind the fence treats all of the task's rows.
fenced-update {κ} :
    (P : CrawlTask → Type κ) (now task_id : ℕ) (attempt : TaskAttempt) (f : CrawlTask → CrawlTask)
    (db : Db)
    → IsConsistent db
    → count (fenced now task_id attempt) db.tasks ≡ 1
    → ((t : CrawlTask) → P (f t))
    → All (λ t. (t.id ≢ task_id) ⊎ P t) (update (fenced now task_id attempt) f db.tasks)
fenced-update P now task_id attempt f db v one h =
    All-update_to {P = λ t. t.id ≡ task_id → fenced now task_id attempt t ≡ true}
      (fenced now task_id attempt) f (λ t hit p. inr (h t))
      (λ t miss p. inl (λ e. apart (p e) miss)) db.tasks (fenced-All now task_id attempt db v one)
  where
    apart : {b : Bool} → b ≡ true → b ≡ false → ⊥
    apart e f = cc

fenced-used :
    (now task_id : ℕ) (attempt : TaskAttempt) (db : Db)
    → IsConsistent db
    → count (fenced now task_id attempt) db.tasks ≡ 1
    → task_id < db.next_task_id
fenced-used now task_id attempt db v one =
    let (x, found) =
      first-exists (fenced now task_id attempt) db.tasks (count-exists _ db.tasks one) in
    let same =
      fenced-id now task_id attempt x (first_meets (fenced now task_id attempt) db.tasks found) in
    let used =
      All-first _ (fenced now task_id attempt) db.tasks
        (All-of_ids (λ id. id < db.next_task_id) db.tasks v.fresh_tasks) found in
    omega (arith, same, used)

complete_commit-Ensures :
    (early : Db) (now task_id attempt_id : ℕ) (response : JsonText) (ending : Ending) (db : Db)
    → IsConsistent db
    → Ensures
        (HasStatus task_id (ending_task ending))
        (complete_commit early now task_id attempt_id response ending db)
unfolding complete_commit
complete_commit-Ensures early now task_id attempt_id response ending db v =
    Ensures-or_fail _ λ attempt read. Ensures-guard _ λ mine. Ensures-guard _ λ one.
      Ensures-guard _ λ own. succeeds (
        fenced-used now task_id attempt db v (ground (arith, one)),
        All-map (λ t h e. settled t h e) _
            (fenced-update (λ t. t.status ≡ ending_task ending) now task_id attempt
              (end_task now (ending_task ending)) db v (ground (arith, one)) (λ t. refl)),
      )
  where
    settled :
        (t : CrawlTask)
        → (t.id ≢ task_id) ⊎ (t.status ≡ ending_task ending)
        → t.id ≡ task_id
        → t.status ≡ ending_task ending
    settled t (inl apart) e = absurd (apart e)
    settled t (inr is) e = is

-- A completion that commits, from a consistent state, leaves its task with the status of its
-- ending: succeeded or limited.
pub complete_commit-HasStatus :
    (early : Db) (now task_id attempt_id : ℕ) (response : JsonText) (ending : Ending) (db : Db)
    {db' : Db}
    → IsConsistent db
    → complete_commit early now task_id attempt_id response ending db ≡ ok db'
    → HasStatus task_id (ending_task ending) db'
complete_commit-HasStatus early now task_id attempt_id response ending db v e =
    of_Ensures (complete_commit-Ensures early now task_id attempt_id response ending db v) e

-- What a failure makes of a row.
pub data Settled (now : ℕ) : Bool → CrawlTask → Type 0 where
  -- Queued, with no lease, and not before two seconds have passed.
  waits :
      {t : CrawlTask} (at : ℕ)
      → t.status ≡ TaskStatus.queued
      → t.lease_until ≡ none
      → t.next_retry_at ≡ some at
      → now + 2 * second ≤ at
      → Settled now true t
  buried :
      {t : CrawlTask}
      → t.status ≡ TaskStatus.dead_letter
      → t.lease_until ≡ none
      → t.finished_at ≡ some now
      → Settled now false t

pow_positive : (n : ℕ) → 1 ≤ 2 ^ n
pow_positive zero = omega arith
pow_positive (suc n) = omega (arith, pow_positive n)

pow_two : (n : ℕ) → 1 ≤ n → 2 ≤ 2 ^ n
pow_two zero h = absurd (omega (arith, h))
pow_two (suc n) h = omega (arith, pow_positive n)

base_delay-two : (attempt : ℕ) → 2 * second ≤ base_delay attempt
base_delay-two attempt = omega (arith, pow_two (clamp_attempt attempt) (clamp-positive attempt).0)

backoff_delay-two : (attempt : ℕ) (random : ℕ → ℕ) → 2 * second ≤ backoff_delay attempt random
unfolding backoff_delay
backoff_delay-two attempt random = omega (arith, base_delay-two attempt)

fail_row-Settled :
    (again : Bool) (now delay : ℕ) (message : String) (t : CrawlTask)
    → 2 * second ≤ delay
    → Settled now again (fail_row again now delay message t)
fail_row-Settled true now delay message t h = waits (now + delay) refl refl refl (omega (arith, h))
fail_row-Settled false now delay message t h = buried refl refl refl

fail_commit-Ensures :
    (early : Db) (now : ℕ) (random : ℕ → ℕ) (task_id attempt_id : ℕ) (task : CrawlTask)
    (cause : Cause) (retryable : Bool) (db : Db)
    → IsConsistent db
    → find_task task_id early ≡ some task
    → Ensures
        (λ r.
          (r.1 ≡ (retryable && ltb task.attempt_count task.max_attempts))
          × All (λ t. (t.id ≢ task_id) ⊎ Settled now r.1 t) r.0.tasks)
        (fail_commit early now random task_id attempt_id cause retryable db)
unfolding fail_commit will_retry
fail_commit-Ensures early now random task_id attempt_id task cause retryable db v known =
    Ensures-or_fail _ λ read found. Ensures-or_fail _ λ attempt there. Ensures-guard _ λ mine.
      Ensures-guard _ λ one. Ensures-guard _ λ own.
        let same : task ≡ read = some-injective (sym known ∙ found) in
        succeeds (
          ap (λ (t : CrawlTask). retryable && ltb t.attempt_count t.max_attempts) (sym same),
          fenced-update (Settled now (will_retry retryable read)) now task_id attempt
              (fail_row (will_retry retryable read) now (backoff_delay read.attempt_count random)
                (message_of cause))
              db v (ground (arith, one))
              (λ t.
                fail_row-Settled (will_retry retryable read) now
                  (backoff_delay read.attempt_count random) (message_of cause) t
                  (delayed read.attempt_count)),
        )
  where
    delayed : (attempt : ℕ) → 2 * second ≤ backoff_delay attempt random
    delayed attempt = backoff_delay-two attempt random

-- A failure that commits, from a consistent state, tries the task again exactly if the caller
-- says that it may be and the task, as it was read, has attempts left. Tried again, it waits in
-- the queue for at least two seconds; else it is a dead letter that has ended.
pub fail_commit-Settled :
    (early : Db) (now : ℕ) (random : ℕ → ℕ) (task_id attempt_id : ℕ) (task : CrawlTask)
    (cause : Cause) (retryable : Bool) (db : Db) {db' : Db} {again : Bool}
    → IsConsistent db
    → find_task task_id early ≡ some task
    → fail_commit early now random task_id attempt_id cause retryable db ≡ ok (db', again)
    → (again ≡ (retryable && ltb task.attempt_count task.max_attempts))
      × All (λ t. (t.id ≢ task_id) ⊎ Settled now again t) db'.tasks
fail_commit-Settled early now random task_id attempt_id task cause retryable db v known e =
    of_Ensures
      (fail_commit-Ensures early now random task_id attempt_id task cause retryable db v known) e
