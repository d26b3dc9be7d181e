-- ===== src/TaskRepo/Rivals/Keeping.antt =====
-- None of the steps of `Rivals` touches the rows of the leased task (internal/repo/task_repo/tasks.go).
use get_magnet.Common.{
  ℕ, ◌+◌, ◌≤◌, ◌==◌, ◌≡◌, refl, ◌∙◌, Bool, true, false, some, String, All, All-map, All-first,
  first_meets, ◌⊎◌, first, select, select-update_missed, select-update_apart, ◌≢◌, inl, inr,
  Bool-cases, Option-cases, some-injective, arith, Ensures, Ensures-guard, Ensures-or_fail,
  succeeds, of_Ensures,
}
use mathlib.Core.Path.{subst}
use get_magnet.Table.Rows.{CrawlTask, TaskAttempt}
use get_magnet.TaskRepo.Claiming.{claim_next-Taken, taking}
use get_magnet.TaskRepo.Claims.{
  Claim, claim_next, claim_row, start_attempt, renew_lease, renew_row, lease_or_default, take_task,
}
use get_magnet.TaskRepo.Backoff.{backoff_delay}
use get_magnet.TaskRepo.Finish.{
  complete_commit, fail_commit, fail_row, end_task, ending_task, Ending, Cause, will_retry,
  message_of,
}
use get_magnet.TaskRepo.Recovery.{recover_expired_task, recover_row, lease_expired}
use get_magnet.TaskRepo.Store.{Db, InputText, JsonText, fenced}
use get_magnet.TaskRepo.Rivals.{
  Rivals, idle, claims, starts, recovers, renews, completes, gives_up, of_task, Leased, expired_id,
  leased-unclaimable, leased-unexpired, still,
}

module _ (until id : ℕ) where
  Leased-untaken :
      (now : ℕ) (task_type : String) (c : ℕ) (db : Db) (t : CrawlTask)
      → now ≤ until
      → Leased until id t
      → (of_task id t ≡ false) ⊎ (taking now task_type c db t ≡ false)
  Leased-untaken now task_type c db t h (inl other) = inl other
  Leased-untaken now task_type c db t h (inr (running, lease)) =
      inr (ground (arith, leased-unclaimable until now task_type db t h running lease))

  claim_next-Keeps :
      (early : Db) (now : ℕ) (worker : String) (lease : ℕ) (task_type : String) (db : Db)
      {r : Db × Claim}
      → now ≤ until
      → All (Leased until id) db.tasks
      → claim_next early now worker lease task_type db ≡ some r
      → select (of_task id) r.0.tasks ≡ select (of_task id) db.tasks
  unfolding claim_row
  claim_next-Keeps early now worker lease task_type db {r} h held e =
      let k = claim_next-Taken early now worker lease task_type db e in
      subst (λ (x : Db × Claim). select (of_task id) x.0.tasks ≡ select (of_task id) db.tasks)
        k.result
        (select-update_missed (of_task id) (taking now task_type k.task.id db)
          (take_task now worker (now + lease_or_default lease) (k.task.attempt_count + 1))
          (λ t. refl) db.tasks
          (All-map (λ t l. Leased-untaken now task_type k.task.id db t h l) db.tasks held))

  start_attempt-Keeps :
      (now task_id : ℕ) (worker : String) (input : InputText) (db : Db)
      → now ≤ until
      → All (Leased until id) db.tasks
      → Ensures
          (λ r. select (of_task id) r.0.tasks ≡ select (of_task id) db.tasks)
          (start_attempt now task_id worker input db)
  unfolding start_attempt
  start_attempt-Keeps now task_id worker input db h held = Ensures-guard _ λ _.
      Ensures-or_fail _ λ task found. Ensures-guard _ λ _. succeeds (
        select-update_missed (of_task id) (taking now "" task_id db) (take_task now worker _ _)
          (λ t. refl) db.tasks
          (All-map (λ t l. Leased-untaken now "" task_id db t h l) db.tasks held))

  Leased-other :
      (now : ℕ) (task t : CrawlTask)
      → now ≤ until
      → lease_expired now task ≡ true
      → Leased until id task
      → (of_task id t ≡ false) ⊎ ((t.id == task.id) ≡ false)
  Leased-other now task t h expired (inr (running, lease)) =
      absurd (ground (arith, expired, leased-unexpired until now task h lease))
  Leased-other now task t h expired (inl other) = elim (Bool-cases (t.id == task.id)) [
    | inr apart ↦ inr apart
    | inl same ↦ inl (ground (arith, same, other))
  ]

  recover_expired_task-Keeps :
      (now c : ℕ) (db : Db) {db' : Db}
      → now ≤ until
      → All (Leased until id) db.tasks
      → recover_expired_task now c db ≡ some db'
      → select (of_task id) db'.tasks ≡ select (of_task id) db.tasks
  unfolding recover_expired_task recover_row
  recover_expired_task-Keeps now c db {db'} h held e =
      elim (Option-cases (first (expired_id now c) db.tasks)) [
        | inl missing ↦ absurd (ground arith)
        | inr (task, found) ↦
            let meets = first_meets (expired_id now c) db.tasks found in
            let expired : lease_expired now task ≡ true = ground (arith, meets) in
            let own =
              All-first (λ (t : CrawlTask). Leased until id t) (expired_id now c) db.tasks held
                found in
            subst (λ (x : Db). select (of_task id) x.tasks ≡ select (of_task id) db.tasks)
              (some-injective (rw (found, recover_expired_task) at e))
              (select-update_missed (of_task id) (λ t. t.id == task.id) (recover_row now task)
                (λ t. refl) db.tasks
                (All-map (λ t _. Leased-other now task t h expired own) db.tasks held))
      ]

  fenced-other :
      (now task_id : ℕ) (attempt : TaskAttempt)
      → task_id ≢ id
      → (t : CrawlTask) → fenced now task_id attempt t ≡ true
      → of_task id t ≡ false
  unfolding fenced
  fenced-other now task_id attempt apart t hit = ground (arith, hit, apart)

  renew_lease-Keeps :
      (now task_id : ℕ) (attempt : TaskAttempt) (lease : ℕ) (db : Db)
      → task_id ≢ id
      → Ensures
          (λ r. select (of_task id) r.tasks ≡ select (of_task id) db.tasks)
          (renew_lease now task_id attempt lease db)
  unfolding renew_lease
  renew_lease-Keeps now task_id attempt lease db apart = Ensures-guard _ λ _. Ensures-guard _ λ _.
      succeeds (
        select-update_apart (of_task id) (fenced now task_id attempt) (renew_row now lease)
          (λ t hit. let other = fenced-other now task_id attempt apart t hit in (other, other))
          db.tasks)

  complete_commit-Keeps :
      (early : Db) (now task_id attempt_id : ℕ) (response : JsonText) (ending : Ending) (db : Db)
      → task_id ≢ id
      → Ensures
          (λ r. select (of_task id) r.tasks ≡ select (of_task id) db.tasks)
          (complete_commit early now task_id attempt_id response ending db)
  unfolding complete_commit
  complete_commit-Keeps early now task_id attempt_id response ending db apart =
      Ensures-or_fail _ λ attempt read. Ensures-guard _ λ _. Ensures-guard _ λ _.
        Ensures-guard _ λ _. succeeds (
          select-update_apart (of_task id) (fenced now task_id attempt)
            (end_task now (ending_task ending))
            (λ t hit. let other = fenced-other now task_id attempt apart t hit in (other, other))
            db.tasks)

  fail_commit-Keeps :
      (early : Db) (now : ℕ) (random : ℕ → ℕ) (task_id attempt_id : ℕ) (cause : Cause)
      (retryable : Bool) (db : Db)
      → task_id ≢ id
      → Ensures
          (λ r. select (of_task id) r.0.tasks ≡ select (of_task id) db.tasks)
          (fail_commit early now random task_id attempt_id cause retryable db)
  unfolding fail_commit
  fail_commit-Keeps early now random task_id attempt_id cause retryable db apart =
      Ensures-or_fail _ λ task known. Ensures-or_fail _ λ attempt read. Ensures-guard _ λ _.
        Ensures-guard _ λ _. Ensures-guard _ λ _. succeeds (
          select-update_apart (of_task id) (fenced now task_id attempt)
            (fail_row (will_retry retryable task) now (backoff_delay task.attempt_count random)
              (message_of cause))
            (λ t hit.
              let other = fenced-other now task_id attempt apart t hit in
              (other, ground (arith, other)))
            db.tasks)

  -- The rows of a leased task stay what they are, whatever the rivals do.
  pub Rivals-Keeps :
      {db db' : Db}
      → Rivals id until db db'
      → All (Leased until id) db.tasks
      → (select (of_task id) db'.tasks ≡ select (of_task id) db.tasks)
        × All (Leased until id) db'.tasks
  Rivals-Keeps idle held = (refl, held)
  Rivals-Keeps {db} {db'} (claims early now worker lease task_type {db' = db₁} before h e) held =
      let k = Rivals-Keeps before held in
      still until id db.tasks db'.tasks held
        (claim_next-Keeps early now worker lease task_type db₁ h k.1 e ∙ k.0)
  Rivals-Keeps {db} {db'} (starts now task_id worker input {db' = db₁} before h e) held =
      let k = Rivals-Keeps before held in
      still until id db.tasks db'.tasks held
        (of_Ensures (start_attempt-Keeps now task_id worker input db₁ h k.1) e ∙ k.0)
  Rivals-Keeps {db} {db'} (recovers now c {db' = db₁} before h e) held =
      let k = Rivals-Keeps before held in
      still until id db.tasks db'.tasks held (recover_expired_task-Keeps now c db₁ h k.1 e ∙ k.0)
  Rivals-Keeps {db} {db'} (renews now task_id attempt lease {db' = db₁} before apart e) held =
      let k = Rivals-Keeps before held in
      still until id db.tasks db'.tasks held
        (of_Ensures (renew_lease-Keeps now task_id attempt lease db₁ apart) e ∙ k.0)
  Rivals-Keeps {db} {db'}
        (completes early now task_id attempt_id response ending {db' = db₁} before apart e) held =
      let k = Rivals-Keeps before held in
      still until id db.tasks db'.tasks held (
        of_Ensures (complete_commit-Keeps early now task_id attempt_id response ending db₁ apart) e
        ∙ k.0)
  Rivals-Keeps {db} {db'}
        (gives_up early now random task_id attempt_id cause retryable {db' = db₁} before apart e)
        held =
      let k = Rivals-Keeps before held in
      still until id db.tasks db'.tasks held (
        of_Ensures (fail_commit-Keeps early now random task_id attempt_id cause retryable db₁ apart)
          e
        ∙ k.0)
