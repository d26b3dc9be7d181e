-- ===== src/TaskRepo/Invariant/Claiming.antt =====
-- `ClaimNext` and `StartAttempt` keep the tables consistent.
use mathlib.Core.Path.{subst}
use get_magnet.Common.{
  ℕ, ◌+◌, ◌*◌, ◌<◌, ◌==◌, ◌≡◌, refl, sym, ◌∙◌, ap, ◌≢◌, Bool, true, false, ◌&&◌, some, String, List,
  first, count, update, Ensures, Ensures-guard, Ensures-or_fail, succeeds, arith, All, All-map,
  All-first, count-none, inl, inr, Bool-cases, Option-cases, some-injective, first_meets, select,
}
use get_magnet.Table.Rows.{CrawlTask, WorkflowRun, RequestSnapshot}
use get_magnet.TaskRepo.Claims.{
  Claim, new_attempt, interrupt, claim_row, claim_task, claim_next, start_attempt, oldest,
  lease_or_default,
}
use get_magnet.TaskRepo.Invariant.{IsConsistent, SameNumbers-refl, SameNumbers-update}
use get_magnet.TaskRepo.Invariant.Keys.{keyed_unique, All-of_ids}
use get_magnet.TaskRepo.Invariant.Runs.{run_is_active-start_run, start_run-fresh}
use get_magnet.TaskRepo.Store.{
  Db, claimable, run_is_active, running_of, max_attempt_no, second, InputText, fallback_input,
}
use get_magnet.TaskRepo.Invariant.Taking.{IsTaken, taken-IsConsistent}

claimable-active :
    (now : ℕ) (runs : List WorkflowRun) (task_type : String) (t : CrawlTask)
    → claimable now runs task_type t ≡ true
    → (run_is_active t.run_id runs ≡ true) × (t.attempt_count < t.max_attempts)
unfolding claimable
claimable-active now runs task_type t h = ground arith

pub claim_row-IsTaken :
    (now : ℕ) (worker : String) (lease : ℕ) (task_type : String) (task : CrawlTask) (db : Db)
    → IsConsistent db
    → claimable now db.runs task_type task ≡ true
    → IsTaken db (claim_row now worker lease task_type task db).0 task
unfolding claim_row
claim_row-IsTaken now worker lease task_type task db v claims =
    let able = claimable-active now db.runs task_type task claims in
    record {
      c = λ t. (t.id == task.id) && claimable now db.runs task_type t;
      now = now;
      worker = worker;
      until = now + lease;
      number = task.attempt_count + 1;
      earlier =
          update (running_of task.id) (interrupt now "lease expired before reclaim") db.attempts;
      attempt =
          new_attempt db now task.id worker (task.attempt_count + 1)
            (RequestSnapshot.of_input task.input);
      keyed = λ t h. ground arith;
      taken = ground (arith, claims);
      numbered = refl;
      room = able.1;
      active = able.0;
      tasks = refl;
      same = SameNumbers-update _ _ (λ a. refl) (λ a. refl) db.attempts;
      attempts = refl;
      attempt_task = refl;
      attempt_number = refl;
      runs = λ id. run_is_active-start_run now task.run_id id db.runs;
      fresh_runs = start_run-fresh now task.run_id db.next_run_id db.runs v.fresh_runs;
      next = refl;
    }

-- What a found row brings with it.
module _ (db : Db) (v : IsConsistent db) (id : ℕ) (k : CrawlTask → Bool)
    (key : (t : CrawlTask) → k t ≡ true → t.id ≡ id) {task : CrawlTask}
    (found : first k db.tasks ≡ some task) where
  found-id : task.id ≡ id
  found-id = key task (first_meets k db.tasks found)

  found_unique : All (λ t. t.id ≡ task.id → t ≡ task) db.tasks
  found_unique =
      All-map (λ t u h. u (h ∙ found-id)) db.tasks (keyed_unique id k key db.tasks v.distinct found)

  taken_found-IsConsistent : (db' : Db) → IsTaken db db' task → IsConsistent db'
  taken_found-IsConsistent db' taken =
      taken-IsConsistent db db' task v taken found_unique
        (All-first (λ t. t.id < db.next_task_id) k db.tasks
          (All-of_ids (λ n. n < db.next_task_id) db.tasks v.fresh_tasks) found)
        (All-first (λ t. t.attempt_count ≡ max_attempt_no t.id db.attempts) k db.tasks v.numbered
          found)

  -- If the update of `StartAttempt` meets a row, it is the one that was read.
  found-claimable :
      (c : CrawlTask → Bool) → count (λ t. (t.id == id) && c t) db.tasks ≢ 0 → c task ≡ true
  found-claimable c some_taken = elim (Bool-cases (c task)) [
    | inl claims ↦ claims
    | inr idle ↦ absurd (
        some_taken (
          count-none (λ t. (t.id == id) && c t) db.tasks
            (All-map (λ t u. missed c idle t (λ h. u (h ∙ sym found-id))) db.tasks found_unique)))
  ]
    where
      missed :
          (c : CrawlTask → Bool)
          → c task ≡ false
          → (t : CrawlTask) → (t.id ≡ id → t ≡ task)
          → ((t.id == id) && c t) ≡ false
      missed c idle t same = elim (Bool-cases (t.id == id)) [
        | inr other ↦ rw other refl
        | inl here ↦ rw here (ap c (same (ground arith)) ∙ idle)
      ]

pub claim_task-IsConsistent :
    (now : ℕ) (worker : String) (lease : ℕ) (task_type : String) (candidate : CrawlTask) (db : Db)
    {r : Db × Claim}
    → IsConsistent db
    → claim_task now worker lease task_type candidate db ≡ some r
    → IsConsistent r.0
unfolding claim_task
claim_task-IsConsistent now worker lease task_type candidate db {r} v e =
    elim (Bool-cases (run_is_active candidate.run_id db.runs)) [
      | inr over ↦ absurd (ground arith)
      | inl active ↦
          elim (Option-cases
            (first (λ t. (t.id == candidate.id) && claimable now db.runs task_type t) db.tasks)) [
              | inl missing ↦ absurd (ground arith)
              | inr (task, found) ↦
                  let meets =
                    first_meets (λ t. (t.id == candidate.id) && claimable now db.runs task_type t)
                      db.tasks found in
                  subst (λ (p : Db × Claim). IsConsistent p.0)
                    (some-injective (rw (active, found, claim_task) at e))
                    (taken_found-IsConsistent db v candidate.id
                      (λ t. (t.id == candidate.id) && claimable now db.runs task_type t)
                      (λ t h. ground arith) found _
                      (claim_row-IsTaken now worker lease task_type task db v
                        (ground (arith, meets))))
            ]
    ]

pub claim_next-IsConsistent :
    (early : Db) (now : ℕ) (worker : String) (lease : ℕ) (task_type : String) (db : Db)
    {r : Db × Claim}
    → IsConsistent db
    → claim_next early now worker lease task_type db ≡ some r
    → IsConsistent r.0
unfolding claim_next
claim_next-IsConsistent early now worker lease task_type db {r} v e =
    elim (Option-cases (oldest (select (claimable now early.runs task_type) early.tasks))) [
      | inl none_there ↦ absurd (ground arith)
      | inr (candidate, found) ↦
          claim_task-IsConsistent now worker (lease_or_default lease) task_type candidate db v
            (rw (found, claim_next) at e)
    ]

pub start_attempt-IsConsistent :
    (now task_id : ℕ) (worker : String) (input : InputText) (db : Db)
    → IsConsistent db
    → Ensures (λ r. IsConsistent r.0) (start_attempt now task_id worker input db)
unfolding start_attempt
start_attempt-IsConsistent now task_id worker input db v = Ensures-guard _ λ named.
    Ensures-or_fail _ λ task found. Ensures-guard _ λ some_taken.
      let here : task.id ≡ task_id =
        found-id db v task_id (λ t. t.id == task_id) (λ t h. ground arith) found in
      let claims : claimable now db.runs "" task ≡ true =
        found-claimable db v task_id (λ t. t.id == task_id) (λ t h. ground arith) found
          (claimable now db.runs "") (λ zero. ground (arith, zero)) in
      let able = claimable-active now db.runs "" task claims in
      let counted : task.attempt_count ≡ max_attempt_no task.id db.attempts =
        All-first (λ t. t.attempt_count ≡ max_attempt_no t.id db.attempts) (λ t. t.id == task_id)
          db.tasks v.numbered found in
      succeeds (
        taken_found-IsConsistent db v task_id (λ t. t.id == task_id) (λ t h. ground arith) found _
          (record {
            c = λ t. (t.id == task_id) && claimable now db.runs "" t;
            now = now;
            worker = worker;
            until = now + 300 * second;
            number = max_attempt_no task_id db.attempts + 1;
            earlier = db.attempts;
            attempt =
                new_attempt db now task_id worker (max_attempt_no task_id db.attempts + 1)
                  (fallback_input input);
            keyed = λ t h. ground (arith, here);
            taken = ground (arith, here, claims);
            numbered = omega (arith, ap (λ id. max_attempt_no id db.attempts) here, counted);
            room = able.1;
            active = able.0;
            tasks = refl;
            same = SameNumbers-refl db.attempts;
            attempts = refl;
            attempt_task = sym here;
            attempt_number = refl;
            runs = λ id h. h;
            fresh_runs = v.fresh_runs;
            next = refl;
          }))
