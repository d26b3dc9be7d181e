-- ===== src/TaskRepo/Claiming.antt =====
-- What a claim of `ClaimNext` is and holds (internal/repo/task_repo/tasks.go).
use get_magnet.Common.{
  ℕ, ◌+◌, ◌<◌, ◌==◌, ◌≡◌, refl, ap, ◌∙◌, Bool, true, false, ◌&&◌, some, String, str_eq, List, [],
  ◌∷◌, All, All-map, All-update_to, All-append, ◌≢◌, ◌⊎◌, eq_iff, first, select, update,
  first_meets, exists-update, inl, inr, Bool-cases, Option-cases, some-injective, arith, ok, chains,
}
use mathlib.Core.Path.{subst}
use get_magnet.Table.Rows.{CrawlTask, TaskAttempt, RequestSnapshot}
use get_magnet.TaskRepo.Claims.{
  Claim, claim_next, claim_task, claim_row, oldest, lease_or_default, take_task, new_attempt,
  check_attempt, interrupt,
}
use get_magnet.TaskRepo.Invariant.{IsConsistent}
use get_magnet.TaskRepo.Invariant.Keys.{keyed_unique}
use get_magnet.TaskRepo.Store.{Db, claimable, fenced, run_is_active, running_of}

-- The condition of the claim's update, for a row's id.
abbrev pub taking : ℕ → String → ℕ → Db → CrawlTask → Bool
taking now task_type id db t = (t.id == id) && claimable now db.runs task_type t

-- How a claim came about.
pub record Taken (now : ℕ) (worker : String) (lease : ℕ) (task_type : String) (db : Db)
    (r : Db × Claim) : Type 0 where
  pub candidate : CrawlTask
  pub task : CrawlTask
  pub found : first (taking now task_type candidate.id db) db.tasks ≡ some task
  pub result : claim_row now worker lease task_type task db ≡ r

claim_task-Taken :
    (now : ℕ) (worker : String) (lease : ℕ) (task_type : String) (candidate : CrawlTask) (db : Db)
    {r : Db × Claim}
    → claim_task now worker lease task_type candidate db ≡ some r
    → Taken now worker lease task_type db r
unfolding claim_task
claim_task-Taken now worker lease task_type candidate db {r} e =
    elim (Bool-cases (run_is_active candidate.run_id db.runs)) [
      | inr over ↦ absurd (ground arith)
      | inl active ↦ elim (Option-cases (first (taking now task_type candidate.id db) db.tasks)) [
        | inl missing ↦ absurd (ground arith)
        | inr (task, found) ↦ record {
          candidate = candidate;
          task = task;
          found = found;
          result = some-injective (rw (active, found, claim_task) at e);
        }
      ]
    ]

pub claim_next-Taken :
    (early : Db) (now : ℕ) (worker : String) (lease : ℕ) (task_type : String) (db : Db)
    {r : Db × Claim}
    → claim_next early now worker lease task_type db ≡ some r
    → Taken now worker (lease_or_default lease) task_type db r
unfolding claim_next
claim_next-Taken early now worker lease task_type db {r} e =
    elim (Option-cases (oldest (select (claimable now early.runs task_type) early.tasks))) [
      | inl none_there ↦ absurd (ground arith)
      | inr (candidate, found) ↦
          claim_task-Taken now worker (lease_or_default lease) task_type candidate db
            (rw (found, claim_next) at e)
    ]

Taken-first :
    (now : ℕ) (worker : String) (lease : ℕ) (task_type : String) (db : Db) {r : Db × Claim}
    (k : Taken now worker lease task_type db r)
    → k.task.id ≡ k.candidate.id
Taken-first now worker lease task_type db k =
    ground (arith, first_meets (taking now task_type k.candidate.id db) db.tasks k.found)

-- The one row of a claimed task afterwards.
claim_row-only :
    (now : ℕ) (worker : String) (lease : ℕ) (task_type : String) (db : Db) (id : ℕ)
    (task : CrawlTask)
    → IsConsistent db
    → first (taking now task_type id db) db.tasks ≡ some task
    → task.id ≡ id
    → All
        (λ t. t.id ≡ task.id → t ≡ take_task now worker (now + lease) (task.attempt_count + 1) task)
        (claim_row now worker lease task_type task db).0.tasks
unfolding claim_row
claim_row-only now worker lease task_type db id task v found here =
    let meets : taking now task_type task.id db task ≡ true =
      ground (arith, first_meets (taking now task_type id db) db.tasks found) in
    All-update_to {P = λ t. t.id ≡ id → t ≡ task} (taking now task_type task.id db)
      (take_task now worker (now + lease) (task.attempt_count + 1))
      (λ t hit same e.
        ap (take_task now worker (now + lease) (task.attempt_count + 1)) (same (e ∙ here)))
      (λ t miss same e. absurd (
        apart meets
          (subst (λ x. taking now task_type task.id db x ≡ false) (same (e ∙ here)) miss)))
      db.tasks
      (keyed_unique id (taking now task_type id db) (λ t h. ground arith) db.tasks v.distinct found)
  where
    apart : {b : Bool} → b ≡ true → b ≡ false → ⊥
    apart e f = cc

pub claimed-only :
    (now : ℕ) (worker : String) (lease : ℕ) (task_type : String) (db : Db) {r : Db × Claim}
    (k : Taken now worker lease task_type db r)
    → IsConsistent db
    → All
        (λ t.
          t.id ≡ r.1.task.id
          → t ≡ take_task now worker (now + lease) (k.task.attempt_count + 1) k.task)
        r.0.tasks
unfolding claim_row
claimed-only now worker lease task_type db k v =
    subst
      (λ (r : Db × Claim).
        All
          (λ t.
            t.id ≡ r.1.task.id
            → t ≡ take_task now worker (now + lease) (k.task.attempt_count + 1) k.task)
          r.0.tasks)
      k.result
      (claim_row-only now worker lease task_type db k.candidate.id k.task v k.found
        (Taken-first now worker lease task_type db k))

interrupted-over :
    (now id : ℕ) (message : String) (as' : List TaskAttempt)
    → All (λ a. running_of id a ≡ false) (update (running_of id) (interrupt now message) as')
unfolding update
interrupted-over now id message [] = tt
interrupted-over now id message (a ∷ as') = elim (Bool-cases (running_of id a)) [
  | inl hit ↦ rw hit (ground arith, interrupted-over now id message as')
  | inr miss ↦ rw miss (miss, interrupted-over now id message as')
]

-- What a claim gives: its attempt passes the fence at the time `later`, no other attempt of the
-- task runs, and the task's number of attempts is the attempt's number.
pub record IsHeld (later : ℕ) (claim : Claim) (db : Db) : Type 0 where
  pub lease : check_attempt later claim.task.id claim.attempt db ≡ ok tt
  pub alone : All (λ a. (running_of claim.task.id a ≡ false) ⊎ (a ≡ claim.attempt)) db.attempts
  pub number :
      All (λ t. (t.id ≢ claim.task.id) ⊎ (t.attempt_count ≡ claim.attempt.attempt_no)) db.tasks

taken-fenced :
    (now until later : ℕ) (worker : String) (input : RequestSnapshot) (db : Db) (task : CrawlTask)
    → later < until
    → fenced later task.id
        (new_attempt db now task.id worker (task.attempt_count + 1) input)
        (take_task now worker until (task.attempt_count + 1) task)
      ≡ true
unfolding fenced
taken-fenced now until later worker input db task h =
    let own : str_eq worker worker ≡ true = (eq_iff worker worker).1 refl in ground (arith, own, h)

claim_row-IsHeld :
    (now later : ℕ) (worker : String) (lease : ℕ) (task_type : String) (db : Db) (task : CrawlTask)
    → first (taking now task_type task.id db) db.tasks ≡ some task
    → All
        (λ t. t.id ≡ task.id → t ≡ take_task now worker (now + lease) (task.attempt_count + 1) task)
        (claim_row now worker lease task_type task db).0.tasks
    → later < now + lease
    → IsHeld later
        (claim_row now worker lease task_type task db).1
        (claim_row now worker lease task_type task db).0
unfolding claim_row check_attempt chains
claim_row-IsHeld now later worker lease task_type db task found only h = record {
  lease =
      rw
        (
          exists-update
              (fenced later task.id (
                new_attempt db now task.id worker (task.attempt_count + 1)
                  (RequestSnapshot.of_input task.input)))
              (taking now task_type task.id db)
              (take_task now worker (now + lease) (task.attempt_count + 1)) db.tasks found
              (taken-fenced now (now + lease) later worker (RequestSnapshot.of_input task.input) db
                task h),
          check_attempt,
        )
        refl;
  alone =
      All-append (λ a. _) (update (running_of task.id) (interrupt now _) db.attempts) (_ ∷ [])
        (All-map (λ a over. inl over) _ (interrupted-over now task.id _ db.attempts))
        (inr refl, tt);
  number = All-map (λ t same. numbered t same) _ only;
}
  where
    numbered :
        (t : CrawlTask)
        → (t.id ≡ task.id → t ≡ take_task now worker (now + lease) (task.attempt_count + 1) task)
        → (t.id ≢ task.id) ⊎ (t.attempt_count ≡ task.attempt_count + 1)
    numbered t same = elim (Bool-cases (t.id == task.id)) [
      | inl own ↦ inr (ap (λ (x : CrawlTask). x.attempt_count) (same (ground (arith, own))))
      | inr other ↦ inl (λ e. ground (arith, other, e))
    ]

-- A claim from a consistent state gives a live lease until the lease has run out, over the only
-- attempt of its task that runs; its number is the task's new number of attempts.
pub claim_next-IsHeld :
    (early : Db) (now : ℕ) (worker : String) (lease : ℕ) (task_type : String) (db : Db) {db' : Db}
    {claim : Claim} (later : ℕ)
    → IsConsistent db
    → claim_next early now worker lease task_type db ≡ some (db', claim)
    → later < now + lease_or_default lease
    → IsHeld later claim db'
claim_next-IsHeld early now worker lease task_type db {db'} {claim} later v e h =
    let k = claim_next-Taken early now worker lease task_type db e in
    let here = Taken-first now worker (lease_or_default lease) task_type db k in
    let found : first (taking now task_type k.task.id db) db.tasks ≡ some k.task =
      rw here k.found in
    subst (λ (r : Db × Claim). IsHeld later r.1 r.0) k.result
      (claim_row-IsHeld now later worker (lease_or_default lease) task_type db k.task found
        (claim_row-only now worker (lease_or_default lease) task_type db k.candidate.id k.task v
          k.found here)
        h)
