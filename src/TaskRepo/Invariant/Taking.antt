-- ===== src/TaskRepo/Invariant/Taking.antt =====
-- Taking a task (`ClaimNext`, `StartAttempt`) keeps the tables consistent: the new attempt has
-- the next number of its task.
use mathlib.Core.Path.{subst}
use get_magnet.Common.{
  ℕ, max, ◌+◌, ◌≤◌, ◌<◌, ◌==◌, ◌≡◌, refl, sym, ◌∙◌, ap, ◌≢◌, Bool, true, false, String, List, [],
  ◌∷◌, ◌++◌, if◌then◌else◌, update, arith, All, All-append, All-update_to, All-map_both, map-update,
}
use get_magnet.Table.Rows.{CrawlTask, TaskAttempt, WorkflowRun}
use get_magnet.TaskRepo.Cancel.{task_id_of}
use get_magnet.TaskRepo.Claims.{take_task}
use get_magnet.TaskRepo.Invariant.{IsConsistent, IsRow, SameNumbers}
use get_magnet.TaskRepo.Invariant.Runs.{IsRow-runs}
use get_magnet.TaskRepo.Store.{Db, run_is_active, max_attempt_no}

pub max_attempt_no-append :
    (id : ℕ) (xs : List TaskAttempt) (a : TaskAttempt)
    → max_attempt_no id (xs ++ a ∷ [])
      ≡ max (max_attempt_no id xs) (if a.task_id == id then a.attempt_no else 0)
unfolding max_attempt_no
max_attempt_no-append id [] a = ground arith
max_attempt_no-append id (x ∷ xs) a = ground (arith, max_attempt_no-append id xs a)

-- The state after a task has been taken, as both operations leave it.
pub record IsTaken (db db' : Db) (task : CrawlTask) : Type 0 where
  pub c : CrawlTask → Bool
  pub now : ℕ
  pub worker : String
  pub until : ℕ
  pub number : ℕ
  pub earlier : List TaskAttempt
  pub attempt : TaskAttempt
  pub keyed : (t : CrawlTask) → c t ≡ true → t.id ≡ task.id
  pub taken : c task ≡ true
  pub numbered : number ≡ task.attempt_count + 1
  pub room : task.attempt_count < task.max_attempts
  pub active : run_is_active task.run_id db.runs ≡ true
  pub tasks : db'.tasks ≡ update c (take_task now worker until number) db.tasks
  pub same : SameNumbers db.attempts earlier
  pub attempts : db'.attempts ≡ earlier ++ attempt ∷ []
  pub attempt_task : attempt.task_id ≡ task.id
  pub attempt_number : attempt.attempt_no ≡ number
  pub runs : (id : ℕ) → run_is_active id db.runs ≡ true → run_is_active id db'.runs ≡ true
  pub fresh_runs : All (λ r. r.id < db'.next_run_id) db'.runs
  pub next : db'.next_task_id ≡ db.next_task_id

take_task-IsRow :
    (runs : List WorkflowRun) (now : ℕ) (worker : String) (until number : ℕ) (t : CrawlTask)
    → run_is_active t.run_id runs ≡ true
    → number ≤ t.max_attempts
    → IsRow runs (take_task now worker until number t)
take_task-IsRow runs now worker until number t active room = record {
  live = λ _. active;
  leased = refl;
  capped = room;
}

module _ (db db' : Db) (task : CrawlTask) (v : IsConsistent db) (k : IsTaken db db' task)
    (unique : All (λ t. t.id ≡ task.id → t ≡ task) db.tasks) (fresh : task.id < db.next_task_id)
    (counted : task.attempt_count ≡ max_attempt_no task.id db.attempts) where
  number_after :
      (id : ℕ) → id ≢ task.id → max_attempt_no id db'.attempts ≡ max_attempt_no id db.attempts
  number_after id other =
      rw (k.attempts)
        (omega (arith, max_attempt_no-append id k.earlier k.attempt, k.same.numbers id, miss))
    where
      miss : (if k.attempt.task_id == id then k.attempt.attempt_no else 0) ≡ 0
      miss = ground (arith, k.attempt_task)

  number_taken : max_attempt_no task.id db'.attempts ≡ k.number
  number_taken = rw (k.attempts) (
      omega (
        arith,
        max_attempt_no-append task.id k.earlier k.attempt,
        k.same.numbers task.id,
        hit,
        counted,
        k.numbered,
      ))
    where
      hit : (if k.attempt.task_id == task.id then k.attempt.attempt_no else 0) ≡ k.number
      hit = ground (arith, k.attempt_task, k.attempt_number)

  taken-rows :
      All (IsRow db'.runs) (update k.c (take_task k.now k.worker k.until k.number) db.tasks)
  taken-rows =
      All-update_to {P = λ t. IsRow db.runs t × (t.id ≡ task.id → t ≡ task)} k.c
        (take_task k.now k.worker k.until k.number)
        (λ t hit p.
          let same : t ≡ task = p.1 (k.keyed t hit) in
          take_task-IsRow db'.runs k.now k.worker k.until k.number t
            (k.runs t.run_id
              (subst (λ u. run_is_active u.run_id db.runs ≡ true) (sym same) k.active))
            (subst (λ u. k.number ≤ u.max_attempts) (sym same) (omega (arith, k.numbered, k.room))))
        (λ t miss p. IsRow-runs db.runs db'.runs t (k.runs t.run_id) p.0) db.tasks
        (All-map_both (λ t r u. (r, u)) db.tasks v.rows unique)

  taken-numbered :
      All
        (λ t. t.attempt_count ≡ max_attempt_no t.id db'.attempts)
        (update k.c (take_task k.now k.worker k.until k.number) db.tasks)
  taken-numbered =
      All-update_to
        {P = λ t. (t.attempt_count ≡ max_attempt_no t.id db.attempts) × (t.id ≡ task.id → t ≡ task)}
        k.c (take_task k.now k.worker k.until k.number)
        (λ t hit p. sym (ap (λ id. max_attempt_no id db'.attempts) (k.keyed t hit) ∙ number_taken))
        (λ t miss p.
          p.0
          ∙ sym (
              number_after t.id
                (λ h. let clash : false ≡ true = sym miss ∙ ap k.c (p.1 h) ∙ k.taken in cc)))
        db.tasks (All-map_both (λ t r u. (r, u)) db.tasks v.numbered unique)

  pub taken-IsConsistent : IsConsistent db'
  taken-IsConsistent = record {
    rows = rw k.tasks taken-rows;
    numbered = rw k.tasks taken-numbered;
    distinct =
        rw
          (
            k.tasks,
            map-update task_id_of k.c (take_task k.now k.worker k.until k.number) (λ t. refl)
                db.tasks,
          )
          v.distinct;
    fresh_tasks =
        rw
          (
            k.tasks,
            map-update task_id_of k.c (take_task k.now k.worker k.until k.number) (λ t. refl)
                db.tasks,
            k.next,
          )
          v.fresh_tasks;
    fresh_attempts =
        rw (k.attempts, k.next)
          (All-append (λ a. a.task_id < db.next_task_id) k.earlier (k.attempt ∷ [])
            (k.same.fresh _ v.fresh_attempts) (rw (k.attempt_task) fresh, tt));
    fresh_runs = k.fresh_runs;
  }
