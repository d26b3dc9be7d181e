-- ===== src/TaskRepo/Invariant/Adding.antt =====
-- New rows (`createTask`, `RerunRun`) keep the tables consistent.
use get_magnet.Common.{
  ℕ, suc, ◌<◌, ◌==◌, ltb, ◌≡◌, refl, sym, ◌∙◌, true, Option, none, some, String, List, [], ◌∷◌,
  ◌++◌, first, Ensures, Ensures-guard, Ensures-or_fail, Ensures->>=, Ensures->>, succeeds, arith,
  All, All-map, All-append, inl, inr, Bool-cases, Option-cases, first-append_none, str_eq,
}
use get_magnet.CrawlPolicy.{Urls}
use get_magnet.Table.Rows.{CrawlTask, TaskAttempt, WorkflowRun, TaskInput}
use get_magnet.TaskRepo.Create.{
  same_work, Request, Created, new_task, insert_task, create_task, create_child,
  create_workflow_child,
}
use get_magnet.TaskRepo.Invariant.{IsConsistent, IsRow}
use get_magnet.TaskRepo.Invariant.Keys.{ids-append-Distinct, ids-append-fresh}
use get_magnet.TaskRepo.Invariant.Runs.{
  IsRow-runs, run_is_active-start_run, run_is_active-append, start_run-fresh,
}
use get_magnet.TaskRepo.Invariant.Cancelling.{limit_event-IsConsistent}
use get_magnet.TaskRepo.Retry.{rerun_run, create_run, fresh_run, new_run, queued_task}
use get_magnet.TaskRepo.Store.{Db, run_is_active, max_attempt_no}

max_attempt_no-none :
    (id : ℕ) (xs : List TaskAttempt) → All (λ a. a.task_id < id) xs → max_attempt_no id xs ≡ 0
unfolding max_attempt_no
max_attempt_no-none id [] h = refl
max_attempt_no-none id (a ∷ xs) h = ground (arith, max_attempt_no-none id xs h.1)

-- A new row without attempts, under the next id.
pub append-IsConsistent :
    (db db' : Db) (t : CrawlTask)
    → t.id ≡ db.next_task_id
    → t.attempt_count ≡ 0
    → IsRow db'.runs t
    → ((u : CrawlTask) → IsRow db.runs u → IsRow db'.runs u)
    → All (λ r. r.id < db'.next_run_id) db'.runs
    → db'.tasks ≡ db.tasks ++ t ∷ []
    → db'.attempts ≡ db.attempts
    → db'.next_task_id ≡ suc db.next_task_id
    → IsConsistent db
    → IsConsistent db'
append-IsConsistent db db' t new zero row keep runs tasks attempts next v = record {
  rows =
      rw tasks
        (All-append (IsRow db'.runs) db.tasks (t ∷ []) (All-map keep db.tasks v.rows) (row, tt));
  numbered =
      rw (tasks, attempts)
        (All-append (λ u. u.attempt_count ≡ max_attempt_no u.id db.attempts) db.tasks (t ∷ [])
          v.numbered
          (zero ∙ sym (max_attempt_no-none t.id db.attempts (rw new v.fresh_attempts)), tt));
  distinct = rw tasks (ids-append-Distinct db.tasks t v.distinct (rw new v.fresh_tasks));
  fresh_tasks = rw (tasks, next) (rw (← new) (ids-append-fresh db.tasks t (rw new v.fresh_tasks)));
  fresh_attempts =
      rw (attempts, next) (All-map (λ a p. omega (arith, p)) db.attempts v.fresh_attempts);
  fresh_runs = runs;
}

new_task-IsRow :
    (runs : List WorkflowRun) (db : Db) (now : ℕ) (q : Request) (parent : Option ℕ) (depth : ℕ)
    → run_is_active q.run_id runs ≡ true
    → IsRow runs (new_task db now q parent depth)
new_task-IsRow runs db now q parent depth active = record {
  live = λ _. active;
  leased = refl;
  capped = omega arith;
}

insert_task-IsConsistent :
    (now : ℕ) (q : Request) (parent : Option ℕ) (depth : ℕ) (db : Db)
    → run_is_active q.run_id db.runs ≡ true
    → IsConsistent db
    → IsConsistent (insert_task now (new_task db now q parent depth) db).0
unfolding insert_task
insert_task-IsConsistent now q parent depth db active v =
    append-IsConsistent db _ (new_task db now q parent depth) refl refl
      (new_task-IsRow _ db now q parent depth
        (run_is_active-start_run now q.run_id q.run_id db.runs active))
      (λ u r. IsRow-runs db.runs _ u (run_is_active-start_run now q.run_id u.run_id db.runs) r)
      (start_run-fresh now q.run_id db.next_run_id db.runs v.fresh_runs) refl refl refl v

abbrev First : Db × Created → Type 0
First r = IsConsistent r.0

create_workflow_child-IsConsistent :
    (urls : Urls) (now : ℕ) (q : Request) (parent : CrawlTask) (db : Db)
    → run_is_active q.run_id db.runs ≡ true
    → IsConsistent db
    → Ensures First (create_workflow_child urls now q parent db)
unfolding create_workflow_child
create_workflow_child-IsConsistent urls now q parent db active v =
    elim (Option-cases (first (same_work q) db.tasks)) [
      | inr (t, found) ↦ rw (found, create_workflow_child) (succeeds v)
      | inl new ↦
          rw (new, create_workflow_child)
            (Ensures->>= λ limit read. elim (Option-cases limit.0) [
              | inr (reason, over) ↦ rw over (succeeds (limit_event-IsConsistent _ db v))
              | inl free ↦
                  rw free
                    (succeeds (insert_task-IsConsistent now q (some q.parent) limit.1 db active v))
            ])
    ]

create_child-IsConsistent :
    (urls : Urls) (now : ℕ) (q : Request) (attempt : Option TaskAttempt) (db : Db)
    → run_is_active q.run_id db.runs ≡ true
    → IsConsistent db
    → Ensures First (create_child urls now q attempt db)
unfolding create_child
create_child-IsConsistent urls now q attempt db active v = Ensures->>= λ parent found.
    Ensures->> λ held. elim (Bool-cases (str_eq q.task_type "workflow")) [
      | inl workflow ↦
          rw workflow (create_workflow_child-IsConsistent urls now q parent db active v)
      | inr other ↦
          rw other (succeeds (insert_task-IsConsistent now q (some q.parent) 0 db active v))
    ]

pub create_task-IsConsistent :
    (urls : Urls) (now : ℕ) (q : Request) (attempt : Option TaskAttempt) (db : Db)
    → IsConsistent db
    → Ensures First (create_task urls now q attempt db)
unfolding create_task
create_task-IsConsistent urls now q attempt db v = Ensures-guard _ λ named.
    Ensures-guard _ λ active. elim (Bool-cases (ltb 0 q.parent)) [
      | inl child ↦ rw child (create_child-IsConsistent urls now q attempt db active v)
      | inr root ↦ rw root (succeeds (insert_task-IsConsistent now q none 0 db active v))
    ]

new_run-found :
    (db : Db) (now : ℕ) (original : WorkflowRun)
    → run_is_active db.next_run_id (new_run db now original ∷ []) ≡ true
unfolding first
new_run-found db now original = ground arith

new_run-active :
    (db : Db) (now : ℕ) (original : WorkflowRun)
    → All (λ r. r.id < db.next_run_id) db.runs
    → run_is_active db.next_run_id (db.runs ++ new_run db now original ∷ []) ≡ true
new_run-active db now original fresh =
    rw
      (first-append_none (λ r. r.id == db.next_run_id) db.runs (new_run db now original ∷ [])
        (All-map (λ r p. ground arith) db.runs fresh))
      (new_run-found db now original)

pub rerun_run-IsConsistent :
    (early : Db) (now id : ℕ) (db : Db)
    → IsConsistent db
    → Ensures (λ r. IsConsistent r.0) (rerun_run early now id db)
unfolding rerun_run
rerun_run-IsConsistent early now id db v = Ensures-or_fail _ λ original read.
    Ensures-or_fail _ λ root found. succeeds (
      append-IsConsistent db _ (queued_task db now db.next_run_id root) refl refl
        (record {
          live = λ _. new_run-active db now original v.fresh_runs;
          leased = refl;
          capped = omega arith;
        })
        (λ u r.
          IsRow-runs db.runs _ u
            (run_is_active-append u.run_id db.runs (new_run db now original ∷ [])) r)
        (All-append (λ r. r.id < suc db.next_run_id) db.runs (new_run db now original ∷ [])
          (All-map (λ r p. omega (arith, p)) db.runs v.fresh_runs) (omega arith, tt))
        refl refl refl v)

pub create_run-IsConsistent :
    (now workflow version : ℕ) (trigger : String) (input : TaskInput) (db : Db)
    → IsConsistent db
    → IsConsistent (create_run now workflow version trigger input db).0
unfolding create_run
create_run-IsConsistent now workflow version trigger input db v = record {
  rows =
      All-map
        (λ t r.
          IsRow-runs db.runs _ t
            (run_is_active-append t.run_id db.runs
              (fresh_run db now workflow version trigger input ∷ []))
            r)
        db.tasks v.rows;
  numbered = v.numbered;
  distinct = v.distinct;
  fresh_tasks = v.fresh_tasks;
  fresh_attempts = v.fresh_attempts;
  fresh_runs =
      All-append (λ r. r.id < suc db.next_run_id) db.runs
        (fresh_run db now workflow version trigger input ∷ [])
        (All-map (λ r p. omega (arith, p)) db.runs v.fresh_runs) (omega arith, tt);
}
