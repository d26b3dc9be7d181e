-- ===== src/TaskRepo/Evolution/Pages.antt =====
-- The creation of tasks, and the transactions of the budget, follow the state machine.
use get_magnet.Common.{
  ℕ, ◌==◌, ◌≡◌, refl, Option, none, some, String, str_eq, ltb, leb, count, first, Ensures,
  Ensures-guard, Ensures-or_fail, Ensures->>=, Ensures->>, succeeds, inl, inr, Bool-cases,
  Option-cases, arith,
}
use get_magnet.CrawlPolicy.{Urls, Budget}
use get_magnet.Table.Rows.{CrawlTask, TaskAttempt, Reason}
use get_magnet.TaskRepo.Budgets.{
  initialize_run_budget, reserve_domain, settle, reserve_row, reserve_slot, reserve_task,
  reserve_page, check_url, check_page_url, page_reason, hostname_of, reserved_in,
}
use get_magnet.TaskRepo.Claims.{Claim}
use get_magnet.TaskRepo.Create.{
  Request, create_workflow_child, create_child, create_task, same_work,
}
use get_magnet.TaskRepo.Evolution.{Edge, Edge-refl, Evolves, Evolves-update, Evolves-keep}
use get_magnet.TaskRepo.Evolution.Several.{
  limit_event-Evolves, insert_task-Evolves, limit_event-tables,
}
use get_magnet.TaskRepo.Finish.{limit_row}
use get_magnet.TaskRepo.Store.{Db}

reserve_domain-tables :
    (run_id : ℕ) (b : Budget) (hostname : String) (db : Db)
    → ((reserve_domain run_id b hostname db).0.tasks ≡ db.tasks)
      × ((reserve_domain run_id b hostname db).0.next_task_id ≡ db.next_task_id)
unfolding reserve_domain
reserve_domain-tables run_id b hostname db = ground arith

abbrev First {κ} : {A : Type κ} → Db → Db × A → Type 0
First db r = Evolves db r.0

settle-Evolves :
    (db : Db) (t : CrawlTask) (page_url : String) (r : Db × Option Reason)
    → Evolves db r.0
    → Evolves db (settle t page_url r).0
unfolding settle
settle-Evolves db t page_url (db', none) e = e
settle-Evolves db t page_url (db', some reason) e =
    let kept = limit_event-tables (limit_row t page_url reason) db' in
    record { rows = rw kept.0 e.rows; next = rw kept.1 e.next }

reserve_row-Edge : (host : String) (t : CrawlTask) → Edge t (reserve_row host t)
reserve_row-Edge host t = record {
  id = refl;
  run = refl;
  parent = refl;
  count = omega arith;
  move = (Edge-refl t).move;
}

module _ (urls : Urls) where
  reserve_slot-Evolves :
      (b : Budget) (task : CrawlTask) (page_url : String) (db : Db)
      → Evolves db (reserve_slot urls b task page_url db).0
  unfolding reserve_slot
  reserve_slot-Evolves b task page_url db =
      let host = hostname_of urls page_url in
      let db' = (reserve_domain task.run_id b host db).0 in
      let kept = reserve_domain-tables task.run_id b host db in
      elim (Bool-cases (leb b.max_pages (count (reserved_in task.run_id) db.tasks))) [
        | inl full ↦ rw (full, reserve_slot) (Evolves-keep refl refl)
        | inr room ↦ elim (Option-cases (reserve_domain task.run_id b host db).1) [
          | inr (reason, e) ↦ rw (room, e, reserve_slot) (Evolves-keep kept.0 kept.1)
          | inl free ↦
              rw (room, free, reserve_slot)
                (Evolves-update {db = db} (λ t. t.id == task.id) (reserve_row host)
                  (λ t h. reserve_row-Edge host t) (rw kept.0 refl) kept.1)
        ]
      ]

  reserve_task-Evolves :
      (now : ℕ) (b : Budget) (deadline : ℕ) (task : CrawlTask) (page_url : String) (db : Db)
      → Evolves db (reserve_task urls now b deadline task page_url db).0
  unfolding reserve_task
  reserve_task-Evolves now b deadline task page_url db =
      elim (Option-cases (page_reason urls now b deadline task.depth page_url)) [
        | inr (reason, e) ↦ rw (e, reserve_task) (Evolves-keep refl refl)
        | inl free ↦ elim (Bool-cases task.page_reserved) [
          | inl before ↦ rw (free, before, reserve_task) (Evolves-keep refl refl)
          | inr new ↦ rw (free, new, reserve_task) (reserve_slot-Evolves b task page_url db)
        ]
      ]

  pub reserve_page-Evolves :
      (now : ℕ) (claim : Claim) (page_url : String) (db : Db)
      → Ensures (λ r. Evolves db r.0) (reserve_page urls now claim page_url db)
  unfolding reserve_page
  reserve_page-Evolves now claim page_url db = Ensures-guard _ λ active. Ensures-guard _ λ fenced.
      Ensures->>= λ budget known. Ensures-or_fail _ λ limits there. Ensures-or_fail _ λ task found.
        succeeds (
          settle-Evolves db task page_url _
            (reserve_task-Evolves now limits.0 limits.1 task page_url db))

  check_url-Evolves :
      (now run_id : ℕ) (limits : Budget × ℕ) (page_url : String) (db : Db)
      → Evolves db (check_url urls now run_id limits page_url db).0
  unfolding check_url
  check_url-Evolves now run_id (b, deadline) page_url db =
      let kept = reserve_domain-tables run_id b (hostname_of urls page_url) db in
      ground (
        arith,
        Evolves-keep {db = db} {db' = db} refl refl,
        Evolves-keep {db = db} {db' = (reserve_domain run_id b (hostname_of urls page_url) db).0}
            kept.0 kept.1,
      )

  pub check_page_url-Evolves :
      (now : ℕ) (claim : Claim) (page_url : String) (db : Db)
      → Ensures (λ r. Evolves db r.0) (check_page_url urls now claim page_url db)
  unfolding check_page_url
  check_page_url-Evolves now claim page_url db = Ensures-guard _ λ active. Ensures->> λ fenced.
      Ensures->>= λ budget known. succeeds (
        settle-Evolves db claim.task page_url _
          (check_url-Evolves now claim.task.run_id _ page_url db))

  pub initialize_run_budget-Evolves :
      (run_id : ℕ) (db : Db) → Ensures (λ r. Evolves db r.0) (initialize_run_budget urls run_id db)
  unfolding initialize_run_budget
  initialize_run_budget-Evolves run_id db = Ensures-or_fail _ λ run found.
      elim (Option-cases run.budget) [
        | inr (b, stored) ↦ rw stored (succeeds (Evolves-keep refl refl))
        | inl missing ↦ rw missing (Ensures->>= λ b valid. succeeds (Evolves-keep refl refl))
      ]

  create_workflow_child-Evolves :
      (now : ℕ) (q : Request) (parent : CrawlTask) (db : Db)
      → Ensures (λ r. Evolves db r.0) (create_workflow_child urls now q parent db)
  unfolding create_workflow_child
  create_workflow_child-Evolves now q parent db =
      elim (Option-cases (first (same_work q) db.tasks)) [
        | inr (t, found) ↦ rw (found, create_workflow_child) (succeeds (Evolves-keep refl refl))
        | inl new ↦
            rw (new, create_workflow_child)
              (Ensures->>= λ limit known. elim (Option-cases limit.0) [
                | inr (reason, e) ↦ rw e (succeeds (limit_event-Evolves _ db))
                | inl free ↦
                    rw free (succeeds (insert_task-Evolves now q (some q.parent) limit.1 db))
              ])
      ]

  create_child-Evolves :
      (now : ℕ) (q : Request) (attempt : Option TaskAttempt) (db : Db)
      → Ensures (λ r. Evolves db r.0) (create_child urls now q attempt db)
  unfolding create_child
  create_child-Evolves now q attempt db = Ensures->>= λ parent running. Ensures->> λ held.
      elim (Bool-cases (str_eq q.task_type "workflow")) [
        | inl workflow ↦ rw workflow (create_workflow_child-Evolves now q parent db)
        | inr other ↦ rw other (succeeds (insert_task-Evolves now q (some q.parent) 0 db))
      ]

  pub create_task-Evolves :
      (now : ℕ) (q : Request) (attempt : Option TaskAttempt) (db : Db)
      → Ensures (λ r. Evolves db r.0) (create_task urls now q attempt db)
  unfolding create_task
  create_task-Evolves now q attempt db = Ensures-guard _ λ named. Ensures-guard _ λ active.
      elim (Bool-cases (ltb 0 q.parent)) [
        | inl child ↦ rw child (create_child-Evolves now q attempt db)
        | inr root ↦ rw root (succeeds (insert_task-Evolves now q none 0 db))
      ]
