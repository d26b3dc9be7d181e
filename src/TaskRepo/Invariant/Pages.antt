-- ===== src/TaskRepo/Invariant/Pages.antt =====
-- Reserving a page or a domain, and tying a document to a task, keep the tables consistent.
use get_magnet.Common.{
  ℕ, ◌==◌, refl, Option, none, some, String, List, [], ◌++◌, ◌∷◌, update, Ensures, Ensures-guard,
  Ensures-or_fail, Ensures->>=, Ensures->>, succeeds, inl, inr, Option-cases, arith, All-map,
  All-update, ◌<◌,
}
use get_magnet.CrawlPolicy.{Urls, Budget}
use get_magnet.Table.Rows.{CrawlTask, Reason, DomainRow}
use get_magnet.TaskRepo.Budgets.{
  initialize_run_budget, budget_row, reserve_page, check_page_url, check_url, reserve_domain,
  reserve_slot, reserve_task, reserve_row, settle, hostname_of,
}
use get_magnet.TaskRepo.Claims.{Claim, save_document}
use get_magnet.TaskRepo.Invariant.{IsConsistent, SameNumbers-refl, amend_rows-IsConsistent}
use get_magnet.TaskRepo.Invariant.Cancelling.{limit_event-IsConsistent}
use get_magnet.TaskRepo.Invariant.Runs.{IsRow-runs, run_is_active-update}
use get_magnet.TaskRepo.Store.{Db}

pub save_document-IsConsistent :
    (task_id document_id : ℕ) (db : Db)
    → IsConsistent db
    → IsConsistent (save_document task_id document_id db)
unfolding save_document
save_document-IsConsistent task_id document_id db v =
    amend_rows-IsConsistent db _ (λ t. t.id == task_id)
      (λ t. record t { output_document_id = some document_id }) (λ t. refl) (λ t. refl) refl
      (SameNumbers-refl _) refl refl refl
      (λ t h r. record { live = r.live; leased = r.leased; capped = r.capped }) v

settle-IsConsistent :
    (t : CrawlTask) (page_url : String) (r : Db × Option Reason)
    → IsConsistent r.0
    → IsConsistent (settle t page_url r).0
unfolding settle
settle-IsConsistent t page_url (db, none) v = v
settle-IsConsistent t page_url (db, some reason) v = limit_event-IsConsistent _ db v

domain_added :
    (rows : List DomainRow) (db : Db)
    → IsConsistent db
    → IsConsistent (record db { run_domains = rows })
domain_added rows db v = record {
  rows = v.rows;
  numbered = v.numbered;
  distinct = v.distinct;
  fresh_tasks = v.fresh_tasks;
  fresh_attempts = v.fresh_attempts;
  fresh_runs = v.fresh_runs;
}

reserve_domain-IsConsistent :
    (run_id : ℕ) (b : Budget) (hostname : String) (db : Db)
    → IsConsistent db
    → IsConsistent (reserve_domain run_id b hostname db).0
unfolding reserve_domain
reserve_domain-IsConsistent run_id b hostname db v = ground (
  arith,
  v,
  domain_added (db.run_domains ++ record { run_id = run_id; hostname = hostname } ∷ []) db v,
)

module _ (urls : Urls) where
  reserve_slot-IsConsistent :
      (b : Budget) (task : CrawlTask) (page_url : String) (db : Db)
      → IsConsistent db
      → IsConsistent (reserve_slot urls b task page_url db).0
  unfolding reserve_slot
  reserve_slot-IsConsistent b task page_url db v =
      let w = reserve_domain-IsConsistent task.run_id b (hostname_of urls page_url) db v in
      ground (
        arith,
        v,
        w,
        amend_rows-IsConsistent (reserve_domain task.run_id b (hostname_of urls page_url) db).0
            (record (reserve_domain task.run_id b (hostname_of urls page_url) db).0 {
              tasks =
                  update (λ t. t.id == task.id) (reserve_row (hostname_of urls page_url))
                    (reserve_domain task.run_id b (hostname_of urls page_url) db).0.tasks;
            })
            (λ t. t.id == task.id) (reserve_row (hostname_of urls page_url)) (λ t. refl) (λ t. refl)
            refl (SameNumbers-refl _) refl refl refl
            (λ t h r. record { live = r.live; leased = r.leased; capped = r.capped }) w,
      )

  reserve_task-IsConsistent :
      (now : ℕ) (b : Budget) (deadline : ℕ) (task : CrawlTask) (page_url : String) (db : Db)
      → IsConsistent db
      → IsConsistent (reserve_task urls now b deadline task page_url db).0
  unfolding reserve_task
  reserve_task-IsConsistent now b deadline task page_url db v =
      ground (arith, v, reserve_slot-IsConsistent b task page_url db v)

  pub reserve_page-IsConsistent :
      (now : ℕ) (claim : Claim) (page_url : String) (db : Db)
      → IsConsistent db
      → Ensures (λ r. IsConsistent r.0) (reserve_page urls now claim page_url db)
  unfolding reserve_page
  reserve_page-IsConsistent now claim page_url db v = Ensures-guard _ λ active.
      Ensures-guard _ λ fenced. Ensures->>= λ budget known. Ensures-or_fail _ λ limits there.
        Ensures-or_fail _ λ task found. succeeds (
          settle-IsConsistent task page_url _
            (reserve_task-IsConsistent now limits.0 limits.1 task page_url db v))

  check_url-IsConsistent :
      (now run_id : ℕ) (limits : Budget × ℕ) (page_url : String) (db : Db)
      → IsConsistent db
      → IsConsistent (check_url urls now run_id limits page_url db).0
  unfolding check_url
  check_url-IsConsistent now run_id (b, deadline) page_url db v =
      ground (arith, v, reserve_domain-IsConsistent run_id b (hostname_of urls page_url) db v)

  pub check_page_url-IsConsistent :
      (now : ℕ) (claim : Claim) (page_url : String) (db : Db)
      → IsConsistent db
      → Ensures (λ r. IsConsistent r.0) (check_page_url urls now claim page_url db)
  unfolding check_page_url
  check_page_url-IsConsistent now claim page_url db v = Ensures-guard _ λ active.
      Ensures->> λ fenced. Ensures->>= λ budget known. succeeds (
        settle-IsConsistent claim.task page_url _
          (check_url-IsConsistent now claim.task.run_id _ page_url db v))

  pub initialize_run_budget-IsConsistent :
      (run_id : ℕ) (db : Db)
      → IsConsistent db
      → Ensures (λ r. IsConsistent r.0) (initialize_run_budget urls run_id db)
  unfolding initialize_run_budget
  initialize_run_budget-IsConsistent run_id db v = Ensures-or_fail _ λ run found.
      elim (Option-cases run.budget) [
        | inr (b, stored) ↦ rw stored (succeeds v)
        | inl missing ↦ rw missing (
            Ensures->>= λ b valid. succeeds (record {
              rows =
                  All-map
                    (λ t r.
                      IsRow-runs db.runs _ t
                        (run_is_active-update (λ r. r.id == run_id) (budget_row b) (λ r. refl)
                          (λ r c h. h) t.run_id db.runs)
                        r)
                    db.tasks v.rows;
              numbered = v.numbered;
              distinct = v.distinct;
              fresh_tasks = v.fresh_tasks;
              fresh_attempts = v.fresh_attempts;
              fresh_runs =
                  All-update (λ r. r.id < db.next_run_id) (λ r. r.id == run_id) (budget_row b)
                    (λ r c p. p) db.runs v.fresh_runs;
            }))
      ]
