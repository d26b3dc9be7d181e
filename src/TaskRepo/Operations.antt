-- ===== src/TaskRepo/Operations.antt =====
-- The operations that take several transactions are histories of them.
use get_magnet.Common.{
  ℕ, ◌≡◌, refl, Bool, none, some, List, [], ◌∷◌, ltb, first, select, inl, inr, ◌⊎◌, Bool-cases,
  Option-cases, Ensures, Ensures->>=, succeeds, of_Ensures, Ensures-map, Result,
}
use get_magnet.CrawlPolicy.{Urls}
use get_magnet.Table.Rows.{CrawlTask, WorkflowRun}
use get_magnet.TaskRepo.Budgets.{expire_commit, expire_budget_run, expire_rows}
use get_magnet.TaskRepo.Cancel.{cancel_task}
use get_magnet.TaskRepo.Finish.{complete_status, Ending, fail, Cause}
use get_magnet.TaskRepo.Outcome.{is_live_in}
use get_magnet.TaskRepo.Recovery.{
  lease_expired, recover_expired_task, recover_one, recover_all, expire_all, expire_budget_runs,
  recover_expired_leases,
}
use get_magnet.TaskRepo.Steps.{
  Reach, here, extend, completes, fails, finishes, cancels_task, recovers, expires, Reach-trans,
}
use get_magnet.TaskRepo.Store.{Db, Error, JsonText, run_is_active}

pub expire_commit-cases :
    (now run_id : ℕ) (db : Db)
    → Ensures
        (λ o. (o ≡ none) ⊎ (o ≡ some (expire_rows now run_id db)))
        (expire_commit now run_id db)
unfolding expire_commit
expire_commit-cases now run_id db = elim (Bool-cases (run_is_active run_id db.runs)) [
  | inr over ↦ rw (over, expire_commit) (succeeds (inl refl))
  | inl active ↦
      rw (active, expire_commit)
        (Ensures->>= λ budget read. elim (Option-cases budget) [
          | inl missing ↦ rw missing (succeeds (inl refl))
          | inr (limits, there) ↦ rw there (elim (Bool-cases (ltb now limits.1)) [
            | inl early ↦ rw early (succeeds (inl refl))
            | inr late ↦ rw late (succeeds (inr refl))
          ])
        ])
]

Ensures-then :
    {urls : Urls} {db db' : Db} {r : Result Error Db}
    → Reach urls db db'
    → Ensures (Reach urls db') r
    → Ensures (Reach urls db) r
Ensures-then p q = Ensures-map (λ db r. Reach-trans p r) q

module _ {urls : Urls} where
  -- Completing an attempt is its transaction and the end of the run.
  pub complete_status-Ensures :
      (early : Db) (now task_id attempt_id : ℕ) (response : JsonText) (ending : Ending) (db : Db)
      → Ensures (Reach urls db) (complete_status early now task_id attempt_id response ending db)
  unfolding complete_status
  complete_status-Ensures early now task_id attempt_id response ending db = Ensures->>= λ db' e.
      succeeds (
        extend (extend here (completes early now task_id attempt_id response ending e))
          (finishes db' now task_id db'))

  pub fail-Ensures :
      (early : Db) (now : ℕ) (random : ℕ → ℕ) (task_id attempt_id : ℕ) (cause : Cause)
      (retryable : Bool) (db : Db)
      → Ensures
          (λ r. Reach urls db r.0)
          (fail early now random task_id attempt_id cause retryable db)
  unfolding fail
  fail-Ensures early now random task_id attempt_id cause retryable db = Ensures->>= λ r e.
      let failed = extend here (fails early now random task_id attempt_id cause retryable e) in
      elim (Bool-cases r.1) [
        | inl again ↦ rw again (succeeds failed)
        | inr over ↦ rw over (succeeds (extend failed (finishes r.0 now task_id r.0)))
      ]

  pub cancel_task-Ensures :
      (early : Db) (now id : ℕ) (db : Db) → Ensures (Reach urls db) (cancel_task early now id db)
  unfolding cancel_task
  cancel_task-Ensures early now id db = Ensures->>= λ db' e.
      succeeds (extend (extend here (cancels_task early now id e)) (finishes db' now id db'))

  pub recover_one-Reach : (now id : ℕ) (db : Db) → Reach urls db (recover_one now id db).0
  unfolding recover_one
  recover_one-Reach now id db = elim (Option-cases (recover_expired_task now id db)) [
    | inl same ↦ rw (same, recover_one) here
    | inr (db', e) ↦
        rw (e, recover_one) (extend (extend here (recovers now id e)) (finishes db' now id db'))
  ]

  recover_all-Reach :
      (now : ℕ) (cs : List CrawlTask) (db : Db) (n : ℕ) → Reach urls db (recover_all now cs db n).0
  unfolding recover_all
  recover_all-Reach now [] db n = here
  recover_all-Reach now (c ∷ cs) db n =
      Reach-trans (recover_one-Reach now c.id db) (recover_all-Reach now cs _ _)

  pub expire_budget_run-Ensures :
      (now run_id : ℕ) (db : Db) → Ensures (Reach urls db) (expire_budget_run now run_id db)
  unfolding expire_budget_run
  expire_budget_run-Ensures now run_id db = Ensures->>= λ expired e.
      elim (of_Ensures (expire_commit-cases now run_id db) e) [
        | inl nothing ↦ rw nothing (succeeds here)
        | inr rows ↦ rw rows (elim (Option-cases (first (is_live_in run_id) db.tasks)) [
          | inl missing ↦ rw missing (succeeds (extend here (expires now run_id db)))
          | inr (t, found) ↦ rw found (
              succeeds (
                extend (extend here (expires now run_id db))
                  (finishes (expire_rows now run_id db) now t.id (expire_rows now run_id db))))
        ])
      ]

  expire_all-Ensures :
      (now : ℕ) (rs : List WorkflowRun) (db : Db) → Ensures (Reach urls db) (expire_all now rs db)
  unfolding expire_all
  expire_all-Ensures now [] db = succeeds here
  expire_all-Ensures now (r ∷ rs) db = Ensures->>= λ db' e.
      Ensures-then (of_Ensures (expire_budget_run-Ensures now r.id db) e)
        (expire_all-Ensures now rs db')

  -- So whatever holds of all histories of transactions holds of a whole recovery.
  pub recover_expired_leases-Ensures :
      (now : ℕ) (db : Db) → Ensures (λ r. Reach urls db r.0) (recover_expired_leases now db)
  unfolding recover_expired_leases expire_budget_runs
  recover_expired_leases-Ensures now db = Ensures->>= λ db' e. succeeds (
      Reach-trans (recover_all-Reach now (select (lease_expired now) db.tasks) db 0)
        (of_Ensures (expire_all-Ensures now _ _) e))
