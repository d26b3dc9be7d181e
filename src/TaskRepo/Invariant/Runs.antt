-- ===== src/TaskRepo/Invariant/Runs.antt =====
-- Changes of run rows: which of them leave a run active.
use get_magnet.Common.{
  ℕ, ◌==◌, ◌≡◌, refl, ◌≢◌, Bool, true, List, ◌++◌, first, update, All, arith, inl, inr,
  Option-cases, first-update, first_meets, first-append_some, ◌<◌, All-update,
}
use get_magnet.Table.Status.{is_active_run}
use get_magnet.Table.Rows.{CrawlTask, WorkflowRun}
use get_magnet.TaskRepo.Invariant.{IsRow}
use get_magnet.TaskRepo.Store.{run_is_active, start_run}

module _ (c : WorkflowRun → Bool) (f : WorkflowRun → WorkflowRun)
    (same : (r : WorkflowRun) → (f r).id ≡ r.id) where
  -- An update that keeps active runs active.
  pub run_is_active-update :
      ((r : WorkflowRun)
        → c r ≡ true
        → is_active_run r.status ≡ true
        → is_active_run (f r).status ≡ true)
      → (id : ℕ) (runs : List WorkflowRun) → run_is_active id runs ≡ true
      → run_is_active id (update c f runs) ≡ true
  run_is_active-update keep id runs h =
      rw (first-update (λ r. r.id == id) c f (λ r. rw (same r)) runs)
        (elim (Option-cases (first (λ r. r.id == id) runs)) [
          | inl e ↦ absurd (ground arith)
          | inr (r, e) ↦ rw e (ground (arith, keep r))
        ])

  -- An update of another run.
  pub run_is_active-update_ne :
      (other : ℕ)
      → ((r : WorkflowRun) → c r ≡ true → r.id ≡ other)
      → (id : ℕ) (runs : List WorkflowRun) → id ≢ other
      → run_is_active id (update c f runs) ≡ run_is_active id runs
  run_is_active-update_ne other only id runs h =
      rw (first-update (λ r. r.id == id) c f (λ r. rw (same r)) runs)
        (elim (Option-cases (first (λ r. r.id == id) runs)) [
          | inl e ↦ rw e
          | inr (r, e) ↦ rw e (ground (arith, only r, first_meets (λ r. r.id == id) runs {x = r} e))
        ])

pub run_is_active-start_run :
    (now run_id id : ℕ) (runs : List WorkflowRun)
    → run_is_active id runs ≡ true
    → run_is_active id (start_run now run_id runs) ≡ true
unfolding start_run
run_is_active-start_run now run_id id runs h =
    run_is_active-update _ _ (λ r. refl) (λ r _ _. refl) id runs h

pub run_is_active-append :
    (id : ℕ) (runs more : List WorkflowRun)
    → run_is_active id runs ≡ true
    → run_is_active id (runs ++ more) ≡ true
run_is_active-append id runs more h = elim (Option-cases (first (λ r. r.id == id) runs)) [
  | inl e ↦ absurd (ground arith)
  | inr (r, e) ↦ rw (first-append_some (λ r. r.id == id) runs more {x = r} e) (ground arith)
]

-- A row stays a row where its run stays active.
pub IsRow-runs :
    (runs runs' : List WorkflowRun) (t : CrawlTask)
    → (run_is_active t.run_id runs ≡ true → run_is_active t.run_id runs' ≡ true)
    → IsRow runs t
    → IsRow runs' t
IsRow-runs runs runs' t keep v = record {
  live = λ h. keep (v.live h);
  leased = v.leased;
  capped = v.capped;
}

pub start_run-fresh :
    (now id n : ℕ) (runs : List WorkflowRun)
    → All (λ r. r.id < n) runs
    → All (λ r. r.id < n) (start_run now id runs)
unfolding start_run
start_run-fresh now id n runs h = All-update (λ r. r.id < n) _ _ (λ r _ p. p) runs h
