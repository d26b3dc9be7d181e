-- ===== src/TaskRepo/History.antt =====
-- What no sequence of transactions undoes: the state machine of the tasks over histories.
use get_magnet.Common.{
  ℕ, ◌≤◌, ◌<◌, ◌≡◌, sym, ◌∙◌, Bool, true, false, List, [], ◌∷◌, All, All-map, of_Ensures, arith,
}
use get_magnet.CrawlPolicy.{Urls}
use get_magnet.Table.Status.{TaskStatus}
use get_magnet.Table.Rows.{CrawlTask}
use get_magnet.TaskRepo.Evolution.{Edge, IsFresh, Evolve, Evolves, can_move}
use get_magnet.TaskRepo.Evolution.Pages.{
  reserve_page-Evolves, check_page_url-Evolves, initialize_run_budget-Evolves, create_task-Evolves,
}
use get_magnet.TaskRepo.Evolution.Several.{
  try_finish_run-Evolves, cancel_task_commit-Evolves, cancel_run-Evolves, limit_event-Evolves,
  expire_rows-Evolves, retry_task-Evolves, create_run-Evolves, rerun_run-Evolves,
  update_run_summary-Evolves,
}
use get_magnet.TaskRepo.Evolution.Single.{
  renew_lease-Evolves, save_document-Evolves, complete_commit-Evolves, fail_commit-Evolves,
  claim_next-Evolves, start_attempt-Evolves, recover_expired_task-Evolves,
}
use get_magnet.TaskRepo.Invariant.{IsConsistent}
use get_magnet.TaskRepo.Steps.{
  Step, Reach, Reach-IsConsistent, claims, starts, renews, documents, completes, fails, finishes,
  recovers, cancels_task, cancels_run, retries, creates_run, reruns, summarizes, creates, budgets,
  reserves, checks, limits, expires, here, extend,
}
use get_magnet.TaskRepo.Store.{Db}

module _ {urls : Urls} where
  -- One transaction, of any kind, from a consistent state, changes each task row along the state
  -- machine: its id, run and parent stay, its number of attempts does not go down, and its status
  -- makes a move that `can_move` lists; new rows are queued, with no attempt and a new id.
  pub Step-Evolves : {db db' : Db} → IsConsistent db → Step urls db db' → Evolves db db'
  Step-Evolves v (claims early now worker lease task_type {db} e) =
      claim_next-Evolves early now worker lease task_type db v e
  Step-Evolves v (starts now task_id worker input {db} e) =
      of_Ensures (start_attempt-Evolves now task_id worker input db v) e
  Step-Evolves v (renews now task_id attempt lease {db} e) =
      of_Ensures (renew_lease-Evolves now task_id attempt lease db) e
  Step-Evolves v (documents task_id document_id db) = save_document-Evolves task_id document_id db
  Step-Evolves v (completes early now task_id attempt_id response ending {db} e) =
      of_Ensures (complete_commit-Evolves early now task_id attempt_id response ending db) e
  Step-Evolves v (fails early now random task_id attempt_id cause retryable {db} e) =
      of_Ensures (fail_commit-Evolves early now random task_id attempt_id cause retryable db) e
  Step-Evolves v (finishes early now task_id db) = try_finish_run-Evolves early now task_id db
  Step-Evolves v (recovers now id {db} e) = recover_expired_task-Evolves now id db v e
  Step-Evolves v (cancels_task early now id {db} e) =
      of_Ensures (cancel_task_commit-Evolves early now id db) e
  Step-Evolves v (cancels_run now id {db} e) = of_Ensures (cancel_run-Evolves now id db) e
  Step-Evolves v (retries early now id {db} current e) =
      of_Ensures (retry_task-Evolves early now id db) e
  Step-Evolves v (creates_run now workflow version trigger input db) =
      create_run-Evolves now workflow version trigger input db
  Step-Evolves v (reruns early now id {db} e) = of_Ensures (rerun_run-Evolves early now id db) e
  Step-Evolves v (summarizes run_id summary {db} e) =
      of_Ensures (update_run_summary-Evolves run_id summary db) e
  Step-Evolves v (creates now q attempt {db} e) =
      of_Ensures (create_task-Evolves urls now q attempt db) e
  Step-Evolves v (budgets run_id {db} e) =
      of_Ensures (initialize_run_budget-Evolves urls run_id db) e
  Step-Evolves v (reserves now claim page_url {db} e) =
      of_Ensures (reserve_page-Evolves urls now claim page_url db) e
  Step-Evolves v (checks now claim page_url {db} e) =
      of_Ensures (check_page_url-Evolves urls now claim page_url db) e
  Step-Evolves v (limits e db) = limit_event-Evolves e db
  Step-Evolves v (expires now run_id db) = expire_rows-Evolves now run_id db

-- A property of the rows of one id that every move keeps holds of them for ever, once the id is used.
abbrev Keeps {κ} : (CrawlTask → Type κ) → ℕ → List CrawlTask → Type κ
Keeps P id ts = All (λ t. t.id ≡ id → P t) ts

fresh-Keeps {κ} :
    (P : CrawlTask → Type κ) (id next : ℕ) (ts : List CrawlTask)
    → id < next
    → All (IsFresh next) ts
    → Keeps P id ts
fresh-Keeps P id next ts used h =
    All-map (λ t f same. absurd (omega (arith, f.id, same, used))) ts h

Evolve-Keeps {κ} :
    (P : CrawlTask → Type κ) (id next : ℕ) (ts us : List CrawlTask)
    → ((t u : CrawlTask) → Edge t u → P t → P u)
    → id < next
    → Evolve next ts us
    → Keeps P id ts
    → Keeps P id us
Evolve-Keeps P id next [] us keep used e h = fresh-Keeps P id next us used e
Evolve-Keeps P id next (t ∷ ts) [] keep used e h = absurd e
Evolve-Keeps P id next (t ∷ ts) (u ∷ us) keep used e h =
    (λ same. keep t u e.0 (h.0 (sym e.0.id ∙ same)), Evolve-Keeps P id next ts us keep used e.1 h.1)

record Kept {κ} (P : CrawlTask → Type κ) (id : ℕ) (db : Db) : Type κ where
  used : id < db.next_task_id
  rows : Keeps P id db.tasks

Reach-Kept {κ} :
    {urls : Urls} (P : CrawlTask → Type κ) (id : ℕ)
    → ((t u : CrawlTask) → Edge t u → P t → P u)
    → {db db' : Db} → IsConsistent db
    → Reach urls db db'
    → Kept P id db
    → Kept P id db'
Reach-Kept P id keep v here k = k
Reach-Kept P id keep {db = db} v (extend {db' = mid} r s) k =
    let earlier = Reach-Kept P id keep v r k in
    let e = Step-Evolves (Reach-IsConsistent r v) s in
    record {
      used = omega (arith, earlier.used, e.next);
      rows = Evolve-Keeps P id mid.next_task_id mid.tasks _ keep earlier.used e.rows earlier.rows;
    }

-- Succeeded, cancelled and limited.
abbrev pub is_final : TaskStatus → Bool
is_final TaskStatus.succeeded = true
is_final TaskStatus.cancelled = true
is_final TaskStatus.limited = true
is_final _ = false

final_stays : (s s' : TaskStatus) → is_final s ≡ true → can_move s s' ≡ true → s' ≡ s
final_stays s s' f m = ground arith

abbrev pub HasStatus : ℕ → TaskStatus → Db → Type 0
HasStatus id s db = (id < db.next_task_id) × All (λ t. t.id ≡ id → t.status ≡ s) db.tasks

-- From a consistent state, a task that has succeeded, was cancelled or was limited keeps this
-- status through every history.
pub Reach-final :
    {urls : Urls} {db db' : Db} (id : ℕ) (s : TaskStatus)
    → is_final s ≡ true
    → IsConsistent db
    → Reach urls db db'
    → HasStatus id s db
    → HasStatus id s db'
Reach-final id s final v r h =
    let k =
      Reach-Kept (λ t. t.status ≡ s) id
        (λ t u e p. final_stays t.status u.status (rw p final) e.move ∙ p) v r
        (record { used = h.0; rows = h.1 }) in
    (k.used, k.rows)

-- At least `n` attempts of the task were begun.
abbrev pub Begun : ℕ → ℕ → Db → Type 0
Begun id n db = (id < db.next_task_id) × All (λ t. t.id ≡ id → n ≤ t.attempt_count) db.tasks

-- From a consistent state, the number of a task's attempts never goes down.
pub Reach-Begun :
    {urls : Urls} {db db' : Db} (id n : ℕ)
    → IsConsistent db
    → Reach urls db db'
    → Begun id n db
    → Begun id n db'
Reach-Begun id n v r h =
    let k =
      Reach-Kept (λ t. n ≤ t.attempt_count) id (λ t u e p. omega (arith, e.count, p)) v r
        (record { used = h.0; rows = h.1 }) in
    (k.used, k.rows)
