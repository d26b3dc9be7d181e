-- ===== src/TaskRepo/Evolution/Single.antt =====
-- The transactions on one task follow the state machine.
use mathlib.Core.Path.{subst}
use get_magnet.Common.{
  ℕ, ◌+◌, ◌*◌, ◌≤◌, ◌==◌, ◌≡◌, refl, sym, ap, ◌∙◌, Bool, true, ◌&&◌, some, String, first, select,
  Ensures, Ensures-guard, Ensures-or_fail, succeeds, inl, inr, Bool-cases, Option-cases,
  some-injective, first_meets, arith, All, All-map,
}
use get_magnet.Table.Status.{is_running_task, is_active_task}
use get_magnet.Table.Rows.{CrawlTask, TaskAttempt}
use get_magnet.TaskRepo.Backoff.{backoff_delay}
use get_magnet.TaskRepo.Claims.{
  Claim, claim_next, claim_task, claim_row, take_task, start_attempt, oldest, lease_or_default,
  renew_lease, renew_row, save_document,
}
use get_magnet.TaskRepo.Evolution.{Edge, Edge-refl, Evolves, Evolves-update, Evolve-update}
use get_magnet.TaskRepo.Finish.{
  complete_commit, fail_commit, fail_row, end_task, ending_task, Ending, Cause, message_of,
  will_retry,
}
use get_magnet.TaskRepo.Invariant.{IsConsistent}
use get_magnet.TaskRepo.Invariant.Keys.{keyed_unique}
use get_magnet.TaskRepo.Recovery.{recover_expired_task, recover_row, lease_expired}
use get_magnet.TaskRepo.Store.{
  InputText, Db, claimable, fenced, JsonText, max_attempt_no, second, run_is_active,
}

pub renew_lease-Evolves :
    (now task_id : ℕ) (attempt : TaskAttempt) (lease : ℕ) (db : Db)
    → Ensures (Evolves db) (renew_lease now task_id attempt lease db)
unfolding renew_lease
renew_lease-Evolves now task_id attempt lease db = Ensures-guard _ λ positive.
    Ensures-guard _ λ one. succeeds (
      Evolves-update (fenced now task_id attempt) (renew_row now lease)
        (λ t h. record {
          id = refl;
          run = refl;
          parent = refl;
          count = omega arith;
          move = (Edge-refl t).move;
        })
        refl refl)

pub save_document-Evolves :
    (task_id document_id : ℕ) (db : Db) → Evolves db (save_document task_id document_id db)
unfolding save_document
save_document-Evolves task_id document_id db =
    Evolves-update (λ t. t.id == task_id) (λ t. record t { output_document_id = some document_id })
      (λ t h. record {
        id = refl;
        run = refl;
        parent = refl;
        count = omega arith;
        move = (Edge-refl t).move;
      })
      refl refl

end_task-Edge :
    (now now' task_id : ℕ) (attempt : TaskAttempt) (ending : Ending) (t : CrawlTask)
    → fenced now' task_id attempt t ≡ true
    → Edge t (end_task now (ending_task ending) t)
unfolding fenced
end_task-Edge now now' task_id attempt ending t h = record {
  id = refl;
  run = refl;
  parent = refl;
  count = omega arith;
  move = ground (arith, h);
}

pub complete_commit-Evolves :
    (early : Db) (now task_id attempt_id : ℕ) (response : JsonText) (ending : Ending) (db : Db)
    → Ensures (Evolves db) (complete_commit early now task_id attempt_id response ending db)
unfolding complete_commit
complete_commit-Evolves early now task_id attempt_id response ending db =
    Ensures-or_fail _ λ attempt read. Ensures-guard _ λ mine. Ensures-guard _ λ one.
      Ensures-guard _ λ own. succeeds (
        Evolves-update (fenced now task_id attempt) (end_task now (ending_task ending))
          (λ t h. end_task-Edge now now task_id attempt ending t h) refl refl)

fail_row-Edge :
    (now task_id : ℕ) (attempt : TaskAttempt) (again : Bool) (delay : ℕ) (message : String)
    (t : CrawlTask)
    → fenced now task_id attempt t ≡ true
    → Edge t (fail_row again now delay message t)
unfolding fenced
fail_row-Edge now task_id attempt again delay message t h = ground (arith, h)

pub fail_commit-Evolves :
    (early : Db) (now : ℕ) (random : ℕ → ℕ) (task_id attempt_id : ℕ) (cause : Cause)
    (retryable : Bool) (db : Db)
    → Ensures
        (λ r. Evolves db r.0)
        (fail_commit early now random task_id attempt_id cause retryable db)
unfolding fail_commit
fail_commit-Evolves early now random task_id attempt_id cause retryable db =
    Ensures-or_fail _ λ task known. Ensures-or_fail _ λ attempt read. Ensures-guard _ λ mine.
      Ensures-guard _ λ one. Ensures-guard _ λ own. succeeds (
        Evolves-update (fenced now task_id attempt)
          (fail_row (will_retry retryable task) now (backoff_delay task.attempt_count random)
            (message_of cause))
          (λ t h. fail_row-Edge now task_id attempt _ _ _ t h) refl refl)

claim-Edge :
    (now : ℕ) (worker : String) (until : ℕ) (t : CrawlTask)
    → is_active_task t.status ≡ true
    → (number : ℕ) → t.attempt_count ≤ number
    → Edge t (take_task now worker until number t)
claim-Edge now worker until t active number h = record {
  id = refl;
  run = refl;
  parent = refl;
  count = h;
  move = ground (arith, active);
}

claimable-is_active :
    (now : ℕ) (db : Db) (task_type : String) (t : CrawlTask)
    → claimable now db.runs task_type t ≡ true
    → is_active_task t.status ≡ true
unfolding claimable
claimable-is_active now db task_type t h = ground arith

claim_row-Evolves :
    (now : ℕ) (worker : String) (lease : ℕ) (task_type : String) (task : CrawlTask) (db : Db)
    → All (λ t. t.id ≡ task.id → t ≡ task) db.tasks
    → Evolves db (claim_row now worker lease task_type task db).0
unfolding claim_row
claim_row-Evolves now worker lease task_type task db unique = record {
  rows =
      Evolve-update (λ t. t.id ≡ task.id → t ≡ task) db.next_task_id
        (λ t. (t.id == task.id) && claimable now db.runs task_type t)
        (take_task now worker (now + lease) (task.attempt_count + 1))
        (λ t h u.
          claim-Edge now worker (now + lease) t
            (claimable-is_active now db task_type t (ground (arith, h))) (task.attempt_count + 1)
            (omega (arith, ap (λ (x : CrawlTask). x.attempt_count) (u (ground (arith, h))))))
        db.tasks unique;
  next = omega arith;
}

abbrev taking : ℕ → String → CrawlTask → Db → CrawlTask → Bool
taking now task_type candidate db t = (t.id == candidate.id) && claimable now db.runs task_type t

taking-id :
    (now : ℕ) (task_type : String) (candidate : CrawlTask) (db : Db) (t : CrawlTask)
    → taking now task_type candidate db t ≡ true
    → t.id ≡ candidate.id
taking-id now task_type candidate db t h = ground arith

pub claim_task-Evolves :
    (now : ℕ) (worker : String) (lease : ℕ) (task_type : String) (candidate : CrawlTask) (db : Db)
    {r : Db × Claim}
    → IsConsistent db
    → claim_task now worker lease task_type candidate db ≡ some r
    → Evolves db r.0
unfolding claim_task
claim_task-Evolves now worker lease task_type candidate db {r} v e =
    elim (Bool-cases (run_is_active candidate.run_id db.runs)) [
      | inr over ↦ absurd (ground arith)
      | inl active ↦ elim (Option-cases (first (taking now task_type candidate db) db.tasks)) [
        | inl missing ↦ absurd (ground arith)
        | inr (task, found) ↦
            let here : task.id ≡ candidate.id =
              taking-id now task_type candidate db task
                (first_meets (taking now task_type candidate db) db.tasks found) in
            subst (λ (p : Db × Claim). Evolves db p.0)
              (some-injective (rw (active, found, claim_task) at e))
              (claim_row-Evolves now worker lease task_type task db (
                All-map (λ t u h. u (h ∙ here)) db.tasks
                  (keyed_unique candidate.id (taking now task_type candidate db)
                    (taking-id now task_type candidate db) db.tasks v.distinct found)))
      ]
    ]

pub claim_next-Evolves :
    (early : Db) (now : ℕ) (worker : String) (lease : ℕ) (task_type : String) (db : Db)
    {r : Db × Claim}
    → IsConsistent db
    → claim_next early now worker lease task_type db ≡ some r
    → Evolves db r.0
unfolding claim_next
claim_next-Evolves early now worker lease task_type db {r} v e =
    elim (Option-cases (oldest (select (claimable now early.runs task_type) early.tasks))) [
      | inl none_there ↦ absurd (ground arith)
      | inr (candidate, found) ↦
          claim_task-Evolves now worker (lease_or_default lease) task_type candidate db v
            (rw (found, claim_next) at e)
    ]

pub start_attempt-Evolves :
    (now task_id : ℕ) (worker : String) (input : InputText) (db : Db)
    → IsConsistent db
    → Ensures (λ r. Evolves db r.0) (start_attempt now task_id worker input db)
unfolding start_attempt
start_attempt-Evolves now task_id worker input db v = Ensures-guard _ λ named.
    Ensures-or_fail _ λ task found. Ensures-guard _ λ some_taken. succeeds (record {
      rows =
          Evolve-update (λ t. t.attempt_count ≡ max_attempt_no t.id db.attempts) db.next_task_id
            (λ t. (t.id == task_id) && claimable now db.runs "" t)
            (take_task now worker (now + 300 * second) (max_attempt_no task_id db.attempts + 1))
            (λ t h p.
              let here : t.id ≡ task_id = ground (arith, h) in
              claim-Edge now worker (now + 300 * second) t
                (claimable-is_active now db "" t (ground (arith, h))) _
                (omega (arith, ap (λ id. max_attempt_no id db.attempts) here, p)))
            db.tasks v.numbered;
      next = omega arith;
    })

abbrev expired_id : ℕ → ℕ → CrawlTask → Bool
expired_id now id t = (t.id == id) && lease_expired now t

recover_row-Edge :
    (now : ℕ) (task : CrawlTask)
    → is_running_task task.status ≡ true
    → Edge task (recover_row now task task)
unfolding recover_row
recover_row-Edge now task running = ground (arith, running)

pub recover_expired_task-Evolves :
    (now id : ℕ) (db : Db) {db' : Db}
    → IsConsistent db
    → recover_expired_task now id db ≡ some db'
    → Evolves db db'
unfolding recover_expired_task
recover_expired_task-Evolves now id db {db'} v e =
    elim (Option-cases (first (expired_id now id) db.tasks)) [
      | inl missing ↦ absurd (ground arith)
      | inr (task, found) ↦
          let meets = first_meets (expired_id now id) db.tasks found in
          let here : task.id ≡ id = ground (arith, meets) in
          let running : is_running_task task.status ≡ true = ground (arith, meets) in
          subst (Evolves db) (some-injective (rw (found, recover_expired_task) at e)) (record {
            rows =
                Evolve-update (λ t. t.id ≡ id → t ≡ task) db.next_task_id (λ t. t.id == task.id)
                  (recover_row now task)
                  (λ t hit u.
                    let same : t ≡ task = u (ground (arith, hit, here)) in
                    subst (λ x. Edge x (recover_row now task x)) (sym same)
                      (recover_row-Edge now task running))
                  db.tasks
                  (keyed_unique id (expired_id now id) (λ t h. ground arith) db.tasks v.distinct
                    found);
            next = omega arith;
          })
    ]
