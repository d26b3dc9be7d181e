-- ===== src/TaskRepo/Evolution/Several.antt =====
-- The transactions on several tasks, and those that add tasks, follow the state machine.
use get_magnet.Common.{
  ℕ, suc, ◌==◌, ◌≡◌, refl, ◌∙◌, true, ◌&&◌, Option, String, List, [], ◌∷◌, ◌++◌, exists, select,
  update, Ensures, Ensures-guard, Ensures-or_fail, Ensures->>=, succeeds, inl, inr, Bool-cases,
  Option-cases, arith,
}
use get_magnet.Table.Status.{TaskStatus, is_active_task, is_failed_task}
use get_magnet.Table.Rows.{CrawlTask, LimitRow, Reason, TaskInput}
use get_magnet.TaskRepo.Budgets.{record_limits, limit_task, expire_rows}
use get_magnet.TaskRepo.Cancel.{
  member, cancel_row, cancel_one, cancel_all, cancel_task_commit, cancel_run, descendants,
}
use get_magnet.TaskRepo.Create.{Request, new_task, insert_task}
use get_magnet.TaskRepo.Evolution.{
  Edge, IsFresh, Evolves, Evolves-update, Evolves-keep, Evolve-append, can_move,
}
use get_magnet.TaskRepo.Finish.{end_task, limit_event, limit_row, same_limit}
use get_magnet.TaskRepo.Outcome.{try_finish_run, finish_run, is_live_in}
use get_magnet.TaskRepo.Retry.{
  retry_task, retry_limit, revive, is_failed_id, create_run, rerun_run, queued_task,
  update_run_summary,
}
use get_magnet.TaskRepo.Store.{Db, find_task, JsonText, run_is_active}

finish_run-Evolves : (now run_id : ℕ) (db : Db) → Evolves db (finish_run now run_id db)
unfolding finish_run
finish_run-Evolves now run_id db = elim (Bool-cases (exists (is_live_in run_id) db.tasks)) [
  | inl live ↦ rw (live, finish_run) (Evolves-keep (ground arith) (ground arith))
  | inr ended ↦ elim (Bool-cases (run_is_active run_id db.runs)) [
    | inl active ↦ rw (active, ended, finish_run) (Evolves-keep refl refl)
    | inr over ↦ rw (over, finish_run) (Evolves-keep refl refl)
  ]
]

pub try_finish_run-Evolves :
    (early : Db) (now task_id : ℕ) (db : Db) → Evolves db (try_finish_run early now task_id db)
unfolding try_finish_run
try_finish_run-Evolves early now task_id db = elim (Option-cases (find_task task_id early)) [
  | inl missing ↦ rw (missing, try_finish_run) (Evolves-keep refl refl)
  | inr (t, found) ↦ rw (found, try_finish_run) (finish_run-Evolves now t.run_id db)
]

end_live-Edge :
    (now : ℕ) (status : TaskStatus) (t : CrawlTask)
    → is_active_task t.status ≡ true
    → can_move t.status status ≡ true
    → Edge t (end_task now status t)
end_live-Edge now status t active move = record {
  id = refl;
  run = refl;
  parent = refl;
  count = omega arith;
  move = move;
}

active-cancelled :
    (s : TaskStatus) → is_active_task s ≡ true → can_move s TaskStatus.cancelled ≡ true
active-cancelled s h = ground arith

active-limited : (s : TaskStatus) → is_active_task s ≡ true → can_move s TaskStatus.limited ≡ true
active-limited s h = ground arith

-- A cancelled row is no longer active, so the loop over the ids is one update.
cancel_again :
    (now id : ℕ) (ids : List ℕ) (ts : List CrawlTask)
    → update
        (λ t. member t.id ids && is_active_task t.status)
        (cancel_row now)
        (update (λ t. (t.id == id) && is_active_task t.status) (cancel_row now) ts)
      ≡ update (λ t. member t.id (id ∷ ids) && is_active_task t.status) (cancel_row now) ts
unfolding update member
cancel_again now id ids [] = refl
cancel_again now id ids (t ∷ ts) = ground (arith, cancel_again now id ids ts)

update-nothing :
    (now : ℕ) (ts : List CrawlTask)
    → ts ≡ update (λ t. member t.id [] && is_active_task t.status) (cancel_row now) ts
unfolding update member
update-nothing now [] = refl
update-nothing now (t ∷ ts) = ground (arith, update-nothing now ts)

pub cancel_all-tasks :
    (now : ℕ) (ids : List ℕ) (db : Db)
    → (cancel_all now ids db).tasks
      ≡ update (λ t. member t.id ids && is_active_task t.status) (cancel_row now) db.tasks
unfolding cancel_all cancel_one
cancel_all-tasks now [] db = update-nothing now db.tasks
cancel_all-tasks now (id ∷ ids) db =
    cancel_all-tasks now ids (cancel_one now db id) ∙ cancel_again now id ids db.tasks

pub cancel_all-next :
    (now : ℕ) (ids : List ℕ) (db : Db) → (cancel_all now ids db).next_task_id ≡ db.next_task_id
unfolding cancel_all cancel_one
cancel_all-next now [] db = refl
cancel_all-next now (id ∷ ids) db = cancel_all-next now ids (cancel_one now db id)

pub cancel_task_commit-Evolves :
    (early : Db) (now id : ℕ) (db : Db) → Ensures (Evolves db) (cancel_task_commit early now id db)
unfolding cancel_task_commit
cancel_task_commit-Evolves early now id db = Ensures-or_fail _ λ task read.
    Ensures-guard _ λ active. Ensures-guard _ λ live. succeeds (
      Evolves-update (λ t. member t.id (descendants id db.tasks) && is_active_task t.status)
        (cancel_row now)
        (λ t h.
          let live : is_active_task t.status ≡ true = ground (arith, h) in
          record {
            id = refl;
            run = refl;
            parent = refl;
            count = omega arith;
            move = active-cancelled t.status live;
          })
        (cancel_all-tasks now (descendants id db.tasks) db)
        (cancel_all-next now (descendants id db.tasks) db))

pub cancel_run-Evolves : (now id : ℕ) (db : Db) → Ensures (Evolves db) (cancel_run now id db)
unfolding cancel_run
cancel_run-Evolves now id db = Ensures-guard _ λ one. succeeds (
    Evolves-update (is_live_in id) (end_task now TaskStatus.cancelled)
      (λ t h.
        let live : is_active_task t.status ≡ true = ground (arith, h) in
        end_live-Edge now TaskStatus.cancelled t live (active-cancelled t.status live))
      refl refl)

pub limit_event-tables :
    (e : LimitRow) (db : Db)
    → ((limit_event e db).tasks ≡ db.tasks) × ((limit_event e db).next_task_id ≡ db.next_task_id)
unfolding limit_event
limit_event-tables e db = elim (Bool-cases (exists (same_limit e) db.limit_events)) [
  | inl known ↦ rw (known, limit_event) (refl, refl)
  | inr new ↦ rw (new, limit_event) (refl, refl)
]

pub limit_event-Evolves : (e : LimitRow) (db : Db) → Evolves db (limit_event e db)
limit_event-Evolves e db = let kept = limit_event-tables e db in Evolves-keep kept.0 kept.1

record_limits-next :
    (ts : List CrawlTask) (db : Db) → (record_limits ts db).next_task_id ≡ db.next_task_id
unfolding record_limits
record_limits-next [] db = refl
record_limits-next (t ∷ ts) db =
    let event = limit_row t t.input.url Reason.max_duration_seconds in
    record_limits-next ts (limit_event event db) ∙ (limit_event-tables event db).1

pub expire_rows-Evolves : (now run_id : ℕ) (db : Db) → Evolves db (expire_rows now run_id db)
unfolding expire_rows
expire_rows-Evolves now run_id db =
    Evolves-update (is_live_in run_id) (limit_task now)
      (λ t h.
        let live : is_active_task t.status ≡ true = ground (arith, h) in
        record {
          id = refl;
          run = refl;
          parent = refl;
          count = omega arith;
          move = active-limited t.status live;
        })
      refl (record_limits-next (select (is_live_in run_id) db.tasks) db)

failed-queued : (s : TaskStatus) → is_failed_task s ≡ true → can_move s TaskStatus.queued ≡ true
failed-queued s h = ground arith

pub retry_task-Evolves :
    (early : Db) (now id : ℕ) (db : Db) → Ensures (Evolves db) (retry_task early now id db)
unfolding retry_task
retry_task-Evolves early now id db = Ensures-or_fail _ λ task read. Ensures-guard _ λ first_look.
    Ensures-guard _ λ locked. Ensures->>= λ budget limits. Ensures-guard _ λ in_time.
      Ensures-guard _ λ one. succeeds (
        Evolves-update (is_failed_id id) (revive now (retry_limit task))
          (λ t h. record {
            id = refl;
            run = refl;
            parent = refl;
            count = omega arith;
            move = failed-queued t.status (ground (arith, h));
          })
          refl refl)

pub create_run-Evolves :
    (now workflow version : ℕ) (trigger : String) (input : TaskInput) (db : Db)
    → Evolves db (create_run now workflow version trigger input db).0
unfolding create_run
create_run-Evolves now workflow version trigger input db = Evolves-keep refl refl

insert-Evolves :
    (t : CrawlTask) {db db' : Db}
    → IsFresh db.next_task_id t
    → db'.tasks ≡ db.tasks ++ t ∷ []
    → db'.next_task_id ≡ suc db.next_task_id
    → Evolves db db'
insert-Evolves t {db} fresh tasks next = record {
  rows = rw tasks (Evolve-append db.next_task_id db.tasks (t ∷ []) (fresh, tt));
  next = omega (arith, next);
}

pub rerun_run-Evolves :
    (early : Db) (now id : ℕ) (db : Db) → Ensures (λ r. Evolves db r.0) (rerun_run early now id db)
unfolding rerun_run
rerun_run-Evolves early now id db = Ensures-or_fail _ λ original read.
    Ensures-or_fail _ λ root found. succeeds (
      insert-Evolves (queued_task db now _ root)
        (record { id = omega arith; count = refl; status = refl }) refl refl)

pub update_run_summary-Evolves :
    (run_id : ℕ) (summary : JsonText) (db : Db)
    → Ensures (Evolves db) (update_run_summary run_id summary db)
unfolding update_run_summary
update_run_summary-Evolves run_id summary db =
    Ensures-guard _ λ named. succeeds (Evolves-keep refl refl)

pub insert_task-Evolves :
    (now : ℕ) (q : Request) (parent : Option ℕ) (depth : ℕ) (db : Db)
    → Evolves db (insert_task now (new_task db now q parent depth) db).0
unfolding insert_task
insert_task-Evolves now q parent depth db =
    insert-Evolves (new_task db now q parent depth)
      (record { id = omega arith; count = refl; status = refl }) refl refl
